-- ===== src/Peer/Building/Returning.antt =====
-- src/batch/main.cc: the constructor of Peer where it returns.
use aws_efa_examples.Common.{
  subst, ok-injective, ℕ, ◌≡◌, ◌≢◌, ◌+◌, ◌*◌, ◌^◌, ◌≤◌, ◌<◌, ◌==◌, not, refl, Outcome, ok, throw,
  undefined, >>=-eq-ok, ensure, assertion, arith,
}
use aws_efa_examples.Loop.Io.{Io}
use aws_efa_examples.Net.{Net, new_net, open_net}
use aws_efa_examples.Peer.{place_rank, check_pages}
use aws_efa_examples.Peer.Filling.{throw-ne-ok}
use aws_efa_examples.Peer.Placing.{check_pages-eq-ok}
use aws_efa_examples.Peer.Building.{
  PeerAnswers, set_taskset, after, connect_in, check_conn, pin_peer, open_peer, peer_body,
  unwind_peer, new_peer,
}

after-eq-ok :
    {A B : Type 0} (r : (Net × Io) × Outcome A) (next : A → Net × Io → (Net × Io) × Outcome B)
    (b : B)
    → (after r next).1 ≡ ok b
    → (a : A) × (r.1 ≡ ok a) × ((next a (r.0)).1 ≡ ok b)
after-eq-ok (s, ok a) next b e = (a, refl, e)
after-eq-ok (s, throw x) next b e = absurd (throw-ne-ok e)
after-eq-ok (s, undefined) next b e = cc

not-zero : (c : ℕ) (u : Unit {0}) → ensure (not (c == 0)) (assertion "!!conn_") ≡ ok u → c ≢ 0
not-zero c u e = ground arith

module _ (a : PeerAnswers) (local_rank page_size num_pages : ℕ) where
  check_conn-eq-ok :
      (d c : ℕ) (s : Net × Io)
      → (check_conn a local_rank page_size num_pages d s).1 ≡ ok c
      → (c ≢ 0)
        × (check_pages page_size num_pages
              ((a.conn_at c).read_buffer.size)
              ((a.conn_at c).write_buffer.size)
            ≡ ok tt)
  check_conn-eq-ok d c s e =
      let (u, nonzero, e) = >>=-eq-ok (ensure (not (d == 0)) (assertion "!!conn_")) _ e in
      let (v, tested, e) =
        >>=-eq-ok
          (check_pages page_size num_pages ((a.conn_at d).read_buffer.size)
            ((a.conn_at d).write_buffer.size))
          _ e in
      subst
        (λ c.
          (c ≢ 0)
          × (check_pages page_size num_pages ((a.conn_at c).read_buffer.size)
                ((a.conn_at c).write_buffer.size)
              ≡ ok tt))
        (ok-injective e) (not-zero d u nonzero, tested)

  unwind-eq-ok :
      (r : (Net × Io) × Outcome ℕ) (c : ℕ)
      → (unwind_peer a local_rank page_size num_pages r).0 ≡ ok c
      → r.1 ≡ ok c
  unwind-eq-ok (s, ok d) c e = e
  unwind-eq-ok (s, throw x) c e = absurd (throw-ne-ok e)
  unwind-eq-ok (s, undefined) c e = cc

  open_peer-eq-ok :
      (info c : ℕ) (s : Net × Io)
      → (open_peer a local_rank page_size num_pages info s).1 ≡ ok c
      → (d : ℕ) × (t : Net × Io) × ((check_conn a local_rank page_size num_pages d t).1 ≡ ok c)
  unfolding open_peer
  open_peer-eq-ok info c s e =
      let connected = after (open_net (a.opens info) s) (λ _. connect_in a) in
      let (d, _, e) = after-eq-ok connected (check_conn a local_rank page_size num_pages) c e in
      (d, connected.0, e)

  peer_body-eq-ok :
      (c : ℕ) (s : Net × Io)
      → (peer_body a local_rank page_size num_pages s).1 ≡ ok c
      → (d : ℕ) × (t : Net × Io) × ((check_conn a local_rank page_size num_pages d t).1 ≡ ok c)
  unfolding peer_body
  peer_body-eq-ok c s e =
      let ((cpu, info), _, e) =
        after-eq-ok (s, place_rank (a.logical_index) (a.affinities) local_rank)
          (pin_peer a local_rank page_size num_pages) c e in
      let (_, _, e) =
        after-eq-ok (s, set_taskset (a.set_affinity cpu))
          (λ _. open_peer a local_rank page_size num_pages info) c e in
      open_peer-eq-ok info c s e

  -- Where the constructor of Peer returns, and the size of all pages is less than 2^64, it has a connection,
  -- and each page lies in the read buffer and in the write buffer of that connection.
  pub new_peer-eq-ok :
      (io : Io) (c i : ℕ)
      → (new_peer a local_rank page_size num_pages io).0 ≡ ok c
      → page_size * num_pages < 2 ^ 64
      → i < num_pages
      → (c ≢ 0)
        × (i * page_size + page_size ≤ (a.conn_at c).read_buffer.size)
        × (i * page_size + page_size ≤ (a.conn_at c).write_buffer.size)
  unfolding new_peer
  new_peer-eq-ok io c i e small l =
      let body = peer_body a local_rank page_size num_pages (new_net, io) in
      let (d, t, e) = peer_body-eq-ok c (new_net, io) (unwind-eq-ok body c e) in
      let (made, tested) = check_conn-eq-ok d c t e in
      let (reads, writes) = check_pages-eq-ok page_size num_pages _ _ i tested small l in
      (made, reads, writes)

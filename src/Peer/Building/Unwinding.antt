-- ===== src/Peer/Building/Unwinding.antt =====
-- src/batch/main.cc: what the constructor of Peer closes where it ends in an exception.
use aws_efa_examples.Common.{
  sym, ◌∙◌, Exception, ℕ, ◌≡◌, refl, List, [], ◌∷◌, ◌++◌, map, none, Outcome, ok, throw, undefined,
  arith,
}
use aws_efa_examples.Loop.Io.{Io}
use aws_efa_examples.Buffer.{Release}
use aws_efa_examples.Conn.{Conn}
use aws_efa_examples.Conn.Lifetime.{destroy_conn}
use aws_efa_examples.Net.{Net, new_net, connect, open_net, destroy_net}
use aws_efa_examples.Net.Closing.{Closed, object, buffer, close_conns, end_net}
use aws_efa_examples.Net.Teardown.{made_by, open_net-destroy_net}
use aws_efa_examples.Peer.{place_rank}
use aws_efa_examples.Peer.Filling.{throw-ne-ok}
use aws_efa_examples.Peer.Building.{
  PeerAnswers, after, connect_in, check_conn, open_peer, peer_body, unwind_peer, new_peer,
}

-- The objects of libfabric among what is closed.
abbrev pub objects : List Closed → List ℕ
objects [] = []
objects (object p ∷ l) = p ∷ objects l
objects (buffer r ∷ l) = objects l

objects-buffers : (rs : List Release) (l : List Closed) → objects (map buffer rs ++ l) ≡ objects l
objects-buffers [] l = refl
objects-buffers (r ∷ rs) l = objects-buffers rs l

objects-close_conns : (f : ℕ → Conn) (m : List (List ℕ × ℕ)) → objects (close_conns f m) ≡ []
objects-close_conns f [] = refl
objects-close_conns f (c ∷ m) =
    rw (objects-buffers (destroy_conn (f c.1)) (close_conns f m)) (objects-close_conns f m)

objects-closed :
    (f : ℕ → Conn) (m : List (List ℕ × ℕ)) (ps : List ℕ)
    → objects (map object ps ++ close_conns f m) ≡ ps
objects-closed f m [] = objects-close_conns f m
objects-closed f m (p ∷ ps) = rw (objects-closed f m ps) refl

objects-end_net : (f : ℕ → Conn) (s : Net × Io) → objects (end_net f s) ≡ (destroy_net s).1
unfolding end_net
objects-end_net f s = objects-closed f (s.0.conns) (destroy_net s).1

connect_in-destroy_net :
    (a : PeerAnswers) (s : Net × Io) → (destroy_net (connect_in a s).0).1 ≡ (destroy_net s).1
unfolding connect destroy_net
connect_in-destroy_net a s = ground arith

after_connect :
    (a : PeerAnswers) (r : (Net × Io) × Outcome (Unit {0}))
    → (destroy_net (after r (λ _. connect_in a)).0).1 ≡ (destroy_net (r.0)).1
after_connect a (s, ok u) = connect_in-destroy_net a s
after_connect a (s, throw e) = refl
after_connect a (s, undefined) = refl

after_check :
    (a : PeerAnswers) (local_rank page_size num_pages : ℕ) (r : (Net × Io) × Outcome ℕ)
    → (after {A = ℕ} {B = ℕ} r (check_conn a local_rank page_size num_pages)).0 ≡ r.0
after_check a local_rank page_size num_pages (s, ok u) = refl
after_check a local_rank page_size num_pages (s, throw e) = refl
after_check a local_rank page_size num_pages (s, undefined) = refl

open_peer-destroy_net :
    (a : PeerAnswers) (local_rank page_size num_pages info : ℕ) (io : Io)
    → (destroy_net (open_peer a local_rank page_size num_pages info (new_net, io)).0).1
      ≡ made_by (a.opens info)
unfolding open_peer
open_peer-destroy_net a local_rank page_size num_pages info io =
    rw
      (
        after_check a local_rank page_size num_pages
            (after (open_net (a.opens info) (new_net, io)) (λ _. connect_in a)),
        after_connect a (open_net (a.opens info) (new_net, io)),
      )
      (open_net-destroy_net (a.opens info) io)

unwound :
    (a : PeerAnswers) (local_rank page_size num_pages cpu info : ℕ) (io : Io)
    → place_rank (a.logical_index) (a.affinities) local_rank ≡ ok (cpu, info)
    → a.set_affinity cpu ≡ none
    → peer_body a local_rank page_size num_pages (new_net, io)
      ≡ open_peer a local_rank page_size num_pages info (new_net, io)
unfolding peer_body
unwound a local_rank page_size num_pages cpu info io p s = rw (p, s) refl

unwind-throw :
    (a : PeerAnswers) (local_rank page_size num_pages : ℕ) (r : (Net × Io) × Outcome ℕ)
    (e : Exception)
    → (unwind_peer a local_rank page_size num_pages r).0 ≡ throw e
    → objects (unwind_peer a local_rank page_size num_pages r).2 ≡ (destroy_net (r.0)).1
unwind-throw a local_rank page_size num_pages (s, ok c) e t = absurd (throw-ne-ok (sym t))
unwind-throw a local_rank page_size num_pages (s, throw _) e t = objects-end_net (a.conn_at) s
unwind-throw a local_rank page_size num_pages (s, undefined) e t = cc

-- Where the constructor of Peer ends in an exception after the core is found and the process is bound to
-- it, it has closed each object that Net::Open made, once and in the order of ~Net, and no other object
-- of a Net, whichever of the later calls and tests failed.
pub new_peer-throw :
    (a : PeerAnswers) (local_rank page_size num_pages cpu info : ℕ) (io : Io) (e : Exception)
    → place_rank (a.logical_index) (a.affinities) local_rank ≡ ok (cpu, info)
    → a.set_affinity cpu ≡ none
    → (new_peer a local_rank page_size num_pages io).0 ≡ throw e
    → objects (new_peer a local_rank page_size num_pages io).2 ≡ made_by (a.opens info)
unfolding new_peer
new_peer-throw a local_rank page_size num_pages cpu info io e p s t =
    unwind-throw a local_rank page_size num_pages _ e t
    ∙ rw (unwound a local_rank page_size num_pages cpu info io p s)
        (open_peer-destroy_net a local_rank page_size num_pages info io)

-- ===== src/Peer/Building.antt =====
-- src/batch/main.cc: the constructor of Peer as a whole. What sched_setaffinity, libfabric and the
-- constructor of Conn answer are arguments; the code of cudaSetDevice is not looked at.
pub mod Returning
pub mod Unwinding
use Prim.Native.String.{String}
use aws_efa_examples.Common.{
  ℕ, ◌==◌, not, if◌then◌else◌, List, [], ◌∷◌, Outcome, ok, throw, undefined, ◌>>=◌, ensure,
  assertion, runtime_error, Option, none, some,
}
use aws_efa_examples.Loop.Io.{Io}
use aws_efa_examples.Topology.Affinity.{GpuAffinity}
use aws_efa_examples.Conn.{Conn}
use aws_efa_examples.Net.{Net, new_net, OpenAnswers, open_net, destroy_net, connect}
use aws_efa_examples.Net.Closing.{Closed, end_net}
use aws_efa_examples.Peer.{place_rank, check_pages}

-- Taskset::Set, by the text of the error of sched_setaffinity if its code is negative.
abbrev pub set_taskset : Option String → Outcome (Unit {0})
set_taskset none = ok tt
set_taskset (some message) = throw (runtime_error message)

-- What the constructor is answered: the core's logical_index and the affinities of the GPUs, the
-- errors of sched_setaffinity, the answers to Net::Open for an fi_info, the code of fi_av_insert, the
-- text of the peer's address, and the connection that the constructor of Conn makes, by its address.
pub record PeerAnswers : Type 0 where
  pub logical_index : ℕ → ℕ
  pub affinities : List GpuAffinity
  pub set_affinity : (cpu : ℕ) → Option String
  pub opens : (info : ℕ) → OpenAnswers
  pub inserted : ℕ
  pub key : List ℕ
  pub made : Outcome ℕ
  pub conn_at : ℕ → Conn

-- A statement of the body, after the one before it returned.
abbrev pub after :
    {A B : Type 0}
    → (Net × Io) × Outcome A
    → (A → Net × Io → (Net × Io) × Outcome B)
    → (Net × Io) × Outcome B
after (s, ok a) next = next a s
after (s, throw e) next = (s, throw e)
after (s, undefined) next = (s, undefined)

-- Net::Connect of the member.
abbrev pub connect_in : PeerAnswers → Net × Io → (Net × Io) × Outcome ℕ
connect_in a (net, io) =
    let (net', made) = connect (a.inserted) (a.key) (a.made) net in ((net', io), made)

module _ (a : PeerAnswers) (local_rank page_size num_pages : ℕ) where
  -- The tests of the connection and its buffers.
  abbrev pub check_conn : ℕ → Net × Io → (Net × Io) × Outcome ℕ
  check_conn c s =
      let conn = a.conn_at c in
      (
        s,
        do
          _ ← ensure (not (c == 0)) (assertion "!!conn_")
          _ ← check_pages page_size num_pages (conn.read_buffer.size) (conn.write_buffer.size)
          ok c,
      )

  -- The body, from the opening of the member net_ on.
  unfoldable pub open_peer : (info : ℕ) → Net × Io → (Net × Io) × Outcome ℕ
  unfolding open_net connect check_pages
  open_peer info s = after (after (open_net (a.opens info) s) (λ _. connect_in a)) check_conn

  -- The body after the core and the fi_info are found: Taskset::Set, and then the rest.
  abbrev pub pin_peer : (cpu_info : ℕ × ℕ) → Net × Io → (Net × Io) × Outcome ℕ
  pin_peer (cpu, info) s = after (s, set_taskset (a.set_affinity cpu)) (λ _. open_peer info)

  -- The body; it ends with the connection.
  unfoldable pub peer_body : Net × Io → (Net × Io) × Outcome ℕ
  unfolding place_rank open_peer
  peer_body s = after (s, place_rank (a.logical_index) (a.affinities) local_rank) pin_peer

  -- An exception in the body destroys the members, of which net_ has something to close.
  abbrev pub unwind_peer : (Net × Io) × Outcome ℕ → Outcome ℕ × (Net × Io) × List Closed
  unwind_peer (s, ok c) = (ok c, s, [])
  unwind_peer (s, throw e) = (throw e, (destroy_net s).0, end_net (a.conn_at) s)
  unwind_peer (s, undefined) = (undefined, s, [])

  -- Peer(peer, page_size, num_pages).
  unfoldable pub new_peer : Io → Outcome ℕ × (Net × Io) × List Closed
  unfolding peer_body end_net destroy_net
  new_peer io = unwind_peer (peer_body (new_net, io))

-- ===== src/Session/Gather.antt =====
-- Each rank finds the address of its peer.
use aws_efa_examples.Common.{ℕ, ◌+◌, ◌*◌, ◌<◌, ◌≡◌, arith}
use aws_efa_examples.Session.{Bytes, endpoint_idx, copy_bytes, all_gather_addr, remote_of}

-- What MPI_Allgather promises on `size` ranks, in place with blocks of 64 bytes: each rank has at the
-- end, as block `i`, what rank `i` had there.
abbrev pub Gathers : (size : ℕ) → ((ℕ → Bytes) → ℕ → Bytes) → Type 0
Gathers size all_gather =
    (buffers : ℕ → Bytes) (rank i o : ℕ)
    → rank < size
    → i < size
    → o < 64
    → all_gather buffers rank (i * 64 + o) ≡ buffers i (i * 64 + o)

-- With an MPI_Allgather that gathers, each rank passes to Net::Connect exactly the 64 bytes of the
-- address that its peer's own endpoint has.
pub remote_of-addr :
    (all_gather : (ℕ → Bytes) → ℕ → Bytes) (addr : ℕ → Bytes) (size rank peer o : ℕ)
    → Gathers size all_gather
    → rank < size
    → peer < size
    → o < 64
    → remote_of all_gather addr rank peer o ≡ addr peer o
unfolding remote_of all_gather_addr
remote_of-addr all_gather addr size rank peer o gathers r p h =
    ground
      (arith, gathers (λ k. copy_bytes (endpoint_idx k) 0 64 (λ i. 0) (addr k)) rank peer o r p h)

-- ===== src/Session/Handshake.antt =====
-- What the reader allocates is what the writer writes to.
use aws_efa_examples.Common.{
  ℕ, ◌≡◌, refl, [], ◌∷◌, ◌==◌, if◌then◌else◌, ok, throw, assertion, arith,
}
use aws_efa_examples.Buffer.{k_memory_region_size}
use aws_efa_examples.Session.{Message, msgsize, alloc, reader_handshake, writer_handshake}

-- If the message that the reader allocates is sent and received with its whole length, the reader's
-- handshake succeeds, and the writer's fails its assertion if it waits for another rank; otherwise
-- the writer has the reader's seed and, as its one region, the reader's buffer with its key.
pub writer_handshake-alloc :
    (rank peer seed addr key : ℕ) (old : Message)
    → (reader_handshake (alloc rank seed addr key old) (msgsize (alloc rank seed addr key old))
        ≡ ok tt)
      × (writer_handshake peer
            (alloc rank seed addr key old)
            (msgsize (alloc rank seed addr key old))
          ≡ (if rank == peer
              then ok (seed, record { addr = addr; size = k_memory_region_size; key = key } ∷ [])
              else throw (assertion "resp->rank == peer_")))
unfolding writer_handshake reader_handshake alloc
writer_handshake-alloc rank peer seed addr key old = (refl, ground arith)

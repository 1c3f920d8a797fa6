-- ===== src/Peer.antt =====
-- src/batch/main.cc: the constructor of Peer, from the local rank to the connection, and the random
-- data of RandBuffer, which Writer sends and Verify compares. The generator and its distribution are
-- the standard library's: what they give one after the other is an argument.
pub mod Building
pub mod Filling
pub mod Verifying
pub mod Placing
use aws_efa_examples.Common.{
  check_failed, ℕ, zero, suc, ◌+◌, ◌*◌, ◌/◌, ◌%◌, ◌^◌, ◌==◌, leb, Bool, true, false, if◌then◌else◌,
  Option, none, some, List, [], ◌∷◌, ◌++◌, get_elem?, Outcome, ok, throw, undefined, ◌>>=◌, ensure,
  assertion,
}
use aws_efa_examples.Topology.Affinity.{GpuAffinity}

-- The bytes of a uint64_t, the lowest first, as the machine stores it.
abbrev pub store_bytes : (n : ℕ) → ℕ → List ℕ
store_bytes zero v = []
store_bytes (suc n) v = v % 256 ∷ store_bytes n (v / 256)

-- The loop of RandBuffer for `words` of the words, of which `draw i` is the one that the generator gives
-- at index `i`.
unfoldable pub fill_words : (draw : ℕ → ℕ) (i words : ℕ) → List ℕ
fill_words draw i zero = []
fill_words draw i (suc words) = store_bytes 8 (draw i) ++ fill_words draw (i + 1) words

-- RandBuffer, by what the generator gives for a seed.
unfoldable pub rand_buffer : (draw : (seed : ℕ) → ℕ → ℕ) (seed size : ℕ) → Outcome (List ℕ)
unfolding fill_words
rand_buffer draw seed size = do
  _ ← ensure (size % 8 == 0) (assertion "size % sizeof(uint64_t) == 0")
  ok (fill_words (draw seed) 0 (size / 8))

-- `expected == actual` of two std::vector<uint8_t>.
unfoldable pub same_bytes : List ℕ → List ℕ → Bool
same_bytes [] [] = true
same_bytes [] (y ∷ ys) = false
same_bytes (x ∷ xs) [] = false
same_bytes (x ∷ xs) (y ∷ ys) = if x == y then same_bytes xs ys else false

-- What cudaMemcpy copies from the device: `n` bytes from an address on.
unfoldable pub read_bytes : (bytes : ℕ → ℕ) (from n : ℕ) → List ℕ
read_bytes bytes from zero = []
read_bytes bytes from (suc n) = bytes from ∷ read_bytes bytes (from + 1) n

-- Verify, with the memory of the device and the code that cudaMemcpy returns.
unfoldable pub verify :
    (draw : (seed : ℕ) → ℕ → ℕ) (copied : ℕ) (bytes : ℕ → ℕ) (cuda_buffer seed size : ℕ)
    → Outcome Bool
unfolding rand_buffer same_bytes read_bytes
verify draw copied bytes cuda_buffer seed size = do
  expected ← rand_buffer draw seed size
  _ ← ensure (copied == 0) (check_failed "cudaMemcpy" copied)
  ok (same_bytes expected (read_bytes bytes cuda_buffer size))

-- cudaMemcpy to the device, of a whole buffer.
abbrev pub write_bytes : (dst : ℕ) → List ℕ → (ℕ → ℕ) → ℕ → ℕ
write_bytes dst [] bytes q = bytes q
write_bytes dst (x ∷ xs) bytes q = if dst == q then x else write_bytes (dst + 1) xs bytes q

-- The constructor of Writer after that of Peer, to the write buffer at `cuda_buffer`.
unfoldable pub fill_writer :
    (draw : (seed : ℕ) → ℕ → ℕ) (copied peer_seed size cuda_buffer : ℕ) (bytes : ℕ → ℕ)
    → Outcome (ℕ → ℕ)
unfolding rand_buffer
fill_writer draw copied peer_seed size cuda_buffer bytes = do
  buffer ← rand_buffer draw peer_seed size
  _ ← ensure (copied == 0) (check_failed "cudaMemcpy" copied)
  ok (write_bytes cuda_buffer buffer bytes)

-- `v[i]` of a std::vector.
abbrev pub at : {A : Type 0} → List A → ℕ → Outcome A
at xs i = elim (get_elem? xs i) [ none ↦ undefined | some x ↦ ok x ]

-- The first part of the constructor of Peer: the core and the fi_info for a local rank.
unfoldable pub place_rank :
    (logical_index : ℕ → ℕ) → List GpuAffinity → (local_rank : ℕ) → Outcome (ℕ × ℕ)
place_rank logical_index affinities local_rank = do
  affinity ← at affinities local_rank
  core ← at (affinity.cores) local_rank
  efa ← at (affinity.efas) local_rank
  ok (logical_index core, efa.1)

-- The last part: the buffers of the connection are large enough for the pages, by 64-bit arithmetic.
unfoldable pub check_pages : (page_size num_pages read_size write_size : ℕ) → Outcome (Unit {0})
check_pages page_size num_pages read_size write_size = do
  let total = page_size * num_pages % 2 ^ 64
  _ ←
      ensure (leb total read_size)
        (assertion "(page_size_ * num_pages_) <= conn_->GetReadBuffer().GetSize()")
  ensure (leb total write_size)
      (assertion "(page_size_ * num_pages_) <= conn_->GetWriteBuffer().GetSize()")

-- ===== src/Session.antt =====
-- src/batch/main.cc: how the two ranks of the transfer find each other and agree on the memory, and
-- the passes over it.
pub mod Gather
pub mod Handshake
pub mod Passes
use aws_efa_examples.Common.{
  ℕ, zero, suc, ◌+◌, ◌-◌, ◌*◌, ◌/◌, ◌%◌, ◌^◌, ◌≤◌, ◌<◌, ◌≡◌, ◌≢◌, ◌⊎◌, ◌↔◌, refl, sym, ap, ◌∙◌,
  subst, Bool, true, false, not, ◌&&◌, ◌||◌, inl, inr, Option, none, some, List, [], ◌∷◌, ◌++◌, map,
  append_assoc, append-nil, map-append, ltb, leb, ◌==◌, if◌then◌else◌, Bool-cases, Option-cases,
  ==_iff, ==-self, ne→==, le→leb, leb→le, lt→ltb, le→ltb, keep, filter_map, concat_map, All,
  All-append, count, count-append, length, length-append, length-map, take, drop, Outcome, ok,
  throw, undefined, Exception, check_failed, assertion, invalid_argument, runtime_error,
  out_of_range, ◌>>=◌, ◌>>◌, ensure, require, >>=-eq-ok, lookup, emplace, erase, contains, add,
  remove, arith, outcome_of,
}
use aws_efa_examples.Net.Address.{k_max_addr_size}
use aws_efa_examples.Buffer.{k_memory_region_size}
use aws_efa_examples.Writer.{CudaRegion, Request, Batch, Pages, write_one}

-- ENDPOINT_IDX.
abbrev pub endpoint_idx : ℕ → ℕ
endpoint_idx rank = rank * k_max_addr_size

-- The bytes of a string or an array, by index.
abbrev pub Bytes : Type 0
Bytes = ℕ → ℕ

-- std::memcpy of `n` bytes to `dst` at `at`, from `src` at `from`.
abbrev pub copy_bytes : (at from n : ℕ) → (dst src : Bytes) → Bytes
copy_bytes at from n dst src i = if leb at i && ltb i (at + n) then src (from + (i - at)) else dst i

-- AllGatherAddr on all ranks at once: `addr` and the result by rank, with MPI_Allgather, which takes
-- and gives the ranks' buffers, as an argument.
unfoldable pub all_gather_addr :
    (all_gather : (ℕ → Bytes) → ℕ → Bytes) (addr : ℕ → Bytes) (endpoints : ℕ → Bytes) → ℕ → Bytes
all_gather_addr all_gather addr endpoints =
    all_gather
      (λ rank. copy_bytes (endpoint_idx rank) 0 k_max_addr_size (endpoints rank) (addr rank))

-- Peer::Connect up to the call of Net::Connect: the address that `rank` passes on.
unfoldable pub remote_of :
    (all_gather : (ℕ → Bytes) → ℕ → Bytes) (addr : ℕ → Bytes) (rank peer : ℕ) → Bytes
unfolding all_gather_addr
remote_of all_gather addr rank peer =
    let endpoints = all_gather_addr all_gather addr (λ rank i. 0) in
    copy_bytes 0 (endpoint_idx peer) k_max_addr_size (λ i. 0) (endpoints rank)

-- Message, with the regions that stand behind it in memory.
pub record Message : Type 0 where
  pub rank : ℕ
  pub num : ℕ
  pub seed : ℕ
  pub regions : ℕ → CudaRegion

-- sizeof(Message), sizeof(CUDARegion) and MSGSIZE, with 64-bit sizes.
abbrev pub message_size : ℕ
message_size = 24

abbrev pub cuda_region_size : ℕ
cuda_region_size = 24

unfoldable pub msgsize : Message → ℕ
msgsize msg = (message_size + cuda_region_size * msg.num % 2 ^ 64) % 2 ^ 64

-- Reader::Alloc, over what the send buffer held.
unfoldable pub alloc : (rank seed addr key : ℕ) → Message → Message
alloc rank seed addr key old = record {
  rank = rank;
  num = 1;
  seed = seed;
  regions = λ i.
      if i == 0
      then record { addr = addr; size = k_memory_region_size; key = key }
      else old.regions i;
}

-- Reader::Handshake after Send has returned `size`.
unfoldable pub reader_handshake : Message → (size : ℕ) → Outcome (Unit {0})
unfolding msgsize
reader_handshake req size = ensure (size == msgsize req) (assertion "size == MSGSIZE(req)")

-- The loop of Writer::Handshake, from region `i` on.
unfoldable pub read_regions : (ℕ → CudaRegion) → (i n : ℕ) → List CudaRegion
read_regions regions i zero = []
read_regions regions i (suc n) = regions i ∷ read_regions regions (i + 1) n

-- Writer::Handshake after Recv has returned the message and `size`: the seed and the regions.
unfoldable pub writer_handshake : (peer : ℕ) → Message → (size : ℕ) → Outcome (ℕ × List CudaRegion)
unfolding msgsize read_regions
writer_handshake peer resp size = do
  _ ← ensure (msgsize resp == size) (assertion "MSGSIZE(resp) == size")
  _ ← ensure (resp.rank == peer) (assertion "resp->rank == peer_")
  ok (resp.seed, read_regions resp.regions 0 resp.num)

-- Writer::Write, from pass `i` on: the counters afterwards. `await` is by pass and write.
unfoldable pub write_passes :
    (await : ℕ → ℕ → Outcome ℕ) → Pages → List CudaRegion → (i n ops sent : ℕ) → Outcome (ℕ × ℕ)
unfolding write_one
write_passes await p regions i zero ops sent = ok (ops, sent)
write_passes await p regions i (suc n) ops sent =
    outcome_of (write_one (await i) p regions ops sent) >>= λ b.
    write_passes await p regions (i + 1) n (b.ops) (b.sent)

-- ===== src/Writer.antt =====
-- src/batch/main.cc: Writer::WriteOne, which keeps up to eight writes in flight, and its form in
-- src/affinity/main.cc and src/dmabuf/main.cc, which awaits each write before the next. The result
-- of each write is an argument, by its number.
pub mod Requests
pub mod Pipeline
pub mod Outcomes
pub mod Targets
pub mod Sequential
use aws_efa_examples.Common.{
  ℕ, zero, suc, ◌+◌, ◌-◌, ◌*◌, ◌/◌, ◌%◌, ◌^◌, ◌≤◌, ◌<◌, ◌≡◌, ◌≢◌, ◌⊎◌, ◌↔◌, refl, sym, ap, ◌∙◌,
  subst, Bool, true, false, not, ◌&&◌, ◌||◌, inl, inr, Option, none, some, List, [], ◌∷◌, ◌++◌, map,
  append_assoc, append-nil, map-append, ltb, leb, ◌==◌, if◌then◌else◌, Bool-cases, Option-cases,
  ==_iff, ==-self, ne→==, le→leb, leb→le, lt→ltb, le→ltb, keep, filter_map, concat_map, All,
  All-append, count, count-append, length, length-append, length-map, take, drop, Outcome, ok,
  throw, undefined, Exception, check_failed, assertion, invalid_argument, runtime_error,
  out_of_range, ◌>>=◌, ◌>>◌, ensure, require, >>=-eq-ok, lookup, emplace, erase, contains, add,
  remove, arith, Run, ◌>>>◌,
}

abbrev pub k_imm_data : ℕ
k_imm_data = 0x123

abbrev pub batch_size : ℕ
batch_size = 8

pub record CudaRegion : Type 0 where
  pub addr : ℕ
  pub size : ℕ
  pub key : ℕ

-- The arguments of a call of Conn::Write.
pub record Request : Type 0 where
  pub src : ℕ
  pub sz : ℕ
  pub addr : ℕ
  pub key : ℕ
  pub imm_data : ℕ

-- The variables of WriteOne: its futures, by the numbers of their writes, the counters that it is
-- given by reference, and the writes that it has made.
pub record Batch : Type 0 where
  pub futs : List ℕ
  pub ops : ℕ
  pub sent : ℕ
  pub posted : List Request

-- What the writer holds: the address of its write buffer, and the shape of the data.
pub record Pages : Type 0 where
  pub cuda_buffer : ℕ
  pub page_size : ℕ
  pub num_pages : ℕ

-- The arguments for page `i`, with 64-bit addresses.
abbrev pub page_request : Pages → CudaRegion → ℕ → Request
page_request p region i = record {
  src = (p.cuda_buffer + i * p.page_size) % 2 ^ 64;
  sz = p.page_size;
  addr = (region.addr + i * p.page_size) % 2 ^ 64;
  key = region.key;
  imm_data = if i == p.num_pages - 1 then k_imm_data else 0;
}

-- WriteOne without its futures.
abbrev pub close_batch : Run Batch → Run Batch
close_batch (s, o) = (record s { futs = [] }, o)

module _ (await : ℕ → Outcome ℕ) where
  -- `co_await` of a write, whose result is not used.
  abbrev pub await_write : ℕ → Batch → Run Batch
  await_write f s = (s, await f >>= λ _. ok tt)

  -- `while (futs.size() >= batch_size)`, over the futures.
  unfoldable pub throttle : List ℕ → Batch → Run Batch
  throttle [] s = (s, ok tt)
  throttle (f ∷ fs) s =
      if leb batch_size (length (f ∷ fs))
      then (await_write f s >>> λ s. throttle fs (record s { futs = fs; ops = s.ops + 1 }))
      else (s, ok tt)

  -- `for (auto &fut : futs)`.
  unfoldable pub drain : List ℕ → Batch → Run Batch
  drain [] s = (s, ok tt)
  drain (f ∷ fs) s = await_write f s >>> λ s. drain fs (record s { ops = s.ops + 1 })

  -- The body of the inner loop.
  unfoldable pub post_page : Request → Batch → Run Batch
  unfolding throttle
  post_page r s = throttle s.futs s >>> λ s. (
    record s {
      futs = s.futs ++ length s.posted ∷ [];
      sent = s.sent + 1;
      posted = s.posted ++ r ∷ [];
    },
    ok tt,
  )

  module _ (p : Pages) where
    -- The inner loop, from page `i` on with `n` pages left.
    unfoldable pub post_region : CudaRegion → (i n : ℕ) → Batch → Run Batch
    unfolding post_page
    post_region region i zero s = (s, ok tt)
    post_region region i (suc n) s =
        post_page (page_request p region i) s >>> λ s'. post_region region (i + 1) n s'

    unfoldable pub post_regions : List CudaRegion → Batch → Run Batch
    unfolding post_region
    post_regions [] s = (s, ok tt)
    post_regions (region ∷ regions) s =
        post_region region 0 p.num_pages s >>> λ s'. post_regions regions s'

    -- WriteOne, up to the progress that it prints. Its futures are destroyed at its end and by an
    -- exception that leaves it.
    unfoldable pub write_one : List CudaRegion → (ops sent : ℕ) → Run Batch
    unfolding post_regions drain
    write_one regions ops sent = close_batch (
        post_regions regions (record { futs = []; ops = ops; sent = sent; posted = [] }) >>> λ s.
        drain s.futs s)

  -- The body of the inner loop where each write is awaited at once.
  unfoldable pub write_page : Request → Batch → Run Batch
  write_page r s =
      await_write (length s.posted) (record s { sent = s.sent + 1; posted = s.posted ++ r ∷ [] })
      >>> λ s. (record s { ops = s.ops + 1 }, ok tt)

  module _ (p : Pages) where
    unfoldable pub write_region : CudaRegion → (i n : ℕ) → Batch → Run Batch
    unfolding write_page
    write_region region i zero s = (s, ok tt)
    write_region region i (suc n) s =
        write_page (page_request p region i) s >>> λ s'. write_region region (i + 1) n s'

    unfoldable pub write_regions : List CudaRegion → Batch → Run Batch
    unfolding write_region
    write_regions [] s = (s, ok tt)
    write_regions (region ∷ regions) s =
        write_region region 0 p.num_pages s >>> λ s'. write_regions regions s'

    -- WriteOne without the window.
    unfoldable pub write_one_by_one : List CudaRegion → (ops sent : ℕ) → Run Batch
    unfolding write_regions
    write_one_by_one regions ops sent =
        write_regions regions (record { futs = []; ops = ops; sent = sent; posted = [] })

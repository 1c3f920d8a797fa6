-- ===== src/Session/Passes.antt =====
-- The counters over all passes.
use aws_efa_examples.Common.{
  ℕ, zero, suc, ◌+◌, ◌*◌, ◌≡◌, refl, ap, List, [], ◌∷◌, length, length-append, Outcome, ok, ◌>>=◌,
  arith,
}
use aws_efa_examples.Writer.{CudaRegion, Pages}
use aws_efa_examples.Writer.Requests.{requests, pages_from}
use aws_efa_examples.Writer.Outcomes.{await_upto, outcome_of-write_one}
use aws_efa_examples.Session.{write_passes}

length-pages_from :
    (p : Pages) (region : CudaRegion) (i n : ℕ) → length (pages_from p region i n) ≡ n
length-pages_from p region i zero = refl
length-pages_from p region i (suc n) = ap suc (length-pages_from p region (i + 1) n)

length-requests :
    (p : Pages) (regions : List CudaRegion)
    → length (requests p regions) ≡ length regions * p.num_pages
length-requests p [] = omega arith
length-requests p (region ∷ regions) = grind (
  arith,
  length-append (pages_from p region 0 p.num_pages) (requests p regions),
  length-pages_from p region 0 p.num_pages,
  length-requests p regions,
)

await_upto-ok :
    (await : ℕ → Outcome ℕ) (len : ℕ → ℕ)
    → ((j : ℕ) → await j ≡ ok (len j))
    → (a n : ℕ) → await_upto await a n ≡ ok tt
unfolding await_upto
await_upto-ok await len h a zero = refl
await_upto-ok await len h a (suc n) = rw (h a, await_upto) (await_upto-ok await len h (suc a) n)

-- If all writes succeed, Write returns with both counters grown by the number of operations that it
-- computes for its progress, the passes times the regions times the pages.
pub write_passes-total :
    (await : ℕ → ℕ → Outcome ℕ) (len : ℕ → ℕ → ℕ) (p : Pages) (regions : List CudaRegion)
    (i n ops sent : ℕ)
    → ((k j : ℕ) → await k j ≡ ok (len k j))
    → write_passes await p regions i n ops sent
      ≡ ok (ops + n * (length regions * p.num_pages), sent + n * (length regions * p.num_pages))
unfolding write_passes
write_passes-total await len p regions i zero ops sent h = ground arith
write_passes-total await len p regions i (suc n) ops sent h =
    rw
      (
        outcome_of-write_one (await i) p regions ops sent,
        await_upto-ok (await i) (len i) (h i) 0 (length (requests p regions)),
        ◌>>=◌,
        write_passes-total await len p regions (i + 1) n (ops + length (requests p regions))
            (sent + length (requests p regions)) h,
      )
      (λ k. ok (grown ops k, grown sent k))
  where
    grown :
        (x : ℕ)
        → x + length (requests p regions) + n * (length regions * p.num_pages)
          ≡ x + suc n * (length regions * p.num_pages)
    grown x = omega (arith, length-requests p regions)

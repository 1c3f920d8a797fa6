-- ===== src/Writer/Requests.antt =====
-- The writes of WriteOne, region by region and page by page, as a list.
use aws_efa_examples.Common.{
  >>>-assoc, >>>-congr, ◌>>>◌, Run, sym, ◌∙◌, ℕ, zero, suc, ◌+◌, ◌≡◌, refl, sym, ◌∙◌, List, [], ◌∷◌,
  ◌++◌, concat_map, Outcome, ok,
}
use aws_efa_examples.Writer.{
  CudaRegion, Request, Batch, Pages, page_request, post_page, post_region, post_regions, write_page,
  write_region, write_regions,
}

abbrev pub pages_from : Pages → CudaRegion → (i n : ℕ) → List Request
pages_from p region i zero = []
pages_from p region i (suc n) = page_request p region i ∷ pages_from p region (i + 1) n

abbrev pub requests : Pages → List CudaRegion → List Request
requests p = concat_map (λ region. pages_from p region 0 p.num_pages)

-- A loop over requests.
abbrev pub each : (Request → Batch → Run Batch) → List Request → Batch → Run Batch
each body [] s = (s, ok tt)
each body (r ∷ rs) s = body r s >>> λ s'. each body rs s'

each-append :
    (body : Request → Batch → Run Batch) (xs ys : List Request) (s : Batch)
    → each body (xs ++ ys) s ≡ (each body xs s >>> λ s'. each body ys s')
each-append body [] ys s = refl
each-append body (x ∷ xs) ys s =
    >>>-congr (body x s) _ _ (each-append body xs ys (body x s).0)
    ∙ sym (>>>-assoc (body x s) (λ s'. each body xs s') (λ s'. each body ys s'))

module _ (await : ℕ → Outcome ℕ) (p : Pages) where
  post_region-each :
      (region : CudaRegion) (i n : ℕ) (s : Batch)
      → post_region await p region i n s ≡ each (post_page await) (pages_from p region i n) s
  unfolding post_region
  post_region-each region i zero s = refl
  post_region-each region i (suc n) s =
      >>>-congr (post_page await (page_request p region i) s) _ _
        (post_region-each region (i + 1) n (post_page await (page_request p region i) s).0)

  pub post_regions-each :
      (regions : List CudaRegion) (s : Batch)
      → post_regions await p regions s ≡ each (post_page await) (requests p regions) s
  unfolding post_regions
  post_regions-each [] s = refl
  post_regions-each (region ∷ regions) s = rw (post_region-each region 0 p.num_pages s) (
      >>>-congr (each (post_page await) (pages_from p region 0 p.num_pages) s) _ _
        (post_regions-each regions (each (post_page await) (pages_from p region 0 p.num_pages) s).0)
      ∙ sym (each-append (post_page await) (pages_from p region 0 p.num_pages) _ s))

  write_region-each :
      (region : CudaRegion) (i n : ℕ) (s : Batch)
      → write_region await p region i n s ≡ each (write_page await) (pages_from p region i n) s
  unfolding write_region
  write_region-each region i zero s = refl
  write_region-each region i (suc n) s =
      >>>-congr (write_page await (page_request p region i) s) _ _
        (write_region-each region (i + 1) n (write_page await (page_request p region i) s).0)

  pub write_regions-each :
      (regions : List CudaRegion) (s : Batch)
      → write_regions await p regions s ≡ each (write_page await) (requests p regions) s
  unfolding write_regions
  write_regions-each [] s = refl
  write_regions-each (region ∷ regions) s = rw (write_region-each region 0 p.num_pages s) (
      >>>-congr (each (write_page await) (pages_from p region 0 p.num_pages) s) _ _ (
        write_regions-each regions
          (each (write_page await) (pages_from p region 0 p.num_pages) s).0)
      ∙ sym (each-append (write_page await) (pages_from p region 0 p.num_pages) _ s))

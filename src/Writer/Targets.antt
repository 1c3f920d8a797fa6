-- ===== src/Writer/Targets.antt =====
-- Where the writes of WriteOne go, and what they carry.
use aws_efa_examples.Common.{
  ℕ, zero, suc, ◌+◌, ◌*◌, ◌%◌, ◌^◌, ◌≤◌, ◌<◌, ◌≡◌, refl, not, List, [], ◌∷◌, ◌++◌, ◌==◌,
  if◌then◌else◌, keep, All, All-append, length, ok, arith,
}
use aws_efa_examples.Conn.{Fabric, Conn, World, FiMsgRma, Posted, writemsg, write}
use aws_efa_examples.Writer.{CudaRegion, Request, Pages, page_request}
use aws_efa_examples.Writer.Requests.{requests, pages_from}

abbrev InRegion : CudaRegion → Request → Type 0
InRegion region r = (region.addr ≤ r.addr) × (r.addr + r.sz ≤ region.addr + region.size)

page_request-InRegion :
    (p : Pages) (region : CudaRegion) (i : ℕ)
    → i < p.num_pages
    → p.page_size * p.num_pages ≤ region.size
    → region.addr + region.size ≤ 2 ^ 64
    → 0 < p.page_size
    → InRegion region (page_request p region i)
page_request-InRegion p region i h fits whole some_size = omega (arith, within)
  where
    within : i * p.page_size + p.page_size ≤ p.page_size * p.num_pages
    within = grind arith

pages_from-InRegion :
    (p : Pages) (region : CudaRegion) (i n : ℕ)
    → i + n ≤ p.num_pages
    → p.page_size * p.num_pages ≤ region.size
    → region.addr + region.size ≤ 2 ^ 64
    → 0 < p.page_size
    → All (InRegion region) (pages_from p region i n)
pages_from-InRegion p region i zero h fits whole some_size = tt
pages_from-InRegion p region i (suc n) h fits whole some_size = (
  page_request-InRegion p region i (omega arith) fits whole some_size,
  pages_from-InRegion p region (i + 1) n (omega arith) fits whole some_size,
)

-- If the pages are not empty and fit into a region that does not wrap, each of the region's writes
-- stays inside it.
pub requests-InRegion :
    (p : Pages) (region : CudaRegion)
    → p.page_size * p.num_pages ≤ region.size
    → region.addr + region.size ≤ 2 ^ 64
    → 0 < p.page_size
    → All
        (λ r. (region.addr ≤ r.addr) × (r.addr + r.sz ≤ region.addr + region.size))
        (requests p (region ∷ []))
requests-InRegion p region fits whole some_size =
    All-append (InRegion region) (pages_from p region 0 p.num_pages) []
      (pages_from-InRegion p region 0 p.num_pages (omega arith) fits whole some_size) tt

-- The writes that carry immediate data.
abbrev pub notifies : List Request → ℕ
notifies rs = length (keep (λ r. not (r.imm_data == 0)) rs)

pub notifies-append : (xs ys : List Request) → notifies (xs ++ ys) ≡ notifies xs + notifies ys
notifies-append [] ys = omega arith
notifies-append (x ∷ xs) ys = ground (arith, notifies-append xs ys)

notifies-pages_from :
    (p : Pages) (region : CudaRegion) (i n : ℕ)
    → i + n ≡ p.num_pages
    → notifies (pages_from p region i n) ≡ (if n == 0 then 0 else 1)
notifies-pages_from p region i zero e = refl
notifies-pages_from p region i (suc n) e = ground (arith, notifies-pages_from p region (i + 1) n)

-- Each pass over the regions notifies the reader once for each region, if there are pages at all.
pub notifies-requests :
    (p : Pages) (regions : List CudaRegion)
    → notifies (requests p regions) ≡ (if p.num_pages == 0 then 0 else length regions)
notifies-requests p [] = ground arith
notifies-requests p (region ∷ regions) = ground (
  arith,
  notifies-append (pages_from p region 0 p.num_pages) (requests p regions),
  notifies-pages_from p region 0 p.num_pages (omega arith),
  notifies-requests p regions,
)

-- Where the write for page `i` of a region is posted, it goes to that page's place in the region but
-- reads from the start of the write buffer, `i` pages before the place that it was asked to read.
pub write-first_page :
    (fi : Fabric) (post : Posted → ℕ) (conn : Conn) (c co i : ℕ) (p : Pages) (region : CudaRegion)
    (w w' : World) (m : FiMsgRma)
    → p.cuda_buffer ≡ conn.write_buffer.start
    → p.cuda_buffer + i * p.page_size < 2 ^ 64
    → let r = page_request p region i in
      write fi post conn c co r.src r.sz r.addr r.key r.imm_data w ≡ (w', ok (writemsg m))
      → (m.rma_addr ≡ (region.addr + i * p.page_size) % 2 ^ 64)
        × (m.base + i * p.page_size ≡ (page_request p region i).src)
unfolding write
write-first_page fi post conn c co i p region w w' m b fits e = ground arith

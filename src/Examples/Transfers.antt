-- ===== src/Examples/Transfers.antt =====
-- WriteOne for two regions of three pages each.
use aws_efa_examples.Common.{
  ℕ, ◌+◌, ◌≤◌, ◌≡◌, [], ◌∷◌, ◌==◌, if◌then◌else◌, All, Outcome, ok, throw, runtime_error, arith,
  List, take,
}
use aws_efa_examples.Writer.{Request, CudaRegion, Pages, write_one, write_one_by_one}
use aws_efa_examples.Writer.Requests.{requests}
use aws_efa_examples.Writer.Pipeline.{await_all, write_one-eq}
use aws_efa_examples.Writer.Sequential.{Agree, write_one-eq-write_one_by_one}
use aws_efa_examples.Writer.Targets.{requests-InRegion}

abbrev region : ℕ → CudaRegion
region addr = record { addr = addr; size = 3072; key = 5 }

abbrev pages : Pages
pages = record { cuda_buffer = 65536; page_size = 1024; num_pages = 3 }

-- The fifth write fails.
abbrev fifth_fails : ℕ → Outcome ℕ
fifth_fails i = if i == 4 then throw (runtime_error "libfabric operation fail") else ok 1024

-- What the first `n` of the writes are.
abbrev made : ℕ → List Request
made n = take n (requests pages (region 0 ∷ region 8192 ∷ []))

write_one-eq_example : write_one fifth_fails pages (region 0 ∷ region 8192 ∷ []) 0 0 ≡ (
  record { futs = []; ops = 4; sent = 6; posted = made 6 },
  throw (runtime_error "libfabric operation fail"),
)
unfolding await_all
write_one-eq_example = write_one-eq fifth_fails pages (region 0 ∷ region 8192 ∷ []) 0 0

write_one-eq-write_one_by_one_example :
    Agree
      (write_one fifth_fails pages (region 0 ∷ region 8192 ∷ []) 0 0)
      (write_one_by_one fifth_fails pages (region 0 ∷ region 8192 ∷ []) 0 0)
write_one-eq-write_one_by_one_example =
    write_one-eq-write_one_by_one fifth_fails pages (region 0 ∷ region 8192 ∷ []) 0 0

requests-InRegion_example :
    All (λ r. (8192 ≤ r.addr) × (r.addr + r.sz ≤ 8192 + 3072)) (requests pages (region 8192 ∷ []))
requests-InRegion_example =
    requests-InRegion pages (region 8192) (omega arith) (omega arith) (omega arith)

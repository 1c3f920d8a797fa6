-- ===== src/Writer/Outcomes.antt =====
-- What WriteOne gives where it returns, and the exception where it does not.
use aws_efa_examples.Common.{
  ◌∙◌, ℕ, zero, suc, ◌≡◌, refl, ap, List, length, Outcome, ok, throw, undefined, ◌>>=◌, Run, ◌>>>◌,
  outcome_of,
}
use aws_efa_examples.Writer.{CudaRegion, Batch, Pages, write_one}
use aws_efa_examples.Writer.Requests.{requests}
use aws_efa_examples.Writer.Pipeline.{await_all, windowed, finished, write_one-eq}

-- Await the writes a, a + 1, …, n of them, up to the first that fails.
unfoldable pub await_upto : (ℕ → Outcome ℕ) → (a n : ℕ) → Outcome (Unit {0})
await_upto await a zero = ok tt
await_upto await a (suc n) = await a >>= λ _. await_upto await (suc a) n

outcome_of->>> :
    (o : Outcome ℕ) (s : Batch) (m : Run Batch) (q : Outcome (Unit {0})) (b : Batch)
    → outcome_of m ≡ (q >>= λ _. ok b)
    → outcome_of ((s, o >>= λ _. ok tt) >>> λ _. m) ≡ ((o >>= λ _. q) >>= λ _. ok b)
outcome_of->>> (ok n) s m q b e = e
outcome_of->>> (throw x) s m q b e = refl
outcome_of->>> undefined s m q b e = refl

outcome_of-await_all :
    (await : ℕ → Outcome ℕ) (at : ℕ → Batch) (a n : ℕ) (last : Batch)
    → outcome_of (await_all await at a n last) ≡ (await_upto await a n >>= λ _. ok last)
unfolding await_all await_upto
outcome_of-await_all await at a zero last = refl
outcome_of-await_all await at a (suc n) last =
    outcome_of->>> (await a) (at a) (await_all await at (suc a) n last) (await_upto await (suc a) n)
      last (outcome_of-await_all await at (suc a) n last)

-- What WriteOne gives where it returns.
pub outcome_of-write_one :
    (await : ℕ → Outcome ℕ) (p : Pages) (regions : List CudaRegion) (ops sent : ℕ)
    → let rs = requests p regions in
      outcome_of (write_one await p regions ops sent)
      ≡ (await_upto await 0 (length rs) >>= λ _. ok (finished rs ops sent))
outcome_of-write_one await p regions ops sent =
    let rs = requests p regions in
    ap outcome_of (write_one-eq await p regions ops sent)
    ∙ outcome_of-await_all await (windowed rs ops sent) 0 (length rs) (finished rs ops sent)

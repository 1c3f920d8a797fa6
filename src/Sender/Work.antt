-- ===== src/Sender/Work.antt =====
-- A measure of what WriteOne's process has still to do, which each turn makes smaller.
use aws_efa_examples.Common.{
  ℕ, zero, suc, ◌+◌, ◌*◌, ◌≤◌, ◌<◌, ◌≡◌, refl, ap, ne→==, ==-self, arith, inl, inr, eq_cases,
}
use aws_efa_examples.Sender.Calls.{Phase, fresh, flying, landed, over}
use aws_efa_examples.Sender.Windows.{put}

-- What is left to do for a call.
abbrev pub weight : Phase → ℕ
weight fresh = 4
weight flying = 3
weight landed = 2
weight over = 1

-- For `n` calls from `t` on.
abbrev pub weights : (ℕ → Phase) → (t n : ℕ) → ℕ
weights ph t zero = 0
weights ph t (suc n) = weight (ph t) + weights ph (suc t) n

-- And for the calls that are not made yet.
abbrev pub work : (ℕ → Phase) → (t n todo : ℕ) → ℕ
work ph t n todo = 5 * todo + weights ph t n

pub weights-put_before :
    (k t n : ℕ) (x : Phase) (ph : ℕ → Phase) → k < t → weights (put k x ph) t n ≡ weights ph t n
weights-put_before k t zero x ph l = refl
weights-put_before k t (suc n) x ph l =
    rw (ne→== t k (λ e. omega arith))
      (ap (λ w. weight (ph t) + w) (weights-put_before k (suc t) n x ph (omega arith)))

pub weights-put :
    (k t n : ℕ) (x : Phase) (ph : ℕ → Phase)
    → t ≤ k
    → k < t + n
    → weights (put k x ph) t n + weight (ph k) ≡ weights ph t n + weight x
weights-put k t zero x ph a b = absurd (omega arith)
weights-put k t (suc n) x ph a b = elim (eq_cases t k) [
  | inl e ↦ rw (e, ==-self k) (omega (arith, weights-put_before k (suc k) n x ph (omega arith)))
  | inr d ↦
      rw (ne→== t k d) (omega (arith, weights-put k (suc t) n x ph (omega arith) (omega arith)))
]

pub weights-push :
    (k t n : ℕ) (x : Phase) (ph : ℕ → Phase)
    → k ≡ t + n
    → weights (put k x ph) t (suc n) ≡ weights ph t n + weight x
weights-push k t zero x ph e = ground (arith, e)
weights-push k t (suc n) x ph e =
    rw (ne→== t k (λ f. omega arith)) (omega (arith, weights-push k (suc t) n x ph (omega arith)))

-- ===== src/Loop/Timers/Order.antt =====
-- The timers fire when they are due and in the order of their tuples.
use aws_efa_examples.Common.{
  ℕ, ◌<◌, ◌≡◌, refl, ap, ◌∙◌, Bool, true, false, not, inl, inr, List, [], ◌∷◌, ◌++◌, map,
  append_assoc, append-nil, ltb, Bool-cases, keep, All, length, arith,
}
use aws_efa_examples.Loop.Timers.{Task, before, push, expire}

-- No element stands behind a later one.
abbrev pub IsSorted : List Task → Type 0
IsSorted [] = Unit {0}
IsSorted (t ∷ ts) = All (λ u. before u t ≡ false) ts × IsSorted ts

before_trans : (a b c : Task) → before b a ≡ false → before c b ≡ false → before c a ≡ false
before_trans a b c h k = ground arith

before_asym : (a b : Task) → before a b ≡ true → before b a ≡ false
before_asym a b h = ground arith

All-before :
    (a b : Task) (ts : List Task)
    → before b a ≡ false
    → All (λ u. before u b ≡ false) ts
    → All (λ u. before u a ≡ false) ts
All-before a b [] h k = tt
All-before a b (t ∷ ts) h k = (before_trans a b t h k.0, All-before a b ts h k.1)

push-All : (P : Task → Type 0) (t : Task) (ts : List Task) → P t → All P ts → All P (push t ts)
unfolding push
push-All P t [] p ps = (p, tt)
push-All P t (u ∷ us) p ps = elim (Bool-cases (before u t)) [
  | inl e ↦ rw e (ps.0, push-All P t us p ps.1)
  | inr e ↦ rw e (p, ps)
]

-- Pushing a task keeps a sorted queue sorted.
pub push-IsSorted : (t : Task) (ts : List Task) → IsSorted ts → IsSorted (push t ts)
unfolding push
push-IsSorted t [] s = (tt, tt)
push-IsSorted t (u ∷ us) s = elim (Bool-cases (before u t)) [
  | inl e ↦
      rw e (push-All (λ v. before v u ≡ false) t us (before_asym u t e) s.0, push-IsSorted t us s.1)
  | inr e ↦ rw e ((e, All-before t u us e s.0), s)
]

-- A timer that is pushed is in the queue once more, and no other is touched.
pub count-push :
    (p : Task → Bool) (t : Task) (ts : List Task)
    → length (keep p (push t ts)) ≡ length (keep p (t ∷ ts))
unfolding push
count-push p t [] = refl
count-push p t (u ∷ us) = ground (arith, count-push p t us)

abbrev pub is_due : ℕ → Task → Bool
is_due now t = not (ltb now t.due)

none_due :
    (now : ℕ) (t : Task) (ts : List Task)
    → now < t.due
    → All (λ u. before u t ≡ false) ts
    → (keep (is_due now) ts ≡ []) × (keep (λ u. ltb now u.due) ts ≡ ts)
none_due now t [] h k = (refl, refl)
none_due now t (u ∷ us) h k = let (a, b) = none_due now t us h k.1 in ground arith

-- On a sorted queue the loop moves to the back of `ready_` the handles of exactly the tasks that are
-- due, in the order of the queue, and leaves exactly the others.
pub expire-eq-keep :
    (now : ℕ) (ts : List Task) (ready : List ℕ)
    → IsSorted ts
    → expire now ts ready
      ≡ (keep (λ u. ltb now u.due) ts, ready ++ map (λ t. t.handle) (keep (is_due now) ts))
unfolding expire
expire-eq-keep now [] ready s = rw (append-nil ready)
expire-eq-keep now (t ∷ ts) ready s = elim (Bool-cases (ltb now t.due)) [
  | inl e ↦
      let (a, b) = none_due now t ts (ground arith) s.0 in rw (e, a, b) (rw (append-nil ready))
  | inr e ↦ rw e (
      expire-eq-keep now ts (ready ++ t.handle ∷ []) s.1
      ∙ ap (λ (r : List ℕ). (keep (λ u. ltb now u.due) ts, r))
          (append_assoc ready (t.handle ∷ []) (map (λ u. u.handle) (keep (is_due now) ts))))
]

keep-All : (P : Task → Type 0) (p : Task → Bool) (ts : List Task) → All P ts → All P (keep p ts)
keep-All P p [] h = tt
keep-All P p (t ∷ ts) h = elim (Bool-cases (p t)) [
  | inl e ↦ rw e (h.0, keep-All P p ts h.1)
  | inr e ↦ rw e (keep-All P p ts h.1)
]

pub keep-IsSorted : (p : Task → Bool) (ts : List Task) → IsSorted ts → IsSorted (keep p ts)
keep-IsSorted p [] s = tt
keep-IsSorted p (t ∷ ts) s = elim (Bool-cases (p t)) [
  | inl e ↦ rw e (keep-All (λ u. before u t ≡ false) p ts s.0, keep-IsSorted p ts s.1)
  | inr e ↦ rw e (keep-IsSorted p ts s.1)
]

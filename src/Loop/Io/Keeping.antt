-- ===== src/Loop/Io/Keeping.antt =====
-- src/batch/include/common/io.h: what IO::Run keeps, where each handle that it runs keeps it.
use aws_efa_examples.Common.{
  ℕ, zero, suc, ◌⊎◌, Bool-cases, inl, inr, ◌≡◌, refl, subst, List, [], ◌∷◌, length, Outcome, ok,
  throw, undefined, Exception, ◌>>=◌,
}
use aws_efa_examples.Loop.Timers.{expire}
use aws_efa_examples.Loop.Io.{
  Io, Host, take_front, run_ready, runone, stopped, Round, run_loop, select_events,
}

-- A property of what a call returns, if it returns.
abbrev pub Kept : {S : Type 0} → (S → Type 0) → Outcome S → Type 0
Kept P (ok s) = P s
Kept P (throw e) = Unit
Kept P undefined = Unit

pub Kept-ok : {S : Type 0} (P : S → Type 0) (o : Outcome S) (s : S) → Kept P o → o ≡ ok s → P s
Kept-ok P o s k e = subst (Kept P) e k

pub Kept->>= :
    {S T : Type 0} (P : S → Type 0) (Q : T → Type 0) (o : Outcome S) (f : S → Outcome T)
    → Kept P o
    → ((s : S) → P s → Kept Q (f s))
    → Kept Q (o >>= f)
Kept->>= P Q (ok s) f k g = g s k
Kept->>= P Q (throw e) f k g = tt
Kept->>= P Q undefined f k g = tt

pub Outcome-cases :
    {S : Type 0} (o : Outcome S)
    → ((s : S) × (o ≡ ok s)) ⊎ (((e : Exception) × (o ≡ throw e)) ⊎ (o ≡ undefined))
Outcome-cases (ok s) = inl (s, refl)
Outcome-cases (throw e) = inr (inl (e, refl))
Outcome-cases undefined = inr (inr refl)

list_cases : (l : List ℕ) → (l ≡ []) ⊎ ((h : ℕ) × (rest : List ℕ) × (l ≡ h ∷ rest))
list_cases [] = inl refl
list_cases (h ∷ rest) = inr (h, rest, refl)

any_io : (o : Outcome Io) → Kept (λ _. Unit) o
any_io (ok io) = tt
any_io (throw e) = tt
any_io undefined = tt

module _ {S : Type 0} (host : Host S) (run : ℕ → S → Outcome S) (P : S → Type 0)
    (with_io-kept : (io : Io) (s : S) → P s → P (host.with_io io s))
    (run-kept : (h : ℕ) (s : S) → P s → Kept P (run h s)) where
  open host use {io_of, with_io}

  run_ready-Kept : (n : ℕ) (s : S) → P s → Kept P (run_ready host run n s)
  unfolding run_ready
  run_ready-Kept zero s k = k
  run_ready-Kept (suc n) s k = elim (list_cases (io_of s).ready) [
    | inl e ↦ rw (e, run_ready) tt
    | inr (h, rest, e) ↦
        rw (e, run_ready)
          (Kept->>= P P (run h (with_io (take_front h rest (io_of s)) s)) (run_ready host run n)
            (run-kept h (with_io (take_front h rest (io_of s)) s)
              (with_io-kept (take_front h rest (io_of s)) s k))
            (run_ready-Kept n))
  ]

  runone-Kept : (now : ℕ) (s : S) → P s → Kept P (runone host run now s)
  unfolding runone
  runone-Kept now s k =
      let (schedule, ready) = expire now (io_of s).schedule (io_of s).ready in
      let io = record (io_of s) { schedule = schedule; ready = ready } in
      run_ready-Kept (length ready) (with_io io s) (with_io-kept io s k)

  pub run_loop-Kept :
      (remote_write : ℕ) (rs : List Round) (s : S)
      → P s
      → Kept P (run_loop host run remote_write rs s)
  unfolding run_loop
  run_loop-Kept remote_write [] s k = k
  run_loop-Kept remote_write (r ∷ rs) s k = elim (Bool-cases (stopped (io_of s))) [
    | inl e ↦ rw (e, run_loop) k
    | inr e ↦
        rw (e, run_loop)
          (Kept->>= (λ _. Unit) P (select_events remote_write r.read (io_of s))
            (λ io. runone host run r.now (with_io io s) >>= run_loop host run remote_write rs)
            (any_io (select_events remote_write r.read (io_of s)))
            (λ io _.
              Kept->>= P P (runone host run r.now (with_io io s))
                (run_loop host run remote_write rs)
                (runone-Kept r.now (with_io io s) (with_io-kept io s k))
                (run_loop-Kept remote_write rs)))
  ]

-- ===== src/Sender/Rounds.antt =====
-- A round of the event loop in WriteOne's process.
use aws_efa_examples.Common.{
  ℕ, suc, ◌+◌, ◌≤◌, ◌<◌, ◌≡◌, ◌⊎◌, ◌∙◌, refl, sym, ap, subst, List, [], ◌∷◌, ◌++◌, count, arith,
  Outcome, ok, inl, inr,
}
use aws_efa_examples.Sender.{Sender}
use aws_efa_examples.Sender.Calls.{Phase, fresh, flying, landed, over, queued_in}
use aws_efa_examples.Sender.Windows.{put, count_head, Setting, IsSound, Awaiting, taken, run}
use aws_efa_examples.Sender.Work.{work, weight, weights-put}
use aws_efa_examples.Sender.Steps.{IsReturned}
use aws_efa_examples.Sender.Turns.{Turns, fresh-Turns, landed-Turns}
use aws_efa_examples.Sender.Resuming.{main-Leads}

module _ (s : Setting) (most : ℕ) where
  -- WriteOne awaits a call, and the work that is left is bounded.
  pub record IsGoing (p : Sender) : Type 0 where
    pub first : ℕ
    pub t : ℕ
    pub size : ℕ
    pub n : ℕ
    pub todo : ℕ
    pub phases : ℕ → Phase
    pub awaiting : Awaiting s first t size todo phases p
    pub results : t + n ≡ first + size
    pub bounded : work phases t n todo ≤ most

module _ (s : Setting) (sound : IsSound s) where
  -- After a turn there is less to do, or WriteOne has returned.
  abbrev pub Turned : (most : ℕ) (rest : List ℕ) → Outcome Sender → Type 0
  Turned most rest o =
      ((p : Sender) × (left : ℕ) × (new : List ℕ) × (o ≡ ok p)
        × IsGoing s left p
        × (left < most)
        × (p.coros.io.ready ≡ rest ++ new))
      ⊎ ((p : Sender) × (o ≡ ok p) × IsReturned s p × (rest ≡ []))

  call-Turned :
      (most k : ℕ) (rest : List ℕ) (p : Sender) (g : IsGoing s most p)
      → p.coros.io.ready ≡ s.frame k ∷ rest
      → (a : g.t ≤ k) (b : k < g.first + g.size)
      → Turns s sound g.first g.t g.size g.todo k g.phases rest
          (run s (s.frame k) (taken (s.frame k) rest p))
      → Turned most rest (run s (s.frame k) (taken (s.frame k) rest p))
  call-Turned most k rest p g r a b (x, p', new, ran, w, left, less) = inl (
    p',
    work (put k x g.phases) g.t g.n g.todo,
    new,
    ran,
    record {
      first = g.first;
      t = g.t;
      size = g.size;
      n = g.n;
      todo = g.todo;
      phases = put k x g.phases;
      awaiting = w;
      results = g.results;
      bounded = omega arith;
    },
    omega
        (arith, less, g.bounded, weights-put k g.t g.n x g.phases a (omega (arith, b, g.results))),
    left,
  )

  queued-Turned :
      (most k : ℕ) (rest : List ℕ) (p : Sender) (g : IsGoing s most p)
      → p.coros.io.ready ≡ s.frame k ∷ rest
      → g.t ≤ k
      → k < g.first + g.size
      → (x : Phase) → g.phases k ≡ x
      → Turned most rest (run s (s.frame k) (taken (s.frame k) rest p))
  queued-Turned most k rest p g r a b fresh e =
      call-Turned most k rest p g r a b
        (fresh-Turns s sound g.first g.t g.size g.todo k g.phases rest p g.awaiting r a b e)
  queued-Turned most k rest p g r a b landed e =
      call-Turned most k rest p g r a b
        (landed-Turns s sound g.first g.t g.size g.todo k g.phases rest p g.awaiting r a b e)
  queued-Turned most k rest p g r a b flying e =
      absurd (omega (arith, unqueued, count_head (s.frame k) rest))
    where
      unqueued : count (s.frame k) (s.frame k ∷ rest) ≡ 0
      unqueued =
          ap (count (s.frame k)) (sym r) ∙ (g.awaiting.window.calls k a b).queued ∙ ap queued_in e
  queued-Turned most k rest p g r a b over e =
      absurd (omega (arith, unqueued, count_head (s.frame k) rest))
    where
      unqueued : count (s.frame k) (s.frame k ∷ rest) ≡ 0
      unqueued =
          ap (count (s.frame k)) (sym r) ∙ (g.awaiting.window.calls k a b).queued ∙ ap queued_in e

  main-Turned :
      (most : ℕ) (rest : List ℕ) (p : Sender)
      → IsGoing s most p
      → p.coros.io.ready ≡ s.main ∷ rest
      → Turned most rest (run s s.main (taken s.main rest p))
  main-Turned most rest p g r =
      let (n, one_more, e, leads) =
        main-Leads s sound g.first g.t g.size g.n g.todo g.phases rest p g.awaiting r g.results in
      elim leads [
        | inl (first, t, size, m, todo, ph, p', new, ran, w, results, bounded, left) ↦ inl (
          p',
          work g.phases (suc g.t) n g.todo,
          new,
          ran,
          record {
            first = first;
            t = t;
            size = size;
            n = m;
            todo = todo;
            phases = ph;
            awaiting = w;
            results = results;
            bounded = bounded;
          },
          omega (arith, g.bounded, ap (λ n. work g.phases g.t n g.todo) one_more, ap weight e),
          left,
        )
        | inr (p', ran, returned, none) ↦ inr (p', ran, returned, none)
      ]

  -- The turn of the handle at the front.
  pub turn-Turned :
      (most h : ℕ) (rest : List ℕ) (p : Sender)
      → IsGoing s most p
      → p.coros.io.ready ≡ h ∷ rest
      → Turned most rest (run s h (taken h rest p))
  turn-Turned most h rest p g r =
      elim (g.awaiting.window.only h (λ z. omega (arith, z, ap (count h) r, count_head h rest))) [
        | inl m ↦
            subst (λ h. Turned most rest (run s h (taken h rest p))) (sym m)
              (main-Turned most rest p g (r ∙ ap (λ (h : ℕ). h ∷ rest) m))
        | inr (k, a, b, f) ↦
            subst (λ h. Turned most rest (run s h (taken h rest p))) (sym f)
              (queued-Turned most k rest p g (r ∙ ap (λ (h : ℕ). h ∷ rest) f) a b (g.phases k) refl)
      ]

-- ===== src/Sender/Course.antt =====
-- WriteOne from one suspension to the next, or to its end.
use aws_efa_examples.Common.{
  ℕ, zero, suc, ◌+◌, ◌≤◌, ◌<◌, ◌≡◌, ◌≢◌, ◌⊎◌, ◌∙◌, refl, sym, ap, subst, List, [], ◌∷◌, ◌++◌,
  append_assoc, arith, Outcome, ok, inl, inr,
}
use aws_efa_examples.Writer.{Request, batch_size}
use aws_efa_examples.Writer.Pipeline.{upto, length-upto}
use aws_efa_examples.Sender.{
  Sender, Await, draining, await_call, pop_future, push_future, throttle_from, drain_from,
}
use aws_efa_examples.Sender.Calls.{Phase, fresh, flying, landed, over, IsAt}
use aws_efa_examples.Sender.Windows.{put, Setting, IsSound, Call, Awaiting}
use aws_efa_examples.Sender.Work.{work, weights-push}
use aws_efa_examples.Sender.Steps.{
  IsRunning, IsReturned, push-IsRunning, await_over, await_call-IsAwaiting,
}
use aws_efa_examples.Sender.Results.{
  nothing_queued, IsRunning-IsResumed, take-IsRunning, pop-IsRunning, drain_from-IsReturned,
}

pub over_cases : (x : Phase) → (x ≡ over) ⊎ (x ≢ over)
over_cases fresh = inr (λ e. cc)
over_cases flying = inr (λ e. cc)
over_cases landed = inr (λ e. cc)
over_cases over = inl refl

module _ (s : Setting) (most : ℕ) (ready : List ℕ) where
  -- WriteOne runs, with `n` results to take; the work that is left is bounded, and `ready_` has only grown.
  pub record IsOnCourse (first t size n todo : ℕ) (ph : ℕ → Phase) (p : Sender) : Type 0 where
    pub running : IsRunning s first t size todo ph p
    pub results : t + n ≡ first + size
    pub bounded : work ph t n todo ≤ most
    pub new : List ℕ
    pub grown : p.coros.io.ready ≡ ready ++ new

  -- It is suspended, or has returned.
  abbrev pub Suspends : Outcome Sender → Type 0
  Suspends o =
      (first : ℕ) × (t : ℕ) × (size : ℕ) × (n : ℕ) × (todo : ℕ) × (ph : ℕ → Phase) × (p : Sender)
      × (new : List ℕ) × (o ≡ ok p)
      × Awaiting s first t size todo ph p
      × (t + n ≡ first + size)
      × (work ph t n todo ≤ most)
      × (p.coros.io.ready ≡ ready ++ new)

  abbrev pub Leads : Outcome Sender → Type 0
  Leads o = Suspends o ⊎ ((p : Sender) × (o ≡ ok p) × IsReturned s p × (ready ≡ []))

pub front_nil : (xs ys : List ℕ) → xs ++ ys ≡ [] → xs ≡ []
front_nil [] ys e = refl
front_nil (x ∷ xs) ys e = cc

pub pred : (n : ℕ) → n ≢ 0 → (m : ℕ) × (n ≡ suc m)
pred zero h = absurd (h refl)
pred (suc m) h = (m, refl)

module _ (s : Setting) (sound : IsSound s) (most : ℕ) (ready : List ℕ) where
  over-Call :
      (first t size n todo : ℕ) (ph : ℕ → Phase) (p : Sender)
      → IsOnCourse s most ready first t size (suc n) todo ph p
      → ph t ≡ over
      → Call s over 0 t p
  over-Call first t size n todo ph p c e =
      subst (λ x. Call s x 0 t p) e
        (c.running.window.calls t (omega arith) (omega (arith, c.results)))

  pub await-Leads :
      (first t size n todo : ℕ) (ph : ℕ → Phase) (at : Await) (cont : Sender → Outcome Sender)
      (p : Sender)
      → IsOnCourse s most ready first t size (suc n) todo ph p
      → IsAt s.fi s.pages s.frame s.context s.main s.boss s.cq s.base s.total at first t size todo
      → (ph t ≡ over → Leads s most ready (cont p))
      → Leads s most ready
          (await_call s.fi s.post s.conn s.pages s.main s.frame s.context t at cont p)
  await-Leads first t size n todo ph at cont p c place after = elim (over_cases (ph t)) [
    | inl e ↦
        subst (Leads s most ready)
          (sym (await_over s sound t 0 at cont p (over-Call first t size n todo ph p c e)))
          (after e)
    | inr d ↦
        let (p', suspended, awaiting, left) =
          await_call-IsAwaiting s sound first t size todo ph at cont p c.running
            (omega (arith, c.results)) d place in
        inl (
          first,
          t,
          size,
          suc n,
          todo,
          ph,
          p',
          c.new,
          suspended,
          awaiting,
          c.results,
          c.bounded,
          left ∙ c.grown,
        )
  ]

  pub drain_from-Leads :
      (n first t size : ℕ) (ph : ℕ → Phase) (p : Sender)
      → IsOnCourse s most ready first t size n 0 ph p
      → Leads s most ready
          (drain_from s.fi s.post s.conn s.pages s.main s.frame s.context (upto t n) p)
  unfolding drain_from
  drain_from-Leads zero first t size ph p c =
      let (p', returns, returned) =
        drain_from-IsReturned s sound first t size ph p c.running (omega (arith, c.results)) in
      inr (
        p',
        returns,
        returned,
        front_nil ready c.new (
            sym c.grown
            ∙ nothing_queued s sound first t size 0 ph p c.running (omega (arith, c.results))),
      )
  drain_from-Leads (suc n) first t size ph p c =
      await-Leads first t size n 0 ph (draining (upto t (suc n)))
        (λ p.
          drain_from s.fi s.post s.conn s.pages s.main s.frame s.context (upto (suc t) n)
            (record p { ops = p.ops + 1 }))
        p c (suc n, refl, c.results, refl)
        λ e.
          drain_from-Leads n first (suc t) size ph (record p { ops = p.ops + 1 })
            (record {
              running =
                  take-IsRunning s sound first t size 0 ph p
                    (IsRunning-IsResumed s sound first t size 0 ph p c.running)
                    (omega (arith, c.results)) e;
              results = omega (arith, c.results);
              bounded = omega (arith, c.bounded);
              new = c.new;
              grown = c.grown;
            })

  -- A call is made where there is room.
  pub push-IsOnCourse :
      (first size n todo : ℕ) (ph : ℕ → Phase) (r : Request) (p : Sender)
      → IsOnCourse s most ready first first size n (suc todo) ph p
      → size < batch_size
      → r.sz ≡ s.pages.page_size
      → IsOnCourse s most ready first first
          (suc size)
          (suc n)
          todo
          (put (first + size) fresh ph)
          (push_future s.fi s.post s.conn s.pages s.main s.frame s.context r p)
  push-IsOnCourse first size n todo ph r p c room sz =
      let (running, left) = push-IsRunning s sound first first size todo ph r p c.running room sz in
      record {
        running = running;
        results = omega (arith, c.results);
        bounded = omega (
          arith,
          c.bounded,
          weights-push (first + size) first n fresh ph (omega (arith, c.results)),
        );
        new = c.new ++ s.frame (first + size) ∷ [];
        grown =
            left
            ∙ ap (λ q. q ++ s.frame (first + size) ∷ []) c.grown
            ∙ append_assoc ready c.new (s.frame (first + size) ∷ []);
      }

  pub pop-IsOnCourse :
      (first size n todo : ℕ) (ph : ℕ → Phase) (p : Sender)
      → IsOnCourse s most ready first first (suc size) (suc n) todo ph p
      → ph first ≡ over
      → IsOnCourse s most ready (suc first) (suc first) size n todo ph (
          pop_future s.fi s.post s.conn s.pages s.main s.frame s.context first
            (upto (suc first) size)
            p)
  pop-IsOnCourse first size n todo ph p c e =
      let (running, left) =
        pop-IsRunning s sound first size todo ph p
          (IsRunning-IsResumed s sound first first (suc size) todo ph p c.running) e in
      record {
        running = running;
        results = omega (arith, c.results);
        bounded = omega (arith, c.bounded);
        new = c.new;
        grown = left ∙ c.grown;
      }

  pub throttle_room :
      (first n : ℕ) (at : Await) (cont : Sender → Outcome Sender) (p : Sender)
      → n < batch_size
      → throttle_from s.fi s.post s.conn s.pages s.main s.frame s.context at cont (upto first n) p
        ≡ cont p
  unfolding throttle_from
  throttle_room first zero at cont p l = refl
  throttle_room first (suc n) at cont p l = ground (arith, length-upto (suc first) n)

-- ===== src/Sender/Results.antt =====
-- WriteOne takes the result of a call that has returned, and returns.
use aws_efa_examples.Common.{
  true, ℕ, suc, ◌+◌, ◌≤◌, ◌<◌, ◌≡◌, ◌≢◌, ◌⊎◌, ◌∙◌, refl, sym, ap, subst, List, [], ◌∷◌, ◌++◌, count,
  arith, ne→==, ok, inl, inr, eq_cases,
}
use aws_efa_examples.Loop.Io.{Io, call}
use aws_efa_examples.Coro.Ending.{cancel_handle_lem, finish_turn_lem}
use aws_efa_examples.Coro.{ended, Promise, Coros, destroy_coro}
use aws_efa_examples.Writer.Pipeline.{upto}
use aws_efa_examples.Sender.{Sender, Written, no_value, pop_future, destroy_futs, drain_from}
use aws_efa_examples.Sender.Calls.{Phase, over, IsCall-kept}
use aws_efa_examples.Sender.Windows.{count_head, Setting, IsSound, Call, Window}
use aws_efa_examples.Sender.Steps.{IsRunning, IsReturned}

pub called_ready : (h : ℕ) (io : Io) → (call h io).ready ≡ io.ready ++ h ∷ []
unfolding call
called_ready h io = refl

no_counts : (q : List ℕ) → ((h : ℕ) → count h q ≡ 0) → q ≡ []
no_counts [] c = refl
no_counts (h ∷ q) c = absurd (omega (arith, c h, count_head h q))

module _ (s : Setting) (sound : IsSound s) where
  -- WriteOne has got to the end of its await, or has not awaited: only call `t` may have an awaiter.
  pub record IsResumed (first t size todo : ℕ) (ph : ℕ → Phase) (p : Sender) : Type 0 where
    pub next : ℕ → ℕ
    pub window : Window s first t size todo ph next p
    pub no_awaiter : (k : ℕ) → k ≢ t → next k ≡ 0
    pub unqueued : count s.main p.coros.io.ready ≡ 0

  pub IsRunning-IsResumed :
      (first t size todo : ℕ) (ph : ℕ → Phase) (p : Sender)
      → IsRunning s first t size todo ph p
      → IsResumed first t size todo ph p
  IsRunning-IsResumed first t size todo ph p g = record {
    next = λ k. 0;
    window = g.window;
    no_awaiter = λ k n. refl;
    unqueued = g.unqueued;
  }

  later-Call :
      (first t size todo k : ℕ) (ph : ℕ → Phase) (p : Sender) (g : IsResumed first t size todo ph p)
      → suc t ≤ k
      → k < first + size
      → Call s (ph k) 0 k p
  later-Call first t size todo k ph p g a b =
      subst (λ next. Call s (ph k) next k p) (g.no_awaiter k (λ e. omega arith))
        (g.window.calls k (omega arith) b)

  -- The handles that can be queued after a call has returned.
  only_after :
      (first t size todo : ℕ) (ph : ℕ → Phase) (p : Sender)
      → IsResumed first t size todo ph p
      → ph t ≡ over
      → (h : ℕ) → count h p.coros.io.ready ≢ 0
      → (h ≡ s.main) ⊎ ((k : ℕ) × (suc t ≤ k) × (k < first + size) × (h ≡ s.frame k))
  only_after first t size todo ph p g e h c = elim (g.window.only h c) [
    | inl m ↦ inl m
    | inr (k, a, b, f) ↦ elim (eq_cases k t) [
      | inl same ↦ absurd (
          c (
            ap (λ h. count h p.coros.io.ready) (f ∙ ap s.frame same)
            ∙ (subst (λ x. Call s x (g.next t) t p) e
                (g.window.calls t (omega arith) (subst (λ k. k < first + size) same b))).queued))
      | inr n ↦ inr (k, omega arith, b, f)
    ]
  ]

  -- The body of a call that has returned has begun.
  taken-early :
      (first t size todo : ℕ) (ph : ℕ → Phase) (p : Sender)
      → IsResumed first t size todo ph p
      → t < first + size
      → ph t ≡ over
      → (k : ℕ) → k < suc t
      → p.begun k ≡ true
  taken-early first t size todo ph p g b e k l = elim (eq_cases k t) [
    | inl same ↦
        ap p.begun same
        ∙ (subst (λ x. Call s x (g.next t) t p) e (g.window.calls t (omega arith) b)).begun
    | inr n ↦ g.window.early k (omega arith)
  ]

  -- In the loop at the end: the future stays.
  pub take-IsRunning :
      (first t size todo : ℕ) (ph : ℕ → Phase) (p : Sender)
      → IsResumed first t size todo ph p
      → t < first + size
      → ph t ≡ over
      → IsRunning s first (suc t) size todo ph (record p { ops = p.ops + 1 })
  take-IsRunning first t size todo ph p g b e =
      let w = g.window in
      record {
        window = record {
          futs = w.futs;
          made = w.made;
          at_most = w.at_most;
          from = omega (arith, w.from);
          till = b;
          ops = omega (arith, w.ops);
          in_all = w.in_all;
          calls = λ k c d.
              IsCall-kept s.fi s.pages s.frame s.context (ph k) 0 k p (record p { ops = p.ops + 1 })
                (record {
                  promise = refl;
                  asked = refl;
                  begun = refl;
                  state = refl;
                  queued = refl;
                  bound = refl;
                })
                (later-Call first t size todo k ph p g c d);
          early = taken-early first t size todo ph p g b e;
          passed = λ k c d. elim (eq_cases k t) [
            | inl same ↦
                subst (λ k. (p.coros.promises (s.frame k)).status ≡ ended) (sym same)
                  (subst (λ x. Call s x (g.next t) t p) e (w.calls t (omega arith) b)).status
            | inr n ↦ w.passed k c (omega arith)
          ];
          only = only_after first t size todo ph p g e;
          no_timer = w.no_timer;
          polls = w.polls;
          main_waits = w.main_waits;
          main_awaiter = w.main_awaiter;
        };
        unqueued = g.unqueued;
      }

  -- In the loop over the pages: the future is popped.
  pub pop-IsRunning :
      (first size todo : ℕ) (ph : ℕ → Phase) (p : Sender)
      → IsResumed first first (suc size) todo ph p
      → ph first ≡ over
      → let p' =
          pop_future s.fi s.post s.conn s.pages s.main s.frame s.context first
            (upto (suc first) size)
            p in
        IsRunning s (suc first) (suc first) size todo ph p' × (p'.coros.io.ready ≡ p.coros.io.ready)
  unfolding pop_future destroy_coro
  pop-IsRunning first size todo ph p g e =
      let w = g.window in
      let real = sound.frames_real first in
      rw (ne→== (s.frame first) 0 real, pop_future)
        (rw (cancel_handle_lem (s.frame first) p.coros.io) (
          record {
            window = record {
              futs = refl;
              made = omega (arith, w.made);
              at_most = omega (arith, w.at_most);
              from = omega arith;
              till = omega arith;
              ops = omega (arith, w.ops);
              in_all = omega (arith, w.in_all);
              calls = λ k c d.
                  let f : s.frame first ≢ s.frame k =
                    sound.frames_apart first k (omega arith) (omega (arith, w.at_most)) in
                  IsCall-kept s.fi s.pages s.frame s.context (ph k) 0 k p _
                    (record {
                      promise = ground (arith, f);
                      asked = refl;
                      begun = refl;
                      state = refl;
                      queued = refl;
                      bound = refl;
                    })
                    (later-Call first first (suc size) todo k ph p g c (omega arith));
              early = taken-early first first (suc size) todo ph p g (omega arith) e;
              passed = λ k c d. absurd (omega arith);
              only = λ h c. elim (only_after first first (suc size) todo ph p g e h c) [
                | inl m ↦ inl m
                | inr (k, a, b, f) ↦ inr (k, a, omega arith, f)
              ];
              no_timer = w.no_timer;
              polls = w.polls;
              main_waits = ground (arith, sound.frames_main first, w.main_waits);
              main_awaiter = ground (arith, sound.frames_main first, w.main_awaiter);
            };
            unqueued = g.unqueued;
          },
          refl,
        ))

  destroy_futs_lem :
      (ks : List ℕ) (cs : Coros Written)
      → let cs' = destroy_futs s.fi s.post s.conn s.pages s.main s.frame s.context ks cs in
        (cs'.io ≡ cs.io) × (cs'.promises s.main ≡ cs.promises s.main)
  unfolding destroy_futs destroy_coro
  destroy_futs_lem [] cs = (refl, refl)
  destroy_futs_lem (k ∷ ks) cs =
      let (io, promise) = destroy_futs_lem ks (destroy_coro (s.frame k) cs) in
      let real = sound.frames_real k in
      (
        io ∙ ground (arith, real, cancel_handle_lem (s.frame k) cs.io),
        promise ∙ ground (arith, real, sound.frames_main k),
      )

  pub nothing_queued :
      (first t size todo : ℕ) (ph : ℕ → Phase) (p : Sender)
      → IsRunning s first t size todo ph p
      → t ≡ first + size
      → p.coros.io.ready ≡ []
  nothing_queued first t size todo ph p g e = no_counts p.coros.io.ready λ h.
      elim (eq_cases (count h p.coros.io.ready) 0) [
        | inl z ↦ z
        | inr n ↦ elim (g.window.only h n) [
          | inl m ↦ ap (λ h. count h p.coros.io.ready) m ∙ g.unqueued
          | inr (k, a, b, _) ↦ absurd (omega arith)
        ]
      ]

  -- WriteOne returns when it has taken all results.
  pub drain_from-IsReturned :
      (first t size : ℕ) (ph : ℕ → Phase) (p : Sender)
      → IsRunning s first t size 0 ph p
      → t ≡ first + size
      → (p' : Sender) × (drain_from s.fi s.post s.conn s.pages s.main s.frame s.context [] p
          ≡ ok p')
        × IsReturned s p'
  unfolding drain_from
  drain_from-IsReturned first t size ph p g e =
      let w = g.window in
      let cs = destroy_futs s.fi s.post s.conn s.pages s.main s.frame s.context p.futs p.coros in
      let (io, promise) = destroy_futs_lem p.futs p.coros in
      let next : (cs.promises s.main).next ≡ s.boss =
        ap (λ (q : Promise Written). q.next) promise ∙ w.main_awaiter in
      let (called, mine, _) = finish_turn_lem s.main no_value cs (rw next sound.boss_real) in
      (
        _,
        refl,
        record {
          queued =
              ap (λ (i : Io). i.ready) called
              ∙ called_ready (cs.promises s.main).next cs.io
              ∙ ap (λ (i : Io). i.ready ++ (cs.promises s.main).next ∷ []) io
              ∙ ap (λ q. q ++ (cs.promises s.main).next ∷ [])
                  (nothing_queued first t size 0 ph p g e)
              ∙ ap (λ (h : ℕ). h ∷ []) next;
          main_ended = ap (λ (q : Promise Written). q.status) mine;
          all = omega (arith, w.ops, w.in_all);
          all_made = omega (arith, w.made, w.in_all);
          all_begun = λ k l. w.early k (omega (arith, l, w.in_all));
        },
      )

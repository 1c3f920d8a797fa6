-- ===== src/Sender/Steps.antt =====
-- The steps of WriteOne while it runs: it makes a call, takes the result of a call, suspends, returns.
use aws_efa_examples.Common.{
  true, ℕ, suc, ◌+◌, ◌<◌, ◌≡◌, ◌≢◌, ◌∙◌, refl, sym, ap, subst, false, [], ◌∷◌, ◌++◌, count,
  count-append, arith, ne→==, ==-self, Outcome, ok, inl, inr, eq_cases,
}
use aws_efa_examples.Loop.Defs.{suspend, update, is_unschedule, set_state}
use aws_efa_examples.Loop.Io.{Io, state_of, call, schedule_handle}
use aws_efa_examples.Coro.Values.{result}
use aws_efa_examples.Coro.{
  waits, ended, Coros, await_ready, await_resume, await_suspend, new_future,
}
use aws_efa_examples.Writer.{Request, batch_size}
use aws_efa_examples.Writer.Pipeline.{upto, upto-snoc}
use aws_efa_examples.Sender.{Sender, Await, Written, push_future, await_call, resume_await}
use aws_efa_examples.Sender.Calls.{
  Phase, fresh, flying, landed, over, IsCall-kept, Holds-pending, IsAt, awaited_by, woken_by,
}
use aws_efa_examples.Sender.Windows.{put, apart_both, Setting, IsSound, Call, Window, Awaiting}

module _ (s : Setting) where
  -- WriteOne runs.
  pub record IsRunning (first t size todo : ℕ) (ph : ℕ → Phase) (p : Sender) : Type 0 where
    pub window : Window s first t size todo ph (λ k. 0) p
    pub unqueued : count s.main p.coros.io.ready ≡ 0

  -- WriteOne has returned, and its awaiter is queued.
  pub record IsReturned (p : Sender) : Type 0 where
    pub queued : p.coros.io.ready ≡ s.boss ∷ []
    pub main_ended : (p.coros.promises s.main).status ≡ ended
    pub all : p.ops ≡ s.base + s.total
    pub all_made : p.made ≡ s.total
    pub all_begun : (k : ℕ) → k < s.total → p.begun k ≡ true

schedule_kept :
    (h : ℕ) (io : Io) → is_unschedule (state_of io h) ≡ false → schedule_handle h io ≡ io
unfolding schedule_handle
schedule_kept h io e = rw (e, schedule_handle) refl

module _ (s : Setting) (sound : IsSound s) where
  frame_unqueued :
      (first t size todo : ℕ) (ph : ℕ → Phase) (p : Sender)
      → IsRunning s first t size todo ph p
      → size < batch_size
      → count (s.frame (first + size)) p.coros.io.ready ≡ 0
  frame_unqueued first t size todo ph p g small =
      let k = first + size in
      elim (eq_cases (count (s.frame k) p.coros.io.ready) 0) [
        | inl e ↦ e
        | inr n ↦ absurd (elim (g.window.only (s.frame k) n) [
          | inl e ↦ sound.frames_main k e
          | inr (j, a, b, e) ↦ sound.frames_apart j k b (omega (arith, g.window.from)) (sym e)
        ])
      ]

  -- A new call is queued.
  pub push-IsRunning :
      (first t size todo : ℕ) (ph : ℕ → Phase) (r : Request) (p : Sender)
      → IsRunning s first t size (suc todo) ph p
      → size < batch_size
      → r.sz ≡ s.pages.page_size
      → let p' = push_future s.fi s.post s.conn s.pages s.main s.frame s.context r p in
        IsRunning s first t (suc size) todo (put (first + size) fresh ph) p'
        × (p'.coros.io.ready ≡ p.coros.io.ready ++ s.frame (first + size) ∷ [])
  unfolding push_future new_future schedule_handle call
  push-IsRunning first t size todo ph r p g small sz =
      let w = g.window in
      let k = first + size in
      let real = sound.frames_real p.made in
      let q = p.coros.io.ready in
      let none_yet : count (s.frame k) q ≡ 0 =
        frame_unqueued first t size (suc todo) ph p g small in
      let p' = push_future s.fi s.post s.conn s.pages s.main s.frame s.context r p in
      let left : (push_future s.fi s.post s.conn s.pages s.main s.frame s.context r
            p).coros.io.ready
          ≡ q ++ s.frame k ∷ [] =
        ground (arith, real, ap s.frame w.made) in
      let mine : Call s fresh 0 k p' = record {
        status = ground (arith, real, ap s.frame w.made);
        awaiter = ground (arith, real, ap s.frame w.made);
        begun = ground (arith, real, w.made);
        state = ground (arith, real, ap s.frame w.made);
        queued = ground (
          arith,
          ap (count (s.frame k)) left,
          count-append (s.frame k) q (s.frame k ∷ []),
          none_yet,
        );
        holds = ground (arith, real, w.made, sz);
      } in
      (
        record {
          window = record {
            futs =
                ap (λ l. l ++ p.made ∷ []) w.futs
                ∙ ap (λ (x : ℕ). upto first size ++ x ∷ []) w.made
                ∙ upto-snoc first size;
            made = omega (arith, w.made);
            at_most = omega arith;
            from = w.from;
            till = omega (arith, w.till);
            ops = w.ops;
            in_all = omega (arith, w.in_all);
            calls = λ j a b. elim (eq_cases j k) [
              | inl e ↦ rw (sym e, ==-self j) (subst (λ i. Call s fresh 0 i p') (sym e) mine)
              | inr n ↦
                  let f : s.frame k ≢ s.frame j =
                    λ e. sound.frames_apart j k (omega arith) (omega (arith, w.from)) (sym e) in
                  rw (ne→== j k n) (
                    IsCall-kept s.fi s.pages s.frame s.context (ph j) 0 j p p'
                      (record {
                        promise = ground (arith, real, ap s.frame w.made, f);
                        asked = ground (arith, real, w.made);
                        begun = ground (arith, real, w.made);
                        state = ground (arith, real, ap s.frame w.made, f);
                        queued = ground (
                          arith,
                          ap (count (s.frame j)) left,
                          count-append (s.frame j) q (s.frame k ∷ []),
                          f,
                        );
                        bound = ground (arith, real);
                      })
                      (w.calls j a (omega arith)))
            ];
            early = λ j l. ground (arith, real, w.made, w.till, w.early j l);
            passed = λ j c d.
                let f : s.frame k ≢ s.frame j =
                  λ e. sound.frames_apart j k (omega (arith, w.till)) (omega arith) (sym e) in
                ground (arith, real, ap s.frame w.made, f, w.passed j c d);
            only = λ h c. elim (eq_cases h (s.frame k)) [
              | inl e ↦ inr (k, w.till, omega arith, e)
              | inr n ↦
                  elim (w.only h
                    (ground (arith, ap (count h) left, count-append h q (s.frame k ∷ [])))) [
                      | inl e ↦ inl e
                      | inr (j, a, b, e) ↦ inr (j, a, omega arith, e)
                    ]
            ];
            no_timer = ground (arith, real, w.no_timer);
            polls = ground (arith, real, w.polls);
            main_waits = ground (arith, real, sound.frames_main p.made, w.main_waits);
            main_awaiter = ground (arith, real, sound.frames_main p.made, w.main_awaiter);
          };
          unqueued = ground (
            arith,
            ap (count s.main) left,
            count-append s.main q (s.frame k ∷ []),
            sound.frames_main k,
            g.unqueued,
          );
        },
        left,
      )

  -- The end of an await of a call that has returned.
  pub resume_over :
      (t next : ℕ) (cont : Sender → Outcome Sender) (p : Sender)
      → Call s over next t p
      → resume_await s.fi s.post s.conn s.pages s.main s.frame s.context t cont p ≡ cont p
  unfolding resume_await await_resume result
  resume_over t next cont p c =
      let (n, held) = c.holds in
      rw (ne→== (s.frame t) 0 (sound.frames_real t), held, resume_await) refl

  pub await_over :
      (t next : ℕ) (at : Await) (cont : Sender → Outcome Sender) (p : Sender)
      → Call s over next t p
      → await_call s.fi s.post s.conn s.pages s.main s.frame s.context t at cont p ≡ cont p
  unfolding await_call await_ready
  await_over t next at cont p c =
      rw (ne→== (s.frame t) 0 (sound.frames_real t), c.status, await_call)
        (resume_over t next cont p c)

  not_ready :
      (t : ℕ) (cs : Coros Written)
      → (cs.promises (s.frame t)).status ≡ waits
      → await_ready (s.frame t) cs ≡ false
  unfolding await_ready
  not_ready t cs e = rw (ne→== (s.frame t) 0 (sound.frames_real t), e, await_ready) refl

  busy :
      (x : Phase) (next t : ℕ) (p : Sender)
      → x ≢ over
      → Call s x next t p
      → ((p.coros.promises (s.frame t)).status ≡ waits)
        × (is_unschedule (state_of p.coros.io (s.frame t)) ≡ false)
        × (woken_by x ≡ 0)
  busy fresh next t p n c = (c.status, ap is_unschedule c.state, refl)
  busy flying next t p n c = (c.status, ap is_unschedule c.state, refl)
  busy landed next t p n c = (c.status, ap is_unschedule c.state, refl)
  busy over next t p n c = absurd (n refl)

  -- An await of a call that has not returned suspends WriteOne.
  pub await_call-IsAwaiting :
      (first t size todo : ℕ) (ph : ℕ → Phase) (at : Await) (cont : Sender → Outcome Sender)
      (p : Sender)
      → IsRunning s first t size todo ph p
      → t < first + size
      → ph t ≢ over
      → IsAt s.fi s.pages s.frame s.context s.main s.boss s.cq s.base s.total at first t size todo
      → (p' : Sender) × (await_call s.fi s.post s.conn s.pages s.main s.frame s.context t at cont p
          ≡ ok p')
        × Awaiting s first t size todo ph p'
        × (p'.coros.io.ready ≡ p.coros.io.ready)
  unfolding await_call await_suspend
  await_call-IsAwaiting first t size todo ph at cont p g b not_over place =
      let w = g.window in
      let (waiting, bound, unwoken) = busy (ph t) 0 t p not_over (w.calls t (omega arith) b) in
      let apart = sound.frames_main t in
      let io1 : Io = record p.coros.io { memory = set_state s.main suspend p.coros.io.memory } in
      let still : is_unschedule (state_of io1 (s.frame t)) ≡ false = ground (arith, apart) in
      let awaited =
        update p.coros.promises (s.frame t)
          (record (p.coros.promises (s.frame t)) { next = s.main }) in
      let p' : Sender = record p { coros = record { io = io1; promises = awaited }; place = at } in
      let mine : Call s (ph t) (awaited_by s.main t t) t p' = record {
        status = ground (arith, (w.calls t (omega arith) b).status);
        awaiter = ground arith;
        begun = (w.calls t (omega arith) b).begun;
        state = ground (arith, apart, (w.calls t (omega arith) b).state);
        queued = (w.calls t (omega arith) b).queued;
        holds =
            Holds-pending s.fi s.pages s.frame s.context (ph t) t p p' not_over refl refl
              (w.calls t (omega arith) b).holds;
      } in
      rw (not_ready t p.coros waiting, schedule_kept (s.frame t) io1 still, await_call)
        (
          p',
          refl,
          record {
            window = record {
              futs = w.futs;
              made = w.made;
              at_most = w.at_most;
              from = w.from;
              till = w.till;
              ops = w.ops;
              in_all = w.in_all;
              calls = λ k a d. elim (eq_cases k t) [
                | inl e ↦ subst (λ i. Call s (ph i) (awaited_by s.main t i) i p') (sym e) mine
                | inr n ↦
                    let f : s.frame t ≢ s.frame k =
                      apart_both s.frame first size t k sound.frames_apart w.at_most w.from b
                        (omega (arith, w.from)) d (λ e. n (sym e)) in
                    rw (ne→== k t n) (
                      IsCall-kept s.fi s.pages s.frame s.context (ph k) 0 k p p'
                        (record {
                          promise = ground (arith, f);
                          asked = refl;
                          begun = refl;
                          state = ground (arith, sound.frames_main k);
                          queued = refl;
                          bound = refl;
                        })
                        (w.calls k a d))
              ];
              early = λ j l. ground (arith, w.early j l);
              passed = λ j c d. ground (arith, w.passed j c d);
              only = w.only;
              no_timer = w.no_timer;
              polls = w.polls;
              main_waits = ground (arith, apart, w.main_waits);
              main_awaiter = ground (arith, apart, w.main_awaiter);
            };
            present = b;
            place = place;
            woken = g.unqueued ∙ sym unwoken;
          },
          refl,
        )

-- ===== src/Sender/Resuming.antt =====
-- A turn of WriteOne: it goes on after its await.
use aws_efa_examples.Common.{
  ℕ, suc, ◌+◌, ◌≡◌, ◌∙◌, refl, sym, ap, subst, List, [], ◌∷◌, count, append-nil, arith, Outcome,
  ==-self,
}
use aws_efa_examples.Writer.{CudaRegion, batch_size, page_request}
use aws_efa_examples.Writer.Pipeline.{upto}
use aws_efa_examples.Sender.{
  Sender, Await, filling, draining, pop_future, push_future, throttle_from, fill_region,
  fill_regions, drain_from, resume_at, run_sender, run_write_one,
}
use aws_efa_examples.Sender.Calls.{
  Phase, fresh, flying, landed, over, IsAt, pages_in, awaited_by, IsCall-kept, woken_by,
}
use aws_efa_examples.Sender.Windows.{
  Setting, IsSound, Call, Awaiting, taken, run, count_head, count_other,
}
use aws_efa_examples.Sender.Work.{work}
use aws_efa_examples.Sender.Steps.{resume_over}
use aws_efa_examples.Sender.Results.{IsResumed, take-IsRunning, pop-IsRunning}
use aws_efa_examples.Sender.Course.{pred, IsOnCourse, Leads, drain_from-Leads, throttle_room}
use aws_efa_examples.Sender.Filling.{fill_next-Leads, fill_region-Leads, fill_regions-Leads}

module _ (s : Setting) (sound : IsSound s) where
  woken-over :
      (x : Phase) (rest : List ℕ)
      → count s.main (s.main ∷ rest) ≡ woken_by x
      → (x ≡ over) × (count s.main rest ≡ 0)
  woken-over fresh rest e = absurd (omega (arith, e, count_head s.main rest))
  woken-over flying rest e = absurd (omega (arith, e, count_head s.main rest))
  woken-over landed rest e = absurd (omega (arith, e, count_head s.main rest))
  woken-over over rest e = (refl, omega (arith, e, count_head s.main rest))

  module _ (first t size todo : ℕ) (ph : ℕ → Phase) (rest : List ℕ) (p : Sender)
      (w : Awaiting s first t size todo ph p) (r : p.coros.io.ready ≡ s.main ∷ rest) where
    awaited-over : (ph t ≡ over) × (count s.main rest ≡ 0)
    awaited-over = woken-over (ph t) rest (ap (count s.main) (sym r) ∙ w.woken)

    taken-IsResumed : IsResumed s sound first t size todo ph (taken s.main rest p)
    taken-IsResumed = record {
      next = awaited_by s.main t;
      window = record {
        futs = w.window.futs;
        made = w.window.made;
        at_most = w.window.at_most;
        from = w.window.from;
        till = w.window.till;
        ops = w.window.ops;
        in_all = w.window.in_all;
        calls = λ k a b.
            IsCall-kept s.fi s.pages s.frame s.context (ph k) (awaited_by s.main t k) k p
              (taken s.main rest p)
              (record {
                promise = refl;
                asked = refl;
                begun = refl;
                state = ground (arith, sound.frames_main k);
                queued =
                    sym (count_other (s.frame k) s.main rest (λ e. sound.frames_main k (sym e)))
                    ∙ ap (count (s.frame k)) (sym r);
                bound = refl;
              })
              (w.window.calls k a b);
        early = w.window.early;
        passed = w.window.passed;
        only = λ h c. w.window.only h (ground (arith, ap (count h) r));
        no_timer = w.window.no_timer;
        polls = w.window.polls;
        main_waits = w.window.main_waits;
        main_awaiter = w.window.main_awaiter;
      };
      no_awaiter = λ k n. ground (arith, n);
      unqueued = awaited-over.1;
    }

  abbrev goes_on : Await → List ℕ → Sender → Outcome Sender
  goes_on = resume_at s.fi s.post s.conn s.pages s.main s.frame s.context

  -- In the loop over the pages.
  filling-Leads :
      (regions : List CudaRegion) (region : CudaRegion) (i left first n todo : ℕ) (ph : ℕ → Phase)
      (q : Sender)
      → IsResumed s sound first first batch_size todo ph q
      → ph first ≡ over
      → todo ≡ 1 + left + pages_in s.pages regions
      → first + suc n ≡ first + batch_size
      → Leads s
          (work ph (suc first) n todo)
          q.coros.io.ready
          (goes_on (filling regions region i left) (upto first batch_size) q)
  unfolding resume_at
  filling-Leads regions region i left first n todo ph q g e pages results =
      let most = work ph (suc first) n todo in
      let ready = q.coros.io.ready in
      let next = fill_regions s.fi s.post s.conn s.pages s.main s.frame s.context regions in
      let go_on : Sender → Outcome Sender = λ p.
        fill_region s.fi s.post s.conn s.pages s.main s.frame s.context regions next region (i + 1)
          left
          (push_future s.fi s.post s.conn s.pages s.main s.frame s.context
            (page_request s.pages region i) p) in
      let popped =
        pop_future s.fi s.post s.conn s.pages s.main s.frame s.context first (upto (suc first) 7)
          q in
      let (running, same) = pop-IsRunning s sound first 7 todo ph q g e in
      let after = fill_regions-Leads s sound most ready regions in
      let course : IsOnCourse s most ready (suc first) (suc first) 7 n todo ph popped = record {
        running = running;
        results = omega (arith, results);
        bounded = omega arith;
        new = [];
        grown = same ∙ sym (append-nil ready);
      } in
      subst (Leads s most ready)
        (sym (
          resume_over s sound first (g.next first)
            (λ p.
              throttle_from s.fi s.post s.conn s.pages s.main s.frame s.context
                (filling regions region i left) go_on (upto (suc first) 7)
                (pop_future s.fi s.post s.conn s.pages s.main s.frame s.context first
                  (upto (suc first) 7) p))
            q
            (subst (λ x. Call s x (g.next first) first q) e
              (g.window.calls first (omega arith) (omega arith)))
          ∙ throttle_room s sound most ready (suc first) 7 (filling regions region i left) go_on
              popped (omega arith)))
        (fill_next-Leads s sound most ready regions next region after i left
          (fill_region-Leads s sound most ready regions next region after left) (suc first) 7 n ph
          popped
          (subst (λ todo. IsOnCourse s most ready (suc first) (suc first) 7 n todo ph popped)
            (pages ∙ omega arith) course)
          (omega arith))

  -- In the loop at the end.
  draining-Leads :
      (first t size n : ℕ) (ph : ℕ → Phase) (fs : List ℕ) (q : Sender)
      → IsResumed s sound first t size 0 ph q
      → ph t ≡ over
      → t + suc n ≡ first + size
      → Leads s (work ph (suc t) n 0) q.coros.io.ready (goes_on (draining (upto t (suc n))) fs q)
  unfolding resume_at
  draining-Leads first t size n ph fs q g e results =
      let most = work ph (suc t) n 0 in
      let ready = q.coros.io.ready in
      subst (Leads s most ready)
        (sym (
          resume_over s sound t (g.next t)
            (λ p.
              drain_from s.fi s.post s.conn s.pages s.main s.frame s.context (upto (suc t) n)
                (record p { ops = p.ops + 1 }))
            q
            (subst (λ x. Call s x (g.next t) t q) e
              (g.window.calls t (omega arith) (omega arith)))))
        (drain_from-Leads s sound most ready n first (suc t) size ph (record q { ops = q.ops + 1 })
          (record {
            running = take-IsRunning s sound first t size 0 ph q g (omega arith) e;
            results = omega arith;
            bounded = omega arith;
            new = [];
            grown = sym (append-nil ready);
          }))

  resume_at-Leads :
      (first t size n todo : ℕ) (ph : ℕ → Phase) (at : Await) (q : Sender)
      → IsResumed s sound first t size todo ph q
      → ph t ≡ over
      → IsAt s.fi s.pages s.frame s.context s.main s.boss s.cq s.base s.total at first t size todo
      → t + suc n ≡ first + size
      → Leads s (work ph (suc t) n todo) q.coros.io.ready (goes_on at q.futs q)
  resume_at-Leads first t size n todo ph (filling regions region i left) q g e (same, eight, pages)
        results =
      subst
        (λ t.
          IsResumed s sound first t size todo ph q
          → ph t ≡ over
          → t + suc n ≡ first + size
          → Leads s (work ph (suc t) n todo) q.coros.io.ready
              (goes_on (filling regions region i left) q.futs q))
        (sym same)
        (λ g e results.
          subst
            (λ size.
              IsResumed s sound first first size todo ph q
              → q.futs ≡ upto first size
              → first + suc n ≡ first + size
              → Leads s (work ph (suc first) n todo) q.coros.io.ready
                  (goes_on (filling regions region i left) q.futs q))
            (sym eight)
            (λ g f results.
              subst
                (λ fs.
                  Leads s (work ph (suc first) n todo) q.coros.io.ready
                    (goes_on (filling regions region i left) fs q))
                (sym f) (filling-Leads regions region i left first n todo ph q g e pages results))
            g g.window.futs results)
        g e results
  resume_at-Leads first t size n todo ph (draining ks) q g e (m, queue, last, none) results =
      let as_many : m ≡ suc n = omega (arith, last, results) in
      let whole : ks ≡ upto t (suc n) = queue ∙ ap (λ m. upto t m) as_many in
      subst
        (λ ks. Leads s (work ph (suc t) n todo) q.coros.io.ready (goes_on (draining ks) q.futs q))
        (sym whole)
        (subst
          (λ todo.
            IsResumed s sound first t size todo ph q
            → Leads s (work ph (suc t) n todo) q.coros.io.ready
                (goes_on (draining (upto t (suc n))) q.futs q))
          (sym none) (λ g. draining-Leads first t size n ph q.futs q g e results) g)

  -- A turn of WriteOne leaves less to do.
  pub main-Leads :
      (first t size n todo : ℕ) (ph : ℕ → Phase) (rest : List ℕ) (p : Sender)
      → Awaiting s first t size todo ph p
      → p.coros.io.ready ≡ s.main ∷ rest
      → t + n ≡ first + size
      → (n' : ℕ) × (n ≡ suc n')
        × (ph t ≡ over)
        × Leads s (work ph (suc t) n' todo) rest (run s s.main (taken s.main rest p))
  unfolding run_sender run_write_one
  main-Leads first t size n todo ph rest p w r results =
      let (n', one_more) = pred n (λ z. omega (arith, results, w.present)) in
      let q = taken s.main rest p in
      let (e, _) = awaited-over first t size todo ph rest p w r in
      (
        n',
        one_more,
        e,
        rw (==-self s.main, w.window.main_waits, run_sender)
            (resume_at-Leads first t size n' todo ph p.place q
              (taken-IsResumed first t size todo ph rest p w r) e w.place
              (ap (λ n. t + n) (sym one_more) ∙ results)),
      )

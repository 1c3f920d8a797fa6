-- ===== src/Sleeper/Ending.antt =====
-- Run(Start()) of src/coro, over all rounds of its event loop.
use aws_efa_examples.Common.{
  append-nil, le→ltb, ℕ, ◌+◌, ◌<◌, ◌≤◌, ◌≡◌, ◌≢◌, ◌∙◌, refl, sym, ap, true, false, List, [], ◌∷◌,
  ◌++◌, All, Outcome, ok, lt→ltb,
}
use aws_efa_examples.Loop.Timers.{Task, expire}
use aws_efa_examples.Loop.Io.{runone, run_ready}
use aws_efa_examples.Loop.Io.Rounds.{runone-expire, run_ready-next}
use aws_efa_examples.Coro.{Coros}
use aws_efa_examples.Sleeper.{
  Program, program_host, stage_stopped, stage_loop, run_frame, begin_run, run_program,
}
use aws_efa_examples.Sleeper.Waking.{
  IsFresh, IsBegun, IsAsleep, IsRoused, IsOver, taken, begin_run-IsBegun, run_frame-IsAsleep,
  run_frame-IsRoused, run_frame-IsOver,
}

module _ (start sleep called : ℕ) (start_real : start ≢ 0) (sleep_real : sleep ≢ 0)
    (apart : start ≢ sleep) where
  abbrev run : ℕ → Program → Outcome Program
  run = run_frame start sleep called

  -- A round with one handle to run, after the timers.
  runone-single :
      (now h : ℕ) (p p' : Program) (schedule : List Task)
      → expire now (p.coros.io.schedule) (p.coros.io.ready) ≡ (schedule, h ∷ [])
      → run h (
          taken h
            (program_host.with_io (record (p.coros.io) { schedule = schedule; ready = h ∷ [] }) p))
        ≡ ok p'
      → runone program_host run now p ≡ ok p'
  unfolding run_ready
  runone-single now h p p' schedule e ran =
      let q =
        program_host.with_io (record (p.coros.io) { schedule = schedule; ready = h ∷ [] }) p in
      runone-expire program_host run now p schedule (h ∷ []) e
      ∙ run_ready-next program_host run 0 h [] q (ok p') refl ran

  stage_loop-next :
      (now : ℕ) (times : List ℕ) (p p' : Program)
      → stage_stopped (p.coros.io) ≡ false
      → runone program_host run now p ≡ ok p'
      → stage_loop program_host run (now ∷ times) p ≡ stage_loop program_host run times p'
  unfolding stage_loop
  stage_loop-next now times p p' s r = rw (s, stage_loop) (rw r refl)

  stage_loop-stopped :
      (times : List ℕ) (p : Program)
      → stage_stopped (p.coros.io) ≡ true
      → stage_loop program_host run times p ≡ ok p
  unfolding stage_loop
  stage_loop-stopped [] p s = refl
  stage_loop-stopped (now ∷ times) p s = rw (s, stage_loop) refl

  stage_loop-IsAsleep :
      (now : ℕ) (times : List ℕ) (p : Program)
      → IsBegun start p
      → (id : ℕ) × (p' : Program) × (stage_loop program_host run (now ∷ times) p
          ≡ stage_loop program_host run times p')
        × IsAsleep start sleep id (called + 3000) p'
  unfolding expire stage_stopped
  stage_loop-IsAsleep now times p b =
      let (id, p', ran, asleep) =
        run_frame-IsAsleep start sleep called start_real sleep_real apart p b in
      (
        id,
        p',
        stage_loop-next now times p p' (rw (b.no_timer, b.queued, stage_stopped) refl) (
            runone-single now start p p' (p.coros.io.schedule)
              (rw (b.no_timer, b.queued, expire) refl) ran),
        asleep,
      )

  stage_loop-quiet :
      (id due : ℕ) (quiet times : List ℕ) (p : Program)
      → IsAsleep start sleep id due p
      → All (λ t. t < due) quiet
      → (p' : Program) × (stage_loop program_host run (quiet ++ times) p
          ≡ stage_loop program_host run times p')
        × IsAsleep start sleep id due p'
  unfolding expire stage_stopped run_ready
  stage_loop-quiet id due [] times p a ts = (p, refl, a)
  stage_loop-quiet id due (t ∷ quiet) times p a (early, ts) =
      let q = program_host.with_io (record (p.coros.io) { ready = [] }) p in
      let asleep : IsAsleep start sleep id due q = record {
        timer = a.timer;
        idle = refl;
        place = a.place;
        printed = a.printed;
        waiting = a.waiting;
        alone = a.alone;
        sleeping = a.sleeping;
        awaiter = a.awaiter;
      } in
      let (p', went, later) = stage_loop-quiet id due quiet times q asleep ts in
      (
        p',
        stage_loop-next t (quiet ++ times) p q (rw (a.timer, stage_stopped) refl) (
              runone-expire program_host run t p (p.coros.io.schedule) []
                (rw (a.timer, a.idle, lt→ltb t due early, expire) refl))
            ∙ went,
        later,
      )

  stage_loop-IsRoused :
      (id due now : ℕ) (times : List ℕ) (p : Program)
      → IsAsleep start sleep id due p
      → due ≤ now
      → (p' : Program) × (stage_loop program_host run (now ∷ times) p
          ≡ stage_loop program_host run times p')
        × IsRoused start sleep p'
  unfolding expire stage_stopped
  stage_loop-IsRoused id due now times p a late =
      let (p', ran, roused) =
        run_frame-IsRoused start sleep called start_real sleep_real apart p id due a in
      (
        p',
        stage_loop-next now times p p' (rw (a.timer, stage_stopped) refl) (
            runone-single now sleep p p' [] (rw (a.timer, a.idle, le→ltb now due late, expire) refl)
              ran),
        roused,
      )

  stage_loop-IsOver :
      (now : ℕ) (times : List ℕ) (p : Program)
      → IsRoused start sleep p
      → (p' : Program) × (stage_loop program_host run (now ∷ times) p ≡ ok p') × IsOver start p'
  unfolding expire stage_stopped
  stage_loop-IsOver now times p r =
      let (p', ran, over) = run_frame-IsOver start sleep called start_real sleep_real apart p r in
      (
        p',
        stage_loop-next now times p p' (rw (r.no_timer, r.queued, stage_stopped) refl) (
              runone-single now start p p' (p.coros.io.schedule)
                (rw (r.no_timer, r.queued, expire) refl) ran)
            ∙ stage_loop-stopped times p' (rw (over.no_timer, over.idle, stage_stopped) refl),
        over,
      )

  -- main of src/coro, with frames that are not null and not the same, and an event loop that has nothing to
  -- do. As long as the rounds after the first are less than 3000 milliseconds after the call of Sleep,
  -- it has printed "Start" and sleeps; with one round that is not, and one more, whatever rounds are
  -- left, the event loop stops by itself, "Start" and "Done" are printed, in this order and once each,
  -- and the result of the coroutine is there.
  pub run_program-IsOver :
      (cs : Coros (Unit {0})) (first due last : ℕ) (quiet rest : List ℕ)
      → IsFresh cs
      → All (λ t. t < called + 3000) quiet
      → called + 3000 ≤ due
      → ((id : ℕ) × (p : Program) × (run_program start sleep called (first ∷ quiet) cs ≡ ok p)
          × IsAsleep start sleep id (called + 3000) p)
        × ((p : Program) × (run_program start sleep called (first ∷ (quiet ++ due ∷ last ∷ rest)) cs
              ≡ ok p)
            × IsOver start p)
  unfolding run_program stage_loop
  run_program-IsOver cs first due last quiet rest f early late =
      let begun = begin_run-IsBegun start sleep called start_real sleep_real apart cs f in
      let p0 = begin_run start sleep called cs in
      let (id, p1, e1, a1) = stage_loop-IsAsleep first quiet p0 begun in
      let (p2, e2, a2) = stage_loop-quiet id (called + 3000) quiet [] p1 a1 early in
      let (id', q1, d1, b1) = stage_loop-IsAsleep first (quiet ++ due ∷ last ∷ rest) p0 begun in
      let (q2, d2, b2) =
        stage_loop-quiet id' (called + 3000) quiet (due ∷ last ∷ rest) q1 b1 early in
      let (q3, d3, b3) = stage_loop-IsRoused id' (called + 3000) due (last ∷ rest) q2 b2 late in
      let (q4, d4, b4) = stage_loop-IsOver last rest q3 b3 in
      (
        (
          id,
          p2,
          e1 ∙ ap (λ ts. stage_loop program_host run ts p1) (sym (append-nil quiet)) ∙ e2,
          a2,
        ),
        (q4, d1 ∙ d2 ∙ d3 ∙ d4, b4),
      )

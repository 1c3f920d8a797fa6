-- ===== src/Sleeper/Waking.antt =====
-- The program of src/coro from its start to its end, round by round.
use aws_efa_examples.Common.{
  if◌then◌else◌, ◌==◌, undefined, ℕ, ◌+◌, ◌≡◌, ◌≢◌, ◌∙◌, refl, sym, ap, [], ◌∷◌, ok, ne→==, ==-self,
  arith,
}
use aws_efa_examples.Loop.Timers.{push}
use aws_efa_examples.Loop.Io.{Io, call, call_after, schedule_handle, take_front}
use aws_efa_examples.Coro.Values.{result, value, set_value}
use aws_efa_examples.Coro.{
  ended, destroyed, Status, waits, Coros, Promise, await_suspend, await_resume, finish_turn,
  final_suspend, destroy_coro, new_future, sleep_suspend, returns,
}
use aws_efa_examples.Coro.Ending.{cancel_handle_lem, finish_turn_lem}
use aws_efa_examples.Sleeper.{
  Program, at_start, at_sleep, start_line, done_line, program_host, run_start, run_frame, begin_run,
}

-- The event loop has nothing to do.
pub record IsFresh (cs : Coros (Unit {0})) : Type 0 where
  pub no_timer : cs.io.schedule ≡ []
  pub idle : cs.io.ready ≡ []

-- Start is queued and has not begun.
pub record IsBegun (start : ℕ) (p : Program) : Type 0 where
  pub no_timer : p.coros.io.schedule ≡ []
  pub queued : p.coros.io.ready ≡ start ∷ []
  pub place : p.place ≡ at_start
  pub printed : p.printed ≡ []
  pub waiting : (p.coros.promises start).status ≡ waits
  pub alone : (p.coros.promises start).next ≡ 0

-- Start awaits the sleep, whose timer runs.
pub record IsAsleep (start sleep id due : ℕ) (p : Program) : Type 0 where
  pub timer : p.coros.io.schedule ≡ record { due = due; id = id; handle = sleep } ∷ []
  pub idle : p.coros.io.ready ≡ []
  pub place : p.place ≡ at_sleep
  pub printed : p.printed ≡ start_line ∷ []
  pub waiting : (p.coros.promises start).status ≡ waits
  pub alone : (p.coros.promises start).next ≡ 0
  pub sleeping : (p.coros.promises sleep).status ≡ waits
  pub awaiter : (p.coros.promises sleep).next ≡ start

-- The sleep is over, and Start is queued.
pub record IsRoused (start sleep : ℕ) (p : Program) : Type 0 where
  pub no_timer : p.coros.io.schedule ≡ []
  pub queued : p.coros.io.ready ≡ start ∷ []
  pub place : p.place ≡ at_sleep
  pub printed : p.printed ≡ start_line ∷ []
  pub waiting : (p.coros.promises start).status ≡ waits
  pub alone : (p.coros.promises start).next ≡ 0
  pub over : (p.coros.promises sleep).held ≡ value tt

-- Start has returned, and the event loop has nothing to do.
pub record IsOver (start : ℕ) (p : Program) : Type 0 where
  pub no_timer : p.coros.io.schedule ≡ []
  pub idle : p.coros.io.ready ≡ []
  pub printed : p.printed ≡ start_line ∷ done_line ∷ []
  pub returned : (p.coros.promises start).held ≡ value tt

abbrev pub taken : ℕ → Program → Program
taken h p = program_host.with_io (take_front h [] (p.coros.io)) p

module _ (start sleep called : ℕ) (start_real : start ≢ 0) (sleep_real : sleep ≢ 0)
    (apart : start ≢ sleep) where
  pub begin_run-IsBegun :
      (cs : Coros (Unit {0})) → IsFresh cs → IsBegun start (begin_run start sleep called cs)
  unfolding begin_run new_future schedule_handle call
  begin_run-IsBegun cs f = record {
    no_timer = ground arith;
    queued = ground arith;
    place = refl;
    printed = refl;
    waiting = ground arith;
    alone = ground arith;
  }

  pub run_frame-IsAsleep :
      (p : Program)
      → IsBegun start p
      → (id : ℕ) × (p' : Program) × (run_frame start sleep called start (taken start p) ≡ ok p')
        × IsAsleep start sleep id (called + 3000) p'
  unfolding run_frame run_start await_suspend sleep_suspend call_after push schedule_handle
  run_frame-IsAsleep p b =
      rw (b.waiting, run_frame)
        (rw (==-self start, b.place)
          (
            (p.coros.io.memory.handles sleep).id,
            _,
            refl,
            record {
              timer = ground (arith, apart);
              idle = ground (arith, apart);
              place = refl;
              printed = ground (arith, apart);
              waiting = ground (arith, apart);
              alone = ground (arith, apart);
              sleeping = ground (arith, apart);
              awaiter = ground (arith, apart);
            },
          ))

  run_frame-sleep :
      (p : Program)
      → (p.coros.promises sleep).status ≡ waits
      → run_frame start sleep called sleep p
        ≡ ok (record p { coros = finish_turn sleep (returns tt) (p.coros) })
  unfolding run_frame
  run_frame-sleep p w =
      ap
        (λ (s : Status). elim s [
          | waits ↦
              if sleep == start
              then run_start start sleep called (p.place) p
              else if sleep == sleep
              then ok (record p { coros = finish_turn sleep (returns tt) (p.coros) })
              else undefined
          | ended ↦ undefined
          | destroyed ↦ undefined
        ])
        w
      ∙ rw (ne→== sleep start (λ e. apart (sym e)), ==-self sleep) refl

  pub run_frame-IsRoused :
      (p : Program) (id due : ℕ)
      → IsAsleep start sleep id due p
      → let io = record (p.coros.io) { schedule = []; ready = sleep ∷ [] } in
        (p' : Program) × (run_frame start sleep called sleep
            (taken sleep (program_host.with_io io p))
          ≡ ok p')
        × IsRoused start sleep p'
  unfolding call
  run_frame-IsRoused p id due a =
      let io = record (p.coros.io) { schedule = []; ready = sleep ∷ [] } in
      let q = taken sleep (program_host.with_io io p) in
      let (called, mine, others) = finish_turn_lem sleep tt (q.coros) (rw (a.awaiter) start_real) in
      let kept = others start (λ e. apart (sym e)) in
      (
        _,
        run_frame-sleep q (a.sleeping),
        record {
          no_timer = ap (λ (io : Io). io.schedule) called;
          queued = ap (λ (io : Io). io.ready) called ∙ ap (λ h. h ∷ []) (a.awaiter);
          place = a.place;
          printed = a.printed;
          waiting = ap (λ (q : Promise (Unit {0})). q.status) kept ∙ a.waiting;
          alone = ap (λ (q : Promise (Unit {0})). q.next) kept ∙ a.alone;
          over = ap (λ (q : Promise (Unit {0})). q.held) mine;
        },
      )

  pub run_frame-IsOver :
      (p : Program)
      → IsRoused start sleep p
      → (p' : Program) × (run_frame start sleep called start (taken start p) ≡ ok p')
        × IsOver start p'
  unfolding run_frame run_start await_resume result destroy_coro finish_turn final_suspend set_value
  run_frame-IsOver p r =
      rw (r.waiting, run_frame)
        (rw (==-self start, r.place)
          (rw (ne→== sleep 0 sleep_real, r.over, cancel_handle_lem sleep _)
            (
              _,
              refl,
              record {
                no_timer = ground (arith, apart);
                idle = ground (arith, apart);
                printed = ground (arith, apart);
                returned = ground (arith, apart);
              },
            )))

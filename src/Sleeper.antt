-- ===== src/Sleeper.antt =====
-- src/coro: the program of main.cc, which sleeps, with its event loop, that of src/batch without a
-- selector, and Run of include/common/runner.h. The frames of Start and of detail::Sleep, and the time
-- at which the sleep is asked for, are arguments.
pub mod Waking
pub mod Ending
use aws_efa_examples.Common.{
  refl, ℕ, ◌==◌, ◌&&◌, Bool, true, false, List, [], ◌∷◌, ◌++◌, if◌then◌else◌, Outcome, ok, throw,
  undefined, ◌>>=◌,
}
use aws_efa_examples.Loop.Defs.{unschedule, Memory, set_state}
use aws_efa_examples.Loop.Selector.{is_empty}
use aws_efa_examples.Loop.Io.{Io, Host, runone}
use aws_efa_examples.Coro.Values.{unset, result}
use aws_efa_examples.Coro.{
  waits, ended, destroyed, Coros, returns, throws, set_promise, await_suspend, await_resume,
  finish_turn, destroy_coro, new_future, sleep_suspend,
}

-- IO::Stopped and IO::Run of this stage, for as many rounds as there are times.
unfoldable pub stage_stopped : Io → Bool
stage_stopped io = is_empty io.schedule && is_empty io.ready

unfoldable pub stage_loop : {S : Type 0} → Host S → (ℕ → S → Outcome S) → List ℕ → S → Outcome S
unfolding stage_stopped runone
stage_loop host run [] s = ok s
stage_loop host run (now ∷ times) s = elim (stage_stopped (host.io_of s)) [
  | true ↦ ok s
  | false ↦ runone host run now s >>= λ s'. stage_loop host run times s'
]

-- What Start prints, and where it goes on.
pub data Line : Type 0 where
  start_line done_line : Line

pub data Place : Type 0 where
  at_start at_sleep : Place

pub record Program : Type 0 where
  pub coros : Coros (Unit {0})
  pub printed : List Line
  pub place : Place

abbrev pub program_host : Host Program
program_host = record {
  io_of = λ p. p.coros.io;
  with_io = λ io p. record p { coros = record (p.coros) { io = io } };
  io_of-with_io = λ io p. refl;
  with_io-io_of = λ p. refl;
}

-- A new frame, whose handle is not scheduled.
abbrev pub begin_frame : (h : ℕ) → Bool → Coros (Unit {0}) → Coros (Unit {0})
begin_frame h oneway cs =
    let io = cs.io in
    record (set_promise h (record { oneway = oneway; next = 0; held = unset; status = waits }) cs) {
      io = record io { memory = set_state h unschedule (io.memory) };
    }

module _ (start sleep called : ℕ) where
  -- Sleep(3000ms), which starts at once, up to its suspension; and the await of it.
  abbrev pub await_sleep : Program → Program
  await_sleep p = record p {
    coros =
        await_suspend sleep start
          (sleep_suspend called 3000 sleep (begin_frame sleep true (p.coros)));
    place = at_sleep;
  }

  abbrev pub end_start : Outcome (Unit {0}) → Program → Outcome Program
  end_start (ok _) p = ok (record p {
    coros = finish_turn start (returns tt) (p.coros);
    printed = p.printed ++ done_line ∷ [];
  })
  end_start (throw e) p = ok (record p { coros = finish_turn start (throws e) (p.coros) })
  end_start undefined p = undefined

  -- A turn of Start.
  unfoldable pub run_start : Place → Program → Outcome Program
  unfolding await_suspend sleep_suspend await_resume destroy_coro finish_turn
  run_start at_start p = ok (await_sleep (record p { printed = p.printed ++ start_line ∷ [] }))
  run_start at_sleep p =
      end_start (await_resume sleep (p.coros)) (record p { coros = destroy_coro sleep (p.coros) })

  -- `run` of the two frames; to resume one that has ended or is destroyed is undefined.
  unfoldable pub run_frame : ℕ → Program → Outcome Program
  unfolding run_start finish_turn
  run_frame h p = elim ((p.coros.promises h).status) [
    | waits ↦
        if h == start
        then run_start (p.place) p
        else if h == sleep
        then ok (record p { coros = finish_turn sleep (returns tt) (p.coros) })
        else undefined
    | ended ↦ undefined
    | destroyed ↦ undefined
  ]

  -- Run(Start()) up to the event loop, which is empty: Start() makes a frame that waits at its beginning.
  unfoldable pub begin_run : Coros (Unit {0}) → Program
  unfolding new_future
  begin_run cs = record {
    coros = new_future start (begin_frame start false cs);
    printed = [];
    place = at_start;
  }

  -- main: the event loop for some rounds, and what `fut.result()` gives after it.
  unfoldable pub run_program : List ℕ → Coros (Unit {0}) → Outcome Program
  unfolding stage_loop run_frame begin_run
  run_program times cs = stage_loop program_host run_frame times (begin_run cs)

-- ===== src/Examples/Sleepers.antt =====
-- The program of src/coro on concrete times.
use aws_efa_examples.Common.{ℕ, ◌≡◌, false, refl, [], ◌∷◌, ok, arith}
use aws_efa_examples.Coro.{Coros, waits}
use aws_efa_examples.Coro.Values.{unset}
use aws_efa_examples.Sleeper.{Program, run_program}
use aws_efa_examples.Sleeper.Waking.{IsFresh, IsAsleep, IsOver}
use aws_efa_examples.Sleeper.Ending.{run_program-IsOver}
use aws_efa_examples.Examples.{idle}

abbrev nothing_yet : Coros (Unit {0})
nothing_yet = record {
  io = idle;
  promises = λ h. record { oneway = false; next = 0; held = unset; status = waits };
}

nothing_yet-IsFresh : IsFresh nothing_yet
nothing_yet-IsFresh = record { no_timer = refl; idle = refl }

-- Start is at 1 and the sleep at 2, which is asked for at 5.
run_program-IsOver_example :
    ((id : ℕ) × (p : Program) × (run_program 1 2 5 (4 ∷ 1000 ∷ 3004 ∷ []) nothing_yet ≡ ok p)
      × IsAsleep 1 2 id 3005 p)
    × ((p : Program) × (run_program 1 2 5 (4 ∷ 1000 ∷ 3004 ∷ 3005 ∷ 3006 ∷ 3007 ∷ []) nothing_yet
          ≡ ok p)
        × IsOver 1 p)
run_program-IsOver_example =
    run_program-IsOver 1 2 5 (omega arith) (omega arith) (omega arith) nothing_yet 4 3005 3006
      (1000 ∷ 3004 ∷ []) (3007 ∷ []) nothing_yet-IsFresh (omega arith, (omega arith, tt))
      (omega arith)

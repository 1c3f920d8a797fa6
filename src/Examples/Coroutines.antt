-- ===== src/Examples/Coroutines.antt =====
-- Coroutines with numbers for results.
use aws_efa_examples.Common.{ℕ, ◌≡◌, refl, true, false, [], ◌∷◌, ok, undefined, arith}
use aws_efa_examples.Loop.Defs.{scheduled}
use aws_efa_examples.Loop.Io.{Io, state_of, call, schedule_handle}
use aws_efa_examples.Loop.Io.Queueing.{IsQueuedOnce}
use aws_efa_examples.Coro.Values.{unset}
use aws_efa_examples.Coro.{
  waits, Coros, Turn, returns, await_ready, await_suspend, await_resume, finish_turn, resume,
  destroy_coro,
}
use aws_efa_examples.Coro.Awaiting.{await_suspend-finish_turn}
use aws_efa_examples.Coro.Ending.{destroy_coro-queued}
use aws_efa_examples.Examples.{busy, idle}

abbrev coros : Io → Coros ℕ
coros io = record {
  io = io;
  promises = λ h. record { oneway = false; next = 0; held = unset; status = waits };
}

await_suspend-finish_turn_example :
    (state_of (finish_turn 4 (returns 64) (await_suspend 4 9 (coros busy))).io 9 ≡ scheduled)
    × ((finish_turn 4 (returns 64) (await_suspend 4 9 (coros busy))).io.ready ≡ 1 ∷ 4 ∷ 9 ∷ [])
    × (await_ready 4 (finish_turn 4 (returns 64) (await_suspend 4 9 (coros busy))) ≡ true)
    × (await_resume 4 (finish_turn 4 (returns 64) (await_suspend 4 9 (coros busy))) ≡ ok 64)
unfolding await_suspend schedule_handle call
await_suspend-finish_turn_example =
    await_suspend-finish_turn 4 9 (coros busy) (await_suspend 4 9 (coros busy)) (returns 64)
      (omega arith) (omega arith) refl (λ e. cc)

busy_once : IsQueuedOnce busy
busy_once h = ground arith

abbrev returns_64 : ℕ → Coros ℕ → Coros ℕ × Turn ℕ
returns_64 h w = (w, returns 64)

abbrev ended_4 : Coros ℕ
ended_4 = finish_turn 4 (returns 64) (coros idle)

resume_4 : resume returns_64 4 (coros idle) ≡ ok ended_4
unfolding resume
resume_4 = refl

destroy_coro-queued_example :
    ((destroy_coro 2 (coros busy)).io.ready ≡ 1 ∷ [])
    × ((destroy_coro 2 (coros busy)).io.schedule ≡ busy.schedule)
    × (resume returns_64 2 (destroy_coro 2 (coros busy)) ≡ undefined)
destroy_coro-queued_example = destroy_coro-queued returns_64 2 (coros busy) (omega arith)

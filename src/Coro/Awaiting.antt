-- ===== src/Coro/Awaiting.antt =====
-- A coroutine that awaits another.
use aws_efa_examples.Common.{
  ℕ, ◌+◌, ◌≡◌, ◌≢◌, refl, true, false, [], ◌∷◌, ◌++◌, count-append, Outcome, ok, throw,
  runtime_error, arith,
}
use aws_efa_examples.Loop.Defs.{scheduled}
use aws_efa_examples.Loop.Timers.{push}
use aws_efa_examples.Loop.Io.{state_of, call, call_after, schedule_handle}
use aws_efa_examples.Loop.Io.Queueing.{IsQueuedOnce, is_scheduled, schedule_handle-IsQueuedOnce}
use aws_efa_examples.Coro.{
  Coros, Turn, awaits, returns, throws, await_ready, await_suspend, await_resume, final_suspend,
  finish_turn, new_future, sleep_suspend,
}

-- What an awaiter of a coroutine gets for its last turn.
abbrev pub outcome_of {ℓ} : {A : Type ℓ} → Turn A → Outcome A
outcome_of awaits = throw (runtime_error "result not set")
outcome_of (returns a) = ok a
outcome_of (throws e) = throw e

module _ {ℓ} {A : Type ℓ} where
  -- From the await on: if awaiter and awaited are not null and the awaited coroutine takes its last
  -- turn in some later state in which it has the same awaiter, then the awaiter becomes scheduled, at the back of `ready_`, the
  -- coroutine is ended, and the await gives what that turn returned or throws what it threw.
  pub await_suspend-finish_turn :
      (h co : ℕ) (w later : Coros A) (turn : Turn A)
      → h ≢ 0
      → co ≢ 0
      → (later.promises h).next ≡ ((await_suspend h co w).promises h).next
      → turn ≢ awaits
      → (state_of (finish_turn h turn later).io co ≡ scheduled)
        × ((finish_turn h turn later).io.ready ≡ later.io.ready ++ co ∷ [])
        × (await_ready h (finish_turn h turn later) ≡ true)
        × (await_resume h (finish_turn h turn later) ≡ outcome_of turn)
  unfolding await_suspend finish_turn final_suspend await_ready await_resume call
  await_suspend-finish_turn h co w later awaits n m same t = absurd (t refl)
  await_suspend-finish_turn h co w later (returns a) n m same t = ground arith
  await_suspend-finish_turn h co w later (throws e) n m same t = ground arith

  -- A coroutine that is put into a Future and awaited keeps the rule that a handle is queued once if
  -- it is scheduled and not at all otherwise, if the awaiter itself is not scheduled and is another.
  pub new_future-await_suspend :
      (h co : ℕ) (w : Coros A)
      → h ≢ co
      → is_scheduled (state_of w.io co) ≡ false
      → IsQueuedOnce w.io
      → IsQueuedOnce (await_suspend h co (new_future h w)).io
  unfolding await_suspend new_future schedule_handle
  new_future-await_suspend h co w n f v k =
      ground
        (arith, schedule_handle-IsQueuedOnce h w.io v k, v k, count-append k w.io.ready (h ∷ []))

  -- A Sleep is not woken before its time by another coroutine that awaits it: the await adds nothing to
  -- `ready_`, and the timer stands in the queue.
  pub sleep_suspend-await_suspend :
      (now delay h co : ℕ) (w : Coros A)
      → h ≢ co
      → ((await_suspend h co (sleep_suspend now delay h w)).io.ready ≡ w.io.ready)
        × ((await_suspend h co (sleep_suspend now delay h w)).io.schedule
            ≡ push
                (record { due = now + delay; id = (w.io.memory.handles h).id; handle = h })
                w.io.schedule)
  unfolding await_suspend sleep_suspend schedule_handle call_after
  sleep_suspend-await_suspend now delay h co w n = ground arith

  -- Of two coroutines that await the same one, the second takes the place of the first: the end of
  -- the awaited one adds nothing but the second to `ready_`.
  pub await_suspend_twice :
      (h first second : ℕ) (w : Coros A) (turn : Turn A)
      → second ≢ 0
      → turn ≢ awaits
      → let w' = await_suspend h second (await_suspend h first w) in
        (finish_turn h turn w').io.ready ≡ w'.io.ready ++ second ∷ []
  unfolding await_suspend finish_turn final_suspend call
  await_suspend_twice h first second w awaits n t = absurd (t refl)
  await_suspend_twice h first second w (returns a) n t = ground arith
  await_suspend_twice h first second w (throws e) n t = ground arith

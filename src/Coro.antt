-- ===== src/Coro.antt =====
-- src/batch/include/common/coro.h, future.h and timer.h: the coroutines. A coroutine's frame is known
-- by the address of its promise, which is also its handle in the event loop; what its body does up to
-- the next suspension is an argument.
pub mod Values
pub mod Awaiting
pub mod Ending
use aws_efa_examples.Common.{
  ℕ, zero, suc, ◌+◌, ◌-◌, ◌*◌, ◌/◌, ◌%◌, ◌^◌, ◌≤◌, ◌<◌, ◌≡◌, ◌≢◌, ◌⊎◌, ◌↔◌, refl, sym, ap, ◌∙◌,
  subst, Bool, true, false, not, ◌&&◌, ◌||◌, inl, inr, Option, none, some, List, [], ◌∷◌, ◌++◌, map,
  append_assoc, append-nil, map-append, ltb, leb, ◌==◌, if◌then◌else◌, Bool-cases, Option-cases,
  ==_iff, ==-self, ne→==, le→leb, leb→le, lt→ltb, le→ltb, keep, filter_map, concat_map, All,
  All-append, count, count-append, length, length-append, length-map, take, drop, Outcome, ok,
  throw, undefined, Exception, check_failed, assertion, invalid_argument, runtime_error,
  out_of_range, ◌>>=◌, ◌>>◌, ensure, require, >>=-eq-ok, lookup, emplace, erase, contains, add,
  remove, arith,
}
use aws_efa_examples.Loop.Defs.{
  State, unschedule, scheduled, suspend, is_unschedule, Handle, Entry, Context, Event, Memory,
  update, set_state, set_entry, set_handle,
}
use aws_efa_examples.Loop.Timers.{Task, before, push, expire}
use aws_efa_examples.Loop.Selector.{
  Selector, CqRead, entries, error_available, again, failed, select,
}
use aws_efa_examples.Loop.Io.{
  Io, state_of, call, call_after, schedule_handle, cancel_handle, stopped, register_cq,
  unregister_cq, register_context, unregister_context, call_events, select_events, take_front,
  run_ready, runone, Round, run_loop,
}
use aws_efa_examples.Coro.Values.{
  Result, unset, value, exception, has_value, set_value, set_exception, result,
}

-- A frame waits at a suspension point, has reached its final one, or is gone.
pub data Status : Type 0 where
  waits ended destroyed : Status

-- `done()`.
abbrev pub is_ended : Status → Bool
is_ended ended = true
is_ended _ = false

-- promise_type, less the members of its base class Handle, with the state of the frame; a null `next`
-- is 0.
pub record Promise {ℓ} (A : Type ℓ) : Type ℓ where
  pub oneway : Bool
  pub next : ℕ
  pub held : Result A
  pub status : Status

pub record Coros {ℓ} (A : Type ℓ) : Type ℓ where
  pub io : Io
  pub promises : ℕ → Promise A

-- What a body does when it is resumed: it awaits something, returns, or lets an exception out.
pub data Turn {ℓ} (A : Type ℓ) : Type ℓ where
  awaits : Turn A
  returns : A → Turn A
  throws : Exception → Turn A

module _ {ℓ} {A : Type ℓ} where
  abbrev pub set_promise : ℕ → Promise A → Coros A → Coros A
  set_promise h p w = record w { promises = update w.promises h p }

  -- initial_suspend: whether the body starts at once.
  unfoldable pub starts_at_once : Promise A → Bool
  starts_at_once p = p.oneway

  -- awaiter_base::await_ready, await_suspend and await_resume.
  unfoldable pub await_ready : ℕ → Coros A → Bool
  await_ready h w = if h == 0 then true else is_ended ((w.promises h).status)

  unfoldable pub await_suspend : (h coroutine : ℕ) → Coros A → Coros A
  unfolding schedule_handle
  await_suspend h coroutine w =
      let io = record (w.io) { memory = set_state coroutine suspend (w.io.memory) } in
      record (set_promise h (record (w.promises h) { next = coroutine }) w) {
        io = schedule_handle h io;
      }

  unfoldable pub await_resume : ℕ → Coros A → Outcome A
  unfolding result
  await_resume h w =
      if h == 0 then throw (runtime_error "invalid coro handler") else result ((w.promises h).held)

  -- final_awaiter::await_suspend, at the final suspension point.
  unfoldable pub final_suspend : ℕ → Coros A → Coros A
  unfolding call
  final_suspend h w =
      let w' = set_promise h (record (w.promises h) { status = ended }) w in
      let next = (w.promises h).next in
      if next == 0 then w' else record w' { io = call next (w'.io) }

  -- return_value or unhandled_exception, and the final suspension.
  unfoldable pub finish_turn : ℕ → Turn A → Coros A → Coros A
  unfolding final_suspend set_value set_exception
  finish_turn h awaits w = w
  finish_turn h (returns a) w =
      final_suspend h
        (set_promise h (record (w.promises h) { held = set_value a ((w.promises h).held) }) w)
  finish_turn h (throws e) w =
      final_suspend h
        (set_promise h (record (w.promises h) { held = set_exception e ((w.promises h).held) }) w)

  -- promise_type::run. To resume a coroutine that has ended or is destroyed is undefined.
  unfoldable pub resume : (ℕ → Coros A → Coros A × Turn A) → ℕ → Coros A → Outcome (Coros A)
  unfolding finish_turn
  resume body h w = elim ((w.promises h).status) [
    | waits ↦ let (w', turn) = body h w in ok (finish_turn h turn w')
    | ended ↦ undefined
    | destroyed ↦ undefined
  ]

  -- Coro::Destroy, for the handle that the object holds.
  unfoldable pub destroy_coro : ℕ → Coros A → Coros A
  unfolding cancel_handle
  destroy_coro h w =
      if h == 0
      then w
      else record (set_promise h (record (w.promises h) { status = destroyed }) w) {
        io = cancel_handle h (w.io);
      }

  -- Future(C &&).
  unfoldable pub new_future : ℕ → Coros A → Coros A
  unfolding schedule_handle
  new_future h w =
      if not (h == 0) && not (is_ended ((w.promises h).status))
      then record w { io = schedule_handle h (w.io) }
      else w

  -- detail::sleep_awaiter::await_suspend.
  unfoldable pub sleep_suspend : (now delay coroutine : ℕ) → Coros A → Coros A
  unfolding call_after
  sleep_suspend now delay coroutine w = record w { io = call_after now delay coroutine (w.io) }

-- ===== src/Reader.antt =====
-- src/batch/main.cc: Reader::Read in the event loop, with the coroutines of Conn::Read that it awaits
-- one after the other. The address of each such coroutine's frame and of its awaiter's context is an
-- argument, by the number of the call.
pub mod Polls
pub mod States
pub mod Rounds
pub mod Hearing
pub mod Losses
use aws_efa_examples.Common.{
  ℕ, zero, suc, ◌+◌, ◌-◌, ◌*◌, ◌/◌, ◌%◌, ◌^◌, ◌≤◌, ◌<◌, ◌≡◌, ◌≢◌, ◌⊎◌, ◌↔◌, refl, sym, ap, ◌∙◌,
  subst, Bool, true, false, not, ◌&&◌, ◌||◌, inl, inr, Option, none, some, List, [], ◌∷◌, ◌++◌, map,
  append_assoc, append-nil, map-append, ltb, leb, ◌==◌, if◌then◌else◌, Bool-cases, Option-cases,
  ==_iff, ==-self, ne→==, le→leb, leb→le, lt→ltb, le→ltb, keep, filter_map, concat_map, All,
  All-append, count, count-append, length, length-append, length-map, take, drop, Outcome, ok,
  throw, undefined, Exception, check_failed, assertion, invalid_argument, runtime_error,
  out_of_range, ◌>>=◌, ◌>>◌, ensure, require, >>=-eq-ok, lookup, emplace, erase, contains, add,
  remove, arith,
}
use aws_efa_examples.Loop.Defs.{
  State, unschedule, scheduled, suspend, is_unschedule, Handle, Entry, Context, Event, Memory,
  update, set_state, set_entry, set_handle,
}
use aws_efa_examples.Loop.Timers.{Task, before, push, expire}
use aws_efa_examples.Loop.Selector.{
  Selector, CqRead, entries, error_available, again, failed, select,
}
use aws_efa_examples.Loop.Io.{
  Io, state_of, call, call_after, schedule_handle, cancel_handle, stopped, register_cq,
  unregister_cq, register_context, unregister_context, call_events, select_events, take_front,
  run_ready, runone, Round, run_loop,
}
use aws_efa_examples.Conn.{Fabric, Conn, World, Posted, read, remote_write_resume}
use aws_efa_examples.Coro.Values.{unset, result}
use aws_efa_examples.Coro.{
  Status, waits, ended, destroyed, Promise, Coros, Turn, returns, throws, set_promise,
  await_suspend, await_resume, finish_turn, destroy_coro,
}
use aws_efa_examples.Loop.Io.{Host}

-- What a coroutine of the reader returns: the address of the read buffer, or nothing.
pub data Returned : Type 0 where
  buffer : ℕ → Returned
  nothing_returned : Returned

-- The reader's process: its coroutines with the event loop, its memory, and the variables of
-- Reader::Read: the reads that are left, with the present one, the number of the present one, and
-- whether its body has begun.
pub record Process : Type 0 where
  pub coros : Coros Returned
  pub bytes : ℕ → ℕ
  pub left : ℕ
  pub index : ℕ
  pub begun : Bool

abbrev pub process_host : Host Process
process_host = record {
  io_of = λ p. p.coros.io;
  with_io = λ io p. record p { coros = record (p.coros) { io = io } };
  io_of-with_io = λ io p. refl;
  with_io-io_of = λ p. refl;
}

abbrev pub world_of : Process → World
world_of p = record { io = p.coros.io; bytes = p.bytes }

abbrev pub put_world : World → Process → Process
put_world w p = record p { coros = record (p.coros) { io = w.io }; bytes = w.bytes }

abbrev pub with_coros : (Coros Returned → Coros Returned) → Process → Process
with_coros f p = record p { coros = f (p.coros) }

module _ (fi : Fabric) (post : Posted → ℕ) (conn : Conn) (imm_data main : ℕ)
    (frame context : ℕ → ℕ) where
  -- A new frame, at its initial suspension, with its Handle, whose id plays no part here. Conn::Read is a
  -- member function: the first argument for the promise is the Conn, so that promise_type(Oneway, …)
  -- does not fit and promise_type() is taken, whose oneway_ is false.
  abbrev pub new_frame : ℕ → Process → Process
  new_frame h p =
      let io = p.coros.io in
      record p {
        coros =
            record (set_promise h
              (record { oneway = false; next = 0; held = unset; status = waits }) (p.coros)) {
                io = record io { memory = set_state h unschedule (io.memory) };
              };
        begun = false;
      }

  -- The loop of Reader::Read with `n` reads left, from call `k` on, up to the next suspension.
  unfoldable pub read_from : (n k : ℕ) → Process → Process
  unfolding await_suspend finish_turn
  read_from zero k p =
      with_coros (finish_turn main (returns nothing_returned)) (record p { left = 0; index = k })
  read_from (suc n) k p =
      with_coros (await_suspend (frame k) main)
        (new_frame (frame k) (record p { left = suc n; index = k }))

  -- A turn of Reader::Read: it resumes from its await, and goes on.
  abbrev pub after_await : Outcome Returned → Process → Outcome Process
  unfolding read_from
  after_await (ok _) p = ok (read_from (p.left - 1) (p.index + 1) p)
  after_await (throw e) p = ok (with_coros (finish_turn main (throws e)) p)
  after_await undefined p = undefined

  unfoldable pub run_main : Process → Outcome Process
  unfolding read_from await_resume destroy_coro finish_turn
  run_main p = elim ((p.coros.promises main).status) [
    | waits ↦
        after_await (await_resume (frame (p.index)) (p.coros))
          (with_coros (destroy_coro (frame (p.index))) p)
    | ended ↦ undefined
    | destroyed ↦ undefined
  ]

  -- The first turn of Conn::Read: its body up to the suspension.
  abbrev pub begin_read : ℕ → World × Outcome Posted → Process → Outcome Process
  begin_read h (w, ok _) p = ok (record (put_world w p) { begun = true })
  begin_read h (w, throw e) p = ok (with_coros (finish_turn h (throws e)) (put_world w p))
  begin_read h (w, undefined) p = undefined

  -- The second: its await_resume, and its end.
  abbrev pub end_read : ℕ → World × Outcome ℕ → Process → Outcome Process
  end_read h (w, ok b) p = ok (with_coros (finish_turn h (returns (buffer b))) (put_world w p))
  end_read h (w, throw e) p = ok (with_coros (finish_turn h (throws e)) (put_world w p))
  end_read h (w, undefined) p = undefined

  unfoldable pub run_read : (h c : ℕ) → Process → Outcome Process
  unfolding read remote_write_resume finish_turn
  run_read h c p = elim ((p.coros.promises h).status) [
    | waits ↦
        if p.begun
        then end_read h
            (remote_write_resume fi conn ((p.coros.io.memory.contexts c).entry) imm_data
              (world_of p))
            p
        else begin_read h (read fi post conn c h imm_data (world_of p)) p
    | ended ↦ undefined
    | destroyed ↦ undefined
  ]

  -- What `run` does for the handles of this process.
  unfoldable pub run_process : ℕ → Process → Outcome Process
  unfolding run_main run_read
  run_process h p =
      if h == main
      then run_main p
      else if h == frame (p.index)
      then run_read h (context (p.index)) p
      else undefined

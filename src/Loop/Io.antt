-- ===== src/Loop/Io.antt =====
-- io.h and handle.cc: the class IO. Its state holds the memory that its pointers lead to. Time() is
-- an argument, in milliseconds, and so is what a handle's virtual `run` does, to the program's state.
pub mod Queueing
pub mod Rounds
pub mod Keeping
use aws_efa_examples.Common.{
  refl, ℕ, zero, suc, ◌+◌, Bool, true, false, not, ◌&&◌, List, [], ◌∷◌, ◌++◌, length, if◌then◌else◌,
  Outcome, ok, undefined, ◌>>=◌, ◌≡◌,
}
use aws_efa_examples.Loop.Defs.{
  State, unschedule, scheduled, is_unschedule, Event, Memory, set_state,
}
use aws_efa_examples.Loop.Timers.{Task, push, expire}
use aws_efa_examples.Loop.Selector.{Selector, CqRead, is_empty, select}
use aws_efa_examples.Loop.Selector

pub record Io : Type 0 where
  pub memory : Memory
  pub selector : Selector
  pub schedule : List Task
  pub ready : List ℕ

abbrev pub state_of : Io → ℕ → State
state_of io h = (io.memory.handles h).state

-- IO::Call(handle).
unfoldable pub call : ℕ → Io → Io
call h io = record io { memory = set_state h scheduled io.memory; ready = io.ready ++ h ∷ [] }

-- IO::Call(delay, handle).
unfoldable pub call_after : (now delay h : ℕ) → Io → Io
unfolding push
call_after now delay h io = record io {
  memory = set_state h scheduled io.memory;
  schedule =
      push (record { due = now + delay; id = (io.memory.handles h).id; handle = h }) io.schedule;
}

-- IO::Cancel, which is not implemented.
unfoldable pub cancel_call : ℕ → Io → Io
cancel_call h io = io

-- Handle::schedule.
unfoldable pub schedule_handle : ℕ → Io → Io
unfolding call
schedule_handle h io = if is_unschedule (state_of io h) then call h io else io

-- Handle::cancel.
unfoldable pub cancel_handle : ℕ → Io → Io
unfolding cancel_call
cancel_handle h io = if not (is_unschedule (state_of io h)) then cancel_call h io else io

-- IO::Stopped.
unfoldable pub stopped : Io → Bool
unfolding Selector.stopped
stopped io = is_empty io.schedule && is_empty io.ready && Selector.stopped io.selector

-- IO::Register and UnRegister.
unfoldable pub register_cq : ℕ → Io → Io
unfolding Selector.register_cq
register_cq cq io = record io { selector = Selector.register_cq cq io.selector }

unfoldable pub register_context : ℕ → ℕ → Io → Io
unfolding Selector.register_context
register_context id c io = record io { selector = Selector.register_context id c io.selector }

unfoldable pub unregister_cq : ℕ → Io → Io
unfolding Selector.unregister_cq
unregister_cq cq io = record io { selector = Selector.unregister_cq cq io.selector }

unfoldable pub unregister_context : ℕ → Io → Io
unfolding Selector.unregister_context
unregister_context id io = record io { selector = Selector.unregister_context id io.selector }

-- The loop of IO::Select.
unfoldable pub call_events : List Event → Io → Io
unfolding call
call_events [] io = io
call_events (e ∷ es) io = call_events es (call e.handle io)

-- IO::Select.
unfoldable pub select_events : ℕ → (ℕ → CqRead) → Io → Outcome Io
unfolding select call_events
select_events remote_write read io = do
  (memory, events) ← select remote_write read io.selector io.memory
  ok (call_events events (record io { memory = memory }))

-- `front`, `pop_front` and SetState(kUnschedule) of the second loop of Runone.
abbrev pub take_front : ℕ → List ℕ → Io → Io
take_front h rest io = record io { memory = set_state h unschedule io.memory; ready = rest }

-- What the environment gives to a round of IO::Run: the time, and the reads of the queues.
pub record Round : Type 0 where
  pub now : ℕ
  pub read : ℕ → CqRead

-- The state of a whole program, of which the IO object is a part.
pub record Host (S : Type 0) : Type 0 where
  pub io_of : S → Io
  pub with_io : Io → S → S
  pub io_of-with_io : (io : Io) (s : S) → io_of (with_io io s) ≡ io
  pub with_io-io_of : (s : S) → with_io (io_of s) s ≡ s

-- The program that is nothing else.
abbrev pub alone : Host Io
alone = record {
  io_of = λ io. io;
  with_io = λ io _. io;
  io_of-with_io = λ io _. refl;
  with_io-io_of = λ io. refl;
}

module _ {S : Type 0} (host : Host S) (run : ℕ → S → Outcome S) where
  open host use {io_of, with_io}

  -- The second loop of Runone: `n` rounds. `front` of an empty deque is undefined.
  unfoldable pub run_ready : ℕ → S → Outcome S
  run_ready zero s = ok s
  run_ready (suc n) s = elim ((io_of s).ready) [
    | [] ↦ undefined
    | h ∷ rest ↦ run h (with_io (take_front h rest (io_of s)) s) >>= λ s'. run_ready n s'
  ]

  -- IO::Runone.
  unfoldable pub runone : ℕ → S → Outcome S
  unfolding expire run_ready
  runone now s =
      let io = io_of s in
      let (schedule, ready) = expire now io.schedule io.ready in
      run_ready (length ready) (with_io (record io { schedule = schedule; ready = ready }) s)

  -- IO::Run, for as many rounds as the environment gives.
  unfoldable pub run_loop : ℕ → List Round → S → Outcome S
  unfolding stopped select_events runone
  run_loop remote_write [] s = ok s
  run_loop remote_write (r ∷ rs) s = elim (stopped (io_of s)) [
    | true ↦ ok s
    | false ↦ do
      io ← select_events remote_write r.read (io_of s)
      s' ← runone r.now (with_io io s)
      run_loop remote_write rs s'
  ]

-- ===== src/Examples.antt =====
-- Tests of the models of src/batch on concrete data.
pub mod Connections
pub mod Coroutines
pub mod Events
pub mod Machines
pub mod Messages
pub mod Peers
pub mod Pingpongs
pub mod Readers
pub mod Senders
pub mod Sleepers
pub mod Transfers
pub mod Agreed
pub mod Agreements
pub mod Buffers
pub mod Networks
use aws_efa_examples.Common.{
  ℕ, ◌+◌, Bool, true, false, List, [], ◌∷◌, ltb, ◌&&◌, if◌then◌else◌, Outcome, ok,
}
use aws_efa_examples.Loop.Defs.{State, unschedule, scheduled, Handle, Entry, Context, Memory}
use aws_efa_examples.Loop.Timers.{Task}
use aws_efa_examples.Loop.Selector.{Selector}
use aws_efa_examples.Loop.Io.{Io}

abbrev pub entry : (op_context flags len imm : ℕ) → Entry
entry c f l i = record { op_context = c; flags = f; len = l; imm = i }

-- The context at address c belongs to the handle at c + 100.
abbrev pub context : ℕ → Context
context c = record { entry = entry 0 0 0 0; handle = c + 100 }

abbrev pub idle_memory : Memory
idle_memory = record { handles = λ h. record { id = h; state = unschedule }; contexts = context }

abbrev pub idle : Io
idle = record {
  memory = idle_memory;
  selector = record { cqs = 7 ∷ []; imm_data_contexts = (0x123, 5) ∷ [] };
  schedule = [];
  ready = [];
}

abbrev pub timer : (due handle : ℕ) → Task
timer due handle = record { due = due; id = handle; handle = handle }

abbrev pub two_timers : List Task
two_timers = timer 5 2 ∷ timer 20 3 ∷ []

-- Handle 1 is ready, 2 and 3 wait for their timers.
abbrev pub busy : Io
busy = record {
  memory = record {
    handles = λ h. record { id = h; state = if ltb 0 h && ltb h 4 then scheduled else unschedule };
    contexts = context;
  };
  selector = record { cqs = 7 ∷ []; imm_data_contexts = [] };
  schedule = two_timers;
  ready = 1 ∷ [];
}

-- A handle that does nothing.
abbrev pub run_nothing : ℕ → Io → Outcome Io
run_nothing h io = ok io

-- ===== src/Examples/Events.antt =====
-- The event loop on concrete queues.
use aws_efa_examples.Common.{ℕ, ◌≡◌, refl, true, [], ◌∷◌, ok, lookup}
use aws_efa_examples.Loop.Defs.{unschedule, Memory, update}
use aws_efa_examples.Loop.Selector.{CqRead, entries, failed, select}
use aws_efa_examples.Loop.Io.{alone, Io, runone}
use aws_efa_examples.Loop.Selector.Poll.{is_readable, select-eq-ok}
use aws_efa_examples.Loop.Selector.Wakes.{handle_of, context_of, event_of}
use aws_efa_examples.Examples.{entry, context, idle_memory, idle, timer, busy, run_nothing}

abbrev busy_later : Io
busy_later = record busy {
  memory = record {
    handles =
        update (update busy.memory.handles 1 (record { id = 1; state = unschedule })) 2
          (record { id = 2; state = unschedule });
    contexts = context;
  };
  schedule = timer 20 3 ∷ [];
  ready = [];
}

busy-runone : runone alone run_nothing 10 busy ≡ ok busy_later
unfolding runone
busy-runone = refl

-- A receive for context 9, a remote write with data 0x123, and an entry without a context.
abbrev three_entries : ℕ → CqRead
three_entries q = entries (entry 9 1 64 0 ∷ entry 0 8 0 0x123 ∷ entry 0 1 0 0 ∷ [])

select-eq-ok_example :
    (m' : Memory) × (select 8 three_entries idle.selector idle_memory
      ≡ ok (m', record { flags = 1; handle = 109 } ∷ record { flags = 8; handle = 105 } ∷ []))
    × (handle_of m' ≡ handle_of idle_memory)
    × (m'.handles ≡ idle_memory.handles)
unfolding event_of context_of lookup
select-eq-ok_example = select-eq-ok 8 three_entries idle.selector idle_memory (refl, tt)

not_readable : ¬ (is_readable (failed 3) ≡ true)
not_readable e = cc

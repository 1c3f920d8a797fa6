-- ===== src/Loop/Selector.antt =====
-- selector.h: the polling of the completion queues. `fi_cq_read` and `fi_cq_readerr` are libfabric's:
-- what they return in one poll is an argument, and so is the mask FI_REMOTE_WRITE.
pub mod Wakes
pub mod Poll
use aws_efa_examples.Common.{
  ℕ, ◌%◌, ◌^◌, bit_and, ◌≡◌, Bool, true, false, not, Option, none, some, List, [], ◌∷◌, ◌++◌, ◌==◌,
  if◌then◌else◌, Outcome, ok, throw, Exception, check_failed, runtime_error, lookup, emplace, erase,
  add, remove,
}
use aws_efa_examples.Loop.Defs.{Entry, Event, Memory, set_entry}

pub record Selector : Type 0 where
  pub cqs : List ℕ
  pub imm_data_contexts : List (ℕ × ℕ)

-- Selector::Register and UnRegister, of a completion queue and of a context by its immediate data.
unfoldable pub register_cq : ℕ → Selector → Selector
unfolding add
register_cq cq s = record s { cqs = add cq s.cqs }

unfoldable pub unregister_cq : ℕ → Selector → Selector
unfolding remove
unregister_cq cq s = record s { cqs = remove cq s.cqs }

unfoldable pub register_context : ℕ → ℕ → Selector → Selector
unfolding emplace
register_context id c s = record s { imm_data_contexts = emplace id c s.imm_data_contexts }

unfoldable pub unregister_context : ℕ → Selector → Selector
unfolding erase
unregister_context id s = record s { imm_data_contexts = erase id s.imm_data_contexts }

-- Selector::Stopped, `cqs_.empty()`.
abbrev pub is_empty {ℓ} : {A : Type ℓ} → List A → Bool
is_empty [] = true
is_empty (_ ∷ _) = false

unfoldable pub stopped : Selector → Bool
stopped s = is_empty s.cqs

-- `flags & mask`, as a condition.
abbrev pub has : ℕ → ℕ → Bool
has flags mask = not (bit_and flags mask == 0)

-- What fi_cq_readerr returns: an error, an entry of the error queue, or nothing.
pub data ErrorRead : Type 0 where
  negative : ℕ → ErrorRead
  positive : ErrorRead
  nothing : ErrorRead

-- What one call of fi_cq_read returns: entries, -FI_EAVAIL (with what fi_cq_readerr then returns),
-- -FI_EAGAIN, or another code.
pub data CqRead : Type 0 where
  entries : List Entry → CqRead
  error_available : ErrorRead → CqRead
  again : CqRead
  failed : ℕ → CqRead

-- `context->entry = entry` and the event for the context's handle.
abbrev pub deliver : Entry → ℕ → Memory × List Event → Memory × List Event
deliver e c (m, ret) =
    (set_entry c e m, ret ++ record { flags = e.flags; handle = (m.contexts c).handle } ∷ [])

-- HandleError throws on each of its paths.
unfoldable pub handle_error : ErrorRead → Exception
handle_error (negative rc) = check_failed "fi_cq_readerr" rc
handle_error positive = runtime_error "libfabric operation fail"
handle_error nothing = runtime_error "unknown error"

module _ (remote_write : ℕ) (imm_data_contexts : List (ℕ × ℕ)) where
  -- The branch for FI_REMOTE_WRITE, at the 32 bits of the immediate data.
  abbrev pub deliver_imm : Entry → ℕ → Memory × List Event → Memory × List Event
  deliver_imm e imm_data s =
      if imm_data == 0
      then s
      else elim (lookup imm_data imm_data_contexts) [ none ↦ s | some c ↦ deliver e c s ]

  -- The body of the loop of HandleCompletion; `continue` leaves the state as it was.
  unfoldable pub complete : Entry → Memory × List Event → Memory × List Event
  unfolding lookup
  complete e s =
      if has e.flags remote_write
      then deliver_imm e (e.imm % 2 ^ 32) s
      else if e.op_context == 0
      then s
      else deliver e e.op_context s

  -- HandleCompletion.
  unfoldable pub handle_completion : List Entry → Memory × List Event → Memory × List Event
  unfolding complete
  handle_completion [] s = s
  handle_completion (e ∷ es) s = handle_completion es (complete e s)

  -- The loop of Select over the queues, each with what is read from it.
  unfoldable pub poll : (ℕ → CqRead) → List ℕ → Memory × List Event → Outcome (Memory × List Event)
  unfolding handle_completion handle_error
  poll read [] s = ok s
  poll read (cq ∷ cqs) s = elim (read cq) [
    | entries es ↦ poll read cqs (handle_completion es s)
    | error_available r ↦ throw (handle_error r)
    | again ↦ poll read cqs s
    | failed rc ↦ throw (check_failed "fi_cq_read" rc)
  ]

-- Selector::Select.
unfoldable pub select : ℕ → (ℕ → CqRead) → Selector → Memory → Outcome (Memory × List Event)
unfolding poll
select remote_write read s m = poll remote_write s.imm_data_contexts read s.cqs (m, [])

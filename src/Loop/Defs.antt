-- ===== src/Loop/Defs.antt =====
-- handle.h and event.h: the objects that the event loop points to, and the memory that holds them.
-- A pointer is a number, and 0 is the null pointer.
use aws_efa_examples.Common.{ℕ, Bool, true, false, ◌==◌, if◌then◌else◌}

-- Handle::State.
pub data State : Type 0 where
  unschedule scheduled suspend : State

-- `state_ == Handle::kUnschedule`.
abbrev pub is_unschedule : State → Bool
is_unschedule unschedule = true
is_unschedule _ = false

-- The data members of a Handle.
pub record Handle : Type 0 where
  pub id : ℕ
  pub state : State

-- struct fi_cq_data_entry, of libfabric: what the program reads of it.
pub record Entry : Type 0 where
  pub op_context : ℕ
  pub flags : ℕ
  pub len : ℕ
  pub imm : ℕ

pub record Context : Type 0 where
  pub entry : Entry
  pub handle : ℕ

pub record Event : Type 0 where
  pub flags : ℕ
  pub handle : ℕ

-- The objects at their addresses.
pub record Memory : Type 0 where
  pub handles : ℕ → Handle
  pub contexts : ℕ → Context

abbrev pub update {ℓ} : {A : Type ℓ} → (ℕ → A) → ℕ → A → ℕ → A
update f p v q = if p == q then v else f q

-- Handle::SetState.
abbrev pub set_state : ℕ → State → Memory → Memory
set_state h s m = record m { handles = update m.handles h (record (m.handles h) { state = s }) }

-- `context->entry = entry`.
abbrev pub set_entry : ℕ → Entry → Memory → Memory
set_entry c e m = record m { contexts = update m.contexts c (record (m.contexts c) { entry = e }) }

-- `context.handle = &coroutine.promise()`.
abbrev pub set_handle : ℕ → ℕ → Memory → Memory
set_handle c h m = record m {
  contexts = update m.contexts c (record (m.contexts c) { handle = h });
}

-- ===== src/Sender/Delivery.antt =====
-- A poll that brings completions of writes.
use aws_efa_examples.Common.{
  ℕ, ◌≡◌, ◌≢◌, ◌∙◌, refl, sym, ap, List, [], map, All, true, false, ◌∷◌, ◌++◌, append-nil,
  append_assoc, arith, ok, inl, inr, eq_cases, ==-self, ne→==,
}
use aws_efa_examples.Loop.Defs.{Entry, Event, Memory, set_entry}
use aws_efa_examples.Loop.Selector.{Selector, has, complete, handle_completion, select, poll}
use aws_efa_examples.Loop.Selector.Wakes.{handle_of, set_entry_handle}
use aws_efa_examples.Reader.Polls.{brings}

-- No two entries are for one context.
abbrev pub AreApart : List Entry → Type 0
AreApart [] = Unit
AreApart (e ∷ es) = All (λ (f : Entry). f.op_context ≢ e.op_context) es × AreApart es

-- The event of an entry, by the handles that the contexts have.
abbrev pub event_in : (ℕ → ℕ) → Entry → Event
event_in handle e = record { flags = e.flags; handle = handle e.op_context }

-- An entry for a write that has been made and whose coroutine is suspended.
pub record IsForWrite (remote_write write : ℕ) (e : Entry) : Type 0 where
  pub real : e.op_context ≢ 0
  pub local : has e.flags remote_write ≡ false
  pub done : has e.flags write ≡ true

-- What a poll of such entries does to the memory.
pub record IsDelivered (write : ℕ) (es : List Entry) (m m' : Memory) : Type 0 where
  pub handles : m'.handles ≡ m.handles
  pub handle : (c : ℕ) → (m'.contexts c).handle ≡ (m.contexts c).handle
  pub kept :
      (c : ℕ)
      → has (m.contexts c).entry.flags write ≡ true
      → has (m'.contexts c).entry.flags write ≡ true
  pub arrived : All (λ e. has (m'.contexts e.op_context).entry.flags write ≡ true) es

module _ (remote_write write : ℕ) (imms : List (ℕ × ℕ)) where
  complete_write :
      (e : Entry) (m : Memory) (ret : List Event)
      → IsForWrite remote_write write e
      → complete remote_write imms e (m, ret) ≡ (
        set_entry e.op_context e m,
        ret ++ record { flags = e.flags; handle = (m.contexts e.op_context).handle } ∷ [],
      )
  unfolding complete
  complete_write e m ret w = rw (w.local, ne→== e.op_context 0 w.real, complete) refl

  set_entry_flags :
      (c : ℕ) (e : Entry) (m : Memory)
      → IsForWrite remote_write write e
      → has (m.contexts c).entry.flags write ≡ true
      → has ((set_entry e.op_context e m).contexts c).entry.flags write ≡ true
  set_entry_flags c e m w f = elim (eq_cases e.op_context c) [
    | inl same ↦ rw (same, ==-self c) w.done
    | inr n ↦ rw (ne→== e.op_context c n) f
  ]

  pub handle_completion_writes :
      (es : List Entry) (m : Memory) (ret : List Event)
      → All (IsForWrite remote_write write) es
      → (m' : Memory) × (handle_completion remote_write imms es (m, ret)
          ≡ (m', ret ++ map (event_in (handle_of m)) es))
        × IsDelivered write es m m'
  unfolding handle_completion
  handle_completion_writes [] m ret _ = (
    m,
    ap (λ r. (m, r)) (sym (append-nil ret)),
    record { handles = refl; handle = λ c. refl; kept = λ c f. f; arrived = tt },
  )
  handle_completion_writes (e ∷ es) m ret (w, ws) =
      let m1 = set_entry e.op_context e m in
      let (m', told, d) =
        handle_completion_writes es m1 (ret ++ event_in (handle_of m) e ∷ []) ws in
      let same = set_entry_handle remote_write imms m e.op_context e in
      (
        m',
        rw (complete_write e m ret w, handle_completion)
            (told
              ∙ ap (λ r. (m', r))
                  (append_assoc ret (event_in (handle_of m) e ∷ [])
                      (map (event_in (handle_of m1)) es)
                    ∙ ap (λ h. ret ++ event_in (handle_of m) e ∷ map (event_in h) es) same)),
        record {
          handles = d.handles;
          handle = λ c. d.handle c ∙ ap (λ (h : ℕ → ℕ). h c) same;
          kept = λ c f. d.kept c (set_entry_flags c e m w f);
          arrived = (d.kept e.op_context (ground (arith, w.done)), d.arrived);
        },
      )

pub select_writes :
    (remote_write cq : ℕ) (es : List Entry) (sel : Selector) (m : Memory)
    → sel.cqs ≡ cq ∷ []
    → select remote_write (λ _. brings es) sel m
      ≡ ok (handle_completion remote_write sel.imm_data_contexts es (m, []))
unfolding select poll handle_completion
select_writes remote_write cq [] sel m one = rw one refl
select_writes remote_write cq (e ∷ es) sel m one = rw one refl

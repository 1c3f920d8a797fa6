-- ===== src/Loop/Selector/Wakes.antt =====
-- Which completions wake which handle, against a description that has no memory.
use mathlib.Core.Path.{fun_ext}
use aws_efa_examples.Common.{
  ℕ, ◌%◌, ◌^◌, ◌≡◌, ◌⊎◌, refl, sym, ap, ◌∙◌, inl, inr, Option, none, some, List, [], ◌∷◌, ◌++◌,
  append_assoc, append-nil, ◌==◌, if◌then◌else◌, Bool-cases, Option-cases, filter_map, lookup,
  arith,
}
use aws_efa_examples.Loop.Defs.{Entry, Event, Memory, set_entry}
use aws_efa_examples.Loop.Selector.{has, deliver, complete, handle_completion}

abbrev pub handle_of : Memory → ℕ → ℕ
handle_of m c = (m.contexts c).handle

module _ (remote_write : ℕ) (imms : List (ℕ × ℕ)) where
  -- The context that an entry is for: by the low 32 bits of the immediate data for a remote write,
  -- by its pointer otherwise.
  unfoldable pub context_of : Entry → Option ℕ
  context_of e =
      if has e.flags remote_write
      then (if (e.imm % 2 ^ 32) == 0 then none else lookup (e.imm % 2 ^ 32) imms)
      else if e.op_context == 0
      then none
      else some e.op_context

  -- The event of an entry, by the handles that the contexts have.
  unfoldable pub event_of : (ℕ → ℕ) → Entry → Option Event
  event_of handle_of e = elim (context_of e) [
    | none ↦ none
    | some c ↦ some (record { flags = e.flags; handle = handle_of c })
  ]

  complete_lem :
      (e : Entry) (s : Memory × List Event)
      → ((context_of e ≡ none) × (complete remote_write imms e s ≡ s))
        ⊎ ((c : ℕ) × (context_of e ≡ some c) × (complete remote_write imms e s ≡ deliver e c s))
  unfolding complete context_of
  complete_lem e s = elim (Bool-cases (has e.flags remote_write)) [
    | inl r ↦ rw r (elim (Bool-cases ((e.imm % 2 ^ 32) == 0)) [
      | inl z ↦ rw z (inl (refl, refl))
      | inr z ↦ rw z (elim (Option-cases (lookup (e.imm % 2 ^ 32) imms)) [
        | inl l ↦ inl (l, rw l)
        | inr (c, l) ↦ inr (c, l, rw l)
      ])
    ])
    | inr r ↦ rw r (elim (Bool-cases (e.op_context == 0)) [
      | inl z ↦ rw z (inl (refl, refl))
      | inr z ↦ rw z (inr (e.op_context, refl, refl))
    ])
  ]

  pub set_entry_handle :
      (m : Memory) (c : ℕ) (e : Entry) → handle_of (set_entry c e m) ≡ handle_of m
  set_entry_handle m c e = fun_ext λ d. ground arith

  event_of-none : (h : ℕ → ℕ) (e : Entry) → context_of e ≡ none → event_of h e ≡ none
  unfolding event_of
  event_of-none h e n = rw (n, event_of)

  event_of-some :
      (h : ℕ → ℕ) (e : Entry) (c : ℕ)
      → context_of e ≡ some c
      → event_of h e ≡ some (record { flags = e.flags; handle = h c })
  unfolding event_of
  event_of-some h e c n = rw (n, event_of)

  -- The events of a batch are those of its entries, in their order; no context gets another handle,
  -- and no handle another state.
  pub handle_completion_lem :
      (es : List Entry) (m : Memory) (ret : List Event)
      → ((handle_completion remote_write imms es (m, ret)).1
          ≡ ret ++ filter_map (event_of (handle_of m)) es)
        × (handle_of (handle_completion remote_write imms es (m, ret)).0 ≡ handle_of m)
        × ((handle_completion remote_write imms es (m, ret)).0.handles ≡ m.handles)
  unfolding handle_completion
  handle_completion_lem [] m ret = (sym (append-nil ret), refl, refl)
  handle_completion_lem (e ∷ es) m ret = elim (complete_lem e (m, ret)) [
    | inl (n, s) ↦
        rw (event_of-none (handle_of m) e n, filter_map, s, handle_completion)
          (handle_completion_lem es m ret)
    | inr (c, o, s) ↦
        let (evs, hs, st) =
          handle_completion_lem es (set_entry c e m)
            (ret ++ record { flags = e.flags; handle = handle_of m c } ∷ []) in
        rw (event_of-some (handle_of m) e c o, filter_map, s, handle_completion)
          (
            evs
                ∙ append_assoc ret _ _
                ∙ ap
                    (λ (h : ℕ → ℕ).
                      ret
                      ++ record { flags = e.flags; handle = handle_of m c }
                        ∷ filter_map (event_of h) es)
                    (set_entry_handle m c e),
            hs ∙ set_entry_handle m c e,
            st,
          )
  ]

-- ===== src/Reader/Polls.antt =====
-- A poll of the selector that brings notifications of remote writes with one immediate data.
use aws_efa_examples.Loop.Defs.{set_entry, Entry}
use aws_efa_examples.Common.{
  ◌>>=◌, ok, ap, ◌∙◌, map, ◌++◌, sym, append-nil, append_assoc, All, ==-self, ◌%◌, ◌^◌, ℕ, ◌≡◌, ◌≢◌,
  refl, [], ◌∷◌, ne→==, arith, List, true, lookup,
}
use aws_efa_examples.Loop.Selector.{
  Selector, select, poll, has, handle_completion, complete, CqRead, entries, again,
}
use aws_efa_examples.Loop.Io.{select_events, Io, call, call_events}
use aws_efa_examples.Conn.{Fabric}
use aws_efa_examples.Loop.Defs.{set_entry, Memory, Event}

-- What a poll that brings some entries returns.
abbrev pub brings : List Entry → CqRead
brings [] = again
brings (e ∷ es) = entries (e ∷ es)

-- An entry that notifies of a remote write with this immediate data.
pub record Notifies (fi : Fabric) (imm_data : ℕ) (e : Entry) : Type 0 where
  pub remote : has e.flags fi.remote_write ≡ true
  pub number : e.imm % 2 ^ 32 ≡ imm_data

module _ (fi : Fabric) (imm_data : ℕ) (some_data : imm_data ≢ 0) where
  complete_heard :
      (c : ℕ) (e : Entry) (m : Memory) (ret : List Event)
      → Notifies fi imm_data e
      → complete fi.remote_write ((imm_data, c) ∷ []) e (m, ret)
        ≡ (set_entry c e m, ret ++ record { flags = e.flags; handle = (m.contexts c).handle } ∷ [])
  unfolding complete lookup
  complete_heard c e m ret t =
      rw (t.remote, t.number, ne→== imm_data 0 some_data, ==-self imm_data, complete) refl

  complete_deaf :
      (e : Entry) (s : Memory × List Event)
      → Notifies fi imm_data e
      → complete fi.remote_write [] e s ≡ s
  unfolding complete lookup
  complete_deaf e s t = rw (t.remote, t.number, ne→== imm_data 0 some_data, complete) refl

  -- With no context for the immediate data a poll changes nothing.
  handle_completion_deaf :
      (es : List Entry) (s : Memory × List Event)
      → All (Notifies fi imm_data) es
      → handle_completion fi.remote_write [] es s ≡ s
  unfolding handle_completion
  handle_completion_deaf [] s _ = refl
  handle_completion_deaf (e ∷ es) s (t, ts) =
      rw (complete_deaf e s t, handle_completion) (handle_completion_deaf es s ts)

  -- With a context of handle `h` each entry makes an event for `h`.
  queue_heard :
      (c h : ℕ) (es : List Entry) (m : Memory) (ret : List Event)
      → All (Notifies fi imm_data) es
      → (m.contexts c).handle ≡ h
      → has ((m.contexts c).entry.flags) fi.remote_write ≡ true
      → let (m', ret') = handle_completion fi.remote_write ((imm_data, c) ∷ []) es (m, ret) in
        (ret' ≡ ret ++ map (λ e. record { flags = e.flags; handle = h }) es)
        × ((m'.contexts c).handle ≡ h)
        × (has ((m'.contexts c).entry.flags) fi.remote_write ≡ true)
  unfolding handle_completion
  queue_heard c h [] m ret _ b f = (sym (append-nil ret), b, f)
  queue_heard c h (e ∷ es) m ret (t, ts) b f =
      let (events, handle, flag) =
        queue_heard c h es (set_entry c e m) (ret ++ record { flags = e.flags; handle = h } ∷ []) ts
          (ground arith) (ground arith) in
      rw
        (
          complete_heard c e m ret t
              ∙ ap (λ h. (set_entry c e m, ret ++ record { flags = e.flags; handle = h } ∷ [])) b,
          handle_completion,
        )
        (events ∙ append_assoc ret _ _, handle, flag)

  call_events_heard :
      (h : ℕ) (es : List Entry) (io : Io)
      → let io' = call_events (map (λ e. record { flags = e.flags; handle = h }) es) io in
        (io'.ready ≡ io.ready ++ map (λ _. h) es)
        × (io'.schedule ≡ io.schedule)
        × (io'.selector ≡ io.selector)
        × (io'.memory.contexts ≡ io.memory.contexts)
  unfolding call_events call
  call_events_heard h [] io = (sym (append-nil (io.ready)), refl, refl, refl)
  call_events_heard h (e ∷ es) io =
      let (ready, schedule, selector, contexts) = call_events_heard h es (call h io) in
      (ready ∙ append_assoc (io.ready) _ _, schedule, selector, contexts)

  -- A poll that brings nothing changes nothing.
  pub silent :
      (cq : ℕ) (io : Io)
      → io.selector.cqs ≡ cq ∷ []
      → select_events fi.remote_write (λ _. again) io ≡ ok io
  unfolding select_events select poll call_events
  silent cq io one =
      ap
        (λ cqs.
          poll fi.remote_write (io.selector.imm_data_contexts) (λ _. again) cqs (io.memory, [])
          >>= λ s. ok (call_events s.1 (record io { memory = s.0 })))
        one

  select-brings :
      (cq : ℕ) (e : Entry) (es : List Entry) (s : Selector) (m : Memory)
      → s.cqs ≡ cq ∷ []
      → select fi.remote_write (λ _. brings (e ∷ es)) s m
        ≡ ok (handle_completion fi.remote_write (s.imm_data_contexts) (e ∷ es) (m, []))
  unfolding select poll
  select-brings cq e es s m one = rw one refl

  -- Notifications queue the handle of the context that waits for them, each of them once.
  pub select_events_heard :
      (c h cq : ℕ) (e : Entry) (es : List Entry) (io : Io)
      → All (Notifies fi imm_data) (e ∷ es)
      → io.selector.cqs ≡ cq ∷ []
      → io.selector.imm_data_contexts ≡ (imm_data, c) ∷ []
      → (io.memory.contexts c).handle ≡ h
      → (io' : Io) × (select_events fi.remote_write (λ _. brings (e ∷ es)) io ≡ ok io')
        × (io'.ready ≡ io.ready ++ map (λ _. h) (e ∷ es))
        × (io'.schedule ≡ io.schedule)
        × (io'.selector ≡ io.selector)
        × ((io'.memory.contexts c).handle ≡ h)
        × (has ((io'.memory.contexts c).entry.flags) fi.remote_write ≡ true)
  unfolding select_events handle_completion
  select_events_heard c h cq e es io (t, ts) one listens b =
      let event : Entry → Event = λ e. record { flags = e.flags; handle = h } in
      let first : complete fi.remote_write ((imm_data, c) ∷ []) e (io.memory, [])
          ≡ (set_entry c e (io.memory), event e ∷ []) =
        complete_heard c e (io.memory) [] t
        ∙ ap (λ h. (set_entry c e (io.memory), record { flags = e.flags; handle = h } ∷ [])) b in
      let (events, handle, flag) =
        queue_heard c h es (set_entry c e (io.memory)) (event e ∷ []) ts (ground arith)
          (ground arith) in
      let m' : Memory =
        (handle_completion fi.remote_write ((imm_data, c) ∷ []) es
          (set_entry c e (io.memory), event e ∷ [])).0 in
      let selected : select fi.remote_write (λ _. brings (e ∷ es)) (io.selector) (io.memory)
          ≡ ok (m', map event (e ∷ es)) =
        select-brings cq e es (io.selector) (io.memory) one
        ∙ ap (λ imms. ok (handle_completion fi.remote_write imms (e ∷ es) (io.memory, []))) listens
        ∙ ap (λ s. ok (handle_completion fi.remote_write ((imm_data, c) ∷ []) es s)) first
        ∙ ap (λ es. ok (m', es)) events in
      let (ready, schedule, selector, contexts) =
        call_events_heard h (e ∷ es) (record io { memory = m' }) in
      (
        _,
        ap (λ o. o >>= λ s. ok (call_events s.1 (record io { memory = s.0 }))) selected,
        ready,
        schedule,
        selector,
        rw contexts handle,
        rw contexts flag,
      )

  -- Where no call waits, notifications change nothing.
  pub select_events_deaf :
      (cq : ℕ) (es : List Entry) (io : Io)
      → All (Notifies fi imm_data) es
      → io.selector.cqs ≡ cq ∷ []
      → io.selector.imm_data_contexts ≡ []
      → select_events fi.remote_write (λ _. brings es) io ≡ ok io
  unfolding select_events call_events
  select_events_deaf cq [] io _ one deaf = silent cq io one
  select_events_deaf cq (e ∷ es) io ts one deaf =
      ap (λ o. o >>= λ s. ok (call_events s.1 (record io { memory = s.0 })))
        (select-brings cq e es (io.selector) (io.memory) one
          ∙ ap (λ imms. ok (handle_completion fi.remote_write imms (e ∷ es) (io.memory, []))) deaf
          ∙ ap ok (handle_completion_deaf (e ∷ es) (io.memory, []) ts))

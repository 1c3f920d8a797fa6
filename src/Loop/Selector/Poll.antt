-- ===== src/Loop/Selector/Poll.antt =====
-- Selector::Select as a whole: the events that it returns, and when it throws.
use aws_efa_examples.Common.{
  ℕ, ◌≡◌, refl, ap, ◌∙◌, Bool, true, false, Option, List, [], ◌∷◌, ◌++◌, append_assoc, append-nil,
  filter_map, concat_map, All, ok, throw, Exception, check_failed, arith,
}
use aws_efa_examples.Loop.Defs.{Entry, Event, Memory}
use aws_efa_examples.Loop.Selector.{
  Selector, CqRead, entries, error_available, again, failed, handle_completion, poll, select,
  handle_error,
}
use aws_efa_examples.Loop.Selector.Wakes.{handle_of, event_of, handle_completion_lem}

-- What a poll of a queue gives: no entries, entries, or an exception.
abbrev pub read_entries : CqRead → List Entry
read_entries (entries es) = es
read_entries _ = []

abbrev pub is_readable : CqRead → Bool
is_readable (entries es) = true
is_readable again = true
is_readable _ = false

module _ (remote_write : ℕ) (imms : List (ℕ × ℕ)) where
  filter_map-append :
      (f : Entry → Option Event) (xs ys : List Entry)
      → filter_map f (xs ++ ys) ≡ filter_map f xs ++ filter_map f ys
  filter_map-append f [] ys = refl
  filter_map-append f (x ∷ xs) ys = ground (arith, filter_map-append f xs ys)

  -- The outcome of polling the queues `cqs`.
  abbrev pub Polls : (ℕ → CqRead) → List ℕ → Memory × List Event → Type 0
  Polls read cqs (m, ret) =
      (m' : Memory) × (poll remote_write imms read cqs (m, ret)
        ≡ ok (
          m',
          ret
              ++ filter_map (event_of remote_write imms (handle_of m))
                  (concat_map (λ q. read_entries (read q)) cqs),
        ))
      × (handle_of m' ≡ handle_of m)
      × (m'.handles ≡ m.handles)

  poll-Polls :
      (read : ℕ → CqRead) (cqs : List ℕ) (m : Memory) (ret : List Event)
      → All (λ q. is_readable (read q) ≡ true) cqs
      → Polls read cqs (m, ret)
  unfolding poll
  poll-Polls read [] m ret h = (m, rw append-nil, refl, refl)
  poll-Polls read (q ∷ cqs) m ret h =
      go (read q) refl h.0 (λ m' ret'. poll-Polls read cqs m' ret' h.1)
    where
      go :
          (r : CqRead)
          → read q ≡ r
          → is_readable r ≡ true
          → ((m' : Memory) (ret' : List Event) → Polls read cqs (m', ret'))
          → Polls read (q ∷ cqs) (m, ret)
      go (entries es) e _ ih =
          let (evs, hs, st) = handle_completion_lem remote_write imms es m ret in
          let (m1, ret1) = handle_completion remote_write imms es (m, ret) in
          let (m', p, hs', st') = ih m1 ret1 in
          (
            m',
            rw (e, poll)
                (p
                  ∙ ap (λ (r : List Event). ok (m', r))
                      (rw
                        (evs, hs, filter_map-append (event_of remote_write imms (handle_of m)) es _)
                        (append_assoc ret _ _))),
            hs' ∙ hs,
            st' ∙ st,
          )
      go again e _ ih = let (m', p, hs, st) = ih m ret in (m', rw (e, poll) p, hs, st)
      go (error_available r) e f ih = cc
      go (failed rc) e f ih = cc

  -- A poll throws where some queue has an error to report.
  poll-throws :
      (read : ℕ → CqRead) (cqs : List ℕ) (s : Memory × List Event)
      → ¬ All (λ q. is_readable (read q) ≡ true) cqs
      → (e : Exception) × (poll remote_write imms read cqs s ≡ throw e)
  unfolding poll
  poll-throws read [] s h = absurd (h tt)
  poll-throws read (q ∷ cqs) s h = go (read q) refl (λ s' h'. poll-throws read cqs s' h')
    where
      go :
          (r : CqRead)
          → read q ≡ r
          → ((s' : Memory × List Event)
              → ¬ All (λ q. is_readable (read q) ≡ true) cqs
              → (e : Exception) × (poll remote_write imms read cqs s' ≡ throw e))
          → (e : Exception) × (poll remote_write imms read (q ∷ cqs) s ≡ throw e)
      go (entries es) e ih =
          let (x, p) = ih (handle_completion remote_write imms es s) (λ a. h (rw e (refl, a))) in
          (x, rw (e, poll) p)
      go again e ih = let (x, p) = ih s (λ a. h (rw e (refl, a))) in (x, rw (e, poll) p)
      go (error_available r) e ih = (handle_error r, rw (e, poll))
      go (failed rc) e ih = (check_failed "fi_cq_read" rc, rw (e, poll))

module _ (remote_write : ℕ) (read : ℕ → CqRead) (s : Selector) (m : Memory) where
  -- Where each queue has entries or none, Select returns the events of all the entries, queue by
  -- queue: each with its context's handle, and none for an entry that no context stands for. The
  -- handles of the contexts and the states of the handles stay.
  pub select-eq-ok :
      All (λ q. is_readable (read q) ≡ true) s.cqs
      → (m' : Memory) × (select remote_write read s m
          ≡ ok (
            m',
            filter_map
                (event_of remote_write s.imm_data_contexts (handle_of m))
                (concat_map (λ q. read_entries (read q)) s.cqs),
          ))
        × (handle_of m' ≡ handle_of m)
        × (m'.handles ≡ m.handles)
  unfolding select
  select-eq-ok h = poll-Polls remote_write s.imm_data_contexts read s.cqs m [] h

  -- Where some queue has an error pending or a code of its own, Select throws.
  pub select-throws :
      ¬ All (λ q. is_readable (read q) ≡ true) s.cqs
      → (e : Exception) × (select remote_write read s m ≡ throw e)
  unfolding select
  select-throws h = poll-throws remote_write s.imm_data_contexts read s.cqs (m, []) h

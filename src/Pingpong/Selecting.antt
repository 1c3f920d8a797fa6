-- ===== src/Pingpong/Selecting.antt =====
-- The selector of src/efa against that of src/batch.
use aws_efa_examples.Common.{ℕ, ◌≡◌, refl, subst, false, List, [], ◌∷◌, All}
use aws_efa_examples.Loop.Defs.{Entry, Event, Memory}
use aws_efa_examples.Loop.Selector.{
  Selector, CqRead, entries, error_available, again, failed, select, has,
}
use aws_efa_examples.Loop.Selector.{complete, handle_completion, poll}
use aws_efa_examples.Loop.Selector.Poll.{read_entries}
use aws_efa_examples.Pingpong.{bare_complete, bare_handle_completion, bare_poll, bare_select}

-- Entries that are no remote writes.
abbrev pub IsLocal : (remote_write : ℕ) → List Entry → Type 0
IsLocal remote_write = All (λ e. has e.flags remote_write ≡ false)

bare_handle_completion-eq :
    (remote_write : ℕ) (imms : List (ℕ × ℕ)) (es : List Entry) (s : Memory × List Event)
    → IsLocal remote_write es
    → bare_handle_completion es s ≡ handle_completion remote_write imms es s
unfolding bare_handle_completion handle_completion complete
bare_handle_completion-eq remote_write imms [] s h = refl
bare_handle_completion-eq remote_write imms (e ∷ es) s h =
    rw h.0 (bare_handle_completion-eq remote_write imms es (bare_complete e s) h.1)

bare_poll-eq :
    (remote_write : ℕ) (imms : List (ℕ × ℕ)) (read : ℕ → CqRead) (cqs : List ℕ)
    (s : Memory × List Event)
    → All (λ q. IsLocal remote_write (read_entries (read q))) cqs
    → bare_poll read cqs s ≡ poll remote_write imms read cqs s
unfolding bare_poll poll
bare_poll-eq remote_write imms read [] s h = refl
bare_poll-eq remote_write imms read (q ∷ cqs) s h =
    go (read q) refl (λ s'. bare_poll-eq remote_write imms read cqs s' h.1)
  where
    here : (es : List Entry) → read q ≡ entries es → IsLocal remote_write es
    here es e = subst (λ r. IsLocal remote_write (read_entries r)) e h.0

    go :
        (r : CqRead)
        → read q ≡ r
        → ((s' : Memory × List Event) → bare_poll read cqs s' ≡ poll remote_write imms read cqs s')
        → bare_poll read (q ∷ cqs) s ≡ poll remote_write imms read (q ∷ cqs) s
    go (entries es) e ih =
        rw (e, bare_poll, poll)
          (rw (bare_handle_completion-eq remote_write imms es s (here es e)) (ih _))
    go (error_available r) e ih = rw (e, bare_poll, poll)
    go again e ih = rw (e, bare_poll, poll) (ih s)
    go (failed rc) e ih = rw (e, bare_poll, poll)

-- Where no queue has an entry of a remote write, the selector of src/batch gives the same outcome as
-- that of src/efa, whatever contexts wait for remote writes.
pub bare_select-eq-select :
    (remote_write : ℕ) (read : ℕ → CqRead) (s : Selector) (m : Memory)
    → All (λ q. IsLocal remote_write (read_entries (read q))) s.cqs
    → bare_select read s.cqs m ≡ select remote_write read s m
unfolding bare_select select
bare_select-eq-select remote_write read s m h =
    bare_poll-eq remote_write s.imm_data_contexts read s.cqs (m, []) h

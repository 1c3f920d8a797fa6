-- ===== src/Loop/Io/Queueing.antt =====
-- A handle is queued once if it is scheduled, and not at all otherwise.
use aws_efa_examples.Common.{
  ◌≤◌, ℕ, ◌+◌, ◌≡◌, refl, Bool, true, false, List, [], ◌∷◌, map, if◌then◌else◌, count, count-append,
  arith,
}
use aws_efa_examples.Loop.Defs.{State, scheduled, Event}
use aws_efa_examples.Loop.Timers.{Task, push}
use aws_efa_examples.Loop.Io.{Io, state_of, call, call_after, schedule_handle, call_events}

abbrev pub is_scheduled : State → Bool
is_scheduled scheduled = true
is_scheduled _ = false

-- How often a handle stands in `ready_` and `schedule_`.
abbrev pub queued : Io → ℕ → ℕ
queued io h = count h io.ready + count h (map (λ t. t.handle) io.schedule)

abbrev pub IsQueuedOnce : Io → Type 0
IsQueuedOnce io = (h : ℕ) → queued io h ≡ (if is_scheduled (state_of io h) then 1 else 0)

pub count-push_handle :
    (h : ℕ) (t : Task) (ts : List Task)
    → count h (map (λ u. u.handle) (push t ts)) ≡ count h (map (λ u. u.handle) (t ∷ ts))
unfolding push
count-push_handle h t [] = refl
count-push_handle h t (u ∷ us) = ground (arith, count-push_handle h t us)

call-IsQueuedOnce :
    (h : ℕ) (io : Io)
    → is_scheduled (state_of io h) ≡ false
    → IsQueuedOnce io
    → IsQueuedOnce (call h io)
unfolding call
call-IsQueuedOnce h io f v k = ground (arith, v k, count-append k io.ready (h ∷ []))

call_after-IsQueuedOnce :
    (now delay h : ℕ) (io : Io)
    → is_scheduled (state_of io h) ≡ false
    → IsQueuedOnce io
    → IsQueuedOnce (call_after now delay h io)
unfolding call_after
call_after-IsQueuedOnce now delay h io f v k = ground (
  arith,
  v k,
  count-push_handle k (record { due = now + delay; id = (io.memory.handles h).id; handle = h })
      io.schedule,
)

-- Handle::schedule keeps the rule that a handle is queued once if it is scheduled and not at all
-- otherwise, whatever the state of its own handle.
pub schedule_handle-IsQueuedOnce :
    (h : ℕ) (io : Io) → IsQueuedOnce io → IsQueuedOnce (schedule_handle h io)
unfolding schedule_handle
schedule_handle-IsQueuedOnce h io v k = ground (arith, v k, count-append k io.ready (h ∷ []))

call_events-count :
    (h : ℕ) (es : List Event) (io : Io)
    → count h (call_events es io).ready ≡ count h io.ready + count h (map (λ e. e.handle) es)
unfolding call_events
call_events-count h [] io = omega arith
call_events-count h (e ∷ es) io =
    omega (arith, call_events-count h es (call e.handle io), call_ready e.handle)
  where
    call_ready : (k : ℕ) → count h (call k io).ready ≡ count h io.ready + count h (k ∷ [])
    call_ready k = count-append h io.ready (k ∷ [])

-- Two events of one handle in one poll put it twice into `ready_`, and break the rule that a handle
-- is queued once if it is scheduled: Select does not ask whether a handle is queued already.
pub call_events_twice :
    (h : ℕ) (es : List Event) (io : Io)
    → 2 ≤ count h (map (λ e. e.handle) es)
    → ¬ IsQueuedOnce (call_events es io)
call_events_twice h es io two v = ground (arith, v h, call_events-count h es io)

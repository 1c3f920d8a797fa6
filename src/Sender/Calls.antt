-- ===== src/Sender/Calls.antt =====
-- The states of WriteOne's process between the turns of the event loop: where each of its calls of
-- Conn::Write stands.
use aws_efa_examples.Common.{
  ℕ, ◌+◌, ◌≤◌, ◌<◌, ◌≡◌, ◌≢◌, ◌⊎◌, ◌∙◌, refl, ap, Bool, true, false, List, [], ◌∷◌, count, ◌==◌,
  if◌then◌else◌,
}
use aws_efa_examples.Loop.Defs.{State, unschedule, scheduled, suspend, Context}
use aws_efa_examples.Loop.Selector.{has}
use aws_efa_examples.Loop.Io.{state_of}
use aws_efa_examples.Conn.{Fabric}
use aws_efa_examples.Coro.Values.{value}
use aws_efa_examples.Coro.{Status, waits, ended, Promise}
use aws_efa_examples.Writer.{Pages, CudaRegion, Request, batch_size}
use aws_efa_examples.Writer.Pipeline.{upto}
use aws_efa_examples.Sender.{Sender, Written, bytes_written, Await, filling, draining}

-- A call whose body has not begun and is queued; one whose write libfabric has taken; one whose
-- completion has come and is queued; and one that has returned.
pub data Phase : Type 0 where
  fresh flying landed over : Phase

abbrev pub status_in : Phase → Status
status_in over = ended
status_in _ = waits

abbrev pub begun_in : Phase → Bool
begun_in fresh = false
begun_in _ = true

abbrev pub state_in : Phase → State
state_in fresh = scheduled
state_in flying = suspend
state_in landed = scheduled
state_in over = unschedule

abbrev pub queued_in : Phase → ℕ
queued_in fresh = 1
queued_in flying = 0
queued_in landed = 1
queued_in over = 0

-- What the end of call `k` calls where WriteOne awaits call `t`.
abbrev pub awaited_by : (main t k : ℕ) → ℕ
awaited_by main t k = if k == t then main else 0

-- The pages of some regions.
abbrev pub pages_in : Pages → List CudaRegion → ℕ
pages_in pages [] = 0
pages_in pages (_ ∷ regions) = pages.num_pages + pages_in pages regions

-- How often the awaiter of a call is queued.
abbrev pub woken_by : Phase → ℕ
woken_by over = 1
woken_by _ = 0

module _ (fi : Fabric) (pages : Pages) (frame context : ℕ → ℕ) where
  -- What else holds of call `k`.
  abbrev pub Holds : Phase → ℕ → Sender → Type 0
  Holds fresh k p = (p.asked k).sz ≡ pages.page_size
  Holds flying k p = (p.coros.io.memory.contexts (context k)).handle ≡ frame k
  Holds landed k p = has ((p.coros.io.memory.contexts (context k)).entry.flags) fi.write ≡ true
  Holds over k p = (n : ℕ) × ((p.coros.promises (frame k)).held ≡ value (bytes_written n))

  -- Call `k` stands in a phase, and the handle that its end calls is `next`.
  pub record IsCall (ph : Phase) (next k : ℕ) (p : Sender) : Type 0 where
    pub status : (p.coros.promises (frame k)).status ≡ status_in ph
    pub awaiter : (p.coros.promises (frame k)).next ≡ next
    pub begun : p.begun k ≡ begun_in ph
    pub state : state_of (p.coros.io) (frame k) ≡ state_in ph
    pub queued : count (frame k) (p.coros.io.ready) ≡ queued_in ph
    pub holds : Holds ph k p

  pub Holds-pending :
      (ph : Phase) (k : ℕ) (p p' : Sender)
      → ph ≢ over
      → p'.asked k ≡ p.asked k
      → p'.coros.io.memory.contexts (context k) ≡ p.coros.io.memory.contexts (context k)
      → Holds ph k p
      → Holds ph k p'
  Holds-pending fresh k p p' n asked context h = ap (λ (r : Request). r.sz) asked ∙ h
  Holds-pending flying k p p' n asked context h = ap (λ (c : Context). c.handle) context ∙ h
  Holds-pending landed k p p' n asked context h =
      ap (λ (c : Context). has (c.entry.flags) fi.write) context ∙ h
  Holds-pending over k p p' n asked context h = absurd (n refl)

  Holds-kept :
      (ph : Phase) (k : ℕ) (p p' : Sender)
      → p'.coros.promises (frame k) ≡ p.coros.promises (frame k)
      → p'.asked k ≡ p.asked k
      → p'.coros.io.memory.contexts (context k) ≡ p.coros.io.memory.contexts (context k)
      → Holds ph k p
      → Holds ph k p'
  Holds-kept over k p p' promise asked context (n, h) =
      (n, ap (λ (q : Promise Written). q.held) promise ∙ h)
  Holds-kept fresh k p p' promise asked context h =
      Holds-pending fresh k p p' (λ e. cc) asked context h
  Holds-kept flying k p p' promise asked context h =
      Holds-pending flying k p p' (λ e. cc) asked context h
  Holds-kept landed k p p' promise asked context h =
      Holds-pending landed k p p' (λ e. cc) asked context h

  -- What a turn of another coroutine leaves alone.
  pub record IsKept (k : ℕ) (p p' : Sender) : Type 0 where
    pub promise : p'.coros.promises (frame k) ≡ p.coros.promises (frame k)
    pub asked : p'.asked k ≡ p.asked k
    pub begun : p'.begun k ≡ p.begun k
    pub state : state_of (p'.coros.io) (frame k) ≡ state_of (p.coros.io) (frame k)
    pub queued : count (frame k) (p'.coros.io.ready) ≡ count (frame k) (p.coros.io.ready)
    pub bound : p'.coros.io.memory.contexts (context k) ≡ p.coros.io.memory.contexts (context k)

  pub IsCall-kept :
      (ph : Phase) (next k : ℕ) (p p' : Sender)
      → IsKept k p p'
      → IsCall ph next k p
      → IsCall ph next k p'
  IsCall-kept ph next k p p' same c = record {
    status = ap (λ (q : Promise Written). q.status) (same.promise) ∙ c.status;
    awaiter = ap (λ (q : Promise Written). q.next) (same.promise) ∙ c.awaiter;
    begun = same.begun ∙ c.begun;
    state = same.state ∙ c.state;
    queued = same.queued ∙ c.queued;
    holds = Holds-kept ph k p p' (same.promise) (same.asked) (same.bound) (c.holds);
  }

  module _ (main boss cq base total : ℕ) where
    -- WriteOne has taken the results of the calls before `t`. Its futures are `size` calls from `first`
    -- on; those from `t` on stand in their phases, with their awaiters. `todo` calls are not made yet.
    pub record IsWindow (first t size todo : ℕ) (ph : ℕ → Phase) (next : ℕ → ℕ) (p : Sender)
        : Type 0 where
      pub futs : p.futs ≡ upto first size
      pub made : p.made ≡ first + size
      pub at_most : size ≤ batch_size
      pub from : first ≤ t
      pub till : t ≤ first + size
      pub ops : p.ops ≡ base + t
      pub in_all : first + size + todo ≡ total
      pub calls : (k : ℕ) → t ≤ k → k < first + size → IsCall (ph k) (next k) k p
      pub early : (k : ℕ) → k < t → p.begun k ≡ true
      pub passed : (k : ℕ) → first ≤ k → k < t → (p.coros.promises (frame k)).status ≡ ended
      pub only :
          (h : ℕ)
          → count h (p.coros.io.ready) ≢ 0
          → (h ≡ main) ⊎ ((k : ℕ) × (t ≤ k) × (k < first + size) × (h ≡ frame k))
      pub no_timer : p.coros.io.schedule ≡ []
      pub polls : p.coros.io.selector.cqs ≡ cq ∷ []
      pub main_waits : (p.coros.promises main).status ≡ waits
      pub main_awaiter : (p.coros.promises main).next ≡ boss

    -- What the place of the await says.
    abbrev pub IsAt : Await → (first t size todo : ℕ) → Type 0
    IsAt (filling regions region i left) first t size todo =
        (t ≡ first) × (size ≡ batch_size) × (todo ≡ 1 + left + pages_in pages regions)
    IsAt (draining ks) first t size todo =
        (n : ℕ) × (ks ≡ upto t n) × (t + n ≡ first + size) × (todo ≡ 0)

    -- WriteOne awaits call `t`, or is queued after its end.
    pub record IsAwaiting (first t size todo : ℕ) (ph : ℕ → Phase) (p : Sender) : Type 0 where
      pub window : IsWindow first t size todo ph (awaited_by main t) p
      pub present : t < first + size
      pub place : IsAt (p.place) first t size todo
      pub woken : count main (p.coros.io.ready) ≡ woken_by (ph t)

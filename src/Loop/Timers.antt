-- ===== src/Loop/Timers.antt =====
-- io.h: the priority queue `schedule_` of tasks (when, id, handle), least first, and the loop of
-- IO::Runone that moves the due ones to `ready_`. The queue is kept as the list of its elements in
-- the order in which `top` gives them.
pub mod Order
use aws_efa_examples.Common.{
  ℕ, ◌≡◌, Bool, true, false, ◌&&◌, ◌||◌, List, [], ◌∷◌, ◌++◌, ltb, leb, ◌==◌, if◌then◌else◌,
}

-- task_type.
pub record Task : Type 0 where
  pub due : ℕ
  pub id : ℕ
  pub handle : ℕ

-- `a < b` of the tuples.
abbrev pub before : Task → Task → Bool
before a b =
    ltb a.due b.due
    || ((a.due == b.due) && (ltb a.id b.id || ((a.id == b.id) && ltb a.handle b.handle)))

-- `schedule_.push`.
unfoldable pub push : Task → List Task → List Task
push t [] = t ∷ []
push t (u ∷ us) = if before u t then u ∷ push t us else t ∷ u ∷ us

-- The first loop of Runone, over `schedule_` and `ready_`.
unfoldable pub expire : ℕ → List Task → List ℕ → List Task × List ℕ
expire now [] ready = ([], ready)
expire now (t ∷ ts) ready =
    if ltb now t.due then (t ∷ ts, ready) else expire now ts (ready ++ t.handle ∷ [])

-- ===== src/Loop/Io/Rounds.antt =====
-- IO::Runone runs the handles that are ready when it starts, once each and in order.
use aws_efa_examples.Common.{
  ℕ, suc, ◌≡◌, refl, sym, ap, ◌∙◌, List, [], ◌∷◌, ◌++◌, map, append_assoc, append-nil, ltb, keep,
  length, Outcome, ok, ◌>>=◌, >>=-assoc, false,
}
use aws_efa_examples.Loop.Timers.{Task, expire}
use mathlib.Core.Bool.{and-false}
use aws_efa_examples.Loop.Selector
use aws_efa_examples.Loop.Io.{
  Io, Host, take_front, run_ready, runone, stopped, Round, run_loop, select_events,
}
use aws_efa_examples.Loop.Timers.Order.{IsSorted, is_due, expire-eq-keep}

module _ {S : Type 0} (host : Host S) where
  open host use {io_of, with_io}

  -- Where `Can hs` holds, the handles of `hs` that are still to run can be run one after the other: the next
  -- returns, and adds only to the back of `ready_`, all that Call, schedule and the awaiters do to that queue.
  abbrev pub Appends : (List ℕ → S → Type 0) → (ℕ → S → Outcome S) → Type 0
  Appends Can run =
      (h : ℕ) (hs rest : List ℕ) (s : S)
      → Can (h ∷ hs) s
      → (io_of s).ready ≡ h ∷ rest
      → (s' : S) × (new : List ℕ) × (run h (with_io (take_front h rest (io_of s)) s) ≡ ok s')
        × ((io_of s').ready ≡ rest ++ new)
        × Can hs s'

  -- The handles of the list are taken from the front one by one, marked unscheduled and run.
  pub data Runs (run : ℕ → S → Outcome S) : List ℕ → S → S → Type 0 where
    finished : {s : S} → Runs run [] s s
    next :
        {h : ℕ} {hs : List ℕ} {s s1 s2 : S} (rest : List ℕ)
        → (io_of s).ready ≡ h ∷ rest
        → run h (with_io (take_front h rest (io_of s)) s) ≡ ok s1
        → Runs run hs s1 s2
        → Runs run (h ∷ hs) s s2

module _ {S : Type 0} (host : Host S) (Can : List ℕ → S → Type 0) (run : ℕ → S → Outcome S)
    (appends : Appends host Can run) where
  open host use {io_of, with_io, io_of-with_io}

  run_ready-Runs :
      (hs later : List ℕ) (s : S)
      → Can hs s
      → (io_of s).ready ≡ hs ++ later
      → (s' : S) × (new : List ℕ) × (run_ready host run (length hs) s ≡ ok s')
        × Runs host run hs s s'
        × ((io_of s').ready ≡ later ++ new)
  unfolding run_ready
  run_ready-Runs [] later s can e = (s, [], refl, finished, e ∙ sym (append-nil later))
  run_ready-Runs (h ∷ hs) later s can e =
      let (s1, new1, ran, grown, can1) = appends h hs (hs ++ later) s can e in
      let (s2, new2, p, rs, left) =
        run_ready-Runs hs (later ++ new1) s1 can1 (grown ∙ append_assoc hs later new1) in
      (
        s2,
        new1 ++ new2,
        rw (e, run_ready) (rw (ran, ◌>>=◌) p),
        next (hs ++ later) e ran rs,
        left ∙ append_assoc later new1 new2,
      )

  -- Where the handles that a Runone is to run can be run one after the other, each turn returning and adding
  -- only to the back of `ready_`, one call of Runone on a sorted queue returns, having run first the handles
  -- that were ready and then those whose time had come, in the order of the timers, and nothing
  -- else: the timers that are left when they start are those of the future.
  pub runone-Runs :
      (now : ℕ) (s : S)
      → IsSorted (io_of s).schedule
      → let io = io_of s in
        let due = io.ready ++ map (λ t. t.handle) (keep (is_due now) io.schedule) in
        let start =
          with_io (record io { schedule = keep (λ t. ltb now t.due) io.schedule; ready = due }) s in
        Can due start → (s' : S) × (runone host run now s ≡ ok s') × Runs host run due start s'
  unfolding runone
  runone-Runs now s sorted can =
      let io = io_of s in
      let due = io.ready ++ map (λ t. t.handle) (keep (is_due now) io.schedule) in
      let start : Io = record io {
        schedule = keep (λ t. ltb now t.due) io.schedule;
        ready = due;
      } in
      let (s', new, p, rs, left) =
        run_ready-Runs due [] (with_io start s) can
          (ap (λ (i : Io). i.ready) (io_of-with_io start s) ∙ sym (append-nil due)) in
      rw (expire-eq-keep now io.schedule io.ready sorted, runone) (s', p, rs)

module _ {S : Type 0} (host : Host S) (run : ℕ → S → Outcome S) where
  open host use {io_of, with_io, with_io-io_of}

  pub run_ready-next :
      (n h : ℕ) (rest : List ℕ) (s : S) (result : Outcome S)
      → (io_of s).ready ≡ h ∷ rest
      → run h (with_io (take_front h rest (io_of s)) s) ≡ result
      → run_ready host run (suc n) s ≡ result >>= (λ s'. run_ready host run n s')
  unfolding run_ready
  run_ready-next n h rest s result e ran =
      rw (e, run_ready) (ap (λ o. o >>= λ s'. run_ready host run n s') ran)

  pub runone-expire :
      (now : ℕ) (s : S) (schedule : List Task) (ready : List ℕ)
      → expire now (io_of s).schedule (io_of s).ready ≡ (schedule, ready)
      → runone host run now s
        ≡ run_ready host run
            (length ready)
            (with_io (record (io_of s) { schedule = schedule; ready = ready }) s)
  unfolding runone
  runone-expire now s schedule ready e =
      ap
        (λ (q : List Task × List ℕ).
          run_ready host run (length q.1)
            (with_io (record (io_of s) { schedule = q.0; ready = q.1 }) s))
        e

  -- Where no timer runs, Runone runs the handles that are ready.
  pub runone_no_timer :
      (now : ℕ) (s : S)
      → (io_of s).schedule ≡ []
      → runone host run now s ≡ run_ready host run (length (io_of s).ready) s
  unfolding runone expire
  runone_no_timer now s e =
      ap
        (λ l.
          let (schedule, ready) = expire now l (io_of s).ready in
          run_ready host run (length ready)
            (with_io (record (io_of s) { schedule = schedule; ready = ready }) s))
        e
      ∙ ap
          (λ l.
            run_ready host run (length (io_of s).ready)
              (with_io (record (io_of s) { schedule = l }) s))
          (sym e)
      ∙ ap (run_ready host run (length (io_of s).ready)) (with_io-io_of s)

  polls_on : (io : Io) (cq : ℕ) → io.selector.cqs ≡ cq ∷ [] → stopped io ≡ false
  unfolding stopped Selector.stopped
  polls_on io cq one = rw one (and-false _)

  -- IO::Run does not stop while a completion queue is registered.
  pub run_loop-next :
      (remote_write cq : ℕ) (r : Round) (rs : List Round) (s : S)
      → (io_of s).selector.cqs ≡ cq ∷ []
      → run_loop host run remote_write (r ∷ rs) s ≡ (
          (select_events remote_write r.read (io_of s) >>= λ io.
          runone host run r.now (with_io io s))
          >>= run_loop host run remote_write rs)
  unfolding run_loop
  run_loop-next remote_write cq r rs s one =
      rw (polls_on (io_of s) cq one, run_loop)
        (sym (>>=-assoc (select_events remote_write r.read (io_of s)) _ _))

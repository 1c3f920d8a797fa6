-- ===== src/Reader/Rounds.antt =====
-- A turn of the event loop in the process of Reader::Read: one poll, which brings some notifications, and
-- one Runone.
use aws_efa_examples.Loop.Io.Rounds.{run_ready-next, runone_no_timer}
use aws_efa_examples.Common.{
  ◌+◌, ap, ℕ, suc, ◌≡◌, ◌≢◌, ◌∙◌, refl, [], ◌∷◌, ◌++◌, map, ok, undefined, List, All, Outcome,
  length,
}
use aws_efa_examples.Loop.Defs.{Entry}
use aws_efa_examples.Loop.Io.{runone, run_ready}
use aws_efa_examples.Conn.{Fabric, Conn, Posted}
use aws_efa_examples.Reader.{Process, read_from, process_host}
use aws_efa_examples.Reader.Polls.{Notifies, silent, select_events_deaf}
use aws_efa_examples.Reader.States.{
  run_now, turn, IsCalled, IsWaiting, IsDeaf, IsWoken, IsFinished, taken, read_from-IsCalled,
  run_process-IsWaiting, read_from-IsFinished, heard-IsWaiting, taken-IsWaiting,
  run_process-IsWoken, run_process_over, run_process-main,
}

module _ (fi : Fabric) (post : Posted → ℕ) (conn : Conn) (imm_data main boss cq : ℕ)
    (frame context : ℕ → ℕ) (some_data : imm_data ≢ 0) (main_real : main ≢ 0) (boss_real : boss ≢ 0)
    (frames_real : (k : ℕ) → frame k ≢ 0) (apart : (k : ℕ) → frame k ≢ main) where
  abbrev run : ℕ → Process → Outcome Process
  run = run_now fi post conn imm_data main frame context

  -- A turn in which the call's body begins: whatever is notified in its poll is lost.
  pub turn-begins :
      (now k n : ℕ) (es : List Entry) (p : Process)
      → All (Notifies fi imm_data) es
      → IsCalled main boss cq frame k n (frame k ∷ []) p
      → (p' : Process) × (turn fi post conn imm_data main frame context now es p ≡ ok p')
        × IsWaiting imm_data main boss cq frame context k n [] p'
  unfolding run_ready
  turn-begins now k n es p ts c =
      let (p', ran, waiting) =
        run_process-IsWaiting fi post conn imm_data main boss cq frame context some_data main_real
          boss_real frames_real apart k n p c in
      (
        p',
        rw (select_events_deaf fi imm_data some_data cq es (p.coros.io) ts (c.polls) (c.deaf)) (
            runone_no_timer process_host run now p (c.no_timer)
            ∙ ap (λ l. run_ready process_host run (length l) p) (c.queued)
            ∙ run_ready-next process_host run 0 (frame k) [] p (ok p') (c.queued) ran
            ∙ refl),
        waiting,
      )

  -- With no notification the process waits on.
  pub turn-quiet :
      (now k n : ℕ) (p : Process)
      → IsWaiting imm_data main boss cq frame context k n [] p
      → (turn fi post conn imm_data main frame context now [] p ≡ ok p)
  unfolding runone run_ready
  turn-quiet now k n p w = rw (silent fi imm_data some_data cq (p.coros.io) (w.polls)) (
      runone_no_timer process_host run now p (w.no_timer)
      ∙ ap (λ q. run_ready process_host run (length q) p) (w.queued)
      ∙ refl)

  -- A notification wakes the call, which hands the buffer to Reader::Read.
  pub turn-heard :
      (now k n : ℕ) (e : Entry) (p : Process)
      → Notifies fi imm_data e
      → IsWaiting imm_data main boss cq frame context k n [] p
      → (p' : Process) × (turn fi post conn imm_data main frame context now (e ∷ []) p ≡ ok p')
        × IsWoken main boss cq (conn.read_buffer.start) frame k n [] p'
  unfolding run_ready
  turn-heard now k n e p t w =
      let (io, polled, w1, flag) =
        heard-IsWaiting fi post conn imm_data main boss cq frame context some_data main_real
          boss_real frames_real apart k n e [] p (t, tt) w in
      let q = process_host.with_io io p in
      let (p', ran, woken) =
        run_process-IsWoken fi post conn imm_data main boss cq frame context some_data main_real
          boss_real frames_real apart k n [] (taken (frame k) [] q)
          (taken-IsWaiting fi post conn imm_data main boss cq frame context some_data main_real
            boss_real frames_real apart k n (frame k) [] q w1)
          flag in
      (
        p',
        rw polled (
            runone_no_timer process_host run now q (w1.no_timer)
            ∙ ap (λ l. run_ready process_host run (length l) q) (w1.queued)
            ∙ run_ready-next process_host run 0 (frame k) [] q (ok p') (w1.queued) ran
            ∙ refl),
        woken,
      )

  -- Two notifications or more in one poll queue the frame again, and it is resumed after its end.
  pub turn_twice :
      (now k n : ℕ) (e e' : Entry) (es : List Entry) (p : Process)
      → All (Notifies fi imm_data) (e ∷ e' ∷ es)
      → IsWaiting imm_data main boss cq frame context k n [] p
      → turn fi post conn imm_data main frame context now (e ∷ e' ∷ es) p ≡ undefined
  turn_twice now k n e e' es p ts w =
      let (io, polled, w1, flag) =
        heard-IsWaiting fi post conn imm_data main boss cq frame context some_data main_real
          boss_real frames_real apart k n e (e' ∷ es) p ts w in
      let q = process_host.with_io io p in
      let more = map (λ _. frame k) es in
      let (p', ran, woken) =
        run_process-IsWoken fi post conn imm_data main boss cq frame context some_data main_real
          boss_real frames_real apart k n (frame k ∷ more) (taken (frame k) (frame k ∷ more) q)
          (taken-IsWaiting fi post conn imm_data main boss cq frame context some_data main_real
            boss_real frames_real apart k n (frame k) (frame k ∷ more) q w1)
          flag in
      rw polled (
        runone_no_timer process_host run now q (w1.no_timer)
        ∙ ap (λ l. run_ready process_host run (length l) q) (w1.queued)
        ∙ run_ready-next process_host run (suc (length more)) (frame k) (frame k ∷ more) q (ok p')
            (w1.queued) ran
        ∙ run_ready-next process_host run (length more) (frame k) (more ++ main ∷ []) p' undefined
            (woken.queued)
            (run_process_over fi post conn imm_data main boss cq frame context some_data main_real
              boss_real frames_real apart k (taken (frame k) (more ++ main ∷ []) p') (woken.present)
              (woken.over)))

  -- A turn in which Reader::Read is queued: whatever is notified in its poll is lost.
  turn-main :
      (now k n : ℕ) (es : List Entry) (p : Process)
      → All (Notifies fi imm_data) es
      → IsWoken main boss cq (conn.read_buffer.start) frame k (suc n) [] p
      → (q : Process) × (turn fi post conn imm_data main frame context now es p
          ≡ ok (read_from fi post conn imm_data main frame context n (k + 1) q))
        × IsDeaf main boss cq q
  unfolding run_ready
  turn-main now k n es p ts w =
      let (q, ran, deaf) =
        run_process-main fi post conn imm_data main boss cq frame context some_data main_real
          boss_real frames_real apart k n p w in
      (
        q,
        rw (select_events_deaf fi imm_data some_data cq es (p.coros.io) ts (w.polls) (w.deaf)) (
            runone_no_timer process_host run now p (w.no_timer)
            ∙ ap (λ l. run_ready process_host run (length l) p) (w.queued)
            ∙ run_ready-next process_host run 0 main [] p _ (w.queued) ran
            ∙ refl),
        deaf,
      )

  pub turn-next :
      (now k n : ℕ) (es : List Entry) (p : Process)
      → All (Notifies fi imm_data) es
      → IsWoken main boss cq (conn.read_buffer.start) frame k (suc (suc n)) [] p
      → (p' : Process) × (turn fi post conn imm_data main frame context now es p ≡ ok p')
        × IsCalled main boss cq frame (k + 1) (suc n) (frame (k + 1) ∷ []) p'
  turn-next now k n es p ts w =
      let (q, turned, deaf) = turn-main now k (suc n) es p ts w in
      (
        _,
        turned,
        read_from-IsCalled fi post conn imm_data main boss cq frame context some_data main_real
            boss_real frames_real apart n (k + 1) q deaf,
      )

  pub turn-last :
      (now k : ℕ) (es : List Entry) (p : Process)
      → All (Notifies fi imm_data) es
      → IsWoken main boss cq (conn.read_buffer.start) frame k 1 [] p
      → (p' : Process) × (turn fi post conn imm_data main frame context now es p ≡ ok p')
        × IsFinished main boss p'
  turn-last now k es p ts w =
      let (q, turned, deaf) = turn-main now k 0 es p ts w in
      (
        _,
        turned,
        read_from-IsFinished fi post conn imm_data main boss cq frame context some_data main_real
            boss_real frames_real apart (k + 1) q deaf,
      )

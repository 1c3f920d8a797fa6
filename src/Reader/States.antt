-- ===== src/Reader/States.antt =====
-- The process of Reader::Read: its states between the turns of the event loop, and how the turns of its
-- coroutines lead from one to the next.
use aws_efa_examples.Coro.{Coros, Promise, await_resume, destroy_coro}
use aws_efa_examples.Reader.{Returned, run_main}
use aws_efa_examples.Coro.Ending.{cancel_handle_lem, finish_turn_lem}
use aws_efa_examples.Common.{
  ◌>>=◌, ◌-◌, ◌+◌, ap, ℕ, suc, ◌≡◌, ◌≢◌, ◌∙◌, refl, [], ◌∷◌, ◌++◌, map, ne→==, ==-self, ok,
  undefined, emplace, erase, arith, List, All, Outcome, true, false,
}
use aws_efa_examples.Loop.Defs.{Entry}
use aws_efa_examples.Loop.Selector
use aws_efa_examples.Loop.Selector.{Selector, has, poll, select, handle_completion}
use aws_efa_examples.Loop.Io.{
  runone, Io, call, take_front, schedule_handle, register_context, unregister_context,
  select_events,
}
use aws_efa_examples.Conn.{remote_write_suspend, remote_write_resume, Fabric, Conn, Posted, read}
use aws_efa_examples.Coro.{waits, ended, await_suspend, finish_turn, final_suspend, Coros}
use aws_efa_examples.Coro.Values.{set_value, value, result}
use aws_efa_examples.Reader.{
  buffer, Process, read_from, process_host, run_process, run_read, Returned,
}
use aws_efa_examples.Reader.Polls.{brings, Notifies, select_events_heard}

-- Reader::Read has made call `k`, with `n` reads left, whose body has not begun; nothing listens. The
-- coroutine at `boss` awaits Reader::Read.
pub record IsCalled (main boss cq : ℕ) (frame : ℕ → ℕ) (k n : ℕ) (queue : List ℕ) (p : Process)
    : Type 0 where
  pub present : p.index ≡ k
  pub reads : p.left ≡ n
  pub not_begun : p.begun ≡ false
  pub queued : p.coros.io.ready ≡ queue
  pub no_timer : p.coros.io.schedule ≡ []
  pub polls : p.coros.io.selector.cqs ≡ cq ∷ []
  pub deaf : p.coros.io.selector.imm_data_contexts ≡ []
  pub suspended : (p.coros.promises (frame k)).status ≡ waits
  pub awaiter : (p.coros.promises (frame k)).next ≡ main
  pub main_waits : (p.coros.promises main).status ≡ waits
  pub main_awaiter : (p.coros.promises main).next ≡ boss

-- The process waits in call `k` with `n` reads left. The selector, which has one completion queue, has
-- the call's context for the immediate data.
pub record IsWaiting (imm_data main boss cq : ℕ) (frame context : ℕ → ℕ) (k n : ℕ) (queue : List ℕ)
    (p : Process) : Type 0 where
  pub present : p.index ≡ k
  pub reads : p.left ≡ n
  pub has_begun : p.begun ≡ true
  pub queued : p.coros.io.ready ≡ queue
  pub no_timer : p.coros.io.schedule ≡ []
  pub polls : p.coros.io.selector.cqs ≡ cq ∷ []
  pub listens : p.coros.io.selector.imm_data_contexts ≡ (imm_data, context k) ∷ []
  pub bound : (p.coros.io.memory.contexts (context k)).handle ≡ frame k
  pub suspended : (p.coros.promises (frame k)).status ≡ waits
  pub awaiter : (p.coros.promises (frame k)).next ≡ main
  pub main_waits : (p.coros.promises main).status ≡ waits
  pub main_awaiter : (p.coros.promises main).next ≡ boss

-- Reader::Read runs, and no call listens.
pub record IsDeaf (main boss cq : ℕ) (p : Process) : Type 0 where
  pub idle : p.coros.io.ready ≡ []
  pub no_timer : p.coros.io.schedule ≡ []
  pub polls : p.coros.io.selector.cqs ≡ cq ∷ []
  pub deaf : p.coros.io.selector.imm_data_contexts ≡ []
  pub main_waits : (p.coros.promises main).status ≡ waits
  pub main_awaiter : (p.coros.promises main).next ≡ boss

-- Call `k` has returned the buffer to Reader::Read, which is queued to take it.
pub record IsWoken (main boss cq start : ℕ) (frame : ℕ → ℕ) (k n : ℕ) (queue : List ℕ) (p : Process)
    : Type 0 where
  pub present : p.index ≡ k
  pub reads : p.left ≡ n
  pub queued : p.coros.io.ready ≡ queue ++ main ∷ []
  pub no_timer : p.coros.io.schedule ≡ []
  pub polls : p.coros.io.selector.cqs ≡ cq ∷ []
  pub deaf : p.coros.io.selector.imm_data_contexts ≡ []
  pub over : (p.coros.promises (frame k)).status ≡ ended
  pub received : (p.coros.promises (frame k)).held ≡ value (buffer start)
  pub main_waits : (p.coros.promises main).status ≡ waits
  pub main_awaiter : (p.coros.promises main).next ≡ boss

-- Reader::Read has returned, and the coroutine that awaits it is queued.
pub record IsFinished (main boss : ℕ) (p : Process) : Type 0 where
  pub reads : p.left ≡ 0
  pub queued : p.coros.io.ready ≡ boss ∷ []
  pub main_ended : (p.coros.promises main).status ≡ ended

abbrev pub taken : ℕ → List ℕ → Process → Process
taken h rest p = process_host.with_io (take_front h rest (p.coros.io)) p

pred_suc : (n : ℕ) → suc n - 1 ≡ n
pred_suc n = omega arith

module _ (fi : Fabric) (post : Posted → ℕ) (conn : Conn) (imm_data main : ℕ)
    (frame context : ℕ → ℕ) where
  abbrev pub run_now : ℕ → Process → Outcome Process
  run_now = run_process fi post conn imm_data main frame context

  -- The body of the loop of IO::Run.
  abbrev pub turn : (now : ℕ) → List Entry → Process → Outcome Process
  turn now es p = select_events fi.remote_write (λ _. brings es) (p.coros.io) >>= λ io.
      runone process_host run_now now (process_host.with_io io p)

module _ (fi : Fabric) (post : Posted → ℕ) (conn : Conn) (imm_data main boss cq : ℕ)
    (frame context : ℕ → ℕ) (some_data : imm_data ≢ 0) (main_real : main ≢ 0) (boss_real : boss ≢ 0)
    (frames_real : (k : ℕ) → frame k ≢ 0) (apart : (k : ℕ) → frame k ≢ main) where
  -- Reader::Read with reads left makes the next call.
  pub read_from-IsCalled :
      (n k : ℕ) (p : Process)
      → IsDeaf main boss cq p
      → IsCalled main boss cq frame k
          (suc n)
          (frame k ∷ [])
          (read_from fi post conn imm_data main frame context (suc n) k p)
  unfolding read_from await_suspend schedule_handle call
  read_from-IsCalled n k p d = record {
    present = refl;
    reads = refl;
    not_begun = refl;
    queued = ground (arith, apart k);
    no_timer = ground (arith, apart k);
    polls = ground (arith, apart k);
    deaf = ground (arith, apart k);
    suspended = ground (arith, apart k);
    awaiter = ground (arith, apart k);
    main_waits = ground (arith, apart k);
    main_awaiter = ground (arith, apart k);
  }

  pub read_from-IsFinished :
      (k : ℕ) (p : Process)
      → IsDeaf main boss cq p
      → IsFinished main boss (read_from fi post conn imm_data main frame context 0 k p)
  unfolding read_from finish_turn final_suspend call set_value
  read_from-IsFinished k p d = record {
    reads = refl;
    queued = ground arith;
    main_ended = ground arith;
  }

  -- The frame's first turn: it listens from here on.
  pub run_process-IsWaiting :
      (k n : ℕ) (p : Process)
      → IsCalled main boss cq frame k n (frame k ∷ []) p
      → (p' : Process) × (run_now fi post conn imm_data main frame context
            (frame k)
            (taken (frame k) [] p)
          ≡ ok p')
        × IsWaiting imm_data main boss cq frame context k n [] p'
  unfolding run_process run_read read remote_write_suspend register_context emplace
      Selector.register_context
  run_process-IsWaiting k n p c =
      rw
        (
          ne→== (frame k) main (apart k),
          c.present,
          ==-self (frame k),
          c.suspended,
          c.not_begun,
          ne→== imm_data 0 some_data,
          c.deaf,
          run_process,
        )
        (
          _,
          refl,
          record {
            present = c.present;
            reads = c.reads;
            has_begun = refl;
            queued = refl;
            no_timer = c.no_timer;
            polls = c.polls;
            listens = ap (λ j. (imm_data, context j) ∷ []) (c.present);
            bound = ground arith;
            suspended = c.suspended;
            awaiter = c.awaiter;
            main_waits = c.main_waits;
            main_awaiter = c.main_awaiter;
          },
        )

  -- Notifications queue the frame that waits for them, each of them once.
  pub heard-IsWaiting :
      (k n : ℕ) (e : Entry) (es : List Entry) (p : Process)
      → All (Notifies fi imm_data) (e ∷ es)
      → IsWaiting imm_data main boss cq frame context k n [] p
      → (io : Io) × (select_events fi.remote_write (λ _. brings (e ∷ es)) (p.coros.io) ≡ ok io)
        × IsWaiting imm_data main boss cq frame context k n
            (map (λ _. frame k) (e ∷ es))
            (process_host.with_io io p)
        × (has ((io.memory.contexts (context k)).entry.flags) fi.remote_write ≡ true)
  heard-IsWaiting k n e es p ts w =
      let (io, polled, ready, schedule, selector, handle, flag) =
        select_events_heard fi imm_data some_data (context k) (frame k) cq e es (p.coros.io) ts
          (w.polls) (w.listens) (w.bound) in
      (
        io,
        polled,
        record {
          present = w.present;
          reads = w.reads;
          has_begun = w.has_begun;
          queued = ready ∙ ap (λ q. q ++ map (λ _. frame k) (e ∷ es)) (w.queued);
          no_timer = schedule ∙ w.no_timer;
          polls = ap (λ (s : Selector). s.cqs) selector ∙ w.polls;
          listens = ap (λ (s : Selector). s.imm_data_contexts) selector ∙ w.listens;
          bound = handle;
          suspended = w.suspended;
          awaiter = w.awaiter;
          main_waits = w.main_waits;
          main_awaiter = w.main_awaiter;
        },
        flag,
      )

  pub taken-IsWaiting :
      (k n h : ℕ) (rest : List ℕ) (p : Process)
      → IsWaiting imm_data main boss cq frame context k n (h ∷ rest) p
      → IsWaiting imm_data main boss cq frame context k n rest (taken h rest p)
  taken-IsWaiting k n h rest p w = record {
    present = w.present;
    reads = w.reads;
    has_begun = w.has_begun;
    queued = refl;
    no_timer = w.no_timer;
    polls = w.polls;
    listens = w.listens;
    bound = w.bound;
    suspended = w.suspended;
    awaiter = w.awaiter;
    main_waits = w.main_waits;
    main_awaiter = w.main_awaiter;
  }

  -- The frame's turn.
  pub run_process-IsWoken :
      (k n : ℕ) (queue : List ℕ) (p : Process)
      → IsWaiting imm_data main boss cq frame context k n queue p
      → has ((p.coros.io.memory.contexts (context k)).entry.flags) fi.remote_write ≡ true
      → (p' : Process) × (run_now fi post conn imm_data main frame context (frame k) p ≡ ok p')
        × IsWoken main boss cq (conn.read_buffer.start) frame k n queue p'
  unfolding run_process run_read remote_write_resume unregister_context Selector.unregister_context
      erase call
  run_process-IsWoken k n queue p w f =
      let start = conn.read_buffer.start in
      let heard : Coros Returned = record (p.coros) {
        io = record (p.coros.io) {
          selector = record { cqs = p.coros.io.selector.cqs; imm_data_contexts = [] };
        };
      } in
      let (called, mine, others) =
        finish_turn_lem (frame k) (buffer start) heard (rw (w.awaiter) main_real) in
      let kept = others main (apart k) in
      rw (ne→== (frame k) main (apart k), w.present, ==-self (frame k), w.suspended, run_process)
        (rw (w.has_begun, f, w.listens, ==-self imm_data, unregister_context)
          (
            _,
            refl,
            record {
              present = refl;
              reads = w.reads;
              queued =
                  ap (λ (io : Io). io.ready) called
                  ∙ ap (λ q. q ++ (p.coros.promises (frame k)).next ∷ []) (w.queued)
                  ∙ ap (λ h. queue ++ h ∷ []) (w.awaiter);
              no_timer = ap (λ (io : Io). io.schedule) called ∙ w.no_timer;
              polls = ap (λ (io : Io). io.selector.cqs) called ∙ w.polls;
              deaf = ap (λ (io : Io). io.selector.imm_data_contexts) called;
              over = ap (λ (q : Promise Returned). q.status) mine;
              received = ap (λ (q : Promise Returned). q.held) mine;
              main_waits = ap (λ (q : Promise Returned). q.status) kept ∙ w.main_waits;
              main_awaiter = ap (λ (q : Promise Returned). q.next) kept ∙ w.main_awaiter;
            },
          ))

  pub run_process_over :
      (k : ℕ) (p : Process)
      → p.index ≡ k
      → (p.coros.promises (frame k)).status ≡ ended
      → run_now fi post conn imm_data main frame context (frame k) p ≡ undefined
  unfolding run_process run_read
  run_process_over k p i o =
      rw (ne→== (frame k) main (apart k), i, ==-self (frame k), o, run_process) refl

  -- Reader::Read takes the buffer, and destroys the call.
  pub run_process-main :
      (k n : ℕ) (p : Process)
      → IsWoken main boss cq (conn.read_buffer.start) frame k (suc n) [] p
      → (q : Process) × (run_now fi post conn imm_data main frame context main (taken main [] p)
          ≡ ok (read_from fi post conn imm_data main frame context n (k + 1) q))
        × IsDeaf main boss cq q
  unfolding run_process run_main await_resume result destroy_coro
  run_process-main k n p w =
      rw (==-self main, w.main_waits, w.present, ne→== (frame k) 0 (frames_real k), run_process)
        (rw (cancel_handle_lem (frame k) _, w.received, w.reads, pred_suc n)
          (
            _,
            refl,
            record {
              idle = refl;
              no_timer = w.no_timer;
              polls = w.polls;
              deaf = w.deaf;
              main_waits = ground (arith, apart k);
              main_awaiter = ground (arith, apart k);
            },
          ))

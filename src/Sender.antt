-- ===== src/Sender.antt =====
-- src/batch/main.cc: Writer::WriteOne in the event loop, with the coroutines of Conn::Write in its
-- futures. Its calls of Conn::Write have numbers; the address of each call's frame and of its
-- awaiter's context is an argument, by the number, so that a later call may have an earlier one's.
pub mod Calls
pub mod Windows
pub mod Turns
pub mod Steps
pub mod Results
pub mod Work
pub mod Course
pub mod Filling
pub mod Resuming
pub mod Delivery
pub mod Landing
pub mod Polling
pub mod Rounds
pub mod Serving
pub mod Finishing
pub mod Tally
pub mod Counting
pub mod Sending
pub mod Appending
use aws_efa_examples.Common.{
  ℕ, zero, suc, ◌+◌, ◌≡◌, refl, Bool, true, false, Option, none, some, List, [], ◌∷◌, ◌++◌, length,
  leb, ◌==◌, if◌then◌else◌, Outcome, ok, throw, undefined, Exception,
}
use aws_efa_examples.Loop.Defs.{unschedule, update, set_state}
use aws_efa_examples.Loop.Io.{Host}
use aws_efa_examples.Conn.{Fabric, Conn, World, Posted, write, write_resume}
use aws_efa_examples.Coro.Values.{unset}
use aws_efa_examples.Coro.{
  Coros, waits, ended, destroyed, returns, throws, set_promise, await_ready, await_suspend,
  await_resume, finish_turn, destroy_coro, new_future,
}
use aws_efa_examples.Writer.{CudaRegion, Request, Pages, page_request, batch_size}

-- What a coroutine of the writer returns: the number of bytes written, or nothing.
pub data Written : Type 0 where
  bytes_written : ℕ → Written
  no_value : Written

-- Where WriteOne awaits: in the loop over the pages, before page `i` of a region with `left` pages and
-- some regions after it; or in the loop at its end, with the futures from the awaited one on.
pub data Await : Type 0 where
  filling : (regions : List CudaRegion) (region : CudaRegion) (i left : ℕ) → Await
  draining : (futs : List ℕ) → Await

-- The writer's process: its coroutines with the event loop, its memory, what libfabric has taken; for
-- each call of Conn::Write its arguments and whether its body has begun; and the variables of
-- WriteOne, with the number of calls that it has made.
pub record Sender : Type 0 where
  pub coros : Coros Written
  pub bytes : ℕ → ℕ
  pub posted : List Posted
  pub asked : ℕ → Request
  pub begun : ℕ → Bool
  pub futs : List ℕ
  pub made : ℕ
  pub ops : ℕ
  pub sent : ℕ
  pub place : Await

abbrev pub sender_host : Host Sender
sender_host = record {
  io_of = λ p. p.coros.io;
  with_io = λ io p. record p { coros = record (p.coros) { io = io } };
  io_of-with_io = λ io p. refl;
  with_io-io_of = λ p. refl;
}

abbrev pub sender_world : Sender → World
sender_world p = record { io = p.coros.io; bytes = p.bytes }

abbrev pub put_sender : World → Sender → Sender
put_sender w p = record p { coros = record (p.coros) { io = w.io }; bytes = w.bytes }

abbrev pub on_coros : (Coros Written → Coros Written) → Sender → Sender
on_coros f p = record p { coros = f (p.coros) }

module _ (fi : Fabric) (post : Posted → ℕ) (conn : Conn) (pages : Pages) (main : ℕ)
    (frame context : ℕ → ℕ) where
  -- A call of Conn::Write, which is at its initial suspension; like Conn::Read it is a member function,
  -- so that its promise has the default constructor.
  abbrev pub new_call : ℕ → Request → Sender → Sender
  new_call k r p =
      let io = p.coros.io in
      record p {
        coros =
            record (set_promise (frame k)
              (record { oneway = false; next = 0; held = unset; status = waits }) (p.coros)) {
                io = record io { memory = set_state (frame k) unschedule (io.memory) };
              };
        asked = update (p.asked) k r;
        begun = update (p.begun) k false;
      }

  -- `futs.emplace_back(Future(conn_->Write(…)))` and `++sent`.
  unfoldable pub push_future : Request → Sender → Sender
  unfolding new_future
  push_future r p =
      let k = p.made in
      record (on_coros (new_future (frame k)) (new_call k r p)) {
        futs = p.futs ++ k ∷ [];
        made = k + 1;
        sent = p.sent + 1;
      }

  unfoldable pub destroy_futs : List ℕ → Coros Written → Coros Written
  unfolding destroy_coro
  destroy_futs [] cs = cs
  destroy_futs (k ∷ ks) cs = destroy_futs ks (destroy_coro (frame k) cs)

  -- An exception leaves WriteOne, which destroys its futures.
  unfoldable pub fail_write_one : Exception → Sender → Sender
  unfolding destroy_futs finish_turn
  fail_write_one e p =
      record (on_coros (λ cs. finish_turn main (throws e) (destroy_futs (p.futs) cs)) p) {
        futs = [];
      }

  -- The end of `co_await fut`, and what follows.
  unfoldable pub resume_await : ℕ → (Sender → Outcome Sender) → Sender → Outcome Sender
  unfolding await_resume fail_write_one
  resume_await k next p = elim (await_resume (frame k) (p.coros)) [
    | ok _ ↦ next p
    | throw e ↦ ok (fail_write_one e p)
    | undefined ↦ undefined
  ]

  -- `co_await fut` at a place, and what follows where it does not suspend.
  unfoldable pub await_call : ℕ → Await → (Sender → Outcome Sender) → Sender → Outcome Sender
  unfolding await_ready await_suspend resume_await
  await_call k at next p =
      if await_ready (frame k) (p.coros)
      then resume_await k next p
      else ok (on_coros (await_suspend (frame k) main) (record p { place = at }))

  -- `++ops` and `futs.pop_front()`.
  unfoldable pub pop_future : ℕ → List ℕ → Sender → Sender
  unfolding destroy_coro
  pop_future k fs p = on_coros (destroy_coro (frame k)) (record p { ops = p.ops + 1; futs = fs })

  -- `while (futs.size() >= batch_size)`, and what follows.
  unfoldable pub throttle_from :
      Await → (Sender → Outcome Sender) → List ℕ → Sender → Outcome Sender
  unfolding await_call pop_future
  throttle_from at next [] p = next p
  throttle_from at next (k ∷ fs) p =
      let rest = throttle_from at next fs in
      if leb batch_size (length (k ∷ fs))
      then await_call k at (λ p. rest (pop_future k fs p)) p
      else next p

  -- The inner loop from page `i` on with `n` pages left, and what follows.
  unfoldable pub fill_region :
      List CudaRegion → (Sender → Outcome Sender) → CudaRegion → (i n : ℕ) → Sender → Outcome Sender
  unfolding throttle_from push_future
  fill_region regions next region i zero p = next p
  fill_region regions next region i (suc n) p =
      throttle_from (filling regions region i n)
        (λ p.
          fill_region regions next region (i + 1) n (push_future (page_request pages region i) p))
        (p.futs) p

  -- `for (auto &fut : futs)`, and the end of WriteOne, less the progress that it prints.
  unfoldable pub drain_from : List ℕ → Sender → Outcome Sender
  unfolding await_call destroy_futs finish_turn
  drain_from [] p =
      ok
        (record (on_coros (λ cs. finish_turn main (returns no_value) (destroy_futs (p.futs) cs))
          p) { futs = [] })
  drain_from (k ∷ ks) p =
      await_call k (draining (k ∷ ks)) (λ p. drain_from ks (record p { ops = p.ops + 1 })) p

  -- The outer loop, and what follows.
  unfoldable pub fill_regions : List CudaRegion → Sender → Outcome Sender
  unfolding fill_region drain_from
  fill_regions [] p = drain_from (p.futs) p
  fill_regions (region ∷ regions) p =
      fill_region regions (fill_regions regions) region 0 (pages.num_pages) p

  -- WriteOne goes on after its await.
  unfoldable pub resume_at : Await → List ℕ → Sender → Outcome Sender
  unfolding fill_regions resume_await
  resume_at (filling regions region i left) [] p = undefined
  resume_at (filling regions region i left) (k ∷ fs) p =
      resume_await k
        (λ p.
          throttle_from (filling regions region i left)
            (λ p.
              fill_region regions (fill_regions regions) region (i + 1) left
                (push_future (page_request pages region i) p))
            fs (pop_future k fs p))
        p
  resume_at (draining []) fs p = undefined
  resume_at (draining (k ∷ ks)) fs p =
      resume_await k (λ p. drain_from ks (record p { ops = p.ops + 1 })) p

  -- A turn of WriteOne.
  unfoldable pub run_write_one : Sender → Outcome Sender
  unfolding resume_at
  run_write_one p = elim ((p.coros.promises main).status) [
    | waits ↦ resume_at (p.place) (p.futs) p
    | ended ↦ undefined
    | destroyed ↦ undefined
  ]

  -- The first turn of Conn::Write: its body up to the suspension.
  abbrev pub begin_write : (h k : ℕ) → World × Outcome Posted → Sender → Outcome Sender
  begin_write h k (w, ok m) p =
      ok (record (put_sender w p) { begun = update (p.begun) k true; posted = p.posted ++ m ∷ [] })
  begin_write h k (w, throw e) p = ok (on_coros (finish_turn h (throws e)) (put_sender w p))
  begin_write h k (w, undefined) p = undefined

  -- The second: its await_resume, and its end.
  abbrev pub end_write : (h : ℕ) → Outcome ℕ → Sender → Outcome Sender
  end_write h (ok n) p = ok (on_coros (finish_turn h (returns (bytes_written n))) p)
  end_write h (throw e) p = ok (on_coros (finish_turn h (throws e)) p)
  end_write h undefined p = undefined

  unfoldable pub run_write : (h k : ℕ) → Sender → Outcome Sender
  unfolding write write_resume finish_turn
  run_write h k p = elim ((p.coros.promises h).status) [
    | waits ↦
        if p.begun k
        then end_write h (write_resume fi conn ((p.coros.io.memory.contexts (context k)).entry)) p
        else (let r = p.asked k in
            begin_write h k
              (write fi post conn (context k) h (r.src) (r.sz) (r.addr) (r.key) (r.imm_data)
                (sender_world p))
              p)
    | ended ↦ undefined
    | destroyed ↦ undefined
  ]

  -- The call of a future, by the address of its frame.
  unfoldable pub call_at : ℕ → List ℕ → Option ℕ
  call_at h [] = none
  call_at h (k ∷ ks) = if h == frame k then some k else call_at h ks

  -- What `run` does for the handles of this process. That of a frame which is destroyed is undefined.
  unfoldable pub run_sender : ℕ → Sender → Outcome Sender
  unfolding run_write_one run_write call_at
  run_sender h p =
      if h == main
      then run_write_one p
      else elim (call_at h (p.futs)) [ none ↦ undefined | some k ↦ run_write h k p ]

-- ===== src/Coro/Ending.antt =====
-- A coroutine that has ended or is destroyed.
use aws_efa_examples.Common.{ℕ, ◌≡◌, ◌≢◌, ok, undefined, arith}
use aws_efa_examples.Coro.Values.{set_value, value}
use aws_efa_examples.Loop.Io.{Io, call, cancel_handle, cancel_call}
use aws_efa_examples.Coro.{
  returns, ended, Coros, Turn, awaits, final_suspend, finish_turn, resume, destroy_coro, set_value,
}

module _ {ℓ} {A : Type ℓ} where
  -- A turn that ends the coroutine is its last: to resume it again is undefined.
  pub resume_again :
      (body : ℕ → Coros A → Coros A × Turn A) (h : ℕ) (w w' : Coros A)
      → resume body h w ≡ ok w'
      → (body h w).1 ≢ awaits
      → resume body h w' ≡ undefined
  unfolding resume finish_turn final_suspend
  resume_again body h w w' r t = ground arith

  -- A Coro that is destroyed while its handle is queued leaves the handle in the queues, since
  -- IO::Cancel does nothing, and the turn that it gets there is undefined.
  pub destroy_coro-queued :
      (body : ℕ → Coros A → Coros A × Turn A) (h : ℕ) (w : Coros A)
      → h ≢ 0
      → ((destroy_coro h w).io.ready ≡ w.io.ready)
        × ((destroy_coro h w).io.schedule ≡ w.io.schedule)
        × (resume body h (destroy_coro h w) ≡ undefined)
  unfolding destroy_coro resume cancel_handle cancel_call
  destroy_coro-queued body h w n = ground arith

  -- A coroutine that another awaits, and that returns, calls its awaiter, and changes nothing else but
  -- its own promise.
  pub finish_turn_lem :
      (h : ℕ) (a : A) (w : Coros A)
      → (w.promises h).next ≢ 0
      → let w' = finish_turn h (returns a) w in
        (w'.io ≡ call (w.promises h).next w.io)
        × (w'.promises h ≡ record (w.promises h) { held = value a; status = ended })
        × ((k : ℕ) → h ≢ k → w'.promises k ≡ w.promises k)
  unfolding finish_turn final_suspend set_value
  finish_turn_lem h a w n = (ground arith, ground arith, λ k f. ground arith)

pub cancel_handle_lem : (h : ℕ) (io : Io) → cancel_handle h io ≡ io
unfolding cancel_handle cancel_call
cancel_handle_lem h io = ground arith

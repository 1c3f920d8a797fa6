-- ===== src/Pingpong.antt =====
-- src/efa: the program of an earlier stage, in which two ranks send each other one message. Its
-- Buffer keeps a region for each domain, its Conn uses buffers of its caller, and its Selector knows
-- no remote writes. Its event loop and Net are those of src/batch.
pub mod Regions
pub mod Selecting
use Prim.Native.String.{String}
use aws_efa_examples.Common.{
  ℕ, zero, suc, ◌+◌, ◌-◌, ◌*◌, ◌/◌, ◌%◌, ◌^◌, ◌≤◌, ◌<◌, ◌≡◌, ◌≢◌, ◌⊎◌, ◌↔◌, refl, sym, ap, ◌∙◌,
  subst, Bool, true, false, not, ◌&&◌, ◌||◌, inl, inr, Option, none, some, List, [], ◌∷◌, ◌++◌, map,
  append_assoc, append-nil, map-append, ltb, leb, ◌==◌, if◌then◌else◌, Bool-cases, Option-cases,
  ==_iff, ==-self, ne→==, le→leb, leb→le, lt→ltb, le→ltb, keep, filter_map, concat_map, All,
  All-append, count, count-append, length, length-append, length-map, take, drop, Outcome, ok,
  throw, undefined, Exception, check_failed, assertion, invalid_argument, runtime_error,
  out_of_range, ◌>>=◌, ◌>>◌, ensure, require, >>=-eq-ok, lookup, emplace, erase, contains, add,
  remove, arith,
}
use aws_efa_examples.Loop.Defs.{
  State, unschedule, scheduled, suspend, is_unschedule, Handle, Entry, Context, Event, Memory,
  update, set_state, set_entry, set_handle,
}
use aws_efa_examples.Loop.Timers.{Task, before, push, expire}
use aws_efa_examples.Loop.Selector.{
  Selector, CqRead, entries, error_available, again, failed, select,
}
use aws_efa_examples.Loop.Io.{
  Io, state_of, call, call_after, schedule_handle, cancel_handle, stopped, register_cq,
  unregister_cq, register_context, unregister_context, call_events, select_events, take_front,
  run_ready, runone, Round, run_loop,
}
use aws_efa_examples.Loop.Selector.{has}
use aws_efa_examples.Loop.Selector.Wakes.{handle_of, context_of, event_of}
use aws_efa_examples.Buffer.{
  Buffer, k_buffer_size, k_align, word, align_up, usable, RegAnswer, registered, refused, new_host,
  bind, host_body,
}
use aws_efa_examples.Buffer.Alignment.{usable_bounds, align_up_bounds}
use aws_efa_examples.Conn.{
  Fabric, Conn, World, FiMsg, FiMsgRma, Posted, recvmsg, sendmsg, writemsg, waiting, begin_wait,
  memcpy, recv_suspend, send_suspend, write_suspend, remote_write_suspend, recv, send, write, read,
  recv_resume, send_resume, write_resume, remote_write_resume,
}
use aws_efa_examples.Loop.Selector.{handle_error, deliver}
use aws_efa_examples.Buffer.{Release, close_mr, free}

-- The class Buffer of src/efa.
pub record DomainBuffer : Type 0 where
  pub raw : ℕ
  pub start : ℕ
  pub size : ℕ
  pub mrs : List (ℕ × ℕ)

unfoldable pub new_buffer : (size align raw : ℕ) → Outcome DomainBuffer
unfolding align_up usable
new_buffer size align raw =
    if raw == 0
    then throw (assertion "raw_")
    else ok (record {
      raw = raw;
      start = align_up raw align;
      size = usable raw size (align_up raw align);
      mrs = [];
    })

-- Buffer::Register, where fi_mr_regattr answers by the domain, the address and the size.
unfoldable pub register_domain :
    (regattr : ℕ → ℕ → ℕ → RegAnswer) (domain : ℕ) → DomainBuffer → Outcome DomainBuffer
unfolding bind lookup emplace
register_domain regattr domain b = elim (lookup domain (b.mrs)) [
  | some mr ↦ ok b
  | none ↦ bind (regattr domain (b.start) (b.size)) >>= λ mr.
      ok (record b { mrs = emplace domain mr (b.mrs) })
]

-- Buffer::GetMR.
unfoldable pub get_mr : (domain : ℕ) → DomainBuffer → Outcome ℕ
unfolding lookup
get_mr domain b =
    if domain == 0
    then throw (assertion "!!domain")
    else elim (lookup domain (b.mrs)) [ some mr ↦ ok mr | none ↦ throw out_of_range ]

-- ~Buffer.
unfoldable pub destroy_buffer : DomainBuffer → List Release
destroy_buffer b =
    map (λ e. close_mr (e.1)) (b.mrs) ++ (if b.raw == 0 then [] else free (b.raw) ∷ [])

-- The class Conn of src/efa.
pub record BareConn : Type 0 where
  pub ep : ℕ
  pub domain : ℕ
  pub remote : ℕ

-- The code of the call that posts a message.
abbrev posts : String → (Posted → ℕ) → Posted → Outcome Posted
posts name post p = if post p == 0 then ok p else throw (check_failed name (post p))

module _ (fi : Fabric) (post : Posted → ℕ) (conn : BareConn) (c co : ℕ) where
  -- recv_awaiter and send_awaiter: await_suspend. The region is looked up after the suspension began.
  unfoldable pub bare_recv_suspend : DomainBuffer → (size : ℕ) → World → World × Outcome Posted
  unfolding get_mr
  bare_recv_suspend b size w = (
    begin_wait c co w,
    get_mr (conn.domain) b >>= λ mr. posts "fi_recvmsg" post (
        recvmsg
          (record { base = b.start; len = size; desc = mr; addr = fi.addr_unspec; context = c })),
  )

  unfoldable pub bare_send_suspend : DomainBuffer → (size : ℕ) → World → World × Outcome Posted
  unfolding get_mr
  bare_send_suspend b size w = (
    begin_wait c co w,
    get_mr (conn.domain) b >>= λ mr. posts "fi_sendmsg" post (
        sendmsg
          (record { base = b.start; len = size; desc = mr; addr = conn.remote; context = c })),
  )

  -- Recv and Send up to their suspension.
  unfoldable pub bare_recv : DomainBuffer → (sz : ℕ) → World → World × Outcome Posted
  unfolding bare_recv_suspend
  bare_recv b sz w =
      if sz == 0
      then (w, throw (invalid_argument "Recv buffer size should be greater than 0"))
      else bare_recv_suspend b sz w

  unfoldable pub bare_send : DomainBuffer → (sz : ℕ) → World → World × Outcome Posted
  unfolding bare_send_suspend
  bare_send b sz w =
      if sz == 0
      then (w, throw (invalid_argument "Send buffer size should be greater than 0"))
      else bare_send_suspend b sz w

-- await_resume, by the entry that the context holds.
unfoldable pub bare_recv_resume : Fabric → Entry → Outcome ℕ
bare_recv_resume fi e =
    if has (e.flags) (fi.recv) then ok (e.len) else throw (runtime_error "Invalid cq recv flags.")

unfoldable pub bare_send_resume : Fabric → Entry → Outcome ℕ
bare_send_resume fi e =
    if has (e.flags) (fi.send) then ok (e.len) else throw (runtime_error "Invalid cq send flags.")

-- Selector::HandleCompletion of src/efa, and the body of its loop.
unfoldable pub bare_complete : Entry → Memory × List Event → Memory × List Event
bare_complete e s = if e.op_context == 0 then s else deliver e (e.op_context) s

unfoldable pub bare_handle_completion : List Entry → Memory × List Event → Memory × List Event
unfolding bare_complete
bare_handle_completion [] s = s
bare_handle_completion (e ∷ es) s = bare_handle_completion es (bare_complete e s)

-- Selector::Select of src/efa.
unfoldable pub bare_poll :
    (ℕ → CqRead) → List ℕ → Memory × List Event → Outcome (Memory × List Event)
unfolding bare_handle_completion handle_error
bare_poll read [] s = ok s
bare_poll read (cq ∷ cqs) s = elim (read cq) [
  | entries es ↦ bare_poll read cqs (bare_handle_completion es s)
  | error_available r ↦ throw (handle_error r)
  | again ↦ bare_poll read cqs s
  | failed rc ↦ throw (check_failed "fi_cq_read" rc)
]

unfoldable pub bare_select : (ℕ → CqRead) → (cqs : List ℕ) → Memory → Outcome (Memory × List Event)
unfolding bare_poll
bare_select read cqs m = bare_poll read cqs (m, [])

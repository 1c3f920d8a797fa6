-- ===== src/Conn/Wakeups.antt =====
-- Which completion resumes which coroutine, from the awaiter to the selector and back.
use aws_efa_examples.Common.{
  ne→==, sym, ap, List, [], ◌∷◌, ℕ, ◌≡◌, ◌≢◌, ◌∙◌, true, false, Outcome, ok, ◌>>=◌, arith,
}
use aws_efa_examples.Loop.Defs.{suspend, Entry, Event, Memory}
use aws_efa_examples.Loop.Io.{state_of}
use aws_efa_examples.Loop.Selector.{has, complete, handle_completion}
use aws_efa_examples.Conn.{
  Fabric, Conn, World, Posted, recvmsg, sendmsg, writemsg, waiting, begin_wait, memcpy, recv, send,
  write, recv_resume, send_resume, write_resume,
}

-- HandleCompletion on one entry, in the state of a world: the memory and the events afterwards.
abbrev pub completed : Fabric → World → Entry → Memory × List Event
completed fi w e =
    handle_completion fi.remote_write w.io.selector.imm_data_contexts (e ∷ []) (w.io.memory, [])

-- The calls that post an operation.
pub data Operation : Type 0 where
  receives : (sz : ℕ) → Operation
  sends : (src sz : ℕ) → Operation
  writes : (src sz addr key imm_data : ℕ) → Operation

module _ (fi : Fabric) (post : Posted → ℕ) (conn : Conn) (c co : ℕ) where
  abbrev pub begin : Operation → World → World × Outcome Posted
  begin (receives sz) = recv fi post conn c co sz
  begin (sends src sz) = send fi post conn c co src sz
  begin (writes src sz addr key imm_data) = write fi post conn c co src sz addr key imm_data

abbrev pub mask_of : Fabric → Operation → ℕ
mask_of fi (receives _) = fi.recv
mask_of fi (sends _ _) = fi.send
mask_of fi (writes _ _ _ _ _) = fi.write

-- The number of bytes that the resumed call returns.
abbrev pub finish : Fabric → Conn → Entry → Operation → Outcome ℕ
finish fi conn e (receives _) = recv_resume fi conn e >>= λ r. ok r.1
finish fi conn e (sends _ _) = send_resume fi conn e
finish fi conn e (writes _ _ _ _ _) = write_resume fi conn e

abbrev pub context_in : Posted → ℕ
context_in (recvmsg m) = m.context
context_in (sendmsg m) = m.context
context_in (writemsg m) = m.context
context_in waiting = 0

begin_wait-completed :
    (fi : Fabric) (c co : ℕ) (w : World) (bytes : ℕ → ℕ) (e : Entry)
    → c ≢ 0
    → e.op_context ≡ c
    → has e.flags fi.remote_write ≡ false
    → let (m, events) = completed fi (begin_wait c co (record w { bytes = bytes })) e in
      (events ≡ record { flags = e.flags; handle = co } ∷ []) × ((m.contexts c).entry ≡ e)
unfolding handle_completion complete
begin_wait-completed fi c co w bytes e n o f =
    rw (f, handle_completion, ne→== e.op_context 0 (λ z. n (sym o ∙ z)), o)
      (ground arith, ground arith)

begin-eq-ok :
    (fi : Fabric) (post : Posted → ℕ) (conn : Conn) (c co : ℕ) (op : Operation) (w w' : World)
    (p : Posted)
    → begin fi post conn c co op w ≡ (w', ok p)
    → (bytes : ℕ → ℕ) × (w' ≡ begin_wait c co (record w { bytes = bytes })) × (context_in p ≡ c)
unfolding recv send write
begin-eq-ok fi post conn c co (receives sz) w w' p b = (w.bytes, ground arith, ground arith)
begin-eq-ok fi post conn c co (sends src sz) w w' p b =
    (memcpy conn.send_buffer.start src sz w.bytes, ground arith, ground arith)
begin-eq-ok fi post conn c co (writes src sz addr key imm_data) w w' p b =
    (w.bytes, ground arith, ground arith)

finish-eq-ok :
    (fi : Fabric) (conn : Conn) (e : Entry) (op : Operation)
    → has e.flags (mask_of fi op) ≡ true
    → finish fi conn e op ≡ ok e.len
unfolding recv_resume send_resume write_resume
finish-eq-ok fi conn e (receives sz) m = ground arith
finish-eq-ok fi conn e (sends src sz) m = ground arith
finish-eq-ok fi conn e (writes src sz addr key imm_data) m = ground arith

-- A posted operation and its completion belong together. Where libfabric takes the call, the coroutine is
-- suspended and the posted context is the awaiter's, which is not null. When HandleCompletion then gets any
-- entry for that context which is no remote write and has the operation's flag, the one event that it
-- makes is for this coroutine, with the entry's flags, and the entry is in the context, from where
-- the resumed call takes it and returns its length.
pub begin-finish :
    (fi : Fabric) (post : Posted → ℕ) (conn : Conn) (c co : ℕ) (op : Operation) (w w' : World)
    (p : Posted) (e : Entry)
    → begin fi post conn c co op w ≡ (w', ok p)
    → c ≢ 0
    → e.op_context ≡ context_in p
    → has e.flags fi.remote_write ≡ false
    → has e.flags (mask_of fi op) ≡ true
    → let (m, events) = completed fi w' e in
      (state_of w'.io co ≡ suspend)
      × (context_in p ≡ c)
      × (events ≡ record { flags = e.flags; handle = co } ∷ [])
      × ((m.contexts c).entry ≡ e)
      × (finish fi conn ((m.contexts c).entry) op ≡ ok e.len)
begin-finish fi post conn c co op w w' p e b n o f m =
    let (bytes, world, context) = begin-eq-ok fi post conn c co op w w' p b in
    let (events, stored) = begin_wait-completed fi c co w bytes e n (o ∙ context) f in
    let there : ((completed fi w' e).0.contexts c).entry ≡ e =
      ap (λ (w : World). ((completed fi w e).0.contexts c).entry) world ∙ stored in
    (
      rw world (ground arith),
      context,
      ap (λ (w : World). (completed fi w e).1) world ∙ events,
      there,
      ap (λ e. finish fi conn e op) there ∙ finish-eq-ok fi conn e op m,
    )

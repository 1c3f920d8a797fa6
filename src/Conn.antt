-- ===== src/Conn.antt =====
-- src/batch/include/common/conn.h: the class Conn with its four awaiters. A coroutine function is
-- modelled up to its suspension and from its resumption on. The pointers are numbers; `bytes` is what
-- lies in memory. The codes of libfabric's calls, and its flags, are arguments.
pub mod Wakeups
pub mod RemoteWrites
pub mod Bounds
pub mod Lifetime
use Prim.Native.String.{String}
use aws_efa_examples.Common.{
  ℕ, ◌+◌, ◌-◌, ◌&&◌, ltb, leb, ◌==◌, if◌then◌else◌, Outcome, ok, throw, undefined, check_failed,
  invalid_argument, runtime_error,
}
use aws_efa_examples.Loop.Defs.{suspend, Entry, set_state, set_handle}
use aws_efa_examples.Loop.Io.{Io, register_context, unregister_context}
use aws_efa_examples.Loop.Selector.{has}
use aws_efa_examples.Buffer.{Buffer}
use aws_efa_examples.Buffer.Cuda.{CudaBuffer}

-- FI_RECV, FI_SEND, FI_WRITE, FI_REMOTE_WRITE, FI_REMOTE_CQ_DATA and FI_ADDR_UNSPEC.
pub record Fabric : Type 0 where
  pub recv : ℕ
  pub send : ℕ
  pub write : ℕ
  pub remote_write : ℕ
  pub remote_cq_data : ℕ
  pub addr_unspec : ℕ

pub record Conn : Type 0 where
  pub ep : ℕ
  pub remote : ℕ
  pub recv_buffer : Buffer
  pub send_buffer : Buffer
  pub read_buffer : CudaBuffer
  pub write_buffer : CudaBuffer

pub record World : Type 0 where
  pub io : Io
  pub bytes : ℕ → ℕ

-- struct fi_msg with its one iovec.
pub record FiMsg : Type 0 where
  pub base : ℕ
  pub len : ℕ
  pub desc : ℕ
  pub addr : ℕ
  pub context : ℕ

-- struct fi_msg_rma with its iovec and its remote iovec, and the flags of the call.
pub record FiMsgRma : Type 0 where
  pub base : ℕ
  pub len : ℕ
  pub desc : ℕ
  pub addr : ℕ
  pub context : ℕ
  pub rma_addr : ℕ
  pub rma_len : ℕ
  pub rma_key : ℕ
  pub imm : ℕ
  pub flags : ℕ

pub data Posted : Type 0 where
  recvmsg sendmsg : FiMsg → Posted
  writemsg : FiMsgRma → Posted
  -- A reader posts nothing.
  waiting : Posted

-- The name of the call, for its CHECK.
abbrev check : String → (Posted → ℕ) → Posted → Outcome Posted
check name post p = if post p == 0 then ok p else throw (check_failed name (post p))

-- The first two lines of each await_suspend.
abbrev pub begin_wait : (context coroutine : ℕ) → World → World
begin_wait c co w = record w {
  io = record w.io { memory = set_handle c co (set_state co suspend w.io.memory) };
}

-- std::memcpy.
abbrev pub memcpy : (dst src n : ℕ) → (ℕ → ℕ) → ℕ → ℕ
memcpy dst src n bytes q = if leb dst q && ltb q (dst + n) then bytes (src + (q - dst)) else bytes q

module _ (fi : Fabric) (post : Posted → ℕ) (conn : Conn) (c co : ℕ) where
  -- recv_awaiter, send_awaiter, write_awaiter and remote_write_awaiter: await_suspend.
  unfoldable pub recv_suspend : (size : ℕ) → World → World × Outcome Posted
  recv_suspend size w = (
    begin_wait c co w,
    check "fi_recvmsg" post (
        recvmsg (record {
          base = conn.recv_buffer.start;
          len = size;
          desc = conn.recv_buffer.mr;
          addr = fi.addr_unspec;
          context = c;
        })),
  )

  unfoldable pub send_suspend : (size : ℕ) → World → World × Outcome Posted
  send_suspend size w = (
    begin_wait c co w,
    check "fi_sendmsg" post (
        sendmsg (record {
          base = conn.send_buffer.start;
          len = size;
          desc = conn.send_buffer.mr;
          addr = conn.remote;
          context = c;
        })),
  )

  unfoldable pub write_suspend : (size addr key imm_data : ℕ) → World → World × Outcome Posted
  write_suspend size addr key imm_data w = (
    begin_wait c co w,
    check "fi_writemsg" post (
        writemsg (record {
          base = conn.write_buffer.start;
          len = size;
          desc = conn.write_buffer.mr;
          addr = conn.remote;
          context = c;
          rma_addr = addr;
          rma_len = size;
          rma_key = key;
          imm = imm_data;
          flags = if imm_data == 0 then 0 else fi.remote_cq_data;
        })),
  )

  unfoldable pub remote_write_suspend : (imm_data : ℕ) → World → World × Outcome Posted
  unfolding register_context
  remote_write_suspend imm_data w =
      let w' = begin_wait c co w in
      (record w' { io = register_context imm_data c w'.io }, ok waiting)

  -- Recv, Send, Write and Read up to their suspension.
  unfoldable pub recv : (sz : ℕ) → World → World × Outcome Posted
  unfolding recv_suspend
  recv sz w =
      if sz == 0
      then (w, throw (invalid_argument "Recv buffer size should be greater than 0"))
      else recv_suspend sz w

  unfoldable pub send : (src sz : ℕ) → World → World × Outcome Posted
  unfolding send_suspend
  send src sz w =
      if src == 0
      then (w, throw (invalid_argument "Send data is NULL"))
      else if sz == 0
      then (w, throw (invalid_argument "Send buffer size should be greater than 0"))
      else if ltb conn.send_buffer.size sz
      then (w, undefined)
      else send_suspend sz (record w { bytes = memcpy conn.send_buffer.start src sz w.bytes })

  -- The test of `data` makes an exception and does not throw it.
  unfoldable pub write : (src sz addr key imm_data : ℕ) → World → World × Outcome Posted
  unfolding write_suspend
  write src sz addr key imm_data w =
      if sz == 0
      then (w, throw (invalid_argument "Write buffer size should be greater than 0"))
      else write_suspend sz addr key imm_data w

  unfoldable pub read : (imm_data : ℕ) → World → World × Outcome Posted
  unfolding remote_write_suspend
  read imm_data w =
      if imm_data == 0
      then (w, throw (invalid_argument "imm_data should be greater than 0"))
      else remote_write_suspend imm_data w

-- await_resume, by the entry that the context holds.
module _ (fi : Fabric) (conn : Conn) (entry : Entry) where
  unfoldable pub recv_resume : Outcome (ℕ × ℕ)
  recv_resume =
      if has entry.flags fi.recv
      then ok (conn.recv_buffer.start, entry.len)
      else throw (runtime_error "Invalid cq recv flags.")

  unfoldable pub send_resume : Outcome ℕ
  send_resume =
      if has entry.flags fi.send
      then ok entry.len
      else throw (runtime_error "Invalid cq send flags.")

  unfoldable pub write_resume : Outcome ℕ
  write_resume =
      if has entry.flags fi.write
      then ok entry.len
      else throw (runtime_error "Invalid cq write flags.")

  unfoldable pub remote_write_resume : (imm_data : ℕ) → World → World × Outcome ℕ
  unfolding unregister_context
  remote_write_resume imm_data w =
      if has entry.flags fi.remote_write
      then (record w { io = unregister_context imm_data w.io }, ok conn.read_buffer.start)
      else (w, throw (runtime_error "Invalid remote write flags."))

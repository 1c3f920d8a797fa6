-- ===== src/Conn/Bounds.antt =====
-- What the posted messages cover of the buffers.
use aws_efa_examples.Common.{ℕ, ◌+◌, ◌%◌, ◌≤◌, ◌<◌, ◌≡◌, ◌↔◌, ok, arith}
use aws_efa_examples.Buffer.{
  Buffer, k_buffer_size, k_align, word, align_up, usable, RegAnswer, new_host,
}
use aws_efa_examples.Buffer.Alignment.{usable_bounds, align_up_bounds}
use aws_efa_examples.Conn.{Fabric, Conn, World, FiMsg, Posted, recvmsg, sendmsg, recv, send}

-- A Send that posts a message has put the caller's bytes into it, all of them and within the send
-- buffer.
pub send-carries :
    (fi : Fabric) (post : Posted → ℕ) (conn : Conn) (c co src sz i : ℕ) (w w' : World) (m : FiMsg)
    → send fi post conn c co src sz w ≡ (w', ok (sendmsg m))
    → i < sz
    → (m.len ≡ sz)
      × (w'.bytes (m.base + i) ≡ w.bytes (src + i))
      × (m.base + m.len ≤ conn.send_buffer.start + conn.send_buffer.size)
unfolding send
send-carries fi post conn c co src sz i w w' m e h = ground arith

new_host-eq-ok :
    (domain size align raw : ℕ) (regattr : ℕ → ℕ → RegAnswer) (b : Buffer)
    → (new_host domain size align raw regattr).0 ≡ ok b
    → (b.start ≡ align_up raw align) × (b.size ≡ usable raw size (align_up raw align))
unfolding new_host
new_host-eq-ok domain size align raw regattr b e = ground arith

-- For a receive buffer that its constructor made with the default size and alignment, where the
-- allocation does not wrap: a message that Recv posts stays in what malloc returned just where its length is at most the
-- buffer's size; with the default length that holds only if malloc's address was aligned already.
pub recv_bounds :
    (fi : Fabric) (post : Posted → ℕ) (conn : Conn) (c co domain raw sz : ℕ)
    (regattr : ℕ → ℕ → RegAnswer) (w w' : World) (m : FiMsg)
    → (new_host domain k_buffer_size k_align raw regattr).0 ≡ ok conn.recv_buffer
    → raw + k_buffer_size < word
    → recv fi post conn c co sz w ≡ (w', ok (recvmsg m))
    → ((m.base + m.len ≤ raw + k_buffer_size) ↔ (sz ≤ conn.recv_buffer.size))
      × ((k_buffer_size ≤ conn.recv_buffer.size) ↔ (raw % k_align ≡ 0))
unfolding recv
recv_bounds fi post conn c co domain raw sz regattr w w' m b fits e = ground (
  arith,
  new_host-eq-ok domain k_buffer_size k_align raw regattr conn.recv_buffer b,
  usable_bounds raw k_buffer_size fits (omega arith) (omega arith),
  align_up_bounds raw 7 (omega arith) (omega arith),
)

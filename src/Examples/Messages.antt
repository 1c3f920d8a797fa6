-- ===== src/Examples/Messages.antt =====
-- Sends, receives, writes and reads of one connection.
use aws_efa_examples.Common.{
  ℕ, ◌+◌, ◌%◌, ◌≤◌, ◌≡◌, ◌↔◌, refl, none, some, [], ◌∷◌, ok, lookup, emplace, arith,
}
use aws_efa_examples.Loop.Defs.{suspend}
use aws_efa_examples.Loop.Io.{state_of}
use aws_efa_examples.Loop.Selector.Wakes.{context_of}
use aws_efa_examples.Buffer.{Buffer, k_buffer_size, k_align, RegAnswer, registered, new_host}
use aws_efa_examples.Conn.{
  Fabric, Conn, World, FiMsg, Posted, recvmsg, sendmsg, waiting, begin_wait, memcpy, recv, send,
  read, remote_write_resume, FiMsgRma, write, writemsg,
}
use aws_efa_examples.Buffer.Cuda.{CudaBuffer}
use aws_efa_examples.Conn.Wakeups.{completed, sends, finish, context_in, begin-finish}
use aws_efa_examples.Conn.RemoteWrites.{wakes, context_of-read, read-finish}
use aws_efa_examples.Conn.Bounds.{recv_bounds}
use aws_efa_examples.Writer.{CudaRegion, Pages}
use aws_efa_examples.Writer.Targets.{write-first_page}
use aws_efa_examples.Examples.{entry, idle}

-- libfabric's masks, at small bits.
abbrev pub fabric : Fabric
fabric = record {
  recv = 1;
  send = 2;
  write = 4;
  remote_write = 8;
  remote_cq_data = 16;
  addr_unspec = 0;
}

abbrev cuda_buffer : ℕ → CudaBuffer
cuda_buffer start = record {
  base = record { raw = start; start = start; size = 4096; mr = 3 };
  dmabuf_fd = some 9;
  device = some 0;
}

-- malloc returned 1000, which is not aligned.
abbrev recv_buffer : Buffer
recv_buffer = record { raw = 1000; start = 1024; size = 8105; mr = 2 }

abbrev pub connection : Conn
connection = record {
  ep = 1;
  remote = 77;
  recv_buffer = recv_buffer;
  send_buffer = record { raw = 16384; start = 16384; size = 8129; mr = 2 };
  read_buffer = cuda_buffer 65536;
  write_buffer = cuda_buffer 131072;
}

abbrev world : World
world = record { io = idle; bytes = λ p. p % 256 }

abbrev pub posted : Posted → ℕ
posted p = 0

-- Handle 50 sends 64 bytes from address 100 with the awaiter's context at 9.
abbrev sending : World
sending = begin_wait 9 50 (record world { bytes = memcpy 16384 100 64 world.bytes })

abbrev message : FiMsg
message = record { base = 16384; len = 64; desc = 2; addr = 77; context = 9 }

send_64 : send fabric posted connection 9 50 100 64 world ≡ (sending, ok (sendmsg message))
unfolding send
send_64 = refl

begin-finish_example :
    (state_of sending.io 50 ≡ suspend)
    × (context_in (sendmsg message) ≡ 9)
    × ((completed fabric sending (entry 9 2 64 0)).1 ≡ record { flags = 2; handle = 50 } ∷ [])
    × (((completed fabric sending (entry 9 2 64 0)).0.contexts 9).entry ≡ entry 9 2 64 0)
    × (finish fabric connection
          (((completed fabric sending (entry 9 2 64 0)).0.contexts 9).entry)
          (sends 100 64)
        ≡ ok 64)
begin-finish_example =
    begin-finish fabric posted connection 9 50 (sends 100 64) world sending (sendmsg message)
      (entry 9 2 64 0) send_64 (omega arith) refl refl refl

-- Handle 60 waits for remote writes with the data 0x77.
abbrev reading : World
reading = record (begin_wait 4 60 world) {
  io = record (begin_wait 4 60 world).io {
    selector = record { cqs = 7 ∷ []; imm_data_contexts = (0x123, 5) ∷ (0x77, 4) ∷ [] };
  };
}

read_77 : read fabric posted connection 4 60 0x77 world ≡ (reading, ok waiting)
unfolding read emplace
read_77 = refl

fresh_77 : lookup 0x77 idle.selector.imm_data_contexts ≡ none
unfolding lookup
fresh_77 = refl

context_of-read_example :
    context_of 8 reading.io.selector.imm_data_contexts (entry 0 8 0 0x77) ≡ some 4
unfolding lookup
context_of-read_example =
    context_of-read fabric posted connection 4 60 0x77 world reading waiting (entry 0 8 0 0x77)
      read_77

read-finish_example :
    (wakes fabric reading (entry 0 8 0 0x77) ≡ some (record { flags = 8; handle = 60 }))
    × (state_of reading.io 60 ≡ suspend)
    × ((remote_write_resume fabric connection (entry 0 8 0 0x77) 0x77 reading).1 ≡ ok 65536)
    × (wakes fabric
          (remote_write_resume fabric connection (entry 0 8 0 0x77) 0x77 reading).0
          (entry 0 8 0 0x77)
        ≡ none)
read-finish_example =
    read-finish fabric posted connection 4 60 0x77 world reading waiting (entry 0 8 0 0x77)
      (entry 0 8 0 0x77) read_77 fresh_77 refl refl refl refl

abbrev answer : ℕ → ℕ → RegAnswer
answer start size = registered 2

made_at_1000 : (new_host 1 k_buffer_size k_align 1000 answer).0 ≡ ok recv_buffer
unfolding new_host
made_at_1000 = refl

abbrev received : FiMsg
received = record { base = 1024; len = 8129; desc = 2; addr = 0; context = 9 }

recv_default :
    recv fabric posted connection 9 50 k_buffer_size world
    ≡ (begin_wait 9 50 world, ok (recvmsg received))
unfolding recv
recv_default = refl

recv_bounds_example :
    ((1024 + 8129 ≤ 1000 + 8129) ↔ (8129 ≤ 8105)) × ((8129 ≤ 8105) ↔ (1000 % k_align ≡ 0))
recv_bounds_example =
    recv_bounds fabric posted connection 9 50 1 1000 k_buffer_size answer world
      (begin_wait 9 50 world) received made_at_1000 (omega arith) recv_default

abbrev pages : Pages
pages = record { cuda_buffer = 131072; page_size = 1024; num_pages = 3 }

abbrev region : CudaRegion
region = record { addr = 8192; size = 3072; key = 5 }

abbrev second_page : FiMsgRma
second_page = record {
  base = 131072;
  len = 1024;
  desc = 3;
  addr = 77;
  context = 9;
  rma_addr = 9216;
  rma_len = 1024;
  rma_key = 5;
  imm = 0;
  flags = 0;
}

write_second :
    write fabric posted connection 9 50 132096 1024 9216 5 0 world
    ≡ (begin_wait 9 50 world, ok (writemsg second_page))
unfolding write
write_second = refl

write-first_page_example : (second_page.rma_addr ≡ 8192 + 1024) × (131072 + 1024 ≡ 132096)
write-first_page_example =
    write-first_page fabric posted connection 9 50 1 pages region world (begin_wait 9 50 world)
      second_page refl (omega arith) write_second

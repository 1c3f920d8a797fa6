-- ===== src/Examples/Agreements.antt =====
-- The agreement of two ranks, and the list of EFA devices.
use aws_efa_examples.Common.{ℕ, ◌+◌, ◌*◌, ◌/◌, ◌≡◌, refl, ap, [], ◌∷◌, count, ok, arith}
use aws_efa_examples.Buffer.{k_memory_region_size}
use aws_efa_examples.Session.{
  Bytes, Message, msgsize, alloc, reader_handshake, writer_handshake, remote_of, write_passes,
}
use aws_efa_examples.Session.Gather.{Gathers, remote_of-addr}
use aws_efa_examples.Session.Handshake.{writer_handshake-alloc}
use aws_efa_examples.Session.Passes.{write_passes-total}
use aws_efa_examples.Efa.{new_efa, efa_life, new_efa-destroy_efa}

-- An all-gather of blocks of 64 bytes.
abbrev gather : (ℕ → Bytes) → ℕ → Bytes
gather buffers rank i = buffers (i / 64) i

gather-Gathers : Gathers 2 gather
gather-Gathers buffers rank i o r p h = ap (λ k. buffers k (i * 64 + o)) block
  where
    block : (i * 64 + o) / 64 ≡ i
    block = omega arith

remote_of-addr_example : remote_of gather (λ rank o. 10 * rank + o) 0 1 5 ≡ 15
remote_of-addr_example =
    remote_of-addr gather (λ rank o. 10 * rank + o) 2 0 1 5 gather-Gathers (omega arith)
      (omega arith) (omega arith)

abbrev blank : Message
blank = record {
  rank = 0;
  num = 0;
  seed = 0;
  regions = λ i. record { addr = 0; size = 0; key = 0 };
}

writer_handshake-alloc_example :
    (reader_handshake (alloc 1 99 4096 7 blank) 48 ≡ ok tt)
    × (writer_handshake 1 (alloc 1 99 4096 7 blank) 48
        ≡ ok (99, record { addr = 4096; size = k_memory_region_size; key = 7 } ∷ []))
unfolding alloc msgsize
writer_handshake-alloc_example = writer_handshake-alloc 1 1 99 4096 7 blank

write_passes-total_example :
    write_passes
      (λ k j. ok 1024)
      (record { cuda_buffer = 65536; page_size = 1024; num_pages = 3 })
      (record { addr = 8192; size = 3072; key = 5 } ∷ [])
      0
      10
      0
      0
    ≡ ok (30, 30)
write_passes-total_example =
    write_passes-total (λ k j. ok 1024) (λ k j. 1024)
      (record { cuda_buffer = 65536; page_size = 1024; num_pages = 3 })
      (record { addr = 8192; size = 3072; key = 5 } ∷ []) 0 10 0 0 (λ k j. refl)

-- fi_getinfo fails, and has written a list.
new_efa-destroy_efa_example : count 8 (efa_life (new_efa 7 (record { rc = 61; info = 8 }))) ≡ 1
new_efa-destroy_efa_example = new_efa-destroy_efa 7 (record { rc = 61; info = 8 }) 8

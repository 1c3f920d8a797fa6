-- ===== src/Examples/Agreed.antt =====
-- A writer and a reader together: two passes over two pages.
use aws_efa_examples.Common.{outcome_of, ℕ, ◌≡◌, refl, [], ◌∷◌, ok, Outcome, arith}
use aws_efa_examples.Writer.{CudaRegion, Batch, Pages, write_one}
use aws_efa_examples.Writer.Requests.{requests}
use aws_efa_examples.Session.{Message, alloc, writer_handshake}
use aws_efa_examples.Buffer.{k_memory_region_size}
use aws_efa_examples.Reader.{Process, read_from}
use aws_efa_examples.Reader.States.{IsFinished}
use aws_efa_examples.Reader.Hearing.{loop}
use aws_efa_examples.Transfer.{IsPass, passes-IsFinished}
use aws_efa_examples.Examples.Messages.{fabric, connection, posted}
use aws_efa_examples.Examples.Readers.{frame, context, process, process-IsDeaf, notice, told}

abbrev old : Message
old = record { rank = 0; num = 0; seed = 0; regions = λ i. record { addr = 0; size = 0; key = 0 } }

abbrev region : CudaRegion
region = record { addr = 8192; size = k_memory_region_size; key = 5 }

accepted : writer_handshake 1 (alloc 1 7 8192 5 old) 48 ≡ ok (7, region ∷ [])
unfolding writer_handshake alloc
accepted = refl

abbrev pages : Pages
pages = record { cuda_buffer = 4096; page_size = 1024; num_pages = 2 }

abbrev sent_once : Batch
sent_once = record { futs = []; ops = 2; sent = 2; posted = requests pages (region ∷ []) }

abbrev await_all : ℕ → Outcome ℕ
await_all j = ok 1024

one_pass : outcome_of (write_one await_all pages (region ∷ []) 0 0) ≡ ok sent_once
unfolding write_one
one_pass = refl

passed : IsPass pages (region ∷ []) sent_once
passed = (await_all, 0, 0, one_pass)

passes-IsFinished_example :
    (process' : Process) × (loop fabric posted connection 0x123 10 frame context
        ((0, []) ∷ (1, []) ∷ (2, notice ∷ []) ∷ (3, []) ∷ (4, []) ∷ (5, notice ∷ []) ∷ (6, []) ∷ [])
        (read_from fabric posted connection 0x123 10 frame context 2 0 process)
      ≡ ok process')
    × IsFinished 10 20 process'
passes-IsFinished_example =
    passes-IsFinished fabric posted connection 10 20 7 frame context (omega arith) (omega arith)
      (λ k. omega arith) (λ k. omega arith) 1 1 7 8192 5 48 7 old (region ∷ []) accepted pages
      (sent_once ∷ sent_once ∷ []) (omega arith) (passed, (passed, tt)) (1 ∷ 0 ∷ [])
      ((0, []) ∷ (1, []) ∷ (2, notice ∷ []) ∷ (3, []) ∷ (4, []) ∷ (5, notice ∷ []) ∷ (6, []) ∷ [])
      process refl process-IsDeaf (tt, (tt, ((told, tt), (tt, (tt, ((told, tt), (tt, tt))))))) refl

-- ===== src/Examples/Readers.antt =====
-- Reader::Read in the event loop, on concrete notifications.
use aws_efa_examples.Common.{ℕ, ◌+◌, ◌≡◌, false, refl, [], ◌∷◌, ok, undefined, arith}
use aws_efa_examples.Loop.Defs.{Entry}
use aws_efa_examples.Coro.{waits}
use aws_efa_examples.Coro.Values.{unset}
use aws_efa_examples.Reader.{Process, read_from}
use aws_efa_examples.Reader.States.{IsDeaf, IsWaiting}
use aws_efa_examples.Reader.Polls.{Notifies}
use aws_efa_examples.Reader.Hearing.{hears, loop, read_from-Follows}
use aws_efa_examples.Reader.Losses.{read_from-lost}
use aws_efa_examples.Examples.{entry, idle}
use aws_efa_examples.Examples.Messages.{fabric, connection, posted}

-- Reader::Read at 10, its awaiter at 20, the calls of Conn::Read from 100 on and their contexts from 1000.
abbrev pub frame : ℕ → ℕ
frame k = k + 100

abbrev pub context : ℕ → ℕ
context k = k + 1000

abbrev pub process : Process
process = record {
  coros = record {
    io = record idle { selector = record { cqs = 7 ∷ []; imm_data_contexts = [] } };
    promises = λ h. record { oneway = false; next = 20; held = unset; status = waits };
  };
  bytes = λ a. 0;
  left = 0;
  index = 0;
  begun = false;
}

pub process-IsDeaf : IsDeaf 10 20 7 process
process-IsDeaf = record {
  idle = refl;
  no_timer = refl;
  polls = refl;
  deaf = refl;
  main_waits = refl;
  main_awaiter = refl;
}

-- A notification for the data 0x123, with the flag of a remote write.
abbrev pub notice : Entry
notice = entry 0 8 4096 0x123

pub told : Notifies fabric 0x123 notice
told = record { remote = refl; number = refl }

read_from-Follows_example :
    loop fabric posted connection 0x123 10 frame context
      ((0, []) ∷ (1, notice ∷ []) ∷ (2, []) ∷ (3, []) ∷ (4, notice ∷ notice ∷ []) ∷ [])
      (read_from fabric posted connection 0x123 10 frame context 2 0 process)
    ≡ undefined
unfolding hears
read_from-Follows_example =
    read_from-Follows fabric posted connection 0x123 10 20 7 frame context (omega arith)
      (omega arith) (omega arith) (λ k. omega arith) (λ k. omega arith) 2
      ((0, []) ∷ (1, notice ∷ []) ∷ (2, []) ∷ (3, []) ∷ (4, notice ∷ notice ∷ []) ∷ []) process
      process-IsDeaf (tt, ((told, tt), (tt, (tt, ((told, (told, tt)), tt)))))

read_from-lost_example :
    (k : ℕ) × (p' : Process) × (loop fabric posted connection 0x123 10 frame context
        ((0, notice ∷ []) ∷ (1, notice ∷ []) ∷ (2, notice ∷ []) ∷ (3, []) ∷ (4, []) ∷ [])
        (read_from fabric posted connection 0x123 10 frame context 3 0 process)
      ≡ ok p')
    × IsWaiting 0x123 10 20 7 frame context k 2 [] p'
read_from-lost_example =
    read_from-lost fabric posted connection 0x123 10 20 7 frame context (omega arith) (omega arith)
      (omega arith) (λ k. omega arith) (λ k. omega arith) 0 1
      ((0, notice ∷ []) ∷ (1, notice ∷ []) ∷ (2, notice ∷ []) ∷ (3, []) ∷ (4, []) ∷ []) process
      process-IsDeaf ((told, tt), ((told, tt), ((told, tt), (tt, (tt, tt))))) refl

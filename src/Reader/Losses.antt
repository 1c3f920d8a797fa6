-- ===== src/Reader/Losses.antt =====
-- Which notifications reach Reader::Read.
use aws_efa_examples.Common.{
  ap, ℕ, zero, suc, ◌+◌, ◌≡◌, ◌≢◌, ◌∙◌, refl, subst, sym, [], ◌∷◌, ◌++◌, map, ok, arith, List,
  length, some,
}
use aws_efa_examples.Loop.Defs.{Entry}
use aws_efa_examples.Conn.{Fabric, Conn, Posted}
use aws_efa_examples.Reader.{Process, read_from}
use aws_efa_examples.Reader.States.{IsWaiting, IsDeaf, IsFinished}
use aws_efa_examples.Reader.Hearing.{
  calls, waits_for, returned, hear, hears, start_of, Follows, heard_in, AllNotify, loop,
  read_from-Follows,
}

-- The same number of notifications in each of some polls.
abbrev pub each : (polls n : ℕ) → List ℕ
each zero n = []
each (suc polls) n = n ∷ each polls n

-- One notification for each of the gaps, after a poll without one and the gap, and with a poll without
-- one after it.
abbrev pub spaced : List ℕ → List ℕ
spaced [] = []
spaced (gap ∷ gaps) = 0 ∷ each gap 0 ++ 1 ∷ 0 ∷ spaced gaps

hears-quiet :
    (gap n : ℕ) (ms : List ℕ) → hears (each gap 0 ++ ms) (waits_for n) ≡ hears ms (waits_for n)
unfolding hears hear
hears-quiet zero n ms = refl
hears-quiet (suc gap) n ms = hears-quiet gap n ms

hears-silence : (gap n : ℕ) → hears (each gap 0) (waits_for n) ≡ some (waits_for n)
unfolding hears hear
hears-silence zero n = refl
hears-silence (suc gap) n = hears-silence gap n

hears-begins : (gap n : ℕ) → hears (each (suc gap) 0) (calls n) ≡ some (waits_for n)
unfolding hears hear
hears-begins gap n = hears-silence gap n

hears-spaced : (gaps : List ℕ) → hears (spaced gaps) (start_of (length gaps)) ≡ some returned
unfolding hears hear
hears-spaced [] = refl
hears-spaced (gap ∷ []) = hears-quiet gap 0 (1 ∷ 0 ∷ [])
hears-spaced (gap ∷ gap' ∷ gaps) =
    hears-quiet gap (suc (length gaps)) (1 ∷ 0 ∷ spaced (gap' ∷ gaps)) ∙ hears-spaced (gap' ∷ gaps)

zero_add : (m : ℕ) → 0 + m ≡ m
zero_add m = omega arith

suc_add : (n m : ℕ) → suc n + m ≡ suc (n + m)
suc_add n m = omega arith

as_reads : (n : ℕ) → suc n + suc n + suc n ≡ suc (suc n + (n + suc n))
as_reads n = omega arith

triple_suc : (n : ℕ) → suc n + suc n + suc n ≡ suc (suc (suc (n + n + n)))
triple_suc n = omega arith

-- Of three notifications in consecutive polls from a call on only the second is heard.
hears-each :
    (n m : ℕ) (ms : List ℕ) → hears (each (n + n + n) 1 ++ ms) (calls (n + m)) ≡ hears ms (calls m)
unfolding hears hear
hears-each zero m ms = rw (zero_add m) refl
hears-each (suc n) m ms = rw (triple_suc n, suc_add n m) (hears-each n m ms)

module _ (fi : Fabric) (post : Posted → ℕ) (conn : Conn) (imm_data main boss cq : ℕ)
    (frame context : ℕ → ℕ) (some_data : imm_data ≢ 0) (main_real : main ≢ 0) (boss_real : boss ≢ 0)
    (frames_real : (k : ℕ) → frame k ≢ 0) (apart : (k : ℕ) → frame k ≢ main) where
  -- Where each notification comes alone in its poll, at least one poll without a notification of its own
  -- stands before it and one after it, Reader::Read for as many reads as there are
  -- notifications returns, and its awaiter is queued, in a process that polls one queue and has
  -- nothing else to do, whose handles and frames are not null and not mixed up.
  pub read_from-spaced :
      (gaps : List ℕ) (rounds : List (ℕ × List Entry)) (p : Process)
      → IsDeaf main boss cq p
      → AllNotify fi imm_data rounds
      → map heard_in rounds ≡ spaced gaps
      → (p' : Process) × (loop fi post conn imm_data main frame context rounds
            (read_from fi post conn imm_data main frame context (length gaps) 0 p)
          ≡ ok p')
        × IsFinished main boss p'
  read_from-spaced gaps rounds p d ts e =
      subst
        (λ ph. Follows conn imm_data main boss cq frame context ph (
          loop fi post conn imm_data main frame context rounds
            (read_from fi post conn imm_data main frame context (length gaps) 0 p)))
        (ap (λ ms. hears ms (start_of (length gaps))) e ∙ hears-spaced gaps)
        (read_from-Follows fi post conn imm_data main boss cq frame context some_data main_real
          boss_real frames_real apart (length gaps) rounds p d ts)

  -- Where as many notifications as Reader::Read has reads come one in each of consecutive polls, three
  -- times some number that is not zero, two of every three are lost, and Reader::Read waits for two
  -- thirds of them for ever: so it does after any number of further polls without a notification but
  -- zero, in a process that polls one queue and has nothing else to do, whose handles and frames are
  -- not null and not mixed up.
  pub read_from-lost :
      (n silence : ℕ) (rounds : List (ℕ × List Entry)) (p : Process)
      → IsDeaf main boss cq p
      → AllNotify fi imm_data rounds
      → map heard_in rounds ≡ each (suc n + suc n + suc n) 1 ++ each (suc silence) 0
      → (k : ℕ) × (p' : Process) × (loop fi post conn imm_data main frame context rounds
            (read_from fi post conn imm_data main frame context (suc n + suc n + suc n) 0 p)
          ≡ ok p')
        × IsWaiting imm_data main boss cq frame context k (suc n + suc n) [] p'
  read_from-lost n silence rounds p d ts e =
      subst
        (λ left.
          (k : ℕ) × (p' : Process) × (loop fi post conn imm_data main frame context rounds
              (read_from fi post conn imm_data main frame context (suc n + suc n + suc n) 0 p)
            ≡ ok p')
          × IsWaiting imm_data main boss cq frame context k left [] p')
        (sym (suc_add n (suc n)))
        (subst
          (λ ph. Follows conn imm_data main boss cq frame context ph (
            loop fi post conn imm_data main frame context rounds
              (read_from fi post conn imm_data main frame context (suc n + suc n + suc n) 0 p)))
          (ap (λ ms. hears ms (start_of (suc n + suc n + suc n))) e
            ∙ ap (λ r. hears (each (suc n + suc n + suc n) 1 ++ each (suc silence) 0) (start_of r))
                (as_reads n)
            ∙ hears-each (suc n) (n + suc n) (each (suc silence) 0)
            ∙ hears-begins silence (n + suc n))
          (read_from-Follows fi post conn imm_data main boss cq frame context some_data main_real
            boss_real frames_real apart (suc n + suc n + suc n) rounds p d ts))

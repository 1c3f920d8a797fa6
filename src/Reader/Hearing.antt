-- ===== src/Reader/Hearing.antt =====
-- Reader::Read in the event loop, against a description that counts the notifications of each poll.
use aws_efa_examples.Common.{
  subst, ◌>>=◌, ℕ, zero, suc, ◌+◌, ◌≡◌, ◌≢◌, refl, [], ◌∷◌, map, ok, undefined, List, All, Outcome,
  length, Option, some, none, sym, throw,
}
use aws_efa_examples.Loop.Defs.{Entry}
use aws_efa_examples.Loop.Io.Rounds.{run_loop-next}
use aws_efa_examples.Loop.Io.{Round, run_loop}
use aws_efa_examples.Conn.{Fabric, Conn, Posted}
use aws_efa_examples.Reader.{Process, process_host, read_from}
use aws_efa_examples.Reader.Polls.{brings, Notifies}
use aws_efa_examples.Reader.States.{
  turn, run_now, IsCalled, IsWaiting, IsWoken, IsFinished, IsDeaf, read_from-IsFinished,
  read_from-IsCalled,
}
use aws_efa_examples.Reader.Rounds.{
  turn-begins, turn-quiet, turn-heard, turn_twice, turn-next, turn-last,
}

-- What Reader::Read does: it has called Conn::Read, whose body has not begun; it waits for a
-- notification; it is about to take the buffer, all with some reads left after the present one; it has
-- returned; or its process has done what is undefined.
pub data Phase : Type 0 where
  calls waits_for takes : ℕ → Phase
  returned broken : Phase

-- A poll with some notifications. What follows the return is not described.
unfoldable pub hear : ℕ → Phase → Option Phase
hear m (calls n) = some (waits_for n)
hear zero (waits_for n) = some (waits_for n)
hear (suc zero) (waits_for n) = some (takes n)
hear (suc (suc m)) (waits_for n) = some broken
hear m (takes zero) = some returned
hear m (takes (suc n)) = some (calls n)
hear m returned = none
hear m broken = some broken

abbrev pub after : Option Phase → (Phase → Option Phase) → Option Phase
after none f = none
after (some ph) f = f ph

unfoldable pub hears : List ℕ → Phase → Option Phase
unfolding hear
hears [] ph = some ph
hears (m ∷ ms) ph = after (hear m ph) (hears ms)

-- A poll at some time.
abbrev pub round_of : ℕ × List Entry → Round
round_of (now, es) = record { now = now; read = λ _. brings es }

abbrev pub heard_in : ℕ × List Entry → ℕ
heard_in (now, es) = length es

-- Every entry of every poll notifies of a remote write with the immediate data.
abbrev pub AllNotify : Fabric → ℕ → List (ℕ × List Entry) → Type 0
AllNotify fi imm_data = All (λ (r : ℕ × List Entry). All (Notifies fi imm_data) r.1)

-- Where a call of Reader::Read for some reads stands before its first poll.
abbrev pub start_of : ℕ → Phase
start_of zero = returned
start_of (suc n) = calls n

module _ (fi : Fabric) (post : Posted → ℕ) (conn : Conn) (imm_data main : ℕ)
    (frame context : ℕ → ℕ) where
  abbrev pub loop : List (ℕ × List Entry) → Process → Outcome Process
  loop rounds =
      run_loop process_host (run_now fi post conn imm_data main frame context) fi.remote_write
        (map round_of rounds)

module _ (conn : Conn) (imm_data main boss cq : ℕ) (frame context : ℕ → ℕ) where
  -- The phase that a process is in, at some call.
  abbrev pub IsIn : Phase → Outcome Process → Type 0
  IsIn (calls n) o =
      (k : ℕ) × (p : Process) × (o ≡ ok p) × IsCalled main boss cq frame k (suc n) (frame k ∷ []) p
  IsIn (waits_for n) o =
      (k : ℕ) × (p : Process) × (o ≡ ok p)
      × IsWaiting imm_data main boss cq frame context k (suc n) [] p
  IsIn (takes n) o =
      (k : ℕ) × (p : Process) × (o ≡ ok p)
      × IsWoken main boss cq (conn.read_buffer.start) frame k (suc n) [] p
  IsIn returned o = (p : Process) × (o ≡ ok p) × IsFinished main boss p
  IsIn broken o = o ≡ undefined

  -- What the description says of the process, where it says something.
  abbrev pub Follows : Option Phase → Outcome Process → Type 0
  Follows none o = Unit
  Follows (some ph) o = IsIn ph o

module _ (fi : Fabric) (post : Posted → ℕ) (conn : Conn) (imm_data main boss cq : ℕ)
    (frame context : ℕ → ℕ) (some_data : imm_data ≢ 0) (main_real : main ≢ 0) (boss_real : boss ≢ 0)
    (frames_real : (k : ℕ) → frame k ≢ 0) (apart : (k : ℕ) → frame k ≢ main) where
  abbrev FollowsNow : Option Phase → Outcome Process → Type 0
  FollowsNow = Follows conn imm_data main boss cq frame context

  turn-Follows :
      (now : ℕ) (es : List Entry) (ph : Phase) (o : Outcome Process)
      → All (Notifies fi imm_data) es
      → FollowsNow (some ph) o
      → FollowsNow
          (hear (length es) ph)
          (o >>= turn fi post conn imm_data main frame context now es)
  unfolding hear
  turn-Follows now es (calls n) o ts (k, p, e, c) =
      let (p', turned, waiting) =
        turn-begins fi post conn imm_data main boss cq frame context some_data main_real boss_real
          frames_real apart now k (suc n) es p ts c in
      (k, p', rw e turned, waiting)
  turn-Follows now [] (waits_for n) o ts (k, p, e, w) = (
    k,
    p,
    rw e (
        turn-quiet fi post conn imm_data main boss cq frame context some_data main_real boss_real
          frames_real apart now k (suc n) p w),
    w,
  )
  turn-Follows now (e ∷ []) (waits_for n) o (t, _) (k, p, e', w) =
      let (p', turned, woken) =
        turn-heard fi post conn imm_data main boss cq frame context some_data main_real boss_real
          frames_real apart now k (suc n) e p t w in
      (k, p', rw e' turned, woken)
  turn-Follows now (e ∷ e' ∷ es) (waits_for n) o ts (k, p, e'', w) = rw e'' (
      turn_twice fi post conn imm_data main boss cq frame context some_data main_real boss_real
        frames_real apart now k (suc n) e e' es p ts w)
  turn-Follows now es (takes zero) o ts (k, p, e, w) =
      let (p', turned, finished) =
        turn-last fi post conn imm_data main boss cq frame context some_data main_real boss_real
          frames_real apart now k es p ts w in
      (p', rw e turned, finished)
  turn-Follows now es (takes (suc n)) o ts (k, p, e, w) =
      let (p', turned, called) =
        turn-next fi post conn imm_data main boss cq frame context some_data main_real boss_real
          frames_real apart now k n es p ts w in
      (k + 1, p', rw e turned, called)
  turn-Follows now es returned o ts i = tt
  turn-Follows now es broken o ts i = rw i refl

  after-Follows :
      (f : Phase → Option Phase) (g : Process → Outcome Process)
      → ((ph : Phase) (o : Outcome Process) → FollowsNow (some ph) o → FollowsNow (f ph) (o >>= g))
      → (mph : Option Phase) (o : Outcome Process) → FollowsNow mph o
      → FollowsNow (after mph f) (o >>= g)
  after-Follows f g step none o i = tt
  after-Follows f g step (some ph) o i = step ph o i

  abbrev run : ℕ → Process → Outcome Process
  run = run_now fi post conn imm_data main frame context

  abbrev loop_now : List (ℕ × List Entry) → Process → Outcome Process
  loop_now = loop fi post conn imm_data main frame context

  >>=-ok : (o : Outcome Process) → (o >>= λ p. ok p) ≡ o
  >>=-ok (ok p) = refl
  >>=-ok (throw e) = refl
  >>=-ok undefined = refl

  round-Follows :
      (rounds : List (ℕ × List Entry))
      → ((ph : Phase) (o : Outcome Process)
          → FollowsNow (some ph) o
          → FollowsNow (hears (map heard_in rounds) ph) (o >>= loop_now rounds))
      → (now : ℕ) (es : List Entry) (ph : Phase) (o : Outcome Process)
      → All (Notifies fi imm_data) es
      → FollowsNow (some ph) o
      → FollowsNow
          (after (hear (length es) ph) (hears (map heard_in rounds)))
          ((o >>= turn fi post conn imm_data main frame context now es) >>= loop_now rounds)
  round-Follows rounds rest now es ph o t i =
      after-Follows (hears (map heard_in rounds)) (loop_now rounds) rest (hear (length es) ph) _
        (turn-Follows now es ph o t i)

  loop-Follows :
      (rounds : List (ℕ × List Entry)) (ph : Phase) (o : Outcome Process)
      → AllNotify fi imm_data rounds
      → FollowsNow (some ph) o
      → FollowsNow (hears (map heard_in rounds) ph) (o >>= loop_now rounds)
  unfolding hears hear run_loop
  loop-Follows [] ph o ts i = subst (FollowsNow (some ph)) (sym (>>=-ok o)) i
  loop-Follows ((now, es) ∷ rounds) (calls n) o (t, ts) (k, p, e, w) =
      rw
        (
          e,
          run_loop-next process_host run fi.remote_write cq (round_of (now, es))
              (map round_of rounds) p (w.polls),
        )
        (round-Follows rounds (λ ph o i. loop-Follows rounds ph o ts i) now es (calls n) (ok p) t
          (k, p, refl, w))
  loop-Follows ((now, es) ∷ rounds) (waits_for n) o (t, ts) (k, p, e, w) =
      rw
        (
          e,
          run_loop-next process_host run fi.remote_write cq (round_of (now, es))
              (map round_of rounds) p (w.polls),
        )
        (round-Follows rounds (λ ph o i. loop-Follows rounds ph o ts i) now es (waits_for n) (ok p)
          t (k, p, refl, w))
  loop-Follows ((now, es) ∷ rounds) (takes n) o (t, ts) (k, p, e, w) =
      rw
        (
          e,
          run_loop-next process_host run fi.remote_write cq (round_of (now, es))
              (map round_of rounds) p (w.polls),
        )
        (round-Follows rounds (λ ph o i. loop-Follows rounds ph o ts i) now es (takes n) (ok p) t
          (k, p, refl, w))
  loop-Follows ((now, es) ∷ rounds) returned o (t, ts) i = tt
  loop-Follows ((now, es) ∷ rounds) broken o (t, ts) i =
      rw i (loop-Follows rounds broken undefined ts refl)

  -- Reader::Read for `n` reads, and the rounds of the event loop after it, do what the description
  -- says up to the return of Reader::Read: in the first round after a call its body begins, and what
  -- this round's poll notified is lost; then a notification alone in its poll ends the call; in the
  -- next round the next call is made, or Reader::Read returns, and what this round's poll notified is
  -- lost too; two notifications in one poll for a call that waits resume it after its end, which is
  -- undefined. The process polls one queue and has nothing else to do, all entries are notifications
  -- of the data, which is not 0, and the handles and frames are not null and not mixed up.
  pub read_from-Follows :
      (n : ℕ) (rounds : List (ℕ × List Entry)) (p : Process)
      → IsDeaf main boss cq p
      → AllNotify fi imm_data rounds
      → Follows conn imm_data main boss cq frame context
          (hears (map heard_in rounds) (start_of n))
          (loop fi post conn imm_data main frame context rounds
            (read_from fi post conn imm_data main frame context n 0 p))
  read_from-Follows zero rounds p d ts =
      let finished =
        read_from-IsFinished fi post conn imm_data main boss cq frame context some_data main_real
          boss_real frames_real apart 0 p d in
      loop-Follows rounds returned (ok _) ts (_, refl, finished)
  read_from-Follows (suc n) rounds p d ts =
      let called =
        read_from-IsCalled fi post conn imm_data main boss cq frame context some_data main_real
          boss_real frames_real apart n 0 p d in
      loop-Follows rounds (calls n) (ok _) ts (0, _, refl, called)

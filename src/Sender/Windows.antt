-- ===== src/Sender/Windows.antt =====
-- How the turn of one call of Conn::Write keeps what holds of the others.
use aws_efa_examples.Common.{
  true, ℕ, zero, suc, ◌+◌, ◌≤◌, ◌<◌, ◌≡◌, ◌≢◌, ◌⊎◌, ◌∙◌, refl, sym, ap, subst, List, ◌∷◌, count,
  ◌==◌, if◌then◌else◌, arith, ne→==, ==-self, Outcome, some, inl, inr, eq_cases, lt_cases,
}
use aws_efa_examples.Loop.Io.{take_front}
use aws_efa_examples.Conn.{Fabric, Conn, Posted}
use aws_efa_examples.Coro.{Promise}
use aws_efa_examples.Writer.{Pages, batch_size}
use aws_efa_examples.Writer.Pipeline.{upto}
use aws_efa_examples.Sender.{Sender, Written, sender_host, run_sender, call_at}
use aws_efa_examples.Sender.Calls.{Phase, IsCall, IsKept, IsCall-kept, IsWindow, IsAwaiting}

abbrev pub taken : ℕ → List ℕ → Sender → Sender
taken h rest p = sender_host.with_io (take_front h rest (p.coros.io)) p

-- The frames, or the contexts, of calls that can be alive together are not the same.
abbrev pub IsApart : (ℕ → ℕ) → Type 0
IsApart frame = (j k : ℕ) → j < k → k < j + batch_size → frame j ≢ frame k

-- The phases after call `k` has changed its own.
abbrev pub put : ℕ → Phase → (ℕ → Phase) → ℕ → Phase
put k x ph j = if j == k then x else ph j

pub count_head : (h : ℕ) (rest : List ℕ) → count h (h ∷ rest) ≡ 1 + count h rest
count_head h rest = rw (==-self h) refl

pub count_other : (h g : ℕ) (rest : List ℕ) → g ≢ h → count h (g ∷ rest) ≡ count h rest
count_other h g rest n = rw (ne→== g h n) (omega arith)

pub apart_both :
    (frame : ℕ → ℕ) (first size j k : ℕ)
    → IsApart frame
    → size ≤ batch_size
    → first ≤ j
    → j < first + size
    → first ≤ k
    → k < first + size
    → j ≢ k
    → frame j ≢ frame k
apart_both frame first size j k apart small a b c d n e = elim (lt_cases j k) [
  | inl l ↦ apart j k l (omega arith) e
  | inr g ↦ apart k j (omega arith) (omega arith) (sym e)
]

pub call_at-upto :
    (fi : Fabric) (post : Posted → ℕ) (conn : Conn) (pages : Pages) (main : ℕ)
    (frame context : ℕ → ℕ) (first size k : ℕ)
    → ((j : ℕ) → first ≤ j → j < first + size → j ≢ k → frame k ≢ frame j)
    → first ≤ k
    → k < first + size
    → call_at fi post conn pages main frame context (frame k) (upto first size) ≡ some k
unfolding call_at
call_at-upto fi post conn pages main frame context first zero k apart a b = absurd (omega arith)
call_at-upto fi post conn pages main frame context first (suc size) k apart a b =
    elim (eq_cases first k) [
      | inl e ↦ rw (sym e, ==-self (frame first)) refl
      | inr n ↦ rw (ne→== (frame k) (frame first) (apart first (omega arith) (omega arith) n)) (
          call_at-upto fi post conn pages main frame context (suc first) size k
            (λ j a b. apart j (omega arith) (omega arith)) (omega arith) (omega arith))
    ]

-- What is fixed while WriteOne runs: the libraries, the connection, the data, the handles of WriteOne and
-- of its awaiter, the queue, the counter `ops` at the start, the number of calls in all, and the
-- addresses.
pub record Setting : Type 0 where
  pub fi : Fabric
  pub post : Posted → ℕ
  pub conn : Conn
  pub pages : Pages
  pub main : ℕ
  pub boss : ℕ
  pub cq : ℕ
  pub base : ℕ
  pub total : ℕ
  pub frame : ℕ → ℕ
  pub context : ℕ → ℕ

-- The addresses are not null and not mixed up, libfabric takes each write, and the pages are not empty.
pub record IsSound (s : Setting) : Type 0 where
  pub main_real : s.main ≢ 0
  pub boss_real : s.boss ≢ 0
  pub frames_real : (k : ℕ) → s.frame k ≢ 0
  pub frames_main : (k : ℕ) → s.frame k ≢ s.main
  pub frames_apart : IsApart (s.frame)
  pub contexts_real : (k : ℕ) → s.context k ≢ 0
  pub contexts_apart : IsApart (s.context)
  pub accepted : (m : Posted) → s.post m ≡ 0
  pub some_bytes : s.pages.page_size ≢ 0

module _ (s : Setting) where
  abbrev pub run : ℕ → Sender → Outcome Sender
  run = run_sender s.fi s.post s.conn s.pages s.main s.frame s.context

  abbrev pub Call : Phase → (next k : ℕ) → Sender → Type 0
  Call = IsCall s.fi s.pages s.frame s.context

  abbrev pub Kept : ℕ → Sender → Sender → Type 0
  Kept = IsKept s.fi s.pages s.frame s.context

  abbrev pub Window : (first t size todo : ℕ) → (ℕ → Phase) → (ℕ → ℕ) → Sender → Type 0
  Window = IsWindow s.fi s.pages s.frame s.context s.main s.boss s.cq s.base s.total

  abbrev pub Awaiting : (first t size todo : ℕ) → (ℕ → Phase) → Sender → Type 0
  Awaiting = IsAwaiting s.fi s.pages s.frame s.context s.main s.boss s.cq s.base s.total

  -- The turn of a call changes none of these.
  pub record IsSame (p p' : Sender) : Type 0 where
    pub futs : p'.futs ≡ p.futs
    pub made : p'.made ≡ p.made
    pub ops : p'.ops ≡ p.ops
    pub place : p'.place ≡ p.place
    pub schedule : p'.coros.io.schedule ≡ p.coros.io.schedule
    pub cqs : p'.coros.io.selector.cqs ≡ p.coros.io.selector.cqs
    pub begun : (j : ℕ) → p.begun j ≡ true → p'.begun j ≡ true
    pub main_promise : p'.coros.promises s.main ≡ p.coros.promises s.main

  pub IsWindow-put :
      (first t size todo k : ℕ) (x : Phase) (ph : ℕ → Phase) (next : ℕ → ℕ) (p p' : Sender)
      → Window first t size todo ph next p
      → IsSame p p'
      → Call x (next k) k p'
      → t ≤ k
      → ((j : ℕ) → first ≤ j → j < first + size → j ≢ k → Kept j p p')
      → k < first + size
      → ((h : ℕ)
          → count h p'.coros.io.ready ≢ 0
          → (h ≡ s.main) ⊎ ((h ≡ s.frame k) ⊎ (count h p.coros.io.ready ≢ 0)))
      → Window first t size todo (put k x ph) next p'
  IsWindow-put first t size todo k x ph next p p' w same mine a others b queue = record {
    futs = same.futs ∙ w.futs;
    made = same.made ∙ w.made;
    at_most = w.at_most;
    from = w.from;
    till = w.till;
    ops = same.ops ∙ w.ops;
    in_all = w.in_all;
    calls = λ j c d. elim (eq_cases j k) [
      | inl e ↦ rw (sym e, ==-self j) (subst (λ i. Call x (next i) i p') (sym e) mine)
      | inr n ↦ rw (ne→== j k n) (
          IsCall-kept s.fi s.pages s.frame s.context (ph j) (next j) j p p'
            (others j (omega (arith, w.from)) d n) (w.calls j c d))
    ];
    early = λ j l. same.begun j (w.early j l);
    passed = λ j c d.
        ap (λ (q : Promise Written). q.status)
          (others j c (omega (arith, w.till)) (λ e. omega arith)).promise
        ∙ w.passed j c d;
    only = λ h c. elim (queue h c) [
      | inl e ↦ inl e
      | inr (inl e) ↦ inr (k, a, b, e)
      | inr (inr d) ↦ w.only h d
    ];
    no_timer = same.schedule ∙ w.no_timer;
    polls = same.cqs ∙ w.polls;
    main_waits = ap (λ (q : Promise Written). q.status) same.main_promise ∙ w.main_waits;
    main_awaiter = ap (λ (q : Promise Written). q.next) same.main_promise ∙ w.main_awaiter;
  }

-- ===== src/Sender/Counting.antt =====
-- Writer::WriteOne of src/batch/main.cc in IO::Run: what its process counts, whatever libfabric answers.
use aws_efa_examples.Common.{
  ℕ, zero, suc, ◌+◌, ◌≤◌, ◌<◌, ◌≡◌, ◌⊎◌, ◌∙◌, refl, sym, ap, subst, List, [], All, ◌∷◌, length,
  length-append, arith, Outcome, ok, throw, undefined, ◌>>=◌, inl, inr, Bool, false, Bool-cases,
  if◌then◌else◌, ◌==◌, some, Option-cases,
}
use aws_efa_examples.Loop.Io.{Round, run_loop}
use aws_efa_examples.Loop.Io.Keeping.{Kept, Kept-ok, Kept->>=, run_loop-Kept}
use aws_efa_examples.Conn.{Posted, World, write, write_resume}
use aws_efa_examples.Coro.{Status, waits, ended, destroyed}
use aws_efa_examples.Writer.{CudaRegion, batch_size, page_request}
use aws_efa_examples.Sender.{
  Sender, Await, filling, draining, sender_host, fill_regions, fill_region, throttle_from,
  push_future, pop_future, drain_from, resume_at, run_write_one, run_write, begin_write, end_write,
  call_at, run_sender, sender_world,
}
use aws_efa_examples.Sender.Windows.{Setting, run}
use aws_efa_examples.Sender.Tally.{
  begun_of, begun_of-update, IsCounted, push-IsCounted, pop-IsCounted, resume_await-Kept,
  throttle_from-Kept, fill_region-Kept, drain_from-Kept, fill_regions-Kept,
}

Status-cases : (x : Status) → (x ≡ waits) ⊎ ((x ≡ ended) ⊎ (x ≡ destroyed))
Status-cases waits = inl refl
Status-cases ended = inr (inl refl)
Status-cases destroyed = inr (inr refl)

module _ (s : Setting) (before first : ℕ) where
  abbrev Counted : Sender → Type 0
  Counted = IsCounted s before first

  resume_at-Kept :
      (at : Await) (ks : List ℕ) (p : Sender)
      → Counted p
      → p.futs ≡ ks
      → Kept Counted (resume_at s.fi s.post s.conn s.pages s.main s.frame s.context at ks p)
  unfolding resume_at
  resume_at-Kept (filling regions region i left) [] p c e = tt
  resume_at-Kept (filling regions region i left) (k ∷ ks) p c e =
      let next : Sender → Outcome Sender = λ p.
        fill_region s.fi s.post s.conn s.pages s.main s.frame s.context regions
          (fill_regions s.fi s.post s.conn s.pages s.main s.frame s.context regions) region (i + 1)
          left
          (push_future s.fi s.post s.conn s.pages s.main s.frame s.context
            (page_request s.pages region i) p) in
      let popped = pop_future s.fi s.post s.conn s.pages s.main s.frame s.context k ks in
      resume_await-Kept s before first k
        (λ p.
          throttle_from s.fi s.post s.conn s.pages s.main s.frame s.context
            (filling regions region i left) next ks
            (pop_future s.fi s.post s.conn s.pages s.main s.frame s.context k ks p))
        p c
        (throttle_from-Kept s before first (filling regions region i left) next
          (λ p c room.
            fill_region-Kept s before first regions
              (fill_regions s.fi s.post s.conn s.pages s.main s.frame s.context regions) region
              (fill_regions-Kept s before first regions) left (i + 1)
              (push_future s.fi s.post s.conn s.pages s.main s.frame s.context
                (page_request s.pages region i) p)
              (push-IsCounted s before first (page_request s.pages region i) p c room))
          ks (popped p) (pop-IsCounted s before first k ks p c e) refl)
  resume_at-Kept (draining []) ks p c e = tt
  resume_at-Kept (draining (k ∷ ks)) fs p c e =
      resume_await-Kept s before first k
        (λ p.
          drain_from s.fi s.post s.conn s.pages s.main s.frame s.context ks
            (record p { ops = p.ops + 1 }))
        p c (drain_from-Kept s before first ks (record p { ops = p.ops + 1 }) c)

  begin_write-Kept :
      (h k : ℕ) (o : World × Outcome Posted) (p : Sender)
      → Counted p
      → k < p.made
      → p.begun k ≡ false
      → Kept Counted (begin_write s.fi s.post s.conn s.pages s.main s.frame s.context h k o p)
  begin_write-Kept h k (w, ok m) p c l e = record {
    ours = c.ours;
    few = c.few;
    all_sent = c.all_sent;
    posts =
        omega
          (arith, c.posts, length-append p.posted (m ∷ []), begun_of-update p.begun k p.made l e);
  }
  begin_write-Kept h k (w, throw x) p c l e = c
  begin_write-Kept h k (w, undefined) p c l e = tt

  end_write-Kept :
      (h : ℕ) (o : Outcome ℕ) (p : Sender)
      → Counted p
      → Kept Counted (end_write s.fi s.post s.conn s.pages s.main s.frame s.context h o p)
  end_write-Kept h (ok n) p c = c
  end_write-Kept h (throw x) p c = c
  end_write-Kept h undefined p c = tt

  run_write-Kept :
      (h k : ℕ) (p : Sender)
      → Counted p
      → k < p.made
      → Kept Counted (run_write s.fi s.post s.conn s.pages s.main s.frame s.context h k p)
  unfolding run_write
  run_write-Kept h k p c l = elim (Status-cases (p.coros.promises h).status) [
    | inl e ↦ elim (Bool-cases (p.begun k)) [
      | inl b ↦
          rw (e, b, run_write)
            (end_write-Kept h
              (write_resume s.fi s.conn (p.coros.io.memory.contexts (s.context k)).entry) p c)
      | inr b ↦
          rw (e, b, run_write)
            (begin_write-Kept h k
              (write s.fi s.post s.conn (s.context k) h (p.asked k).src (p.asked k).sz
                (p.asked k).addr (p.asked k).key (p.asked k).imm_data (sender_world p))
              p c l b)
    ]
    | inr (inl e) ↦ rw (e, run_write) tt
    | inr (inr e) ↦ rw (e, run_write) tt
  ]

  run_write_one-Kept :
      (p : Sender)
      → Counted p
      → Kept Counted (run_write_one s.fi s.post s.conn s.pages s.main s.frame s.context p)
  unfolding run_write_one
  run_write_one-Kept p c = elim (Status-cases (p.coros.promises s.main).status) [
    | inl e ↦ rw (e, run_write_one) (resume_at-Kept p.place p.futs p c refl)
    | inr (inl e) ↦ rw (e, run_write_one) tt
    | inr (inr e) ↦ rw (e, run_write_one) tt
  ]

  call_at-ours :
      (h k made : ℕ) (ks : List ℕ)
      → All (λ k. k < made) ks
      → call_at s.fi s.post s.conn s.pages s.main s.frame s.context h ks ≡ some k
      → k < made
  unfolding call_at
  call_at-ours h k made [] _ e = cc
  call_at-ours h k made (j ∷ ks) (l, ls) e = elim (Bool-cases (h == s.frame j)) [
    | inl f ↦ ground (arith, e, f, l)
    | inr f ↦ call_at-ours h k made ks ls (
        ap
          (λ b.
            if b then some j else call_at s.fi s.post s.conn s.pages s.main s.frame s.context h ks)
          (sym f)
        ∙ e)
  ]

  run_sender-Kept : (h : ℕ) (p : Sender) → Counted p → Kept Counted (run s h p)
  unfolding run_sender
  run_sender-Kept h p c = elim (Bool-cases (h == s.main)) [
    | inl e ↦ rw (e, run_sender) (run_write_one-Kept p c)
    | inr e ↦
        elim (Option-cases (call_at s.fi s.post s.conn s.pages s.main s.frame s.context h p.futs)) [
          | inl f ↦ rw (e, f, run_sender) tt
          | inr (k, f) ↦
              rw (e, f, run_sender)
                (run_write-Kept h k p c (call_at-ours h k p.made p.futs c.ours f))
        ]
  ]

  -- WriteOne from its start, and the rounds after it.
  pub run_loop-IsCounted :
      (regions : List CudaRegion) (rounds : List Round) (p p' : Sender)
      → Counted p
      → (fill_regions s.fi s.post s.conn s.pages s.main s.frame s.context regions p
          >>= run_loop sender_host (run s) s.fi.remote_write rounds)
        ≡ ok p'
      → Counted p'
  run_loop-IsCounted regions rounds p p' c e =
      Kept-ok Counted _ p'
        (Kept->>= Counted Counted
          (fill_regions s.fi s.post s.conn s.pages s.main s.frame s.context regions p)
          (run_loop sender_host (run s) s.fi.remote_write rounds)
          (fill_regions-Kept s before first regions p c)
          (run_loop-Kept sender_host (run s) Counted (λ io p c. c) run_sender-Kept s.fi.remote_write
            rounds))
        e

begun_of-most : (f : ℕ → Bool) (n : ℕ) → begun_of f n ≤ n
begun_of-most f zero = omega arith
begun_of-most f (suc n) = elim (Bool-cases (f n)) [
  | inl e ↦ rw e (omega (arith, begun_of-most f n))
  | inr e ↦ rw e (omega (arith, begun_of-most f n))
]

-- Whatever libfabric answers to WriteOne's calls and whatever entries its polls bring, in whichever
-- rounds of IO::Run after the start of a WriteOne that has no futures yet: in a process that is reached
-- so, WriteOne holds eight futures at most, each for a call that it has made; `sent` has grown by one for
-- each call; and libfabric has taken one write for each call whose coroutine has begun without an
-- exception, so no more than were sent.
pub fill_regions-begun_of :
    (s : Setting) (regions : List CudaRegion) (rounds : List Round) (p p' : Sender)
    → p.futs ≡ []
    → p.made ≡ 0
    → (fill_regions s.fi s.post s.conn s.pages s.main s.frame s.context regions p
        >>= run_loop sender_host (run s) s.fi.remote_write rounds)
      ≡ ok p'
    → ((length p'.futs ≤ batch_size) × All (λ k. k < p'.made) p'.futs)
      × (p'.sent ≡ p.sent + p'.made)
      × (length p'.posted ≡ length p.posted + begun_of p'.begun p'.made)
      × (length p'.posted + p.sent ≤ length p.posted + p'.sent)
fill_regions-begun_of s regions rounds p p' empty no_calls e =
    let c =
      run_loop-IsCounted s (length p.posted) p.sent regions rounds p p'
        (record {
          ours = subst (All (λ k. k < p.made)) (sym empty) tt;
          few = omega (arith, ap length empty);
          all_sent = omega (arith, no_calls);
          posts = omega (arith, ap (begun_of p.begun) no_calls);
        })
        e in
    (
      (c.few, c.ours),
      c.all_sent,
      c.posts,
      omega (arith, c.all_sent, c.posts, begun_of-most p'.begun p'.made),
    )

-- ===== src/Sender/Tally.antt =====
-- Writer::WriteOne of src/batch/main.cc: what its process counts, over the loops that make the calls.
use aws_efa_examples.Common.{
  ℕ, zero, suc, ◌+◌, ◌≤◌, ◌<◌, ◌≡◌, ◌∙◌, refl, sym, ap, subst, List, [], All, All-append, ◌∷◌,
  length, length-append, arith, Outcome, inl, inr, Bool, true, false, Bool-cases, if◌then◌else◌,
  leb, ne→==, eq_cases, ==-self,
}
use aws_efa_examples.Loop.Defs.{update}
use aws_efa_examples.Loop.Io.Keeping.{Outcome-cases, Kept}
use aws_efa_examples.Conn.{Posted}
use aws_efa_examples.Coro.{await_ready, await_resume}
use aws_efa_examples.Writer.{CudaRegion, Request, batch_size, page_request}
use aws_efa_examples.Sender.{
  Sender, Await, filling, draining, fill_regions, fill_region, throttle_from, push_future,
  pop_future, await_call, resume_await, drain_from, fail_write_one,
}
use aws_efa_examples.Sender.Windows.{Setting}

-- How many of the first calls have begun.
abbrev pub begun_of : (ℕ → Bool) → ℕ → ℕ
begun_of f zero = 0
begun_of f (suc n) = (if f n then 1 else 0) + begun_of f n

begun_of-later :
    (f : ℕ → Bool) (k n : ℕ) (b : Bool) → n ≤ k → begun_of (update f k b) n ≡ begun_of f n
begun_of-later f k zero b l = refl
begun_of-later f k (suc n) b l =
    rw (ne→== k n (λ e. omega arith))
      (ap (λ m. (if f n then 1 else 0) + m) (begun_of-later f k n b (omega arith)))

pub begun_of-update :
    (f : ℕ → Bool) (k n : ℕ)
    → k < n
    → f k ≡ false
    → begun_of (update f k true) n ≡ suc (begun_of f n)
begun_of-update f k zero l e = absurd (omega arith)
begun_of-update f k (suc n) l e = elim (eq_cases k n) [
  | inl same ↦ rw (sym same, ==-self k, e) (omega (arith, begun_of-later f k k true (omega arith)))
  | inr d ↦ rw (ne→== k n d) (omega (arith, begun_of-update f k n (omega arith) e))
]

begun_of-new : (f : ℕ → Bool) (k : ℕ) → begun_of (update f k false) (k + 1) ≡ begun_of f k
begun_of-new f k =
    ap (begun_of (update f k false)) (one_more k)
    ∙ rw (==-self k) (omega (arith, begun_of-later f k k false (omega arith)))
  where
    one_more : (k : ℕ) → k + 1 ≡ suc k
    one_more k = omega arith

-- `futs`, the number of calls, which of them have begun, the writes that libfabric has taken and `sent`
-- belong together, where there were `before` writes and `first` had been sent at the start.
pub record IsTally (before first : ℕ) (futs : List ℕ) (made : ℕ) (begun : ℕ → Bool)
    (posted : List Posted) (sent : ℕ) : Type 0 where
  pub ours : All (λ k. k < made) futs
  pub few : length futs ≤ batch_size
  pub all_sent : sent ≡ first + made
  pub posts : length posted ≡ before + begun_of begun made

later-ours : (made : ℕ) (futs : List ℕ) → All (λ k. k < made) futs → All (λ k. k < made + 1) futs
later-ours made [] _ = tt
later-ours made (k ∷ ks) (a, b) = (omega (arith, a), later-ours made ks b)

module _ (s : Setting) (before first : ℕ) where
  abbrev pub IsCounted : Sender → Type 0
  IsCounted p = IsTally before first p.futs p.made p.begun p.posted p.sent

  pub push-IsCounted :
      (r : Request) (p : Sender)
      → IsCounted p
      → length p.futs < batch_size
      → IsCounted (push_future s.fi s.post s.conn s.pages s.main s.frame s.context r p)
  unfolding push_future
  push-IsCounted r p c room = record {
    ours =
        All-append (λ k. k < p.made + 1) p.futs (p.made ∷ []) (later-ours p.made p.futs c.ours)
          (omega arith, tt);
    few = omega (arith, length-append p.futs (p.made ∷ []));
    all_sent = omega (arith, c.all_sent);
    posts = c.posts ∙ ap (λ n. before + n) (sym (begun_of-new p.begun p.made));
  }

  pub resume_await-Kept :
      (k : ℕ) (next : Sender → Outcome Sender) (p : Sender)
      → IsCounted p
      → Kept IsCounted (next p)
      → Kept IsCounted (resume_await s.fi s.post s.conn s.pages s.main s.frame s.context k next p)
  unfolding resume_await fail_write_one
  resume_await-Kept k next p c after = elim (Outcome-cases (await_resume (s.frame k) p.coros)) [
    | inl (x, e) ↦ rw (e, resume_await) after
    | inr (inl (x, e)) ↦
        rw (e, resume_await)
          (record { ours = tt; few = omega arith; all_sent = c.all_sent; posts = c.posts })
    | inr (inr e) ↦ rw (e, resume_await) tt
  ]

  await_call-Kept :
      (k : ℕ) (at : Await) (next : Sender → Outcome Sender) (p : Sender)
      → IsCounted p
      → Kept IsCounted (next p)
      → Kept IsCounted (await_call s.fi s.post s.conn s.pages s.main s.frame s.context k at next p)
  unfolding await_call
  await_call-Kept k at next p c after = elim (Bool-cases (await_ready (s.frame k) p.coros)) [
    | inl e ↦ rw (e, await_call) (resume_await-Kept k next p c after)
    | inr e ↦ rw (e, await_call) c
  ]

  pub pop-IsCounted :
      (k : ℕ) (ks : List ℕ) (p : Sender)
      → IsCounted p
      → p.futs ≡ k ∷ ks
      → IsCounted (pop_future s.fi s.post s.conn s.pages s.main s.frame s.context k ks p)
  unfolding pop_future
  pop-IsCounted k ks p c e =
      let (_, ours) = subst (All (λ k. k < p.made)) e c.ours in
      record {
        ours = ours;
        few = omega (arith, c.few, ap length e);
        all_sent = c.all_sent;
        posts = c.posts;
      }

  -- The loops go on, or WriteOne is suspended.
  abbrev Continues : (Sender → Outcome Sender) → Type 0
  Continues next = (p : Sender) → IsCounted p → Kept IsCounted (next p)

  pub throttle_from-Kept :
      (at : Await) (next : Sender → Outcome Sender)
      → ((p : Sender) → IsCounted p → length p.futs < batch_size → Kept IsCounted (next p))
      → (ks : List ℕ) (p : Sender) → IsCounted p
      → p.futs ≡ ks
      → Kept IsCounted
          (throttle_from s.fi s.post s.conn s.pages s.main s.frame s.context at next ks p)
  unfolding throttle_from pop_future
  throttle_from-Kept at next after [] p c e = after p c (omega (arith, ap length e))
  throttle_from-Kept at next after (k ∷ ks) p c e =
      elim (Bool-cases (leb batch_size (length (k ∷ ks)))) [
        | inl full ↦
            rw (full, throttle_from)
              (await_call-Kept k at
                (λ p.
                  throttle_from s.fi s.post s.conn s.pages s.main s.frame s.context at next ks
                    (pop_future s.fi s.post s.conn s.pages s.main s.frame s.context k ks p))
                p c
                (throttle_from-Kept at next after ks
                  (pop_future s.fi s.post s.conn s.pages s.main s.frame s.context k ks p)
                  (pop-IsCounted k ks p c e) refl))
        | inr room ↦ rw (room, throttle_from) (after p c (ground (arith, room, ap length e)))
      ]

  pub fill_region-Kept :
      (regions : List CudaRegion) (next : Sender → Outcome Sender) (region : CudaRegion)
      → Continues next
      → (n i : ℕ)
      → Continues
          (fill_region s.fi s.post s.conn s.pages s.main s.frame s.context regions next region i n)
  unfolding fill_region
  fill_region-Kept regions next region after zero i p c = after p c
  fill_region-Kept regions next region after (suc n) i p c =
      throttle_from-Kept (filling regions region i n)
        (λ p.
          fill_region s.fi s.post s.conn s.pages s.main s.frame s.context regions next region
            (i + 1) n
            (push_future s.fi s.post s.conn s.pages s.main s.frame s.context
              (page_request s.pages region i) p))
        (λ p c room.
          fill_region-Kept regions next region after n (i + 1)
            (push_future s.fi s.post s.conn s.pages s.main s.frame s.context
              (page_request s.pages region i) p)
            (push-IsCounted (page_request s.pages region i) p c room))
        p.futs p c refl

  pub drain_from-Kept :
      (ks : List ℕ) → Continues (drain_from s.fi s.post s.conn s.pages s.main s.frame s.context ks)
  unfolding drain_from
  drain_from-Kept [] p c = record {
    ours = tt;
    few = omega arith;
    all_sent = c.all_sent;
    posts = c.posts;
  }
  drain_from-Kept (k ∷ ks) p c =
      await_call-Kept k (draining (k ∷ ks))
        (λ p.
          drain_from s.fi s.post s.conn s.pages s.main s.frame s.context ks
            (record p { ops = p.ops + 1 }))
        p c (drain_from-Kept ks (record p { ops = p.ops + 1 }) c)

  pub fill_regions-Kept :
      (regions : List CudaRegion)
      → Continues (fill_regions s.fi s.post s.conn s.pages s.main s.frame s.context regions)
  unfolding fill_regions
  fill_regions-Kept [] p c = drain_from-Kept p.futs p c
  fill_regions-Kept (region ∷ regions) p c =
      fill_region-Kept regions
        (fill_regions s.fi s.post s.conn s.pages s.main s.frame s.context regions) region
        (fill_regions-Kept regions) s.pages.num_pages 0 p c

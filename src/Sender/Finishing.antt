-- ===== src/Sender/Finishing.antt =====
-- Writer::WriteOne of src/batch/main.cc in IO::Run, from its start to its return.
use aws_efa_examples.Common.{
  ℕ, zero, suc, ◌+◌, ◌*◌, ◌≤◌, ◌≡◌, ◌≢◌, ◌∙◌, refl, ap, subst, List, [], map, ◌∷◌, ◌++◌, length,
  count, arith, Outcome, ok, ◌>>=◌, inl, inr, eq_cases,
}
use aws_efa_examples.Loop.Defs.{Entry}
use aws_efa_examples.Loop.Io.{run_loop}
use aws_efa_examples.Loop.Io.Rounds.{run_loop-next}
use aws_efa_examples.Writer.{CudaRegion}
use aws_efa_examples.Sender.{Sender, sender_host, fill_regions}
use aws_efa_examples.Sender.Calls.{Phase, fresh, flying, landed, over, pages_in}
use aws_efa_examples.Sender.Windows.{Setting, IsSound, run}
use aws_efa_examples.Sender.Work.{weights, weight}
use aws_efa_examples.Sender.Steps.{IsRunning, IsReturned}
use aws_efa_examples.Sender.Course.{IsOnCourse}
use aws_efa_examples.Sender.Filling.{fill_regions-Leads}
use aws_efa_examples.Sender.Rounds.{IsGoing}
use aws_efa_examples.Sender.Serving.{turn, round_of, loop, Serves, IsStarting, turn-Ran}

some_weights : (ph : ℕ → Phase) (t n : ℕ) → n ≢ 0 → 1 ≤ weights ph t n
some_weights ph t zero d = absurd (d refl)
some_weights ph t (suc n) d = elim (ph t) as (λ x. 1 ≤ weight x + weights ph (suc t) n) [
  | fresh ↦ omega arith
  | flying ↦ omega arith
  | landed ↦ omega arith
  | over ↦ omega arith
]

module _ (s : Setting) (sound : IsSound s) where
  some_work : (most : ℕ) (p : Sender) → IsGoing s most p → 1 ≤ most
  some_work most p g = elim (eq_cases g.n 0) [
    | inl e ↦ absurd (omega (arith, e, g.results, g.awaiting.present))
    | inr d ↦ omega (arith, g.bounded, some_weights g.phases g.t g.n d)
  ]

  -- WriteOne returns within as many rounds as there is work.
  abbrev Returns : List (ℕ × List Entry) → Outcome Sender → Type 0
  Returns rounds o =
      (front : List (ℕ × List Entry)) × (back : List (ℕ × List Entry)) × (p : Sender) × (rounds
        ≡ front ++ back)
      × ((o >>= loop s front) ≡ ok p)
      × IsReturned s p

  loop-Returns :
      (most : ℕ) (rounds : List (ℕ × List Entry)) (p : Sender)
      → IsGoing s most p
      → most ≤ length rounds
      → Serves s rounds p
      → Returns rounds (ok p)
  unfolding run_loop
  loop-Returns zero rounds p g l serves = absurd (omega (arith, some_work 0 p g))
  loop-Returns (suc most) [] p g l serves = absurd (omega (arith, l))
  loop-Returns (suc most) ((now, es) ∷ rounds) p g l (completions, some, later) =
      let goes : (front : List (ℕ × List Entry))
          → loop s ((now, es) ∷ front) p ≡ turn s now es p >>= loop s front =
        λ front.
          run_loop-next sender_host (run s) s.fi.remote_write s.cq (round_of s (now, es))
            (map (round_of s) front) p g.awaiting.window.polls in
      elim (turn-Ran s sound most now es p g completions some) [
        | inl (p1, turned, going) ↦
            let (front, back, p', split, ran, returned) =
              loop-Returns most rounds p1 going (omega (arith, l)) (later p1 turned) in
            (
              (now, es) ∷ front,
              back,
              p',
              ap (λ rs. (now, es) ∷ rs) split,
              goes front ∙ ap (λ o. o >>= loop s front) turned ∙ ran,
              returned,
            )
        | inr (p1, turned, returned) ↦ (
          (now, es) ∷ [],
          rounds,
          p1,
          refl,
          goes [] ∙ ap (λ o. o >>= loop s []) turned ∙ refl,
          returned,
        )
      ]

  started : (p : Sender) → IsStarting s p → IsRunning s 0 0 0 s.total (λ k. over) p
  started p i = record {
    window = record {
      futs = i.no_futs;
      made = i.none_made;
      at_most = omega arith;
      from = omega arith;
      till = omega arith;
      ops = omega (arith, i.counted);
      in_all = omega arith;
      calls = λ k a b. absurd (omega arith);
      early = λ k a. absurd (omega arith);
      passed = λ k a b. absurd (omega arith);
      only = λ h c. absurd (c (ap (count h) i.idle));
      no_timer = i.no_timer;
      polls = i.polls;
      main_waits = i.main_waits;
      main_awaiter = i.main_awaiter;
    };
    unqueued = ap (count s.main) i.idle;
  }

  abbrev pub starts : List CudaRegion → Sender → Outcome Sender
  starts = fill_regions s.fi s.post s.conn s.pages s.main s.frame s.context

  pub course :
      (p : Sender) (regions : List CudaRegion)
      → IsStarting s p
      → s.total ≡ pages_in s.pages regions
      → IsOnCourse s (5 * s.total) [] 0 0 0 0 (pages_in s.pages regions) (λ k. over) p
  course p regions i all = record {
    running = subst (λ todo. IsRunning s 0 0 0 todo (λ k. over) p) all (started p i);
    results = refl;
    bounded = omega (arith, all);
    new = [];
    grown = i.idle;
  }

  -- WriteOne returns within five rounds for each page.
  pub loop-IsReturned :
      (regions : List CudaRegion) (p : Sender) (rounds : List (ℕ × List Entry))
      → IsStarting s p
      → s.total ≡ pages_in s.pages regions
      → 5 * s.total ≤ length rounds
      → ((p' : Sender) → starts regions p ≡ ok p' → Serves s rounds p')
      → (front : List (ℕ × List Entry)) × (back : List (ℕ × List Entry)) × (p' : Sender) × (rounds
          ≡ front ++ back)
        × ((starts regions p >>= loop s front) ≡ ok p')
        × IsReturned s p'
  unfolding run_loop
  loop-IsReturned regions p rounds i all enough serves =
      elim (fill_regions-Leads s sound (5 * s.total) [] regions 0 0 0 (λ k. over) p
        (course p regions i all)) [
          | inl (first, t, size, n, todo, phases, p1, new, started, w, results, bounded, grown) ↦
              let (front, back, p', split, ran, returned) =
                loop-Returns (5 * s.total) rounds p1
                  (record {
                    first = first;
                    t = t;
                    size = size;
                    n = n;
                    todo = todo;
                    phases = phases;
                    awaiting = w;
                    results = results;
                    bounded = bounded;
                  })
                  enough (serves p1 started) in
              (front, back, p', split, ap (λ o. o >>= loop s front) started ∙ ran, returned)
          | inr (p1, started, returned, _) ↦
              ([], rounds, p1, refl, ap (λ o. o >>= loop s []) started ∙ refl, returned)
        ]

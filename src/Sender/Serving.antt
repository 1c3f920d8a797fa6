-- ===== src/Sender/Serving.antt =====
-- Writer::WriteOne of src/batch/main.cc: one round of IO::Run in its process leaves less to do.
use aws_efa_examples.Common.{
  ℕ, suc, ◌+◌, ◌≤◌, ◌≡◌, ◌≢◌, ◌⊎◌, ◌∙◌, refl, sym, ap, subst, List, [], map, ◌∷◌, ◌++◌, length,
  append-nil, append_assoc, arith, Outcome, ok, ◌>>=◌, inl, inr,
}
use aws_efa_examples.Loop.Defs.{Entry}
use aws_efa_examples.Loop.Io.{select_events, run_ready, runone, run_loop, Round}
use aws_efa_examples.Loop.Io.Rounds.{run_ready-next, runone_no_timer}
use aws_efa_examples.Coro.{waits}
use aws_efa_examples.Reader.Polls.{brings}
use aws_efa_examples.Sender.{Sender, sender_host}
use aws_efa_examples.Sender.Windows.{Setting, IsSound, run}
use aws_efa_examples.Sender.Steps.{IsReturned}
use aws_efa_examples.Sender.Course.{front_nil}
use aws_efa_examples.Sender.Polling.{AreCompletions, select_events-IsLanded}
use aws_efa_examples.Sender.Rounds.{IsGoing, turn-Turned}

module _ (s : Setting) where
  -- The body of the loop of IO::Run.
  abbrev pub turn : (now : ℕ) → List Entry → Sender → Outcome Sender
  turn now es p = select_events s.fi.remote_write (λ _. brings es) p.coros.io >>= λ io.
      runone sender_host (run s) now (sender_host.with_io io p)

  abbrev pub round_of : ℕ × List Entry → Round
  round_of (now, es) = record { now = now; read = λ _. brings es }

  -- IO::Run over some rounds, each with its time and what its poll brings.
  abbrev pub loop : List (ℕ × List Entry) → Sender → Outcome Sender
  loop rounds = run_loop sender_host (run s) s.fi.remote_write (map round_of rounds)

  -- libfabric completes only writes that are in flight, each once, and at least one where nothing is
  -- queued.
  abbrev pub Serves : List (ℕ × List Entry) → Sender → Type 0
  Serves [] p = Unit
  Serves ((now, es) ∷ rounds) p =
      AreCompletions s p es
      × (p.coros.io.ready ≡ [] → es ≢ [])
      × ((p' : Sender) → turn now es p ≡ ok p' → Serves rounds p')

  -- WriteOne starts, in a process that polls one queue and has nothing else to do.
  pub record IsStarting (p : Sender) : Type 0 where
    pub no_futs : p.futs ≡ []
    pub none_made : p.made ≡ 0
    pub counted : p.ops ≡ s.base
    pub idle : p.coros.io.ready ≡ []
    pub no_timer : p.coros.io.schedule ≡ []
    pub polls : p.coros.io.selector.cqs ≡ s.cq ∷ []
    pub main_waits : (p.coros.promises s.main).status ≡ waits
    pub main_awaiter : (p.coros.promises s.main).next ≡ s.boss

no_entries : (es : List Entry) → length es ≡ 0 → es ≡ []
no_entries [] e = refl
no_entries (x ∷ es) e = absurd (omega arith)

module _ (s : Setting) (sound : IsSound s) where
  at_most : (least most : ℕ) (p : Sender) → IsGoing s least p → least ≤ most → IsGoing s most p
  at_most least most p g l = record {
    first = g.first;
    t = g.t;
    size = g.size;
    n = g.n;
    todo = g.todo;
    phases = g.phases;
    awaiting = g.awaiting;
    results = g.results;
    bounded = omega (arith, g.bounded, l);
  }

  -- After some turns.
  abbrev pub Ran : (most : ℕ) → Outcome Sender → Type 0
  Ran most o =
      ((p : Sender) × (o ≡ ok p) × IsGoing s most p) ⊎ ((p : Sender) × (o ≡ ok p) × IsReturned s p)

  run_ready-Ran :
      (hs later : List ℕ) (most : ℕ) (p : Sender)
      → IsGoing s (length hs + most) p
      → p.coros.io.ready ≡ hs ++ later
      → Ran most (run_ready sender_host (run s) (length hs) p)
  unfolding run_ready
  run_ready-Ran [] later most p g r = inl (p, refl, subst (λ m. IsGoing s m p) (zero_add most) g)
    where
      zero_add : (m : ℕ) → 0 + m ≡ m
      zero_add m = omega arith
  run_ready-Ran (h ∷ hs) later most p g r =
      elim (turn-Turned s sound (suc (length hs) + most) h (hs ++ later) p g r) [
        | inl (p', left, new, ran, g', less, grown) ↦
            subst (Ran most)
              (sym (run_ready-next sender_host (run s) (length hs) h (hs ++ later) p (ok p') r ran))
              (run_ready-Ran hs (later ++ new) most p'
                (at_most left (length hs + most) p' g' (omega (arith, less)))
                (grown ∙ append_assoc hs later new))
        | inr (p', ran, returned, none) ↦ inr (
          p',
          run_ready-next sender_host (run s) (length hs) h (hs ++ later) p (ok p') r ran
              ∙ ap (λ hs. run_ready sender_host (run s) (length hs) p') (front_nil hs later none),
          returned,
        )
      ]

  queue-Ran :
      (most : ℕ) (ready : List ℕ) (p : Sender)
      → IsGoing s (suc most) p
      → p.coros.io.ready ≡ ready
      → ready ≢ []
      → Ran most (run_ready sender_host (run s) (length ready) p)
  queue-Ran most [] p g r some = absurd (some refl)
  queue-Ran most (h ∷ hs) p g r some =
      run_ready-Ran (h ∷ hs) [] most p
        (at_most (suc most) (suc (length hs) + most) p g (omega arith))
        (r ∙ sym (append-nil (h ∷ hs)))

  -- A round.
  pub turn-Ran :
      (most now : ℕ) (es : List Entry) (p : Sender)
      → IsGoing s (suc most) p
      → AreCompletions s p es
      → (p.coros.io.ready ≡ [] → es ≢ [])
      → Ran most (turn s now es p)
  turn-Ran most now es p g completions some =
      let (io, told, l) =
        select_events-IsLanded s sound g.first g.t g.size g.n g.todo g.phases p g.awaiting g.results
          es completions in
      let q = sender_host.with_io io p in
      let going : IsGoing s (suc most) q = record {
        first = g.first;
        t = g.t;
        size = g.size;
        n = g.n;
        todo = g.todo;
        phases = l.phases;
        awaiting = l.awaiting;
        results = g.results;
        bounded = omega (arith, l.less, g.bounded);
      } in
      let queued : io.ready ≢ [] = λ none.
        let before = front_nil p.coros.io.ready l.new (sym l.grown ∙ none) in
        some before (
          no_entries es
            (sym l.each ∙ ap length (ap (λ r. r ++ l.new) (sym before) ∙ sym l.grown ∙ none))) in
      subst (Ran most)
        (sym (
          ap (λ o. o >>= λ io. runone sender_host (run s) now (sender_host.with_io io p)) told
          ∙ runone_no_timer sender_host (run s) now q l.awaiting.window.no_timer))
        (queue-Ran most io.ready q going refl queued)

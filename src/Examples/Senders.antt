-- ===== src/Examples/Senders.antt =====
-- WriteOne in the event loop, on one page.
use aws_efa_examples.Common.{
  inl, inr, ℕ, ◌≡◌, ◌≢◌, refl, sym, subst, false, List, [], ◌∷◌, ◌++◌, Outcome, ok, throw,
  undefined, ◌>>=◌, ok-injective, ◌+◌, arith, All, ◌≤◌, ◌<◌, length, ap, ◌∙◌,
}
use aws_efa_examples.Loop.Defs.{Entry}
use aws_efa_examples.Coro.{waits}
use aws_efa_examples.Coro.Values.{unset}
use aws_efa_examples.Writer.{CudaRegion}
use aws_efa_examples.Sender.{sender_host, Sender, draining, fill_regions, run_sender}
use aws_efa_examples.Loop.Io.{select_events, runone, run_loop}
use aws_efa_examples.Loop.Io.Rounds.{Runs, runone-Runs}
use aws_efa_examples.Sender.Calls.{over}
use aws_efa_examples.Sender.Filling.{fill_regions-Leads}
use aws_efa_examples.Sender.Rounds.{IsGoing}
use aws_efa_examples.Sender.Appending.{CanRun, run-Appends}
use aws_efa_examples.Sender.Tally.{begun_of}
use aws_efa_examples.Sender.Counting.{fill_regions-begun_of}
use aws_efa_examples.Sender.Windows.{Setting, IsSound, run}
use aws_efa_examples.Sender.Steps.{IsReturned}
use aws_efa_examples.Sender.Polling.{IsCompletion}
use aws_efa_examples.Sender.Finishing.{starts, course}
use aws_efa_examples.Sender.Sending.{fill_regions-IsReturned}
use aws_efa_examples.Sender.Serving.{round_of, IsStarting, Serves, turn, loop}
use aws_efa_examples.Examples.{entry, idle}
use aws_efa_examples.Examples.Messages.{fabric, connection, posted}
use aws_efa_examples.Examples.Readers.{frame, context}

abbrev region : CudaRegion
region = record { addr = 500000; size = 4096; key = 9 }

-- WriteOne at 10 and its awaiter at 20, with one page to write, after 3 operations.
abbrev setting : Setting
setting = record {
  fi = fabric;
  post = posted;
  conn = connection;
  pages = record { cuda_buffer = 131072; page_size = 64; num_pages = 1 };
  main = 10;
  boss = 20;
  cq = 7;
  base = 3;
  total = 1;
  frame = frame;
  context = context;
}

setting-IsSound : IsSound setting
setting-IsSound = record {
  main_real = omega arith;
  boss_real = omega arith;
  frames_real = λ k. omega arith;
  frames_main = λ k. omega arith;
  frames_apart = λ j k a b e. omega arith;
  contexts_real = λ k. omega arith;
  contexts_apart = λ j k a b e. omega arith;
  accepted = λ m. refl;
  some_bytes = omega arith;
}

abbrev sender : Sender
sender = record {
  coros = record {
    io = record idle { selector = record { cqs = 7 ∷ []; imm_data_contexts = [] } };
    promises = λ h. record { oneway = false; next = 20; held = unset; status = waits };
  };
  bytes = λ a. 0;
  posted = [];
  asked = λ k. record { src = 0; sz = 0; addr = 0; key = 0; imm_data = 0 };
  begun = λ k. false;
  futs = [];
  made = 0;
  ops = 3;
  sent = 0;
  place = draining [];
}

sender-IsStarting : IsStarting setting sender
sender-IsStarting = record {
  no_futs = refl;
  none_made = refl;
  counted = refl;
  idle = refl;
  no_timer = refl;
  polls = refl;
  main_waits = refl;
  main_awaiter = refl;
}

-- The completion of the write.
abbrev completion : Entry
completion = entry 1000 4 64 0

abbrev rounds : List (ℕ × List Entry)
rounds = (0, []) ∷ (1, completion ∷ []) ∷ (2, []) ∷ (3, []) ∷ (4, []) ∷ []

-- The process after a step that returns.
abbrev after : Outcome Sender → Sender
after (ok p) = p
after (throw e) = sender
after undefined = sender

after-ok : (o : Outcome Sender) (p : Sender) → o ≡ ok p → after o ≡ p
after-ok (ok q) p e = ok-injective e
after-ok (throw x) p e = cc
after-ok undefined p e = cc

next-Serves :
    (o : Outcome Sender) (rs : List (ℕ × List Entry))
    → Serves setting rs (after o)
    → (p : Sender) → o ≡ ok p
    → Serves setting rs p
next-Serves o rs serves p e = subst (Serves setting rs) (after-ok o p e) serves

abbrev begins : Outcome Sender
begins = starts setting setting-IsSound (region ∷ []) sender

abbrev one_round : Sender
one_round = after (turn setting 0 [] (after begins))

abbrev two_rounds : Sender
two_rounds = after (turn setting 1 (completion ∷ []) one_round)

abbrev three_rounds : Sender
three_rounds = after (turn setting 2 [] two_rounds)

-- Who is queued then.
queues :
    (((after begins).coros.io.ready ≡ 100 ∷ []) × (one_round.coros.io.ready ≡ []))
    × ((two_rounds.coros.io.ready ≡ 10 ∷ []) × (three_rounds.coros.io.ready ≡ 20 ∷ []))
unfolding fill_regions run_sender select_events runone
queues = ((refl, refl), (refl, refl))

completion-IsCompletion : IsCompletion setting one_round completion
unfolding fill_regions run_sender select_events runone
completion-IsCompletion = record {
  k = 0;
  in_futs = λ e. omega (arith, e);
  not_ended = refl;
  suspended = refl;
  for_it = refl;
  local = refl;
  done = refl;
}

undefined-ok : (p : Sender) → undefined ≢ ok p
undefined-ok p e = cc

-- The awaiter is no handle of this process.
outside : turn setting 3 [] three_rounds ≡ undefined
unfolding fill_regions run_sender select_events runone
outside = refl

last-Serves : Serves setting ((3, []) ∷ (4, []) ∷ []) three_rounds
last-Serves =
    let (_, (_, q3)) = queues in
    (
      (tt, tt),
      (λ e. absurd (omega (arith, ap length (sym q3 ∙ e)))),
      (λ p e. absurd (undefined-ok p (sym outside ∙ e))),
    )

third-Serves : Serves setting ((2, []) ∷ (3, []) ∷ (4, []) ∷ []) two_rounds
third-Serves =
    let (_, (q2, _)) = queues in
    (
      (tt, tt),
      (λ e. absurd (omega (arith, ap length (sym q2 ∙ e)))),
      next-Serves (turn setting 2 [] two_rounds) ((3, []) ∷ (4, []) ∷ []) last-Serves,
    )

second-Serves : Serves setting ((1, completion ∷ []) ∷ (2, []) ∷ (3, []) ∷ (4, []) ∷ []) one_round
second-Serves = (
  ((completion-IsCompletion, tt), (tt, tt)),
  (λ _ e. cc),
  next-Serves (turn setting 1 (completion ∷ []) one_round) ((2, []) ∷ (3, []) ∷ (4, []) ∷ [])
      third-Serves,
)

rounds-Serves : Serves setting rounds (after begins)
rounds-Serves =
    let ((q0, _), _) = queues in
    (
      (tt, tt),
      (λ e. absurd (omega (arith, ap length (sym q0 ∙ e)))),
      next-Serves (turn setting 0 [] (after begins))
          ((1, completion ∷ []) ∷ (2, []) ∷ (3, []) ∷ (4, []) ∷ []) second-Serves,
    )

fill_regions-IsReturned_example :
    (front : List (ℕ × List Entry)) × (back : List (ℕ × List Entry)) × (p' : Sender) × (rounds
      ≡ front ++ back)
    × ((starts setting setting-IsSound (region ∷ []) sender >>= loop setting front) ≡ ok p')
    × IsReturned setting p'
    × (p'.sent ≡ 0 + 1)
    × (length p'.posted ≡ 0 + 1)
fill_regions-IsReturned_example =
    fill_regions-IsReturned setting setting-IsSound (region ∷ []) sender rounds sender-IsStarting
      refl (omega arith) (next-Serves begins rounds rounds-Serves)

-- The sum of some handles.
abbrev sum : List ℕ → ℕ
sum [] = 0
sum (h ∷ hs) = h + sum hs

-- The first two of the rounds.
two_rounds-returns :
    (begins
      >>= run_loop sender_host
          (run setting)
          8
          (round_of setting (0, []) ∷ round_of setting (1, completion ∷ []) ∷ []))
    ≡ ok two_rounds
unfolding fill_regions run_sender select_events runone run_loop
two_rounds-returns = refl

fill_regions-begun_of_example :
    ((length two_rounds.futs ≤ 8) × All (λ k. k < two_rounds.made) two_rounds.futs)
    × (two_rounds.sent ≡ 0 + two_rounds.made)
    × (length two_rounds.posted ≡ 0 + begun_of two_rounds.begun two_rounds.made)
    × (length two_rounds.posted + 0 ≤ 0 + two_rounds.sent)
fill_regions-begun_of_example =
    fill_regions-begun_of setting (region ∷ [])
      (round_of setting (0, []) ∷ round_of setting (1, completion ∷ []) ∷ []) sender two_rounds refl
      refl two_rounds-returns

begins-IsGoing : IsGoing setting 5 (after begins)
begins-IsGoing =
    elim (fill_regions-Leads setting setting-IsSound 5 [] (region ∷ []) 0 0 0 (λ k. over) sender
      (course setting setting-IsSound sender (region ∷ []) sender-IsStarting refl)) [
        | inl (first, t, size, n, todo, phases, p, new, started, w, results, bounded, grown) ↦
            subst (IsGoing setting 5) (sym (after-ok begins p started)) (record {
              first = first;
              t = t;
              size = size;
              n = n;
              todo = todo;
              phases = phases;
              awaiting = w;
              results = results;
              bounded = bounded;
            })
        | inr (p, started, returned, _) ↦
            let ((q0, _), _) = queues in
            absurd (
              omega (
                arith,
                ap sum (
                    sym returned.queued
                    ∙ ap (λ (p : Sender). p.coros.io.ready) (sym (after-ok begins p started))
                    ∙ q0),
              ))
      ]

runone-Runs_example :
    (p' : Sender) × (runone sender_host (run setting) 0 (after begins) ≡ ok p')
    × Runs sender_host (run setting) (100 ∷ []) (after begins) p'
unfolding fill_regions run_sender
runone-Runs_example =
    runone-Runs sender_host (CanRun setting) (run setting) (run-Appends setting setting-IsSound) 0
      (after begins) tt (inl (5, [], begins-IsGoing, refl))

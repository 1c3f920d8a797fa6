-- ===== src/Sender/Turns.antt =====
-- The turns of Conn::Write in WriteOne's process.
use aws_efa_examples.Common.{
  ℕ, ◌+◌, ◌≤◌, ◌<◌, ◌≡◌, ◌≢◌, ◌∙◌, refl, sym, ap, subst, List, [], ◌∷◌, ◌++◌, count, count-append,
  append-nil, ◌==◌, if◌then◌else◌, arith, ne→==, Outcome, ok, some, inl, inr, eq_cases,
}
use aws_efa_examples.Loop.Io.{call}
use aws_efa_examples.Conn.{write, write_suspend, write_resume}
use aws_efa_examples.Coro.Values.{set_value}
use aws_efa_examples.Coro.{finish_turn, final_suspend}
use aws_efa_examples.Writer.{batch_size}
use aws_efa_examples.Writer.Pipeline.{upto}
use aws_efa_examples.Sender.{Sender, run_sender, run_write, call_at}
use aws_efa_examples.Sender.Calls.{Phase, fresh, flying, landed, over, awaited_by}
use aws_efa_examples.Sender.Work.{weight}
use aws_efa_examples.Sender.Windows.{
  taken, put, count_head, count_other, apart_both, call_at-upto, Setting, IsSound, run, Call, Kept,
  Awaiting, IsSame, IsWindow-put,
}

-- What the end of a call adds to `ready_`.
abbrev called : (next : ℕ) → List ℕ
called next = if next == 0 then [] else next ∷ []

count-called :
    (h next : ℕ) (rest : List ℕ) → next ≢ h → count h (rest ++ called next) ≡ count h rest
count-called h next rest n = ground (arith, count-append h rest (next ∷ []), count-append h rest [])

module _ (s : Setting) (sound : IsSound s) where
  -- The handle of a live call is run as that call.
  run_call :
      (first size k : ℕ) (p : Sender)
      → p.futs ≡ upto first size
      → size ≤ batch_size
      → first ≤ k
      → k < first + size
      → run s (s.frame k) p
        ≡ run_write s.fi s.post s.conn s.pages s.main s.frame s.context (s.frame k) k p
  unfolding run_sender
  run_call first size k p f small a b =
      let found : call_at s.fi s.post s.conn s.pages s.main s.frame s.context (s.frame k) p.futs
          ≡ some k =
        ap (call_at s.fi s.post s.conn s.pages s.main s.frame s.context (s.frame k)) f
        ∙ call_at-upto s.fi s.post s.conn s.pages s.main s.frame s.context first size k
            (λ j c d n.
              apart_both s.frame first size k j sound.frames_apart small a b c d (λ e. n (sym e)))
            a b in
      rw (ne→== (s.frame k) s.main (sound.frames_main k), found, run_sender) refl

  -- The body of a call begins: libfabric takes its write.
  fresh-turn :
      (k next : ℕ) (rest : List ℕ) (p : Sender)
      → p.coros.io.ready ≡ s.frame k ∷ rest
      → Call s fresh next k p
      → (p' : Sender) × (run_write s.fi s.post s.conn s.pages s.main s.frame s.context
            (s.frame k)
            k
            (taken (s.frame k) rest p)
          ≡ ok p')
        × Call s flying next k p'
        × IsSame s p p'
        × (p'.coros.io.ready ≡ rest)
        × ((j : ℕ) → s.frame k ≢ s.frame j → s.context k ≢ s.context j → j ≢ k → Kept s j p p')
  unfolding run_write write write_suspend
  fresh-turn k next rest p r c =
      rw (c.status, c.begun, c.holds, ne→== s.pages.page_size 0 sound.some_bytes, run_write)
        (rw (sound.accepted _) (
          _,
          refl,
          record {
            status = c.status;
            awaiter = c.awaiter;
            begun = ground arith;
            state = ground arith;
            queued = omega (arith, count_head (s.frame k) rest, ap (count (s.frame k)) r, c.queued);
            holds = ground arith;
          },
          record {
            futs = refl;
            made = refl;
            ops = refl;
            place = refl;
            schedule = refl;
            cqs = refl;
            begun = λ j e. ground (arith, e);
            main_promise = refl;
          },
          refl,
          λ j frames contexts n. record {
            promise = refl;
            asked = refl;
            begun = ground arith;
            state = ground arith;
            queued =
                sym (count_other (s.frame j) (s.frame k) rest frames)
                ∙ ap (count (s.frame j)) (sym r);
            bound = ground arith;
          },
        ))

  -- A call whose completion has come returns.
  landed-turn :
      (k next : ℕ) (rest : List ℕ) (p : Sender)
      → p.coros.io.ready ≡ s.frame k ∷ rest
      → Call s landed next k p
      → ((j : ℕ) → next ≢ s.frame j)
      → (p' : Sender) × (run_write s.fi s.post s.conn s.pages s.main s.frame s.context
            (s.frame k)
            k
            (taken (s.frame k) rest p)
          ≡ ok p')
        × Call s over next k p'
        × IsSame s p p'
        × (p'.coros.io.ready ≡ rest ++ called next)
        × ((j : ℕ) → s.frame k ≢ s.frame j → Kept s j p p')
  unfolding run_write write_resume finish_turn final_suspend set_value call
  landed-turn k next rest p r c other =
      rw (c.status, c.begun, c.holds, run_write)
        (
          _,
          refl,
          record {
            status = ground arith;
            awaiter = ground (arith, c.awaiter);
            begun = ground arith;
            state = ground (arith, c.awaiter, other k);
            queued = ground (
              arith,
              c.awaiter,
              count-called (s.frame k) next rest (other k),
              ap (count (s.frame k)) r,
              c.queued,
            );
            holds = ((p.coros.io.memory.contexts (s.context k)).entry.len, ground arith);
          },
          record {
            futs = ground arith;
            made = ground arith;
            ops = ground arith;
            place = ground arith;
            schedule = ground arith;
            cqs = ground arith;
            begun = λ j e. ground (arith, e);
            main_promise = ground (arith, sound.frames_main k);
          },
          ground (arith, c.awaiter, append-nil rest),
          λ j frames. record {
            promise = ground arith;
            asked = ground arith;
            begun = ground arith;
            state = ground (arith, c.awaiter, other j);
            queued = ground (
              arith,
              c.awaiter,
              count-called (s.frame j) next rest (other j),
              ap (count (s.frame j)) r,
            );
            bound = ground arith;
          },
        )

  main_count : (k : ℕ) (rest : List ℕ) → count s.main (s.frame k ∷ rest) ≡ count s.main rest
  main_count k rest = count_other s.main (s.frame k) rest (sound.frames_main k)

  awaited_other : (t k j : ℕ) → awaited_by s.main t k ≢ s.frame j
  awaited_other t k j = ground (arith, sound.frames_main j, sound.frames_real j)

  count_awaited :
      (t k h : ℕ) (rest : List ℕ)
      → h ≢ s.main
      → count h (rest ++ called (awaited_by s.main t k)) ≡ count h rest
  count_awaited t k h rest n =
      ground (arith, count-append h rest (s.main ∷ []), append-nil rest, sound.main_real)

  -- A turn of call `k` leads to a phase with less left to do, and adds to the back of `ready_`.
  abbrev pub Turns :
      (first t size todo k : ℕ) (ph : ℕ → Phase) (rest : List ℕ) (o : Outcome Sender) → Type 0
  Turns first t size todo k ph rest o =
      (x : Phase) × (p' : Sender) × (new : List ℕ) × (o ≡ ok p')
      × Awaiting s first t size todo (put k x ph) p'
      × (p'.coros.io.ready ≡ rest ++ new)
      × (weight x < weight (ph k))

  module _ (first t size todo k : ℕ) (ph : ℕ → Phase) (rest : List ℕ) (p : Sender)
      (w : Awaiting s first t size todo ph p) (r : p.coros.io.ready ≡ s.frame k ∷ rest) (a : t ≤ k)
      (b : k < first + size) where
    apart_frames : (j : ℕ) → first ≤ j → j < first + size → j ≢ k → s.frame k ≢ s.frame j
    apart_frames j c d n =
        apart_both s.frame first size k j sound.frames_apart w.window.at_most
          (omega (arith, w.window.from)) b c d (λ e. n (sym e))

    apart_contexts : (j : ℕ) → first ≤ j → j < first + size → j ≢ k → s.context k ≢ s.context j
    apart_contexts j c d n =
        apart_both s.context first size k j sound.contexts_apart w.window.at_most
          (omega (arith, w.window.from)) b c d (λ e. n (sym e))

    ran_as :
        run s (s.frame k) (taken (s.frame k) rest p)
        ≡ run_write s.fi s.post s.conn s.pages s.main s.frame s.context
            (s.frame k)
            k
            (taken (s.frame k) rest p)
    ran_as =
        run_call first size k (taken (s.frame k) rest p) w.window.futs w.window.at_most
          (omega (arith, w.window.from)) b

    pub fresh-Turns :
        ph k ≡ fresh
        → Turns first t size todo k ph rest (run s (s.frame k) (taken (s.frame k) rest p))
    fresh-Turns e =
        let (p', ran, mine, same, left, others) =
          fresh-turn k (awaited_by s.main t k) rest p r
            (subst (λ x. Call s x (awaited_by s.main t k) k p) e (w.window.calls k a b)) in
        (
          flying,
          p',
          [],
          ran_as ∙ ran,
          record {
            window =
                IsWindow-put s first t size todo k flying ph (awaited_by s.main t) p p' w.window
                  same mine a
                  (λ j c d n. others j (apart_frames j c d n) (apart_contexts j c d n) n) b
                  (λ h c. inr (inr (ground (arith, ap (count h) left, ap (count h) r))));
            present = w.present;
            place = rw same.place w.place;
            woken =
                ground
                  (arith, ap (count s.main) left, ap (count s.main) r, main_count k rest, w.woken);
          },
          left ∙ sym (append-nil rest),
          rw e (omega arith),
        )

    pub landed-Turns :
        ph k ≡ landed
        → Turns first t size todo k ph rest (run s (s.frame k) (taken (s.frame k) rest p))
    landed-Turns e =
        let (p', ran, mine, same, left, others) =
          landed-turn k (awaited_by s.main t k) rest p r
            (subst (λ x. Call s x (awaited_by s.main t k) k p) e (w.window.calls k a b))
            (awaited_other t k) in
        (
          over,
          p',
          called (awaited_by s.main t k),
          ran_as ∙ ran,
          record {
            window =
                IsWindow-put s first t size todo k over ph (awaited_by s.main t) p p' w.window same
                  mine a (λ j c d n. others j (apart_frames j c d n)) b
                  (λ h c. elim (eq_cases h s.main) [
                    | inl e ↦ inl e
                    | inr n ↦ inr (
                        inr (
                          ground
                            (arith, ap (count h) left, ap (count h) r, count_awaited t k h rest n)))
                  ]);
            present = w.present;
            place = rw same.place w.place;
            woken = elim (eq_cases t k) [
              | inl same ↦ ground (
                arith,
                ap (count s.main) left,
                ap (count s.main) r,
                main_count k rest,
                w.woken,
                e,
                ap ph same,
                count-append s.main rest (s.main ∷ []),
                sound.main_real,
              )
              | inr n ↦ ground (
                arith,
                ap (count s.main) left,
                ap (count s.main) r,
                main_count k rest,
                w.woken,
                append-nil rest,
              )
            ];
          },
          left,
          rw e (omega arith),
        )

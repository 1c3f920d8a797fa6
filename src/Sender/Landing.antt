-- ===== src/Sender/Landing.antt =====
-- The calls whose completions a poll brings are queued.
use aws_efa_examples.Common.{
  ℕ, suc, ◌+◌, ◌≤◌, ◌<◌, ◌≡◌, ◌≢◌, ◌∙◌, refl, sym, ap, subst, List, [], map, All, true, ◌∷◌, ◌++◌,
  length, count, count-append, append-nil, append_assoc, arith, inl, inr, eq_cases, ne→==,
}
use aws_efa_examples.Loop.Defs.{Entry}
use aws_efa_examples.Loop.Selector.{has}
use aws_efa_examples.Loop.Io.{Io, call, call_events}
use aws_efa_examples.Sender.{Sender, sender_host}
use aws_efa_examples.Sender.Calls.{Phase, flying, landed, awaited_by}
use aws_efa_examples.Sender.Windows.{
  put, apart_both, Setting, IsSound, Call, Awaiting, IsWindow-put,
}
use aws_efa_examples.Sender.Work.{work, weight, weights-put}
use aws_efa_examples.Sender.Results.{called_ready}
use aws_efa_examples.Sender.Delivery.{AreApart, event_in}

module _ (s : Setting) (sound : IsSound s) where
  -- Call `k`, which an entry is for.
  pub record IsFor (first t size : ℕ) (ph : ℕ → Phase) (p : Sender) (handle : ℕ → ℕ) (e : Entry)
      : Type 0 where
    pub k : ℕ
    pub from : t ≤ k
    pub till : k < first + size
    pub flies : ph k ≡ flying
    pub for_it : e.op_context ≡ s.context k
    pub wakes : handle e.op_context ≡ s.frame k
    pub flagged : has (p.coros.io.memory.contexts (s.context k)).entry.flags s.fi.write ≡ true

  abbrev with_call : ℕ → Sender → Sender
  with_call h p = sender_host.with_io (call h p.coros.io) p

  -- One call is queued.
  call-Awaiting :
      (first t size todo k : ℕ) (ph : ℕ → Phase) (p : Sender)
      → Awaiting s first t size todo ph p
      → t ≤ k
      → k < first + size
      → ph k ≡ flying
      → has (p.coros.io.memory.contexts (s.context k)).entry.flags s.fi.write ≡ true
      → Awaiting s first t size todo (put k landed ph) (with_call (s.frame k) p)
  unfolding call
  call-Awaiting first t size todo k ph p w a b e flag =
      let c = subst (λ x. Call s x (awaited_by s.main t k) k p) e (w.window.calls k a b) in
      let q = p.coros.io.ready in
      let grown : (h : ℕ) → count h (q ++ s.frame k ∷ []) ≡ count h q + count h (s.frame k ∷ []) =
        λ h. count-append h q (s.frame k ∷ []) in
      record {
        window =
            IsWindow-put s first t size todo k landed ph (awaited_by s.main t) p
              (with_call (s.frame k) p) w.window
              (record {
                futs = refl;
                made = refl;
                ops = refl;
                place = refl;
                schedule = refl;
                cqs = refl;
                begun = λ j e. e;
                main_promise = refl;
              })
              (record {
                status = c.status;
                awaiter = c.awaiter;
                begun = c.begun;
                state = ground arith;
                queued = ground (arith, grown (s.frame k), c.queued);
                holds = flag;
              })
              a
              (λ j d d' n.
                let f : s.frame k ≢ s.frame j =
                  apart_both s.frame first size k j sound.frames_apart w.window.at_most
                    (omega (arith, w.window.from)) b d d' (λ e. n (sym e)) in
                record {
                  promise = refl;
                  asked = refl;
                  begun = refl;
                  state = ground (arith, f);
                  queued = ground (arith, grown (s.frame j), f);
                  bound = refl;
                })
              b
              (λ h c. elim (eq_cases h (s.frame k)) [
                | inl e ↦ inr (inl e)
                | inr n ↦ inr (inr (ground (arith, grown h)))
              ]);
        present = w.present;
        place = w.place;
        woken = elim (eq_cases t k) [
          | inl same ↦ ground (arith, grown s.main, sound.frames_main k, w.woken, e, ap ph same)
          | inr n ↦ ground (arith, grown s.main, sound.frames_main k, w.woken)
        ];
      }

  others-IsFor :
      (first t size k : ℕ) (ph : ℕ → Phase) (handle : ℕ → ℕ) (p : Sender) (e : Entry)
      (es : List Entry)
      → e.op_context ≡ s.context k
      → All (IsFor first t size ph p handle) es
      → All (λ f. f.op_context ≢ e.op_context) es
      → All (IsFor first t size (put k landed ph) (with_call (s.frame k) p) handle) es
  unfolding call
  others-IsFor first t size k ph handle p e [] same _ _ = tt
  others-IsFor first t size k ph handle p e (g ∷ es) same (f, fs) (n, ns) =
      let other : f.k ≢ k = λ i. n (f.for_it ∙ ap s.context i ∙ sym same) in
      (
        record {
          k = f.k;
          from = f.from;
          till = f.till;
          flies = rw (ne→== f.k k other) f.flies;
          for_it = f.for_it;
          wakes = f.wakes;
          flagged = f.flagged;
        },
        others-IsFor first t size k ph handle p e es same fs ns,
      )

  -- What the queueing of some calls leads to.
  pub record IsLanded (first t size n todo : ℕ) (ph : ℕ → Phase) (p : Sender) (es : List Entry)
      (p' : Sender) : Type 0 where
    pub phases : ℕ → Phase
    pub new : List ℕ
    pub awaiting : Awaiting s first t size todo phases p'
    pub grown : p'.coros.io.ready ≡ p.coros.io.ready ++ new
    pub each : length new ≡ length es
    pub less : work phases t n todo ≤ work ph t n todo

  abbrev pub with_calls : (ℕ → ℕ) → List Entry → Io → Sender → Sender
  with_calls handle es io p = sender_host.with_io (call_events (map (event_in handle) es) io) p

  -- The loop of IO::Select over the events of some entries.
  pub call_events-IsLanded :
      (es : List Entry) (first t size n todo : ℕ) (ph : ℕ → Phase) (handle : ℕ → ℕ) (p : Sender)
      → Awaiting s first t size todo ph p
      → t + n ≡ first + size
      → All (IsFor first t size ph p handle) es
      → AreApart es
      → IsLanded first t size n todo ph p es (with_calls handle es p.coros.io p)
  unfolding call_events
  call_events-IsLanded [] first t size n todo ph handle p w results _ _ = record {
    phases = ph;
    new = [];
    awaiting = w;
    grown = sym (append-nil p.coros.io.ready);
    each = refl;
    less = omega arith;
  }
  call_events-IsLanded (e ∷ es) first t size n todo ph handle p w results (f, fs) (apart, aparts) =
      let k = f.k in
      let q = with_call (s.frame k) p in
      let l =
        call_events-IsLanded es first t size n todo (put k landed ph) handle q
          (call-Awaiting first t size todo k ph p w f.from f.till f.flies f.flagged) results
          (others-IsFor first t size k ph handle p e es f.for_it fs apart) aparts in
      subst
        (λ h.
          IsLanded first t size n todo ph p (e ∷ es) (with_calls handle es (call h p.coros.io) p))
        (sym f.wakes)
        (record {
          phases = l.phases;
          new = s.frame k ∷ l.new;
          awaiting = l.awaiting;
          grown =
              l.grown
              ∙ ap (λ r. r ++ l.new) (called_ready (s.frame k) p.coros.io)
              ∙ append_assoc p.coros.io.ready (s.frame k ∷ []) l.new;
          each = ap suc l.each;
          less = omega (
            arith,
            l.less,
            weights-put k t n landed ph f.from (omega (arith, f.till, results)),
            ap weight f.flies,
          );
        })

-- ===== src/Sender/Polling.antt =====
-- IO::Select in WriteOne's process, where libfabric completes writes that are in flight.
use aws_efa_examples.Common.{
  ℕ, zero, suc, ◌+◌, ◌≤◌, ◌<◌, ◌≡◌, ◌≢◌, ◌∙◌, refl, sym, ap, subst, List, [], All, true, false, ◌∷◌,
  count, arith, ok, ◌>>=◌, inl, inr, eq_cases, ne→==, lt_cases,
}
use aws_efa_examples.Loop.Defs.{Entry, Memory, Handle, unschedule, scheduled, suspend}
use aws_efa_examples.Loop.Selector.{has}
use aws_efa_examples.Loop.Selector.Wakes.{handle_of}
use aws_efa_examples.Loop.Io.{Io, call_events, select_events, state_of}
use aws_efa_examples.Coro.{waits, ended}
use aws_efa_examples.Reader.Polls.{brings}
use aws_efa_examples.Writer.Pipeline.{upto}
use aws_efa_examples.Sender.{Sender, sender_host}
use aws_efa_examples.Sender.Calls.{Phase, fresh, flying, landed, over, awaited_by, Holds}
use aws_efa_examples.Sender.Windows.{Setting, IsSound, Call, Awaiting}
use aws_efa_examples.Sender.Delivery.{
  AreApart, IsForWrite, IsDelivered, handle_completion_writes, select_writes,
}
use aws_efa_examples.Sender.Landing.{IsFor, IsLanded, call_events-IsLanded}

scheduled-suspend : scheduled ≢ suspend
scheduled-suspend e = cc

unschedule-suspend : unschedule ≢ suspend
unschedule-suspend e = cc

waits-ended : waits ≢ ended
waits-ended e = cc

count-upto : (k first size : ℕ) → count k (upto first size) ≢ 0 → (first ≤ k) × (k < first + size)
count-upto k first zero c = absurd (c refl)
count-upto k first (suc size) c = elim (eq_cases first k) [
  | inl e ↦ (omega arith, omega arith)
  | inr n ↦
      let (a, b) = count-upto k (suc first) size (λ z. c (ground (arith, z, ne→== first k n))) in
      (omega arith, omega arith)
]

module _ (s : Setting) where
  -- The completion of the write of call `k`, whose coroutine is suspended since it was posted.
  pub record IsCompletion (p : Sender) (e : Entry) : Type 0 where
    pub k : ℕ
    pub in_futs : count k p.futs ≢ 0
    pub not_ended : (p.coros.promises (s.frame k)).status ≡ waits
    pub suspended : state_of p.coros.io (s.frame k) ≡ suspend
    pub for_it : e.op_context ≡ s.context k
    pub local : has e.flags s.fi.remote_write ≡ false
    pub done : has e.flags s.fi.write ≡ true

  -- A poll brings completions of writes in flight, each once.
  abbrev pub AreCompletions : Sender → List Entry → Type 0
  AreCompletions p es = All (IsCompletion p) es × AreApart es

module _ (s : Setting) (sound : IsSound s) where
  suspend-flying :
      (x : Phase) (next k : ℕ) (p : Sender)
      → Call s x next k p
      → state_of p.coros.io (s.frame k) ≡ suspend
      → x ≡ flying
  suspend-flying flying next k p c e = refl
  suspend-flying fresh next k p c e = absurd (scheduled-suspend (sym c.state ∙ e))
  suspend-flying landed next k p c e = absurd (scheduled-suspend (sym c.state ∙ e))
  suspend-flying over next k p c e = absurd (unschedule-suspend (sym c.state ∙ e))

  forwrite :
      (p : Sender) (es : List Entry)
      → All (IsCompletion s p) es
      → All (IsForWrite s.fi.remote_write s.fi.write) es
  forwrite p [] _ = tt
  forwrite p (e ∷ es) (c, cs) = (
    record {
      real = λ z. sound.contexts_real c.k (sym c.for_it ∙ z);
      local = c.local;
      done = c.done;
    },
    forwrite p es cs,
  )

  module _ (first t size n todo : ℕ) (ph : ℕ → Phase) (p : Sender)
      (w : Awaiting s first t size todo ph p) (results : t + n ≡ first + size) where
    -- The process after the poll has written the entries, before the handles are called.
    delivered : Memory → Sender
    delivered m' = sender_host.with_io (record p.coros.io { memory = m' }) p

    each-IsFor :
        (m' : Memory) (es : List Entry)
        → All (IsCompletion s p) es
        → All (λ e. has (m'.contexts e.op_context).entry.flags s.fi.write ≡ true) es
        → All (IsFor s sound first t size ph (delivered m') (handle_of p.coros.io.memory)) es
    unfolding delivered
    each-IsFor m' [] _ _ = tt
    each-IsFor m' (e ∷ es) (c, cs) (f, fs) =
        let (a, b) =
          count-upto c.k first size (λ z. c.in_futs (ap (count c.k) w.window.futs ∙ z)) in
        let from : t ≤ c.k = elim (lt_cases c.k t) [
          | inl l ↦ absurd (waits-ended (sym c.not_ended ∙ w.window.passed c.k a l))
          | inr g ↦ g
        ] in
        let call = w.window.calls c.k from b in
        let flies = suspend-flying (ph c.k) (awaited_by s.main t c.k) c.k p call c.suspended in
        (
          record {
            k = c.k;
            from = from;
            till = b;
            flies = flies;
            for_it = c.for_it;
            wakes =
                ap (handle_of p.coros.io.memory) c.for_it
                ∙ subst (λ x. Holds s.fi s.pages s.frame s.context x c.k p) flies call.holds;
            flagged = subst (λ a. has (m'.contexts a).entry.flags s.fi.write ≡ true) c.for_it f;
          },
          each-IsFor m' es cs fs,
        )

    delivered-Awaiting :
        (es : List Entry) (m' : Memory)
        → IsDelivered s.fi.write es p.coros.io.memory m'
        → Awaiting s first t size todo ph (delivered m')
    unfolding delivered
    delivered-Awaiting es m' d = record {
      window = record {
        futs = w.window.futs;
        made = w.window.made;
        at_most = w.window.at_most;
        from = w.window.from;
        till = w.window.till;
        ops = w.window.ops;
        in_all = w.window.in_all;
        calls = λ k a b.
            let c = w.window.calls k a b in
            record {
              status = c.status;
              awaiter = c.awaiter;
              begun = c.begun;
              state = ap (λ (h : ℕ → Handle). (h (s.frame k)).state) d.handles ∙ c.state;
              queued = c.queued;
              holds = holds (ph k) k c.holds;
            };
        early = w.window.early;
        passed = w.window.passed;
        only = w.window.only;
        no_timer = w.window.no_timer;
        polls = w.window.polls;
        main_waits = w.window.main_waits;
        main_awaiter = w.window.main_awaiter;
      };
      present = w.present;
      place = w.place;
      woken = w.woken;
    }
      where
        holds :
            (x : Phase) (k : ℕ)
            → Holds s.fi s.pages s.frame s.context x k p
            → Holds s.fi s.pages s.frame s.context x k (delivered m')
        holds fresh k h = h
        holds flying k h = d.handle (s.context k) ∙ h
        holds landed k h = d.kept (s.context k) h
        holds over k h = h

    -- IO::Select returns, and the calls that are completed are queued.
    pub select_events-IsLanded :
        (es : List Entry)
        → AreCompletions s p es
        → (io : Io) × (select_events s.fi.remote_write (λ _. brings es) p.coros.io ≡ ok io)
          × IsLanded s sound first t size n todo ph p es (sender_host.with_io io p)
    unfolding select_events delivered
    select_events-IsLanded es (cs, aparts) =
        let io = p.coros.io in
        let (m', told, d) =
          handle_completion_writes s.fi.remote_write s.fi.write io.selector.imm_data_contexts es
            io.memory [] (forwrite p es cs) in
        let l =
          call_events-IsLanded s sound es first t size n todo ph (handle_of io.memory)
            (delivered m') (delivered-Awaiting es m' d) results (each-IsFor m' es cs d.arrived)
            aparts in
        (
          _,
          ap (λ o. o >>= λ s. ok (call_events s.1 (record io { memory = s.0 })))
              (select_writes s.fi.remote_write s.cq es io.selector io.memory w.window.polls
                ∙ ap ok told),
          record {
            phases = l.phases;
            new = l.new;
            awaiting = l.awaiting;
            grown = l.grown;
            each = l.each;
            less = l.less;
          },
        )

-- ===== src/Sender/Appending.antt =====
-- Writer::WriteOne of src/batch/main.cc: its process runs the handles of a round one after the other.
use aws_efa_examples.Common.{
  ℕ, ◌≡◌, ◌⊎◌, ◌∙◌, sym, ap, List, [], ◌∷◌, ◌++◌, append_assoc, drop, inl, inr, arith,
}
use aws_efa_examples.Loop.Io.Rounds.{Appends}
use aws_efa_examples.Sender.{Sender, sender_host}
use aws_efa_examples.Sender.Windows.{Setting, IsSound, run}
use aws_efa_examples.Sender.Steps.{IsReturned}
use aws_efa_examples.Sender.Course.{front_nil}
use aws_efa_examples.Sender.Rounds.{IsGoing, turn-Turned}

module _ (s : Setting) where
  -- The handles to run are the first of the queue while WriteOne awaits a call, and there are none when it
  -- has returned.
  abbrev pub CanRun : List ℕ → Sender → Type 0
  CanRun hs p =
      ((most : ℕ) × (later : List ℕ) × IsGoing s most p × (p.coros.io.ready ≡ hs ++ later))
      ⊎ (IsReturned s p × (hs ≡ []))

tail_eq : (h g : ℕ) (hs gs : List ℕ) → h ∷ hs ≡ g ∷ gs → hs ≡ gs
tail_eq h g hs gs e = ap (drop 1) e

module _ (s : Setting) (sound : IsSound s) where
  pub run-Appends : Appends sender_host (CanRun s) (run s)
  run-Appends h hs rest p (inr (returned, none)) r = absurd (ground (arith, none))
  run-Appends h hs rest p (inl (most, later, g, queue)) r =
      let same : rest ≡ hs ++ later = tail_eq h h rest (hs ++ later) (sym r ∙ queue) in
      elim (turn-Turned s sound most h rest p g r) [
        | inl (p', left, new, ran, going, _, grown) ↦ (
          p',
          new,
          ran,
          grown,
          inl (
            left,
            later ++ new,
            going,
            grown ∙ ap (λ q. q ++ new) same ∙ append_assoc hs later new,
          ),
        )
        | inr (p', ran, returned, none) ↦ (
          p',
          s.boss ∷ [],
          ran,
          returned.queued ∙ ap (λ q. q ++ s.boss ∷ []) (sym none),
          inr (returned, front_nil hs later (sym same ∙ none)),
        )
      ]

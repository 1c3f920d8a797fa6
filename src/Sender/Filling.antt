-- ===== src/Sender/Filling.antt =====
-- Writer::WriteOne of src/batch/main.cc: the loops over the regions and their pages lead to an await or to the end.
use aws_efa_examples.Common.{
  ℕ, zero, suc, ◌+◌, ◌<◌, ◌≡◌, ◌∙◌, refl, sym, ap, subst, List, [], ◌∷◌, arith, Outcome, inl, inr,
  lt_cases,
}
use aws_efa_examples.Writer.{CudaRegion, batch_size, page_request}
use aws_efa_examples.Writer.Pipeline.{upto}
use aws_efa_examples.Sender.{
  Sender, filling, pop_future, push_future, throttle_from, fill_region, fill_regions, drain_from,
}
use aws_efa_examples.Sender.Calls.{Phase, fresh, pages_in}
use aws_efa_examples.Sender.Windows.{put, Setting, IsSound}
use aws_efa_examples.Sender.Course.{
  IsOnCourse, Leads, drain_from-Leads, await-Leads, push-IsOnCourse, pop-IsOnCourse, throttle_room,
  pred,
}

suc_add : (n m : ℕ) → suc n + m ≡ suc (n + m)
suc_add n m = omega arith

zero_add : (m : ℕ) → 0 + m ≡ m
zero_add m = omega arith

module _ (s : Setting) (sound : IsSound s) (most : ℕ) (ready : List ℕ) where
  module _ (regions : List CudaRegion) (next : Sender → Outcome Sender) (region : CudaRegion)
      (after : (first size n : ℕ) (ph : ℕ → Phase) (p : Sender)
        → IsOnCourse s most ready first first size n (pages_in s.pages regions) ph p
        → Leads s most ready (next p)) where
    abbrev fill : (i n : ℕ) → Sender → Outcome Sender
    fill = fill_region s.fi s.post s.conn s.pages s.main s.frame s.context regions next region

    abbrev fill_next : (i n : ℕ) → Sender → Outcome Sender
    fill_next i n p = fill (i + 1) n (
        push_future s.fi s.post s.conn s.pages s.main s.frame s.context
          (page_request s.pages region i) p)

    abbrev throttled : (i left : ℕ) → List ℕ → Sender → Outcome Sender
    throttled i left =
        throttle_from s.fi s.post s.conn s.pages s.main s.frame s.context
          (filling regions region i left) (fill_next i left)

    -- The loop over the pages goes on after the await, where the next page `i` has room.
    pub fill_next-Leads :
        (i left : ℕ)
        → ((i first size n : ℕ) (ph : ℕ → Phase) (p : Sender)
            → IsOnCourse s most ready first first size n (left + pages_in s.pages regions) ph p
            → Leads s most ready (fill i left p))
        → (first size n : ℕ) (ph : ℕ → Phase) (p : Sender)
        → IsOnCourse s most ready first first size n (suc left + pages_in s.pages regions) ph p
        → size < batch_size
        → Leads s most ready (fill_next i left p)
    fill_next-Leads i left again first size n ph p c room =
        again (i + 1) first (suc size) (suc n) (put (first + size) fresh ph) _ (
          push-IsOnCourse s sound most ready first size n (left + pages_in s.pages regions) ph
            (page_request s.pages region i) p
            (subst (λ todo. IsOnCourse s most ready first first size n todo ph p)
              (suc_add left (pages_in s.pages regions)) c)
            room refl)

    throttle_full-Leads :
        (i left : ℕ)
        → ((i first size n : ℕ) (ph : ℕ → Phase) (p : Sender)
            → IsOnCourse s most ready first first size n (left + pages_in s.pages regions) ph p
            → Leads s most ready (fill i left p))
        → (first n : ℕ) (ph : ℕ → Phase) (p : Sender)
        → IsOnCourse s most ready first first batch_size
            (suc n)
            (suc left + pages_in s.pages regions)
            ph
            p
        → Leads s most ready (throttled i left (upto first batch_size) p)
    unfolding throttle_from
    throttle_full-Leads i left again first n ph p c =
        let popped =
          pop_future s.fi s.post s.conn s.pages s.main s.frame s.context first
            (upto (suc first) 7) in
        await-Leads s sound most ready first first batch_size n
          (suc left + pages_in s.pages regions) ph (filling regions region i left)
          (λ p. throttled i left (upto (suc first) 7) (popped p)) p c (refl, refl, omega arith)
          λ e.
            subst (Leads s most ready)
              (sym (
                throttle_room s sound most ready (suc first) 7 (filling regions region i left)
                  (fill_next i left) (popped p) (omega arith)))
              (fill_next-Leads i left again (suc first) 7 n ph (popped p)
                (pop-IsOnCourse s sound most ready first 7 n (suc left + pages_in s.pages regions)
                  ph p c e)
                (omega arith))

    pub fill_region-Leads :
        (left i first size n : ℕ) (ph : ℕ → Phase) (p : Sender)
        → IsOnCourse s most ready first first size n (left + pages_in s.pages regions) ph p
        → Leads s most ready (fill i left p)
    unfolding fill_region
    fill_region-Leads zero i first size n ph p c = after first size n ph p (
        subst (λ todo. IsOnCourse s most ready first first size n todo ph p)
          (zero_add (pages_in s.pages regions)) c)
    fill_region-Leads (suc left) i first size n ph p c = elim (lt_cases size batch_size) [
      | inl room ↦
          subst (Leads s most ready)
            (sym (
              ap (λ fs. throttled i left fs p) c.running.window.futs
              ∙ throttle_room s sound most ready first size (filling regions region i left)
                  (fill_next i left) p room))
            (fill_next-Leads i left (fill_region-Leads left) first size n ph p c room)
      | inr full ↦
          let eight : size ≡ batch_size = omega (arith, c.running.window.at_most) in
          let (n', results) = pred n (omega (arith, c.results)) in
          subst (Leads s most ready)
            (sym (
              ap (λ fs. throttled i left fs p)
                (c.running.window.futs ∙ ap (λ (size : ℕ). upto first size) eight)))
            (throttle_full-Leads i left (fill_region-Leads left) first n' ph p (
              subst
                (λ size.
                  IsOnCourse s most ready first first size (suc n')
                    (suc left + pages_in s.pages regions) ph p)
                eight
                (subst
                  (λ n.
                    IsOnCourse s most ready first first size n (suc left + pages_in s.pages regions)
                      ph p)
                  results c)))
    ]

  pub fill_regions-Leads :
      (regions : List CudaRegion) (first size n : ℕ) (ph : ℕ → Phase) (p : Sender)
      → IsOnCourse s most ready first first size n (pages_in s.pages regions) ph p
      → Leads s most ready
          (fill_regions s.fi s.post s.conn s.pages s.main s.frame s.context regions p)
  unfolding fill_regions
  fill_regions-Leads [] first size n ph p c =
      subst (Leads s most ready)
        (sym (
          ap (λ fs. drain_from s.fi s.post s.conn s.pages s.main s.frame s.context fs p)
            (c.running.window.futs ∙ ap (λ (m : ℕ). upto first m) (omega (arith, c.results)))))
        (drain_from-Leads s sound most ready n first first size ph p c)
  fill_regions-Leads (region ∷ regions) first size n ph p c =
      fill_region-Leads regions
        (fill_regions s.fi s.post s.conn s.pages s.main s.frame s.context regions) region
        (fill_regions-Leads regions) s.pages.num_pages 0 first size n ph p c

-- ===== src/Writer/Pipeline.antt =====
-- WriteOne does the writes of `requests` in order and awaits each exactly once, in order, with at
-- most eight in flight.
use native.Mathlib.Nat.{add-zero}
use aws_efa_examples.Common.{
  ◌<◌, ◌≤◌, sym, ◌∙◌, ℕ, zero, suc, ◌+◌, ◌≡◌, refl, ap, List, [], ◌∷◌, ◌++◌, append_assoc,
  append-nil, length, length-append, Outcome, ok, throw, undefined, ◌>>=◌, Run, ◌>>>◌, >>>-assoc,
  >>>-congr, take, arith, lt_cases, inl, inr,
}
use aws_efa_examples.Writer.{
  CudaRegion, Request, Batch, Pages, throttle, drain, post_page, write_one, batch_size, await_write,
  close_batch,
}
use aws_efa_examples.Writer.Requests.{requests, each, post_regions-each}

-- Await the writes a, a + 1, …, n of them, up to the first that fails, which leaves the state that `at`
-- gives for it; the state after the last is `last`.
unfoldable pub await_all :
    (ℕ → Outcome ℕ) → (at : ℕ → Batch) → (a n : ℕ) → (last : Batch) → Run Batch
await_all await at a zero last = (last, ok tt)
await_all await at a (suc n) last =
    (at a, await a >>= λ _. ok tt) >>> λ _. await_all await at (suc a) n last

-- The numbers a, a + 1, …, n of them.
abbrev pub upto : (a n : ℕ) → List ℕ
upto a zero = []
upto a (suc n) = a ∷ upto (suc a) n

pub length-upto : (a n : ℕ) → length (upto a n) ≡ n
length-upto a zero = refl
length-upto a (suc n) = ap suc (length-upto (suc a) n)

pub upto-snoc : (a n : ℕ) → upto a n ++ (a + n) ∷ [] ≡ upto a (suc n)
upto-snoc a zero = ap (λ (x : ℕ). x ∷ []) (add-zero a)
upto-snoc a (suc n) =
    ap (λ (l : List ℕ). a ∷ l) (ap (λ (x : ℕ). upto (suc a) n ++ x ∷ []) next ∙ upto-snoc (suc a) n)
  where
    next : a + suc n ≡ suc a + n
    next = omega arith

-- The variables where there are no futures.
abbrev pub settled : (ops sent : ℕ) → List Request → Batch
settled ops sent posted = record { futs = []; ops = ops; sent = sent; posted = posted }

-- The variables where write `b` is awaited, less the futures: seven more writes have been made, or all.
abbrev pub windowed : List Request → (ops sent b : ℕ) → Batch
windowed rs ops sent b = settled (ops + b) (sent + length (take (b + 8) rs)) (take (b + 8) rs)

-- And after the last.
abbrev pub finished : List Request → (ops sent : ℕ) → Batch
finished rs ops sent = settled (ops + length rs) (sent + length rs) rs

pub take-append : (n : ℕ) (xs ys : List Request) → n ≡ length xs → take n (xs ++ ys) ≡ xs
take-append zero [] ys e = refl
take-append zero (x ∷ xs) ys e = absurd (omega (arith, e))
take-append (suc n) [] ys e = absurd (omega (arith, e))
take-append (suc n) (x ∷ xs) ys e = ap (λ l. x ∷ l) (take-append n xs ys (omega (arith, e)))

take_whole : (n : ℕ) (xs : List Request) → length xs ≤ n → take n xs ≡ xs
take_whole zero [] l = refl
take_whole zero (x ∷ xs) l = absurd (omega (arith, l))
take_whole (suc n) [] l = refl
take_whole (suc n) (x ∷ xs) l = ap (λ l. x ∷ l) (take_whole n xs (omega (arith, l)))

pub settled_eq :
    (ops ops' sent sent' : ℕ) (posted posted' : List Request)
    → ops ≡ ops'
    → sent ≡ sent'
    → posted ≡ posted'
    → settled ops sent posted ≡ settled ops' sent' posted'
settled_eq ops ops' sent sent' posted posted' eo es ep = λ i. settled (eo i) (es i) (ep i)

-- One more await, whichever way it ends.
close-await :
    (o : Outcome (Unit {0})) (s t : Batch) (f g : Batch → Run Batch)
    → record s { futs = [] } ≡ t
    → close_batch (f s) ≡ g t
    → close_batch ((s, o) >>> f) ≡ ((t, o) >>> g)
close-await (ok _) s t f g e h = h
close-await (throw x) s t f g e h = ap (λ (b : Batch). (b, throw x)) e
close-await undefined s t f g e h = ap (λ (b : Batch). (b, undefined)) e

module _ (await : ℕ → Outcome ℕ) where
  -- With fewer than eight in flight nothing is awaited, with eight the first is.
  throttle_room : (a n : ℕ) (s : Batch) → n < batch_size → throttle await (upto a n) s ≡ (s, ok tt)
  unfolding throttle
  throttle_room a zero s h = refl
  throttle_room a (suc n) s h = ground (arith, length-upto (suc a) n)

  throttle_full :
      (a : ℕ) (s : Batch)
      → throttle await (upto a 8) s ≡ (
          await_write await a s >>> λ s.
          (record s { futs = upto (suc a) 7; ops = s.ops + 1 }, ok tt))
  unfolding throttle
  throttle_full a s = refl

  abbrev window : (a n ops sent : ℕ) → List Request → Batch
  window a n ops sent posted = record { futs = upto a n; ops = ops; sent = sent; posted = posted }

  post_page_room :
      (r : Request) (a n ops sent : ℕ) (posted : List Request)
      → n < batch_size
      → length posted ≡ a + n
      → post_page await r (window a n ops sent posted)
        ≡ (window a (suc n) ops (sent + 1) (posted ++ r ∷ []), ok tt)
  unfolding post_page
  post_page_room r a n ops sent posted h e =
      rw (throttle_room a n (window a n ops sent posted) h, post_page, e)
        (ap
          (λ (f : List ℕ).
            (record { futs = f; ops = ops; sent = sent + 1; posted = posted ++ r ∷ [] }, ok tt))
          (upto-snoc a n))

  post_page_full :
      (r : Request) (a ops sent : ℕ) (posted : List Request)
      → length posted ≡ a + 8
      → post_page await r (window a 8 ops sent posted) ≡ (
          await_write await a (window a 8 ops sent posted) >>> λ _.
          (window (suc a) 8 (ops + 1) (sent + 1) (posted ++ r ∷ []), ok tt))
  unfolding post_page
  post_page_full r a ops sent posted e =
      rw (throttle_full a (window a 8 ops sent posted), post_page)
        (>>>-assoc (await_write await a (window a 8 ops sent posted)) _ _
          ∙ >>>-congr (await_write await a (window a 8 ops sent posted)) _ _ (
              ap
                (λ (f : List ℕ). (
                  record { futs = f; ops = ops + 1; sent = sent + 1; posted = posted ++ r ∷ [] },
                  ok tt,
                ))
                eight))
    where
      last : length posted ≡ suc a + 7
      last = omega arith

      eight : upto (suc a) 7 ++ length posted ∷ [] ≡ upto (suc a) 8
      eight = ap (λ (x : ℕ). upto (suc a) 7 ++ x ∷ []) last ∙ upto-snoc (suc a) 7

  module _ (all : List Request) (ops0 sent0 : ℕ) where
    -- From write `a` on with `n` writes left to await.
    abbrev Ends : (a n : ℕ) → Run Batch
    Ends a n = await_all await (windowed all ops0 sent0) a n (finished all ops0 sent0)

    drain-upto :
        (a n ops sent : ℕ) (futs : List ℕ)
        → ops ≡ ops0 + a
        → sent ≡ sent0 + length all
        → length all ≡ a + n
        → n ≤ batch_size
        → close_batch
            (drain await (upto a n) (record { futs = futs; ops = ops; sent = sent; posted = all }))
          ≡ Ends a n
    unfolding drain await_all
    drain-upto a zero ops sent futs eo es e l =
        ap (λ (b : Batch). (b, ok tt))
          (settled_eq ops (ops0 + length all) sent (sent0 + length all) all all (omega arith) es
            refl)
    drain-upto a (suc n) ops sent futs eo es e l =
        let whole : all ≡ take (a + 8) all = sym (take_whole (a + 8) all (omega arith)) in
        close-await (await a >>= λ _. ok tt)
          (record { futs = futs; ops = ops; sent = sent; posted = all }) (windowed all ops0 sent0 a)
          _ _
          (settled_eq ops (ops0 + a) sent (sent0 + length (take (a + 8) all)) all (take (a + 8) all)
            eo (es ∙ ap (λ (l : List Request). sent0 + length l) whole) whole)
          (drain-upto (suc a) n (ops + 1) sent futs (omega arith) es (omega arith) (omega arith))

    abbrev rest : List Request → Batch → Run Batch
    rest rs s = each (post_page await) rs s >>> λ s. drain await s.futs s

    post_full :
        (r : Request) (rs : List Request) (a ops sent : ℕ) (posted : List Request)
        → length posted ≡ a + 8
        → ops ≡ ops0 + a
        → sent ≡ sent0 + length posted
        → all ≡ posted ++ r ∷ rs
        → close_batch (rest rs (window (suc a) 8 (ops + 1) (sent + 1) (posted ++ r ∷ [])))
          ≡ Ends (suc a) (8 + length rs)
        → close_batch (rest (r ∷ rs) (window a 8 ops sent posted)) ≡ Ends a (suc (8 + length rs))
    unfolding await_all
    post_full r rs a ops sent posted e eo es split ih =
        let w = window a 8 ops sent posted in
        let w' = window (suc a) 8 (ops + 1) (sent + 1) (posted ++ r ∷ []) in
        let made : posted ≡ take (a + 8) all =
          sym (take-append (a + 8) posted (r ∷ rs) (sym e)) ∙ ap (take (a + 8)) (sym split) in
        ap
          (λ (m : Run Batch).
            close_batch ((m >>> each (post_page await) rs) >>> λ s. drain await s.futs s))
          (post_page_full r a ops sent posted e)
        ∙ ap (λ (m : Run Batch). close_batch (m >>> λ s. drain await s.futs s))
            (>>>-assoc (await_write await a w) (λ _. (w', ok tt)) (each (post_page await) rs))
        ∙ ap close_batch (
            >>>-assoc (await_write await a w) (λ _. each (post_page await) rs w')
              (λ s. drain await s.futs s))
        ∙ close-await (await a >>= λ _. ok tt) w (windowed all ops0 sent0 a) (λ _. rest rs w')
            (λ _. Ends (suc a) (8 + length rs))
            (settled_eq ops (ops0 + a) sent (sent0 + length (take (a + 8) all)) posted
              (take (a + 8) all) eo (es ∙ ap (λ (l : List Request). sent0 + length l) made) made)
            ih

    each-post_page :
        (rs : List Request) (a n ops sent : ℕ) (posted : List Request)
        → n ≤ batch_size
        → length posted ≡ a + n
        → ops ≡ ops0 + a
        → sent ≡ sent0 + length posted
        → all ≡ posted ++ rs
        → close_batch (rest rs (window a n ops sent posted)) ≡ Ends a (n + length rs)
    each-post_page [] a n ops sent posted h e eo es split =
        let same : posted ≡ all = sym (append-nil posted) ∙ sym split in
        ap (λ p. close_batch (drain await (upto a n) (window a n ops sent p))) same
        ∙ drain-upto a n ops sent (upto a n) eo
            (es ∙ ap (λ (l : List Request). sent0 + length l) same) (ap length (sym same) ∙ e) h
        ∙ ap (Ends a) (omega arith)
    each-post_page (r ∷ rs) a n ops sent posted h e eo es split = elim (lt_cases n batch_size) [
      | inl room ↦
          ap
            (λ (m : Run Batch).
              close_batch ((m >>> each (post_page await) rs) >>> λ s. drain await s.futs s))
            (post_page_room r a n ops sent posted room e)
          ∙ each-post_page rs a (suc n) ops (sent + 1) (posted ++ r ∷ []) room
              (omega (arith, e, longer)) eo (omega (arith, es, longer))
              (split ∙ sym (append_assoc posted (r ∷ []) rs))
          ∙ ap (Ends a) (omega arith)
      | inr full ↦
          let eight : n ≡ 8 = omega arith in
          ap (λ (n : ℕ). close_batch (rest (r ∷ rs) (window a n ops sent posted))) eight
          ∙ post_full r rs a ops sent posted (e ∙ ap (λ n. a + n) eight) eo es split (
              each-post_page rs (suc a) 8 (ops + 1) (sent + 1) (posted ++ r ∷ []) (omega arith)
                (omega (arith, e, eight, longer)) (omega (arith, eo)) (omega (arith, es, longer))
                (split ∙ sym (append_assoc posted (r ∷ []) rs)))
          ∙ ap (Ends a) (omega (arith, eight))
    ]
      where
        longer : length (posted ++ r ∷ []) ≡ length posted + 1
        longer = length-append posted (r ∷ [])

-- WriteOne makes the writes of `requests` in order, and awaits the first, the second and so on, each once,
-- when it has made seven more, or all. With the first that fails it fails in the same way: `ops` has
-- grown by the number of writes before that one, `sent` by the number of writes that it has made.
-- Otherwise both counters have grown by the number of all writes. No future is left in any case.
pub write_one-eq :
    (await : ℕ → Outcome ℕ) (p : Pages) (regions : List CudaRegion) (ops sent : ℕ)
    → let rs = requests p regions in
      write_one await p regions ops sent
      ≡ await_all await (windowed rs ops sent) 0 (length rs) (finished rs ops sent)
unfolding write_one
write_one-eq await p regions ops sent =
    let rs = requests p regions in
    let start : Batch = record { futs = []; ops = ops; sent = sent; posted = [] } in
    ap (λ (m : Run Batch). close_batch (m >>> λ s. drain await s.futs s))
      (post_regions-each await p regions start)
    ∙ each-post_page await rs ops sent rs 0 0 ops sent [] (omega arith) refl (omega arith)
        (omega arith) refl
    ∙ ap (Ends await rs ops sent 0) (omega arith)

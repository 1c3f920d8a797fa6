-- ===== src/Writer/Sequential.antt =====
-- The window changes nothing but the timing: WriteOne of src/batch against that of src/affinity, which
-- awaits each write at once.
use aws_efa_examples.Common.{
  ◌<◌, ◌≤◌, ap, zero, suc, ℕ, ◌+◌, ◌≡◌, refl, sym, ◌∙◌, subst, List, [], ◌∷◌, ◌++◌, append_assoc,
  append-nil, length, length-append, take, Outcome, ok, throw, undefined, ◌>>=◌, Run, ◌>>>◌,
  >>>-assoc, >>>-congr, arith,
}
use aws_efa_examples.Writer.{
  CudaRegion, Request, Batch, Pages, write_page, write_one, write_one_by_one, await_write,
}
use aws_efa_examples.Writer.Requests.{requests, each, write_regions-each}
use aws_efa_examples.Writer.Pipeline.{
  await_all, settled, settled_eq, windowed, finished, take-append, write_one-eq,
}

-- The variables where write `b` is awaited in the form without a window: it is the last that is made.
abbrev pub at_once : List Request → (ops sent b : ℕ) → Batch
at_once rs ops sent b = settled (ops + b) (sent + (b + 1)) (take (b + 1) rs)

write_page-awaits :
    (await : ℕ → Outcome ℕ) (r : Request) (a ops sent : ℕ) (posted : List Request)
    → length posted ≡ a
    → write_page await r (settled ops sent posted) ≡ (
        await_write await a (settled ops (sent + 1) (posted ++ r ∷ [])) >>> λ s.
        (record s { ops = s.ops + 1 }, ok tt))
unfolding write_page
write_page-awaits await r a ops sent posted e =
    ap
      (λ (a : ℕ). await_write await a (settled ops (sent + 1) (posted ++ r ∷ [])) >>> λ s.
        (record s { ops = s.ops + 1 }, ok tt))
      e

module _ (await : ℕ → Outcome ℕ) (all : List Request) (ops0 sent0 : ℕ) where
  each-write_page :
      (rs : List Request) (a ops sent : ℕ) (posted : List Request)
      → length posted ≡ a
      → ops ≡ ops0 + a
      → sent ≡ sent0 + a
      → all ≡ posted ++ rs
      → each (write_page await) rs (settled ops sent posted)
        ≡ await_all await (at_once all ops0 sent0) a (length rs) (finished all ops0 sent0)
  unfolding await_all
  each-write_page [] a ops sent posted e eo es split =
      let same : posted ≡ all = sym (append-nil posted) ∙ sym split in
      ap (λ (b : Batch). (b, ok tt))
        (settled_eq ops (ops0 + length all) sent (sent0 + length all) posted all
          (omega (arith, eo, e, ap length same)) (omega (arith, es, e, ap length same)) same)
  each-write_page (r ∷ rs) a ops sent posted e eo es split =
      let next = posted ++ r ∷ [] in
      let whole : all ≡ next ++ rs = split ∙ sym (append_assoc posted (r ∷ []) rs) in
      let longer : length next ≡ a + 1 = omega (arith, e, length-append posted (r ∷ [])) in
      let made : next ≡ take (a + 1) all =
        sym (take-append (a + 1) next rs (sym longer)) ∙ ap (take (a + 1)) (sym whole) in
      let now = settled ops (sent + 1) next in
      let later =
        await_all await (at_once all ops0 sent0) (suc a) (length rs) (finished all ops0 sent0) in
      ap (λ (m : Run Batch). m >>> each (write_page await) rs)
        (write_page-awaits await r a ops sent posted e)
      ∙ >>>-assoc (await_write await a now) (λ s. (record s { ops = s.ops + 1 }, ok tt))
          (each (write_page await) rs)
      ∙ >>>-congr (await_write await a now)
          (λ s. each (write_page await) rs (record s { ops = s.ops + 1 })) (λ _. later)
          (each-write_page rs (suc a) (ops + 1) (sent + 1) next (omega (arith, longer))
            (omega (arith, eo)) (omega (arith, es)) whole)
      ∙ ap (λ (b : Batch). await_write await a b >>> λ _. later)
          (settled_eq ops (ops0 + a) (sent + 1) (sent0 + (a + 1)) next (take (a + 1) all) eo
            (omega (arith, es)) made)

-- The first has made `more` writes than the second, seven at most, and the same before them.
pub record IsAhead (b b' : Batch) : Type 0 where
  pub more : List Request
  pub posted : b.posted ≡ b'.posted ++ more
  pub sent : b.sent ≡ b'.sent + length more
  pub ops : b.ops ≡ b'.ops
  pub few : length more ≤ 7

-- They end in the same way, and where they return their variables are the same.
abbrev pub Agree : Run Batch → Run Batch → Type 0
Agree m m' = (m.1 ≡ m'.1) × IsAhead m.0 m'.0 × (m.1 ≡ ok tt → m.0 ≡ m'.0)

await-Agree :
    (o : Outcome ℕ) (s s' : Batch) (m m' : Run Batch)
    → IsAhead s s'
    → Agree m m'
    → Agree ((s, o >>= λ _. ok tt) >>> λ _. m) ((s', o >>= λ _. ok tt) >>> λ _. m')
await-Agree (ok n) s s' m m' ahead agree = agree
await-Agree (throw e) s s' m m' ahead agree = (refl, ahead, λ e. cc)
await-Agree undefined s s' m m' ahead agree = (refl, ahead, λ e. cc)

await_all-Agree :
    (await : ℕ → Outcome ℕ) (at at' : ℕ → Batch) (a n : ℕ) (last : Batch)
    → ((b : ℕ) → b < a + n → IsAhead (at b) (at' b))
    → Agree (await_all await at a n last) (await_all await at' a n last)
unfolding await_all
await_all-Agree await at at' a zero last ahead = (
  refl,
  record {
    more = [];
    posted = sym (append-nil last.posted);
    sent = omega arith;
    ops = refl;
    few = omega arith;
  },
  λ _. refl,
)
await_all-Agree await at at' a (suc n) last ahead =
    await-Agree (await a) (at a) (at' a) (await_all await at (suc a) n last)
      (await_all await at' (suc a) n last) (ahead a (omega arith))
      (await_all-Agree await at at' (suc a) n last (λ b l. ahead b (omega arith)))

suc_add : (n m : ℕ) → suc n + m ≡ suc (n + m)
suc_add n m = omega arith

take_further :
    (n m : ℕ) (rs : List Request)
    → (more : List Request) × (take (n + m) rs ≡ take n rs ++ more) × (length more ≤ m)
take_further zero m rs = (take m rs, ap (λ n. take n rs) (zero_add m), length-take m rs)
  where
    zero_add : (m : ℕ) → 0 + m ≡ m
    zero_add m = omega arith

    length-take : (m : ℕ) (rs : List Request) → length (take m rs) ≤ m
    length-take zero rs = omega arith
    length-take (suc m) [] = omega arith
    length-take (suc m) (r ∷ rs) = omega (arith, length-take m rs)
take_further (suc n) m [] = ([], ap (λ k. take k []) (suc_add n m), omega arith)
take_further (suc n) m (r ∷ rs) =
    let (more, e, l) = take_further n m rs in
    (more, ap (λ k. take k (r ∷ rs)) (suc_add n m) ∙ ap (λ l. r ∷ l) e, l)

length_taken : (n : ℕ) (rs : List Request) → n ≤ length rs → length (take n rs) ≡ n
length_taken zero rs l = refl
length_taken (suc n) [] l = absurd (omega (arith, l))
length_taken (suc n) (r ∷ rs) l = omega (arith, length_taken n rs (omega (arith, l)))

-- Both forms of WriteOne end in the same way, with the same `ops`. Where they return, all their variables are
-- the same: the same writes and counters. Where a write fails, the form with the window has made the
-- same writes and at most seven more, and counted them in `sent`.
pub write_one-eq-write_one_by_one :
    (await : ℕ → Outcome ℕ) (p : Pages) (regions : List CudaRegion) (ops sent : ℕ)
    → Agree (write_one await p regions ops sent) (write_one_by_one await p regions ops sent)
unfolding write_one_by_one
write_one-eq-write_one_by_one await p regions ops sent =
    let rs = requests p regions in
    subst (λ m. Agree m (write_one_by_one await p regions ops sent))
      (sym (write_one-eq await p regions ops sent))
      (subst (Agree (await_all await (windowed rs ops sent) 0 (length rs) (finished rs ops sent)))
        (sym (
          write_regions-each await p regions (settled ops sent [])
          ∙ each-write_page await rs ops sent rs 0 ops sent [] refl (omega arith) (omega arith)
              refl))
        (await_all-Agree await (windowed rs ops sent) (at_once rs ops sent) 0 (length rs)
          (finished rs ops sent)
          (λ b l.
            let (more, e, few) = take_further (b + 1) 7 rs in
            let further : take (b + 8) rs ≡ take (b + 1) rs ++ more =
              ap (λ n. take n rs) (omega arith) ∙ e in
            record {
              more = more;
              posted = further;
              sent = omega (
                arith,
                ap length further,
                length-append (take (b + 1) rs) more,
                length_taken (b + 1) rs (omega (arith, l)),
              );
              ops = refl;
              few = few;
            })))

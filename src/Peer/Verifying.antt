-- ===== src/Peer/Verifying.antt =====
-- What Verify accepts, byte by byte.
use native.Mathlib.Nat.{zero-add, suc-add, pow-succ', div-div-eq-div-mul}
use mathlib.Core.Path.{ap₂}
use aws_efa_examples.Common.{
  subst, ℕ, zero, suc, ◌+◌, ◌-◌, ◌*◌, ◌/◌, ◌%◌, ◌^◌, ◌≡◌, ◌≤◌, ◌<◌, ◌↔◌, ◌∙◌, refl, sym, ap, ◌==◌,
  ltb, Bool, true, false, Bool-cases, inl, inr, List, [], ◌∷◌, ◌++◌, get_elem?, some, length, ok,
  arith, ==_iff,
}
use aws_efa_examples.Peer.{store_bytes, fill_words, rand_buffer, same_bytes, read_bytes, verify}
use aws_efa_examples.Peer.Filling.{length-fill_words, words_lem}

get_elem?-append_left :
    (xs ys : List ℕ) (i : ℕ) → i < length xs → get_elem? (xs ++ ys) i ≡ get_elem? xs i
get_elem?-append_left [] ys i l = absurd (omega arith)
get_elem?-append_left (x ∷ xs) ys zero l = refl
get_elem?-append_left (x ∷ xs) ys (suc i) l = get_elem?-append_left xs ys i (omega arith)

get_elem?-append_right :
    (xs ys : List ℕ) (i : ℕ) → get_elem? (xs ++ ys) (length xs + i) ≡ get_elem? ys i
get_elem?-append_right [] ys i = rw (zero-add i) refl
get_elem?-append_right (x ∷ xs) ys i = rw (suc-add (length xs) i) (get_elem?-append_right xs ys i)

over_one : (v : ℕ) → v ≡ v / 1
over_one v = omega arith

get_elem?-store_bytes :
    (n v i : ℕ) → i < n → get_elem? (store_bytes n v) i ≡ some (v / 256 ^ i % 256)
get_elem?-store_bytes zero v i l = absurd (omega arith)
get_elem?-store_bytes (suc n) v zero l = ap (λ w. some (w % 256)) (over_one v)
get_elem?-store_bytes (suc n) v (suc i) l =
    get_elem?-store_bytes n (v / 256) i (omega arith)
    ∙ ap (λ w. some (w % 256))
        (div-div-eq-div-mul v 256 (256 ^ i) ∙ ap (λ d. v / d) (sym (pow-succ' 256 i)))

-- Byte `i` of what the generator gives.
abbrev pub byte_of : (draw : ℕ → ℕ) → ℕ → ℕ
byte_of draw i = draw (i / 8) / 256 ^ (i % 8) % 256

below : (i : ℕ) → ltb i 8 ≡ true → i < 8
below i b = ground arith

above : (i : ℕ) → ltb i 8 ≡ false → 8 ≤ i
above i b = ground arith

get_elem?-fill_words :
    (draw : ℕ → ℕ) (k words i : ℕ)
    → i < words * 8
    → get_elem? (fill_words draw k words) i ≡ some (draw (k + i / 8) / 256 ^ (i % 8) % 256)
unfolding fill_words
get_elem?-fill_words draw k zero i l = absurd (omega arith)
get_elem?-fill_words draw k (suc words) i l = elim (Bool-cases (ltb i 8)) [
  | inl b ↦
      get_elem?-append_left (store_bytes 8 (draw k)) (fill_words draw (k + 1) words) i
        (omega (arith, below i b))
      ∙ get_elem?-store_bytes 8 (draw k) i (below i b)
      ∙ ap₂ (λ a e. some (draw a / 256 ^ e % 256)) (first_word k i (below i b))
          (first_digit i (below i b))
  | inr b ↦
      let j = i - 8 in
      ap (λ n. get_elem? (store_bytes 8 (draw k) ++ fill_words draw (k + 1) words) n) (past i b)
      ∙ get_elem?-append_right (store_bytes 8 (draw k)) (fill_words draw (k + 1) words) j
      ∙ get_elem?-fill_words draw (k + 1) words j (omega (arith, past i b))
      ∙ ap₂ (λ a e. some (draw a / 256 ^ e % 256)) (next_word k i b) (next_digit i b)
]
  where
    first_word : (k i : ℕ) → i < 8 → k ≡ k + i / 8
    first_word k i b = omega arith

    first_digit : (i : ℕ) → i < 8 → i ≡ i % 8
    first_digit i b = omega arith

    past : (i : ℕ) → ltb i 8 ≡ false → i ≡ 8 + (i - 8)
    past i b = omega (arith, above i b)

    next_word : (k i : ℕ) → ltb i 8 ≡ false → k + 1 + (i - 8) / 8 ≡ k + i / 8
    next_word k i b = omega (arith, above i b)

    next_digit : (i : ℕ) → ltb i 8 ≡ false → (i - 8) % 8 ≡ i % 8
    next_digit i b = omega (arith, above i b)

same_bytes_iff :
    (bytes : ℕ → ℕ) (from : ℕ) (xs : List ℕ)
    → (same_bytes xs (read_bytes bytes from (length xs)) ≡ true)
      ↔ ((i : ℕ) → i < length xs → get_elem? xs i ≡ some (bytes (from + i)))
unfolding same_bytes read_bytes
same_bytes_iff bytes from [] = (λ h i l. absurd (omega arith), λ h. refl)
same_bytes_iff bytes from (x ∷ xs) = elim (Bool-cases (x == bytes from)) [
  | inl e ↦ rw e (
      let (there, back) = same_bytes_iff bytes (from + 1) xs in
      (
        λ h i l. each e (there h) i l,
        λ h. back (λ i l. h (suc i) (omega arith) ∙ ap (λ a. some (bytes a)) (sym (next from i))),
      ))
  | inr n ↦ rw n (λ h i l. absurd (false-ne-true h), λ h. absurd (differ n (h 0 (omega arith))))
]
  where
    next : (from i : ℕ) → from + 1 + i ≡ from + suc i
    next from i = omega arith

    here : (from : ℕ) → from ≡ from + 0
    here from = omega arith

    false-ne-true : false ≡ true → ⊥
    false-ne-true h = cc

    differ : (x == bytes from) ≡ false → some x ≡ some (bytes (from + 0)) → ⊥
    differ n h = ground (arith, here from)

    each :
        (x == bytes from) ≡ true
        → ((i : ℕ) → i < length xs → get_elem? xs i ≡ some (bytes (from + 1 + i)))
        → (i : ℕ) → i < suc (length xs)
        → get_elem? (x ∷ xs) i ≡ some (bytes (from + i))
    each e there zero l = ap some ((==_iff x (bytes from)).0 e ∙ ap bytes (here from))
    each e there (suc i) l = there i (omega arith) ∙ ap (λ a. some (bytes a)) (next from i)

some-injective : {a b : ℕ} → some a ≡ some b → a ≡ b
some-injective h = cc

-- For a size that is a multiple of 8, and if cudaMemcpy succeeds, Verify returns, and it returns true exactly if each byte of the buffer
-- is the one that the generator gives for the seed: byte `i` is that of place `i % 8` of the word with
-- number `i / 8`.
pub verify_iff :
    (draw : (seed : ℕ) → ℕ → ℕ) (bytes : ℕ → ℕ) (cuda_buffer seed size : ℕ)
    → size % 8 ≡ 0
    → (same : Bool) × (verify draw 0 bytes cuda_buffer seed size ≡ ok same)
      × ((same ≡ true) ↔ ((i : ℕ) → i < size → byte_of (draw seed) i ≡ bytes (cuda_buffer + i)))
unfolding verify rand_buffer
verify_iff draw bytes cuda_buffer seed size z =
    let buffer = fill_words (draw seed) 0 (size / 8) in
    let whole : length buffer ≡ size =
      length-fill_words (draw seed) 0 (size / 8) ∙ words_lem size z in
    let agrees =
      subst
        (λ n.
          (same_bytes buffer (read_bytes bytes cuda_buffer n) ≡ true)
          ↔ ((i : ℕ) → i < n → get_elem? buffer i ≡ some (bytes (cuda_buffer + i))))
        whole (same_bytes_iff bytes cuda_buffer buffer) in
    let given : (i : ℕ) → i < size → get_elem? buffer i ≡ some (byte_of (draw seed) i) = λ i l.
      get_elem?-fill_words (draw seed) 0 (size / 8) i (omega (arith, words_lem size z))
      ∙ ap (λ w. some (draw seed w / 256 ^ (i % 8) % 256)) (zero-add (i / 8)) in
    (
      same_bytes buffer (read_bytes bytes cuda_buffer size),
      rw ((==_iff (size % 8) 0).1 z) refl,
      (
        λ h i l. some-injective (sym (given i l) ∙ agrees.0 h i l),
        λ h. agrees.1 (λ i l. given i l ∙ ap some (h i l)),
      ),
    )

-- ===== src/Peer/Filling.antt =====
-- RandBuffer on both sides of a transfer: what Writer stores, and what Verify accepts.
use aws_efa_examples.Common.{
  inl, inr, Bool-cases, ok-injective, ==_iff, throw, Exception, ℕ, zero, suc, ◌+◌, ◌*◌, ◌/◌, ◌%◌,
  ◌≡◌, ◌≤◌, ◌∙◌, refl, sym, ap, ◌==◌, true, List, [], ◌∷◌, length, length-append, ok, >>=-eq-ok,
  arith, ==-self, ne→==, ensure,
}
use aws_efa_examples.Peer.{
  store_bytes, fill_words, rand_buffer, same_bytes, read_bytes, verify, write_bytes, fill_writer,
}

pub length-store_bytes : (n v : ℕ) → length (store_bytes n v) ≡ n
length-store_bytes zero v = refl
length-store_bytes (suc n) v = ap suc (length-store_bytes n (v / 256))

pub length-fill_words : (draw : ℕ → ℕ) (i words : ℕ) → length (fill_words draw i words) ≡ words * 8
unfolding fill_words
length-fill_words draw i zero = refl
length-fill_words draw i (suc words) = omega (
  arith,
  length-append (store_bytes 8 (draw i)) (fill_words draw (i + 1) words),
  length-store_bytes 8 (draw i),
  length-fill_words draw (i + 1) words,
)

same_bytes_refl : (xs : List ℕ) → same_bytes xs xs ≡ true
unfolding same_bytes
same_bytes_refl [] = refl
same_bytes_refl (x ∷ xs) = rw (==-self x) (same_bytes_refl xs)

read_bytes_local :
    (f g : ℕ → ℕ) (from n : ℕ)
    → ((q : ℕ) → from ≤ q → f q ≡ g q)
    → read_bytes f from n ≡ read_bytes g from n
unfolding read_bytes
read_bytes_local f g from zero h = refl
read_bytes_local f g from (suc n) h =
    rw (h from (omega arith), read_bytes_local f g (from + 1) n (λ q l. h q (omega arith))) refl

read_bytes-write_bytes :
    (dst : ℕ) (xs : List ℕ) (bytes : ℕ → ℕ)
    → read_bytes (write_bytes dst xs bytes) dst (length xs) ≡ xs
unfolding read_bytes
read_bytes-write_bytes dst [] bytes = refl
read_bytes-write_bytes dst (x ∷ xs) bytes = rw (==-self dst) (
    ap (λ l. x ∷ l)
      (read_bytes_local (write_bytes dst (x ∷ xs) bytes) (write_bytes (dst + 1) xs bytes) (dst + 1)
          (length xs) (λ q l. rw (ne→== dst q (λ e. omega arith)) refl)
        ∙ read_bytes-write_bytes (dst + 1) xs bytes))

pub words_lem : (size : ℕ) → size % 8 ≡ 0 → size / 8 * 8 ≡ size
words_lem size z = omega arith

pub throw-ne-ok : {A : Type 0} {e : Exception} {a : A} → throw e ≡ ok a → ⊥
throw-ne-ok h = cc

rand_buffer-eq-ok :
    (draw : (seed : ℕ) → ℕ → ℕ) (seed size : ℕ) (buffer : List ℕ)
    → rand_buffer draw seed size ≡ ok buffer
    → length buffer ≡ size
unfolding rand_buffer
rand_buffer-eq-ok draw seed size buffer e = elim (Bool-cases (size % 8 == 0)) [
  | inl z ↦
      ap length (sym (ok-injective (simp z at e)))
      ∙ length-fill_words (draw seed) 0 (size / 8)
      ∙ words_lem size ((==_iff (size % 8) 0).0 z)
  | inr z ↦ absurd (throw-ne-ok (simp z at e))
]

-- What the constructor of Writer stores for a seed and a size, Verify accepts for the same seed and size,
-- whatever the memory held before, where the copy back to the host succeeds.
pub verify-fill_writer :
    (draw : (seed : ℕ) → ℕ → ℕ) (copied seed size cuda_buffer : ℕ) (bytes bytes' : ℕ → ℕ)
    → fill_writer draw copied seed size cuda_buffer bytes ≡ ok bytes'
    → verify draw 0 bytes' cuda_buffer seed size ≡ ok true
unfolding fill_writer verify
verify-fill_writer draw copied seed size cuda_buffer bytes bytes' e =
    let (buffer, made, e1) = >>=-eq-ok (rand_buffer draw seed size) _ e in
    let (_, _, stored) = >>=-eq-ok (ensure (copied == 0) _) _ e1 in
    rw made (
      ap ok (
        ap (λ f. same_bytes buffer (read_bytes f cuda_buffer size)) (sym (ok-injective stored))
        ∙ ap
            (λ n.
              same_bytes buffer (read_bytes (write_bytes cuda_buffer buffer bytes) cuda_buffer n))
            (sym (rand_buffer-eq-ok draw seed size buffer made))
        ∙ ap (same_bytes buffer) (read_bytes-write_bytes cuda_buffer buffer bytes)
        ∙ same_bytes_refl buffer))

-- ===== src/Peer/Placing.antt =====
-- The tests that end the constructor of Peer.
use aws_efa_examples.Common.{
  Exception, Bool-cases, inl, inr, leb→le, ℕ, ◌+◌, ◌*◌, ◌%◌, ◌^◌, ◌≡◌, ◌≤◌, ◌<◌, leb, ok, >>=-eq-ok,
  ensure, arith,
}
use aws_efa_examples.Peer.{check_pages}
use aws_efa_examples.Peer.Filling.{throw-ne-ok}

passed : (a b : ℕ) (e : Exception) (u : Unit {0}) → ensure (leb a b) e ≡ ok u → a ≤ b
passed a b e u h = elim (Bool-cases (leb a b)) [
  | inl l ↦ leb→le a b l
  | inr n ↦ absurd (throw-ne-ok (simp n at h))
]

mod_small : (n : ℕ) → n < 2 ^ 64 → n % 2 ^ 64 ≡ n
mod_small n l = omega arith

pub check_pages-eq-ok :
    (page_size num_pages read_size write_size i : ℕ)
    → check_pages page_size num_pages read_size write_size ≡ ok tt
    → page_size * num_pages < 2 ^ 64
    → i < num_pages
    → (i * page_size + page_size ≤ read_size) × (i * page_size + page_size ≤ write_size)
unfolding check_pages
check_pages-eq-ok page_size num_pages read_size write_size i e small l =
    let (_, first, second) =
      >>=-eq-ok (ensure (leb (page_size * num_pages % 2 ^ 64) read_size) _) _ e in
    (page-within (passed _ _ _ _ first), page-within (passed _ _ _ _ second))
  where
    within : i * page_size + page_size ≤ page_size * num_pages
    within = grind arith

    page-within :
        {size : ℕ} → page_size * num_pages % 2 ^ 64 ≤ size → i * page_size + page_size ≤ size
    page-within fits = omega (arith, within, mod_small (page_size * num_pages) small)

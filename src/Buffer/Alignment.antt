-- ===== src/Buffer/Alignment.antt =====
-- Buffer::Align rounds up to the alignment, and what a buffer then offers lies in what it allocated.
use native.Mathlib.Nat.{mul-mod_right, div-add-mod, mod-lt}
use aws_efa_examples.Common.{
  zero, suc, ◌↔◌, ℕ, ◌+◌, ◌-◌, ◌*◌, ◌/◌, ◌%◌, ◌^◌, ◌≤◌, ◌<◌, ◌≡◌, sym, ap, ◌∙◌, arith,
}
use aws_efa_examples.Common.Bits.{bit_and-upper, pow_add, two_pow_pos}
use aws_efa_examples.Buffer.{word, align_up, usable, k_align}

mul_pred : (p q : ℕ) → 1 ≤ q → p * (q - 1) + p ≡ p * q
mul_pred p zero h = absurd (omega arith)
mul_pred p (suc q) h = rw less (omega arith)
  where
    less : suc q - 1 ≡ q
    less = omega arith

-- For an alignment that is a power of two and an address that does not wrap, Align gives the least
-- multiple of the alignment that is not below the address.
align_up-eq :
    (ptr k : ℕ)
    → k ≤ 64
    → ptr + 2 ^ k ≤ word
    → align_up ptr (2 ^ k) ≡ 2 ^ k * ((ptr + (2 ^ k - 1)) / 2 ^ k)
unfolding align_up
align_up-eq ptr k h fits =
    rw (sum, mask)
      (bit_and-upper k (64 - k) (ptr + (2 ^ k - 1)) (2 ^ (64 - k) - 1) (omega (arith, rest)) below)
  where
    one : 1 ≤ 2 ^ k
    one = two_pow_pos k

    rest : 1 ≤ 2 ^ (64 - k)
    rest = two_pow_pos (64 - k)

    sixty_four : k + (64 - k) ≡ 64
    sixty_four = omega arith

    whole : 2 ^ k * 2 ^ (64 - k) ≡ word
    whole = sym (pow_add 2 k (64 - k)) ∙ ap (◌^◌ 2) sixty_four

    sum : (ptr + 2 ^ k + (word - 1)) % word ≡ ptr + (2 ^ k - 1)
    sum = omega (arith, one)

    mask : word - 1 - (2 ^ k + (word - 1)) % word ≡ 2 ^ k * (2 ^ (64 - k) - 1)
    mask = omega (arith, one, whole, mul_pred (2 ^ k) (2 ^ (64 - k)) rest)

    below : ptr + (2 ^ k - 1) < 2 ^ k * (2 ^ (64 - k) - 1 + 1)
    below = omega (arith, one, whole, mul_pred (2 ^ k) (2 ^ (64 - k)) rest)

-- For an alignment that is a power of two and an address that does not wrap, the result of Align is
-- aligned, not below the address, and less than the alignment above it.
pub align_up_bounds :
    (ptr k : ℕ)
    → k ≤ 64
    → ptr + 2 ^ k ≤ word
    → (align_up ptr (2 ^ k) % 2 ^ k ≡ 0)
      × (ptr ≤ align_up ptr (2 ^ k))
      × (align_up ptr (2 ^ k) < ptr + 2 ^ k)
align_up_bounds ptr k h fits = rw (align_up-eq ptr k h fits) (
  mul-mod_right (2 ^ k) _,
  omega (arith, two_pow_pos k, div-add-mod x (2 ^ k), mod-lt x (two_pow_pos k)),
  omega (arith, two_pow_pos k, div-add-mod x (2 ^ k)),
)
  where
    x : ℕ
    x = ptr + (2 ^ k - 1)

-- For an allocation that does not wrap, of at least 128 bytes, the usable part ends where the
-- allocation ends, is less than 128 bytes shorter, and is as long just where malloc's address was
-- aligned already.
pub usable_bounds :
    (raw size : ℕ)
    → raw + size < word
    → raw + k_align ≤ word
    → k_align ≤ size
    → (align_up raw k_align + usable raw size (align_up raw k_align) ≡ raw + size)
      × (size < usable raw size (align_up raw k_align) + k_align)
      × ((usable raw size (align_up raw k_align) ≡ size) ↔ (raw % k_align ≡ 0))
unfolding usable
usable_bounds raw size h fits large = omega (arith, align_up-eq raw 7 (omega arith) fits)

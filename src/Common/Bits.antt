-- ===== src/Common/Bits.antt =====
-- `bit_and` with a mask, by the digit recursion of the native operation.
use Prim.Native.Nat.{
  ℕ, zero, suc, ◌+◌, ◌*◌, ◌/◌, ◌%◌, ◌^◌, ◌≤◌, ◌<◌, min, bit_and, digits, bit_and-bitwise,
}
use mathlib.Core.Path.{◌≡◌, refl, sym, ap, ◌∙◌}
use native.Mathlib.Nat.{pow-suc, div-div-eq-div-mul, mul_comm, zero-add, pow-zero}
use native.Mathlib.Omega.{arith}

-- The recursion of `bit_and`, on the number of digits that it may still read.
abbrev meets : (fuel x y : ℕ) → ℕ
meets fuel x y = digits (λ _. 0) min fuel x y

nothing_meets : (fuel y : ℕ) → meets fuel 0 y ≡ 0
nothing_meets zero y = refl
nothing_meets (suc fuel) y = refl

-- It makes no difference how many, if they suffice for the first number.
meets_enough : (x y fuel other : ℕ) → x ≤ fuel → x ≤ other → meets fuel x y ≡ meets other x y
meets_enough zero y fuel other h k = nothing_meets fuel y ∙ sym (nothing_meets other y)
meets_enough (suc x) y zero other h k = absurd (omega arith)
meets_enough (suc x) y (suc fuel) zero h k = absurd (omega arith)
meets_enough (suc x) y (suc fuel) (suc other) h k =
    let halves = meets_enough (suc x / 2) (y / 2) fuel other (omega arith) (omega arith) in
    omega arith

no_digits : (y : ℕ) → bit_and 0 y ≡ 0
no_digits y = bit_and-bitwise 0 y

lowest_digit : (x y : ℕ) → bit_and x y ≡ min (x % 2) (y % 2) + 2 * bit_and (x / 2) (y / 2)
lowest_digit zero y = omega (arith, no_digits y, no_digits (y / 2))
lowest_digit (suc x) y =
    let h = suc x / 2 in
    omega (
      arith,
      bit_and-bitwise (suc x) y,
      bit_and-bitwise h (y / 2),
      meets_enough h (y / 2) x h (omega arith) (omega arith),
    )

-- A mask of the upper digits drops the lower one.
pub bit_and-double : (a m : ℕ) → bit_and a (2 * m) ≡ 2 * bit_and (a / 2) m
bit_and-double a m = omega (arith, lowest_digit a (2 * m), ap (bit_and (a / 2)) half)
  where
    half : (2 * m) / 2 ≡ m
    half = omega arith

-- A mask of `k` ones keeps a number that has at most `k` digits.
pub bit_and-ones : (k a m : ℕ) → a < 2 ^ k → m + 1 ≡ 2 ^ k → bit_and a m ≡ a
bit_and-ones zero zero m h e = no_digits m
bit_and-ones zero (suc a) m h e = absurd (omega arith)
bit_and-ones (suc k) a m h e = omega (
  arith,
  pow-suc 2 k,
  lowest_digit a m,
  bit_and-ones k (a / 2) (m / 2) (omega (arith, pow-suc 2 k)) (omega (arith, pow-suc 2 k)),
)

pub pow_add : (a k j : ℕ) → a ^ (k + j) ≡ a ^ k * a ^ j
pow_add a zero j = rw (zero-add j, pow-zero a) (omega arith)
pow_add a (suc k) j =
    ap (◌^◌ a) next ∙ pow-suc a (k + j) ∙ rw (pow_add a k j, pow-suc a k) (omega arith)
  where
    next : suc k + j ≡ suc (k + j)
    next = omega arith

-- A mask of `j` ones above `k` zeros rounds down to a multiple of 2 ^ k.
pub bit_and-upper :
    (k j a m : ℕ)
    → m + 1 ≡ 2 ^ j
    → a < 2 ^ k * (m + 1)
    → bit_and a (2 ^ k * m) ≡ 2 ^ k * (a / 2 ^ k)
bit_and-upper zero j a m e h = ap (bit_and a) one ∙ bit_and-ones j a m (omega arith) e ∙ omega arith
  where
    one : 1 * m ≡ m
    one = omega arith
bit_and-upper (suc k) j a m e h = rw (pow-suc 2 k) (
    ap (bit_and a) regroup
    ∙ bit_and-double a (2 ^ k * m)
    ∙ ap (◌*◌ 2) (bit_and-upper k j (a / 2) m e (half_lt (rw (pow-suc 2 k) at h)))
    ∙ rw (div-div-eq-div-mul a 2 (2 ^ k), mul_comm 2 (2 ^ k)) (omega arith))
  where
    regroup : 2 ^ k * 2 * m ≡ 2 * (2 ^ k * m)
    regroup = omega arith

    half_lt : a < 2 ^ k * 2 * (m + 1) → a / 2 < 2 ^ k * (m + 1)
    half_lt l = omega arith

pub two_pow_pos : (k : ℕ) → 1 ≤ 2 ^ k
two_pow_pos zero = omega arith
two_pow_pos (suc k) = omega (arith, pow-suc 2 k, two_pow_pos k)

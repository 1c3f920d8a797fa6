-- ===== src/Common/Assoc.antt =====
-- The standard library's maps and sets with numbers for keys, as lists in order of insertion.
-- No theorem of this development depends on that order.
use Prim.Native.Nat.{ℕ}
use mathlib.Core.Path.{◌≡◌, refl}
use mathlib.Core.Bool.{Bool, true, false, ◌||◌}
use mathlib.Core.Logic.{inl, inr}
use mathlib.Core.List.{List, [], ◌∷◌, ◌++◌}
use mathlib.Core.Option.{Option, none, some}
use native.Mathlib.Omega.{arith}
use aws_efa_examples.Common.Tests.{if◌then◌else◌, ◌==◌, Bool-cases}

module _ {ℓ} {V : Type ℓ} where
  unfoldable pub lookup : ℕ → List (ℕ × V) → Option V
  lookup k [] = none
  lookup k ((j, v) ∷ m) = if j == k then some v else lookup k m

  -- `emplace`: a key that is there keeps its value.
  unfoldable pub emplace : ℕ → V → List (ℕ × V) → List (ℕ × V)
  emplace k v [] = (k, v) ∷ []
  emplace k v ((j, w) ∷ m) = if j == k then (j, w) ∷ m else (j, w) ∷ emplace k v m

  unfoldable pub erase : ℕ → List (ℕ × V) → List (ℕ × V)
  erase k [] = []
  erase k ((j, w) ∷ m) = if j == k then erase k m else (j, w) ∷ erase k m

  pub lookup-emplace_fresh :
      (k : ℕ) (v : V) (m : List (ℕ × V)) → lookup k m ≡ none → lookup k (emplace k v m) ≡ some v
  unfolding lookup emplace
  lookup-emplace_fresh k v [] h = ground arith
  lookup-emplace_fresh k v ((j, w) ∷ m) h = ground (arith, lookup-emplace_fresh k v m)

  pub lookup-emplace_old :
      (k : ℕ) (v w : V) (m : List (ℕ × V)) → lookup k m ≡ some w → lookup k (emplace k v m) ≡ some w
  unfolding lookup emplace
  lookup-emplace_old k v w [] h = ground arith
  lookup-emplace_old k v w ((j, u) ∷ m) h = ground (arith, lookup-emplace_old k v w m)

  pub lookup-emplace_other :
      (k j : ℕ) (v : V) (m : List (ℕ × V))
      → (k == j) ≡ false
      → lookup j (emplace k v m) ≡ lookup j m
  unfolding lookup emplace
  lookup-emplace_other k j v [] h = ground arith
  lookup-emplace_other k j v ((i, u) ∷ m) h = ground (arith, lookup-emplace_other k j v m h)

  pub lookup-erase :
      (k j : ℕ) (m : List (ℕ × V)) → lookup j (erase k m) ≡ (if k == j then none else lookup j m)
  unfolding lookup erase
  lookup-erase k j [] = ground arith
  lookup-erase k j ((i, u) ∷ m) = ground (arith, lookup-erase k j m)

-- A set of pointers.
unfoldable pub contains : ℕ → List ℕ → Bool
contains k [] = false
contains k (x ∷ xs) = (x == k) || contains k xs

unfoldable pub add : ℕ → List ℕ → List ℕ
add k xs = if contains k xs then xs else xs ++ k ∷ []

unfoldable pub remove : ℕ → List ℕ → List ℕ
remove k [] = []
remove k (x ∷ xs) = if x == k then remove k xs else x ∷ remove k xs

pub contains-append :
    (k : ℕ) (xs ys : List ℕ) → contains k (xs ++ ys) ≡ (contains k xs || contains k ys)
unfolding contains
contains-append k [] ys = refl
contains-append k (x ∷ xs) ys = ground (arith, contains-append k xs ys)

pub contains-add : (k j : ℕ) (xs : List ℕ) → contains j (add k xs) ≡ ((k == j) || contains j xs)
unfolding contains add
contains-add k j xs = elim (Bool-cases (contains k xs)) [
  | inl old ↦ ground (arith, same k j xs)
  | inr new ↦ ground (arith, contains-append j xs (k ∷ []))
]
  where
    same : (k j : ℕ) (xs : List ℕ) → contains k xs ≡ true → (k == j) ≡ true → contains j xs ≡ true
    same k j [] h e = ground arith
    same k j (x ∷ xs) h e = ground (arith, same k j xs)

pub contains-remove :
    (k j : ℕ) (xs : List ℕ) → contains j (remove k xs) ≡ (if k == j then false else contains j xs)
unfolding contains remove
contains-remove k j [] = ground arith
contains-remove k j (x ∷ xs) = ground (arith, contains-remove k j xs)

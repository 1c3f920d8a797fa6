-- ===== src/Net/Connect.antt =====
-- The connections of a Net, by the text of their addresses.
use aws_efa_examples.Common.{
  ℕ, ◌≡◌, ◌↔◌, refl, Bool, true, false, inl, inr, none, some, List, [], ◌∷◌, map, Option-cases, ok,
  contains, arith,
}
use aws_efa_examples.Net.{Net, same_text, find_conn, emplace_conn, connect}

same_text_refl : (k : List ℕ) → same_text k k ≡ true
unfolding same_text
same_text_refl [] = refl
same_text_refl (x ∷ xs) = ground (arith, same_text_refl xs)

same_text-eq : (k j : List ℕ) → same_text k j ≡ true → k ≡ j
unfolding same_text
same_text-eq [] [] e = refl
same_text-eq [] (y ∷ ys) e = cc
same_text-eq (x ∷ xs) [] e = cc
same_text-eq (x ∷ xs) (y ∷ ys) e = ground (arith, same_text-eq xs ys)

pub find_conn-emplace_conn :
    (k : List ℕ) (c : ℕ) (m : List (List ℕ × ℕ))
    → find_conn k (emplace_conn k c m) ≡ some (elim (find_conn k m) [ none ↦ c | some d ↦ d ])
unfolding find_conn emplace_conn
find_conn-emplace_conn k c [] = ground (arith, same_text_refl k)
find_conn-emplace_conn k c ((j, d) ∷ m) = ground (arith, find_conn-emplace_conn k c m)

-- Whether an object is owned by the map, and so alive.
abbrev pub owned : ℕ → List (List ℕ × ℕ) → Bool
owned c m = contains c (map (λ e. e.1) m)

owned-emplace_new :
    (k : List ℕ) (c : ℕ) (m : List (List ℕ × ℕ))
    → find_conn k m ≡ none
    → owned c (emplace_conn k c m) ≡ true
unfolding find_conn emplace_conn contains
owned-emplace_new k c [] h = ground arith
owned-emplace_new k c ((j, d) ∷ m) h = ground (arith, owned-emplace_new k c m)

emplace_conn-old :
    (k : List ℕ) (c d : ℕ) (m : List (List ℕ × ℕ)) → find_conn k m ≡ some d → emplace_conn k c m ≡ m
unfolding find_conn emplace_conn
emplace_conn-old k c d [] h = ground arith
emplace_conn-old k c d ((j, e) ∷ m) h = ground (arith, emplace_conn-old k c d m)

-- Where Connect makes an object that the map does not own yet and returns one, it returns the object
-- that it made, and the map owns it afterwards exactly if the address was not connected before: a
-- second connection to the same address is destroyed before Connect returns it.
pub connect-owned :
    (key : List ℕ) (conn c : ℕ) (net net' : Net)
    → owned conn net.conns ≡ false
    → connect 1 key (ok conn) net ≡ (net', ok c)
    → (c ≡ conn) × ((owned c net'.conns ≡ true) ↔ (find_conn key net.conns ≡ none))
unfolding connect
connect-owned key conn c net net' fresh e = elim (Option-cases (find_conn key (net.conns))) [
  | inl new ↦ ground (arith, owned-emplace_new key conn (net.conns) new)
  | inr (d, old) ↦ ground (arith, emplace_conn-old key conn d (net.conns) old)
]

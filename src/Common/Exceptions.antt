-- ===== src/Common/Exceptions.antt =====
-- What a C++ call can do: return, throw, or have undefined behaviour.
use Prim.Native.Nat.{ℕ}
use Prim.Native.String.{String}
use mathlib.Core.Path.{◌≡◌, refl}
use mathlib.Core.Bool.{Bool, true, false}
use native.Mathlib.Omega.{arith}

-- The exceptions of the program, by the place that throws them. A failed call of a C library
-- carries the call's name and the code that it returned, by its magnitude.
pub data Exception : Type 0 where
  check_failed : String → ℕ → Exception
  assertion : String → Exception
  invalid_argument : String → Exception
  runtime_error : String → Exception
  out_of_range : Exception

pub data Outcome {ℓ} (A : Type ℓ) : Type ℓ where
  ok : A → Outcome A
  throw : Exception → Outcome A
  undefined : Outcome A

infixl 5 ◌>>=◌ ◌>>◌
abbrev pub ◌>>=◌ {ℓ κ} : {A : Type ℓ} {B : Type κ} → Outcome A → (A → Outcome B) → Outcome B
ok a >>= f = f a
throw e >>= f = throw e
undefined >>= f = undefined

abbrev pub ◌>>◌ {ℓ} : {B : Type ℓ} → Outcome (Unit {0}) → Outcome B → Outcome B
m >> k = m >>= λ _. k

-- ASSERT(exp).
abbrev pub ensure : Bool → Exception → Outcome (Unit {0})
ensure true e = ok tt
ensure false e = throw e

-- What the language requires of its caller.
abbrev pub require : Bool → Outcome (Unit {0})
require true = ok tt
require false = undefined

pub >>=-eq-ok {ℓ κ} :
    {A : Type ℓ} {B : Type κ} (first : Outcome A) (next : A → Outcome B) {last : B}
    → first >>= next ≡ ok last
    → (mid : A) × (first ≡ ok mid) × (next mid ≡ ok last)
>>=-eq-ok undefined next returns = ground arith
>>=-eq-ok (throw e) next returns = ground arith
>>=-eq-ok (ok mid) next returns = (mid, refl, returns)

pub ok-injective {ℓ} : {A : Type ℓ} {a b : A} → ok a ≡ ok b → a ≡ b
ok-injective h = cc

pub undefined-ne-ok {ℓ} : {A : Type ℓ} {a : A} → ¬ (undefined ≡ ok a)
undefined-ne-ok h = cc

-- The laws of sequencing.
pub >>=-assoc {ℓ κ μ} :
    {A : Type ℓ} {B : Type κ} {C : Type μ} (m : Outcome A) (f : A → Outcome B) (g : B → Outcome C)
    → ((m >>= f) >>= g) ≡ (m >>= λ a. f a >>= g)
>>=-assoc (ok a) f g = refl
>>=-assoc (throw e) f g = refl
>>=-assoc undefined f g = refl

pub >>=-congr {ℓ κ} :
    {A : Type ℓ} {B : Type κ} (m : Outcome A) {f g : A → Outcome B}
    → ((a : A) → f a ≡ g a)
    → (m >>= f) ≡ (m >>= g)
>>=-congr (ok a) h = h a
>>=-congr (throw e) h = refl
>>=-congr undefined h = refl

-- What a call leaves of the state, also where an exception leaves it, and how it ends.
abbrev pub Run {ℓ} : Type ℓ → Type ℓ
Run S = S × Outcome (Unit {0})

infixl 5 ◌>>>◌
abbrev pub ◌>>>◌ {ℓ} : {S : Type ℓ} → Run S → (S → Run S) → Run S
(s, ok _) >>> f = f s
(s, throw e) >>> f = (s, throw e)
(s, undefined) >>> f = (s, undefined)

-- The state of a call that returns.
abbrev pub outcome_of {ℓ} : {S : Type ℓ} → Run S → Outcome S
outcome_of (s, ok _) = ok s
outcome_of (s, throw e) = throw e
outcome_of (s, undefined) = undefined

pub >>>-assoc {ℓ} :
    {S : Type ℓ} (m : Run S) (f g : S → Run S) → ((m >>> f) >>> g) ≡ (m >>> λ s. f s >>> g)
>>>-assoc (s, ok _) f g = refl
>>>-assoc (s, throw e) f g = refl
>>>-assoc (s, undefined) f g = refl

pub >>>-congr {ℓ} :
    {S : Type ℓ} (m : Run S) (f g : S → Run S) → f m.0 ≡ g m.0 → (m >>> f) ≡ (m >>> g)
>>>-congr (s, ok _) f g h = h
>>>-congr (s, throw e) f g h = refl
>>>-congr (s, undefined) f g h = refl

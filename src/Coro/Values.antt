-- ===== src/Coro/Values.antt =====
-- src/batch/include/common/result.h: what a promise holds for its coroutine, a value or an exception.
use aws_efa_examples.Common.{
  Bool, true, false, Option, none, some, Outcome, ok, throw, Exception, runtime_error,
}

-- std::variant<std::monostate, T, std::exception_ptr>.
pub data Result {ℓ} (A : Type ℓ) : Type ℓ where
  unset : Result A
  value : A → Result A
  exception : Exception → Result A

module _ {ℓ} {A : Type ℓ} where
  unfoldable pub has_value : Result A → Bool
  has_value unset = false
  has_value (value a) = true
  has_value (exception e) = true

  unfoldable pub set_value : A → Result A → Result A
  set_value a r = value a

  unfoldable pub set_exception : Exception → Result A → Result A
  set_exception e r = exception e

  unfoldable pub result : Result A → Outcome A
  result (exception e) = throw e
  result (value a) = ok a
  result unset = throw (runtime_error "result not set")

-- Result<void>: std::optional<std::exception_ptr>, whose inner `none` is the null pointer.
abbrev pub VoidResult : Type 0
VoidResult = Option (Option Exception)

unfoldable pub has_void : VoidResult → Bool
has_void none = false
has_void (some e) = true

unfoldable pub return_void : VoidResult → VoidResult
return_void r = some none

unfoldable pub set_void_exception : Exception → VoidResult → VoidResult
set_void_exception e r = some (some e)

unfoldable pub void_result : VoidResult → Outcome (Unit {0})
void_result (some (some e)) = throw e
void_result (some none) = ok tt
void_result none = ok tt

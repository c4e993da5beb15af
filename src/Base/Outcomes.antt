-- ===== src/Base/Outcomes.antt =====
-- How a C++ call ends: it returns, reads out of range (undefined behaviour), or throws.
use mathlib.Core.Path.{◌≡◌, refl}
use mathlib.Core.Option.{Option, none, some}

pub data Exception : Type 0 where
  runtime_error invalid_argument out_of_range builder_exception bad_any_cast : Exception
  ptree_bad_path ptree_bad_data json_parser_error system_error : Exception

pub data Outcome {ℓ} (A : Type ℓ) : Type ℓ where
  done : A → Outcome A
  fault : Outcome A
  threw : Exception → Outcome A

infixl 5 ◌>>=◌
abbrev pub ◌>>=◌ {ℓ κ} : {A : Type ℓ} {B : Type κ} → Outcome A → (A → Outcome B) → Outcome B
done a >>= f = f a
fault >>= f = fault
threw e >>= f = threw e

-- A dereference: `none` is an element that is not there.
abbrev pub or_fault {ℓ} : {A : Type ℓ} → Option A → Outcome A
or_fault none = fault
or_fault (some a) = done a

abbrev pub or_throw {ℓ} : {A : Type ℓ} → Exception → Option A → Outcome A
or_throw e none = threw e
or_throw e (some a) = done a

pub >>=-eq-done {ℓ κ} :
    {A : Type ℓ} {B : Type κ} (m : Outcome A) (f : A → Outcome B) {b : B}
    → (m >>= f) ≡ done b
    → (a : A) × (m ≡ done a) × (f a ≡ done b)
>>=-eq-done (done a) f h = (a, refl, h)
>>=-eq-done fault f h = cc
>>=-eq-done (threw e) f h = cc

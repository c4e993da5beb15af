-- ===== src/Status/Getters.antt =====
-- The getters of DeviceStatus (include/StatusWatcher.hpp) on what a device sends: decimal numerals,
-- with and without a sign, and other texts.
use r.Base.{
  ℕ, ◌-◌, ◌%◌, ◌^◌, ◌<◌, ◌≡◌, refl, Bool, Bool-cases, inl, inr, List, [], ◌∷◌, Option, none, some,
  ltb, if◌then◌else◌, Text, ParametersMap, lookup, assign, lookup-assign, done, threw, out_of_range,
  false, ◌≤◌, arith,
}
use r.Base.Numerals.{skip_spaces, signed, bounded_unsigned, stoul}
use r.Base.Decimal.{
  to_string, stoi-to_string, stoul-to_string, numeral, value, AreDigits, stoul-numeral,
  stoul-negative,
}
use r.Status.{cast_quietly64, cast_quietly_signed64, or_otherwise, get_number}

bounded_unsigned-handled :
    (otherwise : ℕ) (s : Bool × Option ℕ)
    → (n : ℕ) × (or_otherwise otherwise (bounded_unsigned s) ≡ done n)
unfolding or_otherwise
bounded_unsigned-handled otherwise (minus, none) = (otherwise, refl)
bounded_unsigned-handled otherwise (minus, some n) = elim (Bool-cases (ltb n (2 ^ 64))) [
  | inl e ↦ ((if minus then (2 ^ 64 - n) % 2 ^ 64 else n), rw e)
  | inr e ↦ (otherwise, rw e)
]

-- A getter of a number never throws, whatever the device has sent, and where it has sent no value
-- under the key the result is 0, not the value given for a failure.
pub get_number-done :
    (m : ParametersMap) (key : Text) (otherwise : ℕ)
    → ((n : ℕ) × (get_number m key otherwise ≡ done n)) × (get_number [] key otherwise ≡ done 0)
unfolding get_number lookup cast_quietly64 or_otherwise
get_number-done m key otherwise = (returned (lookup key m), refl)
  where
    returned : (o : Option Text) → (n : ℕ) × (or_otherwise otherwise (cast_quietly64 o) ≡ done n)
    returned none = (0, refl)
    returned (some t) = unfold stoul in bounded_unsigned-handled otherwise (signed (skip_spaces t))

-- A printed number from 2^31, which an int64_t holds and an int does not, is read by the unsigned cast,
-- while the signed one throws out_of_range.
pub cast_quietly_signed64-narrow :
    (n : ℕ)
    → 2 ^ 31 ≤ n
    → n < 2 ^ 63
    → (cast_quietly64 (some (to_string n)) ≡ done n)
      × (cast_quietly_signed64 (some (to_string n)) ≡ threw out_of_range)
unfolding cast_quietly64 cast_quietly_signed64
cast_quietly_signed64-narrow n above below =
    let large : ltb n (2 ^ 31) ≡ false = ground arith in
    (stoul-to_string n (omega arith), rw (stoi-to_string n, large))

module _ (m : ParametersMap) (key : Text) (otherwise : ℕ) (d : ℕ) (ds : List ℕ) where
  -- Where the device has sent the decimal numeral of a number below 2^64 under the getter's key, the
  -- getter returns that number.
  pub get_number-numeral :
      AreDigits (d ∷ ds)
      → value (d ∷ ds) < 2 ^ 64
      → get_number (assign key (numeral (d ∷ ds)) m) key otherwise ≡ done (value (d ∷ ds))
  unfolding get_number cast_quietly64 or_otherwise
  get_number-numeral h fits = rw (lookup-assign key (numeral (d ∷ ds)) m, stoul-numeral d ds h fits)

  -- Where the device has sent a minus sign and the numeral of a positive number below 2^64, as it does
  -- for a temperature below 0, the getter returns that number subtracted from 2^64.
  pub get_number-negative :
      AreDigits (d ∷ ds)
      → 0 < value (d ∷ ds)
      → value (d ∷ ds) < 2 ^ 64
      → get_number (assign key (b'-' ∷ numeral (d ∷ ds)) m) key otherwise
        ≡ done (2 ^ 64 - value (d ∷ ds))
  unfolding get_number cast_quietly64 or_otherwise
  get_number-negative h above fits =
      rw (lookup-assign key (b'-' ∷ numeral (d ∷ ds)) m, stoul-negative d ds h above fits)

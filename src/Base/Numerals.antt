-- ===== src/Base/Numerals.antt =====
-- Numbers in texts, as the C++ library reads them: `>>`, `std::stoul` and `std::stoi`.
use Prim.Native.Nat.{ℕ, ◌+◌, ◌*◌, ◌-◌, ◌%◌, ◌^◌}
use mathlib.Core.Bool.{Bool, true, false, ◌&&◌, ◌||◌}
use mathlib.Core.List.{[], ◌∷◌}
use mathlib.Core.Option.{Option, none, some}
use r.Base.Tests.{ltb, leb, ◌==◌, if◌then◌else◌}
use r.Base.Texts.{Text}
use r.Base.Outcomes.{Outcome, done, threw, invalid_argument, out_of_range}

abbrev pub is_space : ℕ → Bool
is_space c = c == b' ' || leb 9 c && leb c 13

unfoldable pub skip_spaces : Text → Text
skip_spaces [] = []
skip_spaces (c ∷ t) = let rest = skip_spaces t in if is_space c then rest else c ∷ t

abbrev pub is_digit : ℕ → Bool
is_digit c = leb b'0' c && leb c b'9'

-- The value of the digits at the front, if there are any.
unfoldable pub digits : Option ℕ → Text → Option ℕ × Text
digits value [] = (value, [])
digits value (c ∷ t) =
    let rest = digits (some (10 * or_zero value + (c - b'0'))) t in
    if is_digit c then rest else (value, c ∷ t)
  where
    or_zero : Option ℕ → ℕ
    or_zero none = 0
    or_zero (some n) = n

-- A sign, if there is one, and the digits behind it.
abbrev pub signed : Text → Bool × Option ℕ
signed [] = (false, none)
signed (c ∷ t) =
    if c == b'-'
    then (true, (digits none t).0)
    else if c == b'+'
    then (false, (digits none t).0)
    else (false, (digits none (c ∷ t)).0)

-- `std::stoul` with a 64-bit result: a number below 0 wraps around.
abbrev pub bounded_unsigned : Bool × Option ℕ → Outcome ℕ
bounded_unsigned (minus, none) = threw invalid_argument
bounded_unsigned (minus, some n) =
    if ltb n (2 ^ 64) then done (if minus then (2 ^ 64 - n) % 2 ^ 64 else n) else threw out_of_range

unfoldable pub stoul : Text → Outcome ℕ
unfolding skip_spaces digits
stoul t = bounded_unsigned (signed (skip_spaces t))

-- `std::stoi`, as whether there is a minus sign and the magnitude.
abbrev pub bounded_signed : Bool × Option ℕ → Outcome (Bool × ℕ)
bounded_signed (minus, none) = threw invalid_argument
bounded_signed (true, some n) = if leb n (2 ^ 31) then done (true, n) else threw out_of_range
bounded_signed (false, some n) = if ltb n (2 ^ 31) then done (false, n) else threw out_of_range

unfoldable pub stoi : Text → Outcome (Bool × ℕ)
unfolding skip_spaces digits
stoi t = bounded_signed (signed (skip_spaces t))

-- ===== src/Base/Decimal.antt =====
-- Decimal numerals: what `std::to_string` prints, and that `std::stoul` and `std::stoi` read it back.
use r.Base.{
  ℕ, zero, suc, ◌&&◌, ◌+◌, ◌*◌, ◌-◌, ◌/◌, ◌%◌, ◌^◌, ◌≤◌, ◌<◌, ◌≡◌, refl, ◌∙◌, ap, true, false,
  Bool-cases, inl, inr, List, [], ◌∷◌, ◌++◌, map, All, All-append, none, some, ◌==◌, ltb, leb,
  if◌then◌else◌, arith, Text, done, threw, out_of_range,
}
use r.Base.Numerals.{is_space, skip_spaces, digits, bounded_signed, stoul, stoi}

-- The numeral of a list of digits, and its value.
abbrev pub numeral : List ℕ → Text
numeral ds = map (λ d. b'0' + d) ds

abbrev pub value_from : ℕ → List ℕ → ℕ
value_from n [] = n
value_from n (d ∷ ds) = value_from (10 * n + d) ds

abbrev pub value : List ℕ → ℕ
value ds = value_from 0 ds

abbrev pub AreDigits : List ℕ → Type 0
AreDigits ds = All (λ d. d < 10) ds

digits-some :
    (n : ℕ) (ds : List ℕ) → AreDigits ds → (digits (some n) (numeral ds)).0 ≡ some (value_from n ds)
unfolding digits
digits-some n [] h = refl
digits-some n (d ∷ ds) (small, h) =
    let is : (leb b'0' (b'0' + d) && leb (b'0' + d) b'9') ≡ true = ground arith in
    let same_digit : b'0' + d - b'0' ≡ d = omega arith in
    rw (is, same_digit) (digits-some (10 * n + d) ds h)

digits-none :
    (d : ℕ) (ds : List ℕ)
    → AreDigits (d ∷ ds)
    → (digits none (numeral (d ∷ ds))).0 ≡ some (value (d ∷ ds))
unfolding digits
digits-none d ds (small, h) =
    let is : (leb b'0' (b'0' + d) && leb (b'0' + d) b'9') ≡ true = ground arith in
    let same_digit : b'0' + d - b'0' ≡ d = omega arith in
    rw (is, same_digit) (digits-some (10 * 0 + d) ds h)

pub stoul-numeral :
    (d : ℕ) (ds : List ℕ)
    → AreDigits (d ∷ ds)
    → value (d ∷ ds) < 2 ^ 64
    → stoul (numeral (d ∷ ds)) ≡ done (value (d ∷ ds))
unfolding stoul skip_spaces
stoul-numeral d ds h fits =
    let small : d < 10 = h.0 in
    let no_space : is_space (b'0' + d) ≡ false = ground arith in
    let no_minus : (b'0' + d == b'-') ≡ false = ground arith in
    let no_plus : (b'0' + d == b'+') ≡ false = ground arith in
    let below : ltb (value (d ∷ ds)) (2 ^ 64) ≡ true = ground arith in
    rw (no_space, no_minus, no_plus, digits-none d ds h, below)

pub stoul-negative :
    (d : ℕ) (ds : List ℕ)
    → AreDigits (d ∷ ds)
    → 0 < value (d ∷ ds)
    → value (d ∷ ds) < 2 ^ 64
    → stoul (b'-' ∷ numeral (d ∷ ds)) ≡ done (2 ^ 64 - value (d ∷ ds))
unfolding stoul skip_spaces
stoul-negative d ds h above fits =
    let below : ltb (value (d ∷ ds)) (2 ^ 64) ≡ true = ground arith in
    rw (digits-none d ds h, below) (ap done (omega arith))

stoi-numeral :
    (d : ℕ) (ds : List ℕ)
    → AreDigits (d ∷ ds)
    → stoi (numeral (d ∷ ds)) ≡ bounded_signed (false, some (value (d ∷ ds)))
unfolding stoi skip_spaces
stoi-numeral d ds h =
    let small : d < 10 = h.0 in
    let no_space : is_space (b'0' + d) ≡ false = ground arith in
    let no_minus : (b'0' + d == b'-') ≡ false = ground arith in
    let no_plus : (b'0' + d == b'+') ≡ false = ground arith in
    rw (no_space, no_minus, no_plus, digits-none d ds h)

-- The digits of a number, the first one first. The fuel bounds their number.
pub decimal_digits : ℕ → ℕ → List ℕ
decimal_digits zero n = []
decimal_digits (suc fuel) n = elim (ltb n 10) [
  | true ↦ n ∷ []
  | false ↦ decimal_digits fuel (n / 10) ++ (n % 10) ∷ []
]

-- `std::to_string` of an unsigned number.
unfoldable pub to_string : ℕ → Text
unfolding decimal_digits
to_string n = numeral (decimal_digits (suc n) n)

value_from-append :
    (k : ℕ) (ds : List ℕ) (d : ℕ) → value_from k (ds ++ d ∷ []) ≡ 10 * value_from k ds + d
value_from-append k [] d = refl
value_from-append k (e ∷ ds) d = value_from-append (10 * k + e) ds d

-- The digits of a number, of which there is one at least.
abbrev Digits : ℕ → List ℕ → Type 0
Digits n ds = (value ds ≡ n) × AreDigits ds × (¬ (ds ≡ []))

append-not_nil : (ds : List ℕ) (d : ℕ) → ¬ (ds ++ d ∷ [] ≡ [])
append-not_nil [] d e = cc
append-not_nil (x ∷ ds) d e = cc

decimal_digits-Digits : (fuel n : ℕ) → n < fuel → Digits n (decimal_digits fuel n)
unfolding decimal_digits
decimal_digits-Digits zero n h = absurd (omega arith)
decimal_digits-Digits (suc fuel) n h = elim (Bool-cases (ltb n 10)) [
  | inl small ↦ rw (small, decimal_digits) (omega arith, (ground arith, tt), (λ e. cc))
  | inr large ↦
      let big : 10 ≤ n = ground arith in
      let (v, ds, some_digit) = decimal_digits-Digits fuel (n / 10) (omega arith) in
      rw (large, decimal_digits)
        (
          omega (arith, v, value_from-append 0 (decimal_digits fuel (n / 10)) (n % 10)),
          All-append (λ d. d < 10) (decimal_digits fuel (n / 10)) _ ds (omega arith, tt),
          append-not_nil (decimal_digits fuel (n / 10)) (n % 10),
        )
]

-- `std::stoi` reads a printed number back where an int holds it, and throws where it does not.
pub stoi-to_string :
    (n : ℕ) → stoi (to_string n) ≡ (if ltb n (2 ^ 31) then done (false, n) else threw out_of_range)
unfolding to_string
stoi-to_string n = go (decimal_digits (suc n) n) (decimal_digits-Digits (suc n) n (omega arith))
  where
    go :
        (ds : List ℕ)
        → Digits n ds
        → stoi (numeral ds) ≡ (if ltb n (2 ^ 31) then done (false, n) else threw out_of_range)
    go [] (v, small, some_digit) = absurd (some_digit refl)
    go (d ∷ ds) (v, small, some_digit) =
        stoi-numeral d ds small ∙ ap (λ m. bounded_signed (false, some m)) v

-- `std::stoul` reads a printed number below 2^64 back.
pub stoul-to_string : (n : ℕ) → n < 2 ^ 64 → stoul (to_string n) ≡ done n
unfolding to_string
stoul-to_string n fits =
    go (decimal_digits (suc n) n) (decimal_digits-Digits (suc n) n (omega arith))
  where
    go : (ds : List ℕ) → Digits n ds → stoul (numeral ds) ≡ done n
    go [] (v, small, some_digit) = absurd (some_digit refl)
    go (d ∷ ds) (v, small, some_digit) = stoul-numeral d ds small (omega (arith, v)) ∙ ap done v

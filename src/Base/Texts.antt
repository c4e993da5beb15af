-- ===== src/Base/Texts.antt =====
-- Texts as lists of character codes, and maps from texts to texts as association lists (one
-- enumeration of a `std::unordered_map`).
use Prim.Native.Nat.{ℕ}
use Prim.Native.Char.{code}
use Prim.Native.String.{String}
use mathlib.Core.Path.{◌≡◌, refl, ap₂}
use mathlib.Core.Logic.{inl, inr}
use mathlib.Core.Bool.{Bool, true, false, ◌&&◌}
use mathlib.Core.List.{List, [], ◌∷◌}
use mathlib.Core.Option.{Option, none, some}
use native.Mathlib.Omega.{arith}
use r.Base.Tests.{◌==◌, if◌then◌else◌, ==→eq, Bool-cases}

abbrev pub Text : Type 0
Text = List ℕ

-- The codes of a literal. `String` has its own `[]` and `∷`.
abbrev pub codes : String → Text
codes String.[] = []
codes (String.◌∷◌ c s) = code c ∷ codes s

unfoldable pub same : Text → Text → Bool
same [] [] = true
same [] (d ∷ t) = false
same (c ∷ s) [] = false
same (c ∷ s) (d ∷ t) = c == d && same s t

pub same_refl : (s : Text) → same s s ≡ true
unfolding same
same_refl [] = refl
same_refl (c ∷ s) = ground (arith, same_refl s)

pub same→eq : (s t : Text) → same s t ≡ true → s ≡ t
unfolding same
same→eq [] [] h = refl
same→eq [] (d ∷ t) h = cc
same→eq (c ∷ s) [] h = cc
same→eq (c ∷ s) (d ∷ t) h = elim (Bool-cases (c == d)) [
  | inl e ↦ ap₂ (λ x y. x ∷ y) (==→eq c d e) (same→eq s t (ground arith))
  | inr e ↦ absurd (ground arith)
]

abbrev pub ParametersMap : Type 0
ParametersMap = List (Text × Text)

-- `find`, `count` and `at` of a map.
unfoldable pub lookup {ℓ} : {V : Type ℓ} → Text → List (Text × V) → Option V
unfolding same
lookup k [] = none
lookup k ((j, v) ∷ m) = if same j k then some v else lookup k m

-- `map[key] = value`
unfoldable pub assign {ℓ} : {V : Type ℓ} → Text → V → List (Text × V) → List (Text × V)
unfolding same
assign k v [] = (k, v) ∷ []
assign k v ((j, w) ∷ m) = if same j k then (j, v) ∷ m else (j, w) ∷ assign k v m

pub lookup-assign {ℓ} :
    {V : Type ℓ} (k : Text) (v : V) (m : List (Text × V)) → lookup k (assign k v m) ≡ some v
unfolding lookup assign
lookup-assign k v [] = rw (same_refl k)
lookup-assign k v ((j, w) ∷ m) = elim (Bool-cases (same j k)) [
  | inl e ↦ rw (e, lookup, e)
  | inr e ↦ rw (e, lookup, e) (lookup-assign k v m)
]

pub lookup-assign_other {ℓ} :
    {V : Type ℓ} (k l : Text) (v : V) (m : List (Text × V))
    → same k l ≡ false
    → lookup l (assign k v m) ≡ lookup l m
unfolding lookup assign
lookup-assign_other k l v [] h = rw h
lookup-assign_other k l v ((j, w) ∷ m) h = elim (Bool-cases (same j k)) [
  | inl e ↦ rw (e, lookup, same→eq j k e, h)
  | inr e ↦ rw (e, lookup, lookup-assign_other k l v m h)
]

pub lookup-assign_if {ℓ} :
    {V : Type ℓ} (k l : Text) (v : V) (m : List (Text × V))
    → lookup l (assign k v m) ≡ (if same k l then some v else lookup l m)
lookup-assign_if k l v m = elim (Bool-cases (same k l)) [
  | inl e ↦ rw (e, same→eq k l e) (lookup-assign l v m)
  | inr e ↦ rw e (lookup-assign_other k l v m e)
]

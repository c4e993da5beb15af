-- ===== src/Scan/Back.antt =====
-- The tests on the last element and on emptiness that the factories make, on lists.
use r.Base.{◌≡◌, refl, ap, true, false, List, [], ◌∷◌, ◌++◌, map, All, some}
use r.Scan.{is_empty, back}
use mathlib.Core.Option

pub map-append {ℓ κ} :
    {A : Type ℓ} {B : Type κ} (f : A → B) (xs ys : List A) → map f (xs ++ ys) ≡ map f xs ++ map f ys
map-append f [] ys = refl
map-append f (x ∷ xs) ys = ap (λ zs. f x ∷ zs) (map-append f xs ys)

pub is_empty-map {ℓ κ} :
    {A : Type ℓ} {B : Type κ} (f : A → B) (xs : List A) → is_empty (map f xs) ≡ is_empty xs
is_empty-map f [] = refl
is_empty-map f (x ∷ xs) = refl

pub back-map {ℓ κ} :
    {A : Type ℓ} {B : Type κ} (f : A → B) (xs : List A) → Option.map f (back xs) ≡ back (map f xs)
back-map f [] = refl
back-map f (x ∷ []) = refl
back-map f (x ∷ y ∷ ys) = back-map f (y ∷ ys)

pub back-append {ℓ} : {A : Type ℓ} (xs : List A) (x : A) → back (xs ++ x ∷ []) ≡ some x
back-append [] x = refl
back-append (a ∷ []) x = refl
back-append (a ∷ b ∷ xs) x = back-append (b ∷ xs) x

pub is_empty-append {ℓ} : {A : Type ℓ} (xs : List A) (x : A) → is_empty (xs ++ x ∷ []) ≡ false
is_empty-append [] x = refl
is_empty-append (a ∷ xs) x = refl

pub is_empty-nil {ℓ} : {A : Type ℓ} (xs : List A) → is_empty xs ≡ true → xs ≡ []
is_empty-nil [] e = refl
is_empty-nil (x ∷ xs) e = cc

pub back-All {ℓ κ} :
    {A : Type ℓ} (P : A → Type κ) (x : A) (xs : List A)
    → All P (x ∷ xs)
    → (y : A) × (back (x ∷ xs) ≡ some y) × P y
back-All P x [] h = (x, refl, h.0)
back-All P x (y ∷ ys) h = back-All P y ys h.1

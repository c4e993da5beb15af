-- ===== src/Commands/Values.antt =====
-- The values of parameters that the executors of include/Control/Commands.hpp read from an answer.
use r.Base.{
  ◌≡◌, refl, sym, ◌∙◌, ap, Bool, true, false, Bool-cases, inl, inr, List, [], ◌∷◌, ◌++◌, Option,
  none, some, Option-cases, if◌then◌else◌, Text, ParametersMap, lookup, same, same→eq, ◌||◌,
}
use r.Commands.{insert}
use r.Commands.Trees.{TreeReads, or_empty, extract_from, extract_parameters_values}

abbrev or_else : Option Text → Option Text → Option Text
or_else none other = other
or_else (some value) other = some value

abbrev pub is_among : Text → List Text → Bool
is_among l [] = false
is_among l (name ∷ names) = same name l || is_among l names

lookup-append :
    (k l : Text) (v : Text) (m : ParametersMap)
    → lookup l (m ++ (k, v) ∷ []) ≡ or_else (lookup l m) (if same k l then some v else none)
unfolding lookup
lookup-append k l v [] = refl
lookup-append k l v ((j, w) ∷ m) = elim (Bool-cases (same j l)) [
  | inl e ↦ rw e
  | inr e ↦ rw e (lookup-append k l v m)
]

lookup-insert :
    (k l : Text) (v : Text) (m : ParametersMap)
    → lookup l (insert k v m) ≡ or_else (lookup l m) (if same k l then some v else none)
unfolding insert
lookup-insert k l v m = elim (Option-cases (lookup k m)) [
  | inl e ↦ rw (e, insert) (lookup-append k l v m)
  | inr (w, e) ↦
      rw (e, insert)
        (elim (Bool-cases (same k l)) [
          | inl s ↦
              let here : lookup l m ≡ some w = ap (λ x. lookup x m) (sym (same→eq k l s)) ∙ e in
              rw here
          | inr s ↦ rw s (absent (lookup l m))
        ])
]
  where
    absent : (o : Option Text) → o ≡ or_else o none
    absent none = refl
    absent (some x) = refl

module _ {T : Type 0} (reads : TreeReads T) (tree : T) where
  abbrev value_of : Text → Text
  value_of name = or_empty reads (reads.get_optional name tree)

  or_else_if :
      (o : Option Text) (b c : Bool) (v w : Text)
      → (b ≡ true → v ≡ w)
      → or_else (or_else o (if b then some v else none)) (if c then some w else none)
        ≡ or_else o (if b || c then some w else none)
  or_else_if (some x) b c v w h = refl
  or_else_if none true c v w h = ap some (h refl)
  or_else_if none false c v w h = refl

  lookup-extract_from :
      (l : Text) (names : List Text) (m : ParametersMap)
      → lookup l (extract_from reads m names tree)
        ≡ or_else (lookup l m) (if is_among l names then some (value_of l) else none)
  unfolding extract_from
  lookup-extract_from l [] m = elim (Option-cases (lookup l m)) [ inl e ↦ rw e | inr (x, e) ↦ rw e ]
  lookup-extract_from l (name ∷ names) m =
      lookup-extract_from l names (insert name (value_of name) m)
      ∙ ap (λ o. or_else o (if is_among l names then some (value_of l) else none))
          (lookup-insert name l (value_of name) m)
      ∙ or_else_if (lookup l m) (same name l) (is_among l names) (value_of name) (value_of l)
          (λ e. ap value_of (same→eq name l e))

  -- The map of the requested parameters has a value for each requested name and for no other: the value
  -- that the answer has, or the empty text where the answer has none.
  pub lookup-extract_parameters_values :
      (l : Text) (names : List Text)
      → lookup l (extract_parameters_values reads names tree)
        ≡ (if is_among l names then some (or_empty reads (reads.get_optional l tree)) else none)
  unfolding extract_parameters_values lookup
  lookup-extract_parameters_values l names = lookup-extract_from l names []

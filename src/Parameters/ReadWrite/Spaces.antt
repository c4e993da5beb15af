-- ===== src/Parameters/ReadWrite/Spaces.antt =====
-- `encoreSpaceInUrl` of include/Control/Parameters.hpp: the lines for the display in a URL.
use r.Base.{
  ℕ, ◌≡◌, refl, ap, ◌∙◌, true, false, ◌&&◌, Bool-cases, inl, inr, [], ◌∷◌, map, All, ◌==◌,
  if◌then◌else◌, Text,
}
use r.Base.Numerals.{is_space}
use r.Parameters.ReadWrite.{encore_space_in_url}

-- What a server makes of the three characters %20.
pub decode_space : Text → Text
decode_space [] = []
decode_space (a ∷ []) = a ∷ []
decode_space (a ∷ b ∷ []) = a ∷ b ∷ []
decode_space (a ∷ b ∷ c ∷ t) = elim (a == b'%' && (b == b'2' && c == b'0')) [
  | true ↦ b' ' ∷ decode_space t
  | false ↦ a ∷ decode_space (b ∷ c ∷ t)
]

decode_space-other :
    (a : ℕ) (t : Text) → (a == b'%') ≡ false → decode_space (a ∷ t) ≡ a ∷ decode_space t
unfolding decode_space
decode_space-other a [] h = refl
decode_space-other a (b ∷ []) h = refl
decode_space-other a (b ∷ c ∷ t) h = rw (h, decode_space)

-- The encoding of a line without percent signs has no white space, and a server that decodes it reads
-- the line, with a blank for each of its white spaces.
pub decode_space-encore_space_in_url :
    (t : Text)
    → All (λ c. (c == b'%') ≡ false) t
    → All (λ c. is_space c ≡ false) (encore_space_in_url t)
      × (decode_space (encore_space_in_url t) ≡ map (λ c. if is_space c then b' ' else c) t)
unfolding encore_space_in_url decode_space
decode_space-encore_space_in_url [] h = (tt, refl)
decode_space-encore_space_in_url (c ∷ t) (plain, h) =
    let (spaceless, read) = decode_space-encore_space_in_url t h in
    elim (Bool-cases (is_space c)) [
      | inl space ↦ rw space ((refl, (refl, (refl, spaceless))), ap (λ u. b' ' ∷ u) read)
      | inr other ↦ rw other (
        (other, spaceless),
        decode_space-other c (encore_space_in_url t) plain ∙ ap (λ u. c ∷ u) read,
      )
    ]

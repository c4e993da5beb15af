-- ===== src/Commands/Lists.antt =====
-- Chained parameter names (include/Control/Commands.hpp): what the device reads back of them.
use r.Base.{◌≡◌, List, [], ◌∷◌, ◌++◌, append_assoc, append-nil, All, Text}
use r.Device.Request.Reading.{Avoids, split_at, split_at-found, split_at-none, pop_back-append}
use r.Commands.Trees.{with_semicolons, chain_names}

abbrev separated : Text → List Text → Text
separated name [] = name
separated name (next ∷ names) = name ++ b';' ∷ separated next names

with_semicolons-separated :
    (name : Text) (names : List Text)
    → with_semicolons (name ∷ names) ≡ separated name names ++ b';' ∷ []
unfolding with_semicolons
with_semicolons-separated name [] = append-nil (name ++ b';' ∷ [])
with_semicolons-separated name (next ∷ names) =
    rw (with_semicolons-separated next names) (simp append_assoc)

split_at-separated :
    (name : Text) (names : List Text)
    → Avoids b';' name
    → All (Avoids b';') names
    → split_at b';' (separated name names) ≡ name ∷ names
split_at-separated name [] h hs = split_at-none b';' name h
split_at-separated name (next ∷ names) h (k, hs) =
    rw (split_at-found b';' name (separated next names) h, split_at-separated next names k hs)

-- The names of one parameter or more that hold no semicolon are read back from their chain, split at
-- the semicolons, in their order.
pub split_at-chain_names :
    (name : Text) (names : List Text)
    → Avoids b';' name
    → All (Avoids b';') names
    → split_at b';' (chain_names (name ∷ names)) ≡ name ∷ names
unfolding chain_names
split_at-chain_names name names h hs =
    rw (with_semicolons-separated name names, pop_back-append b';' (separated name names))
      (split_at-separated name names h hs)

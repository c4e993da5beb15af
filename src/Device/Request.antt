-- ===== src/Device/Request.antt =====
-- The request line of a command (`makeRequestFromParameters` and `sendHttpCommand` of src/R2000.cpp):
-- `/cmd/<command>?<name>=<value>&...`, and that the device can read it back.
pub mod Reading
use r.Base.{
  ℕ, suc, ◌≡◌, refl, sym, ◌∙◌, ap, Bool, true, false, not, Bool-cases, inl, inr, List, [], ◌∷◌,
  ◌++◌, map, append_assoc, append-nil, All, Option, none, some, ◌==◌, if◌then◌else◌, arith, Text,
  codes, ParametersMap, assign, eq→==,
}

-- `pop_back`, and the test on `back` before it. The request is never empty.
abbrev pub ends_with : ℕ → Text → Bool
ends_with c [] = false
ends_with c (d ∷ []) = d == c
ends_with c (d ∷ e ∷ t) = ends_with c (e ∷ t)

abbrev pub pop_back : Text → Text
pop_back [] = []
pop_back (c ∷ []) = []
pop_back (c ∷ d ∷ t) = c ∷ pop_back (d ∷ t)

unfoldable pub parameters_text : ParametersMap → Text
parameters_text [] = []
parameters_text ((name, value) ∷ ps) = name ++ b'=' ∷ value ++ b'&' ∷ parameters_text ps

pub question_mark : ParametersMap → Text
question_mark [] = []
question_mark (p ∷ ps) = b'?' ∷ []

pub drop_ampersand : Text → Text
drop_ampersand request = if ends_with b'&' request then pop_back request else request

unfoldable pub make_request : Text → ParametersMap → Text
unfolding parameters_text question_mark drop_ampersand
make_request command ps =
    drop_ampersand ((codes "/cmd/" ++ command ++ question_mark ps) ++ parameters_text ps)

-- `sendHttpCommand` with a single parameter, where an empty name stands for none.
unfoldable pub single_parameter : Text → Text → ParametersMap
unfolding assign
single_parameter [] value = []
single_parameter (c ∷ name) value = assign (c ∷ name) value []

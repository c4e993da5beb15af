-- ===== src/Device/Request/Reading.antt =====
-- The request line of a command, read back the way a server does: behind `/cmd/`, the command goes up
-- to `?`, and each piece between two `&` is a name up to the first `=` and a value.
use r.Base.{
  ℕ, ◌≡◌, refl, sym, ◌∙◌, ap, true, false, List, [], ◌∷◌, ◌++◌, map, append_assoc, append-nil, All,
  Option, none, some, ◌==◌, if◌then◌else◌, arith, Text, codes, ParametersMap, drop,
}
use r.Device.Request.{
  ends_with, pop_back, parameters_text, question_mark, drop_ampersand, make_request,
}

abbrev pub Avoids : ℕ → Text → Type 0
Avoids c t = All (λ d. (d == c) ≡ false) t

-- The text before the first `c`, and what follows it.
abbrev break_at : ℕ → Text → Text × Option Text
break_at c [] = ([], none)
break_at c (d ∷ t) =
    let rest = break_at c t in if d == c then ([], some t) else (d ∷ rest.0, rest.1)

-- The texts between the occurrences of `c`.
abbrev pub put_front : ℕ → List Text → List Text
put_front d [] = []
put_front d (s ∷ ss) = (d ∷ s) ∷ ss

abbrev pub split_at : ℕ → Text → List Text
split_at c [] = [] ∷ []
split_at c (d ∷ t) = let rest = split_at c t in if d == c then [] ∷ rest else put_front d rest

abbrev or_empty : Option Text → Text
or_empty none = []
or_empty (some t) = t

abbrev pair_of : Text → Text × Text
pair_of piece = let p = break_at b'=' piece in (p.0, or_empty p.1)

abbrev pairs_of : Option Text → ParametersMap
pairs_of none = []
pairs_of (some query) = map pair_of (split_at b'&' query)

abbrev pub read_request : Text → Text × ParametersMap
read_request request = let p = break_at b'?' (drop 5 request) in (p.0, pairs_of p.1)

break_at-found : (c : ℕ) (s t : Text) → Avoids c s → break_at c (s ++ c ∷ t) ≡ (s, some t)
break_at-found c [] t h = ground arith
break_at-found c (d ∷ s) t (h, hs) = rw (h, break_at-found c s t hs)

break_at-none : (c : ℕ) (s : Text) → Avoids c s → break_at c s ≡ (s, none)
break_at-none c [] h = refl
break_at-none c (d ∷ s) (h, hs) = rw (h, break_at-none c s hs)

pub split_at-found : (c : ℕ) (s t : Text) → Avoids c s → split_at c (s ++ c ∷ t) ≡ s ∷ split_at c t
split_at-found c [] t h = ground arith
split_at-found c (d ∷ s) t (h, hs) = rw (h, split_at-found c s t hs)

pub split_at-none : (c : ℕ) (s : Text) → Avoids c s → split_at c s ≡ s ∷ []
split_at-none c [] h = refl
split_at-none c (d ∷ s) (h, hs) = rw (h, split_at-none c s hs)

Avoids-append : (c : ℕ) (s t : Text) → Avoids c s → Avoids c t → Avoids c (s ++ t)
Avoids-append c [] t h k = k
Avoids-append c (d ∷ s) t (h, hs) k = (h, Avoids-append c s t hs k)

ends_with-append : (c : ℕ) (s : Text) → ends_with c (s ++ c ∷ []) ≡ true
ends_with-append c [] = ground arith
ends_with-append c (d ∷ []) = ground arith
ends_with-append c (d ∷ e ∷ s) = ends_with-append c (e ∷ s)

pub pop_back-append : (c : ℕ) (s : Text) → pop_back (s ++ c ∷ []) ≡ s
pop_back-append c [] = refl
pop_back-append c (d ∷ []) = refl
pop_back-append c (d ∷ e ∷ s) = ap (λ t. d ∷ t) (pop_back-append c (e ∷ s))

ends_with-Avoids : (c : ℕ) (s : Text) → Avoids c s → ends_with c s ≡ false
ends_with-Avoids c [] h = refl
ends_with-Avoids c (d ∷ []) (h, hs) = h
ends_with-Avoids c (d ∷ e ∷ s) (h, hs) = ends_with-Avoids c (e ∷ s) hs

-- A name and a value that can be told apart from their surroundings.
abbrev pub IsReadable : Text × Text → Type 0
IsReadable (name, value) = Avoids b'=' name × Avoids b'&' name × Avoids b'&' value

abbrev piece : Text × Text → Text
piece (name, value) = name ++ b'=' ∷ value

abbrev separated : Text × Text → ParametersMap → Text
separated p [] = piece p
separated p (q ∷ ps) = piece p ++ b'&' ∷ separated q ps

parameters_text-separated :
    (p : Text × Text) (ps : ParametersMap) → parameters_text (p ∷ ps) ≡ separated p ps ++ b'&' ∷ []
unfolding parameters_text
parameters_text-separated (name, value) [] = refl
parameters_text-separated (name, value) (q ∷ ps) =
    rw (parameters_text-separated q ps)
      (sym (append_assoc (name ++ b'=' ∷ value) (b'&' ∷ separated q ps) (b'&' ∷ [])))

piece-Avoids : (p : Text × Text) → IsReadable p → Avoids b'&' (piece p)
piece-Avoids (name, value) (a, b, c) = Avoids-append b'&' name (b'=' ∷ value) b (refl, c)

pair_of-piece : (p : Text × Text) → IsReadable p → pair_of (piece p) ≡ p
pair_of-piece (name, value) (a, b, c) = rw (break_at-found b'=' name value a)

pairs_of-separated :
    (p : Text × Text) (ps : ParametersMap)
    → IsReadable p
    → All IsReadable ps
    → map pair_of (split_at b'&' (separated p ps)) ≡ p ∷ ps
pairs_of-separated p [] h hs =
    rw (split_at-none b'&' (piece p) (piece-Avoids p h), pair_of-piece p h)
pairs_of-separated p (q ∷ ps) h (k, hs) = rw (
  split_at-found b'&' (piece p) (separated q ps) (piece-Avoids p h),
  pair_of-piece p h,
  pairs_of-separated q ps k hs,
)

drop_ampersand-Avoids : (s : Text) → ends_with b'&' s ≡ false → drop_ampersand s ≡ s
unfolding drop_ampersand
drop_ampersand-Avoids s h = rw h

drop_ampersand-append : (s : Text) → drop_ampersand (s ++ b'&' ∷ []) ≡ s
unfolding drop_ampersand
drop_ampersand-append s = rw (ends_with-append b'&' s, pop_back-append b'&' s)

make_request-none :
    (command : Text) → Avoids b'&' command → make_request command [] ≡ codes "/cmd/" ++ command
unfolding make_request question_mark parameters_text
make_request-none command k =
    ap drop_ampersand
      (append-nil (codes "/cmd/" ++ command ++ []) ∙ append-nil (codes "/cmd/" ++ command))
    ∙ drop_ampersand-Avoids (codes "/cmd/" ++ command)
        (ends_with-Avoids b'&' (codes "/cmd/" ++ command) (refl, (refl, (refl, (refl, (refl, k))))))

make_request-some :
    (command : Text) (p : Text × Text) (ps : ParametersMap)
    → make_request command (p ∷ ps) ≡ codes "/cmd/" ++ (command ++ b'?' ∷ separated p ps)
unfolding make_request question_mark
make_request-some command p ps =
    let front = codes "/cmd/" ++ command ++ b'?' ∷ [] in
    let query = separated p ps in
    ap (λ t. drop_ampersand (front ++ t)) (parameters_text-separated p ps)
    ∙ ap drop_ampersand (sym (append_assoc front query (b'&' ∷ [])))
    ∙ drop_ampersand-append (front ++ query)
    ∙ ap (λ t. codes "/cmd/" ++ t) (append_assoc command (b'?' ∷ []) query)

-- A command without `?` and `&`, with parameters whose names are without `=` and `&` and whose values
-- are without `&`, is read back from its request line: the command, and the parameters in the order
-- in which the map enumerates them.
pub read_request-make_request :
    (command : Text) (ps : ParametersMap)
    → Avoids b'?' command
    → Avoids b'&' command
    → All IsReadable ps
    → read_request (make_request command ps) ≡ (command, ps)
read_request-make_request command [] h k hs =
    ap read_request (make_request-none command k) ∙ rw (break_at-none b'?' command h)
read_request-make_request command (p ∷ ps) h k (hp, hs) =
    ap read_request (make_request-some command p ps)
    ∙ rw (break_at-found b'?' command (separated p ps) h, pairs_of-separated p ps hp hs)

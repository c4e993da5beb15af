-- ===== src/Packet/Payload/Points.antt =====
-- The three payload types of include/DataLink/DataLink.hpp on what a device writes.
use r.Base.{
  ℕ, suc, ◌+◌, ◌*◌, ◌^◌, ◌≤◌, ◌<◌, ◌≡◌, refl, ◌∙◌, ap, arith, List, [], ◌∷◌, ◌++◌, map,
  append_assoc, append-nil, length, All, drop, done, ◌==◌, if◌then◌else◌, bit_and,
}
use r.Base.Bits.{bit_and_low, bit_and_high}
use r.Wire.{Buffer}
use r.Packet.{
  Points, push_point, quiet_nan, point_a, point_b, point_c, retrieve_payload_a, retrieve_payload_b,
  retrieve_payload_c,
}
use r.Packet.Payload.{
  encode32, encode48, push_all, retrieve_32_bits-encode32, retrieve_48_bits-encode48,
}

-- A measured value, with the sentinel for an invalid measure replaced.
abbrev pub measured : ℕ → ℕ → ℕ
measured sentinel v = if v == sentinel then quiet_nan else v

-- Points joined to the back of both vectors.
abbrev pub append_points : Points → List ℕ → List ℕ → Points
append_points s ds amps = record {
  distances = s.distances ++ ds;
  amplitudes = s.amplitudes ++ amps;
}

append_points-nil : (s : Points) → s ≡ append_points s [] []
append_points-nil s = ground (arith, append-nil s.distances, append-nil s.amplitudes)

append_points-cons :
    (s : Points) (d a : ℕ) (ds amps : List ℕ)
    → append_points (push_point d a s) ds amps ≡ append_points s (d ∷ ds) (a ∷ amps)
unfolding push_point
append_points-cons s d a ds amps =
    ground (arith, append_assoc s.distances (d ∷ []) ds, append_assoc s.amplitudes (a ∷ []) amps)

push_all-points :
    {A : Type 0} (f : A → Points → Points) (distance amplitude : A → ℕ)
    → ((v : A) (s : Points) → f v s ≡ push_point (distance v) (amplitude v) s)
    → (vs : List A) (s : Points)
    → push_all f vs s ≡ append_points s (map distance vs) (map amplitude vs)
push_all-points f distance amplitude each [] s = append_points-nil s
push_all-points f distance amplitude each (v ∷ vs) s = rw (each v s) (
    push_all-points f distance amplitude each vs (push_point (distance v) (amplitude v) s)
    ∙ append_points-cons s (distance v) (amplitude v) (map distance vs) (map amplitude vs))

-- A type A payload of distances below 2^32 gives these distances, with 0 for 0xFFFFFFFF, and as many
-- zero amplitudes; the reader stops behind the payload.
pub retrieve_payload_a-encode32 :
    (buffer : Buffer) (end : ℕ) (vs : List ℕ) (begin : ℕ) (s : Points) (rest : List ℕ)
    → All (λ v. v < 2 ^ 32) vs
    → drop begin buffer ≡ encode32 vs rest
    → begin + 4 * length vs ≤ end
    → end < 2 ^ 64
    → retrieve_payload_a buffer begin end (length vs) s
      ≡ done
          (begin + 4 * length vs, append_points s (map (measured 0xFFFFFFFF) vs) (map (λ _. 0) vs))
unfolding retrieve_payload_a point_a
retrieve_payload_a-encode32 buffer end vs begin s rest fit e h small =
    retrieve_32_bits-encode32 point_a buffer end vs begin s rest fit e h small
    ∙ ap (λ (t : Points). done (begin + 4 * length vs, t))
        (push_all-points point_a (measured 0xFFFFFFFF) (λ _. 0) (λ v t. refl) vs s)

-- A type B payload of distances below 2^32 and amplitudes below 2^16 gives both back, with 0 for the
-- distance 0xFFFFFFFF; the reader stops behind the payload.
pub retrieve_payload_b-encode48 :
    (buffer : Buffer) (end : ℕ) (vs : List (ℕ × ℕ)) (begin : ℕ) (s : Points) (rest : List ℕ)
    → All (λ v. (v.0 < 2 ^ 32) × (v.1 < 2 ^ 16)) vs
    → drop begin buffer ≡ encode48 vs rest
    → begin + 6 * length vs ≤ end
    → end < 2 ^ 64
    → retrieve_payload_b buffer begin end (length vs) s
      ≡ done (
        begin + 6 * length vs,
        append_points s (map (λ v. measured 0xFFFFFFFF v.0) vs) (map (λ v. v.1) vs),
      )
unfolding retrieve_payload_b point_b
retrieve_payload_b-encode48 buffer end vs begin s rest fit e h small =
    retrieve_48_bits-encode48 point_b buffer end vs begin s rest fit e h small
    ∙ ap (λ (t : Points). done (begin + 6 * length vs, t))
        (push_all-points (λ v. point_b v.0 v.1) (λ v. measured 0xFFFFFFFF v.0) (λ v. v.1)
          (λ v t. refl) vs s)

-- A point of type C: a distance of 20 bits under an amplitude of 12 bits.
abbrev pub packed : ℕ × ℕ → ℕ
packed v = v.0 + v.1 * 2 ^ 20

abbrev pub FitsPacked : ℕ × ℕ → Type 0
FitsPacked v = (v.0 < 2 ^ 20) × (v.1 < 2 ^ 12)

twelve_bits : (a : ℕ) → a < 2 ^ 12 → bit_and a 0xFFF ≡ a
twelve_bits a h = ground (arith, bit_and_low 12 a 0)

point_c-packed :
    (v : ℕ × ℕ) (s : Points)
    → FitsPacked v
    → point_c (packed v) s ≡ push_point (measured 0xFFFFF v.0) v.1 s
unfolding point_c
point_c-packed v s h =
    ground (arith, bit_and_low 20 v.0 v.1, bit_and_high 20 v.0 v.1 0xFFF, twelve_bits v.1)

push_all-point_c :
    (vs : List (ℕ × ℕ)) (s : Points)
    → All FitsPacked vs
    → push_all point_c (map packed vs) s
      ≡ append_points s (map (λ v. measured 0xFFFFF v.0) vs) (map (λ v. v.1) vs)
push_all-point_c [] s fit = append_points-nil s
push_all-point_c (v ∷ vs) s fit =
    ap (push_all point_c (map packed vs)) (point_c-packed v s fit.0)
    ∙ (push_all-point_c vs (push_point (measured 0xFFFFF v.0) v.1 s) fit.1
        ∙ append_points-cons s (measured 0xFFFFF v.0) v.1 (map (λ v. measured 0xFFFFF v.0) vs)
            (map (λ v. v.1) vs))

pub packed-lt : (vs : List (ℕ × ℕ)) → All FitsPacked vs → All (λ v. v < 2 ^ 32) (map packed vs)
packed-lt [] fit = tt
packed-lt (v ∷ vs) fit = (omega arith, packed-lt vs fit.1)

pub length-packed : (vs : List (ℕ × ℕ)) → length (map packed vs) ≡ length vs
length-packed [] = refl
length-packed (v ∷ vs) = ap suc (length-packed vs)

-- A type C payload of points that pack a distance below 2^20 with an amplitude below 2^12 gives both
-- back, with 0 for the distance 0xFFFFF; the reader stops behind the payload.
pub retrieve_payload_c-encode32 :
    (buffer : Buffer) (end : ℕ) (vs : List (ℕ × ℕ)) (begin : ℕ) (s : Points) (rest : List ℕ)
    → All FitsPacked vs
    → drop begin buffer ≡ encode32 (map packed vs) rest
    → begin + 4 * length vs ≤ end
    → end < 2 ^ 64
    → retrieve_payload_c buffer begin end (length vs) s
      ≡ done (
        begin + 4 * length vs,
        append_points s (map (λ v. measured 0xFFFFF v.0) vs) (map (λ v. v.1) vs),
      )
unfolding retrieve_payload_c
retrieve_payload_c-encode32 buffer end vs begin s rest fit e h small =
    let same = length-packed vs in
    let run =
      retrieve_32_bits-encode32 point_c buffer end (map packed vs) begin s rest (packed-lt vs fit) e
        (omega arith) small in
    (rw same at run)
    ∙ ap (λ (t : Points). done (begin + 4 * length vs, t)) (push_all-point_c vs s fit)

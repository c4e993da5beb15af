-- ===== src/Packet/Payload/Decoded.antt =====
-- Arbitrary bytes as an encoded payload, for the extraction loops of include/DataLink/DataLink.hpp.
use r.Base.{
  ℕ, zero, suc, ◌+◌, ◌-◌, ◌*◌, ◌/◌, ◌%◌, ◌^◌, ◌≤◌, ◌<◌, min, ◌≡◌, refl, sym, ◌∙◌, ap, arith, List,
  [], ◌∷◌, map, length, All, drop,
}
use r.Wire.{Buffer, IsByte}
use r.Wire.Reads.{interpret_u32-Takes, interpret_u16-Takes}
use r.Packet.{retrieve_32_bits, retrieve_48_bits}
use r.Packet.Payload.{
  encode32, encode48, enough_left, too_few_left, stop_32, step_32, stop_48, step_48,
}
use r.Packet.Payload.Points.{packed, FitsPacked}
use native.Mathlib.Decide.{dec_lt}

pub All-drop : (n : ℕ) (xs : List ℕ) → All IsByte xs → All IsByte (drop n xs)
All-drop zero xs h = h
All-drop (suc n) [] h = tt
All-drop (suc n) (x ∷ xs) (h, hs) = All-drop n xs hs

-- The first bytes are those of so many integers.
pub decoded32 :
    (k : ℕ) (bs : List ℕ)
    → All IsByte bs
    → 4 * k ≤ length bs
    → (vs : List ℕ) × (rest : List ℕ) × All (λ v. v < 2 ^ 32) vs
      × (length vs ≡ k)
      × (bs ≡ encode32 vs rest)
decoded32 zero bs all h = ([], bs, tt, refl, refl)
decoded32 (suc k) [] all h = absurd (omega arith)
decoded32 (suc k) (a ∷ []) all h = absurd (omega arith)
decoded32 (suc k) (a ∷ b ∷ []) all h = absurd (omega arith)
decoded32 (suc k) (a ∷ b ∷ c ∷ []) all h = absurd (omega arith)
decoded32 (suc k) (a ∷ b ∷ c ∷ d ∷ bs) (ha, (hb, (hc, (hd, all)))) h =
    let (vs, rest, fit, count, e) = decoded32 k bs all (omega arith) in
    let v = a + b * 2 ^ 8 + c * 2 ^ 16 + d * 2 ^ 24 in
    let e0 : v / 2 ^ (8 * 0) % 2 ^ 8 ≡ a = omega arith in
    let e1 : v / 2 ^ (8 * 1) % 2 ^ 8 ≡ b = omega arith in
    let e2 : v / 2 ^ (8 * 2) % 2 ^ 8 ≡ c = omega arith in
    let e3 : v / 2 ^ (8 * 3) % 2 ^ 8 ≡ d = omega arith in
    (
      v ∷ vs,
      rest,
      (omega arith, fit),
      ap suc count,
      rw (e0, e1, e2, e3) (ap (λ t. a ∷ b ∷ c ∷ d ∷ t) e),
    )

pub decoded48 :
    (k : ℕ) (bs : List ℕ)
    → All IsByte bs
    → 6 * k ≤ length bs
    → (vs : List (ℕ × ℕ)) × (rest : List ℕ) × All (λ v. (v.0 < 2 ^ 32) × (v.1 < 2 ^ 16)) vs
      × (length vs ≡ k)
      × (bs ≡ encode48 vs rest)
decoded48 zero bs all h = ([], bs, tt, refl, refl)
decoded48 (suc k) [] all h = absurd (omega arith)
decoded48 (suc k) (a ∷ []) all h = absurd (omega arith)
decoded48 (suc k) (a ∷ b ∷ []) all h = absurd (omega arith)
decoded48 (suc k) (a ∷ b ∷ c ∷ []) all h = absurd (omega arith)
decoded48 (suc k) (a ∷ b ∷ c ∷ d ∷ []) all h = absurd (omega arith)
decoded48 (suc k) (a ∷ b ∷ c ∷ d ∷ f ∷ []) all h = absurd (omega arith)
decoded48 (suc k) (a ∷ b ∷ c ∷ d ∷ f ∷ g ∷ bs) (ha, (hb, (hc, (hd, (hf, (hg, all)))))) h =
    let (vs, rest, fit, count, e) = decoded48 k bs all (omega arith) in
    let v = a + b * 2 ^ 8 + c * 2 ^ 16 + d * 2 ^ 24 in
    let w = f + g * 2 ^ 8 in
    let e0 : v / 2 ^ (8 * 0) % 2 ^ 8 ≡ a = omega arith in
    let e1 : v / 2 ^ (8 * 1) % 2 ^ 8 ≡ b = omega arith in
    let e2 : v / 2 ^ (8 * 2) % 2 ^ 8 ≡ c = omega arith in
    let e3 : v / 2 ^ (8 * 3) % 2 ^ 8 ≡ d = omega arith in
    let e4 : w / 2 ^ (8 * 0) % 2 ^ 8 ≡ f = omega arith in
    let e5 : w / 2 ^ (8 * 1) % 2 ^ 8 ≡ g = omega arith in
    (
      (v, w) ∷ vs,
      rest,
      ((omega arith, omega arith), fit),
      ap suc count,
      rw (e0, e1, e2, e3, e4, e5) (ap (λ t. a ∷ b ∷ c ∷ d ∷ f ∷ g ∷ t) e),
    )

-- Each integer packs a distance and an amplitude.
pub unpacked :
    (vs : List ℕ)
    → All (λ v. v < 2 ^ 32) vs
    → (ps : List (ℕ × ℕ)) × All FitsPacked ps × (map packed ps ≡ vs)
unpacked [] h = ([], tt, refl)
unpacked (v ∷ vs) (h, hs) =
    let (ps, fit, e) = unpacked vs hs in
    let same : v % 2 ^ 20 + v / 2 ^ 20 * 2 ^ 20 ≡ v = omega arith in
    ((v % 2 ^ 20, v / 2 ^ 20) ∷ ps, ((omega arith, omega arith), fit), rw same (ap (λ t. v ∷ t) e))

module _ {S : Type 0} (buffer : Buffer) where
  -- Asked for more than the range holds, a loop does what it does when it is asked for that.
  pub retrieve_32_bits-min :
      (callback : ℕ → S → S) (n position : ℕ) (s : S)
      → position ≤ length buffer
      → length buffer < 2 ^ 64
      → retrieve_32_bits callback buffer (length buffer) n position s
        ≡ retrieve_32_bits callback buffer
            (length buffer)
            (min n ((length buffer - position) / 4))
            position
            s
  retrieve_32_bits-min callback zero position s h small =
      let e : min zero ((length buffer - position) / 4) ≡ zero = omega arith in rw e
  retrieve_32_bits-min callback (suc n) position s h small =
      elim (dec_lt (length buffer) (position + 4)) [
        | yes few ↦
            let e : min (suc n) ((length buffer - position) / 4) ≡ zero = omega arith in
            rw
              (
                stop_32 buffer (length buffer) n position s callback
                    (too_few_left position (length buffer) h few small),
                e,
              )
              (unfold retrieve_32_bits in refl)
        | no enough ↦
            let (v, read) = (interpret_u32-Takes buffer).enough position (omega arith) in
            let test = enough_left 4 position (length buffer) (omega arith) small (omega arith) in
            let e : min (suc n) ((length buffer - position) / 4)
                ≡ suc (min n ((length buffer - (position + 4)) / 4)) =
              omega arith in
            step_32 buffer (length buffer) n position s callback test read
            ∙ retrieve_32_bits-min callback n (position + 4) (callback v s) (omega arith) small
            ∙ sym (step_32 buffer (length buffer) _ position s callback test read)
            ∙ ap (λ m. retrieve_32_bits callback buffer (length buffer) m position s) (sym e)
      ]

  pub retrieve_48_bits-few :
      (callback : ℕ → ℕ → S → S) (n position : ℕ) (s : S)
      → position ≤ length buffer
      → length buffer < 2 ^ 64
      → length buffer - position < n * 6
      → (length buffer - position) % 6 < 4
      → retrieve_48_bits callback buffer (length buffer) n position s
        ≡ retrieve_48_bits callback buffer
            (length buffer)
            ((length buffer - position) / 6)
            position
            s
  retrieve_48_bits-few callback zero position s h small few stop = absurd (omega arith)
  retrieve_48_bits-few callback (suc n) position s h small few stop =
      elim (dec_lt (length buffer) (position + 4)) [
        | yes none_left ↦
            let e : (length buffer - position) / 6 ≡ zero = omega arith in
            rw
              (
                stop_48 buffer (length buffer) n position s callback
                    (too_few_left position (length buffer) h none_left small),
                e,
              )
              (unfold retrieve_48_bits in refl)
        | no four ↦
            let (v, read) = (interpret_u32-Takes buffer).enough position (omega arith) in
            let (w, tail) = (interpret_u16-Takes buffer).enough (position + 4) (omega arith) in
            let test = enough_left 4 position (length buffer) (omega arith) small (omega arith) in
            let e : (length buffer - position) / 6
                ≡ suc ((length buffer - (position + 4 + 2)) / 6) =
              omega arith in
            step_48 buffer (length buffer) n position s callback test read tail
            ∙ retrieve_48_bits-few callback n (position + 4 + 2) (callback v w s) (omega arith)
                small (omega arith) (omega arith)
            ∙ sym (step_48 buffer (length buffer) _ position s callback test read tail)
            ∙ ap (λ m. retrieve_48_bits callback buffer (length buffer) m position s) (sym e)
      ]

-- ===== src/Packet/Payload.antt =====
-- The extraction loops of include/DataLink/DataLink.hpp: how far they read on any bytes, and what
-- they return on a payload that an encoder wrote.
pub mod Bounds
pub mod Decoded
pub mod Points
use r.Base.{
  ℕ, zero, suc, ◌+◌, ◌-◌, ◌*◌, ◌/◌, ◌%◌, ◌^◌, ◌≤◌, ◌<◌, ◌≡◌, refl, ◌∙◌, arith, List, [], ◌∷◌, ◌++◌,
  length, All, drop, Outcome, done, fault, ◌>>=◌, leb, true, false,
}
use r.Wire.{Buffer, interpret_u32, interpret_u16}
use r.Wire.Words.{le16, le32, interpret_u32-le32, interpret_u16-le16}
use r.Packet.{retrieve_32_bits, retrieve_48_bits, distance64}

abbrev pub encode32 : List ℕ → List ℕ → List ℕ
encode32 [] rest = rest
encode32 (v ∷ vs) rest = le32 v (encode32 vs rest)

abbrev pub encode48 : List (ℕ × ℕ) → List ℕ → List ℕ
encode48 [] rest = rest
encode48 ((v, w) ∷ vs) rest = le32 v (le16 w (encode48 vs rest))

-- `while` counts down the bytes in the range: the test passes with `k` bytes left.
pub enough_left :
    (k position end : ℕ)
    → position + k ≤ end
    → end < 2 ^ 64
    → 4 ≤ k
    → leb 4 (distance64 position end) ≡ true
enough_left k position end h small big =
    let d : distance64 position end ≡ end - position = omega arith in rw d (ground arith)

pub too_few_left :
    (position end : ℕ)
    → position ≤ end
    → end < position + 4
    → end < 2 ^ 64
    → leb 4 (distance64 position end) ≡ false
too_few_left position end a b small =
    let d : distance64 position end ≡ end - position = omega arith in rw d (ground arith)

-- One round of each loop.
module _ {S : Type 0} (buffer : Buffer) (end n position : ℕ) (s : S) where
  pub stop_32 :
      (callback : ℕ → S → S)
      → leb 4 (distance64 position end) ≡ false
      → retrieve_32_bits callback buffer end (suc n) position s ≡ done (position, s)
  unfolding retrieve_32_bits
  stop_32 callback test = rw (test, retrieve_32_bits)

  pub step_32 :
      (callback : ℕ → S → S) {v : ℕ}
      → leb 4 (distance64 position end) ≡ true
      → interpret_u32 buffer position ≡ done (v, position + 4)
      → retrieve_32_bits callback buffer end (suc n) position s
        ≡ retrieve_32_bits callback buffer end n (position + 4) (callback v s)
  unfolding retrieve_32_bits
  step_32 callback test read = rw (test, retrieve_32_bits) (rw read)

  pub stop_48 :
      (callback : ℕ → ℕ → S → S)
      → leb 4 (distance64 position end) ≡ false
      → retrieve_48_bits callback buffer end (suc n) position s ≡ done (position, s)
  unfolding retrieve_48_bits
  stop_48 callback test = rw (test, retrieve_48_bits)

  pub step_48 :
      (callback : ℕ → ℕ → S → S) {v w : ℕ}
      → leb 4 (distance64 position end) ≡ true
      → interpret_u32 buffer position ≡ done (v, position + 4)
      → interpret_u16 buffer (position + 4) ≡ done (w, position + 4 + 2)
      → retrieve_48_bits callback buffer end (suc n) position s
        ≡ retrieve_48_bits callback buffer end n (position + 4 + 2) (callback v w s)
  unfolding retrieve_48_bits
  step_48 callback test read tail = rw (test, retrieve_48_bits) (rw (read, tail))

  pub fault_48 :
      (callback : ℕ → ℕ → S → S) {v : ℕ}
      → leb 4 (distance64 position end) ≡ true
      → interpret_u32 buffer position ≡ done (v, position + 4)
      → interpret_u16 buffer (position + 4) ≡ fault
      → retrieve_48_bits callback buffer end (suc n) position s ≡ fault
  unfolding retrieve_48_bits
  fault_48 callback test read tail = rw (test, retrieve_48_bits) (rw (read, tail))

module _ {S : Type 0} where
  -- The callback over a list of integers, first to last.
  abbrev pub push_all {ℓ} : {A : Type ℓ} → (A → S → S) → List A → S → S
  push_all callback [] s = s
  push_all callback (v ∷ vs) s = push_all callback vs (callback v s)

  -- On a payload of `vs` the loop hands exactly `vs` to the callback, in order, and stops behind it.
  pub retrieve_32_bits-encode32 :
      (callback : ℕ → S → S) (buffer : Buffer) (end : ℕ) (vs : List ℕ) (position : ℕ) (s : S)
      (rest : List ℕ)
      → All (λ v. v < 2 ^ 32) vs
      → drop position buffer ≡ encode32 vs rest
      → position + 4 * length vs ≤ end
      → end < 2 ^ 64
      → retrieve_32_bits callback buffer end (length vs) position s
        ≡ done (position + 4 * length vs, push_all callback vs s)
  unfolding retrieve_32_bits
  retrieve_32_bits-encode32 callback buffer end [] position s rest fit e h small =
      let e' : position ≡ position + 4 * 0 = omega arith in rw (← e')
  retrieve_32_bits-encode32 callback buffer end (v ∷ vs) position s rest fit e h small =
      let (read, behind) = interpret_u32-le32 buffer position v fit.0 e in
      let more =
        retrieve_32_bits-encode32 callback buffer end vs (position + 4) (callback v s) rest fit.1
          behind (omega arith) small in
      let sum : position + 4 + 4 * length vs ≡ position + 4 * suc (length vs) = omega arith in
      rw
        (
          step_32 buffer end (length vs) position s callback
              (enough_left 4 position end (omega arith) small (omega arith)) read,
          ← sum,
        )
        more

  pub retrieve_48_bits-encode48 :
      (callback : ℕ → ℕ → S → S) (buffer : Buffer) (end : ℕ) (vs : List (ℕ × ℕ)) (position : ℕ)
      (s : S) (rest : List ℕ)
      → All (λ v. (v.0 < 2 ^ 32) × (v.1 < 2 ^ 16)) vs
      → drop position buffer ≡ encode48 vs rest
      → position + 6 * length vs ≤ end
      → end < 2 ^ 64
      → retrieve_48_bits callback buffer end (length vs) position s
        ≡ done (position + 6 * length vs, push_all (λ v. callback v.0 v.1) vs s)
  unfolding retrieve_48_bits
  retrieve_48_bits-encode48 callback buffer end [] position s rest fit e h small =
      let e' : position ≡ position + 6 * 0 = omega arith in rw (← e')
  retrieve_48_bits-encode48 callback buffer end ((v, w) ∷ vs) position s rest fit e h small =
      let (read, mid) = interpret_u32-le32 buffer position v fit.0.0 e in
      let (read', behind) = interpret_u16-le16 buffer (position + 4) w fit.0.1 mid in
      let more =
        retrieve_48_bits-encode48 callback buffer end vs (position + 4 + 2) (callback v w s) rest
          fit.1 behind (omega arith) small in
      let sum : position + 4 + 2 + 6 * length vs ≡ position + 6 * suc (length vs) = omega arith in
      rw
        (
          step_48 buffer end (length vs) position s callback
              (enough_left 6 position end (omega arith) small (omega arith)) read read',
          ← sum,
        )
        more

module _ {S : Type 0} where
  -- No integers asked for, none read.
  pub none_32 :
      (callback : ℕ → S → S) (buffer : Buffer) (end position : ℕ) (s : S)
      → retrieve_32_bits callback buffer end 0 position s ≡ done (position, s)
  unfolding retrieve_32_bits
  none_32 callback buffer end position s = refl

  pub none_48 :
      (callback : ℕ → ℕ → S → S) (buffer : Buffer) (end position : ℕ) (s : S)
      → retrieve_48_bits callback buffer end 0 position s ≡ done (position, s)
  unfolding retrieve_48_bits
  none_48 callback buffer end position s = refl

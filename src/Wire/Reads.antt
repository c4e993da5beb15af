-- ===== src/Wire/Reads.antt =====
-- How many bytes the readers of include/DataLink/Data.hpp need: with that many in the buffer they
-- return, and with fewer they read out of range.
use r.Base.{ℕ, ◌+◌, ◌≤◌, ◌<◌, ◌≡◌, refl, arith, length, get_elem?, inl, inr, Option-cases}
use r.Base.{Outcome, done, fault, ◌>>=◌, get_elem?-some, get_elem?-none}
use r.Wire.{
  Buffer, ℤ, byte_at, from_byte_range, interpret_u16, interpret_u32, interpret_u64, interpret_i32,
  wire_size,
}
use native.Mathlib.Decide.{dec_lt}

-- `read` wants `n` bytes from its position on.
pub record Needs {ℓ} {A : Type ℓ} (buffer : Buffer) (n : ℕ) (read : ℕ → Outcome A) : Type ℓ where
  pub enough : (p : ℕ) → p + n ≤ length buffer → (a : A) × (read p ≡ done a)
  pub short : (p : ℕ) → length buffer < p + n → read p ≡ fault

-- The same of a reader that also returns the position behind what it read.
pub record Takes {ℓ} {A : Type ℓ} (buffer : Buffer) (n : ℕ) (read : ℕ → Outcome (A × ℕ))
    : Type ℓ where
  pub enough : (p : ℕ) → p + n ≤ length buffer → (a : A) × (read p ≡ done (a, p + n))
  pub short : (p : ℕ) → length buffer < p + n → read p ≡ fault

-- A byte in range is read, and the rest goes on; a read that never returns is a fault.
byte_then {ℓ κ} :
    {B : Type ℓ} (P : Outcome B → Type κ) (buffer : Buffer) (i : ℕ) (f : ℕ → Outcome B)
    → i < length buffer
    → ((b : ℕ) → P (f b))
    → P (byte_at buffer i >>= f)
byte_then P buffer i f h rest = let (b, e) = get_elem?-some buffer i h in rw e (rest b)

byte_or_fault {ℓ} :
    {B : Type ℓ} (buffer : Buffer) (i : ℕ) (f : ℕ → Outcome B)
    → ((b : ℕ) → f b ≡ fault)
    → (byte_at buffer i >>= f) ≡ fault
byte_or_fault buffer i f rest = elim (Option-cases (get_elem? buffer i)) [
  | inl e ↦ rw e
  | inr (b, e) ↦ rw e (rest b)
]

byte_past {ℓ} :
    {B : Type ℓ} (buffer : Buffer) (i : ℕ) (f : ℕ → Outcome B)
    → length buffer ≤ i
    → (byte_at buffer i >>= f) ≡ fault
byte_past buffer i f h = rw (get_elem?-none buffer i h)

module _ {ℓ κ} {A : Type ℓ} {B : Type κ} (buffer : Buffer) (n k : ℕ) where
  pub Takes-then :
      {m : ℕ → Outcome (A × ℕ)} {f : A → ℕ → Outcome B}
      → Takes buffer n m
      → ((a : A) → Needs buffer k (f a))
      → Needs buffer (n + k) (λ p. m p >>= λ t. f t.0 t.1)
  Takes-then {m} {f} t rest = record {
    enough = λ p h.
        let (a, e) = t.enough p (omega arith) in
        let (b, e') = (rest a).enough (p + n) (omega arith) in (b, rw e e');
    short = λ p h. elim (dec_lt (length buffer) (p + n)) [
      | yes out ↦ rw (t.short p out)
      | no fits ↦
          let (a, e) = t.enough p (omega arith) in rw e ((rest a).short (p + n) (omega arith))
    ];
  }

module _ (buffer : Buffer) where
  pub interpret_u16-Takes : Takes buffer 2 (interpret_u16 buffer)
  unfolding interpret_u16
  interpret_u16-Takes = record {
    enough = λ p h.
        let P = λ (r : Outcome (ℕ × ℕ)). (a : ℕ) × (r ≡ done (a, p + 2)) in
        byte_then P buffer p _ (omega arith)
          λ b0. byte_then P buffer (p + 1) _ (omega arith) λ b1. (_, refl);
    short = λ p h. byte_or_fault buffer p _ λ b0. byte_past buffer (p + 1) _ (omega arith);
  }

  pub interpret_u32-Takes : Takes buffer 4 (interpret_u32 buffer)
  unfolding interpret_u32
  interpret_u32-Takes = record {
    enough = λ p h.
        let P = λ (r : Outcome (ℕ × ℕ)). (a : ℕ) × (r ≡ done (a, p + 4)) in
        byte_then P buffer p _ (omega arith) λ b0. byte_then P buffer (p + 1) _ (omega arith) λ b1.
          byte_then P buffer (p + 2) _ (omega arith)
            λ b2. byte_then P buffer (p + 3) _ (omega arith) λ b3. (_, refl);
    short = λ p h. byte_or_fault buffer p _ λ b0.
        byte_or_fault buffer (p + 1) _
          λ b1. byte_or_fault buffer (p + 2) _ λ b2. byte_past buffer (p + 3) _ (omega arith);
  }

  pub interpret_i32-Takes : Takes buffer 4 (interpret_i32 buffer)
  unfolding interpret_i32
  interpret_i32-Takes = record {
    enough = λ p h.
        let P = λ (r : Outcome (ℤ × ℕ)). (a : ℤ) × (r ≡ done (a, p + 4)) in
        byte_then P buffer p _ (omega arith) λ b0. byte_then P buffer (p + 1) _ (omega arith) λ b1.
          byte_then P buffer (p + 2) _ (omega arith)
            λ b2. byte_then P buffer (p + 3) _ (omega arith) λ b3. (_, refl);
    short = λ p h. byte_or_fault buffer p _ λ b0.
        byte_or_fault buffer (p + 1) _
          λ b1. byte_or_fault buffer (p + 2) _ λ b2. byte_past buffer (p + 3) _ (omega arith);
  }

  pub interpret_u64-Takes : Takes buffer 8 (interpret_u64 buffer)
  unfolding interpret_u64
  interpret_u64-Takes = record {
    enough = λ p h.
        let P = λ (r : Outcome (ℕ × ℕ)). (a : ℕ) × (r ≡ done (a, p + 8)) in
        byte_then P buffer p _ (omega arith) λ b0. byte_then P buffer (p + 1) _ (omega arith) λ b1.
          byte_then P buffer (p + 2) _ (omega arith) λ b2.
            byte_then P buffer (p + 3) _ (omega arith) λ b3.
              byte_then P buffer (p + 4) _ (omega arith) λ b4.
                byte_then P buffer (p + 5) _ (omega arith) λ b5.
                  byte_then P buffer (p + 6) _ (omega arith)
                    λ b6. byte_then P buffer (p + 7) _ (omega arith) λ b7. (_, refl);
    short = λ p h. byte_or_fault buffer p _ λ b0. byte_or_fault buffer (p + 1) _ λ b1.
        byte_or_fault buffer (p + 2) _ λ b2. byte_or_fault buffer (p + 3) _ λ b3.
          byte_or_fault buffer (p + 4) _ λ b4.
            byte_or_fault buffer (p + 5) _
              λ b5. byte_or_fault buffer (p + 6) _ λ b6. byte_past buffer (p + 7) _ (omega arith);
  }

  -- The last field is read with its position left where it is.
  last_field {ℓ} :
      {B : Type ℓ} (f : ℕ → B) → Needs buffer 8 (λ p. interpret_u64 buffer p >>= λ t. done (f t.0))
  last_field f = record {
    enough = λ p h. let (a, e) = interpret_u64-Takes.enough p h in (f a, rw e);
    short = λ p h. rw (interpret_u64-Takes.short p h);
  }

  -- `fromByteRange` returns a header exactly when the 76 bytes of the wire format are in the
  -- buffer behind its position; with fewer it reads out of range.
  pub from_byte_range-Needs : Needs buffer wire_size (from_byte_range buffer)
  unfolding from_byte_range
  from_byte_range-Needs = Takes-then buffer 2 74 interpret_u16-Takes λ a1.
      Takes-then buffer 2 72 interpret_u16-Takes λ a2.
        Takes-then buffer 4 68 interpret_u32-Takes λ a3.
          Takes-then buffer 2 66 interpret_u16-Takes λ a4.
            Takes-then buffer 2 64 interpret_u16-Takes λ a5.
              Takes-then buffer 2 62 interpret_u16-Takes λ a6.
                Takes-then buffer 8 54 interpret_u64-Takes λ a7.
                  Takes-then buffer 8 46 interpret_u64-Takes λ a8.
                    Takes-then buffer 4 42 interpret_u32-Takes λ a9.
                      Takes-then buffer 4 38 interpret_u32-Takes λ a10.
                        Takes-then buffer 2 36 interpret_u16-Takes λ a11.
                          Takes-then buffer 2 34 interpret_u16-Takes λ a12.
                            Takes-then buffer 2 32 interpret_u16-Takes λ a13.
                              Takes-then buffer 4 28 interpret_i32-Takes λ a14.
                                Takes-then buffer 4 24 interpret_i32-Takes λ a15.
                                  Takes-then buffer 4 20 interpret_u32-Takes λ a16.
                                    Takes-then buffer 4 16 interpret_u32-Takes λ a17.
                                      Takes-then buffer 8 8 interpret_u64-Takes λ a18. last_field _

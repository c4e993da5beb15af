-- ===== src/Wire/Words.antt =====
-- The little-endian readers of include/DataLink/Data.hpp against the bytes that encode a number.
use r.Base.{ℕ, ◌+◌, ◌-◌, ◌*◌, ◌/◌, ◌%◌, ◌^◌, ◌<◌, bit_or, ◌≡◌, arith}
use r.Base.{List, ◌∷◌, drop, get_elem?-drop, drop-add, get_elem?-add}
use r.Base.{done}
use r.Base.Bits.{bit_or_join}
use r.Wire.{
  Buffer, ℤ, pos, negsuc, interpret_u16, interpret_u32, interpret_u64, interpret_i32, signed32, shl,
}

-- Byte `i` of a number.
abbrev pub octet : ℕ → ℕ → ℕ
octet i v = v / 2 ^ (8 * i) % 2 ^ 8

abbrev pub le16 : ℕ → List ℕ → List ℕ
le16 v rest = octet 0 v ∷ octet 1 v ∷ rest

abbrev pub le32 : ℕ → List ℕ → List ℕ
le32 v rest = octet 0 v ∷ octet 1 v ∷ octet 2 v ∷ octet 3 v ∷ rest

abbrev pub le64 : ℕ → List ℕ → List ℕ
le64 v rest = le32 v (octet 4 v ∷ octet 5 v ∷ octet 6 v ∷ octet 7 v ∷ rest)

-- The sums that the readers build, on any bytes.
pub join16 : (b0 b1 : ℕ) → b0 < 2 ^ 8 → b1 < 2 ^ 8 → bit_or b0 (shl 16 b1 8) ≡ b0 + b1 * 2 ^ 8
join16 b0 b1 h0 h1 = ground (arith, bit_or_join 8 b0 b1)

abbrev pub sum32 : ℕ → ℕ → ℕ → ℕ → ℕ
sum32 b0 b1 b2 b3 = b0 + b1 * 2 ^ 8 + b2 * 2 ^ 16 + b3 * 2 ^ 24

pub join32 :
    (b0 b1 b2 b3 : ℕ)
    → b0 < 2 ^ 8
    → b1 < 2 ^ 8
    → b2 < 2 ^ 8
    → b3 < 2 ^ 8
    → bit_or (bit_or (bit_or b0 (shl 32 b1 8)) (shl 32 b2 16)) (shl 32 b3 24) ≡ sum32 b0 b1 b2 b3
join32 b0 b1 b2 b3 h0 h1 h2 h3 = ground (
  arith,
  bit_or_join 8 b0 b1,
  bit_or_join 16 (b0 + b1 * 2 ^ 8) b2,
  bit_or_join 24 (b0 + b1 * 2 ^ 8 + b2 * 2 ^ 16) b3,
)

abbrev pub sum64 : ℕ → ℕ → ℕ → ℕ → ℕ → ℕ
sum64 low b4 b5 b6 b7 = low + b4 * 2 ^ 32 + b5 * 2 ^ 40 + b6 * 2 ^ 48 + b7 * 2 ^ 56

join64_low :
    (b0 b1 b2 b3 : ℕ)
    → b0 < 2 ^ 8
    → b1 < 2 ^ 8
    → b2 < 2 ^ 8
    → b3 < 2 ^ 8
    → bit_or (bit_or (bit_or b0 (shl 64 b1 8)) (shl 64 b2 16)) (shl 64 b3 24) ≡ sum32 b0 b1 b2 b3
join64_low b0 b1 b2 b3 h0 h1 h2 h3 = ground (
  arith,
  bit_or_join 8 b0 b1,
  bit_or_join 16 (b0 + b1 * 2 ^ 8) b2,
  bit_or_join 24 (b0 + b1 * 2 ^ 8 + b2 * 2 ^ 16) b3,
)

join64_high :
    (low b4 b5 b6 b7 : ℕ)
    → low < 2 ^ 32
    → b4 < 2 ^ 8
    → b5 < 2 ^ 8
    → b6 < 2 ^ 8
    → b7 < 2 ^ 8
    → bit_or
        (bit_or (bit_or (bit_or low (shl 64 b4 32)) (shl 64 b5 40)) (shl 64 b6 48))
        (shl 64 b7 56)
      ≡ sum64 low b4 b5 b6 b7
join64_high low b4 b5 b6 b7 hl h4 h5 h6 h7 = ground (
  arith,
  bit_or_join 32 low b4,
  bit_or_join 40 (low + b4 * 2 ^ 32) b5,
  bit_or_join 48 (low + b4 * 2 ^ 32 + b5 * 2 ^ 40) b6,
  bit_or_join 56 (low + b4 * 2 ^ 32 + b5 * 2 ^ 40 + b6 * 2 ^ 48) b7,
)

octets32 : (v : ℕ) → v < 2 ^ 32 → sum32 (octet 0 v) (octet 1 v) (octet 2 v) (octet 3 v) ≡ v
octets32 v h = omega arith

octets64 :
    (v : ℕ)
    → v < 2 ^ 64
    → sum64
        (sum32 (octet 0 v) (octet 1 v) (octet 2 v) (octet 3 v))
        (octet 4 v)
        (octet 5 v)
        (octet 6 v)
        (octet 7 v)
      ≡ v
octets64 v h = omega arith

module _ (buffer : Buffer) (p v : ℕ) {rest : List ℕ} where
  -- A reader returns the number whose bytes stand at its position, and steps over them.
  pub interpret_u16-le16 :
      v < 2 ^ 16
      → drop p buffer ≡ le16 v rest
      → (interpret_u16 buffer p ≡ done (v, p + 2)) × (drop (p + 2) buffer ≡ rest)
  unfolding interpret_u16
  interpret_u16-le16 h e = (
    rw (get_elem?-drop p buffer e, get_elem?-add p 1 buffer, e)
        (ground (arith, join16 (octet 0 v) (octet 1 v))),
    rw (drop-add p 2 buffer, e),
  )

  pub interpret_u32-le32 :
      v < 2 ^ 32
      → drop p buffer ≡ le32 v rest
      → (interpret_u32 buffer p ≡ done (v, p + 4)) × (drop (p + 4) buffer ≡ rest)
  unfolding interpret_u32
  interpret_u32-le32 h e = (
    rw (
      get_elem?-drop p buffer e,
      get_elem?-add p 1 buffer,
      get_elem?-add p 2 buffer,
      get_elem?-add p 3 buffer,
      e,
      join32 (octet 0 v) (octet 1 v) (octet 2 v) (octet 3 v) (omega arith) (omega arith)
          (omega arith) (omega arith),
      octets32 v h,
    ),
    rw (drop-add p 4 buffer, e),
  )

  pub interpret_u64-le64 :
      v < 2 ^ 64
      → drop p buffer ≡ le64 v rest
      → (interpret_u64 buffer p ≡ done (v, p + 8)) × (drop (p + 8) buffer ≡ rest)
  unfolding interpret_u64
  interpret_u64-le64 h e = (
    rw (
      get_elem?-drop p buffer e,
      get_elem?-add p 1 buffer,
      get_elem?-add p 2 buffer,
      get_elem?-add p 3 buffer,
      get_elem?-add p 4 buffer,
      get_elem?-add p 5 buffer,
      get_elem?-add p 6 buffer,
      get_elem?-add p 7 buffer,
      e,
      join64_low (octet 0 v) (octet 1 v) (octet 2 v) (octet 3 v) (omega arith) (omega arith)
          (omega arith) (omega arith),
      join64_high (sum32 (octet 0 v) (octet 1 v) (octet 2 v) (octet 3 v)) (octet 4 v) (octet 5 v)
          (octet 6 v) (octet 7 v) (omega arith) (omega arith) (omega arith) (omega arith)
          (omega arith),
      octets64 v h,
    ),
    rw (drop-add p 8 buffer, e),
  )

-- The bit pattern of an int32_t.
unfoldable pub unsigned32 : ℤ → ℕ
unsigned32 (pos n) = n
unsigned32 (negsuc n) = 2 ^ 32 - 1 - n

abbrev pub IsInt32 : ℤ → Type 0
IsInt32 (pos n) = n < 2 ^ 31
IsInt32 (negsuc n) = n < 2 ^ 31

pub unsigned32-lt : (z : ℤ) → IsInt32 z → unsigned32 z < 2 ^ 32
unfolding unsigned32
unsigned32-lt (pos n) h = omega arith
unsigned32-lt (negsuc n) h = omega arith

pub signed32-unsigned32 : (z : ℤ) → IsInt32 z → signed32 (unsigned32 z) ≡ z
unfolding unsigned32
signed32-unsigned32 (pos n) h = ground arith
signed32-unsigned32 (negsuc n) h = ground arith

pub interpret_i32-le32 :
    (buffer : Buffer) (p : ℕ) (z : ℤ) {rest : List ℕ}
    → IsInt32 z
    → drop p buffer ≡ le32 (unsigned32 z) rest
    → (interpret_i32 buffer p ≡ done (z, p + 4)) × (drop (p + 4) buffer ≡ rest)
unfolding interpret_i32
interpret_i32-le32 buffer p z h e =
    let v = unsigned32 z in
    (
      rw (
        get_elem?-drop p buffer e,
        get_elem?-add p 1 buffer,
        get_elem?-add p 2 buffer,
        get_elem?-add p 3 buffer,
        e,
        join32 (octet 0 v) (octet 1 v) (octet 2 v) (octet 3 v) (omega arith) (omega arith)
            (omega arith) (omega arith),
        octets32 v (unsigned32-lt z h),
        signed32-unsigned32 z h,
      ),
      rw (drop-add p 4 buffer, e),
    )

-- ===== src/Packet.antt =====
-- include/DataLink/DataLink.hpp, namespace internals: the search for the magic bytes and the header
-- of a packet, and the extraction of the points of a payload. Positions count from the front of the
-- buffer; `end` is the position behind the range.
pub mod Magic
pub mod HeaderSearch
pub mod Zeros
pub mod Payload
use r.Base.{
  ℕ, zero, suc, ◌+◌, ◌-◌, ◌*◌, ◌/◌, ◌%◌, ◌^◌, bit_or, bit_and, Bool, true, false, Option, none,
  some, List, [], ◌∷◌, ◌++◌, Outcome, done, threw, runtime_error, ◌>>=◌, ltb, leb, ◌==◌,
  if◌then◌else◌,
}
use r.Wire.{Buffer, Header, byte_at, from_byte_range, interpret_u16, interpret_u32, sizeof_header}

abbrev pub packet_magic_start : ℕ
packet_magic_start = 0xa25c

-- The loop with `n` positions left before the last byte.
pub magic_loop : ℕ → Buffer → ℕ → Outcome (Option ℕ)
magic_loop zero buffer position = done none
magic_loop (suc n) buffer position = do
  b0 ← byte_at buffer position
  b1 ← byte_at buffer (position + 1)
  let rest = magic_loop n buffer (position + 1)
  if bit_or b0 (b1 * 2 ^ 8) == packet_magic_start then done (some position) else rest

-- `std::prev(end, 1)` is the last position that is not looked at; the range is not empty.
pub retrieve_packet_magic : Buffer → ℕ → ℕ → Outcome (Option ℕ)
unfolding magic_loop
retrieve_packet_magic buffer begin end = magic_loop (end - 1 - begin) buffer begin

read_header : Buffer → Option ℕ → Outcome (Option (ℕ × Header))
read_header buffer none = done none
read_header buffer (some header_start) = do
  header ← from_byte_range buffer header_start
  done (some (header_start, header))

pub retrieve_packet_header : Buffer → ℕ → ℕ → Outcome (Option (ℕ × Header))
unfolding retrieve_packet_magic read_header
retrieve_packet_header buffer begin end =
    let number_of_bytes = (end - begin) % 2 ^ 32 in
    let search = (do magic ← retrieve_packet_magic buffer begin end; read_header buffer magic) in
    if ltb number_of_bytes sizeof_header then done none else search

-- `(long unsigned int) std::distance(position, end)`, which wraps when the position is past the end.
abbrev pub distance64 : ℕ → ℕ → ℕ
distance64 position end = (end + 2 ^ 64 - position) % 2 ^ 64

module _ {S : Type 0} where
  -- The recursion counts the integers that are still to be extracted.
  pub retrieve_32_bits : (ℕ → S → S) → Buffer → ℕ → ℕ → ℕ → S → Outcome (ℕ × S)
  retrieve_32_bits callback buffer end zero position s = done (position, s)
  retrieve_32_bits callback buffer end (suc n) position s = elim (leb 4 (distance64 position end)) [
    | true ↦ interpret_u32 buffer position >>= λ read.
        retrieve_32_bits callback buffer end n read.1 (callback read.0 s)
    | false ↦ done (position, s)
  ]

  pub retrieve_48_bits : (ℕ → ℕ → S → S) → Buffer → ℕ → ℕ → ℕ → S → Outcome (ℕ × S)
  retrieve_48_bits callback buffer end zero position s = done (position, s)
  retrieve_48_bits callback buffer end (suc n) position s = elim (leb 4 (distance64 position end)) [
    | true ↦ interpret_u32 buffer position >>= λ read. interpret_u16 buffer read.1 >>= λ tail.
        retrieve_48_bits callback buffer end n tail.1 (callback read.0 tail.0 s)
    | false ↦ done (position, s)
  ]

-- The two output vectors.
pub record Points : Type 0 where
  pub distances : List ℕ
  pub amplitudes : List ℕ

unfoldable pub push_point : ℕ → ℕ → Points → Points
push_point distance amplitude s = record {
  distances = s.distances ++ distance ∷ [];
  amplitudes = s.amplitudes ++ amplitude ∷ [];
}

-- `numeric_limits<uint32_t>::quiet_NaN()`: an integer type has no NaN, and the value is 0.
abbrev pub quiet_nan : ℕ
quiet_nan = 0

unfoldable pub point_a : ℕ → Points → Points
unfolding push_point
point_a distance = push_point (if distance == 0xFFFFFFFF then quiet_nan else distance) 0

unfoldable pub point_b : ℕ → ℕ → Points → Points
unfolding push_point
point_b distance amplitude =
    push_point (if distance == 0xFFFFFFFF then quiet_nan else distance) amplitude

unfoldable pub point_c : ℕ → Points → Points
unfolding push_point
point_c point =
    let distance = bit_and point 0x000FFFFF in
    let amplitude = bit_and point 0xFFF00000 / 2 ^ 20 in
    push_point (if distance == 0xFFFFF then quiet_nan else distance) amplitude

abbrev pub packet_type_a : ℕ
packet_type_a = 0x0041

abbrev pub packet_type_b : ℕ
packet_type_b = 0x0042

abbrev pub packet_type_c : ℕ
packet_type_c = 0x0043

unfoldable pub retrieve_payload_a : Buffer → ℕ → ℕ → ℕ → Points → Outcome (ℕ × Points)
unfolding point_a
retrieve_payload_a buffer begin end number_of_points =
    retrieve_32_bits point_a buffer end number_of_points begin

unfoldable pub retrieve_payload_b : Buffer → ℕ → ℕ → ℕ → Points → Outcome (ℕ × Points)
unfolding point_b
retrieve_payload_b buffer begin end number_of_points =
    retrieve_48_bits point_b buffer end number_of_points begin

unfoldable pub retrieve_payload_c : Buffer → ℕ → ℕ → ℕ → Points → Outcome (ℕ × Points)
unfolding point_c
retrieve_payload_c buffer begin end number_of_points =
    retrieve_32_bits point_c buffer end number_of_points begin

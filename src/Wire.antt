-- ===== src/Wire.antt =====
-- include/DataLink/Data.hpp: little-endian integers in a byte range, and the packet header.
-- A byte range is a buffer with a position in it, both native numbers; a read at a position that
-- the buffer does not have is a `fault`. An integer of the header is the value of its bits.
pub mod Words
pub mod Layout
pub mod Reads
use r.Base.{ℕ, ◌+◌, ◌-◌, ◌*◌, ◌%◌, ◌^◌, ◌<◌, bit_or, ltb, if◌then◌else◌}
use r.Base.{List, get_elem?, Outcome, done, or_fault, ◌>>=◌}

abbrev pub Buffer : Type 0
Buffer = List ℕ

abbrev pub IsByte : ℕ → Type 0
IsByte b = b < 2 ^ 8

-- `*(position + offset)`.
abbrev pub byte_at : Buffer → ℕ → Outcome ℕ
byte_at buffer position = or_fault (get_elem? buffer position)

-- `uintW_t(byte) << k`.
abbrev pub shl : ℕ → ℕ → ℕ → ℕ
shl width byte k = byte * 2 ^ k % 2 ^ width

-- An int32_t is read as its bit pattern; `negsuc n` is -(n + 1).
pub data ℤ : Type 0 where
  pos : ℕ → ℤ
  negsuc : ℕ → ℤ

abbrev pub signed32 : ℕ → ℤ
signed32 w = if ltb w (2 ^ 31) then pos w else negsuc (2 ^ 32 - 1 - w)

-- With `Advance` the new position is returned beside the value.
unfoldable pub interpret_u16 : Buffer → ℕ → Outcome (ℕ × ℕ)
interpret_u16 buffer position = do
  b0 ← byte_at buffer position
  b1 ← byte_at buffer (position + 1)
  done (bit_or b0 (shl 16 b1 8), position + 2)

unfoldable pub interpret_u32 : Buffer → ℕ → Outcome (ℕ × ℕ)
interpret_u32 buffer position = do
  b0 ← byte_at buffer position
  b1 ← byte_at buffer (position + 1)
  b2 ← byte_at buffer (position + 2)
  b3 ← byte_at buffer (position + 3)
  done (bit_or (bit_or (bit_or b0 (shl 32 b1 8)) (shl 32 b2 16)) (shl 32 b3 24), position + 4)

unfoldable pub interpret_i32 : Buffer → ℕ → Outcome (ℤ × ℕ)
interpret_i32 buffer position = do
  b0 ← byte_at buffer position
  b1 ← byte_at buffer (position + 1)
  b2 ← byte_at buffer (position + 2)
  b3 ← byte_at buffer (position + 3)
  done (
    signed32 (bit_or (bit_or (bit_or b0 (shl 32 b1 8)) (shl 32 b2 16)) (shl 32 b3 24)),
    position + 4,
  )

unfoldable pub interpret_u64 : Buffer → ℕ → Outcome (ℕ × ℕ)
interpret_u64 buffer position = do
  b0 ← byte_at buffer position
  b1 ← byte_at buffer (position + 1)
  b2 ← byte_at buffer (position + 2)
  b3 ← byte_at buffer (position + 3)
  b4 ← byte_at buffer (position + 4)
  b5 ← byte_at buffer (position + 5)
  b6 ← byte_at buffer (position + 6)
  b7 ← byte_at buffer (position + 7)
  let low = bit_or (bit_or (bit_or b0 (shl 64 b1 8)) (shl 64 b2 16)) (shl 64 b3 24)
  let mid = bit_or (bit_or low (shl 64 b4 32)) (shl 64 b5 40)
  done (bit_or (bit_or mid (shl 64 b6 48)) (shl 64 b7 56), position + 8)

pub record Header : Type 0 where
  pub magic : ℕ
  pub packet_type : ℕ
  pub packet_size : ℕ
  pub header_size : ℕ
  pub scan_number : ℕ
  pub packet_number : ℕ
  pub timestamp_raw : ℕ
  pub timestamp_sync : ℕ
  pub status_flags : ℕ
  pub scan_frequency : ℕ
  pub num_points_scan : ℕ
  pub num_points_packet : ℕ
  pub first_index : ℕ
  pub first_angle : ℤ
  pub angular_increment : ℤ
  pub iq_input : ℕ
  pub iq_overload : ℕ
  pub iq_timestamp_raw : ℕ
  pub iq_timestamp_sync : ℕ

unfoldable pub from_byte_range : Buffer → ℕ → Outcome Header
from_byte_range buffer begin = do
  (magic, p1) ← interpret_u16 buffer begin
  (packet_type, p2) ← interpret_u16 buffer p1
  (packet_size, p3) ← interpret_u32 buffer p2
  (header_size, p4) ← interpret_u16 buffer p3
  (scan_number, p5) ← interpret_u16 buffer p4
  (packet_number, p6) ← interpret_u16 buffer p5
  (timestamp_raw, p7) ← interpret_u64 buffer p6
  (timestamp_sync, p8) ← interpret_u64 buffer p7
  (status_flags, p9) ← interpret_u32 buffer p8
  (scan_frequency, p10) ← interpret_u32 buffer p9
  (num_points_scan, p11) ← interpret_u16 buffer p10
  (num_points_packet, p12) ← interpret_u16 buffer p11
  (first_index, p13) ← interpret_u16 buffer p12
  (first_angle, p14) ← interpret_i32 buffer p13
  (angular_increment, p15) ← interpret_i32 buffer p14
  (iq_input, p16) ← interpret_u32 buffer p15
  (iq_overload, p17) ← interpret_u32 buffer p16
  (iq_timestamp_raw, p18) ← interpret_u64 buffer p17
  (iq_timestamp_sync, _) ← interpret_u64 buffer p18
  done (record {
    magic = magic;
    packet_type = packet_type;
    packet_size = packet_size;
    header_size = header_size;
    scan_number = scan_number;
    packet_number = packet_number;
    timestamp_raw = timestamp_raw;
    timestamp_sync = timestamp_sync;
    status_flags = status_flags;
    scan_frequency = scan_frequency;
    num_points_scan = num_points_scan;
    num_points_packet = num_points_packet;
    first_index = first_index;
    first_angle = first_angle;
    angular_increment = angular_increment;
    iq_input = iq_input;
    iq_overload = iq_overload;
    iq_timestamp_raw = iq_timestamp_raw;
    iq_timestamp_sync = iq_timestamp_sync;
  })

-- The bytes that the nineteen fields take, and `sizeof(Header)`, which counts the padding before
-- `timestampRaw` and `firstAngle` on a platform that aligns each field to its size.
abbrev pub wire_size : ℕ
wire_size = 76

abbrev pub sizeof_header : ℕ
sizeof_header = 80

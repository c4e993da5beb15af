-- ===== src/Wire/Layout.antt =====
-- The wire format of the header, written by an encoder, and the round trip through
-- `Header::fromByteRange` of include/DataLink/Data.hpp.
use r.Base.{ℕ, ◌^◌, ◌<◌, ◌≡◌, List, drop, done}
use r.Wire.{Buffer, Header, from_byte_range}
use r.Wire.Words.{
  le16, le32, le64, unsigned32, IsInt32, interpret_u16-le16, interpret_u32-le32, interpret_u64-le64,
  interpret_i32-le32,
}

-- Every field in the order of the wire format, in front of the bytes that follow.
abbrev pub encode_header : Header → List ℕ → List ℕ
encode_header h rest = le16 h.magic (
    le16 h.packet_type (
      le32 h.packet_size (
        le16 h.header_size (
          le16 h.scan_number (
            le16 h.packet_number (
              le64 h.timestamp_raw (
                le64 h.timestamp_sync (
                  le32 h.status_flags (
                    le32 h.scan_frequency (
                      le16 h.num_points_scan (
                        le16 h.num_points_packet (
                          le16 h.first_index (
                            le32 (unsigned32 h.first_angle) (
                              le32 (unsigned32 h.angular_increment) (
                                le32 h.iq_input (
                                  le32 h.iq_overload (
                                    le64 h.iq_timestamp_raw
                                      (le64 h.iq_timestamp_sync rest))))))))))))))))))

-- Each field fits its type.
pub record FitsWire (h : Header) : Type 0 where
  pub magic_fits : h.magic < 2 ^ 16
  pub packet_type_fits : h.packet_type < 2 ^ 16
  pub packet_size_fits : h.packet_size < 2 ^ 32
  pub header_size_fits : h.header_size < 2 ^ 16
  pub scan_number_fits : h.scan_number < 2 ^ 16
  pub packet_number_fits : h.packet_number < 2 ^ 16
  pub timestamp_raw_fits : h.timestamp_raw < 2 ^ 64
  pub timestamp_sync_fits : h.timestamp_sync < 2 ^ 64
  pub status_flags_fits : h.status_flags < 2 ^ 32
  pub scan_frequency_fits : h.scan_frequency < 2 ^ 32
  pub num_points_scan_fits : h.num_points_scan < 2 ^ 16
  pub num_points_packet_fits : h.num_points_packet < 2 ^ 16
  pub first_index_fits : h.first_index < 2 ^ 16
  pub first_angle_fits : IsInt32 h.first_angle
  pub angular_increment_fits : IsInt32 h.angular_increment
  pub iq_input_fits : h.iq_input < 2 ^ 32
  pub iq_overload_fits : h.iq_overload < 2 ^ 32
  pub iq_timestamp_raw_fits : h.iq_timestamp_raw < 2 ^ 64
  pub iq_timestamp_sync_fits : h.iq_timestamp_sync < 2 ^ 64

-- Wherever the encoding of a header stands in a buffer, with each field in the range of its type,
-- `fromByteRange` reads that header back, all nineteen fields of it.
pub from_byte_range-encode_header :
    (buffer : Buffer) (p : ℕ) (h : Header) {rest : List ℕ}
    → FitsWire h
    → drop p buffer ≡ encode_header h rest
    → from_byte_range buffer p ≡ done h
unfolding from_byte_range
from_byte_range-encode_header buffer p h f e =
    let (r1, d1) = interpret_u16-le16 buffer p h.magic f.magic_fits e in
    let (r2, d2) = interpret_u16-le16 buffer _ h.packet_type f.packet_type_fits d1 in
    let (r3, d3) = interpret_u32-le32 buffer _ h.packet_size f.packet_size_fits d2 in
    let (r4, d4) = interpret_u16-le16 buffer _ h.header_size f.header_size_fits d3 in
    let (r5, d5) = interpret_u16-le16 buffer _ h.scan_number f.scan_number_fits d4 in
    let (r6, d6) = interpret_u16-le16 buffer _ h.packet_number f.packet_number_fits d5 in
    let (r7, d7) = interpret_u64-le64 buffer _ h.timestamp_raw f.timestamp_raw_fits d6 in
    let (r8, d8) = interpret_u64-le64 buffer _ h.timestamp_sync f.timestamp_sync_fits d7 in
    let (r9, d9) = interpret_u32-le32 buffer _ h.status_flags f.status_flags_fits d8 in
    let (r10, d10) = interpret_u32-le32 buffer _ h.scan_frequency f.scan_frequency_fits d9 in
    let (r11, d11) = interpret_u16-le16 buffer _ h.num_points_scan f.num_points_scan_fits d10 in
    let (r12, d12) = interpret_u16-le16 buffer _ h.num_points_packet f.num_points_packet_fits d11 in
    let (r13, d13) = interpret_u16-le16 buffer _ h.first_index f.first_index_fits d12 in
    let (r14, d14) = interpret_i32-le32 buffer _ h.first_angle f.first_angle_fits d13 in
    let (r15, d15) = interpret_i32-le32 buffer _ h.angular_increment f.angular_increment_fits d14 in
    let (r16, d16) = interpret_u32-le32 buffer _ h.iq_input f.iq_input_fits d15 in
    let (r17, d17) = interpret_u32-le32 buffer _ h.iq_overload f.iq_overload_fits d16 in
    let (r18, d18) = interpret_u64-le64 buffer _ h.iq_timestamp_raw f.iq_timestamp_raw_fits d17 in
    let (r19, _) = interpret_u64-le64 buffer _ h.iq_timestamp_sync f.iq_timestamp_sync_fits d18 in
    rw (r1, r2, r3, r4, r5, r6, r7, r8, r9, r10, r11, r12, r13, r14, r15, r16, r17, r18, r19)

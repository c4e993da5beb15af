-- ===== src/Extract/Empty.antt =====
-- A packet of no bytes in `extractScanPacketFromByteRange` of include/DataLink/DataLink.hpp.
use r.Base.{
  ℕ, ◌+◌, ◌^◌, ◌≤◌, ◌<◌, ◌≡◌, ap₂, ◌∙◌, inl, inr, ◌⊎◌, arith, true, [], length, done, ltb-false,
}
use r.Wire.{Buffer, Header, from_byte_range, sizeof_header}
use r.Packet.{
  packet_type_a, packet_type_b, packet_type_c, retrieve_payload_a, retrieve_payload_b,
  retrieve_payload_c,
}
use r.Packet.Magic.{MagicAt}
use r.Packet.HeaderSearch.{retrieve_packet_header-front}
use r.Packet.Payload.{none_32, none_48}
use r.Scan.{ScanFactory}
use r.Extract.{
  extract_scan_packet, extract_found, payload_size, reset_for, retrieve_payload, no_points,
}

-- At the front of 80 bytes or more stands a header of the protocol that announces sizes of 0 and no
-- points.
pub record Stalls (buffer : Buffer) (begin : ℕ) (h : Header) : Type 0 where
  pub enough : begin + sizeof_header ≤ length buffer
  pub magic : MagicAt buffer begin
  pub reads : from_byte_range buffer begin ≡ done h
  pub known_type :
      (h.packet_type ≡ packet_type_a)
      ⊎ ((h.packet_type ≡ packet_type_b) ⊎ (h.packet_type ≡ packet_type_c))
  pub no_header : h.header_size ≡ 0
  pub no_payload : h.packet_size ≡ 0
  pub no_points_packet : h.num_points_packet ≡ 0

module _ (buffer : Buffer) (begin : ℕ) (h : Header) (s : Stalls buffer begin h) where
  no_points-retrieved :
      retrieve_payload h.packet_type buffer begin (length buffer) 0 ≡ done (begin, no_points)
  unfolding retrieve_payload retrieve_payload_a retrieve_payload_b retrieve_payload_c
  no_points-retrieved = elim s.known_type [
    | inl a ↦ rw a (none_32 _ buffer (length buffer) begin no_points)
    | inr (inl b) ↦ rw b (none_48 _ buffer (length buffer) begin no_points)
    | inr (inr c) ↦ rw c (none_32 _ buffer (length buffer) begin no_points)
  ]

  module _ {S : Type 0} (factory : ScanFactory S) (f : S) (small : length buffer < 2 ^ 32) where
    open factory use {add_packet}

    -- The packet is added to the factory, and the position stays where it is.
    pub extract_scan_packet-empty_packet :
        extract_scan_packet factory buffer begin (length buffer) f
        ≡ done (
          record { had_enough_bytes = true; position = begin; missing = 0 },
          add_packet h [] [] (reset_for factory h f),
        )
    unfolding extract_scan_packet extract_found
    extract_scan_packet-empty_packet =
        rw
          (retrieve_packet_header-front buffer begin (length buffer) h s.enough small s.magic
            s.reads)
          (rw (
            ltb-false (length buffer) (begin + h.header_size + payload_size h) no_size,
            payload_read,
          ))
      where
        no_size : begin + h.header_size + payload_size h ≤ length buffer
        no_size = omega (arith, s.no_header, s.no_payload, s.enough)

        payload_read :
            retrieve_payload h.packet_type buffer
              (begin + h.header_size)
              (length buffer)
              h.num_points_packet
            ≡ done (begin, no_points)
        payload_read =
            ap₂ (λ (q n : ℕ). retrieve_payload h.packet_type buffer q (length buffer) n)
              (omega (arith, s.no_header)) s.no_points_packet
            ∙ no_points-retrieved

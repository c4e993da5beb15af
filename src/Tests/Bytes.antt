-- ===== src/Tests/Bytes.antt =====
-- The theorems about bytes, headers, payloads and packets at concrete inputs.
use r.Base.{ℕ, ◌+◌, ◌≡◌, refl, arith, true, List, [], ◌∷◌, length, done, fault}
use r.Wire.{from_byte_range}
use r.Wire.Layout.{from_byte_range-encode_header}
use r.Packet.{retrieve_packet_header, retrieve_48_bits, point_b}
use r.Packet.HeaderSearch.{HeaderSearch, retrieve_packet_header-HeaderSearch}
use r.Packet.Payload.{encode48}
use r.Packet.Payload.Bounds.{retrieve_48_bits-overread}
use r.Scan.Tcp.{tcp_factory}
use r.Extract.{extract_scan_packet, reset_for, no_points}
use r.Extract.Whole.{points_of, extract_scan_packet-encode_packet}
use r.Extract.Cases.{Extracts, extract_scan_packet-Extracts}
use r.Tests.{
  padding, first_header, first_payload, second_packet, stream, no_scan, first_header-FitsWire,
  first_packet-Describes, stream_bytes,
}

extract_scan_packet-encode_packet_example :
    extract_scan_packet tcp_factory stream 2 (length stream) no_scan
    ≡ done (
      record { had_enough_bytes = true; position = 90; missing = 0 },
      tcp_factory.add_packet first_header
          (points_of first_payload).distances
          (points_of first_payload).amplitudes
          (reset_for tcp_factory first_header no_scan),
    )
extract_scan_packet-encode_packet_example =
    extract_scan_packet-encode_packet tcp_factory stream 2 no_scan first_header padding
      first_payload (second_packet (0x5c ∷ 0xa2 ∷ [])) first_packet-Describes
      (omega arith, (omega arith, tt)) refl (omega arith) (omega arith)

extract_scan_packet-Extracts_example :
    Extracts tcp_factory stream 0 no_scan
      (extract_scan_packet tcp_factory stream 0 (length stream) no_scan)
extract_scan_packet-Extracts_example =
    extract_scan_packet-Extracts tcp_factory stream 0 no_scan stream_bytes (omega arith)
      (omega arith)

from_byte_range-encode_header_example : from_byte_range stream 2 ≡ done first_header
from_byte_range-encode_header_example =
    from_byte_range-encode_header stream 2 first_header first_header-FitsWire refl

retrieve_packet_header-HeaderSearch_example :
    HeaderSearch stream 0 (length stream) (retrieve_packet_header stream 0 (length stream))
retrieve_packet_header-HeaderSearch_example =
    retrieve_packet_header-HeaderSearch stream 0 (length stream) stream_bytes (omega arith)
      (omega arith) (omega arith)

abbrev distances : List ℕ
distances = 5 ∷ 0xFFFFFFFF ∷ []

abbrev measures : List (ℕ × ℕ)
measures = (5, 6) ∷ (0xFFFFF, 100) ∷ []

abbrev count : ℕ → ℕ → ℕ
count v n = n + 1

retrieve_48_bits-overread_example :
    retrieve_48_bits point_b (encode48 measures (8 ∷ 8 ∷ 8 ∷ 8 ∷ [])) 16 3 0 no_points ≡ fault
retrieve_48_bits-overread_example =
    retrieve_48_bits-overread point_b (encode48 measures (8 ∷ 8 ∷ 8 ∷ 8 ∷ [])) 3 0 no_points
      (omega arith) (omega arith) (omega arith) (omega arith)

-- ===== src/Extract.antt =====
-- `DataLink::extractScanPacketFromByteRange` of include/DataLink/DataLink.hpp, over any factory.
pub mod Payloads
pub mod Cases
pub mod Whole
pub mod Empty
pub mod Rounds
pub mod OneScan
pub mod Zeros
use r.Base.{
  ℕ, ◌+◌, ◌-◌, ◌%◌, ◌^◌, Bool, true, false, not, ◌&&◌, ◌||◌, Option, none, some, [], Outcome, done,
  fault, threw, runtime_error, ◌>>=◌, ltb, ◌==◌, if◌then◌else◌,
}
use r.Wire.{Buffer, Header}
use r.Packet.{
  retrieve_packet_header, Points, retrieve_payload_a, retrieve_payload_b, retrieve_payload_c,
  packet_type_a, packet_type_b, packet_type_c,
}
use r.Scan.{ScanFactory, is_different_scan, is_new_scan}

-- The tuple of the source.
pub record Extraction : Type 0 where
  pub had_enough_bytes : Bool
  pub position : ℕ
  pub missing : ℕ

abbrev pub no_points : Points
no_points = record { distances = []; amplitudes = [] }

-- The switch on the packet type. Its default throws.
pub retrieve_payload : ℕ → Buffer → ℕ → ℕ → ℕ → Outcome (ℕ × Points)
retrieve_payload packet_type buffer payload_start end number_of_points =
    if packet_type == packet_type_a
    then retrieve_payload_a buffer payload_start end number_of_points no_points
    else if packet_type == packet_type_b
    then retrieve_payload_b buffer payload_start end number_of_points no_points
    else if packet_type == packet_type_c
    then retrieve_payload_c buffer payload_start end number_of_points no_points
    else threw runtime_error

-- `header.packetSize - headerSize`, an unsigned int.
abbrev pub payload_size : Header → ℕ
payload_size h = (h.packet_size + 2 ^ 32 - h.header_size) % 2 ^ 32

module _ {S : Type 0} (factory : ScanFactory S) where
  open factory use {factory_empty, clear, add_packet}

  -- A factory that holds another scan, or any packet when the first of a scan arrives, is emptied.
  unfoldable pub reset_for : Header → S → S
  unfolding is_different_scan is_new_scan
  reset_for header s =
      if not (factory_empty s)
        && (is_different_scan factory s header || is_new_scan factory s header)
      then clear s
      else s

  -- The signed test `payloadSize > numberOfBytesAvailable` reads `end < payloadStart + payloadSize`:
  -- the bytes available are `end - payloadStart`, which may be negative. The number of missing bytes
  -- is narrowed to an unsigned int.
  pub extract_found : Buffer → ℕ → S → ℕ × Header → Outcome (Extraction × S)
  unfolding reset_for retrieve_payload
  extract_found buffer end s (packet_start, header) =
      let payload_start = packet_start + header.header_size in
      let s' = reset_for header s in
      let extract = (do
        (payload_end, points) ←
            retrieve_payload header.packet_type buffer payload_start end header.num_points_packet
        done (
          record { had_enough_bytes = true; position = payload_end; missing = 0 },
          add_packet header points.distances points.amplitudes s',
        )) in
      if ltb end (payload_start + payload_size header)
      then done (
        record {
          had_enough_bytes = false;
          position = packet_start;
          missing = (payload_start + payload_size header - end) % 2 ^ 32;
        },
        s',
      )
      else extract

  pub extract_result : Buffer → ℕ → S → Option (ℕ × Header) → Outcome (Extraction × S)
  unfolding extract_found
  extract_result buffer end s none =
      done (record { had_enough_bytes = false; position = end; missing = 0 }, s)
  extract_result buffer end s (some found) = extract_found buffer end s found

  pub extract_scan_packet : Buffer → ℕ → ℕ → S → Outcome (Extraction × S)
  unfolding extract_result
  extract_scan_packet buffer begin end s = do
    result ← retrieve_packet_header buffer begin end
    extract_result buffer end s result

  -- The factory when an exception leaves `extractScanPacketFromByteRange`: it is thrown behind the test
  -- that empties the factory.
  unfoldable pub reset_left : S → Outcome (Option (ℕ × Header)) → S
  unfolding reset_for
  reset_left s (done none) = s
  reset_left s (done (some (packet_start, header))) = reset_for header s
  reset_left s fault = s
  reset_left s (threw e) = s

  unfoldable pub factory_left : Buffer → ℕ → ℕ → S → S
  unfolding reset_left
  factory_left buffer begin end s = reset_left s (retrieve_packet_header buffer begin end)

-- ===== src/Tests.antt =====
-- Concrete packets for the witnesses: two packets of type A that make up a scan of three points, one of
-- type B, and what a client hands to the theorems about them.
mod Bytes
mod Links
mod Scans
mod Threads
mod Watcher
mod Builders
mod Service
mod Requests
mod Controls
use r.Base.{
  ℕ, ◌+◌, ◌^◌, ◌<◌, ◌≡◌, refl, arith, Bool, true, false, List, [], ◌∷◌, ◌++◌, All, ltb, ltb→lt,
  ◌&&◌, Bool-cases, inl, inr,
}
use r.Wire.{Buffer, IsByte, Header, pos, negsuc}
use r.Wire.Layout.{encode_header, FitsWire}
use r.Scan.Tcp.{TcpScanFactory}
use r.Wire.Words.{unsigned32}
use r.Extract.Whole.{Payload, plain, wide, compact, Describes, encode_packet, FitsPayload}

abbrev pub header : ℕ → ℕ → ℕ → ℕ → Header
header packet_type packet_size packet_number points = record {
  magic = 0xa25c;
  packet_type = packet_type;
  packet_size = packet_size;
  header_size = 80;
  scan_number = 7;
  packet_number = packet_number;
  timestamp_raw = 1;
  timestamp_sync = 2;
  status_flags = 3;
  scan_frequency = 50000;
  num_points_scan = 3;
  num_points_packet = points;
  first_index = 0;
  first_angle = negsuc 1799999;
  angular_increment = pos 1000;
  iq_input = 0;
  iq_overload = 0;
  iq_timestamp_raw = 0;
  iq_timestamp_sync = 0;
}

abbrev pub padding : List ℕ
padding = 0 ∷ 0 ∷ 0 ∷ 0 ∷ []

abbrev pub first_header : Header
first_header = header 0x0041 88 1 2

abbrev pub second_header : Header
second_header = header 0x0041 84 2 1

-- A valid distance and an invalid one.
abbrev pub first_payload : Payload
first_payload = plain (1234 ∷ 0xFFFFFFFF ∷ [])

abbrev pub second_payload : Payload
second_payload = plain (77 ∷ [])

abbrev pub first_packet : List ℕ → List ℕ
first_packet rest = encode_packet first_header padding first_payload rest

abbrev pub second_packet : List ℕ → List ℕ
second_packet rest = encode_packet second_header padding second_payload rest

-- Two stray bytes, the two packets, and the start of a third.
abbrev pub stream : Buffer
stream = 9 ∷ 0x5c ∷ first_packet (second_packet (0x5c ∷ 0xa2 ∷ []))

abbrev pub no_scan : TcpScanFactory
no_scan = record { distances = []; amplitudes = []; headers = [] }

pub header-FitsWire :
    (packet_type packet_size packet_number points : ℕ)
    → packet_type < 2 ^ 16
    → packet_size < 2 ^ 32
    → packet_number < 2 ^ 16
    → points < 2 ^ 16
    → FitsWire (header packet_type packet_size packet_number points)
header-FitsWire packet_type packet_size packet_number points h₁ h₂ h₃ h₄ = record {
  magic_fits = omega arith;
  packet_type_fits = omega arith;
  packet_size_fits = omega arith;
  header_size_fits = omega arith;
  scan_number_fits = omega arith;
  packet_number_fits = omega arith;
  timestamp_raw_fits = omega arith;
  timestamp_sync_fits = omega arith;
  status_flags_fits = omega arith;
  scan_frequency_fits = omega arith;
  num_points_scan_fits = omega arith;
  num_points_packet_fits = omega arith;
  first_index_fits = omega arith;
  first_angle_fits = omega arith;
  angular_increment_fits = omega arith;
  iq_input_fits = omega arith;
  iq_overload_fits = omega arith;
  iq_timestamp_raw_fits = omega arith;
  iq_timestamp_sync_fits = omega arith;
}

pub first_header-FitsWire : FitsWire first_header
first_header-FitsWire =
    header-FitsWire 0x0041 88 1 2 (omega arith) (omega arith) (omega arith) (omega arith)

pub first_packet-Describes : Describes first_header padding first_payload
first_packet-Describes = record {
  fields = first_header-FitsWire;
  magic = refl;
  same_type = refl;
  header_length = refl;
  packet_length = refl;
  same_count = refl;
}

abbrev pub are_bytes : Buffer → Bool
are_bytes [] = true
are_bytes (b ∷ bs) = ltb b (2 ^ 8) && are_bytes bs

pub are_bytes-All : (buffer : Buffer) → are_bytes buffer ≡ true → All IsByte buffer
are_bytes-All [] h = tt
are_bytes-All (b ∷ bs) h = (ground arith, are_bytes-All bs (ground arith))

pub stream_bytes : All IsByte stream
unfolding unsigned32
stream_bytes = are_bytes-All stream refl

-- ===== src/Extract/Whole.antt =====
-- A packet that a device writes, through `extractScanPacketFromByteRange` of
-- include/DataLink/DataLink.hpp: header, padding up to the header size, and a payload of one of the
-- three types.
use r.Base.{
  ℕ, ◌+◌, ◌*◌, ◌^◌, ◌≤◌, ◌<◌, ◌≡◌, ◌∙◌, ap, arith, true, List, [], ◌∷◌, ◌++◌, map, length,
  length-append, All, drop, drop-add, drop-length_append, get_elem?-drop, get_elem?-add,
  length-drop, done, some, ltb-false,
}
use r.Wire.{Buffer, Header, wire_size, sizeof_header}
use r.Wire.Layout.{encode_header, FitsWire, from_byte_range-encode_header}
use r.Packet.{Points, packet_magic_start, packet_type_a, packet_type_b, packet_type_c}
use r.Packet.HeaderSearch.{retrieve_packet_header-front}
use r.Packet.Magic.{MagicAt}
use r.Packet.Payload.{encode32, encode48}
use r.Packet.Payload.Points.{
  measured, packed, FitsPacked, append_points, retrieve_payload_a-encode32,
  retrieve_payload_b-encode48, retrieve_payload_c-encode32, length-packed,
}
use r.Scan.{ScanFactory}
use r.Extract.{
  no_points, retrieve_payload, payload_size, reset_for, extract_found, extract_scan_packet,
}

-- Points as a device measures them: distances, or distances with amplitudes.
pub data Payload : Type 0 where
  plain : List ℕ → Payload
  wide : List (ℕ × ℕ) → Payload
  compact : List (ℕ × ℕ) → Payload

abbrev pub type_of : Payload → ℕ
type_of (plain vs) = packet_type_a
type_of (wide vs) = packet_type_b
type_of (compact vs) = packet_type_c

abbrev pub count_of : Payload → ℕ
count_of (plain vs) = length vs
count_of (wide vs) = length vs
count_of (compact vs) = length vs

abbrev pub size_of : Payload → ℕ
size_of (plain vs) = 4 * length vs
size_of (wide vs) = 6 * length vs
size_of (compact vs) = 4 * length vs

abbrev pub encode_payload : Payload → List ℕ → List ℕ
encode_payload (plain vs) rest = encode32 vs rest
encode_payload (wide vs) rest = encode48 vs rest
encode_payload (compact vs) rest = encode32 (map packed vs) rest

abbrev pub FitsPayload : Payload → Type 0
FitsPayload (plain vs) = All (λ v. v < 2 ^ 32) vs
FitsPayload (wide vs) = All (λ v. (v.0 < 2 ^ 32) × (v.1 < 2 ^ 16)) vs
FitsPayload (compact vs) = All FitsPacked vs

-- Invalid measures become 0, and type A has no amplitudes.
abbrev pub points_of : Payload → Points
points_of (plain vs) = append_points no_points (map (measured 0xFFFFFFFF) vs) (map (λ _. 0) vs)
points_of (wide vs) =
    append_points no_points (map (λ v. measured 0xFFFFFFFF v.0) vs) (map (λ v. v.1) vs)
points_of (compact vs) =
    append_points no_points (map (λ v. measured 0xFFFFF v.0) vs) (map (λ v. v.1) vs)

length-encode32 :
    (vs : List ℕ) (rest : List ℕ) → length (encode32 vs rest) ≡ 4 * length vs + length rest
length-encode32 [] rest = omega arith
length-encode32 (v ∷ vs) rest = omega (arith, length-encode32 vs rest)

length-encode48 :
    (vs : List (ℕ × ℕ)) (rest : List ℕ) → length (encode48 vs rest) ≡ 6 * length vs + length rest
length-encode48 [] rest = omega arith
length-encode48 (v ∷ vs) rest = omega (arith, length-encode48 vs rest)

pub length-encode_payload :
    (pl : Payload) (rest : List ℕ) → length (encode_payload pl rest) ≡ size_of pl + length rest
length-encode_payload (plain vs) rest = length-encode32 vs rest
length-encode_payload (wide vs) rest = length-encode48 vs rest
length-encode_payload (compact vs) rest =
    omega (arith, length-encode32 (map packed vs) rest, length-packed vs)

pub retrieve_payload-encode_payload :
    (buffer : Buffer) (begin : ℕ) (pl : Payload) (rest : List ℕ)
    → FitsPayload pl
    → drop begin buffer ≡ encode_payload pl rest
    → begin + size_of pl ≤ length buffer
    → length buffer < 2 ^ 64
    → retrieve_payload (type_of pl) buffer begin (length buffer) (count_of pl)
      ≡ done (begin + size_of pl, points_of pl)
unfolding retrieve_payload
retrieve_payload-encode_payload buffer begin (plain vs) rest fit e h small =
    retrieve_payload_a-encode32 buffer (length buffer) vs begin no_points rest fit e h small
retrieve_payload-encode_payload buffer begin (wide vs) rest fit e h small =
    retrieve_payload_b-encode48 buffer (length buffer) vs begin no_points rest fit e h small
retrieve_payload-encode_payload buffer begin (compact vs) rest fit e h small =
    retrieve_payload_c-encode32 buffer (length buffer) vs begin no_points rest fit e h small

-- The header announces this payload behind so much padding.
pub record Describes (h : Header) (padding : List ℕ) (pl : Payload) : Type 0 where
  pub fields : FitsWire h
  pub magic : h.magic ≡ packet_magic_start
  pub same_type : h.packet_type ≡ type_of pl
  pub header_length : h.header_size ≡ wire_size + length padding
  pub packet_length : h.packet_size ≡ h.header_size + size_of pl
  pub same_count : h.num_points_packet ≡ count_of pl

abbrev pub encode_packet : Header → List ℕ → Payload → List ℕ → List ℕ
encode_packet h padding pl rest = encode_header h (padding ++ encode_payload pl rest)

pub length-encode_packet :
    (h : Header) (padding : List ℕ) (pl : Payload) (rest : List ℕ)
    → Describes h padding pl
    → length (encode_packet h padding pl rest) ≡ h.packet_size + length rest
length-encode_packet h padding pl rest d = omega (
  arith,
  d.header_length,
  d.packet_length,
  length-append padding (encode_payload pl rest),
  length-encode_payload pl rest,
)

-- A packet whose bytes stand at `begin` in a buffer.
module _ (buffer : Buffer) (begin : ℕ) (h : Header) (padding : List ℕ) (pl : Payload)
    (rest : List ℕ) (d : Describes h padding pl)
    (e : drop begin buffer ≡ encode_packet h padding pl rest) where
  pub packet-MagicAt : MagicAt buffer begin
  packet-MagicAt = record {
    low_byte = get_elem?-drop begin buffer e ∙ ap some (omega (arith, d.magic));
    high_byte = get_elem?-add begin 1 buffer ∙ rw e (ap some (omega (arith, d.magic)));
  }

  pub packet_length : begin ≤ length buffer → length buffer ≡ begin + h.packet_size + length rest
  packet_length inside =
      omega (arith, length-drop begin buffer, ap length e, length-encode_packet h padding pl rest d)

  pub payload_size-size_of : payload_size h ≡ size_of pl
  payload_size-size_of =
      omega (arith, d.packet_length, d.fields.packet_size_fits, d.fields.header_size_fits)

  pub payload_behind : drop (begin + h.header_size) buffer ≡ encode_payload pl rest
  payload_behind =
      let whole = encode_packet h padding pl rest in
      drop-add begin h.header_size buffer
      ∙ ap (drop h.header_size) e
      ∙ ap (λ (n : ℕ). drop n whole) d.header_length
      ∙ drop-add 76 (length padding) whole
      ∙ drop-length_append padding (encode_payload pl rest)

module _ {S : Type 0} (factory : ScanFactory S) where
  open factory use {add_packet}

  packet_found :
      (buffer : Buffer) (begin : ℕ) (s : S) (h : Header) (padding : List ℕ) (pl : Payload)
      (rest : List ℕ)
      → Describes h padding pl
      → FitsPayload pl
      → drop begin buffer ≡ encode_packet h padding pl rest
      → begin ≤ length buffer
      → length buffer < 2 ^ 32
      → extract_found factory buffer (length buffer) s (begin, h)
        ≡ done (
          record {
            had_enough_bytes = true;
            position = begin + h.header_size + size_of pl;
            missing = 0;
          },
          add_packet h (points_of pl).distances (points_of pl).amplitudes (reset_for factory h s),
        )
  unfolding extract_found
  packet_found buffer begin s h padding pl rest d fit e inside small =
      let total = packet_length buffer begin h padding pl rest d e inside in
      let size = payload_size-size_of buffer begin h padding pl rest d e in
      rw (
        ltb-false (length buffer) (begin + h.header_size + payload_size h)
            (omega (arith, d.packet_length)),
        d.same_type,
        d.same_count,
        retrieve_payload-encode_payload buffer (begin + h.header_size) pl rest fit
            (payload_behind buffer begin h padding pl rest d e) (omega (arith, d.packet_length))
            (omega arith),
      )

  -- A well-formed packet at the front of the range is extracted whole: with the packet's bytes in a
  -- buffer of fewer than 2^32, and 80 bytes in the range at least, the factory is reset for its header
  -- and given exactly the points that the payload encodes, the position moves behind the packet, and
  -- no byte is missing.
  pub extract_scan_packet-encode_packet :
      (buffer : Buffer) (begin : ℕ) (s : S) (h : Header) (padding : List ℕ) (pl : Payload)
      (rest : List ℕ)
      → Describes h padding pl
      → FitsPayload pl
      → drop begin buffer ≡ encode_packet h padding pl rest
      → begin + sizeof_header ≤ length buffer
      → length buffer < 2 ^ 32
      → extract_scan_packet factory buffer begin (length buffer) s
        ≡ done (
          record { had_enough_bytes = true; position = begin + h.packet_size; missing = 0 },
          add_packet h (points_of pl).distances (points_of pl).amplitudes (reset_for factory h s),
        )
  unfolding extract_scan_packet
  extract_scan_packet-encode_packet buffer begin s h padding pl rest d fit e enough small =
      let size : begin + h.packet_size ≡ begin + h.header_size + size_of pl =
        omega (arith, d.packet_length) in
      rw
        (
          retrieve_packet_header-front buffer begin (length buffer) h (omega arith) (omega arith)
              (packet-MagicAt buffer begin h padding pl rest d e)
              (from_byte_range-encode_header buffer begin h d.fields e),
          size,
        )
        (packet_found buffer begin s h padding pl rest d fit e (omega arith) small)

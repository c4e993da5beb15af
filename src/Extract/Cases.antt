-- ===== src/Extract/Cases.antt =====
-- `extractScanPacketFromByteRange` of include/DataLink/DataLink.hpp on arbitrary bytes.
use r.Base.{
  ℕ, List, ◌+◌, ◌-◌, ◌*◌, ◌%◌, ◌^◌, ◌≤◌, ◌<◌, ◌≡◌, inl, inr, ◌⊎◌, ◌≢◌, arith, true, false, length,
  All, Outcome, done, fault, threw, runtime_error, lt→ltb, ltb-false,
}
use r.Wire.{Buffer, IsByte, Header, from_byte_range, wire_size, sizeof_header}
use r.Packet.{packet_type_a, packet_type_b, packet_type_c}
use r.Packet.Magic.{MagicAt}
use r.Packet.HeaderSearch.{
  too_short, no_magic, header_at, overread, retrieve_packet_header-HeaderSearch,
}
use r.Scan.{ScanFactory}
use r.Extract.{Extraction, payload_size, reset_for, extract_found, extract_scan_packet}
use r.Extract.Whole.{Payload, size_of, points_of}
use r.Extract.Payloads.{Holds, ends, past_end, unsupported, retrieve_payload-PayloadEnds}
use native.Mathlib.Decide.{dec_lt}

-- The header that an extraction goes by: the first magic of the range, with the wire format in the
-- buffer behind it.
pub record Found (buffer : Buffer) (begin p : ℕ) (h : Header) : Type 0 where
  pub behind : begin ≤ p
  pub enough : sizeof_header ≤ length buffer - begin
  pub inside : p + wire_size ≤ length buffer
  pub magic : MagicAt buffer p
  pub first : (q : ℕ) → begin ≤ q → q < p → ¬ MagicAt buffer q
  pub reads : from_byte_range buffer p ≡ done h

module _ {S : Type 0} (factory : ScanFactory S) (buffer : Buffer) (begin : ℕ) (s : S) where
  open factory use {add_packet}

  pub data Extracts (r : Outcome (Extraction × S)) : Type 0 where
    nothing :
        (length buffer - begin < sizeof_header)
          ⊎ ((sizeof_header ≤ length buffer - begin)
              × ((q : ℕ) → begin ≤ q → q + 1 < length buffer → ¬ MagicAt buffer q))
        → r ≡ done (record { had_enough_bytes = false; position = length buffer; missing = 0 }, s)
        → Extracts r
    partial :
        (p : ℕ) (h : Header)
        → Found buffer begin p h
        → length buffer < p + h.header_size + payload_size h
        → r
          ≡ done (
            record {
              had_enough_bytes = false;
              position = p;
              missing = (p + h.header_size + payload_size h - length buffer) % 2 ^ 32;
            },
            reset_for factory h s,
          )
        → Extracts r
    whole :
        (p : ℕ) (h : Header) (pl : Payload) (rest : List ℕ)
        → Found buffer begin p h
        → p + h.header_size + payload_size h ≤ length buffer
        → Holds buffer h.packet_type (p + h.header_size) h.num_points_packet pl rest
        → (h.packet_type ≡ packet_type_b
            → length buffer - (p + h.header_size) < h.num_points_packet * 6
            → (length buffer - (p + h.header_size)) % 6 < 4)
        → r
          ≡ done (
            record {
              had_enough_bytes = true;
              position = p + h.header_size + size_of pl;
              missing = 0;
            },
            add_packet h (points_of pl).distances (points_of pl).amplitudes (reset_for factory h s),
          )
        → Extracts r
    unsupported_type :
        (p : ℕ) (h : Header)
        → Found buffer begin p h
        → p + h.header_size + payload_size h ≤ length buffer
        → h.packet_type ≢ packet_type_a
        → h.packet_type ≢ packet_type_b
        → h.packet_type ≢ packet_type_c
        → r ≡ threw runtime_error
        → Extracts r
    header_overread :
        (p : ℕ)
        → sizeof_header ≤ length buffer - begin
        → begin ≤ p
        → p + 1 < length buffer
        → MagicAt buffer p
        → ((q : ℕ) → begin ≤ q → q < p → ¬ MagicAt buffer q)
        → length buffer < p + wire_size
        → r ≡ fault
        → Extracts r
    payload_overread :
        (p : ℕ) (h : Header)
        → Found buffer begin p h
        → p + h.header_size + payload_size h ≤ length buffer
        → h.packet_type ≡ packet_type_b
        → length buffer - (p + h.header_size) < h.num_points_packet * 6
        → 4 ≤ (length buffer - (p + h.header_size)) % 6
        → r ≡ fault
        → Extracts r

  extract_found-Extracts :
      (p : ℕ) (h : Header)
      → Found buffer begin p h
      → All IsByte buffer
      → length buffer < 2 ^ 32
      → Extracts (extract_found factory buffer (length buffer) s (p, h))
  unfolding extract_found
  extract_found-Extracts p h f bytes small =
      elim (dec_lt (length buffer) (p + h.header_size + payload_size h)) [
        | yes short ↦ partial p h f short (rw (lt→ltb _ _ short))
        | no fits ↦
            rw (ltb-false (length buffer) (p + h.header_size + payload_size h) (omega arith))
              (elim (retrieve_payload-PayloadEnds buffer bytes (p + h.header_size)
                h.num_points_packet (omega arith) small h.packet_type) [
                  | ends pl rest holds stops e ↦
                      whole p h pl rest f (omega arith) holds stops (rw e)
                  | past_end t few over e ↦ payload_overread p h f (omega arith) t few over (rw e)
                  | unsupported a b c e ↦ unsupported_type p h f (omega arith) a b c (rw e)
                ])
      ]

  -- On any bytes, in a buffer of fewer than 2^32, an extraction over the range up to the end of the
  -- buffer takes one of six ways. A range of fewer than 80 bytes, or without a magic, is to be dropped
  -- whole, and nothing else changes. Otherwise the first magic of the range decides. Where fewer than 76
  -- bytes follow it, they are read past the end of the buffer. Where the packet that the header announces
  -- is not all there, it is left in place with the count of missing bytes modulo 2^32, and the factory is
  -- only reset for it. Where it is all there, a type other than A, B and C throws; a type B payload with
  -- fewer whole points behind it than announced, and four or five bytes more, is read past the end of the
  -- buffer; any other is added to the reset factory with the points whose encoding stands behind the
  -- header, as many as are announced or as the buffer holds, and the position moves behind them.
  pub extract_scan_packet-Extracts :
      All IsByte buffer
      → begin ≤ length buffer
      → length buffer < 2 ^ 32
      → Extracts (extract_scan_packet factory buffer begin (length buffer) s)
  unfolding extract_scan_packet
  extract_scan_packet-Extracts bytes h small =
      elim (retrieve_packet_header-HeaderSearch buffer begin (length buffer) bytes h (omega arith)
        small) [
          | too_short few e ↦ nothing (inl few) (rw e)
          | no_magic wide e none_there ↦ nothing (inr (wide, none_there)) (rw e)
          | header_at p hd wide e a before b m first read ↦ rw e (
              extract_found-Extracts p hd
                (record {
                  behind = a;
                  enough = wide;
                  inside = b;
                  magic = m;
                  first = first;
                  reads = read;
                })
                bytes small)
          | overread p wide e a b past m first ↦ header_overread p wide a b m first past (rw e)
        ]

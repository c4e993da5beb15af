-- ===== src/Packet/HeaderSearch.antt =====
-- `retrievePacketHeader` of include/DataLink/DataLink.hpp, on every branch.
use r.Base.{
  ℕ, ◌+◌, ◌-◌, ◌%◌, ◌^◌, ◌≤◌, ◌<◌, ◌≡◌, arith, length, All, Option, none, some, Outcome, done,
  fault, ◌>>=◌, ltb-false, lt→ltb,
}
use r.Wire.{Buffer, IsByte, Header, from_byte_range, wire_size, sizeof_header}
use r.Wire.Reads.{from_byte_range-Needs}
use r.Packet.{retrieve_packet_header, read_header}
use r.Packet.Magic.{
  MagicAt, Search, found, missing, retrieve_packet_magic-Search, retrieve_packet_magic-front,
}
use native.Mathlib.Decide.{dec_lt}

-- What the header search does in a range of bytes. `overread` is the case in which the magic
-- stands so near the end of the buffer that the header is not all in it.
pub data HeaderSearch (buffer : Buffer) (begin end : ℕ) (result : Outcome (Option (ℕ × Header)))
    : Type 0 where
  too_short :
      end - begin < sizeof_header → result ≡ done none → HeaderSearch buffer begin end result
  no_magic :
      sizeof_header ≤ end - begin
      → result ≡ done none
      → ((q : ℕ) → begin ≤ q → q + 1 < end → ¬ MagicAt buffer q)
      → HeaderSearch buffer begin end result
  header_at :
      (p : ℕ) (h : Header)
      → sizeof_header ≤ end - begin
      → result ≡ done (some (p, h))
      → begin ≤ p
      → p + 1 < end
      → p + wire_size ≤ length buffer
      → MagicAt buffer p
      → ((q : ℕ) → begin ≤ q → q < p → ¬ MagicAt buffer q)
      → from_byte_range buffer p ≡ done h
      → HeaderSearch buffer begin end result
  overread :
      (p : ℕ)
      → sizeof_header ≤ end - begin
      → result ≡ fault
      → begin ≤ p
      → p + 1 < end
      → length buffer < p + wire_size
      → MagicAt buffer p
      → ((q : ℕ) → begin ≤ q → q < p → ¬ MagicAt buffer q)
      → HeaderSearch buffer begin end result

module _ (buffer : Buffer) (begin end : ℕ) where
  searched :
      (m : Outcome (Option ℕ))
      → sizeof_header ≤ end - begin
      → Search buffer begin (end - 1) m
      → HeaderSearch buffer begin end (m >>= read_header buffer)
  unfolding read_header
  searched m wide (missing e none_there) =
      no_magic wide (rw e) (λ q a b. none_there q a (omega arith))
  searched m wide (found p e a b magic first) = elim (dec_lt (length buffer) (p + wire_size)) [
    | yes past ↦
        overread p wide (rw (e, (from_byte_range-Needs buffer).short p past)) a (omega arith) past
          magic first
    | no inside ↦
        let (h, read) = (from_byte_range-Needs buffer).enough p (omega arith) in
        header_at p h wide (rw (e, read)) a (omega arith) (omega arith) magic first read
  ]

  pub retrieve_packet_header-few :
      end - begin < sizeof_header → retrieve_packet_header buffer begin end ≡ done none
  unfolding retrieve_packet_header
  retrieve_packet_header-few few = rw (lt→ltb ((end - begin) % 2 ^ 32) sizeof_header (omega arith))

  -- On any range of bytes in a buffer of less than 2^32 of them, the search for a header takes one
  -- of four ways. Fewer than 80 bytes give nothing. In a range of 80 bytes or more, no magic gives
  -- nothing; the first magic gives the header read there if the 76 bytes of the wire format are in the
  -- buffer; otherwise the read goes past the end of the buffer.
  pub retrieve_packet_header-HeaderSearch :
      All IsByte buffer
      → begin ≤ end
      → end ≤ length buffer
      → end < 2 ^ 32
      → HeaderSearch buffer begin end (retrieve_packet_header buffer begin end)
  unfolding retrieve_packet_header
  retrieve_packet_header-HeaderSearch bytes h fits small =
      elim (dec_lt (end - begin) sizeof_header) [
        | yes few ↦ too_short few (retrieve_packet_header-few few)
        | no enough ↦ rw (ltb-false ((end - begin) % 2 ^ 32) sizeof_header (omega arith)) (
            searched _ (omega arith)
              (retrieve_packet_magic-Search buffer begin end bytes (omega arith) fits))
      ]

  -- A magic at the front of a range of 80 bytes or more is taken for the header.
  pub retrieve_packet_header-front :
      (h : Header)
      → begin + sizeof_header ≤ end
      → end < 2 ^ 32
      → MagicAt buffer begin
      → from_byte_range buffer begin ≡ done h
      → retrieve_packet_header buffer begin end ≡ done (some (begin, h))
  unfolding retrieve_packet_header read_header
  retrieve_packet_header-front h enough small m read = rw (
    ltb-false ((end - begin) % 2 ^ 32) sizeof_header (omega arith),
    retrieve_packet_magic-front buffer begin end m (omega arith),
    read,
  )

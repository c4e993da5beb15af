-- ===== src/Extract/Rounds/Stream.antt =====
-- A stream of packets through the loop that both links write as `for (;;)`
-- (include/DataLink/TCPLink.hpp and include/DataLink/UDPLink.hpp).
use r.Base.{
  ℕ, zero, suc, ◌+◌, ◌^◌, ◌≤◌, ◌<◌, ◌≡◌, refl, ◌∙◌, ap, arith, true, false, List, [], ◌∷◌, length,
  length-drop, All, drop, drop-add, some, done, map, ◌*◌,
}
use r.Wire.{Buffer, Header, sizeof_header}
use r.Packet.HeaderSearch.{retrieve_packet_header-few}
use r.Packet.Payload.{encode32, encode48}
use r.Packet.Payload.Points.{packed, length-packed}
use r.Scan.{ScanFactory}
use r.Extract.{Extraction, reset_for, extract_scan_packet}
use r.Extract.Whole.{
  Payload, plain, wide, compact, points_of, size_of, Describes, FitsPayload, encode_packet,
  encode_payload, packet_length, payload_behind, extract_scan_packet-encode_packet,
}
use r.Extract.Rounds.{Rounds, extraction_rounds}
use r.Extract.Rounds.Ends.{round_continues, round_stops}

-- A packet as a device sends it.
pub record Sent : Type 0 where
  pub header : Header
  pub padding : List ℕ
  pub payload : Payload

-- Well formed, and of 80 bytes at least.
pub record IsSent (x : Sent) : Type 0 where
  pub describes : Describes x.header x.padding x.payload
  pub fits : FitsPayload x.payload
  pub long_enough : sizeof_header ≤ x.header.packet_size

abbrev pub encode_stream : List Sent → List ℕ → List ℕ
encode_stream [] rest = rest
encode_stream (x ∷ xs) rest = encode_packet x.header x.padding x.payload (encode_stream xs rest)

drop-encode32 : (vs : List ℕ) (rest : List ℕ) → drop (4 * length vs) (encode32 vs rest) ≡ rest
drop-encode32 [] rest = refl
drop-encode32 (v ∷ vs) rest =
    let bytes = encode32 (v ∷ vs) rest in
    let count : 4 * length (v ∷ vs) ≡ 4 + 4 * length vs = omega arith in
    ap (λ (n : ℕ). drop n bytes) count ∙ drop-add 4 (4 * length vs) bytes ∙ drop-encode32 vs rest

drop-encode48 : (vs : List (ℕ × ℕ)) (rest : List ℕ) → drop (6 * length vs) (encode48 vs rest) ≡ rest
drop-encode48 [] rest = refl
drop-encode48 (v ∷ vs) rest =
    let bytes = encode48 (v ∷ vs) rest in
    let count : 6 * length (v ∷ vs) ≡ 6 + 6 * length vs = omega arith in
    ap (λ (n : ℕ). drop n bytes) count ∙ drop-add 6 (6 * length vs) bytes ∙ drop-encode48 vs rest

drop-encode_payload :
    (pl : Payload) (rest : List ℕ) → drop (size_of pl) (encode_payload pl rest) ≡ rest
drop-encode_payload (plain vs) rest = drop-encode32 vs rest
drop-encode_payload (wide vs) rest = drop-encode48 vs rest
drop-encode_payload (compact vs) rest =
    let bytes = encode32 (map packed vs) rest in
    let count : 4 * length vs ≡ 4 * length (map packed vs) = omega (arith, length-packed vs) in
    ap (λ (n : ℕ). drop n bytes) count ∙ drop-encode32 (map packed vs) rest

behind_packet :
    (buffer : Buffer) (begin : ℕ) (x : Sent) (rest : List ℕ)
    → IsSent x
    → drop begin buffer ≡ encode_packet x.header x.padding x.payload rest
    → drop (begin + x.header.packet_size) buffer ≡ rest
behind_packet buffer begin x rest sent e =
    let d = sent.describes in
    let h = x.header in
    ap (λ (n : ℕ). drop n buffer) (omega (arith, d.packet_length))
    ∙ drop-add (begin + h.header_size) (size_of x.payload) buffer
    ∙ ap (drop (size_of x.payload)) (payload_behind buffer begin h x.padding x.payload rest d e)
    ∙ drop-encode_payload x.payload rest

-- Behind the last packet.
few_bytes_left :
    {S : Type 0} (factory : ScanFactory S) (buffer : Buffer) (begin : ℕ) (s : S)
    → begin ≤ length buffer
    → length buffer < begin + sizeof_header
    → extract_scan_packet factory buffer begin (length buffer) s
      ≡ done (record { had_enough_bytes = false; position = length buffer; missing = 0 }, s)
unfolding extract_scan_packet
few_bytes_left factory buffer begin s inside few =
    rw (retrieve_packet_header-few buffer begin (length buffer) (omega arith))

module _ {S P : Type 0} (rounds : Rounds S P) where
  open rounds use {factory, position_of, factory_of, after}

  -- What a round makes of a packet: the factory is reset for its header and given its points, and
  -- the position moves behind it.
  abbrev pub after_packet : Sent → P → P
  after_packet x p = after p (
    record {
      had_enough_bytes = true;
      position = position_of p + x.header.packet_size;
      missing = 0;
    },
    factory.add_packet x.header (points_of x.payload).distances (points_of x.payload).amplitudes
        (reset_for factory x.header (factory_of p)),
  )

  abbrev pub after_stream : List Sent → P → P
  after_stream [] p = p
  after_stream (x ∷ xs) p = after_stream xs (after_packet x p)

  -- The last round of a loop, which finds no header in the bytes that are left.
  abbrev pub after_rest : Buffer → P → P
  after_rest buffer p =
      after p
        (record { had_enough_bytes = false; position = length buffer; missing = 0 }, factory_of p)

  -- Where the range of the loop holds well-formed packets of 80 bytes at least, one behind the other,
  -- and fewer than 80 bytes behind the last, in a buffer of fewer than 2^32, the loop takes each packet
  -- in one round, in order, and no other: with more fuel than there are packets it ends, behind a last
  -- round that finds nothing in the rest.
  pub extraction_rounds-encode_stream :
      (keeps : (p : P) (x : Extraction) (f : S) → position_of (after p (x, f)) ≡ x.position)
      (buffer : Buffer) (xs : List Sent) (rest : List ℕ) (fuel : ℕ) (p : P)
      → All IsSent xs
      → length buffer < 2 ^ 32
      → position_of p ≤ length buffer
      → drop (position_of p) buffer ≡ encode_stream xs rest
      → length rest < sizeof_header
      → length xs < fuel
      → extraction_rounds rounds buffer fuel p ≡ some (done (after_rest buffer (after_stream xs p)))
  extraction_rounds-encode_stream keeps buffer xs rest zero p sent small inside e few enough =
      absurd (omega arith)
  extraction_rounds-encode_stream keeps buffer [] rest (suc fuel) p sent small inside e few enough =
      round_stops rounds buffer fuel p (length buffer) 0 (factory_of p) (
        few_bytes_left factory buffer (position_of p) (factory_of p) inside
          (omega (arith, length-drop (position_of p) buffer, ap length e)))
  extraction_rounds-encode_stream keeps buffer (x ∷ xs) rest (suc fuel) p (sent, all) small inside e
        few enough =
      let begin = position_of p in
      let total =
        packet_length buffer begin x.header x.padding x.payload (encode_stream xs rest)
          sent.describes e inside in
      let at : position_of (after_packet x p) ≡ begin + x.header.packet_size = keeps p _ _ in
      round_continues rounds buffer fuel p (begin + x.header.packet_size) 0 _ (
        extract_scan_packet-encode_packet factory buffer begin (factory_of p) x.header x.padding
          x.payload (encode_stream xs rest) sent.describes sent.fits e
          (omega (arith, sent.long_enough)) small)
      ∙ extraction_rounds-encode_stream keeps buffer xs rest fuel (after_packet x p) all small
          (omega arith)
          (ap (λ n. drop n buffer) at ∙ behind_packet buffer begin x (encode_stream xs rest) sent e)
          few (omega arith)

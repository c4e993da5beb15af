-- ===== src/Extract/Payloads.antt =====
-- The payload of a packet of include/DataLink/DataLink.hpp on arbitrary bytes: what is read is what an
-- encoder writes.
use r.Base.{
  ℕ, ◌+◌, ◌-◌, ◌*◌, ◌/◌, ◌%◌, ◌^◌, ◌≤◌, ◌<◌, min, ◌≡◌, refl, sym, ◌∙◌, ap, ◌≢◌, arith, List, length,
  length-drop, drop, All, Outcome, done, fault, threw, runtime_error,
}
use r.Wire.{Buffer, IsByte}
use r.Packet.{
  Points, retrieve_32_bits, retrieve_48_bits, retrieve_payload_a, retrieve_payload_b,
  retrieve_payload_c, point_a, point_b, point_c, packet_type_a, packet_type_b, packet_type_c,
}
use r.Packet.Payload.{encode32}
use r.Packet.Payload.Points.{length-packed}
use r.Packet.Payload.Bounds.{retrieve_48_bits-overread}
use r.Packet.Payload.Decoded.{
  All-drop, decoded32, decoded48, unpacked, retrieve_32_bits-min, retrieve_48_bits-few,
}
use r.Extract.{no_points, retrieve_payload}
use r.Extract.Whole.{
  Payload, plain, wide, compact, type_of, count_of, size_of, encode_payload, FitsPayload, points_of,
  length-encode_payload, retrieve_payload-encode_payload,
}
use native.Mathlib.Decide.{dec_lt, ℕ_discrete}

abbrev pub point_size : Payload → ℕ
point_size (plain vs) = 4
point_size (wide vs) = 6
point_size (compact vs) = 4

-- The bytes from `begin` on are those of the payload, which has as many points as were asked for or as
-- there are whole ones, whichever is less.
pub record Holds (buffer : Buffer) (packet_type begin n : ℕ) (pl : Payload) (rest : List ℕ)
    : Type 0 where
  pub same_type : packet_type ≡ type_of pl
  pub fits : FitsPayload pl
  pub bytes : drop begin buffer ≡ encode_payload pl rest
  pub count : count_of pl ≡ min n ((length buffer - begin) / point_size pl)

pub Holds-inside :
    (buffer : Buffer) (packet_type begin n : ℕ) (pl : Payload) (rest : List ℕ)
    → begin ≤ length buffer
    → Holds buffer packet_type begin n pl rest
    → begin + size_of pl ≤ length buffer
Holds-inside buffer packet_type begin n pl rest h holds =
    omega (arith, length-drop begin buffer, ap length holds.bytes, length-encode_payload pl rest)

-- A payload that is taken whole or in part is read as an encoder writes it; a type B payload may be read
-- past the end; any type but A, B and C throws.
pub data PayloadEnds (packet_type : ℕ) (buffer : Buffer) (begin n : ℕ) (r : Outcome (ℕ × Points))
    : Type 0 where
  ends :
      (pl : Payload) (rest : List ℕ)
      → Holds buffer packet_type begin n pl rest
      → (packet_type ≡ packet_type_b
          → length buffer - begin < n * 6
          → (length buffer - begin) % 6 < 4)
      → r ≡ done (begin + size_of pl, points_of pl)
      → PayloadEnds packet_type buffer begin n r
  past_end :
      packet_type ≡ packet_type_b
      → length buffer - begin < n * 6
      → 4 ≤ (length buffer - begin) % 6
      → r ≡ fault
      → PayloadEnds packet_type buffer begin n r
  unsupported :
      packet_type ≢ packet_type_a
      → packet_type ≢ packet_type_b
      → packet_type ≢ packet_type_c
      → r ≡ threw runtime_error
      → PayloadEnds packet_type buffer begin n r

module _ (buffer : Buffer) (all : All IsByte buffer) (begin n : ℕ) (inside : begin ≤ length buffer)
    (small : length buffer < 2 ^ 32) where
  -- The payload is read as it is encoded, once the loop is asked for no more points than there are.
  read_as_encoded :
      (pl : Payload) (rest : List ℕ) (r : Outcome (ℕ × Points))
      → FitsPayload pl
      → drop begin buffer ≡ encode_payload pl rest
      → r ≡ retrieve_payload (type_of pl) buffer begin (length buffer) (count_of pl)
      → r ≡ done (begin + size_of pl, points_of pl)
  read_as_encoded pl rest r fit e same =
      same
      ∙ retrieve_payload-encode_payload buffer begin pl rest fit e
          (omega (arith, length-drop begin buffer, ap length e, length-encode_payload pl rest))
          (omega arith)

  abbrev count32 : ℕ
  count32 = min n ((length buffer - begin) / 4)

  ends_a :
      PayloadEnds packet_type_a buffer begin n
        (retrieve_payload_a buffer begin (length buffer) n no_points)
  unfolding retrieve_payload_a retrieve_payload
  ends_a =
      let (vs, rest, fit, count, e) =
        decoded32 count32 (drop begin buffer) (All-drop begin buffer all)
          (omega (arith, length-drop begin buffer)) in
      ends (plain vs) rest (record { same_type = refl; fits = fit; bytes = e; count = count })
        (λ t few. absurd (omega (arith, t)))
        (read_as_encoded (plain vs) rest _ fit e (
          retrieve_32_bits-min buffer point_a n begin no_points inside (omega arith)
          ∙ ap (λ m. retrieve_32_bits point_a buffer (length buffer) m begin no_points)
              (sym count)))

  ends_c :
      PayloadEnds packet_type_c buffer begin n
        (retrieve_payload_c buffer begin (length buffer) n no_points)
  unfolding retrieve_payload_c retrieve_payload
  ends_c =
      let (vs, rest, fit, count, e) =
        decoded32 count32 (drop begin buffer) (All-drop begin buffer all)
          (omega (arith, length-drop begin buffer)) in
      let (ps, fits, same) = unpacked vs fit in
      let number : length ps ≡ count32 = sym (length-packed ps) ∙ ap length same ∙ count in
      let bytes = e ∙ ap (λ ws. encode32 ws rest) (sym same) in
      ends (compact ps) rest
        (record { same_type = refl; fits = fits; bytes = bytes; count = number })
        (λ t few. absurd (omega (arith, t)))
        (read_as_encoded (compact ps) rest _ fits bytes (
          retrieve_32_bits-min buffer point_c n begin no_points inside (omega arith)
          ∙ ap (λ m. retrieve_32_bits point_c buffer (length buffer) m begin no_points)
              (sym number)))

  taken_b :
      (k : ℕ)
      → k ≡ min n ((length buffer - begin) / 6)
      → (length buffer - begin < n * 6 → (length buffer - begin) % 6 < 4)
      → retrieve_48_bits point_b buffer (length buffer) n begin no_points
        ≡ retrieve_48_bits point_b buffer (length buffer) k begin no_points
      → PayloadEnds packet_type_b buffer begin n
          (retrieve_payload_b buffer begin (length buffer) n no_points)
  unfolding retrieve_payload_b retrieve_payload
  taken_b k least stops run =
      let (vs, rest, fit, count, e) =
        decoded48 k (drop begin buffer) (All-drop begin buffer all)
          (omega (arith, least, length-drop begin buffer)) in
      ends (wide vs) rest
        (record { same_type = refl; fits = fit; bytes = e; count = count ∙ least }) (λ t. stops)
        (read_as_encoded (wide vs) rest _ fit e (
          run
          ∙ ap (λ m. retrieve_48_bits point_b buffer (length buffer) m begin no_points)
              (sym count)))

  ends_b :
      PayloadEnds packet_type_b buffer begin n
        (retrieve_payload_b buffer begin (length buffer) n no_points)
  unfolding retrieve_payload_b
  ends_b = elim (dec_lt (length buffer - begin) (n * 6)) [
    | no whole ↦ taken_b n (omega arith) (λ few. absurd (whole few)) refl
    | yes few ↦ elim (dec_lt ((length buffer - begin) % 6) 4) [
      | yes stop ↦
          taken_b ((length buffer - begin) / 6) (omega arith) (λ f. stop)
            (retrieve_48_bits-few buffer point_b n begin no_points inside (omega arith) few stop)
      | no over ↦ past_end refl few (omega arith) (
          retrieve_48_bits-overread point_b buffer n begin no_points inside (omega arith) few
            (omega arith))
    ]
  ]

  pub retrieve_payload-PayloadEnds :
      (packet_type : ℕ)
      → PayloadEnds packet_type buffer begin n
          (retrieve_payload packet_type buffer begin (length buffer) n)
  unfolding retrieve_payload
  retrieve_payload-PayloadEnds packet_type = elim (ℕ_discrete packet_type packet_type_a) [
    | yes a ↦ rw a ends_a
    | no not_a ↦ elim (ℕ_discrete packet_type packet_type_b) [
      | yes b ↦ rw b ends_b
      | no not_b ↦ elim (ℕ_discrete packet_type packet_type_c) [
        | yes c ↦ rw c ends_c
        | no not_c ↦ unsupported not_a not_b not_c (ground arith)
      ]
    ]
  ]

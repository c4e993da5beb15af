-- ===== src/Extract/Rounds/Ends.antt =====
-- The extraction loop on arbitrary bytes: when it ends, and a packet on which it does not.
use r.Base.{
  get_elem?, get_elem?-none, ltb, ltb→lt, ◌==◌, if◌then◌else◌, Bool, ◌&&◌, ◌+◌, ℕ, zero, suc, ◌-◌,
  ◌^◌, ◌≤◌, ◌<◌, ◌≡◌, refl, ◌∙◌, arith, true, false, [], length, All, Option, none, some, Outcome,
  done, fault, threw, runtime_error,
}
use native.Mathlib.Decide.{dec_lt, ℕ_discrete}
use r.Packet.Magic.{MagicAt}
use r.Wire.{Buffer, IsByte, Header, from_byte_range}
use r.Extract.{Extraction, extract_scan_packet, reset_for}
use r.Extract.Cases.{
  nothing, partial, whole, unsupported_type, header_overread, payload_overread,
  extract_scan_packet-Extracts,
}
use r.Extract.Whole.{size_of, points_of}
use r.Extract.Payloads.{Holds-inside}
use r.Extract.Empty.{Stalls, extract_scan_packet-empty_packet}
use r.Extract.Rounds.{Rounds, extraction_rounds}

-- Every header that stands in the buffer behind a magic announces a size that is not 0.
abbrev pub Advances : Buffer → Type 0
Advances buffer =
    (p : ℕ) (h : Header) → MagicAt buffer p → from_byte_range buffer p ≡ done h → 0 < h.header_size

-- The test of that, position by position.
advances_at : Option ℕ → Outcome Header → Bool
advances_at (some byte) (done h) = if byte == 0x5c then ltb 0 h.header_size else true
advances_at none r = true
advances_at (some byte) fault = true
advances_at (some byte) (threw e) = true

unfoldable pub advances_below : Buffer → ℕ → Bool
unfolding advances_at
advances_below buffer zero = true
advances_below buffer (suc n) =
    advances_at (get_elem? buffer n) (from_byte_range buffer n) && advances_below buffer n

advances_below-lt :
    (buffer : Buffer) (n p : ℕ) (h : Header)
    → advances_below buffer n ≡ true
    → p < n
    → MagicAt buffer p
    → from_byte_range buffer p ≡ done h
    → 0 < h.header_size
unfolding advances_below advances_at
advances_below-lt buffer zero p h all below m reads = absurd (omega arith)
advances_below-lt buffer (suc n) p h all below m reads = elim (ℕ_discrete p n) [
  | yes same ↦
      let here : advances_at (get_elem? buffer p) (from_byte_range buffer p) ≡ true =
        ground arith in
      ltb→lt 0 h.header_size (rw (m.low_byte, reads) at here)
  | no other ↦ advances_below-lt buffer n p h (ground arith) (omega arith) m reads
]

pub advances_below-Advances :
    (buffer : Buffer) → advances_below buffer (length buffer) ≡ true → Advances buffer
advances_below-Advances buffer all p h m reads = elim (dec_lt p (length buffer)) [
  | yes inside ↦ advances_below-lt buffer (length buffer) p h all inside m reads
  | no outside ↦ absurd (let e = get_elem?-none buffer p (omega arith) in cc)
]

module _ {S P : Type 0} (rounds : Rounds S P) (buffer : Buffer) where
  open rounds use {factory, position_of, factory_of, after}

  -- One round, by what the extraction came to.
  module _ (fuel : ℕ) (p : P) where
    abbrev extraction : Outcome (Extraction × S)
    extraction = extract_scan_packet factory buffer (position_of p) (length buffer) (factory_of p)

    pub round_continues :
        (q missing : ℕ) (f : S)
        → extraction ≡ done (record { had_enough_bytes = true; position = q; missing = missing }, f)
        → extraction_rounds rounds buffer (suc fuel) p
          ≡ extraction_rounds rounds buffer fuel
              (after p (record { had_enough_bytes = true; position = q; missing = missing }, f))
    unfolding extraction_rounds
    round_continues q missing f e = rw (e, extraction_rounds)

    pub round_stops :
        (q missing : ℕ) (f : S)
        → extraction
          ≡ done (record { had_enough_bytes = false; position = q; missing = missing }, f)
        → extraction_rounds rounds buffer (suc fuel) p
          ≡ some (
              done
                (after p (record { had_enough_bytes = false; position = q; missing = missing }, f)))
    unfolding extraction_rounds
    round_stops q missing f e = rw (e, extraction_rounds)

    pub round_faults :
        extraction ≡ fault → extraction_rounds rounds buffer (suc fuel) p ≡ some fault
    unfolding extraction_rounds
    round_faults e = rw (e, extraction_rounds)

    pub round_throws :
        extraction ≡ threw runtime_error
        → extraction_rounds rounds buffer (suc fuel) p ≡ some (threw runtime_error)
    unfolding extraction_rounds
    round_throws e = rw (e, extraction_rounds)

  -- How a loop that has ended has ended.
  pub data LoopEnds (start : ℕ) (r : Option (Outcome P)) : Type 0 where
    returns :
        (p : P)
        → r ≡ some (done p)
        → start ≤ position_of p
        → position_of p ≤ length buffer
        → LoopEnds start r
    reads_out_of_range : r ≡ some fault → LoopEnds start r
    throws : r ≡ some (threw runtime_error) → LoopEnds start r

  weaken : (a b : ℕ) (r : Option (Outcome P)) → a ≤ b → LoopEnds b r → LoopEnds a r
  weaken a b r h (returns p e lo hi) = returns p e (omega arith) hi
  weaken a b r h (reads_out_of_range e) = reads_out_of_range e
  weaken a b r h (throws e) = throws e

  module _ (keeps : (p : P) (x : Extraction) (f : S) → position_of (after p (x, f)) ≡ x.position)
      (small : length buffer < 2 ^ 32) where
    -- If the buffer holds fewer than 2^32 bytes and every header behind a magic announces a size that is not 0, the loop ends within as many
    -- rounds as there are bytes behind its start, and one more: it returns a position between its
    -- start and the end of the buffer, or it throws, or reads out of range.
    pub extraction_rounds-LoopEnds :
        All IsByte buffer
        → Advances buffer
        → (fuel : ℕ) (p : P) → position_of p ≤ length buffer
        → length buffer - position_of p < fuel
        → LoopEnds (position_of p) (extraction_rounds rounds buffer fuel p)
    extraction_rounds-LoopEnds bytes advances zero p inside h = absurd (omega arith)
    extraction_rounds-LoopEnds bytes advances (suc fuel) p inside h =
        elim (extract_scan_packet-Extracts factory buffer (position_of p) (factory_of p) bytes
          inside small) [
            | nothing why e ↦
                rw (round_stops fuel p _ _ _ e)
                  (returns _ refl (omega (arith, keeps p _ _)) (omega (arith, keeps p _ _)))
            | partial q hd f few e ↦ rw (round_stops fuel p _ _ _ e) (
                returns _ refl (omega (arith, f.behind, keeps p _ _))
                  (omega (arith, f.inside, keeps p _ _)))
            | whole start hd pl rest f there holds stops e ↦
                let q = start + hd.header_size + size_of pl in
                let points = points_of pl in
                let hi = Holds-inside buffer _ _ _ pl rest (omega arith) holds in
                let further : position_of p < q =
                  omega (arith, f.behind, advances start hd f.magic f.reads) in
                let x : Extraction = record {
                  had_enough_bytes = true;
                  position = q;
                  missing = 0;
                } in
                let f' =
                  factory.add_packet hd points.distances points.amplitudes
                    (reset_for factory hd (factory_of p)) in
                let at_q : position_of (after p (x, f')) ≡ q = keeps p x f' in
                let later =
                  extraction_rounds-LoopEnds bytes advances fuel (after p (x, f')) (omega arith)
                    (omega arith) in
                rw (round_continues fuel p _ _ _ e)
                  (weaken (position_of p) (position_of (after p (x, f'))) _ (omega arith) later)
            | unsupported_type q hd f there a b c e ↦ rw (round_throws fuel p e) (throws refl)
            | header_overread q wide a b m first short e ↦
                rw (round_faults fuel p e) (reads_out_of_range refl)
            | payload_overread q hd f there t few over e ↦
                rw (round_faults fuel p e) (reads_out_of_range refl)
          ]

    -- Where the range of a round begins with a header of a known type that announces a header size, a
    -- packet size and a number of points of 0, with 80 bytes at least in the range, and in a buffer of
    -- fewer than 2^32 bytes, the loop never ends: no amount of fuel is enough, whatever the factory holds.
    pub extraction_rounds-stuck :
        (h : Header) (begin fuel : ℕ) (p : P)
        → position_of p ≡ begin
        → Stalls buffer begin h
        → extraction_rounds rounds buffer fuel p ≡ none
    extraction_rounds-stuck h begin zero p at_begin s = unfold extraction_rounds in refl
    extraction_rounds-stuck h begin (suc fuel) p at_begin s =
        let x : Extraction = record { had_enough_bytes = true; position = begin; missing = 0 } in
        let f = factory.add_packet h [] [] (reset_for factory h (factory_of p)) in
        let e = extract_scan_packet-empty_packet buffer begin h s factory (factory_of p) small in
        round_continues fuel p _ _ _ (rw at_begin e)
        ∙ extraction_rounds-stuck h begin fuel (after p (x, f)) (keeps p x f) s

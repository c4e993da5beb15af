-- ===== src/Extract/OneScan.antt =====
-- `DataLink::extractScanPacketFromByteRange` of include/DataLink/DataLink.hpp keeps the packets of one
-- scan together, over any factory that obeys the laws of the interface.
use r.Base.{
  ℕ, ◌+◌, ◌≡◌, refl, sym, ◌∙◌, arith, true, false, Bool-cases, ◌⊎◌, inl, inr, List, [], ◌∷◌, ◌++◌,
  All, All-append, All-weaken, Option, none, some, Outcome, done, fault, threw, ltb, ◌==◌, ◌>>=◌,
}
use r.Wire.{Buffer, Header}
use r.Packet.{retrieve_packet_header, Points}
use r.Scan.{ScanFactory, back, has_number, is_different_scan, is_new_scan}
use r.Scan.Back.{back-All, is_empty-nil}
use r.Scan.Lawful.{IsScanFactory}
use r.Extract.{
  Extraction, reset_for, reset_left, factory_left, extract_found, extract_result,
  extract_scan_packet, payload_size, retrieve_payload,
}

-- A packet of scan `k` that is not its first.
abbrev pub IsLaterOf : ℕ → Header → Type 0
IsLaterOf k h = (h.scan_number ≡ k) × ((h.packet_number == 1) ≡ false)

-- Packets of a single scan, of which at most the one in front has the number 1.
abbrev pub IsOneScan : List Header → Type 0
IsOneScan [] = Unit {0}
IsOneScan (h ∷ hs) = All (IsLaterOf h.scan_number) hs

IsOneScan-append :
    (hs : List Header) (h : Header)
    → IsOneScan hs
    → has_number (back hs) h.scan_number ≡ true
    → (h.packet_number == 1) ≡ false
    → IsOneScan (hs ++ h ∷ [])
IsOneScan-append [] h one last later = tt
IsOneScan-append (g ∷ gs) h one last later =
    let (b, e, same) =
      back-All (λ (x : Header). x.scan_number ≡ g.scan_number) g gs
        (refl, All-weaken (IsLaterOf g.scan_number) _ gs (λ x p. p.0) one) in
    All-append (IsLaterOf g.scan_number) gs (h ∷ []) one ((ground (arith, e, same), later), tt)

-- An extraction that has returned leaves a factory of which `I` holds.
abbrev pub Leaves : {S : Type 0} → (S → Type 0) → Outcome (Extraction × S) → Type 0
Leaves I (done (x, s)) = I s
Leaves I fault = Unit {0}
Leaves I (threw e) = Unit {0}

module _ {S : Type 0} (factory : ScanFactory S) (laws : IsScanFactory factory) where
  open factory use {add_packet, clear, factory_empty, matches, get_headers}

  abbrev pub HoldsOneScan : S → Type 0
  HoldsOneScan s = IsOneScan (get_headers s)

  -- The factory once `extract_found` has reset it.
  reset_or_same :
      (h : Header) (s : S)
      → ((reset_for factory h s ≡ s)
          × ((get_headers s ≡ [])
              ⊎ ((has_number (back (get_headers s)) h.scan_number ≡ true)
                  × ((h.packet_number == 1) ≡ false))))
        ⊎ (reset_for factory h s ≡ clear s)
  unfolding reset_for is_different_scan is_new_scan
  reset_or_same h s = elim (Bool-cases (factory_empty s)) [
    | inl empty ↦ inl (rw empty, inl (is_empty-nil _ (sym (laws.factory_empty_lem s) ∙ empty)))
    | inr some_packets ↦ elim (Bool-cases (matches s h.scan_number)) [
      | inr different ↦ inr (rw (some_packets, different))
      | inl same ↦ elim (Bool-cases (h.packet_number == 1)) [
        | inl new ↦ inr (rw (some_packets, same, new))
        | inr later ↦ inl (
          rw (some_packets, same, later),
          inr (sym (laws.matches_lem s h.scan_number) ∙ same, later),
        )
      ]
    ]
  ]

  add-HoldsOneScan :
      (h : Header) (ds amps : List ℕ) (s : S)
      → HoldsOneScan s
      → HoldsOneScan (add_packet h ds amps (reset_for factory h s))
  add-HoldsOneScan h ds amps s one =
      rw (laws.get_headers-add_packet h ds amps (reset_for factory h s)) (elim (reset_or_same h s) [
        | inl (e, inl empty) ↦ rw (e, empty) tt
        | inl (e, inr (last, later)) ↦ rw e (IsOneScan-append (get_headers s) h one last later)
        | inr e ↦ rw (e, laws.get_headers-clear s) tt
      ])

  reset_for-HoldsOneScan :
      (h : Header) (s : S) → HoldsOneScan s → HoldsOneScan (reset_for factory h s)
  reset_for-HoldsOneScan h s one = elim (reset_or_same h s) [
    | inl (e, why) ↦ rw e one
    | inr e ↦ rw (e, laws.get_headers-clear s) tt
  ]

  -- The same holds of the factory that an exception leaves.
  pub factory_left-HoldsOneScan :
      (buffer : Buffer) (begin end : ℕ) (s : S)
      → HoldsOneScan s
      → HoldsOneScan (factory_left factory buffer begin end s)
  unfolding factory_left reset_left
  factory_left-HoldsOneScan buffer begin end s one = go (retrieve_packet_header buffer begin end)
    where
      go : (r : Outcome (Option (ℕ × Header))) → HoldsOneScan (reset_left factory s r)
      go (done none) = one
      go (done (some (p, h))) = reset_for-HoldsOneScan h s one
      go fault = one
      go (threw e) = one

  extract_found-HoldsOneScan :
      (buffer : Buffer) (end : ℕ) (s : S) (found : ℕ × Header)
      → HoldsOneScan s
      → Leaves HoldsOneScan (extract_found factory buffer end s found)
  unfolding extract_found
  extract_found-HoldsOneScan buffer end s (packet_start, h) one =
      elim (Bool-cases (ltb end (packet_start + h.header_size + payload_size h))) [
        | inl few ↦ rw few (reset_for-HoldsOneScan h s one)
        | inr enough ↦ rw enough (
            points (
              retrieve_payload h.packet_type buffer (packet_start + h.header_size) end
                h.num_points_packet))
      ]
    where
      points :
          (r : Outcome (ℕ × Points))
          → Leaves HoldsOneScan (
              r >>= λ read. done (
                record { had_enough_bytes = true; position = read.0; missing = 0 },
                add_packet h read.1.distances read.1.amplitudes (reset_for factory h s),
              ))
      points (done (q, ps)) = add-HoldsOneScan h ps.distances ps.amplitudes s one
      points fault = tt
      points (threw e) = tt

  -- Whatever bytes a range holds, an extraction that returns leaves the packets of a single scan in the
  -- factory where it found the packets of a single scan there: those of one scan number, of which only
  -- the first to be added may have the packet number 1.
  pub extract_scan_packet-HoldsOneScan :
      (buffer : Buffer) (begin end : ℕ) (s : S)
      → HoldsOneScan s
      → Leaves HoldsOneScan (extract_scan_packet factory buffer begin end s)
  unfolding extract_scan_packet extract_result
  extract_scan_packet-HoldsOneScan buffer begin end s one =
      go (retrieve_packet_header buffer begin end)
    where
      go :
          (r : Outcome (Option (ℕ × Header)))
          → Leaves HoldsOneScan (r >>= extract_result factory buffer end s)
      go (done none) = one
      go (done (some found)) = extract_found-HoldsOneScan buffer end s found one
      go fault = tt
      go (threw e) = tt

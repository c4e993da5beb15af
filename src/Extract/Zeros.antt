-- ===== src/Extract/Zeros.antt =====
-- Zero bytes in front of a packet, in `extractScanPacketFromByteRange` of include/DataLink/DataLink.hpp and
-- in the loop around it.
use r.Base.{
  ℕ, suc, ◌+◌, ◌^◌, ◌≤◌, ◌<◌, ◌≡◌, refl, ap, List, ◌++◌, length, replicate, true, false, Bool-cases,
  inl, inr, Outcome, done, fault, threw, ◌>>=◌, Option, some,
}
use r.Wire.{Buffer, sizeof_header}
use r.Packet.Zeros.{retrieve_packet_header-zeros}
use r.Scan.{ScanFactory}
use r.Extract.{Extraction, extract_scan_packet, extract_result}
use r.Extract.Rounds.{Rounds, extraction_rounds}

extract_scan_packet-zeros :
    {S : Type 0} (factory : ScanFactory S) (k : ℕ) (ys : List ℕ) (s : S)
    → sizeof_header ≤ length ys
    → k + length ys < 2 ^ 32
    → let buffer = replicate k 0 ++ ys in
      extract_scan_packet factory buffer 0 (length buffer) s
      ≡ extract_scan_packet factory buffer k (length buffer) s
unfolding extract_scan_packet
extract_scan_packet-zeros factory k ys s long small =
    let buffer = replicate k 0 ++ ys in
    ap (λ r. r >>= extract_result factory buffer (length buffer) s)
      (retrieve_packet_header-zeros k ys long small)

module _ {S P : Type 0} (rounds : Rounds S P) where
  open rounds use {factory, position_of, factory_of, after}

  -- Two loops whose first extraction is the same one.
  same_start :
      (buffer : Buffer) (fuel : ℕ) (p q : P)
      → ((x : Extraction × S) → after p x ≡ after q x)
      → extract_scan_packet factory buffer (position_of p) (length buffer) (factory_of p)
        ≡ extract_scan_packet factory buffer (position_of q) (length buffer) (factory_of q)
      → extraction_rounds rounds buffer (suc fuel) p ≡ extraction_rounds rounds buffer (suc fuel) q
  unfolding extraction_rounds
  same_start buffer fuel p q goes_on e = go _ _ e
    where
      go :
          (r r' : Outcome (Extraction × S))
          → r ≡ r'
          → elim r as (λ _. Option (Outcome P)) [
            | done (x, f) ↦ elim x.had_enough_bytes [
              | true ↦ extraction_rounds rounds buffer fuel (after p (x, f))
              | false ↦ some (done (after p (x, f)))
            ]
            | fault ↦ some fault
            | threw e ↦ some (threw e)
          ]
            ≡ elim r' as (λ _. Option (Outcome P)) [
              | done (x, f) ↦ elim x.had_enough_bytes [
                | true ↦ extraction_rounds rounds buffer fuel (after q (x, f))
                | false ↦ some (done (after q (x, f)))
              ]
              | fault ↦ some fault
              | threw e ↦ some (threw e)
            ]
      go r (done (x, f)) e = elim (Bool-cases x.had_enough_bytes) [
        | inl more ↦ rw (e, more) (ap (extraction_rounds rounds buffer fuel) (goes_on (x, f)))
        | inr stop ↦ rw (e, stop) (ap (λ t. some (done t)) (goes_on (x, f)))
      ]
      go r fault e = rw e refl
      go r (threw x) e = rw e refl

  -- A loop that starts in front of the zero bytes does what one does that starts behind them.
  pub extraction_rounds-zeros :
      (fuel k : ℕ) (ys : List ℕ) (p q : P)
      → sizeof_header ≤ length ys
      → k + length ys < 2 ^ 32
      → position_of p ≡ 0
      → position_of q ≡ k
      → factory_of p ≡ factory_of q
      → ((x : Extraction × S) → after p x ≡ after q x)
      → extraction_rounds rounds (replicate k 0 ++ ys) (suc fuel) p
        ≡ extraction_rounds rounds (replicate k 0 ++ ys) (suc fuel) q
  extraction_rounds-zeros fuel k ys p q long small at_p at_q same goes_on =
      same_start (replicate k 0 ++ ys) fuel p q goes_on
        (rw (at_p, at_q, same) (extract_scan_packet-zeros factory k ys (factory_of q) long small))

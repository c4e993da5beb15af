-- ===== src/Extract/Rounds.antt =====
-- The loop around `extractScanPacketFromByteRange` that both links write as `for (;;)`
-- (include/DataLink/TCPLink.hpp and include/DataLink/UDPLink.hpp), over what a link carries from round
-- to round. It runs on fuel here: `none` is a loop that has not ended when the fuel is used up.
pub mod Ends
pub mod Invariant
pub mod Stream
use r.Base.{ℕ, zero, suc, true, false, length, Option, none, some, Outcome, done, fault, threw}
use r.Wire.{Buffer}
use r.Scan.{ScanFactory}
use r.Extract.{Extraction, extract_scan_packet}

-- What a link carries (`P`): the position and the factory are read for the next extraction, and
-- `after` is the part of a round behind it.
pub record Rounds (S P : Type 0) : Type 0 where
  pub factory : ScanFactory S
  pub position_of : P → ℕ
  pub factory_of : P → S
  pub after : P → Extraction × S → P

module _ {S P : Type 0} (rounds : Rounds S P) where
  open rounds use {factory, position_of, factory_of, after}

  unfoldable pub extraction_rounds : Buffer → ℕ → P → Option (Outcome P)
  extraction_rounds buffer zero p = none
  extraction_rounds buffer (suc fuel) p =
      elim (extract_scan_packet factory buffer (position_of p) (length buffer) (factory_of p)) [
        | done (x, f) ↦ elim x.had_enough_bytes [
          | true ↦ extraction_rounds buffer fuel (after p (x, f))
          | false ↦ some (done (after p (x, f)))
        ]
        | fault ↦ some fault
        | threw e ↦ some (threw e)
      ]

  -- What the rounds have left behind when the loop ends or an exception leaves it.
  unfoldable pub rounds_left : Buffer → ℕ → P → P
  rounds_left buffer zero p = p
  rounds_left buffer (suc fuel) p =
      elim (extract_scan_packet factory buffer (position_of p) (length buffer) (factory_of p)) [
        | done (x, f) ↦ elim x.had_enough_bytes [
          | true ↦ rounds_left buffer fuel (after p (x, f))
          | false ↦ after p (x, f)
        ]
        | fault ↦ p
        | threw e ↦ p
      ]

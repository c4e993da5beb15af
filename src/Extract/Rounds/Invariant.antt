-- ===== src/Extract/Rounds/Invariant.antt =====
-- What every round of the extraction loop keeps holds of what the loop returns.
use r.Base.{
  ℕ, zero, suc, true, false, Bool-cases, inl, inr, length, Option, none, some, Outcome, done, fault,
  threw,
}
use r.Wire.{Buffer}
use r.Extract.{Extraction, extract_scan_packet}
use r.Extract.OneScan.{Leaves}
use r.Extract.Rounds.{Rounds, extraction_rounds, rounds_left}

-- A loop that has returned has returned something of which `I` holds.
abbrev pub EndsWith : {P : Type 0} → (P → Type 0) → Option (Outcome P) → Type 0
EndsWith I none = Unit {0}
EndsWith I (some fault) = Unit {0}
EndsWith I (some (threw e)) = Unit {0}
EndsWith I (some (done p)) = I p

module _ {S P : Type 0} (rounds : Rounds S P) (I : P → Type 0) (J : S → Type 0) (buffer : Buffer)
    (extracts : (p : P)
      → I p
      → Leaves J (
          extract_scan_packet rounds.factory buffer
            (rounds.position_of p)
            (length buffer)
            (rounds.factory_of p)))
    (kept : (p : P) (x : Extraction) (f : S) → I p → J f → I (rounds.after p (x, f))) where
  open rounds use {factory, position_of, factory_of, after}

  pub extraction_rounds-Ends_leaving :
      (fuel : ℕ) (p : P) → I p → EndsWith I (extraction_rounds rounds buffer fuel p)
  unfolding extraction_rounds
  extraction_rounds-Ends_leaving zero p h = tt
  extraction_rounds-Ends_leaving (suc fuel) p h =
      go (extract_scan_packet factory buffer (position_of p) (length buffer) (factory_of p))
        (extracts p h)
        (λ x f j. extraction_rounds-Ends_leaving fuel (after p (x, f)) (kept p x f h j))
    where
      go :
          (r : Outcome (Extraction × S))
          → Leaves J r
          → ((x : Extraction) (f : S)
              → J f
              → EndsWith I (extraction_rounds rounds buffer fuel (after p (x, f))))
          → EndsWith I (elim r [
            | done (x, f) ↦ elim x.had_enough_bytes [
              | true ↦ extraction_rounds rounds buffer fuel (after p (x, f))
              | false ↦ some (done (after p (x, f)))
            ]
            | fault ↦ some fault
            | threw e ↦ some (threw e)
          ])
      go fault j rest = tt
      go (threw e) j rest = tt
      go (done (x, f)) j rest = elim (Bool-cases x.had_enough_bytes) [
        | inl more ↦ rw more (rest x f j)
        | inr stop ↦ rw stop (kept p x f h j)
      ]

  -- What the loop leaves behind as well, where an exception leaves it.
  pub rounds_left-keeps : (fuel : ℕ) (p : P) → I p → I (rounds_left rounds buffer fuel p)
  unfolding rounds_left
  rounds_left-keeps zero p h = h
  rounds_left-keeps (suc fuel) p h =
      go (extract_scan_packet factory buffer (position_of p) (length buffer) (factory_of p))
        (extracts p h) (λ x f j. rounds_left-keeps fuel (after p (x, f)) (kept p x f h j))
    where
      go :
          (r : Outcome (Extraction × S))
          → Leaves J r
          → ((x : Extraction) (f : S) → J f → I (rounds_left rounds buffer fuel (after p (x, f))))
          → I (elim r as (λ _. P) [
            | done (x, f) ↦ elim x.had_enough_bytes [
              | true ↦ rounds_left rounds buffer fuel (after p (x, f))
              | false ↦ after p (x, f)
            ]
            | fault ↦ p
            | threw e ↦ p
          ])
      go fault j rest = h
      go (threw e) j rest = h
      go (done (x, f)) j rest = elim (Bool-cases x.had_enough_bytes) [
        | inl more ↦ rw more (rest x f j)
        | inr stop ↦ rw stop (kept p x f h j)
      ]

Leaves-any : {S : Type 0} → (r : Outcome (Extraction × S)) → Leaves (λ _. Unit {0}) r
Leaves-any (done x) = tt
Leaves-any fault = tt
Leaves-any (threw e) = tt

module _ {S P : Type 0} (rounds : Rounds S P) (I : P → Type 0)
    (kept : (p : P) (x : Extraction) (f : S) → I p → I (rounds.after p (x, f)))
    (buffer : Buffer) where
  pub extraction_rounds-Ends :
      (fuel : ℕ) (p : P) → I p → EndsWith I (extraction_rounds rounds buffer fuel p)
  extraction_rounds-Ends =
      extraction_rounds-Ends_leaving rounds I (λ _. Unit {0}) buffer (λ p h. Leaves-any _)
        (λ p x f h j. kept p x f h)

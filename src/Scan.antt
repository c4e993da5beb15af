-- ===== src/Scan.antt =====
-- A scan (include/DataLink/Data.hpp, class Scan) and the factories that assemble one from packets:
-- `ScanFactory` of include/DataLink/DataLink.hpp as an interface, with its two implementations in
-- include/DataLink/TCPLink.hpp and include/DataLink/UDPLink.hpp. The clock's reading is an argument.
pub mod Tcp
pub mod Udp
pub mod Back
pub mod Lawful
use r.Base.{
  ℕ, suc, ◌+◌, ◌%◌, ◌^◌, Bool, true, false, not, ◌&&◌, ◌||◌, List, [], ◌∷◌, ◌++◌, map, length,
  Option, none, some, leb, ltb, ◌==◌,
}
use r.Wire.{Header}

pub record Scan : Type 0 where
  pub distances : List ℕ
  pub amplitudes : List ℕ
  pub headers : List Header
  pub timestamp : ℕ

abbrev pub is_empty {ℓ} : {A : Type ℓ} → List A → Bool
is_empty [] = true
is_empty (x ∷ xs) = false

-- `distances.size() >= headers[0].numPointsScan`, asked of a container that is not empty.
abbrev pub front_holds : List Header → ℕ → Bool
front_holds [] size = false
front_holds (h ∷ hs) size = leb h.num_points_scan size

pub scan_empty : Scan → Bool
scan_empty scan = is_empty scan.headers

pub scan_is_complete : Scan → Bool
scan_is_complete scan =
    not (is_empty scan.headers) && front_holds scan.headers (length scan.distances)

-- The abstract class: `output now` is `operator*`, which empties the factory, and `matches` is
-- `operator==` on a scan number.
pub record ScanFactory (S : Type 0) : Type 0 where
  pub add_packet : Header → List ℕ → List ℕ → S → S
  pub factory_empty : S → Bool
  pub is_complete : S → Bool
  pub output : ℕ → S → Scan × S
  pub clear : S → S
  pub matches : S → ℕ → Bool
  pub get_headers : S → List Header

module _ {S : Type 0} (factory : ScanFactory S) where
  open factory use {matches}

  unfoldable pub is_different_scan : S → Header → Bool
  is_different_scan s header = not (matches s header.scan_number)

  unfoldable pub is_new_scan : S → Header → Bool
  is_new_scan s header = header.packet_number == 1

-- `vector::back()` of a container that is not empty.
abbrev pub back {ℓ} : {A : Type ℓ} → List A → Option A
back [] = none
back (x ∷ []) = some x
back (x ∷ y ∷ ys) = back (y ∷ ys)

abbrev pub has_number : Option Header → ℕ → Bool
has_number none n = false
has_number (some h) n = h.scan_number == n

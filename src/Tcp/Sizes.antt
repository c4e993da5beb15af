-- ===== src/Tcp/Sizes.antt =====
-- The sizes of the TCP link's buffers and transfers (include/DataLink/TCPLink.hpp).
use r.Base.{ℕ, ◌≤◌, inl, inr, arith, List, Option, none, some, Bool-cases}
use r.Wire.{Buffer, Header}
use r.Scan.Tcp.{tcp_factory, TcpScanFactory}
use r.Extract.{Extraction}
use r.Extract.Rounds.{extraction_rounds}
use r.Extract.Rounds.Invariant.{EndsWith, extraction_rounds-Ends}
use r.Tcp.{
  Progress, compute_bounded_required_buffer_size, after_extraction, tcp_rounds,
  default_reception_buffer_size, max_reception_buffer_size,
}

-- A size that a reception buffer may have.
abbrev pub IsBufferSize : ℕ → Type 0
IsBufferSize size = (default_reception_buffer_size ≤ size) × (size ≤ max_reception_buffer_size)

-- The size computed for a full scan lies within the documented bounds, whatever the headers announce.
pub compute_bounded_required_buffer_size_bounds :
    (headers : List Header) → IsBufferSize (compute_bounded_required_buffer_size headers)
unfolding compute_bounded_required_buffer_size
compute_bounded_required_buffer_size_bounds headers = omega arith

-- A size asked for by a scan is one of these.
abbrev pub IsRequest : Option ℕ → Type 0
IsRequest none = Unit {0}
IsRequest (some size) = IsBufferSize size

after_extraction-IsRequest :
    (clock : ℕ → ℕ) (p : Progress) (x : Extraction × TcpScanFactory)
    → IsRequest p.full_scan_size
    → IsRequest (after_extraction clock p x).full_scan_size
unfolding after_extraction
after_extraction-IsRequest clock p (x, f) h = elim (Bool-cases (tcp_factory.is_complete f)) [
  | inl yes' ↦ rw yes' (compute_bounded_required_buffer_size_bounds (tcp_factory.get_headers f))
  | inr no' ↦ rw no' h
]

pub extraction_rounds-Requests :
    (clock : ℕ → ℕ) (buffer : Buffer) (fuel : ℕ) (p : Progress)
    → IsRequest p.full_scan_size
    → EndsWith
        (λ p. IsRequest p.full_scan_size)
        (extraction_rounds (tcp_rounds clock) buffer fuel p)
unfolding after_extraction
extraction_rounds-Requests clock buffer fuel p h =
    extraction_rounds-Ends (tcp_rounds clock) (λ p. IsRequest p.full_scan_size)
      (λ p x f. after_extraction-IsRequest clock p (x, f)) buffer fuel p h

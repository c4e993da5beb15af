-- ===== src/Tcp/Connection/Sizes.antt =====
-- The sizes of the reads that `onBytesReceived` of src/DataLink/TCPLink.cpp asks for.
use r.Base.{ℕ, ◌≤◌, arith, ◌++◌, Option, none, some, Outcome, done, fault, threw}
use r.Wire.{Buffer}
use r.Scan.Tcp.{tcp_factory}
use r.Extract.Rounds.Invariant.{EndsWith}
use r.Tcp.{
  Progress, Extracted, TcpLink, Reception, bytes, error_code, on_bytes_received,
  try_extracting_scan, finish_extraction, finish_reception,
}
use r.Tcp.Sizes.{IsBufferSize, IsRequest, extraction_rounds-Requests}
use r.Tcp.Received.{to_transfer_bounds, resize_buffers_bounds}

-- A read that fits the reception buffer.
abbrev pub FitsRead : ℕ → Option ℕ → Type 0
FitsRead size none = Unit {0}
FitsRead size (some request) = (1 ≤ request) × (request ≤ size)

-- The handler throws, or reads out of range, or leaves buffers and a next read of proper sizes.
abbrev pub LeavesSizes : Option (Outcome (TcpLink × Option ℕ)) → Type 0
LeavesSizes none = Unit {0}
LeavesSizes (some (done (t, request))) =
    IsBufferSize t.reception_size × FitsRead t.reception_size request
LeavesSizes (some fault) = Unit {0}
LeavesSizes (some (threw e)) = Unit {0}

module _ (clock : ℕ → ℕ) (fuel : ℕ) where
  finish-LeavesSizes :
      (buffer : Buffer) (size : ℕ) (r : Option (Outcome Progress))
      → IsBufferSize size
      → EndsWith (λ (p : Progress). IsRequest p.full_scan_size) r
      → LeavesSizes
          (elim (elim r as (λ _. Option (Outcome Extracted)) [
            | none ↦ none
            | some o ↦ some (finish_extraction size o)
          ]) [ none ↦ none | some x ↦ some (finish_reception buffer size x) ])
  unfolding finish_extraction finish_reception
  finish-LeavesSizes buffer size none valid h = tt
  finish-LeavesSizes buffer size (some (done p)) valid h =
      let (bounded, grown) = resize_buffers_bounds p.full_scan_size size h valid in
      let (least, most) = to_transfer_bounds p.missing size (omega arith) in
      (bounded, (least, omega arith))
  finish-LeavesSizes buffer size (some fault) valid h = tt
  finish-LeavesSizes buffer size (some (threw e)) valid h = tt

  pub on_bytes_received-LeavesSizes :
      (reception : Reception) (t : TcpLink)
      → IsBufferSize t.reception_size
      → LeavesSizes (on_bytes_received clock fuel reception t)
  unfolding on_bytes_received try_extracting_scan
  on_bytes_received-LeavesSizes error_code t valid = (valid, tt)
  on_bytes_received-LeavesSizes (bytes received) t valid =
      finish-LeavesSizes (t.extraction_buffer ++ received) t.reception_size _ valid
        (extraction_rounds-Requests clock (t.extraction_buffer ++ received) fuel _ tt)

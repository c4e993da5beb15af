-- ===== src/Tcp/Unmixed.antt =====
-- The handler of received bytes of src/DataLink/TCPLink.cpp never publishes a scan that mixes the packets
-- of two scans.
use r.Base.{ℕ, List, length, ◌++◌, Option, none, some, Outcome, done, fault, threw}
use r.Wire.{Buffer}
use r.Scan.Tcp.{tcp_factory}
use r.Scan.Lawful.{tcp_factory-IsScanFactory}
use r.Extract.OneScan.{IsOneScan, extract_scan_packet-HoldsOneScan, factory_left-HoldsOneScan}
use r.Extract.Rounds.{extraction_rounds, rounds_left}
use r.Extract.Rounds.Invariant.{EndsWith, extraction_rounds-Ends_leaving, rounds_left-keeps}
use r.Link.Unmixed.{IsUnmixed, publish-IsUnmixed, fire_connection_lost-IsUnmixed}
use r.Tcp.{
  Progress, TcpLink, left_by_exception, Reception, bytes, error_code, tcp_rounds, after_extraction,
  try_extracting_scan, on_bytes_received, finish_extraction, finish_reception, Extracted,
}

abbrev pub IsUnmixedLink : TcpLink → Type 0
IsUnmixedLink t = IsUnmixed tcp_factory t.link

-- The handler throws, or reads out of range, or has left a link of which `I` holds; `none` is a loop
-- that has not ended on its fuel.
abbrev pub LeavesLink : (TcpLink → Type 0) → Option (Outcome (TcpLink × Option ℕ)) → Type 0
LeavesLink I none = Unit {0}
LeavesLink I (some (done (t, request))) = I t
LeavesLink I (some fault) = Unit {0}
LeavesLink I (some (threw e)) = Unit {0}

module _ (clock : ℕ → ℕ) (fuel : ℕ) where
  rounds_left-IsUnmixed :
      (buffer : Buffer) (p : Progress)
      → IsUnmixed tcp_factory p.link
      → IsUnmixed tcp_factory (rounds_left (tcp_rounds clock) buffer fuel p).link
  unfolding after_extraction
  rounds_left-IsUnmixed buffer =
      rounds_left-keeps (tcp_rounds clock) (λ (q : Progress). IsUnmixed tcp_factory q.link)
        (λ f. IsOneScan (tcp_factory.get_headers f)) buffer
        (λ p u.
          extract_scan_packet-HoldsOneScan tcp_factory tcp_factory-IsScanFactory buffer _ _ _
            u.assembling)
        (λ p x f u one.
          publish-IsUnmixed tcp_factory tcp_factory-IsScanFactory clock p.link f u one)
        fuel

  rounds-IsUnmixed :
      (buffer : Buffer) (p : Progress)
      → IsUnmixed tcp_factory p.link
      → EndsWith
          (λ (q : Progress). IsUnmixed tcp_factory q.link)
          (extraction_rounds (tcp_rounds clock) buffer fuel p)
  unfolding after_extraction
  rounds-IsUnmixed buffer =
      extraction_rounds-Ends_leaving (tcp_rounds clock)
        (λ (q : Progress). IsUnmixed tcp_factory q.link)
        (λ f. IsOneScan (tcp_factory.get_headers f)) buffer
        (λ p u.
          extract_scan_packet-HoldsOneScan tcp_factory tcp_factory-IsScanFactory buffer _ _ _
            u.assembling)
        (λ p x f u one.
          publish-IsUnmixed tcp_factory tcp_factory-IsScanFactory clock p.link f u one)
        fuel

  -- Where an exception leaves the handler, they are so as well.
  pub left_by_exception-IsUnmixed :
      (received : List ℕ) (t : TcpLink)
      → IsUnmixedLink t
      → IsUnmixedLink (left_by_exception clock fuel received t)
  unfolding left_by_exception
  left_by_exception-IsUnmixed received t u =
      let buffer = t.extraction_buffer ++ received in
      let start : Progress = record {
        position = 0;
        missing = 0;
        full_scan_size = none;
        link = t.link;
      } in
      let p = rounds_left (tcp_rounds clock) buffer fuel start in
      let v = rounds_left-IsUnmixed buffer start u in
      record {
        assembling =
            factory_left-HoldsOneScan tcp_factory tcp_factory-IsScanFactory buffer p.position
              (length buffer) p.link.scan_factory v.assembling;
        last = v.last;
        told = v.told;
      }

  finish :
      (buffer : Buffer) (size : ℕ) (r : Option (Outcome Progress))
      → EndsWith (λ (q : Progress). IsUnmixed tcp_factory q.link) r
      → LeavesLink IsUnmixedLink
          (elim (elim r as (λ _. Option (Outcome Extracted)) [
            | none ↦ none
            | some o ↦ some (finish_extraction size o)
          ]) [ none ↦ none | some x ↦ some (finish_reception buffer size x) ])
  unfolding finish_extraction finish_reception
  finish buffer size none h = tt
  finish buffer size (some (done p)) h = h
  finish buffer size (some fault) h = tt
  finish buffer size (some (threw e)) h = tt

  -- Whatever bytes or errors a link receives: where the packets it is assembling are those of a single
  -- scan, and so are those of its last scan and of each scan that its callbacks were told of, they are
  -- so once the handler has returned.
  pub on_bytes_received-IsUnmixed :
      (r : Reception) (t : TcpLink)
      → IsUnmixedLink t
      → LeavesLink IsUnmixedLink (on_bytes_received clock fuel r t)
  unfolding on_bytes_received try_extracting_scan
  on_bytes_received-IsUnmixed error_code t u = fire_connection_lost-IsUnmixed tcp_factory t.link u
  on_bytes_received-IsUnmixed (bytes received) t u =
      finish (t.extraction_buffer ++ received) t.reception_size _
        (rounds-IsUnmixed (t.extraction_buffer ++ received) _ u)

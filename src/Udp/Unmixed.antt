-- ===== src/Udp/Unmixed.antt =====
-- The handler of datagrams of src/DataLink/UDPLink.cpp never publishes a scan that mixes the packets of
-- two scans.
use r.Base.{ℕ, Bool, ◌++◌, Option, none, some, Outcome, done, fault, threw}
use r.Wire.{Buffer}
use r.Scan.Udp.{udp_factory}
use r.Scan.Lawful.{udp_factory-IsScanFactory}
use r.Extract.OneScan.{IsOneScan, extract_scan_packet-HoldsOneScan}
use r.Extract.Rounds.{extraction_rounds}
use r.Extract.Rounds.Invariant.{EndsWith, extraction_rounds-Ends_leaving}
use r.Link.Unmixed.{IsUnmixed, publish-IsUnmixed, fire_connection_lost-IsUnmixed}
use r.Udp.{
  Progress, UdpLink, Reception, bytes, error_code, udp_rounds, after_extraction,
  try_extracting_scan, on_bytes_received, finish_reception,
}

abbrev pub IsUnmixedLink : UdpLink → Type 0
IsUnmixedLink u = IsUnmixed udp_factory u.link

-- The handler throws, or reads out of range, or has left a link of which `I` holds; `none` is a loop
-- that has not ended on its fuel.
abbrev pub LeavesLink : (UdpLink → Type 0) → Option (Outcome (UdpLink × Bool)) → Type 0
LeavesLink I none = Unit {0}
LeavesLink I (some (done (u, receives))) = I u
LeavesLink I (some fault) = Unit {0}
LeavesLink I (some (threw e)) = Unit {0}

module _ (clock : ℕ → ℕ) (fuel : ℕ) where
  rounds-IsUnmixed :
      (buffer : Buffer) (p : Progress)
      → IsUnmixed udp_factory p.link
      → EndsWith
          (λ (q : Progress). IsUnmixed udp_factory q.link)
          (extraction_rounds (udp_rounds clock) buffer fuel p)
  unfolding after_extraction
  rounds-IsUnmixed buffer =
      extraction_rounds-Ends_leaving (udp_rounds clock)
        (λ (q : Progress). IsUnmixed udp_factory q.link)
        (λ f. IsOneScan (udp_factory.get_headers f)) buffer
        (λ p u.
          extract_scan_packet-HoldsOneScan udp_factory udp_factory-IsScanFactory buffer _ _ _
            u.assembling)
        (λ p x f u one.
          publish-IsUnmixed udp_factory udp_factory-IsScanFactory clock p.link f u one)
        fuel

  finish :
      (buffer : Buffer) (r : Option (Outcome Progress))
      → EndsWith (λ (q : Progress). IsUnmixed udp_factory q.link) r
      → LeavesLink IsUnmixedLink
          (elim r [ none ↦ none | some x ↦ some (finish_reception buffer x) ])
  unfolding finish_reception
  finish buffer none h = tt
  finish buffer (some (done p)) h = h
  finish buffer (some fault) h = tt
  finish buffer (some (threw e)) h = tt

  -- Whatever datagrams or errors a link receives: where the packets it is assembling are those of a
  -- single scan, and so are those of its last scan and of each scan that its callbacks were told of,
  -- they are so once the handler has returned.
  pub on_datagram_received-IsUnmixed :
      (r : Reception) (u : UdpLink)
      → IsUnmixedLink u
      → LeavesLink IsUnmixedLink (on_bytes_received clock fuel r u)
  unfolding on_bytes_received try_extracting_scan
  on_datagram_received-IsUnmixed error_code u h =
      fire_connection_lost-IsUnmixed udp_factory u.link h
  on_datagram_received-IsUnmixed (bytes received) u h =
      finish (u.extraction_buffer ++ received) _
        (rounds-IsUnmixed (u.extraction_buffer ++ received) _ h)

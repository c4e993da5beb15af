-- ===== src/Udp/Received.antt =====
-- The constructor and `onBytesReceived` of src/DataLink/UDPLink.cpp.
use r.Base.{
  ℕ, ◌-◌, ◌^◌, ◌≤◌, ◌<◌, ◌≡◌, refl, sym, arith, Bool, true, false, not, List, ◌++◌, map, length,
  drop, drop-past, All, Option, none, some, Outcome, done, fault, threw, runtime_error, ◌==◌,
  Bool-cases, inl, inr,
}
use r.Wire.{Buffer, IsByte, Header}
use r.Extract.Empty.{Stalls}
use r.Extract.Rounds.{extraction_rounds}
use r.Extract.Rounds.Ends.{
  Advances, returns, reads_out_of_range, throws, extraction_rounds-LoopEnds,
  extraction_rounds-stuck,
}
use r.Link.{connection_lost, fire_connection_lost}
use r.Udp.{
  Progress, UdpLink, bytes, error_code, udp_rounds, after_extraction, try_extracting_scan,
  finish_reception, remove_used_byte_range, on_bytes_received, Setup, setup_failed, make_link,
}

remove_used_byte_range-drop :
    (position : ℕ) (buffer : Buffer) → remove_used_byte_range position buffer ≡ drop position buffer
unfolding remove_used_byte_range
remove_used_byte_range-drop position buffer = elim (Bool-cases (length buffer - position == 0)) [
  | inl all ↦ rw all (sym (drop-past position buffer (ground arith)))
  | inr some_left ↦ rw some_left
]

module _ (clock : ℕ → ℕ) (fuel : ℕ) (received : List ℕ) (u : UdpLink) where
  abbrev buffer : Buffer
  buffer = u.extraction_buffer ++ received

  abbrev start : Progress
  start = record { position = 0; link = u.link }

  -- How the handler of a datagram ends, where `p` is what the extraction loop leaves.
  pub data ReceptionEnds (r : Option (Outcome (UdpLink × Bool))) : Type 0 where
    receives_on :
        (p : Progress) (u' : UdpLink)
        → extraction_rounds (udp_rounds clock) buffer fuel start ≡ some (done p)
        → r ≡ some (done (u', true))
        → u'.link ≡ p.link
        → p.position ≤ length buffer
        → u'.extraction_buffer ≡ drop p.position buffer
        → ReceptionEnds r
    overreads : r ≡ some fault → ReceptionEnds r
    throws_out : r ≡ some (threw runtime_error) → ReceptionEnds r

  pub received_by_loop :
      (r : Outcome Progress)
      → extraction_rounds (udp_rounds clock) buffer fuel start ≡ some r
      → on_bytes_received clock fuel (bytes received) u ≡ some (finish_reception buffer r)
  unfolding on_bytes_received try_extracting_scan
  received_by_loop r e = rw (e, on_bytes_received, try_extracting_scan)

  -- A datagram is received, where every header behind a magic in the bytes at hand announces a size
  -- that is not 0 and the fuel exceeds their number. The handler ends. Unless it throws on an
  -- unsupported packet type or reads out of range, it keeps of the bytes at hand exactly
  -- those behind the position at which the extraction loop ended, the link becomes the one that the
  -- loop left, and a further receive is started.
  pub on_datagram_received-ReceptionEnds :
      All IsByte buffer
      → length buffer < 2 ^ 32
      → Advances buffer
      → length buffer < fuel
      → ReceptionEnds (on_bytes_received clock fuel (bytes received) u)
  unfolding finish_reception after_extraction
  on_datagram_received-ReceptionEnds all small advances enough =
      elim (extraction_rounds-LoopEnds (udp_rounds clock) buffer (λ p x f. refl) small all advances
        fuel start (omega arith) (omega arith)) [
          | returns p e lo hi ↦
              rw (received_by_loop (done p) e)
                (receives_on p _ e refl refl hi (remove_used_byte_range-drop p.position buffer))
          | reads_out_of_range e ↦ rw (received_by_loop fault e) (overreads refl)
          | throws e ↦ rw (received_by_loop (threw runtime_error) e) (throws_out refl)
        ]

  -- Where the bytes at hand, fewer than 2^32, begin with a header of a known type that announces a
  -- header size, a packet size and a number of points of 0, the handler of the datagram never ends.
  pub on_datagram_received-stuck :
      (h : Header)
      → length buffer < 2 ^ 32
      → Stalls buffer 0 h
      → on_bytes_received clock fuel (bytes received) u ≡ none
  unfolding on_bytes_received try_extracting_scan after_extraction
  on_datagram_received-stuck h small s =
      let e =
        extraction_rounds-stuck (udp_rounds clock) buffer (λ p x f. refl) small h 0 fuel start refl
          s in
      rw (e, on_bytes_received, try_extracting_scan)

-- After the constructor the link is connected exactly if none of the three steps of the socket's setup
-- met an error, and a receive is started exactly if the link is connected. After an error of a later
-- transfer the link is not connected, every connection-lost callback has been invoked once, and no
-- further receive is started.
pub is_connected-after_errors :
    (s : Setup) (clock : ℕ → ℕ) (fuel : ℕ) (u : UdpLink)
    → let made = make_link s in
      (made.0.link.is_connected ≡ made.1)
      × (made.1 ≡ not (setup_failed s))
      × ((u' : UdpLink) × (on_bytes_received clock fuel error_code u ≡ some (done (u', false)))
          × (u'.link.is_connected ≡ false)
          × (u'.link.events ≡ u.link.events ++ map connection_lost u.link.on_connection_lost)
          × (u'.extraction_buffer ≡ u.extraction_buffer))
unfolding make_link on_bytes_received fire_connection_lost
is_connected-after_errors s clock fuel u = (refl, refl, (_, refl, refl, refl, refl))

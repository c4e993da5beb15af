-- ===== src/Tcp/Received.antt =====
-- `onBytesReceived` of src/DataLink/TCPLink.cpp.
use r.Base.{
  ℕ, ◌-◌, ◌^◌, ◌≤◌, ◌<◌, ◌≡◌, refl, sym, arith, false, List, ◌++◌, map, length, drop, drop-past,
  All, Option, none, some, Outcome, done, fault, threw, runtime_error, ◌==◌, Bool-cases, inl, inr,
}
use r.Wire.{Buffer, IsByte}
use r.Link.{fire_connection_lost, connection_lost}
use r.Tcp.{
  Progress, TcpLink, bytes, error_code, to_transfer, resize_buffers, tcp_rounds, after_extraction,
  try_extracting_scan, finish_extraction, finish_reception, remove_used_byte_range,
  on_bytes_received,
}
use r.Extract.Rounds.{extraction_rounds}
use r.Extract.Rounds.Ends.{
  Advances, returns, reads_out_of_range, throws, extraction_rounds-LoopEnds,
}
use r.Tcp.Sizes.{IsBufferSize, IsRequest, extraction_rounds-Requests}

pub remove_used_byte_range-drop :
    (position : ℕ) (buffer : Buffer) → remove_used_byte_range position buffer ≡ drop position buffer
unfolding remove_used_byte_range
remove_used_byte_range-drop position buffer = elim (Bool-cases (length buffer - position == 0)) [
  | inl all ↦ rw all (sym (drop-past position buffer (ground arith)))
  | inr some_left ↦ rw some_left
]

pub to_transfer_bounds :
    (missing capacity : ℕ)
    → 0 < capacity
    → (1 ≤ to_transfer missing capacity) × (to_transfer missing capacity ≤ capacity)
unfolding to_transfer
to_transfer_bounds missing capacity h = ground arith

pub resize_buffers_bounds :
    (request : Option ℕ) (size : ℕ)
    → IsRequest request
    → IsBufferSize size
    → IsBufferSize (resize_buffers request size) × (size ≤ resize_buffers request size)
unfolding resize_buffers
resize_buffers_bounds none size r h = (h, omega arith)
resize_buffers_bounds (some new_size) size r h = ground arith

module _ (clock : ℕ → ℕ) (fuel : ℕ) (received : List ℕ) (t : TcpLink) where
  abbrev buffer : Buffer
  buffer = t.extraction_buffer ++ received

  abbrev start : Progress
  start = record { position = 0; missing = 0; full_scan_size = none; link = t.link }

  -- How the handler of received bytes ends, where `p` is what the extraction loop leaves.
  pub data ReceptionEnds (r : Option (Outcome (TcpLink × Option ℕ))) : Type 0 where
    reads_on :
        (p : Progress) (t' : TcpLink) (request : ℕ)
        → extraction_rounds (tcp_rounds clock) buffer fuel start ≡ some (done p)
        → r ≡ some (done (t', some request))
        → t'.link ≡ p.link
        → p.position ≤ length buffer
        → t'.extraction_buffer ≡ drop p.position buffer
        → IsBufferSize t'.reception_size
        → t.reception_size ≤ t'.reception_size
        → 1 ≤ request
        → request ≤ t'.reception_size
        → ReceptionEnds r
    overreads : r ≡ some fault → ReceptionEnds r
    throws_out : r ≡ some (threw runtime_error) → ReceptionEnds r

  pub received_by_loop :
      (r : Outcome Progress)
      → extraction_rounds (tcp_rounds clock) buffer fuel start ≡ some r
      → on_bytes_received clock fuel (bytes received) t
        ≡ some (finish_reception buffer t.reception_size (finish_extraction t.reception_size r))
  unfolding on_bytes_received try_extracting_scan
  received_by_loop r e = rw (e, on_bytes_received, try_extracting_scan)

  finished :
      (p : Progress)
      → extraction_rounds (tcp_rounds clock) buffer fuel start ≡ some (done p)
      → IsRequest p.full_scan_size
      → IsBufferSize t.reception_size
      → p.position ≤ length buffer
      → ReceptionEnds (
          some (
            finish_reception buffer t.reception_size (finish_extraction t.reception_size (done p))))
  unfolding finish_reception finish_extraction
  finished p e asked valid inside =
      let (bounded, grown) = resize_buffers_bounds p.full_scan_size t.reception_size asked valid in
      let (least, most) = to_transfer_bounds p.missing t.reception_size (omega arith) in
      reads_on p _ (to_transfer p.missing t.reception_size) e refl refl inside
        (remove_used_byte_range-drop p.position buffer) bounded grown least (omega arith)

  -- Bytes are received into a link with a reception buffer of 4096 to 32768 bytes. The bytes at hand
  -- are fewer than 2^32, every header behind a magic in them announces a size that is not 0, and the
  -- fuel exceeds their number. The handler ends. Unless it throws or reads out of range,
  -- it keeps of the bytes at hand exactly those behind the position at which the extraction loop
  -- ended, the link becomes the one that the loop left, the reception buffer keeps its bounds and
  -- never shrinks, and the next read is for one byte at least and for no more than the buffer holds.
  pub on_bytes_received-ReceptionEnds :
      All IsByte buffer
      → length buffer < 2 ^ 32
      → Advances buffer
      → length buffer < fuel
      → IsBufferSize t.reception_size
      → ReceptionEnds (on_bytes_received clock fuel (bytes received) t)
  unfolding finish_reception finish_extraction after_extraction
  on_bytes_received-ReceptionEnds all small advances enough valid =
      elim (extraction_rounds-LoopEnds (tcp_rounds clock) buffer (λ p x f. refl) small all advances
        fuel start (omega arith) (omega arith)) [
          | returns p e lo hi ↦ rw (received_by_loop (done p) e) (
              finished p e (rw e at (extraction_rounds-Requests clock buffer fuel start tt)) valid
                hi)
          | reads_out_of_range e ↦ rw (received_by_loop fault e) (overreads refl)
          | throws e ↦ rw (received_by_loop (threw runtime_error) e) (throws_out refl)
        ]

-- After an error of the transfer the link is not connected, each connection-lost callback has been
-- invoked once, in the order of registration, and no further read is started; the buffers, the
-- factory and the last scan are as they were.
pub on_bytes_received-error_code :
    (clock : ℕ → ℕ) (fuel : ℕ) (t : TcpLink)
    → (t' : TcpLink) × (on_bytes_received clock fuel error_code t ≡ some (done (t', none)))
      × (t'.link.is_connected ≡ false)
      × (t'.link.events ≡ t.link.events ++ map connection_lost t.link.on_connection_lost)
      × (t'.extraction_buffer ≡ t.extraction_buffer)
      × (t'.reception_size ≡ t.reception_size)
      × (t'.link.scan_factory ≡ t.link.scan_factory)
      × (t'.link.last_scan_received ≡ t.link.last_scan_received)
unfolding on_bytes_received fire_connection_lost
on_bytes_received-error_code clock fuel t = (_, refl, refl, refl, refl, refl, refl, refl)

-- ===== src/Tests/Links.antt =====
-- The theorems about the links and their scans at concrete inputs.
use r.Base.{
  ℕ, ◌*◌, ◌≡◌, refl, arith, false, List, [], ◌∷◌, ◌++◌, done, some, none, All, Option, inl,
}
use r.Wire.{
  Buffer, Header, IsByte, from_byte_range, interpret_u16, interpret_u32, interpret_i32,
  interpret_u64,
}
use r.Wire.Words.{unsigned32}
use r.Wire.Layout.{encode_header, from_byte_range-encode_header}
use r.Scan.{Scan}
use r.Scan.Tcp.{TcpScanFactory, tcp_factory}
use r.Scan.Udp.{UdpScanFactory}
use r.Scan.Udp as UdpScans
use r.Scan.Udp.Arrival.{receive, empty_factory, output-receive_perm}
use mathlib.Core.List.{Permᴰ}
use r.Scan.Udp.Laws.{IsOrdered, scan_of, output_sorted}
use r.Extract.Empty.{Stalls}
use r.Extract.Rounds.{extraction_rounds}
use r.Extract.Rounds.Ends.{
  Advances, advances_below, advances_below-Advances, LoopEnds, extraction_rounds-LoopEnds,
  extraction_rounds-stuck,
}
use r.Link.{DataLink, initial_link}
use r.Link.Watchdog.{watchdog_task, watchdog_task-silent}
use r.Tcp.{Progress, TcpLink, tcp_rounds, after_extraction, on_bytes_received, bytes}
use r.Tcp.Received.{ReceptionEnds, on_bytes_received-ReceptionEnds}
use r.Udp as Datagrams
use r.Device.{RequestResult, success, failed, timeout, same_result, underlying_type}
use mathlib.Core.List.{Perm}
use r.Tests.{header, first_header, second_header, stream, no_scan, stream_bytes}

abbrev clock : ℕ → ℕ
clock n = 1000 * n

abbrev listening : DataLink TcpScanFactory
listening = record (initial_link no_scan) { on_new_scan = 1 ∷ 2 ∷ []; on_connection_lost = 3 ∷ [] }

abbrev tcp_link : TcpLink
tcp_link = record { link = listening; reception_size = 4096; extraction_buffer = 9 ∷ [] }

abbrev received : List ℕ
received = [] ++ stream

stream-Advances : Advances (9 ∷ stream)
unfolding advances_below from_byte_range interpret_u16 interpret_u32 interpret_i32 interpret_u64
    unsigned32
stream-Advances = advances_below-Advances (9 ∷ stream) refl

received_bytes : All IsByte (9 ∷ stream)
received_bytes = (omega arith, stream_bytes)

on_bytes_received-ReceptionEnds_example :
    ReceptionEnds clock 200 stream tcp_link (on_bytes_received clock 200 (bytes stream) tcp_link)
on_bytes_received-ReceptionEnds_example =
    on_bytes_received-ReceptionEnds clock 200 stream tcp_link received_bytes (omega arith)
      stream-Advances (omega arith) (omega arith, omega arith)

abbrev udp_link : Datagrams.UdpLink
udp_link = record {
  link = initial_link (record { packets = []; number_of_points = 0 });
  extraction_buffer = 9 ∷ [];
}

abbrev start : Progress
start = record { position = 1; missing = 0; full_scan_size = none; link = listening }

extraction_rounds-LoopEnds_example :
    LoopEnds
      (tcp_rounds clock)
      (9 ∷ stream)
      1
      (extraction_rounds (tcp_rounds clock) (9 ∷ stream) 200 start)
unfolding after_extraction
extraction_rounds-LoopEnds_example =
    extraction_rounds-LoopEnds (tcp_rounds clock) (9 ∷ stream) (λ p x f. refl) (omega arith)
      received_bytes stream-Advances 200 start (omega arith) (omega arith)

-- A packet of no bytes.
abbrev empty_header : Header
empty_header = record (header 0x0041 0 1 0) { header_size = 0 }

abbrev stuck : Buffer
stuck = encode_header empty_header (0 ∷ 0 ∷ 0 ∷ 0 ∷ [])

empty_header-reads : from_byte_range stuck 0 ≡ done empty_header
empty_header-reads =
    from_byte_range-encode_header stuck 0 empty_header
      (record {
        magic_fits = omega arith;
        packet_type_fits = omega arith;
        packet_size_fits = omega arith;
        header_size_fits = omega arith;
        scan_number_fits = omega arith;
        packet_number_fits = omega arith;
        timestamp_raw_fits = omega arith;
        timestamp_sync_fits = omega arith;
        status_flags_fits = omega arith;
        scan_frequency_fits = omega arith;
        num_points_scan_fits = omega arith;
        num_points_packet_fits = omega arith;
        first_index_fits = omega arith;
        first_angle_fits = omega arith;
        angular_increment_fits = omega arith;
        iq_input_fits = omega arith;
        iq_overload_fits = omega arith;
        iq_timestamp_raw_fits = omega arith;
        iq_timestamp_sync_fits = omega arith;
      })
      refl

stuck-Stalls : Stalls stuck 0 empty_header
stuck-Stalls = record {
  enough = omega arith;
  magic = record { low_byte = refl; high_byte = refl };
  reads = empty_header-reads;
  known_type = inl refl;
  no_header = refl;
  no_payload = refl;
  no_points_packet = refl;
}

extraction_rounds-stuck_example :
    extraction_rounds (tcp_rounds clock) stuck 1000 (record start { position = 0 }) ≡ none
unfolding after_extraction
extraction_rounds-stuck_example =
    extraction_rounds-stuck (tcp_rounds clock) stuck (λ p x f. refl) (omega arith) empty_header 0
      1000 (record start { position = 0 }) refl stuck-Stalls

abbrev out_of_order : UdpScanFactory
out_of_order = record {
  packets =
      record { header = second_header; distances = 77 ∷ []; amplitudes = 0 ∷ [] }
      ∷ record { header = first_header; distances = 1234 ∷ 0 ∷ []; amplitudes = 0 ∷ 0 ∷ [] }
      ∷ [];
  number_of_points = 3;
}

output_sorted_example :
    (sorted : List UdpScans.Packet) × Perm sorted out_of_order.packets
    × IsOrdered sorted
    × ((UdpScans.output 5 out_of_order).0 ≡ scan_of sorted 5)
    × ((UdpScans.output 5 out_of_order).1 ≡ record { packets = []; number_of_points = 0 })
output_sorted_example = output_sorted 5 out_of_order

abbrev first_arrival : UdpScans.Packet
first_arrival = record { header = second_header; distances = 77 ∷ []; amplitudes = 0 ∷ [] }

abbrev second_arrival : UdpScans.Packet
second_arrival = record {
  header = first_header;
  distances = 1234 ∷ 0 ∷ [];
  amplitudes = 0 ∷ 0 ∷ [];
}

output-receive_perm_example :
    (UdpScans.is_complete (receive (first_arrival ∷ second_arrival ∷ []) empty_factory)
      ≡ UdpScans.is_complete (receive (second_arrival ∷ first_arrival ∷ []) empty_factory))
    × (UdpScans.output 5 (receive (first_arrival ∷ second_arrival ∷ []) empty_factory)
        ≡ UdpScans.output 5 (receive (second_arrival ∷ first_arrival ∷ []) empty_factory))
output-receive_perm_example =
    output-receive_perm 3 5 (first_arrival ∷ second_arrival ∷ [])
      (second_arrival ∷ first_arrival ∷ []) (Permᴰ.swap refl refl)
      (((λ e. absurd (omega (arith, e))), tt), (tt, tt)) (refl, (refl, tt))

abbrev scan : Scan
scan = record {
  distances = 1234 ∷ [];
  amplitudes = 0 ∷ [];
  headers = first_header ∷ [];
  timestamp = 5;
}

abbrev fed : List (Option RequestResult)
fed = some timeout ∷ some success ∷ none ∷ some failed ∷ []

watchdog_task-silent_example :
    ((watchdog_task (none ∷ some timeout ∷ none ∷ some failed ∷ []) listening).is_connected ≡ false)
    × ((watchdog_task (none ∷ some timeout ∷ none ∷ some failed ∷ []) listening).events
        ≡ listening.events)
watchdog_task-silent_example =
    watchdog_task-silent (some timeout ∷ none ∷ some failed ∷ []) listening
      (unfold same_result in unfold underlying_type in refl)

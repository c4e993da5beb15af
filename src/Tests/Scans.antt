-- ===== src/Tests/Scans.antt =====
-- A scan that arrives whole, at two packets that make up a scan of three points.
use r.Base.{
  ℕ, ◌*◌, ◌^◌, ◌<◌, ◌≡◌, refl, arith, false, inl, inr, List, [], ◌∷◌, ◌++◌, map, some, done, ◌==◌,
}
use r.Scan.Udp.{UdpScanFactory}
use r.Scan.Udp.Arrival.{receive, empty_factory}
use r.Udp.Datagrams.{packet_of, at_rest, zeroed}
use r.Scan.{Scan}
use r.Scan.Udp.Laws.{IsSortedScan}
use r.Udp.WholeScan.{on_datagrams, on_datagrams-IsSortedScan, on_datagrams-late}
use r.Udp.WholeScan as Datagrams
use r.Extract.Rounds.Stream.{Sent, IsSent}
use r.Link.{DataLink, initial_link}
use r.Tcp.{TcpLink, on_bytes_received, bytes}
use r.Tcp.Parts.{IsPart, IsLaterPart}
use r.Tcp.WholeScan.{scan_of, published, on_bytes_received-scan_of}
use r.Tests.{
  header, padding, first_header, second_header, first_payload, second_payload, first_packet,
  second_packet, header-FitsWire, first_packet-Describes,
}

abbrev clock : ℕ → ℕ
clock n = 1000 * n

-- The link holds a packet of a scan that was never finished.
abbrev receiver : TcpLink
receiver = record {
  link =
      record (initial_link
        (record { distances = 8 ∷ []; amplitudes = 0 ∷ []; headers = first_header ∷ [] })) {
          on_new_scan = 1 ∷ 2 ∷ [];
        };
  reception_size = 4096;
  extraction_buffer = [];
}

abbrev first_sent : Sent
first_sent = record { header = first_header; padding = padding; payload = first_payload }

abbrev second_sent : Sent
second_sent = record { header = second_header; padding = padding; payload = second_payload }

first_sent-IsSent : IsSent first_sent
first_sent-IsSent = record {
  describes = first_packet-Describes;
  fits = (omega arith, (omega arith, tt));
  long_enough = omega arith;
}

second_sent-IsSent : IsSent second_sent
second_sent-IsSent = record {
  describes = record {
    fields = header-FitsWire 0x0041 84 2 1 (omega arith) (omega arith) (omega arith) (omega arith);
    magic = refl;
    same_type = refl;
    header_length = refl;
    packet_length = refl;
    same_count = refl;
  };
  fits = (omega arith, tt);
  long_enough = omega arith;
}

first_sent-IsPart : IsPart 3 7 first_sent
first_sent-IsPart = record { same_scan = refl; same_size = refl; has_points = omega arith }

second_sent-IsLaterPart : IsLaterPart 3 7 second_sent
second_sent-IsLaterPart = record {
  is_part = record { same_scan = refl; same_size = refl; has_points = omega arith };
  not_first = refl;
}

abbrev arriving : List ℕ
arriving = first_packet (second_packet (0x5c ∷ []))

on_bytes_received-scan_of_example :
    (t' : TcpLink) × (on_bytes_received clock 3 (bytes arriving) receiver
      ≡ some (done (t', some 4096)))
    × (t'.link ≡ published (scan_of (first_sent ∷ second_sent ∷ []) 0) receiver.link)
    × (t'.extraction_buffer ≡ [])
unfolding initial_link
on_bytes_received-scan_of_example =
    on_bytes_received-scan_of clock receiver arriving first_sent (second_sent ∷ []) (0x5c ∷ []) 3 7
      3 refl (omega arith) (omega arith) (first_sent-IsSent, (second_sent-IsSent, tt)) refl
      first_sent-IsPart (second_sent-IsLaterPart, tt) refl (inr refl) (omega arith)

-- A packet of one point.
abbrev one_point : ℕ → Sent
one_point number = record {
  header = header 0x0041 84 number 1;
  padding = padding;
  payload = second_payload;
}

one_point-IsSent : (number : ℕ) → number < 2 ^ 16 → IsSent (one_point number)
one_point-IsSent number h = record {
  describes = record {
    fields = header-FitsWire 0x0041 84 number 1 (omega arith) (omega arith) h (omega arith);
    magic = refl;
    same_type = refl;
    header_length = refl;
    packet_length = refl;
    same_count = refl;
  };
  fits = (omega arith, tt);
  long_enough = omega arith;
}

one_point-IsPart : (number : ℕ) → IsPart 3 7 (one_point number)
one_point-IsPart number = record { same_scan = refl; same_size = refl; has_points = omega arith }

one_point-IsLaterPart : (number : ℕ) → (number == 1) ≡ false → IsLaterPart 3 7 (one_point number)
one_point-IsLaterPart number h = record { is_part = one_point-IsPart number; not_first = h }

abbrev listening : DataLink UdpScanFactory
listening = record (initial_link empty_factory) { on_new_scan = 1 ∷ 2 ∷ [] }

on_datagrams-IsSortedScan_example :
    (scan : Scan) × IsSortedScan
      (map packet_of (one_point 1 ∷ one_point 3 ∷ one_point 2 ∷ []))
      (clock listening.scan_counter)
      scan
    × (on_datagrams clock 2 (one_point 1 ∷ one_point 3 ∷ one_point 2 ∷ []) (zeroed 98302 listening)
        ≡ some (done (at_rest (Datagrams.published scan listening))))
unfolding initial_link
on_datagrams-IsSortedScan_example =
    on_datagrams-IsSortedScan clock 2 3 7 98302 (one_point 1) (one_point 3 ∷ one_point 2 ∷ [])
      listening (omega arith) (omega arith) refl (one_point-IsPart 1)
      (one_point-IsLaterPart 3 refl, (one_point-IsLaterPart 2 refl, tt))
      (
        (one_point-IsSent 1 (omega arith), omega arith),
        (
          (one_point-IsSent 3 (omega arith), omega arith),
          ((one_point-IsSent 2 (omega arith), omega arith), tt),
        ),
      )
      (omega arith) refl (inl refl)

on_datagrams-late_example :
    on_datagrams clock 2 ((one_point 2 ∷ []) ++ one_point 1 ∷ one_point 3 ∷ []) (zeroed 0 listening)
    ≡ some (
        done (
          at_rest (record listening {
            scan_factory = receive (map packet_of (one_point 1 ∷ one_point 3 ∷ [])) empty_factory;
          })))
unfolding initial_link
on_datagrams-late_example =
    on_datagrams-late clock 2 3 7 0 (one_point 1) (one_point 3 ∷ []) listening (omega arith)
      (omega arith) refl (one_point-IsPart 1) (one_point-IsLaterPart 3 refl, tt) (one_point 2) []
      (one_point-IsLaterPart 2 refl) tt ((one_point-IsSent 2 (omega arith), omega arith), tt)
      (omega arith)
      (
        (one_point-IsSent 1 (omega arith), omega arith),
        ((one_point-IsSent 3 (omega arith), omega arith), tt),
      )
      (omega arith) (omega arith) refl

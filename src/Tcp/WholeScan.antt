-- ===== src/Tcp/WholeScan.antt =====
-- A scan that arrives whole: `onBytesReceived` of src/DataLink/TCPLink.cpp where the bytes at hand are
-- the packets of one scan.
use r.Base.{
  ℕ, ◌+◌, ◌-◌, ◌%◌, ◌^◌, ◌≤◌, ◌<◌, ◌≡◌, refl, ◌∙◌, ap, arith, true, false, List, [], ◌∷◌, ◌++◌, map,
  length, All, ◌⊎◌, none, some, done, ◌==◌, eq→==,
}
use r.Wire.{Buffer, sizeof_header}
use r.Scan.{Scan, is_empty}
use r.Scan.Tcp.{TcpScanFactory, tcp_factory, clear, is_complete, factory_empty, output}
use r.Extract.{reset_for}
use r.Extract.Rounds.Stream.{
  Sent, IsSent, encode_stream, after_packet, after_stream, after_rest,
  extraction_rounds-encode_stream,
}
use r.Link.{DataLink, publish, new_scan, set_output_scan, fire_scan_available}
use r.Tcp.{
  Progress, TcpLink, tcp_rounds, after_extraction, on_bytes_received, bytes, finish_reception,
  finish_extraction, to_transfer, remove_used_byte_range,
}
use r.Tcp.Received.{received_by_loop}
use r.Tcp.Parts.{
  InScan, IsLaterPart, IsPart, add, add-InScan, add-InScan_first, add_all, add_all-InScan,
  add_all_lem, amplitudes_of, distances_of, leb-false, length-add_all, no_packets, pieces,
  reset_for-first, reset_for-later, total_points,
}

-- The scan that the packets make up.
abbrev pub scan_of : List Sent → ℕ → Scan
scan_of xs now = record {
  distances = pieces distances_of xs;
  amplitudes = pieces amplitudes_of xs;
  headers = map (λ (x : Sent). x.header) xs;
  timestamp = now;
}

-- The link once it has published a scan.
abbrev pub published : Scan → DataLink TcpScanFactory → DataLink TcpScanFactory
published scan link = record link {
  scan_factory = no_packets;
  last_scan_received = scan;
  scan_counter = (link.scan_counter + 1) % 2 ^ 64;
  events = link.events ++ map (λ c. new_scan c scan) link.on_new_scan;
}

module _ (clock : ℕ → ℕ) where
  -- The link once a packet has been added to its factory.
  abbrev given : TcpScanFactory → DataLink TcpScanFactory → DataLink TcpScanFactory
  given f link = publish tcp_factory clock (record link { scan_factory = f })

  not_yet :
      (n k : ℕ) (f : TcpScanFactory) (link : DataLink TcpScanFactory)
      → InScan n k f
      → length f.distances < n
      → given f link ≡ record link { scan_factory = f }
  unfolding publish is_complete factory_empty
  not_yet n k f link s few =
      rw (s.some_packets, s.front (length f.distances), leb-false n (length f.distances) few)

  at_last :
      (n k : ℕ) (f : TcpScanFactory) → InScan n k f → n ≤ length f.distances → is_complete f ≡ true
  unfolding is_complete factory_empty
  at_last n k f s enough = rw (s.some_packets, s.front (length f.distances)) (ground arith)

  after_packet-link :
      (x : Sent) (p : Progress) (f : TcpScanFactory)
      → reset_for tcp_factory x.header p.link.scan_factory ≡ f
      → (after_packet (tcp_rounds clock) x p).link ≡ given (add x f) p.link
  unfolding after_extraction
  after_packet-link x p f e = rw e

  later_packets :
      (n k : ℕ) (xs : List Sent) (p : Progress) (f : TcpScanFactory)
      (link : DataLink TcpScanFactory)
      → p.link ≡ given f link
      → InScan n k f
      → All (IsLaterPart n k) xs
      → length f.distances + total_points xs ≡ n
      → (after_stream (tcp_rounds clock) xs p).link ≡ given (add_all xs f) link
  later_packets n k [] p f link e s later total = e
  later_packets n k (x ∷ xs) p f link e s (l, later) total =
      let quiet : p.link ≡ record link { scan_factory = f } =
        e ∙ not_yet n k f link s (omega (arith, l.is_part.has_points)) in
      let kept =
        ap (λ (q : DataLink TcpScanFactory). reset_for tcp_factory x.header q.scan_factory) quiet
        ∙ reset_for-later n k x f l s in
      later_packets n k xs (after_packet (tcp_rounds clock) x p) (add x f) link
        (after_packet-link x p f kept ∙ ap (given (add x f)) quiet) (add-InScan n k x f l.is_part s)
        later (omega (arith, length-add_all (x ∷ []) f))

  given_complete :
      (xs : List Sent) (link : DataLink TcpScanFactory)
      → is_complete (add_all xs no_packets) ≡ true
      → given (add_all xs no_packets) link ≡ published (scan_of xs (clock link.scan_counter)) link
  unfolding publish set_output_scan fire_scan_available output clear
  given_complete xs link e = rw (e, add_all_lem xs no_packets)

  rest_published :
      (buffer : Buffer) (scan : Scan) (link : DataLink TcpScanFactory) (p : Progress)
      → p.link ≡ published scan link
      → (after_rest (tcp_rounds clock) buffer p).link ≡ published scan link
  unfolding after_extraction publish is_complete factory_empty
  rest_published buffer scan link p e = rw e

  -- The bytes at hand are the packets of one scan, from its first packet to its last, and fewer than 80
  -- bytes behind them: each packet well formed and of 80 bytes at least, each of the same scan and with
  -- a point at least, only the first of them with the number 1, and all of them together with as many
  -- points as each header announces for the scan. Whatever unfinished scan the factory held before,
  -- with more fuel than there are packets the handler publishes that scan once: the points and headers
  -- of all packets in their order become the last scan, the scan is counted, and each callback is given
  -- it once. The factory and the extraction buffer are left empty, and the next read asks for as
  -- many bytes as the reception buffer held before.
  pub on_bytes_received-scan_of :
      (t : TcpLink) (received : List ℕ) (x : Sent) (xs : List Sent) (rest : List ℕ) (n k fuel : ℕ)
      → t.extraction_buffer ++ received ≡ encode_stream (x ∷ xs) rest
      → length (t.extraction_buffer ++ received) < 2 ^ 32
      → length rest < sizeof_header
      → All IsSent (x ∷ xs)
      → (x.header.packet_number == 1) ≡ true
      → IsPart n k x
      → All (IsLaterPart n k) xs
      → total_points (x ∷ xs) ≡ n
      → (t.link.scan_factory ≡ no_packets) ⊎ (is_empty t.link.scan_factory.headers ≡ false)
      → length (x ∷ xs) < fuel
      → (t' : TcpLink) × (on_bytes_received clock fuel (bytes received) t
          ≡ some (done (t', some t.reception_size)))
        × (t'.link ≡ published (scan_of (x ∷ xs) (clock t.link.scan_counter)) t.link)
        × (t'.extraction_buffer ≡ [])
  unfolding finish_reception finish_extraction to_transfer remove_used_byte_range after_extraction
  on_bytes_received-scan_of t received x xs rest n k fuel e small few sent first part later total
        held enough =
      let buffer = t.extraction_buffer ++ received in
      let start : Progress = record {
        position = 0;
        missing = 0;
        full_scan_size = none;
        link = t.link;
      } in
      let rounds = tcp_rounds clock in
      let ended =
        extraction_rounds-encode_stream rounds (λ p x f. refl) buffer (x ∷ xs) rest fuel start sent
          small (omega arith) e few enough in
      let begun =
        after_packet-link x start no_packets (reset_for-first x t.link.scan_factory first held) in
      let all =
        later_packets n k xs (after_packet rounds x start) (add x no_packets) t.link begun
          (add-InScan_first n k x part) later (omega (arith, length-add_all (x ∷ []) no_packets)) in
      let complete =
        at_last n k (add_all (x ∷ xs) no_packets)
          (add_all-InScan n k xs (add x no_packets) later (add-InScan_first n k x part))
          (omega (arith, length-add_all (x ∷ xs) no_packets)) in
      let scan = scan_of (x ∷ xs) (clock t.link.scan_counter) in
      let last =
        rest_published buffer scan t.link (after_stream rounds (x ∷ xs) start)
          (all ∙ given_complete (x ∷ xs) t.link complete) in
      (
        _,
        received_by_loop clock fuel received t _ ended,
        last,
        rw (eq→== (length buffer - length buffer) 0 (omega arith)),
      )

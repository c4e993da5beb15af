-- ===== src/Udp/Datagrams.antt =====
-- A datagram that holds one packet: `onBytesReceived` of src/DataLink/UDPLink.cpp.
use r.Base.{
  ℕ, zero, suc, replicate, ◌++◌, ◌≤◌, ◌+◌, ◌-◌, ◌^◌, ◌<◌, ◌≡◌, refl, ◌∙◌, ap, arith, true, false,
  Bool-cases, inl, inr, List, [], ◌∷◌, length, some, done, eq→==,
}
use r.Scan.Udp.{Packet, UdpScanFactory, udp_factory, output, clear, is_complete}
use r.Wire.{sizeof_header}
use r.Packet.Zeros.{length-zeros, drop-zeros}
use r.Extract.Zeros.{extraction_rounds-zeros}
use r.Extract.{reset_for}
use r.Extract.Whole.{length-encode_packet}
use r.Extract.Rounds.{extraction_rounds}
use r.Extract.Rounds.Stream.{Sent, IsSent, encode_stream, extraction_rounds-encode_stream}
use r.Link.{DataLink, publish, set_output_scan, fire_scan_available}
use r.Tcp.Parts.{distances_of, amplitudes_of}
use r.Udp.{
  Progress, UdpLink, bytes, udp_rounds, after_extraction, finish_reception, remove_used_byte_range,
  on_bytes_received,
}
use r.Udp.Received.{received_by_loop}

abbrev pub packet_of : Sent → Packet
packet_of x = record { header = x.header; distances = distances_of x; amplitudes = amplitudes_of x }

abbrev pub datagram : Sent → List ℕ
datagram x = encode_stream (x ∷ []) []

abbrev pub at_rest : DataLink UdpScanFactory → UdpLink
at_rest link = record { link = link; extraction_buffer = [] }

-- A new link has 98302 zero bytes in its extraction buffer.
abbrev pub zeroed : ℕ → DataLink UdpScanFactory → UdpLink
zeroed k link = record { link = link; extraction_buffer = replicate k 0 }

module _ (clock : ℕ → ℕ) where
  -- The link once the packet is in its factory, and published with it where it completes a scan.
  abbrev pub taken : Sent → DataLink UdpScanFactory → DataLink UdpScanFactory
  taken x link = publish udp_factory clock (record link {
    scan_factory =
        udp_factory.add_packet x.header (distances_of x) (amplitudes_of x)
          (reset_for udp_factory x.header link.scan_factory);
  })

  -- The link once its factory has been put out.
  abbrev pub put_out : DataLink UdpScanFactory → DataLink UdpScanFactory
  put_out link =
      let (scan, emptied) = output (clock link.scan_counter) link.scan_factory in
      set_output_scan scan (record link { scan_factory = emptied })

  pub publish_incomplete :
      (link : DataLink UdpScanFactory)
      → is_complete link.scan_factory ≡ false
      → publish udp_factory clock link ≡ link
  unfolding publish
  publish_incomplete link e = rw e

  pub publish_complete :
      (link : DataLink UdpScanFactory)
      → is_complete link.scan_factory ≡ true
      → publish udp_factory clock link ≡ put_out link
  unfolding publish
  publish_complete link e = rw e

  put_out-empty : (link : DataLink UdpScanFactory) → is_complete (put_out link).scan_factory ≡ false
  unfolding set_output_scan fire_scan_available output clear is_complete
  put_out-empty link = refl

  publish-publish :
      (link : DataLink UdpScanFactory)
      → publish udp_factory clock (publish udp_factory clock link) ≡ publish udp_factory clock link
  publish-publish link = elim (Bool-cases (is_complete link.scan_factory)) [
    | inl e ↦ rw (publish_complete link e) (publish_incomplete (put_out link) (put_out-empty link))
    | inr e ↦ rw (publish_incomplete link e) (publish_incomplete link e)
  ]

  -- The loop passes over zero bytes in front of a packet.
  rounds-zeros :
      (fuel k : ℕ) (ys : List ℕ) (link : DataLink UdpScanFactory)
      → sizeof_header ≤ length ys
      → k + length ys < 2 ^ 32
      → 1 < fuel
      → extraction_rounds
          (udp_rounds clock)
          (replicate k 0 ++ ys)
          fuel
          (record { position = 0; link = link })
        ≡ extraction_rounds
            (udp_rounds clock)
            (replicate k 0 ++ ys)
            fuel
            (record { position = k; link = link })
  unfolding after_extraction
  rounds-zeros zero k ys link long small enough = absurd (omega arith)
  rounds-zeros (suc fuel) k ys link long small enough =
      extraction_rounds-zeros (udp_rounds clock) fuel k ys (record { position = 0; link = link })
        (record { position = k; link = link }) long small refl refl refl (λ x. refl)

  pub on_bytes_received-datagram :
      (fuel k : ℕ) (x : Sent) (link : DataLink UdpScanFactory)
      → IsSent x
      → k + length (datagram x) < 2 ^ 32
      → 1 < fuel
      → on_bytes_received clock fuel (bytes (datagram x)) (zeroed k link)
        ≡ some (done (at_rest (taken x link), true))
  unfolding finish_reception remove_used_byte_range after_extraction
  on_bytes_received-datagram fuel k x link sent small enough =
      let start : Progress = record { position = k; link = link } in
      let rounds = udp_rounds clock in
      let buffer = replicate k 0 ++ datagram x in
      let n = length buffer in
      let total = length-zeros k (datagram x) in
      let long : sizeof_header ≤ length (datagram x) = omega (
        arith,
        sent.long_enough,
        length-encode_packet x.header x.padding x.payload [] sent.describes,
      ) in
      received_by_loop clock fuel (datagram x) (zeroed k link) _ (
        rounds-zeros fuel k (datagram x) link long small enough
        ∙ extraction_rounds-encode_stream rounds (λ p x f. refl) buffer (x ∷ []) [] fuel start
            (sent, tt) (omega (arith, total)) (omega (arith, total)) (drop-zeros k (datagram x))
            (omega arith) enough)
      ∙ rw (eq→== (n - n) 0 (omega arith))
          (ap (λ l. some (done (at_rest l, true))) (publish-publish _))

-- ===== src/Udp/WholeScan.antt =====
-- The packets of a scan in datagrams of their own, in `onBytesReceived` of src/DataLink/UDPLink.cpp: in
-- any order behind the first packet, or with packets in front of it.
use r.Base.{
  ℕ, ◌+◌, ◌%◌, ◌^◌, ◌≤◌, ◌<◌, ◌≡◌, refl, ◌∙◌, ap, arith, Bool, true, false, List, [], ◌∷◌, ◌++◌,
  map, length, All, ◌⊎◌, inr, Option, none, some, Outcome, done, fault, threw, ◌==◌,
}
use r.Scan.{Scan, is_empty}
use r.Scan.Udp.{UdpScanFactory, udp_factory, sort_packets, accumulate}
use r.Scan.Udp.Arrival.{receive, empty_factory, received_output}
use r.Scan.Udp.Laws.{IsSortedScan, accumulate-IsSortedScan}
use r.Extract.{reset_for}
use r.Extract.Rounds.Stream.{Sent, IsSent}
use r.Link.{DataLink, publish, new_scan, set_output_scan, fire_scan_available}
use r.Tcp.Parts.{IsPart, IsLaterPart, total_points, leb-false}
use r.Udp.{UdpLink, bytes, on_bytes_received}
use r.Udp.Datagrams.{
  packet_of, datagram, at_rest, zeroed, put_out, publish_incomplete, publish_complete,
  on_bytes_received-datagram,
}
use r.Udp.Parts.{
  InScan, add, add-InScan, add-number_of_points, reset_for-later, reset_for-first, reset_for-none,
  receive-InScan, receive-is_complete,
}

abbrev then :
    {U V : Type 0} → (U → Option (Outcome V)) → Option (Outcome (U × Bool)) → Option (Outcome V)
then next none = none
then next (some (done (u, receives))) = next u
then next (some fault) = some fault
then next (some (threw e)) = some (threw e)

module _ (clock : ℕ → ℕ) (fuel : ℕ) where
  -- The datagrams of the packets are handled one behind the other.
  abbrev pub on_datagrams : List Sent → UdpLink → Option (Outcome UdpLink)
  on_datagrams [] u = some (done u)
  on_datagrams (x ∷ xs) u =
      then (on_datagrams xs) (on_bytes_received clock fuel (bytes (datagram x)) u)

  abbrev given : UdpScanFactory → DataLink UdpScanFactory → DataLink UdpScanFactory
  given f link = publish udp_factory clock (record link { scan_factory = f })

  -- Each packet is well formed, and its datagram holds fewer than 2^32 bytes.
  abbrev pub AreDatagrams : List Sent → Type 0
  AreDatagrams xs = All (λ x. IsSent x × (length (datagram x) < 2 ^ 32)) xs

  one_datagram :
      (j : ℕ) (x : Sent) (xs : List Sent) (f : UdpScanFactory) (link : DataLink UdpScanFactory)
      → 1 < fuel
      → IsSent x
      → j + length (datagram x) < 2 ^ 32
      → reset_for udp_factory x.header link.scan_factory ≡ f
      → on_datagrams (x ∷ xs) (zeroed j link) ≡ on_datagrams xs (at_rest (given (add x f) link))
  one_datagram j x xs f link enough sent small e =
      ap (then (on_datagrams xs)) (on_bytes_received-datagram clock fuel j x link sent small enough)
      ∙ ap (λ g. on_datagrams xs (at_rest (given (add x g) link))) e

  later_datagrams :
      (n k : ℕ) (xs : List Sent) (f : UdpScanFactory) (link : DataLink UdpScanFactory)
      → 1 < fuel
      → n < 2 ^ 32
      → AreDatagrams xs
      → All (IsLaterPart n k) xs
      → InScan n k f
      → f.number_of_points + total_points xs ≤ n
      → on_datagrams xs (at_rest (given f link))
        ≡ some (done (at_rest (given (receive (map packet_of xs) f) link)))
  later_datagrams n k [] f link enough bound sent later s few = refl
  later_datagrams n k (x ∷ xs) f link enough bound ((sent, small), all) (l, later) s few =
      let points = l.is_part.has_points in
      let sum = add-number_of_points x f (omega arith) in
      let quiet : given f link ≡ record link { scan_factory = f } =
        publish_incomplete clock (record link { scan_factory = f })
          (s.front ∙ leb-false n f.number_of_points (omega arith)) in
      ap (λ g. on_datagrams (x ∷ xs) (at_rest g)) quiet
      ∙ one_datagram 0 x xs f (record link { scan_factory = f }) enough sent (omega arith)
          (reset_for-later n k x f l s)
      ∙ later_datagrams n k xs (add x f) link enough bound all later (add-InScan n k x f l.is_part)
          (omega (arith, sum))

  first_datagrams :
      (j n k : ℕ) (x : Sent) (xs : List Sent) (link : DataLink UdpScanFactory)
      → 1 < fuel
      → n < 2 ^ 32
      → AreDatagrams (x ∷ xs)
      → j + length (datagram x) < 2 ^ 32
      → reset_for udp_factory x.header link.scan_factory ≡ empty_factory
      → IsPart n k x
      → All (IsLaterPart n k) xs
      → total_points (x ∷ xs) ≤ n
      → on_datagrams (x ∷ xs) (zeroed j link)
        ≡ some (done (at_rest (given (receive (map packet_of (x ∷ xs)) empty_factory) link)))
  first_datagrams j n k x xs link enough bound ((sent, small), all) fits e part later few =
      let sum = add-number_of_points x empty_factory (omega arith) in
      one_datagram j x xs empty_factory link enough sent fits e
      ∙ later_datagrams n k xs (add x empty_factory) link enough bound all later
          (add-InScan n k x empty_factory part) (omega (arith, sum))

done_injective : {u v : UdpLink} → some (done u) ≡ some (done v) → u ≡ v
done_injective e = cc

module _ (clock : ℕ → ℕ) (fuel : ℕ) where
  on_datagrams-append :
      (xs ys : List Sent) (u u' : UdpLink)
      → on_datagrams clock fuel xs u ≡ some (done u')
      → on_datagrams clock fuel (xs ++ ys) u ≡ on_datagrams clock fuel ys u'
  on_datagrams-append [] ys u u' e = ap (on_datagrams clock fuel ys) (done_injective e)
  on_datagrams-append (x ∷ xs) ys u u' e =
      go (on_bytes_received clock fuel (bytes (datagram x)) u) (on_datagrams-append xs ys) e
    where
      go :
          (r : Option (Outcome (UdpLink × Bool)))
          → ((v v' : UdpLink)
              → on_datagrams clock fuel xs v ≡ some (done v')
              → on_datagrams clock fuel (xs ++ ys) v ≡ on_datagrams clock fuel ys v')
          → then (on_datagrams clock fuel xs) r ≡ some (done u')
          → then (on_datagrams clock fuel (xs ++ ys)) r ≡ on_datagrams clock fuel ys u'
      go none ih h = cc
      go (some (done (v, receives))) ih h = ih v u' h
      go (some fault) ih h = cc
      go (some (threw e)) ih h = cc

-- The scan of the packets in the order of their numbers.
abbrev sorted_scan : List Sent → ℕ → Scan
sorted_scan xs now = accumulate (sort_packets (map packet_of xs)) [] [] [] now

-- The link once it has published a scan.
abbrev pub published : Scan → DataLink UdpScanFactory → DataLink UdpScanFactory
published scan link = record link {
  scan_factory = empty_factory;
  last_scan_received = scan;
  scan_counter = (link.scan_counter + 1) % 2 ^ 64;
  events = link.events ++ map (λ c. new_scan c scan) link.on_new_scan;
}

module _ (clock : ℕ → ℕ) (fuel n k j : ℕ) (x : Sent) (xs : List Sent)
    (link : DataLink UdpScanFactory) (enough : 1 < fuel) (bound : n < 2 ^ 32)
    (first : (x.header.packet_number == 1) ≡ true) (part : IsPart n k x)
    (later : All (IsLaterPart n k) xs) where
  put_out-published :
      put_out clock (record link { scan_factory = receive (map packet_of (x ∷ xs)) empty_factory })
      ≡ published (sorted_scan (x ∷ xs) (clock link.scan_counter)) link
  unfolding set_output_scan fire_scan_available
  put_out-published = rw (received_output (clock link.scan_counter) (map packet_of (x ∷ xs))) refl

  on_datagrams-sorted_scan :
      AreDatagrams clock fuel (x ∷ xs)
      → j + length (datagram x) < 2 ^ 32
      → total_points (x ∷ xs) ≡ n
      → (link.scan_factory ≡ empty_factory) ⊎ (is_empty link.scan_factory.packets ≡ false)
      → on_datagrams clock fuel (x ∷ xs) (zeroed j link)
        ≡ some (done (at_rest (published (sorted_scan (x ∷ xs) (clock link.scan_counter)) link)))
  on_datagrams-sorted_scan sent fits total held =
      first_datagrams clock fuel j n k x xs link enough bound sent fits
        (reset_for-first x link.scan_factory first held) part later (omega (arith, total))
      ∙ ap (λ l. some (done (at_rest l)))
          (publish_complete clock
              (record link { scan_factory = receive (map packet_of (x ∷ xs)) empty_factory })
              (receive-is_complete n k x xs bound part later (omega (arith, total))
                ∙ (ground (arith, total)))
            ∙ put_out-published)

  -- The packets of a scan, which has fewer than 2^32 points, arrive each in a datagram of its own: the
  -- first packet of the scan first, and the others behind it in any order. The extraction buffer holds
  -- nothing but zero bytes before, as that of a new link, or nothing at all. Whatever unfinished scan the factory held, the handler publishes a
  -- scan once: its distances, amplitudes and headers are those of the packets, each once and in the
  -- order of their numbers. It becomes the last scan, is counted, and is given to each callback once. The
  -- factory and the extraction buffer are left empty.
  pub on_datagrams-IsSortedScan :
      AreDatagrams clock fuel (x ∷ xs)
      → j + length (datagram x) < 2 ^ 32
      → total_points (x ∷ xs) ≡ n
      → (link.scan_factory ≡ empty_factory) ⊎ (is_empty link.scan_factory.packets ≡ false)
      → (scan : Scan) × IsSortedScan (map packet_of (x ∷ xs)) (clock link.scan_counter) scan
        × (on_datagrams clock fuel (x ∷ xs) (zeroed j link)
            ≡ some (done (at_rest (published scan link))))
  on_datagrams-IsSortedScan sent fits total held = (
    sorted_scan (x ∷ xs) (clock link.scan_counter),
    accumulate-IsSortedScan (clock link.scan_counter) (map packet_of (x ∷ xs)),
    on_datagrams-sorted_scan sent fits total held,
  )

  -- The packets `y` and `ys` of the scan, which number fewer points than the scan, arrive in front of its
  -- first packet, on an empty factory and an extraction buffer that holds nothing but zero bytes, or nothing, and fewer
  -- points than the scan's arrive from its first packet on.
  -- The handler publishes nothing, even where every packet of the scan has arrived: the packets in
  -- front of the first one are dropped, and the factory ends with the others alone.
  pub on_datagrams-late :
      (y : Sent) (ys : List Sent)
      → IsLaterPart n k y
      → All (IsLaterPart n k) ys
      → AreDatagrams clock fuel (y ∷ ys)
      → j + length (datagram y) < 2 ^ 32
      → AreDatagrams clock fuel (x ∷ xs)
      → total_points (y ∷ ys) < n
      → total_points (x ∷ xs) < n
      → link.scan_factory ≡ empty_factory
      → on_datagrams clock fuel ((y ∷ ys) ++ x ∷ xs) (zeroed j link)
        ≡ some (
            done (
              at_rest
                (record link { scan_factory = receive (map packet_of (x ∷ xs)) empty_factory })))
  on_datagrams-late y ys l ls sent_y fits sent_x few_y few_x empty =
      let held = receive (map packet_of (y ∷ ys)) empty_factory in
      let (s, points) =
        receive-InScan n k ys (add y empty_factory) bound ls
          (add-InScan n k y empty_factory l.is_part)
          (omega (arith, add-number_of_points y empty_factory (omega arith))) in
      let earlier =
        first_datagrams clock fuel j n k y ys link enough bound sent_y fits
          (reset_for-none y _ empty) l.is_part ls (omega arith)
        ∙ ap (λ q. some (done (at_rest q)))
            (publish_incomplete clock (record link { scan_factory = held })
              (receive-is_complete n k y ys bound l.is_part ls (omega arith) ∙ ground arith)) in
      on_datagrams-append clock fuel (y ∷ ys) (x ∷ xs) (zeroed j link) _ earlier
      ∙ first_datagrams clock fuel 0 n k x xs (record link { scan_factory = held }) enough bound
          sent_x (omega (arith, sent_x.0.1)) (reset_for-first x held first (inr s.some_packets))
          part later (omega arith)
      ∙ ap (λ q. some (done (at_rest q)))
          (publish_incomplete clock
            (record link { scan_factory = receive (map packet_of (x ∷ xs)) empty_factory })
            (receive-is_complete n k x xs bound part later (omega arith) ∙ ground arith))

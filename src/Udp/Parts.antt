-- ===== src/Udp/Parts.antt =====
-- The factory of include/DataLink/UDPLink.hpp between the first and the last packet of a scan.
use r.Base.{
  ℕ, ◌+◌, ◌^◌, ◌≤◌, ◌<◌, ◌≡◌, refl, ◌∙◌, ap, arith, Bool, true, false, ◌||◌, List, [], ◌∷◌, map,
  length, All, ◌⊎◌, inl, inr, leb, ◌==◌,
}
use r.Scan.{is_empty, is_different_scan, is_new_scan}
use r.Scan.Back.{back-append, is_empty-append}
use r.Scan.Udp.{UdpScanFactory, udp_factory, add_packet, factory_empty, is_complete, clear, matches}
use r.Scan.Udp.Arrival.{receive, empty_factory}
use r.Extract.{reset_for}
use r.Extract.Rounds.Stream.{Sent}
use r.Tcp.Parts.{IsPart, IsLaterPart, distances_of, amplitudes_of, total_points}
use r.Udp.Datagrams.{packet_of}

-- A factory in the middle of scan `k`, which has `n` points.
pub record InScan (n k : ℕ) (f : UdpScanFactory) : Type 0 where
  pub some_packets : is_empty f.packets ≡ false
  pub last : matches f k ≡ true
  pub front : is_complete f ≡ leb n f.number_of_points

abbrev pub add : Sent → UdpScanFactory → UdpScanFactory
add x f = add_packet x.header (distances_of x) (amplitudes_of x) f

pub add-InScan : (n k : ℕ) (x : Sent) (f : UdpScanFactory) → IsPart n k x → InScan n k (add x f)
unfolding add_packet matches is_complete
add-InScan n k x f part = record {
  some_packets = is_empty-append f.packets (packet_of x);
  last = rw (back-append f.packets (packet_of x)) (ground (arith, part.same_scan));
  front =
      rw
        (
          back-append f.packets (packet_of x),
          is_empty-append f.packets (packet_of x),
          part.same_size,
        )
        refl;
}

pub add-number_of_points :
    (x : Sent) (f : UdpScanFactory)
    → f.number_of_points + length (distances_of x) < 2 ^ 32
    → (add x f).number_of_points ≡ f.number_of_points + length (distances_of x)
unfolding add_packet
add-number_of_points x f h = omega arith

pub reset_for-later :
    (n k : ℕ) (x : Sent) (f : UdpScanFactory)
    → IsLaterPart n k x
    → InScan n k f
    → reset_for udp_factory x.header f ≡ f
unfolding reset_for is_different_scan is_new_scan factory_empty
reset_for-later n k x f later s =
    rw (s.some_packets, later.is_part.same_scan, s.last, later.not_first)

or-true : (b : Bool) → (b || true) ≡ true
or-true true = refl
or-true false = refl

pub reset_for-first :
    (x : Sent) (f : UdpScanFactory)
    → (x.header.packet_number == 1) ≡ true
    → (f ≡ empty_factory) ⊎ (is_empty f.packets ≡ false)
    → reset_for udp_factory x.header f ≡ empty_factory
unfolding reset_for is_different_scan is_new_scan factory_empty clear
reset_for-first x f first (inl e) = rw e
reset_for-first x f first (inr e) =
    rw (e, first, or-true (is_different_scan udp_factory f x.header))

pub receive-InScan :
    (n k : ℕ) (xs : List Sent) (f : UdpScanFactory)
    → n < 2 ^ 32
    → All (IsLaterPart n k) xs
    → InScan n k f
    → f.number_of_points + total_points xs ≤ n
    → InScan n k (receive (map packet_of xs) f)
      × ((receive (map packet_of xs) f).number_of_points ≡ f.number_of_points + total_points xs)
receive-InScan n k [] f bound later s few = (s, omega arith)
receive-InScan n k (x ∷ xs) f bound (l, later) s few =
    let sum = add-number_of_points x f (omega arith) in
    let (s', all) =
      receive-InScan n k xs (add x f) bound later (add-InScan n k x f l.is_part)
        (omega (arith, sum)) in
    (s', omega (arith, all, sum))

pub receive-is_complete :
    (n k : ℕ) (x : Sent) (xs : List Sent)
    → n < 2 ^ 32
    → IsPart n k x
    → All (IsLaterPart n k) xs
    → total_points (x ∷ xs) ≤ n
    → is_complete (receive (map packet_of (x ∷ xs)) empty_factory) ≡ leb n (total_points (x ∷ xs))
receive-is_complete n k x xs bound part later few =
    let sum = add-number_of_points x empty_factory (omega arith) in
    let (s, all) =
      receive-InScan n k xs (add x empty_factory) bound later (add-InScan n k x empty_factory part)
        (omega (arith, sum)) in
    s.front ∙ ap (leb n) (omega (arith, all, sum))

pub reset_for-none :
    (x : Sent) (f : UdpScanFactory)
    → f ≡ empty_factory
    → reset_for udp_factory x.header f ≡ empty_factory
unfolding reset_for factory_empty
reset_for-none x f e = rw e

-- ===== src/Scan/Udp/Laws.antt =====
-- What a scan assembled by `UdpScanFactory` of include/DataLink/UDPLink.hpp holds.
use r.Base.{
  ℕ, ◌+◌, ◌%◌, ◌^◌, ◌≤◌, ◌≡◌, refl, ◌∙◌, arith, List, [], ◌∷◌, ◌++◌, map, append_assoc, append-nil,
  length, ltb, Bool-cases, inl, inr,
}
use r.Wire.{Header}
use r.Scan.{Scan}
use r.Scan.Udp.{
  Packet, UdpScanFactory, add_packet, insert_packet, sort_packets, accumulate, output, clear,
}
use mathlib.Core.List.{Perm, Permᴰ}
use mathlib.Core.List.Permᴰ

abbrev pub number : Packet → ℕ
number p = p.header.packet_number

-- In the order of the packet numbers.
abbrev pub IsOrdered : List Packet → Type 0
IsOrdered [] = Unit {0}
IsOrdered (p ∷ []) = Unit {0}
IsOrdered (p ∷ q ∷ qs) = (number p ≤ number q) × IsOrdered (q ∷ qs)

abbrev Bounded : ℕ → List Packet → Type 0
Bounded n [] = Unit {0}
Bounded n (p ∷ ps) = n ≤ number p

IsOrdered-cons :
    (p : Packet) (ps : List Packet) → Bounded (number p) ps → IsOrdered ps → IsOrdered (p ∷ ps)
IsOrdered-cons p [] b o = tt
IsOrdered-cons p (q ∷ qs) b o = (b, o)

IsOrdered-tail :
    (p : Packet) (ps : List Packet) → IsOrdered (p ∷ ps) → Bounded (number p) ps × IsOrdered ps
IsOrdered-tail p [] o = (tt, tt)
IsOrdered-tail p (q ∷ qs) o = (o.0, o.1)

insert_packet-Bounded :
    (n : ℕ) (p : Packet) (ps : List Packet)
    → n ≤ number p
    → Bounded n ps
    → Bounded n (insert_packet p ps)
unfolding insert_packet
insert_packet-Bounded n p [] h b = h
insert_packet-Bounded n p (q ∷ qs) h b = ground arith

insert_packet-IsOrdered :
    (p : Packet) (ps : List Packet) → IsOrdered ps → IsOrdered (insert_packet p ps)
unfolding insert_packet
insert_packet-IsOrdered p [] o = tt
insert_packet-IsOrdered p (q ∷ qs) o =
    let (b, o') = IsOrdered-tail q qs o in
    elim (Bool-cases (ltb (number q) (number p))) [
      | inl lower ↦
          rw (lower, insert_packet)
            (IsOrdered-cons q (insert_packet p qs)
              (insert_packet-Bounded (number q) p qs (ground arith) b)
              (insert_packet-IsOrdered p qs o'))
      | inr not_lower ↦ rw (not_lower, insert_packet) (ground arith, o)
    ]

sort_packets-IsOrdered : (ps : List Packet) → IsOrdered (sort_packets ps)
unfolding sort_packets
sort_packets-IsOrdered [] = tt
sort_packets-IsOrdered (p ∷ ps) =
    insert_packet-IsOrdered p (sort_packets ps) (sort_packets-IsOrdered ps)

insert_packet-perm : (p : Packet) (ps : List Packet) → Permᴰ (insert_packet p ps) (p ∷ ps)
unfolding insert_packet
insert_packet-perm p [] = Permᴰ.refl _
insert_packet-perm p (q ∷ qs) = elim (Bool-cases (ltb (number q) (number p))) [
  | inl lower ↦
      rw (lower, insert_packet)
        (Permᴰ.trans (Permᴰ.cons refl (insert_packet-perm p qs)) (Permᴰ.swap refl refl))
  | inr not_lower ↦ rw (not_lower, insert_packet) (Permᴰ.refl _)
]

pub sort_packets-perm : (ps : List Packet) → Permᴰ (sort_packets ps) ps
unfolding sort_packets
sort_packets-perm [] = Permᴰ.refl _
sort_packets-perm (p ∷ ps) =
    Permᴰ.trans (insert_packet-perm p (sort_packets ps)) (Permᴰ.cons refl (sort_packets-perm ps))

-- The pieces of the packets, one behind the other.
abbrev pub joined {ℓ} : {A : Type ℓ} → (Packet → List A) → List Packet → List A
joined part [] = []
joined part (p ∷ ps) = part p ++ joined part ps

abbrev pub scan_of : List Packet → ℕ → Scan
scan_of ps now = record {
  distances = joined (λ p. p.distances) ps;
  amplitudes = joined (λ p. p.amplitudes) ps;
  headers = map (λ (p : Packet). p.header) ps;
  timestamp = now;
}

pub accumulate_lem :
    (ps : List Packet) (ds amps : List ℕ) (hs : List Header) (now : ℕ)
    → accumulate ps ds amps hs now ≡ record {
      distances = ds ++ joined (λ p. p.distances) ps;
      amplitudes = amps ++ joined (λ p. p.amplitudes) ps;
      headers = hs ++ map (λ (p : Packet). p.header) ps;
      timestamp = now;
    }
unfolding accumulate
accumulate_lem [] ds amps hs now = simp append-nil
accumulate_lem (p ∷ ps) ds amps hs now =
    accumulate_lem ps (ds ++ p.distances) (amps ++ p.amplitudes) (hs ++ p.header ∷ []) now
    ∙ simp append_assoc

-- A scan of the packets, each once, in the order of their numbers.
abbrev pub IsSortedScan : List Packet → ℕ → Scan → Type 0
IsSortedScan ps now scan =
    (sorted : List Packet) × Perm sorted ps × IsOrdered sorted × (scan ≡ scan_of sorted now)

pub accumulate-IsSortedScan :
    (now : ℕ) (ps : List Packet) → IsSortedScan ps now (accumulate (sort_packets ps) [] [] [] now)
accumulate-IsSortedScan now ps = (
  sort_packets ps,
  ∣ sort_packets-perm ps ∣₁,
  sort_packets-IsOrdered ps,
  accumulate_lem (sort_packets ps) [] [] [] now,
)

-- The scan that `operator*` puts out consists of the packets received, each once, in the order of
-- their numbers: its distances, amplitudes and headers are those of the packets, packet by packet.
-- The factory is empty afterwards.
pub output_sorted :
    (now : ℕ) (f : UdpScanFactory)
    → (sorted : List Packet) × Perm sorted f.packets
      × IsOrdered sorted
      × ((output now f).0 ≡ scan_of sorted now)
      × ((output now f).1 ≡ record { packets = []; number_of_points = 0 })
unfolding output clear
output_sorted now f = (
  sort_packets f.packets,
  ∣ sort_packets-perm f.packets ∣₁,
  sort_packets-IsOrdered f.packets,
  accumulate_lem (sort_packets f.packets) [] [] [] now,
  refl,
)

abbrev pub total_points : List Packet → ℕ
total_points [] = 0
total_points (p ∷ ps) = length p.distances + total_points ps

total_points-append :
    (ps qs : List Packet) → total_points (ps ++ qs) ≡ total_points ps + total_points qs
total_points-append [] qs = omega arith
total_points-append (p ∷ ps) qs = omega (arith, total_points-append ps qs)

-- `numberOfPoints` counts the distances of the packets, modulo 2^32.
pub record Counted (f : UdpScanFactory) : Type 0 where
  pub counts : f.number_of_points ≡ total_points f.packets % 2 ^ 32

pub add_packet-Counted :
    (h : Header) (ds amps : List ℕ) (f : UdpScanFactory)
    → Counted f
    → Counted (add_packet h ds amps f)
unfolding add_packet
add_packet-Counted h ds amps f c =
    let p : Packet = record { header = h; distances = ds; amplitudes = amps } in
    record { counts = omega (arith, c.counts, total_points-append f.packets (p ∷ [])) }

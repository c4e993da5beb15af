-- ===== src/Scan/Udp/Arrival.antt =====
-- `UdpScanFactory::operator*` of include/DataLink/UDPLink.hpp does not depend on the order in which the
-- datagrams of a scan arrive.
use r.Base.{
  ℕ, ◌≡◌, ◌%◌, ◌^◌, refl, sym, ◌∙◌, ap, ap₂, subst, arith, All-perm, List, [], ◌∷◌, ◌++◌, All, leb,
  length, append-nil, append_assoc, Bool, not, ◌&&◌,
}
use r.Scan.{is_empty}
use r.Scan.Back.{back-All}
use r.Scan.Udp.{
  Packet, UdpScanFactory, add_packet, is_complete, insert_packet, sort_packets, accumulate, output,
  clear,
}
use r.Scan.Udp.Laws.{number, Counted, add_packet-Counted, total_points}
use mathlib.Core.List.{Permᴰ}

-- The packets have numbers of their own.
abbrev Differ : Packet → Packet → Type 0
Differ p q = ¬ (number p ≡ number q)

abbrev pub Distinct : List Packet → Type 0
Distinct [] = Unit {0}
Distinct (p ∷ ps) = All (Differ p) ps × Distinct ps

Distinct-perm : {ps qs : List Packet} → Permᴰ ps qs → Distinct ps → Distinct qs
Distinct-perm Permᴰ.nil h = tt
Distinct-perm (Permᴰ.cons {l₂ = qs} e d) h =
    (subst (λ x. All (Differ x) qs) e (All-perm _ d h.0), Distinct-perm d h.1)
Distinct-perm (Permᴰ.swap {l = ps} e₁ e₂) ((ab, al), (bl, rest)) = (
  ((λ e. ab (ap number e₁ ∙ sym e ∙ sym (ap number e₂))), subst (λ x. All (Differ x) ps) e₂ bl),
  (subst (λ x. All (Differ x) ps) e₁ al, rest),
)
Distinct-perm (Permᴰ.trans d₁ d₂) h = Distinct-perm d₂ (Distinct-perm d₁ h)

insert_packet_comm :
    (a b : Packet) (ps : List Packet)
    → Differ a b
    → insert_packet a (insert_packet b ps) ≡ insert_packet b (insert_packet a ps)
unfolding insert_packet
insert_packet_comm a b [] h = ground arith
insert_packet_comm a b (q ∷ qs) h = let rest = insert_packet_comm a b qs h in ground arith

sort_packets-perm_eq :
    {ps qs : List Packet} → Permᴰ ps qs → Distinct ps → sort_packets ps ≡ sort_packets qs
unfolding sort_packets
sort_packets-perm_eq Permᴰ.nil h = refl
sort_packets-perm_eq (Permᴰ.cons {a} {l₂ = qs} e d) h =
    ap (insert_packet a) (sort_packets-perm_eq d h.1)
    ∙ ap (λ x. insert_packet x (sort_packets qs)) e
sort_packets-perm_eq (Permᴰ.swap {a} {b} {a'} {l = ps} e₁ e₂) h =
    insert_packet_comm a b (sort_packets ps) h.0.0
    ∙ ap (λ x. insert_packet x (insert_packet a (sort_packets ps))) e₂
    ∙ ap (λ x. insert_packet a' (insert_packet x (sort_packets ps))) e₁
sort_packets-perm_eq (Permᴰ.trans d₁ d₂) h =
    sort_packets-perm_eq d₁ h ∙ sort_packets-perm_eq d₂ (Distinct-perm d₁ h)

-- The packets of a scan are added one by one, in the order in which they arrive.
abbrev pub receive : List Packet → UdpScanFactory → UdpScanFactory
receive [] f = f
receive (p ∷ ps) f = receive ps (add_packet p.header p.distances p.amplitudes f)

receive-packets : (ps : List Packet) (f : UdpScanFactory) → (receive ps f).packets ≡ f.packets ++ ps
unfolding add_packet
receive-packets [] f = sym (append-nil f.packets)
receive-packets (p ∷ ps) f =
    receive-packets ps (add_packet p.header p.distances p.amplitudes f)
    ∙ append_assoc f.packets (p ∷ []) ps

receive-Counted : (ps : List Packet) (f : UdpScanFactory) → Counted f → Counted (receive ps f)
receive-Counted [] f c = c
receive-Counted (p ∷ ps) f c =
    receive-Counted ps _ (add_packet-Counted p.header p.distances p.amplitudes f c)

total_points-perm : {ps qs : List Packet} → Permᴰ ps qs → total_points ps ≡ total_points qs
total_points-perm Permᴰ.nil = refl
total_points-perm (Permᴰ.cons e d) =
    let same = ap (λ (x : Packet). length x.distances) e in omega (arith, same, total_points-perm d)
total_points-perm (Permᴰ.swap e₁ e₂) =
    let same₁ = ap (λ (x : Packet). length x.distances) e₁ in
    let same₂ = ap (λ (x : Packet). length x.distances) e₂ in omega (arith, same₁, same₂)
total_points-perm (Permᴰ.trans d₁ d₂) = total_points-perm d₁ ∙ total_points-perm d₂

-- Each packet announces the scan's number of points.
abbrev pub Announces : ℕ → Packet → Type 0
Announces n p = p.header.num_points_scan ≡ n

is_complete-Announces :
    (n : ℕ) (ps : List Packet) (count : ℕ)
    → All (Announces n) ps
    → is_complete (record { packets = ps; number_of_points = count })
      ≡ (not (is_empty ps) && leb n count)
unfolding is_complete
is_complete-Announces n [] count h = refl
is_complete-Announces n (p ∷ ps) count h =
    let (q, e, announced) = back-All (Announces n) p ps h in rw (e, announced)

is_empty-perm : {ps qs : List Packet} → Permᴰ ps qs → is_empty ps ≡ is_empty qs
is_empty-perm Permᴰ.nil = refl
is_empty-perm (Permᴰ.cons e d) = refl
is_empty-perm (Permᴰ.swap e₁ e₂) = refl
is_empty-perm (Permᴰ.trans d₁ d₂) = is_empty-perm d₁ ∙ is_empty-perm d₂

abbrev pub empty_factory : UdpScanFactory
empty_factory = record { packets = []; number_of_points = 0 }

received_points :
    (ps : List Packet) → (receive ps empty_factory).number_of_points ≡ total_points ps % 2 ^ 32
received_points ps =
    (receive-Counted ps empty_factory (record { counts = refl })).counts
    ∙ ap (λ x. total_points x % 2 ^ 32) (receive-packets ps empty_factory)

received_complete :
    (n : ℕ) (ps : List Packet)
    → All (Announces n) ps
    → is_complete (receive ps empty_factory)
      ≡ (not (is_empty ps) && leb n (total_points ps % 2 ^ 32))
received_complete n ps h =
    is_complete-Announces n (receive ps empty_factory).packets
      (receive ps empty_factory).number_of_points
      (subst (All (Announces n)) (sym (receive-packets ps empty_factory)) h)
    ∙ rw (receive-packets ps empty_factory, received_points ps)

pub received_output :
    (now : ℕ) (ps : List Packet)
    → output now (receive ps empty_factory)
      ≡ (accumulate (sort_packets ps) [] [] [] now, empty_factory)
unfolding output clear
received_output now ps = rw (receive-packets ps empty_factory)

-- The packets of a scan, no two of the same number and each announcing the same number of points,
-- reach an empty factory in any two orders. `isComplete` says the same of both, and `operator*` puts
-- out the same scan and leaves the same factory.
pub output-receive_perm :
    (n now : ℕ) (ps qs : List Packet)
    → Permᴰ ps qs
    → Distinct ps
    → All (Announces n) ps
    → (is_complete (receive ps empty_factory) ≡ is_complete (receive qs empty_factory))
      × (output now (receive ps empty_factory) ≡ output now (receive qs empty_factory))
output-receive_perm n now ps qs d distinct announced = (
  received_complete n ps announced
      ∙ ap₂ (λ (b : Bool) (k : ℕ). not b && leb n (k % 2 ^ 32)) (is_empty-perm d)
          (total_points-perm d)
      ∙ sym (received_complete n qs (All-perm (Announces n) d announced)),
  received_output now ps
      ∙ ap (λ xs. (accumulate xs [] [] [] now, empty_factory)) (sort_packets-perm_eq d distinct)
      ∙ sym (received_output now qs),
)

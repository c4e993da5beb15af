-- ===== src/Tcp/Parts.antt =====
-- The factory of include/DataLink/TCPLink.hpp between the first and the last packet of a scan.
use r.Base.{
  ℕ, ◌+◌, ◌≤◌, ◌<◌, ◌≡◌, refl, ◌∙◌, ap, arith, Bool, true, false, ◌||◌, List, [], ◌∷◌, ◌++◌, map,
  append_assoc, append-nil, length, length-append, All, ◌⊎◌, inl, inr, leb, ◌==◌,
}
use r.Wire.{Header}
use r.Scan.{is_empty, front_holds, back, has_number, is_different_scan, is_new_scan}
use r.Scan.Back.{back-append, is_empty-append}
use r.Scan.Tcp.{TcpScanFactory, tcp_factory, add_packet, clear, factory_empty, matches}
use r.Extract.{reset_for}
use r.Extract.Whole.{points_of}
use r.Extract.Rounds.Stream.{Sent}

abbrev pub distances_of : Sent → List ℕ
distances_of x = (points_of x.payload).distances

abbrev pub amplitudes_of : Sent → List ℕ
amplitudes_of x = (points_of x.payload).amplitudes

-- The pieces of the packets, one behind the other.
abbrev pub pieces : (Sent → List ℕ) → List Sent → List ℕ
pieces part [] = []
pieces part (x ∷ xs) = part x ++ pieces part xs

abbrev pub total_points : List Sent → ℕ
total_points [] = 0
total_points (x ∷ xs) = length (distances_of x) + total_points xs

-- A packet of scan `k`, which has `n` points.
pub record IsPart (n k : ℕ) (x : Sent) : Type 0 where
  pub same_scan : x.header.scan_number ≡ k
  pub same_size : x.header.num_points_scan ≡ n
  pub has_points : 1 ≤ length (distances_of x)

pub record IsLaterPart (n k : ℕ) (x : Sent) : Type 0 where
  pub is_part : IsPart n k x
  pub not_first : (x.header.packet_number == 1) ≡ false

abbrev pub no_packets : TcpScanFactory
no_packets = record { distances = []; amplitudes = []; headers = [] }

-- A factory in the middle of scan `k`.
pub record InScan (n k : ℕ) (f : TcpScanFactory) : Type 0 where
  pub some_packets : is_empty f.headers ≡ false
  pub front : (size : ℕ) → front_holds f.headers size ≡ leb n size
  pub last : has_number (back f.headers) k ≡ true

abbrev pub add : Sent → TcpScanFactory → TcpScanFactory
add x f = add_packet x.header (distances_of x) (amplitudes_of x) f

abbrev pub add_all : List Sent → TcpScanFactory → TcpScanFactory
add_all [] f = f
add_all (x ∷ xs) f = add_all xs (add x f)

front_holds-append :
    (hs : List Header) (h : Header) (size : ℕ)
    → is_empty hs ≡ false
    → front_holds (hs ++ h ∷ []) size ≡ front_holds hs size
front_holds-append [] h size e = absurd (ground arith)
front_holds-append (a ∷ hs) h size e = refl

pub add-InScan :
    (n k : ℕ) (x : Sent) (f : TcpScanFactory) → IsPart n k x → InScan n k f → InScan n k (add x f)
unfolding add_packet
add-InScan n k x f part s = record {
  some_packets = is_empty-append f.headers x.header;
  front = λ size. front_holds-append f.headers x.header size s.some_packets ∙ s.front size;
  last = rw (back-append f.headers x.header) (ground (arith, part.same_scan));
}

pub add-InScan_first : (n k : ℕ) (x : Sent) → IsPart n k x → InScan n k (add x no_packets)
unfolding add_packet
add-InScan_first n k x part = record {
  some_packets = refl;
  front = λ size. rw part.same_size;
  last = ground (arith, part.same_scan);
}

pub reset_for-later :
    (n k : ℕ) (x : Sent) (f : TcpScanFactory)
    → IsLaterPart n k x
    → InScan n k f
    → reset_for tcp_factory x.header f ≡ f
unfolding reset_for is_different_scan is_new_scan factory_empty matches
reset_for-later n k x f later s =
    rw (s.some_packets, later.is_part.same_scan, s.last, later.not_first)

or-true : (b : Bool) → (b || true) ≡ true
or-true true = refl
or-true false = refl

pub leb-false : (a b : ℕ) → b < a → leb a b ≡ false
leb-false a b h = ground arith

pub reset_for-first :
    (x : Sent) (f : TcpScanFactory)
    → (x.header.packet_number == 1) ≡ true
    → (f ≡ no_packets) ⊎ (is_empty f.headers ≡ false)
    → reset_for tcp_factory x.header f ≡ no_packets
unfolding reset_for is_different_scan is_new_scan factory_empty clear
reset_for-first x f first (inl e) = rw e
reset_for-first x f first (inr e) =
    rw (e, first, or-true (is_different_scan tcp_factory f x.header))

pub add_all_lem :
    (xs : List Sent) (f : TcpScanFactory)
    → add_all xs f ≡ record {
      distances = f.distances ++ pieces distances_of xs;
      amplitudes = f.amplitudes ++ pieces amplitudes_of xs;
      headers = f.headers ++ map (λ (x : Sent). x.header) xs;
    }
unfolding add_packet
add_all_lem [] f = simp append-nil
add_all_lem (x ∷ xs) f = add_all_lem xs (add x f) ∙ simp append_assoc

length-pieces : (xs : List Sent) → length (pieces distances_of xs) ≡ total_points xs
length-pieces [] = refl
length-pieces (x ∷ xs) =
    omega (arith, length-append (distances_of x) (pieces distances_of xs), length-pieces xs)

pub add_all-InScan :
    (n k : ℕ) (xs : List Sent) (f : TcpScanFactory)
    → All (IsLaterPart n k) xs
    → InScan n k f
    → InScan n k (add_all xs f)
add_all-InScan n k [] f later s = s
add_all-InScan n k (x ∷ xs) f (l, later) s =
    add_all-InScan n k xs (add x f) later (add-InScan n k x f l.is_part s)

pub length-add_all :
    (xs : List Sent) (f : TcpScanFactory)
    → length (add_all xs f).distances ≡ length f.distances + total_points xs
length-add_all xs f =
    ap (λ (g : TcpScanFactory). length g.distances) (add_all_lem xs f)
    ∙ length-append f.distances (pieces distances_of xs)
    ∙ ap (λ (m : ℕ). length f.distances + m) (length-pieces xs)

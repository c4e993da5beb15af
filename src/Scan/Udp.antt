-- ===== src/Scan/Udp.antt =====
-- `UdpScanFactory` of include/DataLink/UDPLink.hpp: packets may arrive out of order, and are sorted
-- by their number when the scan is put out.
pub mod Laws
pub mod Arrival
use r.Base.{
  ℕ, ◌+◌, ◌%◌, ◌^◌, Bool, true, false, not, ◌&&◌, List, [], ◌∷◌, ◌++◌, map, length, Option, none,
  some, leb, ltb,
}
use r.Wire.{Header}
use r.Scan.{Scan, ScanFactory, is_empty, back, has_number}
use mathlib.Core.Option
use mathlib.Core.List.{flat_map}

pub record Packet : Type 0 where
  pub header : Header
  pub distances : List ℕ
  pub amplitudes : List ℕ

pub record UdpScanFactory : Type 0 where
  pub packets : List Packet
  pub number_of_points : ℕ

-- `numberOfPoints` is an unsigned int.
unfoldable pub add_packet : Header → List ℕ → List ℕ → UdpScanFactory → UdpScanFactory
add_packet header input_distances input_amplitudes f = record {
  packets =
      f.packets
      ++ record { header = header; distances = input_distances; amplitudes = input_amplitudes }
        ∷ [];
  number_of_points = (f.number_of_points + length input_distances) % 2 ^ 32;
}

unfoldable pub factory_empty : UdpScanFactory → Bool
factory_empty f = is_empty f.packets

-- `empty()` is the test for a last packet, and is asked a second time behind it.
abbrev complete_with : UdpScanFactory → Option Packet → Bool
complete_with f none = false
complete_with f (some p) =
    not (is_empty f.packets) && leb p.header.num_points_scan f.number_of_points

unfoldable pub is_complete : UdpScanFactory → Bool
is_complete f = complete_with f (back f.packets)

unfoldable pub clear : UdpScanFactory → UdpScanFactory
clear f = record { packets = []; number_of_points = 0 }

-- `std::sort` with `lhs.packetNumber < rhs.packetNumber`: an insertion sort, which keeps packets of
-- one number in the order of arrival (`std::sort` may put these in either order).
pub insert_packet : Packet → List Packet → List Packet
insert_packet p [] = p ∷ []
insert_packet p (q ∷ qs) = elim (ltb q.header.packet_number p.header.packet_number) [
  | true ↦ q ∷ insert_packet p qs
  | false ↦ p ∷ q ∷ qs
]

pub sort_packets : List Packet → List Packet
unfolding insert_packet
sort_packets [] = []
sort_packets (p ∷ ps) = insert_packet p (sort_packets ps)

-- The loop over the sorted packets, with the three accumulated vectors.
pub accumulate : List Packet → List ℕ → List ℕ → List Header → ℕ → Scan
accumulate [] distances amplitudes headers now = record {
  distances = distances;
  amplitudes = amplitudes;
  headers = headers;
  timestamp = now;
}
accumulate (p ∷ ps) distances amplitudes headers now =
    accumulate ps (distances ++ p.distances) (amplitudes ++ p.amplitudes) (headers ++ p.header ∷ [])
      now

unfoldable pub output : ℕ → UdpScanFactory → Scan × UdpScanFactory
unfolding clear sort_packets accumulate
output now f = (accumulate (sort_packets f.packets) [] [] [] now, clear f)

unfoldable pub matches : UdpScanFactory → ℕ → Bool
matches f scan_number =
    has_number (Option.map (λ (p : Packet). p.header) (back f.packets)) scan_number

-- The output vector of the source is empty at each call.
unfoldable pub get_headers : UdpScanFactory → List Header
get_headers f = map (λ (p : Packet). p.header) f.packets

instance abbrev pub udp_factory : ScanFactory UdpScanFactory
udp_factory = record {
  add_packet = add_packet;
  factory_empty = factory_empty;
  is_complete = is_complete;
  output = output;
  clear = clear;
  matches = matches;
  get_headers = get_headers;
}

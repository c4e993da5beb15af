-- ===== src/Scan/Lawful.antt =====
-- What the links rely on of a factory (the abstract class ScanFactory of include/DataLink/DataLink.hpp),
-- as laws about the headers it holds, and that both factories obey them.
use r.Base.{ℕ, ◌≡◌, refl, sym, subst, ap, not, ◌&&◌, List, [], ◌∷◌, ◌++◌, map}
use r.Wire.{Header}
use r.Scan.{Scan, ScanFactory, is_empty, back, has_number}
use r.Scan.Back.{map-append, is_empty-map, back-map}
use r.Scan.Tcp as Tcp
use r.Scan.Udp as Udp
use r.Scan.Udp.Laws.{sort_packets-perm, accumulate_lem}
use mathlib.Core.List.{Permᴰ}
use mathlib.Core.List.Permᴰ

pub record IsScanFactory {S : Type 0} (factory : ScanFactory S) : Type 0 where
  pub get_headers-add_packet :
      (h : Header) (ds amps : List ℕ) (s : S)
      → factory.get_headers (factory.add_packet h ds amps s) ≡ factory.get_headers s ++ h ∷ []
  pub get_headers-clear : (s : S) → factory.get_headers (factory.clear s) ≡ []
  pub get_headers-output : (now : ℕ) (s : S) → factory.get_headers (factory.output now s).1 ≡ []
  pub factory_empty_lem : (s : S) → factory.factory_empty s ≡ is_empty (factory.get_headers s)
  pub matches_lem :
      (s : S) (n : ℕ) → factory.matches s n ≡ has_number (back (factory.get_headers s)) n
  pub output_headers :
      (now : ℕ) (s : S) → Permᴰ (factory.output now s).0.headers (factory.get_headers s)

tcp_matches :
    (hs : List Header) (n : ℕ)
    → (not (is_empty hs) && has_number (back hs) n) ≡ has_number (back hs) n
tcp_matches [] n = refl
tcp_matches (h ∷ hs) n = refl

pub tcp_factory-IsScanFactory : IsScanFactory Tcp.tcp_factory
unfolding Tcp.add_packet Tcp.clear Tcp.output Tcp.factory_empty Tcp.matches Tcp.get_headers
tcp_factory-IsScanFactory = record {
  get_headers-add_packet = λ h ds amps s. refl;
  get_headers-clear = λ s. refl;
  get_headers-output = λ now s. refl;
  factory_empty_lem = λ s. refl;
  matches_lem = λ s n. tcp_matches s.headers n;
  output_headers = λ now s. Permᴰ.refl s.headers;
}

abbrev header_of : Udp.Packet → Header
header_of p = p.header

pub udp_factory-IsScanFactory : IsScanFactory Udp.udp_factory
unfolding Udp.add_packet Udp.clear Udp.output Udp.factory_empty Udp.matches Udp.get_headers
udp_factory-IsScanFactory = record {
  get_headers-add_packet = λ h ds amps s. map-append header_of s.packets _;
  get_headers-clear = λ s. refl;
  get_headers-output = λ now s. refl;
  factory_empty_lem = λ s. sym (is_empty-map header_of s.packets);
  matches_lem = λ s n. ap (λ o. has_number o n) (back-map header_of s.packets);
  output_headers = λ now s.
      subst (λ (scan : Scan). Permᴰ scan.headers (map header_of s.packets))
        (sym (accumulate_lem (Udp.sort_packets s.packets) [] [] [] now))
        (Permᴰ.map header_of (sort_packets-perm s.packets));
}

-- ===== src/Scan/Tcp.antt =====
-- `TcpScanFactory` of include/DataLink/TCPLink.hpp: the points and headers in the order of arrival.
pub mod Laws
use r.Base.{ℕ, Bool, not, ◌&&◌, List, [], ◌∷◌, ◌++◌, length}
use r.Wire.{Header}
use r.Scan.{Scan, ScanFactory, is_empty, front_holds, back, has_number}

pub record TcpScanFactory : Type 0 where
  pub distances : List ℕ
  pub amplitudes : List ℕ
  pub headers : List Header

unfoldable pub add_packet : Header → List ℕ → List ℕ → TcpScanFactory → TcpScanFactory
add_packet header input_distances input_amplitudes f = record {
  distances = f.distances ++ input_distances;
  amplitudes = f.amplitudes ++ input_amplitudes;
  headers = f.headers ++ header ∷ [];
}

unfoldable pub factory_empty : TcpScanFactory → Bool
factory_empty f = is_empty f.headers

unfoldable pub is_complete : TcpScanFactory → Bool
unfolding factory_empty
is_complete f = not (factory_empty f) && front_holds f.headers (length f.distances)

unfoldable pub clear : TcpScanFactory → TcpScanFactory
clear f = record { distances = []; amplitudes = []; headers = [] }

unfoldable pub output : ℕ → TcpScanFactory → Scan × TcpScanFactory
unfolding clear
output now f = (
  record {
    distances = f.distances;
    amplitudes = f.amplitudes;
    headers = f.headers;
    timestamp = now;
  },
  clear f,
)

unfoldable pub matches : TcpScanFactory → ℕ → Bool
unfolding factory_empty
matches f scan_number = not (factory_empty f) && has_number (back f.headers) scan_number

-- The output vector of the source is empty at each call.
unfoldable pub get_headers : TcpScanFactory → List Header
get_headers f = f.headers

instance abbrev pub tcp_factory : ScanFactory TcpScanFactory
tcp_factory = record {
  add_packet = add_packet;
  factory_empty = factory_empty;
  is_complete = is_complete;
  output = output;
  clear = clear;
  matches = matches;
  get_headers = get_headers;
}

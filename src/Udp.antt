-- ===== src/Udp.antt =====
-- UDPLink (include/DataLink/UDPLink.hpp, src/DataLink/UDPLink.cpp): the setup of the socket, the
-- reception of datagrams, and the loop that extracts packets from them.
pub mod Received
pub mod Unmixed
pub mod Datagrams
pub mod Parts
pub mod WholeScan
use r.Base.{
  ℕ, ◌-◌, Bool, true, false, not, ◌||◌, List, [], ◌∷◌, ◌++◌, length, drop, replicate, Option, none,
  some, Outcome, done, fault, threw, if◌then◌else◌, ◌==◌,
}
use r.Wire.{Buffer}
use r.Scan.Udp.{UdpScanFactory, udp_factory}
use r.Extract.{Extraction}
use r.Extract.Rounds.{Rounds, extraction_rounds}
use r.Link.{DataLink, publish, fire_connection_lost, initial_link}

abbrev pub datagram_size : ℕ
datagram_size = 65535

-- `std::floor(DATAGRAM_SIZE * 1.5)`
abbrev pub initial_extraction_size : ℕ
initial_extraction_size = 98302

pub record UdpLink : Type 0 where
  pub link : DataLink UdpScanFactory
  pub extraction_buffer : Buffer

-- What the three steps of the setup report: whether each met an error.
pub record Setup : Type 0 where
  pub open_error : Bool
  pub option_error : Bool
  pub bind_error : Bool

pub setup_failed : Setup → Bool
setup_failed s = s.open_error || s.option_error || s.bind_error

-- The constructor, with whether a first receive is started.
pub make_link : Setup → UdpLink × Bool
unfolding initial_link setup_failed
make_link s = (
  record {
    link = record (initial_link (record { packets = []; number_of_points = 0 })) {
      is_connected = not (setup_failed s);
    };
    extraction_buffer = replicate initial_extraction_size 0;
  },
  not (setup_failed s),
)

pub record Progress : Type 0 where
  pub position : ℕ
  pub link : DataLink UdpScanFactory

-- The part of a round behind the extraction.
pub after_extraction : (ℕ → ℕ) → Progress → Extraction × UdpScanFactory → Progress
unfolding publish
after_extraction clock p (x, f) = record {
  position = x.position;
  link = publish udp_factory clock (record p.link { scan_factory = f });
}

-- `for (;;)`.
abbrev pub udp_rounds : (ℕ → ℕ) → Rounds UdpScanFactory Progress
unfolding after_extraction
udp_rounds clock = record {
  factory = udp_factory;
  position_of = λ p. p.position;
  factory_of = λ p. p.link.scan_factory;
  after = after_extraction clock;
}

-- `tryExtractingScanFromByteRange` over the whole extraction buffer.
pub try_extracting_scan : (ℕ → ℕ) → ℕ → UdpLink → Option (Outcome Progress)
unfolding extraction_rounds
try_extracting_scan clock fuel u =
    extraction_rounds (udp_rounds clock) u.extraction_buffer fuel
      (record { position = 0; link = u.link })

pub remove_used_byte_range : ℕ → Buffer → Buffer
remove_used_byte_range position buffer =
    if length buffer - position == 0 then [] else drop position buffer

-- What a transfer came to: the bytes of the datagram, or an error.
pub data Reception : Type 0 where
  bytes : List ℕ → Reception
  error_code : Reception

pub finish_reception : Buffer → Outcome Progress → Outcome (UdpLink × Bool)
unfolding remove_used_byte_range
finish_reception buffer (done p) =
    done
      (record { link = p.link; extraction_buffer = remove_used_byte_range p.position buffer }, true)
finish_reception buffer fault = fault
finish_reception buffer (threw e) = threw e

-- `onBytesReceived`, with whether a further receive is started.
pub on_bytes_received : (ℕ → ℕ) → ℕ → Reception → UdpLink → Option (Outcome (UdpLink × Bool))
unfolding fire_connection_lost try_extracting_scan finish_reception
on_bytes_received clock fuel error_code u = some (
    done (record u { link = fire_connection_lost (record u.link { is_connected = false }) }, false))
on_bytes_received clock fuel (bytes received) u =
    let buffer = u.extraction_buffer ++ received in
    elim (try_extracting_scan clock fuel (record u { extraction_buffer = buffer })) [
      | none ↦ none
      | some r ↦ some (finish_reception buffer r)
    ]

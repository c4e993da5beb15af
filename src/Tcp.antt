-- ===== src/Tcp.antt =====
-- TCPLink (include/DataLink/TCPLink.hpp, src/DataLink/TCPLink.cpp): the reception of bytes, the loop
-- that extracts packets from them, and the sizes of the buffers.
pub mod Sizes
pub mod Received
pub mod Parts
pub mod Unmixed
pub mod Connection
pub mod WholeScan
use r.Base.{
  ℕ, zero, suc, ◌+◌, ◌-◌, ◌%◌, ◌^◌, min, max, Bool, true, false, List, [], ◌∷◌, ◌++◌, length, drop,
  Option, none, some, Outcome, done, fault, threw, Exception, ltb, ◌==◌, if◌then◌else◌,
}
use r.Wire.{Buffer, Header}
use r.Scan.{ScanFactory}
use r.Scan.Tcp.{TcpScanFactory, tcp_factory}
use r.Extract.{Extraction, factory_left}
use r.Extract.Rounds.{Rounds, extraction_rounds, rounds_left}
use r.Link.{DataLink, publish, fire_connection_lost}

abbrev pub default_reception_buffer_size : ℕ
default_reception_buffer_size = 4096

abbrev pub max_reception_buffer_size : ℕ
max_reception_buffer_size = 32768

pub sum_of_packet_sizes : ℕ → List Header → ℕ
sum_of_packet_sizes byte_size [] = byte_size
sum_of_packet_sizes byte_size (h ∷ hs) =
    sum_of_packet_sizes ((byte_size + h.packet_size) % 2 ^ 32) hs

pub compute_bounded_required_buffer_size : List Header → ℕ
unfolding sum_of_packet_sizes
compute_bounded_required_buffer_size headers =
    min max_reception_buffer_size
      (max (sum_of_packet_sizes 0 headers) default_reception_buffer_size)

-- What the loop carries from round to round.
pub record Progress : Type 0 where
  pub position : ℕ
  pub missing : ℕ
  pub full_scan_size : Option ℕ
  pub link : DataLink TcpScanFactory

-- The part of a round behind the extraction.
unfoldable pub after_extraction : (ℕ → ℕ) → Progress → Extraction × TcpScanFactory → Progress
unfolding compute_bounded_required_buffer_size publish
after_extraction clock p (x, f) =
    let link = record p.link { scan_factory = f } in
    record {
      position = x.position;
      missing = x.missing;
      full_scan_size =
          if tcp_factory.is_complete f
          then some (compute_bounded_required_buffer_size (tcp_factory.get_headers f))
          else p.full_scan_size;
      link = publish tcp_factory clock link;
    }

-- `for (;;)`.
abbrev pub tcp_rounds : (ℕ → ℕ) → Rounds TcpScanFactory Progress
unfolding after_extraction
tcp_rounds clock = record {
  factory = tcp_factory;
  position_of = λ p. p.position;
  factory_of = λ p. p.link.scan_factory;
  after = after_extraction clock;
}

-- The tuple that `tryExtractingScanFromByteRange` returns, beside the link.
pub record Extracted : Type 0 where
  pub until : ℕ
  pub bytes_to_transfer : ℕ
  pub full_scan_size : Option ℕ
  pub link : DataLink TcpScanFactory

pub to_transfer : ℕ → ℕ → ℕ
to_transfer missing capacity = if missing == 0 then capacity else min missing capacity

pub finish_extraction : ℕ → Outcome Progress → Outcome Extracted
unfolding to_transfer
finish_extraction capacity (done p) = done (record {
  until = p.position;
  bytes_to_transfer = to_transfer p.missing capacity;
  full_scan_size = p.full_scan_size;
  link = p.link;
})
finish_extraction capacity fault = fault
finish_extraction capacity (threw e) = threw e

pub record TcpLink : Type 0 where
  pub link : DataLink TcpScanFactory
  pub reception_size : ℕ
  pub extraction_buffer : Buffer

-- `tryExtractingScanFromByteRange` over the whole extraction buffer.
pub try_extracting_scan : (ℕ → ℕ) → ℕ → TcpLink → Option (Outcome Extracted)
unfolding extraction_rounds finish_extraction
try_extracting_scan clock fuel t =
    let start : Progress = record {
      position = 0;
      missing = 0;
      full_scan_size = none;
      link = t.link;
    } in
    elim (extraction_rounds (tcp_rounds clock) t.extraction_buffer fuel start) [
      | none ↦ none
      | some r ↦ some (finish_extraction t.reception_size r)
    ]

pub remove_used_byte_range : ℕ → Buffer → Buffer
remove_used_byte_range position buffer =
    if length buffer - position == 0 then [] else drop position buffer

pub resize_buffers : Option ℕ → ℕ → ℕ
resize_buffers none reception_size = reception_size
resize_buffers (some new_size) reception_size =
    if ltb reception_size new_size then new_size else reception_size

-- `onBytesReceived`: the link afterwards, with the number of bytes of the next `async_read`, if one is
-- started. `received` is what the transfer put into the reception buffer, or the error that it met.
pub data Reception : Type 0 where
  bytes : List ℕ → Reception
  error_code : Reception

pub finish_reception : Buffer → ℕ → Outcome Extracted → Outcome (TcpLink × Option ℕ)
unfolding remove_used_byte_range resize_buffers
finish_reception buffer reception_size (done x) = done (
  record {
    link = x.link;
    reception_size = resize_buffers x.full_scan_size reception_size;
    extraction_buffer = remove_used_byte_range x.until buffer;
  },
  some x.bytes_to_transfer,
)
finish_reception buffer reception_size fault = fault
finish_reception buffer reception_size (threw e) = threw e

pub on_bytes_received : (ℕ → ℕ) → ℕ → Reception → TcpLink → Option (Outcome (TcpLink × Option ℕ))
unfolding fire_connection_lost try_extracting_scan finish_reception
on_bytes_received clock fuel error_code t =
    some (
      done
        (record t { link = fire_connection_lost (record t.link { is_connected = false }) }, none))
on_bytes_received clock fuel (bytes received) t =
    let buffer = t.extraction_buffer ++ received in
    elim (try_extracting_scan clock fuel (record t { extraction_buffer = buffer })) [
      | none ↦ none
      | some r ↦ some (finish_reception buffer t.reception_size r)
    ]

-- The link when an exception leaves `onBytesReceived`: the bytes are in the extraction buffer, and the
-- rounds before the one that throws have done what they do.
unfoldable pub left_by_exception : (ℕ → ℕ) → ℕ → List ℕ → TcpLink → TcpLink
unfolding rounds_left factory_left
left_by_exception clock fuel received t =
    let buffer = t.extraction_buffer ++ received in
    let start : Progress = record {
      position = 0;
      missing = 0;
      full_scan_size = none;
      link = t.link;
    } in
    let p = rounds_left (tcp_rounds clock) buffer fuel start in
    record t {
      link = record p.link {
        scan_factory =
            factory_left tcp_factory buffer p.position (length buffer) p.link.scan_factory;
      };
      extraction_buffer = buffer;
    }

-- ===== src/Parameters/Handles.antt =====
-- The builders of TCP and UDP handles of include/Control/Parameters.hpp.
pub mod Sections
pub mod Watchdogs
pub mod Destinations
use r.Base.{
  ℕ, zero, suc, ◌+◌, Bool, true, false, List, [], ◌∷◌, ◌++◌, Text, codes, ParametersMap, assign,
}
use r.Base.Decimal.{to_string}
use r.Wire.{ℤ, pos, negsuc}
use r.Parameters.ReadWrite.{rw_method, on_method, off_method, build}

pub data PacketType : Type 0 where
  a b c : PacketType

abbrev pub scan_packet_string : PacketType → Text
scan_packet_string a = codes "A"
scan_packet_string b = codes "B"
scan_packet_string c = codes "C"

pub data Crc : Type 0 where
  no_crc crc32c : Crc

abbrev pub crc_to_string : Crc → Text
crc_to_string no_crc = codes "none"
crc_to_string crc32c = codes "crc32c"

-- `std::to_string` of an int.
unfoldable pub int_to_string : ℤ → Text
unfolding to_string
int_to_string (pos n) = to_string n
int_to_string (negsuc n) = b'-' ∷ to_string (suc n)

pub data TcpHandleCall : Type 0 where
  with_watchdog without_watchdog : TcpHandleCall
  with_watchdog_timeout : ℕ → TcpHandleCall
  with_packet_type : PacketType → TcpHandleCall
  with_packet_crc : Crc → TcpHandleCall
  with_start_angle : ℤ → TcpHandleCall
  with_number_of_points_per_scan with_number_of_scan_to_skip : ℕ → TcpHandleCall

unfoldable pub handle_tcp : TcpHandleCall → ParametersMap → ParametersMap
unfolding rw_method to_string int_to_string
handle_tcp with_watchdog = on_method (codes "watchdog")
handle_tcp without_watchdog = off_method (codes "watchdog")
handle_tcp (with_watchdog_timeout timeout) = rw_method (codes "watchdogtimeout") (to_string timeout)
handle_tcp (with_packet_type packet_type) =
    rw_method (codes "packet_type") (scan_packet_string packet_type)
handle_tcp (with_packet_crc crc_type) = rw_method (codes "packet_crc") (crc_to_string crc_type)
handle_tcp (with_start_angle start_angle) =
    rw_method (codes "start_angle") (int_to_string start_angle)
handle_tcp (with_number_of_points_per_scan number) =
    rw_method (codes "max_num_points_scan") (to_string number)
handle_tcp (with_number_of_scan_to_skip number) = rw_method (codes "skip_scans") (to_string number)

-- The UDP builder has the calls of the TCP builder, with the same bodies, and two of its own.
pub data UdpHandleCall : Type 0 where
  with_hostname : Text → UdpHandleCall
  with_port : ℕ → UdpHandleCall
  common : TcpHandleCall → UdpHandleCall

unfoldable pub handle_udp : UdpHandleCall → ParametersMap → ParametersMap
unfolding rw_method to_string handle_tcp
handle_udp (with_hostname hostname) = rw_method (codes "address") hostname
handle_udp (with_port port) = rw_method (codes "port") (to_string port)
handle_udp (common call) = handle_tcp call

-- Both constructors call `withoutWatchdog`.
unfoldable pub tcp_handle : List TcpHandleCall → ParametersMap
unfolding build handle_tcp
tcp_handle calls = build handle_tcp calls (handle_tcp without_watchdog [])

unfoldable pub udp_handle : List UdpHandleCall → ParametersMap
unfolding build handle_udp handle_tcp
udp_handle calls = build handle_udp calls (handle_udp (common without_watchdog) [])

-- ===== src/Parameters/Handles/Sections.antt =====
-- The calls of the handles' builders of include/Control/Parameters.hpp assign a text to a name each.
use r.Base.{◌≡◌, refl, ParametersMap, assign}
use r.Parameters.ReadWrite.{rw_method}
use r.Parameters.ReadWrite.Last.{IsSection, written}
use r.Parameters.Handles.{TcpHandleCall, handle_tcp, UdpHandleCall, handle_udp, common}
use r.Parameters.Handles as Handles

pub handle_tcp-IsSection : IsSection handle_tcp
unfolding handle_tcp rw_method assign
handle_tcp-IsSection = record { assigns = go }
  where
    go :
        (call : TcpHandleCall) (m : ParametersMap)
        → handle_tcp call m ≡ assign (written handle_tcp call).0 (written handle_tcp call).1 m
    go Handles.with_watchdog m = refl
    go Handles.without_watchdog m = refl
    go (Handles.with_watchdog_timeout timeout) m = refl
    go (Handles.with_packet_type packet_type) m = refl
    go (Handles.with_packet_crc crc_type) m = refl
    go (Handles.with_start_angle start_angle) m = refl
    go (Handles.with_number_of_points_per_scan number) m = refl
    go (Handles.with_number_of_scan_to_skip number) m = refl

pub handle_udp-IsSection : IsSection handle_udp
unfolding handle_udp rw_method assign
handle_udp-IsSection = record { assigns = go }
  where
    go :
        (call : UdpHandleCall) (m : ParametersMap)
        → handle_udp call m ≡ assign (written handle_udp call).0 (written handle_udp call).1 m
    go (Handles.with_hostname hostname) m = refl
    go (Handles.with_port port) m = refl
    go (common call) m = handle_tcp-IsSection.assigns call m

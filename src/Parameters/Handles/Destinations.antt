-- ===== src/Parameters/Handles/Destinations.antt =====
-- From the calls of a UDP handle's builder (include/Control/Parameters.hpp) to the parameters that the
-- DataLinkBuilder reads of its map (src/DataLink/DataLinkBuilder.cpp).
use r.Base.{
  ℕ, ◌^◌, ◌<◌, ◌≡◌, refl, ◌∙◌, arith, Bool, false, List, [], ◌∷◌, All, Option, none, some,
  if◌then◌else◌, Text, codes, ParametersMap, lookup, assign, same, lookup-assign_if, Outcome, done,
  builder_exception, system_error, or_throw, ◌>>=◌, lt→ltb,
}
use r.Base.Decimal.{stoi-to_string}
use r.Wire.{pos}
use r.Parameters.ReadWrite.{rw_method, build}
use r.Parameters.Handles.{
  TcpHandleCall, with_watchdog, without_watchdog, with_watchdog_timeout, with_packet_type,
  with_packet_crc, with_start_angle, with_number_of_points_per_scan, with_number_of_scan_to_skip,
  UdpHandleCall, with_hostname, with_port, common, handle_tcp, handle_udp, udp_handle,
}
use r.Parameters.Handles.Watchdogs.{
  watchdog_asked, timeout_asked, watchdog_expected, Tells, printed, handle_tcp-Tells,
  extract_watchdog_parameters-Tells, flag_if, time_if,
}
use r.Builder.{
  put, get, cast_udp_handle, udp_builder, Watchdog, find_value_or_throw, extract_udp_parameters,
  UdpParameters, extract_watchdog_parameters,
}

-- The calls that both builders have.
abbrev pub commons : List UdpHandleCall → List TcpHandleCall
commons [] = []
commons (with_hostname hostname ∷ calls) = commons calls
commons (with_port port ∷ calls) = commons calls
commons (common call ∷ calls) = call ∷ commons calls

-- The port and the host that a client has asked for: the last of its calls counts.
abbrev pub port_asked : List UdpHandleCall → Option ℕ → Option ℕ
port_asked [] before = before
port_asked (with_hostname hostname ∷ calls) before = port_asked calls before
port_asked (with_port port ∷ calls) before = port_asked calls (some port)
port_asked (common call ∷ calls) before = port_asked calls before

abbrev pub hostname_asked : List UdpHandleCall → Option Text → Option Text
hostname_asked [] before = before
hostname_asked (with_hostname hostname ∷ calls) before = hostname_asked calls (some hostname)
hostname_asked (with_port port ∷ calls) before = hostname_asked calls before
hostname_asked (common call ∷ calls) before = hostname_asked calls before

-- A port is a uint16_t.
abbrev pub IsCall : UdpHandleCall → Type 0
IsCall (with_hostname hostname) = Unit {0}
IsCall (with_port port) = port < 2 ^ 16
IsCall (common call) = Unit {0}

abbrev IsPort : Option ℕ → Type 0
IsPort none = Unit {0}
IsPort (some port) = port < 2 ^ 16

port_asked-IsPort :
    (calls : List UdpHandleCall) (before : Option ℕ)
    → All IsCall calls
    → IsPort before
    → IsPort (port_asked calls before)
port_asked-IsPort [] before all h = h
port_asked-IsPort (with_hostname t ∷ calls) before all h = port_asked-IsPort calls before all.1 h
port_asked-IsPort (with_port p ∷ calls) before all h = port_asked-IsPort calls (some p) all.1 all.0
port_asked-IsPort (common c ∷ calls) before all h = port_asked-IsPort calls before all.1 h

record Directs (m : ParametersMap) (port : Option ℕ) (hostname : Option Text) : Type 0 where
  to_port : lookup (codes "port") m ≡ printed port
  to_host : lookup (codes "address") m ≡ hostname

port_if :
    (name value : Text) (m : ParametersMap)
    → lookup (codes "port") (assign name value m)
      ≡ (if same name (codes "port") then some value else lookup (codes "port") m)
port_if name value m = lookup-assign_if name (codes "port") value m

host_if :
    (name value : Text) (m : ParametersMap)
    → lookup (codes "address") (assign name value m)
      ≡ (if same name (codes "address") then some value else lookup (codes "address") m)
host_if name value m = lookup-assign_if name (codes "address") value m

handle_tcp-Directs :
    (call : TcpHandleCall) (m : ParametersMap) (port : Option ℕ) (hostname : Option Text)
    → Directs m port hostname
    → Directs (handle_tcp call m) port hostname
unfolding handle_tcp rw_method same
handle_tcp-Directs with_watchdog m port hostname d = record {
  to_port = port_if _ _ m ∙ d.to_port;
  to_host = host_if _ _ m ∙ d.to_host;
}
handle_tcp-Directs without_watchdog m port hostname d = record {
  to_port = port_if _ _ m ∙ d.to_port;
  to_host = host_if _ _ m ∙ d.to_host;
}
handle_tcp-Directs (with_watchdog_timeout n) m port hostname d = record {
  to_port = port_if _ _ m ∙ d.to_port;
  to_host = host_if _ _ m ∙ d.to_host;
}
handle_tcp-Directs (with_packet_type p) m port hostname d = record {
  to_port = port_if _ _ m ∙ d.to_port;
  to_host = host_if _ _ m ∙ d.to_host;
}
handle_tcp-Directs (with_packet_crc x) m port hostname d = record {
  to_port = port_if _ _ m ∙ d.to_port;
  to_host = host_if _ _ m ∙ d.to_host;
}
handle_tcp-Directs (with_start_angle z) m port hostname d = record {
  to_port = port_if _ _ m ∙ d.to_port;
  to_host = host_if _ _ m ∙ d.to_host;
}
handle_tcp-Directs (with_number_of_points_per_scan n) m port hostname d = record {
  to_port = port_if _ _ m ∙ d.to_port;
  to_host = host_if _ _ m ∙ d.to_host;
}
handle_tcp-Directs (with_number_of_scan_to_skip n) m port hostname d = record {
  to_port = port_if _ _ m ∙ d.to_port;
  to_host = host_if _ _ m ∙ d.to_host;
}

build-Directs :
    (calls : List UdpHandleCall) (m : ParametersMap) (port : Option ℕ) (hostname : Option Text)
    → Directs m port hostname
    → Directs (build handle_udp calls m) (port_asked calls port) (hostname_asked calls hostname)
unfolding build handle_udp rw_method same
build-Directs [] m port hostname d = d
build-Directs (with_hostname t ∷ calls) m port hostname d =
    build-Directs calls (handle_udp (with_hostname t) m) port (some t)
      (record { to_port = port_if _ _ m ∙ d.to_port; to_host = host_if _ _ m })
build-Directs (with_port p ∷ calls) m port hostname d =
    build-Directs calls (handle_udp (with_port p) m) (some p) hostname
      (record { to_port = port_if _ _ m; to_host = host_if _ _ m ∙ d.to_host })
build-Directs (common c ∷ calls) m port hostname d =
    build-Directs calls (handle_udp (common c) m) port hostname
      (handle_tcp-Directs c m port hostname d)

build-Tells :
    (calls : List UdpHandleCall) (m : ParametersMap) (b : Bool) (timeout : Option ℕ)
    → Tells m b timeout
    → Tells
        (build handle_udp calls m)
        (watchdog_asked (commons calls) b)
        (timeout_asked (commons calls) timeout)
unfolding build handle_udp rw_method same
build-Tells [] m b timeout t = t
build-Tells (with_hostname h ∷ calls) m b timeout t =
    build-Tells calls (handle_udp (with_hostname h) m) b timeout
      (record { flag = flag_if _ _ m ∙ t.flag; time = time_if _ _ m ∙ t.time })
build-Tells (with_port p ∷ calls) m b timeout t =
    build-Tells calls (handle_udp (with_port p) m) b timeout
      (record { flag = flag_if _ _ m ∙ t.flag; time = time_if _ _ m ∙ t.time })
build-Tells (common with_watchdog ∷ calls) m b timeout t =
    build-Tells calls (handle_tcp with_watchdog m) _ _
      (handle_tcp-Tells with_watchdog m b timeout t)
build-Tells (common without_watchdog ∷ calls) m b timeout t =
    build-Tells calls (handle_tcp without_watchdog m) _ _
      (handle_tcp-Tells without_watchdog m b timeout t)
build-Tells (common (with_watchdog_timeout n) ∷ calls) m b timeout t =
    build-Tells calls (handle_tcp (with_watchdog_timeout n) m) _ _
      (handle_tcp-Tells (with_watchdog_timeout n) m b timeout t)
build-Tells (common (with_packet_type p) ∷ calls) m b timeout t =
    build-Tells calls (handle_tcp (with_packet_type p) m) _ _
      (handle_tcp-Tells (with_packet_type p) m b timeout t)
build-Tells (common (with_packet_crc x) ∷ calls) m b timeout t =
    build-Tells calls (handle_tcp (with_packet_crc x) m) _ _
      (handle_tcp-Tells (with_packet_crc x) m b timeout t)
build-Tells (common (with_start_angle z) ∷ calls) m b timeout t =
    build-Tells calls (handle_tcp (with_start_angle z) m) _ _
      (handle_tcp-Tells (with_start_angle z) m b timeout t)
build-Tells (common (with_number_of_points_per_scan n) ∷ calls) m b timeout t =
    build-Tells calls (handle_tcp (with_number_of_points_per_scan n) m) _ _
      (handle_tcp-Tells (with_number_of_points_per_scan n) m b timeout t)
build-Tells (common (with_number_of_scan_to_skip n) ∷ calls) m b timeout t =
    build-Tells calls (handle_tcp (with_number_of_scan_to_skip n) m) _ _
      (handle_tcp-Tells (with_number_of_scan_to_skip n) m b timeout t)

-- What the DataLinkBuilder is to make of that.
abbrev pub udp_expected :
    (Text → Option Text)
    → ParametersMap
    → Outcome Watchdog
    → Option ℕ
    → Option Text
    → Outcome UdpParameters
udp_expected from_string builder watchdog port hostname = watchdog >>= (λ w.
    or_throw builder_exception port >>= (λ p. or_throw builder_exception hostname >>= (λ h.
      or_throw system_error (from_string h)
      >>= (λ a. done (record { builder = builder; watchdog = w; address = a; port = pos p })))))

extract_udp_parameters_lem :
    (from_string : Text → Option Text) (m : ParametersMap) (watchdog : Outcome Watchdog)
    (port : Option ℕ) (hostname : Option Text)
    → extract_watchdog_parameters m ≡ watchdog
    → Directs m port hostname
    → IsPort port
    → extract_udp_parameters from_string (udp_builder m)
      ≡ udp_expected from_string m watchdog port hostname
unfolding extract_udp_parameters udp_builder put get cast_udp_handle lookup assign same
    find_value_or_throw
extract_udp_parameters_lem from_string m watchdog none hostname w d p = rw (w, d.to_port)
extract_udp_parameters_lem from_string m watchdog (some port) hostname w d p =
    let fits = lt→ltb port (2 ^ 31) (omega arith) in
    rw (w, d.to_port, stoi-to_string port, fits, d.to_host)

-- Whatever calls a client has given to the builder of a UDP handle, with ports below 2^16, the
-- DataLinkBuilder reads of it what the client has asked for: the watchdog as of a TCP handle, then the
-- port and the host of the last calls for them. It throws its own exception where a port or a host was
-- never given, and boost's where the host is no address.
pub extract_udp_parameters-udp_handle :
    (from_string : Text → Option Text) (calls : List UdpHandleCall)
    → All IsCall calls
    → extract_udp_parameters from_string (udp_builder (udp_handle calls))
      ≡ udp_expected from_string
          (udp_handle calls)
          (watchdog_expected
            (watchdog_asked (commons calls) false)
            (timeout_asked (commons calls) none))
          (port_asked calls none)
          (hostname_asked calls none)
unfolding udp_handle handle_udp handle_tcp rw_method assign lookup same
extract_udp_parameters-udp_handle from_string calls all =
    extract_udp_parameters_lem from_string (udp_handle calls) _ _ _
      (extract_watchdog_parameters-Tells (udp_handle calls) _ _
        (build-Tells calls _ false none (record { flag = refl; time = refl })))
      (build-Directs calls _ none none (record { to_port = refl; to_host = refl }))
      (port_asked-IsPort calls none all tt)

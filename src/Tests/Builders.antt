-- ===== src/Tests/Builders.antt =====
-- The theorems about parameters and the status at concrete inputs.
use r.Base.{
  ◌≡◌, ◌^◌, ◌-◌, refl, arith, false, List, [], ◌∷◌, some, none, done, threw, invalid_argument,
  codes, ParametersMap, lookup, ◌>>=◌, same,
}
use r.Base.Decimal.{numeral, value}
use r.Wire.{pos}
use r.Device.{success, DeviceAnswer}
use r.Commands.{Device}
use r.Commands.Trees.{TreeReads}
use r.Parameters.ReadOnly.{request, system_status, push_back}
use r.Parameters.Handles.{
  TcpHandleCall, with_watchdog, with_watchdog_timeout, with_start_angle, UdpHandleCall,
  with_hostname, with_port, common, tcp_handle, udp_handle,
}
use r.Parameters.Handles.Watchdogs.{
  watchdog_asked, timeout_asked, watchdog_expected, extract_tcp_parameters-tcp_handle,
}
use r.Parameters.Handles.Destinations.{
  commons, port_asked, hostname_asked, udp_expected, extract_udp_parameters-udp_handle,
}
use r.Builder.{tcp_builder, udp_builder, extract_tcp_parameters, extract_udp_parameters}
use r.Status.{get_number, get_status_flags}
use r.Status.Obtained.{
  requested_status, asking_round, nothing, below_zero, get_number-asking_round,
  get_status_flags-asking_round,
}
use r.Status.Watcher.{StatusWatcher}

abbrev tcp_calls : List TcpHandleCall
tcp_calls = with_watchdog_timeout 5000 ∷ with_watchdog ∷ with_start_angle (pos 0) ∷ []

extract_tcp_parameters-tcp_handle_example :
    extract_tcp_parameters (tcp_builder (tcp_handle tcp_calls)) ≡ (
      watchdog_expected (watchdog_asked tcp_calls false) (timeout_asked tcp_calls none)
      >>= (λ watchdog. done (tcp_handle tcp_calls, watchdog)))
extract_tcp_parameters-tcp_handle_example = extract_tcp_parameters-tcp_handle tcp_calls

abbrev udp_calls : List UdpHandleCall
udp_calls = with_port 50000 ∷ common with_watchdog ∷ with_hostname (codes "10.0.0.1") ∷ []

extract_udp_parameters-udp_handle_example :
    extract_udp_parameters (λ t. some t) (udp_builder (udp_handle udp_calls))
    ≡ udp_expected
        (λ t. some t)
        (udp_handle udp_calls)
        (watchdog_expected
          (watchdog_asked (commons udp_calls) false)
          (timeout_asked (commons udp_calls) none))
        (port_asked udp_calls none)
        (hostname_asked udp_calls none)
extract_udp_parameters-udp_handle_example =
    extract_udp_parameters-udp_handle (λ t. some t) udp_calls (omega arith, (tt, (tt, tt)))

-- A stand-in for property trees: a map.
abbrev reads : TreeReads ParametersMap
unfolding lookup
reads = record { get_optional = λ name tree. lookup name tree; get_children = λ name tree. none }

abbrev tree : ParametersMap
tree = (codes "temperature_min", b'-' ∷ numeral (1 ∷ 5 ∷ [])) ∷ []

abbrev answer : DeviceAnswer ParametersMap
answer = record { request_result = success; property_tree = tree }

abbrev device : Device ParametersMap
device = record { send = λ command ps. done answer; submit = λ command ps. some answer }

abbrev watcher : StatusWatcher
watcher = record {
  last_status_received = [];
  on_status_available_callbacks = 1 ∷ [];
  on_device_connected_callbacks = [];
  on_device_disconnected_callbacks = [];
  is_connected = false;
  disconnection_trigger_threshold = 3;
  disconnection_hit_count = 2;
  events = [];
}

get_number-asking_round_example :
    (w' : StatusWatcher) × (asking_round reads device watcher ≡ done w')
    × (get_number w'.last_status_received (codes "temperature_min") 9
        ≡ done (2 ^ 64 - value (1 ∷ 5 ∷ [])))
unfolding requested_status request system_status push_back same lookup
get_number-asking_round_example =
    get_number-asking_round reads device watcher tree refl (below_zero 1 (5 ∷ []))
      ((omega arith, (omega arith, tt)), omega arith, omega arith) (codes "temperature_min") 9 refl
      refl

get_status_flags-asking_round_example :
    (w' : StatusWatcher) × (asking_round reads device watcher ≡ done w')
    × (get_status_flags w'.last_status_received ≡ threw invalid_argument)
unfolding lookup same
get_status_flags-asking_round_example =
    get_status_flags-asking_round reads device watcher tree refl nothing tt refl

-- ===== src/Parameters/Handles/Watchdogs.antt =====
-- From the calls of a handle's builder (include/Control/Parameters.hpp) to the parameters that the
-- DataLinkBuilder reads of its map (src/DataLink/DataLinkBuilder.cpp).
use r.Base.{
  ℕ, ◌^◌, ◌≡◌, refl, ◌∙◌, Bool, true, false, Bool-cases, inl, inr, List, [], ◌∷◌, Option, none,
  some, if◌then◌else◌, Text, codes, ParametersMap, lookup, assign, same, lookup-assign_if, Outcome,
  done, threw, builder_exception, out_of_range, ◌>>=◌, ltb,
}
use r.Base.Decimal.{to_string, stoi-to_string}
use r.Wire.{pos}
use r.Parameters.ReadWrite.{rw_method, build}
use r.Parameters.Handles.{
  TcpHandleCall, with_watchdog, without_watchdog, with_watchdog_timeout, with_packet_type,
  with_packet_crc, with_start_angle, with_number_of_points_per_scan, with_number_of_scan_to_skip,
  handle_tcp, tcp_handle,
}
use r.Builder.{
  put, get, cast_tcp_handle, tcp_builder, Watchdog, find_value_or_default, find_value_or_throw,
  extract_watchdog_parameters, extract_tcp_parameters,
}

-- What a client has asked for: the last of its calls counts.
abbrev pub watchdog_asked : List TcpHandleCall → Bool → Bool
watchdog_asked [] before = before
watchdog_asked (with_watchdog ∷ calls) before = watchdog_asked calls true
watchdog_asked (without_watchdog ∷ calls) before = watchdog_asked calls false
watchdog_asked (with_watchdog_timeout n ∷ calls) before = watchdog_asked calls before
watchdog_asked (with_packet_type t ∷ calls) before = watchdog_asked calls before
watchdog_asked (with_packet_crc t ∷ calls) before = watchdog_asked calls before
watchdog_asked (with_start_angle n ∷ calls) before = watchdog_asked calls before
watchdog_asked (with_number_of_points_per_scan n ∷ calls) before = watchdog_asked calls before
watchdog_asked (with_number_of_scan_to_skip n ∷ calls) before = watchdog_asked calls before

abbrev pub timeout_asked : List TcpHandleCall → Option ℕ → Option ℕ
timeout_asked [] before = before
timeout_asked (with_watchdog ∷ calls) before = timeout_asked calls before
timeout_asked (without_watchdog ∷ calls) before = timeout_asked calls before
timeout_asked (with_watchdog_timeout n ∷ calls) before = timeout_asked calls (some n)
timeout_asked (with_packet_type t ∷ calls) before = timeout_asked calls before
timeout_asked (with_packet_crc t ∷ calls) before = timeout_asked calls before
timeout_asked (with_start_angle n ∷ calls) before = timeout_asked calls before
timeout_asked (with_number_of_points_per_scan n ∷ calls) before = timeout_asked calls before
timeout_asked (with_number_of_scan_to_skip n ∷ calls) before = timeout_asked calls before

-- The configuration of the watchdog: 60 seconds where there is none.
abbrev pub watchdog_expected : Bool → Option ℕ → Outcome Watchdog
watchdog_expected false timeout = done (false, pos 60000)
watchdog_expected true none = threw builder_exception
watchdog_expected true (some n) = if ltb n (2 ^ 31) then done (true, pos n) else threw out_of_range

abbrev pub on_off : Bool → Text
on_off true = codes "on"
on_off false = codes "off"

abbrev pub printed : Option ℕ → Option Text
printed none = none
printed (some n) = some (to_string n)

-- What a map tells of the watchdog.
pub record Tells (m : ParametersMap) (b : Bool) (timeout : Option ℕ) : Type 0 where
  pub flag : lookup (codes "watchdog") m ≡ some (on_off b)
  pub time : lookup (codes "watchdogtimeout") m ≡ printed timeout

abbrev pub watchdog_step : TcpHandleCall → Bool → Bool
watchdog_step call before = watchdog_asked (call ∷ []) before

abbrev pub timeout_step : TcpHandleCall → Option ℕ → Option ℕ
timeout_step call before = timeout_asked (call ∷ []) before

pub flag_if :
    (name value : Text) (m : ParametersMap)
    → lookup (codes "watchdog") (assign name value m)
      ≡ (if same name (codes "watchdog") then some value else lookup (codes "watchdog") m)
flag_if name value m = lookup-assign_if name (codes "watchdog") value m

pub time_if :
    (name value : Text) (m : ParametersMap)
    → lookup (codes "watchdogtimeout") (assign name value m) ≡ (
        if same name (codes "watchdogtimeout")
        then some value
        else lookup (codes "watchdogtimeout") m)
time_if name value m = lookup-assign_if name (codes "watchdogtimeout") value m

pub handle_tcp-Tells :
    (call : TcpHandleCall) (m : ParametersMap) (b : Bool) (timeout : Option ℕ)
    → Tells m b timeout
    → Tells (handle_tcp call m) (watchdog_step call b) (timeout_step call timeout)
unfolding handle_tcp rw_method same
handle_tcp-Tells with_watchdog m b timeout t = record {
  flag = flag_if _ _ m;
  time = time_if _ _ m ∙ t.time;
}
handle_tcp-Tells without_watchdog m b timeout t = record {
  flag = flag_if _ _ m;
  time = time_if _ _ m ∙ t.time;
}
handle_tcp-Tells (with_watchdog_timeout n) m b timeout t = record {
  flag = flag_if _ _ m ∙ t.flag;
  time = time_if _ _ m;
}
handle_tcp-Tells (with_packet_type p) m b timeout t = record {
  flag = flag_if _ _ m ∙ t.flag;
  time = time_if _ _ m ∙ t.time;
}
handle_tcp-Tells (with_packet_crc c) m b timeout t = record {
  flag = flag_if _ _ m ∙ t.flag;
  time = time_if _ _ m ∙ t.time;
}
handle_tcp-Tells (with_start_angle z) m b timeout t = record {
  flag = flag_if _ _ m ∙ t.flag;
  time = time_if _ _ m ∙ t.time;
}
handle_tcp-Tells (with_number_of_points_per_scan n) m b timeout t = record {
  flag = flag_if _ _ m ∙ t.flag;
  time = time_if _ _ m ∙ t.time;
}
handle_tcp-Tells (with_number_of_scan_to_skip n) m b timeout t = record {
  flag = flag_if _ _ m ∙ t.flag;
  time = time_if _ _ m ∙ t.time;
}

pub extract_watchdog_parameters-Tells :
    (m : ParametersMap) (b : Bool) (timeout : Option ℕ)
    → Tells m b timeout
    → extract_watchdog_parameters m ≡ watchdog_expected b timeout
unfolding extract_watchdog_parameters find_value_or_default find_value_or_throw same
extract_watchdog_parameters-Tells m false timeout t = rw t.flag
extract_watchdog_parameters-Tells m true none t = rw (t.flag, t.time)
extract_watchdog_parameters-Tells m true (some n) t = elim (Bool-cases (ltb n (2 ^ 31))) [
  | inl fits ↦ rw (t.flag, t.time, stoi-to_string n, fits)
  | inr large ↦ rw (t.flag, t.time, stoi-to_string n, large)
]

build-Tells :
    (calls : List TcpHandleCall) (m : ParametersMap) (b : Bool) (timeout : Option ℕ)
    → Tells m b timeout
    → Tells (build handle_tcp calls m) (watchdog_asked calls b) (timeout_asked calls timeout)
unfolding build
build-Tells [] m b timeout t = t
build-Tells (call ∷ calls) m b timeout t =
    step call (build-Tells calls (handle_tcp call m) _ _ (handle_tcp-Tells call m b timeout t))
  where
    step :
        (call : TcpHandleCall)
        → Tells
            (build handle_tcp calls (handle_tcp call m))
            (watchdog_asked calls (watchdog_step call b))
            (timeout_asked calls (timeout_step call timeout))
        → Tells
            (build handle_tcp calls (handle_tcp call m))
            (watchdog_asked (call ∷ calls) b)
            (timeout_asked (call ∷ calls) timeout)
    step with_watchdog t = t
    step without_watchdog t = t
    step (with_watchdog_timeout n) t = t
    step (with_packet_type p) t = t
    step (with_packet_crc c) t = t
    step (with_start_angle z) t = t
    step (with_number_of_points_per_scan n) t = t
    step (with_number_of_scan_to_skip n) t = t

-- Whatever calls a client has given to the builder of a TCP handle, the DataLinkBuilder reads of it what
-- the client has asked for: the watchdog is on exactly if the last call for it said so, with the timeout
-- of the last call for that; where none was given it throws its own exception, and where the timeout is
-- 2^31 or more, out_of_range. Without a watchdog the timeout is 60 seconds.
pub extract_tcp_parameters-tcp_handle :
    (calls : List TcpHandleCall)
    → extract_tcp_parameters (tcp_builder (tcp_handle calls)) ≡ (
        watchdog_expected (watchdog_asked calls false) (timeout_asked calls none)
        >>= (λ watchdog. done (tcp_handle calls, watchdog)))
unfolding extract_tcp_parameters tcp_builder put get cast_tcp_handle lookup assign same
extract_tcp_parameters-tcp_handle calls =
    rw (extract_watchdog_parameters-Tells (tcp_handle calls) _ _ (told calls))
  where
    told :
        (calls : List TcpHandleCall)
        → Tells (tcp_handle calls) (watchdog_asked calls false) (timeout_asked calls none)
    told calls =
        unfold tcp_handle handle_tcp rw_method in
        build-Tells calls (handle_tcp without_watchdog []) false none
          (record { flag = refl; time = refl })

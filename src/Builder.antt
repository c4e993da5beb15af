-- ===== src/Builder.antt =====
-- DataLinkBuilder (include/DataLink/DataLinkBuilder.hpp, src/DataLink/DataLinkBuilder.cpp): from the
-- parameters of a handle to a data link. A link is known here by the kind of its class and its handle.
pub mod Results
use r.Base.{
  ℕ, zero, suc, ◌+◌, ◌-◌, ◌%◌, ◌^◌, Bool, true, false, List, [], ◌∷◌, Option, none, some, Outcome,
  done, fault, threw, builder_exception, bad_any_cast, system_error, Text, codes, ParametersMap,
  lookup, assign, same, if◌then◌else◌, ◌>>=◌, or_throw,
}
use r.Base.Numerals.{stoi}
use r.Wire.{ℤ, pos, negsuc}
use r.Device.{RequestResult, success, failed, same_result}
use r.Commands.{Device}
use r.Commands.Handles.{
  ThrowingReads, HandleInfo, DeviceHandle, request_tcp_handle, request_udp_handle,
  async_request_tcp_handle, async_request_udp_handle,
}

pub data Protocol : Type 0 where
  tcp udp : Protocol

-- `std::any` with what the builder puts into it; a handle's builder is known by the map it builds.
pub data Any : Type 0 where
  protocol_value : Protocol → Any
  tcp_handle udp_handle : ParametersMap → Any

abbrev pub Requirements : Type 0
Requirements = List (Text × Any)

unfoldable pub put : Text → Any → Requirements → Requirements
unfolding assign
put key value requirements = assign key value requirements

unfoldable pub get : Text → Requirements → Option Any
unfolding lookup
get key requirements = lookup key requirements

-- `castAnyOrThrow`, at each of the three types.
unfoldable pub cast_protocol : Option Any → Outcome Protocol
cast_protocol none = threw builder_exception
cast_protocol (some (protocol_value p)) = done p
cast_protocol (some (tcp_handle ps)) = threw bad_any_cast
cast_protocol (some (udp_handle ps)) = threw bad_any_cast

unfoldable pub cast_tcp_handle : Option Any → Outcome ParametersMap
cast_tcp_handle none = threw builder_exception
cast_tcp_handle (some (protocol_value p)) = threw bad_any_cast
cast_tcp_handle (some (tcp_handle ps)) = done ps
cast_tcp_handle (some (udp_handle ps)) = threw bad_any_cast

unfoldable pub cast_udp_handle : Option Any → Outcome ParametersMap
cast_udp_handle none = threw builder_exception
cast_udp_handle (some (protocol_value p)) = threw bad_any_cast
cast_udp_handle (some (tcp_handle ps)) = threw bad_any_cast
cast_udp_handle (some (udp_handle ps)) = done ps

unfoldable pub find_value_or_throw : ParametersMap → Text → Outcome Text
unfolding lookup
find_value_or_throw parameters key = or_throw builder_exception (lookup key parameters)

abbrev or_default : Text → Option Text → Text
or_default default_value none = default_value
or_default default_value (some value) = value

unfoldable pub find_value_or_default : ParametersMap → Text → Text → Text
unfolding lookup
find_value_or_default parameters key default_value =
    or_default default_value (lookup key parameters)

-- The two constructors.
unfoldable pub tcp_builder : ParametersMap → Requirements
unfolding put
tcp_builder builder =
    put (codes "handleBuilder") (tcp_handle builder)
      (put (codes "protocol") (protocol_value tcp) [])

unfoldable pub udp_builder : ParametersMap → Requirements
unfolding put
udp_builder builder =
    put (codes "handleBuilder") (udp_handle builder)
      (put (codes "protocol") (protocol_value udp) [])

-- The value of an `int`.
abbrev pub int_of : Bool × ℕ → ℤ
int_of (false, n) = pos n
int_of (true, zero) = pos 0
int_of (true, suc n) = negsuc n

abbrev pub Watchdog : Type 0
Watchdog = Bool × ℤ

unfoldable pub extract_watchdog_parameters : ParametersMap → Outcome Watchdog
unfolding find_value_or_default find_value_or_throw stoi same
extract_watchdog_parameters parameters =
    if same (find_value_or_default parameters (codes "watchdog") (codes "off")) (codes "on")
    then find_value_or_throw parameters (codes "watchdogtimeout")
      >>= (λ t. stoi t >>= (λ n. done (true, int_of n)))
    else done (false, pos 60000)

unfoldable pub extract_tcp_parameters : Requirements → Outcome (ParametersMap × Watchdog)
unfolding get cast_tcp_handle extract_watchdog_parameters
extract_tcp_parameters requirements =
    cast_tcp_handle (get (codes "handleBuilder") requirements)
    >>= (λ builder. extract_watchdog_parameters builder >>= (λ watchdog. done (builder, watchdog)))

-- An int that becomes an `unsigned short`.
unfoldable pub unsigned_short : ℤ → ℕ
unsigned_short (pos n) = n % 2 ^ 16
unsigned_short (negsuc n) = (2 ^ 16 - (n % 2 ^ 16 + 1)) % 2 ^ 16

pub record UdpParameters : Type 0 where
  pub builder : ParametersMap
  pub watchdog : Watchdog
  pub address : Text
  pub port : ℤ

-- `from_string` of an address is boost's, and throws where the text is none.
unfoldable pub extract_udp_parameters : (Text → Option Text) → Requirements → Outcome UdpParameters
unfolding get cast_udp_handle extract_watchdog_parameters find_value_or_throw stoi
extract_udp_parameters from_string requirements =
    cast_udp_handle (get (codes "handleBuilder") requirements) >>= (λ builder.
      extract_watchdog_parameters builder >>= (λ watchdog.
        find_value_or_throw builder (codes "port") >>= (λ port_text. stoi port_text >>= (λ port.
          find_value_or_throw builder (codes "address") >>= (λ address_text.
            or_throw system_error (from_string address_text) >>= (λ address. done (record {
              builder = builder;
              watchdog = watchdog;
              address = address;
              port = int_of port;
            })))))))

unfoldable pub make_tcp_device_handle : RequestResult × HandleInfo → Text → Watchdog → DeviceHandle
unfolding unsigned_short
make_tcp_device_handle result address watchdog = record {
  value = result.1.handle;
  watchdog_enabled = watchdog.0;
  watchdog_timeout = watchdog.1;
  port = unsigned_short result.1.port;
  ipv4_address = address;
}

unfoldable pub make_udp_device_handle : RequestResult × Text → Text → ℤ → Watchdog → DeviceHandle
unfolding unsigned_short
make_udp_device_handle result address port watchdog = record {
  value = result.1;
  watchdog_enabled = watchdog.0;
  watchdog_timeout = watchdog.1;
  port = unsigned_short port;
  ipv4_address = address;
}

pub data Link : Type 0 where
  tcp_link udp_link : DeviceHandle → Link

abbrev pub BuildResult : Type 0
BuildResult = RequestResult × Option Link

-- What is built of the result of a request for a handle.
unfoldable pub built_tcp : Text → Watchdog → RequestResult × HandleInfo → BuildResult
unfolding same_result make_tcp_device_handle
built_tcp hostname watchdog result =
    if same_result result.0 success
    then (success, some (tcp_link (make_tcp_device_handle result hostname watchdog)))
    else (result.0, none)

unfoldable pub built_udp : UdpParameters → RequestResult × Text → BuildResult
unfolding same_result make_udp_device_handle
built_udp u result =
    if same_result result.0 success
    then (success, some (udp_link (make_udp_device_handle result u.address u.port u.watchdog)))
    else (result.0, none)

abbrev pub map : {R : Type 0} → (R → BuildResult) → Option R → Option BuildResult
map f none = none
map f (some result) = some (f result)

abbrev pub or_failed : Option BuildResult → BuildResult
or_failed none = (failed, none)
or_failed (some r) = r

module _ {T : Type 0} (reads : ThrowingReads T) (device : Device T) (hostname : Text)
    (from_string : Text → Option Text) (requirements : Requirements) where
  unfoldable pub construct : Protocol → Outcome BuildResult
  unfolding extract_tcp_parameters request_tcp_handle built_tcp extract_udp_parameters
      request_udp_handle built_udp
  construct tcp = extract_tcp_parameters requirements >>= (λ p.
      request_tcp_handle reads device p.0 >>= (λ result. done (built_tcp hostname p.1 result)))
  construct udp =
      extract_udp_parameters from_string requirements
      >>= (λ u. request_udp_handle reads device u.builder >>= (λ result. done (built_udp u result)))

  -- `constructDataLink(device)`
  unfoldable pub construct_data_link : Outcome BuildResult
  unfolding get cast_protocol construct
  construct_data_link = cast_protocol (get (codes "protocol") requirements) >>= construct

  unfoldable pub async_construct : Protocol → Outcome BuildResult
  unfolding extract_tcp_parameters async_request_tcp_handle built_tcp extract_udp_parameters
      async_request_udp_handle built_udp
  async_construct tcp = extract_tcp_parameters requirements >>= (λ p.
      done (or_failed (map (built_tcp hostname p.1) (async_request_tcp_handle reads device p.0))))
  async_construct udp = extract_udp_parameters from_string requirements >>= (λ u.
      done (or_failed (map (built_udp u) (async_request_udp_handle reads device u.builder))))

  -- `constructDataLink(device, timeout)`: what the future holds in the end. It is `noexcept`, so an
  -- exception of the extraction ends the program.
  unfoldable pub async_construct_data_link : Outcome BuildResult
  unfolding get cast_protocol async_construct
  async_construct_data_link =
      cast_protocol (get (codes "protocol") requirements) >>= async_construct

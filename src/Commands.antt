-- ===== src/Commands.antt =====
-- The command executors (include/Control/Commands.hpp) that only pass on the result of a request. The
-- device is a parameter: what it answers to a command with its parameters, at once (`sendHttpCommand`)
-- or later (`asyncSendHttpCommand`, which refuses a command while its queue is full). The blocking variants
-- that take handles use a private member of DeviceHandle, so no program can call them.
pub mod Trees
pub mod Lists
pub mod Values
pub mod Protocol
pub mod Handles
use r.Base.{
  Bool, true, false, List, [], ◌∷◌, ◌++◌, Option, none, some, Outcome, done, fault, threw, Text,
  codes, ParametersMap, same, lookup, if◌then◌else◌,
}
use r.Device.{RequestResult, success, same_result, DeviceAnswer}

-- `answers` is what the device answers to each request: `send` returns it, and `submit` gives it to
-- the callback of the command, or `none` where the command is refused.
pub record Device (T : Type 0) : Type 0 where
  pub send : Text → ParametersMap → Outcome (DeviceAnswer T)
  pub submit : Text → ParametersMap → Option (DeviceAnswer T)

-- `insert` of a map, which keeps the value that is there.
unfoldable pub insert {ℓ} : {V : Type ℓ} → Text → V → List (Text × V) → List (Text × V)
unfolding lookup
insert k v m = elim (lookup k m) [ none ↦ m ++ (k, v) ∷ [] | some w ↦ m ]

abbrev pub handle_parameter : Text → ParametersMap
handle_parameter value = (codes "handle", value) ∷ []

abbrev pub result_of : {T : Type 0} → Option (DeviceAnswer T) → Option RequestResult
result_of none = none
result_of (some answer) = some answer.request_result

unfoldable pub result_only : {T : Type 0} → Outcome (DeviceAnswer T) → Outcome RequestResult
result_only (done answer) = done answer.request_result
result_only fault = fault
result_only (threw e) = threw e

module _ {T : Type 0} (device : Device T) where
  unfoldable pub async_release_handle : Text → Option RequestResult
  async_release_handle value =
      result_of (device.submit (codes "release_handle") (handle_parameter value))

  unfoldable pub async_start_scan_output : Text → Option RequestResult
  async_start_scan_output value =
      result_of (device.submit (codes "start_scanoutput") (handle_parameter value))

  unfoldable pub async_stop_scan_output : Text → Option RequestResult
  async_stop_scan_output value =
      result_of (device.submit (codes "stop_scanoutput") (handle_parameter value))

  unfoldable pub async_feed_watchdog : Text → Option RequestResult
  async_feed_watchdog value =
      result_of (device.submit (codes "feed_watchdog") (handle_parameter value))

  unfoldable pub factory_reset_device : Outcome RequestResult
  unfolding result_only
  factory_reset_device = result_only (device.send (codes "factory_reset") [])

  unfoldable pub async_factory_reset_device : Option RequestResult
  async_factory_reset_device = result_of (device.submit (codes "factory_reset") [])

  unfoldable pub reboot_device : Outcome RequestResult
  unfolding result_only
  reboot_device = result_only (device.send (codes "reboot_device") [])

  unfoldable pub async_reboot_device : Option RequestResult
  async_reboot_device = result_of (device.submit (codes "reboot_device") [])

  unfoldable pub async_set_scan_output_config : ParametersMap → Option RequestResult
  async_set_scan_output_config builder =
      result_of (device.submit (codes "set_scanoutput_config") builder)

-- `ParametersChaining::map`: the first builder that has a parameter determines its value.
insert_all : ParametersMap → ParametersMap → ParametersMap
unfolding insert
insert_all m [] = m
insert_all m ((k, v) ∷ ps) = insert_all (insert k v m) ps

unfoldable pub chain_map : ParametersMap → List ParametersMap → ParametersMap
unfolding insert_all
chain_map m [] = m
chain_map m (b ∷ bs) = chain_map (insert_all m b) bs

-- `ParametersChaining::list`
unfoldable pub chain_list : List (List Text) → List Text
chain_list [] = []
chain_list (b ∷ bs) = b ++ chain_list bs

module _ {T : Type 0} (device : Device T) where
  unfoldable pub set_parameters : List ParametersMap → Outcome RequestResult
  unfolding result_only chain_map
  set_parameters builders =
      result_only (device.send (codes "set_parameter") (chain_map [] builders))

  unfoldable pub async_set_parameters : List ParametersMap → Option RequestResult
  unfolding chain_map
  async_set_parameters builders =
      result_of (device.submit (codes "set_parameter") (chain_map [] builders))

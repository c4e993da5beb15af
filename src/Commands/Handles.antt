-- ===== src/Commands/Handles.antt =====
-- The commands that request handles and their configuration (include/Control/Commands.hpp), and
-- DeviceHandle (include/Control/DeviceHandle.hpp).
use r.Base.{
  ℕ, Bool, true, false, List, [], ◌∷◌, Option, none, some, Outcome, done, fault, threw, Text, codes,
  ParametersMap, ◌>>=◌,
}
use r.Wire.{ℤ, pos}
use r.Device.{RequestResult, failed, DeviceAnswer}
use r.Commands.{Device, insert, handle_parameter}
use r.Commands.Trees.{TreeReads, is_success}

-- What boost's throwing reads do: the int at a path, the text at a path, and the texts of a node's own
-- children.
pub record ThrowingReads (T : Type 0) : Type 0 where
  pub get_int : Text → T → Outcome ℤ
  pub get_text : Text → T → Outcome Text
  pub own_children : T → List Text

pub record HandleInfo : Type 0 where
  pub port : ℤ
  pub handle : Text

abbrev pub no_handle : HandleInfo
no_handle = record { port = pos 0; handle = [] }

module _ {T : Type 0} (reads : ThrowingReads T) where
  unfoldable pub extract_tcp_handle : T → Outcome HandleInfo
  extract_tcp_handle tree = reads.get_int (codes "port") tree >>= (λ port.
      reads.get_text (codes "handle") tree
      >>= (λ handle. done (record { port = port; handle = handle })))

  unfoldable pub extract_udp_handle : T → Outcome Text
  extract_udp_handle tree = reads.get_text (codes "handle") tree

  -- What becomes of an answer: where the result is not SUCCESS, nothing is read.
  unfoldable pub tcp_result : DeviceAnswer T → Outcome (RequestResult × HandleInfo)
  unfolding is_success extract_tcp_handle
  tcp_result answer = elim (is_success answer) [
    | false ↦ done (answer.request_result, no_handle)
    | true ↦
        extract_tcp_handle answer.property_tree >>= (λ info. done (answer.request_result, info))
  ]

  unfoldable pub udp_result : DeviceAnswer T → Outcome (RequestResult × Text)
  unfolding is_success extract_udp_handle
  udp_result answer = elim (is_success answer) [
    | false ↦ done (answer.request_result, [])
    | true ↦
        extract_udp_handle answer.property_tree >>= (λ handle. done (answer.request_result, handle))
  ]

  module _ (device : Device T) where
    unfoldable pub request_tcp_handle : ParametersMap → Outcome (RequestResult × HandleInfo)
    unfolding tcp_result
    request_tcp_handle parameters =
        device.send (codes "request_handle_tcp") parameters >>= tcp_result

    unfoldable pub request_udp_handle : ParametersMap → Outcome (RequestResult × Text)
    unfolding udp_result
    request_udp_handle parameters =
        device.send (codes "request_handle_udp") parameters >>= udp_result

    -- Where the handler of an answer throws, it is invoked again with FAILED
    -- (`onSocketConnectionAttemptCompleted`), so what it hands on is the result of that.
    abbrev retried : {R : Type 0} → R → Outcome (RequestResult × R) → RequestResult × R
    retried empty (done r) = r
    retried empty fault = (failed, empty)
    retried empty (threw e) = (failed, empty)

    unfoldable pub async_request_tcp_handle : ParametersMap → Option (RequestResult × HandleInfo)
    unfolding tcp_result
    async_request_tcp_handle parameters =
        elim (device.submit (codes "request_handle_tcp") parameters) [
          | none ↦ none
          | some answer ↦ some (retried no_handle (tcp_result answer))
        ]

    unfoldable pub async_request_udp_handle : ParametersMap → Option (RequestResult × Text)
    unfolding udp_result
    async_request_udp_handle parameters =
        elim (device.submit (codes "request_handle_udp") parameters) [
          | none ↦ none
          | some answer ↦ some (retried [] (udp_result answer))
        ]

-- `getScanOutputConfig`: up to the first child whose text names no value.
module _ {T : Type 0} (optional : TreeReads T) (reads : ThrowingReads T) where
  unfoldable pub scan_output_config : ParametersMap → List Text → T → ParametersMap
  unfolding insert
  scan_output_config config [] tree = config
  scan_output_config config (name ∷ names) tree = elim (optional.get_optional name tree) [
    | none ↦ config
    | some value ↦ scan_output_config (insert name value config) names tree
  ]

  unfoldable pub async_get_scan_output_config :
      Device T → Text → Option (RequestResult × Option ParametersMap)
  unfolding is_success scan_output_config
  async_get_scan_output_config device value =
      elim (device.submit (codes "get_scanoutput_config") (handle_parameter value)) [
        | none ↦ none
        | some answer ↦ elim (is_success answer) [
          | false ↦ some (answer.request_result, none)
          | true ↦ some (
            answer.request_result,
            some (
                scan_output_config [] (reads.own_children answer.property_tree)
                  answer.property_tree),
          )
        ]
      ]

pub record DeviceHandle : Type 0 where
  pub value : Text
  pub watchdog_enabled : Bool
  pub watchdog_timeout : ℤ
  pub port : ℕ
  pub ipv4_address : Text

-- ===== src/Device/Async.antt =====
-- The asynchronous requests of R2000 (`AsyncHttpGet` and its handlers in src/R2000.cpp). A command is
-- known by a number, whose callback is invoked with an answer; what is under way in the resolver and
-- in the socket is listed in `pending`, and completes in any order, with a result the network chooses.
pub mod Answers
use r.Base.{
  ℕ, zero, suc, ◌+◌, ◌≡◌, Bool, true, false, List, [], ◌∷◌, ◌++◌, map, Option, none, some, ◌==◌,
  if◌then◌else◌, Outcome, done, fault, threw,
}
use r.Device.{RequestResult, timeout, failed, DeviceAnswer, PropertyTrees, answer_of}
use r.Device.Http.{Exchange, http_get}

pub data ErrorCode : Type 0 where
  no_error operation_aborted other_error : ErrorCode

pub data Pending : Type 0 where
  resolving : ℕ → Pending
  connecting : ℕ → List ℕ → Pending

pub record Requests (T : Type 0) : Type 0 where
  pub device_endpoints : Option (List ℕ)
  pub pending : List Pending
  pub answers : List (ℕ × DeviceAnswer T)

-- What may happen: the worker runs the job of a command; the operation at an index of `pending`
-- completes.
pub data Event : Type 0 where
  job : ℕ → Event
  completes : ℕ → ErrorCode → List ℕ → Exchange → Event

unfoldable pub at_index : ℕ → List Pending → Option Pending
at_index i [] = none
at_index zero (p ∷ ps) = some p
at_index (suc i) (p ∷ ps) = at_index i ps

unfoldable pub without_index : ℕ → List Pending → List Pending
without_index i [] = []
without_index zero (p ∷ ps) = ps
without_index (suc i) (p ∷ ps) = p ∷ without_index i ps

module _ {T : Type 0} (trees : PropertyTrees T) where
  unfoldable pub invoke : ℕ → DeviceAnswer T → Requests T → Requests T
  invoke command answer q = record q { answers = q.answers ++ (command, answer) ∷ [] }

  unfoldable pub on_endpoint_resolution_attempt_completed :
      ErrorCode → ℕ → List ℕ → Requests T → Requests T
  unfolding answer_of invoke
  on_endpoint_resolution_attempt_completed no_error command endpoints q = record q {
    pending = q.pending ++ connecting command endpoints ∷ [];
  }
  on_endpoint_resolution_attempt_completed operation_aborted command endpoints q =
      invoke command (answer_of trees timeout) q
  on_endpoint_resolution_attempt_completed other_error command endpoints q =
      invoke command (answer_of trees failed) q

  -- What `HttpGet` returns, or FAILED for any exception it throws.
  unfoldable pub answer_or_failed : Outcome (DeviceAnswer T) → DeviceAnswer T
  unfolding answer_of
  answer_or_failed (done answer) = answer
  answer_or_failed fault = answer_of trees failed
  answer_or_failed (threw e) = answer_of trees failed

  unfoldable pub on_socket_connection_attempt_completed :
      ErrorCode → ℕ → Exchange → Requests T → Requests T
  unfolding answer_of invoke answer_or_failed http_get
  on_socket_connection_attempt_completed no_error command x q =
      invoke command (answer_or_failed (http_get trees x)) q
  on_socket_connection_attempt_completed operation_aborted command x q =
      invoke command (answer_of trees timeout) q
  on_socket_connection_attempt_completed other_error command x q =
      invoke command (answer_of trees failed) q

  -- The job that `AsyncHttpGet` gives to the worker.
  unfoldable pub submit : Option (List ℕ) → ℕ → Requests T → Requests T
  unfolding on_endpoint_resolution_attempt_completed
  submit (some endpoints) command q =
      on_endpoint_resolution_attempt_completed no_error command endpoints q
  submit none command q = record q { pending = q.pending ++ resolving command ∷ [] }

  unfoldable pub async_http_get : ℕ → Requests T → Requests T
  unfolding submit
  async_http_get command q = submit q.device_endpoints command q

  -- The handlers of the resolver and of the socket.
  unfoldable pub complete : Option Pending → ErrorCode → List ℕ → Exchange → Requests T → Requests T
  unfolding on_endpoint_resolution_attempt_completed on_socket_connection_attempt_completed
  complete none error queried x q = q
  complete (some (resolving command)) error queried x q =
      on_endpoint_resolution_attempt_completed error command queried
        (record q { device_endpoints = some queried })
  complete (some (connecting command endpoints)) error queried x q =
      on_socket_connection_attempt_completed error command x q

  unfoldable pub happens : Event → Requests T → Requests T
  unfolding async_http_get complete
  happens (job command) q = async_http_get command q
  happens (completes i error queried x) q =
      complete (at_index i q.pending) error queried x
        (record q { pending = without_index i q.pending })

  unfoldable pub run : List Event → Requests T → Requests T
  unfolding happens
  run [] q = q
  run (e ∷ es) q = run es (happens e q)

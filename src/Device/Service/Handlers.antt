-- ===== src/Device/Service/Handlers.antt =====
-- The handlers of the io service of R2000 (src/R2000.cpp) over its deadlines and its shared socket, and the
-- events that its thread, the worker, the clock, a client and the destructor bring about.
use r.Base.{
  ℕ, ◌-◌, false, not, ◌&&◌, List, [], ◌∷◌, ◌++◌, map, Option, none, some, ◌==◌, if◌then◌else◌,
}
use r.Device.{timeout, failed, DeviceAnswer, PropertyTrees, answer_of}
use r.Device.Http.{Exchange, http_get}
use r.Device.Async.{
  ErrorCode, no_error, operation_aborted, other_error, Pending, resolving, connecting,
  answer_or_failed,
}
use r.Device.Service.{
  Operation, Service, close_socket, Event, job, completes, resolver_deadline, socket_deadline,
  cancels, destroys, returns, waits, operation_at, without_operation, may_complete, serves, notify,
  schedule_next_endpoint_resolution_deadline, schedule_next_socket_connection_deadline,
  on_endpoint_resolution_deadline_reached, on_socket_connection_deadline_reached,
  cancel_pending_commands, destroy, leave, wait,
}

module _ {T : Type 0} (trees : PropertyTrees T) where
  unfoldable pub invoke : ℕ → DeviceAnswer T → Service T → Service T
  invoke command answer s = record s { answers = s.answers ++ (command, answer) ∷ [] }

  -- The socket is closed for the new attempt.
  unfoldable pub on_endpoint_resolution_attempt_completed :
      ErrorCode → ℕ → List ℕ → ℕ → ℕ → Service T → Service T
  unfolding invoke answer_of schedule_next_socket_connection_deadline
  on_endpoint_resolution_attempt_completed no_error command endpoints limit now s =
      schedule_next_socket_connection_deadline limit now (record s {
        operations =
            map close_socket s.operations
            ++ record {
              pending = connecting command endpoints;
              command_timeout = limit;
              aborted = false;
            }
              ∷ [];
      })
  on_endpoint_resolution_attempt_completed operation_aborted command endpoints limit now s =
      invoke command (answer_of trees timeout) s
  on_endpoint_resolution_attempt_completed other_error command endpoints limit now s =
      invoke command (answer_of trees failed) s

  unfoldable pub on_socket_connection_attempt_completed :
      ErrorCode → ℕ → Exchange → Service T → Service T
  unfolding invoke answer_of answer_or_failed http_get
  on_socket_connection_attempt_completed no_error command x s =
      invoke command (answer_or_failed trees (http_get trees x)) s
  on_socket_connection_attempt_completed operation_aborted command x s =
      invoke command (answer_of trees timeout) s
  on_socket_connection_attempt_completed other_error command x s =
      invoke command (answer_of trees failed) s

  -- The job that `AsyncHttpGet` gives to the worker, before it notifies the thread.
  unfoldable pub submit : Option (List ℕ) → ℕ → ℕ → ℕ → Service T → Service T
  unfolding on_endpoint_resolution_attempt_completed schedule_next_endpoint_resolution_deadline
  submit (some endpoints) command limit now s =
      on_endpoint_resolution_attempt_completed no_error command endpoints limit now s
  submit none command limit now s = schedule_next_endpoint_resolution_deadline limit now (record s {
    operations =
        s.operations
        ++ record { pending = resolving command; command_timeout = limit; aborted = false } ∷ [];
  })

  -- The handlers of the resolver and of the socket.
  unfoldable pub complete : Pending → ℕ → ErrorCode → List ℕ → Exchange → ℕ → Service T → Service T
  unfolding on_endpoint_resolution_attempt_completed on_socket_connection_attempt_completed
  complete (resolving command) limit error queried x now s =
      on_endpoint_resolution_attempt_completed error command queried limit now
        (record s { device_endpoints = some queried })
  complete (connecting command endpoints) limit error queried x now s =
      on_socket_connection_attempt_completed error command x s

  unfoldable pub complete_at :
      Option Operation → ℕ → ErrorCode → List ℕ → Exchange → ℕ → Service T → Service T
  unfolding complete
  complete_at none i error queried x now s = s
  complete_at (some o) i error queried x now s =
      if serves s && may_complete error o
      then complete o.pending o.command_timeout error queried x now
          (record s { operations = without_operation i s.operations })
      else s

  unfoldable pub happens : Event → Service T → Service T
  unfolding submit notify complete_at on_endpoint_resolution_deadline_reached
      on_socket_connection_deadline_reached cancel_pending_commands destroy leave wait
  happens (job command limit now) s = notify (submit s.device_endpoints command limit now s)
  happens (completes i error queried x now) s =
      complete_at (operation_at i s.operations) i error queried x now s
  happens (resolver_deadline now) s =
      if serves s && not (s.resolver_waits == 0)
      then on_endpoint_resolution_deadline_reached now
          (record s { resolver_waits = s.resolver_waits - 1 })
      else s
  happens (socket_deadline now) s =
      if serves s && not (s.socket_waits == 0)
      then on_socket_connection_deadline_reached now
          (record s { socket_waits = s.socket_waits - 1 })
      else s
  happens cancels s = cancel_pending_commands s
  happens destroys s = destroy s
  happens returns s = leave s
  happens waits s = wait s

  unfoldable pub run : List Event → Service T → Service T
  unfolding happens
  run [] s = s
  run (e ∷ es) s = run es (happens e s)

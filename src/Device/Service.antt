-- ===== src/Device/Service.antt =====
-- The io service of R2000 (src/R2000.cpp, include/R2000.hpp) below its asynchronous requests: the two
-- deadlines, the socket that all commands share, cancellation, the thread that runs the service, and the
-- destructor. Times are numbers, and an event that reads the clock carries what it reads.
pub mod Handlers
pub mod Forget
pub mod Simulation
pub mod Shared
pub mod Asleep
use r.Base.{
  ℕ, zero, suc, ◌+◌, ◌-◌, Bool, true, false, not, ◌&&◌, ◌||◌, List, [], ◌∷◌, ◌++◌, map, Option,
  none, some, ◌==◌, leb, if◌then◌else◌,
}
use r.Device.{RequestResult, timeout, failed, DeviceAnswer, PropertyTrees, answer_of}
use r.Device.Http.{Exchange, http_get}
use r.Device.Async.{
  ErrorCode, no_error, operation_aborted, other_error, Pending, resolving, connecting,
  answer_or_failed,
}
use r.Scan.{is_empty}

-- Where the thread of `ioServiceTask` is: in `run`, behind it, in the wait, or behind the loop.
pub data Phase : Type 0 where
  running leaving waiting ended : Phase

-- What has been asked of the resolver or of the socket, with the timeout of its command, and whether it
-- has been aborted: only then may it complete with `operation_aborted`.
pub record Operation : Type 0 where
  pub pending : Pending
  pub command_timeout : ℕ
  pub aborted : Bool

pub record Service (T : Type 0) : Type 0 where
  pub device_endpoints : Option (List ℕ)
  pub operations : List Operation
  pub answers : List (ℕ × DeviceAnswer T)
  pub resolver_expiry : ℕ
  pub resolver_waits : ℕ
  pub socket_expiry : ℕ
  pub socket_waits : ℕ
  pub is_stopped : Bool
  pub interrupt_io_service_task : Bool
  pub phase : Phase

abbrev pub is_connecting : Pending → Bool
is_connecting (resolving command) = false
is_connecting (connecting command endpoints) = true

-- What becomes of an operation when the socket is closed, and when the resolver is cancelled.
abbrev pub close_socket : Operation → Operation
close_socket o = record o { aborted = is_connecting o.pending || o.aborted }

abbrev pub cancel_resolver : Operation → Operation
cancel_resolver o = record o { aborted = not (is_connecting o.pending) || o.aborted }

pub data Event : Type 0 where
  job : ℕ → ℕ → ℕ → Event
  completes : ℕ → ErrorCode → List ℕ → Exchange → ℕ → Event
  resolver_deadline socket_deadline : ℕ → Event
  cancels destroys returns waits : Event

abbrev pub operation_at : ℕ → List Operation → Option Operation
operation_at i [] = none
operation_at zero (o ∷ os) = some o
operation_at (suc i) (o ∷ os) = operation_at i os

abbrev pub without_operation : ℕ → List Operation → List Operation
without_operation i [] = []
without_operation zero (o ∷ os) = os
without_operation (suc i) (o ∷ os) = o ∷ without_operation i os

-- Only what has been aborted completes so.
abbrev pub may_complete : ErrorCode → Operation → Bool
may_complete no_error o = true
may_complete operation_aborted o = o.aborted
may_complete other_error o = true

abbrev pub is_running : Phase → Bool
is_running running = true
is_running leaving = false
is_running waiting = false
is_running ended = false

module _ {T : Type 0} where
  -- Whether the handlers of the service can run.
  abbrev pub serves : Service T → Bool
  serves s = is_running s.phase && not s.is_stopped

  -- `ioServiceTaskCv.notify_one()`: a thread that waits resets the service and looks at the flag; one
  -- that does not wait yet is not told.
  abbrev pub notify_at : Phase → Service T → Service T
  notify_at running s = s
  notify_at leaving s = s
  notify_at waiting s = record s {
    is_stopped = false;
    phase = if s.interrupt_io_service_task then ended else running;
  }
  notify_at ended s = s

  unfoldable pub notify : Service T → Service T
  notify s = notify_at s.phase s

  -- `expires_from_now` and `async_wait` of the two deadlines.
  unfoldable pub schedule_next_endpoint_resolution_deadline : ℕ → ℕ → Service T → Service T
  schedule_next_endpoint_resolution_deadline limit now s = record s {
    resolver_expiry = now + limit;
    resolver_waits = suc s.resolver_waits;
  }

  unfoldable pub schedule_next_socket_connection_deadline : ℕ → ℕ → Service T → Service T
  schedule_next_socket_connection_deadline limit now s = record s {
    socket_expiry = now + limit;
    socket_waits = suc s.socket_waits;
  }

  -- The handlers of the waits. They do not look at the error, so that a wait that was cancelled runs
  -- them as well.
  unfoldable pub on_endpoint_resolution_deadline_reached : ℕ → Service T → Service T
  on_endpoint_resolution_deadline_reached now s =
      if leb s.resolver_expiry now
      then record s { operations = map cancel_resolver s.operations }
      else s

  unfoldable pub on_socket_connection_deadline_reached : ℕ → Service T → Service T
  on_socket_connection_deadline_reached now s =
      if leb s.socket_expiry now then record s { operations = map close_socket s.operations } else s

  unfoldable pub cancel_pending_commands : Service T → Service T
  cancel_pending_commands s = record s {
    operations = map close_socket (map cancel_resolver s.operations);
  }

  -- The destructor, up to its wait for the thread.
  unfoldable pub destroy : Service T → Service T
  unfolding cancel_pending_commands notify
  destroy s =
      notify
        (record (cancel_pending_commands s) { interrupt_io_service_task = true; is_stopped = true })

  -- `run` returns where the service has been stopped, or has nothing left to do.
  unfoldable pub leave : Service T → Service T
  leave s =
      if is_running s.phase
        && (s.is_stopped
            || (is_empty s.operations && (s.resolver_waits == 0 && s.socket_waits == 0)))
      then record s { phase = leaving }
      else s

  abbrev pub wait_at : Phase → Service T → Service T
  wait_at running s = s
  wait_at leaving s = record s { phase = waiting }
  wait_at waiting s = s
  wait_at ended s = s

  unfoldable pub wait : Service T → Service T
  wait s = wait_at s.phase s

-- The constructor, which starts the thread.
unfoldable pub construct : {T : Type 0} → Service T
construct = record {
  device_endpoints = none;
  operations = [];
  answers = [];
  resolver_expiry = 0;
  resolver_waits = 0;
  socket_expiry = 0;
  socket_waits = 0;
  is_stopped = false;
  interrupt_io_service_task = false;
  phase = running;
}

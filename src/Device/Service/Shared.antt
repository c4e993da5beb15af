-- ===== src/Device/Service/Shared.antt =====
-- The socket that all asynchronous commands of R2000 share (src/R2000.cpp): the next command closes it for
-- its own connection.
use r.Base.{
  ℕ, zero, suc, ◌≡◌, refl, ◌∙◌, ap, Bool, true, false, not, ◌&&◌, List, [], ◌∷◌, ◌++◌, map, some,
}
use r.Device.{timeout, PropertyTrees, answer_of}
use r.Device.Http.{Exchange}
use r.Device.Async.{no_error, operation_aborted, connecting}
use r.Device.Service.{
  Operation, Service, Phase, running, leaving, waiting, ended, is_running, close_socket, job,
  completes, operation_at, serves, notify, notify_at, schedule_next_socket_connection_deadline,
}
use r.Device.Service.Handlers.{
  invoke, on_endpoint_resolution_attempt_completed, on_socket_connection_attempt_completed, submit,
  complete, complete_at, happens,
}

operation_at-close_socket :
    (i : ℕ) (os new : List Operation) (o : Operation)
    → operation_at i os ≡ some o
    → operation_at i (map close_socket os ++ new) ≡ some (close_socket o)
operation_at-close_socket i [] new o e = cc
operation_at-close_socket zero (p ∷ os) new o e = cc
operation_at-close_socket (suc i) (p ∷ os) new o e = operation_at-close_socket i os new o e

notify-running : {T : Type 0} (s : Service T) → serves s ≡ true → notify s ≡ s
unfolding notify
notify-running s h = go s.phase h
  where
    go : (p : Phase) → (is_running p && not s.is_stopped) ≡ true → notify_at p s ≡ s
    go running h = refl
    go leaving h = cc
    go waiting h = cc
    go ended h = cc

module _ {T : Type 0} (trees : PropertyTrees T) where
  -- The connection of a command is under way, and the endpoints are known, when the worker runs the job
  -- of another command, while the thread serves. Whatever the clock and the deadline of the first command
  -- say, its connection may now complete as aborted, and then it is answered TIMEOUT.
  pub answers-job :
      (s : Service T) (i c d limit limit' now now' : ℕ) (b : Bool) (endpoints es queried : List ℕ)
      (x : Exchange)
      → operation_at i s.operations
        ≡ some (record { pending = connecting c es; command_timeout = limit; aborted = b })
      → s.device_endpoints ≡ some endpoints
      → serves s ≡ true
      → (happens trees
          (completes i operation_aborted queried x now')
          (happens trees (job d limit' now) s)).answers
        ≡ s.answers ++ (c, answer_of trees timeout) ∷ []
  unfolding happens submit on_endpoint_resolution_attempt_completed complete_at complete
      schedule_next_socket_connection_deadline on_socket_connection_attempt_completed invoke
  answers-job s i c d limit limit' now now' b endpoints es queried x at known serving =
      let begun : Service T =
        on_endpoint_resolution_attempt_completed trees no_error d endpoints limit' now s in
      let woken : happens trees (job d limit' now) s ≡ begun =
        ap (λ o. notify (submit trees o d limit' now s)) known ∙ notify-running begun serving in
      let there =
        operation_at-close_socket i s.operations
          (record { pending = connecting d endpoints; command_timeout = limit'; aborted = false }
            ∷ [])
          (record { pending = connecting c es; command_timeout = limit; aborted = b }) at in
      ap (λ t. (happens trees (completes i operation_aborted queried x now') t).answers) woken
      ∙ rw (there, serving)

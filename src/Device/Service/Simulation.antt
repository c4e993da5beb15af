-- ===== src/Device/Service/Simulation.antt =====
-- The io service with its deadlines (src/R2000.cpp) refines the asynchronous requests that know nothing of
-- time, of the socket that all commands share, and of the thread.
use r.Base.{
  ℕ, ◌≡◌, refl, sym, ◌∙◌, ap, ◌&&◌, Bool-cases, inl, inr, List, [], ◌∷◌, ◌++◌, map, Option, none,
  some,
}
use r.Scan.Back.{map-append}
use r.Device.{PropertyTrees}
use r.Device.Http.{Exchange}
use r.Device.Async as Async
use r.Device.Async.{
  ErrorCode, no_error, operation_aborted, other_error, Pending, resolving, connecting, Requests,
  at_index, without_index, async_http_get,
}
use r.Device.Service.{
  Operation, Service, close_socket, Event, job, completes, resolver_deadline, socket_deadline,
  cancels, destroys, returns, waits, operation_at, may_complete, serves,
  schedule_next_endpoint_resolution_deadline, schedule_next_socket_connection_deadline,
  on_endpoint_resolution_deadline_reached, on_socket_connection_deadline_reached, destroy, leave,
}
use r.Device.Service.Handlers.{
  invoke, on_endpoint_resolution_attempt_completed, on_socket_connection_attempt_completed, submit,
  complete, complete_at, happens, run,
}
use r.Device.Service.Forget.{
  pending_part, with_pending, forget, told, told_completion, pendings-close, pendings-cancel,
  at_index-pendings, without_index-pendings, forget-notify, forget-wait, forget-cancel, forget-if,
}

abbrev pub trace : {T : Type 0} → PropertyTrees T → List Event → Service T → List Async.Event
trace trees [] s = []
trace trees (e ∷ es) s = told e s ++ trace trees es (happens trees e s)

module _ {T : Type 0} (trees : PropertyTrees T) where
  forget-resolution :
      (error : ErrorCode) (command : ℕ) (endpoints : List ℕ) (limit now : ℕ) (s : Service T)
      → forget (on_endpoint_resolution_attempt_completed trees error command endpoints limit now s)
        ≡ Async.on_endpoint_resolution_attempt_completed trees error command endpoints (forget s)
  unfolding on_endpoint_resolution_attempt_completed schedule_next_socket_connection_deadline invoke
      Async.on_endpoint_resolution_attempt_completed Async.invoke
  forget-resolution no_error command endpoints limit now s =
      ap (λ ps. with_pending ps s)
        (map-append (λ (o : Operation). o.pending) (map close_socket s.operations) _
          ∙ ap (λ ps. ps ++ connecting command endpoints ∷ []) (pendings-close s.operations))
  forget-resolution operation_aborted command endpoints limit now s = refl
  forget-resolution other_error command endpoints limit now s = refl

  forget-connection :
      (error : ErrorCode) (command : ℕ) (x : Exchange) (s : Service T)
      → forget (on_socket_connection_attempt_completed trees error command x s)
        ≡ Async.on_socket_connection_attempt_completed trees error command x (forget s)
  unfolding on_socket_connection_attempt_completed invoke
      Async.on_socket_connection_attempt_completed Async.invoke
  forget-connection no_error command x s = refl
  forget-connection operation_aborted command x s = refl
  forget-connection other_error command x s = refl

  forget-submit :
      (o : Option (List ℕ)) (command limit now : ℕ) (s : Service T)
      → forget (submit trees o command limit now s) ≡ Async.submit trees o command (forget s)
  unfolding submit schedule_next_endpoint_resolution_deadline Async.submit
  forget-submit none command limit now s =
      ap (λ ps. with_pending ps s) (map-append (λ (o : Operation). o.pending) s.operations _)
  forget-submit (some endpoints) command limit now s =
      forget-resolution no_error command endpoints limit now s

  forget-complete :
      (p : Pending) (limit : ℕ) (error : ErrorCode) (queried : List ℕ) (x : Exchange) (now : ℕ)
      (s : Service T)
      → forget (complete trees p limit error queried x now s)
        ≡ Async.complete trees (some p) error queried x (forget s)
  unfolding complete Async.complete
  forget-complete (resolving command) limit error queried x now s =
      forget-resolution error command queried limit now
        (record s { device_endpoints = some queried })
  forget-complete (connecting command endpoints) limit error queried x now s =
      forget-connection error command x s

  forget-complete_at :
      (o : Option Operation) (i : ℕ) (error : ErrorCode) (queried : List ℕ) (x : Exchange) (now : ℕ)
      (s : Service T)
      → operation_at i s.operations ≡ o
      → forget (complete_at trees o i error queried x now s)
        ≡ Async.run trees (told_completion o i error queried x s) (forget s)
  unfolding complete_at Async.run Async.happens
  forget-complete_at none i error queried x now s e = refl
  forget-complete_at (some o) i error queried x now s e =
      elim (Bool-cases (serves s && may_complete error o)) [
        | inl may ↦
            let at = at_index-pendings i s.operations ∙ ap pending_part e in
            let others = without_index-pendings i s.operations in
            rw (may, complete_at, at, others)
              (forget-complete o.pending o.command_timeout error queried x now _)
        | inr not_yet ↦ rw (not_yet, complete_at)
      ]

  pub forget-happens :
      (e : Event) (s : Service T)
      → forget (happens trees e s) ≡ Async.run trees (told e s) (forget s)
  unfolding happens Async.run Async.happens Async.async_http_get leave destroy
      on_endpoint_resolution_deadline_reached on_socket_connection_deadline_reached
  forget-happens (job command limit now) s =
      forget-notify (submit trees s.device_endpoints command limit now s)
      ∙ forget-submit s.device_endpoints command limit now s
  forget-happens (completes i error queried x now) s =
      forget-complete_at (operation_at i s.operations) i error queried x now s refl
  forget-happens (resolver_deadline now) s =
      forget-if _ s _
        (forget-if _ _ _ (ap (λ ps. with_pending ps s) (pendings-cancel s.operations)))
  forget-happens (socket_deadline now) s =
      forget-if _ s _ (forget-if _ _ _ (ap (λ ps. with_pending ps s) (pendings-close s.operations)))
  forget-happens cancels s = forget-cancel s
  forget-happens destroys s = forget-notify _ ∙ forget-cancel s
  forget-happens returns s = forget-if _ s _ refl
  forget-happens waits s = forget-wait s

  run-append :
      (es fs : List Async.Event) (q : Requests T)
      → Async.run trees (es ++ fs) q ≡ Async.run trees fs (Async.run trees es q)
  unfolding Async.run
  run-append [] fs q = refl
  run-append (e ∷ es) fs q = run-append es fs (Async.happens trees e q)

  -- Whatever the worker, the network, the clock, a client, the thread and the destructor do to the
  -- service, in any order: its endpoints, its operations and its answers become those that the abstract
  -- requests come to by the jobs, in their order, and by the completions that the service lets happen.
  -- Deadlines, closed sockets and cancellations only decide which completions these can be.
  pub forget-run :
      (es : List Event) (s : Service T)
      → forget (run trees es s) ≡ Async.run trees (trace trees es s) (forget s)
  unfolding run
  forget-run [] s = unfold Async.run in refl
  forget-run (e ∷ es) s =
      forget-run es (happens trees e s)
      ∙ ap (Async.run trees (trace trees es (happens trees e s))) (forget-happens e s)
      ∙ sym (run-append (told e s) (trace trees es (happens trees e s)) (forget s))

-- ===== src/Device/Service/Forget.antt =====
-- What the asynchronous requests know of the io service of R2000 (src/R2000.cpp), and what they are told of
-- its events.
use r.Base.{
  ℕ, zero, suc, ◌≡◌, refl, ◌∙◌, ap, Bool, true, false, ◌&&◌, List, [], ◌∷◌, map, Option, none, some,
  if◌then◌else◌,
}
use r.Device.Http.{Exchange}
use r.Device.Async as Async
use r.Device.Async.{
  ErrorCode, no_error, operation_aborted, other_error, Pending, resolving, connecting, Requests,
  at_index, without_index, async_http_get,
}
use r.Device.Service.{
  Operation, Service, Phase, running, leaving, waiting, ended, close_socket, cancel_resolver, Event,
  job, completes, resolver_deadline, socket_deadline, cancels, destroys, returns, waits,
  operation_at, without_operation, may_complete, serves, notify, notify_at, wait_at,
  cancel_pending_commands, wait,
}

abbrev pub pendings : List Operation → List Pending
pendings os = map (λ (o : Operation). o.pending) os

abbrev pub pending_part : Option Operation → Option Pending
pending_part none = none
pending_part (some o) = some o.pending

-- What the abstract view keeps of a service.
abbrev pub forget : {T : Type 0} → Service T → Requests T
forget s = record {
  device_endpoints = s.device_endpoints;
  pending = pendings s.operations;
  answers = s.answers;
}

-- What the abstract view is told of an event.
abbrev pub told_completion :
    {T : Type 0}
    → Option Operation
    → ℕ
    → ErrorCode
    → List ℕ
    → Exchange
    → Service T
    → List Async.Event
told_completion none i error queried x s = []
told_completion (some o) i error queried x s =
    if serves s && may_complete error o then Async.completes i error queried x ∷ [] else []

abbrev pub told : {T : Type 0} → Event → Service T → List Async.Event
told (job command limit now) s = Async.job command ∷ []
told (completes i error queried x now) s =
    told_completion (operation_at i s.operations) i error queried x s
told (resolver_deadline now) s = []
told (socket_deadline now) s = []
told cancels s = []
told destroys s = []
told returns s = []
told waits s = []

pub pendings-close : (os : List Operation) → pendings (map close_socket os) ≡ pendings os
pendings-close [] = refl
pendings-close (o ∷ os) = ap (λ ps. o.pending ∷ ps) (pendings-close os)

pub pendings-cancel : (os : List Operation) → pendings (map cancel_resolver os) ≡ pendings os
pendings-cancel [] = refl
pendings-cancel (o ∷ os) = ap (λ ps. o.pending ∷ ps) (pendings-cancel os)

pub at_index-pendings :
    (i : ℕ) (os : List Operation) → at_index i (pendings os) ≡ pending_part (operation_at i os)
unfolding at_index
at_index-pendings i [] = refl
at_index-pendings zero (o ∷ os) = refl
at_index-pendings (suc i) (o ∷ os) = at_index-pendings i os

pub without_index-pendings :
    (i : ℕ) (os : List Operation)
    → without_index i (pendings os) ≡ pendings (without_operation i os)
unfolding without_index
without_index-pendings i [] = refl
without_index-pendings zero (o ∷ os) = refl
without_index-pendings (suc i) (o ∷ os) = ap (λ ps. o.pending ∷ ps) (without_index-pendings i os)

module _ {T : Type 0} where
  abbrev pub with_pending : List Pending → Service T → Requests T
  with_pending ps s = record (forget s) { pending = ps }

  pub forget-notify : (s : Service T) → forget (notify s) ≡ forget s
  unfolding notify
  forget-notify s = go s.phase
    where
      go : (p : Phase) → forget (notify_at p s) ≡ forget s
      go running = refl
      go leaving = refl
      go waiting = refl
      go ended = refl

  pub forget-wait : (s : Service T) → forget (wait s) ≡ forget s
  unfolding wait
  forget-wait s = go s.phase
    where
      go : (p : Phase) → forget (wait_at p s) ≡ forget s
      go running = refl
      go leaving = refl
      go waiting = refl
      go ended = refl

  pub forget-cancel : (s : Service T) → forget (cancel_pending_commands s) ≡ forget s
  unfolding cancel_pending_commands
  forget-cancel s =
      ap (λ ps. with_pending ps s)
        (pendings-close (map cancel_resolver s.operations) ∙ pendings-cancel s.operations)

  pub forget-if :
      (b : Bool) (s t : Service T) → forget t ≡ forget s → forget (if b then t else s) ≡ forget s
  forget-if true s t e = e
  forget-if false s t e = refl

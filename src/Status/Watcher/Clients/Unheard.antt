-- ===== src/Status/Watcher/Clients/Unheard.antt =====
-- A registration for connections between whose halves the device connects
-- (include/StatusWatcher.hpp, src/StatusWatcher.cpp).
use r.Base.{
  ℕ, ◌≡◌, refl, ◌∙◌, ap, true, false, Bool-cases, inl, inr, List, [], ◌∷◌, ◌++◌, map, some, ◌==◌,
  append_assoc, arith, ParametersMap,
}
use r.Device.{success, same_result, underlying_type}
use r.Status.Watcher.{
  Event, device_connected, status_available, watch_round, on_success, set_status_to_output,
  fire_device_connection_event,
}
use r.Status.Watcher.Turns.{turns, turns-append, registrations, turns-status, turns-connected_none}
use r.Status.Watcher.Clients.{
  Watching, Move, looks, enters, rounds, move, run, look, enter, take_round,
}
use r.Status.Watcher.Clients.Heard.{is_among-append}

registrations-entered :
    (a : ℕ) (cs : List ℕ) → registrations a cs ≡ 0 → registrations a (cs ++ a ∷ []) ≡ 1
registrations-entered a [] h = ground arith
registrations-entered a (x ∷ xs) h = elim (Bool-cases (x == a)) [
  | inl e ↦ absurd (ground arith)
  | inr e ↦ let later = registrations-entered a xs (ground arith) in rw e (omega (arith, later))
]

-- A round that brings a status.
abbrev pub brings : ParametersMap → Move
brings status = rounds (some (success, status))

module _ (a b : ℕ) where
  -- The client of `a` is registered and has heard nothing of a device that is connected.
  pub record IsUnheard (before : List Event) (s : Watching) : Type 0 where
    pub connected : s.watcher.is_connected ≡ true
    pub goes_on : s.interrupt_flag ≡ false
    pub registered : registrations a s.watcher.on_device_connected_callbacks ≡ 1
    pub quiet : (new : List Event) × (s.watcher.events ≡ before ++ new) × (turns a b new ≡ [])

  brings-IsUnheard :
      (before : List Event) (status : ParametersMap) (s : Watching)
      → IsUnheard before s
      → IsUnheard before (move (brings status) s)
  unfolding move take_round watch_round on_success set_status_to_output same_result underlying_type
  brings-IsUnheard before status s u =
      let (new, e, q) = u.quiet in
      let statuses = map (λ c. status_available c status) s.watcher.on_status_available_callbacks in
      let still = turns-status a b status s.watcher.on_status_available_callbacks in
      rw (u.goes_on, u.connected)
        (record {
          connected = refl;
          goes_on = refl;
          registered = u.registered;
          quiet = (
            new ++ statuses,
            ap (λ zs. zs ++ statuses) e ∙ append_assoc before new statuses,
            rw (turns-append a b new statuses, q, still),
          );
        })

  run-brings :
      (before : List Event) (later : List ParametersMap) (s : Watching)
      → IsUnheard before s
      → IsUnheard before (run (map brings later) s)
  unfolding run
  run-brings before [] s u = u
  run-brings before (status ∷ later) s u =
      run-brings before later (move (brings status) s) (brings-IsUnheard before status s u)

  raced :
      (status : ParametersMap) (s : Watching)
      → s.watcher.is_connected ≡ false
      → s.interrupt_flag ≡ false
      → registrations a s.watcher.on_device_connected_callbacks ≡ 0
      → IsUnheard s.watcher.events (run (looks a ∷ brings status ∷ enters a ∷ []) s)
  unfolding run move look enter take_round watch_round on_success set_status_to_output
      fire_device_connection_event same_result underlying_type
  raced status s off goes fresh =
      let statuses = map (λ c. status_available c status) s.watcher.on_status_available_callbacks in
      let others = map device_connected s.watcher.on_device_connected_callbacks in
      let still = turns-status a b status s.watcher.on_status_available_callbacks in
      let unnamed = turns-connected_none a b s.watcher.on_device_connected_callbacks fresh in
      rw (off, goes, is_among-append a s.looked)
        (record {
          connected = refl;
          goes_on = refl;
          registered = registrations-entered a s.watcher.on_device_connected_callbacks fresh;
          quiet = (
            statuses ++ others,
            append_assoc s.watcher.events statuses others,
            rw (turns-append a b statuses others, still, unnamed),
          );
        })

  -- While the watcher is disconnected and its task runs, a client registers a callback for connections
  -- for the first time, and the request of a round succeeds between the two halves of the registration.
  -- Then the watcher is connected and the callback registered, but however many requests succeed from
  -- then on, the callback is never invoked.
  pub run-IsUnheard :
      (status : ParametersMap) (later : List ParametersMap) (s : Watching)
      → s.watcher.is_connected ≡ false
      → s.interrupt_flag ≡ false
      → registrations a s.watcher.on_device_connected_callbacks ≡ 0
      → IsUnheard s.watcher.events (run (looks a ∷ brings status ∷ enters a ∷ map brings later) s)
  unfolding run
  run-IsUnheard status later s off goes fresh =
      run-brings s.watcher.events later (run (looks a ∷ brings status ∷ enters a ∷ []) s)
        (raced status s off goes fresh)

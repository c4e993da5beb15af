-- ===== src/Link/Watchdog.antt =====
-- `watchdogTask` and `stallMonitoringTask` of src/DataLink/DataLink.cpp, round by round, and what the
-- constructor makes of the device's answer to the request to start the stream.
use r.Base.{
  ℕ, zero, suc, ◌+◌, ◌≤◌, ◌≡◌, refl, sym, ◌∙◌, ap, Bool, true, false, ◌&&◌, Bool-cases, inl, inr,
  List, [], ◌∷◌, ◌++◌, map, append_assoc, append-nil, Option, none, some, if◌then◌else◌, leb, arith,
}
use r.Device.{RequestResult, success, same_result}
use r.Link.{DataLink, Event, connection_lost, fire_connection_lost, is_alive, get_last_scan}

-- The clock of the timestamps ticks in nanoseconds.
abbrev pub six_seconds : ℕ
six_seconds = 6000000000

-- Which tasks the constructor has started.
pub record Tasks : Type 0 where
  pub watchdog : Bool
  pub stall_monitoring : Bool

module _ {S : Type 0} where
  -- One round: the result of feeding the watchdog, or nothing where the command was not accepted.
  unfoldable pub watchdog_round : Option RequestResult → DataLink S → DataLink S
  unfolding same_result fire_connection_lost
  watchdog_round none link = record link { is_connected = false }
  watchdog_round (some result) link =
      if same_result result success
      then record link { is_connected = true }
      else if link.is_connected
      then fire_connection_lost (record link { is_connected = false })
      else record link { is_connected = false }

  unfoldable pub watchdog_task : List (Option RequestResult) → DataLink S → DataLink S
  unfolding watchdog_round
  watchdog_task [] link = link
  watchdog_task (r ∷ results) link = watchdog_task results (watchdog_round r link)

  -- One round of the stall monitoring, with whether the task ends.
  unfoldable pub stall_monitoring_round : ℕ → DataLink S → DataLink S × Bool
  unfolding is_alive get_last_scan
  stall_monitoring_round now link =
      if is_alive link && leb ((get_last_scan link).timestamp + six_seconds) now
      then (record link { is_data_link_stalled = true }, true)
      else (link, false)

  -- `none`: the request to start the stream was not accepted.
  unfoldable pub start_stream : Option RequestResult → Bool → DataLink S → DataLink S × Tasks
  unfolding same_result
  start_stream none watchdog_enabled link =
      (record link { is_connected = false }, record { watchdog = false; stall_monitoring = false })
  start_stream (some result) watchdog_enabled link =
      if same_result result success
      then (link, record { watchdog = watchdog_enabled; stall_monitoring = true })
      else (
        record link { is_connected = false },
        record { watchdog = false; stall_monitoring = false },
      )

-- The connection-lost callbacks, invoked a number of times.
abbrev pub announced : ℕ → List ℕ → List Event
announced zero callbacks = []
announced (suc n) callbacks = map connection_lost callbacks ++ announced n callbacks

abbrev pub one_if : Bool → ℕ
one_if true = 1
one_if false = 0

-- How many results are a success.
abbrev pub successes : List (Option RequestResult) → ℕ
successes [] = 0
successes (none ∷ results) = successes results
successes (some result ∷ results) = one_if (same_result result success) + successes results

module _ {S : Type 0} where
  round_succeeds :
      (result : RequestResult) (link : DataLink S)
      → same_result result success ≡ true
      → watchdog_round (some result) link ≡ record link { is_connected = true }
  unfolding watchdog_round
  round_succeeds result link h = rw h

  round_loses :
      (result : RequestResult) (link : DataLink S)
      → same_result result success ≡ false
      → watchdog_round (some result) (record link { is_connected = true }) ≡ record link {
        is_connected = false;
        events = link.events ++ map connection_lost link.on_connection_lost;
      }
  unfolding watchdog_round fire_connection_lost
  round_loses result link h = rw h

  round_fails :
      (result : RequestResult) (link : DataLink S)
      → same_result result success ≡ false
      → watchdog_round (some result) (record link { is_connected = false })
        ≡ record link { is_connected = false }
  unfolding watchdog_round
  round_fails result link h = rw h

  task_announces :
      (results : List (Option RequestResult)) (connected : Bool) (link : DataLink S)
      → (n : ℕ) × ((watchdog_task results (record link { is_connected = connected })).events
          ≡ link.events ++ announced n link.on_connection_lost)
        × (n ≤ one_if connected + successes results)
  unfolding watchdog_task
  task_announces [] connected link = (0, sym (append-nil link.events), omega arith)
  task_announces (none ∷ results) connected link =
      unfold watchdog_round in
      let (n, e, b) = task_announces results false link in (n, e, omega arith)
  task_announces (some result ∷ results) true link =
      elim (Bool-cases (same_result result success)) [
        | inl ok ↦
            let (n, e, b) = task_announces results true link in
            let step = round_succeeds result (record link { is_connected = true }) ok in
            (n, ap (λ l. (watchdog_task results l).events) step ∙ e, rw ok (omega arith))
        | inr bad ↦
            let told = map connection_lost link.on_connection_lost in
            let (n, e, b) =
              task_announces results false (record link { events = link.events ++ told }) in
            (
              suc n,
              ap (λ l. (watchdog_task results l).events) (round_loses result link bad)
                  ∙ e
                  ∙ append_assoc link.events told (announced n link.on_connection_lost),
              rw bad (omega arith),
            )
      ]
  task_announces (some result ∷ results) false link =
      elim (Bool-cases (same_result result success)) [
        | inl ok ↦
            let (n, e, b) = task_announces results true link in
            let step = round_succeeds result (record link { is_connected = false }) ok in
            (n, ap (λ l. (watchdog_task results l).events) step ∙ e, rw ok (omega arith))
        | inr bad ↦
            let (n, e, b) = task_announces results false link in
            (
              n,
              ap (λ l. (watchdog_task results l).events) (round_fails result link bad) ∙ e,
              rw bad (omega arith),
            )
      ]

  failures_silent :
      (results : List (Option RequestResult)) (link : DataLink S)
      → successes results ≡ 0
      → watchdog_task results (record link { is_connected = false })
        ≡ record link { is_connected = false }
  unfolding watchdog_task
  failures_silent [] link h = refl
  failures_silent (none ∷ results) link h = unfold watchdog_round in failures_silent results link h
  failures_silent (some result ∷ results) link h = elim (Bool-cases (same_result result success)) [
    | inl ok ↦
        absurd (let one : one_if (same_result result success) ≡ 1 = ap one_if ok in omega arith)
    | inr bad ↦
        ap (watchdog_task results) (round_fails result link bad)
        ∙ failures_silent results link (omega arith)
  ]

  -- However the watchdog's requests end, the task only appends announcements of a lost connection to the
  -- events, each to every callback, and it makes no more of them than the number of requests that
  -- succeeded, and one more where the link is connected at first.
  pub watchdog_task-announced :
      (results : List (Option RequestResult)) (link : DataLink S)
      → (n : ℕ) × ((watchdog_task results link).events
          ≡ link.events ++ announced n link.on_connection_lost)
        × (n ≤ one_if link.is_connected + successes results)
  watchdog_task-announced results link = task_announces results link.is_connected link

  -- Where a request of the watchdog's task is not accepted, the link is disconnected in silence: as long as
  -- its later requests are answered with failures or not accepted either, the task leaves the link
  -- disconnected and tells no callback, not even those of a link that was connected.
  pub watchdog_task-silent :
      (results : List (Option RequestResult)) (link : DataLink S)
      → successes results ≡ 0
      → ((watchdog_task (none ∷ results) link).is_connected ≡ false)
        × ((watchdog_task (none ∷ results) link).events ≡ link.events)
  unfolding watchdog_task watchdog_round
  watchdog_task-silent results link h =
      let e = failures_silent results link h in (ap (λ l. l.is_connected) e, ap (λ l. l.events) e)

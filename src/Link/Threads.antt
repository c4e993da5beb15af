-- ===== src/Link/Threads.antt =====
-- The threads of a DataLink (include/DataLink/DataLink.hpp, src/DataLink/DataLink.cpp) over its state: the
-- answer to the request that starts the stream, the watchdog's task, the stall monitoring, what a link
-- makes of its reception, the clients that register callbacks, and the destructor. Each runs one step at
-- a time, in any order.
pub mod Asked
pub mod Mailbox
pub mod Stalled
use r.Base.{ℕ, ◌≡◌, Bool, true, false, List, [], ◌∷◌, ◌++◌, Option, none, some, if◌then◌else◌}
use r.Device.{RequestResult}
use r.Scan.{Scan, ScanFactory}
use r.Link.{
  DataLink, initial_link, publish, set_output_scan, fire_connection_lost,
  add_on_connection_lost_callback, add_on_new_scan_callback,
}
use r.Link.Watchdog.{Tasks, watchdog_round, stall_monitoring_round, start_stream}

-- The commands that a link gives to the device.
pub data Command : Type 0 where
  start_scan feed_watchdog stop_scan release_handle : Command

pub record Threads (S : Type 0) : Type 0 where
  pub link : DataLink S
  pub tasks : Tasks
  pub awaits_start : Bool
  pub asked : List Command

abbrev pub no_tasks : Tasks
no_tasks = record { watchdog = false; stall_monitoring = false }

module _ {S : Type 0} where
  -- The constructor, with whether the request to start the stream has been accepted.
  unfoldable pub construct : S → Bool → Threads S
  unfolding initial_link
  construct s accepted = record {
    link = if accepted then initial_link s else record (initial_link s) { is_connected = false };
    tasks = no_tasks;
    awaits_start = accepted;
    asked = start_scan ∷ [];
  }

  -- The callback of that request.
  unfoldable pub start_answered : RequestResult → Bool → Threads S → Threads S
  unfolding start_stream
  start_answered result watchdog_enabled t =
      let (link, tasks) = start_stream (some result) watchdog_enabled t.link in
      record t { link = link; tasks = tasks; awaits_start = false }

  -- A round of `watchdogTask`.
  unfoldable pub feed : Option RequestResult → Threads S → Threads S
  unfolding watchdog_round
  feed result t = record t {
    link = watchdog_round result t.link;
    asked = t.asked ++ feed_watchdog ∷ [];
  }

  -- A round of `stallMonitoringTask`, which may end the task.
  unfoldable pub monitor : ℕ → Threads S → Threads S
  unfolding stall_monitoring_round
  monitor now t =
      let (link, ends) = stall_monitoring_round now t.link in
      record t {
        link = link;
        tasks = if ends then record t.tasks { stall_monitoring = false } else t.tasks;
      }

  -- The destructor, which awaits the tasks; it gives its two commands whatever becomes of them.
  unfoldable pub destroy : Threads S → Threads S
  destroy t = if t.link.interrupt_flag then t else record t {
    link = record t.link { interrupt_flag = true };
    tasks = no_tasks;
    asked = t.asked ++ stop_scan ∷ release_handle ∷ [];
  }

  -- The steps that every link takes. A task looks at the flag before each round.
  pub data OwnStep (s t : Threads S) : Type 0 where
    answers :
        (result : RequestResult) (watchdog_enabled : Bool)
        → s.awaits_start ≡ true
        → s.link.interrupt_flag ≡ false
        → t ≡ start_answered result watchdog_enabled s
        → OwnStep s t
    feeds :
        (result : Option RequestResult)
        → s.tasks.watchdog ≡ true
        → s.link.interrupt_flag ≡ false
        → t ≡ feed result s
        → OwnStep s t
    monitors :
        (now : ℕ)
        → s.tasks.stall_monitoring ≡ true
        → s.link.interrupt_flag ≡ false
        → t ≡ monitor now s
        → OwnStep s t
    registers_lost :
        (callback : ℕ)
        → t ≡ record s { link = add_on_connection_lost_callback callback s.link }
        → OwnStep s t
    registers_new :
        (callback : ℕ)
        → t ≡ record s { link = add_on_new_scan_callback callback s.link }
        → OwnStep s t
    destroys : t ≡ destroy s → OwnStep s t

  -- What the reception of a link does to this state: the factory changes, a scan is put out, the
  -- connection is made or lost, with or without word to the callbacks.
  pub data LinkStep (s t : Threads S) : List Scan → Type 0 where
    assembles :
        (f : S) → t ≡ record s { link = record s.link { scan_factory = f } } → LinkStep s t []
    publishes :
        (f : S) (scan : Scan)
        → t ≡ record s { link = set_output_scan scan (record s.link { scan_factory = f }) }
        → LinkStep s t (scan ∷ [])
    connects :
        (b : Bool) → t ≡ record s { link = record s.link { is_connected = b } } → LinkStep s t []
    loses :
        t ≡ record s { link = fire_connection_lost (record s.link { is_connected = false }) }
        → LinkStep s t []

  -- The steps from one state to another, with the scans that are put out along the way.
  pub data Run (s : Threads S) : Threads S → List Scan → Type 0 where
    here : Run s s []
    own : {t u : Threads S} {scans : List Scan} → Run s t scans → OwnStep t u → Run s u scans
    receives :
        {t u : Threads S} {scans new : List Scan}
        → Run s t scans
        → LinkStep t u new
        → Run s u (scans ++ new)

-- ===== src/Link.antt =====
-- The state of a `DataLink` (include/DataLink/DataLink.hpp, src/DataLink/DataLink.cpp) that the
-- reception of packets changes, over the factory that the link assembles scans with. Callbacks are
-- numbers, and the log `events` records each invocation. The clock is a function of the scans so far.
pub mod Wait
pub mod Watchdog
pub mod Publishing
pub mod Unmixed
pub mod Threads
use r.Base.{
  ℕ, ◌+◌, ◌%◌, ◌^◌, Bool, true, false, not, ◌&&◌, ◌||◌, List, [], ◌∷◌, ◌++◌, map, Option, none,
  some, if◌then◌else◌, ◌==◌,
}
use r.Scan.{Scan, ScanFactory}

pub data Event : Type 0 where
  connection_lost : ℕ → Event
  new_scan : ℕ → Scan → Event

pub record DataLink (S : Type 0) : Type 0 where
  pub scan_factory : S
  pub last_scan_received : Scan
  pub scan_counter : ℕ
  pub is_connected : Bool
  pub is_data_link_stalled : Bool
  pub interrupt_flag : Bool
  pub on_connection_lost : List ℕ
  pub on_new_scan : List ℕ
  pub events : List Event

abbrev pub empty_scan : Scan
empty_scan = record { distances = []; amplitudes = []; headers = []; timestamp = 0 }

module _ {S : Type 0} where
  -- The members' initial values, over an empty factory.
  unfoldable pub initial_link : S → DataLink S
  initial_link s = record {
    scan_factory = s;
    last_scan_received = empty_scan;
    scan_counter = 0;
    is_connected = true;
    is_data_link_stalled = false;
    interrupt_flag = false;
    on_connection_lost = [];
    on_new_scan = [];
    events = [];
  }

  unfoldable pub is_alive : DataLink S → Bool
  is_alive link = link.is_connected

  unfoldable pub is_stalled : DataLink S → Bool
  is_stalled link = link.is_data_link_stalled

  pub get_last_scan : DataLink S → Scan
  get_last_scan link = link.last_scan_received

  pub add_on_connection_lost_callback : ℕ → DataLink S → DataLink S
  add_on_connection_lost_callback callback link = record link {
    on_connection_lost = link.on_connection_lost ++ callback ∷ [];
  }

  pub add_on_new_scan_callback : ℕ → DataLink S → DataLink S
  add_on_new_scan_callback callback link = record link {
    on_new_scan = link.on_new_scan ++ callback ∷ [];
  }

  unfoldable pub fire_connection_lost : DataLink S → DataLink S
  fire_connection_lost link = record link {
    events = link.events ++ map connection_lost link.on_connection_lost;
  }

  unfoldable pub fire_scan_available : Scan → DataLink S → DataLink S
  fire_scan_available scan link = record link {
    events = link.events ++ map (λ c. new_scan c scan) link.on_new_scan;
  }

  -- `scanCounter` is a uint64_t.
  unfoldable pub set_output_scan : Scan → DataLink S → DataLink S
  unfolding fire_scan_available
  set_output_scan scan link =
      fire_scan_available scan
        (record link { last_scan_received = scan; scan_counter = (link.scan_counter + 1) % 2 ^ 64 })

  -- `if (scanFactory.isComplete()) setOutputScanFromCompletedFactory(*scanFactory);`
  unfoldable pub publish : ScanFactory S → (ℕ → ℕ) → DataLink S → DataLink S
  unfolding set_output_scan
  publish factory clock link =
      let (scan, emptied) = factory.output (clock link.scan_counter) link.scan_factory in
      if factory.is_complete link.scan_factory
      then set_output_scan scan (record link { scan_factory = emptied })
      else link

-- ===== src/Status/Watcher/Clients.antt =====
-- The status watcher (src/StatusWatcher.cpp, include/StatusWatcher.hpp) between its task and its clients:
-- registrations, rounds and the destructor in any order. A registration for connections looks at the
-- connection before it takes the lock, so rounds may come between the two.
pub mod Heard
pub mod Unheard
use r.Base.{ℕ, Bool, true, false, ◌||◌, List, [], ◌∷◌, ◌++◌, ◌==◌, if◌then◌else◌}
use r.Status.Watcher.{
  StatusWatcher, device_connected, Answer, watch_round, add_on_status_available_callback,
  add_on_device_disconnected_callback, set_disconnection_trigger_threshold,
}

-- `looked` holds the callbacks that wait for the lock.
pub record Watching : Type 0 where
  pub watcher : StatusWatcher
  pub looked : List ℕ
  pub interrupt_flag : Bool

abbrev pub is_among : ℕ → List ℕ → Bool
is_among c [] = false
is_among c (x ∷ xs) = (x == c) || is_among c xs

abbrev pub without : ℕ → List ℕ → List ℕ
without c [] = []
without c (x ∷ xs) = let rest = without c xs in if x == c then xs else x ∷ rest

-- The first half of `addOnDeviceConnectedCallback`.
unfoldable pub look : ℕ → Watching → Watching
look callback s = record s {
  watcher = record s.watcher {
    events =
        if s.watcher.is_connected
        then s.watcher.events ++ device_connected callback ∷ []
        else s.watcher.events;
  };
  looked = s.looked ++ callback ∷ [];
}

-- Its second half, behind the lock.
unfoldable pub enter : ℕ → Watching → Watching
enter callback s =
    if is_among callback s.looked
    then record s {
      watcher = record s.watcher {
        on_device_connected_callbacks = s.watcher.on_device_connected_callbacks ++ callback ∷ [];
      };
      looked = without callback s.looked;
    }
    else s

-- A round of the task, which looks at the flag before each.
unfoldable pub take_round : Answer → Watching → Watching
unfolding watch_round
take_round answer s =
    if s.interrupt_flag then s else record s { watcher = watch_round answer s.watcher }

-- The destructor.
unfoldable pub destroy : Watching → Watching
destroy s = record s { interrupt_flag = true }

pub data Move : Type 0 where
  looks enters adds_status adds_disconnected sets_threshold : ℕ → Move
  rounds : Answer → Move
  destroys : Move

unfoldable pub move : Move → Watching → Watching
unfolding look enter take_round destroy add_on_status_available_callback
    add_on_device_disconnected_callback set_disconnection_trigger_threshold
move (looks c) s = look c s
move (enters c) s = enter c s
move (adds_status c) s = record s { watcher = add_on_status_available_callback c s.watcher }
move (adds_disconnected c) s = record s {
  watcher = add_on_device_disconnected_callback c s.watcher;
}
move (sets_threshold n) s = record s { watcher = set_disconnection_trigger_threshold n s.watcher }
move (rounds answer) s = take_round answer s
move destroys s = destroy s

unfoldable pub run : List Move → Watching → Watching
unfolding move
run [] s = s
run (m ∷ moves) s = run moves (move m s)

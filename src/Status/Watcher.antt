-- ===== src/Status/Watcher.antt =====
-- StatusWatcher (include/StatusWatcher.hpp, src/StatusWatcher.cpp): the rounds of `statusWatcherTask`.
-- Callbacks are numbers, and the log `events` records each invocation. A status is the map it is read
-- from.
pub mod Rounds
pub mod Turns
pub mod Clients
use r.Base.{
  ℕ, ◌+◌, ◌%◌, ◌^◌, Bool, true, false, List, [], ◌∷◌, ◌++◌, map, Option, none, some, leb,
  if◌then◌else◌, ParametersMap,
}
use r.Device.{RequestResult, success, same_result}

pub data Event : Type 0 where
  status_available : ℕ → ParametersMap → Event
  device_connected device_disconnected : ℕ → Event

pub record StatusWatcher : Type 0 where
  pub last_status_received : ParametersMap
  pub on_status_available_callbacks : List ℕ
  pub on_device_connected_callbacks : List ℕ
  pub on_device_disconnected_callbacks : List ℕ
  pub is_connected : Bool
  pub disconnection_trigger_threshold : ℕ
  pub disconnection_hit_count : ℕ
  pub events : List Event

-- The members' initial values.
unfoldable pub construct : StatusWatcher
construct = record {
  last_status_received = [];
  on_status_available_callbacks = [];
  on_device_connected_callbacks = [];
  on_device_disconnected_callbacks = [];
  is_connected = false;
  disconnection_trigger_threshold = 3;
  disconnection_hit_count = 0;
  events = [];
}

abbrev pub is_alive : StatusWatcher → Bool
is_alive w = w.is_connected

unfoldable pub add_on_status_available_callback : ℕ → StatusWatcher → StatusWatcher
add_on_status_available_callback callback w = record w {
  on_status_available_callbacks = w.on_status_available_callbacks ++ callback ∷ [];
}

-- The callback is invoked at once where the device is connected.
unfoldable pub add_on_device_connected_callback : ℕ → StatusWatcher → StatusWatcher
add_on_device_connected_callback callback w = record w {
  events = if w.is_connected then w.events ++ device_connected callback ∷ [] else w.events;
  on_device_connected_callbacks = w.on_device_connected_callbacks ++ callback ∷ [];
}

unfoldable pub add_on_device_disconnected_callback : ℕ → StatusWatcher → StatusWatcher
add_on_device_disconnected_callback callback w = record w {
  on_device_disconnected_callbacks = w.on_device_disconnected_callbacks ++ callback ∷ [];
}

-- The parameter is an int64_t that is stored as a uint64_t.
unfoldable pub set_disconnection_trigger_threshold : ℕ → StatusWatcher → StatusWatcher
set_disconnection_trigger_threshold threshold w = record w {
  disconnection_trigger_threshold = threshold;
}

unfoldable pub fire_device_connection_event : StatusWatcher → StatusWatcher
fire_device_connection_event w = record w {
  events = w.events ++ map device_connected w.on_device_connected_callbacks;
}

unfoldable pub fire_device_disconnection_event : StatusWatcher → StatusWatcher
fire_device_disconnection_event w = record w {
  events = w.events ++ map device_disconnected w.on_device_disconnected_callbacks;
}

unfoldable pub set_status_to_output : ParametersMap → StatusWatcher → StatusWatcher
set_status_to_output status w = record w {
  last_status_received = status;
  events = w.events ++ map (λ c. status_available c status) w.on_status_available_callbacks;
}

-- What a request of a round came to: the device was busy, or its result and parameters.
abbrev pub Answer : Type 0
Answer = Option (RequestResult × ParametersMap)

unfoldable pub on_success : ParametersMap → StatusWatcher → StatusWatcher
unfolding set_status_to_output fire_device_connection_event
on_success status w =
    let shown = set_status_to_output status (record w { disconnection_hit_count = 0 }) in
    let connected = record shown { is_connected = true } in
    if w.is_connected then connected else fire_device_connection_event connected

-- The hit count is an unsigned int.
unfoldable pub on_failure : StatusWatcher → StatusWatcher
unfolding fire_device_disconnection_event
on_failure w =
    let hits = (w.disconnection_hit_count + 1) % 2 ^ 32 in
    let counted = record w { disconnection_hit_count = hits } in
    let disconnected = record counted { is_connected = false } in
    if leb w.disconnection_trigger_threshold hits
    then if w.is_connected then fire_device_disconnection_event disconnected else disconnected
    else counted

-- One round of `statusWatcherTask`.
unfoldable pub watch_round : Answer → StatusWatcher → StatusWatcher
unfolding on_success on_failure same_result
watch_round none w = w
watch_round (some (result, status)) w =
    if same_result result success then on_success status w else on_failure w

unfoldable pub watch : List Answer → StatusWatcher → StatusWatcher
unfolding watch_round
watch [] w = w
watch (a ∷ answers) w = watch answers (watch_round a w)

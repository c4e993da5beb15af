-- ===== src/Tests/Watcher.antt =====
-- The theorems about the status watcher at concrete inputs.
use r.Base.{◌+◌, ◌≡◌, refl, arith, true, false, List, [], ◌∷◌, map, some, none}
use r.Device.{success, failed, timeout, same_result, underlying_type}
use r.Status.Watcher.{
  StatusWatcher, Answer, watch, construct, add_on_device_connected_callback,
  add_on_device_disconnected_callback,
}
use r.Status.Watcher.Rounds.{hits_of, after_hits, watch-hits}
use r.Status.Watcher.Turns.{Hears}
use r.Status.Watcher.Clients.{
  Watching, Move, looks, enters, adds_status, adds_disconnected, sets_threshold, rounds, destroys,
  run,
}
use r.Status.Watcher.Clients.Heard.{run-Hears}
use r.Status.Watcher.Clients.Unheard.{IsUnheard, brings, run-IsUnheard}

abbrev watcher : StatusWatcher
watcher = record {
  last_status_received = [];
  on_status_available_callbacks = 1 ∷ [];
  on_device_connected_callbacks = 2 ∷ [];
  on_device_disconnected_callbacks = 3 ∷ 4 ∷ [];
  is_connected = true;
  disconnection_trigger_threshold = 3;
  disconnection_hit_count = 0;
  events = [];
}

abbrev answers : List Answer
answers =
    some (timeout, []) ∷ none ∷ some (failed, []) ∷ some (timeout, []) ∷ some (failed, []) ∷ []

watch-hits_example :
    watch answers watcher ≡ after_hits (watcher.disconnection_hit_count + hits_of answers) watcher
unfolding same_result underlying_type
watch-hits_example =
    watch-hits answers watcher refl (omega arith) (refl, (tt, (refl, (refl, (refl, tt)))))
      (omega arith)

-- A new watcher with one callback for connections and one for disconnections.
abbrev listened : StatusWatcher
listened = add_on_device_disconnected_callback 2 (add_on_device_connected_callback 1 construct)

abbrev watching : Watching
watching = record { watcher = listened; looked = []; interrupt_flag = false }

abbrev moves : List Move
moves =
    looks 3
    ∷ rounds (some (success, []))
    ∷ enters 3
    ∷ adds_status 4
    ∷ adds_disconnected 5
    ∷ sets_threshold 1
    ∷ rounds (some (failed, []))
    ∷ rounds none
    ∷ rounds (some (success, []))
    ∷ destroys
    ∷ rounds (some (failed, []))
    ∷ []

run-Hears_example : Hears 1 2 listened (run moves watching).watcher
unfolding construct add_on_device_connected_callback add_on_device_disconnected_callback
run-Hears_example =
    run-Hears 1 2 moves watching
      (refl, (tt, (refl, (tt, (refl, (tt, (tt, (tt, (tt, (tt, (tt, tt))))))))))) (refl, refl)

run-IsUnheard_example :
    IsUnheard 3 4 listened.events
      (run (looks 3 ∷ brings [] ∷ enters 3 ∷ map brings ([] ∷ [] ∷ [])) watching)
unfolding construct add_on_device_connected_callback add_on_device_disconnected_callback
run-IsUnheard_example = run-IsUnheard 3 4 [] ([] ∷ [] ∷ []) watching refl refl refl

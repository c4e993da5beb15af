-- ===== src/Status/Watcher/Rounds.antt =====
-- Disconnections of the status watcher (src/StatusWatcher.cpp).
use r.Base.{
  ℕ, suc, ◌+◌, ◌%◌, ◌^◌, ◌≤◌, ◌<◌, ◌≡◌, refl, sym, ◌∙◌, ap, Bool, true, false, Bool-cases, inl, inr,
  List, [], ◌∷◌, ◌++◌, map, All, none, some, leb, if◌then◌else◌, append-nil, arith, ParametersMap,
}
use r.Device.{RequestResult, success, same_result}
use r.Status.Watcher.{
  Event, device_connected, device_disconnected, status_available, StatusWatcher, Answer, on_success,
  on_failure, watch_round, watch, fire_device_disconnection_event, fire_device_connection_event,
  set_status_to_output,
}

-- The rounds that fail, and not only find the device busy.
abbrev pub hits_of : List Answer → ℕ
hits_of [] = 0
hits_of (none ∷ answers) = hits_of answers
hits_of (some a ∷ answers) = suc (hits_of answers)

-- No answer is a success.
abbrev pub Fails : Answer → Type 0
Fails none = Unit {0}
Fails (some (result, status)) = same_result result success ≡ false

abbrev pub disconnections : StatusWatcher → List Event
disconnections w = map device_disconnected w.on_device_disconnected_callbacks

abbrev with_hits : Bool → ℕ → StatusWatcher → StatusWatcher
with_hits connected hits w = record w { is_connected = connected; disconnection_hit_count = hits }

abbrev disconnected : ℕ → StatusWatcher → StatusWatcher
disconnected hits w = record w {
  is_connected = false;
  disconnection_hit_count = hits;
  events = w.events ++ disconnections w;
}

module _ (w : StatusWatcher) (result : RequestResult) (status : ParametersMap) (n : ℕ)
    (fails : same_result result success ≡ false) (small : n + 1 < 2 ^ 32) where
  counted : (n + 1) % 2 ^ 32 ≡ suc n
  counted = omega arith

  fails_down : watch_round (some (result, status)) (with_hits false n w) ≡ with_hits false (suc n) w
  unfolding watch_round on_failure
  fails_down = elim (Bool-cases (leb w.disconnection_trigger_threshold (suc n))) [
    | inl e ↦ rw (fails, counted, e)
    | inr e ↦ rw (fails, counted, e)
  ]

  fails_below :
      suc n < w.disconnection_trigger_threshold
      → watch_round (some (result, status)) (with_hits true n w) ≡ with_hits true (suc n) w
  unfolding watch_round on_failure
  fails_below h =
      let e : leb w.disconnection_trigger_threshold (suc n) ≡ false = ground arith in
      rw (fails, counted, e)

  fails_at :
      w.disconnection_trigger_threshold ≤ suc n
      → watch_round (some (result, status)) (with_hits true n w) ≡ disconnected (suc n) w
  unfolding watch_round on_failure fire_device_disconnection_event
  fails_at h =
      let e : leb w.disconnection_trigger_threshold (suc n) ≡ true = ground arith in
      rw (fails, counted, e)

watch_down :
    (answers : List Answer) (w : StatusWatcher) (n : ℕ)
    → All Fails answers
    → n + hits_of answers < 2 ^ 32
    → watch answers (with_hits false n w) ≡ with_hits false (n + hits_of answers) w
unfolding watch
watch_down [] w n h small = ap (λ k. with_hits false k w) (omega arith)
watch_down (none ∷ answers) w n (h, hs) small =
    unfold watch_round in watch_down answers w n hs small
watch_down (some (result, status) ∷ answers) w n (h, hs) small =
    ap (watch answers) (fails_down w result status n h (omega arith))
    ∙ watch_down answers w (suc n) hs (omega arith)
    ∙ ap (λ k. with_hits false k w) (omega arith)

-- What a connected watcher becomes after a number of hits.
abbrev pub after_hits : ℕ → StatusWatcher → StatusWatcher
after_hits hits w =
    if leb w.disconnection_trigger_threshold hits
    then disconnected hits w
    else with_hits true hits w

watch_up :
    (answers : List Answer) (w : StatusWatcher) (n : ℕ)
    → All Fails answers
    → n < w.disconnection_trigger_threshold
    → n + hits_of answers < 2 ^ 32
    → watch answers (with_hits true n w) ≡ after_hits (n + hits_of answers) w
unfolding watch
watch_up [] w n h below small =
    let e : leb w.disconnection_trigger_threshold (n + 0) ≡ false = ground arith in
    rw e (ap (λ k. with_hits true k w) (omega arith))
watch_up (none ∷ answers) w n (h, hs) below small =
    unfold watch_round in watch_up answers w n hs below small
watch_up (some (result, status) ∷ answers) w n (h, hs) below small =
    elim (Bool-cases (leb w.disconnection_trigger_threshold (suc n))) [
      | inl reached ↦
          let e : leb w.disconnection_trigger_threshold (n + suc (hits_of answers)) ≡ true =
            ground arith in
          ap (watch answers) (fails_at w result status n h (omega arith) (ground arith))
          ∙ watch_down answers (record w { events = w.events ++ disconnections w }) (suc n) hs
              (omega arith)
          ∙ ap (λ k. disconnected k w) (omega arith)
          ∙ sym (
              ap
                (λ b.
                  if b
                  then disconnected (n + suc (hits_of answers)) w
                  else with_hits true (n + suc (hits_of answers)) w)
                e)
      | inr not_yet ↦
          ap (watch answers) (fails_below w result status n h (omega arith) (ground arith))
          ∙ watch_up answers w (suc n) hs (ground arith) (omega arith)
          ∙ ap (λ k. after_hits k w) (omega arith)
    ]

-- A connected watcher with a threshold above its hit count watches through rounds without a success,
-- among them rounds that find the device busy. While the hits stay below the threshold it is connected
-- and has announced nothing; from the threshold on it is disconnected, and each disconnection callback
-- has been invoked exactly once, however many hits follow; busy rounds count for nothing.
pub watch-hits :
    (answers : List Answer) (w : StatusWatcher)
    → w.is_connected ≡ true
    → w.disconnection_hit_count < w.disconnection_trigger_threshold
    → All Fails answers
    → w.disconnection_hit_count + hits_of answers < 2 ^ 32
    → watch answers w ≡ after_hits (w.disconnection_hit_count + hits_of answers) w
watch-hits answers w connected below h small =
    ap (λ b. watch answers (with_hits b w.disconnection_hit_count w)) connected
    ∙ watch_up answers w w.disconnection_hit_count h below small

-- A round with a success resets the hits, connects the watcher and shows the new status to each status
-- callback; the connection callbacks are invoked as well exactly where it was not connected before.
pub watch_round-success :
    (status : ParametersMap) (w : StatusWatcher)
    → let w' = watch_round (some (success, status)) w in
      (w'.is_connected ≡ true)
      × (w'.disconnection_hit_count ≡ 0)
      × (w'.last_status_received ≡ status)
      × (w'.events
          ≡ (w.events ++ map (λ c. status_available c status) w.on_status_available_callbacks)
            ++ (if w.is_connected
                then []
                else map device_connected w.on_device_connected_callbacks))
unfolding watch_round on_success set_status_to_output fire_device_connection_event
watch_round-success status w = elim (Bool-cases w.is_connected) [
  | inl e ↦ rw e (refl, refl, refl, sym (append-nil _))
  | inr e ↦ rw e (refl, refl, refl, refl)
]

-- ===== src/Status/Obtained.antt =====
-- What the status watcher asks the device for (src/StatusWatcher.cpp), and what the getters of the
-- status (include/StatusWatcher.hpp) make of the answer.
use r.Base.{
  ℕ, ◌-◌, ◌%◌, ◌^◌, ◌<◌, ◌≡◌, refl, ◌∙◌, true, Bool-cases, inl, inr, List, [], ◌∷◌, Option, none,
  some, Text, codes, ParametersMap, lookup, same, Outcome, done, fault, threw, invalid_argument,
}
use r.Base.Decimal.{numeral, value, AreDigits, stoul-numeral, stoul-negative}
use r.Device.{success, same_result}
use r.Commands.{Device, chain_list}
use r.Commands.Trees.{
  TreeReads, or_empty, is_success, completed, submitted, chain_names, extract_parameters_values,
  async_get_parameters,
}
use r.Commands.Values.{is_among, lookup-extract_parameters_values}
use r.Parameters.ReadOnly.{
  SystemStatusCall, request_status_flags, request_load_indication, request_system_time_raw,
  request_up_time, request_power_cycles, request_operation_time, request_operation_time_scaled,
  request_current_temperature, request_minimal_temperature, request_maximal_temperature, push_back,
  system_status, request,
}
use r.Status.{cast_quietly64, cast_quietly32, or_otherwise, get_number, get_status_flags}
use r.Status.Watcher.{
  StatusWatcher, Answer, watch_round, on_success, set_status_to_output,
  fire_device_connection_event,
}

abbrev pub status_calls : List SystemStatusCall
status_calls =
    request_load_indication ∷ request_system_time_raw ∷ request_up_time ∷ request_power_cycles
    ∷ request_operation_time ∷ request_operation_time_scaled ∷ request_current_temperature
    ∷ request_minimal_temperature ∷ request_maximal_temperature ∷ request_status_flags ∷ []

-- The list `systemStatus` of the watcher's task.
unfoldable pub requested_status : List Text
unfolding request system_status push_back
requested_status = request system_status status_calls []

unfoldable pub received : Outcome Answer → StatusWatcher → Outcome StatusWatcher
unfolding watch_round
received (done answer) w = done (watch_round answer w)
received fault w = fault
received (threw e) w = threw e

module _ {T : Type 0} (reads : TreeReads T) (device : Device T) where
  -- One round of the watcher's task, from its request to what it makes of the answer.
  unfoldable pub asking_round : StatusWatcher → Outcome StatusWatcher
  unfolding requested_status received async_get_parameters
  asking_round w = received (async_get_parameters reads device (requested_status ∷ [])) w

-- What a device sends for a parameter: nothing, a numeral, or one with a minus sign.
pub data Sent : Type 0 where
  nothing : Sent
  number below_zero : ℕ → List ℕ → Sent

abbrev pub sent_text : Sent → Option Text
sent_text nothing = none
sent_text (number d ds) = some (numeral (d ∷ ds))
sent_text (below_zero d ds) = some (b'-' ∷ numeral (d ∷ ds))

-- The numbers are those that 64 bits hold, and the numeral behind a minus sign is not 0.
abbrev pub IsSent : Sent → Type 0
IsSent nothing = Unit
IsSent (number d ds) = AreDigits (d ∷ ds) × (value (d ∷ ds) < 2 ^ 64)
IsSent (below_zero d ds) = AreDigits (d ∷ ds) × (0 < value (d ∷ ds)) × (value (d ∷ ds) < 2 ^ 64)

abbrev pub read_as : ℕ → Sent → ℕ
read_as otherwise nothing = otherwise
read_as otherwise (number d ds) = value (d ∷ ds)
read_as otherwise (below_zero d ds) = 2 ^ 64 - value (d ∷ ds)

abbrev pub flags_as : Sent → Outcome ℕ
flags_as nothing = threw invalid_argument
flags_as (number d ds) = done (value (d ∷ ds) % 2 ^ 32)
flags_as (below_zero d ds) = done ((2 ^ 64 - value (d ∷ ds)) % 2 ^ 32)

module _ {T : Type 0} (reads : TreeReads T) where
  number-sent :
      (otherwise : ℕ) (s : Sent)
      → IsSent s
      → or_otherwise otherwise (cast_quietly64 (some (or_empty reads (sent_text s))))
        ≡ done (read_as otherwise s)
  unfolding or_otherwise cast_quietly64
  number-sent otherwise nothing h = refl
  number-sent otherwise (number d ds) (h, fits) = rw (stoul-numeral d ds h fits)
  number-sent otherwise (below_zero d ds) (h, above, fits) = rw (stoul-negative d ds h above fits)

  flags-sent :
      (s : Sent) → IsSent s → cast_quietly32 (some (or_empty reads (sent_text s))) ≡ flags_as s
  unfolding cast_quietly32
  flags-sent nothing h = refl
  flags-sent (number d ds) (h, fits) = rw (stoul-numeral d ds h fits)
  flags-sent (below_zero d ds) (h, above, fits) = rw (stoul-negative d ds h above fits)

  lookup-obtained :
      (tree : T) (key : Text) (s : Sent)
      → is_among key requested_status ≡ true
      → reads.get_optional key tree ≡ sent_text s
      → lookup key (extract_parameters_values reads requested_status tree)
        ≡ some (or_empty reads (sent_text s))
  lookup-obtained tree key s asked sent =
      lookup-extract_parameters_values reads tree key requested_status ∙ rw (asked, sent)

flags-asked : is_among (codes "status_flags") requested_status ≡ true
unfolding requested_status request system_status push_back same
flags-asked = refl

get_status_flags-lookup :
    (m : ParametersMap) (t : Text)
    → lookup (codes "status_flags") m ≡ some t
    → get_status_flags m ≡ cast_quietly32 (some t)
unfolding get_status_flags
get_status_flags-lookup m t e = rw (e, get_status_flags) refl

last_status-watch_round :
    (m : ParametersMap) (w : StatusWatcher)
    → (watch_round (some (success, m)) w).last_status_received ≡ m
unfolding watch_round on_success set_status_to_output fire_device_connection_event same_result
last_status-watch_round m w = elim (Bool-cases w.is_connected) [ inl e ↦ rw e | inr e ↦ rw e ]

module _ {T : Type 0} (reads : TreeReads T) (device : Device T) (w : StatusWatcher) (tree : T)
    (answers : device.submit
        (codes "get_parameter")
        ((codes "list", chain_names requested_status) ∷ [])
      ≡ some (record { request_result = success; property_tree = tree })) where
  asking_round-answered :
      (w' : StatusWatcher) × (asking_round reads device w ≡ done w')
      × (w'.last_status_received ≡ extract_parameters_values reads requested_status tree)
  unfolding asking_round async_get_parameters received chain_list submitted completed is_success
      same_result requested_status request system_status push_back
  asking_round-answered = (
    watch_round (some (success, extract_parameters_values reads requested_status tree)) w,
    rw answers,
    last_status-watch_round (extract_parameters_values reads requested_status tree) w,
  )

  module _ (s : Sent) (is_sent : IsSent s) where
    -- The watcher's request is answered with SUCCESS. Under the key of each parameter that it asks for,
    -- the getter of the new status returns the number that the device has sent, one below 0 subtracted
    -- from 2^64, and the value given for a failure where the device has sent nothing.
    pub get_number-asking_round :
        (key : Text) (otherwise : ℕ)
        → is_among key requested_status ≡ true
        → reads.get_optional key tree ≡ sent_text s
        → (w' : StatusWatcher) × (asking_round reads device w ≡ done w')
          × (get_number w'.last_status_received key otherwise ≡ done (read_as otherwise s))
    unfolding get_number
    get_number-asking_round key otherwise asked sent =
        let (w', e, last) = asking_round-answered in
        (
          w',
          e,
          rw (last, lookup-obtained reads tree key s asked sent)
              (number-sent reads otherwise s is_sent),
        )

    -- The watcher's request is answered with SUCCESS. The flags of the new status are the number that
    -- the device has sent, modulo 2^32, but reading them throws where the device has sent nothing.
    pub get_status_flags-asking_round :
        reads.get_optional (codes "status_flags") tree ≡ sent_text s
        → (w' : StatusWatcher) × (asking_round reads device w ≡ done w')
          × (get_status_flags w'.last_status_received ≡ flags_as s)
    get_status_flags-asking_round sent =
        let (w', e, last) = asking_round-answered in
        (
          w',
          e,
          rw last (
              get_status_flags-lookup _ _
                (lookup-obtained reads tree (codes "status_flags") s flags-asked sent)
              ∙ flags-sent reads s is_sent),
        )

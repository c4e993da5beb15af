-- ===== src/Status.antt =====
-- DeviceStatus and its flags (include/StatusWatcher.hpp): what a client reads of the status map that
-- the device has sent.
pub mod Getters
pub mod Watcher
pub mod Obtained
use r.Base.{
  ℕ, ◌/◌, ◌%◌, ◌^◌, Bool, false, Option, none, some, ◌==◌, Text, codes, ParametersMap, lookup,
  Outcome, done, fault, threw, invalid_argument, out_of_range,
}
use r.Base.Numerals.{stoul, stoi}

-- `std::bitset<32>` over the flags.
unfoldable pub flag : ℕ → ℕ → Bool
flag flags position = (flags / 2 ^ position) % 2 == 1

module _ (flags : ℕ) where
  abbrev pub is_initializing : Bool
  unfolding flag
  is_initializing = flag flags 0

  abbrev pub output_scan_is_muted : Bool
  unfolding flag
  output_scan_is_muted = flag flags 3

  abbrev pub head_has_unstable_rotation : Bool
  unfolding flag
  head_has_unstable_rotation = flag flags 4

  abbrev pub device_has_warning : Bool
  unfolding flag
  device_has_warning = flag flags 9

  abbrev pub has_lens_contamination_warning : Bool
  unfolding flag
  has_lens_contamination_warning = flag flags 10

  abbrev pub has_low_temperature_warning : Bool
  unfolding flag
  has_low_temperature_warning = flag flags 11

  abbrev pub has_high_temperature_warning : Bool
  unfolding flag
  has_high_temperature_warning = flag flags 12

  abbrev pub has_device_overload_warning : Bool
  unfolding flag
  has_device_overload_warning = flag flags 13

  abbrev pub device_has_error : Bool
  unfolding flag
  device_has_error = flag flags 17

  abbrev pub has_lens_contamination_error : Bool
  unfolding flag
  has_lens_contamination_error = flag flags 18

  abbrev pub has_low_temperature_error : Bool
  unfolding flag
  has_low_temperature_error = flag flags 19

  abbrev pub has_high_temperature_error : Bool
  unfolding flag
  has_high_temperature_error = flag flags 20

  abbrev pub has_device_overload_error : Bool
  unfolding flag
  has_device_overload_error = flag flags 21

  abbrev pub has_unrecoverable_defect : Bool
  unfolding flag
  has_unrecoverable_defect = flag flags 31

-- `QuietCastOptionalHelper<uint64_t>`, and `<uint32_t>`, whose result is narrowed. The quiet NaN of an
-- integer type is 0.
unfoldable pub cast_quietly64 : Option Text → Outcome ℕ
unfolding stoul
cast_quietly64 none = done 0
cast_quietly64 (some t) = stoul t

narrow : Outcome ℕ → Outcome ℕ
narrow (done n) = done (n % 2 ^ 32)
narrow fault = fault
narrow (threw e) = threw e

unfoldable pub cast_quietly32 : Option Text → Outcome ℕ
unfolding stoul narrow
cast_quietly32 none = done 0
cast_quietly32 (some t) = narrow (stoul t)

-- `QuietCastOptionalHelper<int64_t>`, which no getter uses: the int that `std::stoi` reads, as whether
-- there is a minus sign and the magnitude.
unfoldable pub cast_quietly_signed64 : Option Text → Outcome (Bool × ℕ)
unfolding stoi
cast_quietly_signed64 none = done (false, 0)
cast_quietly_signed64 (some t) = stoi t

-- The two handlers that every getter has behind its cast.
unfoldable pub or_otherwise : ℕ → Outcome ℕ → Outcome ℕ
or_otherwise otherwise (done n) = done n
or_otherwise otherwise fault = fault
or_otherwise otherwise (threw invalid_argument) = done otherwise
or_otherwise otherwise (threw out_of_range) = done otherwise
or_otherwise otherwise (threw e) = threw e

module _ (system_status_map : ParametersMap) where
  unfoldable pub get_status_flags : Outcome ℕ
  unfolding lookup cast_quietly32
  get_status_flags = elim (lookup (codes "status_flags") system_status_map) [
    | none ↦ done 0
    | some t ↦ cast_quietly32 (some t)
  ]

  unfoldable pub get_number : Text → ℕ → Outcome ℕ
  unfolding lookup cast_quietly64 or_otherwise
  get_number key otherwise = or_otherwise otherwise (cast_quietly64 (lookup key system_status_map))

  abbrev pub get_cpu_load : ℕ → Outcome ℕ
  unfolding get_number
  get_cpu_load = get_number (codes "load_indication")

  abbrev pub get_raw_system_time : ℕ → Outcome ℕ
  unfolding get_number
  get_raw_system_time = get_number (codes "system_time_raw")

  abbrev pub get_uptime : ℕ → Outcome ℕ
  unfolding get_number
  get_uptime = get_number (codes "up_time")

  abbrev pub get_power_cycles_count : ℕ → Outcome ℕ
  unfolding get_number
  get_power_cycles_count = get_number (codes "power_cycles")

  abbrev pub get_operation_time : ℕ → Outcome ℕ
  unfolding get_number
  get_operation_time = get_number (codes "operation_time")

  abbrev pub get_scaled_operation_time : ℕ → Outcome ℕ
  unfolding get_number
  get_scaled_operation_time = get_number (codes "operation_time_scaled")

  abbrev pub get_current_temperature : ℕ → Outcome ℕ
  unfolding get_number
  get_current_temperature = get_number (codes "temperature_current")

  abbrev pub get_minimal_temperature : ℕ → Outcome ℕ
  unfolding get_number
  get_minimal_temperature = get_number (codes "temperature_min")

  abbrev pub get_maximal_temperature : ℕ → Outcome ℕ
  unfolding get_number
  get_maximal_temperature = get_number (codes "temperature_max")

-- ===== src/Parameters/ReadWrite/Last.antt =====
-- What the read-write builders of include/Control/Parameters.hpp leave: under each name, the text of the
-- last call that wrote it.
use r.Base.{
  ◌≡◌, refl, ap, ◌∙◌, List, [], ◌∷◌, Option, none, some, if◌then◌else◌, Text, codes, ParametersMap,
  lookup, assign, same, lookup-assign_if, lookup-assign,
}
use r.Parameters.ReadWrite.{
  rw_method, build, BasicInformationCall, basic_information, with_user_tag, with_user_notes,
  EthernetCall, ethernet, IpMode, with_ip_mode, with_ip_address, with_subnet_mask, with_gateway,
  ip_mode_to_string, MeasuringCall, measuring, HmiDisplayCall, hmi_display,
  LensContaminationMonitorCall, lens_contamination_monitor,
}
use r.Parameters.ReadWrite as ReadWrite

-- The name and the text of a call: what it leaves of the empty map.
abbrev first_entry : ParametersMap → Text × Text
first_entry [] = ([], [])
first_entry (entry ∷ m) = entry

module _ {Call : Type 0} (section : Call → ParametersMap → ParametersMap) where
  abbrev pub written : Call → Text × Text
  written call = first_entry (section call [])

  -- Each call of the section assigns a text to a name.
  pub record IsSection : Type 0 where
    pub assigns :
        (call : Call) (m : ParametersMap)
        → section call m ≡ assign (written call).0 (written call).1 m

  -- The text that the last of the calls for a name has written there, or the one from before.
  abbrev pub last_written : Text → List Call → Option Text → Option Text
  last_written l [] before = before
  last_written l (call ∷ calls) before =
      last_written l calls (if same (written call).0 l then some (written call).1 else before)

  -- Whatever calls a builder has been given, in whatever order, the map it builds has under each name
  -- the text of the last call for that name, and what it had before where there is no such call.
  pub lookup-build :
      IsSection
      → (l : Text) (calls : List Call) (m : ParametersMap)
      → lookup l (build section calls m) ≡ last_written l calls (lookup l m)
  unfolding build
  lookup-build s l [] m = refl
  lookup-build s l (call ∷ calls) m =
      lookup-build s l calls (section call m)
      ∙ ap (last_written l calls) (
          ap (lookup l) (s.assigns call m) ∙ lookup-assign_if (written call).0 l (written call).1 m)

pub basic_information-IsSection : IsSection basic_information
unfolding basic_information rw_method assign
basic_information-IsSection = record { assigns = go }
  where
    go :
        (call : BasicInformationCall) (m : ParametersMap)
        → basic_information call m
          ≡ assign (written basic_information call).0 (written basic_information call).1 m
    go (ReadWrite.with_user_tag user_tag) m = refl
    go (ReadWrite.with_user_notes user_notes) m = refl

pub ethernet-IsSection : IsSection ethernet
unfolding ethernet rw_method assign
ethernet-IsSection = record { assigns = go }
  where
    go :
        (call : EthernetCall) (m : ParametersMap)
        → ethernet call m ≡ assign (written ethernet call).0 (written ethernet call).1 m
    go (ReadWrite.with_ip_mode mode) m = refl
    go (ReadWrite.with_ip_address ip_address) m = refl
    go (ReadWrite.with_subnet_mask subnet_mask) m = refl
    go (ReadWrite.with_gateway gateway) m = refl

pub measuring-IsSection : IsSection measuring
unfolding measuring rw_method assign
measuring-IsSection = record { assigns = go }
  where
    go :
        (call : MeasuringCall) (m : ParametersMap)
        → measuring call m ≡ assign (written measuring call).0 (written measuring call).1 m
    go (ReadWrite.with_operating_mode operating_mode) m = refl
    go (ReadWrite.with_scan_frequency scan_frequency) m = refl
    go (ReadWrite.with_samples_per_scan samples_per_scan) m = refl
    go (ReadWrite.with_scan_direction scan_direction) m = refl

pub hmi_display-IsSection : IsSection hmi_display
unfolding hmi_display rw_method assign
hmi_display-IsSection = record { assigns = go }
  where
    go :
        (call : HmiDisplayCall) (m : ParametersMap)
        → hmi_display call m ≡ assign (written hmi_display call).0 (written hmi_display call).1 m
    go (ReadWrite.with_hmi_display_mode display_mode) m = refl
    go (ReadWrite.with_hmi_language language) m = refl
    go ReadWrite.lock_hmi_button m = refl
    go ReadWrite.unlock_hmi_button m = refl
    go ReadWrite.lock_hmi_parameters m = refl
    go ReadWrite.unlock_hmi_parameters m = refl
    go ReadWrite.enable_led_locator_indication m = refl
    go ReadWrite.disable_led_locator_indication m = refl
    go (ReadWrite.with_hmi_static_logo base64_logo) m = refl
    go (ReadWrite.with_hmi_static_text1 line) m = refl
    go (ReadWrite.with_hmi_static_text2 line) m = refl
    go (ReadWrite.with_hmi_application_bitmap base64_bitmap) m = refl
    go (ReadWrite.with_hmi_application_text1 line) m = refl
    go (ReadWrite.with_hmi_application_text2 line) m = refl

pub lens_contamination_monitor-IsSection : IsSection lens_contamination_monitor
unfolding lens_contamination_monitor rw_method assign
lens_contamination_monitor-IsSection = record { assigns = go }
  where
    go :
        (call : LensContaminationMonitorCall) (m : ParametersMap)
        → lens_contamination_monitor call m
          ≡ assign
              (written lens_contamination_monitor call).0
              (written lens_contamination_monitor call).1
              m
    go (ReadWrite.with_sensitivity sensitivity) m = refl
    go (ReadWrite.with_detection_period period) m = refl
    go ReadWrite.with_lcm_enabled m = refl
    go ReadWrite.with_lcm_disabled m = refl

never_ip_mode :
    (call : EthernetCall) (m : ParametersMap)
    → lookup (codes "ip_mode") (ethernet call m) ≡ lookup (codes "ip_mode") m
unfolding ethernet rw_method same
never_ip_mode (with_ip_mode mode) m = lookup-assign_if _ (codes "ip_mode") _ m
never_ip_mode (with_ip_address t) m = lookup-assign_if _ (codes "ip_mode") _ m
never_ip_mode (with_subnet_mask t) m = lookup-assign_if _ (codes "ip_mode") _ m
never_ip_mode (with_gateway t) m = lookup-assign_if _ (codes "ip_mode") _ m

ip_mode-build :
    (calls : List EthernetCall) (m : ParametersMap)
    → lookup (codes "ip_mode") (build ethernet calls m) ≡ lookup (codes "ip_mode") m
unfolding build
ip_mode-build [] m = refl
ip_mode-build (call ∷ calls) m = ip_mode-build calls (ethernet call m) ∙ never_ip_mode call m

-- Whatever calls the builder of the Ethernet section has been given, with a mode or without one, it has
-- no text under `ip_mode`; and a mode that is set takes the place of every address that has been set.
pub lookup-with_ip_mode :
    (calls : List EthernetCall) (mode : IpMode)
    → (lookup (codes "ip_mode") (build ethernet calls []) ≡ none)
      × (lookup (codes "ip_address") (ethernet (with_ip_mode mode) (build ethernet calls []))
          ≡ some (ip_mode_to_string mode))
unfolding ethernet rw_method lookup
lookup-with_ip_mode calls mode = (
  ip_mode-build calls [],
  lookup-assign (codes "ip_address") (ip_mode_to_string mode) (build ethernet calls []),
)

-- ===== src/Parameters/ReadWrite.antt =====
-- The read-write builders of include/Control/Parameters.hpp: each call assigns a text to the name of a
-- parameter. A section's calls are a type, and one function says what each does.
pub mod Last
pub mod Spaces
use r.Base.{
  ℕ, Bool, true, false, List, [], ◌∷◌, ◌++◌, Text, codes, ParametersMap, assign, if◌then◌else◌,
}
use r.Base.Numerals.{is_space}
use r.Base.Decimal.{to_string}

-- The bodies of the ADD_RW_PARAMETER_BUILDER_METHOD macros, with the text that a transform has made, and
-- with BOOL_PARAMETER_TRUE and BOOL_PARAMETER_FALSE.
unfoldable pub rw_method : Text → Text → ParametersMap → ParametersMap
unfolding assign
rw_method name value parameters = assign name value parameters

abbrev pub on_method : Text → ParametersMap → ParametersMap
unfolding rw_method
on_method name = rw_method name (codes "on")

abbrev pub off_method : Text → ParametersMap → ParametersMap
unfolding rw_method
off_method name = rw_method name (codes "off")

-- `encoreSpaceInUrl`: each character of [[:space:]] is replaced.
unfoldable pub encore_space_in_url : Text → Text
encore_space_in_url [] = []
encore_space_in_url (c ∷ t) =
    let rest = encore_space_in_url t in if is_space c then codes "%20" ++ rest else c ∷ rest

pub data BasicInformationCall : Type 0 where
  with_user_tag with_user_notes : Text → BasicInformationCall

unfoldable pub basic_information : BasicInformationCall → ParametersMap → ParametersMap
unfolding rw_method
basic_information (with_user_tag user_tag) = rw_method (codes "user_tag") user_tag
basic_information (with_user_notes user_notes) = rw_method (codes "user_notes") user_notes

pub data IpMode : Type 0 where
  static dhcp auto_ip : IpMode

abbrev pub ip_mode_to_string : IpMode → Text
ip_mode_to_string static = codes "static"
ip_mode_to_string dhcp = codes "dhcp"
ip_mode_to_string auto_ip = codes "autoip"

pub data EthernetCall : Type 0 where
  with_ip_mode : IpMode → EthernetCall
  with_ip_address with_subnet_mask with_gateway : Text → EthernetCall

-- The mode is assigned to PARAMETER_IP_ADDRESS.
unfoldable pub ethernet : EthernetCall → ParametersMap → ParametersMap
unfolding rw_method
ethernet (with_ip_mode mode) = rw_method (codes "ip_address") (ip_mode_to_string mode)
ethernet (with_ip_address ip_address) = rw_method (codes "ip_address") ip_address
ethernet (with_subnet_mask subnet_mask) = rw_method (codes "subnet_mask") subnet_mask
ethernet (with_gateway gateway) = rw_method (codes "gateway") gateway

pub data OperatingMode : Type 0 where
  measure emitter_off : OperatingMode

abbrev pub operating_mode_to_string : OperatingMode → Text
operating_mode_to_string measure = codes "measure"
operating_mode_to_string emitter_off = codes "emitter_off"

pub data ScanDirection : Type 0 where
  cw ccw : ScanDirection

abbrev pub scan_direction_to_string : ScanDirection → Text
scan_direction_to_string cw = codes "cw"
scan_direction_to_string ccw = codes "ccw"

pub data MeasuringCall : Type 0 where
  with_operating_mode : OperatingMode → MeasuringCall
  with_scan_frequency with_samples_per_scan : ℕ → MeasuringCall
  with_scan_direction : ScanDirection → MeasuringCall

unfoldable pub measuring : MeasuringCall → ParametersMap → ParametersMap
unfolding rw_method to_string
measuring (with_operating_mode operating_mode) =
    rw_method (codes "operating_mode") (operating_mode_to_string operating_mode)
measuring (with_scan_frequency scan_frequency) =
    rw_method (codes "scan_frequency") (to_string scan_frequency)
measuring (with_samples_per_scan samples_per_scan) =
    rw_method (codes "samples_per_scan") (to_string samples_per_scan)
measuring (with_scan_direction scan_direction) =
    rw_method (codes "scan_direction") (scan_direction_to_string scan_direction)

pub data Language : Type 0 where
  english german : Language

abbrev pub language_to_string : Language → Text
language_to_string english = codes "english"
language_to_string german = codes "german"

pub data HmiDisplayMode : Type 0 where
  off static_logo static_text bar_graph_distance bar_graph_echo : HmiDisplayMode
  bar_graph_reflector application_bitmap application_text : HmiDisplayMode

abbrev pub hmi_display_mode_to_string : HmiDisplayMode → Text
hmi_display_mode_to_string off = codes "off"
hmi_display_mode_to_string static_logo = codes "static_logo"
hmi_display_mode_to_string static_text = codes "static_text"
hmi_display_mode_to_string bar_graph_distance = codes "bargraph_distance"
hmi_display_mode_to_string bar_graph_echo = codes "bargraph_echo"
hmi_display_mode_to_string bar_graph_reflector = codes "bargraph_reflector"
hmi_display_mode_to_string application_bitmap = codes "application_bitmap"
hmi_display_mode_to_string application_text = codes "application_text"

pub data HmiDisplayCall : Type 0 where
  with_hmi_display_mode : HmiDisplayMode → HmiDisplayCall
  with_hmi_language : Language → HmiDisplayCall
  lock_hmi_button unlock_hmi_button lock_hmi_parameters unlock_hmi_parameters : HmiDisplayCall
  enable_led_locator_indication disable_led_locator_indication : HmiDisplayCall
  with_hmi_static_logo with_hmi_static_text1 with_hmi_static_text2 : Text → HmiDisplayCall
  with_hmi_application_bitmap with_hmi_application_text1 : Text → HmiDisplayCall
  with_hmi_application_text2 : Text → HmiDisplayCall

unfoldable pub hmi_display : HmiDisplayCall → ParametersMap → ParametersMap
unfolding rw_method encore_space_in_url
hmi_display (with_hmi_display_mode display_mode) =
    rw_method (codes "hmi_display_mode") (hmi_display_mode_to_string display_mode)
hmi_display (with_hmi_language language) =
    rw_method (codes "hmi_language") (language_to_string language)
hmi_display lock_hmi_button = on_method (codes "hmi_button_lock")
hmi_display unlock_hmi_button = off_method (codes "hmi_button_lock")
hmi_display lock_hmi_parameters = on_method (codes "hmi_parameter_lock")
hmi_display unlock_hmi_parameters = off_method (codes "hmi_parameter_lock")
hmi_display enable_led_locator_indication = on_method (codes "locator_indication")
hmi_display disable_led_locator_indication = off_method (codes "locator_indication")
hmi_display (with_hmi_static_logo base64_logo) = rw_method (codes "hmi_static_logo") base64_logo
hmi_display (with_hmi_static_text1 line) =
    rw_method (codes "hmi_static_text_1") (encore_space_in_url line)
hmi_display (with_hmi_static_text2 line) =
    rw_method (codes "hmi_static_text_2") (encore_space_in_url line)
hmi_display (with_hmi_application_bitmap base64_bitmap) =
    rw_method (codes "hmi_application_bitmap") base64_bitmap
hmi_display (with_hmi_application_text1 line) =
    rw_method (codes "hmi_application_text_1") (encore_space_in_url line)
hmi_display (with_hmi_application_text2 line) =
    rw_method (codes "hmi_application_text_2") (encore_space_in_url line)

pub data LcmSensitivity : Type 0 where
  disabled low medium high : LcmSensitivity

abbrev pub lcm_sensitivity_to_string : LcmSensitivity → Text
lcm_sensitivity_to_string disabled = codes "disabled"
lcm_sensitivity_to_string low = codes "low"
lcm_sensitivity_to_string medium = codes "medium"
lcm_sensitivity_to_string high = codes "high"

-- The period is a number of milliseconds.
pub data LensContaminationMonitorCall : Type 0 where
  with_sensitivity : LcmSensitivity → LensContaminationMonitorCall
  with_detection_period : ℕ → LensContaminationMonitorCall
  with_lcm_enabled with_lcm_disabled : LensContaminationMonitorCall

unfoldable pub lens_contamination_monitor :
    LensContaminationMonitorCall → ParametersMap → ParametersMap
unfolding rw_method to_string
lens_contamination_monitor (with_sensitivity sensitivity) =
    rw_method (codes "lcm_detection_sensitivity") (lcm_sensitivity_to_string sensitivity)
lens_contamination_monitor (with_detection_period period) =
    rw_method (codes "lcm_detection_period") (to_string period)
lens_contamination_monitor with_lcm_enabled = on_method (codes "lcm_sector_enable")
lens_contamination_monitor with_lcm_disabled = off_method (codes "lcm_sector_enable")

module _ {Call : Type 0} (section : Call → ParametersMap → ParametersMap) where
  -- The map that a chain of calls builds.
  unfoldable pub build : List Call → ParametersMap → ParametersMap
  build [] parameters = parameters
  build (call ∷ calls) parameters = build calls (section call parameters)

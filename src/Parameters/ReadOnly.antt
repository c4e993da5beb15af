-- ===== src/Parameters/ReadOnly.antt =====
-- The read-only builders of include/Control/Parameters.hpp: each call puts the name of a parameter behind
-- those that have been asked for. A section's calls are a type, and one function says what each does.
use r.Base.{List, [], ◌∷◌, ◌++◌, Text, codes}

-- `parameters.push_back(PARAMETER_NAME)`, the body of ADD_RO_PARAMETER_BUILDER_METHOD.
unfoldable pub push_back : Text → List Text → List Text
push_back name parameters = parameters ++ name ∷ []

pub data BasicInformationCall : Type 0 where
  request_device_family request_vendor request_product request_part request_serial :
      BasicInformationCall
  request_firmware_revision request_hardware_revision with_user_tag with_user_notes :
      BasicInformationCall

unfoldable pub basic_information : BasicInformationCall → List Text → List Text
unfolding push_back
basic_information request_device_family = push_back (codes "device_family")
basic_information request_vendor = push_back (codes "vendor")
basic_information request_product = push_back (codes "product")
basic_information request_part = push_back (codes "part")
basic_information request_serial = push_back (codes "serial")
basic_information request_firmware_revision = push_back (codes "revision_fw")
basic_information request_hardware_revision = push_back (codes "revision_hw")
basic_information with_user_tag = push_back (codes "user_tag")
basic_information with_user_notes = push_back (codes "user_notes")

pub data CapabilitiesCall : Type 0 where
  request_feature_flags request_emitter_type request_radial_min_range : CapabilitiesCall
  request_radial_max_range request_radial_resolution request_angular_fov : CapabilitiesCall
  request_angular_resolution request_minimal_scan_frequency : CapabilitiesCall
  request_maximal_scan_frequency request_minimal_sampling_rate : CapabilitiesCall
  request_maximal_sampling_rate request_maximal_connections : CapabilitiesCall

unfoldable pub capabilities : CapabilitiesCall → List Text → List Text
unfolding push_back
capabilities request_feature_flags = push_back (codes "feature_flags")
capabilities request_emitter_type = push_back (codes "emitter_type")
capabilities request_radial_min_range = push_back (codes "radial_range_min")
capabilities request_radial_max_range = push_back (codes "radial_range_max")
capabilities request_radial_resolution = push_back (codes "radial_resolution")
capabilities request_angular_fov = push_back (codes "angular_fov")
capabilities request_angular_resolution = push_back (codes "sampling_rate_max")
capabilities request_minimal_scan_frequency = push_back (codes "scan_frequency_min")
capabilities request_maximal_scan_frequency = push_back (codes "scan_frequency_max")
capabilities request_minimal_sampling_rate = push_back (codes "sampling_rate_min")
capabilities request_maximal_sampling_rate = push_back (codes "angular_fov")
capabilities request_maximal_connections = push_back (codes "max_connections")

pub data EthernetCall : Type 0 where
  request_current_ip_mode request_current_ip_address request_current_subnet_mask : EthernetCall
  request_current_gateway request_mac_address with_ip_mode with_ip_address : EthernetCall
  with_subnet_mask with_gateway : EthernetCall

unfoldable pub ethernet : EthernetCall → List Text → List Text
unfolding push_back
ethernet request_current_ip_mode = push_back (codes "ip_mode_current")
ethernet request_current_ip_address = push_back (codes "ip_address_current")
ethernet request_current_subnet_mask = push_back (codes "subnet_mask_current")
ethernet request_current_gateway = push_back (codes "gateway_current")
ethernet request_mac_address = push_back (codes "mac_address")
ethernet with_ip_mode = push_back (codes "ip_mode")
ethernet with_ip_address = push_back (codes "ip_address")
ethernet with_subnet_mask = push_back (codes "subnet_mask")
ethernet with_gateway = push_back (codes "gateway")

pub data MeasuringCall : Type 0 where
  request_measured_frequency with_operating_mode with_scan_frequency with_scan_direction :
      MeasuringCall
  with_samples_per_scan : MeasuringCall

unfoldable pub measuring : MeasuringCall → List Text → List Text
unfolding push_back
measuring request_measured_frequency = push_back (codes "scan_frequency_measured")
measuring with_operating_mode = push_back (codes "operating_mode")
measuring with_scan_frequency = push_back (codes "scan_frequency")
measuring with_scan_direction = push_back (codes "scan_direction")
measuring with_samples_per_scan = push_back (codes "samples_per_scan")

pub data HmiDisplayCall : Type 0 where
  with_hmi_display_mode with_hmi_language with_lock_hmi_button with_lock_hmi_parameters :
      HmiDisplayCall
  with_led_locator_indication with_hmi_static_logo with_hmi_static_text1 : HmiDisplayCall
  with_hmi_static_text2 with_hmi_application_bitmap with_hmi_application_text1 : HmiDisplayCall
  with_hmi_application_text2 : HmiDisplayCall

unfoldable pub hmi_display : HmiDisplayCall → List Text → List Text
unfolding push_back
hmi_display with_hmi_display_mode = push_back (codes "hmi_display_mode")
hmi_display with_hmi_language = push_back (codes "hmi_language")
hmi_display with_lock_hmi_button = push_back (codes "hmi_button_lock")
hmi_display with_lock_hmi_parameters = push_back (codes "hmi_parameter_lock")
hmi_display with_led_locator_indication = push_back (codes "locator_indication")
hmi_display with_hmi_static_logo = push_back (codes "hmi_static_logo")
hmi_display with_hmi_static_text1 = push_back (codes "hmi_static_text_1")
hmi_display with_hmi_static_text2 = push_back (codes "hmi_static_text_2")
hmi_display with_hmi_application_bitmap = push_back (codes "hmi_application_bitmap")
hmi_display with_hmi_application_text1 = push_back (codes "hmi_application_text_1")
hmi_display with_hmi_application_text2 = push_back (codes "hmi_application_text_2")

pub data SystemStatusCall : Type 0 where
  request_status_flags request_load_indication request_system_time_raw request_up_time :
      SystemStatusCall
  request_power_cycles request_operation_time request_operation_time_scaled : SystemStatusCall
  request_current_temperature request_minimal_temperature request_maximal_temperature :
      SystemStatusCall

unfoldable pub system_status : SystemStatusCall → List Text → List Text
unfolding push_back
system_status request_status_flags = push_back (codes "status_flags")
system_status request_load_indication = push_back (codes "load_indication")
system_status request_system_time_raw = push_back (codes "system_time_raw")
system_status request_up_time = push_back (codes "up_time")
system_status request_power_cycles = push_back (codes "power_cycles")
system_status request_operation_time = push_back (codes "operation_time")
system_status request_operation_time_scaled = push_back (codes "operation_time_scaled")
system_status request_current_temperature = push_back (codes "temperature_current")
system_status request_minimal_temperature = push_back (codes "temperature_min")
system_status request_maximal_temperature = push_back (codes "temperature_max")

pub data LensContaminationMonitorCall : Type 0 where
  request_lcm_sector_warning_flag request_lcm_sector_error_flag with_sensitivity :
      LensContaminationMonitorCall
  with_detection_period with_lcm_state : LensContaminationMonitorCall

unfoldable pub lens_contamination_monitor : LensContaminationMonitorCall → List Text → List Text
unfolding push_back
lens_contamination_monitor request_lcm_sector_warning_flag =
    push_back (codes "lcm_sector_warn_flags")
lens_contamination_monitor request_lcm_sector_error_flag =
    push_back (codes "lcm_sector_error_flags")
lens_contamination_monitor with_sensitivity = push_back (codes "lcm_detection_sensitivity")
lens_contamination_monitor with_detection_period = push_back (codes "lcm_detection_period")
lens_contamination_monitor with_lcm_state = push_back (codes "lcm_sector_enable")

module _ {Call : Type 0} (section : Call → List Text → List Text) where
  -- The list that a chain of calls builds, in the order of the calls.
  unfoldable pub request : List Call → List Text → List Text
  request [] parameters = parameters
  request (call ∷ calls) parameters = request calls (section call parameters)

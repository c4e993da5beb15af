-- ===== src/Device.antt =====
-- R2000 (include/R2000.hpp, src/R2000.cpp): the results and answers of requests to the device. The
-- property tree of an answer is a parameter `T`: boost builds and reads it.
pub mod Results
pub mod Request
pub mod Http
pub mod Async
pub mod Service
pub mod Pipeline
pub mod Worker
use r.Wire.{ℤ, pos, negsuc}
use r.Base.{
  ◌&&◌, ℕ, Bool, true, false, not, Option, none, some, ◌≡◌, refl, if◌then◌else◌, ◌==◌, arith, Text,
  codes, same,
}

pub data RequestResult : Type 0 where
  success bad_request forbidden unknown_command timeout failed invalid_device_response :
      RequestResult

-- The underlying values of the enumeration.
unfoldable pub underlying_type : RequestResult → ℕ
underlying_type success = 200
underlying_type bad_request = 400
underlying_type forbidden = 403
underlying_type unknown_command = 404
underlying_type timeout = 408
underlying_type failed = 800
underlying_type invalid_device_response = 801

unfoldable pub request_result_from_code : ℕ → RequestResult
unfolding underlying_type
request_result_from_code code =
    if code == underlying_type success
    then success
    else if code == underlying_type bad_request
    then bad_request
    else if code == underlying_type forbidden
    then forbidden
    else if code == underlying_type unknown_command
    then unknown_command
    else if code == underlying_type timeout
    then timeout
    else if code == underlying_type invalid_device_response
    then invalid_device_response
    else failed

unfoldable pub request_result_to_string : RequestResult → Text
request_result_to_string success = codes "Success"
request_result_to_string failed = codes "Failed"
request_result_to_string timeout = codes "Timeout"
request_result_to_string bad_request = codes "Bad Request"
request_result_to_string forbidden = codes "Forbidden"
request_result_to_string unknown_command = codes "Not Found"
request_result_to_string invalid_device_response = codes "Invalid device response"

-- `==` of the enumeration.
unfoldable pub same_result : RequestResult → RequestResult → Bool
unfolding underlying_type
same_result a b = underlying_type a == underlying_type b

pub record DeviceAnswer (T : Type 0) : Type 0 where
  pub request_result : RequestResult
  pub property_tree : T

-- What boost does with property trees: the empty tree, the optional members `error_code` and
-- `error_text`, and the parser, which returns `none` where it throws.
pub record PropertyTrees (T : Type 0) : Type 0 where
  pub empty_tree : T
  pub error_code : T → Option ℤ
  pub error_text : T → Option Text
  pub read_json : Text → Option T

module _ {T : Type 0} (trees : PropertyTrees T) where
  unfoldable pub answer_of : RequestResult → DeviceAnswer T
  answer_of r = record { request_result = r; property_tree = trees.empty_tree }

  unfoldable pub verify_error_code : T → Bool
  unfolding same
  verify_error_code tree = is_zero (trees.error_code tree) (trees.error_text tree)
    where
      is_zero : Option ℤ → Option Text → Bool
      is_zero none text = false
      is_zero (some code) none = false
      is_zero (some (pos code)) (some text) = code == 0 && same text (codes "success")
      is_zero (some (negsuc code)) (some text) = false

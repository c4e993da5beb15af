-- ===== src/Device/Results.antt =====
-- The codes and texts of request results (include/R2000.hpp).
use r.Base.{ℕ, ◌≡◌, refl, sym, ap, ◌∙◌, ◌==◌, if◌then◌else◌, false, Text, codes, same}
use r.Device.{
  RequestResult, success, bad_request, forbidden, unknown_command, timeout, failed,
  invalid_device_response, underlying_type, request_result_from_code, request_result_to_string,
}

-- Every result is read back from its own code.
pub request_result_from_code-underlying_type :
    (r : RequestResult) → request_result_from_code (underlying_type r) ≡ r
unfolding request_result_from_code underlying_type
request_result_from_code-underlying_type success = refl
request_result_from_code-underlying_type bad_request = refl
request_result_from_code-underlying_type forbidden = refl
request_result_from_code-underlying_type unknown_command = refl
request_result_from_code-underlying_type timeout = refl
request_result_from_code-underlying_type failed = refl
request_result_from_code-underlying_type invalid_device_response = refl

-- A code that is none of the seven reads as FAILED.
pub request_result_from_code-other :
    (code : ℕ)
    → ((r : RequestResult) → (code == underlying_type r) ≡ false)
    → request_result_from_code code ≡ failed
unfolding request_result_from_code underlying_type
request_result_from_code-other code h =
    rw (
      h success,
      h bad_request,
      h forbidden,
      h unknown_command,
      h timeout,
      h invalid_device_response,
    )

named : Text → RequestResult
unfolding same
named t =
    if same t (codes "Success")
    then success
    else if same t (codes "Bad Request")
    then bad_request
    else if same t (codes "Forbidden")
    then forbidden
    else if same t (codes "Not Found")
    then unknown_command
    else if same t (codes "Timeout")
    then timeout
    else if same t (codes "Failed")
    then failed
    else invalid_device_response

named-request_result_to_string : (r : RequestResult) → named (request_result_to_string r) ≡ r
unfolding named request_result_to_string
named-request_result_to_string success = refl
named-request_result_to_string bad_request = refl
named-request_result_to_string forbidden = refl
named-request_result_to_string unknown_command = refl
named-request_result_to_string timeout = refl
named-request_result_to_string failed = refl
named-request_result_to_string invalid_device_response = refl

-- Two results with the same text are the same result.
pub request_result_to_string_inj :
    (a b : RequestResult) → request_result_to_string a ≡ request_result_to_string b → a ≡ b
request_result_to_string_inj a b h =
    sym (named-request_result_to_string a) ∙ ap named h ∙ named-request_result_to_string b

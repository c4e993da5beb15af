-- ===== src/Tests/Controls.antt =====
-- The theorems about commands and the builder of data links at concrete inputs.
use r.Base.{
  ℕ, ◌≡◌, refl, Bool, true, not, ◌&&◌, [], ◌∷◌, done, some, none, Option, threw, Text, codes,
  ParametersMap, lookup, same, ptree_bad_path, if◌then◌else◌, ◌==◌, arith, out_of_range,
}
use r.Base.Numerals.{stoi, skip_spaces, digits}
use r.Wire.{pos}
use r.Device.{success, failed, DeviceAnswer, same_result}
use r.Device.Request.Reading.{Avoids}
use r.Commands.{Device}
use r.Commands.Trees.{TreeReads}
use r.Commands.Protocol.{unknown, get_protocol_version, get_protocol_version-unknown}
use r.Commands.Handles.{ThrowingReads}
use r.Builder.{
  construct_data_link, async_construct_data_link, tcp_builder, extract_watchdog_parameters,
  BuildResult, tcp_link,
}
use r.Builder.Results.{IsConsistent, construct_data_link-IsConsistent, construct_data_link-no_port}

-- A stand-in for property trees: a map.
abbrev reads : TreeReads ParametersMap
unfolding lookup
reads = record {
  get_optional = λ name tree. lookup name tree;
  get_children = λ name tree. some (codes "list_parameters" ∷ []);
}

abbrev tree : ParametersMap
tree =
    (codes "protocol_name", codes "pfsdp")
    ∷ (codes "version_major", codes "1")
    ∷ (codes "version_minor", codes "3")
    ∷ []

abbrev answer : DeviceAnswer ParametersMap
answer = record { request_result = success; property_tree = tree }

abbrev device : Device ParametersMap
device = record { send = λ command ps. done answer; submit = λ command ps. some answer }

abbrev avoids : ℕ → Text → Bool
avoids c [] = true
avoids c (d ∷ t) = not (d == c) && avoids c t

avoids-Avoids : (c : ℕ) (t : Text) → avoids c t ≡ true → Avoids c t
avoids-Avoids c [] h = tt
avoids-Avoids c (d ∷ t) h = (ground arith, avoids-Avoids c t (ground arith))

get_protocol_version-unknown_example :
    get_protocol_version reads device
    ≡ (if same_result success success then done (success, unknown) else threw out_of_range)
get_protocol_version-unknown_example = get_protocol_version-unknown reads device answer refl

abbrev throwing : ThrowingReads ParametersMap
throwing = record {
  get_int = λ name tree. threw ptree_bad_path;
  get_text = λ name tree. done (codes "s10");
  own_children = λ tree. [];
}

abbrev handle_parameters : ParametersMap
handle_parameters = (codes "watchdog", codes "on") ∷ (codes "watchdogtimeout", codes "5000") ∷ []

watchdog_parameters : extract_watchdog_parameters handle_parameters ≡ done (true, pos 5000)
unfolding extract_watchdog_parameters lookup same stoi skip_spaces digits
watchdog_parameters = refl

abbrev address_of : Text → Option Text
address_of t = some t

construct_data_link-no_port_example :
    (construct_data_link throwing device
        (codes "10.0.0.1")
        address_of
        (tcp_builder handle_parameters)
      ≡ threw ptree_bad_path)
    × (async_construct_data_link throwing device
          (codes "10.0.0.1")
          address_of
          (tcp_builder handle_parameters)
        ≡ done (failed, none))
construct_data_link-no_port_example =
    construct_data_link-no_port throwing device (codes "10.0.0.1") address_of handle_parameters
      (true, pos 5000) answer ptree_bad_path watchdog_parameters refl refl refl refl

abbrev working : ThrowingReads ParametersMap
working = record {
  get_int = λ name tree. done (pos 9000);
  get_text = λ name tree. done (codes "s10");
  own_children = λ tree. [];
}

abbrev built : BuildResult
built = (
  success,
  some (
      tcp_link (record {
        value = codes "s10";
        watchdog_enabled = true;
        watchdog_timeout = pos 5000;
        port = 9000;
        ipv4_address = codes "10.0.0.1";
      })),
)

tcp_built :
    construct_data_link working device (codes "10.0.0.1") address_of (tcp_builder handle_parameters)
    ≡ done built
unfolding construct_data_link tcp_builder
tcp_built = refl

async_tcp_built :
    async_construct_data_link working device
      (codes "10.0.0.1")
      address_of
      (tcp_builder handle_parameters)
    ≡ done built
unfolding async_construct_data_link tcp_builder
async_tcp_built = refl

construct_data_link-IsConsistent_example : IsConsistent built
construct_data_link-IsConsistent_example =
    construct_data_link-IsConsistent working device (codes "10.0.0.1") address_of
      (tcp_builder handle_parameters) built tcp_built

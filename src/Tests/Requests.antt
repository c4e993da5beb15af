-- ===== src/Tests/Requests.antt =====
-- The theorems about requests to the device, its worker and its status at concrete inputs.
use r.Base.{
  ℕ, ◌≡◌, refl, arith, Bool, true, false, not, ◌&&◌, List, [], ◌∷◌, ◌++◌, map, some, none, Option,
  Text, codes, ParametersMap, if◌then◌else◌, ◌==◌,
}
use r.Wire.{ℤ, pos}
use r.Device.{failed, PropertyTrees, answer_of}
use r.Device.Request.{make_request}
use r.Device.Request.Reading.{Avoids, read_request, read_request-make_request}
use r.Device.Http.{Exchange, content_of}
use r.Device.Http.Content.{content_of-concat, without_line_feeds, concat}
use r.Device.Worker.{Worker, push, round, stop, run, accepted}
use r.Device.Worker.Order.{run-accepted}
use r.Device.Async as Asynchronous
use r.Device.Async.Answers.{IsSettled, run-IsSettled}

-- A stand-in for property trees: the text itself, whose first character is the error code.
abbrev code_of : Text → Option ℤ
code_of [] = none
code_of (c ∷ t) = some (pos c)

abbrev trees : PropertyTrees Text
trees = record {
  empty_tree = [];
  error_code = code_of;
  error_text = λ t. some (codes "success");
  read_json = λ t. some t;
}

abbrev exchange : Exchange
exchange = record {
  writes = true;
  status_bytes = some (codes "HTTP/1.0 200 OK\n");
  header_bytes = some (codes "Content-Type: text/plain\n" ++ 13 ∷ 10 ∷ codes "{}");
  chunks = codes "a\n" ∷ codes "b" ∷ [];
  ends_in_eof = true;
}

abbrev avoids : ℕ → Text → Bool
avoids c [] = true
avoids c (d ∷ t) = not (d == c) && avoids c t

avoids-Avoids : (c : ℕ) (t : Text) → avoids c t ≡ true → Avoids c t
avoids-Avoids c [] h = tt
avoids-Avoids c (d ∷ t) h = (ground arith, avoids-Avoids c t (ground arith))

abbrev tags : ParametersMap
tags = (codes "user_tag", codes "a=b") ∷ (codes "ip_mode", codes "dhcp") ∷ []

read_request-make_request_example :
    read_request (make_request (codes "set_parameter") tags) ≡ (codes "set_parameter", tags)
read_request-make_request_example =
    read_request-make_request (codes "set_parameter") tags
      (avoids-Avoids b'?' (codes "set_parameter") refl)
      (avoids-Avoids b'&' (codes "set_parameter") refl)
      (
        (
          avoids-Avoids b'=' (codes "user_tag") refl,
          avoids-Avoids b'&' (codes "user_tag") refl,
          avoids-Avoids b'&' (codes "a=b") refl,
        ),
        (
          (
            avoids-Avoids b'=' (codes "ip_mode") refl,
            avoids-Avoids b'&' (codes "ip_mode") refl,
            avoids-Avoids b'&' (codes "dhcp") refl,
          ),
          tt,
        ),
      )

content_of-concat_example :
    content_of (codes "{}") (codes "a\n" ∷ codes "b" ∷ [])
    ≡ map
        (λ c. if c == 13 then b' ' else c)
        (without_line_feeds (codes "{}" ++ concat (codes "a\n" ∷ codes "b" ∷ [])))
content_of-concat_example = content_of-concat (codes "{}") (codes "a\n" ∷ codes "b" ∷ [])

abbrev idle : Worker
idle = record { jobs = 1 ∷ []; interrupt_flag = false; max_job = 2; ran = [] }

run-accepted_example :
    (rest : List ℕ) × ((run (push 2 ∷ round ∷ push 3 ∷ push 4 ∷ stop ∷ push 5 ∷ []) idle).ran
        ++ rest
      ≡ idle.ran
        ++ idle.jobs
        ++ accepted (push 2 ∷ round ∷ push 3 ∷ push 4 ∷ stop ∷ push 5 ∷ []) idle)
run-accepted_example = run-accepted (push 2 ∷ round ∷ push 3 ∷ push 4 ∷ stop ∷ push 5 ∷ []) idle

abbrev requests : Asynchronous.Requests Text
requests = record { device_endpoints = none; pending = []; answers = [] }

-- Command 5 is resolved and connected, command 6 is aborted while it is connecting.
abbrev events : List Asynchronous.Event
events =
    Asynchronous.job 5
    ∷ Asynchronous.completes 0 Asynchronous.no_error (1 ∷ []) exchange
    ∷ Asynchronous.job 6
    ∷ Asynchronous.completes 1 Asynchronous.operation_aborted [] exchange
    ∷ Asynchronous.completes 0 Asynchronous.no_error [] exchange
    ∷ []

-- What a resolution that failed leaves.
abbrev poisoned : Asynchronous.Requests Text
poisoned = record {
  device_endpoints = some [];
  pending = Asynchronous.connecting 4 [] ∷ [];
  answers = (3, answer_of trees failed) ∷ [];
}

run-IsSettled_example : IsSettled [] (
    Asynchronous.run trees
      (Asynchronous.job 5 ∷ Asynchronous.completes 0 Asynchronous.other_error [] exchange ∷ [])
      poisoned)
run-IsSettled_example =
    run-IsSettled trees []
      (Asynchronous.job 5 ∷ Asynchronous.completes 0 Asynchronous.other_error [] exchange ∷ [])
      poisoned (refl, (refl, tt))

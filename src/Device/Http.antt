-- ===== src/Device/Http.antt =====
-- `R2000::HttpGet` (src/R2000.cpp): a GET request over a connected socket, with what the socket does as
-- a parameter. `std::getline` and `>>` are written out over the bytes of the stream that are left.
pub mod Content
use r.Base.Numerals.{is_space, skip_spaces, digits}
use r.Base.{
  ℕ, ◌+◌, ◌*◌, ◌-◌, ◌%◌, ◌^◌, ◌≡◌, Bool, true, false, not, ◌&&◌, ◌||◌, List, [], ◌∷◌, ◌++◌, map,
  Option, none, some, ◌==◌, ltb, leb, if◌then◌else◌, Text, codes, same, Outcome, done, fault, threw,
  or_throw, json_parser_error, system_error,
}
use r.Device.{
  RequestResult, success, failed, invalid_device_response, request_result_from_code, same_result,
  DeviceAnswer, PropertyTrees, answer_of, verify_error_code,
}

-- How the socket's part of the exchange goes: whether the request is written, the bytes that are there
-- when the status line and then the headers have been read, and the chunks behind them with whether
-- the last read ended with `eof`.
pub record Exchange : Type 0 where
  pub writes : Bool
  pub status_bytes : Option Text
  pub header_bytes : Option Text
  pub chunks : List Text
  pub ends_in_eof : Bool

-- The bytes before the first line feed, and those behind it.
unfoldable pub line_of : Text → Text × Text
line_of [] = ([], [])
line_of (c ∷ t) = let rest = line_of t in if c == 10 then ([], t) else (c ∷ rest.0, rest.1)

-- `std::getline`: where nothing is left it fails.
unfoldable pub getline : Text → Option (Text × Text)
unfolding line_of
getline [] = none
getline (c ∷ t) = some (line_of (c ∷ t))

-- `>>` into a string: the characters before the next space.
word : Text → Text × Text
word [] = ([], [])
word (c ∷ t) = let rest = word t in if is_space c then ([], c ∷ t) else (c ∷ rest.0, rest.1)

-- `>>` into an `int`, as the unsigned number it is converted to; `none` where it fails.
signed_number : Text → Option ℕ × Text
unfolding digits
signed_number [] = (none, [])
signed_number (c ∷ t) =
    let negative = digits none t in
    let plain = digits none (c ∷ t) in
    if c == b'-'
    then (bounded true negative.0, negative.1)
    else if c == b'+'
    then (bounded false negative.0, negative.1)
    else (bounded false plain.0, plain.1)
  where
    bounded : Bool → Option ℕ → Option ℕ
    bounded minus none = none
    bounded true (some n) = if leb n (2 ^ 31) then some ((2 ^ 32 - n) % 2 ^ 32) else none
    bounded false (some n) = if ltb n (2 ^ 31) then some n else none

pub record StatusLine : Type 0 where
  pub http_version : Text
  pub status_code : ℕ
  pub rest : Text

starts_with : Text → Text → Bool
starts_with [] t = true
starts_with (c ∷ s) [] = false
starts_with (c ∷ s) (d ∷ t) = c == d && starts_with s t

-- The status line; `none` where the stream has failed or the version is not one of HTTP.
unfoldable pub status_line : Text → Option StatusLine
unfolding skip_spaces word signed_number getline starts_with
status_line bytes =
    let version = word (skip_spaces bytes) in
    let number = signed_number (skip_spaces version.1) in
    checked version.0 number.0 (getline number.1)
  where
    checked : Text → Option ℕ → Option (Text × Text) → Option StatusLine
    checked version none message = none
    checked version (some code) none = none
    checked version (some code) (some (message, rest)) =
        if starts_with (codes "HTTP/") version
        then some (record { http_version = version; status_code = code; rest = rest })
        else none

-- `while (std::getline(responseStream, line) && line != "\r")`: what is left behind the headers. The
-- fuel is the number of bytes: a line takes one at least.
unfoldable pub skip_headers : List ℕ → Text → Text
unfolding getline same
skip_headers [] bytes = bytes
skip_headers (f ∷ fuel) bytes = elim (getline bytes) [
  | none ↦ []
  | some (line, rest) ↦ elim (same line (13 ∷ [])) [ true ↦ rest | false ↦ skip_headers fuel rest ]
]

-- `while (std::getline(responseStream, line)) content += line;`
unfoldable pub read_lines : List ℕ → Text → Text
unfolding getline
read_lines [] bytes = []
read_lines (f ∷ fuel) bytes = elim (getline bytes) [
  | none ↦ []
  | some (line, rest) ↦ line ++ read_lines fuel rest
]

unfoldable pub read_chunks : List Text → Text
unfolding read_lines
read_chunks [] = []
read_chunks (chunk ∷ chunks) = read_lines chunk chunk ++ read_chunks chunks

-- The text of a reply behind its headers, with each carriage return replaced by a space.
unfoldable pub content_of : Text → List Text → Text
unfolding read_lines read_chunks
content_of body chunks =
    map (λ c. if c == 13 then b' ' else c) (read_lines body body ++ read_chunks chunks)

-- `HttpGet(requestPath)`: whether each endpoint in turn lets itself be connected to. The resolver
-- throws a `system_error` where it fails.
unfoldable pub connects : List Bool → Bool
connects [] = false
connects (accepted ∷ endpoints) = if accepted then true else connects endpoints

module _ {T : Type 0} (trees : PropertyTrees T) where
  -- The end of `HttpGet`, from the status code on.
  unfoldable pub answer_from : ℕ → Text → Outcome (DeviceAnswer T)
  unfolding request_result_from_code answer_of verify_error_code same_result
  answer_from status_code content =
      let response_code = request_result_from_code status_code in
      if not (same_result response_code success)
      then done (answer_of trees response_code)
      else elim (trees.read_json content) [
        | none ↦ threw json_parser_error
        | some tree ↦
            if not (verify_error_code trees tree)
            then done (answer_of trees response_code)
            else done (record { request_result = response_code; property_tree = tree })
      ]

  unfoldable pub after_headers : StatusLine → Exchange → Outcome (DeviceAnswer T)
  unfolding answer_of skip_headers content_of answer_from
  after_headers line x = elim x.header_bytes [
    | none ↦ done (answer_of trees failed)
    | some more ↦
        let bytes = line.rest ++ more in
        if not x.ends_in_eof
        then done (answer_of trees failed)
        else answer_from line.status_code (content_of (skip_headers bytes bytes) x.chunks)
  ]

  unfoldable pub http_get : Exchange → Outcome (DeviceAnswer T)
  unfolding answer_of status_line after_headers
  http_get x = if not x.writes then done (answer_of trees failed) else elim x.status_bytes [
    | none ↦ done (answer_of trees failed)
    | some bytes ↦ elim (status_line bytes) [
      | none ↦ done (answer_of trees invalid_device_response)
      | some line ↦ after_headers line x
    ]
  ]

  unfoldable pub http_get_endpoints : Option (List Bool) → Exchange → Outcome (DeviceAnswer T)
  unfolding connects http_get answer_of
  http_get_endpoints none x = threw system_error
  http_get_endpoints (some endpoints) x =
      if connects endpoints then http_get x else done (answer_of trees failed)

  -- `catch (const std::system_error &error)`
  unfoldable pub caught : Outcome (DeviceAnswer T) → Outcome (DeviceAnswer T)
  unfolding answer_of
  caught (done answer) = done answer
  caught fault = fault
  caught (threw system_error) = done (answer_of trees failed)
  caught (threw e) = threw e

  unfoldable pub send_http_command : Option (List Bool) → Exchange → Outcome (DeviceAnswer T)
  unfolding http_get_endpoints caught
  send_http_command endpoints x = caught (http_get_endpoints endpoints x)

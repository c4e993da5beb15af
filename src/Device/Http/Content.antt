-- ===== src/Device/Http/Content.antt =====
-- The content that `HttpGet` assembles (src/R2000.cpp), and how a request ends.
use r.Base.{
  ℕ, ◌≡◌, refl, sym, ◌∙◌, ap, Bool, true, false, Bool-cases, inl, inr, ◌⊎◌, List, [], ◌∷◌, ◌++◌,
  map, length, ◌≤◌, Option, none, some, ◌==◌, if◌then◌else◌, arith, Text, Option-cases, Outcome,
  done, threw, json_parser_error,
}
use r.Device.{
  RequestResult, success, bad_request, forbidden, unknown_command, timeout, underlying_type, failed,
  invalid_device_response, request_result_from_code, same_result, DeviceAnswer, PropertyTrees,
  answer_of, verify_error_code,
}
use r.Device.Http.{
  Exchange, line_of, getline, read_lines, read_chunks, content_of, StatusLine, status_line,
  skip_headers, answer_from, after_headers, http_get, connects, http_get_endpoints, caught,
  send_http_command,
}

-- A text without its line feeds.
abbrev pub without_line_feeds : Text → Text
without_line_feeds [] = []
without_line_feeds (c ∷ t) = let rest = without_line_feeds t in if c == 10 then rest else c ∷ rest

abbrev pub concat : List Text → Text
concat [] = []
concat (t ∷ ts) = t ++ concat ts

without_line_feeds-append :
    (s t : Text) → without_line_feeds (s ++ t) ≡ without_line_feeds s ++ without_line_feeds t
without_line_feeds-append [] t = refl
without_line_feeds-append (c ∷ s) t = elim (Bool-cases (c == 10)) [
  | inl e ↦ rw e (without_line_feeds-append s t)
  | inr e ↦ rw e (ap (λ x. c ∷ x) (without_line_feeds-append s t))
]

line_of-without_line_feeds :
    (t : Text) → without_line_feeds t ≡ (line_of t).0 ++ without_line_feeds (line_of t).1
unfolding line_of
line_of-without_line_feeds [] = refl
line_of-without_line_feeds (c ∷ t) = elim (Bool-cases (c == 10)) [
  | inl e ↦ rw e
  | inr e ↦ rw e (ap (λ x. c ∷ x) (line_of-without_line_feeds t))
]

line_of-length : (c : ℕ) (t : Text) → length (line_of (c ∷ t)).1 ≤ length t
unfolding line_of
line_of-length c [] = elim (Bool-cases (c == 10)) [
  | inl e ↦ rw e (omega arith)
  | inr e ↦ rw e (omega arith)
]
line_of-length c (d ∷ t) = elim (Bool-cases (c == 10)) [
  | inl e ↦ rw e (omega arith)
  | inr e ↦ rw e (let shorter = line_of-length d t in omega arith)
]

read_lines-without_line_feeds :
    (fuel t : Text) → length t ≤ length fuel → read_lines fuel t ≡ without_line_feeds t
unfolding read_lines getline
read_lines-without_line_feeds [] [] h = refl
read_lines-without_line_feeds [] (c ∷ t) h = absurd (omega arith)
read_lines-without_line_feeds (f ∷ fuel) [] h = refl
read_lines-without_line_feeds (f ∷ fuel) (c ∷ t) h =
    let shorter = line_of-length c t in
    rw (read_lines-without_line_feeds fuel (line_of (c ∷ t)).1 (omega arith))
      (sym (line_of-without_line_feeds (c ∷ t)))

read_chunks-without_line_feeds :
    (chunks : List Text) → read_chunks chunks ≡ without_line_feeds (concat chunks)
unfolding read_chunks
read_chunks-without_line_feeds [] = refl
read_chunks-without_line_feeds (t ∷ ts) = rw (
  read_lines-without_line_feeds t t (omega arith),
  read_chunks-without_line_feeds ts,
  without_line_feeds-append t (concat ts),
)

-- The content is the body without its line feeds and with a space for each carriage return, wherever
-- the network has split the body into chunks.
pub content_of-concat :
    (body : Text) (chunks : List Text)
    → content_of body chunks
      ≡ map (λ c. if c == 13 then b' ' else c) (without_line_feeds (body ++ concat chunks))
unfolding content_of
content_of-concat body chunks = rw (
  read_lines-without_line_feeds body body (omega arith),
  read_chunks-without_line_feeds chunks,
  without_line_feeds-append body (concat chunks),
)

-- The transfer of the whole reply has succeeded up to its end, and this is its status line.
pub record IsReply (x : Exchange) (line : StatusLine) : Type 0 where
  pub bytes : Text
  pub more : Text
  pub writes : x.writes ≡ true
  pub status : x.status_bytes ≡ some bytes
  pub status_line_lem : status_line bytes ≡ some line
  pub headers : x.header_bytes ≡ some more
  pub ends_in_eof : x.ends_in_eof ≡ true
  -- The text behind the headers, in one piece, without its line feeds.
  pub content : Text
  pub content_lem :
      content
      ≡ map
          (λ c. if c == 13 then b' ' else c)
          (without_line_feeds
            (skip_headers (line.rest ++ more) (line.rest ++ more) ++ concat x.chunks))

-- A transfer has failed: of the request, of the status line, of the headers or of what follows them.
pub data IsCut (x : Exchange) : Type 0 where
  no_request : x.writes ≡ false → IsCut x
  no_status : x.status_bytes ≡ none → IsCut x
  no_headers :
      (bytes : Text) (line : StatusLine)
      → x.status_bytes ≡ some bytes
      → status_line bytes ≡ some line
      → x.header_bytes ≡ none
      → IsCut x
  no_end :
      (bytes more : Text) (line : StatusLine)
      → x.status_bytes ≡ some bytes
      → status_line bytes ≡ some line
      → x.header_bytes ≡ some more
      → x.ends_in_eof ≡ false
      → IsCut x

abbrev pub is_ok : StatusLine → Bool
is_ok line = same_result (request_result_from_code line.status_code) success

-- How a request to the device ends.
pub data Ends {T : Type 0} (trees : PropertyTrees T) (x : Exchange) (r : Outcome (DeviceAnswer T))
    : Type 0 where
  network_failure : IsCut x → r ≡ done (answer_of trees failed) → Ends trees x r
  not_http :
      (bytes : Text)
      → x.writes ≡ true
      → x.status_bytes ≡ some bytes
      → status_line bytes ≡ none
      → r ≡ done (answer_of trees invalid_device_response)
      → Ends trees x r
  refused :
      (line : StatusLine)
      → IsReply x line
      → is_ok line ≡ false
      → r ≡ done (answer_of trees (request_result_from_code line.status_code))
      → Ends trees x r
  not_json :
      (line : StatusLine) (reply : IsReply x line)
      → is_ok line ≡ true
      → trees.read_json reply.content ≡ none
      → r ≡ threw json_parser_error
      → Ends trees x r
  device_error :
      (line : StatusLine) (reply : IsReply x line) (tree : T)
      → is_ok line ≡ true
      → trees.read_json reply.content ≡ some tree
      → verify_error_code trees tree ≡ false
      → r ≡ done (answer_of trees success)
      → Ends trees x r
  answered :
      (line : StatusLine) (reply : IsReply x line) (tree : T)
      → is_ok line ≡ true
      → trees.read_json reply.content ≡ some tree
      → verify_error_code trees tree ≡ true
      → r ≡ done (record { request_result = success; property_tree = tree })
      → Ends trees x r

module _ {T : Type 0} (trees : PropertyTrees T) where
  same_result→eq : (r : RequestResult) → same_result r success ≡ true → r ≡ success
  unfolding same_result underlying_type
  same_result→eq success h = refl
  same_result→eq bad_request h = cc
  same_result→eq forbidden h = cc
  same_result→eq unknown_command h = cc
  same_result→eq timeout h = cc
  same_result→eq failed h = cc
  same_result→eq invalid_device_response h = cc

  answer_from-Ends :
      (x : Exchange) (line : StatusLine) (reply : IsReply x line) (r : Outcome (DeviceAnswer T))
      → r ≡ answer_from trees line.status_code reply.content
      → Ends trees x r
  unfolding answer_from
  answer_from-Ends x line reply r e =
      let result = request_result_from_code line.status_code in
      elim (Bool-cases (same_result result success)) [
        | inr other ↦ refused line reply other (e ∙ rw other)
        | inl ok ↦ elim (Option-cases (trees.read_json reply.content)) [
          | inl bad ↦ not_json line reply ok bad (e ∙ rw (ok, bad))
          | inr (tree, parsed) ↦ elim (Bool-cases (verify_error_code trees tree)) [
            | inl fine ↦
                answered line reply tree ok parsed fine
                  (e ∙ rw (ok, parsed, fine, same_result→eq result ok))
            | inr error ↦
                device_error line reply tree ok parsed error
                  (e ∙ rw (ok, parsed, error, same_result→eq result ok))
          ]
        ]
      ]

  pub http_get-Ends : (x : Exchange) → Ends trees x (http_get trees x)
  unfolding http_get after_headers
  http_get-Ends x = elim (Bool-cases x.writes) [
    | inr e ↦ network_failure (no_request e) (rw e)
    | inl e ↦ elim (Option-cases x.status_bytes) [
      | inl none_read ↦ network_failure (no_status none_read) (rw (e, none_read))
      | inr (bytes, read) ↦ elim (Option-cases (status_line bytes)) [
        | inl bad ↦ not_http bytes e read bad (rw (e, read, bad))
        | inr (line, good) ↦ elim (Option-cases x.header_bytes) [
          | inl cut ↦
              network_failure (no_headers bytes line read good cut) (rw (e, read, good, cut))
          | inr (more, whole) ↦ elim (Bool-cases x.ends_in_eof) [
            | inl eof ↦
                let body = skip_headers (line.rest ++ more) (line.rest ++ more) in
                answer_from-Ends x line
                  (record {
                    bytes = bytes;
                    more = more;
                    writes = e;
                    status = read;
                    status_line_lem = good;
                    headers = whole;
                    ends_in_eof = eof;
                    content = content_of body x.chunks;
                    content_lem = content_of-concat body x.chunks;
                  })
                  (http_get trees x) (rw (e, read, good, whole, eof))
            | inr aborted ↦
                network_failure (no_end bytes more line read good whole aborted)
                  (rw (e, read, good, whole, aborted))
          ]
        ]
      ]
    ]
  ]

  Ends-outcome :
      (x : Exchange) (r : Outcome (DeviceAnswer T))
      → Ends trees x r
      → ((answer : DeviceAnswer T) × (r ≡ done answer)) ⊎ (r ≡ threw json_parser_error)
  Ends-outcome x r (network_failure cut e) = inl (_, e)
  Ends-outcome x r (not_http bytes writes read bad e) = inl (_, e)
  Ends-outcome x r (refused line reply other e) = inl (_, e)
  Ends-outcome x r (not_json line reply ok bad e) = inr e
  Ends-outcome x r (device_error line reply tree ok parsed error e) = inl (_, e)
  Ends-outcome x r (answered line reply tree ok parsed fine e) = inl (_, e)

  -- `sendHttpCommand` answers, or throws the exception of the JSON parser: an error of the resolver
  -- ends in an answer as well.
  pub send_http_command-answers :
      (endpoints : Option (List Bool)) (x : Exchange)
      → ((answer : DeviceAnswer T) × (send_http_command trees endpoints x ≡ done answer))
        ⊎ (send_http_command trees endpoints x ≡ threw json_parser_error)
  unfolding send_http_command http_get_endpoints caught
  send_http_command-answers none x = inl (_, refl)
  send_http_command-answers (some endpoints) x = elim (Bool-cases (connects endpoints)) [
    | inr refused_by_all ↦ inl (answer_of trees failed, rw refused_by_all)
    | inl accepted ↦ elim (Ends-outcome x (http_get trees x) (http_get-Ends x)) [
      | inl (answer, e) ↦ inl (answer, rw (accepted, e))
      | inr e ↦ inr (rw (accepted, e))
    ]
  ]

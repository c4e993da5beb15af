-- ===== src/Builder/Results.antt =====
-- What the DataLinkBuilder yields (src/DataLink/DataLinkBuilder.cpp).
use r.Base.{
  ◌≡◌, refl, ap, Bool, true, false, Bool-cases, inl, inr, Option, none, some, done, threw,
  Exception, Text, codes, ParametersMap, lookup, >>=-eq-done, subst, assign,
}
use r.Device.{RequestResult, success, failed, underlying_type, same_result, DeviceAnswer}
use r.Commands.{Device}
use r.Commands.Trees.{is_success}
use r.Commands.Handles.{
  ThrowingReads, HandleInfo, request_tcp_handle, request_udp_handle, async_request_tcp_handle,
  async_request_udp_handle, tcp_result, extract_tcp_handle,
}
use r.Builder.{
  Protocol, tcp, udp, Requirements, get, put, cast_protocol, cast_tcp_handle, tcp_builder, Watchdog,
  extract_watchdog_parameters, extract_tcp_parameters, extract_udp_parameters, UdpParameters,
  BuildResult, built_tcp, built_udp, construct, async_construct, construct_data_link,
  async_construct_data_link, or_failed, map,
}

done-inj {ℓ} : {A : Type ℓ} {a b : A} → done a ≡ done b → a ≡ b
done-inj h = cc

abbrev pub is_some {ℓ} : {A : Type ℓ} → Option A → Bool
is_some none = false
is_some (some a) = true

-- A link comes with SUCCESS, and with no other result.
abbrev pub IsConsistent : BuildResult → Type 0
IsConsistent r = same_result r.0 success ≡ is_some r.1

built_tcp-IsConsistent :
    (hostname : Text) (watchdog : Watchdog) (result : RequestResult × HandleInfo)
    → IsConsistent (built_tcp hostname watchdog result)
unfolding built_tcp same_result
built_tcp-IsConsistent hostname watchdog result = elim (Bool-cases (same_result result.0 success)) [
  | inl ok ↦ rw ok refl
  | inr bad ↦ rw bad bad
]

built_udp-IsConsistent :
    (u : UdpParameters) (result : RequestResult × Text) → IsConsistent (built_udp u result)
unfolding built_udp same_result
built_udp-IsConsistent u result = elim (Bool-cases (same_result result.0 success)) [
  | inl ok ↦ rw ok refl
  | inr bad ↦ rw bad bad
]

module _ {T : Type 0} (reads : ThrowingReads T) (device : Device T) (hostname : Text)
    (from_string : Text → Option Text) (requirements : Requirements) where
  construct-IsConsistent :
      (p : Protocol) (r : BuildResult)
      → construct reads device hostname from_string requirements p ≡ done r
      → IsConsistent r
  unfolding construct
  construct-IsConsistent tcp r e =
      let (parameters, extracted, rest) = >>=-eq-done (extract_tcp_parameters requirements) _ e in
      let (result, answered, last) =
        >>=-eq-done (request_tcp_handle reads device parameters.0) _ rest in
      subst IsConsistent (done-inj last) (built_tcp-IsConsistent hostname parameters.1 result)
  construct-IsConsistent udp r e =
      let (u, extracted, rest) =
        >>=-eq-done (extract_udp_parameters from_string requirements) _ e in
      let (result, answered, last) =
        >>=-eq-done (request_udp_handle reads device u.builder) _ rest in
      subst IsConsistent (done-inj last) (built_udp-IsConsistent u result)

  -- Where the blocking construction returns, it returns a link exactly with the result SUCCESS,
  -- whatever the builder holds and the device answers.
  pub construct_data_link-IsConsistent :
      (r : BuildResult)
      → construct_data_link reads device hostname from_string requirements ≡ done r
      → IsConsistent r
  unfolding construct_data_link
  construct_data_link-IsConsistent r e =
      let (p, cast, built) =
        >>=-eq-done (cast_protocol (get (codes "protocol") requirements))
          (construct reads device hostname from_string requirements) e in
      construct-IsConsistent p r built

  or_failed-IsConsistent :
      {R : Type 0} (f : R → BuildResult) (o : Option R)
      → ((x : R) → IsConsistent (f x))
      → IsConsistent (or_failed (map f o))
  unfolding same_result
  or_failed-IsConsistent f none h = refl
  or_failed-IsConsistent f (some x) h = h x

  async_construct-IsConsistent :
      (p : Protocol) (r : BuildResult)
      → async_construct reads device hostname from_string requirements p ≡ done r
      → IsConsistent r
  unfolding async_construct
  async_construct-IsConsistent tcp r e =
      let (parameters, extracted, last) = >>=-eq-done (extract_tcp_parameters requirements) _ e in
      subst IsConsistent (done-inj last) (
        or_failed-IsConsistent (built_tcp hostname parameters.1)
          (async_request_tcp_handle reads device parameters.0)
          (built_tcp-IsConsistent hostname parameters.1))
  async_construct-IsConsistent udp r e =
      let (u, extracted, last) =
        >>=-eq-done (extract_udp_parameters from_string requirements) _ e in
      subst IsConsistent (done-inj last) (
        or_failed-IsConsistent (built_udp u) (async_request_udp_handle reads device u.builder)
          (built_udp-IsConsistent u))

  -- What the future of an asynchronous construction holds in the end has a link exactly with the result
  -- SUCCESS as well, also where the command could not be launched.
  pub async_construct_data_link-IsConsistent :
      (r : BuildResult)
      → async_construct_data_link reads device hostname from_string requirements ≡ done r
      → IsConsistent r
  unfolding async_construct_data_link
  async_construct_data_link-IsConsistent r e =
      let (p, cast, built) =
        >>=-eq-done (cast_protocol (get (codes "protocol") requirements))
          (async_construct reads device hostname from_string requirements) e in
      async_construct-IsConsistent p r built

module _ {T : Type 0} (reads : ThrowingReads T) (device : Device T) (hostname : Text)
    (from_string : Text → Option Text) (builder : ParametersMap) (watchdog : Watchdog)
    (answer : DeviceAnswer T) (x : Exception) where
  tcp_result-no_port :
      answer.request_result ≡ success
      → reads.get_int (codes "port") answer.property_tree ≡ threw x
      → tcp_result reads answer ≡ threw x
  unfolding tcp_result is_success same_result underlying_type extract_tcp_handle
  tcp_result-no_port ok no_port =
      let yes' : is_success answer ≡ true = ap (λ r. same_result r success) ok in
      rw (yes', tcp_result, no_port)

  -- A builder of a TCP handle, with watchdog parameters that can be read, meets a device that answers
  -- SUCCESS with a tree that holds no port, as R2000 does where the device reports an error of its own.
  -- The blocking construction throws what reading the port throws, the asynchronous one ends in FAILED
  -- without a link.
  pub construct_data_link-no_port :
      extract_watchdog_parameters builder ≡ done watchdog
      → device.send (codes "request_handle_tcp") builder ≡ done answer
      → device.submit (codes "request_handle_tcp") builder ≡ some answer
      → answer.request_result ≡ success
      → reads.get_int (codes "port") answer.property_tree ≡ threw x
      → (construct_data_link reads device hostname from_string (tcp_builder builder) ≡ threw x)
        × (async_construct_data_link reads device hostname from_string (tcp_builder builder)
            ≡ done (failed, none))
  unfolding construct_data_link construct async_construct_data_link async_construct tcp_builder put
      get cast_protocol cast_tcp_handle extract_tcp_parameters request_tcp_handle
      async_request_tcp_handle tcp_result is_success extract_tcp_handle lookup assign built_tcp
  construct_data_link-no_port w sent submitted ok no_port =
      let unread = tcp_result-no_port ok no_port in
      (
        rw (w, sent, request_tcp_handle, unread),
        rw (w, submitted, async_request_tcp_handle, unread),
      )

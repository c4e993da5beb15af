-- ===== src/Commands/Protocol.antt =====
-- GetProtocolVersion (include/Control/Commands.hpp): the version of the protocol that a device speaks.
use r.Base.{
  ℕ, ◌+◌, ◌*◌, ◌%◌, ◌^◌, ◌≡◌, Bool-cases, inl, inr, List, [], Option, none, some, Outcome, done,
  threw, out_of_range, Text, codes, ParametersMap, lookup, if◌then◌else◌, ◌==◌, ltb, ◌>>=◌,
  or_throw,
}
use r.Base.Numerals.{stoul}
use r.Device.{RequestResult, success, failed, same_result, DeviceAnswer}
use r.Commands.{Device, insert}
use r.Commands.Trees.{
  TreeReads, executed, submitted, completed, is_success, extract_info, get_protocol_info,
  async_get_protocol_info,
}

pub data Pfsdp : Type 0 where
  v100 v101 v102 v103 v104 above_v104 unknown : Pfsdp

-- The numbers are 64-bit.
unfoldable pub protocol_version_from_string : Text → Text → Outcome Pfsdp
unfolding stoul
protocol_version_from_string major minor = stoul major >>= (λ numeric_major.
    stoul minor
    >>= (λ numeric_minor. done (version ((numeric_major * 100 + numeric_minor) % 2 ^ 64))))
  where
    version : ℕ → Pfsdp
    version n =
        if n == 100
        then v100
        else if n == 101
        then v101
        else if n == 102
        then v102
        else if n == 103
        then v103
        else if n == 104
        then v104
        else if ltb 104 n
        then above_v104
        else unknown

-- `parameters.at(...)` twice, and the conversion.
unfoldable pub version_of : ParametersMap → Outcome Pfsdp
unfolding lookup protocol_version_from_string
version_of ps = or_throw out_of_range (lookup (codes "version_major") ps) >>= (λ major.
    or_throw out_of_range (lookup (codes "version_minor") ps)
    >>= (λ minor. protocol_version_from_string major minor))

abbrev pub paired : RequestResult → Outcome Pfsdp → Outcome (RequestResult × Pfsdp)
paired result o = o >>= (λ v. done (result, v))

unfoldable pub version_from :
    Option (RequestResult × (ParametersMap × List Text)) → Outcome (RequestResult × Pfsdp)
unfolding version_of same_result
version_from none = done (failed, unknown)
version_from (some info) =
    if same_result info.0 success
    then paired info.0 (version_of info.1.0)
    else done (info.0, unknown)

module _ {T : Type 0} (reads : TreeReads T) (device : Device T) where
  -- `execute`, with the test that is written there.
  unfoldable pub get_protocol_version : Outcome (RequestResult × Pfsdp)
  unfolding get_protocol_info version_of same_result
  get_protocol_version = get_protocol_info reads device >>= (λ info.
      if same_result info.0 success
      then done (info.0, unknown)
      else paired info.0 (version_of info.1.0))

  -- The task behind the future that `asyncExecute` returns.
  unfoldable pub async_get_protocol_version : Outcome (RequestResult × Pfsdp)
  unfolding async_get_protocol_info version_from
  async_get_protocol_version = version_from (async_get_protocol_info reads device)

module _ {T : Type 0} (reads : TreeReads T) (device : Device T) (answer : DeviceAnswer T) where
  -- A blocking request for the version that the device answers never yields a version: with SUCCESS the
  -- version is UNKNOWN, and with any other result the missing map entry makes it throw.
  pub get_protocol_version-unknown :
      device.send (codes "get_protocol_info") [] ≡ done answer
      → get_protocol_version reads device ≡ (
          if same_result answer.request_result success
          then done (answer.request_result, unknown)
          else threw out_of_range)
  unfolding get_protocol_version get_protocol_info executed completed is_success version_of
  get_protocol_version-unknown e = elim (Bool-cases (same_result answer.request_result success)) [
    | inl ok ↦ rw (e, ok) (rw ok)
    | inr bad ↦ rw (e, bad) (rw bad)
  ]

  -- The asynchronous request yields the version that the texts of the answer stand for, on SUCCESS, and
  -- UNKNOWN on any other result, without throwing for a missing entry.
  pub async_get_protocol_version-version :
      (commands : List Text) (name major minor : Text)
      → device.submit (codes "get_protocol_info") [] ≡ some answer
      → reads.get_children (codes "commands") answer.property_tree ≡ some commands
      → reads.get_optional (codes "protocol_name") answer.property_tree ≡ some name
      → reads.get_optional (codes "version_major") answer.property_tree ≡ some major
      → reads.get_optional (codes "version_minor") answer.property_tree ≡ some minor
      → async_get_protocol_version reads device ≡ (
          if same_result answer.request_result success
          then paired answer.request_result (protocol_version_from_string major minor)
          else done (answer.request_result, unknown))
  unfolding async_get_protocol_version version_from async_get_protocol_info submitted completed
      is_success version_of extract_info insert lookup
  async_get_protocol_version-version commands name major minor e c n ma mi =
      elim (Bool-cases (same_result answer.request_result success)) [
        | inl ok ↦ rw (e, ok, c, n, ma, mi) (rw ok)
        | inr bad ↦ rw (e, bad) (rw bad)
      ]

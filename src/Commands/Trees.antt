-- ===== src/Commands/Trees.antt =====
-- What the executors read of a property tree, and the executors of include/Control/Commands.hpp that
-- return lists and maps read from an answer.
use r.Base.{
  Bool, List, [], ◌∷◌, ◌++◌, Option, none, some, Outcome, done, fault, threw, Text, codes,
  ParametersMap, if◌then◌else◌,
}
use r.Device.{RequestResult, success, same_result, DeviceAnswer}
use r.Device.Request.{pop_back}
use r.Commands.{Device, insert, chain_list}

-- What boost reads: the text at a path, and the texts of a node's children.
pub record TreeReads (T : Type 0) : Type 0 where
  pub get_optional : Text → T → Option Text
  pub get_children : Text → T → Option (List Text)

-- `operator bool` of an answer.
unfoldable pub is_success : {T : Type 0} → DeviceAnswer T → Bool
unfolding same_result
is_success answer = same_result answer.request_result success

-- The names that are not empty.
unfoldable pub named_children : List Text → List Text
named_children [] = []
named_children ([] ∷ names) = named_children names
named_children ((c ∷ name) ∷ names) = (c ∷ name) ∷ named_children names

module _ {T : Type 0} (reads : TreeReads T) where
  -- `extractInfoFromPropertyTree`
  unfoldable pub extract_info : T → ParametersMap × List Text
  unfolding insert named_children
  extract_info tree =
      go (reads.get_children (codes "commands") tree)
        (reads.get_optional (codes "protocol_name") tree)
        (reads.get_optional (codes "version_major") tree)
        (reads.get_optional (codes "version_minor") tree)
    where
      go : Option (List Text) → Option Text → Option Text → Option Text → ParametersMap × List Text
      go none name major minor = ([], [])
      go (some commands) none major minor = ([], [])
      go (some commands) (some name) none minor = ([], [])
      go (some commands) (some name) (some major) none = ([], [])
      go (some commands) (some name) (some major) (some minor) = (
        insert (codes "version_minor") minor
            (insert (codes "version_major") major (insert (codes "protocol_name") name [])),
        named_children commands,
      )

  -- `extractParametersFromPropertyTree`
  unfoldable pub extract_parameters : T → List Text
  unfolding named_children
  extract_parameters tree = elim (reads.get_children (codes "parameters") tree) [
    | none ↦ []
    | some names ↦ named_children names
  ]

  abbrev pub or_empty : Option Text → Text
  or_empty none = []
  or_empty (some value) = value

  unfoldable pub extract_from : ParametersMap → List Text → T → ParametersMap
  unfolding insert
  extract_from keys_values [] tree = keys_values
  extract_from keys_values (name ∷ names) tree =
      extract_from (insert name (or_empty (reads.get_optional name tree)) keys_values) names tree

  -- `extractParametersValues`
  unfoldable pub extract_parameters_values : List Text → T → ParametersMap
  unfolding extract_from
  extract_parameters_values names tree = extract_from [] names tree

module _ {T R : Type 0} (empty : R) (extract : T → R) where
  -- What the completion handlers do with an answer.
  unfoldable pub completed : DeviceAnswer T → RequestResult × R
  unfolding is_success
  completed answer =
      if is_success answer
      then (answer.request_result, extract answer.property_tree)
      else (answer.request_result, empty)

  unfoldable pub executed : Outcome (DeviceAnswer T) → Outcome (RequestResult × R)
  unfolding completed
  executed (done answer) = done (completed answer)
  executed fault = fault
  executed (threw e) = threw e

  unfoldable pub submitted : Option (DeviceAnswer T) → Option (RequestResult × R)
  unfolding completed
  submitted none = none
  submitted (some answer) = some (completed answer)

-- `chainAndConvertParametersToString`: the names, each with a semicolon behind it, less the last one.
unfoldable pub with_semicolons : List Text → Text
with_semicolons [] = []
with_semicolons (name ∷ names) = (name ++ b';' ∷ []) ++ with_semicolons names

unfoldable pub chain_names : List Text → Text
unfolding with_semicolons
chain_names names = pop_back (with_semicolons names)

module _ {T : Type 0} (reads : TreeReads T) (device : Device T) where
  unfoldable pub get_protocol_info : Outcome (RequestResult × (ParametersMap × List Text))
  unfolding executed extract_info
  get_protocol_info =
      executed ([], []) (extract_info reads) (device.send (codes "get_protocol_info") [])

  unfoldable pub async_get_protocol_info : Option (RequestResult × (ParametersMap × List Text))
  unfolding submitted extract_info
  async_get_protocol_info =
      submitted ([], []) (extract_info reads) (device.submit (codes "get_protocol_info") [])

  unfoldable pub fetch_parameter_list : Outcome (RequestResult × List Text)
  unfolding executed extract_parameters
  fetch_parameter_list =
      executed [] (extract_parameters reads) (device.send (codes "list_parameters") [])

  unfoldable pub async_fetch_parameter_list : Option (RequestResult × List Text)
  unfolding submitted extract_parameters
  async_fetch_parameter_list =
      submitted [] (extract_parameters reads) (device.submit (codes "list_parameters") [])

  -- `pop_back` of the empty chain is undefined: a request for no parameter is a fault.
  unfoldable pub async_get_parameters :
      List (List Text) → Outcome (Option (RequestResult × ParametersMap))
  unfolding chain_list chain_names submitted extract_parameters_values
  async_get_parameters builders = ask (chain_list builders)
    where
      ask : List Text → Outcome (Option (RequestResult × ParametersMap))
      ask [] = fault
      ask (name ∷ names) = done (
          submitted [] (extract_parameters_values reads (name ∷ names)) (
            device.submit (codes "get_parameter")
              ((codes "list", chain_names (name ∷ names)) ∷ [])))

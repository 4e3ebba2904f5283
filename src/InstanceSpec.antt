-- ===== src/InstanceSpec.antt =====
-- src/spec.cpp: the check of an instance spec, `ValidateInstanceSpec`.
pub mod Gate
pub mod Callbacks
pub mod Apply
pub mod Transition
pub mod Grants
use xgc2_adapter_runtime_cli.Base.{
  ℕ, Bool, true, false, not, ◌&&◌, ◌||◌, Bytes, text, same, is_empty, any, all, List, [], ◌∷◌, ◌++◌,
  Option, none, some, ◌==◌, if◌then◌else◌,
}
use xgc2_adapter_runtime_cli.Message.{Environment}
use xgc2_adapter_runtime_cli.Message.Work.{ScopeReference}
use xgc2_adapter_runtime_cli.Message.Spec.{
  InteractionMode, CapabilityEndpointContract, EnabledCapability, SecretReference,
  AdapterInstanceSpec,
}
use xgc2_adapter_runtime_cli.Text.{
  is_canonical_text, is_canonical_identifier, is_canonical_sha256, is_valid_payload,
}
use xgc2_adapter_runtime_cli.State.{CapabilityCallbacks, CapabilityBinding, ClientConfig}
use xgc2_adapter_runtime_cli.Endpoint.{find_endpoint}
use xgc2_adapter_runtime_cli.Contract.{find_binding_index}

-- A failure with its message, or the binding of each grant, in their order.
pub data SpecCheck : Type 0 where
  refused : Bytes → SpecCheck
  bound : List ℕ → SpecCheck

unfoldable pub is_canonical_scope : ScopeReference → Bool
unfolding all
is_canonical_scope scope =
    is_canonical_identifier scope.kind
    && is_canonical_sha256 scope.key
    && not (is_empty scope.attributes)
    && all (λ a. is_canonical_identifier a.0 && is_canonical_text a.1) scope.attributes

-- Whether an insertion into the set fails.
abbrev pub is_in : Bytes → List Bytes → Bool
is_in x xs = any (λ y. same y x) xs

unfoldable pub check_secrets : List Bytes → List SecretReference → Bool
unfolding any
check_secrets seen [] = true
check_secrets seen (secret ∷ secrets) =
    let rest = check_secrets (secret.name ∷ seen) secrets in
    if not (is_canonical_identifier secret.name)
      || not (is_canonical_text secret.reference)
      || not (is_canonical_text secret.version)
      || is_in secret.name seen
    then false
    else rest

-- The handler that a mode needs: its name in the failure, if it is not bound.
unfoldable pub lacks_handler : CapabilityCallbacks → InteractionMode → Option Bytes
lacks_handler callbacks InteractionMode.unary =
    if callbacks.unary then none else some (text "enabled unary endpoint has no bound handler")
lacks_handler callbacks InteractionMode.operation =
    if callbacks.operation
    then none
    else some (text "enabled operation endpoint has no bound handler")
lacks_handler callbacks InteractionMode.stream_source =
    if callbacks.source_open
    then none
    else some (text "enabled source endpoint has no bound open handler")
lacks_handler callbacks _ = none

unfoldable pub endpoint_failure :
    CapabilityBinding → List Bytes → Bytes → Option CapabilityEndpointContract → Option Bytes
unfolding any lacks_handler
endpoint_failure binding seen endpoint_id none =
    some (text "instance spec grants an unknown or duplicate endpoint")
endpoint_failure binding seen endpoint_id (some endpoint) =
    if not (is_canonical_identifier endpoint_id) || is_in endpoint_id seen
    then some (text "instance spec grants an unknown or duplicate endpoint")
    else lacks_handler binding.callbacks endpoint.interaction_mode

-- The first failure of the endpoints of a grant.
unfoldable pub check_endpoints : CapabilityBinding → List Bytes → List Bytes → Option Bytes
check_endpoints binding seen [] = none
check_endpoints binding seen (endpoint_id ∷ ids) =
    let rest = check_endpoints binding (endpoint_id ∷ seen) ids in
    elim (endpoint_failure binding seen endpoint_id (find_endpoint binding.contract endpoint_id)) [
      | none ↦ rest
      | some failure ↦ some failure
    ]

abbrev pub prepend : ℕ → SpecCheck → SpecCheck
prepend index (SpecCheck.refused message) = SpecCheck.refused message
prepend index (SpecCheck.bound indices) = SpecCheck.bound (index ∷ indices)

module _ ⦃w : Environment⦄ where
  abbrev pub is_malformed : EnabledCapability → Bool
  is_malformed grant = elim grant.configuration [
    | none ↦ false
    | some payload ↦ not (is_valid_payload payload)
  ]

  -- A grant with its binding, and the check of the later grants.
  unfoldable pub check_bound :
      EnabledCapability → SpecCheck → Option (ℕ × CapabilityBinding) → SpecCheck
  unfolding check_endpoints
  check_bound grant rest none =
      SpecCheck.refused
        (text "instance spec grants an unsupported contract: " ++ grant.capability_id)
  check_bound grant rest (some (index, binding)) =
      if is_malformed grant
      then SpecCheck.refused (text "enabled capability configuration is malformed")
      else if is_empty grant.enabled_endpoint_ids
      then SpecCheck.refused (text "enabled capability grants no endpoints")
      else elim (check_endpoints binding [] grant.enabled_endpoint_ids) [
        | some failure ↦ SpecCheck.refused failure
        | none ↦ prepend index rest
      ]

  unfoldable pub check_grants : ClientConfig → List Bytes → List EnabledCapability → SpecCheck
  unfolding check_bound any
  check_grants config seen [] = SpecCheck.bound []
  check_grants config seen (grant ∷ grants) =
      let rest = check_grants config (grant.capability_id ∷ seen) grants in
      if not (is_canonical_identifier grant.capability_id) || is_in grant.capability_id seen
      then SpecCheck.refused (text "instance spec contains an empty or duplicate capability")
      else check_bound grant rest (find_binding_index config grant)

  abbrev pub bad_scope : Option ScopeReference → Bool
  bad_scope none = true
  bad_scope (some scope) = not (is_canonical_scope scope)

  abbrev pub scope_changed : Option ScopeReference → Option ScopeReference → Bool
  scope_changed (some scope) (some initial) = not (w.same_scope scope initial)
  scope_changed _ _ = true

  abbrev pub bad_configuration : AdapterInstanceSpec → Bool
  bad_configuration spec = elim spec.configuration [
    | none ↦ true
    | some payload ↦ not (is_valid_payload payload)
  ]

  unfoldable pub validate_instance_spec : ClientConfig → AdapterInstanceSpec → SpecCheck
  unfolding check_secrets
  validate_instance_spec config spec =
      if not (same spec.instance_id config.instance_id)
        || not (spec.process_generation == config.process_generation)
      then SpecCheck.refused (text "instance spec identity or process generation mismatch")
      else if (spec.revision == 0) || not (is_canonical_sha256 spec.spec_digest)
      then SpecCheck.refused (text "instance spec revision and digest are required")
      else if bad_scope spec.scope
      then SpecCheck.refused (text "instance spec scope is missing or non-canonical")
      else if scope_changed spec.scope config.initial_spec.scope
      then SpecCheck.refused (text "instance scope is immutable for the Adapter instance")
      else if bad_configuration spec
      then SpecCheck.refused (text "instance configuration must be one valid typed payload")
      else if not (check_secrets [] spec.secrets)
      then SpecCheck.refused (text "secret references must be canonical and uniquely named")
      else check_grants config [] spec.capabilities

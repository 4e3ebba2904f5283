-- ===== src/Configuration.antt =====
-- src/bootstrap.cpp: the check of the configuration, `ValidateConfig`. The bootstrap file that the configuration comes from is read elsewhere.
pub mod Bindings
use xgc2_adapter_runtime_cli.Base.{
  ℕ, Bool, true, false, not, ◌&&◌, ◌||◌, Bytes, text, same, is_empty, any, all, length, List, [],
  ◌∷◌, ◌++◌, Option, none, some, is_some, ltb, leb, ◌==◌, if◌then◌else◌,
}
use xgc2_adapter_runtime_cli.Message.{Environment}
use xgc2_adapter_runtime_cli.Message.Errors.{SchemaReference}
use xgc2_adapter_runtime_cli.Message.Spec.{
  InteractionMode, SideEffectClass, IdempotencyMode, EndpointLimits, CapabilityEndpointContract,
  CapabilityContract,
}
use xgc2_adapter_runtime_cli.Text.{
  is_canonical_text, is_canonical_identifier, is_canonical_sha256, is_lower_alpha, is_hex,
}
use xgc2_adapter_runtime_cli.State.{CapabilityBinding, ClientConfig}
use xgc2_adapter_runtime_cli.Contract.{key_of_contract}
use xgc2_adapter_runtime_cli.InstanceSpec.{SpecCheck, is_in, validate_instance_spec}
use xgc2_adapter_runtime_cli.RuntimeTarget.{strip_prefix, validate_runtime_target}
use xgc2_adapter_runtime_cli.Register.{runtime_link_protocol_version}

-- The loop of IsCanonicalCapabilityId: whether a byte begins a label; 46 is '.'.
unfoldable pub labels_start_lower : Bool → Bytes → Bool
unfolding is_lower_alpha
labels_start_lower first [] = true
labels_start_lower first (c ∷ cs) =
    let rest = labels_start_lower (c == 46) cs in
    if first && not (is_lower_alpha c) then false else rest

unfoldable pub is_canonical_capability_id : Bytes → Bool
unfolding labels_start_lower any
is_canonical_capability_id value =
    if not (any (λ c. c == 46) value) || not (is_canonical_identifier value)
    then false
    else labels_start_lower true value

unfoldable pub is_canonical_instance_id : Bytes → Bool
unfolding strip_prefix text all is_hex
is_canonical_instance_id value =
    if not (length value == 36)
    then false
    else elim (strip_prefix (text "ari-") value) [ none ↦ false | some rest ↦ all is_hex rest ]

unfoldable pub valid_schema : SchemaReference → Bool
valid_schema schema =
    ltb 0 schema.message_id
    && ltb 0 schema.schema_version
    && ltb 0 schema.schema_fingerprint
    && is_canonical_text schema.type_name

abbrev pub bad_schema : Option SchemaReference → Bool
bad_schema none = false
bad_schema (some schema) = not (valid_schema schema)

abbrev is_work : InteractionMode → Bool
is_work InteractionMode.unary = true
is_work InteractionMode.operation = true
is_work _ = false

abbrev is_source : InteractionMode → Bool
is_source InteractionMode.stream_source = true
is_source _ = false

abbrev has_any_stream_limit : EndpointLimits → Bool
has_any_stream_limit limits =
    not (limits.maximum_streams == 0)
    || not (limits.maximum_stream_chunk_bytes == 0)
    || not (limits.maximum_stream_chunk_messages == 0)

abbrev lacks_stream_limit : EndpointLimits → Bool
lacks_stream_limit limits =
    (limits.maximum_streams == 0)
    || (limits.maximum_stream_chunk_bytes == 0)
    || (limits.maximum_stream_chunk_messages == 0)

-- The part of the registration that the bootstrap brings.
pub record RegisterRequest : Type 0 where
  pub definition_id : Bytes
  pub definition_digest : Bytes
  pub software_version : Bytes
  pub build_digest : Bytes
  pub manifest_digest : Bytes
  pub bootstrap_token : Bytes
  pub sdk_version : Bytes
  pub runtime_link_protocol_version : ℕ
  pub supported_capabilities : List CapabilityContract

-- The fields of the configuration that only the start reads.
pub record StartConfig : Type 0 where
  pub runtime_target : Bytes
  pub rpc_timeout_ms : ℕ
  pub initial_connect_timeout_ms : ℕ
  pub dispatch_workers : ℕ

abbrev untrusted : RegisterRequest → Bool
untrusted r =
    not (is_canonical_identifier r.definition_id)
    || not (is_canonical_sha256 r.definition_digest)
    || not (is_canonical_text r.software_version)
    || not (is_canonical_sha256 r.build_digest)
    || not (is_canonical_sha256 r.manifest_digest)
    || not (is_canonical_text r.bootstrap_token)
    || not (same r.sdk_version (text "0.6.0"))

abbrev other_spec : ClientConfig → Bool
other_spec c =
    not (same c.initial_spec.instance_id c.instance_id)
    || not (c.initial_spec.process_generation == c.process_generation)
    || (c.initial_spec.revision == 0)
    || not (is_canonical_sha256 c.initial_spec.spec_digest)

abbrev unbounded : StartConfig → ClientConfig → Bool
unbounded start c =
    (start.rpc_timeout_ms == 0)
    || (start.initial_connect_timeout_ms == 0)
    || (c.reconnect_initial_delay_ms == 0)
    || ltb c.reconnect_max_delay_ms c.reconnect_initial_delay_ms
    || (c.maximum_pair_reconnect_attempts == 0)
    || (c.maximum_control_queue == 0)
    || (c.maximum_work_queue == 0)
    || (c.maximum_dispatch_queue == 0)
    || (c.maximum_terminal_replay == 0)
    || (c.maximum_source_streams == 0)
    || ltb c.maximum_source_tombstones c.maximum_source_streams
    || (c.maximum_control_queue_bytes == 0)
    || (c.maximum_work_queue_bytes == 0)
    || (c.maximum_dispatch_queue_bytes == 0)
    || (c.maximum_terminal_replay_bytes == 0)
    || (c.maximum_source_state_bytes == 0)
    || (start.dispatch_workers == 0)

-- A contract without its own identity, or without endpoints.
abbrev pub bad_identity : List Bytes → CapabilityContract → Bool
bad_identity seen contract =
    not (is_canonical_capability_id contract.capability_id)
    || (contract.contract_version == 0)
    || not (is_canonical_sha256 contract.contract_digest)
    || is_empty contract.endpoints
    || is_in (key_of_contract contract) seen

abbrev pub first_failure : Option Bytes → Option Bytes → Option Bytes
first_failure none next = next
first_failure (some failure) next = some failure

module _ ⦃w : Environment⦄ where
  abbrev bad_modes : CapabilityEndpointContract → Bool
  bad_modes e =
      ltb (w.side_effect_number e.side_effect_class)
        (w.side_effect_number SideEffectClass.read_only)
      || ltb (w.side_effect_number SideEffectClass.non_idempotent)
          (w.side_effect_number e.side_effect_class)
      || ltb (w.idempotency_number e.idempotency_mode)
          (w.idempotency_number IdempotencyMode.not_supported)
      || ltb (w.idempotency_number IdempotencyMode.required)
          (w.idempotency_number e.idempotency_mode)

  unfoldable pub validate_endpoint_shape : CapabilityEndpointContract → Option Bytes
  validate_endpoint_shape e =
      if not (is_canonical_identifier e.endpoint_id)
        || (not (is_work e.interaction_mode) && not (is_source e.interaction_mode))
      then some (text "capability endpoint identity or mode is invalid")
      else if bad_schema e.input_schema || bad_schema e.output_schema || bad_schema e.event_schema
      then some (text "capability endpoint schema identity is invalid")
      else if is_work e.interaction_mode && not (is_some e.input_schema)
      then some (text "endpoint interaction requires input schema")
      else if not (is_some e.output_schema)
      then some (text "endpoint interaction requires output schema")
      else if bad_modes e
      then some (text "endpoint side-effect or idempotency mode is invalid")
      else if (e.default_timeout_ms == 0)
          || (e.maximum_timeout_ms == 0)
          || ltb e.maximum_timeout_ms e.default_timeout_ms
      then some (text "endpoint timeouts must be positive and ordered")
      else if (e.limits.maximum_request_bytes == 0)
          || (e.limits.maximum_response_bytes == 0)
          || (e.limits.maximum_concurrency == 0)
      then some (text "endpoint request/response/concurrency limits must be positive")
      else if is_source e.interaction_mode && lacks_stream_limit e.limits
      then some (text "source endpoint stream limits must be positive")
      else if not (is_source e.interaction_mode) && has_any_stream_limit e.limits
      then some (text "non-stream endpoint declares stream limits")
      else none

  unfoldable pub check_contract_endpoints :
      List Bytes → List CapabilityEndpointContract → Option Bytes
  unfolding validate_endpoint_shape any
  check_contract_endpoints seen [] = none
  check_contract_endpoints seen (e ∷ es) =
      let rest = check_contract_endpoints (e.endpoint_id ∷ seen) es in
      first_failure (validate_endpoint_shape e) (
        if is_in e.endpoint_id seen
        then some (text "capability contract contains an invalid or duplicate endpoint")
        else rest)

  unfoldable pub check_contracts :
      List CapabilityContract → List Bytes → List CapabilityBinding → Option Bytes
  unfolding check_contract_endpoints any
  check_contracts advertised seen [] = none
  check_contracts advertised seen (binding ∷ bindings) =
      let rest = check_contracts advertised (key_of_contract binding.contract ∷ seen) bindings in
      if bad_identity seen binding.contract
      then some (text "capability contracts must have unique identity and endpoints")
      else first_failure (check_contract_endpoints [] binding.contract.endpoints) (
          if any (λ a. same (key_of_contract a) (key_of_contract binding.contract)) advertised
          then rest
          else some (text "application capability is not present in bootstrap registration"))

  abbrev spec_failure : SpecCheck → Option Bytes
  spec_failure (SpecCheck.refused message) = some message
  spec_failure (SpecCheck.bound indices) = none

  -- The tests of the registration, of the identity of the first spec and of the bounds.
  unfoldable pub validate_registration : RegisterRequest → StartConfig → ClientConfig → Option Bytes
  unfolding text same is_canonical_instance_id is_canonical_identifier is_canonical_sha256
      is_canonical_text
  validate_registration registration start config =
      if not (is_canonical_instance_id config.instance_id) || (config.process_generation == 0)
      then some (text "instance_id must be canonical and process_generation positive")
      else if untrusted registration
      then some (text "trusted definition/build/manifest/software/token/SDK identity is required")
      else if not (registration.runtime_link_protocol_version == runtime_link_protocol_version)
      then some (text "Runtime SDK requires protocol version 2 exclusively")
      else if other_spec config
      then some (text "initial_spec must match registration identity and generation")
      else if unbounded start config
      then some (text "timeouts, queue bounds, and worker counts must be positive")
      else none

  -- `some` is the failure.
  unfoldable pub validate_config : RegisterRequest → StartConfig → ClientConfig → Option Bytes
  unfolding text
  validate_config registration start config =
      first_failure (validate_runtime_target start.runtime_target) (
        first_failure (validate_registration registration start config) (
          first_failure (check_contracts registration.supported_capabilities [] config.capabilities)
            (if not (length config.capabilities == length registration.supported_capabilities)
              then some (text "bootstrap capability contracts were dropped or added")
              else spec_failure (validate_instance_spec config config.initial_spec))))

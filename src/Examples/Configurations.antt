-- ===== src/Examples/Configurations.antt =====
-- A configuration with two contracts of one capability, which differ in their version.
use xgc2_adapter_runtime_cli.Base.{
  ℕ, ◌≡◌, refl, true, false, Bytes, text, [], ◌∷◌, some, none, same, all, any,
}
use xgc2_adapter_runtime_cli.Message.Errors.{SchemaReference}
use xgc2_adapter_runtime_cli.Message.Spec.{
  CapabilityContract, EnabledCapability, InteractionMode, IdempotencyMode, SideEffectClass,
}
use xgc2_adapter_runtime_cli.Text.{
  is_canonical_text, is_canonical_identifier, is_canonical_sha256, is_valid_payload,
  is_valid_payload_encoding, identifier_loop, is_lower_alpha, is_alphanumeric, is_separator, is_hex,
  after_prefix,
}
use xgc2_adapter_runtime_cli.State.{ClientConfig, CapabilityBinding}
use xgc2_adapter_runtime_cli.Contract.{digits, to_string, contract_key, find_binding_index}
use xgc2_adapter_runtime_cli.InstanceSpec.{
  is_canonical_scope, check_secrets, check_grants, validate_instance_spec,
}
use xgc2_adapter_runtime_cli.RuntimeTarget.{
  strip_prefix, is_bad_component, ends_with_slash, check_components, check_socket_path,
  validate_runtime_target,
}
use xgc2_adapter_runtime_cli.Configuration.{
  RegisterRequest, StartConfig, labels_start_lower, is_canonical_capability_id,
  is_canonical_instance_id, valid_schema, validate_endpoint_shape, check_contract_endpoints,
  check_contracts, validate_registration, validate_config,
}
use xgc2_adapter_runtime_cli.Configuration.Bindings.{find_binding_index_lem}
use xgc2_adapter_runtime_cli.Examples.{wire, config}
use xgc2_adapter_runtime_cli.Examples.Specs.{digest, spec}

abbrev instance_id : Bytes
instance_id = text "ari-0123456789abcdef0123456789abcdef"

abbrev schema : SchemaReference
schema = record { message_id = 1; type_name = text "t"; schema_version = 1; schema_fingerprint = 1 }

abbrev contract : ℕ → CapabilityContract
contract version = record {
  capability_id = text "a.b";
  contract_version = version;
  contract_digest = digest;
  endpoints =
      record {
        endpoint_id = text "e";
        interaction_mode = InteractionMode.unary;
        input_schema = some schema;
        output_schema = some schema;
        event_schema = none;
        side_effect_class = SideEffectClass.read_only;
        idempotency_mode = IdempotencyMode.optional;
        deadline_required = false;
        default_timeout_ms = 10;
        maximum_timeout_ms = 20;
        limits = record {
          maximum_request_bytes = 10;
          maximum_response_bytes = 10;
          maximum_concurrency = 1;
          maximum_streams = 0;
          maximum_stream_chunk_bytes = 0;
          maximum_stream_chunk_messages = 0;
        };
      }
      ∷ [];
}

abbrev binding : ℕ → CapabilityBinding
binding version = record {
  contract = contract version;
  callbacks = record {
    start = true;
    stop = true;
    on_ready = false;
    unary = true;
    operation = false;
    source_open = false;
    source_closed = false;
  };
}

abbrev grant : ℕ → EnabledCapability
grant version = record {
  capability_id = text "a.b";
  contract_version = version;
  contract_digest = digest;
  enabled_endpoint_ids = text "e" ∷ [];
  configuration = none;
}

abbrev registration : RegisterRequest
registration = record {
  definition_id = text "d";
  definition_digest = digest;
  software_version = text "1";
  build_digest = digest;
  manifest_digest = digest;
  bootstrap_token = text "t";
  sdk_version = text "0.6.0";
  runtime_link_protocol_version = 2;
  supported_capabilities = contract 1 ∷ contract 2 ∷ [];
}

abbrev start : StartConfig
start = record {
  runtime_target = text "unix:///run/host.sock";
  rpc_timeout_ms = 100;
  initial_connect_timeout_ms = 100;
  dispatch_workers = 1;
}

abbrev two_contracts : ClientConfig
two_contracts = record config {
  instance_id = instance_id;
  initial_spec = record spec { instance_id = instance_id; capabilities = [] };
  capabilities = binding 1 ∷ binding 2 ∷ [];
}

checked_config : validate_config registration start two_contracts ≡ none
unfolding text same any all strip_prefix ends_with_slash is_bad_component check_components
    check_socket_path validate_runtime_target labels_start_lower is_canonical_capability_id
    is_canonical_instance_id valid_schema validate_endpoint_shape check_contract_endpoints
    check_contracts validate_registration validate_config is_canonical_text is_canonical_identifier
    is_canonical_sha256 is_valid_payload is_valid_payload_encoding identifier_loop is_lower_alpha
    is_alphanumeric is_separator is_hex after_prefix contract_key to_string digits
    is_canonical_scope check_secrets check_grants validate_instance_spec
checked_config = refl

binding_example : find_binding_index two_contracts (grant 2) ≡ some (1, binding 2)
binding_example =
    find_binding_index_lem registration start two_contracts (grant 2) 1 (binding 2) checked_config
      refl refl refl refl

abbrev path : Bytes
path = text "/run/host.sock"

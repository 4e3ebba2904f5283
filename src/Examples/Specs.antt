-- ===== src/Examples/Specs.antt =====
-- A spec that grants one capability, applied by a client that ran an earlier revision.
use xgc2_adapter_runtime_cli.Base.{
  ◌≡◌, refl, sym, subst, true, false, Bytes, text, [], ◌∷◌, some, none, same, all, any, find,
}
use xgc2_adapter_runtime_cli.Message.Errors.{Payload, PayloadEncoding}
use xgc2_adapter_runtime_cli.Message.Work.{ScopeReference}
use xgc2_adapter_runtime_cli.Message.Spec.{
  AdapterInstanceSpec, CapabilityContract, InteractionMode, IdempotencyMode, SideEffectClass,
}
use xgc2_adapter_runtime_cli.Text.{
  is_canonical_text, is_canonical_identifier, is_canonical_sha256, is_valid_payload,
  is_valid_payload_encoding, identifier_loop, is_lower_alpha, is_alphanumeric, is_separator, is_hex,
  after_prefix,
}
use xgc2_adapter_runtime_cli.State.{Impl}
use xgc2_adapter_runtime_cli.Endpoint.{find_endpoint, find_endpoint_in}
use xgc2_adapter_runtime_cli.Signal.{cancel_all_work_locked}
use xgc2_adapter_runtime_cli.Application.{
  disabled_capability_statuses, notify_all_closed, safe_stop_capability, safe_clear_instance_spec,
  stop_all, deactivate_locked, deactivation_error, deactivate_application,
}
use xgc2_adapter_runtime_cli.Source.{notify_source_closed}
use xgc2_adapter_runtime_cli.Contract.{
  digits, to_string, contract_key, find_binding_from, find_binding_index,
}
use xgc2_adapter_runtime_cli.InstanceSpec.{
  SpecCheck, is_canonical_scope, check_secrets, lacks_handler, endpoint_failure, check_endpoints,
  check_bound, check_grants, validate_instance_spec,
}
use xgc2_adapter_runtime_cli.InstanceSpec.Gate.{gate_spec}
use xgc2_adapter_runtime_cli.InstanceSpec.Callbacks.{
  conclude_top_level, apply_top_level, start_one, conclude_start, start_capabilities,
  conclude_ready_call, run_ready,
}
use xgc2_adapter_runtime_cli.InstanceSpec.Apply.{
  mark_status, activate, ready_statuses, commit_spec, finish_spec, conclude_ready, conclude_commit,
  conclude_started, conclude_applied, run_transition, pass_gate, apply_checked, apply_instance_spec,
}
use xgc2_adapter_runtime_cli.InstanceSpec.Grants.{AllBound, validate_instance_spec-AllBound}
use xgc2_adapter_runtime_cli.InstanceSpec.Transition.{Runs, apply_instance_spec-Runs}
use xgc2_adapter_runtime_cli.Examples.{wire, config, client}
use xgc2_adapter_runtime_cli.Examples.Sessions.{app}

abbrev pub digest : Bytes
digest = text "sha256:aaaaaaaaaaaaaaaaaaaaaaaaaaaaaaaaaaaaaaaaaaaaaaaaaaaaaaaaaaaaaaaa"

abbrev scope : ScopeReference
scope = record { kind = text "k"; key = digest; attributes = (text "a", text "b") ∷ [] }

abbrev pub payload : Payload
payload = record {
  schema =
      some (record {
        message_id = 1;
        type_name = text "t";
        schema_version = 1;
        schema_fingerprint = 1;
      });
  encoding = PayloadEncoding.bytes;
  value = [];
}

abbrev pub contract : CapabilityContract
contract = record {
  capability_id = text "c";
  contract_version = 1;
  contract_digest = text "x";
  endpoints =
      record {
        endpoint_id = text "e";
        interaction_mode = InteractionMode.unary;
        input_schema = none;
        output_schema = none;
        event_schema = none;
        side_effect_class = SideEffectClass.read_only;
        idempotency_mode = IdempotencyMode.optional;
        deadline_required = false;
        default_timeout_ms = 0;
        maximum_timeout_ms = 0;
        limits = record {
          maximum_request_bytes = 10;
          maximum_response_bytes = 10;
          maximum_concurrency = 1;
          maximum_streams = 1;
          maximum_stream_chunk_bytes = 10;
          maximum_stream_chunk_messages = 10;
        };
      }
      ∷ [];
}

abbrev pub spec : AdapterInstanceSpec
spec = record {
  instance_id = text "i";
  process_generation = 1;
  revision = 2;
  spec_digest = digest;
  scope = some scope;
  configuration = some payload;
  secrets = [];
  capabilities =
      record {
        capability_id = text "c";
        contract_version = 1;
        contract_digest = text "x";
        enabled_endpoint_ids = text "e" ∷ [];
        configuration = none;
      }
      ∷ [];
}

abbrev pub running : Impl
running = record client {
  config = record config {
    initial_spec = record spec { revision = 1 };
    capabilities =
        record {
          contract = contract;
          callbacks = record {
            start = true;
            stop = true;
            on_ready = true;
            unary = true;
            operation = false;
            source_open = false;
            source_closed = false;
          };
        }
        ∷ [];
  };
}

bound_spec : validate_instance_spec running.config spec ≡ SpecCheck.bound (0 ∷ [])
unfolding text validate_instance_spec same is_canonical_sha256 is_canonical_scope
    is_canonical_identifier is_canonical_text is_valid_payload is_valid_payload_encoding
    check_grants find_binding_index find_binding_from contract_key to_string digits endpoint_failure
    find_endpoint find_endpoint_in check_bound check_endpoints check_secrets lacks_handler all any
    after_prefix identifier_loop is_alphanumeric is_hex is_separator is_lower_alpha
bound_spec = refl

passed_spec :
    (apply_checked app (text "s") spec (SpecCheck.bound (0 ∷ [])) running).0.applied ≡ true
unfolding text same gate_spec cancel_all_work_locked deactivate_application deactivate_locked
    deactivation_error disabled_capability_statuses notify_all_closed safe_clear_instance_spec
    safe_stop_capability stop_all find activate apply_checked commit_spec conclude_applied
    conclude_commit conclude_ready conclude_started finish_spec mark_status pass_gate ready_statuses
    run_transition apply_top_level conclude_ready_call conclude_start conclude_top_level run_ready
    start_capabilities start_one notify_source_closed contract_key to_string digits
passed_spec = refl

applied_spec : (apply_instance_spec app (text "s") spec running).0.applied ≡ true
unfolding apply_instance_spec
applied_spec =
    subst (λ c. (apply_checked app (text "s") spec c running).0.applied ≡ true) (sym bound_spec)
      passed_spec

spec_example :
    Runs
      (text "s")
      (validate_instance_spec running.config spec)
      spec
      running
      (apply_instance_spec app (text "s") spec running).1
spec_example =
    apply_instance_spec-Runs app (λ index s. (refl, refl, refl, refl)) (text "s") spec running
      applied_spec

grants_example : AllBound running.config spec.capabilities (0 ∷ [])
grants_example = validate_instance_spec-AllBound running.config spec (0 ∷ []) bound_spec

-- ===== src/Message/Spec.antt =====
-- Capability contracts, instance specs and their results.
use xgc2_adapter_runtime_cli.Base.{ℕ, Bytes, Bool, Option, none, List, []}
use xgc2_adapter_runtime_cli.Message.Errors.{Payload, SchemaReference, AdapterError}
use xgc2_adapter_runtime_cli.Message.Work.{ScopeReference}

pub data InteractionMode : Type 0 where
  unspecified unary operation stream_source : InteractionMode
  unrecognized : ℕ → InteractionMode

pub data IdempotencyMode : Type 0 where
  unspecified not_supported optional required : IdempotencyMode
  unrecognized : ℕ → IdempotencyMode

-- The two classes that the client names, and others.
pub data SideEffectClass : Type 0 where
  read_only non_idempotent : SideEffectClass
  other : ℕ → SideEffectClass

pub record EndpointLimits : Type 0 where
  pub maximum_request_bytes : ℕ
  pub maximum_response_bytes : ℕ
  pub maximum_concurrency : ℕ
  pub maximum_streams : ℕ
  pub maximum_stream_chunk_bytes : ℕ
  pub maximum_stream_chunk_messages : ℕ

pub record CapabilityEndpointContract : Type 0 where
  pub endpoint_id : Bytes
  pub interaction_mode : InteractionMode
  pub input_schema : Option SchemaReference
  pub output_schema : Option SchemaReference
  pub event_schema : Option SchemaReference
  pub side_effect_class : SideEffectClass
  pub idempotency_mode : IdempotencyMode
  pub deadline_required : Bool
  pub default_timeout_ms : ℕ
  pub maximum_timeout_ms : ℕ
  pub limits : EndpointLimits

pub record CapabilityContract : Type 0 where
  pub capability_id : Bytes
  pub contract_version : ℕ
  pub contract_digest : Bytes
  pub endpoints : List CapabilityEndpointContract

pub record EnabledCapability : Type 0 where
  pub capability_id : Bytes
  pub contract_version : ℕ
  pub contract_digest : Bytes
  pub enabled_endpoint_ids : List Bytes
  pub configuration : Option Payload

pub record SecretReference : Type 0 where
  pub name : Bytes
  pub reference : Bytes
  pub version : Bytes

pub record AdapterInstanceSpec : Type 0 where
  pub instance_id : Bytes
  pub process_generation : ℕ
  pub revision : ℕ
  pub spec_digest : Bytes
  pub scope : Option ScopeReference
  pub configuration : Option Payload
  pub secrets : List SecretReference
  pub capabilities : List EnabledCapability

-- A message after `Clear`.
abbrev pub default_instance_spec : AdapterInstanceSpec
default_instance_spec = record {
  instance_id = [];
  process_generation = 0;
  revision = 0;
  spec_digest = [];
  scope = none;
  configuration = none;
  secrets = [];
  capabilities = [];
}

pub data CapabilityState : Type 0 where
  unspecified disabled configuring ready failed : CapabilityState

pub record CapabilityStatus : Type 0 where
  pub capability_id : Bytes
  pub contract_version : ℕ
  pub contract_digest : Bytes
  pub state : CapabilityState
  pub detail : Bytes

pub record ApplyInstanceSpecResult : Type 0 where
  pub revision : ℕ
  pub spec_digest : Bytes
  pub applied : Bool
  pub error : Option AdapterError
  pub capabilities : List CapabilityStatus

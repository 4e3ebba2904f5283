-- ===== src/Message.antt =====
-- The protobuf messages of the Runtime Link as records: the fields that the client's code reads or
-- writes. Their classes are generated at build time; what the client takes from the generated code
-- and from the protobuf runtime (sizes, encodings, enumerator numbers) is part of the interface
-- `Environment`, with what happens while callbacks of the application run that return nothing.
pub mod Errors
pub mod Work
pub mod Spec
pub mod Control
use xgc2_adapter_runtime_cli.Base.{ℕ, Bytes, Bool, Option}
use Errors.{ErrorClass, AdapterError, Payload}
use Work.{
  ScopeReference, SessionHeader, WorkFrame, UnaryRequest, OperationRequest, SourceOpenRequest,
  Terminal,
}
use Spec.{SideEffectClass, IdempotencyMode, AdapterInstanceSpec}
use Control.{ControlFrame}
use xgc2_adapter_runtime_cli.State.{Impl}

pub record Environment : Type 0 where
  -- `ByteSizeLong` of a frame that carries this header.
  pub control_size : SessionHeader → ControlFrame → ℕ
  pub work_size : SessionHeader → WorkFrame → ℕ
  -- `ByteSizeLong` of the other messages that the client measures.
  pub unary_size : UnaryRequest → ℕ
  pub operation_size : OperationRequest → ℕ
  pub source_open_size : SourceOpenRequest → ℕ
  pub payload_size : Payload → ℕ
  -- `JsonStringToMessage` into a `google.protobuf.Value`.
  pub json_ok : Bytes → Bool
  -- The deterministic encoding, and the fully-qualified message name.
  pub serialize : Terminal → Option Bytes
  pub full_name : Terminal → Bytes
  -- The enumerators' numbers.
  pub class_number : ErrorClass → ℕ
  pub side_effect_number : SideEffectClass → ℕ
  pub idempotency_number : IdempotencyMode → ℕ
  -- `MessageDifferencer::Equals`.
  pub same_spec : AdapterInstanceSpec → AdapterInstanceSpec → Bool
  pub same_scope : ScopeReference → ScopeReference → Bool
  -- What the callback, and other threads meanwhile, do to the state while it runs without the lock:
  -- `stop` of the binding with this index, `clear_instance_spec`, and `source_closed`.
  pub stop_capability : ℕ → Impl → Impl
  pub clear_instance_spec : Impl → Impl
  pub source_closed : ℕ → SourceOpenRequest → AdapterError → Impl → Impl

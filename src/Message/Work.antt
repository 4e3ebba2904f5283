-- ===== src/Message/Work.antt =====
-- The frames of the Work stream.
use xgc2_adapter_runtime_cli.Base.{ℕ, Bytes, Bool, Option, List}
use xgc2_adapter_runtime_cli.Base.Int.{ℤ}
use xgc2_adapter_runtime_cli.Message.Errors.{Payload, AdapterError}

pub record SessionHeader : Type 0 where
  pub instance_id : Bytes
  pub session_id : Bytes
  pub process_generation : ℕ
  pub session_generation : ℕ
  pub runtime_epoch : ℕ
  pub connection_epoch : ℕ
  pub frame_sequence : ℕ

pub record Deadline : Type 0 where
  pub ttl_ms : ℕ
  pub deadline_unix_nanos : ℤ

pub record ScopeReference : Type 0 where
  pub kind : Bytes
  pub key : Bytes
  pub attributes : List (Bytes × Bytes)

pub record WorkContext : Type 0 where
  pub work_id : Bytes
  pub request_digest : Bytes
  pub capability_id : Bytes
  pub contract_version : ℕ
  pub contract_digest : Bytes
  pub endpoint_id : Bytes
  pub spec_revision : ℕ
  pub idempotency_key : Bytes
  pub deadline : Deadline
  pub subject : Option ScopeReference

pub record UnaryRequest : Type 0 where
  pub context : WorkContext
  pub input : Payload

pub record OperationRequest : Type 0 where
  pub context : WorkContext
  pub input : Payload

pub record Credit : Type 0 where
  pub messages : ℕ
  pub bytes : ℕ

pub record SourceOpenRequest : Type 0 where
  pub context : WorkContext
  pub initial_credit : Option Credit

pub record SourceCredit : Type 0 where
  pub stream_id : Bytes
  pub grant : Option Credit
  pub acknowledged_sequence : ℕ

pub data Identity : Type 0 where
  not_set : Identity
  work_id stream_id : Bytes → Identity

pub record TerminalAcknowledgement : Type 0 where
  pub terminal_digest : Bytes
  pub identity : Identity

pub record WorkCancellation : Type 0 where
  pub reason : Bytes
  pub identity : Identity

pub data OperationPhase : Type 0 where
  unspecified accepted started succeeded rejected failed expired cancelled : OperationPhase
  uncertain : OperationPhase
  unrecognized : ℕ → OperationPhase

pub record UnaryResponse : Type 0 where
  pub work_id : Bytes
  pub output : Option Payload
  pub error : Option AdapterError

pub record OperationEvent : Type 0 where
  pub work_id : Bytes
  pub phase : OperationPhase
  pub occurred_unix_nanos : ℤ
  pub native_code : ℤ
  pub output : Option Payload
  pub error : Option AdapterError

pub record SourceOpenResult : Type 0 where
  pub stream_id : Bytes
  pub accepted : Bool
  pub initial_payload : Option Payload
  pub error : Option AdapterError

pub record SourceData : Type 0 where
  pub stream_id : Bytes
  pub sequence : ℕ
  pub items : List Bytes

pub record SourceClose : Type 0 where
  pub stream_id : Bytes
  pub final_sequence : ℕ
  pub error : Option AdapterError

pub record WorkAttach : Type 0 where
  pub applied_spec_revision : ℕ
  pub applied_spec_digest : Bytes

pub record ProtocolError : Type 0 where
  pub rejected_frame_sequence : ℕ
  pub error : AdapterError

-- A `WorkRequest` with no header: the headers are stamped when a frame is measured or written.
pub data WorkFrame : Type 0 where
  attach : WorkAttach → WorkFrame
  unary_response : UnaryResponse → WorkFrame
  operation_event : OperationEvent → WorkFrame
  source_open_result : SourceOpenResult → WorkFrame
  source_data : SourceData → WorkFrame
  source_close : SourceClose → WorkFrame
  protocol_error : ProtocolError → WorkFrame

-- The messages whose digest the Host acknowledges.
pub data Terminal : Type 0 where
  unary : UnaryResponse → Terminal
  operation : OperationEvent → Terminal
  opened : SourceOpenResult → Terminal
  closed : SourceClose → Terminal

-- What the Host sends on the Work stream.
pub data WorkResponse : Type 0 where
  unary_request : UnaryRequest → WorkResponse
  operation_request : OperationRequest → WorkResponse
  source_open_request : SourceOpenRequest → WorkResponse
  source_credit : SourceCredit → WorkResponse
  cancellation : WorkCancellation → WorkResponse
  terminal_acknowledgement : TerminalAcknowledgement → WorkResponse
  host_error : Bytes → WorkResponse
  frame_not_set : WorkResponse

-- ===== src/State.antt =====
-- src/client_impl.hpp: the state of `Client::Impl`, with the types that it holds, and the bounds of
-- include/xgc2/adapter_runtime/client.hpp.
use xgc2_adapter_runtime_cli.Base.{ℕ, Bool, true, false, Bytes, Option, List, Map}
use xgc2_adapter_runtime_cli.Message.Errors.{AdapterError}
use xgc2_adapter_runtime_cli.Message.Work.{
  WorkFrame, UnaryRequest, OperationRequest, SourceOpenRequest, WorkContext,
}
use xgc2_adapter_runtime_cli.Message.Spec.{
  CapabilityContract, EnabledCapability, CapabilityStatus, AdapterInstanceSpec,
}
use xgc2_adapter_runtime_cli.Message.Control.{ControlFrame}

pub data ClientState : Type 0 where
  stopped connecting registered applying_spec ready draining reconnecting session_lost : ClientState
  stopping : ClientState

abbrev pub is_ready : ClientState → Bool
is_ready ClientState.ready = true
is_ready _ = false

-- Which of the callbacks are bound.
pub record CapabilityCallbacks : Type 0 where
  pub start : Bool
  pub stop : Bool
  pub on_ready : Bool
  pub unary : Bool
  pub operation : Bool
  pub source_open : Bool
  pub source_closed : Bool

pub record CapabilityBinding : Type 0 where
  pub contract : CapabilityContract
  pub callbacks : CapabilityCallbacks

-- Which of the client's callbacks are bound.
pub record ClientCallbacks : Type 0 where
  pub apply_instance_spec : Bool
  pub clear_instance_spec : Bool
  pub session_lost : Bool
  pub stop_requested : Bool

pub record ClientConfig : Type 0 where
  pub instance_id : Bytes
  pub process_generation : ℕ
  pub initial_spec : AdapterInstanceSpec
  pub capabilities : List CapabilityBinding
  pub reconnect_initial_delay_ms : ℕ
  pub reconnect_max_delay_ms : ℕ
  pub maximum_pair_reconnect_attempts : ℕ
  pub maximum_control_queue : ℕ
  pub maximum_work_queue : ℕ
  pub maximum_dispatch_queue : ℕ
  pub maximum_terminal_replay : ℕ
  pub maximum_source_streams : ℕ
  pub maximum_source_tombstones : ℕ
  pub maximum_control_queue_bytes : ℕ
  pub maximum_work_queue_bytes : ℕ
  pub maximum_dispatch_queue_bytes : ℕ
  pub maximum_terminal_replay_bytes : ℕ
  pub maximum_source_state_bytes : ℕ

pub record SessionFence : Type 0 where
  pub host_id : Bytes
  pub session_id : Bytes
  pub session_generation : ℕ
  pub runtime_epoch : ℕ
  pub runtime_link_protocol_version : ℕ
  pub heartbeat_interval_ms : ℕ
  pub maximum_control_frame_bytes : ℕ
  pub maximum_work_frame_bytes : ℕ
  pub connection_epoch : ℕ

pub record ActiveCapability : Type 0 where
  pub binding_index : ℕ
  pub grant : EnabledCapability

pub data DispatchKind : Type 0 where
  unary operation source_open : DispatchKind

abbrev pub same_kind : DispatchKind → DispatchKind → Bool
same_kind DispatchKind.unary DispatchKind.unary = true
same_kind DispatchKind.operation DispatchKind.operation = true
same_kind DispatchKind.source_open DispatchKind.source_open = true
same_kind _ _ = false

-- The request of a job: of the three fields of `DispatchJob`, the one that its `kind` names.
pub data Request : Type 0 where
  unary : UnaryRequest → Request
  operation : OperationRequest → Request
  source_open : SourceOpenRequest → Request

abbrev pub kind_of : Request → DispatchKind
kind_of (Request.unary r) = DispatchKind.unary
kind_of (Request.operation r) = DispatchKind.operation
kind_of (Request.source_open r) = DispatchKind.source_open

abbrev pub context_of : Request → WorkContext
context_of (Request.unary r) = r.context
context_of (Request.operation r) = r.context
context_of (Request.source_open r) = r.context

-- `cancellation` is a shared pointer: the place of a `CancellationState` in `Impl.requested`.
pub record DispatchJob : Type 0 where
  pub request : Request
  pub work_id : Bytes
  pub fingerprint : Bytes
  pub inbound_frame_sequence : ℕ
  pub connection_epoch : ℕ
  pub accounted_bytes : ℕ
  pub terminal_reservation_bytes : ℕ
  pub cancellation : Option ℕ

pub record WorkTokenState : Type 0 where
  pub cancellation : ℕ
  pub terminal_reservation_bytes : ℕ

-- `terminal` is the frame with the `unary` or the `operation` of the source, by `kind`.
pub record ReplayEntry : Type 0 where
  pub kind : DispatchKind
  pub fingerprint : Bytes
  pub terminal : WorkFrame
  pub terminal_digest : Bytes
  pub accounted_bytes : ℕ

pub record QueuedControlFrame : Type 0 where
  pub request : ControlFrame
  pub accounted_bytes : ℕ

pub record QueuedWorkFrame : Type 0 where
  pub request : WorkFrame
  pub accounted_bytes : ℕ

pub data Phase : Type 0 where
  opening open_ : Phase

abbrev pub is_open : Phase → Bool
is_open Phase.opening = false
is_open Phase.open_ = true

pub record SourceState : Type 0 where
  pub request : SourceOpenRequest
  pub binding_index : ℕ
  pub cancellation : ℕ
  pub phase : Phase
  pub connection_epoch : ℕ
  pub message_credit : ℕ
  pub byte_credit : ℕ
  pub sequence : ℕ
  pub acknowledged_sequence : ℕ
  pub maximum_chunk_bytes : ℕ
  pub maximum_chunk_messages : ℕ
  pub accounted_bytes : ℕ

pub record ClosedSourceState : Type 0 where
  pub connection_epoch : ℕ
  pub final_sequence : ℕ
  pub acknowledged_sequence : ℕ
  pub fingerprint : Bytes
  pub terminal_digest : Bytes
  pub terminal_frame : WorkFrame
  pub accounted_bytes : ℕ

-- The calls of application callbacks that the state records, the last one first.
pub data Invocation : Type 0 where
  source_closed : ℕ → SourceOpenRequest → AdapterError → Invocation
  apply_instance_spec : Bytes → Invocation
  start_capability : ℕ → Invocation
  ready_capability : ℕ → Invocation
  stop_capability : ℕ → Invocation
  clear_instance_spec : Invocation
  session_lost : Bytes → Invocation
  stop_requested : Bytes → Invocation

pub record Impl : Type 0 where
  pub config : ClientConfig
  pub callbacks : ClientCallbacks
  pub registration_attempted : Bool
  pub state : ClientState
  pub stop_requested : Bool
  pub session_failed : Bool
  pub accepting_work : Bool
  pub drain_requested : Bool
  pub drain_reported : Bool
  pub ready_callbacks_complete : Bool
  pub work_attach_allowed : Bool
  pub pair_ready : Bool
  pub terminal_session_failure : Bool
  pub session_lost_reported : Bool
  pub last_error : Bytes
  pub terminal_session_error : Bytes
  pub host_id : Bytes
  pub session_id : Bytes
  pub session_generation : ℕ
  pub runtime_epoch : ℕ
  pub runtime_link_protocol_version : ℕ
  pub heartbeat_interval_ms : ℕ
  pub maximum_control_frame_bytes : ℕ
  pub maximum_work_frame_bytes : ℕ
  pub connection_epoch_counter : ℕ
  pub control_out_sequence : ℕ
  pub work_out_sequence : ℕ
  pub control_in_sequence : ℕ
  pub work_in_sequence : ℕ
  pub work_attach_connection_epoch : ℕ
  pub spec_revision : ℕ
  pub spec_digest : Bytes
  pub active_spec : AdapterInstanceSpec
  pub desired_spec : AdapterInstanceSpec
  pub active_capabilities : Map ActiveCapability
  pub capability_statuses : List CapabilityStatus
  pub control_queue : List QueuedControlFrame
  pub work_queue : List QueuedWorkFrame
  pub dispatch_queue : List DispatchJob
  pub work_tokens : Map WorkTokenState
  pub in_flight_work : ℕ
  pub active_dispatch_jobs : ℕ
  pub replay : Map ReplayEntry
  pub source_streams : Map SourceState
  pub closed_sources : Map ClosedSourceState
  pub rejected_dispatches : ℕ
  pub dropped_outbound_frames : ℕ
  pub control_queue_bytes : ℕ
  pub work_queue_bytes : ℕ
  pub dispatch_queue_bytes : ℕ
  pub terminal_replay_bytes : ℕ
  pub source_state_bytes : ℕ
  pub requested : ℕ → Bool
  pub next_cancellation : ℕ
  pub invocations : List Invocation

-- ===== src/Frames.antt =====
-- src/source_dispatch.cpp, src/stream.cpp and src/client.cpp: the frames and results that the client
-- makes itself. `now` is what `UnixNanos()` returns.
use xgc2_adapter_runtime_cli.Base.{Bool, false, Bytes, none, some}
use xgc2_adapter_runtime_cli.Base.Int.{ℤ, pos}
use xgc2_adapter_runtime_cli.Message.Errors.{ErrorClass, Payload, AdapterError, default_payload}
use xgc2_adapter_runtime_cli.Message.Work.{WorkFrame, OperationPhase}
use xgc2_adapter_runtime_cli.Text.{make_error}
use xgc2_adapter_runtime_cli.State.{DispatchKind}

unfoldable pub rejection_phase : ErrorClass → OperationPhase
rejection_phase ErrorClass.cancelled = OperationPhase.cancelled
rejection_phase ErrorClass.deadline = OperationPhase.expired
rejection_phase ErrorClass.rejected = OperationPhase.rejected
rejection_phase _ = OperationPhase.failed

-- Kinds other than unary get an event, a source open too, though none is made for it.
unfoldable pub rejected_dispatch : DispatchKind → Bytes → Bytes → Bytes → ErrorClass → ℤ → WorkFrame
rejected_dispatch DispatchKind.unary work_id code message class now =
    WorkFrame.unary_response
      (record { work_id = work_id; output = none; error = some (make_error class code message) })
rejected_dispatch _ work_id code message class now = WorkFrame.operation_event (record {
  work_id = work_id;
  phase = rejection_phase class;
  occurred_unix_nanos = now;
  native_code = pos 0;
  output = none;
  error = some (make_error class code message);
})

unfoldable pub operation_frame : Bytes → OperationPhase → ℤ → WorkFrame
operation_frame work_id phase now = WorkFrame.operation_event (record {
  work_id = work_id;
  phase = phase;
  occurred_unix_nanos = now;
  native_code = pos 0;
  output = none;
  error = none;
})

unfoldable pub source_open_rejected : Bytes → AdapterError → WorkFrame
source_open_rejected stream_id error =
    WorkFrame.source_open_result (record {
      stream_id = stream_id;
      accepted = false;
      initial_payload = none;
      error = some error;
    })

pub record UnaryResult : Type 0 where
  pub succeeded : Bool
  pub output : Payload
  pub error : AdapterError

unfoldable pub unary_failure : ErrorClass → Bytes → Bytes → UnaryResult
unary_failure class code message = record {
  succeeded = false;
  output = default_payload;
  error = make_error class code message;
}

pub record OperationResult : Type 0 where
  pub phase : OperationPhase
  pub has_output : Bool
  pub output : Payload
  pub error : AdapterError
  pub native_code : ℤ

unfoldable pub failure_phase : ErrorClass → OperationPhase
failure_phase ErrorClass.uncertain = OperationPhase.uncertain
failure_phase ErrorClass.cancelled = OperationPhase.cancelled
failure_phase ErrorClass.rejected = OperationPhase.rejected
failure_phase ErrorClass.deadline = OperationPhase.expired
failure_phase _ = OperationPhase.failed

unfoldable pub operation_failure : ErrorClass → Bytes → Bytes → OperationResult
unfolding failure_phase
operation_failure class code message = record {
  phase = failure_phase class;
  has_output = false;
  output = default_payload;
  error = make_error class code message;
  native_code = pos 0;
}

pub record SourceOpenDecision : Type 0 where
  pub accepted : Bool
  pub has_initial_payload : Bool
  pub initial_payload : Payload
  pub error : AdapterError

unfoldable pub source_reject : ErrorClass → Bytes → Bytes → SourceOpenDecision
source_reject class code message = record {
  accepted = false;
  has_initial_payload = false;
  initial_payload = default_payload;
  error = make_error class code message;
}

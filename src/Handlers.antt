-- ===== src/Handlers.antt =====
-- src/dispatch.cpp and src/source_dispatch.cpp: the handlers of jobs. A callback of the application
-- is a function of the state: it returns or throws, and meanwhile the other threads have
-- changed the state.
use xgc2_adapter_runtime_cli.Base.{
  ℕ, Bool, true, false, not, ◌&&◌, ◌||◌, Bytes, text, length, is_empty, Option, none, some, ltb,
  if◌then◌else◌,
}
use xgc2_adapter_runtime_cli.Base.Int.{ℤ}
use xgc2_adapter_runtime_cli.Message.{Environment}
use xgc2_adapter_runtime_cli.Message.Errors.{ErrorClass}
use xgc2_adapter_runtime_cli.Message.Work.{
  WorkFrame, UnaryRequest, OperationRequest, OperationPhase,
}
use xgc2_adapter_runtime_cli.Message.Spec.{CapabilityEndpointContract}
use xgc2_adapter_runtime_cli.Text.{is_typed_error, is_valid_payload, schema_matches, schema_of}
use xgc2_adapter_runtime_cli.State.{DispatchKind, DispatchJob, Impl}
use xgc2_adapter_runtime_cli.Queue.{queue_work_locked}
use xgc2_adapter_runtime_cli.Signal.{signal_current_session_failure}
use xgc2_adapter_runtime_cli.Endpoint.{find_endpoint, binding_at}
use xgc2_adapter_runtime_cli.Replay.{TerminalCommitResult, commit_terminal_frame}
use xgc2_adapter_runtime_cli.Admission.{commit_or_fail}
use xgc2_adapter_runtime_cli.Frames.{
  rejected_dispatch, operation_frame, UnaryResult, unary_failure, OperationResult,
  operation_failure, SourceOpenDecision, source_reject,
}
use xgc2_adapter_runtime_cli.Validate.{
  has_error, is_unspecified, has_payload, validate_input, check_unary_result,
  check_operation_result,
}

pub data Returned (A : Type 0) : Type 0 where
  returned : A → Returned A
  -- A `std::exception`, and anything else.
  threw threw_unknown : Returned A

abbrev pub Callback : Type 0 → Type 0
Callback A = Impl → Returned A × Impl

-- The result that stands for a throw of each sort.
abbrev pub settle : {A : Type 0} → A → A → Returned A → A
settle exception unknown (Returned.returned a) = a
settle exception unknown Returned.threw = exception
settle exception unknown Returned.threw_unknown = unknown

-- job.cancellation->requested.load()
unfoldable pub is_cancelled : DispatchJob → Impl → Bool
is_cancelled job s = elim job.cancellation [ none ↦ false | some c ↦ s.requested c ]

unfoldable pub endpoint_at : Impl → ℕ → Bytes → Option CapabilityEndpointContract
endpoint_at s binding_index endpoint_id = elim (binding_at s binding_index) [
  | none ↦ none
  | some binding ↦ find_endpoint binding.contract endpoint_id
]

unfoldable pub unary_frame : Bytes → UnaryResult → WorkFrame
unary_frame work_id result = WorkFrame.unary_response (record {
  work_id = work_id;
  output = if result.succeeded then some result.output else none;
  error = if result.succeeded then none else some result.error;
})

unfoldable pub terminal_event : Bytes → OperationResult → ℤ → WorkFrame
terminal_event work_id result now = WorkFrame.operation_event (record {
  work_id = work_id;
  phase = result.phase;
  occurred_unix_nanos = now;
  native_code = result.native_code;
  output = if result.has_output then some result.output else none;
  error =
      if not (is_empty result.error.code) || not (is_unspecified result.error.class)
      then some result.error
      else none;
})

module _ ⦃w : Environment⦄ where
  -- A frame that is too large for the stream gives way to a compact one.
  unfoldable pub commit_with_fallback : DispatchJob → WorkFrame → WorkFrame → Bytes → Impl → Impl
  commit_with_fallback job frame fallback reason s =
      let (commit, s') = commit_terminal_frame job frame s in
      elim commit [
        | TerminalCommitResult.committed ↦ s'
        | TerminalCommitResult.too_large ↦ commit_or_fail job fallback reason s'
        | TerminalCommitResult.unavailable ↦ signal_current_session_failure reason s'
      ]

  unfoldable pub finish_unary :
      CapabilityEndpointContract → DispatchJob → Returned UnaryResult → Impl → Impl
  finish_unary endpoint job outcome s =
      commit_with_fallback job
        (unary_frame job.work_id (
          check_unary_result endpoint (is_cancelled job s) (
            settle
              (unary_failure ErrorClass.permanent (text "handler-exception")
                (text "unary handler threw an exception"))
              (unary_failure ErrorClass.permanent (text "handler-exception")
                (text "unary handler threw an unknown exception"))
              outcome)))
        (unary_frame job.work_id (
          unary_failure ErrorClass.resource_exhausted (text "response-too-large")
            (text "unary result exceeds the Work frame limit")))
        (text "bounded Work transport could not commit the unary terminal result") s

  unfoldable pub handle_unary :
      (UnaryRequest → Callback UnaryResult) → DispatchJob → UnaryRequest → ℕ → ℤ → Impl → Impl
  handle_unary callback job request binding_index now s =
      let refuse =
        commit_or_fail job
          (rejected_dispatch DispatchKind.unary job.work_id (text "input-schema-mismatch")
            (text "unary input does not match its contract") ErrorClass.rejected now)
          (text "bounded Work transport could not retain unary input rejection") s in
      elim (endpoint_at s binding_index request.context.endpoint_id) [
        | none ↦ refuse
        | some endpoint ↦
            let (outcome, s') = callback request s in
            if not (validate_input endpoint request.input)
            then refuse
            else finish_unary endpoint job outcome s'
      ]

  unfoldable pub finish_operation :
      CapabilityEndpointContract → DispatchJob → Returned OperationResult → ℤ → Impl → Impl
  finish_operation endpoint job outcome now s =
      commit_with_fallback job
        (terminal_event job.work_id
          (check_operation_result endpoint (
            settle
              (operation_failure ErrorClass.permanent (text "handler-exception")
                (text "operation handler threw an exception"))
              (operation_failure ErrorClass.permanent (text "handler-exception")
                (text "operation handler threw an unknown exception"))
              outcome))
          now)
        (terminal_event job.work_id
          (operation_failure ErrorClass.resource_exhausted (text "response-too-large")
            (text "operation result exceeds the Work frame limit"))
          now)
        (text "bounded Work transport could not commit the operation terminal result") s

  -- The accepted and the started event.
  unfoldable pub announce_operation : Bytes → ℤ → Impl → Bool × Impl
  announce_operation work_id now s =
      let (accepted, s1) =
        queue_work_locked (operation_frame work_id OperationPhase.accepted now) s in
      let (started, s2) =
        queue_work_locked (operation_frame work_id OperationPhase.started now) s1 in
      if accepted then (started, s2) else (false, s1)

  unfoldable pub handle_operation :
      (OperationRequest → Callback OperationResult)
      → DispatchJob
      → OperationRequest
      → ℕ
      → ℤ
      → Impl
      → Impl
  handle_operation callback job request binding_index now s =
      let refuse =
        commit_or_fail job
          (rejected_dispatch DispatchKind.operation job.work_id (text "input-schema-mismatch")
            (text "operation input does not match its contract") ErrorClass.rejected now)
          (text "bounded Work transport could not retain operation input rejection") s in
      elim (endpoint_at s binding_index request.context.endpoint_id) [
        | none ↦ refuse
        | some endpoint ↦
            let (announced, s1) = announce_operation job.work_id now s in
            let (outcome, s2) = callback request s1 in
            if not (validate_input endpoint request.input)
            then refuse
            else if not announced
            then signal_current_session_failure
                (text "bounded Work transport could not send operation lifecycle events") s1
            else finish_operation endpoint job outcome now s2
      ]

  -- An initial payload that is not one of the endpoint's outputs, or too long for it.
  unfoldable pub bad_initial_payload : Option CapabilityEndpointContract → SourceOpenDecision → Bool
  bad_initial_payload none decision = true
  bad_initial_payload (some endpoint) decision =
      not (is_valid_payload decision.initial_payload)
      || not (
          schema_matches (schema_of endpoint.output_schema)
            (schema_of decision.initial_payload.schema))
      || (ltb 0 endpoint.limits.maximum_response_bytes
          && ltb endpoint.limits.maximum_response_bytes (length decision.initial_payload.value))

  unfoldable pub check_source_decision :
      Option CapabilityEndpointContract → Bool → SourceOpenDecision → SourceOpenDecision
  unfolding bad_initial_payload
  check_source_decision endpoint cancelled decision =
      if cancelled
      then source_reject ErrorClass.cancelled (text "cancelled") (text "source open was cancelled")
      else if decision.accepted
          && (has_error decision.error
              || (not decision.has_initial_payload && has_payload decision.initial_payload))
      then source_reject ErrorClass.permanent (text "invalid-handler-result")
          (text "accepted source open also returned an error")
      else if not decision.accepted
          && (decision.has_initial_payload
              || has_payload decision.initial_payload
              || not (is_typed_error decision.error))
      then source_reject ErrorClass.permanent (text "invalid-handler-result")
          (text "rejected source open must return one typed error and no payload")
      else if decision.accepted
          && decision.has_initial_payload
          && bad_initial_payload endpoint decision
      then source_reject ErrorClass.rejected (text "initial-payload-invalid")
          (text "source initial payload violates its output contract")
      else decision

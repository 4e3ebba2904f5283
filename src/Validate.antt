-- ===== src/Validate.antt =====
-- src/dispatch.cpp and src/source_dispatch.cpp: the tests of a Work context, of inputs and of the
-- results that handlers return.
pub mod Results
use xgc2_adapter_runtime_cli.Base.{
  ℕ, Bool, true, false, not, ◌&&◌, ◌||◌, Bytes, text, same, length, is_empty, Option, none, some,
  ltb, leb, ◌==◌, if◌then◌else◌,
}
use xgc2_adapter_runtime_cli.Base.Int.{ℤ, pos, leb_ℤ, ltb_ℤ}
use xgc2_adapter_runtime_cli.Message.{Environment}
use xgc2_adapter_runtime_cli.Message.Errors.{ErrorClass, Payload, AdapterError}
use xgc2_adapter_runtime_cli.Message.Work.{ScopeReference, WorkContext, OperationPhase}
use xgc2_adapter_runtime_cli.Message.Spec.{
  InteractionMode, IdempotencyMode, CapabilityEndpointContract,
}
use xgc2_adapter_runtime_cli.Text.{
  is_canonical_sha256, is_valid_subject, is_valid_payload, is_typed_error, is_terminal, schema_of,
  schema_matches, error_matches_operation_phase,
}
use xgc2_adapter_runtime_cli.State.{DispatchKind, Impl, is_ready}
use xgc2_adapter_runtime_cli.Endpoint.{ActiveEndpoint, find_active_endpoint_locked}
use xgc2_adapter_runtime_cli.Frames.{UnaryResult, OperationResult, unary_failure, operation_failure}

-- `none` and a reason, or the binding and the endpoint that the Work is for.
pub data Validation : Type 0 where
  invalid : Bytes → Validation
  valid : ActiveEndpoint → Validation

unfoldable pub mode_matches : DispatchKind → InteractionMode → Bool
mode_matches DispatchKind.unary InteractionMode.unary = true
mode_matches DispatchKind.operation InteractionMode.operation = true
mode_matches DispatchKind.source_open InteractionMode.stream_source = true
mode_matches _ _ = false

abbrev requires_key : IdempotencyMode → Bool
requires_key IdempotencyMode.required = true
requires_key _ = false

unfoldable pub has_valid_subject : Option ScopeReference → Bool
has_valid_subject none = false
has_valid_subject (some subject) = is_valid_subject subject

-- The tests behind the look-up of the active endpoint.
unfoldable pub validate_endpoint : WorkContext → DispatchKind → ℤ → ActiveEndpoint → Validation
unfolding mode_matches has_valid_subject
validate_endpoint context kind now active =
    if not (context.contract_version == active.grant.contract_version)
      || not (same context.contract_digest active.grant.contract_digest)
    then Validation.invalid (text "Work does not match an active capability contract")
    else if not (mode_matches kind active.endpoint.interaction_mode)
    then Validation.invalid (text "Work interaction mode does not match the endpoint")
    else if active.endpoint.deadline_required && leb_ℤ context.deadline.deadline_unix_nanos (pos 0)
    then Validation.invalid (text "endpoint requires a deadline")
    else if ltb_ℤ (pos 0) context.deadline.deadline_unix_nanos
        && leb_ℤ context.deadline.deadline_unix_nanos now
    then Validation.invalid (text "Work deadline has expired")
    else if requires_key active.endpoint.idempotency_mode && is_empty context.idempotency_key
    then Validation.invalid (text "endpoint requires an idempotency key")
    else if not (is_canonical_sha256 context.request_digest)
    then Validation.invalid (text "Work request_digest must use sha256:<lowercase-hex>")
    else if not (has_valid_subject context.subject)
    then Validation.invalid (text "Work subject is missing or non-canonical")
    else Validation.valid active

unfoldable pub validate_work_context_locked : WorkContext → DispatchKind → ℤ → Impl → Validation
validate_work_context_locked context kind now s =
    if not s.accepting_work || not (is_ready s.state) || s.session_failed
    then Validation.invalid (text "Runtime Link is not ready")
    else if not (context.spec_revision == s.spec_revision)
    then Validation.invalid (text "Work references a stale spec revision")
    else elim (find_active_endpoint_locked s context.capability_id context.endpoint_id) [
      | none ↦ Validation.invalid (text "Work does not match an active capability contract")
      | some active ↦ validate_endpoint context kind now active
    ]

abbrev pub is_unspecified : ErrorClass → Bool
is_unspecified ErrorClass.unspecified = true
is_unspecified _ = false

unfoldable pub has_error : AdapterError → Bool
has_error error =
    not (is_unspecified error.class)
    || not (is_empty error.code)
    || not (is_empty error.message)
    || not (error.retry_after_ms == 0)
    || elim error.details [ none ↦ false | some _ ↦ true ]

module _ ⦃w : Environment⦄ where
  unfoldable pub has_payload : Payload → Bool
  has_payload payload = not (w.payload_size payload == 0)

  unfoldable pub output_matches : CapabilityEndpointContract → Payload → Bool
  output_matches endpoint output =
      is_valid_payload output
      && schema_matches (schema_of endpoint.output_schema) (schema_of output.schema)

  unfoldable pub validate_input : CapabilityEndpointContract → Payload → Bool
  validate_input endpoint input =
      if not (schema_matches (schema_of endpoint.input_schema) (schema_of input.schema))
      then false
      else is_valid_payload input && leb (length input.value) endpoint.limits.maximum_request_bytes

  -- What becomes of a handler's result before it is sent.
  unfoldable pub check_unary_result : CapabilityEndpointContract → Bool → UnaryResult → UnaryResult
  check_unary_result endpoint cancelled result =
      if result.succeeded && (has_error result.error || not (output_matches endpoint result.output))
      then unary_failure ErrorClass.permanent (text "invalid-handler-result")
          (text "unary handler returned a malformed success result")
      else if not result.succeeded
          && (has_payload result.output || not (is_typed_error result.error))
      then unary_failure ErrorClass.permanent (text "invalid-handler-result")
          (text "unary handler returned a malformed failure result")
      else if result.succeeded
          && ltb endpoint.limits.maximum_response_bytes (length result.output.value)
      then unary_failure ErrorClass.resource_exhausted (text "response-too-large")
          (text "unary output exceeds its contract limit")
      else if cancelled && result.succeeded
      then unary_failure ErrorClass.cancelled (text "cancelled") (text "unary work was cancelled")
      else result

  abbrev pub is_succeeded : OperationPhase → Bool
  is_succeeded OperationPhase.succeeded = true
  is_succeeded _ = false

  unfoldable pub malformed_operation : CapabilityEndpointContract → OperationResult → Bool
  malformed_operation endpoint result =
      not (is_terminal result.phase)
      || (is_succeeded result.phase
          && (has_error result.error
              || (result.has_output && not (output_matches endpoint result.output))
              || (not result.has_output && has_payload result.output)))
      || (not (is_succeeded result.phase)
          && (result.has_output
              || has_payload result.output
              || not (is_typed_error result.error)
              || not (error_matches_operation_phase result.phase result.error.class)))

  unfoldable pub check_operation_result :
      CapabilityEndpointContract → OperationResult → OperationResult
  unfolding malformed_operation
  check_operation_result endpoint result =
      if malformed_operation endpoint result
      then operation_failure ErrorClass.permanent (text "invalid-handler-result")
          (text "operation handler returned a malformed terminal result")
      else if result.has_output
          && ltb endpoint.limits.maximum_response_bytes (length result.output.value)
      then operation_failure ErrorClass.resource_exhausted (text "response-too-large")
          (text "operation output exceeds its contract limit")
      else result

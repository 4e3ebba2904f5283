-- ===== src/SourceAdmission.antt =====
-- src/dispatch.cpp: the admission of source opens, `EnqueueSourceOpen`.
use xgc2_adapter_runtime_cli.Base.{
  ℕ, ◌+◌, ◌-◌, Bool, false, not, ◌&&◌, ◌||◌, Bytes, text, same, length, is_empty, Option, none,
  some, is_some, value_or, [], ◌∷◌, ◌++◌, find, insert, size, leb, ltb, ◌==◌, if◌then◌else◌, add64,
  sub64, u64_max,
}
use xgc2_adapter_runtime_cli.Base.Int.{ℤ}
use xgc2_adapter_runtime_cli.Message.{Environment}
use xgc2_adapter_runtime_cli.Message.Errors.{ErrorClass, AdapterError}
use xgc2_adapter_runtime_cli.Message.Work.{WorkFrame, SourceOpenRequest}
use xgc2_adapter_runtime_cli.Text.{make_error}
use xgc2_adapter_runtime_cli.State.{
  DispatchKind, DispatchJob, Request, Phase, SourceState, ClosedSourceState, Impl,
}
use xgc2_adapter_runtime_cli.Queue.{fits_byte_budget}
use xgc2_adapter_runtime_cli.Signal.{signal_current_session_failure, queue_work_protocol_error}
use xgc2_adapter_runtime_cli.Endpoint.{ActiveEndpoint, binding_at, count_streams}
use xgc2_adapter_runtime_cli.Replay.{canonical_sha256_text_bytes}
use xgc2_adapter_runtime_cli.Source.{commit_source_terminal_locked}
use xgc2_adapter_runtime_cli.Admission.{
  is_source_work, fresh_cancellation, received_context, make_job, queue_work_or_signal,
}
use xgc2_adapter_runtime_cli.Frames.{source_open_rejected}
use xgc2_adapter_runtime_cli.Opening.{credit_of}
use xgc2_adapter_runtime_cli.Validate.{Validation, validate_work_context_locked}

pub data SourceDecision : Type 0 where
  identity_violation retire_pair : SourceDecision
  replay_immediate : WorkFrame → SourceDecision
  reject_source : AdapterError → SourceDecision
  open_source : ActiveEndpoint → SourceDecision

-- The bytes that a source counts for; `none` where they overflow `size_t`.
unfoldable pub source_accounting : DispatchJob → Impl → Option ℕ
source_accounting job s =
    let metadata = canonical_sha256_text_bytes + length job.fingerprint in
    let framed = metadata + s.maximum_work_frame_bytes in
    if ltb (u64_max - canonical_sha256_text_bytes) (length job.fingerprint)
      || ltb (u64_max - metadata) s.maximum_work_frame_bytes
      || ltb (u64_max - framed) job.accounted_bytes
    then none
    else some (job.accounted_bytes + framed)

-- Room for one more identity and its bytes.
unfoldable pub source_room : DispatchJob → Impl → Bool
source_room job s = elim (source_accounting job s) [
  | none ↦ false
  | some bytes ↦ fits_byte_budget s.source_state_bytes bytes s.config.maximum_source_state_bytes
]

abbrev pub has_source_identity : Impl → Bool
has_source_identity s =
    leb s.config.maximum_source_tombstones (size s.source_streams + size s.closed_sources)

abbrev pub has_open_handler : Impl → ℕ → Bool
has_open_handler s index = elim (binding_at s index) [
  | none ↦ false
  | some b ↦ b.callbacks.source_open
]

abbrev rejecting : ErrorClass → Bytes → Bytes → SourceDecision
rejecting class code message = SourceDecision.reject_source (make_error class code message)

-- The bounds, once the request is valid.
unfoldable pub bound_source :
    DispatchJob → SourceOpenRequest → ActiveEndpoint → Impl → SourceDecision
bound_source job request active s =
    if not (has_open_handler s active.binding_index)
    then rejecting ErrorClass.rejected (text "handler-not-bound")
        (text "source endpoint has no bound open handler")
    else if has_source_identity s
    then SourceDecision.retire_pair
    else if leb s.config.maximum_source_streams (size s.source_streams)
    then rejecting ErrorClass.resource_exhausted (text "source-stream-limit")
        (text "global source stream limit is exhausted")
    else if ltb 0 active.endpoint.limits.maximum_streams
        && leb active.endpoint.limits.maximum_streams (
            count_streams request.context.capability_id request.context.endpoint_id
              s.source_streams)
    then rejecting ErrorClass.resource_exhausted (text "endpoint-stream-limit")
        (text "endpoint source stream limit is exhausted")
    else if leb s.config.maximum_dispatch_queue (length s.dispatch_queue)
    then rejecting ErrorClass.resource_exhausted (text "dispatch-queue-full")
        (text "bounded dispatch queue is full")
    else if not (
        fits_byte_budget s.dispatch_queue_bytes job.accounted_bytes
          s.config.maximum_dispatch_queue_bytes)
    then rejecting ErrorClass.resource_exhausted (text "dispatch-byte-budget")
        (text "dispatch byte budget is exhausted")
    else if not (source_room job s)
    then SourceDecision.retire_pair
    else SourceDecision.open_source active

unfoldable pub decide_context : DispatchJob → SourceOpenRequest → ℤ → Impl → SourceDecision
decide_context job request now s =
    let checked : SourceDecision =
      elim (validate_work_context_locked request.context DispatchKind.source_open now s) [
        | Validation.invalid reason ↦
            rejecting ErrorClass.rejected (text "invalid-work-context") reason
        | Validation.valid active ↦ bound_source job request active s
      ] in
    if is_empty request.context.capability_id || is_empty request.context.endpoint_id
    then rejecting ErrorClass.rejected (text "invalid-source-open")
        (text "source stream and WorkContext identity must not be empty")
    else if (credit_of request).messages == 0 || (credit_of request).bytes == 0
    then rejecting ErrorClass.rejected (text "invalid-initial-credit")
        (text "source open requires positive message and byte credit")
    else checked

unfoldable pub reopen : DispatchJob → ClosedSourceState → SourceDecision
reopen job closed =
    if same closed.fingerprint job.fingerprint && not (is_empty closed.terminal_digest)
    then SourceDecision.replay_immediate closed.terminal_frame
    else SourceDecision.identity_violation

unfoldable pub decide_source : DispatchJob → SourceOpenRequest → ℤ → Impl → SourceDecision
unfolding reopen
decide_source job request now s =
    let known : SourceDecision = elim (find job.work_id s.closed_sources) [
      | some closed ↦ reopen job closed
      | none ↦
          if is_some (find job.work_id s.source_streams)
            || is_some (find job.work_id s.work_tokens)
            || is_some (find job.work_id s.replay)
            || is_source_work job.work_id s.source_streams
          then SourceDecision.identity_violation
          else decide_context job request now s
    ] in
    if is_empty job.work_id then SourceDecision.identity_violation else known

-- The new stream and its job.
unfoldable pub opened : DispatchJob → SourceOpenRequest → ActiveEndpoint → ℕ → Impl → Impl
opened job request active bytes s = record (fresh_cancellation s) {
  source_streams =
      insert job.work_id
        (record {
          request = request;
          binding_index = active.binding_index;
          cancellation = s.next_cancellation;
          phase = Phase.opening;
          connection_epoch = s.connection_epoch_counter;
          message_credit = 0;
          byte_credit = 0;
          sequence = 0;
          acknowledged_sequence = 0;
          maximum_chunk_bytes = active.endpoint.limits.maximum_stream_chunk_bytes;
          maximum_chunk_messages = active.endpoint.limits.maximum_stream_chunk_messages;
          accounted_bytes = bytes;
        })
        s.source_streams;
  source_state_bytes = add64 s.source_state_bytes bytes;
  dispatch_queue_bytes = add64 s.dispatch_queue_bytes job.accounted_bytes;
  dispatch_queue =
      s.dispatch_queue
      ++ record job {
        cancellation = some s.next_cancellation;
        connection_epoch = s.connection_epoch_counter;
      }
        ∷ [];
}

-- The state of a source that is rejected at once.
unfoldable pub rejected_source : SourceOpenRequest → ℕ → Impl → SourceState
rejected_source request bytes s = record {
  request = request;
  binding_index = 0;
  cancellation = s.next_cancellation;
  phase = Phase.opening;
  connection_epoch = s.connection_epoch_counter;
  message_credit = 0;
  byte_credit = 0;
  sequence = 0;
  acknowledged_sequence = 0;
  maximum_chunk_bytes = 0;
  maximum_chunk_messages = 0;
  accounted_bytes = bytes;
}

-- What is left to do after the lock: nothing, a protocol error, a retirement, a replayed frame.
pub data Rest : Type 0 where
  nothing violation retire : Rest
  resend : WorkFrame → Rest

module _ ⦃w : Environment⦄ where
  -- A rejection leaves a tombstone, or the pair goes.
  unfoldable pub reject_locked : DispatchJob → SourceOpenRequest → AdapterError → Impl → Rest × Impl
  unfolding rejected_source
  reject_locked job request error s =
      let bytes = value_or (source_accounting job s) u64_max in
      let s1 = record (fresh_cancellation s) {
        source_state_bytes = add64 s.source_state_bytes bytes;
      } in
      let (committed, s2) =
        commit_source_terminal_locked job.work_id (rejected_source request bytes s)
          (source_open_rejected job.work_id error) s1 in
      if has_source_identity s || not (source_room job s)
      then (Rest.retire, s)
      else if committed
      then (Rest.nothing, s2)
      else (Rest.retire, record s2 { source_state_bytes = sub64 s2.source_state_bytes bytes })

  abbrev pub count_rejected : Impl → Impl
  count_rejected s = record s { rejected_dispatches = add64 s.rejected_dispatches 1 }

  unfoldable pub apply_source_decision :
      DispatchJob → SourceOpenRequest → SourceDecision → Impl → Rest × Impl
  unfolding opened
  apply_source_decision job request SourceDecision.identity_violation s =
      (Rest.violation, count_rejected s)
  apply_source_decision job request SourceDecision.retire_pair s = (Rest.retire, s)
  apply_source_decision job request (SourceDecision.replay_immediate frame) s =
      (Rest.resend frame, s)
  apply_source_decision job request (SourceDecision.reject_source error) s =
      reject_locked job request error (count_rejected s)
  apply_source_decision job request (SourceDecision.open_source active) s =
      (Rest.nothing, opened job request active (value_or (source_accounting job s) u64_max) s)

  unfoldable pub conclude_source : ℕ → Rest → Impl → Impl
  conclude_source frame_sequence Rest.nothing s = s
  conclude_source frame_sequence Rest.violation s =
      queue_work_protocol_error frame_sequence
        (text "SourceOpenRequest must use one exact, unused context.work_id identity") s
  conclude_source frame_sequence Rest.retire s =
      signal_current_session_failure
        (text "source identity or byte budget requires connection-pair retirement") s
  conclude_source frame_sequence (Rest.resend frame) s =
      queue_work_or_signal frame (text "Work queue rejected SourceOpenResult") s

  unfoldable pub enqueue_source_open : SourceOpenRequest → ℕ → ℤ → Impl → Impl
  unfolding apply_source_decision conclude_source
  enqueue_source_open request frame_sequence now s =
      let received = record request { context = received_context request.context now } in
      let job = make_job (Request.source_open received) frame_sequence in
      let (rest, s') = apply_source_decision job received (decide_source job received now s) s in
      conclude_source frame_sequence rest s'

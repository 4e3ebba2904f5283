-- ===== src/Cancel.antt =====
-- src/stream.cpp: `HandleCancellation`.
use xgc2_adapter_runtime_cli.Base.{
  ℕ, not, Bytes, text, length, is_empty, Option, none, some, find, erase, leb, ◌==◌, if◌then◌else◌,
  add64,
}
use xgc2_adapter_runtime_cli.Message.{Environment}
use xgc2_adapter_runtime_cli.Message.Errors.{ErrorClass, AdapterError}
use xgc2_adapter_runtime_cli.Message.Work.{Identity, WorkCancellation}
use xgc2_adapter_runtime_cli.Text.{is_canonical_text, make_error}
use xgc2_adapter_runtime_cli.State.{SourceState, ClosedSourceState, Impl, is_open}
use xgc2_adapter_runtime_cli.Signal.{
  request_cancellation, signal_current_session_failure, queue_work_protocol_error,
}
use xgc2_adapter_runtime_cli.Source.{
  close_frame, commit_source_terminal_locked, notify_source_closed,
}

-- What is left to do after the lock.
pub data Outcome : Type 0 where
  finished fail_pair : Outcome
  protocol_error : Bytes → Outcome
  notify_source : SourceState → Outcome

abbrev pub request : ℕ → Impl → Impl
request c s = record s { requested = request_cancellation c s.requested }

unfoldable pub cancel_work : Bytes → Impl → Outcome × Impl
cancel_work work_id s =
    let found : Outcome × Impl = elim (find work_id s.work_tokens) [
      | none ↦ (Outcome.finished, s)
      | some token ↦ (Outcome.finished, request token.cancellation s)
    ] in
    if is_empty work_id
    then (Outcome.protocol_error (text "WorkCancellation work_id must not be empty"), s)
    else found

unfoldable pub cancel_closed : Option ClosedSourceState → Impl → Outcome × Impl
cancel_closed none s =
    (Outcome.protocol_error (text "WorkCancellation references an unknown source stream"), s)
cancel_closed (some closed) s =
    if closed.connection_epoch == s.connection_epoch_counter
    then (Outcome.finished, s)
    else (Outcome.protocol_error (text "WorkCancellation references an unknown source stream"), s)

module _ ⦃w : Environment⦄ where
  -- An open stream gets its `SourceClose`, an opening one is only marked.
  unfoldable pub cancel_stream : Bytes → AdapterError → SourceState → Impl → Outcome × Impl
  cancel_stream stream_id error stream s =
      let s1 = request stream.cancellation s in
      let (committed, s2) =
        commit_source_terminal_locked stream_id stream (close_frame stream_id stream (some error))
          s1 in
      if not (stream.connection_epoch == s.connection_epoch_counter)
      then (Outcome.protocol_error (text "WorkCancellation references a stale source stream"), s)
      else if not (is_open stream.phase)
      then (Outcome.finished, s1)
      else if leb s.config.maximum_work_queue (length s.work_queue)
      then (
        Outcome.fail_pair,
        record s1 { dropped_outbound_frames = add64 s.dropped_outbound_frames 1 },
      )
      else if committed
      then (
        Outcome.notify_source stream,
        record s2 { source_streams = erase stream_id s2.source_streams },
      )
      else (Outcome.fail_pair, s2)

  unfoldable pub cancel_identity : Identity → AdapterError → Impl → Outcome × Impl
  cancel_identity Identity.not_set error s = (
    Outcome.protocol_error (text "WorkCancellation must identify exactly one work_id or stream_id"),
    s,
  )
  cancel_identity (Identity.work_id work_id) error s = cancel_work work_id s
  cancel_identity (Identity.stream_id stream_id) error s =
      let known : Outcome × Impl = elim (find stream_id s.source_streams) [
        | none ↦ cancel_closed (find stream_id s.closed_sources) s
        | some stream ↦ cancel_stream stream_id error stream s
      ] in
      if is_empty stream_id
      then (Outcome.protocol_error (text "WorkCancellation stream_id must not be empty"), s)
      else known

  unfoldable pub conclude : ℕ → AdapterError → Outcome × Impl → Impl
  conclude frame_sequence error (Outcome.finished, s) = s
  conclude frame_sequence error (Outcome.protocol_error message, s) =
      queue_work_protocol_error frame_sequence message s
  conclude frame_sequence error (Outcome.fail_pair, s) =
      signal_current_session_failure
        (text "bounded Work queue could not acknowledge source cancellation") s
  conclude frame_sequence error (Outcome.notify_source stream, s) =
      notify_source_closed stream error s

  unfoldable pub handle_cancellation : WorkCancellation → ℕ → Impl → Impl
  unfolding cancel_identity conclude
  handle_cancellation cancellation frame_sequence s =
      let reason =
        (if is_canonical_text cancellation.reason
          then cancellation.reason
          else text "Host cancelled Work") in
      let error = make_error ErrorClass.cancelled (text "peer-cancelled") reason in
      conclude frame_sequence error (cancel_identity cancellation.identity error s)

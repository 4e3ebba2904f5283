-- ===== src/Opening.antt =====
-- src/source_dispatch.cpp: `HandleSourceOpen`, from the decision of the application on.
use xgc2_adapter_runtime_cli.Base.{
  Bool, true, false, not, ◌||◌, Bytes, text, length, none, some, value_or, find, insert, erase, leb,
  ◌==◌, if◌then◌else◌, add64,
}
use xgc2_adapter_runtime_cli.Message.{Environment}
use xgc2_adapter_runtime_cli.Message.Errors.{ErrorClass, AdapterError}
use xgc2_adapter_runtime_cli.Message.Work.{WorkFrame, SourceOpenRequest, Credit}
use xgc2_adapter_runtime_cli.State.{DispatchJob, Phase, SourceState, Impl}
use xgc2_adapter_runtime_cli.Queue.{queue_work_locked}
use xgc2_adapter_runtime_cli.Signal.{signal_current_session_failure}
use xgc2_adapter_runtime_cli.Replay.{points_to}
use xgc2_adapter_runtime_cli.Source.{
  commit_source_terminal_locked, notify_source_closed, work_frame_fits_locked,
}
use xgc2_adapter_runtime_cli.Frames.{SourceOpenDecision, source_reject}
use xgc2_adapter_runtime_cli.Handlers.{
  Callback, settle, is_cancelled, endpoint_at, check_source_decision,
}

pub data OpenOutcome : Type 0 where
  finished fail_pair : OpenOutcome
  notify_source : SourceState → OpenOutcome

-- The initial credit of a request: an unset message reads as zeros.
abbrev pub credit_of : SourceOpenRequest → Credit
credit_of request = value_or request.initial_credit (record { messages = 0; bytes = 0 })

unfoldable pub open_result_frame : Bytes → SourceOpenDecision → WorkFrame
open_result_frame work_id decision = WorkFrame.source_open_result (record {
  stream_id = work_id;
  accepted = decision.accepted;
  initial_payload =
      if decision.accepted
      then (if decision.has_initial_payload then some decision.initial_payload else none)
      else none;
  error = if decision.accepted then none else some decision.error;
})

-- The stream opens with the credit of its request.
abbrev pub open_stream : Bytes → SourceState → Credit → Impl → Impl
open_stream work_id source credit s = record s {
  source_streams =
      insert work_id
        (record source {
          phase = Phase.open_;
          message_credit = credit.messages;
          byte_credit = credit.bytes;
        })
        s.source_streams;
}

abbrev is_cancellation : ErrorClass → Bool
is_cancellation ErrorClass.cancelled = true
is_cancellation _ = false

module _ ⦃w : Environment⦄ where
  unfoldable pub answer_accepted :
      DispatchJob → SourceOpenRequest → SourceState → WorkFrame → Impl → OpenOutcome × Impl
  answer_accepted job request source frame s =
      let (queued, s') = queue_work_locked frame s in
      if not (work_frame_fits_locked frame s)
      then (OpenOutcome.fail_pair, s)
      else if not queued
      then (OpenOutcome.fail_pair, s')
      else (OpenOutcome.finished, open_stream job.work_id source (credit_of request) s')

  unfoldable pub answer_rejected :
      DispatchJob → AdapterError → SourceState → WorkFrame → Impl → OpenOutcome × Impl
  answer_rejected job error source frame s =
      let (committed, s') = commit_source_terminal_locked job.work_id source frame s in
      if not committed then (OpenOutcome.fail_pair, s') else (
        (if is_cancellation error.class
            then OpenOutcome.notify_source source
            else OpenOutcome.finished),
        record s' { source_streams = erase job.work_id s'.source_streams },
      )

  -- The last part under the lock: the stream may have gone while the application decided.
  unfoldable pub finish_source_open :
      DispatchJob → SourceOpenRequest → SourceOpenDecision → Impl → OpenOutcome × Impl
  unfolding answer_accepted answer_rejected
  finish_source_open job request decision s = elim (find job.work_id s.source_streams) [
    | none ↦ (OpenOutcome.finished, s)
    | some source ↦
        let frame = open_result_frame job.work_id decision in
        let accept = answer_accepted job request source frame s in
        let reject = answer_rejected job decision.error source frame s in
        if not (source.connection_epoch == job.connection_epoch)
          || not (points_to job.cancellation source.cancellation)
        then (OpenOutcome.finished, s)
        else if s.session_failed
            || s.stop_requested
            || not (s.connection_epoch_counter == job.connection_epoch)
        then (OpenOutcome.finished, s)
        else if leb s.config.maximum_work_queue (length s.work_queue)
        then (
          OpenOutcome.fail_pair,
          record s { dropped_outbound_frames = add64 s.dropped_outbound_frames 1 },
        )
        else if decision.accepted
        then accept
        else reject
  ]

  unfoldable pub conclude_open : AdapterError → OpenOutcome × Impl → Impl
  conclude_open error (OpenOutcome.finished, s) = s
  conclude_open error (OpenOutcome.fail_pair, s) =
      signal_current_session_failure (text "bounded Work queue could not send SourceOpenResult") s
  conclude_open error (OpenOutcome.notify_source source, s) = notify_source_closed source error s

  -- Under cancellation the application is not asked.
  unfoldable pub ask_application :
      (SourceOpenRequest → Callback SourceOpenDecision)
      → DispatchJob
      → SourceOpenRequest
      → Impl
      → SourceOpenDecision × Impl
  ask_application callback job request s =
      let (outcome, s') = callback request s in
      if is_cancelled job s
      then (
        source_reject ErrorClass.cancelled (text "cancelled")
            (text "source open was cancelled before dispatch"),
        s,
      )
      else (
        settle
            (source_reject ErrorClass.permanent (text "handler-exception")
              (text "source open handler threw an exception"))
            (source_reject ErrorClass.permanent (text "handler-exception")
              (text "source open handler threw an unknown exception"))
            outcome,
        s',
      )

  unfoldable pub handle_source_open :
      (SourceOpenRequest → Callback SourceOpenDecision)
      → DispatchJob
      → SourceOpenRequest
      → Impl
      → Impl
  unfolding ask_application conclude_open
  handle_source_open callback job request s = elim (find job.work_id s.source_streams) [
    | none ↦ s
    | some initial ↦
        let (answer, s') = ask_application callback job request s in
        let decision =
          check_source_decision (endpoint_at s initial.binding_index request.context.endpoint_id)
            (is_cancelled job s') answer in
        if not (initial.connection_epoch == job.connection_epoch)
        then s
        else conclude_open decision.error (finish_source_open job request decision s')
  ]

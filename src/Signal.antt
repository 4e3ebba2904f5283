-- ===== src/Signal.antt =====
-- src/session.cpp, src/spec.cpp and src/stream.cpp: cancellation of all work, the failure signals,
-- and the protocol errors that the client sends. `TryCancel` on gRPC contexts is not modelled.
use xgc2_adapter_runtime_cli.Base.{
  ℕ, Bool, true, false, not, ◌||◌, Bytes, text, same, is_empty, any, ◌==◌, if◌then◌else◌,
}
use xgc2_adapter_runtime_cli.Message.{Environment}
use xgc2_adapter_runtime_cli.Message.Errors.{ErrorClass}
use xgc2_adapter_runtime_cli.Message.Work.{WorkFrame}
use xgc2_adapter_runtime_cli.Text.{make_error}
use xgc2_adapter_runtime_cli.State.{ClientState, Impl}
use xgc2_adapter_runtime_cli.Queue.{queue_work_locked}

-- requested.store(true) on one shared `CancellationState`.
abbrev pub request_cancellation : ℕ → (ℕ → Bool) → ℕ → Bool
request_cancellation c requested d = c == d || requested d

unfoldable pub is_active_cancellation : Impl → ℕ → Bool
unfolding any
is_active_cancellation s c =
    any (λ e. e.1.cancellation == c) s.work_tokens
    || any (λ e. e.1.cancellation == c) s.source_streams

unfoldable pub cancel_all_work_locked : Impl → Impl
cancel_all_work_locked s = record s { requested = λ c. is_active_cancellation s c || s.requested c }

unfoldable pub signal_session_failure : Bytes → Bytes → Impl → Impl
signal_session_failure expected_session reason s =
    if not (same s.session_id expected_session) || s.stop_requested || s.session_failed
    then s
    else record (cancel_all_work_locked s) {
      session_failed = true;
      accepting_work = false;
      state = ClientState.reconnecting;
      last_error = reason;
    }

unfoldable pub signal_current_session_failure : Bytes → Impl → Impl
signal_current_session_failure reason s =
    if is_empty s.session_id then s else signal_session_failure s.session_id reason s

unfoldable pub signal_terminal_session_failure : Bytes → Bytes → Impl → Impl
signal_terminal_session_failure expected_session reason s =
    if not (same s.session_id expected_session) || s.stop_requested
    then s
    else record (cancel_all_work_locked s) {
      terminal_session_failure = true;
      terminal_session_error = reason;
      session_failed = true;
      accepting_work = false;
      last_error = reason;
    }

module _ ⦃w : Environment⦄ where
  unfoldable pub queue_work_or_fail : WorkFrame → Impl → Impl
  queue_work_or_fail frame s =
      let (queued, s') = queue_work_locked frame s in
      if queued
      then s'
      else signal_current_session_failure (text "bounded outbound Work queue overflowed") s'

  unfoldable pub queue_work_protocol_error : ℕ → Bytes → Impl → Impl
  queue_work_protocol_error rejected_sequence message = queue_work_or_fail (
      WorkFrame.protocol_error (record {
        rejected_frame_sequence = rejected_sequence;
        error = make_error ErrorClass.rejected (text "invalid-work-frame") message;
      }))

-- ===== src/Budget/Cancellations.antt =====
-- src/stream.cpp: `HandleCancellation` keeps all accounts.
use xgc2_adapter_runtime_cli.Base.{
  ℕ, ◌≡◌, not, Bytes, length, is_empty, Option, none, some, find, leb, ◌==◌, erase, if◌then◌else◌,
  if_both, option_cases,
}
use xgc2_adapter_runtime_cli.Message.{Environment}
use xgc2_adapter_runtime_cli.Message.Errors.{AdapterError}
use xgc2_adapter_runtime_cli.Message.Work.{Identity, WorkCancellation}
use xgc2_adapter_runtime_cli.State.{SourceState, ClosedSourceState, Impl, is_open}
use xgc2_adapter_runtime_cli.Cancel.{
  Outcome, request, cancel_work, cancel_closed, cancel_stream, cancel_identity, conclude,
  handle_cancellation,
}
use xgc2_adapter_runtime_cli.Source.{close_frame}
use xgc2_adapter_runtime_cli.Application.Rely.{IsKept, keeps_notified}
use xgc2_adapter_runtime_cli.Budget.{InBudget, InBudgetAfter}
use xgc2_adapter_runtime_cli.Budget.Queues.{
  queue_work_protocol_error-InBudget, signal_current_session_failure-InBudget,
}
use xgc2_adapter_runtime_cli.Budget.Streams.{commit_source_cases, closed-InBudget}

cancel_closed-InBudget :
    (c : Option ClosedSourceState) (s : Impl) → InBudget s → InBudgetAfter (cancel_closed c s)
unfolding cancel_closed
cancel_closed-InBudget none s b = b
cancel_closed-InBudget (some closed) s b =
    if_both (InBudgetAfter {A = Outcome}) (closed.connection_epoch == s.connection_epoch_counter) b
      b

module _ ⦃w : Environment⦄ where
  cancel_stream-InBudget :
      (id : Bytes) (error : AdapterError) (stream : SourceState) (s : Impl)
      → find id s.source_streams ≡ some stream
      → InBudget s
      → InBudgetAfter (cancel_stream id error stream s)
  unfolding cancel_stream
  cancel_stream-InBudget id error stream s e b =
      if_both (InBudgetAfter {A = Outcome})
        (not (stream.connection_epoch == s.connection_epoch_counter)) b
        (if_both (InBudgetAfter {A = Outcome}) (not (is_open stream.phase)) b (
          if_both (InBudgetAfter {A = Outcome})
            (leb s.config.maximum_work_queue (length s.work_queue)) b
            (commit_source_cases
              (λ r. InBudgetAfter {A = Outcome} (
                if r.0
                then (
                  Outcome.notify_source stream,
                  record r.1 { source_streams = erase id r.1.source_streams },
                )
                else (Outcome.fail_pair, r.1)))
              id stream (close_frame id stream (some error)) (request stream.cancellation s)
              (λ n. b)
              (λ digest room.
                closed-InBudget id stream (close_frame id stream (some error)) digest
                  (request stream.cancellation s) b e room))))

  cancel_identity-InBudget :
      (identity : Identity) (error : AdapterError) (s : Impl)
      → InBudget s
      → InBudgetAfter (cancel_identity identity error s)
  unfolding cancel_identity cancel_work
  cancel_identity-InBudget Identity.not_set error s b = b
  cancel_identity-InBudget (Identity.work_id id) error s b =
      if_both (InBudgetAfter {A = Outcome}) (is_empty id) b
        (option_cases (InBudgetAfter {A = Outcome}) (find id s.work_tokens) (λ _. b) (λ token _. b))
  cancel_identity-InBudget (Identity.stream_id id) error s b =
      if_both (InBudgetAfter {A = Outcome}) (is_empty id) b (
        option_cases (InBudgetAfter {A = Outcome}) (find id s.source_streams)
          (λ _. cancel_closed-InBudget (find id s.closed_sources) s b)
          (λ stream e. cancel_stream-InBudget id error stream s e b))

  conclude-InBudget :
      (sequence : ℕ) (error : AdapterError) (outcome : Outcome × Impl)
      → IsKept InBudget
      → InBudgetAfter outcome
      → InBudget (conclude sequence error outcome)
  unfolding conclude
  conclude-InBudget sequence error (Outcome.finished, s) keeps b = b
  conclude-InBudget sequence error (Outcome.protocol_error message, s) keeps b =
      queue_work_protocol_error-InBudget sequence message s b
  conclude-InBudget sequence error (Outcome.fail_pair, s) keeps b =
      signal_current_session_failure-InBudget _ s b
  conclude-InBudget sequence error (Outcome.notify_source stream, s) keeps b =
      keeps_notified InBudget keeps (λ calls t c. c) stream error s b

  pub handle_cancellation-InBudget :
      (cancellation : WorkCancellation) (sequence : ℕ) (s : Impl)
      → IsKept InBudget
      → InBudget s
      → InBudget (handle_cancellation cancellation sequence s)
  unfolding handle_cancellation
  handle_cancellation-InBudget cancellation sequence s keeps b =
      conclude-InBudget sequence _ (cancel_identity cancellation.identity _ s) keeps
        (cancel_identity-InBudget cancellation.identity _ s b)

-- ===== src/Budget/Steps.antt =====
-- Single messages of the Host and calls of the application.
use xgc2_adapter_runtime_cli.Base.{ℕ, Bytes, Option, List}
use xgc2_adapter_runtime_cli.Base.Int.{ℤ}
use xgc2_adapter_runtime_cli.Message.{Environment}
use xgc2_adapter_runtime_cli.Message.Errors.{AdapterError}
use xgc2_adapter_runtime_cli.Message.Work.{
  UnaryRequest, OperationRequest, SourceCredit, TerminalAcknowledgement, WorkCancellation,
}
use xgc2_adapter_runtime_cli.State.{Impl}
use xgc2_adapter_runtime_cli.Admission.{enqueue_unary, enqueue_operation}
use xgc2_adapter_runtime_cli.Source.{publish_source, close_source}
use xgc2_adapter_runtime_cli.Credit.{grant_source_credit}
use xgc2_adapter_runtime_cli.Acknowledge.{handle_terminal_acknowledgement}
use xgc2_adapter_runtime_cli.Cancel.{handle_cancellation}
use xgc2_adapter_runtime_cli.Drain.{begin_drain}
use xgc2_adapter_runtime_cli.Application.Rely.{IsKept}
use xgc2_adapter_runtime_cli.Budget.{InBudget}
use xgc2_adapter_runtime_cli.Budget.Streams.{publish_source-InBudget, close_source-InBudget}
use xgc2_adapter_runtime_cli.Budget.Messages.{
  grant_source_credit-InBudget, handle_terminal_acknowledgement-InBudget,
}
use xgc2_adapter_runtime_cli.Budget.Cancellations.{handle_cancellation-InBudget}
use xgc2_adapter_runtime_cli.Budget.Admissions.{enqueue_dispatch-InBudget, begin_drain-InBudget}

-- A message of the Host with its frame sequence, or a call of the application. The numbers of type ℤ
-- are what the clock returns.
pub data Event : Type 0 where
  unary : UnaryRequest → ℕ → ℤ → Event
  operation : OperationRequest → ℕ → ℤ → Event
  credit : SourceCredit → ℕ → Event
  acknowledge : TerminalAcknowledgement → ℕ → Event
  cancel : WorkCancellation → ℕ → Event
  publish : Bytes → List Bytes → Event
  close : Bytes → Option AdapterError → Event
  drain : Event

module _ ⦃w : Environment⦄ where
  unfoldable pub handle : Event → Impl → Impl
  handle (Event.unary request sequence now) s = enqueue_unary request sequence now s
  handle (Event.operation request sequence now) s = enqueue_operation request sequence now s
  handle (Event.credit c sequence) s = grant_source_credit c sequence s
  handle (Event.acknowledge a sequence) s = handle_terminal_acknowledgement a sequence s
  handle (Event.cancel c sequence) s = handle_cancellation c sequence s
  handle (Event.publish id items) s = (publish_source id items s).1
  handle (Event.close id error) s = (close_source id error s).1
  handle Event.drain s = begin_drain s

  pub handle-InBudget :
      (event : Event) (s : Impl) → IsKept InBudget → InBudget s → InBudget (handle event s)
  unfolding handle enqueue_unary enqueue_operation
  handle-InBudget (Event.unary request sequence now) s keeps b = enqueue_dispatch-InBudget _ now s b
  handle-InBudget (Event.operation request sequence now) s keeps b =
      enqueue_dispatch-InBudget _ now s b
  handle-InBudget (Event.credit c sequence) s keeps b = grant_source_credit-InBudget c sequence s b
  handle-InBudget (Event.acknowledge a sequence) s keeps b =
      handle_terminal_acknowledgement-InBudget a sequence s b
  handle-InBudget (Event.cancel c sequence) s keeps b =
      handle_cancellation-InBudget c sequence s keeps b
  handle-InBudget (Event.publish id items) s keeps b = publish_source-InBudget id items s b
  handle-InBudget (Event.close id error) s keeps b = close_source-InBudget id error s b
  handle-InBudget Event.drain s keeps b = begin_drain-InBudget s b

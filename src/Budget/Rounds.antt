-- ===== src/Budget/Rounds.antt =====
-- src/dispatch.cpp: the accounts in a round of a dispatch worker with unary or operation Work.
use xgc2_adapter_runtime_cli.Base.{
  ℕ, subst, ◌≡◌, refl, Bool, not, Bytes, none, some, List, [], ◌∷◌, if_both, option_cases, arith,
}
use xgc2_adapter_runtime_cli.Base.Int.{ℤ}
use xgc2_adapter_runtime_cli.Message.{Environment}
use xgc2_adapter_runtime_cli.Message.Work.{
  WorkFrame, UnaryRequest, OperationRequest, OperationPhase,
}
use xgc2_adapter_runtime_cli.Message.Spec.{CapabilityEndpointContract}
use xgc2_adapter_runtime_cli.State.{DispatchJob, Request, Impl, context_of, kind_of}
use xgc2_adapter_runtime_cli.Queue.{queue_work_locked}
use xgc2_adapter_runtime_cli.Signal.{signal_current_session_failure}
use xgc2_adapter_runtime_cli.Admission.{commit_or_fail}
use xgc2_adapter_runtime_cli.Replay.{TerminalCommitResult, commit_terminal_frame}
use xgc2_adapter_runtime_cli.Frames.{operation_frame, UnaryResult, OperationResult}
use xgc2_adapter_runtime_cli.Validate.{Validation, validate_input, validate_work_context_locked}
use xgc2_adapter_runtime_cli.Handlers.{
  Returned, Callback, commit_with_fallback, finish_unary, finish_operation, announce_operation,
  endpoint_at, is_cancelled, handle_unary, handle_operation,
}
use xgc2_adapter_runtime_cli.Worker.{
  take_job, enter_flight, erase_work_token, complete_cancelled_job, complete_invalid_job,
  finish_job, Application, run_handler, run_validated, run_work,
}
use xgc2_adapter_runtime_cli.Budget.{IsBounded, InBudget, InBudgetAfter}
use xgc2_adapter_runtime_cli.Budget.Queues.{
  IsBounded-pop, queue_work-InBudget, signal_current_session_failure-InBudget,
}
use xgc2_adapter_runtime_cli.Budget.Commit.{
  commit_terminal_frame-InBudget, release_work_token-InBudget,
}
use xgc2_adapter_runtime_cli.Budget.Admissions.{
  commit_or_fail-InBudget, maybe_queue_drain_status-InBudget,
}

take_job-InBudget :
    (jobs : List DispatchJob) (s : Impl) (job : DispatchJob) (s' : Impl)
    → s.dispatch_queue ≡ jobs
    → InBudget s
    → take_job jobs s ≡ some (job, s')
    → InBudget s'
unfolding take_job
take_job-InBudget [] s job s' e b h = ground arith
take_job-InBudget (j ∷ jobs) s job s' e (words, control, work, dispatch, replay, table) h =
    subst (λ o. InBudget (elim o [ none ↦ s | some r ↦ r.1 ])) h
      (
        words,
        control,
        work,
        IsBounded-pop (λ x. x.accounted_bytes) jobs j s.dispatch_queue_bytes
            s.config.maximum_dispatch_queue s.config.maximum_dispatch_queue_bytes
            (subst
              (λ q.
                IsBounded (λ x. x.accounted_bytes) q s.dispatch_queue_bytes
                  s.config.maximum_dispatch_queue s.config.maximum_dispatch_queue_bytes)
              e dispatch)
            words.dispatch,
        replay,
        table,
      )

module _ ⦃w : Environment⦄ where
  pub erase_work_token-InBudget :
      (id : Bytes) (s : Impl) → InBudget s → InBudget (erase_work_token id s)
  unfolding erase_work_token
  erase_work_token-InBudget id s b =
      maybe_queue_drain_status-InBudget _ (release_work_token-InBudget id s b)

  pub complete_cancelled_job-InBudget :
      (job : DispatchJob) (now : ℤ) (s : Impl)
      → InBudget s
      → InBudget (complete_cancelled_job job now s)
  unfolding complete_cancelled_job
  complete_cancelled_job-InBudget job now s b =
      erase_work_token-InBudget job.work_id _ (commit_or_fail-InBudget job _ _ s b)

  pub complete_invalid_job-InBudget :
      (job : DispatchJob) (reason : Bytes) (now : ℤ) (s : Impl)
      → InBudget s
      → InBudget (complete_invalid_job job reason now s)
  unfolding complete_invalid_job
  complete_invalid_job-InBudget job reason now s b =
      erase_work_token-InBudget job.work_id _ (commit_or_fail-InBudget job _ _ _ b)

  pub finish_job-InBudget :
      (job : DispatchJob) (s : Impl) → InBudget s → InBudget (finish_job job s)
  unfolding finish_job
  finish_job-InBudget job s b =
      maybe_queue_drain_status-InBudget _ (release_work_token-InBudget job.work_id _ b)

  fallback-InBudget :
      (job : DispatchJob) (fallback : WorkFrame) (reason : Bytes) (commit : TerminalCommitResult)
      (s : Impl)
      → InBudget s
      → InBudget (elim commit [
        | TerminalCommitResult.committed ↦ s
        | TerminalCommitResult.too_large ↦ commit_or_fail job fallback reason s
        | TerminalCommitResult.unavailable ↦ signal_current_session_failure reason s
      ])
  fallback-InBudget job fallback reason TerminalCommitResult.committed s b = b
  fallback-InBudget job fallback reason TerminalCommitResult.too_large s b =
      commit_or_fail-InBudget job fallback reason s b
  fallback-InBudget job fallback reason TerminalCommitResult.unavailable s b =
      signal_current_session_failure-InBudget reason s b

  pub commit_with_fallback-InBudget :
      (job : DispatchJob) (frame fallback : WorkFrame) (reason : Bytes) (s : Impl)
      → InBudget s
      → InBudget (commit_with_fallback job frame fallback reason s)
  unfolding commit_with_fallback
  commit_with_fallback-InBudget job frame fallback reason s b =
      fallback-InBudget job fallback reason (commit_terminal_frame job frame s).0
        (commit_terminal_frame job frame s).1 (commit_terminal_frame-InBudget job frame s b)

-- A callback during which the other threads keep the accounts.
abbrev pub KeepsBudget : {A : Type 0} → Callback A → Type 0
KeepsBudget callback = (s : Impl) → InBudget s → InBudget (callback s).1

-- The accounts, in a record: a goal on it is compared by the state that it is about.
record Kept (s : Impl) : Type 0 where
  kept : InBudget s

module _ ⦃w : Environment⦄ where
  finish_unary-InBudget :
      (endpoint : CapabilityEndpointContract) (job : DispatchJob) (outcome : Returned UnaryResult)
      (s : Impl)
      → InBudget s
      → InBudget (finish_unary endpoint job outcome s)
  unfolding finish_unary
  finish_unary-InBudget endpoint job outcome s b = commit_with_fallback-InBudget job _ _ _ s b

  handle_unary-InBudget :
      (callback : UnaryRequest → Callback UnaryResult) (job : DispatchJob) (request : UnaryRequest)
      (index : ℕ) (now : ℤ) (s : Impl)
      → KeepsBudget (callback request)
      → InBudget s
      → InBudget (handle_unary callback job request index now s)
  unfolding handle_unary
  handle_unary-InBudget callback job request index now s keeps b =
      let refused = commit_or_fail-InBudget job _ _ s b in
      let checked : Kept (handle_unary callback job request index now s) =
        option_cases Kept (endpoint_at s index request.context.endpoint_id)
          (λ _. record { kept = refused })
          (λ endpoint _.
            if_both Kept (not (validate_input endpoint request.input)) (record { kept = refused })
              (record { kept = finish_unary-InBudget endpoint job _ _ (keeps s b) })) in
      checked.kept

  announce_operation-InBudget :
      (id : Bytes) (now : ℤ) (s : Impl) → InBudget s → InBudget (announce_operation id now s).1
  unfolding announce_operation
  announce_operation-InBudget id now s b =
      let first = queue_work-InBudget (operation_frame id OperationPhase.accepted now) s b in
      if_both (InBudgetAfter {A = Bool})
        (queue_work_locked (operation_frame id OperationPhase.accepted now) s).0
        (queue_work-InBudget (operation_frame id OperationPhase.started now)
          (queue_work_locked (operation_frame id OperationPhase.accepted now) s).1 first)
        first

  handle_operation-InBudget :
      (callback : OperationRequest → Callback OperationResult) (job : DispatchJob)
      (request : OperationRequest) (index : ℕ) (now : ℤ) (s : Impl)
      → KeepsBudget (callback request)
      → InBudget s
      → InBudget (handle_operation callback job request index now s)
  unfolding handle_operation finish_operation
  handle_operation-InBudget callback job request index now s keeps b =
      let refused = commit_or_fail-InBudget job _ _ s b in
      let announced = announce_operation-InBudget job.work_id now s b in
      let checked : Kept (handle_operation callback job request index now s) =
        option_cases Kept (endpoint_at s index request.context.endpoint_id)
          (λ _. record { kept = refused })
          (λ endpoint _.
            if_both Kept (not (validate_input endpoint request.input)) (record { kept = refused })
              (if_both Kept (not (announce_operation job.work_id now s).0)
                (record { kept = signal_current_session_failure-InBudget _ _ announced })
                (record {
                  kept = commit_with_fallback-InBudget job _ _ _ _ (keeps _ announced);
                }))) in
      checked.kept

  -- The application's unary and operation callbacks.
  abbrev pub IsBudgeted : Application → Type 0
  IsBudgeted app =
      ((index : ℕ) (request : UnaryRequest) → KeepsBudget (app.unary index request))
      × ((index : ℕ) (request : OperationRequest) → KeepsBudget (app.operation index request))

  run_handler-InBudget :
      (app : Application) (job : DispatchJob) (request : Request) (index : ℕ) (now : ℤ) (s : Impl)
      → IsBudgeted app
      → InBudget s
      → InBudget (run_handler app job request index now s)
  unfolding run_handler
  run_handler-InBudget app job (Request.unary request) index now s (keeps, _) b =
      handle_unary-InBudget (app.unary index) job request index now s (keeps index request) b
  run_handler-InBudget app job (Request.operation request) index now s (_, keeps) b =
      handle_operation-InBudget (app.operation index) job request index now s (keeps index request)
        b
  run_handler-InBudget app job (Request.source_open request) index now s keeps b = b

  validated-InBudget :
      (app : Application) (job : DispatchJob) (validation : Validation) (now : ℤ) (s : Impl)
      → IsBudgeted app
      → InBudget s
      → InBudget (elim validation [
        | Validation.invalid reason ↦ complete_invalid_job job reason now s
        | Validation.valid active ↦
            finish_job job
              (run_handler app job job.request active.binding_index now (enter_flight s))
      ])
  validated-InBudget app job (Validation.invalid reason) now s keeps b =
      complete_invalid_job-InBudget job reason now s b
  validated-InBudget app job (Validation.valid active) now s keeps b =
      finish_job-InBudget job _
        (run_handler-InBudget app job job.request active.binding_index now (enter_flight s) keeps b)

  -- With callbacks during which the accounts are kept: from a state whose accounts are in order, a worker
  -- that takes the front of the dispatch queue and runs it as Work, with its cancellation, its validation,
  -- its handler and the commit of its terminal, leaves them in order.
  pub run_work-InBudget :
      (app : Application) (job : DispatchJob) (now : ℤ) (s s' : Impl)
      → IsBudgeted app
      → InBudget s
      → take_job s.dispatch_queue s ≡ some (job, s')
      → InBudget (run_work app job now s')
  unfolding run_work run_validated
  run_work-InBudget app job now s s' keeps b taken =
      let b' = take_job-InBudget s.dispatch_queue s job s' refl b taken in
      if_both InBudget (is_cancelled job s') (complete_cancelled_job-InBudget job now s' b') (
        validated-InBudget app job
          (validate_work_context_locked (context_of job.request) (kind_of job.request) now s') now
          s' keeps b')

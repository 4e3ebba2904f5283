-- ===== src/Worker.antt =====
-- src/dispatch.cpp: one round of `DispatchLoop`.
pub mod Draining
use xgc2_adapter_runtime_cli.Base.{
  ℕ, ◌-◌, Bool, true, false, ◌&&◌, Bytes, text, Option, none, some, List, [], ◌∷◌, find, ltb, ◌==◌,
  if◌then◌else◌, add64, sub64,
}
use xgc2_adapter_runtime_cli.Base.Int.{ℤ}
use xgc2_adapter_runtime_cli.Message.{Environment}
use xgc2_adapter_runtime_cli.Message.Errors.{ErrorClass}
use xgc2_adapter_runtime_cli.Message.Work.{UnaryRequest, OperationRequest, SourceOpenRequest}
use xgc2_adapter_runtime_cli.State.{DispatchJob, Request, SourceState, Impl, kind_of, context_of}
use xgc2_adapter_runtime_cli.Replay.{release_work_token_locked, points_to}
use xgc2_adapter_runtime_cli.Drain.{maybe_queue_drain_status_locked}
use xgc2_adapter_runtime_cli.Admission.{commit_or_fail}
use xgc2_adapter_runtime_cli.Frames.{
  rejected_dispatch, UnaryResult, OperationResult, SourceOpenDecision,
}
use xgc2_adapter_runtime_cli.Validate.{Validation, validate_work_context_locked}
use xgc2_adapter_runtime_cli.Handlers.{Callback, is_cancelled, handle_unary, handle_operation}
use xgc2_adapter_runtime_cli.Opening.{handle_source_open}

-- The callbacks of the application, for each binding.
pub record Application : Type 0 where
  pub unary : ℕ → UnaryRequest → Callback UnaryResult
  pub operation : ℕ → OperationRequest → Callback OperationResult
  pub source_open : ℕ → SourceOpenRequest → Callback SourceOpenDecision

-- The front of the queue, taken by a worker; `none` is an empty queue, at which the worker waits.
unfoldable pub take_job : List DispatchJob → Impl → Option (DispatchJob × Impl)
take_job [] s = none
take_job (job ∷ jobs) s = some (
  job,
  record s {
    dispatch_queue = jobs;
    dispatch_queue_bytes = sub64 s.dispatch_queue_bytes job.accounted_bytes;
    active_dispatch_jobs = add64 s.active_dispatch_jobs 1;
  },
)

abbrev pub retire_active : Impl → Impl
retire_active s = record s { active_dispatch_jobs = sub64 s.active_dispatch_jobs 1 }

abbrev pub enter_flight : Impl → Impl
enter_flight s = record s { in_flight_work = add64 s.in_flight_work 1 }

abbrev pub leave_flight : Impl → Impl
leave_flight s = record s {
  in_flight_work = if ltb 0 s.in_flight_work then s.in_flight_work - 1 else s.in_flight_work;
}

-- Whether the stream is still the one that the job was queued for.
unfoldable pub owns_stream : DispatchJob → Impl → Bool
unfolding points_to
owns_stream job s = elim (find job.work_id s.source_streams) [
  | none ↦ false
  | some source ↦
      source.connection_epoch == job.connection_epoch
      && points_to job.cancellation source.cancellation
]

module _ ⦃w : Environment⦄ where
  unfoldable pub erase_work_token : Bytes → Impl → Impl
  erase_work_token work_id s = maybe_queue_drain_status_locked (release_work_token_locked work_id s)

  unfoldable pub complete_cancelled_job : DispatchJob → ℤ → Impl → Impl
  complete_cancelled_job job now s = erase_work_token job.work_id (
      commit_or_fail job
        (rejected_dispatch (kind_of job.request) job.work_id (text "cancelled")
          (text "Work was cancelled before dispatch") ErrorClass.cancelled now)
        (text "bounded Work transport could not retain cancellation terminal") s)

  -- A job that is no longer valid: its rejection, and the end of its round.
  unfoldable pub complete_invalid_job : DispatchJob → Bytes → ℤ → Impl → Impl
  complete_invalid_job job reason now s = retire_active (
      erase_work_token job.work_id (
        commit_or_fail job
          (rejected_dispatch (kind_of job.request) job.work_id (text "invalid-work-context") reason
            ErrorClass.rejected now)
          (text "bounded Work transport could not retain context rejection")
          (record s { rejected_dispatches = add64 s.rejected_dispatches 1 })))

  -- The end of a round whose handler ran.
  unfoldable pub finish_job : DispatchJob → Impl → Impl
  finish_job job s =
      maybe_queue_drain_status_locked
        (release_work_token_locked job.work_id (retire_active (leave_flight s)))

  unfoldable pub run_source : Application → DispatchJob → SourceOpenRequest → Impl → Impl
  run_source app job request s =
      let index : ℕ = elim (find job.work_id s.source_streams) [
        | none ↦ 0
        | some x ↦ x.binding_index
      ] in
      let handled = handle_source_open (app.source_open index) job request (enter_flight s) in
      maybe_queue_drain_status_locked
        (if owns_stream job s then retire_active (leave_flight handled) else retire_active s)

  -- The handler of the job's kind.
  unfoldable pub run_handler : Application → DispatchJob → Request → ℕ → ℤ → Impl → Impl
  run_handler app job (Request.unary request) index now s =
      handle_unary (app.unary index) job request index now s
  run_handler app job (Request.operation request) index now s =
      handle_operation (app.operation index) job request index now s
  run_handler app job (Request.source_open request) index now s = s

  -- A unary or operation job, after the look at its cancellation.
  unfoldable pub run_validated : Application → DispatchJob → ℤ → Impl → Impl
  run_validated app job now s =
      elim (validate_work_context_locked (context_of job.request) (kind_of job.request) now s) [
        | Validation.invalid reason ↦ complete_invalid_job job reason now s
        | Validation.valid active ↦
            finish_job job
              (run_handler app job job.request active.binding_index now (enter_flight s))
      ]

  unfoldable pub run_work : Application → DispatchJob → ℤ → Impl → Impl
  run_work app job now s =
      if is_cancelled job s
      then retire_active (complete_cancelled_job job now s)
      else run_validated app job now s

  unfoldable pub run_job : Application → DispatchJob → Request → ℤ → Impl → Impl
  run_job app job (Request.source_open request) now s = run_source app job request s
  run_job app job _ now s = run_work app job now s

  unfoldable pub dispatch_round : Application → ℤ → Impl → Option Impl
  dispatch_round app now s = elim (take_job s.dispatch_queue s) [
    | none ↦ none
    | some (job, s') ↦ some (run_job app job job.request now s')
  ]

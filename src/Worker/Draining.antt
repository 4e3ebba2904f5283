-- ===== src/Worker/Draining.antt =====
-- src/dispatch.cpp: when the end of a drain is reported.
use xgc2_adapter_runtime_cli.Base.{
  ℕ, Option, none, some, ◌<◌, ◌≡◌, refl, not, ◌||◌, Bytes, is_empty, same, find, if_both, if_cases,
  option_cases, arith,
}
use xgc2_adapter_runtime_cli.Base.Int.{ℤ}
use xgc2_adapter_runtime_cli.Message.{Environment}
use xgc2_adapter_runtime_cli.Message.Work.{WorkFrame}
use xgc2_adapter_runtime_cli.State.{DispatchJob, Impl}
use xgc2_adapter_runtime_cli.Signal.{
  cancel_all_work_locked, signal_session_failure, signal_current_session_failure,
}
use xgc2_adapter_runtime_cli.Replay.{
  release_work_token_locked, remember_replay_locked, take_over, converts_reservation,
  commit_terminal_frame,
}
use xgc2_adapter_runtime_cli.Drain.{drain_waits, maybe_queue_drain_status_locked}
use xgc2_adapter_runtime_cli.Admission.{commit_or_fail, is_committed}
use xgc2_adapter_runtime_cli.Budget.Commit.{commit_terminal_cases, commit_entry_cases}
use xgc2_adapter_runtime_cli.Worker.{
  retire_active, erase_work_token, complete_cancelled_job, complete_invalid_job,
}

-- Neither the report nor the number of active jobs has changed.
record IsQuiet (s s' : Impl) : Type 0 where
  reported : s'.drain_reported ≡ s.drain_reported
  active : s'.active_dispatch_jobs ≡ s.active_dispatch_jobs

signal-IsQuiet :
    (reason : Bytes) (s s' : Impl)
    → IsQuiet s s'
    → IsQuiet s (signal_current_session_failure reason s')
unfolding signal_current_session_failure signal_session_failure cancel_all_work_locked
signal-IsQuiet reason s s' q = if_both (IsQuiet s) (is_empty s'.session_id) q (
    if_both (IsQuiet s)
      (not (same s'.session_id s'.session_id) || s'.stop_requested || s'.session_failed) q
      (record { reported = q.reported; active = q.active }))

take-IsQuiet : (c : Option ℕ) (id : Bytes) (s : Impl) → IsQuiet s (take_over c id s)
take-IsQuiet none id s = record { reported = refl; active = refl }
take-IsQuiet (some r) id s = record { reported = refl; active = refl }

module _ ⦃w : Environment⦄ where
  commit-IsQuiet :
      (job : DispatchJob) (frame : WorkFrame) (s : Impl)
      → IsQuiet s (commit_terminal_frame job frame s).1
  unfolding remember_replay_locked
  commit-IsQuiet job frame s =
      commit_terminal_cases (λ r. IsQuiet s r.1) job frame s
        (record { reported = refl; active = refl }) (λ n. record { reported = refl; active = refl })
        (λ entry _ _ _ _.
          commit_entry_cases (λ r. IsQuiet s r.1) job frame entry s
            (record { reported = refl; active = refl })
            (λ _ _ _. record {
              reported = (take-IsQuiet (converts_reservation job s) job.work_id s).reported;
              active = (take-IsQuiet (converts_reservation job s) job.work_id s).active;
            }))

  commit_or_fail-IsQuiet :
      (job : DispatchJob) (frame : WorkFrame) (reason : Bytes) (s : Impl)
      → IsQuiet s (commit_or_fail job frame reason s)
  unfolding commit_or_fail
  commit_or_fail-IsQuiet job frame reason s =
      if_both (IsQuiet s) (is_committed (commit_terminal_frame job frame s).0)
        (commit-IsQuiet job frame s)
        (signal-IsQuiet reason s (commit_terminal_frame job frame s).1 (commit-IsQuiet job frame s))

  release-IsQuiet :
      (id : Bytes) (s s' : Impl) → IsQuiet s s' → IsQuiet s (release_work_token_locked id s')
  unfolding release_work_token_locked
  release-IsQuiet id s s' q =
      option_cases (IsQuiet s) (find id s'.work_tokens) (λ _. q)
        (λ token _. record { reported = q.reported; active = q.active })

  erase-IsQuiet :
      (id : Bytes) (s s' : Impl)
      → 0 < s.active_dispatch_jobs
      → IsQuiet s s'
      → IsQuiet s (erase_work_token id s')
  unfolding erase_work_token maybe_queue_drain_status_locked
  erase-IsQuiet id s s' busy q =
      if_cases (IsQuiet s) (drain_waits (release_work_token_locked id s'))
        (λ _. release-IsQuiet id s s' q)
        (λ idle. ground (arith, (release-IsQuiet id s s' q).active))

  -- While a job is active, its rejection, for an invalid context or for a cancellation, leaves the flag of
  -- the drain report as it was, whatever is left to drain.
  pub complete_job-drain_reported :
      (job : DispatchJob) (reason : Bytes) (now : ℤ) (s : Impl)
      → 0 < s.active_dispatch_jobs
      → ((complete_invalid_job job reason now s).drain_reported ≡ s.drain_reported)
        × ((retire_active (complete_cancelled_job job now s)).drain_reported ≡ s.drain_reported)
  unfolding complete_invalid_job complete_cancelled_job
  complete_job-drain_reported job reason now s busy = (
    (erase-IsQuiet job.work_id _ _ busy (commit_or_fail-IsQuiet job _ _ _)).reported,
    (erase-IsQuiet job.work_id s _ busy (commit_or_fail-IsQuiet job _ _ s)).reported,
  )

-- ===== src/Budget/Admissions.antt =====
-- src/dispatch.cpp: `EnqueueDispatch`, and the drain of src/stream.cpp, keep all accounts.
use xgc2_adapter_runtime_cli.Base.{
  ◌+◌, ◌-◌, ◌≡◌, Bool, true, false, not, ◌||◌, Bytes, length, is_empty, is_some, Option, none, some,
  find, size, leb, ltb, if_both, if_cases, arith, add64, u64_max,
}
use xgc2_adapter_runtime_cli.Base.Int.{ℤ}
use xgc2_adapter_runtime_cli.Message.{Environment}
use xgc2_adapter_runtime_cli.Message.Work.{WorkFrame}
use xgc2_adapter_runtime_cli.State.{DispatchJob, Impl, is_ready, ReplayEntry}
use xgc2_adapter_runtime_cli.Queue.{fits_byte_budget, queue_control_locked}
use xgc2_adapter_runtime_cli.Replay.{canonical_sha256_text_bytes, reserve_terminal_replay_locked}
use xgc2_adapter_runtime_cli.Drain.{
  maybe_queue_drain_status_locked, begin_drain, drain_frame, drain_waits, report_drained,
}
use xgc2_adapter_runtime_cli.Signal.{cancel_all_work_locked}
use xgc2_adapter_runtime_cli.Admission.{
  Decision, is_source_work, admit_reserved, admit, admit_new, decide_retained, dispatch_decision,
  enqueue_locked, counts, carry_out, commit_or_fail, queue_work_or_signal, enqueue_dispatch,
}
use xgc2_adapter_runtime_cli.Budget.{InBudget, InBudgetAfter}
use xgc2_adapter_runtime_cli.Budget.Queues.{
  IsBounded-push, queue_work-InBudget, queue_work_protocol_error-InBudget, queue_control-InBudget,
  signal_current_session_failure-InBudget,
}
use xgc2_adapter_runtime_cli.Budget.Replay.{IsReplayTable-reserve}
use xgc2_adapter_runtime_cli.Budget.Commit.{commit_terminal_frame-InBudget}

-- The accounts, in a record: a goal on it is compared by what it is about.
record Kept (r : Decision × Impl) : Type 0 where
  kept : InBudget r.1

admit-InBudget :
    (job : DispatchJob) (s : Impl)
    → InBudget s
    → find job.work_id s.work_tokens ≡ none
    → leb s.config.maximum_dispatch_queue (length s.dispatch_queue) ≡ false
    → fits_byte_budget s.dispatch_queue_bytes job.accounted_bytes
        s.config.maximum_dispatch_queue_bytes
      ≡ true
    → Kept (admit job s)
unfolding admit admit_reserved reserve_terminal_replay_locked
admit-InBudget job s b absent room fits =
    let metadata = add64 (length job.fingerprint) canonical_sha256_text_bytes in
    let reservation = add64 s.maximum_work_frame_bytes metadata in
    let (words, control, work, dispatch, replay, table) = b in
    if_cases (λ o. Kept (admit_reserved o s))
      (is_empty job.work_id
        || leb s.config.maximum_terminal_replay (size s.replay + size s.work_tokens))
      (λ _. record { kept = b })
      (λ space.
        if_both (λ o. Kept (admit_reserved o s))
          (ltb (u64_max - metadata) s.maximum_work_frame_bytes) (record { kept = b })
          (if_cases (λ o. Kept (admit_reserved o s))
            (not (
              fits_byte_budget s.terminal_replay_bytes reservation
                s.config.maximum_terminal_replay_bytes))
            (λ _. record { kept = b })
            (λ enough. record {
              kept = (
                words,
                control,
                work,
                IsBounded-push (λ j. j.accounted_bytes) s.dispatch_queue
                    (record job {
                      cancellation = some s.next_cancellation;
                      terminal_reservation_bytes = reservation;
                    })
                    s.dispatch_queue_bytes s.config.maximum_dispatch_queue
                    s.config.maximum_dispatch_queue_bytes dispatch room fits words.dispatch,
                IsReplayTable-reserve s.replay s.work_tokens s.terminal_replay_bytes
                    s.config.maximum_terminal_replay s.config.maximum_terminal_replay_bytes
                    job.work_id
                    (record {
                      cancellation = s.next_cancellation;
                      terminal_reservation_bytes = reservation;
                    })
                    replay absent (ground arith) (ground arith) words.replay,
                table,
              );
            })))

admit_new-InBudget :
    (job : DispatchJob) (now : ℤ) (s : Impl) → InBudget s → Kept (admit_new job now s)
unfolding admit_new
admit_new-InBudget job now s b =
    if_both Kept (is_empty job.work_id) (record { kept = b })
      (if_both Kept (not s.accepting_work || not (is_ready s.state)) (record { kept = b })
        (if_cases Kept (is_some (find job.work_id s.work_tokens)) (λ _. record { kept = b })
          (λ absent.
            if_both Kept (is_source_work job.work_id s.source_streams) (record { kept = b })
              (if_cases Kept (leb s.config.maximum_dispatch_queue (length s.dispatch_queue))
                (λ _. record { kept = b })
                (λ room.
                  if_cases Kept
                    (not (
                      fits_byte_budget s.dispatch_queue_bytes job.accounted_bytes
                        s.config.maximum_dispatch_queue_bytes))
                    (λ _. record { kept = b })
                    (λ fits. admit-InBudget job s b (ground arith) room (ground arith)))))))

retained-InBudget :
    (job : DispatchJob) (now : ℤ) (c : Option ReplayEntry) (s : Impl)
    → InBudget s
    → Kept (decide_retained job now c s)
unfolding decide_retained
retained-InBudget job now none s b = admit_new-InBudget job now s b
retained-InBudget job now (some entry) s b = record { kept = b }

enqueue_locked-InBudget :
    (job : DispatchJob) (now : ℤ) (s : Impl) → InBudget s → InBudgetAfter (enqueue_locked job now s)
unfolding enqueue_locked dispatch_decision
enqueue_locked-InBudget job now s b =
    let decided : Kept (dispatch_decision job now s) =
      if_both Kept (is_empty job.work_id) (admit_new-InBudget job now s b)
        (retained-InBudget job now (find job.work_id s.replay) s b) in
    if_both InBudget (counts (dispatch_decision job now s).0) decided.kept decided.kept

report_drained-InBudget : (r : Bool × Impl) → InBudgetAfter r → InBudget (report_drained r)
unfolding report_drained cancel_all_work_locked
report_drained-InBudget (true, s) b = b
report_drained-InBudget (false, s) b = b

module _ ⦃w : Environment⦄ where
  pub commit_or_fail-InBudget :
      (job : DispatchJob) (frame : WorkFrame) (reason : Bytes) (s : Impl)
      → InBudget s
      → InBudget (commit_or_fail job frame reason s)
  unfolding commit_or_fail
  commit_or_fail-InBudget job frame reason s b =
      if_both InBudget _ (commit_terminal_frame-InBudget job frame s b) (
        signal_current_session_failure-InBudget reason _
          (commit_terminal_frame-InBudget job frame s b))

  pub queue_work_or_signal-InBudget :
      (frame : WorkFrame) (reason : Bytes) (s : Impl)
      → InBudget s
      → InBudget (queue_work_or_signal frame reason s)
  unfolding queue_work_or_signal
  queue_work_or_signal-InBudget frame reason s b =
      if_both InBudget _ (queue_work-InBudget frame s b)
        (signal_current_session_failure-InBudget reason _ (queue_work-InBudget frame s b))

  carry_out-InBudget :
      (job : DispatchJob) (decision : Decision) (s : Impl)
      → InBudget s
      → InBudget (carry_out job decision s)
  unfolding carry_out
  carry_out-InBudget job Decision.identity_violation s b =
      queue_work_protocol_error-InBudget _ _ s b
  carry_out-InBudget job Decision.retire_pair s b = signal_current_session_failure-InBudget _ s b
  carry_out-InBudget job (Decision.replay_immediate frame) s b =
      queue_work_or_signal-InBudget frame _ s b
  carry_out-InBudget job (Decision.reject_immediate frame) s b =
      commit_or_fail-InBudget job frame _ s b
  carry_out-InBudget job Decision.enqueued s b = b

  pub enqueue_dispatch-InBudget :
      (job : DispatchJob) (now : ℤ) (s : Impl) → InBudget s → InBudget (enqueue_dispatch job now s)
  unfolding enqueue_dispatch
  enqueue_dispatch-InBudget job now s b =
      carry_out-InBudget job _ _ (enqueue_locked-InBudget job now s b)

  pub maybe_queue_drain_status-InBudget :
      (s : Impl) → InBudget s → InBudget (maybe_queue_drain_status_locked s)
  unfolding maybe_queue_drain_status_locked
  maybe_queue_drain_status-InBudget s b = if_both InBudget (drain_waits s) b (
      report_drained-InBudget (queue_control_locked drain_frame s)
        (queue_control-InBudget drain_frame s b))

  pub begin_drain-InBudget : (s : Impl) → InBudget s → InBudget (begin_drain s)
  unfolding begin_drain
  begin_drain-InBudget s b = maybe_queue_drain_status-InBudget _ b

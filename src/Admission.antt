-- ===== src/Admission.antt =====
-- src/dispatch.cpp: the admission of unary and operation Work.
pub mod Redelivery
use xgc2_adapter_runtime_cli.Base.{
  ℕ, Bool, true, false, not, ◌&&◌, ◌||◌, Bytes, text, same, length, is_empty, any, Option, none,
  some, is_some, [], ◌∷◌, ◌++◌, Map, find, insert, leb, ◌==◌, if◌then◌else◌, add64,
}
use xgc2_adapter_runtime_cli.Base.Int.{ℤ}
use xgc2_adapter_runtime_cli.Message.{Environment}
use xgc2_adapter_runtime_cli.Message.Errors.{ErrorClass}
use xgc2_adapter_runtime_cli.Message.Work.{
  WorkFrame, WorkContext, UnaryRequest, OperationRequest, SourceOpenRequest,
}
use xgc2_adapter_runtime_cli.State.{
  DispatchKind, Request, DispatchJob, ReplayEntry, SourceState, Impl, is_ready, kind_of, context_of,
  same_kind,
}
use xgc2_adapter_runtime_cli.Deadline.{normalize_deadline}
use xgc2_adapter_runtime_cli.Queue.{fits_byte_budget, queue_work_locked}
use xgc2_adapter_runtime_cli.Signal.{signal_current_session_failure, queue_work_protocol_error}
use xgc2_adapter_runtime_cli.Replay.{
  TerminalCommitResult, reserve_terminal_replay_locked, commit_terminal_frame,
}
use xgc2_adapter_runtime_cli.Frames.{rejected_dispatch}

-- What `EnqueueDispatch` decides under the lock, and is left to do after it.
pub data Decision : Type 0 where
  identity_violation retire_pair enqueued : Decision
  replay_immediate : WorkFrame → Decision
  reject_immediate : WorkFrame → Decision

-- Some source stream was opened under this work id.
unfoldable pub is_source_work : Bytes → Map SourceState → Bool
unfolding any
is_source_work work_id = any (λ e. same e.1.request.context.work_id work_id)

-- A new `CancellationState`, not requested.
abbrev pub fresh_cancellation : Impl → Impl
fresh_cancellation s = record s {
  requested = λ c. not (c == s.next_cancellation) && s.requested c;
  next_cancellation = add64 s.next_cancellation 1;
}

unfoldable pub admit_reserved : Option (DispatchJob × Impl) → Impl → Decision × Impl
admit_reserved none s = (Decision.retire_pair, s)
admit_reserved (some (job, s')) s = (
  Decision.enqueued,
  record s' {
    work_tokens =
        insert job.work_id
          (record {
            cancellation = s.next_cancellation;
            terminal_reservation_bytes = job.terminal_reservation_bytes;
          })
          s'.work_tokens;
    dispatch_queue_bytes = add64 s'.dispatch_queue_bytes job.accounted_bytes;
    dispatch_queue = s'.dispatch_queue ++ job ∷ [];
  },
)

-- The last branch: reserve room for the terminal, then queue the job.
unfoldable pub admit : DispatchJob → Impl → Decision × Impl
admit job s =
    admit_reserved
      (reserve_terminal_replay_locked (record job { cancellation = some s.next_cancellation })
        (fresh_cancellation s))
      s

abbrev pub reject : DispatchJob → Bytes → Bytes → ℤ → Decision
reject job code message now =
    Decision.reject_immediate
      (rejected_dispatch (kind_of job.request) job.work_id code message ErrorClass.rejected now)

-- The branches below the look at the replay table.
unfoldable pub admit_new : DispatchJob → ℤ → Impl → Decision × Impl
admit_new job now s =
    if is_empty job.work_id
    then (Decision.identity_violation, s)
    else if not s.accepting_work || not (is_ready s.state)
    then (reject job (text "not-ready") (text "capabilities are not ready for Work") now, s)
    else if is_some (find job.work_id s.work_tokens)
    then (Decision.identity_violation, s)
    else if is_source_work job.work_id s.source_streams
    then (Decision.identity_violation, s)
    else if leb s.config.maximum_dispatch_queue (length s.dispatch_queue)
    then (reject job (text "dispatch-queue-full") (text "bounded dispatch queue is full") now, s)
    else if not (
        fits_byte_budget s.dispatch_queue_bytes job.accounted_bytes
          s.config.maximum_dispatch_queue_bytes)
    then (
      reject job (text "dispatch-byte-budget") (text "dispatch byte budget is exhausted") now,
      s,
    )
    else admit job s

unfoldable pub redeliver : DispatchJob → ReplayEntry → Decision
redeliver job entry =
    if same_kind entry.kind (kind_of job.request) && same entry.fingerprint job.fingerprint
    then Decision.replay_immediate entry.terminal
    else Decision.identity_violation

-- What is retained under the job's id comes first.
unfoldable pub decide_retained : DispatchJob → ℤ → Option ReplayEntry → Impl → Decision × Impl
unfolding redeliver
decide_retained job now none s = admit_new job now s
decide_retained job now (some entry) s = (redeliver job entry, s)

-- The chain of tests of the section under the lock, with what its branches do; the section ends with the
-- counting below.
unfoldable pub dispatch_decision : DispatchJob → ℤ → Impl → Decision × Impl
dispatch_decision job now s =
    if is_empty job.work_id
    then admit_new job now s
    else decide_retained job now (find job.work_id s.replay) s

-- Violations and immediate answers count, replays too.
abbrev pub counts : Decision → Bool
counts Decision.retire_pair = false
counts Decision.enqueued = false
counts _ = true

abbrev pub count_rejection : Impl → Impl
count_rejection s = record s { rejected_dispatches = add64 s.rejected_dispatches 1 }

-- The whole section under the lock.
unfoldable pub enqueue_locked : DispatchJob → ℤ → Impl → Decision × Impl
enqueue_locked job now s =
    let (decision, s') = dispatch_decision job now s in
    (decision, if counts decision then count_rejection s' else s')

module _ ⦃w : Environment⦄ where
  abbrev pub is_committed : TerminalCommitResult → Bool
  is_committed TerminalCommitResult.committed = true
  is_committed _ = false

  -- CommitTerminalFrame, with the pair failed if the frame was not committed.
  unfoldable pub commit_or_fail : DispatchJob → WorkFrame → Bytes → Impl → Impl
  commit_or_fail job frame reason s =
      let (commit, s') = commit_terminal_frame job frame s in
      if is_committed commit then s' else signal_current_session_failure reason s'

  unfoldable pub queue_work_or_signal : WorkFrame → Bytes → Impl → Impl
  queue_work_or_signal frame reason s =
      let (queued, s') = queue_work_locked frame s in
      if queued then s' else signal_current_session_failure reason s'

  unfoldable pub carry_out : DispatchJob → Decision → Impl → Impl
  unfolding commit_or_fail queue_work_or_signal
  carry_out job Decision.identity_violation s =
      queue_work_protocol_error job.inbound_frame_sequence
        (text "Work request must use one exact, unused nonempty work_id identity") s
  carry_out job Decision.retire_pair s =
      signal_current_session_failure
        (text "terminal replay identity or byte budget requires connection-pair retirement") s
  carry_out job (Decision.replay_immediate frame) s =
      queue_work_or_signal frame (text "Work queue rejected dispatch response") s
  carry_out job (Decision.reject_immediate frame) s =
      commit_or_fail job frame
        (text "bounded Work transport could not retain immediate terminal for " ++ job.work_id) s
  carry_out job Decision.enqueued s = s

  unfoldable pub enqueue_dispatch : DispatchJob → ℤ → Impl → Impl
  enqueue_dispatch job now s =
      let (decision, s') = enqueue_locked job now s in carry_out job decision s'

  -- Receipt: the deadline of the request is made absolute.
  abbrev pub received_context : WorkContext → ℤ → WorkContext
  received_context context now = record context {
    deadline = normalize_deadline context.deadline now;
  }

  unfoldable pub request_size : Request → ℕ
  request_size (Request.unary r) = w.unary_size r
  request_size (Request.operation r) = w.operation_size r
  request_size (Request.source_open r) = w.source_open_size r

  unfoldable pub make_job : Request → ℕ → DispatchJob
  unfolding request_size
  make_job request frame_sequence = record {
    request = request;
    work_id = (context_of request).work_id;
    fingerprint = (context_of request).request_digest;
    inbound_frame_sequence = frame_sequence;
    connection_epoch = 0;
    accounted_bytes = request_size request;
    terminal_reservation_bytes = 0;
    cancellation = none;
  }

  unfoldable pub enqueue_unary : UnaryRequest → ℕ → ℤ → Impl → Impl
  enqueue_unary request frame_sequence now =
      enqueue_dispatch
        (make_job
          (Request.unary (record request { context = received_context request.context now }))
          frame_sequence)
        now

  unfoldable pub enqueue_operation : OperationRequest → ℕ → ℤ → Impl → Impl
  enqueue_operation request frame_sequence now =
      enqueue_dispatch
        (make_job
          (Request.operation (record request { context = received_context request.context now }))
          frame_sequence)
        now

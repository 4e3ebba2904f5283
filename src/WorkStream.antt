-- ===== src/WorkStream.antt =====
-- src/work.cpp: the Work stream.
pub mod Channel
pub mod Sequence
use xgc2_adapter_runtime_cli.Base.{
  ℕ, ◌+◌, Bool, true, false, not, ◌&&◌, ◌||◌, Bytes, text, same, is_empty, List, [], ◌∷◌, ◌++◌,
  Option, none, some, ltb, ◌==◌, if◌then◌else◌, add64, sub64,
}
use xgc2_adapter_runtime_cli.Base.Int.{ℤ}
use xgc2_adapter_runtime_cli.Message.{Environment}
use xgc2_adapter_runtime_cli.Message.Work.{SessionHeader, WorkFrame, WorkResponse}
use xgc2_adapter_runtime_cli.State.{ClientState, SessionFence, QueuedWorkFrame, Impl}
use xgc2_adapter_runtime_cli.Queue.{stamp_header, header_error, validate_work_header}
use xgc2_adapter_runtime_cli.Transport.{WriterStep, Written, is_over}
use xgc2_adapter_runtime_cli.Signal.{
  signal_session_failure, signal_terminal_session_failure, queue_work_protocol_error,
}
use xgc2_adapter_runtime_cli.Admission.{enqueue_unary, enqueue_operation}
use xgc2_adapter_runtime_cli.SourceAdmission.{enqueue_source_open}
use xgc2_adapter_runtime_cli.Credit.{grant_source_credit}
use xgc2_adapter_runtime_cli.Cancel.{handle_cancellation}
use xgc2_adapter_runtime_cli.Acknowledge.{handle_terminal_acknowledgement}

-- StampHeaderLocked(request.mutable_header(), fence, fence.connection_epoch, ++work_out_sequence_)
unfoldable pub stamp_work : SessionFence → WorkFrame → Impl → WriterStep WorkFrame × Impl
stamp_work fence frame s =
    let sequence = add64 s.work_out_sequence 1 in
    (
      WriterStep.write (record {
        header = stamp_header s.config fence fence.connection_epoch sequence;
        frame = frame;
      }),
      record s { work_out_sequence = sequence },
    )

abbrev pub may_attach : SessionFence → Impl → Bool
may_attach fence s =
    s.work_attach_allowed
    && (s.work_attach_connection_epoch == fence.connection_epoch)
    && same s.session_id fence.session_id
    && not s.session_failed
    && not s.stop_requested

-- The first section of WorkWriterLoop: the gate.
unfoldable pub prepare_attach : SessionFence → Impl → WriterStep WorkFrame × Impl
unfolding stamp_work
prepare_attach fence s =
    if may_attach fence s
    then stamp_work fence
        (WorkFrame.attach
          (record { applied_spec_revision = s.spec_revision; applied_spec_digest = s.spec_digest }))
        s
    else (
      WriterStep.finished,
      signal_session_failure fence.session_id
          (text "WorkAttach gate was lost before the paired Work stream started") s,
    )

-- The section after the attach frame was written: the pair is ready.
unfoldable pub open_pair : SessionFence → Impl → Impl
open_pair fence s =
    if same s.session_id fence.session_id
      && not s.session_failed
      && not s.stop_requested
      && s.work_attach_allowed
      && (s.work_attach_connection_epoch == fence.connection_epoch)
    then record s {
      accepting_work = true;
      state = ClientState.ready;
      ready_callbacks_complete = true;
      pair_ready = true;
    }
    else s

-- The front of the queue, taken out.
unfoldable pub pop_work : SessionFence → List QueuedWorkFrame → Impl → WriterStep WorkFrame × Impl
unfolding stamp_work
pop_work fence [] s = (WriterStep.waiting, s)
pop_work fence (front ∷ rest) s = stamp_work fence front.request (record s {
  work_queue_bytes = sub64 s.work_queue_bytes front.accounted_bytes;
  work_queue = rest;
})

-- The section of the writer's loop under the lock.
unfoldable pub take_work_frame : SessionFence → Impl → WriterStep WorkFrame × Impl
take_work_frame fence s =
    if is_over fence s then (WriterStep.finished, s) else pop_work fence s.work_queue s

module _ ⦃w : Environment⦄ where
  -- ByteSizeLong is above a limit that is there, or Write fails.
  abbrev pub not_written : SessionFence → Bool → Written WorkFrame → Bool
  not_written fence accepted x =
      (ltb 0 fence.maximum_work_frame_bytes
        && ltb fence.maximum_work_frame_bytes (w.work_size x.header x.frame))
      || not accepted

  -- After the lock: `true` goes on with the loop.
  unfoldable pub finish_write :
      SessionFence → Bytes → Bool → WriterStep WorkFrame × Impl → Bool × Impl
  finish_write fence reason accepted (WriterStep.finished, s) = (false, s)
  finish_write fence reason accepted (WriterStep.waiting, s) = (true, s)
  finish_write fence reason accepted (WriterStep.write x, s) =
      if not_written fence accepted x
      then (false, signal_session_failure fence.session_id reason s)
      else (true, s)

  -- WorkWriterLoop up to its loop; `between` is what other threads do while the frame is written.
  unfoldable pub attach_work : SessionFence → Bool → (Impl → Impl) → Impl → Bool × Impl
  attach_work fence accepted between s =
      let (go, s') =
        finish_write fence (text "mandatory WorkAttach could not be written") accepted
          (prepare_attach fence s) in
      if go then (true, open_pair fence (between s')) else (false, s')

  -- One round of the writer's loop.
  unfoldable pub write_work : SessionFence → Bool → Impl → Bool × Impl
  write_work fence accepted s =
      finish_write fence (text "Work outbound frame failed or exceeded limit") accepted
        (take_work_frame fence s)

  -- HandleWorkResponse; `now` is the receipt time that the enqueueing operations read.
  unfoldable pub handle_work_response : SessionFence → ℕ → ℤ → WorkResponse → Impl → Bool × Impl
  handle_work_response fence sequence now (WorkResponse.unary_request r) s =
      (true, enqueue_unary r sequence now s)
  handle_work_response fence sequence now (WorkResponse.operation_request r) s =
      (true, enqueue_operation r sequence now s)
  handle_work_response fence sequence now (WorkResponse.source_open_request r) s =
      (true, enqueue_source_open r sequence now s)
  handle_work_response fence sequence now (WorkResponse.source_credit c) s =
      (true, grant_source_credit c sequence s)
  handle_work_response fence sequence now (WorkResponse.cancellation c) s =
      (true, handle_cancellation c sequence s)
  handle_work_response fence sequence now (WorkResponse.terminal_acknowledgement a) s =
      (true, handle_terminal_acknowledgement a sequence s)
  handle_work_response fence sequence now (WorkResponse.host_error message) s = (
    false,
    signal_terminal_session_failure fence.session_id
        (text "Host reported Work protocol error: " ++ message) s,
  )
  handle_work_response fence sequence now WorkResponse.frame_not_set s =
      (true, queue_work_protocol_error sequence (text "Host sent an empty Work frame") s)

  -- The end of the reader's round, by the header's check.
  unfoldable pub accept_work :
      SessionFence → SessionHeader → ℤ → WorkResponse → Bool × Impl → Bool × Impl
  accept_work fence header now response (true, s) =
      handle_work_response fence header.frame_sequence now response s
  accept_work fence header now response (false, s) = (
    false,
    signal_terminal_session_failure fence.session_id
        (text "invalid Work fence: " ++ header_error s.config header fence fence.connection_epoch)
        s,
  )

  -- The body of the reader's loop, for a response of so many bytes.
  unfoldable pub read_work :
      SessionFence → ℕ → SessionHeader → ℤ → WorkResponse → Impl → Bool × Impl
  unfolding accept_work
  read_work fence bytes header now response s =
      if ltb fence.maximum_work_frame_bytes bytes
      then (
        false,
        signal_terminal_session_failure fence.session_id
            (text "Host Work frame exceeds the negotiated limit") s,
      )
      else accept_work fence header now response (validate_work_header header fence s)

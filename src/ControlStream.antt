-- ===== src/ControlStream.antt =====
-- src/control.cpp: the Control stream; src/stream.cpp: a stop that the Host asks for.
use xgc2_adapter_runtime_cli.Base.{
  ℕ, Bool, true, false, not, ◌&&◌, ◌||◌, Bytes, text, same, is_empty, List, [], ◌∷◌, ◌++◌, none,
  some, ltb, ◌==◌, if◌then◌else◌, add64, sub64,
}
use xgc2_adapter_runtime_cli.Base.Int.{ℤ}
use xgc2_adapter_runtime_cli.Message.{Environment}
use xgc2_adapter_runtime_cli.Message.Errors.{AdapterError, default_error}
use xgc2_adapter_runtime_cli.Message.Work.{SessionHeader}
use xgc2_adapter_runtime_cli.Message.Spec.{ApplyInstanceSpecResult}
use xgc2_adapter_runtime_cli.Message.Control.{Heartbeat, ControlFrame, ControlResponse}
use xgc2_adapter_runtime_cli.State.{ClientState, SessionFence, QueuedControlFrame, Invocation, Impl}
use xgc2_adapter_runtime_cli.Queue.{
  stamp_header, header_error, validate_control_header, queue_control_locked,
}
use xgc2_adapter_runtime_cli.Signal.{
  cancel_all_work_locked, signal_session_failure, signal_terminal_session_failure,
}
use xgc2_adapter_runtime_cli.Drain.{begin_drain}
use xgc2_adapter_runtime_cli.Transport.{WriterStep, Written, is_over}
use xgc2_adapter_runtime_cli.InstanceSpec.Callbacks.{Lifecycle}
use xgc2_adapter_runtime_cli.InstanceSpec.Apply.{apply_instance_spec}

-- BuildHeartbeatLocked; `now` is what `UnixNanos()` returns.
unfoldable pub build_heartbeat_locked : ℕ → ℤ → Impl → Heartbeat
build_heartbeat_locked ping_nonce now s = record {
  observed_unix_nanos = now;
  applied_spec_revision = s.spec_revision;
  applied_spec_digest = s.spec_digest;
  ping_nonce = ping_nonce;
  capabilities = s.capability_statuses;
}

-- RequestRemoteStop: the callback, then the section under the lock.
unfoldable pub request_remote_stop : Bytes → Impl → Impl
request_remote_stop reason s = record (cancel_all_work_locked s) {
  stop_requested = true;
  accepting_work = false;
  state = ClientState.stopping;
  invocations =
      if s.callbacks.stop_requested
      then Invocation.stop_requested reason ∷ s.invocations
      else s.invocations;
}

unfoldable pub is_terminal_spec_failure : Bytes → Bool
is_terminal_spec_failure code =
    same code (text "invalid-instance-spec")
    || same code (text "spec-content-mismatch")
    || same code (text "initial-spec-mismatch")
    || same code (text "ready-callback-failed")

-- StampHeaderLocked(request.mutable_header(), fence, fence.connection_epoch, ++control_out_sequence_)
unfoldable pub stamp_control : SessionFence → ControlFrame → Impl → WriterStep ControlFrame × Impl
stamp_control fence frame s =
    let sequence = add64 s.control_out_sequence 1 in
    (
      WriterStep.write (record {
        header = stamp_header s.config fence fence.connection_epoch sequence;
        frame = frame;
      }),
      record s { control_out_sequence = sequence },
    )

-- The front of the queue, taken out; nothing to do on an early wake.
unfoldable pub pop_control :
    SessionFence → List QueuedControlFrame → Impl → WriterStep ControlFrame × Impl
unfolding stamp_control
pop_control fence [] s = (WriterStep.waiting, s)
pop_control fence (front ∷ rest) s = stamp_control fence front.request (record s {
  control_queue_bytes = sub64 s.control_queue_bytes front.accounted_bytes;
  control_queue = rest;
})

-- The section of the writer's loop under the lock; a heartbeat that is due comes first.
unfoldable pub take_control_frame : SessionFence → Bool → ℤ → Impl → WriterStep ControlFrame × Impl
unfolding build_heartbeat_locked
take_control_frame fence heartbeat_is_due now s =
    if is_over fence s
    then (WriterStep.finished, s)
    else if heartbeat_is_due
    then stamp_control fence (ControlFrame.heartbeat (build_heartbeat_locked 0 now s)) s
    else pop_control fence s.control_queue s

-- The section after a spec result with `applied` was written.
unfoldable pub allow_work_attach : SessionFence → Impl → Impl
allow_work_attach fence s =
    if same s.session_id fence.session_id
      && not s.session_failed
      && not s.stop_requested
      && not (s.spec_revision == 0)
      && not (is_empty s.spec_digest)
    then record s {
      work_attach_allowed = true;
      work_attach_connection_epoch = fence.connection_epoch;
    }
    else s

abbrev pub error_of : ApplyInstanceSpecResult → AdapterError
error_of result = elim result.error [ none ↦ default_error | some e ↦ e ]

abbrev pub spec_failure : ApplyInstanceSpecResult → Bytes
spec_failure result =
    text "exact instance spec was not applied"
    ++ (if is_empty (error_of result).message then [] else text ": " ++ (error_of result).message)

-- What a frame that was written means; `true` goes on with the loop.
unfoldable pub after_control : SessionFence → ControlFrame → Impl → Bool × Impl
unfolding allow_work_attach is_terminal_spec_failure
after_control fence (ControlFrame.apply_instance_spec_result result) s =
    if result.applied then (true, allow_work_attach fence s) else (
      false,
      if is_terminal_spec_failure (error_of result).code
          then signal_terminal_session_failure fence.session_id (spec_failure result) s
          else signal_session_failure fence.session_id (spec_failure result) s,
    )
after_control fence _ s = (true, s)

module _ ⦃w : Environment⦄ where
  -- ByteSizeLong is above a limit that is there, or Write fails.
  abbrev pub not_written : SessionFence → Bool → Written ControlFrame → Bool
  not_written fence accepted x =
      (ltb 0 fence.maximum_control_frame_bytes
        && ltb fence.maximum_control_frame_bytes (w.control_size x.header x.frame))
      || not accepted

  unfoldable pub finish_control_write :
      SessionFence → Bool → WriterStep ControlFrame × Impl → Bool × Impl
  unfolding after_control
  finish_control_write fence accepted (WriterStep.finished, s) = (false, s)
  finish_control_write fence accepted (WriterStep.waiting, s) = (true, s)
  finish_control_write fence accepted (WriterStep.write x, s) =
      if not_written fence accepted x
      then (
        false,
        signal_session_failure fence.session_id
            (text "Control outbound frame failed or exceeded limit") s,
      )
      else after_control fence x.frame s

  -- One round of ControlWriterLoop.
  unfoldable pub write_control : SessionFence → Bool → ℤ → Bool → Impl → Bool × Impl
  unfolding finish_control_write
  write_control fence heartbeat_is_due now accepted s =
      finish_control_write fence accepted (take_control_frame fence heartbeat_is_due now s)

  -- QueueControl, or the failure of the session.
  unfoldable pub queue_control_or_fail : SessionFence → Bytes → ControlFrame → Impl → Bool × Impl
  queue_control_or_fail fence reason frame s =
      let (queued, s') = queue_control_locked frame s in
      if queued then (true, s') else (false, signal_session_failure fence.session_id reason s')

  -- HandleControlResponse.
  unfoldable pub handle_control_response :
      Lifecycle → SessionFence → ℤ → ControlResponse → Impl → Bool × Impl
  handle_control_response app fence now (ControlResponse.instance_spec spec) s =
      let (result, s') = apply_instance_spec app fence.session_id spec s in
      queue_control_or_fail fence (text "Control queue rejected spec result")
        (ControlFrame.apply_instance_spec_result result) s'
  handle_control_response app fence now (ControlResponse.ping nonce) s =
      queue_control_or_fail fence (text "Control queue rejected ping response")
        (ControlFrame.heartbeat (build_heartbeat_locked nonce now s)) s
  handle_control_response app fence now ControlResponse.drain s = (true, begin_drain s)
  handle_control_response app fence now (ControlResponse.stop reason) s =
      (false, request_remote_stop reason s)
  handle_control_response app fence now (ControlResponse.host_error message) s = (
    false,
    signal_terminal_session_failure fence.session_id
        (text "Host reported Control protocol error: " ++ message) s,
  )
  handle_control_response app fence now ControlResponse.frame_not_set s =
      (false, signal_session_failure fence.session_id (text "Host sent an empty Control frame") s)

  unfoldable pub accept_control :
      Lifecycle → SessionFence → SessionHeader → ℤ → ControlResponse → Bool × Impl → Bool × Impl
  accept_control app fence header now response (true, s) =
      handle_control_response app fence now response s
  accept_control app fence header now response (false, s) = (
    false,
    signal_terminal_session_failure fence.session_id
        (text "invalid Control fence: "
          ++ header_error s.config header fence fence.connection_epoch)
        s,
  )

  -- The body of the reader's loop, for a response of so many bytes.
  unfoldable pub read_control :
      Lifecycle → SessionFence → ℕ → SessionHeader → ℤ → ControlResponse → Impl → Bool × Impl
  unfolding accept_control
  read_control app fence bytes header now response s =
      if ltb fence.maximum_control_frame_bytes bytes
      then (
        false,
        signal_terminal_session_failure fence.session_id
            (text "Host Control frame exceeds the negotiated limit") s,
      )
      else accept_control app fence header now response (validate_control_header header fence s)

-- ===== src/Budget/Frames.antt =====
-- src/work.cpp and src/control.cpp: what the readers and the writers of the two streams do keeps all
-- accounts.
use xgc2_adapter_runtime_cli.Base.{
  ℕ, ◌≡◌, refl, subst, Bool, true, false, Bytes, List, [], ◌∷◌, ltb, if_both, option_cases,
  if◌then◌else◌,
}
use xgc2_adapter_runtime_cli.Base.Int.{ℤ}
use xgc2_adapter_runtime_cli.Message.{Environment}
use xgc2_adapter_runtime_cli.Message.Work.{SessionHeader, WorkFrame, WorkResponse}
use xgc2_adapter_runtime_cli.Message.Control.{ControlFrame, ControlResponse}
use xgc2_adapter_runtime_cli.State.{SessionFence, QueuedControlFrame, QueuedWorkFrame, Impl}
use xgc2_adapter_runtime_cli.Queue.{
  validate_header, validate_control_header, validate_work_header, queue_control_locked,
}
use xgc2_adapter_runtime_cli.Signal.{cancel_all_work_locked}
use xgc2_adapter_runtime_cli.Admission.{enqueue_unary, enqueue_operation}
use xgc2_adapter_runtime_cli.Transport.{WriterStep, is_over}
use xgc2_adapter_runtime_cli.WorkStream.{
  stamp_work, may_attach, prepare_attach, open_pair, pop_work, take_work_frame, not_written,
  finish_write, attach_work, write_work, handle_work_response, accept_work, read_work,
}
use xgc2_adapter_runtime_cli.ControlStream
use xgc2_adapter_runtime_cli.ControlStream.{
  request_remote_stop, is_terminal_spec_failure, error_of, stamp_control, pop_control,
  take_control_frame, allow_work_attach, after_control, finish_control_write, write_control,
  queue_control_or_fail, handle_control_response, accept_control, read_control,
}
use xgc2_adapter_runtime_cli.InstanceSpec.Callbacks.{Lifecycle}
use xgc2_adapter_runtime_cli.Application.Rely.{IsKept}
use xgc2_adapter_runtime_cli.Budget.{IsBounded, InBudget, Kept}
use xgc2_adapter_runtime_cli.Budget.Queues.{
  IsBounded-pop, queue_control-InBudget, signal_session_failure-InBudget,
  signal_terminal_session_failure-InBudget, queue_work_protocol_error-InBudget,
}
use xgc2_adapter_runtime_cli.Budget.Messages.{
  grant_source_credit-InBudget, handle_terminal_acknowledgement-InBudget,
}
use xgc2_adapter_runtime_cli.Budget.Cancellations.{handle_cancellation-InBudget}
use xgc2_adapter_runtime_cli.Budget.Admissions.{enqueue_dispatch-InBudget, begin_drain-InBudget}
use xgc2_adapter_runtime_cli.Budget.Openings.{enqueue_source_open-InBudget}
use xgc2_adapter_runtime_cli.Budget.Specs.{KeepsBudget, apply_instance_spec-InBudget}

pop_work-InBudget :
    (fence : SessionFence) (queue : List QueuedWorkFrame) (s : Impl)
    → s.work_queue ≡ queue
    → InBudget s
    → Kept (pop_work fence queue s)
unfolding pop_work stamp_work
pop_work-InBudget fence [] s e b = record { kept = b }
pop_work-InBudget fence (front ∷ rest) s e (words, control, work, dispatch, replay, table) =
    record {
      kept = (
        words,
        control,
        IsBounded-pop (λ x. x.accounted_bytes) rest front s.work_queue_bytes
            s.config.maximum_work_queue s.config.maximum_work_queue_bytes
            (subst
              (λ q.
                IsBounded (λ x. x.accounted_bytes) q s.work_queue_bytes s.config.maximum_work_queue
                  s.config.maximum_work_queue_bytes)
              e work)
            words.work,
        dispatch,
        replay,
        table,
      );
    }

take_work_frame-InBudget :
    (fence : SessionFence) (s : Impl) → InBudget s → Kept (take_work_frame fence s)
unfolding take_work_frame
take_work_frame-InBudget fence s b =
    if_both Kept (is_over fence s) (record { kept = b })
      (pop_work-InBudget fence s.work_queue s refl b)

prepare_attach-InBudget :
    (fence : SessionFence) (s : Impl) → InBudget s → Kept (prepare_attach fence s)
unfolding prepare_attach stamp_work
prepare_attach-InBudget fence s b =
    if_both Kept (may_attach fence s) (record { kept = b })
      (record { kept = signal_session_failure-InBudget fence.session_id _ s b })

open_pair-InBudget : (fence : SessionFence) (s : Impl) → InBudget s → InBudget (open_pair fence s)
unfolding open_pair
open_pair-InBudget fence s b = if_both InBudget _ b b

module _ ⦃w : Environment⦄ where
  finish_write-InBudget :
      (fence : SessionFence) (reason : Bytes) (accepted : Bool) (r : WriterStep WorkFrame × Impl)
      → Kept r
      → Kept (finish_write fence reason accepted r)
  unfolding finish_write
  finish_write-InBudget fence reason accepted (WriterStep.finished, s) k = record { kept = k.kept }
  finish_write-InBudget fence reason accepted (WriterStep.waiting, s) k = record { kept = k.kept }
  finish_write-InBudget fence reason accepted (WriterStep.write x, s) k =
      if_both Kept (not_written fence accepted x)
        (record { kept = signal_session_failure-InBudget fence.session_id reason s k.kept })
        (record { kept = k.kept })

  pub write_work-InBudget :
      (fence : SessionFence) (accepted : Bool) (s : Impl)
      → InBudget s
      → Kept (write_work fence accepted s)
  unfolding write_work
  write_work-InBudget fence accepted s b =
      finish_write-InBudget fence _ accepted _ (take_work_frame-InBudget fence s b)

  handle_work_response-InBudget :
      (fence : SessionFence) (sequence : ℕ) (now : ℤ) (response : WorkResponse) (s : Impl)
      → IsKept InBudget
      → InBudget s
      → Kept (handle_work_response fence sequence now response s)
  unfolding handle_work_response enqueue_unary enqueue_operation
  handle_work_response-InBudget fence sequence now (WorkResponse.unary_request r) s keeps b =
      record { kept = enqueue_dispatch-InBudget _ now s b }
  handle_work_response-InBudget fence sequence now (WorkResponse.operation_request r) s keeps b =
      record { kept = enqueue_dispatch-InBudget _ now s b }
  handle_work_response-InBudget fence sequence now (WorkResponse.source_open_request r) s keeps b =
      record { kept = enqueue_source_open-InBudget r sequence now s b }
  handle_work_response-InBudget fence sequence now (WorkResponse.source_credit c) s keeps b =
      record { kept = grant_source_credit-InBudget c sequence s b }
  handle_work_response-InBudget fence sequence now (WorkResponse.cancellation c) s keeps b =
      record { kept = handle_cancellation-InBudget c sequence s keeps b }
  handle_work_response-InBudget fence sequence now (WorkResponse.terminal_acknowledgement a) s keeps
        b =
      record { kept = handle_terminal_acknowledgement-InBudget a sequence s b }
  handle_work_response-InBudget fence sequence now (WorkResponse.host_error message) s keeps b =
      record { kept = signal_terminal_session_failure-InBudget fence.session_id _ s b }
  handle_work_response-InBudget fence sequence now WorkResponse.frame_not_set s keeps b = record {
    kept = queue_work_protocol_error-InBudget sequence _ s b;
  }

  accept_work-InBudget :
      (fence : SessionFence) (header : SessionHeader) (now : ℤ) (response : WorkResponse)
      (r : Bool × Impl)
      → IsKept InBudget
      → Kept r
      → Kept (accept_work fence header now response r)
  unfolding accept_work
  accept_work-InBudget fence header now response (true, s) keeps k =
      handle_work_response-InBudget fence header.frame_sequence now response s keeps k.kept
  accept_work-InBudget fence header now response (false, s) keeps k = record {
    kept = signal_terminal_session_failure-InBudget fence.session_id _ s k.kept;
  }

  pub read_work-InBudget :
      (fence : SessionFence) (bytes : ℕ) (header : SessionHeader) (now : ℤ)
      (response : WorkResponse) (s : Impl)
      → IsKept InBudget
      → InBudget s
      → Kept (read_work fence bytes header now response s)
  unfolding read_work validate_work_header
  read_work-InBudget fence bytes header now response s keeps b =
      if_both Kept (ltb fence.maximum_work_frame_bytes bytes)
        (record { kept = signal_terminal_session_failure-InBudget fence.session_id _ s b })
        (accept_work-InBudget fence header now response _ keeps (
          option_cases Kept
            (validate_header s.config header fence fence.connection_epoch s.work_in_sequence)
            (λ _. record { kept = b }) (λ _ _. record { kept = b })))

  attach_work_go :
      (fence : SessionFence) (between : Impl → Impl) (r : Bool × Impl)
      → ((s : Impl) → InBudget s → InBudget (between s))
      → Kept r
      → Kept {A = Bool} (if r.0 then (true, open_pair fence (between r.1)) else (false, r.1))
  attach_work_go fence between (true, s) keeps k = record {
    kept = open_pair-InBudget fence _ (keeps s k.kept);
  }
  attach_work_go fence between (false, s) keeps k = record { kept = k.kept }

  pub attach_work-InBudget :
      (fence : SessionFence) (accepted : Bool) (between : Impl → Impl) (s : Impl)
      → ((t : Impl) → InBudget t → InBudget (between t))
      → InBudget s
      → Kept (attach_work fence accepted between s)
  unfolding attach_work
  attach_work-InBudget fence accepted between s keeps b =
      attach_work_go fence between _ keeps
        (finish_write-InBudget fence _ accepted _ (prepare_attach-InBudget fence s b))

pop_control-InBudget :
    (fence : SessionFence) (queue : List QueuedControlFrame) (s : Impl)
    → s.control_queue ≡ queue
    → InBudget s
    → Kept (pop_control fence queue s)
unfolding pop_control stamp_control
pop_control-InBudget fence [] s e b = record { kept = b }
pop_control-InBudget fence (front ∷ rest) s e (words, control, work, dispatch, replay, table) =
    record {
      kept = (
        words,
        IsBounded-pop (λ x. x.accounted_bytes) rest front s.control_queue_bytes
            s.config.maximum_control_queue s.config.maximum_control_queue_bytes
            (subst
              (λ q.
                IsBounded (λ x. x.accounted_bytes) q s.control_queue_bytes
                  s.config.maximum_control_queue s.config.maximum_control_queue_bytes)
              e control)
            words.control,
        work,
        dispatch,
        replay,
        table,
      );
    }

take_control_frame-InBudget :
    (fence : SessionFence) (due : Bool) (now : ℤ) (s : Impl)
    → InBudget s
    → Kept (take_control_frame fence due now s)
unfolding take_control_frame stamp_control
take_control_frame-InBudget fence due now s b =
    if_both Kept (is_over fence s) (record { kept = b })
      (if_both Kept due (record { kept = b }) (pop_control-InBudget fence s.control_queue s refl b))

after_control-InBudget :
    (fence : SessionFence) (frame : ControlFrame) (s : Impl)
    → InBudget s
    → Kept (after_control fence frame s)
unfolding after_control allow_work_attach
after_control-InBudget fence (ControlFrame.heartbeat h) s b = record { kept = b }
after_control-InBudget fence (ControlFrame.drain_status d) s b = record { kept = b }
after_control-InBudget fence (ControlFrame.apply_instance_spec_result result) s b =
    if_both Kept result.applied (record { kept = if_both InBudget _ b b })
      (record {
        kept =
            if_both InBudget (is_terminal_spec_failure (error_of result).code)
              (signal_terminal_session_failure-InBudget fence.session_id _ s b)
              (signal_session_failure-InBudget fence.session_id _ s b);
      })

module _ ⦃w : Environment⦄ where
  finish_control_write-InBudget :
      (fence : SessionFence) (accepted : Bool) (r : WriterStep ControlFrame × Impl)
      → Kept r
      → Kept (finish_control_write fence accepted r)
  unfolding finish_control_write
  finish_control_write-InBudget fence accepted (WriterStep.finished, s) k = record { kept = k.kept }
  finish_control_write-InBudget fence accepted (WriterStep.waiting, s) k = record { kept = k.kept }
  finish_control_write-InBudget fence accepted (WriterStep.write x, s) k =
      if_both Kept (ControlStream.not_written fence accepted x)
        (record { kept = signal_session_failure-InBudget fence.session_id _ s k.kept })
        (after_control-InBudget fence x.frame s k.kept)

  pub write_control-InBudget :
      (fence : SessionFence) (due : Bool) (now : ℤ) (accepted : Bool) (s : Impl)
      → InBudget s
      → Kept (write_control fence due now accepted s)
  unfolding write_control
  write_control-InBudget fence due now accepted s b =
      finish_control_write-InBudget fence accepted _ (take_control_frame-InBudget fence due now s b)

  queue_control_or_fail-InBudget :
      (fence : SessionFence) (reason : Bytes) (frame : ControlFrame) (s : Impl)
      → InBudget s
      → Kept (queue_control_or_fail fence reason frame s)
  unfolding queue_control_or_fail
  queue_control_or_fail-InBudget fence reason frame s b =
      let queued = queue_control-InBudget frame s b in
      if_both Kept (queue_control_locked frame s).0 (record { kept = queued })
        (record { kept = signal_session_failure-InBudget fence.session_id reason _ queued })

  handle_control_response-InBudget :
      (app : Lifecycle) (fence : SessionFence) (now : ℤ) (response : ControlResponse) (s : Impl)
      → KeepsBudget app
      → InBudget s
      → Kept (handle_control_response app fence now response s)
  unfolding handle_control_response request_remote_stop cancel_all_work_locked
  handle_control_response-InBudget app fence now (ControlResponse.instance_spec spec) s keeps b =
      queue_control_or_fail-InBudget fence _ _ _
        (apply_instance_spec-InBudget app keeps fence.session_id spec s b)
  handle_control_response-InBudget app fence now (ControlResponse.ping nonce) s keeps b =
      queue_control_or_fail-InBudget fence _ _ s b
  handle_control_response-InBudget app fence now ControlResponse.drain s keeps b = record {
    kept = begin_drain-InBudget s b;
  }
  handle_control_response-InBudget app fence now (ControlResponse.stop reason) s keeps b = record {
    kept = b;
  }
  handle_control_response-InBudget app fence now (ControlResponse.host_error message) s keeps b =
      record { kept = signal_terminal_session_failure-InBudget fence.session_id _ s b }
  handle_control_response-InBudget app fence now ControlResponse.frame_not_set s keeps b = record {
    kept = signal_session_failure-InBudget fence.session_id _ s b;
  }

  accept_control-InBudget :
      (app : Lifecycle) (fence : SessionFence) (header : SessionHeader) (now : ℤ)
      (response : ControlResponse) (r : Bool × Impl)
      → KeepsBudget app
      → Kept r
      → Kept (accept_control app fence header now response r)
  unfolding accept_control
  accept_control-InBudget app fence header now response (true, s) keeps k =
      handle_control_response-InBudget app fence now response s keeps k.kept
  accept_control-InBudget app fence header now response (false, s) keeps k = record {
    kept = signal_terminal_session_failure-InBudget fence.session_id _ s k.kept;
  }

  pub read_control-InBudget :
      (app : Lifecycle) (fence : SessionFence) (bytes : ℕ) (header : SessionHeader) (now : ℤ)
      (response : ControlResponse) (s : Impl)
      → KeepsBudget app
      → InBudget s
      → Kept (read_control app fence bytes header now response s)
  unfolding read_control validate_control_header
  read_control-InBudget app fence bytes header now response s keeps b =
      if_both Kept (ltb fence.maximum_control_frame_bytes bytes)
        (record { kept = signal_terminal_session_failure-InBudget fence.session_id _ s b })
        (accept_control-InBudget app fence header now response _ keeps (
          option_cases Kept
            (validate_header s.config header fence fence.connection_epoch s.control_in_sequence)
            (λ _. record { kept = b }) (λ _ _. record { kept = b })))

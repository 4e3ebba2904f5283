-- ===== src/Drain.antt =====
-- src/stream.cpp: draining.
use xgc2_adapter_runtime_cli.Base.{
  Bool, true, false, not, ◌||◌, text, length, is_empty, leb, ◌==◌, if◌then◌else◌,
}
use xgc2_adapter_runtime_cli.Message.{Environment}
use xgc2_adapter_runtime_cli.Message.Control.{ControlFrame}
use xgc2_adapter_runtime_cli.State.{ClientState, Impl}
use xgc2_adapter_runtime_cli.Queue.{queue_control_locked}
use xgc2_adapter_runtime_cli.Signal.{cancel_all_work_locked}

abbrev pub drain_frame : ControlFrame
drain_frame = ControlFrame.drain_status (record { drained = true; in_flight_work = 0 })

abbrev drain_state : ClientState → ClientState
drain_state ClientState.ready = ClientState.draining
drain_state ClientState.applying_spec = ClientState.draining
drain_state other = other

-- No report now: none is due, Work is queued, active or in flight, or the Control queue is full.
abbrev pub drain_waits : Impl → Bool
drain_waits s =
    not s.drain_requested
    || s.drain_reported
    || not (s.in_flight_work == 0)
    || not (s.active_dispatch_jobs == 0)
    || not (is_empty s.dispatch_queue)
    || leb s.config.maximum_control_queue (length s.control_queue)

-- The report is in the queue, or the session fails.
unfoldable pub report_drained : Bool × Impl → Impl
report_drained (true, s) = record s { drain_reported = true }
report_drained (false, s) = record (cancel_all_work_locked s) {
  session_failed = true;
  accepting_work = false;
  state = ClientState.reconnecting;
  last_error = text "Control byte budget could not report drain completion";
}

module _ ⦃w : Environment⦄ where
  unfoldable pub maybe_queue_drain_status_locked : Impl → Impl
  unfolding report_drained
  maybe_queue_drain_status_locked s =
      if drain_waits s then s else report_drained (queue_control_locked drain_frame s)

  unfoldable pub begin_drain : Impl → Impl
  begin_drain s =
      maybe_queue_drain_status_locked
        (record s { state = drain_state s.state; accepting_work = false; drain_requested = true })

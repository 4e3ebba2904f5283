-- ===== src/Queue.antt =====
-- src/queue.cpp: session headers, and the bounded outbound queues.
pub mod Headers
use xgc2_adapter_runtime_cli.Base.{
  ℕ, ◌-◌, Bool, true, false, not, ◌&&◌, ◌||◌, Bytes, text, same, length, is_empty, Option, none,
  some, [], ◌∷◌, ◌++◌, ltb, leb, ◌==◌, if◌then◌else◌, add64, u64_max,
}
use xgc2_adapter_runtime_cli.Message.{Environment}
use xgc2_adapter_runtime_cli.Message.Work.{SessionHeader, WorkFrame}
use xgc2_adapter_runtime_cli.Message.Control.{ControlFrame}
use xgc2_adapter_runtime_cli.State.{ClientConfig, SessionFence, Impl}

unfoldable pub fits_byte_budget : ℕ → ℕ → ℕ → Bool
fits_byte_budget used added maximum = leb added maximum && leb used (maximum - added)

unfoldable pub stamp_header : ClientConfig → SessionFence → ℕ → ℕ → SessionHeader
stamp_header config fence connection_epoch sequence = record {
  instance_id = config.instance_id;
  session_id = fence.session_id;
  process_generation = config.process_generation;
  session_generation = fence.session_generation;
  runtime_epoch = fence.runtime_epoch;
  connection_epoch = connection_epoch;
  frame_sequence = sequence;
}

unfoldable pub same_fence : ClientConfig → SessionHeader → SessionFence → ℕ → Bool
same_fence config header fence connection_epoch =
    same header.instance_id config.instance_id
    && same header.session_id fence.session_id
    && (header.process_generation == config.process_generation)
    && (header.session_generation == fence.session_generation)
    && (header.runtime_epoch == fence.runtime_epoch)
    && (header.connection_epoch == connection_epoch)

-- ValidateHeaderLocked: `some` is the new value of `*previous_sequence`, `none` a failure.
unfoldable pub validate_header : ClientConfig → SessionHeader → SessionFence → ℕ → ℕ → Option ℕ
validate_header config header fence connection_epoch previous =
    if not (same_fence config header fence connection_epoch)
    then none
    else if (header.frame_sequence == 0) || leb header.frame_sequence previous
    then none
    else some header.frame_sequence

-- What `ValidateHeaderLocked` reports where it fails.
unfoldable pub header_error : ClientConfig → SessionHeader → SessionFence → ℕ → Bytes
header_error config header fence connection_epoch =
    if not (same_fence config header fence connection_epoch)
    then text "identity/generation/epoch mismatch"
    else text "frame_sequence is zero or non-monotonic"

unfoldable pub validate_control_header : SessionHeader → SessionFence → Impl → Bool × Impl
validate_control_header header fence s =
    elim (validate_header s.config header fence fence.connection_epoch s.control_in_sequence) [
      | none ↦ (false, s)
      | some sequence ↦ (true, record s { control_in_sequence = sequence })
    ]

unfoldable pub validate_work_header : SessionHeader → SessionFence → Impl → Bool × Impl
validate_work_header header fence s =
    elim (validate_header s.config header fence fence.connection_epoch s.work_in_sequence) [
      | none ↦ (false, s)
      | some sequence ↦ (true, record s { work_in_sequence = sequence })
    ]

-- The header that the two measuring functions stamp: the longest frame sequence there is.
unfoldable pub measured_header : Impl → SessionHeader
measured_header s = record {
  instance_id = s.config.instance_id;
  session_id = s.session_id;
  process_generation = s.config.process_generation;
  session_generation = s.session_generation;
  runtime_epoch = s.runtime_epoch;
  connection_epoch = s.connection_epoch_counter;
  frame_sequence = u64_max;
}

module _ ⦃w : Environment⦄ where
  unfoldable pub control_frame_bytes : Impl → ControlFrame → ℕ
  control_frame_bytes s frame = w.control_size (measured_header s) frame

  unfoldable pub work_frame_bytes : Impl → WorkFrame → ℕ
  work_frame_bytes s frame = w.work_size (measured_header s) frame

  -- No room by count or by bytes: such a refusal counts as a dropped frame.
  unfoldable pub control_overflow : Impl → ℕ → Bool
  control_overflow s frame_bytes =
      leb s.config.maximum_control_queue (length s.control_queue)
      || not
          (fits_byte_budget s.control_queue_bytes frame_bytes s.config.maximum_control_queue_bytes)

  unfoldable pub queue_control_locked : ControlFrame → Impl → Bool × Impl
  queue_control_locked frame s =
      let n = control_frame_bytes s frame in
      if is_empty s.session_id
        || s.session_failed
        || s.stop_requested
        || ltb s.maximum_control_frame_bytes n
        || control_overflow s n
      then (
        false,
        if control_overflow s n
            then record s { dropped_outbound_frames = add64 s.dropped_outbound_frames 1 }
            else s,
      )
      else (
        true,
        record s {
          control_queue = s.control_queue ++ record { request = frame; accounted_bytes = n } ∷ [];
          control_queue_bytes = add64 s.control_queue_bytes n;
        },
      )

  unfoldable pub work_overflow : Impl → ℕ → Bool
  work_overflow s frame_bytes =
      leb s.config.maximum_work_queue (length s.work_queue)
      || not (fits_byte_budget s.work_queue_bytes frame_bytes s.config.maximum_work_queue_bytes)

  -- The two statements with which a frame enters the work queue.
  abbrev pub push_work : WorkFrame → ℕ → Impl → Impl
  push_work frame n s = record s {
    work_queue = s.work_queue ++ record { request = frame; accounted_bytes = n } ∷ [];
    work_queue_bytes = add64 s.work_queue_bytes n;
  }

  abbrev pub drop_work : Impl → ℕ → Impl
  drop_work s n =
      if work_overflow s n
      then record s { dropped_outbound_frames = add64 s.dropped_outbound_frames 1 }
      else s

  unfoldable pub queue_work_locked : WorkFrame → Impl → Bool × Impl
  queue_work_locked frame s =
      let n = work_frame_bytes s frame in
      if is_empty s.session_id
        || s.session_failed
        || s.stop_requested
        || ltb s.maximum_work_frame_bytes n
        || work_overflow s n
      then (false, drop_work s n)
      else (true, push_work frame n s)

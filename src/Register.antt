-- ===== src/Register.antt =====
-- src/session.cpp: `Register`, which turns the Host's answer into the fence of a session. What the
-- Host answers is an argument.
pub mod Capacity
use xgc2_adapter_runtime_cli.Base.{
  ℕ, ◌+◌, ◌-◌, ◌*◌, ◌/◌, max, Bool, true, false, not, ◌||◌, Bytes, text, is_empty, ltb, ◌==◌,
  if◌then◌else◌, u64_max,
}
use xgc2_adapter_runtime_cli.State.{ClientConfig, SessionFence, Impl}
use xgc2_adapter_runtime_cli.Replay.{canonical_sha256_text_bytes}

-- The fields of `RegisterResponse` that the client reads.
pub record RegisterResponse : Type 0 where
  pub accepted : Bool
  pub error_message : Bytes
  pub host_id : Bytes
  pub session_id : Bytes
  pub process_generation : ℕ
  pub session_generation : ℕ
  pub runtime_epoch : ℕ
  pub runtime_link_protocol_version : ℕ
  pub heartbeat_interval_ms : ℕ
  pub maximum_control_frame_bytes : ℕ
  pub maximum_work_frame_bytes : ℕ

-- The end of the call: a gRPC failure with its message, or an answer.
pub data RegisterOutcome : Type 0 where
  transport_failed : Bytes → RegisterOutcome
  answered : RegisterResponse → RegisterOutcome

pub data Registration : Type 0 where
  failed : Bytes → Registration
  registered : SessionFence → Registration

abbrev pub runtime_link_protocol_version : ℕ
runtime_link_protocol_version = 2

abbrev pub minimum_heartbeat_interval_ms : ℕ
minimum_heartbeat_interval_ms = 100

abbrev pub default_heartbeat_interval_ms : ℕ
default_heartbeat_interval_ms = 1000

abbrev pub digest_metadata_bytes : ℕ
digest_metadata_bytes = canonical_sha256_text_bytes * 2

unfoldable pub effective_heartbeat_interval : ℕ → ℕ
effective_heartbeat_interval interval =
    if interval == 0
    then default_heartbeat_interval_ms
    else max minimum_heartbeat_interval_ms interval

unfoldable pub fence_of : RegisterResponse → SessionFence
unfolding effective_heartbeat_interval
fence_of response = record {
  host_id = response.host_id;
  session_id = response.session_id;
  session_generation = response.session_generation;
  runtime_epoch = response.runtime_epoch;
  runtime_link_protocol_version = response.runtime_link_protocol_version;
  heartbeat_interval_ms = effective_heartbeat_interval response.heartbeat_interval_ms;
  maximum_control_frame_bytes = response.maximum_control_frame_bytes;
  maximum_work_frame_bytes = response.maximum_work_frame_bytes;
  connection_epoch = 1;
}

abbrev pub omits_fencing : ClientConfig → RegisterResponse → Bool
omits_fencing config response =
    is_empty response.host_id
    || is_empty response.session_id
    || not (response.process_generation == config.process_generation)
    || (response.session_generation == 0)
    || (response.runtime_epoch == 0)

abbrev pub cannot_be_represented : ℕ → Bool
cannot_be_represented work_frame_bytes =
    ltb (u64_max - digest_metadata_bytes) work_frame_bytes
    || ltb ((u64_max - digest_metadata_bytes) / 2) work_frame_bytes

-- Some budget cannot hold one negotiated frame.
abbrev pub too_small : ClientConfig → RegisterResponse → Bool
too_small config response =
    ltb config.maximum_control_queue_bytes response.maximum_control_frame_bytes
    || ltb config.maximum_work_queue_bytes response.maximum_work_frame_bytes
    || ltb config.maximum_dispatch_queue_bytes response.maximum_work_frame_bytes
    || ltb config.maximum_terminal_replay_bytes
        (response.maximum_work_frame_bytes + digest_metadata_bytes)
    || ltb config.maximum_source_state_bytes
        (response.maximum_work_frame_bytes * 2 + digest_metadata_bytes)

unfoldable pub check_response : ClientConfig → RegisterResponse → Registration
check_response config response =
    if not response.accepted
    then Registration.failed (
        if is_empty response.error_message
        then text "Register was rejected"
        else response.error_message)
    else if omits_fencing config response
    then Registration.failed (text "Register omitted or mismatched session fencing")
    else if not (response.runtime_link_protocol_version == runtime_link_protocol_version)
    then Registration.failed (text "Host did not select Runtime Link protocol version 2")
    else if (response.maximum_control_frame_bytes == 0) || (response.maximum_work_frame_bytes == 0)
    then Registration.failed (text "Host omitted mandatory Control/Work frame limits")
    else if cannot_be_represented response.maximum_work_frame_bytes
    then Registration.failed (text "negotiated Work frame limit cannot be represented")
    else if too_small config response
    then Registration.failed (text "configured byte budgets cannot hold one negotiated frame")
    else Registration.registered (fence_of response)

unfoldable pub conclude_registration : ClientConfig → RegisterOutcome → Registration
conclude_registration config (RegisterOutcome.transport_failed message) =
    Registration.failed (if is_empty message then text "Register transport failed" else message)
conclude_registration config (RegisterOutcome.answered response) = check_response config response

-- The single call that a process generation may make.
unfoldable pub register : RegisterOutcome → Impl → Registration × Impl
register outcome s =
    if s.registration_attempted
    then (Registration.failed (text "Register is single-use for this process generation"), s)
    else if s.stop_requested
    then (Registration.failed (text "Register was cancelled before dispatch"), s)
    else (conclude_registration s.config outcome, record s { registration_attempted = true })

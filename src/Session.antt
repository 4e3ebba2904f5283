-- ===== src/Session.antt =====
-- src/session.cpp: the state of a session and of a connection pair. `Session.Tokens` is about
-- the loop over the work tokens, `Session.Pairs` about the replacement of a pair.
pub mod Tokens
pub mod Pairs
use xgc2_adapter_runtime_cli.Base.{
  ℕ, zero, suc, Bool, true, false, not, ◌&&◌, Bytes, text, same, List, [], ◌∷◌, Option, none, some,
  map, size, ◌+◌, u64_max, ◌==◌, if◌then◌else◌,
}
use xgc2_adapter_runtime_cli.Message.{Environment}
use xgc2_adapter_runtime_cli.Message.Errors.{ErrorClass, AdapterError}
use xgc2_adapter_runtime_cli.Message.Spec.{CapabilityStatus, CapabilityState, default_instance_spec}
use xgc2_adapter_runtime_cli.Text.{make_error}
use xgc2_adapter_runtime_cli.State.{
  ClientState, SessionFence, CapabilityBinding, SourceState, Invocation, Impl,
}
use xgc2_adapter_runtime_cli.Replay.{release_work_token_locked}
use xgc2_adapter_runtime_cli.Signal.{cancel_all_work_locked}
use xgc2_adapter_runtime_cli.Application.{disabled_capability_statuses, notify_all_closed}

-- while (!work_tokens_.empty()) ReleaseWorkTokenLocked(work_tokens_.begin()->first), so many times.
unfoldable pub release_tokens : ℕ → Impl → Impl
release_tokens zero s = s
release_tokens (suc n) s = elim s.work_tokens [
  | [] ↦ s
  | e ∷ rest ↦ release_tokens n (release_work_token_locked e.0 s)
]

-- The loop: as many rounds as there are tokens.
unfoldable pub release_all_tokens : Impl → Impl
release_all_tokens s = release_tokens (size s.work_tokens) s

unfoldable pub install_session : SessionFence → Impl → Impl
install_session fence s = record s {
  session_failed = false;
  host_id = fence.host_id;
  session_id = fence.session_id;
  session_generation = fence.session_generation;
  runtime_epoch = fence.runtime_epoch;
  runtime_link_protocol_version = fence.runtime_link_protocol_version;
  heartbeat_interval_ms = fence.heartbeat_interval_ms;
  maximum_control_frame_bytes = fence.maximum_control_frame_bytes;
  maximum_work_frame_bytes = fence.maximum_work_frame_bytes;
  connection_epoch_counter = fence.connection_epoch;
  desired_spec = s.config.initial_spec;
  control_out_sequence = 0;
  work_out_sequence = 0;
  control_in_sequence = 0;
  work_in_sequence = 0;
  control_queue = [];
  work_queue = [];
  dispatch_queue = [];
  source_streams = [];
  closed_sources = [];
  control_queue_bytes = 0;
  work_queue_bytes = 0;
  dispatch_queue_bytes = 0;
  source_state_bytes = 0;
  capability_statuses = disabled_capability_statuses s;
  accepting_work = false;
  drain_requested = false;
  drain_reported = false;
  ready_callbacks_complete = false;
  state = ClientState.registered;
}

-- The assignments of PrepareConnectionPairLocked.
unfoldable pub fresh_pair : SessionFence → Impl → Impl
fresh_pair fence s = record s {
  session_failed = false;
  pair_ready = false;
  work_attach_allowed = false;
  work_attach_connection_epoch = 0;
  control_out_sequence = 0;
  work_out_sequence = 0;
  control_in_sequence = 0;
  work_in_sequence = 0;
  control_queue = [];
  work_queue = [];
  dispatch_queue = [];
  closed_sources = [];
  control_queue_bytes = 0;
  work_queue_bytes = 0;
  dispatch_queue_bytes = 0;
  source_state_bytes = 0;
  accepting_work = false;
  drain_requested = false;
  drain_reported = false;
  ready_callbacks_complete = not (s.spec_revision == 0);
  state = if fence.connection_epoch == 1 then ClientState.registered else ClientState.reconnecting;
}

-- The loop over the tokens reads and writes only the tokens and their bytes, so it may come first,
-- here and in the two operations below.
unfoldable pub prepare_connection_pair_locked : SessionFence → Impl → Impl
unfolding fresh_pair
prepare_connection_pair_locked fence s = fresh_pair fence (release_all_tokens s)

-- The first section of PreparePairReplacement: the streams that it takes out are told last.
unfoldable pub drop_pair_work : Impl → Impl
drop_pair_work s = record (cancel_all_work_locked s) {
  accepting_work = false;
  source_streams = [];
  dispatch_queue = [];
  dispatch_queue_bytes = 0;
}

unfoldable pub replaced_error : Bool → AdapterError
replaced_error stopping = make_error ErrorClass.cancelled (text "connection-pair-replaced") (
    if stopping
    then text "Runtime Link stopped"
    else text "Runtime Link connection pair was replaced")

module _ ⦃w : Environment⦄ where
  -- `wait_for_callbacks` is what the other threads do until no callback runs.
  unfoldable pub prepare_pair_replacement : (Impl → Impl) → Impl → Impl
  prepare_pair_replacement wait_for_callbacks s =
      let s' = release_all_tokens (wait_for_callbacks (drop_pair_work s)) in
      notify_all_closed s.source_streams (replaced_error s'.stop_requested) s'

-- The assignments of ClearConnectionStateLocked.
unfoldable pub without_connection : Impl → Impl
without_connection s = record s {
  control_queue = [];
  work_queue = [];
  dispatch_queue = [];
  control_queue_bytes = 0;
  work_queue_bytes = 0;
  dispatch_queue_bytes = 0;
  control_out_sequence = 0;
  work_out_sequence = 0;
  control_in_sequence = 0;
  work_in_sequence = 0;
  work_attach_allowed = false;
  pair_ready = false;
  work_attach_connection_epoch = 0;
  session_failed = false;
  accepting_work = false;
  drain_requested = false;
  drain_reported = false;
  ready_callbacks_complete = not (s.spec_revision == 0);
}

unfoldable pub clear_connection_state_locked : Impl → Impl
unfolding without_connection
clear_connection_state_locked s = without_connection (release_all_tokens s)

-- The assignments of ResetSessionLocked.
unfoldable pub without_session : Impl → Impl
without_session s = record s {
  host_id = [];
  session_id = [];
  session_generation = 0;
  runtime_epoch = 0;
  runtime_link_protocol_version = 0;
  heartbeat_interval_ms = 0;
  maximum_control_frame_bytes = 0;
  maximum_work_frame_bytes = 0;
  connection_epoch_counter = 0;
  spec_revision = 0;
  spec_digest = [];
  active_spec = default_instance_spec;
  desired_spec = default_instance_spec;
  active_capabilities = [];
  source_streams = [];
  closed_sources = [];
  control_queue = [];
  work_queue = [];
  dispatch_queue = [];
  replay = [];
  control_queue_bytes = 0;
  work_queue_bytes = 0;
  dispatch_queue_bytes = 0;
  source_state_bytes = 0;
  terminal_replay_bytes = 0;
  capability_statuses = disabled_capability_statuses s;
  accepting_work = false;
  session_failed = false;
  drain_requested = false;
  drain_reported = false;
  ready_callbacks_complete = false;
  work_attach_allowed = false;
  pair_ready = false;
  work_attach_connection_epoch = 0;
  terminal_session_failure = false;
  terminal_session_error = [];
}

unfoldable pub reset_session_locked : Impl → Impl
unfolding without_session
reset_session_locked s = without_session (release_all_tokens s)

-- The end of a round of the supervisor: the epoch of the next pair, if there is one.
unfoldable pub advance_epoch : Impl → Impl
advance_epoch s =
    if s.connection_epoch_counter == u64_max
    then record s {
      terminal_session_failure = true;
      terminal_session_error = text "connection epoch is exhausted";
    }
    else record s {
      connection_epoch_counter = s.connection_epoch_counter + 1;
      state = ClientState.reconnecting;
    }

module _ ⦃w : Environment⦄ where
  -- What the supervisor does between two pairs: the old pair is given up, and the next one prepared.
  unfoldable pub next_pair : SessionFence → (Impl → Impl) → Impl → Impl
  next_pair fence wait_for_callbacks s =
      let s' =
        advance_epoch
          (clear_connection_state_locked (prepare_pair_replacement wait_for_callbacks s)) in
      prepare_connection_pair_locked
        (record fence { connection_epoch = s'.connection_epoch_counter }) s'

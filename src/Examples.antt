-- ===== src/Examples.antt =====
-- A small client in a session, with one stream and one active Work, on which the theorems are applied.
pub mod Runs
pub mod Sessions
pub mod Specs
pub mod Configurations
use xgc2_adapter_runtime_cli.Base.{
  ℕ, ◌<◌, ◌≤◌, ◌+◌, ◌++◌, ◌≡◌, refl, true, false, Bool, Bytes, text, [], ◌∷◌, List, some, none,
  arith, min, u64_max, sum_by, length, find, Distinct, sum_map, size, u64_mod, find-insert, inl,
  inr, ◌↔◌, if◌then◌else◌, same, ◌==◌,
}
use xgc2_adapter_runtime_cli.Base.Int.{ℤ, pos, negsuc}
use xgc2_adapter_runtime_cli.Message.{Environment}
use xgc2_adapter_runtime_cli.Message.Errors.{
  ErrorClass, AdapterError, Payload, default_payload, default_error,
}
use xgc2_adapter_runtime_cli.Message.Spec.{
  CapabilityEndpointContract, InteractionMode, IdempotencyMode, SideEffectClass, EndpointLimits,
  default_instance_spec,
}
use xgc2_adapter_runtime_cli.Message.Work.{
  WorkFrame, WorkContext, Deadline, UnaryRequest, SourceOpenRequest, SourceCredit, Credit, Identity,
  WorkCancellation, TerminalAcknowledgement, SessionHeader, Terminal,
}
use xgc2_adapter_runtime_cli.State.{
  ClientState, ClientConfig, Request, DispatchJob, WorkTokenState, SourceState, ClosedSourceState,
  ReplayEntry, Phase, SessionFence, Impl, kind_of, same_kind,
}
use xgc2_adapter_runtime_cli.Budget.{InBudget}
use xgc2_adapter_runtime_cli.Budget.Steps.{Event}

abbrev class_number : ErrorClass → ℕ
class_number ErrorClass.unspecified = 0
class_number ErrorClass.permanent = 1
class_number ErrorClass.transient = 2
class_number ErrorClass.rejected = 3
class_number ErrorClass.deadline = 4
class_number ErrorClass.cancelled = 5
class_number ErrorClass.uncertain = 6
class_number ErrorClass.resource_exhausted = 7
class_number (ErrorClass.unrecognized n) = n

abbrev side_effect_number : SideEffectClass → ℕ
side_effect_number SideEffectClass.read_only = 1
side_effect_number SideEffectClass.non_idempotent = 3
side_effect_number (SideEffectClass.other n) = n

abbrev idempotency_number : IdempotencyMode → ℕ
idempotency_number IdempotencyMode.unspecified = 0
idempotency_number IdempotencyMode.not_supported = 1
idempotency_number IdempotencyMode.optional = 2
idempotency_number IdempotencyMode.required = 3
idempotency_number (IdempotencyMode.unrecognized n) = n

instance abbrev pub wire : Environment
wire = record {
  control_size = λ header frame. 20;
  work_size = λ header frame. 30;
  unary_size = λ r. 40;
  operation_size = λ r. 40;
  source_open_size = λ r. 40;
  payload_size = λ p. length p.value;
  json_ok = λ v. true;
  serialize = λ t. some (1 ∷ 2 ∷ []);
  full_name = λ t. text "m";
  class_number = class_number;
  side_effect_number = side_effect_number;
  idempotency_number = idempotency_number;
  same_spec = λ a b. a.revision == b.revision;
  same_scope = λ a b. same a.key b.key;
  stop_capability = λ index s. record s { last_error = text "stopped" };
  clear_instance_spec = λ s. record s { last_error = [] };
  source_closed =
      λ index request error s. record s { dropped_outbound_frames = s.dropped_outbound_frames + 1 };
}

abbrev pub config : ClientConfig
config = record {
  instance_id = text "i";
  process_generation = 1;
  initial_spec = default_instance_spec;
  capabilities = [];
  reconnect_initial_delay_ms = 100;
  reconnect_max_delay_ms = 1000;
  maximum_pair_reconnect_attempts = 3;
  maximum_control_queue = 4;
  maximum_work_queue = 4;
  maximum_dispatch_queue = 4;
  maximum_terminal_replay = 4;
  maximum_source_streams = 2;
  maximum_source_tombstones = 4;
  maximum_control_queue_bytes = 1000;
  maximum_work_queue_bytes = 1000;
  maximum_dispatch_queue_bytes = 1000;
  maximum_terminal_replay_bytes = 1000;
  maximum_source_state_bytes = 1000;
}

abbrev pub context : WorkContext
context = record {
  work_id = text "w";
  request_digest = text "d";
  capability_id = text "c";
  contract_version = 1;
  contract_digest = text "x";
  endpoint_id = text "e";
  spec_revision = 1;
  idempotency_key = [];
  deadline = record { ttl_ms = 5; deadline_unix_nanos = pos 0 };
  subject = none;
}

abbrev pub unary_request : UnaryRequest
unary_request = record { context = context; input = default_payload }

abbrev pub job : DispatchJob
job = record {
  request = Request.unary unary_request;
  work_id = text "w";
  fingerprint = text "d";
  inbound_frame_sequence = 1;
  connection_epoch = 0;
  accounted_bytes = 40;
  terminal_reservation_bytes = 300;
  cancellation = some 0;
}

abbrev pub stream : SourceState
stream = record {
  request = record { context = record context { work_id = text "v" }; initial_credit = none };
  binding_index = 0;
  cancellation = 1;
  phase = Phase.open_;
  connection_epoch = 1;
  message_credit = 3;
  byte_credit = 9;
  sequence = 0;
  acknowledged_sequence = 0;
  maximum_chunk_bytes = 0;
  maximum_chunk_messages = 2;
  accounted_bytes = 200;
}

-- A client in a session, with the Work "w" active and the stream "v" open.
abbrev pub client : Impl
client = record {
  config = config;
  callbacks = record {
    apply_instance_spec = true;
    clear_instance_spec = true;
    session_lost = true;
    stop_requested = true;
  };
  registration_attempted = true;
  state = ClientState.ready;
  stop_requested = false;
  session_failed = false;
  accepting_work = true;
  drain_requested = false;
  drain_reported = false;
  ready_callbacks_complete = true;
  work_attach_allowed = true;
  pair_ready = true;
  terminal_session_failure = false;
  session_lost_reported = false;
  last_error = [];
  terminal_session_error = [];
  host_id = text "h";
  session_id = text "s";
  session_generation = 1;
  runtime_epoch = 1;
  runtime_link_protocol_version = 1;
  heartbeat_interval_ms = 1000;
  maximum_control_frame_bytes = 100;
  maximum_work_frame_bytes = 100;
  connection_epoch_counter = 1;
  control_out_sequence = 0;
  work_out_sequence = 0;
  control_in_sequence = 0;
  work_in_sequence = 0;
  work_attach_connection_epoch = 1;
  spec_revision = 1;
  spec_digest = [];
  active_spec = default_instance_spec;
  desired_spec = default_instance_spec;
  active_capabilities = [];
  capability_statuses = [];
  control_queue = [];
  work_queue = [];
  dispatch_queue = [];
  work_tokens = (text "w", record { cancellation = 0; terminal_reservation_bytes = 300 }) ∷ [];
  in_flight_work = 0;
  active_dispatch_jobs = 1;
  replay = [];
  source_streams = (text "v", stream) ∷ [];
  closed_sources = [];
  rejected_dispatches = 0;
  dropped_outbound_frames = 0;
  control_queue_bytes = 0;
  work_queue_bytes = 0;
  dispatch_queue_bytes = 0;
  terminal_replay_bytes = 300;
  source_state_bytes = 200;
  requested = λ c. false;
  next_cancellation = 2;
  invocations = [];
}

pub client-InBudget : InBudget client
unfolding find sum_map size
client-InBudget = (
  record {
    control = omega arith;
    work = omega arith;
    dispatch = omega arith;
    replay = omega arith;
    source = omega arith;
  },
  record { counted = refl; within = omega arith; short = omega arith },
  record { counted = refl; within = omega arith; short = omega arith },
  record { counted = refl; within = omega arith; short = omega arith },
  record {
    replay_distinct = tt;
    tokens_distinct = (refl, tt);
    counted = refl;
    within = omega arith;
    short = omega arith;
  },
  record {
    streams_distinct = (refl, tt);
    closed_distinct = tt;
    apart = λ id x e. refl;
    counted = refl;
    within = omega arith;
    few = omega arith;
    short = omega arith;
  },
)

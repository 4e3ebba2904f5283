-- ===== src/Examples/Runs.antt =====
-- Each theorem at a concrete input that meets its hypotheses.
use xgc2_adapter_runtime_cli.Base.{
  ℕ, ◌<◌, ◌≤◌, ◌≡◌, ◌↔◌, refl, true, false, Bytes, text, [], ◌∷◌, ◌++◌, List, some, none, arith,
  Bool, ◌*◌, ◌^◌, ◌+◌, find, same, all, add64, erase, insert, size, before, sub64,
}
use xgc2_adapter_runtime_cli.Base.Int.{pos}
use xgc2_adapter_runtime_cli.Message.Errors.{ErrorClass, default_payload}
use xgc2_adapter_runtime_cli.Message.Spec.{
  CapabilityEndpointContract, InteractionMode, IdempotencyMode, SideEffectClass,
}
use xgc2_adapter_runtime_cli.Message.Work.{
  WorkFrame, Identity, TerminalAcknowledgement, SessionHeader, Terminal,
}
use xgc2_adapter_runtime_cli.Text.{
  make_error, is_canonical_identifier, is_canonical_sha256, is_lower_alpha, is_hex, after_prefix,
}
use xgc2_adapter_runtime_cli.Text.Identifier.{Words, is_canonical_identifier_lem}
use xgc2_adapter_runtime_cli.Digest.{
  digest_text, to_hex, finish, update, empty_hash, buffered, terminal_digest, update_loop,
  count_bytes, flush, copy_in, words_bytes, big_endian, fill, last_block, transform,
}
use xgc2_adapter_runtime_cli.Digest.Streaming.{update-update}
use xgc2_adapter_runtime_cli.Digest.Format.{digest_text_lem, terminal_digest-is_canonical_sha256}
use xgc2_adapter_runtime_cli.State.{SessionFence}
use xgc2_adapter_runtime_cli.Queue.{
  validate_header, work_frame_bytes, work_overflow, fits_byte_budget, measured_header,
}
use xgc2_adapter_runtime_cli.Queue.Headers.{
  IsCurrent, validate_header_lem, accepted, IsAscending, accepted-IsAscending,
}
use xgc2_adapter_runtime_cli.Deadline.{normalize_deadline, heartbeat_delay, next_backoff}
use xgc2_adapter_runtime_cli.Deadline.Laws.{
  normalize_deadline_lem, IsAligned, heartbeat_delay-IsAligned, next_backoff_doubles,
  next_backoff_wraps,
}
use xgc2_adapter_runtime_cli.Replay.{
  TerminalCommitResult, commit_terminal_frame, make_entry, terminal_of, commit_entry,
  converts_reservation, points_to, remember_replay_locked,
}
use xgc2_adapter_runtime_cli.Admission.{count_rejection, enqueue_dispatch}
use xgc2_adapter_runtime_cli.Admission.Redelivery.{
  IsSentAgain, commit_terminal_frame-enqueue_dispatch,
}
use xgc2_adapter_runtime_cli.Acknowledge.{handle_terminal_acknowledgement}
use xgc2_adapter_runtime_cli.Acknowledge.Release.{
  is_acceptable, IsAnswered, handle_terminal_acknowledgement_lem,
}
use xgc2_adapter_runtime_cli.Source.{publish_source, item_bytes}
use xgc2_adapter_runtime_cli.Source.Publication.{PublishOutcome, publish_source_lem, item_bytes_lem}
use xgc2_adapter_runtime_cli.Frames.{UnaryResult}
use xgc2_adapter_runtime_cli.Validate.{check_unary_result}
use xgc2_adapter_runtime_cli.Validate.Results.{IsSound, check_unary_result_lem}
use xgc2_adapter_runtime_cli.State.{Impl, DispatchKind}
use xgc2_adapter_runtime_cli.Handlers.{Returned}
use xgc2_adapter_runtime_cli.Budget.Rounds.{run_work-InBudget}
use xgc2_adapter_runtime_cli.Worker.{
  Application, take_job, run_work, retire_active, complete_invalid_job, complete_cancelled_job,
}
use xgc2_adapter_runtime_cli.Worker.Draining.{complete_job-drain_reported}
use xgc2_adapter_runtime_cli.Budget.{InBudget}
use xgc2_adapter_runtime_cli.Examples.{wire, config, job, client, client-InBudget}

abbrev pub response : WorkFrame
response =
    WorkFrame.unary_response
      (record { work_id = text "w"; output = some default_payload; error = none })

pub committed : (commit_terminal_frame job response client).0 ≡ TerminalCommitResult.committed
unfolding commit_terminal_frame work_frame_bytes text work_overflow fits_byte_budget make_entry
    terminal_of terminal_digest commit_entry find same add64 update_loop buffered count_bytes flush
    copy_in words_bytes erase insert size before sub64 big_endian empty_hash fill finish last_block
    transform update digest_text measured_header converts_reservation points_to
    remember_replay_locked
committed = refl

abbrev after_commit : Impl
after_commit = record (commit_terminal_frame job response client).1 { accepting_work = false }

redelivered_example :
    IsSentAgain response (count_rejection after_commit) (enqueue_dispatch job (pos 9) after_commit)
unfolding text
redelivered_example =
    commit_terminal_frame-enqueue_dispatch job job response (pos 9) client after_commit committed
      refl refl refl refl refl

abbrev digest : Bytes
digest = text "sha256:aaaaaaaaaaaaaaaaaaaaaaaaaaaaaaaaaaaaaaaaaaaaaaaaaaaaaaaaaaaaaaaa"

abbrev acknowledgement : TerminalAcknowledgement
acknowledgement = record { terminal_digest = digest; identity = Identity.work_id (text "z") }

-- A client that retains a terminal with this digest.
abbrev retaining : Impl
retaining = record client {
  replay =
      (
        text "z",
        record {
          kind = DispatchKind.unary;
          fingerprint = text "d";
          terminal = response;
          terminal_digest = digest;
          accounted_bytes = 30;
        },
      )
      ∷ [];
  terminal_replay_bytes = 30;
}

acceptable : is_acceptable (Identity.work_id (text "z")) digest retaining ≡ true
unfolding text is_canonical_sha256 find same all is_hex after_prefix
acceptable = refl

acknowledge_example :
    IsAnswered
      (Identity.work_id (text "z"))
      digest
      5
      retaining
      (handle_terminal_acknowledgement acknowledgement 5 retaining)
    × (is_acceptable (Identity.work_id (text "z")) digest retaining ≡ true
        → handle_terminal_acknowledgement acknowledgement 5
            (handle_terminal_acknowledgement acknowledgement 5 retaining)
          ≡ handle_terminal_acknowledgement acknowledgement 5 retaining)
acknowledge_example = handle_terminal_acknowledgement_lem acknowledgement 5 retaining

abbrev items : List Bytes
items = (1 ∷ 2 ∷ []) ∷ []

publish_example : PublishOutcome (text "v") items client (publish_source (text "v") items client)
publish_example = publish_source_lem (text "v") items client

abbrev endpoint : CapabilityEndpointContract
endpoint = record {
  endpoint_id = text "e";
  interaction_mode = InteractionMode.unary;
  input_schema = none;
  output_schema = none;
  event_schema = none;
  side_effect_class = SideEffectClass.read_only;
  idempotency_mode = IdempotencyMode.optional;
  deadline_required = false;
  default_timeout_ms = 0;
  maximum_timeout_ms = 0;
  limits = record {
    maximum_request_bytes = 10;
    maximum_response_bytes = 10;
    maximum_concurrency = 1;
    maximum_streams = 1;
    maximum_stream_chunk_bytes = 10;
    maximum_stream_chunk_messages = 10;
  };
}

abbrev result : UnaryResult
result = record {
  succeeded = true;
  output = default_payload;
  error = make_error ErrorClass.permanent (text "x") (text "y");
}

abbrev not_cancelled : Bool
not_cancelled = false

result_example :
    IsSound endpoint (check_unary_result endpoint not_cancelled result)
    × ((check_unary_result endpoint not_cancelled result).succeeded ≡ true
        → (result.succeeded ≡ true) × (not_cancelled ≡ false))
result_example =
    check_unary_result_lem (omega arith) (omega arith) refl endpoint not_cancelled result

deadline_example :
    normalize_deadline (record { ttl_ms = 5; deadline_unix_nanos = pos 0 }) (pos 9)
    ≡ record { ttl_ms = 0; deadline_unix_nanos = pos 5000009 }
deadline_example =
    normalize_deadline_lem (record { ttl_ms = 5; deadline_unix_nanos = pos 0 }) (pos 9)
      (omega arith)

heartbeat_example : IsAligned (pos 1500000) (2 * 1000000) (heartbeat_delay (pos 1500000) 2)
heartbeat_example = heartbeat_delay-IsAligned (pos 1500000) 2 (omega arith)

abbrev fence : SessionFence
fence = record {
  host_id = text "h";
  session_id = text "s";
  session_generation = 1;
  runtime_epoch = 1;
  runtime_link_protocol_version = 1;
  heartbeat_interval_ms = 1000;
  maximum_control_frame_bytes = 100;
  maximum_work_frame_bytes = 100;
  connection_epoch = 1;
}

abbrev header : ℕ → SessionHeader
header n = record {
  instance_id = text "i";
  session_id = text "s";
  process_generation = 1;
  session_generation = 1;
  runtime_epoch = 1;
  connection_epoch = 1;
  frame_sequence = n;
}

headers_example :
    IsAscending 0 (accepted fence (header 4 ∷ header 4 ∷ header 2 ∷ header 7 ∷ []) client)
headers_example = accepted-IsAscending fence (header 4 ∷ header 4 ∷ header 2 ∷ header 7 ∷ []) client

abbrev header_sequence : ℕ
header_sequence = 4

header_example :
    (validate_header config (header 4) fence 1 3 ≡ some header_sequence)
    ↔ (IsCurrent config (header 4) fence 1 × (3 < 4) × (header_sequence ≡ 4))
header_example = validate_header_lem config (header 4) fence 1 3 header_sequence

identifier_example :
    (is_canonical_identifier (text "a-b") ≡ true)
    ↔ ((c : ℕ) × (cs : Bytes) × (text "a-b" ≡ c ∷ cs) × (is_lower_alpha c ≡ true) × Words (c ∷ cs))
identifier_example = is_canonical_identifier_lem (text "a-b")

digest_example :
    digest_text (text "m") (1 ∷ 2 ∷ [])
    ≡ text "sha256:" ++ to_hex (finish (update empty_hash (text "m" ++ 0 ∷ 1 ∷ 2 ∷ [])))
digest_example = digest_text_lem (text "m") (1 ∷ 2 ∷ [])

canonical_example : is_canonical_sha256 (digest_text (text "m") (1 ∷ 2 ∷ [])) ≡ true
unfolding terminal_digest
canonical_example =
    terminal_digest-is_canonical_sha256
      (Terminal.closed (record { stream_id = text "v"; final_sequence = 0; error = none })) refl

start : buffered empty_hash < 64
unfolding buffered empty_hash
start = omega arith

update_example :
    (update (update empty_hash (1 ∷ [])) (2 ∷ 3 ∷ []) ≡ update empty_hash (1 ∷ 2 ∷ 3 ∷ []))
    × (buffered (update empty_hash (1 ∷ 2 ∷ 3 ∷ [])) < 64)
update_example = update-update empty_hash (1 ∷ []) (2 ∷ 3 ∷ []) start

backoff_example : (next_backoff 1000 300 ≡ 600) × (300 ≤ next_backoff 1000 300)
backoff_example = next_backoff_doubles 1000 300 (omega arith) (omega arith)

wraps_example :
    (next_backoff 4000000000 3000000000 + 2 ^ 32 ≡ 6000000000)
    × (next_backoff 4000000000 3000000000 < 3000000000)
wraps_example = next_backoff_wraps 4000000000 3000000000 (omega arith) (omega arith) (omega arith)

bytes_example : item_bytes 0 ((1 ∷ 2 ∷ []) ∷ (3 ∷ []) ∷ []) ≡ 3
bytes_example = item_bytes_lem 0 ((1 ∷ 2 ∷ []) ∷ (3 ∷ []) ∷ []) (omega arith)

drain_example :
    ((complete_invalid_job job (text "stale") (pos 9) client).drain_reported ≡ false)
    × ((retire_active (complete_cancelled_job job (pos 9) client)).drain_reported ≡ false)
drain_example = complete_job-drain_reported job (text "stale") (pos 9) client (omega arith)

abbrev application : Application
application = record {
  unary = λ index request s. (Returned.threw, s);
  operation = λ index request s. (Returned.threw, s);
  source_open = λ index request s. (Returned.threw, s);
}

-- The client with its job in the queue, and after a worker took it.
abbrev waiting : Impl
waiting = record client { dispatch_queue = job ∷ []; dispatch_queue_bytes = 40 }

abbrev taken : Impl
taken = record waiting {
  dispatch_queue = [];
  dispatch_queue_bytes = sub64 40 40;
  active_dispatch_jobs = add64 1 1;
}

waiting-InBudget : InBudget waiting
waiting-InBudget =
    let (words, control, work, dispatch, replay, table) = client-InBudget in
    (
      words,
      control,
      work,
      record { counted = refl; within = omega arith; short = omega arith },
      replay,
      table,
    )

take_waiting : take_job waiting.dispatch_queue waiting ≡ some (job, taken)
unfolding take_job
take_waiting = refl

round_example : InBudget (run_work application job (pos 9) taken)
round_example =
    run_work-InBudget application job (pos 9) waiting taken
      ((λ index request s b. b), λ index request s b. b) waiting-InBudget take_waiting

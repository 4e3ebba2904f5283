-- ===== src/Examples/Sessions.antt =====
-- The theorems on sessions, pairs and streams, each at a concrete input that meets its hypotheses.
use xgc2_adapter_runtime_cli.Base.{
  ℕ, ◌≤◌, ◌≡◌, refl, true, false, text, [], ◌∷◌, ◌++◌, List, arith, size, all, is_some,
}
use xgc2_adapter_runtime_cli.Base.Int.{pos}
use xgc2_adapter_runtime_cli.Message.Work.{WorkResponse, SessionHeader, Identity}
use xgc2_adapter_runtime_cli.Message.Control.{ControlResponse}
use xgc2_adapter_runtime_cli.State.{SessionFence, Impl}
use xgc2_adapter_runtime_cli.Signal.{cancel_all_work_locked}
use xgc2_adapter_runtime_cli.Queue.{work_frame_bytes, queue_work_locked}
use xgc2_adapter_runtime_cli.Replay.{commit_terminal_frame, reserve_terminal_replay_locked}
use xgc2_adapter_runtime_cli.Admission.{Decision, count_rejection, enqueue_locked}
use xgc2_adapter_runtime_cli.Application.Rely.{IsKept}
use xgc2_adapter_runtime_cli.InstanceSpec.Callbacks.{SpecReturn, Lifecycle}
use xgc2_adapter_runtime_cli.Contract.Key.{is_one_line, contract_key_lem}
use xgc2_adapter_runtime_cli.Session.{release_tokens, release_all_tokens, drop_pair_work, next_pair}
use xgc2_adapter_runtime_cli.Session.Tokens.{
  with_tokens, replay_bytes, release_tokens-IsEmpty, release_all_tokens_lem,
}
use xgc2_adapter_runtime_cli.Session.Pairs.{IsBetweenPairs, next_pair-enqueue_locked}
use xgc2_adapter_runtime_cli.Register.{
  RegisterResponse, Registration, check_response, fence_of, effective_heartbeat_interval,
}
use xgc2_adapter_runtime_cli.Register.Capacity.{first_pair, check_response-first_pair}
use xgc2_adapter_runtime_cli.WorkStream.Sequence.{written, AcceptedFrom, written-AcceptedFrom}
use xgc2_adapter_runtime_cli.WorkStream.Channel.{
  Use, contents, run_uses, accepted_frames, sent_frames, channel_lem,
}
use xgc2_adapter_runtime_cli.Supervisor.{Threads, supervise}
use xgc2_adapter_runtime_cli.Supervisor.Rounds.{EndsWithin, supervise-EndsWithin}
use xgc2_adapter_runtime_cli.Budget.{InBudget, IsReplayBounded}
use xgc2_adapter_runtime_cli.Budget.Specs.{KeepsBudget}
use xgc2_adapter_runtime_cli.Budget.Steps.{Event}
use xgc2_adapter_runtime_cli.Budget.Links.{Link, run_session, run_session-InBudget}
use xgc2_adapter_runtime_cli.Examples.{wire, config, job, client, client-InBudget}
use xgc2_adapter_runtime_cli.Examples.Runs.{response, committed}

abbrev fence : SessionFence
fence = record {
  host_id = text "h";
  session_id = text "s";
  session_generation = 1;
  runtime_epoch = 1;
  runtime_link_protocol_version = 2;
  heartbeat_interval_ms = 1000;
  maximum_control_frame_bytes = 100;
  maximum_work_frame_bytes = 100;
  connection_epoch = 1;
}

-- An application whose callbacks succeed and change nothing.
abbrev pub app : Lifecycle
app = record {
  apply_instance_spec = λ spec error s. (SpecReturn.returned true error, s);
  start = λ index grant error s. (SpecReturn.returned true error, s);
  ready = λ index s. (false, s);
  wait_for_callbacks = λ s. s;
}

app-KeepsBudget : KeepsBudget app
app-KeepsBudget = record {
  calls = record { stopped = λ i s b. b; cleared = λ s b. b; closed = λ i r e s b. b };
  apply_instance_spec = λ spec error s b. b;
  start = λ index grant error s b. b;
  ready = λ index s b. b;
  wait_for_callbacks = λ s b. b;
}

abbrev header : SessionHeader
header = record {
  instance_id = text "i";
  session_id = text "s";
  process_generation = 1;
  session_generation = 1;
  runtime_epoch = 1;
  connection_epoch = 1;
  frame_sequence = 1;
}

abbrev links : List Link
links =
    Link.work_read fence 40 header (pos 7)
      (WorkResponse.cancellation (record { reason = []; identity = Identity.work_id (text "w") }))
    ∷ Link.application_call (Event.publish (text "v") ((1 ∷ []) ∷ []))
    ∷ Link.work_written fence true
    ∷ Link.control_read fence 20 header (pos 8) (ControlResponse.ping 3)
    ∷ Link.control_written fence false (pos 9) true
    ∷ Link.pair_replaced fence
    ∷ Link.application_call Event.drain
    ∷ []

between-IsKept : IsKept IsBetweenPairs
between-IsKept = record {
  stopped = λ i s b. record { words = b.words; replay = b.replay; streams = b.streams };
  cleared = λ s b. record { words = b.words; replay = b.replay; streams = b.streams };
  closed = λ i r e s b. record { words = b.words; replay = b.replay; streams = b.streams };
}

session_example : InBudget (run_session app links client)
session_example =
    run_session-InBudget app links client app-KeepsBudget between-IsKept client-InBudget

survives_example :
    enqueue_locked job
      (pos 9)
      (next_pair fence (λ s. s) (commit_terminal_frame job response client).1)
    ≡ (
      Decision.replay_immediate response,
      count_rejection (next_pair fence (λ s. s) (commit_terminal_frame job response client).1),
    )
unfolding text drop_pair_work cancel_all_work_locked
survives_example =
    next_pair-enqueue_locked job job response (pos 9) fence (λ s. s) client committed refl refl refl
      refl (record { stopped = λ i s b. b; cleared = λ s b. b; closed = λ i r e s b. b }) refl

released_example : (release_tokens 1 client).work_tokens ≡ []
unfolding size
released_example = release_tokens-IsEmpty 1 client (omega arith)

client-IsReplayBounded : IsReplayBounded client
client-IsReplayBounded =
    let (words, control, work, dispatch, replay, table) = client-InBudget in replay

release_example : release_all_tokens client ≡ with_tokens client [] (replay_bytes client)
release_example = release_all_tokens_lem client client-IsReplayBounded

abbrev answer : RegisterResponse
answer = record {
  accepted = true;
  error_message = [];
  host_id = text "h";
  session_id = text "s";
  process_generation = 1;
  session_generation = 1;
  runtime_epoch = 1;
  runtime_link_protocol_version = 2;
  heartbeat_interval_ms = 50;
  maximum_control_frame_bytes = 100;
  maximum_work_frame_bytes = 100;
}

accepted_answer : check_response config answer ≡ Registration.registered (fence_of answer)
unfolding check_response fence_of text effective_heartbeat_interval
accepted_answer = refl

capacity_example :
    (work_frame_bytes (first_pair (fence_of answer) client) response ≤ 100
      → (queue_work_locked response (first_pair (fence_of answer) client)).0 ≡ true)
    × (is_some (reserve_terminal_replay_locked job (first_pair (fence_of answer) client)) ≡ true)
unfolding fence_of text
capacity_example =
    check_response-first_pair answer (fence_of answer) response job client accepted_answer
      client-IsReplayBounded refl refl (omega arith) (omega arith) refl (omega arith)

abbrev queued : Impl
queued = record client {
  work_queue =
      record { request = response; accounted_bytes = 30 }
      ∷ record { request = response; accounted_bytes = 30 }
      ∷ [];
  work_queue_bytes = 60;
}

written_example :
    AcceptedFrom config fence 0 (written fence ((λ s. s) ∷ (λ s. s) ∷ (λ s. s) ∷ []) queued)
written_example =
    written-AcceptedFrom fence ((λ s. s) ∷ (λ s. s) ∷ (λ s. s) ∷ []) queued
      ((λ s. (refl, refl)), ((λ s. (refl, refl)), ((λ s. (refl, refl)), tt))) (omega arith)

abbrev uses : List Use
uses = Use.offer response ∷ Use.take fence ∷ Use.offer response ∷ []

channel_example :
    sent_frames uses queued ++ contents (run_uses uses queued)
    ≡ contents queued ++ accepted_frames uses queued
channel_example = channel_lem uses queued

-- Threads whose pairs always fail.
abbrev threads : Threads
threads = record {
  run_pair = λ f s. record s { session_failed = true; pair_ready = false };
  wait_for_callbacks = λ s. s;
}

supervise_example : EndsWithin 3 (supervise 4 config threads fence 0 100 client)
unfolding drop_pair_work cancel_all_work_locked
supervise_example =
    supervise-EndsWithin 4 config threads fence 0 100 client (λ f s. refl)
      (record { stopped = λ i s b. b; cleared = λ s b. b; closed = λ i r e s b. b }) (omega arith)

key_example : (text "c" ≡ text "c") × (◌≡◌ {A = ℕ} 12 12) × (text "x" ≡ text "x")
unfolding is_one_line text all
key_example = contract_key_lem (text "c") (text "c") 12 12 (text "x") (text "x") refl refl refl

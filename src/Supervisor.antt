-- ===== src/Supervisor.antt =====
-- src/session.cpp: the supervisor, which runs one connection pair after the other, and the start and
-- the stop of the client; src/session_state.cpp: `EnterSessionLost`. What the threads of a pair do to
-- the state until they are joined is an argument.
pub mod Rounds
use xgc2_adapter_runtime_cli.Base.{
  ℕ, zero, suc, ◌+◌, Bool, true, false, not, ◌&&◌, Bytes, text, is_empty, List, [], ◌∷◌, ◌++◌,
  Option, none, some, leb, ◌==◌, if◌then◌else◌, u64_max,
}
use xgc2_adapter_runtime_cli.Message.{Environment}
use xgc2_adapter_runtime_cli.State.{ClientState, ClientConfig, SessionFence, Invocation, Impl}
use xgc2_adapter_runtime_cli.Deadline.{next_backoff}
use xgc2_adapter_runtime_cli.Signal.{cancel_all_work_locked}
use xgc2_adapter_runtime_cli.Application.{deactivate_application}
use xgc2_adapter_runtime_cli.Session.{
  release_all_tokens, install_session, prepare_connection_pair_locked, prepare_pair_replacement,
  clear_connection_state_locked, reset_session_locked, advance_epoch,
}
use xgc2_adapter_runtime_cli.Register.{RegisterOutcome, Registration, register}

-- What other threads do: those of a pair, and those whose callbacks are waited for.
pub record Threads : Type 0 where
  pub run_pair : SessionFence → Impl → Impl
  pub wait_for_callbacks : Impl → Impl

-- The section of EnterSessionLost under the lock, with the report to the owner.
unfoldable pub lose_session : Bytes → Impl → Impl
lose_session reason s = if s.stop_requested then s else record s {
  terminal_session_failure = true;
  terminal_session_error = reason;
  session_failed = true;
  accepting_work = false;
  state = ClientState.session_lost;
  last_error = reason;
  session_lost_reported = true;
  invocations =
      if not s.session_lost_reported && s.callbacks.session_lost
      then Invocation.session_lost reason ∷ s.invocations
      else s.invocations;
}

module _ ⦃w : Environment⦄ where
  unfoldable pub enter_session_lost : Threads → Bytes → Impl → Impl
  unfolding lose_session
  enter_session_lost threads reason s =
      lose_session reason (deactivate_application threads.wait_for_callbacks reason s)

  -- One pair, from its preparation to its end: whether it was ready, and the cleared state.
  unfoldable pub run_connection_pair : Threads → SessionFence → Impl → Bool × Impl
  run_connection_pair threads session_fence s =
      let fence = record session_fence { connection_epoch = s.connection_epoch_counter } in
      let ended =
        prepare_pair_replacement threads.wait_for_callbacks
          (threads.run_pair fence (prepare_connection_pair_locked fence s)) in
      (ended.pair_ready, clear_connection_state_locked ended)

pub data Next : Type 0 where
  leave : Next
  lost : Bytes → Next
  -- The reconnects used, and the delay before the next pair.
  retry : ℕ → ℕ → Next

-- The epoch is advanced, if there is another one.
unfoldable pub retry_pair : ℕ → ℕ → Impl → Next × Impl
retry_pair reconnects_used reconnect_delay s =
    if s.connection_epoch_counter == u64_max
    then (Next.lost (text "connection epoch is exhausted"), advance_epoch s)
    else (Next.retry (reconnects_used + 1) reconnect_delay, advance_epoch s)

unfoldable pub spend_reconnect : ClientConfig → ℕ → ℕ → Impl → Next × Impl
unfolding retry_pair
spend_reconnect config reconnects_used reconnect_delay s =
    if leb config.maximum_pair_reconnect_attempts reconnects_used
    then (
      Next.lost (
          text "paired Runtime Link reconnect budget exhausted"
          ++ (if is_empty s.last_error then [] else text ": " ++ s.last_error)),
      s,
    )
    else retry_pair reconnects_used reconnect_delay s

-- What follows a pair; one that was ready restores the budget and the delay.
unfoldable pub decide_next : ClientConfig → Bool → ℕ → ℕ → Impl → Next × Impl
unfolding spend_reconnect
decide_next config pair_was_ready reconnects_used reconnect_delay s =
    if s.stop_requested
    then (Next.leave, s)
    else if s.terminal_session_failure
    then (Next.lost s.terminal_session_error, s)
    else if pair_was_ready
    then spend_reconnect config 0 config.reconnect_initial_delay_ms s
    else spend_reconnect config reconnects_used reconnect_delay s

module _ ⦃w : Environment⦄ where
  -- The end of the loop.
  unfoldable pub leave_supervision : Threads → Impl → Impl
  leave_supervision threads s =
      record (reset_session_locked (
        deactivate_application threads.wait_for_callbacks (text "Runtime Link supervisor stopped")
          s)) { state = ClientState.stopped }

-- The state at the end of the supervision, with the delays that it waited; `none` is out of fuel.
abbrev pub Supervised : Type 0
Supervised = Option (List ℕ × Impl)

abbrev pub waited : ℕ → Supervised → Supervised
waited delay none = none
waited delay (some (delays, s)) = some (delay ∷ delays, s)

module _ ⦃w : Environment⦄ where
  -- What is left of a round; `continue` is the loop after the delay.
  unfoldable pub go_on : Threads → Next × Impl → (ℕ → ℕ → Impl → Supervised) → Supervised
  go_on threads (Next.leave, s) continue = some ([], leave_supervision threads s)
  go_on threads (Next.lost reason, s) continue = some ([], enter_session_lost threads reason s)
  go_on threads (Next.retry used delay, s) continue = waited delay (continue used delay s)

  -- The loop of SupervisorLoop, on fuel.
  unfoldable pub supervise : ℕ → ClientConfig → Threads → SessionFence → ℕ → ℕ → Impl → Supervised
  unfolding go_on
  supervise zero config threads fence reconnects_used reconnect_delay s = none
  supervise (suc fuel) config threads fence reconnects_used reconnect_delay s =
      let r = run_connection_pair threads fence s in
      let round =
        go_on threads (decide_next config r.0 reconnects_used reconnect_delay r.1) (λ used delay t.
          supervise fuel config threads fence used
            (next_backoff config.reconnect_max_delay_ms delay) t) in
      if s.stop_requested then some ([], leave_supervision threads s) else round

  -- SupervisorLoop: the registration first.
  unfoldable pub supervisor_loop : ℕ → Threads → RegisterOutcome → Impl → Supervised
  supervisor_loop fuel threads outcome s = begin (register outcome s)
    where
      begin : Registration × Impl → Supervised
      begin (Registration.failed message, t) = some (
        [],
        if t.stop_requested
            then t
            else enter_session_lost threads (text "registration failed: " ++ message) t,
      )
      begin (Registration.registered fence, t) =
          supervise fuel t.config threads fence 0 t.config.reconnect_initial_delay_ms
            (install_session fence t)

-- The section of Start that resets what an earlier run left.
unfoldable pub begin_start : Impl → Impl
begin_start s = record s {
  stop_requested = false;
  session_failed = false;
  terminal_session_failure = false;
  session_lost_reported = false;
  state = ClientState.connecting;
  last_error = [];
  terminal_session_error = [];
  replay = [];
  terminal_replay_bytes = 0;
  rejected_dispatches = 0;
  dropped_outbound_frames = 0;
}

-- The first section of Stop.
unfoldable pub begin_stop : Impl → Impl
begin_stop s = record (cancel_all_work_locked s) {
  stop_requested = true;
  accepting_work = false;
  state = ClientState.stopping;
}

-- The assignments of Stop after `ResetSessionLocked`, around its loop over the tokens.
unfoldable pub end_stop : Impl → Impl
end_stop s =
    record (release_all_tokens
      (record (reset_session_locked s) { state = ClientState.stopped; dispatch_queue = [] })) {
        replay = [];
        terminal_replay_bytes = 0;
      }

module _ ⦃w : Environment⦄ where
  -- Stop, from its first section on; `join` is what the threads do until they are joined.
  unfoldable pub stop : (Impl → Impl) → Threads → Impl → Impl
  stop join threads s = end_stop (
      deactivate_application threads.wait_for_callbacks (text "client stopped")
        (join (begin_stop s)))

-- ===== src/Supervisor/Rounds.antt =====
-- How often the supervisor reconnects: without a pair that becomes ready it ends after the configured
-- number of attempts.
use xgc2_adapter_runtime_cli.Base.{
  ℕ, zero, suc, ◌+◌, ◌-◌, ◌≤◌, ◌<◌, ◌≡◌, refl, sym, subst, ◌∙◌, true, false, Bytes, List, length,
  none, some, leb, ◌==◌, u64_max, if_cases, if_both, arith, inl, inr, ◌⊎◌, option_cases, list_cases,
  find,
}
use xgc2_adapter_runtime_cli.Message.{Environment}
use xgc2_adapter_runtime_cli.State.{ClientState, ClientConfig, SessionFence, Impl}
use xgc2_adapter_runtime_cli.Application.{deactivate_application}
use xgc2_adapter_runtime_cli.Application.Rely.{IsKept, keeps_all_notified}
use xgc2_adapter_runtime_cli.Deadline.{next_backoff}
use xgc2_adapter_runtime_cli.Replay.{release_work_token_locked}
use xgc2_adapter_runtime_cli.Session.{
  release_tokens, release_all_tokens, drop_pair_work, prepare_pair_replacement,
}
use xgc2_adapter_runtime_cli.Supervisor.{
  Threads, Next, retry_pair, spend_reconnect, decide_next, run_connection_pair, Supervised, waited,
  supervise, go_on, lose_session, enter_session_lost, leave_supervision,
}

-- Stopped, or lost; or the owner stops the client, and `Stop` ends the session.
abbrev pub IsFinal : Impl → Type 0
IsFinal s =
    (s.state ≡ ClientState.stopped)
    ⊎ ((s.state ≡ ClientState.session_lost) ⊎ (s.stop_requested ≡ true))

-- The supervision ends in such a state, after at most so many delays.
pub data EndsWithin (n : ℕ) : Supervised → Type 0 where
  ends :
      {delays : List ℕ} {s : Impl} → length delays ≤ n → IsFinal s → EndsWithin n (some (delays, s))

-- No pair is ready when its threads and the callbacks have ended.
abbrev pub IsNeverReady : Threads → Type 0
IsNeverReady threads =
    (fence : SessionFence) (s : Impl)
    → (threads.wait_for_callbacks (drop_pair_work (threads.run_pair fence s))).pair_ready ≡ false

release-pair_ready :
    (k : Bytes) (s : Impl) → (release_work_token_locked k s).pair_ready ≡ s.pair_ready
unfolding release_work_token_locked
release-pair_ready k s =
    option_cases (λ (x : Impl). x.pair_ready ≡ s.pair_ready) (find k s.work_tokens) (λ _. refl)
      (λ _ _. refl)

release_tokens-pair_ready : (n : ℕ) (s : Impl) → (release_tokens n s).pair_ready ≡ s.pair_ready
unfolding release_tokens
release_tokens-pair_ready zero s = refl
release_tokens-pair_ready (suc n) s =
    list_cases (λ (x : Impl). x.pair_ready ≡ s.pair_ready) s.work_tokens (λ _. refl)
      (λ e rest _.
        release_tokens-pair_ready n (release_work_token_locked e.0 s) ∙ release-pair_ready e.0 s)

module _ ⦃w : Environment⦄ where
  -- What the supervisor reads after the pair is what the pair left.
  run_connection_pair-ready :
      (threads : Threads) (fence : SessionFence) (s : Impl)
      → IsNeverReady threads
      → IsKept (λ t. t.pair_ready ≡ false)
      → (run_connection_pair threads fence s).0 ≡ false
  unfolding run_connection_pair prepare_pair_replacement release_all_tokens
  run_connection_pair-ready threads fence s never keeps =
      keeps_all_notified (λ t. t.pair_ready ≡ false) keeps (λ calls t p. p) _ _ _
        (release_tokens-pair_ready _ _ ∙ never _ _)

-- A retry uses one of the reconnects that are left.
data Spends (config : ClientConfig) (used : ℕ) : Next × Impl → Type 0 where
  leaves : {s : Impl} → Spends config used (Next.leave, s)
  loses : {reason : Bytes} {s : Impl} → Spends config used (Next.lost reason, s)
  retries :
      {delay : ℕ} {s : Impl}
      → used < config.maximum_pair_reconnect_attempts
      → Spends config used (Next.retry (used + 1) delay, s)

decide_next-Spends :
    (config : ClientConfig) (used delay : ℕ) (s : Impl)
    → Spends config used (decide_next config false used delay s)
unfolding decide_next spend_reconnect retry_pair
decide_next-Spends config used delay s =
    if_both (Spends config used) s.stop_requested Spends.leaves (
      if_both (Spends config used) s.terminal_session_failure Spends.loses (
        if_cases (Spends config used) (leb config.maximum_pair_reconnect_attempts used)
          (λ _. Spends.loses)
          (λ left.
            if_both (Spends config used) (s.connection_epoch_counter == u64_max) Spends.loses
              (Spends.retries (ground arith)))))

waited-EndsWithin :
    (n delay : ℕ) (r : Supervised) → EndsWithin n r → EndsWithin (suc n) (waited delay r)
waited-EndsWithin n delay none e = elim e [ ]
waited-EndsWithin n delay (some (delays, s)) (EndsWithin.ends h final) =
    EndsWithin.ends (omega (arith, h)) final

module _ ⦃w : Environment⦄ where
  enter_session_lost-IsFinal :
      (threads : Threads) (reason : Bytes) (s : Impl)
      → IsFinal (enter_session_lost threads reason s)
  unfolding enter_session_lost lose_session
  enter_session_lost-IsFinal threads reason s =
      let t = deactivate_application threads.wait_for_callbacks reason s in
      if_cases IsFinal t.stop_requested (λ stopping. inr (inr stopping)) (λ _. inr (inl refl))

  leave_supervision-IsFinal : (threads : Threads) (s : Impl) → IsFinal (leave_supervision threads s)
  unfolding leave_supervision
  leave_supervision-IsFinal threads s = inl refl

  go_on-EndsWithin :
      (config : ClientConfig) (threads : Threads) (used : ℕ) (next : Next × Impl)
      (continue : ℕ → ℕ → Impl → Supervised)
      → Spends config used next
      → ((delay : ℕ) (s : Impl)
          → used < config.maximum_pair_reconnect_attempts
          → EndsWithin
              (config.maximum_pair_reconnect_attempts - (used + 1))
              (continue (used + 1) delay s))
      → EndsWithin (config.maximum_pair_reconnect_attempts - used) (go_on threads next continue)
  unfolding go_on
  go_on-EndsWithin config threads used (Next.leave, s) continue Spends.leaves later =
      EndsWithin.ends (omega arith) (leave_supervision-IsFinal threads s)
  go_on-EndsWithin config threads used (Next.lost reason, s) continue Spends.loses later =
      EndsWithin.ends (omega arith) (enter_session_lost-IsFinal threads reason s)
  go_on-EndsWithin config threads used (Next.retry u delay, s) continue (Spends.retries lt) later =
      let left = config.maximum_pair_reconnect_attempts - (used + 1) in
      let one_less : suc left ≡ config.maximum_pair_reconnect_attempts - used = omega arith in
      subst (λ k. EndsWithin k (waited delay (continue (used + 1) delay s))) one_less
        (waited-EndsWithin left delay (continue (used + 1) delay s) (later delay s lt))

  -- Where no pair is ready when its threads and callbacks have ended, and the callbacks called after that make
  -- none ready: with fuel above the reconnects that
  -- are left of the configured number, the supervision ends, after at most that many delays, in a state that
  -- is stopped, or that has lost its session, or for which a stop is requested.
  pub supervise-EndsWithin :
      (fuel : ℕ) (config : ClientConfig) (threads : Threads) (fence : SessionFence) (used delay : ℕ)
      (s : Impl)
      → IsNeverReady threads
      → IsKept (λ t. t.pair_ready ≡ false)
      → config.maximum_pair_reconnect_attempts - used < fuel
      → EndsWithin
          (config.maximum_pair_reconnect_attempts - used)
          (supervise fuel config threads fence used delay s)
  unfolding supervise
  supervise-EndsWithin zero config threads fence used delay s never keeps enough =
      absurd (omega arith)
  supervise-EndsWithin (suc fuel) config threads fence used delay s never keeps enough =
      let r = run_connection_pair threads fence s in
      let spends =
        subst (λ b. Spends config used (decide_next config b used delay r.1))
          (sym (run_connection_pair-ready threads fence s never keeps))
          (decide_next-Spends config used delay r.1) in
      if_both (EndsWithin (config.maximum_pair_reconnect_attempts - used)) s.stop_requested
        (EndsWithin.ends (omega arith) (leave_supervision-IsFinal threads s))
        (go_on-EndsWithin config threads used (decide_next config r.0 used delay r.1) _ spends
          (λ d t lt.
            supervise-EndsWithin fuel config threads fence (used + 1)
              (next_backoff config.reconnect_max_delay_ms d) t never keeps
              (omega (arith, lt, enough))))

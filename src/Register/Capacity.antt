-- ===== src/Register/Capacity.antt =====
-- What the checks of `Register` are for: each budget of a new session can hold one negotiated frame.
use xgc2_adapter_runtime_cli.Base.{
  ◌+◌, ◌*◌, ◌≤◌, ◌<◌, ◌≡◌, sym, ap, subst, true, false, not, ◌||◌, ◌==◌, is_some, length, is_empty,
  Map, [], arith, if_cases, u64_mod, add64, sum_map, size,
}
use xgc2_adapter_runtime_cli.Message.{Environment}
use xgc2_adapter_runtime_cli.Message.Work.{WorkFrame}
use xgc2_adapter_runtime_cli.State.{ClientConfig, SessionFence, DispatchJob, ReplayEntry, Impl}
use xgc2_adapter_runtime_cli.Queue.{
  fits_byte_budget, work_frame_bytes, work_overflow, queue_work_locked,
}
use xgc2_adapter_runtime_cli.Replay.{reserve_terminal_replay_locked}
use xgc2_adapter_runtime_cli.Budget.{IsReplayBounded}
use xgc2_adapter_runtime_cli.Session.{install_session, fresh_pair, prepare_connection_pair_locked}
use xgc2_adapter_runtime_cli.Session.Tokens.{with_tokens, replay_bytes, release_all_tokens_lem}
use xgc2_adapter_runtime_cli.Register.{
  RegisterResponse, Registration, digest_metadata_bytes, check_response, fence_of,
  runtime_link_protocol_version, omits_fencing, cannot_be_represented, too_small,
}

-- The budgets hold one negotiated frame.
pub record HasCapacity (config : ClientConfig) (fence : SessionFence) : Type 0 where
  pub named : is_empty fence.session_id ≡ false
  pub control : fence.maximum_control_frame_bytes ≤ config.maximum_control_queue_bytes
  pub work : fence.maximum_work_frame_bytes ≤ config.maximum_work_queue_bytes
  pub dispatch : fence.maximum_work_frame_bytes ≤ config.maximum_dispatch_queue_bytes
  pub replay :
      fence.maximum_work_frame_bytes + digest_metadata_bytes ≤ config.maximum_terminal_replay_bytes
  pub source :
      fence.maximum_work_frame_bytes * 2 + digest_metadata_bytes ≤ config.maximum_source_state_bytes
  pub word : fence.maximum_work_frame_bytes * 2 + digest_metadata_bytes < u64_mod

abbrev Granted : ClientConfig → Registration → Type 0
Granted config (Registration.failed message) = Unit
Granted config (Registration.registered fence) = HasCapacity config fence

fence_of-HasCapacity :
    (config : ClientConfig) (r : RegisterResponse)
    → omits_fencing config r ≡ false
    → cannot_be_represented r.maximum_work_frame_bytes ≡ false
    → too_small config r ≡ false
    → HasCapacity config (fence_of r)
unfolding fence_of
fence_of-HasCapacity config r fenced represented large = record {
  named = ground arith;
  control = ground arith;
  work = ground arith;
  dispatch = ground arith;
  replay = ground arith;
  source = ground arith;
  word = ground arith;
}

check_response-Granted :
    (config : ClientConfig) (r : RegisterResponse) → Granted config (check_response config r)
unfolding check_response
check_response-Granted config r =
    if_cases (Granted config) (not r.accepted) (λ _. tt)
      (λ _.
        if_cases (Granted config) (omits_fencing config r) (λ _. tt)
          (λ fenced.
            if_cases (Granted config)
              (not (r.runtime_link_protocol_version == runtime_link_protocol_version)) (λ _. tt)
              (λ _.
                if_cases (Granted config)
                  ((r.maximum_control_frame_bytes == 0) || (r.maximum_work_frame_bytes == 0))
                  (λ _. tt)
                  (λ _.
                    if_cases (Granted config) (cannot_be_represented r.maximum_work_frame_bytes)
                      (λ _. tt)
                      (λ represented.
                        if_cases (Granted config) (too_small config r) (λ _. tt)
                          (λ large. fence_of-HasCapacity config r fenced represented large))))))

pub check_response-HasCapacity :
    (config : ClientConfig) (r : RegisterResponse) (fence : SessionFence)
    → check_response config r ≡ Registration.registered fence
    → HasCapacity config fence
check_response-HasCapacity config r fence e =
    subst (Granted config) e (check_response-Granted config r)

-- The state in which the first pair of a session starts.
abbrev pub first_pair : SessionFence → Impl → Impl
first_pair fence s = prepare_connection_pair_locked fence (install_session fence s)

-- The same, without the tokens that the client had.
first_pair_lem :
    (fence : SessionFence) (s : Impl)
    → IsReplayBounded s
    → first_pair fence s
      ≡ fresh_pair fence (with_tokens (install_session fence s) [] (replay_bytes s))
unfolding prepare_connection_pair_locked install_session
first_pair_lem fence s b =
    ap (fresh_pair fence) (release_all_tokens_lem (install_session fence s) b)

module _ ⦃w : Environment⦄ where
  abbrev CanSend : SessionFence → WorkFrame → Impl → Type 0
  CanSend fence frame p =
      work_frame_bytes p frame ≤ fence.maximum_work_frame_bytes
      → (queue_work_locked frame p).0 ≡ true

  abbrev CanReserve : DispatchJob → Impl → Type 0
  CanReserve job p = is_some (reserve_terminal_replay_locked job p) ≡ true

  fresh_pair-CanSend :
      (fence : SessionFence) (frame : WorkFrame) (s : Impl)
      → HasCapacity s.config fence
      → s.stop_requested ≡ false
      → 1 ≤ s.config.maximum_work_queue
      → CanSend fence frame
          (fresh_pair fence (with_tokens (install_session fence s) [] (replay_bytes s)))
  unfolding fresh_pair install_session queue_work_locked work_overflow fits_byte_budget
  fresh_pair-CanSend fence frame s c running room small = ground (arith, c.named, c.work)

  fresh_pair-CanReserve :
      (fence : SessionFence) (job : DispatchJob) (s : Impl)
      → HasCapacity s.config fence
      → s.replay ≡ []
      → is_empty job.work_id ≡ false
      → length job.fingerprint ≤ 71
      → 1 ≤ s.config.maximum_terminal_replay
      → CanReserve job
          (fresh_pair fence (with_tokens (install_session fence s) [] (replay_bytes s)))
  unfolding fresh_pair install_session reserve_terminal_replay_locked sum_map size fits_byte_budget
      add64
  fresh_pair-CanReserve fence job s c fresh named short room =
      let none_retained : size s.replay ≡ 0 = ap size fresh in
      let no_bytes : replay_bytes s ≡ 0 =
        ap (λ (m : Map ReplayEntry). sum_map (λ e. e.accounted_bytes) m) fresh in
      ground (arith, none_retained, no_bytes, c.replay, c.word)

  -- Once an answer of the Host is accepted, for a client that is not stopped, with its replay account in
  -- order and nothing retained, and with queues for at least one entry: on the first connection pair a frame
  -- within the negotiated limit goes into the Work queue, and for a Work with a nonempty id and a fingerprint
  -- of at most 71 bytes the bytes of its terminal can be reserved.
  pub check_response-first_pair :
      (r : RegisterResponse) (fence : SessionFence) (frame : WorkFrame) (job : DispatchJob)
      (s : Impl)
      → check_response s.config r ≡ Registration.registered fence
      → IsReplayBounded s
      → s.replay ≡ []
      → s.stop_requested ≡ false
      → 1 ≤ s.config.maximum_work_queue
      → 1 ≤ s.config.maximum_terminal_replay
      → is_empty job.work_id ≡ false
      → length job.fingerprint ≤ 71
      → CanSend fence frame (first_pair fence s) × CanReserve job (first_pair fence s)
  check_response-first_pair r fence frame job s e bounded fresh running room identities named
        short =
      let c = check_response-HasCapacity s.config r fence e in
      subst (λ p. CanSend fence frame p × CanReserve job p) (sym (first_pair_lem fence s bounded))
        (
          fresh_pair-CanSend fence frame s c running room,
          fresh_pair-CanReserve fence job s c fresh named short identities,
        )

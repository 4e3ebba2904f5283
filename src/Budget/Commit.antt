-- ===== src/Budget/Commit.antt =====
-- src/queue.cpp: `ReserveTerminalReplayLocked`, `ReleaseWorkTokenLocked` and `CommitTerminalFrame`
-- keep all accounts.
use xgc2_adapter_runtime_cli.Base.{
  ℕ, ◌+◌, ◌-◌, ◌≡◌, refl, true, false, not, ◌&&◌, ◌||◌, Bytes, Option, none, some, is_some,
  value_or, find, erase, insert, size, is_empty, leb, ltb, ◌==◌, if_both, if_cases, option_cases,
  subst, arith, add64,
}
use xgc2_adapter_runtime_cli.Message.{Environment}
use xgc2_adapter_runtime_cli.Message.Work.{WorkFrame}
use xgc2_adapter_runtime_cli.State.{WorkTokenState, ReplayEntry, Impl, DispatchJob}
use xgc2_adapter_runtime_cli.Queue.{
  measured_header, fits_byte_budget, work_overflow, work_frame_bytes, push_work,
}
use xgc2_adapter_runtime_cli.Replay.{
  TerminalCommitResult, release_work_token_locked, remember_replay_locked, points_to,
  converts_reservation, take_over, make_entry, commit_entry, commit_terminal_frame,
}
use xgc2_adapter_runtime_cli.Budget.{IsReplayTable, InBudget}
use xgc2_adapter_runtime_cli.Budget.Queues.{push_work-InBudget}
use xgc2_adapter_runtime_cli.Budget.Replay.{IsReplayTable-release, IsReplayTable-remember}

pub release_work_token-InBudget :
    (id : Bytes) (s : Impl) → InBudget s → InBudget (release_work_token_locked id s)
unfolding release_work_token_locked
release_work_token-InBudget id s (words, control, work, dispatch, replay, source) =
    option_cases InBudget (find id s.work_tokens)
      (λ _. (words, control, work, dispatch, replay, source))
      (λ token e.
        let (enough, space, table) =
          IsReplayTable-release s.replay s.work_tokens s.terminal_replay_bytes
            s.config.maximum_terminal_replay s.config.maximum_terminal_replay_bytes id token replay
            e in
        (
          words,
          control,
          work,
          dispatch,
          if_cases
              (λ n.
                IsReplayTable s.replay (erase id s.work_tokens) n s.config.maximum_terminal_replay
                  s.config.maximum_terminal_replay_bytes)
              (leb token.terminal_reservation_bytes s.terminal_replay_bytes) (λ h. table)
              (λ h. ground (arith, enough)),
          source,
        ))

-- A job's reservation is that of the token which stands under its identity.
abbrev OwnToken : DispatchJob → Impl → ℕ → Type 0
OwnToken job s r =
    (token : WorkTokenState) × (find job.work_id s.work_tokens ≡ some token)
    × (token.terminal_reservation_bytes ≡ r)

pub converts_reservation_lem :
    (job : DispatchJob) (s : Impl) (r : ℕ) → converts_reservation job s ≡ some r → OwnToken job s r
unfolding converts_reservation
converts_reservation_lem job s r =
    option_cases (λ c. c ≡ some r → OwnToken job s r) (find job.work_id s.work_tokens)
      (λ _ h. ground arith)
      (λ token e.
        if_cases (λ c. c ≡ some r → OwnToken job s r)
          (points_to job.cancellation token.cancellation
            && not (token.terminal_reservation_bytes == 0))
          (λ _ h. (token, e, ground arith)) (λ _ h. ground arith))

-- The state after the entry took the place of the job's token, whose reservation is `c`.
remember_fresh :
    (id : Bytes) (entry : ReplayEntry) (s : Impl)
    → find id s.replay ≡ none
    → remember_replay_locked id entry s ≡ record s {
      terminal_replay_bytes = add64 s.terminal_replay_bytes entry.accounted_bytes;
      replay = insert id entry s.replay;
    }
unfolding remember_replay_locked
remember_fresh id entry s fresh = rw fresh refl

replace :
    (job : DispatchJob) (entry : ReplayEntry) (s : Impl) (c : Option ℕ)
    → ((r : ℕ) → c ≡ some r → OwnToken job s r)
    → InBudget s
    → find job.work_id s.replay ≡ none
    → (not (is_some c) && leb s.config.maximum_terminal_replay (size s.replay + size s.work_tokens))
      ≡ false
    → fits_byte_budget
        (s.terminal_replay_bytes - value_or c 0)
        entry.accounted_bytes
        s.config.maximum_terminal_replay_bytes
      ≡ true
    → InBudget (remember_replay_locked job.work_id entry (take_over c job.work_id s))
replace job entry s none own (words, control, work, dispatch, replay, source) fresh room fits =
    rw (remember_fresh job.work_id entry s fresh) (
      words,
      control,
      work,
      dispatch,
      IsReplayTable-remember s.replay s.work_tokens s.terminal_replay_bytes
          s.config.maximum_terminal_replay s.config.maximum_terminal_replay_bytes job.work_id entry
          replay fresh room (ground arith) words.replay,
      source,
    )
replace job entry s (some r) own (words, control, work, dispatch, replay, source) fresh room fits =
    let (token, found, e) = own r refl in
    let (enough, space, table) =
      IsReplayTable-release s.replay s.work_tokens s.terminal_replay_bytes
        s.config.maximum_terminal_replay s.config.maximum_terminal_replay_bytes job.work_id token
        replay found in
    rw (remember_fresh job.work_id entry (take_over (some r) job.work_id s) fresh) (
      words,
      control,
      work,
      dispatch,
      IsReplayTable-remember s.replay (erase job.work_id s.work_tokens)
          (s.terminal_replay_bytes - r) s.config.maximum_terminal_replay
          s.config.maximum_terminal_replay_bytes job.work_id entry
          (subst
            (λ n.
              IsReplayTable s.replay (erase job.work_id s.work_tokens) (s.terminal_replay_bytes - n)
                s.config.maximum_terminal_replay s.config.maximum_terminal_replay_bytes)
            e table)
          fresh (ground (arith, space)) fits words.replay,
      source,
    )

module _ ⦃w : Environment⦄ where
  -- Either nothing of the state changes, or the entry took the place of the reservation and the frame
  -- is queued.
  pub commit_entry_cases {ℓ} :
      (P : TerminalCommitResult × Impl → Type ℓ) (job : DispatchJob) (frame : WorkFrame)
      (entry : ReplayEntry) (s : Impl)
      → P (TerminalCommitResult.unavailable, s)
      → (find job.work_id s.replay ≡ none
          → (not (is_some (converts_reservation job s))
              && leb s.config.maximum_terminal_replay (size s.replay + size s.work_tokens))
            ≡ false
          → fits_byte_budget
              (s.terminal_replay_bytes - value_or (converts_reservation job s) 0)
              entry.accounted_bytes
              s.config.maximum_terminal_replay_bytes
            ≡ true
          → P (
            TerminalCommitResult.committed,
            push_work frame (work_frame_bytes s frame) (
                remember_replay_locked job.work_id entry
                  (take_over (converts_reservation job s) job.work_id s)),
          ))
      → P (commit_entry job frame entry s)
  unfolding commit_entry
  commit_entry_cases P job frame entry s refused stored =
      if_cases P (is_some (find job.work_id s.replay)) (λ _. refused)
        (λ fresh.
          if_cases P (ltb s.terminal_replay_bytes (value_or (converts_reservation job s) 0))
            (λ _. refused)
            (λ _.
              if_cases P
                ((not (is_some (converts_reservation job s))
                    && leb s.config.maximum_terminal_replay (size s.replay + size s.work_tokens))
                  || not (
                      fits_byte_budget
                        (s.terminal_replay_bytes - value_or (converts_reservation job s) 0)
                        entry.accounted_bytes s.config.maximum_terminal_replay_bytes))
                (λ _. refused) (λ h. stored (ground arith) (ground arith) (ground arith))))

  -- The fields that a frame is measured and admitted by are those of the state before.
  push_stored :
      (job : DispatchJob) (frame : WorkFrame) (entry : ReplayEntry) (s : Impl) (c : Option ℕ)
      → work_overflow s (work_frame_bytes s frame) ≡ false
      → InBudget (remember_replay_locked job.work_id entry (take_over c job.work_id s))
      → InBudget (
          push_work frame
            (work_frame_bytes s frame)
            (remember_replay_locked job.work_id entry (take_over c job.work_id s)))
  unfolding remember_replay_locked work_overflow work_frame_bytes measured_header
  push_stored job frame entry s none room b =
      push_work-InBudget frame (remember_replay_locked job.work_id entry s) room b
  push_stored job frame entry s (some r) room b =
      push_work-InBudget frame
        (remember_replay_locked job.work_id entry (take_over (some r) job.work_id s)) room b

  commit_entry-InBudget :
      (job : DispatchJob) (frame : WorkFrame) (entry : ReplayEntry) (s : Impl)
      → work_overflow s (work_frame_bytes s frame) ≡ false
      → InBudget s
      → InBudget (commit_entry job frame entry s).1
  commit_entry-InBudget job frame entry s room b =
      commit_entry_cases (λ r. InBudget r.1) job frame entry s b
        (λ fresh space fits. push_stored job frame entry s (converts_reservation job s) room (
          replace job entry s (converts_reservation job s) (converts_reservation_lem job s) b fresh
            space fits))

  pub commit_terminal_cases {ℓ} :
      (P : TerminalCommitResult × Impl → Type ℓ) (job : DispatchJob) (frame : WorkFrame) (s : Impl)
      → P (TerminalCommitResult.too_large, s)
      → ((n : ℕ) → P (TerminalCommitResult.unavailable, record s { dropped_outbound_frames = n }))
      → ((entry : ReplayEntry)
          → make_entry job frame (work_frame_bytes s frame) ≡ some entry
          → is_empty s.session_id ≡ false
          → s.session_failed ≡ false
          → work_overflow s (work_frame_bytes s frame) ≡ false
          → P (commit_entry job frame entry s))
      → P (commit_terminal_frame job frame s)
  unfolding commit_terminal_frame
  commit_terminal_cases P job frame s large refused stored =
      if_cases P (ltb s.maximum_work_frame_bytes (work_frame_bytes s frame)) (λ _. large)
        (λ _.
          if_cases P
            (is_empty s.session_id
              || s.session_failed
              || s.stop_requested
              || work_overflow s (work_frame_bytes s frame))
            (λ _.
              if_both (λ x. P (TerminalCommitResult.unavailable, x))
                (work_overflow s (work_frame_bytes s frame)) (refused _) (refused _))
            (λ h.
              option_cases P (make_entry job frame (work_frame_bytes s frame)) (λ _. refused _)
                (λ entry e. stored entry e (ground arith) (ground arith) (ground arith))))

  pub commit_terminal_frame-InBudget :
      (job : DispatchJob) (frame : WorkFrame) (s : Impl)
      → InBudget s
      → InBudget (commit_terminal_frame job frame s).1
  commit_terminal_frame-InBudget job frame s b =
      commit_terminal_cases (λ r. InBudget r.1) job frame s b (λ n. b)
        (λ entry e _ _ room. commit_entry-InBudget job frame entry s room b)

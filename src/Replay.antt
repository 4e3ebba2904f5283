-- ===== src/Replay.antt =====
-- src/queue.cpp: the terminal replay table, its reservations, and the commit of a terminal frame.
use xgc2_adapter_runtime_cli.Base.{
  ℕ, ◌+◌, ◌-◌, Bool, false, not, ◌&&◌, ◌||◌, Bytes, length, is_empty, Option, none, some, is_some,
  value_or, find, insert, erase, size, ltb, leb, ◌==◌, if◌then◌else◌, add64, sub64, u64_max,
}
use xgc2_adapter_runtime_cli.Message.{Environment}
use xgc2_adapter_runtime_cli.Message.Work.{WorkFrame, Terminal}
use xgc2_adapter_runtime_cli.Digest.{terminal_digest}
use xgc2_adapter_runtime_cli.State.{DispatchKind, DispatchJob, ReplayEntry, Impl, kind_of}
use xgc2_adapter_runtime_cli.Queue.{
  fits_byte_budget, work_frame_bytes, work_overflow, push_work, drop_work,
}

pub data TerminalCommitResult : Type 0 where
  committed too_large unavailable : TerminalCommitResult

-- kCanonicalSha256TextBytes
abbrev pub canonical_sha256_text_bytes : ℕ
canonical_sha256_text_bytes = 71

-- `some` is true, with the changed job and state.
unfoldable pub reserve_terminal_replay_locked : DispatchJob → Impl → Option (DispatchJob × Impl)
reserve_terminal_replay_locked job s =
    let metadata_bytes = add64 (length job.fingerprint) canonical_sha256_text_bytes in
    let reservation = add64 s.maximum_work_frame_bytes metadata_bytes in
    if is_empty job.work_id
      || leb s.config.maximum_terminal_replay (size s.replay + size s.work_tokens)
    then none
    else if ltb (u64_max - metadata_bytes) s.maximum_work_frame_bytes
    then none
    else if not (
        fits_byte_budget s.terminal_replay_bytes reservation s.config.maximum_terminal_replay_bytes)
    then none
    else some (
      record job { terminal_reservation_bytes = reservation },
      record s { terminal_replay_bytes = add64 s.terminal_replay_bytes reservation },
    )

unfoldable pub release_work_token_locked : Bytes → Impl → Impl
release_work_token_locked work_id s = elim (find work_id s.work_tokens) [
  | none ↦ s
  | some token ↦ record s {
    terminal_replay_bytes =
        if leb token.terminal_reservation_bytes s.terminal_replay_bytes
        then s.terminal_replay_bytes - token.terminal_reservation_bytes
        else 0;
    work_tokens = erase work_id s.work_tokens;
  }
]

unfoldable pub remember_replay_locked : Bytes → ReplayEntry → Impl → Impl
remember_replay_locked work_id entry s =
    let kept : ℕ = elim (find work_id s.replay) [
      | none ↦ s.terminal_replay_bytes
      | some previous ↦ sub64 s.terminal_replay_bytes previous.accounted_bytes
    ] in
    record s {
      terminal_replay_bytes = add64 kept entry.accounted_bytes;
      replay = insert work_id entry s.replay;
    }

-- Whether a job's pointer and a token's are one `CancellationState`.
unfoldable pub points_to : Option ℕ → ℕ → Bool
points_to none c = false
points_to (some d) c = c == d

-- `some` is the reservation of the job's own token, which its terminal takes over.
unfoldable pub converts_reservation : DispatchJob → Impl → Option ℕ
unfolding points_to
converts_reservation job s = elim (find job.work_id s.work_tokens) [
  | none ↦ none
  | some token ↦
      if points_to job.cancellation token.cancellation
        && not (token.terminal_reservation_bytes == 0)
      then some token.terminal_reservation_bytes
      else none
]

-- The response or event of a frame that can end a job of this kind.
unfoldable pub terminal_of : DispatchKind → WorkFrame → Option Terminal
terminal_of DispatchKind.unary (WorkFrame.unary_response r) = some (Terminal.unary r)
terminal_of DispatchKind.operation (WorkFrame.operation_event e) = some (Terminal.operation e)
terminal_of _ _ = none

-- Drops the job's reservation, if its terminal takes it over.
abbrev pub take_over : Option ℕ → Bytes → Impl → Impl
take_over none work_id s = s
take_over (some reservation) work_id s = record s {
  terminal_replay_bytes = s.terminal_replay_bytes - reservation;
  work_tokens = erase work_id s.work_tokens;
}

module _ ⦃w : Environment⦄ where
  -- The entry of a terminal whose frame has so many bytes; `none` where it has no digest.
  unfoldable pub make_entry : DispatchJob → WorkFrame → ℕ → Option ReplayEntry
  make_entry job frame frame_bytes = elim (terminal_of (kind_of job.request) frame) [
    | none ↦ none
    | some terminal ↦ elim (terminal_digest terminal) [
      | none ↦ none
      | some digest ↦ some (record {
        kind = kind_of job.request;
        fingerprint = job.fingerprint;
        terminal = frame;
        terminal_digest = digest;
        accounted_bytes = add64 (add64 frame_bytes (length job.fingerprint)) (length digest);
      })
    ]
  ]

  -- The second half of `CommitTerminalFrame`, from the look at `replay_` on.
  unfoldable pub commit_entry :
      DispatchJob → WorkFrame → ReplayEntry → Impl → TerminalCommitResult × Impl
  unfolding converts_reservation remember_replay_locked
  commit_entry job frame entry s =
      let converted = converts_reservation job s in
      let reservation = value_or converted 0 in
      if is_some (find job.work_id s.replay)
      then (TerminalCommitResult.unavailable, s)
      else if ltb s.terminal_replay_bytes reservation
      then (TerminalCommitResult.unavailable, s)
      else if (not (is_some converted)
            && leb s.config.maximum_terminal_replay (size s.replay + size s.work_tokens))
          || not (
              fits_byte_budget (s.terminal_replay_bytes - reservation) entry.accounted_bytes
                s.config.maximum_terminal_replay_bytes)
      then (TerminalCommitResult.unavailable, s)
      else (
        TerminalCommitResult.committed,
        push_work frame (work_frame_bytes s frame)
            (remember_replay_locked job.work_id entry (take_over converted job.work_id s)),
      )

  unfoldable pub commit_terminal_frame :
      DispatchJob → WorkFrame → Impl → TerminalCommitResult × Impl
  commit_terminal_frame job frame s =
      let n = work_frame_bytes s frame in
      let stored : TerminalCommitResult × Impl = elim (make_entry job frame n) [
        | none ↦ (TerminalCommitResult.unavailable, s)
        | some entry ↦ commit_entry job frame entry s
      ] in
      if ltb s.maximum_work_frame_bytes n
      then (TerminalCommitResult.too_large, s)
      else if is_empty s.session_id || s.session_failed || s.stop_requested || work_overflow s n
      then (TerminalCommitResult.unavailable, drop_work s n)
      else stored

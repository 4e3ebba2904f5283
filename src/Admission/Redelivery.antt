-- ===== src/Admission/Redelivery.antt =====
-- src/queue.cpp and src/dispatch.cpp: what is retained is what a repeated request gets.
use xgc2_adapter_runtime_cli.Base.{
  ◌≡◌, refl, sym, ◌∙◌, ap, subst, Bool, Bytes, ◌||◌, if_cases, false, if_both, if◌then◌else◌, ltb,
  value_or, ℕ, true, false, same_refl, is_empty, some, find, find-insert, option_cases, arith,
}
use xgc2_adapter_runtime_cli.Base.Int.{ℤ}
use xgc2_adapter_runtime_cli.Message.{Environment}
use xgc2_adapter_runtime_cli.Message.Work.{WorkFrame}
use xgc2_adapter_runtime_cli.State.{DispatchJob, ReplayEntry, Impl, kind_of, same_kind}
use xgc2_adapter_runtime_cli.Queue.{
  work_frame_bytes, drop_work, work_overflow, push_work, queue_work_locked,
}
use xgc2_adapter_runtime_cli.Signal.{signal_current_session_failure}
use xgc2_adapter_runtime_cli.Digest.{terminal_digest}
use xgc2_adapter_runtime_cli.Replay.{
  TerminalCommitResult, terminal_of, take_over, converts_reservation, remember_replay_locked,
  make_entry, commit_terminal_frame,
}
use xgc2_adapter_runtime_cli.Admission.{
  Decision, redeliver, decide_retained, dispatch_decision, count_rejection, enqueue_locked,
  queue_work_or_signal, carry_out, enqueue_dispatch,
}
use xgc2_adapter_runtime_cli.Budget.Commit.{commit_terminal_cases, commit_entry_cases}

last_false : (a b : Bool) → (a || b) ≡ false → b ≡ false
last_false a b h = ground arith

module _ ⦃w : Environment⦄ where
  -- The entry of a frame holds the frame, with the job's kind and fingerprint.
  abbrev IsEntryOf : DispatchJob → WorkFrame → ReplayEntry → Type 0
  IsEntryOf job frame entry =
      (entry.terminal ≡ frame)
      × (entry.kind ≡ kind_of job.request)
      × (entry.fingerprint ≡ job.fingerprint)

  abbrev pub Retains : DispatchJob → WorkFrame → Impl → Type 0
  Retains job frame s =
      (entry : ReplayEntry) × (find job.work_id s.replay ≡ some entry) × IsEntryOf job frame entry

  make_entry_lem :
      (job : DispatchJob) (frame : WorkFrame) (n : ℕ) (entry : ReplayEntry)
      → make_entry job frame n ≡ some entry
      → IsEntryOf job frame entry
  unfolding make_entry
  make_entry_lem job frame n entry =
      option_cases (λ c. c ≡ some entry → IsEntryOf job frame entry)
        (terminal_of (kind_of job.request) frame) (λ _ h. ground arith)
        (λ terminal _.
          option_cases (λ c. c ≡ some entry → IsEntryOf job frame entry) (terminal_digest terminal)
            (λ _ h. ground arith)
            (λ digest _ h.
              subst (IsEntryOf job frame) (ap (λ o. value_or o entry) h) (refl, refl, refl)))

  pub commit_terminal_frame-Retains :
      (job : DispatchJob) (frame : WorkFrame) (s : Impl)
      → (commit_terminal_frame job frame s).0 ≡ TerminalCommitResult.committed
      → Retains job frame (commit_terminal_frame job frame s).1
  unfolding remember_replay_locked
  commit_terminal_frame-Retains job frame s =
      commit_terminal_cases P job frame s (λ h. ground arith) (λ n h. ground arith)
        (λ entry e _ _ _.
          commit_entry_cases P job frame entry s (λ h. ground arith)
            (λ _ _ _ _. (
              entry,
              rw
                  (
                    find-insert job.work_id job.work_id entry
                        (take_over (converts_reservation job s) job.work_id s).replay,
                    same_refl job.work_id,
                  )
                  refl,
              make_entry_lem job frame (work_frame_bytes s frame) entry e,
            )))
    where
      P : TerminalCommitResult × Impl → Type 0
      P r = r.0 ≡ TerminalCommitResult.committed → Retains job frame r.1

  -- The section under the lock answers with the retained frame, and counts the answer.
  pub commit_terminal_frame-enqueue_locked :
      (job again : DispatchJob) (frame : WorkFrame) (now : ℤ) (s later : Impl)
      → (commit_terminal_frame job frame s).0 ≡ TerminalCommitResult.committed
      → is_empty job.work_id ≡ false
      → again.work_id ≡ job.work_id
      → again.fingerprint ≡ job.fingerprint
      → same_kind (kind_of job.request) (kind_of again.request) ≡ true
      → find job.work_id later.replay
        ≡ find job.work_id (commit_terminal_frame job frame s).1.replay
      → enqueue_locked again now later ≡ (Decision.replay_immediate frame, count_rejection later)
  unfolding enqueue_locked dispatch_decision decide_retained redeliver
  commit_terminal_frame-enqueue_locked job again frame now s later done named id print kind kept =
      let (entry, found, (held, kinds, prints)) = commit_terminal_frame-Retains job frame s done in
      let still = kept ∙ found in
      rw (id, named, still, kinds, kind, prints, print, same_refl job.fingerprint, held) refl

  -- No frame is queued: there is no session, it ends, or the frame is too large for it or for the queue.
  abbrev IsRefused : WorkFrame → Impl → Type 0
  IsRefused frame s =
      (is_empty s.session_id
        || s.session_failed
        || s.stop_requested
        || ltb s.maximum_work_frame_bytes (work_frame_bytes s frame)
        || work_overflow s (work_frame_bytes s frame))
      ≡ true

  -- The frame goes to the end of the Work queue; or the pair fails for want of room, and only the count of
  -- dropped frames changes.
  pub data IsSentAgain (frame : WorkFrame) (s : Impl) : Impl → Type 0 where
    sent :
        work_overflow s (work_frame_bytes s frame) ≡ false
        → IsSentAgain frame s (push_work frame (work_frame_bytes s frame) s)
    pair_failed :
        (reason : Bytes) (dropped : ℕ)
        → IsRefused frame s
        → IsSentAgain frame s
            (signal_current_session_failure reason (record s { dropped_outbound_frames = dropped }))

  queue_work_or_signal-IsSentAgain :
      (frame : WorkFrame) (reason : Bytes) (s : Impl)
      → IsSentAgain frame s (queue_work_or_signal frame reason s)
  unfolding queue_work_or_signal queue_work_locked
  queue_work_or_signal-IsSentAgain frame reason s =
      let n = work_frame_bytes s frame in
      if_cases
        (λ (r : Bool × Impl).
          IsSentAgain frame s (if r.0 then r.1 else signal_current_session_failure reason r.1))
        (is_empty s.session_id
          || s.session_failed
          || s.stop_requested
          || ltb s.maximum_work_frame_bytes n
          || work_overflow s n)
        {x = (false, drop_work s n)} {y = (true, push_work frame n s)}
        (λ refused.
          if_both (λ (t : Impl). IsSentAgain frame s (signal_current_session_failure reason t))
            (work_overflow s n) (IsSentAgain.pair_failed _ _ refused)
            (IsSentAgain.pair_failed _ s.dropped_outbound_frames refused))
        (λ fits. IsSentAgain.sent (last_false _ _ fits))

  -- Once a terminal is committed, in any later state that retains the same under its nonempty work id: the
  -- whole handling of a request with this id, its kind and its fingerprint counts it, and puts exactly that
  -- frame at the end of the Work queue, with nothing else changed; or, where the queue has no room or the
  -- session takes no frame, it fails the pair, with at most the count of dropped frames changed before.
  pub commit_terminal_frame-enqueue_dispatch :
      (job again : DispatchJob) (frame : WorkFrame) (now : ℤ) (s later : Impl)
      → (commit_terminal_frame job frame s).0 ≡ TerminalCommitResult.committed
      → is_empty job.work_id ≡ false
      → again.work_id ≡ job.work_id
      → again.fingerprint ≡ job.fingerprint
      → same_kind (kind_of job.request) (kind_of again.request) ≡ true
      → find job.work_id later.replay
        ≡ find job.work_id (commit_terminal_frame job frame s).1.replay
      → IsSentAgain frame (count_rejection later) (enqueue_dispatch again now later)
  unfolding enqueue_dispatch carry_out
  commit_terminal_frame-enqueue_dispatch job again frame now s later done named id print kind kept =
      let answered =
        commit_terminal_frame-enqueue_locked job again frame now s later done named id print kind
          kept in
      subst (λ r. IsSentAgain frame (count_rejection later) (carry_out again r.0 r.1))
        (sym answered) (queue_work_or_signal-IsSentAgain frame _ (count_rejection later))

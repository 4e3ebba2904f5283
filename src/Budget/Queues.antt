-- ===== src/Budget/Queues.antt =====
-- The outbound queues: pushing, dropping and signalling keep the accounts.
use xgc2_adapter_runtime_cli.Base.{
  ℕ, same, ◌+◌, ◌≤◌, ◌<◌, ◌≡◌, Bool, true, false, not, ◌||◌, Bytes, List, [], ◌∷◌, ◌++◌, length,
  length-append, sum_by-append, is_empty, leb, ltb, if_both, Bool-cases, inl, inr, arith, add64,
  sub64, add64_exact, sub64_exact, u64_mod,
}
use xgc2_adapter_runtime_cli.Message.{Environment}
use xgc2_adapter_runtime_cli.Message.Work.{WorkFrame}
use xgc2_adapter_runtime_cli.Message.Control.{ControlFrame}
use xgc2_adapter_runtime_cli.State.{Impl}
use xgc2_adapter_runtime_cli.Queue.{
  fits_byte_budget, control_frame_bytes, control_overflow, queue_control_locked, work_frame_bytes,
  work_overflow, push_work, queue_work_locked,
}
use xgc2_adapter_runtime_cli.Signal.{
  signal_session_failure, signal_current_session_failure, signal_terminal_session_failure,
  queue_work_or_fail, queue_work_protocol_error, cancel_all_work_locked,
}
use xgc2_adapter_runtime_cli.Budget.{IsBounded, InBudget}

pub fits_byte_budget_lem :
    (used added maximum : ℕ) → fits_byte_budget used added maximum ≡ true → used + added ≤ maximum
unfolding fits_byte_budget
fits_byte_budget_lem used added maximum h = ground arith

module _ {A : Type 0} (bytes_of : A → ℕ) where
  pub IsBounded-push :
      (q : List A) (x : A) (bytes entries limit : ℕ)
      → IsBounded bytes_of q bytes entries limit
      → leb entries (length q) ≡ false
      → fits_byte_budget bytes (bytes_of x) limit ≡ true
      → limit < u64_mod
      → IsBounded bytes_of (q ++ x ∷ []) (add64 bytes (bytes_of x)) entries limit
  IsBounded-push q x bytes entries limit b room fits word = record {
    counted = omega (
      arith,
      b.counted,
      fits_byte_budget_lem bytes (bytes_of x) limit fits,
      add64_exact bytes (bytes_of x),
      sum_by-append bytes_of q (x ∷ []),
    );
    within =
        omega (
          arith,
          fits_byte_budget_lem bytes (bytes_of x) limit fits,
          add64_exact bytes (bytes_of x),
        );
    short = ground (arith, length-append q (x ∷ []));
  }

  pub IsBounded-pop :
      (q : List A) (x : A) (bytes entries limit : ℕ)
      → IsBounded bytes_of (x ∷ q) bytes entries limit
      → limit < u64_mod
      → IsBounded bytes_of q (sub64 bytes (bytes_of x)) entries limit
  IsBounded-pop q x bytes entries limit b word = record {
    counted = omega (arith, b.counted, b.within, sub64_exact bytes (bytes_of x));
    within = omega (arith, b.counted, b.within, sub64_exact bytes (bytes_of x));
    short = omega (arith, b.short);
  }

or_false : (a b : Bool) → (a || b) ≡ false → (a ≡ false) × (b ≡ false)
or_false a b h = ground arith

module _ ⦃w : Environment⦄ where
  -- Either the frame is refused, and only the count of dropped frames may change, or there was room
  -- and it went to the end of the queue.
  pub queue_work_cases {ℓ} :
      (P : Bool × Impl → Type ℓ) (frame : WorkFrame) (s : Impl)
      → ((n : ℕ) → P (false, record s { dropped_outbound_frames = n }))
      → (work_overflow s (work_frame_bytes s frame) ≡ false
          → P (true, push_work frame (work_frame_bytes s frame) s))
      → P (queue_work_locked frame s)
  unfolding queue_work_locked
  queue_work_cases P frame s refused queued =
      elim (Bool-cases (
        is_empty s.session_id
        || s.session_failed
        || s.stop_requested
        || ltb s.maximum_work_frame_bytes (work_frame_bytes s frame)
        || work_overflow s (work_frame_bytes s frame))) [
          | inl e ↦ rw e (
              if_both (λ x. P (false, x)) (work_overflow s (work_frame_bytes s frame)) (refused _)
                (refused _))
          | inr e ↦ rw e (queued (ground arith))
        ]

  pub queue_control_cases {ℓ} :
      (P : Bool × Impl → Type ℓ) (frame : ControlFrame) (s : Impl)
      → ((n : ℕ) → P (false, record s { dropped_outbound_frames = n }))
      → (control_overflow s (control_frame_bytes s frame) ≡ false
          → P (
            true,
            record s {
              control_queue =
                  s.control_queue
                  ++ record { request = frame; accounted_bytes = control_frame_bytes s frame } ∷ [];
              control_queue_bytes = add64 s.control_queue_bytes (control_frame_bytes s frame);
            },
          ))
      → P (queue_control_locked frame s)
  unfolding queue_control_locked
  queue_control_cases P frame s refused queued =
      elim (Bool-cases (
        is_empty s.session_id
        || s.session_failed
        || s.stop_requested
        || ltb s.maximum_control_frame_bytes (control_frame_bytes s frame)
        || control_overflow s (control_frame_bytes s frame))) [
          | inl e ↦ rw e (
              if_both (λ x. P (false, x)) (control_overflow s (control_frame_bytes s frame))
                (refused _) (refused _))
          | inr e ↦ rw e (queued (ground arith))
        ]

  pub push_work-InBudget :
      (frame : WorkFrame) (s : Impl)
      → work_overflow s (work_frame_bytes s frame) ≡ false
      → InBudget s
      → InBudget (push_work frame (work_frame_bytes s frame) s)
  unfolding work_overflow
  push_work-InBudget frame s room (words, control, work, dispatch, replay, source) = (
    words,
    control,
    IsBounded-push (λ f. f.accounted_bytes) s.work_queue
        (record { request = frame; accounted_bytes = work_frame_bytes s frame }) s.work_queue_bytes
        s.config.maximum_work_queue s.config.maximum_work_queue_bytes work (ground arith)
        (ground arith) words.work,
    dispatch,
    replay,
    source,
  )

  pub queue_work-InBudget :
      (frame : WorkFrame) (s : Impl) → InBudget s → InBudget (queue_work_locked frame s).1
  queue_work-InBudget frame s b =
      queue_work_cases (λ r. InBudget r.1) frame s (λ n. b)
        (λ room. push_work-InBudget frame s room b)

  pub queue_control-InBudget :
      (frame : ControlFrame) (s : Impl) → InBudget s → InBudget (queue_control_locked frame s).1
  unfolding control_overflow
  queue_control-InBudget frame s (words, control, work, dispatch, replay, source) =
      queue_control_cases (λ r. InBudget r.1) frame s
        (λ n. (words, control, work, dispatch, replay, source))
        (λ room. (
          words,
          IsBounded-push (λ f. f.accounted_bytes) s.control_queue
              (record { request = frame; accounted_bytes = control_frame_bytes s frame })
              s.control_queue_bytes s.config.maximum_control_queue
              s.config.maximum_control_queue_bytes control (ground arith) (ground arith)
              words.control,
          work,
          dispatch,
          replay,
          source,
        ))

pub signal_session_failure-InBudget :
    (id reason : Bytes) (s : Impl) → InBudget s → InBudget (signal_session_failure id reason s)
unfolding signal_session_failure cancel_all_work_locked
signal_session_failure-InBudget id reason s b =
    if_both InBudget (not (same s.session_id id) || s.stop_requested || s.session_failed) b b

pub signal_current_session_failure-InBudget :
    (reason : Bytes) (s : Impl) → InBudget s → InBudget (signal_current_session_failure reason s)
unfolding signal_current_session_failure
signal_current_session_failure-InBudget reason s b =
    if_both InBudget (is_empty s.session_id) b
      (signal_session_failure-InBudget s.session_id reason s b)

pub signal_terminal_session_failure-InBudget :
    (id reason : Bytes) (s : Impl)
    → InBudget s
    → InBudget (signal_terminal_session_failure id reason s)
unfolding signal_terminal_session_failure cancel_all_work_locked
signal_terminal_session_failure-InBudget id reason s b =
    if_both InBudget (not (same s.session_id id) || s.stop_requested) b b

module _ ⦃w : Environment⦄ where
  pub queue_work_or_fail-InBudget :
      (frame : WorkFrame) (s : Impl) → InBudget s → InBudget (queue_work_or_fail frame s)
  unfolding queue_work_or_fail
  queue_work_or_fail-InBudget frame s b =
      if_both InBudget (queue_work_locked frame s).0 (queue_work-InBudget frame s b)
        (signal_current_session_failure-InBudget _ _ (queue_work-InBudget frame s b))

  pub queue_work_protocol_error-InBudget :
      (sequence : ℕ) (message : Bytes) (s : Impl)
      → InBudget s
      → InBudget (queue_work_protocol_error sequence message s)
  unfolding queue_work_protocol_error
  queue_work_protocol_error-InBudget sequence message s b = queue_work_or_fail-InBudget _ s b

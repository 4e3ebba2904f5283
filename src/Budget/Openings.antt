-- ===== src/Budget/Openings.antt =====
-- src/dispatch.cpp: the admission of source opens keeps all accounts.
use xgc2_adapter_runtime_cli.Base.{
  ℕ, ◌+◌, ◌≤◌, ◌<◌, ◌≡◌, sym, subst, true, false, not, ◌&&◌, ◌||◌, same, length, is_empty, none,
  is_some, value_or, Option-cases, inl, inr, text, find, size, leb, ◌==◌, if◌then◌else◌, if_both,
  if_cases, arith, add64, sub64, add64_exact, sub64_exact, u64_max, u64_mod,
}
use xgc2_adapter_runtime_cli.Base.Int.{ℤ}
use xgc2_adapter_runtime_cli.Message.{Environment}
use xgc2_adapter_runtime_cli.Message.Errors.{ErrorClass, AdapterError}
use xgc2_adapter_runtime_cli.Text.{make_error}
use xgc2_adapter_runtime_cli.Message.Work.{WorkFrame, SourceOpenRequest}
use xgc2_adapter_runtime_cli.State.{DispatchKind, DispatchJob, Impl}
use xgc2_adapter_runtime_cli.Endpoint.{ActiveEndpoint}
use xgc2_adapter_runtime_cli.Queue.{
  fits_byte_budget, measured_header, work_frame_bytes, work_overflow,
}
use xgc2_adapter_runtime_cli.Source.{closed_state, remember_closed_source_locked}
use xgc2_adapter_runtime_cli.Admission.{is_source_work, fresh_cancellation}
use xgc2_adapter_runtime_cli.Frames.{source_open_rejected}
use xgc2_adapter_runtime_cli.Opening.{credit_of}
use xgc2_adapter_runtime_cli.Validate.{Validation, validate_work_context_locked}
use xgc2_adapter_runtime_cli.SourceAdmission.{
  SourceDecision, source_accounting, source_room, has_source_identity, has_open_handler,
  bound_source, decide_context, reopen, decide_source, opened, rejected_source, Rest, reject_locked,
  count_rejected, apply_source_decision, conclude_source, enqueue_source_open,
}
use xgc2_adapter_runtime_cli.Budget.{InBudget, IsSourceTable, Kept}
use xgc2_adapter_runtime_cli.Budget.Queues.{
  fits_byte_budget_lem, IsBounded-push, push_work-InBudget, signal_current_session_failure-InBudget,
  queue_work_protocol_error-InBudget,
}
use xgc2_adapter_runtime_cli.Budget.Sources.{IsSourceTable-open, IsSourceTable-bury}
use xgc2_adapter_runtime_cli.Budget.Streams.{commit_source_cases}
use xgc2_adapter_runtime_cli.Budget.Admissions.{queue_work_or_signal-InBudget}

-- The id is that of no stream, open or closed.
record IsUnknown (job : DispatchJob) (s : Impl) : Type 0 where
  absent : find job.work_id s.source_streams ≡ none
  unknown : find job.work_id s.closed_sources ≡ none

-- There is room for one more stream and its job.
record HasRoom (job : DispatchJob) (s : Impl) : Type 0 where
  identity : has_source_identity s ≡ false
  few : leb s.config.maximum_source_streams (size s.source_streams) ≡ false
  queue : leb s.config.maximum_dispatch_queue (length s.dispatch_queue) ≡ false
  bytes :
      fits_byte_budget s.dispatch_queue_bytes job.accounted_bytes
        s.config.maximum_dispatch_queue_bytes
      ≡ true
  state : source_room job s ≡ true

-- What a decision rests on.
data Justified (job : DispatchJob) (s : Impl) : SourceDecision → Type 0 where
  identity_violation : Justified job s SourceDecision.identity_violation
  retire_pair : Justified job s SourceDecision.retire_pair
  replay_immediate : {frame : WorkFrame} → Justified job s (SourceDecision.replay_immediate frame)
  reject_source :
      {error : AdapterError}
      → IsUnknown job s
      → Justified job s (SourceDecision.reject_source error)
  open_source :
      {active : ActiveEndpoint}
      → IsUnknown job s
      → HasRoom job s
      → Justified job s (SourceDecision.open_source active)

bound_source-Justified :
    (job : DispatchJob) (request : SourceOpenRequest) (active : ActiveEndpoint) (s : Impl)
    → IsUnknown job s
    → Justified job s (bound_source job request active s)
unfolding bound_source
bound_source-Justified job request active s u =
    if_both (Justified job s) (not (has_open_handler s active.binding_index))
      (Justified.reject_source u)
      (if_cases (Justified job s) (has_source_identity s) (λ _. Justified.retire_pair)
        (λ identity.
          if_cases (Justified job s) (leb s.config.maximum_source_streams (size s.source_streams))
            (λ _. Justified.reject_source u)
            (λ few. if_both (Justified job s) _ (Justified.reject_source u) (
              if_cases (Justified job s)
                (leb s.config.maximum_dispatch_queue (length s.dispatch_queue))
                (λ _. Justified.reject_source u)
                (λ queue.
                  if_cases (Justified job s)
                    (not (
                      fits_byte_budget s.dispatch_queue_bytes job.accounted_bytes
                        s.config.maximum_dispatch_queue_bytes))
                    (λ _. Justified.reject_source u)
                    (λ bytes.
                      if_cases (Justified job s) (not (source_room job s))
                        (λ _. Justified.retire_pair)
                        (λ state. Justified.open_source u (record {
                          identity = identity;
                          few = few;
                          queue = queue;
                          bytes = ground arith;
                          state = ground arith;
                        }))))))))

decide_context-Justified :
    (job : DispatchJob) (request : SourceOpenRequest) (now : ℤ) (s : Impl)
    → IsUnknown job s
    → Justified job s (decide_context job request now s)
unfolding decide_context
decide_context-Justified job request now s u =
    if_both (Justified job s)
      (is_empty request.context.capability_id || is_empty request.context.endpoint_id)
      (Justified.reject_source u)
      (if_both (Justified job s)
        ((credit_of request).messages == 0 || (credit_of request).bytes == 0)
        (Justified.reject_source u)
        (checked (validate_work_context_locked request.context DispatchKind.source_open now s)))
  where
    checked :
        (v : Validation)
        → Justified job s (elim v as (λ _. SourceDecision) [
          | Validation.invalid reason ↦
              SourceDecision.reject_source
                (make_error ErrorClass.rejected (text "invalid-work-context") reason)
          | Validation.valid active ↦ bound_source job request active s
        ])
    checked (Validation.invalid reason) = Justified.reject_source u
    checked (Validation.valid active) = bound_source-Justified job request active s u

decide_source-Justified :
    (job : DispatchJob) (request : SourceOpenRequest) (now : ℤ) (s : Impl)
    → Justified job s (decide_source job request now s)
unfolding decide_source reopen
decide_source-Justified job request now s =
    if_both (Justified job s) (is_empty job.work_id) Justified.identity_violation
      (elim (Option-cases (find job.work_id s.closed_sources)) [
        | inl e ↦ rw e (
            if_cases (Justified job s)
              (is_some (find job.work_id s.source_streams)
                || is_some (find job.work_id s.work_tokens)
                || is_some (find job.work_id s.replay)
                || is_source_work job.work_id s.source_streams)
              (λ _. Justified.identity_violation)
              (λ h.
                decide_context-Justified job request now s
                  (record { absent = ground arith; unknown = e })))
        | inr (closed, e) ↦ rw e (
            if_both (Justified job s)
              (same closed.fingerprint job.fingerprint && not (is_empty closed.terminal_digest))
              Justified.replay_immediate Justified.identity_violation)
      ])

-- The bytes that a source counts for, where there is room for them.
abbrev counted_bytes : DispatchJob → Impl → ℕ
counted_bytes job s = value_or (source_accounting job s) u64_max

source_room_lem :
    (job : DispatchJob) (s : Impl)
    → source_room job s ≡ true
    → fits_byte_budget s.source_state_bytes
        (counted_bytes job s)
        s.config.maximum_source_state_bytes
      ≡ true
unfolding source_room
source_room_lem job s h = elim (Option-cases (source_accounting job s)) [
  | inl e ↦ ground arith
  | inr (n, e) ↦ ground arith
]

opened-InBudget :
    (job : DispatchJob) (request : SourceOpenRequest) (active : ActiveEndpoint) (s : Impl)
    → IsUnknown job s
    → HasRoom job s
    → InBudget s
    → InBudget (opened job request active (counted_bytes job s) s)
unfolding opened
opened-InBudget job request active s u r (words, control, work, dispatch, replay, table) = (
  words,
  control,
  work,
  IsBounded-push (λ j. j.accounted_bytes) s.dispatch_queue _ s.dispatch_queue_bytes
      s.config.maximum_dispatch_queue s.config.maximum_dispatch_queue_bytes dispatch r.queue r.bytes
      words.dispatch,
  replay,
  IsSourceTable-open s.source_state_bytes s.config.maximum_source_streams
      s.config.maximum_source_tombstones s.config.maximum_source_state_bytes s.source_streams
      s.closed_sources job.work_id _ table u.absent u.unknown r.few r.identity
      (source_room_lem job s r.state) words.source,
)

restored : (a b limit : ℕ) → a + b ≤ limit → limit < u64_mod → sub64 (add64 a b) b ≡ a
restored a b limit fit word = omega (arith, add64_exact a b, sub64_exact (add64 a b) b)

module _ ⦃w : Environment⦄ where
  -- A rejection is undone, or leaves a tombstone.
  reject_locked-InBudget :
      (job : DispatchJob) (request : SourceOpenRequest) (error : AdapterError) (s : Impl)
      → IsUnknown job s
      → InBudget s
      → Kept (reject_locked job request error s)
  unfolding reject_locked rejected_source remember_closed_source_locked closed_state work_overflow
      work_frame_bytes measured_header
  reject_locked-InBudget job request error s u b =
      let (words, control, work, dispatch, replay, table) = b in
      let bytes = counted_bytes job s in
      if_cases Kept (has_source_identity s || not (source_room job s)) (λ _. record { kept = b })
        (λ free.
          let fits = source_room_lem job s (ground arith) in
          commit_source_cases
            (λ r. Kept (
              if r.0 then (Rest.nothing, r.1) else (
                Rest.retire,
                record r.1 { source_state_bytes = sub64 r.1.source_state_bytes bytes },
              )))
            job.work_id (rejected_source request bytes s) (source_open_rejected job.work_id error)
            (record (fresh_cancellation s) {
              source_state_bytes = add64 s.source_state_bytes bytes;
            })
            (λ n. record {
              kept = (
                words,
                control,
                work,
                dispatch,
                replay,
                subst
                    (λ m.
                      IsSourceTable s.source_streams s.closed_sources m
                        s.config.maximum_source_streams s.config.maximum_source_tombstones
                        s.config.maximum_source_state_bytes)
                    (sym (
                      restored s.source_state_bytes bytes s.config.maximum_source_state_bytes
                        (fits_byte_budget_lem s.source_state_bytes bytes _ fits) words.source))
                    table,
              );
            })
            (λ digest room. record {
              kept = (
                words,
                control,
                (push_work-InBudget (source_open_rejected job.work_id error) s room b).2,
                dispatch,
                replay,
                IsSourceTable-bury s.source_state_bytes s.config.maximum_source_streams
                    s.config.maximum_source_tombstones s.config.maximum_source_state_bytes
                    s.source_streams s.closed_sources job.work_id _ table u.absent u.unknown
                    (ground arith) fits words.source,
              );
            }))

  apply_source_decision-InBudget :
      (job : DispatchJob) (request : SourceOpenRequest) (decision : SourceDecision) (s : Impl)
      → Justified job s decision
      → InBudget s
      → Kept (apply_source_decision job request decision s)
  unfolding apply_source_decision
  apply_source_decision-InBudget job request SourceDecision.identity_violation s
        Justified.identity_violation b =
      record { kept = b }
  apply_source_decision-InBudget job request SourceDecision.retire_pair s Justified.retire_pair b =
      record { kept = b }
  apply_source_decision-InBudget job request (SourceDecision.replay_immediate frame) s
        Justified.replay_immediate b =
      record { kept = b }
  apply_source_decision-InBudget job request (SourceDecision.reject_source error) s
        (Justified.reject_source u) b =
      reject_locked-InBudget job request error (count_rejected s)
        (record { absent = u.absent; unknown = u.unknown }) b
  apply_source_decision-InBudget job request (SourceDecision.open_source active) s
        (Justified.open_source u r) b =
      record { kept = opened-InBudget job request active s u r b }

  conclude_source-InBudget :
      (sequence : ℕ) (rest : Rest) (s : Impl)
      → InBudget s
      → InBudget (conclude_source sequence rest s)
  unfolding conclude_source
  conclude_source-InBudget sequence Rest.nothing s b = b
  conclude_source-InBudget sequence Rest.violation s b =
      queue_work_protocol_error-InBudget sequence _ s b
  conclude_source-InBudget sequence Rest.retire s b = signal_current_session_failure-InBudget _ s b
  conclude_source-InBudget sequence (Rest.resend frame) s b =
      queue_work_or_signal-InBudget frame _ s b

  pub enqueue_source_open-InBudget :
      (request : SourceOpenRequest) (sequence : ℕ) (now : ℤ) (s : Impl)
      → InBudget s
      → InBudget (enqueue_source_open request sequence now s)
  unfolding enqueue_source_open
  enqueue_source_open-InBudget request sequence now s b =
      conclude_source-InBudget sequence _ _
        (apply_source_decision-InBudget _ _ _ s (decide_source-Justified _ _ now s) b).kept

-- ===== src/Budget/Messages.antt =====
-- src/stream.cpp: `GrantSourceCredit` and `HandleTerminalAcknowledgement` keep all accounts.
use xgc2_adapter_runtime_cli.Base.{
  ℕ, ◌≡◌, refl, not, ◌||◌, Bytes, same, is_empty, Option, none, some, is_some, find, ltb, leb, ◌==◌,
  erase, if_both, if_cases, arith, add_overflows,
}
use xgc2_adapter_runtime_cli.Message.{Environment}
use xgc2_adapter_runtime_cli.Message.Work.{Credit, SourceCredit, Identity, TerminalAcknowledgement}
use xgc2_adapter_runtime_cli.Text.{is_canonical_sha256}
use xgc2_adapter_runtime_cli.State.{SourceState, ClosedSourceState, ReplayEntry, Impl, is_open}
use xgc2_adapter_runtime_cli.Credit.{
  Checked, credit_closed, credit_stream, credit_known, credit_grant, grant_credit_locked, report,
  grant_source_credit,
}
use xgc2_adapter_runtime_cli.Acknowledge.{
  release_work_terminal, release_source_terminal, acknowledge_work, acknowledge_source,
  acknowledge_identity, acknowledge_locked, handle_terminal_acknowledgement,
}
use xgc2_adapter_runtime_cli.Budget.{IsSourceTable, InBudget}
use xgc2_adapter_runtime_cli.Budget.Queues.{queue_work_protocol_error-InBudget}
use xgc2_adapter_runtime_cli.Budget.Replay.{IsReplayTable-forget}
use xgc2_adapter_runtime_cli.Budget.Sources.{
  IsSourceTable-update, IsSourceTable-mark, IsSourceTable-forget,
}

-- The accounts after a check.
abbrev Kept : Checked → Type 0
Kept (message, s) = InBudget s

credit_closed-InBudget :
    (credit : SourceCredit) (c : Option ClosedSourceState) (s : Impl)
    → find credit.stream_id s.closed_sources ≡ c
    → InBudget s
    → Kept (credit_closed credit c s)
unfolding credit_closed
credit_closed-InBudget credit none s e b = b
credit_closed-InBudget credit (some closed) s e (words, control, work, dispatch, replay, table) =
    if_both Kept (not (closed.connection_epoch == s.connection_epoch_counter))
      (words, control, work, dispatch, replay, table)
      (if_both Kept
        (ltb credit.acknowledged_sequence closed.acknowledged_sequence
          || ltb closed.final_sequence credit.acknowledged_sequence)
        (words, control, work, dispatch, replay, table)
        (
          words,
          control,
          work,
          dispatch,
          replay,
          IsSourceTable-mark s.source_state_bytes s.config.maximum_source_streams
              s.config.maximum_source_tombstones s.config.maximum_source_state_bytes
              s.source_streams s.closed_sources credit.stream_id closed _ table e refl,
        ))

credit_stream-InBudget :
    (credit : SourceCredit) (grant : Credit) (stream : SourceState) (s : Impl)
    → find credit.stream_id s.source_streams ≡ some stream
    → InBudget s
    → Kept (credit_stream credit grant stream s)
unfolding credit_stream
credit_stream-InBudget credit grant stream s e b =
    let (words, control, work, dispatch, replay, table) = b in
    if_both Kept
      (not (is_open stream.phase) || not (stream.connection_epoch == s.connection_epoch_counter)) b
      (if_both Kept
        (ltb credit.acknowledged_sequence stream.acknowledged_sequence
          || ltb stream.sequence credit.acknowledged_sequence)
        b
        (if_both Kept
          (add_overflows stream.message_credit grant.messages
            || add_overflows stream.byte_credit grant.bytes)
          b
          (
            words,
            control,
            work,
            dispatch,
            replay,
            IsSourceTable-update s.source_state_bytes s.config.maximum_source_streams
                s.config.maximum_source_tombstones s.config.maximum_source_state_bytes
                s.source_streams s.closed_sources credit.stream_id stream _ table e refl,
          )))

credit_known-InBudget :
    (credit : SourceCredit) (grant : Credit) (c : Option SourceState) (s : Impl)
    → find credit.stream_id s.source_streams ≡ c
    → InBudget s
    → Kept (credit_known credit grant c s)
unfolding credit_known
credit_known-InBudget credit grant none s e b =
    credit_closed-InBudget credit (find credit.stream_id s.closed_sources) s refl b
credit_known-InBudget credit grant (some stream) s e b =
    credit_stream-InBudget credit grant stream s e b

credit_grant-InBudget :
    (credit : SourceCredit) (g : Option Credit) (s : Impl)
    → InBudget s
    → Kept (credit_grant credit g s)
unfolding credit_grant
credit_grant-InBudget credit none s b = b
credit_grant-InBudget credit (some grant) s b =
    if_both Kept (is_empty credit.stream_id || grant.messages == 0 || grant.bytes == 0) b
      (credit_known-InBudget credit grant (find credit.stream_id s.source_streams) s refl b)

release_work_terminal-InBudget :
    (id digest : Bytes) (c : Option ReplayEntry) (s : Impl)
    → find id s.replay ≡ c
    → InBudget s
    → Kept (release_work_terminal id digest c s)
unfolding release_work_terminal
release_work_terminal-InBudget id digest none s e b = b
release_work_terminal-InBudget id digest (some entry) s e
      (words, control, work, dispatch, replay, table) =
    if_both Kept (not (same entry.terminal_digest digest))
      (words, control, work, dispatch, replay, table)
      (
        words,
        control,
        work,
        dispatch,
        IsReplayTable-forget s.replay s.work_tokens s.terminal_replay_bytes
            s.config.maximum_terminal_replay s.config.maximum_terminal_replay_bytes id entry replay
            e words.replay,
        table,
      )

release_source_terminal-InBudget :
    (id digest : Bytes) (c : Option ClosedSourceState) (s : Impl)
    → find id s.closed_sources ≡ c
    → InBudget s
    → Kept (release_source_terminal id digest c s)
unfolding release_source_terminal
release_source_terminal-InBudget id digest none s e b = b
release_source_terminal-InBudget id digest (some closed) s e
      (words, control, work, dispatch, replay, table) =
    let (enough, table') =
      IsSourceTable-forget s.source_state_bytes s.config.maximum_source_streams
        s.config.maximum_source_tombstones s.config.maximum_source_state_bytes s.source_streams
        s.closed_sources id closed table e in
    if_both Kept (is_empty closed.terminal_digest || not (same closed.terminal_digest digest))
      (words, control, work, dispatch, replay, table)
      (
        words,
        control,
        work,
        dispatch,
        replay,
        if_cases
            (λ n.
              IsSourceTable s.source_streams (erase id s.closed_sources) n
                s.config.maximum_source_streams s.config.maximum_source_tombstones
                s.config.maximum_source_state_bytes)
            (leb closed.accounted_bytes s.source_state_bytes) (λ _. table')
            (λ h. ground (arith, enough)),
      )

acknowledge_identity-InBudget :
    (identity : Identity) (digest : Bytes) (s : Impl)
    → InBudget s
    → Kept (acknowledge_identity identity digest s)
unfolding acknowledge_identity acknowledge_work acknowledge_source
acknowledge_identity-InBudget (Identity.work_id id) digest s b = if_both Kept (is_empty id) b (
    if_both Kept (is_some (find id s.work_tokens) || is_some (find id s.source_streams)) b (
      if_both Kept (is_some (find id s.closed_sources)) b
        (release_work_terminal-InBudget id digest (find id s.replay) s refl b)))
acknowledge_identity-InBudget (Identity.stream_id id) digest s b = if_both Kept (is_empty id) b (
    if_both Kept (is_some (find id s.source_streams) || is_some (find id s.work_tokens)) b (
      if_both Kept (is_some (find id s.replay)) b
        (release_source_terminal-InBudget id digest (find id s.closed_sources) s refl b)))
acknowledge_identity-InBudget Identity.not_set digest s b = b

module _ ⦃w : Environment⦄ where
  report-InBudget :
      (sequence : ℕ) (checked : Checked) → Kept checked → InBudget (report sequence checked)
  unfolding report
  report-InBudget sequence (none, s) b = b
  report-InBudget sequence (some message, s) b =
      queue_work_protocol_error-InBudget sequence message s b

  pub grant_source_credit-InBudget :
      (credit : SourceCredit) (sequence : ℕ) (s : Impl)
      → InBudget s
      → InBudget (grant_source_credit credit sequence s)
  unfolding grant_source_credit grant_credit_locked
  grant_source_credit-InBudget credit sequence s b =
      report-InBudget sequence (grant_credit_locked credit s)
        (credit_grant-InBudget credit credit.grant s b)

  pub handle_terminal_acknowledgement-InBudget :
      (acknowledgement : TerminalAcknowledgement) (sequence : ℕ) (s : Impl)
      → InBudget s
      → InBudget (handle_terminal_acknowledgement acknowledgement sequence s)
  unfolding handle_terminal_acknowledgement acknowledge_locked
  handle_terminal_acknowledgement-InBudget acknowledgement sequence s b =
      report-InBudget sequence (acknowledge_locked acknowledgement s) (
        if_both Kept (not (is_canonical_sha256 acknowledgement.terminal_digest)) b (
          acknowledge_identity-InBudget acknowledgement.identity acknowledgement.terminal_digest s
            b))

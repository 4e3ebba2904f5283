-- ===== src/Credit.antt =====
-- src/stream.cpp: `GrantSourceCredit`.
use xgc2_adapter_runtime_cli.Base.{
  ℕ, ◌+◌, not, ◌||◌, Bytes, text, is_empty, Option, none, some, find, insert, ltb, ◌==◌,
  if◌then◌else◌, add_overflows,
}
use xgc2_adapter_runtime_cli.Message.{Environment}
use xgc2_adapter_runtime_cli.Message.Work.{Credit, SourceCredit}
use xgc2_adapter_runtime_cli.State.{SourceState, ClosedSourceState, Impl, is_open}
use xgc2_adapter_runtime_cli.Signal.{queue_work_protocol_error}

-- The protocol error to send, if any, and the state.
abbrev pub Checked : Type 0
Checked = Option Bytes × Impl

-- A late credit for a closed source only moves the acknowledged sequence.
unfoldable pub credit_closed : SourceCredit → Option ClosedSourceState → Impl → Checked
credit_closed credit none s = (some (text "SourceCredit references an unknown source stream"), s)
credit_closed credit (some closed) s =
    if not (closed.connection_epoch == s.connection_epoch_counter)
    then (some (text "SourceCredit references an unknown source stream"), s)
    else if ltb credit.acknowledged_sequence closed.acknowledged_sequence
        || ltb closed.final_sequence credit.acknowledged_sequence
    then (some (text "late SourceCredit conflicts with the closed source"), s)
    else (
      none,
      record s {
        closed_sources =
            insert credit.stream_id
              (record closed { acknowledged_sequence = credit.acknowledged_sequence })
              s.closed_sources;
      },
    )

unfoldable pub credit_stream : SourceCredit → Credit → SourceState → Impl → Checked
credit_stream credit grant stream s =
    if not (is_open stream.phase) || not (stream.connection_epoch == s.connection_epoch_counter)
    then (some (text "SourceCredit references an unopened source stream"), s)
    else if ltb credit.acknowledged_sequence stream.acknowledged_sequence
        || ltb stream.sequence credit.acknowledged_sequence
    then (some (text "SourceCredit acknowledged_sequence is invalid"), s)
    else if add_overflows stream.message_credit grant.messages
        || add_overflows stream.byte_credit grant.bytes
    then (some (text "SourceCredit would overflow the available credit"), s)
    else (
      none,
      record s {
        source_streams =
            insert credit.stream_id
              (record stream {
                acknowledged_sequence = credit.acknowledged_sequence;
                message_credit = stream.message_credit + grant.messages;
                byte_credit = stream.byte_credit + grant.bytes;
              })
              s.source_streams;
      },
    )

-- From the look at the stream on.
unfoldable pub credit_known : SourceCredit → Credit → Option SourceState → Impl → Checked
credit_known credit grant none s = credit_closed credit (find credit.stream_id s.closed_sources) s
credit_known credit grant (some stream) s = credit_stream credit grant stream s

unfoldable pub credit_grant : SourceCredit → Option Credit → Impl → Checked
credit_grant credit none s =
    (some (text "SourceCredit grant must include positive message and byte credit"), s)
credit_grant credit (some grant) s =
    if is_empty credit.stream_id || grant.messages == 0 || grant.bytes == 0
    then (some (text "SourceCredit grant must include positive message and byte credit"), s)
    else credit_known credit grant (find credit.stream_id s.source_streams) s

-- The part under the lock.
unfoldable pub grant_credit_locked : SourceCredit → Impl → Checked
grant_credit_locked credit s = credit_grant credit credit.grant s

module _ ⦃w : Environment⦄ where
  -- A protocol error found under the lock is queued after it.
  unfoldable pub report : ℕ → Checked → Impl
  report frame_sequence (none, s) = s
  report frame_sequence (some message, s) = queue_work_protocol_error frame_sequence message s

  unfoldable pub grant_source_credit : SourceCredit → ℕ → Impl → Impl
  unfolding report
  grant_source_credit credit frame_sequence s = report frame_sequence (grant_credit_locked credit s)

-- ===== src/Acknowledge.antt =====
-- src/stream.cpp: `HandleTerminalAcknowledgement`.
pub mod Release
use xgc2_adapter_runtime_cli.Base.{
  ℕ, ◌-◌, Bool, true, false, not, ◌||◌, Bytes, text, same, is_empty, Option, none, some, is_some,
  find, erase, leb, if◌then◌else◌, sub64,
}
use xgc2_adapter_runtime_cli.Message.{Environment}
use xgc2_adapter_runtime_cli.Message.Work.{Identity, TerminalAcknowledgement}
use xgc2_adapter_runtime_cli.Text.{is_canonical_sha256}
use xgc2_adapter_runtime_cli.State.{ReplayEntry, ClosedSourceState, Impl}
use xgc2_adapter_runtime_cli.Credit.{Checked, report}

unfoldable pub release_work_terminal : Bytes → Bytes → Option ReplayEntry → Impl → Checked
release_work_terminal work_id digest none s = (none, s)
release_work_terminal work_id digest (some entry) s =
    if not (same entry.terminal_digest digest)
    then (some (text "TerminalAcknowledgement digest conflicts with retained Work"), s)
    else (
      none,
      record s {
        terminal_replay_bytes = sub64 s.terminal_replay_bytes entry.accounted_bytes;
        replay = erase work_id s.replay;
      },
    )

unfoldable pub release_source_terminal : Bytes → Bytes → Option ClosedSourceState → Impl → Checked
release_source_terminal stream_id digest none s = (none, s)
release_source_terminal stream_id digest (some closed) s =
    if is_empty closed.terminal_digest || not (same closed.terminal_digest digest)
    then (some (text "TerminalAcknowledgement digest conflicts with retained source"), s)
    else (
      none,
      record s {
        source_state_bytes =
            if leb closed.accounted_bytes s.source_state_bytes
            then s.source_state_bytes - closed.accounted_bytes
            else 0;
        closed_sources = erase stream_id s.closed_sources;
      },
    )

unfoldable pub acknowledge_work : Bytes → Bytes → Impl → Checked
acknowledge_work work_id digest s =
    if is_empty work_id
    then (some (text "TerminalAcknowledgement work_id must not be empty"), s)
    else if is_some (find work_id s.work_tokens) || is_some (find work_id s.source_streams)
    then (some (text "TerminalAcknowledgement references an active identity"), s)
    else if is_some (find work_id s.closed_sources)
    then (some (text "TerminalAcknowledgement used work_id for a source terminal"), s)
    else release_work_terminal work_id digest (find work_id s.replay) s

unfoldable pub acknowledge_source : Bytes → Bytes → Impl → Checked
acknowledge_source stream_id digest s =
    if is_empty stream_id
    then (some (text "TerminalAcknowledgement stream_id must not be empty"), s)
    else if is_some (find stream_id s.source_streams) || is_some (find stream_id s.work_tokens)
    then (some (text "TerminalAcknowledgement references an active identity"), s)
    else if is_some (find stream_id s.replay)
    then (some (text "TerminalAcknowledgement used stream_id for a Work terminal"), s)
    else release_source_terminal stream_id digest (find stream_id s.closed_sources) s

unfoldable pub acknowledge_identity : Identity → Bytes → Impl → Checked
acknowledge_identity (Identity.work_id work_id) digest s = acknowledge_work work_id digest s
acknowledge_identity (Identity.stream_id stream_id) digest s = acknowledge_source stream_id digest s
acknowledge_identity Identity.not_set digest s =
    (some (text "TerminalAcknowledgement must identify exactly one terminal"), s)

-- The part under the lock.
unfoldable pub acknowledge_locked : TerminalAcknowledgement → Impl → Checked
unfolding acknowledge_identity
acknowledge_locked acknowledgement s =
    if not (is_canonical_sha256 acknowledgement.terminal_digest)
    then (some (text "TerminalAcknowledgement terminal_digest is non-canonical"), s)
    else acknowledge_identity acknowledgement.identity acknowledgement.terminal_digest s

module _ ⦃w : Environment⦄ where
  unfoldable pub handle_terminal_acknowledgement : TerminalAcknowledgement → ℕ → Impl → Impl
  handle_terminal_acknowledgement acknowledgement frame_sequence s =
      report frame_sequence (acknowledge_locked acknowledgement s)

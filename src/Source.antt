-- ===== src/Source.antt =====
-- src/stream.cpp: source streams: their terminals, their publication and their end.
pub mod Publication
use xgc2_adapter_runtime_cli.Base.{
  ℕ, ◌-◌, Bool, true, false, not, ◌&&◌, ◌||◌, Bytes, same, length, is_empty, get_elem?, Option,
  none, some, is_some, List, [], ◌∷◌, find, insert, erase, ltb, leb, ◌==◌, if◌then◌else◌, add64,
  saturating_add,
}
use xgc2_adapter_runtime_cli.Message.{Environment}
use xgc2_adapter_runtime_cli.Message.Errors.{AdapterError}
use xgc2_adapter_runtime_cli.Message.Work.{WorkFrame, Terminal}
use xgc2_adapter_runtime_cli.Text.{is_typed_error}
use xgc2_adapter_runtime_cli.Digest.{terminal_digest}
use xgc2_adapter_runtime_cli.State.{
  Phase, SourceState, ClosedSourceState, Invocation, Impl, is_open, is_ready,
}
use xgc2_adapter_runtime_cli.Queue.{work_frame_bytes, queue_work_locked}
use xgc2_adapter_runtime_cli.Endpoint.{binding_at}

pub data SourceWriteResult : Type 0 where
  accepted not_ready unknown_stream no_credit queue_full too_large : SourceWriteResult

-- The stream id and the message of a frame that ends a source.
unfoldable pub source_terminal : WorkFrame → Option (Bytes × Terminal)
source_terminal (WorkFrame.source_open_result r) = some (r.stream_id, Terminal.opened r)
source_terminal (WorkFrame.source_close c) = some (c.stream_id, Terminal.closed c)
source_terminal _ = none

unfoldable pub closed_state : SourceState → WorkFrame → Bytes → ClosedSourceState
closed_state source terminal_frame digest = record {
  connection_epoch = source.connection_epoch;
  final_sequence = source.sequence;
  acknowledged_sequence = source.acknowledged_sequence;
  fingerprint = source.request.context.request_digest;
  terminal_digest = digest;
  terminal_frame = terminal_frame;
  accounted_bytes = source.accounted_bytes;
}

unfoldable pub remember_closed_source_locked : Bytes → SourceState → WorkFrame → Bytes → Impl → Impl
unfolding closed_state
remember_closed_source_locked stream_id source terminal_frame digest s = record s {
  closed_sources = insert stream_id (closed_state source terminal_frame digest) s.closed_sources;
}

module _ ⦃w : Environment⦄ where
  -- The callback of the source's binding, if it is bound.
  unfoldable pub notify_source_closed : SourceState → AdapterError → Impl → Impl
  notify_source_closed source error s = elim (binding_at s source.binding_index) [
    | none ↦ s
    | some binding ↦
        let called = record s {
          invocations =
              Invocation.source_closed source.binding_index source.request error ∷ s.invocations;
        } in
        if binding.callbacks.source_closed
        then w.source_closed source.binding_index source.request error called
        else s
  ]

-- The bytes of the items, added up with saturation.
unfoldable pub item_bytes : ℕ → List Bytes → ℕ
item_bytes bytes [] = bytes
item_bytes bytes (item ∷ items) = item_bytes (saturating_add bytes (length item)) items

module _ ⦃w : Environment⦄ where
  unfoldable pub work_frame_fits_locked : WorkFrame → Impl → Bool
  work_frame_fits_locked frame s =
      not (s.maximum_work_frame_bytes == 0)
      && leb (work_frame_bytes s frame) s.maximum_work_frame_bytes

  -- The part of `CommitSourceTerminalLocked` after the digest.
  abbrev pub commit_digest : Bytes → SourceState → WorkFrame → Option Bytes → Impl → Bool × Impl
  commit_digest stream_id source frame none s = (false, s)
  commit_digest stream_id source frame (some digest) s =
      let (queued, s') = queue_work_locked frame s in
      if not (work_frame_fits_locked frame s)
      then (false, s)
      else if queued
      then (true, remember_closed_source_locked stream_id source frame digest s')
      else (false, s')

  unfoldable pub commit_source_terminal_locked :
      Bytes → SourceState → WorkFrame → Impl → Bool × Impl
  commit_source_terminal_locked stream_id source frame s = elim (source_terminal frame) [
    | none ↦ (false, s)
    | some (id, terminal) ↦
        if is_empty stream_id || not (same id stream_id)
        then (false, s)
        else commit_digest stream_id source frame (terminal_digest terminal) s
  ]

  -- A chunk over the stream's own limits; a limit of 0 is none.
  unfoldable pub over_chunk_limits : SourceState → ℕ → ℕ → Bool
  over_chunk_limits stream messages bytes =
      (ltb 0 stream.maximum_chunk_messages && ltb stream.maximum_chunk_messages messages)
      || (ltb 0 stream.maximum_chunk_bytes && ltb stream.maximum_chunk_bytes bytes)

  abbrev pub data_frame : Bytes → SourceState → List Bytes → WorkFrame
  data_frame stream_id stream items =
      WorkFrame.source_data
        (record { stream_id = stream_id; sequence = add64 stream.sequence 1; items = items })

  -- The accepted write: credit and sequence change only now.
  abbrev pub spend : Bytes → SourceState → ℕ → ℕ → Impl → Impl
  spend stream_id stream messages bytes s = record s {
    source_streams =
        insert stream_id
          (record stream {
            message_credit = stream.message_credit - messages;
            byte_credit = stream.byte_credit - bytes;
            sequence = add64 stream.sequence 1;
          })
          s.source_streams;
  }

  -- From the look at the stream's phase on.
  unfoldable pub publish_stream : Bytes → SourceState → List Bytes → Impl → SourceWriteResult × Impl
  unfolding over_chunk_limits
  publish_stream stream_id stream items s =
      let bytes = item_bytes 0 items in
      let messages = length items in
      let frame = data_frame stream_id stream items in
      let (queued, s') = queue_work_locked frame s in
      if not (is_open stream.phase)
      then (SourceWriteResult.not_ready, s)
      else if is_empty items || bytes == 0 || over_chunk_limits stream messages bytes
      then (SourceWriteResult.too_large, s)
      else if ltb stream.message_credit messages || ltb stream.byte_credit bytes
      then (SourceWriteResult.no_credit, s)
      else if leb s.config.maximum_work_queue (length s.work_queue)
      then (
        SourceWriteResult.queue_full,
        record s { dropped_outbound_frames = add64 s.dropped_outbound_frames 1 },
      )
      else if not (work_frame_fits_locked frame s)
      then (SourceWriteResult.too_large, s)
      else if not queued
      then (SourceWriteResult.queue_full, s')
      else (SourceWriteResult.accepted, spend stream_id stream messages bytes s')

  unfoldable pub publish_source : Bytes → List Bytes → Impl → SourceWriteResult × Impl
  publish_source stream_id items s =
      let found : SourceWriteResult × Impl = elim (find stream_id s.source_streams) [
        | none ↦ (SourceWriteResult.unknown_stream, s)
        | some stream ↦
            if not (stream.connection_epoch == s.connection_epoch_counter)
            then (SourceWriteResult.unknown_stream, s)
            else publish_stream stream_id stream items s
      ] in
      if not (is_ready s.state) || not s.accepting_work || s.session_failed
      then (SourceWriteResult.not_ready, s)
      else found

  abbrev pub is_bad_error : Option AdapterError → Bool
  is_bad_error none = false
  is_bad_error (some e) = not (is_typed_error e)

  abbrev pub close_frame : Bytes → SourceState → Option AdapterError → WorkFrame
  close_frame stream_id stream error =
      WorkFrame.source_close
        (record { stream_id = stream_id; final_sequence = stream.sequence; error = error })

  -- The refusals of `CloseSource` count a frame as dropped where the queue is full.
  unfoldable pub refuse_close : Impl → Impl
  refuse_close s =
      if leb s.config.maximum_work_queue (length s.work_queue)
      then record s { dropped_outbound_frames = add64 s.dropped_outbound_frames 1 }
      else s

  unfoldable pub close_stream :
      Bytes → Option AdapterError → Option SourceState → Impl → Bool × Impl
  close_stream stream_id error none s = (false, refuse_close s)
  close_stream stream_id error (some stream) s =
      let (committed, s') =
        commit_source_terminal_locked stream_id stream (close_frame stream_id stream error) s in
      if not (is_open stream.phase)
        || not (stream.connection_epoch == s.connection_epoch_counter)
        || s.session_failed
        || s.stop_requested
        || is_bad_error error
        || leb s.config.maximum_work_queue (length s.work_queue)
      then (false, refuse_close s)
      else if committed
      then (true, record s' { source_streams = erase stream_id s'.source_streams })
      else (false, s')

  unfoldable pub close_source : Bytes → Option AdapterError → Impl → Bool × Impl
  unfolding close_stream
  close_source stream_id error s = close_stream stream_id error (find stream_id s.source_streams) s

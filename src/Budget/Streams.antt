-- ===== src/Budget/Streams.antt =====
-- src/stream.cpp: publication and closing of source streams
-- keep all accounts.
use xgc2_adapter_runtime_cli.Base.{
  ℕ, ◌≤◌, ◌≡◌, refl, Bool, true, false, not, ◌||◌, Bytes, same, length, is_empty, List, Option,
  none, some, find, erase, ltb, leb, ◌==◌, if◌then◌else◌, if_both, if_cases, option_cases, arith,
}
use xgc2_adapter_runtime_cli.Message.{Environment}
use xgc2_adapter_runtime_cli.Message.Errors.{AdapterError}
use xgc2_adapter_runtime_cli.Message.Work.{WorkFrame}
use xgc2_adapter_runtime_cli.Digest.{terminal_digest}
use xgc2_adapter_runtime_cli.State.{SourceState, Impl, is_open, is_ready}
use xgc2_adapter_runtime_cli.Queue.{work_frame_bytes, work_overflow, push_work}
use xgc2_adapter_runtime_cli.Source.{
  SourceWriteResult, source_terminal, closed_state, remember_closed_source_locked, item_bytes,
  work_frame_fits_locked, commit_digest, is_bad_error, commit_source_terminal_locked,
  over_chunk_limits, data_frame, spend, close_frame, refuse_close, close_stream, publish_stream,
  publish_source, close_source,
}
use xgc2_adapter_runtime_cli.Budget.{InBudget, InBudgetAfter}
use xgc2_adapter_runtime_cli.Budget.Queues.{queue_work_cases, push_work-InBudget}
use xgc2_adapter_runtime_cli.Budget.Sources.{IsSourceTable-update, IsSourceTable-close}

abbrev pub refusal : SourceWriteResult → Bool
refusal SourceWriteResult.accepted = false
refusal _ = true

-- source_streams_.erase(id)
abbrev pub drop_stream : Bytes → Impl → Impl
drop_stream id s = record s { source_streams = erase id s.source_streams }

module _ ⦃w : Environment⦄ where
  -- Either only the count of dropped frames changes, or the frame is queued and the tombstone made.
  pub commit_source_cases {ℓ} :
      (P : Bool × Impl → Type ℓ) (id : Bytes) (source : SourceState) (frame : WorkFrame) (s : Impl)
      → ((n : ℕ) → P (false, record s { dropped_outbound_frames = n }))
      → ((digest : Bytes)
          → work_overflow s (work_frame_bytes s frame) ≡ false
          → P (
            true,
            remember_closed_source_locked id source frame digest
                (push_work frame (work_frame_bytes s frame) s),
          ))
      → P (commit_source_terminal_locked id source frame s)
  unfolding commit_source_terminal_locked
  commit_source_cases P id source frame s refused stored =
      option_cases P (source_terminal frame) (λ _. refused _)
        (λ (j, terminal) _.
          if_cases P (is_empty id || not (same j id)) (λ _. refused _)
            (λ _. elim (terminal_digest terminal) as (λ d. P (commit_digest id source frame d s)) [
              | none ↦ refused _
              | some digest ↦
                  if_cases P (not (work_frame_fits_locked frame s)) (λ _. refused _)
                    (λ _.
                      queue_work_cases
                        (λ r. P (
                          if r.0
                          then (true, remember_closed_source_locked id source frame digest r.1)
                          else (false, r.1)))
                        frame s (λ n. refused n) (λ room. stored digest room))
            ]))

  -- A stream whose terminal was committed goes from the table.
  pub closed-InBudget :
      (id : Bytes) (source : SourceState) (frame : WorkFrame) (digest : Bytes) (s : Impl)
      → InBudget s
      → find id s.source_streams ≡ some source
      → work_overflow s (work_frame_bytes s frame) ≡ false
      → InBudget (
          drop_stream id (
            remember_closed_source_locked id source frame digest
              (push_work frame (work_frame_bytes s frame) s)))
  unfolding remember_closed_source_locked closed_state
  closed-InBudget id source frame digest s b found room =
      let (words, control, work, dispatch, replay, table) = push_work-InBudget frame s room b in
      (
        words,
        control,
        work,
        dispatch,
        replay,
        IsSourceTable-close s.source_state_bytes s.config.maximum_source_streams
            s.config.maximum_source_tombstones s.config.maximum_source_state_bytes s.source_streams
            s.closed_sources id source (closed_state source frame digest) table found refl,
      )

  -- Either only the count of dropped frames changes, or the write is accepted: the chunk is inside the
  -- stream's limits and its credit, and the frame went into the queue.
  pub publish_stream_cases {ℓ} :
      (P : SourceWriteResult × Impl → Type ℓ) (id : Bytes) (stream : SourceState)
      (items : List Bytes) (s : Impl)
      → ((r : SourceWriteResult)
          → refusal r ≡ true
          → (n : ℕ) → P (r, record s { dropped_outbound_frames = n }))
      → (is_open stream.phase ≡ true
          → length items ≤ stream.message_credit
          → item_bytes 0 items ≤ stream.byte_credit
          → over_chunk_limits stream (length items) (item_bytes 0 items) ≡ false
          → work_overflow s (work_frame_bytes s (data_frame id stream items)) ≡ false
          → P (
            SourceWriteResult.accepted,
            spend id stream (length items) (item_bytes 0 items) (
                push_work
                  (data_frame id stream items)
                  (work_frame_bytes s (data_frame id stream items))
                  s),
          ))
      → P (publish_stream id stream items s)
  unfolding publish_stream
  publish_stream_cases P id stream items s refused accepted =
      if_cases P (not (is_open stream.phase)) (λ _. refused _ refl _)
        (λ o.
          if_cases P
            (is_empty items
              || item_bytes 0 items == 0
              || over_chunk_limits stream (length items) (item_bytes 0 items))
            (λ _. refused _ refl _)
            (λ small.
              if_cases P
                (ltb stream.message_credit (length items)
                  || ltb stream.byte_credit (item_bytes 0 items))
                (λ _. refused _ refl _)
                (λ enough.
                  if_cases P (leb s.config.maximum_work_queue (length s.work_queue))
                    (λ _. refused _ refl _)
                    (λ _.
                      if_cases P (not (work_frame_fits_locked (data_frame id stream items) s))
                        (λ _. refused _ refl _)
                        (λ _.
                          queue_work_cases
                            (λ r. P (
                              if not r.0 then (SourceWriteResult.queue_full, r.1) else (
                                SourceWriteResult.accepted,
                                spend id stream (length items) (item_bytes 0 items) r.1,
                              )))
                            (data_frame id stream items) s (λ n. refused _ refl n)
                            (λ room.
                              accepted (ground arith) (ground arith) (ground arith) (ground arith)
                                room))))))

  pub publish_source-InBudget :
      (id : Bytes) (items : List Bytes) (s : Impl)
      → InBudget s
      → InBudget (publish_source id items s).1
  unfolding publish_source
  publish_source-InBudget id items s b =
      if_both InBudgetAfter (not (is_ready s.state) || not s.accepting_work || s.session_failed) b (
        option_cases InBudgetAfter (find id s.source_streams) (λ _. b)
          (λ stream found.
            if_both InBudgetAfter (not (stream.connection_epoch == s.connection_epoch_counter)) b (
              publish_stream_cases InBudgetAfter id stream items s (λ r _ n. b)
                (λ _ _ _ _ room.
                  let (words, control, work, dispatch, replay, table) =
                    push_work-InBudget (data_frame id stream items) s room b in
                  (
                    words,
                    control,
                    work,
                    dispatch,
                    replay,
                    IsSourceTable-update s.source_state_bytes s.config.maximum_source_streams
                        s.config.maximum_source_tombstones s.config.maximum_source_state_bytes
                        s.source_streams s.closed_sources id stream _ table found refl,
                  )))))

  refuse_close-InBudget : (s : Impl) → InBudget s → InBudget (refuse_close s)
  unfolding refuse_close
  refuse_close-InBudget s b =
      if_both InBudget (leb s.config.maximum_work_queue (length s.work_queue)) b b

  close_stream-InBudget :
      (id : Bytes) (error : Option AdapterError) (c : Option SourceState) (s : Impl)
      → find id s.source_streams ≡ c
      → InBudget s
      → InBudgetAfter (close_stream id error c s)
  unfolding close_stream
  close_stream-InBudget id error none s e b = refuse_close-InBudget s b
  close_stream-InBudget id error (some stream) s e b =
      if_both (InBudgetAfter {A = Bool})
        (not (is_open stream.phase)
          || not (stream.connection_epoch == s.connection_epoch_counter)
          || s.session_failed
          || s.stop_requested
          || is_bad_error error
          || leb s.config.maximum_work_queue (length s.work_queue))
        (refuse_close-InBudget s b)
        (commit_source_cases
          (λ r. InBudgetAfter {A = Bool} (if r.0 then (true, drop_stream id r.1) else (false, r.1)))
          id stream (close_frame id stream error) s (λ n. b)
          (λ digest room.
            closed-InBudget id stream (close_frame id stream error) digest s b e room))

  pub close_source-InBudget :
      (id : Bytes) (error : Option AdapterError) (s : Impl)
      → InBudget s
      → InBudgetAfter (close_source id error s)
  unfolding close_source
  close_source-InBudget id error s b =
      close_stream-InBudget id error (find id s.source_streams) s refl b

-- ===== src/Source/Publication.antt =====
-- src/stream.cpp: what `PublishSource` does to a stream.
use xgc2_adapter_runtime_cli.Base.{
  ℕ, ◌+◌, ◌-◌, ◌≤◌, ◌≡◌, refl, min, true, false, not, ◌||◌, Bytes, length, sum_by, List, [], ◌∷◌,
  ◌++◌, some, find, insert, ◌==◌, if_cases, option_cases, arith, add64, u64_max, saturating_add,
  saturating_add_lem,
}
use xgc2_adapter_runtime_cli.Message.{Environment}
use xgc2_adapter_runtime_cli.State.{SourceState, Impl, is_ready, is_open}
use xgc2_adapter_runtime_cli.Queue.{work_frame_bytes}
use xgc2_adapter_runtime_cli.Source.{SourceWriteResult, item_bytes, data_frame, publish_source}
use xgc2_adapter_runtime_cli.Budget.Streams.{refusal, publish_stream_cases}

-- The bytes of a chunk, added to a start within `uint64_t`, are the sum of both, cut at the greatest
-- `uint64_t`.
pub item_bytes_lem :
    (n : ℕ) (items : List Bytes)
    → n ≤ u64_max
    → item_bytes n items ≡ min u64_max (n + sum_by length items)
unfolding item_bytes
item_bytes_lem n [] small = ground arith
item_bytes_lem n (item ∷ items) small = ground (
  arith,
  saturating_add_lem n (length item) small,
  item_bytes_lem (saturating_add n (length item)) items,
)

module _ ⦃w : Environment⦄ where
  -- An accepted write: the stream was open on this connection, its credit covered the chunk and paid for
  -- it, and the frame with the next sequence is last in the queue.
  pub record IsWritten (id : Bytes) (items : List Bytes) (s s' : Impl) : Type 0 where
    pub stream : SourceState
    pub known : find id s.source_streams ≡ some stream
    pub open_ : is_open stream.phase ≡ true
    pub epoch : (stream.connection_epoch == s.connection_epoch_counter) ≡ true
    pub ready : s.accepting_work ≡ true
    pub messages : length items ≤ stream.message_credit
    pub bytes : item_bytes 0 items ≤ stream.byte_credit
    pub streams :
        s'.source_streams
        ≡ insert id
            (record stream {
              message_credit = stream.message_credit - length items;
              byte_credit = stream.byte_credit - item_bytes 0 items;
              sequence = add64 stream.sequence 1;
            })
            s.source_streams
    pub queued :
        s'.work_queue
        ≡ s.work_queue
          ++ record {
            request = data_frame id stream items;
            accounted_bytes = work_frame_bytes s (data_frame id stream items);
          }
            ∷ []

  abbrev pub PublishOutcome : Bytes → List Bytes → Impl → SourceWriteResult × Impl → Type 0
  PublishOutcome id items s r =
      (refusal r.0 ≡ true → (n : ℕ) × (r.1 ≡ record s { dropped_outbound_frames = n }))
      × (refusal r.0 ≡ false → IsWritten id items s r.1)

  -- Publication either refuses, and then at most the count of dropped frames changes, or accepts: the
  -- stream was open, of this connection, with the credit for all items and all bytes of the chunk, which
  -- are taken from it, and the frame with the next sequence went to the end of the queue.
  pub publish_source_lem :
      (id : Bytes) (items : List Bytes) (s : Impl)
      → PublishOutcome id items s (publish_source id items s)
  unfolding publish_source
  publish_source_lem id items s =
      if_cases (PublishOutcome id items s)
        (not (is_ready s.state) || not s.accepting_work || s.session_failed)
        (λ _. refused SourceWriteResult.not_ready refl _)
        (λ ready.
          option_cases (PublishOutcome id items s) (find id s.source_streams)
            (λ _. refused SourceWriteResult.unknown_stream refl _)
            (λ stream known.
              if_cases (PublishOutcome id items s)
                (not (stream.connection_epoch == s.connection_epoch_counter))
                (λ _. refused SourceWriteResult.unknown_stream refl _)
                (λ epoch.
                  publish_stream_cases (PublishOutcome id items s) id stream items s refused
                    (λ o messages bytes _ _. (
                      (λ h. ground arith),
                      λ _. record {
                        stream = stream;
                        known = known;
                        open_ = o;
                        epoch = ground arith;
                        ready = ground arith;
                        messages = messages;
                        bytes = bytes;
                        streams = refl;
                        queued = refl;
                      },
                    )))))
    where
      refused :
          (r : SourceWriteResult)
          → refusal r ≡ true
          → (n : ℕ) → PublishOutcome id items s (r, record s { dropped_outbound_frames = n })
      refused r h n = ((λ _. (n, refl)), λ k. ground arith)

-- ===== src/Budget/Sources.antt =====
-- The source table: the streams with the tombstones of closed ones.
use xgc2_adapter_runtime_cli.Base.{
  ℕ, ◌+◌, ◌-◌, ◌≤◌, ◌<◌, ◌≡◌, true, false, Bytes, some, none, Map, find, erase, insert, size,
  erase-Distinct, insert-Distinct, find-insert, find-erase, erase_present, insert_fresh,
  size-insert, sum_map-insert, same_iff, leb, arith, add64, add64_exact, u64_mod,
}
use xgc2_adapter_runtime_cli.State.{SourceState, ClosedSourceState}
use xgc2_adapter_runtime_cli.Queue.{fits_byte_budget}
use xgc2_adapter_runtime_cli.Budget.{IsSourceTable}
use xgc2_adapter_runtime_cli.Budget.Queues.{fits_byte_budget_lem}

module _ (bytes open_limit identities limit : ℕ) where
  -- A stream that is there, with other contents of the same weight.
  pub IsSourceTable-update :
      (streams : Map SourceState) (closed : Map ClosedSourceState) (id : Bytes) (x y : SourceState)
      → IsSourceTable streams closed bytes open_limit identities limit
      → find id streams ≡ some x
      → y.accounted_bytes ≡ x.accounted_bytes
      → IsSourceTable (insert id y streams) closed bytes open_limit identities limit
  IsSourceTable-update streams closed id x y b found weight =
      let (smaller, lighter) =
        erase_present (λ s. s.accounted_bytes) id x streams b.streams_distinct found in
      record {
        streams_distinct = insert-Distinct id y streams b.streams_distinct;
        closed_distinct = b.closed_distinct;
        apart = λ j z e.
            ground (arith, find-insert id j y streams, same_iff id j, b.apart j z, b.apart id x);
        counted = omega (
          arith,
          b.counted,
          lighter,
          weight,
          sum_map-insert (λ s. s.accounted_bytes) id y streams,
        );
        within = b.within;
        few = omega (arith, b.few, smaller, size-insert id y streams);
        short = omega (arith, b.short, smaller, size-insert id y streams);
      }

  -- The same for a tombstone.
  pub IsSourceTable-mark :
      (streams : Map SourceState) (closed : Map ClosedSourceState) (id : Bytes)
      (x y : ClosedSourceState)
      → IsSourceTable streams closed bytes open_limit identities limit
      → find id closed ≡ some x
      → y.accounted_bytes ≡ x.accounted_bytes
      → IsSourceTable streams (insert id y closed) bytes open_limit identities limit
  IsSourceTable-mark streams closed id x y b found weight =
      let (smaller, lighter) =
        erase_present (λ s. s.accounted_bytes) id x closed b.closed_distinct found in
      record {
        streams_distinct = b.streams_distinct;
        closed_distinct = insert-Distinct id y closed b.closed_distinct;
        apart = λ j z e. ground (arith, find-insert id j y closed, same_iff id j, b.apart j z e);
        counted = omega (
          arith,
          b.counted,
          lighter,
          weight,
          sum_map-insert (λ s. s.accounted_bytes) id y closed,
        );
        within = b.within;
        few = b.few;
        short = omega (arith, b.short, smaller, size-insert id y closed);
      }

  -- A stream that becomes a tombstone.
  pub IsSourceTable-close :
      (streams : Map SourceState) (closed : Map ClosedSourceState) (id : Bytes) (x : SourceState)
      (y : ClosedSourceState)
      → IsSourceTable streams closed bytes open_limit identities limit
      → find id streams ≡ some x
      → y.accounted_bytes ≡ x.accounted_bytes
      → IsSourceTable (erase id streams) (insert id y closed) bytes open_limit identities limit
  IsSourceTable-close streams closed id x y b found weight =
      let (smaller, lighter) =
        erase_present (λ s. s.accounted_bytes) id x streams b.streams_distinct found in
      let (larger, heavier) =
        insert_fresh (λ s. s.accounted_bytes) id y closed (b.apart id x found) in
      record {
        streams_distinct = erase-Distinct id streams b.streams_distinct;
        closed_distinct = insert-Distinct id y closed b.closed_distinct;
        apart = λ j z e.
            ground (
              arith,
              find-insert id j y closed,
              find-erase id j streams,
              same_iff id j,
              b.apart j z,
            );
        counted = omega (arith, b.counted, lighter, heavier, weight);
        within = b.within;
        few = omega (arith, b.few, smaller);
        short = omega (arith, b.short, smaller, larger);
      }

  -- A tombstone that is acknowledged gives its bytes back.
  pub IsSourceTable-forget :
      (streams : Map SourceState) (closed : Map ClosedSourceState) (id : Bytes)
      (x : ClosedSourceState)
      → IsSourceTable streams closed bytes open_limit identities limit
      → find id closed ≡ some x
      → (x.accounted_bytes ≤ bytes)
        × IsSourceTable streams
            (erase id closed)
            (bytes - x.accounted_bytes)
            open_limit
            identities
            limit
  IsSourceTable-forget streams closed id x b found =
      let (smaller, lighter) =
        erase_present (λ s. s.accounted_bytes) id x closed b.closed_distinct found in
      (
        omega (arith, b.counted, lighter),
        record {
          streams_distinct = b.streams_distinct;
          closed_distinct = erase-Distinct id closed b.closed_distinct;
          apart = λ j z e. ground (arith, find-erase id j closed, same_iff id j, b.apart j z e);
          counted = omega (arith, b.counted, lighter);
          within = omega (arith, b.within);
          few = b.few;
          short = omega (arith, b.short, smaller);
        },
      )

  -- A new stream.
  pub IsSourceTable-open :
      (streams : Map SourceState) (closed : Map ClosedSourceState) (id : Bytes) (x : SourceState)
      → IsSourceTable streams closed bytes open_limit identities limit
      → find id streams ≡ none
      → find id closed ≡ none
      → leb open_limit (size streams) ≡ false
      → leb identities (size streams + size closed) ≡ false
      → fits_byte_budget bytes x.accounted_bytes limit ≡ true
      → limit < u64_mod
      → IsSourceTable
          (insert id x streams)
          closed
          (add64 bytes x.accounted_bytes)
          open_limit
          identities
          limit
  IsSourceTable-open streams closed id x b absent unknown room space fits word =
      let (larger, heavier) = insert_fresh (λ s. s.accounted_bytes) id x streams absent in
      let fit = fits_byte_budget_lem bytes x.accounted_bytes limit fits in
      let exact = add64_exact bytes x.accounted_bytes in
      record {
        streams_distinct = insert-Distinct id x streams b.streams_distinct;
        closed_distinct = b.closed_distinct;
        apart = λ j z e.
            ground (arith, find-insert id j x streams, same_iff id j, b.apart j z, unknown);
        counted = omega (arith, b.counted, heavier, fit, exact);
        within = omega (arith, fit, exact);
        few = ground (arith, larger);
        short = ground (arith, larger);
      }

  -- A tombstone of a source that was never open.
  pub IsSourceTable-bury :
      (streams : Map SourceState) (closed : Map ClosedSourceState) (id : Bytes)
      (x : ClosedSourceState)
      → IsSourceTable streams closed bytes open_limit identities limit
      → find id streams ≡ none
      → find id closed ≡ none
      → leb identities (size streams + size closed) ≡ false
      → fits_byte_budget bytes x.accounted_bytes limit ≡ true
      → limit < u64_mod
      → IsSourceTable streams
          (insert id x closed)
          (add64 bytes x.accounted_bytes)
          open_limit
          identities
          limit
  IsSourceTable-bury streams closed id x b absent unknown space fits word =
      let (larger, heavier) = insert_fresh (λ s. s.accounted_bytes) id x closed unknown in
      let fit = fits_byte_budget_lem bytes x.accounted_bytes limit fits in
      let exact = add64_exact bytes x.accounted_bytes in
      record {
        streams_distinct = b.streams_distinct;
        closed_distinct = insert-Distinct id x closed b.closed_distinct;
        apart = λ j z e.
            ground (arith, find-insert id j x closed, same_iff id j, b.apart j z e, absent);
        counted = omega (arith, b.counted, heavier, fit, exact);
        within = omega (arith, fit, exact);
        few = b.few;
        short = ground (arith, larger);
      }

-- ===== src/Budget.antt =====
-- The accounts of src/client_impl.hpp: what it means that each queue and table is counted in entries and
-- in bytes, within the bounds of the configuration.
pub mod Queues
pub mod Replay
pub mod Commit
pub mod Sources
pub mod Streams
pub mod Messages
pub mod Cancellations
pub mod Admissions
pub mod Openings
pub mod Empty
pub mod Specs
pub mod Frames
pub mod Steps
pub mod Rounds
pub mod Links
use xgc2_adapter_runtime_cli.Base.{
  ℕ, ◌+◌, ◌≤◌, ◌<◌, ◌≡◌, Bytes, List, Map, Option, none, some, length, sum_by, size, sum_map, find,
  Distinct, u64_mod,
}
use xgc2_adapter_runtime_cli.State.{
  ClientConfig, WorkTokenState, ReplayEntry, SourceState, ClosedSourceState, Impl,
}

-- A bounded queue: its byte counter is the sum over its entries, and both bounds hold.
pub record IsBounded {A : Type 0} (bytes_of : A → ℕ) (queue : List A) (bytes entries limit : ℕ)
    : Type 0 where
  pub counted : bytes ≡ sum_by bytes_of queue
  pub within : bytes ≤ limit
  pub short : length queue ≤ entries

-- The replay table with the reservations of active Work.
pub record IsReplayTable (replay : Map ReplayEntry) (tokens : Map WorkTokenState)
    (bytes identities limit : ℕ) : Type 0 where
  pub replay_distinct : Distinct replay
  pub tokens_distinct : Distinct tokens
  pub counted :
      bytes
      ≡ sum_map (λ e. e.accounted_bytes) replay + sum_map (λ t. t.terminal_reservation_bytes) tokens
  pub within : bytes ≤ limit
  pub short : size replay + size tokens ≤ identities

-- Source streams with the tombstones of closed ones.
pub record IsSourceTable (streams : Map SourceState) (closed : Map ClosedSourceState)
    (bytes open_limit identities limit : ℕ) : Type 0 where
  pub streams_distinct : Distinct streams
  pub closed_distinct : Distinct closed
  pub apart : (id : Bytes) (x : SourceState) → find id streams ≡ some x → find id closed ≡ none
  pub counted :
      bytes ≡ sum_map (λ x. x.accounted_bytes) streams + sum_map (λ x. x.accounted_bytes) closed
  pub within : bytes ≤ limit
  pub few : size streams ≤ open_limit
  pub short : size streams + size closed ≤ identities

-- The byte limits are values of `size_t`.
pub record HasWordLimits (c : ClientConfig) : Type 0 where
  pub control : c.maximum_control_queue_bytes < u64_mod
  pub work : c.maximum_work_queue_bytes < u64_mod
  pub dispatch : c.maximum_dispatch_queue_bytes < u64_mod
  pub replay : c.maximum_terminal_replay_bytes < u64_mod
  pub source : c.maximum_source_state_bytes < u64_mod

abbrev pub IsControlBounded : Impl → Type 0
IsControlBounded s =
    IsBounded (λ f. f.accounted_bytes) s.control_queue s.control_queue_bytes
      s.config.maximum_control_queue s.config.maximum_control_queue_bytes

abbrev pub IsWorkBounded : Impl → Type 0
IsWorkBounded s =
    IsBounded (λ f. f.accounted_bytes) s.work_queue s.work_queue_bytes s.config.maximum_work_queue
      s.config.maximum_work_queue_bytes

abbrev pub IsDispatchBounded : Impl → Type 0
IsDispatchBounded s =
    IsBounded (λ j. j.accounted_bytes) s.dispatch_queue s.dispatch_queue_bytes
      s.config.maximum_dispatch_queue s.config.maximum_dispatch_queue_bytes

abbrev pub IsReplayBounded : Impl → Type 0
IsReplayBounded s =
    IsReplayTable s.replay s.work_tokens s.terminal_replay_bytes s.config.maximum_terminal_replay
      s.config.maximum_terminal_replay_bytes

abbrev pub IsSourceBounded : Impl → Type 0
IsSourceBounded s =
    IsSourceTable s.source_streams s.closed_sources s.source_state_bytes
      s.config.maximum_source_streams s.config.maximum_source_tombstones
      s.config.maximum_source_state_bytes

-- All accounts of the client.
abbrev pub InBudget : Impl → Type 0
InBudget s =
    HasWordLimits s.config
    × IsControlBounded s
    × IsWorkBounded s
    × IsDispatchBounded s
    × IsReplayBounded s
    × IsSourceBounded s

-- The accounts of the state that an operation with a result leaves.
abbrev pub InBudgetAfter : {A : Type 0} → A × Impl → Type 0
InBudgetAfter (a, s) = InBudget s

-- The same in a record: a goal on it is compared by the state that it is about.
pub record Kept {A : Type 0} (r : A × Impl) : Type 0 where
  pub kept : InBudget r.1

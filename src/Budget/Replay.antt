-- ===== src/Budget/Replay.antt =====
-- The replay table: reservations, releases and commits keep its account.
use xgc2_adapter_runtime_cli.Base.{
  ℕ, ◌+◌, ◌-◌, ◌≤◌, ◌<◌, ◌≡◌, true, false, Bytes, none, some, Map, find, erase, insert, size,
  erase-Distinct, insert-Distinct, erase_present, insert_fresh, leb, arith, add64, sub64,
  add64_exact, sub64_exact, u64_mod,
}
use xgc2_adapter_runtime_cli.State.{WorkTokenState, ReplayEntry}
use xgc2_adapter_runtime_cli.Queue.{fits_byte_budget}
use xgc2_adapter_runtime_cli.Budget.{IsReplayTable}
use xgc2_adapter_runtime_cli.Budget.Queues.{fits_byte_budget_lem}

-- What a token holds is given back with it.
pub IsReplayTable-release :
    (replay : Map ReplayEntry) (tokens : Map WorkTokenState) (bytes identities limit : ℕ)
    (id : Bytes) (token : WorkTokenState)
    → IsReplayTable replay tokens bytes identities limit
    → find id tokens ≡ some token
    → (token.terminal_reservation_bytes ≤ bytes)
      × (size replay + size (erase id tokens) < identities)
      × IsReplayTable replay
          (erase id tokens)
          (bytes - token.terminal_reservation_bytes)
          identities
          limit
IsReplayTable-release replay tokens bytes identities limit id token b found =
    let (smaller, lighter) =
      erase_present (λ t. t.terminal_reservation_bytes) id token tokens b.tokens_distinct found in
    (
      omega (arith, b.counted, lighter),
      omega (arith, b.short, smaller),
      record {
        replay_distinct = b.replay_distinct;
        tokens_distinct = erase-Distinct id tokens b.tokens_distinct;
        counted = omega (arith, b.counted, lighter);
        within = omega (arith, b.within);
        short = omega (arith, b.short, smaller);
      },
    )

-- A new token, with its reservation.
pub IsReplayTable-reserve :
    (replay : Map ReplayEntry) (tokens : Map WorkTokenState) (bytes identities limit : ℕ)
    (id : Bytes) (token : WorkTokenState)
    → IsReplayTable replay tokens bytes identities limit
    → find id tokens ≡ none
    → leb identities (size replay + size tokens) ≡ false
    → fits_byte_budget bytes token.terminal_reservation_bytes limit ≡ true
    → limit < u64_mod
    → IsReplayTable replay
        (insert id token tokens)
        (add64 bytes token.terminal_reservation_bytes)
        identities
        limit
IsReplayTable-reserve replay tokens bytes identities limit id token b absent room fits word =
    let (larger, heavier) =
      insert_fresh (λ t. t.terminal_reservation_bytes) id token tokens absent in
    let fit = fits_byte_budget_lem bytes token.terminal_reservation_bytes limit fits in
    let exact = add64_exact bytes token.terminal_reservation_bytes in
    record {
      replay_distinct = b.replay_distinct;
      tokens_distinct = insert-Distinct id token tokens b.tokens_distinct;
      counted = omega (arith, b.counted, heavier, fit, exact);
      within = omega (arith, fit, exact);
      short = ground (arith, b.short, larger);
    }

-- A new entry.
pub IsReplayTable-remember :
    (replay : Map ReplayEntry) (tokens : Map WorkTokenState) (bytes identities limit : ℕ)
    (id : Bytes) (entry : ReplayEntry)
    → IsReplayTable replay tokens bytes identities limit
    → find id replay ≡ none
    → leb identities (size replay + size tokens) ≡ false
    → fits_byte_budget bytes entry.accounted_bytes limit ≡ true
    → limit < u64_mod
    → IsReplayTable
        (insert id entry replay)
        tokens
        (add64 bytes entry.accounted_bytes)
        identities
        limit
IsReplayTable-remember replay tokens bytes identities limit id entry b absent room fits word =
    let (larger, heavier) = insert_fresh (λ e. e.accounted_bytes) id entry replay absent in
    let fit = fits_byte_budget_lem bytes entry.accounted_bytes limit fits in
    let exact = add64_exact bytes entry.accounted_bytes in
    record {
      replay_distinct = insert-Distinct id entry replay b.replay_distinct;
      tokens_distinct = b.tokens_distinct;
      counted = omega (arith, b.counted, heavier, fit, exact);
      within = omega (arith, fit, exact);
      short = ground (arith, b.short, larger);
    }

-- An entry that is taken out gives its bytes back.
pub IsReplayTable-forget :
    (replay : Map ReplayEntry) (tokens : Map WorkTokenState) (bytes identities limit : ℕ)
    (id : Bytes) (entry : ReplayEntry)
    → IsReplayTable replay tokens bytes identities limit
    → find id replay ≡ some entry
    → limit < u64_mod
    → IsReplayTable (erase id replay) tokens (sub64 bytes entry.accounted_bytes) identities limit
IsReplayTable-forget replay tokens bytes identities limit id entry b found word =
    let (smaller, lighter) =
      erase_present (λ e. e.accounted_bytes) id entry replay b.replay_distinct found in
    let exact = sub64_exact bytes entry.accounted_bytes in
    record {
      replay_distinct = erase-Distinct id replay b.replay_distinct;
      tokens_distinct = b.tokens_distinct;
      counted = omega (arith, b.counted, b.within, lighter, exact);
      within = omega (arith, b.counted, b.within, lighter, exact);
      short = omega (arith, b.short, smaller);
    }

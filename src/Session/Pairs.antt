-- ===== src/Session/Pairs.antt =====
-- What one connection pair leaves to the next: the accounts, and the retained terminals.
use xgc2_adapter_runtime_cli.Base.{
  ℕ, ◌≡◌, refl, sym, subst, ◌∙◌, true, false, Bytes, List, [], find, is_empty, size, sum_map,
  if_both, arith, ◌==◌, u64_max,
}
use xgc2_adapter_runtime_cli.Base.Int.{ℤ}
use xgc2_adapter_runtime_cli.Message.{Environment}
use xgc2_adapter_runtime_cli.Message.Work.{WorkFrame}
use xgc2_adapter_runtime_cli.State.{
  SessionFence, WorkTokenState, ReplayEntry, DispatchJob, Impl, kind_of, same_kind,
}
use xgc2_adapter_runtime_cli.Replay.{TerminalCommitResult, commit_terminal_frame}
use xgc2_adapter_runtime_cli.Admission.{Decision, count_rejection, enqueue_locked}
use xgc2_adapter_runtime_cli.Admission.Redelivery.{commit_terminal_frame-enqueue_locked}
use xgc2_adapter_runtime_cli.Budget.{
  IsReplayTable, IsSourceTable, HasWordLimits, IsReplayBounded, InBudget,
}
use xgc2_adapter_runtime_cli.Application.Rely.{IsKept, keeps_all_notified}
use xgc2_adapter_runtime_cli.Budget.Empty.{IsBounded-nil, IsSourceTable-nil}
use xgc2_adapter_runtime_cli.Session.{
  release_all_tokens, fresh_pair, prepare_connection_pair_locked, drop_pair_work,
  prepare_pair_replacement, without_connection, clear_connection_state_locked, advance_epoch,
  next_pair,
}
use xgc2_adapter_runtime_cli.Session.Tokens.{release_all_tokens_lem, release_tokens-replay}

-- Without the tokens, the account is that of the retained terminals.
IsReplayTable-without_tokens :
    (replay : List (Bytes × ReplayEntry)) (tokens : List (Bytes × WorkTokenState))
    (bytes identities limit : ℕ)
    → IsReplayTable replay tokens bytes identities limit
    → IsReplayTable replay [] (sum_map (λ e. e.accounted_bytes) replay) identities limit
unfolding sum_map size
IsReplayTable-without_tokens replay tokens bytes identities limit b = record {
  replay_distinct = b.replay_distinct;
  tokens_distinct = tt;
  counted = omega arith;
  within = omega (arith, b.counted, b.within);
  short = omega (arith, b.short);
}

-- Between two pairs no source stream is open; the queues and the account of the sources may be stale.
pub record IsBetweenPairs (s : Impl) : Type 0 where
  pub words : HasWordLimits s.config
  pub replay : IsReplayBounded s
  pub streams : s.source_streams ≡ []

fresh_pair-InBudget :
    (fence : SessionFence) (s : Impl) → IsBetweenPairs s → InBudget (fresh_pair fence s)
unfolding fresh_pair
fresh_pair-InBudget fence s b = (
  b.words,
  IsBounded-nil _ _ _,
  IsBounded-nil _ _ _,
  IsBounded-nil _ _ _,
  b.replay,
  subst
      (λ m.
        IsSourceTable m [] 0 s.config.maximum_source_streams s.config.maximum_source_tombstones
          s.config.maximum_source_state_bytes)
      (sym b.streams) (IsSourceTable-nil _ _ _),
)

release_all_tokens-IsBetweenPairs :
    (s : Impl) → IsBetweenPairs s → IsBetweenPairs (release_all_tokens s)
release_all_tokens-IsBetweenPairs s b =
    subst IsBetweenPairs (sym (release_all_tokens_lem s b.replay)) (record {
      words = b.words;
      replay = IsReplayTable-without_tokens s.replay s.work_tokens _ _ _ b.replay;
      streams = b.streams;
    })

clear-IsBetweenPairs :
    (s : Impl) → IsBetweenPairs s → IsBetweenPairs (clear_connection_state_locked s)
unfolding clear_connection_state_locked without_connection
clear-IsBetweenPairs s b =
    let c = release_all_tokens-IsBetweenPairs s b in
    record { words = c.words; replay = c.replay; streams = c.streams }

advance_epoch-IsBetweenPairs : (s : Impl) → IsBetweenPairs s → IsBetweenPairs (advance_epoch s)
unfolding advance_epoch
advance_epoch-IsBetweenPairs s b =
    if_both IsBetweenPairs (s.connection_epoch_counter == u64_max)
      (record { words = b.words; replay = b.replay; streams = b.streams })
      (record { words = b.words; replay = b.replay; streams = b.streams })

pub prepare_connection_pair_locked-InBudget :
    (fence : SessionFence) (s : Impl)
    → IsBetweenPairs s
    → InBudget (prepare_connection_pair_locked fence s)
unfolding prepare_connection_pair_locked
prepare_connection_pair_locked-InBudget fence s b =
    fresh_pair-InBudget fence _ (release_all_tokens-IsBetweenPairs s b)

module _ ⦃w : Environment⦄ where
  -- Where the callbacks that the pair waits for leave the replay account in order and open no stream,
  -- and those that it calls keep that, all accounts are in order for the next pair.
  pub next_pair-InBudget :
      (fence : SessionFence) (wait_for_callbacks : Impl → Impl) (s : Impl)
      → IsKept IsBetweenPairs
      → IsBetweenPairs (wait_for_callbacks (drop_pair_work s))
      → InBudget (next_pair fence wait_for_callbacks s)
  unfolding next_pair prepare_pair_replacement
  next_pair-InBudget fence wait_for_callbacks s keeps b =
      prepare_connection_pair_locked-InBudget _ _ (
        advance_epoch-IsBetweenPairs _ (
          clear-IsBetweenPairs _ (
            keeps_all_notified IsBetweenPairs keeps
              (λ calls t k. record { words = k.words; replay = k.replay; streams = k.streams }) _ _
              _ (release_all_tokens-IsBetweenPairs _ b))))

advance_epoch-replay : (s : Impl) → (advance_epoch s).replay ≡ s.replay
unfolding advance_epoch
advance_epoch-replay s =
    if_both (λ (x : Impl). x.replay ≡ s.replay) (s.connection_epoch_counter == u64_max) refl refl

module _ ⦃w : Environment⦄ where
  -- The next pair retains what was retained when no callback that is waited for ran any more, and what the
  -- callbacks keep.
  pub next_pair-replay :
      (P : List (Bytes × ReplayEntry) → Type 0) (fence : SessionFence)
      (wait_for_callbacks : Impl → Impl) (s : Impl)
      → IsKept (λ t. P t.replay)
      → P (wait_for_callbacks (drop_pair_work s)).replay
      → P (next_pair fence wait_for_callbacks s).replay
  unfolding next_pair prepare_connection_pair_locked fresh_pair clear_connection_state_locked
      without_connection prepare_pair_replacement release_all_tokens
  next_pair-replay P fence wait_for_callbacks s keeps p =
      subst P (sym (release_tokens-replay _ _ ∙ advance_epoch-replay _ ∙ release_tokens-replay _ _))
        (keeps_all_notified (λ t. P t.replay) keeps (λ calls t k. k) _ _ _
          (subst P (sym (release_tokens-replay _ _)) p))

  -- Once a terminal is committed, and where the callbacks that the replacement waits for, and those that it
  -- calls, leave what is retained under its id: on the next connection pair, the section under the lock
  -- answers a request with its nonempty work id, kind and fingerprint with exactly that frame, and counts it;
  -- it changes nothing else.
  pub next_pair-enqueue_locked :
      (job again : DispatchJob) (frame : WorkFrame) (now : ℤ) (fence : SessionFence)
      (wait_for_callbacks : Impl → Impl) (s : Impl)
      → (commit_terminal_frame job frame s).0 ≡ TerminalCommitResult.committed
      → is_empty job.work_id ≡ false
      → again.work_id ≡ job.work_id
      → again.fingerprint ≡ job.fingerprint
      → same_kind (kind_of job.request) (kind_of again.request) ≡ true
      → IsKept (λ t.
        find job.work_id t.replay ≡ find job.work_id (commit_terminal_frame job frame s).1.replay)
      → find job.work_id
          (wait_for_callbacks (drop_pair_work (commit_terminal_frame job frame s).1)).replay
        ≡ find job.work_id (commit_terminal_frame job frame s).1.replay
      → enqueue_locked again now
          (next_pair fence wait_for_callbacks (commit_terminal_frame job frame s).1)
        ≡ (
          Decision.replay_immediate frame,
          count_rejection
              (next_pair fence wait_for_callbacks (commit_terminal_frame job frame s).1),
        )
  next_pair-enqueue_locked job again frame now fence wait s done named id print kind keeps kept =
      let t = (commit_terminal_frame job frame s).1 in
      commit_terminal_frame-enqueue_locked job again frame now s (next_pair fence wait t) done named
        id print kind
        (next_pair-replay (λ m. find job.work_id m ≡ find job.work_id t.replay) fence wait t keeps
          kept)

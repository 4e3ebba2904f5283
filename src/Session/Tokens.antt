-- ===== src/Session/Tokens.antt =====
-- The loop that releases all work tokens ends with none, and gives back exactly what they reserve.
use mathlib.Core.Path.{ap₂}
use xgc2_adapter_runtime_cli.Base.{
  ℕ, zero, suc, ◌+◌, ◌-◌, ◌≤◌, ◌≡◌, refl, sym, ap, subst, ◌∙◌, Bytes, [], ◌∷◌, Map, size, sum_map,
  find, erase, Distinct, some, none, same_refl, erase_absent, size-erase-le, list_cases,
  option_cases, leb, if◌then◌else◌, arith,
}
use xgc2_adapter_runtime_cli.State.{WorkTokenState, Impl}
use xgc2_adapter_runtime_cli.Replay.{release_work_token_locked}
use xgc2_adapter_runtime_cli.Session.{release_tokens, release_all_tokens}
use xgc2_adapter_runtime_cli.Budget.{IsReplayBounded}

-- The state with these tokens and this byte counter.
abbrev pub with_tokens : Impl → Map WorkTokenState → ℕ → Impl
with_tokens s tokens bytes = record s { work_tokens = tokens; terminal_replay_bytes = bytes }

-- The bytes of the replay table alone.
abbrev pub replay_bytes : Impl → ℕ
replay_bytes s = sum_map (λ e. e.accounted_bytes) s.replay

released : (r a b : ℕ) → (if leb r (a + (r + b)) then (a + (r + b)) - r else 0) ≡ a + b
released r a b = ground arith

erase_head :
    (k : Bytes) (t : WorkTokenState) (rest : Map WorkTokenState)
    → find k rest ≡ none
    → erase k ((k, t) ∷ rest) ≡ rest
unfolding erase
erase_head k t rest n = rw (same_refl k, erase_absent k rest n)

find_head :
    (k : Bytes) (t : WorkTokenState) (rest : Map WorkTokenState) → find k ((k, t) ∷ rest) ≡ some t
unfolding find
find_head k t rest = rw (same_refl k)

abbrev held : Map WorkTokenState → ℕ
held tokens = sum_map (λ t. t.terminal_reservation_bytes) tokens

release_found :
    (k : Bytes) (t : WorkTokenState) (s : Impl)
    → find k s.work_tokens ≡ some t
    → release_work_token_locked k s
      ≡ with_tokens s (erase k s.work_tokens) (
          if leb t.terminal_reservation_bytes s.terminal_replay_bytes
          then s.terminal_replay_bytes - t.terminal_reservation_bytes
          else 0)
unfolding release_work_token_locked
release_found k t s e =
    subst
      (λ o.
        ◌≡◌ {A = Impl}
          (elim o [
            | none ↦ s
            | some u ↦ with_tokens s (erase k s.work_tokens) (
                if leb u.terminal_reservation_bytes s.terminal_replay_bytes
                then s.terminal_replay_bytes - u.terminal_reservation_bytes
                else 0)
          ])
          (with_tokens s (erase k s.work_tokens) (
            if leb t.terminal_reservation_bytes s.terminal_replay_bytes
            then s.terminal_replay_bytes - t.terminal_reservation_bytes
            else 0)))
      (sym e) refl

release_first :
    (k : Bytes) (t : WorkTokenState) (rest : Map WorkTokenState) (a : ℕ) (s : Impl)
    → find k rest ≡ none
    → release_work_token_locked k (with_tokens s ((k, t) ∷ rest) (a + held ((k, t) ∷ rest)))
      ≡ with_tokens s rest (a + held rest)
unfolding sum_map
release_first k t rest a s n =
    release_found k t _ (find_head k t rest)
    ∙ ap₂ (with_tokens s) (erase_head k t rest n)
        (released t.terminal_reservation_bytes a (held rest))

release_tokens_lem :
    (tokens : Map WorkTokenState) (a : ℕ) (s : Impl)
    → Distinct tokens
    → release_tokens (size tokens) (with_tokens s tokens (a + held tokens)) ≡ with_tokens s [] a
unfolding release_tokens size sum_map
release_tokens_lem [] a s d = ap (with_tokens s []) (omega arith)
release_tokens_lem ((k, t) ∷ rest) a s d =
    subst (λ x. release_tokens (size rest) x ≡ with_tokens s [] a)
      (sym (release_first k t rest a s d.0)) (release_tokens_lem rest a s d.1)

-- Where the account is in order, the loop empties the table of tokens, leaves in the byte counter the
-- bytes of the replay table, and changes nothing else.
pub release_all_tokens_lem :
    (s : Impl) → IsReplayBounded s → release_all_tokens s ≡ with_tokens s [] (replay_bytes s)
unfolding release_all_tokens
release_all_tokens_lem s b =
    subst
      (λ n.
        release_tokens (size s.work_tokens) (with_tokens s s.work_tokens n)
        ≡ with_tokens s [] (replay_bytes s))
      (sym b.counted) (release_tokens_lem s.work_tokens (replay_bytes s) s b.tokens_distinct)

no_entry : (m : Map WorkTokenState) → size m ≤ 0 → m ≡ []
unfolding size
no_entry [] h = refl
no_entry (e ∷ m) h = absurd (omega (arith, h))

size-release :
    (k : Bytes) (t : WorkTokenState) (rest : Map WorkTokenState) (s : Impl)
    → s.work_tokens ≡ (k, t) ∷ rest
    → size (release_work_token_locked k s).work_tokens ≤ size rest
unfolding erase
size-release k t rest s e =
    subst (λ x. size x.work_tokens ≤ size rest)
      (sym (release_found k t s (ap (find k) e ∙ find_head k t rest)))
      (subst (λ m. size (erase k m) ≤ size rest) (sym e) (rw (same_refl k) (size-erase-le k rest)))

-- In any state, as many rounds as there are tokens leave none: the loop ends.
pub release_tokens-IsEmpty :
    (n : ℕ) (s : Impl) → size s.work_tokens ≤ n → (release_tokens n s).work_tokens ≡ []
unfolding release_tokens size
release_tokens-IsEmpty zero s h = no_entry s.work_tokens h
release_tokens-IsEmpty (suc n) s h =
    list_cases (λ (x : Impl). x.work_tokens ≡ []) s.work_tokens (λ e. e)
      (λ e rest eq.
        release_tokens-IsEmpty n (release_work_token_locked e.0 s)
          (omega (arith, size-release e.0 e.1 rest s eq, h, ap size eq)))

release-replay : (k : Bytes) (s : Impl) → (release_work_token_locked k s).replay ≡ s.replay
unfolding release_work_token_locked
release-replay k s =
    option_cases (λ (x : Impl). x.replay ≡ s.replay) (find k s.work_tokens) (λ _. refl)
      (λ _ _. refl)

pub release_tokens-replay : (n : ℕ) (s : Impl) → (release_tokens n s).replay ≡ s.replay
unfolding release_tokens
release_tokens-replay zero s = refl
release_tokens-replay (suc n) s =
    list_cases (λ (x : Impl). x.replay ≡ s.replay) s.work_tokens (λ _. refl)
      (λ e rest _. release_tokens-replay n (release_work_token_locked e.0 s) ∙ release-replay e.0 s)

-- ===== src/Acknowledge/Release.antt =====
-- src/stream.cpp: `HandleTerminalAcknowledgement` against a test of what is acceptable.
use xgc2_adapter_runtime_cli.Base.{
  ◌≡◌, refl, false, not, ◌||◌, Bytes, same, is_empty, Option, some, none, is_some, find,
  find-erase_self, if_cases, arith, Bool, true, ◌&&◌, ℕ, erase, sub64, leb, ◌-◌, if◌then◌else◌, ap,
  sym, ◌∙◌,
}
use xgc2_adapter_runtime_cli.Message.Work.{Identity, TerminalAcknowledgement}
use xgc2_adapter_runtime_cli.Text.{is_canonical_sha256}
use xgc2_adapter_runtime_cli.State.{ReplayEntry, ClosedSourceState, Impl}
use xgc2_adapter_runtime_cli.Credit.{Checked, report}
use xgc2_adapter_runtime_cli.Message.{Environment}
use xgc2_adapter_runtime_cli.Signal.{queue_work_protocol_error}
use xgc2_adapter_runtime_cli.Acknowledge.{
  release_work_terminal, release_source_terminal, acknowledge_work, acknowledge_source,
  acknowledge_identity, acknowledge_locked, handle_terminal_acknowledgement,
}

-- A refusal leaves the state, and after an acceptance the same check accepts and changes nothing.
record IsSettled (again : Impl → Checked) (s : Impl) (r : Checked) : Type 0 where
  refused : (message : Bytes) → r.0 ≡ some message → r.1 ≡ s
  settled : r.0 ≡ none → again r.1 ≡ (none, r.1)

refusal-IsSettled :
    (again : Impl → Checked) (s : Impl) (message : Bytes) → IsSettled again s (some message, s)
refusal-IsSettled again s message = record { refused = λ m h. refl; settled = λ h. ground arith }

work-IsSettled :
    (id digest : Bytes) (s : Impl)
    → IsSettled (acknowledge_work id digest) s (acknowledge_work id digest s)
unfolding acknowledge_work release_work_terminal
work-IsSettled id digest s =
    if_cases Q (is_empty id) (λ _. refusal-IsSettled _ s _)
      (λ named.
        if_cases Q (is_some (find id s.work_tokens) || is_some (find id s.source_streams))
          (λ _. refusal-IsSettled _ s _)
          (λ idle.
            if_cases Q (is_some (find id s.closed_sources)) (λ _. refusal-IsSettled _ s _)
              (λ work. released named idle work (find id s.replay) refl)))
  where
    Q : Checked → Type 0
    Q = IsSettled (acknowledge_work id digest) s

    released :
        is_empty id ≡ false
        → (is_some (find id s.work_tokens) || is_some (find id s.source_streams)) ≡ false
        → is_some (find id s.closed_sources) ≡ false
        → (c : Option ReplayEntry) → find id s.replay ≡ c
        → Q (release_work_terminal id digest c s)
    released named idle work none e = record {
      refused = λ m h. ground arith;
      settled = λ h. rw (named, idle, work, e) refl;
    }
    released named idle work (some entry) e =
        if_cases Q (not (same entry.terminal_digest digest)) (λ _. refusal-IsSettled _ s _)
          (λ _. record {
            refused = λ m h. ground arith;
            settled = λ h. rw (named, idle, work, find-erase_self id s.replay) refl;
          })

source-IsSettled :
    (id digest : Bytes) (s : Impl)
    → IsSettled (acknowledge_source id digest) s (acknowledge_source id digest s)
unfolding acknowledge_source release_source_terminal
source-IsSettled id digest s =
    if_cases Q (is_empty id) (λ _. refusal-IsSettled _ s _)
      (λ named.
        if_cases Q (is_some (find id s.source_streams) || is_some (find id s.work_tokens))
          (λ _. refusal-IsSettled _ s _)
          (λ idle.
            if_cases Q (is_some (find id s.replay)) (λ _. refusal-IsSettled _ s _)
              (λ source. released named idle source (find id s.closed_sources) refl)))
  where
    Q : Checked → Type 0
    Q = IsSettled (acknowledge_source id digest) s

    released :
        is_empty id ≡ false
        → (is_some (find id s.source_streams) || is_some (find id s.work_tokens)) ≡ false
        → is_some (find id s.replay) ≡ false
        → (c : Option ClosedSourceState) → find id s.closed_sources ≡ c
        → Q (release_source_terminal id digest c s)
    released named idle source none e = record {
      refused = λ m h. ground arith;
      settled = λ h. rw (named, idle, source, e) refl;
    }
    released named idle source (some closed) e =
        if_cases Q (is_empty closed.terminal_digest || not (same closed.terminal_digest digest))
          (λ _. refusal-IsSettled _ s _)
          (λ _. record {
            refused = λ m h. ground arith;
            settled = λ h. rw (named, idle, source, find-erase_self id s.closed_sources) refl;
          })

identity-IsSettled :
    (identity : Identity) (digest : Bytes) (s : Impl)
    → IsSettled (acknowledge_identity identity digest) s (acknowledge_identity identity digest s)
unfolding acknowledge_identity
identity-IsSettled (Identity.work_id id) digest s = work-IsSettled id digest s
identity-IsSettled (Identity.stream_id id) digest s = source-IsSettled id digest s
identity-IsSettled Identity.not_set digest s = refusal-IsSettled _ s _

locked-IsSettled :
    (a : TerminalAcknowledgement) (s : Impl)
    → IsSettled (acknowledge_locked a) s (acknowledge_locked a s)
unfolding acknowledge_locked
locked-IsSettled a s =
    if_cases (IsSettled (acknowledge_locked a) s) (not (is_canonical_sha256 a.terminal_digest))
      (λ _. refusal-IsSettled _ s _)
      (λ canonical. record {
        refused = (identity-IsSettled a.identity a.terminal_digest s).refused;
        settled = λ h. rw canonical ((identity-IsSettled a.identity a.terminal_digest s).settled h);
      })

-- The test of an acknowledgement: one condition, three that must not hold, and one on what is retained.
abbrev pub passes : Bool → Bool → Bool → Bool → Bool → Bool
passes canonical unnamed active mistaken matches =
    canonical && not unnamed && not active && not mistaken && matches

passes_unnamed : (a b c d e : Bool) → b ≡ true → passes a b c d e ≡ false
passes_unnamed a b c d e h = ground arith

passes_active : (a b c d e : Bool) → c ≡ true → passes a b c d e ≡ false
passes_active a b c d e h = ground arith

passes_mistaken : (a b c d e : Bool) → d ≡ true → passes a b c d e ≡ false
passes_mistaken a b c d e h = ground arith

passes_conflict : (a b c d e : Bool) → e ≡ false → passes a b c d e ≡ false
passes_conflict a b c d e h = ground arith

passes_all :
    (a b c d e : Bool)
    → a ≡ true
    → b ≡ false
    → c ≡ false
    → d ≡ false
    → e ≡ true
    → passes a b c d e ≡ true
passes_all a b c d e h k l m n = ground arith

abbrev work_matches : Bytes → Option ReplayEntry → Bool
work_matches digest none = true
work_matches digest (some entry) = same entry.terminal_digest digest

abbrev source_matches : Bytes → Option ClosedSourceState → Bool
source_matches digest none = true
source_matches digest (some closed) =
    not (is_empty closed.terminal_digest) && same closed.terminal_digest digest

-- A canonical digest, and a nonempty id that is not active and not retained as the other kind; what is
-- retained under it has this digest.
abbrev pub is_acceptable : Identity → Bytes → Impl → Bool
is_acceptable (Identity.work_id id) digest s =
    passes (is_canonical_sha256 digest) (is_empty id)
      (is_some (find id s.work_tokens) || is_some (find id s.source_streams))
      (is_some (find id s.closed_sources)) (work_matches digest (find id s.replay))
is_acceptable (Identity.stream_id id) digest s =
    passes (is_canonical_sha256 digest) (is_empty id)
      (is_some (find id s.source_streams) || is_some (find id s.work_tokens))
      (is_some (find id s.replay)) (source_matches digest (find id s.closed_sources))
is_acceptable Identity.not_set digest s = false

abbrev retains : Identity → Impl → Bool
retains (Identity.work_id id) s = is_some (find id s.replay)
retains (Identity.stream_id id) s = is_some (find id s.closed_sources)
retains Identity.not_set s = false

module _ ⦃w : Environment⦄ where
  -- What an acknowledgement does to the state.
  pub data IsAnswered (identity : Identity) (digest : Bytes) (sequence : ℕ) (s : Impl)
      : Impl → Type 0 where
    protocol_error :
        (message : Bytes)
        → is_acceptable identity digest s ≡ false
        → IsAnswered identity digest sequence s (queue_work_protocol_error sequence message s)
    nothing_retained :
        is_acceptable identity digest s ≡ true
        → retains identity s ≡ false
        → IsAnswered identity digest sequence s s
    work_released :
        {id : Bytes} {entry : ReplayEntry}
        → identity ≡ Identity.work_id id
        → find id s.replay ≡ some entry
        → is_acceptable identity digest s ≡ true
        → IsAnswered identity digest sequence s (record s {
          terminal_replay_bytes = sub64 s.terminal_replay_bytes entry.accounted_bytes;
          replay = erase id s.replay;
        })
    source_released :
        {id : Bytes} {closed : ClosedSourceState}
        → identity ≡ Identity.stream_id id
        → find id s.closed_sources ≡ some closed
        → is_acceptable identity digest s ≡ true
        → IsAnswered identity digest sequence s (record s {
          source_state_bytes =
              if leb closed.accounted_bytes s.source_state_bytes
              then s.source_state_bytes - closed.accounted_bytes
              else 0;
          closed_sources = erase id s.closed_sources;
        })

  -- The report of a check, and that it accepts what is acceptable.
  record IsChecked (identity : Identity) (digest : Bytes) (sequence : ℕ) (s : Impl) (r : Checked)
      : Type 0 where
    answered : IsAnswered identity digest sequence s (report sequence r)
    accepts : is_acceptable identity digest s ≡ true → r.0 ≡ none

  refusal-IsChecked :
      (identity : Identity) (digest : Bytes) (sequence : ℕ) (s : Impl) (message : Bytes)
      → is_acceptable identity digest s ≡ false
      → IsChecked identity digest sequence s (some message, s)
  unfolding report
  refusal-IsChecked identity digest sequence s message h = record {
    answered = IsAnswered.protocol_error message h;
    accepts = λ k. absurd (ground (arith, h, k));
  }

  work-IsChecked :
      (id digest : Bytes) (sequence : ℕ) (s : Impl)
      → is_canonical_sha256 digest ≡ true
      → IsChecked (Identity.work_id id) digest sequence s (acknowledge_work id digest s)
  unfolding acknowledge_work release_work_terminal report
  work-IsChecked id digest sequence s canonical =
      if_cases Q (is_empty id) (λ e. refused (passes_unnamed _ _ active mistaken matches e))
        (λ named.
          if_cases Q active (λ e. refused (passes_active _ (is_empty id) _ mistaken matches e))
            (λ idle.
              if_cases Q mistaken
                (λ e. refused (passes_mistaken _ (is_empty id) active _ matches e))
                (λ right. released named idle right (find id s.replay) refl)))
    where
      Q : Checked → Type 0
      Q = IsChecked (Identity.work_id id) digest sequence s

      active : Bool
      active = is_some (find id s.work_tokens) || is_some (find id s.source_streams)

      mistaken : Bool
      mistaken = is_some (find id s.closed_sources)

      matches : Bool
      matches = work_matches digest (find id s.replay)

      refused :
          {message : Bytes}
          → is_acceptable (Identity.work_id id) digest s ≡ false
          → Q (some message, s)
      refused h = refusal-IsChecked _ digest sequence s _ h

      accepted :
          is_empty id ≡ false
          → active ≡ false
          → mistaken ≡ false
          → matches ≡ true
          → is_acceptable (Identity.work_id id) digest s ≡ true
      accepted named idle right same_digest =
          passes_all (is_canonical_sha256 digest) (is_empty id) active mistaken matches canonical
            named idle right same_digest

      released :
          is_empty id ≡ false
          → active ≡ false
          → mistaken ≡ false
          → (c : Option ReplayEntry) → find id s.replay ≡ c
          → Q (release_work_terminal id digest c s)
      released named idle right none e = record {
        answered =
            IsAnswered.nothing_retained (accepted named idle right (ap (work_matches digest) e))
              (ap (λ o. is_some o) e);
        accepts = λ h. refl;
      }
      released named idle right (some entry) e =
          if_cases Q (not (same entry.terminal_digest digest))
            (λ conflict. refused (
              passes_conflict (is_canonical_sha256 digest) (is_empty id) active mistaken _
                (ap (work_matches digest) e ∙ ground (arith, conflict))))
            (λ agrees. record {
              answered =
                  IsAnswered.work_released refl e (
                    accepted named idle right
                      (ap (work_matches digest) e ∙ ground (arith, agrees)));
              accepts = λ h. refl;
            })

  source-IsChecked :
      (id digest : Bytes) (sequence : ℕ) (s : Impl)
      → is_canonical_sha256 digest ≡ true
      → IsChecked (Identity.stream_id id) digest sequence s (acknowledge_source id digest s)
  unfolding acknowledge_source release_source_terminal report
  source-IsChecked id digest sequence s canonical =
      if_cases Q (is_empty id) (λ e. refused (passes_unnamed _ _ active mistaken matches e))
        (λ named.
          if_cases Q active (λ e. refused (passes_active _ (is_empty id) _ mistaken matches e))
            (λ idle.
              if_cases Q mistaken
                (λ e. refused (passes_mistaken _ (is_empty id) active _ matches e))
                (λ right. released named idle right (find id s.closed_sources) refl)))
    where
      Q : Checked → Type 0
      Q = IsChecked (Identity.stream_id id) digest sequence s

      active : Bool
      active = is_some (find id s.source_streams) || is_some (find id s.work_tokens)

      mistaken : Bool
      mistaken = is_some (find id s.replay)

      matches : Bool
      matches = source_matches digest (find id s.closed_sources)

      refused :
          {message : Bytes}
          → is_acceptable (Identity.stream_id id) digest s ≡ false
          → Q (some message, s)
      refused h = refusal-IsChecked _ digest sequence s _ h

      accepted :
          is_empty id ≡ false
          → active ≡ false
          → mistaken ≡ false
          → matches ≡ true
          → is_acceptable (Identity.stream_id id) digest s ≡ true
      accepted named idle right same_digest =
          passes_all (is_canonical_sha256 digest) (is_empty id) active mistaken matches canonical
            named idle right same_digest

      released :
          is_empty id ≡ false
          → active ≡ false
          → mistaken ≡ false
          → (c : Option ClosedSourceState) → find id s.closed_sources ≡ c
          → Q (release_source_terminal id digest c s)
      released named idle right none e = record {
        answered =
            IsAnswered.nothing_retained (accepted named idle right (ap (source_matches digest) e))
              (ap (λ o. is_some o) e);
        accepts = λ h. refl;
      }
      released named idle right (some closed) e =
          if_cases Q (is_empty closed.terminal_digest || not (same closed.terminal_digest digest))
            (λ conflict. refused (
              passes_conflict (is_canonical_sha256 digest) (is_empty id) active mistaken _
                (ap (source_matches digest) e ∙ ground (arith, conflict))))
            (λ agrees. record {
              answered = IsAnswered.source_released refl e (
                  accepted named idle right
                    (ap (source_matches digest) e ∙ ground (arith, agrees)));
              accepts = λ h. refl;
            })

  non_canonical :
      (identity : Identity) (digest : Bytes) (s : Impl)
      → is_canonical_sha256 digest ≡ false
      → is_acceptable identity digest s ≡ false
  non_canonical (Identity.work_id id) digest s h = ground (arith, h)
  non_canonical (Identity.stream_id id) digest s h = ground (arith, h)
  non_canonical Identity.not_set digest s h = refl

  identity-IsChecked :
      (identity : Identity) (digest : Bytes) (sequence : ℕ) (s : Impl)
      → is_canonical_sha256 digest ≡ true
      → IsChecked identity digest sequence s (acknowledge_identity identity digest s)
  unfolding acknowledge_identity
  identity-IsChecked (Identity.work_id id) digest sequence s canonical =
      work-IsChecked id digest sequence s canonical
  identity-IsChecked (Identity.stream_id id) digest sequence s canonical =
      source-IsChecked id digest sequence s canonical
  identity-IsChecked Identity.not_set digest sequence s canonical =
      refusal-IsChecked _ digest sequence s _ refl

  locked-IsChecked :
      (a : TerminalAcknowledgement) (sequence : ℕ) (s : Impl)
      → IsChecked a.identity a.terminal_digest sequence s (acknowledge_locked a s)
  unfolding acknowledge_locked
  locked-IsChecked a sequence s =
      if_cases (IsChecked a.identity a.terminal_digest sequence s)
        (not (is_canonical_sha256 a.terminal_digest))
        (λ other.
          refusal-IsChecked _ a.terminal_digest sequence s _
            (non_canonical a.identity a.terminal_digest s (ground (arith, other))))
        (λ canonical.
          identity-IsChecked a.identity a.terminal_digest sequence s (ground (arith, canonical)))

  report_accepted : (sequence : ℕ) (r : Checked) → r.0 ≡ none → report sequence r ≡ r.1
  unfolding report
  report_accepted sequence (none, s) h = refl
  report_accepted sequence (some message, s) h = ground (arith, h)

  -- The same acknowledgement once more changes nothing.
  abbrev Repeats : TerminalAcknowledgement → ℕ → Impl → Type 0
  Repeats a sequence s =
      handle_terminal_acknowledgement a sequence (handle_terminal_acknowledgement a sequence s)
      ≡ handle_terminal_acknowledgement a sequence s

  -- An acknowledgement is acceptable if its digest is canonical, its id is nonempty, not active and not
  -- retained as the other kind, and what is retained under it has this digest. One that is not acceptable
  -- gets a protocol error, and nothing else happens; one that is leaves the state if nothing is retained, and
  -- else takes what is retained out of its table, with its bytes out of the counter. After it, the same
  -- acknowledgement again changes nothing.
  pub handle_terminal_acknowledgement_lem :
      (a : TerminalAcknowledgement) (sequence : ℕ) (s : Impl)
      → IsAnswered a.identity a.terminal_digest sequence s
          (handle_terminal_acknowledgement a sequence s)
        × (is_acceptable a.identity a.terminal_digest s ≡ true
            → handle_terminal_acknowledgement a sequence
                (handle_terminal_acknowledgement a sequence s)
              ≡ handle_terminal_acknowledgement a sequence s)
  unfolding handle_terminal_acknowledgement report
  handle_terminal_acknowledgement_lem a sequence s =
      let checked = locked-IsChecked a sequence s in
      let again : is_acceptable a.identity a.terminal_digest s ≡ true → Repeats a sequence s = λ h.
        let e = checked.accepts h in
        let reported = report_accepted sequence (acknowledge_locked a s) e in
        ap (λ t. report sequence (acknowledge_locked a t)) reported
        ∙ ap (report sequence) ((locked-IsSettled a s).settled e)
        ∙ sym reported in
      (checked.answered, again)

-- ===== src/InstanceSpec/Transition.antt =====
-- What the result of an instance spec says of the state.
use xgc2_adapter_runtime_cli.Base.{
  ℕ, ◌≤◌, ◌≡◌, refl, ◌∙◌, Bool, true, false, not, ◌&&◌, Bytes, same, same_iff, List, [], ◌∷◌,
  Option, none, some, is_some, leb, ◌==◌, if_both, if_cases, arith,
}
use xgc2_adapter_runtime_cli.Message.{Environment}
use xgc2_adapter_runtime_cli.Message.Spec.{
  EnabledCapability, AdapterInstanceSpec, CapabilityStatus, ApplyInstanceSpecResult,
}
use xgc2_adapter_runtime_cli.State.{ClientState, Invocation, Impl}
use xgc2_adapter_runtime_cli.InstanceSpec.{SpecCheck, validate_instance_spec}
use xgc2_adapter_runtime_cli.InstanceSpec.Gate.{is_stale, Gate, gate_spec}
use xgc2_adapter_runtime_cli.InstanceSpec.Callbacks.{
  Lifecycle, Started, called, has_ready, conclude_ready_call, run_ready,
}
use xgc2_adapter_runtime_cli.InstanceSpec.Apply.{
  activate, zip, roll_back, commit_spec, fail_ready, finish_spec, conclude_ready, conclude_commit,
  conclude_started, conclude_applied, run_transition, pass_gate, apply_checked, apply_instance_spec,
}

-- The spec that the client runs, with the grants by capability.
record SameSpec (s t : Impl) : Type 0 where
  revision : t.spec_revision ≡ s.spec_revision
  digest : t.spec_digest ≡ s.spec_digest
  active_spec : t.active_spec ≡ s.active_spec
  active_capabilities : t.active_capabilities ≡ s.active_capabilities

SameSpec-trans : {s t u : Impl} → SameSpec s t → SameSpec t u → SameSpec s u
SameSpec-trans k l = record {
  revision = l.revision ∙ k.revision;
  digest = l.digest ∙ k.digest;
  active_spec = l.active_spec ∙ k.active_spec;
  active_capabilities = l.active_capabilities ∙ k.active_capabilities;
}

-- While a ready callback runs, no other thread changes the spec that the client runs.
abbrev pub KeepsSpec : Lifecycle → Type 0
KeepsSpec app =
    (index : ℕ) (s : Impl)
    → ((app.ready index s).1.spec_revision ≡ s.spec_revision)
      × ((app.ready index s).1.spec_digest ≡ s.spec_digest)
      × ((app.ready index s).1.active_spec ≡ s.active_spec)
      × ((app.ready index s).1.active_capabilities ≡ s.active_capabilities)

-- The state has the committed spec with these grants, by the index of their binding.
pub record IsCommitted (grants : List (ℕ × EnabledCapability)) (spec : AdapterInstanceSpec)
    (t : Impl) : Type 0 where
  pub revision : t.spec_revision ≡ spec.revision
  pub digest : t.spec_digest ≡ spec.spec_digest
  pub active_spec : t.active_spec ≡ spec
  pub active_capabilities : t.active_capabilities ≡ activate grants []

-- Ready for Work; or the session has changed, and the state is left as it is.
pub record IsOpen (expected_session : Bytes) (t : Impl) : Type 0 where
  pub state : is_stale expected_session t ≡ false → t.state ≡ ClientState.ready
  pub accepting_work : is_stale expected_session t ≡ false → t.accepting_work ≡ true
  pub ready_callbacks : is_stale expected_session t ≡ false → t.ready_callbacks_complete ≡ true

-- The client runs the spec: it did so before, and nothing changed; or the spec was found valid, its
-- revision is not below the one before, and it was committed, and the client opened for Work.
pub data Runs ⦃w : Environment⦄ (expected_session : Bytes) (check : SpecCheck)
    (spec : AdapterInstanceSpec) (s : Impl) : Impl → Type 0 where
  already :
      s.spec_revision ≡ spec.revision
      → s.spec_digest ≡ spec.spec_digest
      → w.same_spec spec s.active_spec ≡ true
      → Runs expected_session check spec s s
  transition :
      {indices : List ℕ} {t : Impl}
      → check ≡ SpecCheck.bound indices
      → s.spec_revision ≤ spec.revision
      → IsCommitted (zip indices spec.capabilities) spec t
      → IsOpen expected_session t
      → Runs expected_session check spec s t

-- A result with `applied` goes with such a state.
record Truthful (P : Impl → Type 0) (r : ApplyInstanceSpecResult × Impl) : Type 0 where
  truth : r.0.applied ≡ true → P r.1

no_claim :
    (P : Impl → Type 0) (r : ApplyInstanceSpecResult × Impl) → r.0.applied ≡ false → Truthful P r
no_claim P r e = record { truth = λ h. absurd (ground (arith, e, h)) }

-- The spec of a state, kept.
record StillRuns {A : Type 0} (s : Impl) (r : A × Impl) : Type 0 where
  still : SameSpec s r.1

conclude_ready_call-StillRuns :
    (index : ℕ) (s : Impl) (r : Bool × Impl) (later : Option ℕ × Impl)
    → SameSpec s r.1
    → StillRuns r.1 later
    → StillRuns s (conclude_ready_call index r later)
unfolding conclude_ready_call
conclude_ready_call-StillRuns index s (true, t) later k l = record { still = k }
conclude_ready_call-StillRuns index s (false, t) later k l = record {
  still = SameSpec-trans k l.still;
}

run_ready-StillRuns :
    (app : Lifecycle) (indices : List ℕ) (s : Impl)
    → KeepsSpec app
    → StillRuns s (run_ready app indices s)
unfolding run_ready
run_ready-StillRuns app [] s keeps = record {
  still = record { revision = refl; digest = refl; active_spec = refl; active_capabilities = refl };
}
run_ready-StillRuns app (index ∷ indices) s keeps =
    let (revision, digest, active, grants) =
      keeps index (called (Invocation.ready_capability index) s) in
    if_both (StillRuns s) (has_ready s index)
      (conclude_ready_call-StillRuns index s _ _
        (record {
          revision = revision;
          digest = digest;
          active_spec = active;
          active_capabilities = grants;
        })
        (run_ready-StillRuns app indices _ keeps))
      (run_ready-StillRuns app indices s keeps)

IsCommitted-still :
    {grants : List (ℕ × EnabledCapability)} {spec : AdapterInstanceSpec} {s t : Impl}
    → IsCommitted grants spec s
    → SameSpec s t
    → IsCommitted grants spec t
IsCommitted-still c k = record {
  revision = k.revision ∙ c.revision;
  digest = k.digest ∙ c.digest;
  active_spec = k.active_spec ∙ c.active_spec;
  active_capabilities = k.active_capabilities ∙ c.active_capabilities;
}

finish_spec-IsOpen :
    (expected_session : Bytes) (statuses : List CapabilityStatus) (s : Impl)
    → IsOpen expected_session (finish_spec expected_session statuses s)
unfolding finish_spec
finish_spec-IsOpen expected_session statuses s =
    if_cases (IsOpen expected_session) (is_stale expected_session s)
      (λ stale. record {
        state = λ h. absurd (ground (arith, stale, h));
        accepting_work = λ h. absurd (ground (arith, stale, h));
        ready_callbacks = λ h. absurd (ground (arith, stale, h));
      })
      (λ _. record { state = λ _. refl; accepting_work = λ _. refl; ready_callbacks = λ _. refl })

finish_spec-SameSpec :
    (expected_session : Bytes) (statuses : List CapabilityStatus) (s : Impl)
    → SameSpec s (finish_spec expected_session statuses s)
unfolding finish_spec
finish_spec-SameSpec expected_session statuses s =
    if_both (SameSpec s) (is_stale expected_session s)
      (record { revision = refl; digest = refl; active_spec = refl; active_capabilities = refl })
      (record { revision = refl; digest = refl; active_spec = refl; active_capabilities = refl })

module _ ⦃w : Environment⦄ (app : Lifecycle) (keeps : KeepsSpec app) (spec : AdapterInstanceSpec)
    (expected_session : Bytes) (grants : List (ℕ × EnabledCapability)) where
  Done : Impl → Type 0
  Done t = IsCommitted grants spec t × IsOpen expected_session t

  conclude_ready-Truthful :
      (statuses : List CapabilityStatus) (r : Option ℕ × Impl)
      → IsCommitted grants spec r.1
      → Truthful Done (conclude_ready app expected_session spec statuses r)
  unfolding conclude_ready fail_ready Done
  conclude_ready-Truthful statuses (some index, s) c = no_claim Done _ refl
  conclude_ready-Truthful statuses (none, s) c = record {
    truth = λ _. (
      IsCommitted-still c (finish_spec-SameSpec expected_session statuses s),
      finish_spec-IsOpen expected_session statuses s,
    );
  }

  conclude_commit-Truthful :
      (statuses : List CapabilityStatus) (started : List ℕ) (r : Bool × Impl)
      → (r.0 ≡ true → IsCommitted grants spec r.1)
      → Truthful Done (conclude_commit app expected_session spec statuses started r)
  unfolding conclude_commit
  conclude_commit-Truthful statuses started (true, s) committed =
      let ran = run_ready-StillRuns app started s keeps in
      conclude_ready-Truthful statuses _ (IsCommitted-still (committed refl) ran.still)
  conclude_commit-Truthful statuses started (false, s) committed = no_claim Done _ refl

  commit_spec-IsCommitted :
      (statuses : List CapabilityStatus) (s : Impl)
      → (commit_spec expected_session spec grants statuses s).0 ≡ true
      → IsCommitted grants spec (commit_spec expected_session spec grants statuses s).1
  unfolding commit_spec
  commit_spec-IsCommitted statuses s =
      if_both (λ (r : Bool × Impl). r.0 ≡ true → IsCommitted grants spec r.1)
        (is_stale expected_session s) (λ h. absurd (ground (arith, h)))
        (λ _. record {
          revision = refl;
          digest = refl;
          active_spec = refl;
          active_capabilities = refl;
        })

  conclude_started-Truthful :
      (r : Started × Impl) → Truthful Done (conclude_started app expected_session spec grants r)
  unfolding conclude_started roll_back
  conclude_started-Truthful (outcome, s) =
      if_both (Truthful Done) (is_some outcome.failed_contract) (no_claim Done _ refl)
        (conclude_commit-Truthful _ outcome.started _ (commit_spec-IsCommitted _ s))

  conclude_applied-Truthful :
      (r : (Bool × Bytes) × Impl)
      → Truthful Done (conclude_applied app expected_session spec grants r)
  unfolding conclude_applied roll_back
  conclude_applied-Truthful ((true, error), s) = conclude_started-Truthful _
  conclude_applied-Truthful ((false, error), s) = no_claim Done _ refl

  run_transition-Truthful :
      (s : Impl) → Truthful Done (run_transition app expected_session spec grants s)
  unfolding run_transition
  run_transition-Truthful s =
      if_both (Truthful Done) (is_stale expected_session s) (no_claim Done _ refl)
        (conclude_applied-Truthful _)

-- The first section answers truthfully, or lets a spec of no lower revision through.
data Gated (P : Impl → Type 0) (spec : AdapterInstanceSpec) (s : Impl) : Gate × Impl → Type 0 where
  answers :
      {result : ApplyInstanceSpecResult} {t : Impl}
      → Truthful P (result, t)
      → Gated P spec s (Gate.answered result, t)
  passes : {t : Impl} → s.spec_revision ≤ spec.revision → Gated P spec s (Gate.transition, t)

module _ ⦃w : Environment⦄ (app : Lifecycle) (keeps : KeepsSpec app) (expected_session : Bytes)
    (spec : AdapterInstanceSpec) (s : Impl) where
  gate_spec-Gated :
      (check : SpecCheck)
      → Gated (Runs expected_session check spec s) spec s (gate_spec expected_session spec s)
  unfolding gate_spec
  gate_spec-Gated check =
      let P = Runs expected_session check spec s in
      let Q = Gated P spec s in
      if_both Q (is_stale expected_session s) (Gated.answers (no_claim P _ refl)) (
        if_cases Q ((spec.revision == s.spec_revision) && same spec.spec_digest s.spec_digest)
          (λ e. Gated.answers (
            if_cases (λ (r : ApplyInstanceSpecResult). Truthful P (r, s))
              (not (w.same_spec spec s.active_spec)) (λ _. no_claim P _ refl)
              (λ held. record {
                truth = λ _.
                    Runs.already (ground arith)
                      (ground (arith, same_iff spec.spec_digest s.spec_digest))
                      (ground (arith, held));
              })))
          (λ _.
            if_cases Q (not (s.spec_revision == 0) && leb spec.revision s.spec_revision)
              (λ _. Gated.answers (no_claim P _ refl))
              (λ above.
                if_both Q ((s.spec_revision == 0) && not (w.same_spec spec s.desired_spec))
                  (Gated.answers (no_claim P _ refl)) (Gated.passes (ground arith)))))

  transition-Truthful :
      (indices : List ℕ) (r : ApplyInstanceSpecResult × Impl)
      → s.spec_revision ≤ spec.revision
      → Truthful (Done app keeps spec expected_session (zip indices spec.capabilities)) r
      → Truthful (Runs expected_session (SpecCheck.bound indices) spec s) r
  unfolding Done
  transition-Truthful indices r advances done = record {
    truth = λ h.
        let (committed, opened) = done.truth h in Runs.transition refl advances committed opened;
  }

  pass_gate-Truthful :
      (indices : List ℕ) (r : Gate × Impl)
      → Gated (Runs expected_session (SpecCheck.bound indices) spec s) spec s r
      → Truthful
          (Runs expected_session (SpecCheck.bound indices) spec s)
          (pass_gate app expected_session spec indices r)
  unfolding pass_gate
  pass_gate-Truthful indices (Gate.answered result, t) (Gated.answers truthful) = truthful
  pass_gate-Truthful indices (Gate.transition, t) (Gated.passes advances) =
      transition-Truthful indices _ advances
        (run_transition-Truthful app keeps spec expected_session _ _)

  apply_checked-Truthful :
      (check : SpecCheck)
      → Truthful
          (Runs expected_session check spec s)
          (apply_checked app expected_session spec check s)
  unfolding apply_checked
  apply_checked-Truthful (SpecCheck.refused message) = no_claim _ _ refl
  apply_checked-Truthful (SpecCheck.bound indices) =
      pass_gate-Truthful indices _ (gate_spec-Gated (SpecCheck.bound indices))

  -- Where ready callbacks leave the spec in the state: if the result of an instance spec says that it was
  -- applied, then either the state had its revision, its digest and the same content before, and is
  -- unchanged; or the spec was found valid, of no lower revision than the one before, and the state has its
  -- revision, its digest, the spec itself and its grants with their bindings, and is ready, accepts Work and
  -- has its ready callbacks completed unless the session has changed.
  pub apply_instance_spec-Runs :
      (apply_instance_spec app expected_session spec s).0.applied ≡ true
      → Runs expected_session
          (validate_instance_spec s.config spec)
          spec
          s
          (apply_instance_spec app expected_session spec s).1
  unfolding apply_instance_spec
  apply_instance_spec-Runs applied =
      let checked = apply_checked-Truthful (validate_instance_spec s.config spec) in
      checked.truth applied

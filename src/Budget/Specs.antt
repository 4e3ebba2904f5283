-- ===== src/Budget/Specs.antt =====
-- src/spec.cpp: the transition from one spec to the next keeps all accounts.
use xgc2_adapter_runtime_cli.Base.{
  ℕ, Bool, true, false, not, Bytes, List, [], ◌∷◌, Option, none, some, is_some, reverse, if_both,
  ◌==◌, ◌&&◌, same, leb,
}
use xgc2_adapter_runtime_cli.Message.{Environment}
use xgc2_adapter_runtime_cli.Message.Spec.{EnabledCapability, AdapterInstanceSpec, CapabilityStatus}
use xgc2_adapter_runtime_cli.State.{Invocation, Impl}
use xgc2_adapter_runtime_cli.Signal.{cancel_all_work_locked}
use xgc2_adapter_runtime_cli.Application.{
  safe_clear_instance_spec, stop_all, deactivate_locked, deactivate_application,
}
use xgc2_adapter_runtime_cli.Application.Rely.{
  IsKept, keeps_stopped, keeps_cleared, keeps_deactivated,
}
use xgc2_adapter_runtime_cli.InstanceSpec.{SpecCheck, validate_instance_spec}
use xgc2_adapter_runtime_cli.InstanceSpec.Gate.{is_stale, Gate, gate_spec}
use xgc2_adapter_runtime_cli.InstanceSpec.Callbacks.{
  Lifecycle, Started, called, conclude_top_level, apply_top_level, has_start, has_ready, start_one,
  conclude_start, start_capabilities, conclude_ready_call, run_ready,
}
use xgc2_adapter_runtime_cli.InstanceSpec.Apply.{
  roll_back, commit_spec, fail_ready, finish_spec, conclude_ready, conclude_commit,
  conclude_started, conclude_applied, run_transition, pass_gate, apply_checked, apply_instance_spec,
}
use xgc2_adapter_runtime_cli.Budget.{InBudget, InBudgetAfter, Kept}
use xgc2_adapter_runtime_cli.Budget.Empty.{IsSourceTable-nil}

-- Callbacks during which the other threads keep the accounts.
pub record KeepsBudget ⦃w : Environment⦄ (app : Lifecycle) : Type 0 where
  pub calls : IsKept InBudget
  pub apply_instance_spec :
      (spec : AdapterInstanceSpec) (error : Bytes) (s : Impl)
      → InBudget s
      → InBudget (app.apply_instance_spec spec error s).1
  pub start :
      (index : ℕ) (grant : EnabledCapability) (error : Bytes) (s : Impl)
      → InBudget s
      → InBudget (app.start index grant error s).1
  pub ready : (index : ℕ) (s : Impl) → InBudget s → InBudget (app.ready index s).1
  pub wait_for_callbacks : (s : Impl) → InBudget s → InBudget (app.wait_for_callbacks s)

module _ ⦃w : Environment⦄ where
  pub deactivate_application-InBudget :
      (wait_for_callbacks : Impl → Impl) (reason : Bytes) (s : Impl)
      → IsKept InBudget
      → ((t : Impl) → InBudget t → InBudget (wait_for_callbacks t))
      → InBudget s
      → InBudget (deactivate_application wait_for_callbacks reason s)
  unfolding deactivate_locked cancel_all_work_locked
  deactivate_application-InBudget wait_for_callbacks reason s calls keeps
        (words, control, work, dispatch, replay, table) =
      let ended : InBudget (deactivate_locked s) =
        (words, control, work, dispatch, replay, IsSourceTable-nil _ _ _) in
      keeps_deactivated InBudget calls (λ _ t c. c) wait_for_callbacks reason s (keeps _ ended)

module _ ⦃w : Environment⦄ (app : Lifecycle) (keeps : KeepsBudget app) where
  stop_all-InBudget : (indices : List ℕ) (s : Impl) → InBudget s → InBudget (stop_all indices s)
  stop_all-InBudget = keeps_stopped InBudget keeps.calls (λ _ t c. c)

  safe_clear-InBudget : (s : Impl) → InBudget s → InBudget (safe_clear_instance_spec s)
  safe_clear-InBudget = keeps_cleared InBudget keeps.calls (λ _ t c. c)

  conclude_top_level-InBudget :
      (outcome : Bool × Bytes) (s : Impl) → InBudget s → Kept (conclude_top_level outcome s)
  unfolding conclude_top_level
  conclude_top_level-InBudget (true, error) s b = record { kept = b }
  conclude_top_level-InBudget (false, error) s b = record { kept = safe_clear-InBudget s b }

  apply_top_level-InBudget :
      (spec : AdapterInstanceSpec) (s : Impl) → InBudget s → Kept (apply_top_level app spec s)
  unfolding apply_top_level
  apply_top_level-InBudget spec s b =
      if_both Kept s.callbacks.apply_instance_spec
        (conclude_top_level-InBudget _ _ (
          keeps.apply_instance_spec spec []
            (called (Invocation.apply_instance_spec spec.spec_digest) s) b))
        (record { kept = b })

  start_one-InBudget :
      (index : ℕ) (grant : EnabledCapability) (error : Bytes) (s : Impl)
      → InBudget s
      → Kept (start_one app index grant error s)
  unfolding start_one
  start_one-InBudget index grant error s b =
      if_both Kept (has_start s index)
        (record {
          kept = keeps.start index grant error (called (Invocation.start_capability index) s) b;
        })
        (record { kept = b })

  conclude_start-InBudget :
      (index : ℕ) (grant : EnabledCapability) (outcome : Bool × Bytes) (s : Impl)
      (later : Started × Impl)
      → InBudget s
      → Kept later
      → Kept (conclude_start index grant outcome s later)
  unfolding conclude_start
  conclude_start-InBudget index grant (true, error) s (later, s') b k = record { kept = k.kept }
  conclude_start-InBudget index grant (false, error) s later b k = record { kept = b }

  start_capabilities-InBudget :
      (grants : List (ℕ × EnabledCapability)) (error : Bytes) (s : Impl)
      → InBudget s
      → Kept (start_capabilities app grants error s)
  unfolding start_capabilities
  start_capabilities-InBudget [] error s b = record { kept = b }
  start_capabilities-InBudget ((index, grant) ∷ grants) error s b =
      let first = start_one-InBudget index grant error s b in
      conclude_start-InBudget index grant _ _ _ first.kept
        (start_capabilities-InBudget grants _ _ first.kept)

  conclude_ready_call-InBudget :
      (index : ℕ) (r : Bool × Impl) (later : Option ℕ × Impl)
      → InBudget r.1
      → Kept later
      → Kept (conclude_ready_call index r later)
  unfolding conclude_ready_call
  conclude_ready_call-InBudget index (true, s) later b k = record { kept = b }
  conclude_ready_call-InBudget index (false, s) later b k = k

  run_ready-InBudget : (indices : List ℕ) (s : Impl) → InBudget s → Kept (run_ready app indices s)
  unfolding run_ready
  run_ready-InBudget [] s b = record { kept = b }
  run_ready-InBudget (index ∷ indices) s b =
      let after = keeps.ready index (called (Invocation.ready_capability index) s) b in
      if_both Kept (has_ready s index)
        (conclude_ready_call-InBudget index _ _ after (run_ready-InBudget indices _ after))
        (run_ready-InBudget indices s b)

  roll_back-InBudget :
      (top_level_applied : Bool) (spec : AdapterInstanceSpec) (outcome : Started) (s : Impl)
      → InBudget s
      → Kept (roll_back top_level_applied spec outcome s)
  unfolding roll_back
  roll_back-InBudget top_level_applied spec outcome s b =
      let stopped = stop_all-InBudget (reverse outcome.started) s b in
      record { kept = if_both InBudget top_level_applied (safe_clear-InBudget _ stopped) stopped }

  fail_ready-InBudget :
      (spec : AdapterInstanceSpec) (index : ℕ) (s : Impl)
      → InBudget s
      → Kept (fail_ready app spec index s)
  unfolding fail_ready
  fail_ready-InBudget spec index s b = record {
    kept =
        deactivate_application-InBudget app.wait_for_callbacks _ s keeps.calls
          keeps.wait_for_callbacks b;
  }

  conclude_ready-InBudget :
      (expected_session : Bytes) (spec : AdapterInstanceSpec) (statuses : List CapabilityStatus)
      (r : Option ℕ × Impl)
      → Kept r
      → Kept (conclude_ready app expected_session spec statuses r)
  unfolding conclude_ready finish_spec
  conclude_ready-InBudget expected_session spec statuses (some index, s) k =
      fail_ready-InBudget spec index s k.kept
  conclude_ready-InBudget expected_session spec statuses (none, s) k = record {
    kept = if_both InBudget (is_stale expected_session s) k.kept k.kept;
  }

  conclude_commit-InBudget :
      (expected_session : Bytes) (spec : AdapterInstanceSpec) (statuses : List CapabilityStatus)
      (started : List ℕ) (r : Bool × Impl)
      → Kept r
      → Kept (conclude_commit app expected_session spec statuses started r)
  unfolding conclude_commit
  conclude_commit-InBudget expected_session spec statuses started (true, s) k =
      conclude_ready-InBudget expected_session spec statuses _ (run_ready-InBudget started s k.kept)
  conclude_commit-InBudget expected_session spec statuses started (false, s) k = record {
    kept = safe_clear-InBudget _ (stop_all-InBudget (reverse started) s k.kept);
  }

  conclude_started-InBudget :
      (expected_session : Bytes) (spec : AdapterInstanceSpec)
      (grants : List (ℕ × EnabledCapability)) (r : Started × Impl)
      → Kept r
      → Kept (conclude_started app expected_session spec grants r)
  unfolding conclude_started commit_spec
  conclude_started-InBudget expected_session spec grants (outcome, s) k =
      if_both Kept (is_some outcome.failed_contract) (roll_back-InBudget true spec outcome s k.kept)
        (conclude_commit-InBudget expected_session spec _ outcome.started _ (
          if_both Kept (is_stale expected_session s) (record { kept = k.kept })
            (record { kept = k.kept })))

  conclude_applied-InBudget :
      (expected_session : Bytes) (spec : AdapterInstanceSpec)
      (grants : List (ℕ × EnabledCapability)) (r : (Bool × Bytes) × Impl)
      → Kept r
      → Kept (conclude_applied app expected_session spec grants r)
  unfolding conclude_applied
  conclude_applied-InBudget expected_session spec grants ((true, error), s) k =
      conclude_started-InBudget expected_session spec grants _
        (start_capabilities-InBudget grants error s k.kept)
  conclude_applied-InBudget expected_session spec grants ((false, error), s) k =
      roll_back-InBudget false spec _ s k.kept

  run_transition-InBudget :
      (expected_session : Bytes) (spec : AdapterInstanceSpec)
      (grants : List (ℕ × EnabledCapability)) (s : Impl)
      → InBudget s
      → Kept (run_transition app expected_session spec grants s)
  unfolding run_transition
  run_transition-InBudget expected_session spec grants s b =
      if_both Kept (is_stale expected_session s) (record { kept = b })
        (conclude_applied-InBudget expected_session spec grants _ (
          apply_top_level-InBudget spec _ (
            deactivate_application-InBudget app.wait_for_callbacks _ s keeps.calls
              keeps.wait_for_callbacks b)))

  gate_spec-InBudget :
      (expected_session : Bytes) (spec : AdapterInstanceSpec) (s : Impl)
      → InBudget s
      → Kept (gate_spec expected_session spec s)
  unfolding gate_spec cancel_all_work_locked
  gate_spec-InBudget expected_session spec s b =
      if_both Kept (is_stale expected_session s) (record { kept = b })
        (if_both Kept ((spec.revision == s.spec_revision) && same spec.spec_digest s.spec_digest)
          (record { kept = b })
          (if_both Kept (not (s.spec_revision == 0) && leb spec.revision s.spec_revision)
            (record { kept = b })
            (if_both Kept ((s.spec_revision == 0) && not (w.same_spec spec s.desired_spec))
              (record { kept = b }) (record { kept = b }))))

  pass_gate-InBudget :
      (expected_session : Bytes) (spec : AdapterInstanceSpec) (indices : List ℕ) (r : Gate × Impl)
      → Kept r
      → Kept (pass_gate app expected_session spec indices r)
  unfolding pass_gate
  pass_gate-InBudget expected_session spec indices (Gate.answered result, s) k = record {
    kept = k.kept;
  }
  pass_gate-InBudget expected_session spec indices (Gate.transition, s) k =
      run_transition-InBudget expected_session spec _ _ (keeps.wait_for_callbacks s k.kept)

  apply_checked-InBudget :
      (expected_session : Bytes) (spec : AdapterInstanceSpec) (check : SpecCheck) (s : Impl)
      → InBudget s
      → Kept (apply_checked app expected_session spec check s)
  unfolding apply_checked
  apply_checked-InBudget expected_session spec (SpecCheck.refused message) s b = record { kept = b }
  apply_checked-InBudget expected_session spec (SpecCheck.bound indices) s b =
      pass_gate-InBudget expected_session spec indices _
        (gate_spec-InBudget expected_session spec s b)

  pub apply_instance_spec-InBudget :
      (expected_session : Bytes) (spec : AdapterInstanceSpec) (s : Impl)
      → InBudget s
      → InBudgetAfter (apply_instance_spec app expected_session spec s)
  unfolding apply_instance_spec
  apply_instance_spec-InBudget expected_session spec s b =
      let checked =
        apply_checked-InBudget expected_session spec (validate_instance_spec s.config spec) s b in
      checked.kept

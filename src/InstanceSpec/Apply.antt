-- ===== src/InstanceSpec/Apply.antt =====
-- src/spec.cpp: `ApplyInstanceSpec`, section by section.
use xgc2_adapter_runtime_cli.Base.{
  ℕ, Bool, true, false, Bytes, text, same, is_empty, List, [], ◌∷◌, Option, none, some, Map, find,
  insert, is_some, map, reverse, if◌then◌else◌,
}
use xgc2_adapter_runtime_cli.Message.{Environment}
use xgc2_adapter_runtime_cli.Message.Errors.{ErrorClass}
use xgc2_adapter_runtime_cli.Message.Spec.{
  EnabledCapability, AdapterInstanceSpec, CapabilityState, CapabilityStatus,
  ApplyInstanceSpecResult,
}
use xgc2_adapter_runtime_cli.State.{ClientState, ActiveCapability, Impl}
use xgc2_adapter_runtime_cli.Endpoint.{binding_at}
use xgc2_adapter_runtime_cli.Application.{
  disabled_capability_statuses, safe_clear_instance_spec, stop_all, deactivate_application,
}
use xgc2_adapter_runtime_cli.Contract.{key_of_contract, key_of_grant, key_of_status}
use xgc2_adapter_runtime_cli.InstanceSpec.{SpecCheck, validate_instance_spec}
use xgc2_adapter_runtime_cli.InstanceSpec.Gate.{
  spec_result, failure, is_stale, stale_result, Gate, gate_spec,
}
use xgc2_adapter_runtime_cli.InstanceSpec.Callbacks.{
  Lifecycle, Started, apply_top_level, start_capabilities, run_ready,
}

-- The statuses with this one's state and detail where the key is the same.
unfoldable pub mark_status :
    Bytes → CapabilityState → Bytes → List CapabilityStatus → List CapabilityStatus
mark_status key state detail [] = []
mark_status key state detail (status ∷ statuses) =
    let rest = mark_status key state detail statuses in
    if same (key_of_status status) key
    then record status { state = state; detail = detail } ∷ rest
    else status ∷ rest

abbrev failed_statuses : Option Bytes → Bytes → List CapabilityStatus → List CapabilityStatus
failed_statuses none error statuses = statuses
failed_statuses (some key) error statuses = mark_status key CapabilityState.failed error statuses

module _ ⦃w : Environment⦄ where
  -- What was started is stopped again, the last one first, and the spec cleared if it was applied.
  unfoldable pub roll_back :
      Bool → AdapterInstanceSpec → Started → Impl → ApplyInstanceSpecResult × Impl
  unfolding mark_status
  roll_back top_level_applied spec outcome s =
      let stopped = stop_all (reverse outcome.started) s in
      let cleared = if top_level_applied then safe_clear_instance_spec stopped else stopped in
      let statuses =
        failed_statuses outcome.failed_contract outcome.apply_error
          (disabled_capability_statuses cleared) in
      (
        spec_result spec false
            (failure ErrorClass.permanent (text "spec-apply-failed") (
              if is_empty outcome.apply_error
              then text "instance spec apply failed"
              else outcome.apply_error))
            statuses,
        record cleared { capability_statuses = statuses; state = ClientState.registered },
      )

-- active.emplace: the first grant of an id stays.
unfoldable pub activate : List (ℕ × EnabledCapability) → Map ActiveCapability → Map ActiveCapability
activate [] active = active
activate ((index, grant) ∷ grants) active = activate grants (
    if is_some (find grant.capability_id active)
    then active
    else insert grant.capability_id (record { binding_index = index; grant = grant }) active)

unfoldable pub ready_statuses :
    List (ℕ × EnabledCapability) → List CapabilityStatus → List CapabilityStatus
ready_statuses [] statuses = statuses
ready_statuses ((index, grant) ∷ grants) statuses = ready_statuses grants (
    mark_status (key_of_grant grant) CapabilityState.ready (text "capability grant is active")
      statuses)

abbrev pub is_ready_status : CapabilityState → Bool
is_ready_status CapabilityState.ready = true
is_ready_status _ = false

abbrev configuring : CapabilityStatus → CapabilityStatus
configuring status =
    if is_ready_status status.state
    then record status {
      state = CapabilityState.configuring;
      detail = text "capability ready callback is pending";
    }
    else status

-- The commit, if the session is still the same: `false` is `stale_before_commit`.
unfoldable pub commit_spec :
    Bytes
    → AdapterInstanceSpec
    → List (ℕ × EnabledCapability)
    → List CapabilityStatus
    → Impl
    → Bool × Impl
commit_spec expected_session spec grants statuses s =
    if is_stale expected_session s then (false, s) else (
      true,
      record s {
        active_capabilities = activate grants [];
        active_spec = spec;
        spec_revision = spec.revision;
        spec_digest = spec.spec_digest;
        capability_statuses = map configuring statuses;
        accepting_work = false;
        state = ClientState.applying_spec;
        ready_callbacks_complete = false;
      },
    )

module _ ⦃w : Environment⦄ where
  unfoldable pub fail_ready :
      Lifecycle → AdapterInstanceSpec → ℕ → Impl → ApplyInstanceSpecResult × Impl
  fail_ready app spec index s =
      let disabled = disabled_capability_statuses s in
      let statuses : List CapabilityStatus = elim (binding_at s index) [
        | none ↦ disabled
        | some b ↦
            mark_status (key_of_contract b.contract) CapabilityState.failed
              (text "capability ready callback failed") disabled
      ] in
      (
        spec_result spec false
            (failure ErrorClass.permanent (text "ready-callback-failed")
              (text "capability ready callback failed after instance spec commit"))
            statuses,
        record (deactivate_application app.wait_for_callbacks
            (text "capability ready callback failed") s) {
              capability_statuses = statuses;
              state = ClientState.registered;
              accepting_work = false;
              ready_callbacks_complete = false;
            },
      )

-- The last section under the lock.
unfoldable pub finish_spec : Bytes → List CapabilityStatus → Impl → Impl
finish_spec expected_session statuses s = if is_stale expected_session s then s else record s {
  capability_statuses = statuses;
  accepting_work = true;
  state = ClientState.ready;
  ready_callbacks_complete = true;
}

module _ ⦃w : Environment⦄ where
  -- From the look at what was started on.
  unfoldable pub conclude_ready :
      Lifecycle
      → Bytes
      → AdapterInstanceSpec
      → List CapabilityStatus
      → Option ℕ × Impl
      → ApplyInstanceSpecResult × Impl
  conclude_ready app expected_session spec statuses (some index, s) = fail_ready app spec index s
  conclude_ready app expected_session spec statuses (none, s) =
      (spec_result spec true none statuses, finish_spec expected_session statuses s)

  -- After the commit, or instead of it.
  unfoldable pub conclude_commit :
      Lifecycle
      → Bytes
      → AdapterInstanceSpec
      → List CapabilityStatus
      → List ℕ
      → Bool × Impl
      → ApplyInstanceSpecResult × Impl
  unfolding conclude_ready
  conclude_commit app expected_session spec statuses started (true, s) =
      conclude_ready app expected_session spec statuses (run_ready app started s)
  conclude_commit app expected_session spec statuses started (false, s) = (
    stale_result spec (text "session changed before instance spec commit"),
    safe_clear_instance_spec (stop_all (reverse started) s),
  )

  -- From the look at what was started on.
  unfoldable pub conclude_started :
      Lifecycle
      → Bytes
      → AdapterInstanceSpec
      → List (ℕ × EnabledCapability)
      → Started × Impl
      → ApplyInstanceSpecResult × Impl
  unfolding conclude_commit
  conclude_started app expected_session spec grants (outcome, s) =
      let statuses = ready_statuses grants (disabled_capability_statuses s) in
      if is_some outcome.failed_contract
      then roll_back true spec outcome s
      else conclude_commit app expected_session spec statuses outcome.started
          (commit_spec expected_session spec grants statuses s)

  -- From the top-level callback on.
  unfoldable pub conclude_applied :
      Lifecycle
      → Bytes
      → AdapterInstanceSpec
      → List (ℕ × EnabledCapability)
      → (Bool × Bytes) × Impl
      → ApplyInstanceSpecResult × Impl
  conclude_applied app expected_session spec grants ((true, error), s) =
      conclude_started app expected_session spec grants (start_capabilities app grants error s)
  conclude_applied app expected_session spec grants ((false, error), s) =
      roll_back false spec (record { started = []; failed_contract = none; apply_error = error }) s

  -- The transition: the old spec ends, the new one is applied and its capabilities are started.
  unfoldable pub run_transition :
      Lifecycle
      → Bytes
      → AdapterInstanceSpec
      → List (ℕ × EnabledCapability)
      → Impl
      → ApplyInstanceSpecResult × Impl
  unfolding conclude_applied
  run_transition app expected_session spec grants s =
      if is_stale expected_session s
      then (stale_result spec (text "session changed while applying instance spec"), s)
      else conclude_applied app expected_session spec grants (
          apply_top_level app spec
            (deactivate_application app.wait_for_callbacks (text "instance spec replaced") s))

abbrev pub zip : List ℕ → List EnabledCapability → List (ℕ × EnabledCapability)
zip (i ∷ is) (g ∷ gs) = (i, g) ∷ zip is gs
zip _ _ = []

module _ ⦃w : Environment⦄ where
  unfoldable pub pass_gate :
      Lifecycle
      → Bytes
      → AdapterInstanceSpec
      → List ℕ
      → Gate × Impl
      → ApplyInstanceSpecResult × Impl
  unfolding run_transition
  pass_gate app expected_session spec indices (Gate.answered result, s) = (result, s)
  pass_gate app expected_session spec indices (Gate.transition, s) =
      run_transition app expected_session spec (zip indices spec.capabilities)
        (app.wait_for_callbacks s)

  unfoldable pub apply_checked :
      Lifecycle → Bytes → AdapterInstanceSpec → SpecCheck → Impl → ApplyInstanceSpecResult × Impl
  unfolding pass_gate
  apply_checked app expected_session spec (SpecCheck.refused message) s = (
    spec_result spec false (failure ErrorClass.rejected (text "invalid-instance-spec") message)
        (disabled_capability_statuses s),
    s,
  )
  apply_checked app expected_session spec (SpecCheck.bound indices) s =
      pass_gate app expected_session spec indices (gate_spec expected_session spec s)

  unfoldable pub apply_instance_spec :
      Lifecycle → Bytes → AdapterInstanceSpec → Impl → ApplyInstanceSpecResult × Impl
  unfolding apply_checked
  apply_instance_spec app expected_session spec s =
      apply_checked app expected_session spec (validate_instance_spec s.config spec) s

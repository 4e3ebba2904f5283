-- ===== src/Application.antt =====
-- src/spec.cpp: the end of an application's spec, `DeactivateApplication`.
pub mod Rely
use xgc2_adapter_runtime_cli.Base.{
  ℕ, zero, suc, ◌+◌, ◌/◌, ◌%◌, Bool, true, false, not, Bytes, text, same, List, [], ◌∷◌, ◌++◌,
  Option, none, some, map, reverse, ltb, ◌==◌, if◌then◌else◌,
}
use xgc2_adapter_runtime_cli.Message.{Environment}
use xgc2_adapter_runtime_cli.Message.Errors.{ErrorClass, AdapterError}
use xgc2_adapter_runtime_cli.Message.Spec.{
  CapabilityStatus, CapabilityState, EnabledCapability, default_instance_spec,
}
use xgc2_adapter_runtime_cli.Text.{make_error, is_canonical_text}
use xgc2_adapter_runtime_cli.State.{CapabilityBinding, SourceState, Invocation, Impl}
use xgc2_adapter_runtime_cli.Endpoint.{binding_at}
use xgc2_adapter_runtime_cli.Signal.{cancel_all_work_locked}
use xgc2_adapter_runtime_cli.Source.{notify_source_closed}

abbrev pub disabled_status : CapabilityBinding → CapabilityStatus
disabled_status binding = record {
  capability_id = binding.contract.capability_id;
  contract_version = binding.contract.contract_version;
  contract_digest = binding.contract.contract_digest;
  state = CapabilityState.disabled;
  detail = text "capability contract is not enabled by the current spec";
}

unfoldable pub disabled_capability_statuses : Impl → List CapabilityStatus
disabled_capability_statuses s = map disabled_status s.config.capabilities

module _ ⦃w : Environment⦄ where
  -- NotifySourceClosed for each stream, in the order of the table.
  unfoldable pub notify_all_closed : List (Bytes × SourceState) → AdapterError → Impl → Impl
  notify_all_closed [] error s = s
  notify_all_closed (e ∷ sources) error s =
      notify_all_closed sources error (notify_source_closed e.1 error s)

  -- The callback is called; what it throws is only logged.
  unfoldable pub safe_stop_capability : ℕ → Impl → Impl
  safe_stop_capability index s = elim (binding_at s index) [
    | none ↦ s
    | some binding ↦
        let called = record s { invocations = Invocation.stop_capability index ∷ s.invocations } in
        if binding.callbacks.stop then w.stop_capability index called else s
  ]

  unfoldable pub safe_clear_instance_spec : Impl → Impl
  safe_clear_instance_spec s =
      let called = record s { invocations = Invocation.clear_instance_spec ∷ s.invocations } in
      if s.callbacks.clear_instance_spec then w.clear_instance_spec called else s

  -- SafeStopCapability for each index, from the front.
  unfoldable pub stop_all : List ℕ → Impl → Impl
  stop_all [] s = s
  stop_all (index ∷ indices) s = stop_all indices (safe_stop_capability index s)

-- The first section of DeactivateApplicationUnlocked.
unfoldable pub deactivate_locked : Impl → Impl
deactivate_locked s = record (cancel_all_work_locked s) {
  accepting_work = false;
  source_streams = [];
  closed_sources = [];
  source_state_bytes = 0;
  active_capabilities = [];
  active_spec = default_instance_spec;
  spec_revision = 0;
  spec_digest = [];
  capability_statuses = disabled_capability_statuses s;
}

unfoldable pub deactivation_error : Bytes → AdapterError
deactivation_error reason =
    make_error ErrorClass.cancelled (text "source-stream-closed")
      (if is_canonical_text reason then reason else text "source stream closed")

module _ ⦃w : Environment⦄ where
  -- DeactivateApplicationUnlocked; `wait_for_callbacks` is what the other threads do until no callback
  -- runs. What is stopped and told was collected in the first section.
  unfoldable pub deactivate_application : (Impl → Impl) → Bytes → Impl → Impl
  deactivate_application wait_for_callbacks reason s =
      let bindings = map (λ a. a.1.binding_index) s.active_capabilities in
      let stopped = stop_all (reverse bindings) (wait_for_callbacks (deactivate_locked s)) in
      notify_all_closed s.source_streams (deactivation_error reason)
        (if s.spec_revision == 0 then stopped else safe_clear_instance_spec stopped)

-- ===== src/Application/Rely.antt =====
-- What the callbacks that return nothing leave of the state: a property that each of them keeps is kept
-- by the functions that call them.
use xgc2_adapter_runtime_cli.Base.{
  ℕ, Bytes, List, [], ◌∷◌, map, reverse, if_both, option_cases, ◌==◌,
}
use xgc2_adapter_runtime_cli.Message.{Environment}
use xgc2_adapter_runtime_cli.Message.Errors.{AdapterError}
use xgc2_adapter_runtime_cli.Message.Work.{SourceOpenRequest}
use xgc2_adapter_runtime_cli.State.{SourceState, Invocation, Impl}
use xgc2_adapter_runtime_cli.Endpoint.{binding_at}
use xgc2_adapter_runtime_cli.Source.{notify_source_closed}
use xgc2_adapter_runtime_cli.Application.{
  notify_all_closed, safe_stop_capability, safe_clear_instance_spec, stop_all, deactivate_locked,
  deactivation_error, deactivate_application,
}

-- The callbacks, and the other threads while they run, keep a property of the state.
pub record IsKept ⦃w : Environment⦄ (P : Impl → Type 0) : Type 0 where
  pub stopped : (index : ℕ) (s : Impl) → P s → P (w.stop_capability index s)
  pub cleared : (s : Impl) → P s → P (w.clear_instance_spec s)
  pub closed :
      (index : ℕ) (request : SourceOpenRequest) (error : AdapterError) (s : Impl)
      → P s
      → P (w.source_closed index request error s)

module _ ⦃w : Environment⦄ (P : Impl → Type 0) (keeps : IsKept P)
    (recorded : (calls : List Invocation) (s : Impl)
      → P s
      → P (record s { invocations = calls })) where
  pub keeps_notified :
      (source : SourceState) (error : AdapterError) (s : Impl)
      → P s
      → P (notify_source_closed source error s)
  unfolding notify_source_closed
  keeps_notified source error s p =
      option_cases P (binding_at s source.binding_index) (λ _. p)
        (λ binding _.
          if_both P binding.callbacks.source_closed
            (keeps.closed source.binding_index source.request error _ (recorded _ s p)) p)

  pub keeps_all_notified :
      (sources : List (Bytes × SourceState)) (error : AdapterError) (s : Impl)
      → P s
      → P (notify_all_closed sources error s)
  unfolding notify_all_closed
  keeps_all_notified [] error s p = p
  keeps_all_notified (e ∷ sources) error s p =
      keeps_all_notified sources error _ (keeps_notified e.1 error s p)

  pub keeps_stopped : (indices : List ℕ) (s : Impl) → P s → P (stop_all indices s)
  unfolding stop_all safe_stop_capability
  keeps_stopped [] s p = p
  keeps_stopped (index ∷ indices) s p = keeps_stopped indices _ (
      option_cases P (binding_at s index) (λ _. p)
        (λ binding _. if_both P binding.callbacks.stop (keeps.stopped index _ (recorded _ s p)) p))

  pub keeps_cleared : (s : Impl) → P s → P (safe_clear_instance_spec s)
  unfolding safe_clear_instance_spec
  keeps_cleared s p = if_both P s.callbacks.clear_instance_spec (keeps.cleared _ (recorded _ s p)) p

  -- What holds when no callback runs any more holds at the end of a deactivation.
  pub keeps_deactivated :
      (wait_for_callbacks : Impl → Impl) (reason : Bytes) (s : Impl)
      → P (wait_for_callbacks (deactivate_locked s))
      → P (deactivate_application wait_for_callbacks reason s)
  unfolding deactivate_application
  keeps_deactivated wait_for_callbacks reason s p =
      let stopped =
        keeps_stopped (reverse (map (λ a. a.1.binding_index) s.active_capabilities)) _ p in
      keeps_all_notified s.source_streams (deactivation_error reason) _
        (if_both P (s.spec_revision == 0) stopped (keeps_cleared _ stopped))

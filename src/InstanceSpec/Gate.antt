-- ===== src/InstanceSpec/Gate.antt =====
-- src/spec.cpp: the results of `ApplyInstanceSpec`, and its first section, which answers or goes on.
use xgc2_adapter_runtime_cli.Base.{
  Bool, true, false, not, ◌&&◌, ◌||◌, Bytes, text, same, List, [], Option, none, some, leb, ◌==◌,
  if◌then◌else◌,
}
use xgc2_adapter_runtime_cli.Message.{Environment}
use xgc2_adapter_runtime_cli.Message.Errors.{ErrorClass, AdapterError}
use xgc2_adapter_runtime_cli.Message.Spec.{
  AdapterInstanceSpec, CapabilityStatus, ApplyInstanceSpecResult,
}
use xgc2_adapter_runtime_cli.Text.{make_error}
use xgc2_adapter_runtime_cli.State.{ClientState, Impl}
use xgc2_adapter_runtime_cli.Signal.{cancel_all_work_locked}

abbrev pub spec_result :
    AdapterInstanceSpec
    → Bool
    → Option AdapterError
    → List CapabilityStatus
    → ApplyInstanceSpecResult
spec_result spec applied error statuses = record {
  revision = spec.revision;
  spec_digest = spec.spec_digest;
  applied = applied;
  error = error;
  capabilities = statuses;
}

abbrev pub failure : ErrorClass → Bytes → Bytes → Option AdapterError
failure class code message = some (make_error class code message)

abbrev pub is_stale : Bytes → Impl → Bool
is_stale expected_session s =
    not (same s.session_id expected_session) || s.stop_requested || s.session_failed

abbrev pub stale_result : AdapterInstanceSpec → Bytes → ApplyInstanceSpecResult
stale_result spec message =
    spec_result spec false (failure ErrorClass.cancelled (text "stale-session") message) []

-- A section either answers, or goes on.
pub data Gate : Type 0 where
  answered : ApplyInstanceSpecResult → Gate
  transition : Gate

module _ ⦃w : Environment⦄ where
  -- The first section under the lock.
  unfoldable pub gate_spec : Bytes → AdapterInstanceSpec → Impl → Gate × Impl
  gate_spec expected_session spec s =
      if is_stale expected_session s
      then (
        Gate.answered
            (stale_result spec (text "instance spec belongs to a stale or stopping session")),
        s,
      )
      else if (spec.revision == s.spec_revision) && same spec.spec_digest s.spec_digest
      then (
        Gate.answered (
            if not (w.same_spec spec s.active_spec)
            then spec_result spec false
                (failure ErrorClass.rejected (text "spec-content-mismatch")
                  (text "Host changed instance spec content without changing its identity"))
                []
            else spec_result spec true none s.capability_statuses),
        s,
      )
      else if not (s.spec_revision == 0) && leb spec.revision s.spec_revision
      then (
        Gate.answered (
            spec_result spec false
              (failure ErrorClass.rejected (text "stale-spec-revision")
                (text "instance spec revision did not advance"))
              []),
        s,
      )
      else if (s.spec_revision == 0) && not (w.same_spec spec s.desired_spec)
      then (
        Gate.answered (
            spec_result spec false
              (failure ErrorClass.rejected (text "initial-spec-mismatch") (
                text "Host spec does not match the exact desired spec for this registered session"))
              []),
        s,
      )
      else (
        Gate.transition,
        record (cancel_all_work_locked s) {
          desired_spec = spec;
          state = ClientState.applying_spec;
          accepting_work = false;
        },
      )

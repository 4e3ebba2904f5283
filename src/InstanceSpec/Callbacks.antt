-- ===== src/InstanceSpec/Callbacks.antt =====
-- src/spec.cpp: the callbacks of the application that `ApplyInstanceSpec` calls; they may change the
-- state, as other threads do meanwhile.
use xgc2_adapter_runtime_cli.Base.{
  ℕ, Bool, true, false, Bytes, text, List, [], ◌∷◌, ◌++◌, Option, none, some, if◌then◌else◌,
}
use xgc2_adapter_runtime_cli.Message.{Environment}
use xgc2_adapter_runtime_cli.Message.Spec.{EnabledCapability, AdapterInstanceSpec}
use xgc2_adapter_runtime_cli.Text.{is_canonical_text}
use xgc2_adapter_runtime_cli.State.{Invocation, Impl}
use xgc2_adapter_runtime_cli.Endpoint.{binding_at}
use xgc2_adapter_runtime_cli.Application.{safe_clear_instance_spec}
use xgc2_adapter_runtime_cli.Contract.{key_of_grant}

-- A return, with what the callback leaves in `apply_error`, or an exception.
pub data SpecReturn : Type 0 where
  returned : Bool → Bytes → SpecReturn
  threw : Bytes → SpecReturn
  threw_unknown : SpecReturn

-- The callbacks of the application, from `apply_error` and the state; `ready` is true if it threw.
pub record Lifecycle : Type 0 where
  pub apply_instance_spec : AdapterInstanceSpec → Bytes → Impl → SpecReturn × Impl
  pub start : ℕ → EnabledCapability → Bytes → Impl → SpecReturn × Impl
  pub ready : ℕ → Impl → Bool × Impl
  pub wait_for_callbacks : Impl → Impl

-- Whether a callback succeeded, with the new `apply_error`.
abbrev pub settle_spec : Bytes → SpecReturn → Bool × Bytes
settle_spec name (SpecReturn.returned ok error) = (ok, error)
settle_spec name (SpecReturn.threw what) = (false, name ++ text " threw: " ++ what)
settle_spec name SpecReturn.threw_unknown = (false, name ++ text " threw an unknown exception")

abbrev pub or_canonical : Bytes → Bytes → Bytes
or_canonical error other = if is_canonical_text error then error else other

module _ ⦃w : Environment⦄ where
  -- A failure of the top-level callback clears the spec.
  unfoldable pub conclude_top_level : Bool × Bytes → Impl → (Bool × Bytes) × Impl
  conclude_top_level (true, error) s = ((true, error), s)
  conclude_top_level (false, error) s = (
    (false, or_canonical error (text "application rejected the instance spec")),
    safe_clear_instance_spec s,
  )

-- The record of a call.
abbrev pub called : Invocation → Impl → Impl
called call s = record s { invocations = call ∷ s.invocations }

module _ ⦃w : Environment⦄ where
  -- The top-level callback, if it is bound.
  unfoldable pub apply_top_level : Lifecycle → AdapterInstanceSpec → Impl → (Bool × Bytes) × Impl
  unfolding conclude_top_level
  apply_top_level app spec s =
      let (outcome, s') =
        app.apply_instance_spec spec []
          (called (Invocation.apply_instance_spec spec.spec_digest) s) in
      if s.callbacks.apply_instance_spec
      then conclude_top_level (settle_spec (text "apply_instance_spec") outcome) s'
      else ((true, []), s)

abbrev pub has_start : Impl → ℕ → Bool
has_start s index = elim (binding_at s index) [ none ↦ false | some b ↦ b.callbacks.start ]

abbrev pub has_ready : Impl → ℕ → Bool
has_ready s index = elim (binding_at s index) [ none ↦ false | some b ↦ b.callbacks.on_ready ]

unfoldable pub start_one : Lifecycle → ℕ → EnabledCapability → Bytes → Impl → (Bool × Bytes) × Impl
start_one app index grant error s =
    let (outcome, s') =
      app.start index grant error (called (Invocation.start_capability index) s) in
    if has_start s index
    then (settle_spec (text "capability start") outcome, s')
    else ((true, error), s)

-- `started` and `failed_contract` of the source, with `apply_error`.
pub record Started : Type 0 where
  pub started : List ℕ
  pub failed_contract : Option Bytes
  pub apply_error : Bytes

-- The grant that failed, or what the later grants give.
unfoldable pub conclude_start :
    ℕ → EnabledCapability → Bool × Bytes → Impl → Started × Impl → Started × Impl
conclude_start index grant (true, error) s (later, s') =
    (record later { started = index ∷ later.started }, s')
conclude_start index grant (false, error) s later = (
  record {
    started = [];
    failed_contract = some (key_of_grant grant);
    apply_error = or_canonical error (text "capability start rejected " ++ grant.capability_id);
  },
  s,
)

-- The loop over the grants with their bindings, up to the first failure.
unfoldable pub start_capabilities :
    Lifecycle → List (ℕ × EnabledCapability) → Bytes → Impl → Started × Impl
unfolding start_one conclude_start
start_capabilities app [] error s =
    (record { started = []; failed_contract = none; apply_error = error }, s)
start_capabilities app ((index, grant) ∷ grants) error s =
    let r = start_one app index grant error s in
    conclude_start index grant r.0 r.1 (start_capabilities app grants r.0.1 r.1)

-- A ready callback that threw ends the loop.
unfoldable pub conclude_ready_call : ℕ → Bool × Impl → Option ℕ × Impl → Option ℕ × Impl
conclude_ready_call index (true, s) later = (some index, s)
conclude_ready_call index (false, s) later = later

-- The ready callbacks in order; `some` is the binding whose callback threw.
unfoldable pub run_ready : Lifecycle → List ℕ → Impl → Option ℕ × Impl
unfolding conclude_ready_call
run_ready app [] s = (none, s)
run_ready app (index ∷ indices) s =
    let skipped = run_ready app indices s in
    let r = app.ready index (called (Invocation.ready_capability index) s) in
    let later = run_ready app indices r.1 in
    if has_ready s index then conclude_ready_call index r later else skipped

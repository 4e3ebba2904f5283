-- ===== src/InstanceSpec/Grants.antt =====
-- src/spec.cpp: what ValidateInstanceSpec promises to those that use the bindings it returns.
use xgc2_adapter_runtime_cli.Base.{
  ℕ, suc, ◌≡◌, sym, ap, ◌∙◌, false, not, ◌||◌, Bytes, same, same_iff, is_empty, List, [], ◌∷◌,
  Option, none, some, get_elem?, if_cases, option_cases, arith, ◌≤◌, ◌-◌, subst, ◌==◌,
}
use xgc2_adapter_runtime_cli.Message.{Environment}
use xgc2_adapter_runtime_cli.Message.Spec.{EnabledCapability, AdapterInstanceSpec}
use xgc2_adapter_runtime_cli.Text.{is_canonical_identifier, is_canonical_sha256}
use xgc2_adapter_runtime_cli.State.{CapabilityBinding, ClientConfig}
use xgc2_adapter_runtime_cli.Contract.{
  key_of_contract, key_of_grant, find_binding_from, find_binding_index,
}
use xgc2_adapter_runtime_cli.InstanceSpec.{
  SpecCheck, is_in, prepend, is_malformed, bad_scope, scope_changed, bad_configuration,
  check_secrets, check_endpoints, check_bound, check_grants, validate_instance_spec,
}

-- Each grant has the index of a binding with its key, of which it grants endpoints that pass their check.
pub data AllBound (config : ClientConfig) : List EnabledCapability → List ℕ → Type 0 where
  no_grants : AllBound config [] []
  bound_grant :
      {grant : EnabledCapability} {grants : List EnabledCapability} {indices : List ℕ} (index : ℕ)
      (binding : CapabilityBinding)
      → get_elem? config.capabilities index ≡ some binding
      → key_of_contract binding.contract ≡ key_of_grant grant
      → is_empty grant.enabled_endpoint_ids ≡ false
      → check_endpoints binding [] grant.enabled_endpoint_ids ≡ none
      → AllBound config grants indices
      → AllBound config (grant ∷ grants) (index ∷ indices)

abbrev Justified : ClientConfig → List EnabledCapability → SpecCheck → Type 0
Justified config grants (SpecCheck.refused message) = Unit
Justified config grants (SpecCheck.bound indices) = AllBound config grants indices

gap : (start index : ℕ) → suc start ≤ index → index - start ≡ suc (index - suc start)
gap start index h = omega (arith, h)

no_gap : (start : ℕ) → start - start ≡ 0
no_gap start = omega arith

from_zero : (index : ℕ) → index - 0 ≡ index
from_zero index = omega arith

-- What a search that began to count at `start` says of its result.
abbrev Found : ℕ → Bytes → List CapabilityBinding → Option (ℕ × CapabilityBinding) → Type 0
Found start key bs none = Unit
Found start key bs (some (index, b)) =
    (start ≤ index) × (get_elem? bs (index - start) ≡ some b) × (key_of_contract b.contract ≡ key)

counted_later :
    (start : ℕ) (key : Bytes) (c : CapabilityBinding) (bs : List CapabilityBinding)
    (result : Option (ℕ × CapabilityBinding))
    → Found (suc start) key bs result
    → Found start key (c ∷ bs) result
counted_later start key c bs none h = tt
counted_later start key c bs (some (index, b)) (above, there, named) =
    let count = ap (get_elem? (c ∷ bs)) (gap start index above) in
    (omega (arith, above), count ∙ there, named)

find_binding_from-Found :
    (start : ℕ) (key : Bytes) (bs : List CapabilityBinding)
    → Found start key bs (find_binding_from start key bs)
unfolding find_binding_from
find_binding_from-Found start key [] = tt
find_binding_from-Found start key (c ∷ bs) =
    if_cases (Found start key (c ∷ bs)) (same (key_of_contract c.contract) key)
      (λ e. (
        omega arith,
        ap (get_elem? (c ∷ bs)) (no_gap start),
        (same_iff (key_of_contract c.contract) key).0 e,
      ))
      (λ _. counted_later start key c bs _ (find_binding_from-Found (suc start) key bs))

prepend-AllBound :
    (config : ClientConfig) (grant : EnabledCapability) (grants : List EnabledCapability)
    (rest : SpecCheck) (index : ℕ) (b : CapabilityBinding)
    → Found 0 (key_of_grant grant) config.capabilities (some (index, b))
    → is_empty grant.enabled_endpoint_ids ≡ false
    → check_endpoints b [] grant.enabled_endpoint_ids ≡ none
    → Justified config grants rest
    → Justified config (grant ∷ grants) (prepend index rest)
prepend-AllBound config grant grants (SpecCheck.refused message) index b found some_ids good later =
    tt
prepend-AllBound config grant grants (SpecCheck.bound indices) index b (above, there, named)
      some_ids good later =
    bound_grant index b (ap (get_elem? config.capabilities) (sym (from_zero index)) ∙ there) named
      some_ids good later

module _ ⦃w : Environment⦄ where
  check_bound-AllBound :
      (config : ClientConfig) (grant : EnabledCapability) (grants : List EnabledCapability)
      (rest : SpecCheck) (result : Option (ℕ × CapabilityBinding))
      → Justified config grants rest
      → Found 0 (key_of_grant grant) config.capabilities result
      → Justified config (grant ∷ grants) (check_bound grant rest result)
  unfolding check_bound
  check_bound-AllBound config grant grants rest none later found = tt
  check_bound-AllBound config grant grants rest (some (index, b)) later found =
      if_cases (Justified config (grant ∷ grants)) (is_malformed grant) (λ _. tt)
        (λ _.
          if_cases (Justified config (grant ∷ grants)) (is_empty grant.enabled_endpoint_ids)
            (λ _. tt)
            (λ some_ids.
              option_cases (Justified config (grant ∷ grants))
                (check_endpoints b [] grant.enabled_endpoint_ids)
                (λ good.
                  prepend-AllBound config grant grants rest index b found some_ids good later)
                (λ failure _. tt)))

  check_grants-AllBound :
      (config : ClientConfig) (seen : List Bytes) (grants : List EnabledCapability)
      → Justified config grants (check_grants config seen grants)
  unfolding check_grants find_binding_index
  check_grants-AllBound config seen [] = no_grants
  check_grants-AllBound config seen (grant ∷ grants) =
      if_cases (Justified config (grant ∷ grants))
        (not (is_canonical_identifier grant.capability_id) || is_in grant.capability_id seen)
        (λ _. tt)
        (λ _.
          check_bound-AllBound config grant grants
            (check_grants config (grant.capability_id ∷ seen) grants)
            (find_binding_index config grant)
            (check_grants-AllBound config (grant.capability_id ∷ seen) grants)
            (find_binding_from-Found 0 (key_of_grant grant) config.capabilities))

  validate_instance_spec-Justified :
      (config : ClientConfig) (spec : AdapterInstanceSpec)
      → Justified config spec.capabilities (validate_instance_spec config spec)
  unfolding validate_instance_spec
  validate_instance_spec-Justified config spec =
      let P = Justified config spec.capabilities in
      if_cases P
        (not (same spec.instance_id config.instance_id)
          || not (spec.process_generation == config.process_generation))
        (λ _. tt)
        (λ _.
          if_cases P ((spec.revision == 0) || not (is_canonical_sha256 spec.spec_digest)) (λ _. tt)
            (λ _.
              if_cases P (bad_scope spec.scope) (λ _. tt)
                (λ _.
                  if_cases P (scope_changed spec.scope config.initial_spec.scope) (λ _. tt)
                    (λ _.
                      if_cases P (bad_configuration spec) (λ _. tt)
                        (λ _.
                          if_cases P (not (check_secrets [] spec.secrets)) (λ _. tt)
                            (λ _. check_grants-AllBound config [] spec.capabilities))))))

  -- If an instance spec is accepted with these bindings, they are one index for each grant, in the order of
  -- the grants: of a binding of the configuration with the key of the grant, which grants at least one
  -- endpoint, and all its endpoints pass their check against the contract and the bound handlers.
  pub validate_instance_spec-AllBound :
      (config : ClientConfig) (spec : AdapterInstanceSpec) (indices : List ℕ)
      → validate_instance_spec config spec ≡ SpecCheck.bound indices
      → AllBound config spec.capabilities indices
  validate_instance_spec-AllBound config spec indices h =
      subst (Justified config spec.capabilities) h (validate_instance_spec-Justified config spec)

-- ===== src/Configuration/Bindings.antt =====
-- src/bootstrap.cpp, src/spec.cpp: in a checked configuration, a grant finds the one binding it names.
use mathlib.Core.Option.{some-injective}
use xgc2_adapter_runtime_cli.Base.{
  ℕ, zero, suc, ◌+◌, ◌≡◌, refl, sym, ap, subst, ◌∙◌, Bool, true, false, ◌||◌, Bytes, same, same_iff,
  same_refl, any, List, [], ◌∷◌, Option, none, some, get_elem?, if_cases, if◌then◌else◌, arith,
}
use xgc2_adapter_runtime_cli.Message.{Environment}
use xgc2_adapter_runtime_cli.Message.Spec.{CapabilityContract, EnabledCapability}
use xgc2_adapter_runtime_cli.State.{CapabilityBinding, ClientConfig}
use xgc2_adapter_runtime_cli.Contract.{key_of_contract, find_binding_from, find_binding_index}
use xgc2_adapter_runtime_cli.InstanceSpec.{is_in}
use xgc2_adapter_runtime_cli.RuntimeTarget.{validate_runtime_target}
use xgc2_adapter_runtime_cli.Configuration.{
  RegisterRequest, StartConfig, first_failure, bad_identity, check_contract_endpoints,
  check_contracts, validate_config, validate_registration,
}

zero_add : (i : ℕ) → 0 + i ≡ i
zero_add i = omega arith

past_if :
    (p : Bool) (x : Bytes) (rest : Option Bytes)
    → (if p then some x else rest) ≡ none
    → (p ≡ false) × (rest ≡ none)
past_if true x rest h = ground arith
past_if false x rest h = (refl, h)

past_failure :
    (failure rest : Option Bytes)
    → first_failure failure rest ≡ none
    → (failure ≡ none) × (rest ≡ none)
past_failure none rest h = (refl, h)
past_failure (some x) rest h = ground arith

past_choice :
    (q : Bool) (x : Bytes) (rest : Option Bytes) → (if q then rest else some x) ≡ none → rest ≡ none
past_choice true x rest h = h
past_choice false x rest h = ground arith

last_false : (a b : Bool) → (a || b) ≡ false → b ≡ false
last_false a b h = ground arith

module _ ⦃w : Environment⦄ where
  check_contracts-next :
      (advertised : List CapabilityContract) (seen : List Bytes) (b : CapabilityBinding)
      (bs : List CapabilityBinding)
      → check_contracts advertised seen (b ∷ bs) ≡ none
      → (is_in (key_of_contract b.contract) seen ≡ false)
        × (check_contracts advertised (key_of_contract b.contract ∷ seen) bs ≡ none)
  unfolding check_contracts
  check_contracts-next advertised seen b bs h =
      let (identity, rest) = past_if (bad_identity seen b.contract) _ _ h in
      let (endpoints, trusted) =
        past_failure (check_contract_endpoints [] b.contract.endpoints) _ rest in
      (last_false _ (is_in (key_of_contract b.contract) seen) identity, past_choice _ _ _ trusted)

  find_binding_from-absent :
      (advertised : List CapabilityContract) (seen : List Bytes) (bs : List CapabilityBinding)
      (index : ℕ) (key : Bytes)
      → check_contracts advertised seen bs ≡ none
      → is_in key seen ≡ true
      → find_binding_from index key bs ≡ none
  unfolding find_binding_from any
  find_binding_from-absent advertised seen [] index key h held = refl
  find_binding_from-absent advertised seen (b ∷ bs) index key h held =
      let (new, rest) = check_contracts-next advertised seen b bs h in
      if_cases (λ r. r ≡ none) (same (key_of_contract b.contract) key)
        (λ e.
          let keys = (same_iff (key_of_contract b.contract) key).0 e in
          absurd (ground (arith, sym new ∙ ap (λ k. is_in k seen) keys ∙ held)))
        (λ e.
          find_binding_from-absent advertised (key_of_contract b.contract ∷ seen) bs (suc index) key
            rest (ground (arith, held)))

  find_binding_from_lem :
      (advertised : List CapabilityContract) (seen : List Bytes) (bs : List CapabilityBinding)
      (index i : ℕ) (b : CapabilityBinding)
      → check_contracts advertised seen bs ≡ none
      → get_elem? bs i ≡ some b
      → find_binding_from index (key_of_contract b.contract) bs ≡ some (index + i, b)
  unfolding find_binding_from any
  find_binding_from_lem advertised seen [] index i b h e = absurd (ground (arith, e))
  find_binding_from_lem advertised seen (c ∷ bs) index zero b h e =
      subst
        (λ d. find_binding_from index (key_of_contract d.contract) (c ∷ bs) ≡ some (index + 0, d))
        (some-injective _ _ e)
        (rw (same_refl (key_of_contract c.contract)) (ap (λ k. some (k, c)) (omega arith)))
  find_binding_from_lem advertised seen (c ∷ bs) index (suc i) b h e =
      let (new, rest) = check_contracts-next advertised seen c bs h in
      let later =
        find_binding_from_lem advertised (key_of_contract c.contract ∷ seen) bs (suc index) i b rest
          e in
      if_cases (λ r. r ≡ some (index + suc i, b))
        (same (key_of_contract c.contract) (key_of_contract b.contract))
        (λ found. absurd (
          ground (
            arith,
            sym later
                ∙ find_binding_from-absent advertised (key_of_contract c.contract ∷ seen) bs
                    (suc index) (key_of_contract b.contract) rest (rw (found) refl),
          )))
        (λ other. later ∙ ap (λ k. some (k, b)) (omega arith))

  -- In a checked configuration, a grant with the id, the version and the digest of the contract of a binding
  -- finds that binding, at its own index.
  pub find_binding_index_lem :
      (registration : RegisterRequest) (start : StartConfig) (config : ClientConfig)
      (grant : EnabledCapability) (i : ℕ) (b : CapabilityBinding)
      → validate_config registration start config ≡ none
      → get_elem? config.capabilities i ≡ some b
      → grant.capability_id ≡ b.contract.capability_id
      → grant.contract_version ≡ b.contract.contract_version
      → grant.contract_digest ≡ b.contract.contract_digest
      → find_binding_index config grant ≡ some (i, b)
  unfolding find_binding_index validate_config
  find_binding_index_lem registration start config grant i b h e id version digest =
      let (target, after_target) =
        past_failure (validate_runtime_target start.runtime_target) _ h in
      let (identity, after_identity) =
        past_failure (validate_registration registration start config) _ after_target in
      let (contracts, after_contracts) =
        past_failure (check_contracts registration.supported_capabilities [] config.capabilities) _
          after_identity in
      rw (id, version, digest)
        (find_binding_from_lem registration.supported_capabilities [] config.capabilities 0 i b
            contracts e
          ∙ ap (λ k. some (k, b)) (zero_add i))

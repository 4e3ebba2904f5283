-- ===== src/Contract.antt =====
-- src/internal.hpp: the key of a contract; src/spec.cpp: the binding of a grant.
pub mod Key
use xgc2_adapter_runtime_cli.Base.{
  ℕ, zero, suc, ◌+◌, ◌/◌, ◌%◌, Bytes, text, same, List, [], ◌∷◌, ◌++◌, Option, none, some, ltb,
  if◌then◌else◌,
}
use xgc2_adapter_runtime_cli.Message.Spec.{CapabilityContract, EnabledCapability, CapabilityStatus}
use xgc2_adapter_runtime_cli.State.{CapabilityBinding, ClientConfig}

-- The decimal digits of a number, on fuel.
unfoldable pub digits : ℕ → ℕ → Bytes
digits zero n = (48 + n % 10) ∷ []
digits (suc fuel) n =
    let rest = digits fuel (n / 10) in
    if ltb n 10 then (48 + n) ∷ [] else rest ++ (48 + n % 10) ∷ []

-- std::to_string of an unsigned number: no number has more digits than its own value, and one.
unfoldable pub to_string : ℕ → Bytes
to_string n = digits n n

unfoldable pub contract_key : Bytes → ℕ → Bytes → Bytes
contract_key capability_id contract_version contract_digest =
    capability_id ++ text "\n" ++ to_string contract_version ++ text "\n" ++ contract_digest

abbrev pub key_of_contract : CapabilityContract → Bytes
key_of_contract c = contract_key c.capability_id c.contract_version c.contract_digest

abbrev pub key_of_grant : EnabledCapability → Bytes
key_of_grant g = contract_key g.capability_id g.contract_version g.contract_digest

abbrev pub key_of_status : CapabilityStatus → Bytes
key_of_status s = contract_key s.capability_id s.contract_version s.contract_digest

-- The first binding with this key, counted from `index`.
unfoldable pub find_binding_from :
    ℕ → Bytes → List CapabilityBinding → Option (ℕ × CapabilityBinding)
find_binding_from index key [] = none
find_binding_from index key (binding ∷ bindings) =
    let rest = find_binding_from (suc index) key bindings in
    if same (key_of_contract binding.contract) key then some (index, binding) else rest

-- FindBindingIndex, with the binding at the index; `none` is `kNoBinding`.
unfoldable pub find_binding_index :
    ClientConfig → EnabledCapability → Option (ℕ × CapabilityBinding)
unfolding find_binding_from
find_binding_index config grant = find_binding_from 0 (key_of_grant grant) config.capabilities

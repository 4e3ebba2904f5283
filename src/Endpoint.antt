-- ===== src/Endpoint.antt =====
-- src/queue.cpp and src/spec.cpp: the look-up of contracts, endpoints and active grants.
use xgc2_adapter_runtime_cli.Base.{
  ℕ, suc, ◌&&◌, Bytes, same, any, get_elem?, Option, none, some, List, [], ◌∷◌, Map, find,
  if◌then◌else◌,
}
use xgc2_adapter_runtime_cli.Message.Spec.{
  CapabilityEndpointContract, CapabilityContract, EnabledCapability,
}
use xgc2_adapter_runtime_cli.State.{CapabilityBinding, ActiveCapability, SourceState, Impl}

unfoldable pub find_endpoint_in :
    List CapabilityEndpointContract → Bytes → Option CapabilityEndpointContract
find_endpoint_in [] endpoint_id = none
find_endpoint_in (e ∷ es) endpoint_id =
    if same e.endpoint_id endpoint_id then some e else find_endpoint_in es endpoint_id

unfoldable pub find_endpoint : CapabilityContract → Bytes → Option CapabilityEndpointContract
unfolding find_endpoint_in
find_endpoint contract = find_endpoint_in contract.endpoints

-- `ActiveEndpoint` with `valid`.
pub record ActiveEndpoint : Type 0 where
  pub binding_index : ℕ
  pub grant : EnabledCapability
  pub endpoint : CapabilityEndpointContract

-- config_.capabilities()[index]; `none` is past the end.
abbrev pub binding_at : Impl → ℕ → Option CapabilityBinding
binding_at s index = get_elem? s.config.capabilities index

endpoint_of : ActiveCapability → Bytes → Option CapabilityBinding → Option ActiveEndpoint
unfolding find_endpoint
endpoint_of active endpoint_id none = none
endpoint_of active endpoint_id (some binding) = elim (find_endpoint binding.contract endpoint_id) [
  | none ↦ none
  | some endpoint ↦
      some
        (record { binding_index = active.binding_index; grant = active.grant; endpoint = endpoint })
]

unfoldable pub find_active_endpoint_locked : Impl → Bytes → Bytes → Option ActiveEndpoint
unfolding endpoint_of
find_active_endpoint_locked s capability_id endpoint_id =
    elim (find capability_id s.active_capabilities) [
      | none ↦ none
      | some active ↦
          if any (λ id. same id endpoint_id) active.grant.enabled_endpoint_ids
          then endpoint_of active endpoint_id (binding_at s active.binding_index)
          else none
    ]

unfoldable pub count_streams : Bytes → Bytes → Map SourceState → ℕ
count_streams capability_id endpoint_id [] = 0
count_streams capability_id endpoint_id ((k, source) ∷ m) =
    let rest = count_streams capability_id endpoint_id m in
    if same source.request.context.capability_id capability_id
      && same source.request.context.endpoint_id endpoint_id
    then suc rest
    else rest

-- ===== src/Inventory/Groups.antt =====
-- packages/k8s-client/src/inventory-resolve.ts, `resolveInventoryGroups`: the hosts of the groups of
-- an inventory. The client's `get` and `list` are parameters. The variables of groups are left out.
pub mod Membership
use a5e.Base.{
  String, ◌<>◌, ℕ, Bool, true, false, ◌&&◌, Option, none, some, List, [], ◌∷◌, ◌++◌, ◌==◌,
  string_eq, if◌then◌else◌,
}
use a5e.Base.Result.{Result, ok, err, thrown, ◌>>=◌}
use a5e.Descriptors.{Scope, namespaced, cluster, Descriptor, descriptor_by_kind}
use a5e.Labels.{LabelSelector, includes, label_selector_to_string}
use a5e.Refs.{or_else}
use a5e.Inventory.{JumpHost, JumpChainHop, ResolvedHost, ResolvedGroup, host_key}
use a5e.Inventory.Jumps.{HostObject, ChainHost, Resolution, resolve_jump_chain}

pub record HostSource : Type 0 where
  pub kind : String
  pub namespace : Option String
  pub label_selector : LabelSelector

pub record InventoryGroup : Type 0 where
  pub name : String
  pub host_sources : List HostSource
  pub children : Option (List String)

-- The local `seen` and `hosts` of a group.
pub record Members : Type 0 where
  pub seen : List String
  pub hosts : List ResolvedHost

abbrev pub no_members : Members
no_members = record { seen = []; hosts = [] }

-- `hostObj.spec.enabled === false`
abbrev pub is_disabled : Option Bool → Bool
is_disabled (some false) = true
is_disabled _ = false

abbrev has_jump_host : Option JumpHost → Bool
has_jump_host none = false
has_jump_host (some jump) = true

abbrev pub resolved_host : String → HostObject → Option (List JumpChainHop) → ResolvedHost
resolved_host kind obj chain = record {
  kind = kind;
  name = obj.name;
  namespace = obj.namespace;
  spec = obj.spec;
  jump_chain = chain;
  ssh_key_mount_name = none;
}

-- A recursion that did not end in the fuel given stands as an error.
chain_result : Resolution → Result (Option (List JumpChainHop))
chain_result none = err (thrown "Maximum call stack size exceeded")
chain_result (some (err e)) = err e
chain_result (some (ok hops)) = ok (some hops)

add_member : Members → ResolvedHost → Members
unfolding host_key
add_member m h = record { seen = m.seen ++ (host_key h ∷ []); hosts = m.hosts ++ (h ∷ []) }

module _ (get : Descriptor → String → Option String → Result HostObject)
    (list : Descriptor → Option String → Option String → Result (List HostObject)) (fuel : ℕ)
    (inventory_namespace : Option String) (resolve_jump_chains : Bool) where
  list_in : HostSource → Option Descriptor → Result (List HostObject)
  unfolding label_selector_to_string
  list_in source none = err (thrown "undefined is not an object (evaluating 'descriptor.scope')")
  list_in source (some d) =
      let namespace =
        if source.kind == "AnsibleHost"
        then or_else source.namespace inventory_namespace
        else none in
      list d (elim d.scope [ namespaced ↦ namespace | cluster ↦ none ])
        (label_selector_to_string (some source.label_selector))

  -- The `client.list` of a source.
  unfoldable pub listing : HostSource → Result (List HostObject)
  unfolding list_in descriptor_by_kind
  listing source = list_in source (descriptor_by_kind source.kind)

  chain_for : String → HostObject → Result (Option (List JumpChainHop))
  unfolding chain_result resolve_jump_chain
  chain_for kind obj =
      if resolve_jump_chains && has_jump_host obj.spec.jump_host
      then chain_result (
          resolve_jump_chain get fuel
            (record { kind = kind; name = obj.name; namespace = obj.namespace; spec = obj.spec })
            [])
      else ok none

  -- One round of the loop over `result.items`.
  add_object : String → Members → HostObject → Result Members
  unfolding includes host_key chain_for add_member
  add_object kind m obj =
      if is_disabled obj.spec.enabled
      then ok m
      else if includes m.seen (host_key (resolved_host kind obj none))
      then ok m
      else (do chain ← chain_for kind obj; ok (add_member m (resolved_host kind obj chain)))

  add_objects : String → Members → List HostObject → Result Members
  unfolding add_object
  add_objects kind m [] = ok m
  add_objects kind m (obj ∷ objs) = do added ← add_object kind m obj; add_objects kind added objs

  add_sources : Members → List HostSource → Result Members
  unfolding listing add_objects
  add_sources m [] = ok m
  add_sources m (source ∷ sources) = do
    objs ← listing source
    added ← add_objects source.kind m objs
    add_sources added sources

  -- `resolveInventoryGroups`
  unfoldable pub resolve_inventory_groups : List InventoryGroup → Result (List ResolvedGroup)
  unfolding add_sources
  resolve_inventory_groups [] = ok []
  resolve_inventory_groups (group ∷ groups) = do
    members ← add_sources no_members group.host_sources
    rest ← resolve_inventory_groups groups
    ok (record { name = group.name; hosts = members.hosts; children = group.children } ∷ rest)

-- ===== src/Inventory/Jumps.antt =====
-- packages/k8s-client/src/inventory-resolve.ts, `resolveJumpChain`: the hops to a host. The client's
-- `get` is a parameter. The set `visited`, which the calls share, is a list that each call passes on.
pub mod Routes
pub mod Totality
use a5e.Base.{
  String, ◌<>◌, ℕ, zero, suc, Option, none, some, List, [], ◌∷◌, ◌++◌, ◌==◌, string_eq,
  if◌then◌else◌,
}
use a5e.Base.Result.{Result, ok, err, thrown, ◌>>=◌}
use a5e.Descriptors.{Descriptor, descriptor_by_kind}
use a5e.Labels.{or_default, includes}
use a5e.Refs.{Ref, or_else, resolve_ref_namespace}
use a5e.Inventory.{JumpHost, HostSpec, JumpChainHop, ref_key}

-- An `AnsibleHost` or `ClusterAnsibleHost` as the client returns it.
pub record HostObject : Type 0 where
  pub name : String
  pub namespace : Option String
  pub spec : HostSpec

-- The fields of a host that the chain needs.
pub record ChainHost : Type 0 where
  pub kind : String
  pub name : String
  pub namespace : Option String
  pub spec : HostSpec

unfoldable pub chain_key : ChainHost → String
unfolding ref_key
chain_key host = ref_key host.kind host.namespace host.name

-- `jumpHostAsResolved`
abbrev pub as_resolved : Ref → HostObject → ChainHost
as_resolved ref obj = record {
  kind = ref.kind;
  name = obj.name;
  namespace = obj.namespace;
  spec = obj.spec;
}

-- `hopToReachJumpHost`
abbrev pub hop_to : HostObject → JumpChainHop
hop_to obj = record {
  address = or_default obj.name (or_else obj.spec.ansible_address obj.spec.ansible_host);
  user = obj.spec.ansible_user;
  port = obj.spec.ansible_port;
}

-- `none` is a recursion that did not end.
abbrev pub Resolution : Type 0
Resolution = Option (Result (List JumpChainHop))

-- `[...upstream, hopToReachJumpHost]`
unfoldable pub add_hop : JumpChainHop → Resolution → Resolution
add_hop hop none = none
add_hop hop (some (err e)) = some (err e)
add_hop hop (some (ok upstream)) = some (ok (upstream ++ (hop ∷ [])))

module _ (get : Descriptor → String → Option String → Result HostObject) where
  find_host : ChainHost → Ref → Option Descriptor → Result HostObject
  unfolding resolve_ref_namespace
  find_host host ref none =
      err (thrown "undefined is not an object (evaluating 'descriptor.scope')")
  find_host host ref (some descriptor) =
      resolve_ref_namespace descriptor.scope ref.namespace host.namespace >>= λ namespace.
      get descriptor ref.name namespace

  -- The host that a host's `jumpHost.hostRef` names.
  unfoldable pub jump_object : ChainHost → Ref → Result HostObject
  unfolding find_host descriptor_by_kind
  jump_object host ref = find_host host ref (descriptor_by_kind ref.kind)

  -- The recursive call, on what was found.
  unfoldable pub chain_found :
      (ChainHost → List String → Resolution) → List String → Ref → Result HostObject → Resolution
  unfolding add_hop
  chain_found next visited ref (err e) = some (err e)
  chain_found next visited ref (ok obj) = add_hop (hop_to obj) (next (as_resolved ref obj) visited)

  unfoldable pub chain_ref :
      (ChainHost → List String → Resolution) → ChainHost → List String → Option Ref → Resolution
  unfolding chain_found jump_object
  chain_ref next host visited none = some (ok [])
  chain_ref next host visited (some ref) = chain_found next visited ref (jump_object host ref)

  -- An empty address counts as none.
  unfoldable pub chain_address :
      (ChainHost → List String → Resolution)
      → ChainHost
      → List String
      → JumpHost
      → Option String
      → Resolution
  unfolding chain_ref
  chain_address next host visited jump none = chain_ref next host visited jump.host_ref
  chain_address next host visited jump (some address) =
      if address == ""
      then chain_ref next host visited jump.host_ref
      else some (ok (record { address = address; user = jump.user; port = jump.port } ∷ []))

  unfoldable pub chain_jump :
      (ChainHost → List String → Resolution)
      → ChainHost
      → List String
      → Option JumpHost
      → Resolution
  unfolding chain_address chain_key includes
  chain_jump next host visited none = some (ok [])
  chain_jump next host visited (some jump) =
      if includes visited (chain_key host)
      then some (err (thrown ("JumpHostCycleDetected: cycle involving " <> chain_key host)))
      else chain_address next host (visited ++ (chain_key host ∷ [])) jump jump.address

  -- `resolveJumpChain`, on fuel.
  unfoldable pub resolve_jump_chain : ℕ → ChainHost → List String → Resolution
  unfolding chain_jump
  resolve_jump_chain zero host visited = none
  resolve_jump_chain (suc fuel) host visited =
      chain_jump (λ h v. resolve_jump_chain fuel h v) host visited host.spec.jump_host

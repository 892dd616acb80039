-- ===== src/Inventory.antt =====
-- packages/k8s-client/src/inventory-resolve.ts and the host types of packages/schemas/src/hosts.ts
-- and inventories.ts: resolved hosts and groups. The variables of hosts and groups, which the
-- resolution only passes on, are left out.
pub mod Jumps
pub mod Groups
use a5e.Base.{String, ◌<>◌, ℕ, Bool, Option, List}
use a5e.Labels.{or_default}
use a5e.Refs.{Ref}

pub record JumpHost : Type 0 where
  pub address : Option String
  pub user : Option String
  pub port : Option ℕ
  pub host_ref : Option Ref

pub record HostSpec : Type 0 where
  pub ansible_host : Option String
  pub ansible_address : Option String
  pub ansible_port : Option ℕ
  pub ansible_user : Option String
  pub ssh_key_ref : Option Ref
  pub jump_host : Option JumpHost
  pub enabled : Option Bool

pub record JumpChainHop : Type 0 where
  pub address : String
  pub user : Option String
  pub port : Option ℕ

pub record ResolvedHost : Type 0 where
  pub kind : String
  pub name : String
  pub namespace : Option String
  pub spec : HostSpec
  pub jump_chain : Option (List JumpChainHop)
  pub ssh_key_mount_name : Option String

pub record ResolvedGroup : Type 0 where
  pub name : String
  pub hosts : List ResolvedHost
  pub children : Option (List String)

-- `refKey`, and the same template in `resolveInventoryGroups`, `shardHosts` and
-- `resolveHostSshKeys`.
unfoldable pub ref_key : String → Option String → String → String
ref_key kind namespace name = kind <> ("/" <> (or_default "" namespace <> ("/" <> name)))

unfoldable pub host_key : ResolvedHost → String
unfolding ref_key
host_key h = ref_key h.kind h.namespace h.name

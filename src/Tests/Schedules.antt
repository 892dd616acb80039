-- ===== src/Tests/Schedules.antt =====
-- A schedule, its history, and a chain of jump hosts.
use a5e.Base.{
  ℕ, ◌≡◌, refl, sym, ◌∙◌, ap, String, true, false, Option, none, some, List, [], ◌∷◌, ◌++◌, keep,
  In, Memᴰ, All, ◌==◌, string_eq, ==_iff, if◌then◌else◌, Bool-cases, inl, inr,
}
use a5e.Base.Result.{Result, ok, err, Failure, thrown, ok-injective}
use a5e.Descriptors.{Descriptor}
use a5e.Labels.{LabelSelector}
use a5e.Refs.{Ref}
use a5e.Inventory.{JumpHost, HostSpec, JumpChainHop, ResolvedHost, ResolvedGroup, ref_key}
use a5e.Inventory.Jumps.{HostObject, ChainHost, chain_key, resolve_jump_chain}
use a5e.Inventory.Jumps.Totality.{Lists, Returns, resolve_jump_chain-Returns}
use a5e.Inventory.Jumps.Routes.{Route, resolve_jump_chain-Route}
use a5e.Inventory.Groups.{HostSource, InventoryGroup, resolve_inventory_groups}
use a5e.Inventory.Groups.Membership.{IsProper, resolve_inventory_groups-IsProper}
use a5e.Runs.{RunPhase, running, succeeded, failed}
use a5e.Schedules.{forbid, AnsibleJob, OwnedRun}
use a5e.Schedules.History.{has_succeeded, has_failed, is_active, runs_to_delete}
use a5e.Schedules.History.Age.{Trims, runs_to_delete-Trims, runs_to_delete-inactive}
use a5e.Schedules.Control.{reconcile_ansible_jobs}
use a5e.Schedules.Spawning.{creates_run, quota, reconcile_ansible_jobs-Makes}
use a5e.Effects.Makes.{Makes}
use a5e.Tests.Runs.{server}

abbrev run : String → RunPhase → ℕ → OwnedRun
run name phase created = record { name = name; phase = some phase; created = created }

abbrev history : List OwnedRun
history = run "c" succeeded 30 ∷ run "a" succeeded 10 ∷ run "b" failed 20 ∷ run "d" running 40 ∷ []

runs_to_delete-Trims_example :
    (old_successful : List OwnedRun) × (old_failed : List OwnedRun) × (runs_to_delete history 1 1
      ≡ old_successful ++ old_failed)
    × Trims 1 (keep has_succeeded history) old_successful
    × Trims 1 (keep has_failed history) old_failed
runs_to_delete-Trims_example = runs_to_delete-Trims history 1 1

oldest_deleted : In (run "a" succeeded 10) (runs_to_delete history 1 1)
unfolding runs_to_delete
oldest_deleted = Memᴰ.head refl

runs_to_delete-inactive_example :
    In (run "a" succeeded 10) history × (is_active (run "a" succeeded 10) ≡ false)
runs_to_delete-inactive_example =
    runs_to_delete-inactive history 1 1 (run "a" succeeded 10) oldest_deleted

abbrev ref : String → String → Ref
ref kind name = record { kind = kind; name = name; namespace = none }

abbrev nightly : AnsibleJob
nightly = record {
  name = "nightly";
  namespace = "dev";
  uid = "u2";
  generation = some 1;
  creation_timestamp = "2026-01-01T00:00:00Z";
  spec = record {
    template = record {
      playbook_ref = ref "AnsiblePlaybook" "site";
      inventory_ref = ref "AnsibleInventory" "all";
      ansible_options = none;
      timeout_seconds = none;
      ttl_seconds_after_finished = none;
      service_account_name = none;
      resources = none;
      parallel = none;
    };
    schedule = some "0 3 * * *";
    suspend = false;
    concurrency_policy = forbid;
    successful_runs_history_limit = 3;
    failed_runs_history_limit = 1;
  };
  status = none;
}

abbrev fire_time : String → String → Result ℕ
fire_time schedule time = ok 5

abbrev time_of : String → ℕ
time_of time = 3

reconcile_ansible_jobs-Makes_example :
    Makes creates_run
      (quota server fire_time time_of (some "0 3 * * *") false)
      (reconcile_ansible_jobs server fire_time time_of nightly)
reconcile_ansible_jobs-Makes_example = reconcile_ansible_jobs-Makes server fire_time time_of nightly

-- Two hosts, each the other's jump host.
abbrev jumping : String → HostSpec
jumping name = record {
  ansible_host = none;
  ansible_address = none;
  ansible_port = none;
  ansible_user = none;
  ssh_key_ref = none;
  jump_host = some (record {
    address = none;
    user = none;
    port = none;
    host_ref = some (ref "AnsibleHost" name);
  });
  enabled = none;
}

abbrev bastion : HostObject
bastion = record { name = "bastion"; namespace = some "dev"; spec = jumping "gate" }

abbrev gate : HostObject
gate = record { name = "gate"; namespace = some "dev"; spec = jumping "bastion" }

abbrev get : Descriptor → String → Option String → Result HostObject
get d name namespace =
    if d.kind == "AnsibleHost"
    then (if name == "bastion" then ok bastion else ok gate)
    else err (thrown "not found")

abbrev bastion_host : ChainHost
bastion_host = record {
  kind = "AnsibleHost";
  name = "bastion";
  namespace = some "dev";
  spec = jumping "gate";
}

abbrev keys : List String
keys = ref_key "AnsibleHost" (some "dev") "bastion" ∷ ref_key "AnsibleHost" (some "dev") "gate" ∷ []

key_found :
    (d : Descriptor) (obj found : HostObject)
    → (d.kind == "AnsibleHost") ≡ true
    → found ≡ obj
    → ref_key d.kind obj.namespace obj.name ≡ ref_key "AnsibleHost" found.namespace found.name
key_found d obj found t e =
    ap (λ k. ref_key k obj.namespace obj.name) ((==_iff d.kind "AnsibleHost").0 t)
    ∙ ap (λ o. ref_key "AnsibleHost" o.namespace o.name) (sym e)

two_hosts : Lists get keys
two_hosts d name namespace obj e = elim (Bool-cases (d.kind == "AnsibleHost")) [
  | inl t ↦ elim (Bool-cases (name == "bastion")) [
    | inl u ↦ Memᴰ.head (key_found d obj bastion t (ok-injective bastion obj (rw (t, u) at e)))
    | inr u ↦
        Memᴰ.tail (Memᴰ.head (key_found d obj gate t (ok-injective gate obj (rw (t, u) at e))))
  ]
  | inr f ↦ absurd (failure_ok (thrown "not found") obj (rw f at e))
]
  where
    failure_ok : (failure : Failure) (obj : HostObject) → err failure ≡ ok obj → ⊥
    failure_ok failure obj e = cc

resolve_jump_chain-Returns_example : Returns (resolve_jump_chain get 3 bastion_host [])
unfolding chain_key
resolve_jump_chain-Returns_example =
    resolve_jump_chain-Returns get keys bastion_host two_hosts (Memᴰ.head refl)

abbrev addressed : JumpHost
addressed = record { address = some "10.0.0.1"; user = some "ops"; port = none; host_ref = none }

abbrev inner_host : ChainHost
inner_host = record {
  kind = "AnsibleHost";
  name = "inner";
  namespace = some "dev";
  spec = record (jumping "gate") { jump_host = some addressed };
}

abbrev hops : List JumpChainHop
hops = record { address = "10.0.0.1"; user = some "ops"; port = none } ∷ []

hops_found : resolve_jump_chain get 2 inner_host [] ≡ some (ok hops)
unfolding resolve_jump_chain
hops_found = refl

resolve_jump_chain-Route_example : Route get inner_host hops
resolve_jump_chain-Route_example = resolve_jump_chain-Route get 2 inner_host [] hops hops_found

abbrev list_hosts : Descriptor → Option String → Option String → Result (List HostObject)
list_hosts d namespace selector = ok (
    bastion
    ∷ gate
    ∷ record bastion { spec = record (jumping "gate") { enabled = some false } }
    ∷ [])

abbrev everything : LabelSelector
everything = record { match_labels = none; match_expressions = none }

abbrev source : HostSource
source = record { kind = "AnsibleHost"; namespace = none; label_selector = everything }

abbrev all_group : InventoryGroup
all_group = record { name = "all"; host_sources = source ∷ source ∷ []; children = none }

abbrev resolved_of : HostObject → ResolvedHost
resolved_of obj = record {
  kind = "AnsibleHost";
  name = obj.name;
  namespace = obj.namespace;
  spec = obj.spec;
  jump_chain = none;
  ssh_key_mount_name = none;
}

abbrev resolved_groups : List ResolvedGroup
resolved_groups =
    record { name = "all"; hosts = resolved_of bastion ∷ resolved_of gate ∷ []; children = none }
    ∷ []

groups_found :
    resolve_inventory_groups get list_hosts 3 (some "dev") false (all_group ∷ [])
    ≡ ok resolved_groups
unfolding resolve_inventory_groups
groups_found = refl

resolve_inventory_groups-IsProper_example : All (λ g. IsProper g.hosts) resolved_groups
resolve_inventory_groups-IsProper_example =
    resolve_inventory_groups-IsProper get list_hosts 3 (some "dev") false (all_group ∷ [])
      resolved_groups groups_found

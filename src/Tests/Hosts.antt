-- ===== src/Tests/Hosts.antt =====
-- The hosts of a small inventory, their shards, and a Job.
use a5e.Base.{
  String, ◌≡◌, ◌≢◌, refl, sym, true, false, Option, none, some, List, [], ◌∷◌, ◌++◌, map, arith,
  All, In, Memᴰ, ◌↔◌, ◌⊎◌, inl, inr, subst, ==_iff, string_eq, ◌==◌,
}
use a5e.Inventory.{HostSpec, ResolvedHost, ResolvedGroup, host_key}
use a5e.Sharding.{HostShard, shard_hosts, collected_hosts, limit_for_host_names, inventory_hostname}
use a5e.Sharding.Chunks.{Cut, shard_hosts-Cut}
use a5e.Sharding.Distinct.{DistinctOn, all_hosts, shard_host, collected_hosts-DistinctOn}
use a5e.Sharding.Restart.{limit_for_host_names-shard_hosts}
use a5e.Sharding.Homonyms.{one_group, limit_for_host_names-homonyms}
use a5e.Jobs.{JobBuildInput, GitSource, build_job_spec}
use a5e.Jobs.Mounts.{MountsDeclared, build_job_spec-MountsDeclared}

abbrev host_spec : Option String → HostSpec
host_spec ansible_host = record {
  ansible_host = ansible_host;
  ansible_address = none;
  ansible_port = none;
  ansible_user = none;
  ssh_key_ref = none;
  jump_host = none;
  enabled = none;
}

abbrev host : String → Option String → String → Option String → ResolvedHost
host kind namespace name ansible_host = record {
  kind = kind;
  name = name;
  namespace = namespace;
  spec = host_spec ansible_host;
  jump_chain = none;
  ssh_key_mount_name = none;
}

abbrev web : ResolvedHost
web = host "AnsibleHost" (some "dev") "web" (some "web.example")

abbrev db : ResolvedHost
db = host "AnsibleHost" (some "dev") "db" none

abbrev cluster_web : ResolvedHost
cluster_web = host "ClusterAnsibleHost" none "web" (some "shared.example")

abbrev pub groups : List ResolvedGroup
groups =
    record { name = "all"; hosts = web ∷ db ∷ []; children = none }
    ∷ record { name = "web"; hosts = web ∷ []; children = none }
    ∷ []

shard_hosts-Cut_example :
    (shards : List HostShard) × (shard_hosts groups 1 ≡ some shards)
    × Cut 1 0 (collected_hosts groups) shards
shard_hosts-Cut_example = shard_hosts-Cut groups 1 (omega arith)

collected_hosts-DistinctOn_example :
    (out : List ResolvedHost) × (collected_hosts groups ≡ map shard_host out)
    × DistinctOn host_key out
    × ((x : ResolvedHost) → In x out → In x (all_hosts groups))
    × ((x : ResolvedHost)
        → In x (all_hosts groups)
        → (y : ResolvedHost) × In y out × (host_key y ≡ host_key x))
collected_hosts-DistinctOn_example = collected_hosts-DistinctOn groups

-- Decided by evaluation.
differ : (a b : String) → (a == b) ≡ false → a ≢ b
differ a b h e = ground (arith, (==_iff a b).1 e)

web-db : (host_key web ≡ host_key db) ↔ (web.name ≡ db.name)
unfolding host_key
web-db = (
  λ e. absurd (differ (host_key web) (host_key db) refl e),
  λ e. absurd (differ "web" "db" refl e),
)

same_host : (a : ResolvedHost) → (host_key a ≡ host_key a) ↔ (a.name ≡ a.name)
same_host a = (λ e. refl, λ e. refl)

web_or_db : (a : ResolvedHost) → In a (all_hosts groups) → (a ≡ web) ⊎ (a ≡ db)
web_or_db a (Memᴰ.head e) = inl e
web_or_db a (Memᴰ.tail (Memᴰ.head e)) = inr e
web_or_db a (Memᴰ.tail (Memᴰ.tail (Memᴰ.head e))) = inl e
web_or_db a (Memᴰ.tail (Memᴰ.tail (Memᴰ.tail m))) = elim m [ ]

abbrev Alike : ResolvedHost → ResolvedHost → Type 0
Alike a b = (host_key a ≡ host_key b) ↔ (a.name ≡ b.name)

Alike-both : (a b x y : ResolvedHost) → a ≡ x → b ≡ y → Alike x y → Alike a b
Alike-both a b x y e f h = subst (λ z. Alike z b) (sym e) (subst (Alike x) (sym f) h)

identified : (a b : ResolvedHost) → In a (all_hosts groups) → In b (all_hosts groups) → Alike a b
identified a b m n = elim (web_or_db a m) [
  | inl e ↦ elim (web_or_db b n) [
    | inl f ↦ Alike-both a b web web e f (same_host web)
    | inr f ↦ Alike-both a b web db e f web-db
  ]
  | inr e ↦ elim (web_or_db b n) [
    | inl f ↦ Alike-both a b db web e f (λ k. sym (web-db.0 (sym k)), λ k. sym (web-db.1 (sym k)))
    | inr f ↦ Alike-both a b db db e f (same_host db)
  ]
]

abbrev web_shard : HostShard
web_shard = record { index = 0; host_names = "web" ∷ []; limit = "web.example" }

abbrev db_shard : HostShard
db_shard = record { index = 1; host_names = "db" ∷ []; limit = "db" }

cut_groups : shard_hosts groups 1 ≡ some (web_shard ∷ db_shard ∷ [])
unfolding shard_hosts
cut_groups = refl

limit_for_host_names-shard_hosts_example : limit_for_host_names groups ("db" ∷ []) ≡ "db"
limit_for_host_names-shard_hosts_example =
    limit_for_host_names-shard_hosts groups 1 (web_shard ∷ db_shard ∷ []) db_shard (omega arith)
      identified cut_groups (Memᴰ.tail (Memᴰ.head refl))

webs_differ : host_key web ≢ host_key cluster_web
unfolding host_key
webs_differ = differ (host_key web) (host_key cluster_web) refl

limit_for_host_names-homonyms_example :
    (shard_hosts (one_group "all" web cluster_web ∷ []) 1
      ≡ some (
          record { index = 0; host_names = "web" ∷ []; limit = inventory_hostname web }
          ∷ record { index = 1; host_names = "web" ∷ []; limit = inventory_hostname cluster_web }
          ∷ []))
    × (limit_for_host_names (one_group "all" web cluster_web ∷ []) ("web" ∷ [])
        ≡ inventory_hostname web)
limit_for_host_names-homonyms_example =
    limit_for_host_names-homonyms "all" web cluster_web refl webs_differ

abbrev git : GitSource
git = record {
  url = "git@example.org:site.git";
  revision = some "main";
  ssh_key_secret_name = some "deploy-key";
  basic_auth_secret_name = none;
}

abbrev pub job_input : JobBuildInput
job_input = record {
  run_name = "nightly";
  run_uid = "u1";
  namespace = "dev";
  runner_image = "runner:1";
  name_suffix = some "0";
  inventory_config_map_name = "nightly-inventory";
  playbook_config_map_name = none;
  git_source = some git;
  playbook_path = none;
  entry_point = "site.yml";
  has_dependencies = true;
  requirements_config_map_name = some "nightly-requirements";
  extra_vars_config_map_name = "nightly-vars";
  ssh_key_mounts = record { mount_name = "key-0"; secret_name = "web-key" } ∷ [];
  ansible_options = none;
  timeout_seconds = some 600;
  service_account_name = none;
  resources = none;
}

build_job_spec-MountsDeclared_example :
    All
      (MountsDeclared (build_job_spec job_input).volumes)
      ((build_job_spec job_input).init_containers ++ (build_job_spec job_input).containers)
build_job_spec-MountsDeclared_example = build_job_spec-MountsDeclared job_input

-- ===== src/Sharding.antt =====
-- packages/operator/src/resolvers/host-sharding.ts: the hosts of a parallel run are cut into
-- shards, and a shard's `--limit` is derived again when it starts later. A `Set` is the list of
-- what was added; a loop threads what it mutates.
pub mod Chunks
pub mod Distinct
pub mod Rederive
pub mod Names
pub mod Restart
pub mod Homonyms
use a5e.Base.{
  String, ◌<>◌, ℕ, zero, suc, ◌+◌, Bool, true, false, not, ◌||◌, Option, none, some, List, [], ◌∷◌,
  ◌++◌, map, if◌then◌else◌, length, take, drop, ltb,
}
use a5e.Labels.{or_default, includes, join}
use a5e.Inventory.{ResolvedHost, ResolvedGroup, host_key}

pub record HostShard : Type 0 where
  pub index : ℕ
  pub host_names : List String
  pub limit : String

-- An entry of the local array `hosts`.
pub record ShardHost : Type 0 where
  pub name : String
  pub inventory_hostname : String

-- `inventoryHostname`
unfoldable pub inventory_hostname : ResolvedHost → String
inventory_hostname h = or_default h.name h.spec.ansible_host

pub record Collected : Type 0 where
  pub seen : List String
  pub hosts : List ShardHost

-- One round of the inner loop of `shardHosts`.
add_host : Collected → ResolvedHost → Collected
unfolding includes host_key inventory_hostname
add_host c h = if includes c.seen (host_key h) then c else record {
  seen = c.seen ++ (host_key h ∷ []);
  hosts = c.hosts ++ (record { name = h.name; inventory_hostname = inventory_hostname h } ∷ []);
}

collect_hosts : Collected → List ResolvedHost → Collected
unfolding add_host
collect_hosts c [] = c
collect_hosts c (h ∷ hosts) = collect_hosts (add_host c h) hosts

collect_groups : Collected → List ResolvedGroup → Collected
unfolding collect_hosts
collect_groups c [] = c
collect_groups c (g ∷ groups) = collect_groups (collect_hosts c g.hosts) groups

-- `hosts.slice(start, start + maxAmountOfHosts)`
slice : List ShardHost → ℕ → ℕ → List ShardHost
slice hosts start amount = take amount (drop start hosts)

unfoldable pub shard_of : ℕ → List ShardHost → HostShard
unfolding join
shard_of index chunk = record {
  index = index;
  host_names = map (λ h. h.name) chunk;
  limit = join ":" (map (λ h. h.inventory_hostname) chunk);
}

-- The second loop of `shardHosts`, on fuel; `none` means that the fuel ran out.
shard_loop : ℕ → List ShardHost → ℕ → ℕ → List HostShard → Option (List HostShard)
unfolding slice shard_of
shard_loop zero hosts amount start shards = none
shard_loop (suc fuel) hosts amount start shards =
    let rest =
      shard_loop fuel hosts amount (start + amount)
        (shards ++ (shard_of (length shards) (slice hosts start amount) ∷ [])) in
    if ltb start (length hosts) then rest else some shards

abbrev nothing_collected : Collected
nothing_collected = record { seen = []; hosts = [] }

-- The hosts of all groups, each once.
unfoldable pub collected_hosts : List ResolvedGroup → List ShardHost
unfolding collect_groups
collected_hosts groups = (collect_groups nothing_collected groups).hosts

-- `shardHosts`; the fuel is one more than the number of hosts.
unfoldable pub shard_hosts : List ResolvedGroup → ℕ → Option (List HostShard)
unfolding collected_hosts shard_loop
shard_hosts groups max_amount_of_hosts =
    let hosts = collected_hosts groups in
    shard_loop (suc (length hosts)) hosts max_amount_of_hosts 0 []

pub record Limits : Type 0 where
  pub seen : List String
  pub limits : List String

-- One round of the inner loop of `limitForHostNames`.
add_limit : List String → Limits → ResolvedHost → Limits
unfolding includes inventory_hostname
add_limit name_set l h =
    if not (includes name_set h.name) || includes l.seen h.name
    then l
    else record { seen = l.seen ++ (h.name ∷ []); limits = l.limits ++ (inventory_hostname h ∷ []) }

pub limit_hosts : List String → Limits → List ResolvedHost → Limits
unfolding add_limit
limit_hosts name_set l [] = l
limit_hosts name_set l (h ∷ hosts) = limit_hosts name_set (add_limit name_set l h) hosts

pub limit_groups : List String → Limits → List ResolvedGroup → Limits
unfolding limit_hosts
limit_groups name_set l [] = l
limit_groups name_set l (g ∷ groups) = limit_groups name_set (limit_hosts name_set l g.hosts) groups

-- `limitForHostNames`
unfoldable pub limit_for_host_names : List ResolvedGroup → List String → String
unfolding limit_groups join
limit_for_host_names groups host_names =
    join ":" (limit_groups host_names (record { seen = []; limits = [] }) groups).limits

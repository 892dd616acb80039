-- ===== src/Sharding/Homonyms.antt =====
-- A host and a cluster host of one name: what `limitForHostNames` makes of them.
use a5e.Base.{
  String, ◌≡◌, ◌≢◌, refl, sym, ap, suc, length, some, [], ◌∷◌, none, string_eq, ==_iff, ==_false,
  ==_refl,
}
use a5e.Inventory.{ResolvedHost, ResolvedGroup, host_key}
use a5e.Sharding.Distinct.{shard_host}
use a5e.Sharding.{
  HostShard, inventory_hostname, limit_for_host_names, shard_hosts, collected_hosts, shard_loop,
}

abbrev pub one_group : String → ResolvedHost → ResolvedHost → ResolvedGroup
one_group name a b = record { name = name; hosts = a ∷ b ∷ []; children = none }

collected_pair :
    (group : String) (a b : ResolvedHost)
    → host_key a ≢ host_key b
    → collected_hosts (one_group group a b ∷ []) ≡ shard_host a ∷ shard_host b ∷ []
unfolding collected_hosts
collected_pair group a b d = rw (==_false (host_key a) (host_key b) d, collected_hosts) refl

-- Two hosts of one name and different keys, one host to a shard: the second shard is cut for the
-- second host, but the limit that is derived for it when it starts later names the first host.
pub limit_for_host_names-homonyms :
    (group : String) (a b : ResolvedHost)
    → a.name ≡ b.name
    → host_key a ≢ host_key b
    → let groups = one_group group a b ∷ [] in
      let second : HostShard = record {
        index = 1;
        host_names = b.name ∷ [];
        limit = inventory_hostname b;
      } in
      (shard_hosts groups 1
        ≡ some (
            record { index = 0; host_names = a.name ∷ []; limit = inventory_hostname a }
            ∷ second
            ∷ []))
      × (limit_for_host_names groups second.host_names ≡ inventory_hostname a)
unfolding shard_hosts limit_for_host_names
limit_for_host_names-homonyms group a b e d = (
  ap (λ hs. shard_loop (suc (length hs)) hs 1 0 []) (collected_pair group a b d),
  rw ((==_iff b.name a.name).1 (sym e), ==_refl b.name, (==_iff a.name b.name).1 e) refl,
)

-- ===== src/Sharding/Distinct.antt =====
-- The first loop of `shardHosts`, by the keys of the hosts that it keeps.
use a5e.Base.{
  String, ◌≡◌, ◌≢◌, refl, sym, ap, ◌∙◌, true, false, List, [], ◌∷◌, ◌++◌, map, if◌then◌else◌, In,
  Memᴰ, Bool-cases, inl, inr, ◌⊎◌, append-nil, append_assoc, string_eq, subst, In-append,
  In-append_left, In-append_right,
}
use a5e.Labels.{includes}
use a5e.Labels.Matching.{includes-In, In-includes}
use a5e.Inventory.{ResolvedHost, ResolvedGroup, host_key}
use a5e.Sharding.{
  ShardHost, Collected, add_host, collect_hosts, collect_groups, collected_hosts,
  inventory_hostname,
}

-- Every host of every group, in order.
abbrev pub all_hosts : List ResolvedGroup → List ResolvedHost
all_hosts [] = []
all_hosts (g ∷ groups) = g.hosts ++ all_hosts groups

abbrev pub shard_host : ResolvedHost → ShardHost
shard_host h = record { name = h.name; inventory_hostname = inventory_hostname h }

module _ (key : ResolvedHost → String) where
  -- The first host of each key that was not seen before.
  unfoldable pub firsts : List String → List ResolvedHost → List ResolvedHost
  firsts seen [] = []
  firsts seen (h ∷ hosts) =
      let skipped = firsts seen hosts in
      let kept = h ∷ firsts (seen ++ (key h ∷ [])) hosts in
      if includes seen (key h) then skipped else kept

  -- No two hosts of the list have one key.
  abbrev pub DistinctOn : List ResolvedHost → Type 0
  DistinctOn [] = Unit
  DistinctOn (h ∷ hosts) = ((x : ResolvedHost) → In x hosts → key x ≢ key h) × DistinctOn hosts

  pub firsts-unseen :
      (seen : List String) (hosts : List ResolvedHost) (x : ResolvedHost)
      → In x (firsts seen hosts)
      → ¬ In (key x) seen
  unfolding firsts
  firsts-unseen seen [] x m = elim m [ ]
  firsts-unseen seen (h ∷ hosts) x m = elim (Bool-cases (includes seen (key h))) [
    | inl old ↦ firsts-unseen seen hosts x (rw old at m)
    | inr new ↦ at_new new (rw new at m) (firsts-unseen (seen ++ (key h ∷ [])) hosts x)
  ]
    where
      at_new :
          includes seen (key h) ≡ false
          → In x (h ∷ firsts (seen ++ (key h ∷ [])) hosts)
          → (In x (firsts (seen ++ (key h ∷ [])) hosts) → ¬ In (key x) (seen ++ (key h ∷ [])))
          → ¬ In (key x) seen
      at_new new (Memᴰ.head e) ih i =
          let t = In-includes seen (key h) (subst (λ y. In (key y) seen) e i) in cc
      at_new new (Memᴰ.tail m') ih i = ih m' (In-append_left (key x) seen (key h ∷ []) i)

  pub firsts-DistinctOn :
      (seen : List String) (hosts : List ResolvedHost) → DistinctOn (firsts seen hosts)
  unfolding firsts
  firsts-DistinctOn seen [] = tt
  firsts-DistinctOn seen (h ∷ hosts) = elim (Bool-cases (includes seen (key h))) [
    | inl old ↦ rw old (firsts-DistinctOn seen hosts)
    | inr new ↦ rw new (
      λ x m e.
          firsts-unseen (seen ++ (key h ∷ [])) hosts x m
            (In-append_right (key x) seen (key h ∷ []) (Memᴰ.head e)),
      firsts-DistinctOn (seen ++ (key h ∷ [])) hosts,
    )
  ]

  pub firsts-In :
      (seen : List String) (hosts : List ResolvedHost) (x : ResolvedHost)
      → In x (firsts seen hosts)
      → In x hosts
  unfolding firsts
  firsts-In seen [] x m = elim m [ ]
  firsts-In seen (h ∷ hosts) x m = elim (Bool-cases (includes seen (key h))) [
    | inl old ↦ Memᴰ.tail (firsts-In seen hosts x (rw old at m))
    | inr new ↦ at_new (rw new at m) (firsts-In (seen ++ (key h ∷ [])) hosts x)
  ]
    where
      at_new :
          In x (h ∷ firsts (seen ++ (key h ∷ [])) hosts)
          → (In x (firsts (seen ++ (key h ∷ [])) hosts) → In x hosts)
          → In x (h ∷ hosts)
      at_new (Memᴰ.head e) ih = Memᴰ.head e
      at_new (Memᴰ.tail m') ih = Memᴰ.tail (ih m')

  -- The key of the host was seen before, or is that of a host of the result.
  abbrev Represented : List String → List ResolvedHost → ResolvedHost → Type 0
  Represented seen out h = In (key h) seen ⊎ ((x : ResolvedHost) × In x out × (key x ≡ key h))

  firsts-Represented :
      (seen : List String) (hosts : List ResolvedHost) (x : ResolvedHost)
      → In x hosts
      → Represented seen (firsts seen hosts) x
  unfolding firsts
  firsts-Represented seen [] x m = elim m [ ]
  firsts-Represented seen (h ∷ hosts) x m = elim (Bool-cases (includes seen (key h))) [
    | inl old ↦ rw old (at_old old m (firsts-Represented seen hosts x))
    | inr new ↦ rw new (at_new m (firsts-Represented (seen ++ (key h ∷ [])) hosts x))
  ]
    where
      at_old :
          includes seen (key h) ≡ true
          → In x (h ∷ hosts)
          → (In x hosts → Represented seen (firsts seen hosts) x)
          → Represented seen (firsts seen hosts) x
      at_old old (Memᴰ.head e) ih =
          inl (subst (λ y. In (key y) seen) (sym e) (includes-In seen (key h) old))
      at_old old (Memᴰ.tail m') ih = ih m'

      later :
          Represented (seen ++ (key h ∷ [])) (firsts (seen ++ (key h ∷ [])) hosts) x
          → Represented seen (h ∷ firsts (seen ++ (key h ∷ [])) hosts) x
      later (inl i) = elim (In-append (key x) seen (key h ∷ []) i) [
        | inl before ↦ inl before
        | inr (Memᴰ.head e) ↦ inr (h, Memᴰ.head refl, sym e)
        | inr (Memᴰ.tail impossible) ↦ elim impossible [ ]
      ]
      later (inr (y, i, e)) = inr (y, Memᴰ.tail i, e)

      at_new :
          In x (h ∷ hosts)
          → (In x hosts
              → Represented (seen ++ (key h ∷ [])) (firsts (seen ++ (key h ∷ [])) hosts) x)
          → Represented seen (h ∷ firsts (seen ++ (key h ∷ [])) hosts) x
      at_new (Memᴰ.head e) ih = inr (h, Memᴰ.head refl, ap key (sym e))
      at_new (Memᴰ.tail m') ih = later (ih m')

  pub firsts-covers :
      (hosts : List ResolvedHost) (x : ResolvedHost)
      → In x hosts
      → (y : ResolvedHost) × In y (firsts [] hosts) × (key y ≡ key x)
  firsts-covers hosts x m = elim (firsts-Represented [] hosts x m) [
    | inl none_seen ↦ elim none_seen [ ]
    | inr found ↦ found
  ]

collect_hosts-append :
    (c : Collected) (xs ys : List ResolvedHost)
    → collect_hosts c (xs ++ ys) ≡ collect_hosts (collect_hosts c xs) ys
unfolding collect_hosts
collect_hosts-append c [] ys = refl
collect_hosts-append c (x ∷ xs) ys = collect_hosts-append (add_host c x) xs ys

-- The two nested loops are one loop over all hosts.
collect_groups-all_hosts :
    (c : Collected) (groups : List ResolvedGroup)
    → collect_groups c groups ≡ collect_hosts c (all_hosts groups)
unfolding collect_groups
collect_groups-all_hosts c [] = refl
collect_groups-all_hosts c (g ∷ groups) =
    collect_groups-all_hosts (collect_hosts c g.hosts) groups
    ∙ sym (collect_hosts-append c g.hosts (all_hosts groups))

add_host_seen :
    (c : Collected) (h : ResolvedHost) → includes c.seen (host_key h) ≡ true → add_host c h ≡ c
unfolding add_host
add_host_seen c h e = rw e

add_host_new :
    (c : Collected) (h : ResolvedHost)
    → includes c.seen (host_key h) ≡ false
    → add_host c h
      ≡ record { seen = c.seen ++ (host_key h ∷ []); hosts = c.hosts ++ (shard_host h ∷ []) }
unfolding add_host
add_host_new c h e = rw e

collect_hosts-firsts :
    (c : Collected) (hosts : List ResolvedHost)
    → (collect_hosts c hosts).hosts ≡ c.hosts ++ map shard_host (firsts host_key c.seen hosts)
unfolding collect_hosts firsts
collect_hosts-firsts c [] = sym (append-nil c.hosts)
collect_hosts-firsts c (h ∷ hosts) = elim (Bool-cases (includes c.seen (host_key h))) [
  | inl old ↦ rw old (
      ap (λ d. (collect_hosts d hosts).hosts) (add_host_seen c h old)
      ∙ collect_hosts-firsts c hosts)
  | inr new ↦ rw new (
      collect_hosts-firsts (add_host c h) hosts
      ∙ (ap (λ d. d.hosts ++ map shard_host (firsts host_key d.seen hosts)) (add_host_new c h new)
          ∙ append_assoc c.hosts (shard_host h ∷ []) _))
]

pub collected_hosts-firsts :
    (groups : List ResolvedGroup)
    → collected_hosts groups ≡ map shard_host (firsts host_key [] (all_hosts groups))
unfolding collected_hosts
collected_hosts-firsts groups =
    ap (λ c. c.hosts) (collect_groups-all_hosts _ groups)
    ∙ collect_hosts-firsts _ (all_hosts groups)

-- The hosts that `shardHosts` shards are hosts of the groups, no two of them with one key of kind,
-- namespace and name, and every host of every group has its key among theirs.
pub collected_hosts-DistinctOn :
    (groups : List ResolvedGroup)
    → (out : List ResolvedHost) × (collected_hosts groups ≡ map shard_host out)
      × DistinctOn host_key out
      × ((x : ResolvedHost) → In x out → In x (all_hosts groups))
      × ((x : ResolvedHost)
          → In x (all_hosts groups)
          → (y : ResolvedHost) × In y out × (host_key y ≡ host_key x))
collected_hosts-DistinctOn groups = (
  firsts host_key [] (all_hosts groups),
  collected_hosts-firsts groups,
  firsts-DistinctOn host_key [] (all_hosts groups),
  firsts-In host_key [] (all_hosts groups),
  firsts-covers host_key (all_hosts groups),
)

-- ===== src/Sharding/Restart.antt =====
-- The limit of a shard that starts later, against the one that it was given first.
use a5e.Base.{
  String, ℕ, suc, ◌<◌, ◌≡◌, ◌≢◌, refl, sym, ap, ◌∙◌, false, some, List, [], ◌∷◌, ◌++◌, map, In,
  Memᴰ, Bool-cases, inl, inr, append-nil, append_assoc, subst, keep, In-append_right,
  In-append_left,
}
use a5e.Labels.{includes, join}
use a5e.Labels.Matching.{includes-In, In-includes}
use a5e.Inventory.{ResolvedGroup}
use a5e.Sharding.{
  HostShard, ShardHost, shard_of, limit_for_host_names, shard_hosts, collected_hosts,
}
use a5e.Sharding.Chunks.{Cut, shard_hosts-Cut}
use a5e.Sharding.Distinct.{all_hosts, shard_host, firsts, firsts-DistinctOn, collected_hosts-firsts}
use a5e.Sharding.Rederive.{host_name, limit_hosts-firsts, limit_groups-all_hosts}
use a5e.Sharding.Names.{
  NamesIdentify, firsts-key_name, NamesDiffer, map-In, In-map, DistinctOn-NamesDiffer, listed,
  keep-all, keep-none, keep-append, keep-shard_host,
}

NamesDiffer-right : (xs ys : List ShardHost) → NamesDiffer (xs ++ ys) → NamesDiffer ys
NamesDiffer-right [] ys d = d
NamesDiffer-right (x ∷ xs) ys (_, d) = NamesDiffer-right xs ys d

NamesDiffer-apart :
    (xs ys : List ShardHost) (x y : ShardHost)
    → NamesDiffer (xs ++ ys)
    → In x xs
    → In y ys
    → y.name ≢ x.name
NamesDiffer-apart [] ys x y d m k = elim m [ ]
NamesDiffer-apart (z ∷ xs) ys x y (apart, d) (Memᴰ.head e) k =
    λ same. apart y (In-append_right y xs ys k) (same ∙ ap (λ h. h.name) e)
NamesDiffer-apart (z ∷ xs) ys x y (apart, d) (Memᴰ.tail m) k = NamesDiffer-apart xs ys x y d m k

abbrev names : List ShardHost → List String
names chunk = map (λ h. h.name) chunk

unlisted :
    (chunk : List ShardHost) (x : ShardHost)
    → ((y : ShardHost) → In y chunk → y.name ≢ x.name)
    → listed (names chunk) x ≡ false
unlisted chunk x apart = elim (Bool-cases (listed (names chunk) x)) [
  | inl t ↦
      let (y, m, e) = map-In (λ (h : ShardHost). h.name) chunk x.name (includes-In _ x.name t) in
      absurd (apart y m (sym e))
  | inr f ↦ f
]

-- Looking for the names of a piece finds the piece.
keep-piece :
    (pre chunk post : List ShardHost)
    → NamesDiffer (pre ++ (chunk ++ post))
    → keep (listed (names chunk)) (pre ++ (chunk ++ post)) ≡ chunk
keep-piece pre chunk post d =
    let before = keep-none (names chunk) pre (λ x m.
      unlisted chunk x
        (λ y k. NamesDiffer-apart pre (chunk ++ post) x y d m (In-append_left y chunk post k))) in
    let d' = NamesDiffer-right pre (chunk ++ post) d in
    let after =
      keep-none (names chunk) post
        (λ x m. unlisted chunk x (λ y k e. NamesDiffer-apart chunk post y x d' k m (sym e))) in
    let inside =
      keep-all (names chunk) chunk
        (λ x m. In-includes _ x.name (In-map (λ (h : ShardHost). h.name) chunk x m)) in
    keep-append (names chunk) pre (chunk ++ post)
    ∙ rw before (keep-append (names chunk) chunk post ∙ rw (inside, after) (append-nil chunk))

-- Every shard of a cut is a piece of the hosts.
Cut-piece :
    (amount i : ℕ) (hosts : List ShardHost) (shards : List HostShard) (s : HostShard)
    → Cut amount i hosts shards
    → In s shards
    → (pre : List ShardHost) × (chunk : List ShardHost) × (post : List ShardHost) × (j : ℕ) × (hosts
        ≡ pre ++ (chunk ++ post))
      × (s ≡ shard_of j chunk)
Cut-piece amount i hosts [] s cut m = elim m [ ]
Cut-piece amount i hosts (t ∷ shards) s (chunk, rest, e, pos, le, is, cut) (Memᴰ.head same) =
    ([], chunk, rest, i, e, same ∙ is)
Cut-piece amount i hosts (t ∷ shards) s (chunk, rest, e, pos, le, is, cut) (Memᴰ.tail m) =
    let (pre, piece, post, j, e', is') = Cut-piece amount (suc i) rest shards s cut m in
    (
      chunk ++ pre,
      piece,
      post,
      j,
      e ∙ (ap (◌++◌ chunk) e' ∙ sym (append_assoc chunk pre (piece ++ post))),
      is',
    )

limit_for_host_names-keep :
    (groups : List ResolvedGroup) (ns : List String)
    → NamesIdentify (all_hosts groups)
    → limit_for_host_names groups ns
      ≡ join ":" (map (λ h. h.inventory_hostname) (keep (listed ns) (collected_hosts groups)))
unfolding limit_for_host_names
limit_for_host_names-keep groups ns id =
    ap (λ l. join ":" l.limits) (limit_groups-all_hosts ns _ groups)
    ∙ (ap (join ":") (
          limit_hosts-firsts ns _ [] (all_hosts groups) (λ n e. refl)
          ∙ (keep-shard_host ns (firsts host_name [] (all_hosts groups))
              ∙ ap (λ hs. map (λ h. h.inventory_hostname) (keep (listed ns) (map shard_host hs)))
                  (sym (firsts-key_name [] [] (all_hosts groups) id (λ x m. refl)))))
        ∙ ap (λ hs. join ":" (map (λ h. h.inventory_hostname) (keep (listed ns) hs)))
            (sym (collected_hosts-firsts groups)))

collected_hosts-NamesDiffer :
    (groups : List ResolvedGroup)
    → NamesIdentify (all_hosts groups)
    → NamesDiffer (collected_hosts groups)
unfolding includes
collected_hosts-NamesDiffer groups id =
    let e : collected_hosts groups ≡ map shard_host (firsts host_name [] (all_hosts groups)) =
      collected_hosts-firsts groups
      ∙ ap (map shard_host) (firsts-key_name [] [] (all_hosts groups) id (λ x k. refl)) in
    subst NamesDiffer (sym e)
      (DistinctOn-NamesDiffer _ (firsts-DistinctOn host_name [] (all_hosts groups)))

-- A shard that is started after a later resolution of the same inventory runs with the limit that
-- it was cut with, if equal names in the inventory mean equal keys and the other way round.
pub limit_for_host_names-shard_hosts :
    (groups : List ResolvedGroup) (max_amount_of_hosts : ℕ) (shards : List HostShard)
    (s : HostShard)
    → 0 < max_amount_of_hosts
    → NamesIdentify (all_hosts groups)
    → shard_hosts groups max_amount_of_hosts ≡ some shards
    → In s shards
    → limit_for_host_names groups s.host_names ≡ s.limit
unfolding shard_of
limit_for_host_names-shard_hosts groups amount shards s pos id returned m =
    let (shards', e, cut) = shard_hosts-Cut groups amount pos in
    let same : shards' ≡ shards = cc in
    let (pre, chunk, post, j, split, is) =
      Cut-piece amount 0 (collected_hosts groups) shards s (rw same at cut) m in
    let differ = subst NamesDiffer split (collected_hosts-NamesDiffer groups id) in
    ap (λ t. limit_for_host_names groups t.host_names) is
    ∙ (limit_for_host_names-keep groups (names chunk) id
        ∙ (ap (λ hs. join ":" (map (λ h. h.inventory_hostname) (keep (listed (names chunk)) hs)))
              split
            ∙ (ap (λ hs. join ":" (map (λ h. h.inventory_hostname) hs))
                  (keep-piece pre chunk post differ)
                ∙ sym (ap (λ t. t.limit) is))))

-- ===== src/Inventory/Groups/Membership.antt =====
-- The members of a resolved group: their keys, and the hosts that are disabled.
use a5e.Base.{
  String, ℕ, ◌≡◌, refl, sym, ap, subst, ◌∙◌, Bool, false, Option, none, List, [], ◌∷◌, ◌++◌, map,
  arith, All, All-append, string_eq, ==_iff, Bool-cases, inl, inr,
}
use a5e.Base.Result.{Result, ok, >>=-eq-ok, ok-injective}
use a5e.Descriptors.{Descriptor}
use a5e.Labels.{includes}
use a5e.Inventory.{ResolvedHost, ResolvedGroup, host_key}
use a5e.Inventory.Jumps.{HostObject}
use a5e.Inventory.Jumps.Totality.{includes-append}
use a5e.Inventory.Groups.{
  Members, HostSource, InventoryGroup, no_members, is_disabled, resolved_host, add_member, listing,
  chain_for, add_object, add_objects, add_sources, resolve_inventory_groups,
}

abbrev pub Distinct : List String → Type 0
Distinct [] = Unit
Distinct (k ∷ keys) = (includes keys k ≡ false) × Distinct keys

abbrev pub IsEnabled : ResolvedHost → Type 0
IsEnabled h = is_disabled h.spec.enabled ≡ false

-- A group whose hosts have distinct keys and are not disabled.
abbrev pub IsProper : List ResolvedHost → Type 0
IsProper hosts = Distinct (map host_key hosts) × All IsEnabled hosts

Distinct-append :
    (keys : List String) (k : String)
    → Distinct keys
    → includes keys k ≡ false
    → Distinct (keys ++ (k ∷ []))
unfolding includes
Distinct-append [] k d f = (refl, tt)
Distinct-append (j ∷ keys) k (n, d) f = (
  ground (arith, includes-append keys k j, ==_iff j k, ==_iff k j),
  Distinct-append keys k d (ground arith),
)

map-append :
    (xs : List ResolvedHost) (h : ResolvedHost)
    → map host_key (xs ++ (h ∷ [])) ≡ map host_key xs ++ (host_key h ∷ [])
map-append [] h = refl
map-append (x ∷ xs) h = ap (◌∷◌ (host_key x)) (map-append xs h)

All-snoc :
    (xs : List ResolvedHost) (h : ResolvedHost)
    → All IsEnabled xs
    → IsEnabled h
    → All IsEnabled (xs ++ (h ∷ []))
All-snoc xs h a e = All-append IsEnabled xs (h ∷ []) a (e, tt)

record IsMembers (m : Members) : Type 0 where
  keyed : m.seen ≡ map host_key m.hosts
  proper : IsProper m.hosts

add_member-IsMembers :
    (m : Members) (h : ResolvedHost)
    → IsMembers m
    → includes m.seen (host_key h) ≡ false
    → IsEnabled h
    → IsMembers (add_member m h)
unfolding add_member
add_member-IsMembers m h i new e = record {
  keyed = ap (λ l. l ++ (host_key h ∷ [])) i.keyed ∙ sym (map-append m.hosts h);
  proper = (
    subst Distinct (sym (map-append m.hosts h))
        (Distinct-append (map host_key m.hosts) (host_key h) i.proper.0 (rw i.keyed at new)),
    All-snoc m.hosts h i.proper.1 e,
  );
}

module _ (get : Descriptor → String → Option String → Result HostObject)
    (list : Descriptor → Option String → Option String → Result (List HostObject)) (fuel : ℕ)
    (inventory_namespace : Option String) (resolve_jump_chains : Bool) where
  add_object-IsMembers :
      (kind : String) (m m' : Members) (obj : HostObject)
      → IsMembers m
      → add_object get list fuel inventory_namespace resolve_jump_chains kind m obj ≡ ok m'
      → IsMembers m'
  unfolding add_object host_key
  add_object-IsMembers kind m m' obj i e = elim (Bool-cases (is_disabled obj.spec.enabled)) [
    | inl t ↦ subst IsMembers (ok-injective m m' (rw t at e)) i
    | inr enabled ↦ elim (Bool-cases (includes m.seen (host_key (resolved_host kind obj none)))) [
      | inl t ↦ subst IsMembers (ok-injective m m' (rw (enabled, t) at e)) i
      | inr new ↦
          let (chain, _, got) =
            >>=-eq-ok (chain_for get list fuel inventory_namespace resolve_jump_chains kind obj) _
              (rw (enabled, new) at e) in
          subst IsMembers (ok-injective _ m' got)
            (add_member-IsMembers m (resolved_host kind obj chain) i new enabled)
    ]
  ]

  add_objects-IsMembers :
      (kind : String) (m m' : Members) (objs : List HostObject)
      → IsMembers m
      → add_objects get list fuel inventory_namespace resolve_jump_chains kind m objs ≡ ok m'
      → IsMembers m'
  unfolding add_objects
  add_objects-IsMembers kind m m' [] i e = subst IsMembers (ok-injective m m' e) i
  add_objects-IsMembers kind m m' (obj ∷ objs) i e =
      let (added, f, g) =
        >>=-eq-ok (add_object get list fuel inventory_namespace resolve_jump_chains kind m obj) _
          e in
      add_objects-IsMembers kind added m' objs (add_object-IsMembers kind m added obj i f) g

  add_sources-IsMembers :
      (m m' : Members) (sources : List HostSource)
      → IsMembers m
      → add_sources get list fuel inventory_namespace resolve_jump_chains m sources ≡ ok m'
      → IsMembers m'
  unfolding add_sources
  add_sources-IsMembers m m' [] i e = subst IsMembers (ok-injective m m' e) i
  add_sources-IsMembers m m' (source ∷ sources) i e =
      let (objs, _, g) =
        >>=-eq-ok (listing get list fuel inventory_namespace resolve_jump_chains source) _ e in
      let (added, f, h) =
        >>=-eq-ok
          (add_objects get list fuel inventory_namespace resolve_jump_chains source.kind m objs) _
          g in
      add_sources-IsMembers added m' sources (add_objects-IsMembers source.kind m added objs i f) h

  -- In every group of a resolved inventory the hosts have distinct keys of kind, namespace and
  -- name, whatever the sources of the group list, and no host is disabled.
  pub resolve_inventory_groups-IsProper :
      (groups : List InventoryGroup) (resolved : List ResolvedGroup)
      → resolve_inventory_groups get list fuel inventory_namespace resolve_jump_chains groups
        ≡ ok resolved
      → All (λ g. IsProper g.hosts) resolved
  unfolding resolve_inventory_groups
  resolve_inventory_groups-IsProper [] resolved e =
      subst (All (λ g. IsProper g.hosts)) (ok-injective [] resolved e) tt
  resolve_inventory_groups-IsProper (group ∷ groups) resolved e =
      let (members, f, g) =
        >>=-eq-ok
          (add_sources get list fuel inventory_namespace resolve_jump_chains no_members
            group.host_sources)
          _ e in
      let (rest, h, k) =
        >>=-eq-ok
          (resolve_inventory_groups get list fuel inventory_namespace resolve_jump_chains groups) _
          g in
      let i =
        add_sources-IsMembers no_members members group.host_sources
          (record { keyed = refl; proper = (tt, tt) }) f in
      subst (All (λ g. IsProper g.hosts)) (ok-injective _ resolved k)
        (i.proper, resolve_inventory_groups-IsProper groups rest h)

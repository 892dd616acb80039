-- ===== src/Sharding/Rederive.antt =====
-- `limitForHostNames` against the limit that `shardHosts` writes for the same hosts.
use a5e.Base.{
  String, ◌≡◌, refl, sym, ap, ◌∙◌, Bool, true, false, ◌||◌, not, List, [], ◌∷◌, ◌++◌, map, arith,
  Bool-cases, inl, inr, append-nil, append_assoc, ◌==◌, string_eq, ==_iff, keep,
}
use a5e.Labels.{includes}
use a5e.Inventory.{ResolvedHost, ResolvedGroup}
use a5e.Sharding.{Limits, add_limit, limit_hosts, limit_groups, inventory_hostname}
use a5e.Sharding.Distinct.{all_hosts, firsts}

unfoldable pub host_name : ResolvedHost → String
host_name h = h.name

pub includes-snoc :
    (xs : List String) (y x : String) → includes (xs ++ (y ∷ [])) x ≡ (includes xs x || (y == x))
unfolding includes
includes-snoc [] y x = ground arith
includes-snoc (z ∷ xs) y x = ground (arith, includes-snoc xs y x)

limit_hosts-append :
    (ns : List String) (l : Limits) (xs ys : List ResolvedHost)
    → limit_hosts ns l (xs ++ ys) ≡ limit_hosts ns (limit_hosts ns l xs) ys
unfolding limit_hosts
limit_hosts-append ns l [] ys = refl
limit_hosts-append ns l (x ∷ xs) ys = limit_hosts-append ns (add_limit ns l x) xs ys

pub limit_groups-all_hosts :
    (ns : List String) (l : Limits) (groups : List ResolvedGroup)
    → limit_groups ns l groups ≡ limit_hosts ns l (all_hosts groups)
unfolding limit_groups
limit_groups-all_hosts ns l [] = refl
limit_groups-all_hosts ns l (g ∷ groups) =
    limit_groups-all_hosts ns (limit_hosts ns l g.hosts) groups
    ∙ sym (limit_hosts-append ns l g.hosts (all_hosts groups))

module _ (ns : List String) where
  abbrev pub named : ResolvedHost → Bool
  named h = includes ns h.name

  -- The two loops have seen the same of the names that are looked for.
  abbrev pub SameSeen : List String → List String → Type 0
  SameSeen xs ys = (n : String) → includes ns n ≡ true → includes xs n ≡ includes ys n

  add_limit_skip :
      (l : Limits) (h : ResolvedHost)
      → (not (named h) || includes l.seen h.name) ≡ true
      → add_limit ns l h ≡ l
  unfolding add_limit
  add_limit_skip l h e = rw e

  add_limit_take :
      (l : Limits) (h : ResolvedHost)
      → (not (named h) || includes l.seen h.name) ≡ false
      → add_limit ns l h ≡ record {
        seen = l.seen ++ (h.name ∷ []);
        limits = l.limits ++ (inventory_hostname h ∷ []);
      }
  unfolding add_limit
  add_limit_take l h e = rw e

  pub limit_hosts-firsts :
      (l : Limits) (seen : List String) (hosts : List ResolvedHost)
      → SameSeen l.seen seen
      → (limit_hosts ns l hosts).limits
        ≡ l.limits ++ map inventory_hostname (keep named (firsts host_name seen hosts))
  unfolding limit_hosts firsts host_name
  limit_hosts-firsts l seen [] same = sym (append-nil l.limits)
  limit_hosts-firsts l seen (h ∷ hosts) same = elim (Bool-cases (named h)) [
    | inl wanted ↦ elim (Bool-cases (includes seen h.name)) [
      | inl old ↦ rw old (
          ap (λ d. (limit_hosts ns d hosts).limits)
            (add_limit_skip l h (ground (arith, same h.name wanted)))
          ∙ limit_hosts-firsts l seen hosts same)
      | inr new ↦
          rw (new, wanted)
            (ap (λ d. (limit_hosts ns d hosts).limits)
                (add_limit_take l h (ground (arith, same h.name wanted)))
              ∙ (limit_hosts-firsts
                    (record {
                      seen = l.seen ++ (h.name ∷ []);
                      limits = l.limits ++ (inventory_hostname h ∷ []);
                    })
                    (seen ++ (h.name ∷ [])) hosts (λ n e. simp includes-snoc (rw (same n e)))
                  ∙ append_assoc l.limits (inventory_hostname h ∷ []) _))
    ]
    | inr other ↦
        ap (λ d. (limit_hosts ns d hosts).limits) (add_limit_skip l h (ground arith))
        ∙ elim (Bool-cases (includes seen h.name)) [
          | inl old ↦ rw old (limit_hosts-firsts l seen hosts same)
          | inr new ↦
              rw (new, other)
                (limit_hosts-firsts l (seen ++ (h.name ∷ [])) hosts
                  (λ n e. rw includes-snoc (ground (arith, same n e, ==_iff h.name n))))
        ]
  ]

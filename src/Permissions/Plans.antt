-- ===== src/Permissions/Plans.antt =====
-- `planList` against `canAct`: the objects that a plan asks for, and the user's grants.
use a5e.Base.{
  String, ◌≡◌, ◌≢◌, refl, ◌∙◌, Bool, true, false, ◌&&◌, ◌||◌, Option, none, some, List, [], ◌∷◌,
  ◌++◌, map, arith, ◌==◌, string_eq, option_eq, ==_iff, some_of, keep, All, All-append, Bool-cases,
  inl, inr,
}
use a5e.Labels.{Labels, includes, label_selector_matches, label_selector_to_string}
use a5e.Permissions.{
  Permission, ListPlanEntry, ListPlan, denied, entries, entry_for, namespace_matches, is_empty,
  unrestricted, plan_one, grant_entries, plan_all,
}
use a5e.Permissions.Keys.{IsPlain, IsPlainName, some_of-dedupe_entries}

-- Shared facts on searches through a list.
module _ {ℓ} {A : Type ℓ} where
  some_of-append :
      (f : A → Bool) (xs ys : List A) → some_of f (xs ++ ys) ≡ (some_of f xs || some_of f ys)
  some_of-append f [] ys = refl
  some_of-append f (x ∷ xs) ys = ground (arith, some_of-append f xs ys)

  pub All-keep {κ} : (P : A → Type κ) (g : A → Bool) (xs : List A) → All P xs → All P (keep g xs)
  All-keep P g [] h = h
  All-keep P g (x ∷ xs) (h, hs) = elim (Bool-cases (g x)) [
    | inl t ↦ rw t (h, All-keep P g xs hs)
    | inr f ↦ rw f (All-keep P g xs hs)
  ]

-- What the API server is asked to do with a selector in query form: `accepts` decides it.
module _ (accepts : String → Option Labels → Bool) where
  abbrev pub selected : Option String → Option Labels → Bool
  selected none labels = true
  selected (some s) labels = accepts s labels

  abbrev pub in_collection : Option String → Option String → Bool
  in_collection none namespace = true
  in_collection (some n) namespace = namespace == some n

  -- The list request of an entry returns an object of this namespace with these labels.
  abbrev pub returns : Option String → Option Labels → ListPlanEntry → Bool
  returns namespace labels e =
      in_collection e.namespace namespace && selected e.label_selector labels

  abbrev pub plan_returns : Option String → Option Labels → ListPlan → Bool
  plan_returns namespace labels denied = false
  plan_returns namespace labels (entries es) = some_of (returns namespace labels) es

  -- A stored grant whose namespaces are plain names, and whose selector the server reads as the
  -- engine does.
  pub record IsReadable (p : Permission) : Type 0 where
    pub names : All (λ n. IsPlainName (some n)) p.namespaces
    pub query : label_selector_to_string p.label_selector ≢ some ""
    pub agrees :
        (labels : Option Labels)
        → selected (label_selector_to_string p.label_selector) labels
          ≡ label_selector_matches p.label_selector labels

  module _ (labels : Option Labels) where
    abbrev pub selects : Permission → Bool
    selects p = label_selector_matches p.label_selector labels

    unrestricted-selects :
        (perms : List Permission) → some_of unrestricted perms ≡ true → some_of selects perms ≡ true
    unfolding unrestricted label_selector_matches
    unrestricted-selects [] h = cc
    unrestricted-selects (p ∷ perms) h = ground (arith, unrestricted-selects perms)

    returns-entry_for :
        (namespace collection : Option String) (p : Permission)
        → IsReadable p
        → returns namespace labels (entry_for collection p)
          ≡ (in_collection collection namespace && selects p)
    returns-entry_for namespace collection p h = rw (h.agrees labels)

    entry_for-IsPlain :
        (collection : Option String) (p : Permission)
        → IsPlainName collection
        → IsReadable p
        → IsPlain (entry_for collection p)
    entry_for-IsPlain collection p n h = record { named = n; selecting = h.query }

    map-entry_for-IsPlain :
        (collection : Option String) (perms : List Permission)
        → IsPlainName collection
        → All IsReadable perms
        → All IsPlain (map (entry_for collection) perms)
    map-entry_for-IsPlain collection [] n h = tt
    map-entry_for-IsPlain collection (p ∷ perms) n (h, hs) =
        (entry_for-IsPlain collection p n h, map-entry_for-IsPlain collection perms n hs)

    -- All grants speak of one collection, and the object lies in it.
    returns-map-entry_for :
        (namespace collection : Option String) (perms : List Permission)
        → in_collection collection namespace ≡ true
        → All IsReadable perms
        → some_of (returns namespace labels) (map (entry_for collection) perms)
          ≡ some_of selects perms
    returns-map-entry_for namespace collection [] e h = refl
    returns-map-entry_for namespace collection (p ∷ perms) e (h, hs) = ground (
      arith,
      returns-entry_for namespace collection p h,
      returns-map-entry_for namespace collection perms e hs,
    )

    pub plan_one-returns :
        (namespace collection : Option String) (perms : List Permission)
        → IsPlainName collection
        → in_collection collection namespace ≡ true
        → All IsReadable perms
        → plan_returns namespace labels (plan_one collection perms) ≡ some_of selects perms
    unfolding plan_one
    plan_one-returns namespace collection perms n e h =
        elim (Bool-cases (some_of unrestricted perms)) [
          | inl all ↦ rw (all, e, unrestricted-selects perms all)
          | inr narrow ↦ rw narrow (
              some_of-dedupe_entries (returns namespace labels) _
                (map-entry_for-IsPlain collection perms n h)
              ∙ returns-map-entry_for namespace collection perms e h)
        ]

    module _ (n : String) where
      abbrev pub here : Permission → Bool
      here p = namespace_matches p (some n) && selects p

      returns-each_namespace :
          (p : Permission) (names : List String)
          → IsReadable p
          → some_of (returns (some n) labels) (map (λ ns. entry_for (some ns) p) names)
            ≡ (includes names n && selects p)
      unfolding includes
      returns-each_namespace p [] h = refl
      returns-each_namespace p (ns ∷ names) h = ground (
        arith,
        ==_iff n ns,
        ==_iff ns n,
        returns-entry_for (some n) (some ns) p h,
        returns-each_namespace p names h,
      )

      returns-grant_entries :
          (p : Permission)
          → IsReadable p
          → some_of (returns (some n) labels) (grant_entries p) ≡ here p
      unfolding grant_entries namespace_matches
      returns-grant_entries p h = elim (Bool-cases (is_empty p.namespaces)) [
        | inl every ↦ rw (every) (ground (arith, returns-entry_for (some n) none p h))
        | inr some_names ↦ rw some_names (returns-each_namespace p p.namespaces h)
      ]

      each_namespace-IsPlain :
          (p : Permission) (names : List String)
          → All (λ m. IsPlainName (some m)) names
          → IsReadable p
          → All IsPlain (map (λ ns. entry_for (some ns) p) names)
      each_namespace-IsPlain p [] a h = tt
      each_namespace-IsPlain p (ns ∷ names) (a, as_) h =
          (entry_for-IsPlain (some ns) p a h, each_namespace-IsPlain p names as_ h)

      grant_entries-IsPlain : (p : Permission) → IsReadable p → All IsPlain (grant_entries p)
      unfolding grant_entries
      grant_entries-IsPlain p h = elim (Bool-cases (is_empty p.namespaces)) [
        | inl every ↦ rw every (entry_for-IsPlain none p tt h, tt)
        | inr some_names ↦ rw some_names (each_namespace-IsPlain p p.namespaces h.names h)
      ]

      unrestricted-here :
          (p : Permission) → (is_empty p.namespaces && unrestricted p) ≡ true → here p ≡ true
      unfolding unrestricted label_selector_matches namespace_matches
      unrestricted-here p h = ground arith

      pub plan_all-returns :
          (es : List ListPlanEntry) (perms : List Permission)
          → All IsPlain es
          → All IsReadable perms
          → plan_returns (some n) labels (plan_all es perms)
            ≡ (some_of (returns (some n) labels) es || some_of here perms)
      unfolding plan_all
      plan_all-returns es [] k h =
          some_of-dedupe_entries (returns (some n) labels) es k ∙ ground arith
      plan_all-returns es (p ∷ perms) k (h, hs) =
          elim (Bool-cases (is_empty p.namespaces && unrestricted p)) [
            | inl early ↦ rw early (rw (unrestricted-here p early) (ground arith))
            | inr more ↦ rw more (
                rw
                  (plan_all-returns (es ++ grant_entries p) perms
                    (All-append IsPlain es _ k (grant_entries-IsPlain p h)) hs)
                  (ground (
                    arith,
                    some_of-append (returns (some n) labels) es (grant_entries p),
                    returns-grant_entries p h,
                  )))
          ]

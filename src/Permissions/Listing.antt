-- ===== src/Permissions/Listing.antt =====
-- `planList` as a whole: each of its branches against `canAct`.
use a5e.Base.{
  String, ◌≡◌, refl, sym, ◌∙◌, Bool, true, false, ◌&&◌, Option, none, some, List, [], ◌∷◌, arith,
  string_eq, ==_refl, some_of, keep, All, Bool-cases, inl, inr,
}
use a5e.Descriptors.{Scope, namespaced, cluster}
use a5e.Labels.{Labels, label_selector_matches}
use a5e.Permissions.{
  Permission, matches_type, matches_action, namespace_matches, can_act, is_empty, in_scope,
  plan_namespaced, plan_applicable, plan_list,
}
use a5e.Permissions.Keys.{IsPlainName}
use a5e.Permissions.Plans.{plan_returns, IsReadable, plan_one-returns, plan_all-returns, All-keep}

-- The objects that a list request is about: those of a cluster-scoped kind, those of the requested
-- namespace, or those of every namespace.
abbrev pub InScope : Scope → Option String → Option String → Type 0
InScope cluster requested namespace = namespace ≡ none
InScope namespaced none namespace = (n : String) × (namespace ≡ some n)
InScope namespaced (some r) namespace = namespace ≡ some r

abbrev applicable : String → String → Permission → Bool
applicable kind action p = matches_type p kind && matches_action p action

abbrev fits : Option String → Option Labels → Permission → Bool
fits namespace labels p =
    namespace_matches p namespace && label_selector_matches p.label_selector labels

can_act-keep :
    (perms : List Permission) (kind action : String) (namespace : Option String)
    (labels : Option Labels)
    → can_act perms (record { type = kind; namespace = namespace; labels = labels }) action
      ≡ some_of (fits namespace labels) (keep (applicable kind action) perms)
unfolding can_act
can_act-keep [] kind action namespace labels = refl
can_act-keep (p ∷ perms) kind action namespace labels =
    ground (arith, can_act-keep perms kind action namespace labels)

fits-none :
    (labels : Option Labels) (perms : List Permission)
    → some_of (fits none labels) perms
      ≡ some_of (λ p. label_selector_matches p.label_selector labels) perms
unfolding namespace_matches
fits-none labels [] = refl
fits-none labels (p ∷ perms) = ground (arith, fits-none labels perms)

-- Keeping the grants in scope is the namespace test of `canAct`.
fits-in_scope :
    (r : String) (labels : Option Labels) (perms : List Permission)
    → some_of (fits (some r) labels) perms
      ≡ some_of (λ p. label_selector_matches p.label_selector labels) (keep (in_scope r) perms)
unfolding namespace_matches in_scope
fits-in_scope r labels [] = refl
fits-in_scope r labels (p ∷ perms) = ground (arith, fits-in_scope r labels perms)

none_of_empty {ℓ} :
    {A : Type ℓ} (f : A → Bool) (xs : List A) → is_empty xs ≡ true → some_of f xs ≡ false
unfolding is_empty
none_of_empty f [] e = refl
none_of_empty f (x ∷ xs) e = cc

module _ (accepts : String → Option Labels → Bool) (labels : Option Labels) where
  plan_namespaced-returns :
      (perms : List Permission) (requested namespace : Option String)
      → All (IsReadable accepts) perms
      → IsPlainName requested
      → InScope namespaced requested namespace
      → plan_returns accepts namespace labels (plan_namespaced perms requested)
        ≡ some_of (fits namespace labels) perms
  unfolding plan_namespaced
  plan_namespaced-returns perms none namespace h n (m, e) =
      rw e (plan_all-returns accepts labels m [] perms tt h)
  plan_namespaced-returns perms (some r) namespace h n e = rw e (
      rw (fits-in_scope r labels perms) (elim (Bool-cases (is_empty (keep (in_scope r) perms))) [
        | inl nothing ↦ rw nothing (sym (none_of_empty _ _ nothing))
        | inr some_grant ↦ rw some_grant (
            plan_one-returns accepts labels (some r) (some r) _ n (==_refl r)
              (All-keep (IsReadable accepts) (in_scope r) perms h))
      ]))

  plan_applicable-returns :
      (scope : Scope) (perms : List Permission) (requested namespace : Option String)
      → All (IsReadable accepts) perms
      → IsPlainName requested
      → InScope scope requested namespace
      → plan_returns accepts namespace labels (plan_applicable perms scope requested)
        ≡ some_of (fits namespace labels) perms
  unfolding plan_applicable
  plan_applicable-returns cluster perms requested namespace h n e =
      rw e
        (plan_one-returns accepts labels none none perms tt refl h ∙ sym (fits-none labels perms))
  plan_applicable-returns namespaced perms requested namespace h n e =
      plan_namespaced-returns perms requested namespace h n e

-- A list plan returns exactly what the user may act on: for every object in the scope of the
-- request, the plan's requests to the API server return the object if and only if `canAct` allows
-- the action on it. The grants name namespaces that are neither empty nor hold a bar, and the
-- server reads each grant's selector in query form as the engine reads the selector itself.
pub plan_list-can_act :
    (accepts : String → Option Labels → Bool) (perms : List Permission) (kind action : String)
    (scope : Scope) (requested namespace : Option String) (labels : Option Labels)
    → All (IsReadable accepts) perms
    → IsPlainName requested
    → InScope scope requested namespace
    → plan_returns accepts namespace labels (plan_list perms kind scope action requested)
      ≡ can_act perms (record { type = kind; namespace = namespace; labels = labels }) action
unfolding plan_list
plan_list-can_act accepts perms kind action scope requested namespace labels h n e =
    rw (can_act-keep perms kind action namespace labels)
      (elim (Bool-cases (is_empty (keep (applicable kind action) perms))) [
        | inl nothing ↦ rw nothing (sym (none_of_empty _ _ nothing))
        | inr some_grant ↦ rw some_grant (
            plan_applicable-returns accepts labels scope _ requested namespace
              (All-keep (IsReadable accepts) (applicable kind action) perms h) n e)
      ])

-- ===== src/Permissions.antt =====
-- packages/api/src/auth/permission-engine.ts, roles.ts and groups.ts: who may act on what, and the
-- list requests that are made for a user. Types and actions are strings, as in
-- the stored `User` and `Group` objects. What the code awaits (the user's object, the groups) comes
-- as arguments.
pub mod Keys
pub mod Plans
pub mod Listing
pub mod Grants
pub mod Patches
use a5e.Base.{
  String, ◌<>◌, Bool, true, false, ◌&&◌, ◌||◌, Option, none, some, List, [], ◌∷◌, ◌++◌, map, ◌==◌,
  string_eq, if◌then◌else◌, some_of, keep, leb, ℕ,
}
use a5e.Base.Dict
use a5e.Base.Dict.{Dict}
use a5e.Descriptors.{Scope, namespaced, cluster}
use a5e.Labels.{
  LabelSelector, Labels, or_default, includes, label_selector_matches, label_selector_to_string,
}

pub record Permission : Type 0 where
  pub type : String
  pub namespaces : List String
  pub label_selector : Option LabelSelector
  pub actions : List String

pub data AppRole : Type 0 where
  no_role user admin : AppRole

abbrev role_order : AppRole → ℕ
role_order no_role = 0
role_order user = 1
role_order admin = 2

-- `roleAtLeast`
unfoldable pub role_at_least : AppRole → AppRole → Bool
role_at_least role least = leb (role_order least) (role_order role)

pub record Group : Type 0 where
  pub name : String
  pub permissions : List Permission

-- The parts of a `User` object that the engine reads.
pub record UserSpec : Type 0 where
  pub role : Option AppRole
  pub permissions : Option (List Permission)

-- `resolveRole`, given what `findUserBySession` returns.
unfoldable pub resolve_role : Option UserSpec → AppRole
resolve_role none = no_role
resolve_role (some u) = or_default no_role u.role

unfoldable pub matches_type : Permission → String → Bool
matches_type p type = p.type == "*" || p.type == type

unfoldable pub matches_action : Permission → String → Bool
unfolding includes
matches_action p action = includes p.actions "*" || includes p.actions action

is_empty {ℓ} : {A : Type ℓ} → List A → Bool
is_empty [] = true
is_empty (x ∷ xs) = false

unfoldable pub namespace_matches : Permission → Option String → Bool
unfolding is_empty includes
namespace_matches p none = true
namespace_matches p (some namespace) =
    if is_empty p.namespaces then true else includes p.namespaces namespace

pub direct_grants : Option UserSpec → List Permission
direct_grants none = []
direct_grants (some u) = or_default [] u.permissions

-- `.filter(…).flatMap((g) => g.permissions)`
group_grants : List String → List Group → List Permission
unfolding includes
group_grants names [] = []
group_grants names (g ∷ groups) =
    (if includes names g.name then g.permissions else []) ++ group_grants names groups

abbrev pub full_access : Permission
full_access = record { type = "*"; namespaces = []; label_selector = none; actions = "*" ∷ [] }

-- `resolveEffectivePermissions`. `given` is the optional `role` argument, `stored` the user's
-- object, `names` the session's `impersonateGroups`.
unfoldable pub resolve_effective_permissions :
    Option AppRole → Option UserSpec → Option (List String) → List Group → List Permission
unfolding resolve_role direct_grants group_grants
resolve_effective_permissions given stored names groups =
    let perms = direct_grants stored ++ group_grants (or_default [] names) groups in
    elim (or_default (resolve_role stored) given) [
      | admin ↦ perms ++ (full_access ∷ [])
      | _ ↦ perms
    ]

-- `hasAction`
unfoldable pub has_action : List Permission → String → String → Bool
unfolding matches_type matches_action
has_action perms type action = some_of (λ p. matches_type p type && matches_action p action) perms

pub record ActionTarget : Type 0 where
  pub type : String
  pub namespace : Option String
  pub labels : Option Labels

unfoldable pub allows : ActionTarget → String → Permission → Bool
unfolding matches_type matches_action namespace_matches label_selector_matches
allows target action p =
    matches_type p target.type
    && (matches_action p action
        && (namespace_matches p target.namespace
            && label_selector_matches p.label_selector target.labels))

-- `canAct`
unfoldable pub can_act : List Permission → ActionTarget → String → Bool
unfolding allows
can_act perms target action = some_of (allows target action) perms

pub record ListPlanEntry : Type 0 where
  pub namespace : Option String
  pub label_selector : Option String

pub data ListPlan : Type 0 where
  denied : ListPlan
  entries : List ListPlanEntry → ListPlan

-- The key of `dedupeEntries`.
entry_key : ListPlanEntry → String
entry_key e = or_default "" e.namespace <> ("|" <> or_default "" e.label_selector)

dedupe_from : Dict String ListPlanEntry → List ListPlanEntry → Dict String ListPlanEntry
unfolding entry_key Dict.has Dict.insert
dedupe_from seen [] = seen
dedupe_from seen (e ∷ es) =
    dedupe_from (if Dict.has (entry_key e) seen then seen else Dict.insert (entry_key e) e seen) es

dict_values : Dict String ListPlanEntry → List ListPlanEntry
dict_values = map (λ (k, e). e)

unfoldable pub dedupe_entries : List ListPlanEntry → List ListPlanEntry
unfolding dedupe_from dict_values
dedupe_entries es = dict_values (dedupe_from [] es)

unrestricted : Permission → Bool
unrestricted p = elim p.label_selector [ none ↦ true | some s ↦ false ]

abbrev entry_for : Option String → Permission → ListPlanEntry
entry_for namespace p = record {
  namespace = namespace;
  label_selector = label_selector_to_string p.label_selector;
}

abbrev entry : Option String → Option String → ListPlanEntry
entry namespace label_selector = record { namespace = namespace; label_selector = label_selector }

-- The branch of `planList` for grants that all speak of one collection: a namespace, or a kind
-- with none.
pub plan_one : Option String → List Permission → ListPlan
unfolding unrestricted dedupe_entries label_selector_to_string
plan_one namespace perms =
    if some_of unrestricted perms
    then entries (entry namespace none ∷ [])
    else entries (dedupe_entries (map (entry_for namespace) perms))

-- The entries that one grant adds to a list across all namespaces.
grant_entries : Permission → List ListPlanEntry
unfolding is_empty label_selector_to_string
grant_entries p =
    if is_empty p.namespaces
    then entry_for none p ∷ []
    else map (λ ns. entry_for (some ns) p) p.namespaces

-- The loop of `planList` across all namespaces, with its early return.
pub plan_all : List ListPlanEntry → List Permission → ListPlan
unfolding is_empty unrestricted grant_entries dedupe_entries
plan_all es [] = entries (dedupe_entries es)
plan_all es (p ∷ perms) =
    let rest = plan_all (es ++ grant_entries p) perms in
    if is_empty p.namespaces && unrestricted p then entries (entry none none ∷ []) else rest

in_scope : String → Permission → Bool
unfolding is_empty includes
in_scope namespace p = is_empty p.namespaces || includes p.namespaces namespace

plan_namespaced : List Permission → Option String → ListPlan
unfolding is_empty in_scope plan_one plan_all
plan_namespaced applicable none = plan_all [] applicable
plan_namespaced applicable (some namespace) =
    let here = keep (in_scope namespace) applicable in
    if is_empty here then denied else plan_one (some namespace) here

plan_applicable : List Permission → Scope → Option String → ListPlan
unfolding plan_one plan_namespaced
plan_applicable applicable cluster requested = plan_one none applicable
plan_applicable applicable namespaced requested = plan_namespaced applicable requested

-- `planList`
unfoldable pub plan_list : List Permission → String → Scope → String → Option String → ListPlan
unfolding matches_type matches_action is_empty plan_applicable
plan_list perms kind scope action requested =
    let applicable = keep (λ p. matches_type p kind && matches_action p action) perms in
    if is_empty applicable then denied else plan_applicable applicable scope requested

-- The loop of `mergedLabelsAfterPatch`; `none` is a `null` value of the patch.
apply_patch : Labels → List (String × Option String) → Labels
unfolding Dict.insert Dict.erase
apply_patch merged [] = merged
apply_patch merged ((key, none) ∷ rest) = apply_patch (Dict.erase key merged) rest
apply_patch merged ((key, some value) ∷ rest) = apply_patch (Dict.insert key value merged) rest

-- `mergedLabelsAfterPatch`, given the patch's `metadata.labels`.
unfoldable pub merged_labels_after_patch :
    Option Labels → Option (Dict String (Option String)) → Option Labels
unfolding apply_patch
merged_labels_after_patch current none = current
merged_labels_after_patch current (some patch_labels) =
    some (apply_patch (or_default [] current) patch_labels)

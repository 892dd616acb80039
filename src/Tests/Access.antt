-- ===== src/Tests/Access.antt =====
-- Grants, selectors and references of a small installation.
use a5e.Base.{
  String, ◌≡◌, refl, Bool, true, false, ◌||◌, Option, none, some, [], ◌∷◌, ◌==◌, string_eq,
  if◌then◌else◌, ◌↔◌, ◌⊎◌, some_of, option_eq,
}
use a5e.Base.Dict
use a5e.Base.Text.{apart}
use a5e.Base.Dict.{Dict}
use a5e.Base.Result.{Result, ok}
use a5e.Descriptors.{Descriptor, namespaced, cluster, descriptor_by_kind}
use a5e.Labels.{
  LabelSelector, in_values, Labels, label_selector_matches, label_selector_to_string, or_default,
}
use a5e.Labels.Matching.{Satisfies, label_selector_matches-Satisfies}
use a5e.Refs.{Ref, resolve_ref_namespace, resolve_ref}
use a5e.Refs.Isolation.{resolve_ref_namespace-own, resolve_ref-own}
use a5e.Permissions.{
  Permission, user, UserSpec, Group, ActionTarget, can_act, plan_list,
  resolve_effective_permissions, resolve_role, direct_grants, ListPlanEntry, dedupe_entries,
  merged_labels_after_patch,
}
use a5e.Permissions.Keys.{IsPlain, some_of-dedupe_entries}
use a5e.Permissions.Plans.{IsReadable, plan_returns}
use a5e.Permissions.Listing.{plan_list-can_act}
use a5e.Permissions.Grants.{can_act-resolve_effective_permissions, is_admin, group_allows}
use a5e.Permissions.Patches.{lookup-merged_labels_after_patch, patched, DistinctKeys}

abbrev web_selector : LabelSelector
web_selector = record {
  match_labels = some (("app", "web") ∷ []);
  match_expressions =
      some (record { key = "tier"; operator = in_values; values = some ("a" ∷ "b" ∷ []) } ∷ []);
}

abbrev web_labels : Labels
web_labels = ("tier", "b") ∷ ("app", "web") ∷ []

abbrev dev_grant : Permission
dev_grant = record {
  type = "AnsibleHost";
  namespaces = "dev" ∷ "test" ∷ [];
  label_selector = none;
  actions = "read" ∷ [];
}

abbrev web_grant : Permission
web_grant = record {
  type = "*";
  namespaces = [];
  label_selector = some web_selector;
  actions = "*" ∷ [];
}

-- A server that knows one selector.
abbrev accepts : String → Option Labels → Bool
accepts query labels =
    if query == "app=web,tier in (a,b)"
    then label_selector_matches (some web_selector) labels
    else false

dev-IsReadable : IsReadable accepts dev_grant
unfolding label_selector_to_string label_selector_matches
dev-IsReadable = record {
  names = (
    (λ e. cc, (apart "d" "|" refl, (apart "e" "|" refl, (apart "v" "|" refl, tt)))),
    (
      (
        λ e. cc,
        (apart "t" "|" refl, (apart "e" "|" refl, (apart "s" "|" refl, (apart "t" "|" refl, tt)))),
      ),
      tt,
    ),
  );
  query = λ e. cc;
  agrees = λ labels. refl;
}

web-IsReadable : IsReadable accepts web_grant
unfolding label_selector_to_string
web-IsReadable = record { names = tt; query = λ e. cc; agrees = λ labels. refl }

plan_list-can_act_example :
    plan_returns accepts
      (some "dev")
      (some web_labels)
      (plan_list (dev_grant ∷ web_grant ∷ []) "AnsibleHost" namespaced "read" none)
    ≡ can_act
        (dev_grant ∷ web_grant ∷ [])
        (record { type = "AnsibleHost"; namespace = some "dev"; labels = some web_labels })
        "read"
plan_list-can_act_example =
    plan_list-can_act accepts (dev_grant ∷ web_grant ∷ []) "AnsibleHost" "read" namespaced none
      (some "dev") (some web_labels) (dev-IsReadable, (web-IsReadable, tt)) tt ("dev", refl)

abbrev stored_user : UserSpec
stored_user = record { role = some user; permissions = some (dev_grant ∷ []) }

abbrev web_group : Group
web_group = record { name = "web"; permissions = web_grant ∷ [] }

abbrev target : ActionTarget
target = record { type = "AnsibleRun"; namespace = some "prod"; labels = some web_labels }

can_act-resolve_effective_permissions_example :
    can_act
      (resolve_effective_permissions none (some stored_user) (some ("web" ∷ [])) (web_group ∷ []))
      target
      "create"
    ≡ (is_admin (or_default (resolve_role (some stored_user)) none)
        || (can_act (direct_grants (some stored_user)) target "create"
            || some_of
                (group_allows (or_default [] (some ("web" ∷ []))) target "create")
                (web_group ∷ [])))
can_act-resolve_effective_permissions_example =
    can_act-resolve_effective_permissions none (some stored_user) (some ("web" ∷ []))
      (web_group ∷ []) target "create"

abbrev dev_entry : ListPlanEntry
dev_entry = record { namespace = some "dev"; label_selector = some "app=web" }

dev-IsPlain : IsPlain dev_entry
dev-IsPlain = record {
  named = (λ e. cc, (apart "d" "|" refl, (apart "e" "|" refl, (apart "v" "|" refl, tt))));
  selecting = λ e. cc;
}

abbrev in_dev : ListPlanEntry → Bool
in_dev e = e.namespace == some "dev"

some_of-dedupe_entries_example :
    some_of in_dev (dedupe_entries (dev_entry ∷ dev_entry ∷ []))
    ≡ some_of in_dev (dev_entry ∷ dev_entry ∷ [])
some_of-dedupe_entries_example =
    some_of-dedupe_entries in_dev (dev_entry ∷ dev_entry ∷ []) (dev-IsPlain, (dev-IsPlain, tt))

abbrev label_patch : Dict String (Option String)
label_patch = ("app", some "db") ∷ ("tier", none) ∷ []

label_patch_distinct : DistinctKeys label_patch
unfolding Dict.lookup
label_patch_distinct = (refl, (refl, tt))

lookup-merged_labels_after_patch_example :
    Dict.lookup "tier"
      (or_default [] (merged_labels_after_patch (some web_labels) (some label_patch)))
    ≡ patched
        (Dict.lookup "tier" (or_default [] (some label_patch)))
        (Dict.lookup "tier" (or_default [] (some web_labels)))
lookup-merged_labels_after_patch_example =
    lookup-merged_labels_after_patch "tier" (some web_labels) (some label_patch)
      label_patch_distinct

label_selector_matches-Satisfies_example :
    (label_selector_matches (some web_selector) (some web_labels) ≡ true)
    ↔ Satisfies web_selector (or_default [] (some web_labels))
label_selector_matches-Satisfies_example =
    label_selector_matches-Satisfies web_selector (some web_labels)

abbrev dev : String
dev = "dev"

abbrev prod : String
prod = "prod"

resolve_ref_namespace-own_example :
    (resolve_ref_namespace namespaced (some "prod") (some "dev") ≡ ok (some "dev"))
    ↔ ((some dev ≡ some dev) × ((some prod ≡ none) ⊎ (some prod ≡ some dev)))
resolve_ref_namespace-own_example = resolve_ref_namespace-own (some "prod") "dev" (some "dev")

-- A store whose objects are the paths that they were read from.
abbrev get : Descriptor → String → Option String → Result (String × Option String)
get d name namespace = ok (name, namespace)

abbrev playbook_ref : Ref
playbook_ref = record { kind = "AnsiblePlaybook"; name = "site"; namespace = none }

playbook_found : resolve_ref get playbook_ref (some dev) ≡ ok ("site", some dev)
unfolding resolve_ref descriptor_by_kind resolve_ref_namespace
playbook_found = refl

resolve_ref-own_example :
    (d : Descriptor) × (descriptor_by_kind "AnsiblePlaybook" ≡ some d)
    × ((d.scope ≡ cluster) × (get d "site" none ≡ ok ("site", some dev))
        ⊎ (d.scope ≡ namespaced) × (get d "site" (some dev) ≡ ok ("site", some dev)))
resolve_ref-own_example = resolve_ref-own get playbook_ref dev ("site", some dev) playbook_found

abbrev host_descriptor : Descriptor
host_descriptor = record {
  kind = "AnsibleHost";
  plural = "ansiblehosts";
  singular = "ansiblehost";
  scope = namespaced;
  paired_with = none;
}

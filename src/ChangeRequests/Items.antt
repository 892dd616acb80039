-- ===== src/ChangeRequests/Items.antt =====
-- packages/api/src/modules/change-requests.ts: the changes of a request, one by one. The guard of the
-- client of packages/k8s-client/src/customResourceClient.ts is part of each.
use a5e.Base.{
  ℕ, suc, String, ◌<>◌, Bool, true, false, not, ◌&&◌, Option, none, some, List, [], ◌∷◌,
  if◌then◌else◌,
}
use a5e.Base.Result.{Result, ok, err, thrown}
use a5e.Labels.{Labels}
use a5e.Descriptors.{Descriptor, Scope, namespaced, cluster, descriptor_by_kind}
use a5e.Permissions.{Permission, ActionTarget, can_act}
use a5e.Users.Names.{claimed}
use a5e.ChangeRequests.{
  ChangeAction, create_item, update_item, delete_item, Body, ChangeItem, ItemStatus, item_applied,
  item_skipped, item_failed, ItemResult,
}
use a5e.Api.{
  Server, Act, call, throw, pure, attempt, ◌>>=◌, create_object, patch_object, delete_object,
}

abbrev body_labels : Option Body → Option Labels
body_labels none = none
body_labels (some body) = body.labels

-- `itemTarget`
unfoldable pub item_target : ChangeItem → ActionTarget
item_target item = record {
  type = item.type;
  namespace = item.namespace;
  labels = body_labels item.body;
}

-- The indices of the items that the permissions do not cover.
unfoldable pub denied_items : List Permission → ℕ → List ChangeItem → List ℕ
denied_items perms index [] = []
denied_items perms index (item ∷ items) =
    let rest = denied_items perms (suc index) items in
    if not (can_act perms (item_target item) "approve") then index ∷ rest else rest

is_missing : Option String → Bool
unfolding claimed
is_missing name = elim (claimed name) [ none ↦ true | some _ ↦ false ]

has_no_body : Option Body → Bool
has_no_body none = true
has_no_body (some body) = false

action_word : ChangeAction → String
action_word create_item = "create"
action_word update_item = "update"
action_word delete_item = "delete"

needs_name : ChangeAction → Bool
needs_name create_item = false
needs_name update_item = true
needs_name delete_item = true

needs_body : ChangeAction → Bool
needs_body create_item = true
needs_body update_item = true
needs_body delete_item = false

is_unknown : String → Bool
is_unknown type = elim (descriptor_by_kind type) [ none ↦ true | some _ ↦ false ]

-- Why a proposed item is refused, if it is.
unfoldable pub invalid_item : ChangeItem → Option String
unfolding is_unknown is_missing has_no_body needs_name needs_body action_word
invalid_item item =
    if is_unknown item.type
    then some ("unknown resource type \"" <> (item.type <> "\""))
    else if needs_name item.action && is_missing item.name
    then some ("\"name\" is required for a " <> (action_word item.action <> " item"))
    else if needs_body item.action && has_no_body item.body
    then some ("\"body\" is required for a " <> (action_word item.action <> " item"))
    else none

unfoldable pub first_invalid : List ChangeItem → Option String
first_invalid [] = none
first_invalid (item ∷ items) = elim (invalid_item item) [
  | some error ↦ some error
  | none ↦ first_invalid items
]

-- The namespace of a request for an object of the kind: none for a kind of the cluster.
scoped : Scope → Descriptor → Option String → Result (Option String)
scoped cluster d namespace = ok none
scoped namespaced d none = err (thrown (d.kind <> " is namespaced — namespace is required"))
scoped namespaced d (some namespace) = ok (some namespace)

unfoldable pub request_namespace : Descriptor → Option String → Result (Option String)
unfolding scoped claimed
request_namespace d namespace = scoped d.scope d (claimed namespace)

abbrev pub threw : Result (Unit {0}) → Bool
threw (ok _) = false
threw (err e) = true

abbrev pub status_of : Result (Unit {0}) → ItemStatus
status_of (ok _) = item_applied
status_of (err e) = item_failed e.message

module _ {W : Type 0} (srv : Server W) where
  unfoldable pub perform_item : ChangeItem → Descriptor → Option String → Act W Unit
  perform_item item d namespace = elim item.action [
    | create_item ↦ call srv (create_object d item.body namespace)
    | update_item ↦ call srv (patch_object d item.name item.body namespace)
    | delete_item ↦ call srv (delete_object d item.name namespace)
  ]

  unfoldable pub perform_in : ChangeItem → Descriptor → Result (Option String) → Act W Unit
  perform_in item d (ok namespace) = perform_item item d namespace
  perform_in item d (err e) = throw e

  -- The body of the `try` in the loop.
  unfoldable pub apply_item : ChangeItem → Act W Unit
  apply_item item = elim (descriptor_by_kind item.type) [
    | none ↦ throw (thrown ("unknown resource type \"" <> (item.type <> "\"")))
    | some d ↦ perform_in item d (request_namespace d item.namespace)
  ]

  -- The loop over the changes, from an index, with `aborted`.
  unfoldable pub apply_items : ℕ → Bool → List ChangeItem → Act W (List ItemResult)
  apply_items index aborted [] = pure []
  apply_items index true (item ∷ items) = do
    rest ← apply_items (suc index) true items
    pure (record { index = index; status = item_skipped } ∷ rest)
  apply_items index false (item ∷ items) = do
    outcome ← attempt (apply_item item)
    rest ← apply_items (suc index) (threw outcome) items
    pure (record { index = index; status = status_of outcome } ∷ rest)

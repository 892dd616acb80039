-- ===== src/ChangeRequests/UserChanges.antt =====
-- Changes of `User` objects, in packages/api/src/modules/change-requests.ts.
use a5e.Base.{
  ◌≡◌, ◌≢◌, refl, sym, ap, ◌∙◌, String, Bool, true, false, ◌&&◌, ◌||◌, Option, none, some, List, [],
  ◌∷◌, some_of, In, Memᴰ,
}
use a5e.Descriptors.{descriptor_by_kind}
use a5e.Permissions.{Permission, ActionTarget, allows, namespace_matches, can_act}
use a5e.ChangeRequests.{ChangeItem, update_item, Body}
use a5e.ChangeRequests.Items.{item_target, invalid_item, denied_items}

some_of-In :
    (target : ActionTarget) (action : String) (perms : List Permission) (p : Permission)
    → In p perms
    → allows target action p ≡ true
    → some_of (allows target action) perms ≡ true
some_of-In target action [] p m h = elim m [ ]
some_of-In target action (q ∷ perms) p (Memᴰ.head e) h =
    rw (ap (allows target action) (sym e) ∙ h) refl
some_of-In target action (q ∷ perms) p (Memᴰ.tail m) h =
    rw (some_of-In target action perms p m h) (or_true (allows target action q))
  where
    or_true : (b : Bool) → (b || true) ≡ true
    or_true true = refl
    or_true false = refl

-- A grant on every type, for approvals, without namespaces and labels. Its holder need not be an admin.
abbrev pub approve_any : Permission
approve_any = record {
  type = "*";
  namespaces = [];
  label_selector = none;
  actions = "approve" ∷ [];
}

any_allows : (target : ActionTarget) → allows target "approve" approve_any ≡ true
unfolding allows
any_allows target = in_namespace target.namespace
  where
    in_namespace :
        (namespace : Option String) → (namespace_matches approve_any namespace && true) ≡ true
    in_namespace none = refl
    in_namespace (some namespace) = refl

abbrev pub user_change : Option String → String → Body → ChangeItem
user_change namespace name body = record {
  action = update_item;
  type = "User";
  namespace = namespace;
  name = some name;
  body = some body;
}

-- A change of a `User` object, such as one that sets a role, is a valid proposal, and whoever holds a grant
-- to approve on every type may approve it.
pub user_change-approved :
    (perms : List Permission) (namespace : Option String) (name : String) (body : Body)
    → In approve_any perms
    → name ≢ ""
    → (invalid_item (user_change namespace name body) ≡ none)
      × (denied_items perms 0 (user_change namespace name body ∷ []) ≡ [])
unfolding denied_items can_act invalid_item descriptor_by_kind
user_change-approved perms namespace String.[] body m k = absurd (k refl)
user_change-approved perms namespace (String.◌∷◌ c s) body m k = (
  refl,
  rw
      (some_of-In (item_target (user_change namespace (String.◌∷◌ c s) body)) "approve" perms
        approve_any m (any_allows (item_target (user_change namespace (String.◌∷◌ c s) body))))
      refl,
)

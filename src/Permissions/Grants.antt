-- ===== src/Permissions/Grants.antt =====
-- `resolveEffectivePermissions` and the role order.
use a5e.Base.{
  String, ◌≡◌, refl, Bool, true, false, ◌&&◌, ◌||◌, Option, List, [], ◌∷◌, ◌++◌, arith, some_of,
  if◌then◌else◌, ◌∙◌, ap,
}
use a5e.Labels.{or_default, includes}
use a5e.Permissions.{
  Permission, AppRole, admin, Group, UserSpec, full_access, ActionTarget, can_act,
  namespace_matches, group_grants, direct_grants, resolve_role, resolve_effective_permissions,
}

can_act-append :
    (xs ys : List Permission) (t : ActionTarget) (action : String)
    → can_act (xs ++ ys) t action ≡ (can_act xs t action || can_act ys t action)
unfolding can_act
can_act-append [] ys t action = refl
can_act-append (p ∷ xs) ys t action = ground (arith, can_act-append xs ys t action)

full_access-allows :
    (t : ActionTarget) (action : String) → can_act (full_access ∷ []) t action ≡ true
unfolding can_act namespace_matches
full_access-allows t action = ground arith

can_act-nil : (t : ActionTarget) (action : String) → can_act [] t action ≡ false
unfolding can_act
can_act-nil t action = refl

-- A group of which the session is a member grants the action.
abbrev pub group_allows : List String → ActionTarget → String → Group → Bool
group_allows names t action g = includes names g.name && can_act g.permissions t action

can_act-group_grants :
    (names : List String) (groups : List Group) (t : ActionTarget) (action : String)
    → can_act (group_grants names groups) t action ≡ some_of (group_allows names t action) groups
unfolding group_grants
can_act-group_grants names [] t action = can_act-nil t action
can_act-group_grants names (g ∷ groups) t action = ground (
  arith,
  can_act-append (if includes names g.name then g.permissions else []) (group_grants names groups) t
      action,
  can_act-group_grants names groups t action,
)

abbrev pub is_admin : AppRole → Bool
is_admin admin = true
is_admin _ = false

-- What a session may do: everything for an admin, whatever is stored; otherwise exactly what a
-- direct grant of the user's object or a grant of some group of the session allows. The role is the
-- one given, or else the stored one, or else none.
pub can_act-resolve_effective_permissions :
    (given : Option AppRole) (stored : Option UserSpec) (names : Option (List String))
    (groups : List Group) (t : ActionTarget) (action : String)
    → can_act (resolve_effective_permissions given stored names groups) t action ≡ (
        is_admin (or_default (resolve_role stored) given)
        || (can_act (direct_grants stored) t action
            || some_of (group_allows (or_default [] names) t action) groups))
unfolding resolve_effective_permissions
can_act-resolve_effective_permissions given stored names groups t action =
    by_role (or_default (resolve_role stored) given)
  where
    perms : List Permission
    perms = direct_grants stored ++ group_grants (or_default [] names) groups

    by_role :
        (role : AppRole)
        → can_act (elim role [ admin ↦ perms ++ (full_access ∷ []) | _ ↦ perms ]) t action ≡ (
            is_admin role
            || (can_act (direct_grants stored) t action
                || some_of (group_allows (or_default [] names) t action) groups))
    by_role admin =
        ground
          (arith, can_act-append perms (full_access ∷ []) t action, full_access-allows t action)
    by_role _ =
        can_act-append (direct_grants stored) _ t action
        ∙ ap (◌||◌ (can_act (direct_grants stored) t action))
            (can_act-group_grants (or_default [] names) groups t action)

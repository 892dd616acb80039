-- ===== src/Users/Logins.antt =====
-- What a login and the clean-up at the start may write, of packages/api/src/auth/user-store.ts.
use mathlib.Core.Option.{some-injective}
use a5e.Base.{
  ◌≡◌, refl, subst, String, Bool, true, false, not, ◌&&◌, Option, none, some, List, [], ◌∷◌, find,
  keep as keep_if, ◌==◌, ==_iff, string_eq, option_eq, Bool-cases, inl, inr, &&-split, arith, All,
}
use a5e.Labels.{includes}
use a5e.Users.{UserCr, UserSpec, UserPatch, put, no_patch, is_local_account}
use a5e.Users.Text.{has_prefix}
use a5e.Users.Names.{oidc_cr_name, claimed}
use a5e.Users.Store.{
  is_tracker_for, delete_user_cr, delete_tracker_from, find_account_by_sub, link_account_to_sub,
  link, has_email, prune_superseded_oidc_identities, delete_superseded, delete_all, is_superseded,
  claimed_subs,
}
use a5e.Api.{
  Server, Call, call, throw, pure, is_not_found, get_user, list_users, create_user, patch_user,
  delete_user, list_groups, read_password_secret, replace_password_secret, create_password_secret,
  hash_password, verify_hash, read_settings, get_change_request, create_change_request,
  delete_change_request, patch_change_status, create_object, patch_object, delete_object,
  get_object, replace_object, merge_object, get_group, replace_group, create_group,
  delete_group_object, patch_settings, create_settings,
}
use a5e.Effects.Emits.{
  Emits, Emits-pure, Emits-bind, Emits-call, Emits-if, Emits-try_catch, Emits-throw, Emits-option,
}

-- The calls on users that an action makes satisfy predicates of their own, and there are no others.
abbrev pub OnUsers :
    (String → UserSpec → Type 0) → (String → UserPatch → Type 0) → (String → Type 0) → Call → Type 0
OnUsers creates patches deletes (get_user name) = Unit
OnUsers creates patches deletes list_users = Unit
OnUsers creates patches deletes (create_user name spec) = creates name spec
OnUsers creates patches deletes (patch_user name patch) = patches name patch
OnUsers creates patches deletes (delete_user name) = deletes name
OnUsers creates patches deletes list_groups = ⊥
OnUsers creates patches deletes read_password_secret = ⊥
OnUsers creates patches deletes (replace_password_secret _) = ⊥
OnUsers creates patches deletes (create_password_secret _) = ⊥
OnUsers creates patches deletes (hash_password _) = ⊥
OnUsers creates patches deletes (verify_hash _ _) = ⊥
OnUsers creates patches deletes read_settings = ⊥
OnUsers creates patches deletes (get_change_request _) = ⊥
OnUsers creates patches deletes (create_change_request _ _ _) = ⊥
OnUsers creates patches deletes (delete_change_request _) = ⊥
OnUsers creates patches deletes (patch_change_status _ _) = ⊥
OnUsers creates patches deletes (create_object _ _ _) = ⊥
OnUsers creates patches deletes (patch_object _ _ _ _) = ⊥
OnUsers creates patches deletes (delete_object _ _ _) = ⊥
OnUsers creates patches deletes (get_group _) = ⊥
OnUsers creates patches deletes (replace_group _ _) = ⊥
OnUsers creates patches deletes (create_group _ _) = ⊥
OnUsers creates patches deletes (delete_group_object _) = ⊥
OnUsers creates patches deletes (patch_settings _) = ⊥
OnUsers creates patches deletes (create_settings _) = ⊥
OnUsers creates patches deletes (get_object _ _ _) = ⊥
OnUsers creates patches deletes (replace_object _ _ _ _) = ⊥
OnUsers creates patches deletes (merge_object _ _ _ _) = ⊥

-- Deleted is only the tracker of a sub, never a local account.
abbrev pub IsTrackerName : String → Type 0
IsTrackerName name =
    ((sub : String) × (name ≡ oidc_cr_name sub)) × (has_prefix "local-" name ≡ false)

-- A link sets the `sub` of a local account, and nothing else.
abbrev pub LinksOnly : String → Call → Type 0
LinksOnly sub =
    OnUsers (λ name spec. ⊥)
      (λ name patch.
        (has_prefix "local-" name ≡ true) × (patch ≡ record no_patch { sub = put sub }))
      IsTrackerName

find-true : (p : UserCr → Bool) (us : List UserCr) (u : UserCr) → find p us ≡ some u → p u ≡ true
find-true p [] u e = cc
find-true p (v ∷ us) u e = elim (Bool-cases (p v)) [
  | inl y ↦ subst (λ x. p x ≡ true) (some-injective v u (rw y at e)) y
  | inr n ↦ find-true p us u (rw n at e)
]

module _ {W : Type 0} (srv : Server W) (sub : String) where
  tracker_name : (u : UserCr) (s : String) → is_tracker_for u s ≡ true → IsTrackerName u.name
  unfolding is_tracker_for is_local_account
  tracker_name u s h =
      let (other, rest) = &&-split (not (has_prefix "local-" u.name)) _ h in
      let (same, named) = &&-split (u.spec.sub == some s) _ rest in
      ((s, (==_iff u.name (oidc_cr_name s)).0 named), not_true (has_prefix "local-" u.name) other)
    where
      not_true : (b : Bool) → not b ≡ true → b ≡ false
      not_true b h = ground arith

  delete_user_cr-LinksOnly :
      (name : String) → IsTrackerName name → Emits (LinksOnly sub) (delete_user_cr srv name)
  unfolding delete_user_cr
  delete_user_cr-LinksOnly name h =
      Emits-try_catch (call srv (delete_user name)) _ (Emits-call srv (delete_user name) h) (λ e.
        Emits-if (is_not_found e) (pure tt) (throw e) (λ _. Emits-pure tt) (λ _. Emits-throw e))

  delete_tracker_from-LinksOnly :
      (users : List UserCr) (s : String) → Emits (LinksOnly sub) (delete_tracker_from srv users s)
  unfolding delete_tracker_from
  delete_tracker_from-LinksOnly users s =
      Emits-option (find (λ u. is_tracker_for u s) users) (pure tt) (λ u. delete_user_cr srv u.name)
        (Emits-pure tt)
        (λ u e.
          delete_user_cr-LinksOnly u.name
            (tracker_name u s (find-true (λ v. is_tracker_for v s) users u e)))

  find_account_by_sub-LinksOnly : Emits (LinksOnly sub) (find_account_by_sub srv sub)
  unfolding find_account_by_sub
  find_account_by_sub-LinksOnly =
      Emits-bind (call srv list_users) _ (Emits-call srv list_users tt) (λ users.
        Emits-option (find _ users) (pure none) _ (Emits-pure none) (λ u e.
          Emits-bind (delete_tracker_from srv users sub) _ (delete_tracker_from-LinksOnly users sub)
            (λ _. Emits-pure _)))

  link-LinksOnly :
      (to_lower : String → String) (users : List UserCr) (match : UserCr)
      → is_local_account match ≡ true
      → Emits (LinksOnly sub) (link srv to_lower users match sub)
  unfolding link is_local_account
  link-LinksOnly to_lower users match h =
      Emits-option (claimed match.spec.sub) _ (λ linked. pure _)
        (Emits-bind (call srv (patch_user match.name _)) _
          (Emits-call srv (patch_user match.name _) (h, refl))
          (λ _.
            Emits-bind (delete_tracker_from srv users sub) _
              (delete_tracker_from-LinksOnly users sub) (λ _. Emits-pure _)))
        (λ linked e. Emits-pure _)

  link_account_to_sub-LinksOnly :
      (to_lower : String → String) (email : Option String) (verified : Bool)
      → Emits (LinksOnly sub) (link_account_to_sub srv to_lower email verified sub)
  unfolding link_account_to_sub has_email
  link_account_to_sub-LinksOnly to_lower email false = Emits-pure none
  link_account_to_sub-LinksOnly to_lower email true =
      Emits-option (claimed _) (pure none) _ (Emits-pure none) (λ wanted w.
        Emits-bind (call srv list_users) _ (Emits-call srv list_users tt) (λ users.
          Emits-option (find _ users) (pure none) _ (Emits-pure none) (λ u e.
            link-LinksOnly to_lower users u
              (&&-split (is_local_account u) _
                (find-true (has_email srv to_lower wanted) users u e)).0)))

  delete_all-LinksOnly :
      (us : List UserCr)
      → All (λ u. IsTrackerName u.name) us
      → Emits (LinksOnly sub) (delete_all srv us)
  unfolding delete_all
  delete_all-LinksOnly [] h = Emits-pure tt
  delete_all-LinksOnly (u ∷ us) (h, hs) =
      Emits-bind (delete_user_cr srv u.name) _ (delete_user_cr-LinksOnly u.name h)
        (λ _. delete_all-LinksOnly us hs)

  superseded_name :
      (subs : List String) (u : UserCr) (o : Option String)
      → (elim (claimed o) as (λ _. Bool) [
        | none ↦ false
        | some s ↦ includes subs s && is_tracker_for u s
      ])
        ≡ true
      → IsTrackerName u.name
  superseded_name subs u o y = tracked_name (claimed o) y
    where
      tracked_name :
          (o : Option String)
          → (elim o as (λ _. Bool) [
            | none ↦ false
            | some s ↦ includes subs s && is_tracker_for u s
          ])
            ≡ true
          → IsTrackerName u.name
      tracked_name none y = cc
      tracked_name (some s) y = tracker_name u s (&&-split (includes subs s) _ y).1

  superseded_names :
      (subs : List String) (us : List UserCr)
      → All (λ u. IsTrackerName u.name) (keep_if (is_superseded subs) us)
  unfolding is_superseded
  superseded_names subs [] = tt
  superseded_names subs (u ∷ us) = elim (Bool-cases (is_superseded subs u)) [
    | inl y ↦ rw y (superseded_name subs u u.spec.sub y, superseded_names subs us)
    | inr n ↦ rw n (superseded_names subs us)
  ]

  prune-LinksOnly : Emits (LinksOnly sub) (prune_superseded_oidc_identities srv)
  unfolding prune_superseded_oidc_identities delete_superseded
  prune-LinksOnly =
      Emits-bind (call srv list_users) _ (Emits-call srv list_users tt)
        (λ users. superseded users (claimed_subs users))
    where
      superseded :
          (users : List UserCr) (subs : List String)
          → Emits (LinksOnly sub) (delete_superseded srv subs users)
      superseded users [] = Emits-pure tt
      superseded users (s ∷ subs) = delete_all-LinksOnly _ (superseded_names (s ∷ subs) users)

  -- The sign-on of a known identity, the link of a new one and the clean-up at the start make no calls but
  -- these on users: they read, a link sets the `sub` of a local account and no other field, and what is
  -- deleted is the tracking object of some `sub` and no local account.
  pub sign_on-LinksOnly :
      (to_lower : String → String) (email : Option String) (verified : Bool)
      → Emits (LinksOnly sub) (find_account_by_sub srv sub)
        × Emits (LinksOnly sub) (link_account_to_sub srv to_lower email verified sub)
        × Emits (LinksOnly sub) (prune_superseded_oidc_identities srv)
  sign_on-LinksOnly to_lower email verified = (
    find_account_by_sub-LinksOnly,
    link_account_to_sub-LinksOnly to_lower email verified,
    prune-LinksOnly,
  )

-- ===== src/ChangeRequests/Approval.antt =====
-- What an approval may write, in packages/api/src/modules/change-requests.ts.
use a5e.Base.{
  ℕ, suc, ◌≡◌, refl, ◌⊎◌, inl, inr, String, Bool, true, false, Option, none, some, List, [], ◌∷◌,
  ◌<>◌, All, In, Memᴰ, Bool-cases,
}
use a5e.Base.Result.{Result, ok, err}
use a5e.Descriptors.{Descriptor, descriptor_by_kind}
use a5e.Permissions.{AppRole, Permission, can_act}
use a5e.Sessions.{Session}
use a5e.ChangeRequests.{
  ChangeItem, ChangeRequest, ChangeAction, create_item, update_item, delete_item, ReviewStatus,
}
use a5e.ChangeRequests.Items.{
  item_target, denied_items, apply_item, apply_items, perform_item, perform_in, request_namespace,
  threw,
}
use a5e.ChangeRequests.Review.{
  error_answer, closed_as, approve_loaded, decline_loaded, apply_if_allowed, apply_changes,
  review_phase, review,
}
use a5e.Api.{
  Server, Act, Call, call, now, throw, attempt, pure, get_user, list_users, create_user, patch_user,
  delete_user, list_groups, read_password_secret, replace_password_secret, create_password_secret,
  hash_password, verify_hash, read_settings, get_change_request, create_change_request,
  delete_change_request, patch_change_status, create_object, patch_object, delete_object,
  get_object, replace_object, merge_object, get_group, replace_group, create_group,
  delete_group_object, patch_settings, create_settings,
}
use a5e.Effects.{Trace}
use a5e.Effects.Emits.{
  Emits, Emits-pure, Emits-bind, Emits-call, Emits-now, Emits-throw, Emits-option, Emits-attempt,
}

-- The call is the one that the change asks for.
abbrev pub AsksFor : ChangeItem → Call → Type 0
AsksFor item (create_object d body namespace) =
    (item.action ≡ create_item) × (descriptor_by_kind item.type ≡ some d) × (body ≡ item.body)
AsksFor item (patch_object d name body namespace) =
    (item.action ≡ update_item)
    × (descriptor_by_kind item.type ≡ some d)
    × (name ≡ item.name)
    × (body ≡ item.body)
AsksFor item (delete_object d name namespace) =
    (item.action ≡ delete_item) × (descriptor_by_kind item.type ≡ some d) × (name ≡ item.name)
AsksFor item (get_group _) = ⊥
AsksFor item (replace_group _ _) = ⊥
AsksFor item (create_group _ _) = ⊥
AsksFor item (delete_group_object _) = ⊥
AsksFor item (patch_settings _) = ⊥
AsksFor item (create_settings _) = ⊥
AsksFor item (get_object _ _ _) = ⊥
AsksFor item (replace_object _ _ _ _) = ⊥
AsksFor item (merge_object _ _ _ _) = ⊥
AsksFor item (get_user _) = ⊥
AsksFor item list_users = ⊥
AsksFor item (create_user _ _) = ⊥
AsksFor item (patch_user _ _) = ⊥
AsksFor item (delete_user _) = ⊥
AsksFor item list_groups = ⊥
AsksFor item read_password_secret = ⊥
AsksFor item (replace_password_secret _) = ⊥
AsksFor item (create_password_secret _) = ⊥
AsksFor item (hash_password _) = ⊥
AsksFor item (verify_hash _ _) = ⊥
AsksFor item read_settings = ⊥
AsksFor item (get_change_request _) = ⊥
AsksFor item (create_change_request _ _ _) = ⊥
AsksFor item (delete_change_request _) = ⊥
AsksFor item (patch_change_status _ _) = ⊥

-- Calls of an approval of these changes under these permissions: each change may be approved, and the call
-- is one that a change asks for, or the write of the request's own status.
abbrev pub Approved : List Permission → String → List ChangeItem → Call → Type 0
Approved perms name changes c =
    All (λ item. can_act perms (item_target item) "approve" ≡ true) changes
    × (((item : ChangeItem) × In item changes × AsksFor item c)
        ⊎ ((status : ReviewStatus) × (c ≡ patch_change_status name status)))

none-denied :
    (perms : List Permission) (index : ℕ) (items : List ChangeItem)
    → denied_items perms index items ≡ []
    → All (λ item. can_act perms (item_target item) "approve" ≡ true) items
unfolding denied_items
none-denied perms index [] e = tt
none-denied perms index (item ∷ items) e =
    elim (Bool-cases (can_act perms (item_target item) "approve")) [
      | inl y ↦ (y, none-denied perms (suc index) items (rw y at e))
      | inr n ↦
          let e' : index ∷ denied_items perms (suc index) items ≡ [] = rw n at e in
          absurd (cons_nil index (denied_items perms (suc index) items) e')
    ]
  where
    cons_nil : (i : ℕ) (is : List ℕ) → i ∷ is ≡ [] → ⊥
    cons_nil i is e = cc

module _ {W : Type 0} (srv : Server W) (perms : List Permission) (name : String)
    (changes : List ChangeItem)
    (allowed : All (λ item. can_act perms (item_target item) "approve" ≡ true) changes) where
  perform_item-Approved :
      (item : ChangeItem) (d : Descriptor) (namespace : Option String)
      → In item changes
      → descriptor_by_kind item.type ≡ some d
      → Emits (Approved perms name changes) (perform_item srv item d namespace)
  unfolding perform_item
  perform_item-Approved item d namespace m e = by_action item.action refl
    where
      by_action :
          (a : ChangeAction)
          → item.action ≡ a
          → Emits (Approved perms name changes) (elim a as (λ _. Act W Unit) [
            | create_item ↦ call srv (create_object d item.body namespace)
            | update_item ↦ call srv (patch_object d item.name item.body namespace)
            | delete_item ↦ call srv (delete_object d item.name namespace)
          ])
      by_action create_item is =
          Emits-call srv (create_object d item.body namespace)
            (allowed, inl (item, m, (is, e, refl)))
      by_action update_item is =
          Emits-call srv (patch_object d item.name item.body namespace)
            (allowed, inl (item, m, (is, e, refl, refl)))
      by_action delete_item is =
          Emits-call srv (delete_object d item.name namespace)
            (allowed, inl (item, m, (is, e, refl)))

  perform_in-Approved :
      (item : ChangeItem) (d : Descriptor) (r : Result (Option String))
      → In item changes
      → descriptor_by_kind item.type ≡ some d
      → Emits (Approved perms name changes) (perform_in srv item d r)
  unfolding perform_in
  perform_in-Approved item d (ok namespace) m e = perform_item-Approved item d namespace m e
  perform_in-Approved item d (err f) m e = Emits-throw f

  apply_item-Approved :
      (item : ChangeItem)
      → In item changes
      → Emits (Approved perms name changes) (apply_item srv item)
  unfolding apply_item
  apply_item-Approved item m =
      Emits-option (descriptor_by_kind item.type) (throw _) _ (Emits-throw _)
        (λ d e. perform_in-Approved item d (request_namespace d item.namespace) m e)

  apply_items-Approved :
      (index : ℕ) (aborted : Bool) (items : List ChangeItem)
      → ((item : ChangeItem) → In item items → In item changes)
      → Emits (Approved perms name changes) (apply_items srv index aborted items)
  unfolding apply_items
  apply_items-Approved index aborted [] sub = Emits-pure []
  apply_items-Approved index true (item ∷ items) sub =
      Emits-bind (apply_items srv (suc index) true items) _
        (apply_items-Approved (suc index) true items (λ x m. sub x (Memᴰ.tail m)))
        (λ rest. Emits-pure _)
  apply_items-Approved index false (item ∷ items) sub =
      Emits-bind (attempt (apply_item srv item)) _
        (Emits-attempt (apply_item srv item) (apply_item-Approved item (sub item (Memᴰ.head refl))))
        (λ outcome.
          Emits-bind (apply_items srv (suc index) (threw outcome) items) _
            (apply_items-Approved (suc index) (threw outcome) items (λ x m. sub x (Memᴰ.tail m)))
            (λ rest. Emits-pure _))

  apply_changes-Approved :
      (session : Session)
      → Emits (Approved perms name changes) (apply_changes srv name session changes)
  unfolding apply_changes
  apply_changes-Approved session =
      Emits-bind (apply_items srv 0 false changes) _
        (apply_items-Approved 0 false changes (λ item m. m))
        (λ results. Emits-bind (now srv) _ (Emits-now srv) (λ time.
          Emits-bind
            (call srv (
              patch_change_status name
                (review (review_phase results) session time none (some results))))
            _ (Emits-call srv (patch_change_status name _) (allowed, inr (_, refl)))
            (λ _. Emits-pure _)))

module _ {W : Type 0} (srv : Server W) where
  by_denied :
      (perms : List Permission) (name : String) (session : Session) (changes : List ChangeItem)
      (denied : List ℕ)
      → denied_items perms 0 changes ≡ denied
      → Emits (Approved perms name changes) (apply_if_allowed srv name session changes denied)
  unfolding apply_if_allowed
  by_denied perms name session changes [] e =
      apply_changes-Approved srv perms name changes (none-denied perms 0 changes e) session
  by_denied perms name session changes (i ∷ is) e = Emits-pure _

  -- Under the permissions that are read, an approval makes no call but these, and none at all unless the
  -- permissions cover every change: what a change of the request asks for, of its kind, name and body, and
  -- the write of the request's own status.
  pub apply_if_allowed-Approved :
      (perms : List Permission) (name : String) (session : Session) (changes : List ChangeItem)
      → Emits
          (Approved perms name changes)
          (apply_if_allowed srv name session changes (denied_items perms 0 changes))
  apply_if_allowed-Approved perms name session changes =
      by_denied perms name session changes (denied_items perms 0 changes) refl

  -- A request that is no longer pending is neither approved nor declined again: no call is made.
  pub closed-no_call :
      (name phase : String) (reason : Option String) (session : Session) (role : AppRole)
      (cr : ChangeRequest) (t : Trace Call W)
      → closed_as cr.phase ≡ some phase
      → (approve_loaded srv name session role cr t
          ≡ (ok (error_answer 409 ("already " <> phase)), t))
        × (decline_loaded srv name reason session role cr t
            ≡ (ok (error_answer 409 ("already " <> phase)), t))
  unfolding approve_loaded decline_loaded pure
  closed-no_call name phase reason session role cr t e =
      (rw (e, approve_loaded) refl, rw (e, decline_loaded) refl)

-- ===== src/ChangeRequests/Review.antt =====
-- packages/api/src/modules/change-requests.ts: the routes that create, withdraw, approve and decline.
-- zod's reading of the proposed changes is a parameter of the request: the changes, or its message.
use a5e.Base.{
  ℕ, String, ◌<>◌, Bool, true, false, not, ◌&&◌, Option, none, some, List, [], ◌∷◌, every, some_of,
  ◌==◌, string_eq, if◌then◌else◌,
}
use a5e.Labels.{or_default}
use a5e.Permissions.{AppRole, user, can_act}
use a5e.Sessions.{Session, local, oidc, Stores}
use a5e.Users.Names.{claimed}
use a5e.Access.{refused, unauthorized, granted, authorize, resolve_effective_permissions}
use a5e.ChangeRequests.{
  ChangeItem, ChangeRequest, ChangePhase, pending, approved, declined, applied, failed,
  item_applied, item_skipped, item_failed, ItemResult, ReviewStatus,
}
use a5e.ChangeRequests.Items.{item_target, denied_items, first_invalid, apply_items}
use a5e.Api.{
  Server, Act, call, now, pure, throw, try_catch, is_not_found, ◌>>=◌, ◌>>◌, read_settings,
  get_change_request, create_change_request, delete_change_request, patch_change_status,
}

pub data Answer : Type 0 where
  error_answer : (status : ℕ) (error : String) → Answer
  denied_answer : (indices : List ℕ) → Answer
  created_answer deleted_answer declined_answer : Answer
  reviewed_answer : (phase : ChangePhase) (results : List ItemResult) → Answer

-- `appUserId`
unfoldable pub app_user_id : Session → String
app_user_id session = elim session.kind [
  | local ↦ session.impersonate_user
  | oidc ↦ "oidc:" <> session.impersonate_user
]

pub data ProposedChanges : Type 0 where
  unreadable : (message : String) → ProposedChanges
  readable : List ChangeItem → ProposedChanges

pub record Proposal : Type 0 where
  pub name : Option String
  pub generate_name : Option String
  pub reason : Option String
  pub changes : ProposedChanges

phase_word : ChangePhase → String
phase_word pending = "Pending"
phase_word approved = "Approved"
phase_word declined = "Declined"
phase_word applied = "Applied"
phase_word failed = "Failed"

-- The phase of a request that is closed, if it is.
unfoldable pub closed_as : Option ChangePhase → Option String
unfolding phase_word
closed_as none = none
closed_as (some pending) = none
closed_as (some approved) = some (phase_word approved)
closed_as (some declined) = some (phase_word declined)
closed_as (some applied) = some (phase_word applied)
closed_as (some failed) = some (phase_word failed)

abbrev pub is_applied : ItemResult → Bool
is_applied r = elim r.status [ item_applied ↦ true | item_skipped ↦ false | item_failed e ↦ false ]

unfoldable pub review_phase : List ItemResult → ChangePhase
review_phase results = if every is_applied results then applied else failed

abbrev pub review :
    ChangePhase → Session → String → Option String → Option (List ItemResult) → ReviewStatus
review phase session time reason results = record {
  phase = phase;
  reviewed_by = app_user_id session;
  reviewed_by_name = session.display_name;
  reviewed_at = time;
  decline_reason = reason;
  results = results;
}

module _ {W : Type 0} (srv : Server W) where
  -- The gate of every route.
  gated : Stores → Option String → (Session → AppRole → Act W Answer) → Act W Answer
  gated stores token handler = do
    auth ← authorize srv stores token user
    elim auth [
      | unauthorized ↦ pure (error_answer 401 "unauthorized")
      | refused error ↦ pure (error_answer 403 error)
      | granted session role ↦ handler session role
    ]

  -- `readAppSettings().changeRequestsEnabled`, of packages/api/src/lib/app-settings-store.ts.
  unfoldable pub read_enabled : Act W Bool
  read_enabled =
      try_catch
        (do
          raw ← call srv read_settings
          pure (elim raw [ none ↦ true | some text ↦ text == "true" ]))
        (λ e. if is_not_found e then pure true else throw e)

  propose : Proposal → Session → List ChangeItem → Act W Answer
  propose p session changes = elim (first_invalid changes) [
    | some error ↦ pure (error_answer 400 error)
    | none ↦ (do
      time ← now srv
      call srv (
          create_change_request (claimed p.name) (or_default "cr-" p.generate_name) (record {
            requested_by = app_user_id session;
            requested_by_name = session.display_name;
            requested_at = time;
            reason = p.reason;
            changes = changes;
          }))
      pure created_answer)
  ]

  propose_if : Bool → Proposal → Session → Act W Answer
  propose_if false p session =
      pure (error_answer 403 "the change request flow is disabled for this instance")
  propose_if true p session = elim p.changes [
    | unreadable message ↦ pure (error_answer 400 ("invalid changes: " <> message))
    | readable changes ↦ propose p session changes
  ]

  unfoldable pub create_route : Stores → Option String → Proposal → Act W Answer
  unfolding gated read_enabled propose_if propose
  create_route stores token p =
      gated stores token (λ session role. read_enabled >>= λ enabled. propose_if enabled p session)

  -- `isOwnerWithdraw`
  unfoldable pub is_owner_withdraw : Session → ChangeRequest → Bool
  is_owner_withdraw session cr = cr.spec.requested_by == app_user_id session && elim cr.phase [
    | none ↦ true
    | some phase ↦ elim phase [
      | approved ↦ false
      | applied ↦ false
      | pending ↦ true
      | declined ↦ true
      | failed ↦ true
    ]
  ]

  withdraw : String → Act W Answer
  withdraw name = call srv (delete_change_request name) >>= λ _. pure deleted_answer

  withdraw_if : Bool → String → Act W Answer
  withdraw_if true name = withdraw name
  withdraw_if false name = pure (error_answer 403 "forbidden")

  unfoldable pub delete_loaded : String → Session → AppRole → ChangeRequest → Act W Answer
  unfolding withdraw withdraw_if
  delete_loaded name session role cr = if is_owner_withdraw session cr then withdraw name else (do
    perms ← resolve_effective_permissions srv session role
    withdraw_if
        (can_act perms (record { type = "ChangeRequest"; namespace = none; labels = none })
          "delete")
        name)

  unfoldable pub delete_route : Stores → Option String → String → Act W Answer
  unfolding gated
  delete_route stores token name = gated stores token (λ session role.
      call srv (get_change_request name) >>= λ cr. delete_loaded name session role cr)

  -- The loop and the status after it.
  unfoldable pub apply_changes : String → Session → List ChangeItem → Act W Answer
  apply_changes name session changes = do
    results ← apply_items srv 0 false changes
    time ← now srv
    call srv
        (patch_change_status name (review (review_phase results) session time none (some results)))
    pure (reviewed_answer (review_phase results) results)

  unfoldable pub apply_if_allowed : String → Session → List ChangeItem → List ℕ → Act W Answer
  apply_if_allowed name session changes [] = apply_changes name session changes
  apply_if_allowed name session changes (i ∷ is) = pure (denied_answer (i ∷ is))

  unfoldable pub approve_loaded : String → Session → AppRole → ChangeRequest → Act W Answer
  approve_loaded name session role cr = elim (closed_as cr.phase) [
    | some phase ↦ pure (error_answer 409 ("already " <> phase))
    | none ↦ (do
      perms ← resolve_effective_permissions srv session role
      apply_if_allowed name session cr.spec.changes (denied_items perms 0 cr.spec.changes))
  ]

  unfoldable pub approve_route : Stores → Option String → String → Act W Answer
  unfolding gated
  approve_route stores token name = gated stores token (λ session role.
      call srv (get_change_request name) >>= λ cr. approve_loaded name session role cr)

  unfoldable pub decline_unless : Bool → String → Session → Option String → Act W Answer
  decline_unless true name session reason = pure (error_answer 403 "forbidden")
  decline_unless false name session reason = do
    time ← now srv
    call srv (patch_change_status name (review declined session time reason none))
    pure declined_answer

  unfoldable pub decline_loaded :
      String → Option String → Session → AppRole → ChangeRequest → Act W Answer
  decline_loaded name reason session role cr = elim (closed_as cr.phase) [
    | some phase ↦ pure (error_answer 409 ("already " <> phase))
    | none ↦ (do
      perms ← resolve_effective_permissions srv session role
      decline_unless
          (some_of (λ item. not (can_act perms (item_target item) "approve")) cr.spec.changes) name
          session reason)
  ]

  unfoldable pub decline_route : Stores → Option String → String → Option String → Act W Answer
  unfolding gated
  decline_route stores token name reason = gated stores token (λ session role.
      call srv (get_change_request name) >>= λ cr. decline_loaded name reason session role cr)

-- ===== src/Tests/Changes.antt =====
-- Logins that wait and change requests at concrete inputs.
use a5e.Base.{
  ◌-◌, ◌≡◌, ◌≢◌, ◌↔◌, ◌⊎◌, ap, String, true, false, none, some, List, [], ◌∷◌, ltb, if◌then◌else◌,
  ◌==◌, string_eq, All,
}
use a5e.Sessions.{
  Session, local, Stores, store_pending_login, consume_pending_login, pending_login_ttl,
}
use a5e.Sessions.Logins.{pending, IsFresh, consume_pending_login-once}
use a5e.ChangeRequests.{
  ChangeItem, create_item, delete_item, ItemResult, item_applied, applied, failed,
}
use a5e.ChangeRequests.Items.{denied_items}
use a5e.ChangeRequests.Review.{
  review_phase, review, reviewed_answer, apply_changes, apply_if_allowed,
}
use a5e.ChangeRequests.Applying.{InOrder, apply_changes-InOrder}
use a5e.ChangeRequests.Approval.{Approved, apply_if_allowed-Approved}
use a5e.ChangeRequests.UserChanges.{approve_any}
use a5e.Effects.{Trace}
use a5e.Effects.Emits.{Emits}
use a5e.Tests.Users.{server}
use a5e.Api.{Call, call, pure, ◌>>=◌, patch_change_status}

abbrev nothing_stored : Stores
nothing_stored = record {
  sessions = [];
  pending_logins = ("state-0", record { code_verifier = "v0"; created_at = 1000 }) ∷ [];
}

differ : ◌≢◌ {A = String} "state-0" "state-1"
differ e = let same : false ≡ true = ap (λ s. s == "state-1") e in cc

consume_pending_login-once_example :
    ((consume_pending_login 9000 "state-0"
        (store_pending_login 2000 "state-0" "v1" nothing_stored)).0
      ≡ (if ltb pending_login_ttl (9000 - 2000) then none else some "v1"))
    × IsFresh 2000
        (pending "state-0" nothing_stored)
        (consume_pending_login 2000 "state-0" nothing_stored).0
    × ((consume_pending_login 9000 "state-0"
          (consume_pending_login 2000 "state-0" nothing_stored).1).0
        ≡ none)
    × (pending "state-1" (consume_pending_login 2000 "state-0" nothing_stored).1
        ≡ pending "state-1" nothing_stored)
consume_pending_login-once_example =
    consume_pending_login-once 2000 9000 "state-0" "state-1" "v1" nothing_stored differ

abbrev approver : Session
approver = record {
  kind = local;
  impersonate_user = "local:alice";
  impersonate_groups = none;
  display_name = "Alice";
}

abbrev new_host : ChangeItem
new_host = record {
  action = create_item;
  type = "ClusterAnsibleHost";
  namespace = none;
  name = none;
  body = some (record { labels = none; json = "{}" });
}

-- The server does not know the object.
abbrev old_host : ChangeItem
old_host = record new_host { action = delete_item; name = some "web-1"; body = none }

abbrev changes : List ChangeItem
changes = new_host ∷ old_host ∷ new_host ∷ []

abbrev before : Trace Call (Unit {0})
before = record { world = tt; calls = [] }

apply_changes-InOrder_example :
    (results : List ItemResult) × (u : Trace Call (Unit {0})) × InOrder server u before 0 changes
      results
    × ((review_phase results ≡ applied) ↔ All (λ r. r.status ≡ item_applied) results)
    × ((review_phase results ≡ applied) ⊎ (review_phase results ≡ failed))
    × (apply_changes server "cr-1" approver changes before
        ≡ (call server (
                patch_change_status "cr-1" (
                  review
                    (review_phase results)
                    approver
                    (server.clock u.world)
                    none
                    (some results)))
              >>= λ _. pure (reviewed_answer (review_phase results) results))
            u)
apply_changes-InOrder_example = apply_changes-InOrder server "cr-1" approver changes before

apply_if_allowed-Approved_example :
    Emits
      (Approved (approve_any ∷ []) "cr-1" changes)
      (apply_if_allowed server "cr-1" approver changes (denied_items (approve_any ∷ []) 0 changes))
apply_if_allowed-Approved_example =
    apply_if_allowed-Approved server (approve_any ∷ []) "cr-1" approver changes

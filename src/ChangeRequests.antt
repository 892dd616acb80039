-- ===== src/ChangeRequests.antt =====
-- packages/schemas/src/change-requests.ts: changes that a user proposes and an approver applies. A body
-- is what the code reads of it, its labels, and the rest as a text.
pub mod Items
pub mod Review
pub mod Applying
pub mod Approval
pub mod UserChanges
use a5e.Base.{ℕ, String, Option, List}
use a5e.Labels.{Labels}

pub data ChangeAction : Type 0 where
  create_item update_item delete_item : ChangeAction

pub record Body : Type 0 where
  -- `metadata.labels`
  pub labels : Option Labels
  pub json : String

pub record ChangeItem : Type 0 where
  pub action : ChangeAction
  pub type : String
  pub namespace : Option String
  pub name : Option String
  pub body : Option Body

pub record ChangeRequestSpec : Type 0 where
  pub requested_by : String
  pub requested_by_name : String
  pub requested_at : String
  pub reason : Option String
  pub changes : List ChangeItem

pub data ChangePhase : Type 0 where
  pending approved declined applied failed : ChangePhase

pub data ItemStatus : Type 0 where
  item_applied item_skipped : ItemStatus
  item_failed : (error : String) → ItemStatus

-- An entry of `results`.
pub record ItemResult : Type 0 where
  pub index : ℕ
  pub status : ItemStatus

-- The part of the status that a review writes.
pub record ReviewStatus : Type 0 where
  pub phase : ChangePhase
  pub reviewed_by : String
  pub reviewed_by_name : String
  pub reviewed_at : String
  pub decline_reason : Option String
  pub results : Option (List ItemResult)

pub record ChangeRequest : Type 0 where
  pub spec : ChangeRequestSpec
  -- `status?.phase`
  pub phase : Option ChangePhase

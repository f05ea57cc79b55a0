-- ===== src/Model/Records.antt =====
-- The rows themselves. A column that no modelled operation reads or writes is left out.
use resource_mgmt_app.Base.{ℕ, Bool, Option, List}
use resource_mgmt_app.Base.Int.{ℤ}
use resource_mgmt_app.Base.Text.{Text}
use resource_mgmt_app.Model.Status.{
  ItemStatus, LineStatus, ReviewStage, ReviewStatus, RequestKind, Role, EventType, RoutingStrategy,
}

pub record ApprovalGroup : Type 0 where
  pub id : ℕ
  pub code : Text
  pub name : Text
  pub work_type_id : ℕ

pub record WorkTypeConfig : Type 0 where
  pub routing_strategy : RoutingStrategy
  pub default_approval_group : Option ApprovalGroup
  pub uses_dispatch : Bool
  pub has_admin_final : Bool
  pub uses_board_release : Bool

pub record WorkType : Type 0 where
  pub id : ℕ
  pub code : Text
  pub config : Option WorkTypeConfig

pub record EventCycle : Type 0 where
  pub id : ℕ
  pub allow_early_supplementary : Bool
  pub techops_submission_deadline : Option ℕ
  pub board_approved_at : Option ℕ
  pub board_approved_by_user_id : Option ℕ

pub record UserRole : Type 0 where
  pub user_id : ℕ
  pub role_code : Role
  pub work_type_id : Option ℕ

-- `user.approval_group_ids` is a set; it is only searched.
pub record UserContext : Type 0 where
  pub user_id : ℕ
  pub is_super_admin : Bool
  pub approval_group_ids : List ℕ

pub record WorkTypeAccess : Type 0 where
  pub work_type_id : ℕ
  pub can_view : Bool
  pub can_edit : Bool

-- a department or division membership: the work types that it gives access to
pub record Membership : Type 0 where
  pub work_type_access : List WorkTypeAccess

pub record ExpenseAccount : Type 0 where
  pub id : ℕ
  pub name : Text
  pub approval_group : Option ApprovalGroup

pub record SpendType : Type 0 where
  pub id : ℕ
  pub name : Text

pub record ContractType : Type 0 where
  pub approval_group : Option ApprovalGroup

-- with the approval group of the item's category
pub record SupplyItem : Type 0 where
  pub unit_cost_cents : Option ℕ
  pub category_approval_group : Option ApprovalGroup

pub record TechOpsServiceType : Type 0 where
  pub default_approval_group : Option ApprovalGroup

-- `quantity` is Numeric(12, 3): it is counted in thousandths.
pub record BudgetLineDetail : Type 0 where
  pub expense_account : ExpenseAccount
  pub spend_type : SpendType
  pub routed_approval_group : Option ApprovalGroup
  pub unit_price_cents : ℕ
  pub quantity : ℕ
  pub account_default_unit_price_cents : Option ℕ
  pub description : Option Text

pub record ContractLineDetail : Type 0 where
  pub contract_type : Option ContractType
  pub contract_amount_cents : ℕ
  pub description : Option Text
  pub routed_approval_group : Option ApprovalGroup

pub record SupplyOrderLineDetail : Type 0 where
  pub item : Option SupplyItem
  pub quantity_requested : ℕ
  pub requester_notes : Option Text
  pub routed_approval_group : Option ApprovalGroup

pub record TechOpsLineDetail : Type 0 where
  pub service_type : Option TechOpsServiceType
  pub description : Option Text
  pub routed_approval_group : Option ApprovalGroup

pub record WorkLineReview : Type 0 where
  pub id : ℕ
  pub stage : ReviewStage
  pub approval_group : Option ApprovalGroup
  pub status : ReviewStatus
  pub approved_amount_cents : Option ℤ
  pub note : Option Text
  pub decided_at : Option ℕ
  pub decided_by_user_id : Option ℕ
  pub created_by_user_id : ℕ

-- what an audit event's text columns are made from
pub data AuditValue : Type 0 where
  none_value : AuditValue
  review_status : ReviewStatus → AuditValue
  item_status : ItemStatus → AuditValue
  cents : Option ℤ → AuditValue
  words : Text → AuditValue
  thousandths : ℕ → AuditValue
  line_summary : ℕ → Text → ℕ → ℕ → AuditValue

pub record WorkLineAuditEvent : Type 0 where
  pub event_type : EventType
  pub field_name : Text
  pub old_value : AuditValue
  pub new_value : AuditValue
  pub note : Option Text
  pub created_by_user_id : ℕ

-- one review in the snapshot that a return to draft keeps
pub record DeletedReview : Type 0 where
  pub line_number : ℕ
  pub approval_group_code : Option Text
  pub status : ReviewStatus
  pub decided_by_user_id : Option ℕ
  pub note : Option Text

pub data ReturnAction : Type 0 where
  pull_back send_back : ReturnAction

-- the JSON snapshots of work item events, by the code that writes them
pub data Snapshot : Type 0 where
  no_snapshot : Snapshot
  submitted_totals : ℕ → ℕ → Snapshot
  from_status : ItemStatus → Snapshot
  returned : ReturnAction → ItemStatus → List DeletedReview → Snapshot
  auto_finalized : Snapshot
  line_reopened : ℕ → Snapshot
  checkout_until : Option ℕ → Snapshot
  checkin_of : Option ℕ → Bool → Snapshot
  -- the number of lines, and the lines of each group under its name
  dispatched : ℕ → List (Text × ℕ) → Snapshot

pub record WorkItemAuditEvent : Type 0 where
  pub event_type : EventType
  pub old_value : Option ItemStatus
  pub new_value : Option ItemStatus
  pub reason : Option Text
  pub snapshot : Snapshot
  pub created_by_user_id : ℕ

pub record WorkLineComment : Type 0 where
  pub body : Text
  pub created_by_user_id : ℕ

pub record WorkItemComment : Type 0 where
  pub is_public : Bool
  pub body : Text
  pub created_by_user_id : ℕ

pub record WorkLine : Type 0 where
  pub id : ℕ
  pub line_number : ℕ
  pub status : LineStatus
  pub approved_amount_cents : Option ℤ
  pub status_changed_at : Option ℕ
  pub status_changed_by_user_id : Option ℕ
  pub needs_requester_action : Bool
  pub current_review_stage : Option ReviewStage
  pub budget_detail : Option BudgetLineDetail
  pub contract_detail : Option ContractLineDetail
  pub supply_detail : Option SupplyOrderLineDetail
  pub techops_detail : Option TechOpsLineDetail
  pub reviews : List WorkLineReview
  pub audit_events : List WorkLineAuditEvent
  pub comments : List WorkLineComment

pub record WorkPortfolio : Type 0 where
  pub id : ℕ
  pub work_type : WorkType
  pub event_cycle : EventCycle
  pub department_id : ℕ
  pub is_archived : Bool

pub record WorkItem : Type 0 where
  pub id : ℕ
  pub portfolio : WorkPortfolio
  pub request_kind : RequestKind
  pub status : ItemStatus
  pub submitted_at : Option ℕ
  pub submitted_by_user_id : Option ℕ
  pub finalized_at : Option ℕ
  pub finalized_by_user_id : Option ℕ
  pub checked_out_by_user_id : Option ℕ
  pub checked_out_at : Option ℕ
  pub checked_out_expires_at : Option ℕ
  pub board_released_at : Option ℕ
  pub dispatched_at : Option ℕ
  pub dispatched_by_user_id : Option ℕ
  pub extension_granted : Bool
  pub extension_granted_at : Option ℕ
  pub extension_granted_by_user_id : Option ℕ
  pub is_archived : Bool
  pub created_by_user_id : ℕ
  pub lines : List WorkLine
  pub audit_events : List WorkItemAuditEvent
  pub comments : List WorkItemComment

-- app/routes/work/helpers/context.py: who looks at which portfolio
pub record PortfolioContext : Type 0 where
  pub portfolio : WorkPortfolio
  pub user_ctx : UserContext
  pub membership : Option Membership
  pub division_membership : Option Membership

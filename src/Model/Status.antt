-- ===== src/Model/Status.antt =====
-- The constants of app/models/constants.py, and the tuples of them that the code tests by `in`.
use resource_mgmt_app.Base.{Bool, true, false}

pub data ItemStatus : Type 0 where
  draft awaiting_dispatch submitted under_review : ItemStatus
  finalized unapproved needs_info paused : ItemStatus

pub data LineStatus : Type 0 where
  pending needs_info needs_adjustment : LineStatus
  approved approved_needs_review rejected : LineStatus

pub data ReviewStage : Type 0 where
  approval_group admin_final : ReviewStage

pub data ReviewStatus : Type 0 where
  pending needs_info needs_adjustment : ReviewStatus
  approved approved_needs_review rejected : ReviewStatus

pub data ReviewAction : Type 0 where
  approve approve_needs_review reject needs_info needs_adjustment : ReviewAction
  reset respond reopen : ReviewAction

pub data RequestKind : Type 0 where
  primary supplementary : RequestKind

pub data Role : Type 0 where
  super_admin worktype_admin worktype_viewer approver space_admin : Role

pub data EventType : Type 0 where
  status_change review_decision requester_response admin_final amount_override : EventType
  line_created field_change line_deleted : EventType
  finalize unfinalize board_release submit recall_to_draft dispatch : EventType
  pause unpause unpause_failed : EventType
  checkout checkin extension_granted extension_revoked : EventType

-- the strategies that the registry knows, and any other name
pub data RoutingStrategy : Type 0 where
  expense_account contract_type category direct unknown : RoutingStrategy

-- `status == …` for each enumeration
abbrev pub is_draft : ItemStatus → Bool
is_draft ItemStatus.draft = true
is_draft _ = false

abbrev pub is_awaiting_dispatch : ItemStatus → Bool
is_awaiting_dispatch ItemStatus.awaiting_dispatch = true
is_awaiting_dispatch _ = false

abbrev pub is_submitted : ItemStatus → Bool
is_submitted ItemStatus.submitted = true
is_submitted _ = false

abbrev pub is_finalized : ItemStatus → Bool
is_finalized ItemStatus.finalized = true
is_finalized _ = false

abbrev pub is_paused : ItemStatus → Bool
is_paused ItemStatus.paused = true
is_paused _ = false

abbrev pub is_primary : RequestKind → Bool
is_primary RequestKind.primary = true
is_primary RequestKind.supplementary = false

abbrev pub is_approval_group : ReviewStage → Bool
is_approval_group ReviewStage.approval_group = true
is_approval_group ReviewStage.admin_final = false

abbrev pub is_admin_final : ReviewStage → Bool
is_admin_final ReviewStage.approval_group = false
is_admin_final ReviewStage.admin_final = true

abbrev pub is_respond : ReviewAction → Bool
is_respond ReviewAction.respond = true
is_respond _ = false

abbrev pub is_reopen : ReviewAction → Bool
is_reopen ReviewAction.reopen = true
is_reopen _ = false

-- `action in (APPROVE, APPROVE_NEEDS_REVIEW)`
abbrev pub is_approval : ReviewAction → Bool
is_approval ReviewAction.approve = true
is_approval ReviewAction.approve_needs_review = true
is_approval _ = false

abbrev pub is_worktype_admin_role : Role → Bool
is_worktype_admin_role Role.worktype_admin = true
is_worktype_admin_role _ = false

abbrev pub is_worktype_viewer_role : Role → Bool
is_worktype_viewer_role Role.worktype_viewer = true
is_worktype_viewer_role _ = false

abbrev pub is_pending_review : ReviewStatus → Bool
is_pending_review ReviewStatus.pending = true
is_pending_review _ = false

-- the statuses that try_auto_finalize waits for
abbrev pub is_open_review : ReviewStatus → Bool
is_open_review ReviewStatus.pending = true
is_open_review ReviewStatus.needs_info = true
is_open_review ReviewStatus.needs_adjustment = true
is_open_review _ = false

-- `_KICKBACK` of review_state.py
abbrev pub is_kickback : ReviewStatus → Bool
is_kickback ReviewStatus.needs_info = true
is_kickback ReviewStatus.needs_adjustment = true
is_kickback _ = false

-- `_AG_TERMINAL` of review_state.py, `_AG_DECIDED` of can_finalize_work_item
abbrev pub is_group_decided : ReviewStatus → Bool
is_group_decided ReviewStatus.approved = true
is_group_decided ReviewStatus.approved_needs_review = true
is_group_decided ReviewStatus.rejected = true
is_group_decided _ = false

-- `_ADMIN_TERMINAL` of review_state.py
abbrev pub is_admin_decided : ReviewStatus → Bool
is_admin_decided ReviewStatus.approved = true
is_admin_decided ReviewStatus.rejected = true
is_admin_decided _ = false

-- line.status in (NEEDS_INFO, NEEDS_ADJUSTMENT)
abbrev pub is_kicked_back : LineStatus → Bool
is_kicked_back LineStatus.needs_info = true
is_kicked_back LineStatus.needs_adjustment = true
is_kicked_back _ = false

-- `_ADMIN_TERMINAL` of finalize_work_item, over line statuses
abbrev pub is_line_decided : LineStatus → Bool
is_line_decided LineStatus.approved = true
is_line_decided LineStatus.rejected = true
is_line_decided _ = false

abbrev pub is_line_approved : LineStatus → Bool
is_line_approved LineStatus.approved = true
is_line_approved _ = false

abbrev pub is_line_rejected : LineStatus → Bool
is_line_rejected LineStatus.rejected = true
is_line_rejected _ = false

-- line.status in (APPROVED, APPROVED_NEEDS_REVIEW)
abbrev pub is_line_recommended : LineStatus → Bool
is_line_recommended LineStatus.approved = true
is_line_recommended LineStatus.approved_needs_review = true
is_line_recommended _ = false

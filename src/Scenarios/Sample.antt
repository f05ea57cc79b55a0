-- ===== src/Scenarios/Sample.antt =====
-- A budget request and a TechOps request, two lines each, and the people around them.
use resource_mgmt_app.Base.{ℕ, Bool, true, false, Option, none, some, List, [], ◌∷◌}
use resource_mgmt_app.Base.Text.{Text, text}
use resource_mgmt_app.Model.{
  ApprovalGroup, WorkType, EventCycle, BudgetLineDetail, WorkLineReview, WorkLine, WorkPortfolio,
  WorkItem, ItemStatus, LineStatus, ReviewStage, ReviewStatus, RequestKind, RoutingStrategy,
}
use resource_mgmt_app.Access.{Request}

abbrev pub hotels : ApprovalGroup
hotels = record { id = 7; code = text "HOTEL"; name = text "Hotels"; work_type_id = 1 }

abbrev pub network : ApprovalGroup
network = record { id = 9; code = text "NET"; name = text "Network"; work_type_id = 2 }

abbrev pub budget_type : WorkType
budget_type = record {
  id = 1;
  code = text "BUDGET";
  config = some (record {
    routing_strategy = RoutingStrategy.expense_account;
    default_approval_group = none;
    uses_dispatch = false;
    has_admin_final = true;
    uses_board_release = true;
  });
}

abbrev pub techops_type : WorkType
techops_type = record {
  id = 2;
  code = text "TECHOPS";
  config = some (record {
    routing_strategy = RoutingStrategy.direct;
    default_approval_group = some network;
    uses_dispatch = false;
    has_admin_final = false;
    uses_board_release = false;
  });
}

abbrev pub cycle : EventCycle
cycle = record {
  id = 3;
  allow_early_supplementary = false;
  techops_submission_deadline = none;
  board_approved_at = none;
  board_approved_by_user_id = none;
}

abbrev pub budget : WorkPortfolio
budget = record {
  id = 20;
  work_type = budget_type;
  event_cycle = cycle;
  department_id = 4;
  is_archived = false;
}

abbrev pub techops : WorkPortfolio
techops = record {
  id = 21;
  work_type = techops_type;
  event_cycle = cycle;
  department_id = 4;
  is_archived = false;
}

abbrev pub request_of : ℕ → Bool → List ℕ → Request
request_of user is_super groups = record {
  now = 1000;
  user_ctx = record { user_id = user; is_super_admin = is_super; approval_group_ids = groups };
  user_roles = [];
  budget_work_type_id = some 1;
  department_membership = none;
  division_membership = none;
}

abbrev pub admin : Request
admin = request_of 1 true []

abbrev pub reviewer : Request
reviewer = request_of 2 false (7 ∷ 9 ∷ [])

abbrev pub requester : Request
requester = request_of 3 false []

-- three nights at 120.00
abbrev pub rooms : BudgetLineDetail
rooms = record {
  expense_account = record { id = 5; name = text "Rooms"; approval_group = some hotels };
  spend_type = record { id = 1; name = text "Divisional" };
  routed_approval_group = some hotels;
  unit_price_cents = 12000;
  quantity = 3000;
  account_default_unit_price_cents = none;
  description = some (text "Staff rooms");
}

abbrev pub review_of : ℕ → ReviewStage → Option ApprovalGroup → ReviewStatus → WorkLineReview
review_of id stage group status = record {
  id = id;
  stage = stage;
  approval_group = group;
  status = status;
  approved_amount_cents = none;
  note = none;
  decided_at = none;
  decided_by_user_id = none;
  created_by_user_id = 3;
}

abbrev pub line_of : ℕ → ℕ → LineStatus → List WorkLineReview → WorkLine
line_of id number status reviews = record {
  id = id;
  line_number = number;
  status = status;
  approved_amount_cents = none;
  status_changed_at = none;
  status_changed_by_user_id = none;
  needs_requester_action = false;
  current_review_stage = some ReviewStage.approval_group;
  budget_detail = none;
  contract_detail = none;
  supply_detail = none;
  techops_detail = none;
  reviews = reviews;
  audit_events = [];
  comments = [];
}

abbrev pub room_line : ℕ → ℕ → LineStatus → List WorkLineReview → WorkLine
room_line id number status reviews = record (line_of id number status reviews) {
  budget_detail = some rooms;
}

abbrev pub service_line : ℕ → ℕ → LineStatus → List WorkLineReview → WorkLine
service_line id number status reviews = record (line_of id number status reviews) {
  techops_detail =
      some
        (record { service_type = none; description = none; routed_approval_group = some network });
}

abbrev pub item_of : WorkPortfolio → ItemStatus → List WorkLine → WorkItem
item_of portfolio status lines = record {
  id = 40;
  portfolio = portfolio;
  request_kind = RequestKind.primary;
  status = status;
  submitted_at = none;
  submitted_by_user_id = none;
  finalized_at = none;
  finalized_by_user_id = none;
  checked_out_by_user_id = none;
  checked_out_at = none;
  checked_out_expires_at = none;
  board_released_at = none;
  dispatched_at = none;
  dispatched_by_user_id = none;
  extension_granted = false;
  extension_granted_at = none;
  extension_granted_by_user_id = none;
  comments = [];
  is_archived = false;
  created_by_user_id = 3;
  lines = lines;
  audit_events = [];
}

abbrev pub pending_review : ℕ → Option ApprovalGroup → WorkLineReview
pending_review id group = review_of id ReviewStage.approval_group group ReviewStatus.pending

-- the hotels' rejection of the first line, and their open review of the second
abbrev pub rejected_review : WorkLineReview
rejected_review = review_of 1 ReviewStage.approval_group (some hotels) ReviewStatus.rejected

abbrev pub rejected_line : WorkLine
rejected_line = room_line 11 1 LineStatus.rejected (rejected_review ∷ [])

abbrev pub pending_line : WorkLine
pending_line = room_line 12 2 LineStatus.pending (pending_review 2 (some hotels) ∷ [])

abbrev pub budget_request : WorkItem
budget_request = item_of budget ItemStatus.submitted (rejected_line ∷ pending_line ∷ [])

-- a TechOps draft, and the same request under review
abbrev pub draft_request : WorkItem
draft_request = item_of techops ItemStatus.draft (service_line 13 1 LineStatus.pending [] ∷ [])

abbrev pub service_request : WorkItem
service_request =
    item_of techops ItemStatus.submitted
      (service_line 13 1 LineStatus.pending (pending_review 4 (some network) ∷ []) ∷ [])

abbrev pub hello : Option Text
hello = some (text "ok")

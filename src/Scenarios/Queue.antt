-- ===== src/Scenarios/Queue.antt =====
-- A budget request through the dispatch queue, a TechOps request that its department takes back, and what
-- their pages offer.
use resource_mgmt_app.Base.{◌≡◌, refl, ◌∙◌, true, none, some, List, [], ◌∷◌}
use resource_mgmt_app.Model.{
  WorkType, WorkPortfolio, WorkItem, PortfolioContext, ItemStatus, LineStatus, RoutingStrategy,
}
use resource_mgmt_app.Outcome.{is_done}
use resource_mgmt_app.Access.{
  Request, require_budget_admin, is_group_final, is_worktype_admin, can_edit_work_type, in_group,
}
use resource_mgmt_app.LineDetails.{get_line_routing_approval_group}
use resource_mgmt_app.Checkout.{default_checkout_timeouts, is_checked_out}
use resource_mgmt_app.Permissions.{
  build_portfolio_perms, build_work_item_perms, is_approver_for_work_item,
}
use resource_mgmt_app.Actions.Session.{session_buttons}
use resource_mgmt_app.Dispatch.{
  dispatch_to_queue, guarded, assign_line, chosen_group, unassigned, assigned_group,
}
use resource_mgmt_app.Dispatch.Queue.{dispatch_to_queue_routes}
use resource_mgmt_app.Actions.{
  Page, work_item_checkout, techops_request_pull_back, techops_return_options,
  pull_back_deadline_passed, all_reviews_pending,
}
use resource_mgmt_app.Actions.Returns.{techops_request_pull_back_guards}
use resource_mgmt_app.Actions.Diagram.{Call}
use resource_mgmt_app.Scenarios.Sample.{
  hotels, budget_type, budget, techops, admin, reviewer, requester, room_line, item_of,
  budget_request, service_request,
}

abbrev dispatched_type : WorkType
dispatched_type = record budget_type {
  config = some (record {
    routing_strategy = RoutingStrategy.expense_account;
    default_approval_group = none;
    uses_dispatch = true;
    has_admin_final = true;
    uses_board_release = true;
  });
}

abbrev queued_request : WorkItem
queued_request =
    item_of (record budget { work_type = dispatched_type }) ItemStatus.awaiting_dispatch
      (room_line 11 1 LineStatus.pending [] ∷ [])

dispatched :
    is_done (dispatch_to_queue admin (hotels ∷ []) (λ _. some 7) 50 queued_request).0 ≡ true
unfolding dispatch_to_queue guarded require_budget_admin assign_line chosen_group unassigned
    assigned_group
dispatched = refl

dispatch_to_queue_routes_example :
    (dispatch_to_queue admin (hotels ∷ []) (λ _. some 7) 50 queued_request).1.status
    ≡ ItemStatus.submitted
dispatch_to_queue_routes_example =
    (dispatch_to_queue_routes admin (hotels ∷ []) (λ _. some 7) 50 queued_request dispatched).0

abbrev page_of : WorkPortfolio → Request → Page
page_of portfolio r = record {
  ctx = record {
    portfolio = portfolio;
    user_ctx = r.user_ctx;
    membership = some (record {
      work_type_access =
          record { work_type_id = portfolio.work_type.id; can_view = true; can_edit = true } ∷ [];
    });
    division_membership = none;
  };
  request = r;
  groups = [];
  items = [];
}

abbrev department : Page
department = page_of techops requester

taken_back : is_done (techops_request_pull_back (λ d. d) department service_request).0 ≡ true
unfolding techops_request_pull_back techops_return_options build_work_item_perms
    build_portfolio_perms is_worktype_admin can_edit_work_type pull_back_deadline_passed
    is_checked_out all_reviews_pending
taken_back = refl

techops_request_pull_back_guards_example :
    (techops_request_pull_back (λ d. d) department service_request).1.status ≡ ItemStatus.draft
techops_request_pull_back_guards_example =
    ((techops_request_pull_back_guards (λ d. d) department service_request).0 taken_back).0

abbrev desk : PortfolioContext
desk = (page_of budget reviewer).ctx

offered : (build_work_item_perms [] budget_request desk reviewer []).can_checkout ≡ true
unfolding build_work_item_perms is_approver_for_work_item in_group get_line_routing_approval_group
    is_checked_out is_group_final
offered = refl

session_buttons_example :
    is_done
      (work_item_checkout default_checkout_timeouts (page_of budget reviewer) budget_request).0
    ≡ true
session_buttons_example =
    (session_buttons default_checkout_timeouts (page_of budget reviewer) budget_request refl).0
    ∙ offered

abbrev some_calls : List Call
some_calls =
    Call.recall (page_of budget requester)
    ∷ Call.submit (page_of budget requester) 60
    ∷ Call.dispatch admin (hotels ∷ []) (λ _. some 7) 61
    ∷ []

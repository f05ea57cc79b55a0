-- ===== src/Permissions.antt =====
-- What a page offers a user: build_portfolio_perms of app/routes/work/helpers/context.py, and
-- build_work_item_perms with its tests of app/routes/work/helpers/checkout.py.
pub mod Guards
use resource_mgmt_app.Base.{
  ℕ, Bool, true, false, not, ◌&&◌, ◌||◌, Option, none, some, List, [], ◌∷◌, any, find?, member,
  is_some, ◌==◌,
}
use resource_mgmt_app.Base.Text.{text, eqb_text}
use resource_mgmt_app.Model.{
  ApprovalGroup, WorkType, WorkTypeConfig, UserContext, WorkLine, WorkItem, PortfolioContext,
  is_draft, is_awaiting_dispatch, is_submitted, is_finalized, is_primary,
}
use resource_mgmt_app.LineDetails.{get_line_routing_approval_group}
use resource_mgmt_app.Access.{
  Request, is_worktype_admin, is_worktype_viewer, can_view_work_type, can_edit_work_type, in_group,
  is_group_final,
}
use resource_mgmt_app.Checkout.{is_checked_out}

pub record PortfolioPerms : Type 0 where
  pub can_view : Bool
  pub can_edit : Bool
  pub can_create_primary : Bool
  pub can_create_supplementary : Bool
  pub is_worktype_admin : Bool

pub record WorkItemPerms : Type 0 where
  pub can_view : Bool
  pub can_edit : Bool
  pub can_submit : Bool
  pub can_recall : Bool
  pub can_add_lines : Bool
  pub can_delete : Bool
  pub can_checkout : Bool
  pub can_checkin : Bool
  pub is_worktype_admin : Bool
  pub is_draft : Bool
  pub is_checked_out : Bool
  pub is_checked_out_by_current_user : Bool

-- the request of the user of a context
abbrev pub of_user : PortfolioContext → Request → Request
of_user ctx r = record r { user_ctx = ctx.user_ctx }

-- the primary request of a portfolio, among its requests
unfoldable pub find_primary : List WorkItem → Option WorkItem
find_primary items = find? (λ item. is_primary item.request_kind && not item.is_archived) items

primary_ready : Bool → Option WorkItem → Bool
primary_ready allow_early none = false
primary_ready allow_early (some primary) = allow_early || is_finalized primary.status

-- `items` are the requests of the portfolio
unfoldable pub build_portfolio_perms : PortfolioContext → Request → List WorkItem → PortfolioPerms
unfolding is_worktype_admin can_view_work_type can_edit_work_type find_primary primary_ready
build_portfolio_perms ctx r items =
    let work_type_id = ctx.portfolio.work_type.id in
    let is_admin = is_worktype_admin (of_user ctx r) work_type_id in
    let can_edit =
      is_admin
      || can_edit_work_type ctx.membership work_type_id
      || can_edit_work_type ctx.division_membership work_type_id in
    record {
      can_view =
          is_admin
          || can_view_work_type ctx.membership work_type_id
          || can_view_work_type ctx.division_membership work_type_id;
      can_edit = can_edit;
      can_create_primary = can_edit && not (is_some (find_primary items));
      can_create_supplementary =
          can_edit
          && primary_ready ctx.portfolio.event_cycle.allow_early_supplementary (find_primary items);
      is_worktype_admin = is_admin;
    }

-- STAFF_READ_WORK_TYPES holds TECHOPS; `groups` are the active approval groups
unfoldable pub is_work_type_staffer : List ApprovalGroup → UserContext → WorkType → Bool
is_work_type_staffer groups user_ctx work_type =
    eqb_text work_type.code (text "TECHOPS")
    && any
        (λ group. member group.id user_ctx.approval_group_ids && group.work_type_id == work_type.id)
        groups

unfoldable pub is_approver_for_work_item : WorkItem → UserContext → Bool
unfolding get_line_routing_approval_group in_group
is_approver_for_work_item item user_ctx =
    any (λ line. in_group user_ctx (get_line_routing_approval_group line)) item.lines

has_lines : List WorkLine → Bool
has_lines [] = false
has_lines (_ ∷ _) = true

dispatches : Option WorkTypeConfig → Bool
dispatches none = false
dispatches (some config) = config.uses_dispatch

holds : Option ℕ → ℕ → Bool
holds none user_id = false
holds (some holder) user_id = holder == user_id

unfoldable pub build_work_item_perms :
    List ApprovalGroup → WorkItem → PortfolioContext → Request → List WorkItem → WorkItemPerms
unfolding build_portfolio_perms is_approver_for_work_item is_worktype_viewer is_work_type_staffer
    has_lines dispatches is_checked_out is_group_final holds
build_work_item_perms groups item ctx r items =
    let portfolio_perms = build_portfolio_perms ctx r items in
    let is_reviewer =
      portfolio_perms.is_worktype_admin || is_approver_for_work_item item ctx.user_ctx in
    let can_edit = portfolio_perms.can_edit && is_draft item.status in
    let checked_out = is_checked_out item r.now in
    let by_current_user = checked_out && holds item.checked_out_by_user_id ctx.user_ctx.user_id in
    let group_final = is_group_final item.portfolio in
    record {
      can_view =
          portfolio_perms.can_view
          || is_reviewer
          || is_worktype_viewer (of_user ctx r) ctx.portfolio.work_type.id
          || is_work_type_staffer groups ctx.user_ctx ctx.portfolio.work_type;
      can_edit = can_edit;
      can_submit = can_edit && has_lines item.lines;
      can_recall =
          is_awaiting_dispatch item.status
          && dispatches item.portfolio.work_type.config
          && (portfolio_perms.can_edit || portfolio_perms.is_worktype_admin);
      can_add_lines = can_edit;
      can_delete = can_edit && not (is_primary item.request_kind);
      can_checkout = is_reviewer && is_submitted item.status && not checked_out && not group_final;
      can_checkin =
          not group_final && (by_current_user || portfolio_perms.is_worktype_admin && checked_out);
      is_worktype_admin = portfolio_perms.is_worktype_admin;
      is_draft = is_draft item.status;
      is_checked_out = checked_out;
      is_checked_out_by_current_user = by_current_user;
    }

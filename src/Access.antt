-- ===== src/Access.antt =====
-- Who may do what: app/routes/work/helpers/context.py, the memberships of app/models/org.py,
-- is_group_final of app/routes/work/helpers/review_state.py, the permission checks of
-- app/routes/approvals/helpers.py, and require_budget_admin of app/routes/admin_final/helpers.py.
use resource_mgmt_app.Base.{
  ℕ, Bool, false, not, ◌&&◌, ◌||◌, Option, none, some, List, any, member, find?, is_value, ◌==◌,
}
use resource_mgmt_app.Model.{
  WorkTypeConfig, UserRole, UserContext, WorkTypeAccess, Membership, WorkLine, WorkItem,
  WorkPortfolio, PortfolioContext, ApprovalGroup, is_worktype_admin_role, is_worktype_viewer_role,
}
use resource_mgmt_app.LineDetails.{get_line_routing_approval_group}

-- What a handler reads beside the rows of the request: the time, who is acting, the role table, the
-- id of the active BUDGET work type, and the user's memberships in the department of the request
-- at hand and in its division.
pub record Request : Type 0 where
  pub now : ℕ
  pub user_ctx : UserContext
  pub user_roles : List UserRole
  pub budget_work_type_id : Option ℕ
  pub department_membership : Option Membership
  pub division_membership : Option Membership

-- `UserRole.query.filter_by(user_id=…, role_code=WORKTYPE_ADMIN, work_type_id=…).first()`
unfoldable pub has_admin_role : Request → ℕ → Bool
has_admin_role r work_type_id =
    any
      (λ role.
        role.user_id == r.user_ctx.user_id
        && is_worktype_admin_role role.role_code
        && is_value role.work_type_id work_type_id)
      r.user_roles

unfoldable pub is_worktype_admin : Request → ℕ → Bool
unfolding has_admin_role
is_worktype_admin r work_type_id = r.user_ctx.is_super_admin || has_admin_role r work_type_id

unfoldable pub is_worktype_viewer : Request → ℕ → Bool
is_worktype_viewer r work_type_id =
    any
      (λ role.
        role.user_id == r.user_ctx.user_id
        && is_worktype_viewer_role role.role_code
        && is_value role.work_type_id work_type_id)
      r.user_roles

admin_of : Request → Option ℕ → Bool
unfolding has_admin_role
admin_of r none = false
admin_of r (some work_type_id) = has_admin_role r work_type_id

-- `false` is an abort with 403
unfoldable pub require_budget_admin : Request → Bool
unfolding admin_of
require_budget_admin r = r.user_ctx.is_super_admin || admin_of r r.budget_work_type_id

final_by_config : Option WorkTypeConfig → Bool
final_by_config none = false
final_by_config (some config) = not config.has_admin_final

unfoldable pub is_group_final : WorkPortfolio → Bool
unfolding final_by_config
is_group_final portfolio = final_by_config portfolio.work_type.config

get_work_type_access : ℕ → List WorkTypeAccess → Option WorkTypeAccess
get_work_type_access work_type_id = find? (λ wta. wta.work_type_id == work_type_id)

can_view_access : Option WorkTypeAccess → Bool
can_view_access none = false
can_view_access (some wta) = wta.can_view

can_edit_access : Option WorkTypeAccess → Bool
can_edit_access none = false
can_edit_access (some wta) = wta.can_edit

-- `membership and membership.can_view_work_type(…)`
unfoldable pub can_view_work_type : Option Membership → ℕ → Bool
unfolding get_work_type_access can_view_access
can_view_work_type none work_type_id = false
can_view_work_type (some m) work_type_id =
    can_view_access (get_work_type_access work_type_id m.work_type_access)

unfoldable pub can_edit_work_type : Option Membership → ℕ → Bool
unfolding get_work_type_access can_edit_access
can_edit_work_type none work_type_id = false
can_edit_work_type (some m) work_type_id =
    can_edit_access (get_work_type_access work_type_id m.work_type_access)

-- the owner or an admin, or a member by a test of work type access
by_membership : (Option Membership → ℕ → Bool) → WorkItem → PortfolioContext → Request → Bool
by_membership test item ctx r =
    let work_type_id = ctx.portfolio.work_type.id in
    r.user_ctx.is_super_admin
    || item.created_by_user_id == r.user_ctx.user_id
    || (not (work_type_id == 0)
        && (test ctx.membership work_type_id || test ctx.division_membership work_type_id))

unfoldable pub can_view_work_item_lines : WorkItem → PortfolioContext → Request → Bool
unfolding by_membership can_view_work_type
can_view_work_item_lines = by_membership can_view_work_type

unfoldable pub can_respond_to_work_item : WorkItem → PortfolioContext → Request → Bool
unfolding by_membership can_edit_work_type
can_respond_to_work_item = by_membership can_edit_work_type

-- `_can_respond_to_work_item_db`
unfoldable pub can_respond_to_work_item_db : WorkItem → Request → Bool
unfolding can_edit_work_type
can_respond_to_work_item_db item r =
    let work_type_id = item.portfolio.work_type.id in
    r.user_ctx.is_super_admin
    || item.created_by_user_id == r.user_ctx.user_id
    || can_edit_work_type r.department_membership work_type_id
    || can_edit_work_type r.division_membership work_type_id

unfoldable pub in_group : UserContext → Option ApprovalGroup → Bool
in_group user_ctx none = false
in_group user_ctx (some group) = member group.id user_ctx.approval_group_ids

unfoldable pub is_reviewer_for_line : WorkPortfolio → WorkLine → Request → Bool
unfolding in_group get_line_routing_approval_group is_group_final is_worktype_admin
is_reviewer_for_line portfolio line r =
    r.user_ctx.is_super_admin
    || in_group r.user_ctx (get_line_routing_approval_group line)
    || (is_group_final portfolio && is_worktype_admin r portfolio.work_type.id)

-- `work_item.checked_out_by_user_id == user_ctx.user_id`
unfoldable pub user_holds_checkout : WorkItem → Request → Bool
user_holds_checkout item r = is_value item.checked_out_by_user_id r.user_ctx.user_id

unfoldable pub decision_lock_satisfied : WorkItem → Request → Bool
unfolding is_group_final user_holds_checkout
decision_lock_satisfied item r = is_group_final item.portfolio || user_holds_checkout item r

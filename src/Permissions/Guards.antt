-- ===== src/Permissions/Guards.antt =====
-- The buttons against the operations behind them.
use resource_mgmt_app.Base.{
  ℕ, ◌≤◌, ◌≡◌, refl, subst, Bool, true, false, not, ◌&&◌, ◌||◌, Option, none, some, List, [], ◌∷◌,
  any, member, length, arith,
}
use resource_mgmt_app.Model.{
  ApprovalGroup, UserContext, WorkLine, WorkItem, WorkPortfolio, PortfolioContext, ItemStatus,
  is_draft, is_awaiting_dispatch, is_submitted, is_primary,
}
use resource_mgmt_app.LineDetails.{get_line_routing_approval_group}
use resource_mgmt_app.Access.{
  Request, is_worktype_admin, in_group, is_group_final, user_holds_checkout,
}
use resource_mgmt_app.Checkout.{
  Timeouts, has_groups, is_checked_out, can_checkout, checkout_work_item, checkin_work_item, is_ok,
}
use resource_mgmt_app.Permissions.{
  WorkItemPerms, of_user, build_portfolio_perms, is_approver_for_work_item, has_lines, holds,
  build_work_item_perms,
}

one_status :
    (b : Bool) (s : ItemStatus)
    → (b && is_draft s) ≡ true
    → (is_submitted s ≡ false) × (is_awaiting_dispatch s ≡ false)
one_status b ItemStatus.draft h = (refl, refl)
one_status b ItemStatus.awaiting_dispatch h = ground arith
one_status b ItemStatus.submitted h = ground arith
one_status b ItemStatus.under_review h = (refl, refl)
one_status b ItemStatus.finalized h = (refl, refl)
one_status b ItemStatus.unapproved h = (refl, refl)
one_status b ItemStatus.needs_info h = (refl, refl)
one_status b ItemStatus.paused h = (refl, refl)

some_line : (b : Bool) (lines : List WorkLine) → (b && has_lines lines) ≡ true → 1 ≤ length lines
unfolding has_lines
some_line b [] h = ground arith
some_line b (line ∷ lines) h = omega arith

no_member :
    (user_ctx : UserContext) (o : Option ApprovalGroup)
    → in_group user_ctx o ≡ true
    → has_groups user_ctx.approval_group_ids ≡ true
unfolding in_group has_groups
no_member user_ctx none h = cc
no_member user_ctx (some group) h = go user_ctx.approval_group_ids h
  where
    go : (ids : List ℕ) → member group.id ids ≡ true → has_groups ids ≡ true
    go [] h = cc
    go (_ ∷ _) h = refl

approver_groups :
    (user_ctx : UserContext) (lines : List WorkLine)
    → any (λ line. in_group user_ctx (get_line_routing_approval_group line)) lines ≡ true
    → has_groups user_ctx.approval_group_ids ≡ true
approver_groups user_ctx [] h = cc
approver_groups user_ctx (line ∷ lines) h = ground (
  arith,
  no_member user_ctx (get_line_routing_approval_group line),
  approver_groups user_ctx lines,
)

may_take :
    (item : WorkItem) (r : Request)
    → (is_worktype_admin r item.portfolio.work_type.id || has_groups r.user_ctx.approval_group_ids)
      ≡ true
    → is_submitted item.status ≡ true
    → is_checked_out item r.now ≡ false
    → is_group_final item.portfolio ≡ false
    → is_ok (can_checkout item r) ≡ true
unfolding can_checkout is_worktype_admin
may_take item r reviewer submitted free sessions = ground arith

taken :
    (timeouts : Timeouts) (item : WorkItem) (r : Request)
    → is_ok (can_checkout item r) ≡ true
    → (checkout_work_item timeouts item r).1 ≡ true
unfolding checkout_work_item
taken timeouts item r h = ground arith

given_back :
    (item : WorkItem) (r : Request) (force : Bool)
    → is_checked_out item r.now ≡ true
    → (holds item.checked_out_by_user_id r.user_ctx.user_id
        || is_worktype_admin r item.portfolio.work_type.id && force)
      ≡ true
    → (checkin_work_item item r force).1 ≡ true
unfolding checkin_work_item is_checked_out user_holds_checkout holds
given_back item r force live may = ground arith

module _ (groups : List ApprovalGroup) (item : WorkItem) (ctx : PortfolioContext) (r : Request)
    (items : List WorkItem) where
  abbrev perms : WorkItemPerms
  perms = build_work_item_perms groups item ctx r items

  -- A request that may be edited is offered neither for review nor for recall; it may be submitted only
  -- with a line, and deleted only if it is supplementary.
  pub build_work_item_perms_exclusive :
      perms.can_edit ≡ true
      → (perms.can_checkout ≡ false)
        × (perms.can_recall ≡ false)
        × (perms.can_submit ≡ true → 1 ≤ length item.lines)
        × (perms.can_delete ≡ true → is_primary item.request_kind ≡ false)
  unfolding build_work_item_perms
  build_work_item_perms_exclusive h =
      let (s, a) = one_status _ item.status h in
      (rw s (ground arith), rw a refl, λ h'. some_line _ item.lines h', λ h'. ground arith)

  reviewer_of_item :
      (is_admin : Bool)
      → (is_admin || is_approver_for_work_item item ctx.user_ctx) ≡ true
      → (is_admin || has_groups ctx.user_ctx.approval_group_ids) ≡ true
  unfolding is_approver_for_work_item
  reviewer_of_item is_admin h = ground (arith, approver_groups ctx.user_ctx item.lines)

  -- as the handler of the check-in sets it: not for the holder's own lock
  abbrev pub force : Bool
  force = perms.is_worktype_admin && not perms.is_checked_out_by_current_user

  -- where the page offers the checkout it succeeds, and where it offers the check-in it succeeds
  pub build_work_item_perms-checkout :
      (timeouts : Timeouts)
      → ctx.portfolio ≡ item.portfolio
      → (perms.can_checkout ≡ true → (checkout_work_item timeouts item (of_user ctx r)).1 ≡ true)
        × (perms.can_checkin ≡ true → (checkin_work_item item (of_user ctx r) force).1 ≡ true)
  unfolding build_work_item_perms build_portfolio_perms
  build_work_item_perms-checkout timeouts same = (
    λ h. taken timeouts item (of_user ctx r) (
        may_take item (of_user ctx r)
          (subst
            (λ (p : WorkPortfolio).
              (is_worktype_admin (of_user ctx r) p.work_type.id
                || has_groups ctx.user_ctx.approval_group_ids)
              ≡ true)
            same
            (reviewer_of_item (is_worktype_admin (of_user ctx r) ctx.portfolio.work_type.id)
              (ground arith)))
          (ground arith) (ground arith) (ground arith)),
    λ h. given_back item (of_user ctx r) force (ground arith) (
        subst
          (λ (p : WorkPortfolio).
            (holds item.checked_out_by_user_id ctx.user_ctx.user_id
              || is_worktype_admin (of_user ctx r) p.work_type.id && force)
            ≡ true)
          same (ground arith)),
  )

-- ===== src/Reviews/Buttons.antt =====
-- The decision buttons (can_decide_line) beside the decisions themselves, and whom a line waits for.
use resource_mgmt_app.Base.{
  ℕ, ◌≡◌, refl, Bool, true, false, not, ◌||◌, Option, none, some, arith, if◌then◌else◌,
}
use resource_mgmt_app.Base.Int.{ℤ}
use resource_mgmt_app.Base.Text.{Text}
use resource_mgmt_app.Model.{
  ReviewStatus, ReviewAction, WorkLine, WorkLineReview, WorkItem, PortfolioContext, is_draft,
  is_pending_review, is_kickback, is_group_decided, is_admin_decided,
}
use resource_mgmt_app.Access.{Request, is_reviewer_for_line, decision_lock_satisfied}
use resource_mgmt_app.ReviewState.{
  Awaiting, has_admin_stage, group_review, get_admin_final_review, kicked_back, admin_decided,
  group_decided, group_pending, get_awaiting, get_line_review_state, is_awaiting_group,
}
use resource_mgmt_app.Outcome.{Outcome, is_done}
use resource_mgmt_app.Reviews.{
  accept, find_line, find_review, check_role, check_transition, valid_transitions,
  validate_review_transition, settle, apply_to_review, apply_to_line, apply_review_decision,
  can_decide_line,
}

pending_of :
    (o : Option WorkLineReview) → kicked_back o ≡ false → group_pending o ≡ not (group_decided o)
pending_of none h = refl
pending_of (some v) h = by_status v.status h
  where
    by_status :
        (s : ReviewStatus) → is_kickback s ≡ false → is_pending_review s ≡ not (is_group_decided s)
    by_status ReviewStatus.pending h = refl
    by_status ReviewStatus.needs_info h = cc
    by_status ReviewStatus.needs_adjustment h = cc
    by_status ReviewStatus.approved h = refl
    by_status ReviewStatus.approved_needs_review h = refl
    by_status ReviewStatus.rejected h = refl

-- Whom a line waits for: its requester exactly if one of its reviews is kicked back; nobody exactly if
-- none is, and the deciding review, the admin's where there is such a stage and the group's
-- otherwise, has a decision; otherwise its group, until the group has decided, and the admin then.
pub get_awaiting_cases :
    (admin_stage : Bool) (ag admin_review : Option WorkLineReview)
    → let requester = kicked_back admin_review || kicked_back ag in
      let final = if admin_stage then admin_decided admin_review else group_decided ag in
      (requester ≡ true → get_awaiting admin_stage ag admin_review ≡ Awaiting.requester)
      × (requester ≡ false
          → final ≡ true
          → get_awaiting admin_stage ag admin_review ≡ Awaiting.done)
      × (requester ≡ false
          → final ≡ false
          → get_awaiting admin_stage ag admin_review
            ≡ (if group_decided ag then Awaiting.admin else Awaiting.reviewer_group))
unfolding get_awaiting
get_awaiting_cases admin_stage ag admin_review =
    (λ h. ground arith, λ h e. ground arith, λ h e. ground (arith, pending_of ag))

awaiting_group_inv :
    (b : Bool) (ag admin_review : Option WorkLineReview)
    → is_awaiting_group (get_awaiting b ag admin_review) ≡ true
    → (group_pending ag ≡ true)
      × (kicked_back admin_review ≡ false)
      × (b ≡ true → admin_decided admin_review ≡ false)
unfolding get_awaiting
awaiting_group_inv b ag admin_review h = (ground arith, ground arith, λ e. ground arith)

undecided_of_kicked : (o : Option WorkLineReview) → kicked_back o ≡ true → admin_decided o ≡ false
undecided_of_kicked none h = cc
undecided_of_kicked (some v) h = by_status v.status h
  where
    by_status : (s : ReviewStatus) → is_kickback s ≡ true → is_admin_decided s ≡ false
    by_status ReviewStatus.pending h = cc
    by_status ReviewStatus.needs_info h = refl
    by_status ReviewStatus.needs_adjustment h = refl
    by_status ReviewStatus.approved h = cc
    by_status ReviewStatus.approved_needs_review h = cc
    by_status ReviewStatus.rejected h = cc

module _ (r : Request) (ctx : Option PortfolioContext) (note : Option Text)
    (amount_cents : Option ℤ) (line_id review_id : ℕ) (item : WorkItem) (line : WorkLine)
    (review : WorkLineReview) (submitted : is_draft item.status ≡ false)
    (found : find_line line_id item ≡ some line)
    (found' : find_review review_id line ≡ some review) where
  abbrev approved : Outcome × WorkItem
  approved =
      apply_review_decision r ctx ReviewAction.approve note amount_cents line_id review_id item

  approve_accepted :
      is_pending_review review.status ≡ true
      → is_reviewer_for_line item.portfolio line r ≡ true
      → decision_lock_satisfied item r ≡ true
      → admin_decided (get_admin_final_review line) ≡ false
      → is_done approved.0 ≡ true
  unfolding apply_review_decision apply_to_line apply_to_review settle validate_review_transition
      check_transition check_role valid_transitions
  approve_accepted p v l a =
      let e : validate_review_transition r ctx item line review.status ReviewAction.approve note
          ≡ accept ReviewStatus.approved =
        ground arith in
      ground (arith, e)

  -- Where the decision button is shown for the group's review, an approval is accepted: on a request that
  -- is no draft, and, on a work type without an admin-final stage, if no admin review is decided.
  pub can_decide_line-approve :
      group_review line ≡ some review
      → (has_admin_stage item.portfolio ≡ false
          → admin_decided (get_admin_final_review line) ≡ false)
      → can_decide_line item line r ≡ true
      → is_done approved.0 ≡ true
  unfolding can_decide_line get_line_review_state
  can_decide_line-approve e a h =
      let admin_review = get_admin_final_review line in
      let w : is_awaiting_group
            (get_awaiting (has_admin_stage item.portfolio) (group_review line) admin_review)
          ≡ true =
        ground arith in
      let (p, k, d) =
        awaiting_group_inv (has_admin_stage item.portfolio) (group_review line) admin_review w in
      approve_accepted (ground (arith, e, p)) (ground arith) (ground arith) (ground (arith, a, d))

  -- A decision does not ask for what the button asks. While the admin's review of a line waits for its
  -- requester, the button is not shown, and yet a reviewer's approval of a pending review is accepted.
  pub can_decide_line-bypassed :
      is_pending_review review.status ≡ true
      → is_reviewer_for_line item.portfolio line r ≡ true
      → decision_lock_satisfied item r ≡ true
      → kicked_back (get_admin_final_review line) ≡ true
      → (can_decide_line item line r ≡ false) × (is_done approved.0 ≡ true)
  unfolding can_decide_line get_line_review_state get_awaiting
  can_decide_line-bypassed p v l k =
      (ground arith, approve_accepted p v l (undecided_of_kicked (get_admin_final_review line) k))

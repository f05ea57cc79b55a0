-- ===== src/Reviews/Transitions.antt =====
-- Which decisions are taken, and which are refused.
use resource_mgmt_app.Base.{
  ℕ, ◌≡◌, refl, true, false, Option, none, some, arith, ◌⊎◌, if◌then◌else◌,
}
use resource_mgmt_app.Base.Int.{ℤ}
use resource_mgmt_app.Base.Text.{Text, is_blank}
use resource_mgmt_app.Model.{
  ReviewStatus, ReviewAction, WorkLine, WorkLineReview, WorkItem, PortfolioContext, is_draft,
  is_respond, is_reopen,
}
use resource_mgmt_app.Access.{
  Request, is_group_final, is_reviewer_for_line, decision_lock_satisfied,
}
use resource_mgmt_app.ReviewState.{get_admin_final_review, admin_decided}
use resource_mgmt_app.Outcome.{Outcome, is_done}
use resource_mgmt_app.Reviews.{
  Validation, accept, deny, apply_to_line, apply_to_review, valid_transitions,
  validate_review_transition, may_respond, find_line, find_review, settle, apply_review_decision,
}

-- The workflow of one review, as a diagram: a reviewer decides or kicks back a pending line, the
-- requester's answer makes it pending again, and so does a reopening of a decision.
pub data Edge : ReviewStatus → ReviewAction → ReviewStatus → Type 0 where
  approves : Edge ReviewStatus.pending ReviewAction.approve ReviewStatus.approved
  flags :
      Edge ReviewStatus.pending ReviewAction.approve_needs_review ReviewStatus.approved_needs_review
  rejects : Edge ReviewStatus.pending ReviewAction.reject ReviewStatus.rejected
  asks : Edge ReviewStatus.pending ReviewAction.needs_info ReviewStatus.needs_info
  returns : Edge ReviewStatus.pending ReviewAction.needs_adjustment ReviewStatus.needs_adjustment
  answers : Edge ReviewStatus.needs_info ReviewAction.respond ReviewStatus.pending
  adjusts : Edge ReviewStatus.needs_adjustment ReviewAction.respond ReviewStatus.pending
  reopens : Edge ReviewStatus.approved ReviewAction.reopen ReviewStatus.pending
  reopens_rejected : Edge ReviewStatus.rejected ReviewAction.reopen ReviewStatus.pending

-- who may take an edge, from the state of the line
abbrev pub MayTake : Request → Option PortfolioContext → WorkItem → WorkLine → ReviewAction → Type 0
MayTake r ctx item line action =
    if is_respond action
    then (line.needs_requester_action ≡ true) × (may_respond r ctx item ≡ true)
    else (is_reviewer_for_line item.portfolio line r ≡ true)
      × (admin_decided (get_admin_final_review line) ≡ false)

-- A transition that is accepted is an edge of the diagram; a reopening happens only on a work type
-- without admin-final stage; every action but a plain approval carries a note; an answer comes from
-- somebody who may respond, on a line that waits for the requester, and any other action from a
-- reviewer of the line, before an admin has decided it.
pub validate_review_transition_sound :
    (r : Request) (ctx : Option PortfolioContext) (item : WorkItem) (line : WorkLine)
    (current : ReviewStatus) (action : ReviewAction) (note : Option Text)
    (new_status : ReviewStatus)
    → validate_review_transition r ctx item line current action note ≡ accept new_status
    → Edge current action new_status
      × (is_reopen action ≡ true → is_group_final item.portfolio ≡ true)
      × ((action ≡ ReviewAction.approve) ⊎ (is_blank note ≡ false))
      × MayTake r ctx item line action
unfolding validate_review_transition valid_transitions
validate_review_transition_sound r ctx item line current action _ new_status h =
    grind
      (arith, approves, flags, rejects, asks, returns, answers, adjusts, reopens, reopens_rejected)

module _ (r : Request) (ctx : Option PortfolioContext) (action : ReviewAction) (note : Option Text)
    (amount_cents : Option ℤ) (line_id review_id : ℕ) (item : WorkItem) where
  abbrev pub result : Outcome × WorkItem
  result = apply_review_decision r ctx action note amount_cents line_id review_id item

  -- A decision that is not taken, for whatever reason, leaves the request as it was; and none is
  -- taken on a draft, nor, except for a requester's answer, without the review lock where the work
  -- type uses one.
  pub apply_review_decision_refused :
      (is_done result.0 ≡ false → result.1 ≡ item)
      × (is_draft item.status ≡ true → is_done result.0 ≡ false)
      × (is_respond action ≡ false
          → decision_lock_satisfied item r ≡ false
          → is_done result.0 ≡ false)
  unfolding apply_review_decision apply_to_line apply_to_review settle
  apply_review_decision_refused = (ground arith, ground arith, ground arith)

  -- the line, the review and the new status of a decision that is taken
  abbrev pub Taken : WorkLine → WorkLineReview → ReviewStatus → Type 0
  Taken line review new_status =
      (find_line line_id item ≡ some line)
      × (find_review review_id line ≡ some review)
      × (validate_review_transition r ctx item line review.status action note ≡ accept new_status)
      × (result ≡ settle r action note amount_cents item line review (accept new_status))

  taken_of_validation :
      (line : WorkLine) (review : WorkLineReview) (v : Validation)
      → is_done (settle r action note amount_cents item line review v).0 ≡ true
      → (new_status : ReviewStatus) × (v ≡ accept new_status)
  unfolding settle
  taken_of_validation line review (accept new_status) h = (new_status, refl)
  taken_of_validation line review (deny e) h = cc

  found_review :
      (line : WorkLine) (o : Option WorkLineReview)
      → is_done (apply_to_review r ctx action note amount_cents item line o).0 ≡ true
      → (review : WorkLineReview) × (o ≡ some review)
  unfolding apply_to_review
  found_review line none h = cc
  found_review line (some review) h = (review, refl)

  found_line :
      (o : Option WorkLine)
      → is_done (apply_to_line r ctx action note amount_cents review_id item o).0 ≡ true
      → (line : WorkLine) × (o ≡ some line)
  unfolding apply_to_line
  found_line none h = cc
  found_line (some line) h = (line, refl)

  past_guards :
      is_done result.0 ≡ true
      → result
        ≡ apply_to_line r ctx action note amount_cents review_id item (find_line line_id item)
  unfolding apply_review_decision
  past_guards h = ground arith

  -- A decision that is taken was accepted for the line and the review with the given ids.
  pub Taken-done :
      is_done result.0 ≡ true
      → (line : WorkLine) × (review : WorkLineReview) × (s : ReviewStatus) × Taken line review s
  Taken-done h =
      let e = past_guards h in
      let (line, l) = found_line (find_line line_id item) (rw (← e) h) in
      let e' : result
          ≡ apply_to_review r ctx action note amount_cents item line (find_review review_id line) =
        unfold apply_to_line in cc in
      let (review, v) = found_review line (find_review review_id line) (rw (← e') h) in
      let verdict = validate_review_transition r ctx item line review.status action note in
      let e'' : result ≡ settle r action note amount_cents item line review verdict =
        unfold apply_to_review in cc in
      let (s, accepted) = taken_of_validation line review verdict (rw (← e'') h) in
      (line, review, s, (l, v, accepted, cc))

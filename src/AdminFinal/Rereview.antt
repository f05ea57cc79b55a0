-- ===== src/AdminFinal/Rereview.antt =====
-- Lines that an admin sends back to review: whom they wait for then.
use resource_mgmt_app.Base.{
  ◌≡◌, refl, sym, ap, ◌∙◌, subst, Bool, true, false, Option, none, some, arith, find?,
  test_of_find?, ◌==◌,
}
use resource_mgmt_app.Base.Keys.{
  are_distinct, are_distinct-update, find?_by_key, find?-update_both, find?-update_other,
}
use resource_mgmt_app.Model.{
  LineStatus, ReviewStage, WorkLine, WorkLineReview, WorkPortfolio, is_approval_group,
  is_admin_final,
}
use resource_mgmt_app.Access.{Request, require_budget_admin}
use resource_mgmt_app.Outcome.{Outcome, done}
use resource_mgmt_app.ReviewState.{
  group_review, get_admin_final_review, kicked_back, admin_decided, group_pending,
  get_line_review_state, get_awaiting, Awaiting,
}
use resource_mgmt_app.AdminFinal.Decision.{put_review, create_line_audit}
use resource_mgmt_app.AdminFinal.Unfinalize.{
  reset_review, reset_found, reset_group, returned_line, return_line_to_reviewer_group,
}

abbrev pub HasOwnIds : WorkLine → Type 0
HasOwnIds line = are_distinct (λ v. v.id) line.reviews ≡ true

-- a row of one stage, written back under its id in the same stage, is found again; the other stage's is
-- found as before
module _ (p q : WorkLineReview → Bool) (line : WorkLine) (review review' : WorkLineReview)
    (own : HasOwnIds line) (found : find? p line.reviews ≡ some review)
    (same : review'.id ≡ review.id) where
  by_id : find? (λ v. v.id == review'.id) line.reviews ≡ some review
  by_id =
      subst (λ n. find? (λ v. v.id == n) line.reviews ≡ some review) (sym same)
        (find?_by_key (λ v. v.id) p line.reviews review found own)

  pub found-put : p review' ≡ true → find? p (put_review review' line).reviews ≡ some review'
  found-put h =
      find?-update_both p (λ v. v.id == review'.id) review review' line.reviews found by_id h

  pub other-put :
      q review ≡ false
      → q review' ≡ false
      → find? q (put_review review' line).reviews ≡ find? q line.reviews
  other-put h h' =
      find?-update_other q (λ v. v.id == review'.id) review review' line.reviews by_id h h'

  pub own-put : HasOwnIds (put_review review' line)
  own-put = are_distinct-update (λ v. v.id) review' line.reviews ∙ own

not_group : (v : WorkLineReview) → is_admin_final v.stage ≡ true → is_approval_group v.stage ≡ false
not_group v h = ground arith

pub not_admin :
    (v : WorkLineReview) → is_approval_group v.stage ≡ true → is_admin_final v.stage ≡ false
not_admin v h = ground arith

-- no decision of the admin, and the group's row as it was
pub reset_found_lem :
    (line : WorkLine) (o : Option WorkLineReview)
    → get_admin_final_review line ≡ o
    → HasOwnIds line
    → let line' = reset_found o line in
      (kicked_back (get_admin_final_review line') ≡ false)
      × (admin_decided (get_admin_final_review line') ≡ false)
      × (group_review line' ≡ group_review line)
unfolding reset_found get_admin_final_review group_review
reset_found_lem line none e own = (ground arith, ground arith, refl)
reset_found_lem line (some review) e own =
    let stage = test_of_find? (λ v. is_admin_final v.stage) line.reviews review e in
    let other = not_group review stage in
    let found =
      found-put (λ v. is_admin_final v.stage) (λ v. is_approval_group v.stage) line review
        (reset_review review) own e refl stage in
    (
      ground (arith, found),
      ground (arith, found),
      other-put (λ v. is_admin_final v.stage) (λ v. is_approval_group v.stage) line review
          (reset_review review) own e refl other other,
    )

-- the group's row is pending or missing, and the admin's as it was
reset_group_lem :
    (line : WorkLine) (o : Option WorkLineReview)
    → group_review line ≡ o
    → HasOwnIds line
    → let line' = reset_group o line in
      (group_pending (group_review line') ≡ true)
      × (get_admin_final_review line' ≡ get_admin_final_review line)
      × HasOwnIds line'
unfolding reset_group get_admin_final_review group_review
reset_group_lem line none e own = (ground arith, refl, own)
reset_group_lem line (some review) e own =
    let stage = test_of_find? (λ v. is_approval_group v.stage) line.reviews review e in
    let other = not_admin review stage in
    let review' = record (reset_review review) { approved_amount_cents = none } in
    let found =
      found-put (λ v. is_approval_group v.stage) (λ v. is_admin_final v.stage) line review review'
        own e refl stage in
    (
      ground (arith, found),
      other-put (λ v. is_approval_group v.stage) (λ v. is_admin_final v.stage) line review review'
          own e refl other other,
      own-put (λ v. is_approval_group v.stage) (λ v. is_admin_final v.stage) line review review' own
          e refl,
    )

pub awaiting_group :
    (portfolio : WorkPortfolio) (line : WorkLine)
    → group_pending (group_review line) ≡ true
    → kicked_back (get_admin_final_review line) ≡ false
    → admin_decided (get_admin_final_review line) ≡ false
    → (get_line_review_state portfolio line).awaiting ≡ Awaiting.reviewer_group
unfolding get_line_review_state get_awaiting
awaiting_group portfolio line p k d = ground arith

-- a line under review by its group: it waits for that group, on every work type, has no amount, and
-- asks nothing of its requester
pub record IsBackInReview (portfolio : WorkPortfolio) (line : WorkLine) : Type 0 where
  pub awaiting : (get_line_review_state portfolio line).awaiting ≡ Awaiting.reviewer_group
  pub status : line.status ≡ LineStatus.pending
  pub amount : line.approved_amount_cents ≡ none
  pub waiting : line.needs_requester_action ≡ false
  pub stage : line.current_review_stage ≡ some ReviewStage.approval_group

returned_line-IsBackInReview :
    (r : Request) (portfolio : WorkPortfolio) (line : WorkLine)
    → HasOwnIds line
    → IsBackInReview portfolio (returned_line r line)
unfolding returned_line create_line_audit group_review get_admin_final_review reset_found
returned_line-IsBackInReview r portfolio line own =
    let line1 = reset_group (group_review line) line in
    let (p, _, own1) = reset_group_lem line (group_review line) refl own in
    let (k, d, g) = reset_found_lem line1 (get_admin_final_review line1) refl own1 in
    record {
      awaiting = awaiting_group portfolio (returned_line r line) (ap group_pending g ∙ p) k d;
      status = refl;
      amount = refl;
      waiting = refl;
      stage = refl;
    }

-- A line that a budget admin returns to its group is back in review: it waits for that group again, on
-- every work type, has no amount, and asks nothing of its requester. Nobody else can do that.
pub return_line_to_reviewer_group_awaits :
    (r : Request) (portfolio : WorkPortfolio) (line : WorkLine)
    → are_distinct (λ v. v.id) line.reviews ≡ true
    → let (outcome, line') = return_line_to_reviewer_group r line in
      (require_budget_admin r ≡ true → (outcome ≡ done) × IsBackInReview portfolio line')
      × (require_budget_admin r ≡ false → (outcome ≡ Outcome.forbidden) × (line' ≡ line))
unfolding return_line_to_reviewer_group
return_line_to_reviewer_group_awaits r portfolio line own = (
  λ h.
      let e : return_line_to_reviewer_group r line ≡ (done, returned_line r line) = ground arith in
      (
        ap (λ o. o.0) e,
        subst (IsBackInReview portfolio) (sym (ap (λ o. o.1) e))
            (returned_line-IsBackInReview r portfolio line own),
      ),
  λ h. (ground arith, ground arith),
)

-- ===== src/AdminFinal/Decision.antt =====
-- app/routes/admin_final/helpers.py: the review rows of a line, and the admin's decision on it.
pub mod Rows
pub mod Effects
use resource_mgmt_app.Base.{
  ℕ, Bool, true, false, not, ◌&&◌, Option, none, some, [], ◌∷◌, ◌++◌, update_first, ◌==◌,
  if◌then◌else◌,
}
use resource_mgmt_app.Base.Int.{ℤ, pos, eqb_ℤ}
use resource_mgmt_app.Base.Text.{Text, text, is_blank, strip_or_none}
use resource_mgmt_app.Model.{
  LineStatus, ReviewStage, ReviewStatus, ReviewAction, EventType, BudgetLineDetail, WorkLine,
  WorkLineReview, AuditValue,
}
use resource_mgmt_app.LineDetails.{compute_line_amount_cents}
use resource_mgmt_app.Access.{Request, require_budget_admin}
use resource_mgmt_app.ReviewState.{group_review, get_admin_final_review}
use resource_mgmt_app.Lifecycle.{new_review, add_review}
use resource_mgmt_app.Outcome.{
  Outcome, done, refused, forbidden, invalid_action, no_amount, override_note_required,
  rejection_note_required, info_note_required,
}

if_detail : Option BudgetLineDetail → Option WorkLineReview → Option WorkLineReview
if_detail none review = none
if_detail (some _) review = review

-- only a line with a budget detail has one here
unfoldable pub get_approval_group_review : WorkLine → Option WorkLineReview
unfolding if_detail group_review
get_approval_group_review line = if_detail line.budget_detail (group_review line)

found_or_new : Request → ℕ → WorkLine → Option WorkLineReview → WorkLineReview × WorkLine
found_or_new r next line none =
    let review = new_review r next ReviewStage.admin_final none in (review, add_review review line)
found_or_new r next line (some review) = (review, line)

-- the ADMIN_FINAL review, created if there is none
unfoldable pub get_or_create_admin_review : Request → ℕ → WorkLine → WorkLineReview × WorkLine
unfolding get_admin_final_review found_or_new
get_or_create_admin_review r next line = found_or_new r next line (get_admin_final_review line)

-- `_create_line_audit`
unfoldable pub create_line_audit :
    Request → EventType → AuditValue → AuditValue → Option Text → WorkLine → WorkLine
create_line_audit r event_type old_value new_value note line = record line {
  audit_events =
      line.audit_events
      ++ (record {
        event_type = event_type;
        field_name = text "status";
        old_value = old_value;
        new_value = new_value;
        note = note;
        created_by_user_id = r.user_ctx.user_id;
      }
          ∷ []);
}

-- a review row that is written under its id
abbrev pub put_review : WorkLineReview → WorkLine → WorkLine
put_review review line = record line {
  reviews = update_first (λ v. v.id == review.id) (λ _. review) line.reviews;
}

-- the requested amount of a line with a budget detail
unfoldable pub requested_amount : Option BudgetLineDetail → Option ℤ
requested_amount none = none
requested_amount (some d) =
    some (pos (compute_line_amount_cents (some d.unit_price_cents) (some d.quantity)))

-- `review.approved_amount_cents` of a review that may be missing
unfoldable pub amount_of_review : Option WorkLineReview → Option ℤ
amount_of_review none = none
amount_of_review (some v) = v.approved_amount_cents

unfoldable pub or_else : Option ℤ → Option ℤ → Option ℤ
or_else none b = b
or_else (some a) _ = some a

-- the amount given, else the one recommended, else the requested one
unfoldable pub default_amount : Option ℤ → Option ℤ → Option ℤ → Option ℤ
unfolding or_else
default_amount given recommended requested = or_else given (or_else recommended requested)

-- `recommended is not None and approved_amount_cents != recommended`
unfoldable pub overrides : Option ℤ → ℤ → Bool
overrides none amount = false
overrides (some recommended) amount = not (eqb_ℤ amount recommended)

-- the metadata of the review and of the line, and the audit event
conclude : Request → Option Text → WorkLineReview → WorkLine → WorkLine
unfolding create_line_audit
conclude r note review line =
    create_line_audit r EventType.admin_final AuditValue.none_value
      (AuditValue.review_status review.status) note
      (record (put_review
        (record review {
          decided_at = some r.now;
          decided_by_user_id = some r.user_ctx.user_id;
          note = strip_or_none note;
        })
        line) {
          status_changed_at = some r.now;
          status_changed_by_user_id = some r.user_ctx.user_id;
          current_review_stage = some ReviewStage.admin_final;
        })

audit_override : Request → Option ℤ → ℤ → Option Text → WorkLine → WorkLine
unfolding overrides create_line_audit
audit_override r recommended amount note line =
    if overrides recommended amount
    then create_line_audit r EventType.amount_override (AuditValue.cents recommended)
        (AuditValue.cents (some amount)) note line
    else line

approve_amount :
    Request → Option ℤ → Option Text → WorkLineReview → WorkLine → Option ℤ → Outcome × WorkLine
unfolding overrides audit_override conclude
approve_amount r recommended _ review line none = (refused no_amount, line)
approve_amount r recommended note review line (some amount) =
    if overrides recommended amount && is_blank note
    then (refused override_note_required, line)
    else (
      done,
      conclude r note
          (record review { status = ReviewStatus.approved; approved_amount_cents = some amount })
          (record (audit_override r recommended amount note line) {
            status = LineStatus.approved;
            approved_amount_cents = some amount;
          }),
    )

decide :
    Request → ReviewAction → Option ℤ → Option Text → WorkLineReview → WorkLine → Outcome × WorkLine
unfolding approve_amount conclude requested_amount get_approval_group_review amount_of_review
    default_amount
decide r ReviewAction.approve amount note review line =
    let recommended = amount_of_review (get_approval_group_review line) in
    approve_amount r recommended note review line
      (default_amount amount recommended (requested_amount line.budget_detail))
decide r ReviewAction.reject amount note review line =
    if is_blank note then (refused rejection_note_required, line) else (
      done,
      conclude r note (record review { status = ReviewStatus.rejected })
          (record line { status = LineStatus.rejected; approved_amount_cents = none }),
    )
decide r ReviewAction.needs_info amount note review line =
    if is_blank note then (refused info_note_required, line) else (
      done,
      conclude r note (record review { status = ReviewStatus.needs_info })
          (record line { status = LineStatus.needs_info; needs_requester_action = true }),
    )
decide r _ amount _ review line = (refused invalid_action, line)

-- On a refusal the line is as it is then: the review row has already been created.
unfoldable pub apply_admin_final_decision :
    Request → ReviewAction → Option ℤ → Option Text → ℕ → WorkLine → Outcome × WorkLine
unfolding require_budget_admin get_or_create_admin_review decide
apply_admin_final_decision r action amount note next line =
    if not (require_budget_admin r)
    then (forbidden, line)
    else let (review, line') = get_or_create_admin_review r next line in
      decide r action amount note review line'

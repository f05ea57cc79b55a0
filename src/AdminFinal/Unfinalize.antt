-- ===== src/AdminFinal/Unfinalize.antt =====
-- app/routes/admin_final/helpers.py: unfinalize_work_item, and the two resets of one line.
pub mod Cycle
pub mod Siblings
use resource_mgmt_app.Base.{
  Bool, false, not, ◌&&◌, ◌++◌, Option, none, some, List, map, if◌then◌else◌,
}
use resource_mgmt_app.Base.Text.{Text, text, is_blank, strip, or_empty}
use resource_mgmt_app.Model.{
  ItemStatus, LineStatus, ReviewStage, ReviewStatus, EventType, WorkLine, WorkLineReview, WorkItem,
  AuditValue, no_snapshot, is_finalized, is_submitted, is_primary,
}
use resource_mgmt_app.Access.{Request, require_budget_admin}
use resource_mgmt_app.ReviewState.{group_review, get_admin_final_review}
use resource_mgmt_app.Lifecycle.{add_event}
use resource_mgmt_app.Outcome.{Outcome, done, refused, forbidden, reason_required, not_finalized}
use resource_mgmt_app.AdminFinal.Decision.{create_line_audit, put_review}
use resource_mgmt_app.AdminFinal.Finalize.{batch_load_reviews_by_line}

-- a review back to PENDING, its decider and time cleared; its amount and its note stay
abbrev pub reset_review : WorkLineReview → WorkLineReview
reset_review review = record review {
  status = ReviewStatus.pending;
  decided_at = none;
  decided_by_user_id = none;
}

-- the review is written if there is one
unfoldable pub reset_found : Option WorkLineReview → WorkLine → WorkLine
reset_found none line = line
reset_found (some review) line = put_review (reset_review review) line

-- the line of the loop under `reset_lines`
unfoldable pub reset_line : WorkLine → WorkLine
unfolding batch_load_reviews_by_line reset_found
reset_line line = record (reset_found (batch_load_reviews_by_line line).admin line) {
  status = LineStatus.pending;
  approved_amount_cents = none;
  needs_requester_action = false;
}

unfoldable pub unfinalize_item : Request → Option Text → Bool → WorkItem → WorkItem
unfolding reset_line
unfinalize_item r reason reset_lines item =
    record (add_event
      (record {
        event_type = EventType.unfinalize;
        old_value = some ItemStatus.finalized;
        new_value = some ItemStatus.submitted;
        reason = some (strip (or_empty reason));
        snapshot = no_snapshot;
        created_by_user_id = r.user_ctx.user_id;
      })
      item) {
        lines = if reset_lines then map reset_line item.lines else item.lines;
        status = ItemStatus.submitted;
        finalized_at = none;
        finalized_by_user_id = none;
        board_released_at = none;
      }

-- one request of the portfolio: a submitted supplementary one is paused
unfoldable pub pause : Request → Option Text → WorkItem → WorkItem
pause r reason supp =
    if not (is_primary supp.request_kind) && is_submitted supp.status && not supp.is_archived
    then add_event
        (record {
          event_type = EventType.pause;
          old_value = some ItemStatus.submitted;
          new_value = some ItemStatus.paused;
          reason = some (text "Primary request unfinalized: " ++ strip (or_empty reason));
          snapshot = no_snapshot;
          created_by_user_id = r.user_ctx.user_id;
        })
        (record supp { status = ItemStatus.paused })
    else supp

-- `others` are the other requests of the portfolio. The release emails that are withdrawn are no part
-- of the request.
unfoldable pub unfinalize_work_item :
    Request → Option Text → Bool → WorkItem → List WorkItem → Outcome × WorkItem × List WorkItem
unfolding require_budget_admin unfinalize_item pause
unfinalize_work_item r reason reset_lines item others =
    if not (require_budget_admin r)
    then (forbidden, item, others)
    else if is_blank reason
    then (refused reason_required, item, others)
    else if not (is_finalized item.status)
    then (refused not_finalized, item, others)
    else (
      done,
      unfinalize_item r reason reset_lines item,
      if is_primary item.request_kind then map (pause r reason) others else others,
    )

-- the line's own columns as both resets write them
abbrev pub reopen_line : Request → WorkLine → WorkLine
reopen_line r line = record line {
  status = LineStatus.pending;
  approved_amount_cents = none;
  needs_requester_action = false;
  status_changed_at = some r.now;
  status_changed_by_user_id = some r.user_ctx.user_id;
}

unfoldable pub rereviewed_line : Request → WorkLine → WorkLine
unfolding get_admin_final_review reset_found create_line_audit
rereviewed_line r line =
    create_line_audit r EventType.admin_final (AuditValue.words (text "reset"))
      (AuditValue.review_status ReviewStatus.pending) (some (text "Reset for re-review"))
      (reopen_line r (reset_found (get_admin_final_review line) line))

unfoldable pub reset_line_for_rereview : Request → WorkLine → Outcome × WorkLine
unfolding require_budget_admin rereviewed_line
reset_line_for_rereview r line =
    if not (require_budget_admin r) then (forbidden, line) else (done, rereviewed_line r line)

-- the group's review also loses its amount
unfoldable pub reset_group : Option WorkLineReview → WorkLine → WorkLine
reset_group none line = line
reset_group (some ag) line =
    put_review (record (reset_review ag) { approved_amount_cents = none }) line

unfoldable pub returned_line : Request → WorkLine → WorkLine
unfolding group_review get_admin_final_review reset_found reset_group create_line_audit
returned_line r line =
    let line' = reset_group (group_review line) line in
    create_line_audit r EventType.admin_final (AuditValue.words (text "return_to_group"))
      (AuditValue.review_status ReviewStatus.pending) (some (text "Returned to reviewer group"))
      (record (reopen_line r (reset_found (get_admin_final_review line') line')) {
        current_review_stage = some ReviewStage.approval_group;
      })

unfoldable pub return_line_to_reviewer_group : Request → WorkLine → Outcome × WorkLine
unfolding require_budget_admin returned_line
return_line_to_reviewer_group r line =
    if not (require_budget_admin r) then (forbidden, line) else (done, returned_line r line)

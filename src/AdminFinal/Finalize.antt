-- ===== src/AdminFinal/Finalize.antt =====
-- app/routes/admin_final/helpers.py: whether a request may be finalized, the summary of its lines, and
-- finalize_work_item.
pub mod Gate
pub mod Siblings
pub mod Resolution
use resource_mgmt_app.Base.{
  ℕ, ◌+◌, Bool, false, not, ◌&&◌, ◌||◌, Option, none, some, List, [], ◌∷◌, map, all, is_some,
  if◌then◌else◌,
}
use resource_mgmt_app.Base.Int.{ℤ, pos, ◌+ℤ◌, or_zero_ℤ}
use resource_mgmt_app.Base.Text.{Text, text, is_blank, strip, or_empty}
use resource_mgmt_app.Model.{
  ItemStatus, LineStatus, ReviewStage, ReviewStatus, EventType, WorkTypeConfig, BudgetLineDetail,
  WorkLine, WorkLineReview, WorkItem, no_snapshot, is_admin_final, is_approval_group, is_finalized,
  is_awaiting_dispatch, is_submitted, is_paused, is_primary, is_kicked_back, is_line_decided,
  is_line_rejected, is_line_approved, is_line_recommended,
}
use resource_mgmt_app.Access.{Request, require_budget_admin}
use resource_mgmt_app.ReviewState.{admin_decided, group_decided}
use resource_mgmt_app.Checkout.{is_checked_out}
use resource_mgmt_app.Lifecycle.{add_event}
use resource_mgmt_app.Outcome.{
  Refusal, Outcome, done, refused, forbidden, finalize_note_required, already_finalized,
  not_submitted, checked_out, awaiting_requester, nothing_reviewed,
}
use resource_mgmt_app.AdminFinal.Decision.{
  get_approval_group_review, get_or_create_admin_review, put_review, requested_amount,
  amount_of_review,
}

-- one entry of batch_load_reviews_by_line: the last row of each stage that the query returns
pub record LineReviews : Type 0 where
  pub admin : Option WorkLineReview
  pub ag : Option WorkLineReview

load_review : WorkLineReview → LineReviews → LineReviews
load_review v loaded =
    if is_admin_final v.stage
    then record loaded { admin = some v }
    else if is_approval_group v.stage
    then record loaded { ag = some v }
    else loaded

load_reviews : List WorkLineReview → LineReviews → LineReviews
unfolding load_review
load_reviews [] loaded = loaded
load_reviews (v ∷ vs) loaded = load_reviews vs (load_review v loaded)

unfoldable pub batch_load_reviews_by_line : WorkLine → LineReviews
unfolding load_reviews
batch_load_reviews_by_line line = load_reviews line.reviews (record { admin = none; ag = none })

-- a decision by the admin or, failing that, by the group
unfoldable pub has_decision : WorkLine → Bool
unfolding batch_load_reviews_by_line
has_decision line =
    let loaded = batch_load_reviews_by_line line in
    admin_decided loaded.admin || group_decided loaded.ag

-- the pass over the lines, which stops at the first that waits for the requester
check_lines : Bool → List WorkLine → Option Refusal
unfolding has_decision
check_lines has_any_decision [] = if has_any_decision then none else some nothing_reviewed
check_lines has_any_decision (line ∷ lines) =
    let rest = check_lines (has_any_decision || has_decision line) lines in
    if is_kicked_back line.status then some (awaiting_requester line.line_number) else rest

-- `none` is (True, "OK")
unfoldable pub can_finalize_work_item : ℕ → WorkItem → Option Refusal
unfolding is_checked_out check_lines
can_finalize_work_item now item =
    if is_finalized item.status
    then some already_finalized
    else if not (is_awaiting_dispatch item.status || is_submitted item.status)
    then some not_submitted
    else if is_checked_out item now
    then some checked_out
    else check_lines false item.lines

pub record FinalizationSummary : Type 0 where
  pub total_lines : ℕ
  pub approved_lines : ℕ
  pub rejected_lines : ℕ
  pub pending_lines : ℕ
  pub kicked_back_lines : ℕ
  pub total_requested_cents : ℤ
  pub total_approved_cents : ℤ

abbrev empty_summary : FinalizationSummary
empty_summary = record {
  total_lines = 0;
  approved_lines = 0;
  rejected_lines = 0;
  pending_lines = 0;
  kicked_back_lines = 0;
  total_requested_cents = pos 0;
  total_approved_cents = pos 0;
}

count_line : FinalizationSummary → WorkLine → FinalizationSummary
unfolding requested_amount
count_line summary line =
    let s = record summary {
      total_lines = summary.total_lines + 1;
      total_requested_cents =
          summary.total_requested_cents +ℤ or_zero_ℤ (requested_amount line.budget_detail);
    } in
    if is_line_approved line.status
    then record s {
      approved_lines = s.approved_lines + 1;
      total_approved_cents = s.total_approved_cents +ℤ or_zero_ℤ line.approved_amount_cents;
    }
    else if is_line_rejected line.status
    then record s { rejected_lines = s.rejected_lines + 1 }
    else if is_kicked_back line.status
    then record s { kicked_back_lines = s.kicked_back_lines + 1 }
    else record s { pending_lines = s.pending_lines + 1 }

unfoldable pub summarize : FinalizationSummary → List WorkLine → FinalizationSummary
unfolding count_line
summarize summary [] = summary
summarize summary (line ∷ lines) = summarize (count_line summary line) lines

unfoldable pub get_finalization_summary : WorkItem → FinalizationSummary
unfolding summarize
get_finalization_summary item = summarize empty_summary item.lines

-- `line.current_review_stage == ADMIN_FINAL and line.status in _ADMIN_TERMINAL`
in_admin_final : Option ReviewStage → Bool
in_admin_final none = false
in_admin_final (some stage) = is_admin_final stage

unfoldable pub admin_has_decided : WorkLine → Bool
unfolding in_admin_final
admin_has_decided line = in_admin_final line.current_review_stage && is_line_decided line.status

or_amount : Option ℤ → ℤ → ℤ
or_amount none fallback = fallback
or_amount (some amount) _ = amount

-- 0 for a rejected line; for one that its reviewers approved their amount, if they set one; otherwise
-- the requested amount, or 0 where there is no budget detail
unfoldable pub amount_by_status : LineStatus → Option WorkLineReview → ℤ → ℤ
unfolding amount_of_review or_amount
amount_by_status status ag requested =
    if is_line_rejected status
    then pos 0
    else if is_line_recommended status
    then or_amount (amount_of_review ag) requested
    else requested

unfoldable pub resolved_amount : WorkLine → ℤ
unfolding requested_amount get_approval_group_review amount_by_status
resolved_amount line =
    amount_by_status line.status (get_approval_group_review line)
      (or_zero_ℤ (requested_amount line.budget_detail))

-- the body of the loop, for a line that the admin has not decided
unfoldable pub resolve_line : Request → ℕ → WorkLine → WorkLine
unfolding get_or_create_admin_review resolved_amount
resolve_line r next line =
    let (review, line') = get_or_create_admin_review r next line in
    let rejected = is_line_rejected line.status in
    let amount = resolved_amount line' in
    record (put_review
      (record review {
        status = if rejected then ReviewStatus.rejected else ReviewStatus.approved;
        approved_amount_cents = some amount;
        decided_at = some r.now;
        decided_by_user_id = some r.user_ctx.user_id;
        note = some (text "Resolved during finalization");
      })
      line') {
        status = if rejected then LineStatus.rejected else LineStatus.approved;
        approved_amount_cents = some amount;
        status_changed_at = some r.now;
        status_changed_by_user_id = some r.user_ctx.user_id;
        current_review_stage = some ReviewStage.admin_final;
      }

-- `next` is an id above those of the review rows; each line takes one, used or not
unfoldable pub finalize_lines : Request → ℕ → List WorkLine → List WorkLine
unfolding admin_has_decided resolve_line
finalize_lines r next [] = []
finalize_lines r next (line ∷ lines) =
    (if admin_has_decided line then line else resolve_line r next line)
    ∷ finalize_lines r (next + 1) lines

unfoldable pub uses_release : Option WorkTypeConfig → Bool
uses_release none = false
uses_release (some config) = config.uses_board_release

-- the release of a budget that the board has already approved; the email is queued beside it
unfoldable pub release_if_approved : Request → WorkItem → WorkItem
unfolding uses_release
release_if_approved r item =
    if uses_release item.portfolio.work_type.config
      && is_some item.portfolio.event_cycle.board_approved_at
    then add_event
        (record {
          event_type = EventType.board_release;
          old_value = none;
          new_value = none;
          reason =
              some
                (text "Automatic release: FY budget approval was already recorded for this event.");
          snapshot = no_snapshot;
          created_by_user_id = r.user_ctx.user_id;
        })
        (record item { board_released_at = some r.now })
    else item

unfoldable pub finalize_item : Request → Option Text → ℕ → WorkItem → WorkItem
unfolding finalize_lines release_if_approved
finalize_item r note next item =
    add_event
      (record {
        event_type = EventType.finalize;
        old_value = some item.status;
        new_value = some ItemStatus.finalized;
        reason = some (strip (or_empty note));
        snapshot = no_snapshot;
        created_by_user_id = r.user_ctx.user_id;
      })
      (release_if_approved r (record item {
        lines = finalize_lines r next item.lines;
        status = ItemStatus.finalized;
        finalized_at = some r.now;
        finalized_by_user_id = some r.user_ctx.user_id;
      }))

is_routed : Option BudgetLineDetail → Bool
is_routed none = false
is_routed (some d) = is_some d.routed_approval_group

-- a budget detail with its group, and an approval-group review, on every line
unfoldable pub can_unpause : WorkItem → Bool
unfolding is_routed batch_load_reviews_by_line
can_unpause supp =
    all (λ line. is_routed line.budget_detail && is_some (batch_load_reviews_by_line line).ag)
      supp.lines

unpause_event : Request → EventType → ItemStatus → Text → WorkItem → WorkItem
unpause_event r event_type new_value reason supp =
    add_event
      (record {
        event_type = event_type;
        old_value = some ItemStatus.paused;
        new_value = some new_value;
        reason = some reason;
        snapshot = no_snapshot;
        created_by_user_id = r.user_ctx.user_id;
      })
      supp

-- one request of the portfolio: a paused supplementary one goes on where its lines allow it
unfoldable pub unpause : Request → WorkItem → WorkItem
unfolding can_unpause unpause_event
unpause r supp =
    if not (is_primary supp.request_kind) && is_paused supp.status && not supp.is_archived
    then (if can_unpause supp
        then unpause_event r EventType.unpause ItemStatus.submitted
            (text "Primary request re-finalized") (record supp { status = ItemStatus.submitted })
        else unpause_event r EventType.unpause_failed ItemStatus.paused
            (text
              "Primary re-finalized but supplementary has invalid line state - manual review required")
            supp)
    else supp

-- `others` are the other requests of the portfolio.
unfoldable pub finalize_work_item :
    Request → Option Text → ℕ → WorkItem → List WorkItem → Outcome × WorkItem × List WorkItem
unfolding require_budget_admin can_finalize_work_item finalize_item unpause
finalize_work_item r note next item others =
    if not (require_budget_admin r)
    then (forbidden, item, others)
    else if is_blank note
    then (refused finalize_note_required, item, others)
    else elim (can_finalize_work_item r.now item) [
      | some reason ↦ (refused reason, item, others)
      | none ↦ (
        done,
        finalize_item r note next item,
        if is_primary item.request_kind then map (unpause r) others else others,
      )
    ]

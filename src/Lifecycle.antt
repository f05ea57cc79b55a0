-- ===== src/Lifecycle.antt =====
-- app/routes/work/helpers/lifecycle.py: submit, recall, return to draft, and the finalization of a
-- request whose work type has no admin-final stage.
pub mod Lock
pub mod Submit
pub mod Draft
pub mod AutoFinalize
use resource_mgmt_app.Base.{
  ℕ, suc, ◌+◌, Bool, true, false, not, ◌&&◌, Option, none, some, List, [], ◌∷◌, ◌++◌, map, any, all,
  select, length, leb, if◌then◌else◌,
}
use resource_mgmt_app.Base.Text.{Text}
use resource_mgmt_app.Model.{
  ApprovalGroup, WorkTypeConfig, WorkLine, WorkLineReview, WorkItem, WorkItemAuditEvent,
  DeletedReview, ReturnAction, Snapshot, no_snapshot, submitted_totals, from_status, returned,
  auto_finalized, ItemStatus, LineStatus, ReviewStage, ReviewStatus, EventType, is_approval_group,
  is_finalized, is_open_review,
}
use resource_mgmt_app.LineDetails.{set_line_routing_approval_group}
use resource_mgmt_app.Access.{Request, is_group_final}
use resource_mgmt_app.Routing.{Routed, to_group, no_group, value_error, get_approval_group_for_line}
use resource_mgmt_app.Totals.{compute_work_item_totals}

-- `db.session.add(WorkItemAuditEvent(…))`
abbrev pub add_event : WorkItemAuditEvent → WorkItem → WorkItem
add_event event item = record item { audit_events = item.audit_events ++ (event ∷ []) }

-- a new review row, whose id comes from the table's sequence
abbrev pub new_review : Request → ℕ → ReviewStage → Option ApprovalGroup → WorkLineReview
new_review r id stage group = record {
  id = id;
  stage = stage;
  approval_group = group;
  status = ReviewStatus.pending;
  approved_amount_cents = none;
  note = none;
  decided_at = none;
  decided_by_user_id = none;
  created_by_user_id = r.user_ctx.user_id;
}

abbrev pub add_review : WorkLineReview → WorkLine → WorkLine
add_review review line = record line { reviews = line.reviews ++ (review ∷ []) }

-- the snapshot, the stage and the review of one routed line
unfoldable pub route_line : Request → ℕ → ApprovalGroup → WorkLine → WorkLine
route_line r id group line =
    add_review (new_review r id ReviewStage.approval_group (some group))
      (record (set_line_routing_approval_group line (some group)).0 {
        current_review_stage = some ReviewStage.approval_group;
      })

-- the id of the next review row after a line
next_after : Routed → ℕ → ℕ
next_after (to_group _) next = next + 1
next_after no_group next = next
next_after value_error next = next

attach : Request → ℕ → WorkLine → Routed → Option (List WorkLine) → Option (List WorkLine)
unfolding route_line
attach r next line value_error rest = none
attach r next line (to_group group) none = none
attach r next line (to_group group) (some rest) = some (route_line r next group line ∷ rest)
attach r next line no_group none = none
attach r next line no_group (some rest) = some (line ∷ rest)

-- The loop of submit_work_item; `none` is the ValueError of a group of another work type. `next` is
-- the id of the next review row.
unfoldable pub route_lines : Request → WorkItem → ℕ → List WorkLine → Option (List WorkLine)
unfolding next_after attach
route_lines r item next [] = some []
route_lines r item next (line ∷ lines) =
    let routed = get_approval_group_for_line item.portfolio line in
    attach r next line routed (route_lines r item (next_after routed next) lines)

-- the audit event, with the totals of the request as it is now
unfoldable pub log_submit : Request → WorkItem → WorkItem
log_submit r item =
    add_event
      (record {
        event_type = EventType.submit;
        old_value = none;
        new_value = none;
        reason = none;
        snapshot = submitted_totals (length item.lines) (compute_work_item_totals item).requested;
        created_by_user_id = r.user_ctx.user_id;
      })
      item

submit_routed : Request → WorkItem → Option (List WorkLine) → Option WorkItem
unfolding log_submit
submit_routed r item none = none
submit_routed r item (some lines) =
    some (log_submit r (record item { lines = lines; status = ItemStatus.submitted }))

submit_by_config : Option WorkTypeConfig → Request → ℕ → WorkItem → Option WorkItem
unfolding log_submit submit_routed
submit_by_config none r next item = none
submit_by_config (some config) r next item =
    if config.uses_dispatch
    then some (log_submit r (record item { status = ItemStatus.awaiting_dispatch }))
    else submit_routed r item (route_lines r item next item.lines)

-- `none` is an exception: a routing error, or a work type without a configuration. The new status is
-- that of the request returned.
unfoldable pub submit_work_item : Request → ℕ → WorkItem → Option WorkItem
unfolding submit_by_config
submit_work_item r next item =
    submit_by_config item.portfolio.work_type.config r next
      (record item { submitted_at = some r.now; submitted_by_user_id = some r.user_ctx.user_id })

unfoldable pub recall_to_draft : Request → WorkItem → WorkItem
recall_to_draft r item =
    add_event
      (record {
        event_type = EventType.recall_to_draft;
        old_value = none;
        new_value = none;
        reason = none;
        snapshot = from_status item.status;
        created_by_user_id = r.user_ctx.user_id;
      })
      (record item { status = ItemStatus.draft; submitted_at = none; submitted_by_user_id = none })

code_of : Option ApprovalGroup → Option Text
code_of none = none
code_of (some group) = some group.code

unfoldable pub to_deleted : WorkLine → WorkLineReview → DeletedReview
unfolding code_of
to_deleted line review = record {
  line_number = line.line_number;
  approval_group_code = code_of review.approval_group;
  status = review.status;
  decided_by_user_id = review.decided_by_user_id;
  note = review.note;
}

-- the approval-group reviews of all lines
unfoldable pub deleted_reviews : List WorkLine → List DeletedReview
unfolding to_deleted
deleted_reviews [] = []
deleted_reviews (line ∷ lines) =
    map (to_deleted line) (select (λ v. is_approval_group v.stage) line.reviews)
    ++ deleted_reviews lines

-- `sorted(…, key=line_number)`, which is stable
insert_deleted : DeletedReview → List DeletedReview → List DeletedReview
insert_deleted d [] = d ∷ []
insert_deleted d (e ∷ es) =
    let rest = insert_deleted d es in
    if leb d.line_number e.line_number then d ∷ e ∷ es else e ∷ rest

unfoldable pub sort_deleted : List DeletedReview → List DeletedReview
unfolding insert_deleted
sort_deleted [] = []
sort_deleted (d ∷ ds) = insert_deleted d (sort_deleted ds)

-- a line without its reviews, as a draft has it
abbrev pub clear_line : WorkLine → WorkLine
clear_line line = record line {
  reviews = [];
  status = LineStatus.pending;
  needs_requester_action = false;
  current_review_stage = none;
}

unfoldable pub reset_submitted_to_draft : Request → ReturnAction → Option Text → WorkItem → WorkItem
unfolding deleted_reviews sort_deleted
reset_submitted_to_draft r action reason item =
    add_event
      (record {
        event_type = EventType.recall_to_draft;
        old_value = some item.status;
        new_value = some ItemStatus.draft;
        reason = reason;
        snapshot = returned action item.status (sort_deleted (deleted_reviews item.lines));
        created_by_user_id = r.user_ctx.user_id;
      })
      (record item {
        lines = map clear_line item.lines;
        status = ItemStatus.draft;
        submitted_at = none;
        submitted_by_user_id = none;
        checked_out_by_user_id = none;
        checked_out_at = none;
        checked_out_expires_at = none;
        finalized_at = none;
        finalized_by_user_id = none;
      })

-- the rows of `reviews_query`: every approval-group review of the request
unfoldable pub group_reviews : List WorkLine → List WorkLineReview
group_reviews [] = []
group_reviews (line ∷ lines) =
    select (λ v. is_approval_group v.stage) line.reviews ++ group_reviews lines

abbrev has_rows : List WorkLineReview → Bool
has_rows [] = false
has_rows (_ ∷ _) = true

-- the guards of try_auto_finalize
unfoldable pub may_auto_finalize : WorkItem → Bool
unfolding group_reviews is_group_final
may_auto_finalize item =
    not (is_finalized item.status)
    && is_group_final item.portfolio
    && has_rows (group_reviews item.lines)
    && not (any (λ v. is_open_review v.status) (group_reviews item.lines))

unfoldable pub try_auto_finalize : Request → WorkItem → WorkItem × Bool
unfolding may_auto_finalize
try_auto_finalize r item =
    if may_auto_finalize item
    then (
      add_event
          (record {
            event_type = EventType.finalize;
            old_value = none;
            new_value = none;
            reason = none;
            snapshot = auto_finalized;
            created_by_user_id = r.user_ctx.user_id;
          })
          (record item {
            status = ItemStatus.finalized;
            finalized_at = some r.now;
            finalized_by_user_id = some r.user_ctx.user_id;
          }),
      true,
    )
    else (item, false)

-- ===== src/Dispatch.antt =====
-- The dispatch queue, app/routes/dispatch/dashboard.py and helpers.py: the assignment of approval groups to
-- the lines of a submitted request, and its dispatch. `form` is what the posted form has as the group id of a
-- line, where it is a number; `groups` is the table of groups. A refusal is not committed.
pub mod Lock
pub mod Queue
use resource_mgmt_app.Base.{
  ℕ, suc, ◌+◌, Bool, true, false, not, ◌&&◌, Option, none, some, List, [], ◌∷◌, ◌++◌, map, find?,
  is_some, length, ◌==◌, if◌then◌else◌,
}
use resource_mgmt_app.Base.Text.{Text}
use resource_mgmt_app.Model.{
  ApprovalGroup, WorkTypeConfig, BudgetLineDetail, WorkLine, WorkItem, ItemStatus, ReviewStage,
  EventType, Snapshot, is_awaiting_dispatch,
}
use resource_mgmt_app.Access.{Request, require_budget_admin}
use resource_mgmt_app.LineDetails.{compute_line_amount_cents}
use resource_mgmt_app.Lifecycle.{add_event, add_review, new_review}
use resource_mgmt_app.Outcome.{Outcome, Refusal, done, refused, forbidden}

uses_dispatch : Option WorkTypeConfig → Bool
uses_dispatch none = false
uses_dispatch (some config) = config.uses_dispatch

unfoldable pub chosen_group : List ApprovalGroup → Option ℕ → Option ApprovalGroup
chosen_group groups none = none
chosen_group groups (some group_id) = find? (λ g. g.id == group_id) groups

route_detail : Option ApprovalGroup → Option BudgetLineDetail → Option BudgetLineDetail
route_detail (some group) (some detail) =
    some (record detail { routed_approval_group = some group })
route_detail none detail = detail
route_detail (some group) none = none

-- one pass of the loop over the form
unfoldable pub assign_line : List ApprovalGroup → (ℕ → Option ℕ) → WorkLine → WorkLine
unfolding chosen_group route_detail
assign_line groups form line = record line {
  budget_detail = route_detail (chosen_group groups (form line.id)) line.budget_detail;
}

-- the guards of both handlers
unfoldable pub guarded : Request → WorkItem → Outcome × WorkItem → Outcome × WorkItem
unfolding require_budget_admin uses_dispatch
guarded r item otherwise =
    if not (require_budget_admin r)
    then (forbidden, item)
    else if not (uses_dispatch item.portfolio.work_type.config)
    then (Outcome.not_found, item)
    else if not (is_awaiting_dispatch item.status)
    then (refused Refusal.not_awaiting_dispatch, item)
    else otherwise

unfoldable pub assign_approval_groups :
    Request → List ApprovalGroup → (ℕ → Option ℕ) → WorkItem → Outcome × WorkItem
unfolding guarded assign_line
assign_approval_groups r groups form item =
    guarded r item (done, record item { lines = map (assign_line groups form) item.lines })

unfoldable pub detail_group : Option BudgetLineDetail → Option ApprovalGroup
detail_group none = none
detail_group (some detail) = detail.routed_approval_group

unfoldable pub assigned_group : WorkLine → Option ApprovalGroup
unfolding detail_group
assigned_group line = detail_group line.budget_detail

-- the numbers of the lines without a group
unfoldable pub unassigned : List WorkLine → List ℕ
unfolding assigned_group
unassigned [] = []
unassigned (line ∷ lines) =
    let rest = unassigned lines in
    if is_some (assigned_group line) then rest else line.line_number ∷ rest

-- the stage and the review of one line; `id` is the new review's
unfoldable pub dispatch_line : Request → ℕ → WorkLine → WorkLine
unfolding assigned_group
dispatch_line r id line =
    add_review (new_review r id ReviewStage.approval_group (assigned_group line))
      (record line { current_review_stage = some ReviewStage.approval_group })

unfoldable pub dispatch_lines : Request → ℕ → List WorkLine → List WorkLine
unfolding dispatch_line
dispatch_lines r next [] = []
dispatch_lines r next (line ∷ lines) = dispatch_line r next line ∷ dispatch_lines r (next + 1) lines

-- one more line of a group, in the order in which the groups are met
add_to_group : ApprovalGroup → List (ApprovalGroup × ℕ) → List (ApprovalGroup × ℕ)
add_to_group group [] = (group, 1) ∷ []
add_to_group group ((g, n) ∷ rest) =
    let rest' = add_to_group group rest in
    if g.id == group.id then (g, suc n) ∷ rest else (g, n) ∷ rest'

add_line_group : Option ApprovalGroup → List (ApprovalGroup × ℕ) → List (ApprovalGroup × ℕ)
unfolding add_to_group
add_line_group none counts = counts
add_line_group (some group) counts = add_to_group group counts

unfoldable pub groups_summary : List WorkLine → List (ApprovalGroup × ℕ) → List (ApprovalGroup × ℕ)
unfolding assigned_group add_line_group
groups_summary [] counts = counts
groups_summary (line ∷ lines) counts =
    groups_summary lines (add_line_group (assigned_group line) counts)

unfoldable pub dispatched_item : Request → ℕ → WorkItem → WorkItem
unfolding dispatch_lines groups_summary
dispatched_item r next item =
    add_event
      (record {
        event_type = EventType.dispatch;
        old_value = none;
        new_value = none;
        reason = none;
        snapshot =
            Snapshot.dispatched (length item.lines)
              (map (λ (g : ApprovalGroup × ℕ). (g.0.name, g.1)) (groups_summary item.lines []));
        created_by_user_id = r.user_ctx.user_id;
      })
      (record item {
        lines = dispatch_lines r next item.lines;
        status = ItemStatus.submitted;
        dispatched_at = some r.now;
        dispatched_by_user_id = some r.user_ctx.user_id;
      })

queue_or_refuse : Request → ℕ → WorkItem → WorkItem → List ℕ → Outcome × WorkItem
unfolding dispatched_item
queue_or_refuse r next item assigned [] = (done, dispatched_item r next assigned)
queue_or_refuse r next item assigned (n ∷ ns) = (refused (Refusal.unassigned_lines (n ∷ ns)), item)

-- `next` is the id of the next review row
unfoldable pub dispatch_to_queue :
    Request → List ApprovalGroup → (ℕ → Option ℕ) → ℕ → WorkItem → Outcome × WorkItem
unfolding guarded assign_line unassigned queue_or_refuse
dispatch_to_queue r groups form next item =
    let assigned = record item { lines = map (assign_line groups form) item.lines } in
    guarded r item (queue_or_refuse r next item assigned (unassigned assigned.lines))

-- one row of the dispatch queue: lines, lines with a group, and the total
pub record DispatchQueueItem : Type 0 where
  pub work_item : WorkItem
  pub line_count : ℕ
  pub assigned_count : ℕ
  pub total_cents : ℕ

count_queue_line : DispatchQueueItem → Option BudgetLineDetail → DispatchQueueItem
unfolding compute_line_amount_cents
count_queue_line row none = row
count_queue_line row (some detail) = record row {
  total_cents =
      row.total_cents
      + compute_line_amount_cents (some detail.unit_price_cents) (some detail.quantity);
  assigned_count =
      if is_some detail.routed_approval_group then row.assigned_count + 1 else row.assigned_count;
}

count_queue_lines : DispatchQueueItem → List WorkLine → DispatchQueueItem
unfolding count_queue_line
count_queue_lines row [] = row
count_queue_lines row (line ∷ lines) =
    count_queue_lines (count_queue_line row line.budget_detail) lines

unfoldable pub queue_item : WorkItem → DispatchQueueItem
unfolding count_queue_lines
queue_item item =
    count_queue_lines
      (record {
        work_item = item;
        line_count = length item.lines;
        assigned_count = 0;
        total_cents = 0;
      })
      item.lines

-- ===== src/Actions.antt =====
-- The handlers of app/routes/work/work_items/actions.py (submit, recall, review session, extension) and of
-- app/routes/work/techops/send_back.py (return to draft). `groups` are the active approval groups, `items` the
-- requests of the portfolio; the emails that a handler queues are no part of the request.
pub mod Lock
pub mod Returns
pub mod Session
pub mod Edges
pub mod Steps
pub mod Verdicts
pub mod Diagram
use resource_mgmt_app.Base.{
  ℕ, Bool, true, false, not, ◌&&◌, ◌||◌, Option, none, some, List, [], ◌∷◌, ◌++◌, any, all, ltb,
  is_some, is_value, ◌==◌, if◌then◌else◌,
}
use resource_mgmt_app.Base.Text.{Text, strip, is_empty, or_empty}
use resource_mgmt_app.Model.{
  ApprovalGroup, EventCycle, WorkLine, WorkItem, PortfolioContext, EventType, Snapshot,
  ReturnAction, is_draft, is_submitted, is_finalized, is_approval_group, is_pending_review,
}
use resource_mgmt_app.Access.{Request, is_worktype_admin}
use resource_mgmt_app.Checkout.{
  Timeouts, can_checkout, is_ok, is_checked_out, checkout_work_item, checkin_work_item,
}
use resource_mgmt_app.Lifecycle.{
  add_event, submit_work_item, recall_to_draft, reset_submitted_to_draft,
}
use resource_mgmt_app.Permissions.{
  PortfolioPerms, WorkItemPerms, of_user, build_portfolio_perms, build_work_item_perms,
}
use resource_mgmt_app.Outcome.{Outcome, Refusal, done, refused, forbidden}

-- what a handler has at hand
pub record Page : Type 0 where
  pub ctx : PortfolioContext
  pub request : Request
  pub groups : List ApprovalGroup
  pub items : List WorkItem

abbrev pub perms_of : Page → WorkItem → WorkItemPerms
perms_of page item = build_work_item_perms page.groups item page.ctx page.request page.items

-- the request of the user of the page
abbrev pub by : Page → Request
by page = of_user page.ctx page.request

unfoldable pub missing_details : List WorkLine → Option ℕ
missing_details [] = none
missing_details (line ∷ lines) =
    let rest = missing_details lines in
    if is_some line.budget_detail then rest else some line.line_number

unfoldable pub is_without : List WorkLine → Bool
is_without [] = true
is_without (_ ∷ _) = false

submitted_or : WorkItem → Option WorkItem → Outcome × WorkItem
submitted_or item none = (Outcome.missing_row, item)
submitted_or item (some item') = (done, item')

submit_checked : Page → ℕ → WorkItem → Option ℕ → Outcome × WorkItem
unfolding submit_work_item submitted_or
submit_checked page next item (some number) = (refused (Refusal.missing_detail number), item)
submit_checked page next item none = submitted_or item (submit_work_item (by page) next item)

-- `missing_row` is the exception of a routing that fails; nothing is committed then. The expense account of a
-- budget detail is never NULL.
unfoldable pub work_item_submit : Page → ℕ → WorkItem → Outcome × WorkItem
unfolding missing_details is_without submit_checked build_work_item_perms
work_item_submit page next item =
    if not ((perms_of page item).can_edit)
    then (forbidden, item)
    else if not (is_draft item.status)
    then (refused Refusal.only_drafts, item)
    else if is_without item.lines
    then (refused Refusal.no_lines, item)
    else submit_checked page next item (missing_details item.lines)

unfoldable pub work_item_recall : Page → WorkItem → Outcome × WorkItem
unfolding build_work_item_perms recall_to_draft
work_item_recall page item =
    if not ((perms_of page item).can_view)
    then (forbidden, item)
    else if not ((perms_of page item).can_recall)
    then (refused Refusal.recall_unavailable, item)
    else (done, recall_to_draft (by page) item)

-- an event without values, by the user of the page
simple_event : Page → EventType → Snapshot → WorkItem → WorkItem
simple_event page event_type snapshot item =
    add_event
      (record {
        event_type = event_type;
        old_value = none;
        new_value = none;
        reason = none;
        snapshot = snapshot;
        created_by_user_id = page.ctx.user_ctx.user_id;
      })
      item

unfoldable pub checked_out_as : Page → WorkItem × Bool → Outcome × WorkItem
unfolding simple_event
checked_out_as page (item', false) = (refused Refusal.session_not_started, item')
checked_out_as page (item', true) = (
  done,
  simple_event page EventType.checkout (Snapshot.checkout_until item'.checked_out_expires_at) item',
)

unfoldable pub work_item_checkout : Timeouts → Page → WorkItem → Outcome × WorkItem
unfolding build_work_item_perms can_checkout checkout_work_item checked_out_as
work_item_checkout timeouts page item =
    if not ((perms_of page item).can_view)
    then (forbidden, item)
    else if not ((perms_of page item).can_checkout)
    then (
      refused (
          if is_ok (can_checkout item (by page))
          then Refusal.no_line_to_review
          else Refusal.session_refused (can_checkout item (by page))),
      item,
    )
    else checked_out_as page (checkout_work_item timeouts item (by page))

unfoldable pub checked_in_as : Page → Option ℕ → Bool → WorkItem × Bool → Outcome × WorkItem
unfolding simple_event
checked_in_as page holder force (item', false) = (refused Refusal.session_not_ended, item')
checked_in_as page holder force (item', true) =
    (done, simple_event page EventType.checkin (Snapshot.checkin_of holder force) item')

unfoldable pub work_item_checkin : Page → WorkItem → Outcome × WorkItem
unfolding build_work_item_perms checkin_work_item checked_in_as
work_item_checkin page item =
    let perms = perms_of page item in
    let force = perms.is_worktype_admin && not perms.is_checked_out_by_current_user in
    if not perms.can_view
    then (forbidden, item)
    else if not perms.can_checkin
    then (refused Refusal.checkin_unavailable, item)
    else checked_in_as page item.checked_out_by_user_id force
        (checkin_work_item item (by page) force)

-- the gate of both extension handlers
extension_gate : Page → WorkItem → Bool
unfolding build_work_item_perms is_worktype_admin
extension_gate page item =
    (perms_of page item).can_view && is_worktype_admin (by page) page.ctx.portfolio.work_type.id

unfoldable pub work_item_grant_extension : Page → WorkItem → Outcome × WorkItem
unfolding extension_gate simple_event
work_item_grant_extension page item =
    if not (extension_gate page item)
    then (forbidden, item)
    else if item.extension_granted
    then (refused Refusal.extension_there, item)
    else (
      done,
      simple_event page EventType.extension_granted Snapshot.no_snapshot (record item {
        extension_granted = true;
        extension_granted_at = some page.request.now;
        extension_granted_by_user_id = some page.ctx.user_ctx.user_id;
      }),
    )

unfoldable pub work_item_revoke_extension : Page → WorkItem → Outcome × WorkItem
unfolding extension_gate simple_event
work_item_revoke_extension page item =
    if not (extension_gate page item)
    then (forbidden, item)
    else if not item.extension_granted
    then (refused Refusal.no_extension, item)
    else (
      done,
      simple_event page EventType.extension_revoked Snapshot.no_snapshot (record item {
        extension_granted = false;
        extension_granted_at = none;
        extension_granted_by_user_id = none;
      }),
    )

is_past : ℕ → Option ℕ → Bool
is_past now none = false
is_past now (some end) = ltb end now

end_of : (ℕ → ℕ) → Option ℕ → Option ℕ
end_of day_end none = none
end_of day_end (some day) = some (day_end day)

-- the deadline is a date; `day_end` is the last second of a date in US Eastern time
unfoldable pub pull_back_deadline_passed : (ℕ → ℕ) → EventCycle → ℕ → Bool
unfolding is_past end_of
pull_back_deadline_passed day_end cycle now =
    is_past now (end_of day_end cycle.techops_submission_deadline)

unfoldable pub all_reviews_pending : WorkItem → Bool
all_reviews_pending item =
    all
      (λ line.
        not (any (λ v. is_approval_group v.stage && not (is_pending_review v.status)) line.reviews))
      item.lines

pub record ReturnOptions : Type 0 where
  pub can_pull_back : Bool
  pub can_send_back : Bool
  -- the note is DEADLINE_PASSED
  pub is_too_late : Bool

unfoldable pub techops_return_options : (ℕ → ℕ) → Page → WorkItem → ReturnOptions
unfolding build_work_item_perms build_portfolio_perms pull_back_deadline_passed is_checked_out
    all_reviews_pending
techops_return_options day_end page item =
    let is_admin = (perms_of page item).is_worktype_admin in
    let late = pull_back_deadline_passed day_end item.portfolio.event_cycle page.request.now in
    let locked = is_checked_out item page.request.now in
    let is_editor =
      not is_admin
      && (build_portfolio_perms page.ctx page.request page.items).can_edit
      && is_submitted item.status in
    let can_pull_back = is_editor && not late && not locked && all_reviews_pending item in
    record {
      can_pull_back = can_pull_back;
      can_send_back =
          is_admin
          && (is_submitted item.status || is_finalized item.status)
          && not (locked && not (is_value item.checked_out_by_user_id page.ctx.user_ctx.user_id));
      is_too_late =
          not (can_pull_back && is_some item.portfolio.event_cycle.techops_submission_deadline)
          && is_editor
          && late;
    }

unfoldable pub techops_request_pull_back : (ℕ → ℕ) → Page → WorkItem → Outcome × WorkItem
unfolding techops_return_options reset_submitted_to_draft
techops_request_pull_back day_end page item =
    let options = techops_return_options day_end page item in
    if item.is_archived || not options.can_pull_back
    then (
      refused (
          if not item.is_archived && options.is_too_late
          then Refusal.deadline_passed
          else Refusal.return_unavailable),
      item,
    )
    else (done, reset_submitted_to_draft (by page) ReturnAction.pull_back none item)

-- `text.replace("\r\n", "\n")`
newlines : Text → Text
newlines [] = []
newlines (c ∷ []) = c ∷ []
newlines (c ∷ d ∷ cs) =
    let rest = newlines (d ∷ cs) in if c == 13 && d == 10 then rest else c ∷ rest

unfoldable pub techops_request_send_back :
    (ℕ → ℕ) → Page → Option Text → WorkItem → Outcome × WorkItem
unfolding techops_return_options reset_submitted_to_draft strip newlines
techops_request_send_back day_end page words item =
    let reason = strip (newlines (or_empty words)) in
    if item.is_archived || not (techops_return_options day_end page item).can_send_back
    then (refused Refusal.return_unavailable, item)
    else if is_empty reason
    then (refused Refusal.reason_required, item)
    else (
      done,
      record (reset_submitted_to_draft (by page) ReturnAction.send_back (some reason) item) {
        comments =
            item.comments
            ++ (record {
              is_public = true;
              body = reason;
              created_by_user_id = page.ctx.user_ctx.user_id;
            }
                ∷ []);
      },
    )

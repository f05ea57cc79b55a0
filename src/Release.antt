-- ===== src/Release.antt =====
-- The board's release of an event's budgets, and its emails: get_held_budgets, finalized_template_is_live,
-- release_event_budgets and _cancel_pending_release_emails of app/routes/admin_final/helpers.py, with
-- _enqueue_emails and notify_work_item_finalized of app/services/notifications.py. The recipients are what the
-- membership queries answer; a new row takes the next id.
pub mod Run
pub mod Effects
use resource_mgmt_app.Base.{
  ℕ, suc, ◌+◌, Bool, true, false, not, ◌&&◌, Option, none, some, List, [], ◌∷◌, ◌++◌, map, all,
  select, length, is_some, is_value, ◌==◌, if◌then◌else◌,
}
use resource_mgmt_app.Base.Text.{Text, text, strip, or_empty, is_blank, eqb_text}
use resource_mgmt_app.Model.{EventCycle, WorkPortfolio, WorkItem, EventType, Snapshot, is_finalized}
use resource_mgmt_app.Lifecycle.{add_event}
use resource_mgmt_app.Access.{Request, require_budget_admin}
use resource_mgmt_app.Outcome.{Outcome, Refusal, done, refused, forbidden}
use resource_mgmt_app.Templates.{Templates, EffectiveTemplate, get_effective_template}
use resource_mgmt_app.Outbox.{OutboxStatus, EmailOutbox, LogEntry, is_claimable, terminate}
use resource_mgmt_app.Enqueue.{
  Formats, EnqueueOutcome, is_after, resolve_template_key, build_dedup_key, enqueue_email,
}
use resource_mgmt_app.AdminFinal.Finalize.{uses_release}

-- what the enqueueing reads
pub record Mailer : Type 0 where
  pub tables : Templates
  pub formats : Formats
  pub recipients : WorkItem → List Text

-- the outbox with the next id
pub record Box : Type 0 where
  pub rows : List EmailOutbox
  pub next : ℕ

-- _QUEUED_OUTCOMES
abbrev pub is_queued : EnqueueOutcome → Bool
is_queued EnqueueOutcome.created = true
is_queued EnqueueOutcome.deferred = true
is_queued _ = false

enqueue_one : Mailer → ℕ → Text → WorkItem → Option ℕ → Text → Box → Box × Bool
unfolding resolve_template_key build_dedup_key enqueue_email
enqueue_one mailer now kind item event_stamp email box =
    let portfolio = item.portfolio in
    let (rows, outcome) =
      enqueue_email mailer.tables now box.next
        (record {
          template_key =
              resolve_template_key mailer.formats mailer.tables kind
                (some portfolio.work_type.code);
          recipient_email = email;
          recipient_user_id = none;
          work_item_id = some item.id;
          event_cycle_id = some portfolio.event_cycle.id;
          department_id = some portfolio.department_id;
          work_type_id = some portfolio.work_type.id;
          context_json = none;
          dedup_key = some (
              build_dedup_key mailer.formats kind (record {
                work_item_id = some item.id;
                event_cycle_id = none;
                department_id = none;
                recipient_email = email;
                now = now;
                event_stamp = event_stamp;
              }));
          dispatch_at = none;
        })
        box.rows in
    (record { rows = rows; next = suc box.next }, is_queued outcome)

-- one row for each recipient, and the number of those that are queued
unfoldable pub enqueue_emails : Mailer → ℕ → Text → WorkItem → Option ℕ → List Text → Box → Box × ℕ
unfolding enqueue_one
enqueue_emails mailer now kind item event_stamp [] box = (box, 0)
enqueue_emails mailer now kind item event_stamp (email ∷ emails) box =
    let (box', queued) = enqueue_one mailer now kind item event_stamp email box in
    let (box'', count) = enqueue_emails mailer now kind item event_stamp emails box' in
    (box'', if queued then suc count else count)

unfoldable pub notify_work_item_finalized : Mailer → ℕ → WorkItem → Box → Box × ℕ
unfolding enqueue_emails
notify_work_item_finalized mailer now item box =
    enqueue_emails mailer now (text "finalized") item item.board_released_at
      (mailer.recipients item) box

unfoldable pub resolved_finalized_key : Mailer → WorkItem → Text
unfolding resolve_template_key
resolved_finalized_key mailer item =
    resolve_template_key mailer.formats mailer.tables (text "finalized")
      (some item.portfolio.work_type.code)

is_live : ℕ → Option EffectiveTemplate → Bool
unfolding is_after
is_live now none = false
is_live now (some effective) = effective.is_active && not (is_after now effective.send_window_end)

unfoldable pub finalized_template_is_live : Mailer → ℕ → WorkItem → Bool
unfolding is_live resolved_finalized_key get_effective_template
finalized_template_is_live mailer now item = is_live now (
    get_effective_template mailer.tables (resolved_finalized_key mailer item)
      (some item.portfolio.event_cycle.id))

unfoldable pub is_held : ℕ → WorkItem → Bool
unfolding uses_release
is_held cycle_id item =
    item.portfolio.event_cycle.id == cycle_id
    && uses_release item.portfolio.work_type.config
    && is_finalized item.status
    && not (is_some item.board_released_at)
    && not item.is_archived
    && not item.portfolio.is_archived

-- `items` in the order of their public ids
unfoldable pub get_held_budgets : ℕ → List WorkItem → List WorkItem
unfolding is_held
get_held_budgets cycle_id items = select (is_held cycle_id) items

-- the rows that a release reads and writes
pub record Book : Type 0 where
  pub event_cycle : EventCycle
  pub items : List WorkItem
  pub box : Box

unfoldable pub latch : Request → EventCycle → EventCycle
latch r cycle = if is_some cycle.board_approved_at then cycle else record cycle {
  board_approved_at = some r.now;
  board_approved_by_user_id = some r.user_ctx.user_id;
}

-- an item of the event sees the event's row
unfoldable pub with_cycle : EventCycle → WorkItem → WorkItem
with_cycle cycle item =
    if item.portfolio.event_cycle.id == cycle.id
    then record item { portfolio = record item.portfolio { event_cycle = cycle } }
    else item

unfoldable pub stamp_released : Request → Option Text → WorkItem → WorkItem
stamp_released r note item =
    add_event
      (record {
        event_type = EventType.board_release;
        old_value = none;
        new_value = none;
        reason = some (strip (or_empty note));
        snapshot = Snapshot.no_snapshot;
        created_by_user_id = r.user_ctx.user_id;
      })
      (record item { board_released_at = some r.now })

-- the loop over the held items, among the items that are not held
unfoldable pub release_items :
    Mailer → Request → Option Text → EventCycle → List WorkItem → Box → List WorkItem × Box
unfolding is_held with_cycle stamp_released notify_work_item_finalized
release_items mailer r _ cycle [] box = ([], box)
release_items mailer r note cycle (item ∷ items) box =
    let item' = with_cycle cycle item in
    let released = stamp_released r note item' in
    let held = is_held cycle.id item in
    let (items', box') =
      release_items mailer r note cycle items
        (if held then (notify_work_item_finalized mailer r.now released box).0 else box) in
    ((if held then released else item') ∷ items', box')

unfoldable pub release_event_budgets : Mailer → Request → Option Text → Book → Outcome × ℕ × Book
unfolding require_budget_admin get_held_budgets finalized_template_is_live latch release_items
release_event_budgets mailer r note book =
    let held = get_held_budgets book.event_cycle.id book.items in
    let cycle = latch r book.event_cycle in
    let (items, box) = release_items mailer r note cycle book.items book.box in
    if not (require_budget_admin r)
    then (forbidden, 0, book)
    else if is_blank note
    then (refused Refusal.note_required, 0, book)
    else if not (all (finalized_template_is_live mailer r.now) held)
    then (refused Refusal.template_dark, 0, book)
    else (done, length held, record { event_cycle = cycle; items = items; box = box })

-- an unsent release email of the item
unfoldable pub is_pending_release : Mailer → WorkItem → EmailOutbox → Bool
unfolding resolved_finalized_key
is_pending_release mailer item row =
    is_value row.work_item_id item.id
    && eqb_text row.template_key (resolved_finalized_key mailer item)
    && is_claimable row.status

withdraw : EmailOutbox → EmailOutbox × List LogEntry
unfolding terminate
withdraw row =
    terminate OutboxStatus.cancelled
      (some (text "Unfinalize withdrew this release email before it sent.")) (row, [])

-- the rows, the log entries, and the number of emails that are withdrawn
unfoldable pub cancel_pending_release_emails :
    Mailer → WorkItem → List EmailOutbox → List EmailOutbox × List LogEntry × ℕ
unfolding is_pending_release withdraw
cancel_pending_release_emails mailer item [] = ([], [], 0)
cancel_pending_release_emails mailer item (row ∷ rows) =
    let (rows', logs, count) = cancel_pending_release_emails mailer item rows in
    if is_pending_release mailer item row
    then ((withdraw row).0 ∷ rows', (withdraw row).1 ++ logs, suc count)
    else (row ∷ rows', logs, count)

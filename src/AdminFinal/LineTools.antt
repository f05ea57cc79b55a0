-- ===== src/AdminFinal/LineTools.antt =====
-- app/routes/admin_final/helpers.py: an admin's correction of a line's expense account, and a line that
-- an admin adds; get_next_line_number of app/routes/work/helpers/formatting.py, and the audit of both
-- in app/routes/approvals/helpers.py.
pub mod Correction
pub mod Addition
use resource_mgmt_app.Base.{
  ℕ, ◌+◌, Bool, true, false, not, ◌&&◌, Option, none, some, List, [], ◌∷◌, ◌++◌, leb, ◌==◌,
  if◌then◌else◌,
}
use resource_mgmt_app.Base.Int.{pos}
use resource_mgmt_app.Base.Text.{Text, text, eqb_text, is_blank, strip, or_empty}
use resource_mgmt_app.Model.{
  ApprovalGroup, ExpenseAccount, SpendType, ItemStatus, LineStatus, ReviewStage, ReviewStatus,
  EventType, BudgetLineDetail, WorkLine, WorkLineReview, WorkItem, AuditValue,
}
use resource_mgmt_app.Access.{Request, require_budget_admin, user_holds_checkout}
use resource_mgmt_app.Checkout.{is_checked_out}
use resource_mgmt_app.Lifecycle.{new_review, add_review}
use resource_mgmt_app.Outcome.{
  Outcome, done, refused, forbidden, not_under_review, checked_out, no_budget_details,
  change_note_required, addition_note_required,
}
use resource_mgmt_app.Reviews.{create_line_audit_event}
use resource_mgmt_app.AdminFinal.Decision.{get_approval_group_review, put_review}
use resource_mgmt_app.AdminFinal.Unfinalize.{reset_line_for_rereview}

-- `status in (SUBMITTED, NEEDS_INFO)`
abbrev pub is_under_review : ItemStatus → Bool
is_under_review ItemStatus.submitted = true
is_under_review ItemStatus.needs_info = true
is_under_review _ = false

-- another user than this one has the request checked out
unfoldable pub held_by_other : Request → WorkItem → Bool
unfolding is_checked_out user_holds_checkout
held_by_other r item = is_checked_out item r.now && not (user_holds_checkout item r)

-- the booking that a correction moves a line to
pub record AccountChange : Type 0 where
  pub new_account : ExpenseAccount
  pub new_spend_type : SpendType
  pub new_group : ApprovalGroup
  pub quantity : Option ℕ
  pub unit_price_cents : Option ℕ
  pub account_default_unit_price_cents : Option ℕ
  pub description : Option Text

keep : Option ℕ → ℕ → ℕ
keep none old = old
keep (some new) _ = new

keep_text : Option Text → Option Text → Option Text
keep_text none old = old
keep_text (some new) _ = some new

unfoldable pub correct_detail : AccountChange → BudgetLineDetail → BudgetLineDetail
unfolding keep keep_text
correct_detail c d = record d {
  expense_account = c.new_account;
  spend_type = c.new_spend_type;
  routed_approval_group = some c.new_group;
  quantity = keep c.quantity d.quantity;
  unit_price_cents = keep c.unit_price_cents d.unit_price_cents;
  description = keep_text c.description d.description;
  account_default_unit_price_cents = c.account_default_unit_price_cents;
}

abbrev rerouted_review : ApprovalGroup → WorkLineReview → WorkLineReview
rerouted_review group review = record review {
  status = ReviewStatus.pending;
  approval_group = some group;
  approved_amount_cents = none;
  decided_at = none;
  decided_by_user_id = none;
  note = none;
}

reroute_found : Request → ℕ → ApprovalGroup → WorkLine → Option WorkLineReview → WorkLine
reroute_found r next group line none =
    add_review (new_review r next ReviewStage.approval_group (some group)) line
reroute_found r next group line (some review) = put_review (rerouted_review group review) line

-- the approval-group review, moved to the new group and reset, or created
unfoldable pub reroute_review : Request → ℕ → ApprovalGroup → WorkLine → WorkLine
unfolding get_approval_group_review reroute_found
reroute_review r next group line = reroute_found r next group line (get_approval_group_review line)

pub record Change : Type 0 where
  pub field_name : Text
  pub old_value : AuditValue
  pub new_value : AuditValue

abbrev change_if : Bool → Text → AuditValue → AuditValue → List Change → List Change
change_if b field old new changes =
    if b then record { field_name = field; old_value = old; new_value = new } ∷ changes else changes

old_group_name : Option ApprovalGroup → Text
old_group_name none = text "Unassigned"
old_group_name (some group) = group.name

differs : Option ℕ → ℕ → Bool
differs none old = false
differs (some new) old = not (old == new)

name_change : Text → Text → Text → List Change → List Change
name_change field old new changes =
    change_if (not (eqb_text old new)) field (AuditValue.words old) (AuditValue.words new) changes

-- what the correction changes, in the order of the code
unfoldable pub field_changes : AccountChange → BudgetLineDetail → List Change
unfolding keep old_group_name differs name_change
field_changes c d = name_change (text "expense_account") d.expense_account.name c.new_account.name (
    name_change (text "spend_type") d.spend_type.name c.new_spend_type.name (
      name_change (text "review_group") (old_group_name d.routed_approval_group) c.new_group.name (
        change_if (differs c.quantity d.quantity) (text "quantity")
          (AuditValue.thousandths d.quantity) (AuditValue.thousandths (keep c.quantity d.quantity))
          (change_if (differs c.unit_price_cents d.unit_price_cents) (text "unit_price")
            (AuditValue.cents (some (pos d.unit_price_cents)))
            (AuditValue.cents (some (pos (keep c.unit_price_cents d.unit_price_cents)))) []))))

unfoldable pub audit_line_field_changes : Request → List Change → WorkLine → WorkLine
unfolding create_line_audit_event
audit_line_field_changes r [] line = line
audit_line_field_changes r (change ∷ changes) line = audit_line_field_changes r changes (
    create_line_audit_event r EventType.field_change change.old_value change.new_value none
      change.field_name line)

add_comment : Request → Text → WorkLine → WorkLine
add_comment r body line = record line {
  comments =
      line.comments ++ (record { body = body; created_by_user_id = r.user_ctx.user_id } ∷ []);
}

unfoldable pub correct_line :
    Request → AccountChange → Option Text → ℕ → BudgetLineDetail → WorkLine → WorkLine
unfolding correct_detail reroute_review reset_line_for_rereview field_changes
    audit_line_field_changes add_comment
correct_line r c note next d line =
    let rerouted =
      reroute_review r next c.new_group
        (record line { budget_detail = some (correct_detail c d) }) in
    let reset = (reset_line_for_rereview r rerouted).1 in
    add_comment r (text "[ADMIN ACCOUNT CHANGE] " ++ strip (or_empty note)) (
      audit_line_field_changes r (field_changes c d)
        (record reset { current_review_stage = some ReviewStage.approval_group }))

correct_with :
    Request
    → AccountChange
    → Option Text
    → ℕ
    → WorkLine
    → Option BudgetLineDetail
    → Outcome × WorkLine
unfolding correct_line
correct_with r c _ next line none = (refused no_budget_details, line)
correct_with r c note next line (some d) =
    if is_blank note
    then (refused change_note_required, line)
    else (done, correct_line r c note next d line)

unfoldable pub change_line_expense_account :
    Request → AccountChange → Option Text → ℕ → WorkItem → WorkLine → Outcome × WorkLine
unfolding require_budget_admin held_by_other correct_with
change_line_expense_account r c note next item line =
    if not (require_budget_admin r)
    then (forbidden, line)
    else if not (is_under_review item.status)
    then (refused not_under_review, line)
    else if held_by_other r item
    then (refused checked_out, line)
    else correct_with r c note next line line.budget_detail

max_number : ℕ → List WorkLine → ℕ
max_number n [] = n
max_number n (line ∷ lines) =
    max_number (if leb n line.line_number then line.line_number else n) lines

-- one above the greatest number, or 1
unfoldable pub get_next_line_number : WorkItem → ℕ
unfolding max_number
get_next_line_number item = max_number 0 item.lines + 1

-- the row of a line that an admin adds, without its review
unfoldable pub new_line : ℕ → ℕ → BudgetLineDetail → WorkLine
new_line id number d = record {
  id = id;
  line_number = number;
  status = LineStatus.pending;
  approved_amount_cents = none;
  status_changed_at = none;
  status_changed_by_user_id = none;
  needs_requester_action = false;
  current_review_stage = some ReviewStage.approval_group;
  budget_detail = some d;
  contract_detail = none;
  supply_detail = none;
  techops_detail = none;
  reviews = [];
  audit_events = [];
  comments = [];
}

unfoldable pub audit_line_created : Request → BudgetLineDetail → WorkLine → WorkLine
unfolding create_line_audit_event
audit_line_created r d line =
    create_line_audit_event r EventType.line_created AuditValue.none_value
      (AuditValue.line_summary line.line_number d.expense_account.name d.quantity
        d.unit_price_cents)
      d.description (text "line") line

unfoldable pub added_line :
    Request → BudgetLineDetail → ApprovalGroup → Option Text → ℕ → ℕ → ℕ → WorkLine
unfolding new_line audit_line_created add_comment
added_line r d group note line_id next number =
    add_comment r (text "[ADMIN LINE ADDED] " ++ strip (or_empty note)) (
      audit_line_created r d (
        add_review (new_review r next ReviewStage.approval_group (some group))
          (new_line line_id number d)))

-- `d` is the booking, whose routing snapshot is the group given. `line_id` and `next` are the ids of
-- the new line and of its review.
unfoldable pub admin_add_line :
    Request → BudgetLineDetail → ApprovalGroup → Option Text → ℕ → ℕ → WorkItem → Outcome × WorkItem
unfolding require_budget_admin held_by_other added_line get_next_line_number
admin_add_line r d group note line_id next item =
    if not (require_budget_admin r)
    then (forbidden, item)
    else if not (is_under_review item.status)
    then (refused not_under_review, item)
    else if held_by_other r item
    then (refused checked_out, item)
    else if is_blank note
    then (refused addition_note_required, item)
    else (
      done,
      record item {
        lines =
            item.lines
            ++ (added_line r (record d { routed_approval_group = some group }) group note line_id
                  next (get_next_line_number item)
                ∷ []);
      },
    )

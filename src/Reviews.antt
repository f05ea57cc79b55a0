-- ===== src/Reviews.antt =====
-- app/routes/approvals/helpers.py: the review decisions on one line, in the approval-group stage and
-- in the requester's answers.
pub mod Transitions
pub mod Effects
pub mod Finality
pub mod Buttons
use resource_mgmt_app.Base.{
  ℕ, Bool, true, false, not, ◌&&◌, Option, none, some, List, [], ◌∷◌, ◌++◌, is_some, find?,
  update_first, is_value, ◌==◌, if◌then◌else◌,
}
use resource_mgmt_app.Base.Int.{ℤ}
use resource_mgmt_app.Base.Text.{Text, text, is_blank, strip_or_none, strip, or_empty}
use resource_mgmt_app.Model.{
  ApprovalGroup, ItemStatus, LineStatus, ReviewStage, ReviewStatus, ReviewAction, EventType,
  WorkLine, WorkLineReview, WorkItem, WorkLineAuditEvent, WorkPortfolio, AuditValue,
  PortfolioContext, line_reopened, is_draft, is_finalized, is_approval_group, is_respond, is_reopen,
  is_approval, is_kickback, is_group_decided, is_admin_decided,
}
use resource_mgmt_app.LineDetails.{get_line_routing_approval_group}
use resource_mgmt_app.Access.{
  Request, is_group_final, is_reviewer_for_line, can_respond_to_work_item,
  can_respond_to_work_item_db, decision_lock_satisfied,
}
use resource_mgmt_app.ReviewState.{
  get_admin_final_review, admin_decided, get_line_review_state, is_awaiting_group,
}
use resource_mgmt_app.Lifecycle.{add_event, add_review, new_review, try_auto_finalize}
use resource_mgmt_app.Outcome.{
  Refusal, Outcome, checkout_required, back_in_draft, reopen_unavailable, already_decided,
  invalid_transition, note_required, not_permitted, has_admin_decision, not_awaiting_response,
  may_not_respond, only_admins, done, refused, missing_row,
}

pub data AllowedRole : Type 0 where
  approver requester admin : AllowedRole

pub record Transition : Type 0 where
  pub new_status : ReviewStatus
  pub note_required : Bool
  pub allowed_role : AllowedRole

abbrev transition : ReviewStatus → Bool → AllowedRole → Option Transition
transition s n a = some (record { new_status = s; note_required = n; allowed_role = a })

unfoldable pub valid_transitions : ReviewStatus → ReviewAction → Option Transition
valid_transitions ReviewStatus.pending ReviewAction.approve =
    transition ReviewStatus.approved false approver
valid_transitions ReviewStatus.pending ReviewAction.approve_needs_review =
    transition ReviewStatus.approved_needs_review true approver
valid_transitions ReviewStatus.pending ReviewAction.reject =
    transition ReviewStatus.rejected true approver
valid_transitions ReviewStatus.pending ReviewAction.needs_info =
    transition ReviewStatus.needs_info true approver
valid_transitions ReviewStatus.pending ReviewAction.needs_adjustment =
    transition ReviewStatus.needs_adjustment true approver
valid_transitions ReviewStatus.needs_info ReviewAction.respond =
    transition ReviewStatus.pending true requester
valid_transitions ReviewStatus.needs_adjustment ReviewAction.respond =
    transition ReviewStatus.pending true requester
valid_transitions ReviewStatus.approved ReviewAction.reopen =
    transition ReviewStatus.pending true approver
valid_transitions ReviewStatus.rejected ReviewAction.reopen =
    transition ReviewStatus.pending true approver
valid_transitions _ _ = none

pub data Validation : Type 0 where
  accept : ReviewStatus → Validation
  deny : Refusal → Validation

-- `can_respond_to_work_item` where a context is at hand, else its database fallback
unfoldable pub may_respond : Request → Option PortfolioContext → WorkItem → Bool
may_respond r none item = can_respond_to_work_item_db item r
may_respond r (some ctx) item = can_respond_to_work_item item ctx r

-- the checks by role
check_role :
    Request
    → Option PortfolioContext
    → WorkItem
    → WorkLine
    → ReviewStatus
    → AllowedRole
    → Validation
check_role r ctx item line new_status AllowedRole.approver =
    if not (is_reviewer_for_line item.portfolio line r)
    then deny not_permitted
    else if admin_decided (get_admin_final_review line)
    then deny has_admin_decision
    else accept new_status
check_role r ctx item line new_status AllowedRole.requester =
    if not line.needs_requester_action
    then deny not_awaiting_response
    else if not (may_respond r ctx item)
    then deny may_not_respond
    else accept new_status
check_role r ctx item line new_status AllowedRole.admin =
    if not r.user_ctx.is_super_admin then deny only_admins else accept new_status

check_transition :
    Request
    → Option PortfolioContext
    → WorkItem
    → WorkLine
    → Option Text
    → ReviewStatus
    → Option Transition
    → Validation
unfolding check_role
check_transition r ctx item line _ current none =
    deny (if is_group_decided current then already_decided else invalid_transition)
check_transition r ctx item line note current (some t) =
    if t.note_required && is_blank note
    then deny Refusal.note_required
    else check_role r ctx item line t.new_status t.allowed_role

unfoldable pub validate_review_transition :
    Request
    → Option PortfolioContext
    → WorkItem
    → WorkLine
    → ReviewStatus
    → ReviewAction
    → Option Text
    → Validation
unfolding check_transition
validate_review_transition r ctx item line current action note =
    if is_reopen action && not (is_group_final item.portfolio)
    then deny reopen_unavailable
    else check_transition r ctx item line note current (valid_transitions current action)

unfoldable pub line_status_of : ReviewStatus → LineStatus
line_status_of ReviewStatus.pending = LineStatus.pending
line_status_of ReviewStatus.needs_info = LineStatus.needs_info
line_status_of ReviewStatus.needs_adjustment = LineStatus.needs_adjustment
line_status_of ReviewStatus.approved = LineStatus.approved
line_status_of ReviewStatus.approved_needs_review = LineStatus.approved_needs_review
line_status_of ReviewStatus.rejected = LineStatus.rejected

unfoldable pub sync_line_status : Request → WorkLineReview → WorkLine → WorkLine
sync_line_status r review line = record line {
  status = line_status_of review.status;
  status_changed_at = some r.now;
  needs_requester_action = is_kickback review.status;
}

unfoldable pub create_line_audit_event :
    Request → EventType → AuditValue → AuditValue → Option Text → Text → WorkLine → WorkLine
create_line_audit_event r event_type old_value new_value note field_name line = record line {
  audit_events =
      line.audit_events
      ++ (record {
        event_type = event_type;
        field_name = field_name;
        old_value = old_value;
        new_value = new_value;
        note = note;
        created_by_user_id = r.user_ctx.user_id;
      }
          ∷ []);
}

-- step 4 of apply_review_decision, on the review
unfoldable pub decide_review :
    Request → ReviewAction → Option Text → Option ℤ → ReviewStatus → WorkLineReview → WorkLineReview
decide_review r action note amount_cents new_status review = record review {
  status = new_status;
  decided_at = some r.now;
  decided_by_user_id = some r.user_ctx.user_id;
  note = strip_or_none note;
  approved_amount_cents =
      if is_some amount_cents && is_approval action
      then amount_cents
      else review.approved_amount_cents;
}

-- steps 4 to 6, on the line: the review that was found is written back, the status synchronised
unfoldable pub decide_line :
    Request
    → ReviewAction
    → Option Text
    → Option ℤ
    → ReviewStatus
    → WorkLineReview
    → WorkLine
    → WorkLine
decide_line r action note amount_cents new_status review line =
    let review' = decide_review r action note amount_cents new_status review in
    create_line_audit_event r
      (if is_respond action then EventType.requester_response else EventType.review_decision)
      (AuditValue.review_status review.status) (AuditValue.review_status new_status) note
      (text "status")
      (record (sync_line_status r review' (record line {
        reviews = update_first (λ v. v.id == review.id) (λ _. review') line.reviews;
      })) { status_changed_by_user_id = some r.user_ctx.user_id })

-- step 6b: a reopened line takes the request out of FINALIZED
unfoldable pub reopen_item : Request → ReviewAction → Option Text → ℕ → WorkItem → WorkItem
reopen_item r action note line_number item =
    if is_reopen action && is_finalized item.status
    then record (add_event
        (record {
          event_type = EventType.unfinalize;
          old_value = some ItemStatus.finalized;
          new_value = some ItemStatus.submitted;
          reason = some (strip (or_empty note));
          snapshot = line_reopened line_number;
          created_by_user_id = r.user_ctx.user_id;
        })
        item) { status = ItemStatus.submitted; finalized_at = none; finalized_by_user_id = none }
    else item

abbrev pub find_line : ℕ → WorkItem → Option WorkLine
find_line line_id item = find? (λ l. l.id == line_id) item.lines

abbrev pub find_review : ℕ → WorkLine → Option WorkLineReview
find_review review_id line = find? (λ v. v.id == review_id) line.reviews

abbrev pub put_line : WorkLine → WorkItem → WorkItem
put_line line item = record item {
  lines = update_first (λ l. l.id == line.id) (λ _. line) item.lines;
}

-- steps 4 to 7
unfoldable pub settle :
    Request
    → ReviewAction
    → Option Text
    → Option ℤ
    → WorkItem
    → WorkLine
    → WorkLineReview
    → Validation
    → Outcome × WorkItem
settle r action _ amount_cents item line review (deny error) = (refused error, item)
settle r action note amount_cents item line review (accept new_status) =
    let line' = decide_line r action note amount_cents new_status review line in
    (
      done,
      (try_auto_finalize r (reopen_item r action note line.line_number (put_line line' item))).0,
    )

unfoldable pub apply_to_review :
    Request
    → Option PortfolioContext
    → ReviewAction
    → Option Text
    → Option ℤ
    → WorkItem
    → WorkLine
    → Option WorkLineReview
    → Outcome × WorkItem
apply_to_review r ctx action _ amount_cents item line none = (missing_row, item)
apply_to_review r ctx action note amount_cents item line (some review) =
    settle r action note amount_cents item line review
      (validate_review_transition r ctx item line review.status action note)

unfoldable pub apply_to_line :
    Request
    → Option PortfolioContext
    → ReviewAction
    → Option Text
    → Option ℤ
    → ℕ
    → WorkItem
    → Option WorkLine
    → Outcome × WorkItem
apply_to_line r ctx action _ amount_cents review_id item none = (missing_row, item)
apply_to_line r ctx action note amount_cents review_id item (some line) =
    apply_to_review r ctx action note amount_cents item line (find_review review_id line)

-- The line and the review are given by their ids, and `item` is the request as its refresh under the
-- row lock finds it; so is the review.
unfoldable pub apply_review_decision :
    Request
    → Option PortfolioContext
    → ReviewAction
    → Option Text
    → Option ℤ
    → ℕ
    → ℕ
    → WorkItem
    → Outcome × WorkItem
apply_review_decision r ctx action note amount_cents line_id review_id item =
    if not (is_respond action) && not (decision_lock_satisfied item r)
    then (refused checkout_required, item)
    else if is_draft item.status
    then (refused back_in_draft, item)
    else apply_to_line r ctx action note amount_cents review_id item (find_line line_id item)

-- `WorkLineReview.query.filter_by(…, stage=APPROVAL_GROUP, approval_group_id=…).first()`
reviews_group : Option ApprovalGroup → ℕ → Bool
reviews_group none group_id = false
reviews_group (some group) group_id = group.id == group_id

unfoldable pub review_of_group : ℕ → WorkLine → Option WorkLineReview
unfolding reviews_group
review_of_group group_id line =
    find? (λ v. is_approval_group v.stage && reviews_group v.approval_group group_id) line.reviews

review_of_routed : Option ApprovalGroup → WorkLine → Option WorkLineReview
unfolding review_of_group
review_of_routed none line = none
review_of_routed (some group) line = review_of_group group.id line

unfoldable pub get_review_for_line : WorkLine → Option WorkLineReview
unfolding review_of_routed
get_review_for_line line = review_of_routed (get_line_routing_approval_group line) line

abbrev pub is_reopenable : Option WorkLineReview → Bool
is_reopenable none = false
is_reopenable (some v) = is_admin_decided v.status

unfoldable pub can_decide_line : WorkItem → WorkLine → Request → Bool
can_decide_line item line r =
    is_awaiting_group (get_line_review_state item.portfolio line).awaiting
    && is_reviewer_for_line item.portfolio line r
    && decision_lock_satisfied item r

unfoldable pub can_reopen_line : WorkItem → WorkLine → Request → Bool
can_reopen_line item line r =
    is_group_final item.portfolio
    && is_reopenable (get_review_for_line line)
    && is_reviewer_for_line item.portfolio line r

-- the review of the routed group, created if there is none; `none` is abort(400)
get_or_create : Request → ℕ → Option ApprovalGroup → WorkLine → Option (WorkLineReview × WorkLine)
unfolding review_of_group
get_or_create r next none line = none
get_or_create r next (some group) line = elim (review_of_group group.id line) [
  | some review ↦ some (review, line)
  | none ↦
      let review = new_review r next ReviewStage.approval_group (some group) in
      some (review, add_review review line)
]

unfoldable pub get_or_create_review : Request → ℕ → WorkLine → Option (WorkLineReview × WorkLine)
unfolding get_or_create
get_or_create_review r next line = get_or_create r next (get_line_routing_approval_group line) line

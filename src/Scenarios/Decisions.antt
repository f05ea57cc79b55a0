-- ===== src/Scenarios/Decisions.antt =====
-- Decisions on the TechOps request, from its draft to its end, and on the budget request.
use resource_mgmt_app.Base.{◌≡◌, ◌⊎◌, refl, true, false, Option, none, some, [], ◌∷◌, any}
use resource_mgmt_app.Base.Each.{Each}
use resource_mgmt_app.Base.Text.{is_blank}
use resource_mgmt_app.Model.{
  WorkTypeConfig, ItemStatus, LineStatus, ReviewStage, ReviewStatus, ReviewAction, WorkLine,
  WorkLineReview, WorkItem, is_open_review,
}
use resource_mgmt_app.LineDetails.{set_line_routing_approval_group}
use resource_mgmt_app.Access.{is_group_final, is_reviewer_for_line, decision_lock_satisfied}
use resource_mgmt_app.ReviewState.{
  has_admin_stage, group_review, get_admin_final_review, get_awaiting, get_line_review_state,
  kicked_back, admin_decided,
}
use resource_mgmt_app.Routing.{get_approval_group_for_line}
use resource_mgmt_app.Lifecycle.{
  route_line, route_lines, log_submit, submit_work_item, group_reviews, try_auto_finalize,
}
use resource_mgmt_app.Lifecycle.AutoFinalize.{try_auto_finalize_iff}
use resource_mgmt_app.Lifecycle.Submit.{IsSubmitted, submit_work_item_routes}
use resource_mgmt_app.Outcome.{is_done}
use resource_mgmt_app.Reviews.{
  accept, valid_transitions, validate_review_transition, decide_review, decide_line,
  sync_line_status, create_line_audit_event, reopen_item, find_line, find_review, settle,
  apply_to_review, apply_to_line, apply_review_decision, can_decide_line,
}
use resource_mgmt_app.Reviews.Transitions.{
  Edge, MayTake, validate_review_transition_sound, apply_review_decision_refused,
}
use resource_mgmt_app.Reviews.Effects.{IsDecided, apply_review_decision_writes}
use resource_mgmt_app.Reviews.Finality.{Step, Reach, Reach-IsSettled}
use resource_mgmt_app.Reviews.Buttons.{can_decide_line-approve, can_decide_line-bypassed}
use resource_mgmt_app.Scenarios.Sample.{
  budget, hotels, room_line, techops, reviewer, requester, network, pending_review, service_line,
  item_of, draft_request, service_request, review_of,
}

abbrev service : WorkLine
service = service_line 13 1 LineStatus.pending (pending_review 4 (some network) ∷ [])

accepted :
    validate_review_transition reviewer none service_request service ReviewStatus.pending
      ReviewAction.approve none
    ≡ accept ReviewStatus.approved
unfolding validate_review_transition valid_transitions is_reviewer_for_line get_admin_final_review
accepted = refl

validate_review_transition_sound_example :
    Edge ReviewStatus.pending ReviewAction.approve ReviewStatus.approved
    × (false ≡ true → is_group_final techops ≡ true)
    × ((ReviewAction.approve ≡ ReviewAction.approve) ⊎ (is_blank none ≡ false))
    × MayTake reviewer none service_request service ReviewAction.approve
validate_review_transition_sound_example =
    validate_review_transition_sound reviewer none service_request service ReviewStatus.pending
      ReviewAction.approve none ReviewStatus.approved accepted

abbrev approved_request : WorkItem
approved_request =
    (apply_review_decision reviewer none ReviewAction.approve none none 13 4 service_request).1

approval_done :
    is_done
      (apply_review_decision reviewer none ReviewAction.approve none none 13 4 service_request).0
    ≡ true
unfolding apply_review_decision apply_to_line apply_to_review settle validate_review_transition
    valid_transitions is_reviewer_for_line get_admin_final_review decision_lock_satisfied
approval_done = refl

apply_review_decision_writes_example :
    (line line' : WorkLine) × (review review' : WorkLineReview) × (s : ReviewStatus) × (find_line 13
        service_request
      ≡ some line)
    × (find_review 4 line ≡ some review)
    × (find_line 13 approved_request ≡ some line')
    × (find_review 4 line' ≡ some review')
    × Edge review.status ReviewAction.approve s
    × IsDecided reviewer ReviewAction.approve none none s review review' line line'
apply_review_decision_writes_example =
    apply_review_decision_writes reviewer none ReviewAction.approve none none 13 4 service_request
      approval_done

-- the requester may not approve
not_done :
    is_done
      (apply_review_decision requester none ReviewAction.approve none none 13 4 service_request).0
    ≡ false
unfolding apply_review_decision apply_to_line apply_to_review settle validate_review_transition
    valid_transitions is_reviewer_for_line get_admin_final_review decision_lock_satisfied
not_done = refl

apply_review_decision_refused_example :
    (apply_review_decision requester none ReviewAction.approve none none 13 4 service_request).1
    ≡ service_request
apply_review_decision_refused_example =
    (apply_review_decision_refused requester none ReviewAction.approve none none 13 4
        service_request).0
      not_done

-- the draft, submitted and approved
abbrev submitted : Option WorkItem
submitted = submit_work_item requester 4 draft_request

abbrev or_draft : Option WorkItem → WorkItem
or_draft none = draft_request
or_draft (some item) = item

submits_request : submitted ≡ some (or_draft submitted)
unfolding submit_work_item route_lines get_approval_group_for_line
submits_request = refl

abbrev final_request : WorkItem
final_request =
    (apply_review_decision reviewer none ReviewAction.approve none none 13 4 (or_draft submitted)).1

life : Reach draft_request final_request
life =
    Reach.next
      (Reach.next Reach.here
        (Step.submits requester 4 draft_request (or_draft submitted) refl submits_request))
      (Step.decides reviewer none ReviewAction.approve none none 13 4 (or_draft submitted))

life_ends :
    (final_request.status ≡ ItemStatus.finalized) × (is_group_final final_request.portfolio ≡ true)
unfolding submit_work_item route_lines route_line get_approval_group_for_line log_submit
    set_line_routing_approval_group apply_review_decision apply_to_line apply_to_review settle
    validate_review_transition valid_transitions is_reviewer_for_line get_admin_final_review
    decision_lock_satisfied reopen_item try_auto_finalize decide_line decide_review sync_line_status
    create_line_audit_event
life_ends = (refl, refl)

Reach-IsSettled_example :
    any (λ v. is_open_review v.status) (group_reviews final_request.lines) ≡ false
Reach-IsSettled_example =
    Reach-IsSettled draft_request final_request refl life (rw life_ends.0 refl) life_ends.1

submit_work_item_routes_example :
    (config : WorkTypeConfig) × (techops.work_type.config ≡ some config)
    × IsSubmitted draft_request (or_draft submitted) config
submit_work_item_routes_example =
    submit_work_item_routes requester 4 draft_request (or_draft submitted) submits_request

abbrev decided_request : WorkItem
decided_request = item_of techops ItemStatus.submitted (
    service_line 13 1 LineStatus.approved
      (review_of 4 ReviewStage.approval_group (some network) ReviewStatus.approved ∷ [])
    ∷ [])

fires : (try_auto_finalize reviewer decided_request).1 ≡ true
unfolding try_auto_finalize
fires = refl

try_auto_finalize_iff_example :
    (try_auto_finalize reviewer decided_request).0.status ≡ ItemStatus.finalized
try_auto_finalize_iff_example = ((try_auto_finalize_iff reviewer decided_request).1 fires).0

abbrev service_review : WorkLineReview
service_review = pending_review 4 (some network)

button : can_decide_line service_request service reviewer ≡ true
unfolding can_decide_line get_line_review_state get_awaiting group_review get_admin_final_review
    is_reviewer_for_line decision_lock_satisfied
button = refl

first_review : group_review service ≡ some service_review
unfolding group_review
first_review = refl

undecided : has_admin_stage techops ≡ false → admin_decided (get_admin_final_review service) ≡ false
unfolding get_admin_final_review
undecided h = refl

can_decide_line-approve_example :
    is_done
      (apply_review_decision reviewer none ReviewAction.approve none none 13 4 service_request).0
    ≡ true
can_decide_line-approve_example =
    can_decide_line-approve reviewer none none none 13 4 service_request service service_review refl
      refl refl first_review undecided button

-- beside the hotels' pending review, the admin has asked the requester something
abbrev asked_line : WorkLine
asked_line = room_line 12 2 LineStatus.needs_info (
    pending_review 2 (some hotels)
    ∷ review_of 3 ReviewStage.admin_final none ReviewStatus.needs_info
    ∷ [])

abbrev asked_request : WorkItem
asked_request = record (item_of budget ItemStatus.submitted (asked_line ∷ [])) {
  checked_out_by_user_id = some 2;
}

asked :
    (is_reviewer_for_line budget asked_line reviewer ≡ true)
    × (decision_lock_satisfied asked_request reviewer ≡ true)
    × (kicked_back (get_admin_final_review asked_line) ≡ true)
unfolding is_reviewer_for_line decision_lock_satisfied get_admin_final_review
asked = (refl, refl, refl)

can_decide_line-bypassed_example :
    (can_decide_line asked_request asked_line reviewer ≡ false)
    × (is_done
          (apply_review_decision reviewer none ReviewAction.approve none none 12 2 asked_request).0
        ≡ true)
can_decide_line-bypassed_example =
    can_decide_line-bypassed reviewer none none none 12 2 asked_request asked_line
      (pending_review 2 (some hotels)) refl refl refl refl asked.0 asked.1 asked.2

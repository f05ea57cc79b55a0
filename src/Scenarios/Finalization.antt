-- ===== src/Scenarios/Finalization.antt =====
-- The budget request finalized, unfinalized and finalized again, and the admin's tools on its lines.
use resource_mgmt_app.Base.{
  ◌≡◌, refl, true, false, not, ◌&&◌, ◌||◌, none, some, [], ◌∷◌, any, all, is_some,
}
use resource_mgmt_app.Base.Each.{Each}
use resource_mgmt_app.Base.Text.{is_blank, strip}
use resource_mgmt_app.Model.{
  ItemStatus, ReviewAction, RequestKind, WorkLineReview, WorkItem, is_submitted,
  is_awaiting_dispatch, is_kicked_back,
}
use resource_mgmt_app.Access.{require_budget_admin}
use resource_mgmt_app.Checkout.{is_checked_out}
use resource_mgmt_app.Outcome.{is_done}
use resource_mgmt_app.AdminFinal.Decision.{get_or_create_admin_review, apply_admin_final_decision}
use resource_mgmt_app.AdminFinal.Decision.Effects.{
  IsConcluded, IsDecidedBy, apply_admin_final_decision_decides,
}
use resource_mgmt_app.AdminFinal.Finalize.{
  batch_load_reviews_by_line, has_decision, can_finalize_work_item, finalize_work_item,
}
use resource_mgmt_app.AdminFinal.Finalize.Gate.{can_finalize_work_item_iff}
use resource_mgmt_app.AdminFinal.Finalize.Resolution.{IsResolved, finalize_work_item_resolves}
use resource_mgmt_app.AdminFinal.Unfinalize.{
  unfinalize_item, unfinalize_work_item, reset_line, reset_found, return_line_to_reviewer_group,
}
use resource_mgmt_app.AdminFinal.Unfinalize.Cycle.{
  IsApprovedAsRequested, unfinalize-finalize_approves,
}
use resource_mgmt_app.AdminFinal.Unfinalize.Siblings.{
  IsHeldBack, IsBack, unfinalize-finalize_siblings,
}
use resource_mgmt_app.AdminFinal.Rereview.{IsBackInReview, return_line_to_reviewer_group_awaits}
use resource_mgmt_app.AdminFinal.LineTools.{admin_add_line, AccountChange, held_by_other}
use resource_mgmt_app.AdminFinal.LineTools.Addition.{IsAdded, admin_add_line_adds}
use resource_mgmt_app.Scenarios.Sample.{
  admin, requester, hello, budget, hotels, rooms, rejected_line, pending_line, budget_request,
  item_of,
}

hello_said : is_blank hello ≡ false
unfolding is_blank strip
hello_said = refl

finalizable : can_finalize_work_item 1000 budget_request ≡ none
unfolding can_finalize_work_item is_checked_out has_decision
finalizable = refl

can_finalize_work_item_iff_example : not (is_some (can_finalize_work_item 1000 budget_request)) ≡ (
    (is_submitted budget_request.status || is_awaiting_dispatch budget_request.status)
    && not (is_checked_out budget_request 1000)
    && all (λ l. not (is_kicked_back l.status)) budget_request.lines
    && any has_decision budget_request.lines)
can_finalize_work_item_iff_example = can_finalize_work_item_iff 1000 budget_request

finalizes : is_done (finalize_work_item admin hello 5 budget_request []).0 ≡ true
unfolding finalize_work_item require_budget_admin
finalizes = rw hello_said refl

finalize_work_item_resolves_example :
    let item' = (finalize_work_item admin hello 5 budget_request []).1 in
    (item'.status ≡ ItemStatus.finalized)
    × (item'.finalized_by_user_id ≡ some 1)
    × (item'.finalized_at ≡ some 1000)
    × Each (IsResolved admin) budget_request.lines item'.lines
finalize_work_item_resolves_example =
    finalize_work_item_resolves admin hello 5 budget_request [] refl finalizes

refuses : is_done (finalize_work_item requester hello 5 budget_request []).0 ≡ false
unfolding finalize_work_item require_budget_admin
refuses = refl

-- the finalized request, as it is sent back with its lines reset
abbrev final_request : WorkItem
final_request = item_of budget ItemStatus.finalized (rejected_line ∷ pending_line ∷ [])

unfinalizes : is_done (unfinalize_work_item admin hello true final_request []).0 ≡ true
unfolding unfinalize_work_item require_budget_admin is_blank strip
unfinalizes = refl

abbrev reset_request : WorkItem
reset_request = (unfinalize_work_item admin hello true final_request []).1

refinalizes :
    is_done
      (finalize_work_item admin hello 5 reset_request
        (unfinalize_work_item admin hello true final_request []).2).0
    ≡ true
unfolding finalize_work_item unfinalize_work_item unfinalize_item reset_line reset_found
    batch_load_reviews_by_line require_budget_admin is_blank strip can_finalize_work_item
    is_checked_out has_decision
refinalizes = refl

-- the line that the hotels rejected is approved in full
unfinalize-finalize_approves_example :
    Each IsApprovedAsRequested final_request.lines
      (finalize_work_item admin hello 5 reset_request
        (unfinalize_work_item admin hello true final_request []).2).1.lines
unfinalize-finalize_approves_example =
    unfinalize-finalize_approves admin admin hello hello 5 final_request [] unfinalizes refinalizes

abbrev supplement : WorkItem
supplement = record budget_request { request_kind = RequestKind.supplementary }

siblings_undone :
    is_done (unfinalize_work_item admin hello true final_request (supplement ∷ [])).0 ≡ true
unfolding unfinalize_work_item require_budget_admin is_blank strip
siblings_undone = refl

siblings_redone :
    is_done
      (finalize_work_item admin hello 5
        (unfinalize_work_item admin hello true final_request (supplement ∷ [])).1
        (unfinalize_work_item admin hello true final_request (supplement ∷ [])).2).0
    ≡ true
unfolding finalize_work_item unfinalize_work_item unfinalize_item reset_line reset_found
    batch_load_reviews_by_line require_budget_admin is_blank strip can_finalize_work_item
    is_checked_out has_decision
siblings_redone = refl

unfinalize-finalize_siblings_example :
    let u = unfinalize_work_item admin hello true final_request (supplement ∷ []) in
    Each IsHeldBack (supplement ∷ []) u.2
    × Each IsBack (supplement ∷ []) (finalize_work_item admin hello 5 u.1 u.2).2
unfinalize-finalize_siblings_example =
    unfinalize-finalize_siblings admin admin hello hello true 5 final_request (supplement ∷ []) refl
      siblings_undone siblings_redone

approves :
    is_done (apply_admin_final_decision admin ReviewAction.approve none none 5 pending_line).0
    ≡ true
unfolding apply_admin_final_decision require_budget_admin get_or_create_admin_review
approves = refl

apply_admin_final_decision_decides_example :
    (require_budget_admin admin ≡ true)
    × (v : WorkLineReview) × IsConcluded admin none pending_line
        (apply_admin_final_decision admin ReviewAction.approve none none 5 pending_line).1
        v
    × IsDecidedBy ReviewAction.approve none none pending_line
        (apply_admin_final_decision admin ReviewAction.approve none none 5 pending_line).1
        v
apply_admin_final_decision_decides_example =
    (apply_admin_final_decision_decides admin ReviewAction.approve none none 5 pending_line
        (refl, refl)).0
      approves

is_admin : require_budget_admin admin ≡ true
unfolding require_budget_admin
is_admin = refl

return_line_to_reviewer_group_awaits_example :
    IsBackInReview budget (return_line_to_reviewer_group admin rejected_line).1
return_line_to_reviewer_group_awaits_example =
    ((return_line_to_reviewer_group_awaits admin budget rejected_line refl).0 is_admin).1

abbrev four_nights : AccountChange
four_nights = record {
  new_account = rooms.expense_account;
  new_spend_type = rooms.spend_type;
  new_group = hotels;
  quantity = some 4000;
  unit_price_cents = none;
  account_default_unit_price_cents = none;
  description = none;
}

adds : is_done (admin_add_line admin rooms hotels hello 30 5 budget_request).0 ≡ true
unfolding admin_add_line require_budget_admin held_by_other is_checked_out is_blank strip
adds = refl

admin_add_line_adds_example :
    IsAdded budget rooms hotels budget_request
      (admin_add_line admin rooms hotels hello 30 5 budget_request).1
admin_add_line_adds_example =
    (admin_add_line_adds admin rooms hotels hello 30 5 budget_request).2 adds

-- ===== src/Actions/Steps.antt =====
-- The handlers of a department and of the dispatch queue against the diagram.
use resource_mgmt_app.Base.{
  ℕ, ◌≡◌, inl, inr, refl, ap, Bool, true, false, if◌then◌else◌, not, Option, none, some, List,
  arith, Bool-cases,
}
use resource_mgmt_app.Base.Text.{Text}
use resource_mgmt_app.Model.{ApprovalGroup, WorkItem, ItemStatus, is_draft, is_submitted}
use resource_mgmt_app.Access.{Request}
use resource_mgmt_app.Checkout.{Timeouts, checkout_work_item, checkin_work_item}
use resource_mgmt_app.Outcome.{Outcome, Refusal}
use resource_mgmt_app.Permissions.{build_work_item_perms}
use resource_mgmt_app.Lifecycle.{recall_to_draft, reset_submitted_to_draft, submit_work_item}
use resource_mgmt_app.Actions.Returns.{techops_request_pull_back_guards}
use resource_mgmt_app.Dispatch.{dispatch_to_queue, assign_approval_groups, guarded}
use resource_mgmt_app.Dispatch.Queue.{
  dispatch_to_queue_refused, dispatch_to_queue_routes, dispatch_to_queue_waits,
}
use resource_mgmt_app.Lifecycle.Submit.{submit_work_item_routes}
use resource_mgmt_app.Actions.{
  by, perms_of, missing_details, is_without, submitted_or, submit_checked, techops_return_options,
  checked_out_as, checked_in_as, Page, work_item_submit, work_item_recall, work_item_checkout,
  work_item_checkin, work_item_grant_extension, work_item_revoke_extension,
  techops_request_pull_back, techops_request_send_back,
}
use resource_mgmt_app.Actions.Edges.{
  Move, Edge, Follows, along, by_outcome, draft_of, awaiting_of, submitted_of, finalized_of,
}

pub recall-Follows :
    (page : Page) (item : WorkItem)
    → Follows Move.recall item.status (work_item_recall page item).1.status
unfolding work_item_recall recall_to_draft build_work_item_perms
recall-Follows page item =
    by_outcome Move.recall item (work_item_recall page item) (λ h. ground arith)
      (λ h.
        along ItemStatus.awaiting_dispatch ItemStatus.draft item.status _ Edge.recalls
          (awaiting_of item.status (ground arith)) (ground arith))

pub checkout_status :
    (timeouts : Timeouts) (page : Page) (item : WorkItem)
    → (work_item_checkout timeouts page item).1.status ≡ item.status
unfolding work_item_checkout checkout_work_item checked_out_as
checkout_status timeouts page item = ground arith

pub checkin_status :
    (page : Page) (item : WorkItem) → (work_item_checkin page item).1.status ≡ item.status
unfolding work_item_checkin checkin_work_item checked_in_as
checkin_status page item = ground arith

pub grant_status :
    (page : Page) (item : WorkItem) → (work_item_grant_extension page item).1.status ≡ item.status
unfolding work_item_grant_extension
grant_status page item = ground arith

pub revoke_status :
    (page : Page) (item : WorkItem) → (work_item_revoke_extension page item).1.status ≡ item.status
unfolding work_item_revoke_extension
revoke_status page item = ground arith

pub assign_status :
    (r : Request) (groups : List ApprovalGroup) (form : ℕ → Option ℕ) (item : WorkItem)
    → (assign_approval_groups r groups form item).1.status ≡ item.status
unfolding assign_approval_groups guarded
assign_status r groups form item = ground arith

pub pull_back-Follows :
    (day_end : ℕ → ℕ) (page : Page) (item : WorkItem)
    → Follows Move.pull_back item.status (techops_request_pull_back day_end page item).1.status
pull_back-Follows day_end page item =
    let (moved, kept) = techops_request_pull_back_guards day_end page item in
    by_outcome Move.pull_back item (techops_request_pull_back day_end page item)
      (λ h. ap (λ (i : WorkItem). i.status) (kept h))
      (λ h.
        along ItemStatus.submitted ItemStatus.draft item.status _ Edge.pulls_back
          (submitted_of item.status (moved h).3) (moved h).0)

pub send_back-Follows :
    (day_end : ℕ → ℕ) (page : Page) (words : Option Text) (item : WorkItem)
    → Follows Move.send_back item.status
        (techops_request_send_back day_end page words item).1.status
unfolding techops_request_send_back techops_return_options reset_submitted_to_draft
send_back-Follows day_end page words item =
    by_outcome Move.send_back item (techops_request_send_back day_end page words item)
      (λ h. ground arith)
      (λ h. elim (Bool-cases (is_submitted item.status)) [
        | inl s ↦
            along ItemStatus.submitted ItemStatus.draft item.status _ Edge.sends_back
              (submitted_of item.status s) (ground arith)
        | inr s ↦
            along ItemStatus.finalized ItemStatus.draft item.status _ Edge.returns
              (finalized_of item.status (ground arith)) (ground arith)
      ])

pub dispatch-Follows :
    (r : Request) (groups : List ApprovalGroup) (form : ℕ → Option ℕ) (next : ℕ) (item : WorkItem)
    → Follows Move.dispatch item.status (dispatch_to_queue r groups form next item).1.status
dispatch-Follows r groups form next item =
    by_outcome Move.dispatch item (dispatch_to_queue r groups form next item)
      (λ h. ap (λ (i : WorkItem). i.status) (dispatch_to_queue_refused r groups form next item h))
      (λ h.
        along ItemStatus.awaiting_dispatch ItemStatus.submitted item.status _ Edge.dispatches
          (awaiting_of item.status (dispatch_to_queue_waits r groups form next item h))
          (dispatch_to_queue_routes r groups form next item h).0)

-- the status of a routed submission
submit_item-Follows :
    (r : Request) (next : ℕ) (item : WorkItem)
    → is_draft item.status ≡ true
    → (o : Option WorkItem) → submit_work_item r next item ≡ o
    → Follows Move.submit item.status (submitted_or item o).1.status
unfolding submitted_or
submit_item-Follows r next item d none e = inl refl
submit_item-Follows r next item d (some item') e =
    let (config, _, (queued, routed)) = submit_work_item_routes r next item item' e in
    elim (Bool-cases config.uses_dispatch) [
      | inl u ↦
          along ItemStatus.draft ItemStatus.awaiting_dispatch item.status _ Edge.awaits
            (draft_of item.status d) (queued u).0
      | inr u ↦
          along ItemStatus.draft ItemStatus.submitted item.status _ Edge.submits
            (draft_of item.status d) (routed u).0
    ]

submit_checked-Follows :
    (page : Page) (next : ℕ) (item : WorkItem)
    → is_draft item.status ≡ true
    → (o : Option ℕ) → Follows Move.submit item.status (submit_checked page next item o).1.status
unfolding submit_checked
submit_checked-Follows page next item d (some n) = inl refl
submit_checked-Follows page next item d none =
    submit_item-Follows (by page) next item d (submit_work_item (by page) next item) refl

pub submit-Follows :
    (page : Page) (next : ℕ) (item : WorkItem)
    → Follows Move.submit item.status (work_item_submit page next item).1.status
unfolding work_item_submit
submit-Follows page next item = elim (Bool-cases (is_draft item.status)) [
  | inl d ↦
      go d (not (perms_of page item).can_edit) (not (is_draft item.status)) (is_without item.lines)
  | inr d ↦ inl (ground arith)
]
  where
    go :
        is_draft item.status ≡ true
        → (a b c : Bool)
        → Follows Move.submit item.status
            (if a
              then (Outcome.forbidden, item)
              else if b
              then (Outcome.refused Refusal.only_drafts, item)
              else if c
              then (Outcome.refused Refusal.no_lines, item)
              else submit_checked page next item (missing_details item.lines)).1.status
    go d true b c = inl refl
    go d false true c = inl refl
    go d false false true = inl refl
    go d false false false = submit_checked-Follows page next item d (missing_details item.lines)

-- ===== src/Actions/Diagram.antt =====
-- The handlers as an implementation of the diagram.
use resource_mgmt_app.Base.{ℕ, Bool, Option, List, [], ◌∷◌}
use resource_mgmt_app.Base.Int.{ℤ}
use resource_mgmt_app.Base.Text.{Text}
use resource_mgmt_app.Model.{ApprovalGroup, WorkItem, PortfolioContext, ItemStatus, ReviewAction}
use resource_mgmt_app.Access.{Request}
use resource_mgmt_app.Checkout.{Timeouts}
use resource_mgmt_app.Dispatch.{dispatch_to_queue, assign_approval_groups}
use resource_mgmt_app.Reviews.{apply_review_decision}
use resource_mgmt_app.AdminFinal.Finalize.{finalize_work_item, unpause}
use resource_mgmt_app.AdminFinal.Unfinalize.{unfinalize_work_item, pause}
use resource_mgmt_app.Actions.{
  Page, work_item_submit, work_item_recall, work_item_checkout, work_item_checkin,
  work_item_grant_extension, work_item_revoke_extension, techops_request_pull_back,
  techops_request_send_back,
}
use resource_mgmt_app.Actions.Edges.{Move, Follows}

-- the handlers that write a request, and its siblings' share in a finalization
pub data Call : Type 0 where
  submit : Page → ℕ → Call
  recall : Page → Call
  checkout : Timeouts → Page → Call
  checkin : Page → Call
  grant revoke : Page → Call
  pull_back : (ℕ → ℕ) → Page → Call
  send_back : (ℕ → ℕ) → Page → Option Text → Call
  assign : Request → List ApprovalGroup → (ℕ → Option ℕ) → Call
  dispatch : Request → List ApprovalGroup → (ℕ → Option ℕ) → ℕ → Call
  decide : Request → Option PortfolioContext → ReviewAction → Option Text → Option ℤ → ℕ → ℕ → Call
  finalize : Request → Option Text → ℕ → Call
  unfinalize : Request → Option Text → Bool → Call
  sibling_unfinalized : Request → Option Text → Call
  sibling_finalized : Request → Call

unfoldable pub call : Call → WorkItem → WorkItem
unfolding work_item_submit work_item_recall work_item_checkout work_item_checkin
    work_item_grant_extension work_item_revoke_extension techops_request_pull_back
    techops_request_send_back assign_approval_groups dispatch_to_queue apply_review_decision
    finalize_work_item unfinalize_work_item pause unpause
call (submit page next) item = (work_item_submit page next item).1
call (recall page) item = (work_item_recall page item).1
call (checkout timeouts page) item = (work_item_checkout timeouts page item).1
call (checkin page) item = (work_item_checkin page item).1
call (grant page) item = (work_item_grant_extension page item).1
call (revoke page) item = (work_item_revoke_extension page item).1
call (pull_back day_end page) item = (techops_request_pull_back day_end page item).1
call (send_back day_end page words) item = (techops_request_send_back day_end page words item).1
call (assign r groups form) item = (assign_approval_groups r groups form item).1
call (dispatch r groups form next) item = (dispatch_to_queue r groups form next item).1
call (decide r ctx action words amount line_id review_id) item =
    (apply_review_decision r ctx action words amount line_id review_id item).1
call (finalize r words next) item = (finalize_work_item r words next item []).1
call (unfinalize r words reset) item = (unfinalize_work_item r words reset item []).1
call (sibling_unfinalized r words) item = pause r words item
call (sibling_finalized r) item = unpause r item

-- the kind of a call, from which the diagram tells what it may do to the status
abbrev pub move_of : Call → Move
move_of (submit _ _) = Move.submit
move_of (recall _) = Move.recall
move_of (checkout _ _) = Move.keep
move_of (checkin _) = Move.keep
move_of (grant _) = Move.keep
move_of (revoke _) = Move.keep
move_of (pull_back _ _) = Move.pull_back
move_of (send_back _ _ _) = Move.send_back
move_of (assign _ _ _) = Move.keep
move_of (dispatch _ _ _ _) = Move.dispatch
move_of (decide _ _ _ _ _ _ _) = Move.decide
move_of (finalize _ _ _) = Move.finalize
move_of (unfinalize _ _ _) = Move.unfinalize
move_of (sibling_unfinalized _ _) = Move.sibling_unfinalized
move_of (sibling_finalized _) = Move.sibling_finalized

-- the status after each call, with the call's kind
unfoldable pub history : List Call → WorkItem → List (Move × ItemStatus)
unfolding call
history [] item = []
history (c ∷ cs) item = (move_of c, (call c item).status) ∷ history cs (call c item)

-- a history from a status on, each step of which is of its kind
pub data Trace : ItemStatus → List (Move × ItemStatus) → Type 0 where
  ends : {s : ItemStatus} → Trace s []
  goes :
      {s t : ItemStatus} {m : Move} {rest : List (Move × ItemStatus)}
      → Follows m s t
      → Trace t rest
      → Trace s ((m, t) ∷ rest)

-- ===== src/Dispatch/Lock.antt =====
-- The dispatch queue leaves the review lock.
use resource_mgmt_app.Base.{ℕ, refl, Option, List, [], ◌∷◌, map, arith}
use resource_mgmt_app.Model.{ApprovalGroup, WorkItem}
use resource_mgmt_app.Access.{Request}
use resource_mgmt_app.Outcome.{Outcome}
use resource_mgmt_app.Checkout.{KeepsLock}
use resource_mgmt_app.Dispatch.{
  guarded, assign_approval_groups, dispatch_to_queue, queue_or_refuse, assign_line, unassigned,
}

queued-KeepsLock :
    (r : Request) (next : ℕ) (item assigned : WorkItem) (numbers : List ℕ)
    → KeepsLock item assigned
    → KeepsLock item (queue_or_refuse r next item assigned numbers).1
unfolding queue_or_refuse
queued-KeepsLock r next item assigned [] h = (ground arith, ground arith)
queued-KeepsLock r next item assigned (_ ∷ _) h = (ground arith, ground arith)

guarded-KeepsLock :
    (r : Request) (item : WorkItem) (x : Outcome × WorkItem)
    → KeepsLock item x.1
    → KeepsLock item (guarded r item x).1
unfolding guarded
guarded-KeepsLock r item x h = (ground arith, ground arith)

module _ (r : Request) (groups : List ApprovalGroup) (form : ℕ → Option ℕ) (item : WorkItem) where
  pub assign_approval_groups-KeepsLock :
      KeepsLock item (assign_approval_groups r groups form item).1
  unfolding assign_approval_groups
  assign_approval_groups-KeepsLock = guarded-KeepsLock r item _ (refl, refl)

  pub dispatch_to_queue-KeepsLock :
      (next : ℕ) → KeepsLock item (dispatch_to_queue r groups form next item).1
  unfolding dispatch_to_queue
  dispatch_to_queue-KeepsLock next =
      let assigned = record item { lines = map (assign_line groups form) item.lines } in
      guarded-KeepsLock r item _
        (queued-KeepsLock r next item assigned (unassigned assigned.lines) (refl, refl))

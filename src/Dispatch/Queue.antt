-- ===== src/Dispatch/Queue.antt =====
-- What a dispatch does to the lines, and when it is refused.
use resource_mgmt_app.Base.{
  ℕ, ◌+◌, ◌≡◌, refl, sym, subst, ◌∙◌, true, false, Option, none, some, List, [], ◌∷◌, ◌++◌, map,
  is_some, arith,
}
use resource_mgmt_app.Base.Each.{Each}
use resource_mgmt_app.Model.{
  ApprovalGroup, BudgetLineDetail, WorkLine, WorkLineReview, WorkItem, ItemStatus, ReviewStage,
  is_awaiting_dispatch, ReviewStatus,
}
use resource_mgmt_app.Access.{Request}
use resource_mgmt_app.Outcome.{Outcome, is_done, done}
use resource_mgmt_app.Lifecycle.{new_review}
use resource_mgmt_app.Dispatch.{
  chosen_group, route_detail, assign_line, guarded, assigned_group, detail_group, unassigned,
  dispatch_line, dispatch_lines, dispatched_item, queue_or_refuse, dispatch_to_queue,
}

-- the group of a line with a budget detail: the one chosen in the form, or else the one it had
abbrev pub group_after : Option ApprovalGroup → Option ApprovalGroup → Option ApprovalGroup
group_after none before = before
group_after (some group) before = some group

-- a line of a dispatched request: a group, the stage, and one more review, which is pending for that group
abbrev pub IsDispatched : List ApprovalGroup → (ℕ → Option ℕ) → WorkLine → WorkLine → Type 0
IsDispatched groups form line line' =
    (group : ApprovalGroup) × (v : WorkLineReview) × (group_after
        (chosen_group groups (form line.id)) (assigned_group line)
      ≡ some group)
    × (assigned_group line' ≡ some group)
    × (line'.reviews ≡ line.reviews ++ (v ∷ []))
    × (v.approval_group ≡ some group)
    × (v.stage ≡ ReviewStage.approval_group)
    × (v.status ≡ ReviewStatus.pending)
    × (line'.current_review_stage ≡ some ReviewStage.approval_group)

route_detail_lem :
    (c : Option ApprovalGroup) (d : Option BudgetLineDetail)
    → is_some (detail_group (route_detail c d)) ≡ true
    → (group : ApprovalGroup) × (group_after c (detail_group d) ≡ some group)
      × (detail_group (route_detail c d) ≡ some group)
unfolding detail_group route_detail
route_detail_lem none d h = go (detail_group d) h
  where
    go :
        (o : Option ApprovalGroup)
        → is_some o ≡ true
        → (group : ApprovalGroup) × (o ≡ some group) × (o ≡ some group)
    go none h = cc
    go (some group) h = (group, refl, refl)
route_detail_lem (some group) none h = cc
route_detail_lem (some group) (some detail) h = (group, refl, refl)

module _ (r : Request) (groups : List ApprovalGroup) (form : ℕ → Option ℕ) where
  dispatch_line-IsDispatched :
      (next : ℕ) (line : WorkLine)
      → is_some (assigned_group (assign_line groups form line)) ≡ true
      → IsDispatched groups form line (dispatch_line r next (assign_line groups form line))
  unfolding dispatch_line assigned_group assign_line
  dispatch_line-IsDispatched next line h =
      let (group, e, e') =
        route_detail_lem (chosen_group groups (form line.id)) line.budget_detail h in
      (
        group,
        new_review r next ReviewStage.approval_group
            (assigned_group (assign_line groups form line)),
        e,
        e',
        refl,
        e',
        refl,
        refl,
        refl,
      )

  dispatch_lines-IsDispatched :
      (next : ℕ) (lines : List WorkLine)
      → unassigned (map (assign_line groups form) lines) ≡ []
      → Each
          (IsDispatched groups form)
          lines
          (dispatch_lines r next (map (assign_line groups form) lines))
  unfolding dispatch_lines unassigned
  dispatch_lines-IsDispatched next [] h = Each.nil
  dispatch_lines-IsDispatched next (line ∷ lines) h =
      Each.cons (dispatch_line-IsDispatched next line (ground arith))
        (dispatch_lines-IsDispatched (next + 1) lines (ground arith))

  queued :
      (next : ℕ) (item assigned : WorkItem) (ns : List ℕ)
      → is_done (queue_or_refuse r next item assigned ns).0 ≡ true
      → (ns ≡ [])
        × (queue_or_refuse r next item assigned ns ≡ (done, dispatched_item r next assigned))
  unfolding queue_or_refuse
  queued next item assigned [] h = (refl, refl)
  queued next item assigned (n ∷ ns) h = cc

  passed :
      (item : WorkItem) (otherwise : Outcome × WorkItem)
      → is_done (guarded r item otherwise).0 ≡ true
      → guarded r item otherwise ≡ otherwise
  unfolding guarded
  passed item otherwise h = ground arith

  -- A dispatch that goes through puts the request under review with every line routed: to the group that the
  -- form chose for it, or else to the one that it had, with one new pending review of that group.
  pub dispatch_to_queue_routes :
      (next : ℕ) (item : WorkItem)
      → is_done (dispatch_to_queue r groups form next item).0 ≡ true
      → let item' = (dispatch_to_queue r groups form next item).1 in
        (item'.status ≡ ItemStatus.submitted)
        × (item'.dispatched_at ≡ some r.now)
        × Each (IsDispatched groups form) item.lines item'.lines
  unfolding dispatch_to_queue dispatched_item
  dispatch_to_queue_routes next item h =
      let assigned : WorkItem = record item { lines = map (assign_line groups form) item.lines } in
      let e = passed item (queue_or_refuse r next item assigned (unassigned assigned.lines)) h in
      let (full, e') =
        queued next item assigned (unassigned assigned.lines)
          (subst (λ (x : Outcome × WorkItem). is_done x.0 ≡ true) e h) in
      subst
        (λ (x : Outcome × WorkItem).
          (x.1.status ≡ ItemStatus.submitted)
          × (x.1.dispatched_at ≡ some r.now)
          × Each (IsDispatched groups form) item.lines x.1.lines)
        (sym (e ∙ e')) (refl, refl, dispatch_lines-IsDispatched next item.lines full)

  refused_kept :
      (next : ℕ) (item assigned : WorkItem) (ns : List ℕ)
      → is_done (queue_or_refuse r next item assigned ns).0 ≡ false
      → (queue_or_refuse r next item assigned ns).1 ≡ item
  unfolding queue_or_refuse
  refused_kept next item assigned [] h = cc
  refused_kept next item assigned (n ∷ ns) h = refl

  -- A dispatch that is refused - by the role, the work type, the status, or a line without a group - leaves
  -- the request as it was.
  pub dispatch_to_queue_refused :
      (next : ℕ) (item : WorkItem)
      → is_done (dispatch_to_queue r groups form next item).0 ≡ false
      → (dispatch_to_queue r groups form next item).1 ≡ item
  unfolding dispatch_to_queue guarded
  dispatch_to_queue_refused next item h =
      let assigned : WorkItem = record item { lines = map (assign_line groups form) item.lines } in
      ground (arith, refused_kept next item assigned (unassigned assigned.lines))

  pub dispatch_to_queue_waits :
      (next : ℕ) (item : WorkItem)
      → is_done (dispatch_to_queue r groups form next item).0 ≡ true
      → is_awaiting_dispatch item.status ≡ true
  unfolding dispatch_to_queue guarded
  dispatch_to_queue_waits next item h = ground arith

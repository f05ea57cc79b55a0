-- ===== src/Lifecycle/Submit.antt =====
-- What a submission does to the lines.
use resource_mgmt_app.Base.{
  ℕ, ◌≡◌, refl, sym, ap, ◌∙◌, subst, true, false, Option, none, some, List, [], ◌∷◌, ◌++◌, is_some,
  arith,
}
use resource_mgmt_app.Base.Each.{Each}
use resource_mgmt_app.Model.{
  ApprovalGroup, ItemStatus, WorkTypeConfig, ReviewStage, ReviewStatus, WorkLine, WorkLineReview,
  WorkItem,
}
use resource_mgmt_app.LineDetails.{
  get_line_detail, get_line_amount_cents, get_line_routing_approval_group,
  set_line_routing_approval_group,
}
use resource_mgmt_app.LineDetails.Routing.{get-set_line_routing_approval_group}
use resource_mgmt_app.Access.{Request}
use resource_mgmt_app.Routing.{Routed, to_group, no_group, value_error, get_approval_group_for_line}
use resource_mgmt_app.Lifecycle.{
  new_review, route_line, next_after, attach, route_lines, log_submit, submit_routed,
  submit_by_config, submit_work_item,
}

-- One line after the routing of a submission. With a group: one more review, pending, of that group;
-- the snapshot reads back as the group; the amount is the same. Without: the line as it was. A line
-- whose routing raises is in no submission.
abbrev pub IsRouted : Routed → WorkLine → WorkLine → Type 0
IsRouted (to_group group) line line' =
    (v : WorkLineReview) × (line'.reviews ≡ line.reviews ++ (v ∷ []))
    × (v.stage ≡ ReviewStage.approval_group)
    × (v.status ≡ ReviewStatus.pending)
    × (v.approval_group ≡ some group)
    × (line'.current_review_stage ≡ some ReviewStage.approval_group)
    × (is_some (get_line_detail line) ≡ true → get_line_routing_approval_group line' ≡ some group)
    × (get_line_amount_cents line' ≡ get_line_amount_cents line)
IsRouted no_group line line' = line' ≡ line
IsRouted value_error line line' = true ≡ false

reviews_of_set :
    (line : WorkLine) (group : Option ApprovalGroup)
    → (set_line_routing_approval_group line group).0.reviews ≡ line.reviews
unfolding set_line_routing_approval_group
reviews_of_set line group = ground arith

route_line-IsRouted :
    (r : Request) (next : ℕ) (group : ApprovalGroup) (line : WorkLine)
    → IsRouted (to_group group) line (route_line r next group line)
unfolding route_line get_line_routing_approval_group get_line_amount_cents get_line_detail
route_line-IsRouted r next group line =
    let (d, g, a) = get-set_line_routing_approval_group line (some group) in
    let v = new_review r next ReviewStage.approval_group (some group) in
    (
      v,
      ap (λ vs. vs ++ (v ∷ [])) (reviews_of_set line (some group)),
      refl,
      refl,
      refl,
      refl,
      λ h. g (d ∙ h),
      a,
    )

attach_lem :
    (r : Request) (next : ℕ) (line : WorkLine) (routed : Routed) (rest : Option (List WorkLine))
    (lines' : List WorkLine)
    → attach r next line routed rest ≡ some lines'
    → (line' : WorkLine) × (rest' : List WorkLine) × (lines' ≡ line' ∷ rest')
      × (rest ≡ some rest')
      × IsRouted routed line line'
unfolding attach
attach_lem r next line value_error rest lines' h = cc
attach_lem r next line (to_group group) none lines' h = cc
attach_lem r next line (to_group group) (some rest) lines' h =
    (route_line r next group line, rest, ground arith, refl, route_line-IsRouted r next group line)
attach_lem r next line no_group none lines' h = cc
attach_lem r next line no_group (some rest) lines' h = (line, rest, ground arith, refl, refl)

route_lines-IsRouted :
    (r : Request) (item : WorkItem) (lines : List WorkLine) (next : ℕ) (lines' : List WorkLine)
    → route_lines r item next lines ≡ some lines'
    → Each (λ l l'. IsRouted (get_approval_group_for_line item.portfolio l) l l') lines lines'
unfolding route_lines
route_lines-IsRouted r item [] next lines' h =
    subst (Each (λ l l'. IsRouted (get_approval_group_for_line item.portfolio l) l l') [])
      (ground arith) Each.nil
route_lines-IsRouted r item (line ∷ lines) next lines' h =
    let routed = get_approval_group_for_line item.portfolio line in
    let (line', rest', e, e', one) =
      attach_lem r next line routed (route_lines r item (next_after routed next) lines) lines' h in
    subst
      (Each (λ l l'. IsRouted (get_approval_group_for_line item.portfolio l) l l') (line ∷ lines))
      (sym e) (Each.cons one (route_lines-IsRouted r item lines (next_after routed next) rest' e'))

routed_of_submit :
    (r : Request) (item : WorkItem) (o : Option (List WorkLine)) (item' : WorkItem)
    → submit_routed r item o ≡ some item'
    → (lines : List WorkLine) × (o ≡ some lines)
      × (item'.lines ≡ lines)
      × (item'.status ≡ ItemStatus.submitted)
unfolding submit_routed log_submit
routed_of_submit r item none item' h = cc
routed_of_submit r item (some lines) item' h = (lines, refl, ground arith, ground arith)

-- the request that a submission leaves, by the configuration of its work type
abbrev pub IsSubmitted : WorkItem → WorkItem → WorkTypeConfig → Type 0
IsSubmitted item item' config =
    (config.uses_dispatch ≡ true
      → (item'.status ≡ ItemStatus.awaiting_dispatch) × (item'.lines ≡ item.lines))
    × (config.uses_dispatch ≡ false
        → (item'.status ≡ ItemStatus.submitted)
          × Each (λ l l'. IsRouted (get_approval_group_for_line item.portfolio l) l l') item.lines
              item'.lines)

submit_by_config_lem :
    (r : Request) (next : ℕ) (item item' : WorkItem) (o : Option WorkTypeConfig)
    → submit_by_config o r next item ≡ some item'
    → (config : WorkTypeConfig) × (o ≡ some config) × IsSubmitted item item' config
unfolding submit_by_config log_submit
submit_by_config_lem r next item item' none h = cc
submit_by_config_lem r next item item' (some config) h = (
  config,
  refl,
  (
    λ d. (ground arith, ground arith),
    λ d.
        let h' : submit_routed r item (route_lines r item next item.lines) ≡ some item' =
          ground arith in
        let (lines, e, l, s) =
          routed_of_submit r item (route_lines r item next item.lines) item' h' in
        (
          s,
          subst
              (Each (λ l l'. IsRouted (get_approval_group_for_line item.portfolio l) l l')
                item.lines)
              (sym l) (route_lines-IsRouted r item item.lines next lines e),
        ),
  ),
)

-- A submission takes the request to SUBMITTED, every line of it routed as `IsRouted` says; or, where
-- the work type has a dispatch queue, to AWAITING_DISPATCH, with its lines as they were. It happens
-- only on a work type that is configured.
pub submit_work_item_routes :
    (r : Request) (next : ℕ) (item item' : WorkItem)
    → submit_work_item r next item ≡ some item'
    → (config : WorkTypeConfig) × (item.portfolio.work_type.config ≡ some config)
      × IsSubmitted item item' config
unfolding submit_work_item
submit_work_item_routes r next item item' h =
    let item1 = record item {
      submitted_at = some r.now;
      submitted_by_user_id = some r.user_ctx.user_id;
    } in
    submit_by_config_lem r next item1 item' item.portfolio.work_type.config h

-- ===== src/AdminFinal/Unfinalize/Cycle.antt =====
-- A request that is unfinalized and finalized again.
use resource_mgmt_app.Base.{
  ℕ, ◌+◌, ◌≡◌, refl, sym, ap, ◌∙◌, subst, true, Option, some, List, [], ◌∷◌, map, arith,
  if◌then◌else◌,
}
use resource_mgmt_app.Base.Int.{pos}
use resource_mgmt_app.Base.Each.{Each}
use resource_mgmt_app.Base.Text.{Text}
use resource_mgmt_app.Model.{LineStatus, BudgetLineDetail, WorkLine, WorkItem}
use resource_mgmt_app.LineDetails.{compute_line_amount_cents}
use resource_mgmt_app.Access.{Request}
use resource_mgmt_app.Outcome.{is_done}
use resource_mgmt_app.AdminFinal.Decision.{requested_amount}
use resource_mgmt_app.AdminFinal.Decision.Rows.{line_of_admin_review}
use resource_mgmt_app.AdminFinal.Finalize.{
  admin_has_decided, resolved_amount, amount_by_status, resolve_line, finalize_lines,
  finalize_work_item,
}
use resource_mgmt_app.AdminFinal.Finalize.Resolution.{finalize_item_lines, finalize_work_item_item}
use resource_mgmt_app.AdminFinal.Unfinalize.{
  reset_found, reset_line, unfinalize_item, unfinalize_work_item,
}

-- the amount asked for in a booking
abbrev pub requested : BudgetLineDetail → ℕ
requested d = compute_line_amount_cents (some d.unit_price_cents) (some d.quantity)

-- a line approved for what it asks, whatever its reviews say
abbrev pub IsApprovedAsRequested : WorkLine → WorkLine → Type 0
IsApprovedAsRequested line line' =
    (d : BudgetLineDetail)
    → line.budget_detail ≡ some d
    → (line'.status ≡ LineStatus.approved)
      × (line'.approved_amount_cents ≡ some (pos (requested d)))

detail-reset_line : (line : WorkLine) → (reset_line line).budget_detail ≡ line.budget_detail
unfolding reset_line reset_found
detail-reset_line line = ground arith

pending-reset_line : (line : WorkLine) → (reset_line line).status ≡ LineStatus.pending
unfolding reset_line
pending-reset_line line = refl

resolve_pending :
    (r : Request) (next : ℕ) (line : WorkLine)
    → line.status ≡ LineStatus.pending
    → IsApprovedAsRequested line (if admin_has_decided line then line else resolve_line r next line)
unfolding resolve_line resolved_amount amount_by_status requested_amount admin_has_decided
resolve_pending r next line e d h =
    let (s, b) = line_of_admin_review r next line in (ground (arith, s, b), ground (arith, s, b))

refinalize_lines :
    (r : Request) (next : ℕ) (lines : List WorkLine)
    → Each IsApprovedAsRequested lines (finalize_lines r next (map reset_line lines))
unfolding finalize_lines
refinalize_lines r next [] = Each.nil
refinalize_lines r next (line ∷ lines) =
    Each.cons
      (λ d h.
        resolve_pending r next (reset_line line) (pending-reset_line line) d
          (detail-reset_line line ∙ h))
      (refinalize_lines r (next + 1) lines)

unfinalized_lines :
    (r : Request) (reason : Option Text) (item : WorkItem) (others : List WorkItem)
    → let (outcome, item', _) = unfinalize_work_item r reason true item others in
      is_done outcome ≡ true → item'.lines ≡ map reset_line item.lines
unfolding unfinalize_work_item unfinalize_item
unfinalized_lines r reason item others h = ground arith

-- If a request is unfinalized with its lines reset and then finalized again, with no review in between,
-- every line with a budget detail is approved for the whole requested amount: the amount that its
-- reviewers recommended, and even their rejection, count for nothing any more.
pub unfinalize-finalize_approves :
    (r r' : Request) (reason note : Option Text) (next : ℕ) (item : WorkItem)
    (others : List WorkItem)
    → let (undone, item', others') = unfinalize_work_item r reason true item others in
      let (outcome, item'', _) = finalize_work_item r' note next item' others' in
      is_done undone ≡ true
      → is_done outcome ≡ true
      → Each IsApprovedAsRequested item.lines item''.lines
unfinalize-finalize_approves r r' reason note next item others h h' =
    let u = unfinalize_work_item r reason true item others in
    let e =
      ap (λ i. i.lines) (finalize_work_item_item r' note next u.1 u.2 h')
      ∙ finalize_item_lines r' note next u.1 u.2
      ∙ ap (finalize_lines r' next) (unfinalized_lines r reason item others h) in
    subst (Each IsApprovedAsRequested item.lines) (sym e) (refinalize_lines r' next item.lines)

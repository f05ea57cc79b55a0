-- ===== src/Totals/Amounts.antt =====
-- The running totals beside sums over the lines.
use mathlib.Core.List.{foldl}
use resource_mgmt_app.Base.{
  ℕ, ◌+◌, ◌≡◌, refl, ◌∙◌, List, [], ◌∷◌, arith, Bool-cases, inl, inr, length, sum_of, if◌then◌else◌,
}
use resource_mgmt_app.Base.Int.{ℤ, pos, ◌+ℤ◌, sum_of_ℤ, int_laws, sum_laws}
use resource_mgmt_app.Model.{WorkLine, WorkItem, is_line_approved}
use resource_mgmt_app.LineDetails.{get_line_amount_cents}
use resource_mgmt_app.Totals.{
  WorkItemTotals, compute_work_item_totals, compute_portfolio_totals, approved_cents, add_approved,
  add_line, add_portfolio_line, add_item,
}

pub add_approved-eq :
    (acc : ℤ) (line : WorkLine) → add_approved acc line ≡ acc +ℤ approved_cents line
unfolding add_approved
add_approved-eq acc line = elim (Bool-cases (is_line_approved line.status)) [
  | inl yes_approved ↦ simp yes_approved
  | inr not_approved ↦ simp (not_approved, sum_laws)
]

foldl-add_line :
    (lines : List WorkLine) (t : WorkItemTotals)
    → let t' = foldl add_line t lines in
      (t'.requested ≡ t.requested + sum_of get_line_amount_cents lines)
      × (t'.approved ≡ t.approved +ℤ sum_of_ℤ approved_cents lines)
      × (t'.line_count ≡ t.line_count + length lines)
foldl-add_line [] t = (omega arith, simp sum_laws, omega arith)
foldl-add_line (line ∷ lines) t =
    let ih = foldl-add_line lines (add_line t line) in
    (omega (arith, ih.0), ih.1 ∙ simp (add_approved-eq, sum_laws), omega (arith, ih.2))

-- The totals of a request are sums over its lines: the requested amounts of all of them, and the
-- approved amounts of those whose status is APPROVED, a missing amount counting 0; the line count is
-- their number.
pub compute_work_item_totals_sums :
    (item : WorkItem)
    → let t = compute_work_item_totals item in
      (t.requested ≡ sum_of get_line_amount_cents item.lines)
      × (t.approved ≡ sum_of_ℤ approved_cents item.lines)
      × (t.line_count ≡ length item.lines)
unfolding compute_work_item_totals
compute_work_item_totals_sums item =
    let (requested, approved, count) =
      foldl-add_line item.lines (record { requested = 0; approved = pos 0; line_count = 0 }) in
    (omega (arith, requested), approved ∙ simp sum_laws, omega (arith, count))

-- an archived item adds nothing
abbrev pub live_requested : WorkItem → ℕ
live_requested item = if item.is_archived then 0 else (compute_work_item_totals item).requested

abbrev pub live_approved : WorkItem → ℤ
live_approved item = if item.is_archived then pos 0 else (compute_work_item_totals item).approved

foldl-add_portfolio_line :
    (lines : List WorkLine) (acc : ℕ × ℤ)
    → let acc' = foldl add_portfolio_line acc lines in
      (acc'.0 ≡ acc.0 + sum_of get_line_amount_cents lines)
      × (acc'.1 ≡ acc.1 +ℤ sum_of_ℤ approved_cents lines)
foldl-add_portfolio_line [] acc = (omega arith, simp sum_laws)
foldl-add_portfolio_line (line ∷ lines) acc =
    let ih = foldl-add_portfolio_line lines (add_portfolio_line acc line) in
    (omega (arith, ih.0), ih.1 ∙ simp (add_approved-eq, sum_laws))

add_item-eq :
    (item : WorkItem) (acc : ℕ × ℤ)
    → ((add_item acc item).0 ≡ acc.0 + live_requested item)
      × ((add_item acc item).1 ≡ acc.1 +ℤ live_approved item)
add_item-eq item acc = elim (Bool-cases item.is_archived) [
  | inl archived ↦ simp (archived, sum_laws) (omega arith, refl)
  | inr live ↦
      let (requested, approved) = foldl-add_portfolio_line item.lines acc in
      let (requested', approved', _) = compute_work_item_totals_sums item in
      simp live (omega (arith, requested, requested'), approved ∙ simp approved')
]

foldl-add_item :
    (items : List WorkItem) (acc : ℕ × ℤ)
    → let acc' = foldl add_item acc items in
      (acc'.0 ≡ acc.0 + sum_of live_requested items)
      × (acc'.1 ≡ acc.1 +ℤ sum_of_ℤ live_approved items)
foldl-add_item [] acc = (omega arith, simp sum_laws)
foldl-add_item (item ∷ items) acc =
    let (r, a) = foldl-add_item items (add_item acc item) in
    let (r', a') = add_item-eq item acc in (omega (arith, r, r'), a ∙ simp (a', sum_laws))

-- The totals of a portfolio are the sums of the totals of its requests that are not archived, and
-- what is pending makes up the difference between the requested and the approved amount.
pub compute_portfolio_totals_sums :
    (items : List WorkItem)
    → let t = compute_portfolio_totals items in
      (t.requested ≡ sum_of live_requested items)
      × (t.approved ≡ sum_of_ℤ live_approved items)
      × (t.pending +ℤ t.approved ≡ pos t.requested)
unfolding compute_portfolio_totals
compute_portfolio_totals_sums items =
    let (requested, approved) = foldl-add_item items (0, pos 0) in
    (omega (arith, requested), approved ∙ simp sum_laws, omega int_laws)

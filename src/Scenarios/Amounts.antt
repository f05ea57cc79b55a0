-- ===== src/Scenarios/Amounts.antt =====
-- Amounts and counts of the budget request.
use resource_mgmt_app.Base.{◌+◌, ◌*◌, ◌≤◌, ◌<◌, ◌≡◌, refl, true, none, some, [], ◌∷◌, arith, sum_of}
use resource_mgmt_app.LineDetails.{compute_line_amount_cents, set_line_routing_approval_group}
use resource_mgmt_app.LineDetails.Rounding.{compute_line_amount_cents_nearest}
use resource_mgmt_app.Totals.Subtotals.{compute_group_subtotals}
use resource_mgmt_app.Totals.Reconcile.{compute_group_subtotals_reconcile}
use resource_mgmt_app.Totals.Summary.{
  compute_line_status_summary, compute_portfolio_status_summary,
  compute_portfolio_status_from_loaded,
}
use resource_mgmt_app.Totals.Counts.{
  compute_line_status_summary_counts, compute_portfolio_status_from_loaded_eq,
}
use resource_mgmt_app.Scenarios.Sample.{network, pending_line, budget_request}

-- 0.333 of 1.00 is 33 cents
compute_line_amount_cents_nearest_example :
    let amount = compute_line_amount_cents (some 100) (some 333) in
    (100 * 333 < 1000 * amount + 500) × (1000 * amount ≤ 100 * 333 + 500)
compute_line_amount_cents_nearest_example = compute_line_amount_cents_nearest 100 333

has_detail : (set_line_routing_approval_group pending_line (some network)).1 ≡ true
unfolding set_line_routing_approval_group
has_detail = refl

compute_group_subtotals_reconcile_example :
    sum_of (λ g. g.line_count) (compute_group_subtotals (λ t. t) (λ _. none) budget_request.lines)
    ≡ 2
compute_group_subtotals_reconcile_example =
    (compute_group_subtotals_reconcile (λ t. t) (λ _. none) budget_request.lines).0

compute_line_status_summary_counts_example :
    let c = (compute_line_status_summary budget_request).counts in
    c.ag_approved + c.final_approved ≡ c.approved
compute_line_status_summary_counts_example = (compute_line_status_summary_counts budget_request).1

compute_portfolio_status_from_loaded_eq_example :
    compute_portfolio_status_from_loaded (budget_request ∷ [])
    ≡ compute_portfolio_status_summary (budget_request ∷ [])
compute_portfolio_status_from_loaded_eq_example =
    compute_portfolio_status_from_loaded_eq (budget_request ∷ []) (omega arith)

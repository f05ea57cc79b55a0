-- ===== src/Totals.antt =====
-- app/routes/work/helpers/computations.py: amounts of a request and of a portfolio, subtotals by
-- approval group, and the summary of line statuses that the pages show.
pub mod Subtotals
pub mod Summary
pub mod Amounts
pub mod Reconcile
pub mod Counts
use mathlib.Core.List.{foldl}
use resource_mgmt_app.Base.{
  ℕ, ◌+◌, Bool, true, false, Option, none, some, List, [], ◌∷◌, if◌then◌else◌,
}
use resource_mgmt_app.Base.Int.{ℤ, pos, ◌+ℤ◌, ◌-ℤ◌, or_zero_ℤ}
use resource_mgmt_app.Model.{WorkLine, WorkItem, is_line_approved}
use resource_mgmt_app.LineDetails.{get_line_amount_cents}

pub record WorkItemTotals : Type 0 where
  pub requested : ℕ
  pub approved : ℤ
  pub line_count : ℕ

pub record PortfolioTotals : Type 0 where
  pub requested : ℕ
  pub approved : ℤ
  pub pending : ℤ

-- what one line adds to the approved amount
abbrev pub approved_cents : WorkLine → ℤ
approved_cents line =
    if is_line_approved line.status then or_zero_ℤ line.approved_amount_cents else pos 0

-- `approved += line.approved_amount_cents or 0`, for an APPROVED line
unfoldable pub add_approved : ℤ → WorkLine → ℤ
add_approved approved line =
    if is_line_approved line.status
    then approved +ℤ or_zero_ℤ line.approved_amount_cents
    else approved

abbrev pub add_line : WorkItemTotals → WorkLine → WorkItemTotals
add_line t line = record {
  requested = t.requested + get_line_amount_cents line;
  approved = add_approved t.approved line;
  line_count = t.line_count + 1;
}

unfoldable pub compute_work_item_totals : WorkItem → WorkItemTotals
compute_work_item_totals item =
    foldl add_line (record { requested = 0; approved = pos 0; line_count = 0 }) item.lines

-- the loop over the portfolio's items, on the two amounts
abbrev pub add_portfolio_line : ℕ × ℤ → WorkLine → ℕ × ℤ
add_portfolio_line (requested, approved) line =
    (requested + get_line_amount_cents line, add_approved approved line)

abbrev pub add_item : ℕ × ℤ → WorkItem → ℕ × ℤ
add_item acc item = if item.is_archived then acc else foldl add_portfolio_line acc item.lines

unfoldable pub compute_portfolio_totals : List WorkItem → PortfolioTotals
compute_portfolio_totals items =
    let (requested, approved) = foldl add_item (0, pos 0) items in
    record { requested = requested; approved = approved; pending = pos requested -ℤ approved }

-- ===== src/Totals/Counts.antt =====
-- What the status summary counts, and the two summaries of a portfolio compared.
use resource_mgmt_app.Base.{
  ℕ, ◌+◌, ◌≤◌, ◌≡◌, Bool, true, false, ◌||◌, Option, none, some, List, [], ◌∷◌, ◌++◌, arith, length,
  select, any, find?, ltb,
}
use mathlib.Core.List.{append_assoc, append-nil}
use resource_mgmt_app.Model.{LineStatus, WorkLine, WorkItem, is_kicked_back}
use resource_mgmt_app.Totals.Summary.{
  LineCounts, no_counts, count_status, count_lines, compute_line_status_summary, is_open_primary,
  is_open_supplementary, gather, compute_portfolio_status_summary,
  compute_portfolio_status_from_loaded,
}

abbrev pub is_flagged : WorkLine → Bool
is_flagged line = elim line.status [ LineStatus.approved_needs_review ↦ true | _ ↦ false ]

abbrev counted : LineCounts → ℕ
counted c = c.pending + c.needs_info + c.needs_adjustment + c.approved + c.rejected

count_status_adds :
    (line : WorkLine) (c : LineCounts)
    → let c' = count_status line.status line.current_review_stage c in
      (counted c' + length (select is_flagged (line ∷ [])) ≡ counted c + 1)
      × (c'.ag_approved + c'.final_approved + c.approved
          ≡ c.ag_approved + c.final_approved + c'.approved)
      × ((ltb 0 c'.needs_info || ltb 0 c'.needs_adjustment)
          ≡ (is_kicked_back line.status || (ltb 0 c.needs_info || ltb 0 c.needs_adjustment)))
unfolding count_status
count_status_adds line c = ground arith

count_lines_adds :
    (lines : List WorkLine) (c : LineCounts)
    → let c' = count_lines c lines in
      (counted c' + length (select is_flagged lines) ≡ counted c + length lines)
      × (c'.ag_approved + c'.final_approved + c.approved
          ≡ c.ag_approved + c.final_approved + c'.approved)
      × ((ltb 0 c'.needs_info || ltb 0 c'.needs_adjustment) ≡ (
          (ltb 0 c.needs_info || ltb 0 c.needs_adjustment)
          || any (λ l. is_kicked_back l.status) lines))
unfolding count_lines
count_lines_adds [] c = (omega arith, omega arith, ground arith)
count_lines_adds (line ∷ lines) c =
    let c1 = count_status line.status line.current_review_stage c in
    ground (arith, count_status_adds line c, count_lines_adds lines c1)

-- The five status counts leave out exactly the lines that are APPROVED_NEEDS_REVIEW; the approvals
-- split into those of the group stage and the final ones; and a request has issues exactly when one
-- of its lines is kicked back.
pub compute_line_status_summary_counts :
    (item : WorkItem)
    → let s = compute_line_status_summary item in
      let c = s.counts in
      (c.pending
          + c.needs_info
          + c.needs_adjustment
          + c.approved
          + c.rejected
          + length (select is_flagged item.lines)
        ≡ s.line_count)
      × (c.ag_approved + c.final_approved ≡ c.approved)
      × (s.has_issues ≡ any (λ l. is_kicked_back l.status) item.lines)
unfolding compute_line_status_summary
compute_line_status_summary_counts item =
    let (total, split, issues) = count_lines_adds item.lines no_counts in
    (omega (arith, total), omega (arith, split), issues)

-- the rows that are open PRIMARY requests
abbrev pub primaries : List WorkItem → ℕ
primaries rows = length (select is_open_primary rows)

gather_none :
    (rows : List WorkItem) (found : Option WorkItem) (supps : List WorkItem)
    → primaries rows ≡ 0
    → gather found supps rows ≡ (found, supps ++ select is_open_supplementary rows)
unfolding gather
gather_none [] found supps h = rw append-nil
gather_none (item ∷ rows) found supps h = ground (
  arith,
  gather_none rows found supps,
  gather_none rows found (supps ++ (item ∷ [])),
  append_assoc supps (item ∷ []) (select is_open_supplementary rows),
)

gather_one :
    (rows : List WorkItem) (supps : List WorkItem)
    → primaries rows ≤ 1
    → gather none supps rows
      ≡ (find? is_open_primary rows, supps ++ select is_open_supplementary rows)
unfolding gather
gather_one [] supps h = rw append-nil
gather_one (item ∷ rows) supps h = ground (
  arith,
  gather_none rows (some item) supps,
  gather_one rows supps,
  gather_one rows (supps ++ (item ∷ [])),
  append_assoc supps (item ∷ []) (select is_open_supplementary rows),
)

-- The summary from loaded rows is the one from queries, where the portfolio has at most one PRIMARY
-- request that is not archived. (With two of them the query takes the first, the loop the last.)
pub compute_portfolio_status_from_loaded_eq :
    (rows : List WorkItem)
    → primaries rows ≤ 1
    → compute_portfolio_status_from_loaded rows ≡ compute_portfolio_status_summary rows
unfolding compute_portfolio_status_from_loaded compute_portfolio_status_summary
compute_portfolio_status_from_loaded_eq rows h = rw (gather_one rows [] h)

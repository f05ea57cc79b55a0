-- ===== src/AdminFinal/Finalize/Gate.antt =====
-- Which requests may be finalized, and what the summary of their lines adds up to.
use resource_mgmt_app.Base.{
  ℕ, ◌+◌, ◌≡◌, Bool, false, not, ◌&&◌, ◌||◌, List, [], ◌∷◌, arith, all, any, length, is_some,
}
use resource_mgmt_app.Model.{WorkLine, WorkItem, is_awaiting_dispatch, is_submitted, is_kicked_back}
use resource_mgmt_app.Checkout.{is_checked_out}
use resource_mgmt_app.AdminFinal.Finalize.{
  FinalizationSummary, has_decision, check_lines, can_finalize_work_item, count_line, summarize,
  empty_summary, get_finalization_summary,
}

check_lines_lem :
    (b : Bool) (lines : List WorkLine)
    → is_some (check_lines b lines)
      ≡ not (all (λ l. not (is_kicked_back l.status)) lines && (b || any has_decision lines))
unfolding check_lines
check_lines_lem b [] = ground arith
check_lines_lem b (line ∷ lines) = ground (arith, check_lines_lem (b || has_decision line) lines)

-- A request may be finalized exactly if it is SUBMITTED or AWAITING_DISPATCH, no reviewer has it
-- checked out, no line waits for its requester, and at least one line has a decision by the admin
-- or by its approval group.
pub can_finalize_work_item_iff :
    (now : ℕ) (item : WorkItem)
    → not (is_some (can_finalize_work_item now item)) ≡ (
        (is_submitted item.status || is_awaiting_dispatch item.status)
        && not (is_checked_out item now)
        && all (λ l. not (is_kicked_back l.status)) item.lines
        && any has_decision item.lines)
unfolding can_finalize_work_item
can_finalize_work_item_iff now item = ground (arith, check_lines_lem false item.lines)

abbrev counted : FinalizationSummary → ℕ
counted s = s.approved_lines + s.rejected_lines + s.pending_lines + s.kicked_back_lines

count_line_lem :
    (s : FinalizationSummary) (line : WorkLine)
    → (counted (count_line s line) ≡ counted s + 1)
      × ((count_line s line).total_lines ≡ s.total_lines + 1)
unfolding count_line
count_line_lem s line = (ground arith, ground arith)

summarize_lem :
    (s : FinalizationSummary) (lines : List WorkLine)
    → (counted (summarize s lines) ≡ counted s + length lines)
      × ((summarize s lines).total_lines ≡ s.total_lines + length lines)
unfolding summarize
summarize_lem s [] = (omega arith, omega arith)
summarize_lem s (line ∷ lines) =
    let (c, t) = count_line_lem s line in
    let (c', t') = summarize_lem (count_line s line) lines in
    (omega (arith, c, c'), omega (arith, t, t'))

-- The four counts of the summary are of disjoint kinds of lines that together are all of them.
pub get_finalization_summary_counts :
    (item : WorkItem)
    → let s = get_finalization_summary item in
      (s.total_lines ≡ length item.lines)
      × (s.approved_lines + s.rejected_lines + s.pending_lines + s.kicked_back_lines
          ≡ s.total_lines)
unfolding get_finalization_summary
get_finalization_summary_counts item =
    let (c, t) = summarize_lem empty_summary item.lines in (omega (arith, t), omega (arith, c, t))

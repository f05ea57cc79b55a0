-- ===== src/Totals/Summary.antt =====
-- compute_line_status_summary and the two summaries of a portfolio.
use mathlib.Core.List.{foldl}
use resource_mgmt_app.Base.{
  ℕ, ◌+◌, Bool, false, not, ◌&&◌, ◌||◌, Option, none, some, List, [], ◌∷◌, is_some, ltb, length,
  ◌++◌, select, find?, if◌then◌else◌,
}
use resource_mgmt_app.Model.{
  ItemStatus, LineStatus, ReviewStage, WorkTypeConfig, WorkLine, WorkItem, is_primary,
  is_admin_final,
}

-- The status label of a page: a stored status, or one that is only displayed.
pub data EffectiveStatus : Type 0 where
  stored : ItemStatus → EffectiveStatus
  pending_board_approval needs_response needs_adjustment : EffectiveStatus

pub record LineCounts : Type 0 where
  pub pending : ℕ
  pub needs_info : ℕ
  pub needs_adjustment : ℕ
  pub approved : ℕ
  pub rejected : ℕ
  pub ag_approved : ℕ
  pub final_approved : ℕ

pub record LineStatusSummary : Type 0 where
  pub line_count : ℕ
  pub counts : LineCounts
  pub effective_status : EffectiveStatus
  pub has_issues : Bool
  pub supplementary_count : ℕ
  pub supplementary_draft_count : ℕ
  pub supplementary_needs_attention : ℕ

abbrev pub no_counts : LineCounts
no_counts = record {
  pending = 0;
  needs_info = 0;
  needs_adjustment = 0;
  approved = 0;
  rejected = 0;
  ag_approved = 0;
  final_approved = 0;
}

at_final_stage : Option ReviewStage → Bool
at_final_stage none = false
at_final_stage (some stage) = is_admin_final stage

-- the ladder over one line's status: an APPROVED_NEEDS_REVIEW line takes no branch
unfoldable pub count_status : LineStatus → Option ReviewStage → LineCounts → LineCounts
unfolding at_final_stage
count_status LineStatus.pending stage c = record c { pending = c.pending + 1 }
count_status LineStatus.needs_info stage c = record c { needs_info = c.needs_info + 1 }
count_status LineStatus.needs_adjustment stage c = record c {
  needs_adjustment = c.needs_adjustment + 1;
}
count_status LineStatus.approved stage c =
    if at_final_stage stage
    then record c { approved = c.approved + 1; final_approved = c.final_approved + 1 }
    else record c { approved = c.approved + 1; ag_approved = c.ag_approved + 1 }
count_status LineStatus.rejected stage c = record c { rejected = c.rejected + 1 }
count_status LineStatus.approved_needs_review stage c = c

unfoldable pub count_lines : LineCounts → List WorkLine → LineCounts
unfolding count_status
count_lines c [] = c
count_lines c (line ∷ lines) =
    count_lines (count_status line.status line.current_review_stage c) lines

held_by_board : Option WorkTypeConfig → Option ℕ → Bool
held_by_board none released_at = false
held_by_board (some config) released_at = config.uses_board_release && not (is_some released_at)

-- the tests that follow those on DRAFT, AWAITING_DISPATCH and FINALIZED
line_issue_status : LineCounts → EffectiveStatus → EffectiveStatus
line_issue_status c otherwise =
    if ltb 0 c.needs_info && ltb 0 c.needs_adjustment
    then EffectiveStatus.needs_response
    else if ltb 0 c.needs_info
    then EffectiveStatus.stored ItemStatus.needs_info
    else if ltb 0 c.needs_adjustment
    then EffectiveStatus.needs_adjustment
    else otherwise

unfoldable pub get_effective_status :
    ItemStatus → Option WorkTypeConfig → Option ℕ → LineCounts → EffectiveStatus
unfolding held_by_board line_issue_status
get_effective_status ItemStatus.draft config released_at c = EffectiveStatus.stored ItemStatus.draft
get_effective_status ItemStatus.awaiting_dispatch config released_at c =
    EffectiveStatus.stored ItemStatus.awaiting_dispatch
get_effective_status ItemStatus.finalized config released_at c =
    if held_by_board config released_at
    then EffectiveStatus.pending_board_approval
    else EffectiveStatus.stored ItemStatus.finalized
get_effective_status ItemStatus.submitted config released_at c = line_issue_status c (
    EffectiveStatus.stored
      (if ltb 0 c.pending then ItemStatus.under_review else ItemStatus.submitted))
get_effective_status status config released_at c =
    line_issue_status c (EffectiveStatus.stored status)

unfoldable pub compute_line_status_summary : WorkItem → LineStatusSummary
unfolding count_lines get_effective_status
compute_line_status_summary item =
    let c = count_lines no_counts item.lines in
    record {
      line_count = length item.lines;
      counts = c;
      effective_status =
          get_effective_status item.status item.portfolio.work_type.config item.board_released_at c;
      has_issues = ltb 0 c.needs_info || ltb 0 c.needs_adjustment;
      supplementary_count = 0;
      supplementary_draft_count = 0;
      supplementary_needs_attention = 0;
    }

-- the two counters of the loop over supplementary items
count_supplementary : ItemStatus → Bool → ℕ × ℕ → ℕ × ℕ
count_supplementary ItemStatus.draft has_issues (drafts, attention) = (drafts + 1, attention)
count_supplementary ItemStatus.awaiting_dispatch has_issues (drafts, attention) =
    (drafts, attention + 1)
count_supplementary ItemStatus.needs_info has_issues (drafts, attention) =
    (drafts, if has_issues then attention + 1 else attention)
count_supplementary ItemStatus.submitted has_issues (drafts, attention) =
    (drafts, if has_issues then attention + 1 else attention)
count_supplementary ItemStatus.under_review has_issues (drafts, attention) =
    (drafts, if has_issues then attention + 1 else attention)
count_supplementary _ has_issues acc = acc

abbrev pub add_supplementary : ℕ × ℕ → WorkItem → ℕ × ℕ
unfolding compute_line_status_summary count_supplementary
add_supplementary acc supp =
    count_supplementary supp.status (compute_line_status_summary supp).has_issues acc

pub with_supplementary : List WorkItem → LineStatusSummary → LineStatusSummary
unfolding compute_line_status_summary count_supplementary
with_supplementary supps summary =
    let (drafts, attention) = foldl add_supplementary (0, 0) supps in
    record summary {
      supplementary_count = length supps;
      supplementary_draft_count = drafts;
      supplementary_needs_attention = attention;
    }

unfoldable pub summarise : Option WorkItem → List WorkItem → Option LineStatusSummary
unfolding compute_line_status_summary with_supplementary
summarise none supps = none
summarise (some item) supps = some (with_supplementary supps (compute_line_status_summary item))

-- the filters of the two queries
abbrev pub is_open_primary : WorkItem → Bool
is_open_primary item = is_primary item.request_kind && not item.is_archived

abbrev pub is_open_supplementary : WorkItem → Bool
is_open_supplementary item = not (is_primary item.request_kind) && not item.is_archived

-- over the rows of `WorkItem` with the portfolio's id, in the order in which the query returns them
unfoldable pub compute_portfolio_status_summary : List WorkItem → Option LineStatusSummary
unfolding summarise
compute_portfolio_status_summary rows =
    summarise (find? is_open_primary rows) (select is_open_supplementary rows)

-- the loop of compute_portfolio_status_from_loaded: a later PRIMARY replaces an earlier one
unfoldable pub gather :
    Option WorkItem → List WorkItem → List WorkItem → Option WorkItem × List WorkItem
gather found supps [] = (found, supps)
gather found supps (item ∷ items) =
    gather (if is_open_primary item then some item else found)
      (if is_open_supplementary item then supps ++ (item ∷ []) else supps) items

unfoldable pub compute_portfolio_status_from_loaded : List WorkItem → Option LineStatusSummary
unfolding gather summarise
compute_portfolio_status_from_loaded work_items =
    let (found, supps) = gather none [] work_items in summarise found supps

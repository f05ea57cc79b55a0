-- ===== src/AdminFinal/Finalize/Resolution.antt =====
-- What finalization makes of the lines.
use resource_mgmt_app.Base.{
  ℕ, ◌+◌, ◌≡◌, refl, sym, ap, ◌∙◌, subst, Bool, true, false, not, ◌&&◌, Option, some, List, [], ◌∷◌,
  arith, all, is_some, ltb, if◌then◌else◌,
}
use resource_mgmt_app.Base.Int.{ℤ, pos}
use resource_mgmt_app.Base.Each.{Each}
use resource_mgmt_app.Base.Keys.{are_distinct}
use resource_mgmt_app.Base.Text.{Text, is_blank}
use resource_mgmt_app.Model.{
  ItemStatus, LineStatus, ReviewStatus, BudgetLineDetail, WorkLine, WorkLineReview, WorkItem,
  is_line_rejected, is_line_recommended,
}
use resource_mgmt_app.LineDetails.{compute_line_amount_cents}
use resource_mgmt_app.Access.{Request, require_budget_admin}
use resource_mgmt_app.ReviewState.{group_review, get_admin_final_review}
use resource_mgmt_app.Outcome.{Outcome, is_done}
use resource_mgmt_app.AdminFinal.Decision.{
  get_or_create_admin_review, requested_amount, amount_of_review,
}
use resource_mgmt_app.AdminFinal.Decision.Rows.{
  IsKeyed, IsAdminRow, get_or_create_admin_review-IsAdminRow, get_admin_final_review-put,
  get_approval_group_review-same, get_approval_group_review-some,
}
use resource_mgmt_app.AdminFinal.Finalize.{
  can_finalize_work_item, admin_has_decided, in_admin_final, or_amount, amount_by_status,
  resolved_amount, resolve_line, finalize_lines, finalize_work_item, finalize_item,
  release_if_approved,
}

-- A line as finalization leaves it: one that the admin has decided is as it was; any other is decided
-- now. A reviewers' rejection stands, with amount 0; a line that they approved has the amount they
-- set, if it has a budget detail; a line that they have not decided is approved for the amount
-- requested. The line's ADMIN_FINAL review has the same amount and the same decision.
pub record IsResolved (r : Request) (line line' : WorkLine) : Type 0 where
  pub kept : admin_has_decided line ≡ true → line' ≡ line
  pub decided : admin_has_decided line' ≡ true
  pub rejected :
      admin_has_decided line ≡ false
      → is_line_rejected line.status ≡ true
      → (line'.status ≡ LineStatus.rejected) × (line'.approved_amount_cents ≡ some (pos 0))
  pub recommended :
      (d : BudgetLineDetail) (v : WorkLineReview) (a : ℤ)
      → admin_has_decided line ≡ false
      → is_line_recommended line.status ≡ true
      → line.budget_detail ≡ some d
      → group_review line ≡ some v
      → v.approved_amount_cents ≡ some a
      → (line'.status ≡ LineStatus.approved) × (line'.approved_amount_cents ≡ some a)
  pub requested :
      (d : BudgetLineDetail)
      → admin_has_decided line ≡ false
      → is_line_rejected line.status ≡ false
      → is_line_recommended line.status ≡ false
      → line.budget_detail ≡ some d
      → (line'.status ≡ LineStatus.approved)
        × (line'.approved_amount_cents
            ≡ some (pos (compute_line_amount_cents (some d.unit_price_cents) (some d.quantity))))
  pub mirrored :
      admin_has_decided line ≡ false
      → (v : WorkLineReview) × (get_admin_final_review line' ≡ some v)
        × (v.approved_amount_cents ≡ line'.approved_amount_cents)
        × (v.status ≡ (
            if is_line_rejected line.status then ReviewStatus.rejected else ReviewStatus.approved))
        × (v.decided_by_user_id ≡ some r.user_ctx.user_id)

resolved_amount-same :
    (line line' : WorkLine) (review : WorkLineReview)
    → IsAdminRow line review line'
    → resolved_amount line' ≡ resolved_amount line
unfolding resolved_amount
resolved_amount-same line line' review row =
    let d : line'.budget_detail ≡ line.budget_detail = ap (λ l. l.budget_detail) row.same in
    let s : line'.status ≡ line.status = ap (λ l. l.status) row.same in
    let g = get_approval_group_review-same line line' review row in cc

resolved_amount_cases :
    (line : WorkLine)
    → (is_line_rejected line.status ≡ true → resolved_amount line ≡ pos 0)
      × ((d : BudgetLineDetail) (v : WorkLineReview) (a : ℤ)
          → is_line_recommended line.status ≡ true
          → line.budget_detail ≡ some d
          → group_review line ≡ some v
          → v.approved_amount_cents ≡ some a
          → (is_line_rejected line.status ≡ false) × (resolved_amount line ≡ a))
      × ((d : BudgetLineDetail)
          → is_line_rejected line.status ≡ false
          → is_line_recommended line.status ≡ false
          → line.budget_detail ≡ some d
          → resolved_amount line
            ≡ pos (compute_line_amount_cents (some d.unit_price_cents) (some d.quantity)))
unfolding resolved_amount amount_by_status requested_amount amount_of_review or_amount
resolved_amount_cases line = (
  λ e. ground arith,
  λ d v a e f g h. (ground arith, ground (arith, get_approval_group_review-some line d f)),
  λ d e f g. ground arith,
)

resolve_line-IsResolved :
    (r : Request) (next : ℕ) (line : WorkLine)
    → IsKeyed next line
    → admin_has_decided line ≡ false
    → IsResolved r line (resolve_line r next line)
unfolding resolve_line admin_has_decided in_admin_final get_admin_final_review
resolve_line-IsResolved r next line keyed open_line =
    let (review, line') = get_or_create_admin_review r next line in
    let row : IsAdminRow line review line' =
      get_or_create_admin_review-IsAdminRow r next line keyed in
    let amount = resolved_amount-same line line' review row in
    let cases = resolved_amount_cases line in
    record {
      kept = λ h. cc;
      decided = ground arith;
      rejected = λ h e. (ground arith, ap some (amount ∙ cases.0 e));
      recommended = λ d v a h e f g i.
          let (e', c) = cases.1 d v a e f g i in (ground arith, ap some (amount ∙ c));
      requested = λ d h e f g. (ground arith, ap some (amount ∙ cases.2 d e f g));
      mirrored = λ h.
          (_, get_admin_final_review-put line line' review _ row refl row.stage, refl, refl, refl);
    }

-- rows that are keyed below the next id, as a test
abbrev pub is_keyed : ℕ → WorkLine → Bool
is_keyed next line = are_distinct (λ v. v.id) line.reviews && all (λ v. ltb v.id next) line.reviews

below_suc :
    (vs : List WorkLineReview) (next : ℕ)
    → all (λ v. ltb v.id next) vs ≡ true
    → all (λ v. ltb v.id (next + 1)) vs ≡ true
below_suc [] next h = refl
below_suc (v ∷ vs) next h = ground (arith, below_suc vs next)

keyed_suc :
    (lines : List WorkLine) (next : ℕ)
    → all (is_keyed next) lines ≡ true
    → all (is_keyed (next + 1)) lines ≡ true
keyed_suc [] next h = refl
keyed_suc (line ∷ lines) next h = ground (arith, below_suc line.reviews next, keyed_suc lines next)

keep_line : (r : Request) (line : WorkLine) → admin_has_decided line ≡ true → IsResolved r line line
keep_line r line e = record {
  kept = λ h. refl;
  decided = e;
  rejected = λ h. cc;
  recommended = λ d v a h. cc;
  requested = λ d h. cc;
  mirrored = λ h. cc;
}

finalize_lines-IsResolved :
    (r : Request) (next : ℕ) (lines : List WorkLine)
    → all (is_keyed next) lines ≡ true
    → Each (IsResolved r) lines (finalize_lines r next lines)
unfolding finalize_lines
finalize_lines-IsResolved r next [] h = Each.nil
finalize_lines-IsResolved r next (line ∷ lines) h =
    let rest =
      finalize_lines-IsResolved r (next + 1) lines (ground (arith, keyed_suc lines next)) in
    Each.cons (here (admin_has_decided line) refl) rest
  where
    here :
        (b : Bool)
        → admin_has_decided line ≡ b
        → IsResolved r line (if b then line else resolve_line r next line)
    here true e = keep_line r line e
    here false e = resolve_line-IsResolved r next line (ground arith, ground arith) e

module _ (r : Request) (note : Option Text) (next : ℕ) (item : WorkItem)
    (others : List WorkItem) where
  abbrev finalized : Outcome × WorkItem × List WorkItem
  finalized = finalize_work_item r note next item others

  pub finalize_item_lines :
      (finalize_item r note next item).lines ≡ finalize_lines r next item.lines
  unfolding finalize_item release_if_approved
  finalize_item_lines = ground arith

  finalize_item_status :
      ((finalize_item r note next item).status ≡ ItemStatus.finalized)
      × ((finalize_item r note next item).finalized_by_user_id ≡ some r.user_ctx.user_id)
      × ((finalize_item r note next item).finalized_at ≡ some r.now)
  unfolding finalize_item release_if_approved
  finalize_item_status = (ground arith, ground arith, ground arith)

  -- A finalization that is not done changes nothing. It is done only by a budget admin, with a note, on
  -- a request that may be finalized.
  pub finalize_work_item_refused :
      (is_done finalized.0 ≡ false → (finalized.1 ≡ item) × (finalized.2 ≡ others))
      × (is_done finalized.0 ≡ (
          require_budget_admin r
          && not (is_blank note)
          && not (is_some (can_finalize_work_item r.now item))))
  unfolding finalize_work_item
  finalize_work_item_refused = (ground arith, ground arith)

  pub finalize_work_item_item :
      is_done finalized.0 ≡ true → finalized.1 ≡ finalize_item r note next item
  unfolding finalize_work_item
  finalize_work_item_item h = ground arith

  -- A finalization that is done leaves the request FINALIZED, by this admin at this time, and resolves
  -- every line of it, as `IsResolved` says, where the review rows of each line have ids of their own
  -- that are below the next one.
  pub finalize_work_item_resolves :
      all (is_keyed next) item.lines ≡ true
      → is_done finalized.0 ≡ true
      → (finalized.1.status ≡ ItemStatus.finalized)
        × (finalized.1.finalized_by_user_id ≡ some r.user_ctx.user_id)
        × (finalized.1.finalized_at ≡ some r.now)
        × Each (IsResolved r) item.lines finalized.1.lines
  finalize_work_item_resolves keyed h =
      let e = finalize_work_item_item h in
      let (s, u, t) = finalize_item_status in
      (
        ap (λ i. i.status) e ∙ s,
        ap (λ i. i.finalized_by_user_id) e ∙ u,
        ap (λ i. i.finalized_at) e ∙ t,
        subst (λ lines. Each (IsResolved r) item.lines lines)
            (sym (ap (λ i. i.lines) e ∙ finalize_item_lines))
            (finalize_lines-IsResolved r next item.lines keyed),
      )

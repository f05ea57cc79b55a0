-- ===== src/AdminFinal/LineTools/Addition.antt =====
-- What a line that an admin adds looks like.
use resource_mgmt_app.Base.{
  ℕ, ◌+◌, ◌≡◌, refl, sym, subst, true, false, not, ◌&&◌, Option, some, List, [], ◌∷◌, ◌++◌, arith,
  all, ltb, leb, if◌then◌else◌,
}
use resource_mgmt_app.Base.Text.{Text, is_blank}
use resource_mgmt_app.Model.{ApprovalGroup, BudgetLineDetail, WorkLine, WorkItem, WorkPortfolio}
use resource_mgmt_app.Access.{Request, require_budget_admin}
use resource_mgmt_app.Outcome.{is_done}
use resource_mgmt_app.ReviewState.{
  group_review, get_admin_final_review, get_awaiting, get_line_review_state,
}
use resource_mgmt_app.Reviews.{create_line_audit_event}
use resource_mgmt_app.AdminFinal.LineTools.{
  is_under_review, held_by_other, max_number, get_next_line_number, new_line, audit_line_created,
  added_line, add_comment, admin_add_line,
}
use resource_mgmt_app.AdminFinal.LineTools.Correction.{IsPendingWith}
use resource_mgmt_app.AdminFinal.Rereview.{IsBackInReview}

max_number_lem :
    (lines : List WorkLine) (n : ℕ)
    → (leb n (max_number n lines) ≡ true)
      × (all (λ l. leb l.line_number (max_number n lines)) lines ≡ true)
unfolding max_number
max_number_lem [] n = (ground arith, refl)
max_number_lem (line ∷ lines) n =
    let m = if leb n line.line_number then line.line_number else n in
    let (a, b) = max_number_lem lines m in (ground (arith, a), ground (arith, a, b))

below_next :
    (lines : List WorkLine) (n : ℕ)
    → all (λ l. leb l.line_number n) lines ≡ true
    → all (λ l. ltb l.line_number (n + 1)) lines ≡ true
below_next [] n h = refl
below_next (line ∷ lines) n h = ground (arith, below_next lines n)

get_next_line_number_lem :
    (item : WorkItem) → all (λ l. ltb l.line_number (get_next_line_number item)) item.lines ≡ true
unfolding get_next_line_number
get_next_line_number_lem item =
    below_next item.lines (max_number 0 item.lines) (max_number_lem item.lines 0).1

added_line_lem :
    (r : Request) (d : BudgetLineDetail) (group : ApprovalGroup) (note : Option Text)
    (line_id next number : ℕ) (portfolio : WorkPortfolio)
    → let line = added_line r d group note line_id next number in
      IsBackInReview portfolio line
      × IsPendingWith group line
      × (line.budget_detail ≡ some d)
      × (line.line_number ≡ number)
unfolding added_line new_line audit_line_created create_line_audit_event add_comment group_review
    get_admin_final_review get_awaiting get_line_review_state
added_line_lem r d group _ line_id next number portfolio = (
  record { awaiting = ground arith; status = refl; amount = refl; waiting = refl; stage = refl },
  (_, refl, refl, refl),
  refl,
  refl,
)

-- the request with one more line, in review by its group, numbered above all others
abbrev pub IsAdded : WorkPortfolio → BudgetLineDetail → ApprovalGroup → WorkItem → WorkItem → Type 0
IsAdded portfolio d group item item' =
    (line : WorkLine) × (item'.lines ≡ item.lines ++ (line ∷ []))
    × (all (λ l. ltb l.line_number line.line_number) item.lines ≡ true)
    × (line.budget_detail ≡ some (record d { routed_approval_group = some group }))
    × IsBackInReview portfolio line
    × IsPendingWith group line

-- An admin adds a line only with a note, while the request is under review and nobody else has it
-- checked out; otherwise the request stays as it was. The line that is added has a number above all
-- others, its routing snapshot is the group given, and it is in review by that group.
pub admin_add_line_adds :
    (r : Request) (d : BudgetLineDetail) (group : ApprovalGroup) (note : Option Text)
    (line_id next : ℕ) (item : WorkItem)
    → let (outcome, item') = admin_add_line r d group note line_id next item in
      (is_done outcome ≡ (
        require_budget_admin r
        && is_under_review item.status
        && not (held_by_other r item)
        && not (is_blank note)))
      × (is_done outcome ≡ false → item' ≡ item)
      × (is_done outcome ≡ true → IsAdded item.portfolio d group item item')
unfolding admin_add_line
admin_add_line_adds r d group note line_id next item = (
  ground arith,
  λ h. ground arith,
  λ h.
      let number = get_next_line_number item in
      let d' = record d { routed_approval_group = some group } in
      let line = added_line r d' group note line_id next number in
      let (b, p, e, n) = added_line_lem r d' group note line_id next number item.portfolio in
      (
        line,
        ground arith,
        subst (λ k. all (λ l. ltb l.line_number k) item.lines ≡ true) (sym n)
            (get_next_line_number_lem item),
        e,
        b,
        p,
      ),
)

-- ===== src/AdminFinal/Decision/Rows.antt =====
-- The ADMIN_FINAL row of a line, found or created, and written back under its id.
use resource_mgmt_app.Base.{
  ℕ, ◌≡◌, refl, sym, ap, ◌∙◌, subst, true, false, Option, none, some, all, arith, find?, ltb,
  update_first, test_of_find?, ==_refl, ◌==◌,
}
use resource_mgmt_app.Base.Keys.{
  are_distinct, has_key_above, find?_by_key, find?-update_both, find?-update_other, find?-append,
  find?-append_other, any_of_none,
}
use resource_mgmt_app.Model.{
  BudgetLineDetail, WorkLine, WorkLineReview, is_admin_final, is_approval_group,
}
use resource_mgmt_app.Access.{Request}
use resource_mgmt_app.ReviewState.{group_review, get_admin_final_review}
use resource_mgmt_app.AdminFinal.Decision.{
  get_approval_group_review, if_detail, found_or_new, get_or_create_admin_review, put_review,
}

-- the review rows of a line have their own ids, all of them below the next one
abbrev pub IsKeyed : ℕ → WorkLine → Type 0
IsKeyed next line =
    (are_distinct (λ v. v.id) line.reviews ≡ true) × (all (λ v. ltb v.id next) line.reviews ≡ true)

-- a line with everything but its reviews as another's
abbrev pub SameLine : WorkLine → WorkLine → Type 0
SameLine line line' = record line' { reviews = line.reviews } ≡ line

-- the row that get_or_create_admin_review returns, in the line that it leaves
pub record IsAdminRow (line : WorkLine) (review : WorkLineReview) (line' : WorkLine) : Type 0 where
  pub found : get_admin_final_review line' ≡ some review
  pub keyed : find? (λ v. v.id == review.id) line'.reviews ≡ some review
  pub stage : is_admin_final review.stage ≡ true
  pub group : group_review line' ≡ group_review line
  pub same : SameLine line line'

found_or_new-IsAdminRow :
    (r : Request) (next : ℕ) (line : WorkLine) (o : Option WorkLineReview)
    → get_admin_final_review line ≡ o
    → IsKeyed next line
    → let (review, line') = found_or_new r next line o in IsAdminRow line review line'
unfolding found_or_new get_admin_final_review group_review
found_or_new-IsAdminRow r next line (some review) e (d, lt) = record {
  found = e;
  keyed = find?_by_key (λ v. v.id) (λ v. is_admin_final v.stage) line.reviews review e d;
  stage = test_of_find? (λ v. is_admin_final v.stage) line.reviews review e;
  group = refl;
  same = refl;
}
found_or_new-IsAdminRow r next line none e (d, lt) = record {
  found =
      find?-append (λ v. is_admin_final v.stage) line.reviews _
        (any_of_none (λ v. is_admin_final v.stage) line.reviews e) refl;
  keyed =
      find?-append (λ v. v.id == next) line.reviews _
        (has_key_above (λ v. v.id) next line.reviews lt) (==_refl next);
  stage = refl;
  group = find?-append_other (λ v. is_approval_group v.stage) line.reviews _ refl;
  same = refl;
}

pub get_or_create_admin_review-IsAdminRow :
    (r : Request) (next : ℕ) (line : WorkLine)
    → IsKeyed next line
    → let (review, line') = get_or_create_admin_review r next line in IsAdminRow line review line'
unfolding get_or_create_admin_review
get_or_create_admin_review-IsAdminRow r next line keyed =
    found_or_new-IsAdminRow r next line (get_admin_final_review line) refl keyed

module _ (line line' : WorkLine) (review review' : WorkLineReview)
    (row : IsAdminRow line review line') where
  -- the row is found again once it is written back in its stage
  pub get_admin_final_review-put :
      review'.id ≡ review.id
      → is_admin_final review'.stage ≡ true
      → get_admin_final_review (put_review review' line') ≡ some review'
  unfolding get_admin_final_review
  get_admin_final_review-put e s =
      subst
        (λ n.
          find? (λ v. is_admin_final v.stage)
            (update_first (λ v. v.id == n) (λ _. review') line'.reviews)
          ≡ some review')
        (sym e)
        (find?-update_both (λ v. is_admin_final v.stage) (λ v. v.id == review.id) review review'
          line'.reviews row.found row.keyed s)

  -- and the group's row stays the one it was
  pub group_review-put :
      review'.id ≡ review.id
      → is_approval_group review.stage ≡ false
      → is_approval_group review'.stage ≡ false
      → group_review (put_review review' line') ≡ group_review line
  unfolding group_review
  group_review-put e s s' =
      subst
        (λ n.
          find? (λ v. is_approval_group v.stage)
            (update_first (λ v. v.id == n) (λ _. review') line'.reviews)
          ≡ find? (λ v. is_approval_group v.stage) line'.reviews)
        (sym e)
        (find?-update_other (λ v. is_approval_group v.stage) (λ v. v.id == review.id) review review'
          line'.reviews row.keyed s s')
      ∙ row.group

-- the row that is read as the group's is the same too
pub get_approval_group_review-same :
    (line line' : WorkLine) (review : WorkLineReview)
    → IsAdminRow line review line'
    → get_approval_group_review line' ≡ get_approval_group_review line
unfolding get_approval_group_review
get_approval_group_review-same line line' review row =
    let d : line'.budget_detail ≡ line.budget_detail = ap (λ l. l.budget_detail) row.same in
    let g = row.group in cc

pub get_approval_group_review-some :
    (line : WorkLine) (d : BudgetLineDetail)
    → line.budget_detail ≡ some d
    → get_approval_group_review line ≡ group_review line
unfolding get_approval_group_review if_detail
get_approval_group_review-some line d e = ground arith

found_or_new_line :
    (r : Request) (next : ℕ) (line : WorkLine) (o : Option WorkLineReview)
    → SameLine line (found_or_new r next line o).1
unfolding found_or_new
found_or_new_line r next line none = refl
found_or_new_line r next line (some _) = refl

-- whatever the rows are, the line's own status and booking stay
pub line_of_admin_review :
    (r : Request) (next : ℕ) (line : WorkLine)
    → let line' = (get_or_create_admin_review r next line).1 in
      (line'.status ≡ line.status) × (line'.budget_detail ≡ line.budget_detail)
unfolding get_or_create_admin_review
line_of_admin_review r next line =
    let e = found_or_new_line r next line (get_admin_final_review line) in
    (ap (λ l. l.status) e, ap (λ l. l.budget_detail) e)

-- ===== src/AdminFinal/Decision/Effects.antt =====
-- What an admin's decision writes.
use resource_mgmt_app.Base.{
  ℕ, ◌≡◌, refl, sym, ap, ◌∙◌, subst, true, false, ◌&&◌, Option, none, some, arith, find?,
  update_first, Bool-cases, inl, inr, ◌==◌, ◌⊎◌, not, Bool,
}
use resource_mgmt_app.Base.Int.{ℤ, pos, eqb_ℤ, eq_of_parts}
use resource_mgmt_app.LineDetails.{compute_line_amount_cents}
use resource_mgmt_app.Base.Text.{Text, is_blank, strip_or_none}
use resource_mgmt_app.Model.{
  LineStatus, ReviewStage, ReviewStatus, ReviewAction, WorkLine, WorkLineReview, BudgetLineDetail,
  is_admin_final, is_approval_group,
}
use resource_mgmt_app.Access.{Request, require_budget_admin}
use resource_mgmt_app.ReviewState.{group_review, get_admin_final_review}
use resource_mgmt_app.Outcome.{is_done, done}
use resource_mgmt_app.AdminFinal.Decision.{
  if_detail, get_approval_group_review, get_or_create_admin_review, requested_amount,
  amount_of_review, or_else, default_amount, overrides, conclude, create_line_audit, audit_override,
  approve_amount, decide, apply_admin_final_decision,
}
use resource_mgmt_app.AdminFinal.Decision.Rows.{
  IsKeyed, SameLine, IsAdminRow, get_or_create_admin_review-IsAdminRow, get_admin_final_review-put,
  group_review-put, get_approval_group_review-same,
}

-- what the group's review recommends for a line with a booking, and what such a line asks for
abbrev pub recommended_by : Option BudgetLineDetail → Option WorkLineReview → Option ℤ
recommended_by none _ = none
recommended_by (some _) none = none
recommended_by (some _) (some review) = review.approved_amount_cents

abbrev pub asked_for : Option BudgetLineDetail → Option ℤ
asked_for none = none
asked_for (some d) =
    some (pos (compute_line_amount_cents (some d.unit_price_cents) (some d.quantity)))

-- the amount of an approval among the amounts given, recommended and asked for: the first that is there
abbrev pub IsChosen : Option ℤ → Option ℤ → Option ℤ → ℤ → Type 0
IsChosen (some given) _ _ a = a ≡ given
IsChosen none (some recommended) _ a = a ≡ recommended
IsChosen none none (some requested) a = a ≡ requested
IsChosen none none none a = true ≡ false

-- an amount beside a recommendation: the recommended one, or explained by a note
abbrev pub IsExplained : Option ℤ → ℤ → Option Text → Type 0
IsExplained none _ _ = true ≡ true
IsExplained (some recommended) a words = (a ≡ recommended) ⊎ (is_blank words ≡ false)

-- The line and its ADMIN_FINAL review after a decision: an approval has the amount given, else the one
-- that the group recommended, else the one requested, and a note if it is not the recommended one; a
-- rejection has a note and no amount; a question has a note and waits for the requester.
abbrev pub IsDecidedBy :
    ReviewAction → Option ℤ → Option Text → WorkLine → WorkLine → WorkLineReview → Type 0
IsDecidedBy ReviewAction.approve amount note line line' review =
    (a : ℤ) × IsChosen amount (recommended_by line.budget_detail (group_review line))
      (asked_for line.budget_detail) a
    × (review.status ≡ ReviewStatus.approved)
    × (review.approved_amount_cents ≡ some a)
    × (line'.status ≡ LineStatus.approved)
    × (line'.approved_amount_cents ≡ some a)
    × IsExplained (recommended_by line.budget_detail (group_review line)) a note
IsDecidedBy ReviewAction.reject amount note line line' review =
    (review.status ≡ ReviewStatus.rejected)
    × (line'.status ≡ LineStatus.rejected)
    × (line'.approved_amount_cents ≡ none)
    × (is_blank note ≡ false)
IsDecidedBy ReviewAction.needs_info amount note line line' review =
    (review.status ≡ ReviewStatus.needs_info)
    × (line'.status ≡ LineStatus.needs_info)
    × (line'.needs_requester_action ≡ true)
    × (is_blank note ≡ false)
IsDecidedBy _ amount _ line line' review = true ≡ false

abbrev stamp : Request → Option Text → WorkLineReview → WorkLineReview
stamp r note review = record review {
  decided_at = some r.now;
  decided_by_user_id = some r.user_ctx.user_id;
  note = strip_or_none note;
}

-- the group's review and the stage of the line after a decision, and who made it
abbrev pub IsConcluded : Request → Option Text → WorkLine → WorkLine → WorkLineReview → Type 0
IsConcluded r note line line' review =
    (get_admin_final_review line' ≡ some review)
    × (group_review line' ≡ group_review line)
    × (review.decided_by_user_id ≡ some r.user_ctx.user_id)
    × (review.note ≡ strip_or_none note)
    × (line'.current_review_stage ≡ some ReviewStage.admin_final)

not_group : (v : WorkLineReview) → is_admin_final v.stage ≡ true → is_approval_group v.stage ≡ false
not_group v h = ground arith

chosen :
    (given recommended requested : Option ℤ) (a : ℤ)
    → default_amount given recommended requested ≡ some a
    → IsChosen given recommended requested a
unfolding default_amount or_else
chosen (some given) recommended requested a h = cc
chosen none (some recommended) requested a h = cc
chosen none none (some requested) a h = cc
chosen none none none a h = cc

eq_of_eqb_ℤ : (a b : ℤ) → eqb_ℤ a b ≡ true → a ≡ b
eq_of_eqb_ℤ a b h = eq_of_parts a b (ground arith)

explained :
    (recommended : Option ℤ) (a : ℤ) (words : Option Text)
    → (overrides recommended a && is_blank words) ≡ false
    → IsExplained recommended a words
unfolding overrides
explained none a words h = refl
explained (some recommended) a words h = go (eqb_ℤ a recommended) refl h
  where
    go :
        (same : Bool)
        → eqb_ℤ a recommended ≡ same
        → (not same && is_blank words) ≡ false
        → IsExplained (some recommended) a words
    go true e h = inl (eq_of_eqb_ℤ a recommended e)
    go false e h = inr h

-- the code's readings of the two amounts
recommended_lem :
    (line : WorkLine)
    → amount_of_review (get_approval_group_review line)
      ≡ recommended_by line.budget_detail (group_review line)
unfolding get_approval_group_review amount_of_review if_detail
recommended_lem line = go line.budget_detail (group_review line)
  where
    go :
        (d : Option BudgetLineDetail) (o : Option WorkLineReview)
        → amount_of_review (if_detail d o) ≡ recommended_by d o
    go none o = refl
    go (some d) none = refl
    go (some d) (some review) = refl

requested_amount_lem : (o : Option BudgetLineDetail) → requested_amount o ≡ asked_for o
unfolding requested_amount
requested_amount_lem none = refl
requested_amount_lem (some d) = refl

module _ (r : Request) (note : Option Text) (line line1 : WorkLine) (review : WorkLineReview)
    (row : IsAdminRow line review line1) where
  conclude-IsConcluded :
      (x : WorkLine) (v : WorkLineReview)
      → x.reviews ≡ line1.reviews
      → v.id ≡ review.id
      → v.stage ≡ review.stage
      → IsConcluded r note line (conclude r note v x) (stamp r note v)
  unfolding conclude create_line_audit get_admin_final_review group_review
  conclude-IsConcluded x v e i s =
      let stage : is_admin_final v.stage ≡ true = ap is_admin_final s ∙ row.stage in
      let v' = stamp r note v in
      (
        subst
            (λ rs.
              find? (λ w. is_admin_final w.stage) (update_first (λ w. w.id == v.id) (λ _. v') rs)
              ≡ some v')
            (sym e) (get_admin_final_review-put line line1 review v' row i stage),
        subst
            (λ rs.
              find? (λ w. is_approval_group w.stage) (update_first (λ w. w.id == v.id) (λ _. v') rs)
              ≡ group_review line)
            (sym e)
            (group_review-put line line1 review v' row i (not_group review row.stage)
              (not_group v stage)),
        refl,
        refl,
        refl,
      )

  reviews-audit_override :
      (recommended : Option ℤ) (a : ℤ) (x : WorkLine)
      → (audit_override r recommended a note x).reviews ≡ x.reviews
  unfolding audit_override create_line_audit
  reviews-audit_override recommended a x = ground arith

  abbrev Decided : ReviewAction → Option ℤ → WorkLine → Type 0
  Decided action amount line' =
      (v : WorkLineReview) × IsConcluded r note line line' v
      × IsDecidedBy action amount note line line' v

  abbrev recommended : Option ℤ
  recommended = recommended_by line.budget_detail (group_review line)

  approve_amount_decides :
      (amount rec o : Option ℤ)
      → rec ≡ recommended
      → default_amount amount recommended (asked_for line.budget_detail) ≡ o
      → is_done (approve_amount r rec note review line1 o).0 ≡ true
      → Decided ReviewAction.approve amount (approve_amount r rec note review line1 o).1
  unfolding approve_amount conclude create_line_audit
  approve_amount_decides amount rec none e e' h = cc
  approve_amount_decides amount rec (some a) e e' h =
      elim (Bool-cases (overrides rec a && is_blank note)) [
        | inl b ↦ ground arith
        | inr b ↦
            let v = record review {
              status = ReviewStatus.approved;
              approved_amount_cents = some a;
            } in
            let x = record (audit_override r rec a note line1) {
              status = LineStatus.approved;
              approved_amount_cents = some a;
            } in
            let run : approve_amount r rec note review line1 (some a)
                ≡ (done, conclude r note v x) =
              ground arith in
            let noted : IsExplained recommended a note =
              explained recommended a note
                (subst (λ c. (overrides c a && is_blank note) ≡ false) e b) in
            subst (Decided ReviewAction.approve amount) (sym (ap (λ o. o.1) run)) (
              stamp r note v,
              conclude-IsConcluded x v (reviews-audit_override rec a line1) refl refl,
              (
                a,
                chosen amount recommended (asked_for line.budget_detail) a e',
                refl,
                refl,
                refl,
                refl,
                noted,
              ),
            )
      ]

  decide_approve :
      (amount : Option ℤ)
      → is_done (decide r ReviewAction.approve amount note review line1).0 ≡ true
      → Decided ReviewAction.approve amount
          (decide r ReviewAction.approve amount note review line1).1
  unfolding decide
  decide_approve amount h =
      let rec : amount_of_review (get_approval_group_review line1) ≡ recommended =
        ap amount_of_review (get_approval_group_review-same line line1 review row)
        ∙ recommended_lem line in
      let detail : requested_amount line1.budget_detail ≡ asked_for line.budget_detail =
        requested_amount_lem line1.budget_detail ∙ ap (λ l. asked_for l.budget_detail) row.same in
      let same : default_amount amount recommended (asked_for line.budget_detail)
          ≡ default_amount amount (amount_of_review (get_approval_group_review line1))
              (requested_amount line1.budget_detail) =
        cc in
      approve_amount_decides amount (amount_of_review (get_approval_group_review line1)) _ rec same
        h

  decide_reject :
      (amount : Option ℤ)
      → is_done (decide r ReviewAction.reject amount note review line1).0 ≡ true
      → Decided ReviewAction.reject amount (decide r ReviewAction.reject amount note review line1).1
  unfolding decide conclude create_line_audit
  decide_reject amount h = elim (Bool-cases (is_blank note)) [
    | inl b ↦ ground arith
    | inr b ↦
        let v = record review { status = ReviewStatus.rejected } in
        let x = record line1 { status = LineStatus.rejected; approved_amount_cents = none } in
        let run : decide r ReviewAction.reject amount note review line1
            ≡ (done, conclude r note v x) =
          ground arith in
        subst (Decided ReviewAction.reject amount) (sym (ap (λ o. o.1) run))
          (stamp r note v, conclude-IsConcluded x v refl refl refl, (refl, refl, refl, b))
  ]

  decide_needs_info :
      (amount : Option ℤ)
      → is_done (decide r ReviewAction.needs_info amount note review line1).0 ≡ true
      → Decided ReviewAction.needs_info amount
          (decide r ReviewAction.needs_info amount note review line1).1
  unfolding decide conclude create_line_audit
  decide_needs_info amount h = elim (Bool-cases (is_blank note)) [
    | inl b ↦ ground arith
    | inr b ↦
        let v = record review { status = ReviewStatus.needs_info } in
        let x = record line1 { status = LineStatus.needs_info; needs_requester_action = true } in
        let run : decide r ReviewAction.needs_info amount note review line1
            ≡ (done, conclude r note v x) =
          ground arith in
        subst (Decided ReviewAction.needs_info amount) (sym (ap (λ o. o.1) run))
          (stamp r note v, conclude-IsConcluded x v refl refl refl, (refl, refl, refl, b))
  ]

  decide_lem :
      (action : ReviewAction) (amount : Option ℤ)
      → is_done (decide r action amount note review line1).0 ≡ true
      → Decided action amount (decide r action amount note review line1).1
  unfolding decide
  decide_lem ReviewAction.approve amount h = unfold decide in decide_approve amount h
  decide_lem ReviewAction.reject amount h = decide_reject amount h
  decide_lem ReviewAction.needs_info amount h = decide_needs_info amount h
  decide_lem ReviewAction.approve_needs_review amount h = cc
  decide_lem ReviewAction.needs_adjustment amount h = cc
  decide_lem ReviewAction.reset amount h = cc
  decide_lem ReviewAction.respond amount h = cc
  decide_lem ReviewAction.reopen amount h = cc

  refused_lem :
      (action : ReviewAction) (amount : Option ℤ)
      → is_done (decide r action amount note review line1).0 ≡ false
      → SameLine line (decide r action amount note review line1).1
  unfolding decide approve_amount
  refused_lem action amount h =
      let e : (decide r action amount note review line1).1 ≡ line1 = ground arith in
      subst (SameLine line) (sym e) row.same

module _ (r : Request) (action : ReviewAction) (amount : Option ℤ) (note : Option Text) (next : ℕ)
    (line : WorkLine) (keyed : IsKeyed next line) where
  -- An admin's decision that is done is a budget admin's, and one of approval, rejection and question. It
  -- writes the line and its ADMIN_FINAL review as `IsDecidedBy` says, with the decider and the note,
  -- and leaves the group's review as it was; the amount of an approval is the one given, else the one that
  -- the group recommended, else the one asked for, and it has a note if it is not the recommended one. A refused one leaves the line as it was but for its
  -- reviews, of which one may have been created. The line's review rows have ids of their own, below
  -- the next one.
  pub apply_admin_final_decision_decides :
      let (outcome, line') = apply_admin_final_decision r action amount note next line in
      (is_done outcome ≡ true
        → (require_budget_admin r ≡ true)
          × (v : WorkLineReview) × IsConcluded r note line line' v
          × IsDecidedBy action amount note line line' v)
      × (is_done outcome ≡ false → record line' { reviews = line.reviews } ≡ line)
  unfolding apply_admin_final_decision
  apply_admin_final_decision_decides =
      let (review, line1) = get_or_create_admin_review r next line in
      let row : IsAdminRow line review line1 =
        get_or_create_admin_review-IsAdminRow r next line keyed in
      elim (Bool-cases (require_budget_admin r)) [
        | inr e ↦ (λ h. ground arith, λ h. ground arith)
        | inl e ↦
            let run : apply_admin_final_decision r action amount note next line
                ≡ decide r action amount note review line1 =
              ground arith in
            (
              λ h.
                  let (v, c, d) =
                    decide_lem r note line line1 review row action amount (rw (← run) h) in
                  (
                    e,
                    v,
                    subst (λ o. IsConcluded r note line o.1 v) (sym run) c,
                    subst (λ o. IsDecidedBy action amount note line o.1 v) (sym run) d,
                  ),
              λ h.
                  subst (λ o. SameLine line o.1) (sym run)
                    (refused_lem r note line line1 review row action amount (rw (← run) h)),
            )
      ]

-- ===== src/Totals/Reconcile.antt =====
-- The subtotals by group beside the totals of the lines.
use resource_mgmt_app.Base.{
  ℕ, ◌+◌, ◌≡◌, refl, ap, ◌∙◌, Bool, Option, List, [], ◌∷◌, map, arith, Bool-cases, inl, inr, length,
  sum_of,
}
use resource_mgmt_app.Base.Int.{ℤ, ◌+ℤ◌, sum_of_ℤ, sum_laws, +ℤ_left_comm, +ℤ_comm}
use resource_mgmt_app.Base.Text.{Text}
use resource_mgmt_app.Model.{WorkLine}
use resource_mgmt_app.LineDetails.{get_line_amount_cents}
use resource_mgmt_app.Totals.{approved_cents}
use resource_mgmt_app.Totals.Amounts.{add_approved-eq}
use resource_mgmt_app.Totals.Subtotals.{
  Bucket, GroupSubtotal, same_key, add_to_buckets, bucket_lines, bucket_key, to_subtotal, insert_by,
  sort_by, compute_group_subtotals,
}

-- what a list of subtotals adds up to
abbrev pub AddsUp : List GroupSubtotal → ℕ → ℕ → ℤ → Type 0
AddsUp gs count requested approved =
    (sum_of (λ g. g.line_count) gs ≡ count)
    × (sum_of (λ g. g.requested_cents) gs ≡ requested)
    × (sum_of_ℤ (λ g. g.approved_cents) gs ≡ approved)

abbrev bucket_count : Option ℕ × Bucket → ℕ
bucket_count (_, b) = b.line_count

abbrev bucket_requested : Option ℕ × Bucket → ℕ
bucket_requested (_, b) = b.requested

abbrev bucket_approved : Option ℕ × Bucket → ℤ
bucket_approved (_, b) = b.approved

abbrev BucketsAddUp : List (Option ℕ × Bucket) → ℕ → ℕ → ℤ → Type 0
BucketsAddUp bs count requested approved =
    (sum_of bucket_count bs ≡ count)
    × (sum_of bucket_requested bs ≡ requested)
    × (sum_of_ℤ bucket_approved bs ≡ approved)

add_to_buckets-AddsUp :
    (key : Option ℕ) (line : WorkLine) (bs : List (Option ℕ × Bucket))
    → BucketsAddUp
        (add_to_buckets key line bs)
        (sum_of bucket_count bs + 1)
        (sum_of bucket_requested bs + get_line_amount_cents line)
        (sum_of_ℤ bucket_approved bs +ℤ approved_cents line)
unfolding add_to_buckets
add_to_buckets-AddsUp key line [] = (omega arith, omega arith, simp (add_approved-eq, sum_laws))
add_to_buckets-AddsUp key line ((k, b) ∷ rest) = elim (Bool-cases (same_key k key)) [
  | inl same ↦ rw same (
    omega arith,
    omega arith,
    simp (add_approved-eq, sum_laws) (ap (λ z. b.approved +ℤ z) (+ℤ_comm (approved_cents line) _)),
  )
  | inr other ↦
      let (c, r, a) = add_to_buckets-AddsUp key line rest in
      rw other (omega (arith, c), omega (arith, r), simp (a, sum_laws))
]

bucket_lines-AddsUp :
    (lines : List WorkLine) (bs : List (Option ℕ × Bucket))
    → BucketsAddUp
        (bucket_lines bs lines)
        (sum_of bucket_count bs + length lines)
        (sum_of bucket_requested bs + sum_of get_line_amount_cents lines)
        (sum_of_ℤ bucket_approved bs +ℤ sum_of_ℤ approved_cents lines)
unfolding bucket_lines
bucket_lines-AddsUp [] bs = (omega arith, omega arith, simp sum_laws)
bucket_lines-AddsUp (line ∷ lines) bs =
    let key = bucket_key line.budget_detail in
    let (c, r, a) = bucket_lines-AddsUp lines (add_to_buckets key line bs) in
    let (c', r', a') = add_to_buckets-AddsUp key line bs in
    (omega (arith, c, c'), omega (arith, r, r'), a ∙ simp (a', sum_laws))

map-to_subtotal-AddsUp :
    (group_names : ℕ → Option Text) (bs : List (Option ℕ × Bucket))
    → AddsUp
        (map (to_subtotal group_names) bs)
        (sum_of bucket_count bs)
        (sum_of bucket_requested bs)
        (sum_of_ℤ bucket_approved bs)
unfolding to_subtotal
map-to_subtotal-AddsUp group_names [] = (refl, refl, refl)
map-to_subtotal-AddsUp group_names ((k, b) ∷ bs) =
    let (c, r, a) = map-to_subtotal-AddsUp group_names bs in
    (omega (arith, c), omega (arith, r), simp a)

module _ (lt : GroupSubtotal → GroupSubtotal → Bool) where
  insert_by-AddsUp :
      (g : GroupSubtotal) (gs : List GroupSubtotal)
      → AddsUp
          (insert_by lt g gs)
          (g.line_count + sum_of (λ h. h.line_count) gs)
          (g.requested_cents + sum_of (λ h. h.requested_cents) gs)
          (g.approved_cents +ℤ sum_of_ℤ (λ h. h.approved_cents) gs)
  unfolding insert_by
  insert_by-AddsUp g [] = (refl, refl, refl)
  insert_by-AddsUp g (h ∷ hs) = elim (Bool-cases (lt h g)) [
    | inl after ↦
        let (c, r, a) = insert_by-AddsUp g hs in
        rw after (
          omega (arith, c),
          omega (arith, r),
          simp a (+ℤ_left_comm h.approved_cents g.approved_cents _),
        )
    | inr before ↦ rw before (refl, refl, refl)
  ]

  sort_by-AddsUp :
      (gs : List GroupSubtotal)
      → AddsUp
          (sort_by lt gs)
          (sum_of (λ h. h.line_count) gs)
          (sum_of (λ h. h.requested_cents) gs)
          (sum_of_ℤ (λ h. h.approved_cents) gs)
  unfolding sort_by
  sort_by-AddsUp [] = (refl, refl, refl)
  sort_by-AddsUp (g ∷ gs) =
      let (c, r, a) = insert_by-AddsUp g (sort_by lt gs) in
      let (c', r', a') = sort_by-AddsUp gs in
      (omega (arith, c, c'), omega (arith, r, r'), a ∙ simp a')

-- Every visible line is counted in one subtotal: over all groups the line counts add up to the
-- number of lines, the requested amounts to the requested total, and the approved amounts to the
-- approved total, whatever the names of the groups are.
pub compute_group_subtotals_reconcile :
    (lower : Text → Text) (group_names : ℕ → Option Text) (lines : List WorkLine)
    → AddsUp
        (compute_group_subtotals lower group_names lines)
        (length lines)
        (sum_of get_line_amount_cents lines)
        (sum_of_ℤ approved_cents lines)
unfolding compute_group_subtotals
compute_group_subtotals_reconcile lower group_names lines =
    let (c, r, a) = bucket_lines-AddsUp lines [] in
    let (c', r', a') = map-to_subtotal-AddsUp group_names (bucket_lines [] lines) in
    let (c'', r'', a'') =
      sort_by-AddsUp _ (map (to_subtotal group_names) (bucket_lines [] lines)) in
    (omega (arith, c, c', c''), omega (arith, r, r', r''), a'' ∙ a' ∙ a ∙ simp sum_laws)

-- ===== src/Drain/Claims.antt =====
-- Which rows a claim takes.
use resource_mgmt_app.Base.{
  ◌∙◌, ap, ==_refl, is_value, ℕ, zero, suc, ◌≤◌, ◌≡◌, refl, Bool, true, false, ◌||◌, some, List, [],
  ◌∷◌, arith, map, ◌==◌, member, select, update_where, length, find?, any, length-map,
}
use resource_mgmt_app.Base.Keys.{
  are_distinct, has_key, key_of_select, find?-update_where, length-select-member,
}
use resource_mgmt_app.Outbox.{EmailOutbox, is_unprocessed}
use resource_mgmt_app.Drain.{is_due, insert_row, in_order, take, due_ids, claim_row, claim_due_rows}

-- sorting and taking keep no id that was not there
module _ (k : ℕ) where
  none_of_insert_row :
      (row : EmailOutbox) (rows : List EmailOutbox)
      → has_key (λ y. y.id) k (insert_row row rows) ≡ (row.id == k || has_key (λ y. y.id) k rows)
  unfolding insert_row
  none_of_insert_row row [] = refl
  none_of_insert_row row (r ∷ rows) = ground (arith, none_of_insert_row row rows)

  pub has_key-in_order :
      (rows : List EmailOutbox) → has_key (λ y. y.id) k (in_order rows) ≡ has_key (λ y. y.id) k rows
  unfolding in_order
  has_key-in_order [] = refl
  has_key-in_order (row ∷ rows) =
      ground (arith, has_key-in_order rows, none_of_insert_row row (in_order rows))

  none_of_take :
      (n : ℕ) (rows : List EmailOutbox)
      → has_key (λ y. y.id) k rows ≡ false
      → member k (map (λ y. y.id) (take n rows)) ≡ false
  none_of_take zero rows h = refl
  none_of_take (suc n) [] h = refl
  none_of_take (suc n) (row ∷ rows) h = ground (arith, none_of_take n rows)

  pub none_of_due_ids :
      (now batch_size : ℕ) (rows : List EmailOutbox)
      → has_key (λ y. y.id) k (select (is_due now) rows) ≡ false
      → member k (due_ids now batch_size rows) ≡ false
  unfolding due_ids
  none_of_due_ids now batch_size rows h =
      none_of_take batch_size (in_order (select (is_due now) rows))
        (has_key-in_order (select (is_due now) rows) ∙ h)

length-take : (n : ℕ) (rows : List EmailOutbox) → length (take n rows) ≤ n
length-take zero rows = omega arith
length-take (suc n) [] = omega arith
length-take (suc n) (row ∷ rows) = omega (arith, length-take n rows)

length-insert_row :
    (row : EmailOutbox) (rows : List EmailOutbox) → length (insert_row row rows) ≡ suc (length rows)
unfolding insert_row
length-insert_row row [] = refl
length-insert_row row (r ∷ rows) = ground (arith, length-insert_row row rows)

length-in_order : (rows : List EmailOutbox) → length (in_order rows) ≡ length rows
unfolding in_order
length-in_order [] = refl
length-in_order (row ∷ rows) = length-insert_row row (in_order rows) ∙ ap suc (length-in_order rows)

-- the rows of a run that had none before its claim
claimed_rows :
    (run_id now : ℕ) (p : EmailOutbox → Bool) (rows : List EmailOutbox)
    → any (λ row. is_value row.claimed_by run_id) rows ≡ false
    → length (select (is_unprocessed run_id) (update_where p (claim_row run_id now) rows))
      ≡ length (select p rows)
unfolding is_unprocessed claim_row
claimed_rows run_id now p [] h = refl
claimed_rows run_id now p (row ∷ rows) h =
    ground (arith, ==_refl run_id, claimed_rows run_id now p rows)

length-due_ids :
    (batch_size now : ℕ) (rows : List EmailOutbox)
    → length (due_ids now batch_size rows) ≤ batch_size
unfolding due_ids
length-due_ids batch_size now rows = omega (
  arith,
  length-take batch_size (in_order (select (is_due now) rows)),
  length-map (take batch_size (in_order (select (is_due now) rows))) (λ y. y.id),
)

module _ (run_id batch_size now : ℕ) (rows : List EmailOutbox) where
  pub claim_due_rows_keeps :
      are_distinct (λ row. row.id) rows ≡ true
      → (row : EmailOutbox) → find? (λ y. y.id == row.id) rows ≡ some row
      → is_due now row ≡ false
      → find? (λ y. y.id == row.id) (claim_due_rows run_id batch_size now rows).0 ≡ some row
  unfolding claim_due_rows claim_row
  claim_due_rows_keeps distinct row found early =
      find?-update_where (λ y. y.id) (λ y. member y.id (due_ids now batch_size rows))
        (claim_row run_id now) row.id rows row (λ y _. refl) found
        (none_of_due_ids row.id now batch_size rows
          (key_of_select (λ y. y.id) (is_due now) row.id rows row found distinct early))

  -- A claim with a fresh run id takes at most a batch of rows, and a row that is not due - sent, waiting for
  -- its time, or held by another run - stands in the table as before, where no two rows have one id.
  pub claim_due_rows_takes :
      are_distinct (λ row. row.id) rows ≡ true
      → any (λ row. is_value row.claimed_by run_id) rows ≡ false
      → let (rows', claimed) = claim_due_rows run_id batch_size now rows in
        (length claimed ≤ batch_size)
        × ((row : EmailOutbox)
            → find? (λ y. y.id == row.id) rows ≡ some row
            → is_due now row ≡ false
            → find? (λ y. y.id == row.id) rows' ≡ some row)
  unfolding claim_due_rows
  claim_due_rows_takes distinct fresh =
      let ids = due_ids now batch_size rows in
      let table = update_where (λ y. member y.id ids) (claim_row run_id now) rows in
      (
        omega (
          arith,
          length-in_order (select (is_unprocessed run_id) table),
          claimed_rows run_id now (λ y. member y.id ids) rows fresh,
          length-select-member (λ y. y.id) ids rows distinct,
          length-due_ids batch_size now rows,
        ),
        claim_due_rows_keeps distinct,
      )

-- ===== src/Drain/Safety.antt =====
-- What a whole run leaves alone.
use resource_mgmt_app.Base.{
  Bool-cases, inl, inr, sym, subst, ◌∙◌, ℕ, suc, ◌≡◌, refl, Bool, true, false, not, Option, none,
  some, List, [], ◌∷◌, arith, leb, ◌==◌, member, select, update_where, find?,
}
use resource_mgmt_app.Base.Keys.{
  are_distinct, has_key, key_of_select, find?-update_where, find?-select, are_distinct-update_where,
}
use resource_mgmt_app.Outbox.{
  RowResult, Logged, continues, halts, throttles, OutboxStatus, EmailOutbox, LogEntry, is_claimable,
  is_sending, is_terminal, is_unprocessed, release_row, release_claims, is_stale, reap,
  reap_stale_claims, process_row,
}
use resource_mgmt_app.Outbox.Rows.{process_row-IsSettledRow}
use resource_mgmt_app.Drain.{
  DrainConfig, StopReason, drain_checked, Tick, Run, is_due, due_ids, claim_row, claim_due_rows,
  drain_step, drain_row, after_row, write_row, drain_rows, drain_batch, drain_outbox, prune_outbox,
  is_expired_row, check_stop, end_row, stop, start_run,
}
use resource_mgmt_app.Drain.Claims.{has_key-in_order, claim_due_rows_keeps}

-- a terminal row, found under its id
abbrev pub Stands : EmailOutbox → List EmailOutbox → Type 0
Stands row rows = find? (λ y. y.id == row.id) rows ≡ some row

Stands-write_row :
    (row row' : EmailOutbox) (rows : List EmailOutbox)
    → Stands row rows
    → (row'.id == row.id) ≡ false
    → Stands row (write_row row' rows)
unfolding write_row
Stands-write_row row row' rows h other =
    find?-update_where (λ y. y.id) (λ y. y.id == row'.id) (λ _. row') row.id rows row
      (λ y e. ground arith) h (ground arith)

end_row_rows : (c : EmailOutbox) (run : Run) → (end_row c run).0.rows ≡ run.rows
unfolding end_row stop
end_row_rows c run = ground arith

after_row_rows :
    (c : EmailOutbox) (result : RowResult) (run : Run) → (after_row c result run).0.rows ≡ run.rows
unfolding after_row stop
after_row_rows c continues run = end_row_rows c run
after_row_rows c halts run = refl
after_row_rows c throttles run = refl

module _ (config : DrainConfig) (row : EmailOutbox) where
  drain_row-Stands :
      (tick : Tick) (c : EmailOutbox) (run : Run)
      → Stands row run.rows
      → (c.id == row.id) ≡ false
      → Stands row (drain_row config tick c run).0.rows
  unfolding drain_row
  drain_row-Stands tick c run h other =
      let after : Logged × RowResult =
        process_row config.row_config tick.surroundings (c, run.logs) in
      let same : after.0.0.id ≡ c.id =
        (process_row-IsSettledRow config.row_config tick.surroundings c run.logs).same_id in
      subst (Stands row) (sym (after_row_rows after.0.0 after.1 _)) (
        Stands-write_row row after.0.0 run.rows h
          (subst (λ n. (n == row.id) ≡ false) (sym same) other))

  drain_checked-Stands :
      (tick : Tick) (c : EmailOutbox) (run : Run) (o : Option StopReason)
      → Stands row run.rows
      → (c.id == row.id) ≡ false
      → Stands row (drain_checked config tick c run o).0.rows
  unfolding drain_checked stop
  drain_checked-Stands tick c run (some reason) h other = h
  drain_checked-Stands tick c run none h other = drain_row-Stands tick c run h other

  drain_rows-Stands :
      (ticks : ℕ → Tick) (index : ℕ) (claimed : List EmailOutbox) (run : Run)
      → Stands row run.rows
      → has_key (λ y. y.id) row.id claimed ≡ false
      → Stands row (drain_rows config ticks index claimed run).rows
  unfolding drain_rows drain_step
  drain_rows-Stands ticks index [] run h other = h
  drain_rows-Stands ticks index (c ∷ claimed) run h other =
      let step : Run × Bool =
        drain_checked config (ticks index) c run (check_stop config (ticks index) index) in
      let stands : Stands row step.0.rows =
        drain_checked-Stands (ticks index) c run _ h (ground arith) in
      let later = drain_rows-Stands ticks (suc index) claimed step.0 stands (ground arith) in
      elim (Bool-cases step.1) [ inl e ↦ rw e later | inr e ↦ rw e stands ]

-- the statuses that a run does not touch
not_sending : (s : OutboxStatus) → is_terminal s ≡ true → is_sending s ≡ false
not_sending OutboxStatus.sending h = cc
not_sending OutboxStatus.queued h = refl
not_sending OutboxStatus.render_blocked h = refl
not_sending OutboxStatus.sent h = refl
not_sending OutboxStatus.failed h = refl
not_sending OutboxStatus.cancelled h = refl
not_sending OutboxStatus.suppressed h = refl

not_claimable : (s : OutboxStatus) → is_terminal s ≡ true → is_claimable s ≡ false
not_claimable OutboxStatus.sending h = refl
not_claimable OutboxStatus.queued h = cc
not_claimable OutboxStatus.render_blocked h = cc
not_claimable OutboxStatus.sent h = refl
not_claimable OutboxStatus.failed h = refl
not_claimable OutboxStatus.cancelled h = refl
not_claimable OutboxStatus.suppressed h = refl

module _ (config : DrainConfig) (run_id now sent_in_last_24h : ℕ) (ticks : ℕ → Tick)
    (rows : List EmailOutbox) (logs : List LogEntry) (row : EmailOutbox) where
  drain_batch-Stands :
      are_distinct (λ y. y.id) rows ≡ true
      → Stands row rows
      → is_terminal row.status ≡ true
      → Stands row (drain_batch config run_id now sent_in_last_24h ticks rows logs).rows
  unfolding drain_batch claim_due_rows claim_row start_run stop is_due is_unprocessed
  drain_batch-Stands distinct h done =
      let rows' = (claim_due_rows run_id config.batch_size now rows).0 in
      let h' : Stands row rows' =
        claim_due_rows_keeps run_id config.batch_size now rows distinct row h
          (rw (not_claimable row.status done) refl) in
      let fresh : has_key (λ y. y.id) row.id (claim_due_rows run_id config.batch_size now rows).1
          ≡ false =
        has_key-in_order row.id (select (is_unprocessed run_id) rows')
        ∙ key_of_select (λ y. y.id) (is_unprocessed run_id) row.id rows' row h'
            (are_distinct-update_where (λ y. y.id)
                (λ y. member y.id (due_ids now config.batch_size rows)) (claim_row run_id now) rows
                (λ y. refl)
              ∙ distinct)
            (rw (not_sending row.status done) (ground arith)) in
      let drained = drain_rows-Stands config row ticks 0 _ (start_run _ logs rows') h' fresh in
      elim (Bool-cases (leb config.daily_limit sent_in_last_24h)) [
        | inl e ↦ rw e h
        | inr e ↦ rw e drained
      ]

module _ (config : DrainConfig) (run_id now : ℕ) (rows : List EmailOutbox) (row : EmailOutbox) where
  reaped-Stands :
      Stands row rows → is_terminal row.status ≡ true → Stands row (reap_stale_claims now rows).0
  unfolding reap_stale_claims is_stale reap
  reaped-Stands h done =
      find?-update_where (λ y. y.id) (is_stale now) reap row.id rows row (λ y _. ground arith) h
        (rw (not_sending row.status done) refl)

  released-Stands :
      Stands row rows → is_terminal row.status ≡ true → Stands row (release_claims run_id rows).0
  unfolding release_claims is_unprocessed release_row
  released-Stands h done =
      find?-update_where (λ y. y.id) (is_unprocessed run_id) release_row row.id rows row
        (λ y _. refl) h (rw (not_sending row.status done) (ground arith))

  reaped_distinct :
      are_distinct (λ y. y.id) rows ≡ true
      → are_distinct (λ y. y.id) (reap_stale_claims now rows).0 ≡ true
  unfolding reap_stale_claims reap
  reaped_distinct distinct =
      are_distinct-update_where (λ y. y.id) (is_stale now) reap rows (λ y. ground arith) ∙ distinct

-- Whatever happens in a run, a row that is sent, failed, cancelled or suppressed before it stands in the
-- table after it exactly as before, until it is past its retention, where no two rows have one id.
pub drain_outbox_keeps_terminal :
    (config : DrainConfig) (run_id now sent_in_last_24h : ℕ) (ticks : ℕ → Tick)
    (rows : List EmailOutbox) (logs : List LogEntry) (row : EmailOutbox)
    → are_distinct (λ y. y.id) rows ≡ true
    → find? (λ y. y.id == row.id) rows ≡ some row
    → is_terminal row.status ≡ true
    → is_expired_row config.retention_days now row ≡ false
    → find?
        (λ y. y.id == row.id)
        (drain_outbox config run_id now sent_in_last_24h ticks rows logs).rows
      ≡ some row
unfolding drain_outbox prune_outbox
drain_outbox_keeps_terminal config run_id now sent_in_last_24h ticks rows logs row distinct h done
      young =
    let reaped = (reap_stale_claims now rows).0 in
    let batch = drain_batch config run_id now sent_in_last_24h ticks reaped logs in
    find?-select (λ y. y.id == row.id) (λ y. not (is_expired_row config.retention_days now y))
      (release_claims run_id batch.rows).0 row
      (released-Stands config run_id now batch.rows row
        (drain_batch-Stands config run_id now sent_in_last_24h ticks reaped logs row
          (reaped_distinct config run_id now rows row distinct)
          (reaped-Stands config run_id now rows row h done) done)
        done)
      (rw young refl)

-- no row that passes a test is left, where the write takes each out of it
none_after {ℓ} :
    {A : Type ℓ}
    → (p : A → Bool) (f : A → A) (rows : List A) → ((y : A) → p (f y) ≡ false)
    → select p (update_where p f rows) ≡ []
none_after p f [] out = refl
none_after p f (y ∷ rows) out = grind (arith, out y, none_after p f rows out)

none_in_select {ℓ} :
    {A : Type ℓ}
    → (p q : A → Bool) (rows : List A) → select p rows ≡ []
    → select p (select q rows) ≡ []
none_in_select p q [] h = refl
none_in_select p q (y ∷ rows) h = ground (arith, none_in_select p q rows)

released_free : (run_id : ℕ) (y : EmailOutbox) → is_unprocessed run_id (release_row y) ≡ false
unfolding is_unprocessed release_row
released_free run_id y = refl

-- However a run ends - at its last row, on a signal, on the clock, on a limit, on a halt of the mail service -
-- no row is left SENDING in its name.
pub drain_outbox_leaves_no_claim :
    (config : DrainConfig) (run_id now sent_in_last_24h : ℕ) (ticks : ℕ → Tick)
    (rows : List EmailOutbox) (logs : List LogEntry)
    → select
        (is_unprocessed run_id)
        (drain_outbox config run_id now sent_in_last_24h ticks rows logs).rows
      ≡ []
unfolding drain_outbox prune_outbox release_claims release_row is_unprocessed
drain_outbox_leaves_no_claim config run_id now sent_in_last_24h ticks rows logs =
    let batch =
      drain_batch config run_id now sent_in_last_24h ticks (reap_stale_claims now rows).0 logs in
    none_in_select (is_unprocessed run_id) (λ y. not (is_expired_row config.retention_days now y))
      (release_claims run_id batch.rows).0
      (none_after (is_unprocessed run_id) release_row batch.rows (λ y. released_free run_id y))

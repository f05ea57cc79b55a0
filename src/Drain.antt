-- ===== src/Drain.antt =====
-- app/services/email_drainer.py: a run of the drainer, from the claim of due rows to the prune. What a
-- run reads between two rows (its clock, the signal, the number of recent sends, the answers of other
-- services) is an argument.
pub mod Claims
pub mod Safety
use resource_mgmt_app.Base.{
  ℕ, zero, suc, ◌+◌, ◌*◌, ◌%◌, Bool, true, false, not, ◌&&◌, ◌||◌, Option, none, some, List, [],
  ◌∷◌, map, leb, ltb, ◌==◌, is_some, member, select, update_where, length, if◌then◌else◌,
}
use resource_mgmt_app.Base.Text.{Text, text, is_one_of, eqb_text}
use resource_mgmt_app.Outbox.{
  OutboxStatus, EmailOutbox, LogEntry, Config, RowResult, Surroundings, is_claimable, is_terminal,
  reap_stale_claims, is_unprocessed, release_claims, process_row, continues, halts, throttles,
}

unfoldable pub is_due : ℕ → EmailOutbox → Bool
is_due now row = is_claimable row.status && leb row.dispatch_at now

-- order_by(dispatch_at, id)
unfoldable pub goes_first : EmailOutbox → EmailOutbox → Bool
goes_first a b = ltb a.dispatch_at b.dispatch_at || a.dispatch_at == b.dispatch_at && leb a.id b.id

unfoldable pub insert_row : EmailOutbox → List EmailOutbox → List EmailOutbox
unfolding goes_first
insert_row row [] = row ∷ []
insert_row row (r ∷ rows) =
    let rest = insert_row row rows in if goes_first row r then row ∷ r ∷ rows else r ∷ rest

unfoldable pub in_order : List EmailOutbox → List EmailOutbox
unfolding insert_row
in_order [] = []
in_order (row ∷ rows) = insert_row row (in_order rows)

-- limit(n)
abbrev pub take : ℕ → List EmailOutbox → List EmailOutbox
take zero rows = []
take (suc n) [] = []
take (suc n) (row ∷ rows) = row ∷ take n rows

-- the ids of _due_rows_subquery
unfoldable pub due_ids : ℕ → ℕ → List EmailOutbox → List ℕ
unfolding is_due in_order
due_ids now batch_size rows =
    map (λ row. row.id) (take batch_size (in_order (select (is_due now) rows)))

unfoldable pub claim_row : ℕ → ℕ → EmailOutbox → EmailOutbox
claim_row run_id now row = record row {
  status = OutboxStatus.sending;
  claimed_at = some now;
  claimed_by = some run_id;
}

-- the table afterwards, and the rows of the run
unfoldable pub claim_due_rows : ℕ → ℕ → ℕ → List EmailOutbox → List EmailOutbox × List EmailOutbox
unfolding due_ids claim_row is_unprocessed in_order
claim_due_rows run_id batch_size now rows =
    let rows' =
      update_where (λ row. member row.id (due_ids now batch_size rows)) (claim_row run_id now)
        rows in
    (rows', in_order (select (is_unprocessed run_id) rows'))

pub record DrainConfig : Type 0 where
  pub row_config : Config
  pub batch_size : ℕ
  pub max_seconds : ℕ
  pub daily_limit : ℕ
  pub retention_days : ℕ

-- what the run finds when it turns to its next row
pub record Tick : Type 0 where
  pub is_stopped : Bool
  pub elapsed : ℕ
  pub sent_in_last_24h : ℕ
  pub surroundings : Surroundings

pub data StopReason : Type 0 where
  daily_limit sigterm clock account_halt throttled transport_failures : StopReason

pub record DrainSummary : Type 0 where
  pub claimed : ℕ
  pub sent : ℕ
  pub failed : ℕ
  pub suppressed : ℕ
  pub cancelled : ℕ
  pub render_blocked : ℕ
  pub pruned : ℕ
  pub stopped_reason : Option StopReason

-- the table, the log, the summary, the failures in a row, and the templates that did not render
pub record Run : Type 0 where
  pub rows : List EmailOutbox
  pub logs : List LogEntry
  pub summary : DrainSummary
  pub consecutive_failures : ℕ
  pub render_keys : List Text

-- the checks before the row at an index
unfoldable pub check_stop : DrainConfig → Tick → ℕ → Option StopReason
check_stop config tick index =
    if tick.is_stopped
    then some StopReason.sigterm
    else if ltb config.max_seconds tick.elapsed
    then some StopReason.clock
    else if not (index == 0) && index % 50 == 0 && leb config.daily_limit tick.sent_in_last_24h
    then some StopReason.daily_limit
    else none

unfoldable pub stop : StopReason → Run → Run
stop reason run = record run { summary = record run.summary { stopped_reason = some reason } }

unfoldable pub count_outcome : OutboxStatus → DrainSummary → DrainSummary
count_outcome OutboxStatus.sent s = record s { sent = suc s.sent }
count_outcome OutboxStatus.suppressed s = record s { suppressed = suc s.suppressed }
count_outcome OutboxStatus.cancelled s = record s { cancelled = suc s.cancelled }
count_outcome OutboxStatus.render_blocked s = record s { render_blocked = suc s.render_blocked }
count_outcome OutboxStatus.failed s = record s { failed = suc s.failed }
count_outcome OutboxStatus.queued s = s
count_outcome OutboxStatus.sending s = s

-- the template of a row that is blocked, or that fails for a block that is too old
broken_template : EmailOutbox → Bool
broken_template row = broken row.status
  where
    broken : OutboxStatus → Bool
    broken OutboxStatus.render_blocked = true
    broken OutboxStatus.failed = is_some row.blocked_since
    broken _ = false

-- `outcome in (QUEUED, FAILED) and row.blocked_since is None`
unfoldable pub transport_failed : EmailOutbox → Bool
transport_failed row = thrown_back row.status && not (is_some row.blocked_since)
  where
    thrown_back : OutboxStatus → Bool
    thrown_back OutboxStatus.queued = true
    thrown_back OutboxStatus.failed = true
    thrown_back _ = false

-- the row is written back under its id
unfoldable pub write_row : EmailOutbox → List EmailOutbox → List EmailOutbox
write_row row = update_where (λ y. y.id == row.id) (λ _. row)

-- after a row whose status was returned: the run, and whether it goes on
end_row : EmailOutbox → Run → Run × Bool
unfolding count_outcome broken_template transport_failed stop
end_row row run =
    let failures = if transport_failed row then suc run.consecutive_failures else 0 in
    let run' = record run {
      summary = count_outcome row.status run.summary;
      consecutive_failures = failures;
      render_keys =
          if broken_template row then row.template_key ∷ run.render_keys else run.render_keys;
    } in
    if leb 5 failures then (stop StopReason.transport_failures run', false) else (run', true)

after_row : EmailOutbox → RowResult → Run → Run × Bool
unfolding end_row stop
after_row row continues run = end_row row run
after_row row halts run = (stop StopReason.account_halt run, false)
after_row row throttles run = (stop StopReason.throttled run, false)

drain_row : DrainConfig → Tick → EmailOutbox → Run → Run × Bool
unfolding process_row write_row after_row
drain_row config tick row run =
    let ((row', logs), result) = process_row config.row_config tick.surroundings (row, run.logs) in
    after_row row' result (record run { rows = write_row row' run.rows; logs = logs })

drain_checked : DrainConfig → Tick → EmailOutbox → Run → Option StopReason → Run × Bool
unfolding stop drain_row
drain_checked config tick row run (some reason) = (stop reason run, false)
drain_checked config tick row run none = drain_row config tick row run

drain_step : DrainConfig → Tick → ℕ → EmailOutbox → Run → Run × Bool
unfolding check_stop drain_checked
drain_step config tick index row run =
    drain_checked config tick row run (check_stop config tick index)

unfoldable pub drain_rows : DrainConfig → (ℕ → Tick) → ℕ → List EmailOutbox → Run → Run
unfolding drain_step
drain_rows config ticks index [] run = run
drain_rows config ticks index (row ∷ rows) run =
    let (run', goes_on) = drain_step config (ticks index) index row run in
    let rest = drain_rows config ticks (suc index) rows run' in if goes_on then rest else run'

unfoldable pub is_expired_row : ℕ → ℕ → EmailOutbox → Bool
is_expired_row retention_days now row =
    is_terminal row.status && ltb (row.created_at + 86400 * retention_days) now

unfoldable pub prune_outbox : ℕ → ℕ → List EmailOutbox → List EmailOutbox × ℕ
unfolding is_expired_row
prune_outbox retention_days now rows = (
  select (λ row. not (is_expired_row retention_days now row)) rows,
  length (select (is_expired_row retention_days now) rows),
)

no_summary : DrainSummary
no_summary = record {
  claimed = 0;
  sent = 0;
  failed = 0;
  suppressed = 0;
  cancelled = 0;
  render_blocked = 0;
  pruned = 0;
  stopped_reason = none;
}

unfoldable pub start_run : ℕ → List LogEntry → List EmailOutbox → Run
unfolding no_summary
start_run claimed logs rows = record {
  rows = rows;
  logs = logs;
  summary = record no_summary { claimed = claimed };
  consecutive_failures = 0;
  render_keys = [];
}

-- the claim, unless the limit of the day is reached, and the loop over the claimed rows
unfoldable pub drain_batch :
    DrainConfig → ℕ → ℕ → ℕ → (ℕ → Tick) → List EmailOutbox → List LogEntry → Run
unfolding start_run claim_due_rows drain_rows stop
drain_batch config run_id now sent_in_last_24h ticks rows logs =
    let (rows', claimed) = claim_due_rows run_id config.batch_size now rows in
    if leb config.daily_limit sent_in_last_24h
    then stop StopReason.daily_limit (start_run 0 logs rows)
    else drain_rows config ticks 0 claimed (start_run (length claimed) logs rows')

unfoldable pub drain_outbox :
    DrainConfig → ℕ → ℕ → ℕ → (ℕ → Tick) → List EmailOutbox → List LogEntry → Run
unfolding reap_stale_claims drain_batch release_claims prune_outbox
drain_outbox config run_id now sent_in_last_24h ticks rows logs =
    let run =
      drain_batch config run_id now sent_in_last_24h ticks (reap_stale_claims now rows).0 logs in
    let (rows', pruned) =
      prune_outbox config.retention_days now (release_claims run_id run.rows).0 in
    record run { rows = rows'; summary = record run.summary { pruned = pruned } }

-- ===== src/Outbox/Rows.antt =====
-- What each way out of SENDING leaves.
use resource_mgmt_app.Base.{
  ℕ, ◌+◌, ◌*◌, ◌^◌, ◌≤◌, ◌<◌, ◌≡◌, ◌⊎◌, inl, inr, refl, Bool, true, false, not, ◌&&◌, ◌||◌, Option,
  none, some, List, [], ◌∷◌, ◌++◌, arith, is_some, leb, sum_of, length, select, if◌then◌else◌,
}
use resource_mgmt_app.Base.Text.{Text, text}
use resource_mgmt_app.Templates.{EffectiveTemplate}
use resource_mgmt_app.EmailErrors.{ErrorKind, classify_ses_error}
use resource_mgmt_app.Outbox.{
  OutboxStatus, EmailOutbox, LogEntry, Config, RowResult, Surroundings, Rendering, Logged,
  is_claimable, is_terminal, frees_key, transport_backoff, clear_claim, is_stale, reap,
  reap_stale_claims, terminate, block_on_render, too_old, or_now, requeue_or_fail,
  handle_transport_failure, is_over, deliver, failure_reason, render, resolve, load, process_row,
  continues,
}

-- A row that has left SENDING: it has a terminal status, with no key if it failed or was cancelled, or it
-- is claimable again and nobody's claim. It is the same row. At most one delivery attempt is counted, and a row that is
-- parked for its template counts none.
pub record IsSettledRow (row row' : EmailOutbox) : Type 0 where
  pub ends :
      ((is_terminal row'.status ≡ true) × (frees_key row'.status ≡ true → row'.dedup_key ≡ none))
      ⊎ ((is_claimable row'.status ≡ true)
          × (row'.claimed_by ≡ none)
          × (row'.dedup_key ≡ row.dedup_key))
  pub same_id : row'.id ≡ row.id
  pub attempts : row'.attempt_count ≤ row.attempt_count + 1
  pub parked :
      row'.status ≡ OutboxStatus.render_blocked
      → (row'.attempt_count ≡ row.attempt_count) × (is_some row'.blocked_since ≡ true)

terminate-IsSettledRow :
    (status : OutboxStatus) (reason : Option Text) (row0 row : EmailOutbox) (logs : List LogEntry)
    → is_terminal status ≡ true
    → row.id ≡ row0.id
    → row.attempt_count ≤ row0.attempt_count + 1
    → IsSettledRow row0 (terminate status reason (row, logs)).0
unfolding terminate
terminate-IsSettledRow status reason row0 row logs t i a = record {
  same_id = i;
  ends = inl (t, λ h. ground arith);
  attempts = a;
  parked = λ h. ground arith;
}

blocked : (now : ℕ) (o : Option ℕ) → is_some (or_now now o) ≡ true
unfolding or_now
blocked now none = refl
blocked now (some t) = refl

block_on_render-IsSettledRow :
    (config : Config) (now : ℕ) (reason : Text) (row : EmailOutbox) (logs : List LogEntry)
    → IsSettledRow row (block_on_render config now reason (row, logs)).0
unfolding block_on_render
block_on_render-IsSettledRow config now reason row logs =
    go (too_old (86400 * config.render_max_age_days) now row.blocked_since)
  where
    go :
        (b : Bool)
        → IsSettledRow row
            (if b then terminate OutboxStatus.failed (some reason) (row, logs) else (
              clear_claim (record row {
                status = OutboxStatus.render_blocked;
                last_error = some reason;
                dispatch_at = now + 60 * config.render_retry_minutes;
                blocked_since = or_now now row.blocked_since;
              }),
              if is_some row.blocked_since
                  then logs
                  else logs
                    ++ (record { status = OutboxStatus.render_blocked; error = some reason } ∷ []),
            )).0
    go true =
        terminate-IsSettledRow OutboxStatus.failed (some reason) row row logs refl refl
          (omega arith)
    go false = record {
      ends = inr (refl, refl, refl);
      same_id = refl;
      attempts = omega arith;
      parked = λ h. (refl, blocked now row.blocked_since);
    }

requeue_or_fail-IsSettledRow :
    (config : Config) (now : ℕ) (reason : Text) (row : EmailOutbox) (logs : List LogEntry)
    → IsSettledRow row (requeue_or_fail config now reason (row, logs)).0
unfolding requeue_or_fail
requeue_or_fail-IsSettledRow config now reason row logs =
    go (leb config.max_attempts (row.attempt_count + 1))
  where
    go :
        (b : Bool)
        → IsSettledRow row
            (if b
              then terminate OutboxStatus.failed
                  (some reason)
                  (record row { attempt_count = row.attempt_count + 1 }, logs)
              else (
                clear_claim (record row {
                  attempt_count = row.attempt_count + 1;
                  status = OutboxStatus.queued;
                  last_error = some reason;
                  dispatch_at = now + transport_backoff (row.attempt_count + 1);
                }),
                logs,
              )).0
    go true =
        terminate-IsSettledRow OutboxStatus.failed (some reason) row
          (record row { attempt_count = row.attempt_count + 1 }) logs refl refl (omega arith)
    go false = record {
      ends = inr (refl, refl, refl);
      same_id = refl;
      attempts = omega arith;
      parked = λ h. cc;
    }

handle_transport_failure-IsSettledRow :
    (config : Config) (now : ℕ) (kind : ErrorKind) (reason : Text) (row : EmailOutbox)
    (logs : List LogEntry)
    → IsSettledRow row (handle_transport_failure config now kind reason (row, logs)).0.0
unfolding handle_transport_failure
handle_transport_failure-IsSettledRow config now ErrorKind.account_halt reason row logs = record {
  ends = inr (refl, refl, refl);
  same_id = refl;
  attempts = omega arith;
  parked = λ h. cc;
}
handle_transport_failure-IsSettledRow config now ErrorKind.permanent reason row logs =
    terminate-IsSettledRow OutboxStatus.failed (some reason) row row logs refl refl (omega arith)
handle_transport_failure-IsSettledRow config now ErrorKind.transient_account reason row logs =
    requeue_or_fail-IsSettledRow config now reason row logs
handle_transport_failure-IsSettledRow config now ErrorKind.transient reason row logs =
    requeue_or_fail-IsSettledRow config now reason row logs

module _ (config : Config) (s : Surroundings) where
  deliver-IsSettledRow :
      (row : EmailOutbox) (logs : List LogEntry)
      → IsSettledRow row (deliver config s (row, logs)).0.0
  unfolding deliver
  deliver-IsSettledRow row logs = go (s.is_suppressed || not s.is_email_enabled) s.result.is_sent
    where
      go :
          (b c : Bool)
          → IsSettledRow row
              (if b
                then (
                  terminate OutboxStatus.suppressed
                      (some (
                        text (
                          if s.is_suppressed
                          then "Recipient suppressed"
                          else "EMAIL_ENABLED is false")))
                      (row, logs),
                  continues,
                )
                else if c
                then (
                  terminate OutboxStatus.sent none (
                    record row {
                      sent_at = some s.now;
                      provider_message_id = s.result.provider_message_id;
                    },
                    logs,
                  ),
                  continues,
                )
                else handle_transport_failure config s.now
                    (classify_ses_error s.result.error_code)
                    (failure_reason s.result)
                    (row, logs)).0.0
      go true c =
          terminate-IsSettledRow OutboxStatus.suppressed _ row row logs refl refl (omega arith)
      go false true =
          terminate-IsSettledRow OutboxStatus.sent none row
            (record row {
              sent_at = some s.now;
              provider_message_id = s.result.provider_message_id;
            })
            logs refl refl (omega arith)
      go false false =
          handle_transport_failure-IsSettledRow config s.now
            (classify_ses_error s.result.error_code) (failure_reason s.result) row logs

  render-IsSettledRow :
      (o : Rendering) (row : EmailOutbox) (logs : List LogEntry)
      → IsSettledRow row (render config s o (row, logs)).0.0
  unfolding render
  render-IsSettledRow (Rendering.raised e) row logs =
      block_on_render-IsSettledRow config s.now _ row logs
  render-IsSettledRow Rendering.no_result row logs =
      block_on_render-IsSettledRow config s.now _ row logs
  render-IsSettledRow Rendering.rendered row logs =
      let h = deliver-IsSettledRow (record row { blocked_since = none }) logs in
      record { ends = h.ends; same_id = h.same_id; attempts = h.attempts; parked = h.parked }

  resolve-IsSettledRow :
      (o : Option EffectiveTemplate) (row : EmailOutbox) (logs : List LogEntry)
      → IsSettledRow row (resolve config s o (row, logs)).0.0
  unfolding resolve
  resolve-IsSettledRow none row logs =
      terminate-IsSettledRow OutboxStatus.cancelled _ row row logs refl refl (omega arith)
  resolve-IsSettledRow (some effective) row logs =
      go (not effective.is_active) (is_over s.now effective.send_window_end)
    where
      silent : Text → Logged × RowResult
      silent reason = (terminate OutboxStatus.cancelled (some reason) (row, logs), continues)

      go :
          (b c : Bool)
          → IsSettledRow row
              (if b
                then silent (text "Template " ++ row.template_key ++ text " missing or inactive")
                else if c
                then silent (
                    text "Send window for "
                    ++ row.template_key
                    ++ text " closed "
                    ++ s.window_text
                    ++ text " UTC")
                else render config s s.rendering (row, logs)).0.0
      go true c =
          terminate-IsSettledRow OutboxStatus.cancelled _ row row logs refl refl (omega arith)
      go false true =
          terminate-IsSettledRow OutboxStatus.cancelled _ row row logs refl refl (omega arith)
      go false false = render-IsSettledRow s.rendering row logs

  load-IsSettledRow :
      (o : Option Text) (row : EmailOutbox) (logs : List LogEntry)
      → IsSettledRow row (load config s o (row, logs)).0.0
  unfolding load
  load-IsSettledRow none row logs = resolve-IsSettledRow s.template row logs
  load-IsSettledRow (some entity) row logs =
      terminate-IsSettledRow OutboxStatus.cancelled _ row row logs refl refl (omega arith)

  -- Whatever process_row meets - a missing entity, a silent or a broken template, a suppressed recipient,
  -- any answer of the mail service - the row is settled afterwards, as `IsSettledRow` says.
  pub process_row-IsSettledRow :
      (row : EmailOutbox) (logs : List LogEntry)
      → IsSettledRow row (process_row config s (row, logs)).0.0
  unfolding process_row
  process_row-IsSettledRow row logs = load-IsSettledRow s.missing row logs

-- A failed attempt puts the row back into the queue exactly while fewer attempts than the maximum have
-- been made, and then the next one is 10 minutes, doubled once for each attempt, away; with the last
-- attempt the row fails.
pub requeue_or_fail_budget :
    (config : Config) (now : ℕ) (reason : Text) (row : EmailOutbox) (logs : List LogEntry)
    → let row' = (requeue_or_fail config now reason (row, logs)).0 in
      (row'.attempt_count ≡ row.attempt_count + 1)
      × (row'.attempt_count < config.max_attempts
          → (row'.status ≡ OutboxStatus.queued)
            × (row'.dispatch_at ≡ now + 60 * (10 * 2 ^ row'.attempt_count)))
      × (config.max_attempts ≤ row'.attempt_count → row'.status ≡ OutboxStatus.failed)
unfolding requeue_or_fail terminate transport_backoff
requeue_or_fail_budget config now reason row logs =
    (ground arith, λ h. (ground arith, ground arith), λ h. ground arith)

-- The reaper leaves no stale claim and counts those that there were; a row that is blocked on its
-- template keeps its attempts, any other stale one has one more.
pub reap_stale_claims_sweeps :
    (now : ℕ) (rows : List EmailOutbox)
    → let (rows', count) = reap_stale_claims now rows in
      (select (is_stale now) rows' ≡ [])
      × (count ≡ length (select (is_stale now) rows))
      × (sum_of (λ row. row.attempt_count) rows'
          ≡ sum_of (λ row. row.attempt_count) rows
            + length (select (λ row. is_stale now row && not (is_some row.blocked_since)) rows))
unfolding reap_stale_claims is_stale reap
reap_stale_claims_sweeps now [] = (refl, refl, refl)
reap_stale_claims_sweeps now (row ∷ rows) = ground (arith, reap_stale_claims_sweeps now rows)

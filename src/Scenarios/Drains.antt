-- ===== src/Scenarios/Drains.antt =====
-- A run of the drainer over a sent email and one that is due.
use resource_mgmt_app.Base.{
  ◌*◌, ℕ, ◌≡◌, ◌≤◌, refl, true, false, none, some, List, [], ◌∷◌, arith, length, find?, select,
  ◌==◌,
}
use resource_mgmt_app.Base.Text.{text}
use resource_mgmt_app.EmailErrors.{ErrorKind}
use resource_mgmt_app.Outbox.{OutboxStatus, EmailOutbox, is_terminal, is_unprocessed}
use resource_mgmt_app.Outbox.Retries.{Attempt, fail_all, fail_all_terminates}
use resource_mgmt_app.Drain.{DrainConfig, Tick, is_expired_row, claim_due_rows, drain_outbox}
use resource_mgmt_app.Drain.Claims.{claim_due_rows_takes}
use resource_mgmt_app.Drain.Safety.{drain_outbox_keeps_terminal, drain_outbox_leaves_no_claim}
use resource_mgmt_app.Retention.{
  NotificationLog, EmailMessageBody, have_logs, prune_email_audit, prune_email_audit_keeps_pairs,
}
use resource_mgmt_app.Scenarios.Mail.{mail, config, throttled}

abbrev sent_mail : EmailOutbox
sent_mail = record mail {
  id = 2;
  status = OutboxStatus.sent;
  claimed_by = none;
  claimed_at = none;
  sent_at = some 950;
}

abbrev due_mail : EmailOutbox
due_mail = record mail { status = OutboxStatus.queued; claimed_by = none; claimed_at = none }

abbrev table : List EmailOutbox
table = sent_mail ∷ due_mail ∷ []

abbrev limits : DrainConfig
limits = record {
  row_config = config;
  batch_size = 500;
  max_seconds = 420;
  daily_limit = 5000;
  retention_days = 90;
}

abbrev tick : ℕ → Tick
tick index = record {
  is_stopped = false;
  elapsed = index;
  sent_in_last_24h = 0;
  surroundings = throttled;
}

young : is_expired_row 90 1000 sent_mail ≡ false
unfolding is_expired_row
young = refl

drain_outbox_keeps_terminal_example :
    find? (λ y. y.id == 2) (drain_outbox limits 6 1000 0 tick table []).rows ≡ some sent_mail
drain_outbox_keeps_terminal_example =
    drain_outbox_keeps_terminal limits 6 1000 0 tick table [] sent_mail refl refl refl young

drain_outbox_leaves_no_claim_example :
    select (is_unprocessed 6) (drain_outbox limits 6 1000 0 tick table []).rows ≡ []
drain_outbox_leaves_no_claim_example = drain_outbox_leaves_no_claim limits 6 1000 0 tick table []

claim_due_rows_takes_example : length (claim_due_rows 6 500 1000 table).1 ≤ 500
claim_due_rows_takes_example = (claim_due_rows_takes 6 500 1000 table refl refl).0

abbrev attempt : Attempt
attempt = record { now = 1000; kind = ErrorKind.transient; reason = text "Timeout" }

abbrev attempts : List Attempt
attempts = attempt ∷ attempt ∷ attempt ∷ attempt ∷ attempt ∷ attempt ∷ []

fail_all_terminates_example : is_terminal (fail_all config attempts (mail, [])).0.status ≡ true
fail_all_terminates_example =
    fail_all_terminates config attempts mail [] refl (omega arith) (omega arith)

abbrev log : ℕ → NotificationLog
log id = record { id = id; is_email = true; is_sent = true; created_at = 1000 * id }

abbrev body : ℕ → EmailMessageBody
body id = record { notification_log_id = id; created_at = 1000 * id }

abbrev history : List NotificationLog
history = log 1 ∷ log 9 ∷ []

prune_email_audit_keeps_pairs_example :
    have_logs
      (prune_email_audit 24 1460 126150000 history (body 1 ∷ body 9 ∷ [])).0
      (prune_email_audit 24 1460 126150000 history (body 1 ∷ body 9 ∷ [])).1
    ≡ true
prune_email_audit_keeps_pairs_example =
    prune_email_audit_keeps_pairs 24 1460 126150000 history (body 1 ∷ body 9 ∷ []) refl

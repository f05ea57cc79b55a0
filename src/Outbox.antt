-- ===== src/Outbox.antt =====
-- app/services/email_drainer.py: one row of the email outbox, from its claim to its next state, and the
-- rows that a crashed or a stopped run leaves. Times are in seconds.
pub mod Rows
pub mod Retries
use resource_mgmt_app.Base.{
  ℕ, ◌+◌, ◌-◌, ◌*◌, ◌^◌, ◌≤◌, Bool, true, false, not, ◌&&◌, ◌||◌, Option, none, some, List, [], ◌∷◌,
  ◌++◌, is_some, leb, ltb, is_value, select, update_where, length, if◌then◌else◌,
}
use resource_mgmt_app.Base.Text.{Text, text, is_empty}
use resource_mgmt_app.EmailErrors.{ErrorKind, classify_ses_error}
use resource_mgmt_app.Templates.{EffectiveTemplate}

pub data OutboxStatus : Type 0 where
  queued sending render_blocked sent failed cancelled suppressed : OutboxStatus

abbrev pub is_sending : OutboxStatus → Bool
is_sending OutboxStatus.sending = true
is_sending _ = false

-- OUTBOX_CLAIMABLE_STATUSES
abbrev pub is_claimable : OutboxStatus → Bool
is_claimable OutboxStatus.queued = true
is_claimable OutboxStatus.render_blocked = true
is_claimable _ = false

-- OUTBOX_TERMINAL_STATUSES
abbrev pub is_terminal : OutboxStatus → Bool
is_terminal OutboxStatus.sent = true
is_terminal OutboxStatus.failed = true
is_terminal OutboxStatus.cancelled = true
is_terminal OutboxStatus.suppressed = true
is_terminal _ = false

-- `status in (CANCELLED, FAILED)`
abbrev pub frees_key : OutboxStatus → Bool
frees_key OutboxStatus.cancelled = true
frees_key OutboxStatus.failed = true
frees_key _ = false

pub record EmailOutbox : Type 0 where
  pub id : ℕ
  pub template_key : Text
  pub recipient_email : Text
  pub recipient_user_id : Option ℕ
  pub dispatch_at : ℕ
  pub status : OutboxStatus
  pub work_item_id : Option ℕ
  pub event_cycle_id : Option ℕ
  pub department_id : Option ℕ
  pub work_type_id : Option ℕ
  pub context_json : Option Text
  pub dedup_key : Option Text
  pub claimed_at : Option ℕ
  pub claimed_by : Option ℕ
  pub attempt_count : ℕ
  pub blocked_since : Option ℕ
  pub last_error : Option Text
  pub sent_at : Option ℕ
  pub provider_message_id : Option Text
  pub created_at : ℕ

-- one row of the notification log: the outbox status that is mapped to its own, and the error
pub record LogEntry : Type 0 where
  pub status : OutboxStatus
  pub error : Option Text

pub record Config : Type 0 where
  pub max_attempts : ℕ
  pub render_retry_minutes : ℕ
  pub render_max_age_days : ℕ

unfoldable pub transport_backoff : ℕ → ℕ
transport_backoff attempt_count = 60 * (10 * 2 ^ attempt_count)

abbrev pub clear_claim : EmailOutbox → EmailOutbox
clear_claim row = record row { claimed_at = none; claimed_by = none }

-- `claimed_at <= now - 30 minutes`, which is not true of NULL
claimed_before : Option ℕ → ℕ → Bool
claimed_before none now = false
claimed_before (some t) now = leb (t + 60 * 30) now

unfoldable pub is_stale : ℕ → EmailOutbox → Bool
unfolding claimed_before
is_stale now row = is_sending row.status && claimed_before row.claimed_at now

unfoldable pub reap : EmailOutbox → EmailOutbox
reap row = clear_claim (
    if is_some row.blocked_since
    then record row { status = OutboxStatus.render_blocked }
    else record row { status = OutboxStatus.queued; attempt_count = row.attempt_count + 1 })

unfoldable pub reap_stale_claims : ℕ → List EmailOutbox → List EmailOutbox × ℕ
unfolding is_stale reap
reap_stale_claims now rows =
    (update_where (is_stale now) reap rows, length (select (is_stale now) rows))

-- a row claimed by this run, and not yet in another state
unfoldable pub is_unprocessed : ℕ → EmailOutbox → Bool
is_unprocessed run_id row = is_value row.claimed_by run_id && is_sending row.status

unfoldable pub release_row : EmailOutbox → EmailOutbox
release_row row = clear_claim (record row {
  status = if is_some row.blocked_since then OutboxStatus.render_blocked else OutboxStatus.queued;
})

unfoldable pub release_claims : ℕ → List EmailOutbox → List EmailOutbox × ℕ
unfolding is_unprocessed release_row
release_claims run_id rows = (
  update_where (is_unprocessed run_id) release_row rows,
  length (select (is_unprocessed run_id) rows),
)

-- a row and the log beside it
abbrev pub Logged : Type 0
Logged = EmailOutbox × List LogEntry

unfoldable pub terminate : OutboxStatus → Option Text → Logged → Logged
terminate status reason (row, logs) = (
  record row {
    status = status;
    last_error = reason;
    dedup_key = if frees_key status then none else row.dedup_key;
  },
  logs ++ (record { status = status; error = reason } ∷ []),
)

-- `row.blocked_since and now - row.blocked_since >= max_age`
too_old : ℕ → ℕ → Option ℕ → Bool
too_old max_age now none = false
too_old max_age now (some since) = leb (since + max_age) now

or_now : ℕ → Option ℕ → Option ℕ
or_now now none = some now
or_now now (some since) = some since

unfoldable pub block_on_render : Config → ℕ → Text → Logged → Logged
unfolding too_old or_now terminate
block_on_render config now reason (row, logs) =
    if too_old (86400 * config.render_max_age_days) now row.blocked_since
    then terminate OutboxStatus.failed (some reason) (row, logs)
    else (
      clear_claim (record row {
        status = OutboxStatus.render_blocked;
        last_error = some reason;
        dispatch_at = now + 60 * config.render_retry_minutes;
        blocked_since = or_now now row.blocked_since;
      }),
      if is_some row.blocked_since
          then logs
          else logs ++ (record { status = OutboxStatus.render_blocked; error = some reason } ∷ []),
    )

unfoldable pub requeue_or_fail : Config → ℕ → Text → Logged → Logged
unfolding terminate transport_backoff
requeue_or_fail config now reason (row, logs) =
    let attempts = row.attempt_count + 1 in
    let tried = record row { attempt_count = attempts } in
    if leb config.max_attempts attempts
    then terminate OutboxStatus.failed (some reason) (tried, logs)
    else (
      clear_claim (record tried {
        status = OutboxStatus.queued;
        last_error = some reason;
        dispatch_at = now + transport_backoff attempts;
      }),
      logs,
    )

-- a status that is returned, or an exception that ends the run
pub data RowResult : Type 0 where
  continues halts throttles : RowResult

unfoldable pub handle_transport_failure :
    Config → ℕ → ErrorKind → Text → Logged → Logged × RowResult
unfolding requeue_or_fail terminate
handle_transport_failure config now ErrorKind.account_halt reason (row, logs) = (
  (clear_claim (record row { status = OutboxStatus.queued; last_error = some reason }), logs),
  halts,
)
handle_transport_failure config now ErrorKind.permanent reason r =
    (terminate OutboxStatus.failed (some reason) r, continues)
handle_transport_failure config now ErrorKind.transient_account reason r =
    (requeue_or_fail config now reason r, throttles)
handle_transport_failure config now ErrorKind.transient reason r =
    (requeue_or_fail config now reason r, continues)

-- what the rendering of a template does
pub data Rendering : Type 0 where
  raised : Text → Rendering
  no_result : Rendering
  rendered : Rendering

pub record SesResult : Type 0 where
  pub is_sent : Bool
  pub provider_message_id : Option Text
  pub error_code : Option Text
  pub error : Option Text

-- What process_row finds: the name of an entity that is gone, the template of the row's event and how it
-- renders, the end of its window as text, the suppression list and the switch, and the answer of the mail service.
pub record Surroundings : Type 0 where
  pub now : ℕ
  pub missing : Option Text
  pub template : Option EffectiveTemplate
  pub window_text : Text
  pub rendering : Rendering
  pub is_suppressed : Bool
  pub is_email_enabled : Bool
  pub result : SesResult

is_over : ℕ → Option ℕ → Bool
is_over now none = false
is_over now (some end) = ltb end now

code_or_unknown : Option Text → Text
code_or_unknown none = text "unknown"
code_or_unknown (some code) = if is_empty code then text "unknown" else code

-- `result.error or f"SES error {result.error_code or 'unknown'}"`
failure_reason : SesResult → Text
unfolding code_or_unknown
failure_reason result = go result.error
  where
    go : Option Text → Text
    go none = text "SES error " ++ code_or_unknown result.error_code
    go (some error) =
        if is_empty error then text "SES error " ++ code_or_unknown result.error_code else error

deliver : Config → Surroundings → Logged → Logged × RowResult
unfolding terminate handle_transport_failure classify_ses_error failure_reason
deliver config s (row, logs) =
    if s.is_suppressed || not s.is_email_enabled
    then (
      terminate OutboxStatus.suppressed
          (some
            (text (if s.is_suppressed then "Recipient suppressed" else "EMAIL_ENABLED is false")))
          (row, logs),
      continues,
    )
    else if s.result.is_sent
    then (
      terminate OutboxStatus.sent none (
        record row { sent_at = some s.now; provider_message_id = s.result.provider_message_id },
        logs,
      ),
      continues,
    )
    else handle_transport_failure config s.now (classify_ses_error s.result.error_code)
        (failure_reason s.result) (row, logs)

render : Config → Surroundings → Rendering → Logged → Logged × RowResult
unfolding block_on_render deliver
render config s (raised e) (row, logs) = (
  block_on_render config s.now (text "Template " ++ row.template_key ++ text " raised: " ++ e)
      (row, logs),
  continues,
)
render config s no_result (row, logs) = (
  block_on_render config s.now (text "Template " ++ row.template_key ++ text " failed to render")
      (row, logs),
  continues,
)
render config s rendered (row, logs) = deliver config s (record row { blocked_since = none }, logs)

resolve : Config → Surroundings → Option EffectiveTemplate → Logged → Logged × RowResult
unfolding terminate is_over render
resolve config s none (row, logs) = (
  terminate OutboxStatus.cancelled
      (some (text "Template " ++ row.template_key ++ text " missing or inactive")) (row, logs),
  continues,
)
resolve config s (some effective) (row, logs) =
    if not effective.is_active
    then (
      terminate OutboxStatus.cancelled
          (some (text "Template " ++ row.template_key ++ text " missing or inactive")) (row, logs),
      continues,
    )
    else if is_over s.now effective.send_window_end
    then (
      terminate OutboxStatus.cancelled
          (some (
            text "Send window for "
            ++ row.template_key
            ++ text " closed "
            ++ s.window_text
            ++ text " UTC"))
          (row, logs),
      continues,
    )
    else render config s s.rendering (row, logs)

load : Config → Surroundings → Option Text → Logged → Logged × RowResult
unfolding terminate resolve
load config s (some entity) r = (
  terminate OutboxStatus.cancelled (some (text "Referenced " ++ entity ++ text " no longer exists"))
      r,
  continues,
)
load config s none r = resolve config s s.template r

unfoldable pub process_row : Config → Surroundings → Logged → Logged × RowResult
unfolding load
process_row config s r = load config s s.missing r

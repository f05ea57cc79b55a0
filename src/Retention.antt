-- ===== src/Retention.antt =====
-- app/services/email_drainer.py: the count of recent sends, and prune_email_audit, which deletes expired
-- message bodies and log rows.
use resource_mgmt_app.Base.{
  ℕ, ◌+◌, ◌*◌, ◌≡◌, refl, Bool, true, false, not, ◌&&◌, List, [], ◌∷◌, arith, map, all, leb, ltb,
  length, select, member,
}
use resource_mgmt_app.Base.Keys.{has_key}

pub record NotificationLog : Type 0 where
  pub id : ℕ
  -- channel == EMAIL, status == SENT
  pub is_email : Bool
  pub is_sent : Bool
  pub created_at : ℕ

pub record EmailMessageBody : Type 0 where
  pub notification_log_id : ℕ
  pub created_at : ℕ

unfoldable pub count_sent_in_last_24h : ℕ → List NotificationLog → ℕ
count_sent_in_last_24h now logs =
    length (select (λ log. log.is_email && log.is_sent && leb now (log.created_at + 86400)) logs)

pub record PruneSummary : Type 0 where
  pub bodies : ℕ
  pub logs : ℕ

-- `created_at < now - days`
unfoldable pub is_older : ℕ → ℕ → ℕ → Bool
is_older days now created_at = ltb (created_at + 86400 * days) now

-- the ids of the logs that are going to be deleted
unfoldable pub doomed_logs : ℕ → ℕ → List NotificationLog → List ℕ
unfolding is_older
doomed_logs days now logs =
    map (λ log. log.id) (select (λ log. is_older days now log.created_at) logs)

-- a month is 30 days
unfoldable pub prune_email_audit :
    ℕ
    → ℕ
    → ℕ
    → List NotificationLog
    → List EmailMessageBody
    → List NotificationLog × List EmailMessageBody × PruneSummary
unfolding is_older doomed_logs
prune_email_audit months log_days now logs bodies =
    let young = select (λ body. not (is_older (30 * months) now body.created_at)) bodies in
    let doomed = doomed_logs log_days now logs in
    let left = select (λ body. not (member body.notification_log_id doomed)) young in
    (
      select (λ log. not (is_older log_days now log.created_at)) logs,
      left,
      record {
        bodies =
            length (select (λ body. is_older (30 * months) now body.created_at) bodies)
            + length (select (λ body. member body.notification_log_id doomed) young);
        logs = length doomed;
      },
    )

-- every body has its log
abbrev pub have_logs : List NotificationLog → List EmailMessageBody → Bool
have_logs logs bodies =
    all (λ body. has_key (λ (log : NotificationLog). log.id) body.notification_log_id logs) bodies

log_stays :
    (days now k : ℕ) (logs : List NotificationLog)
    → has_key (λ log. log.id) k logs ≡ true
    → member k (doomed_logs days now logs) ≡ false
    → has_key (λ log. log.id) k (select (λ log. not (is_older days now log.created_at)) logs) ≡ true
unfolding doomed_logs
log_stays days now k [] h e = cc
log_stays days now k (log ∷ logs) h e = ground (arith, log_stays days now k logs)

bodies_stay :
    (days body_days now : ℕ) (logs : List NotificationLog) (bodies : List EmailMessageBody)
    → have_logs logs bodies ≡ true
    → have_logs (select (λ log. not (is_older days now log.created_at)) logs) (
        select
          (λ body. not (member body.notification_log_id (doomed_logs days now logs)))
          (select (λ body. not (is_older body_days now body.created_at)) bodies))
      ≡ true
bodies_stay days body_days now logs [] h = refl
bodies_stay days body_days now logs (body ∷ bodies) h = ground (
  arith,
  log_stays days now body.notification_log_id logs,
  bodies_stay days body_days now logs bodies,
)

-- No body is left without its log row, whatever the two retentions are, where none was before.
pub prune_email_audit_keeps_pairs :
    (months log_days now : ℕ) (logs : List NotificationLog) (bodies : List EmailMessageBody)
    → have_logs logs bodies ≡ true
    → let (logs', bodies', _) = prune_email_audit months log_days now logs bodies in
      have_logs logs' bodies' ≡ true
unfolding prune_email_audit
prune_email_audit_keeps_pairs months log_days now logs bodies h =
    bodies_stay log_days (30 * months) now logs bodies h

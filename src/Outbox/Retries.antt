-- ===== src/Outbox/Retries.antt =====
-- Deliveries of one row that go on failing.
use resource_mgmt_app.Base.{
  ℕ, ◌+◌, ◌≤◌, ◌<◌, ◌≡◌, ◌⊎◌, inl, inr, refl, Bool, true, false, List, [], ◌∷◌, arith, leb, length,
  all, if◌then◌else◌, Bool-cases,
}
use resource_mgmt_app.Base.Text.{Text}
use resource_mgmt_app.EmailErrors.{ErrorKind}
use resource_mgmt_app.Outbox.{
  EmailOutbox, LogEntry, Config, Logged, is_terminal, terminate, requeue_or_fail,
  handle_transport_failure,
}

-- one failed call of the mail service, at a time, with the class of its error
pub record Attempt : Type 0 where
  pub now : ℕ
  pub kind : ErrorKind
  pub reason : Text

-- a halt of the whole account is no attempt
abbrev pub counted : ErrorKind → Bool
counted ErrorKind.account_halt = false
counted _ = true

abbrev pub counts : Attempt → Bool
counts a = counted a.kind

fail : Config → Attempt → Logged → Logged
unfolding handle_transport_failure
fail config a r =
    if is_terminal r.0.status
    then r
    else (handle_transport_failure config a.now a.kind a.reason r).0

-- failed deliveries, one after the other, until the row is terminal
unfoldable pub fail_all : Config → List Attempt → Logged → Logged
unfolding fail
fail_all config [] r = r
fail_all config (a ∷ attempts) r = fail_all config attempts (fail config a r)

-- terminal, or one attempt further below the maximum
abbrev IsFurther : Config → EmailOutbox → EmailOutbox → Type 0
IsFurther config row row' =
    (is_terminal row'.status ≡ true)
    ⊎ ((row'.attempt_count ≡ row.attempt_count + 1) × (row'.attempt_count < config.max_attempts))

requeue_or_fail-IsFurther :
    (config : Config) (now : ℕ) (reason : Text) (row : EmailOutbox) (logs : List LogEntry)
    → IsFurther config row (requeue_or_fail config now reason (row, logs)).0
unfolding requeue_or_fail terminate
requeue_or_fail-IsFurther config now reason row logs =
    elim (Bool-cases (leb config.max_attempts (row.attempt_count + 1))) [
      | inl e ↦ inl (rw e refl)
      | inr e ↦ inr (rw e refl, rw e (ground arith))
    ]

handle_transport_failure-IsFurther :
    (config : Config) (now : ℕ) (kind : ErrorKind) (reason : Text) (row : EmailOutbox)
    (logs : List LogEntry)
    → counted kind ≡ true
    → IsFurther config row (handle_transport_failure config now kind reason (row, logs)).0.0
unfolding handle_transport_failure terminate
handle_transport_failure-IsFurther config now ErrorKind.account_halt reason row logs h = cc
handle_transport_failure-IsFurther config now ErrorKind.permanent reason row logs h = inl refl
handle_transport_failure-IsFurther config now ErrorKind.transient_account reason row logs h =
    requeue_or_fail-IsFurther config now reason row logs
handle_transport_failure-IsFurther config now ErrorKind.transient reason row logs h =
    requeue_or_fail-IsFurther config now reason row logs

fail_cases :
    (config : Config) (a : Attempt) (r : Logged)
    → counts a ≡ true
    → ((is_terminal r.0.status ≡ true) → is_terminal (fail config a r).0.status ≡ true)
      × IsFurther config r.0 (fail config a r).0
unfolding fail
fail_cases config a r h = elim (Bool-cases (is_terminal r.0.status)) [
  | inl e ↦ (λ _. rw e e, inl (rw e e))
  | inr e ↦
      (λ e'. cc, rw e (handle_transport_failure-IsFurther config a.now a.kind a.reason r.0 r.1 h))
]

module _ (config : Config) where
  fail_all_terminal :
      (attempts : List Attempt) (r : Logged)
      → all counts attempts ≡ true
      → is_terminal r.0.status ≡ true
      → is_terminal (fail_all config attempts r).0.status ≡ true
  unfolding fail_all
  fail_all_terminal [] r c h = h
  fail_all_terminal (a ∷ attempts) r c h =
      fail_all_terminal attempts (fail config a r) (ground arith)
        ((fail_cases config a r (ground arith)).0 h)

  fail_all_below :
      (attempts : List Attempt) (r : Logged)
      → all counts attempts ≡ true
      → r.0.attempt_count < config.max_attempts
      → config.max_attempts ≤ r.0.attempt_count + length attempts
      → is_terminal (fail_all config attempts r).0.status ≡ true
  unfolding fail_all
  fail_all_below [] r c below enough = ground arith
  fail_all_below (a ∷ attempts) r c below enough = elim (fail_cases config a r (ground arith)).1 [
    | inl t ↦ fail_all_terminal attempts (fail config a r) (ground arith) t
    | inr (e, below') ↦
        fail_all_below attempts (fail config a r) (ground arith) below' (omega (arith, e))
  ]

  -- A row is not delivered for ever: when its deliveries go on failing, each counted - no halt of the whole
  -- account among them - it is in a terminal status after as many as are left of the maximum.
  pub fail_all_terminates :
      (attempts : List Attempt) (row : EmailOutbox) (logs : List LogEntry)
      → all counts attempts ≡ true
      → row.attempt_count < config.max_attempts
      → config.max_attempts ≤ row.attempt_count + length attempts
      → is_terminal (fail_all config attempts (row, logs)).0.status ≡ true
  fail_all_terminates attempts row logs = fail_all_below attempts (row, logs)

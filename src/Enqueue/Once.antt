-- ===== src/Enqueue/Once.antt =====
-- What a call of enqueue_email leaves, and which keys it keeps apart.
use resource_mgmt_app.Base.{
  ℕ, ◌≤◌, ◌<◌, ◌≡◌, inl, inr, refl, ap, subst, sym, ◌∙◌, Bool, true, false, not, Option, none, some,
  List, [], ◌∷◌, ◌++◌, arith, any, if◌then◌else◌, any-append, Bool-cases,
}
use resource_mgmt_app.Base.Text.{
  Text, text, eqb_text, is_one_of, eqb_text_refl, eq_of_eqb_text, decimal_or_none,
}
use resource_mgmt_app.Templates.{Templates, EffectiveTemplate, get_effective_template}
use resource_mgmt_app.Outbox.{EmailOutbox, OutboxStatus}
use resource_mgmt_app.Enqueue.{
  Formats, KeyParts, EnqueueOutcome, EmailRequest, once_per_event_kinds, item_key, stamp_text,
  build_dedup_key, owns, conflicts, or_time, is_before, is_after, queued_row, insert, enqueue_with,
  enqueue_email,
}

-- CREATED or DEFERRED
abbrev pub is_accepted : EnqueueOutcome → Bool
is_accepted EnqueueOutcome.created = true
is_accepted EnqueueOutcome.deferred = true
is_accepted _ = false

-- the time that a call asks for: its own, else now
abbrev pub asked_at : Option ℕ → ℕ → ℕ
asked_at none now = now
asked_at (some t) _ = t

-- a window that is open at a time, at its start and at its end
abbrev pub IsOpenFrom : Option ℕ → ℕ → Type 0
IsOpenFrom none t = true ≡ true
IsOpenFrom (some start) t = start ≤ t

abbrev pub IsOpenUntil : Option ℕ → ℕ → Type 0
IsOpenUntil none t = true ≡ true
IsOpenUntil (some end) t = t ≤ end

-- The time of a row: the asked time if the window is open by then (CREATED), and the opening of the
-- window if it opens later (DEFERRED).
abbrev pub IsTimed : EnqueueOutcome → Option ℕ → ℕ → ℕ → Type 0
IsTimed EnqueueOutcome.created start asked t = (t ≡ asked) × IsOpenFrom start asked
IsTimed EnqueueOutcome.deferred start asked t = (start ≡ some t) × (asked < t)
IsTimed _ start asked t = true ≡ false

-- a new row for a call: queued, untried, unclaimed, with the call's own data
pub record IsQueuedFor (now new_id : ℕ) (request : EmailRequest) (row : EmailOutbox) : Type 0 where
  pub id : row.id ≡ new_id
  pub status : row.status ≡ OutboxStatus.queued
  pub template_key : row.template_key ≡ request.template_key
  pub recipient_email : row.recipient_email ≡ request.recipient_email
  pub recipient_user_id : row.recipient_user_id ≡ request.recipient_user_id
  pub work_item_id : row.work_item_id ≡ request.work_item_id
  pub event_cycle_id : row.event_cycle_id ≡ request.event_cycle_id
  pub dedup_key : row.dedup_key ≡ request.dedup_key
  pub attempt_count : row.attempt_count ≡ 0
  pub claimed_by : row.claimed_by ≡ none
  pub blocked_since : row.blocked_since ≡ none
  pub sent_at : row.sent_at ≡ none
  pub created_at : row.created_at ≡ now

-- What a call of enqueue_email may do: nothing, or one new row at the end for the call, whose key no row
-- owns, at the time that the window of its effective template allows, which is active and not over.
pub data IsEnqueued (tables : Templates) (now new_id : ℕ) (request : EmailRequest)
    (rows : List EmailOutbox) : List EmailOutbox × EnqueueOutcome → Type 0 where
  kept :
      {outcome : EnqueueOutcome}
      → is_accepted outcome ≡ false
      → IsEnqueued tables now new_id request rows (rows, outcome)
  appended :
      {outcome : EnqueueOutcome} {effective : EffectiveTemplate} {row : EmailOutbox}
      → is_accepted outcome ≡ true
      → conflicts request.dedup_key rows ≡ false
      → get_effective_template tables request.template_key request.event_cycle_id ≡ some effective
      → effective.is_active ≡ true
      → IsOpenUntil effective.send_window_end now
      → IsTimed outcome effective.send_window_start
          (asked_at request.dispatch_at now)
          row.dispatch_at
      → IsQueuedFor now new_id request row
      → IsEnqueued tables now new_id request rows (rows ++ (row ∷ []), outcome)

asked : (o : Option ℕ) (now : ℕ) → or_time o now ≡ asked_at o now
unfolding or_time
asked none now = refl
asked (some t) now = refl

open_until : (end : Option ℕ) (now : ℕ) → is_after now end ≡ false → IsOpenUntil end now
unfolding is_after
open_until none now h = refl
open_until (some end) now h = ground arith

opened : (start : Option ℕ) (t : ℕ) → is_before t start ≡ false → IsOpenFrom start t
unfolding is_before
opened none t h = refl
opened (some start) t h = ground arith

deferred_to :
    (start : Option ℕ) (t : ℕ)
    → is_before t start ≡ true
    → (start ≡ some (or_time start t)) × (t < or_time start t)
unfolding is_before or_time
deferred_to none t h = cc
deferred_to (some start) t h = (refl, ground arith)

module _ (tables : Templates) (now new_id : ℕ) (request : EmailRequest) where
  queued_row-IsQueuedFor :
      (t : ℕ) → IsQueuedFor now new_id request (queued_row now new_id request t)
  unfolding queued_row
  queued_row-IsQueuedFor t = record {
    id = refl;
    status = refl;
    template_key = refl;
    recipient_email = refl;
    recipient_user_id = refl;
    work_item_id = refl;
    event_cycle_id = refl;
    dedup_key = refl;
    attempt_count = refl;
    claimed_by = refl;
    blocked_since = refl;
    sent_at = refl;
    created_at = refl;
  }

  insert-IsEnqueued :
      (rows : List EmailOutbox) (outcome : EnqueueOutcome) (effective : EffectiveTemplate) (t : ℕ)
      → is_accepted outcome ≡ true
      → get_effective_template tables request.template_key request.event_cycle_id ≡ some effective
      → effective.is_active ≡ true
      → IsOpenUntil effective.send_window_end now
      → IsTimed outcome effective.send_window_start (asked_at request.dispatch_at now) t
      → IsEnqueued tables now new_id request rows
          (insert (queued_row now new_id request t) outcome rows)
  unfolding insert queued_row
  insert-IsEnqueued rows outcome effective t ok e active until timed =
      go (conflicts request.dedup_key rows) refl
    where
      go :
          (b : Bool)
          → conflicts request.dedup_key rows ≡ b
          → IsEnqueued tables now new_id request rows (
              if b
              then (rows, EnqueueOutcome.duplicate)
              else (rows ++ (queued_row now new_id request t ∷ []), outcome))
      go true h = kept refl
      go false h = appended ok h e active until timed (queued_row-IsQueuedFor t)

  enqueue_with-IsEnqueued :
      (o : Option EffectiveTemplate) (rows : List EmailOutbox)
      → get_effective_template tables request.template_key request.event_cycle_id ≡ o
      → IsEnqueued tables now new_id request rows (enqueue_with now new_id request o rows)
  unfolding enqueue_with
  enqueue_with-IsEnqueued none rows e = kept refl
  enqueue_with-IsEnqueued (some effective) rows e =
      go effective.is_active refl (is_after now effective.send_window_end) refl
        (is_before at effective.send_window_start) refl
    where
      at : ℕ
      at = or_time request.dispatch_at now

      start : Option ℕ
      start = effective.send_window_start

      on : at ≡ asked_at request.dispatch_at now
      on = asked request.dispatch_at now

      go :
          (a : Bool)
          → effective.is_active ≡ a
          → (b : Bool) → is_after now effective.send_window_end ≡ b
          → (c : Bool) → is_before at effective.send_window_start ≡ c
          → IsEnqueued tables now new_id request rows (
              if not a
              then (rows, EnqueueOutcome.blocked_inactive)
              else if b
              then (rows, EnqueueOutcome.blocked_window)
              else if c
              then insert
                  (queued_row now new_id request (or_time effective.send_window_start at))
                  EnqueueOutcome.deferred
                  rows
              else insert (queued_row now new_id request at) EnqueueOutcome.created rows)
      go false _ b _ c _ = kept refl
      go true _ true _ c _ = kept refl
      go true ha false hb true hc =
          insert-IsEnqueued rows EnqueueOutcome.deferred effective (or_time start at) refl e ha
            (open_until effective.send_window_end now hb)
            (subst (λ n. (start ≡ some (or_time start at)) × (n < or_time start at)) on
              (deferred_to start at hc))
      go true ha false hb false hc =
          insert-IsEnqueued rows EnqueueOutcome.created effective at refl e ha
            (open_until effective.send_window_end now hb)
            (subst (λ n. (at ≡ n) × IsOpenFrom start n) on (refl, opened start at hc))

  -- Whatever enqueue_email is asked for, it adds nothing, or it adds one row at the end with the call's
  -- template, recipient, item, event and key, queued, untried and unclaimed, while no other row owns the
  -- key and the template is active for the event and its window not over. A created row is due at the
  -- asked time, by which the window is open; a deferred one when the window opens, later than asked.
  pub enqueue_email-IsEnqueued :
      (rows : List EmailOutbox)
      → IsEnqueued tables now new_id request rows (enqueue_email tables now new_id request rows)
  unfolding enqueue_email
  enqueue_email-IsEnqueued rows =
      enqueue_with-IsEnqueued
        (get_effective_template tables request.template_key request.event_cycle_id) rows refl

owns_own : (row : EmailOutbox) (key : Text) → row.dedup_key ≡ some key → owns key row ≡ true
unfolding owns
owns_own row key h = rw h (eqb_text_refl key)

module _ (tables : Templates) (now new_id : ℕ) (request : EmailRequest)
    (rows : List EmailOutbox) where
  kept_of_conflict :
      (r : List EmailOutbox × EnqueueOutcome)
      → IsEnqueued tables now new_id request rows r
      → conflicts request.dedup_key rows ≡ true
      → (r.0 ≡ rows) × (is_accepted r.1 ≡ false)
  kept_of_conflict _ (kept e) h = (refl, e)
  kept_of_conflict _ (appended e free _ _ _ _ _) h = cc

  owned_of_accepted :
      (r : List EmailOutbox × EnqueueOutcome) (key : Text)
      → IsEnqueued tables now new_id request rows r
      → is_accepted r.1 ≡ true
      → request.dedup_key ≡ some key
      → any (owns key) r.0 ≡ true
  owned_of_accepted _ key (kept e) ok h = cc
  owned_of_accepted _ key (appended {row = row} e free _ _ _ _ new) ok h =
      ground (arith, any-append (owns key) rows (row ∷ []), owns_own row key (new.dedup_key ∙ h))

conflicts-some :
    (o : Option Text) (key : Text) (rows : List EmailOutbox)
    → o ≡ some key
    → conflicts o rows ≡ any (owns key) rows
unfolding conflicts
conflicts-some o key rows h = rw h refl

-- Once an email with a key has been accepted, a second one with that key adds nothing and is not accepted,
-- whatever else differs between the two calls: the time, the templates, the recipient.
pub enqueue_email_once :
    (tables tables' : Templates) (now now' new_id new_id' : ℕ) (request request' : EmailRequest)
    (rows : List EmailOutbox) (key : Text)
    → request.dedup_key ≡ some key
    → request'.dedup_key ≡ some key
    → is_accepted (enqueue_email tables now new_id request rows).1 ≡ true
    → let rows' = (enqueue_email tables now new_id request rows).0 in
      let second = enqueue_email tables' now' new_id' request' rows' in
      (second.0 ≡ rows') × (is_accepted second.1 ≡ false)
enqueue_email_once tables tables' now now' new_id new_id' request request' rows key h h' ok =
    let first = enqueue_email tables now new_id request rows in
    kept_of_conflict tables' now' new_id' request' first.0 _
      (enqueue_email-IsEnqueued tables' now' new_id' request' first.0)
      (conflicts-some request'.dedup_key key first.0 h'
        ∙ owned_of_accepted tables now new_id request rows first key
            (enqueue_email-IsEnqueued tables now new_id request rows) ok h)

++_cancel : (s t u : Text) → s ++ t ≡ s ++ u → t ≡ u
++_cancel [] t u h = h
++_cancel (c ∷ s) t u h = ++_cancel s t u (ap tail h)
  where
    tail : Text → Text
    tail [] = []
    tail (_ ∷ t) = t

item_key_cancel :
    (kind : Text) (p : KeyParts) (s t : Text) → item_key kind p s ≡ item_key kind p t → s ≡ t
unfolding item_key
item_key_cancel kind p s t h = ++_cancel (text ":") s t (
    ++_cancel p.recipient_email _ _ (
      ++_cancel (text ":") _ _ (
        ++_cancel (decimal_or_none p.work_item_id) _ _
          (++_cancel (text ":") _ _ (++_cancel kind _ _ h)))))

-- the key of one item and recipient, built at a time, for an event with a stamp
abbrev pub key_at : Formats → Text → KeyParts → ℕ → ℕ → Text
key_at formats kind p now stamp =
    build_dedup_key formats kind (record p { now = now; event_stamp = some stamp })

reminder_recurs :
    (kind : Text)
    → is_one_of kind once_per_event_kinds ≡ true
    → eqb_text kind (text "submission_reminder") ≡ false
reminder_recurs kind once = elim (Bool-cases (eqb_text kind (text "submission_reminder"))) [
  | inl e ↦
      let recurs : false ≡ true =
        subst (λ k. is_one_of k once_per_event_kinds ≡ true)
          (eq_of_eqb_text kind (text "submission_reminder") e) once in
      cc
  | inr e ↦ e
]

build_dedup_key_event :
    (formats : Formats) (kind : Text) (p : KeyParts)
    → is_one_of kind once_per_event_kinds ≡ true
    → build_dedup_key formats kind p ≡ item_key kind p (stamp_text formats p.event_stamp)
unfolding build_dedup_key
build_dedup_key_event formats kind p once = rw (reminder_recurs kind once) (rw once refl)

-- For a notification that is sent once for each event, one item and one recipient have the same key at two
-- times only if the two events have the same stamp, provided that no two times have one ISO format.
pub build_dedup_key_separates :
    (formats : Formats) (kind : Text) (p : KeyParts) (now now' stamp stamp' : ℕ)
    → is_one_of kind once_per_event_kinds ≡ true
    → ((s t : ℕ) → formats.isoformat s ≡ formats.isoformat t → s ≡ t)
    → key_at formats kind p now stamp ≡ key_at formats kind p now' stamp'
    → stamp ≡ stamp'
unfolding stamp_text item_key
build_dedup_key_separates formats kind p now now' stamp stamp' once injective h =
    let at = λ (now stamp : ℕ). record p { now = now; event_stamp = some stamp } in
    injective stamp stamp' (
      item_key_cancel kind p (formats.isoformat stamp) (formats.isoformat stamp') (
        sym (build_dedup_key_event formats kind (at now stamp) once)
        ∙ (h ∙ build_dedup_key_event formats kind (at now' stamp') once)))

-- ===== src/Enqueue.antt =====
-- app/services/email_enqueue.py: one email into the outbox, unless its template is silent or another row
-- owns its key. Python's formats of a time and its lower() are arguments.
pub mod Once
use resource_mgmt_app.Base.{
  ℕ, Bool, true, false, not, ◌&&◌, Option, none, some, List, [], ◌∷◌, ◌++◌, any, ltb, is_some,
  if◌then◌else◌,
}
use resource_mgmt_app.Base.Text.{Text, text, eqb_text, is_one_of, is_empty, decimal_or_none}
use resource_mgmt_app.Templates.{Templates, EffectiveTemplate, get_template, get_effective_template}
use resource_mgmt_app.Outbox.{OutboxStatus, EmailOutbox}

pub record Formats : Type 0 where
  pub lower : Text → Text
  pub isoformat : ℕ → Text
  -- "%Y-%m-%d" and "%Y-%m-%d-%H"
  pub day : ℕ → Text
  pub hour : ℕ → Text

unfoldable pub specific_key : Formats → Text → Text → Text
specific_key formats code kind = formats.lower code ++ text "_" ++ kind

unfoldable pub resolve_template_key : Formats → Templates → Text → Option Text → Text
unfolding get_template specific_key
resolve_template_key formats tables kind none = kind
resolve_template_key formats tables kind (some code) =
    if not (is_empty code) && is_some (get_template tables (specific_key formats code kind))
    then specific_key formats code kind
    else kind

-- _ONCE_PER_EVENT_KINDS
abbrev pub once_per_event_kinds : List Text
once_per_event_kinds =
    text "submission_confirmation" ∷ text "finalized" ∷ text "submitted" ∷ text "sent_back" ∷ []

-- what a key is made from
pub record KeyParts : Type 0 where
  pub work_item_id : Option ℕ
  pub event_cycle_id : Option ℕ
  pub department_id : Option ℕ
  pub recipient_email : Text
  pub now : ℕ
  pub event_stamp : Option ℕ

stamp_text : Formats → Option ℕ → Text
stamp_text formats none = text "none"
stamp_text formats (some t) = formats.isoformat t

-- `f"{kind}:{work_item_id}:{recipient_email}:{last}"`
item_key : Text → KeyParts → Text → Text
unfolding decimal_or_none
item_key kind p last =
    kind
    ++ (text ":"
        ++ (decimal_or_none p.work_item_id
            ++ (text ":" ++ (p.recipient_email ++ (text ":" ++ last)))))

unfoldable pub build_dedup_key : Formats → Text → KeyParts → Text
unfolding decimal_or_none item_key stamp_text
build_dedup_key formats kind p =
    if eqb_text kind (text "submission_reminder")
    then kind
      ++ text ":"
      ++ decimal_or_none p.event_cycle_id
      ++ text ":"
      ++ decimal_or_none p.department_id
      ++ text ":"
      ++ p.recipient_email
      ++ text ":"
      ++ formats.day p.now
    else if is_one_of kind once_per_event_kinds
    then item_key kind p (stamp_text formats p.event_stamp)
    else item_key kind p (formats.hour p.now)

pub data EnqueueOutcome : Type 0 where
  created deferred duplicate blocked_window blocked_inactive : EnqueueOutcome

pub record EmailRequest : Type 0 where
  pub template_key : Text
  pub recipient_email : Text
  pub recipient_user_id : Option ℕ
  pub work_item_id : Option ℕ
  pub event_cycle_id : Option ℕ
  pub department_id : Option ℕ
  pub work_type_id : Option ℕ
  -- the context, dumped, where it is not empty
  pub context_json : Option Text
  pub dedup_key : Option Text
  pub dispatch_at : Option ℕ

-- `row.dedup_key == key`
unfoldable pub owns : Text → EmailOutbox → Bool
owns key row = owned_by row.dedup_key
  where
    owned_by : Option Text → Bool
    owned_by none = false
    owned_by (some k) = eqb_text k key

-- the unique index on dedup_key, which NULL does not take part in
unfoldable pub conflicts : Option Text → List EmailOutbox → Bool
unfolding owns
conflicts none rows = false
conflicts (some key) rows = any (owns key) rows

unfoldable pub or_time : Option ℕ → ℕ → ℕ
or_time none now = now
or_time (some t) now = t

unfoldable pub is_before : ℕ → Option ℕ → Bool
is_before t none = false
is_before t (some start) = ltb t start

unfoldable pub is_after : ℕ → Option ℕ → Bool
is_after t none = false
is_after t (some end) = ltb end t

unfoldable pub queued_row : ℕ → ℕ → EmailRequest → ℕ → EmailOutbox
queued_row now new_id request dispatch_at = record {
  id = new_id;
  template_key = request.template_key;
  recipient_email = request.recipient_email;
  recipient_user_id = request.recipient_user_id;
  dispatch_at = dispatch_at;
  status = OutboxStatus.queued;
  work_item_id = request.work_item_id;
  event_cycle_id = request.event_cycle_id;
  department_id = request.department_id;
  work_type_id = request.work_type_id;
  context_json = request.context_json;
  dedup_key = request.dedup_key;
  claimed_at = none;
  claimed_by = none;
  attempt_count = 0;
  blocked_since = none;
  last_error = none;
  sent_at = none;
  provider_message_id = none;
  created_at = now;
}

-- the row, on conflict nothing
insert : EmailOutbox → EnqueueOutcome → List EmailOutbox → List EmailOutbox × EnqueueOutcome
unfolding conflicts
insert row outcome rows =
    if conflicts row.dedup_key rows
    then (rows, EnqueueOutcome.duplicate)
    else (rows ++ (row ∷ []), outcome)

enqueue_with :
    ℕ
    → ℕ
    → EmailRequest
    → Option EffectiveTemplate
    → List EmailOutbox
    → List EmailOutbox × EnqueueOutcome
unfolding or_time is_before is_after queued_row insert
enqueue_with now new_id request none rows = (rows, EnqueueOutcome.blocked_inactive)
enqueue_with now new_id request (some effective) rows =
    let dispatch_at = or_time request.dispatch_at now in
    if not effective.is_active
    then (rows, EnqueueOutcome.blocked_inactive)
    else if is_after now effective.send_window_end
    then (rows, EnqueueOutcome.blocked_window)
    else if is_before dispatch_at effective.send_window_start
    then insert (queued_row now new_id request (or_time effective.send_window_start dispatch_at))
        EnqueueOutcome.deferred rows
    else insert (queued_row now new_id request dispatch_at) EnqueueOutcome.created rows

unfoldable pub enqueue_email :
    Templates → ℕ → ℕ → EmailRequest → List EmailOutbox → List EmailOutbox × EnqueueOutcome
unfolding get_effective_template enqueue_with
enqueue_email tables now new_id request rows =
    enqueue_with now new_id request
      (get_effective_template tables request.template_key request.event_cycle_id) rows

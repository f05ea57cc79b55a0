-- ===== src/Scenarios/Mail.antt =====
-- One outbox row, sent, thrown back and reaped.
use resource_mgmt_app.Base.{true, false, none, some, [], ◌∷◌}
use resource_mgmt_app.Base.Text.{text}
use resource_mgmt_app.Templates.{EmailTemplate, get_effective_template}
use resource_mgmt_app.Outbox.{
  OutboxStatus, EmailOutbox, Config, Surroundings, Rendering, process_row,
}
use resource_mgmt_app.Outbox.Rows.{IsSettledRow, process_row-IsSettledRow}

abbrev pub mail : EmailOutbox
mail = record {
  id = 1;
  template_key = text "submitted";
  recipient_email = text "a@x.org";
  recipient_user_id = none;
  dispatch_at = 900;
  status = OutboxStatus.sending;
  work_item_id = some 30;
  event_cycle_id = some 3;
  department_id = none;
  work_type_id = some 1;
  context_json = none;
  dedup_key = some (text "k");
  claimed_at = some 1000;
  claimed_by = some 5;
  attempt_count = 1;
  blocked_since = none;
  last_error = none;
  sent_at = none;
  provider_message_id = none;
  created_at = 800;
}

abbrev pub config : Config
config = record { max_attempts = 7; render_retry_minutes = 60; render_max_age_days = 7 }

abbrev pub submitted : EmailTemplate
submitted = record {
  id = 1;
  template_key = text "submitted";
  subject = text "Submitted";
  body_text = text "Thank you";
  is_active = true;
  version = 1;
}

abbrev pub throttled : Surroundings
throttled = record {
  now = 1010;
  missing = none;
  template =
      get_effective_template (record { bases = submitted ∷ []; overrides = [] }) (text "submitted")
        (some 3);
  window_text = [];
  rendering = Rendering.rendered;
  is_suppressed = false;
  is_email_enabled = true;
  result = record {
    is_sent = false;
    provider_message_id = none;
    error_code = some (text "ThrottlingException");
    error = none;
  };
}

process_row-IsSettledRow_example : IsSettledRow mail (process_row config throttled (mail, [])).0.0
process_row-IsSettledRow_example = process_row-IsSettledRow config throttled mail []

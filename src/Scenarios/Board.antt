-- ===== src/Scenarios/Board.antt =====
-- The email of a submission, and the release of a finalized budget.
use resource_mgmt_app.Base.{ℕ, ◌≡◌, refl, ap, true, none, some, [], ◌∷◌}
use resource_mgmt_app.Base.Text.{Text, text, decimal, is_blank}
use resource_mgmt_app.Model.{ItemStatus}
use resource_mgmt_app.Templates.{
  Templates, get_effective_template, get_template, find_override, merge,
}
use resource_mgmt_app.Enqueue.{
  Formats, KeyParts, EmailRequest, build_dedup_key, enqueue_email, conflicts, queued_row, or_time,
  is_before, is_after, resolve_template_key, specific_key,
}
use resource_mgmt_app.Enqueue.Once.{
  IsEnqueued, is_accepted, key_at, enqueue_email-IsEnqueued, enqueue_email_once,
  build_dedup_key_separates,
}
use resource_mgmt_app.Outcome.{is_done}
use resource_mgmt_app.Access.{require_budget_admin}
use resource_mgmt_app.Release.{
  Mailer, Book, is_held, get_held_budgets, finalized_template_is_live, resolved_finalized_key,
  release_event_budgets,
}
use resource_mgmt_app.Release.Run.{release_event_budgets_idempotent}
use resource_mgmt_app.Release.Effects.{IsReleasedFrom, release_event_budgets_releases}
use resource_mgmt_app.Base.Each.{Each}
use resource_mgmt_app.AdminFinal.Finalize.{uses_release}
use resource_mgmt_app.Scenarios.Mail.{submitted}
use resource_mgmt_app.Scenarios.Sample.{admin, budget_request, cycle, hello}

abbrev tables : Templates
tables = record {
  bases = submitted ∷ record submitted { id = 2; template_key = text "finalized" } ∷ [];
  overrides = [];
}

abbrev formats : Formats
formats = record {
  lower = λ t. t;
  isoformat = λ t. t ∷ [];
  day = λ t. decimal t;
  hour = λ t. decimal t;
}

abbrev email : EmailRequest
email = record {
  template_key = text "submitted";
  recipient_email = text "a@x.org";
  recipient_user_id = none;
  work_item_id = some 40;
  event_cycle_id = some 3;
  department_id = some 4;
  work_type_id = some 1;
  context_json = none;
  dedup_key = some (text "k");
  dispatch_at = none;
}

enqueue_email-IsEnqueued_example :
    IsEnqueued tables 1000 1 email [] (enqueue_email tables 1000 1 email [])
enqueue_email-IsEnqueued_example = enqueue_email-IsEnqueued tables 1000 1 email []

accepted : is_accepted (enqueue_email tables 1000 1 email []).1 ≡ true
unfolding enqueue_email get_effective_template get_template find_override merge conflicts queued_row
    or_time is_before is_after
accepted = refl

enqueue_email_once_example :
    (enqueue_email tables 2000 2 email (enqueue_email tables 1000 1 email []).0).0
    ≡ (enqueue_email tables 1000 1 email []).0
enqueue_email_once_example =
    (enqueue_email_once tables tables 1000 2000 1 2 email email [] (text "k") refl refl accepted).0

abbrev parts : KeyParts
parts = record {
  work_item_id = some 40;
  event_cycle_id = none;
  department_id = none;
  recipient_email = text "a@x.org";
  now = 1000;
  event_stamp = none;
}

abbrev head_of : Text → ℕ
head_of [] = 0
head_of (c ∷ _) = c

abbrev stamp : ℕ
stamp = 900

same_key :
    key_at formats (text "submitted") parts 1000 stamp
    ≡ key_at formats (text "submitted") parts 2000 stamp
unfolding build_dedup_key
same_key = refl

build_dedup_key_separates_example : stamp ≡ stamp
build_dedup_key_separates_example =
    build_dedup_key_separates formats (text "submitted") parts 1000 2000 stamp stamp refl
      (λ s t e. ap head_of e) same_key

abbrev mailer : Mailer
mailer = record { tables = tables; formats = formats; recipients = λ _. text "a@x.org" ∷ [] }

abbrev book : Book
book = record {
  event_cycle = cycle;
  items = record budget_request { status = ItemStatus.finalized } ∷ [];
  box = record { rows = []; next = 1 };
}

released : is_done (release_event_budgets mailer admin hello book).0 ≡ true
unfolding release_event_budgets require_budget_admin get_held_budgets finalized_template_is_live
    resolved_finalized_key resolve_template_key specific_key get_template get_effective_template
    find_override merge is_held uses_release is_blank
released = refl

release_event_budgets_releases_example :
    Each
      (IsReleasedFrom admin hello 3)
      book.items
      (release_event_budgets mailer admin hello book).2.items
release_event_budgets_releases_example =
    (release_event_budgets_releases mailer admin hello book released).4

release_event_budgets_idempotent_example :
    (release_event_budgets mailer admin hello (release_event_budgets mailer admin hello book).2).1
    ≡ 0
release_event_budgets_idempotent_example =
    (release_event_budgets_idempotent mailer mailer admin admin hello hello book released).0

-- ===== src/Outcome.antt =====
-- What a decision helper reports: success, a refusal with its message, or an abort. One constructor
-- stands for one message of the code.
use resource_mgmt_app.Base.{ℕ, Bool, true, false, List}
use resource_mgmt_app.Checkout.{CheckoutReason}

pub data Refusal : Type 0 where
  checkout_required back_in_draft reopen_unavailable already_decided invalid_transition : Refusal
  note_required not_permitted has_admin_decision not_awaiting_response may_not_respond : Refusal
  only_admins invalid_action no_amount override_note_required rejection_note_required : Refusal
  info_note_required finalize_note_required already_finalized not_submitted checked_out : Refusal
  awaiting_requester : ℕ → Refusal
  nothing_reviewed reason_required not_finalized not_under_review no_budget_details : Refusal
  change_note_required addition_note_required no_approval_group template_dark
        not_awaiting_dispatch :
      Refusal
  only_drafts no_lines recall_unavailable no_line_to_review checkin_unavailable : Refusal
  session_not_started session_not_ended : Refusal
  extension_there no_extension return_unavailable deadline_passed : Refusal
  session_refused : CheckoutReason → Refusal
  missing_detail : ℕ → Refusal
  unassigned_lines : List ℕ → Refusal

-- `forbidden` is abort(403), `not_found` abort(404), `missing_row` the exception of a refresh whose row is gone.
pub data Outcome : Type 0 where
  done : Outcome
  refused : Refusal → Outcome
  forbidden : Outcome
  missing_row : Outcome
  not_found : Outcome

abbrev pub is_done : Outcome → Bool
is_done Outcome.done = true
is_done _ = false

-- ===== src/EmailErrors.antt =====
-- app/services/email_errors.py: the class of an error of the mail service.
use resource_mgmt_app.Base.{Option, none, some, [], ◌∷◌, if◌then◌else◌}
use resource_mgmt_app.Base.Text.{Text, text, is_one_of, eqb_text}

pub data ErrorKind : Type 0 where
  account_halt permanent transient_account transient : ErrorKind

-- `code[: -len("Exception")]` where it ends so
unfoldable pub strip_suffix : Text → Text
strip_suffix [] = []
strip_suffix (c ∷ code) =
    let rest = strip_suffix code in if eqb_text (c ∷ code) (text "Exception") then [] else c ∷ rest

by_code : Text → ErrorKind
by_code code =
    if is_one_of code (text "AccountSendingPaused" ∷ text "ConfigurationSetSendingPaused" ∷ [])
    then ErrorKind.account_halt
    else if is_one_of code (text "Throttling" ∷ text "TooManyRequests" ∷ [])
    then ErrorKind.transient_account
    else if is_one_of code (
        text "MessageRejected"
        ∷ text "MailFromDomainNotVerified"
        ∷ text "ConfigurationSetDoesNotExist"
        ∷ [])
    then ErrorKind.permanent
    else ErrorKind.transient

-- the empty code is in no set
unfoldable pub classify_ses_error : Option Text → ErrorKind
unfolding strip_suffix by_code
classify_ses_error none = ErrorKind.transient
classify_ses_error (some code) = by_code (strip_suffix code)

-- ===== src/Checkout.antt =====
-- app/routes/work/helpers/checkout.py: the review lock of a request. An operation is given the row that it
-- decides on. The code locks it by with_for_update().get(), which waits for the lock of another transaction
-- but keeps the values that the session has loaded before, so this row is the stored one only if the
-- request has not been written since it was loaded.
pub mod Lock
pub mod Steps
use resource_mgmt_app.Base.{
  ℕ, suc, ◌≡◌, ◌+◌, ◌*◌, Bool, true, false, not, ◌&&◌, ◌||◌, Option, none, some, List, [], ◌∷◌,
  is_some, ltb, leb, length, select, update_where, if◌then◌else◌,
}
use resource_mgmt_app.Model.{WorkItem, is_submitted}
use resource_mgmt_app.Access.{Request, is_group_final, is_worktype_admin, user_holds_checkout}

-- the table CHECKOUT_TIMEOUTS, in minutes, which the configuration may replace
pub record Timeouts : Type 0 where
  pub approver : ℕ
  pub super_admin : ℕ
  pub default : ℕ

abbrev pub default_checkout_timeouts : Timeouts
default_checkout_timeouts = record { approver = 30; super_admin = 120; default = 30 }

unfoldable pub has_groups : List ℕ → Bool
has_groups [] = false
has_groups (_ ∷ _) = true

unfoldable pub get_checkout_timeout_minutes : Timeouts → Request → ℕ
unfolding has_groups
get_checkout_timeout_minutes timeouts r =
    if r.user_ctx.is_super_admin
    then timeouts.super_admin
    else if has_groups r.user_ctx.approval_group_ids
    then timeouts.approver
    else timeouts.default

-- `expires_at > now` for an optional time
unexpired : Option ℕ → ℕ → Bool
unexpired none now = false
unexpired (some expires_at) now = ltb now expires_at

unfoldable pub is_checked_out : WorkItem → ℕ → Bool
unfolding unexpired
is_checked_out item now =
    is_some item.checked_out_by_user_id && unexpired item.checked_out_expires_at now

pub data CheckoutReason : Type 0 where
  ok only_submitted no_sessions only_reviewers already_yours already_taken : CheckoutReason

unfoldable pub can_checkout : WorkItem → Request → CheckoutReason
unfolding is_group_final has_groups is_worktype_admin is_checked_out user_holds_checkout
can_checkout item r =
    if not (is_submitted item.status)
    then only_submitted
    else if is_group_final item.portfolio
    then no_sessions
    else if not r.user_ctx.is_super_admin
        && not (has_groups r.user_ctx.approval_group_ids)
        && not (is_worktype_admin r item.portfolio.work_type.id)
    then only_reviewers
    else if is_checked_out item r.now
    then (if user_holds_checkout item r then already_yours else already_taken)
    else ok

abbrev pub is_ok : CheckoutReason → Bool
is_ok CheckoutReason.ok = true
is_ok _ = false

unfoldable pub checkout_work_item : Timeouts → WorkItem → Request → WorkItem × Bool
unfolding can_checkout get_checkout_timeout_minutes
checkout_work_item timeouts item r =
    if is_ok (can_checkout item r)
    then (
      record item {
        checked_out_by_user_id = some r.user_ctx.user_id;
        checked_out_at = some r.now;
        checked_out_expires_at = some (r.now + 60 * get_checkout_timeout_minutes timeouts r);
      },
      true,
    )
    else (item, false)

-- the three columns of the lock set to NULL
abbrev pub release : WorkItem → WorkItem
release item = record item {
  checked_out_by_user_id = none;
  checked_out_at = none;
  checked_out_expires_at = none;
}

-- the holder of a lock and its expiry, kept from one row to the next
abbrev pub KeepsLock : WorkItem → WorkItem → Type 0
KeepsLock item item' =
    (item'.checked_out_by_user_id ≡ item.checked_out_by_user_id)
    × (item'.checked_out_expires_at ≡ item.checked_out_expires_at)

abbrev pub IsHeld : ℕ → ℕ → WorkItem → Type 0
IsHeld holder expires_at item =
    (item.checked_out_by_user_id ≡ some holder) × (item.checked_out_expires_at ≡ some expires_at)

unfoldable pub checkin_work_item : WorkItem → Request → Bool → WorkItem × Bool
unfolding user_holds_checkout is_worktype_admin
checkin_work_item item r force =
    if not (is_some item.checked_out_by_user_id)
    then (item, false)
    else if not (user_holds_checkout item r)
        && not (is_worktype_admin r item.portfolio.work_type.id && force)
    then (item, false)
    else (release item, true)

-- `checked_out_expires_at <= now`, which is not true of NULL
expired_by : Option ℕ → ℕ → Bool
expired_by none now = false
expired_by (some expires_at) now = leb expires_at now

unfoldable pub is_expired : ℕ → WorkItem → Bool
unfolding expired_by
is_expired now item =
    is_some item.checked_out_by_user_id && expired_by item.checked_out_expires_at now

-- the rows after it, and the count of locks released
unfoldable pub release_expired_checkouts : ℕ → List WorkItem → List WorkItem × ℕ
unfolding is_expired
release_expired_checkouts now items =
    (update_where (is_expired now) release items, length (select (is_expired now) items))

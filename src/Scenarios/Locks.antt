-- ===== src/Scenarios/Locks.antt =====
-- The review lock of the budget request.
use resource_mgmt_app.Base.{ℕ, ◌≡◌, refl, true, false, none, [], arith}
use resource_mgmt_app.Model.{WorkItem}
use resource_mgmt_app.Access.{is_group_final, user_holds_checkout}
use resource_mgmt_app.Checkout.{
  default_checkout_timeouts, get_checkout_timeout_minutes, is_checked_out, can_checkout,
  checkout_work_item, checkin_work_item, IsHeld,
}
use resource_mgmt_app.Checkout.Lock.{checkout_work_item_takes_lock}
use resource_mgmt_app.Checkout.Steps.{World, Step, Reach, Reach-IsHeld}
use resource_mgmt_app.Permissions.{build_work_item_perms}
use resource_mgmt_app.Actions.{Page, work_item_checkout}
use resource_mgmt_app.Actions.Diagram.{Call, call}
use resource_mgmt_app.Scenarios.Sample.{reviewer, admin, budget_request}

abbrev held_request : WorkItem
held_request = (checkout_work_item default_checkout_timeouts budget_request reviewer).0

checkout_succeeds : (checkout_work_item default_checkout_timeouts budget_request reviewer).1 ≡ true
unfolding checkout_work_item can_checkout is_group_final is_checked_out
checkout_succeeds = refl

checkout_work_item_takes_lock_example : user_holds_checkout held_request reviewer ≡ true
checkout_work_item_takes_lock_example =
    (checkout_work_item_takes_lock default_checkout_timeouts budget_request reviewer
      checkout_succeeds).3

second_fails : (checkout_work_item default_checkout_timeouts held_request admin).1 ≡ false
unfolding checkout_work_item can_checkout is_group_final is_checked_out user_holds_checkout
    get_checkout_timeout_minutes
second_fails = refl

checkin_succeeds : (checkin_work_item held_request reviewer false).1 ≡ true
unfolding checkin_work_item checkout_work_item can_checkout is_group_final is_checked_out
    user_holds_checkout get_checkout_timeout_minutes
checkin_succeeds = refl

abbrev held_at : ℕ → World
held_at now = record { now = now; item = held_request }

-- the page of the admin on the request
abbrev admin_page : Page
admin_page = record {
  ctx = record {
    portfolio = budget_request.portfolio;
    user_ctx = admin.user_ctx;
    membership = none;
    division_membership = none;
  };
  request = admin;
  groups = [];
  items = [];
}

-- another user's attempt and five minutes, of the thirty
attempts : Reach 2 (held_at 1000) (held_at 1300)
unfolding call work_item_checkout build_work_item_perms is_checked_out checkout_work_item
    can_checkout is_group_final get_checkout_timeout_minutes
attempts =
    Reach.next {w' = held_at 1000}
      (Reach.next {w' = held_at 1000} Reach.here (
        Step.request (Call.checkout default_checkout_timeouts admin_page) refl (omega arith) refl
          refl))
      (Step.tick 300 refl)

held_request-IsHeld : IsHeld 2 2800 held_request
unfolding checkout_work_item can_checkout is_group_final is_checked_out user_holds_checkout
    get_checkout_timeout_minutes
held_request-IsHeld = (refl, refl)

Reach-IsHeld_example : IsHeld 2 2800 held_request
Reach-IsHeld_example =
    Reach-IsHeld 2 2800 (held_at 1000) (held_at 1300) attempts (omega arith) held_request-IsHeld

-- ===== src/Actions/Session.antt =====
-- The buttons of a review session against the handlers behind them.
use resource_mgmt_app.Base.{◌≡◌, true, ◌&&◌, none, some, arith}
use resource_mgmt_app.Model.{WorkItem}
use resource_mgmt_app.Outcome.{is_done}
use resource_mgmt_app.Checkout.{Timeouts, checkout_work_item, checkin_work_item}
use resource_mgmt_app.Permissions.{build_work_item_perms}
use resource_mgmt_app.Permissions.Guards.{build_work_item_perms-checkout}
use resource_mgmt_app.Actions.{
  Page, perms_of, checked_out_as, checked_in_as, work_item_checkout, work_item_checkin,
}

module _ (timeouts : Timeouts) (page : Page) (item : WorkItem)
    (same : page.ctx.portfolio ≡ item.portfolio) where
  viewed : (perms_of page item).can_checkout ≡ true → (perms_of page item).can_view ≡ true
  unfolding build_work_item_perms
  viewed h = ground arith

  -- On a request of the page's portfolio, the handler of the checkout goes through exactly where the page
  -- offers the button, and the user has the lock then. The handler of the check-in goes through exactly
  -- where the page may be seen and offers the button, to the holder as to an admin, and the lock is free
  -- then.
  pub session_buttons :
      let perms = perms_of page item in
      let (out, taken) = work_item_checkout timeouts page item in
      let (back, given) = work_item_checkin page item in
      (is_done out ≡ perms.can_checkout)
      × (is_done out ≡ true → taken.checked_out_by_user_id ≡ some page.ctx.user_ctx.user_id)
      × (is_done back ≡ (perms.can_view && perms.can_checkin))
      × (is_done back ≡ true → given.checked_out_by_user_id ≡ none)
  unfolding work_item_checkout checkout_work_item checked_out_as work_item_checkin checkin_work_item
      checked_in_as
  session_buttons =
      let (out, back) =
        build_work_item_perms-checkout page.groups item page.ctx page.request page.items timeouts
          same in
      (ground (arith, viewed), ground arith, ground arith, ground arith)

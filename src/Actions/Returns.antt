-- ===== src/Actions/Returns.antt =====
-- Who may take a request back, and what is lost by it.
use resource_mgmt_app.Base.{ℕ, ◌≡◌, true, false, arith}
use resource_mgmt_app.Model.{WorkItem, ItemStatus, is_submitted}
use resource_mgmt_app.Outcome.{is_done}
use resource_mgmt_app.Permissions.{build_portfolio_perms}
use resource_mgmt_app.Checkout.{is_checked_out}
use resource_mgmt_app.Lifecycle.{reset_submitted_to_draft}
use resource_mgmt_app.Actions.{
  Page, perms_of, pull_back_deadline_passed, all_reviews_pending, techops_return_options,
  techops_request_pull_back,
}

-- A department takes a request back only as an editor who is no admin, while it is submitted, before the
-- deadline is over, with nobody in it, and before any review of a group is decided; it is a draft then.
-- Otherwise the request stays as it is.
pub techops_request_pull_back_guards :
    (day_end : ℕ → ℕ) (page : Page) (item : WorkItem)
    → let (outcome, item') = techops_request_pull_back day_end page item in
      (is_done outcome ≡ true
        → (item'.status ≡ ItemStatus.draft)
          × ((perms_of page item).is_worktype_admin ≡ false)
          × ((build_portfolio_perms page.ctx page.request page.items).can_edit ≡ true)
          × (is_submitted item.status ≡ true)
          × (pull_back_deadline_passed day_end item.portfolio.event_cycle page.request.now ≡ false)
          × (is_checked_out item page.request.now ≡ false)
          × (all_reviews_pending item ≡ true))
      × (is_done outcome ≡ false → item' ≡ item)
unfolding techops_request_pull_back techops_return_options reset_submitted_to_draft
techops_request_pull_back_guards day_end page item = (
  λ h. (
    ground arith,
    ground arith,
    ground arith,
    ground arith,
    ground arith,
    ground arith,
    ground arith,
  ),
  λ h. ground arith,
)

-- ===== src/Checkout/Lock.antt =====
-- What one checkout, one check-in and one sweep of expired locks do.
use resource_mgmt_app.Base.{
  ℕ, ◌+◌, ◌*◌, ◌≡◌, refl, Bool, true, false, ◌&&◌, ◌||◌, List, [], ◌∷◌, map, arith, is_some, ltb,
  length, select,
}
use resource_mgmt_app.Model.{WorkItem, is_submitted}
use resource_mgmt_app.Access.{Request, is_group_final, is_worktype_admin, user_holds_checkout}
use resource_mgmt_app.Checkout.{
  Timeouts, get_checkout_timeout_minutes, is_checked_out, checkout_work_item, release,
  checkin_work_item, is_expired, release_expired_checkouts,
}

module _ (timeouts : Timeouts) (item : WorkItem) (r : Request) where
  -- A checkout succeeds only on a submitted request whose lock is not live, and whose work type
  -- has an admin-final stage or no configuration. After it the user holds the lock, and it is live
  -- at exactly the times before the timeout has passed.
  pub checkout_work_item_takes_lock :
      let (item', done) = checkout_work_item timeouts item r in
      done ≡ true
      → (is_submitted item.status ≡ true)
        × (is_group_final item.portfolio ≡ false)
        × (is_checked_out item r.now ≡ false)
        × (user_holds_checkout item' r ≡ true)
        × ((t : ℕ)
            → is_checked_out item' t ≡ ltb t (r.now + 60 * get_checkout_timeout_minutes timeouts r))
  unfolding checkout_work_item
  checkout_work_item_takes_lock h =
      (ground arith, ground arith, ground arith, ground arith, λ t. ground arith)

  -- A refused checkout leaves the request as it was.
  pub checkout_work_item_refused :
      (checkout_work_item timeouts item r).1 ≡ false → (checkout_work_item timeouts item r).0 ≡ item
  unfolding checkout_work_item
  checkout_work_item_refused h = ground arith

-- A check-in releases the lock exactly when somebody holds it and either the user is the holder, or
-- the user forces it as an admin of the work type; otherwise the request is as it was.
pub checkin_work_item_iff :
    (item : WorkItem) (r : Request) (force : Bool)
    → ((checkin_work_item item r force).1 ≡ (
        is_some item.checked_out_by_user_id
        && (user_holds_checkout item r
            || (is_worktype_admin r item.portfolio.work_type.id && force))))
      × ((checkin_work_item item r force).1 ≡ true
          → (checkin_work_item item r force).0 ≡ release item)
      × ((checkin_work_item item r force).1 ≡ false → (checkin_work_item item r force).0 ≡ item)
unfolding checkin_work_item
checkin_work_item_iff item r force = ground arith

-- The sweep leaves no expired lock, changes which locks are live on no request, and counts the
-- locks that it released.
pub release_expired_checkouts_sweeps :
    (now : ℕ) (items : List WorkItem)
    → let (items', count) = release_expired_checkouts now items in
      (select (is_expired now) items' ≡ [])
      × (map (λ i. is_checked_out i now) items' ≡ map (λ i. is_checked_out i now) items)
      × (count ≡ length (select (is_expired now) items))
unfolding release_expired_checkouts is_expired is_checked_out
release_expired_checkouts_sweeps now [] = (refl, refl, refl)
release_expired_checkouts_sweeps now (i ∷ items) =
    ground (arith, release_expired_checkouts_sweeps now items)

-- ===== src/Actions/Lock.antt =====
-- What the handlers do to a live review lock of another user.
use resource_mgmt_app.Base.{
  ℕ, ◌≡◌, ◌≢◌, ◌<◌, inl, inr, refl, ◌∙◌, Bool, true, false, Option, none, some, [], arith,
  Bool-cases, subst, sym,
}
use resource_mgmt_app.Base.Int.{ℤ}
use resource_mgmt_app.Base.Text.{Text}
use resource_mgmt_app.Model.{WorkItem, PortfolioContext, ReviewAction}
use resource_mgmt_app.Access.{Request, user_holds_checkout}
use resource_mgmt_app.Outcome.{Outcome, is_done}
use resource_mgmt_app.Checkout.{
  Timeouts, KeepsLock, IsHeld, is_checked_out, can_checkout, checkout_work_item, checkin_work_item,
}
use resource_mgmt_app.Lifecycle.{recall_to_draft, submit_work_item}
use resource_mgmt_app.Lifecycle.Lock.{submit_work_item-KeepsLock, try_auto_finalize-KeepsLock}
use resource_mgmt_app.Dispatch.Lock.{assign_approval_groups-KeepsLock, dispatch_to_queue-KeepsLock}
use resource_mgmt_app.Reviews.{apply_review_decision, reopen_item, decide_line, put_line, settle}
use resource_mgmt_app.Reviews.Transitions.{Taken-done, apply_review_decision_refused}
use resource_mgmt_app.AdminFinal.Finalize.{
  finalize_work_item, finalize_item, release_if_approved, unpause,
}
use resource_mgmt_app.AdminFinal.Unfinalize.{unfinalize_work_item, unfinalize_item, pause}
use resource_mgmt_app.Actions.{
  Page, by, perms_of, submitted_or, submit_checked, missing_details, checked_out_as, checked_in_as,
  work_item_submit, work_item_recall, work_item_checkout, work_item_checkin,
  work_item_grant_extension, work_item_revoke_extension, techops_return_options,
  techops_request_pull_back, techops_request_send_back,
}
use resource_mgmt_app.Actions.Diagram.{Call, call}

-- who calls, and when
abbrev pub caller : Call → Request
caller (Call.submit page _) = by page
caller (Call.recall page) = by page
caller (Call.checkout _ page) = by page
caller (Call.checkin page) = by page
caller (Call.grant page) = by page
caller (Call.revoke page) = by page
caller (Call.pull_back _ page) = by page
caller (Call.send_back _ page _) = by page
caller (Call.assign r _ _) = r
caller (Call.dispatch r _ _ _) = r
caller (Call.decide r _ _ _ _ _ _) = r
caller (Call.finalize r _ _) = r
caller (Call.unfinalize r _ _) = r
caller (Call.sibling_unfinalized r _) = r
caller (Call.sibling_finalized r) = r

-- a check-in by an admin, who may force it
abbrev pub is_forced : Call → WorkItem → Bool
is_forced (Call.checkin page) item = (perms_of page item).is_worktype_admin
is_forced _ item = false

submitted-KeepsLock :
    (item : WorkItem) (o : Option WorkItem)
    → ((item' : WorkItem) → o ≡ some item' → KeepsLock item item')
    → KeepsLock item (submitted_or item o).1
unfolding submitted_or
submitted-KeepsLock item none f = (refl, refl)
submitted-KeepsLock item (some item') f = f item' refl

checked-KeepsLock :
    (page : Page) (next : ℕ) (item : WorkItem) (o : Option ℕ)
    → KeepsLock item (submit_checked page next item o).1
unfolding submit_checked
checked-KeepsLock page next item (some n) = (refl, refl)
checked-KeepsLock page next item none =
    submitted-KeepsLock item (submit_work_item (by page) next item)
      (submit_work_item-KeepsLock (by page) next item)

submit-KeepsLock :
    (page : Page) (next : ℕ) (item : WorkItem) → KeepsLock item (work_item_submit page next item).1
unfolding work_item_submit
submit-KeepsLock page next item =
    let (user, expires) = checked-KeepsLock page next item (missing_details item.lines) in
    (ground (arith, user), ground (arith, expires))

reopen-KeepsLock :
    (r : Request) (action : ReviewAction) (words : Option Text) (number : ℕ) (item : WorkItem)
    → KeepsLock item (reopen_item r action words number item)
unfolding reopen_item
reopen-KeepsLock r action words number item = (ground arith, ground arith)

decide-KeepsLock :
    (r : Request) (ctx : Option PortfolioContext) (action : ReviewAction) (words : Option Text)
    (amount : Option ℤ) (line_id review_id : ℕ) (item : WorkItem)
    → KeepsLock item (apply_review_decision r ctx action words amount line_id review_id item).1
unfolding settle
decide-KeepsLock r ctx action words amount line_id review_id item =
    let x : Outcome × WorkItem =
      apply_review_decision r ctx action words amount line_id review_id item in
    let (kept, _, _) =
      apply_review_decision_refused r ctx action words amount line_id review_id item in
    elim (Bool-cases (is_done x.0)) [
      | inr h ↦ subst (KeepsLock item) (sym (kept h)) (refl, refl)
      | inl h ↦
          let (line, review, s, (_, _, _, e)) =
            Taken-done r ctx action words amount line_id review_id item h in
          let decided = put_line (decide_line r action words amount s review line) item in
          let reopened = reopen_item r action words line.line_number decided in
          let (u, t) = reopen-KeepsLock r action words line.line_number decided in
          let (u', t') = try_auto_finalize-KeepsLock r reopened in
          subst (λ (y : Outcome × WorkItem). KeepsLock item y.1) (sym e) (u' ∙ u, t' ∙ t)
    ]

finalize-KeepsLock :
    (r : Request) (words : Option Text) (next : ℕ) (item : WorkItem)
    → KeepsLock item (finalize_work_item r words next item []).1
unfolding finalize_work_item finalize_item release_if_approved
finalize-KeepsLock r words next item = (ground arith, ground arith)

unpause-KeepsLock : (r : Request) (item : WorkItem) → KeepsLock item (unpause r item)
unfolding unpause
unpause-KeepsLock r item = (ground arith, ground arith)

recall-KeepsLock : (page : Page) (item : WorkItem) → KeepsLock item (work_item_recall page item).1
unfolding work_item_recall recall_to_draft
recall-KeepsLock page item = (ground arith, ground arith)

grant-KeepsLock :
    (page : Page) (item : WorkItem) → KeepsLock item (work_item_grant_extension page item).1
unfolding work_item_grant_extension
grant-KeepsLock page item = (ground arith, ground arith)

revoke-KeepsLock :
    (page : Page) (item : WorkItem) → KeepsLock item (work_item_revoke_extension page item).1
unfolding work_item_revoke_extension
revoke-KeepsLock page item = (ground arith, ground arith)

unfinalize-KeepsLock :
    (r : Request) (words : Option Text) (reset : Bool) (item : WorkItem)
    → KeepsLock item (unfinalize_work_item r words reset item []).1
unfolding unfinalize_work_item unfinalize_item
unfinalize-KeepsLock r words reset item = (ground arith, ground arith)

pause-KeepsLock :
    (r : Request) (words : Option Text) (item : WorkItem) → KeepsLock item (pause r words item)
unfolding pause
pause-KeepsLock r words item = (ground arith, ground arith)

module _ (holder now expires_at : ℕ) (live : now < expires_at) (item : WorkItem)
    (held : IsHeld holder expires_at item) where
  is_live : is_checked_out item now ≡ true
  unfolding is_checked_out
  is_live = ground arith

  module _ (page : Page) (on_time : page.request.now ≡ now)
      (other : page.ctx.user_ctx.user_id ≢ holder) where
    checkout-KeepsLock :
        (timeouts : Timeouts) → KeepsLock item (work_item_checkout timeouts page item).1
    unfolding work_item_checkout checkout_work_item can_checkout checked_out_as is_checked_out
    checkout-KeepsLock timeouts = (ground arith, ground arith)

    checkin-KeepsLock :
        (perms_of page item).is_worktype_admin ≡ false
        → KeepsLock item (work_item_checkin page item).1
    unfolding work_item_checkin checkin_work_item checked_in_as user_holds_checkout
    checkin-KeepsLock f = (ground arith, ground arith)

    pull_back-KeepsLock :
        (day_end : ℕ → ℕ) → KeepsLock item (techops_request_pull_back day_end page item).1
    unfolding techops_request_pull_back techops_return_options is_checked_out
    pull_back-KeepsLock day_end = (ground arith, ground arith)

    send_back-KeepsLock :
        (day_end : ℕ → ℕ) (words : Option Text)
        → KeepsLock item (techops_request_send_back day_end page words item).1
    unfolding techops_request_send_back techops_return_options is_checked_out
    send_back-KeepsLock day_end words = (ground arith, ground arith)

  -- a call by another user, short of an admin's check-in, leaves a live lock to its holder
  pub call-KeepsLock :
      (c : Call)
      → (caller c).now ≡ now
      → (caller c).user_ctx.user_id ≢ holder
      → is_forced c item ≡ false
      → KeepsLock item (call c item)
  unfolding call
  call-KeepsLock (Call.submit page next) t u f = submit-KeepsLock page next item
  call-KeepsLock (Call.recall page) t u f = recall-KeepsLock page item
  call-KeepsLock (Call.checkout timeouts page) t u f = checkout-KeepsLock page t u timeouts
  call-KeepsLock (Call.checkin page) t u f = checkin-KeepsLock page t u f
  call-KeepsLock (Call.grant page) t u f = grant-KeepsLock page item
  call-KeepsLock (Call.revoke page) t u f = revoke-KeepsLock page item
  call-KeepsLock (Call.pull_back day_end page) t u f = pull_back-KeepsLock page t u day_end
  call-KeepsLock (Call.send_back day_end page words) t u f =
      send_back-KeepsLock page t u day_end words
  call-KeepsLock (Call.assign r groups form) t u f =
      assign_approval_groups-KeepsLock r groups form item
  call-KeepsLock (Call.dispatch r groups form next) t u f =
      dispatch_to_queue-KeepsLock r groups form item next
  call-KeepsLock (Call.decide r ctx action words amount line_id review_id) t u f =
      decide-KeepsLock r ctx action words amount line_id review_id item
  call-KeepsLock (Call.finalize r words next) t u f = finalize-KeepsLock r words next item
  call-KeepsLock (Call.unfinalize r words reset) t u f = unfinalize-KeepsLock r words reset item
  call-KeepsLock (Call.sibling_unfinalized r words) t u f = pause-KeepsLock r words item
  call-KeepsLock (Call.sibling_finalized r) t u f = unpause-KeepsLock r item

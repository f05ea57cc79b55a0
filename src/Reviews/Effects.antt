-- ===== src/Reviews/Effects.antt =====
-- What a decision that is taken writes.
use resource_mgmt_app.Base.{
  ℕ, ◌+◌, ◌≡◌, refl, ◌∙◌, sym, subst, true, Option, some, [], ◌∷◌, arith, length, find?,
  update_first, find?-update_key, length-append, ◌==◌, is_some, if◌then◌else◌,
}
use resource_mgmt_app.Base.Int.{ℤ}
use resource_mgmt_app.Base.Text.{Text, strip_or_none}
use resource_mgmt_app.Model.{
  ReviewStatus, ReviewAction, WorkLine, WorkLineReview, WorkItem, PortfolioContext, is_kickback,
  is_approval,
}
use resource_mgmt_app.Access.{Request}
use resource_mgmt_app.Lifecycle.{try_auto_finalize}
use resource_mgmt_app.Outcome.{Outcome, is_done}
use resource_mgmt_app.Reviews.{
  accept, line_status_of, sync_line_status, create_line_audit_event, decide_review, decide_line,
  reopen_item, find_line, find_review, put_line, settle, apply_review_decision,
}
use resource_mgmt_app.Reviews.Transitions.{
  Taken, Taken-done, Edge, validate_review_transition_sound,
}

-- steps 6b and 7 do not touch the lines
pub lines_of_try_auto_finalize :
    (r : Request) (item : WorkItem) → (try_auto_finalize r item).0.lines ≡ item.lines
unfolding try_auto_finalize
lines_of_try_auto_finalize r item = ground arith

pub lines_of_reopen_item :
    (r : Request) (action : ReviewAction) (note : Option Text) (n : ℕ) (item : WorkItem)
    → (reopen_item r action note n item).lines ≡ item.lines
unfolding reopen_item
lines_of_reopen_item r action _ n item = ground arith

-- A line as a decision on its review leaves it: the review has the new status, the decider, the time
-- and the note, and its amount is the one given if the action is an approval; the line's status
-- mirrors the review, and it waits for the requester exactly if it was kicked back; one audit event
-- is added.
pub record IsDecided (r : Request) (action : ReviewAction) (note : Option Text)
    (amount_cents : Option ℤ) (new_status : ReviewStatus) (review review' : WorkLineReview)
    (line line' : WorkLine) : Type 0 where
  pub new_review : review'.status ≡ new_status
  pub decider : review'.decided_by_user_id ≡ some r.user_ctx.user_id
  pub time : review'.decided_at ≡ some r.now
  pub stripped : review'.note ≡ strip_or_none note
  pub amount : review'.approved_amount_cents ≡ (
      if is_approval action
      then (if is_some amount_cents then amount_cents else review.approved_amount_cents)
      else review.approved_amount_cents)
  pub mirrored : line'.status ≡ line_status_of new_status
  pub waiting : line'.needs_requester_action ≡ is_kickback new_status
  pub audited : length line'.audit_events ≡ length line.audit_events + 1
  pub same_amount : line'.approved_amount_cents ≡ line.approved_amount_cents

module _ (r : Request) (action : ReviewAction) (note : Option Text) (amount_cents : Option ℤ)
    (new_status : ReviewStatus) (review : WorkLineReview) (line : WorkLine) where
  abbrev review' : WorkLineReview
  review' = decide_review r action note amount_cents new_status review

  abbrev line' : WorkLine
  line' = decide_line r action note amount_cents new_status review line

  decide_line-IsDecided : IsDecided r action note amount_cents new_status review review' line line'
  unfolding decide_line decide_review sync_line_status create_line_audit_event
  decide_line-IsDecided = record {
    new_review = refl;
    decider = refl;
    time = refl;
    stripped = refl;
    amount = ground arith;
    mirrored = refl;
    waiting = refl;
    audited = length-append line.audit_events (_ ∷ []);
    same_amount = refl;
  }

  pub id-decide_line : line'.id ≡ line.id
  unfolding decide_line sync_line_status create_line_audit_event
  id-decide_line = refl

  pub reviews-decide_line :
      line'.reviews ≡ update_first (λ v. v.id == review.id) (λ _. review') line.reviews
  unfolding decide_line sync_line_status create_line_audit_event
  reviews-decide_line = refl

  pub find_review-decide_line :
      (review_id : ℕ)
      → find_review review_id line ≡ some review
      → find_review review_id line' ≡ some review'
  unfolding decide_line decide_review sync_line_status create_line_audit_event
  find_review-decide_line review_id found =
      find?-update_key (λ v. v.id) review_id line.reviews review review' found refl

pub find_line-put_line :
    (line_id : ℕ) (item : WorkItem) (line new_line : WorkLine)
    → find_line line_id item ≡ some line
    → new_line.id ≡ line.id
    → find_line line_id (put_line new_line item) ≡ some new_line
find_line-put_line line_id item line new_line found same =
    subst
      (λ n.
        find? (λ l. l.id == line_id) (update_first (λ l. l.id == n) (λ _. new_line) item.lines)
        ≡ some new_line)
      (sym same) (find?-update_key (λ l. l.id) line_id item.lines line new_line found same)

pub lines-settle :
    (r : Request) (action : ReviewAction) (note : Option Text) (amount_cents : Option ℤ)
    (item : WorkItem) (line : WorkLine) (review : WorkLineReview) (s : ReviewStatus)
    → (settle r action note amount_cents item line review (accept s)).1.lines
      ≡ (put_line (decide_line r action note amount_cents s review line) item).lines
unfolding settle
lines-settle r action note amount_cents item line review s =
    lines_of_try_auto_finalize r _ ∙ lines_of_reopen_item r action note line.line_number _

module _ (r : Request) (ctx : Option PortfolioContext) (action : ReviewAction) (note : Option Text)
    (amount_cents : Option ℤ) (line_id review_id : ℕ) (item : WorkItem) where
  abbrev decided : Outcome × WorkItem
  decided = apply_review_decision r ctx action note amount_cents line_id review_id item

  -- A decision that is taken follows an edge of the review's diagram, and writes the review, the line
  -- and the audit trail as `IsDecided` says, on the line and the review with the given ids.
  pub apply_review_decision_writes :
      is_done decided.0 ≡ true
      → (line line' : WorkLine) × (review review' : WorkLineReview) × (s : ReviewStatus)
        × (find_line line_id item ≡ some line)
        × (find_review review_id line ≡ some review)
        × (find_line line_id decided.1 ≡ some line')
        × (find_review review_id line' ≡ some review')
        × Edge review.status action s
        × IsDecided r action note amount_cents s review review' line line'
  apply_review_decision_writes h =
      let (line, review, s, taken) =
        Taken-done r ctx action note amount_cents line_id review_id item h in
      let line' = decide_line r action note amount_cents s review line in
      let sound =
        validate_review_transition_sound r ctx item line review.status action note s taken.2 in
      (
        line,
        line',
        review,
        decide_review r action note amount_cents s review,
        s,
        taken.0,
        taken.1,
        found line review s taken,
        find_review-decide_line r action note amount_cents s review line review_id taken.1,
        sound.0,
        decide_line-IsDecided r action note amount_cents s review line,
      )
    where
      found :
          (line : WorkLine) (review : WorkLineReview) (s : ReviewStatus)
          → Taken r ctx action note amount_cents line_id review_id item line review s
          → find_line line_id decided.1
            ≡ some (decide_line r action note amount_cents s review line)
      found line review s taken = rw taken.3 (
          rw (lines-settle r action note amount_cents item line review s) (
            find_line-put_line line_id item line _ taken.0
              (id-decide_line r action note amount_cents s review line)))

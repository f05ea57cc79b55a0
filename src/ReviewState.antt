-- ===== src/ReviewState.antt =====
-- app/routes/work/helpers/review_state.py: who must act next on a line, read from its two reviews.
use resource_mgmt_app.Base.{
  Bool, true, false, not, ◌&&◌, ◌||◌, Option, none, some, find?, if◌then◌else◌,
}
use resource_mgmt_app.Model.{
  WorkTypeConfig, WorkLine, WorkLineReview, WorkPortfolio, is_approval_group, is_admin_final,
  is_kickback, is_group_decided, is_admin_decided, is_pending_review,
}

pub data Awaiting : Type 0 where
  reviewer_group admin requester done : Awaiting

pub record LineReviewState : Type 0 where
  pub ag : Option WorkLineReview
  pub admin_review : Option WorkLineReview
  pub has_admin_stage : Bool
  pub awaiting : Awaiting
  pub kickback_review : Option WorkLineReview

admin_stage_of : Option WorkTypeConfig → Bool
admin_stage_of none = false
admin_stage_of (some config) = config.has_admin_final

-- `_has_admin_stage`
unfoldable pub has_admin_stage : WorkPortfolio → Bool
unfolding admin_stage_of
has_admin_stage portfolio = admin_stage_of portfolio.work_type.config

-- the first review of a stage, and the first of the admin-final stage
unfoldable pub group_review : WorkLine → Option WorkLineReview
group_review line = find? (λ v. is_approval_group v.stage) line.reviews

unfoldable pub get_admin_final_review : WorkLine → Option WorkLineReview
get_admin_final_review line = find? (λ v. is_admin_final v.stage) line.reviews

-- `review is not None and review.status in …`
abbrev pub kicked_back : Option WorkLineReview → Bool
kicked_back none = false
kicked_back (some v) = is_kickback v.status

abbrev pub group_decided : Option WorkLineReview → Bool
group_decided none = false
group_decided (some v) = is_group_decided v.status

abbrev pub admin_decided : Option WorkLineReview → Bool
admin_decided none = false
admin_decided (some v) = is_admin_decided v.status

-- `ag is None or ag.status == PENDING`
abbrev pub group_pending : Option WorkLineReview → Bool
group_pending none = true
group_pending (some v) = is_pending_review v.status

unfoldable pub get_awaiting : Bool → Option WorkLineReview → Option WorkLineReview → Awaiting
get_awaiting admin_stage ag admin_review =
    if kicked_back admin_review || kicked_back ag
    then Awaiting.requester
    else if admin_stage && admin_decided admin_review
    then Awaiting.done
    else if not admin_stage && group_decided ag
    then Awaiting.done
    else if group_pending ag
    then Awaiting.reviewer_group
    else if admin_stage
    then Awaiting.admin
    else Awaiting.done

kickback_of : Option WorkLineReview → Option WorkLineReview → Option WorkLineReview
kickback_of ag admin_review =
    if kicked_back admin_review then admin_review else if kicked_back ag then ag else none

unfoldable pub get_line_review_state : WorkPortfolio → WorkLine → LineReviewState
unfolding has_admin_stage group_review get_admin_final_review get_awaiting kickback_of
get_line_review_state portfolio line =
    let ag = group_review line in
    let admin_review = get_admin_final_review line in
    record {
      ag = ag;
      admin_review = admin_review;
      has_admin_stage = has_admin_stage portfolio;
      awaiting = get_awaiting (has_admin_stage portfolio) ag admin_review;
      kickback_review = kickback_of ag admin_review;
    }

abbrev pub is_awaiting_group : Awaiting → Bool
is_awaiting_group Awaiting.reviewer_group = true
is_awaiting_group _ = false

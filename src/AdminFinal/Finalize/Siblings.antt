-- ===== src/AdminFinal/Finalize/Siblings.antt =====
-- When a paused request goes on, told by its lines' own columns.
use resource_mgmt_app.Base.{
  ◌≡◌, refl, Bool, true, false, ◌&&◌, ◌||◌, Option, none, some, is_some, List, [], ◌∷◌, all, any,
  arith, map, ℕ,
}
use resource_mgmt_app.Base.Text.{Text}
use resource_mgmt_app.Model.{
  BudgetLineDetail, WorkLine, WorkLineReview, WorkItem, is_approval_group, is_primary,
}
use resource_mgmt_app.Access.{Request}
use resource_mgmt_app.Outcome.{is_done}
use resource_mgmt_app.AdminFinal.Finalize.{
  LineReviews, load_review, load_reviews, batch_load_reviews_by_line, is_routed, can_unpause,
  unpause, finalize_work_item,
}

abbrev pub has_group : Option BudgetLineDetail → Bool
has_group none = false
has_group (some d) = is_some d.routed_approval_group

-- a line with a booking that has its group, and with a review of that stage
abbrev pub is_in_review : WorkLine → Bool
is_in_review line =
    has_group line.budget_detail && any (λ v. is_approval_group v.stage) line.reviews

load_reviews_ag :
    (vs : List WorkLineReview) (loaded : LineReviews)
    → is_some (load_reviews vs loaded).ag
      ≡ (is_some loaded.ag || any (λ v. is_approval_group v.stage) vs)
unfolding load_reviews load_review
load_reviews_ag [] loaded = ground arith
load_reviews_ag (v ∷ vs) loaded = ground (arith, load_reviews_ag vs (load_review v loaded))

loaded_group :
    (line : WorkLine)
    → (is_routed line.budget_detail && is_some (batch_load_reviews_by_line line).ag)
      ≡ is_in_review line
unfolding is_routed batch_load_reviews_by_line
loaded_group line =
    ground (arith, load_reviews_ag line.reviews (record { admin = none; ag = none }))

all_loaded :
    (lines : List WorkLine)
    → all
        (λ line. is_routed line.budget_detail && is_some (batch_load_reviews_by_line line).ag)
        lines
      ≡ all is_in_review lines
all_loaded [] = refl
all_loaded (line ∷ lines) = rw (loaded_group line) (rw (all_loaded lines) refl)

pub can_unpause_lem : (supp : WorkItem) → can_unpause supp ≡ all is_in_review supp.lines
unfolding can_unpause
can_unpause_lem supp = all_loaded supp.lines

-- the other requests after the finalization of a primary one
pub finalize_work_item_others :
    (r : Request) (words : Option Text) (next : ℕ) (item : WorkItem) (others : List WorkItem)
    → is_primary item.request_kind ≡ true
    → is_done (finalize_work_item r words next item others).0 ≡ true
    → (finalize_work_item r words next item others).2 ≡ map (unpause r) others
unfolding finalize_work_item
finalize_work_item_others r words next item others p h = ground arith

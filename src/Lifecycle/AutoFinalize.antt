-- ===== src/Lifecycle/AutoFinalize.antt =====
-- When a request without an admin-final stage is finalized by its last review.
use resource_mgmt_app.Base.{◌≡◌, refl, true, false, not, ◌&&◌, List, [], ◌∷◌, some, arith, all, any}
use resource_mgmt_app.Model.{
  ItemStatus, WorkLineReview, WorkItem, is_finalized, is_group_decided, is_open_review,
}
use resource_mgmt_app.Access.{Request, is_group_final}
use resource_mgmt_app.Lifecycle.{group_reviews, has_rows, may_auto_finalize, try_auto_finalize}

-- a review is open or it has a terminal decision
pub not_open-all :
    (vs : List WorkLineReview)
    → not (any (λ v. is_open_review v.status) vs) ≡ all (λ v. is_group_decided v.status) vs
not_open-all [] = refl
not_open-all (v ∷ vs) = ground (arith, not_open-all vs)

-- The transition fires exactly when the request is not final yet, its work type is configured without
-- an admin-final stage, and it has approval-group reviews, every one of them with a terminal
-- decision. Then the request is FINALIZED, by this user at this time; otherwise nothing changes.
pub try_auto_finalize_iff :
    (r : Request) (item : WorkItem)
    → let (item', fired) = try_auto_finalize r item in
      (fired ≡ (
        not (is_finalized item.status)
        && is_group_final item.portfolio
        && has_rows (group_reviews item.lines)
        && all (λ v. is_group_decided v.status) (group_reviews item.lines)))
      × (fired ≡ true
          → (item'.status ≡ ItemStatus.finalized)
            × (item'.finalized_at ≡ some r.now)
            × (item'.finalized_by_user_id ≡ some r.user_ctx.user_id))
      × (fired ≡ false → item' ≡ item)
unfolding try_auto_finalize may_auto_finalize
try_auto_finalize_iff r item =
    (ground (arith, not_open-all (group_reviews item.lines)), ground arith, ground arith)

-- ===== src/AdminFinal/LineTools/Correction.antt =====
-- What a correction of a line's account leaves.
use resource_mgmt_app.Base.{◌≡◌, some}
use resource_mgmt_app.Base.Text.{Text}
use resource_mgmt_app.Model.{
  ApprovalGroup, BudgetLineDetail, ReviewStatus, WorkLine, WorkLineReview, WorkPortfolio,
}
use resource_mgmt_app.ReviewState.{group_review}
use resource_mgmt_app.Model.{ReviewStage}
use resource_mgmt_app.AdminFinal.LineTools.{AccountChange, correct_detail}
use resource_mgmt_app.AdminFinal.Rereview.{IsBackInReview}

-- the group's review is of this group, and pending
abbrev pub IsPendingWith : ApprovalGroup → WorkLine → Type 0
IsPendingWith group line =
    (v : WorkLineReview) × (group_review line ≡ some v)
    × (v.approval_group ≡ some group)
    × (v.status ≡ ReviewStatus.pending)

-- the line before its audit and comment
abbrev staged : WorkLine → WorkLine
staged line = record line { current_review_stage = some ReviewStage.approval_group }

abbrev IsRerouted : WorkPortfolio → ApprovalGroup → WorkLine → WorkLine → Type 0
IsRerouted portfolio group line line' =
    IsBackInReview portfolio line'
    × IsPendingWith group line'
    × (line'.budget_detail ≡ line.budget_detail)

-- a line with the new booking, back in review by the new group
abbrev pub IsCorrected : AccountChange → WorkPortfolio → BudgetLineDetail → WorkLine → Type 0
IsCorrected c portfolio d line' =
    IsBackInReview portfolio line'
    × IsPendingWith c.new_group line'
    × (line'.budget_detail ≡ some (correct_detail c d))

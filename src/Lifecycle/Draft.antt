-- ===== src/Lifecycle/Draft.antt =====
-- The ways back to a draft.
use resource_mgmt_app.Base.{◌≡◌, Bool, true, false, ◌&&◌, none, List, [], ◌∷◌, all, leb}
use resource_mgmt_app.Base.Text.{Text}
use resource_mgmt_app.Model.{LineStatus, WorkLine, DeletedReview}
use resource_mgmt_app.Base.Each.{Each}
use resource_mgmt_app.LineDetails.{get_line_amount_cents, get_line_routing_approval_group}

-- the line numbers of a snapshot ascend
abbrev pub is_ascending : List DeletedReview → Bool
is_ascending [] = true
is_ascending (d ∷ ds) = all (λ e. leb d.line_number e.line_number) ds && is_ascending ds

-- a line without reviews that keeps what was booked
abbrev pub IsCleared : WorkLine → WorkLine → Type 0
IsCleared line line' =
    (line'.reviews ≡ [])
    × (line'.status ≡ LineStatus.pending)
    × (line'.needs_requester_action ≡ false)
    × (line'.current_review_stage ≡ none)
    × (get_line_amount_cents line' ≡ get_line_amount_cents line)
    × (get_line_routing_approval_group line' ≡ get_line_routing_approval_group line)

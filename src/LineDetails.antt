-- ===== src/LineDetails.antt =====
-- app/line_details.py: the details of a line, whichever work type it belongs to.
pub mod Rounding
pub mod Routing
use resource_mgmt_app.Base.{
  ℕ, ◌+◌, ◌*◌, ◌/◌, Bool, true, false, Option, none, some, ◌==◌, if◌then◌else◌,
}
use resource_mgmt_app.Base.Text.{Text, text}
use resource_mgmt_app.Model.{
  BudgetLineDetail, ContractLineDetail, SupplyOrderLineDetail, TechOpsLineDetail, ApprovalGroup,
  SupplyItem, WorkLine,
}

-- `LineDetail = Union[…]`
pub data LineDetail : Type 0 where
  budget : BudgetLineDetail → LineDetail
  contract : ContractLineDetail → LineDetail
  supply : SupplyOrderLineDetail → LineDetail
  techops : TechOpsLineDetail → LineDetail

first_detail :
    Option BudgetLineDetail
    → Option ContractLineDetail
    → Option SupplyOrderLineDetail
    → Option TechOpsLineDetail
    → Option LineDetail
first_detail (some b) c s t = some (LineDetail.budget b)
first_detail none (some c) s t = some (LineDetail.contract c)
first_detail none none (some s) t = some (LineDetail.supply s)
first_detail none none none (some t) = some (LineDetail.techops t)
first_detail none none none none = none

unfoldable pub get_line_detail : WorkLine → Option LineDetail
unfolding first_detail
get_line_detail line =
    first_detail line.budget_detail line.contract_detail line.supply_detail line.techops_detail

-- The product of cents and thousandths, rounded half up to the cent; 0 for a missing factor.
unfoldable pub compute_line_amount_cents : Option ℕ → Option ℕ → ℕ
compute_line_amount_cents none quantity = 0
compute_line_amount_cents (some unit_price_cents) none = 0
compute_line_amount_cents (some unit_price_cents) (some quantity) =
    if unit_price_cents == 0 then 0 else (unit_price_cents * quantity + 500) / 1000

-- `if detail.item and detail.item.unit_cost_cents: …`
priced : Option ℕ → ℕ → ℕ
priced none quantity = 0
priced (some unit_cost_cents) quantity =
    if unit_cost_cents == 0 then 0 else unit_cost_cents * quantity

supply_amount : Option SupplyItem → ℕ → ℕ
unfolding priced
supply_amount none quantity = 0
supply_amount (some item) quantity = priced item.unit_cost_cents quantity

detail_amount_cents : Option LineDetail → ℕ
unfolding supply_amount compute_line_amount_cents
detail_amount_cents none = 0
detail_amount_cents (some (LineDetail.budget b)) =
    compute_line_amount_cents (some b.unit_price_cents) (some b.quantity)
detail_amount_cents (some (LineDetail.contract c)) = c.contract_amount_cents
detail_amount_cents (some (LineDetail.supply s)) = supply_amount s.item s.quantity_requested
detail_amount_cents (some (LineDetail.techops t)) = 0

unfoldable pub get_line_amount_cents : WorkLine → ℕ
unfolding get_line_detail detail_amount_cents
get_line_amount_cents line = detail_amount_cents (get_line_detail line)

detail_description : Option LineDetail → Option Text
detail_description none = none
detail_description (some (LineDetail.budget b)) = b.description
detail_description (some (LineDetail.contract c)) = c.description
detail_description (some (LineDetail.supply s)) = s.requester_notes
detail_description (some (LineDetail.techops t)) = t.description

unfoldable pub get_line_description : WorkLine → Option Text
unfolding get_line_detail detail_description
get_line_description line = detail_description (get_line_detail line)

detail_group : Option LineDetail → Option ApprovalGroup
detail_group none = none
detail_group (some (LineDetail.budget b)) = b.routed_approval_group
detail_group (some (LineDetail.contract c)) = c.routed_approval_group
detail_group (some (LineDetail.supply s)) = s.routed_approval_group
detail_group (some (LineDetail.techops t)) = t.routed_approval_group

unfoldable pub get_line_routing_approval_group : WorkLine → Option ApprovalGroup
unfolding get_line_detail detail_group
get_line_routing_approval_group line = detail_group (get_line_detail line)

type_name : Option LineDetail → Text
type_name none = text "unknown"
type_name (some (LineDetail.budget b)) = text "budget"
type_name (some (LineDetail.contract c)) = text "contract"
type_name (some (LineDetail.supply s)) = text "supply"
type_name (some (LineDetail.techops t)) = text "techops"

unfoldable pub get_line_type_name : WorkLine → Text
unfolding get_line_detail type_name
get_line_type_name line = type_name (get_line_detail line)

-- the write to the detail row that `get_line_detail` found
set_group : Option LineDetail → Option ApprovalGroup → WorkLine → WorkLine × Bool
set_group none group line = (line, false)
set_group (some (LineDetail.budget b)) group line =
    (record line { budget_detail = some (record b { routed_approval_group = group }) }, true)
set_group (some (LineDetail.contract c)) group line =
    (record line { contract_detail = some (record c { routed_approval_group = group }) }, true)
set_group (some (LineDetail.supply s)) group line =
    (record line { supply_detail = some (record s { routed_approval_group = group }) }, true)
set_group (some (LineDetail.techops t)) group line =
    (record line { techops_detail = some (record t { routed_approval_group = group }) }, true)

unfoldable pub set_line_routing_approval_group : WorkLine → Option ApprovalGroup → WorkLine × Bool
unfolding get_line_detail set_group
set_line_routing_approval_group line group = set_group (get_line_detail line) group line

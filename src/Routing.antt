-- ===== src/Routing.antt =====
-- app/routing: which approval group reviews a line.
use resource_mgmt_app.Base.{ℕ, Option, none, some, ◌==◌, if◌then◌else◌}
use resource_mgmt_app.Model.{
  ApprovalGroup, RoutingStrategy, WorkTypeConfig, BudgetLineDetail, ContractLineDetail,
  ContractType, SupplyOrderLineDetail, SupplyItem, TechOpsLineDetail, TechOpsServiceType, WorkLine,
  WorkPortfolio,
}

-- a group, none, or a ValueError
pub data Routed : Type 0 where
  to_group : ApprovalGroup → Routed
  no_group : Routed
  value_error : Routed

-- ExpenseAccountRoutingStrategy
by_expense_account : Option BudgetLineDetail → Option ApprovalGroup
by_expense_account none = none
by_expense_account (some detail) = detail.expense_account.approval_group

contract_type_group : Option ContractType → Option ApprovalGroup
contract_type_group none = none
contract_type_group (some contract_type) = contract_type.approval_group

-- ContractTypeRoutingStrategy
by_contract_type : Option ContractLineDetail → Option ApprovalGroup
unfolding contract_type_group
by_contract_type none = none
by_contract_type (some detail) = contract_type_group detail.contract_type

by_service_type : Option TechOpsServiceType → Option ApprovalGroup
by_service_type none = none
by_service_type (some service_type) = service_type.default_approval_group

by_techops_detail : Option TechOpsLineDetail → Option ApprovalGroup
unfolding by_service_type
by_techops_detail none = none
by_techops_detail (some detail) = by_service_type detail.service_type

by_supply_item : Option SupplyItem → Option TechOpsLineDetail → Option ApprovalGroup
unfolding by_techops_detail
by_supply_item none techops = by_techops_detail techops
by_supply_item (some item) techops = item.category_approval_group

-- CategoryRoutingStrategy
by_category : Option SupplyOrderLineDetail → Option TechOpsLineDetail → Option ApprovalGroup
unfolding by_supply_item by_techops_detail
by_category none techops = by_techops_detail techops
by_category (some detail) techops = by_supply_item detail.item techops

-- the answer of the strategy, checked against the work type of the line
checked : ℕ → Option ApprovalGroup → Routed
checked work_type_id none = no_group
checked work_type_id (some group) =
    if group.work_type_id == work_type_id then to_group group else value_error

-- get_routing_strategy, and the strategy's get_approval_group
by_strategy : RoutingStrategy → WorkTypeConfig → ℕ → WorkLine → Routed
unfolding by_expense_account by_contract_type by_category checked
by_strategy RoutingStrategy.expense_account config id line =
    checked id (by_expense_account line.budget_detail)
by_strategy RoutingStrategy.contract_type config id line =
    checked id (by_contract_type line.contract_detail)
by_strategy RoutingStrategy.category config id line =
    checked id (by_category line.supply_detail line.techops_detail)
by_strategy RoutingStrategy.direct config id line = checked id config.default_approval_group
by_strategy RoutingStrategy.unknown config id line = value_error

by_config : Option WorkTypeConfig → ℕ → WorkLine → Routed
unfolding by_strategy
by_config none id line = no_group
by_config (some config) id line = by_strategy config.routing_strategy config id line

unfoldable pub get_approval_group_for_line : WorkPortfolio → WorkLine → Routed
unfolding by_config
get_approval_group_for_line portfolio line =
    by_config portfolio.work_type.config portfolio.work_type.id line

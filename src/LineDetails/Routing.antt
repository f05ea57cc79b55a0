-- ===== src/LineDetails/Routing.antt =====
-- Writing and reading the routing snapshot.
use resource_mgmt_app.Base.{◌≡◌, Option, true, arith, is_some}
use resource_mgmt_app.Model.{WorkLine, ApprovalGroup}
use resource_mgmt_app.LineDetails.{
  get_line_detail, get_line_routing_approval_group, get_line_amount_cents,
  set_line_routing_approval_group,
}

-- After a routing snapshot is written to a line that has a detail row, of any type, the write says
-- that it happened, the snapshot read back is the group written, and the amount of the line is
-- what it was. A line without a detail row is not changed.
pub get-set_line_routing_approval_group :
    (line : WorkLine) (group : Option ApprovalGroup)
    → let (line', done) = set_line_routing_approval_group line group in
      (done ≡ is_some (get_line_detail line))
      × (done ≡ true → get_line_routing_approval_group line' ≡ group)
      × (get_line_amount_cents line' ≡ get_line_amount_cents line)
unfolding set_line_routing_approval_group get_line_routing_approval_group get_line_amount_cents
get-set_line_routing_approval_group line group = ground arith

-- ===== src/Lifecycle/Lock.antt =====
-- Submission, decision and their auto-finalization leave the review lock.
use resource_mgmt_app.Base.{ℕ, ◌≡◌, Option, none, some, List, arith}
use resource_mgmt_app.Model.{WorkTypeConfig, WorkLine, WorkItem}
use resource_mgmt_app.Access.{Request}
use resource_mgmt_app.Checkout.{KeepsLock}
use resource_mgmt_app.Lifecycle.{
  log_submit, submit_routed, submit_by_config, submit_work_item, route_lines, try_auto_finalize,
}

routed-KeepsLock :
    (r : Request) (item item' : WorkItem) (o : Option (List WorkLine))
    → submit_routed r item o ≡ some item'
    → KeepsLock item item'
unfolding submit_routed log_submit
routed-KeepsLock r item item' none h = cc
routed-KeepsLock r item item' (some lines) h = (ground arith, ground arith)

config-KeepsLock :
    (r : Request) (next : ℕ) (item item' : WorkItem) (o : Option WorkTypeConfig)
    → submit_by_config o r next item ≡ some item'
    → KeepsLock item item'
unfolding submit_by_config log_submit
config-KeepsLock r next item item' none h = cc
config-KeepsLock r next item item' (some config) h =
    ground (arith, routed-KeepsLock r item item' (route_lines r item next item.lines))

pub submit_work_item-KeepsLock :
    (r : Request) (next : ℕ) (item item' : WorkItem)
    → submit_work_item r next item ≡ some item'
    → KeepsLock item item'
unfolding submit_work_item
submit_work_item-KeepsLock r next item item' h =
    config-KeepsLock r next
      (record item { submitted_at = some r.now; submitted_by_user_id = some r.user_ctx.user_id })
      item' item.portfolio.work_type.config h

pub try_auto_finalize-KeepsLock :
    (r : Request) (item : WorkItem) → KeepsLock item (try_auto_finalize r item).0
unfolding try_auto_finalize
try_auto_finalize-KeepsLock r item = (ground arith, ground arith)

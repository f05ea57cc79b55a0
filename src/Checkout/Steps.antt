-- ===== src/Checkout/Steps.antt =====
-- Requests to the handlers, one after another, while one user holds the review lock. Each handler is given
-- the row as the one before left it.
use resource_mgmt_app.Base.{
  ℕ, ◌+◌, ◌<◌, ◌≤◌, ◌≡◌, ◌≢◌, ◌∙◌, subst, sym, false, arith, if◌then◌else◌,
}
use resource_mgmt_app.Model.{WorkItem}
use resource_mgmt_app.Checkout.{release, is_expired, IsHeld}
use resource_mgmt_app.Actions.Diagram.{Call, call}
use resource_mgmt_app.Actions.Lock.{caller, is_forced, call-KeepsLock}

pub record World : Type 0 where
  pub now : ℕ
  pub item : WorkItem

-- the sweep, on the row of this request
unfoldable pub sweep : World → WorkItem
sweep w = if is_expired w.now w.item then release w.item else w.item

-- One step that `holder` does not take: time passes, another user calls a handler, which is no check-in by
-- an admin, or the expired locks are swept.
pub data Step (holder : ℕ) (w w' : World) : Type 0 where
  tick : (d : ℕ) → w' ≡ record w { now = w.now + d } → Step holder w w'
  request :
      (c : Call)
      → (caller c).now ≡ w.now
      → (caller c).user_ctx.user_id ≢ holder
      → is_forced c w.item ≡ false
      → w' ≡ record w { item = call c w.item }
      → Step holder w w'
  expire : w' ≡ record w { item = sweep w } → Step holder w w'

pub data Reach (holder : ℕ) (w : World) : World → Type 0 where
  here : Reach holder w w
  next : {w' w'' : World} → Reach holder w w' → Step holder w' w'' → Reach holder w w''

Step-now_le : {holder : ℕ} {w w' : World} → Step holder w w' → w.now ≤ w'.now
Step-now_le (tick d e) = ground arith
Step-now_le (request c t u f e) = ground arith
Step-now_le (expire e) = ground arith

Step-IsHeld :
    {holder expires_at : ℕ} {w w' : World}
    → Step holder w w'
    → w.now < expires_at
    → IsHeld holder expires_at w.item
    → IsHeld holder expires_at w'.item
unfolding sweep is_expired
Step-IsHeld (tick d e) live held = ground arith
Step-IsHeld {holder} {expires_at} {w} (request c t u f e) live held =
    let (user, expires) = call-KeepsLock holder w.now expires_at live w.item held c t u f in
    subst (λ (v : World). IsHeld holder expires_at v.item) (sym e) (user ∙ held.0, expires ∙ held.1)
Step-IsHeld (expire e) live held = ground arith

-- A user who holds the lock goes on holding it, with the same expiry, until that time comes, whichever
-- handlers in `Call` the other users call, and however often: their checkouts, their check-ins, their
-- decisions, pull-backs and send-backs, and the sweep of expired locks. Only a check-in by an admin is left
-- out, which may be forced. The calls come one after another, and each reads the row as it is then.
pub Reach-IsHeld :
    (holder expires_at : ℕ) (w w' : World)
    → Reach holder w w'
    → w'.now < expires_at
    → IsHeld holder expires_at w.item
    → IsHeld holder expires_at w'.item
Reach-IsHeld holder expires_at w w' here live held = held
Reach-IsHeld holder expires_at w w' (next {w' = v} run step) live held =
    let live' : v.now < expires_at = omega (arith, Step-now_le step) in
    Step-IsHeld step live' (Reach-IsHeld holder expires_at w v run live' held)

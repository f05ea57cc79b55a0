-- ===== src/LineDetails/Rounding.antt =====
-- Rounding half up, and whole quantities.
use resource_mgmt_app.Base.{ℕ, ◌+◌, ◌*◌, ◌≤◌, ◌<◌, ◌≡◌, some, arith}
use resource_mgmt_app.LineDetails.{compute_line_amount_cents}

-- The amount of a line is its exact price, in thousandths of a cent, rounded to the nearest cent
-- and half a cent up.
pub compute_line_amount_cents_nearest :
    (price quantity : ℕ)
    → let amount = compute_line_amount_cents (some price) (some quantity) in
      (price * quantity < 1000 * amount + 500) × (1000 * amount ≤ price * quantity + 500)
unfolding compute_line_amount_cents
compute_line_amount_cents_nearest price quantity = grind arith

-- A whole quantity is charged exactly.
pub compute_line_amount_cents_whole :
    (price units : ℕ) → compute_line_amount_cents (some price) (some (1000 * units)) ≡ price * units
unfolding compute_line_amount_cents
compute_line_amount_cents_whole price units = grind arith

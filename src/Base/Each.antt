-- ===== src/Base/Each.antt =====
-- Two lists related row by row.
use mathlib.Core.List.{List, [], ◌∷◌}

pub data Each {ℓ κ} {A : Type ℓ} (R : A → A → Type κ) : List A → List A → Type (ℓ ⊔ κ) where
  nil : Each R [] []
  cons : {x y : A} {xs ys : List A} → R x y → Each R xs ys → Each R (x ∷ xs) (y ∷ ys)

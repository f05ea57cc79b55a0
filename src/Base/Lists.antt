-- ===== src/Base/Lists.antt =====
-- Lists measured by native numbers, searched and tested by Boolean functions. The library's `all`,
-- `any` and `find?` cannot be unfolded, and its `length` counts in another ℕ.
use Prim.Native.Nat.{ℕ, suc, ◌+◌, ◌≤◌}
use mathlib.Core.Path.{◌≡◌, refl, ap, sym, subst}
use mathlib.Core.Bool.{Bool, true, false, ◌&&◌, ◌||◌}
use mathlib.Core.List.{List, [], ◌∷◌, ◌++◌, map}
use mathlib.Core.Option.{Option, none, some}
use native.Mathlib.Omega.{arith}
use resource_mgmt_app.Base.Tests.{if◌then◌else◌, ◌==◌}

module _ {ℓ} {A : Type ℓ} where
  abbrev pub length : List A → ℕ
  length [] = 0
  length (_ ∷ xs) = suc (length xs)

  abbrev pub all : (A → Bool) → List A → Bool
  all p [] = true
  all p (x ∷ xs) = p x && all p xs

  abbrev pub any : (A → Bool) → List A → Bool
  any p [] = false
  any p (x ∷ xs) = p x || any p xs

  -- the rows that a query's filter keeps
  abbrev pub select : (A → Bool) → List A → List A
  select p [] = []
  select p (x ∷ xs) = let rest = select p xs in if p x then x ∷ rest else rest

  -- `query.filter(…).first()`
  abbrev pub find? : (A → Bool) → List A → Option A
  find? p [] = none
  find? p (x ∷ xs) = if p x then some x else find? p xs

  abbrev pub sum_of : (A → ℕ) → List A → ℕ
  sum_of f [] = 0
  sum_of f (x ∷ xs) = f x + sum_of f xs

  -- a write to the rows that a test picks
  abbrev pub update_where : (A → Bool) → (A → A) → List A → List A
  update_where p f [] = []
  update_where p f (x ∷ xs) = (if p x then f x else x) ∷ update_where p f xs

  -- a write to the first such row, as an object that `first()` has returned is written
  abbrev pub update_first : (A → Bool) → (A → A) → List A → List A
  update_first p f [] = []
  update_first p f (x ∷ xs) = let rest = update_first p f xs in if p x then f x ∷ xs else x ∷ rest

  pub length-append : (xs ys : List A) → length (xs ++ ys) ≡ length xs + length ys
  length-append [] ys = omega arith
  length-append (x ∷ xs) ys = omega (arith, length-append xs ys)

  pub length-select-le : (p : A → Bool) (xs : List A) → length (select p xs) ≤ length xs
  length-select-le p [] = omega arith
  length-select-le p (x ∷ xs) = ground (arith, length-select-le p xs)

  pub all-append : (p : A → Bool) (xs ys : List A) → all p (xs ++ ys) ≡ (all p xs && all p ys)
  all-append p [] ys = refl
  all-append p (x ∷ xs) ys = ground (arith, all-append p xs ys)

  pub any-append : (p : A → Bool) (xs ys : List A) → any p (xs ++ ys) ≡ (any p xs || any p ys)
  any-append p [] ys = refl
  any-append p (x ∷ xs) ys = ground (arith, any-append p xs ys)

  -- a test that holds of every row fails of none
  pub any_of_all :
      (p q : A → Bool) (xs : List A)
      → ((x : A) → p x ≡ true → q x ≡ false)
      → all p xs ≡ true
      → any q xs ≡ false
  any_of_all p q [] h e = refl
  any_of_all p q (x ∷ xs) h e = ground (arith, h x, any_of_all p q xs h)

module _ {ℓ κ} {A : Type ℓ} {B : Type κ} where
  pub length-map : (xs : List A) (f : A → B) → length (map f xs) ≡ length xs
  length-map [] f = refl
  length-map (x ∷ xs) f = ap suc (length-map xs f)

  pub all-map :
      (p : B → Bool) (f : A → B) (xs : List A)
      → ((x : A) → p (f x) ≡ true)
      → all p (map f xs) ≡ true
  all-map p f [] h = refl
  all-map p f (x ∷ xs) h = ground (arith, h x, all-map p f xs h)

abbrev pub member : ℕ → List ℕ → Bool
member n = any (λ m. m == n)

module _ {ℓ} {A : Type ℓ} where
  -- a row that is found is one that the test picks
  pub test_of_find? : (p : A → Bool) (xs : List A) (x : A) → find? p xs ≡ some x → p x ≡ true
  test_of_find? p [] x h = cc
  test_of_find? p (y ∷ xs) x h = ground (arith, test_of_find? p xs x)

  -- the row that is found is replaced by one that the test still picks
  pub find?-update_first :
      (p : A → Bool) (x' : A) (xs : List A) (x : A)
      → find? p xs ≡ some x
      → p x' ≡ true
      → find? p (update_first p (λ _. x') xs) ≡ some x'
  find?-update_first p x' [] x h e = cc
  find?-update_first p x' (y ∷ xs) x h e = ground (arith, find?-update_first p x' xs x)

  -- what holds of no row does not hold of one that is found
  pub any_of_find? :
      (p q : A → Bool) (xs : List A) (x : A) → find? p xs ≡ some x → any q xs ≡ false → q x ≡ false
  any_of_find? p q [] x h e = cc
  any_of_find? p q (y ∷ xs) x h e = ground (arith, any_of_find? p q xs x)

  pub any-select : (p q : A → Bool) (xs : List A) → any q (select p xs) ≡ any (λ x. p x && q x) xs
  any-select p q [] = refl
  any-select p q (x ∷ xs) = ground (arith, any-select p q xs)

  -- a write that neither takes a row into a selection nor out of it, nor changes one in it
  pub select-update_first :
      (p q : A → Bool) (x' : A) (xs : List A) (x : A)
      → find? p xs ≡ some x
      → q x ≡ false
      → q x' ≡ false
      → select q (update_first p (λ _. x') xs) ≡ select q xs
  select-update_first p q x' [] x h e e' = refl
  select-update_first p q x' (y ∷ xs) x h e e' = ground (arith, select-update_first p q x' xs x)

pub ==_refl : (a : ℕ) → (a == a) ≡ true
==_refl a = ground arith

pub eq_of_== : (a b : ℕ) → (a == b) ≡ true → a ≡ b
eq_of_== a b h = ground arith

module _ {ℓ} {A : Type ℓ} (key : A → ℕ) (k : ℕ) (xs : List A) (x x' : A) where
  pub key-find? : find? (λ y. key y == k) xs ≡ some x → key x ≡ k
  key-find? found = eq_of_== _ _ (test_of_find? (λ y. key y == k) xs x found)

  -- A row that was found by its id, and is written back under its own, is found by the id again.
  pub find?-update_key :
      find? (λ y. key y == k) xs ≡ some x
      → key x' ≡ key x
      → find? (λ y. key y == k) (update_first (λ y. key y == key x) (λ _. x') xs) ≡ some x'
  find?-update_key found same =
      subst (λ n. find? (λ y. key y == k) (update_first (λ y. key y == n) (λ _. x') xs) ≡ some x')
        (sym (key-find? found))
        (find?-update_first (λ y. key y == k) x' xs x found
          (rw same (rw (key-find? found) (==_refl k))))

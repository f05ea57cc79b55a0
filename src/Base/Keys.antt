-- ===== src/Base/Keys.antt =====
-- Rows that are told apart by a key, as a table's rows are by their ids.
use Prim.Native.Nat.{ℕ, ◌+◌, ◌≤◌}
use mathlib.Core.Path.{◌≡◌, refl, sym, subst}
use mathlib.Core.Logic.{inl, inr}
use mathlib.Core.Bool.{Bool, true, false, not, ◌&&◌, ◌||◌}
use mathlib.Core.List.{List, [], ◌∷◌, ◌++◌}
use mathlib.Core.Option.{none, some}
use native.Mathlib.Omega.{arith}
use resource_mgmt_app.Base.Tests.{Bool-cases, ltb, ◌==◌}
use resource_mgmt_app.Base.Lists.{
  length, member, all, any, find?, update_first, update_where, select, test_of_find?, any_of_find?,
  ==_refl, eq_of_==,
}

module _ {ℓ} {A : Type ℓ} (key : A → ℕ) where
  abbrev pub has_key : ℕ → List A → Bool
  has_key k = any (λ y. key y == k)

  abbrev pub are_distinct : List A → Bool
  are_distinct [] = true
  are_distinct (x ∷ xs) = not (has_key (key x) xs) && are_distinct xs

  -- a row that is found by whatever test is found by its key
  pub find?_by_key :
      (p : A → Bool) (xs : List A) (x : A)
      → find? p xs ≡ some x
      → are_distinct xs ≡ true
      → find? (λ y. key y == key x) xs ≡ some x
  find?_by_key p [] x h d = cc
  find?_by_key p (y ∷ xs) x h d = ground (
    arith,
    ==_refl (key y),
    ==_refl (key x),
    find?_by_key p xs x,
    any_of_find? p (λ z. key z == key y) xs x,
  )

module _ {ℓ} {A : Type ℓ} (p q : A → Bool) (x x' : A) where
  -- the row that both tests find first is replaced
  pub find?-update_both :
      (xs : List A)
      → find? p xs ≡ some x
      → find? q xs ≡ some x
      → p x' ≡ true
      → find? p (update_first q (λ _. x') xs) ≡ some x'
  find?-update_both [] h h' e = cc
  find?-update_both (y ∷ xs) h h' e =
      ground (arith, test_of_find? p xs x, test_of_find? q xs x, find?-update_both xs)

  -- a write to a row that a test does not look for
  pub find?-update_other :
      (xs : List A)
      → find? q xs ≡ some x
      → p x ≡ false
      → p x' ≡ false
      → find? p (update_first q (λ _. x') xs) ≡ find? p xs
  find?-update_other [] h e e' = refl
  find?-update_other (y ∷ xs) h e e' = ground (arith, find?-update_other xs)

module _ {ℓ} {A : Type ℓ} (p : A → Bool) where
  -- a row that is appended to rows without such a one is found
  pub find?-append :
      (xs : List A) (x : A) → any p xs ≡ false → p x ≡ true → find? p (xs ++ (x ∷ [])) ≡ some x
  find?-append [] x h e = ground arith
  find?-append (y ∷ xs) x h e = ground (arith, find?-append xs x)

  -- one that is not looked for changes nothing
  pub find?-append_other :
      (xs : List A) (x : A) → p x ≡ false → find? p (xs ++ (x ∷ [])) ≡ find? p xs
  find?-append_other [] x e = ground arith
  find?-append_other (y ∷ xs) x e = ground (arith, find?-append_other xs x)

  pub any_of_none : (xs : List A) → find? p xs ≡ none → any p xs ≡ false
  any_of_none [] h = refl
  any_of_none (x ∷ xs) h = ground (arith, any_of_none xs)

-- a key above all others is new
pub has_key_above {ℓ} :
    {A : Type ℓ}
    → (key : A → ℕ) (k : ℕ) (xs : List A) → all (λ y. ltb (key y) k) xs ≡ true
    → has_key key k xs ≡ false
has_key_above key k [] h = refl
has_key_above key k (x ∷ xs) h = ground (arith, has_key_above key k xs)

-- a row that is written under its own key keeps the keys of all
module _ {ℓ} {A : Type ℓ} (key : A → ℕ) (x' : A) where
  pub has_key-update :
      (xs : List A) (n : ℕ)
      → has_key key n (update_first (λ y. key y == key x') (λ _. x') xs) ≡ has_key key n xs
  has_key-update [] n = refl
  has_key-update (y ∷ xs) n = ground (arith, has_key-update xs n)

  pub are_distinct-update :
      (xs : List A)
      → are_distinct key (update_first (λ y. key y == key x') (λ _. x') xs) ≡ are_distinct key xs
  are_distinct-update [] = refl
  are_distinct-update (y ∷ xs) = ground (arith, are_distinct-update xs, has_key-update xs (key y))

module _ {ℓ} {A : Type ℓ} (key : A → ℕ) where
  has_key-append :
      (xs : List A) (x : A) (n : ℕ)
      → has_key key n (xs ++ (x ∷ [])) ≡ (has_key key n xs || key x == n)
  has_key-append [] x n = ground arith
  has_key-append (y ∷ xs) x n = ground (arith, has_key-append xs x n)

  -- a row with a new key
  pub are_distinct-append :
      (xs : List A) (x : A)
      → are_distinct key xs ≡ true
      → has_key key (key x) xs ≡ false
      → are_distinct key (xs ++ (x ∷ [])) ≡ true
  are_distinct-append [] x d h = refl
  are_distinct-append (y ∷ xs) x d h =
      ground (arith, are_distinct-append xs x, has_key-append xs x (key y))

none_of_select {ℓ} :
    {A : Type ℓ} → (p q : A → Bool) (xs : List A) → any q xs ≡ false → any q (select p xs) ≡ false
none_of_select p q [] h = refl
none_of_select p q (x ∷ xs) h = ground (arith, none_of_select p q xs)

-- a row that a test passes over is not among the keys of those that it picks
pub key_of_select {ℓ} :
    {A : Type ℓ}
    → (key : A → ℕ) (p : A → Bool) (k : ℕ) (xs : List A) (x : A)
    → find? (λ y. key y == k) xs ≡ some x
    → are_distinct key xs ≡ true
    → p x ≡ false
    → has_key key k (select p xs) ≡ false
key_of_select key p k [] x h d e = refl
key_of_select key p k (y ∷ xs) x h d e = elim (Bool-cases (key y == k)) [
  | inl same ↦
      let h' : some y ≡ some x = ground arith in
      let seen : p y ≡ false = cc in
      let fresh : has_key key (key y) xs ≡ false = ground arith in
      rw seen (
        none_of_select p (λ z. key z == k) xs
          (subst (λ n. has_key key n xs ≡ false) (eq_of_== (key y) k same) fresh))
  | inr other ↦ ground (arith, key_of_select key p k xs x)
]

-- a write to other rows, under their keys
pub find?-update_where {ℓ} :
    {A : Type ℓ}
    → (key : A → ℕ) (p : A → Bool) (f : A → A) (k : ℕ) (xs : List A) (x : A)
    → ((y : A) → p y ≡ true → key (f y) ≡ key y)
    → find? (λ y. key y == k) xs ≡ some x
    → p x ≡ false
    → find? (λ y. key y == k) (update_where p f xs) ≡ some x
find?-update_where key p f k [] x same h e = cc
find?-update_where key p f k (y ∷ xs) x same h e =
    grind (arith, same y, find?-update_where key p f k xs x same)

-- a row that a selection keeps is found in it
pub find?-select {ℓ} :
    {A : Type ℓ}
    → (p q : A → Bool) (xs : List A) (x : A) → find? p xs ≡ some x
    → q x ≡ true
    → find? p (select q xs) ≡ some x
find?-select p q [] x h e = cc
find?-select p q (y ∷ xs) x h e = ground (arith, find?-select p q xs x)

length-select_or {ℓ} :
    {A : Type ℓ}
    → (p q : A → Bool) (xs : List A)
    → length (select (λ x. p x || q x) xs) ≤ length (select p xs) + length (select q xs)
length-select_or p q [] = omega arith
length-select_or p q (x ∷ xs) = ground (arith, length-select_or p q xs)

select_none {ℓ} :
    {A : Type ℓ} → (p : A → Bool) (xs : List A) → any p xs ≡ false → length (select p xs) ≡ 0
select_none p [] h = refl
select_none p (x ∷ xs) h = ground (arith, select_none p xs)

-- rows with different keys are at most as many as the keys that they are picked by
module _ {ℓ} {A : Type ℓ} (key : A → ℕ) where
  one_of_key :
      (k : ℕ) (xs : List A) → are_distinct key xs ≡ true → length (select (λ x. k == key x) xs) ≤ 1
  one_of_key k [] d = omega arith
  one_of_key k (x ∷ xs) d = elim (Bool-cases (k == key x)) [
    | inl same ↦
        let fresh : has_key key (key x) xs ≡ false = ground arith in
        let none_else : length (select (λ y. k == key y) xs) ≡ 0 =
          subst (λ n. length (select (λ y. n == key y) xs) ≡ 0) (sym (eq_of_== k (key x) same))
            (select_none _ xs (flip (key x) xs fresh)) in
        rw same (omega (arith, none_else))
    | inr other ↦ rw other (one_of_key k xs (ground arith))
  ]
    where
      flip : (n : ℕ) (xs : List A) → has_key key n xs ≡ false → any (λ y. n == key y) xs ≡ false
      flip n [] h = refl
      flip n (y ∷ ys) h = ground (arith, flip n ys)

  pub length-select-member :
      (ks : List ℕ) (xs : List A)
      → are_distinct key xs ≡ true
      → length (select (λ x. member (key x) ks) xs) ≤ length ks
  length-select-member [] xs d = omega (arith, select_none (λ _. false) xs (never xs))
    where
      never : (xs : List A) → any (λ _. false) xs ≡ false
      never [] = refl
      never (x ∷ xs) = never xs
  length-select-member (k ∷ ks) xs d = omega (
    arith,
    length-select_or (λ x. k == key x) (λ x. member (key x) ks) xs,
    one_of_key k xs d,
    length-select-member ks xs d,
  )

-- a write that leaves the keys alone
module _ {ℓ} {A : Type ℓ} (key : A → ℕ) (p : A → Bool) (f : A → A) where
  has_key-update_where :
      (xs : List A) (k : ℕ)
      → ((y : A) → key (f y) ≡ key y)
      → has_key key k (update_where p f xs) ≡ has_key key k xs
  has_key-update_where [] k same = refl
  has_key-update_where (y ∷ xs) k same = grind (arith, same y, has_key-update_where xs k same)

  pub are_distinct-update_where :
      (xs : List A)
      → ((y : A) → key (f y) ≡ key y)
      → are_distinct key (update_where p f xs) ≡ are_distinct key xs
  are_distinct-update_where [] same = refl
  are_distinct-update_where (y ∷ xs) same =
      grind (arith, same y, has_key-update_where xs (key y) same, are_distinct-update_where xs same)

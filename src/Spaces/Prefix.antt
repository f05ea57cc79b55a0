-- ===== src/Spaces/Prefix.antt =====
-- What a combined name keeps of the members' names.
use resource_mgmt_app.Base.{
  ℕ, zero, suc, ◌≤◌, ◌≡◌, ◌⊎◌, inl, inr, refl, ap, sym, subst, ◌∙◌, Bool, true, false, ◌||◌, Option,
  none, some, List, [], ◌∷◌, ◌++◌, arith, map, all, any, length, if◌then◌else◌, Bool-cases, ◌==◌,
}
use resource_mgmt_app.Base.Text.{Text, text, eqb_text, eqb_text_refl, eq_of_eqb_text}
use resource_mgmt_app.Spaces.{
  words, join, starts_with, rest_of, shared_words, take_words, drop_words, split_shared_prefix,
}

-- word lists that begin with the same words
data Sharing (k : ℕ) (ps : List Text) : List (List Text) → Type 0 where
  nil : Sharing k ps []
  cons :
      {ws : List Text} {rest : List (List Text)}
      → take_words k ws ≡ ps
      → k ≤ length ws
      → Sharing k ps rest
      → Sharing k ps (ws ∷ rest)

none_shared : (others : List (List Text)) → Sharing 0 [] others
unfolding take_words
none_shared [] = Sharing.nil
none_shared (ws ∷ others) = Sharing.cons refl (omega arith) (none_shared others)

one_more :
    (k : ℕ) (w : Text) (ps : List Text) (others : List (List Text))
    → all (starts_with w) others ≡ true
    → Sharing k ps (map rest_of others)
    → Sharing (suc k) (w ∷ ps) others
unfolding take_words starts_with rest_of
one_more k w ps [] h s = Sharing.nil
one_more k w ps ([] ∷ others) h s = cc
one_more k w ps ((v ∷ vs) ∷ others) h (Sharing.cons e len s) =
    let same : eqb_text w v ≡ true = ground arith in
    Sharing.cons
      (subst (λ x. x ∷ take_words k vs ≡ w ∷ ps) (eq_of_eqb_text w v same) (ap (λ xs. w ∷ xs) e))
      (omega (arith, len)) (one_more k w ps others (ground arith) s)

shared_words-Sharing :
    (ws : List Text) (others : List (List Text))
    → Sharing (shared_words ws others) (take_words (shared_words ws others) ws) others
unfolding shared_words take_words
shared_words-Sharing [] others = none_shared others
shared_words-Sharing (w ∷ ws) others = elim (Bool-cases (all (starts_with w) others)) [
  | inl h ↦ rw h (
      one_more (shared_words ws (map rest_of others)) w
        (take_words (shared_words ws (map rest_of others)) ws) others h
        (shared_words-Sharing ws (map rest_of others)))
  | inr h ↦ rw h (none_shared others)
]

shared_words_le : (ws : List Text) (others : List (List Text)) → shared_words ws others ≤ length ws
unfolding shared_words
shared_words_le [] others = omega arith
shared_words_le (w ∷ ws) others = ground (arith, shared_words_le ws (map rest_of others))

take-drop : (k : ℕ) (ws : List Text) → take_words k ws ++ drop_words k ws ≡ ws
unfolding take_words drop_words
take-drop zero ws = refl
take-drop (suc k) [] = refl
take-drop (suc k) (w ∷ ws) = ap (λ xs. w ∷ xs) (take-drop k ws)

length-drop :
    (k : ℕ) (ws : List Text)
    → k ≤ length ws
    → (length ws == k) ≡ false
    → 1 ≤ length (drop_words k ws)
unfolding drop_words
length-drop zero ws h e = ground arith
length-drop (suc k) [] h e = omega arith
length-drop (suc k) (w ∷ ws) h e = length-drop k ws (omega arith) (ground arith)

-- each name's words are the shared ones and at least one more, and its tail is the others
pub data IsSplit (ps : List Text) : List Text → List Text → Type 0 where
  nil : IsSplit ps [] []
  cons :
      {name tail : Text} {names tails : List Text} (ws : List Text)
      → words name ≡ ps ++ ws
      → 1 ≤ length ws
      → tail ≡ join (text " ") ws
      → IsSplit ps names tails
      → IsSplit ps (name ∷ names) (tail ∷ tails)

tails-IsSplit :
    (k : ℕ) (ps : List Text) (names : List Text)
    → Sharing k ps (map words names)
    → any (λ n. length (words n) == k) names ≡ false
    → IsSplit ps names (map (λ n. join (text " ") (drop_words k (words n))) names)
tails-IsSplit k ps [] s h = IsSplit.nil
tails-IsSplit k ps (name ∷ names) (Sharing.cons e len s) h =
    IsSplit.cons (drop_words k (words name))
      (sym (take-drop k (words name)) ∙ ap (λ xs. xs ++ drop_words k (words name)) e)
      (length-drop k (words name) len (ground arith)) refl
      (tails-IsSplit k ps names s (ground arith))

length-take_words : (k : ℕ) (ws : List Text) → k ≤ length ws → length (take_words k ws) ≡ k
unfolding take_words
length-take_words zero ws h = refl
length-take_words (suc k) [] h = omega arith
length-take_words (suc k) (w ∷ ws) h = ap suc (length-take_words k ws (omega arith))

-- lists that begin with the same words
pub data Begins (ps : List Text) : List (List Text) → Type 0 where
  nil : Begins ps []
  cons :
      {ws : List Text} {wss : List (List Text)} (rest : List Text)
      → ws ≡ ps ++ rest
      → Begins ps wss
      → Begins ps (ws ∷ wss)

-- the longest list of words that all the names begin with
abbrev pub IsLongest : List Text → List Text → Type 0
IsLongest ps names =
    Begins ps (map words names)
    × ((qs : List Text) → Begins qs (map words names) → length qs ≤ length ps)

abbrev first : Text → List Text → Text
first w [] = w
first _ (v ∷ _) = v

abbrev others_of : List Text → List Text
others_of [] = []
others_of (_ ∷ ws) = ws

first_of_cons : {w v : Text} {ws vs : List Text} → w ∷ ws ≡ v ∷ vs → w ≡ v
first_of_cons {w} h = ap (first w) h

rest_of_cons : {w v : Text} {ws vs : List Text} → w ∷ ws ≡ v ∷ vs → ws ≡ vs
rest_of_cons h = ap others_of h

all_start :
    (q : Text) (qs : List Text) (wss : List (List Text))
    → Begins (q ∷ qs) wss
    → all (starts_with q) wss ≡ true
unfolding starts_with
all_start q qs [] Begins.nil = refl
all_start q qs (ws ∷ wss) (Begins.cons rest e b) =
    let starts : starts_with q ws ≡ true =
      subst (λ ws. starts_with q ws ≡ true) (sym e) (eqb_text_refl q) in
    ground (arith, starts, all_start q qs wss b)

rests_begin :
    (q : Text) (qs : List Text) (wss : List (List Text))
    → Begins (q ∷ qs) wss
    → Begins qs (map rest_of wss)
unfolding rest_of
rests_begin q qs [] Begins.nil = Begins.nil
rests_begin q qs (ws ∷ wss) (Begins.cons rest e b) =
    Begins.cons rest (ap rest_of e) (rests_begin q qs wss b)

shared_words_longest :
    (qs ws : List Text) (others : List (List Text))
    → Begins qs (ws ∷ others)
    → length qs ≤ shared_words ws others
unfolding shared_words
shared_words_longest [] ws others b = omega arith
shared_words_longest (q ∷ qs) [] others (Begins.cons rest e b) = cc
shared_words_longest (q ∷ qs) (w ∷ ws) others (Begins.cons rest e b) =
    let starts : all (starts_with w) others ≡ true =
      subst (λ v. all (starts_with v) others ≡ true) (sym (first_of_cons e))
        (all_start q qs others b) in
    let more =
      shared_words_longest qs ws (map rest_of others)
        (Begins.cons rest (rest_of_cons e) (rests_begin q qs others b)) in
    rw starts (omega (arith, more))

Sharing-Begins :
    (k : ℕ) (ps : List Text) (wss : List (List Text)) → Sharing k ps wss → Begins ps wss
Sharing-Begins k ps [] Sharing.nil = Begins.nil
Sharing-Begins k ps (ws ∷ wss) (Sharing.cons e len s) =
    Begins.cons (drop_words k ws) (sym (take-drop k ws) ∙ ap (λ xs. xs ++ drop_words k ws) e)
      (Sharing-Begins k ps wss s)

empty_of : (ps : List Text) → length ps ≡ 0 → ps ≡ []
empty_of [] h = refl
empty_of (p ∷ ps) h = absurd (omega (arith, h))

found_prefix :
    (name : Text) (names : List Text) (prefix : Text) (tails : List Text)
    → let k = shared_words (words name) (map words names) in
      let ps = take_words k (words name) in
      split_shared_prefix (name ∷ names) ≡ some (prefix, tails)
      → (prefix ≡ join (text " ") ps) × (1 ≤ length ps) × IsSplit ps (name ∷ names) tails
unfolding split_shared_prefix
found_prefix name names prefix tails h =
    go (k == 0 || any (λ n. length (words n) == k) (name ∷ names)) refl h
  where
    k : ℕ
    k = shared_words (words name) (map words names)

    ps : List Text
    ps = take_words k (words name)

    tail_of : Text → Text
    tail_of n = join (text " ") (drop_words k (words n))

    answer : Option (Text × List Text)
    answer = some (join (text " ") ps, map tail_of (name ∷ names))

    go :
        (b : Bool)
        → (k == 0 || any (λ n. length (words n) == k) (name ∷ names)) ≡ b
        → (if b then none else answer) ≡ some (prefix, tails)
        → (prefix ≡ join (text " ") ps) × (1 ≤ length ps) × IsSplit ps (name ∷ names) tails
    go true e h = cc
    go false e h =
        let split =
          tails-IsSplit k ps (name ∷ names)
            (Sharing.cons refl (shared_words_le (words name) (map words names))
              (shared_words-Sharing (words name) (map words names)))
            (ground arith) in
        (
          ground arith,
          omega (
            arith,
            length-take_words k (words name) (shared_words_le (words name) (map words names)),
            positive e,
          ),
          subst (IsSplit ps (name ∷ names)) (ground arith) split,
        )
      where
        positive : (k == 0 || any (λ n. length (words n) == k) (name ∷ names)) ≡ false → 1 ≤ k
        positive e = ground arith

no_prefix :
    (name : Text) (names : List Text)
    → let k = shared_words (words name) (map words names) in
      let ps = take_words k (words name) in
      length ps ≡ k
      → split_shared_prefix (name ∷ names) ≡ none
      → (ps ≡ []) ⊎ (any (λ n. length (words n) == length ps) (name ∷ names) ≡ true)
unfolding split_shared_prefix
no_prefix name names size h =
    let k = shared_words (words name) (map words names) in
    let ps = take_words k (words name) in
    let consumed = any (λ n. length (words n) == k) (name ∷ names) in
    elim (Bool-cases consumed) [
      | inl e ↦
          inr (subst (λ n. any (λ w. length (words w) == n) (name ∷ names) ≡ true) (sym size) e)
      | inr e ↦ inl (empty_of ps (ground arith))
    ]

-- The shared words are the longest list of words that all the members' names begin with. If there is a
-- prefix, it is these words, one at least, and each member's tail is the rest of its words, again one at
-- least. There is none only if no word is shared or a member's name is the shared words alone.
pub split_shared_prefix_splits :
    (name : Text) (names : List Text)
    → (ps : List Text) × IsLongest ps (name ∷ names)
      × ((prefix : Text) (tails : List Text)
          → split_shared_prefix (name ∷ names) ≡ some (prefix, tails)
          → (prefix ≡ join (text " ") ps) × (1 ≤ length ps) × IsSplit ps (name ∷ names) tails)
      × (split_shared_prefix (name ∷ names) ≡ none
          → (ps ≡ []) ⊎ (any (λ n. length (words n) == length ps) (name ∷ names) ≡ true))
split_shared_prefix_splits name names =
    (ps, (Sharing-Begins k ps _ sharing, longest), found, missing)
  where
    k : ℕ
    k = shared_words (words name) (map words names)

    ps : List Text
    ps = take_words k (words name)

    size : length ps ≡ k
    size = length-take_words k (words name) (shared_words_le (words name) (map words names))

    sharing : Sharing k ps (map words (name ∷ names))
    sharing =
        Sharing.cons refl (shared_words_le (words name) (map words names))
          (shared_words-Sharing (words name) (map words names))

    longest : (qs : List Text) → Begins qs (map words (name ∷ names)) → length qs ≤ length ps
    longest qs b = omega (arith, size, shared_words_longest qs (words name) (map words names) b)

    found :
        (prefix : Text) (tails : List Text)
        → split_shared_prefix (name ∷ names) ≡ some (prefix, tails)
        → (prefix ≡ join (text " ") ps) × (1 ≤ length ps) × IsSplit ps (name ∷ names) tails
    found prefix tails h = found_prefix name names prefix tails h

    missing :
        split_shared_prefix (name ∷ names) ≡ none
        → (ps ≡ []) ⊎ (any (λ n. length (words n) == length ps) (name ∷ names) ≡ true)
    missing h = no_prefix name names size h

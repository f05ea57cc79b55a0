-- ===== src/Spaces.antt =====
-- app/models/spaces.py: the one name of a combined space, from its members' names. What Python knows of the
-- characters of all languages (isdigit, int, isalpha, upper) is an argument.
pub mod Prefix
pub mod Names
use resource_mgmt_app.Base.{
  ℕ, zero, suc, ◌+◌, ◌*◌, Bool, true, false, not, ◌&&◌, ◌||◌, Option, none, some, List, [], ◌∷◌,
  ◌++◌, map, all, any, leb, ltb, length, is_some, ◌==◌, if◌then◌else◌,
}
use resource_mgmt_app.Base.Text.{Text, text, is_space, is_empty, eqb_text}

pub record Characters : Type 0 where
  pub is_digit : ℕ → Bool
  pub digit_value : ℕ → ℕ
  pub is_alpha : ℕ → Bool
  -- the code point of the upper-case letter
  pub upper : ℕ → ℕ

-- a character in front of the first word, or a space between two
push : ℕ → List Text → List Text
push c [] = (c ∷ []) ∷ []
push c (w ∷ ws) = (c ∷ w) ∷ ws

drop_empty : List Text → List Text
drop_empty [] = []
drop_empty (w ∷ ws) = let rest = drop_empty ws in if is_empty w then rest else w ∷ rest

pieces : Text → List Text
unfolding push is_space
pieces [] = []
pieces (c ∷ cs) = let rest = pieces cs in if is_space c then [] ∷ rest else push c rest

-- `name.split()`
unfoldable pub words : Text → List Text
unfolding pieces drop_empty
words name = drop_empty (pieces name)

-- `sep.join(words)`
unfoldable pub join : Text → List Text → Text
join sep [] = []
join sep (w ∷ []) = w
join sep (w ∷ v ∷ ws) = w ++ (sep ++ join sep (v ∷ ws))

unfoldable pub starts_with : Text → List Text → Bool
starts_with w [] = false
starts_with w (v ∷ vs) = eqb_text w v

unfoldable pub rest_of : List Text → List Text
rest_of [] = []
rest_of (_ ∷ ws) = ws

-- the while loop: the number of leading words that the first member shares with all others
unfoldable pub shared_words : List Text → List (List Text) → ℕ
unfolding starts_with rest_of
shared_words [] others = 0
shared_words (w ∷ ws) others =
    let more = shared_words ws (map rest_of others) in
    if all (starts_with w) others then suc more else 0

unfoldable pub take_words : ℕ → List Text → List Text
take_words zero ws = []
take_words (suc n) [] = []
take_words (suc n) (w ∷ ws) = w ∷ take_words n ws

unfoldable pub drop_words : ℕ → List Text → List Text
drop_words zero ws = ws
drop_words (suc n) [] = []
drop_words (suc n) (_ ∷ ws) = drop_words n ws

-- `min()` of no lengths raises; nobody calls it so
unfoldable pub split_shared_prefix : List Text → Option (Text × List Text)
unfolding words shared_words take_words drop_words join
split_shared_prefix [] = none
split_shared_prefix (name ∷ names) =
    let shared = shared_words (words name) (map words names) in
    if shared == 0 || any (λ n. length (words n) == shared) (name ∷ names)
    then none
    else some (
      join (text " ") (take_words shared (words name)),
      map (λ n. join (text " ") (drop_words shared (words n))) (name ∷ names),
    )

combine : List Text → Option (Text × List Text) → Text
unfolding join
combine names none = join (text " + ") names
combine names (some (prefix, tails)) = prefix ++ (text " " ++ join (text "/") tails)

unfoldable pub compose_combined_name : List Text → Text
unfolding split_shared_prefix combine
compose_combined_name [] = []
compose_combined_name (name ∷ []) = name
compose_combined_name (name ∷ other ∷ names) =
    combine (name ∷ other ∷ names) (split_shared_prefix (name ∷ other ∷ names))

pub data RangeKey : Type 0 where
  number letter : ℕ → RangeKey

-- int() of decimal digits
value_of : Characters → ℕ → Text → ℕ
value_of chars n [] = n
value_of chars n (c ∷ cs) = value_of chars (10 * n + chars.digit_value c) cs

letter_key : Characters → Text → Option RangeKey
letter_key chars [] = none
letter_key chars (c ∷ []) = if chars.is_alpha c then some (letter (chars.upper c)) else none
letter_key chars (_ ∷ _ ∷ _) = none

-- A tail of digits or one letter. Where int() or ord() of such a tail raises, as for a superscript digit or
-- a letter with two upper-case letters, the code fails; here each character has one value.
unfoldable pub range_key : Characters → Text → Option RangeKey
unfolding value_of letter_key
range_key chars tail =
    if not (is_empty tail) && all chars.is_digit tail
    then some (number (value_of chars 0 tail))
    else letter_key chars tail

-- `previous == (kind, value - 1)`
unfoldable pub is_next : RangeKey → RangeKey → Bool
is_next (number a) (number b) = suc a == b
is_next (letter a) (letter b) = suc a == b
is_next (number _) (letter _) = false
is_next (letter _) (number _) = false

-- the loop over the tails after the first; `run` is the last run so far
unfoldable pub collect_runs : RangeKey → List Text → List (Text × RangeKey) → List (List Text)
unfolding is_next
collect_runs previous run [] = run ∷ []
collect_runs previous run ((tail, key) ∷ rest) = elim (is_next previous key) [
  | true ↦ collect_runs key (run ++ (tail ∷ [])) rest
  | false ↦ run ∷ collect_runs key (tail ∷ []) rest
]

unfoldable pub runs_of : List (Text × RangeKey) → List (List Text)
unfolding collect_runs
runs_of [] = []
runs_of ((tail, key) ∷ rest) = collect_runs key (tail ∷ []) rest

-- the tails with their keys, where each has one
with_key :
    Text → Option RangeKey → Option (List (Text × RangeKey)) → Option (List (Text × RangeKey))
with_key tail none rest = none
with_key tail (some key) none = none
with_key tail (some key) (some rest) = some ((tail, key) ∷ rest)

unfoldable pub keyed : Characters → List Text → Option (List (Text × RangeKey))
unfolding range_key with_key
keyed chars [] = some []
keyed chars (tail ∷ tails) = with_key tail (range_key chars tail) (keyed chars tails)

last_of : Text → List Text → Text
last_of w [] = w
last_of _ (v ∷ vs) = last_of v vs

-- what one run shows: a range if it has three members or more
unfoldable pub show_run : List Text → List Text
unfolding last_of
show_run [] = []
show_run (w ∷ ws) =
    if leb 3 (length (w ∷ ws)) then (w ++ (text "-" ++ last_of w ws)) ∷ [] else w ∷ ws

show_runs : List (List Text) → List Text
unfolding show_run
show_runs [] = []
show_runs (run ∷ runs) = show_run run ++ show_runs runs

ranged_by : List Text → Text → Option (List (Text × RangeKey)) → Text
unfolding compose_combined_name runs_of show_runs join
ranged_by names prefix none = compose_combined_name names
ranged_by names prefix (some tails) =
    if all (λ run. ltb (length run) 3) (runs_of tails)
    then compose_combined_name names
    else prefix ++ (text " " ++ join (text ", ") (show_runs (runs_of tails)))

ranged : Characters → List Text → Option (Text × List Text) → Text
unfolding compose_combined_name keyed ranged_by
ranged chars names none = compose_combined_name names
ranged chars names (some (prefix, tails)) = ranged_by names prefix (keyed chars tails)

unfoldable pub compose_ranged_name : Characters → List Text → Text
unfolding compose_combined_name split_shared_prefix ranged
compose_ranged_name chars [] = compose_combined_name []
compose_ranged_name chars (name ∷ []) = compose_combined_name (name ∷ [])
compose_ranged_name chars (name ∷ other ∷ names) =
    ranged chars (name ∷ other ∷ names) (split_shared_prefix (name ∷ other ∷ names))

unfoldable pub compose_aliased_name : Characters → Text → List Text → Text
unfolding compose_ranged_name
compose_aliased_name chars alias names =
    let location = compose_ranged_name chars names in
    if is_empty location || eqb_text location alias
    then alias
    else alias ++ (text " (" ++ (location ++ text ")"))

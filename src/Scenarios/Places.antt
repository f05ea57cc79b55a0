-- ===== src/Scenarios/Places.antt =====
-- Two slices of a hall, and three in a row.
use resource_mgmt_app.Base.{◌≡◌, ◌≤◌, refl, some, List, [], ◌∷◌, length}
use resource_mgmt_app.Base.Text.{Text, text, is_space}
use resource_mgmt_app.Spaces.{
  RangeKey, words, join, starts_with, rest_of, shared_words, take_words, drop_words,
  split_shared_prefix, runs_of,
}
use resource_mgmt_app.Spaces.Prefix.{IsLongest, IsSplit, split_shared_prefix_splits}
use resource_mgmt_app.Spaces.Names.{concat, runs_of_keeps}

split :
    split_shared_prefix (text "East Hall 4" ∷ text "East Hall 5" ∷ [])
    ≡ some (text "East Hall", text "4" ∷ text "5" ∷ [])
unfolding split_shared_prefix words is_space shared_words starts_with rest_of take_words drop_words
    join
split = refl

abbrev halls : List Text
halls = text "East Hall 4" ∷ text "East Hall 5" ∷ []

split_shared_prefix_splits_example :
    (ps : List Text) × IsLongest ps halls
    × (text "East Hall" ≡ join (text " ") ps)
    × (1 ≤ length ps)
    × IsSplit ps halls (text "4" ∷ text "5" ∷ [])
split_shared_prefix_splits_example =
    let (ps, longest, found, _) =
      split_shared_prefix_splits (text "East Hall 4") (text "East Hall 5" ∷ []) in
    let (name, shared, cut) = found (text "East Hall") (text "4" ∷ text "5" ∷ []) split in
    (ps, longest, name, shared, cut)

abbrev tails : List (Text × RangeKey)
tails =
    (text "1", RangeKey.number 1)
    ∷ (text "2", RangeKey.number 2)
    ∷ (text "3", RangeKey.number 3)
    ∷ (text "A", RangeKey.letter 65)
    ∷ []

runs_of_keeps_example : concat (runs_of tails) ≡ text "1" ∷ text "2" ∷ text "3" ∷ text "A" ∷ []
runs_of_keeps_example = runs_of_keeps tails

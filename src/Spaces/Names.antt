-- ===== src/Spaces/Names.antt =====
-- What the runs of a ranged name keep of the members' names.
use resource_mgmt_app.Base.{◌≡◌, refl, ap, ◌∙◌, Bool, true, false, List, [], ◌∷◌, ◌++◌, map}
use resource_mgmt_app.Base.Text.{Text}
use resource_mgmt_app.Spaces.{RangeKey, is_next, collect_runs, runs_of}

abbrev pub concat : List (List Text) → List Text
concat [] = []
concat (ws ∷ rest) = ws ++ concat rest

++_assoc : (xs ys zs : List Text) → (xs ++ ys) ++ zs ≡ xs ++ (ys ++ zs)
++_assoc [] ys zs = refl
++_assoc (x ∷ xs) ys zs = ap (λ ws. x ∷ ws) (++_assoc xs ys zs)

collect_runs_keeps :
    (previous : RangeKey) (run : List Text) (tails : List (Text × RangeKey))
    → concat (collect_runs previous run tails) ≡ run ++ map (λ (t : Text × RangeKey). t.0) tails
unfolding collect_runs
collect_runs_keeps previous run [] = refl
collect_runs_keeps previous run ((tail, key) ∷ rest) =
    go (is_next previous key) (collect_runs_keeps key (run ++ (tail ∷ [])) rest)
      (collect_runs_keeps key (tail ∷ []) rest)
  where
    firsts : List Text
    firsts = map (λ (t : Text × RangeKey). t.0) rest

    go :
        (b : Bool)
        → concat (collect_runs key (run ++ (tail ∷ [])) rest) ≡ (run ++ (tail ∷ [])) ++ firsts
        → concat (collect_runs key (tail ∷ []) rest) ≡ tail ∷ firsts
        → concat (elim b [
          | true ↦ collect_runs key (run ++ (tail ∷ [])) rest
          | false ↦ run ∷ collect_runs key (tail ∷ []) rest
        ])
          ≡ run ++ (tail ∷ firsts)
    go true e e' = e ∙ ++_assoc run (tail ∷ []) firsts
    go false e e' = ap (λ ws. run ++ ws) e'

-- The runs that a ranged name shows hold the tails of all members, each once and in their order.
pub runs_of_keeps :
    (tails : List (Text × RangeKey))
    → concat (runs_of tails) ≡ map (λ (t : Text × RangeKey). t.0) tails
unfolding runs_of
runs_of_keeps [] = refl
runs_of_keeps ((tail, key) ∷ rest) = collect_runs_keeps key (tail ∷ []) rest

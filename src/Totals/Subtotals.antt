-- ===== src/Totals/Subtotals.antt =====
-- compute_group_subtotals: lines bucketed by routed approval group. The dict keeps its keys in order
-- of insertion; `str.lower`, which the sort key calls, is a parameter.
use resource_mgmt_app.Base.{
  ℕ, zero, suc, ◌+◌, ◌/◌, ◌%◌, Bool, true, false, ◌&&◌, ◌||◌, Option, none, some, List, [], ◌∷◌,
  ◌++◌, map, is_some, ltb, ◌==◌, if◌then◌else◌,
}
use resource_mgmt_app.Base.Int.{ℤ, pos}
use resource_mgmt_app.Base.Text.{Text, text, is_empty}
use resource_mgmt_app.Model.{WorkLine, BudgetLineDetail, ApprovalGroup}
use resource_mgmt_app.LineDetails.{get_line_amount_cents}
use resource_mgmt_app.Totals.{add_approved}

pub record Bucket : Type 0 where
  pub line_count : ℕ
  pub requested : ℕ
  pub approved : ℤ

pub record GroupSubtotal : Type 0 where
  pub group_id : Option ℕ
  pub group_name : Text
  pub line_count : ℕ
  pub requested_cents : ℕ
  pub approved_cents : ℤ

-- `==` of optional ids, as a dict compares its keys
abbrev pub same_key : Option ℕ → Option ℕ → Bool
same_key none none = true
same_key (some a) (some b) = a == b
same_key none (some b) = false
same_key (some a) none = false

group_id_of : Option ApprovalGroup → Option ℕ
group_id_of none = none
group_id_of (some group) = some group.id

-- `detail.routed_approval_group_id if detail else None`
unfoldable pub bucket_key : Option BudgetLineDetail → Option ℕ
unfolding group_id_of
bucket_key none = none
bucket_key (some detail) = group_id_of detail.routed_approval_group

abbrev pub add_to_bucket : WorkLine → Bucket → Bucket
add_to_bucket line b = record {
  line_count = b.line_count + 1;
  requested = b.requested + get_line_amount_cents line;
  approved = add_approved b.approved line;
}

abbrev pub empty_bucket : Bucket
empty_bucket = record { line_count = 0; requested = 0; approved = pos 0 }

-- `buckets.setdefault(group_id, …)` and the additions to the bucket
unfoldable pub add_to_buckets :
    Option ℕ → WorkLine → List (Option ℕ × Bucket) → List (Option ℕ × Bucket)
add_to_buckets key line [] = (key, add_to_bucket line empty_bucket) ∷ []
add_to_buckets key line ((k, b) ∷ rest) =
    if same_key k key
    then (k, add_to_bucket line b) ∷ rest
    else (k, b) ∷ add_to_buckets key line rest

unfoldable pub bucket_lines : List (Option ℕ × Bucket) → List WorkLine → List (Option ℕ × Bucket)
unfolding add_to_buckets bucket_key
bucket_lines buckets [] = buckets
bucket_lines buckets (line ∷ lines) =
    bucket_lines (add_to_buckets (bucket_key line.budget_detail) line buckets) lines

-- `f"{n}"`: fuel n + 1 is enough, since a number has at most as many further digits as its size
digits_of : ℕ → ℕ → Text → Text
digits_of zero n acc = acc
digits_of (suc fuel) n acc =
    let more = digits_of fuel (n / 10) ((48 + n % 10) ∷ acc) in
    if n / 10 == 0 then (48 + n % 10) ∷ acc else more

unfoldable pub decimal : ℕ → Text
unfolding digits_of
decimal n = digits_of (suc n) n []

-- `name or f"Group {group_id}"`
pub or_numbered : Option Text → ℕ → Text
unfolding decimal
or_numbered none n = text "Group " ++ decimal n
or_numbered (some name) n = if is_empty name then text "Group " ++ decimal n else name

unfoldable pub subtotal_name : (ℕ → Option Text) → Option ℕ → Text
unfolding or_numbered
subtotal_name group_names none = text "Unassigned"
subtotal_name group_names (some n) = or_numbered (group_names n) n

unfoldable pub to_subtotal : (ℕ → Option Text) → Option ℕ × Bucket → GroupSubtotal
unfolding subtotal_name
to_subtotal group_names (key, b) = record {
  group_id = key;
  group_name = subtotal_name group_names key;
  line_count = b.line_count;
  requested_cents = b.requested;
  approved_cents = b.approved;
}

-- Python's `<` on strings
text_lt : Text → Text → Bool
text_lt [] [] = false
text_lt [] (_ ∷ _) = true
text_lt (_ ∷ _) [] = false
text_lt (a ∷ s) (b ∷ t) = ltb a b || (a == b && text_lt s t)

-- the sort key `(group_id is None, group_name.lower())`, compared as tuples are
key_lt : (Text → Text) → GroupSubtotal → GroupSubtotal → Bool
unfolding text_lt
key_lt lower g h =
    if is_some g.group_id
    then (if is_some h.group_id then text_lt (lower g.group_name) (lower h.group_name) else true)
    else (if is_some h.group_id then false else text_lt (lower g.group_name) (lower h.group_name))

-- `list.sort` is stable, and so is this insertion sort: an equal key stays behind
unfoldable pub insert_by :
    (GroupSubtotal → GroupSubtotal → Bool) → GroupSubtotal → List GroupSubtotal → List GroupSubtotal
insert_by lt g [] = g ∷ []
insert_by lt g (h ∷ hs) = let rest = insert_by lt g hs in if lt h g then h ∷ rest else g ∷ h ∷ hs

unfoldable pub sort_by :
    (GroupSubtotal → GroupSubtotal → Bool) → List GroupSubtotal → List GroupSubtotal
unfolding insert_by
sort_by lt [] = []
sort_by lt (g ∷ gs) = insert_by lt g (sort_by lt gs)

unfoldable pub compute_group_subtotals :
    (Text → Text) → (ℕ → Option Text) → List WorkLine → List GroupSubtotal
unfolding bucket_lines to_subtotal key_lt sort_by
compute_group_subtotals lower group_names visible_lines =
    sort_by (key_lt lower) (map (to_subtotal group_names) (bucket_lines [] visible_lines))

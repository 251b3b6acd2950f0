-- ===== src/PostConditions/Grouping.antt =====
-- src/mom_bot/post_conditions/grouping.py. A dict of buckets is the list of its items.
pub mod Laws
use rsl_mom_bot.Prelude.{
  String, Bool, true, false, not, ◌=ₛ◌, if◌then◌else◌, Option, none, some, List, [], ◌∷◌, ◌++◌, map,
  any, find?, filter,
}
use rsl_mom_bot.PostConditions.Models.{Condition}

abbrev pub meta_groups : List (String × List String)
meta_groups =
    ("Faction & League", "faction" ∷ "league" ∷ [])
    ∷ ("Role, Affinity, Rarity", "role" ∷ "affinity" ∷ "rarity" ∷ [])
    ∷ ("Effects & Other", "effect" ∷ "other" ∷ [])
    ∷ []

-- `_TYPE_TO_META.get(ct)`: no type stands in two groups.
unfoldable pub type_to_meta : String → Option String
type_to_meta ct = elim (find? (λ group. any (λ t. t =ₛ ct) group.1) meta_groups) [
  | some group ↦ some group.0
  | none ↦ none
]

abbrev pub Buckets : Type 0
Buckets = List (String × List Condition)

-- `buckets[label].append(cond)`.
unfoldable pub add_to_bucket : String → Condition → Buckets → Buckets
add_to_bucket label cond [] = []
add_to_bucket label cond ((l, conds) ∷ buckets) =
    (l, if label =ₛ l then conds ++ cond ∷ [] else conds) ∷ add_to_bucket label cond buckets

-- The loop over the conditions.
unfoldable pub fill_buckets : List Condition → Buckets → Buckets
unfolding type_to_meta add_to_bucket
fill_buckets [] buckets = buckets
fill_buckets (cond ∷ conditions) buckets =
    fill_buckets conditions (elim (type_to_meta cond.condition_type) [
      | some label ↦ add_to_bucket label cond buckets
      | none ↦ buckets
    ])

abbrev pub is_filled : String × List Condition → Bool
is_filled (label, []) = false
is_filled (label, cond ∷ conds) = true

unfoldable pub group_by_meta : List Condition → Buckets
unfolding fill_buckets
group_by_meta conditions =
    filter is_filled (fill_buckets conditions (map (λ group. (group.0, [])) meta_groups))

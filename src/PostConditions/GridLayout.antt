-- ===== src/PostConditions/GridLayout.antt =====
-- src/mom_bot/post_conditions/grid_layout.py. A label is its code points.
pub mod Pages
pub mod Complete
mod Tests
use rsl_mom_bot.Prelude.{
  ℕ, zero, suc, ◌+◌, ◌-◌, String, Bool, ◌&&◌, ◌||◌, ◌==◌, leb, if◌then◌else◌, List, [], ◌∷◌, ◌++◌,
  length,
}
use rsl_mom_bot.Prelude.Int.{pos}
use rsl_mom_bot.Prelude.Exec.{Result, ok, err, ◌>>=ᵣ◌, value_error}
use rsl_mom_bot.PyText.{codes, codes_eq, codes_lt, str_of}
use rsl_mom_bot.PostConditions.Models.{Condition}
use rsl_mom_bot.PostConditions.Grouping.{Buckets, group_by_meta}

pub record GridPage : Type 0 where
  pub label : List ℕ
  pub meta_label : String
  pub conditions : List Condition

abbrev pub default_page_size : ℕ
default_page_size = 20

-- `<=` of the keys `(condition_type, id)`.
unfoldable pub key_le : Condition → Condition → Bool
key_le c d =
    let a = codes c.condition_type in
    let b = codes d.condition_type in codes_lt a b || (codes_eq a b && leb c.id d.id)

unfoldable pub insert : Condition → List Condition → List Condition
unfolding key_le
insert c [] = c ∷ []
insert c (d ∷ ds) = let rest = insert c ds in if key_le c d then c ∷ d ∷ ds else d ∷ rest

-- `sorted(conds, key=...)`, which keeps the order of equal keys.
unfoldable pub sorted : List Condition → List Condition
unfolding insert
sorted [] = []
sorted (c ∷ cs) = insert c (sorted cs)

abbrev pub take : {A : Type 0} → ℕ → List A → List A
take n [] = []
take n (x ∷ xs) = let rest = take (n - 1) xs in if n == 0 then [] else x ∷ rest

abbrev pub drop : {A : Type 0} → ℕ → List A → List A
drop n [] = []
drop n (x ∷ xs) = let rest = drop (n - 1) xs in if n == 0 then x ∷ xs else rest

-- The slices `sorted_conds[start : start + page_size]`; there are at most as many as conditions.
unfoldable pub chunks : ℕ → ℕ → List Condition → List (List Condition)
chunks zero size conds = []
chunks (suc fuel) size [] = []
chunks (suc fuel) size (c ∷ cs) = take size (c ∷ cs) ∷ chunks fuel size (drop size (c ∷ cs))

-- The label of page `i` of `n`.
unfoldable pub page_label : String → ℕ → ℕ → List ℕ
unfolding str_of
page_label meta_label i n =
    if n == 1
    then codes meta_label
    else codes meta_label
      ++ codes " ("
      ++ str_of (pos i)
      ++ codes "/"
      ++ str_of (pos n)
      ++ codes ")"

-- The loop over the chunks, from the i-th.
unfoldable pub number_pages : String → ℕ → ℕ → List (List Condition) → List GridPage
unfolding page_label
number_pages meta_label n i [] = []
number_pages meta_label n i (chunk ∷ rest) =
    record { label = page_label meta_label i n; meta_label = meta_label; conditions = chunk }
    ∷ number_pages meta_label n (i + 1) rest

unfoldable pub pages_of_group : ℕ → String → List Condition → List GridPage
unfolding sorted chunks number_pages
pages_of_group size meta_label conds =
    let sorted_conds = sorted conds in
    let parts = chunks (length sorted_conds) size sorted_conds in
    number_pages meta_label (length parts) 1 parts

-- The loop over the groups; a `range` of step 0 is a `ValueError`.
unfoldable pub split_groups : ℕ → Buckets → Result (List GridPage)
unfolding pages_of_group
split_groups size [] = ok []
split_groups size ((meta_label, conds) ∷ groups) =
    if size == 0
    then err value_error
    else (split_groups size groups >>=ᵣ λ rest. ok (pages_of_group size meta_label conds ++ rest))

unfoldable pub split_by_meta_group : List Condition → ℕ → Result (List GridPage)
unfolding group_by_meta split_groups
split_by_meta_group conditions page_size = split_groups page_size (group_by_meta conditions)

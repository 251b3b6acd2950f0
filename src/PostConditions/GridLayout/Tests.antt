-- ===== src/PostConditions/GridLayout/Tests.antt =====
-- The theorems on the pages, applied to three conditions on pages of two.
use rsl_mom_bot.Prelude.{ℕ, ◌≡◌, refl, List, [], ◌∷◌, map, filter, arith}
use rsl_mom_bot.Prelude.Exec.{Result, ok}
use rsl_mom_bot.PyText.{codes}
use rsl_mom_bot.PostConditions.Models.{Condition}
use rsl_mom_bot.PostConditions.Grouping.Laws.{is_known}
use rsl_mom_bot.PostConditions.GridLayout.{GridPage, split_by_meta_group}
use rsl_mom_bot.PostConditions.GridLayout.Complete.{IsSplit, split_by_meta_group_lem}

abbrev void : Condition
void = record { id = 4; condition_type = "affinity"; description = "Void" }

abbrev legend : Condition
legend = record { id = 3; condition_type = "rarity"; description = "Legendary" }

abbrev orcs : Condition
orcs = record { id = 9; condition_type = "affinity"; description = "Magic" }

abbrev odd : Condition
odd = record { id = 1; condition_type = "colour"; description = "Red" }

abbrev some_conditions : List Condition
some_conditions = legend ∷ orcs ∷ odd ∷ void ∷ []

abbrev ids_of : GridPage → List ℕ × List ℕ
ids_of page = (page.label, map (λ c. c.id) page.conditions)

abbrev shown : Result (List GridPage) → List (List ℕ × List ℕ)
shown (ok pages) = map ids_of pages
shown _ = []

two_pages : shown (split_by_meta_group some_conditions 2) ≡ (
    (codes "Role, Affinity, Rarity (1/2)", 4 ∷ 9 ∷ [])
    ∷ (codes "Role, Affinity, Rarity (2/2)", 3 ∷ [])
    ∷ [])
unfolding split_by_meta_group
two_pages = refl

split_by_meta_group_lem_example :
    IsSplit 2 (filter is_known some_conditions) (split_by_meta_group some_conditions 2)
split_by_meta_group_lem_example = split_by_meta_group_lem some_conditions 2 (omega arith)

-- ===== src/PostConditions/GridLayout/Pages.antt =====
-- The pages of the grid: their sizes, their groups and their order.
use rsl_mom_bot.Prelude.{
  ℕ, zero, suc, ◌+◌, ◌-◌, ◌≤◌, ◌<◌, ◌≡◌, refl, String, true, false, ◌||◌, ◌==◌, some, List, [], ◌∷◌,
  length, All, arith, Bool-cases, inl, inr,
}
use rsl_mom_bot.PyText.{codes, codes_eq, codes_lt}
use rsl_mom_bot.PostConditions.Models.{Condition}
use rsl_mom_bot.PostConditions.Grouping.{type_to_meta}
use rsl_mom_bot.PostConditions.Grouping.Laws.{IsOfGroup}
use rsl_mom_bot.PostConditions.GridLayout.{
  GridPage, key_le, insert, sorted, take, drop, chunks, number_pages, pages_of_group,
}

-- Each condition is `<=` the next; the first list starts below that condition.
abbrev IsAbove : Condition → List Condition → Type 0
IsAbove c [] = Unit
IsAbove c (d ∷ ds) = (key_le c d ≡ true) × IsAbove d ds

abbrev pub IsAscending : List Condition → Type 0
IsAscending [] = Unit
IsAscending (c ∷ cs) = IsAbove c cs

codes_total : (a b : List ℕ) → (codes_lt a b || codes_eq a b) ≡ false → codes_lt b a ≡ true
codes_total [] [] h = cc
codes_total [] (y ∷ b) h = cc
codes_total (x ∷ a) [] h = refl
codes_total (x ∷ a) (y ∷ b) h = ground (arith, codes_total a b)

codes_eq_symm : (a b : List ℕ) → codes_eq a b ≡ true → codes_eq b a ≡ true
codes_eq_symm [] [] h = refl
codes_eq_symm (x ∷ a) (y ∷ b) h = ground (arith, codes_eq_symm a b)
codes_eq_symm [] (y ∷ b) h = cc
codes_eq_symm (x ∷ a) [] h = cc

key_le_total : (c d : Condition) → key_le c d ≡ false → key_le d c ≡ true
unfolding key_le
key_le_total c d h =
    let a = codes c.condition_type in
    let b = codes d.condition_type in ground (arith, codes_total a b, codes_eq_symm a b)

insert-IsAbove :
    (c d : Condition) (ds : List Condition)
    → key_le d c ≡ true
    → IsAbove d ds
    → IsAbove d (insert c ds)
unfolding insert
insert-IsAbove c d [] h s = (h, tt)
insert-IsAbove c d (e ∷ ds) h (k, s) = elim (Bool-cases (key_le c e)) [
  | inl t ↦ rw t (h, (t, s))
  | inr f ↦ rw f (k, insert-IsAbove c e ds (key_le_total c e f) s)
]

insert-IsAscending :
    (c : Condition) (ds : List Condition) → IsAscending ds → IsAscending (insert c ds)
unfolding insert
insert-IsAscending c [] s = tt
insert-IsAscending c (e ∷ ds) s = elim (Bool-cases (key_le c e)) [
  | inl t ↦ rw t (t, s)
  | inr f ↦ rw f (insert-IsAbove c e ds (key_le_total c e f) s)
]

sorted-IsAscending : (cs : List Condition) → IsAscending (sorted cs)
unfolding sorted
sorted-IsAscending [] = tt
sorted-IsAscending (c ∷ cs) = insert-IsAscending c (sorted cs) (sorted-IsAscending cs)

take-IsAbove : (n : ℕ) (c : Condition) (cs : List Condition) → IsAbove c cs → IsAbove c (take n cs)
take-IsAbove n c [] s = tt
take-IsAbove n c (d ∷ cs) (h, s) = elim (Bool-cases (n == 0)) [
  | inl t ↦ rw t tt
  | inr f ↦ rw f (h, take-IsAbove (n - 1) d cs s)
]

take-IsAscending : (n : ℕ) (cs : List Condition) → IsAscending cs → IsAscending (take n cs)
take-IsAscending n [] s = tt
take-IsAscending n (c ∷ cs) s = elim (Bool-cases (n == 0)) [
  | inl t ↦ rw t tt
  | inr f ↦ rw f (take-IsAbove (n - 1) c cs s)
]

IsAscending-tail : (c : Condition) (cs : List Condition) → IsAbove c cs → IsAscending cs
IsAscending-tail c [] s = tt
IsAscending-tail c (d ∷ cs) (h, s) = s

drop-IsAscending : (n : ℕ) (cs : List Condition) → IsAscending cs → IsAscending (drop n cs)
drop-IsAscending n [] s = tt
drop-IsAscending n (c ∷ cs) s = elim (Bool-cases (n == 0)) [
  | inl t ↦ rw t s
  | inr f ↦ rw f (drop-IsAscending (n - 1) cs (IsAscending-tail c cs s))
]

module _ (P : Condition → Type 0) where
  take-All : (n : ℕ) (cs : List Condition) → All P cs → All P (take n cs)
  take-All n [] h = tt
  take-All n (c ∷ cs) (h, hs) = elim (Bool-cases (n == 0)) [
    | inl t ↦ rw t tt
    | inr f ↦ rw f (h, take-All (n - 1) cs hs)
  ]

  drop-All : (n : ℕ) (cs : List Condition) → All P cs → All P (drop n cs)
  drop-All n [] h = tt
  drop-All n (c ∷ cs) (h, hs) = elim (Bool-cases (n == 0)) [
    | inl t ↦ rw t (h, hs)
    | inr f ↦ rw f (drop-All (n - 1) cs hs)
  ]

  insert-All : (c : Condition) (cs : List Condition) → P c → All P cs → All P (insert c cs)
  unfolding insert
  insert-All c [] h hs = (h, tt)
  insert-All c (d ∷ cs) h (k, hs) = elim (Bool-cases (key_le c d)) [
    | inl t ↦ rw t (h, (k, hs))
    | inr f ↦ rw f (k, insert-All c cs h hs)
  ]

  sorted-All : (cs : List Condition) → All P cs → All P (sorted cs)
  unfolding sorted
  sorted-All [] h = tt
  sorted-All (c ∷ cs) (h, hs) = insert-All c (sorted cs) h (sorted-All cs hs)

length-take : (n : ℕ) (cs : List Condition) → length (take n cs) ≤ n
length-take n [] = omega arith
length-take n (c ∷ cs) = ground (arith, length-take (n - 1) cs)

-- One page of a group: between 1 and `size` conditions, all of the group, in ascending order.
abbrev pub IsPage : ℕ → GridPage → Type 0
IsPage size page =
    (1 ≤ length page.conditions)
    × (length page.conditions ≤ size)
    × All (λ c. type_to_meta c.condition_type ≡ some page.meta_label) page.conditions
    × IsAscending page.conditions

abbrev IsChunk : ℕ → String → List Condition → Type 0
IsChunk size meta_label conds =
    (1 ≤ length conds)
    × (length conds ≤ size)
    × All (IsOfGroup meta_label) conds
    × IsAscending conds

chunks-IsChunk :
    (fuel size : ℕ) (meta_label : String) (conds : List Condition)
    → 0 < size
    → All (IsOfGroup meta_label) conds
    → IsAscending conds
    → All (IsChunk size meta_label) (chunks fuel size conds)
unfolding chunks
chunks-IsChunk zero size meta_label conds positive own up = tt
chunks-IsChunk (suc fuel) size meta_label [] positive own up = tt
chunks-IsChunk (suc fuel) size meta_label (c ∷ cs) positive own up =
    let P = IsOfGroup meta_label in
    let some_taken : 1 ≤ length (take size (c ∷ cs)) = ground arith in
    (
      (
        some_taken,
        length-take size (c ∷ cs),
        take-All P size (c ∷ cs) own,
        take-IsAscending size (c ∷ cs) up,
      ),
      chunks-IsChunk fuel size meta_label (drop size (c ∷ cs)) positive
          (drop-All P size (c ∷ cs) own) (drop-IsAscending size (c ∷ cs) up),
    )

number_pages-IsPage :
    (size : ℕ) (meta_label : String) (n i : ℕ) (parts : List (List Condition))
    → All (IsChunk size meta_label) parts
    → All (IsPage size) (number_pages meta_label n i parts)
unfolding number_pages
number_pages-IsPage size meta_label n i [] h = tt
number_pages-IsPage size meta_label n i (part ∷ parts) (h, hs) =
    (h, number_pages-IsPage size meta_label n (i + 1) parts hs)

-- The pages of a group are pages of that size.
pub pages_of_group-IsPage :
    (size : ℕ) (meta_label : String) (conds : List Condition)
    → 0 < size
    → All (IsOfGroup meta_label) conds
    → All (IsPage size) (pages_of_group size meta_label conds)
unfolding pages_of_group
pages_of_group-IsPage size meta_label conds positive own =
    let in_order = sorted conds in
    let parts = chunks (length in_order) size in_order in
    number_pages-IsPage size meta_label (length parts) 1 parts (
      chunks-IsChunk (length in_order) size meta_label in_order positive
        (sorted-All (IsOfGroup meta_label) conds own) (sorted-IsAscending conds))

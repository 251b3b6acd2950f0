-- ===== src/PostConditions/GridLayout/Complete.antt =====
-- Splitting into pages as a whole: the pages hold each condition of known type as often as given.
use mathlib.Core.List.{append_assoc, Perm}
use mathlib.Core.List.Perm
use rsl_mom_bot.Prelude.{
  ℕ, zero, suc, ◌+◌, ◌-◌, ◌≤◌, ◌<◌, ◌≡◌, refl, ap, String, false, ◌==◌, List, [], ◌∷◌, ◌++◌, length,
  filter, All, All-append, arith, Bool-cases, inl, inr,
}
use rsl_mom_bot.Prelude.Exec.{Result, ok, err, ◌>>=ᵣ◌}
use rsl_mom_bot.PostConditions.Models.{Condition}
use rsl_mom_bot.PostConditions.Grouping.{Buckets, group_by_meta}
use rsl_mom_bot.PostConditions.Grouping.Laws.{
  IsOwnBucket, in_buckets, is_known, group_by_meta-IsOwnBucket, group_by_meta-perm,
}
use rsl_mom_bot.PostConditions.GridLayout.{
  GridPage, key_le, insert, sorted, take, drop, chunks, number_pages, pages_of_group, split_groups,
  split_by_meta_group,
}
use rsl_mom_bot.PostConditions.GridLayout.Pages.{IsPage, pages_of_group-IsPage}

-- The conditions of all pages.
abbrev pub on_pages : List GridPage → List Condition
on_pages [] = []
on_pages (page ∷ pages) = page.conditions ++ on_pages pages

on_pages-append : (ps qs : List GridPage) → on_pages (ps ++ qs) ≡ on_pages ps ++ on_pages qs
on_pages-append [] qs = refl
on_pages-append (p ∷ ps) qs =
    rw (on_pages-append ps qs, append_assoc p.conditions (on_pages ps) (on_pages qs)) refl

insert-perm : (c : Condition) (cs : List Condition) → Perm (insert c cs) (c ∷ cs)
unfolding insert
insert-perm c [] = Perm.rfl
insert-perm c (d ∷ cs) = elim (Bool-cases (key_le c d)) [
  | inl t ↦ rw t Perm.rfl
  | inr f ↦ rw f (Perm.trans (Perm.cons d (insert-perm c cs)) (Perm.swap c d cs))
]

sorted-perm : (cs : List Condition) → Perm (sorted cs) cs
unfolding sorted
sorted-perm [] = Perm.rfl
sorted-perm (c ∷ cs) = Perm.trans (insert-perm c (sorted cs)) (Perm.cons c (sorted-perm cs))

take-drop : (n : ℕ) (cs : List Condition) → take n cs ++ drop n cs ≡ cs
take-drop n [] = refl
take-drop n (c ∷ cs) = elim (Bool-cases (n == 0)) [
  | inl t ↦ rw t refl
  | inr f ↦ rw f (ap (λ rest. c ∷ rest) (take-drop (n - 1) cs))
]

length-drop : (n : ℕ) (cs : List Condition) → length (drop n cs) ≡ length cs - n
length-drop n [] = omega arith
length-drop n (c ∷ cs) = ground (arith, length-drop (n - 1) cs)

abbrev joined : List (List Condition) → List Condition
joined [] = []
joined (part ∷ parts) = part ++ joined parts

-- Fuel for every condition is enough to slice them all.
joined-chunks :
    (fuel size : ℕ) (cs : List Condition)
    → 0 < size
    → length cs ≤ fuel
    → joined (chunks fuel size cs) ≡ cs
unfolding chunks
joined-chunks zero size [] positive h = refl
joined-chunks zero size (c ∷ cs) positive h = absurd (omega (arith, h))
joined-chunks (suc fuel) size [] positive h = refl
joined-chunks (suc fuel) size (c ∷ cs) positive h =
    let rest = drop size (c ∷ cs) in
    let shorter : length rest ≤ fuel = omega (arith, h, positive, length-drop size (c ∷ cs)) in
    rw (joined-chunks fuel size rest positive shorter) (take-drop size (c ∷ cs))

on_pages-number_pages :
    (meta_label : String) (n i : ℕ) (parts : List (List Condition))
    → on_pages (number_pages meta_label n i parts) ≡ joined parts
unfolding number_pages
on_pages-number_pages meta_label n i [] = refl
on_pages-number_pages meta_label n i (part ∷ parts) =
    rw (on_pages-number_pages meta_label n (i + 1) parts) refl

pages_of_group-perm :
    (size : ℕ) (meta_label : String) (conds : List Condition)
    → 0 < size
    → Perm (on_pages (pages_of_group size meta_label conds)) conds
unfolding pages_of_group
pages_of_group-perm size meta_label conds positive =
    let in_order = sorted conds in
    let fuel = length in_order in
    let parts = chunks fuel size in_order in
    rw
      (
        on_pages-number_pages meta_label (length parts) 1 parts,
        joined-chunks fuel size in_order positive (omega arith),
      )
      (sorted-perm conds)

-- The pages that come out, where the page size is not 0.
abbrev pub IsSplit : ℕ → List Condition → Result (List GridPage) → Type 0
IsSplit size known (ok pages) = All (IsPage size) pages × Perm (on_pages pages) known
IsSplit size known (err e) = ⊥

with_group :
    (size : ℕ) (meta_label : String) (conds known : List Condition) (rest : Result (List GridPage))
    → 0 < size
    → IsOwnBucket (meta_label, conds)
    → IsSplit size known rest
    → IsSplit size
        (conds ++ known)
        (rest >>=ᵣ λ pages. ok (pages_of_group size meta_label conds ++ pages))
with_group size meta_label conds known (err e) positive own h = h
with_group size meta_label conds known (ok pages) positive own (sized, all) =
    let first = pages_of_group size meta_label conds in
    (
      All-append (IsPage size) first pages
          (pages_of_group-IsPage size meta_label conds positive own) sized,
      rw (on_pages-append first pages) (
          Perm.trans (Perm.append_left (on_pages first) all)
            (Perm.append_right known (pages_of_group-perm size meta_label conds positive))),
    )

split_groups-IsSplit :
    (size : ℕ) (groups : Buckets)
    → 0 < size
    → All IsOwnBucket groups
    → IsSplit size (in_buckets groups) (split_groups size groups)
unfolding split_groups
split_groups-IsSplit size [] positive own = (tt, Perm.rfl)
split_groups-IsSplit size ((meta_label, conds) ∷ groups) positive (own, owns) =
    let not_zero : (size == 0) ≡ false = ground arith in
    rw not_zero (
      with_group size meta_label conds (in_buckets groups) (split_groups size groups) positive own
        (split_groups-IsSplit size groups positive owns))

-- Every result that is a permutation of what was known.
IsSplit-perm :
    (size : ℕ) (known all : List Condition) (result : Result (List GridPage))
    → Perm known all
    → IsSplit size known result
    → IsSplit size all result
IsSplit-perm size known all (ok pages) p (sized, h) = (sized, Perm.trans h p)
IsSplit-perm size known all (err e) p h = h

-- With a page size that is not 0 the split gives pages. Each holds at least one and at most that
-- many conditions, all of the group that it names, ordered by type and id; together the pages hold
-- each condition of a known type as often as it was given, and nothing else.
pub split_by_meta_group_lem :
    (conditions : List Condition) (size : ℕ)
    → 0 < size
    → IsSplit size (filter is_known conditions) (split_by_meta_group conditions size)
unfolding split_by_meta_group
split_by_meta_group_lem conditions size positive =
    let groups = group_by_meta conditions in
    IsSplit-perm size (in_buckets groups) (filter is_known conditions) (split_groups size groups)
      (group_by_meta-perm conditions)
      (split_groups-IsSplit size groups positive (group_by_meta-IsOwnBucket conditions))

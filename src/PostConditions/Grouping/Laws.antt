-- ===== src/PostConditions/Grouping/Laws.antt =====
-- What the buckets hold: each condition stands in the bucket of its own group, and none is lost.
use mathlib.Core.List.{append_assoc, append-nil, Perm, perm_middle}
use mathlib.Core.List.Perm
use rsl_mom_bot.Prelude.{
  ℕ, suc, length, String, ◌≡◌, refl, sym, Bool, true, false, ◌=ₛ◌, none, some, List, [], ◌∷◌, ◌++◌,
  map, filter, All, All-append, All-filter, All-map, find?-All, find?, any, ◌∙◌, Option-cases,
  Bool-cases, inl, inr, eq_iff, arith,
}
use rsl_mom_bot.PostConditions.Models.{Condition}
use rsl_mom_bot.PostConditions.Grouping.{
  Buckets, meta_groups, type_to_meta, add_to_bucket, fill_buckets, is_filled, group_by_meta,
}

abbrev pub IsOfGroup : String → Condition → Type 0
IsOfGroup label c = type_to_meta c.condition_type ≡ some label

abbrev pub IsOwnBucket : String × List Condition → Type 0
IsOwnBucket (label, conds) = All (IsOfGroup label) conds

add_to_bucket-IsOwnBucket :
    (label : String) (cond : Condition) (buckets : Buckets)
    → IsOfGroup label cond
    → All IsOwnBucket buckets
    → All IsOwnBucket (add_to_bucket label cond buckets)
unfolding add_to_bucket
add_to_bucket-IsOwnBucket label cond [] own h = tt
add_to_bucket-IsOwnBucket label cond ((l, conds) ∷ buckets) own (h, hs) =
    let rest = add_to_bucket-IsOwnBucket label cond buckets own hs in
    elim (Bool-cases (label =ₛ l)) [
      | inl t ↦
          let same = (eq_iff label l).0 t in
          rw t (All-append (IsOfGroup l) conds (cond ∷ []) h (rw same at own, tt), rest)
      | inr f ↦ rw f (h, rest)
    ]

fill_buckets-IsOwnBucket :
    (conditions : List Condition) (buckets : Buckets)
    → All IsOwnBucket buckets
    → All IsOwnBucket (fill_buckets conditions buckets)
unfolding fill_buckets
fill_buckets-IsOwnBucket [] buckets h = h
fill_buckets-IsOwnBucket (cond ∷ conditions) buckets h =
    elim (Option-cases (type_to_meta cond.condition_type)) [
      | inl e ↦ rw (e, fill_buckets) (fill_buckets-IsOwnBucket conditions buckets h)
      | inr (label, e) ↦
          let added = add_to_bucket label cond buckets in
          rw (e, fill_buckets)
            (fill_buckets-IsOwnBucket conditions added
              (add_to_bucket-IsOwnBucket label cond buckets e h))
    ]

-- Each group holds conditions of its own types only.
pub group_by_meta-IsOwnBucket :
    (conditions : List Condition) → All IsOwnBucket (group_by_meta conditions)
unfolding group_by_meta
group_by_meta-IsOwnBucket conditions =
    let start : Buckets = map (λ group. (group.0, [])) meta_groups in
    All-filter IsOwnBucket is_filled (fill_buckets conditions start)
      (fill_buckets-IsOwnBucket conditions start (tt, (tt, (tt, tt))))

-- The conditions of all buckets.
abbrev pub in_buckets : Buckets → List Condition
in_buckets [] = []
in_buckets ((l, conds) ∷ buckets) = conds ++ in_buckets buckets

abbrev pub is_known : Condition → Bool
is_known c = elim (type_to_meta c.condition_type) [ some _ ↦ true | none ↦ false ]

abbrev labelled : String → Buckets → ℕ
labelled label buckets = length (filter (λ b. label =ₛ b.0) buckets)

labelled-add_to_bucket :
    (label l : String) (c : Condition) (buckets : Buckets)
    → labelled l (add_to_bucket label c buckets) ≡ labelled l buckets
unfolding add_to_bucket
labelled-add_to_bucket label l c [] = refl
labelled-add_to_bucket label l c (b ∷ buckets) =
    ground (arith, labelled-add_to_bucket label l c buckets)

add_to_bucket_absent :
    (label : String) (c : Condition) (buckets : Buckets)
    → labelled label buckets ≡ 0
    → add_to_bucket label c buckets ≡ buckets
unfolding add_to_bucket
add_to_bucket_absent label c [] h = refl
add_to_bucket_absent label c ((l, conds) ∷ buckets) h = elim (Bool-cases (label =ₛ l)) [
  | inl t ↦ let none_left : suc _ ≡ 0 = rw t at h in cc
  | inr f ↦ rw (f, add_to_bucket_absent label c buckets (rw f at h)) refl
]

-- The condition is added to the one bucket of its label.
add_to_bucket-perm :
    (label : String) (c : Condition) (buckets : Buckets)
    → labelled label buckets ≡ 1
    → Perm (in_buckets (add_to_bucket label c buckets)) (c ∷ in_buckets buckets)
unfolding add_to_bucket
add_to_bucket-perm label c [] h = absurd (omega (arith, h))
add_to_bucket-perm label c ((l, conds) ∷ buckets) h = elim (Bool-cases (label =ₛ l)) [
  | inl t ↦
      let one : suc (labelled label buckets) ≡ 1 = rw t at h in
      let absent = add_to_bucket_absent label c buckets (omega (arith, one)) in
      rw (t, absent, append_assoc conds (c ∷ []) (in_buckets buckets))
        (perm_middle conds (in_buckets buckets))
  | inr f ↦
      let later = add_to_bucket-perm label c buckets (rw f at h) in
      rw f (Perm.trans (Perm.append_left conds later) (perm_middle conds (in_buckets buckets)))
]

abbrev IsOnce : Buckets → String × List String → Type 0
IsOnce buckets group = labelled group.0 buckets ≡ 1

-- The buckets in which every group stands once.
abbrev IsComplete : Buckets → Type 0
IsComplete buckets = All (IsOnce buckets) meta_groups

type_to_meta-labelled :
    (ct label : String) (buckets : Buckets)
    → IsComplete buckets
    → type_to_meta ct ≡ some label
    → labelled label buckets ≡ 1
unfolding type_to_meta
type_to_meta-labelled ct label buckets h e =
    let here : String × List String → Bool = λ group. any (λ t. t =ₛ ct) group.1 in
    elim (Option-cases (find? here meta_groups)) [
      | inl n ↦ let nothing : none ≡ some label = rw (n, type_to_meta) at e in cc
      | inr (group, f) ↦
          let found : some group.0 ≡ some label = rw (f, type_to_meta) at e in
          let same : group.0 ≡ label = cc in
          rw (sym same) (find?-All (IsOnce buckets) here meta_groups group h f).0
    ]

fill_buckets-perm :
    (conditions : List Condition) (buckets : Buckets)
    → IsComplete buckets
    → Perm
        (in_buckets (fill_buckets conditions buckets))
        (filter is_known conditions ++ in_buckets buckets)
unfolding fill_buckets
fill_buckets-perm [] buckets h = Perm.rfl
fill_buckets-perm (c ∷ conditions) buckets h = elim (Option-cases (type_to_meta c.condition_type)) [
  | inl e ↦
      let unknown : is_known c ≡ false = rw (e, is_known) refl in
      rw (unknown, e, fill_buckets) (fill_buckets-perm conditions buckets h)
  | inr (label, e) ↦
      let is_one : is_known c ≡ true = rw (e, is_known) refl in
      let added = add_to_bucket label c buckets in
      let still : IsComplete added =
        All-map (IsOnce buckets) (IsOnce added) meta_groups
          (λ group k. labelled-add_to_bucket label group.0 c buckets ∙ k) h in
      let once = type_to_meta-labelled c.condition_type label buckets h e in
      let known = filter is_known conditions in
      rw (is_one, e, fill_buckets)
        (Perm.trans (fill_buckets-perm conditions added still) (
          Perm.trans (Perm.append_left known (add_to_bucket-perm label c buckets once))
            (perm_middle known (in_buckets buckets))))
]

in_buckets-filter : (buckets : Buckets) → in_buckets (filter is_filled buckets) ≡ in_buckets buckets
in_buckets-filter [] = refl
in_buckets-filter ((l, []) ∷ buckets) = in_buckets-filter buckets
in_buckets-filter ((l, c ∷ conds) ∷ buckets) = rw (in_buckets-filter buckets) refl

-- The groups hold the conditions of known type, each as often as it was given.
pub group_by_meta-perm :
    (conditions : List Condition)
    → Perm (in_buckets (group_by_meta conditions)) (filter is_known conditions)
unfolding group_by_meta
group_by_meta-perm conditions =
    let start : Buckets = map (λ group. (group.0, [])) meta_groups in
    rw in_buckets-filter
      (rw append-nil at (fill_buckets-perm conditions start (refl, (refl, (refl, tt)))))

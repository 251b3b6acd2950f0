-- ===== src/PostConditions/Embed/Limit.antt =====
-- The limit of 4096 characters, and what the marker of a shortened text says.
use mathlib.Core.List.{append_assoc, append-nil}
use rsl_mom_bot.Prelude.{
  ℕ, ◌+◌, ◌-◌, ◌≤◌, ◌≡◌, refl, sym, ◌∙◌, ap, true, false, leb, ltb, List, [], ◌∷◌, ◌++◌, length,
  length-append, arith, Bool-cases, ◌⊎◌, inl, inr,
}
use rsl_mom_bot.PostConditions.Embed.Marker.{truncation_suffix-length, truncation_suffix_short}
use rsl_mom_bot.PostConditions.Embed.{
  Line, embed_max_chars, truncation_suffix, join_lines, is_heading, is_item, count_items,
  keep_lines, pop_line, pop_headings, truncated, describe_lines,
}

-- The first lines alone are no longer.
join_lines-prefix : (xs ys : List Line) → length (join_lines xs) ≤ length (join_lines (xs ++ ys))
unfolding join_lines
join_lines-prefix [] ys = omega arith
join_lines-prefix (x ∷ []) [] = omega arith
join_lines-prefix (x ∷ []) (y ∷ ys) = omega (arith, length-append x (b'\n' ∷ join_lines (y ∷ ys)))
join_lines-prefix (x ∷ z ∷ xs) ys = omega (
  arith,
  join_lines-prefix (z ∷ xs) ys,
  length-append x (b'\n' ∷ join_lines (z ∷ xs)),
  length-append x (b'\n' ∷ join_lines (z ∷ (xs ++ ys))),
)

count_items-append : (xs ys : List Line) → count_items (xs ++ ys) ≡ count_items xs + count_items ys
unfolding count_items
count_items-append [] ys = omega arith
count_items-append (x ∷ xs) ys = ground (arith, count_items-append xs ys)

-- What the loop kept after `kept`: the first lines, and they fit with the suffix.
abbrev IsKept : ℕ → List Line → List Line → List Line → Type 0
IsKept suffix_len kept lines result =
    (shown : List Line) × (rest : List Line) × (lines ≡ shown ++ rest)
    × (result ≡ kept ++ shown)
    × ((shown ≡ []) ⊎ (length (join_lines result) + 1 + suffix_len ≤ embed_max_chars))

fits_or_empty :
    (suffix_len : ℕ) (kept : List Line) (ln : Line) (shown : List Line) (result : List Line)
    → result ≡ (kept ++ ln ∷ []) ++ shown
    → (shown ≡ []) ⊎ (length (join_lines result) + 1 + suffix_len ≤ embed_max_chars)
    → length (join_lines (kept ++ ln ∷ [])) + 1 + suffix_len ≤ embed_max_chars
    → length (join_lines result) + 1 + suffix_len ≤ embed_max_chars
fits_or_empty suffix_len kept ln shown result e (inr fits) first = fits
fits_or_empty suffix_len kept ln shown result e (inl none_left) first =
    rw (e, none_left, append-nil) first

keep_lines-IsKept :
    (suffix_len : ℕ) (kept lines : List Line)
    → IsKept suffix_len kept lines (keep_lines suffix_len kept lines)
unfolding keep_lines
keep_lines-IsKept suffix_len kept [] = ([], [], refl, sym (append-nil kept), inl refl)
keep_lines-IsKept suffix_len kept (ln ∷ lines) =
    let tentative = kept ++ ln ∷ [] in
    let size = length (join_lines tentative) + 1 + suffix_len in
    let result = keep_lines suffix_len tentative lines in
    let (shown, rest, split, all, fits) = keep_lines-IsKept suffix_len tentative lines in
    elim (Bool-cases (ltb embed_max_chars size)) [
      | inl t ↦ rw t ([], ln ∷ lines, refl, sym (append-nil kept), inl refl)
      | inr f ↦
          let first : size ≤ embed_max_chars = ground arith in
          let final = fits_or_empty suffix_len kept ln shown result all fits first in
          rw f (
            ln ∷ shown,
            rest,
            ap (λ r. ln ∷ r) split,
            all ∙ append_assoc kept (ln ∷ []) shown,
            inr final,
          )
    ]

-- Some of the lines, from the end, are left out; they are no items.
abbrev IsPopped : List Line → List Line → Type 0
IsPopped lines left = (popped : List Line) × (lines ≡ left ++ popped) × (count_items popped ≡ 0)

heading_is_no_item : (ln : Line) → is_heading ln ≡ true → is_item ln ≡ false
heading_is_no_item [] h = refl
heading_is_no_item (c ∷ cs) h = rw h refl

pop_line-IsPopped :
    (ln : Line) (lines left : List Line)
    → IsPopped lines left
    → IsPopped (ln ∷ lines) (pop_line ln left)
unfolding pop_line count_items
pop_line-IsPopped ln lines (m ∷ ms) (popped, split, no_item) =
    (popped, ap (λ r. ln ∷ r) split, no_item)
pop_line-IsPopped ln lines [] (popped, split, no_item) = elim (Bool-cases (is_heading ln)) [
  | inl t ↦ rw t (ln ∷ popped, ap (λ r. ln ∷ r) split, rw (heading_is_no_item ln t) no_item)
  | inr f ↦ rw f (popped, ap (λ r. ln ∷ r) split, no_item)
]

pop_headings-IsPopped : (lines : List Line) → IsPopped lines (pop_headings lines)
unfolding pop_headings count_items
pop_headings-IsPopped [] = ([], refl, refl)
pop_headings-IsPopped (ln ∷ lines) =
    pop_line-IsPopped ln lines (pop_headings lines) (pop_headings-IsPopped lines)

-- The text with all lines, or the first lines with the number of the items that are left out.
abbrev pub IsShortened : List Line → List ℕ → Type 0
IsShortened lines text =
    (shown : List Line) × (rest : List Line) × (lines ≡ shown ++ rest)
    × (text ≡ join_lines shown ++ b'\n' ∷ truncation_suffix (count_items rest))

join_lines_none : (kept : List Line) → kept ≡ [] → length (join_lines kept) ≡ 0
unfolding join_lines
join_lines_none kept h = rw h refl

-- Text and suffix fit, also where no line was kept.
reserve_fits :
    (reserve : ℕ) (first kept : List Line)
    → kept ≡ first
    → (first ≡ []) ⊎ (length (join_lines kept) + 1 + reserve ≤ embed_max_chars)
    → reserve ≤ 4012
    → length (join_lines kept) + 1 + reserve ≤ embed_max_chars
reserve_fits reserve first kept e (inr fits) small = fits
reserve_fits reserve first kept e (inl none_left) small =
    omega (arith, small, join_lines_none kept (e ∙ none_left))

truncated-IsShortened :
    (lines : List Line)
    → count_items lines ≤ 4000
    → IsShortened lines (truncated lines) × (length (truncated lines) ≤ embed_max_chars)
unfolding truncated
truncated-IsShortened lines few =
    let total = count_items lines in
    let reserve = length (truncation_suffix total) in
    let kept = keep_lines reserve [] lines in
    let (first, rest, split, result, fits) = keep_lines-IsKept reserve [] lines in
    let (popped, left, no_item) = pop_headings-IsPopped kept in
    let shown = pop_headings kept in
    let dropped = total - count_items kept in
    let whole : lines ≡ shown ++ (popped ++ rest) =
      split ∙ ap (λ x. x ++ rest) (sym result ∙ left) ∙ append_assoc shown popped rest in
    let count : dropped ≡ count_items (popped ++ rest) = omega (
      arith,
      ap count_items split,
      count_items-append first rest,
      ap count_items result,
      count_items-append popped rest,
      no_item,
    ) in
    let small : reserve ≤ 4012 = omega (arith, truncation_suffix_short total, few) in
    let room = reserve_fits reserve first kept result fits small in
    let text = join_lines shown ++ b'\n' ∷ truncation_suffix dropped in
    let bound : length text ≤ embed_max_chars = omega (
      arith,
      length-append (join_lines shown) (b'\n' ∷ truncation_suffix dropped),
      truncation_suffix-length dropped total (omega arith),
      join_lines-prefix shown popped,
      ap (λ x. length (join_lines x)) left,
      room,
    ) in
    (
      (
        shown,
        popped ++ rest,
        whole,
        ap (λ n. join_lines shown ++ b'\n' ∷ truncation_suffix n) count,
      ),
      bound,
    )

-- The description of an embed of at most 4000 selected conditions has at most 4096 characters. It
-- shows all the lines, or the first lines and the exact number of conditions that are left out.
pub describe_lines_lem :
    (l : Line) (ls : List Line)
    → count_items (l ∷ ls) ≤ 4000
    → (length (describe_lines (l ∷ ls)) ≤ embed_max_chars)
      × ((describe_lines (l ∷ ls) ≡ join_lines (l ∷ ls))
          ⊎ IsShortened (l ∷ ls) (describe_lines (l ∷ ls)))
unfolding describe_lines
describe_lines_lem l ls few =
    let lines = l ∷ ls in
    elim (Bool-cases (leb (length (join_lines lines)) embed_max_chars)) [
      | inl t ↦ rw (t, describe_lines) (ground arith, inl refl)
      | inr f ↦
          rw (f, describe_lines)
            (let (shortened, bound) = truncated-IsShortened lines few in (bound, inr shortened))
    ]

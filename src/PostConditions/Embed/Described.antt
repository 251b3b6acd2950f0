-- ===== src/PostConditions/Embed/Described.antt =====
-- The description of an embed, shortened or not, by the selected conditions that it shows.
use mathlib.Core.List.{append_assoc}
use rsl_mom_bot.Prelude.{
  ℕ, suc, Bool-cases, ==→eq, ◌≤◌, ◌≡◌, ◌≢◌, refl, sym, ◌∙◌, ap, String, true, ◌==◌, ◌=ₛ◌, List, [],
  ◌∷◌, ◌++◌, map, find?, find?-All, length, arith, All, none, some, Option-cases, ◌⊎◌, inl, inr,
}
use rsl_mom_bot.PyText.{codes, codes_prefix}
use rsl_mom_bot.PostConditions.Models.{Condition}
use rsl_mom_bot.PostConditions.Grouping.{Buckets}
use rsl_mom_bot.PostConditions.Embed.{
  Line, embed_max_chars, type_emojis, emoji_prefix, truncation_suffix, group_lines, collect_lines,
  separated, heading, join_lines, is_item, count_items, describe_lines, build_grouped_embed,
}
use rsl_mom_bot.PostConditions.Embed.Layout.{
  Piece, group, blank, item, line_of, chosen_of, chosen, group_pieces, beside, layout,
  conditions_in, conditions_in-layout, beside_assoc, map-append, map-items,
}
use rsl_mom_bot.PostConditions.Embed.Limit.{IsShortened, describe_lines_lem}

-- The lines after a group.
add_group :
    (label : String) (acc : List Piece) (cs : List Condition)
    → (elim (map (λ c. emoji_prefix c.condition_type ++ codes c.description) cs)
        as (λ _. List Line) [
          | [] ↦ map line_of acc
          | l ∷ ls ↦ separated (map line_of acc) ++ heading label ∷ l ∷ ls
        ])
      ≡ map line_of (beside acc (group_pieces label cs))
add_group label [] [] = refl
add_group label (x ∷ xs) [] = refl
add_group label [] (c ∷ cs) = ap (λ r. heading label ∷ r) (map-items (c ∷ cs))
add_group label (x ∷ xs) (c ∷ cs) =
    ap (λ r. line_of x ∷ r)
      (append_assoc (map line_of xs) ([] ∷ [])
          (heading label ∷ map (λ k. line_of (item k)) (c ∷ cs))
        ∙ ap (λ r. map line_of xs ++ [] ∷ heading label ∷ r) (map-items (c ∷ cs))
        ∙ sym (map-append xs (blank ∷ group label ∷ map item (c ∷ cs))))

collect_lines-layout :
    (ids : List ℕ) (pages : Buckets) (acc : List Piece)
    → collect_lines ids pages (map line_of acc) ≡ map line_of (beside acc (layout ids pages))
unfolding collect_lines group_lines layout
collect_lines-layout ids [] [] = refl
collect_lines-layout ids [] (x ∷ xs) = refl
collect_lines-layout ids ((label, conditions) ∷ pages) acc =
    let here = group_pieces label (chosen_of ids conditions) in
    ap (λ lines. collect_lines ids pages lines) (add_group label acc (chosen_of ids conditions))
    ∙ collect_lines-layout ids pages (beside acc here)
    ∙ ap (λ r. map line_of r) (beside_assoc acc here (layout ids pages))

-- The description begins with a character, and not with a `*`.
abbrev IsPlainText : List ℕ → Type 0
IsPlainText [] = ⊥
IsPlainText (c ∷ cs) = c ≢ b'*'

abbrev pub IsPlain : Condition → Type 0
IsPlain c = IsPlainText (codes c.description)

plain_emojis : All (λ (entry : String × List ℕ). IsPlainText entry.1) type_emojis
plain_emojis = (λ e. cc, (λ e. cc, (λ e. cc, (λ e. cc, (λ e. cc, (λ e. cc, (λ e. cc, tt)))))))

plain_item : (line : List ℕ) → IsPlainText line → is_item line ≡ true
unfolding codes_prefix
plain_item [] h = absurd h
plain_item (c ∷ cs) h = elim (Bool-cases (b'*' == c)) [
  | inl e ↦ absurd (h (sym (==→eq b'*' c e)))
  | inr f ↦ rw f refl
]

plain-append : (a b : List ℕ) → IsPlainText a → IsPlainText (a ++ b)
plain-append [] b h = absurd h
plain-append (c ∷ cs) b h = h

prefix_of :
    (ct : String) (entry : String × List ℕ)
    → find? (λ entry. entry.0 =ₛ ct) type_emojis ≡ some entry
    → emoji_prefix ct ≡ entry.1 ++ codes " "
unfolding emoji_prefix
prefix_of ct entry e = rw (emoji_prefix, e) refl

no_prefix : (ct : String) → find? (λ entry. entry.0 =ₛ ct) type_emojis ≡ none → emoji_prefix ct ≡ []
unfolding emoji_prefix
no_prefix ct e = rw (emoji_prefix, e) refl

plain_prefix : (ct : String) → (emoji_prefix ct ≡ []) ⊎ IsPlainText (emoji_prefix ct)
plain_prefix ct = elim (Option-cases (find? (λ entry. entry.0 =ₛ ct) type_emojis)) [
  | inl e ↦ inl (no_prefix ct e)
  | inr (entry, e) ↦
      let found =
        find?-All (λ (k : String × List ℕ). IsPlainText k.1) (λ entry. entry.0 =ₛ ct) type_emojis
          entry plain_emojis e in
      inr (rw (prefix_of ct entry e) (plain-append entry.1 (codes " ") found.0))
]

condition_is_item : (c : Condition) → IsPlain c → is_item (line_of (item c)) ≡ true
condition_is_item c h = elim (plain_prefix c.condition_type) [
  | inl e ↦
      ap (λ prefix. is_item (prefix ++ codes c.description)) e ∙ plain_item (codes c.description) h
  | inr p ↦
      plain_item (line_of (item c))
        (plain-append (emoji_prefix c.condition_type) (codes c.description) p)
]

count_items-conditions :
    (pieces : List Piece)
    → All IsPlain (conditions_in pieces)
    → count_items (map line_of pieces) ≡ length (conditions_in pieces)
unfolding count_items codes_prefix
count_items-conditions [] h = refl
count_items-conditions (group label ∷ pieces) h = count_items-conditions pieces h
count_items-conditions (blank ∷ pieces) h = count_items-conditions pieces h
count_items-conditions (item c ∷ pieces) h =
    rw (condition_is_item c h.0) (ap (λ n. suc n) (count_items-conditions pieces h.1))

-- Lines that are split are the lines of pieces that are split.
split_pieces :
    (pieces : List Piece) (shown rest : List Line)
    → map line_of pieces ≡ shown ++ rest
    → (first : List Piece) × (last : List Piece) × (pieces ≡ first ++ last)
      × (map line_of first ≡ shown)
      × (map line_of last ≡ rest)
split_pieces pieces [] rest h = ([], pieces, refl, refl, h)
split_pieces [] (s ∷ shown) rest h = cc
split_pieces (p ∷ pieces) (s ∷ shown) rest h =
    let (first, last, split, is_shown, is_rest) = split_pieces pieces shown rest cc in
    (p ∷ first, last, ap (λ r. p ∷ r) split, cc, is_rest)

All-last :
    (first last : List Piece)
    → All IsPlain (conditions_in (first ++ last))
    → All IsPlain (conditions_in last)
All-last [] last h = h
All-last (group label ∷ first) last h = All-last first last h
All-last (blank ∷ first) last h = All-last first last h
All-last (item c ∷ first) last h = All-last first last h.1

-- The text shows all the pieces, or the first of them with the number of conditions that the others
-- hold.
abbrev pub Shows : List Piece → List ℕ → Type 0
Shows pieces text =
    (text ≡ join_lines (map line_of pieces))
    ⊎ ((first : List Piece) × (last : List Piece) × (pieces ≡ first ++ last)
        × (text
            ≡ join_lines (map line_of first)
              ++ b'\n' ∷ truncation_suffix (length (conditions_in last))))

shortened-Shows :
    (pieces : List Piece) (text : List ℕ)
    → All IsPlain (conditions_in pieces)
    → IsShortened (map line_of pieces) text
    → Shows pieces text
shortened-Shows pieces text plain (shown, rest, split, is_text) =
    let (first, last, both, is_shown, is_rest) = split_pieces pieces shown rest split in
    let count = count_items-conditions last (All-last first last (rw both at plain)) in
    inr (first, last, both, rw (is_text, sym is_shown, sym is_rest, count) refl)

described :
    (pieces : List Piece)
    → All IsPlain (conditions_in pieces)
    → length (conditions_in pieces) ≤ 4000
    → ¬ (conditions_in pieces ≡ [])
    → (length (describe_lines (map line_of pieces)) ≤ embed_max_chars)
      × Shows pieces (describe_lines (map line_of pieces))
described [] plain few some_there = absurd (some_there refl)
described (p ∷ ps) plain few some_there =
    let count = count_items-conditions (p ∷ ps) plain in
    let (bound, either) =
      describe_lines_lem (line_of p) (map line_of ps) (omega (arith, few, count)) in
    (
      bound,
      elim either [
        | inl whole ↦ inl whole
        | inr shortened ↦ shortened-Shows (p ∷ ps) _ plain shortened
      ],
    )

-- The embed of at most 4000 selected conditions, and at least one, whose descriptions begin with a
-- character other than `*`: its description has at most 4096 characters. It shows the layout of these
-- conditions, by groups with a heading and a blank line between them; or the first lines of that
-- layout, and the exact number of the selected conditions that are left out.
pub build_grouped_embed-Shows :
    (pages : Buckets) (id : ℕ) (ids : List ℕ)
    → All IsPlain (chosen (id ∷ ids) pages)
    → length (chosen (id ∷ ids) pages) ≤ 4000
    → ¬ (chosen (id ∷ ids) pages ≡ [])
    → let text = build_grouped_embed pages (id ∷ ids) in
      let pieces = layout (id ∷ ids) pages in
      (length text ≤ embed_max_chars)
      × Shows pieces text
      × (conditions_in pieces ≡ chosen (id ∷ ids) pages)
unfolding build_grouped_embed
build_grouped_embed-Shows pages id ids plain few some_there =
    let same = conditions_in-layout (id ∷ ids) pages in
    let back = sym same in
    let (bound, shows) =
      described (layout (id ∷ ids) pages) (rw back at plain) (rw back at few)
        (rw back at some_there) in
    rw (collect_lines-layout (id ∷ ids) pages []) (bound, shows, same)

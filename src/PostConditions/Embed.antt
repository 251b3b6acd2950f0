-- ===== src/PostConditions/Embed.antt =====
-- src/mom_bot/post_conditions/views.py: the text of an embed that lists conditions by group. A
-- line is its code points, and so is the description.
mod Marker
pub mod Limit
pub mod Layout
pub mod Described
mod Tests
use rsl_mom_bot.Prelude.{
  ℕ, ◌+◌, ◌-◌, String, Bool, true, false, not, ◌&&◌, ◌=ₛ◌, leb, ltb, if◌then◌else◌, Option, none,
  some, List, [], ◌∷◌, ◌++◌, map, filter, length, contains, find?,
}
use rsl_mom_bot.Prelude.Int.{pos}
use rsl_mom_bot.PyText.{codes, codes_prefix, str_of}
use rsl_mom_bot.PostConditions.Models.{Condition}
use rsl_mom_bot.PostConditions.Grouping.{Buckets}

abbrev pub Line : Type 0
Line = List ℕ

abbrev pub embed_max_chars : ℕ
embed_max_chars = 4096

-- `_TYPE_EMOJI`, each emoji by its code points.
abbrev pub type_emojis : List (String × List ℕ)
type_emojis =
    ("faction", 9876 ∷ 65039 ∷ [])
    ∷ ("league", 127760 ∷ [])
    ∷ ("role", 128737 ∷ 65039 ∷ [])
    ∷ ("affinity", 10024 ∷ [])
    ∷ ("rarity", 128142 ∷ [])
    ∷ ("effect", 128302 ∷ [])
    ∷ ("other", 128203 ∷ [])
    ∷ []

-- `_TYPE_EMOJI.get(type, "")`, with a space after an emoji.
unfoldable pub emoji_prefix : String → Line
emoji_prefix ct = elim (find? (λ entry. entry.0 =ₛ ct) type_emojis) [
  | some entry ↦ entry.1 ++ codes " "
  | none ↦ []
]

-- `_TRUNCATION_SUFFIX.format(n=n)`.
unfoldable pub truncation_suffix : ℕ → Line
unfolding str_of
truncation_suffix n = codes "… and " ++ str_of (pos n) ++ codes " more"

-- The lines of the selected conditions of one group.
unfoldable pub group_lines : List ℕ → List Condition → List Line
unfolding emoji_prefix
group_lines selected_ids conditions =
    map (λ c. emoji_prefix c.condition_type ++ codes c.description)
      (filter (λ c. contains c.id selected_ids) conditions)

abbrev heading : String → Line
heading label = codes "**" ++ codes label ++ codes "**"

-- `lines.append("")`, if a group was emitted before.
abbrev separated : List Line → List Line
separated [] = []
separated (l ∷ ls) = (l ∷ ls) ++ [] ∷ []

-- The groups that have lines, each under its heading, with a blank line between.
unfoldable pub collect_lines : List ℕ → Buckets → List Line → List Line
unfolding group_lines
collect_lines selected_ids [] lines = lines
collect_lines selected_ids ((label, conditions) ∷ pages) lines =
    collect_lines selected_ids pages (elim (group_lines selected_ids conditions) [
      | [] ↦ lines
      | l ∷ ls ↦ separated lines ++ heading label ∷ l ∷ ls
    ])

-- `"\n".join(lines)`.
unfoldable pub join_lines : List Line → List ℕ
join_lines [] = []
join_lines (l ∷ []) = l
join_lines (l ∷ m ∷ ls) = l ++ b'\n' ∷ join_lines (m ∷ ls)

abbrev pub is_heading : Line → Bool
is_heading line = codes_prefix (codes "**") line

-- `ln and not ln.startswith("**")`.
abbrev pub is_item : Line → Bool
is_item [] = false
is_item (c ∷ cs) = not (is_heading (c ∷ cs))

unfoldable pub count_items : List Line → ℕ
unfolding codes_prefix
count_items lines = length (filter is_item lines)

-- The loop that keeps lines while they and the suffix fit.
unfoldable pub keep_lines : ℕ → List Line → List Line → List Line
unfolding join_lines
keep_lines suffix_len kept [] = kept
keep_lines suffix_len kept (ln ∷ lines) =
    let tentative = kept ++ ln ∷ [] in
    let rest = keep_lines suffix_len tentative lines in
    if ltb embed_max_chars (length (join_lines tentative) + 1 + suffix_len) then kept else rest

-- A line before those that are left: popped if it is a heading and the last.
unfoldable pub pop_line : Line → List Line → List Line
unfolding codes_prefix
pop_line ln [] = if is_heading ln then [] else ln ∷ []
pop_line ln (m ∷ ms) = ln ∷ m ∷ ms

-- `while kept and kept[-1].startswith("**"): kept.pop()`.
unfoldable pub pop_headings : List Line → List Line
unfolding pop_line
pop_headings [] = []
pop_headings (ln ∷ lines) = pop_line ln (pop_headings lines)

unfoldable pub truncated : List Line → List ℕ
unfolding truncation_suffix count_items keep_lines pop_headings
truncated lines =
    let total_item_lines = count_items lines in
    let kept = keep_lines (length (truncation_suffix total_item_lines)) [] lines in
    let dropped_items = total_item_lines - count_items kept in
    join_lines (pop_headings kept) ++ b'\n' ∷ truncation_suffix dropped_items

unfoldable pub describe_lines : List Line → List ℕ
unfolding truncated
describe_lines [] = codes "_None selected yet._"
describe_lines (l ∷ ls) =
    let description = join_lines (l ∷ ls) in
    if leb (length description) embed_max_chars then description else truncated (l ∷ ls)

-- The description of `build_grouped_embed`.
unfoldable pub build_grouped_embed : Buckets → List ℕ → List ℕ
unfolding collect_lines describe_lines
build_grouped_embed pages [] = codes "_None selected yet._"
build_grouped_embed pages (id ∷ ids) = describe_lines (collect_lines (id ∷ ids) pages [])

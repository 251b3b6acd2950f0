-- ===== src/PostConditions/DiscordDisplay.antt =====
-- src/mom_bot/post_conditions/discord_display.py: the short labels of the buttons.
use rsl_mom_bot.Prelude.{
  String, Bool, true, ◌&&◌, ◌≡◌, refl, sym, ◌=ₛ◌, leb, none, some, List, [], ◌∷◌, All, find?,
  find?-All, length, Option-cases, inl, inr, ◌≤◌, arith,
}
use rsl_mom_bot.Prelude.Exec.{Result, ok, err, key_error}
use rsl_mom_bot.PyText.{codes}
use rsl_mom_bot.PostConditions.Models.{Condition}

abbrev pub short_labels : List (String × String)
short_labels =
    ("Only Champions from the Telerian League can be used.", "Telerian League")
    ∷ ("Only Champions from the Gaellen Pact can be used.", "Gaellen Pact")
    ∷ ("Only Champions from The Corrupted can be used.", "The Corrupted")
    ∷ ("Only Champions from the Nyresan Union can be used.", "Nyresan Union")
    ∷ ("Only Banner Lord Champions can be used.", "Banner Lords")
    ∷ ("Only High Elves Champions can be used.", "High Elves")
    ∷ ("Only Sacred Order Champions can be used.", "Sacred Order")
    ∷ ("Only Barbarian Champions can be used.", "Barbarians")
    ∷ ("Only Ogryn Tribe Champions can be used.", "Ogryn Tribe")
    ∷ ("Only Lizardmen Champions can be used.", "Lizardmen")
    ∷ ("Only Skinwalker Champions can be used.", "Skinwalkers")
    ∷ ("Only Orc Champions can be used.", "Orcs")
    ∷ ("Only Demonspawn Champions can be used.", "Demonspawn")
    ∷ ("Only Undead Horde Champions can be used.", "Undead Horde")
    ∷ ("Only Dark Elves Champions can be used.", "Dark Elves")
    ∷ ("Only Knights Revenant Champions can be used.", "Knights Revenant")
    ∷ ("Only Dwarves Champions can be used.", "Dwarves")
    ∷ ("Only Shadowkin Champions can be used.", "Shadowkin")
    ∷ ("Only Sylvan Watcher Champions can be used.", "Sylvan Watchers")
    ∷ ("Only HP Champions can be used.", "HP")
    ∷ ("Only DEF Champions can be used.", "DEF")
    ∷ ("Only Support Champions can be used.", "Support")
    ∷ ("Only ATK Champions can be used.", "ATK")
    ∷ ("Only Void Champions can be used.", "Void")
    ∷ ("Only Force Champions can be used.", "Force")
    ∷ ("Only Magic Champions can be used.", "Magic")
    ∷ ("Only Spirit Champions can be used.", "Spirit")
    ∷ ("Only Legendary Champions can be used.", "Legendary")
    ∷ ("Only Epic Champions can be used.", "Epic")
    ∷ ("Only Rare Champions can be used.", "Rare")
    ∷ ("All Champions are immune to Turn Meter reduction effects.", "Immune: TM reduction")
    ∷ ("All Champions are immune to Turn Meter fill effects.", "Immune: TM fill")
    ∷ ("All Champions are immune to cooldown increasing effects.", "Immune: CD increase")
    ∷ ("All Champions are immune to cooldown decreasing effects.", "Immune: CD decrease")
    ∷ ("All Champions are immune to [Sheep] debuffs.", "Immune: [Sheep]")
    ∷ ("Champions cannot be revived.", "No revives")
    ∷ []

-- A description that the table does not hold is a `KeyError`.
unfoldable pub short_label : Condition → Result String
short_label cond = elim (find? (λ entry. entry.0 =ₛ cond.description) short_labels) [
  | some entry ↦ ok entry.1
  | none ↦ err key_error
]

-- At most 25 characters.
abbrev pub IsShort : String → Type 0
IsShort label = length (codes label) ≤ 25

abbrev is_short : String × String → Bool
is_short entry = leb (length (codes entry.1)) 25

all_short : List (String × String) → Bool
all_short [] = true
all_short (e ∷ es) = is_short e && all_short es

all_short-IsShort : (es : List (String × String)) → all_short es ≡ true → All (λ e. IsShort e.1) es
unfolding all_short
all_short-IsShort [] h = tt
all_short-IsShort (e ∷ es) h = (ground arith, all_short-IsShort es (ground arith))

short_labels-IsShort : All (λ e. IsShort e.1) short_labels
unfolding all_short
short_labels-IsShort = all_short-IsShort short_labels refl

-- The label of a button has at most 25 characters.
pub short_label-IsShort :
    (cond : Condition) (label : String) → short_label cond ≡ ok label → IsShort label
unfolding short_label
short_label-IsShort cond label h =
    let here : String × String → Bool = λ entry. entry.0 =ₛ cond.description in
    elim (Option-cases (find? here short_labels)) [
      | inl e ↦ let raised : err key_error ≡ ok label = rw (e, short_label) at h in cc
      | inr (entry, e) ↦
          let found : ok entry.1 ≡ ok label = rw (e, short_label) at h in
          let same : entry.1 ≡ label = cc in
          rw (sym same)
            (find?-All (λ x. IsShort x.1) here short_labels entry short_labels-IsShort e).0
    ]

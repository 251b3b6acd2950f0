-- ===== src/PostConditions/Embed/Layout.antt =====
-- The description of an embed in terms of the selected conditions: what a reader sees of them.
use mathlib.Core.List.{append_assoc, append-nil}
use rsl_mom_bot.Prelude.{
  ℕ, ◌≡◌, refl, sym, ◌∙◌, ap, String, List, [], ◌∷◌, ◌++◌, map, filter, contains,
}
use rsl_mom_bot.PyText.{codes}
use rsl_mom_bot.PostConditions.Models.{Condition}
use rsl_mom_bot.PostConditions.Grouping.{Buckets}
use rsl_mom_bot.PostConditions.Embed.{Line, emoji_prefix}

-- A line of the description, by what it stands for.
pub data Piece : Type 0 where
  group : String → Piece
  blank : Piece
  item : Condition → Piece

abbrev pub line_of : Piece → Line
line_of (group label) = codes "**" ++ codes label ++ codes "**"
line_of blank = []
line_of (item c) = emoji_prefix c.condition_type ++ codes c.description

abbrev pub chosen_of : List ℕ → List Condition → List Condition
chosen_of ids conditions = filter (λ c. contains c.id ids) conditions

-- The selected conditions, group by group.
unfoldable pub chosen : List ℕ → Buckets → List Condition
chosen ids [] = []
chosen ids ((label, conditions) ∷ pages) = chosen_of ids conditions ++ chosen ids pages

abbrev pub group_pieces : String → List Condition → List Piece
group_pieces label [] = []
group_pieces label (c ∷ cs) = group label ∷ map item (c ∷ cs)

-- One after the other, with a blank line between if neither is empty.
abbrev pub beside : List Piece → List Piece → List Piece
beside [] ys = ys
beside (x ∷ xs) [] = x ∷ xs
beside (x ∷ xs) (y ∷ ys) = (x ∷ xs) ++ blank ∷ y ∷ ys

unfoldable pub layout : List ℕ → Buckets → List Piece
layout ids [] = []
layout ids ((label, conditions) ∷ pages) =
    beside (group_pieces label (chosen_of ids conditions)) (layout ids pages)

abbrev pub conditions_in : List Piece → List Condition
conditions_in [] = []
conditions_in (item c ∷ pieces) = c ∷ conditions_in pieces
conditions_in (_ ∷ pieces) = conditions_in pieces

pub conditions_in-append :
    (xs ys : List Piece) → conditions_in (xs ++ ys) ≡ conditions_in xs ++ conditions_in ys
conditions_in-append [] ys = refl
conditions_in-append (item c ∷ xs) ys = ap (λ r. c ∷ r) (conditions_in-append xs ys)
conditions_in-append (group label ∷ xs) ys = conditions_in-append xs ys
conditions_in-append (blank ∷ xs) ys = conditions_in-append xs ys

conditions_in-beside :
    (xs ys : List Piece) → conditions_in (beside xs ys) ≡ conditions_in xs ++ conditions_in ys
conditions_in-beside [] ys = refl
conditions_in-beside (x ∷ xs) [] = sym (append-nil (conditions_in (x ∷ xs)))
conditions_in-beside (x ∷ xs) (y ∷ ys) = conditions_in-append (x ∷ xs) (blank ∷ y ∷ ys)

conditions_in-items : (cs : List Condition) → conditions_in (map item cs) ≡ cs
conditions_in-items [] = refl
conditions_in-items (c ∷ cs) = ap (λ r. c ∷ r) (conditions_in-items cs)

conditions_in-group :
    (label : String) (cs : List Condition) → conditions_in (group_pieces label cs) ≡ cs
conditions_in-group label [] = refl
conditions_in-group label (c ∷ cs) = conditions_in-items (c ∷ cs)

pub conditions_in-layout :
    (ids : List ℕ) (pages : Buckets) → conditions_in (layout ids pages) ≡ chosen ids pages
unfolding layout chosen
conditions_in-layout ids [] = refl
conditions_in-layout ids ((label, conditions) ∷ pages) =
    conditions_in-beside (group_pieces label (chosen_of ids conditions)) (layout ids pages)
    ∙ rw (conditions_in-group label (chosen_of ids conditions), conditions_in-layout ids pages) refl

pub beside_assoc : (xs ys zs : List Piece) → beside (beside xs ys) zs ≡ beside xs (beside ys zs)
beside_assoc [] ys zs = refl
beside_assoc (x ∷ xs) [] zs = refl
beside_assoc (x ∷ xs) (y ∷ ys) [] = refl
beside_assoc (x ∷ xs) (y ∷ ys) (z ∷ zs) = append_assoc (x ∷ xs) (blank ∷ y ∷ ys) (blank ∷ z ∷ zs)

pub map-append : (xs ys : List Piece) → map line_of (xs ++ ys) ≡ map line_of xs ++ map line_of ys
map-append [] ys = refl
map-append (x ∷ xs) ys = ap (λ r. line_of x ∷ r) (map-append xs ys)

pub map-items :
    (cs : List Condition)
    → map (λ c. emoji_prefix c.condition_type ++ codes c.description) cs ≡ map line_of (map item cs)
map-items [] = refl
map-items (c ∷ cs) = ap (λ r. line_of (item c) ∷ r) (map-items cs)

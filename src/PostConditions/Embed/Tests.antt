-- ===== src/PostConditions/Embed/Tests.antt =====
-- The theorem on the embed, applied to seventy conditions, which are more than it has room for.
use rsl_mom_bot.Prelude.{
  ℕ, zero, suc, ◌≤◌, ◌≡◌, refl, false, List, [], ◌∷◌, All, All-append, All-filter, length, contains,
  arith, leb,
}
use rsl_mom_bot.PostConditions.Models.{Condition}
use rsl_mom_bot.PostConditions.Grouping.{Buckets}
use rsl_mom_bot.PostConditions.Embed.{
  embed_max_chars, collect_lines, join_lines, build_grouped_embed,
}
use rsl_mom_bot.PostConditions.Embed.Layout.{chosen_of, chosen, layout, conditions_in}
use rsl_mom_bot.PostConditions.Embed.Described.{IsPlain, Shows, build_grouped_embed-Shows}

abbrev orcs : Condition
orcs = record {
  id = 7;
  condition_type = "faction";
  description = "Only Orc Champions can be used in the fight for this post.";
}

abbrev copies : Condition → ℕ → List Condition
copies c zero = []
copies c (suc n) = c ∷ copies c n

abbrev pages : Buckets
pages = ("Faction & League", copies orcs 70) ∷ []

copies-IsPlain : (c : Condition) (n : ℕ) → IsPlain c → All IsPlain (copies c n)
copies-IsPlain c zero h = tt
copies-IsPlain c (suc n) h = (h, copies-IsPlain c n h)

orcs-IsPlain : IsPlain orcs
orcs-IsPlain e = cc

chosen-IsPlain : All IsPlain (chosen (7 ∷ []) pages)
unfolding chosen
chosen-IsPlain =
    All-append IsPlain (chosen_of (7 ∷ []) (copies orcs 70)) []
      (All-filter IsPlain (λ c. contains c.id (7 ∷ [])) (copies orcs 70)
        (copies-IsPlain orcs 70 orcs-IsPlain))
      tt

-- The whole text would have been too long.
too_long : leb (length (join_lines (collect_lines (7 ∷ []) pages []))) embed_max_chars ≡ false
unfolding collect_lines join_lines
too_long = refl

build_grouped_embed-Shows_example :
    let text = build_grouped_embed pages (7 ∷ []) in
    let pieces = layout (7 ∷ []) pages in
    (length text ≤ embed_max_chars)
    × Shows pieces text
    × (conditions_in pieces ≡ chosen (7 ∷ []) pages)
unfolding chosen
build_grouped_embed-Shows_example =
    build_grouped_embed-Shows pages 7 [] chosen-IsPlain (omega arith) (λ e. cc)

-- ===== src/Reminders/Seed/Again.antt =====
-- Running the migrations again, and after a first boot.
use mathlib.Core.List.{append-nil}
use rsl_mom_bot.Prelude.{
  ℕ, ◌≡◌, refl, sym, ◌∙◌, String, Bool, true, ◌=ₛ◌, Option, none, some, List, [], ◌∷◌, ◌++◌, filter,
  map, All, arith, Bool-cases, ◌⊎◌, inl, inr, eq_iff,
}
use rsl_mom_bot.Prelude.Int.{ℤ}
use rsl_mom_bot.Prelude.Exec.{Result, ok, err, continue}
use rsl_mom_bot.Reminders.Models.{Reminder}
use rsl_mom_bot.Reminders.Seed.{
  Bot, Guild, NewRow, filled_row, base_rows, tank_week_rows, siege_rows, add_row, add_all,
  one_or_none, has_name, by_name, insert_missing, insert_all, commit_staged, seed_from,
  seed_siege_reminders, seed_tank_week_reminders, seed_guild, seed_empty, seed_found, after_secrets,
  maybe_seed_reminders,
}

-- Exactly one row has the name.
abbrev IsPresent : List Reminder → String → Type 0
IsPresent rows called = (r : Reminder) × (by_name called rows ≡ ok (some r))

filter-append :
    {A : Type 0} (p : A → Bool) (xs ys : List A) → filter p (xs ++ ys) ≡ filter p xs ++ filter p ys
filter-append p [] ys = refl
filter-append p (x ∷ xs) ys = ground (arith, filter-append p xs ys)

none_named : (rows : List Reminder) → one_or_none rows ≡ ok none → rows ≡ []
none_named [] h = refl
none_named (r ∷ []) h = cc
none_named (r ∷ s ∷ rows) h = cc

-- The row is added where its name is missing: then it is present.
add_row-IsPresent :
    (bot : Bot) (channel : ℕ) (role : Option ℕ) (n : NewRow) (rows : List Reminder)
    → by_name n.name rows ≡ ok none
    → IsPresent (add_row bot channel role n rows) n.name
unfolding by_name add_row
add_row-IsPresent bot channel role n rows h =
    let nothing = none_named (filter (has_name n.name) rows) h in
    let same : (n.name =ₛ n.name) ≡ true = (eq_iff n.name n.name).1 refl in
    (
      filled_row bot channel role n rows,
      rw (filter-append (has_name n.name) rows, nothing, same) refl,
    )

-- The names that were present stay so.
add_row-keeps :
    (bot : Bot) (channel : ℕ) (role : Option ℕ) (n : NewRow) (rows : List Reminder)
    (called : String)
    → by_name n.name rows ≡ ok none
    → IsPresent rows called
    → IsPresent (add_row bot channel role n rows) called
unfolding by_name add_row
add_row-keeps bot channel role n rows called h (r, k) = elim (Bool-cases (n.name =ₛ called)) [
  | inl t ↦
      let same = (eq_iff n.name called).0 t in
      let missing : by_name called rows ≡ ok none = rw same at h in cc
  | inr f ↦ (r, rw (filter-append (has_name called) rows, f, append-nil) k)
]

abbrev Keeps : List Reminder → List Reminder → Type 0
Keeps before after = (called : String) → IsPresent before called → IsPresent after called

-- What a part of the loop leaves, if it raises nothing.
abbrev IsDone : List String → List Reminder → Result (Unit {0}) × List Reminder → Type 0
IsDone names before (ok _, after) = Keeps before after × All (IsPresent after) names
IsDone names before (err e, after) = Unit

insert_missing-IsDone :
    (bot : Bot) (hydra : Reminder) (n : NewRow) (rows : List Reminder)
    (found : Result (Option Reminder))
    → by_name n.name rows ≡ found
    → IsDone (n.name ∷ []) rows (insert_missing bot hydra n found rows)
insert_missing-IsDone bot hydra n rows (err e) h = tt
insert_missing-IsDone bot hydra n rows (ok (some r)) h = (λ called k. k, ((r, h), tt))
insert_missing-IsDone bot hydra n rows (ok none) h =
    let channel = hydra.channel_id in
    let role = hydra.role_mention_id in
    (
      λ called k. add_row-keeps bot channel role n rows called h k,
      (add_row-IsPresent bot channel role n rows h, tt),
    )

then_rest :
    (name : String) (names : List String) (before middle : List Reminder)
    (end : Result (Unit {0}) × List Reminder)
    → IsDone (name ∷ []) before (ok tt, middle)
    → IsDone names middle end
    → IsDone (name ∷ names) before end
then_rest name names before middle (err e, after) h k = tt
then_rest name names before middle (ok a, after) (kept, (here, _)) (later, rest) =
    (λ called m. later called (kept called m), (later name here, rest))

continued-IsDone :
    (name : String) (names : List String) (before : List Reminder)
    (first : Result (Unit {0}) × List Reminder)
    (rest : List Reminder → Result (Unit {0}) × List Reminder)
    → IsDone (name ∷ []) before first
    → ((rows : List Reminder) → IsDone names rows (rest rows))
    → IsDone (name ∷ names) before (continue first.0 (λ _. rest) first.1)
continued-IsDone name names before (ok a, middle) rest h k =
    then_rest name names before middle (rest middle) h (k middle)
continued-IsDone name names before (err e, middle) rest h k = tt

insert_all-IsDone :
    (bot : Bot) (hydra : Reminder) (new : List NewRow) (rows : List Reminder)
    → IsDone (map (λ n. n.name) new) rows (insert_all bot hydra new rows)
unfolding insert_all
insert_all-IsDone bot hydra [] rows = (λ called k. k, tt)
insert_all-IsDone bot hydra (n ∷ new) rows =
    let found = by_name n.name rows in
    continued-IsDone n.name (map (λ x. x.name) new) rows (insert_missing bot hydra n found rows)
      (insert_all bot hydra new) (insert_missing-IsDone bot hydra n rows found refl)
      λ next. insert_all-IsDone bot hydra new next

-- Where all names are present, nothing is inserted.
insert_all_present :
    (bot : Bot) (hydra : Reminder) (new : List NewRow) (rows : List Reminder)
    → All (IsPresent rows) (map (λ n. n.name) new)
    → insert_all bot hydra new rows ≡ (ok tt, rows)
unfolding insert_all
insert_all_present bot hydra [] rows h = refl
insert_all_present bot hydra (n ∷ new) rows ((r, e), hs) =
    rw e (insert_all_present bot hydra new rows hs)

-- The table is as a migration leaves it: no Hydra row, or all the rows.
abbrev IsSettled : List NewRow → List Reminder → Type 0
IsSettled new rows =
    (by_name "Hydra" rows ≡ ok none)
    ⊎ (IsPresent rows "Hydra" × All (IsPresent rows) (map (λ n. n.name) new))

seed_from_settled :
    (bot : Bot) (new : List NewRow) (rows : List Reminder)
    → IsSettled new rows
    → seed_from bot new (by_name "Hydra" rows) rows ≡ (ok tt, rows)
seed_from_settled bot new rows (inl e) = rw e refl
seed_from_settled bot new rows (inr ((r, e), h)) = rw (e, insert_all_present bot r new rows h) refl

commit_staged-IsSettled :
    (new : List NewRow) (before after : List Reminder) (end : Result (Unit {0}) × List Reminder)
    → IsPresent before "Hydra"
    → IsDone (map (λ n. n.name) new) before end
    → commit_staged before end ≡ (ok tt, after)
    → IsSettled new after
commit_staged-IsSettled new before after (ok a, staged) hydra (kept, all) h =
    let same : staged ≡ after = cc in rw (sym same) (inr (kept "Hydra" hydra, all))
commit_staged-IsSettled new before after (err e, staged) hydra done h = cc

seed_from-IsSettled :
    (bot : Bot) (new : List NewRow) (rows after : List Reminder) (found : Result (Option Reminder))
    → by_name "Hydra" rows ≡ found
    → seed_from bot new found rows ≡ (ok tt, after)
    → IsSettled new after
seed_from-IsSettled bot new rows after (err e) f h = cc
seed_from-IsSettled bot new rows after (ok none) f h =
    let same : rows ≡ after = cc in rw (sym same) (inl f)
seed_from-IsSettled bot new rows after (ok (some r)) f h =
    commit_staged-IsSettled new rows after (insert_all bot r new rows) (r, f)
      (insert_all-IsDone bot r new rows) h

pub data Migration : Type 0 where
  tank_week siege : Migration

abbrev rows_of : Migration → List NewRow
rows_of tank_week = tank_week_rows
rows_of siege = siege_rows

unfoldable pub migrate : Migration → Bot → List Reminder → Result (Unit {0}) × List Reminder
unfolding seed_tank_week_reminders seed_siege_reminders
migrate tank_week bot rows = seed_tank_week_reminders bot rows
migrate siege bot rows = seed_siege_reminders bot rows

migrate-seed_from :
    (m : Migration) (bot : Bot) (rows : List Reminder)
    → migrate m bot rows ≡ seed_from bot (rows_of m) (by_name "Hydra" rows) rows
unfolding migrate seed_tank_week_reminders seed_siege_reminders
migrate-seed_from tank_week bot rows = refl
migrate-seed_from siege bot rows = refl

-- A migration that returned, run again, also by another process, changes nothing and raises nothing.
pub migrate_again :
    (m : Migration) (bot other : Bot) (rows after : List Reminder)
    → migrate m bot rows ≡ (ok tt, after)
    → migrate m other after ≡ (ok tt, after)
migrate_again m bot other rows after h =
    let hydra = by_name "Hydra" rows in
    let first = sym (migrate-seed_from m bot rows) ∙ h in
    let settled = seed_from-IsSettled bot (rows_of m) rows after hydra refl first in
    migrate-seed_from m other after ∙ seed_from_settled other (rows_of m) after settled

-- The rows of a first boot, with any ids.
abbrev first_rows : Bot → ℕ × ℕ → List Reminder
first_rows bot ids = add_all bot ids.0 (some ids.1) (base_rows ++ tank_week_rows ++ siege_rows) []

first_rows-IsSettled :
    (m : Migration) (bot : Bot) (ids : ℕ × ℕ) → IsSettled (rows_of m) (first_rows bot ids)
unfolding add_all add_row by_name
first_rows-IsSettled tank_week bot ids = inr ((_, refl), ((_, refl), ((_, refl), tt)))
first_rows-IsSettled siege bot ids = inr ((_, refl), ((_, refl), ((_, refl), tt)))

seed_found-IsSettled :
    (m : Migration) (bot : Bot) (found : Result (ℕ × ℕ)) (rows : List Reminder)
    → seed_found bot found [] ≡ (ok tt, rows)
    → IsSettled (rows_of m) rows
unfolding seed_found
seed_found-IsSettled m bot (err e) rows h = cc
seed_found-IsSettled m bot (ok ids) rows h =
    let same : first_rows bot ids ≡ rows = cc in rw (sym same) (first_rows-IsSettled m bot ids)

seed_guild-IsSettled :
    (m : Migration) (bot : Bot) (guild : Option Guild) (channel_name role_name : String)
    (rows : List Reminder)
    → seed_guild bot guild channel_name role_name [] ≡ (ok tt, rows)
    → IsSettled (rows_of m) rows
unfolding seed_guild
seed_guild-IsSettled m bot none channel_name role_name rows h = cc
seed_guild-IsSettled m bot (some guild) channel_name role_name rows h =
    seed_found-IsSettled m bot _ rows h

after_secrets-IsSettled :
    (m : Migration) (bot : Bot) (secrets : Result (ℤ × String × String)) (rows : List Reminder)
    → after_secrets bot secrets [] ≡ (ok tt, rows)
    → IsSettled (rows_of m) rows
unfolding after_secrets
after_secrets-IsSettled m bot (err e) rows h = cc
after_secrets-IsSettled m bot (ok (guild_id, channel_name, role_name)) rows h =
    seed_guild-IsSettled m bot (bot.get_guild guild_id) channel_name role_name rows h

-- After a first boot that seeded the empty table, a migration changes nothing and raises nothing.
pub migrate-maybe_seed_reminders :
    (m : Migration) (bot other : Bot) (rows : List Reminder)
    → maybe_seed_reminders bot [] ≡ (ok tt, rows)
    → migrate m other rows ≡ (ok tt, rows)
unfolding maybe_seed_reminders seed_empty
migrate-maybe_seed_reminders m bot other rows h =
    migrate-seed_from m other rows
    ∙ seed_from_settled other (rows_of m) rows (after_secrets-IsSettled m bot _ rows h)

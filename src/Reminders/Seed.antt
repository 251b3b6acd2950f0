-- ===== src/Reminders/Seed.antt =====
-- src/mom_bot/reminders/seed.py. The secrets, the guilds of the bot and the ids that the database
-- gives are parameters.
pub mod Rows
pub mod Weekdays
pub mod Again
mod Tests
use rsl_mom_bot.Prelude.{
  ℕ, ◌+◌, ◌*◌, String, Bool, ◌=ₛ◌, Option, none, some, List, [], ◌∷◌, ◌++◌, filter, find?,
}
use rsl_mom_bot.Prelude.Int.{ℤ}
use rsl_mom_bot.Prelude.Exec.{
  Error, Result, ok, err, config_error, other_error, Exec, pure, raise, ◌>>=◌, ◌>>=ᵣ◌,
}
use rsl_mom_bot.PyText.{int_of}
use rsl_mom_bot.Reminders.Models.{Reminder}

-- A text channel or a role of a guild.
pub record Named : Type 0 where
  pub id : ℕ
  pub name : String

pub record Guild : Type 0 where
  pub text_channels : List Named
  pub roles : List Named

-- `load_secret`, `bot.get_guild`, and the id that the database gives to the next row.
pub record Bot : Type 0 where
  pub load_secret : String → Result String
  pub get_guild : ℤ → Option Guild
  pub next_id : List Reminder → ℕ

-- `_load_int_secret`.
unfoldable pub load_int_secret : Bot → String → Result ℤ
unfolding int_of
load_int_secret bot secret_name = bot.load_secret secret_name >>=ᵣ λ raw. elim (int_of raw) [
  | some z ↦ ok z
  | none ↦ err config_error
]

abbrev required : {A : Type 0} → Option A → Result A
required none = err config_error
required (some a) = ok a

-- `discord.utils.get(..., name=name)`, where none is a `ConfigError`: `_resolve_role`.
unfoldable pub resolve_named : List Named → String → Result Named
resolve_named items name = required (find? (λ item. item.name =ₛ name) items)

abbrev pub hydra_template : String
hydra_template =
    ":dragon_face: **Hydra Reminder!** :dragon_face:\nThere are less than 24 hours left to do your Hydra keys!\nDon't forget to hit the boss and help the clan!"

abbrev pub chimera_template : String
chimera_template =
    ":japanese_ogre: **Chimera Reminder!** :japanese_ogre:\nThere are less than 24 hours left to do your Chimera attempts!\nMake sure to participate and help the clan!"

abbrev pub hydra_tank_week_headsup_template : String
hydra_tank_week_headsup_template =
    ":shield: **Tank Week Incoming!** :shield:\nTank Week starts tomorrow — hit the bare minimum for the max chest, no more!\nClear the top reward tier, then hold. Don't overhit the boss."

abbrev pub hydra_tank_week_end_template : String
hydra_tank_week_end_template =
    ":shield: **Hydra Tank Week — Final Hours!** :shield:\nLess than 24 hours left — make sure you've locked in the max chest, then stop!\nBare minimum for the reward, nothing extra. Don't overhit."

abbrev pub siege_48h_headsup_template : String
siege_48h_headsup_template =
    ":crossed_swords: **Siege Incoming!** :crossed_swords:\nSiege starts in 48 hours — set your defences and check your post assignment now!\nAn empty post is a free win for the other clan. Don't leave a hole in the line."

abbrev pub siege_24h_headsup_template : String
siege_24h_headsup_template =
    ":crossed_swords: **Siege — Final Day!** :crossed_swords:\nThere are less than 24 hours until Siege — lock in your defences and confirm your post!\nEvery missing player costs the clan points. Speak up now if you can't make it."

-- A row that is to be inserted, without its id and the ids of its channel and role.
pub record NewRow : Type 0 where
  pub name : String
  pub weekday : ℕ
  pub hour : ℕ
  pub month_condition : Option String
  pub message_template : String

abbrev new_row : String → ℕ → ℕ → Option String → String → NewRow
new_row called on at condition template = record {
  name = called;
  weekday = on;
  hour = at;
  month_condition = condition;
  message_template = template;
}

abbrev pub base_rows : List NewRow
base_rows =
    new_row "Hydra" 1 7 none hydra_template ∷ new_row "Chimera" 2 12 none chimera_template ∷ []

abbrev pub tank_week_rows : List NewRow
tank_week_rows =
    new_row "Hydra Tank Week Heads-up" 1 7 (some "tank_week_headsup")
      hydra_tank_week_headsup_template
    ∷ new_row "Hydra Tank Week End" 1 7 (some "tank_week_end") hydra_tank_week_end_template
    ∷ []

abbrev pub siege_rows : List NewRow
siege_rows =
    new_row "Siege 48h Heads-up" 6 10 (some "siege_48h_headsup") siege_48h_headsup_template
    ∷ new_row "Siege 24h Heads-up" 0 10 (some "siege_24h_headsup") siege_24h_headsup_template
    ∷ []

-- The `Reminder` that is added.
abbrev pub filled_row : Bot → ℕ → Option ℕ → NewRow → List Reminder → Reminder
filled_row bot channel_id role_mention_id r rows = record {
  id = bot.next_id rows;
  name = r.name;
  channel_id = channel_id;
  weekday = r.weekday;
  fire_time_utc = r.hour * 3600;
  message_template = r.message_template;
  role_mention_id = role_mention_id;
  month_condition = r.month_condition;
}

unfoldable pub add_row : Bot → ℕ → Option ℕ → NewRow → List Reminder → List Reminder
add_row bot channel_id role_mention_id r rows =
    rows ++ filled_row bot channel_id role_mention_id r rows ∷ []

-- `session.add_all`.
unfoldable pub add_all : Bot → ℕ → Option ℕ → List NewRow → List Reminder → List Reminder
unfolding add_row
add_all bot channel_id role_mention_id [] rows = rows
add_all bot channel_id role_mention_id (r ∷ rs) rows =
    add_all bot channel_id role_mention_id rs (add_row bot channel_id role_mention_id r rows)

-- The insertion, with the ids of the channel and the role.
unfoldable pub seed_found : Bot → Result (ℕ × ℕ) → Exec (List Reminder) Unit
unfolding add_all
seed_found bot (err e) rows = (err e, rows)
seed_found bot (ok ids) rows =
    (ok tt, add_all bot ids.0 (some ids.1) (base_rows ++ tank_week_rows ++ siege_rows) rows)

-- The look-ups in the guild, and the insertion.
unfoldable pub seed_guild : Bot → Option Guild → String → String → Exec (List Reminder) Unit
unfolding resolve_named seed_found
seed_guild bot none channel_name role_name rows = (err config_error, rows)
seed_guild bot (some guild) channel_name role_name rows =
    let found : Result (ℕ × ℕ) = resolve_named guild.text_channels channel_name >>=ᵣ λ channel.
    ◌>>=ᵣ◌ {B = ℕ × ℕ} (resolve_named guild.roles role_name) λ role. ok (channel.id, role.id) in
    seed_found bot found rows

-- What follows the reading of the secrets.
unfoldable pub after_secrets : Bot → Result (ℤ × String × String) → Exec (List Reminder) Unit
unfolding seed_guild
after_secrets bot (err e) rows = (err e, rows)
after_secrets bot (ok (guild_id, channel_name, role_name)) rows =
    seed_guild bot (bot.get_guild guild_id) channel_name role_name rows

-- `_maybe_seed_reminders` on an empty table: the three secrets are read first.
unfoldable pub seed_empty : Bot → Exec (List Reminder) Unit
unfolding load_int_secret after_secrets
seed_empty bot rows =
    let secrets : Result (ℤ × String × String) = load_int_secret bot "guild-id" >>=ᵣ λ guild_id.
    bot.load_secret "reminder-channel-name" >>=ᵣ λ channel_name.
    ◌>>=ᵣ◌ {B = ℤ × String × String} (bot.load_secret "reminder-mention-role-name")
      λ role_name. ok (guild_id, channel_name, role_name) in
    after_secrets bot secrets rows

-- `_maybe_seed_reminders`.
unfoldable pub maybe_seed_reminders : Bot → Exec (List Reminder) Unit
unfolding seed_empty
maybe_seed_reminders bot [] = seed_empty bot []
maybe_seed_reminders bot (r ∷ rows) = (ok tt, r ∷ rows)

-- `scalar_one_or_none()`: two rows of one name are an error.
abbrev pub one_or_none : List Reminder → Result (Option Reminder)
one_or_none [] = ok none
one_or_none (r ∷ []) = ok (some r)
one_or_none (r ∷ s ∷ rs) = err other_error

abbrev pub has_name : String → Reminder → Bool
has_name called r = r.name =ₛ called

unfoldable pub by_name : String → List Reminder → Result (Option Reminder)
by_name called rows = one_or_none (filter (has_name called) rows)

-- One pass of the loop, after the look-up of the name.
abbrev pub insert_missing :
    Bot → Reminder → NewRow → Result (Option Reminder) → Exec (List Reminder) Unit
insert_missing bot hydra r (err e) rows = (err e, rows)
insert_missing bot hydra r (ok (some existing)) rows = (ok tt, rows)
insert_missing bot hydra r (ok none) rows =
    (ok tt, add_row bot hydra.channel_id hydra.role_mention_id r rows)

-- The loop over the rows to insert.
unfoldable pub insert_all : Bot → Reminder → List NewRow → Exec (List Reminder) Unit
unfolding by_name add_row
insert_all bot hydra [] rows = (ok tt, rows)
insert_all bot hydra (r ∷ rs) rows =
    let rest = insert_all bot hydra rs in
    (insert_missing bot hydra r (by_name r.name rows) >>= λ _. rest) rows

-- The staged rows are committed together, or an exception leaves the table as it was.
abbrev pub commit_staged :
    List Reminder → Result (Unit {0}) × List Reminder → Result (Unit {0}) × List Reminder
commit_staged before (ok _, staged) = (ok tt, staged)
commit_staged before (err e, staged) = (err e, before)

-- Both migrations, after the look-up of the Hydra row.
abbrev pub seed_from : Bot → List NewRow → Result (Option Reminder) → Exec (List Reminder) Unit
seed_from bot new (err e) rows = (err e, rows)
seed_from bot new (ok none) rows = (ok tt, rows)
seed_from bot new (ok (some hydra)) rows = commit_staged rows (insert_all bot hydra new rows)

unfoldable pub seed_siege_reminders : Bot → Exec (List Reminder) Unit
unfolding insert_all
seed_siege_reminders bot rows = seed_from bot siege_rows (by_name "Hydra" rows) rows

unfoldable pub seed_tank_week_reminders : Bot → Exec (List Reminder) Unit
unfolding insert_all
seed_tank_week_reminders bot rows = seed_from bot tank_week_rows (by_name "Hydra" rows) rows

-- ===== src/Roles/Seed/Laws.antt =====
-- The rows after seeding: the looked-up row of each key, and that seeding again changes nothing.
use mathlib.Core.Path.{ap₂}
use rsl_mom_bot.Prelude.{
  ℕ, String, ◌≡◌, refl, sym, true, false, ◌&&◌, ◌∙◌, ◌==◌, ◌=ₛ◌, if◌then◌else◌, Option, none, some,
  List, [], ◌∷◌, ◌++◌, find?, arith, eq_iff, Option-cases, Bool-cases, ==_refl, ==→eq, inl, inr,
  ◌⊎◌,
}
use rsl_mom_bot.Roles.Models.{DayRoleMap, Role, Guild}
use rsl_mom_bot.Roles.Service.{load_day_role_map, role_of_day}
use rsl_mom_bot.Roles.Seed.{
  is_key, set_row, upsert_found, upsert_day_role, has_role_name, name_of_day, seed_found, seed_days,
  attack_days,
}

find?-append :
    (g d : ℕ) (new : DayRoleMap) (rows : List DayRoleMap)
    → find? (is_key new.guild_id new.day_number) rows ≡ none
    → find? (is_key g d) (rows ++ new ∷ [])
      ≡ (if is_key g d new then some new else find? (is_key g d) rows)
find?-append g d new [] h = ground arith
find?-append g d new (x ∷ rows) h = ground (arith, find?-append g d new rows)

find?-set_row_other :
    (g d : ℕ) (new : DayRoleMap) (rows : List DayRoleMap)
    → is_key g d new ≡ false
    → find? (is_key g d) (set_row new rows) ≡ find? (is_key g d) rows
unfolding set_row
find?-set_row_other g d new [] h = refl
find?-set_row_other g d new (x ∷ rows) h = ground (arith, find?-set_row_other g d new rows)

find?-set_row_self :
    (new old : DayRoleMap) (rows : List DayRoleMap)
    → find? (is_key new.guild_id new.day_number) rows ≡ some old
    → find? (is_key new.guild_id new.day_number) (set_row new rows) ≡ some new
unfolding set_row
find?-set_row_self new old [] h = cc
find?-set_row_self new old (x ∷ rows) h = ground (arith, find?-set_row_self new old rows)

-- A row that is found has the key that was looked for.
find?-key :
    (g d : ℕ) (old : DayRoleMap) (rows : List DayRoleMap)
    → find? (is_key g d) rows ≡ some old
    → (old.guild_id ≡ g) × (old.day_number ≡ d)
find?-key g d old [] h = cc
find?-key g d old (x ∷ rows) h = ground (arith, find?-key g d old rows)

-- The row that an insert makes.
abbrev pub wanted : ℕ → ℕ → ℕ → ℕ → String → DayRoleMap
wanted now guild_id day role_id role_name = record {
  guild_id = guild_id;
  day_number = day;
  discord_role_id = role_id;
  role_display_name = role_name;
  updated_at = now;
}

-- The row that the upsert leaves, by the row that was there.
abbrev upserted : ℕ → ℕ → ℕ → ℕ → String → Option DayRoleMap → DayRoleMap
upserted now guild_id day role_id role_name none = wanted now guild_id day role_id role_name
upserted now guild_id day role_id role_name (some old) =
    if (old.discord_role_id == role_id) && (old.role_display_name =ₛ role_name)
    then old
    else record old { discord_role_id = role_id; role_display_name = role_name; updated_at = now }

is_key→eq : (g d : ℕ) (r : DayRoleMap) → is_key g d r ≡ true → (g ≡ r.guild_id) × (d ≡ r.day_number)
is_key→eq g d r h = ground arith

find?-set_row :
    (g d : ℕ) (new old : DayRoleMap) (rows : List DayRoleMap)
    → find? (is_key new.guild_id new.day_number) rows ≡ some old
    → find? (is_key g d) (set_row new rows)
      ≡ (if is_key g d new then some new else find? (is_key g d) rows)
find?-set_row g d new old rows h = elim (Bool-cases (is_key g d new)) [
  | inl e ↦
      let (p, q) = is_key→eq g d new e in
      rw (p, q, ==_refl, ==_refl) (find?-set_row_self new old rows h)
  | inr e ↦ rw e (find?-set_row_other g d new rows e)
]

find?_found :
    (g d : ℕ) (old : DayRoleMap) (rows : List DayRoleMap)
    → find? (is_key old.guild_id old.day_number) rows ≡ some old
    → find? (is_key g d) rows ≡ (if is_key g d old then some old else find? (is_key g d) rows)
find?_found g d old rows h = elim (Bool-cases (is_key g d old)) [
  | inl e ↦ let (p, q) = is_key→eq g d old e in rw (p, q, ==_refl, ==_refl) h
  | inr e ↦ rw e refl
]

-- The branches of the upsert in which a row is there.
find?-upsert_found :
    (now role_id : ℕ) (old : DayRoleMap) (role_name : String) (rows : List DayRoleMap) (g d : ℕ)
    → find? (is_key old.guild_id old.day_number) rows ≡ some old
    → find?
        (is_key g d)
        (upsert_found now old.guild_id old.day_number role_id role_name (some old) rows)
      ≡ (if is_key g d old
          then some (upserted now old.guild_id old.day_number role_id role_name (some old))
          else find? (is_key g d) rows)
unfolding upsert_found
find?-upsert_found now role_id old role_name rows g d h =
    elim (Bool-cases (old.discord_role_id == role_id)) [
      | inr other_role ↦
          let new : DayRoleMap = record old {
            discord_role_id = role_id;
            role_display_name = role_name;
            updated_at = now;
          } in
          rw other_role (find?-set_row g d new old rows h)
      | inl same_role ↦ elim (Bool-cases (old.role_display_name =ₛ role_name)) [
        | inr other_name ↦
            let r = ==→eq old.discord_role_id role_id same_role in
            let new : DayRoleMap = record old { role_display_name = role_name; updated_at = now } in
            rw (sym r, ==_refl, other_name) (find?-set_row g d new old rows h)
        | inl same_name ↦ rw (same_role, same_name) (find?_found g d old rows h)
      ]
    ]

-- After an upsert, a look-up of its key finds the row that it leaves, and a look-up of any other key
-- finds what it found before.
pub find?-upsert_day_role :
    (now guild_id day role_id : ℕ) (role_name : String) (rows : List DayRoleMap) (g d : ℕ)
    → find? (is_key g d) (upsert_day_role now guild_id day role_id role_name rows) ≡ (
        if (guild_id == g) && (day == d)
        then some (upserted now guild_id day role_id role_name (find? (is_key guild_id day) rows))
        else find? (is_key g d) rows)
unfolding upsert_day_role upsert_found
find?-upsert_day_role now guild_id day role_id role_name rows g d =
    elim (Option-cases (find? (is_key guild_id day) rows)) [
      | inl e ↦ rw e (find?-append g d (wanted now guild_id day role_id role_name) rows e)
      | inr (old, e) ↦
          let (p, q) = find?-key guild_id day old rows e in
          rw (e, sym p, sym q)
            (find?-upsert_found now role_id old role_name rows g d (rw (sym p, sym q) at e))
    ]

role_of_day-load :
    (g d : ℕ) (rows : List DayRoleMap)
    → role_of_day d (load_day_role_map g rows)
      ≡ elim (find? (is_key g d) rows) [ none ↦ none | some r ↦ some r.discord_role_id ]
unfolding role_of_day load_day_role_map
role_of_day-load g d [] = refl
role_of_day-load g d (x ∷ rows) = ground (arith, role_of_day-load g d rows)

-- What seeding a day leaves under its key.
abbrev after_day : ℕ → Guild → ℕ → Option Role → Option DayRoleMap → Option DayRoleMap
after_day now guild day none before = before
after_day now guild day (some role) before =
    some (upserted now guild.id day role.id role.name before)

-- The role of the day, as it stands in the guild.
abbrev pub role_named : Guild → ℕ → Option Role
role_named guild day = find? (has_role_name (name_of_day day)) guild.roles

find?-seed_found :
    (now : ℕ) (guild : Guild) (day d : ℕ) (role : Option Role) (rows : List DayRoleMap)
    → find? (is_key guild.id d) (seed_found now guild day role rows) ≡ (
        if day == d
        then after_day now guild day role (find? (is_key guild.id day) rows)
        else find? (is_key guild.id d) rows)
unfolding seed_found
find?-seed_found now guild day d none rows = ground arith
find?-seed_found now guild day d (some role) rows =
    rw (find?-upsert_day_role now guild.id day role.id role.name rows guild.id d) (ground arith)

-- The row that an upsert leaves has the role.
upserted_role :
    (now guild_id day role_id : ℕ) (role_name : String) (before : Option DayRoleMap)
    → let new = upserted now guild_id day role_id role_name before in
      (new.discord_role_id ≡ role_id) × (new.role_display_name ≡ role_name)
upserted_role now guild_id day role_id role_name none = (refl, refl)
upserted_role now guild_id day role_id role_name (some old) =
    elim (Bool-cases ((old.discord_role_id == role_id) && (old.role_display_name =ₛ role_name))) [
      | inl same ↦ rw same (ground (arith, eq_iff old.role_display_name role_name))
      | inr other ↦ rw other (refl, refl)
    ]

-- After seeding a guild, a day whose role stands in the guild under its name maps to that role,
-- whatever the table held before.
pub role_of_day-seed_days :
    (now : ℕ) (guild : Guild) (rows : List DayRoleMap) (day : ℕ) (role : Role)
    → (day ≡ 1) ⊎ (day ≡ 2)
    → find? (has_role_name (name_of_day day)) guild.roles ≡ some role
    → role_of_day day (load_day_role_map guild.id (seed_days now guild attack_days rows))
      ≡ some role.id
unfolding seed_days
role_of_day-seed_days now guild rows day role (inl e) h =
    let one = role_named guild 1 in
    let two = role_named guild 2 in
    let h1 = rw e at h in
    rw
      (
        e,
        role_of_day-load guild.id 1,
        find?-seed_found now guild 2 1 two (seed_found now guild 1 one rows),
        find?-seed_found now guild 1 1 one rows,
        h1,
        (upserted_role now guild.id 1 role.id role.name (find? (is_key guild.id 1) rows)).0,
      )
      refl
role_of_day-seed_days now guild rows day role (inr e) h =
    let one = role_named guild 1 in
    let two = role_named guild 2 in
    let first = seed_found now guild 1 one rows in
    let h1 = rw e at h in
    rw
      (
        e,
        role_of_day-load guild.id 2,
        find?-seed_found now guild 2 2 two first,
        h1,
        (upserted_role now guild.id 2 role.id role.name (find? (is_key guild.id 2) first)).0,
      )
      refl

upsert_same :
    (now g d : ℕ) (rows : List DayRoleMap) (old : DayRoleMap)
    → find? (is_key g d) rows ≡ some old
    → upsert_day_role now g d old.discord_role_id old.role_display_name rows ≡ rows
unfolding upsert_day_role upsert_found
upsert_same now g d rows old h =
    rw h (ground (arith, eq_iff old.role_display_name old.role_display_name))

seed_found_same :
    (now later : ℕ) (guild : Guild) (day : ℕ) (role : Option Role) (rows : List DayRoleMap)
    (before : Option DayRoleMap)
    → find? (is_key guild.id day) rows ≡ after_day now guild day role before
    → seed_found later guild day role rows ≡ rows
unfolding seed_found
seed_found_same now later guild day none rows before h = refl
seed_found_same now later guild day (some role) rows before h =
    let old = upserted now guild.id day role.id role.name before in
    let (p, q) = upserted_role now guild.id day role.id role.name before in
    ap₂ (λ i n. upsert_day_role later guild.id day i n rows) (sym p) (sym q)
    ∙ upsert_same later guild.id day rows old h

-- Seeding a guild again at any later time, with its roles unchanged, leaves every row as it is, its
-- `updated_at` too.
pub seed_days_again :
    (now later : ℕ) (guild : Guild) (rows : List DayRoleMap)
    → seed_days later guild attack_days (seed_days now guild attack_days rows)
      ≡ seed_days now guild attack_days rows
unfolding seed_days
seed_days_again now later guild rows =
    let one = role_named guild 1 in
    let two = role_named guild 2 in
    let first = seed_found now guild 1 one rows in
    let seeded = seed_found now guild 2 two first in
    let day_1 : find? (is_key guild.id 1) seeded
        ≡ after_day now guild 1 one (find? (is_key guild.id 1) rows) =
      rw (find?-seed_found now guild 2 1 two first, find?-seed_found now guild 1 1 one rows) refl in
    let day_2 : find? (is_key guild.id 2) seeded
        ≡ after_day now guild 2 two (find? (is_key guild.id 2) first) =
      rw (find?-seed_found now guild 2 2 two first) refl in
    rw
      (
        seed_found_same now later guild 1 one seeded (find? (is_key guild.id 1) rows) day_1,
        seed_found_same now later guild 2 two seeded (find? (is_key guild.id 2) first) day_2,
      )
      refl

-- ===== src/Roles/Service/Preflight.antt =====
-- `run_preflight` finds exactly the mapped roles that the bot cannot manage.
use rsl_mom_bot.Prelude.{
  ℕ, ◌+◌, ◌≤◌, ◌≡◌, refl, true, ◌==◌, leb, if◌then◌else◌, Option, none, some, List, [], ◌∷◌, any,
  ◌&&◌, not, arith, In, inl, inr, ◌⊎◌, ap, ◌↔◌, Bool-cases, ==→eq,
}
use rsl_mom_bot.Prelude.Exec.{ok, err, config_error}
use rsl_mom_bot.Roles.Models.{DayRoleMap, Role, Guild}
use rsl_mom_bot.Roles.Service.{
  DayMap, load_day_role_map, get_role, is_violation, count_violations, run_preflight,
}

count_violations-any :
    (guild : Guild) (day_map : DayMap) (n : ℕ)
    → (count_violations guild day_map n == 0) ≡ ((n == 0) && not (any (is_violation guild) day_map))
unfolding count_violations
count_violations-any guild [] n = ground arith
count_violations-any guild (m ∷ rest) n =
    let ih = count_violations-any guild rest in ground (arith, ih n, ih (n + 1))

-- A mapped role of this guild that is at or above the bot's top role is a violation.
violation-any :
    (guild : Guild) (r : DayRoleMap) (live : Role) (rows : List DayRoleMap)
    → In r rows
    → r.guild_id ≡ guild.id
    → get_role guild r.discord_role_id ≡ some live
    → guild.top_position ≤ live.position
    → any (is_violation guild) (load_day_role_map guild.id rows) ≡ true
unfolding load_day_role_map
violation-any guild r live [] m g e p = absurd m
violation-any guild r live (x ∷ rows) m g e p = elim m [
  | inl here ↦ ground (
    arith,
    ap (λ (q : DayRoleMap). q.guild_id) here,
    ap (λ (q : DayRoleMap). q.discord_role_id) here,
  )
  | inr there ↦ let ih = violation-any guild r live rows there g e p in ground arith
]

-- A row of the guild whose role stands there, at or above the bot's top role.
abbrev pub Misplaced : Guild → List DayRoleMap → Type 0
Misplaced guild rows =
    (r : DayRoleMap) × (live : Role) × In r rows
    × (r.guild_id ≡ guild.id)
    × (get_role guild r.discord_role_id ≡ some live)
    × (guild.top_position ≤ live.position)

Misplaced-later :
    (guild : Guild) (x : DayRoleMap) (rows : List DayRoleMap)
    → Misplaced guild rows
    → Misplaced guild (x ∷ rows)
Misplaced-later guild x rows (r, live, m, g, e, p) = (r, live, inr m, g, e, p)

any-violation :
    (guild : Guild) (rows : List DayRoleMap)
    → any (is_violation guild) (load_day_role_map guild.id rows) ≡ true
    → Misplaced guild rows
unfolding load_day_role_map
any-violation guild [] h = cc
any-violation guild (x ∷ rows) h = elim (Bool-cases (x.guild_id == guild.id)) [
  | inr elsewhere ↦ Misplaced-later guild x rows (any-violation guild rows (rw elsewhere at h))
  | inl here ↦
      step (get_role guild x.discord_role_id) (any-violation guild rows) refl
        (==→eq x.guild_id guild.id here) (rw here at h)
]
  where
    step :
        (o : Option Role)
        → (any (is_violation guild) (load_day_role_map guild.id rows) ≡ true → Misplaced guild rows)
        → get_role guild x.discord_role_id ≡ o
        → x.guild_id ≡ guild.id
        → any
            (is_violation guild)
            ((x.day_number, x.discord_role_id) ∷ load_day_role_map guild.id rows)
          ≡ true
        → Misplaced guild (x ∷ rows)
    step none ih e g k = Misplaced-later guild x rows (ih (rw (e, is_violation) at k))
    step (some live) ih e g k = elim (Bool-cases (leb guild.top_position live.position)) [
      | inl above ↦ (x, live, inl refl, g, e, ground arith)
      | inr below ↦ Misplaced-later guild x rows (ih (rw (e, is_violation, below) at k))
    ]

run_preflight-any :
    (guild : Guild) (rows : List DayRoleMap)
    → run_preflight guild rows ≡ (
        if any (is_violation guild) (load_day_role_map guild.id rows)
        then err config_error
        else ok tt)
unfolding run_preflight
run_preflight-any guild rows =
    ground (arith, count_violations-any guild (load_day_role_map guild.id rows) 0)

-- The check returns or raises `ConfigError`, and it raises exactly when the table maps, for the
-- guild, a role that stands in it at or above the bot's top role.
pub run_preflight_iff :
    (guild : Guild) (rows : List DayRoleMap)
    → ((run_preflight guild rows ≡ ok tt) ⊎ (run_preflight guild rows ≡ err config_error))
      × ((run_preflight guild rows ≡ err config_error) ↔ Misplaced guild rows)
run_preflight_iff guild rows =
    let raises = run_preflight-any guild rows in
    (
      ground arith,
      (
        λ h. any-violation guild rows (ground arith),
        λ (r, live, m, g, e, p). rw (raises, violation-any guild r live rows m g e p) refl,
      ),
    )

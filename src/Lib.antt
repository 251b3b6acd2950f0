-- ===== src/Lib.antt =====
-- mom-bot: a Discord bot of a game clan. It posts reminders to channels and sends notices to members
-- as direct messages on a calendar of its own, keeps the roles of the two Siege days in step with the
-- clan's site, lets members choose their post conditions on that site, removes members who join and
-- post nothing for a day, and reports on its own health.
--
-- Parts and files (paths from the repository's root):
--   src/mom_bot/reminders/calendar.py              Reminders/Calendar (its functions by their names)
--   src/mom_bot/reminders/models.py, sent_store.py Reminders/Models, Reminders/SentStore
--   src/mom_bot/reminders/scheduler.py             Reminders/Scheduler: Selection holds steps 1 to 3 of
--     _process_tick, Handlers holds _handle_reminder and _handle_member_notification, and
--     Reminders/Scheduler itself steps 4 and 5 and one round of _run_loop
--   src/mom_bot/reminders/seed.py                  Reminders/Seed
--   src/mom_bot/member_notifications/schedule.py   MemberNotifications/Schedule
--   src/mom_bot/member_notifications/service.py    MemberNotifications/Service, models in
--     MemberNotifications/Models; Service/Contract is the map of names that the service implements
--   src/mom_bot/member_notifications/commands.py, discord_authz.py
--     MemberNotifications/Commands
--   src/mom_bot/health/progress.py                 Health/Progress
--   src/mom_bot/roles/service.py, seed.py          Roles/Service, Roles/Seed, models in Roles/Models
--   src/mom_bot/sidecar/app.py                     Sidecar/RoleSync, and Sidecar/Endpoints the others
--   src/mom_bot/sidecar/auth.py                    Sidecar/Auth
--   src/mom_bot/member_activity                    MemberActivity/Service, MemberActivity/AutoKick
--   src/mom_bot/new_member_alerts/service.py, commands.py
--     NewMemberAlerts/Service, NewMemberAlerts/Commands
--   src/mom_bot/post_conditions/client.py          PostConditions/Client: Retry on one call, Cache on
--     the catalog
--   src/mom_bot/post_conditions/grouping.py, grid_layout.py, discord_display.py
--     PostConditions/Grouping, GridLayout, DiscordDisplay
--   src/mom_bot/post_conditions/views.py           PostConditions/Embed, PostConditions/GridView
--     (its callbacks in GridView/Clicks)
--   src/mom_bot/post_conditions/commands.py        PostConditions/Commands
-- Prelude holds the shared names, PyText the int and str of Python, Date the dates of Python.
--
-- How they interact: a round of the scheduler reads the reminders through the calendar, the notices
-- through list_due of the service, claims each with a row of the sent stores, calls Discord, and
-- records the outcome in the progress states. role_sync decides on a request by the stored row of the
-- member and calls apply_day_role, whose day map is what the seeding wrote. The auto-kick sweep reads
-- the rows that the handlers of joins and messages write, also while it waits for Discord. The view of the
-- post conditions lays out the catalog that the client fetched, by the pages of the grid, and its Save
-- button calls the client. The seeding writes the rows that the scheduler selects, on the weekdays of
-- the calendar.
--
-- How the code is rendered: a method is a function from its arguments and the state to a result, a
-- value or an exception, and the new state; what was written before an exception stays written. A
-- table is the list of its rows, a commit is the new list. Discord is a record of functions that
-- answer each call by what was called before; nothing is assumed of the answers. A time of day is a
-- number of seconds, the monotonic clock a number of milliseconds. Texts are read by their code
-- points, with ASCII digits and spaces only; the digits of the time in a command are a parameter.
--
-- Bounds and fuel: dates are those of the years 1 to 9999, and a move out of them is the overflow
-- error of Python. The printing of a number n has the fuel n + 1, more than its digits, and the slicing
-- of a list its length, more than its slices. The retry loop recurs on its schedule of waits. All else
-- recurs on lists and on numbers of days.
--
-- Not modelled: log lines, the heartbeat file, sleeps and spans; audit columns (created_at, sent_at, and
-- updated_at but that of the day roles); the interleaving of two processes on one database, and of a
-- command with a round; the text of the replies to the commands; rate limits and the shape of request
-- bodies at the sidecar. Of the other parts of the bot, the health probe, the configuration and the
-- wiring of main.py are left out.
pub mod Prelude
pub mod PyText
pub mod Date
pub mod Reminders
pub mod MemberNotifications
pub mod Health
pub mod Roles
pub mod Sidecar
pub mod MemberActivity
pub mod NewMemberAlerts
pub mod PostConditions

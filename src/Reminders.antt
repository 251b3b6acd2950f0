-- ===== src/Reminders.antt =====
-- mom_bot/reminders: the calendar predicates, the log of sent reminders and the scheduler.
pub mod Calendar
pub mod Models
pub mod SentStore
pub mod Scheduler
pub mod Seed

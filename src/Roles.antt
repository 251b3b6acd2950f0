-- ===== src/Roles.antt =====
-- src/mom_bot/roles: the day roles of the guild members.
pub mod Models
pub mod Seed
pub mod Service

-- ===== src/PostConditions.antt =====
-- The post-condition preferences of members: src/mom_bot/post_conditions.
pub mod Models
pub mod Client
pub mod Grouping
pub mod GridLayout
pub mod Embed
pub mod DiscordDisplay
pub mod GridView
pub mod Commands

-- ===== src/MemberNotifications.antt =====
-- mom_bot/member_notifications: the occurrence dates of the notices that members subscribe to.
pub mod Models
pub mod Schedule
pub mod Service
pub mod Commands

-- ===== src/NewMemberAlerts.antt =====
-- src/mom_bot/new_member_alerts: the officers who are told of new members.
pub mod Service
pub mod Commands

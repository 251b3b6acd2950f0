-- ===== src/MemberActivity.antt =====
-- src/mom_bot/member_activity: members who join and post nothing for a day are removed.
pub mod Service
pub mod AutoKick

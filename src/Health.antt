-- ===== src/Health.antt =====
-- mom_bot/health: what the probes see of the schedulers.
pub mod Progress

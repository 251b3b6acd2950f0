-- ===== src/PostConditions/Models.antt =====
-- A post condition, as siege-web sends it; the keys that the bot does not read are left out.
use rsl_mom_bot.Prelude.{ℕ, String}

pub record Condition : Type 0 where
  pub id : ℕ
  pub condition_type : String
  pub description : String

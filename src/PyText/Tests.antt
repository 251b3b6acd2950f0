-- ===== src/PyText/Tests.antt =====
-- Runs of `int_of` and `str_of` at fixed texts.
use rsl_mom_bot.Prelude.{◌≡◌, refl, some, none}
use rsl_mom_bot.Prelude.Int.{pos, negsuc}
use rsl_mom_bot.PyText.{codes, int_of, str_of}

int_of_grouped : int_of " +1_234 " ≡ some (pos 1234)
unfolding int_of
int_of_grouped = refl

int_of_garbage : int_of "12_" ≡ none
unfolding int_of
int_of_garbage = refl

str_of_snowflake : str_of (pos 736372834012345678) ≡ codes "736372834012345678"
unfolding str_of
str_of_snowflake = refl

str_of_negative : str_of (negsuc 4) ≡ codes "-5"
unfolding str_of
str_of_negative = refl

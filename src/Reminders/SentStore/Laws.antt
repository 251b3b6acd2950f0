-- ===== src/Reminders/SentStore/Laws.antt =====
-- What inserting and deleting a row does to the rows that are found.
use rsl_mom_bot.Prelude.{ℕ, ◌≡◌, refl, true, false, ◌||◌, [], ◌∷◌, arith, Bool-cases, inl, inr}
use rsl_mom_bot.Date.{Date}
use rsl_mom_bot.Date.Ordinal.{date_eq_refl, date_eq→eq}
use rsl_mom_bot.Reminders.SentStore.{SentTable, is_row, has_row, delete_row, insert_row}

pub is_row→eq : (i j : ℕ) (d e : Date) → is_row j e (i, d) ≡ true → (j ≡ i) × (e ≡ d)
is_row→eq i j d e h = (ground arith, date_eq→eq e d (ground arith))

-- After an insertion, successful or not, the row is there; the rows for other ids and dates are
-- what they were.
pub has_row-insert_row :
    (i j : ℕ) (d e : Date) (rows : SentTable)
    → has_row j e (insert_row i d rows).1 ≡ (is_row j e (i, d) || has_row j e rows)
unfolding insert_row
has_row-insert_row i j d e rows = elim (Bool-cases (is_row j e (i, d))) [
  | inl same ↦ let (p, q) = is_row→eq i j d e same in rw (p, q) (ground (arith, date_eq_refl d))
  | inr other ↦ ground arith
]

-- Deleting a row never adds one for any id and date.
pub has_row-delete_row :
    (i j : ℕ) (d e : Date) (rows : SentTable)
    → has_row j e rows ≡ false
    → has_row j e (delete_row i d rows) ≡ false
unfolding has_row delete_row
has_row-delete_row i j d e [] h = refl
has_row-delete_row i j d e (r ∷ rows) h = ground (arith, has_row-delete_row i j d e rows)

pub has_row-cons :
    (i j : ℕ) (d e : Date) (rows : SentTable)
    → has_row j e ((i, d) ∷ rows) ≡ (is_row j e (i, d) || has_row j e rows)
unfolding has_row
has_row-cons i j d e rows = refl

pub delete_row_head : (i : ℕ) (d : Date) (rows : SentTable) → delete_row i d ((i, d) ∷ rows) ≡ rows
unfolding delete_row
delete_row_head i d rows = ground (arith, date_eq_refl d)

-- Deleting the row that was just inserted restores the table.
pub delete_row-insert_row :
    (i : ℕ) (d : Date) (rows : SentTable)
    → has_row i d rows ≡ false
    → delete_row i d (insert_row i d rows).1 ≡ rows
unfolding insert_row delete_row
delete_row-insert_row i d rows h = ground (arith, date_eq_refl d)

pub is_row_self : (i : ℕ) (d : Date) → is_row i d (i, d) ≡ true
is_row_self i d = ground (arith, date_eq_refl d)

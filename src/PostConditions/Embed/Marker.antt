-- ===== src/PostConditions/Embed/Marker.antt =====
-- The length of the marker of a shortened text.
use rsl_mom_bot.Prelude.{
  ℕ, zero, suc, ◌+◌, ◌/◌, ◌%◌, ◌≤◌, List, [], ◌∷◌, length, length-append, arith,
}
use rsl_mom_bot.PyText.{codes, str_of, show_from}
use rsl_mom_bot.PostConditions.Embed.{truncation_suffix}

-- More fuel or a larger number gives no fewer digits.
show_from-length :
    (fuel more m n : ℕ) (acc acc' : List ℕ)
    → fuel ≤ more
    → m ≤ n
    → length acc ≤ length acc'
    → length (show_from fuel m acc) ≤ length (show_from more n acc')
unfolding show_from
show_from-length zero zero m n acc acc' f h a = a
show_from-length zero (suc more) m n acc acc' f h a =
    let shown = (48 + n % 10) ∷ acc' in
    let later =
      show_from-length zero more (n / 10) (n / 10) acc shown (omega arith) (omega arith)
        (omega (arith, a)) in
    ground (arith, later)
show_from-length (suc fuel) zero m n acc acc' f h a = absurd (omega (arith, f))
show_from-length (suc fuel) (suc more) m n acc acc' f h a =
    let digit = 48 + m % 10 in
    let digit' = 48 + n % 10 in
    let smaller : m / 10 ≤ n / 10 = omega (arith, h) in
    let longer : length (digit ∷ acc) ≤ length (digit' ∷ acc') = omega (arith, a) in
    let fewer : fuel ≤ more = omega (arith, f) in
    let later =
      show_from-length zero more (n / 10) (n / 10) (digit ∷ acc) (digit' ∷ acc') (omega arith)
        (omega arith) longer in
    let both =
      show_from-length fuel more (m / 10) (n / 10) (digit ∷ acc) (digit' ∷ acc') fewer smaller
        longer in
    ground (arith, later, both, smaller)

-- A smaller number has no longer marker.
pub truncation_suffix-length :
    (m n : ℕ) → m ≤ n → length (truncation_suffix m) ≤ length (truncation_suffix n)
unfolding truncation_suffix str_of
truncation_suffix-length m n h =
    let digits = show_from-length (suc m) (suc n) m n [] [] (omega (arith, h)) h (omega arith) in
    omega (
      arith,
      digits,
      length-append (show_from (suc m) m []) (codes " more"),
      length-append (show_from (suc n) n []) (codes " more"),
    )

-- The fuel bounds the digits.
show_from-fuel : (fuel n : ℕ) (acc : List ℕ) → length (show_from fuel n acc) ≤ length acc + fuel
unfolding show_from
show_from-fuel zero n acc = omega arith
show_from-fuel (suc fuel) n acc = ground (arith, show_from-fuel fuel (n / 10) ((48 + n % 10) ∷ acc))

-- A marker is not much longer than its number.
pub truncation_suffix_short : (n : ℕ) → length (truncation_suffix n) ≤ n + 12
unfolding truncation_suffix str_of
truncation_suffix_short n =
    omega
      (arith, show_from-fuel (suc n) n [], length-append (show_from (suc n) n []) (codes " more"))

-- ===== src/Prelude/Lists.antt =====
-- Lists over the native numbers, with Boolean tests.
use Prim.Native.Nat.{ℕ, suc, ◌+◌}
use mathlib.Core.Path.{◌≡◌, sym, ap}
use mathlib.Core.Logic.{◌⊎◌, inl, inr, ◌↔◌}
use mathlib.Core.Bool.{Bool, true, false, not, ◌&&◌, ◌||◌}
use mathlib.Core.Option.{Option, none, some}
use mathlib.Core.List.{List, [], ◌∷◌, ◌++◌}
use native.Mathlib.Omega.{arith}
use rsl_mom_bot.Prelude.Tests.{if◌then◌else◌, ◌==◌, Bool-cases}

module _ {ℓ} {A : Type ℓ} where
  abbrev pub length : List A → ℕ
  length [] = 0
  length (x ∷ xs) = suc (length xs)

  -- The items that pass a test, in order: a comprehension with an `if`.
  abbrev pub filter : (A → Bool) → List A → List A
  filter p [] = []
  filter p (x ∷ xs) = let rest = filter p xs in if p x then x ∷ rest else rest

  -- `any(p(x) for x in xs)`.
  abbrev pub any : (A → Bool) → List A → Bool
  any p [] = false
  any p (x ∷ xs) = p x || any p xs

  -- `next((x for x in xs if p(x)), None)`.
  abbrev pub find? : (A → Bool) → List A → Option A
  find? p [] = none
  find? p (x ∷ xs) = if p x then some x else find? p xs

  -- Every item has the property.
  abbrev pub All {κ} : (A → Type κ) → List A → Type κ
  All P [] = Unit
  All P (x ∷ xs) = P x × All P xs

  pub length-append : (xs ys : List A) → length (xs ++ ys) ≡ length xs + length ys
  length-append [] ys = omega arith
  length-append (x ∷ xs) ys = omega (arith, length-append xs ys)

abbrev pub contains : ℕ → List ℕ → Bool
contains a [] = false
contains a (x ∷ xs) = (a == x) || contains a xs

-- Membership by recursion: which place the item stands at.
abbrev pub In : {A : Type 0} → A → List A → Type 0
In a [] = ⊥
In a (x ∷ xs) = (a ≡ x) ⊎ In a xs

-- The items of a filtered list are those of the list that pass the test.
pub In-filter :
    {A : Type 0} (p : A → Bool) (a : A) (xs : List A)
    → In a (filter p xs) ↔ (In a xs × (p a ≡ true))
In-filter p a [] = (λ h. absurd h, λ h. absurd h.0)
In-filter p a (x ∷ xs) = elim (Bool-cases (p x)) [
  | inl h ↦ rw h (
    elim [ inl e ↦ (inl e, rw e h) | inr m ↦ let (n, k) = (In-filter p a xs).0 m in (inr n, k) ],
    λ (m, k). elim m [ inl e ↦ inl e | inr n ↦ inr ((In-filter p a xs).1 (n, k)) ],
  )
  | inr h ↦ rw h (
    λ m. let (n, k) = (In-filter p a xs).0 m in (inr n, k),
    λ (m, k). elim m [ inl e ↦ cc (h, k, ap p e) | inr n ↦ (In-filter p a xs).1 (n, k) ],
  )
]

-- Taking a number out of a list leaves the others.
pub contains-filter :
    (a b : ℕ) (xs : List ℕ)
    → contains a (filter (λ x. not (x == b)) xs) ≡ (contains a xs && not (a == b))
contains-filter a b [] = ground arith
contains-filter a b (x ∷ xs) = ground (arith, contains-filter a b xs)

module _ {A : Type 0} (P : A → Type 0) where
  pub All-append : (xs ys : List A) → All P xs → All P ys → All P (xs ++ ys)
  All-append [] ys hx hy = hy
  All-append (x ∷ xs) ys (h, hx) hy = (h, All-append xs ys hx hy)

  pub All-map : (Q : A → Type 0) (xs : List A) → ((x : A) → P x → Q x) → All P xs → All Q xs
  All-map Q [] f h = tt
  All-map Q (x ∷ xs) f (h, hs) = (f x h, All-map Q xs f hs)

  pub All-filter : (p : A → Bool) (xs : List A) → All P xs → All P (filter p xs)
  All-filter p [] h = tt
  All-filter p (x ∷ xs) (h, hs) = elim (Bool-cases (p x)) [
    | inl e ↦ rw e (h, All-filter p xs hs)
    | inr e ↦ rw e (All-filter p xs hs)
  ]

  -- What is found has the property of every item, and passes the test.
  pub find?-All :
      (p : A → Bool) (xs : List A) (a : A) → All P xs → find? p xs ≡ some a → P a × (p a ≡ true)
  find?-All p [] a h e = cc
  find?-All p (x ∷ xs) a (h, hs) e = elim (Bool-cases (p x)) [
    | inl t ↦
        let found : some x ≡ some a = rw t at e in let same : x ≡ a = cc in rw (sym same) (h, t)
    | inr f ↦ find?-All p xs a hs (rw f at e)
  ]

pub In-append : {A : Type 0} (a : A) (xs ys : List A) → In a ys → In a (xs ++ ys)
In-append a [] ys h = h
In-append a (x ∷ xs) ys h = inr (In-append a xs ys h)

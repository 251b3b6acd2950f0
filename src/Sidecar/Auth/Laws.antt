-- ===== src/Sidecar/Auth/Laws.antt =====
-- Which headers pass.
use rsl_mom_bot.Prelude.{
  ℕ, ◌≡◌, ◌↔◌, refl, sym, ◌∙◌, ap, Bool, true, false, not, ◌&&◌, ◌==◌, if◌then◌else◌, some, List,
  [], ◌∷◌, ◌++◌, any, arith, Bool-cases, ==→eq, ◌⊎◌, inl, inr,
}
use rsl_mom_bot.Prelude.Exec.{Result, ok, err, http_status, other_error, ◌>>=ᵣ◌}
use rsl_mom_bot.PyText.{codes, codes_eq}
use rsl_mom_bot.Sidecar.Auth.{lower, partition_space, is_ascii, check_token, require_bearer}

pub codes_eq→eq : (a b : List ℕ) → codes_eq a b ≡ true → a ≡ b
codes_eq→eq [] [] h = refl
codes_eq→eq (x ∷ a) (y ∷ b) h = ground (arith, codes_eq→eq a b)
codes_eq→eq [] (y ∷ b) h = cc
codes_eq→eq (x ∷ a) [] h = cc

codes_eq_refl : (a : List ℕ) → codes_eq a a ≡ true
codes_eq_refl [] = refl
codes_eq_refl (x ∷ a) = ground (arith, codes_eq_refl a)

-- A scheme is `bearer` in any case.
abbrev pub IsBearer : List ℕ → Type 0
IsBearer scheme = lower scheme ≡ codes "bearer"

abbrev has_space : List ℕ → Bool
has_space text = any (λ c. c == b' ') text

has_space-lower : (text : List ℕ) → has_space (lower text) ≡ has_space text
has_space-lower [] = refl
has_space-lower (c ∷ cs) = ground (arith, has_space-lower cs)

bearer_no_space : (scheme : List ℕ) → IsBearer scheme → has_space scheme ≡ false
bearer_no_space scheme h = sym (has_space-lower scheme) ∙ ap has_space h

partition_space_lem :
    (text : List ℕ)
    → let (scheme, token) = partition_space text in
      (text ≡ scheme ++ b' ' ∷ token) ⊎ ((text ≡ scheme) × (token ≡ []))
unfolding partition_space
partition_space_lem [] = inr (refl, refl)
partition_space_lem (c ∷ cs) = elim (Bool-cases (c == b' ')) [
  | inl t ↦ let same = ==→eq c b' ' t in rw (t, same) (inl refl)
  | inr f ↦ rw f (elim (partition_space_lem cs) [
    | inl e ↦ inl (ap (λ r. c ∷ r) e)
    | inr (e, k) ↦ inr (ap (λ r. c ∷ r) e, k)
  ])
]

partition_space-append :
    (scheme token : List ℕ)
    → has_space scheme ≡ false
    → partition_space (scheme ++ b' ' ∷ token) ≡ (scheme, token)
unfolding partition_space
partition_space-append [] token h = refl
partition_space-append (c ∷ cs) token h =
    let not_here : (c == b' ') ≡ false = ground arith in
    let later = partition_space-append cs token (ground arith) in rw (not_here, later) refl

accepted_by :
    (result : Result Bool)
    → (result >>=ᵣ λ accepted. if not accepted then err (http_status 401) else ok tt) ≡ ok tt
    → result ≡ ok true
accepted_by (ok true) h = refl
accepted_by (ok false) h = cc
accepted_by (err e) h = cc

check_token_lem :
    (scheme token key : List ℕ)
    → check_token scheme token key ≡ ok true
    → IsBearer scheme × (token ≡ key)
check_token_lem scheme token key h = elim (Bool-cases (codes_eq (lower scheme) (codes "bearer"))) [
  | inr f ↦ let refused : ok false ≡ ok true = rw f at h in cc
  | inl t ↦ elim (Bool-cases (is_ascii token && is_ascii key)) [
    | inr f ↦ let raised : err other_error ≡ ok true = rw (t, f) at h in cc
    | inl a ↦
        let equal : ok (codes_eq token key) ≡ ok true = rw (t, a) at h in
        let same : codes_eq token key ≡ true = cc in
        (codes_eq→eq (lower scheme) (codes "bearer") t, codes_eq→eq token key same)
  ]
]

whole_header :
    (header scheme token key : List ℕ)
    → ¬ (key ≡ [])
    → token ≡ key
    → (header ≡ scheme ++ b' ' ∷ token) ⊎ ((header ≡ scheme) × (token ≡ []))
    → header ≡ scheme ++ b' ' ∷ key
whole_header header scheme token key n e (inl h) = rw (sym e) h
whole_header header scheme token key n e (inr (_, h)) = absurd (n (sym e ∙ h))

-- With an ASCII key that is not empty, a header passes exactly if it is the word `bearer` in any
-- case, a space and the key.
pub require_bearer_iff :
    (key header : List ℕ)
    → is_ascii key ≡ true
    → ¬ (key ≡ [])
    → (require_bearer key (some header) ≡ ok tt)
      ↔ ((scheme : List ℕ) × IsBearer scheme × (header ≡ scheme ++ b' ' ∷ key))
unfolding require_bearer
require_bearer_iff key header ascii n =
    let (scheme, token) = partition_space header in
    (
      λ h.
          let (bearer, same) =
            check_token_lem scheme token key (accepted_by (check_token scheme token key) h) in
          (
            scheme,
            bearer,
            whole_header header scheme token key n same (partition_space_lem header),
          ),
      λ (s, bearer, whole).
          let t : codes_eq (lower s) (codes "bearer") ≡ true = rw bearer refl in
          let parts = partition_space-append s key (bearer_no_space s bearer) in
          rw (whole, parts, t, ascii, codes_eq_refl key) refl,
    )

-- ===== src/Sidecar/Auth.antt =====
-- src/mom_bot/sidecar/auth.py. A header and the key are code points; `lower` is that of ASCII.
pub mod Laws
use rsl_mom_bot.Prelude.{
  ℕ, ◌+◌, Bool, true, false, not, ◌&&◌, ◌==◌, leb, if◌then◌else◌, Option, none, some, List, [], ◌∷◌,
  map, any,
}
use rsl_mom_bot.Prelude.Exec.{Result, ok, err, http_status, other_error, ◌>>=ᵣ◌}
use rsl_mom_bot.PyText.{codes, codes_eq}

-- `c.lower()` of an ASCII character.
abbrev pub lower_code : ℕ → ℕ
lower_code c = if leb b'A' c && leb c b'Z' then c + 32 else c

abbrev pub lower : List ℕ → List ℕ
lower text = map lower_code text

-- `text.partition(" ")`, without the separator.
unfoldable pub partition_space : List ℕ → List ℕ × List ℕ
partition_space [] = ([], [])
partition_space (c ∷ cs) =
    let rest = partition_space cs in if c == b' ' then ([], cs) else (c ∷ rest.0, rest.1)

abbrev pub is_ascii : List ℕ → Bool
is_ascii text = not (any (λ c. leb 128 c) text)

-- `secrets.compare_digest` of two texts, a `TypeError` where one is not ASCII.
abbrev pub compare_digest : List ℕ → List ℕ → Result Bool
compare_digest a b = if is_ascii a && is_ascii b then ok (codes_eq a b) else err other_error

-- The second half of the condition, which is read only for the right scheme.
abbrev pub check_token : List ℕ → List ℕ → List ℕ → Result Bool
check_token scheme token api_key =
    if not (codes_eq (lower scheme) (codes "bearer"))
    then ok false
    else compare_digest token api_key

-- `_require_bearer`.
unfoldable pub require_bearer : List ℕ → Option (List ℕ) → Result (Unit {0})
unfolding partition_space
require_bearer api_key none = err (http_status 403)
require_bearer api_key (some authorization) =
    let (scheme, token) = partition_space authorization in
    check_token scheme token api_key >>=ᵣ λ accepted.
    if not accepted then err (http_status 401) else ok tt

-- ===== src/Http/Shell.antt =====
-- `shell_safe` of bench/src/http.c.
use cross_platform_benchmark.Prelude.{
  ℕ, Bool, true, false, ◌||◌, [], ◌∷◌, Bytes, codes, if◌then◌else◌, has_char, is_lower, is_upper,
  is_digit, All, ◌≡◌, ◌⊎◌, arith, ◌≤◌,
}

abbrev pub shell_safe_char : Bytes → ℕ → Bool
shell_safe_char extra c = is_lower c || is_upper c || is_digit c || has_char c extra

unfoldable pub shell_safe : Bytes → Bytes → Bool
shell_safe [] extra = true
shell_safe (c ∷ s) extra = if shell_safe_char extra c then shell_safe s extra else false

-- What may stand in a token.
abbrev pub token_extra : Bytes
token_extra = codes "-._~"

-- The unreserved characters of RFC 3986.
abbrev pub IsUnreserved : ℕ → Type 0
IsUnreserved c =
    ((b'a' ≤ c) × (c ≤ b'z'))
    ⊎ ((b'A' ≤ c) × (c ≤ b'Z'))
    ⊎ ((b'0' ≤ c) × (c ≤ b'9'))
    ⊎ (c ≡ b'-')
    ⊎ (c ≡ b'.')
    ⊎ (c ≡ b'_')
    ⊎ (c ≡ b'~')

unreserved_lem : (c : ℕ) → shell_safe_char token_extra c ≡ true → IsUnreserved c
unreserved_lem c h = ground arith

-- A token that passes the test holds nothing but unreserved characters.
pub shell_safe-IsUnreserved : (s : Bytes) → shell_safe s token_extra ≡ true → All IsUnreserved s
unfolding shell_safe
shell_safe-IsUnreserved [] h = tt
shell_safe-IsUnreserved (c ∷ s) h =
    (unreserved_lem c (ground arith), shell_safe-IsUnreserved s (ground arith))

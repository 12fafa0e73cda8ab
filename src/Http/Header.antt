-- ===== src/Http/Header.antt =====
-- The header helpers of bench/src/http.c: `ci_find`, `content_length`, `header_value`, `says_chunked`.
pub mod Search
use cross_platform_benchmark.Prelude.{
  ℕ, zero, suc, ◌+◌, ◌-◌, Bool, true, false, not, ◌&&◌, ◌||◌, List, [], ◌∷◌, ◌++◌, Option, none,
  some, Bytes, codes, ltb, leb, ◌==◌, if◌then◌else◌, length, take, drop, to_lower, find_str, ℤ, pos,
  negsuc, strtol, Parsed,
}

-- Whether the needle stands at the front, letters compared without case.
pub ci_starts : Bytes → Bytes → Bool
ci_starts [] hay = true
ci_starts (n ∷ ns) [] = false
ci_starts (n ∷ ns) (c ∷ hay) = to_lower c == to_lower n && ci_starts ns hay

-- The offset at which `ci_find` finds the needle in `hay`.
pub ci_scan : Bytes → Bytes → Option ℕ
unfolding ci_starts
ci_scan needle [] = none
ci_scan needle (c ∷ hay) =
    let rest : Option ℕ = ci_scan needle hay in
    if ci_starts needle (c ∷ hay) then some 0 else elim rest [ none ↦ none | some i ↦ some (suc i) ]

-- An empty needle is found at once, also in an empty string.
unfoldable pub ci_find : Bytes → Bytes → Option ℕ
unfolding ci_scan
ci_find hay [] = some 0
ci_find hay (n ∷ ns) = ci_scan (n ∷ ns) hay

abbrev pub skip_blank : Bytes → Bytes
skip_blank [] = []
skip_blank (c ∷ s) = if c == b' ' || c == 9 then skip_blank s else c ∷ s

abbrev crlf : Bytes
crlf = 13 ∷ 10 ∷ []

-- `none` is -1.
unfoldable pub content_length : Bytes → Option ℕ
unfolding ci_find strtol
content_length head =
    let name = crlf ++ codes "content-length:" in
    elim (ci_find head name) [
      | none ↦ none
      | some at ↦
          let v = strtol (skip_blank (drop (at + length name) head)) in
          if not v.any then none else elim v.value [ pos n ↦ some n | negsuc n ↦ none ]
    ]

abbrev pub line : Bytes → Bytes
line [] = []
line (c ∷ s) = if c == 13 || c == 10 then [] else c ∷ line s

-- The text that is left in `out`, which has room for `cap` bytes.
unfoldable pub header_value : Bytes → Bytes → ℕ → Bytes
unfolding ci_find
header_value head name cap = elim (ci_find head name) [
  | none ↦ []
  | some at ↦ take (cap - 1) (line (skip_blank (drop (at + length name) head)))
]

unfoldable pub says_chunked : Bytes → Bool
unfolding ci_find find_str
says_chunked head = elim (ci_find head (crlf ++ codes "transfer-encoding:")) [
  | none ↦ false
  | some at ↦
      let here = drop at head in
      elim (ci_find here (codes "chunked")) [
        | none ↦ false
        | some found ↦ elim (find_str crlf (drop 2 here)) [
          | none ↦ true
          | some eol ↦ ltb found (eol + 2)
        ]
      ]
]

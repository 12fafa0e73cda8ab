-- ===== src/Prelude/Text.antt =====
-- C strings. A string is the list of its bytes before the NUL, so no element of one is 0; a pointer
-- into it is the list of the bytes from there on. The functions are those of <string.h> that the
-- program calls.
use Prim.Native.Nat.{ℕ, suc, ◌+◌, ◌-◌}
use Prim.Native.Char.{code}
use Prim.Native.String.{String}
use mathlib.Core.Bool.{Bool, true, false, ◌&&◌, ◌||◌}
use mathlib.Core.List.{List, [], ◌∷◌, ◌++◌}
use mathlib.Core.Option.{Option, none, some}
use cross_platform_benchmark.Prelude.Tests.{leb, ◌==◌, if◌then◌else◌}

abbrev pub Bytes : Type 0
Bytes = List ℕ

-- The bytes of an ASCII literal.
abbrev pub codes : String → Bytes
codes String.[] = []
codes (String.◌∷◌ c s) = code c ∷ codes s

-- What stands in a buffer before its first NUL.
abbrev pub c_string : Bytes → Bytes
c_string [] = []
c_string (c ∷ s) = if c == 0 then [] else c ∷ c_string s

-- `!strcmp(a, b)`.
abbrev pub str_eq : Bytes → Bytes → Bool
str_eq [] [] = true
str_eq [] (y ∷ ys) = false
str_eq (x ∷ xs) [] = false
str_eq (x ∷ xs) (y ∷ ys) = x == y && str_eq xs ys

-- `!strncmp(s, p, strlen(p))`.
abbrev pub starts_with : Bytes → Bytes → Bool
starts_with [] s = true
starts_with (p ∷ ps) [] = false
starts_with (p ∷ ps) (c ∷ s) = c == p && starts_with ps s

-- `strchr(s, c) != NULL` for a byte `c` that is not 0.
abbrev pub has_char : ℕ → Bytes → Bool
has_char c [] = false
has_char c (x ∷ s) = x == c || has_char c s

-- `strcspn(s, set)`: how many bytes stand before the first that is in `set`.
abbrev pub cspn : Bytes → Bytes → ℕ
cspn set [] = 0
cspn set (c ∷ s) = if has_char c set then 0 else suc (cspn set s)

-- `strspn(s, set)`: how many bytes stand before the first that is not in `set`.
abbrev pub spn : Bytes → Bytes → ℕ
spn set [] = 0
spn set (c ∷ s) = if has_char c set then suc (spn set s) else 0

-- `strchr(s, c) - s`, and `strstr(s, needle) - s`.
abbrev pub find_char : ℕ → Bytes → Option ℕ
find_char c [] = none
find_char c (x ∷ s) =
    let rest : Option ℕ = find_char c s in
    if x == c then some 0 else elim rest [ none ↦ none | some i ↦ some (suc i) ]

unfoldable pub find_str : Bytes → Bytes → Option ℕ
find_str needle [] = if starts_with needle [] then some 0 else none
find_str needle (x ∷ s) =
    let rest : Option ℕ = find_str needle s in
    if starts_with needle (x ∷ s) then some 0 else elim rest [ none ↦ none | some i ↦ some (suc i) ]

-- <ctype.h> in the C locale.
abbrev pub is_digit : ℕ → Bool
is_digit c = leb b'0' c && leb c b'9'

abbrev pub is_upper : ℕ → Bool
is_upper c = leb b'A' c && leb c b'Z'

abbrev pub is_lower : ℕ → Bool
is_lower c = leb b'a' c && leb c b'z'

abbrev pub to_lower : ℕ → ℕ
to_lower c = if is_upper c then c + 32 else c

abbrev pub is_space : ℕ → Bool
is_space c = c == 32 || leb 9 c && leb c 13

-- What is left without the bytes at the front, respectively at the end, of which the test holds.
abbrev pub trim_start : (ℕ → Bool) → Bytes → Bytes
trim_start p [] = []
trim_start p (c ∷ s) = if p c then trim_start p s else c ∷ s

abbrev keep_before : Bool → ℕ → Bytes → Bytes
keep_before true c [] = []
keep_before false c [] = c ∷ []
keep_before b c (x ∷ s) = c ∷ x ∷ s

abbrev pub trim_end : (ℕ → Bool) → Bytes → Bytes
trim_end p [] = []
trim_end p (c ∷ s) = keep_before (p c) c (trim_end p s)

-- What has been read where the file ends.
abbrev pub last_piece : Bytes → List Bytes
last_piece [] = []
last_piece (c ∷ s) = (c ∷ s) ∷ []

-- What the calls of `fgets` give of a file, from `file` on, with a buffer of `size + 1` bytes: pieces
-- that end behind a line end or when the buffer is full. `room` and `read` are those of the piece that
-- is being read.
unfoldable pub fgets_loop : ℕ → ℕ → Bytes → Bytes → List Bytes
fgets_loop size room read [] = last_piece read
fgets_loop size room read (c ∷ file) =
    let piece = read ++ (c ∷ []) in
    let ended = piece ∷ fgets_loop size size [] file in
    let longer = fgets_loop size (room - 1) piece file in
    if c == 10 || leb room 1 then ended else longer

-- With a buffer of `n` bytes.
unfoldable pub fgets_all : ℕ → Bytes → List Bytes
unfolding fgets_loop
fgets_all n file = fgets_loop (n - 1) (n - 1) [] file

abbrev first_of : List Bytes → Option Bytes
first_of [] = none
first_of (s ∷ ss) = some s

-- The first call; `none` is a file that is empty, or that cannot be opened.
unfoldable pub fgets : ℕ → Option Bytes → Option Bytes
unfolding fgets_all
fgets n none = none
fgets n (some file) = first_of (fgets_all n file)

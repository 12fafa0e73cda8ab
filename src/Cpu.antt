-- ===== src/Cpu.antt =====
-- What bench/src/bench.c finds out about the processors: CPU lists, and the names of the models.
pub mod Midr
pub mod Ids
pub mod Names
pub mod Fuel
pub mod Models
pub mod Detect
use cross_platform_benchmark.Prelude.{
  ℕ, zero, suc, ◌+◌, ◌-◌, ◌*◌, ◌%◌, ◌^◌, ◌/◌, Bool, true, false, not, ◌&&◌, ◌||◌, List, [], ◌∷◌,
  ◌++◌, Option, none, some, Bytes, codes, ltb, leb, ◌==◌, if◌then◌else◌, length, take, drop, get_or,
  str_eq, starts_with, find_str, to_lower, strtol, strtoul16, overflows16, Parsed, ℤ, pos, negsuc,
  is_negative, magnitude, map,
}
use cross_platform_benchmark.Cpu.Midr.{midr_name}

-- `get_cpu_count`, of what `plat_cpu_count` says.
unfoldable pub get_cpu_count : ℤ → ℕ
get_cpu_count (negsuc n) = 1
get_cpu_count (pos n) = if ltb n 1 then 1 else if ltb 1024 n then 1024 else n

-- What follows a range: nothing, or a comma that is passed over.
abbrev pub after_range : Bytes → Option Bytes
after_range [] = some []
after_range (c ∷ s) = if c == b',' then some s else none

-- The conversion `(int)v`, which keeps the low 32 bits.
abbrev pub to_int : ℕ → ℤ
to_int v = let low = v % 2 ^ 32 in if ltb low (2 ^ 31) then pos low else negsuc (2 ^ 32 - 1 - low)

-- `(int)v` for `count` values of `v` from `a` on.
abbrev pub ids_from : ℕ → ℕ → List ℤ
ids_from a zero = []
ids_from a (suc count) = to_int a ∷ ids_from (suc a) count

-- A range "a" or "a-b": its first id, how many there are, and the text behind it.
pub record Range : Type 0 where
  pub first : ℕ
  pub count : ℕ
  pub rest : Bytes

-- The second number of a range, which is the first if there is none, and the text behind it.
abbrev pub range_end : ℤ → Bytes → Option (ℤ × Bytes)
range_end a [] = some (a, [])
range_end a (c ∷ s) =
    let b = strtol s in
    if c == b'-' then (if b.any then some (b.value, b.rest) else none) else some (a, c ∷ s)

abbrev pub range_of : ℤ → Option (ℤ × Bytes) → Option Range
range_of a none = none
range_of a (some (b, rest)) =
    let low = magnitude a in
    let high = magnitude b in
    if is_negative a || is_negative b || ltb high low
    then none
    else some (record { first = low; count = suc high - low; rest = rest })

-- The range that the text starts with.
unfoldable pub next_range : Bytes → Option Range
unfolding strtol
next_range s =
    let a = strtol s in if a.any then range_of a.value (range_end a.value a.rest) else none

-- The text behind a range and its comma, if the range fits into the list, which has `n` ids.
unfoldable pub fitting : ℕ → ℕ → Range → Option Bytes
fitting max_out n r = if ltb max_out (n + r.count) then none else after_range r.rest

abbrev pub followed : List ℤ → Option (List ℤ) → Option (List ℤ)
followed ids none = none
followed ids (some more) = some (ids ++ more)

-- What a round does with the range that it read; `continue` is the loop from there.
abbrev pub take_range : ℕ → ℕ → (ℕ → Bytes → Option (List ℤ)) → Option Range → Option (List ℤ)
take_range max_out n continue none = none
take_range max_out n continue (some r) = elim (fitting max_out n r) [
  | none ↦ none
  | some t ↦ followed (ids_from r.first r.count) (continue (n + r.count) t)
]

-- Recursion on fuel: each round takes a character at least.
unfoldable pub parse_loop : ℕ → ℕ → ℕ → Bytes → Option (List ℤ)
unfolding next_range fitting
parse_loop zero max_out n s = none
parse_loop (suc fuel) max_out n [] = some []
parse_loop (suc fuel) max_out n (c ∷ s) =
    take_range max_out n (parse_loop fuel max_out) (next_range (c ∷ s))

-- `none` is the source's -1.
unfoldable pub parse_cpu_list : Bytes → ℕ → Option (List ℤ)
unfolding parse_loop
parse_cpu_list spec max_out = parse_loop (suc (length spec)) max_out 0 spec

abbrev pub separator : Bytes
separator = codes " + "

abbrev pub element_end : Bytes → Option ℕ → ℕ
element_end p none = length p
element_end p (some i) = i

-- The loop of `models_add` over the elements from `p` on; each round passes a separator.
unfoldable pub has_element : ℕ → Bytes → Bytes → Bool
has_element zero p name = false
has_element (suc fuel) [] name = false
has_element (suc fuel) (c ∷ p) name =
    let sep = find_str separator (c ∷ p) in
    str_eq (take (element_end (c ∷ p) sep) (c ∷ p)) name
    || elim sep [ none ↦ false | some i ↦ has_element fuel (drop (i + 3) (c ∷ p)) name ]

abbrev separated : Bytes → Bytes → Bytes
separated [] name = name
separated (c ∷ out) name = (c ∷ out) ++ (separator ++ name)

-- The list afterwards, in a buffer of `outsz` bytes.
unfoldable pub models_add : Bytes → ℕ → Bytes → Bytes
unfolding has_element
models_add out outsz [] = out
models_add out outsz (c ∷ name) =
    if has_element (suc (length out)) out (c ∷ name)
    then out
    else if leb outsz (length out + 1)
    then out
    else take (outsz - 1) (separated out (c ∷ name))

-- What `fgets` reads of the register file of one CPU, and the name that it adds: `errno` is set when
-- the number is out of range.
unfoldable pub midr_add : ℕ → Bytes → Option Bytes → Bytes
unfolding strtoul16
midr_add outsz out none = out
midr_add outsz out (some raw) =
    let p = strtoul16 raw in
    let v = p.value in
    let named = models_add out outsz (midr_name (v / 2 ^ 24 % 256) (v / 2 ^ 4 % 4096) 96) in
    if p.any && not (overflows16 raw) then named else out

abbrev nothings : List Bytes
nothings =
    codes "aarch64"
    ∷ codes "arm64"
    ∷ codes "armv8"
    ∷ codes "armv8l"
    ∷ codes "armv7l"
    ∷ codes "arm"
    ∷ codes "unknown"
    ∷ codes "cpu"
    ∷ codes "processor"
    ∷ codes "generic"
    ∷ []

abbrev pub is_one_of : List Bytes → Bytes → Bool
is_one_of [] s = false
is_one_of (t ∷ ts) s = str_eq s t || is_one_of ts s

abbrev is_some : Option ℕ → Bool
is_some none = false
is_some (some n) = true

-- `arch` is `arch_string()`; 128 bytes take the name in lower case.
unfoldable pub name_is_generic : Bytes → Bytes → Bool
unfolding find_str
name_is_generic arch s =
    let low = map to_lower (take 127 s) in
    is_one_of nothings low || is_some (find_str (codes "processor rev") low) || str_eq low arch

-- Whether a blank would start the text or stand behind another.
abbrev pub after_blank : Bytes → Bool
after_blank [] = true
after_blank (l ∷ w) = l == 32

-- The loop of `dt_model` over the bytes read; `w` is the text so far, its last byte first, with the
-- room that is left for it.
unfoldable pub model_loop : Bytes → Bytes → ℕ → Bytes
model_loop [] w room = w
model_loop (c ∷ raw) w zero = w
model_loop (c ∷ raw) w (suc room) =
    let skipped = model_loop raw w (suc room) in
    let kept = model_loop raw (c ∷ w) room in
    if c == 0
    then w
    else if ltb c 0x20 || ltb 0x7e c
    then skipped
    else if c == 32 && after_blank w
    then skipped
    else kept

abbrev pub drop_blanks : Bytes → Bytes
drop_blanks [] = []
drop_blanks (c ∷ w) = if c == 32 then drop_blanks w else c ∷ w

abbrev pub reversed : Bytes → Bytes → Bytes
reversed [] out = out
reversed (c ∷ w) out = reversed w (c ∷ out)

-- `file` is what the device tree's property holds, if it can be read.
unfoldable pub dt_model : Option Bytes → ℕ → Bytes
unfolding model_loop
dt_model none outsz = []
dt_model (some file) outsz = reversed (drop_blanks (model_loop (take 127 file) [] (outsz - 1))) []

-- `dt_be_int`, before its conversion to a double; `fread` takes 8 bytes at most.
abbrev be_value : Bytes → ℕ → ℕ
be_value [] v = v
be_value (c ∷ s) v = be_value s ((v * 256 + c) % 2 ^ 64)

unfoldable pub dt_be_int : Option Bytes → ℕ
dt_be_int none = 0
dt_be_int (some file) =
    let b = take 8 file in if length b == 4 || length b == 8 then be_value b 0 else 0

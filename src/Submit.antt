-- ===== src/Submit.antt =====
-- The upload of a result document in bench/src/bench.c: `url_encode`, `copy_trimmed`, `print_reply` and
-- `submit_document`. What is printed is kept as its bytes; the upload itself is `Http.Post`.
pub mod Encode
pub mod Label
pub mod Show
pub mod Count
pub mod Total
use cross_platform_benchmark.Prelude.{
  ℕ, zero, suc, ◌+◌, ◌-◌, ◌*◌, ◌/◌, ◌%◌, Bool, true, false, not, ◌&&◌, ◌||◌, List, [], ◌∷◌, ◌++◌,
  Option, none, some, Bytes, codes, ltb, leb, ◌==◌, if◌then◌else◌, length, take, get_or, has_char,
  is_upper, is_lower, is_digit, bit_and, ℤ, pos, negsuc, str_eq, starts_with,
}
use cross_platform_benchmark.Http.Outcome.{Outcome, done, failed}
use cross_platform_benchmark.Http.Reply.{Reply}
use cross_platform_benchmark.Http.Post.{Network, Curl, http_post_json}

-- `MAX_LABEL` and `MAX_NOTES`.
abbrev pub max_label : ℕ
max_label = 200

abbrev pub max_notes : ℕ
max_notes = 2000

-- `plain`: whether a byte goes out as it is.
abbrev pub is_plain : ℕ → Bool
is_plain c = is_lower c || is_upper c || is_digit c || has_char c (codes "-._~")

abbrev pub hex_digit : ℕ → ℕ
hex_digit n = if ltb n 10 then b'0' + n else b'A' + (n - 10)

-- What one byte goes out as.
abbrev pub encoded_byte : ℕ → Bytes
encoded_byte c = if is_plain c then c ∷ [] else b'%' ∷ hex_digit (c / 16) ∷ hex_digit (c % 16) ∷ []

abbrev pub in_front : Bytes → Option Bytes → Option Bytes
in_front p none = none
in_front p (some s) = some (p ++ s)

-- With `n` bytes of the `cap` written.
unfoldable pub url_encode_loop : ℕ → Bytes → ℕ → Option Bytes
url_encode_loop cap [] n = some []
url_encode_loop cap (c ∷ s) n =
    let width = if is_plain c then 1 else 3 in
    let rest = url_encode_loop cap s (n + width) in
    if ltb cap (n + width + 1) then none else in_front (encoded_byte c) rest

-- `none` when it did not fit.
unfoldable pub url_encode : Bytes → ℕ → Option Bytes
unfolding url_encode_loop
url_encode s cap = url_encode_loop cap s 0

pub record Copied : Type 0 where
  pub text : Bytes
  pub fit : Bool

abbrev pub is_continuation : ℕ → Bool
is_continuation c = bit_and c 0xc0 == 0x80

-- The loop over the continuation bytes, from `n` down.
unfoldable pub cut_at : Bytes → ℕ → ℕ
cut_at s zero = zero
cut_at s (suc n) =
    let rest = cut_at s n in if is_continuation (get_or s (suc n) 0) then rest else suc n

-- `cap` is at least 1.
unfoldable pub copy_trimmed : ℕ → Bytes → Copied
unfolding cut_at
copy_trimmed cap s =
    if ltb (length s) cap
    then record { text = s; fit = true }
    else record { text = take (cut_at s (cap - 1)) s; fit = false }

-- The loop that drops the blanks at the end of a reply.
unfoldable pub shown_length : Bytes → ℕ → ℕ
shown_length s zero = zero
shown_length s (suc n) =
    let rest = shown_length s n in
    if has_char (get_or s n 0) (32 ∷ 9 ∷ 13 ∷ 10 ∷ []) then rest else suc n

abbrev lower_hex : ℕ → ℕ
lower_hex n = if ltb n 10 then b'0' + n else b'a' + (n - 10)

-- What one byte of a reply is printed as.
abbrev pub shown_byte : ℕ → Bytes
shown_byte c =
    if leb 0x20 c && not (c == 0x7f)
    then c ∷ []
    else b'\\' ∷ b'x' ∷ lower_hex (c / 16 % 16) ∷ lower_hex (c % 16) ∷ []

-- The loop over the reply, with `left` bytes of it still allowed.
unfoldable pub print_loop : ℕ → Bytes → Bytes
print_loop left [] = []
print_loop zero (c ∷ s) = codes " ..."
print_loop (suc left) (c ∷ s) = shown_byte c ++ print_loop left s

unfoldable pub print_reply : Bytes → Bytes
unfolding shown_length print_loop
print_reply body = print_loop 1024 (take (shown_length body (length body)) body)

-- The globals that the upload reads: the hub, the token, the label and the notes; the empty text is
-- one that was not given.
pub record Hub : Type 0 where
  pub hub : Bytes
  pub token : Bytes
  pub label : Bytes
  pub notes : Bytes

-- `tag`, of 32 bytes with its NUL.
abbrev pub variant_tag : Bytes → Bytes
variant_tag [] = []
variant_tag (c ∷ v) = take 31 (codes "(" ++ ((c ∷ v) ++ codes ")"))

abbrev pub reserve : Bytes → ℕ
reserve [] = 0
reserve (c ∷ tag) = length (c ∷ tag) + 1

abbrev pub joined : Bytes → Bytes → Bytes
joined [] tag = tag
joined (c ∷ label) [] = c ∷ label
joined (c ∷ label) (t ∷ tag) = (c ∷ label) ++ (32 ∷ t ∷ tag)

-- The label as it is sent: trimmed to the room that the tag leaves, then the tag.
unfoldable pub full_label : Bytes → Bytes → Bytes
full_label label tag = joined (copy_trimmed (max_label + 1 - reserve tag) label).text tag

-- `base_len`: the hub without the slashes at its end.
abbrev base_length : Bytes → ℕ → ℕ
base_length s zero = zero
base_length s (suc n) = let rest = base_length s n in if get_or s n 0 == b'/' then rest else suc n

abbrev label_query : Bytes → Bytes
label_query [] = []
label_query (c ∷ s) = codes "?label=" ++ (c ∷ s)

abbrev notes_query : Bytes → Bytes → Bytes
notes_query label [] = []
notes_query [] (c ∷ s) = codes "?notes=" ++ (c ∷ s)
notes_query (l ∷ label) (c ∷ s) = codes "&notes=" ++ (c ∷ s)

unfoldable pub run_url : Bytes → Bytes → Bytes → Bytes
run_url hub label notes =
    take (base_length hub (length hub)) hub
    ++ (codes "/api/runs" ++ (label_query label ++ notes_query label notes))

-- A run of the upload: what it printed last, the URL that it posted to, if it came to that, the count
-- `g_submit_errors` afterwards, and whether it returned 0.
pub record Submitted : Type 0 where
  pub printed : Bytes
  pub posted : Option Bytes
  pub errors : ℕ
  pub ok : Bool

pub submit_failed : ℕ → Option Bytes → Bytes → Submitted
submit_failed errors url text = record {
  printed = text;
  posted = url;
  errors = suc errors;
  ok = false;
}

abbrev pub status_within : ℕ → ℕ → ℤ → Bool
status_within low high (pos n) = leb low n && ltb n high
status_within low high (negsuc n) = false

abbrev pub is_empty : Bytes → Bool
is_empty [] = true
is_empty (c ∷ s) = false

abbrev pub answered : ℕ → Bytes → Reply → Submitted
answered errors url r =
    if status_within 200 300 r.status
    then record {
      printed = codes "uploaded: " ++ print_reply r.body;
      posted = some url;
      errors = errors;
      ok = true;
    }
    else if status_within 300 400 r.status && not (is_empty r.location)
    then submit_failed errors (some url)
        (codes "the hub redirected the upload to " ++ print_reply r.location)
    else submit_failed errors (some url) (codes "hub refused the upload: " ++ print_reply r.body)

abbrev pub concluded : ℕ → Bytes → Option (Outcome Reply) → Option Submitted
concluded errors url none = none
concluded errors url (some (failed e)) =
    some (submit_failed errors (some url) (codes "submit failed: " ++ e))
concluded errors url (some (done r)) = some (answered errors url r)

-- Behind the encoding: both texts have one, or the upload ends here. `alloc` says whether the URL's
-- allocation succeeds.
abbrev pub submit_encoded :
    Bool → Network → Curl → Hub → ℕ → Bytes → Option Bytes → Option Bytes → Option Submitted
submit_encoded alloc net curl g errors doc none notes =
    some (submit_failed errors none (codes "submit: label or notes too long"))
submit_encoded alloc net curl g errors doc (some label) none =
    some (submit_failed errors none (codes "submit: label or notes too long"))
submit_encoded alloc net curl g errors doc (some label) (some notes) =
    let url = run_url g.hub label notes in
    if alloc
    then concluded errors url (http_post_json net curl url g.token doc)
    else some (submit_failed errors none (codes "submit: out of memory"))

-- `none` means that the network's answers ran out, as in `http_post_json`.
unfoldable pub submit_document : Bool → Network → Curl → Hub → ℕ → Bytes → Bytes → Option Submitted
submit_document alloc net curl g errors doc variant =
    let label = full_label g.label (variant_tag variant) in
    let notes = (copy_trimmed (max_notes + 1) g.notes).text in
    submit_encoded alloc net curl g errors doc (url_encode label (max_label * 3 + 1))
      (url_encode notes (max_notes * 3 + 1))

-- ===== src/Http/Chunks/Framing.antt =====
-- The chunk framing of bench/src/http.c: `chunks_complete` and `dechunk` on what an encoder writes.
use cross_platform_benchmark.Prelude.{
  ℕ, suc, ◌+◌, ◌-◌, ◌*◌, ◌^◌, ◌<◌, ◌≤◌, min, Bool, true, false, List, [], ◌∷◌, ◌++◌, Bytes, codes,
  none, some, ◌≡◌, ◌≢◌, refl, sym, ap, ap₂, ◌∙◌, length, length-append, drop, take_append,
  drop_append, append_assoc, append-nil, All, arith, find_str, strtoul16, Parsed, is_xdigit,
  strtoul16_plain, xdigit_value, hex_value, after_xdigits, starts_xdigit,
}
use cross_platform_benchmark.Http.Chunks.{
  crlf, max_reply, complete_step, complete_loop, chunks_complete, dechunk_step, dechunk_loop,
  dechunk,
}

-- A chunk as an encoder writes it: the digits of its size, in any case and with leading zeros or
-- without, and its data.
pub record Chunk : Type 0 where
  pub size : Bytes
  pub payload : Bytes

abbrev pub IsXdigit : ℕ → Type 0
IsXdigit c = is_xdigit c ≡ true

pub record IsChunk (c : Chunk) : Type 0 where
  pub digits : All IsXdigit c.size
  pub sized : c.size ≢ []
  pub exact : hex_value 0 c.size ≡ length c.payload
  pub some_data : 0 < length c.payload
  pub kept : length c.payload ≤ max_reply

abbrev pub encode : List Chunk → Bytes → Bytes
encode [] last = last
encode (c ∷ cs) last = c.size ++ (crlf ++ (c.payload ++ (crlf ++ encode cs last)))

abbrev pub payloads : List Chunk → Bytes
payloads [] = []
payloads (c ∷ cs) = c.payload ++ payloads cs

-- The chunk of size zero and the empty line.
abbrev pub last_chunk : Bytes
last_chunk = codes "0\r\n\r\n"

hex_value-append :
    (ds rest : Bytes) (acc : ℕ)
    → All IsXdigit ds
    → hex_value acc (ds ++ (crlf ++ rest)) ≡ hex_value acc ds
hex_value-append [] rest acc h = refl
hex_value-append (d ∷ ds) rest acc (hd, h) =
    rw hd (hex_value-append ds rest (acc * 16 + xdigit_value d) h)

after_xdigits-append :
    (ds rest : Bytes) → All IsXdigit ds → after_xdigits (ds ++ (crlf ++ rest)) ≡ crlf ++ rest
after_xdigits-append [] rest h = refl
after_xdigits-append (d ∷ ds) rest (hd, h) = rw hd (after_xdigits-append ds rest h)

find_str-append :
    (ds rest : Bytes) → All IsXdigit ds → find_str crlf (ds ++ (crlf ++ rest)) ≡ some (length ds)
unfolding find_str
find_str-append [] rest h = refl
find_str-append (d ∷ ds) rest (hd, h) = ground (arith, find_str-append ds rest h)

sized :
    (ds rest : Bytes)
    → All IsXdigit ds
    → hex_value 0 ds < 2 ^ 64
    → ◌≡◌ {A = Parsed ℕ}
        (record {
          value = min (hex_value 0 (ds ++ (crlf ++ rest))) (2 ^ 64 - 1);
          rest = after_xdigits (ds ++ (crlf ++ rest));
          any = true;
        })
        (record { value = hex_value 0 ds; rest = crlf ++ rest; any = true })
sized ds rest h fits =
    rw (hex_value-append ds rest 0 h, after_xdigits-append ds rest h)
      (ap (λ (n : ℕ). record { value = n; rest = crlf ++ rest; any = true }) (omega arith))

strtoul16-size :
    (ds rest : Bytes)
    → All IsXdigit ds
    → ds ≢ []
    → hex_value 0 ds < 2 ^ 64
    → strtoul16 (ds ++ (crlf ++ rest))
      ≡ record { value = hex_value 0 ds; rest = crlf ++ rest; any = true }
strtoul16-size [] rest h ne fits = absurd (ne refl)
strtoul16-size (d ∷ []) rest (hd, h) ne fits =
    strtoul16_plain d 13 (10 ∷ rest) hd refl ∙ sized (d ∷ []) rest (hd, h) fits
strtoul16-size (d ∷ e ∷ ds) rest (hd, (he, h)) ne fits =
    strtoul16_plain d e (ds ++ (crlf ++ rest)) hd (ground arith)
    ∙ sized (d ∷ e ∷ ds) rest (hd, (he, h)) fits

-- The last chunk ends both walks.
complete_last : (fuel : ℕ) → complete_loop (suc fuel) last_chunk ≡ some true
unfolding complete_loop complete_step find_str strtoul16
complete_last fuel = refl

-- A size of which the line end is not there yet.
no_line : (ds : Bytes) → All IsXdigit ds → find_str crlf ds ≡ none
unfolding find_str
no_line [] h = refl
no_line (d ∷ ds) (hd, h) = ground (arith, no_line ds h)

no_line_feed : (ds : Bytes) → All IsXdigit ds → find_str crlf (ds ++ 13 ∷ []) ≡ none
unfolding find_str
no_line_feed [] h = refl
no_line_feed (d ∷ ds) (hd, h) = ground (arith, no_line_feed ds h)

complete_size :
    (fuel : ℕ) (ds : Bytes)
    → All IsXdigit ds
    → (complete_loop (suc fuel) ds ≡ some false)
      × (complete_loop (suc fuel) (ds ++ 13 ∷ []) ≡ some false)
unfolding complete_loop complete_step
complete_size fuel ds h = (rw (no_line ds h) refl, rw (no_line_feed ds h) refl)

dechunk_last : (fuel : ℕ) (out : Bytes) → dechunk_loop (suc fuel) last_chunk out ≡ some out
unfolding dechunk_loop dechunk_step find_str strtoul16
dechunk_last fuel out = refl

starts_xdigit-append :
    (ds rest : Bytes) → All IsXdigit ds → ds ≢ [] → starts_xdigit (ds ++ (crlf ++ rest)) ≡ true
starts_xdigit-append [] rest h ne = absurd (ne refl)
starts_xdigit-append (d ∷ ds) rest (hd, h) ne = hd

abbrev chunk_front : Chunk → Bytes
chunk_front c = c.size ++ (crlf ++ (c.payload ++ crlf))

length-chunk_front : (c : Chunk) → length (chunk_front c) ≡ length c.size + 2 + length c.payload + 2
length-chunk_front c =
    omega (arith, length-append c.size (crlf ++ (c.payload ++ crlf)), length-append c.payload crlf)

chunk_front-append :
    (c : Chunk) (rest : Bytes)
    → chunk_front c ++ rest ≡ c.size ++ (crlf ++ (c.payload ++ (crlf ++ rest)))
chunk_front-append c rest = simp append_assoc

drop_chunk :
    (c : Chunk) (rest : Bytes)
    → drop
        (length c.size + 2 + length c.payload + 2)
        (c.size ++ (crlf ++ (c.payload ++ (crlf ++ rest))))
      ≡ rest
drop_chunk c rest =
    ap₂ (λ (n : ℕ) (t : Bytes). drop n t) (sym (length-chunk_front c))
      (sym (chunk_front-append c rest))
    ∙ drop_append (chunk_front c) rest

length_chunk :
    (c : Chunk) (rest : Bytes)
    → length (c.size ++ (crlf ++ (c.payload ++ (crlf ++ rest))))
      ≡ length c.size + 2 + length c.payload + 2 + length rest
length_chunk c rest = omega (
  arith,
  length-append c.size (crlf ++ (c.payload ++ (crlf ++ rest))),
  length-append c.payload (crlf ++ rest),
)

-- A chunk in front is skipped, respectively copied.
complete_chunk :
    (fuel : ℕ) (c : Chunk) (rest : Bytes)
    → IsChunk c
    → complete_loop (suc fuel) (c.size ++ (crlf ++ (c.payload ++ (crlf ++ rest))))
      ≡ complete_loop fuel rest
unfolding complete_loop complete_step
complete_chunk fuel c rest v =
    let tail = c.payload ++ (crlf ++ rest) in
    let size = strtoul16-size c.size tail v.digits v.sized (omega (arith, v.exact, v.kept)) in
    let stop = find_str-append c.size tail v.digits in
    rw (stop, size, v.exact, starts_xdigit-append c.size tail v.digits v.sized, drop_chunk c rest)
      (ground (arith, v.some_data, v.kept, length_chunk c rest))

-- A chunk of which not all data, or not the line end behind it, is there.
complete_partial :
    (fuel : ℕ) (c : Chunk) (d : Bytes)
    → IsChunk c
    → length d < length c.payload + 2
    → complete_loop (suc fuel) (c.size ++ (crlf ++ d)) ≡ some false
unfolding complete_loop complete_step
complete_partial fuel c d v short =
    let size = strtoul16-size c.size d v.digits v.sized (omega (arith, v.exact, v.kept)) in
    let stop = find_str-append c.size d v.digits in
    rw (stop, size, v.exact, starts_xdigit-append c.size d v.digits v.sized)
      (ground (arith, v.some_data, v.kept, short, length-append c.size (crlf ++ d)))

dechunk_chunk :
    (fuel : ℕ) (c : Chunk) (rest out : Bytes)
    → IsChunk c
    → dechunk_loop (suc fuel) (c.size ++ (crlf ++ (c.payload ++ (crlf ++ rest)))) out
      ≡ dechunk_loop fuel rest (out ++ c.payload)
unfolding dechunk_loop dechunk_step
dechunk_chunk fuel c rest out v =
    let tail = c.payload ++ (crlf ++ rest) in
    let size = strtoul16-size c.size tail v.digits v.sized (omega (arith, v.exact, v.kept)) in
    let stop = find_str-append [] tail tt in
    rw
      (
        size,
        stop,
        v.exact,
        drop_append c.payload (crlf ++ rest),
        take_append c.payload (crlf ++ rest),
      )
      (ground (arith, length-append c.payload (crlf ++ rest)))

length-le-encode : (cs : List Chunk) (last : Bytes) → length cs ≤ length (encode cs last)
length-le-encode [] last = omega arith
length-le-encode (c ∷ cs) last =
    omega (arith, length_chunk c (encode cs last), length-le-encode cs last)

complete_encode :
    (fuel : ℕ) (cs : List Chunk) (last : Bytes)
    → All IsChunk cs
    → complete_loop (length cs + fuel) (encode cs last) ≡ complete_loop fuel last
complete_encode fuel [] last h = ap (λ (n : ℕ). complete_loop n last) (omega arith)
complete_encode fuel (c ∷ cs) last (hc, h) =
    ap (λ (n : ℕ). complete_loop n (encode (c ∷ cs) last)) (omega arith)
    ∙ complete_chunk (length cs + fuel) c (encode cs last) hc
    ∙ complete_encode fuel cs last h

dechunk_encode :
    (fuel : ℕ) (cs : List Chunk) (last out : Bytes)
    → All IsChunk cs
    → dechunk_loop (length cs + fuel) (encode cs last) out
      ≡ dechunk_loop fuel last (out ++ payloads cs)
dechunk_encode fuel [] last out h =
    ap₂ (λ (n : ℕ) (t : Bytes). dechunk_loop n last t) (omega arith) (sym (append-nil out))
dechunk_encode fuel (c ∷ cs) last out (hc, h) =
    ap (λ (n : ℕ). dechunk_loop n (encode (c ∷ cs) last) out) (omega arith)
    ∙ dechunk_chunk (length cs + fuel) c (encode cs last) out hc
    ∙ dechunk_encode fuel cs last (out ++ c.payload) h
    ∙ ap (dechunk_loop fuel last) (append_assoc out c.payload (payloads cs))

-- How much fuel is left for the last bytes.
spare : List Chunk → Bytes → ℕ
spare cs last = length (encode cs last) - length cs

spare_lem :
    (cs : List Chunk) (last : Bytes)
    → suc (length (encode cs last)) ≡ length cs + suc (spare cs last)
unfolding spare
spare_lem cs last = omega (arith, length-le-encode cs last)

complete_after :
    (cs : List Chunk) (last : Bytes) (answer : Bool)
    → All IsChunk cs
    → ((fuel : ℕ) → complete_loop (suc fuel) last ≡ some answer)
    → chunks_complete (encode cs last) ≡ some answer
unfolding chunks_complete
complete_after cs last answer h at_last =
    ap (λ (n : ℕ). complete_loop n (encode cs last)) (spare_lem cs last)
    ∙ complete_encode _ cs last h
    ∙ at_last _

-- A chunked body, of chunks no longer than the client keeps, is taken for whole when its last chunk is
-- there, and then decoding gives the data of the chunks. It is not taken for whole while behind some
-- chunks only the digits of a size stand, or these and a carriage return, or, behind the size and its
-- line end, fewer bytes than the chunk's data and the line end behind it.
pub dechunk-encode :
    (cs : List Chunk)
    → All IsChunk cs
    → (chunks_complete (encode cs last_chunk) ≡ some true)
      × (dechunk (encode cs last_chunk) ≡ some (payloads cs))
      × ((ds : Bytes)
          → All IsXdigit ds
          → (chunks_complete (encode cs ds) ≡ some false)
            × (chunks_complete (encode cs (ds ++ 13 ∷ [])) ≡ some false))
      × ((c : Chunk) (d : Bytes)
          → IsChunk c
          → length d < length c.payload + 2
          → chunks_complete (encode cs (c.size ++ (crlf ++ d))) ≡ some false)
unfolding dechunk
dechunk-encode cs h = (
  complete_after cs last_chunk true h complete_last,
  ap (λ (n : ℕ). dechunk_loop n (encode cs last_chunk) []) (spare_lem cs last_chunk)
      ∙ dechunk_encode _ cs last_chunk [] h
      ∙ dechunk_last _ (payloads cs),
  λ ds digits. (
    complete_after cs ds false h (λ fuel. (complete_size fuel ds digits).0),
    complete_after cs (ds ++ 13 ∷ []) false h (λ fuel. (complete_size fuel ds digits).1),
  ),
  λ c d v short.
      complete_after cs (c.size ++ (crlf ++ d)) false h (λ fuel. complete_partial fuel c d v short),
)

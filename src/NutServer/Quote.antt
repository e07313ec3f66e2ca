-- ===== src/NutServer/Quote.antt =====
-- `append_quoted` of components/nut_server/nut_server.c, against the reader of a quoted NUT string.
use esp32_nut_bluetti.Prelude.{
  ℕ, ◌+◌, ◌<◌, ◌≤◌, ◌≡◌, refl, ◌∙◌, sym, Bool, true, false, ◌||◌, Option, none, some, [], ◌∷◌, ◌++◌,
  if◌then◌else◌, arith, length, length-append, ltb, lt→ltb, ◌==◌,
}
use mathlib.Core.List.{append-nil, append_assoc}
use mathlib.Core.Option
use esp32_nut_bluetti.Prelude.Text.{Bytes}

abbrev quote : ℕ
quote = b'"'

abbrev backslash : ℕ
backslash = b'\\'

-- What the loop body appends for one byte.
unfoldable pub escape_byte : ℕ → Bytes
escape_byte c = if c == quote || c == backslash then backslash ∷ c ∷ [] else c ∷ []

-- The loop of `append_quoted`: it stops where fewer than two bytes and the NUL are left.
unfoldable pub quote_body : ℕ → Bytes → Bytes → Bytes
unfolding escape_byte
quote_body dstsz dst [] = dst
quote_body dstsz dst (c ∷ src) =
    if ltb (length dst + 2) dstsz then quote_body dstsz (dst ++ escape_byte c) src else dst

-- One byte where it and the NUL fit.
abbrev push_quote : ℕ → Bytes → Bytes
push_quote dstsz dst = if ltb (length dst + 1) dstsz then dst ++ quote ∷ [] else dst

-- `append_quoted`, on the text in `dst` before its NUL.
unfoldable pub append_quoted : ℕ → Bytes → Bytes → Bytes
unfolding quote_body
append_quoted dstsz dst src = push_quote dstsz (quote_body dstsz (push_quote dstsz dst) src)

-- The reader of a NUT client: up to the first quote that no backslash precedes, backslashes dropped.
unquote_from : Bool → Bytes → Option (Bytes × Bytes)
unquote_from escaped [] = none
unquote_from true (c ∷ text) =
    Option.map (λ (r : Bytes × Bytes). (c ∷ r.0, r.1)) (unquote_from false text)
unquote_from false (c ∷ text) =
    if c == quote
    then some ([], text)
    else if c == backslash
    then unquote_from true text
    else Option.map (λ (r : Bytes × Bytes). (c ∷ r.0, r.1)) (unquote_from false text)

pub unquote : Bytes → Option (Bytes × Bytes)
unquote [] = none
unquote (c ∷ text) = if c == quote then unquote_from false text else none

unfoldable pub escape : Bytes → Bytes
escape [] = []
escape (c ∷ src) = escape_byte c ++ escape src

-- The quoted form, with nothing cut.
unfoldable pub quoted : Bytes → Bytes
unfolding escape
quoted src = quote ∷ (escape src ++ quote ∷ [])

length-quote_body :
    (dstsz : ℕ) (dst src : Bytes) → length dst < dstsz → length (quote_body dstsz dst src) < dstsz
unfolding quote_body escape_byte
length-quote_body dstsz dst [] h = h
length-quote_body dstsz dst (c ∷ src) h =
    ground
      (arith, length-append dst (escape_byte c), length-quote_body dstsz (dst ++ escape_byte c) src)

length-push_quote :
    (dstsz : ℕ) (dst : Bytes) → length dst < dstsz → length (push_quote dstsz dst) < dstsz
length-push_quote dstsz dst h = ground (arith, length-append dst (quote ∷ []))

-- Whatever is appended, the text and its NUL stay within the buffer.
pub length-append_quoted :
    (dstsz : ℕ) (dst src : Bytes)
    → length dst < dstsz
    → length (append_quoted dstsz dst src) < dstsz
unfolding append_quoted
length-append_quoted dstsz dst src h =
    length-push_quote dstsz _
      (length-quote_body dstsz (push_quote dstsz dst) src (length-push_quote dstsz dst h))

length-escape_byte : (c : ℕ) → 1 ≤ length (escape_byte c)
unfolding escape_byte
length-escape_byte c = ground arith

quote_body_fits :
    (dstsz : ℕ) (dst src : Bytes)
    → length dst + length (escape src) + 1 < dstsz
    → quote_body dstsz dst src ≡ dst ++ escape src
unfolding quote_body escape
quote_body_fits dstsz dst [] h = sym (append-nil dst)
quote_body_fits dstsz dst (c ∷ src) h =
    let both = length-append (escape_byte c) (escape src) in
    let room = length-escape_byte c in
    rw (lt→ltb (length dst + 2) dstsz (omega (arith, both, room))) (
      quote_body_fits dstsz (dst ++ escape_byte c) src
        (omega (arith, both, length-append dst (escape_byte c)))
      ∙ append_assoc dst (escape_byte c) (escape src))

-- Where the buffer has room for all of it, the quoted form is appended whole.
pub append_quoted_fits :
    (dstsz : ℕ) (dst src : Bytes)
    → length dst + length (quoted src) < dstsz
    → append_quoted dstsz dst src ≡ dst ++ quoted src
unfolding append_quoted quoted
append_quoted_fits dstsz dst src h =
    let opened = dst ++ quote ∷ [] in
    let size = length-append dst (quote ∷ []) in
    let tail = length-append (escape src) (quote ∷ []) in
    let body = quote_body_fits dstsz opened src (omega (arith, size, tail)) in
    let whole = length-append opened (escape src) in
    rw
      (
        lt→ltb (length dst + 1) dstsz (omega (arith, tail)),
        body,
        lt→ltb (length (opened ++ escape src) + 1) dstsz (omega (arith, size, tail, whole)),
      )
      (append_assoc opened (escape src) (quote ∷ []) ∙ append_assoc dst (quote ∷ []) _)

unquote-escape :
    (src rest : Bytes) → unquote_from false (escape src ++ (quote ∷ rest)) ≡ some (src, rest)
unfolding unquote_from escape escape_byte
unquote-escape [] rest = refl
unquote-escape (c ∷ src) rest = ground (arith, unquote-escape src rest)

-- A client reads the quoted form back as the value, and goes on right behind it: no byte of a value
-- ends the string early.
unquote-quoted : (src rest : Bytes) → unquote (quoted src ++ rest) ≡ some (src, rest)
unfolding unquote quoted
unquote-quoted src rest = rw append_assoc (unquote-escape src rest)

quote_body_full :
    (dstsz : ℕ) (dst src : Bytes)
    → dstsz ≤ length dst + length (escape src) + 2
    → dstsz ≤ length (quote_body dstsz dst src) + 2
unfolding quote_body escape
quote_body_full dstsz dst [] h = omega arith
quote_body_full dstsz dst (c ∷ src) h = ground (
  arith,
  length-append dst (escape_byte c),
  length-append (escape_byte c) (escape src),
  quote_body_full dstsz (dst ++ escape_byte c) src,
)

push_quote_full :
    (dstsz : ℕ) (dst : Bytes)
    → length dst < dstsz
    → dstsz ≤ length dst + 2
    → length (push_quote dstsz dst) + 1 ≡ dstsz
push_quote_full dstsz dst h k = ground (arith, length-append dst (quote ∷ []))

-- Where the quoted form does not fit with a byte to spare, the buffer is full afterwards.
pub append_quoted_full :
    (dstsz : ℕ) (dst src : Bytes)
    → length dst + 2 < dstsz
    → dstsz ≤ length dst + length (quoted src) + 1
    → length (append_quoted dstsz dst src) + 1 ≡ dstsz
unfolding append_quoted quoted
append_quoted_full dstsz dst src room long =
    let opened = dst ++ quote ∷ [] in
    let size = length-append dst (quote ∷ []) in
    let tail = length-append (escape src) (quote ∷ []) in
    rw (lt→ltb (length dst + 1) dstsz (omega arith)) (
      push_quote_full dstsz (quote_body dstsz opened src)
        (length-quote_body dstsz opened src (omega (arith, size)))
        (quote_body_full dstsz opened src (omega (arith, size, tail))))

-- Where the quoted form fits an empty buffer, a client reads the value back from it, and goes on
-- right behind it.
pub unquote-append_quoted :
    (dstsz : ℕ) (src rest : Bytes)
    → length (quoted src) < dstsz
    → unquote (append_quoted dstsz [] src ++ rest) ≡ some (src, rest)
unquote-append_quoted dstsz src rest room =
    rw (append_quoted_fits dstsz [] src (omega arith)) (unquote-quoted src rest)

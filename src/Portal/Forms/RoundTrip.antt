-- ===== src/Portal/Forms/RoundTrip.antt =====
-- What a page encodes, the forms of provisioning.c decode.
pub mod Fields
use esp32_nut_bluetti.Prelude.{
  ℕ, zero, suc, ◌+◌, ◌-◌, ◌*◌, ◌/◌, ◌%◌, ◌≤◌, ◌<◌, ◌≡◌, refl, ◌∙◌, ap, sym, Bool, true, false, not,
  ◌&&◌, ◌||◌, Option, none, some, List, [], ◌∷◌, ◌++◌, if◌then◌else◌, ◌==◌, ltb, leb, arith, length,
  take, if_ind, Bool-cases, inl, inr, length-append,
}
use mathlib.Core.Path.{subst}
use esp32_nut_bluetti.Prelude.Text.{Bytes, fit, bytes_eq, fit_short}
use esp32_nut_bluetti.Portal.Forms.{
  hexval, decode, url_decode, c_string, cut, field_value, first_of, filled, find_field, form_get,
}

abbrev pub hex_digit : ℕ → ℕ
hex_digit d = if ltb d 10 then b'0' + d else b'A' + (d - 10)

-- The bytes that a form leaves as they are: letters, digits and -._*
abbrev pub is_plain : ℕ → Bool
is_plain c =
    (leb b'a' c && leb c b'z')
    || (leb b'A' c && leb c b'Z')
    || (leb b'0' c && leb c b'9')
    || c == b'-'
    || c == b'.'
    || c == b'_'
    || c == b'*'

-- What a page makes of a text: a plus sign for a blank, and two hexadecimal digits for the other bytes.
unfoldable pub encode : Bytes → Bytes
encode [] = []
encode (c ∷ text) =
    let rest = encode text in
    if is_plain c
    then c ∷ rest
    else if c == b' '
    then b'+' ∷ rest
    else b'%' ∷ hex_digit (c / 16) ∷ hex_digit (c % 16) ∷ rest

-- Bytes other than the NUL.
abbrev pub AreText : Bytes → Type 0
AreText [] = Unit
AreText (c ∷ text) = (0 < c) × (c < 256) × AreText text

hexval-hex_digit : (d : ℕ) → d < 16 → hexval (hex_digit d) ≡ some d
unfolding hexval
hexval-hex_digit d h = ground arith

decode_plain :
    (room c : ℕ) (text : Bytes)
    → (c == b'%') ≡ false
    → decode (suc room) (c ∷ text) ≡ (if c == b'+' then b' ' else c) ∷ decode room text
unfolding decode
decode_plain zero c [] h = refl
decode_plain (suc room) c [] h = refl
decode_plain room c (d ∷ []) h = refl
decode_plain room c (d ∷ e ∷ text) h =
    rw h (elim (Bool-cases (c == b'+')) [ inl plus ↦ rw plus refl | inr other ↦ rw other refl ])

decode_escape :
    (room h l : ℕ) (text : Bytes)
    → h < 16
    → l < 16
    → decode (suc room) (b'%' ∷ hex_digit h ∷ hex_digit l ∷ text) ≡ (h * 16 + l) ∷ decode room text
unfolding decode
decode_escape room h l text p q = rw (hexval-hex_digit h p, hexval-hex_digit l q) refl

decode_none : (text : Bytes) → decode zero text ≡ []
unfolding decode
decode_none text = refl

decode_end : (room : ℕ) → decode (suc room) [] ≡ []
unfolding decode
decode_end room = refl

pub decode-encode :
    (room : ℕ) (text : Bytes) → AreText text → decode room (encode text) ≡ take room text
unfolding encode
decode-encode zero text t = decode_none (encode text)
decode-encode (suc room) [] t = decode_end room
decode-encode (suc room) (c ∷ text) (pos_c, small, t) =
    let ih = decode-encode room text t in
    let rest = encode text in
    let Good : Bytes → Type 0 = λ l. decode (suc room) l ≡ c ∷ take room text in
    if_ind Good (is_plain c) _ _
      (λ plain.
        let same : (if c == b'+' then b' ' else c) ≡ c = ground (arith, plain) in
        decode_plain room c rest (ground (arith, plain))
        ∙ (ap (λ b. b ∷ decode room rest) same ∙ ap (λ l. c ∷ l) ih))
      (λ other.
        if_ind Good (c == b' ') _ _
          (λ blank.
            let same : b' ' ≡ c = ground (arith, blank) in
            decode_plain room b'+' rest refl
            ∙ (ap (λ b. b ∷ decode room rest) same ∙ ap (λ l. c ∷ l) ih))
          (λ escape.
            let same : (c / 16) * 16 + c % 16 ≡ c = omega arith in
            decode_escape room (c / 16) (c % 16) rest (omega arith) (omega arith)
            ∙ (ap (λ b. b ∷ decode room rest) same ∙ ap (λ l. c ∷ l) ih)))

pub c_string-take : (n : ℕ) (text : Bytes) → AreText text → c_string (take n text) ≡ take n text
c_string-take zero text t = refl
c_string-take (suc n) [] t = refl
c_string-take (suc n) (c ∷ text) (pos_c, small, t) =
    let not_nul : (c == 0) ≡ false = ground (arith, pos_c) in
    rw not_nul (ap (λ l. c ∷ l) (c_string-take n text t))

-- No byte of a text is `stop`.
abbrev pub Lacks : ℕ → Bytes → Type 0
Lacks stop [] = Unit
Lacks stop (c ∷ text) = ((c == stop) ≡ false) × Lacks stop text

pub Lacks-append :
    (stop : ℕ) (xs ys : Bytes) → Lacks stop xs → Lacks stop ys → Lacks stop (xs ++ ys)
Lacks-append stop [] ys a b = b
Lacks-append stop (x ∷ xs) ys (h, a) b = (h, Lacks-append stop xs ys a b)

pub cut_here :
    (stop : ℕ) (xs ys : Bytes) → Lacks stop xs → cut stop (xs ++ stop ∷ ys) ≡ (xs, some ys)
cut_here stop [] ys l = let same : (stop == stop) ≡ true = ground arith in rw same refl
cut_here stop (x ∷ xs) ys (h, l) =
    rw h (ap (λ (r : Bytes × Option Bytes). (x ∷ r.0, r.1)) (cut_here stop xs ys l))

pub cut_end : (stop : ℕ) (xs : Bytes) → Lacks stop xs → cut stop xs ≡ (xs, none)
cut_end stop [] l = refl
cut_end stop (x ∷ xs) (h, l) =
    rw h (ap (λ (r : Bytes × Option Bytes). (x ∷ r.0, r.1)) (cut_end stop xs l))

-- An encoded text has no ampersand.
pub encode-Lacks : (text : Bytes) → AreText text → Lacks b'&' (encode text)
unfolding encode
encode-Lacks [] t = tt
encode-Lacks (c ∷ text) (pos_c, small, t) =
    let ih = encode-Lacks text t in
    let Good : Bytes → Type 0 = Lacks b'&' in
    if_ind Good (is_plain c) _ _ (λ plain. (ground (arith, plain), ih))
      (λ other.
        if_ind Good (c == b' ') _ _ (λ blank. (refl, ih))
          (λ escape. (
            refl,
            (hex_digit-other (c / 16) (omega arith), (hex_digit-other (c % 16) (omega arith), ih)),
          )))
  where
    hex_digit-other : (d : ℕ) → d < 16 → (hex_digit d == b'&') ≡ false
    hex_digit-other d h = ground arith

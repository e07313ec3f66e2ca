-- ===== src/Portal/Forms.antt =====
-- The form decoding of provisioning.c, and its check of an IPv4 address. A C string is the list of its
-- bytes before the NUL.
pub mod RoundTrip
use esp32_nut_bluetti.Prelude.{
  ℕ, zero, suc, ◌+◌, ◌-◌, ◌*◌, Bool, true, false, not, ◌&&◌, ◌||◌, Option, none, some, [], ◌∷◌,
  if◌then◌else◌, ◌==◌, ltb, leb, length,
}
use esp32_nut_bluetti.Prelude.Text.{Bytes, fit, bytes_eq}

-- `hexval`; `none` stands for -1. `tolower` maps the capital letters.
unfoldable pub hexval : ℕ → Option ℕ
hexval c =
    let low = if leb b'A' c && leb c b'Z' then c + 32 else c in
    if leb b'0' c && leb c b'9'
    then some (c - b'0')
    else if leb b'a' low && leb low b'f'
    then some (low - b'a' + 10)
    else none

-- The byte that two hexadecimal digits stand for.
abbrev hex_byte : ℕ → ℕ → Option ℕ
hex_byte a b = elim (hexval a) [
  | none ↦ none
  | some h ↦ elim (hexval b) [ none ↦ none | some l ↦ some (h * 16 + l) ]
]

-- `url_decode` with room for `room` bytes before the NUL.
unfoldable pub decode : ℕ → Bytes → Bytes
unfolding hexval
decode zero text = []
decode (suc room) [] = []
decode (suc room) (c ∷ []) = (if c == b'+' then b' ' else c) ∷ []
decode (suc room) (c ∷ d ∷ []) =
    let rest = decode room (d ∷ []) in (if c == b'+' then b' ' else c) ∷ rest
decode (suc room) (c ∷ d ∷ e ∷ text) =
    let rest = decode room (d ∷ e ∷ text) in
    let behind = decode room text in
    if c == b'+'
    then b' ' ∷ rest
    else if c == b'%'
    then elim (hex_byte d e) [ none ↦ c ∷ rest | some b ↦ b ∷ behind ]
    else c ∷ rest

-- `url_decode` into a buffer of `size` bytes, which no caller makes empty.
unfoldable pub url_decode : ℕ → Bytes → Bytes
unfolding decode
url_decode size text = decode (size - 1) text

-- What a buffer holds as a C string.
abbrev pub c_string : Bytes → Bytes
c_string [] = []
c_string (c ∷ text) = if c == 0 then [] else c ∷ c_string text

-- A text up to the first `stop`, and what stands behind it, where there is one.
abbrev pub cut : ℕ → Bytes → Bytes × Option Bytes
cut stop [] = ([], none)
cut stop (c ∷ text) =
    let (head, rest) = cut stop text in if c == stop then ([], some text) else (c ∷ head, rest)

-- The value of a field of the form `key=value`, where it has the key.
abbrev pub field_value : Bytes → Bytes → Option Bytes
field_value key field =
    let (name, value) = cut b'=' field in if bytes_eq name key then value else none

abbrev pub first_of : Option Bytes → Option Bytes → Option Bytes
first_of (some value) later = some value
first_of none later = later

-- The loop of `form_get` over the fields, one round a field; `none` where no field has the key.
unfoldable pub find_field : ℕ → Bytes → Bytes → Option Bytes
unfolding bytes_eq
find_field zero key body = none
find_field (suc fuel) key [] = none
find_field (suc fuel) key (c ∷ body) =
    let (field, more) = cut b'&' (c ∷ body) in
    first_of (field_value key field)
      (elim more [ none ↦ none | some rest ↦ find_field fuel key rest ])

-- What the buffer is given: the value is cut at the 255 bytes of `tmp` before it is decoded.
abbrev pub filled : ℕ → Option Bytes → Bytes × Bool
filled size none = ([], false)
filled size (some value) = (c_string (url_decode size (fit 256 value)), true)

-- `form_get` into a buffer of `size` bytes, and whether it has found the field.
unfoldable pub form_get : Bytes → Bytes → ℕ → Bytes × Bool
unfolding find_field
form_get body key size = filled size (find_field (length body + 1) key body)

abbrev is_decimal : ℕ → Bool
is_decimal c = leb b'0' c && leb c b'9'

-- The digits of one part of an address: what stands behind them, or a part that is no number up to 255 of
-- three digits at most.
unfoldable pub octet : ℕ → ℕ → Bytes → Option Bytes
octet val digits [] = some []
octet val digits (c ∷ text) =
    let rest = octet (val * 10 + (c - b'0')) (digits + 1) text in
    if not (is_decimal c)
    then some (c ∷ text)
    else if ltb 3 (digits + 1) || ltb 255 (val * 10 + (c - b'0'))
    then none
    else rest

-- A part, which needs a digit.
unfoldable pub part : Bytes → Option Bytes
unfolding octet
part [] = none
part (c ∷ text) = if is_decimal c then octet 0 0 (c ∷ text) else none

-- `valid_ipv4` from a part on, with `left` parts to come behind it.
unfoldable pub octets : ℕ → Bytes → Bool
unfolding part
octets zero text = elim (part text) [
  | none ↦ false
  | some rest ↦ elim rest [ [] ↦ true | d ∷ more ↦ false ]
]
octets (suc left) text = elim (part text) [
  | none ↦ false
  | some rest ↦ elim rest [ [] ↦ false | d ∷ more ↦ d == b'.' && octets left more ]
]

-- `valid_ipv4`
unfoldable pub valid_ipv4 : Bytes → Bool
unfolding octets
valid_ipv4 text = octets 3 text

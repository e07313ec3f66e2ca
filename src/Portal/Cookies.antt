-- ===== src/Portal/Cookies.antt =====
-- The cookie of a request: `cookie_token` and `tok_eq` of provisioning.c.
use esp32_nut_bluetti.Prelude.{
  ℕ, zero, suc, Bool, true, false, ◌&&◌, ◌||◌, Option, none, some, [], ◌∷◌, if◌then◌else◌, ◌==◌,
  leb, length, take,
}
use esp32_nut_bluetti.Prelude.Text.{Bytes, codes}

-- `SESSION_TOKLEN`
abbrev pub token_length : ℕ
token_length = 32

abbrev is_prefix : Bytes → Bytes → Bool
is_prefix [] text = true
is_prefix (a ∷ part) [] = false
is_prefix (a ∷ part) (b ∷ text) = a == b && is_prefix part text

abbrev behind_sid : Bytes → Bytes
behind_sid (s ∷ i ∷ d ∷ e ∷ text) = text
behind_sid text = []

-- What stands behind the first "sid=" that is at the start, or behind a blank or a semicolon; `before` is
-- the byte before the text, a blank at the start.
unfoldable pub find_sid : ℕ → Bytes → Option Bytes
find_sid before [] = none
find_sid before (c ∷ text) =
    let later = find_sid c text in
    if is_prefix (codes "sid=") (c ∷ text) && (before == b' ' || before == b';')
    then some (behind_sid (c ∷ text))
    else later

abbrev pub is_hex : ℕ → Bool
is_hex c = (leb b'0' c && leb c b'9') || (leb b'a' c && leb c b'f')

-- `strspn(p, "0123456789abcdef")`
abbrev pub hex_span : Bytes → ℕ
hex_span [] = 0
hex_span (c ∷ text) = let more = hex_span text in if is_hex c then suc more else 0

-- `cookie_token` of the Cookie header, where there is one that fits its buffer of 256 bytes.
unfoldable pub cookie_token : Option Bytes → Option Bytes
unfolding find_sid
cookie_token none = none
cookie_token (some hdr) = if leb 256 (length hdr) then none else elim (find_sid b' ' hdr) [
  | none ↦ none
  | some p ↦ if hex_span p == token_length then some (take token_length p) else none
]

-- The loop of `tok_eq` over the next `n` bytes, with the difference so far; C strings end in a NUL.
unfoldable pub tok_eq_from : ℕ → Bool → Bytes → Bytes → Bool
tok_eq_from zero same as' bs = same
tok_eq_from (suc n) same [] bs = false
tok_eq_from (suc n) same (a ∷ as') [] = false
tok_eq_from (suc n) same (a ∷ as') (b ∷ bs) = tok_eq_from n (same && a == b) as' bs

-- `tok_eq`
unfoldable pub tok_eq : Bytes → Bytes → Bool
unfolding tok_eq_from
tok_eq a b = tok_eq_from token_length true a b

-- ===== src/NutServer/Tokens.antt =====
-- `tokenize` of components/nut_server/nut_server.c.
pub mod RoundTrip
use esp32_nut_bluetti.Prelude.{
  ℕ, zero, suc, Bool, true, false, ◌&&◌, ◌||◌, List, [], ◌∷◌, if◌then◌else◌, ◌==◌, drop,
}
use esp32_nut_bluetti.Prelude.Text.{Bytes}

abbrev pub max_tokens : ℕ
max_tokens = 8

abbrev pub is_blank : ℕ → Bool
is_blank c = c == b' ' || c == b'\t'

abbrev pub is_quote : ℕ → Bool
is_quote c = c == b'"'

unfoldable pub skip_blanks : Bytes → Bytes
skip_blanks [] = []
skip_blanks (c ∷ p) = if is_blank c then skip_blanks p else c ∷ p

-- `while (*p && !stop(*p)) p++;`: what is passed over, and where `p` stands then.
unfoldable pub scan_to : (ℕ → Bool) → Bytes → Bytes × Bytes
scan_to stop [] = ([], [])
scan_to stop (c ∷ p) =
    let (token, rest) = scan_to stop p in if stop c then ([], c ∷ p) else (c ∷ token, rest)

-- One token from a text that starts with no blank: the token, and the text behind the byte that
-- `*p++ = '\0'` overwrites.
unfoldable pub next_token : ℕ → Bytes → Bytes × Bytes
unfolding scan_to
next_token c p =
    let (token, rest) = if is_quote c then scan_to is_quote p else scan_to is_blank (c ∷ p) in
    (token, drop 1 rest)

-- A round of the loop behind the blanks; `more` goes on with the text behind the token.
unfoldable pub first_token : (Bytes → List Bytes) → Bytes → List Bytes
unfolding next_token
first_token more [] = []
first_token more (c ∷ p) = let (token, rest) = next_token c p in token ∷ more rest

-- The loop, with the number of slots of `tok` that are left.
unfoldable pub tokenize_from : ℕ → Bytes → List Bytes
unfolding skip_blanks first_token
tokenize_from zero p = []
tokenize_from (suc slots) p = first_token (tokenize_from slots) (skip_blanks p)

unfoldable pub tokenize : Bytes → List Bytes
unfolding tokenize_from
tokenize line = tokenize_from max_tokens line

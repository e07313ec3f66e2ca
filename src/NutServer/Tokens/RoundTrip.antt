-- ===== src/NutServer/Tokens/RoundTrip.antt =====
-- `tokenize` (nut_server.c) reads back a line of plain words and quoted texts.
use mathlib.Core.List.{append_assoc}
use esp32_nut_bluetti.Prelude.{
  ℕ, zero, suc, ◌≤◌, ◌≡◌, refl, ◌∙◌, ap, Bool, true, false, List, [], ◌∷◌, ◌++◌, take, arith,
  length,
}
use esp32_nut_bluetti.Prelude.Text.{Bytes}
use esp32_nut_bluetti.NutServer.Tokens.{
  max_tokens, is_blank, is_quote, skip_blanks, scan_to, next_token, first_token, tokenize_from,
  tokenize,
}

-- A line's item: a word, by its first byte and the others, or a text between quotes.
pub data Item : Type 0 where
  word : ℕ → Bytes → Item
  text : Bytes → Item

abbrev pub value : Item → Bytes
value (word c cs) = c ∷ cs
value (text cs) = cs

abbrev pub FreeOf : (ℕ → Bool) → Bytes → Type 0
FreeOf stop [] = Unit
FreeOf stop (c ∷ cs) = (stop c ≡ false) × FreeOf stop cs

-- A word has no blank and does not start with a quote; a quoted text has no quote.
abbrev pub IsItem : Item → Type 0
IsItem (word c cs) = (is_quote c ≡ false) × FreeOf is_blank (c ∷ cs)
IsItem (text cs) = FreeOf is_quote cs

abbrev pub AreItems : List Item → Type 0
AreItems [] = Unit
AreItems (i ∷ items) = IsItem i × AreItems items

abbrev pub print_item : Item → Bytes
print_item (word c cs) = c ∷ cs
print_item (text cs) = b'"' ∷ (cs ++ b'"' ∷ [])

-- The items with a space behind each.
abbrev pub print_items : List Item → Bytes
print_items [] = []
print_items (i ∷ items) = print_item i ++ (b' ' ∷ print_items items)

abbrev pub values : List Item → List Bytes
values [] = []
values (i ∷ items) = value i ∷ values items

scan_to_end :
    (stop : ℕ → Bool) (cs : Bytes) (d : ℕ) (rest : Bytes)
    → FreeOf stop cs
    → stop d ≡ true
    → scan_to stop (cs ++ (d ∷ rest)) ≡ (cs, d ∷ rest)
unfolding scan_to
scan_to_end stop [] d rest free at_end = rw at_end
scan_to_end stop (c ∷ cs) d rest free at_end =
    let more = scan_to_end stop cs d rest free.1 at_end in rw (free.0, more)

-- One printed item is read back, and the rest starts behind it.
next_token-word :
    (c : ℕ) (cs rest : Bytes)
    → IsItem (word c cs)
    → next_token c (cs ++ (b' ' ∷ rest)) ≡ (c ∷ cs, rest)
unfolding next_token
next_token-word c cs rest ok =
    let scanned = scan_to_end is_blank (c ∷ cs) b' ' rest ok.1 refl in rw (ok.0, scanned)

next_token-text :
    (cs rest : Bytes) → IsItem (text cs) → next_token b'"' (cs ++ (b'"' ∷ rest)) ≡ (cs, rest)
unfolding next_token
next_token-text cs rest ok = rw (scan_to_end is_quote cs b'"' rest ok refl)

-- The blank that a quoted text leaves in front of the next item changes nothing.
tokenize_from-blank :
    (slots : ℕ) (p : Bytes) → tokenize_from slots (b' ' ∷ p) ≡ tokenize_from slots p
unfolding tokenize_from skip_blanks
tokenize_from-blank zero p = refl
tokenize_from-blank (suc slots) p = refl

tokenize_from-first :
    (slots c : ℕ) (p : Bytes) (token rest : Bytes)
    → is_blank c ≡ false
    → next_token c p ≡ (token, rest)
    → tokenize_from (suc slots) (c ∷ p) ≡ token ∷ tokenize_from slots rest
unfolding tokenize_from
tokenize_from-first slots c p token rest solid e =
    rw solid (ap (λ r. r.0 ∷ tokenize_from slots r.1) e)

tokenize_from-print :
    (slots : ℕ) (items : List Item)
    → AreItems items
    → tokenize_from slots (print_items items) ≡ take slots (values items)
tokenize_from-print zero items ok = unfold tokenize_from in refl
tokenize_from-print (suc slots) [] ok = unfold tokenize_from in refl
tokenize_from-print (suc slots) (word c cs ∷ items) ok =
    tokenize_from-first slots c _ _ _ ok.0.1.0 (next_token-word c cs (print_items items) ok.0)
    ∙ ap (λ l. (c ∷ cs) ∷ l) (tokenize_from-print slots items ok.1)
tokenize_from-print (suc slots) (text cs ∷ items) ok =
    let read = next_token-text cs (b' ' ∷ print_items items) ok.0 in
    rw append_assoc (tokenize_from-first slots b'"' _ _ _ refl read)
    ∙ ap (λ l. cs ∷ l)
        (tokenize_from-blank slots (print_items items) ∙ tokenize_from-print slots items ok.1)

-- A line of words and quoted texts is read back as their values, the first eight of them.
pub tokenize-print :
    (items : List Item)
    → AreItems items
    → tokenize (print_items items) ≡ take max_tokens (values items)
unfolding tokenize
tokenize-print items ok = tokenize_from-print max_tokens items ok

length-first_token :
    (slots : ℕ) (more : Bytes → List Bytes) (p : Bytes)
    → ((rest : Bytes) → length (more rest) ≤ slots)
    → length (first_token more p) ≤ suc slots
unfolding first_token
length-first_token slots more [] short = omega arith
length-first_token slots more (c ∷ p) short = omega (arith, short (next_token c p).1)

length-tokenize_from : (slots : ℕ) (p : Bytes) → length (tokenize_from slots p) ≤ slots
unfolding tokenize_from
length-tokenize_from zero p = omega arith
length-tokenize_from (suc slots) p =
    length-first_token slots (tokenize_from slots) (skip_blanks p) (length-tokenize_from slots)

-- `tok` is never filled beyond its eight places, whatever the line holds.
pub length-tokenize : (line : Bytes) → length (tokenize line) ≤ max_tokens
unfolding tokenize
length-tokenize line = length-tokenize_from max_tokens line

-- ===== src/NutServer/Dispatch/Values.antt =====
-- What a client reads of the variables (nut_server.c): the reply to GET VAR and to LIST VAR, from the
-- bytes of the line to the value.
use mathlib.Core.List.{append_assoc}
use esp32_nut_bluetti.Prelude.{
  ◌+◌, ◌<◌, ◌≤◌, ◌≡◌, refl, ◌∙◌, ap, true, false, none, some, [], ◌∷◌, ◌++◌, arith, length,
  length-append,
}
use esp32_nut_bluetti.Prelude.Text.{Bytes, codes, bytes_eq, fit_short, fit_full}
use esp32_nut_bluetti.NutServer.Vars.Table.{value_of}
use esp32_nut_bluetti.NutServer.Quote.{
  append_quoted, quoted, append_quoted_fits, append_quoted_full,
}
use esp32_nut_bluetti.NutServer.Tokens.{tokenize}
use esp32_nut_bluetti.NutServer.Tokens.RoundTrip.{
  Item, word, IsItem, value, print_items, tokenize-print,
}
use esp32_nut_bluetti.NutServer.Commands.{
  Server, ClientCtx, var_line_size, err, var_line, cmd_get_var, reply_get,
}
use esp32_nut_bluetti.NutServer.Dispatch.{respond}

abbrev pub var_head : Bytes → Bytes → Bytes
var_head ups name = codes "VAR " ++ (ups ++ (codes " " ++ (name ++ codes " ")))

-- The line in full, with nothing cut.
abbrev pub full_line : Bytes → Bytes → Bytes → Bytes
full_line ups name value = var_head ups name ++ (quoted value ++ codes "\n")

var_line_whole :
    (ups name value : Bytes)
    → length (full_line ups name value) < var_line_size
    → var_line ups name value ≡ full_line ups name value
unfolding var_line
var_line_whole ups name value room =
    let head = var_head ups name in
    let size = length-append head (quoted value ++ codes "\n") in
    let tail = length-append (quoted value) (codes "\n") in
    let head_fits = fit_short var_line_size head (omega (arith, size)) in
    let quoted_fits = append_quoted_fits var_line_size head value (omega (arith, size, tail)) in
    let all = append_assoc head (quoted value) (codes "\n") in
    rw (head_fits, quoted_fits) (rw all (fit_short var_line_size (full_line ups name value) room))

-- A name and a UPS name that fit their buffers leave room for the opening quote.
abbrev pub ShortNames : Bytes → Bytes → Type 0
ShortNames ups name = (length ups < 32) × (length name < 40)

var_line_cut :
    (ups name value : Bytes)
    → ShortNames ups name
    → var_line_size ≤ length (full_line ups name value)
    → (var_line ups name value ≡ append_quoted var_line_size (var_head ups name) value)
      × (length (var_line ups name value) + 1 ≡ var_line_size)
unfolding var_line
var_line_cut ups name value short long =
    let head = var_head ups name in
    let size = length-append head (quoted value ++ codes "\n") in
    let tail = length-append (quoted value) (codes "\n") in
    let first = length-append ups (codes " " ++ (name ++ codes " ")) in
    let second = length-append name (codes " ") in
    let head_fits = fit_short var_line_size head (omega (arith, first, second)) in
    let full =
      append_quoted_full var_line_size head value (omega (arith, first, second))
        (omega (arith, size, tail)) in
    let same = fit_full var_line_size (append_quoted var_line_size head value) (codes "\n") full in
    rw (head_fits, same) (refl, full)

-- A variable's line is exact where all of it fits the 128-byte buffer. Where it does not fit, the
-- line that is sent has lost its newline: it is just what the quoting left, and fills the buffer.
pub var_line_cases :
    (ups name value : Bytes)
    → ShortNames ups name
    → (length (full_line ups name value) < var_line_size
        → var_line ups name value ≡ full_line ups name value)
      × (var_line_size ≤ length (full_line ups name value)
          → (var_line ups name value ≡ append_quoted var_line_size (var_head ups name) value)
            × (length (var_line ups name value) + 1 ≡ var_line_size))
var_line_cases ups name value short =
    (var_line_whole ups name value, var_line_cut ups name value short)

-- The line `GET VAR <ups> <name>` of a client, each name plain or quoted.
abbrev pub get_var_request : Item → Item → Bytes
get_var_request ups name =
    print_items (word b'G' (codes "ET") ∷ word b'V' (codes "AR") ∷ ups ∷ name ∷ [])

get_var_tokens :
    (ups name : Item)
    → IsItem ups
    → IsItem name
    → tokenize (get_var_request ups name) ≡ codes "GET" ∷ codes "VAR" ∷ value ups ∷ value name ∷ []
get_var_tokens ups name u n =
    tokenize-print (word b'G' (codes "ET") ∷ word b'V' (codes "AR") ∷ ups ∷ name ∷ [])
      ((refl, (refl, (refl, (refl, tt)))), ((refl, (refl, (refl, (refl, tt)))), (u, (n, tt))))

respond-get_var :
    (s : Server) (c : ClientCtx) (ups name : Bytes)
    → (respond s c (codes "GET" ∷ codes "VAR" ∷ ups ∷ name ∷ [])).texts ≡ cmd_get_var s ups name
unfolding respond reply_get bytes_eq
respond-get_var s c ups name = refl

-- A client that asks for a variable of this UPS by a line gets its value, quoted, if the table has
-- it (and the line fits), and the protocol's error if not; another UPS's name is refused.
pub get_var_reply :
    (s : Server) (c : ClientCtx) (ups name : Item) (v : Bytes)
    → IsItem ups
    → IsItem name
    → let texts = (respond s c (tokenize (get_var_request ups name))).texts in
      (bytes_eq (value ups) s.ups_name ≡ false → texts ≡ err (codes "UNKNOWN-UPS"))
      × (bytes_eq (value ups) s.ups_name ≡ true
          → value_of s.store.vars (value name) ≡ none
          → texts ≡ err (codes "VAR-NOT-SUPPORTED"))
      × (bytes_eq (value ups) s.ups_name ≡ true
          → value_of s.store.vars (value name) ≡ some v
          → length (full_line (value ups) (value name) v) < var_line_size
          → texts ≡ full_line (value ups) (value name) v ∷ [])
unfolding cmd_get_var
get_var_reply s c ups name v u n =
    let asked =
      ap (λ t. (respond s c t).texts) (get_var_tokens ups name u n)
      ∙ respond-get_var s c (value ups) (value name) in
    let whole = var_line_whole (value ups) (value name) v in
    (
      λ other. asked ∙ ground arith,
      λ ours unset. asked ∙ ground arith,
      λ ours set fits. asked ∙ ground (arith, whole fits),
    )

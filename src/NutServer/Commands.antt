-- ===== src/NutServer/Commands.antt =====
-- The read-only commands of components/nut_server/nut_server.c, each as the texts that it sends one
-- after the other.
use esp32_nut_bluetti.Prelude.{
  ℕ, ◌+◌, ◌-◌, Bool, not, ◌&&◌, ◌||◌, Option, none, some, List, [], ◌∷◌, ◌++◌, if◌then◌else◌, leb,
}
use esp32_nut_bluetti.Prelude.Text.{Bytes, codes, bytes_eq, decimal, fit}
use esp32_nut_bluetti.NutServer.Vars.{Var, VarStore, var_value_len, var_find}
use esp32_nut_bluetti.NutServer.Quote.{append_quoted}

-- The static `s`, with the callback that `nut_server_set_auth` installs.
pub record Server : Type 0 where
  pub auth_cb : Option (Bytes → Bytes → Bool)
  pub ups_name : Bytes
  pub ups_desc : Bytes
  pub driver_version : Bytes
  pub store : VarStore

-- `client_ctx_t`
pub record ClientCtx : Type 0 where
  pub user : Bytes
  pub pass : Bytes
  pub logged_in : Bool

abbrev pub user_size : ℕ
user_size = 33

abbrev pub pass_size : ℕ
pass_size = 65

abbrev pub tx_buf : ℕ
tx_buf = 1024

-- The lines of `cmd_list_var`, `cmd_get_var` and UPSDESC have these sizes.
abbrev pub var_line_size : ℕ
var_line_size = 64 + var_value_len

abbrev pub text_line_size : ℕ
text_line_size = 128

abbrev fold_case : ℕ → ℕ
fold_case c = if leb b'A' c && leb c b'Z' then c + 32 else c

abbrev fold_text : Bytes → Bytes
fold_text [] = []
fold_text (c ∷ cs) = fold_case c ∷ fold_text cs

-- `strcasecmp(token, word) == 0`
abbrev pub is_word : Bytes → Bytes → Bool
is_word token word = bytes_eq (fold_text token) (fold_text word)

-- `strlcat(dst, src, size)`
abbrev pub strlcat : ℕ → Bytes → Bytes → Bytes
strlcat size dst src = fit size (dst ++ src)

-- `ups_matches`
abbrev pub ups_matches : Server → Bytes → Bool
ups_matches s name = bytes_eq name s.ups_name

abbrev pub err : Bytes → List Bytes
err reason = (codes "ERR " ++ (reason ++ codes "\n")) ∷ []

-- `VAR <ups> <name> "<value>"` and the newline, as both commands build it.
unfoldable pub var_line : Bytes → Bytes → Bytes → Bytes
var_line ups name value =
    let head = fit var_line_size (codes "VAR " ++ (ups ++ (codes " " ++ (name ++ codes " ")))) in
    strlcat var_line_size (append_quoted var_line_size head value) (codes "\n")

-- `cmd_list_ups`
unfoldable pub cmd_list_ups : Server → List Bytes
cmd_list_ups s =
    let head =
      strlcat text_line_size (strlcat text_line_size (codes "UPS ") s.ups_name) (codes " ") in
    let line = append_quoted text_line_size head s.ups_desc in
    fit tx_buf (codes "BEGIN LIST UPS\n" ++ (line ++ codes "\nEND LIST UPS\n")) ∷ []

-- The loop of `cmd_list_var`.
unfoldable pub list_vars : Bytes → List Var → List Bytes
unfolding var_line
list_vars ups [] = []
list_vars ups (v ∷ vars) =
    let rest = list_vars ups vars in if v.used then var_line ups v.name v.value ∷ rest else rest

-- `cmd_list_var`
unfoldable pub cmd_list_var : Server → Bytes → List Bytes
unfolding list_vars
cmd_list_var s ups =
    if not (ups_matches s ups)
    then err (codes "UNKNOWN-UPS")
    else fit tx_buf (codes "BEGIN LIST VAR " ++ (ups ++ codes "\n"))
      ∷ (list_vars ups s.store.vars
          ++ fit tx_buf (codes "END LIST VAR " ++ (ups ++ codes "\n")) ∷ [])

-- `cmd_get_var`
unfoldable pub cmd_get_var : Server → Bytes → Bytes → List Bytes
unfolding var_line
cmd_get_var s ups name =
    if not (ups_matches s ups)
    then err (codes "UNKNOWN-UPS")
    else elim (var_find s.store.vars name) [
      | none ↦ err (codes "VAR-NOT-SUPPORTED")
      | some v ↦ var_line ups name v.value ∷ []
    ]

-- The six kinds of list that are always empty.
abbrev is_empty_kind : Bytes → Bool
is_empty_kind kind =
    is_word kind (codes "RW")
    || (is_word kind (codes "CMD")
        || (is_word kind (codes "ENUM")
            || (is_word kind (codes "RANGE")
                || (is_word kind (codes "CLIENT") || is_word kind (codes "CLIENTS")))))

abbrev empty_list : Bytes → Bytes → Bytes
empty_list kind name =
    let both = kind ++ (codes " " ++ (name ++ codes "\n")) in
    fit tx_buf (codes "BEGIN LIST " ++ (both ++ (codes "END LIST " ++ both)))

-- LIST with the tokens behind it; with fewer than two tokens in all the line is no LIST command.
unfoldable pub reply_list : Server → Bytes → List Bytes → List Bytes
unfolding cmd_list_ups cmd_list_var
reply_list s kind [] =
    if is_word kind (codes "UPS") then cmd_list_ups s else err (codes "INVALID-ARGUMENT")
reply_list s kind (name ∷ more) =
    if is_word kind (codes "UPS")
    then cmd_list_ups s
    else if is_word kind (codes "VAR")
    then cmd_list_var s name
    else if is_empty_kind kind
    then empty_list kind name ∷ []
    else err (codes "INVALID-ARGUMENT")

-- The GET commands that work with three tokens.
unfoldable pub reply_get_ups : Server → Bytes → Bytes → List Bytes
reply_get_ups s kind name =
    if is_word kind (codes "UPSDESC")
    then (if not (ups_matches s name)
        then err (codes "UNKNOWN-UPS")
        else let head = fit text_line_size (codes "UPSDESC " ++ (name ++ codes " ")) in
          strlcat text_line_size (append_quoted text_line_size head s.ups_desc) (codes "\n") ∷ [])
    else if is_word kind (codes "NUMLOGINS")
    then fit tx_buf (codes "NUMLOGINS " ++ (name ++ codes " 0\n")) ∷ []
    else err (codes "INVALID-ARGUMENT")

-- The GET commands of four tokens, which fall through to the others.
unfoldable pub reply_get : Server → Bytes → Bytes → List Bytes → List Bytes
unfolding cmd_get_var reply_get_ups
reply_get s kind ups [] = reply_get_ups s kind ups
reply_get s kind ups (var ∷ more) =
    if is_word kind (codes "VAR")
    then cmd_get_var s ups var
    else if is_word kind (codes "UPSDESC") || is_word kind (codes "NUMLOGINS")
    then reply_get_ups s kind ups
    else if is_word kind (codes "DESC")
    then fit tx_buf
        (codes "DESC " ++ (ups ++ (codes " " ++ (var ++ (codes " \"" ++ (var ++ codes "\"\n"))))))
      ∷ []
    else if is_word kind (codes "TYPE")
    then fit tx_buf (
        codes "TYPE "
        ++ (ups
            ++ (codes " "
                ++ (var ++ (codes " STRING:" ++ (decimal (var_value_len - 1) ++ codes "\n"))))))
      ∷ []
    else err (codes "INVALID-ARGUMENT")

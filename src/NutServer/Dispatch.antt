-- ===== src/NutServer/Dispatch.antt =====
-- `handle_line` of components/nut_server/nut_server.c. A line is its effect on the login state, the
-- texts that it sends one after the other, and whether it closes the connection; `handle_line` then
-- sends them, and stops at the first send that fails.
pub mod Login
pub mod Values
use esp32_nut_bluetti.Prelude.{
  ℕ, Bool, true, false, not, ◌&&◌, ◌||◌, Option, none, some, List, [], ◌∷◌, ◌++◌, if◌then◌else◌,
}
use esp32_nut_bluetti.Prelude.Text.{Bytes, codes, bytes_eq, fit}
use esp32_nut_bluetti.NutServer.Tokens.{tokenize}
use esp32_nut_bluetti.NutServer.Socket.{Conn, send_all}
use esp32_nut_bluetti.NutServer.Commands.{
  Server, ClientCtx, user_size, pass_size, is_word, err, reply_list, reply_get,
}

-- What a line does: the login state after it, the texts that are sent, and whether it closes.
pub record Reply : Type 0 where
  pub ctx : ClientCtx
  pub texts : List Bytes
  pub closes : Bool

abbrev pub answer : ClientCtx → List Bytes → Reply
answer c texts = record { ctx = c; texts = texts; closes = false }

abbrev ok_text : List Bytes
ok_text = codes "OK\n" ∷ []

-- USERNAME with the tokens behind it: it is taken once.
unfoldable pub set_username : ClientCtx → List Bytes → Reply
set_username c [] = answer c (err (codes "INVALID-ARGUMENT"))
set_username c (name ∷ more) =
    if not (bytes_eq c.user [])
    then answer c (err (codes "ALREADY-SET-USERNAME"))
    else answer (record c { user = fit user_size name }) ok_text

unfoldable pub set_password : ClientCtx → List Bytes → Reply
set_password c [] = answer c (err (codes "INVALID-ARGUMENT"))
set_password c (pass ∷ more) =
    if not (bytes_eq c.pass [])
    then answer c (err (codes "ALREADY-SET-PASSWORD"))
    else answer (record c { pass = fit pass_size pass }) ok_text

-- `!s.auth_cb || s.auth_cb(c->user, c->pass, s.auth_ctx)`
abbrev pub accepts : Option (Bytes → Bytes → Bool) → Bytes → Bytes → Bool
accepts none user pass = true
accepts (some verify) user pass = verify user pass

unfoldable pub login : Server → ClientCtx → Reply
login s c =
    if not (accepts s.auth_cb c.user c.pass)
    then answer c (err (codes "ACCESS-DENIED"))
    else answer (record c { logged_in = true }) ok_text

abbrev pub is_login : Bytes → Bool
is_login cmd =
    is_word cmd (codes "LOGIN") || (is_word cmd (codes "PRIMARY") || is_word cmd (codes "MASTER"))

-- The commands behind LIST and GET, in the order of the code.
unfoldable pub reply_other : Server → ClientCtx → Bytes → List Bytes → Reply
reply_other s c cmd args =
    if is_word cmd (codes "USERNAME")
    then set_username c args
    else if is_word cmd (codes "PASSWORD")
    then set_password c args
    else if is_login cmd
    then login s c
    else if is_word cmd (codes "LOGOUT")
    then record {
      ctx = record c { logged_in = false };
      texts = codes "OK Goodbye\n" ∷ [];
      closes = true;
    }
    else if is_word cmd (codes "STARTTLS")
    then answer c (err (codes "FEATURE-NOT-CONFIGURED"))
    else if is_word cmd (codes "VER")
    then answer c (fit 52 (s.driver_version ++ codes "\n") ∷ [])
    else if is_word cmd (codes "NETVER") || is_word cmd (codes "PROTVER")
    then answer c (codes "1.3\n" ∷ [])
    else if is_word cmd (codes "HELP")
    then answer c
        (codes "Commands: HELP VER GET LIST LOGIN LOGOUT USERNAME PASSWORD STARTTLS\n" ∷ [])
    else answer c (err (codes "UNKNOWN-COMMAND"))

-- The tests of `handle_line` on the first token and on the number of tokens.
unfoldable pub respond : Server → ClientCtx → List Bytes → Reply
respond s c [] = answer c []
respond s c (cmd ∷ []) = reply_other s c cmd []
respond s c (cmd ∷ kind ∷ []) =
    if is_word cmd (codes "LIST")
    then answer c (reply_list s kind [])
    else reply_other s c cmd (kind ∷ [])
respond s c (cmd ∷ kind ∷ ups ∷ more) =
    if is_word cmd (codes "LIST")
    then answer c (reply_list s kind (ups ∷ more))
    else if is_word cmd (codes "GET")
    then answer c (reply_get s kind ups more)
    else reply_other s c cmd (kind ∷ ups ∷ more)

-- The sends of one line, up to the first that fails.
unfoldable pub send_each : List Bytes → Conn → Conn × Bool
send_each [] conn = (conn, true)
send_each (text ∷ texts) conn =
    let (conn', sent) = send_all conn text in
    elim sent [ false ↦ (conn', false) | true ↦ send_each texts conn' ]

-- `handle_line`: the login state, the connection, and whether the result is not negative.
unfoldable pub handle_line : Server → ClientCtx × Conn → Bytes → (ClientCtx × Conn) × Bool
unfolding send_each
handle_line s (c, conn) line =
    let r = respond s c (tokenize line) in
    let (conn', sent) = send_each r.texts conn in ((r.ctx, conn'), sent && not r.closes)

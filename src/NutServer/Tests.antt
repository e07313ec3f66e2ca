-- ===== src/NutServer/Tests.antt =====
-- A server `ups` with one variable and the user `mon`, driven through nut_server.c.
use esp32_nut_bluetti.Prelude.{
  ◌<◌, ◌≤◌, ◌≡◌, ◌≢◌, refl, ◌+◌, true, false, ◌&&◌, none, some, List, [], ◌∷◌, ◌++◌, arith, length,
  take,
}
use esp32_nut_bluetti.Prelude.Text.{Bytes, codes, bytes_eq, fit}
use esp32_nut_bluetti.NutServer.Vars.{
  Var, VarStore, unused_var, var_find, set_var, clear_var, get_var,
}
use esp32_nut_bluetti.NutServer.Vars.Table.{
  IsUnique, value_of, get_var-set_var, get_var-clear_var, set_clear-IsUnique,
}
use esp32_nut_bluetti.NutServer.Quote.{
  append_quoted, escape_byte, quoted, length-append_quoted, unquote, unquote-append_quoted,
}
use esp32_nut_bluetti.NutServer.Tokens.{tokenize}
use esp32_nut_bluetti.NutServer.Tokens.RoundTrip.{Item, word, text, print_items, tokenize-print}
use esp32_nut_bluetti.NutServer.Socket.{
  Conn, accepted, interrupted, failed, send_all, Delivered, send_all-Delivered,
}
use esp32_nut_bluetti.NutServer.Commands.{
  Server, ClientCtx, var_line_size, err, var_line, reply_list, reply_get,
}
use esp32_nut_bluetti.NutServer.Dispatch.{
  respond, handle_line, reply_other, set_username, set_password, login,
}
use esp32_nut_bluetti.NutServer.Dispatch.Login.{
  no_login, session, Fits, WasAccepted, reads_anonymous, session_login,
}
use esp32_nut_bluetti.NutServer.Dispatch.Values.{
  var_head, full_line, var_line_cases, get_var_request, get_var_reply,
}
use esp32_nut_bluetti.NutServer.Client.{client_loop}
use esp32_nut_bluetti.NutServer.Client.Lines.{by_byte}
use esp32_nut_bluetti.NutServer.Serve.{client_task, client_task-by_byte}

abbrev charge : Var
charge = record { name = codes "battery.charge"; value = codes "87"; used = true }

abbrev store : VarStore
store = record { vars = charge ∷ unused_var ∷ []; lock = true }

abbrev server : Server
server = record {
  auth_cb = some (λ user pass. bytes_eq user (codes "mon") && bytes_eq pass (codes "pw"));
  ups_name = codes "ups";
  ups_desc = codes "BLUETTI";
  driver_version = codes "esp32-nut-bluetti 1.0";
  store = store;
}

abbrev idle : Conn
idle = record { sent = []; answers = accepted 100 ∷ accepted 100 ∷ accepted 100 ∷ [] }

-- A session of two lines in three pieces: a password that is wrong is no login.
abbrev requests : Bytes
requests = codes "NETVER\nGET VAR ups battery.charge\n"

list_ups_test :
    (handle_line server (no_login, idle) (codes "list ups")).0.1.sent
    ≡ codes "BEGIN LIST UPS\nUPS ups \"BLUETTI\"\nEND LIST UPS\n"
unfolding handle_line respond tokenize bytes_eq reply_list send_all fit append_quoted
list_ups_test = refl

-- Two lines that arrive in four pieces, the second piece with the end of one and the start of the other.
two_lines_test :
    (client_task server (3 ∷ 10 ∷ 2 ∷ 300 ∷ []) idle requests).1.sent
    ≡ codes "1.3\nVAR ups battery.charge \"87\"\n"
unfolding client_task handle_line client_loop respond tokenize reply_other bytes_eq send_all
    reply_get var_find fit append_quoted
two_lines_test = refl

wrong_password_test :
    (session server no_login
      (codes "USERNAME mon" ∷ codes "PASSWORD no" ∷ codes "LOGIN" ∷ [])).logged_in
    ≡ false
unfolding session respond tokenize reply_other set_username set_password login bytes_eq fit
wrong_password_test = refl

client_task-by_byte_example :
    client_task server (3 ∷ 1 ∷ 1 ∷ 1 ∷ 200 ∷ 1 ∷ 1 ∷ []) idle (codes "NETVER\n")
    ≡ (by_byte (handle_line server) (no_login, idle) [] (codes "NETVER\n")).state
client_task-by_byte_example =
    client_task-by_byte server (3 ∷ 1 ∷ 1 ∷ 1 ∷ 200 ∷ 1 ∷ 1 ∷ []) idle (codes "NETVER\n")
      (
        omega arith,
        (
          omega arith,
          (omega arith, (omega arith, (omega arith, (omega arith, (omega arith, tt))))),
        ),
      )
      (omega arith) (refl, (refl, (refl, (refl, (refl, (refl, (refl, tt)))))))
      (
        omega arith,
        (
          omega arith,
          (omega arith, (omega arith, (omega arith, (omega arith, (omega arith, omega arith))))),
        ),
      )

session_login_example :
    ((session server no_login
          (codes "USERNAME mon" ∷ codes "PASSWORD pw" ∷ codes "LOGIN" ∷ [])).logged_in
        ≡ true
      → WasAccepted server no_login
          (codes "USERNAME mon" ∷ codes "PASSWORD pw" ∷ codes "LOGIN" ∷ []))
    × Fits
        (session server no_login (codes "USERNAME mon" ∷ codes "PASSWORD pw" ∷ codes "LOGIN" ∷ []))
    × ((more : List Bytes)
        → (session server no_login
            (codes "USERNAME mon" ∷ codes "PASSWORD pw" ∷ codes "LOGIN" ∷ [])).user
          ≢ []
        → (session server
            (session server no_login
              (codes "USERNAME mon" ∷ codes "PASSWORD pw" ∷ codes "LOGIN" ∷ []))
            more).user
          ≡ (session server no_login
              (codes "USERNAME mon" ∷ codes "PASSWORD pw" ∷ codes "LOGIN" ∷ [])).user)
session_login_example =
    session_login server (codes "USERNAME mon" ∷ codes "PASSWORD pw" ∷ codes "LOGIN" ∷ [])

abbrev entered : ClientCtx
entered = record { user = codes "mon"; pass = codes "pw"; logged_in = true }

reads_anonymous_example :
    ((respond server no_login (codes "LIST" ∷ codes "VAR" ∷ codes "ups" ∷ [])).texts
      ≡ (respond server entered (codes "LIST" ∷ codes "VAR" ∷ codes "ups" ∷ [])).texts)
    × ((respond server no_login (codes "LIST" ∷ codes "VAR" ∷ codes "ups" ∷ [])).ctx ≡ no_login)
    × ((respond server no_login (codes "LIST" ∷ codes "VAR" ∷ codes "ups" ∷ [])).closes ≡ false)
unfolding bytes_eq
reads_anonymous_example =
    reads_anonymous server no_login entered (codes "LIST" ∷ codes "VAR" ∷ codes "ups" ∷ []) refl

tokenize-print_example :
    tokenize (print_items (word b'g' (codes "et") ∷ text (codes "my ups") ∷ []))
    ≡ take 8 (codes "get" ∷ codes "my ups" ∷ [])
tokenize-print_example =
    tokenize-print (word b'g' (codes "et") ∷ text (codes "my ups") ∷ [])
      ((refl, (refl, (refl, (refl, tt)))), ((refl, (refl, (refl, (refl, (refl, (refl, tt)))))), tt))

unquote-append_quoted_example :
    unquote (append_quoted 16 [] (codes "a\"b") ++ codes "\n") ≡ some (codes "a\"b", codes "\n")
unfolding quoted escape_byte
unquote-append_quoted_example = unquote-append_quoted 16 (codes "a\"b") (codes "\n") (omega arith)

length-append_quoted_example : length (append_quoted 8 (codes "VAR ") (codes "a\"\"")) < 8
length-append_quoted_example = length-append_quoted 8 (codes "VAR ") (codes "a\"\"") (omega arith)

abbrev slow : Conn
slow = record { sent = codes "OK\n"; answers = accepted 2 ∷ interrupted ∷ failed ∷ [] }

send_all-Delivered_example :
    Delivered (codes "OK\n") (codes "1.3\n") (send_all slow (codes "1.3\n"))
send_all-Delivered_example = send_all-Delivered slow (codes "1.3\n")

get_var-set_var_example :
    get_var
      (set_var store (some (codes "ups.load")) (some (codes "7")))
      (some (codes "ups.load"))
      (some 16)
    ≡ (true, some (codes "7"))
unfolding var_find get_var bytes_eq fit
get_var-set_var_example =
    get_var-set_var store (codes "ups.load") (codes "ups.load") (codes "7") 16 refl (omega arith)
      (omega arith)

store-IsUnique : IsUnique store.vars
unfolding var_find
store-IsUnique = (λ e. refl, (λ e. cc, tt))

get_var-clear_var_example :
    get_var
      (clear_var store (some (codes "battery.charge")))
      (some (codes "battery.charge"))
      (some 16)
    ≡ (false, some [])
unfolding bytes_eq
get_var-clear_var_example =
    get_var-clear_var store (codes "battery.charge") (codes "battery.charge") 16 refl (omega arith)
      store-IsUnique

set_clear-IsUnique_example :
    (IsUnique (set_var store (some (codes "ups.load")) (some (codes "7"))).vars
      × (length (set_var store (some (codes "ups.load")) (some (codes "7"))).vars ≡ 2))
    × (IsUnique (clear_var store (some (codes "ups.load"))).vars
        × (length (clear_var store (some (codes "ups.load"))).vars ≡ 2))
set_clear-IsUnique_example =
    set_clear-IsUnique store (codes "ups.load") (codes "7") (omega arith) store-IsUnique

var_line_cases_example :
    (length (full_line (codes "ups") (codes "ups.load") (codes "7")) < var_line_size
      → var_line (codes "ups") (codes "ups.load") (codes "7")
        ≡ full_line (codes "ups") (codes "ups.load") (codes "7"))
    × (var_line_size ≤ length (full_line (codes "ups") (codes "ups.load") (codes "7"))
        → (var_line (codes "ups") (codes "ups.load") (codes "7")
            ≡ append_quoted var_line_size (var_head (codes "ups") (codes "ups.load")) (codes "7"))
          × (length (var_line (codes "ups") (codes "ups.load") (codes "7")) + 1 ≡ var_line_size))
var_line_cases_example =
    var_line_cases (codes "ups") (codes "ups.load") (codes "7") (omega arith, omega arith)

abbrev ups_item : Item
ups_item = word b'u' (codes "ps")

abbrev charge_item : Item
charge_item = text (codes "battery.charge")

get_var_reply_example :
    let texts = (respond server no_login (tokenize (get_var_request ups_item charge_item))).texts in
    (bytes_eq (codes "ups") (codes "ups") ≡ false → texts ≡ err (codes "UNKNOWN-UPS"))
    × (bytes_eq (codes "ups") (codes "ups") ≡ true
        → value_of store.vars (codes "battery.charge") ≡ none
        → texts ≡ err (codes "VAR-NOT-SUPPORTED"))
    × (bytes_eq (codes "ups") (codes "ups") ≡ true
        → value_of store.vars (codes "battery.charge") ≡ some (codes "87")
        → length (full_line (codes "ups") (codes "battery.charge") (codes "87")) < var_line_size
        → texts ≡ full_line (codes "ups") (codes "battery.charge") (codes "87") ∷ [])
get_var_reply_example =
    get_var_reply server no_login ups_item charge_item (codes "87")
      (refl, (refl, (refl, (refl, tt))))
      (
        refl,
        (
          refl,
          (
            refl,
            (
              refl,
              (refl, (refl, (refl, (refl, (refl, (refl, (refl, (refl, (refl, (refl, tt)))))))))),
            ),
          ),
        ),
      )

-- ===== src/NutServer/Dispatch/Login.antt =====
-- The login of a client (nut_server.c): what gates it, and what it does not gate.
use esp32_nut_bluetti.Prelude.{
  ◌<◌, ◌≡◌, ◌≢◌, refl, ◌∙◌, ap, Bool, true, false, ◌||◌, ◌⊎◌, inl, inr, List, [], ◌∷◌, ◌++◌, arith,
  length, Bool-cases,
}
use esp32_nut_bluetti.Prelude.Text.{Bytes, codes, bytes_eq_iff, length-fit}
use esp32_nut_bluetti.NutServer.Tokens.{tokenize}
use esp32_nut_bluetti.NutServer.Commands.{Server, ClientCtx, user_size, pass_size, is_word}
use esp32_nut_bluetti.NutServer.Dispatch.{
  set_username, set_password, accepts, login, reply_other, respond,
}

-- What holds of a login state that started empty: both texts fit their buffers.
abbrev pub Fits : ClientCtx → Type 0
Fits c = (length c.user < user_size) × (length c.pass < pass_size)

-- What a reply may do to the login state: a text is only set where it was empty, and cut to its
-- buffer, and a login is only marked where the credentials of that moment are accepted.
abbrev pub Keeps : Server → ClientCtx → ClientCtx → Type 0
Keeps s c c' =
    ((c'.user ≡ c.user) ⊎ ((c.user ≡ []) × (length c'.user < user_size)))
    × ((c'.pass ≡ c.pass) ⊎ ((c.pass ≡ []) × (length c'.pass < pass_size)))
    × (c'.logged_in ≡ true → (c.logged_in ≡ true) ⊎ (accepts s.auth_cb c.user c.pass ≡ true))

set_username-Keeps :
    (s : Server) (c : ClientCtx) (args : List Bytes) → Keeps s c (set_username c args).ctx
unfolding set_username
set_username-Keeps s c [] = ground arith
set_username-Keeps s c (name ∷ more) =
    ground (arith, bytes_eq_iff c.user [], length-fit user_size name (omega arith))

set_password-Keeps :
    (s : Server) (c : ClientCtx) (args : List Bytes) → Keeps s c (set_password c args).ctx
unfolding set_password
set_password-Keeps s c [] = ground arith
set_password-Keeps s c (word ∷ more) =
    ground (arith, bytes_eq_iff c.pass [], length-fit pass_size word (omega arith))

login-Keeps : (s : Server) (c : ClientCtx) → Keeps s c (login s c).ctx
unfolding login
login-Keeps s c = ground arith

reply_other-Keeps :
    (s : Server) (c : ClientCtx) (cmd : Bytes) (args : List Bytes)
    → Keeps s c (reply_other s c cmd args).ctx
unfolding reply_other
reply_other-Keeps s c cmd args =
    let name = set_username-Keeps s c args in
    let word = set_password-Keeps s c args in
    let enter = login-Keeps s c in ground (arith, name, word, enter)

respond-Keeps : (s : Server) (c : ClientCtx) (toks : List Bytes) → Keeps s c (respond s c toks).ctx
unfolding respond
respond-Keeps s c [] = ground arith
respond-Keeps s c (cmd ∷ []) = reply_other-Keeps s c cmd []
respond-Keeps s c (cmd ∷ kind ∷ []) = ground (arith, reply_other-Keeps s c cmd (kind ∷ []))
respond-Keeps s c (cmd ∷ kind ∷ ups ∷ more) =
    ground (arith, reply_other-Keeps s c cmd (kind ∷ ups ∷ more))

-- LIST and GET lines that are long enough to be one.
abbrev pub is_read : List Bytes → Bool
is_read [] = false
is_read (cmd ∷ []) = false
is_read (cmd ∷ kind ∷ []) = is_word cmd (codes "LIST")
is_read (cmd ∷ kind ∷ ups ∷ more) = is_word cmd (codes "LIST") || is_word cmd (codes "GET")

-- Reading needs no login: a LIST or GET line is answered alike whatever the login state is, and leaves
-- the state and the connection as they are.
pub reads_anonymous :
    (s : Server) (c other : ClientCtx) (toks : List Bytes)
    → is_read toks ≡ true
    → ((respond s c toks).texts ≡ (respond s other toks).texts)
      × ((respond s c toks).ctx ≡ c)
      × ((respond s c toks).closes ≡ false)
unfolding respond
reads_anonymous s c other [] read = ground arith
reads_anonymous s c other (cmd ∷ []) read = ground arith
reads_anonymous s c other (cmd ∷ kind ∷ []) read = ground arith
reads_anonymous s c other (cmd ∷ kind ∷ ups ∷ more) read = ground arith

-- The login state after the lines of a session.
unfoldable pub session : Server → ClientCtx → List Bytes → ClientCtx
session s c [] = c
session s c (line ∷ lines) = session s (respond s c (tokenize line)).ctx lines

abbrev pub no_login : ClientCtx
no_login = record { user = []; pass = []; logged_in = false }

-- Before some line of the session the credentials given so far were accepted.
abbrev pub WasAccepted : Server → ClientCtx → List Bytes → Type 0
WasAccepted s c lines =
    (seen : List Bytes) × (rest : List Bytes) × (lines ≡ seen ++ rest)
    × (accepts s.auth_cb (session s c seen).user (session s c seen).pass ≡ true)

session_gate :
    (s : Server) (c : ClientCtx) (lines : List Bytes)
    → c.logged_in ≡ false
    → (session s c lines).logged_in ≡ true
    → WasAccepted s c lines
unfolding session
session_gate s c [] out entered = cc
session_gate s c (line ∷ lines) out entered =
    let next = (respond s c (tokenize line)).ctx in
    let keeps = respond-Keeps s c (tokenize line) in
    elim (Bool-cases next.logged_in) [
      | inl marked ↦ elim (keeps.2 marked) [
        | inl before ↦ cc
        | inr accepted ↦ ([], line ∷ lines, refl, accepted)
      ]
      | inr still ↦
          let (seen, rest, split, accepted) = session_gate s next lines still entered in
          (line ∷ seen, rest, ap (λ l. line ∷ l) split, accepted)
    ]

session-Fits : (s : Server) (c : ClientCtx) (lines : List Bytes) → Fits c → Fits (session s c lines)
unfolding session
session-Fits s c [] fits = fits
session-Fits s c (line ∷ lines) fits =
    session-Fits s (respond s c (tokenize line)).ctx lines
      (let keeps = respond-Keeps s c (tokenize line) in ground (arith, keeps))

session_user_fixed :
    (s : Server) (c : ClientCtx) (lines : List Bytes)
    → c.user ≢ []
    → (session s c lines).user ≡ c.user
unfolding session
session_user_fixed s c [] named = refl
session_user_fixed s c (line ∷ lines) named =
    let next = (respond s c (tokenize line)).ctx in
    let same : next.user ≡ c.user =
      (let keeps = respond-Keeps s c (tokenize line) in ground (arith, keeps)) in
    session_user_fixed s next lines (rw same named) ∙ same

-- A client that starts with no login is only ever logged in after the user and password that it had
-- given were accepted; both texts stay within their buffers; and a user name, once given, never
-- changes.
pub session_login :
    (s : Server) (lines : List Bytes)
    → ((session s no_login lines).logged_in ≡ true → WasAccepted s no_login lines)
      × Fits (session s no_login lines)
      × ((more : List Bytes)
          → (session s no_login lines).user ≢ []
          → (session s (session s no_login lines) more).user ≡ (session s no_login lines).user)
session_login s lines = (
  session_gate s no_login lines refl,
  session-Fits s no_login lines (omega arith),
  session_user_fixed s (session s no_login lines),
)

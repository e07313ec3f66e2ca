-- ===== src/Portal/Sessions.antt =====
-- The sessions of signed-in browsers: `session_new`, `auth_ok`, `session_drop`, and the sign-in and sign-out
-- of provisioning.c.
pub mod SignedIn
use esp32_nut_bluetti.Prelude.{
  ℕ, zero, suc, ◌+◌, ◌-◌, ◌/◌, ◌%◌, Bool, true, false, not, ◌&&◌, ◌||◌, Option, none, some, List,
  [], ◌∷◌, ◌++◌, if◌then◌else◌, ◌==◌, ltb, leb, get_or, set, length,
}
use esp32_nut_bluetti.Prelude.Text.{Bytes, codes, bytes_eq}
use esp32_nut_bluetti.Portal.Forms.{form_get}
use esp32_nut_bluetti.Portal.Cookies.{token_length, cookie_token, tok_eq}

-- An element of `S`; a free one holds no token.
pub record WebSession : Type 0 where
  pub tok : Bytes
  pub last_us : ℕ

abbrev pub no_session : WebSession
no_session = record { tok = []; last_us = 0 }

-- `SESSION_IDLE_US`
abbrev pub session_idle_us : ℕ
session_idle_us = 28800000000

abbrev hex_digit : ℕ → ℕ
hex_digit d = if ltb d 10 then b'0' + d else b'a' + (d - 10)

-- `%02x` of each random byte.
abbrev pub hex_text : Bytes → Bytes
hex_text [] = []
hex_text (b ∷ raw) = hex_digit (b / 16) ∷ hex_digit (b % 16) ∷ hex_text raw

abbrev pub is_free : WebSession → Bool
is_free s = elim s.tok [ [] ↦ true | c ∷ tok ↦ false ]

-- The loop over the slots from slot `i` on, the best so far with its time.
unfoldable pub pick_slot : ℕ → ℕ → ℕ → List WebSession → ℕ
pick_slot i slot last [] = slot
pick_slot i slot last (s ∷ sessions) =
    let older = pick_slot (suc i) i s.last_us sessions in
    let kept = pick_slot (suc i) slot last sessions in
    if is_free s then i else if ltb s.last_us last then older else kept

-- `session_new` with the random bytes `raw`: the token, and the sessions with it.
unfoldable pub web_session_new : List WebSession → ℕ → Bytes → Bytes × List WebSession
unfolding pick_slot
web_session_new sessions now raw =
    let tok = hex_text raw in
    let slot = pick_slot 0 0 (get_or sessions 0 no_session).last_us sessions in
    (tok, set sessions slot (record { tok = tok; last_us = now }))

abbrev pub holds : Bytes → WebSession → Bool
holds tok s = not (is_free s) && tok_eq s.tok tok

-- The loop of `auth_ok` over the slots.
unfoldable pub use_session : ℕ → Bytes → List WebSession → List WebSession × Bool
use_session now tok [] = ([], false)
use_session now tok (s ∷ sessions) =
    let (rest, found) = use_session now tok sessions in
    if holds tok s
    then if ltb session_idle_us (now - s.last_us)
      then (no_session ∷ sessions, false)
      else (record s { last_us = now } ∷ sessions, true)
    else (s ∷ rest, found)

-- `auth_ok`; `auth_set` is false also while there is no configuration.
unfoldable pub auth_ok : List WebSession → Bool → ℕ → Option Bytes → List WebSession × Bool
unfolding use_session
auth_ok sessions auth_set now cookie =
    if not auth_set then (sessions, true) else elim (cookie_token cookie) [
      | none ↦ (sessions, false)
      | some tok ↦ use_session now tok sessions
    ]

abbrev pub drop_tok : Bytes → List WebSession → List WebSession
drop_tok tok [] = []
drop_tok tok (s ∷ sessions) = (if holds tok s then no_session else s) ∷ drop_tok tok sessions

-- `session_drop`
unfoldable pub session_drop : List WebSession → Option Bytes → List WebSession
session_drop sessions cookie = elim (cookie_token cookie) [
  | none ↦ sessions
  | some tok ↦ drop_tok tok sessions
]

-- What a request is answered.
pub data Answer : Type 0 where
  bad_body : Answer
  server_error : Answer
  -- the text of a 401
  refused : Bytes → Answer
  -- the text of a 200, and the cookie that is set
  accepted : Bytes → Bytes → Answer

-- `h_login` of a body that is received whole or not at all, where it can be stored; `content_len` is the
-- length that the header tells, `user` the configured name and `check` app_config_check_password.
unfoldable pub h_login :
    (Bytes → Bool)
    → Bytes
    → List WebSession
    → ℕ
    → Bytes
    → ℕ
    → Option Bytes
    → List WebSession × Answer
h_login check user sessions now raw content_len received =
    let (tok, signed_in) = web_session_new sessions now raw in
    let cookie =
      codes "sid=" ++ (tok ++ codes "; Path=/; HttpOnly; SameSite=Strict; Max-Age=28800") in
    if content_len == 0 || ltb 512 content_len then (sessions, bad_body) else elim received [
      | none ↦ (sessions, server_error)
      | some body ↦
          if bytes_eq (form_get body (codes "user") 40).0 user
            && check (form_get body (codes "pass") 80).0
          then (signed_in, accepted (codes "ok") cookie)
          else (sessions, refused (codes "Wrong username or password"))
    ]

-- `h_logout`
unfoldable pub h_logout : List WebSession → Option Bytes → List WebSession × Answer
unfolding session_drop
h_logout sessions cookie = (
  session_drop sessions cookie,
  accepted (codes "ok") (codes "sid=; Path=/; HttpOnly; SameSite=Strict; Max-Age=0"),
)

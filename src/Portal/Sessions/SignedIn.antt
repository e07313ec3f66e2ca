-- ===== src/Portal/Sessions/SignedIn.antt =====
-- Only a signed-in browser passes `auth_ok` (components/provisioning/provisioning.c).
use esp32_nut_bluetti.Prelude.{
  ℕ, ◌-◌, ◌≡◌, Bool, true, false, not, ◌&&◌, ◌||◌, Option, none, some, List, [], ◌∷◌, if◌then◌else◌,
  ◌==◌, ltb, replicate,
}
use esp32_nut_bluetti.Prelude.Text.{Bytes, codes, bytes_eq}
use esp32_nut_bluetti.Portal.Forms.{form_get}
use esp32_nut_bluetti.Portal.Cookies.{cookie_token, tok_eq}
use esp32_nut_bluetti.Portal.Sessions.{
  WebSession, no_session, session_idle_us, hex_text, is_free, holds, auth_ok, h_login, h_logout,
}

abbrev pub member : Bytes → List Bytes → Bool
member tok [] = false
member tok (i ∷ issued) = bytes_eq i tok || member tok issued

-- A token that `tok_eq` takes for one of these.
abbrev pub matches : Bytes → List Bytes → Bool
matches tok [] = false
matches tok (i ∷ issued) = tok_eq i tok || matches tok issued

-- The tokens without those that `tok` is taken for.
abbrev pub revoke : Bytes → List Bytes → List Bytes
revoke tok [] = []
revoke tok (i ∷ issued) = let rest = revoke tok issued in if tok_eq i tok then rest else i ∷ rest

-- A session that is used now has been used in the last eight hours.
abbrev pub is_live : ℕ → Bytes → List WebSession → Bool
is_live now tok [] = false
is_live now tok (s ∷ sessions) =
    (holds tok s && not (ltb session_idle_us (now - s.last_us))) || is_live now tok sessions

abbrev is_known : List Bytes → WebSession → Bool
is_known issued s = is_free s || member s.tok issued

-- Each session that is not free holds one of the tokens.
abbrev pub AreKnown : List Bytes → List WebSession → Type 0
AreKnown issued [] = Unit
AreKnown issued (s ∷ sessions) = (is_known issued s ≡ true) × AreKnown issued sessions

-- What a browser can do.
pub data Visit : Type 0 where
  -- sign in, with the length of the body that it announces, the body, the time and the random bytes
  sign_in : ℕ → Option Bytes → ℕ → Bytes → Visit
  sign_out : Option Bytes → Visit
  -- a request that needs a session
  request : Option Bytes → ℕ → Visit

-- The sessions, and the tokens given to browsers that told the user and the password and have not signed
-- out since.
pub record Portal : Type 0 where
  pub sessions : List WebSession
  pub issued : List Bytes

-- No browser is signed in.
abbrev pub boot : Portal
boot = record { sessions = replicate 4 no_session; issued = [] }

module _ (check : Bytes → Bool) (user : Bytes) where
  -- The credentials of a sign-in.
  abbrev pub credentials : ℕ → Option Bytes → Bool
  credentials content_len none = false
  credentials content_len (some body) =
      not (content_len == 0 || ltb 512 content_len)
      && (bytes_eq (form_get body (codes "user") 40).0 user
          && check (form_get body (codes "pass") 80).0)

  abbrev given : Bool → Bytes → List Bytes → List Bytes
  given true tok issued = tok ∷ issued
  given false tok issued = issued

  abbrev taken_back : Option Bytes → List Bytes → List Bytes
  taken_back none issued = issued
  taken_back (some tok) issued = revoke tok issued

  unfoldable pub visit : Portal → Visit → Portal
  visit p (sign_in content_len received now raw) = record {
    sessions = (h_login check user p.sessions now raw content_len received).0;
    issued = given (credentials content_len received) (hex_text raw) p.issued;
  }
  visit p (sign_out cookie) = record {
    sessions = (h_logout p.sessions cookie).0;
    issued = taken_back (cookie_token cookie) p.issued;
  }
  visit p (request cookie now) = record p { sessions = (auth_ok p.sessions true now cookie).0 }

  unfoldable pub visits : Portal → List Visit → Portal
  visits p [] = p
  visits p (v ∷ more) = visits (visit p v) more

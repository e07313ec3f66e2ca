-- ===== src/BtSession/Handshake.antt =====
-- The messages of the key exchange (bt_session.c).
pub mod Frames
pub mod Kept
use Prim.Native.Nat.{bit_xor}
use esp32_nut_bluetti.Prelude.{
  ℕ, ◌+◌, ◌-◌, ◌%◌, ◌^◌, Bool, true, false, not, ◌&&◌, ◌||◌, Option, none, some, List, [], ◌∷◌,
  ◌++◌, if◌then◌else◌, ◌==◌, ltb, length, take, drop, get_or, is_some,
}
use esp32_nut_bluetti.Prelude.Text.{Bytes, bytes_eq}
use esp32_nut_bluetti.BtCrypto.{Crypto, p256_publen}
use esp32_nut_bluetti.BtSession.State.{
  SessState, challenge, pubkey, ready, Session, rx_max, tx, keypair_new, sign_l1, session_fail,
}
use esp32_nut_bluetti.BtSession.Wire.{build_kex, kex_body, kex_sum_ok}
use esp32_nut_bluetti.BtSession.Cipher.{wrap_fixed}

-- `LOCAL_AES_KEY`
abbrev pub local_aes_key : Bytes
local_aes_key =
    0x45 ∷ 0x9F ∷ 0xC5 ∷ 0x35 ∷ 0x80 ∷ 0x89 ∷ 0x41 ∷ 0xF1 ∷ 0x70 ∷ 0x91 ∷ 0xE0 ∷ 0x99 ∷ 0x3E ∷ 0xE3
    ∷ 0xE9 ∷ 0x3D ∷ []

-- The loop over the sixteen bytes of the first key.
abbrev pub xor_bytes : Bytes → Bytes → Bytes
xor_bytes [] key = []
xor_bytes (a ∷ iv) [] = []
xor_bytes (a ∷ iv) (b ∷ key) = bit_xor a b ∷ xor_bytes iv key

-- The state behind a call of `tx`.
abbrev pub enter : SessState → Session × Bool → Session
enter st (s, true) = record s { state = st }
enter st (s, false) = session_fail s

abbrev pub send_answer : Session → Option Bytes → Session
send_answer s none = session_fail s
send_answer s (some reply) = enter challenge (tx s reply)

-- The IV, MD5 of the four bytes reversed.
abbrev pub challenge_iv : Crypto → Bytes → Bytes
challenge_iv c msg = c.md5 (get_or msg 3 0 ∷ get_or msg 2 0 ∷ get_or msg 1 0 ∷ get_or msg 0 0 ∷ [])

abbrev pub challenge_keyed : Crypto → Session → Bytes → Session
challenge_keyed c s msg = record s {
  unsecure_iv = challenge_iv c msg;
  unsecure_key = xor_bytes (challenge_iv c msg) local_aes_key;
  have_unsecure = true;
}

-- `on_challenge`. The reply of ten bytes fits its frame of sixteen.
unfoldable pub on_challenge : Crypto → Session → Bytes → ℕ → Session
unfolding build_kex
on_challenge c s msg len =
    let frame = build_kex (2 ∷ 4 ∷ take 4 (drop 8 (challenge_iv c msg))) 16 in
    if not (len == 4) then session_fail s else send_answer (challenge_keyed c s msg) frame

-- The reply is sent, and kept for a repeat.
abbrev pub send_reply : Session → Option Bytes → Session
send_reply s none = session_fail s
send_reply s (some reply) = enter pubkey (tx (record s { pubkey_reply = reply }) reply)

abbrev pub wrap_reply : Crypto → Session → Option Bytes → Session
wrap_reply c s none = session_fail s
wrap_reply c s (some frame) = send_reply s (wrap_fixed c s.unsecure_key s.unsecure_iv frame rx_max)

-- The rest of `on_peer_pubkey` behind the signature of our key.
abbrev pub reply_signed : Crypto → Bytes → Session × Option Bytes → Session
reply_signed c my_pub (s, none) = session_fail s
reply_signed c my_pub (s, some sig) =
    wrap_reply c s (build_kex (5 ∷ 0x80 ∷ (my_pub ++ sig)) (2 + p256_publen + 64 + 4))

-- The rest behind the export of our key.
abbrev pub reply_public : Crypto → Session → Option Bytes → Session
reply_public c s none = session_fail s
reply_public c s (some my_pub) = reply_signed c my_pub (sign_l1 s)

-- The rest behind the key pair: one that is there, or a new one.
abbrev pub reply_with : Crypto → Session → Option ℕ → Session
reply_with c s none = session_fail s
reply_with c s (some d) = reply_public c (record s { kp = some d }) (c.keypair_public d)

abbrev pub with_keypair : Crypto → Session → Option ℕ → Session
with_keypair c s (some d) = reply_with c s (some d)
with_keypair c s none = let (s', made) = keypair_new s in reply_with c s' made

-- The device asks again with the key that it sent before.
abbrev pub is_repeat : Session → Bytes → Bool
is_repeat s msg =
    is_some s.kp && (not (length s.pubkey_reply == 0) && bytes_eq s.peer_pub (take p256_publen msg))

-- `on_peer_pubkey`
unfoldable pub on_peer_pubkey : Crypto → Session → Bytes → ℕ → Session
unfolding build_kex wrap_fixed
on_peer_pubkey c s msg len =
    let key = take p256_publen msg in
    let sig = take 64 (drop p256_publen msg) in
    let accepted = with_keypair c (record s { peer_pub = key }) s.kp in
    if not (len == 128)
    then session_fail s
    else if is_repeat s msg
    then (tx s s.pubkey_reply).0
    else if not (c.verify_k2 (key ++ s.unsecure_iv) sig)
    then session_fail s
    else accepted

abbrev pub use_shared : Session → Option Bytes → Session
use_shared s none = session_fail s
use_shared s (some key) = record s { secure_key = key; have_secure = true; state = ready }

-- With no key pair yet, `bt_ecdh_shared` follows a null pointer.
abbrev pub agree : Crypto → Session → Option ℕ → Session
agree c s none = record s { fault = true }
agree c s (some d) = use_shared s (c.ecdh_shared d s.peer_pub)

-- `on_pubkey_accepted`
unfoldable pub on_pubkey_accepted : Crypto → Session → Bytes → ℕ → Session
on_pubkey_accepted c s msg len =
    if not (len == 1) || not (get_or msg 0 0 == 0) then session_fail s else agree c s s.kp

-- The switch on the message type.
unfoldable pub dispatch_kex : Crypto → Session → ℕ → Bytes → ℕ → Session
unfolding on_challenge on_peer_pubkey on_pubkey_accepted
dispatch_kex c s type msg len =
    if type == 1
    then on_challenge c s msg len
    else if type == 4
    then on_peer_pubkey c s msg len
    else if type == 6
    then on_pubkey_accepted c s msg len
    else s

-- `handle_kex`. `data_len` wraps round where the body has one byte only.
unfoldable pub handle_kex : Crypto → Session → Bytes → Session
unfolding dispatch_kex kex_sum_ok
handle_kex c s frame =
    let body = kex_body frame in
    let done =
      dispatch_kex c s (get_or body 0 0) (drop 4 frame) ((length body + 2 ^ 32 - 2) % 2 ^ 32) in
    if ltb (length frame) 5 then s else if not (kex_sum_ok frame) then s else done

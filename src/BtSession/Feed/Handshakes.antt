-- ===== src/BtSession/Feed/Handshakes.antt =====
-- A handshake that goes well leads to a secure session (bt_session.c).
use mathlib.Core.List.{append_assoc}
use esp32_nut_bluetti.Prelude.{
  ℕ, ◌+◌, ◌-◌, ◌%◌, ◌^◌, ◌≡◌, ◌<◌, ◌≤◌, refl, ◌∙◌, ap, sym, Bool, true, false, Option, none, some,
  List, [], ◌∷◌, ◌++◌, arith, length, take, drop, length-append, length-take, take-append,
  drop-append,
}
use esp32_nut_bluetti.Prelude.Text.{Bytes, bytes_eq_refl}
use esp32_nut_bluetti.BtCrypto.{Crypto}
use esp32_nut_bluetti.BtSession.State.{
  challenge, pubkey, Session, Env, rx_max, tx, keypair_new, sign_l1, session_new, session_ready,
}
use esp32_nut_bluetti.BtSession.Wire.{kex_magic, hexsum, build_kex, is_kex}
use esp32_nut_bluetti.BtSession.Cipher.{wrap_fixed}
use esp32_nut_bluetti.BtSession.Wire.{be16}
use esp32_nut_bluetti.BtSession.Cipher.RoundTrip.{Inverts, wrap-Inverts}
use esp32_nut_bluetti.BtSession.Handshake.{
  local_aes_key, xor_bytes, on_challenge, on_peer_pubkey, on_pubkey_accepted, dispatch_kex,
  handle_kex, enter, send_answer, send_reply, wrap_reply, reply_signed, reply_public, with_keypair,
  use_shared, challenge_keyed,
}
use esp32_nut_bluetti.BtSession.Handshake.Frames.{message, handle_kex-hexsum}
use esp32_nut_bluetti.BtSession.Feed.{feed}

-- The frame of a body.
abbrev pub framed : Bytes → Bytes
framed body = kex_magic ∷ kex_magic ∷ (body ++ hexsum body)

feed-is_kex :
    (c : Crypto) (s : Session) (bytes : Bytes)
    → s.plain ≡ false
    → s.have_secure ≡ false
    → is_kex bytes ≡ true
    → feed c s bytes ≡ handle_kex c s bytes
unfolding feed
feed-is_kex c s bytes plain insecure kex = simp (plain, insecure, kex)

feed-framed :
    (c : Crypto) (s : Session) (body : Bytes)
    → s.plain ≡ false
    → s.have_secure ≡ false
    → 0 < length body
    → feed c s (framed body) ≡ message c s (framed body) body
feed-framed c s body plain insecure some_body =
    let kex : is_kex (framed body) ≡ true = ground arith in
    feed-is_kex c s (framed body) plain insecure kex
    ∙ handle_kex-hexsum c s body body some_body
    ∙ rw (bytes_eq_refl (hexsum body)) refl

build_kex-framed :
    (body : Bytes) (out_sz : ℕ)
    → length body + 4 ≤ out_sz
    → build_kex body out_sz ≡ some (framed body)
unfolding build_kex
build_kex-framed body out_sz fits = ground arith

-- The three messages of the device.
abbrev pub challenge_body : ℕ → ℕ → ℕ → ℕ → Bytes
challenge_body a b d e = 1 ∷ 4 ∷ a ∷ b ∷ d ∷ e ∷ []

abbrev pub key_body : Bytes → Bytes → Bytes
key_body key sig = 4 ∷ 128 ∷ (key ++ sig)

abbrev pub accepted_body : Bytes
accepted_body = 6 ∷ 1 ∷ 0 ∷ []

-- The IV of a challenge, and the key that belongs to it.
abbrev pub iv_of : Crypto → ℕ → ℕ → ℕ → ℕ → Bytes
iv_of c a b d e = c.md5 (e ∷ d ∷ b ∷ a ∷ [])

-- The surroundings of a handshake that goes well.
abbrev pub lucky : List Bool → List (Option ℕ) → List (Option Bytes) → List Bytes → ℕ → Bytes → Env
lucky txs keys sigs seeds priv own = record {
  tx_results = true ∷ true ∷ txs;
  keypairs = some priv ∷ keys;
  signatures = some own ∷ sigs;
  seeds = seeds;
}

challenged :
    (c : Crypto) (s : Session) (a b d e : ℕ) (txs : List Bool)
    → s.plain ≡ false
    → s.have_secure ≡ false
    → s.env.tx_results ≡ true ∷ txs
    → feed c s (framed (challenge_body a b d e))
      ≡ enter challenge (
          tx
            (challenge_keyed c s (a ∷ b ∷ d ∷ e ∷ hexsum (challenge_body a b d e)))
            (framed (2 ∷ 4 ∷ take 4 (drop 8 (iv_of c a b d e)))))
unfolding dispatch_kex on_challenge
challenged c s a b d e txs plain insecure sent =
    let reply = 2 ∷ 4 ∷ take 4 (drop 8 (iv_of c a b d e)) in
    let fits : length reply + 4 ≤ 16 = omega (arith, length-take 4 (drop 8 (iv_of c a b d e))) in
    feed-framed c s (challenge_body a b d e) plain insecure (omega arith)
    ∙ ap (send_answer (challenge_keyed c s (a ∷ b ∷ d ∷ e ∷ hexsum (challenge_body a b d e))))
        (build_kex-framed reply 16 fits)

keyed_msg : (key sig : Bytes) → Bytes
keyed_msg key sig = (key ++ sig) ++ hexsum (key_body key sig)

take-keyed : (key sig : Bytes) → length key ≡ 64 → take 64 (keyed_msg key sig) ≡ key
unfolding keyed_msg
take-keyed key sig size =
    ap (take 64) (append_assoc key sig (hexsum (key_body key sig)))
    ∙ ap (λ n. take n (key ++ (sig ++ hexsum (key_body key sig)))) (sym size)
    ∙ take-append key (sig ++ hexsum (key_body key sig))

take-drop-keyed :
    (key sig : Bytes)
    → length key ≡ 64
    → length sig ≡ 64
    → take 64 (drop 64 (keyed_msg key sig)) ≡ sig
unfolding keyed_msg
take-drop-keyed key sig size size' =
    ap (λ l. take 64 (drop 64 l)) (append_assoc key sig (hexsum (key_body key sig)))
    ∙ ap (λ n. take 64 (drop n (key ++ (sig ++ hexsum (key_body key sig))))) (sym size)
    ∙ ap (take 64) (drop-append key (sig ++ hexsum (key_body key sig)))
    ∙ ap (λ n. take n (sig ++ hexsum (key_body key sig))) (sym size')
    ∙ take-append sig (hexsum (key_body key sig))

-- The key of the device is accepted, up to the signature of ours.
accepted_key :
    (c : Crypto) (s : Session) (key sig : Bytes)
    → s.plain ≡ false
    → s.have_secure ≡ false
    → s.kp ≡ none
    → length key ≡ 64
    → length sig ≡ 64
    → c.verify_k2 (key ++ s.unsecure_iv) sig ≡ true
    → feed c s (framed (key_body key sig)) ≡ with_keypair c (record s { peer_pub = key }) none
unfolding dispatch_kex on_peer_pubkey keyed_msg
accepted_key c s key sig plain insecure unpaired size size' signed =
    let total = length-append key sig in
    let len : (length (key_body key sig) + 2 ^ 32 - 2) % 2 ^ 32 ≡ 128 = omega arith in
    let k = take-keyed key sig size in
    let g = take-drop-keyed key sig size size' in
    feed-framed c s (key_body key sig) plain insecure (omega arith)
    ∙ simp (len, unpaired, k, g, signed)

length-hexsum : (body : Bytes) → length (hexsum body) ≡ 2
unfolding hexsum
length-hexsum body = refl

-- Our key and its signature are sent, and kept.
replied :
    (c : Crypto) (s : Session) (mine own : Bytes)
    → length mine ≡ 64
    → length own ≡ 64
    → Inverts c s.unsecure_key
    → (frame : Bytes) × (reply_signed c mine (s, some own)
        ≡ enter pubkey (tx (record s { pubkey_reply = frame }) frame))
unfolding wrap_fixed
replied c s mine own size size' inverts =
    let body = 5 ∷ 128 ∷ (mine ++ own) in
    let plain = framed body in
    let total = length-append mine own in
    let long = length-append body (hexsum body) in
    let fits : length body + 4 ≤ 134 = omega arith in
    let bytes : length plain ≡ 134 = omega (arith, length-hexsum body) in
    let (ct, sealed, same, opened) =
      wrap-Inverts c s.unsecure_key s.unsecure_iv (be16 (length plain)) plain rx_max inverts
        (omega arith) (omega arith) in
    (
      be16 (length plain) ++ ct,
      ap (wrap_reply c s) (build_kex-framed body 134 fits) ∙ ap (send_reply s) sealed,
    )

-- The session behind the three messages.
abbrev pub shaken : Crypto → Session → Bytes → Bytes → Bytes → Session
shaken c s asked key sig =
    feed c (feed c (feed c s (framed asked)) (framed (key_body key sig))) (framed accepted_body)

-- A new session that is sent a challenge, a key with a good signature over it and the IV of the
-- challenge, and an acceptance becomes ready with the secure key that our key pair shares with that
-- key, where the cipher can be undone with the first key and no call of the radio or of the
-- cryptography fails.
pub shaken-ready :
    (c : Crypto) (a b d e priv : ℕ) (key sig mine own shared : Bytes) (txs : List Bool)
    (keys : List (Option ℕ)) (sigs : List (Option Bytes)) (seeds : List Bytes)
    → length key ≡ 64
    → length sig ≡ 64
    → c.verify_k2 (key ++ iv_of c a b d e) sig ≡ true
    → c.keypair_public priv ≡ some mine
    → length mine ≡ 64
    → length own ≡ 64
    → Inverts c (xor_bytes (iv_of c a b d e) local_aes_key)
    → c.ecdh_shared priv key ≡ some shared
    → (session_ready (
          shaken c
            (session_new (lucky txs keys sigs seeds priv own))
            (challenge_body a b d e)
            key
            sig)
        ≡ true)
      × ((shaken c
            (session_new (lucky txs keys sigs seeds priv own))
            (challenge_body a b d e)
            key
            sig).secure_key
          ≡ shared)
unfolding tx keypair_new sign_l1 dispatch_kex on_pubkey_accepted
shaken-ready c a b d e priv key sig mine own shared txs keys sigs seeds key_64 sig_64 signed made
      mine_64 own_64 inverts agreed =
    let s0 = session_new (lucky txs keys sigs seeds priv own) in
    let s1 = enter challenge (
      tx (challenge_keyed c s0 (a ∷ b ∷ d ∷ e ∷ hexsum (challenge_body a b d e)))
        (framed (2 ∷ 4 ∷ take 4 (drop 8 (iv_of c a b d e))))) in
    let first : feed c s0 (framed (challenge_body a b d e)) ≡ s1 =
      challenged c s0 a b d e (true ∷ txs) refl refl refl in
    let paired : Session =
      (sign_l1 (record (keypair_new (record s1 { peer_pub = key })).0 { kp = some priv })).0 in
    let (frame, sent) = replied c paired mine own mine_64 own_64 inverts in
    let s3 = enter pubkey (tx (record paired { pubkey_reply = frame }) frame) in
    let second : feed c s1 (framed (key_body key sig)) ≡ s3 =
      accepted_key c s1 key sig refl refl refl key_64 sig_64 signed
      ∙ ap
          (reply_public c
            (record (keypair_new (record s1 { peer_pub = key })).0 { kp = some priv }))
          made
      ∙ sent in
    let third : feed c s3 (framed accepted_body) ≡ use_shared s3 (some shared) =
      feed-framed c s3 accepted_body refl refl (omega arith) ∙ ap (use_shared s3) agreed in
    let all : shaken c s0 (challenge_body a b d e) key sig ≡ use_shared s3 (some shared) =
      ap (λ s. feed c (feed c s (framed (key_body key sig))) (framed accepted_body)) first
      ∙ ap (λ s. feed c s (framed accepted_body)) second
      ∙ third in
    (ap session_ready all, ap (λ s. s.secure_key) all)

-- ===== src/BtSession/Handshake/Kept.antt =====
-- What every handler of the key exchange (bt_session.c) keeps, because the updates of the session that
-- handlers make keep it.
use esp32_nut_bluetti.Prelude.{
  ℕ, ◌+◌, ◌-◌, ◌%◌, ◌^◌, Bool, true, false, not, ◌||◌, Option, none, some, List, ◌∷◌, ◌++◌, ◌==◌,
  ltb, length, take, drop, get_or, if_ind,
}
use esp32_nut_bluetti.Prelude.Text.{Bytes}
use esp32_nut_bluetti.BtCrypto.{Crypto, p256_publen}
use esp32_nut_bluetti.BtSession.State.{
  challenge, pubkey, ready, failed, Call, Env, Session, rx_max, tx, keypair_new, sign_l1,
}
use esp32_nut_bluetti.BtSession.Wire.{build_kex, kex_body, kex_sum_ok}
use esp32_nut_bluetti.BtSession.Cipher.{wrap_fixed}
use esp32_nut_bluetti.BtSession.Handshake.{
  on_challenge, on_peer_pubkey, on_pubkey_accepted, dispatch_kex, handle_kex, enter, send_answer,
  send_reply, wrap_reply, reply_signed, reply_public, reply_with, with_keypair, use_shared, agree,
  is_repeat, challenge_iv, challenge_keyed,
}

-- The updates keep P.
pub record IsKept (c : Crypto) (P : Session → Type 0) : Type 0 where
  pub outside :
      (s : Session) (env : Env) (calls : List Call)
      → P s
      → P (record s { env = env; calls = calls })
  pub fails : (s : Session) → P s → P (record s { state = failed })
  pub answered : (s : Session) → P s → P (record s { state = challenge })
  pub replied : (s : Session) → P s → P (record s { state = pubkey })
  pub keyed : (s : Session) (msg : Bytes) → P s → P (challenge_keyed c s msg)
  pub peer : (s : Session) (key : Bytes) → P s → P (record s { peer_pub = key })
  pub pair : (s : Session) (d : ℕ) → P s → P (record s { kp = some d })
  pub reply : (s : Session) (bytes : Bytes) → P s → P (record s { pubkey_reply = bytes })
  pub shared :
      (s : Session) (key : Bytes)
      → P s
      → P (record s { secure_key = key; have_secure = true; state = ready })
  pub null : (s : Session) → P s → P (record s { fault = true })

module _ (c : Crypto) (P : Session → Type 0) (kept : IsKept c P) where
  tx-Kept : (s : Session) (frame : Bytes) → P s → P (tx s frame).0
  unfolding tx
  tx-Kept s frame h = kept.outside s _ _ h

  answer-Kept : (r : Session × Bool) → P r.0 → P (enter challenge r)
  answer-Kept (s, true) h = kept.answered s h
  answer-Kept (s, false) h = kept.fails s h

  enter-Kept : (r : Session × Bool) → P r.0 → P (enter pubkey r)
  enter-Kept (s, true) h = kept.replied s h
  enter-Kept (s, false) h = kept.fails s h

  send_answer-Kept : (s : Session) (f : Option Bytes) → P s → P (send_answer s f)
  send_answer-Kept s none h = kept.fails s h
  send_answer-Kept s (some reply) h = answer-Kept (tx s reply) (tx-Kept s reply h)

  send_reply-Kept : (s : Session) (f : Option Bytes) → P s → P (send_reply s f)
  send_reply-Kept s none h = kept.fails s h
  send_reply-Kept s (some reply) h =
      let s' : Session = record s { pubkey_reply = reply } in
      enter-Kept (tx s' reply) (tx-Kept s' reply (kept.reply s reply h))

  wrap_reply-Kept : (s : Session) (f : Option Bytes) → P s → P (wrap_reply c s f)
  wrap_reply-Kept s none h = kept.fails s h
  wrap_reply-Kept s (some frame) h =
      send_reply-Kept s (wrap_fixed c s.unsecure_key s.unsecure_iv frame rx_max) h

  reply_signed-Kept :
      (my_pub : Bytes) (r : Session × Option Bytes) → P r.0 → P (reply_signed c my_pub r)
  reply_signed-Kept my_pub (s, none) h = kept.fails s h
  reply_signed-Kept my_pub (s, some sig) h =
      wrap_reply-Kept s (build_kex (5 ∷ 0x80 ∷ (my_pub ++ sig)) (2 + p256_publen + 64 + 4)) h

  reply_public-Kept : (s : Session) (p : Option Bytes) → P s → P (reply_public c s p)
  unfolding sign_l1
  reply_public-Kept s none h = kept.fails s h
  reply_public-Kept s (some my_pub) h = reply_signed-Kept my_pub (sign_l1 s) (kept.outside s _ _ h)

  reply_with-Kept : (s : Session) (kp : Option ℕ) → P s → P (reply_with c s kp)
  reply_with-Kept s none h = kept.fails s h
  reply_with-Kept s (some d) h =
      reply_public-Kept (record s { kp = some d }) (c.keypair_public d) (kept.pair s d h)

  with_keypair-Kept : (s : Session) (kp : Option ℕ) → P s → P (with_keypair c s kp)
  unfolding keypair_new
  with_keypair-Kept s none h =
      reply_with-Kept (keypair_new s).0 (keypair_new s).1 (kept.outside s _ _ h)
  with_keypair-Kept s (some d) h = reply_with-Kept s (some d) h

  use_shared-Kept : (s : Session) (k : Option Bytes) → P s → P (use_shared s k)
  use_shared-Kept s none h = kept.fails s h
  use_shared-Kept s (some key) h = kept.shared s key h

  agree-Kept : (s : Session) (kp : Option ℕ) → P s → P (agree c s kp)
  agree-Kept s none h = kept.null s h
  agree-Kept s (some d) h = use_shared-Kept s (c.ecdh_shared d s.peer_pub) h

  on_challenge-Kept : (s : Session) (msg : Bytes) (len : ℕ) → P s → P (on_challenge c s msg len)
  unfolding on_challenge
  on_challenge-Kept s msg len h =
      if_ind P (not (len == 4)) _ _ (λ e. kept.fails s h)
        (λ e.
          send_answer-Kept (challenge_keyed c s msg)
            (build_kex (2 ∷ 4 ∷ take 4 (drop 8 (challenge_iv c msg))) 16) (kept.keyed s msg h))

  on_peer_pubkey-Kept : (s : Session) (msg : Bytes) (len : ℕ) → P s → P (on_peer_pubkey c s msg len)
  unfolding on_peer_pubkey
  on_peer_pubkey-Kept s msg len h =
      let key = take p256_publen msg in
      let sig = take 64 (drop p256_publen msg) in
      let s' : Session = record s { peer_pub = key } in
      if_ind P (not (len == 128)) _ _ (λ e. kept.fails s h)
        (λ e.
          if_ind P (is_repeat s msg) _ _ (λ e. tx-Kept s s.pubkey_reply h)
            (λ e.
              if_ind P (not (c.verify_k2 (key ++ s.unsecure_iv) sig)) _ _ (λ e. kept.fails s h)
                (λ e. with_keypair-Kept s' s.kp (kept.peer s key h))))

  on_pubkey_accepted-Kept :
      (s : Session) (msg : Bytes) (len : ℕ) → P s → P (on_pubkey_accepted c s msg len)
  unfolding on_pubkey_accepted
  on_pubkey_accepted-Kept s msg len h =
      if_ind P (not (len == 1) || not (get_or msg 0 0 == 0)) _ _ (λ e. kept.fails s h)
        (λ e. agree-Kept s s.kp h)

  dispatch_kex-Kept :
      (s : Session) (type : ℕ) (msg : Bytes) (len : ℕ) → P s → P (dispatch_kex c s type msg len)
  unfolding dispatch_kex
  dispatch_kex-Kept s type msg len h =
      if_ind P (type == 1) _ _ (λ e. on_challenge-Kept s msg len h)
        (λ e.
          if_ind P (type == 4) _ _ (λ e. on_peer_pubkey-Kept s msg len h)
            (λ e. if_ind P (type == 6) _ _ (λ e. on_pubkey_accepted-Kept s msg len h) (λ e. h)))

  pub handle_kex-Kept : (s : Session) (frame : Bytes) → P s → P (handle_kex c s frame)
  unfolding handle_kex
  handle_kex-Kept s frame h =
      let body = kex_body frame in
      if_ind P (ltb (length frame) 5) _ _ (λ e. h)
        (λ e.
          if_ind P (not (kex_sum_ok frame)) _ _ (λ e. h)
            (λ e.
              dispatch_kex-Kept s (get_or body 0 0) (drop 4 frame)
                ((length body + 2 ^ 32 - 2) % 2 ^ 32) h))

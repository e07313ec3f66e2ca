-- ===== src/BtSession/Trust.antt =====
-- Whom a session (bt_session.c) trusts: where its secure key can come from.
pub mod Exchange
use esp32_nut_bluetti.Prelude.{
  ℕ, zero, suc, ◌+◌, ◌-◌, ◌%◌, ◌^◌, ◌≡◌, ◌≢◌, refl, Bool, true, false, not, ◌&&◌, ◌||◌, Option,
  none, some, List, [], ◌∷◌, ◌++◌, if◌then◌else◌, ◌==◌, ltb, arith, length, take, drop, if_ind,
  is_some, ap, sym, ◌∙◌, get_or, inl, inr,
}
use esp32_nut_bluetti.Prelude.Text.{Bytes}
use esp32_nut_bluetti.BtCrypto.{Crypto, p256_publen}
use esp32_nut_bluetti.BtSession.State.{
  SessState, ready, is_idle, regs_call, Session, Env, rx_max, tx, keypair_new, sign_l1,
  session_fail, session_new, session_reset, use_plain, random_seed, session_ready,
}
use esp32_nut_bluetti.BtSession.Wire.{build_kex, kex_body, is_kex, kex_sum_ok}
use esp32_nut_bluetti.BtSession.Cipher.{wrap_fixed, wrap_seeded, aes_unwrap, framed_len}
use esp32_nut_bluetti.BtSession.Handshake.{
  on_challenge, on_peer_pubkey, on_pubkey_accepted, dispatch_kex, handle_kex, enter, send_answer,
  send_reply, wrap_reply, reply_signed, reply_public, reply_with, with_keypair, use_shared, agree,
  is_repeat, challenge_iv, challenge_keyed,
}
use esp32_nut_bluetti.BtSession.Modbus.{
  handle_modbus, modbus_crc_ok, exception, handle_write, handle_read, modbus_command, modbus_read,
  modbus_write, read_regs, write_reg, send_command, send_wrapped,
}
use esp32_nut_bluetti.BtSession.Feed.{
  feed, append_rx, drain_plain, drain_frames, dispatch, after_unwrap, plain_frame_len,
}
use esp32_nut_bluetti.BtSession.Trust.Exchange.{
  IsAuthentic, Holds, IsSound, call-IsSound, tx-IsSound, handle_kex-IsSound,
}

handle_write-IsSound :
    (c : Crypto) (made : List (Option ℕ)) (s : Session) (f : Bytes)
    → IsSound c made s
    → IsSound c made (handle_write s f)
unfolding handle_write
handle_write-IsSound c made s f h = call-IsSound c made s _ h

handle_read-IsSound :
    (c : Crypto) (made : List (Option ℕ)) (s : Session) (f : Bytes)
    → IsSound c made s
    → IsSound c made (handle_read s f)
unfolding handle_read
handle_read-IsSound c made s f h =
    let count = get_or f 2 0 in
    let call = regs_call s.pending_addr (take count (drop 3 f)) in
    let delivered : Session = record s { calls = s.calls ++ call ∷ [] } in
    let sound = call-IsSound c made s call h in
    if_ind (IsSound c made) (ltb (length f) (3 + count + 2)) s _ (λ n. h)
      (λ n.
        if_ind (IsSound c made) (not (modbus_crc_ok f (3 + count))) s delivered (λ o. h)
          (λ o. sound))

handle_modbus-IsSound :
    (c : Crypto) (made : List (Option ℕ)) (s : Session) (f : Bytes)
    → IsSound c made s
    → IsSound c made (handle_modbus s f)
unfolding handle_modbus
handle_modbus-IsSound c made s f h =
    let fn = get_or f 1 0 in
    let P = IsSound c made in
    if_ind P (ltb (length f) 5) s _ (λ e. h)
      (λ e.
        if_ind P (fn == modbus_write || fn == exception modbus_write) (handle_write s f) _
          (λ k. handle_write-IsSound c made s f h)
          (λ k.
            if_ind P (fn == exception modbus_read) s _ (λ l. h)
              (λ l.
                if_ind P (not (fn == modbus_read)) s (handle_read s f) (λ m. h)
                  (λ m. handle_read-IsSound c made s f h))))

dispatch-IsSound :
    (c : Crypto) (made : List (Option ℕ)) (s : Session) (plain : Bytes)
    → IsSound c made s
    → IsSound c made (dispatch c s plain)
dispatch-IsSound c made s plain h =
    if_ind (IsSound c made) (is_kex plain) (handle_kex c s plain) (handle_modbus s plain)
      (λ e. handle_kex-IsSound c made s plain h) (λ e. handle_modbus-IsSound c made s plain h)

drain_plain-IsSound :
    (c : Crypto) (made : List (Option ℕ)) (rounds : ℕ) (s : Session)
    → IsSound c made s
    → IsSound c made (drain_plain rounds s)
unfolding drain_plain
drain_plain-IsSound c made zero s h = h
drain_plain-IsSound c made (suc rounds) s h =
    let frame = plain_frame_len s.rx in
    if_ind (IsSound c made) (ltb (length s.rx) 3) _ _ (λ e. h)
      (λ e.
        if_ind (IsSound c made) (ltb (length s.rx) frame) _ _ (λ e. h)
          (λ e.
            drain_plain-IsSound c made rounds
              (record (handle_modbus s (take frame s.rx)) { rx = drop frame s.rx })
              (handle_modbus-IsSound c made s (take frame s.rx) h)))

after_unwrap-IsSound :
    (c : Crypto) (made : List (Option ℕ)) (s : Session) (need : ℕ) (more : Session → Session)
    (plain : Option Bytes)
    → ((s' : Session) → IsSound c made s' → IsSound c made (more s'))
    → IsSound c made s
    → IsSound c made (after_unwrap c s need more plain)
after_unwrap-IsSound c made s need more none step h = h
after_unwrap-IsSound c made s need more (some plain) step h =
    step (dispatch c (record s { rx = drop need s.rx }) plain)
      (dispatch-IsSound c made (record s { rx = drop need s.rx }) plain h)

drain_frames-IsSound :
    (c : Crypto) (made : List (Option ℕ)) (rounds : ℕ) (s : Session)
    → IsSound c made s
    → IsSound c made (drain_frames c rounds s)
unfolding drain_frames
drain_frames-IsSound c made zero s h = h
drain_frames-IsSound c made (suc rounds) s h =
    let need = framed_len s.have_secure s.rx in
    if_ind (IsSound c made) (need == 0 || ltb (length s.rx) need) _ _ (λ e. h)
      (λ e.
        after_unwrap-IsSound c made s need (drain_frames c rounds)
          (aes_unwrap c s (take need s.rx) rx_max) (drain_frames-IsSound c made rounds) h)

feed-IsSound :
    (c : Crypto) (made : List (Option ℕ)) (s : Session) (bytes : Bytes)
    → IsSound c made s
    → IsSound c made (feed c s bytes)
unfolding feed
feed-IsSound c made s bytes h =
    let full = ltb rx_max (length s.rx + length bytes) in
    let joined : Session = record s { rx = s.rx ++ bytes } in
    let size = length (s.rx ++ bytes) in
    if_ind (IsSound c made) s.plain _ _
      (λ e.
        if_ind (IsSound c made) full _ _ (λ e. h) (λ e. drain_plain-IsSound c made size joined h))
      (λ e.
        if_ind (IsSound c made) (not s.have_secure && is_kex bytes) _ _
          (λ e. handle_kex-IsSound c made s bytes h)
          (λ e.
            if_ind (IsSound c made) (not s.have_unsecure) _ _ (λ e. h)
              (λ e.
                if_ind (IsSound c made) full _ _ (λ e. h)
                  (λ e. drain_frames-IsSound c made size joined h))))

send_wrapped-IsSound :
    (c : Crypto) (made : List (Option ℕ)) (s : Session) (f : Option Bytes)
    → IsSound c made s
    → IsSound c made (send_wrapped s f).0
send_wrapped-IsSound c made s none h = h
send_wrapped-IsSound c made s (some frame) h = tx-IsSound c made s frame h

send_command-IsSound :
    (c : Crypto) (made : List (Option ℕ)) (s : Session) (cmd : Bytes)
    → IsSound c made s
    → IsSound c made (send_command c s cmd).0
unfolding send_command random_seed
send_command-IsSound c made s cmd h =
    let (s', seed) = random_seed s in
    if_ind (λ (r : Session × Bool). IsSound c made r.0) s.plain _ _ (λ e. tx-IsSound c made s cmd h)
      (λ e. send_wrapped-IsSound c made s' (wrap_seeded c s.secure_key seed cmd rx_max) h)

-- What the rest of the program does with a session.
pub data Op : Type 0 where
  feed_op : Bytes → Op
  read_op : ℕ → ℕ → Op
  write_op : ℕ → ℕ → Op
  plain_op : Op
  reset_op : Op

abbrev pub perform : Crypto → Session → Op → Session
perform c s (feed_op bytes) = feed c s bytes
perform c s (read_op addr count) = (read_regs c s addr count).0
perform c s (write_op addr value) = (write_reg c s addr value).0
perform c s plain_op = use_plain s
perform c s reset_op = session_reset s

unfoldable pub perform_all : Crypto → Session → List Op → Session
perform_all c s [] = s
perform_all c s (op ∷ ops) = perform_all c (perform c s op) ops

plain_kept :
    {c : Crypto} {made : List (Option ℕ)} (s : Session) (unused : Bool)
    → IsSound c made s
    → IsSound c made
        (elim unused [ true ↦ record s { plain = true; rx = []; state = ready } | false ↦ s ])
plain_kept s true h = h
plain_kept s false h = h

perform-IsSound :
    (c : Crypto) (made : List (Option ℕ)) (s : Session) (op : Op)
    → IsSound c made s
    → IsSound c made (perform c s op)
unfolding read_regs write_reg use_plain session_reset
perform-IsSound c made s (feed_op bytes) h = feed-IsSound c made s bytes h
perform-IsSound c made s (read_op addr count) h =
    if_ind (λ (r : Session × Bool). IsSound c made r.0) (not (session_ready s)) _ _ (λ e. h)
      (λ e.
        send_command-IsSound c made
          (record s { pending_addr = addr; pending_count = count; rx = [] })
          (modbus_command modbus_read addr count) h)
perform-IsSound c made s (write_op addr value) h =
    if_ind (λ (r : Session × Bool). IsSound c made r.0) (not (session_ready s)) _ _ (λ e. h)
      (λ e.
        send_command-IsSound c made (record s { pending_addr = addr; rx = [] })
          (modbus_command modbus_write addr value) h)
perform-IsSound c made s plain_op h = plain_kept s (is_idle s.state) h
perform-IsSound c made s reset_op h = record {
  to_come = h.to_come;
  pair = λ d e. absurd (cc);
  own_iv = h.own_iv;
  signed = λ there. absurd (there refl);
  secure = λ e. absurd (cc);
}

perform_all-IsSound :
    (c : Crypto) (made : List (Option ℕ)) (s : Session) (ops : List Op)
    → IsSound c made s
    → IsSound c made (perform_all c s ops)
unfolding perform_all
perform_all-IsSound c made s [] h = h
perform_all-IsSound c made s (op ∷ ops) h =
    perform_all-IsSound c made (perform c s op) ops (perform-IsSound c made s op h)

-- However a new session is used and whatever it is fed, a secure key that it holds is one that the key pair
-- of the session, one of those that were made for it, shares with a key over which a signature of the vendor
-- was checked together with an IV of the session: the digest of a challenge that the session has answered, or
-- the zeros that it has before the first challenge.
pub secure_key-IsAuthentic :
    (c : Crypto) (env : Env) (ops : List Op)
    → (perform_all c (session_new env) ops).have_secure ≡ true
    → IsAuthentic c env.keypairs
        (perform_all c (session_new env) ops).calls
        (perform_all c (session_new env) ops).kp
        (perform_all c (session_new env) ops).secure_key
secure_key-IsAuthentic c env ops have =
    (perform_all-IsSound c env.keypairs (session_new env) ops fresh).secure have
  where
    fresh : IsSound c env.keypairs (session_new env)
    fresh = record {
      to_come = λ x here. here;
      pair = λ d e. absurd (cc);
      own_iv = inl refl;
      signed = λ there. absurd (there refl);
      secure = λ e. absurd (cc);
    }

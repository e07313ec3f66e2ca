-- ===== src/BtSession/Tests.antt =====
-- A session (bt_session.c) with a toy cipher, driven through its handshake and a read.
use esp32_nut_bluetti.Prelude.{
  ◌+◌, ◌*◌, ◌≡◌, refl, true, false, some, List, [], ◌∷◌, ◌++◌, if◌then◌else◌, ◌==◌, arith, length,
  take, drop, replicate,
}
use esp32_nut_bluetti.Prelude.Text.{Bytes, bytes_eq}
use esp32_nut_bluetti.BtCrypto.{Crypto, crc16_modbus}
use esp32_nut_bluetti.BtSession.State.{
  Session, regs_call, ack_call, Env, rx_max, session_new, session_ready, tx, keypair_new, sign_l1,
}
use esp32_nut_bluetti.BtSession.Wire.{kex_magic, hexsum, build_kex}
use esp32_nut_bluetti.BtSession.Cipher.{wrap_seeded, framed_len, unwrap, aes_unwrap}
use esp32_nut_bluetti.BtSession.Cipher.RoundTrip.{Inverts, aes_unwrap-wrap_seeded}
use esp32_nut_bluetti.BtSession.Handshake.{local_aes_key, xor_bytes, handle_kex}
use esp32_nut_bluetti.BtSession.Handshake.Frames.{message, handle_kex-build_kex}
use esp32_nut_bluetti.BtSession.Modbus.{
  modbus_write, modbus_crc_ok, call_back, handle_read, handle_modbus, modbus_command,
}
use esp32_nut_bluetti.BtSession.Modbus.Answers.{
  checked, read_body, handle_modbus-read_body, write_body, handle_modbus-modbus_command,
}
use esp32_nut_bluetti.BtSession.Feed.{feed, drain_frames, drain_plain}
use esp32_nut_bluetti.BtSession.Feed.Frames.{opened, Framed, IsFramed, deliver}
use esp32_nut_bluetti.BtSession.Feed.Pieces.{feed_all, feed_all-deliver}
use esp32_nut_bluetti.BtSession.Feed.Rounds.{is_waiting, is_waiting_plain, drain-is_waiting}
use esp32_nut_bluetti.BtSession.Feed.Handshakes
use esp32_nut_bluetti.BtSession.Feed.Handshakes.{lucky, challenge_body, iv_of, shaken-ready}
use esp32_nut_bluetti.BtSession.Feed.Modes.{IsTidy, session_new-IsTidy}
use esp32_nut_bluetti.BtSession.Trust.Exchange.{IsAuthentic}
use esp32_nut_bluetti.BtSession.Trust.{Op, feed_op, perform_all, secure_key-IsAuthentic}

-- The cipher that changes nothing, and a signature that is always good.
abbrev toy : Crypto
toy = record {
  md5 = λ bytes. replicate 16 7;
  cbc_encrypt = λ key iv plain. some plain;
  cbc_decrypt = λ key iv ct. some ct;
  verify_k2 = λ signed sig. true;
  keypair_public = λ d. some (replicate 64 d);
  ecdh_shared = λ d peer. some (replicate 32 d);
}

abbrev toy_env : Env
toy_env = record {
  tx_results = true ∷ true ∷ true ∷ [];
  keypairs = some 5 ∷ [];
  signatures = some (replicate 64 9) ∷ [];
  seeds = (1 ∷ 2 ∷ 3 ∷ 4 ∷ []) ∷ [];
}

-- A plaintext frame of the key exchange.
kex : Bytes → Bytes
unfolding hexsum
kex body = kex_magic ∷ kex_magic ∷ (body ++ hexsum body)

-- The three messages of the device.
abbrev handshake : List Op
handshake =
    feed_op (kex (1 ∷ 4 ∷ 10 ∷ 20 ∷ 30 ∷ 40 ∷ []))
    ∷ feed_op (kex (4 ∷ 128 ∷ (replicate 64 3 ++ replicate 64 8)))
    ∷ feed_op (kex (6 ∷ 1 ∷ 0 ∷ []))
    ∷ []

abbrev shaken : Session
shaken = perform_all toy (session_new toy_env) handshake

handshake_test : session_ready shaken ≡ true
unfolding kex perform_all feed handle_kex bytes_eq tx keypair_new sign_l1
handshake_test = refl

secure_key-IsAuthentic_example :
    IsAuthentic toy toy_env.keypairs shaken.calls shaken.kp shaken.secure_key
unfolding kex perform_all feed handle_kex bytes_eq tx keypair_new sign_l1
secure_key-IsAuthentic_example = secure_key-IsAuthentic toy toy_env handshake refl

toy-Inverts : (key : Bytes) → Inverts toy key
toy-Inverts key iv plain whole = (plain, refl, refl, refl)

aes_unwrap-wrap_seeded_example :
    (frame : Bytes) × (wrap_seeded toy shaken.secure_key
        (1 ∷ 2 ∷ 3 ∷ 4 ∷ [])
        (1 ∷ 3 ∷ 2 ∷ [])
        rx_max
      ≡ some frame)
    × (aes_unwrap toy shaken frame rx_max ≡ some (1 ∷ 3 ∷ 2 ∷ []))
    × (framed_len true frame ≡ length frame)
unfolding kex perform_all feed handle_kex bytes_eq tx keypair_new sign_l1
aes_unwrap-wrap_seeded_example =
    aes_unwrap-wrap_seeded toy shaken (1 ∷ 2 ∷ 3 ∷ 4 ∷ []) (1 ∷ 3 ∷ 2 ∷ [])
      (toy-Inverts shaken.secure_key) refl refl (omega arith)

handle_kex-build_kex_example :
    (handle_kex toy (session_new toy_env) (kex (1 ∷ 4 ∷ 10 ∷ 20 ∷ 30 ∷ 40 ∷ []))
      ≡ message toy
          (session_new toy_env)
          (kex (1 ∷ 4 ∷ 10 ∷ 20 ∷ 30 ∷ 40 ∷ []))
          (1 ∷ 4 ∷ 10 ∷ 20 ∷ 30 ∷ 40 ∷ []))
    × (handle_kex toy (session_new toy_env) (
          kex_magic
          ∷ kex_magic
          ∷ ((1 ∷ 4 ∷ 11 ∷ 20 ∷ 30 ∷ 40 ∷ []) ++ hexsum (1 ∷ 4 ∷ 10 ∷ 20 ∷ 30 ∷ 40 ∷ [])))
        ≡ session_new toy_env)
unfolding kex build_kex
handle_kex-build_kex_example =
    handle_kex-build_kex toy (session_new toy_env) (1 ∷ 4 ∷ []) (20 ∷ 30 ∷ 40 ∷ []) 10 11 64
      (kex (1 ∷ 4 ∷ 10 ∷ 20 ∷ 30 ∷ 40 ∷ [])) refl (omega arith) (omega arith) (omega arith)

abbrev idle_session : Session
idle_session = session_new toy_env

handle_modbus-read_body_example :
    (handle_modbus idle_session (checked (read_body 1 (0 ∷ 55 ∷ [])) 1 2) ≡ (
      if crc16_modbus (read_body 1 (0 ∷ 55 ∷ [])) == 1 + 2 * 256
      then call_back idle_session (regs_call 0 (0 ∷ 55 ∷ []))
      else idle_session))
    × (handle_modbus idle_session (take 6 (checked (read_body 1 (0 ∷ 55 ∷ [])) 1 2)) ≡ idle_session)
handle_modbus-read_body_example =
    handle_modbus-read_body idle_session 1 (0 ∷ 55 ∷ []) 1 2 6 (omega arith)

-- The checksum of this answer is 249 ∷ 146 ∷ [].
handle_modbus-read_body_test :
    (handle_modbus idle_session (checked (read_body 1 (0 ∷ 55 ∷ [])) 249 146)).calls
    ≡ regs_call 0 (0 ∷ 55 ∷ []) ∷ []
unfolding handle_modbus handle_read modbus_crc_ok crc16_modbus
handle_modbus-read_body_test = refl

handle_modbus-modbus_command_example :
    (handle_modbus idle_session (modbus_command modbus_write 2011 1)
      ≡ call_back idle_session (ack_call 2011 1 true))
    × (handle_modbus idle_session (checked (write_body 2011 1) 0 0)
        ≡ call_back idle_session (ack_call 0 0 false))
unfolding crc16_modbus
handle_modbus-modbus_command_example =
    handle_modbus-modbus_command idle_session 2011 1 0 0 (omega arith)

-- An AES frame of the toy cipher around a short Modbus message.
abbrev toy_frame : Framed
toy_frame = record {
  frame = (0 ∷ 5 ∷ 1 ∷ 2 ∷ 3 ∷ 4 ∷ []) ++ ((1 ∷ 6 ∷ 7 ∷ 8 ∷ 9 ∷ []) ++ replicate 11 0);
  msg = 1 ∷ 6 ∷ 7 ∷ 8 ∷ 9 ∷ [];
}

toy_frame-IsFramed : IsFramed toy shaken.secure_key 22 toy_frame
unfolding framed_len unwrap opened
toy_frame-IsFramed = record {
  whole = refl;
  header = omega arith;
  short = omega arith;
  opens = refl;
  modbus = refl;
}

feed_all-deliver_example :
    feed_all toy shaken (take 10 toy_frame.frame ∷ (drop 10 toy_frame.frame ++ 0 ∷ []) ∷ [])
    ≡ record (deliver shaken (toy_frame ∷ [])) { rx = 0 ∷ [] }
unfolding kex perform_all feed handle_kex bytes_eq tx keypair_new sign_l1 framed_len
feed_all-deliver_example =
    feed_all-deliver toy 22 (take 10 toy_frame.frame ∷ (drop 10 toy_frame.frame ++ 0 ∷ []) ∷ [])
      shaken (toy_frame ∷ []) (0 ∷ []) (refl, refl, refl) refl (omega arith)
      (omega arith, (omega arith, tt)) (toy_frame-IsFramed, tt) (omega arith, refl) refl

drain-is_waiting_example :
    (drain_frames toy 30 (record shaken { rx = toy_frame.frame })
      ≡ drain_frames toy 22 (record shaken { rx = toy_frame.frame }))
    × (is_waiting (drain_frames toy 30 (record shaken { rx = toy_frame.frame })) ≡ true)
    × (drain_plain 30 (record shaken { rx = toy_frame.frame })
        ≡ drain_plain 22 (record shaken { rx = toy_frame.frame }))
    × (is_waiting_plain (drain_plain 30 (record shaken { rx = toy_frame.frame })) ≡ true)
drain-is_waiting_example =
    drain-is_waiting toy 30 (record shaken { rx = toy_frame.frame }) (omega arith)

session_new-IsTidy_example : IsTidy shaken
session_new-IsTidy_example = session_new-IsTidy toy toy_env handshake

abbrev well_shaken : Session
well_shaken =
    Handshakes.shaken toy (session_new (lucky [] [] [] [] 5 (replicate 64 9)))
      (challenge_body 10 20 30 40) (replicate 64 3) (replicate 64 8)

shaken-ready_example :
    (session_ready well_shaken ≡ true) × (well_shaken.secure_key ≡ replicate 32 5)
shaken-ready_example =
    shaken-ready toy 10 20 30 40 5 (replicate 64 3) (replicate 64 8) (replicate 64 5)
      (replicate 64 9) (replicate 32 5) [] [] [] [] refl refl refl refl refl refl
      (toy-Inverts (xor_bytes (iv_of toy 10 20 30 40) local_aes_key)) refl

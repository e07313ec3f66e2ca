-- ===== src/BtSession/Feed/Modes.antt =====
-- The modes of a session (bt_session.c) exclude each other, and its buffer holds what it can.
use esp32_nut_bluetti.Prelude.{
  ℕ, zero, suc, ◌+◌, ◌≡◌, ◌≤◌, refl, Bool, true, false, not, ◌&&◌, ◌||◌, Option, none, some, List,
  [], ◌∷◌, ◌++◌, ◌==◌, ltb, arith, length, take, drop, length-drop, length-append, if_ind,
}
use esp32_nut_bluetti.Prelude.Text.{Bytes}
use esp32_nut_bluetti.BtCrypto.{Crypto}
use esp32_nut_bluetti.BtSession.State.{
  Session, Env, rx_max, tx, is_idle, is_ready, session_new, session_reset, use_plain, random_seed,
  session_ready,
}
use esp32_nut_bluetti.BtSession.Wire.{is_kex}
use esp32_nut_bluetti.BtSession.Cipher.{wrap_seeded, framed_len, aes_unwrap}
use esp32_nut_bluetti.BtSession.Handshake.{handle_kex}
use esp32_nut_bluetti.BtSession.Handshake.Kept.{IsKept, handle_kex-Kept}
use esp32_nut_bluetti.BtSession.Modbus.{
  handle_modbus, handle_write, handle_read, modbus_command, modbus_read, modbus_write, read_regs,
  write_reg, send_command, send_wrapped,
}
use esp32_nut_bluetti.BtSession.Feed.{
  feed, drain_plain, drain_frames, dispatch, after_unwrap, plain_frame_len,
}
use esp32_nut_bluetti.BtSession.Trust.{
  Op, feed_op, read_op, write_op, plain_op, reset_op, perform, perform_all,
}

-- A session in plain mode is ready with no secure key, one that has done nothing has none either, and
-- the buffer is no longer than its array.
abbrev pub IsTidy : Session → Type 0
IsTidy s =
    (s.plain ≡ true → (is_ready s.state ≡ true) × (s.have_secure ≡ false))
    × (is_idle s.state ≡ true → s.have_secure ≡ false)
    × (length s.rx ≤ rx_max)

-- A session that is not in plain mode.
IsCoded : ℕ → Session → Type 0
IsCoded n s =
    (s.plain ≡ false) × (is_idle s.state ≡ true → s.have_secure ≡ false) × (length s.rx ≤ n)

IsCoded-IsKept : (c : Crypto) (n : ℕ) → IsKept c (IsCoded n)
unfolding IsCoded
IsCoded-IsKept c n = record {
  outside = λ s env calls h. h;
  fails = λ s h. (h.0, (λ e. cc), h.2);
  answered = λ s h. (h.0, (λ e. cc), h.2);
  replied = λ s h. (h.0, (λ e. cc), h.2);
  keyed = λ s msg h. h;
  peer = λ s key h. h;
  pair = λ s d h. h;
  reply = λ s bytes h. h;
  shared = λ s key h. (h.0, (λ e. cc), h.2);
  null = λ s h. h;
}

handle_modbus-IsCoded :
    (n : ℕ) (s : Session) (f : Bytes) → IsCoded n s → IsCoded n (handle_modbus s f)
unfolding IsCoded handle_modbus handle_write handle_read
handle_modbus-IsCoded n s f h = ground arith

dispatch-IsCoded :
    (c : Crypto) (n : ℕ) (s : Session) (plain : Bytes)
    → IsCoded n s
    → IsCoded n (dispatch c s plain)
dispatch-IsCoded c n s plain h =
    if_ind (IsCoded n) (is_kex plain) (handle_kex c s plain) (handle_modbus s plain)
      (λ e. handle_kex-Kept c (IsCoded n) (IsCoded-IsKept c n) s plain h)
      (λ e. handle_modbus-IsCoded n s plain h)

drop-IsCoded :
    (n need : ℕ) (s : Session) → IsCoded n s → IsCoded n (record s { rx = drop need s.rx })
unfolding IsCoded
drop-IsCoded n need s h = (h.0, h.1, (let k = h.2 in omega (arith, length-drop need s.rx)))

after_unwrap-IsCoded :
    (c : Crypto) (n need : ℕ) (s : Session) (more : Session → Session) (plain : Option Bytes)
    → ((s' : Session) → IsCoded n s' → IsCoded n (more s'))
    → IsCoded n s
    → IsCoded n (after_unwrap c s need more plain)
unfolding IsCoded
after_unwrap-IsCoded c n need s more none step h = (h.0, h.1, omega arith)
after_unwrap-IsCoded c n need s more (some plain) step h =
    let taken : Session = record s { rx = drop need s.rx } in
    step (dispatch c taken plain) (dispatch-IsCoded c n taken plain (drop-IsCoded n need s h))

drain_frames-IsCoded :
    (c : Crypto) (n rounds : ℕ) (s : Session) → IsCoded n s → IsCoded n (drain_frames c rounds s)
unfolding drain_frames
drain_frames-IsCoded c n zero s h = h
drain_frames-IsCoded c n (suc rounds) s h =
    let need = framed_len s.have_secure s.rx in
    if_ind (IsCoded n) (need == 0 || ltb (length s.rx) need) _ _ (λ e. h)
      (λ e.
        after_unwrap-IsCoded c n need s (drain_frames c rounds)
          (aes_unwrap c s (take need s.rx) rx_max) (drain_frames-IsCoded c n rounds) h)

handle_modbus-IsTidy : (s : Session) (f : Bytes) → IsTidy s → IsTidy (handle_modbus s f)
unfolding handle_modbus handle_write handle_read
handle_modbus-IsTidy s f h = ground arith

drain_plain-IsTidy : (rounds : ℕ) (s : Session) → IsTidy s → IsTidy (drain_plain rounds s)
unfolding drain_plain
drain_plain-IsTidy zero s h = h
drain_plain-IsTidy (suc rounds) s h =
    let frame = plain_frame_len s.rx in
    let handled = handle_modbus s (take frame s.rx) in
    let tidy = handle_modbus-IsTidy s (take frame s.rx) h in
    let short = h.2 in
    if_ind IsTidy (ltb (length s.rx) 3) _ _ (λ e. h)
      (λ e.
        if_ind IsTidy (ltb (length s.rx) frame) _ _ (λ e. h)
          (λ e.
            drain_plain-IsTidy rounds (record handled { rx = drop frame s.rx })
              (tidy.0, tidy.1, omega (arith, length-drop frame s.rx))))

IsCoded-IsTidy : (s : Session) → IsCoded rx_max s → IsTidy s
unfolding IsCoded
IsCoded-IsTidy s h = ((λ e. absurd (let k = h.0 in cc)), h.1, h.2)

IsTidy-IsCoded : (s : Session) → s.plain ≡ false → IsTidy s → IsCoded rx_max s
unfolding IsCoded
IsTidy-IsCoded s e h = (e, h.1, h.2)

feed-IsTidy : (c : Crypto) (s : Session) (bytes : Bytes) → IsTidy s → IsTidy (feed c s bytes)
unfolding feed
feed-IsTidy c s bytes h =
    let full = ltb rx_max (length s.rx + length bytes) in
    let joined : Session = record s { rx = s.rx ++ bytes } in
    let size = length (s.rx ++ bytes) in
    let fits : full ≡ false → length (s.rx ++ bytes) ≤ rx_max =
      λ e. ground (arith, e, length-append s.rx bytes) in
    if_ind IsTidy s.plain _ _
      (λ p.
        if_ind IsTidy full _ _ (λ e. (h.0, h.1, omega arith))
          (λ e. drain_plain-IsTidy size joined (h.0, h.1, fits e)))
      (λ p.
        if_ind IsTidy (not s.have_secure && is_kex bytes) _ _
          (λ e. IsCoded-IsTidy (handle_kex c s bytes) (
            handle_kex-Kept c (IsCoded rx_max) (IsCoded-IsKept c rx_max) s bytes
              (IsTidy-IsCoded s p h)))
          (λ e.
            if_ind IsTidy (not s.have_unsecure) _ _ (λ e. h)
              (λ e.
                if_ind IsTidy full _ _ (λ e. (h.0, h.1, omega arith))
                  (λ e. IsCoded-IsTidy (drain_frames c size joined) (
                    drain_frames-IsCoded c rx_max size joined
                      (IsTidy-IsCoded joined p (h.0, h.1, fits e)))))))

send_wrapped-IsTidy : (s : Session) (f : Option Bytes) → IsTidy s → IsTidy (send_wrapped s f).0
unfolding tx
send_wrapped-IsTidy s none h = h
send_wrapped-IsTidy s (some frame) h = h

send_command-IsTidy :
    (c : Crypto) (s : Session) (cmd : Bytes) → IsTidy s → IsTidy (send_command c s cmd).0
unfolding send_command random_seed tx
send_command-IsTidy c s cmd h =
    let (s', seed) = random_seed s in
    if_ind (λ (r : Session × Bool). IsTidy r.0) s.plain _ _ (λ e. h)
      (λ e. send_wrapped-IsTidy s' (wrap_seeded c s.secure_key seed cmd rx_max) h)

perform-IsTidy : (c : Crypto) (s : Session) (op : Op) → IsTidy s → IsTidy (perform c s op)
unfolding read_regs write_reg use_plain session_reset
perform-IsTidy c s (feed_op bytes) h = feed-IsTidy c s bytes h
perform-IsTidy c s (read_op addr count) h =
    if_ind (λ (r : Session × Bool). IsTidy r.0) (not (session_ready s)) _ _ (λ e. h)
      (λ e.
        send_command-IsTidy c (record s { pending_addr = addr; pending_count = count; rx = [] })
          (modbus_command modbus_read addr count) (h.0, h.1, omega arith))
perform-IsTidy c s (write_op addr value) h =
    if_ind (λ (r : Session × Bool). IsTidy r.0) (not (session_ready s)) _ _ (λ e. h)
      (λ e.
        send_command-IsTidy c (record s { pending_addr = addr; rx = [] })
          (modbus_command modbus_write addr value) (h.0, h.1, omega arith))
perform-IsTidy c s plain_op h = ground arith
perform-IsTidy c s reset_op h = ground arith

perform_all-IsTidy :
    (c : Crypto) (s : Session) (ops : List Op) → IsTidy s → IsTidy (perform_all c s ops)
unfolding perform_all
perform_all-IsTidy c s [] h = h
perform_all-IsTidy c s (op ∷ ops) h =
    perform_all-IsTidy c (perform c s op) ops (perform-IsTidy c s op h)

-- However a new session is used and whatever it is fed: plain mode is ready and has no secure key, a
-- session that waits for a challenge has no secure key, and the buffer holds no more than its 512 bytes.
pub session_new-IsTidy :
    (c : Crypto) (env : Env) (ops : List Op) → IsTidy (perform_all c (session_new env) ops)
session_new-IsTidy c env ops =
    perform_all-IsTidy c (session_new env) ops ((λ e. cc), (λ e. refl), omega arith)

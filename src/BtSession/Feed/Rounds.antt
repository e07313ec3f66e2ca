-- ===== src/BtSession/Feed/Rounds.antt =====
-- The loops of `bt_session_feed` (bt_session.c) end: the rounds that the model gives them are enough.
use esp32_nut_bluetti.Prelude.{
  ℕ, zero, suc, ◌≡◌, ◌≤◌, refl, ap, Bool, true, ◌||◌, Option, none, some, if◌then◌else◌, ◌==◌, ltb,
  arith, length, take, drop, length-drop, if_ind, Bool-cases, inl, inr,
}
use esp32_nut_bluetti.Prelude.Text.{Bytes}
use esp32_nut_bluetti.BtCrypto.{Crypto}
use esp32_nut_bluetti.BtSession.State.{Session, rx_max}
use esp32_nut_bluetti.BtSession.Wire.{is_kex}
use esp32_nut_bluetti.BtSession.Cipher.{framed_len, aes_unwrap}
use esp32_nut_bluetti.BtSession.Handshake.{handle_kex}
use esp32_nut_bluetti.BtSession.Handshake.Kept.{IsKept, handle_kex-Kept}
use esp32_nut_bluetti.BtSession.Modbus.{handle_modbus, handle_write, handle_read}
use esp32_nut_bluetti.BtSession.Feed.{
  drain_plain, drain_frames, dispatch, after_unwrap, plain_frame_len,
}

-- Handlers leave the buffer alone.
rx-IsKept : (c : Crypto) (rx : Bytes) → IsKept c (λ s. s.rx ≡ rx)
rx-IsKept c rx = record {
  outside = λ s env calls h. h;
  fails = λ s h. h;
  answered = λ s h. h;
  replied = λ s h. h;
  keyed = λ s msg h. h;
  peer = λ s key h. h;
  pair = λ s d h. h;
  reply = λ s bytes h. h;
  shared = λ s key h. h;
  null = λ s h. h;
}

pub handle_modbus-rx : (s : Session) (f : Bytes) → (handle_modbus s f).rx ≡ s.rx
unfolding handle_modbus handle_write handle_read
handle_modbus-rx s f = ground arith

pub dispatch-rx : (c : Crypto) (s : Session) (plain : Bytes) → (dispatch c s plain).rx ≡ s.rx
dispatch-rx c s plain =
    if_ind (λ (s' : Session). s'.rx ≡ s.rx) (is_kex plain) (handle_kex c s plain)
      (handle_modbus s plain)
      (λ e. handle_kex-Kept c (λ s'. s'.rx ≡ s.rx) (rx-IsKept c s.rx) s plain refl)
      (λ e. handle_modbus-rx s plain)

-- The buffer starts no whole frame: more bytes are needed for one.
abbrev pub is_waiting : Session → Bool
is_waiting s =
    framed_len s.have_secure s.rx == 0 || ltb (length s.rx) (framed_len s.have_secure s.rx)

abbrev pub is_waiting_plain : Session → Bool
is_waiting_plain s = ltb (length s.rx) 3 || ltb (length s.rx) (plain_frame_len s.rx)

after_unwrap-is_waiting :
    (c : Crypto) (n need : ℕ) (s : Session) (more : Session → Session) (plain : Option Bytes)
    → ((s' : Session) → length s'.rx ≤ n → is_waiting (more s') ≡ true)
    → length (drop need s.rx) ≤ n
    → is_waiting (after_unwrap c s need more plain) ≡ true
unfolding framed_len
after_unwrap-is_waiting c n need s more none ends short = ground arith
after_unwrap-is_waiting c n need s more (some plain) ends short =
    let taken : Session = record s { rx = drop need s.rx } in
    ends (dispatch c taken plain) (rw (dispatch-rx c taken plain) short)

drain_frames-is_waiting :
    (c : Crypto) (n : ℕ) (s : Session) → length s.rx ≤ n → is_waiting (drain_frames c n s) ≡ true
unfolding drain_frames framed_len
drain_frames-is_waiting c zero s short = ground arith
drain_frames-is_waiting c (suc n) s short =
    let need = framed_len s.have_secure s.rx in
    if_ind (λ s'. is_waiting s' ≡ true) (need == 0 || ltb (length s.rx) need) _ _ (λ e. e)
      (λ e.
        after_unwrap-is_waiting c n need s (drain_frames c n)
          (aes_unwrap c s (take need s.rx) rx_max) (drain_frames-is_waiting c n)
          (ground (arith, e, length-drop need s.rx)))

-- The next rounds are the same, or there are none.
after_unwrap-same :
    (c : Crypto) (n need : ℕ) (s : Session) (more more' : Session → Session) (plain : Option Bytes)
    → ((s' : Session) → length s'.rx ≤ n → more s' ≡ more' s')
    → length (drop need s.rx) ≤ n
    → after_unwrap c s need more plain ≡ after_unwrap c s need more' plain
after_unwrap-same c n need s more more' none same short = refl
after_unwrap-same c n need s more more' (some plain) same short =
    let taken : Session = record s { rx = drop need s.rx } in
    same (dispatch c taken plain) (rw (dispatch-rx c taken plain) short)

drain_frames-same :
    (c : Crypto) (n m : ℕ) (s : Session)
    → length s.rx ≤ n
    → length s.rx ≤ m
    → drain_frames c n s ≡ drain_frames c m s
unfolding drain_frames framed_len
drain_frames-same c zero zero s h k = refl
drain_frames-same c zero (suc m) s h k = ground arith
drain_frames-same c (suc n) zero s h k = ground arith
drain_frames-same c (suc n) (suc m) s h k =
    let need = framed_len s.have_secure s.rx in
    let stop = need == 0 || ltb (length s.rx) need in
    let plain = aes_unwrap c s (take need s.rx) rx_max in
    elim (Bool-cases stop) [
      | inl e ↦ simp (e)
      | inr e ↦
          ap (λ t. if stop then s else t)
            (after_unwrap-same c (length (drop need s.rx)) need s (drain_frames c n)
              (drain_frames c m) plain
              (λ s' short.
                drain_frames-same c n m s' (ground (arith, e, short, length-drop need s.rx))
                  (ground (arith, e, short, length-drop need s.rx)))
              (omega arith))
    ]

drain_plain-is_waiting :
    (n : ℕ) (s : Session) → length s.rx ≤ n → is_waiting_plain (drain_plain n s) ≡ true
unfolding drain_plain
drain_plain-is_waiting zero s short = ground arith
drain_plain-is_waiting (suc n) s short =
    let frame = plain_frame_len s.rx in
    let next : Session = record (handle_modbus s (take frame s.rx)) { rx = drop frame s.rx } in
    if_ind (λ s'. is_waiting_plain s' ≡ true) (ltb (length s.rx) 3) _ _ (λ e. simp (e))
      (λ e.
        if_ind (λ s'. is_waiting_plain s' ≡ true) (ltb (length s.rx) frame) _ _
          (λ k. ground (arith, e, k))
          (λ k. drain_plain-is_waiting n next (ground (arith, e, k, length-drop frame s.rx))))

drain_plain-same :
    (n m : ℕ) (s : Session) → length s.rx ≤ n → length s.rx ≤ m → drain_plain n s ≡ drain_plain m s
unfolding drain_plain
drain_plain-same zero zero s h k = refl
drain_plain-same zero (suc m) s h k = ground arith
drain_plain-same (suc n) zero s h k = ground arith
drain_plain-same (suc n) (suc m) s h k =
    let frame = plain_frame_len s.rx in
    let next : Session = record (handle_modbus s (take frame s.rx)) { rx = drop frame s.rx } in
    elim (Bool-cases (ltb (length s.rx) frame)) [
      | inl e ↦ simp (e)
      | inr e ↦
          ap (λ t. if ltb (length s.rx) 3 then s else if ltb (length s.rx) frame then s else t)
            (drain_plain-same n m next (ground (arith, e, length-drop frame s.rx))
              (ground (arith, e, length-drop frame s.rx)))
    ]

-- Both loops end within as many rounds as the buffer has bytes: with any number of rounds from there on
-- the result is the same, and the buffer that it leaves starts no whole frame.
pub drain-is_waiting :
    (c : Crypto) (n : ℕ) (s : Session)
    → length s.rx ≤ n
    → (drain_frames c n s ≡ drain_frames c (length s.rx) s)
      × (is_waiting (drain_frames c n s) ≡ true)
      × (drain_plain n s ≡ drain_plain (length s.rx) s)
      × (is_waiting_plain (drain_plain n s) ≡ true)
drain-is_waiting c n s enough = (
  drain_frames-same c n (length s.rx) s enough (omega arith),
  drain_frames-is_waiting c n s enough,
  drain_plain-same n (length s.rx) s enough (omega arith),
  drain_plain-is_waiting n s enough,
)

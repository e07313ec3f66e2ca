-- ===== src/BtSession/Feed.antt =====
-- `bt_session_feed` of bt_session.c: how notifications become frames.
pub mod Frames
pub mod Pieces
pub mod Rounds
pub mod Modes
pub mod Handshakes
use esp32_nut_bluetti.Prelude.{
  ℕ, zero, suc, ◌+◌, ◌-◌, ◌/◌, ◌%◌, Bool, true, false, not, ◌&&◌, ◌||◌, Option, none, some, List,
  [], ◌∷◌, ◌++◌, if◌then◌else◌, ◌==◌, ltb, length, take, drop, get_or,
}
use esp32_nut_bluetti.Prelude.Text.{Bytes}
use esp32_nut_bluetti.BtCrypto.{Crypto}
use esp32_nut_bluetti.BtSession.State.{Session, rx_max}
use esp32_nut_bluetti.BtSession.Wire.{is_kex}
use esp32_nut_bluetti.BtSession.Cipher.{framed_len, aes_unwrap}
use esp32_nut_bluetti.BtSession.Handshake.{handle_kex}
use esp32_nut_bluetti.BtSession.Modbus.{modbus_write, handle_modbus}

-- The length of the Modbus frame that the buffer starts.
abbrev pub plain_frame_len : Bytes → ℕ
plain_frame_len rx =
    let fn = get_or rx 1 0 in
    if fn == modbus_write then 8 else if fn / 128 % 2 == 1 then 5 else 3 + get_or rx 2 0 + 2

-- The loop of plain mode. The frame is handled before it is taken from the buffer. Each round takes at
-- least five bytes, so as many rounds as the buffer has bytes are enough.
unfoldable pub drain_plain : ℕ → Session → Session
drain_plain zero s = s
drain_plain (suc rounds) s =
    let frame = plain_frame_len s.rx in
    let handled = handle_modbus s (take frame s.rx) in
    let rest = drain_plain rounds (record handled { rx = drop frame s.rx }) in
    if ltb (length s.rx) 3 then s else if ltb (length s.rx) frame then s else rest

-- A decrypted frame.
abbrev pub dispatch : Crypto → Session → Bytes → Session
dispatch c s plain = if is_kex plain then handle_kex c s plain else handle_modbus s plain

-- What a round of the loop does behind the decryption; `more` is the next round.
abbrev pub after_unwrap : Crypto → Session → ℕ → (Session → Session) → Option Bytes → Session
after_unwrap c s need more none = record s { rx = [] }
after_unwrap c s need more (some plain) = more (dispatch c (record s { rx = drop need s.rx }) plain)

-- The loop over AES frames: each frame is taken from the buffer before it is handled. Each round takes
-- the frame's header at least, so as many rounds as the buffer has bytes are enough.
unfoldable pub drain_frames : Crypto → ℕ → Session → Session
unfolding aes_unwrap framed_len
drain_frames c zero s = s
drain_frames c (suc rounds) s =
    let need = framed_len s.have_secure s.rx in
    let rest =
      after_unwrap c s need (drain_frames c rounds) (aes_unwrap c s (take need s.rx) rx_max) in
    if need == 0 || ltb (length s.rx) need then s else rest

-- Bytes behind those in the buffer, where they fit; else the buffer is emptied.
abbrev pub append_rx : Session → Bytes → (Session → Session) → Session
append_rx s bytes then_ =
    if ltb rx_max (length s.rx + length bytes)
    then record s { rx = [] }
    else then_ (record s { rx = s.rx ++ bytes })

-- `bt_session_feed`
unfoldable pub feed : Crypto → Session → Bytes → Session
unfolding drain_plain drain_frames
feed c s bytes =
    let in_plain = append_rx s bytes (λ s'. drain_plain (length s'.rx) s') in
    let in_frames = append_rx s bytes (λ s'. drain_frames c (length s'.rx) s') in
    if s.plain
    then in_plain
    else if not s.have_secure && is_kex bytes
    then handle_kex c s bytes
    else if not s.have_unsecure
    then s
    else in_frames

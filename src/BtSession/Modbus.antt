-- ===== src/BtSession/Modbus.antt =====
-- Modbus over the session (bt_session.c): the requests, and the responses.
pub mod Answers
use esp32_nut_bluetti.Prelude.{
  ℕ, ◌+◌, ◌-◌, ◌*◌, ◌/◌, ◌%◌, Bool, true, false, not, ◌&&◌, ◌||◌, Option, none, some, List, [], ◌∷◌,
  ◌++◌, if◌then◌else◌, ◌==◌, ltb, leb, length, take, drop, get_or,
}
use esp32_nut_bluetti.Prelude.Text.{Bytes}
use esp32_nut_bluetti.BtCrypto.{Crypto, crc16_modbus}
use esp32_nut_bluetti.BtSession.State.{
  Session, Call, regs_call, ack_call, rx_max, tx, random_seed, session_ready,
}
use esp32_nut_bluetti.BtSession.Cipher.{wrap_seeded}

abbrev pub modbus_slave : ℕ
modbus_slave = 1

abbrev pub modbus_read : ℕ
modbus_read = 3

abbrev pub modbus_write : ℕ
modbus_write = 6

-- A function code with the bit of an exception.
abbrev pub exception : ℕ → ℕ
exception code = code + 0x80

abbrev pub be_word : Bytes → ℕ → ℕ
be_word f i = get_or f i 0 * 256 + get_or f (i + 1) 0

-- `modbus_crc_ok`
unfoldable pub modbus_crc_ok : Bytes → ℕ → Bool
modbus_crc_ok f n = crc16_modbus (take n f) == get_or f n 0 + get_or f (n + 1) 0 * 256

abbrev pub call_back : Session → Call → Session
call_back s c = record s { calls = s.calls ++ c ∷ [] }

-- The echo of a write, or its rejection.
unfoldable pub handle_write : Session → Bytes → Session
unfolding modbus_crc_ok
handle_write s f =
    let ok = get_or f 1 0 == modbus_write && (leb 8 (length f) && modbus_crc_ok f 6) in
    call_back s
      (ack_call (if ok then be_word f 2 else s.pending_addr) (if ok then be_word f 4 else 0) ok)

-- The registers of a read.
unfoldable pub handle_read : Session → Bytes → Session
unfolding modbus_crc_ok
handle_read s f =
    let count = get_or f 2 0 in
    let delivered = call_back s (regs_call s.pending_addr (take count (drop 3 f))) in
    if ltb (length f) (3 + count + 2)
    then s
    else if not (modbus_crc_ok f (3 + count))
    then s
    else delivered

-- `handle_modbus`, where both callbacks are set.
unfoldable pub handle_modbus : Session → Bytes → Session
unfolding handle_write handle_read
handle_modbus s f =
    let fn = get_or f 1 0 in
    if ltb (length f) 5
    then s
    else if fn == modbus_write || fn == exception modbus_write
    then handle_write s f
    else if fn == exception modbus_read
    then s
    else if not (fn == modbus_read)
    then s
    else handle_read s f

-- The eight bytes of a request.
unfoldable pub modbus_command : ℕ → ℕ → ℕ → Bytes
modbus_command fn addr value =
    let cmd =
      modbus_slave ∷ fn ∷ (addr / 256) ∷ (addr % 256) ∷ (value / 256) ∷ (value % 256) ∷ [] in
    let crc = crc16_modbus cmd in cmd ++ (crc % 256) ∷ (crc / 256) ∷ []

abbrev pub send_wrapped : Session → Option Bytes → Session × Bool
send_wrapped s none = (s, false)
send_wrapped s (some frame) = tx s frame

-- A request is sent as it is in plain mode, and in an AES frame with a new seed else.
unfoldable pub send_command : Crypto → Session → Bytes → Session × Bool
unfolding wrap_seeded
send_command c s cmd =
    let (s', seed) = random_seed s in
    let sealed = send_wrapped s' (wrap_seeded c s.secure_key seed cmd rx_max) in
    if s.plain then tx s cmd else sealed

-- `bt_session_read_regs`, with whether it returned 0.
unfoldable pub read_regs : Crypto → Session → ℕ → ℕ → Session × Bool
unfolding modbus_command send_command
read_regs c s addr count =
    let asked : Session = record s { pending_addr = addr; pending_count = count; rx = [] } in
    if not (session_ready s)
    then (s, false)
    else send_command c asked (modbus_command modbus_read addr count)

-- `bt_session_write_reg`
unfoldable pub write_reg : Crypto → Session → ℕ → ℕ → Session × Bool
unfolding modbus_command send_command
write_reg c s addr value =
    let asked : Session = record s { pending_addr = addr; rx = [] } in
    if not (session_ready s)
    then (s, false)
    else send_command c asked (modbus_command modbus_write addr value)

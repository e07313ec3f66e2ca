-- ===== src/BtSession/Modbus/Answers.antt =====
-- What a session (bt_session.c) makes of the answers to its requests, and that its requests are such
-- frames themselves.
use esp32_nut_bluetti.Prelude.{
  ℕ, suc, ◌+◌, ◌*◌, ◌/◌, ◌%◌, ◌≡◌, ◌≢◌, ◌<◌, ◌≤◌, refl, ◌∙◌, ap, sym, true, false, [], ◌∷◌, ◌++◌,
  if◌then◌else◌, ◌==◌, ltb, arith, length, take, get_or, length-append, take-append, if_not,
  length-take, get_or-take, Bool-cases, inl, inr,
}
use esp32_nut_bluetti.Prelude.Text.{Bytes}
use esp32_nut_bluetti.BtCrypto.{crc16_modbus}
use esp32_nut_bluetti.BtSession.State.{Session, regs_call, ack_call}
use esp32_nut_bluetti.BtSession.Modbus.{
  modbus_slave, modbus_read, modbus_write, modbus_crc_ok, call_back, handle_write, handle_read,
  handle_modbus, modbus_command,
}

-- A text with two bytes of checksum behind it.
abbrev pub checked : Bytes → ℕ → ℕ → Bytes
checked body lo hi = body ++ lo ∷ hi ∷ []

get_or-checked :
    (body : Bytes) (lo hi : ℕ)
    → (get_or (checked body lo hi) (length body) 0 ≡ lo)
      × (get_or (checked body lo hi) (length body + 1) 0 ≡ hi)
get_or-checked [] lo hi = (refl, refl)
get_or-checked (x ∷ body) lo hi =
    let (l, h) = get_or-checked body lo hi in
    let next : suc (length body) + 1 ≡ suc (length body + 1) = omega arith in
    (l, ap (λ i. get_or (x ∷ checked body lo hi) i 0) next ∙ h)

-- The check compares the two bytes with the checksum of the text in front of them.
modbus_crc_ok-checked :
    (body : Bytes) (lo hi : ℕ)
    → modbus_crc_ok (checked body lo hi) (length body) ≡ (crc16_modbus body == lo + hi * 256)
unfolding modbus_crc_ok
modbus_crc_ok-checked body lo hi =
    let (l, h) = get_or-checked body lo hi in simp (take-append body (lo ∷ hi ∷ []), l, h)

-- The answer to a read, by any slave, in front of its checksum.
abbrev pub read_body : ℕ → Bytes → Bytes
read_body id regs = id ∷ modbus_read ∷ length regs ∷ regs

handle_modbus-read :
    (s : Session) (f : Bytes)
    → get_or f 1 0 ≡ modbus_read
    → 5 ≤ length f
    → handle_modbus s f ≡ handle_read s f
unfolding handle_modbus
handle_modbus-read s f is_read long = ground arith

handle_read-checked :
    (s : Session) (id : ℕ) (regs : Bytes) (lo hi : ℕ)
    → handle_read s (checked (read_body id regs) lo hi) ≡ (
        if crc16_modbus (read_body id regs) == lo + hi * 256
        then call_back s (regs_call s.pending_addr regs)
        else s)
unfolding handle_read
handle_read-checked s id regs lo hi =
    let f = checked (read_body id regs) lo hi in
    let same : suc (suc (suc (length regs))) ≡ 3 + length regs = omega arith in
    let crc : modbus_crc_ok f (3 + length regs)
        ≡ (crc16_modbus (read_body id regs) == lo + hi * 256) =
      ap (modbus_crc_ok f) (sym same) ∙ modbus_crc_ok-checked (read_body id regs) lo hi in
    let whole : ltb (length f) (3 + length regs + 2) ≡ false =
      ground (arith, length-append regs (lo ∷ hi ∷ [])) in
    rw (whole, crc, take-append regs (lo ∷ hi ∷ []))
      (if_not (crc16_modbus (read_body id regs) == lo + hi * 256) s
        (call_back s (regs_call s.pending_addr regs)))

-- A part of an answer that lacks some of its end.
handle_modbus-take :
    (s : Session) (id : ℕ) (regs : Bytes) (lo hi n : ℕ)
    → n < length (checked (read_body id regs) lo hi)
    → handle_modbus s (take n (checked (read_body id regs) lo hi)) ≡ s
unfolding handle_modbus handle_read
handle_modbus-take s id regs lo hi n less =
    let f = checked (read_body id regs) lo hi in
    let size = length-append regs (lo ∷ hi ∷ []) in
    let cut = length-take n f in
    let fn : 3 ≤ n → get_or (take n f) 1 0 ≡ modbus_read = λ h. get_or-take f n 1 0 (omega arith) in
    let count : 3 ≤ n → get_or (take n f) 2 0 ≡ length regs =
      λ h. get_or-take f n 2 0 (omega arith) in
    elim (Bool-cases (ltb n 5)) [
      | inl e ↦ ground (arith, cut, size, e)
      | inr e ↦ ground (arith, cut, size, e, fn (ground (arith, e)), count (ground (arith, e)))
    ]

-- The answer of a read, by any slave, is handed over with the address that was asked for, exactly if its
-- checksum is the one of the bytes in front of it; of an answer that is cut off, nothing is handed over.
pub handle_modbus-read_body :
    (s : Session) (id : ℕ) (regs : Bytes) (lo hi n : ℕ)
    → n < length (checked (read_body id regs) lo hi)
    → (handle_modbus s (checked (read_body id regs) lo hi) ≡ (
        if crc16_modbus (read_body id regs) == lo + hi * 256
        then call_back s (regs_call s.pending_addr regs)
        else s))
      × (handle_modbus s (take n (checked (read_body id regs) lo hi)) ≡ s)
handle_modbus-read_body s id regs lo hi n less =
    let size = length-append regs (lo ∷ hi ∷ []) in
    (
      handle_modbus-read s (checked (read_body id regs) lo hi) refl (omega (arith, size))
          ∙ handle_read-checked s id regs lo hi,
      handle_modbus-take s id regs lo hi n less,
    )

-- The bytes of a write request in front of the checksum.
abbrev pub write_body : ℕ → ℕ → Bytes
write_body addr value =
    modbus_slave ∷ modbus_write ∷ (addr / 256) ∷ (addr % 256) ∷ (value / 256) ∷ (value % 256) ∷ []

handle_write-checked :
    (s : Session) (addr value lo hi : ℕ)
    → handle_modbus s (checked (write_body addr value) lo hi)
      ≡ call_back s (
          if crc16_modbus (write_body addr value) == lo + hi * 256
          then ack_call addr value true
          else ack_call s.pending_addr 0 false)
unfolding handle_modbus handle_write
handle_write-checked s addr value lo hi =
    let crc = modbus_crc_ok-checked (write_body addr value) lo hi in
    let a : addr / 256 * 256 + addr % 256 ≡ addr = omega arith in
    let v : value / 256 * 256 + value % 256 ≡ value = omega arith in
    elim (Bool-cases (crc16_modbus (write_body addr value) == lo + hi * 256)) [
      | inl e ↦ simp (crc, e, a, v)
      | inr e ↦ simp (crc, e)
    ]

modbus_command-checked :
    (addr value : ℕ)
    → modbus_command modbus_write addr value
      ≡ checked
          (write_body addr value)
          (crc16_modbus (write_body addr value) % 256)
          (crc16_modbus (write_body addr value) / 256)
unfolding modbus_command
modbus_command-checked addr value = refl

-- A write request that the device echoes is acknowledged with the address and the value that were
-- asked for; with another checksum behind it, a failed write of the pending address is reported.
pub handle_modbus-modbus_command :
    (s : Session) (addr value lo hi : ℕ)
    → lo + hi * 256 ≢ crc16_modbus (write_body addr value)
    → (handle_modbus s (modbus_command modbus_write addr value)
        ≡ call_back s (ack_call addr value true))
      × (handle_modbus s (checked (write_body addr value) lo hi)
          ≡ call_back s (ack_call s.pending_addr 0 false))
handle_modbus-modbus_command s addr value lo hi other =
    let crc = crc16_modbus (write_body addr value) in
    let own : (crc == crc % 256 + crc / 256 * 256) ≡ true = ground arith in
    let unequal : (crc == lo + hi * 256) ≡ false = ground (arith, other) in
    (
      ap (handle_modbus s) (modbus_command-checked addr value)
          ∙ handle_write-checked s addr value (crc % 256) (crc / 256)
          ∙ rw own refl,
      handle_write-checked s addr value lo hi ∙ rw unequal refl,
    )

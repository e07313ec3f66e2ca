-- ===== src/BtLink/Writes.antt =====
-- The queue of control writes (`bluetti_ble_write_control` of bluetti_ble.c).
pub mod Queue
use esp32_nut_bluetti.Prelude.{
  ℕ, ◌+◌, ◌-◌, ◌%◌, Bool, true, false, not, ◌&&◌, ◌||◌, Option, none, some, List, [], ◌∷◌, ◌++◌,
  if◌then◌else◌, ◌==◌, ltb, leb, length, is_some,
}
use esp32_nut_bluetti.Prelude.Int.{ℤ, pos, negsuc}
use esp32_nut_bluetti.Prelude.Text.{Bytes}
use esp32_nut_bluetti.BtSession.State.{session_ready}
use esp32_nut_bluetti.BtRegs.Devices.{Device, has}
use esp32_nut_bluetti.BtRegs.Controls.{Control, control_lookup, control_valid}
use esp32_nut_bluetti.BtRegs.Apply.{control_current}
use esp32_nut_bluetti.BtLink.State.{Write, Link}

abbrev pub queue_max : ℕ
queue_max = 16

-- `(uint16_t)value`
abbrev pub u16 : ℤ → ℕ
u16 (pos n) = n % 65536
u16 (negsuc n) = (65535 - n % 65536) % 65536

abbrev pub is_queued : List Write → ℕ → Bool
is_queued [] reg = false
is_queued (w ∷ queue) reg = w.reg == reg || is_queued queue reg

-- The first element for the register gets the new value.
abbrev pub replace : List Write → Write → List Write
replace [] new = []
replace (w ∷ queue) new = if w.reg == new.reg then new ∷ queue else w ∷ replace queue new

-- The queue behind a write, with whether there was room.
unfoldable pub enqueue : List Write → Write → List Write × Bool
enqueue queue new =
    if is_queued queue new.reg
    then (replace queue new, true)
    else if leb queue_max (length queue)
    then (queue, false)
    else (queue ++ new ∷ [], true)

abbrev pub has_control : Option Device → Control → Bool
has_control none c = false
has_control (some dev) c = has dev.controls c.bit

-- The tests in front of the queue, for a control that was found. A check of a value that does not end
-- refuses it.
abbrev pub may_write : Link → Control → ℤ → Bool
may_write l c value =
    elim (control_valid (some c) value) [ none ↦ false | some ok ↦ ok ]
    && (l.controls
        && (l.connected
            && session_ready l.session
            && (has_control l.device c && is_some (control_current (some c) (some l.state)))))

abbrev pub write_found : Link → ℤ → Option Control → Link × Bool
write_found l value none = (l, false)
write_found l value (some c) =
    let (queue, ok) = enqueue l.write_queue (record { reg = c.reg; val = u16 value }) in
    if may_write l c value then (record l { write_queue = queue }, ok) else (l, false)

-- `bluetti_ble_write_control`, with whether it returned 0.
unfoldable pub write_control : Link → Option Bytes → ℤ → Link × Bool
unfolding enqueue
write_control l field value = write_found l value (control_lookup field)

-- ===== src/Notify/Status.antt =====
-- `notify_ups_status` (components/notify/notify.c): the events it sees in a sequence of UPS statuses, and
-- the messages they raise. One call reads the clock once here; the source reads it for each message.
pub mod Alerts
use esp32_nut_bluetti.Prelude.{
  ℕ, suc, ◌/◌, Bool, true, false, not, ◌&&◌, ◌||◌, Option, none, some, List, [], ◌∷◌, ◌++◌,
  if◌then◌else◌, ◌==◌, ltb, ◌-◌, length,
}
use esp32_nut_bluetti.Prelude.Int.{ℤ, pos, negsuc, minus_one, ltb_ℤ, ◌-ℤ◌}
use esp32_nut_bluetti.Prelude.Text.{Bytes, codes, decimal, fit}
use esp32_nut_bluetti.Notify.State.{
  NotifyConfig, PowerState, pwr_unknown, pwr_line, pwr_battery, pwr_offline, same_power, Notifier,
  msg_max, repeat_guard_us, notify_send,
}

abbrev is_prefix : Bytes → Bytes → Bool
is_prefix [] text = true
is_prefix (a ∷ part) [] = false
is_prefix (a ∷ part) (b ∷ text) = a == b && is_prefix part text

-- `strstr(text, part) != NULL`
unfoldable pub contains : Bytes → Bytes → Bool
contains part [] = is_prefix part []
contains part (b ∷ text) = is_prefix part (b ∷ text) || contains part text

-- `guard_allows`
unfoldable pub guard_allows : Notifier → PowerState → ℕ → Notifier × Bool
guard_allows n s now =
    if same_power s n.last_event_state && ltb (now - n.last_event_us) repeat_guard_us
    then (n, false)
    else (record n { last_event_state = s; last_event_us = now }, true)

-- The state that a status tells, where it tells one.
unfoldable pub power_of : Bytes → Option PowerState
unfolding contains
power_of status =
    if contains (codes "WAIT") status
    then none
    else if is_prefix (codes "OFF") status
    then some pwr_offline
    else if contains (codes "OB") status
    then some pwr_battery
    else if contains (codes "OL") status
    then some pwr_line
    else none

-- `%d`
unfoldable pub signed : ℤ → Bytes
signed (pos n) = decimal n
signed (negsuc n) = codes "-" ++ decimal (suc n)

-- The characters of the texts that are not ASCII, in UTF-8.
abbrev pub bolt : Bytes
bolt = 0xE2 ∷ 0x9A ∷ 0xA1 ∷ []

abbrev pub check_mark : Bytes
check_mark = 0xE2 ∷ 0x9C ∷ 0x85 ∷ []

abbrev pub warning_sign : Bytes
warning_sign = 0xE2 ∷ 0x9A ∷ 0xA0 ∷ 0xEF ∷ 0xB8 ∷ 0x8F ∷ []

abbrev pub red_circle : Bytes
red_circle = 0xF0 ∷ 0x9F ∷ 0x94 ∷ 0xB4 ∷ []

abbrev pub battery_sign : Bytes
battery_sign = 0xF0 ∷ 0x9F ∷ 0x94 ∷ 0x8B ∷ []

abbrev pub em_dash : Bytes
em_dash = 0xE2 ∷ 0x80 ∷ 0x94 ∷ []

-- " N%, about M min left.", or " N%." where the runtime is not known.
abbrev with_charge : Bytes → ℤ → ℤ → Bytes → Bytes
with_charge lead soc minutes unit =
    lead
    ++ (signed soc
        ++ (unit
            ++ (if ltb_ℤ (pos 0) minutes
                then codes ", about " ++ (signed minutes ++ codes " min left.")
                else codes ".")))

unfoldable pub lost_text : ℤ → ℤ → Bytes
lost_text soc minutes =
    let lead = bolt ++ (codes " Mains lost " ++ (em_dash ++ codes " running on battery. ")) in
    fit msg_max (with_charge lead soc minutes (codes "% charge"))

unfoldable pub restored_text : ℤ → Bytes
restored_text soc =
    fit msg_max (check_mark ++ (codes " Mains restored. " ++ (signed soc ++ codes "% charge.")))

unfoldable pub back_on_battery_text : Bytes
back_on_battery_text =
    check_mark ++ (codes " BLUETTI unit is back " ++ (em_dash ++ codes " on battery."))

unfoldable pub back_text : Bytes
back_text = check_mark ++ codes " BLUETTI unit is back."

unfoldable pub contact_lost_text : Bytes
contact_lost_text =
    warning_sign
    ++ (codes " Lost contact with the BLUETTI unit "
        ++ (em_dash ++ codes " UPS status is unknown."))

unfoldable pub low_text : ℤ → ℤ → Bytes
low_text soc minutes =
    let low = with_charge (red_circle ++ codes " Battery low: ") soc minutes (codes "%") in
    fit msg_max (low ++ codes " Shut things down.")

unfoldable pub no_longer_low_text : Bytes
no_longer_low_text = battery_sign ++ codes " Battery no longer low."

unfoldable pub reminder_text : ℤ → ℤ → Bytes
reminder_text soc minutes =
    let lead = battery_sign ++ codes " Still on battery: " in
    fit msg_max (with_charge lead soc minutes (codes "% charge"))

-- The `switch` over the new state.
unfoldable pub power_text : NotifyConfig → PowerState → PowerState → ℤ → ℤ → Option Bytes
power_text cfg was pwr_battery soc minutes =
    if same_power was pwr_line && cfg.on_power
    then some (lost_text soc minutes)
    else if same_power was pwr_offline && cfg.on_link
    then some back_on_battery_text
    else none
power_text cfg was pwr_line soc minutes =
    if same_power was pwr_battery && cfg.on_power
    then some (restored_text soc)
    else if same_power was pwr_offline && cfg.on_link
    then some back_text
    else none
power_text cfg was pwr_offline soc minutes = if cfg.on_link then some contact_lost_text else none
power_text cfg was pwr_unknown soc minutes = none

abbrev pub send_opt : Notifier → ℕ → Option Bytes → Notifier
send_opt n now none = n
send_opt n now (some text) = (notify_send n now text).0

-- The mains transition.
unfoldable pub power_event : Notifier → ℕ → PowerState → ℤ → ℤ → Notifier
power_event n now state soc minutes =
    let (guarded, allowed) = guard_allows n state now in
    if not (same_power state n.power) && not (same_power n.power pwr_unknown)
    then if allowed
      then send_opt guarded now (power_text n.cfg n.power state soc minutes)
      else guarded
    else n

-- The edges of the low battery.
unfoldable pub low_event : Notifier → ℕ → PowerState → Bool → ℤ → ℤ → Notifier
low_event n now state low soc minutes =
    let fell = send_opt n now (some (low_text soc minutes)) in
    let rose = send_opt n now (some no_longer_low_text) in
    if low && not n.low_batt && n.cfg.on_low_batt
    then fell
    else if not low && n.low_batt && n.cfg.on_low_batt && same_power state pwr_line
    then rose
    else n

-- `soc_pct / 10`, which C rounds towards 0.
abbrev pub decile : ℤ → ℤ
decile (pos n) = pos (n / 10)
decile (negsuc n) = pos 0 -ℤ pos (suc n / 10)

-- The reminder on every ten points.
unfoldable pub remind : Notifier → ℕ → PowerState → ℤ → ℤ → Notifier
remind n now state soc minutes =
    let tracked : Notifier = record n { batt_decile = decile soc } in
    if same_power state pwr_battery && n.cfg.on_battery_pct
    then if ltb_ℤ n.batt_decile (pos 0)
      then tracked
      else if ltb_ℤ (decile soc) n.batt_decile
      then send_opt tracked now (some (reminder_text soc minutes))
      else n
    else if not (same_power state pwr_battery)
    then record n { batt_decile = minus_one }
    else n

-- What a status does that tells the state `state`.
unfoldable pub note_power : Notifier → ℕ → PowerState → Bool → ℤ → ℤ → Notifier
note_power n now state low soc minutes =
    let lit = power_event n now state soc minutes in
    let warned = low_event lit now state low soc minutes in
    record (remind warned now state soc minutes) { power = state; low_batt = low }

-- `notify_ups_status` at the time `now`, of a status that is not NULL.
unfoldable pub notify_ups_status : Notifier → ℕ → Bytes → ℤ → ℤ → Notifier
unfolding contains
notify_ups_status n now status soc minutes =
    if not (n.started && n.cfg.enabled) then n else elim (power_of status) [
      | none ↦ n
      | some state ↦ note_power n now state (contains (codes "LB") status) soc minutes
    ]

-- ===== src/BtLink/Events.antt =====
-- What can happen to a link (bluetti_ble.c), as steps.
pub mod Writable
use esp32_nut_bluetti.Prelude.{
  ℕ, ◌+◌, Bool, true, false, not, ◌&&◌, Option, none, some, List, [], ◌∷◌, if◌then◌else◌, length,
  drop,
}
use esp32_nut_bluetti.Prelude.Int.{ℤ}
use esp32_nut_bluetti.Prelude.Text.{Bytes}
use esp32_nut_bluetti.BtCrypto.{Crypto}
use esp32_nut_bluetti.BtSession.State.{Session, Env, is_idle, session_new, session_reset, use_plain}
use esp32_nut_bluetti.BtSession.Feed.{feed}
use esp32_nut_bluetti.BtRegs.Devices.{Device, generic}
use esp32_nut_bluetti.BtRegs.State.{BluettiState, state_reset}
use esp32_nut_bluetti.BtLink.State.{Link, replan, hand_over}
use esp32_nut_bluetti.BtLink.Writes.{write_control}
use esp32_nut_bluetti.BtLink.Poll.{poll_tick}

-- BLE_GAP_EVENT_CONNECT with status 0.
unfoldable pub on_connect : Link → Link
unfolding session_reset
on_connect l = record l {
  connected = true;
  plan = [];
  plan_i = 0;
  sweep_reads = 0;
  req_in_flight = false;
  poll_fails = 0;
  state = state_reset l.state;
  session = session_reset l.session;
  device = none;
}

-- BLE_GAP_EVENT_DISCONNECT
unfoldable pub on_disconnect : Link → Link
unfolding session_reset
on_disconnect l = record l { connected = false; session = session_reset l.session; device = none }

-- `on_sub`, where the subscription succeeded.
unfoldable pub on_sub : Link → Link
on_sub l = record (replan l generic false) { poll_fails = 0; req_in_flight = false }

-- `kex_timer_cb`
unfoldable pub kex_timeout : Link → Link
unfolding use_plain
kex_timeout l =
    if l.connected && is_idle l.session.state then record l { session = use_plain l.session } else l

-- BLE_GAP_EVENT_NOTIFY_RX outside debugging, for a notification on the handle of the link that
-- ble_hs_mbuf_to_flat copied to `tmp`, with the callbacks that the session calls.
unfoldable pub on_notify : Crypto → ℕ → Link → Bytes → Link
unfolding feed hand_over
on_notify c now l bytes =
    let s = feed c l.session bytes in
    hand_over now (record l { session = s }) (drop (length l.session.calls) s.calls)

-- The new plan, where the model is known.
abbrev pub replan_known : Link → Option Device → Bool → Link
replan_known l none on = l
replan_known l (some dev) on = replan l dev on

-- `bluetti_ble_set_controls`
unfoldable pub set_controls : Link → Bool → Link
set_controls l on =
    let kept = if on then l.write_queue else [] in
    replan_known (record l { controls = on; write_queue = kept }) l.device on

-- The part of `bluetti_ble_start` behind the configuration.
unfoldable pub ble_start : Link → Bool → ℤ → Link
ble_start l controls low = record l {
  controls = controls;
  low_battery_pct = low;
  state = state_reset (record l.state { soc_low_pct = low });
  device = none;
  plan = [];
  plan_i = 0;
  sweep_reads = 0;
}

-- An event.
pub data Event : Type 0 where
  ble_started : Bool → ℤ → Event
  connect : Event
  disconnect : Event
  subscribed : Event
  kex_expired : Event
  notified : ℕ → Bytes → Event
  tick : ℕ → Event
  switched : Bool → Event
  written : Option Bytes → ℤ → Event

abbrev pub step : Crypto → Link → Event → Link
step c l (ble_started controls low) = ble_start l controls low
step c l connect = on_connect l
step c l disconnect = on_disconnect l
step c l subscribed = on_sub l
step c l kex_expired = kex_timeout l
step c l (notified now bytes) = on_notify c now l bytes
step c l (tick now) = poll_tick c now l
step c l (switched on) = set_controls l on
step c l (written field value) = (write_control l field value).0

-- What a link can become.
pub data Reaches (c : Crypto) (k : Link) : Link → Type 0 where
  here : Reaches c k k
  next : {l : Link} → Reaches c k l → (e : Event) → Reaches c k (step c l e)

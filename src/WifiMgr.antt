-- ===== src/WifiMgr.antt =====
-- components/wifi_mgr: the retries of the station, and the fallback access point. A function of the ESP-IDF
-- Wi-Fi API is a command in the list of those given, or an answer that is an argument.
pub mod Outage
pub mod Fallback
mod Tests
use esp32_nut_bluetti.Prelude.{
  ℕ, ◌+◌, ◌*◌, ◌%◌, ◌^◌, Bool, true, false, not, ◌&&◌, ◌||◌, Option, none, some, List, [], ◌∷◌,
  ◌++◌, if◌then◌else◌, ◌==◌, ltb, leb, length,
}
use esp32_nut_bluetti.Prelude.Text.{Bytes, codes, fit}

abbrev pub max_retry : ℕ
max_retry = 8

abbrev pub backoff_min_ms : ℕ
backoff_min_ms = 1000

abbrev pub backoff_max_ms : ℕ
backoff_max_ms = 30000

abbrev pub fallback_tick_ms : ℕ
fallback_tick_ms = 2000

-- What the code asks of the Wi-Fi driver.
pub data Command : Type 0 where
  connect disconnect : Command
  -- a connect after so many milliseconds
  connect_in : ℕ → Command
  stop_timer : Command
  -- the access point with its SSID and its password, where there is one
  ap_up : Bytes → Option Bytes → Command
  station_only : Command

-- The variables of wifi_mgr.c, the two bits of `s_events`, and the commands so far. `down_ms` is the variable
-- of fallback_task.
pub record Wifi : Type 0 where
  pub connected : Bool
  pub failed : Bool
  pub ap_on : Bool
  pub want_connect : Bool
  pub retries : ℕ
  pub backoff_ms : ℕ
  pub ip : Bytes
  pub fb_enabled : Bool
  pub fb_ssid : Bytes
  pub fb_pass : Bytes
  pub fb_after_ms : ℕ
  pub fb_ap_up : Bool
  pub fb_task_started : Bool
  pub down_ms : ℕ
  pub commands : List Command

abbrev pub order : Wifi → Command → Wifi
order w c = record w { commands = w.commands ++ c ∷ [] }

-- `retry_timer_cb`
unfoldable pub retry_timer_cb : Wifi → Wifi
retry_timer_cb w = if w.want_connect then order w connect else w

-- The next wait: twice this one, up to the greatest.
abbrev pub next_backoff : ℕ → ℕ
next_backoff ms =
    let twice = ms * 2 in
    if ltb ms backoff_max_ms then if ltb backoff_max_ms twice then backoff_max_ms else twice else ms

-- `reconnect_later`; `timer` tells whether there is a timer, or one can be made.
unfoldable pub reconnect_later : Bool → Wifi → Wifi
reconnect_later timer w =
    let waiting = order w (connect_in w.backoff_ms) in
    if not timer then order w connect else record waiting { backoff_ms = next_backoff w.backoff_ms }

-- `on_event` for the start of the station.
unfoldable pub on_sta_start : Wifi → Wifi
on_sta_start w = if w.want_connect then order w connect else w

-- `on_event` for a lost link.
unfoldable pub on_sta_disconnected : Bool → Wifi → Wifi
unfolding reconnect_later
on_sta_disconnected timer w =
    let off : Wifi = record w { ip = codes "0.0.0.0"; connected = false } in
    let tries = w.retries + 1 in
    if not w.want_connect
    then off
    else reconnect_later timer
        (record off { retries = tries; failed = w.failed || tries == max_retry })

-- `on_event` for an address, given as text; `timer` tells whether there is a retry timer.
unfoldable pub on_got_ip : Bool → Bytes → Wifi → Wifi
on_got_ip timer ip w =
    let up : Wifi = record w {
      ip = ip;
      retries = 0;
      backoff_ms = backoff_min_ms;
      failed = false;
      connected = true;
    } in
    if timer then order up stop_timer else up

-- `wifi_mgr_default_ap_ssid` of the text that it makes of the address of the board.
abbrev or_board_name : Bytes → Bytes → Bytes
or_board_name board [] = fit 33 board
or_board_name board (c ∷ ssid) = c ∷ ssid

-- `wifi_mgr_ap_start`; an error of the driver aborts the program. A password of less than eight characters
-- makes an open network.
unfoldable pub ap_start : Bytes → Bytes → Bytes → Wifi → Wifi
ap_start board ssid pass w =
    let secured = leb 8 (length pass) in
    let up =
      order w (
        ap_up (fit 32 (or_board_name board ssid)) (if secured then some (fit 64 pass) else none)) in
    record up { ap_on = true }

-- `wifi_mgr_ap_stop`
unfoldable pub ap_stop : Wifi → Wifi
ap_stop w =
    let off : Wifi = record (order w station_only) { ap_on = false } in
    let again : Wifi = record off { retries = 0; backoff_ms = backoff_min_ms; failed = false } in
    if w.want_connect then order again connect else off

-- A round of `fallback_task`, behind its delay; `down_ms` is a word of 32 bits.
unfoldable pub fallback_round : Bytes → Wifi → Wifi
unfolding ap_start ap_stop
fallback_round board w =
    let idle : Wifi = record w { down_ms = 0 } in
    let down = (w.down_ms + fallback_tick_ms) % 2 ^ 32 in
    let counted : Wifi = record w { down_ms = down } in
    if not w.fb_enabled || (w.ap_on && not w.fb_ap_up)
    then idle
    else if w.connected
    then (if w.fb_ap_up then ap_stop (record idle { fb_ap_up = false }) else idle)
    else if w.fb_ap_up
    then w
    else if ltb down w.fb_after_ms
    then counted
    else record (ap_start board w.fb_ssid w.fb_pass counted) { fb_ap_up = true }

-- `wifi_mgr_set_fallback_ap`; `task` tells whether the task can be created.
unfoldable pub set_fallback_ap : Bytes → Bool → Bool → Bytes → Bytes → ℕ → Wifi → Wifi
unfolding ap_stop
set_fallback_ap board task enabled ssid pass after_ms w =
    let told : Wifi = record w {
      fb_ssid = fit 33 (or_board_name board ssid);
      fb_pass = fit 65 pass;
      fb_after_ms = if after_ms == 0 then 60000 else after_ms;
      fb_enabled = enabled;
    } in
    if not enabled
    then (if w.fb_ap_up then ap_stop (record told { fb_ap_up = false }) else told)
    else if w.fb_task_started
    then told
    else if task
    then record told { fb_task_started = true }
    else record told { fb_enabled = false }

-- `wifi_mgr_sta_connect` up to its wait for one of the bits.
unfoldable pub sta_connect : Wifi → Wifi
sta_connect w =
    let trying : Wifi = record w {
      connected = false;
      failed = false;
      retries = 0;
      backoff_ms = backoff_min_ms;
      want_connect = true;
    } in
    order (order trying disconnect) connect

-- The variables at boot.
abbrev pub wifi_boot : Wifi
wifi_boot = record {
  connected = false;
  failed = false;
  ap_on = false;
  want_connect = false;
  retries = 0;
  backoff_ms = backoff_min_ms;
  ip = codes "0.0.0.0";
  fb_enabled = false;
  fb_ssid = [];
  fb_pass = [];
  fb_after_ms = 0;
  fb_ap_up = false;
  fb_task_started = false;
  down_ms = 0;
  commands = [];
}

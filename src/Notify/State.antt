-- ===== src/Notify/State.antt =====
-- The state of notify.c and its operations that queue a message or change the configuration. `now` is
-- the value of esp_timer_get_time, which counts up from 0 at boot.
use esp32_nut_bluetti.Prelude.{
  ℕ, Bool, true, false, not, ◌&&◌, List, [], ◌∷◌, ◌++◌, if◌then◌else◌, ltb, length,
}
use esp32_nut_bluetti.Prelude.Int.{ℤ, pos, minus_one}
use esp32_nut_bluetti.Prelude.Text.{Bytes, codes, fit}

-- `notify_config_t`
pub record NotifyConfig : Type 0 where
  pub enabled : Bool
  pub bot_token : Bytes
  pub chat_id : Bytes
  pub on_power : Bool
  pub on_low_batt : Bool
  pub on_link : Bool
  pub on_battery_pct : Bool

-- `msg_t`
pub record Msg : Type 0 where
  pub text : Bytes
  pub queued_us : ℕ

-- `power_state_t`
pub data PowerState : Type 0 where
  pwr_unknown : PowerState
  pwr_line : PowerState
  pwr_battery : PowerState
  pwr_offline : PowerState

abbrev pub same_power : PowerState → PowerState → Bool
same_power pwr_unknown pwr_unknown = true
same_power pwr_line pwr_line = true
same_power pwr_battery pwr_battery = true
same_power pwr_offline pwr_offline = true
same_power _ _ = false

-- `N`, with the messages in the queue, oldest first; of the lock that guards `cfg`, whether it
-- has been created.
pub record Notifier : Type 0 where
  pub cfg : NotifyConfig
  pub label : Bytes
  pub cfg_lock : Bool
  pub queue : List Msg
  pub started : Bool
  pub power : PowerState
  pub low_batt : Bool
  pub last_event_us : ℕ
  pub last_event_state : PowerState
  pub batt_decile : ℤ

abbrev pub msg_max : ℕ
msg_max = 256

abbrev pub queue_depth : ℕ
queue_depth = 6

-- `REPEAT_GUARD_US`
abbrev pub repeat_guard_us : ℕ
repeat_guard_us = 60000000

-- The label and a colon in front of a text, where there is a label.
abbrev pub labelled : Bytes → Bytes → Bytes
labelled [] text = text
labelled (c ∷ label) text = (c ∷ label) ++ (codes ": " ++ text)

abbrev pub message : Notifier → ℕ → Bytes → Msg
message n now text = record { text = fit msg_max (labelled n.label text); queued_us = now }

-- `notify_send` of a text that is not NULL: the state behind it, and what it returns.
unfoldable pub notify_send : Notifier → ℕ → Bytes → Notifier × Bool
notify_send n now text =
    if not (n.started && n.cfg.enabled)
    then (n, false)
    else if ltb (length n.queue) queue_depth
    then (record n { queue = n.queue ++ message n now text ∷ [] }, true)
    else (n, false)

-- `notify_reconfigure`
unfoldable pub notify_reconfigure : Notifier → NotifyConfig → Notifier
notify_reconfigure n cfg = if not n.cfg_lock then n else record n { cfg = cfg }

-- `N` at boot.
abbrev pub at_boot : Notifier
at_boot = record {
  cfg = record {
    enabled = false;
    bot_token = [];
    chat_id = [];
    on_power = false;
    on_low_batt = false;
    on_link = false;
    on_battery_pct = false;
  };
  label = [];
  cfg_lock = false;
  queue = [];
  started = false;
  power = pwr_unknown;
  low_batt = false;
  last_event_us = 0;
  last_event_state = pwr_unknown;
  batt_decile = pos 0;
}

-- `notify_start`; `lock`, `store` and `task` tell whether the lock, the queue and the task can be
-- created.
unfoldable pub notify_start :
    Notifier → (lock store task : Bool) → NotifyConfig → Bytes → Notifier × ℤ
unfolding notify_reconfigure
notify_start n lock store task cfg label =
    let created : Notifier = record n { cfg_lock = lock; queue = [] } in
    let ready : Notifier = record created {
      cfg = cfg;
      label = fit 40 label;
      power = pwr_unknown;
      low_batt = false;
      last_event_state = pwr_unknown;
      batt_decile = minus_one;
    } in
    if n.started
    then (notify_reconfigure n cfg, pos 0)
    else if not (lock && store)
    then (created, minus_one)
    else if task
    then (record ready { started = true }, pos 0)
    else (ready, minus_one)

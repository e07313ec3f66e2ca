-- ===== src/Notify/Tests.antt =====
-- Messages of notify.c: an outage, and deliveries.
use esp32_nut_bluetti.Prelude.{
  ◌≡◌, refl, ◌≤◌, ◌&&◌, ◌++◌, true, false, none, some, [], ◌∷◌, length, map, arith, List,
  if◌then◌else◌, inl,
}
use esp32_nut_bluetti.Prelude.Int.{pos, minus_one}
use esp32_nut_bluetti.Prelude.Text.{codes}
use esp32_nut_bluetti.Notify.State.{
  NotifyConfig, pwr_line, pwr_battery, notify_send, notify_start, message, at_boot, Notifier, Msg,
}
use esp32_nut_bluetti.Notify.Status.{
  contains, power_of, guard_allows, power_text, power_event, low_event, remind, note_power,
  notify_ups_status,
}
use esp32_nut_bluetti.Notify.Status.Alerts.{alerts}
use esp32_nut_bluetti.Notify.Worker.{Net, unreachable, answered, backoff_ms}
use esp32_nut_bluetti.Notify.Worker.Retries.{
  settle, waited, deliveries, owing, accepted, settle_new,
}
use esp32_nut_bluetti.Notify.History.{
  Event, ev_start, ev_send, ev_status, ev_pass, boot, happen, history, pending,
}
use esp32_nut_bluetti.Notify.History.Orderly.{history-alerts, history-fifo}
use esp32_nut_bluetti.Notify.History.Subseq.{Subseq}
use esp32_nut_bluetti.BtRegs.State.{BluettiState, nothing_read}
use esp32_nut_bluetti.Main.{power_status}
use esp32_nut_bluetti.Main.Notified.{power_status-alerts}

abbrev config : NotifyConfig
config = record {
  enabled = true;
  bot_token = codes "123:A";
  chat_id = codes "7";
  on_power = true;
  on_low_batt = true;
  on_link = false;
  on_battery_pct = true;
}

-- A network that is down, and one that is up.
abbrev down : Net
down = record {
  object = true;
  print = λ chat text. some text;
  client = true;
  post = λ url body. unreachable (codes "ESP_FAIL");
}

abbrev up : Net
up = record down { post = λ url body. answered (pos 200) [] }

abbrev low : Msg
low = record { text = codes "Battery low"; queued_us = 0 }

-- A start, and the mains.
abbrev morning : List Event
morning = ev_start true true true config [] ∷ ev_status 5 (codes "OL") (pos 100) minus_one ∷ []

abbrev ready : Notifier
ready = record at_boot { cfg = config; started = true; power = pwr_line; batt_decile = minus_one }

abbrev low_unit : BluettiState
low_unit = record (nothing_read (pos 20)) {
  valid = true;
  sweep_done = true;
  soc_pct = some 15;
  minutes_remaining = some 30;
}

-- The fourth wait is 135 s.
backoff_test :
    map backoff_ms (1 ∷ 2 ∷ 3 ∷ 4 ∷ 5 ∷ 15 ∷ [])
    ≡ 5000 ∷ 15000 ∷ 45000 ∷ 135000 ∷ 300000 ∷ 300000 ∷ []
unfolding backoff_ms
backoff_test = refl

-- The mains fail, come back and fail again within a second: a message each time.
flapping_test :
    length
      (history boot (
        morning
        ++ ev_status 10 (codes "OB DISCHRG") (pos 80) (pos 12)
          ∷ ev_status 20 (codes "OL CHRG") (pos 80) minus_one
          ∷ ev_status 30 (codes "OB DISCHRG") (pos 80) (pos 12)
          ∷ [])).queued
    ≡ 3
unfolding history happen notify_start notify_ups_status power_of note_power remind low_event
    power_event guard_allows power_text notify_send
flapping_test = refl

settle_new_example :
    (let r = settle (λ i. down) (λ i. i) 0 15 (owing ready low 0) in
      (r.0.held ≡ none)
      × (r.0.notifier ≡ ready)
      × (length r.1 ≤ 15)
      × (waited r.1 ≤ 3200000)
      × (deliveries r.1 ≡ (
          if ready.cfg.enabled && accepted (λ i. down) (λ i. i) 0 15 ready low
          then low ∷ []
          else [])))
settle_new_example = settle_new (λ i. down) (λ i. i) 0 ready low

history-fifo_example :
    (let t =
        history boot (morning ++ ev_send 6 (codes "hello") ∷ ev_pass down 7 ∷ ev_pass up 8 ∷ []) in
      Subseq (t.sent ++ pending t.courier) t.queued)
history-fifo_example =
    history-fifo (morning ++ ev_send 6 (codes "hello") ∷ ev_pass down 7 ∷ ev_pass up 8 ∷ [])

history-alerts_example :
    (let n = (history boot morning).courier.notifier in
      (notify_ups_status n 9 (codes "OB DISCHRG") (pos 80) (pos 12)).queue
      ≡ n.queue
        ++ map
            (message n 9)
            (alerts n pwr_battery (contains (codes "LB") (codes "OB DISCHRG")) (pos 80) (pos 12)))
unfolding history happen notify_ups_status notify_start power_of note_power remind low_event
    power_event
history-alerts_example =
    history-alerts morning 9 (codes "OB DISCHRG") pwr_battery (pos 80) (pos 12) refl (omega arith)
      refl

power_status-alerts_example :
    (notify_ups_status ready 9 (power_status 0 low_unit) (pos 15) (pos 30)).queue
    ≡ map (message ready 9) (alerts ready pwr_battery true (pos 15) (pos 30))
power_status-alerts_example =
    power_status-alerts ready 9 0 low_unit (pos 15) (pos 30) true (inl refl) refl (omega arith)
      ((λ e. (refl, inl (15, refl, refl))), λ e. refl)

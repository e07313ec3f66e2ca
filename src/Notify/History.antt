-- ===== src/Notify/History.antt =====
-- What holds after any history of notify.c: starts, configurations, messages, statuses and passes of the
-- worker, in any order.
pub mod Subseq
pub mod Orderly
use esp32_nut_bluetti.Prelude.{
  ℕ, ◌+◌, ◌≤◌, ◌≡◌, refl, ◌∙◌, ap, sym, Bool, true, false, not, ◌&&◌, Option, none, some, List, [],
  ◌∷◌, ◌++◌, map, ◌⊎◌, inl, inr, if◌then◌else◌, leb, length, drop, drop-append, if_ind,
  Option-cases,
}
use mathlib.Core.List.{append_assoc}
use mathlib.Core.Path.{subst}
use esp32_nut_bluetti.Prelude.Int.{ℤ}
use esp32_nut_bluetti.Prelude.Text.{Bytes, codes}
use esp32_nut_bluetti.Notify.State.{
  NotifyConfig, PowerState, Notifier, Msg, message, notify_send, notify_reconfigure, notify_start,
  at_boot,
}
use esp32_nut_bluetti.Notify.Status.{contains, power_of, notify_ups_status}
use esp32_nut_bluetti.Notify.Status.Alerts.{IsGuarded, alerts}
use esp32_nut_bluetti.Notify.Status.Alerts.Guarded.{
  notify_send-Grows, notify_ups_status-IsGuarded, notify_ups_status-alerts,
}
use esp32_nut_bluetti.Notify.Worker.{
  Net, Courier, Pass, idle, dropped, delivered, given_up, retry, telegram_post, late_text,
  try_deliver, worker_pass, send_attempts, backoff_ms,
}

-- What can happen.
pub data Event : Type 0 where
  ev_start : (lock store task : Bool) → NotifyConfig → Bytes → Event
  ev_reconfigure : NotifyConfig → Event
  ev_send : ℕ → Bytes → Event
  ev_status : ℕ → Bytes → ℤ → ℤ → Event
  ev_pass : Net → ℕ → Event

-- The worker and the notifier, and all the messages that have been queued and delivered.
pub record Trace : Type 0 where
  pub courier : Courier
  pub queued : List Msg
  pub sent : List Msg

abbrev pub boot : Trace
boot = record {
  courier = record { notifier = at_boot; held = none; attempt = 0 };
  queued = [];
  sent = [];
}

-- The messages that a call has put behind those of the queue.
abbrev pub put : Notifier → Notifier → List Msg
put n after = drop (length n.queue) after.queue

abbrev pub delivery : Pass → List Msg
delivery (delivered m text) = m ∷ []
delivery _ = []

abbrev pub with_notifier : Trace → Notifier → Trace
with_notifier t n = record t { courier = record t.courier { notifier = n } }

-- A call that can queue messages.
abbrev pub queueing : Trace → Notifier → Trace
queueing t n = record (with_notifier t n) { queued = t.queued ++ put t.courier.notifier n }

unfoldable pub happen : Trace → Event → Trace
happen t (ev_start lock store task cfg label) =
    with_notifier t (notify_start t.courier.notifier lock store task cfg label).0
happen t (ev_reconfigure cfg) = with_notifier t (notify_reconfigure t.courier.notifier cfg)
happen t (ev_send now text) = queueing t (notify_send t.courier.notifier now text).0
happen t (ev_status now text soc minutes) =
    queueing t (notify_ups_status t.courier.notifier now text soc minutes)
happen t (ev_pass net now) =
    let (c, p) = worker_pass net now t.courier in
    record t { courier = c; sent = t.sent ++ delivery p }

unfoldable pub history : Trace → List Event → Trace
history t [] = t
history t (e ∷ events) = history (happen t e) events

abbrev pub held_list : Option Msg → List Msg
held_list none = []
held_list (some m) = m ∷ []

-- The messages that are still to be delivered.
abbrev pub pending : Courier → List Msg
pending c = held_list c.held ++ c.notifier.queue

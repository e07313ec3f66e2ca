-- ===== src/Notify/History/Orderly.antt =====
-- The order of the messages of notify.c, and the memory of its guard, after any history.
use esp32_nut_bluetti.Prelude.{
  ltb, ℕ, ◌+◌, ◌≤◌, ◌≡◌, refl, ◌∙◌, ap, sym, Bool, true, not, ◌&&◌, Option, none, some, List, [],
  ◌∷◌, ◌++◌, map, ◌⊎◌, inl, inr, leb, length, drop, drop-append, if_ind, Option-cases,
}
use mathlib.Core.List.{append_assoc}
use mathlib.Core.Path.{subst}
use esp32_nut_bluetti.Prelude.Int.{ℤ}
use esp32_nut_bluetti.Prelude.Text.{Bytes, codes}
use esp32_nut_bluetti.Notify.State.{
  NotifyConfig, PowerState, Notifier, Msg, message, notify_send, queue_depth, notify_reconfigure,
  notify_start,
}
use esp32_nut_bluetti.Notify.Status.{contains, power_of, notify_ups_status}
use esp32_nut_bluetti.Notify.Status.Alerts.{IsGuarded, alerts}
use esp32_nut_bluetti.Notify.Status.Alerts.Guarded.{
  notify_send-Grows, notify_ups_status-IsGuarded, notify_ups_status-alerts,
}
use esp32_nut_bluetti.Notify.Worker.{
  Net, Courier, Pass, telegram_post, late_text, try_deliver, worker_pass, send_attempts,
}
use esp32_nut_bluetti.Notify.History.{
  Event, ev_start, ev_reconfigure, ev_send, ev_status, ev_pass, Trace, boot, put, delivery,
  with_notifier, queueing, happen, history, held_list, pending,
}
use esp32_nut_bluetti.Notify.History.Subseq.{
  Subseq, done, skip, Subseq-refl, Subseq-trans, Subseq-append, Subseq-front, Subseq-none,
}

-- What a pass of the worker does to them, and that it leaves the notifier guarded.
record Passes (c : Courier) (r : Courier × Pass) : Type 0 where
  fifo : Subseq (delivery r.1 ++ pending r.0) (pending c)
  guarded : IsGuarded c.notifier → IsGuarded r.0.notifier

try_deliver-Passes :
    (net : Net) (now : ℕ) (n : Notifier) (m : Msg) (a : ℕ)
    → Passes
        (record { notifier = n; held = some m; attempt = a })
        (try_deliver net now (record { notifier = n; held = some m; attempt = a }) m)
unfolding try_deliver
try_deliver-Passes net now n m a =
    let c : Courier = record { notifier = n; held = some m; attempt = a } in
    let Good = Passes c in
    let all = Subseq-refl (m ∷ n.queue) in
    let rest = skip m (Subseq-refl n.queue) in
    if_ind Good (not n.cfg.enabled) _ _ (λ off. record { fifo = rest; guarded = λ g. g })
      (λ on. elim (Option-cases (telegram_post net n.cfg (late_text now m) 96)) [
        | inl sent ↦ rw sent (record { fifo = all; guarded = λ g. g })
        | inr (err, failed) ↦ rw failed (
            if_ind Good (leb send_attempts (a + 1)) _ _
              (λ last. record { fifo = rest; guarded = λ g. g })
              (λ more. record { fifo = all; guarded = λ g. g }))
      ])

worker_pass-Passes : (net : Net) (now : ℕ) (c : Courier) → Passes c (worker_pass net now c)
unfolding worker_pass
worker_pass-Passes net now c = by_held c.notifier c.held c.attempt
  where
    by_held :
        (n : Notifier) (held : Option Msg) (a : ℕ)
        → Passes
            (record { notifier = n; held = held; attempt = a })
            (worker_pass net now (record { notifier = n; held = held; attempt = a }))
    by_held n (some m) a = try_deliver-Passes net now n m a
    by_held n none a = by_queue n.queue
      where
        by_queue :
            (q : List Msg)
            → (let c' : Courier = record {
              notifier = record n { queue = q };
              held = none;
              attempt = a;
            } in
                Passes c' (worker_pass net now c'))
        by_queue [] = record { fifo = done; guarded = λ g. g }
        by_queue (m ∷ q) =
            let tried = try_deliver-Passes net now (record n { queue = q }) m 0 in
            record { fifo = tried.fifo; guarded = tried.guarded }

-- The invariant of a history.
pub record IsOrderly (t : Trace) : Type 0 where
  pub fifo : Subseq (t.sent ++ pending t.courier) t.queued
  pub guarded : IsGuarded t.courier.notifier

queueing-IsOrderly :
    (t : Trace) (n : Notifier) (more : List Msg)
    → n.queue ≡ t.courier.notifier.queue ++ more
    → IsGuarded n
    → IsOrderly t
    → IsOrderly (queueing t n)
queueing-IsOrderly t n more grown guarded ok =
    let held = held_list t.courier.held in
    let q = t.courier.notifier.queue in
    let there : put t.courier.notifier n ≡ more = ap (drop (length q)) grown ∙ drop-append q more in
    let text : (t.sent ++ (held ++ q)) ++ more ≡ t.sent ++ (held ++ n.queue) =
      append_assoc t.sent (held ++ q) more
      ∙ ap (λ l. t.sent ++ l) (append_assoc held q more ∙ ap (λ l. held ++ l) (sym grown)) in
    let longer = Subseq-append more ok.fifo in
    record {
      fifo =
          subst (λ l. Subseq (t.sent ++ (held ++ n.queue)) (t.queued ++ l)) (sym there)
            (subst (λ l. Subseq l (t.queued ++ more)) text longer);
      guarded = guarded;
    }

-- A start or a configuration: the queue is kept, or a new one is made.
abbrev Resets : Notifier → Notifier → Type 0
Resets n after = ((after.queue ≡ n.queue) ⊎ (after.queue ≡ [])) × IsGuarded after

resetting-IsOrderly :
    (t : Trace) (n : Notifier)
    → Resets t.courier.notifier n
    → IsOrderly t
    → IsOrderly (with_notifier t n)
resetting-IsOrderly t n (inl e, guarded) ok = record { fifo = rw e ok.fifo; guarded = guarded }
resetting-IsOrderly t n (inr e, guarded) ok = record {
  fifo = rw e (
      Subseq-trans
        (Subseq-front t.sent
          (Subseq-front (held_list t.courier.held) (Subseq-none t.courier.notifier.queue)))
        ok.fifo);
  guarded = guarded;
}

notify_start-Resets :
    (n : Notifier) (lock store task : Bool) (cfg : NotifyConfig) (label : Bytes)
    → IsGuarded n
    → Resets n (notify_start n lock store task cfg label).0
unfolding notify_start notify_reconfigure
notify_start-Resets n lock store task cfg label guarded =
    let Good = λ (r : Notifier × ℤ). Resets n r.0 in
    if_ind Good n.started _ _
      (λ on.
        if_ind (Resets n) (not n.cfg_lock) _ _ (λ e. (inl refl, guarded))
          (λ e. (inl refl, guarded)))
      (λ off.
        if_ind Good (not (lock && store)) _ _ (λ e. (inr refl, guarded))
          (λ e. if_ind Good task _ _ (λ k. (inr refl, inl refl)) (λ k. (inr refl, inl refl))))

notify_reconfigure-Resets :
    (n : Notifier) (cfg : NotifyConfig) → IsGuarded n → Resets n (notify_reconfigure n cfg)
unfolding notify_reconfigure
notify_reconfigure-Resets n cfg guarded =
    if_ind (Resets n) (not n.cfg_lock) _ _ (λ e. (inl refl, guarded)) (λ e. (inl refl, guarded))

notify_send-IsGuarded :
    (n : Notifier) (now : ℕ) (text : Bytes) → IsGuarded n → IsGuarded (notify_send n now text).0
unfolding notify_send
notify_send-IsGuarded n now text guarded =
    let Good = λ (r : Notifier × Bool). IsGuarded r.0 in
    if_ind Good (not (n.started && n.cfg.enabled)) _ _ (λ off. guarded)
      (λ on. if_ind Good (ltb (length n.queue) queue_depth) _ _ (λ e. guarded) (λ e. guarded))

happen-IsOrderly : (t : Trace) (e : Event) → IsOrderly t → IsOrderly (happen t e)
unfolding happen
happen-IsOrderly t (ev_start lock store task cfg label) ok =
    resetting-IsOrderly t _
      (notify_start-Resets t.courier.notifier lock store task cfg label ok.guarded) ok
happen-IsOrderly t (ev_reconfigure cfg) ok =
    resetting-IsOrderly t _ (notify_reconfigure-Resets t.courier.notifier cfg ok.guarded) ok
happen-IsOrderly t (ev_send now text) ok =
    let grown = notify_send-Grows t.courier.notifier now text in
    queueing-IsOrderly t _ grown.more grown.queue
      (notify_send-IsGuarded t.courier.notifier now text ok.guarded) ok
happen-IsOrderly t (ev_status now text soc minutes) ok =
    let ((more, grown), guarded) =
      notify_ups_status-IsGuarded t.courier.notifier now text soc minutes ok.guarded in
    queueing-IsOrderly t _ more grown guarded ok
happen-IsOrderly t (ev_pass net now) ok =
    let step = worker_pass-Passes net now t.courier in
    let gone = delivery (worker_pass net now t.courier).1 in
    record {
      fifo =
          subst (λ l. Subseq l t.queued) (sym (append_assoc t.sent gone _))
            (Subseq-trans (Subseq-front t.sent step.fifo) ok.fifo);
      guarded = step.guarded ok.guarded;
    }

history-IsOrderly : (t : Trace) (events : List Event) → IsOrderly t → IsOrderly (history t events)
unfolding history
history-IsOrderly t [] ok = ok
history-IsOrderly t (e ∷ events) ok =
    history-IsOrderly (happen t e) events (happen-IsOrderly t e ok)

boot-IsOrderly : IsOrderly boot
boot-IsOrderly = record { fifo = done; guarded = inl refl }

-- Whatever has happened since boot, the messages that the worker has delivered, followed by those that it
-- still has to deliver, are among the messages that were queued, in the order in which they were queued:
-- no message is delivered twice, or before one that was queued before it.
pub history-fifo :
    (events : List Event)
    → (let t = history boot events in Subseq (t.sent ++ pending t.courier) t.queued)
history-fifo events = (history-IsOrderly boot events boot-IsOrderly).fifo

-- Whatever has happened since boot: a status that tells a state, on a started and enabled notifier with
-- room for three messages, queues exactly the messages of the table of transitions, of the edges of the
-- low battery and of the reminders. Neither the time nor an event before it holds one back.
pub history-alerts :
    (events : List Event) (now : ℕ) (text : Bytes) (state : PowerState) (soc minutes : ℤ)
    → (let n = (history boot events).courier.notifier in (n.started && n.cfg.enabled) ≡ true)
    → length (history boot events).courier.notifier.queue + 3 ≤ 6
    → power_of text ≡ some state
    → (let n = (history boot events).courier.notifier in
        (notify_ups_status n now text soc minutes).queue
        ≡ n.queue ++ map (message n now) (alerts n state (contains (codes "LB") text) soc minutes))
history-alerts events now text state soc minutes on room tells =
    let ok = history-IsOrderly boot events boot-IsOrderly in
    notify_ups_status-alerts (history boot events).courier.notifier now text state soc minutes
      ok.guarded on room tells

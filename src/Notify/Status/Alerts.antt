-- ===== src/Notify/Status/Alerts.antt =====
-- The messages that a status raises (components/notify/notify.c), against a table of the transitions.
pub mod Guarded
use esp32_nut_bluetti.Prelude.{
  ℕ, ◌+◌, ◌≤◌, ◌≡◌, refl, ◌∙◌, ap, sym, Bool, true, false, not, ◌&&◌, Option, none, some, List, [],
  ◌∷◌, ◌++◌, map, ◌⊎◌, inl, inr, if◌then◌else◌, ltb, arith, length, length-append, length-map, suc,
  lt→ltb, if_ind, Bool-cases,
}
use mathlib.Core.Path.{subst}
use mathlib.Core.List.{append_assoc, map-append}
use esp32_nut_bluetti.Prelude.Int.{ℤ, pos, minus_one, ltb_ℤ}
use esp32_nut_bluetti.Prelude.Text.{Bytes, codes, fit}
use esp32_nut_bluetti.Notify.State.{
  NotifyConfig, PowerState, pwr_unknown, pwr_line, pwr_battery, pwr_offline, same_power, Notifier,
  Msg, message, labelled, msg_max, queue_depth, notify_send,
}
use esp32_nut_bluetti.Notify.Status.{
  contains, guard_allows, power_of, lost_text, restored_text, back_on_battery_text, back_text,
  contact_lost_text, low_text, no_longer_low_text, reminder_text, power_text, send_opt, power_event,
  low_event, decile, remind, note_power, notify_ups_status,
}

-- A text that is told where the user wants it.
abbrev pub when : Bool → Bytes → List Bytes
when wanted text = if wanted then text ∷ [] else []

-- The messages of a transition.
abbrev pub transition : NotifyConfig → PowerState → PowerState → ℤ → ℤ → List Bytes
transition cfg pwr_line pwr_battery soc minutes = when cfg.on_power (lost_text soc minutes)
transition cfg pwr_battery pwr_line soc minutes = when cfg.on_power (restored_text soc)
transition cfg pwr_offline pwr_battery soc minutes = when cfg.on_link back_on_battery_text
transition cfg pwr_offline pwr_line soc minutes = when cfg.on_link back_text
transition cfg pwr_line pwr_offline soc minutes = when cfg.on_link contact_lost_text
transition cfg pwr_battery pwr_offline soc minutes = when cfg.on_link contact_lost_text
transition cfg _ _ soc minutes = []

-- The messages of the edges of the low battery: whether they are wanted, it was low, and it is.
abbrev pub low_edge : Bool → Bool → Bool → PowerState → ℤ → ℤ → List Bytes
low_edge wanted false true state soc minutes = when wanted (low_text soc minutes)
low_edge wanted true false pwr_line soc minutes = when wanted no_longer_low_text
low_edge wanted _ _ state soc minutes = []

-- The reminders: on battery, with a decile tracked that the charge has fallen below.
abbrev pub fallen : NotifyConfig → ℤ → PowerState → ℤ → ℤ → List Bytes
fallen cfg tracked pwr_battery soc minutes =
    when (cfg.on_battery_pct && (not (ltb_ℤ tracked (pos 0)) && ltb_ℤ (decile soc) tracked))
      (reminder_text soc minutes)
fallen cfg tracked _ soc minutes = []

-- All the messages of a status that tells `state` and `low`.
abbrev pub alerts : Notifier → PowerState → Bool → ℤ → ℤ → List Bytes
alerts n state low soc minutes =
    transition n.cfg n.power state soc minutes
    ++ (low_edge n.cfg.on_low_batt n.low_batt low state soc minutes
        ++ fallen n.cfg n.batt_decile state soc minutes)

-- The last event that passed the guard was the one that led to the present state, if there was one.
abbrev pub IsGuarded : Notifier → Type 0
IsGuarded n = (n.last_event_state ≡ pwr_unknown) ⊎ (n.last_event_state ≡ n.power)

-- What a step that queues `texts` keeps.
pub record Queues (now : ℕ) (texts : List Bytes) (n after : Notifier) : Type 0 where
  pub queue : after.queue ≡ n.queue ++ map (message n now) texts
  pub cfg : after.cfg ≡ n.cfg
  pub label : after.label ≡ n.label
  pub started : after.started ≡ n.started
  pub power : after.power ≡ n.power
  pub low_batt : after.low_batt ≡ n.low_batt

abbrev as_list : Option Bytes → List Bytes
as_list none = []
as_list (some text) = text ∷ []

append_nil {ℓ} : {A : Type ℓ} (xs : List A) → xs ++ [] ≡ xs
append_nil [] = refl
append_nil (x ∷ xs) = ap (λ l. x ∷ l) (append_nil xs)

-- With room in the queue the message is put there.
pub notify_send_room :
    (n : Notifier) (now : ℕ) (text : Bytes)
    → (n.started && n.cfg.enabled) ≡ true
    → length n.queue + 1 ≤ 6
    → notify_send n now text ≡ (record n { queue = n.queue ++ message n now text ∷ [] }, true)
unfolding notify_send
notify_send_room n now text on room =
    let fits : ltb (length n.queue) queue_depth ≡ true = ground (arith, room) in
    rw on (rw fits refl)

send_opt-Queues :
    (n : Notifier) (now : ℕ) (text : Option Bytes)
    → (n.started && n.cfg.enabled) ≡ true
    → length n.queue + 1 ≤ 6
    → Queues now (as_list text) n (send_opt n now text)
      × ((send_opt n now text).batt_decile ≡ n.batt_decile)
send_opt-Queues n now none on room = (
  record {
    queue = sym (append_nil n.queue);
    cfg = refl;
    label = refl;
    started = refl;
    power = refl;
    low_batt = refl;
  },
  refl,
)
send_opt-Queues n now (some text) on room =
    rw (notify_send_room n now text on room, send_opt)
      (
        record {
          queue = refl;
          cfg = refl;
          label = refl;
          started = refl;
          power = refl;
          low_batt = refl;
        },
        refl,
      )

-- On a guarded notifier the guard lets every event pass that is a transition.
pub guard_allows-passes :
    (n : Notifier) (state : PowerState) (now : ℕ)
    → IsGuarded n
    → same_power state pwr_unknown ≡ false
    → same_power state n.power ≡ false
    → guard_allows n state now ≡ (record n { last_event_state = state; last_event_us = now }, true)
unfolding guard_allows
guard_allows-passes n state now guarded told moved = rw (differs n.last_event_state guarded) refl
  where
    differs :
        (last : PowerState)
        → (last ≡ pwr_unknown) ⊎ (last ≡ n.power)
        → same_power state last ≡ false
    differs last (inl e) = rw e told
    differs last (inr e) = rw e moved

-- The switch over the states and the table agree.
as_list-when : (b : Bool) (text : Bytes) → as_list (if b then some text else none) ≡ when b text
as_list-when true text = refl
as_list-when false text = refl

power_text-transition :
    (cfg : NotifyConfig) (was state : PowerState) (soc minutes : ℤ)
    → as_list (
        if not (same_power state was) && not (same_power was pwr_unknown)
        then power_text cfg was state soc minutes
        else none)
      ≡ transition cfg was state soc minutes
unfolding power_text
power_text-transition cfg pwr_line pwr_battery soc minutes = as_list-when cfg.on_power _
power_text-transition cfg pwr_battery pwr_line soc minutes = as_list-when cfg.on_power _
power_text-transition cfg pwr_offline pwr_battery soc minutes = as_list-when cfg.on_link _
power_text-transition cfg pwr_offline pwr_line soc minutes = as_list-when cfg.on_link _
power_text-transition cfg pwr_line pwr_offline soc minutes = as_list-when cfg.on_link _
power_text-transition cfg pwr_battery pwr_offline soc minutes = as_list-when cfg.on_link _
power_text-transition cfg pwr_line pwr_line soc minutes = refl
power_text-transition cfg pwr_battery pwr_battery soc minutes = refl
power_text-transition cfg pwr_offline pwr_offline soc minutes = refl
power_text-transition cfg pwr_unknown pwr_line soc minutes = refl
power_text-transition cfg pwr_unknown pwr_battery soc minutes = refl
power_text-transition cfg pwr_unknown pwr_offline soc minutes = refl
power_text-transition cfg pwr_unknown pwr_unknown soc minutes = refl
power_text-transition cfg pwr_line pwr_unknown soc minutes = refl
power_text-transition cfg pwr_battery pwr_unknown soc minutes = refl
power_text-transition cfg pwr_offline pwr_unknown soc minutes = refl

power_event-Queues :
    (n : Notifier) (now : ℕ) (state : PowerState) (soc minutes : ℤ)
    → IsGuarded n
    → same_power state pwr_unknown ≡ false
    → (n.started && n.cfg.enabled) ≡ true
    → length n.queue + 1 ≤ 6
    → Queues now
        (transition n.cfg n.power state soc minutes)
        n
        (power_event n now state soc minutes)
      × ((power_event n now state soc minutes).batt_decile ≡ n.batt_decile)
unfolding power_event
power_event-Queues n now state soc minutes guarded told on room =
    let moved = not (same_power state n.power) && not (same_power n.power pwr_unknown) in
    rw (← power_text-transition n.cfg n.power state soc minutes) (elim (Bool-cases moved) [
      | inl e ↦
          let passes = guard_allows-passes n state now guarded told (ground (arith, e)) in
          let noted : Notifier = record n { last_event_state = state; last_event_us = now } in
          let (sent, kept) =
            send_opt-Queues noted now (power_text n.cfg n.power state soc minutes) on room in
          rw (e, passes)
            (
              record {
                queue = sent.queue;
                cfg = sent.cfg;
                label = sent.label;
                started = sent.started;
                power = sent.power;
                low_batt = sent.low_batt;
              },
              kept,
            )
      | inr e ↦ rw e (send_opt-Queues n now none on room)
    ])

-- A step behind another one.
Queues-then :
    (now : ℕ) (ts us : List Bytes) (n middle after : Notifier)
    → Queues now ts n middle
    → Queues now us middle after
    → Queues now (ts ++ us) n after
Queues-then now ts us n middle after q r = record {
  queue =
      r.queue
      ∙ (ap (λ q'. q' ++ map (message middle now) us) q.queue
          ∙ (append_assoc n.queue _ _
              ∙ ap (λ l. n.queue ++ l)
                  (ap (λ label. map (message n now) ts ++ map (note label) us) q.label
                    ∙ sym (map-append (message n now) ts us))));
  cfg = r.cfg ∙ q.cfg;
  label = r.label ∙ q.label;
  started = r.started ∙ q.started;
  power = r.power ∙ q.power;
  low_batt = r.low_batt ∙ q.low_batt;
}
  where
    note : Bytes → Bytes → Msg
    note label text = record { text = fit msg_max (labelled label text); queued_us = now }

-- A message that is sent where `b` holds.
when-Queues :
    (n : Notifier) (now : ℕ) (b : Bool) (text : Bytes)
    → (n.started && n.cfg.enabled) ≡ true
    → length n.queue + 1 ≤ 6
    → Queues now (when b text) n (if b then (notify_send n now text).0 else n)
      × ((if b then (notify_send n now text).0 else n).batt_decile ≡ n.batt_decile)
when-Queues n now true text on room = send_opt-Queues n now (some text) on room
when-Queues n now false text on room = send_opt-Queues n now none on room

low_event-Queues :
    (n : Notifier) (now : ℕ) (state : PowerState) (low : Bool) (soc minutes : ℤ)
    → (n.started && n.cfg.enabled) ≡ true
    → length n.queue + 1 ≤ 6
    → Queues now
        (low_edge n.cfg.on_low_batt n.low_batt low state soc minutes)
        n
        (low_event n now state low soc minutes)
      × ((low_event n now state low soc minutes).batt_decile ≡ n.batt_decile)
unfolding low_event
low_event-Queues n now state low soc minutes on room = edge n.low_batt low state n.cfg.on_low_batt
  where
    after : Bool → Bool → PowerState → Bool → Notifier
    after was low state c =
        if low && not was && c
        then (notify_send n now (low_text soc minutes)).0
        else if not low && was && c && same_power state pwr_line
        then (notify_send n now no_longer_low_text).0
        else n

    edge :
        (was low : Bool) (state : PowerState) (c : Bool)
        → Queues now (low_edge c was low state soc minutes) n (after was low state c)
          × ((after was low state c).batt_decile ≡ n.batt_decile)
    edge false true state c = when-Queues n now c (low_text soc minutes) on room
    edge false false state c = send_opt-Queues n now none on room
    edge true true state c = send_opt-Queues n now none on room
    edge true false pwr_line true = when-Queues n now true no_longer_low_text on room
    edge true false pwr_line false = when-Queues n now false no_longer_low_text on room
    edge true false pwr_battery true = send_opt-Queues n now none on room
    edge true false pwr_battery false = send_opt-Queues n now none on room
    edge true false pwr_offline true = send_opt-Queues n now none on room
    edge true false pwr_offline false = send_opt-Queues n now none on room
    edge true false pwr_unknown true = send_opt-Queues n now none on room
    edge true false pwr_unknown false = send_opt-Queues n now none on room

-- The tracked decile is not part of what is kept.
retracked : (n : Notifier) (now : ℕ) (d : ℤ) → Queues now [] n (record n { batt_decile = d })
retracked n now d = record {
  queue = sym (append_nil n.queue);
  cfg = refl;
  label = refl;
  started = refl;
  power = refl;
  low_batt = refl;
}

remind-Queues :
    (n : Notifier) (now : ℕ) (state : PowerState) (soc minutes : ℤ)
    → (n.started && n.cfg.enabled) ≡ true
    → length n.queue + 1 ≤ 6
    → Queues now (fallen n.cfg n.batt_decile state soc minutes) n (remind n now state soc minutes)
unfolding remind
remind-Queues n now pwr_line soc minutes on room = retracked n now minus_one
remind-Queues n now pwr_offline soc minutes on room = retracked n now minus_one
remind-Queues n now pwr_unknown soc minutes on room = retracked n now minus_one
remind-Queues n now pwr_battery soc minutes on room =
    drains n.cfg.on_battery_pct (ltb_ℤ n.batt_decile (pos 0)) (ltb_ℤ (decile soc) n.batt_decile)
  where
    tracked : Notifier
    tracked = record n { batt_decile = decile soc }

    drains :
        (wanted fresh below : Bool)
        → Queues now (when (wanted && (not fresh && below)) (reminder_text soc minutes)) n (
            if wanted
            then if fresh
              then tracked
              else if below
              then (notify_send tracked now (reminder_text soc minutes)).0
              else n
            else n)
    drains false fresh below = retracked n now n.batt_decile
    drains true true below = retracked n now (decile soc)
    drains true false false = retracked n now n.batt_decile
    drains true false true =
        let told = (send_opt-Queues tracked now (some (reminder_text soc minutes)) on room).0 in
        record {
          queue = told.queue;
          cfg = told.cfg;
          label = told.label;
          started = told.started;
          power = told.power;
          low_batt = told.low_batt;
        }

length-when : (b : Bool) (text : Bytes) → length (when b text) ≤ 1
length-when true text = omega arith
length-when false text = omega arith

length-transition :
    (cfg : NotifyConfig) (was state : PowerState) (soc minutes : ℤ)
    → length (transition cfg was state soc minutes) ≤ 1
length-transition cfg pwr_line pwr_battery soc minutes = length-when cfg.on_power _
length-transition cfg pwr_battery pwr_line soc minutes = length-when cfg.on_power _
length-transition cfg pwr_offline pwr_battery soc minutes = length-when cfg.on_link _
length-transition cfg pwr_offline pwr_line soc minutes = length-when cfg.on_link _
length-transition cfg pwr_line pwr_offline soc minutes = length-when cfg.on_link _
length-transition cfg pwr_battery pwr_offline soc minutes = length-when cfg.on_link _
length-transition cfg pwr_line pwr_line soc minutes = omega arith
length-transition cfg pwr_battery pwr_battery soc minutes = omega arith
length-transition cfg pwr_offline pwr_offline soc minutes = omega arith
length-transition cfg pwr_unknown _ soc minutes = omega arith
length-transition cfg pwr_line pwr_unknown soc minutes = omega arith
length-transition cfg pwr_battery pwr_unknown soc minutes = omega arith
length-transition cfg pwr_offline pwr_unknown soc minutes = omega arith

length-low_edge :
    (wanted was low : Bool) (state : PowerState) (soc minutes : ℤ)
    → length (low_edge wanted was low state soc minutes) ≤ 1
length-low_edge wanted false true state soc minutes = length-when wanted _
length-low_edge wanted true false pwr_line soc minutes = length-when wanted _
length-low_edge wanted true false pwr_battery soc minutes = omega arith
length-low_edge wanted true false pwr_offline soc minutes = omega arith
length-low_edge wanted true false pwr_unknown soc minutes = omega arith
length-low_edge wanted false false state soc minutes = omega arith
length-low_edge wanted true true state soc minutes = omega arith

-- The room that is left behind a step.
Queues-room :
    (now k : ℕ) (ts : List Bytes) (n after : Notifier)
    → Queues now ts n after
    → length ts ≤ 1
    → length n.queue + suc k ≤ 6
    → length after.queue + k ≤ 6
Queues-room now k ts n after q few room =
    let size =
      ap length q.queue
      ∙ (length-append n.queue (map (message n now) ts)
          ∙ ap (λ l. length n.queue + l) (length-map ts (message n now))) in
    omega (arith, size)

Queues-on :
    (now : ℕ) (ts : List Bytes) (n after : Notifier)
    → Queues now ts n after
    → (n.started && n.cfg.enabled) ≡ true
    → (after.started && after.cfg.enabled) ≡ true
Queues-on now ts n after q on =
    ap (λ b. b && after.cfg.enabled) q.started
    ∙ (ap (λ (c : NotifyConfig). n.started && c.enabled) q.cfg ∙ on)

-- What a status that tells `state` and `low` does to a notifier with room for its messages.
pub note_power-alerts :
    (n : Notifier) (now : ℕ) (state : PowerState) (low : Bool) (soc minutes : ℤ)
    → IsGuarded n
    → same_power state pwr_unknown ≡ false
    → (n.started && n.cfg.enabled) ≡ true
    → length n.queue + 3 ≤ 6
    → (note_power n now state low soc minutes).queue
      ≡ n.queue ++ map (message n now) (alerts n state low soc minutes)
unfolding note_power
note_power-alerts n now state low soc minutes guarded told on room =
    let (lit, d1) = power_event-Queues n now state soc minutes guarded told on (omega arith) in
    let n1 = power_event n now state soc minutes in
    let few = length-transition n.cfg n.power state soc minutes in
    let on1 = Queues-on now _ n n1 lit on in
    let room1 = Queues-room now 2 _ n n1 lit few room in
    let (edge, d2) = low_event-Queues n1 now state low soc minutes on1 (omega arith) in
    let n2 = low_event n1 now state low soc minutes in
    let same_edge =
      ap (λ (c : NotifyConfig). low_edge c.on_low_batt n1.low_batt low state soc minutes) lit.cfg
      ∙ ap (λ b. low_edge n.cfg.on_low_batt b low state soc minutes) lit.low_batt in
    let edge' = subst (λ ts. Queues now ts n1 n2) same_edge edge in
    let few2 = length-low_edge n.cfg.on_low_batt n.low_batt low state soc minutes in
    let on2 = Queues-on now _ n1 n2 edge' on1 in
    let room2 = Queues-room now 1 _ n1 n2 edge' few2 room1 in
    let drop = remind-Queues n2 now state soc minutes on2 room2 in
    let same_drop =
      ap (λ c. fallen c n2.batt_decile state soc minutes) (edge.cfg ∙ lit.cfg)
      ∙ ap (λ d. fallen n.cfg d state soc minutes) (d2 ∙ d1) in
    let drop' = subst (λ ts. Queues now ts n2 (remind n2 now state soc minutes)) same_drop drop in
    (Queues-then now _ _ n n1 _ lit (Queues-then now _ _ n1 n2 _ edge' drop')).queue

-- ===== src/Notify/Status/Alerts/Guarded.antt =====
-- What every status keeps (components/notify/notify.c): the guard's memory, and the messages before it.
use esp32_nut_bluetti.Prelude.{
  ℕ, ◌+◌, ◌-◌, ◌≤◌, ◌≡◌, refl, ◌∙◌, ap, sym, Bool, true, false, not, ◌&&◌, Option, none, some, List,
  [], ◌∷◌, ◌++◌, ◌⊎◌, inl, inr, if◌then◌else◌, ltb, arith, length, if_ind, Bool-cases, Option-cases,
  map,
}
use mathlib.Core.List.{append_assoc}
use esp32_nut_bluetti.Prelude.Int.{ℤ, pos, ltb_ℤ}
use esp32_nut_bluetti.Prelude.Text.{Bytes, codes}
use esp32_nut_bluetti.Notify.State.{
  PowerState, pwr_unknown, pwr_line, pwr_battery, pwr_offline, same_power, Notifier, Msg, message,
  queue_depth, repeat_guard_us, notify_send,
}
use esp32_nut_bluetti.Notify.Status.{
  contains, guard_allows, power_of, low_text, no_longer_low_text, reminder_text, power_text,
  send_opt, power_event, low_event, decile, remind, note_power, notify_ups_status,
}
use esp32_nut_bluetti.Notify.Status.Alerts.{IsGuarded, alerts, note_power-alerts}

same_power→eq : (a b : PowerState) → same_power a b ≡ true → a ≡ b
same_power→eq pwr_line pwr_line e = refl
same_power→eq pwr_battery pwr_battery e = refl
same_power→eq pwr_offline pwr_offline e = refl
same_power→eq pwr_unknown pwr_unknown e = refl
same_power→eq pwr_line pwr_battery e = absurd (cc)
same_power→eq pwr_line pwr_offline e = absurd (cc)
same_power→eq pwr_line pwr_unknown e = absurd (cc)
same_power→eq pwr_battery pwr_line e = absurd (cc)
same_power→eq pwr_battery pwr_offline e = absurd (cc)
same_power→eq pwr_battery pwr_unknown e = absurd (cc)
same_power→eq pwr_offline pwr_line e = absurd (cc)
same_power→eq pwr_offline pwr_battery e = absurd (cc)
same_power→eq pwr_offline pwr_unknown e = absurd (cc)
same_power→eq pwr_unknown pwr_line e = absurd (cc)
same_power→eq pwr_unknown pwr_battery e = absurd (cc)
same_power→eq pwr_unknown pwr_offline e = absurd (cc)

-- What sending a message, or nothing, keeps: the queue only grows, up to its depth, and the guard's memory
-- stays.
pub record Grows (n after : Notifier) : Type 0 where
  pub more : List Msg
  pub queue : after.queue ≡ n.queue ++ more
  pub last : after.last_event_state ≡ n.last_event_state

append_nil {ℓ} : {A : Type ℓ} (xs : List A) → xs ++ [] ≡ xs
append_nil [] = refl
append_nil (x ∷ xs) = ap (λ l. x ∷ l) (append_nil xs)

Grows-same :
    (n after : Notifier)
    → after.queue ≡ n.queue
    → after.last_event_state ≡ n.last_event_state
    → Grows n after
Grows-same n after q l = record { more = []; queue = q ∙ sym (append_nil n.queue); last = l }

Grows-then : (n middle after : Notifier) → Grows n middle → Grows middle after → Grows n after
Grows-then n middle after g h = record {
  more = g.more ++ h.more;
  queue = h.queue ∙ (ap (λ q. q ++ h.more) g.queue ∙ append_assoc n.queue _ _);
  last = h.last ∙ g.last;
}

pub notify_send-Grows : (n : Notifier) (now : ℕ) (text : Bytes) → Grows n (notify_send n now text).0
unfolding notify_send
notify_send-Grows n now text =
    let Good = λ (r : Notifier × Bool). Grows n r.0 in
    if_ind Good (not (n.started && n.cfg.enabled)) _ _ (λ off. Grows-same n n refl refl)
      (λ on.
        if_ind Good (ltb (length n.queue) queue_depth) _ _
          (λ room. record { more = _; queue = refl; last = refl })
          (λ full. Grows-same n n refl refl))

send_opt-Grows : (n : Notifier) (now : ℕ) (text : Option Bytes) → Grows n (send_opt n now text)
send_opt-Grows n now none = Grows-same n n refl refl
send_opt-Grows n now (some text) = notify_send-Grows n now text

low_event-Grows :
    (n : Notifier) (now : ℕ) (state : PowerState) (low : Bool) (soc minutes : ℤ)
    → Grows n (low_event n now state low soc minutes)
unfolding low_event
low_event-Grows n now state low soc minutes =
    let Good = Grows n in
    if_ind Good (low && not n.low_batt && n.cfg.on_low_batt) _ _
      (λ e. notify_send-Grows n now (low_text soc minutes))
      (λ e.
        if_ind Good (not low && n.low_batt && n.cfg.on_low_batt && same_power state pwr_line) _ _
          (λ k. notify_send-Grows n now no_longer_low_text) (λ k. Grows-same n n refl refl))

remind-Grows :
    (n : Notifier) (now : ℕ) (state : PowerState) (soc minutes : ℤ)
    → Grows n (remind n now state soc minutes)
unfolding remind
remind-Grows n now state soc minutes =
    let Good = Grows n in
    let tracked : Notifier = record n { batt_decile = decile soc } in
    let told = notify_send-Grows tracked now (reminder_text soc minutes) in
    let unsaid = Grows-same n n refl refl in
    if_ind Good (same_power state pwr_battery && n.cfg.on_battery_pct) _ _
      (λ e.
        if_ind Good (ltb_ℤ n.batt_decile (pos 0)) _ _ (λ k. Grows-same n _ refl refl)
          (λ k.
            if_ind Good (ltb_ℤ (decile soc) n.batt_decile) _ _
              (λ l. record { more = told.more; queue = told.queue; last = told.last })
              (λ l. unsaid)))
      (λ e.
        if_ind Good (not (same_power state pwr_battery)) _ _ (λ k. Grows-same n _ refl refl)
          (λ k. unsaid))

-- The guard's memory behind a transition: nothing yet, or the state that it led to.
abbrev pub Noted : Notifier → PowerState → Type 0
Noted after state = (after.last_event_state ≡ pwr_unknown) ⊎ (after.last_event_state ≡ state)

guard_allows-Noted :
    (n : Notifier) (state : PowerState) (now : ℕ)
    → ((guard_allows n state now).0.queue ≡ n.queue) × Noted (guard_allows n state now).0 state
unfolding guard_allows
guard_allows-Noted n state now =
    let Good = λ (r : Notifier × Bool). (r.0.queue ≡ n.queue) × Noted r.0 state in
    if_ind Good (same_power state n.last_event_state && ltb (now - n.last_event_us) repeat_guard_us)
      _ _
      (λ again. (refl, inr (sym (same_power→eq state n.last_event_state (ground (arith, again))))))
      (λ else'. (refl, inr refl))

Noted-kept :
    (g after : Notifier) (state : PowerState) → Grows g after → Noted g state → Noted after state
Noted-kept g after state grows (inl e) = inl (grows.last ∙ e)
Noted-kept g after state grows (inr e) = inr (grows.last ∙ e)

-- Without a transition.
Noted-still :
    (n : Notifier) (state : PowerState)
    → IsGuarded n
    → (not (same_power state n.power) && not (same_power n.power pwr_unknown)) ≡ false
    → Noted n state
Noted-still n state (inl e) moved = inl e
Noted-still n state (inr e) moved = elim (Bool-cases (same_power state n.power)) [
  | inl same ↦ inr (e ∙ sym (same_power→eq state n.power same))
  | inr other ↦
      let unknown : same_power n.power pwr_unknown ≡ true = ground (arith, moved, other) in
      inl (e ∙ same_power→eq n.power pwr_unknown unknown)
]

-- A transition leaves the guard with the memory of the new state.
power_event-Noted :
    (n : Notifier) (now : ℕ) (state : PowerState) (soc minutes : ℤ)
    → IsGuarded n
    → ((more : List Msg) × ((power_event n now state soc minutes).queue ≡ n.queue ++ more))
      × Noted (power_event n now state soc minutes) state
unfolding power_event
power_event-Noted n now state soc minutes guarded =
    let Good = λ (after : Notifier).
      ((more : List Msg) × (after.queue ≡ n.queue ++ more)) × Noted after state in
    let moved = not (same_power state n.power) && not (same_power n.power pwr_unknown) in
    let g = (guard_allows n state now).0 in
    let (queue, noted) = guard_allows-Noted n state now in
    let told = send_opt-Grows g now (power_text n.cfg n.power state soc minutes) in
    if_ind Good moved _ _
      (λ e.
        if_ind Good (guard_allows n state now).1 _ _
          (λ k. (
            (told.more, told.queue ∙ ap (λ q. q ++ told.more) queue),
            Noted-kept g _ state told noted,
          ))
          (λ k. (([], queue ∙ sym (append_nil n.queue)), noted)))
      (λ e. (([], sym (append_nil n.queue)), Noted-still n state guarded e))

-- A status lets the queue only grow, and leaves a notifier guarded that is.
pub note_power-IsGuarded :
    (n : Notifier) (now : ℕ) (state : PowerState) (low : Bool) (soc minutes : ℤ)
    → IsGuarded n
    → ((more : List Msg) × ((note_power n now state low soc minutes).queue ≡ n.queue ++ more))
      × IsGuarded (note_power n now state low soc minutes)
unfolding note_power
note_power-IsGuarded n now state low soc minutes guarded =
    let ((more, queue), noted) = power_event-Noted n now state soc minutes guarded in
    let n1 = power_event n now state soc minutes in
    let n2 = low_event n1 now state low soc minutes in
    let n3 = remind n2 now state soc minutes in
    let rest =
      Grows-then n1 n2 n3 (low_event-Grows n1 now state low soc minutes)
        (remind-Grows n2 now state soc minutes) in
    (
      (more ++ rest.more, rest.queue ∙ (ap (λ q. q ++ rest.more) queue ∙ append_assoc n.queue _ _)),
      Noted-kept n1 n3 state rest noted,
    )

pub notify_ups_status-IsGuarded :
    (n : Notifier) (now : ℕ) (status : Bytes) (soc minutes : ℤ)
    → IsGuarded n
    → ((more : List Msg) × ((notify_ups_status n now status soc minutes).queue ≡ n.queue ++ more))
      × IsGuarded (notify_ups_status n now status soc minutes)
unfolding notify_ups_status
notify_ups_status-IsGuarded n now status soc minutes guarded =
    let Good = λ (after : Notifier).
      ((more : List Msg) × (after.queue ≡ n.queue ++ more)) × IsGuarded after in
    let still : Good n = (([], sym (append_nil n.queue)), guarded) in
    if_ind Good (not (n.started && n.cfg.enabled)) _ _ (λ off. still)
      (λ on. elim (Option-cases (power_of status)) [
        | inl e ↦ rw e still
        | inr (state, e) ↦
            rw e
              (note_power-IsGuarded n now state (contains (codes "LB") status) soc minutes guarded)
      ])

power_of-told :
    (status : Bytes) (state : PowerState)
    → power_of status ≡ some state
    → same_power state pwr_unknown ≡ false
unfolding power_of
power_of-told status state e =
    told (contains (codes "WAIT") status) _ (contains (codes "OB") status)
      (contains (codes "OL") status) state e
  where
    told :
        (wait off ob ol : Bool) (state : PowerState)
        → (if wait
            then none
            else if off
            then some pwr_offline
            else if ob
            then some pwr_battery
            else if ol
            then some pwr_line
            else none)
          ≡ some state
        → same_power state pwr_unknown ≡ false
    told true off ob ol pwr_unknown e = absurd (cc)
    told false true ob ol pwr_unknown e = absurd (cc)
    told false false true ol pwr_unknown e = absurd (cc)
    told false false false true pwr_unknown e = absurd (cc)
    told false false false false pwr_unknown e = absurd (cc)
    told wait off ob ol pwr_line e = refl
    told wait off ob ol pwr_battery e = refl
    told wait off ob ol pwr_offline e = refl

-- A status that tells a state queues the messages of the table.
pub notify_ups_status-alerts :
    (n : Notifier) (now : ℕ) (status : Bytes) (state : PowerState) (soc minutes : ℤ)
    → IsGuarded n
    → (n.started && n.cfg.enabled) ≡ true
    → length n.queue + 3 ≤ 6
    → power_of status ≡ some state
    → (notify_ups_status n now status soc minutes).queue
      ≡ n.queue ++ map (message n now) (alerts n state (contains (codes "LB") status) soc minutes)
unfolding notify_ups_status
notify_ups_status-alerts n now status state soc minutes guarded on room tells =
    rw (on, tells)
      (note_power-alerts n now state (contains (codes "LB") status) soc minutes guarded
        (power_of-told status state tells) on room)

-- ===== src/Main/Notified.antt =====
-- What the notifications see in the statuses that main.c gives them.
use esp32_nut_bluetti.Prelude.{
  ℕ, ◌≡◌, refl, Bool, true, false, not, ◌&&◌, ◌||◌, some, [], ◌++◌, map, length, ◌+◌, ◌≤◌,
  if◌then◌else◌, ◌↔◌, sym,
}
use esp32_nut_bluetti.Prelude.Text.{Bytes, codes}
use esp32_nut_bluetti.Prelude.Int.{ℤ}
use esp32_nut_bluetti.BtRegs.State.{BluettiState}
use esp32_nut_bluetti.Notify.State.{Notifier, PowerState, pwr_line, pwr_battery, message}
use esp32_nut_bluetti.Notify.Status.{contains, power_of, notify_ups_status}
use esp32_nut_bluetti.Notify.Status.Alerts.{IsGuarded, alerts}
use esp32_nut_bluetti.Notify.Status.Alerts.Guarded.{notify_ups_status-alerts}
use esp32_nut_bluetti.Main.{is_low_charge, is_low_runtime, power_status}
use esp32_nut_bluetti.Main.Flags.{IsLow, is_low_charge-IsLow}

-- The state of a reading.
abbrev pub state_of : BluettiState → PowerState
state_of st = if st.ac_input_present then pwr_line else pwr_battery

abbrev pub is_low : ℕ → BluettiState → Bool
is_low low st = not st.ac_input_present && (is_low_charge st || is_low_runtime low st)

power_status-told :
    (low : ℕ) (st : BluettiState)
    → (power_of (power_status low st) ≡ some (state_of st))
      × (contains (codes "LB") (power_status low st) ≡ is_low low st)
unfolding power_status power_of contains
power_status-told low st =
    cases st.ac_input_present st.charging (is_low_charge st || is_low_runtime low st)
  where
    text : Bool → Bool → Bool → Bytes
    text present charging low =
        if present
        then codes "OL" ++ (if charging then codes " CHRG" else [])
        else codes "OB"
          ++ ((if low then codes " LB" else [])
              ++ (if charging then codes " CHRG" else codes " DISCHRG"))

    cases :
        (present charging low : Bool)
        → (power_of (text present charging low) ≡ some (if present then pwr_line else pwr_battery))
          × (contains (codes "LB") (text present charging low) ≡ (not present && low))
    cases true true low = (refl, refl)
    cases true false low = (refl, refl)
    cases false true true = (refl, refl)
    cases false true false = (refl, refl)
    cases false false true = (refl, refl)
    cases false false false = (refl, refl)

same_truth : (a b : Bool) → (a ≡ true → b ≡ true) → (b ≡ true → a ≡ true) → a ≡ b
same_truth true b f g = sym (f refl)
same_truth false true f g = g refl
same_truth false false f g = refl

is_low_iff :
    (low : ℕ) (st : BluettiState)
    → (is_low low st ≡ true) ↔ ((st.ac_input_present ≡ false) × IsLow low st)
is_low_iff low st = off_and st.ac_input_present _ (is_low_charge-IsLow low st)
  where
    off_and :
        {A : Type 0} (present low : Bool)
        → (low ≡ true) ↔ A
        → ((not present && low) ≡ true) ↔ ((present ≡ false) × A)
    off_and true low h = (λ e. absurd (cc), λ (e, a). absurd (cc))
    off_and false low h = (λ e. (refl, h.0 e), λ (e, a). h.1 a)

-- The status of a complete sweep raises the messages of the table for just the reading that it was made
-- from: the mains for a reading with AC input, the battery for one without, and a low battery exactly for
-- one without AC input whose charge or runtime is low. The notifier is started and enabled, its guard
-- remembers no other event than the last transition, and its queue has room for three messages.
pub power_status-alerts :
    (n : Notifier) (now low : ℕ) (st : BluettiState) (soc minutes : ℤ) (is_low : Bool)
    → IsGuarded n
    → (n.started && n.cfg.enabled) ≡ true
    → length n.queue + 3 ≤ 6
    → (is_low ≡ true) ↔ ((st.ac_input_present ≡ false) × IsLow low st)
    → (notify_ups_status n now (power_status low st) soc minutes).queue
      ≡ n.queue ++ map (message n now) (alerts n (state_of st) is_low soc minutes)
power_status-alerts n now low st soc minutes low_shown guarded on room means =
    let (tells, lb) = power_status-told low st in
    let spec = is_low_iff low st in
    let same =
      same_truth low_shown (is_low low st) (λ e. spec.1 (means.0 e)) (λ e. means.1 (spec.0 e)) in
    rw (same, ← lb)
      (notify_ups_status-alerts n now (power_status low st) (state_of st) soc minutes guarded on
        room tells)

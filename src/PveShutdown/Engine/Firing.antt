-- ===== src/PveShutdown/Engine/Firing.antt =====
-- When `pve_eval` (pve_engine.c) shuts a host or a guest down, as an exact condition.
use mathlib.Core.Option
use esp32_nut_bluetti.Prelude.{
  ℕ, Bool, true, false, not, ◌&&◌, ◌||◌, Option, none, some, List, ◌≡◌, ◌+◌, ◌*◌, ◌<◌, ◌≤◌, ◌⊎◌,
  ◌↔◌, inl, inr, ap, arith, is_some, Bool-cases, ◌∙◌,
}
use esp32_nut_bluetti.Prelude.Int.{pos, ◌≤ℤ◌}
use esp32_nut_bluetti.Prelude.Text.{Bytes}
use esp32_nut_bluetti.PveShutdown.Engine.{
  Guest, Host, battery, Obs, GuestEngine, HostEngine, Engine, us_per_min, find_guest_state,
  trigger_met, clear_guest, clear_guests, eval_guests, fire_host_if_met, eval_host,
}
use esp32_nut_bluetti.PveShutdown.Engine.Guests.{
  is_configured, any_due, Outcome, Outcome-trans, Outcome-of_eq, eval_guests-Outcome,
  sweep_guests-Outcome, find-clear_guests,
}

-- The rule for thresholds of `minutes` on battery and of a charge of `pct` percent; 0 turns one off.
abbrev pub IsDue : ℕ → ℕ → Engine → Obs → ℕ → Type 0
IsDue minutes pct st obs now_us =
    ((0 < minutes)
      × (st.on_battery ≡ true)
      × (st.on_battery_since_us + minutes * us_per_min ≤ now_us))
    ⊎ ((0 < pct) × (obs.power ≡ battery) × (pos 0 ≤ℤ obs.soc_pct) × (obs.soc_pct ≤ℤ pos pct))

-- `trigger_met` answers true exactly by the rule: the timer needs a running countdown and no live
-- reading, the charge test needs a live reading on battery.
pub trigger_met-IsDue :
    (minutes pct : ℕ) (st : Engine) (obs : Obs) (now_us : ℕ)
    → (is_some (trigger_met minutes pct st obs now_us) ≡ true) ↔ IsDue minutes pct st obs now_us
unfolding trigger_met
trigger_met-IsDue minutes pct st obs now_us = (λ h. ground arith, λ h. ground arith)

abbrev pub host_due : Host → Engine → Obs → ℕ → Bool
host_due h st obs now_us = is_some (trigger_met h.on_battery_min h.charge_pct st obs now_us)

abbrev pub host_fires : Host → Engine → Obs → ℕ → HostEngine → Bool
host_fires h st obs now_us he = not he.fired && (h.enabled && host_due h st obs now_us)

fire_host_if_met_flags :
    (met : Option Bytes) (guests : List Guest) (he : HostEngine)
    → ((fire_host_if_met met guests he).1 ≡ is_some met)
      × ((fire_host_if_met met guests he).0.fired ≡ (he.fired || is_some met))
unfolding fire_host_if_met
fire_host_if_met_flags none guests he = ground arith
fire_host_if_met_flags (some text) guests he = ground arith

-- A host fires in a call exactly if it is enabled, not latched, and its own trigger is met; it is
-- latched afterwards exactly if it fired or was latched and the mains is not back.
pub eval_host_flags :
    (back : Bool) (h : Host) (guests : List Guest) (st : Engine) (obs : Obs) (now_us : ℕ)
    (he : HostEngine)
    → ((eval_host back h guests st obs now_us he).1 ≡ host_fires h st obs now_us he)
      × ((eval_host back h guests st obs now_us he).0.fired
          ≡ ((he.fired && not back) || host_fires h st obs now_us he))
unfolding eval_host
eval_host_flags back h guests st obs now_us he = ground (
  arith,
  fire_host_if_met_flags (trigger_met h.on_battery_min h.charge_pct st obs now_us) guests
      (record he { guests = eval_guests guests st obs now_us (clear_guests back he.guests) }),
)

-- Whether a guest goes in this call: by its own trigger, or with its node, and only while its host is
-- enabled and not latched.
abbrev pub guest_due : Host → List Guest → Engine → Obs → ℕ → HostEngine → ℕ → Bool
guest_due h guests st obs now_us he id =
    not he.fired
    && (h.enabled
        && (any_due guests id st obs now_us
            || (host_due h st obs now_us && is_configured guests id)))

fire_host_if_met-Outcome :
    (met : Option Bytes) (guests : List Guest) (he : HostEngine) (id : ℕ) (s : GuestEngine)
    → find_guest_state he.guests id ≡ some s
    → Outcome
        (is_some met && is_configured guests id)
        id
        s
        (fire_host_if_met met guests he).0.guests
unfolding fire_host_if_met
fire_host_if_met-Outcome none guests he id s h = (s, h, ground arith)
fire_host_if_met-Outcome (some text) guests he id s h =
    sweep_guests-Outcome guests _ he.guests id s h

-- The guests after a host's round, on each path through it.
module _ (back : Bool) (h : Host) (guests : List Guest) (st : Engine) (obs : Obs) (now_us : ℕ)
    (he : HostEngine) where
  abbrev after : HostEngine
  after = (eval_host back h guests st obs now_us he).0

  guests_idle : not he.fired && h.enabled ≡ false → clear_guests back he.guests ≡ after.guests
  unfolding eval_host
  guests_idle e = ground arith

  guests_live :
      not he.fired && h.enabled ≡ true
      → (fire_host_if_met
          (trigger_met h.on_battery_min h.charge_pct st obs now_us)
          guests
          (record he {
            guests = eval_guests guests st obs now_us (clear_guests back he.guests);
          })).0.guests
        ≡ after.guests
  unfolding eval_host
  guests_live e = ground arith

  eval_host-Outcome :
      (id : ℕ) (s : GuestEngine)
      → find_guest_state he.guests id ≡ some s
      → Outcome (guest_due h guests st obs now_us he id) id (clear_guest back s) after.guests
  eval_host-Outcome id s found =
      let cleared =
        find-clear_guests back he.guests id ∙ ap (Option.map (clear_guest back)) found in
      elim (Bool-cases (not he.fired && h.enabled)) [
        | inl live ↦
            let (t, found_t, early) =
              eval_guests-Outcome guests st obs now_us _ id (clear_guest back s) cleared in
            let swept = record he {
              guests = eval_guests guests st obs now_us (clear_guests back he.guests);
            } in
            Outcome-of_eq _ _ id (clear_guest back s) _ _ (ground arith) (guests_live live) (
              Outcome-trans _ _ id (clear_guest back s) t _ early (
                fire_host_if_met-Outcome (trigger_met h.on_battery_min h.charge_pct st obs now_us)
                  guests swept id t found_t))
        | inr idle ↦
            Outcome-of_eq false _ id (clear_guest back s) _ _ (ground arith) (guests_idle idle)
              (clear_guest back s, cleared, ground arith)
      ]

  -- What one call leaves of a guest's state: latched exactly if it was latched and the mains is not
  -- back, or it goes now; marked as fired in this call exactly if it goes now and was not latched.
  pub eval_host-guest :
      (id : ℕ) (s : GuestEngine)
      → find_guest_state he.guests id ≡ some s
      → (s' : GuestEngine) × (find_guest_state
            (eval_host back h guests st obs now_us he).0.guests
            id
          ≡ some s')
        × (s'.fired ≡ ((s.fired && not back) || guest_due h guests st obs now_us he id))
        × (s'.fired_now ≡ (not (s.fired && not back) && guest_due h guests st obs now_us he id))
  unfolding clear_guest
  eval_host-guest id s found =
      let (s', at, due) = eval_host-Outcome id s found in (s', at, ground arith, ground arith)

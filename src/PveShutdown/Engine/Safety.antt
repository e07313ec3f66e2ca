-- ===== src/PveShutdown/Engine/Safety.antt =====
-- The fail-safe of `pve_eval` (pve_engine.c): with no outage confirmed nothing is shut down.
use esp32_nut_bluetti.Prelude.{
  ℕ, zero, suc, not, get_or, if_ind, Bool, true, false, none, some, List, [], ◌∷◌, ◌≡◌, refl, ◌⊎◌,
  ◌≢◌, ap, arith, get_elem?, ◌∙◌,
}
use esp32_nut_bluetti.PveShutdown.Engine.{
  Guest, Host, Config, line, battery, Obs, GuestEngine, HostEngine, Engine, trigger_met,
  find_guest_state, clear_guest, clear_guests, eval_guest, eval_guests, fire_if_met, eval_host,
  observe_power, mains_back, eval_hosts, eval,
}
use esp32_nut_bluetti.PveShutdown.Engine.Sync.{NoneFiredNow}
use esp32_nut_bluetti.PveShutdown.Engine.Calls.{edges, At, eval-get}
use esp32_nut_bluetti.PveShutdown.Engine.Guests.{is_latched, find-clear_guests}

clear_guests-NoneFiredNow :
    (back : Bool) (gst : List GuestEngine) → NoneFiredNow (clear_guests back gst)
unfolding clear_guests clear_guest
clear_guests-NoneFiredNow back [] = tt
clear_guests-NoneFiredNow back (s ∷ gst) = (ground arith, clear_guests-NoneFiredNow back gst)

-- No outage: not on battery now, and no countdown running.
abbrev pub NoOutage : Engine → Obs → Type 0
NoOutage st obs = (st.on_battery ≡ false) × (obs.power ≢ battery)

trigger_met-NoOutage :
    (minutes pct : ℕ) (st : Engine) (obs : Obs) (now_us : ℕ)
    → NoOutage st obs
    → trigger_met minutes pct st obs now_us ≡ none
unfolding trigger_met
trigger_met-NoOutage minutes pct st obs now_us safe = ground arith

eval_guests-NoOutage :
    (guests : List Guest) (st : Engine) (obs : Obs) (now_us : ℕ) (gst : List GuestEngine)
    → NoOutage st obs
    → eval_guests guests st obs now_us gst ≡ gst
unfolding eval_guests eval_guest
eval_guests-NoOutage [] st obs now_us gst safe = refl
eval_guests-NoOutage (g ∷ guests) st obs now_us gst safe =
    rw (trigger_met-NoOutage g.on_battery_min g.charge_pct st obs now_us safe, fire_if_met)
      (eval_guests-NoOutage guests st obs now_us gst safe)

module _ (back : Bool) (h : Host) (guests : List Guest) (st : Engine) (obs : Obs) (now_us : ℕ)
    (he : HostEngine) (safe : NoOutage st obs) where
  eval_host-NoOutage :
      ((eval_host back h guests st obs now_us he).1 ≡ false)
      × ((eval_host back h guests st obs now_us he).0.guests ≡ clear_guests back he.guests)
      × (he.fired ≡ false → (eval_host back h guests st obs now_us he).0.fired ≡ false)
  unfolding eval_host
  eval_host-NoOutage =
      let quiet = trigger_met-NoOutage h.on_battery_min h.charge_pct st obs now_us safe in
      let same = eval_guests-NoOutage guests st obs now_us (clear_guests back he.guests) safe in
      (ground arith, ground arith, ground arith)

edges-NoOutage :
    (st : Engine) (obs : Obs) (now_us : ℕ)
    → obs.power ≢ battery
    → (obs.power ≡ line) ⊎ (st.on_battery ≡ false)
    → NoOutage (edges st obs now_us) obs
unfolding observe_power
edges-NoOutage st obs now_us calm quiet = (ground arith, calm)

clear_latch :
    (back : Bool) (gst : List GuestEngine) (id : ℕ)
    → is_latched (find_guest_state (clear_guests back gst) id) ≡ true
    → is_latched (find_guest_state gst id) ≡ true
unfolding clear_guest
clear_latch back gst id h = ground (arith, find-clear_guests back gst id)

-- Fail-safe: where the reading is not "on battery" and either says "on mains" or no countdown is
-- running, the call fires nothing: the host's bit is clear, no guest is marked as fired in this call,
-- and no latch of the host or of one of its guests is newly set.
pub eval_fail_safe :
    (cfg : Config) (guests : List (List Guest)) (st : Engine) (obs : Obs) (now_us i : ℕ) (h : Host)
    (g : List Guest) (he : HostEngine)
    → cfg.enabled ≡ true
    → At cfg guests st i h g he
    → obs.power ≢ battery
    → (obs.power ≡ line) ⊎ (st.on_battery ≡ false)
    → (get_elem? (eval cfg guests st obs now_us).1 i ≡ some false)
      × (he' : HostEngine) × (get_elem? (eval cfg guests st obs now_us).0.hosts i ≡ some he')
      × (he.fired ≡ false → he'.fired ≡ false)
      × NoneFiredNow he'.guests
      × ((id : ℕ)
          → is_latched (find_guest_state he'.guests id) ≡ true
          → is_latched (find_guest_state he.guests id) ≡ true)
eval_fail_safe cfg guests st obs now_us i h g he on at calm quiet =
    let st' = edges st obs now_us in
    let back = mains_back cfg st' now_us in
    let (state, bit) = eval-get cfg guests st obs now_us on i h g he at in
    let (no_bit, cleared, no_latch) =
      eval_host-NoOutage back h g st' obs now_us he (edges-NoOutage st obs now_us calm quiet) in
    (
      bit ∙ ap some no_bit,
      (eval_host back h g st' obs now_us he).0,
      state,
      no_latch,
      rw cleared (clear_guests-NoneFiredNow back he.guests),
      λ id. rw cleared (clear_latch back he.guests id),
    )

eval_hosts-NoOutage :
    (back : Bool) (hs : List Host) (gs : List (List Guest)) (st : Engine) (obs : Obs) (now_us : ℕ)
    (hes : List HostEngine) (i : ℕ)
    → NoOutage st obs
    → get_or (eval_hosts back hs gs st obs now_us hes).1 i false ≡ false
unfolding eval_hosts
eval_hosts-NoOutage back [] gs st obs now_us hes i safe = refl
eval_hosts-NoOutage back (h ∷ hs) [] st obs now_us hes i safe = refl
eval_hosts-NoOutage back (h ∷ hs) (g ∷ gs) st obs now_us [] i safe = refl
eval_hosts-NoOutage back (h ∷ hs) (g ∷ gs) st obs now_us (he ∷ hes) zero safe =
    (eval_host-NoOutage back h g st obs now_us he safe).0
eval_hosts-NoOutage back (h ∷ hs) (g ∷ gs) st obs now_us (he ∷ hes) (suc i) safe =
    eval_hosts-NoOutage back hs gs st obs now_us hes i safe

-- Enabled or not, with such a reading a call sets no bit.
pub eval-quiet :
    (cfg : Config) (guests : List (List Guest)) (st : Engine) (obs : Obs) (now_us i : ℕ)
    → obs.power ≢ battery
    → (obs.power ≡ line) ⊎ (st.on_battery ≡ false)
    → get_or (eval cfg guests st obs now_us).1 i false ≡ false
unfolding eval
eval-quiet cfg guests st obs now_us i calm quiet =
    let st' = edges st obs now_us in
    let none_set =
      eval_hosts-NoOutage (mains_back cfg st' now_us) cfg.hosts guests st' obs now_us st'.hosts i
        (edges-NoOutage st obs now_us calm quiet) in
    if_ind (λ (r : Engine × List Bool). get_or r.1 i false ≡ false) (not cfg.enabled) _ _
      (λ e. refl) (λ e. none_set)

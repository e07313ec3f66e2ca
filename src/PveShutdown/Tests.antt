-- ===== src/PveShutdown/Tests.antt =====
-- An outage driven through the engine of components/pve_shutdown/pve_engine.c: one host at ten minutes
-- or 20 %, with guest 101 at five minutes and guest 102 with no trigger of its own.
use esp32_nut_bluetti.Prelude.{
  ℕ, Bool, true, false, ◌&&◌, some, List, [], ◌∷◌, ◌≡◌, refl, ◌+◌, ◌*◌, ◌<◌, ◌≤◌, ◌≢◌, ◌↔◌, inr,
  arith, get_elem?, is_some,
}
use esp32_nut_bluetti.Prelude.Int.{pos, minus_one}
use esp32_nut_bluetti.Prelude.Text.{codes, decimal, fit}
use esp32_nut_bluetti.PveShutdown.Engine.{
  Guest, Host, Config, unknown, line, battery, Obs, GuestEngine, HostEngine, Engine, us_per_min,
  us_per_s, find_guest_state, sync_guests, trigger_met, battery_text, charge_text, observe_power,
  mains_back, clear_guests, eval_guests, sweep_guests, eval_host, eval_hosts, eval, countdown_s,
}
use esp32_nut_bluetti.PveShutdown.Engine.Guests.{ids, guest_ids, is_latched, is_configured}
use esp32_nut_bluetti.PveShutdown.Engine.Sync.{NoneFiredNow, sync_lem, sync-sync}
use esp32_nut_bluetti.PveShutdown.Engine.Firing.{
  IsDue, trigger_met-IsDue, eval_host-guest, guest_due,
}
use esp32_nut_bluetti.PveShutdown.Engine.Calls.{At, edges, eval_fires_iff}
use esp32_nut_bluetti.PveShutdown.Engine.Safety.{eval_fail_safe}
use esp32_nut_bluetti.PveShutdown.Engine.Traces.{run, fire_count, fires_once, outage_latches}
use esp32_nut_bluetti.PveShutdown.Engine.Countdown.{
  countdown_predicts, countdown_bounds, IsCounting,
}
use esp32_nut_bluetti.PveShutdown.Engine.Invariant.{AreValid, IsValidHost, eval-AreValid}
use esp32_nut_bluetti.PveShutdown.Observe.{Runtime, take_job, run_worker}
use esp32_nut_bluetti.PveShutdown.Observe.Worker.{Drained, run_worker-Drained}

abbrev nas : Host
nas = record {
  enabled = true;
  url = codes "https://10.0.0.10:8006";
  node = codes "nas";
  token_id = codes "ups@pve!shutdown";
  secret = codes "s";
  guest_wait_s = 0;
  shutdown_node = true;
  fingerprint = codes "AB";
  on_battery_min = 10;
  charge_pct = 20;
}

abbrev unused : Host
unused = record nas { enabled = false }

abbrev config : Config
config = record {
  enabled = true;
  armed = true;
  mains_back_min = 5;
  hosts = nas ∷ unused ∷ unused ∷ unused ∷ [];
}

abbrev rules : List Guest
rules =
    record { id = 101; on_battery_min = 5; charge_pct = 0 }
    ∷ record { id = 102; on_battery_min = 0; charge_pct = 0 }
    ∷ []

abbrev all_rules : List (List Guest)
all_rules = rules ∷ [] ∷ [] ∷ [] ∷ []

abbrev guest_state : ℕ → Bool → GuestEngine
guest_state id latched = record { id = id; fired = latched; fired_now = false; reason = [] }

abbrev idle_guests : List GuestEngine
idle_guests = guest_state 101 false ∷ guest_state 102 false ∷ []

abbrev idle_host : List GuestEngine → HostEngine
idle_host gst = record { fired = false; reason = []; guests = gst }

abbrev hosts : List HostEngine
hosts = idle_host idle_guests ∷ idle_host [] ∷ idle_host [] ∷ idle_host [] ∷ []

abbrev fresh : Engine
fresh = record {
  on_battery = false;
  on_battery_since_us = 0;
  on_mains = false;
  mains_since_us = 0;
  hosts = hosts;
}

-- An outage that began at 7 s.
abbrev outage : Engine
outage = record fresh { on_battery = true; on_battery_since_us = 7 * us_per_s }

abbrev on_line : Obs
on_line = record { power = line; soc_pct = pos 90 }

abbrev on_battery_at : ℕ → Obs
on_battery_at soc = record { power = battery; soc_pct = pos soc }

abbrev lost : Obs
lost = record { power = unknown; soc_pct = minus_one }

abbrev at_minute : ℕ → ℕ
at_minute m = 7 * us_per_s + m * us_per_min

nas_entry : At config all_rules fresh 0 nas rules (idle_host idle_guests)
nas_entry = record { host = refl; rules = refl; state = refl }

nas_entry_later : At config all_rules outage 0 nas rules (idle_host idle_guests)
nas_entry_later = record { host = refl; rules = refl; state = refl }

-- At five minutes the disposable guest goes, at ten the node takes the other one.
five_minutes :
    (eval config all_rules outage lost (at_minute 5)).1 ≡ false ∷ false ∷ false ∷ false ∷ []
unfolding eval eval_hosts eval_host observe_power mains_back clear_guests eval_guests trigger_met
    battery_text sweep_guests decimal fit
five_minutes = refl

ten_minutes :
    (eval config all_rules outage lost (at_minute 10)).1 ≡ true ∷ false ∷ false ∷ false ∷ []
unfolding eval eval_hosts eval_host observe_power mains_back clear_guests eval_guests trigger_met
    battery_text sweep_guests decimal fit
ten_minutes = refl

low_charge : trigger_met 0 20 fresh (on_battery_at 15) 0 ≡ some (codes "charge 15% (limit 20%)")
unfolding trigger_met charge_text decimal
low_charge = refl

sync_lem_example :
    (ids (sync_guests (guest_state 102 true ∷ []) rules) ≡ guest_ids rules)
    × ((id : ℕ)
        → is_latched (find_guest_state (sync_guests (guest_state 102 true ∷ []) rules) id) ≡ (
            is_configured rules id && is_latched (find_guest_state (guest_state 102 true ∷ []) id)))
    × NoneFiredNow (sync_guests (guest_state 102 true ∷ []) rules)
sync_lem_example = sync_lem (guest_state 102 true ∷ []) rules

sync-sync_example :
    sync_guests (sync_guests (guest_state 102 true ∷ []) rules) rules
    ≡ sync_guests (guest_state 102 true ∷ []) rules
sync-sync_example = sync-sync (guest_state 102 true ∷ []) rules

trigger_met-IsDue_example :
    (is_some (trigger_met 10 20 outage lost (at_minute 10)) ≡ true)
    ↔ IsDue 10 20 outage lost (at_minute 10)
trigger_met-IsDue_example = trigger_met-IsDue 10 20 outage lost (at_minute 10)

eval_fires_iff_example :
    (get_elem? (eval config all_rules outage lost (at_minute 10)).1 0 ≡ some true) ↔ (
      (false ≡ false)
      × (true ≡ true)
      × IsDue 10 20 (edges outage lost (at_minute 10)) lost (at_minute 10))
eval_fires_iff_example =
    eval_fires_iff config all_rules outage lost (at_minute 10) refl 0 nas rules
      (idle_host idle_guests) nas_entry_later

eval_host-guest_example :
    (s' : GuestEngine) × (find_guest_state
        (eval_host false nas rules outage lost (at_minute 5) (idle_host idle_guests)).0.guests
        101
      ≡ some s')
    × (s'.fired ≡ guest_due nas rules outage lost (at_minute 5) (idle_host idle_guests) 101)
    × (s'.fired_now ≡ guest_due nas rules outage lost (at_minute 5) (idle_host idle_guests) 101)
unfolding find_guest_state
eval_host-guest_example =
    eval_host-guest false nas rules outage lost (at_minute 5) (idle_host idle_guests) 101
      (guest_state 101 false) refl

eval_fail_safe_example :
    (get_elem? (eval config all_rules fresh lost (at_minute 10)).1 0 ≡ some false)
    × (he' : HostEngine) × (get_elem? (eval config all_rules fresh lost (at_minute 10)).0.hosts 0
        ≡ some he')
    × (false ≡ false → he'.fired ≡ false)
    × NoneFiredNow he'.guests
    × ((id : ℕ)
        → is_latched (find_guest_state he'.guests id) ≡ true
        → is_latched (find_guest_state idle_guests id) ≡ true)
eval_fail_safe_example =
    eval_fail_safe config all_rules fresh lost (at_minute 10) 0 nas rules (idle_host idle_guests)
      refl nas_entry (λ e. cc) (inr refl)

fires_once_example :
    fire_count 0
      (run config all_rules fresh ((on_battery_at 90, at_minute 0) ∷ (lost, at_minute 10) ∷ [])).1
    ≤ 1
fires_once_example =
    fires_once config all_rules fresh ((on_battery_at 90, at_minute 0) ∷ (lost, at_minute 10) ∷ [])
      0 nas rules (idle_host idle_guests) refl nas_entry ((λ e. cc), ((λ e. cc), tt))

outage_latches_example :
    (he' : HostEngine) × (get_elem?
        (run config all_rules fresh (
          (on_battery_at 90, at_minute 0)
          ∷ (lost, at_minute 3)
          ∷ (lost, at_minute 10)
          ∷ [])).0.hosts
        0
      ≡ some he')
    × (he'.fired ≡ true)
outage_latches_example =
    outage_latches config all_rules fresh 0 nas rules (idle_host idle_guests) (on_battery_at 90)
      (at_minute 0) ((lost, at_minute 3) ∷ []) lost (at_minute 10) refl nas_entry refl (omega arith)
      refl refl ((λ e. cc), tt) (λ e. cc) (omega arith)

countdown_predicts_example :
    (at_minute 9 < at_minute 1 + 540 * us_per_s
      → get_elem? (eval config all_rules outage lost (at_minute 9)).1 0 ≢ some true)
    × (at_minute 1 + 541 * us_per_s ≤ at_minute 9
        → get_elem? (eval config all_rules outage lost (at_minute 9)).1 0 ≡ some true)
unfolding countdown_s
countdown_predicts_example =
    countdown_predicts config all_rules outage (at_minute 1) 0 nas rules (idle_host idle_guests) 540
      lost (at_minute 9) nas_entry_later refl refl (omega arith)

countdown_bounds_example :
    (IsCounting config outage nas (idle_host idle_guests)
      → (k : ℕ) × (countdown_s config outage (pos 0) (at_minute 1) ≡ pos k) × (k ≤ 65535 * 60))
    × (¬ IsCounting config outage nas (idle_host idle_guests)
        → countdown_s config outage (pos 0) (at_minute 1) ≡ minus_one)
countdown_bounds_example =
    countdown_bounds config all_rules outage (at_minute 1) 0 nas rules (idle_host idle_guests)
      nas_entry_later (omega arith) (omega arith) (omega arith)

start_valid : AreValid all_rules hosts
start_valid = (
  record { synced = refl; reason_fits = omega arith; reasons_fit = omega arith },
  (unused_valid, (unused_valid, (unused_valid, tt))),
)
  where
    unused_valid : IsValidHost [] (idle_host [])
    unused_valid = record { synced = refl; reason_fits = omega arith; reasons_fit = tt }

eval-AreValid_example :
    AreValid all_rules (eval config all_rules outage lost (at_minute 10)).0.hosts
eval-AreValid_example = eval-AreValid config all_rules outage lost (at_minute 10) start_valid

-- Host 1 is to be shut down, guests of hosts 0 and 1 too.
abbrev busy : Runtime
busy = record {
  cfg = config;
  guests = all_rules;
  eng = fresh;
  started = true;
  running = true;
  pending_hosts = false ∷ true ∷ false ∷ false ∷ [];
  pending_guests =
      record { host = 0; id = 101; reason = [] }
      ∷ record { host = 1; id = 201; reason = [] }
      ∷ record { host = 0; id = 102; reason = [] }
      ∷ [];
}

run_worker-Drained_example : Drained 0 busy (run_worker 5 busy)
run_worker-Drained_example = run_worker-Drained 5 0 busy (omega arith)

jobs_test :
    (run_worker 5 busy).1
    ≡ record {
      host = 1;
      node_pending = true;
      batch = record { host = 1; id = 201; reason = [] } ∷ [];
    }
      ∷ record {
        host = 0;
        node_pending = false;
        batch =
            record { host = 0; id = 101; reason = [] }
            ∷ record { host = 0; id = 102; reason = [] }
            ∷ [];
      }
      ∷ []
unfolding run_worker take_job
jobs_test = refl

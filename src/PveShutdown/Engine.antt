-- ===== src/PveShutdown/Engine.antt =====
-- components/pve_shutdown/pve_engine.c: the decision which hosts and guests to shut down. A function
-- that updates `*st` returns the new record.
-- Times are the microseconds of esp_timer_get_time, which counts up from 0 at boot, as ℕ.
pub mod Guests
pub mod Sync
pub mod Firing
pub mod Calls
pub mod Safety
pub mod Traces
pub mod Countdown
pub mod Invariant
use esp32_nut_bluetti.Prelude.{
  ℕ, ◌+◌, ◌-◌, ◌*◌, ◌/◌, Bool, true, false, not, ◌&&◌, ◌||◌, Option, none, some, List, [], ◌∷◌,
  ◌++◌, ltb, leb, ◌==◌, if◌then◌else◌, get_elem?,
}
use esp32_nut_bluetti.Prelude.Int.{ℤ, pos, negsuc, pos_part, leb_ℤ, minus_one}
use esp32_nut_bluetti.Prelude.Text.{Bytes, codes, decimal, fit}

abbrev pub max_hosts : ℕ
max_hosts = 4

abbrev pub us_per_s : ℕ
us_per_s = 1000000

abbrev pub us_per_min : ℕ
us_per_min = 60 * us_per_s

-- `pve_guest_t`. An id is an int that the code only compares; it is given by its bit pattern.
pub record Guest : Type 0 where
  pub id : ℕ
  pub on_battery_min : ℕ  -- uint16_t
  pub charge_pct : ℕ  -- uint8_t

-- `pve_host_t`
pub record Host : Type 0 where
  pub enabled : Bool
  pub url : Bytes
  pub node : Bytes
  pub token_id : Bytes
  pub secret : Bytes
  pub guest_wait_s : ℕ
  pub shutdown_node : Bool
  pub fingerprint : Bytes
  pub on_battery_min : ℕ  -- uint16_t
  pub charge_pct : ℕ  -- uint8_t

-- `pve_config_t`; `hosts` has `max_hosts` entries.
pub record Config : Type 0 where
  pub enabled : Bool
  pub armed : Bool
  pub mains_back_min : ℕ  -- uint16_t
  pub hosts : List Host

-- `pve_power_t`
pub data Power : Type 0 where
  unknown line battery : Power

-- `pve_obs_t`; the charge is -1 where it is not known.
pub record Obs : Type 0 where
  pub power : Power
  pub soc_pct : ℤ

-- `pve_guest_engine_t`
pub record GuestEngine : Type 0 where
  pub id : ℕ
  pub fired : Bool
  pub fired_now : Bool
  pub reason : Bytes

-- One index of the arrays `fired`, `reason` and `guests` of `pve_engine_t`.
pub record HostEngine : Type 0 where
  pub fired : Bool
  pub reason : Bytes
  pub guests : List GuestEngine

-- `pve_engine_t`; `hosts` has `max_hosts` entries.
pub record Engine : Type 0 where
  pub on_battery : Bool
  pub on_battery_since_us : ℕ
  pub on_mains : Bool
  pub mains_since_us : ℕ
  pub hosts : List HostEngine

abbrev pub host_reason_size : ℕ
host_reason_size = 64

abbrev pub guest_reason_size : ℕ
guest_reason_size = 96

-- The scan of `find_guest_state`: the first entry of that id.
unfoldable pub find_guest_state : List GuestEngine → ℕ → Option GuestEngine
find_guest_state [] id = none
find_guest_state (x ∷ xs) id = if x.id == id then some x else find_guest_state xs id

-- A write through the pointer that `find_guest_state` returns; nothing where it returns NULL.
unfoldable pub update_guest_state :
    List GuestEngine → ℕ → (GuestEngine → GuestEngine) → List GuestEngine
update_guest_state [] id f = []
update_guest_state (x ∷ xs) id f = if x.id == id then f x ∷ xs else x ∷ update_guest_state xs id f

-- One round of the loop of `pve_engine_sync_guests`: calloc, then what an old entry carries over.
unfoldable pub fresh_guest : List GuestEngine → ℕ → GuestEngine
fresh_guest st_guests id = elim (find_guest_state st_guests id) [
  | none ↦ record { id = id; fired = false; fired_now = false; reason = [] }
  | some old ↦ record {
    id = id;
    fired = old.fired;
    fired_now = false;
    reason = fit guest_reason_size old.reason;
  }
]

unfoldable pub sync_guests : List GuestEngine → List Guest → List GuestEngine
unfolding fresh_guest
sync_guests st_guests [] = []
sync_guests st_guests (g ∷ cfg_guests) =
    fresh_guest st_guests g.id ∷ sync_guests st_guests cfg_guests

-- `now_us - since >= minutes * US_PER_MIN`, over the integers.
abbrev pub minutes_passed : ℕ → ℕ → ℕ → Bool
minutes_passed since_us minutes now_us = leb (since_us + minutes * us_per_min) now_us

abbrev pub is_battery : Power → Bool
is_battery battery = true
is_battery _ = false

-- The two texts that `trigger_met` prints; the charge is not negative there.
unfoldable pub battery_text : ℕ → Bytes
battery_text on_battery_min = codes "on battery for " ++ (decimal on_battery_min ++ codes " min")

unfoldable pub charge_text : ℤ → ℕ → Bytes
charge_text soc_pct charge_pct =
    codes "charge "
    ++ (decimal (pos_part soc_pct) ++ (codes "% (limit " ++ (decimal charge_pct ++ codes "%)")))

-- `trigger_met`: the text for the reason buffer where it returns true, before it is fitted to the
-- caller's buffer.
unfoldable pub trigger_met : ℕ → ℕ → Engine → Obs → ℕ → Option Bytes
trigger_met on_battery_min charge_pct st obs now_us =
    if ltb 0 on_battery_min
      && (st.on_battery && minutes_passed st.on_battery_since_us on_battery_min now_us)
    then some (battery_text on_battery_min)
    else if is_battery obs.power
        && (ltb 0 charge_pct && (leb_ℤ (pos 0) obs.soc_pct && leb_ℤ obs.soc_pct (pos charge_pct)))
    then some (charge_text obs.soc_pct charge_pct)
    else none

-- The switch on `obs->power`: what it does to the two edges.
unfoldable pub observe_power : Power → Engine → ℕ → Engine
observe_power battery st now_us = record st {
  on_battery = true;
  on_battery_since_us = if st.on_battery then st.on_battery_since_us else now_us;
  on_mains = false;
}
observe_power line st now_us = record st {
  on_battery = false;
  on_mains = true;
  mains_since_us = if st.on_mains then st.mains_since_us else now_us;
}
observe_power unknown st now_us = record st { on_mains = false }

-- `mains_back` of `pve_eval`, on the edges as the switch leaves them.
unfoldable pub mains_back : Config → Engine → ℕ → Bool
mains_back cfg st now_us =
    ltb 0 cfg.mains_back_min
    && (st.on_mains && minutes_passed st.mains_since_us cfg.mains_back_min now_us)

-- The two loops over the guests' states at the head of a host's round.
unfoldable pub clear_guest : Bool → GuestEngine → GuestEngine
clear_guest back s =
    if back && s.fired
    then record s { fired_now = false; fired = false; reason = [] }
    else record s { fired_now = false }

unfoldable pub clear_guests : Bool → List GuestEngine → List GuestEngine
unfolding clear_guest
clear_guests back [] = []
clear_guests back (s ∷ gst) = clear_guest back s ∷ clear_guests back gst

-- `if (!gs || gs->fired) continue;`, then the latch with its reason.
unfoldable pub fire_guest : Bytes → GuestEngine → GuestEngine
fire_guest text s =
    if s.fired
    then s
    else record s { reason = fit guest_reason_size text; fired = true; fired_now = true }

-- The guest's own trigger, as `trigger_met` answered: its latch and its reason.
unfoldable pub fire_if_met : Option Bytes → ℕ → List GuestEngine → List GuestEngine
fire_if_met none id gst = gst
fire_if_met (some text) id gst = update_guest_state gst id (fire_guest text)

-- One round of the loop over a host's configured guests.
unfoldable pub eval_guest : Guest → Engine → Obs → ℕ → List GuestEngine → List GuestEngine
unfolding fire_if_met
eval_guest g st obs now_us gst =
    fire_if_met (trigger_met g.on_battery_min g.charge_pct st obs now_us) g.id gst

unfoldable pub eval_guests : List Guest → Engine → Obs → ℕ → List GuestEngine → List GuestEngine
unfolding eval_guest fire_guest
eval_guests [] st obs now_us gst = gst
eval_guests (g ∷ guests) st obs now_us gst =
    eval_guests guests st obs now_us (eval_guest g st obs now_us gst)

unfoldable pub node_text : Bytes → Bytes
node_text reason = codes "with the node (" ++ (reason ++ codes ")")

-- The last loop: every configured guest that has not gone goes with the node.
unfoldable pub sweep_guests : List Guest → Bytes → List GuestEngine → List GuestEngine
unfolding fire_guest node_text
sweep_guests [] reason gst = gst
sweep_guests (g ∷ guests) reason gst =
    sweep_guests guests reason (update_guest_state gst g.id (fire_guest (node_text reason)))

-- The end of a host's round, as `trigger_met` answered for the host itself.
unfoldable pub fire_host_if_met : Option Bytes → List Guest → HostEngine → HostEngine × Bool
fire_host_if_met none guests he = (he, false)
fire_host_if_met (some text) guests he =
    let reason = fit host_reason_size text in
    (record { fired = true; reason = reason; guests = sweep_guests guests reason he.guests }, true)

-- One round of the loop over the hosts: the host's new state and its bit of `out.hosts`. `st` gives
-- the edges, which the loop does not change.
unfoldable pub eval_host :
    Bool → Host → List Guest → Engine → Obs → ℕ → HostEngine → HostEngine × Bool
unfolding fire_host_if_met
eval_host back h guests st obs now_us he =
    let gst = clear_guests back he.guests in
    if he.fired
    then (
      if back
          then record { fired = false; reason = []; guests = gst }
          else record he { guests = gst },
      false,
    )
    else if not h.enabled
    then (record he { guests = gst }, false)
    else fire_host_if_met (trigger_met h.on_battery_min h.charge_pct st obs now_us) guests
        (record he { guests = eval_guests guests st obs now_us gst })

-- The loop over the hosts. The three arrays have `max_hosts` entries each. The flags are the bits of
-- `out.hosts`, the lowest first.
unfoldable pub eval_hosts :
    Bool
    → List Host
    → List (List Guest)
    → Engine
    → Obs
    → ℕ
    → List HostEngine
    → List HostEngine × List Bool
eval_hosts back (h ∷ hs) (g ∷ gs) st obs now_us (he ∷ hes) =
    let (he', fires) = eval_host back h g st obs now_us he in
    let (rest, bits) = eval_hosts back hs gs st obs now_us hes in (he' ∷ rest, fires ∷ bits)
eval_hosts back _ _ st obs now_us hes = (hes, [])

-- `pve_eval`: the new engine, and `out.hosts` as its bits (none is set where the list is empty).
unfoldable pub eval : Config → List (List Guest) → Engine → Obs → ℕ → Engine × List Bool
eval cfg guests st obs now_us =
    if not cfg.enabled
    then (record st { on_battery = false; on_mains = false }, [])
    else let st' = observe_power obs.power st now_us in
      let (hosts, bits) =
        eval_hosts (mains_back cfg st' now_us) cfg.hosts guests st' obs now_us st'.hosts in
      (record st' { hosts = hosts }, bits)

-- `left > 0 ? (int)(left / US_PER_S) : 0` with `left = due - now_us` over the integers.
abbrev pub seconds_left : ℕ → ℕ → ℕ → ℤ
seconds_left since_us minutes now_us = pos ((since_us + minutes * us_per_min - now_us) / us_per_s)

-- `pve_countdown_s` for an index in range.
unfoldable pub host_countdown : Config → Engine → Host → HostEngine → ℕ → ℤ
host_countdown cfg st h he now_us =
    if not cfg.enabled
      || (not h.enabled || (h.on_battery_min == 0 || (not st.on_battery || he.fired)))
    then minus_one
    else seconds_left st.on_battery_since_us h.on_battery_min now_us

unfoldable pub countdown_s : Config → Engine → ℤ → ℕ → ℤ
unfolding host_countdown
countdown_s cfg st (negsuc i) now_us = minus_one
countdown_s cfg st (pos i) now_us =
    if leb max_hosts i then minus_one else elim (get_elem? cfg.hosts i) [
      | none ↦ minus_one
      | some h ↦ elim (get_elem? st.hosts i) [
        | none ↦ minus_one
        | some he ↦ host_countdown cfg st h he now_us
      ]
    ]

-- The scan for the configured guest in `pve_guest_countdown_s`.
unfoldable pub find_guest : List Guest → ℕ → Option Guest
find_guest [] id = none
find_guest (g ∷ guests) id = if g.id == id then some g else find_guest guests id

-- The scan for a state of that id that is latched, among all of them.
unfoldable pub guest_latched : List GuestEngine → ℕ → Bool
guest_latched [] id = false
guest_latched (s ∷ gst) id = if s.id == id && s.fired then true else guest_latched gst id

-- `pve_guest_countdown_s` for an index in range.
unfoldable pub guest_countdown : Config → Engine → Host → HostEngine → List Guest → ℕ → ℕ → ℤ
unfolding find_guest guest_latched
guest_countdown cfg st h he guests id now_us =
    if not cfg.enabled || (not h.enabled || not st.on_battery)
    then minus_one
    else elim (find_guest guests id) [
      | none ↦ minus_one
      | some gg ↦
          if gg.on_battery_min == 0 || guest_latched he.guests id
          then minus_one
          else seconds_left st.on_battery_since_us gg.on_battery_min now_us
    ]

unfoldable pub guest_countdown_s : Config → Engine → List Guest → ℤ → ℕ → ℕ → ℤ
unfolding guest_countdown
guest_countdown_s cfg st guests (negsuc i) id now_us = minus_one
guest_countdown_s cfg st guests (pos i) id now_us =
    if leb max_hosts i then minus_one else elim (get_elem? cfg.hosts i) [
      | none ↦ minus_one
      | some h ↦ elim (get_elem? st.hosts i) [
        | none ↦ minus_one
        | some he ↦ guest_countdown cfg st h he guests id now_us
      ]
    ]

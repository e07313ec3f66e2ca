-- ===== src/PveShutdown/Engine/Traces.antt =====
-- Sequences of calls of `pve_eval` (pve_engine.c) with one configuration, as the runtime makes them
-- from one reconfiguration to the next.
use esp32_nut_bluetti.Prelude.{
  ℕ, suc, Bool, true, false, ◌||◌, some, List, [], ◌∷◌, ◌++◌, ◌≡◌, ◌+◌, ◌*◌, ◌<◌, ◌≤◌, ◌≢◌, inl, ap,
  arith, if◌then◌else◌, get_elem?, ◌∙◌,
}
use esp32_nut_bluetti.PveShutdown.Engine.{
  Guest, Host, Config, line, battery, Obs, HostEngine, Engine, us_per_min, eval_host, observe_power,
  mains_back, eval,
}
use esp32_nut_bluetti.PveShutdown.Engine.Firing.{host_fires, eval_host_flags, trigger_met-IsDue}
use esp32_nut_bluetti.PveShutdown.Engine.Calls.{edges, At, eval-get, eval_enabled}

-- A call: what was observed, and when.
abbrev pub Call : Type 0
Call = Obs × ℕ

module _ (cfg : Config) (guests : List (List Guest)) where
  -- The calls in order: the last engine, and the masks.
  pub run : Engine → List Call → Engine × List (List Bool)
  run st [] = (st, [])
  run st ((obs, now_us) ∷ calls) =
      let (st', bits) = eval cfg guests st obs now_us in
      let (last, masks) = run st' calls in (last, bits ∷ masks)

-- No reading says "on mains".
abbrev pub NoMains : List Call → Type 0
NoMains [] = Unit
NoMains ((obs, now_us) ∷ calls) = (obs.power ≢ line) × NoMains calls

-- How many masks have bit `i` set.
abbrev pub fire_count : ℕ → List (List Bool) → ℕ
fire_count i [] = 0
fire_count i (bits ∷ masks) =
    let rest = fire_count i masks in elim (get_elem? bits i) [ some true ↦ suc rest | _ ↦ rest ]

not_back :
    (cfg : Config) (st : Engine) (obs : Obs) (now_us : ℕ)
    → obs.power ≢ line
    → mains_back cfg (edges st obs now_us) now_us ≡ false
unfolding mains_back observe_power
not_back cfg st obs now_us h = ground arith

-- While the mains is not seen, a latch stays and keeps its host from firing again.
module _ (cfg : Config) (guests : List (List Guest)) (on : cfg.enabled ≡ true) (i : ℕ) (h : Host)
    (g : List Guest) (host : get_elem? cfg.hosts i ≡ some h)
    (rules : get_elem? guests i ≡ some g) where
  next : (st : Engine) (obs : Obs) (now_us : ℕ) (he : HostEngine) → HostEngine
  next st obs now_us he =
      let st' = edges st obs now_us in
      (eval_host (mains_back cfg st' now_us) h g st' obs now_us he).0

  next-state :
      (st : Engine) (obs : Obs) (now_us : ℕ) (he : HostEngine)
      → get_elem? st.hosts i ≡ some he
      → obs.power ≢ line
      → (get_elem? (eval cfg guests st obs now_us).0.hosts i ≡ some (next st obs now_us he))
        × (get_elem? (eval cfg guests st obs now_us).1 i
            ≡ some (host_fires h (edges st obs now_us) obs now_us he))
        × ((next st obs now_us he).fired
            ≡ (he.fired || host_fires h (edges st obs now_us) obs now_us he))
  unfolding next
  next-state st obs now_us he state away =
      let st' = edges st obs now_us in
      let back = mains_back cfg st' now_us in
      let got =
        eval-get cfg guests st obs now_us on i h g he
          (record { host = host; rules = rules; state = state }) in
      let flags = eval_host_flags back h g st' obs now_us he in
      (got.0, got.1 ∙ ap some flags.0, ground (arith, not_back cfg st obs now_us away, flags))

  fires_bounded :
      (calls : List Call) (st : Engine) (he : HostEngine)
      → get_elem? st.hosts i ≡ some he
      → NoMains calls
      → fire_count i (run cfg guests st calls).1 + (if he.fired then 1 else 0) ≤ 1
  unfolding run
  fires_bounded [] st he state away = ground arith
  fires_bounded ((obs, now_us) ∷ calls) st he state away =
      let (state', bit, latch) = next-state st obs now_us he state away.0 in
      let rest =
        fires_bounded calls (eval cfg guests st obs now_us).0 (next st obs now_us he) state'
          away.1 in
      ground (arith, bit, latch, rest)

-- In any sequence of calls that never sees the mains each host fires at most once.
pub fires_once :
    (cfg : Config) (guests : List (List Guest)) (st : Engine) (calls : List Call) (i : ℕ) (h : Host)
    (g : List Guest) (he : HostEngine)
    → cfg.enabled ≡ true
    → At cfg guests st i h g he
    → NoMains calls
    → fire_count i (run cfg guests st calls).1 ≤ 1
fires_once cfg guests st calls i h g he on at away =
    omega (arith, fires_bounded cfg guests on i h g at.host at.rules calls st he at.state away)

-- The countdown runs on from its first edge while the mains is not seen.
eval_keeps_clock :
    (cfg : Config) (guests : List (List Guest)) (st : Engine) (obs : Obs) (now_us : ℕ)
    → cfg.enabled ≡ true
    → obs.power ≢ line
    → st.on_battery ≡ true
    → ((eval cfg guests st obs now_us).0.on_battery ≡ true)
      × ((eval cfg guests st obs now_us).0.on_battery_since_us ≡ st.on_battery_since_us)
      × ((edges st obs now_us).on_battery ≡ true)
      × ((edges st obs now_us).on_battery_since_us ≡ st.on_battery_since_us)
unfolding observe_power
eval_keeps_clock cfg guests st obs now_us on away running =
    rw (eval_enabled cfg guests st obs now_us on)
      (ground arith, ground arith, ground arith, ground arith)

eval_starts_clock :
    (cfg : Config) (guests : List (List Guest)) (st : Engine) (obs : Obs) (now_us : ℕ)
    → cfg.enabled ≡ true
    → obs.power ≡ battery
    → st.on_battery ≡ false
    → ((eval cfg guests st obs now_us).0.on_battery ≡ true)
      × ((eval cfg guests st obs now_us).0.on_battery_since_us ≡ now_us)
unfolding observe_power
eval_starts_clock cfg guests st obs now_us on away idle =
    rw (eval_enabled cfg guests st obs now_us on) (ground arith, ground arith)

module _ (cfg : Config) (guests : List (List Guest)) (on : cfg.enabled ≡ true) (i : ℕ) (h : Host)
    (g : List Guest) (host : get_elem? cfg.hosts i ≡ some h) (rules : get_elem? guests i ≡ some g)
    (armed : h.enabled ≡ true) (timed : 0 < h.on_battery_min) (end_obs : Obs) (end_us : ℕ)
    (end_away : end_obs.power ≢ line) where
  latched_at_end :
      (calls : List Call) (st : Engine) (he : HostEngine)
      → get_elem? st.hosts i ≡ some he
      → NoMains calls
      → st.on_battery ≡ true
      → st.on_battery_since_us + h.on_battery_min * us_per_min ≤ end_us
      → (he' : HostEngine) × (get_elem?
            (run cfg guests st (calls ++ (end_obs, end_us) ∷ [])).0.hosts
            i
          ≡ some he')
        × (he'.fired ≡ true)
  unfolding run
  latched_at_end [] st he state away running due =
      let (state', bit, latch) =
        next-state cfg guests on i h g host rules st end_obs end_us he state end_away in
      let (_, _, on_battery, since) =
        eval_keeps_clock cfg guests st end_obs end_us on end_away running in
      let st' = edges st end_obs end_us in
      let met =
        (trigger_met-IsDue h.on_battery_min h.charge_pct st' end_obs end_us).1
          (inl (timed, on_battery, omega (arith, since))) in
      (_, state', ground (arith, latch, met, armed))
  latched_at_end ((obs, now_us) ∷ calls) st he state away running due =
      let (state', bit, latch) =
        next-state cfg guests on i h g host rules st obs now_us he state away.0 in
      let clock = eval_keeps_clock cfg guests st obs now_us on away.0 running in
      latched_at_end calls (eval cfg guests st obs now_us).0 _ state' away.1 clock.0
        (omega (arith, clock))

-- An outage ends in a shutdown: from the first "on battery" reading at `start_us`, whatever the
-- readings between as long as none says "on mains", the first call at or after the host's minutes
-- leaves an enabled host with a timer latched, also where that call's reading is unknown.
pub outage_latches :
    (cfg : Config) (guests : List (List Guest)) (st : Engine) (i : ℕ) (h : Host) (g : List Guest)
    (he : HostEngine) (start : Obs) (start_us : ℕ) (calls : List Call) (end_obs : Obs) (end_us : ℕ)
    → cfg.enabled ≡ true
    → At cfg guests st i h g he
    → h.enabled ≡ true
    → 0 < h.on_battery_min
    → st.on_battery ≡ false
    → start.power ≡ battery
    → NoMains calls
    → end_obs.power ≢ line
    → start_us + h.on_battery_min * us_per_min ≤ end_us
    → (he' : HostEngine) × (get_elem?
          (run cfg guests st ((start, start_us) ∷ (calls ++ (end_obs, end_us) ∷ []))).0.hosts
          i
        ≡ some he')
      × (he'.fired ≡ true)
unfolding run
outage_latches cfg guests st i h g he start start_us calls end_obs end_us on at armed timed idle
      lost away end_away due =
    let first =
      next-state cfg guests on i h g at.host at.rules st start start_us he at.state
        (ground arith) in
    let clock = eval_starts_clock cfg guests st start start_us on lost idle in
    latched_at_end cfg guests on i h g at.host at.rules armed timed end_obs end_us end_away calls
      (eval cfg guests st start start_us).0 _ first.0 away clock.0 (omega (arith, clock))

-- ===== src/PveShutdown/Engine/Calls.antt =====
-- One whole call of `pve_eval` (pve_engine.c), host by host.
use esp32_nut_bluetti.Prelude.{
  ℕ, zero, suc, Bool, true, false, some, List, [], ◌∷◌, ◌≡◌, refl, ◌↔◌, ap, arith, get_elem?, ◌∙◌,
}
use esp32_nut_bluetti.PveShutdown.Engine.{
  Guest, Host, Config, Power, unknown, line, battery, Obs, HostEngine, Engine, eval_host,
  observe_power, mains_back, eval_hosts, eval,
}
use esp32_nut_bluetti.PveShutdown.Engine.Firing.{
  IsDue, trigger_met-IsDue, host_fires, eval_host_flags,
}

pub eval_hosts-get :
    (back : Bool) (hs : List Host) (gs : List (List Guest)) (st : Engine) (obs : Obs) (now_us : ℕ)
    (hes : List HostEngine) (i : ℕ) (h : Host) (g : List Guest) (he : HostEngine)
    → get_elem? hs i ≡ some h
    → get_elem? gs i ≡ some g
    → get_elem? hes i ≡ some he
    → (get_elem? (eval_hosts back hs gs st obs now_us hes).0 i
        ≡ some (eval_host back h g st obs now_us he).0)
      × (get_elem? (eval_hosts back hs gs st obs now_us hes).1 i
          ≡ some (eval_host back h g st obs now_us he).1)
unfolding eval_hosts
eval_hosts-get back [] gs st obs now_us hes i h g he p q r = cc
eval_hosts-get back (h' ∷ hs) [] st obs now_us hes i h g he p q r = cc
eval_hosts-get back (h' ∷ hs) (g' ∷ gs) st obs now_us [] i h g he p q r = cc
eval_hosts-get back (h' ∷ hs) (g' ∷ gs) st obs now_us (he' ∷ hes) zero h g he p q r = ground arith
eval_hosts-get back (h' ∷ hs) (g' ∷ gs) st obs now_us (he' ∷ hes) (suc i) h g he p q r =
    eval_hosts-get back hs gs st obs now_us hes i h g he p q r

pub host_fires_iff :
    (h : Host) (st : Engine) (obs : Obs) (now_us : ℕ) (he : HostEngine)
    → (host_fires h st obs now_us he ≡ true) ↔ (
        (he.fired ≡ false) × (h.enabled ≡ true) × IsDue h.on_battery_min h.charge_pct st obs now_us)
host_fires_iff h st obs now_us he =
    let due = trigger_met-IsDue h.on_battery_min h.charge_pct st obs now_us in
    (λ e. (ground arith, ground arith, due.0 (ground arith)), λ e. ground (arith, due.1 e.2))

-- The edges after the switch on the power reading.
abbrev pub edges : Engine → Obs → ℕ → Engine
edges st obs now_us = observe_power obs.power st now_us

pub hosts-observe_power :
    (p : Power) (st : Engine) (now_us : ℕ) → (observe_power p st now_us).hosts ≡ st.hosts
unfolding observe_power
hosts-observe_power battery st now_us = refl
hosts-observe_power line st now_us = refl
hosts-observe_power unknown st now_us = refl

-- The three arrays hold these entries at index `i`.
pub record At (cfg : Config) (guests : List (List Guest)) (st : Engine) (i : ℕ) (h : Host)
    (g : List Guest) (he : HostEngine) : Type 0 where
  pub host : get_elem? cfg.hosts i ≡ some h
  pub rules : get_elem? guests i ≡ some g
  pub state : get_elem? st.hosts i ≡ some he

module _ (cfg : Config) (guests : List (List Guest)) (st : Engine) (obs : Obs) (now_us : ℕ)
    (on : cfg.enabled ≡ true) where
  pub eval_enabled : eval cfg guests st obs now_us ≡ (
      let st' = edges st obs now_us in
      let r = eval_hosts (mains_back cfg st' now_us) cfg.hosts guests st' obs now_us st'.hosts in
      (record st' { hosts = r.0 }, r.1))
  unfolding eval
  eval_enabled = rw on

  module _ (i : ℕ) (h : Host) (g : List Guest) (he : HostEngine)
      (at : At cfg guests st i h g he) where
    -- An enabled call is one round of the loop for each host, on the edges that the reading leaves.
    pub eval-get :
        let st' = edges st obs now_us in
        let r = eval_host (mains_back cfg st' now_us) h g st' obs now_us he in
        (get_elem? (eval cfg guests st obs now_us).0.hosts i ≡ some r.0)
        × (get_elem? (eval cfg guests st obs now_us).1 i ≡ some r.1)
    eval-get =
        let st' = edges st obs now_us in
        rw eval_enabled (
          eval_hosts-get (mains_back cfg st' now_us) cfg.hosts guests st' obs now_us st'.hosts i h g
            he at.host at.rules
            (ap (λ l. get_elem? l i) (hosts-observe_power obs.power st now_us) ∙ at.state))

    -- Bit `i` of `out.hosts` is set exactly if host `i` is enabled and not latched and its timer or its
    -- charge threshold is met.
    pub eval_fires_iff : (get_elem? (eval cfg guests st obs now_us).1 i ≡ some true) ↔ (
        (he.fired ≡ false)
        × (h.enabled ≡ true)
        × IsDue h.on_battery_min h.charge_pct (edges st obs now_us) obs now_us)
    eval_fires_iff =
        let st' = edges st obs now_us in
        let bit =
          eval-get.1
          ∙ ap some (eval_host_flags (mains_back cfg st' now_us) h g st' obs now_us he).0 in
        let fires = host_fires_iff h st' obs now_us he in
        (λ e. fires.0 (cc), λ due. bit ∙ ap some (fires.1 due))

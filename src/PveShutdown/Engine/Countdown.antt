-- ===== src/PveShutdown/Engine/Countdown.antt =====
-- `pve_countdown_s` and `pve_guest_countdown_s` (pve_engine.c) against what `pve_eval` then does.
use esp32_nut_bluetti.Prelude.{
  ℕ, suc, Bool, true, false, not, ◌||◌, some, List, ◌==◌, ◌≡◌, ◌+◌, ◌-◌, ◌/◌, ◌^◌, ◌*◌, ◌<◌, ◌≤◌,
  ◌≢◌, inl, inr, arith, get_elem?, ◌∙◌, sym, leb, Bool-cases,
}
use esp32_nut_bluetti.Prelude.Int.{pos, minus_one}
use esp32_nut_bluetti.PveShutdown.Engine.{
  Guest, Host, Config, unknown, Obs, HostEngine, Engine, us_per_min, us_per_s, max_hosts,
  host_countdown, countdown_s, observe_power, eval,
}
use esp32_nut_bluetti.PveShutdown.Engine.Calls.{edges, At, eval_fires_iff}

-- A countdown runs for an enabled host with a timer that is not latched, during an outage.
abbrev pub IsCounting : Config → Engine → Host → HostEngine → Type 0
IsCounting cfg st h he =
    (cfg.enabled ≡ true)
    × (h.enabled ≡ true)
    × (0 < h.on_battery_min)
    × (st.on_battery ≡ true)
    × (he.fired ≡ false)

host_countdown_inv :
    (cfg : Config) (st : Engine) (h : Host) (he : HostEngine) (now_us k : ℕ)
    → host_countdown cfg st h he now_us ≡ pos k
    → IsCounting cfg st h he
      × (k ≡ (st.on_battery_since_us + h.on_battery_min * us_per_min - now_us) / us_per_s)
unfolding host_countdown
host_countdown_inv cfg st h he now_us k e = (ground arith, ground arith)

-- The guard of `pve_countdown_s`.
abbrev is_idle : Config → Engine → Host → HostEngine → Bool
is_idle cfg st h he =
    not cfg.enabled || (not h.enabled || (h.on_battery_min == 0 || (not st.on_battery || he.fired)))

host_countdown_idle :
    (cfg : Config) (st : Engine) (h : Host) (he : HostEngine) (now_us : ℕ)
    → ¬ IsCounting cfg st h he
    → host_countdown cfg st h he now_us ≡ minus_one
unfolding host_countdown
host_countdown_idle cfg st h he now_us idle = elim (Bool-cases (is_idle cfg st h he)) [
  | inl e ↦ rw e
  | inr e ↦ absurd (idle (ground arith))
]

module _ (cfg : Config) (guests : List (List Guest)) (st : Engine) (now_us i : ℕ) (h : Host)
    (g : List Guest) (he : HostEngine) (at : At cfg guests st i h g he) where
  countdown_s-at :
      i < max_hosts → countdown_s cfg st (pos i) now_us ≡ host_countdown cfg st h he now_us
  unfolding countdown_s
  countdown_s-at small = let host = at.host in let state = at.state in ground arith

  countdown_s-out_of_range : leb max_hosts i ≡ true → countdown_s cfg st (pos i) now_us ≡ minus_one
  unfolding countdown_s
  countdown_s-out_of_range out = rw out

  countdown_s-in_range : (k : ℕ) → countdown_s cfg st (pos i) now_us ≡ pos k → i < max_hosts
  countdown_s-in_range k e = elim (Bool-cases (leb max_hosts i)) [
    | inl out ↦ cc (countdown_s-out_of_range out)
    | inr inside ↦ ground arith
  ]

  countdown_inv :
      (k : ℕ)
      → countdown_s cfg st (pos i) now_us ≡ pos k
      → IsCounting cfg st h he
        × (k ≡ (st.on_battery_since_us + h.on_battery_min * us_per_min - now_us) / us_per_s)
  countdown_inv k e =
      host_countdown_inv cfg st h he now_us k (sym (countdown_s-at (countdown_s-in_range k e)) ∙ e)

edges_blind :
    (st : Engine) (blind : Obs) (now_us : ℕ)
    → blind.power ≡ unknown
    → ((edges st blind now_us).on_battery ≡ st.on_battery)
      × ((edges st blind now_us).on_battery_since_us ≡ st.on_battery_since_us)
unfolding observe_power
edges_blind st blind now_us h = (ground arith, ground arith)

-- The seconds that the status page shows are what the engine does: with `k` seconds shown at `now_us`, a
-- call on that same state with an unknown reading does not fire the host if it comes less than `k` seconds
-- later, and does if it comes at least `k + 1` seconds later.
pub countdown_predicts :
    (cfg : Config) (guests : List (List Guest)) (st : Engine) (now_us i : ℕ) (h : Host)
    (g : List Guest) (he : HostEngine) (k : ℕ) (blind : Obs) (then_us : ℕ)
    → At cfg guests st i h g he
    → countdown_s cfg st (pos i) now_us ≡ pos k
    → blind.power ≡ unknown
    → now_us ≤ then_us
    → (then_us < now_us + k * us_per_s
        → get_elem? (eval cfg guests st blind then_us).1 i ≢ some true)
      × (now_us + suc k * us_per_s ≤ then_us
          → get_elem? (eval cfg guests st blind then_us).1 i ≡ some true)
countdown_predicts cfg guests st now_us i h g he k blind then_us at shown dark later =
    let (counting, value) = countdown_inv cfg guests st now_us i h g he at k shown in
    let fires = eval_fires_iff cfg guests st blind then_us counting.0 i h g he at in
    let (same, since) = edges_blind st blind then_us dark in
    (
      λ early e. ground (arith, (fires.0 e).2),
      λ due. fires.1 (counting.4, counting.1, inl (counting.2, same ∙ counting.3, omega arith)),
    )

-- -1 is returned exactly where no countdown runs, and a countdown of 16-bit minutes that started in
-- the past is at most 65535 minutes, so the conversion to int keeps its value.
pub countdown_bounds :
    (cfg : Config) (guests : List (List Guest)) (st : Engine) (now_us i : ℕ) (h : Host)
    (g : List Guest) (he : HostEngine)
    → At cfg guests st i h g he
    → i < max_hosts
    → h.on_battery_min < 2 ^ 16
    → st.on_battery_since_us ≤ now_us
    → (IsCounting cfg st h he
        → (k : ℕ) × (countdown_s cfg st (pos i) now_us ≡ pos k) × (k ≤ 65535 * 60))
      × (¬ IsCounting cfg st h he → countdown_s cfg st (pos i) now_us ≡ minus_one)
unfolding host_countdown
countdown_bounds cfg guests st now_us i h g he at small word past =
    let value = countdown_s-at cfg guests st now_us i h g he at small in
    (
      λ c. (
        (st.on_battery_since_us + h.on_battery_min * us_per_min - now_us) / us_per_s,
        ground (arith, value),
        omega arith,
      ),
      λ idle. value ∙ host_countdown_idle cfg st h he now_us idle,
    )

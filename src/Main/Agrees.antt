-- ===== src/Main/Agrees.antt =====
-- NUT clients and the shutdown engine are told the same (main/main.c).
use esp32_nut_bluetti.Prelude.{
  ℕ, ◌≡◌, ◌≢◌, refl, ◌∙◌, Bool, true, false, not, ◌&&◌, ◌||◌, some, [], ◌∷◌, ◌++◌, if◌then◌else◌,
  ◌↔◌, ◌⊎◌, sym, get_or, if_ind, Bool-cases, inl, inr,
}
use mathlib.Core.Path.{subst}
use esp32_nut_bluetti.Prelude.Int.{ℤ, minus_one}
use esp32_nut_bluetti.Prelude.Text.{Bytes, codes, bytes_eq}
use esp32_nut_bluetti.BtRegs.State.{BluettiState}
use esp32_nut_bluetti.NutServer.Vars.{set_status}
use esp32_nut_bluetti.PveShutdown.Engine.{Power, unknown, line, battery, Obs, eval}
use esp32_nut_bluetti.PveShutdown.Engine.Safety.{eval-quiet}
use esp32_nut_bluetti.PveShutdown.Observe.{Runtime, obs_of, observe}
use esp32_nut_bluetti.Main.{
  Ups, soc_int, is_low_charge, is_low_runtime, power_status, publish_power,
}
use esp32_nut_bluetti.Main.Flags.{flag, IsLow, is_low_charge-IsLow, power_status-flag}

-- The reading that the engine is given.
abbrev pub reading : BluettiState → Obs
reading st = obs_of st.sweep_done st.ac_input_present (soc_int st.soc_pct)

-- The status that is set, as clients see it.
abbrev pub shown : ℕ → BluettiState → Bytes
shown runtime_low_s st = if st.sweep_done then power_status runtime_low_s st else codes "OL WAIT"

shown-flag :
    (low : ℕ) (st : BluettiState)
    → (flag (codes "OB") (shown low st) ≡ (st.sweep_done && not st.ac_input_present))
      × (flag (codes "LB") (shown low st) ≡ (
          st.sweep_done
          && (not st.ac_input_present && (is_low_charge st || is_low_runtime low st))))
      × (flag (codes "DISCHRG") (shown low st)
          ≡ (st.sweep_done && (not st.ac_input_present && not st.charging)))
      × (flag (codes "WAIT") (shown low st) ≡ not st.sweep_done)
unfolding bytes_eq
shown-flag low st =
    let (ob, ol, lb, chrg, dischrg, wait) = power_status-flag low st in
    elim (Bool-cases st.sweep_done) [
      | inl e ↦ (simp (e, ob), simp (e, lb), simp (e, dischrg), simp (e, wait))
      | inr e ↦ (rw e refl, rw e refl, rw e refl, rw e refl)
    ]

shown-lb :
    (low : ℕ) (st : BluettiState)
    → (flag (codes "LB") (shown low st) ≡ true)
      ↔ ((st.sweep_done ≡ true) × (st.ac_input_present ≡ false) × IsLow low st)
shown-lb low st =
    let (ob, lb, dischrg, wait) = shown-flag low st in
    let is_low = is_low_charge-IsLow low st in
    let both =
      in_turn st.sweep_done st.ac_input_present (is_low_charge st || is_low_runtime low st) in
    (
      λ e. let (swept, off, b) = both.0 (sym lb ∙ e) in (swept, off, is_low.0 b),
      λ (swept, off, h). lb ∙ both.1 (swept, off, is_low.1 h),
    )
  where
    in_turn :
        (swept present low : Bool)
        → ((swept && (not present && low)) ≡ true)
          ↔ ((swept ≡ true) × (present ≡ false) × (low ≡ true))
    in_turn true true low = (λ e. absurd (cc), λ (a, b, d). absurd (cc))
    in_turn true false low = (λ e. (refl, refl, e), λ (a, b, d). d)
    in_turn false present low = (λ e. absurd (cc), λ (a, b, d). absurd (cc))

-- What a status says of the mains.
abbrev pub told : Bytes → Power
told status =
    if flag (codes "WAIT") status
    then unknown
    else if flag (codes "OB") status
    then battery
    else line

told-reading : (low : ℕ) (st : BluettiState) → told (shown low st) ≡ (reading st).power
told-reading low st =
    let (ob, lb, dischrg, wait) = shown-flag low st in
    by_flags (flag (codes "WAIT") (shown low st)) (flag (codes "OB") (shown low st)) st.sweep_done
      st.ac_input_present wait ob
  where
    by_flags :
        (w o swept present : Bool)
        → w ≡ not swept
        → o ≡ (swept && not present)
        → (if w then unknown else if o then battery else line)
          ≡ (if not swept then unknown else if present then line else battery)
    by_flags true o true present e f = absurd (cc)
    by_flags true o false present e f = refl
    by_flags false true true true e f = absurd (cc)
    by_flags false true true false e f = refl
    by_flags false false true true e f = refl
    by_flags false false true false e f = absurd (cc)
    by_flags false o false present e f = absurd (cc)

-- A status that says neither OB nor, in an outage that is counted, WAIT comes from a reading that is not "on
-- battery", and that is "on mains" or comes while no outage is counted.
calm_status :
    (status : Bytes) (counts : Bool)
    → (not (flag (codes "OB") status) && (not (flag (codes "WAIT") status) || not counts)) ≡ true
    → (told status ≢ battery) × ((told status ≡ line) ⊎ (counts ≡ false))
calm_status status counts h =
    by_flags (flag (codes "WAIT") status) (flag (codes "OB") status) counts h
  where
    by_flags :
        (w o counts : Bool)
        → (not o && (not w || not counts)) ≡ true
        → ((if w then unknown else if o then battery else line) ≢ battery)
          × (((if w then unknown else if o then battery else line) ≡ line) ⊎ (counts ≡ false))
    by_flags w true counts h = absurd (cc)
    by_flags true false true h = absurd (cc)
    by_flags true false false h = (λ e. cc, inr refl)
    by_flags false false counts h = (λ e. cc, inl refl)

-- The engine fires no host that the shown status does not explain.
fires-shown :
    (now low i : ℕ) (st : BluettiState) (p : Runtime)
    → (get_or (eval p.cfg p.guests p.eng (reading st) now).1 i false
        && (not (flag (codes "OB") (shown low st))
            && (not (flag (codes "WAIT") (shown low st)) || not p.eng.on_battery)))
      ≡ false
fires-shown now low i st p =
    let status = shown low st in
    let calm =
      not (flag (codes "OB") status)
      && (not (flag (codes "WAIT") status) || not p.eng.on_battery) in
    elim (Bool-cases calm) [
      | inl e ↦
          let (quiet, mains) = calm_status status p.eng.on_battery e in
          let no_bit =
            eval-quiet p.cfg p.guests p.eng (reading st) now i
              (subst (λ w. w ≢ battery) (told-reading low st) quiet)
              (subst (λ w. (w ≡ line) ⊎ (p.eng.on_battery ≡ false)) (told-reading low st) mains) in
          rw no_bit refl
      | inr e ↦ rw e (no_more (get_or (eval p.cfg p.guests p.eng (reading st) now).1 i false))
    ]
  where
    no_more : (b : Bool) → (b && false) ≡ false
    no_more true = refl
    no_more false = refl

-- The state behind a valid reading, with the status that it has set.
pub record Explains (now low : ℕ) (created : Bool) (st : BluettiState) (ups next : Ups)
    (status : Bytes) : Type 0 where
  -- the status is what clients see, and what the notifications are given
  pub vars : next.vars ≡ set_status ups.vars (some status)
  pub notified :
      next.notified
      ≡ (if flag (codes "WAIT") status then ups.notified else ups.notified ++ status ∷ [])
  -- what it says of the reading
  pub wait : flag (codes "WAIT") status ≡ not st.sweep_done
  pub ob : flag (codes "OB") status ≡ (st.sweep_done && not st.ac_input_present)
  pub lb :
      (flag (codes "LB") status ≡ true)
      ↔ ((st.sweep_done ≡ true) × (st.ac_input_present ≡ false) × IsLow low st)
  pub dischrg :
      flag (codes "DISCHRG") status
      ≡ (st.sweep_done && (not st.ac_input_present && not st.charging))
  -- the engine is given a reading that says of the mains what the status says
  pub same : told status ≡ (reading st).power
  pub eng : next.pve.eng ≡ (
      if ups.pve.started
      then (eval ups.pve.cfg ups.pve.guests ups.pve.eng (reading st) now).0
      else ups.pve.eng)
  -- and fires only what the status explains
  pub fires :
      (i : ℕ)
      → (get_or (eval ups.pve.cfg ups.pve.guests ups.pve.eng (reading st) now).1 i false
          && (not (flag (codes "OB") status)
              && (not (flag (codes "WAIT") status) || not ups.pve.eng.on_battery)))
        ≡ false

observe-eng :
    (p : Runtime) (now : ℕ) (created known on_mains : Bool) (soc : ℤ)
    → (observe p now created known on_mains soc).eng
      ≡ (if p.started then (eval p.cfg p.guests p.eng (obs_of known on_mains soc) now).0 else p.eng)
unfolding observe
observe-eng p now created known on_mains soc = elim (Bool-cases p.started) [
  | inl e ↦
      let evaluated = (eval p.cfg p.guests p.eng (obs_of known on_mains soc) now).0 in
      let Kept = λ (p' : Runtime). p'.eng ≡ evaluated in
      rw e (if_ind Kept (not _) _ _ (λ k. refl) (λ k. refl))
  | inr e ↦ rw e refl
]

-- What a valid reading leaves.
publish_power-parts :
    (now : ℕ) (created : Bool) (low : ℕ) (st : BluettiState) (ups : Ups)
    → st.valid ≡ true
    → ((publish_power now created low st ups).vars ≡ set_status ups.vars (some (shown low st)))
      × ((publish_power now created low st ups).notified
          ≡ (if not st.sweep_done then ups.notified else ups.notified ++ shown low st ∷ []))
      × ((publish_power now created low st ups).pve.eng ≡ (
          if ups.pve.started
          then (eval ups.pve.cfg ups.pve.guests ups.pve.eng (reading st) now).0
          else ups.pve.eng))
unfolding publish_power
publish_power-parts now created low st ups valid =
    let soc = soc_int st.soc_pct in
    elim (Bool-cases st.sweep_done) [
      | inl e ↦
          let known = observe-eng ups.pve now created true st.ac_input_present soc in
          (simp (valid, e), simp (valid, e), simp (valid, e, known))
      | inr e ↦
          let waiting = observe-eng ups.pve now created false false minus_one in
          (simp (valid, e), simp (valid, e), simp (valid, e, waiting))
    ]

-- For a valid reading, whatever the state of the shutdown engine: a status is set that says WAIT exactly if
-- the sweep is not done, OB exactly if the sweep is done and there is no AC input, then LB exactly if the
-- charge or the runtime of the power station is low, and then DISCHRG exactly if the battery does not gain
-- energy; the notifications are given it unless it says WAIT. A started engine evaluates a reading that says
-- of the mains what the status says, and an evaluation of it fires a host only if the status says OB, or if
-- it says WAIT while an outage is counted.
pub publish_power-Explains :
    (now low : ℕ) (created : Bool) (st : BluettiState) (ups : Ups)
    → st.valid ≡ true
    → (status : Bytes) × Explains now low created st ups
        (publish_power now created low st ups)
        status
publish_power-Explains now low created st ups valid =
    let (vars, notified, eng) = publish_power-parts now created low st ups valid in
    let (ob, lb, dischrg, wait) = shown-flag low st in
    let asked = λ (w : Bool).
      (publish_power now created low st ups).notified
      ≡ (if w then ups.notified else ups.notified ++ shown low st ∷ []) in
    (
      shown low st,
      record {
        vars = vars;
        notified = subst asked (sym wait) notified;
        wait = wait;
        ob = ob;
        lb = shown-lb low st;
        dischrg = dischrg;
        same = told-reading low st;
        eng = eng;
        fires = λ i. fires-shown now low i st ups.pve;
      },
    )

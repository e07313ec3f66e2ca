-- ===== src/Main.antt =====
-- main/main.c: how a reading of the power station becomes the UPS status that NUT clients see and the
-- reading that the shutdown engine is fed with.
pub mod Flags
pub mod Agrees
pub mod Notified
mod Tests
use esp32_nut_bluetti.Prelude.{
  ℕ, ◌-◌, ◌*◌, Bool, true, false, not, ◌&&◌, ◌||◌, Option, none, some, List, [], ◌∷◌, ◌++◌,
  if◌then◌else◌, ◌==◌, ltb, leb,
}
use esp32_nut_bluetti.Prelude.Int.{ℤ, pos, minus_one, leb_ℤ}
use esp32_nut_bluetti.Prelude.Text.{Bytes, codes, bytes_eq}
use esp32_nut_bluetti.BtRegs.State.{BluettiState}
use esp32_nut_bluetti.NutServer.Vars.{VarStore, set_var, set_status}
use esp32_nut_bluetti.PveShutdown.Observe.{Runtime, observe}

-- What main.c writes to: the variables of the NUT server and the shutdown runtime. `notified` are the
-- statuses that were given to notify_ups_status.
pub record Ups : Type 0 where
  pub vars : VarStore
  pub pve : Runtime
  pub notified : List Bytes

-- `STALE_AFTER_US`
abbrev pub stale_after_us : ℕ
stale_after_us = 30000000

abbrev pub is_low_charge : BluettiState → Bool
is_low_charge st = elim st.soc_pct [ none ↦ false | some soc ↦ leb_ℤ (pos soc) st.soc_low_pct ]

abbrev pub is_low_runtime : ℕ → BluettiState → Bool
is_low_runtime runtime_low_s st =
    ltb 0 runtime_low_s
    && elim st.minutes_remaining [ none ↦ false | some mins ↦ leb (mins * 60) runtime_low_s ]

-- The status of a complete sweep; the longest text fits the array.
unfoldable pub power_status : ℕ → BluettiState → Bytes
power_status runtime_low_s st =
    if st.ac_input_present
    then codes "OL" ++ (if st.charging then codes " CHRG" else [])
    else codes "OB"
      ++ ((if is_low_charge st || is_low_runtime runtime_low_s st then codes " LB" else [])
          ++ (if st.charging then codes " CHRG" else codes " DISCHRG"))

abbrev pub soc_int : Option ℕ → ℤ
soc_int none = minus_one
soc_int (some soc) = pos soc

-- The part of `publish_nut_from_bluetti` behind the measurements, at the time `now`.
unfoldable pub publish_power : ℕ → Bool → ℕ → BluettiState → Ups → Ups
unfolding power_status
publish_power now created runtime_low_s st ups =
    let waiting : Ups = record ups {
      vars = set_status ups.vars (some (codes "OL WAIT"));
      pve = observe ups.pve now created false false minus_one;
    } in
    let status = power_status runtime_low_s st in
    let known : Ups = record ups {
      vars = set_status ups.vars (some status);
      pve = observe ups.pve now created true st.ac_input_present (soc_int st.soc_pct);
      notified = ups.notified ++ status ∷ [];
    } in
    if not st.valid then ups else if not st.sweep_done then waiting else known

-- A round of `staleness_task`: `have` is the last state, where there is one.
unfoldable pub check_stale : ℕ → Bool → Bool → Option BluettiState → Ups → Ups
check_stale now created connected have ups =
    let stale : Bool = elim have [
      | none ↦ true
      | some st ↦ ltb stale_after_us (now - st.updated_us)
    ] in
    let status = if connected then codes "OL WAIT" else codes "OFF" in
    let driver = if connected then codes "connected-no-data" else codes "disconnected" in
    let set = λ (state : Bytes) (vars : VarStore).
      set_var vars (some (codes "driver.state")) (some state) in
    if stale
    then record ups {
      vars = set driver (set_status ups.vars (some status));
      notified = ups.notified ++ status ∷ [];
      pve = observe ups.pve now created false false minus_one;
    }
    else record ups { vars = set (codes "updated") ups.vars }

abbrev is_text : Option Bytes → Option Bytes
is_text none = none
is_text (some []) = none
is_text (some (c ∷ text)) = some (c ∷ text)

-- `nut_verify_login`; `check` is app_config_check_nut_password, and `nut_user` the configured name.
unfoldable pub nut_verify_login : (Bytes → Bool) → Bytes → Option Bytes → Option Bytes → Bool
nut_verify_login check nut_user user pass = elim (is_text user) [
  | none ↦ false
  | some name ↦ elim pass [ none ↦ false | some word ↦ bytes_eq name nut_user && check word ]
]

-- ===== src/BtRegs/Apply.antt =====
-- `bt_regs_apply`, `recompute` and `bt_control_current` of components/bluetti_ble/bt_regs.c.
pub mod Agrees
use esp32_nut_bluetti.Prelude.{
  ℕ, ◌+◌, ◌*◌, Bool, true, false, not, ◌&&◌, ◌||◌, Option, none, some, List, [], ◌∷◌, if◌then◌else◌,
  ◌==◌, ltb, leb, is_some,
}
use esp32_nut_bluetti.Prelude.Int.{ℤ, pos, negsuc, sub_ℕ, ltb_ℤ}
use esp32_nut_bluetti.Prelude.Text.{Bytes, decimal}
use esp32_nut_bluetti.BtRegs.Devices.{
  Device, generic, has, bt_f_serial, bt_f_rt_min, bt_f_rt_6min, bt_f_ac_in_v, bt_f_ac_in_v_raw,
  bt_f_ac_in_a, bt_f_ac_out_v, bt_c_ac_out, bt_c_dc_out, bt_c_eco_ac, bt_c_eco_dc, bt_c_eco_mode_ac,
  bt_c_eco_mode_dc, bt_c_charge_mode, bt_c_power_lift, bt_c_display, bt_c_soc_min, bt_c_soc_max,
}
use esp32_nut_bluetti.BtRegs.Controls.{Control}
use esp32_nut_bluetti.BtRegs.Decode.{reg, swap_string, serial}
use esp32_nut_bluetti.BtRegs.State.{BluettiState}

-- A register, where the model has it and its word is one that the field can take.
abbrev pub taken : Bool → (ℕ → Bool) → Option ℕ → Option ℕ
taken asked ok none = none
taken asked ok (some v) = if asked && ok v then some v else none

abbrev pub any_word : ℕ → Bool
any_word v = true

abbrev pub is_switch : ℕ → Bool
is_switch v = v == 0 || v == 1

abbrev pub between : ℕ → ℕ → ℕ → Bool
between lo hi v = leb lo v && leb v hi

-- The minutes of a word: 0 is no estimate.
abbrev minutes_of : Device → Option ℕ → Option (Option ℕ)
minutes_of dev none = none
minutes_of dev (some v) =
    let mins = if has dev.fields bt_f_rt_6min then v * 6 else v in
    some (if ltb 0 mins then some mins else none)

-- The serial number that a response holds, unless it is 0.
abbrev serial_of : Option ℕ → Option Bytes
serial_of none = none
serial_of (some sn) = if sn == 0 then none else some (decimal sn)

abbrev model_of : ℕ → Bytes → Option ℕ → Option Bytes
model_of start bytes none = none
model_of start bytes (some v) = some (swap_string start bytes 110 6 24)

-- Tenths of a volt; some models report whole volts.
abbrev volts_of : Device → Option ℕ → Option ℕ
volts_of dev none = none
volts_of dev (some v) = some (if has dev.fields bt_f_ac_in_v_raw then v * 10 else v)

-- What a response has for each field: `none` where the code leaves the field as it is.
pub record Found : Type 0 where
  pub soc : Option ℕ
  pub model : Option Bytes
  pub dc_out : Option ℕ
  pub ac_out : Option ℕ
  pub dc_in : Option ℕ
  pub ac_in : Option ℕ
  pub minutes : Option (Option ℕ)
  pub serial_no : Option Bytes
  pub ac_in_v : Option ℕ
  pub ac_in_a : Option ℕ
  pub ac_out_v : Option ℕ
  pub ac_sw : Option ℕ
  pub dc_sw : Option ℕ
  pub e_ac : Option ℕ
  pub e_dc : Option ℕ
  pub lift : Option ℕ
  pub e_mode_ac : Option ℕ
  pub e_mode_dc : Option ℕ
  pub charge_mode : Option ℕ
  pub screen : Option ℕ
  pub floor : Option ℕ
  pub ceiling : Option ℕ

-- The tests of `bt_regs_apply`, one after the other. A model without controls has none of their bits.
abbrev pub found : Device → ℕ → Bytes → Found
found dev start bytes =
    let at = λ (addr : ℕ). reg start bytes addr in
    let field = λ (bit addr : ℕ). taken (has dev.fields bit) any_word (at addr) in
    let control = λ (bit addr : ℕ) (ok : ℕ → Bool). taken (has dev.controls bit) ok (at addr) in
    record {
      soc = taken true (λ v. leb v 100) (at 102);
      model = model_of start bytes (at 110);
      dc_out = at 140;
      ac_out = at 142;
      dc_in = at 144;
      ac_in = at 146;
      minutes =
          minutes_of dev
            (taken (has dev.fields bt_f_rt_min || has dev.fields bt_f_rt_6min) any_word (at 104));
      serial_no = if has dev.fields bt_f_serial then serial_of (serial start bytes 116) else none;
      ac_in_v = volts_of dev (field bt_f_ac_in_v 1314);
      ac_in_a = field bt_f_ac_in_a 1315;
      ac_out_v = field bt_f_ac_out_v 1511;
      ac_sw = control bt_c_ac_out 2011 is_switch;
      dc_sw = control bt_c_dc_out 2012 is_switch;
      e_ac = control bt_c_eco_ac 2017 is_switch;
      e_dc = control bt_c_eco_dc 2014 is_switch;
      lift = control bt_c_power_lift 2021 is_switch;
      e_mode_ac = control bt_c_eco_mode_ac 2018 (between 1 4);
      e_mode_dc = control bt_c_eco_mode_dc 2015 (between 1 4);
      charge_mode = control bt_c_charge_mode 2020 (λ v. v == 0 || (v == 1 || (v == 2 || v == 4)));
      screen = control bt_c_display 2067 (between 2 5);
      floor = control bt_c_soc_min 2022 (between 0 100);
      ceiling = control bt_c_soc_max 2023 (between 0 100);
    }

-- A field behind the response.
abbrev pub or_old : Option ℕ → Option ℕ → Option ℕ
or_old none old = old
or_old (some v) old = some v

abbrev or_kept {ℓ} : {A : Type ℓ} → Option A → A → A
or_kept none old = old
or_kept (some v) old = v

-- The assignments of `bt_regs_apply`.
unfoldable pub store : Found → BluettiState → BluettiState
store f st = record st {
  soc_pct = or_old f.soc st.soc_pct;
  model = or_kept f.model st.model;
  dc_out_watts = or_old f.dc_out st.dc_out_watts;
  ac_out_watts = or_old f.ac_out st.ac_out_watts;
  dc_in_watts = or_old f.dc_in st.dc_in_watts;
  ac_in_watts = or_old f.ac_in st.ac_in_watts;
  minutes_remaining = or_kept f.minutes st.minutes_remaining;
  serial = or_kept f.serial_no st.serial;
  ac_in_volts = or_old f.ac_in_v st.ac_in_volts;
  ac_in_amps = or_old f.ac_in_a st.ac_in_amps;
  ac_out_volts = or_old f.ac_out_v st.ac_out_volts;
  ac_switch = or_old f.ac_sw st.ac_switch;
  dc_switch = or_old f.dc_sw st.dc_switch;
  eco_ac = or_old f.e_ac st.eco_ac;
  eco_dc = or_old f.e_dc st.eco_dc;
  power_lifting = or_old f.lift st.power_lifting;
  eco_mode_ac = or_old f.e_mode_ac st.eco_mode_ac;
  eco_mode_dc = or_old f.e_mode_dc st.eco_mode_dc;
  charging_mode = or_old f.charge_mode st.charging_mode;
  display_time = or_old f.screen st.display_time;
  soc_min = or_old f.floor st.soc_min;
  soc_max = or_old f.ceiling st.soc_max;
}

abbrev hit {ℓ} : {A : Type ℓ} → Option A → ℕ
hit none = 0
hit (some v) = 1

-- `matched`
unfoldable pub matched : Found → ℕ
matched f =
    hit f.soc
    + hit f.model
    + hit f.dc_out
    + hit f.ac_out
    + hit f.dc_in
    + hit f.ac_in
    + hit f.minutes
    + hit f.serial_no
    + hit f.ac_in_v
    + hit f.ac_in_a
    + hit f.ac_out_v
    + hit f.ac_sw
    + hit f.dc_sw
    + hit f.e_ac
    + hit f.e_dc
    + hit f.lift
    + hit f.e_mode_ac
    + hit f.e_mode_dc
    + hit f.charge_mode
    + hit f.screen
    + hit f.floor
    + hit f.ceiling

-- A power that is known, or 0.
abbrev pub or_zero : Option ℕ → ℕ
or_zero none = 0
or_zero (some w) = w

-- The sum of two powers, where one is known.
abbrev pub total : Option ℕ → Option ℕ → Option ℕ → Option ℕ
total a d old = if is_some a || is_some d then some (or_zero a + or_zero d) else old

abbrev net : Option ℕ → Option ℕ → Option ℤ → Option ℤ
net (some input) (some output) old = some (sub_ℕ output input)
net none output old = old
net (some input) none old = old

abbrev pub room_to_charge : Option ℕ → Bool
room_to_charge none = false
room_to_charge (some soc) = ltb soc 100

-- Whether the battery gains energy.
abbrev pub gains : Option ℤ → Bool
gains none = false
gains (some watts) = ltb_ℤ watts (pos 0)

-- `recompute`
unfoldable pub recompute : BluettiState → BluettiState
recompute st =
    let output = total st.ac_out_watts st.dc_out_watts st.output_watts in
    let input = total st.ac_in_watts st.dc_in_watts st.input_watts in
    let present = ltb 0 (or_zero st.ac_in_watts) || ltb 0 (or_zero st.ac_in_volts) in
    let battery = net input output st.battery_watts in
    let any_input = present || ltb 0 (or_zero st.dc_in_watts) in
    record st {
      output_watts = output;
      input_watts = input;
      ac_input_present = present;
      battery_watts = battery;
      charging =
          (if is_some input && is_some output then gains battery else any_input)
          && room_to_charge st.soc_pct;
    }

abbrev or_generic : Option Device → Device
or_generic none = generic
or_generic (some dev) = dev

-- The capacity of the model, where none is known.
abbrev seeded : Device → BluettiState → BluettiState
seeded dev st =
    if ltb 0 dev.wh && st.design_capacity_wh == 0
    then record st { design_capacity_wh = dev.wh }
    else st

-- `bt_regs_apply` at the time `now`, with the number that it returns.
unfoldable pub regs_apply : ℕ → Option Device → ℕ → Bytes → BluettiState → BluettiState × ℕ
unfolding store matched recompute
regs_apply now dev start bytes st =
    let f = found (or_generic dev) start bytes in
    let stored = store f (seeded (or_generic dev) st) in
    let done : BluettiState = record (recompute stored) { valid = true; updated_us = now } in
    (if ltb 0 (matched f) then done else stored, matched f)

-- `bt_control_current`, where -1 is `none`.
unfoldable pub control_current : Option Control → Option BluettiState → Option ℕ
control_current none st = none
control_current (some c) none = none
control_current (some c) (some st) =
    if c.reg == 2011
    then st.ac_switch
    else if c.reg == 2012
    then st.dc_switch
    else if c.reg == 2017
    then st.eco_ac
    else if c.reg == 2014
    then st.eco_dc
    else if c.reg == 2018
    then st.eco_mode_ac
    else if c.reg == 2015
    then st.eco_mode_dc
    else if c.reg == 2020
    then st.charging_mode
    else if c.reg == 2021
    then st.power_lifting
    else if c.reg == 2022
    then st.soc_min
    else if c.reg == 2023
    then st.soc_max
    else if c.reg == 2067
    then st.display_time
    else none

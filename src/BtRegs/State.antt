-- ===== src/BtRegs/State.antt =====
-- The state that a power station's registers accumulate in (`bluetti_state_t` of
-- components/bluetti_ble/include/bluetti_ble.h), and how it starts (bluetti_ble.c).
use esp32_nut_bluetti.Prelude.{ℕ, Bool, false, Option, none, []}
use esp32_nut_bluetti.Prelude.Int.{ℤ}
use esp32_nut_bluetti.Prelude.Text.{Bytes}

-- `bluetti_state_t`. `none` stands for BLUETTI_UNKNOWN_I and BLUETTI_UNKNOWN_F. Powers are whole watts,
-- which the floats of the code hold exactly; voltages and currents are tenths. The voltage and the
-- temperature of the battery, the backup mode and the error code are set by nothing in the program.
pub record BluettiState : Type 0 where
  pub valid : Bool
  pub sweep_done : Bool
  pub updated_us : ℕ
  pub soc_pct : Option ℕ
  pub soc_low_pct : ℤ
  pub ac_input_present : Bool
  pub charging : Bool
  pub minutes_remaining : Option ℕ
  pub input_watts : Option ℕ
  pub output_watts : Option ℕ
  pub ac_in_watts : Option ℕ
  pub ac_out_watts : Option ℕ
  pub dc_in_watts : Option ℕ
  pub dc_out_watts : Option ℕ
  pub battery_watts : Option ℤ
  pub design_capacity_wh : ℕ
  pub ac_in_volts : Option ℕ
  pub ac_in_amps : Option ℕ
  pub ac_out_volts : Option ℕ
  pub ac_switch : Option ℕ
  pub dc_switch : Option ℕ
  pub eco_ac : Option ℕ
  pub eco_dc : Option ℕ
  pub eco_mode_ac : Option ℕ
  pub eco_mode_dc : Option ℕ
  pub charging_mode : Option ℕ
  pub power_lifting : Option ℕ
  pub display_time : Option ℕ
  pub soc_min : Option ℕ
  pub soc_max : Option ℕ
  pub serial : Bytes
  pub model : Bytes

-- The fields behind the `memset` of `state_reset`, with the threshold that it keeps.
abbrev pub nothing_read : ℤ → BluettiState
nothing_read soc_low_pct = record {
  valid = false;
  sweep_done = false;
  updated_us = 0;
  soc_pct = none;
  soc_low_pct = soc_low_pct;
  ac_input_present = false;
  charging = false;
  minutes_remaining = none;
  input_watts = none;
  output_watts = none;
  ac_in_watts = none;
  ac_out_watts = none;
  dc_in_watts = none;
  dc_out_watts = none;
  battery_watts = none;
  design_capacity_wh = 0;
  ac_in_volts = none;
  ac_in_amps = none;
  ac_out_volts = none;
  ac_switch = none;
  dc_switch = none;
  eco_ac = none;
  eco_dc = none;
  eco_mode_ac = none;
  eco_mode_dc = none;
  charging_mode = none;
  power_lifting = none;
  display_time = none;
  soc_min = none;
  soc_max = none;
  serial = [];
  model = [];
}

-- `state_reset`
abbrev pub state_reset : BluettiState → BluettiState
state_reset st = nothing_read st.soc_low_pct

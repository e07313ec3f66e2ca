-- ===== src/BtRegs/Tests.antt =====
-- The models, the controls and a response of bt_regs.c on inputs of the device.
use esp32_nut_bluetti.Prelude.{
  ℕ, ◌≡◌, ◌≤◌, ◌↔◌, refl, false, Option, none, some, [], ◌∷◌, arith, length, take, get_elem?,
}
use esp32_nut_bluetti.Prelude.Int.{pos}
use esp32_nut_bluetti.Prelude.Text.{codes}
use esp32_nut_bluetti.BtRegs.Devices.{
  Device, devices, generic, device_lookup, IsNamed, device_lookup_iff,
}
use esp32_nut_bluetti.BtRegs.Controls.{
  Control, bool_kind, controls, control_valid, control_valid-documented,
}
use esp32_nut_bluetti.BtRegs.Decode.{
  reg, swap_string, serial, encode, words, reg-encode, serial-words,
}
use esp32_nut_bluetti.BtRegs.Plan.{regs_plan, plan_max}
use esp32_nut_bluetti.BtRegs.Plan.Asked.{asked, regs_plan-asked}
use esp32_nut_bluetti.BtRegs.State.{nothing_read}
use esp32_nut_bluetti.BtRegs.Apply.{store, matched, recompute, regs_apply, control_current}
use esp32_nut_bluetti.BtRegs.Apply.Agrees.{expected, control_current-regs_apply}

-- "EL10" and a serial number is no EL100V2, and "EL10x" is no model.
lookup_test : device_lookup (some (codes "EL100012")) ≡ get_elem? devices 1
unfolding device_lookup
lookup_test = refl

no_model_test : device_lookup (some (codes "EL10x")) ≡ none
unfolding device_lookup
no_model_test = refl

-- A model string is two bytes a word, the low byte first, with the padding cut off.
swap_test : swap_string 110 (codes "LE01  ") 110 6 16 ≡ codes "EL10"
unfolding swap_string reg
swap_test = refl

abbrev el10 : Device
el10 = elim (get_elem? devices 1) [ none ↦ generic | some d ↦ d ]

device_lookup_iff_example :
    (device_lookup (some (codes "EL1000012")) ≡ some el10)
    ↔ (((i : ℕ) × (get_elem? devices i ≡ some el10)) × IsNamed el10 (codes "EL1000012"))
device_lookup_iff_example = device_lookup_iff (codes "EL1000012") el10

abbrev charging_mode : Option Control
charging_mode = get_elem? controls 6

abbrev mode_control : Control
mode_control = elim charging_mode [
  | none ↦ record { field = []; reg = 0; bit = 0; kind = bool_kind; allowed = none }
  | some c ↦ c
]

control_valid-documented_example : control_valid (some mode_control) (pos 3) ≡ some false
control_valid-documented_example = control_valid-documented 6 mode_control (pos 3) refl

reg-encode_example : reg 102 (encode (87 ∷ 300 ∷ [])) 103 ≡ some 300
reg-encode_example = reg-encode 102 103 (87 ∷ 300 ∷ [])

serial-words_example : serial 116 (encode (words 2345000012345)) 116 ≡ some 2345000012345
serial-words_example = serial-words 116 2345000012345 (omega arith)

regs_plan-asked_example :
    (regs_plan (some generic) false 28 ≡ take 28 (asked (some generic) false))
    × (length (asked (some generic) false) ≤ plan_max)
regs_plan-asked_example = regs_plan-asked (some generic) false 28

control_current-regs_apply_example :
    control_current
      (some mode_control)
      (some (regs_apply 7 (some el10) 2020 (0 ∷ 4 ∷ []) (nothing_read (pos 20))).0)
    ≡ expected mode_control el10 2020 (0 ∷ 4 ∷ []) (nothing_read (pos 20))
control_current-regs_apply_example =
    control_current-regs_apply 7 2020 6 mode_control el10 (0 ∷ 4 ∷ []) (nothing_read (pos 20)) refl

no_mode_test :
    control_current
      (some mode_control)
      (some (regs_apply 7 (some el10) 2020 (0 ∷ 3 ∷ []) (nothing_read (pos 20))).0)
    ≡ none
unfolding control_current regs_apply store matched recompute reg swap_string serial
no_mode_test = refl

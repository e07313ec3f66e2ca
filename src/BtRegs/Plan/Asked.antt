-- ===== src/BtRegs/Plan/Asked.antt =====
-- The plans of bt_regs.c, register by register.
use esp32_nut_bluetti.Prelude.{
  ℕ, ◌≤◌, ◌≡◌, refl, ap, Bool, true, false, ◌||◌, Option, none, some, List, [], ◌∷◌, ◌++◌,
  if◌then◌else◌, length, take,
}
use mathlib.Core.Path.{subst}
use esp32_nut_bluetti.BtRegs.Devices.{Mask, Device, has}
use esp32_nut_bluetti.BtRegs.Plan.{
  RegRead, read_at, optional, only, wanted_optional, wanted_controls, wanted, regs_plan, plan_max,
  regs_plan-wanted,
}
use esp32_nut_bluetti.BtRegs.Controls.{controls}

-- What every unit is asked for: the charge, the AC input power, the AC output power, the DC input and the DC
-- output power, and the six words of the model.
abbrev pub vital : List RegRead
vital =
    read_at 102 1
    ∷ read_at 146 1
    ∷ read_at 142 1
    ∷ read_at 144 1
    ∷ read_at 140 1
    ∷ read_at 110 6
    ∷ []

-- The optional readings: the runtime, in either of its units, the voltage and the current of the AC input, the
-- voltage of the AC output, and the four words of the serial number.
abbrev pub readings : Mask → List RegRead
readings fields =
    only (has fields 1 || has fields 2) (read_at 104 1)
    ++ (only (has fields 3) (read_at 1314 1)
        ++ (only (has fields 5) (read_at 1315 1)
            ++ (only (has fields 6) (read_at 1511 1) ++ only (has fields 0) (read_at 116 4))))

-- The charge range.
abbrev pub range : Mask → List RegRead
range mask = only (has mask 9) (read_at 2022 1) ++ only (has mask 10) (read_at 2023 1)

-- The other controls: the AC and the DC output, the ECO modes with their timeouts, the charging mode, power
-- lifting and the display.
abbrev pub switches : Mask → List RegRead
switches mask =
    only (has mask 0) (read_at 2011 1)
    ++ (only (has mask 1) (read_at 2012 1)
        ++ (only (has mask 2) (read_at 2017 1)
            ++ (only (has mask 3) (read_at 2014 1)
                ++ (only (has mask 4) (read_at 2018 1)
                    ++ (only (has mask 5) (read_at 2015 1)
                        ++ (only (has mask 6) (read_at 2020 1)
                            ++ (only (has mask 7) (read_at 2021 1)
                                ++ only (has mask 8) (read_at 2067 1))))))))

-- What a unit is asked for, the vital readings first; one that is NULL has these only.
abbrev pub asked : Option Device → Bool → List RegRead
asked none with_controls = vital
asked (some dev) with_controls =
    vital
    ++ (readings dev.fields
        ++ (range dev.controls ++ (if with_controls then switches dev.controls else [])))

or_none : (b : Bool) → (b || false) ≡ b
or_none true = refl
or_none false = refl

append_none : (xs : List RegRead) → xs ++ [] ≡ xs
append_none [] = refl
append_none (x ∷ xs) = ap (λ l. x ∷ l) (append_none xs)

append_assoc : (xs ys zs : List RegRead) → (xs ++ ys) ++ zs ≡ xs ++ (ys ++ zs)
append_assoc [] ys zs = refl
append_assoc (x ∷ xs) ys zs = ap (λ l. x ∷ l) (append_assoc xs ys zs)

wanted_optional-readings : (fields : Mask) → wanted_optional fields optional ≡ readings fields
unfolding wanted_optional
wanted_optional-readings fields =
    by_bits (has fields 1) (has fields 2) (has fields 3) (has fields 5) (has fields 6)
      (has fields 0)
  where
    by_bits :
        (rt_min rt_6min in_v in_a out_v serial : Bool)
        → only (rt_min || (rt_6min || false)) (read_at 104 1)
            ++ (only (in_v || false) (read_at 1314 1)
                ++ (only (in_a || false) (read_at 1315 1)
                    ++ (only (out_v || false) (read_at 1511 1)
                        ++ (only (serial || false) (read_at 116 4) ++ []))))
          ≡ only (rt_min || rt_6min) (read_at 104 1)
            ++ (only in_v (read_at 1314 1)
                ++ (only in_a (read_at 1315 1)
                    ++ (only out_v (read_at 1511 1) ++ only serial (read_at 116 4))))
    by_bits rt_min rt_6min in_v in_a out_v serial =
        rw
          (
            or_none rt_6min,
            or_none in_v,
            or_none in_a,
            or_none out_v,
            or_none serial,
            append_none (only serial (read_at 116 4)),
          )
          refl

wanted_controls-switches : (mask : Mask) → wanted_controls mask controls ≡ switches mask
unfolding wanted_controls
wanted_controls-switches mask = rw (append_none (only (has mask 8) (read_at 2067 1))) refl

wanted-asked :
    (dev : Option Device) (with_controls : Bool)
    → wanted dev with_controls ≡ asked dev with_controls
unfolding wanted
wanted-asked none with_controls = refl
wanted-asked (some dev) with_controls =
    let low = only (has dev.controls 9) (read_at 2022 1) in
    let high = only (has dev.controls 10) (read_at 2023 1) in by_choice with_controls low high
  where
    by_choice :
        (b : Bool) (low high : List RegRead)
        → vital
            ++ (wanted_optional dev.fields optional
                ++ (low ++ (high ++ (if b then wanted_controls dev.controls controls else []))))
          ≡ vital
            ++ (readings dev.fields ++ ((low ++ high) ++ (if b then switches dev.controls else [])))
    by_choice true low high =
        rw
          (
            wanted_optional-readings dev.fields,
            wanted_controls-switches dev.controls,
            append_assoc low high (switches dev.controls),
          )
          refl
    by_choice false low high =
        rw (wanted_optional-readings dev.fields, append_assoc low high []) refl

-- A plan with a given room is as much as fits of the registers that a unit is asked for, each with its number
-- of words and in their order of importance, and with the room `BT_REG_PLAN_MAX` of the callers none of them
-- is left out: the vital readings, the optional ones whose bits the model has, the charge range where it has
-- one, and with controls the registers of its other controls. A device that is NULL is asked for the vital
-- readings only.
pub regs_plan-asked :
    (dev : Option Device) (with_controls : Bool) (max : ℕ)
    → (regs_plan dev with_controls max ≡ take max (asked dev with_controls))
      × (length (asked dev with_controls) ≤ plan_max)
regs_plan-asked dev with_controls max =
    subst (λ l. (regs_plan dev with_controls max ≡ take max l) × (length l ≤ plan_max))
      (wanted-asked dev with_controls) (regs_plan-wanted dev with_controls max)

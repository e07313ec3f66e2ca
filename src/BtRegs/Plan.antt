-- ===== src/BtRegs/Plan.antt =====
-- `bt_regs_plan` of components/bluetti_ble/bt_regs.c.
pub mod Asked
use esp32_nut_bluetti.Prelude.{
  ℕ, zero, suc, ◌≤◌, ◌≡◌, refl, ◌∙◌, ap, sym, Bool, true, false, not, ◌&&◌, ◌||◌, Option, none,
  some, List, [], ◌∷◌, ◌++◌, if◌then◌else◌, ◌==◌, ltb, arith, length, take, length-append,
}
use mathlib.Core.List.{append-nil, append_assoc}
use esp32_nut_bluetti.BtRegs.Devices.{
  Mask, Device, has, bt_f_serial, bt_f_rt_min, bt_f_rt_6min, bt_f_ac_in_v, bt_f_ac_in_a,
  bt_f_ac_out_v, bt_c_soc_min, bt_c_soc_max,
}
use esp32_nut_bluetti.BtRegs.Controls.{Control, controls}

-- `bt_reg_read_t`
pub record RegRead : Type 0 where
  pub addr : ℕ
  pub words : ℕ

abbrev pub read_at : ℕ → ℕ → RegRead
read_at addr words = record { addr = addr; words = words }

-- `COMMON`
abbrev pub common : List RegRead
common =
    read_at 102 1
    ∷ read_at 146 1
    ∷ read_at 142 1
    ∷ read_at 144 1
    ∷ read_at 140 1
    ∷ read_at 110 6
    ∷ []

-- A row of `OPTIONAL`.
pub record Optional : Type 0 where
  pub bit : Mask
  pub read : RegRead

abbrev optional_row : Mask → RegRead → Optional
optional_row bit read = record { bit = bit; read = read }

-- `OPTIONAL`
abbrev pub optional : List Optional
optional =
    optional_row (bt_f_rt_min ∷ bt_f_rt_6min ∷ []) (read_at 104 1)
    ∷ optional_row (bt_f_ac_in_v ∷ []) (read_at 1314 1)
    ∷ optional_row (bt_f_ac_in_a ∷ []) (read_at 1315 1)
    ∷ optional_row (bt_f_ac_out_v ∷ []) (read_at 1511 1)
    ∷ optional_row (bt_f_serial ∷ []) (read_at 116 4)
    ∷ []

-- `a & b` is not 0.
abbrev meets : Mask → Mask → Bool
meets a [] = false
meets a (bit ∷ b) = has a bit || meets a b

-- `if (... && n < max) out[n++] = read;`
abbrev push : ℕ → Bool → RegRead → List RegRead → List RegRead
push max wanted read out = if wanted && ltb (length out) max then out ++ read ∷ [] else out

-- The loop over `COMMON`.
unfoldable pub push_common : ℕ → List RegRead → List RegRead → List RegRead
push_common max [] out = out
push_common max (read ∷ rows) out = push_common max rows (push max true read out)

-- The loop over `OPTIONAL`.
unfoldable pub push_optional : ℕ → Mask → List Optional → List RegRead → List RegRead
push_optional max fields [] out = out
push_optional max fields (row ∷ rows) out =
    push_optional max fields rows (push max (meets fields row.bit) row.read out)

-- The charge range is not read a second time.
abbrev is_queued : ℕ → Bool
is_queued bit = bit == bt_c_soc_min || bit == bt_c_soc_max

-- The loop over `BT_CONTROLS`.
unfoldable pub push_controls : ℕ → Mask → List Control → List RegRead → List RegRead
push_controls max mask [] out = out
push_controls max mask (c ∷ rows) out =
    push_controls max mask rows
      (push max (not (is_queued c.bit) && has mask c.bit) (read_at c.reg 1) out)

-- `bt_regs_plan`; a NULL device is `none`. With no control in the mask the last loop queues nothing.
unfoldable pub regs_plan : Option Device → Bool → ℕ → List RegRead
unfolding push_common push_optional push_controls
regs_plan none with_controls max = push_common max common []
regs_plan (some dev) with_controls max =
    let base = push_optional max dev.fields optional (push_common max common []) in
    let low = push max (has dev.controls bt_c_soc_min) (read_at 2022 1) base in
    let high = push max (has dev.controls bt_c_soc_max) (read_at 2023 1) low in
    let all = push_controls max dev.controls controls high in if with_controls then all else high

-- The reads that a model asks for, whatever the room: the common ones, the optional ones that it has,
-- its charge range, and with controls the registers of its other controls.
abbrev pub only : Bool → RegRead → List RegRead
only wanted read = if wanted then read ∷ [] else []

unfoldable pub wanted_optional : Mask → List Optional → List RegRead
wanted_optional fields [] = []
wanted_optional fields (row ∷ rows) =
    only (meets fields row.bit) row.read ++ wanted_optional fields rows

unfoldable pub wanted_controls : Mask → List Control → List RegRead
wanted_controls mask [] = []
wanted_controls mask (c ∷ rows) =
    only (not (is_queued c.bit) && has mask c.bit) (read_at c.reg 1) ++ wanted_controls mask rows

unfoldable pub wanted : Option Device → Bool → List RegRead
wanted none with_controls = common
wanted (some dev) with_controls =
    common
    ++ (wanted_optional dev.fields optional
        ++ (only (has dev.controls bt_c_soc_min) (read_at 2022 1)
            ++ (only (has dev.controls bt_c_soc_max) (read_at 2023 1)
                ++ (if with_controls then wanted_controls dev.controls controls else []))))

nothing : (max : ℕ) → take {A = RegRead} max [] ≡ []
nothing zero = refl
nothing (suc max) = refl

push-take :
    (max : ℕ) (c : Bool) (read : RegRead) (seen : List RegRead)
    → push max c read (take max seen) ≡ take max (seen ++ only c read)
push-take max false read seen = ap (take max) (sym (append-nil seen))
push-take max true read seen = go max seen
  where
    go :
        (max : ℕ) (seen : List RegRead)
        → (if ltb (length (take max seen)) max then take max seen ++ read ∷ [] else take max seen)
          ≡ take max (seen ++ read ∷ [])
    go zero seen = refl
    go (suc max) [] =
        let room : ltb 0 (suc max) ≡ true = ground arith in
        rw room (ap (λ (l : List RegRead). read ∷ l) (sym (nothing max)))
    go (suc max) (r ∷ seen) = ground (arith, go max seen)

push_common-take :
    (max : ℕ) (rows seen : List RegRead)
    → push_common max rows (take max seen) ≡ take max (seen ++ rows)
unfolding push_common
push_common-take max [] seen = ap (take max) (sym (append-nil seen))
push_common-take max (read ∷ rows) seen =
    ap (push_common max rows) (push-take max true read seen)
    ∙ push_common-take max rows (seen ++ read ∷ [])
    ∙ ap (take max) (append_assoc seen (read ∷ []) rows)

push_optional-take :
    (max : ℕ) (fields : Mask) (rows : List Optional) (seen : List RegRead)
    → push_optional max fields rows (take max seen) ≡ take max (seen ++ wanted_optional fields rows)
unfolding push_optional wanted_optional
push_optional-take max fields [] seen = ap (take max) (sym (append-nil seen))
push_optional-take max fields (row ∷ rows) seen =
    let one = only (meets fields row.bit) row.read in
    ap (push_optional max fields rows) (push-take max (meets fields row.bit) row.read seen)
    ∙ push_optional-take max fields rows (seen ++ one)
    ∙ ap (take max) (append_assoc seen one (wanted_optional fields rows))

push_controls-take :
    (max : ℕ) (mask : Mask) (rows : List Control) (seen : List RegRead)
    → push_controls max mask rows (take max seen) ≡ take max (seen ++ wanted_controls mask rows)
unfolding push_controls wanted_controls
push_controls-take max mask [] seen = ap (take max) (sym (append-nil seen))
push_controls-take max mask (c ∷ rows) seen =
    let asks = not (is_queued c.bit) && has mask c.bit in
    let one = only asks (read_at c.reg 1) in
    ap (push_controls max mask rows) (push-take max asks (read_at c.reg 1) seen)
    ∙ push_controls-take max mask rows (seen ++ one)
    ∙ ap (take max) (append_assoc seen one (wanted_controls mask rows))

push_common-whole : (max : ℕ) → push_common max common [] ≡ take max common
push_common-whole max =
    ap (push_common max common) (sym (nothing max)) ∙ push_common-take max common []

length-only : (c : Bool) (read : RegRead) → length (only c read) ≤ 1
length-only false read = omega arith
length-only true read = omega arith

length-wanted_optional :
    (fields : Mask) (rows : List Optional) → length (wanted_optional fields rows) ≤ length rows
unfolding wanted_optional
length-wanted_optional fields [] = omega arith
length-wanted_optional fields (row ∷ rows) =
    let one = only (meets fields row.bit) row.read in
    omega (
      arith,
      length-append one (wanted_optional fields rows),
      length-only (meets fields row.bit) row.read,
      length-wanted_optional fields rows,
    )

length-wanted_controls :
    (mask : Mask) (rows : List Control) → length (wanted_controls mask rows) ≤ length rows
unfolding wanted_controls
length-wanted_controls mask [] = omega arith
length-wanted_controls mask (c ∷ rows) =
    let asks = not (is_queued c.bit) && has mask c.bit in
    let one = only asks (read_at c.reg 1) in
    omega (
      arith,
      length-append one (wanted_controls mask rows),
      length-only asks (read_at c.reg 1),
      length-wanted_controls mask rows,
    )

-- The room for a plan, `BT_REG_PLAN_MAX`.
abbrev pub plan_max : ℕ
plan_max = 28

pub length-wanted :
    (dev : Option Device) (with_controls : Bool) → length (wanted dev with_controls) ≤ plan_max
unfolding wanted
length-wanted none with_controls = omega arith
length-wanted (some dev) with_controls =
    let base = wanted_optional dev.fields optional in
    let low = only (has dev.controls bt_c_soc_min) (read_at 2022 1) in
    let high = only (has dev.controls bt_c_soc_max) (read_at 2023 1) in
    let more : List RegRead = if with_controls then wanted_controls dev.controls controls else [] in
    let more_short : length more ≤ 11 =
      ground (arith, length-wanted_controls dev.controls controls) in
    omega (
      arith,
      length-append base (low ++ (high ++ more)),
      length-append low (high ++ more),
      length-append high more,
      length-wanted_optional dev.fields optional,
      length-only (has dev.controls bt_c_soc_min) (read_at 2022 1),
      length-only (has dev.controls bt_c_soc_max) (read_at 2023 1),
      more_short,
    )

regroup : (a b c d e : List RegRead) → (((a ++ b) ++ c) ++ d) ++ e ≡ a ++ (b ++ (c ++ (d ++ e)))
regroup a b c d e =
    append_assoc ((a ++ b) ++ c) d e
    ∙ append_assoc (a ++ b) c (d ++ e)
    ∙ append_assoc a b (c ++ (d ++ e))

module _ (dev : Device) (max : ℕ) where
  abbrev has_low : Bool
  has_low = has dev.controls bt_c_soc_min

  abbrev has_high : Bool
  has_high = has dev.controls bt_c_soc_max

  abbrev to_high : List RegRead
  to_high =
      ((common ++ wanted_optional dev.fields optional) ++ only has_low (read_at 2022 1))
      ++ only has_high (read_at 2023 1)

  -- The plan up to the charge range.
  high_taken :
      push max has_high (read_at 2023 1) (
        push max has_low
          (read_at 2022 1)
          (push_optional max dev.fields optional (push_common max common [])))
      ≡ take max to_high
  high_taken =
      let base = common ++ wanted_optional dev.fields optional in
      let low = base ++ only has_low (read_at 2022 1) in
      ap (λ out. push max has_high (read_at 2023 1) (push max has_low (read_at 2022 1) out))
        (ap (push_optional max dev.fields optional) (push_common-whole max)
          ∙ push_optional-take max dev.fields optional common)
      ∙ ap (push max has_high (read_at 2023 1)) (push-take max has_low (read_at 2022 1) base)
      ∙ push-take max has_high (read_at 2023 1) low

  plan_some :
      (with_controls : Bool)
      → regs_plan (some dev) with_controls max ≡ take max (wanted (some dev) with_controls)
  unfolding regs_plan wanted
  plan_some false =
      high_taken
      ∙ ap (take max) (
          sym (append-nil to_high)
          ∙ regroup common (wanted_optional dev.fields optional) (only has_low (read_at 2022 1))
              (only has_high (read_at 2023 1)) [])
  plan_some true =
      ap (push_controls max dev.controls controls) high_taken
      ∙ push_controls-take max dev.controls controls to_high
      ∙ ap (take max) (
          regroup common (wanted_optional dev.fields optional) (only has_low (read_at 2022 1))
            (only has_high (read_at 2023 1)) (wanted_controls dev.controls controls))

-- A plan with a given room is as much as fits of the reads that the model asks for, in their order of
-- importance; and with the room `BT_REG_PLAN_MAX` of the callers none of them is left out.
pub regs_plan-wanted :
    (dev : Option Device) (with_controls : Bool) (max : ℕ)
    → (regs_plan dev with_controls max ≡ take max (wanted dev with_controls))
      × (length (wanted dev with_controls) ≤ plan_max)
unfolding regs_plan wanted
regs_plan-wanted none with_controls max = (push_common-whole max, length-wanted none with_controls)
regs_plan-wanted (some dev) with_controls max =
    (plan_some dev max with_controls, length-wanted (some dev) with_controls)

-- ===== src/BtRegs/Controls.antt =====
-- The writeable controls of components/bluetti_ble/bt_regs.c, with the registers of bt_regs.h.
use mathlib.Core.Option
use esp32_nut_bluetti.Prelude.{
  ℕ, zero, suc, ◌+◌, ◌-◌, ◌*◌, ◌≡◌, refl, ap, Bool, true, false, ◌&&◌, ◌||◌, Option, none, some,
  List, [], ◌∷◌, if◌then◌else◌, ◌==◌, arith, get_elem?, length,
}
use esp32_nut_bluetti.Prelude.Int.{ℤ, pos, negsuc, leb_ℤ}
use esp32_nut_bluetti.Prelude.Text.{Bytes, codes, bytes_eq}
use esp32_nut_bluetti.BtRegs.Devices.{
  is_digit, bt_c_ac_out, bt_c_dc_out, bt_c_eco_ac, bt_c_eco_dc, bt_c_eco_mode_ac, bt_c_eco_mode_dc,
  bt_c_charge_mode, bt_c_power_lift, bt_c_display, bt_c_soc_min, bt_c_soc_max,
}

-- `bt_ctrl_kind_t`
pub data Kind : Type 0 where
  bool_kind : Kind
  enum_kind : Kind
  range_kind : Kind

-- `bt_control_t`; a NULL `allowed` is `none`, and `bit` is the number of the bit.
pub record Control : Type 0 where
  pub field : Bytes
  pub reg : ℕ
  pub bit : ℕ
  pub kind : Kind
  pub allowed : Option Bytes

-- The initialiser of a row.
abbrev row : Bytes → ℕ → ℕ → Kind → Option Bytes → Control
row field reg bit kind allowed = record {
  field = field;
  reg = reg;
  bit = bit;
  kind = kind;
  allowed = allowed;
}

-- `BT_CONTROLS`
abbrev pub controls : List Control
controls =
    row (codes "ac_output") 2011 bt_c_ac_out bool_kind none
    ∷ row (codes "dc_output") 2012 bt_c_dc_out bool_kind none
    ∷ row (codes "eco_ac") 2017 bt_c_eco_ac bool_kind none
    ∷ row (codes "eco_dc") 2014 bt_c_eco_dc bool_kind none
    ∷ row (codes "eco_mode_ac") 2018 bt_c_eco_mode_ac enum_kind (some (codes "1,2,3,4"))
    ∷ row (codes "eco_mode_dc") 2015 bt_c_eco_mode_dc enum_kind (some (codes "1,2,3,4"))
    ∷ row (codes "charging_mode") 2020 bt_c_charge_mode enum_kind (some (codes "0,1,2,4"))
    ∷ row (codes "power_lifting") 2021 bt_c_power_lift bool_kind none
    ∷ row (codes "soc_min") 2022 bt_c_soc_min range_kind (some (codes "0,100"))
    ∷ row (codes "soc_max") 2023 bt_c_soc_max range_kind (some (codes "0,100"))
    ∷ row (codes "display_time") 2067 bt_c_display enum_kind (some (codes "2,3,4,5"))
    ∷ []

-- The digit loop: `v`, whether there was a digit, and where `p` stands then.
unfoldable pub read_digits : Bytes → ℕ → Bool → ℕ × Bool × Bytes
read_digits [] v digits = (v, digits, [])
read_digits (c ∷ p) v digits =
    let more = read_digits p (v * 10 + (c - b'0')) true in
    if is_digit c then more else (v, digits, c ∷ p)

unfoldable pub skip_commas : Bytes → Bytes
skip_commas [] = []
skip_commas (c ∷ p) = let more = skip_commas p in if c == b',' then more else c ∷ p

-- The loop of `parse_ints` with the `n` slots that are left. On another character than a digit or a
-- comma the code goes round for ever; the rounds run out there, and `none` is returned.
unfoldable pub parse_from : ℕ → Bytes → ℕ → Option (List ℕ)
unfolding read_digits skip_commas
parse_from rounds [] n = some []
parse_from rounds (c ∷ p) zero = some []
parse_from zero (c ∷ p) (suc n) = none
parse_from (suc rounds) (c ∷ p) (suc n) =
    let (v, digits, rest) = read_digits (c ∷ p) 0 false in
    let less = parse_from rounds (skip_commas rest) n in
    let same = parse_from rounds (skip_commas rest) (suc n) in
    if digits then Option.map (λ (vals : List ℕ). v ∷ vals) less else same

-- `parse_ints`, where a NULL text holds no numbers. Each round of a text of digits and commas takes a
-- byte away.
unfoldable pub parse_ints : Option Bytes → ℕ → Option (List ℕ)
unfolding parse_from
parse_ints none n = some []
parse_ints (some text) n = parse_from (length text) text n

unfoldable pub find_control : List Control → Bytes → Option Control
find_control [] field = none
find_control (c ∷ rows) field = if bytes_eq field c.field then some c else find_control rows field

-- `bt_control_lookup`
unfoldable pub control_lookup : Option Bytes → Option Control
unfolding find_control
control_lookup none = none
control_lookup (some field) = find_control controls field

abbrev equals : ℤ → ℕ → Bool
equals value n = leb_ℤ value (pos n) && leb_ℤ (pos n) value

abbrev is_one_of : ℤ → List ℕ → Bool
is_one_of value [] = false
is_one_of value (n ∷ vals) = equals value n || is_one_of value vals

-- The tests behind the parse: a range takes just two numbers.
abbrev in_values : Kind → ℤ → List ℕ → Bool
in_values range_kind value (lo ∷ hi ∷ []) = leb_ℤ (pos lo) value && leb_ℤ value (pos hi)
in_values range_kind value [] = false
in_values range_kind value (lo ∷ []) = false
in_values range_kind value (lo ∷ hi ∷ n ∷ vals) = false
in_values enum_kind value vals = is_one_of value vals
in_values bool_kind value vals = equals value 0 || equals value 1

-- `bt_control_valid`, with `none` where the parse does not end.
unfoldable pub control_valid : Option Control → ℤ → Option Bool
unfolding parse_ints
control_valid none value = some false
control_valid (some c) value = elim c.kind [
  | bool_kind ↦ some (equals value 0 || equals value 1)
  | enum_kind ↦ Option.map (in_values enum_kind value) (parse_ints c.allowed 8)
  | range_kind ↦ Option.map (in_values range_kind value) (parse_ints c.allowed 8)
]

-- What the header file says of the values of a control register.
abbrev pub is_documented : ℕ → ℤ → Bool
is_documented reg value =
    if reg == 2015 || reg == 2018
    then leb_ℤ (pos 1) value && leb_ℤ value (pos 4)
    else if reg == 2020
    then leb_ℤ (pos 0) value && (leb_ℤ value (pos 2) || equals value 4)
    else if reg == 2067
    then leb_ℤ (pos 2) value && leb_ℤ value (pos 5)
    else if reg == 2022 || reg == 2023
    then leb_ℤ (pos 0) value && leb_ℤ value (pos 100)
    else leb_ℤ (pos 0) value && leb_ℤ value (pos 1)

AsDocumented : ℤ → List Control → Type 0
AsDocumented value [] = Unit
AsDocumented value (c ∷ rows) =
    (control_valid (some c) value ≡ some (is_documented c.reg value)) × AsDocumented value rows

two_values :
    (value : ℤ) → (equals value 0 || equals value 1) ≡ (leb_ℤ (pos 0) value && leb_ℤ value (pos 1))
two_values (pos n) = ground arith
two_values (negsuc n) = ground arith

four_values :
    (value : ℤ) (k : ℕ)
    → is_one_of value (k ∷ suc k ∷ suc (suc k) ∷ suc (suc (suc k)) ∷ [])
      ≡ (leb_ℤ (pos k) value && leb_ℤ value (pos (k + 3)))
four_values (pos n) k = ground arith
four_values (negsuc n) k = ground arith

mode_values :
    (value : ℤ)
    → is_one_of value (0 ∷ 1 ∷ 2 ∷ 4 ∷ [])
      ≡ (leb_ℤ (pos 0) value && (leb_ℤ value (pos 2) || equals value 4))
mode_values (pos n) = ground arith
mode_values (negsuc n) = ground arith

controls-AsDocumented : (value : ℤ) → AsDocumented value controls
unfolding control_valid AsDocumented
controls-AsDocumented value =
    let pair = ap some (two_values value) in
    (
      pair,
      (
        pair,
        (
          pair,
          (
            pair,
            (
              ap some (four_values value 1),
              (
                ap some (four_values value 1),
                (
                  ap some (mode_values value),
                  (pair, (refl, (refl, (ap some (four_values value 2), tt)))),
                ),
              ),
            ),
          ),
        ),
      ),
    )

AsDocumented-at :
    (value : ℤ) (rows : List Control) (i : ℕ) (c : Control)
    → AsDocumented value rows
    → get_elem? rows i ≡ some c
    → control_valid (some c) value ≡ some (is_documented c.reg value)
unfolding AsDocumented
AsDocumented-at value [] i c all at = cc
AsDocumented-at value (r ∷ rows) zero c all at = ground (arith, all.0)
AsDocumented-at value (r ∷ rows) (suc i) c all at = AsDocumented-at value rows i c all.1 at

-- For each control of the table the check of a value ends, and accepts just the values that the header
-- file documents for its register.
pub control_valid-documented :
    (i : ℕ) (c : Control) (value : ℤ)
    → get_elem? controls i ≡ some c
    → control_valid (some c) value ≡ some (is_documented c.reg value)
control_valid-documented i c value at =
    AsDocumented-at value controls i c (controls-AsDocumented value) at

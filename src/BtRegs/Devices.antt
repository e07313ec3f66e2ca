-- ===== src/BtRegs/Devices.antt =====
-- The table of models in components/bluetti_ble/bt_regs.c, with the masks of bt_regs.h. A mask is the
-- list of the numbers of its bits, and `&` with one bit is `has`.
use esp32_nut_bluetti.Prelude.{
  ℕ, ◌≡◌, refl, Bool, true, false, ◌&&◌, ◌||◌, Option, none, some, List, [], ◌∷◌, ◌++◌,
  if◌then◌else◌, ◌==◌, leb, arith, get_elem?, ap, ◌∙◌, ◌↔◌, inl, inr, zero, suc, Bool-cases,
  Option-cases,
}
use esp32_nut_bluetti.Prelude.Text.{Bytes, codes}

abbrev pub Mask : Type 0
Mask = List ℕ

-- `mask & (1u << bit)`
abbrev pub has : Mask → ℕ → Bool
has [] bit = false
has (b ∷ mask) bit = b == bit || has mask bit

-- `mask & ~(1u << bit)`
abbrev without : Mask → ℕ → Mask
without [] bit = []
without (b ∷ mask) bit = if b == bit then without mask bit else b ∷ without mask bit

-- The bits BT_F_*, which say which optional readings a model has.
abbrev pub bt_f_serial : ℕ
bt_f_serial = 0

abbrev pub bt_f_rt_min : ℕ
bt_f_rt_min = 1

abbrev pub bt_f_rt_6min : ℕ
bt_f_rt_6min = 2

abbrev pub bt_f_ac_in_v : ℕ
bt_f_ac_in_v = 3

abbrev pub bt_f_ac_in_v_raw : ℕ
bt_f_ac_in_v_raw = 4

abbrev pub bt_f_ac_in_a : ℕ
bt_f_ac_in_a = 5

abbrev pub bt_f_ac_out_v : ℕ
bt_f_ac_out_v = 6

-- The bits BT_C_*, which say which controls a model has.
abbrev pub bt_c_ac_out : ℕ
bt_c_ac_out = 0

abbrev pub bt_c_dc_out : ℕ
bt_c_dc_out = 1

abbrev pub bt_c_eco_ac : ℕ
bt_c_eco_ac = 2

abbrev pub bt_c_eco_dc : ℕ
bt_c_eco_dc = 3

abbrev pub bt_c_eco_mode_ac : ℕ
bt_c_eco_mode_ac = 4

abbrev pub bt_c_eco_mode_dc : ℕ
bt_c_eco_mode_dc = 5

abbrev pub bt_c_charge_mode : ℕ
bt_c_charge_mode = 6

abbrev pub bt_c_power_lift : ℕ
bt_c_power_lift = 7

abbrev pub bt_c_display : ℕ
bt_c_display = 8

abbrev pub bt_c_soc_min : ℕ
bt_c_soc_min = 9

abbrev pub bt_c_soc_max : ℕ
bt_c_soc_max = 10

-- `bt_device_t`
pub record Device : Type 0 where
  pub name : Bytes
  pub fields : Mask
  pub controls : Mask
  pub wh : ℕ

-- `BT_DEVICE_GENERIC`
abbrev pub generic : Device
generic = record { name = codes "unknown"; fields = bt_f_serial ∷ []; controls = []; wh = 0 }

abbrev c_out : Mask
c_out = bt_c_ac_out ∷ bt_c_dc_out ∷ []

abbrev c_full : Mask
c_full =
    c_out
    ++ (bt_c_eco_ac ∷ bt_c_eco_dc ∷ bt_c_eco_mode_ac ∷ bt_c_eco_mode_dc ∷ bt_c_charge_mode
        ∷ bt_c_power_lift ∷ [])

abbrev f_elite : Mask
f_elite = bt_f_serial ∷ bt_f_rt_min ∷ bt_f_ac_in_v ∷ bt_f_ac_in_a ∷ bt_f_ac_out_v ∷ []

-- The initialiser of a row.
abbrev row : Bytes → Mask → Mask → ℕ → Device
row name fields controls wh = record { name = name; fields = fields; controls = controls; wh = wh }

-- `DEVICES`
abbrev pub devices : List Device
devices =
    row (codes "EL100V2") f_elite (c_full ++ (bt_c_display ∷ bt_c_soc_min ∷ bt_c_soc_max ∷ [])) 1024
    ∷ row (codes "EL10") f_elite (c_full ++ bt_c_display ∷ []) 128
    ∷ row (codes "AC70") (without f_elite bt_f_rt_min ++ bt_f_rt_6min ∷ []) c_full 768
    ∷ row (codes "AC180") (without f_elite bt_f_rt_min) c_full 1152
    ∷ row (codes "EL30V2") (bt_f_serial ∷ bt_f_rt_min ∷ bt_f_ac_in_v ∷ []) c_full 288
    ∷ row (codes "AC180P") (bt_f_serial ∷ bt_f_ac_in_v ∷ [])
        (c_out ++ (bt_c_charge_mode ∷ bt_c_power_lift ∷ [])) 1440
    ∷ row (codes "AC2P") (bt_f_serial ∷ []) (c_out ++ bt_c_power_lift ∷ []) 0
    ∷ row (codes "AC60") (bt_f_serial ∷ bt_f_ac_in_v ∷ bt_f_ac_in_v_raw ∷ [])
        (c_out ++ bt_c_power_lift ∷ []) 403
    ∷ row (codes "AC60P") (bt_f_serial ∷ bt_f_ac_in_v ∷ bt_f_ac_in_v_raw ∷ [])
        (c_out ++ bt_c_power_lift ∷ []) 0
    ∷ row (codes "Handsfree 2") (without f_elite bt_f_rt_min ++ bt_f_rt_6min ∷ []) c_out 960
    ∷ []

-- `strncmp(name, prefix, strlen(prefix)) == 0`, with what stands behind the prefix.
unfoldable pub strip_prefix : Bytes → Bytes → Option Bytes
strip_prefix [] name = some name
strip_prefix (p ∷ prefix) [] = none
strip_prefix (p ∷ prefix) (c ∷ name) = if c == p then strip_prefix prefix name else none

abbrev pub is_digit : ℕ → Bool
is_digit c = leb b'0' c && leb c b'9'

-- The loop over the digits reaches the end of the name.
unfoldable pub all_digits : Bytes → Bool
all_digits [] = true
all_digits (c ∷ tail) = is_digit c && all_digits tail

abbrev tail_ok : Option Bytes → Bool
tail_ok none = false
tail_ok (some tail) = all_digits tail

-- The body of the loop over the table: whether it returns this row.
abbrev pub is_model : Device → Bytes → Bool
is_model d name = tail_ok (strip_prefix d.name name)

unfoldable pub find_device : List Device → Bytes → Option Device
unfolding strip_prefix all_digits
find_device [] name = none
find_device (d ∷ rows) name = if is_model d name then some d else find_device rows name

-- `bt_device_lookup`; a NULL pointer is `none`.
unfoldable pub device_lookup : Option Bytes → Option Device
unfolding find_device
device_lookup none = none
device_lookup (some []) = none
device_lookup (some (c ∷ name)) = find_device devices (c ∷ name)

-- What the comment on the table says of a model's name: it is that of the row, and digits.
abbrev pub IsNamed : Device → Bytes → Type 0
IsNamed d name = (tail : Bytes) × (name ≡ d.name ++ tail) × (all_digits tail ≡ true)

strip_prefix-some :
    (prefix name tail : Bytes) → strip_prefix prefix name ≡ some tail → name ≡ prefix ++ tail
unfolding strip_prefix
strip_prefix-some [] name tail e = cc
strip_prefix-some (p ∷ prefix) [] tail e = cc
strip_prefix-some (p ∷ prefix) (c ∷ name) tail e =
    ground (arith, strip_prefix-some prefix name tail)

strip_prefix-append : (prefix tail : Bytes) → strip_prefix prefix (prefix ++ tail) ≡ some tail
unfolding strip_prefix
strip_prefix-append [] tail = refl
strip_prefix-append (p ∷ prefix) tail = ground (arith, strip_prefix-append prefix tail)

-- A digit tail does not start with a text that has something else than digits.
other_tail :
    (x tail : Bytes)
    → all_digits x ≡ false
    → all_digits tail ≡ true
    → tail_ok (strip_prefix x tail) ≡ false
unfolding strip_prefix all_digits
other_tail [] tail e h = cc
other_tail (p ∷ x) [] e h = refl
other_tail (p ∷ x) (c ∷ tail) e h = ground (arith, other_tail x tail)

-- For a digit tail, each model of the table is found by its own name before the tail.
FoundByName : List Device → Type 0
FoundByName [] = Unit
FoundByName (d ∷ rows) =
    ((tail : Bytes) → all_digits tail ≡ true → device_lookup (some (d.name ++ tail)) ≡ some d)
    × FoundByName rows

devices-FoundByName : FoundByName devices
unfolding device_lookup FoundByName
devices-FoundByName = (
  (λ tail e. rw e),
  (
    (λ tail e. rw (other_tail (codes "0V2") tail refl e, e)),
    (
      (λ tail e. rw e),
      (
        (λ tail e. rw e),
        (
          (λ tail e. rw e),
          (
            (λ tail e. rw e),
            ((λ tail e. rw e), ((λ tail e. rw e), ((λ tail e. rw e), ((λ tail e. rw e), tt)))),
          ),
        ),
      ),
    ),
  ),
)

FoundByName-at :
    (rows : List Device) (i : ℕ) (d : Device) (tail : Bytes)
    → FoundByName rows
    → get_elem? rows i ≡ some d
    → all_digits tail ≡ true
    → device_lookup (some (d.name ++ tail)) ≡ some d
unfolding FoundByName
FoundByName-at [] i d tail found at e = cc
FoundByName-at (r ∷ rows) zero d tail found at e = ground (arith, found.0 tail)
FoundByName-at (r ∷ rows) (suc i) d tail found at e = FoundByName-at rows i d tail found.1 at e

tail_ok-some : (d : Device) (name : Bytes) → is_model d name ≡ true → IsNamed d name
tail_ok-some d name e = elim (Option-cases (strip_prefix d.name name)) [
  | inl missing ↦ absurd (ground (arith, missing, e))
  | inr (tail, found) ↦ (tail, strip_prefix-some d.name name tail found, rw found at e)
]

find_device-IsNamed :
    (rows : List Device) (name : Bytes) (d : Device)
    → find_device rows name ≡ some d
    → ((i : ℕ) × (get_elem? rows i ≡ some d)) × IsNamed d name
unfolding find_device
find_device-IsNamed [] name d e = cc
find_device-IsNamed (r ∷ rows) name d e = elim (Bool-cases (is_model r name)) [
  | inl hit ↦
      let same : r ≡ d = ground (arith, hit, e) in
      ((0, ap some same), rw (← same) (tail_ok-some r name hit))
  | inr miss ↦
      let ((i, at), named) = find_device-IsNamed rows name d (rw miss at e) in ((suc i, at), named)
]

-- A name is looked up to a model exactly if that model stands in the table and the name is its own,
-- followed by digits only: no order of the table and no common prefix of two names matters.
pub device_lookup_iff :
    (name : Bytes) (d : Device)
    → (device_lookup (some name) ≡ some d)
      ↔ (((i : ℕ) × (get_elem? devices i ≡ some d)) × IsNamed d name)
unfolding device_lookup
device_lookup_iff name d = (there name, back)
  where
    there :
        (text : Bytes)
        → device_lookup (some text) ≡ some d
        → ((i : ℕ) × (get_elem? devices i ≡ some d)) × IsNamed d text
    there [] e = cc
    there (c ∷ text) e = find_device-IsNamed devices (c ∷ text) d e

    back :
        ((i : ℕ) × (get_elem? devices i ≡ some d)) × IsNamed d name
        → device_lookup (some name) ≡ some d
    back ((i, at), (tail, split, digits)) =
        ap (λ text. device_lookup (some text)) split
        ∙ FoundByName-at devices i d tail devices-FoundByName at digits

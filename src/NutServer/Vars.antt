-- ===== src/NutServer/Vars.antt =====
-- The variable table of components/nut_server/nut_server.c.
pub mod Table
use esp32_nut_bluetti.Prelude.{
  ℕ, suc, ◌-◌, Bool, true, false, not, ◌&&◌, ◌||◌, Option, none, some, List, [], ◌∷◌, ◌++◌,
  if◌then◌else◌, replicate, ◌==◌, is_some,
}
use esp32_nut_bluetti.Prelude.Int.{ℤ, pos, negsuc}
use esp32_nut_bluetti.Prelude.Text.{Bytes, codes, bytes_eq, decimal, fit}

abbrev pub max_vars : ℕ
max_vars = 48

abbrev pub var_name_len : ℕ
var_name_len = 40

abbrev pub var_value_len : ℕ
var_value_len = 64

-- `nut_var_t`
pub record Var : Type 0 where
  pub name : Bytes
  pub value : Bytes
  pub used : Bool

-- The part of the static `s` that the variable functions use; `lock` tells whether the mutex exists.
-- `vars` has `max_vars` entries.
pub record VarStore : Type 0 where
  pub vars : List Var
  pub lock : Bool

abbrev pub unused_var : Var
unused_var = record { name = []; value = []; used = false }

-- `var_find_locked`
unfoldable pub var_find : List Var → Bytes → Option Var
var_find [] name = none
var_find (v ∷ vars) name = if v.used && bytes_eq v.name name then some v else var_find vars name

-- A write through the pointer that `var_find_locked` returns.
unfoldable pub update_var : List Var → Bytes → (Var → Var) → List Var
update_var [] name f = []
update_var (v ∷ vars) name f =
    if v.used && bytes_eq v.name name then f v ∷ vars else v ∷ update_var vars name f

abbrev pub write_value : Bytes → Var → Var
write_value value v = record v { value = fit var_value_len value }

-- The loop that takes the first free slot, with the value that is copied into it. A full table drops
-- the variable.
unfoldable pub claim_slot : List Var → Bytes → Bytes → List Var
claim_slot [] name value = []
claim_slot (v ∷ vars) name value =
    if v.used
    then v ∷ claim_slot vars name value
    else record { name = fit var_name_len name; value = fit var_value_len value; used = true }
      ∷ vars

-- `nut_server_set_var` on the table.
unfoldable pub put_var : List Var → Bytes → Bytes → List Var
put_var vars name value =
    if is_some (var_find vars name)
    then update_var vars name (write_value value)
    else claim_slot vars name value

-- `nut_server_set_var`; a NULL pointer is `none`.
unfoldable pub set_var : VarStore → Option Bytes → Option Bytes → VarStore
unfolding put_var
set_var s none value = s
set_var s (some name) none = s
set_var s (some name) (some value) =
    if not s.lock then s else record s { vars = put_var s.vars name value }

-- What `%ld` prints.
unfoldable pub signed_decimal : ℤ → Bytes
signed_decimal (pos n) = decimal n
signed_decimal (negsuc n) = b'-' ∷ decimal (suc n)

unfoldable pub set_var_int : VarStore → Option Bytes → ℤ → VarStore
unfolding signed_decimal
set_var_int s name value = set_var s name (some (fit 24 (signed_decimal value)))

abbrev pub release : Var → Var
release v = record v { used = false }

-- `nut_server_clear_var`
unfoldable pub clear_var : VarStore → Option Bytes → VarStore
clear_var s none = s
clear_var s (some name) =
    if not s.lock then s else record s { vars = update_var s.vars name release }

-- `nut_server_get_var`: whether the variable is set, and what is written to the buffer of `len` bytes;
-- `none` where it is left as it was.
unfoldable pub get_var : VarStore → Option Bytes → Option ℕ → Bool × Option Bytes
get_var s none len = (false, none)
get_var s (some name) none = (false, none)
get_var s (some name) (some len) =
    if len == 0 || not s.lock then (false, none) else elim (var_find s.vars name) [
      | none ↦ (false, some [])
      | some v ↦ (true, some (fit len v.value))
    ]

-- `nut_server_set_status`
unfoldable pub set_status : VarStore → Option Bytes → VarStore
set_status s status =
    set_var s (some (codes "ups.status"))
      (elim status [ none ↦ some (codes "OFF") | some text ↦ some text ])

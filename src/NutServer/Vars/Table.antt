-- ===== src/NutServer/Vars/Table.antt =====
-- The variable table of nut_server.c as a finite map from names to values.
use mathlib.Core.Option
use esp32_nut_bluetti.Prelude.{
  ℕ, ◌<◌, ◌≡◌, refl, ◌∙◌, Bool, true, false, not, ◌&&◌, ◌||◌, inl, inr, Option, none, some, List,
  [], ◌∷◌, if◌then◌else◌, is_some, Bool-cases, arith, length,
}
use esp32_nut_bluetti.Prelude.Text.{Bytes, bytes_eq, bytes_eq_iff, bytes_eq_sym, fit, fit_short}
use esp32_nut_bluetti.NutServer.Vars.{
  Var, VarStore, var_name_len, var_value_len, var_find, update_var, write_value, claim_slot,
  put_var, release, set_var, clear_var, get_var,
}

-- The value of a name, if the table has one.
abbrev pub value_of : List Var → Bytes → Option Bytes
value_of vars name = Option.map (λ (v : Var). v.value) (var_find vars name)

abbrev pub has_free : List Var → Bool
has_free [] = false
has_free (v ∷ vars) = not v.used || has_free vars

var_find-update_value :
    (vars : List Var) (n m value : Bytes)
    → value_of (update_var vars n (write_value value)) m ≡ (
        if is_some (var_find vars n) && bytes_eq n m
        then some (fit var_value_len value)
        else value_of vars m)
unfolding var_find update_var
var_find-update_value [] n m value = refl
var_find-update_value (v ∷ vars) n m value = ground (
  arith,
  bytes_eq_iff v.name n,
  bytes_eq_iff v.name m,
  bytes_eq_iff n m,
  var_find-update_value vars n m value,
)

-- Claiming a slot for a name that the table does not have.
value_of-claim_slot :
    (vars : List Var) (n m value : Bytes)
    → length n < var_name_len
    → is_some (var_find vars n) ≡ false
    → value_of (claim_slot vars n value) m
      ≡ (if has_free vars && bytes_eq n m then some (fit var_value_len value) else value_of vars m)
unfolding var_find claim_slot
value_of-claim_slot [] n m value short absent = refl
value_of-claim_slot (v ∷ vars) n m value short absent = ground (
  arith,
  fit_short var_name_len n short,
  bytes_eq_iff v.name n,
  bytes_eq_iff v.name m,
  bytes_eq_iff n m,
  value_of-claim_slot vars n m value short,
)

-- The variable is stored, cut to its slot, unless the table is full and does not have it yet; no
-- other variable changes.
pub value_of-put_var :
    (vars : List Var) (n m value : Bytes)
    → length n < var_name_len
    → value_of (put_var vars n value) m ≡ (
        if (is_some (var_find vars n) || has_free vars) && bytes_eq n m
        then some (fit var_value_len value)
        else value_of vars m)
unfolding put_var
value_of-put_var vars n m value short = elim (Bool-cases (is_some (var_find vars n))) [
  | inl present ↦ rw present (var_find-update_value vars n m value ∙ rw present)
  | inr absent ↦ rw absent (value_of-claim_slot vars n m value short absent)
]

-- A name has at most one used slot.
abbrev pub IsUnique : List Var → Type 0
IsUnique [] = Unit
IsUnique (v ∷ vars) = (v.used ≡ true → is_some (var_find vars v.name) ≡ false) × IsUnique vars

has-update_value :
    (vars : List Var) (n m value : Bytes)
    → is_some (var_find (update_var vars n (write_value value)) m) ≡ is_some (var_find vars m)
unfolding var_find update_var
has-update_value [] n m value = refl
has-update_value (v ∷ vars) n m value = ground (arith, has-update_value vars n m value)

has-claim_slot :
    (vars : List Var) (n m value : Bytes)
    → length n < var_name_len
    → bytes_eq n m ≡ false
    → is_some (var_find (claim_slot vars n value) m) ≡ is_some (var_find vars m)
unfolding var_find claim_slot
has-claim_slot [] n m value short other = refl
has-claim_slot (v ∷ vars) n m value short other =
    ground (arith, fit_short var_name_len n short, has-claim_slot vars n m value short)

has-release :
    (vars : List Var) (n m : Bytes)
    → is_some (var_find vars m) ≡ false
    → is_some (var_find (update_var vars n release) m) ≡ false
unfolding var_find update_var
has-release [] n m absent = refl
has-release (v ∷ vars) n m absent = ground (arith, has-release vars n m)

update_value-IsUnique :
    (vars : List Var) (n value : Bytes)
    → IsUnique vars
    → IsUnique (update_var vars n (write_value value))
unfolding update_var
update_value-IsUnique [] n value u = tt
update_value-IsUnique (v ∷ vars) n value u = elim (Bool-cases (v.used && bytes_eq v.name n)) [
  | inl e ↦ rw e u
  | inr e ↦ rw e (
    λ used. has-update_value vars n v.name value ∙ u.0 used,
    update_value-IsUnique vars n value u.1,
  )
]

absent_parts :
    (v : Var) (vars : List Var) (n : Bytes)
    → is_some (var_find (v ∷ vars) n) ≡ false
    → ((v.used && bytes_eq n v.name) ≡ false) × (is_some (var_find vars n) ≡ false)
unfolding var_find
absent_parts v vars n absent = (ground (arith, bytes_eq_sym n v.name), ground arith)

claim_slot-IsUnique :
    (vars : List Var) (n value : Bytes)
    → length n < var_name_len
    → is_some (var_find vars n) ≡ false
    → IsUnique vars
    → IsUnique (claim_slot vars n value)
unfolding claim_slot
claim_slot-IsUnique [] n value short absent u = tt
claim_slot-IsUnique (v ∷ vars) n value short absent u =
    let (other, absent') = absent_parts v vars n absent in
    elim (Bool-cases v.used) [
      | inl e ↦ rw e (
        λ used. has-claim_slot vars n v.name value short (ground arith) ∙ u.0 e,
        claim_slot-IsUnique vars n value short absent' u.1,
      )
      | inr e ↦ rw e (λ used. rw (fit_short var_name_len n short) absent', u.1)
    ]

release-IsUnique :
    (vars : List Var) (n : Bytes) → IsUnique vars → IsUnique (update_var vars n release)
unfolding update_var
release-IsUnique [] n u = tt
release-IsUnique (v ∷ vars) n u = elim (Bool-cases (v.used && bytes_eq v.name n)) [
  | inl e ↦ rw e (λ used. cc, u.1)
  | inr e ↦ rw e (λ used. has-release vars n v.name (u.0 used), release-IsUnique vars n u.1)
]

-- In a table where no name has two slots, clearing a variable removes it and nothing else.
pub value_of-release :
    (vars : List Var) (n m : Bytes)
    → IsUnique vars
    → value_of (update_var vars n release) m ≡ (if bytes_eq n m then none else value_of vars m)
unfolding var_find update_var
value_of-release [] n m u = ground arith
value_of-release (v ∷ vars) n m u = ground (
  arith,
  bytes_eq_iff v.name n,
  bytes_eq_iff v.name m,
  bytes_eq_iff n m,
  u.0,
  value_of-release vars n m,
)

put_var-IsUnique :
    (vars : List Var) (n value : Bytes)
    → length n < var_name_len
    → IsUnique vars
    → IsUnique (put_var vars n value)
unfolding put_var
put_var-IsUnique vars n value short u = elim (Bool-cases (is_some (var_find vars n))) [
  | inl present ↦ rw present (update_value-IsUnique vars n value u)
  | inr absent ↦ rw absent (claim_slot-IsUnique vars n value short absent u)
]

length-update_var :
    (vars : List Var) (n : Bytes) (f : Var → Var) → length (update_var vars n f) ≡ length vars
unfolding update_var
length-update_var [] n f = refl
length-update_var (v ∷ vars) n f = ground (arith, length-update_var vars n f)

length-claim_slot :
    (vars : List Var) (n value : Bytes) → length (claim_slot vars n value) ≡ length vars
unfolding claim_slot
length-claim_slot [] n value = refl
length-claim_slot (v ∷ vars) n value = ground (arith, length-claim_slot vars n value)

length-put_var : (vars : List Var) (n value : Bytes) → length (put_var vars n value) ≡ length vars
unfolding put_var
length-put_var vars n value = elim (Bool-cases (is_some (var_find vars n))) [
  | inl present ↦ rw present (length-update_var vars n (write_value value))
  | inr absent ↦ rw absent (length-claim_slot vars n value)
]

get_var-value_of :
    (s : VarStore) (m : Bytes) (len : ℕ)
    → s.lock ≡ true
    → 0 < len
    → get_var s (some m) (some len)
      ≡ (elim (value_of s.vars m) [ none ↦ (false, some []) | some v ↦ (true, some (fit len v)) ])
unfolding get_var
get_var-value_of s m len locked room = ground arith

-- Where the mutex exists, the buffer is not empty and the name that is set is shorter than 40 bytes: a
-- set value is read back, cut to 63 bytes and to the reader's buffer, unless its name is new and the
-- table is full; every other name reads as it did before.
pub get_var-set_var :
    (s : VarStore) (n m value : Bytes) (len : ℕ)
    → s.lock ≡ true
    → 0 < len
    → length n < var_name_len
    → get_var (set_var s (some n) (some value)) (some m) (some len) ≡ (
        if (is_some (var_find s.vars n) || has_free s.vars) && bytes_eq n m
        then (true, some (fit len (fit var_value_len value)))
        else get_var s (some m) (some len))
unfolding set_var
get_var-set_var s n m value len locked room short =
    let after = record s { vars = put_var s.vars n value } in
    ground (
      arith,
      get_var-value_of s m len locked room,
      get_var-value_of after m len locked room,
      value_of-put_var s.vars n m value short,
    )

-- Where the mutex exists, the buffer is not empty and no name has two used slots: a cleared name reads
-- as not set, and every other name as it did before.
pub get_var-clear_var :
    (s : VarStore) (n m : Bytes) (len : ℕ)
    → s.lock ≡ true
    → 0 < len
    → IsUnique s.vars
    → get_var (clear_var s (some n)) (some m) (some len)
      ≡ (if bytes_eq n m then (false, some []) else get_var s (some m) (some len))
unfolding clear_var
get_var-clear_var s n m len locked room u =
    let after = record s { vars = update_var s.vars n release } in
    ground (
      arith,
      get_var-value_of s m len locked room,
      get_var-value_of after m len locked room,
      value_of-release s.vars n m u,
    )

-- Both keep the table's size and give no name two slots.
pub set_clear-IsUnique :
    (s : VarStore) (n value : Bytes)
    → length n < var_name_len
    → IsUnique s.vars
    → (IsUnique (set_var s (some n) (some value)).vars
        × (length (set_var s (some n) (some value)).vars ≡ length s.vars))
      × (IsUnique (clear_var s (some n)).vars
          × (length (clear_var s (some n)).vars ≡ length s.vars))
unfolding set_var clear_var
set_clear-IsUnique s n value short u = elim (Bool-cases s.lock) [
  | inl e ↦ rw e (
    (put_var-IsUnique s.vars n value short u, length-put_var s.vars n value),
    (release-IsUnique s.vars n u, length-update_var s.vars n release),
  )
  | inr e ↦ rw e ((u, refl), (u, refl))
]

-- ===== src/Portal/Forms/RoundTrip/Fields.antt =====
-- The fields of a form that a page posts, and `form_get` of provisioning.c.
use esp32_nut_bluetti.Prelude.{
  ℕ, zero, suc, ◌+◌, ◌-◌, ◌≤◌, ◌<◌, ◌≡◌, refl, ◌∙◌, ap, Bool, true, false, Option, none, some, List,
  [], ◌∷◌, ◌++◌, if◌then◌else◌, arith, length, if_ind, length-append,
}
use mathlib.Core.Path.{subst}
use esp32_nut_bluetti.Prelude.Text.{Bytes, fit, bytes_eq, fit_short}
use esp32_nut_bluetti.Portal.Forms.{
  decode, url_decode, c_string, cut, field_value, first_of, filled, find_field, form_get,
}
use esp32_nut_bluetti.Portal.Forms.RoundTrip.{
  encode, AreText, decode-encode, c_string-take, Lacks, Lacks-append, cut_here, cut_end,
  encode-Lacks,
}

-- A field of a form, as a page has it.
pub record Field : Type 0 where
  pub name : Bytes
  pub value : Bytes

abbrev pub print_field : Field → Bytes
print_field f = f.name ++ b'=' ∷ encode f.value

-- The body that a page posts.
abbrev pub print : List Field → Bytes
print [] = []
print (f ∷ []) = print_field f
print (f ∷ g ∷ fields) = print_field f ++ b'&' ∷ print (g ∷ fields)

-- The value of the first field of this name.
abbrev pub lookup : Bytes → List Field → Option Bytes
lookup key [] = none
lookup key (f ∷ fields) = if bytes_eq f.name key then some f.value else lookup key fields

-- Names without an ampersand or an equals sign, and values that `tmp` holds whole when encoded.
abbrev pub IsForm : List Field → Type 0
IsForm [] = Unit
IsForm (f ∷ fields) =
    Lacks b'&' f.name
    × Lacks b'=' f.name
    × AreText f.value
    × (length (encode f.value) < 256)
    × IsForm fields

find_field_step :
    (fuel : ℕ) (key body : Bytes)
    → find_field (suc fuel) key body
      ≡ first_of
          (field_value key (cut b'&' body).0)
          (elim (cut b'&' body).1 as (λ x. Option Bytes) [
            | none ↦ none
            | some rest ↦ find_field fuel key rest
          ])
unfolding find_field
find_field_step fuel key [] = no_value (bytes_eq [] key)
  where
    no_value : (b : Bool) → none ≡ first_of (if b then none else none) none
    no_value true = refl
    no_value false = refl
find_field_step fuel key (c ∷ body) = refl

field_value-print :
    (key : Bytes) (f : Field)
    → Lacks b'=' f.name
    → field_value key (print_field f)
      ≡ (if bytes_eq f.name key then some (encode f.value) else none)
field_value-print key f l = rw (cut_here b'=' f.name (encode f.value) l) refl

-- The encoded value, where there is a field of the name.
abbrev encoded : Option Bytes → Option Bytes
encoded none = none
encoded (some value) = some (encode value)

print_field-Lacks : (f : Field) → Lacks b'&' f.name → AreText f.value → Lacks b'&' (print_field f)
print_field-Lacks f l t =
    Lacks-append b'&' f.name (b'=' ∷ encode f.value) l (refl, encode-Lacks f.value t)

hit_value :
    (f : Field) (later : Option Bytes) (b : Bool)
    → first_of (if b then some (encode f.value) else none) (encoded later)
      ≡ encoded (if b then some f.value else later)
hit_value f later true = refl
hit_value f later false = refl

find_field-none : (key : Bytes) → find_field zero key [] ≡ none
unfolding find_field
find_field-none key = refl

find_field_empty : (fuel : ℕ) (key : Bytes) → find_field (suc fuel) key [] ≡ none
unfolding find_field
find_field_empty fuel key = refl

find_field-print :
    (fuel : ℕ) (key : Bytes) (fields : List Field)
    → IsForm fields
    → length fields ≤ fuel
    → find_field fuel key (print fields) ≡ encoded (lookup key fields)
find_field-print zero key [] ok h = find_field-none key
find_field-print (suc fuel) key [] ok h = find_field_empty fuel key
find_field-print zero key (f ∷ fields) ok h = absurd (omega arith)
find_field-print (suc fuel) key (f ∷ []) (amp, eq, t, small, ok) h =
    let last = cut_end b'&' (print_field f) (print_field-Lacks f amp t) in
    find_field_step fuel key (print_field f)
    ∙ (ap (λ (r : Bytes × Option Bytes). rest_of r) last
        ∙ (ap (λ o. first_of o none) (field_value-print key f eq)
            ∙ hit_value f none (bytes_eq f.name key)))
  where
    rest_of : Bytes × Option Bytes → Option Bytes
    rest_of r =
        first_of (field_value key r.0)
          (elim r.1 as (λ x. Option Bytes) [ none ↦ none | some rest ↦ find_field fuel key rest ])
find_field-print (suc fuel) key (f ∷ g ∷ fields) (amp, eq, t, small, ok) h =
    let rest = print (g ∷ fields) in
    let here = cut_here b'&' (print_field f) rest (print_field-Lacks f amp t) in
    let ih = find_field-print fuel key (g ∷ fields) ok (omega arith) in
    find_field_step fuel key (print_field f ++ b'&' ∷ rest)
    ∙ (ap (λ (r : Bytes × Option Bytes). rest_of r) here
        ∙ (ap (λ o. first_of o (find_field fuel key rest)) (field_value-print key f eq)
            ∙ (ap (first_of (if bytes_eq f.name key then some (encode f.value) else none)) ih
                ∙ hit_value f (lookup key (g ∷ fields)) (bytes_eq f.name key))))
  where
    rest_of : Bytes × Option Bytes → Option Bytes
    rest_of r =
        first_of (field_value key r.0)
          (elim r.1 as (λ x. Option Bytes) [ none ↦ none | some rest ↦ find_field fuel key rest ])

length-print : (fields : List Field) → length fields ≤ length (print fields) + 1
length-print [] = omega arith
length-print (f ∷ []) = omega arith
length-print (f ∷ g ∷ fields) =
    let rest = length-print (g ∷ fields) in
    let whole = length-append (print_field f) (b'&' ∷ print (g ∷ fields)) in
    let one = length-append f.name (b'=' ∷ encode f.value) in omega (arith, rest, whole, one)

lookup-IsForm :
    (key : Bytes) (fields : List Field) (value : Bytes)
    → IsForm fields
    → lookup key fields ≡ some value
    → AreText value × (length (encode value) < 256)
lookup-IsForm key [] value ok h = absurd (cc)
lookup-IsForm key (f ∷ fields) value (amp, eq, t, small, ok) h =
    let Good : Option Bytes → Type 0 =
      λ o. o ≡ some value → AreText value × (length (encode value) < 256) in
    if_ind Good (bytes_eq f.name key) _ _
      (λ e k. subst (λ v. AreText v × (length (encode v) < 256)) (some_inj k) (t, small))
      (λ e k. lookup-IsForm key fields value ok k) h
  where
    get : Bytes → Option Bytes → Bytes
    get d none = d
    get d (some v) = v

    some_inj : some f.value ≡ some value → f.value ≡ value
    some_inj k = ap (get value) k

-- A form that a page has encoded gives back its fields: for a name it has, the value of the first field of
-- that name, cut to the buffer. The names have no ampersand and no equals sign, the values are bytes other
-- than NUL, and each fits 255 bytes when encoded.
pub form_get-print :
    (fields : List Field) (key value : Bytes) (size : ℕ)
    → IsForm fields
    → lookup key fields ≡ some value
    → form_get (print fields) key size ≡ (fit size value, true)
unfolding form_get url_decode fit
form_get-print fields key value size ok found =
    let (t, small) = lookup-IsForm key fields value ok found in
    let there =
      find_field-print (length (print fields) + 1) key fields ok (length-print fields)
      ∙ ap encoded found in
    let whole = fit_short 256 (encode value) small in
    let back = ap c_string (decode-encode (size - 1) value t) ∙ c_string-take (size - 1) value t in
    ap (filled size) there
    ∙ (ap (λ l. (c_string (decode (size - 1) l), true)) whole ∙ ap (λ l. (l, true)) back)

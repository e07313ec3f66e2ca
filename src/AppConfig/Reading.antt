-- ===== src/AppConfig/Reading.antt =====
-- The bytes of a blob behind the read of app_config_load (app_config.c).
use esp32_nut_bluetti.Prelude.{
  ℕ, zero, suc, ◌+◌, ◌-◌, ◌≤◌, ◌≡◌, ◌≢◌, refl, ◌∙◌, ap, sym, Bool, true, false, [], ◌∷◌, ◌++◌,
  if◌then◌else◌, ltb, arith, length, get_or, set, drop, get_or-append_lt, Bool-cases, inl, inr,
}
use esp32_nut_bluetti.Prelude.Text.{Bytes}
use esp32_nut_bluetti.AppConfig.{read_over}

pub get_or-drop : (xs : Bytes) (n i : ℕ) → get_or (drop n xs) i 0 ≡ get_or xs (n + i) 0
get_or-drop xs zero i = let e : i ≡ 0 + i = omega arith in ap (λ k. get_or xs k 0) e
get_or-drop [] (suc n) i = refl
get_or-drop (x ∷ xs) (suc n) i =
    let e : suc (n + i) ≡ suc n + i = omega arith in
    get_or-drop xs n i ∙ ap (λ k. get_or (x ∷ xs) k 0) e

pub get_or-append_ge :
    (xs ys : Bytes) (i : ℕ) → length xs ≤ i → get_or (xs ++ ys) i 0 ≡ get_or ys (i - length xs) 0
get_or-append_ge [] ys i h = let e : i ≡ i - 0 = omega arith in ap (λ k. get_or ys k 0) e
get_or-append_ge (x ∷ xs) ys zero h = absurd (omega arith)
get_or-append_ge (x ∷ xs) ys (suc i) h =
    let e : i - length xs ≡ suc i - suc (length xs) = omega arith in
    get_or-append_ge xs ys i (omega arith) ∙ ap (λ k. get_or ys k 0) e

pub get_or-set_ne : (xs : Bytes) (i j v : ℕ) → i ≢ j → get_or (set xs i v) j 0 ≡ get_or xs j 0
get_or-set_ne [] i j v h = refl
get_or-set_ne (x ∷ xs) zero zero v h = absurd (h refl)
get_or-set_ne (x ∷ xs) zero (suc j) v h = refl
get_or-set_ne (x ∷ xs) (suc i) zero v h = refl
get_or-set_ne (x ∷ xs) (suc i) (suc j) v h = get_or-set_ne xs i j v (λ e. h (ap suc e))

pub if_yes : (b : Bool) (x y : ℕ) → b ≡ true → (if b then x else y) ≡ x
if_yes true x y e = refl
if_yes false x y e = absurd (cc)

pub if_no : (b : Bool) (x y : ℕ) → b ≡ false → (if b then x else y) ≡ y
if_no true x y e = absurd (cc)
if_no false x y e = refl

-- The bytes of the blob behind the read.
pub get_or-read_over :
    (stored blob : Bytes) (i : ℕ)
    → get_or (read_over stored blob) i 0
      ≡ (if ltb i (length stored) then get_or stored i 0 else get_or blob i 0)
get_or-read_over stored blob i = elim (Bool-cases (ltb i (length stored))) [
  | inl e ↦
      let front = get_or-append_lt stored (drop (length stored) blob) i 0 (ground (arith, e)) in
      front ∙ sym (if_yes _ _ _ e)
  | inr e ↦
      let n = length stored in
      let at : n + (i - n) ≡ i = ground (arith, e) in
      get_or-append_ge stored (drop n blob) i (ground (arith, e))
      ∙ (get_or-drop blob n (i - n) ∙ (ap (λ k. get_or blob k 0) at ∙ sym (if_no _ _ _ e)))
]

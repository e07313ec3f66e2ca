-- ===== src/Prelude/Text.antt =====
-- Text as lists of bytes: string literals, comparison, decimal printing and the bounded copies of
-- the C library (strlcpy, snprintf into a buffer).
use Prim.Native.Char.{code}
use Prim.Native.String.{String}
use Prim.Native.Nat.{ℕ, zero, suc, ◌+◌, ◌-◌, ◌/◌, ◌%◌, ◌≤◌, ◌<◌}
use mathlib.Core.Path.{◌≡◌, refl, ap}
use mathlib.Core.Logic.{◌↔◌}
use mathlib.Core.Bool.{Bool, true, false, ◌&&◌}
use mathlib.Core.List.{List, [], ◌∷◌, ◌++◌}
use native.Mathlib.Omega.{arith}
use esp32_nut_bluetti.Prelude.Tests.{ltb, ◌==◌, if◌then◌else◌}
use esp32_nut_bluetti.Prelude.Lists.{length, take, length-take}

abbrev pub Bytes : Type 0
Bytes = List ℕ

-- The code points of a literal: its bytes, as every literal here is ASCII.
abbrev pub codes : String → Bytes
codes String.[] = []
codes (String.◌∷◌ c s) = code c ∷ codes s

-- `strcmp(a, b) == 0`
unfoldable pub bytes_eq : Bytes → Bytes → Bool
bytes_eq [] [] = true
bytes_eq (a ∷ as') (b ∷ bs) = a == b && bytes_eq as' bs
bytes_eq [] (b ∷ bs) = false
bytes_eq (a ∷ as') [] = false

pub bytes_eq_refl : (a : Bytes) → bytes_eq a a ≡ true
unfolding bytes_eq
bytes_eq_refl [] = refl
bytes_eq_refl (a ∷ as') = ground (arith, bytes_eq_refl as')

pub bytes_eq→eq : (a b : Bytes) → bytes_eq a b ≡ true → a ≡ b
unfolding bytes_eq
bytes_eq→eq [] [] h = refl
bytes_eq→eq (a ∷ as') (b ∷ bs) h = ground (arith, bytes_eq→eq as' bs)
bytes_eq→eq [] (b ∷ bs) h = ground arith
bytes_eq→eq (a ∷ as') [] h = ground arith

-- What `%u`, `%d` (of a number that is not negative) and `%llu` print. One round a digit.
decimal_from : ℕ → ℕ → Bytes → Bytes
decimal_from zero n acc = acc
decimal_from (suc fuel) n acc =
    let rest = decimal_from fuel (n / 10) ((b'0' + n % 10) ∷ acc) in
    if ltb n 10 then (b'0' + n) ∷ acc else rest

unfoldable pub decimal : ℕ → Bytes
unfolding decimal_from
decimal n = decimal_from (suc n) n []

-- What a buffer of `size` bytes holds after strlcpy or snprintf of `text`: the terminating NUL
-- takes one byte. With `size` 0 nothing is written; no caller passes 0.
unfoldable pub fit : ℕ → Bytes → Bytes
fit size text = take (size - 1) text

pub length-fit : (size : ℕ) (text : Bytes) → 0 < size → length (fit size text) < size
unfolding fit
length-fit size text h = omega (arith, length-take (size - 1) text)

take_all : (n : ℕ) (xs : Bytes) → length xs ≤ n → take n xs ≡ xs
take_all zero [] k = refl
take_all zero (x ∷ xs) k = absurd (omega arith)
take_all (suc n) [] k = refl
take_all (suc n) (x ∷ xs) k = ap (λ l. x ∷ l) (take_all n xs (omega arith))

-- A text that is short enough is stored whole.
pub fit_short : (size : ℕ) (text : Bytes) → length text < size → fit size text ≡ text
unfolding fit
fit_short size text h = take_all (size - 1) text (omega arith)

take_first : (n : ℕ) (xs ys : Bytes) → n ≡ length xs → take n (xs ++ ys) ≡ xs
take_first zero [] ys e = refl
take_first zero (x ∷ xs) ys e = absurd (omega arith)
take_first (suc n) [] ys e = absurd (omega arith)
take_first (suc n) (x ∷ xs) ys e = ap (λ l. x ∷ l) (take_first n xs ys (omega arith))

-- To a text that fills its buffer nothing can be appended.
pub fit_full :
    (size : ℕ) (text more : Bytes) → length text + 1 ≡ size → fit size (text ++ more) ≡ text
unfolding fit
fit_full size text more e = take_first (size - 1) text more (omega arith)

pub fit-fit : (size : ℕ) (text : Bytes) → fit size (fit size text) ≡ fit size text
unfolding fit
fit-fit size text =
    take_all (size - 1) (take (size - 1) text) (omega (arith, length-take (size - 1) text))

pub bytes_eq_sym : (a b : Bytes) → bytes_eq a b ≡ bytes_eq b a
unfolding bytes_eq
bytes_eq_sym [] [] = refl
bytes_eq_sym (a ∷ as') (b ∷ bs) = ground (arith, bytes_eq_sym as' bs)
bytes_eq_sym [] (b ∷ bs) = refl
bytes_eq_sym (a ∷ as') [] = refl

pub bytes_eq_iff : (a b : Bytes) → (bytes_eq a b ≡ true) ↔ (a ≡ b)
bytes_eq_iff a b = (bytes_eq→eq a b, λ e. rw e (bytes_eq_refl b))

-- ===== src/BtSession/Wire/Sum.antt =====
-- What the checksum of a key-exchange frame (bt_session.c) lets through.
use esp32_nut_bluetti.Prelude.{
  ℕ, suc, ◌+◌, ◌-◌, ◌%◌, ◌^◌, ◌≡◌, ◌≢◌, ◌<◌, ◌∙◌, ap, false, [], ◌∷◌, ◌++◌, arith, length, take,
  drop, length-append, take-append, drop-append,
}
use esp32_nut_bluetti.Prelude.Text.{Bytes, bytes_eq}
use esp32_nut_bluetti.BtSession.Wire.{kex_magic, sum_bytes, hexsum, kex_body, kex_sum_ok}

-- A frame with any two bytes in the place of the checksum.
abbrev pub sealed : Bytes → ℕ → ℕ → Bytes
sealed body hi lo = kex_magic ∷ kex_magic ∷ (body ++ (hi ∷ lo ∷ []))

length-sealed : (body : Bytes) (hi lo : ℕ) → length (sealed body hi lo) ≡ length body + 4
length-sealed body hi lo = omega (arith, length-append body (hi ∷ lo ∷ []))

pub kex_body-sealed : (body : Bytes) (hi lo : ℕ) → kex_body (sealed body hi lo) ≡ body
kex_body-sealed body hi lo =
    ap (λ n. take n (body ++ (hi ∷ lo ∷ []))) (omega (arith, length-sealed body hi lo))
    ∙ take-append body (hi ∷ lo ∷ [])

pub kex_sum_ok-sealed :
    (body : Bytes) (hi lo : ℕ)
    → kex_sum_ok (sealed body hi lo) ≡ bytes_eq (hexsum body) (hi ∷ lo ∷ [])
unfolding kex_sum_ok
kex_sum_ok-sealed body hi lo =
    ap
      (λ b.
        bytes_eq (hexsum b) (take 2 (drop (length (sealed body hi lo) - 2) (sealed body hi lo))))
      (kex_body-sealed body hi lo)
    ∙ ap (λ t. bytes_eq (hexsum body) (take 2 t)) behind
  where
    place : length (sealed body hi lo) - 2 ≡ suc (suc (length body))
    place = omega (arith, length-sealed body hi lo)

    behind : drop (length (sealed body hi lo) - 2) (sealed body hi lo) ≡ hi ∷ lo ∷ []
    behind = ap (λ n. drop n (sealed body hi lo)) place ∙ drop-append body (hi ∷ lo ∷ [])

-- The sum without the wrap-around.
total : Bytes → ℕ
total [] = 0
total (c ∷ bytes) = c + total bytes

sum_bytes-total :
    (sum : ℕ) (bytes : Bytes) → sum_bytes sum bytes % 2 ^ 32 ≡ (sum + total bytes) % 2 ^ 32
unfolding total
sum_bytes-total sum [] = omega arith
sum_bytes-total sum (c ∷ bytes) = omega (arith, sum_bytes-total ((sum + c) % 2 ^ 32) bytes)

total-append : (a b : Bytes) → total (a ++ b) ≡ total a + total b
unfolding total
total-append [] b = omega arith
total-append (c ∷ a) b = omega (arith, total-append a b)

-- One changed byte changes the checksum.
pub hexsum_changed :
    (a b : Bytes) (x y : ℕ)
    → x < 256
    → y < 256
    → x ≢ y
    → bytes_eq (hexsum (a ++ (y ∷ b))) (hexsum (a ++ (x ∷ b))) ≡ false
unfolding hexsum bytes_eq total
hexsum_changed a b x y hx hy ne =
    let old = sum_bytes-total 0 (a ++ (x ∷ b)) in
    let new = sum_bytes-total 0 (a ++ (y ∷ b)) in
    ground (arith, old, new, total-append a (x ∷ b), total-append a (y ∷ b))

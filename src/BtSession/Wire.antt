-- ===== src/BtSession/Wire.antt =====
-- The frames of the key exchange (bt_session.c): the byte sum, and `build_kex`.
pub mod Sum
use esp32_nut_bluetti.Prelude.{
  ℕ, suc, ◌+◌, ◌-◌, ◌/◌, ◌%◌, ◌^◌, ◌≡◌, ◌≤◌, refl, Bool, ◌&&◌, Option, none, some, List, [], ◌∷◌,
  ◌++◌, if◌then◌else◌, ◌==◌, ltb, length, take, drop, get_or,
}
use esp32_nut_bluetti.Prelude.Text.{Bytes, bytes_eq}

abbrev pub kex_magic : ℕ
kex_magic = 0x2A

abbrev pub sum_bytes : ℕ → Bytes → ℕ
sum_bytes sum [] = sum
sum_bytes sum (c ∷ bytes) = sum_bytes ((sum + c) % 2 ^ 32) bytes

-- A number's low 16 bits, the high byte first.
abbrev pub be16 : ℕ → Bytes
be16 n = (n / 256 % 256) ∷ (n % 256) ∷ []

-- `hexsum`
unfoldable pub hexsum : Bytes → Bytes
hexsum bytes = be16 (sum_bytes 0 bytes)

-- `build_kex`; 0 is `none`.
unfoldable pub build_kex : Bytes → ℕ → Option Bytes
build_kex body out_sz =
    if ltb out_sz (length body + 4)
    then none
    else some (kex_magic ∷ kex_magic ∷ (body ++ hexsum body))

-- A frame starts with the magic.
abbrev pub is_kex : Bytes → Bool
is_kex frame =
    ltb 1 (length frame) && (get_or frame 0 0 == kex_magic && get_or frame 1 0 == kex_magic)

-- What `handle_kex` reads of a frame of at least five bytes: the bytes between the magic and the sum.
abbrev pub kex_body : Bytes → Bytes
kex_body frame = take (length frame - 4) (drop 2 frame)

-- The comparison of the sum with the two bytes behind the body.
unfoldable pub kex_sum_ok : Bytes → Bool
unfolding hexsum
kex_sum_ok frame = bytes_eq (hexsum (kex_body frame)) (take 2 (drop (length frame - 2) frame))

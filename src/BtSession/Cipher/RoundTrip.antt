-- ===== src/BtSession/Cipher/RoundTrip.antt =====
-- An AES frame (bt_session.c) is read back as what was put in.
use esp32_nut_bluetti.Prelude.{
  ℕ, ◌+◌, ◌-◌, ◌%◌, ◌≡◌, ◌<◌, ◌≤◌, ◌∙◌, ap, sym, true, false, some, ◌++◌, ltb, arith, length, take,
  drop, replicate, length-append, length-replicate, take-append, drop-append,
}
use esp32_nut_bluetti.Prelude.Text.{Bytes}
use esp32_nut_bluetti.BtCrypto.{Crypto, aes_block}
use esp32_nut_bluetti.BtSession.State.{Session, rx_max}
use esp32_nut_bluetti.BtSession.Wire.{be16}
use esp32_nut_bluetti.BtSession.Cipher.{
  padded, zero_padded, wrap, wrap_seeded, plain_len, framed_len, unwrap, aes_unwrap,
}

-- AES-CBC with this key turns whole blocks into as many bytes, and back.
abbrev pub Inverts : Crypto → Bytes → Type 0
Inverts c key =
    (iv plain : Bytes)
    → length plain % aes_block ≡ 0
    → (ct : Bytes) × (c.cbc_encrypt key iv plain ≡ some ct)
      × (length ct ≡ length plain)
      × (c.cbc_decrypt key iv ct ≡ some plain)

length-zero_padded : (plain : Bytes) → length (zero_padded plain) ≡ padded (length plain)
length-zero_padded plain = omega (
  arith,
  length-append plain (replicate (padded (length plain) - length plain) 0),
  length-replicate {A = ℕ} (padded (length plain) - length plain) 0,
)

-- What `wrap` makes of a text that fits.
pub wrap-Inverts :
    (c : Crypto) (key iv head plain : Bytes) (out_sz : ℕ)
    → Inverts c key
    → length head + padded (length plain) ≤ out_sz
    → padded (length plain) ≤ rx_max
    → (ct : Bytes) × (wrap c key iv head plain out_sz ≡ some (head ++ ct))
      × (length ct ≡ padded (length plain))
      × (unwrap c key iv (length plain) ct rx_max ≡ some plain)
unfolding wrap unwrap
wrap-Inverts c key iv head plain out_sz inverts fits short =
    let size = length-zero_padded plain in
    let (ct, sealed, same, opened) = inverts iv (zero_padded plain) (omega (arith, size)) in
    let cut = take-append plain (replicate (padded (length plain) - length plain) 0) in
    (ct, ground (arith, sealed, size), omega (arith, size), ground (arith, opened, size, cut))

be16-plain_len : (n : ℕ) (rest : Bytes) → n < 65536 → plain_len (be16 n ++ rest) ≡ n
be16-plain_len n rest h = omega arith

-- A frame with a seed, by its parts.
abbrev pub seeded : ℕ → Bytes → Bytes → Bytes
seeded n seed ct = be16 n ++ (seed ++ ct)

framed_len-seeded :
    (n : ℕ) (seed ct : Bytes)
    → n < 65536
    → length seed ≡ 4
    → length ct ≡ padded n
    → framed_len true (seeded n seed ct) ≡ length (seeded n seed ct)
unfolding framed_len
framed_len-seeded n seed ct short four size =
    let total = length-append seed ct in ground (arith, total, be16-plain_len n (seed ++ ct) short)

aes_unwrap-seeded :
    (c : Crypto) (s : Session) (n : ℕ) (seed ct : Bytes)
    → n < 65536
    → length seed ≡ 4
    → s.have_secure ≡ true
    → aes_unwrap c s (seeded n seed ct) rx_max ≡ unwrap c s.secure_key (c.md5 seed) n ct rx_max
unfolding aes_unwrap
aes_unwrap-seeded c s n seed ct short four secure =
    let seed_read : take 4 (seed ++ ct) ≡ seed =
      ap (λ n. take n (seed ++ ct)) (sym four) ∙ take-append seed ct in
    let ct_read : drop 4 (seed ++ ct) ≡ ct =
      ap (λ n. drop n (seed ++ ct)) (sym four) ∙ drop-append seed ct in
    let announced = be16-plain_len n (seed ++ ct) short in
    let long : ltb (length (seeded n seed ct)) 6 ≡ false = ground (arith, length-append seed ct) in
    simp (secure, long, seed_read, ct_read, announced)

-- A frame with a seed of four bytes, of a text that fits it, opens to the text again with the session's
-- key, and its length is the one that it announces.
pub aes_unwrap-wrap_seeded :
    (c : Crypto) (s : Session) (seed plain : Bytes)
    → Inverts c s.secure_key
    → s.have_secure ≡ true
    → length seed ≡ 4
    → 6 + padded (length plain) ≤ rx_max
    → (frame : Bytes) × (wrap_seeded c s.secure_key seed plain rx_max ≡ some frame)
      × (aes_unwrap c s frame rx_max ≡ some plain)
      × (framed_len true frame ≡ length frame)
unfolding wrap_seeded
aes_unwrap-wrap_seeded c s seed plain inverts secure four fits =
    let n = length plain in
    let short : n < 65536 = omega arith in
    let (ct, sealed, size, opened) =
      wrap-Inverts c s.secure_key (c.md5 seed) (be16 n ++ seed) plain rx_max inverts (omega arith)
        (omega arith) in
    (
      seeded n seed ct,
      sealed,
      aes_unwrap-seeded c s n seed ct short four secure ∙ opened,
      framed_len-seeded n seed ct short four size,
    )

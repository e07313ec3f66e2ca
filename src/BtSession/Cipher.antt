-- ===== src/BtSession/Cipher.antt =====
-- The AES frames of bt_session.c.
pub mod RoundTrip
use esp32_nut_bluetti.Prelude.{
  ℕ, suc, ◌+◌, ◌-◌, ◌*◌, ◌/◌, ◌%◌, Bool, true, false, not, ◌&&◌, ◌||◌, Option, none, some, List, [],
  ◌∷◌, ◌++◌, if◌then◌else◌, ◌==◌, ltb, length, take, drop, get_or, replicate,
}
use esp32_nut_bluetti.Prelude.Text.{Bytes}
use esp32_nut_bluetti.BtCrypto.{Crypto, aes_block, aes_cbc_encrypt, aes_cbc_decrypt}
use esp32_nut_bluetti.BtSession.State.{Session, rx_max}
use esp32_nut_bluetti.BtSession.Wire.{be16}

-- A length rounded up to whole blocks.
abbrev pub padded : ℕ → ℕ
padded n = (n + aes_block - 1) / aes_block * aes_block

abbrev pub zero_padded : Bytes → Bytes
zero_padded plain = plain ++ replicate (padded (length plain) - length plain) 0

abbrev put_behind : Bytes → Option Bytes → Option Bytes
put_behind head none = none
put_behind head (some ct) = some (head ++ ct)

-- `aes_wrap` behind the choice of the IV: `head` is what stands in front of the ciphertext. 0 is `none`.
unfoldable pub wrap : Crypto → Bytes → Bytes → Bytes → Bytes → ℕ → Option Bytes
wrap c key iv head plain out_sz =
    if ltb out_sz (length head + padded (length plain)) || ltb rx_max (padded (length plain))
    then none
    else put_behind head (aes_cbc_encrypt c key iv (zero_padded plain))

-- `aes_wrap` with the caller's IV.
unfoldable pub wrap_fixed : Crypto → Bytes → Bytes → Bytes → ℕ → Option Bytes
unfolding wrap
wrap_fixed c key iv plain out_sz = wrap c key iv (be16 (length plain)) plain out_sz

-- `aes_wrap` with no IV, and the four random bytes that it draws.
unfoldable pub wrap_seeded : Crypto → Bytes → Bytes → Bytes → ℕ → Option Bytes
unfolding wrap
wrap_seeded c key seed plain out_sz =
    wrap c key (c.md5 seed) (be16 (length plain) ++ seed) plain out_sz

abbrev pub header_len : Bool → ℕ
header_len have_secure = if have_secure then 6 else 2

abbrev pub plain_len : Bytes → ℕ
plain_len buf = get_or buf 0 0 * 256 + get_or buf 1 0

-- `framed_len`, where 0 says that more is needed.
unfoldable pub framed_len : Bool → Bytes → ℕ
framed_len have_secure buf =
    if ltb (length buf) (header_len have_secure)
    then 0
    else header_len have_secure + padded (plain_len buf)

abbrev first_bytes : ℕ → Option Bytes → Option Bytes
first_bytes n none = none
first_bytes n (some plain) = some (take n plain)

-- `aes_unwrap` behind the choice of key and IV.
unfoldable pub unwrap : Crypto → Bytes → Bytes → ℕ → Bytes → ℕ → Option Bytes
unwrap c key iv n ct out_sz =
    if not (length ct % aes_block == 0) || (ltb (length ct) n || ltb out_sz n)
    then none
    else if ltb rx_max (length ct)
    then none
    else first_bytes n (aes_cbc_decrypt c key iv ct)

-- `aes_unwrap`
unfoldable pub aes_unwrap : Crypto → Session → Bytes → ℕ → Option Bytes
unfolding unwrap
aes_unwrap c s input out_sz =
    let secure =
      unwrap c s.secure_key (c.md5 (take 4 (drop 2 input))) (plain_len input) (drop 6 input)
        out_sz in
    let unsecure = unwrap c s.unsecure_key s.unsecure_iv (plain_len input) (drop 2 input) out_sz in
    if s.have_secure then (if ltb (length input) 6 then none else secure) else unsecure

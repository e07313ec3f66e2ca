-- ===== src/BtCrypto.antt =====
-- components/bluetti_ble/bt_crypto.c: the CRC, the check of a length before AES-CBC, and what the
-- session takes from mbedTLS as a parameter.
use Prim.Native.Nat.{bit_xor}
use esp32_nut_bluetti.Prelude.{
  ℕ, zero, suc, ◌/◌, ◌%◌, Bool, Option, none, [], ◌∷◌, if◌then◌else◌, ◌==◌, length,
}
use esp32_nut_bluetti.Prelude.Text.{Bytes}

-- The mbedTLS operations behind bt_crypto.c that are functions of their arguments. A key pair is
-- named by its private scalar; `none` is a result that is not 0.
pub record Crypto : Type 0 where
  pub md5 : Bytes → Bytes
  pub cbc_encrypt : Bytes → Bytes → Bytes → Option Bytes
  pub cbc_decrypt : Bytes → Bytes → Bytes → Option Bytes
  pub verify_k2 : Bytes → Bytes → Bool
  pub keypair_public : ℕ → Option Bytes
  pub ecdh_shared : ℕ → Bytes → Option Bytes

abbrev pub aes_block : ℕ
aes_block = 16

abbrev pub p256_publen : ℕ
p256_publen = 64

-- `bt_aes_cbc_encrypt` and `bt_aes_cbc_decrypt`: `aes_cbc` refuses a length that is no multiple of the
-- block size.
abbrev pub aes_cbc_encrypt : Crypto → Bytes → Bytes → Bytes → Option Bytes
aes_cbc_encrypt c key iv plain =
    if length plain % aes_block == 0 then c.cbc_encrypt key iv plain else none

abbrev pub aes_cbc_decrypt : Crypto → Bytes → Bytes → Bytes → Option Bytes
aes_cbc_decrypt c key iv ct = if length ct % aes_block == 0 then c.cbc_decrypt key iv ct else none

-- One round of the bit loop.
abbrev crc_bit : ℕ → ℕ
crc_bit crc = if crc % 2 == 1 then bit_xor (crc / 2) 0xA001 else crc / 2

-- The eight rounds of the bit loop.
abbrev crc_bits : ℕ → ℕ → ℕ
crc_bits zero crc = crc
crc_bits (suc b) crc = crc_bits b (crc_bit crc)

unfoldable pub crc_from : ℕ → Bytes → ℕ
crc_from crc [] = crc
crc_from crc (c ∷ bytes) = crc_from (crc_bits 8 (bit_xor crc c)) bytes

-- `bt_crc16_modbus`
unfoldable pub crc16_modbus : Bytes → ℕ
unfolding crc_from
crc16_modbus bytes = crc_from 0xFFFF bytes

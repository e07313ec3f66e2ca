-- ===== src/AppConfig.antt =====
-- components/app_config/app_config.c: how a stored configuration of an older version is taken over, and the
-- salted hashes of the passwords. NVS, SHA-256 and the random numbers are arguments.
pub mod Reading
pub mod Upgrade
mod Tests
use esp32_nut_bluetti.Prelude.{
  ℕ, ◌+◌, ◌*◌, Bool, true, false, not, ◌&&◌, ◌||◌, Option, none, some, List, [], ◌∷◌, ◌++◌,
  if◌then◌else◌, ltb, leb, length, get_or, set, take, drop, replicate,
}
use esp32_nut_bluetti.Prelude.Text.{Bytes, bytes_eq}

-- `CFG_VERSION`
abbrev pub cfg_version : ℕ
cfg_version = 18

-- Where the compiler puts the fields of `app_config_t` that the load knows, and their sizes. The version in
-- front of it in a blob takes four bytes.
pub record Layout : Type 0 where
  pub size : ℕ
  pub ble_probe : ℕ
  pub led_gpio : ℕ
  pub log_level : ℕ
  pub pve : ℕ
  pub nut_enabled : ℕ

-- The first word of a blob, little end first.
abbrev pub version_of : Bytes → ℕ
version_of blob =
    get_or blob 0 0 + 256 * get_or blob 1 0 + 65536 * get_or blob 2 0 + 16777216 * get_or blob 3 0

-- `cfg_blob_t` with the defaults, as it is before the read; the bytes behind it are not initialised, and are
-- given as zeros.
abbrev pub preseeded : Bytes → Bytes
preseeded defaults = (cfg_version ∷ 0 ∷ 0 ∷ 0 ∷ []) ++ defaults

-- nvs_get_blob into the buffer.
abbrev pub read_over : Bytes → Bytes → Bytes
read_over stored blob = stored ++ drop (length stored) blob

-- A blob that is not discarded.
unfoldable pub usable : Layout → Bytes → Bool
usable l stored =
    leb (length stored) 8192
    && leb (4 + l.led_gpio) (length stored)
    && leb 3 (version_of stored)
    && leb (version_of stored) cfg_version

-- Bytes written over those from `at` on.
abbrev pub overwrite : Bytes → ℕ → Bytes → Bytes
overwrite bytes at cfg = take at cfg ++ (bytes ++ drop (at + length bytes) cfg)

abbrev pub when : Bool → (Bytes → Bytes) → Bytes → Bytes
when true change cfg = change cfg
when false change cfg = cfg

-- What is done with a blob of a version.
unfoldable pub take_over : Layout → Bytes → Bytes → ℕ → Bytes → Bytes
take_over l defaults pve_defaults version blob =
    let stored = drop 4 blob in
    let copied =
      if leb version 11 then take l.pve stored ++ drop l.pve defaults else take l.size stored in
    let no_pve = when (leb 8 version && leb version 11) (overwrite pve_defaults l.pve) copied in
    let nut_on = when (ltb version 15) (λ cfg. set cfg l.nut_enabled 1) no_pve in
    let level = if ltb 0 (get_or nut_on l.ble_probe 0) then 2 else 0 in
    let logged = when (ltb version 6) (λ cfg. set cfg l.log_level level) nut_on in
    set logged l.ble_probe (if leb 2 (get_or logged l.log_level 0) then 1 else 0)

-- `app_config_load` of the blob that is stored, where one can be read and stored in memory; `defaults` are
-- those of app_config_defaults, `pve_defaults` those of app_config_pve_defaults.
unfoldable pub app_config_load : Layout → Bytes → Bytes → Option Bytes → Bytes
unfolding usable take_over
app_config_load l defaults pve_defaults stored = elim stored [
  | none ↦ defaults
  | some blob ↦
      let taken =
        take_over l defaults pve_defaults (version_of blob) (read_over blob (preseeded defaults)) in
      if usable l blob then taken else defaults
]

-- A salt, a hash and whether they are set.
pub record Secret : Type 0 where
  pub salt : Bytes
  pub hash : Bytes
  pub is_set : Bool

-- `hash_password`
abbrev pub hash_password : (Bytes → Bytes) → Bytes → Bytes → Bytes
hash_password sha256 salt password = sha256 (salt ++ password)

-- `set_secret` with the random bytes `random`.
unfoldable pub set_secret : (Bytes → Bytes) → Bytes → Option Bytes → Secret
set_secret sha256 random none = record {
  salt = replicate 16 0;
  hash = replicate 32 0;
  is_set = false;
}
set_secret sha256 random (some []) = record {
  salt = replicate 16 0;
  hash = replicate 32 0;
  is_set = false;
}
set_secret sha256 random (some (c ∷ password)) = record {
  salt = random;
  hash = hash_password sha256 random (c ∷ password);
  is_set = true;
}

-- `check_secret`; the comparison of the hashes takes the same time for all.
unfoldable pub check_secret : (Bytes → Bytes) → Secret → Option Bytes → Bool
unfolding bytes_eq
check_secret sha256 s password = if not s.is_set then true else elim password [
  | none ↦ false
  | some text ↦ bytes_eq (hash_password sha256 s.salt text) s.hash
]

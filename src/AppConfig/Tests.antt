-- ===== src/AppConfig/Tests.antt =====
-- A configuration of eight bytes that is taken over from version 5, and a password.
use esp32_nut_bluetti.Prelude.{
  ◌≡◌, refl, ◌+◌, false, ◌&&◌, some, [], ◌∷◌, if◌then◌else◌, ltb, length, get_or, arith,
}
use esp32_nut_bluetti.Prelude.Text.{Bytes, codes, bytes_eq}
use esp32_nut_bluetti.AppConfig.{
  Layout, version_of, usable, take_over, app_config_load, set_secret, check_secret,
}
use esp32_nut_bluetti.AppConfig.Upgrade.{kept_to, accepts, app_config_load-byte}

abbrev layout : Layout
layout = record { size = 8; ble_probe = 1; led_gpio = 2; log_level = 3; pve = 4; nut_enabled = 7 }

abbrev defaults : Bytes
defaults = 20 ∷ 0 ∷ 22 ∷ 0 ∷ 24 ∷ 25 ∷ 26 ∷ 0 ∷ []

abbrev stored : Bytes
stored = 5 ∷ 0 ∷ 0 ∷ 0 ∷ 90 ∷ 1 ∷ 92 ∷ []

-- The old probe mode becomes the verbose level, and the NUT server is on.
load_test :
    app_config_load layout defaults (24 ∷ 25 ∷ []) (some stored)
    ≡ 90 ∷ 1 ∷ 92 ∷ 2 ∷ 24 ∷ 25 ∷ 26 ∷ 1 ∷ []
unfolding app_config_load usable take_over
load_test = refl

password_test :
    check_secret
      (λ text. text)
      (set_secret (λ text. text) (7 ∷ []) (some (codes "pw")))
      (some (codes "px"))
    ≡ false
unfolding check_secret set_secret bytes_eq
password_test = refl

app_config_load-byte_example :
    get_or (app_config_load layout defaults (24 ∷ 25 ∷ []) (some stored)) 2 0 ≡ (
      if accepts layout stored
        && (ltb 2 (kept_to layout (version_of stored)) && ltb (4 + 2) (length stored))
      then get_or stored (4 + 2) 0
      else get_or defaults 2 0)
app_config_load-byte_example =
    app_config_load-byte layout defaults (24 ∷ 25 ∷ []) stored 2 refl (omega arith) refl
      (λ e. absurd (omega arith), λ e. absurd (omega arith), λ e. absurd (omega arith))
      (omega arith)

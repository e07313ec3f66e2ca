-- ===== src/AppConfig/Upgrade.antt =====
-- What app_config_load keeps of a stored configuration.
use esp32_nut_bluetti.Prelude.{
  ℕ, ◌+◌, ◌-◌, ◌≤◌, ◌<◌, ◌≡◌, ◌≢◌, refl, ◌∙◌, ap, sym, Bool, true, false, ◌&&◌, some, ◌++◌,
  if◌then◌else◌, ltb, leb, arith, length, get_or, set, take, drop, get_or-take, get_or-append_lt,
  length-take, length-drop, length-append, if_ind, Bool-cases, inl, inr,
}
use esp32_nut_bluetti.Prelude.Text.{Bytes}
use esp32_nut_bluetti.AppConfig.{
  Layout, version_of, preseeded, read_over, usable, take_over, app_config_load, when, overwrite,
}
use esp32_nut_bluetti.AppConfig.Reading.{
  get_or-drop, get_or-append_ge, get_or-set_ne, if_yes, if_no, get_or-read_over,
}

-- Up to which byte the fields of a stored configuration of a version are kept.
abbrev pub kept_to : Layout → ℕ → ℕ
kept_to l version = if leb version 11 then l.pve else l.size

-- A byte of the configuration that the load does not set itself.
abbrev pub IsPlain : Layout → ℕ → Type 0
IsPlain l i = (l.nut_enabled ≢ i) × (l.log_level ≢ i) × (l.ble_probe ≢ i)

when-set :
    (b : Bool) (cfg : Bytes) (j v i : ℕ)
    → j ≢ i
    → get_or (when b (λ c. set c j v) cfg) i 0 ≡ get_or cfg i 0
when-set true cfg j v i h = get_or-set_ne cfg j i v h
when-set false cfg j v i h = refl

when-overwrite :
    (b : Bool) (cfg bytes : Bytes) (at i : ℕ)
    → i < at
    → at ≤ length cfg
    → get_or (when b (overwrite bytes at) cfg) i 0 ≡ get_or cfg i 0
when-overwrite false cfg bytes at i h k = refl
when-overwrite true cfg bytes at i h k =
    let size = length-take at cfg in
    get_or-append_lt (take at cfg) (bytes ++ drop (at + length bytes) cfg) i 0
      (omega (arith, h, k, size))
    ∙ get_or-take cfg at i 0 h

-- The bytes of the blob that are copied.
copied_byte :
    (l : Layout) (defaults blob : Bytes) (version i : ℕ)
    → i < kept_to l version
    → l.pve + 4 ≤ length blob
    → get_or
        (if leb version 11
          then take l.pve (drop 4 blob) ++ drop l.pve defaults
          else take l.size (drop 4 blob))
        i
        0
      ≡ get_or blob (4 + i) 0
copied_byte l defaults blob version i h k =
    let stored = drop 4 blob in
    let size = length-drop 4 blob in
    let old = λ (e : leb version 11 ≡ true).
      get_or-append_lt (take l.pve stored) (drop l.pve defaults) i 0
        (long_enough (kept_old e h) (omega (arith, k, size)))
      ∙ (get_or-take stored l.pve i 0 (kept_old e h) ∙ get_or-drop blob 4 i) in
    let new = λ (e : leb version 11 ≡ false).
      get_or-take stored l.size i 0 (kept_new e h) ∙ get_or-drop blob 4 i in
    if_ind (λ (cfg : Bytes). get_or cfg i 0 ≡ get_or blob (4 + i) 0) (leb version 11) _ _ old new
  where
    kept_old : leb version 11 ≡ true → i < kept_to l version → i < l.pve
    kept_old e h = ground (arith, e, h)

    kept_new : leb version 11 ≡ false → i < kept_to l version → i < l.size
    kept_new e h = ground (arith, e, h)

    long_enough : i < l.pve → l.pve ≤ length (drop 4 blob) → i < length (take l.pve (drop 4 blob))
    long_enough h k = let size = length-take l.pve (drop 4 blob) in omega (arith, size, h, k)

length-copied :
    (l : Layout) (defaults blob : Bytes) (version : ℕ)
    → l.pve + 4 ≤ length blob
    → l.pve ≤ l.size
    → l.pve
      ≤ length (
          if leb version 11
          then take l.pve (drop 4 blob) ++ drop l.pve defaults
          else take l.size (drop 4 blob))
length-copied l defaults blob version k le =
    let size = length-drop 4 blob in
    let old = length-take l.pve (drop 4 blob) in
    let new = length-take l.size (drop 4 blob) in
    let whole = length-append (take l.pve (drop 4 blob)) (drop l.pve defaults) in
    if_ind (λ (cfg : Bytes). l.pve ≤ length cfg) (leb version 11) _ _
      (λ e. omega (arith, size, old, whole, k)) (λ e. omega (arith, size, new, k, le))

kept_before_pve :
    (l : Layout) (version i : ℕ)
    → i < kept_to l version
    → (leb 8 version && leb version 11) ≡ true
    → i < l.pve
kept_before_pve l version i h e = ground (arith, h, e)

-- Before the block of the Proxmox settings in the versions that reset it.
reset_byte :
    (l : Layout) (version i : ℕ) (pve_defaults cfg : Bytes)
    → i < kept_to l version
    → l.pve ≤ length cfg
    → get_or (when (leb 8 version && leb version 11) (overwrite pve_defaults l.pve) cfg) i 0
      ≡ get_or cfg i 0
reset_byte l version i pve_defaults cfg h k =
    split (leb 8 version && leb version 11) (kept_before_pve l version i h)
  where
    split :
        (b : Bool)
        → (b ≡ true → i < l.pve)
        → get_or (when b (overwrite pve_defaults l.pve) cfg) i 0 ≡ get_or cfg i 0
    split true lt = when-overwrite true cfg pve_defaults l.pve i (lt refl) k
    split false lt = refl

take_over_byte :
    (l : Layout) (defaults pve_defaults blob : Bytes) (version i : ℕ)
    → IsPlain l i
    → i < kept_to l version
    → l.pve + 4 ≤ length blob
    → l.pve ≤ l.size
    → get_or (take_over l defaults pve_defaults version blob) i 0 ≡ get_or blob (4 + i) 0
unfolding take_over
take_over_byte l defaults pve_defaults blob version i (nut, log, probe) h k le =
    get_or-set_ne _ l.ble_probe i _ probe
    ∙ (when-set (ltb version 6) _ l.log_level _ i log
        ∙ (when-set (ltb version 15) _ l.nut_enabled 1 i nut
            ∙ (reset_byte l version i pve_defaults _ h (length-copied l defaults blob version k le)
                ∙ copied_byte l defaults blob version i h k)))

length-read_over : (stored blob : Bytes) → length blob ≤ length (read_over stored blob)
length-read_over stored blob =
    let whole = length-append stored (drop (length stored) blob) in
    let rest = length-drop (length stored) blob in omega (arith, whole, rest)

-- The byte at `i` behind the block of the Proxmox settings, which starts at `at`.
overwrite_byte :
    (cfg bytes : Bytes) (at i : ℕ)
    → at ≤ i
    → at ≤ length cfg
    → get_or (overwrite bytes at cfg) i 0
      ≡ (if ltb (i - at) (length bytes) then get_or bytes (i - at) 0 else get_or cfg i 0)
overwrite_byte cfg bytes at i h k =
    let size = length-take at cfg in
    let rest = drop (at + length bytes) cfg in
    let same : i - length (take at cfg) ≡ i - at = omega (arith, size, k) in
    get_or-append_ge (take at cfg) (bytes ++ rest) i (omega (arith, size, h))
    ∙ (ap (λ j. get_or (bytes ++ rest) j 0) same ∙ by_side)
  where
    by_side :
        get_or (bytes ++ drop (at + length bytes) cfg) (i - at) 0
        ≡ (if ltb (i - at) (length bytes) then get_or bytes (i - at) 0 else get_or cfg i 0)
    by_side = elim (Bool-cases (ltb (i - at) (length bytes))) [
      | inl e ↦
          get_or-append_lt bytes (drop (at + length bytes) cfg) (i - at) 0 (ground (arith, e))
          ∙ sym (if_yes _ _ _ e)
      | inr e ↦
          let back : at + length bytes + (i - at - length bytes) ≡ i = ground (arith, e, h) in
          get_or-append_ge bytes (drop (at + length bytes) cfg) (i - at) (ground (arith, e))
          ∙ (get_or-drop cfg (at + length bytes) (i - at - length bytes)
              ∙ (ap (λ j. get_or cfg j 0) back ∙ sym (if_no _ _ _ e)))
    ]

-- In the versions up to 11 the bytes from the Proxmox settings on are those of the defaults.
default_byte :
    (l : Layout) (defaults pve_defaults blob : Bytes) (version i : ℕ)
    → IsPlain l i
    → leb version 11 ≡ true
    → l.pve ≤ i
    → l.pve + 4 ≤ length blob
    → l.pve ≤ length defaults
    → overwrite pve_defaults l.pve defaults ≡ defaults
    → get_or (take_over l defaults pve_defaults version blob) i 0 ≡ get_or defaults i 0
unfolding take_over
default_byte l defaults pve_defaults blob version i (nut, log, probe) old h k le own =
    get_or-set_ne _ l.ble_probe i _ probe
    ∙ (when-set (ltb version 6) _ l.log_level _ i log
        ∙ (when-set (ltb version 15) _ l.nut_enabled 1 i nut
            ∙ by_reset (leb 8 version && leb version 11)))
  where
    old_cfg : Bytes
    old_cfg = take l.pve (drop 4 blob) ++ drop l.pve defaults

    copied : Bytes
    copied =
        if leb version 11
        then take l.pve (drop 4 blob) ++ drop l.pve defaults
        else take l.size (drop 4 blob)

    is_old : copied ≡ old_cfg
    is_old = rw old refl

    front : length (take l.pve (drop 4 blob)) ≡ l.pve
    front = omega (arith, length-take l.pve (drop 4 blob), length-drop 4 blob, k)

    long : l.pve ≤ length old_cfg
    long = omega (arith, front, length-append (take l.pve (drop 4 blob)) (drop l.pve defaults))

    behind : get_or old_cfg i 0 ≡ get_or defaults i 0
    behind =
        let there : l.pve + (i - length (take l.pve (drop 4 blob))) ≡ i = omega (arith, front, h) in
        get_or-append_ge (take l.pve (drop 4 blob)) (drop l.pve defaults) i
          (omega (arith, front, h))
        ∙ (get_or-drop defaults l.pve _ ∙ ap (λ j. get_or defaults j 0) there)

    reset : get_or (overwrite pve_defaults l.pve old_cfg) i 0 ≡ get_or defaults i 0
    reset =
        overwrite_byte old_cfg pve_defaults l.pve i h long
        ∙ (ap
              (λ b.
                if ltb (i - l.pve) (length pve_defaults)
                then get_or pve_defaults (i - l.pve) 0
                else b)
              behind
            ∙ (sym (overwrite_byte defaults pve_defaults l.pve i h le)
                ∙ ap (λ cfg. get_or cfg i 0) own))

    by_reset :
        (b : Bool) → get_or (when b (overwrite pve_defaults l.pve) copied) i 0 ≡ get_or defaults i 0
    by_reset true = ap (λ cfg. get_or (overwrite pve_defaults l.pve cfg) i 0) is_old ∙ reset
    by_reset false = ap (λ cfg. get_or cfg i 0) is_old ∙ behind

-- A blob that a load accepts: 8192 bytes at most, long enough to reach the pin of the LED, and of one of the
-- versions 3 to 18.
abbrev pub accepts : Layout → Bytes → Bool
accepts l stored =
    ltb (length stored) 8193
    && (ltb (3 + l.led_gpio) (length stored)
        && (ltb 2 (version_of stored) && ltb (version_of stored) 19))

usable-accepts : (l : Layout) (stored : Bytes) → usable l stored ≡ accepts l stored
unfolding usable
usable-accepts l stored = ground arith

-- A byte of the loaded configuration, of a field that the load does not set itself: it is that of the stored
-- blob if the blob is accepted, is long enough to have it, and, where its version is 11 or older, the byte is
-- before the Proxmox settings; and else that of the defaults. The Proxmox settings lie within the
-- configuration, and the defaults are as long as it and have the defaults of the Proxmox settings in it.
pub app_config_load-byte :
    (l : Layout) (defaults pve_defaults stored : Bytes) (i : ℕ)
    → length defaults ≡ l.size
    → l.pve ≤ l.size
    → overwrite pve_defaults l.pve defaults ≡ defaults
    → IsPlain l i
    → i < l.size
    → get_or (app_config_load l defaults pve_defaults (some stored)) i 0 ≡ (
        if accepts l stored
          && (ltb i (kept_to l (version_of stored)) && ltb (4 + i) (length stored))
        then get_or stored (4 + i) 0
        else get_or defaults i 0)
unfolding app_config_load
app_config_load-byte l defaults pve_defaults stored i full le own plain inside =
    by_use (usable l stored) (accepts l stored) _ (usable-accepts l stored) taken
  where
    version : ℕ
    version = version_of stored

    blob : Bytes
    blob = read_over stored (preseeded defaults)

    long : l.pve + 4 ≤ length blob
    long = omega (arith, length-read_over stored (preseeded defaults), full, le)

    value : ℕ
    value = get_or (take_over l defaults pve_defaults version blob) i 0

    read :
        get_or blob (4 + i) 0
        ≡ (if ltb (4 + i) (length stored) then get_or stored (4 + i) 0 else get_or defaults i 0)
    read =
        get_or-read_over stored (preseeded defaults) (4 + i)
        ∙ ap (λ d. if ltb (4 + i) (length stored) then get_or stored (4 + i) 0 else d)
            (sym (get_or-drop (preseeded defaults) 4 i))

    old_or_new : ltb i (kept_to l version) ≡ false → (leb version 11 ≡ true) × (l.pve ≤ i)
    old_or_new e = (ground (arith, e, inside), ground (arith, e, inside))

    taken : value ≡ (
        if ltb i (kept_to l version) && ltb (4 + i) (length stored)
        then get_or stored (4 + i) 0
        else get_or defaults i 0)
    taken = elim (Bool-cases (ltb i (kept_to l version))) [
      | inl e ↦
          let before : i < kept_to l version = ground (arith, e) in
          rw e (take_over_byte l defaults pve_defaults blob version i plain before long le ∙ read)
      | inr e ↦
          let (old, behind) = old_or_new e in
          rw e (
            default_byte l defaults pve_defaults blob version i plain old behind long
              (omega (arith, full, le)) own)
    ]

    by_use :
        (use_it accepted : Bool) (cfg : Bytes)
        → use_it ≡ accepted
        → get_or cfg i 0 ≡ (
            if ltb i (kept_to l version) && ltb (4 + i) (length stored)
            then get_or stored (4 + i) 0
            else get_or defaults i 0)
        → get_or (if use_it then cfg else defaults) i 0 ≡ (
            if accepted && (ltb i (kept_to l version) && ltb (4 + i) (length stored))
            then get_or stored (4 + i) 0
            else get_or defaults i 0)
    by_use true true cfg e f = f
    by_use true false cfg e f = absurd (cc)
    by_use false true cfg e f = absurd (cc)
    by_use false false cfg e f = refl

-- ===== src/OtaGithub.antt =====
-- components/ota_github: the comparison of versions and the scan of the list of releases.
pub mod Releases
mod Tests
use esp32_nut_bluetti.Prelude.{
  ℕ, zero, suc, ◌+◌, ◌-◌, ◌*◌, ◌^◌, Bool, true, false, not, ◌&&◌, ◌||◌, Option, none, some, List,
  [], ◌∷◌, ◌++◌, if◌then◌else◌, ◌==◌, ltb, leb, length, get_or,
}
use esp32_nut_bluetti.Prelude.Int.{ℤ, pos, negsuc, minus_one, ltb_ℤ, ◌-ℤ◌}
use esp32_nut_bluetti.Prelude.Text.{Bytes, codes, fit}

abbrev is_digit_char : ℕ → Bool
is_digit_char c = leb b'0' c && leb c b'9'

-- `isspace`
abbrev is_space : ℕ → Bool
is_space c = c == b' ' || (leb 9 c && leb c 13)

abbrev pub skip_space : Bytes → Bytes
skip_space [] = []
skip_space (c ∷ text) = let rest = skip_space text in if is_space c then rest else c ∷ text

-- The digits at the start of a text, and what stands behind them.
abbrev pub digits : ℕ → Bytes → ℕ × Bytes
digits n [] = (n, [])
digits n (c ∷ text) =
    let more = digits (n * 10 + (c - b'0')) text in if is_digit_char c then more else (n, c ∷ text)

abbrev starts_decimal : Bytes → Bool
starts_decimal [] = false
starts_decimal (c ∷ text) = is_digit_char c

-- Clamped to a long of 32 bits.
abbrev clamp_long : Bool → ℕ → ℤ
clamp_long negative n =
    if negative
    then pos 0 -ℤ pos (if ltb (2 ^ 31) n then 2 ^ 31 else n)
    else pos (if ltb n (2 ^ 31) then n else 2 ^ 31 - 1)

-- The sign of a number, and what stands behind it.
abbrev sign : Bytes → Bool × Bytes
sign [] = (false, [])
sign (c ∷ text) =
    if c == b'-' then (true, text) else if c == b'+' then (false, text) else (false, c ∷ text)

-- `strtol(text, &text, 10)` of the C library: the number, and what stands behind it; 0 and the whole text
-- where there is none.
unfoldable pub strtol : Bytes → ℤ × Bytes
strtol text =
    let (negative, number) = sign (skip_space text) in
    let (n, rest) = digits 0 number in
    if starts_decimal number then (clamp_long negative n, rest) else (pos 0, text)

abbrev skip_dot : Bytes → Bytes
skip_dot [] = []
skip_dot (c ∷ text) = if c == b'.' then text else c ∷ text

-- The rounds of `ota_gh_vercmp` that are left.
unfoldable pub compare_from : ℕ → Bytes → Bytes → ℤ
unfolding strtol
compare_from zero a b = pos 0
compare_from (suc left) a b =
    let (x, a') = strtol a in
    let (y, b') = strtol b in
    let rest = compare_from left (skip_dot a') (skip_dot b') in
    if ltb_ℤ x y then minus_one else if ltb_ℤ y x then pos 1 else rest

-- `ota_gh_vercmp`
unfoldable pub vercmp : Bytes → Bytes → ℤ
unfolding compare_from
vercmp a b = compare_from 3 a b

-- A leading v, which tags carry.
abbrev pub skip_v : Bytes → Bytes
skip_v [] = []
skip_v (c ∷ text) = if c == b'v' || c == b'V' then text else c ∷ text

-- `running_version` of the version that the image tells, where it tells one.
unfoldable pub running_version : Option Bytes → ℕ → Bytes
running_version none size = skip_v (fit size (codes "0.0.0"))
running_version (some version) size = skip_v (fit size version)

-- `ota_gh_release_t`
pub record Release : Type 0 where
  pub version : Bytes
  pub newer : Bool
  pub prerelease : Bool

-- `scan_t`; `out` are the first `n` elements of the array, which has `max`.
pub record Scan : Type 0 where
  pub matched : ℕ
  pub capturing : Bool
  pub val : Bytes
  pub out : List Release
  pub max : ℕ
  pub running : Bytes

-- "tag_name":"
abbrev pub needle : Bytes
needle = 34 ∷ (codes "tag_name" ++ 34 ∷ b':' ∷ 34 ∷ [])

-- The release of a captured value.
abbrev pub release_of : Bytes → Bytes → Release
release_of running val = record {
  version = fit 16 (skip_v val);
  newer = ltb_ℤ (pos 0) (vercmp (skip_v val) running);
  prerelease = false;
}

-- `scan_byte`
unfoldable pub scan_byte : Scan → ℕ → Scan
unfolding vercmp
scan_byte s c =
    let listed =
      if ltb (length s.out) s.max then s.out ++ release_of s.running s.val ∷ [] else s.out in
    let closed : Scan = record s { out = listed; capturing = false; val = [] } in
    let longer : Scan = record s { val = s.val ++ c ∷ [] } in
    let found : Scan = record s { capturing = true; val = []; matched = 0 } in
    let next : Scan = record s { matched = s.matched + 1 } in
    if s.capturing
    then if c == 34 then closed else if ltb (length s.val + 1) 16 then longer else s
    else if c == get_or needle s.matched 0
    then if s.matched + 1 == 12 then found else next
    else record s { matched = if c == 34 then 1 else 0 }

-- The bytes of a read.
unfoldable pub scan_bytes : Scan → Bytes → Scan
unfolding scan_byte
scan_bytes s [] = s
scan_bytes s (c ∷ bytes) = scan_bytes (scan_byte s c) bytes

-- The loop of `ota_gh_check` over the reads, up to the first one behind which the array is full.
unfoldable pub scan_reads : Scan → List Bytes → Scan
unfolding scan_bytes
scan_reads s [] = s
scan_reads s (read ∷ reads) =
    let after = scan_bytes s read in
    let rest = scan_reads after reads in if leb s.max (length after.out) then after else rest

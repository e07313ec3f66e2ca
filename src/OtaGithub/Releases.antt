-- ===== src/OtaGithub/Releases.antt =====
-- The versions of ota_github.c are ordered by their numbers, and a release in the list is found wherever the
-- reads cut it.
use esp32_nut_bluetti.Prelude.{
  ℕ, zero, suc, ◌+◌, ◌<◌, ◌≡◌, refl, ◌∙◌, ap, sym, Bool, true, false, not, ◌&&◌, ◌||◌, ◌≢◌, ◌≤◌,
  List, [], ◌∷◌, ◌++◌, if◌then◌else◌, ◌==◌, ltb, arith, length, length-append,
}
use mathlib.Core.List.{append_assoc, append-nil}
use esp32_nut_bluetti.Prelude.Int.{ℤ, pos, negsuc, minus_one, ltb_ℤ}
use esp32_nut_bluetti.Prelude.Text.{Bytes, fit, fit_short}
use esp32_nut_bluetti.OtaGithub.{
  strtol, skip_dot, skip_v, compare_from, vercmp, Release, Scan, needle, release_of, scan_byte,
  scan_bytes,
}

scan_bytes-append : (s : Scan) (a b : Bytes) → scan_bytes s (a ++ b) ≡ scan_bytes (scan_bytes s a) b
unfolding scan_bytes
scan_bytes-append s [] b = refl
scan_bytes-append s (c ∷ a) b = scan_bytes-append (scan_byte s c) a b

-- Neither a quotation mark nor too long for `val`.
abbrev pub IsTag : Bytes → Type 0
IsTag [] = Unit
IsTag (c ∷ text) = ((c == 34) ≡ false) × IsTag text

abbrev idle : List Release → ℕ → Bytes → Scan
idle out max running = record {
  matched = 0;
  capturing = false;
  val = [];
  out = out;
  max = max;
  running = running;
}

abbrev capturing : Bytes → List Release → ℕ → Bytes → Scan
capturing val out max running = record {
  matched = 0;
  capturing = true;
  val = val;
  out = out;
  max = max;
  running = running;
}

scan_needle :
    (out : List Release) (max : ℕ) (running : Bytes)
    → scan_bytes (idle out max running) needle ≡ capturing [] out max running
unfolding scan_bytes scan_byte
scan_needle out max running = refl

scan_value :
    (val text : Bytes) (out : List Release) (max : ℕ) (running : Bytes)
    → IsTag text
    → length val + length text < 16
    → scan_bytes (capturing val out max running) text ≡ capturing (val ++ text) out max running
unfolding scan_bytes scan_byte
scan_value val [] out max running t h = ap (λ v. capturing v out max running) (sym (append-nil val))
scan_value val (c ∷ text) out max running (other, t) h =
    let room : ltb (length val + 1) 16 ≡ true = ground (arith, h) in
    let size = length-append val (c ∷ []) in
    let ih = scan_value (val ++ c ∷ []) text out max running t (omega (arith, h, size)) in
    rw other (rw room (ih ∙ ap (λ v. capturing v out max running) (append_assoc val (c ∷ []) text)))

scan_quote :
    (val : Bytes) (out : List Release) (max : ℕ) (running : Bytes)
    → length out < max
    → scan_bytes (capturing val out max running) (34 ∷ [])
      ≡ idle (out ++ release_of running val ∷ []) max running
unfolding scan_bytes scan_byte
scan_quote val out max running room =
    let fits : ltb (length out) max ≡ true = ground (arith, room) in rw fits refl

-- The entry of a release in the list.
abbrev pub entry : Bytes → Bytes
entry tag = needle ++ (tag ++ 34 ∷ [])

scan_entry :
    (tag : Bytes) (out : List Release) (max : ℕ) (running : Bytes)
    → IsTag tag
    → length tag < 16
    → length out < max
    → scan_bytes (idle out max running) (entry tag)
      ≡ idle (out ++ release_of running tag ∷ []) max running
scan_entry tag out max running t small room =
    scan_bytes-append (idle out max running) needle (tag ++ 34 ∷ [])
    ∙ (ap (λ s. scan_bytes s (tag ++ 34 ∷ [])) (scan_needle out max running)
        ∙ (scan_bytes-append (capturing [] out max running) tag (34 ∷ [])
            ∙ (ap (λ s. scan_bytes s (34 ∷ []))
                  (scan_value [] tag out max running t (omega (arith, small)))
                ∙ scan_quote tag out max running room)))

-- The numbers of a version, as many as are compared.
abbrev pub numbers : ℕ → Bytes → List ℤ
numbers zero text = []
numbers (suc n) text = (strtol text).0 ∷ numbers n (skip_dot (strtol text).1)

-- The order of the dictionary.
abbrev pub lex : List ℤ → List ℤ → ℤ
lex [] ys = pos 0
lex (x ∷ xs) [] = pos 0
lex (x ∷ xs) (y ∷ ys) =
    let rest = lex xs ys in if ltb_ℤ x y then minus_one else if ltb_ℤ y x then pos 1 else rest

compare_from-lex : (n : ℕ) (a b : Bytes) → compare_from n a b ≡ lex (numbers n a) (numbers n b)
unfolding compare_from
compare_from-lex zero a b = refl
compare_from-lex (suc n) a b =
    let ih = compare_from-lex n (skip_dot (strtol a).1) (skip_dot (strtol b).1) in
    let x = (strtol a).0 in
    let y = (strtol b).0 in
    ap (λ (r : ℤ). if ltb_ℤ x y then minus_one else if ltb_ℤ y x then pos 1 else r) ih

-- The other way round.
abbrev pub flip : ℤ → ℤ
flip (pos zero) = pos zero
flip (pos (suc n)) = negsuc n
flip (negsuc n) = pos (suc n)

ltb_ℤ-asym : (x y : ℤ) → ltb_ℤ x y ≡ true → ltb_ℤ y x ≡ false
ltb_ℤ-asym x y h = ground (arith, h)

lex-flip : (xs ys : List ℤ) → lex ys xs ≡ flip (lex xs ys)
lex-flip [] [] = refl
lex-flip [] (y ∷ ys) = refl
lex-flip (x ∷ xs) [] = refl
lex-flip (x ∷ xs) (y ∷ ys) =
    turned (ltb_ℤ x y) (ltb_ℤ y x) (lex xs ys) (lex ys xs) (ltb_ℤ-asym x y) (lex-flip xs ys)
  where
    turned :
        (a b : Bool) (r r' : ℤ)
        → (a ≡ true → b ≡ false)
        → r' ≡ flip r
        → (if b then minus_one else if a then pos 1 else r')
          ≡ flip (if a then minus_one else if b then pos 1 else r)
    turned true true r r' h e = absurd (ground (arith, h refl))
    turned true false r r' h e = refl
    turned false true r r' h e = refl
    turned false false r r' h e = e

-- Versions are compared as the dictionary orders their first three numbers, and the other way round the
-- result is the opposite one.
pub vercmp-lex :
    (a b : Bytes)
    → (vercmp a b ≡ lex (numbers 3 a) (numbers 3 b)) × (vercmp b a ≡ flip (vercmp a b))
unfolding vercmp
vercmp-lex a b =
    let there = compare_from-lex 3 a b in
    (there, compare_from-lex 3 b a ∙ (lex-flip (numbers 3 a) (numbers 3 b) ∙ ap flip (sym there)))

-- Whether the first difference of two versions is a greater number.
abbrev pub is_later : List ℤ → List ℤ → Bool
is_later [] ys = false
is_later (x ∷ xs) [] = false
is_later (x ∷ xs) (y ∷ ys) = ltb_ℤ y x || (not (ltb_ℤ x y) && is_later xs ys)

lex-is_later : (xs ys : List ℤ) → ltb_ℤ (pos 0) (lex xs ys) ≡ is_later xs ys
lex-is_later [] ys = refl
lex-is_later (x ∷ xs) [] = refl
lex-is_later (x ∷ xs) (y ∷ ys) =
    chosen (ltb_ℤ x y) (ltb_ℤ y x) (lex xs ys) (is_later xs ys) (ltb_ℤ-asym x y)
      (lex-is_later xs ys)
  where
    chosen :
        (a b : Bool) (r : ℤ) (later : Bool)
        → (a ≡ true → b ≡ false)
        → ltb_ℤ (pos 0) r ≡ later
        → ltb_ℤ (pos 0) (if a then minus_one else if b then pos 1 else r) ≡ (b || (not a && later))
    chosen true true r later h e = absurd (ground (arith, h refl))
    chosen true false r later h e = refl
    chosen false true r later h e = refl
    chosen false false r later h e = e

-- How a tag spells a version: as it is, or behind a letter.
pub data Spelling : Type 0 where
  bare small_v capital_v : Spelling

abbrev pub spell : Spelling → Bytes → Bytes
spell bare name = name
spell small_v name = b'v' ∷ name
spell capital_v name = b'V' ∷ name

-- A version: it starts with another byte than the letters of a tag.
abbrev pub IsVersion : Bytes → Type 0
IsVersion [] = ⊥
IsVersion (c ∷ text) = (c ≢ b'v') × (c ≢ b'V')

skip_v-spell : (how : Spelling) (name : Bytes) → IsVersion name → skip_v (spell how name) ≡ name
skip_v-spell how [] other = absurd other
skip_v-spell bare (c ∷ name) (small, capital) =
    let neither : (c == b'v' || c == b'V') ≡ false = ground (arith, small, capital) in
    rw neither refl
skip_v-spell small_v (c ∷ name) other = refl
skip_v-spell capital_v (c ∷ name) other = refl

-- The release that a tag stands for.
abbrev pub listed : Bytes → Bytes → Release
listed running name = record {
  version = name;
  newer = is_later (numbers 3 name) (numbers 3 running);
  prerelease = false;
}

release_of-spell :
    (how : Spelling) (name running : Bytes)
    → IsVersion name
    → length name < 16
    → release_of running (spell how name) ≡ listed running name
unfolding vercmp
release_of-spell how name running other small =
    let cut = skip_v-spell how name other in
    let whole = fit_short 16 name small in
    let order =
      ap (ltb_ℤ (pos 0)) (compare_from-lex 3 name running)
      ∙ lex-is_later (numbers 3 name) (numbers 3 running) in
    ap
      (λ (v : Bytes). record {
        version = fit 16 v;
        newer = ltb_ℤ (pos 0) (vercmp v running);
        prerelease = false;
      })
      cut
    ∙ (ap
          (λ (v : Bytes). record {
            version = v;
            newer = ltb_ℤ (pos 0) (vercmp name running);
            prerelease = false;
          })
          whole
        ∙ ap (λ (b : Bool). record { version = name; newer = b; prerelease = false }) order)

length-spell : (how : Spelling) (name : Bytes) → length name ≤ length (spell how name)
length-spell bare name = omega arith
length-spell small_v name = omega arith
length-spell capital_v name = omega arith

-- The entry of a release is found wherever a read ends within it: behind its bytes the next element of the
-- array is the version that the tag spells, without the letter v in front of it, and it is newer exactly if
-- the first difference between its first three numbers and those of the running version is a greater one;
-- the scan is between two entries again. The version starts with another byte than the letter, the tag has no
-- quotation mark and at most 15 bytes, the scan is between two entries before, and the array has room.
pub scan_pieces :
    (a b name : Bytes) (how : Spelling) (out : List Release) (max : ℕ) (running : Bytes)
    → a ++ b ≡ entry (spell how name)
    → IsVersion name
    → IsTag (spell how name)
    → length (spell how name) < 16
    → length out < max
    → scan_bytes (scan_bytes (idle out max running) a) b
      ≡ idle (out ++ listed running name ∷ []) max running
scan_pieces a b name how out max running cut other t small room =
    let tag = spell how name in
    sym (scan_bytes-append (idle out max running) a b)
    ∙ (ap (scan_bytes (idle out max running)) cut
        ∙ (scan_entry tag out max running t small room
            ∙ ap (λ (rel : Release). idle (out ++ rel ∷ []) max running)
                (release_of-spell how name running other
                  (omega (arith, small, length-spell how name)))))

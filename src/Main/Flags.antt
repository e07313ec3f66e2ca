-- ===== src/Main/Flags.antt =====
-- The flags of a status (main/main.c), as NUT clients read them, and when a reading is low.
use esp32_nut_bluetti.Prelude.{
  ℕ, ◌≡◌, refl, Bool, true, false, not, ◌&&◌, ◌||◌, some, List, [], ◌∷◌, ◌++◌, if◌then◌else◌, ◌==◌,
  ◌*◌, ◌<◌, ◌≤◌, ◌↔◌, ◌⊎◌, Option, none, ltb, leb, arith, inl, inr,
}
use esp32_nut_bluetti.Prelude.Int.{pos, leb_ℤ}
use esp32_nut_bluetti.Prelude.Text.{Bytes, codes, bytes_eq}
use esp32_nut_bluetti.BtRegs.State.{BluettiState}
use esp32_nut_bluetti.Main.{is_low_charge, is_low_runtime, power_status}

-- The words of a status, as a client splits them.
abbrev pub split : Bytes → Bytes → List Bytes
split word [] = word ∷ []
split word (c ∷ text) = if c == b' ' then word ∷ split [] text else split (word ++ c ∷ []) text

abbrev pub has_word : Bytes → List Bytes → Bool
has_word flag [] = false
has_word flag (word ∷ words) = bytes_eq flag word || has_word flag words

abbrev pub flag : Bytes → Bytes → Bool
flag name status = has_word name (split [] status)

-- The flags of a status with a complete sweep.
pub power_status-flag :
    (runtime_low_s : ℕ) (st : BluettiState)
    → (flag (codes "OB") (power_status runtime_low_s st) ≡ not st.ac_input_present)
      × (flag (codes "OL") (power_status runtime_low_s st) ≡ st.ac_input_present)
      × (flag (codes "LB") (power_status runtime_low_s st)
          ≡ (not st.ac_input_present && (is_low_charge st || is_low_runtime runtime_low_s st)))
      × (flag (codes "CHRG") (power_status runtime_low_s st) ≡ st.charging)
      × (flag (codes "DISCHRG") (power_status runtime_low_s st)
          ≡ (not st.ac_input_present && not st.charging))
      × (flag (codes "WAIT") (power_status runtime_low_s st) ≡ false)
unfolding power_status bytes_eq
power_status-flag runtime_low_s st =
    cases st.ac_input_present st.charging (is_low_charge st || is_low_runtime runtime_low_s st)
  where
    text : Bool → Bool → Bool → Bytes
    text present charging low =
        if present
        then codes "OL" ++ (if charging then codes " CHRG" else [])
        else codes "OB"
          ++ ((if low then codes " LB" else [])
              ++ (if charging then codes " CHRG" else codes " DISCHRG"))

    cases :
        (present charging low : Bool)
        → (flag (codes "OB") (text present charging low) ≡ not present)
          × (flag (codes "OL") (text present charging low) ≡ present)
          × (flag (codes "LB") (text present charging low) ≡ (not present && low))
          × (flag (codes "CHRG") (text present charging low) ≡ charging)
          × (flag (codes "DISCHRG") (text present charging low) ≡ (not present && not charging))
          × (flag (codes "WAIT") (text present charging low) ≡ false)
    cases true true low = (refl, refl, refl, refl, refl, refl)
    cases true false low = (refl, refl, refl, refl, refl, refl)
    cases false true true = (refl, refl, refl, refl, refl, refl)
    cases false true false = (refl, refl, refl, refl, refl, refl)
    cases false false true = (refl, refl, refl, refl, refl, refl)
    cases false false false = (refl, refl, refl, refl, refl, refl)

-- A reading with low energy: a known charge of at most the limit of the power station, or a known runtime of
-- at most the seconds that are configured, where that number is not 0.
abbrev pub IsLow : ℕ → BluettiState → Type 0
IsLow low st =
    ((soc : ℕ) × (st.soc_pct ≡ some soc) × (leb_ℤ (pos soc) st.soc_low_pct ≡ true))
    ⊎ ((mins : ℕ) × (st.minutes_remaining ≡ some mins) × (0 < low) × (mins * 60 ≤ low))

is_low_charge_iff :
    (st : BluettiState)
    → (is_low_charge st ≡ true)
      ↔ ((soc : ℕ) × (st.soc_pct ≡ some soc) × (leb_ℤ (pos soc) st.soc_low_pct ≡ true))
is_low_charge_iff st = by_charge st.soc_pct
  where
    low_at : Option ℕ → Bool
    low_at charge = elim charge [ none ↦ false | some soc ↦ leb_ℤ (pos soc) st.soc_low_pct ]

    by_charge :
        (charge : Option ℕ)
        → (low_at charge ≡ true)
          ↔ ((soc : ℕ) × (charge ≡ some soc) × (leb_ℤ (pos soc) st.soc_low_pct ≡ true))
    by_charge none = (λ e. absurd (cc), λ (soc, e, h). absurd (cc))
    by_charge (some soc) = (λ e. (soc, refl, e), λ (soc', e, h). ground (arith, e, h))

is_low_runtime_iff :
    (low : ℕ) (st : BluettiState)
    → (is_low_runtime low st ≡ true)
      ↔ ((mins : ℕ) × (st.minutes_remaining ≡ some mins) × (0 < low) × (mins * 60 ≤ low))
is_low_runtime_iff low st = by_runtime st.minutes_remaining
  where
    low_at : Option ℕ → Bool
    low_at runtime = ltb 0 low && elim runtime [ none ↦ false | some mins ↦ leb (mins * 60) low ]

    by_runtime :
        (runtime : Option ℕ)
        → (low_at runtime ≡ true)
          ↔ ((mins : ℕ) × (runtime ≡ some mins) × (0 < low) × (mins * 60 ≤ low))
    by_runtime none = (λ e. absurd (ground (arith, e)), λ (mins, e, h, k). absurd (cc))
    by_runtime (some mins) = (
      λ e. (mins, refl, ground (arith, e), ground (arith, e)),
      λ (mins', e, h, k). ground (arith, e, h, k),
    )

-- The tests of main.c are about just such a reading.
pub is_low_charge-IsLow :
    (low : ℕ) (st : BluettiState)
    → ((is_low_charge st || is_low_runtime low st) ≡ true) ↔ IsLow low st
is_low_charge-IsLow low st =
    let charge = is_low_charge_iff st in
    let runtime = is_low_runtime_iff low st in
    (
      λ e. by_test (is_low_charge st) (is_low_runtime low st) e charge.0 runtime.0,
      λ h. elim h [
        | inl c ↦ either_low (is_low_charge st) (is_low_runtime low st) (inl (charge.1 c))
        | inr r ↦ either_low (is_low_charge st) (is_low_runtime low st) (inr (runtime.1 r))
      ],
    )
  where
    by_test :
        {A B : Type 0} (a b : Bool) → (a || b) ≡ true → (a ≡ true → A) → (b ≡ true → B) → A ⊎ B
    by_test true b e f g = inl (f refl)
    by_test false b e f g = inr (g e)

    either_low : (a b : Bool) → (a ≡ true) ⊎ (b ≡ true) → (a || b) ≡ true
    either_low true b h = refl
    either_low false b (inl e) = absurd (cc)
    either_low false b (inr e) = e

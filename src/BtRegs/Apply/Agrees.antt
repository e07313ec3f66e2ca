-- ===== src/BtRegs/Apply/Agrees.antt =====
-- What `bt_regs_apply` (bt_regs.c) stores for the controls agrees with the table of the controls.
use esp32_nut_bluetti.Prelude.{
  ℕ, zero, suc, ◌≡◌, refl, ◌∙◌, ap, sym, Bool, true, false, ◌&&◌, ◌||◌, Option, none, some, List,
  [], ◌∷◌, ◌==◌, ltb, arith, get_elem?, if_ind,
}
use esp32_nut_bluetti.Prelude.Int.{pos}
use esp32_nut_bluetti.Prelude.Text.{Bytes}
use esp32_nut_bluetti.BtRegs.Devices.{Device, has}
use esp32_nut_bluetti.BtRegs.Controls.{
  Control, controls, control_valid, is_documented, control_valid-documented,
}
use esp32_nut_bluetti.BtRegs.Decode.{reg}
use esp32_nut_bluetti.BtRegs.State.{BluettiState}
use esp32_nut_bluetti.BtRegs.Apply.{
  taken, is_switch, between, Found, found, or_old, store, matched, recompute, seeded, regs_apply,
  control_current,
}

-- The check of a value for a control, as `bt_control_valid` makes it.
abbrev pub accepts : Control → ℕ → Bool
accepts c v = elim (control_valid (some c) (pos v)) [ none ↦ false | some ok ↦ ok ]

-- What a control is behind a response: the word of its register, where the model has the control and
-- the word is a value for it, and what it was before else.
abbrev pub expected : Control → Device → ℕ → Bytes → BluettiState → Option ℕ
expected c dev start bytes st =
    or_old (taken (has dev.controls c.bit) (accepts c) (reg start bytes c.reg))
      (control_current (some c) (some st))

module _ (now start : ℕ) (dev : Device) (bytes : Bytes) (st : BluettiState) where
  -- A field that nothing but its own assignment writes.
  field_lem :
      (get : BluettiState → Option ℕ) (put : Found → Option ℕ)
      → ((f : Found) (s : BluettiState) → get (store f s) ≡ or_old (put f) (get s))
      → ((s : BluettiState) → get (record (recompute s) { valid = true; updated_us = now }) ≡ get s)
      → ((n : ℕ) (s : BluettiState) → get (record s { design_capacity_wh = n }) ≡ get s)
      → get (regs_apply now (some dev) start bytes st).0
        ≡ or_old (put (found dev start bytes)) (get st)
  unfolding regs_apply
  field_lem get put stores keeps other =
      let f = found dev start bytes in
      let before : get (seeded dev st) ≡ get st =
        if_ind (λ (s : BluettiState). get s ≡ get st) (ltb 0 dev.wh && st.design_capacity_wh == 0)
          (record st { design_capacity_wh = dev.wh }) st (λ e. other dev.wh st) (λ e. refl) in
      let stored = stores f (seeded dev st) ∙ ap (or_old (put f)) before in
      if_ind (λ s. get s ≡ or_old (put f) (get st)) (ltb 0 (matched f)) _ _
        (λ e. keeps (store f (seeded dev st)) ∙ stored) (λ e. stored)

  taken-same :
      (asked : Bool) (f g : ℕ → Bool) (o : Option ℕ)
      → ((v : ℕ) → f v ≡ g v)
      → taken asked f o ≡ taken asked g o
  taken-same asked f g none same = refl
  taken-same asked f g (some v) same = rw (same v) refl

  -- A row of the table whose check of a value is `ok`.
  row_lem :
      (i : ℕ) (c : Control) (ok : ℕ → Bool) (get : BluettiState → Option ℕ) (put : Found → Option ℕ)
      → get_elem? controls i ≡ some c
      → ((v : ℕ) → is_documented c.reg (pos v) ≡ ok v)
      → put (found dev start bytes) ≡ taken (has dev.controls c.bit) ok (reg start bytes c.reg)
      → ((s : BluettiState) → control_current (some c) (some s) ≡ get s)
      → ((f : Found) (s : BluettiState) → get (store f s) ≡ or_old (put f) (get s))
      → ((s : BluettiState) → get (record (recompute s) { valid = true; updated_us = now }) ≡ get s)
      → ((n : ℕ) (s : BluettiState) → get (record s { design_capacity_wh = n }) ≡ get s)
      → control_current (some c) (some (regs_apply now (some dev) start bytes st).0)
        ≡ expected c dev start bytes st
  row_lem i c ok get put at same read current stores keeps other =
      let accept : (v : ℕ) → accepts c v ≡ ok v = λ v.
        ap (λ (o : Option Bool). elim o [ none ↦ false | some b ↦ b ])
          (control_valid-documented i c (pos v) at)
        ∙ same v in
      let took =
        read
        ∙ sym (taken-same (has dev.controls c.bit) (accepts c) ok (reg start bytes c.reg) accept) in
      current (regs_apply now (some dev) start bytes st).0
      ∙ field_lem get put stores keeps other
      ∙ ap (λ o. or_old o (get st)) took
      ∙ ap (or_old (taken (has dev.controls c.bit) (accepts c) (reg start bytes c.reg)))
          (sym (current st))

  IsStored : Control → Type 0
  IsStored c =
      control_current (some c) (some (regs_apply now (some dev) start bytes st).0)
      ≡ expected c dev start bytes st

  AreStored : List Control → Type 0
  AreStored [] = Unit
  AreStored (c ∷ rows) = IsStored c × AreStored rows

  controls-AreStored : AreStored controls
  unfolding AreStored IsStored store recompute control_current
  controls-AreStored = (
    row_lem 0 _ is_switch (λ s. s.ac_switch) (λ f. f.ac_sw) refl (λ v. ground arith) refl
        (λ s. refl) (λ f s. refl) (λ s. refl) (λ n s. refl),
    (
      row_lem 1 _ is_switch (λ s. s.dc_switch) (λ f. f.dc_sw) refl (λ v. ground arith) refl
          (λ s. refl) (λ f s. refl) (λ s. refl) (λ n s. refl),
      (
        row_lem 2 _ is_switch (λ s. s.eco_ac) (λ f. f.e_ac) refl (λ v. ground arith) refl
            (λ s. refl) (λ f s. refl) (λ s. refl) (λ n s. refl),
        (
          row_lem 3 _ is_switch (λ s. s.eco_dc) (λ f. f.e_dc) refl (λ v. ground arith) refl
              (λ s. refl) (λ f s. refl) (λ s. refl) (λ n s. refl),
          (
            row_lem 4 _ (between 1 4) (λ s. s.eco_mode_ac) (λ f. f.e_mode_ac) refl
                (λ v. ground arith) refl (λ s. refl) (λ f s. refl) (λ s. refl) (λ n s. refl),
            (
              row_lem 5 _ (between 1 4) (λ s. s.eco_mode_dc) (λ f. f.e_mode_dc) refl
                  (λ v. ground arith) refl (λ s. refl) (λ f s. refl) (λ s. refl) (λ n s. refl),
              (
                row_lem 6 _ (λ v. v == 0 || (v == 1 || (v == 2 || v == 4))) (λ s. s.charging_mode)
                    (λ f. f.charge_mode) refl (λ v. ground arith) refl (λ s. refl) (λ f s. refl)
                    (λ s. refl) (λ n s. refl),
                (
                  row_lem 7 _ is_switch (λ s. s.power_lifting) (λ f. f.lift) refl
                      (λ v. ground arith) refl (λ s. refl) (λ f s. refl) (λ s. refl) (λ n s. refl),
                  (
                    row_lem 8 _ (between 0 100) (λ s. s.soc_min) (λ f. f.floor) refl
                        (λ v. ground arith) refl (λ s. refl) (λ f s. refl) (λ s. refl)
                        (λ n s. refl),
                    (
                      row_lem 9 _ (between 0 100) (λ s. s.soc_max) (λ f. f.ceiling) refl
                          (λ v. ground arith) refl (λ s. refl) (λ f s. refl) (λ s. refl)
                          (λ n s. refl),
                      (
                        row_lem 10 _ (between 2 5) (λ s. s.display_time) (λ f. f.screen) refl
                            (λ v. ground arith) refl (λ s. refl) (λ f s. refl) (λ s. refl)
                            (λ n s. refl),
                        tt,
                      ),
                    ),
                  ),
                ),
              ),
            ),
          ),
        ),
      ),
    ),
  )

  AreStored-at :
      (rows : List Control) (i : ℕ) (c : Control)
      → AreStored rows
      → get_elem? rows i ≡ some c
      → IsStored c
  unfolding AreStored
  AreStored-at [] i c all at = cc
  AreStored-at (r ∷ rows) zero c all at = let e : r ≡ c = cc in rw e at all.0
  AreStored-at (r ∷ rows) (suc i) c all at = AreStored-at rows i c all.1 at

-- The value that is stored for a control of the table is the one that its check accepts: behind a
-- response, `bt_control_current` gives the word of its register, where the model has the control,
-- the response has the register and `bt_control_valid` accepts the word, and what it gave before else.
pub control_current-regs_apply :
    (now start i : ℕ) (c : Control) (dev : Device) (bytes : Bytes) (st : BluettiState)
    → get_elem? controls i ≡ some c
    → control_current (some c) (some (regs_apply now (some dev) start bytes st).0)
      ≡ expected c dev start bytes st
unfolding IsStored
control_current-regs_apply now start i c dev bytes st at =
    AreStored-at now start dev bytes st controls i c (controls-AreStored now start dev bytes st) at

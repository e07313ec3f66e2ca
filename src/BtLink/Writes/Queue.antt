-- ===== src/BtLink/Writes/Queue.antt =====
-- The queue of control writes (bluetti_ble.c) holds writes that may be sent, each register once.
use esp32_nut_bluetti.Prelude.{
  ℕ, suc, ◌≡◌, ◌≤◌, refl, ◌∙◌, ap, sym, Bool, true, false, ◌||◌, some, List, [], ◌∷◌, ◌++◌, ◌==◌,
  leb, arith, length, get_elem?, length-append, if_ind, Bool-cases, inl, inr,
}
use esp32_nut_bluetti.BtRegs.Controls.{Control, controls}
use esp32_nut_bluetti.BtRegs.Apply.Agrees.{accepts}
use esp32_nut_bluetti.BtLink.State.{Write}
use esp32_nut_bluetti.BtLink.Writes.{queue_max, is_queued, replace, enqueue}

-- A write of a control of the table, with a value that its check accepts.
abbrev pub IsWritable : Write → Type 0
IsWritable w =
    (i : ℕ) × (c : Control) × (get_elem? controls i ≡ some c)
    × (w.reg ≡ c.reg)
    × (accepts c w.val ≡ true)

abbrev pub AreWritable : List Write → Type 0
AreWritable [] = Unit
AreWritable (w ∷ queue) = IsWritable w × AreWritable queue

-- No register is queued twice.
abbrev pub AreDistinct : List Write → Type 0
AreDistinct [] = Unit
AreDistinct (w ∷ queue) = (is_queued queue w.reg ≡ false) × AreDistinct queue

-- A queue that fits its array.
abbrev pub IsQueue : List Write → Type 0
IsQueue queue = AreWritable queue × AreDistinct queue × (length queue ≤ queue_max)

replace-AreWritable :
    (queue : List Write) (new : Write)
    → IsWritable new
    → AreWritable queue
    → AreWritable (replace queue new)
replace-AreWritable [] new n h = h
replace-AreWritable (w ∷ queue) new n h =
    if_ind AreWritable (w.reg == new.reg) (new ∷ queue) (w ∷ replace queue new) (λ e. (n, h.1))
      (λ e. (h.0, replace-AreWritable queue new n h.1))

is_queued-replace :
    (queue : List Write) (new : Write) (r : ℕ) → is_queued (replace queue new) r ≡ is_queued queue r
is_queued-replace [] new r = refl
is_queued-replace (w ∷ queue) new r = elim (Bool-cases (w.reg == new.reg)) [
  | inl e ↦
      let same : new.reg ≡ w.reg = ground (arith, e) in
      rw e (ap (λ m. m == r || is_queued queue r) same)
  | inr e ↦ rw e (ap (λ b. w.reg == r || b) (is_queued-replace queue new r))
]

replace-AreDistinct :
    (queue : List Write) (new : Write) → AreDistinct queue → AreDistinct (replace queue new)
replace-AreDistinct [] new h = h
replace-AreDistinct (w ∷ queue) new h =
    if_ind AreDistinct (w.reg == new.reg) (new ∷ queue) (w ∷ replace queue new)
      (λ e.
        let same : w.reg ≡ new.reg = ground (arith, e) in
        (ap (is_queued queue) (sym same) ∙ h.0, h.1))
      (λ e. (is_queued-replace queue new w.reg ∙ h.0, replace-AreDistinct queue new h.1))

length-replace : (queue : List Write) (new : Write) → length (replace queue new) ≡ length queue
length-replace [] new = refl
length-replace (w ∷ queue) new =
    if_ind (λ q. length q ≡ suc (length queue)) (w.reg == new.reg) (new ∷ queue)
      (w ∷ replace queue new) (λ e. refl) (λ e. ap suc (length-replace queue new))

append-AreWritable :
    (queue : List Write) (new : Write)
    → IsWritable new
    → AreWritable queue
    → AreWritable (queue ++ new ∷ [])
append-AreWritable [] new n h = (n, tt)
append-AreWritable (w ∷ queue) new n h = (h.0, append-AreWritable queue new n h.1)

is_queued-append :
    (queue : List Write) (new : Write) (r : ℕ)
    → is_queued queue r ≡ false
    → (new.reg == r) ≡ false
    → is_queued (queue ++ new ∷ []) r ≡ false
is_queued-append [] new r h k = ground (arith, k)
is_queued-append (w ∷ queue) new r h k =
    let rest = is_queued-append queue new r in ground (arith, h, k, rest)

append-AreDistinct :
    (queue : List Write) (new : Write)
    → is_queued queue new.reg ≡ false
    → AreDistinct queue
    → AreDistinct (queue ++ new ∷ [])
append-AreDistinct [] new out h = (refl, tt)
append-AreDistinct (w ∷ queue) new out h = (
  is_queued-append queue new w.reg h.0 (ground (arith, out)),
  append-AreDistinct queue new (ground (arith, out)) h.1,
)

-- A write behind or in the place of another.
pub enqueue-IsQueue :
    (queue : List Write) (new : Write)
    → IsWritable new
    → IsQueue queue
    → IsQueue (enqueue queue new).0
unfolding enqueue
enqueue-IsQueue queue new n h =
    let size = length-append queue (new ∷ []) in
    let short = h.2 in
    if_ind (λ (r : List Write × Bool). IsQueue r.0) (is_queued queue new.reg) _ _
      (λ e. (
        replace-AreWritable queue new n h.0,
        replace-AreDistinct queue new h.1,
        omega (arith, length-replace queue new),
      ))
      (λ e.
        if_ind (λ (r : List Write × Bool). IsQueue r.0) (leb queue_max (length queue)) _ _ (λ k. h)
          (λ k. (
            append-AreWritable queue new n h.0,
            append-AreDistinct queue new e h.1,
            ground (arith, k, size),
          )))

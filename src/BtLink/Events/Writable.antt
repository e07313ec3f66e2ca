-- ===== src/BtLink/Events/Writable.antt =====
-- The queue of control writes (bluetti_ble.c) holds writes that may be sent, each register once.
use native.Mathlib.Nat.{mod-lt}
use esp32_nut_bluetti.Prelude.{
  ℕ, suc, ◌+◌, ◌-◌, ◌%◌, ◌≡◌, ◌<◌, ◌≤◌, refl, ◌∙◌, ap, sym, Bool, true, false, not, ◌&&◌, ◌||◌,
  Option, none, some, List, [], ◌∷◌, if◌then◌else◌, ◌==◌, ltb, leb, arith, length, get_elem?,
  if_ind, is_some, Bool-cases, Option-cases, inl, inr, drop,
}
use esp32_nut_bluetti.Prelude.Int.{ℤ, pos, negsuc}
use esp32_nut_bluetti.Prelude.Text.{Bytes, bytes_eq}
use esp32_nut_bluetti.BtCrypto.{Crypto}
use esp32_nut_bluetti.BtSession.State.{
  Session, Call, tx_call, regs_call, ack_call, is_idle, session_ready, use_plain,
}
use esp32_nut_bluetti.BtSession.Feed.{feed}
use esp32_nut_bluetti.BtSession.Modbus.{read_regs, write_reg}
use esp32_nut_bluetti.BtRegs.Devices.{Device, generic}
use esp32_nut_bluetti.BtRegs.Controls.{
  Control, controls, find_control, control_lookup, control_valid, is_documented,
  control_valid-documented,
}
use esp32_nut_bluetti.BtRegs.Plan.{RegRead}
use esp32_nut_bluetti.BtRegs.Apply.{regs_apply}
use esp32_nut_bluetti.BtRegs.Apply.Agrees.{accepts}
use esp32_nut_bluetti.BtLink.State.{
  Write, Link, replan, identify, session_regs, session_ack, hand_over,
}
use esp32_nut_bluetti.BtLink.Writes.{queue_max, u16, enqueue, may_write, write_found, write_control}
use esp32_nut_bluetti.BtLink.Writes.Queue.{AreWritable, AreDistinct, IsQueue, enqueue-IsQueue}
use esp32_nut_bluetti.BtLink.Poll.{
  requested, next_field, read_field, send_next, give_up, req_timeout_us, poll_fail_limit, poll_tick,
}
use esp32_nut_bluetti.BtLink.Events.{
  on_connect, on_disconnect, on_sub, kex_timeout, on_notify, replan_known, set_controls, ble_start,
  Event, ble_started, connect, disconnect, subscribed, kex_expired, notified, tick, switched,
  written, step, Reaches, here, next,
}

-- The next field stands in the plan, and no more fields count as read than it has.
abbrev pub IsSane : Link → Type 0
IsSane l =
    AreWritable l.write_queue
    × AreDistinct l.write_queue
    × (length l.write_queue ≤ queue_max)
    × (l.plan_i ≤ length l.plan - 1)
    × (l.sweep_reads ≤ length l.plan)

-- The link with the parts of the invariant that are not about the queue.
IsPlanned : Link → Type 0
IsPlanned l = (l.plan_i ≤ length l.plan - 1) × (l.sweep_reads ≤ length l.plan)

replan-IsSane :
    (l : Link) (dev : Device) (on : Bool) → IsQueue l.write_queue → IsSane (replan l dev on)
replan-IsSane l dev on h = (h.0, h.1, h.2, omega arith, omega arith)

IsSane-IsQueue : (l : Link) → IsSane l → IsQueue l.write_queue
IsSane-IsQueue l h = (h.0, h.1, h.2)

session_regs-IsSane :
    (now : ℕ) (l : Link) (addr : ℕ) (bytes : Bytes)
    → IsSane l
    → IsSane (session_regs now l addr bytes)
unfolding session_regs
session_regs-IsSane now l addr bytes h =
    let (st, n) = regs_apply now l.device addr bytes l.state in
    let applied : Link = record l { state = st } in
    let known : IsSane (
        if not (is_some l.device) && not (length st.model == 0)
        then identify now applied addr bytes
        else applied) =
      if_ind IsSane (not (is_some l.device) && not (length st.model == 0))
        (identify now applied addr bytes) applied (λ e. (h.0, h.1, h.2, omega arith, omega arith))
        (λ e. h) in
    if_ind IsSane (ltb 0 n) _ _ (λ e. known) (λ e. known)

hand_over-IsSane :
    (now : ℕ) (l : Link) (calls : List Call) → IsSane l → IsSane (hand_over now l calls)
unfolding hand_over
hand_over-IsSane now l [] h = h
hand_over-IsSane now l (tx_call frame done ∷ calls) h = hand_over-IsSane now l calls h
hand_over-IsSane now l (regs_call addr bytes ∷ calls) h =
    hand_over-IsSane now (session_regs now l addr bytes) calls
      (session_regs-IsSane now l addr bytes h)
hand_over-IsSane now l (ack_call addr value ok ∷ calls) h =
    hand_over-IsSane now (session_ack l) calls h

requested-IsSane : (now : ℕ) (l : Link) (r : Session × Bool) → IsSane l → IsSane (requested now l r)
requested-IsSane now l (s, true) h = h
requested-IsSane now l (s, false) h = h

read_field-IsSane :
    (c : Crypto) (now : ℕ) (l : Link) (f : Option RegRead)
    → (length l.plan == 0) ≡ false
    → IsSane l
    → IsSane (read_field c now l f)
read_field-IsSane c now l none some_plan h = h
read_field-IsSane c now l (some f) some_plan h =
    let n = length l.plan in
    let reads = h.4 in
    let some_field : 0 < n = ground (arith, some_plan) in
    let below = mod-lt (l.plan_i + 1) some_field in
    let index : (l.plan_i + 1) % n ≤ n - 1 = omega arith in
    requested-IsSane now (next_field l) (read_regs c l.session f.addr f.words)
      (h.0, h.1, h.2, index, ground (arith, reads))

send_next-IsSane :
    (c : Crypto) (now : ℕ) (l : Link) (queue : List Write)
    → l.write_queue ≡ queue
    → IsSane l
    → IsSane (send_next c now l queue)
unfolding send_next
send_next-IsSane c now l [] e h =
    if_ind IsSane (length l.plan == 0) l (read_field c now l (get_elem? l.plan l.plan_i)) (λ k. h)
      (λ k. read_field-IsSane c now l (get_elem? l.plan l.plan_i) k h)
send_next-IsSane c now l (w ∷ queue) e h =
    let q : IsQueue (w ∷ queue) = rw e at (IsSane-IsQueue l h) in
    let short = q.2 in
    requested-IsSane now (record l { write_queue = queue }) (write_reg c l.session w.reg w.val)
      (q.0.1, q.1.1, omega arith, h.3, h.4)

poll_tick-IsSane : (c : Crypto) (now : ℕ) (l : Link) → IsSane l → IsSane (poll_tick c now l)
unfolding poll_tick
poll_tick-IsSane c now l h =
    let missed : Link = record l { req_in_flight = false; poll_fails = l.poll_fails + 1 } in
    if_ind IsSane (not l.connected || (not (session_ready l.session) || length l.plan == 0)) _ _
      (λ e. h)
      (λ e.
        if_ind IsSane l.req_in_flight _ _
          (λ e.
            if_ind IsSane (ltb (now - l.req_sent_us) req_timeout_us) _ _ (λ e. h)
              (λ e.
                if_ind IsSane (leb poll_fail_limit (l.poll_fails + 1)) (give_up missed)
                  (send_next c now missed l.write_queue) (λ e. h)
                  (λ e. send_next-IsSane c now missed l.write_queue refl h)))
          (λ e. send_next-IsSane c now l l.write_queue refl h))

find_control-at :
    (rows : List Control) (field : Bytes) (c : Control)
    → find_control rows field ≡ some c
    → (i : ℕ) × (get_elem? rows i ≡ some c)
unfolding find_control
find_control-at [] field c found = absurd (cc)
find_control-at (r ∷ rows) field c found = elim (Bool-cases (bytes_eq field r.field)) [
  | inl e ↦ (0, ground (arith, e, found))
  | inr e ↦ let (i, at) = find_control-at rows field c (ground (arith, e, found)) in (suc i, at)
]

control_lookup-at :
    (field : Option Bytes) (c : Control)
    → control_lookup field ≡ some c
    → (i : ℕ) × (get_elem? controls i ≡ some c)
unfolding control_lookup
control_lookup-at none c found = absurd (cc)
control_lookup-at (some field) c found = find_control-at controls field c found

-- A documented value is small, and fits the register.
documented-u16 : (r : ℕ) (value : ℤ) → is_documented r value ≡ true → value ≡ pos (u16 value)
documented-u16 r (pos n) h = let small : n ≤ 100 = ground (arith, h) in ap pos (omega arith)
documented-u16 r (negsuc n) h = absurd (ground (arith, h))

accepts-u16 :
    (i : ℕ) (c : Control) (value : ℤ)
    → get_elem? controls i ≡ some c
    → elim (control_valid (some c) value) [ none ↦ false | some ok ↦ ok ] ≡ true
    → accepts c (u16 value) ≡ true
accepts-u16 i c value at ok =
    let documented : is_documented c.reg value ≡ true =
      ap (λ (o : Option Bool). elim o [ none ↦ false | some b ↦ b ])
        (sym (control_valid-documented i c value at))
      ∙ ok in
    let same = documented-u16 c.reg value documented in
    ap (λ v. elim (control_valid (some c) v) [ none ↦ false | some b ↦ b ]) (sym same) ∙ ok

write_found-IsSane :
    (l : Link) (value : ℤ) (i : ℕ) (c : Control)
    → get_elem? controls i ≡ some c
    → IsSane l
    → IsSane (write_found l value (some c)).0
write_found-IsSane l value i c at h =
    let new : Write = record { reg = c.reg; val = u16 value } in
    let r = enqueue l.write_queue new in
    if_ind (λ (r : Link × Bool). IsSane r.0) (may_write l c value)
      (record l { write_queue = r.0 }, r.1) (l, false)
      (λ e.
        let q =
          enqueue-IsQueue l.write_queue new
            (i, c, at, refl, accepts-u16 i c value at (ground (arith, e))) (IsSane-IsQueue l h) in
        (q.0, q.1, q.2, h.3, h.4))
      (λ e. h)

write_control-IsSane :
    (l : Link) (field : Option Bytes) (value : ℤ)
    → IsSane l
    → IsSane (write_control l field value).0
unfolding write_control
write_control-IsSane l field value h = elim (Option-cases (control_lookup field)) [
  | inl e ↦ rw e h
  | inr (c, e) ↦
      let (i, at) = control_lookup-at field c e in rw e (write_found-IsSane l value i c at h)
]

on_notify-IsSane :
    (c : Crypto) (now : ℕ) (l : Link) (bytes : Bytes) → IsSane l → IsSane (on_notify c now l bytes)
unfolding on_notify
on_notify-IsSane c now l bytes h =
    let s = feed c l.session bytes in
    hand_over-IsSane now (record l { session = s }) (drop (length l.session.calls) s.calls) h

set_controls-IsSane : (l : Link) (on : Bool) → IsSane l → IsSane (set_controls l on)
unfolding set_controls
set_controls-IsSane l on h =
    let kept : List Write = if on then l.write_queue else [] in
    let q : IsQueue kept =
      if_ind IsQueue on l.write_queue [] (λ e. IsSane-IsQueue l h) (λ e. (tt, tt, omega arith)) in
    known l.device kept q
  where
    known :
        (dev : Option Device) (kept : List Write)
        → IsQueue kept
        → IsSane (replan_known (record l { controls = on; write_queue = kept }) dev on)
    known none kept q = (q.0, q.1, q.2, h.3, h.4)
    known (some dev) kept q =
        replan-IsSane (record l { controls = on; write_queue = kept }) dev on q

step-IsSane : (c : Crypto) (l : Link) (e : Event) → IsSane l → IsSane (step c l e)
unfolding ble_start on_connect on_disconnect on_sub kex_timeout
step-IsSane c l (ble_started controls low) h = (h.0, h.1, h.2, omega arith, omega arith)
step-IsSane c l connect h = (h.0, h.1, h.2, omega arith, omega arith)
step-IsSane c l disconnect h = h
step-IsSane c l subscribed h = replan-IsSane l generic false (IsSane-IsQueue l h)
step-IsSane c l kex_expired h =
    if_ind IsSane (l.connected && is_idle l.session.state)
      (record l { session = use_plain l.session }) l (λ e. h) (λ e. h)
step-IsSane c l (notified now bytes) h = on_notify-IsSane c now l bytes h
step-IsSane c l (tick now) h = poll_tick-IsSane c now l h
step-IsSane c l (switched on) h = set_controls-IsSane l on h
step-IsSane c l (written field value) h = write_control-IsSane l field value h

-- Whatever happens to a link from a state on in which this holds: each queued write is for a control of
-- the table, with a value that its check accepts, no register is queued twice, the queue fits its
-- array, the next field to read stands in the plan, and no more fields count as read than it has.
pub Reaches-IsSane : (c : Crypto) (k l : Link) → IsSane k → Reaches c k l → IsSane l
Reaches-IsSane c k l h here = h
Reaches-IsSane c k l h (next {l = l'} r e) = step-IsSane c l' e (Reaches-IsSane c k l' h r)

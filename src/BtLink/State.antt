-- ===== src/BtLink/State.antt =====
-- The state of the link (bluetti_ble.c), and what it does with the responses of a session.
use esp32_nut_bluetti.Prelude.{
  ℕ, Bool, false, not, ◌&&◌, Option, none, some, List, [], ◌∷◌, ◌++◌, if◌then◌else◌, ◌==◌, ltb, leb,
  length, is_some,
}
use esp32_nut_bluetti.Prelude.Int.{ℤ}
use esp32_nut_bluetti.Prelude.Text.{Bytes}
use esp32_nut_bluetti.BtSession.State.{Session, Call, tx_call, regs_call, ack_call}
use esp32_nut_bluetti.BtRegs.Devices.{Device, generic, device_lookup}
use esp32_nut_bluetti.BtRegs.Plan.{RegRead, regs_plan, plan_max}
use esp32_nut_bluetti.BtRegs.State.{BluettiState}
use esp32_nut_bluetti.BtRegs.Apply.{regs_apply}

-- An element of `write_queue`.
pub record Write : Type 0 where
  pub reg : ℕ
  pub val : ℕ

-- The part of `b` that polling and control writes use. `device` is NULL as `none`; the plan and the
-- queue are the elements that count. `published` are the states that the callback was given, and
-- `terminated` counts the calls of ble_gap_terminate that polling made.
pub record Link : Type 0 where
  pub controls : Bool
  pub low_battery_pct : ℤ
  pub connected : Bool
  pub device : Option Device
  pub session : Session
  pub plan : List RegRead
  pub plan_i : ℕ
  pub sweep_reads : ℕ
  pub req_in_flight : Bool
  pub req_sent_us : ℕ
  pub poll_fails : ℕ
  pub write_queue : List Write
  pub state : BluettiState
  pub published : List BluettiState
  pub terminated : ℕ

-- The plan of a model, from its first field on.
abbrev pub replan : Link → Device → Bool → Link
replan l dev controls = record l {
  plan = regs_plan (some dev) controls plan_max;
  plan_i = 0;
  sweep_reads = 0;
}

-- The model with that name; an unknown one is the generic model.
abbrev known_device : Bytes → Device
known_device model = elim (device_lookup (some model)) [ none ↦ generic | some dev ↦ dev ]

-- The identification of the model, with the response read again for its fields.
abbrev pub identify : ℕ → Link → ℕ → Bytes → Link
identify now l addr bytes =
    let dev = known_device l.state.model in
    let planned = replan (record l { device = some dev }) dev l.controls in
    record planned { state = (regs_apply now (some dev) addr bytes l.state).0 }

abbrev pub sweep_done : Link → Bool
sweep_done l = ltb 0 (length l.plan) && leb (length l.plan) l.sweep_reads

-- `session_regs`, where a callback is set.
unfoldable pub session_regs : ℕ → Link → ℕ → Bytes → Link
session_regs now l addr bytes =
    let (st, matched) = regs_apply now l.device addr bytes l.state in
    let applied : Link = record l { state = st } in
    let known =
      if not (is_some l.device) && not (length st.model == 0)
      then identify now applied addr bytes
      else applied in
    let state : BluettiState = record known.state {
      soc_low_pct = l.low_battery_pct;
      sweep_done = sweep_done known;
    } in
    let answered : Link = record known { state = state; req_in_flight = false; poll_fails = 0 } in
    if ltb 0 matched
    then record answered { published = answered.published ++ state ∷ [] }
    else answered

-- `session_ack`
abbrev pub session_ack : Link → Link
session_ack l = record l { req_in_flight = false; poll_fails = 0 }

-- The callbacks that a session called, in their order.
unfoldable pub hand_over : ℕ → Link → List Call → Link
unfolding session_regs
hand_over now l [] = l
hand_over now l (tx_call frame done ∷ calls) = hand_over now l calls
hand_over now l (regs_call addr bytes ∷ calls) = hand_over now (session_regs now l addr bytes) calls
hand_over now l (ack_call addr value ok ∷ calls) = hand_over now (session_ack l) calls

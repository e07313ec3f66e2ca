-- ===== src/BtLink/Poll.antt =====
-- A tick of the poll timer (`poll_timer_cb` of bluetti_ble.c).
pub mod Order
use esp32_nut_bluetti.Prelude.{
  ℕ, ◌+◌, ◌-◌, ◌%◌, Bool, true, false, not, ◌&&◌, ◌||◌, Option, none, some, List, [], ◌∷◌,
  if◌then◌else◌, ◌==◌, ltb, leb, length, get_elem?,
}
use esp32_nut_bluetti.BtCrypto.{Crypto}
use esp32_nut_bluetti.BtSession.State.{Session, session_ready}
use esp32_nut_bluetti.BtSession.Modbus.{read_regs, write_reg}
use esp32_nut_bluetti.BtRegs.Plan.{RegRead}
use esp32_nut_bluetti.BtLink.State.{Write, Link}

-- `REQ_TIMEOUT_US`
abbrev pub req_timeout_us : ℕ
req_timeout_us = 6000000

-- `POLL_FAIL_LIMIT`
abbrev pub poll_fail_limit : ℕ
poll_fail_limit = 5

-- A request, with whether it could be sent.
abbrev pub requested : ℕ → Link → Session × Bool → Link
requested now l (s, true) = record l { session = s; req_in_flight = true; req_sent_us = now }
requested now l (s, false) = record l { session = s }

-- The next field of the plan is counted as read when it is asked for.
abbrev pub next_field : Link → Link
next_field l = record l {
  plan_i = (l.plan_i + 1) % length l.plan;
  sweep_reads = if ltb l.sweep_reads (length l.plan) then l.sweep_reads + 1 else l.sweep_reads;
}

abbrev pub read_field : Crypto → ℕ → Link → Option RegRead → Link
read_field c now l none = l
read_field c now l (some f) = requested now (next_field l) (read_regs c l.session f.addr f.words)

-- A tick where no request is outstanding. The oldest write leaves the queue before it is sent.
unfoldable pub send_next : Crypto → ℕ → Link → List Write → Link
send_next c now l (w ∷ queue) =
    requested now (record l { write_queue = queue }) (write_reg c l.session w.reg w.val)
send_next c now l [] =
    if length l.plan == 0 then l else read_field c now l (get_elem? l.plan l.plan_i)

-- The link is dropped, and no more ticks write to it.
abbrev pub give_up : Link → Link
give_up l = record l {
  req_in_flight = false;
  poll_fails = 0;
  connected = false;
  terminated = l.terminated + 1;
}

-- `poll_timer_cb` at the time `now`.
unfoldable pub poll_tick : Crypto → ℕ → Link → Link
unfolding send_next
poll_tick c now l =
    let missed : Link = record l { req_in_flight = false; poll_fails = l.poll_fails + 1 } in
    if not l.connected || (not (session_ready l.session) || length l.plan == 0)
    then l
    else if l.req_in_flight
    then (if ltb (now - l.req_sent_us) req_timeout_us
        then l
        else if leb poll_fail_limit (l.poll_fails + 1)
        then give_up missed
        else send_next c now missed l.write_queue)
    else send_next c now l l.write_queue

-- ===== src/BtLink/Tests.antt =====
-- A link (bluetti_ble.c) in plain mode, driven through writes, reads and missing answers.
use esp32_nut_bluetti.Prelude.{◌≡◌, refl, true, false, none, some, [], ◌∷◌, arith, replicate}
use esp32_nut_bluetti.Prelude.Int.{pos}
use esp32_nut_bluetti.Prelude.Text.{codes, bytes_eq}
use esp32_nut_bluetti.BtCrypto.{Crypto}
use esp32_nut_bluetti.BtSession.State.{Env, session_new, tx, use_plain, session_reset}
use esp32_nut_bluetti.BtSession.Modbus.{send_command, read_regs}
use esp32_nut_bluetti.BtRegs.Decode.{reg, serial}
use esp32_nut_bluetti.BtRegs.Devices.{device_lookup, find_device, strip_prefix, all_digits}
use esp32_nut_bluetti.BtRegs.Plan.{regs_plan}
use esp32_nut_bluetti.BtRegs.Controls.{find_control, control_lookup, control_valid, parse_ints}
use esp32_nut_bluetti.BtRegs.State.{nothing_read}
use esp32_nut_bluetti.BtRegs.Apply.{store, matched, recompute, regs_apply, control_current}
use esp32_nut_bluetti.BtLink.State.{Link, session_regs}
use esp32_nut_bluetti.BtLink.Writes.{enqueue, write_control}
use esp32_nut_bluetti.BtLink.Poll.{send_next, poll_tick}
use esp32_nut_bluetti.BtLink.Poll.Order.{sends, rounds, rounds-sends}
use esp32_nut_bluetti.BtLink.Events.{
  on_connect, on_sub, kex_timeout, connect, subscribed, kex_expired, tick, step, Reaches, here,
  next,
}
use esp32_nut_bluetti.BtLink.Events.Writable.{IsSane, Reaches-IsSane}

-- No cipher is used in plain mode.
abbrev no_cipher : Crypto
no_cipher = record {
  md5 = λ bytes. replicate 16 0;
  cbc_encrypt = λ key iv plain. none;
  cbc_decrypt = λ key iv ct. none;
  verify_k2 = λ signed sig. false;
  keypair_public = λ d. none;
  ecdh_shared = λ d peer. none;
}

abbrev env : Env
env = record { tx_results = replicate 20 true; keypairs = []; signatures = []; seeds = [] }

abbrev off_link : Link
off_link = record {
  controls = true;
  low_battery_pct = pos 20;
  connected = false;
  device = none;
  session = session_new env;
  plan = [];
  plan_i = 0;
  sweep_reads = 0;
  req_in_flight = false;
  req_sent_us = 0;
  poll_fails = 0;
  write_queue = [];
  state = nothing_read (pos 20);
  published = [];
  terminated = 0;
}

off_link-IsSane : IsSane off_link
off_link-IsSane = (tt, tt, omega arith, omega arith, omega arith)

-- Connected, subscribed and in plain mode.
abbrev up : Link
up = kex_timeout (on_sub (on_connect off_link))

up-Reaches : Reaches no_cipher off_link up
up-Reaches = next (next (next here connect) subscribed) kex_expired

Reaches-IsSane_example : IsSane (step no_cipher up (tick 5))
Reaches-IsSane_example =
    Reaches-IsSane no_cipher off_link (step no_cipher up (tick 5)) off_link-IsSane
      (next up-Reaches (tick 5))

-- A model that has been identified, with its AC output read once.
abbrev named : Link
named = record up {
  device = device_lookup (some (codes "EL10"));
  state = record up.state { ac_switch = some 0 };
}

write_control_test :
    (write_control named (some (codes "ac_output")) (pos 1)).0.write_queue
    ≡ record { reg = 2011; val = 1 } ∷ []
unfolding write_control control_lookup find_control bytes_eq control_valid parse_ints
    control_current on_connect on_sub kex_timeout device_lookup find_device enqueue strip_prefix
    all_digits use_plain session_reset
write_control_test = refl

rounds-sends_example :
    ((rounds no_cipher (7 ∷ 8 ∷ []) (record up {
      write_queue = record { reg = 2011; val = 1 } ∷ record { reg = 2012; val = 0 } ∷ [];
    })).session
      ≡ sends no_cipher up.session
          (record { reg = 2011; val = 1 } ∷ record { reg = 2012; val = 0 } ∷ []))
    × ((rounds no_cipher (7 ∷ 8 ∷ []) (record up {
      write_queue = record { reg = 2011; val = 1 } ∷ record { reg = 2012; val = 0 } ∷ [];
    })).write_queue
        ≡ [])
unfolding kex_timeout on_sub on_connect regs_plan
rounds-sends_example =
    rounds-sends no_cipher (7 ∷ 8 ∷ [])
      (record up {
        write_queue = record { reg = 2011; val = 1 } ∷ record { reg = 2012; val = 0 } ∷ [];
      })
      (refl, refl, refl, refl) refl

-- Of the seven fields of the first plan, the AC input power (146) is asked for and not answered. A field
-- counts as read once it is asked for, so the sweep is done all the same, with no mains seen.
abbrev swept : Link
swept =
    let after_soc = session_regs 10 (poll_tick no_cipher 0 up) 102 (0 ∷ 90 ∷ []) in
    let no_answer = poll_tick no_cipher 28000000 (
      poll_tick no_cipher 21000000
        (poll_tick no_cipher 14000000 (poll_tick no_cipher 7000000 after_soc))) in
    let after_dc = session_regs 28000010 no_answer 140 (0 ∷ 0 ∷ []) in
    session_regs 42000010 (poll_tick no_cipher 42000000 (poll_tick no_cipher 35000000 after_dc)) 116
      (0 ∷ 1 ∷ 0 ∷ 0 ∷ 0 ∷ 0 ∷ 0 ∷ 0 ∷ [])

sweep_test :
    (swept.state.sweep_done ≡ true)
    × (swept.state.ac_in_watts ≡ none)
    × (swept.state.ac_input_present ≡ false)
unfolding poll_tick send_next session_regs regs_apply store matched recompute kex_timeout on_sub
    on_connect regs_plan read_regs send_command tx reg serial use_plain session_reset
sweep_test = (refl, refl, refl)

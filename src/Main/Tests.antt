-- ===== src/Main/Tests.antt =====
-- A reading published (main/main.c) with one Proxmox host configured.
use esp32_nut_bluetti.Prelude.{◌≡◌, refl, true, false, some, [], ◌∷◌, replicate}
use esp32_nut_bluetti.Prelude.Int.{pos}
use esp32_nut_bluetti.Prelude.Text.{Bytes, codes, bytes_eq}
use esp32_nut_bluetti.BtRegs.State.{BluettiState, nothing_read}
use esp32_nut_bluetti.NutServer.Vars.{unused_var}
use esp32_nut_bluetti.PveShutdown.Engine.{Host, HostEngine}
use esp32_nut_bluetti.PveShutdown.Observe.{Runtime}
use esp32_nut_bluetti.Main.{Ups, power_status, publish_power, nut_verify_login}
use esp32_nut_bluetti.Main.Agrees.{Explains, publish_power-Explains}

abbrev nas : Host
nas = record {
  enabled = true;
  url = codes "https://10.0.0.10:8006";
  node = codes "nas";
  token_id = codes "t";
  secret = codes "s";
  guest_wait_s = 0;
  shutdown_node = true;
  fingerprint = codes "AB";
  on_battery_min = 10;
  charge_pct = 20;
}

abbrev calm_host : HostEngine
calm_host = record { fired = false; reason = []; guests = [] }

abbrev runtime : Runtime
runtime = record {
  cfg = record { enabled = true; armed = true; mains_back_min = 5; hosts = nas ∷ [] };
  guests = [] ∷ [];
  eng = record {
    on_battery = false;
    on_battery_since_us = 0;
    on_mains = false;
    mains_since_us = 0;
    hosts = calm_host ∷ [];
  };
  started = true;
  running = false;
  pending_hosts = false ∷ [];
  pending_guests = [];
}

abbrev ups : Ups
ups = record {
  vars = record { vars = replicate 4 unused_var; lock = true };
  pve = runtime;
  notified = [];
}

-- 15 % left, off the mains.
abbrev outage : BluettiState
outage = record (nothing_read (pos 20)) {
  valid = true;
  sweep_done = true;
  soc_pct = some 15;
  minutes_remaining = some 30;
}

power_status_test : power_status 0 outage ≡ codes "OB LB DISCHRG"
unfolding power_status
power_status_test = refl

verify_test :
    nut_verify_login (λ pass. true) (codes "upsmon") (some (codes "upsmon")) (some []) ≡ true
unfolding nut_verify_login bytes_eq
verify_test = refl

publish_power-Explains_example :
    (status : Bytes) × Explains 9 0 true outage ups (publish_power 9 true 0 outage ups) status
publish_power-Explains_example = publish_power-Explains 9 0 true outage ups refl

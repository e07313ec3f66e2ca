-- ===== src/PveShutdown/Run/Tests.antt =====
-- Jobs of pve_shutdown.c: armed, and for a host that stays up.
use esp32_nut_bluetti.Prelude.{◌≡◌, refl, true, false, List, [], ◌∷◌, ◌++◌, map, length, replicate}
use esp32_nut_bluetti.Prelude.Int.{pos}
use esp32_nut_bluetti.Prelude.Text.{codes, fit}
use esp32_nut_bluetti.PveShutdown.Engine.{Host, Config}
use esp32_nut_bluetti.PveShutdown.Observe.{PendingGuest}
use esp32_nut_bluetti.PveShutdown.Run.{Proxmox, Run, run_host}
use esp32_nut_bluetti.PveShutdown.Run.Requests.{Asks, Grew, most, run_host-Grew}

abbrev nas : Host
nas = record {
  enabled = true;
  url = codes "https://10.0.0.10:8006";
  node = codes "nas";
  token_id = codes "t";
  secret = codes "s";
  guest_wait_s = 0;
  shutdown_node = true;
  fingerprint = codes "AB";
  on_battery_min = 10;
  charge_pct = 20;
}

abbrev armed : Config
armed = record { enabled = true; armed = true; mains_back_min = 5; hosts = nas ∷ [] }

abbrev batch : List PendingGuest
batch = record { host = 0; id = 101; reason = codes "charge 20% <= 20%" } ∷ []

-- Every request is answered 500.
abbrev refusing : Proxmox
refusing n h req = record { status = pos 500; err_text = [] }

abbrev fresh : Run
fresh = record {
  sent = [];
  events = [];
  host_last = replicate 4 (record { text = []; ok = false });
  guest_last = replicate 4 [];
}

-- Two requests for the guest, and three times two for the host.
refused_test : length (run_host refusing 0 armed nas true batch [] fresh).sent ≡ 8
unfolding run_host
refused_test = refl

-- A host that stays up is told of as shut down all the same.
guests_only_test :
    map
      (λ e. e.1)
      (run_host refusing 0 armed
        (record nas { shutdown_node = false })
        true
        []
        (codes "r")
        fresh).events
    ≡ ((0xF0 ∷ 0x9F ∷ 0x94 ∷ 0xBB ∷ []) ++ codes " Shutting down Proxmox nas (r)") ∷ []
unfolding run_host fit
guests_only_test = refl

run_host-Grew_example :
    Grew
      (Asks nas batch true)
      (most armed nas true batch)
      []
      (run_host refusing 0 armed nas true batch [] fresh).sent
run_host-Grew_example = run_host-Grew refusing 0 armed nas true batch [] fresh

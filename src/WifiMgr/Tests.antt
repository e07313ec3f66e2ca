-- ===== src/WifiMgr/Tests.antt =====
-- The retries and the fallback access point of wifi_mgr.c.
use esp32_nut_bluetti.Prelude.{◌≡◌, refl, List, arith, true, false, none, [], ◌∷◌, leb}
use esp32_nut_bluetti.Prelude.Text.{codes, fit}
use esp32_nut_bluetti.WifiMgr.{
  Wifi, connect_in, ap_up, retry_timer_cb, on_sta_disconnected, reconnect_later, on_got_ip,
  fallback_round, wifi_boot,
}
use esp32_nut_bluetti.WifiMgr.Outage.{Step, round, lost, retry, outage, lasted}
use esp32_nut_bluetti.WifiMgr.Fallback.{Shows, fallback_timely}

-- An enabled fallback after five seconds.
abbrev armed : Wifi
armed = record wifi_boot { fb_enabled = true; fb_ssid = codes "bridge"; fb_after_ms = 5000 }

-- The waits double.
retry_test :
    (on_sta_disconnected true
      (on_sta_disconnected true (record wifi_boot { want_connect = true }))).commands
    ≡ connect_in 1000 ∷ connect_in 2000 ∷ []
unfolding on_sta_disconnected reconnect_later
retry_test = refl

-- The station fails once, and three rounds raise an open network.
abbrev steps : List Step
steps = round ∷ lost true ∷ round ∷ retry ∷ round ∷ []

raised_test : (outage [] armed steps).commands ≡ ap_up (codes "bridge") none ∷ []
unfolding outage fallback_round on_sta_disconnected retry_timer_cb fit
raised_test = refl

fallback_timely_example :
    Shows (leb 5000 (lasted steps)) (outage [] armed steps)
    × Shows false (fallback_round [] (on_got_ip true (codes "10.0.0.9") (outage [] armed steps)))
fallback_timely_example =
    fallback_timely [] steps 5000 armed true (codes "10.0.0.9")
      (record {
        on = refl;
        no_link = refl;
        no_ap = refl;
        not_ours = refl;
        silent = refl;
        counted = refl;
        after = refl;
      })
      (omega arith) (omega arith)

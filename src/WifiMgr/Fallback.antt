-- ===== src/WifiMgr/Fallback.antt =====
-- When the fallback access point of wifi_mgr.c is on the air.
use esp32_nut_bluetti.Prelude.{
  ℕ, ◌+◌, ◌^◌, ◌<◌, ◌≤◌, ◌≡◌, refl, ◌∙◌, sym, Bool, true, false, List, [], ◌∷◌, ◌++◌, leb, arith,
  if_ind, inl, inr, ◌⊎◌,
}
use mathlib.Core.Path.{subst}
use esp32_nut_bluetti.Prelude.Text.{Bytes}
use esp32_nut_bluetti.WifiMgr.{
  connect, stop_timer, station_only, Wifi, on_got_ip, ap_stop, fallback_round,
}
use esp32_nut_bluetti.WifiMgr.Outage.{
  on_air, air_from-append, Step, outage, lasted, Waiting, Lasting, if_yes, if_no, keeps_out,
  outage-Lasting,
}

-- An access point is up, for the code and for the driver, or not.
abbrev pub Shows : Bool → Wifi → Type 0
Shows b w = (on_air w ≡ b) × (w.ap_on ≡ b) × (w.fb_ap_up ≡ b)

Lasting-Shows : (d wait : ℕ) (w : Wifi) → Lasting d wait w → Shows (leb wait d) w
Lasting-Shows d wait w (inl (h, early)) =
    let no : false ≡ leb wait d = ground (arith, early) in
    subst (λ b. Shows b w) no (h.silent, h.no_ap, h.not_ours)
Lasting-Shows d wait w (inr (h, over)) =
    let yes : true ≡ leb wait d = ground (arith, over) in
    subst (λ b. Shows b w) yes (h.heard, h.up, h.ours)

ap_stop-Shows : (w : Wifi) → w.fb_ap_up ≡ false → Shows false (ap_stop w)
unfolding ap_stop
ap_stop-Shows w down =
    let off = air_from-append false w.commands (station_only ∷ []) in
    if_ind (Shows false) w.want_connect _ _
      (λ e.
        (air_from-append false (w.commands ++ station_only ∷ []) (connect ∷ []) ∙ off, refl, down))
      (λ e. (off, refl, down))

-- What a round leaves behind an address: the state of the outage, with the variables of the station.
round-back :
    (board : Bytes) (v : Wifi)
    → v.fb_enabled ≡ true
    → v.connected ≡ true
    → Shows false v ⊎ Shows true v
    → Shows false (fallback_round board v)
unfolding fallback_round
round-back board v on link (inl (air, ap_off, down)) =
    let in_turn : keeps_out v ≡ false = ground (arith, on, ap_off) in
    subst (Shows false)
      (sym (
        if_no (keeps_out v) _ _ in_turn
        ∙ (if_yes v.connected _ _ link ∙ if_no v.fb_ap_up _ _ down)))
      (air, ap_off, down)
round-back board v on link (inr (air, ap_on, up)) =
    let in_turn : keeps_out v ≡ false = ground (arith, on, up) in
    subst (Shows false)
      (sym (
        if_no (keeps_out v) _ _ in_turn ∙ (if_yes v.connected _ _ link ∙ if_yes v.fb_ap_up _ _ up)))
      (ap_stop-Shows (record v { down_ms = 0; fb_ap_up = false }) refl)

got_ip-kept :
    (timer : Bool) (ip : Bytes) (w : Wifi)
    → ((on_got_ip timer ip w).fb_enabled ≡ w.fb_enabled)
      × ((on_got_ip timer ip w).connected ≡ true)
      × (on_air (on_got_ip timer ip w) ≡ on_air w)
      × ((on_got_ip timer ip w).ap_on ≡ w.ap_on)
      × ((on_got_ip timer ip w).fb_ap_up ≡ w.fb_ap_up)
unfolding on_got_ip
got_ip-kept true ip w = (refl, refl, air_from-append false w.commands (stop_timer ∷ []), refl, refl)
got_ip-kept false ip w = (refl, refl, refl, refl, refl)

Lasting-back :
    (board : Bytes) (d wait : ℕ) (timer : Bool) (ip : Bytes) (w : Wifi)
    → Lasting d wait w
    → Shows false (fallback_round board (on_got_ip timer ip w))
Lasting-back board d wait timer ip w (inl (h, early)) =
    let (on, link, air, ap_same, fb) = got_ip-kept timer ip w in
    round-back board (on_got_ip timer ip w) (on ∙ h.on) link
      (inl (air ∙ h.silent, ap_same ∙ h.no_ap, fb ∙ h.not_ours))
Lasting-back board d wait timer ip w (inr (h, over)) =
    let (on, link, air, ap_same, fb) = got_ip-kept timer ip w in
    round-back board (on_got_ip timer ip w) (on ∙ h.on) link
      (inr (air ∙ h.heard, ap_same ∙ h.up, fb ∙ h.ours))

-- From a station without an address, with the fallback enabled, no access point up and the count at 0, and
-- whatever failed attempts and ends of waits come between the rounds: an access point is on the air, by the
-- commands that the driver has been given, exactly if two seconds for each round come to the wait that is
-- configured; and if the station then has an address, the next round leaves none on the air. The variables
-- of the code say the same. The wait is not 0, and two seconds more do not overflow 32 bits.
pub fallback_timely :
    (board : Bytes) (steps : List Step) (wait : ℕ) (w : Wifi) (timer : Bool) (ip : Bytes)
    → Waiting 0 wait w
    → 0 < wait
    → wait + 2000 ≤ 2 ^ 32
    → Shows (leb wait (lasted steps)) (outage board w steps)
      × Shows false (fallback_round board (on_got_ip timer ip (outage board w steps)))
fallback_timely board steps wait w timer ip h some_wait small =
    let from_start : 0 + lasted steps ≡ lasted steps = omega arith in
    let state =
      subst (λ d. Lasting d wait (outage board w steps)) from_start
        (outage-Lasting board 0 wait w steps small (inl (h, some_wait))) in
    (
      Lasting-Shows (lasted steps) wait (outage board w steps) state,
      Lasting-back board (lasted steps) wait timer ip (outage board w steps) state,
    )

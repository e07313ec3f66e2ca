-- ===== src/WifiMgr/Outage.antt =====
-- What an outage of the station (wifi_mgr.c) goes through, until the fallback access point is raised.
use esp32_nut_bluetti.Prelude.{
  ℕ, ◌+◌, ◌%◌, ◌^◌, ◌<◌, ◌≤◌, ◌≡◌, refl, ◌∙◌, sym, Bool, true, false, not, ◌&&◌, ◌||◌, List, [],
  ◌∷◌, ◌++◌, if◌then◌else◌, ltb, arith, if_ind, inl, inr, ◌⊎◌,
}
use mathlib.Core.Path.{subst}
use esp32_nut_bluetti.Prelude.Text.{Bytes}
use esp32_nut_bluetti.WifiMgr.{
  Command, connect, disconnect, connect_in, stop_timer, ap_up, station_only, Wifi, order,
  retry_timer_cb, reconnect_later, on_sta_disconnected, ap_start, fallback_round,
}

-- Whether the driver has an access point on the air behind the commands, `was` that it had one before.
abbrev pub air_from : Bool → List Command → Bool
air_from was [] = was
air_from was (connect ∷ commands) = air_from was commands
air_from was (disconnect ∷ commands) = air_from was commands
air_from was (connect_in ms ∷ commands) = air_from was commands
air_from was (stop_timer ∷ commands) = air_from was commands
air_from was (ap_up ssid pass ∷ commands) = air_from true commands
air_from was (station_only ∷ commands) = air_from false commands

-- No access point is on the air at boot.
abbrev pub on_air : Wifi → Bool
on_air w = air_from false w.commands

pub air_from-append :
    (was : Bool) (a b : List Command) → air_from was (a ++ b) ≡ air_from (air_from was a) b
air_from-append was [] b = refl
air_from-append was (connect ∷ a) b = air_from-append was a b
air_from-append was (disconnect ∷ a) b = air_from-append was a b
air_from-append was (connect_in ms ∷ a) b = air_from-append was a b
air_from-append was (stop_timer ∷ a) b = air_from-append was a b
air_from-append was (ap_up ssid pass ∷ a) b = air_from-append true a b
air_from-append was (station_only ∷ a) b = air_from-append false a b

-- What happens while the station has no address: a round of the supervisor, another failed attempt, with
-- whether there is a timer, and the end of a wait.
pub data Step : Type 0 where
  round : Step
  lost : Bool → Step
  retry : Step

abbrev pub take_step : Bytes → Wifi → Step → Wifi
take_step board w round = fallback_round board w
take_step board w (lost timer) = on_sta_disconnected timer w
take_step board w retry = retry_timer_cb w

unfoldable pub outage : Bytes → Wifi → List Step → Wifi
outage board w [] = w
outage board w (step ∷ steps) = outage board (take_step board w step) steps

-- The milliseconds that the rounds take.
abbrev pub lasted : List Step → ℕ
lasted [] = 0
lasted (round ∷ steps) = 2000 + lasted steps
lasted (lost timer ∷ steps) = lasted steps
lasted (retry ∷ steps) = lasted steps

-- The station has no address, the fallback is enabled with its wait, and no access point is up.
pub record Waiting (d wait : ℕ) (w : Wifi) : Type 0 where
  pub on : w.fb_enabled ≡ true
  pub no_link : w.connected ≡ false
  pub no_ap : w.ap_on ≡ false
  pub not_ours : w.fb_ap_up ≡ false
  pub silent : on_air w ≡ false
  pub counted : w.down_ms ≡ d
  pub after : w.fb_after_ms ≡ wait

-- With the access point of the fallback up.
pub record Raised (w : Wifi) : Type 0 where
  pub on : w.fb_enabled ≡ true
  pub no_link : w.connected ≡ false
  pub up : w.ap_on ≡ true
  pub ours : w.fb_ap_up ≡ true
  pub heard : on_air w ≡ true

-- The outage has lasted `d` milliseconds.
abbrev pub Lasting : ℕ → ℕ → Wifi → Type 0
Lasting d wait w = (Waiting d wait w × (d < wait)) ⊎ (Raised w × (wait ≤ d))

pub if_yes : {A : Type 0} (b : Bool) (x y : A) → b ≡ true → (if b then x else y) ≡ x
if_yes true x y e = refl
if_yes false x y e = absurd (cc)

pub if_no : {A : Type 0} (b : Bool) (x y : A) → b ≡ false → (if b then x else y) ≡ y
if_no true x y e = absurd (cc)
if_no false x y e = refl

-- Whether the access point that is up is not that of the fallback, or the fallback is off.
abbrev pub keeps_out : Wifi → Bool
keeps_out w = not w.fb_enabled || (w.ap_on && not w.fb_ap_up)

Raised-stays : (board : Bytes) (w : Wifi) → Raised w → fallback_round board w ≡ w
unfolding fallback_round
Raised-stays board w h =
    let in_turn : keeps_out w ≡ false = ground (arith, h.on, h.ours) in
    if_no (keeps_out w) _ _ in_turn
    ∙ (if_no w.connected _ _ h.no_link ∙ if_yes w.fb_ap_up _ _ h.ours)

abbrev counted_round : Wifi → Wifi
counted_round w = record w { down_ms = (w.down_ms + 2000) % 2 ^ 32 }

-- The access point of the fallback is raised.
abbrev raise : Bytes → Wifi → Wifi
raise board w = record (ap_start board w.fb_ssid w.fb_pass (counted_round w)) { fb_ap_up = true }

raise-Raised : (board : Bytes) (d wait : ℕ) (w : Wifi) → Waiting d wait w → Raised (raise board w)
unfolding ap_start
raise-Raised board d wait w h = record {
  on = h.on;
  no_link = h.no_link;
  up = refl;
  ours = refl;
  heard = air_from-append false w.commands _;
}

-- A round while the station is down: the wait goes on, or the access point is raised.
Waiting-round :
    (board : Bytes) (d wait : ℕ) (w : Wifi)
    → Waiting d wait w
    → fallback_round board w
      ≡ (if ltb ((w.down_ms + 2000) % 2 ^ 32) w.fb_after_ms then counted_round w else raise board w)
unfolding fallback_round
Waiting-round board d wait w h =
    let in_turn : keeps_out w ≡ false = ground (arith, h.on, h.no_ap) in
    if_no (keeps_out w) _ _ in_turn
    ∙ (if_no w.connected _ _ h.no_link ∙ if_no w.fb_ap_up _ _ h.not_ours)

round-Lasting :
    (board : Bytes) (d wait : ℕ) (w : Wifi)
    → wait + 2000 ≤ 2 ^ 32
    → Lasting d wait w
    → Lasting (d + 2000) wait (fallback_round board w)
round-Lasting board d wait w small (inr (h, over)) =
    subst (Lasting (d + 2000) wait) (sym (Raised-stays board w h)) (inr (h, omega (arith, over)))
round-Lasting board d wait w small (inl (h, early)) =
    let word : (w.down_ms + 2000) % 2 ^ 32 ≡ d + 2000 = omega (arith, small, early, h.counted) in
    subst (Lasting (d + 2000) wait) (sym (Waiting-round board d wait w h)) (
      if_ind (Lasting (d + 2000) wait) (ltb ((w.down_ms + 2000) % 2 ^ 32) w.fb_after_ms) _ _
        (λ e. inl (counted_on word, ground (arith, e, word, h.after)))
        (λ e. inr (raise-Raised board d wait w h, ground (arith, e, word, h.after))))
  where
    counted_on : (w.down_ms + 2000) % 2 ^ 32 ≡ d + 2000 → Waiting (d + 2000) wait (counted_round w)
    counted_on word = record {
      on = h.on;
      no_link = h.no_link;
      no_ap = h.no_ap;
      not_ours = h.not_ours;
      silent = h.silent;
      counted = word;
      after = h.after;
    }

-- What the retries do to the state: one more command for the station, and variables of their own.
module _ (d wait : ℕ) (w : Wifi) (ip : Bytes) (failed : Bool) (retries backoff_ms : ℕ) where
  abbrev retried : List Command → Wifi
  retried commands = record w {
    connected = false;
    failed = failed;
    retries = retries;
    backoff_ms = backoff_ms;
    ip = ip;
    commands = commands;
  }

  retried-Lasting :
      (commands : List Command)
      → air_from false commands ≡ on_air w
      → Lasting d wait w
      → Lasting d wait (retried commands)
  retried-Lasting commands same (inl (h, early)) = inl (
    record {
      on = h.on;
      no_link = refl;
      no_ap = h.no_ap;
      not_ours = h.not_ours;
      silent = same ∙ h.silent;
      counted = h.counted;
      after = h.after;
    },
    early,
  )
  retried-Lasting commands same (inr (h, over)) =
      inr (
        record { on = h.on; no_link = refl; up = h.up; ours = h.ours; heard = same ∙ h.heard },
        over,
      )

Lasting-link : (d wait : ℕ) (w : Wifi) → Lasting d wait w → w.connected ≡ false
Lasting-link d wait w (inl (h, early)) = h.no_link
Lasting-link d wait w (inr (h, over)) = h.no_link

retry-Lasting : (d wait : ℕ) (w : Wifi) → Lasting d wait w → Lasting d wait (retry_timer_cb w)
unfolding retry_timer_cb
retry-Lasting d wait w h =
    if_ind (Lasting d wait) w.want_connect (order w connect) w (λ e. asked h) (λ e. h)
  where
    same : air_from false (w.commands ++ connect ∷ []) ≡ on_air w
    same = air_from-append false w.commands (connect ∷ [])

    asked : Lasting d wait w → Lasting d wait (order w connect)
    asked (inl (h, early)) = inl (
      record {
        on = h.on;
        no_link = h.no_link;
        no_ap = h.no_ap;
        not_ours = h.not_ours;
        silent = same ∙ h.silent;
        counted = h.counted;
        after = h.after;
      },
      early,
    )
    asked (inr (h, over)) = inr (
      record { on = h.on; no_link = h.no_link; up = h.up; ours = h.ours; heard = same ∙ h.heard },
      over,
    )

lost-Lasting :
    (d wait : ℕ) (timer : Bool) (w : Wifi)
    → Lasting d wait w
    → Lasting d wait (on_sta_disconnected timer w)
unfolding on_sta_disconnected reconnect_later
lost-Lasting d wait timer w h =
    if_ind (Lasting d wait) (not w.want_connect) _ _
      (λ e. retried-Lasting d wait w _ _ _ _ w.commands refl h)
      (λ e.
        if_ind (Lasting d wait) (not timer) _ _
          (λ k.
            retried-Lasting d wait w _ _ _ _ (w.commands ++ connect ∷ [])
              (air_from-append false w.commands (connect ∷ [])) h)
          (λ k.
            retried-Lasting d wait w _ _ _ _ (w.commands ++ connect_in w.backoff_ms ∷ [])
              (air_from-append false w.commands (connect_in w.backoff_ms ∷ [])) h))

pub outage-Lasting :
    (board : Bytes) (d wait : ℕ) (w : Wifi) (steps : List Step)
    → wait + 2000 ≤ 2 ^ 32
    → Lasting d wait w
    → Lasting (d + lasted steps) wait (outage board w steps)
unfolding outage
outage-Lasting board d wait w [] small h =
    let e : d ≡ d + 0 = omega arith in subst (λ n. Lasting n wait w) e h
outage-Lasting board d wait w (round ∷ steps) small h =
    let e : d + 2000 + lasted steps ≡ d + (2000 + lasted steps) = omega arith in
    subst (λ n. Lasting n wait (outage board (fallback_round board w) steps)) e
      (outage-Lasting board (d + 2000) wait (fallback_round board w) steps small
        (round-Lasting board d wait w small h))
outage-Lasting board d wait w (lost timer ∷ steps) small h =
    outage-Lasting board d wait (on_sta_disconnected timer w) steps small
      (lost-Lasting d wait timer w h)
outage-Lasting board d wait w (retry ∷ steps) small h =
    outage-Lasting board d wait (retry_timer_cb w) steps small (retry-Lasting d wait w h)

-- ===== src/PveShutdown/Engine/Invariant.antt =====
-- What holds of the engine between two calls of pve_engine.c: the states match the rules, and each
-- reason fits its buffer.
use esp32_nut_bluetti.Prelude.{
  ℕ, Bool, true, false, not, Option, none, some, List, [], ◌∷◌, ◌==◌, ◌≡◌, ◌<◌, arith,
  if◌then◌else◌, ◌∙◌, length, Option-cases, Bool-cases, inl, inr,
}
use esp32_nut_bluetti.Prelude.Text.{Bytes, length-fit}
use esp32_nut_bluetti.PveShutdown.Engine.{
  Guest, Host, Config, Obs, GuestEngine, HostEngine, Engine, host_reason_size, guest_reason_size,
  find_guest_state, update_guest_state, fresh_guest, sync_guests, clear_guest, clear_guests,
  fire_guest, fire_if_met, eval_guest, eval_guests, sweep_guests, fire_host_if_met, eval_host,
  eval_hosts, mains_back, eval, trigger_met, node_text,
}
use esp32_nut_bluetti.PveShutdown.Engine.Guests.{
  ids, guest_ids, ids-clear_guests, ids-eval_guests, ids-sweep_guests, ids-sync_guests,
}
use esp32_nut_bluetti.PveShutdown.Engine.Calls.{edges, eval_enabled, hosts-observe_power}

abbrev pub ReasonsFit : List GuestEngine → Type 0
ReasonsFit [] = Unit
ReasonsFit (s ∷ gst) = (length s.reason < guest_reason_size) × ReasonsFit gst

-- The state of one host against its rules.
pub record IsValidHost (rules : List Guest) (he : HostEngine) : Type 0 where
  pub synced : ids he.guests ≡ guest_ids rules
  pub reason_fits : length he.reason < host_reason_size
  pub reasons_fit : ReasonsFit he.guests

-- The engine's hosts against the rules of each.
abbrev pub AreValid : List (List Guest) → List HostEngine → Type 0
AreValid [] [] = Unit
AreValid (g ∷ gs) (he ∷ hes) = IsValidHost g he × AreValid gs hes
AreValid [] (he ∷ hes) = ⊥
AreValid (g ∷ gs) [] = ⊥

fire_guest_fits :
    (text : Bytes) (s : GuestEngine)
    → length s.reason < guest_reason_size
    → length (fire_guest text s).reason < guest_reason_size
unfolding fire_guest
fire_guest_fits text s h = ground (arith, length-fit guest_reason_size text (omega arith))

update_guest-ReasonsFit :
    (gst : List GuestEngine) (id : ℕ) (text : Bytes)
    → ReasonsFit gst
    → ReasonsFit (update_guest_state gst id (fire_guest text))
unfolding update_guest_state
update_guest-ReasonsFit [] id text h = tt
update_guest-ReasonsFit (x ∷ gst) id text h = elim (Bool-cases (x.id == id)) [
  | inl e ↦ rw e (fire_guest_fits text x h.0, h.1)
  | inr e ↦ rw e (h.0, update_guest-ReasonsFit gst id text h.1)
]

fire_if_met-ReasonsFit :
    (met : Option Bytes) (id : ℕ) (gst : List GuestEngine)
    → ReasonsFit gst
    → ReasonsFit (fire_if_met met id gst)
unfolding fire_if_met
fire_if_met-ReasonsFit none id gst h = h
fire_if_met-ReasonsFit (some text) id gst h = update_guest-ReasonsFit gst id text h

eval_guests-ReasonsFit :
    (guests : List Guest) (st : Engine) (obs : Obs) (now_us : ℕ) (gst : List GuestEngine)
    → ReasonsFit gst
    → ReasonsFit (eval_guests guests st obs now_us gst)
unfolding eval_guests eval_guest
eval_guests-ReasonsFit [] st obs now_us gst h = h
eval_guests-ReasonsFit (g ∷ guests) st obs now_us gst h =
    eval_guests-ReasonsFit guests st obs now_us _ (fire_if_met-ReasonsFit _ g.id gst h)

sweep_guests-ReasonsFit :
    (guests : List Guest) (reason : Bytes) (gst : List GuestEngine)
    → ReasonsFit gst
    → ReasonsFit (sweep_guests guests reason gst)
unfolding sweep_guests
sweep_guests-ReasonsFit [] reason gst h = h
sweep_guests-ReasonsFit (g ∷ guests) reason gst h =
    sweep_guests-ReasonsFit guests reason _ (update_guest-ReasonsFit gst g.id (node_text reason) h)

clear_guests-ReasonsFit :
    (back : Bool) (gst : List GuestEngine) → ReasonsFit gst → ReasonsFit (clear_guests back gst)
unfolding clear_guests clear_guest
clear_guests-ReasonsFit back [] h = tt
clear_guests-ReasonsFit back (s ∷ gst) h = (ground arith, clear_guests-ReasonsFit back gst h.1)

fire_host_if_met-IsValidHost :
    (met : Option Bytes) (rules : List Guest) (he : HostEngine)
    → IsValidHost rules he
    → IsValidHost rules (fire_host_if_met met rules he).0
unfolding fire_host_if_met
fire_host_if_met-IsValidHost none rules he v = v
fire_host_if_met-IsValidHost (some text) rules he v = record {
  synced = ids-sweep_guests rules _ he.guests ∙ v.synced;
  reason_fits = length-fit host_reason_size text (omega arith);
  reasons_fit = sweep_guests-ReasonsFit rules _ he.guests v.reasons_fit;
}

module _ (rules : List Guest) where
  branch-IsValidHost :
      (b : Bool) (x y : HostEngine)
      → IsValidHost rules x
      → IsValidHost rules y
      → IsValidHost rules (if b then x else y)
  branch-IsValidHost true x y vx vy = vx
  branch-IsValidHost false x y vx vy = vy

  if-IsValidHost :
      (b : Bool) (x y : HostEngine × Bool)
      → IsValidHost rules x.0
      → IsValidHost rules y.0
      → IsValidHost rules (if b then x else y).0
  if-IsValidHost true x y vx vy = vx
  if-IsValidHost false x y vx vy = vy

module _ (back : Bool) (h : Host) (rules : List Guest) (st : Engine) (obs : Obs) (now_us : ℕ)
    (he : HostEngine) (v : IsValidHost rules he) where
  abbrev cleared : List GuestEngine
  cleared = clear_guests back he.guests

  cleared_valid : (ids cleared ≡ guest_ids rules) × ReasonsFit cleared
  cleared_valid = (
    ids-clear_guests back he.guests ∙ v.synced,
    clear_guests-ReasonsFit back he.guests v.reasons_fit,
  )

  early_valid : IsValidHost rules (record he { guests = eval_guests rules st obs now_us cleared })
  early_valid = record {
    synced = ids-eval_guests rules st obs now_us cleared ∙ cleared_valid.0;
    reason_fits = v.reason_fits;
    reasons_fit = eval_guests-ReasonsFit rules st obs now_us cleared cleared_valid.1;
  }

  pub eval_host-IsValidHost : IsValidHost rules (eval_host back h rules st obs now_us he).0
  unfolding eval_host
  eval_host-IsValidHost =
      let kept : IsValidHost rules (record he { guests = cleared }) = record {
        synced = cleared_valid.0;
        reason_fits = v.reason_fits;
        reasons_fit = cleared_valid.1;
      } in
      let released : IsValidHost rules (record { fired = false; reason = []; guests = cleared }) =
        record {
          synced = cleared_valid.0;
          reason_fits = omega arith;
          reasons_fit = cleared_valid.1;
        } in
      if-IsValidHost rules he.fired _ _ (branch-IsValidHost rules back _ _ released kept) (
        if-IsValidHost rules (not h.enabled) _ _ kept (
          fire_host_if_met-IsValidHost (trigger_met h.on_battery_min h.charge_pct st obs now_us)
            rules (record he { guests = eval_guests rules st obs now_us cleared }) early_valid))

eval_hosts-AreValid :
    (back : Bool) (hs : List Host) (gs : List (List Guest)) (st : Engine) (obs : Obs) (now_us : ℕ)
    (hes : List HostEngine)
    → AreValid gs hes
    → AreValid gs (eval_hosts back hs gs st obs now_us hes).0
unfolding eval_hosts
eval_hosts-AreValid back [] gs st obs now_us hes v = v
eval_hosts-AreValid back (h ∷ hs) [] st obs now_us hes v = v
eval_hosts-AreValid back (h ∷ hs) (g ∷ gs) st obs now_us [] v = v
eval_hosts-AreValid back (h ∷ hs) (g ∷ gs) st obs now_us (he ∷ hes) v = (
  eval_host-IsValidHost back h g st obs now_us he v.0,
  eval_hosts-AreValid back hs gs st obs now_us hes v.1,
)

-- A call, enabled or not, keeps the states matched to the rules and every reason within its buffer.
pub eval-AreValid :
    (cfg : Config) (guests : List (List Guest)) (st : Engine) (obs : Obs) (now_us : ℕ)
    → AreValid guests st.hosts
    → AreValid guests (eval cfg guests st obs now_us).0.hosts
eval-AreValid cfg guests st obs now_us v = elim (Bool-cases cfg.enabled) [
  | inl on ↦
      let st' = edges st obs now_us in
      rw (eval_enabled cfg guests st obs now_us on) (
        eval_hosts-AreValid (mains_back cfg st' now_us) cfg.hosts guests st' obs now_us st'.hosts
          (rw (hosts-observe_power obs.power st now_us) v))
  | inr off ↦ unfold eval in rw off v
]

fresh_guest-reason :
    (old : List GuestEngine) (id : ℕ) → length (fresh_guest old id).reason < guest_reason_size
unfolding fresh_guest
fresh_guest-reason old id = elim (Option-cases (find_guest_state old id)) [
  | inl e ↦ ground arith
  | inr (s, e) ↦ ground (arith, length-fit guest_reason_size s.reason (omega arith))
]

sync_guests-ReasonsFit :
    (old : List GuestEngine) (cfg : List Guest) → ReasonsFit (sync_guests old cfg)
unfolding sync_guests
sync_guests-ReasonsFit old [] = tt
sync_guests-ReasonsFit old (g ∷ cfg) = (fresh_guest-reason old g.id, sync_guests-ReasonsFit old cfg)

-- Whatever the rules were before, a sync makes a host's state valid for the new ones.
pub sync_guests-IsValidHost :
    (rules : List Guest) (he : HostEngine)
    → length he.reason < host_reason_size
    → IsValidHost rules (record he { guests = sync_guests he.guests rules })
sync_guests-IsValidHost rules he fits = record {
  synced = ids-sync_guests he.guests rules;
  reason_fits = fits;
  reasons_fit = sync_guests-ReasonsFit he.guests rules;
}

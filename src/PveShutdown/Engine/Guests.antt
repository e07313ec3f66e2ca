-- ===== src/PveShutdown/Engine/Guests.antt =====
-- What the loops over the guests of one host (pve_engine.c) do to the state of each guest, looked up
-- by its id.
use mathlib.Core.Option
use esp32_nut_bluetti.Prelude.{
  ℕ, Bool, true, false, not, ◌&&◌, ◌||◌, Option, none, some, List, [], ◌∷◌, ◌==◌, ◌≡◌, refl, inl,
  inr, arith, if◌then◌else◌, is_some, Bool-cases, ◌∙◌,
}
use esp32_nut_bluetti.Prelude.Text.{Bytes}
use esp32_nut_bluetti.PveShutdown.Engine.{
  Guest, GuestEngine, Engine, Obs, find_guest_state, update_guest_state, fresh_guest, sync_guests,
  trigger_met, clear_guest, clear_guests, fire_guest, fire_if_met, eval_guest, eval_guests,
  node_text, sweep_guests,
}

-- Whether some entry of the list has the id.
abbrev pub is_configured : List Guest → ℕ → Bool
is_configured [] id = false
is_configured (g ∷ guests) id = g.id == id || is_configured guests id

-- Whether some entry of that id has its own trigger met.
abbrev pub any_due : List Guest → ℕ → Engine → Obs → ℕ → Bool
any_due [] id st obs now_us = false
any_due (g ∷ guests) id st obs now_us =
    (g.id == id && is_some (trigger_met g.on_battery_min g.charge_pct st obs now_us))
    || any_due guests id st obs now_us

abbrev pub ids : List GuestEngine → List ℕ
ids [] = []
ids (s ∷ gst) = s.id ∷ ids gst

abbrev pub guest_ids : List Guest → List ℕ
guest_ids [] = []
guest_ids (g ∷ guests) = g.id ∷ guest_ids guests

-- The latch of a looked-up state; a guest with no state is not latched.
abbrev pub is_latched : Option GuestEngine → Bool
is_latched none = false
is_latched (some s) = s.fired

pub find_guest_state-id :
    (gst : List GuestEngine) (id : ℕ) (s : GuestEngine)
    → find_guest_state gst id ≡ some s
    → s.id ≡ id
unfolding find_guest_state
find_guest_state-id [] id s h = ground arith
find_guest_state-id (x ∷ gst) id s h = ground (arith, find_guest_state-id gst id s)

pub find-update_guest :
    (gst : List GuestEngine) (id j : ℕ) (text : Bytes)
    → find_guest_state (update_guest_state gst id (fire_guest text)) j ≡ (
        if id == j
        then Option.map (fire_guest text) (find_guest_state gst j)
        else find_guest_state gst j)
unfolding find_guest_state update_guest_state fire_guest
find-update_guest [] id j text = ground arith
find-update_guest (x ∷ gst) id j text = ground (arith, find-update_guest gst id j text)

-- What firing a looked-up state leaves: latched, and marked as fired in this call unless it was
-- latched before.
abbrev pub Fires : Bool → GuestEngine → GuestEngine → Type 0
Fires due s s' =
    (s'.id ≡ s.id)
    × (s'.fired ≡ (s.fired || due))
    × (s'.fired_now ≡ (s.fired_now || (not s.fired && due)))

-- The outcome of a loop for the state that is looked up by `id`.
abbrev pub Outcome : Bool → ℕ → GuestEngine → List GuestEngine → Type 0
Outcome due id s gst' = (s' : GuestEngine) × (find_guest_state gst' id ≡ some s') × Fires due s s'

Fires-trans : (a b : Bool) (s t u : GuestEngine) → Fires a s t → Fires b t u → Fires (a || b) s u
Fires-trans a b s t u h k = ground arith

pub Outcome-trans :
    (a b : Bool) (id : ℕ) (s t : GuestEngine) (gst : List GuestEngine)
    → Fires a s t
    → Outcome b id t gst
    → Outcome (a || b) id s gst
Outcome-trans a b id s t gst h (u, found, k) = (u, found, Fires-trans a b s t u h k)

-- One write through the pointer.
Fires-fire_guest : (text : Bytes) (s : GuestEngine) → Fires true s (fire_guest text s)
unfolding fire_guest
Fires-fire_guest text s = ground arith

Fires-refl : (s : GuestEngine) → Fires false s s
Fires-refl s = ground arith

update_guest-Outcome :
    (gst : List GuestEngine) (j id : ℕ) (text : Bytes) (s : GuestEngine)
    → find_guest_state gst id ≡ some s
    → Outcome (j == id) id s (update_guest_state gst j (fire_guest text))
update_guest-Outcome gst j id text s h = elim (Bool-cases (j == id)) [
  | inl e ↦
      rw e (fire_guest text s, find-update_guest gst j id text ∙ rw (e, h), Fires-fire_guest text s)
  | inr e ↦ rw e (s, find-update_guest gst j id text ∙ rw (e, h), Fires-refl s)
]

pub Outcome-of_eq :
    (a b : Bool) (id : ℕ) (s : GuestEngine) (gst gst' : List GuestEngine)
    → a ≡ b
    → gst ≡ gst'
    → Outcome a id s gst
    → Outcome b id s gst'
Outcome-of_eq a b id s gst gst' e e' o = rw (← e, ← e') o

fire_if_met-Outcome :
    (met : Option Bytes) (j : ℕ) (gst : List GuestEngine) (id : ℕ) (s : GuestEngine)
    → find_guest_state gst id ≡ some s
    → Outcome (j == id && is_some met) id s (fire_if_met met j gst)
unfolding fire_if_met
fire_if_met-Outcome none j gst id s h =
    Outcome-of_eq false _ id s gst gst (ground arith) refl (s, h, Fires-refl s)
fire_if_met-Outcome (some text) j gst id s h =
    Outcome-of_eq (j == id) _ id s _ _ (ground arith) refl (update_guest-Outcome gst j id text s h)

-- What the loop with the guests' own triggers does to the state of one guest.
pub eval_guests-Outcome :
    (guests : List Guest) (st : Engine) (obs : Obs) (now_us : ℕ) (gst : List GuestEngine) (id : ℕ)
    (s : GuestEngine)
    → find_guest_state gst id ≡ some s
    → Outcome (any_due guests id st obs now_us) id s (eval_guests guests st obs now_us gst)
unfolding eval_guests eval_guest
eval_guests-Outcome [] st obs now_us gst id s h = (s, h, Fires-refl s)
eval_guests-Outcome (g ∷ guests) st obs now_us gst id s h =
    let met = trigger_met g.on_battery_min g.charge_pct st obs now_us in
    let (t, found, first) = fire_if_met-Outcome met g.id gst id s h in
    Outcome-trans _ _ id s t _ first (eval_guests-Outcome guests st obs now_us _ id t found)

-- What the sweep with the node does to the state of one guest.
pub sweep_guests-Outcome :
    (guests : List Guest) (reason : Bytes) (gst : List GuestEngine) (id : ℕ) (s : GuestEngine)
    → find_guest_state gst id ≡ some s
    → Outcome (is_configured guests id) id s (sweep_guests guests reason gst)
unfolding sweep_guests
sweep_guests-Outcome [] reason gst id s h = (s, h, Fires-refl s)
sweep_guests-Outcome (g ∷ guests) reason gst id s h =
    let (t, found, first) = update_guest-Outcome gst g.id id (node_text reason) s h in
    Outcome-trans _ _ id s t _ first (sweep_guests-Outcome guests reason _ id t found)

pub find-clear_guests :
    (back : Bool) (gst : List GuestEngine) (id : ℕ)
    → find_guest_state (clear_guests back gst) id
      ≡ Option.map (clear_guest back) (find_guest_state gst id)
unfolding clear_guests clear_guest find_guest_state
find-clear_guests back [] id = refl
find-clear_guests back (x ∷ gst) id = ground (arith, find-clear_guests back gst id)

-- The loops neither add, drop nor reorder a state.
ids-update_guest :
    (gst : List GuestEngine) (id : ℕ) (text : Bytes)
    → ids (update_guest_state gst id (fire_guest text)) ≡ ids gst
unfolding update_guest_state fire_guest
ids-update_guest [] id text = refl
ids-update_guest (x ∷ gst) id text = ground (arith, ids-update_guest gst id text)

ids-fire_if_met :
    (met : Option Bytes) (id : ℕ) (gst : List GuestEngine) → ids (fire_if_met met id gst) ≡ ids gst
unfolding fire_if_met
ids-fire_if_met none id gst = refl
ids-fire_if_met (some text) id gst = ids-update_guest gst id text

pub ids-eval_guests :
    (guests : List Guest) (st : Engine) (obs : Obs) (now_us : ℕ) (gst : List GuestEngine)
    → ids (eval_guests guests st obs now_us gst) ≡ ids gst
unfolding eval_guests eval_guest
ids-eval_guests [] st obs now_us gst = refl
ids-eval_guests (g ∷ guests) st obs now_us gst =
    ids-eval_guests guests st obs now_us _ ∙ ids-fire_if_met _ g.id gst

pub ids-sweep_guests :
    (guests : List Guest) (reason : Bytes) (gst : List GuestEngine)
    → ids (sweep_guests guests reason gst) ≡ ids gst
unfolding sweep_guests
ids-sweep_guests [] reason gst = refl
ids-sweep_guests (g ∷ guests) reason gst =
    ids-sweep_guests guests reason _ ∙ ids-update_guest gst g.id (node_text reason)

pub ids-clear_guests :
    (back : Bool) (gst : List GuestEngine) → ids (clear_guests back gst) ≡ ids gst
unfolding clear_guests clear_guest
ids-clear_guests back [] = refl
ids-clear_guests back (x ∷ gst) = ground (arith, ids-clear_guests back gst)

fresh_guest-id : (old : List GuestEngine) (id : ℕ) → (fresh_guest old id).id ≡ id
unfolding fresh_guest
fresh_guest-id old id = ground arith

pub ids-sync_guests :
    (old : List GuestEngine) (cfg : List Guest) → ids (sync_guests old cfg) ≡ guest_ids cfg
unfolding sync_guests
ids-sync_guests old [] = refl
ids-sync_guests old (g ∷ cfg) = ground (arith, fresh_guest-id old g.id, ids-sync_guests old cfg)

pub find-sync_guests :
    (old : List GuestEngine) (cfg : List Guest) (id : ℕ)
    → find_guest_state (sync_guests old cfg) id
      ≡ (if is_configured cfg id then some (fresh_guest old id) else none)
unfolding sync_guests find_guest_state
find-sync_guests old [] id = refl
find-sync_guests old (g ∷ cfg) id =
    ground (arith, fresh_guest-id old g.id, find-sync_guests old cfg id)

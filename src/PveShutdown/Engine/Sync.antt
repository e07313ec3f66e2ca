-- ===== src/PveShutdown/Engine/Sync.antt =====
-- `pve_engine_sync_guests` (pve_engine.c): the engine's guests follow an edited list of rules.
use esp32_nut_bluetti.Prelude.{
  inl, inr, ℕ, true, false, ◌&&◌, List, [], ◌∷◌, ◌≡◌, refl, arith, Option-cases,
}
use esp32_nut_bluetti.Prelude.Text.{fit-fit, fit_short}
use esp32_nut_bluetti.PveShutdown.Engine.{
  Guest, GuestEngine, guest_reason_size, find_guest_state, fresh_guest, sync_guests,
}
use esp32_nut_bluetti.PveShutdown.Engine.Guests.{
  is_configured, is_latched, ids, guest_ids, ids-sync_guests, find-sync_guests,
}

abbrev pub NoneFiredNow : List GuestEngine → Type 0
NoneFiredNow [] = Unit
NoneFiredNow (s ∷ gst) = (s.fired_now ≡ false) × NoneFiredNow gst

fresh_guest_flags :
    (old : List GuestEngine) (id : ℕ)
    → ((fresh_guest old id).fired ≡ is_latched (find_guest_state old id))
      × ((fresh_guest old id).fired_now ≡ false)
unfolding fresh_guest
fresh_guest_flags old id = ground arith

sync-NoneFiredNow : (old : List GuestEngine) (cfg : List Guest) → NoneFiredNow (sync_guests old cfg)
unfolding sync_guests
sync-NoneFiredNow old [] = tt
sync-NoneFiredNow old (g ∷ cfg) = ((fresh_guest_flags old g.id).1, sync-NoneFiredNow old cfg)

sync_latch :
    (old : List GuestEngine) (cfg : List Guest) (id : ℕ)
    → is_latched (find_guest_state (sync_guests old cfg) id)
      ≡ (is_configured cfg id && is_latched (find_guest_state old id))
sync_latch old cfg id = ground (arith, find-sync_guests old cfg id, fresh_guest_flags old id)

-- After a sync the states are those of the configured ids, in the order of the rules; a guest is
-- latched exactly if it is configured and was latched before; and none is marked as fired in this
-- call.
pub sync_lem :
    (old : List GuestEngine) (cfg : List Guest)
    → (ids (sync_guests old cfg) ≡ guest_ids cfg)
      × ((id : ℕ)
          → is_latched (find_guest_state (sync_guests old cfg) id)
            ≡ (is_configured cfg id && is_latched (find_guest_state old id)))
      × NoneFiredNow (sync_guests old cfg)
sync_lem old cfg = (ids-sync_guests old cfg, sync_latch old cfg, sync-NoneFiredNow old cfg)

fresh_guest-sync :
    (old : List GuestEngine) (cfg : List Guest) (id : ℕ)
    → is_configured cfg id ≡ true
    → fresh_guest (sync_guests old cfg) id ≡ fresh_guest old id
unfolding fresh_guest
fresh_guest-sync old cfg id h =
    let found = find-sync_guests old cfg id in
    elim (Option-cases (find_guest_state old id)) [
      | inl e ↦ ground (arith, found, fit_short guest_reason_size [] (omega arith))
      | inr (s, e) ↦ ground (arith, found, fit-fit guest_reason_size s.reason)
    ]

sync-sync_part :
    (old : List GuestEngine) (cfg part : List Guest)
    → ((id : ℕ) → is_configured part id ≡ true → is_configured cfg id ≡ true)
    → sync_guests (sync_guests old cfg) part ≡ sync_guests old part
unfolding sync_guests
sync-sync_part old cfg [] h = refl
sync-sync_part old cfg (g ∷ part) h =
    let same = fresh_guest-sync old cfg g.id (h g.id (ground arith)) in
    let rest = sync-sync_part old cfg part (λ id k. h id (ground arith)) in λ i. same i ∷ rest i

-- Syncing again with the same rules changes nothing.
pub sync-sync :
    (old : List GuestEngine) (cfg : List Guest)
    → sync_guests (sync_guests old cfg) cfg ≡ sync_guests old cfg
sync-sync old cfg = sync-sync_part old cfg cfg (λ id h. h)

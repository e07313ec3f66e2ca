-- ===== src/PveShutdown/Run.antt =====
-- What the worker of pve_shutdown.c does for a host: `run_host` with the requests that it sends, the events
-- that it emits and the results that it notes. The HTTPS request of `tls_request` is a parameter, which may
-- answer each request as it likes.
pub mod Requests
mod Tests
use esp32_nut_bluetti.Prelude.{
  ℕ, zero, suc, ◌+◌, ◌-◌, ◌^◌, Bool, true, false, not, ◌&&◌, ◌||◌, Option, none, some, List, [],
  ◌∷◌, ◌++◌, if◌then◌else◌, ◌==◌, ltb, length, set, get_or,
}
use esp32_nut_bluetti.Prelude.Int.{ℤ, pos, negsuc, minus_one, leb_ℤ}
use esp32_nut_bluetti.Prelude.Text.{Bytes, codes, decimal, fit, bytes_eq}
use esp32_nut_bluetti.PveShutdown.Engine.{Guest, Host, Config}
use esp32_nut_bluetti.PveShutdown.Observe.{PendingGuest}

-- A POST to a host.
pub record Request : Type 0 where
  pub path : Bytes
  pub body : Bytes

-- `req_result_t`, and the text that is in `err` behind the call.
pub record Result : Type 0 where
  pub status : ℤ
  pub err_text : Bytes

-- `tls_request`: what the n-th request of a run is answered.
abbrev pub Proxmox : Type 0
Proxmox = ℕ → Host → Request → Result

-- An element of `host_last`.
pub record HostLast : Type 0 where
  pub text : Bytes
  pub ok : Bool

-- `guest_last_t`
pub record GuestLast : Type 0 where
  pub id : ℕ
  pub text : Bytes
  pub ok : Bool

-- `pve_event_kind_t`
pub data EventKind : Type 0 where
  event_host event_guest : EventKind

-- The part of `P` that a run changes, the requests that it has sent, and the events that it has emitted.
pub record Run : Type 0 where
  pub sent : List Request
  pub events : List (EventKind × Bytes)
  pub host_last : List HostLast
  pub guest_last : List (List GuestLast)

-- `note_host`
unfoldable pub note_host : Run → ℕ → Bool → Bytes → Run
note_host run i ok text = record run {
  host_last = set run.host_last i (record { text = fit 128 text; ok = ok });
}

-- The element of an id is written, or a new one appended.
unfoldable pub upsert : List GuestLast → ℕ → Bool → Bytes → List GuestLast
upsert [] id ok text = record { id = id; text = fit 64 text; ok = ok } ∷ []
upsert (g ∷ guests) id ok text =
    let rest = upsert guests id ok text in
    if g.id == id then record g { text = fit 64 text; ok = ok } ∷ guests else g ∷ rest

-- `note_guest`
unfoldable pub note_guest : Run → ℕ → ℕ → Bool → Bytes → Run
unfolding upsert
note_guest run i id ok text = record run {
  guest_last = set run.guest_last i (upsert (get_or run.guest_last i []) id ok text);
}

abbrev still_configured : ℕ → List Guest → Bool
still_configured id [] = false
still_configured id (g ∷ guests) = g.id == id || still_configured id guests

-- `prune_guest_last` on the entries of a host with these rules.
unfoldable pub prune_guest_last : List Guest → List GuestLast → List GuestLast
prune_guest_last guests [] = []
prune_guest_last guests (g ∷ last) =
    let rest = prune_guest_last guests last in
    if still_configured g.id guests then g ∷ rest else rest

-- `emit`
abbrev pub emit : Run → EventKind → Bytes → Run
emit run kind text = record run { events = run.events ++ (kind, text) ∷ [] }

abbrev is_status : ℕ → Result → Bool
is_status n r = elim r.status [ pos s ↦ s == n | negsuc s ↦ false ]

-- `status_text` and `describe`
unfoldable pub describe : Result → ℕ → Bytes
describe r size = elim r.status [
  | negsuc s ↦ fit size (elim r.err_text [ [] ↦ codes "connection failed" | c ∷ err ↦ c ∷ err ])
  | pos s ↦ fit size (
      if s == 0
      then codes "certificate not pinned"
      else if s == 401
      then codes "401 authentication failed (token invalid?)"
      else if s == 403
      then codes "403 permission denied (privilege missing?)"
      else if s == 500
      then codes "500 (node name wrong?)"
      else if s == 501
      then codes "501 (a Backup Server? only PVE is supported)"
      else codes "HTTP " ++ decimal s)
]

-- `%d` of an id, which is given by its bit pattern.
unfoldable pub id_text : ℕ → Bytes
id_text id = if ltb id (2 ^ 31) then decimal id else codes "-" ++ decimal (2 ^ 32 - id)

abbrev pub no_answer : Result
no_answer = record { status = minus_one; err_text = [] }

abbrev pub guest_request : Host → ℕ → Bytes → Request
guest_request h id kind = record {
  path = fit 96 (
      codes "/nodes/"
      ++ (h.node
          ++ (codes "/" ++ (kind ++ (codes "/" ++ (id_text id ++ codes "/status/shutdown"))))));
  body = [];
}

-- The loop of `shutdown_guest` over the kinds of guest: the requests so far, and the last answer where none
-- is 200.
unfoldable pub try_kinds :
    Proxmox → Host → ℕ → List Bytes → Result → List Request → List Request × Option Result
try_kinds net h id [] last sent = (sent, some last)
try_kinds net h id (kind ∷ kinds) last sent =
    let req = guest_request h id kind in
    let r = net (length sent) h req in
    let sent' = sent ++ req ∷ [] in
    let rest = try_kinds net h id kinds r sent' in
    if is_status 200 r
    then (sent', none)
    else if leb_ℤ r.status (pos 0) || is_status 401 r || is_status 403 r
    then (sent', some r)
    else rest

abbrev pub guest_kinds : List Bytes
guest_kinds = codes "qemu" ∷ codes "lxc" ∷ []

-- `shutdown_guest`; `none` where a request has been accepted, and why not else.
unfoldable pub shutdown_guest : Proxmox → Host → ℕ → List Request → List Request × Option Bytes
unfolding try_kinds
shutdown_guest net h id sent =
    let (sent', failed) = try_kinds net h id guest_kinds no_answer sent in
    (
      sent',
      elim failed [
        | none ↦ none
        | some r ↦ some (fit 96 (codes "guest " ++ (id_text id ++ (codes ": " ++ describe r 80))))
      ],
    )

abbrev pub node_request : Bytes → Request
node_request name = record {
  path = fit 64 (codes "/nodes/" ++ (name ++ codes "/status"));
  body = codes "command=shutdown";
}

-- An attempt of `shutdown_node`: the names in turn.
unfoldable pub try_names :
    Proxmox → Host → List Bytes → Result → List Request → List Request × Bool × Result
try_names net h [] last sent = (sent, false, last)
try_names net h (name ∷ names) last sent =
    let req = node_request name in
    let r = net (length sent) h req in
    let sent' = sent ++ req ∷ [] in
    let rest = try_names net h names r sent' in
    if is_status 200 r
    then (sent', true, r)
    else if leb_ℤ r.status (pos 0)
    then (sent', false, r)
    else rest

-- The names that `shutdown_node` tries: that of the configuration, and localhost where it is another.
abbrev pub node_names : Host → List Bytes
node_names h =
    if bytes_eq h.node (codes "localhost") then h.node ∷ [] else h.node ∷ codes "localhost" ∷ []

-- The attempts that are left.
unfoldable pub try_attempts :
    Proxmox → Host → ℕ → Result → List Request → List Request × Bool × Result
unfolding try_names bytes_eq
try_attempts net h zero last sent = (sent, false, last)
try_attempts net h (suc attempts) last sent =
    let (sent', done, r) = try_names net h (node_names h) last sent in
    let rest = try_attempts net h attempts r sent' in if done then (sent', true, r) else rest

-- `NODE_ATTEMPTS`
abbrev pub node_attempts : ℕ
node_attempts = 3

-- `shutdown_node`
unfoldable pub shutdown_node : Proxmox → Host → List Request → List Request × Option Bytes
unfolding try_attempts
shutdown_node net h sent =
    let (sent', done, r) = try_attempts net h node_attempts no_answer sent in
    (sent', if done then none else some (fit 96 (codes "node: " ++ describe r 80)))

-- The characters of the texts that are not ASCII, in UTF-8.
abbrev dash : Bytes
dash = codes " " ++ (0xE2 ∷ 0x80 ∷ 0x94 ∷ codes " ")

abbrev cross : Bytes
cross = 0xE2 ∷ 0x9D ∷ 0x8C ∷ codes " "

abbrev triangle : Bytes
triangle = 0xF0 ∷ 0x9F ∷ 0x94 ∷ 0xBB ∷ codes " "

abbrev bracketed : Bytes → Bytes
bracketed reason = codes " (" ++ (reason ++ codes ")")

abbrev dry_guest : Host → PendingGuest → Bytes
dry_guest h g =
    codes "DRY RUN"
    ++ (dash
        ++ (codes "would shut down guest "
            ++ (id_text g.id ++ (codes " on " ++ (h.node ++ bracketed g.reason)))))

-- The guests of a batch in a dry run.
unfoldable pub dry_guests : ℕ → Host → List PendingGuest → Run → Run
unfolding note_guest
dry_guests i h [] run = run
dry_guests i h (g ∷ batch) run = dry_guests i h batch (
    note_guest (emit run event_guest (fit 240 (dry_guest h g))) i g.id true
      (codes "dry run: would shut down"))

-- A host with no certificate pinned: its guests are noted as skipped.
unfoldable pub skip_guests : ℕ → List PendingGuest → Run → Run
unfolding note_guest
skip_guests i [] run = run
skip_guests i (g ∷ batch) run =
    skip_guests i batch
      (note_guest run i g.id false (codes "not trusted" ++ (dash ++ codes "skipped")))

-- What is noted and told of a guest of an armed host.
unfoldable pub told_guest : ℕ → Host → PendingGuest → Option Bytes → Run → Run
unfolding note_guest
told_guest i h g none run =
    let on = id_text g.id ++ (codes " on " ++ h.node) in
    emit (note_guest run i g.id true (codes "shutdown sent")) event_guest
      (fit 240 (triangle ++ (codes "Shutting down guest " ++ (on ++ bracketed g.reason))))
told_guest i h g (some why) run =
    let on = id_text g.id ++ (codes " on " ++ h.node) in
    emit (note_guest run i g.id false why) event_guest
      (fit 240 (cross ++ (codes "Guest " ++ (on ++ (codes " shutdown FAILED" ++ (dash ++ why))))))

-- The loop over the guests of an armed host.
unfoldable pub stop_guests : Proxmox → ℕ → Host → List PendingGuest → Run → Run
unfolding told_guest shutdown_guest
stop_guests net i h [] run = run
stop_guests net i h (g ∷ batch) run =
    let (sent, failed) = shutdown_guest net h g.id run.sent in
    stop_guests net i h batch (told_guest i h g failed (record run { sent = sent }))

-- What is noted and told of the host itself.
unfoldable pub told_node : ℕ → Host → Bytes → Option Bytes → Run → Run
unfolding note_host
told_node i h reason none run =
    emit (note_host run i true (codes "shutdown sent")) event_host
      (fit 240 (triangle ++ (codes "Shutting down Proxmox " ++ (h.node ++ bracketed reason))))
told_node i h reason (some why) run = emit (note_host run i false why) event_host (
    fit 240
      (cross ++ (codes "Proxmox " ++ (h.node ++ (codes " shutdown FAILED" ++ (dash ++ why))))))

-- The host itself.
unfoldable pub stop_node : Proxmox → ℕ → Host → Bytes → Run → Run
unfolding told_node shutdown_node
stop_node net i h reason run =
    let (sent, failed) =
      if h.shutdown_node then shutdown_node net h run.sent else (run.sent, none) in
    told_node i h reason failed (record run { sent = sent })

abbrev is_empty : Bytes → Bool
is_empty [] = true
is_empty (c ∷ text) = false

-- `run_host` of host `i`.
unfoldable pub run_host : Proxmox → ℕ → Config → Host → Bool → List PendingGuest → Bytes → Run → Run
unfolding dry_guests skip_guests stop_guests stop_node note_host
run_host net i cfg h node_pending batch reason run =
    let dry = dry_guests i h batch run in
    let dry_text =
      codes "DRY RUN" ++ (dash ++ (codes "would shut down " ++ (h.node ++ bracketed reason))) in
    let dry_node =
      note_host (emit dry event_host (fit 240 dry_text)) i true
        (codes "dry run: would shut down") in
    let untrusted_text =
      cross
      ++ (codes "Proxmox "
          ++ (h.node
              ++ codes
                  " NOT shut down: certificate not trusted yet (use Test connection on the Proxmox tab)")) in
    let untrusted =
      note_host (emit run event_host (fit 240 untrusted_text)) i false
        (codes "not trusted" ++ (dash ++ codes "skipped")) in
    let stopped = stop_guests net i h batch run in
    if not h.enabled || is_empty h.url
    then run
    else if not cfg.armed
    then (if node_pending then dry_node else dry)
    else if is_empty h.fingerprint
    then skip_guests i batch (if node_pending then untrusted else run)
    else if node_pending
    then stop_node net i h reason stopped
    else stopped

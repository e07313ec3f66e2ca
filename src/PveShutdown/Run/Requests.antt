-- ===== src/PveShutdown/Run/Requests.antt =====
-- The requests that pve_shutdown.c sends to a Proxmox host, and when it sends none.
use esp32_nut_bluetti.Prelude.{
  ℕ, zero, suc, ◌+◌, ◌*◌, ◌≤◌, ◌≡◌, refl, ◌∙◌, ap, sym, Bool, true, false, not, ◌&&◌, ◌||◌, Option,
  none, some, List, [], ◌∷◌, ◌++◌, if◌then◌else◌, ◌==◌, arith, length, if_ind,
}
use mathlib.Core.Path.{subst}
use mathlib.Core.List.{append_assoc}
use esp32_nut_bluetti.Prelude.Int.{pos, leb_ℤ}
use esp32_nut_bluetti.Prelude.Text.{Bytes, bytes_eq, codes, fit}
use esp32_nut_bluetti.PveShutdown.Engine.{Host, Config}
use esp32_nut_bluetti.PveShutdown.Observe.{PendingGuest}
use esp32_nut_bluetti.PveShutdown.Run.{
  Request, Result, Proxmox, Run, note_host, note_guest, told_guest, told_node, is_status, no_answer,
  id_text, guest_request, try_kinds, guest_kinds, shutdown_guest, node_request, try_names,
  node_names, try_attempts, node_attempts, shutdown_node, dry_guests, skip_guests, stop_guests,
  stop_node, is_empty, run_host,
}

told_guest-sent :
    (i : ℕ) (h : Host) (g : PendingGuest) (failed : Option Bytes) (run : Run)
    → (told_guest i h g failed run).sent ≡ run.sent
unfolding told_guest note_guest
told_guest-sent i h g none run = refl
told_guest-sent i h g (some why) run = refl

told_node-sent :
    (i : ℕ) (h : Host) (reason : Bytes) (failed : Option Bytes) (run : Run)
    → (told_node i h reason failed run).sent ≡ run.sent
unfolding told_node note_host
told_node-sent i h reason none run = refl
told_node-sent i h reason (some why) run = refl

abbrev pub has_id : ℕ → List PendingGuest → Bool
has_id id [] = false
has_id id (g ∷ batch) = g.id == id || has_id id batch

-- The request for the shutdown of a guest of a kind on the node of the host, written out.
abbrev pub guest_shutdown : Bytes → Bytes → ℕ → Request
guest_shutdown node kind id =
    let rest = kind ++ (codes "/" ++ (id_text id ++ codes "/status/shutdown")) in
    record { path = fit 96 (codes "/nodes/" ++ (node ++ (codes "/" ++ rest))); body = [] }

-- The request for the shutdown of a node.
abbrev pub node_shutdown : Bytes → Request
node_shutdown node = record {
  path = fit 64 (codes "/nodes/" ++ (node ++ codes "/status"));
  body = codes "command=shutdown";
}

-- The requests that a job stands for: the shutdown of a guest of the batch on the node of the host, as a
-- virtual machine or as a container, or of the host itself, under its name or as localhost.
pub data Asks (h : Host) (batch : List PendingGuest) (node : Bool) : Request → Type 0 where
  ask_vm :
      (id : ℕ)
      → has_id id batch ≡ true
      → Asks h batch node (guest_shutdown h.node (codes "qemu") id)
  ask_container :
      (id : ℕ) → has_id id batch ≡ true → Asks h batch node (guest_shutdown h.node (codes "lxc") id)
  ask_node : node ≡ true → Asks h batch node (node_shutdown h.node)
  ask_localhost : node ≡ true → Asks h batch node (node_shutdown (codes "localhost"))

-- A predicate on each of the texts.
abbrev pub All : (Bytes → Type 0) → List Bytes → Type 0
All P [] = Unit
All P (x ∷ xs) = P x × All P xs

abbrev pub Each : (Request → Type 0) → List Request → Type 0
Each P [] = Unit
Each P (r ∷ requests) = P r × Each P requests

-- At most `n` more requests, each of them as P says.
pub record Grew (P : Request → Type 0) (n : ℕ) (sent after : List Request) : Type 0 where
  pub more : List Request
  pub after_eq : after ≡ sent ++ more
  pub each : Each P more
  pub few : length more ≤ n

module _ (P : Request → Type 0) where
  append_nil : (xs : List Request) → xs ++ [] ≡ xs
  append_nil [] = refl
  append_nil (x ∷ xs) = ap (λ l. x ∷ l) (append_nil xs)

  Each-append : (xs ys : List Request) → Each P xs → Each P ys → Each P (xs ++ ys)
  Each-append [] ys a b = b
  Each-append (x ∷ xs) ys (p, a) b = (p, Each-append xs ys a b)

  length-more : (xs ys : List Request) → length (xs ++ ys) ≡ length xs + length ys
  length-more [] ys = omega arith
  length-more (x ∷ xs) ys = omega (arith, length-more xs ys)

  Grew-none : (n : ℕ) (sent : List Request) → Grew P n sent sent
  Grew-none n sent = record {
    more = [];
    after_eq = sym (append_nil sent);
    each = tt;
    few = omega arith;
  }

  Grew-then :
      (n k b : ℕ) (sent middle after : List Request)
      → Grew P n sent middle
      → Grew P k middle after
      → n + k ≤ b
      → Grew P b sent after
  Grew-then n k b sent middle after g h le = record {
    more = g.more ++ h.more;
    after_eq = h.after_eq ∙ (ap (λ l. l ++ h.more) g.after_eq ∙ append_assoc sent g.more h.more);
    each = Each-append g.more h.more g.each h.each;
    few = omega (arith, g.few, h.few, le, length-more g.more h.more);
  }

  Grew-one : (sent : List Request) (r : Request) → P r → Grew P 1 sent (sent ++ r ∷ [])
  Grew-one sent r p = record { more = r ∷ []; after_eq = refl; each = (p, tt); few = omega arith }

  Grew-more :
      (n k : ℕ) (sent after : List Request) → Grew P n sent after → n ≤ k → Grew P k sent after
  Grew-more n k sent after g le = record {
    more = g.more;
    after_eq = g.after_eq;
    each = g.each;
    few = omega (arith, g.few, le);
  }

  try_kinds-Grew :
      (net : Proxmox) (h : Host) (id : ℕ) (kinds : List Bytes) (last : Result) (sent : List Request)
      → All (λ kind. P (guest_request h id kind)) kinds
      → Grew P (length kinds) sent (try_kinds net h id kinds last sent).0
  unfolding try_kinds
  try_kinds-Grew net h id [] last sent p = Grew-none 0 sent
  try_kinds-Grew net h id (kind ∷ kinds) last sent p =
      let req = guest_request h id kind in
      let r = net (length sent) h req in
      let one = Grew-one sent req p.0 in
      let rest = try_kinds-Grew net h id kinds r (sent ++ req ∷ []) p.1 in
      let ended = Grew-more 1 (suc (length kinds)) sent _ one (omega arith) in
      let Good = λ (o : List Request × Option Result). Grew P (suc (length kinds)) sent o.0 in
      if_ind Good (is_status 200 r) _ _ (λ e. ended)
        (λ e.
          if_ind Good (leb_ℤ r.status (pos 0) || is_status 401 r || is_status 403 r) _ _
            (λ k. ended)
            (λ k. Grew-then 1 (length kinds) (suc (length kinds)) sent _ _ one rest (omega arith)))

  try_names-Grew :
      (net : Proxmox) (h : Host) (names : List Bytes) (last : Result) (sent : List Request)
      → All (λ name. P (node_request name)) names
      → Grew P (length names) sent (try_names net h names last sent).0
  unfolding try_names
  try_names-Grew net h [] last sent p = Grew-none 0 sent
  try_names-Grew net h (name ∷ names) last sent p =
      let req = node_request name in
      let r = net (length sent) h req in
      let one = Grew-one sent req p.0 in
      let rest = try_names-Grew net h names r (sent ++ req ∷ []) p.1 in
      let ended = Grew-more 1 (suc (length names)) sent _ one (omega arith) in
      let Good = λ (o : List Request × Bool × Result). Grew P (suc (length names)) sent o.0 in
      if_ind Good (is_status 200 r) _ _ (λ e. ended)
        (λ e.
          if_ind Good (leb_ℤ r.status (pos 0)) _ _ (λ k. ended)
            (λ k. Grew-then 1 (length names) (suc (length names)) sent _ _ one rest (omega arith)))

  length-node_names : (h : Host) → length (node_names h) ≤ 2
  length-node_names h =
      if_ind (λ (l : List Bytes). length l ≤ 2) (bytes_eq h.node (codes "localhost")) _ _
        (λ e. omega arith) (λ e. omega arith)

  try_attempts-Grew :
      (net : Proxmox) (h : Host) (attempts : ℕ) (last : Result) (sent : List Request)
      → All (λ name. P (node_request name)) (node_names h)
      → Grew P (2 * attempts) sent (try_attempts net h attempts last sent).0
  unfolding try_attempts
  try_attempts-Grew net h zero last sent p = Grew-none 0 sent
  try_attempts-Grew net h (suc attempts) last sent p =
      let (sent', done, r) = try_names net h (node_names h) last sent in
      let names = try_names-Grew net h (node_names h) last sent p in
      let few = length-node_names h in
      let rest = try_attempts-Grew net h attempts r sent' p in
      let Good = λ (o : List Request × Bool × Result). Grew P (2 * suc attempts) sent o.0 in
      if_ind Good done _ _
        (λ e.
          Grew-more (length (node_names h)) (2 * suc attempts) sent _ names (omega (arith, few)))
        (λ e.
          Grew-then (length (node_names h)) (2 * attempts) (2 * suc attempts) sent _ _ names rest
            (omega (arith, few)))

  stop_guests-Grew :
      (net : Proxmox) (i : ℕ) (h : Host) (batch : List PendingGuest) (run : Run)
      → ((id : ℕ) → has_id id batch ≡ true → All (λ kind. P (guest_request h id kind)) guest_kinds)
      → Grew P (2 * length batch) run.sent (stop_guests net i h batch run).sent
  unfolding stop_guests shutdown_guest
  stop_guests-Grew net i h [] run p = Grew-none 0 run.sent
  stop_guests-Grew net i h (g ∷ batch) run p =
      let tried =
        try_kinds-Grew net h g.id guest_kinds no_answer run.sent (p g.id (ground arith)) in
      let still : (id : ℕ)
          → has_id id batch ≡ true
          → All (λ kind. P (guest_request h id kind)) guest_kinds =
        λ id here. p id (ground (arith, here)) in
      let (sent, failed) = shutdown_guest net h g.id run.sent in
      let told = told_guest i h g failed (record run { sent = sent }) in
      let same = told_guest-sent i h g failed (record run { sent = sent }) in
      let rest = stop_guests-Grew net i h batch told still in
      Grew-then 2 (2 * length batch) (2 * suc (length batch)) run.sent sent
        (stop_guests net i h batch told).sent tried
        (subst (λ l. Grew P (2 * length batch) l (stop_guests net i h batch told).sent) same rest)
        (omega arith)

  -- What a shutdown of the host itself sends, where that is wanted.
  stop_node-Grew :
      (net : Proxmox) (i : ℕ) (h : Host) (reason : Bytes) (run : Run)
      → All (λ name. P (node_request name)) (node_names h)
      → Grew P (if h.shutdown_node then 6 else 0) run.sent (stop_node net i h reason run).sent
  unfolding stop_node shutdown_node
  stop_node-Grew net i h reason run p = by_choice h.shutdown_node
    where
      asked : Bool → List Request × Option Bytes
      asked b = if b then shutdown_node net h run.sent else (run.sent, none)

      by_choice :
          (b : Bool)
          → Grew P
              (if b then 6 else 0)
              run.sent
              (told_node i h reason (asked b).1 (record run { sent = (asked b).0 })).sent
      by_choice true =
          subst (λ l. Grew P 6 run.sent l)
            (sym (told_node-sent i h reason _ (record run { sent = (asked true).0 })))
            (try_attempts-Grew net h node_attempts no_answer run.sent p)
      by_choice false =
          subst (λ l. Grew P 0 run.sent l) (sym (told_node-sent i h reason none run))
            (Grew-none 0 run.sent)

dry_guests-sent :
    (i : ℕ) (h : Host) (batch : List PendingGuest) (run : Run)
    → (dry_guests i h batch run).sent ≡ run.sent
unfolding dry_guests note_guest
dry_guests-sent i h [] run = refl
dry_guests-sent i h (g ∷ batch) run = dry_guests-sent i h batch _

skip_guests-sent :
    (i : ℕ) (batch : List PendingGuest) (run : Run) → (skip_guests i batch run).sent ≡ run.sent
unfolding skip_guests note_guest
skip_guests-sent i [] run = refl
skip_guests-sent i (g ∷ batch) run = skip_guests-sent i batch _

-- A host that may be asked: enabled, with an address, armed, and with a certificate that is pinned.
abbrev pub may_ask : Config → Host → Bool
may_ask cfg h = h.enabled && not (is_empty h.url) && cfg.armed && not (is_empty h.fingerprint)

-- How many requests a job can take.
abbrev pub most : Config → Host → Bool → List PendingGuest → ℕ
most cfg h node_pending batch =
    if may_ask cfg h
    then 2 * length batch + (if node_pending && h.shutdown_node then 6 else 0)
    else 0

quiet : (P : Request → Type 0) (sent after : List Request) → after ≡ sent → Grew P 0 sent after
quiet P sent after e = subst (λ l. Grew P 0 sent l) (sym e) (Grew-none P 0 sent)

-- The cases of a job.
choose :
    (P : Request → Type 0) (n : ℕ) (sent : List Request) (on blank armed unpinned : Bool)
    (off dry untrusted asked : Run)
    → off.sent ≡ sent
    → dry.sent ≡ sent
    → untrusted.sent ≡ sent
    → Grew P n sent asked.sent
    → Grew P
        (if on && not blank && armed && not unpinned then n else 0)
        sent
        (if not on || blank
          then off
          else if not armed
          then dry
          else if unpinned
          then untrusted
          else asked).sent
choose P n sent false blank armed unpinned a b c d p q r g = quiet P sent a.sent p
choose P n sent true true armed unpinned a b c d p q r g = quiet P sent a.sent p
choose P n sent true false false unpinned a b c d p q r g = quiet P sent b.sent q
choose P n sent true false true true a b c d p q r g = quiet P sent c.sent r
choose P n sent true false true false a b c d p q r g = g

-- The requests of a guest are those of a virtual machine and of a container.
guests-Asks :
    (h : Host) (batch : List PendingGuest) (node : Bool) (id : ℕ)
    → has_id id batch ≡ true
    → All (λ kind. Asks h batch node (guest_request h id kind)) guest_kinds
guests-Asks h batch node id here = (ask_vm id here, (ask_container id here, tt))

-- The requests of a node go to its name and to localhost.
names-Asks :
    (h : Host) (batch : List PendingGuest)
    → All (λ name. Asks h batch true (node_request name)) (node_names h)
names-Asks h batch =
    if_ind (All (λ name. Asks h batch true (node_request name)))
      (bytes_eq h.node (codes "localhost")) _ _ (λ e. (ask_node refl, tt))
      (λ e. (ask_node refl, (ask_localhost refl, tt)))

-- A job adds requests to those of the run only for a host that is enabled, has an address, is armed and has
-- a pinned certificate: at most two for each guest of the batch, and six for the host where it is to be shut
-- down and the configuration says so; each of them is the request, written out, for the shutdown of a guest
-- of the batch on the node of the host, as a virtual machine or as a container, or of the host, under its
-- name or as localhost, if that is pending. For every other host it sends nothing, whatever is pending.
pub run_host-Grew :
    (net : Proxmox) (i : ℕ) (cfg : Config) (h : Host) (node_pending : Bool)
    (batch : List PendingGuest) (reason : Bytes) (run : Run)
    → Grew
        (Asks h batch node_pending)
        (most cfg h node_pending batch)
        run.sent
        (run_host net i cfg h node_pending batch reason run).sent
unfolding run_host note_host
run_host-Grew net i cfg h false batch reason run =
    let P = Asks h batch false in
    let stopped = stop_guests-Grew P net i h batch run (guests-Asks h batch false) in
    choose P (2 * length batch + 0) run.sent h.enabled (is_empty h.url) cfg.armed
      (is_empty h.fingerprint) run (dry_guests i h batch run) (skip_guests i batch run)
      (stop_guests net i h batch run) refl (dry_guests-sent i h batch run)
      (skip_guests-sent i batch run)
      (Grew-more P (2 * length batch) (2 * length batch + 0) run.sent _ stopped (omega arith))
run_host-Grew net i cfg h true batch reason run =
    let P = Asks h batch true in
    let more = if h.shutdown_node then 6 else 0 in
    let stopped = stop_guests-Grew P net i h batch run (guests-Asks h batch true) in
    let after = stop_guests net i h batch run in
    let node = stop_node-Grew P net i h reason after (names-Asks h batch) in
    choose P (2 * length batch + more) run.sent h.enabled (is_empty h.url) cfg.armed
      (is_empty h.fingerprint) run _ _ (stop_node net i h reason after) refl
      (dry_guests-sent i h batch run) (skip_guests-sent i batch _)
      (Grew-then P (2 * length batch) more (2 * length batch + more) run.sent _ _ stopped node
        (omega arith))

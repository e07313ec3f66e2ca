-- ===== src/PveShutdown/Observe.antt =====
-- How pve_shutdown.c feeds its engine: `pve_shutdown_observe` and `pve_shutdown_reconfigure`, and what
-- its worker takes from the work that is pending.
pub mod Worker
use esp32_nut_bluetti.Prelude.{
  ℕ, zero, suc, Bool, false, not, ◌||◌, Option, none, some, List, [], ◌∷◌, ◌++◌, if◌then◌else◌,
  ◌==◌, length,
}
use esp32_nut_bluetti.Prelude.Int.{ℤ, minus_one}
use esp32_nut_bluetti.Prelude.Text.{Bytes}
use esp32_nut_bluetti.PveShutdown.Engine.{
  Guest, Config, unknown, line, battery, Obs, GuestEngine, HostEngine, Engine, sync_guests, eval,
}

-- `pending_guest_t`
pub record PendingGuest : Type 0 where
  pub host : ℕ
  pub id : ℕ
  pub reason : Bytes

-- The part of `P` that observing, reconfiguring and the worker share. The bits of `pending_hosts` are a
-- list, and every allocation succeeds.
pub record Runtime : Type 0 where
  pub cfg : Config
  pub guests : List (List Guest)
  pub eng : Engine
  pub started : Bool
  pub running : Bool
  pub pending_hosts : List Bool
  pub pending_guests : List PendingGuest

-- The reading that the arguments stand for.
abbrev pub obs_of : Bool → Bool → ℤ → Obs
obs_of known on_mains soc_pct = record {
  power = if not known then unknown else if on_mains then line else battery;
  soc_pct = if known then soc_pct else minus_one;
}

-- The guests of host `i` that fired in this call.
abbrev pub fired_guests : ℕ → List GuestEngine → List PendingGuest
fired_guests i [] = []
fired_guests i (gs ∷ items) =
    let rest = fired_guests i items in
    if gs.fired_now then record { host = i; id = gs.id; reason = gs.reason } ∷ rest else rest

-- The loop over the hosts.
unfoldable pub all_fired : ℕ → List HostEngine → List PendingGuest
all_fired i [] = []
all_fired i (he ∷ hosts) = fired_guests i he.guests ++ all_fired (suc i) hosts

abbrev pub any_bit : List Bool → Bool
any_bit [] = false
any_bit (b ∷ bits) = b || any_bit bits

-- `|=` of two masks.
abbrev pub or_bits : List Bool → List Bool → List Bool
or_bits [] more = more
or_bits (b ∷ bits) [] = b ∷ bits
or_bits (b ∷ bits) (d ∷ more) = (b || d) ∷ or_bits bits more

-- `pve_shutdown_observe` at the time `now`; `created` tells whether a worker can be created.
unfoldable pub observe : Runtime → ℕ → Bool → Bool → Bool → ℤ → Runtime
unfolding all_fired
observe p now created known on_mains soc_pct =
    let (eng, fired) = eval p.cfg p.guests p.eng (obs_of known on_mains soc_pct) now in
    let found = all_fired 0 eng.hosts in
    let any = any_bit fired || not (length found == 0) in
    let pending : Runtime = record p { eng = eng; pending_guests = p.pending_guests ++ found } in
    if not p.started then p else if not any then pending else record pending {
      pending_hosts = or_bits p.pending_hosts fired;
      running = p.running || created;
    }

abbrev sync_all : List HostEngine → List (List Guest) → List HostEngine
sync_all [] guests = []
sync_all (he ∷ hosts) [] = he ∷ hosts
sync_all (he ∷ hosts) (g ∷ guests) =
    record he { guests = sync_guests he.guests g } ∷ sync_all hosts guests

-- `pve_shutdown_reconfigure`
unfoldable pub reconfigure : Runtime → Config → List (List Guest) → Runtime
reconfigure p cfg guests = if not p.started then p else record p {
  cfg = cfg;
  guests = guests;
  eng = record p.eng { hosts = sync_all p.eng.hosts guests };
}

-- What the worker hands to `run_host`: the host, whether it is to be shut down itself, and its guests.
pub record Job : Type 0 where
  pub host : ℕ
  pub node_pending : Bool
  pub batch : List PendingGuest

-- The first host with its bit set.
abbrev pub first_bit : ℕ → List Bool → Option ℕ
first_bit k [] = none
first_bit k (b ∷ bits) = if b then some k else first_bit (suc k) bits

abbrev pub first_host : List PendingGuest → Option ℕ
first_host [] = none
first_host (g ∷ guests) = some g.host

abbrev pub clear_bit : List Bool → ℕ → List Bool
clear_bit [] i = []
clear_bit (b ∷ bits) zero = false ∷ bits
clear_bit (b ∷ bits) (suc i) = b ∷ clear_bit bits i

abbrev pub bit_at : List Bool → ℕ → Bool
bit_at [] i = false
bit_at (b ∷ bits) zero = b
bit_at (b ∷ bits) (suc i) = bit_at bits i

abbrev pub of_host : ℕ → List PendingGuest → List PendingGuest
of_host i [] = []
of_host i (g ∷ guests) = let rest = of_host i guests in if g.host == i then g ∷ rest else rest

abbrev pub not_of_host : ℕ → List PendingGuest → List PendingGuest
not_of_host i [] = []
not_of_host i (g ∷ guests) =
    let rest = not_of_host i guests in if g.host == i then rest else g ∷ rest

abbrev pub take_host : Runtime → Option ℕ → Runtime × Option Job
take_host p none = (record p { running = false }, none)
take_host p (some i) = (
  record p {
    pending_hosts = clear_bit p.pending_hosts i;
    pending_guests = not_of_host i p.pending_guests;
  },
  some (record {
    host = i;
    node_pending = bit_at p.pending_hosts i;
    batch = of_host i p.pending_guests;
  }),
)

-- A pass of `worker_task` up to `run_host`; with nothing pending, the worker ends.
unfoldable pub take_job : Runtime → Runtime × Option Job
take_job p =
    take_host p
      (elim (first_bit 0 p.pending_hosts) [ some i ↦ some i | none ↦ first_host p.pending_guests ])

abbrev pub after_job : (Runtime → Runtime × List Job) → Runtime × Option Job → Runtime × List Job
after_job more (p, none) = (p, [])
after_job more (p, some job) = let (last, jobs) = more p in (last, job ∷ jobs)

-- `worker_task` while no new work arrives, with the jobs that it hands to `run_host`. Each pass but the
-- last takes a bit or a guest, so one more pass than there are of these is enough.
unfoldable pub run_worker : ℕ → Runtime → Runtime × List Job
unfolding take_job
run_worker zero p = (p, [])
run_worker (suc passes) p = after_job (run_worker passes) (take_job p)

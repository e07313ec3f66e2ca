-- ===== src/PveShutdown/Observe/Worker.antt =====
-- The worker of pve_shutdown.c takes all the work that is pending, each piece once.
use esp32_nut_bluetti.Prelude.{
  ℕ, zero, suc, ◌+◌, ◌-◌, ◌≡◌, ◌<◌, ◌≤◌, refl, ◌∙◌, ap, sym, Bool, true, false, not, ◌&&◌, ◌||◌,
  Option, none, some, List, [], ◌∷◌, ◌++◌, if◌then◌else◌, ◌==◌, arith, length, Bool-cases,
  Option-cases, inl, inr,
}
use esp32_nut_bluetti.PveShutdown.Observe.{
  PendingGuest, Runtime, Job, first_bit, first_host, clear_bit, bit_at, of_host, not_of_host,
  take_host, take_job, after_job, run_worker,
}

abbrev pub count_bits : List Bool → ℕ
count_bits [] = 0
count_bits (b ∷ bits) = (if b then 1 else 0) + count_bits bits

-- The bits and the guests that are pending.
abbrev pub pending : Runtime → ℕ
pending p = count_bits p.pending_hosts + length p.pending_guests

-- The guests of all jobs.
abbrev pub batches : List Job → List PendingGuest
batches [] = []
batches (job ∷ jobs) = job.batch ++ batches jobs

-- Whether host `i` is to be shut down in one of the jobs.
abbrev pub node_job : ℕ → List Job → Bool
node_job i [] = false
node_job i (job ∷ jobs) = (job.node_pending && job.host == i) || node_job i jobs

-- Each guest of a job is one of the job's host.
abbrev pub AreOwn : List Job → Type 0
AreOwn [] = Unit
AreOwn (job ∷ jobs) = (of_host job.host job.batch ≡ job.batch) × AreOwn jobs

first_bit-some :
    (k i : ℕ) (bits : List Bool)
    → first_bit k bits ≡ some i
    → (k ≤ i) × (bit_at bits (i - k) ≡ true)
first_bit-some k i [] e = absurd (cc)
first_bit-some k i (true ∷ bits) e =
    let here : i - k ≡ 0 = ground (arith, e) in (ground (arith, e), ap (bit_at (true ∷ bits)) here)
first_bit-some k i (false ∷ bits) e =
    let (le, at) = first_bit-some (suc k) i bits e in
    let there : i - k ≡ suc (i - suc k) = omega arith in
    (omega arith, ap (bit_at (false ∷ bits)) there ∙ at)

first_bit-none : (k i : ℕ) (bits : List Bool) → first_bit k bits ≡ none → bit_at bits i ≡ false
first_bit-none k i [] e = refl
first_bit-none k i (true ∷ bits) e = absurd (cc)
first_bit-none k zero (false ∷ bits) e = refl
first_bit-none k (suc i) (false ∷ bits) e = first_bit-none (suc k) i bits e

count_bits-clear_bit :
    (bits : List Bool) (i : ℕ)
    → bit_at bits i ≡ true
    → suc (count_bits (clear_bit bits i)) ≡ count_bits bits
count_bits-clear_bit [] i h = absurd (cc)
count_bits-clear_bit (b ∷ bits) zero h = ground (arith, h)
count_bits-clear_bit (b ∷ bits) (suc i) h = omega (arith, count_bits-clear_bit bits i h)

count_bits-clear_le : (bits : List Bool) (i : ℕ) → count_bits (clear_bit bits i) ≤ count_bits bits
count_bits-clear_le [] i = omega arith
count_bits-clear_le (b ∷ bits) zero = ground arith
count_bits-clear_le (b ∷ bits) (suc i) = omega (arith, count_bits-clear_le bits i)

bit_at-clear_bit :
    (bits : List Bool) (i j : ℕ) → bit_at (clear_bit bits i) j ≡ (bit_at bits j && not (i == j))
bit_at-clear_bit [] i j = refl
bit_at-clear_bit (b ∷ bits) zero zero = ground arith
bit_at-clear_bit (b ∷ bits) zero (suc j) = ground arith
bit_at-clear_bit (b ∷ bits) (suc i) zero = ground arith
bit_at-clear_bit (b ∷ bits) (suc i) (suc j) =
    let ih = bit_at-clear_bit bits i j in
    let same : (suc i == suc j) ≡ (i == j) = ground arith in rw same ih

length-not_of_host :
    (i : ℕ) (guests : List PendingGuest) → length (not_of_host i guests) ≤ length guests
length-not_of_host i [] = omega arith
length-not_of_host i (g ∷ guests) = let rest = length-not_of_host i guests in ground (arith, rest)

of_host-append :
    (j : ℕ) (xs ys : List PendingGuest) → of_host j (xs ++ ys) ≡ of_host j xs ++ of_host j ys
of_host-append j [] ys = refl
of_host-append j (g ∷ xs) ys = elim (Bool-cases (g.host == j)) [
  | inl e ↦ rw e (ap (λ l. g ∷ l) (of_host-append j xs ys))
  | inr e ↦ rw e (of_host-append j xs ys)
]

of_host-other :
    (i j : ℕ) (guests : List PendingGuest) → (i == j) ≡ false → of_host j (of_host i guests) ≡ []
of_host-other i j [] other = refl
of_host-other i j (g ∷ guests) other = elim (Bool-cases (g.host == i)) [
  | inl e ↦
      let unlike : (g.host == j) ≡ false = ground (arith, e, other) in
      rw e (rw unlike (of_host-other i j guests other))
  | inr e ↦ rw e (of_host-other i j guests other)
]

-- The guests of one host, among those of a host and the rest.
of_host-split :
    (i j : ℕ) (guests : List PendingGuest)
    → of_host j (of_host i guests) ++ of_host j (not_of_host i guests) ≡ of_host j guests
of_host-split i j [] = refl
of_host-split i j (g ∷ guests) =
    let ih = of_host-split i j guests in
    elim (Bool-cases (g.host == i)) [
      | inl e ↦ elim (Bool-cases (g.host == j)) [
        | inl k ↦ rw e (rw k (ap (λ l. g ∷ l) ih))
        | inr k ↦ rw e (rw k ih)
      ]
      | inr e ↦ elim (Bool-cases (g.host == j)) [
        | inl k ↦
            let none_here = of_host-other i j guests (ground (arith, e, k)) in
            let rest : of_host j (not_of_host i guests) ≡ of_host j guests =
              ap (λ l. l ++ of_host j (not_of_host i guests)) (sym none_here) ∙ ih in
            rw e (rw (k, none_here) (ap (λ l. g ∷ l) rest))
        | inr k ↦ rw e (rw k ih)
      ]
    ]

of_host-own : (i : ℕ) (guests : List PendingGuest) → of_host i (of_host i guests) ≡ of_host i guests
of_host-own i [] = refl
of_host-own i (g ∷ guests) = elim (Bool-cases (g.host == i)) [
  | inl e ↦ rw e (rw e (ap (λ l. g ∷ l) (of_host-own i guests)))
  | inr e ↦ rw e (of_host-own i guests)
]

-- What the worker leaves and hands over, as far as host `i` is concerned.
abbrev pub Drained : ℕ → Runtime → Runtime × List Job → Type 0
Drained i p (last, jobs) =
    (last.running ≡ false)
    × (pending last ≡ 0)
    × (of_host i (batches jobs) ≡ of_host i p.pending_guests)
    × (node_job i jobs ≡ bit_at p.pending_hosts i)
    × AreOwn jobs

bit_split :
    (a : Bool) (k i : ℕ) (bits : List Bool)
    → a ≡ bit_at bits k
    → ((a && k == i) || (bit_at bits i && not (k == i))) ≡ bit_at bits i
bit_split a k i bits e = elim (Bool-cases (k == i)) [
  | inl same ↦
      let there : k ≡ i = ground (arith, same) in
      let at = e ∙ ap (bit_at bits) there in rw same (ground (arith, at))
  | inr other ↦ rw other (ground arith)
]

-- A pass that takes the work of host `k`.
pass-Drained :
    (i k : ℕ) (p : Runtime) (more : Runtime → Runtime × List Job)
    → Drained i (take_host p (some k)).0 (more (take_host p (some k)).0)
    → Drained i p (after_job more (take_host p (some k)))
pass-Drained i k p more h =
    let (running, none_left, guests, node, own) = h in
    let jobs = (more (take_host p (some k)).0).1 in
    (
      running,
      none_left,
      of_host-append i (of_host k p.pending_guests) (batches jobs)
          ∙ ap (λ l. of_host i (of_host k p.pending_guests) ++ l) guests
          ∙ of_host-split k i p.pending_guests,
      ap (λ b. (bit_at p.pending_hosts k && k == i) || b)
            (node ∙ bit_at-clear_bit p.pending_hosts k i)
          ∙ bit_split (bit_at p.pending_hosts k) k i p.pending_hosts refl,
      (of_host-own k p.pending_guests, own),
    )

count_bits-none : (k : ℕ) (bits : List Bool) → first_bit k bits ≡ none → count_bits bits ≡ 0
count_bits-none k [] e = refl
count_bits-none k (true ∷ bits) e = absurd (cc)
count_bits-none k (false ∷ bits) e = omega (arith, count_bits-none (suc k) bits e)

with_bit :
    (p : Runtime) (k : ℕ)
    → bit_at p.pending_hosts (k - 0) ≡ true
    → pending (take_host p (some k)).0 < pending p
with_bit p k at =
    let same : k - 0 ≡ k = omega arith in
    let fewer =
      count_bits-clear_bit p.pending_hosts k (ap (bit_at p.pending_hosts) (sym same) ∙ at) in
    omega (arith, fewer, length-not_of_host k p.pending_guests)

with_guest :
    (p : Runtime) (k : ℕ)
    → first_host p.pending_guests ≡ some k
    → pending (take_host p (some k)).0 < pending p
with_guest p k f =
    let bits = count_bits-clear_le p.pending_hosts k in
    let guests = fewer k p.pending_guests f in omega arith
  where
    fewer :
        (k : ℕ) (gs : List PendingGuest)
        → first_host gs ≡ some k
        → length (not_of_host k gs) < length gs
    fewer k [] f = absurd (cc)
    fewer k (g ∷ gs) f =
        let own : (g.host == k) ≡ true = ground (arith, f) in
        rw own (omega (arith, length-not_of_host k gs))

-- A pass with nothing pending.
idle_worker :
    (i : ℕ) (p : Runtime)
    → first_bit 0 p.pending_hosts ≡ none
    → first_host p.pending_guests ≡ none
    → Drained i p (record p { running = false }, [])
idle_worker i p e f =
    let bits = count_bits-none 0 p.pending_hosts e in
    let guests : p.pending_guests ≡ [] = no_guests p.pending_guests f in
    (
      refl,
      omega (arith, bits, ap length guests),
      ap (of_host i) (sym guests),
      sym (first_bit-none 0 i p.pending_hosts e),
      tt,
    )
  where
    no_guests : (gs : List PendingGuest) → first_host gs ≡ none → gs ≡ []
    no_guests [] f = refl
    no_guests (g ∷ gs) f = absurd (cc)

-- While no new work arrives, the worker ends within one pass more than bits and guests are pending, and
-- leaves nothing pending. For each host, the jobs hold its pending guests, each once and in their order,
-- and its own shutdown exactly if its bit was set; and a job holds guests of its own host only.
pub run_worker-Drained :
    (passes i : ℕ) (p : Runtime) → pending p < passes → Drained i p (run_worker passes p)
unfolding run_worker take_job
run_worker-Drained zero i p enough = absurd (omega arith)
run_worker-Drained (suc passes) i p enough =
    let chosen = λ (bit : Option ℕ).
      take_host p (elim bit [ some k ↦ some k | none ↦ first_host p.pending_guests ]) in
    let next = λ (k : ℕ) (less : pending (take_host p (some k)).0 < pending p).
      pass-Drained i k p (run_worker passes)
        (run_worker-Drained passes i (take_host p (some k)).0 (omega arith)) in
    elim (Option-cases (first_bit 0 p.pending_hosts)) [
      | inr (k, e) ↦
          let taken : take_job p ≡ take_host p (some k) = ap chosen e in
          rw taken (next k (with_bit p k (first_bit-some 0 k p.pending_hosts e).1))
      | inl e ↦
          let taken : take_job p ≡ take_host p (first_host p.pending_guests) = ap chosen e in
          elim (Option-cases (first_host p.pending_guests)) [
            | inr (k, f) ↦ rw (taken, f) (next k (with_guest p k f))
            | inl f ↦ rw (taken, f) (idle_worker i p e f)
          ]
    ]

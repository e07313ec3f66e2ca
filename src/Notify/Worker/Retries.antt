-- ===== src/Notify/Worker/Retries.antt =====
-- The retries of notify.c end: a message leaves the hands of the worker within 15 passes.
use esp32_nut_bluetti.Prelude.{
  ℕ, zero, suc, ◌+◌, ◌≤◌, ◌≡◌, refl, Bool, true, false, not, ◌&&◌, ◌||◌, Option, none, some, List,
  [], ◌∷◌, if◌then◌else◌, leb, arith, length, if_ind, Option-cases, inl, inr,
}
use esp32_nut_bluetti.Notify.State.{Msg, Notifier}
use esp32_nut_bluetti.Notify.Worker.{
  Net, Courier, Pass, dropped, delivered, given_up, retry, send_attempts, backoff_ms, telegram_post,
  late_text, try_deliver, worker_pass,
}

-- The passes until the worker holds no message, the network and the clock free to change from pass to
-- pass; `fuel` passes at most.
unfoldable pub settle : (ℕ → Net) → (ℕ → ℕ) → ℕ → ℕ → Courier → Courier × List Pass
settle net clock i zero c = (c, [])
settle net clock i (suc fuel) c =
    let (next, pass) = worker_pass (net i) (clock i) c in
    let (last, passes) = settle net clock (suc i) fuel next in
    elim c.held [ none ↦ (c, []) | some m ↦ (last, pass ∷ passes) ]

abbrev pub waited : List Pass → ℕ
waited [] = 0
waited (retry ms ∷ passes) = ms + waited passes
waited (_ ∷ passes) = waited passes

abbrev pub deliveries : List Pass → List Msg
deliveries [] = []
deliveries (delivered m text ∷ passes) = m ∷ deliveries passes
deliveries (_ ∷ passes) = deliveries passes

-- The waits that are left behind `attempt` failures.
abbrev pub budget : ℕ → ℕ → ℕ
budget zero attempt = 0
budget (suc n) attempt = backoff_ms (attempt + 1) + budget n (attempt + 1)

abbrev is_none {ℓ} : {A : Type ℓ} → Option A → Bool
is_none none = true
is_none (some a) = false

-- Whether one of the next `n` posts of the message is accepted.
abbrev pub accepted : (ℕ → Net) → (ℕ → ℕ) → ℕ → ℕ → Notifier → Msg → Bool
accepted net clock i zero n m = false
accepted net clock i (suc left) n m =
    is_none (telegram_post (net i) n.cfg (late_text (clock i) m) 96)
    || accepted net clock (suc i) left n m

-- The worker with a message to deliver.
abbrev pub owing : Notifier → Msg → ℕ → Courier
owing n m attempt = record { notifier = n; held = some m; attempt = attempt }

-- The passes with one message, of which `left` tries are left behind the next.
pub record Settles (n : Notifier) (m : Msg) (attempt left : ℕ) (ok : Bool) (r : Courier × List Pass)
    : Type 0 where
  pub free : r.0.held ≡ none
  pub same : r.0.notifier ≡ n
  pub rounds : length r.1 ≤ suc left
  pub waits : waited r.1 ≤ budget left attempt
  pub once : deliveries r.1 ≡ (if n.cfg.enabled && ok then m ∷ [] else [])

settle_free :
    (net : ℕ → Net) (clock : ℕ → ℕ) (i fuel : ℕ) (c : Courier)
    → c.held ≡ none
    → settle net clock i fuel c ≡ (c, [])
unfolding settle
settle_free net clock i zero c e = refl
settle_free net clock i (suc fuel) c e = rw e refl

-- The passes behind one that has been made.
abbrev after_pass : (ℕ → Net) → (ℕ → ℕ) → ℕ → ℕ → Courier × Pass → Courier × List Pass
after_pass net clock i fuel (next, pass) =
    ((settle net clock (suc i) fuel next).0, pass ∷ (settle net clock (suc i) fuel next).1)

settle_step :
    (net : ℕ → Net) (clock : ℕ → ℕ) (i fuel : ℕ) (n : Notifier) (m : Msg) (a : ℕ)
    → settle net clock i (suc fuel) (owing n m a)
      ≡ after_pass net clock i fuel (try_deliver (net i) (clock i) (owing n m a) m)
unfolding settle worker_pass
settle_step net clock i fuel n m a = refl

-- A pass that lets the message go.
Settles-now :
    (net : ℕ → Net) (clock : ℕ → ℕ) (i fuel left : ℕ) (n : Notifier) (m : Msg) (a b : ℕ) (ok : Bool)
    (pass : Pass)
    → waited (pass ∷ []) ≡ 0
    → deliveries (pass ∷ []) ≡ (if n.cfg.enabled && ok then m ∷ [] else [])
    → Settles n m a left ok
        (after_pass net clock i fuel (record { notifier = n; held = none; attempt = b }, pass))
Settles-now net clock i fuel left n m a b ok pass w d =
    rw (settle_free net clock (suc i) fuel (record { notifier = n; held = none; attempt = b }) refl)
      (record {
        free = refl;
        same = refl;
        rounds = omega arith;
        waits = omega (arith, w);
        once = d;
      })

-- A failed try with more of them left.
Settles-later :
    (net : ℕ → Net) (clock : ℕ → ℕ) (i left : ℕ) (n : Notifier) (m : Msg) (a : ℕ) (ok : Bool)
    → Settles n m (a + 1) left ok (settle net clock (suc i) (suc left) (owing n m (a + 1)))
    → Settles n m a
        (suc left)
        ok
        (after_pass net clock i (suc left) (owing n m (a + 1), retry (backoff_ms (a + 1))))
Settles-later net clock i left n m a ok later = record {
  free = later.free;
  same = later.same;
  rounds = omega (arith, later.rounds);
  waits = omega (arith, later.waits);
  once = later.once;
}

-- What a failed try leads to.
abbrev failed_try : Notifier → Msg → ℕ → Courier × Pass
failed_try n m a =
    if leb send_attempts (a + 1)
    then (record { notifier = n; held = none; attempt = a + 1 }, given_up)
    else (owing n m (a + 1), retry (backoff_ms (a + 1)))

try-Settles :
    (net : ℕ → Net) (clock : ℕ → ℕ) (left i : ℕ) (n : Notifier) (m : Msg) (a : ℕ)
    → Settles n m a left
        (accepted net clock (suc i) left n m)
        (after_pass net clock i left (failed_try n m a))
    → Settles n m a left
        (accepted net clock i (suc left) n m)
        (settle net clock i (suc left) (owing n m a))
unfolding try_deliver
try-Settles net clock left i n m a failing =
    let ok = accepted net clock i (suc left) n m in
    let Good = λ (cp : Courier × Pass). Settles n m a left ok (after_pass net clock i left cp) in
    let posted = telegram_post (net i) n.cfg (late_text (clock i) m) 96 in
    rw (settle_step net clock i left n m a) (
      if_ind Good (not n.cfg.enabled) _ _
        (λ off. Settles-now net clock i left left n m a a ok dropped refl (ground (arith, off)))
        (λ on. elim (Option-cases posted) [
          | inl sent ↦
              rw sent (Settles-now net clock i left left n m a a true _ refl (ground (arith, on)))
          | inr (err, failed) ↦ rw failed failing
        ]))

-- Every message leaves the worker's hands within the tries that are left, 15 for a new one.
pub settle-Settles :
    (net : ℕ → Net) (clock : ℕ → ℕ) (left i : ℕ) (n : Notifier) (m : Msg) (a : ℕ)
    → a + suc left ≡ 15
    → Settles n m a left
        (accepted net clock i (suc left) n m)
        (settle net clock i (suc left) (owing n m a))
settle-Settles net clock zero i n m a e =
    let last : leb send_attempts (a + 1) ≡ true = ground (arith, e) in
    let ends = Settles-now net clock i 0 0 n m a (a + 1) false given_up refl (ground arith) in
    try-Settles net clock 0 i n m a (rw last ends)
settle-Settles net clock (suc left) i n m a e =
    let more : leb send_attempts (a + 1) ≡ false = ground (arith, e) in
    let later = settle-Settles net clock left (suc i) n m (a + 1) (omega arith) in
    try-Settles net clock (suc left) i n m a
      (rw more (Settles-later net clock i left n m a _ later))

-- A message that the worker has taken from the queue leaves its hands within 15 passes, whatever the
-- network does; the waits between them come to 3200 seconds at most; nothing else of the notifier
-- changes meanwhile; and it is delivered, once, exactly if notifications are enabled and one of its 15
-- posts is accepted.
pub settle_new :
    (net : ℕ → Net) (clock : ℕ → ℕ) (i : ℕ) (n : Notifier) (m : Msg)
    → (let r = settle net clock i 15 (owing n m 0) in
        (r.0.held ≡ none)
        × (r.0.notifier ≡ n)
        × (length r.1 ≤ 15)
        × (waited r.1 ≤ 3200000)
        × (deliveries r.1 ≡ (if n.cfg.enabled && accepted net clock i 15 n m then m ∷ [] else [])))
unfolding backoff_ms
settle_new net clock i n m =
    let s = settle-Settles net clock 14 i n m 0 refl in (s.free, s.same, s.rounds, s.waits, s.once)

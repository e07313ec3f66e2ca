-- ===== src/BtLink/Poll/Order.antt =====
-- The queued writes go out first, in their order (`poll_timer_cb` of bluetti_ble.c).
use esp32_nut_bluetti.Prelude.{
  ℕ, ◌≡◌, refl, ◌∙◌, ap, Bool, true, false, not, Option, none, some, List, [], ◌∷◌, ◌==◌, arith,
  length, if_ind,
}
use esp32_nut_bluetti.Prelude.Text.{Bytes}
use esp32_nut_bluetti.BtCrypto.{Crypto}
use esp32_nut_bluetti.BtSession.State.{Session, rx_max, tx, random_seed, session_ready}
use esp32_nut_bluetti.BtSession.Cipher.{wrap_seeded}
use esp32_nut_bluetti.BtSession.Modbus.{
  modbus_command, modbus_write, send_wrapped, send_command, write_reg,
}
use esp32_nut_bluetti.BtLink.State.{Write, Link, session_ack}
use esp32_nut_bluetti.BtLink.Poll.{requested, send_next, poll_tick}

-- The session behind the writes, one after the other.
pub sends : Crypto → Session → List Write → Session
sends c s [] = s
sends c s (w ∷ queue) = sends c (write_reg c s w.reg w.val).0 queue

-- A tick, and the answer to what it sent.
abbrev pub round : Crypto → ℕ → Link → Link
round c now l = session_ack (poll_tick c now l)

pub rounds : Crypto → List ℕ → Link → Link
rounds c [] l = l
rounds c (now ∷ times) l = rounds c times (round c now l)

send_wrapped-ready :
    (s : Session) (f : Option Bytes) → session_ready (send_wrapped s f).0 ≡ session_ready s
unfolding tx
send_wrapped-ready s none = refl
send_wrapped-ready s (some frame) = refl

write_reg-ready :
    (c : Crypto) (s : Session) (addr value : ℕ)
    → session_ready (write_reg c s addr value).0 ≡ session_ready s
unfolding write_reg send_command tx random_seed
write_reg-ready c s addr value =
    let cmd = modbus_command modbus_write addr value in
    let asked : Session = record s { pending_addr = addr; rx = [] } in
    let (s', seed) = random_seed asked in
    let Same = λ (r : Session × Bool). session_ready r.0 ≡ session_ready s in
    if_ind Same (not (session_ready s)) _ _ (λ e. refl)
      (λ e.
        if_ind Same s.plain _ _ (λ e. refl)
          (λ e. send_wrapped-ready s' (wrap_seeded c s.secure_key seed cmd rx_max)))

-- A link that can send.
abbrev pub IsFree : Link → Type 0
IsFree l =
    (l.connected ≡ true)
    × (session_ready l.session ≡ true)
    × ((length l.plan == 0) ≡ false)
    × (l.req_in_flight ≡ false)

requested-session : (now : ℕ) (l : Link) (r : Session × Bool) → (requested now l r).session ≡ r.0
requested-session now l (s, true) = refl
requested-session now l (s, false) = refl

requested-rest :
    (now : ℕ) (l : Link) (r : Session × Bool)
    → ((requested now l r).connected ≡ l.connected)
      × ((requested now l r).plan ≡ l.plan)
      × ((requested now l r).write_queue ≡ l.write_queue)
requested-rest now l (s, true) = (refl, refl, refl)
requested-rest now l (s, false) = (refl, refl, refl)

poll_tick-IsFree :
    (c : Crypto) (now : ℕ) (l : Link)
    → IsFree l
    → poll_tick c now l ≡ send_next c now l l.write_queue
unfolding poll_tick
poll_tick-IsFree c now l free = simp (free.0, free.1, free.2, free.3)

drained :
    (c : Crypto) (times : List ℕ) (queue : List Write) (l : Link)
    → l.write_queue ≡ queue
    → IsFree l
    → length times ≡ length queue
    → ((rounds c times l).session ≡ sends c l.session queue) × ((rounds c times l).write_queue ≡ [])
unfolding rounds sends send_next
drained c [] [] l here free same = (refl, here)
drained c [] (w ∷ queue) l here free same = absurd (omega arith)
drained c (now ∷ times) [] l here free same = absurd (omega arith)
drained c (now ∷ times) (w ∷ queue) l here free same =
    let sent = write_reg c l.session w.reg w.val in
    let popped : Link = record l { write_queue = queue } in
    let ticked : poll_tick c now l ≡ requested now popped sent =
      poll_tick-IsFree c now l free ∙ ap (send_next c now l) here in
    let kept = requested-rest now popped sent in
    let session = requested-session now popped sent in
    let l' = round c now l in
    let to = λ (m : Link). session_ack m in
    let s' : l'.session ≡ sent.0 = ap (λ m. (to m).session) ticked ∙ session in
    let ready = ap session_ready s' ∙ write_reg-ready c l.session w.reg w.val ∙ free.1 in
    let up = ap (λ m. (to m).connected) ticked ∙ kept.0 ∙ free.0 in
    let plan : (length l'.plan == 0) ≡ false =
      ap (λ m. length (to m).plan == 0) ticked ∙ ap (λ p. length p == 0) kept.1 ∙ free.2 in
    let queue' = ap (λ m. (to m).write_queue) ticked ∙ kept.2 in
    let rest = drained c times queue l' queue' (up, ready, plan, refl) (omega arith) in
    (rest.0 ∙ ap (λ s. sends c s queue) s', rest.1)

-- Where the link is up and free, and each request is answered, the queued writes are sent in their
-- order, one in each tick, before any field is read, and none is left in the queue.
pub rounds-sends :
    (c : Crypto) (times : List ℕ) (l : Link)
    → IsFree l
    → length times ≡ length l.write_queue
    → ((rounds c times l).session ≡ sends c l.session l.write_queue)
      × ((rounds c times l).write_queue ≡ [])
rounds-sends c times l free same = drained c times l.write_queue l refl free same

-- ===== src/Notify/Worker.antt =====
-- The worker of notify.c, which delivers the messages of the queue one after the other, and its call of
-- the Telegram API. HTTPS and JSON are parameters.
use esp32_nut_bluetti.Prelude.{
  ℕ, zero, suc, ◌+◌, ◌-◌, ◌*◌, ◌/◌, Bool, true, false, not, ◌&&◌, ◌||◌, Option, none, some, List,
  [], ◌∷◌, ◌++◌, if◌then◌else◌, ◌==◌, ltb, leb, min,
}
pub mod Retries
use Prim.Native.String.{String}
use esp32_nut_bluetti.Prelude.Int.{ℤ, pos, negsuc}
use esp32_nut_bluetti.Prelude.Text.{Bytes, codes, decimal, fit}
use esp32_nut_bluetti.Notify.State.{NotifyConfig, Msg, Notifier, labelled, msg_max}
use esp32_nut_bluetti.Notify.Status.{signed}

-- `SEND_ATTEMPTS`
abbrev pub send_attempts : ℕ
send_attempts = 15

-- `BACKOFF_CAP_MS`
abbrev pub backoff_cap_ms : ℕ
backoff_cap_ms = 300000

-- `LATE_AFTER_US`
abbrev pub late_after_us : ℕ
late_after_us = 90000000

-- What the HTTPS client makes of a request: it could not connect, or the status and the body;
-- the status is negative where no header came.
pub data HttpReply : Type 0 where
  unreachable : Bytes → HttpReply
  answered : ℤ → Bytes → HttpReply

-- cJSON and esp_http_client: the object and the text of a chat id and a message, and the answer to a POST
-- of a body to a URL, where a client can be made.
pub record Net : Type 0 where
  pub object : Bool
  pub print : Bytes → Bytes → Option Bytes
  pub client : Bool
  pub post : Bytes → Bytes → HttpReply

abbrev is_prefix : Bytes → Bytes → Bool
is_prefix [] text = true
is_prefix (a ∷ part) [] = false
is_prefix (a ∷ part) (b ∷ text) = a == b && is_prefix part text

abbrev drop_bytes : ℕ → Bytes → Bytes
drop_bytes zero text = text
drop_bytes (suc n) [] = []
drop_bytes (suc n) (b ∷ text) = drop_bytes n text

-- What stands behind the first `part` in a text: `strstr`, and a step over it.
abbrev pub behind : Bytes → ℕ → Bytes → Option Bytes
behind part size [] = none
behind part size (b ∷ text) =
    if is_prefix part (b ∷ text) then some (drop_bytes size (b ∷ text)) else behind part size text

-- The bytes before the next double quote, `room` at most.
abbrev pub before_quote : ℕ → Bytes → Bytes
before_quote zero text = []
before_quote (suc room) [] = []
before_quote (suc room) (b ∷ text) = if b == 34 then [] else b ∷ before_quote room text

abbrev quoted : String → Bytes
quoted s = 34 ∷ (codes s ++ 34 ∷ [])

-- What is told of an answer that is not 200; the response buffer holds 191 bytes.
unfoldable pub why_refused : ℕ → ℤ → Bytes → Bytes
unfolding signed
why_refused err_sz status body =
    elim (behind (quoted "description" ++ b':' ∷ 34 ∷ []) 15 (fit 192 body)) [
      | none ↦ fit err_sz (codes "Telegram HTTP " ++ signed status)
      | some why ↦ fit err_sz (before_quote (err_sz - 1) why)
    ]

-- `status == 200`
abbrev is_ok : ℤ → Bool
is_ok (pos status) = status == 200
is_ok (negsuc n) = false

-- `!field[0]`
abbrev missing : Bytes → Bool
missing [] = true
missing (b ∷ field) = false

-- `telegram_post`: nothing, or the text of an error.
unfoldable pub telegram_post : Net → NotifyConfig → Bytes → ℕ → Option Bytes
unfolding why_refused
telegram_post net cfg text err_sz =
    let url =
      fit 128 (codes "https://api.telegram.org/bot" ++ (cfg.bot_token ++ codes "/sendMessage")) in
    let sent : Bytes → Option Bytes = λ body. elim (net.post url body) [
      | unreachable why ↦ some (fit err_sz (codes "connect failed: " ++ why))
      | answered status resp ↦ if is_ok status then none else some (why_refused err_sz status resp)
    ] in
    if missing cfg.bot_token || missing cfg.chat_id
    then some (fit err_sz (codes "bot token and chat id are required"))
    else if not net.object
    then some (fit err_sz (codes "out of memory"))
    else elim (net.print cfg.chat_id text) [
      | none ↦ some (fit err_sz (codes "json build failed"))
      | some body ↦ if net.client then sent body else some (fit err_sz (codes "http init failed"))
    ]

-- `ms *= 3`, at most `rounds` times.
abbrev pub tripled : ℕ → ℕ → ℕ
tripled zero ms = ms
tripled (suc rounds) ms =
    let more = tripled rounds (ms * 3) in if ltb ms backoff_cap_ms then more else ms

-- `backoff_ms`
unfoldable pub backoff_ms : ℕ → ℕ
backoff_ms attempt = min (tripled (attempt - 1) 5000) backoff_cap_ms

-- The worker and what it works on: the message it still owes a delivery, and how often it has tried.
pub record Courier : Type 0 where
  pub notifier : Notifier
  pub held : Option Msg
  pub attempt : ℕ

-- What the text becomes that is sent at the time `now`.
unfoldable pub late_text : ℕ → Msg → Bytes
late_text now m =
    let late_us = now - m.queued_us in
    let note = codes " (" ++ (decimal (late_us / 60000000) ++ codes " min ago)") in
    fit (msg_max + 32) (if ltb late_after_us late_us then m.text ++ note else m.text)

-- How a pass of the worker's loop ends.
pub data Pass : Type 0 where
  -- nothing is queued
  idle : Pass
  -- notifications have been turned off
  dropped : Pass
  delivered : Msg → Bytes → Pass
  given_up : Pass
  -- the wait before the next pass, in milliseconds
  retry : ℕ → Pass

-- The part of a pass behind the queue.
unfoldable pub try_deliver : Net → ℕ → Courier → Msg → Courier × Pass
unfolding late_text
try_deliver net now c m =
    let free : Courier = record c { held = none } in
    let text = late_text now m in
    let tries = c.attempt + 1 in
    if not c.notifier.cfg.enabled
    then (free, dropped)
    else elim (telegram_post net c.notifier.cfg text 96) [
      | none ↦ (free, delivered m text)
      | some err ↦
          if leb send_attempts tries
          then (record free { attempt = tries }, given_up)
          else (record c { attempt = tries }, retry (backoff_ms tries))
    ]

-- A message of the queue, where none is held.
abbrev take_message : Net → ℕ → Courier → List Msg → Courier × Pass
take_message net now c [] = (c, idle)
take_message net now c (m ∷ queue) =
    let popped : Notifier = record c.notifier { queue = queue } in
    try_deliver net now (record { notifier = popped; held = some m; attempt = 0 }) m

-- A pass of `worker`.
unfoldable pub worker_pass : Net → ℕ → Courier → Courier × Pass
worker_pass net now c = elim c.held [
  | some m ↦ try_deliver net now c m
  | none ↦ take_message net now c c.notifier.queue
]

-- `notify_send_test`: a label of NULL is the empty one.
unfoldable pub notify_send_test : Net → NotifyConfig → Bytes → ℕ → Option Bytes
notify_send_test net cfg label err_sz =
    let note =
      codes "Test message " ++ ((0xE2 ∷ 0x80 ∷ 0x94 ∷ []) ++ codes " notifications are working.") in
    telegram_post net cfg (fit msg_max (labelled label note)) err_sz

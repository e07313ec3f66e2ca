-- ===== src/NutServer/Socket.antt =====
-- The send helpers of components/nut_server/nut_server.c over a socket whose answers are given.
use mathlib.Core.List.{append-nil, append_assoc}
use esp32_nut_bluetti.Prelude.{
  ℕ, zero, suc, ◌≡◌, refl, ◌∙◌, ap, sym, Bool, true, false, List, [], ◌∷◌, ◌++◌, drop, take,
  take-append-drop,
}
use esp32_nut_bluetti.Prelude.Text.{Bytes}

-- What one call of `send` answers: a count of accepted bytes, at most those that were offered; -1 with
-- EINTR; or another failure.
pub data Outcome : Type 0 where
  accepted : ℕ → Outcome
  interrupted : Outcome
  failed : Outcome

-- A connection: all the bytes that the peer was sent, and the answers of the calls of `send` to come.
-- With no answer left the connection is lost.
pub record Conn : Type 0 where
  pub sent : Bytes
  pub answers : List Outcome

-- The loop of `send_all` over what is left of the text, with whether it returned 0.
unfoldable pub send_loop : List Outcome → Bytes → Bytes → Conn × Bool
send_loop answers sent [] = (record { sent = sent; answers = answers }, true)
send_loop [] sent (b ∷ text) = (record { sent = sent; answers = [] }, false)
send_loop (interrupted ∷ answers) sent (b ∷ text) = send_loop answers sent (b ∷ text)
send_loop (failed ∷ answers) sent (b ∷ text) = (record { sent = sent; answers = answers }, false)
send_loop (accepted zero ∷ answers) sent (b ∷ text) =
    (record { sent = sent; answers = answers }, false)
send_loop (accepted (suc n) ∷ answers) sent (b ∷ text) =
    send_loop answers (sent ++ take (suc n) (b ∷ text)) (drop (suc n) (b ∷ text))

unfoldable pub send_all : Conn → Bytes → Conn × Bool
unfolding send_loop
send_all conn text = send_loop conn.answers conn.sent text

-- Some first part of the text went out behind what was sent before; all of it, if 0 was returned.
abbrev pub Delivered : Bytes → Bytes → Conn × Bool → Type 0
Delivered before text r =
    (part : Bytes) × (rest : Bytes) × (text ≡ part ++ rest)
    × (r.0.sent ≡ before ++ part)
    × (r.1 ≡ true → rest ≡ [])

cut_short :
    (sent text : Bytes) (answers : List Outcome)
    → Delivered sent text (record { sent = sent; answers = answers }, false)
cut_short sent text answers = ([], text, refl, sym (append-nil sent), λ h. cc)

Delivered-more :
    (sent part rest : Bytes) (r : Conn × Bool)
    → Delivered (sent ++ part) rest r
    → Delivered sent (part ++ rest) r
Delivered-more sent part rest r (more, left, split, out, all) = (
  part ++ more,
  left,
  ap (λ l. part ++ l) split ∙ sym (append_assoc part more left),
  out ∙ append_assoc sent part more,
  all,
)

Delivered-of_eq :
    (sent text text' : Bytes) (r : Conn × Bool)
    → text ≡ text'
    → Delivered sent text r
    → Delivered sent text' r
Delivered-of_eq sent text text' r e d = rw (← e) d

send_loop-Delivered :
    (answers : List Outcome) (sent text : Bytes) → Delivered sent text (send_loop answers sent text)
unfolding send_loop
send_loop-Delivered answers sent [] = ([], [], refl, sym (append-nil sent), λ h. refl)
send_loop-Delivered [] sent (b ∷ text) = cut_short sent (b ∷ text) []
send_loop-Delivered (interrupted ∷ answers) sent (b ∷ text) =
    send_loop-Delivered answers sent (b ∷ text)
send_loop-Delivered (failed ∷ answers) sent (b ∷ text) = cut_short sent (b ∷ text) answers
send_loop-Delivered (accepted zero ∷ answers) sent (b ∷ text) = cut_short sent (b ∷ text) answers
send_loop-Delivered (accepted (suc n) ∷ answers) sent (b ∷ text) =
    let r = send_loop answers (sent ++ b ∷ take n text) (drop n text) in
    Delivered-of_eq sent _ (b ∷ text) r (ap (λ l. b ∷ l) (take-append-drop n text)) (
      Delivered-more sent (b ∷ take n text) (drop n text) r
        (send_loop-Delivered answers (sent ++ b ∷ take n text) (drop n text)))

-- However `send` splits the work, the peer gets a first part of the text, in order and once, behind
-- what it got before; and all of the text where `send_all` returns 0.
pub send_all-Delivered :
    (conn : Conn) (text : Bytes) → Delivered conn.sent text (send_all conn text)
unfolding send_all
send_all-Delivered conn text = send_loop-Delivered conn.answers conn.sent text

-- ===== src/NutServer/Client.antt =====
-- The receive loop of `client_task` in components/nut_server/nut_server.c: how the bytes of a client
-- become lines. The buffer is the text before its NUL, and `handle` is `handle_line` on the client's
-- state, with whether its result is not negative.
pub mod Lines
use esp32_nut_bluetti.Prelude.{
  ℕ, zero, suc, ◌-◌, Bool, true, false, Option, none, some, List, [], ◌∷◌, ◌++◌, if◌then◌else◌,
  ◌==◌, length, take, drop, min,
}
use esp32_nut_bluetti.Prelude.Text.{Bytes, codes}

abbrev pub rx_buf : ℕ
rx_buf = 512

abbrev pub newline : ℕ
newline = b'\n'

abbrev carriage_return : ℕ
carriage_return = b'\r'

-- The text that a C string function sees of a buffer: up to the first NUL.
unfoldable pub c_str : Bytes → Bytes
c_str [] = []
c_str (c ∷ buf) = let rest = c_str buf in if c == 0 then [] else c ∷ rest

-- `strchr(start, '\n')`: what stands before the newline and behind it.
unfoldable pub find_newline : Bytes → Option (Bytes × Bytes)
find_newline [] = none
find_newline (c ∷ start) =
    if c == newline
    then some ([], start)
    else elim (find_newline start) [ none ↦ none | some (line, rest) ↦ some (c ∷ line, rest) ]

-- A carriage return at the end of a line is cut off.
unfoldable pub strip_cr : Bytes → Bytes
strip_cr [] = []
strip_cr (c ∷ []) = if c == carriage_return then [] else c ∷ []
strip_cr (c ∷ d ∷ line) = c ∷ strip_cr (d ∷ line)

-- What the loop over the lines leaves: the client's state, the partial line, and whether the
-- connection stays open.
pub record Step {ℓ} (S : Type ℓ) : Type ℓ where
  pub state : S
  pub left : Bytes
  pub open_ : Bool

module _ {ℓ} {S : Type ℓ} (handle : S → Bytes → S × Bool) where
  -- A round of the loop below at what `strchr` found; `more` goes on behind the line.
  unfoldable pub line_round : S → Bytes → (S → Bytes → Step S) → Option (Bytes × Bytes) → Step S
  unfolding strip_cr
  line_round st start more none = record { state = st; left = start; open_ = true }
  line_round st start more (some (line, rest)) =
      let (st', goes_on) = handle st (strip_cr line) in
      let next = more st' rest in
      if goes_on then next else record { state = st'; left = rest; open_ = false }

  -- The loop over the complete lines in the buffer. Each round takes a line away, so as many rounds
  -- as the buffer has bytes are enough.
  unfoldable pub take_lines : ℕ → S → Bytes → Step S
  unfolding find_newline line_round
  take_lines zero st start = record { state = st; left = start; open_ = true }
  take_lines (suc rounds) st start = line_round st start (take_lines rounds) (find_newline start)

  -- One round of the outer loop with the bytes that `recv` returned. `too_long` is the reply where a
  -- line fills the buffer, which is emptied then.
  unfoldable pub receive : (S → S) → S → Bytes → Bytes → Step S
  unfolding take_lines c_str
  receive too_long st buf chunk =
      let text = c_str (buf ++ chunk) in
      let r = take_lines (length text) st text in
      if r.open_
      then (if length r.left == rx_buf - 1
          then record { state = too_long r.state; left = []; open_ = true }
          else r)
      else r

  -- The outer loop. The stream is what the client sends, and each size is how much `recv` returns of
  -- it, at most the free space; 0, and no size, end the connection.
  unfoldable pub client_loop : (S → S) → List ℕ → S → Bytes → Bytes → S
  unfolding receive
  client_loop too_long [] st buf stream = st
  client_loop too_long (size ∷ sizes) st buf stream =
      let n = min size (rx_buf - 1 - length buf) in
      let r = receive too_long st buf (take n stream) in
      let rest = client_loop too_long sizes r.state r.left (drop n stream) in
      if length (take n stream) == 0 then st else if r.open_ then rest else r.state

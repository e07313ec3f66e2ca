-- ===== src/NutServer/Client/Lines/Chunks.antt =====
-- The outer receive loop (nut_server.c) against the byte machine: neither the sizes that `recv` returns
-- nor the buffer that carries a partial line over can be seen in what `handle_line` is given.
use esp32_nut_bluetti.Prelude.{
  ℕ, zero, suc, ◌-◌, ◌<◌, ◌≤◌, ◌≡◌, refl, ◌∙◌, ap, Bool, true, false, inl, inr, List, [], ◌∷◌, ◌++◌,
  if◌then◌else◌, ◌==◌, arith, length, length-append, length-take, length-drop, take-append-drop,
  Bool-cases, take, drop, min,
}
use esp32_nut_bluetti.Prelude.Text.{Bytes}
use esp32_nut_bluetti.NutServer.Client.{rx_buf, newline, strip_cr, Step, receive, client_loop}
use esp32_nut_bluetti.NutServer.Client.Lines.{
  Without, Without-append, c_str-Without, finish_line, by_byte, by_byte-append, take_lines-by_byte,
}

-- No line of the stream, which starts with `k` bytes read already, fills the buffer.
abbrev pub AreShort : ℕ → Bytes → Type 0
AreShort k [] = k < rx_buf - 1
AreShort k (c ∷ stream) = (k < rx_buf - 1) × AreShort (if c == newline then 0 else suc k) stream

AreShort-now : (k : ℕ) (stream : Bytes) → AreShort k stream → k < rx_buf - 1
AreShort-now k [] h = h
AreShort-now k (c ∷ stream) h = h.0

-- What the buffer carries over: a partial line with no NUL in it.
abbrev IsPartial : Bytes → Type 0
IsPartial line = Without newline line × Without 0 line

-- The sizes that `recv` returns are not 0.
abbrev pub ArePositive : List ℕ → Type 0
ArePositive [] = Unit
ArePositive (size ∷ sizes) = (0 < size) × ArePositive sizes

Without-take : (x n : ℕ) (text : Bytes) → Without x text → Without x (take n text)
Without-take x zero text h = tt
Without-take x (suc n) [] h = tt
Without-take x (suc n) (c ∷ text) h = (h.0, Without-take x n text h.1)

Without-drop : (x n : ℕ) (text : Bytes) → Without x text → Without x (drop n text)
Without-drop x zero text h = h
Without-drop x (suc n) [] h = tt
Without-drop x (suc n) (c ∷ text) h = Without-drop x n text h.1

module _ {ℓ} {S : Type ℓ} (handle : S → Bytes → S × Bool) where
  -- What an open reference leaves: a partial line that the rest of the stream does not make too long.
  abbrev Leaves : Bytes → Step S → Type 0
  Leaves b s = s.open_ ≡ true → IsPartial s.left × AreShort (length s.left) b

  by_byte-Leaves :
      (st : S) (line a b : Bytes)
      → IsPartial line
      → Without 0 a
      → AreShort (length line) (a ++ b)
      → Leaves b (by_byte handle st line a)
  unfolding by_byte
  by_byte-Leaves st line [] b p clean short = λ _. (p, short)
  by_byte-Leaves st line (c ∷ a) b p clean short = elim (Bool-cases (c == newline)) [
    | inl e ↦ rw e (
        after (handle st (strip_cr line))
          (λ st'. by_byte-Leaves st' [] a b (tt, tt) clean.1 (rw e at short).1))
    | inr e ↦ rw e (
        by_byte-Leaves st (line ++ c ∷ []) a b
          (
            Without-append newline line (c ∷ []) p.0 (e, tt),
            Without-append 0 line (c ∷ []) p.1 (clean.0, tt),
          )
          clean.1 (longer e))
  ]
    where
      after :
          (r : S × Bool)
          → ((st' : S) → Leaves b (by_byte handle st' [] a))
          → Leaves b (finish_line handle r a (λ st'. by_byte handle st' [] a))
      after (st', true) leaves = leaves st'
      after (st', false) leaves = λ e. absurd (ground arith)

      longer : (c == newline) ≡ false → AreShort (length (line ++ c ∷ [])) (a ++ b)
      longer e =
          let grown : length (line ++ c ∷ []) ≡ suc (length line) =
            omega (arith, length-append line (c ∷ [])) in
          rw grown (rw e at short).1

  -- With the partial line carried over, what `recv` returned is read as the reference reads it.
  receive-by_byte :
      (too_long : S → S) (st : S) (buf chunk b : Bytes)
      → IsPartial buf
      → Without 0 chunk
      → AreShort (length buf) (chunk ++ b)
      → receive handle too_long st buf chunk ≡ by_byte handle st buf chunk
  unfolding receive
  receive-by_byte too_long st buf chunk b p clean short =
      rw (c_str-Without (buf ++ chunk) (Without-append 0 buf chunk p.1 clean)) (
        rw (take_lines-by_byte handle (length (buf ++ chunk)) st buf chunk p.0 (omega arith))
          (kept (by_byte handle st buf chunk) (by_byte-Leaves st buf chunk b p clean short)))
    where
      kept :
          (s : Step S)
          → Leaves b s
          → (if s.open_
              then (if length s.left == rx_buf - 1
                  then record { state = too_long s.state; left = []; open_ = true }
                  else s)
              else s)
            ≡ s
      kept s leaves = elim (Bool-cases s.open_) [
        | inr e ↦ rw e
        | inl e ↦ rw e (rw (not_full (leaves e).1))
      ]
        where
          not_full : AreShort (length s.left) b → (length s.left == rx_buf - 1) ≡ false
          not_full h = ground (arith, AreShort-now (length s.left) b h)

  -- One round, with what comes behind it as it is on the reference.
  round-by_byte :
      (too_long : S → S) (next : S → Bytes → S) (st : S) (buf chunk b : Bytes)
      → IsPartial buf
      → Without 0 chunk
      → AreShort (length buf) (chunk ++ b)
      → ((st' : S) (line : Bytes)
          → IsPartial line
          → AreShort (length line) b
          → next st' line ≡ (by_byte handle st' line b).state)
      → (let r = receive handle too_long st buf chunk in
          if r.open_ then next r.state r.left else r.state)
        ≡ (by_byte handle st buf (chunk ++ b)).state
  round-by_byte too_long next st buf chunk b p clean short same =
      rw
        (
          receive-by_byte too_long st buf chunk b p clean short,
          by_byte-append handle st buf chunk b,
        )
        (go (by_byte handle st buf chunk) (by_byte-Leaves st buf chunk b p clean short))
    where
      go :
          (r : Step S)
          → Leaves b r
          → (if r.open_ then next r.state r.left else r.state)
            ≡ (if r.open_ then (by_byte handle r.state r.left b).state else r.state)
      go r leaves = elim (Bool-cases r.open_) [
        | inr e ↦ rw e
        | inl e ↦ rw e (same r.state r.left (leaves e).0 (leaves e).1)
      ]

  no_bytes : (n : ℕ) (text : Bytes) → length text ≡ 0 → (length (take n text) == 0) ≡ true
  no_bytes n text e = ground (arith, length-take n text)

  some_bytes :
      (n : ℕ) (text : Bytes) → 0 < n → 0 < length text → (length (take n text) == 0) ≡ false
  some_bytes n text h k = ground (arith, length-take n text)

  -- With sizes that are not 0, at least as many as there are bytes, and with no line of the stream too
  -- long and no NUL in it, the loop leaves what the reference leaves on the whole stream.
  pub client_loop-by_byte :
      (too_long : S → S) (sizes : List ℕ) (st : S) (buf stream : Bytes)
      → ArePositive sizes
      → length stream ≤ length sizes
      → Without newline buf × Without 0 buf
      → Without 0 stream
      → AreShort (length buf) stream
      → client_loop handle too_long sizes st buf stream ≡ (by_byte handle st buf stream).state
  unfolding client_loop by_byte
  client_loop-by_byte too_long [] st buf [] pos enough p clean short = refl
  client_loop-by_byte too_long [] st buf (c ∷ stream) pos enough p clean short =
      absurd (omega arith)
  client_loop-by_byte too_long (size ∷ sizes) st buf [] pos enough p clean short =
      rw (no_bytes (min size (rx_buf - 1 - length buf)) [] refl)
  client_loop-by_byte too_long (size ∷ sizes) st buf (c ∷ stream) pos enough p clean short =
      let n : ℕ = min size (rx_buf - 1 - length buf) in
      let text : Bytes = c ∷ stream in
      let some_left : 0 < n = omega arith in
      let whole : take n text ++ drop n text ≡ text = take-append-drop n text in
      rw (some_bytes n text some_left (omega arith)) (
        round-by_byte too_long
          (λ st' line. client_loop handle too_long sizes st' line (drop n text)) st buf
          (take n text) (drop n text) p (Without-take 0 n text clean) (rw whole short)
          (λ st' line p' short'.
            client_loop-by_byte too_long sizes st' line (drop n text) pos.1
              (omega (arith, length-drop n text)) p' (Without-drop 0 n text clean) short')
        ∙ ap (λ t. (by_byte handle st buf t).state) whole)

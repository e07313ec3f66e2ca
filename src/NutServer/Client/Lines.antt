-- ===== src/NutServer/Client/Lines.antt =====
-- The receive loop (nut_server.c) hands over the lines of the stream, however `recv` cuts it.
pub mod Chunks
use mathlib.Core.List.{append-nil, append_assoc}
use esp32_nut_bluetti.Prelude.{
  ℕ, zero, suc, ◌+◌, ◌-◌, ◌<◌, ◌≤◌, ◌≡◌, ◌≢◌, refl, ◌∙◌, ap, sym, Bool, true, false, not, ◌&&◌,
  ◌||◌, ◌⊎◌, inl, inr, Option, none, some, List, [], ◌∷◌, ◌++◌, if◌then◌else◌, ◌==◌, arith, length,
  length-append, Bool-cases, Option-cases, take, drop, min,
}
use esp32_nut_bluetti.Prelude.Text.{Bytes}
use esp32_nut_bluetti.NutServer.Client.{
  rx_buf, newline, c_str, find_newline, strip_cr, Step, take_lines, receive, client_loop,
}

-- No NUL and no newline; no NUL; no newline in a partial line.
abbrev pub Without : ℕ → Bytes → Type 0
Without x [] = Unit
Without x (c ∷ text) = ((c == x) ≡ false) × Without x text

Without-append : (x : ℕ) (a b : Bytes) → Without x a → Without x b → Without x (a ++ b)
Without-append x [] b h k = k
Without-append x (c ∷ a) b h k = (h.0, Without-append x a b h.1 k)

c_str-Without : (text : Bytes) → Without 0 text → c_str text ≡ text
unfolding c_str
c_str-Without [] h = refl
c_str-Without (c ∷ text) h = ground (arith, c_str-Without text h.1)

find_newline-Without : (text : Bytes) → Without newline text → find_newline text ≡ none
unfolding find_newline
find_newline-Without [] h = refl
find_newline-Without (c ∷ text) h = ground (arith, find_newline-Without text h.1)

find_newline-append :
    (line rest : Bytes)
    → Without newline line
    → find_newline (line ++ (newline ∷ rest)) ≡ some (line, rest)
unfolding find_newline
find_newline-append [] rest h = refl
find_newline-append (c ∷ line) rest h = ground (arith, find_newline-append line rest h.1)

-- Where a text with no newline in its first part breaks next.
abbrev pub Break : Bytes → Type 0
Break text =
    Without newline text
    ⊎ ((line : Bytes) × (rest : Bytes) × (text ≡ line ++ (newline ∷ rest)) × Without newline line)

Break-cons : (c : ℕ) (text : Bytes) → (c == newline) ≡ false → Break text → Break (c ∷ text)
Break-cons c text e (inl none_left) = inl (e, none_left)
Break-cons c text e (inr (line, rest, split, clean)) =
    inr (c ∷ line, rest, ap (λ l. c ∷ l) split, (e, clean))

next-Break : (text : Bytes) → Break text
next-Break [] = inl tt
next-Break (c ∷ text) = elim (Bool-cases (c == newline)) [
  | inl e ↦ inr ([], text, ap (λ (d : ℕ). d ∷ text) (ground arith), tt)
  | inr e ↦ Break-cons c text e (next-Break text)
]

module _ {ℓ} {S : Type ℓ} (handle : S → Bytes → S × Bool) where
  -- What a finished line does: `more` goes on behind it while the connection stays open.
  abbrev pub finish_line : S × Bool → Bytes → (S → Step S) → Step S
  finish_line (st, true) rest more = more st
  finish_line (st, false) rest more = record { state = st; left = rest; open_ = false }

  -- The lines of a stream as a machine that reads one byte at a time: the reference.
  pub by_byte : S → Bytes → Bytes → Step S
  by_byte st line [] = record { state = st; left = line; open_ = true }
  by_byte st line (c ∷ stream) =
      let ended = finish_line (handle st (strip_cr line)) stream (λ st'. by_byte st' [] stream) in
      let longer = by_byte st (line ++ c ∷ []) stream in if c == newline then ended else longer

  by_byte-Without :
      (st : S) (line part stream : Bytes)
      → Without newline part
      → by_byte st line (part ++ stream) ≡ by_byte st (line ++ part) stream
  unfolding by_byte
  by_byte-Without st line [] stream h = rw append-nil
  by_byte-Without st line (c ∷ part) stream h =
      rw h.0 (by_byte-Without st (line ++ c ∷ []) part stream h.1 ∙ rw append_assoc)

  pub by_byte-append :
      (st : S) (line a b : Bytes)
      → (by_byte st line (a ++ b)).state ≡ (
          if (by_byte st line a).open_
          then (by_byte (by_byte st line a).state (by_byte st line a).left b).state
          else (by_byte st line a).state)
  unfolding by_byte
  by_byte-append st line [] b = refl
  by_byte-append st line (c ∷ a) b = elim (Bool-cases (c == newline)) [
    | inr e ↦ rw e (by_byte-append st (line ++ c ∷ []) a b)
    | inl e ↦ rw e (after (handle st (strip_cr line)) (λ st'. by_byte-append st' [] a b))
  ]
    where
      after :
          (r : S × Bool)
          → ((st' : S)
              → (by_byte st' [] (a ++ b)).state ≡ (
                  if (by_byte st' [] a).open_
                  then (by_byte (by_byte st' [] a).state (by_byte st' [] a).left b).state
                  else (by_byte st' [] a).state))
          → (finish_line r (a ++ b) (λ st'. by_byte st' [] (a ++ b))).state ≡ (
              let s = finish_line r a (λ st'. by_byte st' [] a) in
              if s.open_ then (by_byte s.state s.left b).state else s.state)
      after (st', true) same = same st'
      after (st', false) same = refl

  by_byte-line :
      (st : S) (line part rest : Bytes)
      → Without newline part
      → by_byte st line (part ++ (newline ∷ rest))
        ≡ finish_line (handle st (strip_cr (line ++ part))) rest (λ st'. by_byte st' [] rest)
  unfolding by_byte
  by_byte-line st line part rest h = by_byte-Without st line part (newline ∷ rest) h

  by_byte-part :
      (st : S) (line part : Bytes)
      → Without newline part
      → by_byte st line part ≡ record { state = st; left = line ++ part; open_ = true }
  unfolding by_byte
  by_byte-part st line part h =
      ap (by_byte st line) (sym (append-nil part)) ∙ by_byte-Without st line part [] h

  -- Enough rounds of the loop over the lines leave what the reference leaves.
  pub take_lines-by_byte :
      (rounds : ℕ) (st : S) (line text : Bytes)
      → Without newline line
      → length (line ++ text) ≤ rounds
      → take_lines handle rounds st (line ++ text) ≡ by_byte st line text
  unfolding take_lines by_byte
  take_lines-by_byte zero st [] [] h k = refl
  take_lines-by_byte zero st [] (c ∷ text) h k = absurd (omega arith)
  take_lines-by_byte zero st (c ∷ line) text h k = absurd (omega arith)
  take_lines-by_byte (suc rounds) st line text h k = elim (next-Break text) [
    | inl clean ↦
        rw (find_newline-Without (line ++ text) (Without-append newline line text h clean))
          (sym (by_byte-part st line text clean))
    | inr (part, rest, split, clean) ↦
        let whole = Without-append newline line part h clean in
        let joined : line ++ text ≡ (line ++ part) ++ (newline ∷ rest) =
          ap (λ t. line ++ t) split ∙ sym (append_assoc line part (newline ∷ rest)) in
        let shorter : length rest ≤ rounds =
          omega (arith, ap length joined, length-append (line ++ part) (newline ∷ rest)) in
        rw joined (
          rw (find_newline-append (line ++ part) rest whole) (
            rw split (
              rw (by_byte-line st line part rest clean) (
                finish (handle st (strip_cr (line ++ part))) rest
                  (λ st'. take_lines-by_byte rounds st' [] rest tt shorter)))))
  ]
    where
      finish :
          (r : S × Bool) (rest : Bytes)
          → ((st' : S) → take_lines handle rounds st' rest ≡ by_byte st' [] rest)
          → (let (st', goes_on) = r in
              let next = take_lines handle rounds st' rest in
              if goes_on then next else record { state = st'; left = rest; open_ = false })
            ≡ finish_line r rest (λ st'. by_byte st' [] rest)
      finish (st', true) rest same = same st'
      finish (st', false) rest same = refl

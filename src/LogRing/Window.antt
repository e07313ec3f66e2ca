-- ===== src/LogRing/Window.antt =====
-- The ring of log_ring.c against the plain history of what was written.
use mathlib.Core.List.{append-nil}
use esp32_nut_bluetti.Prelude.{
  ℕ, zero, suc, ◌+◌, ◌-◌, ◌%◌, ◌<◌, ◌≤◌, ◌≡◌, refl, ◌∙◌, ap, sym, false, [], ◌∷◌, ◌++◌, ◌==◌, ltb,
  arith, length, take, drop, min, get_or, take-append-drop, Bool-cases, inl, inr, length-append,
  length-take, length-drop,
}
use esp32_nut_bluetti.Prelude.Text.{Bytes}
use esp32_nut_bluetti.LogRing.{
  ring_sz, Ring, memcpy_from, kept_tail, copy_in, ring_write, copy_out, avail_of, first_of,
  log_ring_read,
}

-- The ring holds the newest bytes of a history, each at its index modulo the size.
pub record Holds (r : Ring) (history : Bytes) : Type 0 where
  pub at_head : r.head ≡ length history
  pub bytes :
      (k : ℕ)
      → k < length history
      → length history ≤ k + ring_sz
      → r.buf (k % ring_sz) ≡ get_or history k 0

get_or-take : (n : ℕ) (xs : Bytes) (j : ℕ) → j < n → get_or (take n xs) j 0 ≡ get_or xs j 0
get_or-take zero xs j h = absurd (omega arith)
get_or-take (suc n) [] j h = refl
get_or-take (suc n) (x ∷ xs) zero h = refl
get_or-take (suc n) (x ∷ xs) (suc j) h = get_or-take n xs j (omega arith)

get_or-drop : (n : ℕ) (xs : Bytes) (j : ℕ) → get_or (drop n xs) j 0 ≡ get_or xs (n + j) 0
get_or-drop zero xs j = ap (λ i. get_or xs i 0) (omega arith)
get_or-drop (suc n) [] j = refl
get_or-drop (suc n) (x ∷ xs) j = get_or-drop n xs j ∙ ap (λ i. get_or (x ∷ xs) i 0) (step n j)
  where
    step : (n j : ℕ) → suc (n + j) ≡ suc n + j
    step n j = omega arith

get_or-old : (xs ys : Bytes) (k : ℕ) → k < length xs → get_or (xs ++ ys) k 0 ≡ get_or xs k 0
get_or-old [] ys k h = absurd (omega arith)
get_or-old (x ∷ xs) ys zero h = refl
get_or-old (x ∷ xs) ys (suc k) h = get_or-old xs ys k (omega arith)

get_or-new : (xs ys : Bytes) (j : ℕ) → get_or (xs ++ ys) (length xs + j) 0 ≡ get_or ys j 0
get_or-new [] ys j = ap (λ i. get_or ys i 0) (omega arith)
get_or-new (x ∷ xs) ys j =
    ap (λ i. get_or (x ∷ (xs ++ ys)) i 0) (step (length xs) j) ∙ get_or-new xs ys j
  where
    step : (n j : ℕ) → suc n + j ≡ suc (n + j)
    step n j = omega arith

-- The byte that a write puts at `i`: the one whose place in the line is `j`.
copy_in-new :
    (buf : ℕ → ℕ) (off : ℕ) (line : Bytes) (i j : ℕ)
    → off < ring_sz
    → length line ≤ ring_sz
    → j < length line
    → i ≡ (off + j) % ring_sz
    → copy_in buf off line i ≡ get_or line j 0
unfolding copy_in
copy_in-new buf off line i j h short inside at = elim (Bool-cases (ltb j first)) [
  | inl e ↦
      let before : j < first = ground (arith, e) in
      let value : get_or (take first line) (i - off) 0 ≡ get_or line j 0 =
        ap (λ k. get_or (take first line) k 0) (omega arith) ∙ get_or-take first line j before in
      ground (arith, value, length-take first line, length-drop first line)
  | inr e ↦
      let behind : first ≤ j = ground (arith, e) in
      let value : get_or (drop first line) (i - 0) 0 ≡ get_or line j 0 =
        get_or-drop first line (i - 0) ∙ ap (λ k. get_or line k 0) (omega arith) in
      ground (arith, value, length-take first line, length-drop first line)
]
  where
    first : ℕ
    first = min (ring_sz - off) (length line)

copy_in-old :
    (buf : ℕ → ℕ) (off : ℕ) (line : Bytes) (i d : ℕ)
    → off < ring_sz
    → 0 < d
    → d + length line ≤ ring_sz
    → i ≡ (off + (ring_sz - d)) % ring_sz
    → copy_in buf off line i ≡ buf i
unfolding copy_in
copy_in-old buf off line i d h some_back room at =
    let first = min (ring_sz - off) (length line) in
    ground (arith, length-take first line, length-drop first line)

length-kept_tail : (line : Bytes) → length (kept_tail line) ≡ min ring_sz (length line)
length-kept_tail line = ground (arith, length-drop (length line - ring_sz) line)

copy_in-Holds :
    (r : Ring) (history kept : Bytes)
    → length kept ≤ ring_sz
    → Holds r history
    → Holds
        (record { buf = copy_in r.buf (r.head % ring_sz) kept; head = r.head + length kept })
        (history ++ kept)
copy_in-Holds r history kept short held = record { at_head = held_head; bytes = each }
  where
    size : length (history ++ kept) ≡ length history + length kept
    size = length-append history kept

    held_head : r.head + length kept ≡ length (history ++ kept)
    held_head = omega (arith, size, held.at_head)

    low : r.head % ring_sz < ring_sz
    low = omega arith

    each :
        (k : ℕ)
        → k < length (history ++ kept)
        → length (history ++ kept) ≤ k + ring_sz
        → copy_in r.buf (r.head % ring_sz) kept (k % ring_sz) ≡ get_or (history ++ kept) k 0
    each k inside recent = elim (Bool-cases (ltb k (length history))) [
      | inl e ↦
          let old : k < length history = ground (arith, e) in
          copy_in-old r.buf (r.head % ring_sz) kept (k % ring_sz) (length history - k) low
            (omega arith) (omega (arith, size)) (omega (arith, held.at_head, size))
          ∙ held.bytes k old (omega (arith, size))
          ∙ sym (get_or-old history kept k old)
      | inr e ↦
          let new : length history ≤ k = ground (arith, e) in
          copy_in-new r.buf (r.head % ring_sz) kept (k % ring_sz) (k - length history) low short
            (omega (arith, size)) (omega (arith, held.at_head, size))
          ∙ sym (get_or-new history kept (k - length history))
          ∙ ap (λ i. get_or (history ++ kept) i 0) (omega arith)
    ]

-- A write appends to the history the last bytes of the line, at most the ring's size of them.
pub ring_write-Holds :
    (r : Ring) (history line : Bytes)
    → Holds r history
    → Holds (ring_write r line) (history ++ kept_tail line)
unfolding ring_write
ring_write-Holds r history [] held = rw append-nil held
ring_write-Holds r history (c ∷ rest) held =
    let some_bytes : (length (c ∷ rest) == 0) ≡ false = ground arith in
    rw some_bytes (
      copy_in-Holds r history (kept_tail (c ∷ rest)) (omega (arith, length-kept_tail (c ∷ rest)))
        held)

drop-get_or : (p : ℕ) (xs : Bytes) → p < length xs → drop p xs ≡ get_or xs p 0 ∷ drop (suc p) xs
drop-get_or p [] h = absurd (omega arith)
drop-get_or zero (x ∷ xs) h = refl
drop-get_or (suc p) (x ∷ xs) h = drop-get_or p xs (omega arith)

drop_none : (n : ℕ) → drop {A = ℕ} n [] ≡ []
drop_none zero = refl
drop_none (suc n) = refl

drop-drop : (p q : ℕ) (xs : Bytes) → drop (p + q) xs ≡ drop q (drop p xs)
drop-drop zero q xs = ap (λ n. drop n xs) (omega arith)
drop-drop (suc p) q [] = drop_none (suc p + q) ∙ sym (drop_none q)
drop-drop (suc p) q (x ∷ xs) = ap (λ n. drop n (x ∷ xs)) (step p q) ∙ drop-drop p q xs
  where
    step : (p q : ℕ) → suc p + q ≡ suc (p + q)
    step p q = omega arith

take_enough : (n : ℕ) (xs : Bytes) → length xs ≤ n → take n xs ≡ xs
take_enough zero [] h = refl
take_enough zero (x ∷ xs) h = absurd (omega arith)
take_enough (suc n) [] h = refl
take_enough (suc n) (x ∷ xs) h = ap (λ l. x ∷ l) (take_enough n xs (omega arith))

-- What one `memcpy` out of the ring gives, where its bytes are those of the history from `p` on.
memcpy_from-drop :
    (buf : ℕ → ℕ) (history : Bytes) (off n p : ℕ)
    → p + n ≤ length history
    → ((j : ℕ) → j < n → buf (off + j) ≡ get_or history (p + j) 0)
    → memcpy_from buf off n ≡ take n (drop p history)
unfolding memcpy_from
memcpy_from-drop buf history off zero p room same = refl
memcpy_from-drop buf history off (suc n) p room same =
    let here : buf off ≡ get_or history p 0 =
      ap buf (omega arith) ∙ same 0 (omega arith) ∙ ap (λ i. get_or history i 0) (omega arith) in
    let more = memcpy_from-drop buf history (suc off) n (suc p) (omega arith) (λ j h.
      ap buf (omega arith)
      ∙ same (suc j) (omega arith)
      ∙ ap (λ i. get_or history i 0) (omega arith)) in
    rw (drop-get_or p history (omega arith))
      (ap (λ (x : ℕ). x ∷ memcpy_from buf (suc off) n) here ∙ ap (λ l. get_or history p 0 ∷ l) more)

-- The newest bytes of the ring, wherever they wrap.
copy_out-drop :
    (r : Ring) (history : Bytes) (p : ℕ)
    → Holds r history
    → p ≤ length history
    → length history ≤ p + ring_sz
    → copy_out r.buf (p % ring_sz) (length history - p) ≡ drop p history
unfolding copy_out
copy_out-drop r history p held inside recent =
    ap (λ l. l ++ memcpy_from r.buf 0 (avail - first)) start
    ∙ ap (λ l. take first (drop p history) ++ l) (wrapped ∙ last)
    ∙ take-append-drop first (drop p history)
  where
    avail : ℕ
    avail = length history - p

    first : ℕ
    first = min (ring_sz - p % ring_sz) avail

    start : memcpy_from r.buf (p % ring_sz) first ≡ take first (drop p history)
    start =
        memcpy_from-drop r.buf history (p % ring_sz) first p (omega arith)
          (λ j h. ap r.buf (omega arith) ∙ held.bytes (p + j) (omega arith) (omega arith))

    wrapped : memcpy_from r.buf 0 (avail - first) ≡ take (avail - first) (drop (p + first) history)
    wrapped =
        memcpy_from-drop r.buf history 0 (avail - first) (p + first) (omega arith)
          (λ j h. ap r.buf (omega arith) ∙ held.bytes (p + first + j) (omega arith) (omega arith))

    last : take (avail - first) (drop (p + first) history) ≡ drop first (drop p history)
    last =
        take_enough (avail - first) (drop (p + first) history)
          (omega (arith, length-drop (p + first) history))
        ∙ drop-drop p first history

-- How many bytes a reader gets that has seen `from` bytes and has room for `cap`.
abbrev pub unread : ℕ → ℕ → ℕ → ℕ
unread from cap head = min cap (min ring_sz (head - from))

-- A ring that holds a history gives a reader the newest bytes of it that the reader has not seen, as
-- many as the ring still has and the buffer takes, in order, and the length of the history as the place
-- to go on from; a write appends to the history the last bytes of the line, at most the ring's size of
-- them.
pub log_ring_lem :
    (r : Ring) (history line : Bytes) (from cap : ℕ)
    → Holds r history
    → (log_ring_read r from cap
        ≡ (drop (length history - unread from cap (length history)) history, length history))
      × Holds (ring_write r line) (history ++ kept_tail line)
unfolding log_ring_read
log_ring_lem r history line from cap held = (read, ring_write-Holds r history line held)
  where
    h : ℕ
    h = length history

    p : ℕ
    p = h - unread from cap h

    start : first_of from cap r.head ≡ p
    start = let same = held.at_head in ground arith

    avail : avail_of from cap r.head ≡ h - p
    avail = let same = held.at_head in ground arith

    sum : p + (h - p) ≡ h
    sum = omega arith

    read : log_ring_read r from cap ≡ (drop p history, h)
    read = rw (start, avail, copy_out-drop r history p held (omega arith) (omega arith), sum)

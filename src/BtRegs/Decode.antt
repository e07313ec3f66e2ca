-- ===== src/BtRegs/Decode.antt =====
-- The decoding of a Modbus response in components/bluetti_ble/bt_regs.c: `reg`, `swap_string` and the
-- serial number of `bt_regs_apply`. -1, a register that the response does not hold, is `none`.
use esp32_nut_bluetti.Prelude.{
  ℕ, zero, suc, ◌+◌, ◌-◌, ◌*◌, ◌/◌, ◌%◌, ◌^◌, ◌<◌, ◌≤◌, ◌≡◌, refl, ◌∙◌, ap, false, ◌||◌, Option,
  none, some, List, [], ◌∷◌, ◌++◌, if◌then◌else◌, ◌==◌, ltb, leb, arith, length, get_elem?, get_or,
}
use esp32_nut_bluetti.Prelude.Text.{Bytes}

-- `reg`
unfoldable pub reg : ℕ → Bytes → ℕ → Option ℕ
reg start bytes addr =
    let idx = (addr - start) * 2 in
    if ltb addr start
    then none
    else if leb (length bytes) (idx + 1)
    then none
    else some (get_or bytes idx 0 * 256 + get_or bytes (idx + 1) 0)

-- A byte is appended unless it is NUL.
abbrev push_char : Bytes → ℕ → Bytes
push_char out c = if c == 0 then out else out ++ c ∷ []

-- What one word appends, the low byte first.
abbrev push_word : Bytes → ℕ → Bytes
push_word out v = push_char (push_char out (v % 256)) (v / 256 % 256)

-- The loop of `swap_string` from word `addr` on, which stops at a missing word or a full buffer.
unfoldable pub swap_words : ℕ → Bytes → ℕ → ℕ → ℕ → Bytes → Bytes
swap_words start bytes addr zero out_sz out = out
swap_words start bytes addr (suc words) out_sz out =
    if ltb (length out + 2) out_sz
    then elim (reg start bytes addr) [
      | none ↦ out
      | some v ↦ swap_words start bytes (addr + 1) words out_sz (push_word out v)
    ]
    else out

-- The spaces at the end of a text are cut off; no NUL is in it.
unfoldable pub strip_end : Bytes → Bytes
strip_end [] = []
strip_end (c ∷ text) =
    let rest = strip_end text in
    elim rest [ [] ↦ if c == b' ' || c == 0 then [] else c ∷ [] | d ∷ more ↦ c ∷ d ∷ more ]

-- `swap_string`
unfoldable pub swap_string : ℕ → Bytes → ℕ → ℕ → ℕ → Bytes
unfolding swap_words strip_end
swap_string start bytes addr words out_sz = strip_end (swap_words start bytes addr words out_sz [])

-- The loop over the words of the serial number, from word `w` - 1 down to word 0.
unfoldable pub serial_from : ℕ → Bytes → ℕ → ℕ → ℕ → Option ℕ
serial_from start bytes addr zero sn = some sn
serial_from start bytes addr (suc w) sn = elim (reg start bytes (addr + w)) [
  | none ↦ none
  | some x ↦ serial_from start bytes addr w (sn * 65536 % 2 ^ 64 + x)
]

-- The serial number of four words.
unfoldable pub serial : ℕ → Bytes → ℕ → Option ℕ
unfolding serial_from
serial start bytes addr = serial_from start bytes addr 4 0

-- A response as the power station builds it: each word with its high byte first.
pub encode : List ℕ → Bytes
encode [] = []
encode (w ∷ ws) = (w / 256) ∷ (w % 256) ∷ encode ws

length-encode : (ws : List ℕ) → length (encode ws) ≡ length ws * 2
unfolding encode
length-encode [] = refl
length-encode (w ∷ ws) = omega (arith, length-encode ws)

next_word : (i : ℕ) → suc i * 2 ≡ suc (suc (i * 2))
next_word i = omega arith

encode-high : (ws : List ℕ) (i : ℕ) → get_or (encode ws) (i * 2) 0 ≡ get_or ws i 0 / 256
unfolding encode
encode-high [] i = omega arith
encode-high (w ∷ ws) zero = refl
encode-high (w ∷ ws) (suc i) = rw (next_word i) (encode-high ws i)

next_low : (i : ℕ) → suc i * 2 + 1 ≡ suc (suc (i * 2 + 1))
next_low i = omega arith

encode-low : (ws : List ℕ) (i : ℕ) → get_or (encode ws) (i * 2 + 1) 0 ≡ get_or ws i 0 % 256
unfolding encode
encode-low [] i = omega arith
encode-low (w ∷ ws) zero = refl
encode-low (w ∷ ws) (suc i) = rw (next_low i) (encode-low ws i)

get_elem?-get_or : (ws : List ℕ) (i : ℕ) → i < length ws → get_elem? ws i ≡ some (get_or ws i 0)
get_elem?-get_or [] i h = absurd (omega arith)
get_elem?-get_or (w ∷ ws) zero h = refl
get_elem?-get_or (w ∷ ws) (suc i) h = get_elem?-get_or ws i (omega arith)

get_elem?-end : (ws : List ℕ) (i : ℕ) → length ws ≤ i → get_elem? ws i ≡ none
get_elem?-end [] i h = refl
get_elem?-end (w ∷ ws) zero h = absurd (omega arith)
get_elem?-end (w ∷ ws) (suc i) h = get_elem?-end ws i (omega arith)

-- In a response of any words from register `start` on, the register `addr` is read as its word, and as
-- missing where it stands before or behind them.
pub reg-encode :
    (start addr : ℕ) (ws : List ℕ)
    → reg start (encode ws) addr ≡ (if ltb addr start then none else get_elem? ws (addr - start))
unfolding reg
reg-encode start addr ws =
    let i = addr - start in
    let size = length-encode ws in
    let high = encode-high ws i in
    let low = encode-low ws i in
    ground (arith, size, high, low, get_elem?-get_or ws i, get_elem?-end ws i)

-- The four words of a number below 2^64, the least significant first.
abbrev pub words : ℕ → List ℕ
words n =
    (n % 65536)
    ∷ (n / 65536 % 65536)
    ∷ (n / 65536 / 65536 % 65536)
    ∷ (n / 65536 / 65536 / 65536)
    ∷ []

serial_step :
    (start addr w sn x : ℕ) (bytes : Bytes)
    → reg start bytes (addr + w) ≡ some x
    → serial_from start bytes addr (suc w) sn
      ≡ serial_from start bytes addr w (sn * 65536 % 2 ^ 64 + x)
unfolding serial_from
serial_step start addr w sn x bytes e = rw (e, serial_from)

reg-words : (start i : ℕ) (ws : List ℕ) → reg start (encode ws) (start + i) ≡ get_elem? ws i
reg-words start i ws =
    let not_below : ltb (start + i) start ≡ false = ground arith in
    let back : start + i - start ≡ i = omega arith in
    reg-encode start (start + i) ws ∙ rw (not_below, back)

-- A serial number below 2^64 is read back from the four words that hold it.
pub serial-words : (start n : ℕ) → n < 2 ^ 64 → serial start (encode (words n)) start ≡ some n
unfolding serial serial_from
serial-words start n h =
    let ws = words n in
    let step = λ (w sn x : ℕ) (e : get_elem? ws w ≡ some x).
      serial_step start start w sn x (encode ws) (reg-words start w ws ∙ e) in
    step 3 0 _ refl ∙ step 2 _ _ refl ∙ step 1 _ _ refl ∙ step 0 _ _ refl ∙ ap some (omega arith)

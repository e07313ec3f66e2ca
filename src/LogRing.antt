-- ===== src/LogRing.antt =====
-- components/provisioning/log_ring.c: the ring of log bytes that the web page reads. The critical
-- section is held for the whole of a write and of a read, so each is one function on the ring.
pub mod Window
pub mod Ansi
mod Tests
use esp32_nut_bluetti.Prelude.{
  ℕ, zero, suc, ◌+◌, ◌-◌, ◌%◌, Bool, ◌&&◌, List, [], ◌∷◌, ◌++◌, if◌then◌else◌, ◌==◌, ltb, leb,
  length, take, drop, min, get_or,
}
use esp32_nut_bluetti.Prelude.Text.{Bytes}

abbrev pub ring_sz : ℕ
ring_sz = 12288

-- The bytes and `head` of the static `r`. An array is its byte at each index.
pub record Ring : Type 0 where
  pub buf : ℕ → ℕ
  pub head : ℕ

-- `memcpy(&buf[off], bytes, length)`
abbrev pub memcpy_to : (ℕ → ℕ) → ℕ → Bytes → ℕ → ℕ
memcpy_to buf off bytes i =
    if leb off i && ltb i (off + length bytes) then get_or bytes (i - off) 0 else buf i

-- `memcpy(out, &buf[off], n)`
unfoldable pub memcpy_from : (ℕ → ℕ) → ℕ → ℕ → Bytes
memcpy_from buf off zero = []
memcpy_from buf off (suc n) = buf off ∷ memcpy_from buf (suc off) n

-- Only the tail of a huge line is kept.
abbrev pub kept_tail : Bytes → Bytes
kept_tail bytes = if ltb ring_sz (length bytes) then drop (length bytes - ring_sz) bytes else bytes

-- The two copies of `ring_write`.
unfoldable pub copy_in : (ℕ → ℕ) → ℕ → Bytes → ℕ → ℕ
copy_in buf off bytes i =
    let first = min (ring_sz - off) (length bytes) in
    let wrapped = memcpy_to (memcpy_to buf off (take first bytes)) 0 (drop first bytes) i in
    let straight = memcpy_to buf off (take first bytes) i in
    if ltb first (length bytes) then wrapped else straight

-- `ring_write`
unfoldable pub ring_write : Ring → Bytes → Ring
ring_write r bytes =
    let kept = kept_tail bytes in
    if length bytes == 0
    then r
    else record { buf = copy_in r.buf (r.head % ring_sz) kept; head = r.head + length kept }

-- The two copies of `log_ring_read`.
unfoldable pub copy_out : (ℕ → ℕ) → ℕ → ℕ → Bytes
unfolding memcpy_from
copy_out buf off avail =
    let first = min (ring_sz - off) avail in
    memcpy_from buf off first ++ memcpy_from buf 0 (avail - first)

-- `from` after the tests against the oldest byte and the head.
abbrev pub clamp : ℕ → ℕ → ℕ
clamp from head =
    let oldest = if ltb ring_sz head then head - ring_sz else 0 in
    let newer = if ltb from oldest then oldest else from in if ltb head newer then head else newer

-- `avail` and `from` behind the test against the buffer.
abbrev pub avail_of : ℕ → ℕ → ℕ → ℕ
avail_of from cap head = let all = head - clamp from head in if ltb cap all then cap else all

abbrev pub first_of : ℕ → ℕ → ℕ → ℕ
first_of from cap head =
    let start = clamp from head in if ltb cap (head - start) then head - cap else start

-- `log_ring_read`: the bytes, and `*next`.
unfoldable pub log_ring_read : Ring → ℕ → ℕ → Bytes × ℕ
log_ring_read r from cap =
    let start = first_of from cap r.head in
    let avail = avail_of from cap r.head in (copy_out r.buf (start % ring_sz) avail, start + avail)

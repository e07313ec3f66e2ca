-- ===== src/BtSession/Feed/Pieces.antt =====
-- Notifications are pieces of a stream of AES frames: however the stream is cut, `bt_session_feed`
-- (bt_session.c) hands over the same messages.
use mathlib.Core.List.{append-nil, append_assoc}
use esp32_nut_bluetti.Prelude.{
  ℕ, zero, suc, ◌+◌, ◌≡◌, ◌<◌, ◌≤◌, refl, ◌∙◌, ap, sym, true, false, List, [], ◌∷◌, ◌++◌, ltb,
  arith, length, drop, length-append, length-drop, Bool-cases, inl, inr,
}
use esp32_nut_bluetti.Prelude.Text.{Bytes}
use esp32_nut_bluetti.BtCrypto.{Crypto}
use esp32_nut_bluetti.BtSession.State.{Session, rx_max}
use esp32_nut_bluetti.BtSession.Cipher.{framed_len}
use esp32_nut_bluetti.BtSession.Modbus.{handle_modbus}
use esp32_nut_bluetti.BtSession.Feed.{drain_frames, feed}
use esp32_nut_bluetti.BtSession.Feed.Frames.{
  Framed, AreFramed, waits, IsPartial, flatten, deliver, set_rx, IsSecure, handle_modbus-keys,
  deliver-rx, framed_len-append, waits-append, waits-frame, cut-take, cut-drop, cut-prefix,
  drain_frames-step, drain_frames-waits, deliver-append,
}

-- What the loop leaves of a stream whose beginning is in the buffer: the whole frames in it are
-- handed over, and the rest of it is a beginning of the rest of the stream.
pub record Drained (c : Crypto) (cap : ℕ) (s s' : Session) (b : Bytes) (fs : List Framed)
    (left : Bytes) : Type 0 where
  pub done : List Framed
  pub todo : List Framed
  pub parts : fs ≡ done ++ todo
  pub rest : Bytes
  pub after : s' ≡ set_rx (deliver s done) rest
  pub stream : rest ++ b ≡ flatten todo ++ left
  pub short : length rest ≤ cap
  pub stuck : waits rest ≡ true
  pub framed : AreFramed c s.secure_key cap todo

-- A buffer that waits, as a result of the loop.
waiting :
    (c : Crypto) (cap rounds : ℕ) (s : Session) (b : Bytes) (fs : List Framed) (left : Bytes)
    → s.have_secure ≡ true
    → waits s.rx ≡ true
    → s.rx ++ b ≡ flatten fs ++ left
    → length s.rx ≤ cap
    → AreFramed c s.secure_key cap fs
    → Drained c cap s (drain_frames c rounds s) b fs left
unfolding deliver
waiting c cap rounds s b fs left secure stuck split short framed = record {
  done = [];
  todo = fs;
  parts = refl;
  rest = s.rx;
  after = drain_frames-waits c rounds s secure stuck;
  stream = split;
  short = short;
  stuck = stuck;
  framed = framed;
}

handle_modbus-IsSecure : (s : Session) (f : Bytes) → IsSecure s → IsSecure (handle_modbus s f)
handle_modbus-IsSecure s f secure =
    let keys = handle_modbus-keys s f in (keys.0 ∙ secure.0, keys.1 ∙ secure.1, keys.2 ∙ secure.2)

-- A part of the first frame waits.
waiting_part :
    (c : Crypto) (cap rounds : ℕ) (s : Session) (b : Bytes) (f : Framed) (fs : List Framed)
    (left : Bytes)
    → IsSecure s
    → length s.rx < length f.frame
    → s.rx ++ b ≡ flatten (f ∷ fs) ++ left
    → AreFramed c s.secure_key cap (f ∷ fs)
    → Drained c cap s (drain_frames c rounds s) b (f ∷ fs) left
waiting_part c cap rounds s b f fs left secure less split framed =
    let behind = split ∙ append_assoc f.frame (flatten fs) left in
    let prefix = cut-prefix s.rx b f.frame (flatten fs ++ left) behind (omega arith) in
    let whole = framed.0.whole in
    let short = framed.0.short in
    waiting c cap rounds s b (f ∷ fs) left secure.0
      (waits-frame s.rx (drop (length s.rx) f.frame) f.frame whole prefix less) split (omega arith)
      framed

pub drain_frames-Drained :
    (c : Crypto) (cap rounds : ℕ) (s : Session) (b : Bytes) (fs : List Framed) (left : Bytes)
    → IsSecure s
    → length s.rx ≤ rounds
    → s.rx ++ b ≡ flatten fs ++ left
    → AreFramed c s.secure_key cap fs
    → IsPartial cap left
    → Drained c cap s (drain_frames c rounds s) b fs left
unfolding deliver
drain_frames-Drained c cap rounds s b [] left secure enough split framed end =
    waiting c cap rounds s b [] left secure.0 (waits-append s.rx b (rw split end.1)) split
      (omega (arith, ap length split, length-append s.rx b, end.0)) framed
drain_frames-Drained c cap zero s b (f ∷ fs) left secure enough split framed end =
    let header = framed.0.header in
    waiting_part c cap zero s b f fs left secure (omega arith) split framed
drain_frames-Drained c cap (suc rounds) s b (f ∷ fs) left secure enough split framed end =
    elim (Bool-cases (ltb (length s.rx) (length f.frame))) [
      | inl e ↦
          waiting_part c cap (suc rounds) s b f fs left secure (ground (arith, e)) split framed
      | inr e ↦
          let n = length f.frame in
          let long : n ≤ length s.rx = ground (arith, e) in
          let behind = split ∙ append_assoc f.frame (flatten fs) left in
          let key = (handle_modbus-keys s f.msg).3 in
          let header = framed.0.header in
          let s1 = set_rx (handle_modbus s f.msg) (drop n s.rx) in
          let ih : Drained c cap s1 (drain_frames c rounds s1) b fs left =
            drain_frames-Drained c cap rounds s1 b fs left (handle_modbus-IsSecure s f.msg secure)
              (omega (arith, length-drop n s.rx))
              (cut-drop s.rx b f.frame (flatten fs ++ left) behind long) (rw key framed.1) end in
          let front = cut-take s.rx b f.frame (flatten fs ++ left) behind long in
          record {
            done = f ∷ ih.done;
            todo = ih.todo;
            parts = ap (λ gs. f ∷ gs) ih.parts;
            rest = ih.rest;
            after =
                drain_frames-step c rounds s f cap secure framed.0 front long
                ∙ ih.after
                ∙ ap (λ t. set_rx t ih.rest)
                    (deliver-rx (handle_modbus s f.msg) (drop n s.rx) ih.done);
            stream = ih.stream;
            short = ih.short;
            stuck = ih.stuck;
            framed = rw key at ih.framed;
          }
    ]

-- The notifications one after the other.
pub feed_all : Crypto → Session → List Bytes → Session
feed_all c s [] = s
feed_all c s (piece ∷ pieces) = feed_all c (feed c s piece) pieces

abbrev pub join : List Bytes → Bytes
join [] = []
join (piece ∷ pieces) = piece ++ join pieces

-- No notification is longer than the room that a beginning of a frame leaves in the buffer.
abbrev pub AreShort : ℕ → List Bytes → Type 0
AreShort cap [] = Unit
AreShort cap (piece ∷ pieces) = (cap + length piece ≤ rx_max) × AreShort cap pieces

deliver-IsSecure : (s : Session) (fs : List Framed) → IsSecure s → IsSecure (deliver s fs)
unfolding deliver
deliver-IsSecure s [] secure = secure
deliver-IsSecure s (f ∷ fs) secure =
    deliver-IsSecure (handle_modbus s f.msg) fs (handle_modbus-IsSecure s f.msg secure)

deliver-key : (s : Session) (fs : List Framed) → (deliver s fs).secure_key ≡ s.secure_key
unfolding deliver
deliver-key s [] = refl
deliver-key s (f ∷ fs) = deliver-key (handle_modbus s f.msg) fs ∙ (handle_modbus-keys s f.msg).3

-- A notification that fits is appended, and the loop runs.
feed-IsSecure :
    (c : Crypto) (s : Session) (piece : Bytes)
    → IsSecure s
    → length s.rx + length piece ≤ rx_max
    → feed c s piece ≡ drain_frames c (length (s.rx ++ piece)) (set_rx s (s.rx ++ piece))
unfolding feed
feed-IsSecure c s piece secure room =
    let fits : ltb rx_max (length s.rx + length piece) ≡ false = ground arith in
    simp (secure.0, secure.1, secure.2, fits)

-- A buffer that waits holds no whole frame.
all_read :
    (c : Crypto) (cap : ℕ) (s : Session) (fs : List Framed) (left : Bytes)
    → s.rx ≡ flatten fs ++ left
    → AreFramed c s.secure_key cap fs
    → waits s.rx ≡ true
    → s ≡ record (deliver s fs) { rx = left }
unfolding deliver
all_read c cap s [] left split framed stuck = ap (set_rx s) split
all_read c cap s (f ∷ fs) left split framed stuck =
    let behind = split ∙ append_assoc f.frame (flatten fs) left in
    let header = framed.0.header in
    let whole = framed.0.whole in
    let need : framed_len true s.rx ≡ length f.frame =
      ap (framed_len true) behind ∙ framed_len-append f.frame (flatten fs ++ left) header ∙ whole in
    absurd (ground (arith, need, ap length behind, length-append f.frame (flatten fs ++ left)))

-- For a secure session with the beginning of a stream in its buffer: however the rest of the stream is
-- cut into notifications that fit behind a beginning of a frame, the messages of the whole frames are
-- handed over in order, each once, and the incomplete end of the stream stays in the buffer.
pub feed_all-deliver :
    (c : Crypto) (cap : ℕ) (pieces : List Bytes) (s : Session) (fs : List Framed) (left : Bytes)
    → IsSecure s
    → s.rx ++ join pieces ≡ flatten fs ++ left
    → length s.rx ≤ cap
    → AreShort cap pieces
    → AreFramed c s.secure_key cap fs
    → IsPartial cap left
    → waits s.rx ≡ true
    → feed_all c s pieces ≡ record (deliver s fs) { rx = left }
unfolding feed_all deliver
feed_all-deliver c cap [] s fs left secure split room short framed end stuck =
    all_read c cap s fs left (sym (append-nil s.rx) ∙ split) framed stuck
feed_all-deliver c cap (piece ∷ pieces) s fs left secure split room short framed end stuck =
    let joined = s.rx ++ piece in
    let room' = short.0 in
    let d : Drained c cap (set_rx s joined) (drain_frames c (length joined) (set_rx s joined))
        (join pieces) fs left =
      drain_frames-Drained c cap (length joined) (set_rx s joined) (join pieces) fs left secure
        (omega arith) (append_assoc s.rx piece (join pieces) ∙ split) framed end in
    let now = deliver s d.done in
    let fed : feed c s piece ≡ set_rx now d.rest =
      feed-IsSecure c s piece secure (omega arith)
      ∙ d.after
      ∙ ap (λ t. set_rx t d.rest) (deliver-rx s joined d.done) in
    ap (λ t. feed_all c t pieces) fed
    ∙ feed_all-deliver c cap pieces (set_rx now d.rest) d.todo left
        (deliver-IsSecure s d.done secure) d.stream d.short short.1
        (rw (deliver-key s d.done) d.framed) end d.stuck
    ∙ ap (λ t. set_rx t left) (deliver-rx now d.rest d.todo)
    ∙ ap (λ t. set_rx t left) (sym (deliver-append s d.done d.todo) ∙ ap (deliver s) (sym d.parts))

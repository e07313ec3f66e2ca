-- ===== src/BtSession/Feed/Frames.antt =====
-- The AES frames of a stream, and the rounds of the loop of `bt_session_feed` (bt_session.c) on them.
use esp32_nut_bluetti.Prelude.{
  ℕ, zero, suc, ◌≡◌, ◌<◌, ◌≤◌, refl, ◌∙◌, ap, sym, Bool, true, false, ◌||◌, Option, none, some,
  List, [], ◌∷◌, ◌++◌, if◌then◌else◌, ◌==◌, ltb, arith, length, take, drop, length-append,
  take-append-drop, take-append, drop-append, take-append_le, drop-append_le, get_or-append_lt,
}
use esp32_nut_bluetti.Prelude.Text.{Bytes}
use esp32_nut_bluetti.BtCrypto.{Crypto}
use esp32_nut_bluetti.BtSession.State.{Session, rx_max}
use esp32_nut_bluetti.BtSession.Wire.{is_kex}
use esp32_nut_bluetti.BtSession.Cipher.{plain_len, framed_len, unwrap, aes_unwrap}
use esp32_nut_bluetti.BtSession.Modbus.{handle_modbus, handle_write, handle_read}
use esp32_nut_bluetti.BtSession.Feed.{drain_frames}

-- What an AES frame holds under a secure key.
unfoldable pub opened : Crypto → Bytes → Bytes → Option Bytes
opened c key frame =
    if ltb (length frame) 6
    then none
    else unwrap c key (c.md5 (take 4 (drop 2 frame))) (plain_len frame) (drop 6 frame) rx_max

-- A frame on the wire with the Modbus message in it.
pub record Framed : Type 0 where
  pub frame : Bytes
  pub msg : Bytes

-- A frame of at most `cap` bytes that announces its length and opens to the message, which is no
-- key-exchange message.
pub record IsFramed (c : Crypto) (key : Bytes) (cap : ℕ) (f : Framed) : Type 0 where
  pub whole : framed_len true f.frame ≡ length f.frame
  pub header : 6 ≤ length f.frame
  pub short : length f.frame ≤ cap
  pub opens : opened c key f.frame ≡ some f.msg
  pub modbus : is_kex f.msg ≡ false

abbrev pub AreFramed : Crypto → Bytes → ℕ → List Framed → Type 0
AreFramed c key cap [] = Unit
AreFramed c key cap (f ∷ fs) = IsFramed c key cap f × AreFramed c key cap fs

-- The loop waits for more bytes.
abbrev pub waits : Bytes → Bool
waits rx = framed_len true rx == 0 || ltb (length rx) (framed_len true rx)

-- The beginning of a frame, with which a stream may end.
abbrev pub IsPartial : ℕ → Bytes → Type 0
IsPartial cap left = (length left ≤ cap) × (waits left ≡ true)

abbrev pub flatten : List Framed → Bytes
flatten [] = []
flatten (f ∷ fs) = f.frame ++ flatten fs

unfoldable pub deliver : Session → List Framed → Session
deliver s [] = s
deliver s (f ∷ fs) = deliver (handle_modbus s f.msg) fs

abbrev pub set_rx : Session → Bytes → Session
set_rx s rx = record s { rx = rx }

-- A secure session: its frames have the long header and go through the reassembly.
abbrev pub IsSecure : Session → Type 0
IsSecure s = (s.have_secure ≡ true) × (s.plain ≡ false) × (s.have_unsecure ≡ true)

handle_modbus-rx :
    (s : Session) (rx f : Bytes) → handle_modbus (set_rx s rx) f ≡ set_rx (handle_modbus s f) rx
unfolding handle_modbus handle_write handle_read
handle_modbus-rx s rx f = ground arith

pub handle_modbus-keys :
    (s : Session) (f : Bytes)
    → ((handle_modbus s f).have_secure ≡ s.have_secure)
      × ((handle_modbus s f).plain ≡ s.plain)
      × ((handle_modbus s f).have_unsecure ≡ s.have_unsecure)
      × ((handle_modbus s f).secure_key ≡ s.secure_key)
unfolding handle_modbus handle_write handle_read
handle_modbus-keys s f = ground arith

pub deliver-rx :
    (s : Session) (rx : Bytes) (fs : List Framed)
    → deliver (set_rx s rx) fs ≡ set_rx (deliver s fs) rx
unfolding deliver
deliver-rx s rx [] = refl
deliver-rx s rx (f ∷ fs) =
    ap (λ s'. deliver s' fs) (handle_modbus-rx s rx f.msg)
    ∙ deliver-rx (handle_modbus s f.msg) rx fs

aes_unwrap-opened :
    (c : Crypto) (s : Session) (frame : Bytes)
    → s.have_secure ≡ true
    → aes_unwrap c s frame rx_max ≡ opened c s.secure_key frame
unfolding aes_unwrap opened
aes_unwrap-opened c s frame secure = simp (secure)

-- The first bytes announce the same length, whatever stands behind them.
pub framed_len-append : (a b : Bytes) → 6 ≤ length a → framed_len true (a ++ b) ≡ framed_len true a
unfolding framed_len
framed_len-append a b h =
    let total = length-append a b in
    ground (arith, total, get_or-append_lt a b 0 0, get_or-append_lt a b 1 0)

pub waits-append : (a b : Bytes) → waits (a ++ b) ≡ true → waits a ≡ true
unfolding framed_len
waits-append a b h =
    let total = length-append a b in
    ground (arith, total, get_or-append_lt a b 0 0, get_or-append_lt a b 1 0)

-- A part of a frame that is not all of it.
pub waits-frame :
    (a b frame : Bytes)
    → framed_len true frame ≡ length frame
    → a ++ b ≡ frame
    → length a < length frame
    → waits a ≡ true
unfolding framed_len
waits-frame a b frame whole split less =
    let total = length-append a b in
    let whole' : framed_len true (a ++ b) ≡ length (a ++ b) = rw split whole in
    ground
      (arith, total, ap length split, whole', get_or-append_lt a b 0 0, get_or-append_lt a b 1 0)

-- Two cuts of one text.
pub cut-take : (a b f g : Bytes) → a ++ b ≡ f ++ g → length f ≤ length a → take (length f) a ≡ f
cut-take a b f g e h =
    sym (take-append_le (length f) a b h) ∙ ap (take (length f)) e ∙ take-append f g

pub cut-drop :
    (a b f g : Bytes) → a ++ b ≡ f ++ g → length f ≤ length a → drop (length f) a ++ b ≡ g
cut-drop a b f g e h =
    sym (drop-append_le (length f) a b h) ∙ ap (drop (length f)) e ∙ drop-append f g

pub cut-prefix :
    (a b f g : Bytes) → a ++ b ≡ f ++ g → length a ≤ length f → a ++ drop (length a) f ≡ f
cut-prefix a b f g e h =
    ap (λ t. t ++ drop (length a) f)
      (sym (take-append a b) ∙ ap (take (length a)) e ∙ take-append_le (length a) f g h)
    ∙ take-append-drop (length a) f

-- One round on a buffer that holds a whole frame.
pub drain_frames-step :
    (c : Crypto) (rounds : ℕ) (s : Session) (f : Framed) (cap : ℕ)
    → IsSecure s
    → IsFramed c s.secure_key cap f
    → take (length f.frame) s.rx ≡ f.frame
    → length f.frame ≤ length s.rx
    → drain_frames c (suc rounds) s
      ≡ drain_frames c rounds (set_rx (handle_modbus s f.msg) (drop (length f.frame) s.rx))
unfolding drain_frames
drain_frames-step c rounds s f cap secure framed front long =
    let n = length f.frame in
    let split : s.rx ≡ f.frame ++ drop n s.rx =
      sym (take-append-drop n s.rx) ∙ ap (λ t. t ++ drop n s.rx) front in
    let need : framed_len s.have_secure s.rx ≡ n =
      ap (λ b. framed_len b s.rx) secure.0
      ∙ ap (framed_len true) split
      ∙ framed_len-append f.frame (drop n s.rx) framed.header
      ∙ framed.whole in
    let enough : (n == 0 || ltb (length s.rx) n) ≡ false =
      let header = framed.header in ground arith in
    let open_ : aes_unwrap c s f.frame rx_max ≡ some f.msg =
      aes_unwrap-opened c s f.frame secure.0 ∙ framed.opens in
    let kex = framed.modbus in
    let moved = handle_modbus-rx s (drop n s.rx) f.msg in
    simp (need, enough, front, open_, kex, moved)

-- A buffer that waits is left as it is.
pub drain_frames-waits :
    (c : Crypto) (rounds : ℕ) (s : Session)
    → s.have_secure ≡ true
    → waits s.rx ≡ true
    → drain_frames c rounds s ≡ s
unfolding drain_frames
drain_frames-waits c zero s secure stuck = refl
drain_frames-waits c (suc rounds) s secure stuck = simp (secure, stuck)

pub deliver-append :
    (s : Session) (fs gs : List Framed) → deliver s (fs ++ gs) ≡ deliver (deliver s fs) gs
unfolding deliver
deliver-append s [] gs = refl
deliver-append s (f ∷ fs) gs = deliver-append (handle_modbus s f.msg) fs gs

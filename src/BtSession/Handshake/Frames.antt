-- ===== src/BtSession/Handshake/Frames.antt =====
-- Which key-exchange frames `handle_kex` (bt_session.c) takes.
use esp32_nut_bluetti.Prelude.{
  ℕ, ◌+◌, ◌-◌, ◌/◌, ◌%◌, ◌^◌, ◌≡◌, ◌≢◌, ◌<◌, ◌∙◌, false, some, [], ◌∷◌, ◌++◌, if◌then◌else◌, ltb,
  if_not, arith, length, drop, get_or, length-append,
}
use esp32_nut_bluetti.Prelude.Text.{Bytes, bytes_eq, bytes_eq_refl}
use esp32_nut_bluetti.BtCrypto.{Crypto}
use esp32_nut_bluetti.BtSession.State.{Session}
use esp32_nut_bluetti.BtSession.Wire.{kex_magic, sum_bytes, hexsum, build_kex}
use esp32_nut_bluetti.BtSession.Wire.Sum.{
  sealed, kex_body-sealed, kex_sum_ok-sealed, hexsum_changed,
}
use esp32_nut_bluetti.BtSession.Handshake.{dispatch_kex, handle_kex}

-- The message of a body, as `handle_kex` passes it on.
abbrev pub message : Crypto → Session → Bytes → Bytes → Session
message c s frame body =
    dispatch_kex c s (get_or body 0 0) (drop 4 frame) ((length body + 2 ^ 32 - 2) % 2 ^ 32)

handle_kex-sealed :
    (c : Crypto) (s : Session) (body : Bytes) (hi lo : ℕ)
    → 0 < length body
    → handle_kex c s (sealed body hi lo)
      ≡ (if bytes_eq (hexsum body) (hi ∷ lo ∷ []) then message c s (sealed body hi lo) body else s)
unfolding handle_kex
handle_kex-sealed c s body hi lo some_body =
    let long : ltb (length (sealed body hi lo)) 5 ≡ false =
      ground (arith, length-append body (hi ∷ lo ∷ [])) in
    rw long (
      rw (kex_sum_ok-sealed body hi lo, kex_body-sealed body hi lo)
        (if_not (bytes_eq (hexsum body) (hi ∷ lo ∷ [])) s (message c s (sealed body hi lo) body)))

build_kex-some :
    (body : Bytes) (out_sz : ℕ) (frame : Bytes)
    → build_kex body out_sz ≡ some frame
    → frame ≡ kex_magic ∷ kex_magic ∷ (body ++ hexsum body)
unfolding build_kex
build_kex-some body out_sz frame built = ground arith

-- The frame of a body with the checksum of another text.
pub handle_kex-hexsum :
    (c : Crypto) (s : Session) (body other : Bytes)
    → 0 < length body
    → handle_kex c s (kex_magic ∷ kex_magic ∷ (body ++ hexsum other)) ≡ (
        if bytes_eq (hexsum body) (hexsum other)
        then message c s (kex_magic ∷ kex_magic ∷ (body ++ hexsum other)) body
        else s)
unfolding hexsum
handle_kex-hexsum c s body other some_body =
    handle_kex-sealed c s body (sum_bytes 0 other / 256 % 256) (sum_bytes 0 other % 256) some_body

-- A frame that `build_kex` makes of a body is passed on as the message of that body; the same frame
-- with one byte of the body changed is ignored.
pub handle_kex-build_kex :
    (c : Crypto) (s : Session) (a b : Bytes) (x y out_sz : ℕ) (frame : Bytes)
    → build_kex (a ++ (x ∷ b)) out_sz ≡ some frame
    → x < 256
    → y < 256
    → x ≢ y
    → (handle_kex c s frame ≡ message c s frame (a ++ (x ∷ b)))
      × (handle_kex c s (kex_magic ∷ kex_magic ∷ ((a ++ (y ∷ b)) ++ hexsum (a ++ (x ∷ b)))) ≡ s)
handle_kex-build_kex c s a b x y out_sz frame built hx hy ne =
    let body = a ++ (x ∷ b) in
    let other = a ++ (y ∷ b) in
    let made = build_kex-some body out_sz frame built in
    (
      rw made (
          handle_kex-hexsum c s body body (omega (arith, length-append a (x ∷ b)))
          ∙ rw (bytes_eq_refl (hexsum body))),
      handle_kex-hexsum c s other body (omega (arith, length-append a (y ∷ b)))
          ∙ rw (hexsum_changed a b x y hx hy ne),
    )

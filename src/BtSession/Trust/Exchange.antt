-- ===== src/BtSession/Trust/Exchange.antt =====
-- The handlers of the key exchange (bt_session.c) trust signed keys only.
use esp32_nut_bluetti.Prelude.{
  ℕ, ◌+◌, ◌-◌, ◌%◌, ◌^◌, ◌≡◌, ◌≢◌, refl, Bool, true, false, not, ◌||◌, Option, none, some, ◌∷◌,
  ◌++◌, ◌==◌, ltb, arith, length, length-take, take, drop, if_ind, get_or, List, [], replicate, sym,
  ◌∙◌, ◌⊎◌, inl, inr,
}
use esp32_nut_bluetti.Prelude.Text.{Bytes}
use esp32_nut_bluetti.BtCrypto.{Crypto, p256_publen}
use esp32_nut_bluetti.BtSession.State.{
  SessState, Call, tx_call, Session, first_of, rest_of, tx, keypair_new, sign_l1,
}
use esp32_nut_bluetti.BtSession.Wire.{build_kex, kex_body, kex_sum_ok}
use esp32_nut_bluetti.BtSession.Handshake.{
  on_challenge, on_peer_pubkey, on_pubkey_accepted, dispatch_kex, handle_kex, enter, send_answer,
  send_reply, wrap_reply, reply_signed, reply_public, reply_with, with_keypair, use_shared, agree,
  is_repeat, challenge_iv, challenge_keyed,
}

-- An element of a list.
abbrev pub In : {A : Type 0} → A → List A → Type 0
In x [] = ⊥
In x (y ∷ ys) = (x ≡ y) ⊎ In x ys

In-front : {A : Type 0} (x : A) (xs ys : List A) → In x xs → In x (xs ++ ys)
In-front x [] ys h = absurd h
In-front x (y ∷ xs) ys (inl e) = inl e
In-front x (y ∷ xs) ys (inr h) = inr (In-front x xs ys h)

In-last : {A : Type 0} (x : A) (xs : List A) → In x (xs ++ x ∷ [])
In-last x [] = inl refl
In-last x (y ∷ xs) = inr (In-last x xs)

-- The IV of a session: the zeros that it has before the first challenge, or the digest of a challenge that it
-- has answered, with four bytes of that digest.
abbrev pub IsOwnIv : Crypto → List Call → Bytes → Type 0
IsOwnIv c calls iv =
    (iv ≡ replicate 16 0)
    ⊎ ((msg : Bytes) × (frame : Bytes) × (done : Bool) × (iv ≡ challenge_iv c msg)
        × (build_kex (2 ∷ 4 ∷ take 4 (drop 8 iv)) 16 ≡ some frame)
        × In (tx_call frame done) calls)

-- A key of a device that holds a signature of the vendor over it and over an IV of the session.
abbrev pub IsSigned : Crypto → List Call → Bytes → Type 0
IsSigned c calls key =
    (iv : Bytes) × (sig : Bytes) × IsOwnIv c calls iv × (c.verify_k2 (key ++ iv) sig ≡ true)

-- A secure key that the key pair of the session, one of those `made` for it, shares with a signed key.
abbrev pub IsAuthentic : Crypto → List (Option ℕ) → List Call → Option ℕ → Bytes → Type 0
IsAuthentic c made calls kp key =
    (d : ℕ) × (peer : Bytes) × (kp ≡ some d)
    × In (some d) made
    × IsSigned c calls peer
    × (c.ecdh_shared d peer ≡ some key)

-- The key pairs that are to come are some of those of the start; the key pair is one of them, and with it the
-- key of the device is signed; the IV is the session's own; and a secure key is authentic.
pub record Holds (c : Crypto) (made pool : List (Option ℕ)) (calls : List Call) (iv : Bytes)
    (kp : Option ℕ) (peer : Bytes) (have : Bool) (key : Bytes) : Type 0 where
  pub to_come : (x : Option ℕ) → In x pool → In x made
  pub pair : (d : ℕ) → kp ≡ some d → In (some d) made
  pub own_iv : IsOwnIv c calls iv
  pub signed : kp ≢ none → IsSigned c calls peer
  pub secure : have ≡ true → IsAuthentic c made calls kp key

abbrev pub IsSound : Crypto → List (Option ℕ) → Session → Type 0
IsSound c made s =
    Holds c made s.env.keypairs s.calls s.unsecure_iv s.kp s.peer_pub s.have_secure s.secure_key

module _ (c : Crypto) (calls more : List Call) where
  IsOwnIv-more : (iv : Bytes) → IsOwnIv c calls iv → IsOwnIv c (calls ++ more) iv
  IsOwnIv-more iv (inl e) = inl e
  IsOwnIv-more iv (inr (msg, frame, done, e, built, sent)) =
      inr (msg, frame, done, e, built, In-front (tx_call frame done) calls more sent)

  IsSigned-more : (peer : Bytes) → IsSigned c calls peer → IsSigned c (calls ++ more) peer
  IsSigned-more peer (iv, sig, own, good) = (iv, sig, IsOwnIv-more iv own, good)

  IsAuthentic-more :
      (made : List (Option ℕ)) (kp : Option ℕ) (key : Bytes)
      → IsAuthentic c made calls kp key
      → IsAuthentic c made (calls ++ more) kp key
  IsAuthentic-more made kp key (d, peer, own, is_made, signed, shared) =
      (d, peer, own, is_made, IsSigned-more peer signed, shared)

  -- More calls of the callbacks leave a sound session sound.
  pub Holds-more :
      (made pool : List (Option ℕ)) (iv : Bytes) (kp : Option ℕ) (peer : Bytes) (have : Bool)
      (key : Bytes)
      → Holds c made pool calls iv kp peer have key
      → Holds c made pool (calls ++ more) iv kp peer have key
  Holds-more made pool iv kp peer have key h = record {
    to_come = h.to_come;
    pair = h.pair;
    own_iv = IsOwnIv-more iv h.own_iv;
    signed = λ there. IsSigned-more peer (h.signed there);
    secure = λ e. IsAuthentic-more made kp key (h.secure e);
  }

-- One more call.
pub call-IsSound :
    (c : Crypto) (made : List (Option ℕ)) (s : Session) (call : Call)
    → IsSound c made s
    → IsSound c made (record s { calls = s.calls ++ call ∷ [] })
call-IsSound c made s call h = Holds-more c s.calls (call ∷ []) made _ _ _ _ _ _ h

pub tx-IsSound :
    (c : Crypto) (made : List (Option ℕ)) (s : Session) (frame : Bytes)
    → IsSound c made s
    → IsSound c made (tx s frame).0
unfolding tx
tx-IsSound c made s frame h = call-IsSound c made s _ h

enter-IsSound :
    (c : Crypto) (made : List (Option ℕ)) (st : SessState) (r : Session × Bool)
    → IsSound c made r.0
    → IsSound c made (enter st r)
enter-IsSound c made st (s, true) h = h
enter-IsSound c made st (s, false) h = h

-- The answer fits its frame.
challenge_frame : (iv : Bytes) → build_kex (2 ∷ 4 ∷ take 4 (drop 8 iv)) 16 ≢ none
unfolding build_kex
challenge_frame iv e = ground (arith, e, length-take 4 (drop 8 iv))

-- A challenge that is answered gives the session its own IV.
answered-IsSound :
    (c : Crypto) (made : List (Option ℕ)) (s : Session) (msg : Bytes) (f : Option Bytes)
    → build_kex (2 ∷ 4 ∷ take 4 (drop 8 (challenge_iv c msg))) 16 ≡ f
    → IsSound c made s
    → IsSound c made (send_answer (challenge_keyed c s msg) f)
unfolding tx
answered-IsSound c made s msg none e h = absurd (challenge_frame (challenge_iv c msg) e)
answered-IsSound c made s msg (some frame) e h =
    let keyed = challenge_keyed c s msg in
    let done = (tx keyed frame).1 in
    let h' = call-IsSound c made s (tx_call frame done) h in
    enter-IsSound c made _ (tx keyed frame) (record {
      to_come = h'.to_come;
      pair = h'.pair;
      own_iv = inr (msg, frame, done, refl, e, In-last (tx_call frame done) s.calls);
      signed = h'.signed;
      secure = h'.secure;
    })

on_challenge-IsSound :
    (c : Crypto) (made : List (Option ℕ)) (s : Session) (msg : Bytes) (len : ℕ)
    → IsSound c made s
    → IsSound c made (on_challenge c s msg len)
unfolding on_challenge
on_challenge-IsSound c made s msg len h =
    if_ind (IsSound c made) (not (len == 4)) _ _ (λ e. h)
      (λ e. answered-IsSound c made s msg _ refl h)

send_reply-IsSound :
    (c : Crypto) (made : List (Option ℕ)) (s : Session) (f : Option Bytes)
    → IsSound c made s
    → IsSound c made (send_reply s f)
send_reply-IsSound c made s none h = h
send_reply-IsSound c made s (some reply) h =
    enter-IsSound c made _ (tx (record s { pubkey_reply = reply }) reply)
      (tx-IsSound c made (record s { pubkey_reply = reply }) reply h)

wrap_reply-IsSound :
    (c : Crypto) (made : List (Option ℕ)) (s : Session) (f : Option Bytes)
    → IsSound c made s
    → IsSound c made (wrap_reply c s f)
wrap_reply-IsSound c made s none h = h
wrap_reply-IsSound c made s (some frame) h = send_reply-IsSound c made s _ h

reply_signed-IsSound :
    (c : Crypto) (made : List (Option ℕ)) (my_pub : Bytes) (r : Session × Option Bytes)
    → IsSound c made r.0
    → IsSound c made (reply_signed c my_pub r)
reply_signed-IsSound c made my_pub (s, none) h = h
reply_signed-IsSound c made my_pub (s, some sig) h = wrap_reply-IsSound c made s _ h

reply_public-IsSound :
    (c : Crypto) (made : List (Option ℕ)) (s : Session) (p : Option Bytes)
    → IsSound c made s
    → IsSound c made (reply_public c s p)
unfolding sign_l1
reply_public-IsSound c made s none h = h
reply_public-IsSound c made s (some my_pub) h = reply_signed-IsSound c made my_pub (sign_l1 s) h

-- With a signed key of the device, the key pair that there is may be used.
again-IsSound :
    (c : Crypto) (made : List (Option ℕ)) (s : Session) (d : ℕ)
    → s.kp ≡ some d
    → IsSound c made s
    → IsSound c made (reply_with c s (some d))
again-IsSound c made s d e h =
    reply_public-IsSound c made (record s { kp = some d }) (c.keypair_public d)
      (record {
        to_come = h.to_come;
        pair = λ d' k. h.pair d' (e ∙ k);
        own_iv = h.own_iv;
        signed = λ there. h.signed (λ k. there (sym e ∙ k));
        secure = λ have.
            let (d', peer, own, is_made, signed, shared) = h.secure have in
            (d', peer, sym e ∙ own, is_made, signed, shared);
      })

-- So may a new one, which is the next of those to come.
fresh-IsSound :
    (c : Crypto) (made : List (Option ℕ)) (s : Session) (kp : Option ℕ)
    → s.kp ≡ none
    → ((d : ℕ) → kp ≡ some d → In (some d) made)
    → IsSigned c s.calls s.peer_pub
    → IsSound c made s
    → IsSound c made (reply_with c s kp)
fresh-IsSound c made s none e own signed h = h
fresh-IsSound c made s (some d) e own signed h =
    reply_public-IsSound c made (record s { kp = some d }) (c.keypair_public d)
      (record {
        to_come = h.to_come;
        pair = own;
        own_iv = h.own_iv;
        signed = λ there. signed;
        secure = λ have.
            let (d', peer, own', is_made, by, shared) = h.secure have in absurd (cc (e, own'));
      })

first_made :
    (made pool : List (Option ℕ))
    → ((x : Option ℕ) → In x pool → In x made)
    → (d : ℕ) → first_of pool ≡ some d
    → In (some d) made
first_made made [] within d e = absurd (cc)
first_made made (x ∷ pool) within d e = within (some d) (inl (sym e))

rest_made :
    (made pool : List (Option ℕ))
    → ((x : Option ℕ) → In x pool → In x made)
    → (x : Option ℕ) → In x (rest_of pool)
    → In x made
rest_made made [] within x h = absurd h
rest_made made (y ∷ pool) within x h = within x (inr h)

with_keypair-IsSound :
    (c : Crypto) (made : List (Option ℕ)) (s : Session) (kp : Option ℕ)
    → s.kp ≡ kp
    → IsSigned c s.calls s.peer_pub
    → IsSound c made s
    → IsSound c made (with_keypair c s kp)
unfolding keypair_new
with_keypair-IsSound c made s none e signed h =
    fresh-IsSound c made (keypair_new s).0 (keypair_new s).1 e
      (first_made made s.env.keypairs h.to_come) signed
      (record {
        to_come = rest_made made s.env.keypairs h.to_come;
        pair = h.pair;
        own_iv = h.own_iv;
        signed = h.signed;
        secure = h.secure;
      })
with_keypair-IsSound c made s (some d) e signed h = again-IsSound c made s d e h

on_peer_pubkey-IsSound :
    (c : Crypto) (made : List (Option ℕ)) (s : Session) (msg : Bytes) (len : ℕ)
    → IsSound c made s
    → IsSound c made (on_peer_pubkey c s msg len)
unfolding on_peer_pubkey
on_peer_pubkey-IsSound c made s msg len h =
    let key = take p256_publen msg in
    let sig = take 64 (drop p256_publen msg) in
    if_ind (IsSound c made) (not (len == 128)) _ _ (λ e. h)
      (λ e.
        if_ind (IsSound c made) (is_repeat s msg) _ _ (λ e. tx-IsSound c made s s.pubkey_reply h)
          (λ e.
            if_ind (IsSound c made) (not (c.verify_k2 (key ++ s.unsecure_iv) sig)) _ _ (λ e. h)
              (λ e.
                let signed : IsSigned c s.calls key =
                  (s.unsecure_iv, sig, h.own_iv, ground (arith, e)) in
                with_keypair-IsSound c made (record s { peer_pub = key }) s.kp refl signed
                  (record {
                    to_come = h.to_come;
                    pair = h.pair;
                    own_iv = h.own_iv;
                    signed = λ there. signed;
                    secure = h.secure;
                  }))))

use_shared-IsSound :
    (c : Crypto) (made : List (Option ℕ)) (s : Session) (d : ℕ) (key : Option Bytes)
    → s.kp ≡ some d
    → IsSigned c s.calls s.peer_pub
    → c.ecdh_shared d s.peer_pub ≡ key
    → IsSound c made s
    → IsSound c made (use_shared s key)
use_shared-IsSound c made s d none own signed e h = h
use_shared-IsSound c made s d (some key) own signed e h = record {
  to_come = h.to_come;
  pair = h.pair;
  own_iv = h.own_iv;
  signed = h.signed;
  secure = λ _. (d, s.peer_pub, own, h.pair d own, signed, e);
}

agree-IsSound :
    (c : Crypto) (made : List (Option ℕ)) (s : Session) (kp : Option ℕ)
    → s.kp ≡ kp
    → IsSound c made s
    → IsSound c made (agree c s kp)
agree-IsSound c made s none e h = h
agree-IsSound c made s (some d) e h =
    let there : s.kp ≢ none = λ none_there. cc in
    use_shared-IsSound c made s d (c.ecdh_shared d s.peer_pub) e (h.signed there) refl h

on_pubkey_accepted-IsSound :
    (c : Crypto) (made : List (Option ℕ)) (s : Session) (msg : Bytes) (len : ℕ)
    → IsSound c made s
    → IsSound c made (on_pubkey_accepted c s msg len)
unfolding on_pubkey_accepted
on_pubkey_accepted-IsSound c made s msg len h =
    if_ind (IsSound c made) (not (len == 1) || not (get_or msg 0 0 == 0)) _ _ (λ e. h)
      (λ e. agree-IsSound c made s s.kp refl h)

dispatch_kex-IsSound :
    (c : Crypto) (made : List (Option ℕ)) (s : Session) (type : ℕ) (msg : Bytes) (len : ℕ)
    → IsSound c made s
    → IsSound c made (dispatch_kex c s type msg len)
unfolding dispatch_kex
dispatch_kex-IsSound c made s type msg len h =
    if_ind (IsSound c made) (type == 1) _ _ (λ e. on_challenge-IsSound c made s msg len h)
      (λ e.
        if_ind (IsSound c made) (type == 4) _ _ (λ e. on_peer_pubkey-IsSound c made s msg len h)
          (λ e.
            if_ind (IsSound c made) (type == 6) _ _
              (λ e. on_pubkey_accepted-IsSound c made s msg len h) (λ e. h)))

pub handle_kex-IsSound :
    (c : Crypto) (made : List (Option ℕ)) (s : Session) (frame : Bytes)
    → IsSound c made s
    → IsSound c made (handle_kex c s frame)
unfolding handle_kex
handle_kex-IsSound c made s frame h =
    let body = kex_body frame in
    if_ind (IsSound c made) (ltb (length frame) 5) _ _ (λ e. h)
      (λ e.
        if_ind (IsSound c made) (not (kex_sum_ok frame)) _ _ (λ e. h)
          (λ e.
            dispatch_kex-IsSound c made s (get_or body 0 0) (drop 4 frame)
              ((length body + 2 ^ 32 - 2) % 2 ^ 32) h))

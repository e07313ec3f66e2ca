-- ===== src/BtSession/State.antt =====
-- The state of a session (bt_session.c) and its surroundings. The results of calls that depend on
-- chance or on the radio are listed in the order in which they will be asked for.
use esp32_nut_bluetti.Prelude.{
  ℕ, Bool, true, false, ◌&&◌, ◌||◌, Option, none, List, [], ◌∷◌, ◌++◌, replicate,
}
use esp32_nut_bluetti.Prelude.Text.{Bytes}

-- `bt_sess_state_t`
pub data SessState : Type 0 where
  idle : SessState
  challenge : SessState
  pubkey : SessState
  ready : SessState
  failed : SessState

-- A call of a callback, with its arguments; for `tx`, with whether it returned 0.
pub data Call : Type 0 where
  tx_call : Bytes → Bool → Call
  regs_call : ℕ → Bytes → Call
  ack_call : ℕ → ℕ → Bool → Call

-- The results to come of `tx`, bt_keypair_new, bt_ecdsa_sign_l1 and bt_random.
pub record Env : Type 0 where
  pub tx_results : List Bool
  pub keypairs : List (Option ℕ)
  pub signatures : List (Option Bytes)
  pub seeds : List Bytes

-- `struct bt_session`. `kp` is NULL as `none`; `pubkey_reply` and `rx` are the bytes that count. The
-- last three fields are its surroundings: `fault` records an access through a null pointer.
pub record Session : Type 0 where
  pub state : SessState
  pub plain : Bool
  pub unsecure_key : Bytes
  pub unsecure_iv : Bytes
  pub have_unsecure : Bool
  pub secure_key : Bytes
  pub have_secure : Bool
  pub peer_pub : Bytes
  pub kp : Option ℕ
  pub pubkey_reply : Bytes
  pub rx : Bytes
  pub pending_addr : ℕ
  pub pending_count : ℕ
  pub env : Env
  pub calls : List Call
  pub fault : Bool

abbrev pub rx_max : ℕ
rx_max = 512

-- The first of the results to come; with none left, the call fails.
abbrev first_result : List Bool → Bool
first_result [] = false
first_result (b ∷ results) = b

abbrev pub rest_of {ℓ} : {A : Type ℓ} → List A → List A
rest_of [] = []
rest_of (x ∷ xs) = xs

abbrev pub first_of {ℓ} : {A : Type ℓ} → List (Option A) → Option A
first_of [] = none
first_of (x ∷ xs) = x

abbrev first_seed : List Bytes → Bytes
first_seed [] = 0 ∷ 0 ∷ 0 ∷ 0 ∷ []
first_seed (x ∷ xs) = x

-- `s->tx(frame, n, s->user)`, with whether it returned 0.
unfoldable pub tx : Session → Bytes → Session × Bool
tx s frame =
    let done = first_result s.env.tx_results in
    (
      record s {
        env = record s.env { tx_results = rest_of s.env.tx_results };
        calls = s.calls ++ tx_call frame done ∷ [];
      },
      done,
    )

-- `bt_keypair_new`
unfoldable pub keypair_new : Session → Session × Option ℕ
keypair_new s =
    (record s { env = record s.env { keypairs = rest_of s.env.keypairs } }, first_of s.env.keypairs)

-- `bt_ecdsa_sign_l1`: the signature depends on a random number, so it is one of those to come.
unfoldable pub sign_l1 : Session → Session × Option Bytes
sign_l1 s = (
  record s { env = record s.env { signatures = rest_of s.env.signatures } },
  first_of s.env.signatures,
)

-- `bt_random` of four bytes.
unfoldable pub random_seed : Session → Session × Bytes
random_seed s =
    (record s { env = record s.env { seeds = rest_of s.env.seeds } }, first_seed s.env.seeds)

-- `session_fail`
abbrev pub session_fail : Session → Session
session_fail s = record s { state = failed }

abbrev pub is_idle : SessState → Bool
is_idle idle = true
is_idle _ = false

abbrev pub is_ready : SessState → Bool
is_ready ready = true
is_ready _ = false

-- `bt_session_new`, where calloc succeeds.
abbrev pub session_new : Env → Session
session_new env = record {
  state = idle;
  plain = false;
  unsecure_key = replicate 16 0;
  unsecure_iv = replicate 16 0;
  have_unsecure = false;
  secure_key = replicate 32 0;
  have_secure = false;
  peer_pub = replicate 64 0;
  kp = none;
  pubkey_reply = [];
  rx = [];
  pending_addr = 0;
  pending_count = 0;
  env = env;
  calls = [];
  fault = false;
}

-- `bt_session_reset`
unfoldable pub session_reset : Session → Session
session_reset s = record s {
  kp = none;
  state = idle;
  plain = false;
  have_unsecure = false;
  have_secure = false;
  rx = [];
  pubkey_reply = [];
  secure_key = replicate 32 0;
  unsecure_key = replicate 16 0;
}

-- `bt_session_use_plain`
unfoldable pub use_plain : Session → Session
use_plain s = elim (is_idle s.state) [
  | true ↦ record s { plain = true; rx = []; state = ready }
  | false ↦ s
]

-- `bt_session_ready`
abbrev pub session_ready : Session → Bool
session_ready s = is_ready s.state && (s.have_secure || s.plain)

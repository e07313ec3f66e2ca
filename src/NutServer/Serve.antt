-- ===== src/NutServer/Serve.antt =====
-- `client_task` and `nut_server_start` of components/nut_server/nut_server.c.
use esp32_nut_bluetti.Prelude.{
  ℕ, ◌≤◌, ◌≡◌, Bool, true, false, not, Option, none, some, List, [], ◌∷◌, ◌++◌, if◌then◌else◌, ◌==◌,
  length,
}
use esp32_nut_bluetti.Prelude.Text.{Bytes, codes, fit}
use esp32_nut_bluetti.NutServer.Vars.{VarStore, set_var}
use esp32_nut_bluetti.NutServer.Commands.{Server, ClientCtx}
use esp32_nut_bluetti.NutServer.Socket.{Conn, send_all}
use esp32_nut_bluetti.NutServer.Dispatch.{handle_line}
use esp32_nut_bluetti.NutServer.Dispatch.Login.{no_login}
use esp32_nut_bluetti.NutServer.Client.{client_loop}
use esp32_nut_bluetti.NutServer.Client.Lines.{Without, by_byte}
use esp32_nut_bluetti.NutServer.Client.Lines.Chunks.{AreShort, ArePositive, client_loop-by_byte}

-- The reply to a line that fills the buffer; whether it could be sent is not looked at.
abbrev reply_too_long : ClientCtx × Conn → ClientCtx × Conn
reply_too_long (c, conn) = (c, (send_all conn (codes "ERR TOO-LONG\n")).0)

-- `client_task` up to the close of the connection: a stream of bytes that arrives in pieces of the
-- given sizes.
unfoldable pub client_task : Server → List ℕ → Conn → Bytes → ClientCtx × Conn
client_task s sizes conn stream =
    client_loop (handle_line s) reply_too_long sizes (no_login, conn) [] stream

-- For a stream with no NUL and with no line of 511 bytes or more, read in pieces of any sizes that are
-- not 0 and at least as many as the stream has bytes, the login state and all that is sent are those
-- of a machine that reads the whole stream byte by byte and gives each line to `handle_line`.
pub client_task-by_byte :
    (s : Server) (sizes : List ℕ) (conn : Conn) (stream : Bytes)
    → ArePositive sizes
    → length stream ≤ length sizes
    → Without 0 stream
    → AreShort 0 stream
    → client_task s sizes conn stream ≡ (by_byte (handle_line s) (no_login, conn) [] stream).state
unfolding client_task
client_task-by_byte s sizes conn stream pos enough clean short =
    client_loop-by_byte (handle_line s) reply_too_long sizes (no_login, conn) [] stream pos enough
      (tt, tt) clean short

-- `nut_server_config_t`
pub record ServerConfig : Type 0 where
  pub ups_name : Option Bytes
  pub ups_desc : Option Bytes
  pub fw_version : Option Bytes
  pub tcp_port : ℕ
  pub max_clients : ℕ

-- The static `s` with what `nut_server_start` sets besides.
pub record Running : Type 0 where
  pub server : Server
  pub tcp_port : ℕ
  pub max_clients : ℕ
  pub started : Bool

abbrev pub or_default : Option Bytes → Bytes → Bytes
or_default none d = d
or_default (some text) d = text

abbrev pub or_nonzero : ℕ → ℕ → ℕ
or_nonzero n d = if n == 0 then d else n

-- The variables that are seeded, in the order of the calls.
abbrev pub seeds : Bytes → List (Bytes × Bytes)
seeds driver_version =
    (codes "device.mfr", codes "BLUETTI")
    ∷ (codes "device.model", codes "BLUETTI")
    ∷ (codes "device.type", codes "ups")
    ∷ (codes "driver.name", codes "esp32-nut-bluetti")
    ∷ (codes "driver.version", driver_version)
    ∷ (codes "ups.mfr", codes "BLUETTI")
    ∷ (codes "ups.model", codes "BLUETTI")
    ∷ (codes "ups.status", codes "OFF")
    ∷ (codes "battery.charge", codes "0")
    ∷ []

unfoldable pub seed : List (Bytes × Bytes) → VarStore → VarStore
seed [] store = store
seed ((name, value) ∷ more) store = seed more (set_var store (some name) (some value))

-- The names that the server answers with.
unfoldable pub configured : ServerConfig → Server → Server
configured cfg s = record s {
  ups_name = fit 32 (or_default cfg.ups_name (codes "ups"));
  ups_desc = fit 64 (or_default cfg.ups_desc (codes "BLUETTI via ESP32"));
  driver_version = fit 48 (codes "esp32-nut-bluetti " ++ or_default cfg.fw_version (codes "?"));
}

-- `nut_server_start`, with whether the mutex and the accept task could be made, and whether it
-- returned 0.
unfoldable pub start : Bool → Bool → Running → Option ServerConfig → Running × Bool
unfolding configured
start lock_made task_made r none = (r, r.started)
start lock_made task_made r (some cfg) =
    let named : Server = configured cfg r.server in
    let locked : Server = record named { store = record named.store { lock = lock_made } } in
    let unseeded : Running = record {
      server = locked;
      tcp_port = or_nonzero cfg.tcp_port 3493;
      max_clients = or_nonzero cfg.max_clients 4;
      started = false;
    } in
    let seeded : Running = record unseeded {
      server = record locked { store = seed (seeds named.driver_version) locked.store };
    } in
    if r.started
    then (r, true)
    else if not lock_made
    then (unseeded, false)
    else if not task_made
    then (seeded, false)
    else (record seeded { started = true }, true)

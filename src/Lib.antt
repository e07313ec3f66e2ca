-- ===== src/Lib.antt =====
-- esp32-nut-bluetti: an ESP32 that reads a Bluetti power station over BLE and serves it to NUT clients
-- as a UPS, and that can shut Proxmox hosts and guests down when the mains fail.
--
-- The parts of the program. components/bluetti_ble polls the power station and decodes its registers;
-- main/main.c turns a reading into NUT variables; components/nut_server serves these to clients over
-- TCP; components/pve_shutdown decides from the same readings which Proxmox hosts and guests to shut
-- down, and does so from a task of its own; components/app_config keeps the settings;
-- components/provisioning, wifi_mgr, ota_github, notify and led_status are the web portal, the network,
-- the updates, the notifications and the LED.
--
-- The files.
--   Prelude           what the parts share: native numbers and their Boolean tests (Prelude/Tests), lists
--                     measured by native numbers (Prelude/Lists), C integers with a sign (Prelude/Int),
--                     and text as bytes with the bounded copies of the C library (Prelude/Text).
--   PveShutdown       components/pve_shutdown.
--     Engine          pve_engine.c: pve_eval is `eval`, its loop over the hosts `eval_hosts`, a round of
--                     it `eval_host`, the loops over the guests `clear_guests`, `eval_guests` and
--                     `sweep_guests`; trigger_met, find_guest_state and the switch on obs->power keep
--                     their names or are `observe_power`; pve_engine_sync_guests is `sync_guests`, and
--                     pve_countdown_s and pve_guest_countdown_s are `countdown_s` and
--                     `guest_countdown_s`. Its children hold the proofs.
--     Observe         pve_shutdown.c around the engine: pve_shutdown_observe is `observe`, and
--                     pve_shutdown_reconfigure `reconfigure`; `run_worker` is worker_task up to its
--                     calls of run_host, and Observe/Worker is about what it takes.
--     Run             run_host with note_* and what shutdown_guest and shutdown_node send, as requests, events and
--                     results in order; Run/Requests is about which requests a job can send, and Run/Tests
--                     drives jobs.
--     Tests           an outage driven through the engine.
--   NutServer         components/nut_server/nut_server.c.
--     Vars            the variable table: nut_server_set_var, nut_server_set_var_int,
--                     nut_server_clear_var, nut_server_get_var and nut_server_set_status.
--     Quote, Tokens   append_quoted and tokenize.
--     Socket          send_all over the answers of `send`.
--     Commands        the LIST and GET commands, each as the texts that it sends.
--     Dispatch        handle_line: the commands of the login and the choice between all of them.
--     Client          the receive loop of client_task, for any handler of a line; Client/Lines has the
--                     machine that it is compared with, which reads one byte at a time.
--     Serve           client_task and nut_server_start.
--     Tests           a session driven through the server.
--   BtRegs            components/bluetti_ble/bt_regs.c.
--     Devices         the table of models and bt_device_lookup.
--     Controls        the writeable controls: bt_control_lookup, bt_control_valid and parse_ints.
--     Plan            bt_regs_plan; Plan/Asked has its registers written out.
--     Decode          reg, swap_string and the serial number.
--     State           bluetti_state_t and state_reset.
--     Apply           bt_regs_apply in two halves, `found` (what a response has for each field) and `store`
--                     (the assignments), with recompute and bt_control_current.
--     Tests           the tables and a response.
--   BtCrypto          components/bluetti_ble/bt_crypto.c: bt_crc16_modbus and the length check of aes_cbc.
--                     What the session takes from mbedTLS is the record `Crypto`.
--   BtSession         components/bluetti_ble/bt_session.c, the encrypted link to the power station.
--     State           struct bt_session, with the results of its callbacks and of random choices as lists
--                     and the calls of the callbacks as a list; new, reset and use_plain.
--     Wire            hexsum, build_kex and the parts of a key-exchange frame.
--     Cipher          aes_wrap, framed_len and aes_unwrap.
--     Handshake       on_challenge, on_peer_pubkey, on_pubkey_accepted and handle_kex. A chain of early
--                     returns is a chain of helpers, each with the code behind one call. Handshake/Kept
--                     shows once for all what the handlers keep.
--     Modbus          handle_modbus, bt_session_read_regs and bt_session_write_reg; their laws are in
--                     Modbus/Answers.
--     Feed            bt_session_feed. Feed/Rounds is about the end of its loops, Feed/Modes about the
--                     modes of a session, Feed/Handshakes about its handshake, Feed/Frames
--                     and Feed/Pieces about the stream of notifications.
--     Trust           what the rest of the program does with a session, and whom a session trusts;
--                     Trust/Exchange is the part of it that is about the key exchange.
--     Tests           a session driven through its handshake with a toy cipher.
--   BtLink            components/bluetti_ble/bluetti_ble.c.
--     State           session_regs and session_ack, on the part of `b` that polling uses.
--     Writes          bluetti_ble_write_control and its queue; Writes/Queue is about the queue.
--     Poll            poll_timer_cb; Poll/Order is about the order of what it sends.
--     Events          connections, subscriptions, notifications, timers and settings as steps of a link,
--                     and what is kept along any sequence of them (Events/Writable).
--     Tests           a link driven through writes and missing answers.
--   Main              main/main.c: `publish_power` is the end of publish_nut_from_bluetti, `check_stale` a
--                     round of staleness_task. Main/Flags reads the words of a status; Main/Agrees compares them
--                     with what the engine gets, and Main/Notified with what the notifications see.
--   Notify            components/notify/notify.c.
--     State           the queue, the configuration and notify_send.
--     Status          notify_ups_status. Status/Alerts has the table of transitions that its messages are
--                     compared with, and Status/Alerts/Guarded what every status keeps.
--     Worker          worker, a pass of whose loop is one function, and telegram_post. Worker/Retries is about
--                     the end of the retries.
--     History         any history of calls and passes; History/Subseq and History/Orderly are about the
--                     order of the messages.
--     Tests           an outage, and deliveries.
--   Portal            components/provisioning/provisioning.c, the web server.
--     Forms           url_decode, form_get and the check of an IPv4 address; Forms/RoundTrip has the encoding
--                     of a page, and Forms/RoundTrip/Fields its forms.
--     Cookies         cookie_token and tok_eq.
--     Sessions        session_new, auth_ok, session_drop, the sign-in and the sign-out; Sessions/SignedIn
--                     compares the table of sessions with the tokens that were handed out.
--     Tests           a sign-in, and a form.
--   WifiMgr           components/wifi_mgr/wifi_mgr.c: the retries of the station and the fallback access
--                     point. WifiMgr/Outage goes through an outage, and WifiMgr/Fallback is about when the
--                     access point is on the air.
--   OtaGithub         components/ota_github/ota_github.c: the comparison of versions and the scan of the list
--                     of releases, which OtaGithub/Releases is about.
--   AppConfig         components/app_config/app_config.c: app_config_load on the bytes of a stored blob, and
--                     the hashes of passwords. AppConfig/Reading is about the bytes that a load reads, and
--                     AppConfig/Upgrade about those that it keeps.
--   LogRing           components/provisioning/log_ring.c: ring_write and log_ring_read; LogRing/Window
--                     compares the ring with the history of what was written, and
--                     LogRing/Ansi is strip_ansi.
--
-- Conventions. Times are microseconds as natural numbers: esp_timer_get_time never goes back and a
-- 64-bit count of microseconds does not overflow. A buffer is the text before its NUL, and `fit` cuts a
-- text to a buffer of a given size. The mutex of the variable table is taken for the whole of each
-- operation, so an operation is one function on the table. A socket is the list of the answers that the
-- calls of `send` will give; a stream and the sizes that `recv` returns are arguments. The callback that
-- checks a login is a parameter. So are the HTTPS client and cJSON of the notifications, the HTTPS requests to
-- Proxmox, which may be answered as they like, the layout of the structure of the settings, SHA-256 and the
-- random bytes. What is asked of the Wi-Fi driver is a list of commands. A call of notify_ups_status reads
-- the clock once.
--
-- Bounds and fuel. The loops over arrays are recursion on lists. `take_lines` has as many rounds as the
-- buffer has bytes, and every round but the last takes at least a newline away; `tokenize` has the
-- eight slots of its array; `decimal` has a round for each digit.
-- The loops of bt_session_feed have as many rounds as the buffer has bytes, and worker_task has one pass
-- more than there are pending bits and guests. form_get looks at one field more than the body has bytes.
-- The worker of the notifications is one pass at a time; 15 passes are enough for a message, which is given
-- up behind its fifteenth post.
--
-- How the parts are put together: `Link` holds a session, and `on_notify` feeds it and then runs the
-- callbacks that it called, which do not touch the session; `regs_apply` writes the state of the link; and
-- `publish_power` takes such a state to the table of NUT variables and to the runtime around the engine.
-- The statuses that main.c sets are those that it gives to notify_ups_status, and the jobs that
-- `run_worker` takes are those of `run_host`.
--
-- What is not modelled: the elliptic curve and the ciphers behind bt_crypto.c; the BLE scan and the
-- discovery of services; the measurements that main.c publishes as variables, since battery.runtime is
-- computed in floats; tls_request of pve_shutdown.c, the test of a host and the self-test, which talk HTTPS
-- to Proxmox, and the copies for the status page; the accept loop of the NUT server and
-- nut_server_set_var_float; the handlers of the portal other than sign-in and sign-out; the defaults of the
-- build and the writes to NVS; the Wi-Fi scan, the addressing and the start of the driver; the download of an
-- update; the captive DNS and the LED. Most of these are calls of ESP-IDF, NimBLE, mbedTLS and lwIP.
pub mod AppConfig
pub mod BtCrypto
pub mod BtLink
pub mod BtRegs
pub mod BtSession
pub mod LogRing
pub mod Main
pub mod Notify
pub mod NutServer
pub mod OtaGithub
pub mod Portal
pub mod Prelude
pub mod PveShutdown
pub mod WifiMgr

-- ===== src/Tunnel/Owner.antt =====
-- The owner's calls in esp_cf_tunnel.c that make and free the tunnel, and the snapshot that it reads.
use esp_cf_tunnel.Prelude.{
  ℕ, ◌+◌, ◌%◌, Bool, false, ◌||◌, not, Option, none, some, [], ◌∷◌, ◌++◌, ltb, ◌==◌, if◌then◌else◌,
  length, take, drop, get_or,
}
use esp_cf_tunnel.Core.{Bytes}
use esp_cf_tunnel.Lifecycle
use esp_cf_tunnel.Lifecycle.{CfState}
use esp_cf_tunnel.Rpc
use esp_cf_tunnel.Config
use esp_cf_tunnel.Framing.{Framer}
use esp_cf_tunnel.Token.{no_credentials}
use esp_cf_tunnel.Tunnel.{Tunnel}
use esp_cf_tunnel.Tunnel.Task.{Task}
use esp_cf_tunnel.Tunnel.Loop.{EspResult, success, invalid_argument, invalid_state, no_memory}

-- `esp_cf_tunnel_config`; `is_complete` tells whether no pointer is missing.
pub record Settings : Type 0 where
  pub is_complete : Bool
  pub version : Bytes
  pub arch : Bytes
  pub service : Bytes
  pub application_streams : ℕ

-- `esp_cf_tunnel_snapshot` without the texts, the diagnostics and the counters of the adapter; a version of -1 is
-- `none`.
pub record Snapshot : Type 0 where
  pub phase : CfState
  pub settings_ready : Bool
  pub is_registered : Bool
  pub is_configured : Bool
  pub config_version : Option ℕ
  pub attempts : ℕ
  pub retry_at_ms : ℕ
  pub edge_ip : Bytes
  pub location : Bytes
  pub last_failure_ms : ℕ
  pub failures : ℕ

-- A text of the settings is refused where it is empty or longer than 63.
abbrev pub is_refused : Bytes → Bool
is_refused b = length b == 0 || ltb 63 (length b)

-- The settings with which `esp_cf_tunnel_init` makes no tunnel.
abbrev pub is_unfit : Settings → Bool
is_unfit c =
    not c.is_complete
    || is_refused c.version
    || is_refused c.arch
    || is_refused c.service
    || not (c.application_streams == 2 || c.application_streams == 4)

-- The marks of a random UUID.
unfoldable pub uuid : Bytes → Bytes
uuid r = take 6 r ++ (get_or r 6 0 % 16 + 64) ∷ get_or r 7 0 ∷ (get_or r 8 0 % 64 + 128) ∷ drop 9 r

abbrev no_framer : Framer
no_framer = record {
  received = [];
  capacity = 0;
  target = 0;
  segments = 0;
  phase = 0;
  error = none;
}

module _ {A : Type 0} where
  abbrev blank : A → Bytes → Settings → Tunnel A
  blank app random c = record {
    life = Lifecycle.init;
    rpc = Rpc.init;
    remote = Config.init;
    credentials = no_credentials;
    options = record {
      connector_id = uuid random;
      local_ip = 0 ∷ 0 ∷ 0 ∷ 0 ∷ [];
      version = c.version;
      arch = c.arch;
      connection_index = 0;
      previous_attempts = 0;
      replace_existing = false;
      features = 3;
    };
    hostname = [];
    service = c.service;
    local_ip = 0 ∷ 0 ∷ 0 ∷ 0 ∷ [];
    attempts = 0;
    deadline_ms = 0;
    fault = false;
    stopping = false;
    closing = false;
    control_stream = 0;
    config_stream = 0;
    framer = no_framer;
    rpc_queue = [];
    config_bytes = [];
    config_reply = [];
    config_reply_sent = 0;
    config_pending = false;
    config_response = false;
    app = app;
  }

  -- `calloc`, and what `esp_cf_tunnel_init` fills in.
  abbrev pub blank_task : A → Bytes → Settings → Task A
  blank_task app random c = record {
    tunnel = blank app random c;
    has_socket = false;
    has_tls = false;
    has_h2 = false;
    records = none;
    dns_name = [];
    dns_id = 0;
    dns_stage = 0;
    edge_ip = [];
    settings_ready = false;
    attempt_started = false;
    goaway_sent = false;
    shutdown_ms = 0;
    write_stalled_ms = 0;
    failures = 0;
    last_failure_ms = 0;
    stop_requested = false;
    reload_requested = false;
    is_running = false;
  }

  -- `esp_cf_tunnel_init`, with the state of the firmware, the random bytes, and whether there is memory.
  unfoldable pub init : A → Bytes → Bool → Settings → EspResult × Option (Task A)
  init app random allocated c =
      if is_unfit c
      then (invalid_argument, none)
      else if not allocated
      then (no_memory, none)
      else (success, some (blank_task app random c))

  -- `esp_cf_tunnel_deinit`: nothing is left of a tunnel that is freed.
  unfoldable pub deinit : Task A → EspResult × Option (Task A)
  deinit k = if k.is_running then (invalid_state, some k) else (success, none)

  -- `publish`
  unfoldable pub publish : Task A → Snapshot
  publish k =
      let t = k.tunnel in
      record {
        phase = t.life.phase;
        settings_ready = k.settings_ready;
        is_registered = t.life.is_registered;
        is_configured = t.life.is_configured;
        config_version = if t.remote.valid then t.remote.version else none;
        attempts = t.attempts;
        retry_at_ms = t.life.retry_at_ms;
        edge_ip = k.edge_ip;
        location = t.rpc.location;
        last_failure_ms = k.last_failure_ms;
        failures = k.failures;
      }

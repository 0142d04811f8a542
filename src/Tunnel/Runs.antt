-- ===== src/Tunnel/Runs.antt =====
-- A concrete tunnel that gets its configuration, and the theorems on it.
use esp_cf_tunnel.Prelude.{
  ℕ, ◌≡◌, refl, sym, ◌∙◌, true, false, none, List, [], ◌∷◌, All, arith, bytes_of,
}
use esp_cf_tunnel.Core.{Bytes}
use esp_cf_tunnel.Lifecycle
use esp_cf_tunnel.Lifecycle.{Lifecycle}
use esp_cf_tunnel.Rpc
use esp_cf_tunnel.Config
use esp_cf_tunnel.Config.Policy.{init-IsHeld}
use esp_cf_tunnel.Config.Runs.{lib, hostname, service}
use esp_cf_tunnel.Json
use esp_cf_tunnel.Dns.Names.{same_text}
use esp_cf_tunnel.H2.{Request, http, config, equals, header}
use esp_cf_tunnel.Token.{no_credentials}
use esp_cf_tunnel.Tunnel.{Tunnel, Firmware}
use esp_cf_tunnel.Tunnel.Streams.{h2_request, by_kind, open_config}
use esp_cf_tunnel.Tunnel.Transfers.{h2_data, config_data, apply_config}
use esp_cf_tunnel.Tunnel.Invariant.{Serving}
use esp_cf_tunnel.Tunnel.Visitors.{run_admitted}
use esp_cf_tunnel.Tunnel.Calls.{Call, requests, brings, updates, IsNamed, step, run, run-Serving}

-- A firmware that counts the requests.
abbrev pub firmware : Firmware ℕ
firmware = record {
  on_request = λ a r. (none, [], 1);
  on_data = λ a id input ends. (none, [], a);
  on_read = λ a id capacity. (none, [], true, a);
  on_closed = λ a id error. a;
}

-- Registered, and without a configuration.
abbrev pub waiting : Tunnel ℕ
waiting = record {
  life = record {
    phase = Lifecycle.wait_config;
    network_ready = true;
    time_ready = true;
    is_registered = true;
    is_configured = false;
    failures = 0;
    retry_at_ms = 0;
  };
  rpc = Rpc.init;
  remote = Config.init;
  credentials = no_credentials;
  options = record {
    connector_id = [];
    local_ip = [];
    version = [];
    arch = [];
    connection_index = 0;
    previous_attempts = 0;
    replace_existing = false;
    features = 3;
  };
  hostname = hostname;
  service = service;
  local_ip = [];
  attempts = 1;
  deadline_ms = 0;
  fault = false;
  stopping = false;
  closing = false;
  control_stream = 1;
  config_stream = 0;
  framer = record {
    received = [];
    capacity = 16;
    target = 4;
    segments = 0;
    phase = 0;
    error = none;
  };
  rpc_queue = [];
  config_bytes = [];
  config_reply = [];
  config_reply_sent = 0;
  config_pending = false;
  config_response = false;
  app = 0;
}

pub waiting-Serving : Serving waiting
unfolding Config.init
waiting-Serving = record {
  lifecycle = ground arith;
  held = init-IsHeld hostname service;
  configured = λ z. absurd (ground (arith, z));
  queue_fits = omega arith;
  bytes_fit = omega arith;
  reply_fits = omega arith;
  sent_fits = omega arith;
  fresh = λ r n. refl;
  pending = λ z. absurd (ground (arith, z));
}

-- The configuration arrives on stream 3.
abbrev pub calls : List (Bytes × ℕ × Call)
calls =
    ([], 5, requests none (record { stream = 3; kind = config; headers = []; end_stream = false }))
    ∷ ([], 6, brings 3 (bytes_of "{}") true)
    ∷ ([], 7, updates lib true none)
    ∷ []

pub calls-IsNamed : All (λ c. IsNamed c.2) calls
calls-IsNamed = (tt, ((λ e. absurd (ground (arith, e))), (tt, tt)))

abbrev visit : Request
visit = record {
  stream = 5;
  kind = http;
  headers = record { name = bytes_of ":authority"; value = hostname } ∷ [];
  end_stream = true;
}

visited : (h2_request firmware [] 8 none (run firmware calls waiting) visit).2.app ≡ 1
unfolding run step h2_request by_kind open_config h2_data config_data apply_config equals header
    Lifecycle.advance Config.apply Config.apply_root Config.apply_config Config.apply_rules
    Config.publish Config.valid_policy Config.hostname_valid Config.hostname_loop Config.is_version
    Config.same_string Config.empty_object Config.value_of Config.init Json.json_parse
    Json.valid_lexemes Json.lexemes Json.has_nul same_text Json.all_space Json.json_keys
    Json.keys_loop
visited = refl

unvisited : (run firmware calls waiting).app ≡ 0
unfolding run step h2_request by_kind open_config h2_data config_data apply_config equals header
    Lifecycle.advance Config.apply Config.apply_root Config.apply_config Config.apply_rules
    Config.publish Config.valid_policy Config.hostname_valid Config.hostname_loop Config.is_version
    Config.same_string Config.empty_object Config.value_of Config.init Json.json_parse
    Json.valid_lexemes Json.lexemes Json.has_nul same_text Json.all_space Json.json_keys
    Json.keys_loop
unvisited = refl

run-Serving_example : Serving (run firmware calls waiting)
run-Serving_example = run-Serving firmware calls waiting calls-IsNamed waiting-Serving

run_admitted_example :
    let t = run firmware calls waiting in
    (t.life.is_registered ≡ true)
    × (t.life.is_configured ≡ true)
    × (equals (header visit.headers (bytes_of ":authority")) t.hostname ≡ true)
run_admitted_example =
    run_admitted firmware [] 8 calls waiting none visit calls-IsNamed waiting-Serving
      (λ e. absurd (ground (arith, sym visited ∙ e ∙ unvisited)))

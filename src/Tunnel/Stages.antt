-- ===== src/Tunnel/Stages.antt =====
-- What holds of the task of esp_cf_tunnel.c between two moves: the stage of its connection, with what is open in it.
use esp_cf_tunnel.Prelude.{ℕ, ◌≤◌, ◌≡◌, ◌⊎◌, Bool, true, false, not, [], All}
use esp_cf_tunnel.Lifecycle
use esp_cf_tunnel.Lifecycle.{CfState, Lifecycle}
use esp_cf_tunnel.Rpc
use esp_cf_tunnel.Core.{Bytes}
use esp_cf_tunnel.Rpc.{Rpc, Credentials}
use esp_cf_tunnel.Config
use esp_cf_tunnel.Config.{RemoteConfig}
use esp_cf_tunnel.Token.{no_credentials}
use esp_cf_tunnel.Tunnel.Task.{Task}
use esp_cf_tunnel.Tunnel.Invariant.{Serving}
use esp_cf_tunnel.Tunnel.Links.{Linked}
use esp_cf_tunnel.Tunnel.Calls
use esp_cf_tunnel.Tunnel.Exchange
use esp_cf_tunnel.Tunnel.Loop
use esp_cf_tunnel.Tunnel.Exchange.{Read, Write, Callbacks}
use esp_cf_tunnel.Tunnel.Loop.{Round, Move, is_discovery}

-- The states without a connection, in which the task runs.
abbrev pub is_idle : CfState → Bool
is_idle Lifecycle.wait_network = true
is_idle Lifecycle.wait_time = true
is_idle Lifecycle.discovery = true
is_idle Lifecycle.backoff = true
is_idle Lifecycle.auth_failed = true
is_idle _ = false

abbrev pub is_attempt : CfState → Bool
is_attempt Lifecycle.discovery = true
is_attempt Lifecycle.connect = true
is_attempt Lifecycle.tls = true
is_attempt _ = false

-- Nothing is open, and nothing of a connection is kept.
pub record IsQuiet (has_socket has_tls has_h2 started : Bool) (credentials : Credentials)
    (rpc : Rpc) (remote : RemoteConfig) (queue : Bytes) (control_stream : ℕ) : Type 0 where
  pub no_socket : has_socket ≡ false
  pub no_tls : has_tls ≡ false
  pub no_h2 : has_h2 ≡ false
  pub not_started : started ≡ false
  pub wiped : credentials ≡ no_credentials
  pub no_rpc : rpc ≡ Rpc.init
  pub no_config : remote ≡ Config.init
  pub no_queue : queue ≡ []
  pub no_control : control_stream ≡ 0

-- An attempt without HTTP/2: the search for the edge with its socket, or TLS without that socket.
pub record IsTrying (phase : CfState) (stopping running has_socket has_tls has_h2 : Bool)
    (rpc : Rpc) (control_stream : ℕ) : Type 0 where
  pub phased : is_attempt phase ≡ true
  pub going : stopping ≡ false
  pub runs : running ≡ true
  pub no_h2 : has_h2 ≡ false
  pub socket : has_socket ≡ is_discovery phase
  pub tls : has_tls ≡ not (is_discovery phase)
  pub no_rpc : rpc ≡ Rpc.init
  pub no_control : control_stream ≡ 0

-- TLS and HTTP/2 are up.
pub record IsUp (running has_socket has_tls has_h2 : Bool) : Type 0 where
  pub runs : running ≡ true
  pub no_socket : has_socket ≡ false
  pub tls : has_tls ≡ true
  pub h2 : has_h2 ≡ true

module _ {A : Type 0} where
  abbrev pub Quiet : Task A → Type 0
  Quiet k =
      IsQuiet k.has_socket k.has_tls k.has_h2 k.attempt_started k.tunnel.credentials k.tunnel.rpc
        k.tunnel.remote k.tunnel.rpc_queue k.tunnel.control_stream

  -- The task has ended, or has not been started.
  abbrev pub Stopped : Task A → Type 0
  Stopped k = (k.tunnel.life.phase ≡ Lifecycle.stopped) × (k.is_running ≡ false) × Quiet k

  abbrev pub Idle : Task A → Type 0
  Idle k =
      (is_idle k.tunnel.life.phase ≡ true)
      × (k.tunnel.stopping ≡ false)
      × (k.is_running ≡ true)
      × Quiet k

  abbrev pub Trying : Task A → Type 0
  Trying k =
      (k.attempt_started ≡ true)
      × IsTrying k.tunnel.life.phase k.tunnel.stopping k.is_running k.has_socket k.has_tls k.has_h2
          k.tunnel.rpc k.tunnel.control_stream

  -- HTTP/2 is up: the callbacks have a connection to serve.
  abbrev pub Open : Task A → Type 0
  Open k = Linked k.tunnel.stopping k.tunnel × IsUp k.is_running k.has_socket k.has_tls k.has_h2

  abbrev pub Active : Task A → Type 0
  Active k = Idle k ⊎ (Trying k ⊎ Open k)

  abbrev pub Managed : Task A → Type 0
  Managed k = Serving k.tunnel × (Stopped k ⊎ Active k)

  -- What a part of a round leaves, whether the loop goes on or not.
  abbrev pub Goes : Bool × Task A → Type 0
  Goes s = Serving s.1.tunnel × Active s.1

-- Each callback of the adapter for data names a stream by an id that is not 0.
abbrev pub AreNamed : Callbacks → Type 0
AreNamed cs = All (λ c. Calls.IsNamed c.2) cs

abbrev pub IsNamedRead : Read → Type 0
IsNamedRead (Exchange.input calls good) = AreNamed calls
IsNamedRead _ = Unit

abbrev pub IsNamedWrite : Write → Type 0
IsNamedWrite (Exchange.no_output calls) = AreNamed calls
IsNamedWrite (Exchange.output_fails calls) = AreNamed calls
IsNamedWrite (Exchange.blocks calls) = AreNamed calls
IsNamedWrite (Exchange.write_fails calls) = AreNamed calls
IsNamedWrite (Exchange.writes calls) = AreNamed calls

-- The time fits its type, and the adapter names the streams.
pub record InRange (r : Round) : Type 0 where
  pub time_fits : r.now ≤ Lifecycle.u64_max
  pub reads_named : All IsNamedRead r.exchange.reads
  pub writes_named : All IsNamedWrite r.exchange.writes
  pub last_named : AreNamed r.exchange.last_output

abbrev pub AreInRange : Move → Type 0
AreInRange (Loop.turns r) = InRange r
AreInRange _ = Unit

-- The owner does not start a task that is over.
abbrev pub IsNoStart : Move → Type 0
IsNoStart (Loop.starts created) = ⊥
IsNoStart _ = Unit

-- The owner neither starts nor reloads.
abbrev pub IsHandsOff : Move → Type 0
IsHandsOff (Loop.starts created) = ⊥
IsHandsOff Loop.reloads = ⊥
IsHandsOff _ = Unit

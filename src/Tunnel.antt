-- ===== src/Tunnel.antt =====
-- The tunnel task of components/esp_cf_tunnel/src/transport/esp_cf_tunnel.c: its state and what it does as the client
-- of the HTTP/2 adapter. The callbacks of the firmware are parameters; the texts for people are left out.
pub mod Edge
pub mod Choice
pub mod Groups
pub mod Chosen
pub mod Task
pub mod Streams
pub mod Transfers
pub mod Feeding
pub mod Invariant
pub mod Callbacks
pub mod Deliveries
pub mod Calls
pub mod Late
pub mod Links
pub mod Exchange
pub mod Loop
pub mod Owner
pub mod Stages
pub mod Closing
pub mod Queries
pub mod Search
pub mod Handshakes
pub mod Steps
pub mod Phases
pub mod Rounds
pub mod Branches
pub mod Managed
pub mod Stopping
pub mod Halting
pub mod Lifetime
pub mod Rejected
pub mod Visitors
mod Runs
mod TaskRuns
use esp_cf_tunnel.Prelude.{
  ℕ, ◌+◌, ◌-◌, Bool, true, false, ◌||◌, ◌&&◌, not, Option, none, some, List, [], ◌∷◌, ◌++◌, ltb,
  leb, ◌==◌, if◌then◌else◌, length, replicate, take, drop,
}
use esp_cf_tunnel.Core.{Bytes, CfError, CfResult, ok, err, limit}
use esp_cf_tunnel.Lifecycle
use esp_cf_tunnel.Lifecycle.{Lifecycle}
use esp_cf_tunnel.Rpc
use esp_cf_tunnel.Rpc.{Rpc, Credentials, Options}
use esp_cf_tunnel.Framing.{Framer}
use esp_cf_tunnel.Config
use esp_cf_tunnel.Config.{RemoteConfig}
use esp_cf_tunnel.H2.{Submission, Request, resumes}

abbrev pub queue_max : ℕ
queue_max = 4096

abbrev pub reply_max : ℕ
reply_max = 128

-- `struct esp_cf_tunnel`, the fields that the streams use. `rpc_queue`, `config_bytes` and `config_reply` are the
-- used parts of the arrays; `app` is the state of the firmware.
pub record Tunnel (A : Type 0) : Type 0 where
  pub life : Lifecycle
  pub rpc : Rpc
  pub remote : RemoteConfig
  pub credentials : Credentials
  pub options : Options
  pub hostname : Bytes
  pub service : Bytes
  pub local_ip : Bytes
  pub attempts : ℕ
  pub deadline_ms : ℕ
  pub fault : Bool
  pub stopping : Bool
  pub closing : Bool
  pub control_stream : ℕ
  pub config_stream : ℕ
  pub framer : Framer
  pub rpc_queue : Bytes
  pub config_bytes : Bytes
  pub config_reply : Bytes
  pub config_reply_sent : ℕ
  pub config_pending : Bool
  pub config_response : Bool
  pub app : A

-- The callbacks of the firmware for the streams of visitors, each with the calls of the adapter that it makes.
pub record Firmware (A : Type 0) : Type 0 where
  pub on_request : A → Request → CfResult × List Submission × A
  pub on_data : A → ℕ → Bytes → Bool → CfResult × List Submission × A
  pub on_read : A → ℕ → ℕ → CfResult × Bytes × Bool × A
  pub on_closed : A → ℕ → ℕ → A

-- What a callback of the tunnel leaves.
abbrev pub Answer : Type 0 → Type 0
Answer A = CfResult × List Submission × Tunnel A

module _ {A : Type 0} where
  abbrev pub advanced : Lifecycle.Event → Tunnel A → Tunnel A
  advanced e t = record t { life = (Lifecycle.advance t.life e).0 }

  -- `t->fault = true`
  abbrev pub failing : Tunnel A → Tunnel A
  failing t = record t { fault = true }

  -- `append_rpc`
  unfoldable pub append_rpc : Tunnel A → Bytes → Answer A
  append_rpc t bytes =
      if ltb (queue_max - length t.rpc_queue) (length bytes) then (some limit, [], t) else (
        none,
        if t.control_stream == 0 then [] else resumes t.control_stream ∷ [],
        record t { rpc_queue = t.rpc_queue ++ bytes },
      )

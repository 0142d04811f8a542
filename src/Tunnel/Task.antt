-- ===== src/Tunnel/Task.antt =====
-- One connection of the task in esp_cf_tunnel.c: its closing, the retry, and the search for the edge. Sockets, TLS, the
-- clock and the random numbers are outside: what a call of them returns is a part of the input.
use esp_cf_tunnel.Prelude.{
  ℕ, ◌+◌, ◌%◌, Bool, true, false, ◌||◌, ◌&&◌, not, Option, none, some, List, [], ◌∷◌, ltb, ◌==◌,
  if◌then◌else◌, length, take, bytes_of,
}
use esp_cf_tunnel.Core.{Bytes, CfResult, ok, err, state, u16, u32, u64}
use esp_cf_tunnel.Lifecycle
use esp_cf_tunnel.Rpc
use esp_cf_tunnel.Rpc.{Credentials}
use esp_cf_tunnel.Config
use esp_cf_tunnel.Dns.Query.{query, packet_max}
use esp_cf_tunnel.Dns.Records.{Record, parse}
use esp_cf_tunnel.Token.{no_credentials}
use esp_cf_tunnel.Tunnel.{Tunnel, Firmware, advanced}
use esp_cf_tunnel.Tunnel.Edge.{record_at, sort, choose}
use esp_cf_tunnel.Tunnel.Transfers.{h2_closed}

-- `struct esp_cf_tunnel`, the other fields; `has_socket` is `dns_socket >= 0`, `has_tls` and `has_h2` tell whether the pointers
-- are set, `records` is `dns_answer`, and `is_running` tells whether `task` is set.
pub record Task (A : Type 0) : Type 0 where
  pub tunnel : Tunnel A
  pub has_socket : Bool
  pub has_tls : Bool
  pub has_h2 : Bool
  pub records : Option (List Record)
  pub dns_name : Bytes
  pub dns_id : ℕ
  pub dns_stage : ℕ
  pub edge_ip : Bytes
  pub settings_ready : Bool
  pub attempt_started : Bool
  pub goaway_sent : Bool
  pub shutdown_ms : ℕ
  pub write_stalled_ms : ℕ
  pub failures : ℕ
  pub last_failure_ms : ℕ
  pub stop_requested : Bool
  pub reload_requested : Bool
  pub is_running : Bool

-- What `dns_send` gets from outside: whether there is a socket, whether it is connected, the identifier, and whether
-- the query is sent.
pub record Sending : Type 0 where
  pub is_open : Bool
  pub connected : Bool
  pub id : ℕ
  pub sent : Bool

-- What `recv` returns: no packet yet, an error or the end, or a packet.
pub data Received : Type 0 where
  not_yet no_packet : Received
  packet : Bytes → Received

-- What `discover` gets from outside; `terminated` tells whether the hostname has its NUL.
pub record Discovery : Type 0 where
  pub locked : Bool
  pub supplied : CfResult
  pub credentials : Credentials
  pub hostname : Bytes
  pub terminated : Bool
  pub allocated : Bool
  pub first_query : Sending
  pub second_query : Sending
  pub received : Received
  pub has_context : Bool

abbrev pub discovery_name : Bytes
discovery_name = bytes_of "_v2-origintunneld._tcp.argotunnel.com"

abbrev pub is_rejected : Rpc.State → Bool
is_rejected Rpc.rejected = true
is_rejected _ = false

-- The owner has credentials and a hostname.
abbrev pub is_supplied : Discovery → Bool
is_supplied d =
    (elim d.supplied [ none ↦ true | some e ↦ false ])
    && not (length d.hostname == 0)
    && d.terminated

module _ {A : Type 0} (firmware : Firmware A) where
  abbrev pub with_tunnel : Task A → Tunnel A → Task A
  with_tunnel k t = record k { tunnel = t }

  -- The calls of `h2_closed` in `cf_h2_destroy`, for the streams that are open.
  unfoldable pub close_streams : List (ℕ × ℕ) → Tunnel A → Tunnel A
  close_streams [] t = t
  close_streams ((id, error) ∷ ids) t = close_streams ids (h2_closed firmware [] 0 t id error)

  -- `close_connection`
  unfoldable pub close_connection : List (ℕ × ℕ) → Task A → Task A
  close_connection open_streams k =
      let t : Tunnel A = record k.tunnel { closing = true } in
      let closed : Tunnel A = if k.has_h2 then close_streams open_streams t else t in
      record k {
        has_socket = false;
        records = none;
        has_h2 = false;
        has_tls = false;
        attempt_started = false;
        goaway_sent = false;
        write_stalled_ms = 0;
        tunnel = record closed {
          closing = false;
          rpc = Rpc.init;
          remote = Config.init;
          credentials = no_credentials;
          rpc_queue = [];
          config_bytes = [];
          config_reply = [];
          config_reply_sent = 0;
          config_pending = false;
          config_response = false;
          control_stream = 0;
          config_stream = 0;
          fault = false;
        };
      }

  -- `retry`
  unfoldable pub retry : List (ℕ × ℕ) → ℕ → ℕ → Task A → Task A
  retry open_streams now random k =
      let t = k.tunnel in
      let rejected = is_rejected t.rpc.phase in
      let hint = if rejected then t.rpc.retry_after_ms else 0 in
      let most = if ltb Lifecycle.u32_max hint then Lifecycle.u32_max else hint in
      let life =
        if rejected && not t.rpc.should_retry
        then (Lifecycle.advance t.life Lifecycle.auth_rejected).0
        else (Lifecycle.retry t.life now most random).0 in
      close_connection open_streams (record k {
        last_failure_ms = now;
        failures = u32 (k.failures + 1);
        tunnel = record t { life = life };
      })

  -- `dns_send`
  unfoldable pub dns_send : ℕ → Bytes → ℕ → Sending → Task A → CfResult × Task A
  dns_send now name type s k =
      let k1 : Task A = record k { has_socket = s.is_open } in
      let k2 : Task A = record k1 { dns_id = u16 s.id; dns_name = take 253 name } in
      let k3 = with_tunnel k2 (record k.tunnel { deadline_ms = u64 (now + 5000) }) in
      if not s.is_open || not s.connected
      then (some state, k1)
      else elim (query name type (u16 s.id) packet_max) [
        | err e ↦ (some e, k2)
        | ok wire ↦ if not s.sent then (some state, k2) else (none, k3)
      ]

  abbrev pub is_sent : CfResult × Task A → Bool × Task A
  is_sent (none, k) = (true, k)
  is_sent (some e, k) = (false, k)

  -- The first answer: the sorted records, and the query for the address of the chosen one.
  unfoldable pub on_services : ℕ → ℕ → Sending → List Record → Task A → Bool × Task A
  on_services now random s found k =
      let rs = sort found in
      let target = (record_at rs (choose rs k.tunnel.attempts random)).target in
      is_sent (dns_send now target 1 s (record k { records = some rs; dns_stage = 1 }))

  -- The second answer: the address of the edge.
  unfoldable pub on_addresses : ℕ → ℕ → Bool → List Record → Task A → Bool × Task A
  on_addresses now random has_context rs k =
      let found : Task A = record k {
        edge_ip = (record_at rs (random % length rs)).ip;
        has_socket = false;
        records = none;
      } in
      let t : Tunnel A = record k.tunnel { deadline_ms = u64 (now + 30000) } in
      if not has_context
      then (false, found)
      else (true, record found { has_tls = true; tunnel = advanced Lifecycle.discovered t })

  -- `cf_dns_parse` on the packet, and what follows; a rejected packet leaves no record.
  unfoldable pub on_packet : ℕ → ℕ → Discovery → Bytes → Task A → Bool × Task A
  on_packet now random d p k =
      let type = if k.dns_stage == 0 then 33 else 1 in
      elim (parse (take packet_max p) k.dns_name type k.dns_id) [
        | err e ↦ (false, record k { records = some [] })
        | ok rs ↦
            if k.dns_stage == 0
            then on_services now random d.second_query rs k
            else on_addresses now random d.has_context rs k
      ]

  unfoldable pub on_received : ℕ → ℕ → Discovery → Received → Task A → Bool × Task A
  on_received now random d not_yet k = (ltb now k.tunnel.deadline_ms, k)
  on_received now random d no_packet k = (false, k)
  on_received now random d (packet p) k = on_packet now random d p k

  -- The start of an attempt.
  unfoldable pub start_attempt : ℕ → Sending → Bool → Task A → Bool × Task A
  start_attempt now s allocated k =
      let k1 : Task A = record k {
        attempt_started = true;
        dns_stage = 0;
        records = if allocated then some [] else none;
        tunnel = record k.tunnel { attempts = u32 (k.tunnel.attempts + 1) };
      } in
      if not allocated then (false, k1) else is_sent (dns_send now discovery_name 33 s k1)

  -- `discover`: whether there is no failure. Until an attempt has started it waits for the settings.
  unfoldable pub discover : ℕ → ℕ → Discovery → Task A → Bool × Task A
  discover now random d k =
      let t : Tunnel A = record k.tunnel { credentials = d.credentials; hostname = d.hostname } in
      let wiped : Tunnel A = record t { credentials = no_credentials } in
      let (started, k1) =
        start_attempt now d.first_query d.allocated
          (record k { settings_ready = true; tunnel = t }) in
      let next = on_received now random d d.received k1 in
      if k.attempt_started
      then on_received now random d d.received k
      else if not d.locked
      then (true, k)
      else if not (is_supplied d)
      then (true, record k { settings_ready = false; tunnel = wiped })
      else if not started
      then (false, k1)
      else next

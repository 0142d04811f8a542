-- ===== src/Tunnel/Exchange.antt =====
-- The two steps of the task in esp_cf_tunnel.c behind the search: the TLS connection, and the exchange over HTTP/2.
-- What the adapter does in a call of it is a sequence of the tunnel's callbacks, with the result of that call.
use esp_cf_tunnel.Prelude.{
  ℕ, zero, suc, ◌+◌, ◌-◌, Bool, true, false, ◌||◌, ◌&&◌, not, List, [], ◌∷◌, ltb, leb, ◌==◌,
  if◌then◌else◌, length,
}
use esp_cf_tunnel.Core.{Bytes, CfResult, u64}
use esp_cf_tunnel.Lifecycle
use esp_cf_tunnel.Json.{Cjson}
use esp_cf_tunnel.Tunnel.{Tunnel, Firmware, advanced}
use esp_cf_tunnel.Tunnel.Calls
use esp_cf_tunnel.Tunnel.Calls.{Call}
use esp_cf_tunnel.Tunnel.Streams.{is_closed, is_http2}
use esp_cf_tunnel.Tunnel.Transfers.{apply_config}
use esp_cf_tunnel.Tunnel.Task.{Task, with_tunnel}

abbrev pub Callbacks : Type 0
Callbacks = List (Bytes × ℕ × Call)

-- What `esp_tls_conn_new_async` returns: below 0, 0, or 1.
pub data Progress : Type 0 where
  broken in_progress complete : Progress

-- What `connect_tls` gets from outside; `shakes_hands` tells whether the state is `ESP_TLS_HANDSHAKE`.
pub record Handshake : Type 0 where
  pub shakes_hands : Bool
  pub progress : Progress
  pub created : Bool

-- A round of the loop of reads: nothing to read, an error or the end, or input, with what `cf_h2_receive` does with
-- it and whether it takes all of it.
pub data Read : Type 0 where
  no_input input_ends : Read
  input : Callbacks → Bool → Read

-- A round of the loop of writes. The adapter first asks for output: none, an error, or output, with the
-- callbacks that it makes; then TLS blocks, fails, or takes some of it.
pub data Write : Type 0 where
  no_output output_fails blocks write_fails writes : Callbacks → Write

-- What `communicate` gets from outside: the two loops, `stats`, the update, and the last request for output.
pub record Exchange : Type 0 where
  pub reads : List Read
  pub writes : List Write
  pub peer_settings : Bool
  pub goaway : Bool
  pub lib : Cjson
  pub locked : Bool
  pub submitted : CfResult
  pub last_output : Callbacks

abbrev pub is_complete : Progress → Bool
is_complete complete = true
is_complete _ = false

abbrev pub is_connect : Lifecycle.CfState → Bool
is_connect Lifecycle.connect = true
is_connect _ = false

abbrev pub is_wait_config : Lifecycle.CfState → Bool
is_wait_config Lifecycle.wait_config = true
is_wait_config _ = false

module _ {A : Type 0} (firmware : Firmware A) where
  -- The event of `connect_tls`.
  abbrev pub connected : Handshake → Tunnel A → Tunnel A
  connected h t =
      if is_connect t.life.phase && (h.shakes_hands || is_complete h.progress)
      then advanced Lifecycle.connected t
      else t

  -- `connect_tls` behind that event.
  unfoldable pub on_progress : Progress → ℕ → Bool → Task A → Bool × Task A
  on_progress broken now created k = (false, k)
  on_progress in_progress now created k = (ltb now k.tunnel.deadline_ms, k)
  on_progress complete now created k =
      let t : Tunnel A = advanced Lifecycle.tls_ready k.tunnel in
      if not created
      then (false, k)
      else (true, record k { has_h2 = true; tunnel = record t { deadline_ms = u64 (now + 30000) } })

  -- `connect_tls`
  unfoldable pub connect_tls : ℕ → Handshake → Task A → Bool × Task A
  connect_tls now h k =
      on_progress h.progress now h.created (with_tunnel firmware k (connected h k.tunnel))

  -- The loop of reads, with `left` rounds to go.
  unfoldable pub read_loop : ℕ → List Read → Tunnel A → Bool × Tunnel A
  read_loop zero rs t = (true, t)
  read_loop (suc left) [] t = (true, t)
  read_loop (suc left) (no_input ∷ rs) t = (true, t)
  read_loop (suc left) (input_ends ∷ rs) t = (false, t)
  read_loop (suc left) (input calls good ∷ rs) t =
      let t' = Calls.run firmware calls t in
      let next = read_loop left rs t' in if good then next else (false, t')

  -- The loop of writes: whether there is no failure, the tunnel, and `write_stalled_ms`.
  unfoldable pub write_loop : ℕ → ℕ → List Write → Tunnel A → ℕ → Bool × Tunnel A × ℕ
  write_loop zero now ws t stalled = (true, t, stalled)
  write_loop (suc left) now [] t stalled = (true, t, stalled)
  write_loop (suc left) now (no_output calls ∷ ws) t stalled =
      (true, Calls.run firmware calls t, stalled)
  write_loop (suc left) now (output_fails calls ∷ ws) t stalled =
      (false, Calls.run firmware calls t, stalled)
  write_loop (suc left) now (blocks calls ∷ ws) t stalled =
      let since = if stalled == 0 then now else stalled in
      (leb (u64 (now + (Lifecycle.u64_max + 1 - since))) 15000, Calls.run firmware calls t, since)
  write_loop (suc left) now (write_fails calls ∷ ws) t stalled =
      (false, Calls.run firmware calls t, stalled)
  write_loop (suc left) now (writes calls ∷ ws) t stalled =
      write_loop left now ws (Calls.run firmware calls t) 0

  -- `communicate` from the writes on.
  unfoldable pub send_output : ℕ → Exchange → Task A → Bool × Task A
  send_output now e k =
      let (good, t, stalled) = write_loop 8 now e.writes k.tunnel k.write_stalled_ms in
      let k' : Task A = record k { tunnel = t; write_stalled_ms = stalled } in
      let late = leb t.deadline_ms now in
      if not good
      then (false, k')
      else if (not t.life.is_registered || is_wait_config t.life.phase) && late
      then (false, k')
      else (true, with_tunnel firmware k' (Calls.run firmware e.last_output t))

  -- `communicate` behind the reads.
  unfoldable pub on_input : ℕ → Bytes → Exchange → Task A → Bool × Task A
  on_input now out e k =
      let t1 : Tunnel A =
        if e.peer_settings && is_http2 k.tunnel.life.phase
        then advanced Lifecycle.http2_ready k.tunnel
        else k.tunnel in
      let k1 = with_tunnel firmware k t1 in
      let t2 : Tunnel A = (apply_config firmware out now e.lib e.locked e.submitted t1).1 in
      let shuts = t2.stopping && is_closed t2.rpc.phase && length t2.rpc_queue == 0 in
      let k2 : Task A = record k {
        tunnel = t2;
        goaway_sent = if shuts then true else k.goaway_sent;
      } in
      if e.goaway && not t1.stopping
      then (false, k1)
      else if t1.fault
      then (false, k1)
      else send_output now e k2

  -- `communicate`
  unfoldable pub communicate : ℕ → Bytes → Exchange → Task A → Bool × Task A
  communicate now out e k =
      let (good, t) =
        if k.write_stalled_ms == 0 then read_loop 8 e.reads k.tunnel else (true, k.tunnel) in
      let k' = with_tunnel firmware k t in if not good then (false, k') else on_input now out e k'

-- ===== src/Tunnel/Loop.antt =====
-- The loop of the task in esp_cf_tunnel.c, and the calls of its owner.
use esp_cf_tunnel.Prelude.{
  ℕ, ◌+◌, Bool, true, false, ◌||◌, ◌&&◌, not, none, some, List, [], ◌∷◌, leb, ◌==◌, if◌then◌else◌,
  take,
}
use esp_cf_tunnel.Core.{Bytes, u64}
use esp_cf_tunnel.Lifecycle
use esp_cf_tunnel.Rpc
use esp_cf_tunnel.Rpc.{Reply, tx_max}
use esp_cf_tunnel.Tunnel.{Tunnel, Firmware, append_rpc}
use esp_cf_tunnel.Tunnel.Task.{Task, Discovery, close_connection, retry, discover, with_tunnel}
use esp_cf_tunnel.Tunnel.Exchange.{Handshake, Exchange, connect_tls, communicate}

-- What one round gets from outside.
pub record Round : Type 0 where
  pub now : ℕ
  pub random : ℕ
  pub out : Bytes
  pub network_ready : Bool
  pub time_valid : Bool
  pub local_ip : Bytes
  pub open_streams : List (ℕ × ℕ)
  pub discovery : Discovery
  pub handshake : Handshake
  pub exchange : Exchange

-- `esp_err_t`, the values that the owner's calls return.
pub data EspResult : Type 0 where
  success invalid_argument invalid_state no_memory : EspResult

-- A call of the owner, where `starts` says whether there is memory for the task, or a round of the task.
pub data Move : Type 0 where
  starts : Bool → Move
  reloads stops : Move
  turns : Round → Move

abbrev pub is_discovery : Lifecycle.CfState → Bool
is_discovery Lifecycle.discovery = true
is_discovery _ = false

abbrev pub is_connecting : Lifecycle.CfState → Bool
is_connecting Lifecycle.connect = true
is_connecting Lifecycle.tls = true
is_connecting _ = false

abbrev pub is_registered : Rpc.State → Bool
is_registered Rpc.registered = true
is_registered _ = false

module _ {A : Type 0} (firmware : Firmware A) where
  -- A reload at the begin of a round.
  unfoldable pub reload : List (ℕ × ℕ) → Task A → Task A
  reload open_streams k =
      let k' = close_connection firmware open_streams k in
      let life = (Lifecycle.start (Lifecycle.stop k'.tunnel.life)).0 in
      record k' {
        settings_ready = false;
        tunnel = record k'.tunnel { life = life; stopping = false };
      }

  -- A stop at the begin of a round, of a registered connection.
  unfoldable pub begin_stop : ℕ → Bytes → Task A → Task A
  begin_stop now out k =
      let reply : Reply = Rpc.unregister k.tunnel.rpc out tx_max in
      let t : Tunnel A = record k.tunnel { rpc = reply.rpc } in
      let queued = (append_rpc t (take reply.written reply.buffer)).2 in
      let t' : Tunnel A = elim reply.result [ none ↦ queued | some e ↦ t ] in
      record k {
        shutdown_ms = u64 (now + 2000);
        tunnel = record t' {
          stopping = true;
          life = record t'.life { phase = Lifecycle.stopping };
        };
      }

  -- The begin of a round; `false` leaves the loop.
  unfoldable pub requests : Round → Task A → Bool × Task A
  requests r k =
      let k0 : Task A = record k { reload_requested = false } in
      let k1 =
        if k.reload_requested && not k.stop_requested then reload r.open_streams k0 else k0 in
      if k.stop_requested && not k1.tunnel.stopping
      then (if k1.has_h2 && is_registered k1.tunnel.rpc.phase
          then (true, begin_stop r.now r.out k1)
          else (false, k1))
      else (true, k1)

  -- The network and the time.
  unfoldable pub environment : Round → Task A → Bool × Task A
  environment r k =
      let lost = not r.network_ready || not r.time_valid in
      let k0 = with_tunnel firmware k (record k.tunnel { local_ip = r.local_ip }) in
      let k1 =
        if lost && (k0.has_tls || k0.has_socket)
        then close_connection firmware r.open_streams k0
        else k0 in
      let life = Lifecycle.environment k1.tunnel.life r.network_ready r.time_valid in
      if lost && k0.tunnel.stopping
      then (false, k0)
      else (true, with_tunnel firmware k1 (record k1.tunnel { life = Lifecycle.tick life r.now }))

  -- `if (!step(t)) retry(t, t->message)`
  unfoldable pub or_retry : Round → Bool × Task A → Task A
  or_retry r (true, k) = k
  or_retry r (false, k) = retry firmware r.open_streams r.now r.random k

  -- The step of a round that the phase asks for; `false` leaves the loop.
  unfoldable pub work : Round → Task A → Bool × Task A
  work r k =
      let (good, k') = communicate firmware r.now r.out r.exchange k in
      if is_discovery k.tunnel.life.phase
      then (true, or_retry r (discover firmware r.now r.random r.discovery k))
      else if is_connecting k.tunnel.life.phase
      then (true, or_retry r (connect_tls firmware r.now r.handshake k))
      else if not k.has_h2
      then (true, k)
      else if not good && k'.tunnel.stopping
      then (false, k')
      else (true, or_retry r (good, k'))

  -- Whether a stop is over.
  abbrev pub is_over : Round → Task A → Bool
  is_over r k =
      k.tunnel.stopping
      && (leb k.shutdown_ms r.now || (k.goaway_sent && k.tunnel.control_stream == 0))

  -- What follows the loop.
  unfoldable pub finish : List (ℕ × ℕ) → Task A → Task A
  finish open_streams k =
      let k' = close_connection firmware open_streams k in
      record k' {
        is_running = false;
        tunnel = record k'.tunnel { life = Lifecycle.stop k'.tunnel.life };
      }

  -- One round of the loop in `run`; the round that leaves the loop ends the task.
  unfoldable pub round : Round → Task A → Task A
  round r k =
      let (stays1, k1) = requests r k in
      let (stays2, k2) = environment r k1 in
      let (stays3, k3) = work r k2 in
      if not stays1
      then finish r.open_streams k1
      else if not stays2
      then finish r.open_streams k2
      else if not stays3
      then finish r.open_streams k3
      else if is_over r k3
      then finish r.open_streams k3
      else k3

  -- `esp_cf_tunnel_start`; the new task starts the lifecycle before its first round.
  unfoldable pub start : Bool → Task A → EspResult × Task A
  start created k =
      let k1 : Task A = record k {
        stop_requested = false;
        reload_requested = false;
        tunnel = record k.tunnel { stopping = false };
      } in
      let life = (Lifecycle.start k1.tunnel.life).0 in
      if k.is_running
      then (invalid_state, k)
      else if not created
      then (no_memory, k1)
      else (success, record k1 { is_running = true; tunnel = record k1.tunnel { life = life } })

  unfoldable pub move : Move → Task A → Task A
  move (starts created) k = (start created k).1
  move reloads k = record k { reload_requested = true }
  move stops k = record k { stop_requested = true }
  move (turns r) k = if k.is_running then round r k else k

  unfoldable pub moves : List Move → Task A → Task A
  moves [] k = k
  moves (m ∷ ms) k = moves ms (move m k)

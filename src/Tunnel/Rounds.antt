-- ===== src/Tunnel/Rounds.antt =====
-- The begin of a round of the task in esp_cf_tunnel.c: the requests of the owner, the network and the time.
use mathlib.Core.Path.{subst}
use esp_cf_tunnel.Prelude.{
  either, either_at, ℕ, ◌≡◌, ◌⊎◌, inl, inr, sym, ap, ◌∙◌, Bool, true, false, ◌||◌, ◌&&◌, not, none,
  some, if◌then◌else◌, take, arith,
}
use esp_cf_tunnel.Core.{Bytes, CfResult}
use esp_cf_tunnel.Lifecycle.{Lifecycle, environment, tick}
use esp_cf_tunnel.Lifecycle.Invariant.{IsValid, environment-IsValid, tick-IsValid}
use esp_cf_tunnel.Rpc
use esp_cf_tunnel.Rpc.{Rpc, Reply, tx_max}
use esp_cf_tunnel.Tunnel.{Tunnel, Firmware, append_rpc}
use esp_cf_tunnel.Tunnel.Task.{Task, with_tunnel, close_connection}
use esp_cf_tunnel.Tunnel.Invariant.{Serving, append_rpc-Serving}
use esp_cf_tunnel.Tunnel.Late.{is_late, is_stopping}
use esp_cf_tunnel.Tunnel.Loop
use esp_cf_tunnel.Tunnel.Loop.{
  Round, Move, EspResult, success, invalid_state, no_memory, start, is_discovery, is_connecting,
  is_registered, reload, begin_stop, or_retry, work, is_over, finish, round, move, moves,
}
use esp_cf_tunnel.Tunnel.Stages.{is_attempt, Idle, Trying, Open, Active, Goes}
use esp_cf_tunnel.Tunnel.Closing.{
  close_connection_keeps, close_connection-Quiet, close_connection-Serving, reload-Idle,
}
use esp_cf_tunnel.Tunnel.Phases.{
  is_alive, is_waiting, idle_stays, lost_idle, kept_phase, configured_earlier, attempt_waiting,
  late_waiting, runs_of, alive_of, relived-Serving, stopping-Linked,
}

module _ {A : Type 0} (firmware : Firmware A) where
  pub begin_stop-Open :
      (now : ℕ) (out : Bytes) (k : Task A)
      → Serving k.tunnel
      → Open k
      → Serving (begin_stop firmware now out k).tunnel × Open (begin_stop firmware now out k)
  unfolding begin_stop
  begin_stop-Open now out k v (linked, up) =
      let reply : Reply = Rpc.unregister k.tunnel.rpc out tx_max in
      let t : Tunnel A = record k.tunnel { rpc = reply.rpc } in
      let queued = (append_rpc t (take reply.written reply.buffer)).2 in
      let t' : Tunnel A = elim reply.result [ none ↦ queued | some e ↦ t ] in
      let served = append_rpc-Serving t (take reply.written reply.buffer) v in
      let (w, linked') = stopping-Linked t' (by_result queued t reply.result served v) in
      (w, (linked', up))
    where
      by_result :
          (t t' : Tunnel A) (rc : CfResult)
          → Serving t
          → Serving t'
          → Serving (elim rc [ none ↦ t | some e ↦ t' ])
      by_result t t' none w w' = w
      by_result t t' (some e) w w' = w'

  pub requests-Goes :
      (r : Round) (k : Task A) → Serving k.tunnel → Active k → Goes (Loop.requests firmware r k)
  unfolding Loop.requests
  requests-Goes r k v a =
      let k0 : Task A = record k { reload_requested = false } in
      let runs = runs_of k a in
      let reloads = k.reload_requested && not k.stop_requested in
      let k1 = if reloads then reload firmware r.open_streams k0 else k0 in
      let (w, idle) = reload-Idle firmware r.open_streams k0 v.lifecycle runs in
      let one : Goes (true, k1) =
        either (λ z. Goes (true, z)) reloads (reload firmware r.open_streams k0) k0 (w, inl idle)
          (v, a) in
      let registered = k1.has_h2 && is_registered k1.tunnel.rpc.phase in
      let k2 = begin_stop firmware r.now r.out k1 in
      either Goes (k.stop_requested && not k1.tunnel.stopping)
        (if registered then (true, k2) else (false, k1)) (true, k1)
        (either_at Goes registered (true, k2) (false, k1) (λ h. begins k1 one (both k1.has_h2 _ h))
          (λ h. one))
        one
    where
      both : (b c : Bool) → b && c ≡ true → b ≡ true
      both b c h = ground (arith, h)

      begins :
          (k : Task A)
          → Goes (true, k)
          → k.has_h2 ≡ true
          → Goes (true, begin_stop firmware r.now r.out k)
      begins k (v, inl (idle, going, runs, q)) h = absurd (ground (arith, h, q.no_h2))
      begins k (v, inr (inl (started, t))) h = absurd (ground (arith, h, t.no_h2))
      begins k (v, inr (inr o)) h =
          let (w, o') = begin_stop-Open r.now r.out k v o in (w, inr (inr o'))

  -- The new environment and the clock reach the lifecycle.
  abbrev pub aired : Round → Task A → Task A
  aired r k =
      let life = tick (environment k.tunnel.life r.network_ready r.time_valid) r.now in
      with_tunnel firmware k (record k.tunnel { life = life })

  aired-IsValid :
      (r : Round) (l : Lifecycle)
      → IsValid l
      → IsValid (tick (environment l r.network_ready r.time_valid) r.now)
  aired-IsValid r l v = tick-IsValid _ r.now (environment-IsValid l r.network_ready r.time_valid v)

  lost-Goes :
      (r : Round) (k : Task A)
      → Serving k.tunnel
      → Active k
      → not r.network_ready || not r.time_valid ≡ true
      → k.tunnel.stopping ≡ false
      → Goes (true, aired r (close_connection firmware r.open_streams k))
  lost-Goes r k v a lost s =
      let (same, flag, running) = close_connection_keeps firmware r.open_streams k in
      let valid = subst IsValid (sym same) v.lifecycle in
      let alive = subst (λ l. is_alive l.phase ≡ true) (sym same) (alive_of k a s) in
      let life = (close_connection firmware r.open_streams k).tunnel.life in
      let (idle, unset) = lost_idle life r.network_ready r.time_valid r.now valid lost alive in
      let quiet = close_connection-Quiet firmware r.open_streams k in
      (
        close_connection-Serving firmware r.open_streams k _ (aired-IsValid r life valid) unset,
        inl (idle, flag ∙ s, running ∙ runs_of k a, quiet),
      )

  pub aired-Serving : (r : Round) (k : Task A) → Serving k.tunnel → Serving (aired r k).tunnel
  aired-Serving r k v =
      relived-Serving k.tunnel _ k.tunnel.local_ip (aired-IsValid r k.tunnel.life v.lifecycle)
        (configured_earlier k.tunnel.life r.network_ready r.time_valid r.now) v

  waits-Goes : (r : Round) (k : Task A) → Serving k.tunnel → Idle k → Goes (true, aired r k)
  waits-Goes r k v (idle, going, runs, q) = (
    aired-Serving r k v,
    inl (idle_stays k.tunnel.life r.network_ready r.time_valid r.now idle, going, runs, q),
  )

  -- A connection keeps its state while network and time are there.
  module _ (r : Round) (k : Task A) (there : not r.network_ready || not r.time_valid ≡ false) where
    aired_same :
        is_waiting k.tunnel.life.phase ≡ false → (aired r k).tunnel.life.phase ≡ k.tunnel.life.phase
    aired_same h = kept_phase k.tunnel.life r.network_ready r.time_valid r.now there h

    aired-Trying : Trying k → Trying (aired r k)
    aired-Trying (started, t) =
        let phase = aired_same (attempt_waiting k.tunnel.life.phase t.phased) in
        (
          started,
          record {
            phased = ap is_attempt phase ∙ t.phased;
            going = t.going;
            runs = t.runs;
            no_h2 = t.no_h2;
            socket = t.socket ∙ sym (ap is_discovery phase);
            tls = t.tls ∙ sym (ap (λ p. not (is_discovery p)) phase);
            no_rpc = t.no_rpc;
            no_control = t.no_control;
          },
        )

    pub aired-Open : Open k → Open (aired r k)
    aired-Open (inl early, up) =
        let phase = aired_same (ap is_waiting early.phase) in
        (
          inl (record {
            valid = aired-IsValid r k.tunnel.life early.valid;
            phase = phase ∙ early.phase;
            flag = early.flag;
            going = early.going;
            unopened = early.unopened;
            unused = early.unused;
          }),
          up,
        )
    aired-Open (inr (valid, late, flag, halts), up) =
        let phase = aired_same (late_waiting k.tunnel.life.phase late) in
        (
          inr (
            aired-IsValid r k.tunnel.life valid,
            ap is_late phase ∙ late,
            flag,
            ap is_stopping phase ∙ halts,
          ),
          up,
        )

    aired-Goes : Serving k.tunnel → Trying k ⊎ Open k → Goes (true, aired r k)
    aired-Goes v (inl t) = (aired-Serving r k v, inr (inl (aired-Trying t)))
    aired-Goes v (inr o) = (aired-Serving r k v, inr (inr (aired-Open o)))

  connection_there :
      (k : Task A) (lost : Bool)
      → Trying k ⊎ Open k
      → lost && (k.has_tls || k.has_socket) ≡ false
      → lost ≡ false
  connection_there k lost (inl (started, t)) h =
      by_phase (is_discovery k.tunnel.life.phase) t.socket t.tls
    where
      by_phase : (d : Bool) → k.has_socket ≡ d → k.has_tls ≡ not d → lost ≡ false
      by_phase d p q = ground (arith, h, p, q)
  connection_there k lost (inr (linked, up)) h = ground (arith, h, up.tls)

  pub environment-Goes :
      (r : Round) (k : Task A) → Serving k.tunnel → Active k → Goes (Loop.environment firmware r k)
  unfolding Loop.environment
  environment-Goes r k v a =
      let lost = not r.network_ready || not r.time_valid in
      let k0 = with_tunnel firmware k (record k.tunnel { local_ip = r.local_ip }) in
      let w = relived-Serving k.tunnel k.tunnel.life r.local_ip v.lifecycle (λ h. h) v in
      let closes = lost && (k0.has_tls || k0.has_socket) in
      let closed = close_connection firmware r.open_streams k0 in
      let k1 = if closes then closed else k0 in
      either_at Goes (lost && k0.tunnel.stopping) (false, k0) (true, aired r k1) (λ h. (w, a))
        (λ h.
          either_at (λ z. Goes (true, aired r z)) closes closed k0
            (λ c. lost-Goes r k0 w a (first lost _ c) (going lost _ _ c h)) (λ c. stays k0 w a c))
    where
      first : (b c : Bool) → b && c ≡ true → b ≡ true
      first b c h = ground (arith, h)

      going : (b c d : Bool) → b && c ≡ true → b && d ≡ false → d ≡ false
      going b c d h i = ground (arith, h, i)

      stays :
          (k : Task A)
          → Serving k.tunnel
          → Active k
          → (not r.network_ready || not r.time_valid) && (k.has_tls || k.has_socket) ≡ false
          → Goes (true, aired r k)
      stays k v (inl idle) c = waits-Goes r k v idle
      stays k v (inr b) c = aired-Goes r k (connection_there k _ b c) v b

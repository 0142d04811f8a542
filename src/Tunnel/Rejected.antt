-- ===== src/Tunnel/Rejected.antt =====
-- The end of the attempts in esp_cf_tunnel.c once the edge has rejected the registration for good.
use mathlib.Core.Path.{subst}
use esp_cf_tunnel.Prelude.{
  either_at, ℕ, ◌+◌, ◌≡◌, ◌⊎◌, inl, inr, refl, sym, ap, ◌∙◌, Bool, true, false, ◌||◌, ◌&&◌, not,
  List, [], ◌∷◌, All, ltb, if◌then◌else◌, arith,
}
use esp_cf_tunnel.Core.{u32}
use esp_cf_tunnel.Lifecycle
use esp_cf_tunnel.Lifecycle.{Lifecycle, advance, environment, tick}
use esp_cf_tunnel.Lifecycle.Invariant.{IsValid}
use esp_cf_tunnel.Rpc
use esp_cf_tunnel.Rpc.{Rpc}
use esp_cf_tunnel.Tunnel.{Firmware}
use esp_cf_tunnel.Tunnel.Task.{Task, is_rejected, retry, close_connection, with_tunnel}
use esp_cf_tunnel.Tunnel.Late.{is_late, is_stopping}
use esp_cf_tunnel.Tunnel.Loop
use esp_cf_tunnel.Tunnel.Loop.{
  Round, Move, is_discovery, is_connecting, is_registered, reload, begin_stop, work, is_over,
  finish, round, move, moves,
}
use esp_cf_tunnel.Tunnel.Stages.{Quiet, Stopped, Active, Managed, IsHandsOff}
use esp_cf_tunnel.Tunnel.Closing.{close_connection_keeps, close_connection-Quiet, stop_phase}
use esp_cf_tunnel.Tunnel.Rounds.{aired}
use esp_cf_tunnel.Tunnel.Branches.{work-cases, round-cases}

rejected_phase :
    (l : Lifecycle)
    → IsValid l
    → is_late l.phase ≡ true
    → is_stopping l.phase ≡ false
    → (advance l Lifecycle.auth_rejected).0.phase ≡ Lifecycle.auth_failed
unfolding advance
rejected_phase l v h k = ground (arith, v, h, k)

failed_phase :
    (l : Lifecycle) (network time_valid : Bool) (now : ℕ)
    → l.phase ≡ Lifecycle.auth_failed
    → (tick (environment l network time_valid) now).phase ≡ Lifecycle.auth_failed
unfolding environment tick
failed_phase l network time_valid now h = ground (arith, h)

unrejected : Rpc.init.phase ≡ Rpc.idle
unfolding Rpc.init
unrejected = refl

module _ {A : Type 0} where
  -- The rejection stands: nothing is open, and the task waits for its owner.
  abbrev Refused : Task A → Type 0
  Refused k =
      (k.tunnel.life.phase ≡ Lifecycle.auth_failed)
      × (k.tunnel.stopping ≡ false)
      × (k.reload_requested ≡ false)
      × Quiet k

  abbrev Keeps : Bool × Task A → Type 0
  Keeps s = Refused s.1

  abbrev Over : Task A → Type 0
  Over k = (k.tunnel.life.phase ≡ Lifecycle.stopped) × (k.is_running ≡ false) × Quiet k

  abbrev Holds : Task A → Type 0
  Holds k = Refused k ⊎ Over k

  -- The rejection came over a served connection.
  rejected_late :
      (k : Task A)
      → Managed k
      → is_rejected k.tunnel.rpc.phase ≡ true
      → IsValid k.tunnel.life
        × (is_late k.tunnel.life.phase ≡ true)
        × (is_stopping k.tunnel.life.phase ≡ k.tunnel.stopping)
  rejected_late k (v, stage) h = by_stage stage
    where
      unused : k.tunnel.rpc ≡ Rpc.init → is_rejected k.tunnel.rpc.phase ≡ false
      unused e = ap (λ (r : Rpc). is_rejected r.phase) e ∙ ap is_rejected unrejected

      by_stage :
          Stopped k ⊎ Active k
          → IsValid k.tunnel.life
            × (is_late k.tunnel.life.phase ≡ true)
            × (is_stopping k.tunnel.life.phase ≡ k.tunnel.stopping)
      by_stage (inl (phase, ended, q)) = absurd (ground (arith, h, unused q.no_rpc))
      by_stage (inr (inl (idle, going, runs, q))) = absurd (ground (arith, h, unused q.no_rpc))
      by_stage (inr (inr (inl (started, t)))) = absurd (ground (arith, h, unused t.no_rpc))
      by_stage (inr (inr (inr (inl early, up)))) = absurd (ground (arith, h, unused early.unused))
      by_stage (inr (inr (inr (inr (valid, late, flag, phase), up)))) = (valid, late, phase)

module _ {A : Type 0} (firmware : Firmware A) where
  finish-Over : (ids : List (ℕ × ℕ)) (k : Task A) → Over (finish firmware ids k)
  unfolding finish
  finish-Over ids k = ((stop_phase _).0, refl, close_connection-Quiet firmware ids k)

  requests-Refused : (r : Round) (k : Task A) → Refused k → Refused (Loop.requests firmware r k).1
  unfolding Loop.requests
  requests-Refused r k (phase, going, unasked, q) =
      let k0 : Task A = record k { reload_requested = false } in
      let reloads = k.reload_requested && not k.stop_requested in
      let stays : Refused k0 = (phase, going, refl, q) in
      either_at
        (λ k1. Keeps (
          if k.stop_requested && not k1.tunnel.stopping
          then (if k1.has_h2 && is_registered k1.tunnel.rpc.phase
              then (true, begin_stop firmware r.now r.out k1)
              else (false, k1))
          else (true, k1)))
        reloads (reload firmware r.open_streams k0) k0 (λ h. absurd (ground (arith, h, unasked)))
        (λ h.
          either_at Keeps (k.stop_requested && not k.tunnel.stopping) _ (true, k0)
            (λ h.
              either_at Keeps (k.has_h2 && is_registered k.tunnel.rpc.phase)
                (true, begin_stop firmware r.now r.out k0) (false, k0)
                (λ g. absurd (ground (arith, g, q.no_h2))) (λ g. stays))
            (λ h. stays))

  environment-Refused :
      (r : Round) (k : Task A) → Refused k → Refused (Loop.environment firmware r k).1
  unfolding Loop.environment
  environment-Refused r k (phase, going, unasked, q) =
      let lost = not r.network_ready || not r.time_valid in
      let k0 = with_tunnel firmware k (record k.tunnel { local_ip = r.local_ip }) in
      let closes = lost && (k0.has_tls || k0.has_socket) in
      let closed = close_connection firmware r.open_streams k0 in
      let k1 = if closes then closed else k0 in
      let phase' = failed_phase k.tunnel.life r.network_ready r.time_valid r.now phase in
      either_at Keeps (lost && k0.tunnel.stopping) (false, k0) (true, aired firmware r k1)
        (λ h. (phase, going, unasked, q))
        (λ h.
          either_at (λ z. Refused (aired firmware r z)) closes closed k0
            (λ c. absurd (ground (arith, c, q.no_tls, q.no_socket)))
            (λ c. (phase', going, unasked, q)))

  work-Refused : (r : Round) (k : Task A) → Refused k → work firmware r k ≡ (true, k)
  work-Refused r k (phase, going, unasked, q) =
      work-cases firmware (λ s. s ≡ (true, k)) r k
        (λ h. absurd (ground (arith, h, ap is_discovery phase)))
        (λ d h. absurd (ground (arith, h, ap is_connecting phase))) (λ h. refl)
        (λ h f. absurd (ground (arith, h, q.no_h2))) (λ h f. absurd (ground (arith, h, q.no_h2)))

  round-Holds : (r : Round) (k : Task A) → Refused k → Holds (round firmware r k)
  round-Holds r k v =
      let s1 = Loop.requests firmware r k in
      let s2 = Loop.environment firmware r s1.1 in
      let s3 = work firmware r s2.1 in
      let v2 = environment-Refused r s1.1 (requests-Refused r k v) in
      let v3 = subst Keeps (sym (work-Refused r s2.1 v2)) v2 in
      round-cases firmware Holds r k (inr (finish-Over r.open_streams s1.1))
        (λ h. inr (finish-Over r.open_streams s2.1)) (λ h i. inr (finish-Over r.open_streams s3.1))
        (λ h i j o. inl v3)

  move-Holds : (m : Move) (k : Task A) → IsHandsOff m → Holds k → Holds (move firmware m k)
  unfolding move
  move-Holds (Loop.starts created) k n v = absurd n
  move-Holds Loop.reloads k n v = absurd n
  move-Holds Loop.stops k n v = v
  move-Holds (Loop.turns r) k n (inl v) =
      either_at Holds k.is_running _ _ (λ h. round-Holds r k v) (λ h. inl v)
  move-Holds (Loop.turns r) k n (inr (phase, ended, q)) =
      either_at Holds k.is_running _ _ (λ h. absurd (ground (arith, h, ended)))
        (λ h. inr (phase, ended, q))

  moves-Holds :
      (ms : List Move) (k : Task A) → All IsHandsOff ms → Holds k → Holds (moves firmware ms k)
  unfolding moves
  moves-Holds [] k n v = v
  moves-Holds (m ∷ ms) k (n, ns) v = moves-Holds ms _ ns (move-Holds m k n v)

  retry-Refused :
      (ids : List (ℕ × ℕ)) (now random : ℕ) (k : Task A)
      → Managed k
      → is_rejected k.tunnel.rpc.phase ≡ true
      → k.tunnel.rpc.should_retry ≡ false
      → k.tunnel.stopping ≡ false
      → k.reload_requested ≡ false
      → Refused (retry firmware ids now random k)
  unfolding retry close_connection
  retry-Refused ids now random k v rejected final going unasked =
      let t = k.tunnel in
      let (valid, late, phase) = rejected_late k v rejected in
      let hint = if is_rejected t.rpc.phase then t.rpc.retry_after_ms else 0 in
      let most = if ltb Lifecycle.u32_max hint then Lifecycle.u32_max else hint in
      let life =
        if is_rejected t.rpc.phase && not t.rpc.should_retry
        then (advance t.life Lifecycle.auth_rejected).0
        else (Lifecycle.retry t.life now most random).0 in
      let k' : Task A = record k {
        last_failure_ms = now;
        failures = u32 (k.failures + 1);
        tunnel = record t { life = life };
      } in
      let failed : life.phase ≡ Lifecycle.auth_failed =
        either_at (λ (l : Lifecycle). l.phase ≡ Lifecycle.auth_failed)
          (is_rejected t.rpc.phase && not t.rpc.should_retry)
          (advance t.life Lifecycle.auth_rejected).0 (Lifecycle.retry t.life now most random).0
          (λ h. rejected_phase t.life valid late (phase ∙ going))
          (λ h. absurd (ground (arith, h, rejected, final))) in
      let (same, flag, running) = close_connection_keeps firmware ids k' in
      let quiet = close_connection-Quiet firmware ids k' in
      (ap (λ (l : Lifecycle). l.phase) same ∙ failed, flag ∙ going, unasked, quiet)

  -- When the edge has rejected the registration and forbidden a retry, the failure of the connection ends the attempts:
  -- through any rounds, and requests for a stop, until the owner reloads or starts, no socket, TLS or HTTP/2
  -- is opened and the credentials stay wiped, with the state auth_failed or, after a stop, stopped.
  pub rejection_holds :
      (ids : List (ℕ × ℕ)) (now random : ℕ) (k : Task A) (ms : List Move)
      → Managed k
      → is_rejected k.tunnel.rpc.phase ≡ true
      → k.tunnel.rpc.should_retry ≡ false
      → k.tunnel.stopping ≡ false
      → k.reload_requested ≡ false
      → All IsHandsOff ms
      → let k' = moves firmware ms (retry firmware ids now random k) in
        Quiet k'
        × ((k'.tunnel.life.phase ≡ Lifecycle.auth_failed)
            ⊎ (k'.tunnel.life.phase ≡ Lifecycle.stopped))
  rejection_holds ids now random k ms v rejected final going unasked n =
      let k' = retry firmware ids now random k in
      let refused = retry-Refused ids now random k v rejected final going unasked in
      shown (moves firmware ms k') (moves-Holds ms k' n (inl refused))
    where
      shown :
          (k : Task A)
          → Holds k
          → Quiet k
            × ((k.tunnel.life.phase ≡ Lifecycle.auth_failed)
                ⊎ (k.tunnel.life.phase ≡ Lifecycle.stopped))
      shown k (inl (phase, going, unasked, q)) = (q, inl phase)
      shown k (inr (phase, ended, q)) = (q, inr phase)

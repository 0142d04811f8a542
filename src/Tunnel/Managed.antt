-- ===== src/Tunnel/Managed.antt =====
-- A round of the task in esp_cf_tunnel.c, and any moves of the task and its owner.
use esp_cf_tunnel.Prelude.{
  either, either_at, ◌≤◌, ◌≡◌, inl, inr, refl, ap, ◌∙◌, Bool, true, false, ◌&&◌, not, List, [], ◌∷◌,
  All, arith,
}
use esp_cf_tunnel.Lifecycle
use esp_cf_tunnel.Lifecycle.{CfState, Lifecycle, environment, tick}
use esp_cf_tunnel.Tunnel.{Firmware}
use esp_cf_tunnel.Tunnel.Task.{Task}
use esp_cf_tunnel.Tunnel.Invariant.{Serving}
use esp_cf_tunnel.Tunnel.Exchange.{communicate}
use esp_cf_tunnel.Tunnel.Loop
use esp_cf_tunnel.Tunnel.Loop.{
  Round, Move, EspResult, success, invalid_state, no_memory, start, is_discovery, is_connecting,
  is_registered, reload, begin_stop, or_retry, work, is_over, finish, round, move, moves,
}
use esp_cf_tunnel.Tunnel.Stages.{Open, Active, Managed, Goes, InRange, AreInRange}
use esp_cf_tunnel.Tunnel.Closing.{is_early, retry-Idle, finish-Stopped, started-Ends}
use esp_cf_tunnel.Tunnel.Queries.{Failed, Stepped}
use esp_cf_tunnel.Tunnel.Search.{discover-Stepped}
use esp_cf_tunnel.Tunnel.Handshakes.{connect_tls-Stepped}
use esp_cf_tunnel.Tunnel.Steps.{Exchanged, communicated-Open, communicate-Exchanged}
use esp_cf_tunnel.Tunnel.Phases.{
  in_discovery, not_connecting, late_served, runs_of, relived-Serving,
}
use esp_cf_tunnel.Tunnel.Rounds.{requests-Goes, environment-Goes}
use esp_cf_tunnel.Tunnel.Branches.{work-cases, round-cases}

module _ {A : Type 0} (firmware : Firmware A) where
  or_retry-Active :
      (r : Round) (s : Bool × Task A)
      → r.now ≤ Lifecycle.u64_max
      → Stepped s
      → Serving (or_retry firmware r s).tunnel × Active (or_retry firmware r s)
  unfolding or_retry
  or_retry-Active r (true, k) n v = v
  or_retry-Active r (false, k) n (valid, fails, going, runs) =
      let (serving, idle) =
        retry-Idle firmware r.open_streams r.now r.random k n valid fails going runs in
      (serving, inl idle)

module _ {A : Type 0} (firmware : Firmware A) where
  communicated-Goes : (k : Task A) (s : Bool × Task A) → Exchanged k s → Goes (false, s.1)
  communicated-Goes k s x = let (v, o, flag) = communicated-Open k s x in (v, inr (inr o))

  communicated-Stepped :
      (k : Task A) (s : Bool × Task A)
      → Exchanged k s
      → not s.0 && s.1.tunnel.stopping ≡ false
      → Stepped s
  communicated-Stepped k s x f = let (v, o, flag) = communicated-Open k s x in stepped s.0 s.1 v o f
    where
      failed : (k : Task A) → Serving k.tunnel → Open k → k.tunnel.stopping ≡ false → Failed k
      failed k v (inl early, up) f =
          (v.lifecycle, inl (ap is_early early.phase, early.unused), f, up.runs)
      failed k v (inr (valid, late, flag, phase), up) f = (valid, inr (late, phase ∙ f), f, up.runs)

      stepped :
          (b : Bool) (k : Task A)
          → Serving k.tunnel
          → Open k
          → not b && k.tunnel.stopping ≡ false
          → Stepped (b, k)
      stepped true k v o f = (v, inr (inr o))
      stepped false k v o f = failed k v o f

  -- A connection with HTTP/2 is behind the search and the handshake.
  pub phases_up :
      (k : Task A)
      → Open k
      → (is_discovery k.tunnel.life.phase ≡ false) × (is_connecting k.tunnel.life.phase ≡ false)
  phases_up k (inl early, up) = (ap is_discovery early.phase, ap is_connecting early.phase)
  phases_up k (inr (valid, late, flag, phase), up) = late_served k.tunnel.life.phase late

  work-Goes :
      (r : Round) (k : Task A) → InRange r → Serving k.tunnel → Active k → Goes (work firmware r k)
  work-Goes r k n v (inl (idle, going, runs, q)) =
      work-cases firmware Goes r k
        (λ h. or_retry-Active firmware r _ n.time_fits (
          discover-Stepped firmware r.now r.random r.discovery k v
            (in_discovery k.tunnel.life.phase h) (inl (idle, going, runs, q))))
        (λ d h. absurd (not_connecting k.tunnel.life.phase idle h))
        (λ h. (v, inl (idle, going, runs, q))) (λ h f. absurd (ground (arith, h, q.no_h2)))
        (λ h f. absurd (ground (arith, h, q.no_h2)))
  work-Goes r k n v (inr (inl (started, t))) =
      work-cases firmware Goes r k
        (λ h. or_retry-Active firmware r _ n.time_fits (
          discover-Stepped firmware r.now r.random r.discovery k v
            (in_discovery k.tunnel.life.phase h) (inr (started, t))))
        (λ d h.
          or_retry-Active firmware r _ n.time_fits
            (connect_tls-Stepped firmware r.now r.handshake k v (started, t) d))
        (λ h. (v, inr (inl (started, t)))) (λ h f. absurd (ground (arith, h, t.no_h2)))
        (λ h f. absurd (ground (arith, h, t.no_h2)))
  work-Goes r k n v (inr (inr (linked, up))) =
      let (undiscovered, unconnecting) = phases_up k (linked, up) in
      let s = communicate firmware r.now r.out r.exchange k in
      let x =
        communicate-Exchanged firmware r.now r.out r.exchange k n.reads_named n.writes_named
          n.last_named v (linked, up) in
      work-cases firmware Goes r k (λ h. absurd (ground (arith, h, undiscovered)))
        (λ d h. absurd (ground (arith, h, unconnecting))) (λ h. absurd (ground (arith, h, up.h2)))
        (λ h f. communicated-Goes k s x)
        (λ h f. or_retry-Active firmware r s n.time_fits (communicated-Stepped k s x f))

  round-Managed :
      (r : Round) (k : Task A)
      → InRange r
      → Serving k.tunnel
      → Active k
      → Managed (round firmware r k)
  round-Managed r k n v a =
      let s1 = Loop.requests firmware r k in
      let g1 = requests-Goes firmware r k v a in
      let s2 = Loop.environment firmware r s1.1 in
      let g2 = environment-Goes firmware r s1.1 g1.0 g1.1 in
      let s3 = work firmware r s2.1 in
      let g3 = work-Goes r s2.1 n g2.0 g2.1 in
      round-cases firmware Managed r k (ends s1.1 g1.0) (λ h. ends s2.1 g2.0)
        (λ h i. ends s3.1 g3.0) (λ h i j o. (g3.0, inr g3.1))
    where
      ends : (k : Task A) → Serving k.tunnel → Managed (finish firmware r.open_streams k)
      ends k v =
          let (w, stopped) = finish-Stopped firmware r.open_streams k v.lifecycle in
          (w, inl stopped)

  start-Managed : (created : Bool) (k : Task A) → Managed k → Managed (start firmware created k).1
  unfolding start
  start-Managed created k v =
      let k1 : Task A = record k {
        stop_requested = false;
        reload_requested = false;
        tunnel = record k.tunnel { stopping = false };
      } in
      let life = (Lifecycle.start k.tunnel.life).0 in
      let k2 : Task A = record k1 {
        is_running = true;
        tunnel = record k1.tunnel { life = life };
      } in
      either_at Result k.is_running (invalid_state, k) _ (λ h. v)
        (λ h. either Result (not created) (no_memory, k1) (success, k2) (refused h v) (started h v))
    where
      Result : EspResult × Task A → Type 0
      Result s = Managed s.1

      refused :
          k.is_running ≡ false
          → Managed k
          → Managed (record k {
            stop_requested = false;
            reload_requested = false;
            tunnel = record k.tunnel { stopping = false };
          })
      refused h (v, inl stopped) = (v, inl stopped)
      refused h (v, inr a) = absurd (ground (arith, h, runs_of k a))

      started :
          k.is_running ≡ false
          → Managed k
          → Managed (record k {
            stop_requested = false;
            reload_requested = false;
            is_running = true;
            tunnel = record k.tunnel { stopping = false; life = (Lifecycle.start k.tunnel.life).0 };
          })
      started h (v, inr a) = absurd (ground (arith, h, runs_of k a))
      started h (v, inl (phase, ended, quiet)) =
          let (valid, idle, unset) = started-Ends k.tunnel.life v.lifecycle phase in
          (
            relived-Serving k.tunnel _ k.tunnel.local_ip valid
                (λ h. absurd (ground (arith, h, unset))) v,
            inr (inl (idle, refl, refl, quiet)),
          )

  move-Managed : (m : Move) (k : Task A) → AreInRange m → Managed k → Managed (move firmware m k)
  unfolding move
  move-Managed (Loop.starts created) k n v = start-Managed created k v
  move-Managed Loop.reloads k n v = v
  move-Managed Loop.stops k n v = v
  move-Managed (Loop.turns r) k n (v, inl (phase, ended, quiet)) =
      either_at Managed k.is_running _ _ (λ h. absurd (ground (arith, h, ended)))
        (λ h. (v, inl (phase, ended, quiet)))
  move-Managed (Loop.turns r) k n (v, inr a) =
      either Managed k.is_running _ _ (round-Managed r k n v a) (v, inr a)

  pub moves-Managed :
      (ms : List Move) (k : Task A) → All AreInRange ms → Managed k → Managed (moves firmware ms k)
  unfolding moves
  moves-Managed [] k n v = v
  moves-Managed (m ∷ ms) k (n, ns) v = moves-Managed ms _ ns (move-Managed m k n v)

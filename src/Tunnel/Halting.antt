-- ===== src/Tunnel/Halting.antt =====
-- How a stop ends in the loop of the task in esp_cf_tunnel.c.
use esp_cf_tunnel.Prelude.{
  either, either_at, ℕ, ◌+◌, ◌≤◌, ◌≡◌, ◌⊎◌, inl, inr, refl, Bool, true, false, ◌||◌, ◌&&◌, not,
  List, [], ◌∷◌, All, leb, if◌then◌else◌, arith,
}
use esp_cf_tunnel.Core.{u64}
use esp_cf_tunnel.Tunnel.{Firmware}
use esp_cf_tunnel.Tunnel.Task.{Task}
use esp_cf_tunnel.Tunnel.Loop
use esp_cf_tunnel.Tunnel.Loop.{
  Round, Move, is_registered, reload, begin_stop, or_retry, work, is_over, finish, round, start,
  move, moves,
}
use esp_cf_tunnel.Tunnel.Invariant.{Serving}
use esp_cf_tunnel.Tunnel.Stages.{Stopped, Active, Managed, InRange, AreInRange, IsNoStart}
use esp_cf_tunnel.Tunnel.Closing.{finish-Stopped}
use esp_cf_tunnel.Tunnel.Rounds.{begin_stop-Open}
use esp_cf_tunnel.Tunnel.Branches.{round-cases}
use esp_cf_tunnel.Tunnel.Stopping.{
  leaves-Halts, goes-Halts, requests-Halts, environment-Halts, work-Halts, Halting, Halts,
}

module _ {A : Type 0} (firmware : Firmware A) (deadline : ℕ) where
  -- The stop is over, or on its way before its deadline.
  abbrev Ended : Round → Task A → Type 0
  Ended r k = Serving k.tunnel × (Stopped k ⊎ (Halting deadline k × (leb deadline r.now ≡ false)))

  round-Ended :
      (r : Round) (k : Task A)
      → InRange r
      → Halts deadline (Loop.requests firmware r k)
      → Ended r (round firmware r k)
  round-Ended r k n g1 =
      let s1 = Loop.requests firmware r k in
      let s2 = Loop.environment firmware r s1.1 in
      let s3 = work firmware r s2.1 in
      let g2 = λ (h : s1.0 ≡ true). environment-Halts firmware deadline r s1.1 (g1.1 h) in
      let g3 =
        λ (h : s1.0 ≡ true) (i : s2.0 ≡ true). work-Halts firmware deadline r s2.1 n ((g2 h).1 i) in
      round-cases firmware (Ended r) r k (ends s1.1 g1.0) (λ h. ends s2.1 (g2 h).0)
        (λ h i. ends s3.1 (g3 h i).0)
        (λ h i l o. ((g3 h i).0, inr ((g3 h i).1 l, early s3.1 ((g3 h i).1 l) o)))
    where
      ends : (k : Task A) → Serving k.tunnel → Ended r (finish firmware r.open_streams k)
      ends k v =
          let (w, stopped) = finish-Stopped firmware r.open_streams k v.lifecycle in
          (w, inl stopped)

      early :
          (k : Task A)
          → Halting deadline k
          → is_over firmware r k ≡ false
          → leb deadline r.now ≡ false
      early k (v, stops, asked, due, o) h = before k.shutdown_ms k.tunnel.stopping _ due stops h
        where
          before :
              (ms : ℕ) (b c : Bool)
              → ms ≡ deadline
              → b ≡ true
              → b && (leb ms r.now || c) ≡ false
              → leb deadline r.now ≡ false
          before ms b c d e f = ground (arith, d, e, f)

  abbrev Ending : Task A → Type 0
  Ending k = Stopped k ⊎ Halting deadline k

  move-Ending :
      (m : Move) (k : Task A) → AreInRange m → IsNoStart m → Ending k → Ending (move firmware m k)
  unfolding move
  move-Ending (Loop.starts created) k n s v = absurd s
  move-Ending Loop.reloads k n s v = v
  move-Ending Loop.stops k n s (inl stopped) = inl stopped
  move-Ending Loop.stops k n s (inr (v, stops, asked, due, o)) = inr (v, stops, refl, due, o)
  move-Ending (Loop.turns r) k n s (inl (phase, ended, quiet)) =
      either_at Ending k.is_running _ _ (λ h. absurd (ground (arith, h, ended)))
        (λ h. inl (phase, ended, quiet))
  move-Ending (Loop.turns r) k n s (inr h) =
      either Ending k.is_running (round firmware r k) k
        (turned (round firmware r k) (round-Ended r k n (requests-Halts firmware deadline r k h)).1)
        (inr h)
    where
      turned :
          (k : Task A) → Stopped k ⊎ (Halting deadline k × (leb deadline r.now ≡ false)) → Ending k
      turned k (inl stopped) = inl stopped
      turned k (inr (h, before)) = inr h

  moves-Ending :
      (ms : List Move) (k : Task A)
      → All AreInRange ms
      → All IsNoStart ms
      → Ending k
      → Ending (moves firmware ms k)
  unfolding moves
  moves-Ending [] k n s v = v
  moves-Ending (m ∷ ms) k (n, ns) (s, ss) v = moves-Ending ms _ ns ss (move-Ending m k n s v)

  last-Stopped :
      (r : Round) (k : Task A)
      → InRange r
      → deadline ≤ r.now
      → Ending k
      → Stopped (move firmware (Loop.turns r) k)
  unfolding move
  last-Stopped r k n late (inl (phase, ended, quiet)) =
      either_at Stopped k.is_running _ _ (λ h. absurd (ground (arith, h, ended)))
        (λ h. (phase, ended, quiet))
  last-Stopped r k n late (inr (v, stops, asked, due, o)) =
      either_at Stopped k.is_running (round firmware r k) k
        (λ h.
          over (round firmware r k)
            (round-Ended r k n (requests-Halts firmware deadline r k (v, stops, asked, due, o))).1)
        (λ h. absurd (ground (arith, h, o.1.runs)))
    where
      over :
          (k : Task A) → Stopped k ⊎ (Halting deadline k × (leb deadline r.now ≡ false)) → Stopped k
      over k (inl stopped) = stopped
      over k (inr (h, before)) = absurd (ground (arith, late, before))

module _ {A : Type 0} (firmware : Firmware A) where
  asked-Halts :
      (r : Round) (k : Task A)
      → Serving k.tunnel
      → Active k
      → k.stop_requested ≡ true
      → k.tunnel.stopping ≡ false
      → Halts (u64 (r.now + 2000)) (Loop.requests firmware r k)
  unfolding Loop.requests begin_stop
  asked-Halts r k v a asked going =
      let k0 : Task A = record k { reload_requested = false } in
      let registered = k.has_h2 && is_registered k.tunnel.rpc.phase in
      let reloads = k.reload_requested && not k.stop_requested in
      either_at
        (λ k1. Halts (u64 (r.now + 2000)) (
          if k.stop_requested && not k1.tunnel.stopping
          then (if k1.has_h2 && is_registered k1.tunnel.rpc.phase
              then (true, begin_stop firmware r.now r.out k1)
              else (false, k1))
          else (true, k1)))
        reloads (reload firmware r.open_streams k0) k0 (λ h. absurd (ground (arith, h, asked)))
        (λ h.
          either_at (Halts (u64 (r.now + 2000))) (k.stop_requested && not k.tunnel.stopping) _
            (true, k0)
            (λ h.
              either_at (Halts (u64 (r.now + 2000))) registered
                (true, begin_stop firmware r.now r.out k0) (false, k0)
                (λ g. begins a (both k.has_h2 _ g)) (λ g. leaves-Halts _ k0 v))
            (λ h. absurd (ground (arith, h, asked, going))))
    where
      both : (b c : Bool) → b && c ≡ true → b ≡ true
      both b c h = ground (arith, h)

      k0 : Task A
      k0 = record k { reload_requested = false }

      begins :
          Active k
          → k.has_h2 ≡ true
          → Halts (u64 (r.now + 2000)) (true, begin_stop firmware r.now r.out k0)
      begins (inl (idle, g, runs, q)) h = absurd (ground (arith, h, q.no_h2))
      begins (inr (inl (started, t))) h = absurd (ground (arith, h, t.no_h2))
      begins (inr (inr o)) h =
          let (w, o') = begin_stop-Open firmware r.now r.out k0 v o in
          goes-Halts (u64 (r.now + 2000)) (begin_stop firmware r.now r.out k0)
            (w, refl, asked, refl, o')

  -- A stop ends the task. If a stop is requested of a managed task that runs and is not stopping, and times fit 64
  -- bits and streams have an id, then a round whose time is at least that of the first round with the request and
  -- 2000 ms, modulo 2^64, leaves the task stopped, with nothing of the connection left, whatever rounds and calls of
  -- the owner but a start are between the two.
  pub stop-Stopped :
      (k : Task A) (r last : Round) (ms : List Move)
      → Managed k
      → k.is_running ≡ true
      → k.stop_requested ≡ true
      → k.tunnel.stopping ≡ false
      → InRange r
      → InRange last
      → All AreInRange ms
      → All IsNoStart ms
      → u64 (r.now + 2000) ≤ last.now
      → Stopped (move firmware (Loop.turns last) (moves firmware ms (round firmware r k)))
  stop-Stopped k r last ms (v, inl (phase, ended, quiet)) runs asked going n l ns ss late =
      absurd (ground (arith, runs, ended))
  stop-Stopped k r last ms (v, inr a) runs asked going n l ns ss late =
      let due = u64 (r.now + 2000) in
      let ended = round-Ended firmware due r k n (asked-Halts r k v a asked going) in
      last-Stopped firmware due last _ l late
        (moves-Ending firmware due ms _ ns ss (ending (round firmware r k) _ ended.1))
    where
      ending :
          (k : Task A) (b : Bool)
          → Stopped k ⊎ (Halting (u64 (r.now + 2000)) k × (b ≡ false))
          → Stopped k ⊎ Halting (u64 (r.now + 2000)) k
      ending k b (inl stopped) = inl stopped
      ending k b (inr (h, before)) = inr h

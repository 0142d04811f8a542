-- ===== src/Tunnel/Stopping.antt =====
-- A stop on its way in the loop of the task in esp_cf_tunnel.c.
use esp_cf_tunnel.Prelude.{
  either_at, ℕ, ◌≡◌, ◌∙◌, Bool, true, false, ◌||◌, ◌&&◌, not, if◌then◌else◌, arith,
}
use esp_cf_tunnel.Tunnel.{Firmware}
use esp_cf_tunnel.Tunnel.Task.{Task, with_tunnel, close_connection}
use esp_cf_tunnel.Tunnel.Exchange.{communicate}
use esp_cf_tunnel.Tunnel.Loop
use esp_cf_tunnel.Tunnel.Loop.{
  Round, Move, is_registered, reload, begin_stop, or_retry, work, is_over, finish, round, start,
  move, moves,
}
use esp_cf_tunnel.Tunnel.Invariant.{Serving}
use esp_cf_tunnel.Tunnel.Stages.{Open, InRange}
use esp_cf_tunnel.Tunnel.Phases.{relived-Serving}
use esp_cf_tunnel.Tunnel.Rounds.{aired, aired-Serving, aired-Open}
use esp_cf_tunnel.Tunnel.Steps.{communicated-Open, communicate-Exchanged}
use esp_cf_tunnel.Tunnel.Branches.{work-cases}
use esp_cf_tunnel.Tunnel.Managed.{phases_up}

module _ {A : Type 0} where
  -- A stop is on its way, with its deadline.
  abbrev pub Halting : ℕ → Task A → Type 0
  Halting deadline k =
      Serving k.tunnel
      × (k.tunnel.stopping ≡ true)
      × (k.stop_requested ≡ true)
      × (k.shutdown_ms ≡ deadline)
      × Open k

  -- What a part of the round leaves: where the loop goes on, the stop is still on its way.
  abbrev pub Halts : ℕ → Bool × Task A → Type 0
  Halts deadline s = Serving s.1.tunnel × (s.0 ≡ true → Halting deadline s.1)

  pub leaves-Halts : (deadline : ℕ) (k : Task A) → Serving k.tunnel → Halts deadline (false, k)
  leaves-Halts deadline k v = (v, λ h. absurd (ground (arith, h)))

  pub goes-Halts : (deadline : ℕ) (k : Task A) → Halting deadline k → Halts deadline (true, k)
  goes-Halts deadline k h = (h.0, λ z. h)

module _ {A : Type 0} (firmware : Firmware A) (deadline : ℕ) where
  pub requests-Halts :
      (r : Round) (k : Task A) → Halting deadline k → Halts deadline (Loop.requests firmware r k)
  unfolding Loop.requests
  requests-Halts r k (v, stops, asked, due, o) =
      let k0 : Task A = record k { reload_requested = false } in
      let reloads = k.reload_requested && not k.stop_requested in
      either_at
        (λ k1. Halts deadline (
          if k.stop_requested && not k1.tunnel.stopping
          then (if k1.has_h2 && is_registered k1.tunnel.rpc.phase
              then (true, begin_stop firmware r.now r.out k1)
              else (false, k1))
          else (true, k1)))
        reloads (reload firmware r.open_streams k0) k0 (λ h. absurd (ground (arith, h, asked)))
        (λ h.
          either_at (Halts deadline) (k.stop_requested && not k.tunnel.stopping) _ (true, k0)
            (λ h. absurd (ground (arith, h, stops)))
            (λ h. goes-Halts deadline k0 (v, stops, asked, due, o)))

  pub environment-Halts :
      (r : Round) (k : Task A) → Halting deadline k → Halts deadline (Loop.environment firmware r k)
  unfolding Loop.environment
  environment-Halts r k (v, stops, asked, due, o) =
      let lost = not r.network_ready || not r.time_valid in
      let k0 = with_tunnel firmware k (record k.tunnel { local_ip = r.local_ip }) in
      let w = relived-Serving k.tunnel k.tunnel.life r.local_ip v.lifecycle (λ h. h) v in
      let closes = lost && (k0.has_tls || k0.has_socket) in
      let closed = close_connection firmware r.open_streams k0 in
      let k1 = if closes then closed else k0 in
      either_at (Halts deadline) (lost && k0.tunnel.stopping) (false, k0)
        (true, aired firmware r k1) (λ h. leaves-Halts deadline k0 w)
        (λ h.
          either_at (λ z. Halts deadline (true, aired firmware r z)) closes closed k0
            (λ c. absurd (ground (arith, c, unlost lost h)))
            (λ c. goes-Halts deadline (aired firmware r k0) (
              aired-Serving firmware r k0 w,
              stops,
              asked,
              due,
              aired-Open firmware r k0 (unlost lost h) o,
            )))
    where
      unlost : (b : Bool) → b && k.tunnel.stopping ≡ false → b ≡ false
      unlost b h = ground (arith, h, stops)

  or_retry-Halts :
      (r : Round) (s : Bool × Task A)
      → Halting deadline s.1
      → not s.0 && s.1.tunnel.stopping ≡ false
      → Halting deadline (or_retry firmware r s)
  unfolding or_retry
  or_retry-Halts r (true, k) h f = h
  or_retry-Halts r (false, k) (v, stops, asked, due, o) f = absurd (ground (arith, stops, f))

  pub work-Halts :
      (r : Round) (k : Task A) → InRange r → Halting deadline k → Halts deadline (work firmware r k)
  work-Halts r k n (v, stops, asked, due, o) =
      let (undiscovered, unconnecting) = phases_up firmware k o in
      let s = communicate firmware r.now r.out r.exchange k in
      let x =
        communicate-Exchanged firmware r.now r.out r.exchange k n.reads_named n.writes_named
          n.last_named v o in
      let (w, o', flag) = communicated-Open k s x in
      let halting : Halting deadline s.1 =
        (w, flag ∙ stops, x.3.request ∙ asked, x.3.shutdown ∙ due, o') in
      work-cases firmware (Halts deadline) r k (λ h. absurd (ground (arith, h, undiscovered)))
        (λ d h. absurd (ground (arith, h, unconnecting))) (λ h. absurd (ground (arith, h, o.1.h2)))
        (λ h f. leaves-Halts deadline s.1 w)
        (λ h f. goes-Halts deadline (or_retry firmware r s) (or_retry-Halts r s halting f))

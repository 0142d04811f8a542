-- ===== src/Tunnel/Steps.antt =====
-- The exchange over HTTP/2 in esp_cf_tunnel.c: what a step of it leaves.
use mathlib.Core.Path.{subst}
use esp_cf_tunnel.Prelude.{
  either, ℕ, zero, suc, ◌≡◌, inl, inr, refl, sym, Bool, true, false, ◌||◌, ◌&&◌, not, List, [], ◌∷◌,
  All, leb, ◌==◌, if◌then◌else◌, arith,
}
use esp_cf_tunnel.Core.{Bytes}
use esp_cf_tunnel.Lifecycle
use esp_cf_tunnel.Lifecycle.{CfState, Lifecycle, advance}
use esp_cf_tunnel.Tunnel.{Tunnel, Firmware, advanced}
use esp_cf_tunnel.Tunnel.Calls
use esp_cf_tunnel.Tunnel.Calls.{run-Serving}
use esp_cf_tunnel.Tunnel.Streams.{is_http2}
use esp_cf_tunnel.Tunnel.Deliveries.{apply_config-Serving}
use esp_cf_tunnel.Tunnel.Task.{Task, with_tunnel}
use esp_cf_tunnel.Tunnel.Invariant.{Serving, advanced-Serving}
use esp_cf_tunnel.Tunnel.Late.{advanced-Late}
use esp_cf_tunnel.Tunnel.Links.{Linked, opened-Late, run-Linked, update-Linked}
use esp_cf_tunnel.Tunnel.Exchange.{
  Read, no_input, input_ends, input, Write, no_output, output_fails, blocks, write_fails, writes,
  Exchange, is_wait_config, read_loop, write_loop, send_output, on_input, communicate,
}
use esp_cf_tunnel.Tunnel.Stages.{IsUp, Open, AreNamed, IsNamedRead, IsNamedWrite}

-- The deadline of the stop and its request stay.
pub record IsSteady (shutdown_ms later_ms : ℕ) (requested later : Bool) : Type 0 where
  pub shutdown : later_ms ≡ shutdown_ms
  pub request : later ≡ requested

module _ {A : Type 0} where
  abbrev Kept : Bool → Tunnel A → Type 0
  Kept halts t = Serving t × Linked halts t

  -- The exchange keeps the connection, the flag of the stop, and what the owner has set.
  abbrev pub Exchanged : Task A → Bool × Task A → Type 0
  Exchanged k s =
      Serving s.1.tunnel
      × Linked k.tunnel.stopping s.1.tunnel
      × IsUp s.1.is_running s.1.has_socket s.1.has_tls s.1.has_h2
      × IsSteady k.shutdown_ms s.1.shutdown_ms k.stop_requested s.1.stop_requested

  stopping_flag : (halts : Bool) (t : Tunnel A) → Linked halts t → t.stopping ≡ halts
  stopping_flag halts t (inl early) = early.flag
  stopping_flag halts t (inr (valid, late, flag, phase)) = flag

  pub communicated-Open :
      (k : Task A) (s : Bool × Task A)
      → Exchanged k s
      → Serving s.1.tunnel × Open s.1 × (s.1.tunnel.stopping ≡ k.tunnel.stopping)
  communicated-Open k s (v, linked, up, steady) =
      let flag = stopping_flag k.tunnel.stopping s.1.tunnel linked in
      (v, (subst (λ b. Linked b s.1.tunnel) (sym flag) linked, up), flag)

module _ {A : Type 0} (firmware : Firmware A) where
  run-Kept :
      (halts : Bool) (cs : List (Bytes × ℕ × Calls.Call)) (t : Tunnel A)
      → AreNamed cs
      → Kept halts t
      → Kept halts (Calls.run firmware cs t)
  run-Kept halts cs t n (v, l) = (run-Serving firmware cs t n v, run-Linked firmware cs t n l)

  read_loop-Kept :
      (halts : Bool) (left : ℕ) (rs : List Read) (t : Tunnel A)
      → All IsNamedRead rs
      → Kept halts t
      → Kept halts (read_loop firmware left rs t).1
  unfolding read_loop
  read_loop-Kept halts zero rs t n v = v
  read_loop-Kept halts (suc left) [] t n v = v
  read_loop-Kept halts (suc left) (no_input ∷ rs) t n v = v
  read_loop-Kept halts (suc left) (input_ends ∷ rs) t n v = v
  read_loop-Kept halts (suc left) (input calls good ∷ rs) t (n, ns) v =
      let w = run-Kept halts calls t n v in
      either (λ (r : Bool × Tunnel A). Kept halts r.1) good _ _
        (read_loop-Kept halts left rs _ ns w) w

  write_loop-Kept :
      (halts : Bool) (left now : ℕ) (ws : List Write) (t : Tunnel A) (stalled : ℕ)
      → All IsNamedWrite ws
      → Kept halts t
      → Kept halts (write_loop firmware left now ws t stalled).1
  unfolding write_loop
  write_loop-Kept halts zero now ws t stalled n v = v
  write_loop-Kept halts (suc left) now [] t stalled n v = v
  write_loop-Kept halts (suc left) now (no_output calls ∷ ws) t stalled (n, ns) v =
      run-Kept halts calls t n v
  write_loop-Kept halts (suc left) now (output_fails calls ∷ ws) t stalled (n, ns) v =
      run-Kept halts calls t n v
  write_loop-Kept halts (suc left) now (blocks calls ∷ ws) t stalled (n, ns) v =
      run-Kept halts calls t n v
  write_loop-Kept halts (suc left) now (write_fails calls ∷ ws) t stalled (n, ns) v =
      run-Kept halts calls t n v
  write_loop-Kept halts (suc left) now (writes calls ∷ ws) t stalled (n, ns) v =
      write_loop-Kept halts left now ws _ 0 ns (run-Kept halts calls t n v)

  send_output-Exchanged :
      (k0 : Task A) (now : ℕ) (e : Exchange) (k : Task A)
      → All IsNamedWrite e.writes
      → AreNamed e.last_output
      → Exchanged k0 (true, k)
      → Exchanged k0 (send_output firmware now e k)
  unfolding send_output
  send_output-Exchanged k0 now e k n last (v, linked, up, steady) =
      let (w, linked') =
        write_loop-Kept k0.tunnel.stopping 8 now e.writes k.tunnel k.write_stalled_ms n
          (v, linked) in
      let (z, linked'') = run-Kept k0.tunnel.stopping e.last_output _ last (w, linked') in
      let (good, t, stalled) = write_loop firmware 8 now e.writes k.tunnel k.write_stalled_ms in
      let k' : Task A = record k { tunnel = t; write_stalled_ms = stalled } in
      let late =
        (not t.life.is_registered || is_wait_config t.life.phase) && leb t.deadline_ms now in
      let failed : Exchanged k0 (false, k') = (w, linked', up, steady) in
      let k'' = with_tunnel firmware k' (Calls.run firmware e.last_output t) in
      let sent : Exchanged k0 (true, k'') = (z, linked'', up, steady) in
      either (Exchanged k0) (not good) (false, k') _ failed
        (either (Exchanged k0) late (false, k') (true, k'') failed sent)

  ready-Kept :
      (halts : Bool) (t : Tunnel A) → Kept halts t → Kept halts (advanced Lifecycle.http2_ready t)
  ready-Kept halts t (v, inl early) = (
    advanced-Serving t Lifecycle.http2_ready (λ z. absurd (ground (arith, z))) v,
    inr (opened-Late t early),
  )
  ready-Kept halts t (v, inr late) = (
    advanced-Serving t Lifecycle.http2_ready (λ z. absurd (ground (arith, z))) v,
    inr (advanced-Late t Lifecycle.http2_ready (λ z. absurd (ground (arith, z))) late),
  )

  on_input-Exchanged :
      (k0 : Task A) (now : ℕ) (out : Bytes) (e : Exchange) (k : Task A)
      → All IsNamedWrite e.writes
      → AreNamed e.last_output
      → Exchanged k0 (true, k)
      → Exchanged k0 (on_input firmware now out e k)
  unfolding on_input
  on_input-Exchanged k0 now out e k n last (v, linked, up, steady) =
      let good = e.peer_settings && is_http2 k.tunnel.life.phase in
      let t1 : Tunnel A = if good then advanced Lifecycle.http2_ready k.tunnel else k.tunnel in
      let (w, linked1) =
        either (Kept k0.tunnel.stopping) good (advanced Lifecycle.http2_ready k.tunnel) k.tunnel
          (ready-Kept k0.tunnel.stopping k.tunnel (v, linked)) (v, linked) in
      let k1 = with_tunnel firmware k t1 in
      let failed : Exchanged k0 (false, k1) = (w, linked1, up, steady) in
      let served = apply_config-Serving firmware out now e.lib e.locked e.submitted t1 w in
      let linked2 = update-Linked firmware out now e.lib e.locked e.submitted t1 linked1 in
      either (Exchanged k0) (e.goaway && not t1.stopping) (false, k1) _ failed
        (either (Exchanged k0) t1.fault (false, k1) _ failed
          (send_output-Exchanged k0 now e _ n last (served, linked2, up, steady)))

  pub communicate-Exchanged :
      (now : ℕ) (out : Bytes) (e : Exchange) (k : Task A)
      → All IsNamedRead e.reads
      → All IsNamedWrite e.writes
      → AreNamed e.last_output
      → Serving k.tunnel
      → Open k
      → Exchanged k (communicate firmware now out e k)
  unfolding communicate
  communicate-Exchanged now out e k r n last v (linked, up) =
      let steady : IsSteady k.shutdown_ms k.shutdown_ms k.stop_requested k.stop_requested = record {
        shutdown = refl;
        request = refl;
      } in
      let (good, t) =
        if k.write_stalled_ms == 0
        then read_loop firmware 8 e.reads k.tunnel
        else (true, k.tunnel) in
      let (w, linked') =
        either (λ (s : Bool × Tunnel A). Kept k.tunnel.stopping s.1) (k.write_stalled_ms == 0)
          (read_loop firmware 8 e.reads k.tunnel) (true, k.tunnel)
          (read_loop-Kept k.tunnel.stopping 8 e.reads k.tunnel r (v, linked)) (v, linked) in
      let k' = with_tunnel firmware k t in
      let failed : Exchanged k (false, k') = (w, linked', up, steady) in
      either (Exchanged k) (not good) (false, k') _ failed
        (on_input-Exchanged k now out e k' n last (w, linked', up, steady))

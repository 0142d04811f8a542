-- ===== src/Tunnel/Handshakes.antt =====
-- The TLS connection in esp_cf_tunnel.c: what a step of it leaves.
use mathlib.Core.Path.{subst}
use esp_cf_tunnel.Prelude.{
  either, either_at, ℕ, ◌≡◌, inl, inr, refl, sym, ap, ◌∙◌, Bool, true, false, ◌||◌, ◌&&◌, not, ltb,
  arith,
}
use esp_cf_tunnel.Lifecycle
use esp_cf_tunnel.Lifecycle.{CfState, Lifecycle, advance}
use esp_cf_tunnel.Lifecycle.Invariant.{IsValid, EnvironmentFits, advance-IsValid}
use esp_cf_tunnel.Rpc.{Rpc}
use esp_cf_tunnel.Tunnel.{Tunnel, Firmware, advanced}
use esp_cf_tunnel.Tunnel.Task.{Task, with_tunnel}
use esp_cf_tunnel.Tunnel.Invariant.{Serving, advanced-Serving}
use esp_cf_tunnel.Tunnel.Links.{Early}
use esp_cf_tunnel.Tunnel.Exchange.{
  Progress, broken, in_progress, complete, Handshake, is_complete, is_connect, connected,
  on_progress, connect_tls,
}
use esp_cf_tunnel.Tunnel.Loop.{is_discovery}
use esp_cf_tunnel.Tunnel.Stages.{IsTrying, IsUp, Trying, is_attempt}
use esp_cf_tunnel.Tunnel.Closing.{is_early}
use esp_cf_tunnel.Tunnel.Queries.{Failed, Stepped}

connected_phase :
    (l : Lifecycle) (b : Bool)
    → IsValid l
    → is_connect l.phase && b ≡ true
    → (advance l Lifecycle.connected).0.phase ≡ Lifecycle.tls
unfolding advance
connected_phase l b v h = ground (arith, h, v)

ready_phase :
    (l : Lifecycle)
    → IsValid l
    → l.phase ≡ Lifecycle.tls
    → (advance l Lifecycle.tls_ready).0.phase ≡ Lifecycle.http2
unfolding advance
ready_phase l v h =
    let ready = subst (λ p. EnvironmentFits p l.network_ready l.time_ready) h v.ready in
    ground (arith, h, ready)

tls_phase :
    (p : CfState) (b : Bool)
    → is_attempt p ≡ true
    → is_discovery p ≡ false
    → is_connect p && (b || true) ≡ false
    → p ≡ Lifecycle.tls
tls_phase p b h k e = ground (arith, h, k, e)

attempt_early : (p : CfState) → is_attempt p ≡ true → is_early p ≡ true
attempt_early p h = ground (arith, h)

-- The attempt goes on behind the search, in another state.
moved-IsTrying :
    (p q : CfState) (stopping running socket tls h2 : Bool) (rpc : Rpc) (control : ℕ)
    → is_discovery p ≡ false
    → (is_attempt q ≡ true) × (is_discovery q ≡ false)
    → IsTrying p stopping running socket tls h2 rpc control
    → IsTrying q stopping running socket tls h2 rpc control
moved-IsTrying p q stopping running socket tls h2 rpc control d (a, e) t = record {
  phased = a;
  going = t.going;
  runs = t.runs;
  no_h2 = t.no_h2;
  socket = t.socket ∙ d ∙ sym e;
  tls = t.tls ∙ ap not (d ∙ sym e);
  no_rpc = t.no_rpc;
  no_control = t.no_control;
}

module _ {A : Type 0} where
  -- An attempt behind the search.
  abbrev pub Connecting : Task A → Type 0
  Connecting k = Serving k.tunnel × Trying k × (is_discovery k.tunnel.life.phase ≡ false)

  handshake-Failed : (k : Task A) → Connecting k → Failed k
  handshake-Failed k (v, (started, t), d) =
      (v.lifecycle, inl (attempt_early k.tunnel.life.phase t.phased, t.no_rpc), t.going, t.runs)

module _ {A : Type 0} (firmware : Firmware A) where
  connected-Connecting :
      (h : Handshake) (k : Task A)
      → Connecting k
      → Connecting (with_tunnel firmware k (connected firmware h k.tunnel))
        × (h.progress ≡ complete → (connected firmware h k.tunnel).life.phase ≡ Lifecycle.tls)
  connected-Connecting h k (v, (started, t), d) =
      either_at Result
        (is_connect k.tunnel.life.phase && (h.shakes_hands || is_complete h.progress)) _ _
        (λ e.
          let phase = connected_phase k.tunnel.life _ v.lifecycle e in
          let behind = ap is_discovery phase in
          (
            (
              advanced-Serving k.tunnel Lifecycle.connected (λ z. absurd (ground (arith, z))) v,
              (started, moved-IsTrying _ _ _ _ _ _ _ _ _ d (ap is_attempt phase, behind) t),
              behind,
            ),
            λ z. phase,
          ))
        (λ e. (
          (v, (started, t), d),
          λ z. tls_phase k.tunnel.life.phase h.shakes_hands t.phased d (
              subst
                (λ p. is_connect k.tunnel.life.phase && (h.shakes_hands || is_complete p) ≡ false) z
                e),
        ))
    where
      Result : Tunnel A → Type 0
      Result u =
          Connecting (with_tunnel firmware k u)
          × (h.progress ≡ complete → u.life.phase ≡ Lifecycle.tls)

  on_progress-Stepped :
      (p : Progress) (now : ℕ) (created : Bool) (k : Task A)
      → Connecting k
      → (p ≡ complete → k.tunnel.life.phase ≡ Lifecycle.tls)
      → Stepped (on_progress firmware p now created k)
  unfolding on_progress
  on_progress-Stepped broken now created k v h = handshake-Failed k v
  on_progress-Stepped in_progress now created k v h = by_time (ltb now k.tunnel.deadline_ms)
    where
      by_time : (b : Bool) → Stepped (b, k)
      by_time true = (v.0, inr (inl v.1))
      by_time false = handshake-Failed k v
  on_progress-Stepped complete now created k (v, (started, t), d) h =
      let serving =
        advanced-Serving k.tunnel Lifecycle.tls_ready (λ z. absurd (ground (arith, z))) v in
      let early : Early k.tunnel.stopping (advanced Lifecycle.tls_ready k.tunnel) = record {
        valid = advance-IsValid k.tunnel.life Lifecycle.tls_ready v.lifecycle;
        phase = ready_phase k.tunnel.life v.lifecycle (h refl);
        flag = refl;
        going = t.going;
        unopened = t.no_control;
        unused = t.no_rpc;
      } in
      let up : IsUp k.is_running k.has_socket k.has_tls true = record {
        runs = t.runs;
        no_socket = t.socket ∙ d;
        tls = t.tls ∙ ap not d;
        h2 = refl;
      } in
      either Stepped (not created) _ _ (handshake-Failed k (v, (started, t), d))
        (serving, inr (inr (inl early, up)))

  pub connect_tls-Stepped :
      (now : ℕ) (h : Handshake) (k : Task A)
      → Serving k.tunnel
      → Trying k
      → is_discovery k.tunnel.life.phase ≡ false
      → Stepped (connect_tls firmware now h k)
  unfolding connect_tls
  connect_tls-Stepped now h k v t d =
      let (connecting, phase) = connected-Connecting h k (v, t, d) in
      on_progress-Stepped h.progress now h.created _ connecting phase

-- ===== src/Tunnel/Queries.antt =====
-- The search for the edge in esp_cf_tunnel.c: what it keeps while a query is under way.
use mathlib.Core.Path.{subst}
use esp_cf_tunnel.Prelude.{
  either, either_at, ℕ, ◌+◌, ◌≡◌, inl, inr, refl, sym, ap, ◌∙◌, Bool, true, false, ◌||◌, not, none,
  some, if◌then◌else◌, take, arith,
}
use esp_cf_tunnel.Core.{Bytes, Result, ok, err, state, u16, u64}
use esp_cf_tunnel.Lifecycle
use esp_cf_tunnel.Lifecycle.{CfState, Lifecycle, advance}
use esp_cf_tunnel.Lifecycle.Invariant.{IsValid, EnvironmentFits}
use esp_cf_tunnel.Rpc
use esp_cf_tunnel.Rpc.{Rpc, Credentials}
use esp_cf_tunnel.Config
use esp_cf_tunnel.Config.Policy.{IsHeld, init-IsHeld}
use esp_cf_tunnel.Dns.Query.{query, packet_max}
use esp_cf_tunnel.Tunnel.{Tunnel, Firmware}
use esp_cf_tunnel.Tunnel.Task.{Task, Sending, dns_send, is_sent}
use esp_cf_tunnel.Tunnel.Invariant.{Serving}
use esp_cf_tunnel.Tunnel.Loop.{is_discovery}
use esp_cf_tunnel.Tunnel.Stages.{Trying, Active, is_attempt}
use esp_cf_tunnel.Tunnel.Closing.{Fails, is_early}

-- The search, whatever becomes of its socket.
pub record IsSearch (phase : CfState) (stopping running started has_tls has_h2 : Bool) (rpc : Rpc)
    (control_stream : ℕ) : Type 0 where
  pub phased : phase ≡ Lifecycle.discovery
  pub going : stopping ≡ false
  pub runs : running ≡ true
  pub has_started : started ≡ true
  pub no_tls : has_tls ≡ false
  pub no_h2 : has_h2 ≡ false
  pub no_rpc : rpc ≡ Rpc.init
  pub no_control : control_stream ≡ 0

pub discovered_phase :
    (l : Lifecycle)
    → IsValid l
    → l.phase ≡ Lifecycle.discovery
    → (advance l Lifecycle.discovered).0.phase ≡ Lifecycle.connect
unfolding advance
discovered_phase l v h =
    let ready = subst (λ p. EnvironmentFits p l.network_ready l.time_ready) h v.ready in
    ground (arith, h, ready)

module _ {A : Type 0} where
  -- A step that fails leaves what the retry starts from.
  abbrev pub Failed : Task A → Type 0
  Failed k =
      IsValid k.tunnel.life
      × Fails k.tunnel.life k.tunnel.rpc
      × (k.tunnel.stopping ≡ false)
      × (k.is_running ≡ true)

  abbrev pub Stepped : Bool × Task A → Type 0
  Stepped (true, k) = Serving k.tunnel × Active k
  Stepped (false, k) = Failed k

  abbrev pub Search : Task A → Type 0
  Search k =
      Serving k.tunnel
      × IsSearch k.tunnel.life.phase k.tunnel.stopping k.is_running k.attempt_started k.has_tls
          k.has_h2 k.tunnel.rpc k.tunnel.control_stream

  abbrev pub Found : Bool × Task A → Type 0
  Found s = Search s.1 × (s.0 ≡ true → s.1.has_socket ≡ true)

  pub seeking-Failed : (k : Task A) → Search k → Failed k
  seeking-Failed k (v, s) = (v.lifecycle, inl (ap is_early s.phased, s.no_rpc), s.going, s.runs)

  seeking-Trying : (k : Task A) → Search k → k.has_socket ≡ true → Trying k
  seeking-Trying k (v, s) up = (
    s.has_started,
    record {
      phased = ap is_attempt s.phased;
      going = s.going;
      runs = s.runs;
      no_h2 = s.no_h2;
      socket = up ∙ sym (ap is_discovery s.phased);
      tls = s.no_tls ∙ sym (ap (λ p. not (is_discovery p)) s.phased);
      no_rpc = s.no_rpc;
      no_control = s.no_control;
    },
  )

  pub sent-Stepped : (s : Bool × Task A) → Found s → Stepped s
  sent-Stepped (true, k) (search, up) = (search.0, inr (inl (seeking-Trying k search (up refl))))
  sent-Stepped (false, k) (search, up) = seeking-Failed k search

  pub attempt-Search :
      (k : Task A)
      → Serving k.tunnel
      → k.tunnel.life.phase ≡ Lifecycle.discovery
      → Trying k
      → Search k × (k.has_socket ≡ true)
  attempt-Search k v h (started, t) = (
    (
      v,
      record {
        phased = h;
        going = t.going;
        runs = t.runs;
        has_started = started;
        no_tls = t.tls ∙ ap (λ p. not (is_discovery p)) h;
        no_h2 = t.no_h2;
        no_rpc = t.no_rpc;
        no_control = t.no_control;
      },
    ),
    t.socket ∙ ap is_discovery h,
  )

  -- Without a configuration the hostname is free.
  pub rehosted-Serving :
      (t : Tunnel A) (name : Bytes) (secret : Credentials)
      → t.remote ≡ Config.init
      → Serving t
      → Serving (record t { credentials = secret; hostname = name })
  rehosted-Serving t name secret h v = record {
    lifecycle = v.lifecycle;
    held = subst (λ c. IsHeld name t.service c) (sym h) (init-IsHeld name t.service);
    configured = v.configured;
    queue_fits = v.queue_fits;
    bytes_fit = v.bytes_fit;
    reply_fits = v.reply_fits;
    sent_fits = v.sent_fits;
    fresh = v.fresh;
    pending = v.pending;
  }

module _ {A : Type 0} (firmware : Firmware A) (now : ℕ) where
  pub dns_send-Search :
      (name : Bytes) (type : ℕ) (s : Sending) (k : Task A)
      → Search k
      → Found (is_sent firmware (dns_send firmware now name type s k))
  unfolding dns_send
  dns_send-Search name type s k v =
      either_at (λ r. Found (is_sent firmware r)) (not s.is_open || not s.connected) _ _
        (λ d. (v, λ h. absurd (ground (arith, h))))
        (λ d.
          by_query (query name type (u16 s.id) packet_max) (socket_open s.is_open s.connected d))
    where
      socket_open : (b c : Bool) → not b || not c ≡ false → b ≡ true
      socket_open b c h = ground (arith, h)

      by_query :
          (wire : Result Bytes)
          → s.is_open ≡ true
          → Found (
              is_sent firmware (
                let k1 : Task A = record k { has_socket = s.is_open } in
                let k2 : Task A = record k1 { dns_id = u16 s.id; dns_name = take 253 name } in
                let k3 : Task A = record k2 {
                  tunnel = record k.tunnel { deadline_ms = u64 (now + 5000) };
                } in
                elim wire [
                  | err e ↦ (some e, k2)
                  | ok wire ↦ if not s.sent then (some state, k2) else (none, k3)
                ]))
      by_query (err e) up = (v, λ h. absurd (ground (arith, h)))
      by_query (ok wire) up =
          either (λ r. Found (is_sent firmware r)) (not s.sent) _ _
            (v, λ h. absurd (ground (arith, h))) (v, λ h. up)

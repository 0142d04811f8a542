-- ===== src/Tunnel/Calls.antt =====
-- Any sequence of calls of esp_cf_tunnel.c by the HTTP/2 adapter, and of apply_config in between.
use mathlib.Core.Path.{subst}
use esp_cf_tunnel.Prelude.{ℕ, ◌≡◌, ◌≢◌, Bool, true, ◌&&◌, List, [], ◌∷◌, All, arith, bytes_of}
use esp_cf_tunnel.Core.{Bytes, CfResult}
use esp_cf_tunnel.Lifecycle
use esp_cf_tunnel.Lifecycle.{Lifecycle}
use esp_cf_tunnel.Lifecycle.Invariant.{IsValid, FlagsFit}
use esp_cf_tunnel.H2.{Request, equals, header}
use esp_cf_tunnel.Json.{Cjson}
use esp_cf_tunnel.Tunnel.{Tunnel, Firmware}
use esp_cf_tunnel.Tunnel.Streams.{is_online, is_admitted, h2_request}
use esp_cf_tunnel.Tunnel.Transfers.{h2_data, h2_read, h2_closed, apply_config}
use esp_cf_tunnel.Tunnel.Invariant.{Serving}
use esp_cf_tunnel.Tunnel.Callbacks.{h2_request-Serving}
use esp_cf_tunnel.Tunnel.Deliveries.{
  h2_data-Serving, h2_read-Serving, h2_closed-Serving, apply_config-Serving,
}

-- A call, with what `cf_h2_respond` and `json_try_lock` return in it.
pub data Call : Type 0 where
  requests : CfResult → Request → Call
  brings : ℕ → Bytes → Bool → Call
  reads : ℕ → ℕ → Call
  closes : ℕ → ℕ → Call
  updates : Cjson → Bool → CfResult → Call

-- The adapter names a stream by its id, which is not 0.
abbrev pub IsNamed : Call → Type 0
IsNamed (brings id input ends) = id ≢ 0
IsNamed _ = Unit

module _ {A : Type 0} (firmware : Firmware A) where
  -- A call, with the content of its buffer and the time.
  unfoldable pub step : Bytes × ℕ × Call → Tunnel A → Tunnel A
  step (out, now, requests submitted request) t =
      (h2_request firmware out now submitted t request).2
  step (out, now, brings id input ends) t = (h2_data firmware out now t id input ends).2
  step (out, now, reads id capacity) t = (h2_read firmware out now t id capacity).3
  step (out, now, closes id error) t = h2_closed firmware out now t id error
  step (out, now, updates lib locked submitted) t =
      (apply_config firmware out now lib locked submitted t).1

  unfoldable pub run : List (Bytes × ℕ × Call) → Tunnel A → Tunnel A
  run [] t = t
  run (c ∷ cs) t = run cs (step c t)

  step-Serving :
      (c : Bytes × ℕ × Call) (t : Tunnel A) → IsNamed c.2 → Serving t → Serving (step c t)
  unfolding step
  step-Serving (out, now, requests submitted request) t k v =
      h2_request-Serving firmware out now submitted t request v
  step-Serving (out, now, brings id input ends) t k v =
      h2_data-Serving firmware out now t id input ends k v
  step-Serving (out, now, reads id capacity) t k v =
      h2_read-Serving firmware out now t id capacity v
  step-Serving (out, now, closes id error) t k v = h2_closed-Serving firmware out now t id error v
  step-Serving (out, now, updates lib locked submitted) t k v =
      apply_config-Serving firmware out now lib locked submitted t v

  -- Any sequence of calls, on streams with an id, keeps the tunnel in order: the RPC queue holds at most 4096 bytes,
  -- the update at most 8192 and the reply at most 128, of which no more is marked as sent than there is; the
  -- lifecycle is valid, the remote configuration is held by the policy, and the lifecycle counts as configured
  -- only with a valid configuration.
  pub run-Serving :
      (cs : List (Bytes × ℕ × Call)) (t : Tunnel A)
      → All (λ c. IsNamed c.2) cs
      → Serving t
      → Serving (run cs t)
  unfolding run
  run-Serving [] t k v = v
  run-Serving (c ∷ cs) t (k, ks) v = run-Serving cs (step c t) ks (step-Serving c t k v)

  phase_online :
      (l : Lifecycle) (b : Bool)
      → is_online l.phase && b ≡ true
      → (l.phase ≡ Lifecycle.online) × (b ≡ true)
  phase_online l b h = ground (arith, h)

  flags_online :
      (l : Lifecycle)
      → IsValid l
      → l.phase ≡ Lifecycle.online
      → (l.is_registered ≡ true) × (l.is_configured ≡ true)
  flags_online l v h = subst (λ p. FlagsFit p l.is_registered l.is_configured) h v.flags

  pub admitted_lem :
      (out : Bytes) (now : ℕ) (t : Tunnel A) (request : Request)
      → Serving t
      → is_admitted firmware out now t request ≡ true
      → (t.life.is_registered ≡ true)
        × (t.life.is_configured ≡ true)
        × (equals (header request.headers (bytes_of ":authority")) t.hostname ≡ true)
  admitted_lem out now t request v h =
      let authority = header request.headers (bytes_of ":authority") in
      let (phase, same) = phase_online t.life (equals authority t.remote.hostname) h in
      let (registered, configured) = flags_online t.life v.lifecycle phase in
      let named = (v.held.named (v.configured configured)).0 in
      (registered, configured, subst (λ z. equals authority z ≡ true) named same)

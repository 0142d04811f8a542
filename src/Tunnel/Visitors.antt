-- ===== src/Tunnel/Visitors.antt =====
-- Which requests of visitors reach the firmware (h2_request in esp_cf_tunnel.c).
use esp_cf_tunnel.Prelude.{
  either, ℕ, ◌≡◌, ◌≢◌, refl, ◌∙◌, inl, inr, true, false, ◌||◌, not, none, some, List, All, bytes_of,
  ◌==◌, if◌then◌else◌, Bool-cases,
}
use esp_cf_tunnel.Core.{Bytes, CfResult}
use esp_cf_tunnel.Lifecycle
use esp_cf_tunnel.H2.{Request, Kind, http, control, config, equals, header}
use esp_cf_tunnel.Tunnel.{Tunnel, Firmware, Answer, append_rpc, advanced}
use esp_cf_tunnel.Tunnel.Streams.{
  is_http2, is_admitted, queue_reply, answer_control, open_control, open_config, by_kind,
  h2_request,
}
use esp_cf_tunnel.Tunnel.Invariant.{Serving}
use esp_cf_tunnel.Tunnel.Calls.{Call, IsNamed, run, run-Serving, admitted_lem}

module _ {A : Type 0} (firmware : Firmware A) (out : Bytes) (now : ℕ) where
  append_app : (t : Tunnel A) (more : Bytes) → (append_rpc t more).2.app ≡ t.app
  unfolding append_rpc
  append_app t more = either (λ (a : Answer A). a.2.app ≡ t.app) _ _ _ refl refl

  queue_app :
      (rc : CfResult) (t : Tunnel A) (queued : Answer A) (w : A)
      → t.app ≡ w
      → queued.2.app ≡ w
      → (queue_reply firmware out now rc t queued).2.app ≡ w
  unfolding queue_reply
  queue_app none t queued w p q = q
  queue_app (some e) t queued w p q = p

  answer_app :
      (submitted : CfResult) (id : ℕ) (a : Answer A)
      → (answer_control firmware out now submitted id a).2.app ≡ a.2.app
  unfolding answer_control
  answer_app submitted id (none, calls, t) = refl
  answer_app submitted id (some e, calls, t) = refl

  open_control_app :
      (submitted : CfResult) (t : Tunnel A) (request : Request)
      → (open_control firmware out now submitted t request).2.app ≡ t.app
  unfolding open_control
  open_control_app submitted t request =
      let t0 : Tunnel A = record t { control_stream = request.stream } in
      let w : (if is_http2 t.life.phase then advanced Lifecycle.http2_ready t0 else t0).app
          ≡ t.app =
        either (λ (z : Tunnel A). z.app ≡ t.app) (is_http2 t.life.phase)
          (advanced Lifecycle.http2_ready t0) t0 refl refl in
      either (λ (a : Answer A). a.2.app ≡ t.app) (not (t.control_stream == 0) || request.end_stream)
        _ _ refl (answer_app _ _ _ ∙ queue_app _ _ _ t.app w (append_app _ _ ∙ w))

  kind_app :
      (kind : Kind) (submitted : CfResult) (t : Tunnel A) (request : Request)
      → is_admitted firmware out now t request ≡ false
      → (by_kind firmware out now kind submitted t request).2.app ≡ t.app
  unfolding by_kind open_config
  kind_app control submitted t request h = open_control_app submitted t request
  kind_app config submitted t request h =
      either (λ (a : Answer A). a.2.app ≡ t.app) (not (t.config_stream == 0)) _ _ refl refl
  kind_app http submitted t request h = rw (h) refl

  not_admitted :
      (submitted : CfResult) (t : Tunnel A) (request : Request)
      → is_admitted firmware out now t request ≡ false
      → (h2_request firmware out now submitted t request).2.app ≡ t.app
  unfolding h2_request
  not_admitted submitted t request h =
      either (λ (a : Answer A). a.2.app ≡ t.app) t.stopping _ _ refl
        (kind_app request.kind submitted t request h)

  -- After any sequence of calls, on streams with an id, of a tunnel that was in order before them, a request changes
  -- the state of the firmware only while the tunnel is registered and configured, and only if it is for the
  -- hostname of the device.
  pub run_admitted :
      (cs : List (Bytes × ℕ × Call)) (t : Tunnel A) (submitted : CfResult) (request : Request)
      → All (λ c. IsNamed c.2) cs
      → Serving t
      → (h2_request firmware out now submitted (run firmware cs t) request).2.app
        ≢ (run firmware cs t).app
      → ((run firmware cs t).life.is_registered ≡ true)
        × ((run firmware cs t).life.is_configured ≡ true)
        × (equals (header request.headers (bytes_of ":authority")) (run firmware cs t).hostname
            ≡ true)
  run_admitted cs t submitted request k v h =
      let t' = run firmware cs t in
      elim (Bool-cases (is_admitted firmware out now t' request)) [
        | inl d ↦ admitted_lem firmware out now t' request (run-Serving firmware cs t k v) d
        | inr d ↦ absurd (h (not_admitted submitted t' request d))
      ]

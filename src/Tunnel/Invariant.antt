-- ===== src/Tunnel/Invariant.antt =====
-- What holds of the tunnel of esp_cf_tunnel.c between two calls.
use esp_cf_tunnel.Prelude.{
  ℕ, ◌-◌, ◌≤◌, ◌≡◌, ◌≢◌, inl, inr, Bool, true, false, ltb, length, length-append, arith, Bool-cases,
}
use esp_cf_tunnel.Core.{Bytes}
use esp_cf_tunnel.Lifecycle
use esp_cf_tunnel.Lifecycle.{Lifecycle, advance}
use esp_cf_tunnel.Lifecycle.Invariant.{IsValid, advance-IsValid}
use esp_cf_tunnel.Config.{RemoteConfig, message_limit}
use esp_cf_tunnel.Config.Policy.{IsHeld}
use esp_cf_tunnel.Tunnel.{Tunnel, advanced, append_rpc, queue_max, reply_max}

-- What holds of the parts that streams change: the queue and the buffers keep their bounds, the lifecycle and the remote
-- configuration are in order, and the lifecycle counts as configured only with a valid configuration.
pub record IsServing (life : Lifecycle) (remote : RemoteConfig)
    (hostname service queue bytes reply : Bytes) (sent stream : ℕ) (is_pending is_answered : Bool)
    : Type 0 where
  pub lifecycle : IsValid life
  pub held : IsHeld hostname service remote
  pub configured : life.is_configured ≡ true → remote.valid ≡ true
  pub queue_fits : length queue ≤ queue_max
  pub bytes_fit : length bytes ≤ message_limit
  pub reply_fits : length reply ≤ reply_max
  pub sent_fits : sent ≤ length reply
  pub fresh : is_answered ≡ false → stream ≢ 0 → sent ≡ 0
  pub pending : is_pending ≡ true → (stream ≢ 0) × (is_answered ≡ false)

module _ {A : Type 0} where
  abbrev pub Serving : Tunnel A → Type 0
  Serving t =
      IsServing t.life t.remote t.hostname t.service t.rpc_queue t.config_bytes t.config_reply
        t.config_reply_sent t.config_stream t.config_pending t.config_response

  pub append_rpc-Serving : (t : Tunnel A) (more : Bytes) → Serving t → Serving (append_rpc t more).2
  unfolding append_rpc
  append_rpc-Serving t more v =
      elim (Bool-cases (ltb (queue_max - length t.rpc_queue) (length more))) [
        | inl d ↦ rw (append_rpc, d) v
        | inr d ↦
            rw (append_rpc, d)
              (record {
                lifecycle = v.lifecycle;
                held = v.held;
                configured = v.configured;
                queue_fits = omega (
                  arith,
                  length-append t.rpc_queue more,
                  v.queue_fits,
                  fits (length more) (queue_max - length t.rpc_queue) d,
                );
                bytes_fit = v.bytes_fit;
                reply_fits = v.reply_fits;
                sent_fits = v.sent_fits;
                fresh = v.fresh;
                pending = v.pending;
              })
      ]
    where
      fits : (n m : ℕ) → ltb m n ≡ false → n ≤ m
      fits n m h = ground (arith, h)

-- Only an applied configuration brings the flag about.
pub configured_before :
    (l : Lifecycle) (e : Lifecycle.Event)
    → e ≢ Lifecycle.config_applied
    → (advance l e).0.is_configured ≡ true
    → l.is_configured ≡ true
unfolding advance
configured_before l e n h = ground (arith, n, h)

module _ {A : Type 0} where
  pub advanced-Serving :
      (t : Tunnel A) (e : Lifecycle.Event)
      → e ≢ Lifecycle.config_applied
      → Serving t
      → Serving (advanced e t)
  advanced-Serving t e n v = record {
    lifecycle = advance-IsValid t.life e v.lifecycle;
    held = v.held;
    configured = λ h. v.configured (configured_before t.life e n h);
    queue_fits = v.queue_fits;
    bytes_fit = v.bytes_fit;
    reply_fits = v.reply_fits;
    sent_fits = v.sent_fits;
    fresh = v.fresh;
    pending = v.pending;
  }

-- ===== src/Tunnel/Deliveries.antt =====
-- The data on the streams in esp_cf_tunnel.c, and its updates, keep the tunnel in order.
use esp_cf_tunnel.Prelude.{
  either, either_at, ℕ, ◌-◌, ◌≤◌, ◌≡◌, ◌≢◌, inl, inr, refl, ap, ◌∙◌, Bool, true, false, ◌||◌, ◌&&◌,
  not, Option, none, some, List, [], ltb, leb, ◌==◌, if◌then◌else◌, length, take, drop,
  length-append, length-drop, length-take, arith, Bool-cases,
}
use esp_cf_tunnel.Core.{Bytes, CfResult, ok, err, limit}
use esp_cf_tunnel.Lifecycle
use esp_cf_tunnel.Framing
use esp_cf_tunnel.Framing.{message_max}
use esp_cf_tunnel.Config
use esp_cf_tunnel.Config.Policy.{apply-Follows}
use esp_cf_tunnel.H2.{Submission}
use esp_cf_tunnel.Json.{Cjson}
use esp_cf_tunnel.Tunnel.{Tunnel, Firmware, Answer, reply_max}
use esp_cf_tunnel.Tunnel.Streams.{is_closed, rpc_message}
use esp_cf_tunnel.Tunnel.Transfers.{
  fed_data, fed_end, control_data, config_data, h2_data, h2_read, h2_closed, apply_config, reply_of,
  outcome_event,
}
use esp_cf_tunnel.Tunnel.Feeding.{feed-keeps}
use esp_cf_tunnel.Tunnel.Invariant.{Serving, configured_before}
use esp_cf_tunnel.Lifecycle.Invariant.{advance-IsValid}
use esp_cf_tunnel.Tunnel.Callbacks.{rpc_message-Serving}

module _ {A : Type 0} (firmware : Firmware A) (out : Bytes) (now : ℕ) where
  fed_end-Serving :
      (rc : CfResult) (all : Bool) (calls : List Submission) (t : Tunnel A)
      → Serving t
      → Serving (fed_end firmware out now rc all calls t).2
  unfolding fed_end
  fed_end-Serving (some e) all calls t v = v
  fed_end-Serving none false calls t v = v
  fed_end-Serving none true calls t v = v

  fed_data-Serving :
      (t : Tunnel A) (size : ℕ) (fed : Option (Framing.Fed (List Submission × Tunnel A)))
      → Serving t
      → ((f : Framing.Fed (List Submission × Tunnel A)) → fed ≡ some f → Serving f.context.1)
      → Serving (fed_data firmware out now t size fed).2
  unfolding fed_data
  fed_data-Serving t size none v w = v
  fed_data-Serving t size (some fed) v w = fed_end-Serving _ _ _ _ (w fed refl)

  control_data-Serving :
      (t : Tunnel A) (input : Bytes) (ends : Bool)
      → Serving t
      → Serving (control_data firmware out now t input ends).2
  unfolding control_data
  control_data-Serving t input ends v =
      either (λ (a : Answer A). Serving a.2) (ends && not (is_closed t.rpc.phase)) _ _ v
        (either (λ (a : Answer A). Serving a.2) (length input == 0) _ _ v
          (fed_data-Serving t (length input) _ v (λ f h.
            feed-keeps (rpc_message firmware out now) (λ c. Serving c.1)
              (rpc_message-Serving firmware out now) t.framer input ([], t) f v h)))

  config_data-Serving :
      (t : Tunnel A) (input : Bytes) (ends : Bool)
      → t.config_stream ≢ 0
      → Serving t
      → Serving (config_data firmware out now t input ends).2
  unfolding config_data
  config_data-Serving t input ends k v =
      elim (Bool-cases (
        t.config_pending
        || t.config_response
        || ltb (Config.message_limit - length t.config_bytes) (length input))) [
          | inl d ↦ rw (config_data, d) v
          | inr d ↦
              rw (config_data, d)
                (record {
                  lifecycle = v.lifecycle;
                  held = v.held;
                  configured = v.configured;
                  queue_fits = v.queue_fits;
                  bytes_fit =
                      omega (arith, length-append t.config_bytes input, v.bytes_fit, room d);
                  reply_fits = v.reply_fits;
                  sent_fits = v.sent_fits;
                  fresh = v.fresh;
                  pending = λ z. (k, ground (arith, d));
                })
        ]
    where
      room :
          t.config_pending
              || t.config_response
              || ltb (Config.message_limit - length t.config_bytes) (length input)
            ≡ false
          → length input ≤ Config.message_limit - length t.config_bytes
      room d = ground (arith, d)

  pub h2_data-Serving :
      (t : Tunnel A) (id : ℕ) (input : Bytes) (ends : Bool)
      → id ≢ 0
      → Serving t
      → Serving (h2_data firmware out now t id input ends).2
  unfolding h2_data
  h2_data-Serving t id input ends k v =
      either (λ (a : Answer A). Serving a.2) (id == t.control_stream) _ _
        (control_data-Serving t input ends v)
        (elim (Bool-cases (id == t.config_stream)) [
          | inl d ↦ rw (d) (config_data-Serving t input ends (λ z. k (ground (arith, d, z))) v)
          | inr d ↦ rw (d) v
        ])

  pub h2_read-Serving :
      (t : Tunnel A) (id capacity : ℕ)
      → Serving t
      → Serving (h2_read firmware out now t id capacity).3
  unfolding h2_read
  h2_read-Serving t id capacity v =
      let bytes = take capacity (drop t.config_reply_sent t.config_reply) in
      let n = if ltb (length t.rpc_queue) capacity then length t.rpc_queue else capacity in
      either Read (id == t.control_stream) _ _
        (record {
          lifecycle = v.lifecycle;
          held = v.held;
          configured = v.configured;
          queue_fits = omega (arith, length-drop n t.rpc_queue, v.queue_fits);
          bytes_fit = v.bytes_fit;
          reply_fits = v.reply_fits;
          sent_fits = v.sent_fits;
          fresh = v.fresh;
          pending = v.pending;
        })
        (either Read (id == t.config_stream) _ _
          (either_at Read (not t.config_response) _ _ (λ d. v)
            (λ d. record {
              lifecycle = v.lifecycle;
              held = v.held;
              configured = v.configured;
              queue_fits = v.queue_fits;
              bytes_fit = v.bytes_fit;
              reply_fits = v.reply_fits;
              sent_fits = omega (
                arith,
                length-take capacity (drop t.config_reply_sent t.config_reply),
                length-drop t.config_reply_sent t.config_reply,
                v.sent_fits,
              );
              fresh = λ z. absurd (ground (arith, d, z));
              pending = λ z. absurd (ground (arith, d, (v.pending z).1));
            }))
          v)
    where
      Read : CfResult × Bytes × Bool × Tunnel A → Type 0
      Read r = Serving r.3

  pub h2_closed-Serving :
      (t : Tunnel A) (id error : ℕ) → Serving t → Serving (h2_closed firmware out now t id error)
  unfolding h2_closed
  h2_closed-Serving t id error v = either Serving (id == t.control_stream) _ _ v (
      either Serving (id == t.config_stream) _ _
        (record {
          lifecycle = v.lifecycle;
          held = v.held;
          configured = v.configured;
          queue_fits = v.queue_fits;
          bytes_fit = omega arith;
          reply_fits = v.reply_fits;
          sent_fits = v.sent_fits;
          fresh = λ r n. absurd (n refl);
          pending = λ z. absurd (ground (arith, z));
        })
        v)

  short : (n : ℕ) → leb reply_max n ≡ false → n ≤ reply_max
  short n d = ground (arith, d)

  text_fits :
      (text : Bytes)
      → length
          (reply_of firmware out now (if leb reply_max (length text) then err limit else ok text))
        ≤ reply_max
  text_fits text =
      either_at (λ r. length (reply_of firmware out now r) ≤ reply_max)
        (leb reply_max (length text)) (err limit) (ok text) (λ d. omega arith) (short (length text))

  response_fits :
      (remote : Config.RemoteConfig) (rc : CfResult)
      → length (reply_of firmware out now (Config.response remote rc reply_max)) ≤ reply_max
  unfolding Config.response
  response_fits remote rc = text_fits (Config.response_text remote rc)

  nothing_sent :
      (t : Tunnel A) → Serving t → t.config_pending ≡ true → (n : ℕ) → t.config_reply_sent ≤ n
  nothing_sent t v z n =
      let (open_stream, unanswered) = v.pending z in
      let none_sent = v.fresh unanswered open_stream in omega (arith, none_sent)

  -- After an update, the flag stands for a valid configuration.
  still_configured :
      (t : Tunnel A) (rc : CfResult) (remote : Config.RemoteConfig)
      → Serving t
      → (rc ≡ none → remote.valid ≡ true)
      → (rc ≢ none → remote ≡ t.remote)
      → (Lifecycle.advance t.life (outcome_event firmware out now rc)).0.is_configured ≡ true
      → remote.valid ≡ true
  still_configured t none remote v taken atomic h = taken refl
  still_configured t (some e) remote v taken atomic h =
      ap (λ r. r.valid) (atomic (λ z. absurd (ground (arith, z))))
      ∙ v.configured
          (configured_before t.life Lifecycle.config_rejected (λ z. absurd (ground (arith, z))) h)

  pub apply_config-Serving :
      (lib : Cjson) (locked : Bool) (submitted : CfResult) (t : Tunnel A)
      → Serving t
      → Serving (apply_config firmware out now lib locked submitted t).1
  unfolding apply_config
  apply_config-Serving lib locked submitted t v =
      either_at (λ (r : List Submission × Tunnel A). Serving r.1)
        (not t.config_pending || not locked) _ _ (λ d. v)
        (λ d.
          let f = apply-Follows lib t.remote t.hostname t.service v.held t.config_bytes in
          let rc = (Config.apply lib t.remote t.config_bytes t.hostname t.service).0 in
          let remote = (Config.apply lib t.remote t.config_bytes t.hostname t.service).2 in
          record {
            lifecycle = advance-IsValid t.life (outcome_event firmware out now rc) v.lifecycle;
            held = f.held;
            configured = still_configured t rc remote v f.taken f.atomic;
            queue_fits = v.queue_fits;
            bytes_fit = omega arith;
            reply_fits = response_fits remote rc;
            sent_fits = nothing_sent t v (ground (arith, d)) _;
            fresh = λ z. absurd (ground (arith, z));
            pending = λ z. absurd (ground (arith, z));
          })

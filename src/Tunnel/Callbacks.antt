-- ===== src/Tunnel/Callbacks.antt =====
-- The requests and the messages of the edge in esp_cf_tunnel.c keep the tunnel in order.
use esp_cf_tunnel.Prelude.{either, ℕ, refl, ◌||◌, not, none, some, List, ◌==◌, arith}
use esp_cf_tunnel.Core.{Bytes, CfResult}
use esp_cf_tunnel.Lifecycle
use esp_cf_tunnel.Rpc
use esp_cf_tunnel.Rpc.{tx_max}
use esp_cf_tunnel.H2.{Submission, Request, Kind, http, control, config}
use esp_cf_tunnel.Tunnel.{Tunnel, Firmware, Answer, advanced}
use esp_cf_tunnel.Tunnel.Streams.{
  is_admitted, queue_reply, fault_on_error, message_end, answer_control, by_kind, is_http2,
  send_registration, after_message, rpc_message, open_control, open_config, h2_request,
}
use esp_cf_tunnel.Tunnel.Invariant.{Serving, append_rpc-Serving, advanced-Serving}

module _ {A : Type 0} (firmware : Firmware A) (out : Bytes) (now : ℕ) where
  queue_reply-Serving :
      (rc : CfResult) (t : Tunnel A) (queued : Answer A)
      → Serving t
      → Serving queued.2
      → Serving (queue_reply firmware out now rc t queued).2
  unfolding queue_reply
  queue_reply-Serving (some e) t queued v w = v
  queue_reply-Serving none t queued v w = w

  fault_on_error-Serving :
      (a : Answer A) → Serving a.2 → Serving (fault_on_error firmware out now a).2
  unfolding fault_on_error
  fault_on_error-Serving (none, calls, t) v = v
  fault_on_error-Serving (some e, calls, t) v = v

  pub send_registration-Serving :
      (t : Tunnel A) (buffer : Bytes)
      → Serving t
      → Serving (send_registration firmware out now t buffer).2
  unfolding send_registration
  send_registration-Serving t buffer v =
      fault_on_error-Serving _ (queue_reply-Serving _ _ _ v (append_rpc-Serving _ _ v))

  pub after_message-Serving :
      (s : Rpc.State) (t : Tunnel A) (buffer : Bytes)
      → Serving t
      → Serving (after_message firmware out now s t buffer).2
  unfolding after_message
  after_message-Serving Rpc.ready t buffer v = send_registration-Serving t buffer v
  after_message-Serving Rpc.registered t buffer v =
      advanced-Serving t Lifecycle.registered (λ e. absurd (ground (arith, e))) v
  after_message-Serving Rpc.rejected t buffer v = v
  after_message-Serving Rpc.idle t buffer v = v
  after_message-Serving Rpc.bootstrapping t buffer v = v
  after_message-Serving Rpc.registering t buffer v = v
  after_message-Serving Rpc.unregistering t buffer v = v
  after_message-Serving Rpc.closed t buffer v = v
  after_message-Serving Rpc.failed t buffer v = v

  message_end-Serving :
      (queued result : CfResult) (failed : List Submission × Tunnel A)
      (after : (List Submission × Tunnel A) × CfResult)
      → Serving failed.1
      → Serving after.0.1
      → Serving (message_end firmware out now queued result failed after).0.1
  unfolding message_end
  message_end-Serving (some e) result failed after v w = v
  message_end-Serving none (some e) failed after v w = v
  message_end-Serving none none failed after v w = w

  pub rpc_message-Serving :
      (c : List Submission × Tunnel A) (frame : Bytes)
      → Serving c.1
      → Serving (rpc_message firmware out now c frame).0.1
  unfolding rpc_message
  rpc_message-Serving (before, t) frame v =
      let w = append_rpc-Serving _ _ v in
      message_end-Serving _ _ _ _ w (after_message-Serving _ _ _ w)

  answer_control-Serving :
      (submitted : CfResult) (id : ℕ) (a : Answer A)
      → Serving a.2
      → Serving (answer_control firmware out now submitted id a).2
  unfolding answer_control
  answer_control-Serving submitted id (some e, calls, t) v = v
  answer_control-Serving submitted id (none, calls, t) v = v

  open_control-Serving :
      (submitted : CfResult) (t : Tunnel A) (request : Request)
      → Serving t
      → Serving (open_control firmware out now submitted t request).2
  unfolding open_control
  open_control-Serving submitted t request v =
      let t0 : Tunnel A = record t { control_stream = request.stream } in
      let w =
        either Serving (is_http2 t.life.phase) (advanced Lifecycle.http2_ready t0) t0
          (advanced-Serving t0 Lifecycle.http2_ready (λ e. absurd (ground (arith, e))) v) v in
      either (λ (a : Answer A). Serving a.2) (not (t.control_stream == 0) || request.end_stream) _ _
        v (answer_control-Serving _ _ _ (queue_reply-Serving _ _ _ w (append_rpc-Serving _ _ w)))

  open_config-Serving :
      (t : Tunnel A) (request : Request)
      → Serving t
      → Serving (open_config firmware out now t request).2
  unfolding open_config
  open_config-Serving t request v =
      either (λ (a : Answer A). Serving a.2) (not (t.config_stream == 0)) _ _ v
        (record {
          lifecycle = v.lifecycle;
          held = v.held;
          configured = v.configured;
          queue_fits = v.queue_fits;
          bytes_fit = omega arith;
          reply_fits = omega arith;
          sent_fits = omega arith;
          fresh = λ r n. refl;
          pending = λ z. absurd (ground (arith, z));
        })

  by_kind-Serving :
      (kind : Kind) (submitted : CfResult) (t : Tunnel A) (request : Request)
      → Serving t
      → Serving (by_kind firmware out now kind submitted t request).2
  unfolding by_kind
  by_kind-Serving control submitted t request v = open_control-Serving submitted t request v
  by_kind-Serving config submitted t request v = open_config-Serving t request v
  by_kind-Serving http submitted t request v =
      either (λ (a : Answer A). Serving a.2) (not (is_admitted firmware out now t request)) _ _ v v

  pub h2_request-Serving :
      (submitted : CfResult) (t : Tunnel A) (request : Request)
      → Serving t
      → Serving (h2_request firmware out now submitted t request).2
  unfolding h2_request
  h2_request-Serving submitted t request v =
      either (λ (a : Answer A). Serving a.2) t.stopping _ _ v
        (by_kind-Serving request.kind submitted t request v)

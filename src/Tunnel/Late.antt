-- ===== src/Tunnel/Late.antt =====
-- What the callbacks in esp_cf_tunnel.c do to the state of the lifecycle, once the edge has opened HTTP/2.
use esp_cf_tunnel.Prelude.{
  either, ℕ, ◌-◌, ◌≡◌, ◌≢◌, refl, ◌∙◌, Bool, true, false, ◌||◌, ◌&&◌, not, Option, none, some, List,
  [], ltb, ◌==◌, length, arith,
}
use esp_cf_tunnel.Core.{Bytes, CfResult}
use esp_cf_tunnel.Lifecycle
use esp_cf_tunnel.Lifecycle.{CfState, Lifecycle, advance}
use esp_cf_tunnel.Lifecycle.Invariant.{IsValid, advance-IsValid}
use esp_cf_tunnel.Rpc
use esp_cf_tunnel.Framing
use esp_cf_tunnel.H2.{Submission, Request, Kind, http, control, config}
use esp_cf_tunnel.Json.{Cjson}
use esp_cf_tunnel.Tunnel.{Tunnel, Firmware, Answer, advanced, append_rpc, queue_max}
use esp_cf_tunnel.Tunnel.Streams.{
  is_closed, is_http2, is_admitted, queue_reply, fault_on_error, send_registration, after_message,
  message_end, rpc_message, answer_control, open_control, open_config, by_kind, h2_request,
}
use esp_cf_tunnel.Tunnel.Transfers.{
  fed_end, fed_data, control_data, config_data, h2_data, h2_read, h2_closed, outcome_event,
  apply_config,
}
use esp_cf_tunnel.Tunnel.Feeding.{feed-keeps}

abbrev pub is_late : CfState → Bool
is_late Lifecycle.registering = true
is_late Lifecycle.wait_config = true
is_late Lifecycle.online = true
is_late Lifecycle.config_failed = true
is_late Lifecycle.stopping = true
is_late _ = false

abbrev pub is_stopping : CfState → Bool
is_stopping Lifecycle.stopping = true
is_stopping _ = false

-- The connection is served or halts, and the flag of the stop says which.
abbrev pub IsLate : Bool → Lifecycle → Bool → Type 0
IsLate halts l stopping =
    IsValid l × (is_late l.phase ≡ true) × (stopping ≡ halts) × (is_stopping l.phase ≡ halts)

late_phases :
    (l : Lifecycle) (e : Lifecycle.Event)
    → is_late l.phase ≡ true
    → e ≢ Lifecycle.auth_rejected
    → (is_late (advance l e).0.phase ≡ true)
      × (is_stopping (advance l e).0.phase ≡ is_stopping l.phase)
unfolding advance
late_phases l e h n = ground (arith, h, n)

abbrev pub Late : {A : Type 0} → Bool → Tunnel A → Type 0
Late halts t = IsLate halts t.life t.stopping

abbrev pub LateAnswer : {A : Type 0} → Bool → Answer A → Type 0
LateAnswer halts a = Late halts a.2

module _ {A : Type 0} {halts : Bool} where
  pub advanced-Late :
      (t : Tunnel A) (e : Lifecycle.Event)
      → e ≢ Lifecycle.auth_rejected
      → Late halts t
      → Late halts (advanced e t)
  advanced-Late t e n (v, late, flag, phase) =
      let (later, same) = late_phases t.life e late n in
      (advance-IsValid t.life e v, later, flag, same ∙ phase)

  append_rpc-Late : (t : Tunnel A) (more : Bytes) → Late halts t → Late halts (append_rpc t more).2
  unfolding append_rpc
  append_rpc-Late t more v =
      either (LateAnswer halts) (ltb (queue_max - length t.rpc_queue) (length more)) _ _ v v

module _ {A : Type 0} (firmware : Firmware A) (out : Bytes) (now : ℕ) where
  not_auth : (rc : CfResult) → outcome_event firmware out now rc ≢ Lifecycle.auth_rejected
  not_auth none e = absurd (ground (arith, e))
  not_auth (some x) e = absurd (ground (arith, e))

module _ {A : Type 0} {halts : Bool} (firmware : Firmware A) (out : Bytes) (now : ℕ) where
  queue_reply-Late :
      (rc : CfResult) (t : Tunnel A) (queued : Answer A)
      → Late halts t
      → LateAnswer halts queued
      → LateAnswer halts (queue_reply firmware out now rc t queued)
  unfolding queue_reply
  queue_reply-Late (some e) t queued v w = v
  queue_reply-Late none t queued v w = w

  fault_on_error-Late :
      (a : Answer A) → LateAnswer halts a → LateAnswer halts (fault_on_error firmware out now a)
  unfolding fault_on_error
  fault_on_error-Late (none, calls, t) v = v
  fault_on_error-Late (some e, calls, t) v = v

  after_message-Late :
      (s : Rpc.State) (t : Tunnel A) (buffer : Bytes)
      → Late halts t
      → LateAnswer halts (after_message firmware out now s t buffer)
  unfolding after_message send_registration
  after_message-Late Rpc.ready t buffer v =
      fault_on_error-Late _ (queue_reply-Late _ _ _ v (append_rpc-Late _ _ v))
  after_message-Late Rpc.registered t buffer v =
      advanced-Late t Lifecycle.registered (λ e. absurd (ground (arith, e))) v
  after_message-Late Rpc.rejected t buffer v = v
  after_message-Late Rpc.idle t buffer v = v
  after_message-Late Rpc.bootstrapping t buffer v = v
  after_message-Late Rpc.registering t buffer v = v
  after_message-Late Rpc.unregistering t buffer v = v
  after_message-Late Rpc.closed t buffer v = v
  after_message-Late Rpc.failed t buffer v = v

  message_end-Late :
      (queued result : CfResult) (failed : List Submission × Tunnel A)
      (after : (List Submission × Tunnel A) × CfResult)
      → Late halts failed.1
      → Late halts after.0.1
      → Late halts (message_end firmware out now queued result failed after).0.1
  unfolding message_end
  message_end-Late (some e) result failed after v w = v
  message_end-Late none (some e) failed after v w = v
  message_end-Late none none failed after v w = w

  rpc_message-Late :
      (c : List Submission × Tunnel A) (frame : Bytes)
      → Late halts c.1
      → Late halts (rpc_message firmware out now c frame).0.1
  unfolding rpc_message
  rpc_message-Late (before, t) frame v =
      let w = append_rpc-Late _ _ v in message_end-Late _ _ _ _ w (after_message-Late _ _ _ w)

  pub answer_control-Late :
      (submitted rc : CfResult) (id : ℕ) (t : Tunnel A) (more : Bytes)
      → Late halts t
      → LateAnswer halts (
          answer_control firmware out now submitted id
            (queue_reply firmware out now rc t (append_rpc t more)))
  unfolding answer_control
  answer_control-Late submitted rc id t more v =
      answered _ (queue_reply-Late _ _ _ v (append_rpc-Late _ _ v))
    where
      answered :
          (a : Answer A)
          → LateAnswer halts a
          → LateAnswer halts (answer_control firmware out now submitted id a)
      answered (some e, calls, u) w = w
      answered (none, calls, u) w = w

  by_kind-Late :
      (kind : Kind) (submitted : CfResult) (t : Tunnel A) (request : Request)
      → Late halts t
      → LateAnswer halts (by_kind firmware out now kind submitted t request)
  unfolding by_kind open_control open_config
  by_kind-Late control submitted t request v =
      let t0 : Tunnel A = record t { control_stream = request.stream } in
      let w =
        either (Late halts) (is_http2 t.life.phase) (advanced Lifecycle.http2_ready t0) t0
          (advanced-Late t0 Lifecycle.http2_ready (λ e. absurd (ground (arith, e))) v) v in
      either (LateAnswer halts) (not (t.control_stream == 0) || request.end_stream) _ _ v
        (answer_control-Late _ _ _ _ _ w)
  by_kind-Late config submitted t request v =
      either (LateAnswer halts) (not (t.config_stream == 0)) _ _ v v
  by_kind-Late http submitted t request v =
      either (LateAnswer halts) (not (is_admitted firmware out now t request)) _ _ v v

  pub h2_request-Late :
      (submitted : CfResult) (t : Tunnel A) (request : Request)
      → Late halts t
      → LateAnswer halts (h2_request firmware out now submitted t request)
  unfolding h2_request
  h2_request-Late submitted t request v =
      either (LateAnswer halts) t.stopping _ _ v (by_kind-Late request.kind submitted t request v)

  fed_data-Late :
      (t : Tunnel A) (size : ℕ) (fed : Option (Framing.Fed (List Submission × Tunnel A)))
      → Late halts t
      → ((f : Framing.Fed (List Submission × Tunnel A)) → fed ≡ some f → Late halts f.context.1)
      → LateAnswer halts (fed_data firmware out now t size fed)
  unfolding fed_data fed_end
  fed_data-Late t size none v w = v
  fed_data-Late t size (some fed) v w = ended fed.result _ _ _ (w fed refl)
    where
      ended :
          (rc : CfResult) (all : Bool) (calls : List Submission) (u : Tunnel A)
          → Late halts u
          → LateAnswer halts (fed_end firmware out now rc all calls u)
      ended (some e) all calls u z = z
      ended none false calls u z = z
      ended none true calls u z = z

  control_data-Late :
      (t : Tunnel A) (input : Bytes) (ends : Bool)
      → Late halts t
      → LateAnswer halts (control_data firmware out now t input ends)
  unfolding control_data
  control_data-Late t input ends v =
      either (LateAnswer halts) (ends && not (is_closed t.rpc.phase)) _ _ v (
        either (LateAnswer halts) (length input == 0) _ _ v (
          fed_data-Late t (length input) _ v (λ f h.
            feed-keeps (rpc_message firmware out now) (λ c. Late halts c.1) rpc_message-Late
              t.framer input ([], t) f v h)))

  pub h2_data-Late :
      (t : Tunnel A) (id : ℕ) (input : Bytes) (ends : Bool)
      → Late halts t
      → LateAnswer halts (h2_data firmware out now t id input ends)
  unfolding h2_data config_data
  h2_data-Late t id input ends v =
      either (LateAnswer halts) (id == t.control_stream) _ _ (control_data-Late t input ends v) (
        either (LateAnswer halts) (id == t.config_stream) _ _ (either (LateAnswer halts) _ _ _ v v)
          v)

  pub h2_read-Late :
      (t : Tunnel A) (id capacity : ℕ)
      → Late halts t
      → Late halts (h2_read firmware out now t id capacity).3
  unfolding h2_read
  h2_read-Late t id capacity v =
      either Read (id == t.control_stream) _ _ v
        (either Read (id == t.config_stream) _ _ (either Read (not t.config_response) _ _ v v) v)
    where
      Read : CfResult × Bytes × Bool × Tunnel A → Type 0
      Read r = Late halts r.3

  pub h2_closed-Late :
      (t : Tunnel A) (id error : ℕ)
      → Late halts t
      → Late halts (h2_closed firmware out now t id error)
  unfolding h2_closed
  h2_closed-Late t id error v =
      either (Late halts) (id == t.control_stream) _ _ v
        (either (Late halts) (id == t.config_stream) _ _ v v)

  pub apply_config-Late :
      (lib : Cjson) (locked : Bool) (submitted : CfResult) (t : Tunnel A)
      → Late halts t
      → Late halts (apply_config firmware out now lib locked submitted t).1
  unfolding apply_config
  apply_config-Late lib locked submitted t v =
      either (λ (r : List Submission × Tunnel A). Late halts r.1)
        (not t.config_pending || not locked) _ _ v
        (advanced-Late t _ (not_auth firmware out now _) v)

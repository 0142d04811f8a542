-- ===== src/Tunnel/Streams.antt =====
-- The requests and the messages of the edge in esp_cf_tunnel.c. `out` is the content of an uninitialised buffer,
-- `now` what `now_ms` returns, and `submitted` what `cf_h2_respond` returns.
use esp_cf_tunnel.Prelude.{
  ℕ, ◌+◌, Bool, true, false, ◌||◌, ◌&&◌, not, none, some, List, [], ◌∷◌, ◌++◌, ltb, ◌==◌,
  if◌then◌else◌, take, bytes_of,
}
use esp_cf_tunnel.Core.{Bytes, CfResult, Result, ok, err, limit, state, u8, u64}
use esp_cf_tunnel.Base64.{secure_zero}
use esp_cf_tunnel.Lifecycle
use esp_cf_tunnel.Rpc
use esp_cf_tunnel.Rpc.{Reply, tx_max}
use esp_cf_tunnel.Rpc.Receive.{receive}
use esp_cf_tunnel.Framing
use esp_cf_tunnel.Framing.{message_max}
use esp_cf_tunnel.H2.{Submission, Request, Kind, http, control, config, responds, equals, header}
use esp_cf_tunnel.Token.{no_credentials}
use esp_cf_tunnel.Tunnel.{Tunnel, Firmware, Answer, advanced, append_rpc, failing}

abbrev pub is_closed : Rpc.State → Bool
is_closed Rpc.closed = true
is_closed _ = false

abbrev pub is_online : Lifecycle.CfState → Bool
is_online Lifecycle.online = true
is_online _ = false

abbrev pub is_http2 : Lifecycle.CfState → Bool
is_http2 Lifecycle.http2 = true
is_http2 _ = false

module _ {A : Type 0} (firmware : Firmware A) (out : Bytes) (now : ℕ) where
  -- `if (rc == CF_OK) rc = append_rpc(...)`, where the second tunnel is the one before the append.
  unfoldable pub queue_reply : CfResult → Tunnel A → Answer A → Answer A
  queue_reply (some e) t queued = (some e, [], t)
  queue_reply none t queued = queued

  -- `if (rc != CF_OK) t->fault = true`
  unfoldable pub fault_on_error : Answer A → Answer A
  fault_on_error (none, calls, t) = (none, calls, t)
  fault_on_error (some e, calls, t) = (some e, calls, failing t)

  -- The registration in `rpc_message`.
  unfoldable pub send_registration : Tunnel A → Bytes → Answer A
  send_registration t buffer =
      let options = record t.options {
        local_ip = t.local_ip;
        previous_attempts = if ltb 256 t.attempts then 255 else u8 (t.attempts + 255);
      } in
      let reply : Reply = Rpc.register t.rpc t.credentials options buffer tx_max in
      let t1 : Tunnel A = record t {
        options = options;
        rpc = reply.rpc;
        credentials = no_credentials;
      } in
      fault_on_error (queue_reply reply.result t1 (append_rpc t1 (take reply.written reply.buffer)))

  -- `rpc_message` behind the answer to the message, by the state of the registration.
  unfoldable pub after_message : Rpc.State → Tunnel A → Bytes → Answer A
  after_message Rpc.ready t buffer = send_registration t buffer
  after_message Rpc.registered t buffer =
      (none, [], record (advanced Lifecycle.registered t) { deadline_ms = u64 (now + 30000) })
  after_message Rpc.rejected t buffer = (none, [], failing t)
  after_message _ t buffer = (none, [], t)

  -- The result of `rpc_message`: of the append, of the answer to the message, and of what follows.
  unfoldable pub message_end :
      CfResult
      → CfResult
      → List Submission × Tunnel A
      → (List Submission × Tunnel A) × CfResult
      → (List Submission × Tunnel A) × CfResult
  message_end (some e) result (calls, t) after = ((calls, failing t), some limit)
  message_end none (some e) (calls, t) after = ((calls, failing t), some e)
  message_end none none failed after = after

  -- `rpc_message`, with the calls of the adapter so far.
  unfoldable pub rpc_message :
      List Submission × Tunnel A → Bytes → (List Submission × Tunnel A) × CfResult
  rpc_message (before, t) frame =
      let reply : Reply = receive t.rpc frame out tx_max in
      let (queued, calls, t1) =
        append_rpc (record t { rpc = reply.rpc }) (take reply.written reply.buffer) in
      let (rc, more, t2) = after_message t1.rpc.phase t1 (secure_zero reply.buffer tx_max) in
      message_end queued reply.result (before ++ calls, t1) ((before ++ calls ++ more, t2), rc)

  abbrev pub framer_of : Result Framing.Framer → Framing.Framer → Framing.Framer
  framer_of (ok f) old = f
  framer_of (err e) old = old

  -- The response on the control stream, once its first bytes are queued.
  unfoldable pub answer_control : CfResult → ℕ → Answer A → Answer A
  answer_control submitted id (some e, calls, t) = (some e, calls, t)
  answer_control submitted id (none, calls, t) = (
    submitted,
    calls ++ (responds id 200 [] false ∷ []),
    record t { deadline_ms = u64 (now + 30000) },
  )

  -- The control stream in `h2_request`.
  unfoldable pub open_control : CfResult → Tunnel A → Request → Answer A
  open_control submitted t request =
      let t0 : Tunnel A = record t { control_stream = request.stream } in
      let t1 = if is_http2 t.life.phase then advanced Lifecycle.http2_ready t0 else t0 in
      let reply : Reply = Rpc.begin Rpc.init out tx_max in
      let t2 : Tunnel A = record t1 {
        framer = framer_of (Framing.init message_max) t.framer;
        rpc = reply.rpc;
      } in
      if not (t.control_stream == 0) || request.end_stream
      then (some state, [], t)
      else answer_control submitted request.stream
          (queue_reply reply.result t2 (append_rpc t2 (take reply.written reply.buffer)))

  -- The configuration stream in `h2_request`.
  unfoldable pub open_config : Tunnel A → Request → Answer A
  open_config t request = if not (t.config_stream == 0) then (some state, [], t) else (
    none,
    [],
    record t {
      config_stream = request.stream;
      config_bytes = [];
      config_reply = [];
      config_reply_sent = 0;
      config_pending = false;
      config_response = false;
    },
  )

  -- The requests that `h2_request` hands to the firmware.
  abbrev pub is_admitted : Tunnel A → Request → Bool
  is_admitted t request =
      is_online t.life.phase
      && equals (header request.headers (bytes_of ":authority")) t.remote.hostname

  -- The three kinds of a request in `h2_request`.
  unfoldable pub by_kind : Kind → CfResult → Tunnel A → Request → Answer A
  by_kind control submitted t request = open_control submitted t request
  by_kind config submitted t request = open_config t request
  by_kind http submitted t request =
      let (rc, calls, app) = firmware.on_request t.app request in
      if not (is_admitted t request)
      then (some state, [], t)
      else (rc, calls, record t { app = app })

  -- `h2_request`
  unfoldable pub h2_request : CfResult → Tunnel A → Request → Answer A
  h2_request submitted t request =
      if t.stopping then (some state, [], t) else by_kind request.kind submitted t request

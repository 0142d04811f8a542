-- ===== src/Tunnel/Transfers.antt =====
-- The data on the streams in esp_cf_tunnel.c, in both directions, and the configuration that one of the streams brings.
-- `out`, `now` and `submitted` are as in Streams.
use esp_cf_tunnel.Prelude.{
  ℕ, ◌+◌, ◌-◌, Bool, true, false, ◌||◌, ◌&&◌, not, Option, none, some, List, [], ◌∷◌, ◌++◌, ltb,
  ◌==◌, if◌then◌else◌, length, take, drop, bytes_of,
}
use esp_cf_tunnel.Core.{Bytes, CfResult, Result, ok, err, limit, state, truncated}
use esp_cf_tunnel.Lifecycle
use esp_cf_tunnel.Framing
use esp_cf_tunnel.Framing.{message_max}
use esp_cf_tunnel.Config
use esp_cf_tunnel.Headers.{Header}
use esp_cf_tunnel.H2.{Submission, responds}
use esp_cf_tunnel.Json.{Cjson}
use esp_cf_tunnel.Tunnel.{Tunnel, Firmware, Answer, advanced, reply_max, failing}
use esp_cf_tunnel.Tunnel.Streams.{is_closed, rpc_message}

module _ {A : Type 0} (firmware : Firmware A) (out : Bytes) (now : ℕ) where
  -- The end of the feed, with whether it took all bytes.
  unfoldable pub fed_end : CfResult → Bool → List Submission → Tunnel A → Answer A
  fed_end (some e) all calls t = (some e, calls, failing t)
  fed_end none false calls t = (some state, calls, failing t)
  fed_end none true calls t = (none, calls, t)

  -- What the control stream's data leave; the feed always returns.
  unfoldable pub fed_data :
      Tunnel A → ℕ → Option (Framing.Fed (List Submission × Tunnel A)) → Answer A
  fed_data t size none = (some state, [], t)
  fed_data t size (some fed) =
      let t' : Tunnel A = record fed.context.1 { framer = fed.framer } in
      fed_end fed.result (fed.consumed == size) fed.context.0 t'

  -- The control stream in `h2_data`.
  unfoldable pub control_data : Tunnel A → Bytes → Bool → Answer A
  control_data t input ends =
      if ends && not (is_closed t.rpc.phase)
      then (some truncated, [], failing t)
      else if length input == 0
      then (none, [], t)
      else fed_data t (length input)
          (Framing.feed (rpc_message firmware out now) t.framer input ([], t))

  -- The configuration stream in `h2_data`.
  unfoldable pub config_data : Tunnel A → Bytes → Bool → Answer A
  config_data t input ends =
      if t.config_pending
        || t.config_response
        || ltb (Config.message_limit - length t.config_bytes) (length input)
      then (some limit, [], t)
      else (
        none,
        [],
        record t {
          config_bytes = t.config_bytes ++ input;
          config_pending = if ends then true else t.config_pending;
        },
      )

  -- `h2_data`
  unfoldable pub h2_data : Tunnel A → ℕ → Bytes → Bool → Answer A
  h2_data t id input ends =
      let (rc, calls, app) = firmware.on_data t.app id input ends in
      if id == t.control_stream
      then control_data t input ends
      else if id == t.config_stream
      then config_data t input ends
      else (rc, calls, record t { app = app })

  -- `h2_read`: its result, the bytes, `*eof` and the tunnel.
  unfoldable pub h2_read : Tunnel A → ℕ → ℕ → CfResult × Bytes × Bool × Tunnel A
  h2_read t id capacity =
      let n = if ltb (length t.rpc_queue) capacity then length t.rpc_queue else capacity in
      let queue = drop n t.rpc_queue in
      let done = is_closed t.rpc.phase && length queue == 0 in
      let bytes = take capacity (drop t.config_reply_sent t.config_reply) in
      let sent = t.config_reply_sent + length bytes in
      let (rc, read, end, app) = firmware.on_read t.app id capacity in
      if id == t.control_stream
      then (
        if not (n == 0) || done then none else some state,
        take n t.rpc_queue,
        done,
        record t { rpc_queue = queue },
      )
      else if id == t.config_stream
      then (if not t.config_response
          then (some state, [], false, t)
          else (none, bytes, sent == length t.config_reply, record t { config_reply_sent = sent }))
      else (rc, read, end, record t { app = app })

  -- `h2_closed`
  unfoldable pub h2_closed : Tunnel A → ℕ → ℕ → Tunnel A
  h2_closed t id error =
      let lost = not t.closing && (not t.stopping || not (is_closed t.rpc.phase)) in
      if id == t.control_stream
      then record t { control_stream = 0; fault = t.fault || lost }
      else if id == t.config_stream
      then record t {
        config_stream = 0;
        config_bytes = [];
        config_pending = false;
        config_response = false;
      }
      else record t { app = firmware.on_closed t.app id error }

  abbrev pub reply_of : Result Bytes → Bytes
  reply_of (ok text) = text
  reply_of (err e) = []

  abbrev pub json_header : Header
  json_header = record { name = bytes_of "content-type"; value = bytes_of "application/json" }

  abbrev pub outcome_event : CfResult → Lifecycle.Event
  outcome_event none = Lifecycle.config_applied
  outcome_event (some e) = Lifecycle.config_rejected

  -- `apply_config`; `locked` is what `json_try_lock` returns.
  unfoldable pub apply_config : Cjson → Bool → CfResult → Tunnel A → List Submission × Tunnel A
  apply_config lib locked submitted t =
      let (rc, reason, remote) = Config.apply lib t.remote t.config_bytes t.hostname t.service in
      let bad : Bool = elim submitted [ none ↦ false | some e ↦ true ] in
      if not t.config_pending || not locked then ([], t) else (
        responds t.config_stream 200 (json_header ∷ []) false ∷ [],
        advanced (outcome_event rc) (record t {
          remote = remote;
          config_reply = reply_of (Config.response remote rc reply_max);
          config_bytes = [];
          config_pending = false;
          config_response = true;
          fault = t.fault || bad;
        }),
      )

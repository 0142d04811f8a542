-- ===== src/H2/Session.antt =====
-- The calls that run nghttp2 in components/esp_cf_tunnel/src/transport/cf_h2.c. nghttp2 is a parameter: it
-- answers a call with the callbacks that it makes, one after the other, and a result.
use esp_cf_tunnel.Prelude.{
  ℕ, ◌+◌, Bool, true, false, ◌||◌, ◌&&◌, not, none, some, List, [], ◌∷◌, ltb, ◌==◌, if◌then◌else◌,
  length, replicate,
}
use esp_cf_tunnel.Core.{Bytes, CfResult, CfError, Result, ok, err, argument, memory, state, format}
use esp_cf_tunnel.H2.{Stream, empty_slot, Engine, Outside, Submission, application_max, cancel}
use esp_cf_tunnel.H2.Respond.{submit, submit_all, shutdown, sent, tick}
use esp_cf_tunnel.H2.Frame.{Frame}
use esp_cf_tunnel.H2.Receive.{
  begin_headers, on_header, received_frame, received_data, closed_stream, sent_frame, note_error,
  invalid_frame, read_response,
}

-- The callbacks that `cf_h2_create` registers.
pub data Event : Type 0 where
  headers_begun frame_received frame_sent : Frame → Event
  header_received : ℕ → Bytes → Bytes → Event
  data_received : ℕ → Bytes → Event
  stream_closed : ℕ → ℕ → Event
  error_reported : ℕ → Event
  frame_invalid : Frame → ℕ → Event
  data_wanted : ℕ → ℕ → Event

-- What `nghttp2_session_mem_recv2` and `nghttp2_session_mem_send2` return; an error is its number without
-- the sign, and `no_memory` is `NGHTTP2_ERR_NOMEM`.
pub data Outcome (A : Type 0) : Type 0 where
  gives : A → Outcome A
  no_memory : Outcome A
  breaks : ℕ → Outcome A

-- nghttp2: the callbacks that it makes, and, once they are made, whether they all returned 0 or not,
-- the result.
pub record Library (W : Type 0) : Type 0 where
  pub on_input : Engine W → Bytes → List Event
  pub input_result : Engine W → Bytes → Bool → Outcome ℕ × W
  pub on_output : Engine W → List Event
  pub output_result : Engine W → Bool → Outcome Bytes × W

-- The calls of the owner.
pub data Call : Type 0 where
  receives : Bytes → ℕ → Call
  outputs shuts_down : Call
  reports_sent : ℕ → Call
  ticks : ℕ → Call
  submits : Submission → Call

-- `-NGHTTP2_ERR_NOMEM`
abbrev pub nomem : ℕ
nomem = 901

-- `calloc`, and what `cf_h2_create` sets.
abbrev pub initial : {W : Type 0} → ℕ → W → Engine W
initial apps w = record {
  app_limit = apps;
  now_ms = 0;
  streams = replicate (application_max + 2) empty_slot;
  headers = [];
  header_used = 0;
  header_stream = 0;
  pending = [];
  error = none;
  stats = record {
    active_streams = 0;
    rejected_streams = 0;
    last_error = 0;
    goaway_error = 0;
    peer_goaway_error = 0;
    peer_goaway_last_stream = 0;
    local_goaway_reason = [];
    local_goaway = false;
    peer_settings = false;
    goaway = false;
  };
  outside = w;
}

-- `cf_h2_create` with callbacks that are all set. `allocated` tells whether `calloc` succeeds, `started`
-- whether nghttp2 makes the session and takes the settings.
unfoldable pub create : {W : Type 0} → ℕ → ℕ → Bool → Bool → W → Result (Engine W)
create apps limit allocated started w =
    if not (apps == 2) && not (apps == 4) || ltb limit 8192 || ltb 65536 limit
    then err argument
    else if not allocated
    then err memory
    else if not started
    then err memory
    else ok (initial apps w)

module _ {W : Type 0} (o : Outside W) where
  unfoldable pub on_event : Event → Engine W → Bool × Engine W
  on_event (headers_begun f) h = begin_headers o h f
  on_event (header_received id name value) h = on_header o h id name value
  on_event (frame_received f) h = received_frame o h f
  on_event (data_received id bytes) h = received_data o h id bytes
  on_event (stream_closed id code) h = (true, closed_stream o h id code)
  on_event (frame_sent f) h = (true, sent_frame o h f)
  on_event (error_reported code) h = (true, note_error o h code)
  on_event (frame_invalid f code) h = (true, invalid_frame o h f code)
  on_event (data_wanted id capacity) h = (true, (read_response o h id capacity).1)

  -- nghttp2 stops at the first callback that fails.
  unfoldable pub on_events : List Event → Engine W → Bool × Engine W
  on_events [] h = (true, h)
  on_events (e ∷ es) h =
      let (fine, h') = on_event e h in
      let rest = on_events es h' in if fine then rest else (false, h')

  -- `h->stats.last_error = n; return h->error = e;`
  abbrev pub break_with : Engine W → ℕ → CfError → Engine W
  break_with h code e = record h { stats = record h.stats { last_error = code }; error = some e }

  -- `cf_h2_destroy`: what the application is told; the calls that it makes move no stream to another slot.
  unfoldable pub close_all : List Stream → Engine W → Engine W
  close_all [] h = h
  close_all (s ∷ ss) h =
      let (calls, w) = o.on_closed h s.id cancel in
      let told = submit_all o calls (record h { outside = w }) in
      close_all ss (if s.id == 0 then h else told)

  unfoldable pub destroy : Engine W → W
  destroy h = (close_all h.streams h).outside

  module _ (lib : Library W) where
    -- `cf_h2_receive`: the result, `*consumed`, and the engine.
    unfoldable pub receive : Engine W → Bytes → ℕ → CfResult × ℕ × Engine W
    receive h input now =
        let h0 = record h { now_ms = now } in
        let (fine, h1) = on_events (lib.on_input h0 input) h0 in
        let (outcome, w) = lib.input_result h1 input fine in
        let h2 = record h1 { outside = w } in
        elim h.error [
          | some e ↦ (some e, 0, h0)
          | none ↦ elim outcome [
            | gives n ↦ (h2.error, n, h2)
            | no_memory ↦ (some memory, 0, break_with h2 nomem memory)
            | breaks code ↦ (some format, 0, break_with h2 code format)
          ]
        ]

    -- `cf_h2_output`: the result, `*out`, and the engine.
    unfoldable pub output : Engine W → CfResult × Bytes × Engine W
    output h =
        let (fine, h1) = on_events (lib.on_output h) h in
        let (outcome, w) = lib.output_result h1 fine in
        let h2 = record h1 { outside = w } in
        elim h.error [
          | some e ↦ (some e, [], h)
          | none ↦ if not (length h.pending == 0) then (none, h.pending, h) else elim outcome [
            | gives bytes ↦ (none, bytes, record h2 { pending = bytes })
            | no_memory ↦ (some memory, [], break_with h2 nomem memory)
            | breaks code ↦ (some state, [], break_with h2 code state)
          ]
        ]

    unfoldable pub perform : Call → Engine W → Engine W
    perform (receives input now) h = (receive h input now).2
    perform outputs h = (output h).2
    perform shuts_down h = (shutdown o h).1
    perform (reports_sent n) h = (sent o h n).1
    perform (ticks now) h = tick o h now
    perform (submits s) h = submit o s h

    unfoldable pub perform_all : List Call → Engine W → Engine W
    perform_all [] h = h
    perform_all (c ∷ cs) h = perform_all cs (perform c h)

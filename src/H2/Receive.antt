-- ===== src/H2/Receive.antt =====
-- The callbacks that nghttp2 makes in components/esp_cf_tunnel/src/transport/cf_h2.c, and the calls that
-- run it. `true` is the return value 0, `false` is `NGHTTP2_ERR_CALLBACK_FAILURE`.
use esp_cf_tunnel.Prelude.{
  ℕ, zero, suc, ◌+◌, Bool, true, false, ◌||◌, ◌&&◌, not, Option, none, some, [], ◌∷◌, ◌++◌, ltb,
  leb, ◌==◌, if◌then◌else◌, length, take, drop, bytes_of, min,
}
use esp_cf_tunnel.Core.{Bytes, state, u32}
use esp_cf_tunnel.Headers.{Header}
use esp_cf_tunnel.H2.{
  empty_slot, Engine, Request, Outside, chunk, protocol_error, refused_stream, cancel,
  enhance_your_calm, find_stream, update, header, reset_stream,
}
use esp_cf_tunnel.H2.Respond.{submit_all}
use esp_cf_tunnel.H2.Frame.{
  Frame, is_headers, is_data, is_goaway, fresh_slot, is_rejected, kind_of, served, limit_of, wipe,
  noted,
}

-- The data of a chunk, or what `read_response` returns to nghttp2.
pub data Read : Type 0 where
  temporal_failure waits : Read
  gives : ℕ → Bool → Read

module _ {W : Type 0} (o : Outside W) where
  -- `begin_headers`
  unfoldable pub begin_headers : Engine W → Frame → Bool × Engine W
  begin_headers h f =
      let h0 = record h { header_stream = 0 } in
      let stats = record h.stats { active_streams = u32 (h.stats.active_streams + 1) } in
      if not f.is_request
      then reset_stream o h0 f.id protocol_error
      else elim (find_stream h.streams 0) [
        | none ↦ reset_stream o h0 f.id refused_stream
        | some slot ↦ (
          true,
          record h0 {
            streams = update h.streams 0 (λ s. fresh_slot f.id h.now_ms);
            stats = stats;
            header_stream = f.id;
            headers = [];
            header_used = 0;
          },
        )
      ]

  -- `on_header`
  unfoldable pub on_header : Engine W → ℕ → Bytes → Bytes → Bool × Engine W
  on_header h id name value =
      let entry : Header = record { name = name; value = value } in
      if not (h.header_stream == id)
      then (true, h)
      else if is_rejected h.headers h.header_used name value
      then reset_stream o (record h { header_stream = 0 }) id enhance_your_calm
      else (
        true,
        record h {
          headers = h.headers ++ (entry ∷ []);
          header_used = h.header_used + length name + length value;
        },
      )

  -- The request of a stream whose headers are complete, in `received_frame`: the return value, if the
  -- function returns here.
  unfoldable pub open_request : Engine W → Frame → Option Bool × Engine W
  open_request h f =
      elim (kind_of (header h.headers (bytes_of "cf-cloudflared-proxy-connection-upgrade"))) [
        | none ↦ let (fine, h') = reset_stream o h f.id refused_stream in (some fine, h')
        | some k ↦
            let h1 = record h { streams = update h.streams f.id (λ s. record s { kind = k }) } in
            let h2 = record h1 {
              streams = update h1.streams f.id (λ s. record s { headers_done = true });
            } in
            let request : Request = record {
              stream = f.id;
              kind = k;
              headers = h.headers;
              end_stream = f.end_stream;
            } in
            let (rc, calls, w) = o.on_request h2 request in
            let h3 = submit_all o calls (record h2 { outside = w }) in
            let (full, h4) = reset_stream o h1 f.id refused_stream in
            let (fine, h5) = reset_stream o h3 f.id refused_stream in
            if leb (limit_of h.app_limit k) (served k h1.streams)
            then (some full, h4)
            else elim rc [
              | some e ↦ (some fine, h5)
              | none ↦ (none, record h3 { headers = wipe h3.headers; header_stream = 0 })
            ]
      ]

  -- The end of the stream, in `received_frame`.
  unfoldable pub end_of_stream : Engine W → Frame → Bool × Engine W
  end_of_stream h f =
      let (rc, calls, w) = o.on_data h f.id [] true in
      let h' = submit_all o calls (record h { outside = w }) in
      if (is_headers f.type || is_data f.type) && f.end_stream
      then elim rc [ none ↦ (true, h') | some e ↦ reset_stream o h' f.id cancel ]
      else (true, h)

  -- `received_frame`
  unfoldable pub received_frame : Engine W → Frame → Bool × Engine W
  received_frame h f =
      let h' = record h { stats = noted h.stats f } in
      let (stop, opened) = open_request h' f in
      elim (find_stream h.streams f.id) [
        | none ↦ (true, h')
        | some s ↦
            if s.is_reset
            then (true, h')
            else if is_headers f.type && h.header_stream == f.id
            then elim stop [ some fine ↦ (fine, opened) | none ↦ end_of_stream opened f ]
            else end_of_stream h' f
      ]

  -- The loop of `received_data`, at most `rounds` times. `false` is a reset that failed.
  unfoldable pub data_loop : ℕ → Engine W → ℕ → Bytes → Bool × Engine W
  data_loop zero h id bytes = (true, h)
  data_loop (suc rounds) h id bytes =
      let (rc, calls, w) = o.on_data h id (take chunk bytes) false in
      let h' = submit_all o calls (record h { outside = w }) in
      let rest = data_loop rounds h' id (drop chunk bytes) in
      if length bytes == 0
      then (true, h)
      else elim rc [ some e ↦ reset_stream o h' id cancel | none ↦ rest ]

  -- `received_data`
  unfoldable pub received_data : Engine W → ℕ → Bytes → Bool × Engine W
  received_data h id bytes =
      let (bad, w) = o.consume_connection h.outside (length bytes) in
      let ignored : Bool × Engine W = (not bad, record h { outside = w }) in
      let (fine, h1) = data_loop (length bytes) h id bytes in
      let h2 = record h1 {
        streams = update h1.streams id (λ s. record s { progress_ms = h1.now_ms });
      } in
      let (bad', w') = o.consume h2.outside id (length bytes) in
      elim (find_stream h.streams id) [
        | none ↦ ignored
        | some s ↦
            if s.is_reset
            then ignored
            else if not fine
            then (false, h1)
            else (not bad', record h2 { outside = w' })
      ]

  -- `closed_stream`
  unfoldable pub closed_stream : Engine W → ℕ → ℕ → Engine W
  closed_stream h id code =
      let (calls, w) = o.on_closed h id code in
      let h' = submit_all o calls (record h { outside = w }) in
      let stats = record h'.stats {
        active_streams = u32 (h'.stats.active_streams + 0xffff_ffff);
      } in
      elim (find_stream h.streams id) [
        | none ↦ h
        | some s ↦ record h' { streams = update h'.streams id (λ t. empty_slot); stats = stats }
      ]

  -- `sent_frame`
  unfoldable pub sent_frame : Engine W → Frame → Engine W
  sent_frame h f =
      if is_goaway f.type
      then record h {
        stats = record h.stats {
          goaway = true;
          local_goaway = true;
          goaway_error = f.error_code;
          local_goaway_reason = take 63 f.opaque;
        };
      }
      else h

  -- `protocol_error`
  unfoldable pub note_error : Engine W → ℕ → Engine W
  note_error h code = record h { stats = record h.stats { last_error = code } }

  -- `invalid_frame`
  unfoldable pub invalid_frame : Engine W → Frame → ℕ → Engine W
  invalid_frame h f code =
      let stats = record h.stats { last_error = code } in
      record h {
        stats =
            if is_goaway f.type
            then record stats {
              peer_goaway_error = f.error_code;
              peer_goaway_last_stream = f.last_stream;
            }
            else stats;
      }

  -- `read_response`
  unfoldable pub read_response : Engine W → ℕ → ℕ → Read × Engine W
  read_response h id capacity =
      let most = min capacity chunk in
      let h1 = record h { streams = update h.streams id (λ s. record s { deferred = false }) } in
      let (rc, n, eof, calls, w) = o.on_read h1 id most in
      let h2 = submit_all o calls (record h1 { outside = w }) in
      let deferred : Read × Engine W =
        (waits, record h2 { streams = update h2.streams id (λ s. record s { deferred = true }) }) in
      let progress = record h2 {
        streams = update h2.streams id (λ s. record s { progress_ms = h2.now_ms });
      } in
      let given : Read × Engine W = (gives n eof, if not (n == 0) || eof then progress else h2) in
      elim (find_stream h.streams id) [
        | none ↦ (temporal_failure, h)
        | some s ↦ if s.is_reset then (temporal_failure, h) else elim rc [
          | some state ↦ deferred
          | some e ↦ (temporal_failure, h2)
          | none ↦
              if n == 0 && not eof
              then deferred
              else if ltb most n
              then (temporal_failure, h2)
              else given
        ]
      ]

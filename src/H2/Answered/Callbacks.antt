-- ===== src/H2/Answered/Callbacks.antt =====
-- What keeps a stream of cf_h2.c answered: the callbacks of nghttp2.
use esp_cf_tunnel.Prelude.{
  either_at, ℕ, zero, suc, ◌≡◌, ◌≢◌, sym, Bool, true, false, ◌&&◌, ◌||◌, List, [], ◌∷◌, ◌==◌,
  length, All, arith, Bool-cases, Option-cases, inl, inr, take, drop, min, leb, bytes_of,
}
use esp_cf_tunnel.Core.{Bytes}
use esp_cf_tunnel.H2.{
  Stream, Engine, Outside, Request, find_stream, update, empty_slot, chunk, header, refused_stream,
  cancel, enhance_your_calm,
}
use esp_cf_tunnel.H2.Respond.{submit_all}
use esp_cf_tunnel.H2.Frame.{
  Frame, fresh_slot, kind_of, limit_of, served, is_headers, is_data, noted,
}
use esp_cf_tunnel.H2.Receive.{
  begin_headers, on_header, open_request, end_of_stream, received_frame, data_loop, received_data,
  closed_stream, sent_frame, note_error, invalid_frame, read_response,
}
use esp_cf_tunnel.H2.Session.{
  Event, headers_begun, header_received, frame_received, frame_sent, data_received, stream_closed,
  error_reported, frame_invalid, data_wanted, Library, on_event, on_events,
}
use esp_cf_tunnel.H2.Departures.{read_response-cases}
use esp_cf_tunnel.H2.Answered.{Elsewhere, Keeps, Kept, changed, reset_stream-Kept, submit_all-Kept}

module _ {W : Type 0} {o : Outside W} {lib : Library W} {id : ℕ} {P : W → Type 0}
    (k : Keeps o lib id P) where
  begin_headers-Kept :
      (h : Engine W) (f : Frame)
      → Elsewhere id (headers_begun f)
      → Kept id P h
      → Kept id P (begin_headers o h f).1
  unfolding begin_headers
  begin_headers-Kept h f new (a, p) =
      let h0 = record h { header_stream = 0 } in
      let fresh = λ (e : f.is_request ≡ true).
        changed k h.streams 0 (λ s. fresh_slot f.id h.now_ms) (λ s b z. absurd (new e z)) a in
      let broken = reset_stream-Kept k h0 f.id 1 (a, p) in
      let full = reset_stream-Kept k h0 f.id 7 (a, p) in
      elim (Bool-cases f.is_request) [
        | inr t ↦ rw (begin_headers, t) broken
        | inl t ↦
            rw (begin_headers, t)
              (elim (Option-cases (find_stream h.streams 0)) [
                | inl u ↦ rw u full
                | inr (s, u) ↦ rw u (fresh t, p)
              ])
      ]

  on_header-Kept :
      (h : Engine W) (at : ℕ) (name value : Bytes)
      → Kept id P h
      → Kept id P (on_header o h at name value).1
  unfolding on_header
  on_header-Kept h at name value a =
      let over = reset_stream-Kept k (record h { header_stream = 0 }) at enhance_your_calm a in
      ground (arith, a, over)

  open_request-Kept : (h : Engine W) (f : Frame) → Kept id P h → Kept id P (open_request o h f).1
  unfolding open_request
  open_request-Kept h f (a, p) =
      let upgrade = header h.headers (bytes_of "cf-cloudflared-proxy-connection-upgrade") in
      let unknown = reset_stream-Kept k h f.id refused_stream (a, p) in
      elim (Option-cases (kind_of upgrade)) [
        | inl t ↦ rw (open_request, t) unknown
        | inr (q, t) ↦
            let a1 = changed k h.streams f.id (λ s. record s { kind = q }) (λ s b. b) a in
            let h1 = record h { streams = update h.streams f.id (λ s. record s { kind = q }) } in
            let done = λ (s : Stream). record s { headers_done = true } in
            let a2 = changed k h1.streams f.id done (λ s b. b) a1 in
            let h2 = record h1 { streams = update h1.streams f.id done } in
            let request : Request = record {
              stream = f.id;
              kind = q;
              headers = h.headers;
              end_stream = f.end_stream;
            } in
            let (rc, calls, w) = o.on_request h2 request in
            let h3 = submit_all o calls (record h2 { outside = w }) in
            let b =
              submit_all-Kept k calls (record h2 { outside = w }) (a2, k.by_request h2 request p) in
            let full = reset_stream-Kept k h1 f.id refused_stream (a1, p) in
            let refused = reset_stream-Kept k h3 f.id refused_stream b in
            rw (open_request, t)
              (elim (Bool-cases (leb (limit_of h.app_limit q) (served q h1.streams))) [
                | inl u ↦ rw u full
                | inr u ↦
                    rw u (elim (Option-cases rc) [ inl r ↦ rw r b | inr (e, r) ↦ rw r refused ])
              ])
      ]

  end_of_stream-Kept : (h : Engine W) (f : Frame) → Kept id P h → Kept id P (end_of_stream o h f).1
  unfolding end_of_stream
  end_of_stream-Kept h f (a, p) =
      let (rc, calls, w) = o.on_data h f.id [] true in
      let h' = submit_all o calls (record h { outside = w }) in
      let b = submit_all-Kept k calls (record h { outside = w }) (a, k.by_data h f.id [] true p) in
      let broken = reset_stream-Kept k h' f.id cancel b in
      either_at (λ (x : Bool × Engine W). Kept id P x.1)
        ((is_headers f.type || is_data f.type) && f.end_stream) _ (true, h)
        (λ e. elim (Option-cases rc) [ inl r ↦ rw r b | inr (c, r) ↦ rw r broken ]) (λ e. (a, p))

  received_frame-Kept :
      (h : Engine W) (f : Frame) → Kept id P h → Kept id P (received_frame o h f).1
  unfolding received_frame
  received_frame-Kept h f a =
      let h' = record h { stats = noted h.stats f } in
      let (stop, opened) = open_request o h' f in
      let b = open_request-Kept h' f a in
      elim (Option-cases (find_stream h.streams f.id)) [
        | inl t ↦ rw (received_frame, t) a
        | inr (s, t) ↦
            rw (received_frame, t)
              (elim (Bool-cases s.is_reset) [
                | inl r ↦ rw r a
                | inr r ↦ rw r (elim (Bool-cases (is_headers f.type && h.header_stream == f.id)) [
                  | inr u ↦ rw u (end_of_stream-Kept h' f a)
                  | inl u ↦ rw u (elim (Option-cases stop) [
                    | inl q ↦ rw q (end_of_stream-Kept opened f b)
                    | inr (fine, q) ↦ rw q b
                  ])
                ])
              ])
      ]

  data_loop-Kept :
      (rounds : ℕ) (h : Engine W) (at : ℕ) (bytes : Bytes)
      → Kept id P h
      → Kept id P (data_loop o rounds h at bytes).1
  unfolding data_loop
  data_loop-Kept zero h at bytes a = a
  data_loop-Kept (suc rounds) h at bytes (a, p) =
      let part = take chunk bytes in
      let (rc, calls, w) = o.on_data h at part false in
      let h' = submit_all o calls (record h { outside = w }) in
      let b = submit_all-Kept k calls (record h { outside = w }) (a, k.by_data h at part false p) in
      let broken = reset_stream-Kept k h' at cancel b in
      let rest = data_loop-Kept rounds h' at (drop chunk bytes) b in
      either_at (λ (x : Bool × Engine W). Kept id P x.1) (length bytes == 0) (true, h) _
        (λ e. (a, p)) (λ e. elim (Option-cases rc) [ inl r ↦ rw r rest | inr (c, r) ↦ rw r broken ])

  received_data-Kept :
      (h : Engine W) (at : ℕ) (bytes : Bytes)
      → Kept id P h
      → Kept id P (received_data o h at bytes).1
  unfolding received_data
  received_data-Kept h at bytes (a, p) =
      let (fine, h1) = data_loop o (length bytes) h at bytes in
      let (b, q) = data_loop-Kept (length bytes) h at bytes (a, p) in
      let moving = λ (s : Stream). record s { progress_ms = h1.now_ms } in
      let c = changed k h1.streams at moving (λ s z. z) b in
      let ignored = k.by_connection h.outside (length bytes) p in
      let after = k.by_consume h1.outside at (length bytes) q in
      ground (arith, a, p, b, q, c, ignored, after)

  closed_stream-Kept :
      (h : Engine W) (at code : ℕ) → id ≢ 0 → Kept id P h → Kept id P (closed_stream o h at code)
  unfolding closed_stream
  closed_stream-Kept h at code used (a, p) =
      let (calls, w) = o.on_closed h at code in
      let h' = submit_all o calls (record h { outside = w }) in
      let (b, q) =
        submit_all-Kept k calls (record h { outside = w }) (a, k.by_closed h at code p) in
      let c = changed k h'.streams at (λ t. empty_slot) (λ s z e. absurd (used (sym e))) b in
      elim (Option-cases (find_stream h.streams at)) [
        | inl t ↦ rw (closed_stream, t) (a, p)
        | inr (s, t) ↦ rw (closed_stream, t) (c, q)
      ]

  read_response-Kept :
      (h : Engine W) (at capacity : ℕ) → Kept id P h → Kept id P (read_response o h at capacity).1
  read_response-Kept h at capacity (a, p) =
      let quick = λ (s : Stream). record s { deferred = false } in
      let h1 = record h { streams = update h.streams at quick } in
      let a1 = changed k h.streams at quick (λ s z. z) a in
      let most = min capacity chunk in
      let (rc, n, eof, calls, w) = o.on_read h1 at most in
      let h2 = submit_all o calls (record h1 { outside = w }) in
      let (b, q) =
        submit_all-Kept k calls (record h1 { outside = w }) (a1, k.by_read h1 at most p) in
      let late = changed k h2.streams at (λ s. record s { deferred = true }) (λ s z. z) b in
      let moved =
        changed k h2.streams at (λ s. record s { progress_ms = h2.now_ms }) (λ s z. z) b in
      read_response-cases o (Kept id P) h at capacity (a, p) ((b, q), (late, q), (moved, q))

  on_event-Kept :
      (e : Event) (h : Engine W)
      → id ≢ 0
      → Elsewhere id e
      → Kept id P h
      → Kept id P (on_event o e h).1
  unfolding on_event sent_frame note_error invalid_frame
  on_event-Kept (headers_begun f) h used new a = begin_headers-Kept h f new a
  on_event-Kept (frame_received f) h used new a = received_frame-Kept h f a
  on_event-Kept (frame_sent f) h used new a = ground (arith, a)
  on_event-Kept (header_received at name value) h used new a = on_header-Kept h at name value a
  on_event-Kept (data_received at bytes) h used new a = received_data-Kept h at bytes a
  on_event-Kept (stream_closed at code) h used new a = closed_stream-Kept h at code used a
  on_event-Kept (error_reported code) h used new a = a
  on_event-Kept (frame_invalid f code) h used new a = ground (arith, a)
  on_event-Kept (data_wanted at capacity) h used new a = read_response-Kept h at capacity a

  pub on_events-Kept :
      (es : List Event) (h : Engine W)
      → id ≢ 0
      → All (Elsewhere id) es
      → Kept id P h
      → Kept id P (on_events o es h).1
  unfolding on_events
  on_events-Kept [] h used new a = a
  on_events-Kept (e ∷ es) h used (new, rest) a =
      let b = on_event-Kept e h used new a in
      either_at (λ (x : Bool × Engine W). Kept id P x.1) (on_event o e h).0 _ _
        (λ t. on_events-Kept es (on_event o e h).1 used rest b) (λ t. b)

-- ===== src/H2/Events.antt =====
-- The callbacks that nghttp2 makes in cf_h2.c, one after the other.
use esp_cf_tunnel.Prelude.{ℕ, ◌≡◌, ◌≢◌, true, none, List, [], ◌∷◌, arith, Bool-cases, inl, inr}
use esp_cf_tunnel.H2.{Engine, Outside, find_stream}
use esp_cf_tunnel.H2.Frame.{Frame, is_headers}
use esp_cf_tunnel.H2.Receive.{closed_stream, read_response, sent_frame, note_error, invalid_frame}
use esp_cf_tunnel.H2.Session.{
  Event, headers_begun, header_received, frame_received, frame_sent, data_received, stream_closed,
  error_reported, frame_invalid, data_wanted, on_event, on_events,
}
use esp_cf_tunnel.H2.Invariant.{IsValid}
use esp_cf_tunnel.H2.Callbacks.{Leaves, leaves, begin_headers-Leaves, on_header-Leaves}
use esp_cf_tunnel.H2.Arrivals.{received_frame-Leaves, received_data-Leaves}
use esp_cf_tunnel.H2.Departures.{closed_stream-IsValid, read_response-IsValid}

-- What nghttp2 documents of its callbacks: a stream has an id that is not 0, and the headers of a request open a
-- stream that is not open yet. Trailers may begin on any stream.
abbrev pub EventFits : {W : Type 0} → Event → Engine W → Type 0
EventFits (headers_begun f) h =
    (f.id ≢ 0) × (f.is_request ≡ true → find_stream h.streams f.id ≡ none)
EventFits (frame_received f) h = is_headers f.type ≡ true → f.id ≢ 0
EventFits (stream_closed id code) h = id ≢ 0
EventFits _ h = Unit

module _ {W : Type 0} (o : Outside W) where
  pub sent_frame-IsValid : (h : Engine W) (f : Frame) → IsValid h → IsValid (sent_frame o h f)
  unfolding sent_frame
  sent_frame-IsValid h f v = ground (arith, v)

  pub invalid_frame-IsValid :
      (h : Engine W) (f : Frame) (code : ℕ) → IsValid h → IsValid (invalid_frame o h f code)
  unfolding invalid_frame
  invalid_frame-IsValid h f code v = ground (arith, v)

  pub on_event-Leaves :
      (e : Event) (h : Engine W) → IsValid h → EventFits e h → Leaves (on_event o e h)
  unfolding on_event note_error
  on_event-Leaves (headers_begun f) h v (used, new) = begin_headers-Leaves o h f v used new
  on_event-Leaves (frame_received f) h v fit = received_frame-Leaves o h f v fit
  on_event-Leaves (frame_sent f) h v fit = leaves true (sent_frame o h f) (sent_frame-IsValid h f v)
  on_event-Leaves (header_received id name value) h v fit = on_header-Leaves o h id name value v
  on_event-Leaves (data_received id bytes) h v fit = received_data-Leaves o h id bytes v
  on_event-Leaves (stream_closed id code) h v fit =
      leaves true (closed_stream o h id code) (closed_stream-IsValid o h id code v fit)
  on_event-Leaves (error_reported code) h v fit = leaves true h v
  on_event-Leaves (frame_invalid f code) h v fit =
      leaves true (invalid_frame o h f code) (invalid_frame-IsValid h f code v)
  on_event-Leaves (data_wanted id capacity) h v fit =
      leaves true (read_response o h id capacity).1 (read_response-IsValid o h id capacity v)

  -- Callbacks one after the other, each as it is documented.
  abbrev pub AllFit : List Event → Engine W → Type 0
  AllFit [] h = Unit
  AllFit (e ∷ es) h = EventFits e h × AllFit es (on_event o e h).1

  pub on_events-Leaves :
      (es : List Event) (h : Engine W) → IsValid h → AllFit es h → Leaves (on_events o es h)
  unfolding on_events
  on_events-Leaves [] h v fit = leaves true h v
  on_events-Leaves (e ∷ es) h v (one, rest) =
      let (a, b) = on_event-Leaves e h v one in
      elim (Bool-cases (on_event o e h).0) [
        | inr t ↦ rw t (λ z. absurd (ground (arith, z)), b)
        | inl t ↦ rw t (on_events-Leaves es (on_event o e h).1 (a t) rest)
      ]

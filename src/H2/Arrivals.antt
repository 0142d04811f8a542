-- ===== src/H2/Arrivals.antt =====
-- The frames and the data that arrive at cf_h2.c keep the adapter valid.
use mathlib.Core.Path.{subst}
use esp_cf_tunnel.Prelude.{
  ℕ, zero, suc, ◌≡◌, ◌≢◌, refl, sym, ◌∙◌, Bool, true, false, ◌&&◌, ◌||◌, none, some, List, [], ◌==◌,
  length, arith, Bool-cases, Option-cases, inl, inr, ==_iff, take, drop, bytes_of,
}
use esp_cf_tunnel.Core.{Bytes}
use esp_cf_tunnel.H2.{
  Stream, Stats, Engine, Outside, Submission, chunk, find_stream, refused_stream, cancel, header,
}
use esp_cf_tunnel.H2.Respond.{submit_all}
use esp_cf_tunnel.H2.Frame.{Frame, is_headers, is_data, kind_of, noted}
use esp_cf_tunnel.H2.Receive.{open_request, end_of_stream, received_frame, data_loop, received_data}
use esp_cf_tunnel.H2.Table.{find_id, find-All}
use esp_cf_tunnel.H2.Slots.{between-Fits}
use esp_cf_tunnel.H2.Invariant.{
  FitsAt, IsValid, SlotFits, update-Fits, kept-Marks, submit_all-FitsAt,
}
use esp_cf_tunnel.H2.Callbacks.{Leaves, leaves, reset_stream-Leaves}
use esp_cf_tunnel.H2.Frames.{goes_on, known-Leaves, header_stream-submit_all}

noted_lem : (stats : Stats) (f : Frame) → (noted stats f).active_streams ≡ stats.active_streams
noted_lem stats f = ground arith

module _ {W : Type 0} (o : Outside W) where
  pub submit_all-IsValid :
      (cs : List Submission) (h : Engine W) → IsValid h → IsValid (submit_all o cs h)
  submit_all-IsValid cs h v =
      subst (λ x. FitsAt x (submit_all o cs h)) (sym (header_stream-submit_all o cs h))
        (submit_all-FitsAt o h.header_stream cs h v)

  open_request-Leaves :
      (h : Engine W) (f : Frame) (s : Stream)
      → IsValid h
      → find_stream h.streams f.id ≡ some s
      → s.is_reset ≡ false
      → h.header_stream ≡ f.id
      → f.id ≢ 0
      → let (stop, h') = open_request o h f in (goes_on stop ≡ true → IsValid h') × FitsAt 0 h'
  unfolding open_request
  open_request-Leaves h f s v found live at used =
      let slot = find-All (SlotFits h.header_stream) h.streams f.id s found v.slots in
      let waiting : s.headers_done ≡ false =
        ground (arith, slot.1 (find_id h.streams f.id s found ∙ sym at), live) in
      let upgrade = header h.headers (bytes_of "cf-cloudflared-proxy-connection-upgrade") in
      elim (Option-cases (kind_of upgrade)) [
        | inl t ↦ rw (open_request, t) (reset_stream-Leaves o h f.id refused_stream v)
        | inr (k, t) ↦ known-Leaves o h f k s v found waiting at used t
      ]

  end_of_stream-Leaves : (h : Engine W) (f : Frame) → IsValid h → Leaves (end_of_stream o h f)
  unfolding end_of_stream
  end_of_stream-Leaves h f v =
      let (rc, calls, w) = o.on_data h f.id [] true in
      let v1 = submit_all-IsValid calls (record h { outside = w }) v in
      let h' = submit_all o calls (record h { outside = w }) in
      elim (Bool-cases ((is_headers f.type || is_data f.type) && f.end_stream)) [
        | inr t ↦ rw (end_of_stream, t) (leaves true h v)
        | inl t ↦
            rw (end_of_stream, t)
              (elim (Option-cases rc) [
                | inl r ↦ rw r (leaves true h' v1)
                | inr (e, r) ↦ rw r (reset_stream-Leaves o h' f.id cancel v1)
              ])
      ]

  opened-Leaves :
      (h : Engine W) (f : Frame) (s : Stream)
      → IsValid h
      → find_stream h.streams f.id ≡ some s
      → s.is_reset ≡ false
      → h.header_stream ≡ f.id
      → f.id ≢ 0
      → let (stop, opened) = open_request o h f in
        let out : Bool × Engine W = elim stop [
          | some fine ↦ (fine, opened)
          | none ↦ end_of_stream o opened f
        ] in
        Leaves out
  opened-Leaves h f s v found live at used =
      let (stop, opened) = open_request o h f in
      let (a, b) = open_request-Leaves h f s v found live at used in
      elim (Option-cases stop) [
        | inl q ↦ rw q (end_of_stream-Leaves opened f (a (rw q refl)))
        | inr (fine, q) ↦ rw q (λ e. a (rw (q, e) refl), b)
      ]

  -- A HEADERS frame belongs to a stream.
  pub received_frame-Leaves :
      (h : Engine W) (f : Frame)
      → IsValid h
      → (is_headers f.type ≡ true → f.id ≢ 0)
      → Leaves (received_frame o h f)
  unfolding received_frame
  received_frame-Leaves h f v used =
      let h' = record h { stats = noted h.stats f } in
      let v' : IsValid h' = rw (noted_lem h.stats f) v in
      elim (Option-cases (find_stream h.streams f.id)) [
        | inl t ↦ rw (received_frame, t) (leaves true h' v')
        | inr (s, t) ↦
            rw (received_frame, t)
              (elim (Bool-cases s.is_reset) [
                | inl r ↦ rw r (leaves true h' v')
                | inr r ↦ rw r (elim (Bool-cases (is_headers f.type && h.header_stream == f.id)) [
                  | inr k ↦ rw k (end_of_stream-Leaves h' f v')
                  | inl k ↦
                      let (both, mine) : (is_headers f.type ≡ true) × (h.header_stream ≡ f.id) =
                        ground (arith, k, ==_iff h.header_stream f.id) in
                      rw k (opened-Leaves h' f s v' t r mine (used both))
                ])
              ])
      ]

  data_loop-Leaves :
      (rounds : ℕ) (h : Engine W) (id : ℕ) (bytes : Bytes)
      → IsValid h
      → Leaves (data_loop o rounds h id bytes)
  unfolding data_loop
  data_loop-Leaves zero h id bytes v = leaves true h v
  data_loop-Leaves (suc rounds) h id bytes v =
      let (rc, calls, w) = o.on_data h id (take chunk bytes) false in
      let v1 = submit_all-IsValid calls (record h { outside = w }) v in
      let h' = submit_all o calls (record h { outside = w }) in
      elim (Bool-cases (length bytes == 0)) [
        | inl t ↦ rw (data_loop, t) (leaves true h v)
        | inr t ↦
            rw (data_loop, t)
              (elim (Option-cases rc) [
                | inr (e, r) ↦ rw r (reset_stream-Leaves o h' id cancel v1)
                | inl r ↦ rw r (data_loop-Leaves rounds h' id (drop chunk bytes) v1)
              ])
      ]

  pub received_data-Leaves :
      (h : Engine W) (id : ℕ) (bytes : Bytes) → IsValid h → Leaves (received_data o h id bytes)
  unfolding received_data
  received_data-Leaves h id bytes v =
      let (a, b) = data_loop-Leaves (length bytes) h id bytes v in
      let (fine, h1) = data_loop o (length bytes) h id bytes in
      let progress = λ (s : Stream). record s { progress_ms = h1.now_ms } in
      let marks = kept-Marks progress (λ s. refl) (λ s. refl) (λ s. refl) (λ s. refl) in
      elim (Option-cases (find_stream h.streams id)) [
        | inl t ↦ rw (received_data, t) (λ e. v, between-Fits v)
        | inr (s, t) ↦
            rw (received_data, t)
              (elim (Bool-cases s.is_reset) [
                | inl r ↦ rw r (λ e. v, between-Fits v)
                | inr r ↦ rw r (elim (Bool-cases fine) [
                  | inr k ↦ rw k (λ e. ground (arith, e), b)
                  | inl k ↦
                      let v2 = update-Fits (a k) id progress marks in
                      rw k (λ e. v2, between-Fits v2)
                ])
              ])
      ]

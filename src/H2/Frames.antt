-- ===== src/H2/Frames.antt =====
-- The callbacks of cf_h2.c for whole frames and for data keep the adapter valid.
use mathlib.Core.Path.{subst}
use esp_cf_tunnel.Prelude.{
  ℕ, ◌≡◌, ◌≢◌, refl, sym, ◌∙◌, Bool, true, false, Option, none, some, List, [], ◌∷◌, leb, length,
  All, arith, Bool-cases, Option-cases, inl, inr, bytes_of, length-replicate,
}
use esp_cf_tunnel.Headers.{Header}
use esp_cf_tunnel.H2.{
  Kind, Stream, Engine, Request, Outside, Submission, responds, resumes, resets, find_stream,
  update, reset, reset_stream, refused_stream, header, is_reset_in,
}
use esp_cf_tunnel.H2.Respond.{respond, resume, submit, submit_all}
use esp_cf_tunnel.H2.Frame.{served, limit_of, Frame, kind_of, wipe}
use esp_cf_tunnel.H2.Receive.{open_request}
use esp_cf_tunnel.H2.Table.{find-update}
use esp_cf_tunnel.H2.Slots.{kind-Fits, serve-Fits}
use esp_cf_tunnel.H2.Invariant.{
  Fits, FitsAt, IsValid, SlotFits, total_bytes, reset_stream-FitsAt, submit_all-FitsAt,
}
use esp_cf_tunnel.H2.Callbacks.{
  Leaves, reset_stream-Leaves, header_stream-reset_stream, reset-All, found_reset-All,
}

wipe_lem :
    (hs : List Header) → (length (wipe hs) ≡ length hs) × (total_bytes (wipe hs) ≡ total_bytes hs)
unfolding total_bytes
wipe_lem [] = (refl, refl)
wipe_lem (h ∷ hs) =
    let (few, size) = wipe_lem hs in
    let name = length-replicate (length h.name) (let zero_byte : ℕ = 0 in zero_byte) in
    let value = length-replicate (length h.value) (let zero_byte : ℕ = 0 in zero_byte) in
    (omega (arith, few), omega (arith, size, name, value))

-- The scratch area is wiped in place.
wipe-Fits :
    {apps used at active : ℕ} {streams : List Stream} {headers : List Header}
    → Fits apps streams headers used at active
    → Fits apps streams (wipe headers) used at active
wipe-Fits {headers} v = record {
  size = v.size;
  counted = v.counted;
  slots = v.slots;
  alone = v.alone;
  admitted = v.admitted;
  few = omega (arith, wipe_lem headers, v.few);
  fits = v.fits;
  stored = omega (arith, wipe_lem headers, v.stored);
}

receiving-Fits :
    {apps used active : ℕ} {streams : List Stream} {headers : List Header} (at : ℕ)
    → Fits apps streams headers used 0 active
    → All (SlotFits at) streams
    → Fits apps streams headers used at active
receiving-Fits at v slots = record {
  size = v.size;
  counted = v.counted;
  slots = slots;
  alone = v.alone;
  admitted = v.admitted;
  few = v.few;
  fits = v.fits;
  stored = v.stored;
}

-- Whether a callback goes on, or returns 0.
abbrev pub goes_on : Option Bool → Bool
goes_on none = true
goes_on (some fine) = fine

module _ {W : Type 0} (o : Outside W) where
  already-All :
      (h : Engine W) (id : ℕ)
      → FitsAt 0 h
      → id ≢ 0
      → is_reset_in (find_stream h.streams id) ≡ true
      → All (SlotFits id) h.streams
  already-All h id v used t = elim (Option-cases (find_stream h.streams id)) [
    | inl k ↦ absurd (ground (arith, rw k at t))
    | inr (s, k) ↦ found_reset-All h.streams id s k (rw k at t) (v.alone id used) v.slots
  ]

  refused-All :
      (h : Engine W) (id code : ℕ)
      → FitsAt 0 h
      → id ≢ 0
      → (reset_stream o h id code).0 ≡ true
      → All (SlotFits id) (reset_stream o h id code).1.streams
  unfolding reset_stream reset
  refused-All h id code v used e =
      let found = is_reset_in (find_stream h.streams id) in
      let bad = (o.submit_rst h.outside id code).0 in
      elim (Bool-cases found) [
        | inl t ↦ rw (reset_stream, reset, t) (already-All h id v used t)
        | inr t ↦ elim (Bool-cases bad) [
          | inl b ↦ absurd (ground (arith, rw (reset_stream, reset, t, b) at e))
          | inr b ↦
              rw (reset_stream, reset, t, b) (reset-All h.streams id (v.alone id used) v.slots)
        ]
      ]

  -- A request that the application refused: the stream is marked, or the session has failed.
  refused-Leaves :
      (h : Engine W) (id code : ℕ)
      → FitsAt 0 h
      → id ≢ 0
      → h.header_stream ≡ id
      → Leaves (reset_stream o h id code)
  refused-Leaves h id code v used at =
      let after = reset_stream-FitsAt o 0 h id code v in
      (
        λ e.
            subst (λ x. FitsAt x (reset_stream o h id code).1)
              (sym (header_stream-reset_stream o h id code ∙ at))
              (receiving-Fits id after (refused-All h id code v used e)),
        after,
      )

  pub header_stream-submit :
      (c : Submission) (h : Engine W) → (submit o c h).header_stream ≡ h.header_stream
  unfolding submit respond resume reset
  header_stream-submit (responds id status headers origin) h = ground arith
  header_stream-submit (resumes id) h = ground arith
  header_stream-submit (resets id code) h = ground arith

  pub header_stream-submit_all :
      (cs : List Submission) (h : Engine W) → (submit_all o cs h).header_stream ≡ h.header_stream
  unfolding submit_all
  header_stream-submit_all [] h = refl
  header_stream-submit_all (c ∷ cs) h =
      header_stream-submit_all cs (submit o c h) ∙ header_stream-submit c h

  -- The end of `open_request`, from the call of the application on.
  answered-Leaves :
      (h : Engine W) (f : Frame) (k : Kind)
      → FitsAt 0 h
      → h.header_stream ≡ f.id
      → f.id ≢ 0
      → let (rc, calls, w) =
          o.on_request h
            (record { stream = f.id; kind = k; headers = h.headers; end_stream = f.end_stream }) in
        let h3 = submit_all o calls (record h { outside = w }) in
        let (fine, h5) = reset_stream o h3 f.id refused_stream in
        let (stop, h') : Option Bool × Engine W = elim rc [
          | some e ↦ (some fine, h5)
          | none ↦ (none, record h3 { headers = wipe h3.headers; header_stream = 0 })
        ] in
        (goes_on stop ≡ true → IsValid h') × FitsAt 0 h'
  answered-Leaves h f k v at used =
      let request : Request = record {
        stream = f.id;
        kind = k;
        headers = h.headers;
        end_stream = f.end_stream;
      } in
      let (rc, calls, w) = o.on_request h request in
      let h3 = submit_all o calls (record h { outside = w }) in
      let v3 = submit_all-FitsAt o 0 calls (record h { outside = w }) v in
      let at3 = header_stream-submit_all calls (record h { outside = w }) ∙ at in
      elim (Option-cases rc) [
        | inl r ↦ rw r (λ e. wipe-Fits v3, wipe-Fits v3)
        | inr (e, r) ↦ rw r (refused-Leaves h3 f.id refused_stream v3 used at3)
      ]

  -- The request of a stream whose kind is known.
  pub known-Leaves :
      (h : Engine W) (f : Frame) (k : Kind) (s : Stream)
      → IsValid h
      → find_stream h.streams f.id ≡ some s
      → s.headers_done ≡ false
      → h.header_stream ≡ f.id
      → f.id ≢ 0
      → kind_of (header h.headers (bytes_of "cf-cloudflared-proxy-connection-upgrade")) ≡ some k
      → let (stop, h') = open_request o h f in (goes_on stop ≡ true → IsValid h') × FitsAt 0 h'
  unfolding open_request
  known-Leaves h f k s v found waiting at used known =
      let h1 = record h { streams = update h.streams f.id (λ s. record s { kind = k }) } in
      let h2 = record h1 {
        streams = update h1.streams f.id (λ s. record s { headers_done = true });
      } in
      let v1 = kind-Fits f.id k s v found waiting in
      rw (open_request, known)
        (elim (Bool-cases (leb (limit_of h.app_limit k) (served k h1.streams))) [
          | inl full ↦ rw full (reset_stream-Leaves o h1 f.id refused_stream v1)
          | inr t ↦
              let found1 =
                find-update h.streams f.id (λ s. record s { kind = k }) s (λ s. refl) found in
              let v2 =
                serve-Fits f.id k (record s { kind = k }) v1 found1 refl used (ground (arith, t)) in
              rw t (answered-Leaves h2 f k v2 at used)
        ])

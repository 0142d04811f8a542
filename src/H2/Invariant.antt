-- ===== src/H2/Invariant.antt =====
-- What holds of the adapter of cf_h2.c between two calls, and the calls that mark a stream.
use esp_cf_tunnel.Prelude.{
  ℕ, ◌+◌, ◌≤◌, ◌≡◌, ◌≢◌, refl, sym, ap, ◌∙◌, Bool, true, false, not, List, [], ◌∷◌, ◌==◌, length,
  All, arith,
}
use esp_cf_tunnel.Headers.{Header}
use esp_cf_tunnel.H2.{
  Kind, Stream, Engine, Outside, Submission, responds, resumes, resets, header_max,
  header_bytes_max, application_max, update, reset, reset_stream, cancel,
}
use esp_cf_tunnel.H2.Respond.{respond, resume, tick, tick_loop, submit, submit_all}
use esp_cf_tunnel.H2.Frame.{count, served, is_served, limit_of}
use esp_cf_tunnel.H2.Table.{length-update, update-All, count-update-le}

abbrev pub is_used : Stream → Bool
is_used s = not (s.id == 0)

abbrev pub has_id : ℕ → Stream → Bool
has_id i s = s.id == i

unfoldable pub total_bytes : List Header → ℕ
total_bytes [] = 0
total_bytes (h ∷ hs) = length h.name + length h.value + total_bytes hs

-- An empty slot is not served, and the stream whose headers are being received is not served yet.
abbrev pub SlotFits : ℕ → Stream → Type 0
SlotFits header_stream s =
    (s.id ≡ 0 → s.headers_done ≡ false)
    × (s.id ≡ header_stream → s.headers_done ≡ true → s.is_reset ≡ true)

pub record Fits (apps : ℕ) (streams : List Stream) (headers : List Header)
    (used header_stream active : ℕ) : Type 0 where
  pub size : length streams ≡ application_max + 2
  -- The counter is the number of the slots in use.
  pub counted : active ≡ count is_used streams
  pub slots : All (SlotFits header_stream) streams
  -- No two slots hold the same stream.
  pub alone : (i : ℕ) → i ≢ 0 → count (has_id i) streams ≤ 1
  -- No kind has more streams that are served than its limit.
  pub admitted : (k : Kind) → served k streams ≤ limit_of apps k
  -- The scratch area holds the headers.
  pub few : length headers ≤ header_max
  pub fits : used ≤ header_bytes_max
  pub stored : total_bytes headers ≡ used

-- The fields of the adapter fit, if the headers of stream `at` are being received.
abbrev pub FitsAt : {W : Type 0} → ℕ → Engine W → Type 0
FitsAt at h = Fits h.app_limit h.streams h.headers h.header_used at h.stats.active_streams

abbrev pub IsValid : {W : Type 0} → Engine W → Type 0
IsValid h = FitsAt h.header_stream h

-- A change of a slot that leaves its id, its kind and its headers as they are, and does not undo a reset.
pub record Marks (f : Stream → Stream) : Type 0 where
  pub same_id : (s : Stream) → (f s).id ≡ s.id
  pub same_kind : (s : Stream) → (f s).kind ≡ s.kind
  pub same_headers : (s : Stream) → (f s).headers_done ≡ s.headers_done
  pub stays_reset : (s : Stream) → s.is_reset ≡ true → (f s).is_reset ≡ true

pub count-update-same :
    (test : Stream → Bool) (ss : List Stream) (id : ℕ) (f : Stream → Stream)
    → ((s : Stream) → test (f s) ≡ test s)
    → count test (update ss id f) ≡ count test ss
unfolding count update
count-update-same test [] id f h = refl
count-update-same test (s ∷ ss) id f h = ground (arith, h s, count-update-same test ss id f h)

module _ {apps used at active : ℕ} {streams : List Stream} {headers : List Header}
    (v : Fits apps streams headers used at active) (id : ℕ) (f : Stream → Stream)
    (m : Marks f) where
  served_before : (k : Kind) (s : Stream) → is_served k (f s) ≡ true → is_served k s ≡ true
  served_before k s t =
      ground (arith, t, m.same_id s, m.same_kind s, m.same_headers s, m.stays_reset s)

  -- Such a change keeps the adapter valid.
  pub update-Fits : Fits apps (update streams id f) headers used at active
  update-Fits = record {
    size = length-update streams id f ∙ v.size;
    counted =
        v.counted
        ∙ sym (count-update-same is_used streams id f (λ s. ap (λ n. not (n == 0)) (m.same_id s)));
    alone = λ i u.
        let same =
          count-update-same (has_id i) streams id f (λ s. ap (λ n. n == i) (m.same_id s)) in
        omega (arith, same, v.alone i u);
    slots =
        update-All (SlotFits at) (SlotFits at) id f (λ s b. b)
          (λ s e b. (
            λ z. m.same_headers s ∙ b.0 (sym (m.same_id s) ∙ z),
            λ z d. m.stays_reset s (b.1 (sym (m.same_id s) ∙ z) (sym (m.same_headers s) ∙ d)),
          ))
          streams v.slots;
    admitted = λ k.
        let less = count-update-le (is_served k) streams id f (λ s t. served_before k s t) in
        omega (arith, less, v.admitted k);
    few = v.few;
    fits = v.fits;
    stored = v.stored;
  }

reset-Marks : Marks (λ s. record s { is_reset = true })
reset-Marks = record {
  same_id = λ s. refl;
  same_kind = λ s. refl;
  same_headers = λ s. refl;
  stays_reset = λ s h. refl;
}

-- The other changes leave the reset flag alone.
pub kept-Marks :
    (f : Stream → Stream)
    → ((s : Stream) → (f s).id ≡ s.id)
    → ((s : Stream) → (f s).kind ≡ s.kind)
    → ((s : Stream) → (f s).headers_done ≡ s.headers_done)
    → ((s : Stream) → (f s).is_reset ≡ s.is_reset)
    → Marks f
kept-Marks f i k d r = record {
  same_id = i;
  same_kind = k;
  same_headers = d;
  stays_reset = λ s h. r s ∙ h;
}

module _ {W : Type 0} (o : Outside W) (at : ℕ) where
  pub reset-FitsAt : (h : Engine W) (id code : ℕ) → FitsAt at h → FitsAt at (reset o h id code).1
  unfolding reset
  reset-FitsAt h id code v =
      let marked = update-Fits v id (λ s. record s { is_reset = true }) reset-Marks in
      ground (arith, v, marked)

  pub reset_stream-FitsAt :
      (h : Engine W) (id code : ℕ) → FitsAt at h → FitsAt at (reset_stream o h id code).1
  unfolding reset_stream
  reset_stream-FitsAt h id code v = reset-FitsAt h id code v

  respond-FitsAt :
      (h : Engine W) (id status : ℕ) (headers : List Header) (origin : Bool)
      → FitsAt at h
      → FitsAt at (respond o h id status headers origin).1
  unfolding respond
  respond-FitsAt h id status headers origin v =
      let marked =
        update-Fits v id (λ s. record s { response = true })
          (kept-Marks _ (λ s. refl) (λ s. refl) (λ s. refl) (λ s. refl)) in
      ground (arith, v, marked)

  resume-FitsAt : (h : Engine W) (id : ℕ) → FitsAt at h → FitsAt at (resume o h id).1
  unfolding resume
  resume-FitsAt h id v =
      let marked =
        update-Fits v id (λ s. record s { deferred = false })
          (kept-Marks _ (λ s. refl) (λ s. refl) (λ s. refl) (λ s. refl)) in
      ground (arith, v, marked)

  pub submit-FitsAt : (c : Submission) (h : Engine W) → FitsAt at h → FitsAt at (submit o c h)
  unfolding submit
  submit-FitsAt (responds id status headers origin) h v =
      respond-FitsAt h id status headers origin v
  submit-FitsAt (resumes id) h v = resume-FitsAt h id v
  submit-FitsAt (resets id code) h v = reset-FitsAt h id code v

  pub submit_all-FitsAt :
      (cs : List Submission) (h : Engine W) → FitsAt at h → FitsAt at (submit_all o cs h)
  unfolding submit_all
  submit_all-FitsAt [] h v = v
  submit_all-FitsAt (c ∷ cs) h v = submit_all-FitsAt cs (submit o c h) (submit-FitsAt c h v)

  tick_loop-FitsAt : (ss : List Stream) (h : Engine W) → FitsAt at h → FitsAt at (tick_loop o ss h)
  unfolding tick_loop
  tick_loop-FitsAt [] h v = v
  tick_loop-FitsAt (s ∷ ss) h v =
      tick_loop-FitsAt ss _ (ground (arith, v, reset-FitsAt h s.id cancel v))

  pub tick-FitsAt : (h : Engine W) (now : ℕ) → FitsAt at h → FitsAt at (tick o h now)
  unfolding tick
  tick-FitsAt h now v = tick_loop-FitsAt h.streams (record h { now_ms = now }) v

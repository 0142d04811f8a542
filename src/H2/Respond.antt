-- ===== src/H2/Respond.antt =====
-- The calls of the application in components/esp_cf_tunnel/src/transport/cf_h2.c.
use esp_cf_tunnel.Prelude.{
  ℕ, ◌+◌, ◌-◌, ◌/◌, ◌%◌, Bool, true, false, ◌||◌, ◌&&◌, not, Option, none, some, List, [], ◌∷◌, ltb,
  leb, ◌==◌, if◌then◌else◌, length, drop, bytes_of,
}
use esp_cf_tunnel.Core.{Bytes, CfResult, ok, err, argument, memory, state, format}
use esp_cf_tunnel.Headers.{Header, wire_max, encode}
use esp_cf_tunnel.H2.{
  control, Stream, Engine, Outside, Submission, responds, resumes, resets, find_stream, update,
  equals, same_kind, cancel, reset,
}

-- `CF_RESPONSE_META_ORIGIN` and `CF_RESPONSE_META_CONNECTOR`
abbrev pub meta : Bool → Bytes
meta true = bytes_of "{\"src\":\"origin\"}"
meta false = bytes_of "{\"src\":\"cloudflared\"}"

-- The three digits of a status from 200 to 599.
abbrev pub status_text : ℕ → Bytes
status_text n = (48 + n / 100) ∷ (48 + n / 10 % 10) ∷ (48 + n % 10) ∷ []

-- The fields that `cf_h2_respond` adds for a content length; `none` if there are two.
unfoldable pub content_length : List Header → List Header → Option (List Header)
content_length [] found = some found
content_length (h ∷ hs) found =
    let is_length =
      equals h.name (bytes_of "content-length") || equals h.name (bytes_of "Content-Length") in
    let field = record h { name = bytes_of "content-length" } in
    let next = content_length hs (if is_length then field ∷ [] else found) in
    if is_length && not (length found == 0) then none else next

-- `nv`
abbrev pub nv : Bytes → Bytes → Header
nv name value = record { name = name; value = value }

-- The fields of a response.
abbrev pub fields_of : ℕ → Bytes → Bool → List Header → List Header
fields_of status serialized origin added =
    nv (bytes_of ":status") (status_text status)
    ∷ nv (bytes_of "cf-cloudflared-response-headers") serialized
    ∷ nv (bytes_of "cf-cloudflared-response-meta") (meta origin)
    ∷ added

-- The streams that may be answered.
abbrev pub is_open : Option Stream → Bool
is_open none = false
is_open (some s) = s.headers_done && not s.response && not s.is_reset

-- The streams that `cf_h2_tick` resets.
abbrev pub is_stalled : ℕ → Stream → Bool
is_stalled now s =
    not (s.id == 0)
    && not s.is_reset
    && (not s.headers_done || not (same_kind s.kind control))
    && leb s.progress_ms now
    && ltb 15000 (now - s.progress_ms)

module _ {W : Type 0} (o : Outside W) where
  -- `cf_h2_respond`
  unfoldable pub respond : Engine W → ℕ → ℕ → List Header → Bool → CfResult × Engine W
  respond h id status headers origin =
      if ltb status 200 || ltb 599 status
      then (some argument, h)
      else if not (is_open (find_stream h.streams id))
      then (some state, h)
      else elim (encode headers wire_max) [
        | err e ↦ (some e, h)
        | ok serialized ↦ elim (content_length headers []) [
          | none ↦ (some format, h)
          | some added ↦
              let (bad, w) =
                o.submit_response h.outside id (fields_of status serialized origin added) in
              let marked = update h.streams id (λ s. record s { response = true }) in
              if bad
              then (some memory, record h { outside = w })
              else (none, record h { streams = marked; outside = w })
        ]
      ]

  -- `cf_h2_resume`
  unfoldable pub resume : Engine W → ℕ → CfResult × Engine W
  resume h id =
      let (bad, w) = o.resume_data h.outside id in
      let marked = update h.streams id (λ s. record s { deferred = false }) in
      elim (find_stream h.streams id) [
        | none ↦ (some state, h)
        | some s ↦
            if not s.response || s.is_reset
            then (some state, h)
            else if not s.deferred
            then (none, h)
            else if bad
            then (some state, record h { outside = w })
            else (none, record h { streams = marked; outside = w })
      ]

  -- `cf_h2_shutdown`
  unfoldable pub shutdown : Engine W → CfResult × Engine W
  shutdown h =
      let (bad, w) = o.submit_goaway h.outside in
      (
        if bad then some memory else none,
        record h { stats = record h.stats { goaway = true }; outside = w },
      )

  -- `cf_h2_sent`
  unfoldable pub sent : Engine W → ℕ → CfResult × Engine W
  sent h n =
      if ltb (length h.pending) n
      then (some argument, h)
      else (none, record h { pending = drop n h.pending })

  -- The loop of `cf_h2_tick`; a reset changes the flag of a slot alone, so that the test of the slots
  -- behind it reads the same.
  unfoldable pub tick_loop : List Stream → Engine W → Engine W
  tick_loop [] h = h
  tick_loop (s ∷ ss) h =
      let h' = (reset o h s.id cancel).1 in tick_loop ss (if is_stalled h.now_ms s then h' else h)

  -- `cf_h2_tick`
  unfoldable pub tick : Engine W → ℕ → Engine W
  tick h now = tick_loop h.streams (record h { now_ms = now })

  -- The calls that a callback makes.
  unfoldable pub submit : Submission → Engine W → Engine W
  submit (responds id status headers origin) h = (respond h id status headers origin).1
  submit (resumes id) h = (resume h id).1
  submit (resets id code) h = (reset o h id code).1

  unfoldable pub submit_all : List Submission → Engine W → Engine W
  submit_all [] h = h
  submit_all (c ∷ cs) h = submit_all cs (submit c h)

-- ===== src/H2/Answered.antt =====
-- What keeps a stream of cf_h2.c answered: the calls of the application.
pub mod Callbacks
use esp_cf_tunnel.Prelude.{
  ℕ, ◌≡◌, ◌≢◌, refl, Bool, true, false, List, [], ◌∷◌, ◌==◌, All, arith, Bool-cases, Option-cases,
  inl, inr,
}
use esp_cf_tunnel.Core.{Bytes, Result-cases}
use esp_cf_tunnel.Headers.{Header, encode, wire_max}
use esp_cf_tunnel.H2.{
  Stream, Engine, Outside, Request, Submission, responds, resumes, resets, find_stream, update,
  reset, reset_stream,
}
use esp_cf_tunnel.H2.Respond.{
  fields_of, content_length, respond, resume, submit, submit_all, is_open, tick, tick_loop,
}
use esp_cf_tunnel.H2.Session.{Event, headers_begun, Library}
use esp_cf_tunnel.H2.Table.{find_id, find-All, update-All}

-- Callbacks that begin no request on stream `id`.
abbrev pub Elsewhere : ℕ → Event → Type 0
Elsewhere id (headers_begun f) = f.is_request ≡ true → f.id ≢ id
Elsewhere id _ = Unit

-- A property of the state of nghttp2 and of the application that only an answer for stream `id` can end, and
-- under which nghttp2 begins no request on that stream, as it has begun before.
pub record Keeps {W : Type 0} (o : Outside W) (lib : Library W) (id : ℕ) (P : W → Type 0)
    : Type 0 where
  pub by_rst : (w : W) (at code : ℕ) → P w → P (o.submit_rst w at code).1
  pub by_consume : (w : W) (at n : ℕ) → P w → P (o.consume w at n).1
  pub by_connection : (w : W) (n : ℕ) → P w → P (o.consume_connection w n).1
  pub by_response :
      (w : W) (at : ℕ) (headers : List Header)
      → at ≢ id
      → P w
      → P (o.submit_response w at headers).1
  pub by_resume : (w : W) (at : ℕ) → P w → P (o.resume_data w at).1
  pub by_goaway : (w : W) → P w → P (o.submit_goaway w).1
  pub by_request : (h : Engine W) (q : Request) → P h.outside → P (o.on_request h q).2
  pub by_data :
      (h : Engine W) (at : ℕ) (bytes : Bytes) (end : Bool)
      → P h.outside
      → P (o.on_data h at bytes end).2
  pub by_read : (h : Engine W) (at n : ℕ) → P h.outside → P (o.on_read h at n).4
  pub by_closed : (h : Engine W) (at code : ℕ) → P h.outside → P (o.on_closed h at code).1
  pub by_input :
      (h : Engine W) (input : Bytes) (fine : Bool)
      → P h.outside
      → P (lib.input_result h input fine).1
  pub by_output : (h : Engine W) (fine : Bool) → P h.outside → P (lib.output_result h fine).1
  pub input_elsewhere :
      (h : Engine W) (input : Bytes) → P h.outside → All (Elsewhere id) (lib.on_input h input)
  pub output_elsewhere : (h : Engine W) → P h.outside → All (Elsewhere id) (lib.on_output h)

abbrev pub Answered : ℕ → Stream → Type 0
Answered id s = s.id ≡ id → s.response ≡ true

-- Stream `id` is answered, if it is in the table, and the property holds.
abbrev pub Kept : {W : Type 0} → ℕ → (W → Type 0) → Engine W → Type 0
Kept id P h = All (Answered id) h.streams × P h.outside

-- An answered stream may not be answered.
pub is_open-find_stream :
    (ss : List Stream) (id : ℕ) → All (Answered id) ss → is_open (find_stream ss id) ≡ false
is_open-find_stream ss id a = elim (Option-cases (find_stream ss id)) [
  | inl t ↦ rw t refl
  | inr (s, t) ↦
      let done = find-All (Answered id) ss id s t a (find_id ss id s t) in
      rw t (ground (arith, done))
]

module _ {W : Type 0} {o : Outside W} {lib : Library W} {id : ℕ} {P : W → Type 0}
    (k : Keeps o lib id P) where
  pub changed :
      (ss : List Stream) (at : ℕ) (f : Stream → Stream)
      → ((s : Stream) → Answered id s → Answered id (f s))
      → All (Answered id) ss
      → All (Answered id) (update ss at f)
  changed ss at f g a = update-All (Answered id) (Answered id) at f (λ s b. b) (λ s e b. g s b) ss a

  pub reset-Kept : (h : Engine W) (at code : ℕ) → Kept id P h → Kept id P (reset o h at code).1
  unfolding reset
  reset-Kept h at code (a, p) =
      let marked = changed h.streams at (λ s. record s { is_reset = true }) (λ s b. b) a in
      let after = k.by_rst h.outside at code p in ground (arith, a, p, marked, after)

  pub reset_stream-Kept :
      (h : Engine W) (at code : ℕ) → Kept id P h → Kept id P (reset_stream o h at code).1
  unfolding reset_stream
  reset_stream-Kept h at code a = reset-Kept h at code a

  respond-Kept :
      (h : Engine W) (at status : ℕ) (headers : List Header) (origin : Bool)
      → Kept id P h
      → Kept id P (respond o h at status headers origin).1
  unfolding respond
  respond-Kept h at status headers origin (a, p) =
      let marked = changed h.streams at (λ s. record s { response = true }) (λ s b z. refl) a in
      let closed = is_open-find_stream h.streams id a in
      elim (Bool-cases (at == id)) [
        | inl e ↦
            let here : is_open (find_stream h.streams at) ≡ false = ground (arith, e, closed) in
            ground (arith, here, a, p)
        | inr e ↦
            let after = λ (fields : List Header).
              k.by_response h.outside at fields (λ z. ground (arith, e, z)) p in
            elim (Result-cases (encode headers wire_max)) [
              | inr (e, t) ↦ ground (arith, a, p, t)
              | inl (bytes, t) ↦ elim (Option-cases (content_length headers [])) [
                | inl u ↦ ground (arith, a, p, t, u)
                | inr (added, u) ↦
                    let sent = after (fields_of status bytes origin added) in
                    ground (arith, a, p, marked, sent, t, u)
              ]
            ]
      ]

  resume-Kept : (h : Engine W) (at : ℕ) → Kept id P h → Kept id P (resume o h at).1
  unfolding resume
  resume-Kept h at (a, p) =
      let marked = changed h.streams at (λ s. record s { deferred = false }) (λ s b. b) a in
      let after = k.by_resume h.outside at p in ground (arith, a, p, marked, after)

  pub submit-Kept : (c : Submission) (h : Engine W) → Kept id P h → Kept id P (submit o c h)
  unfolding submit
  submit-Kept (responds at status headers origin) h a = respond-Kept h at status headers origin a
  submit-Kept (resumes at) h a = resume-Kept h at a
  submit-Kept (resets at code) h a = reset-Kept h at code a

  pub submit_all-Kept :
      (cs : List Submission) (h : Engine W) → Kept id P h → Kept id P (submit_all o cs h)
  unfolding submit_all
  submit_all-Kept [] h a = a
  submit_all-Kept (c ∷ cs) h a = submit_all-Kept cs (submit o c h) (submit-Kept c h a)

  tick_loop-Kept : (ss : List Stream) (h : Engine W) → Kept id P h → Kept id P (tick_loop o ss h)
  unfolding tick_loop
  tick_loop-Kept [] h a = a
  tick_loop-Kept (s ∷ ss) h a = tick_loop-Kept ss _ (ground (arith, a, reset-Kept h s.id 8 a))

  pub tick-Kept : (h : Engine W) (now : ℕ) → Kept id P h → Kept id P (tick o h now)
  unfolding tick
  tick-Kept h now a = tick_loop-Kept h.streams (record h { now_ms = now }) a

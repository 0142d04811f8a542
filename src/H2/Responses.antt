-- ===== src/H2/Responses.antt =====
-- A stream of cf_h2.c is answered once.
use esp_cf_tunnel.Prelude.{
  ℕ, ◌≤◌, ◌≡◌, ◌≢◌, refl, Bool, true, false, none, List, [], ◌∷◌, ◌==◌, All, arith, Bool-cases,
  Option-cases, inl, inr,
}
use esp_cf_tunnel.Core.{Bytes}
use esp_cf_tunnel.Headers.{Header}
use esp_cf_tunnel.H2.{Stream, Engine, Outside, find_stream, update}
use esp_cf_tunnel.H2.Respond.{respond, shutdown, sent, is_open}
use esp_cf_tunnel.H2.Frame.{count}
use esp_cf_tunnel.H2.Session.{
  Library, on_events, receive, output, Call, receives, outputs, shuts_down, reports_sent, ticks,
  submits, perform, perform_all,
}
use esp_cf_tunnel.H2.Invariant.{Fits, SlotFits, has_id}
use esp_cf_tunnel.H2.Table.{find_id, find-All}
use esp_cf_tunnel.H2.Calls.{IsSettled}
use esp_cf_tunnel.H2.Answered.{Keeps, Answered, Kept, is_open-find_stream, submit-Kept, tick-Kept}
use esp_cf_tunnel.H2.Answered.Callbacks.{on_events-Kept}

-- No slot holds a stream that is counted nowhere.
counted_nowhere : (ss : List Stream) (id : ℕ) → count (has_id id) ss ≡ 0 → All (Answered id) ss
unfolding count
counted_nowhere [] id e = tt
counted_nowhere (s ∷ ss) id e =
    ((λ z. absurd (ground (arith, e, z))), counted_nowhere ss id (ground (arith, e)))

-- Marking the one slot of a stream answers it.
update-Answered :
    (ss : List Stream) (id : ℕ)
    → count (has_id id) ss ≤ 1
    → All (Answered id) (update ss id (λ s. record s { response = true }))
unfolding count update
update-Answered [] id e = tt
update-Answered (s ∷ ss) id e = elim (Bool-cases (s.id == id)) [
  | inl t ↦ rw t ((λ z. refl), counted_nowhere ss id (ground (arith, e, t)))
  | inr t ↦
      rw t ((λ z. absurd (ground (arith, t, z))), update-Answered ss id (ground (arith, e, t)))
]

-- A stream that may be answered has an id, and no other slot holds it.
open_alone :
    {apps used at active : ℕ} {streams : List Stream} {headers : List Header} (id : ℕ)
    → Fits apps streams headers used at active
    → is_open (find_stream streams id) ≡ true
    → (id ≢ 0) × (count (has_id id) streams ≤ 1)
open_alone {at} {streams} id v e = elim (Option-cases (find_stream streams id)) [
  | inl t ↦ absurd (ground (arith, rw t at e))
  | inr (s, t) ↦
      let slot = find-All (SlotFits at) streams id s t v.slots in
      let same = find_id streams id s t in
      let used : id ≢ 0 = λ z. ground (arith, rw t at e, slot.0, same, z) in (used, v.alone id used)
]

settled_alone :
    {W : Type 0} (h : Engine W) (id : ℕ)
    → IsSettled h
    → is_open (find_stream h.streams id) ≡ true
    → (id ≢ 0) × (count (has_id id) h.streams ≤ 1)
settled_alone h id (inl v) e = open_alone id v e
settled_alone h id (inr (v, f)) e = open_alone id v e

module _ {W : Type 0} (o : Outside W) where
  answered_open :
      (h : Engine W) (id status : ℕ) (headers : List Header) (origin : Bool)
      → (respond o h id status headers origin).0 ≡ none
      → (is_open (find_stream h.streams id) ≡ true)
        × ((respond o h id status headers origin).1.streams
            ≡ update h.streams id (λ s. record s { response = true }))
  unfolding respond
  answered_open h id status headers origin e = ground (arith, e)

  refused_when_closed :
      (h : Engine W) (id status : ℕ) (headers : List Header) (origin : Bool)
      → is_open (find_stream h.streams id) ≡ false
      → (respond o h id status headers origin).0 ≢ none
  unfolding respond
  refused_when_closed h id status headers origin e = ground (arith, e)

module _ {W : Type 0} (o : Outside W) (lib : Library W) (id : ℕ) (used : id ≢ 0) (P : W → Type 0)
    (k : Keeps o lib id P) where
  receive-Kept :
      (h : Engine W) (input : Bytes) (now : ℕ)
      → Kept id P h
      → Kept id P (receive o lib h input now).2
  unfolding receive
  receive-Kept h input now (a, p) =
      let h0 = record h { now_ms = now } in
      let (fine, h1) = on_events o (lib.on_input h0 input) h0 in
      let (b, q) =
        on_events-Kept k (lib.on_input h0 input) h0 used (k.input_elsewhere h0 input p) (a, p) in
      let after = k.by_input h1 input fine q in ground (arith, a, p, b, after)

  output-Kept : (h : Engine W) → Kept id P h → Kept id P (output o lib h).2
  unfolding output
  output-Kept h (a, p) =
      let (fine, h1) = on_events o (lib.on_output h) h in
      let (b, q) = on_events-Kept k (lib.on_output h) h used (k.output_elsewhere h p) (a, p) in
      let after = k.by_output h1 fine q in ground (arith, a, p, b, after)

  perform-Kept : (c : Call) (h : Engine W) → Kept id P h → Kept id P (perform o lib c h)
  unfolding perform shutdown sent
  perform-Kept (receives input now) h a = receive-Kept h input now a
  perform-Kept outputs h a = output-Kept h a
  perform-Kept shuts_down h (a, p) = (a, k.by_goaway h.outside p)
  perform-Kept (reports_sent n) h a = ground (arith, a)
  perform-Kept (ticks now) h a = tick-Kept k h now a
  perform-Kept (submits c) h a = submit-Kept k c h a

  perform_all-Kept :
      (cs : List Call) (h : Engine W) → Kept id P h → Kept id P (perform_all o lib cs h)
  unfolding perform_all
  perform_all-Kept [] h a = a
  perform_all-Kept (c ∷ cs) h a = perform_all-Kept cs (perform o lib c h) (perform-Kept c h a)

-- After `cf_h2_respond` succeeded for a stream of a settled adapter, any calls follow: input, with whatever
-- callbacks nghttp2 makes of it and whatever the application answers and calls from them, output, ticks, a
-- shutdown, and calls of the application. Then `cf_h2_respond` fails for that stream, with whatever arguments.
-- And nghttp2 was handed no second response for it on the way: every property of the state of
-- nghttp2 and of the application still holds that holds after the first answer and that no function of
-- theirs ends but `nghttp2_submit_response2` for this stream. The property tells that nghttp2 begins no
-- request on the stream, as it gives no id to two requests.
pub respond_once :
    {W : Type 0} (o : Outside W) (lib : Library W) (P : W → Type 0) (h : Engine W)
    (id status again : ℕ) (headers others : List Header) (origin later : Bool) (cs : List Call)
    → Keeps o lib id P
    → IsSettled h
    → (respond o h id status headers origin).0 ≡ none
    → P (respond o h id status headers origin).1.outside
    → let h' = perform_all o lib cs (respond o h id status headers origin).1 in
      P h'.outside × ((respond o h' id again others later).0 ≢ none)
respond_once o lib P h id status again headers others origin later cs k settled e p =
    let (may, marks) = answered_open o h id status headers origin e in
    let (used, one) = settled_alone h id settled may in
    let h1 = (respond o h id status headers origin).1 in
    let first : All (Answered id) h1.streams = rw marks (update-Answered h.streams id one) in
    let (a, q) = perform_all-Kept o lib id used P k cs h1 (first, p) in
    let h' = perform_all o lib cs h1 in
    (q, refused_when_closed o h' id again others later (is_open-find_stream h'.streams id a))

-- ===== src/H2/Calls.antt =====
-- Any calls of cf_h2.c, whatever the edge sends and whatever the application answers.
use mathlib.Core.Path.{subst}
use esp_cf_tunnel.Prelude.{
  ℕ, ◌≡◌, ◌≢◌, ◌⊎◌, refl, sym, ◌∙◌, Bool, true, false, none, List, [], ◌∷◌, ◌==◌, length, arith,
  Bool-cases, Option-cases, inl, inr,
}
use esp_cf_tunnel.Core.{Bytes, CfError, memory, state, format, ok, ok-injective}
use esp_cf_tunnel.H2.{
  Stream, Engine, Outside, Submission, responds, resumes, resets, reset, empty_slot,
}
use esp_cf_tunnel.H2.Respond.{respond, resume, shutdown, sent, tick, tick_loop, submit}
use esp_cf_tunnel.H2.Frame.{count}
use esp_cf_tunnel.H2.Session.{
  Outcome, gives, no_memory, breaks, Library, nomem, initial, create, on_events, receive, output,
  Call, receives, outputs, shuts_down, reports_sent, ticks, submits, perform, perform_all,
  break_with,
}
use esp_cf_tunnel.H2.Invariant.{FitsAt, IsValid, SlotFits, submit-FitsAt, tick-FitsAt, total_bytes}
use esp_cf_tunnel.H2.Callbacks.{Leaves}
use esp_cf_tunnel.H2.Frames.{header_stream-submit}
use esp_cf_tunnel.H2.Events.{AllFit, on_events-Leaves}

-- The adapter is valid; or its session has failed, and then it still keeps its bounds.
abbrev pub IsSettled : {W : Type 0} → Engine W → Type 0
IsSettled h = IsValid h ⊎ FitsAt 0 h × (h.error ≢ none)

abbrev pub is_given : {A : Type 0} → Outcome A → Bool
is_given (gives a) = true
is_given _ = false

-- nghttp2 as it is documented: its callbacks fit, and a callback that fails ends the call with an error.
pub record IsDocumented {W : Type 0} (o : Outside W) (lib : Library W) : Type 0 where
  pub input_fits : (h : Engine W) (input : Bytes) → AllFit o (lib.on_input h input) h
  pub output_fits : (h : Engine W) → AllFit o (lib.on_output h) h
  pub input_stops :
      (h : Engine W) (input : Bytes) → is_given (lib.input_result h input false).0 ≡ false
  pub output_stops : (h : Engine W) → is_given (lib.output_result h false).0 ≡ false

Outcome-cases :
    {A : Type 0} (q : Outcome A)
    → ((a : A) × (q ≡ gives a)) ⊎ (q ≡ no_memory) ⊎ ((n : ℕ) × (q ≡ breaks n))
Outcome-cases (gives a) = inl (a, refl)
Outcome-cases no_memory = inr (inl refl)
Outcome-cases (breaks n) = inr (inr (n, refl))

module _ {W : Type 0} (o : Outside W) where
  working : (h : Engine W) → IsSettled h → h.error ≡ none → IsValid h
  working h (inl v) t = v
  working h (inr (b, e)) t = absurd (e t)

  -- A result that is given comes from callbacks that all returned 0.
  given-IsValid :
      {A : Type 0} (fine : Bool) (h : Engine W) (q : Bool → Outcome A) (a : A)
      → Leaves (fine, h)
      → is_given (q false) ≡ false
      → q fine ≡ gives a
      → IsValid h
  given-IsValid true h q a (v, b) stops e = v refl
  given-IsValid false h q a (v, b) stops e = absurd (ground (arith, rw e at stops))

  broken-IsSettled :
      (h : Engine W) (w : W) (code : ℕ) (e : CfError)
      → FitsAt 0 h
      → IsSettled (break_with o (record h { outside = w }) code e)
  broken-IsSettled h w code e b = inr (b, λ z. ground (arith, z))

  submit-error : (c : Submission) (h : Engine W) → h.error ≢ none → (submit o c h).error ≢ none
  unfolding submit respond resume reset
  submit-error (responds id status headers origin) h e = ground (arith, e)
  submit-error (resumes id) h e = ground (arith, e)
  submit-error (resets id code) h e = ground (arith, e)

  tick_loop-error :
      (ss : List Stream) (h : Engine W) → h.error ≢ none → (tick_loop o ss h).error ≢ none
  unfolding tick_loop reset
  tick_loop-error [] h e = e
  tick_loop-error (s ∷ ss) h e = tick_loop-error ss _ (ground (arith, e))

  tick-error : (h : Engine W) (now : ℕ) → h.error ≢ none → (tick o h now).error ≢ none
  unfolding tick
  tick-error h now e = tick_loop-error h.streams (record h { now_ms = now }) e

  header_stream-tick_loop :
      (ss : List Stream) (h : Engine W) → (tick_loop o ss h).header_stream ≡ h.header_stream
  unfolding tick_loop reset
  header_stream-tick_loop [] h = refl
  header_stream-tick_loop (s ∷ ss) h = header_stream-tick_loop ss _ ∙ ground arith

  header_stream-tick : (h : Engine W) (now : ℕ) → (tick o h now).header_stream ≡ h.header_stream
  unfolding tick
  header_stream-tick h now = header_stream-tick_loop h.streams (record h { now_ms = now })

module _ {W : Type 0} (o : Outside W) (lib : Library W) (doc : IsDocumented o lib) where
  receive-IsSettled :
      (h : Engine W) (input : Bytes) (now : ℕ)
      → IsSettled h
      → IsSettled (receive o lib h input now).2
  unfolding receive
  receive-IsSettled h input now s =
      let h0 = record h { now_ms = now } in
      let (fine, h1) = on_events o (lib.on_input h0 input) h0 in
      let (outcome, w) = lib.input_result h1 input fine in
      elim (Option-cases h.error) [
        | inr (e, t) ↦ rw (receive, t) s
        | inl t ↦
            let v = working o h s t in
            let left = on_events-Leaves o (lib.on_input h0 input) h0 v (doc.input_fits h0 input) in
            let result = λ (b : Bool). (lib.input_result h1 input b).0 in
            rw (receive, t)
              (elim (Outcome-cases outcome) [
                | inl (n, q) ↦
                    rw q (inl (given-IsValid o fine h1 result n left (doc.input_stops h1 input) q))
                | inr (inl q) ↦ rw q (broken-IsSettled o h1 w nomem memory left.1)
                | inr (inr (code, q)) ↦ rw q (broken-IsSettled o h1 w code format left.1)
              ])
      ]

  output-IsSettled : (h : Engine W) → IsSettled h → IsSettled (output o lib h).2
  unfolding output
  output-IsSettled h s =
      let (fine, h1) = on_events o (lib.on_output h) h in
      let (outcome, w) = lib.output_result h1 fine in
      elim (Option-cases h.error) [
        | inr (e, t) ↦ rw (output, t) s
        | inl t ↦
            let v = working o h s t in
            let left = on_events-Leaves o (lib.on_output h) h v (doc.output_fits h) in
            let result = λ (b : Bool). (lib.output_result h1 b).0 in
            rw (output, t)
              (elim (Bool-cases (length h.pending == 0)) [
                | inr k ↦ rw k (inl v)
                | inl k ↦ rw k (elim (Outcome-cases outcome) [
                  | inl (n, q) ↦
                      rw q (inl (given-IsValid o fine h1 result n left (doc.output_stops h1) q))
                  | inr (inl q) ↦ rw q (broken-IsSettled o h1 w nomem memory left.1)
                  | inr (inr (code, q)) ↦ rw q (broken-IsSettled o h1 w code state left.1)
                ])
              ])
      ]

  submit-IsSettled : (c : Submission) (h : Engine W) → IsSettled h → IsSettled (submit o c h)
  submit-IsSettled c h (inl v) = inl (
      subst (λ x. FitsAt x (submit o c h)) (sym (header_stream-submit o c h))
        (submit-FitsAt o h.header_stream c h v))
  submit-IsSettled c h (inr (b, e)) = inr (submit-FitsAt o 0 c h b, submit-error o c h e)

  tick-IsSettled : (h : Engine W) (now : ℕ) → IsSettled h → IsSettled (tick o h now)
  tick-IsSettled h now (inl v) = inl (
      subst (λ x. FitsAt x (tick o h now)) (sym (header_stream-tick o h now))
        (tick-FitsAt o h.header_stream h now v))
  tick-IsSettled h now (inr (b, e)) = inr (tick-FitsAt o 0 h now b, tick-error o h now e)

  perform-IsSettled : (c : Call) (h : Engine W) → IsSettled h → IsSettled (perform o lib c h)
  unfolding perform shutdown sent
  perform-IsSettled (receives input now) h s = receive-IsSettled h input now s
  perform-IsSettled outputs h s = output-IsSettled h s
  perform-IsSettled shuts_down h s = s
  perform-IsSettled (reports_sent n) h s = ground (arith, s)
  perform-IsSettled (ticks now) h s = tick-IsSettled h now s
  perform-IsSettled (submits c) h s = submit-IsSettled c h s

  from-IsSettled :
      (cs : List Call) (h : Engine W) → IsSettled h → IsSettled (perform_all o lib cs h)
  unfolding perform_all
  from-IsSettled [] h s = s
  from-IsSettled (c ∷ cs) h s = from-IsSettled cs (perform o lib c h) (perform-IsSettled c h s)

initial-IsValid : {W : Type 0} (apps : ℕ) (w : W) → IsValid (initial apps w)
unfolding count total_bytes
initial-IsValid apps w = record {
  size = refl;
  counted = refl;
  slots =
      let one : SlotFits 0 empty_slot = (λ z. refl, λ z d. d) in
      (one, (one, (one, (one, (one, (one, tt))))));
  alone = λ i u. ground (arith, u);
  admitted = λ k. omega arith;
  few = omega arith;
  fits = omega arith;
  stored = refl;
}

create-IsValid :
    {W : Type 0} (apps limit : ℕ) (allocated started : Bool) (w : W) (h : Engine W)
    → create apps limit allocated started w ≡ ok h
    → IsValid h
unfolding create
create-IsValid apps limit allocated started w h e =
    subst IsValid (ok-injective (made apps limit allocated started w h e)) (initial-IsValid apps w)
  where
    made :
        {W : Type 0} (apps limit : ℕ) (allocated started : Bool) (w : W) (h : Engine W)
        → create apps limit allocated started w ≡ ok h
        → ok (initial apps w) ≡ ok h
    made apps limit allocated started w h e = ground (arith, e)

-- An adapter that `cf_h2_create` made stays settled, whatever calls its owner makes, whatever nghttp2
-- reports, if its callbacks are as it is documented, and whatever the application answers and calls from
-- its callbacks. While the session has not failed, the counter of active streams is the number of used slots, no two
-- slots hold the same stream, no kind has more served streams than its limit, the headers that are
-- received fit the scratch area, and the stream that they belong to is not served yet or is reset. If it
-- has failed, all of that still holds but the last.
pub perform_all-IsSettled :
    {W : Type 0} (o : Outside W) (lib : Library W)
    → IsDocumented o lib
    → (apps limit : ℕ) (allocated started : Bool) (w : W) (h : Engine W) (cs : List Call)
    → create apps limit allocated started w ≡ ok h
    → IsSettled (perform_all o lib cs h)
perform_all-IsSettled o lib doc apps limit allocated started w h cs e =
    from-IsSettled o lib doc cs h (inl (create-IsValid apps limit allocated started w h e))

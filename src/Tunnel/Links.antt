-- ===== src/Tunnel/Links.antt =====
-- A connection with HTTP/2 stays one, whatever the adapter reports (esp_cf_tunnel.c).
use mathlib.Core.Path.{subst}
use esp_cf_tunnel.Prelude.{
  either, either_at, ℕ, ◌≡◌, ◌≢◌, ◌⊎◌, inl, inr, refl, sym, ◌∙◌, Bool, true, false, ◌||◌, not, none,
  some, List, [], ◌∷◌, All, ◌==◌, arith,
}
use esp_cf_tunnel.Core.{Bytes, CfResult}
use esp_cf_tunnel.Lifecycle
use esp_cf_tunnel.Lifecycle.{CfState, Lifecycle, advance}
use esp_cf_tunnel.Lifecycle.Invariant.{IsValid, EnvironmentFits, advance-IsValid}
use esp_cf_tunnel.Rpc
use esp_cf_tunnel.Rpc.{Rpc}
use esp_cf_tunnel.H2.{Submission, Request, Kind, http, control, config}
use esp_cf_tunnel.Json.{Cjson}
use esp_cf_tunnel.Tunnel.{Tunnel, Firmware, Answer, advanced}
use esp_cf_tunnel.Tunnel.Streams.{
  is_http2, is_admitted, open_control, open_config, by_kind, h2_request,
}
use esp_cf_tunnel.Tunnel.Transfers.{
  config_data, h2_data, h2_read, h2_closed, outcome_event, apply_config,
}
use esp_cf_tunnel.Tunnel.Calls.{Call, requests, brings, reads, closes, updates, IsNamed, step, run}
use esp_cf_tunnel.Tunnel.Late.{
  IsLate, Late, is_late, is_stopping, answer_control-Late, h2_request-Late, h2_data-Late,
  h2_read-Late, h2_closed-Late, apply_config-Late,
}

-- HTTP/2 is open, and the edge has not opened the control stream: nothing has been registered.
pub record IsEarly (halts : Bool) (l : Lifecycle) (stopping : Bool) (control_stream : ℕ) (rpc : Rpc)
    : Type 0 where
  pub valid : IsValid l
  pub phase : l.phase ≡ Lifecycle.http2
  pub flag : stopping ≡ halts
  pub going : halts ≡ false
  pub unopened : control_stream ≡ 0
  pub unused : rpc ≡ Rpc.init

abbrev pub IsLinked : Bool → Lifecycle → Bool → ℕ → Rpc → Type 0
IsLinked halts l stopping control_stream rpc =
    IsEarly halts l stopping control_stream rpc ⊎ IsLate halts l stopping

at_http2 : (p : CfState) → p ≡ Lifecycle.http2 → is_http2 p ≢ false
at_http2 p h k = ground (arith, h, k)

-- The edge's first word ends the early phase.
opened :
    (l : Lifecycle)
    → IsValid l
    → l.phase ≡ Lifecycle.http2
    → (is_late (advance l Lifecycle.http2_ready).0.phase ≡ true)
      × (is_stopping (advance l Lifecycle.http2_ready).0.phase ≡ false)
unfolding advance
opened l v h =
    let ready = subst (λ p. EnvironmentFits p l.network_ready l.time_ready) h v.ready in
    ground (arith, h, ready)

unchanged :
    (l : Lifecycle) (e : Lifecycle.Event)
    → (e ≡ Lifecycle.config_applied) ⊎ (e ≡ Lifecycle.config_rejected)
    → l.phase ≡ Lifecycle.http2
    → (advance l e).0 ≡ l
unfolding advance
unchanged l e k h = ground (arith, k, h)

abbrev pub Linked : {A : Type 0} → Bool → Tunnel A → Type 0
Linked halts t = IsLinked halts t.life t.stopping t.control_stream t.rpc

abbrev pub Early : {A : Type 0} → Bool → Tunnel A → Type 0
Early halts t = IsEarly halts t.life t.stopping t.control_stream t.rpc

abbrev LinkedAnswer : {A : Type 0} → Bool → Answer A → Type 0
LinkedAnswer halts a = Linked halts a.2

module _ {A : Type 0} {halts : Bool} where
  pub opened-Late : (t : Tunnel A) → Early halts t → Late halts (advanced Lifecycle.http2_ready t)
  opened-Late t v =
      let (late, going) = opened t.life v.valid v.phase in
      (advance-IsValid t.life Lifecycle.http2_ready v.valid, late, v.flag, going ∙ sym v.going)

module _ {A : Type 0} {halts : Bool} (firmware : Firmware A) (out : Bytes) (now : ℕ) where
  by_kind-Linked :
      (kind : Kind) (submitted : CfResult) (t : Tunnel A) (request : Request)
      → Early halts t
      → LinkedAnswer halts (by_kind firmware out now kind submitted t request)
  unfolding by_kind open_control open_config
  by_kind-Linked control submitted t request v =
      let t0 : Tunnel A = record t { control_stream = request.stream } in
      let late =
        either_at (Late halts) (is_http2 t.life.phase) (advanced Lifecycle.http2_ready t0) t0
          (λ h. opened-Late t v) (λ h. absurd (at_http2 t.life.phase v.phase h)) in
      either (LinkedAnswer halts) (not (t.control_stream == 0) || request.end_stream) _ _ (inl v)
        (inr (answer_control-Late firmware out now _ _ _ _ _ late))
  by_kind-Linked config submitted t request v =
      either (LinkedAnswer halts) (not (t.config_stream == 0)) _ _ (inl v) (inl v)
  by_kind-Linked http submitted t request v =
      either (LinkedAnswer halts) (not (is_admitted firmware out now t request)) _ _ (inl v) (inl v)

  h2_data-Linked :
      (t : Tunnel A) (id : ℕ) (input : Bytes) (ends : Bool)
      → id ≢ 0
      → Early halts t
      → LinkedAnswer halts (h2_data firmware out now t id input ends)
  unfolding h2_data config_data
  h2_data-Linked t id input ends k v =
      either_at (LinkedAnswer halts) (id == t.control_stream) _ _
        (λ d. absurd (k (ground (arith, d, v.unopened))))
        (λ d.
          either (LinkedAnswer halts) (id == t.config_stream) _ _
            (either (LinkedAnswer halts) _ _ _ (inl v) (inl v)) (inl v))

  h2_closed-Linked :
      (t : Tunnel A) (id error : ℕ)
      → Early halts t
      → Linked halts (h2_closed firmware out now t id error)
  unfolding h2_closed
  h2_closed-Linked t id error v =
      either (Linked halts) (id == t.control_stream) _ _
        (inl (record {
          valid = v.valid;
          phase = v.phase;
          flag = v.flag;
          going = v.going;
          unopened = refl;
          unused = v.unused;
        }))
        (either (Linked halts) (id == t.config_stream) _ _ (inl v) (inl v))

  apply_config-Linked :
      (lib : Cjson) (locked : Bool) (submitted : CfResult) (t : Tunnel A)
      → Early halts t
      → Linked halts (apply_config firmware out now lib locked submitted t).1
  unfolding apply_config
  apply_config-Linked lib locked submitted t v =
      either (λ (r : List Submission × Tunnel A). Linked halts r.1)
        (not t.config_pending || not locked) _ _ (inl v) (inl (same _ (event_is _)))
    where
      event_is :
          (rc : CfResult)
          → (outcome_event firmware out now rc ≡ Lifecycle.config_applied)
            ⊎ (outcome_event firmware out now rc ≡ Lifecycle.config_rejected)
      event_is none = inl refl
      event_is (some x) = inr refl

      same :
          (e : Lifecycle.Event)
          → (e ≡ Lifecycle.config_applied) ⊎ (e ≡ Lifecycle.config_rejected)
          → Early halts (advanced e t)
      same e k =
          subst (λ l. IsEarly halts l t.stopping t.control_stream t.rpc)
            (sym (unchanged t.life e k v.phase)) v

  h2_request-Linked :
      (submitted : CfResult) (t : Tunnel A) (request : Request)
      → Early halts t
      → LinkedAnswer halts (h2_request firmware out now submitted t request)
  unfolding h2_request
  h2_request-Linked submitted t request v =
      either (LinkedAnswer halts) t.stopping _ _ (inl v)
        (by_kind-Linked request.kind submitted t request v)

  h2_read-Linked :
      (t : Tunnel A) (id capacity : ℕ)
      → Early halts t
      → Linked halts (h2_read firmware out now t id capacity).3
  unfolding h2_read
  h2_read-Linked t id capacity v = either Read (id == t.control_stream) _ _ (inl v) (
      either Read (id == t.config_stream) _ _
        (either Read (not t.config_response) _ _ (inl v) (inl v)) (inl v))
    where
      Read : CfResult × Bytes × Bool × Tunnel A → Type 0
      Read r = Linked halts r.3

  pub update-Linked :
      (lib : Cjson) (locked : Bool) (submitted : CfResult) (t : Tunnel A)
      → Linked halts t
      → Linked halts (apply_config firmware out now lib locked submitted t).1
  update-Linked lib locked submitted t (inl v) = apply_config-Linked lib locked submitted t v
  update-Linked lib locked submitted t (inr v) =
      inr (apply_config-Late firmware out now lib locked submitted t v)

module _ {A : Type 0} {halts : Bool} (firmware : Firmware A) where
  step-Linked :
      (c : Bytes × ℕ × Call) (t : Tunnel A)
      → IsNamed c.2
      → Linked halts t
      → Linked halts (step firmware c t)
  unfolding step
  step-Linked (out, now, requests submitted request) t k (inl v) =
      h2_request-Linked firmware out now submitted t request v
  step-Linked (out, now, requests submitted request) t k (inr v) =
      inr (h2_request-Late firmware out now submitted t request v)
  step-Linked (out, now, brings id input ends) t k (inl v) =
      h2_data-Linked firmware out now t id input ends k v
  step-Linked (out, now, brings id input ends) t k (inr v) =
      inr (h2_data-Late firmware out now t id input ends v)
  step-Linked (out, now, reads id capacity) t k (inl v) =
      h2_read-Linked firmware out now t id capacity v
  step-Linked (out, now, reads id capacity) t k (inr v) =
      inr (h2_read-Late firmware out now t id capacity v)
  step-Linked (out, now, closes id error) t k (inl v) =
      h2_closed-Linked firmware out now t id error v
  step-Linked (out, now, closes id error) t k (inr v) =
      inr (h2_closed-Late firmware out now t id error v)
  step-Linked (out, now, updates lib locked submitted) t k v =
      update-Linked firmware out now lib locked submitted t v

  pub run-Linked :
      (cs : List (Bytes × ℕ × Call)) (t : Tunnel A)
      → All (λ c. IsNamed c.2) cs
      → Linked halts t
      → Linked halts (run firmware cs t)
  unfolding run
  run-Linked [] t k v = v
  run-Linked (c ∷ cs) t (k, ks) v = run-Linked cs (step firmware c t) ks (step-Linked c t k v)

-- ===== src/Rpc/Steps.antt =====
-- What the calls of cf_rpc.c do to the state of the registration.
use esp_cf_tunnel.Prelude.{
  ℕ, ◌+◌, ◌-◌, ◌≤◌, ◌≡◌, ◌≢◌, refl, sym, ap, ◌∙◌, length-drop, length-take, length-append,
  take-append, drop-append, take-append_drop, ◌⊎◌, inl, inr, Bool, true, false, not, none, ◌++◌,
  length, take, drop, arith, Bool-cases, Option-cases, List, [], ◌∷◌, All, append-nil,
}
use mathlib.Core.List.{flatten}
use esp_cf_tunnel.Framing.Deliver.{IsFrame}
use esp_cf_tunnel.Framing.Capacity.{IsFrame-wider}
use esp_cf_tunnel.Core.{Bytes, CfResult, CfError}
use esp_cf_tunnel.Capnp.Builder.{Builder}
use esp_cf_tunnel.Rpc.{
  State, Rpc, Reply, tx_max, ascii, refuse, fail, finish, release_cap, abort, idle, bootstrapping,
  ready, registering, registered, unregistering, closed, rejected, failed,
}
use esp_cf_tunnel.Rpc.Requests.{
  IsSent, finish-IsSent, finish-size, release_cap-IsSent, abort-IsSent,
}
use esp_cf_tunnel.Rpc.Receive.{settle, conclude, Outcome, is_deaf, is_closed}

-- The moves of the registration: one question at a time, and no way back.
pub data Moves : State → State → Type 0 where
  asks_bootstrap : Moves idle bootstrapping
  imports : Moves bootstrapping ready
  asks_register : Moves ready registering
  is_accepted_by : Moves registering registered
  is_refused_by : Moves registering rejected
  asks_unregister : Moves registered unregistering
  ends : Moves unregistering closed
  breaks : (s : State) → is_deaf s ≡ false → Moves s failed

abbrev pub IsRegistered : Rpc → Type 0
IsRegistered r =
    (r.error ≡ none)
    × (r.have_capability ≡ true)
    × (r.remotely_managed ≡ true)
    × (length r.connection_id ≡ 16)
    × (ascii r.location 31 ≡ true)

-- What a state says of the other fields: the capability is imported before it is called, and a
-- registered connection is managed remotely, has an id of 16 bytes and a printable location.
abbrev pub PhaseFits : State → Rpc → Type 0
PhaseFits idle r = r.error ≡ none
PhaseFits bootstrapping r = r.error ≡ none
PhaseFits ready r = (r.error ≡ none) × (r.have_capability ≡ true)
PhaseFits registering r = (r.error ≡ none) × (r.have_capability ≡ true)
PhaseFits registered r = IsRegistered r
PhaseFits unregistering r = IsRegistered r
PhaseFits closed r = (r.error ≡ none) × (r.have_capability ≡ false)
PhaseFits rejected r = (r.error ≡ none) × (r.have_capability ≡ true)
PhaseFits failed r = r.error ≢ none

abbrev pub IsSound : Rpc → Type 0
IsSound r = PhaseFits r.phase r

-- The bytes that a call hands out are whole messages, one behind the other.
pub record IsStream (n : ℕ) (written : ℕ) (buffer : Bytes) : Type 0 where
  pub frames : List Bytes
  pub few : length frames ≤ 2
  pub framed : All (IsFrame n) frames
  pub joined : flatten frames ≡ take written buffer

-- A call that is refused: it changes nothing and hands nothing out.
pub record IsRefused (r : Rpc) (out : Bytes) (reply : Reply) : Type 0 where
  pub same : reply.rpc ≡ r
  pub silent : reply.written ≡ 0
  pub untouched : reply.buffer ≡ out
  pub reported : reply.result ≢ none

-- A call that is made.
pub record IsMade (r : Rpc) (reply : Reply) : Type 0 where
  pub step : Moves r.phase reply.rpc.phase
  pub sound : IsSound reply.rpc
  pub reported : reply.result ≡ reply.rpc.error
  pub kept : length reply.buffer ≡ tx_max
  pub fits : reply.written ≤ tx_max
  pub messages : IsStream tx_max reply.written reply.buffer

pub single : {n : ℕ} (end : CfResult × ℕ × Builder) → IsSent n end → IsStream n end.1 end.2.buffer
unfolding flatten
single end h = record {
  frames = take end.1 end.2.buffer ∷ [];
  few = omega arith;
  framed = (h.framed, tt);
  joined = append-nil _;
}

silence : {n : ℕ} (out : Bytes) → IsStream n 0 out
unfolding flatten
silence out = record { frames = []; few = omega arith; framed = tt; joined = refl }

pub refuse-IsRefused : (r : Rpc) (out : Bytes) (e : CfError) → IsRefused r out (refuse r out e)
refuse-IsRefused r out e = record {
  same = refl;
  silent = refl;
  untouched = refl;
  reported = λ z. ground (arith, z);
}

pub fail-IsMade :
    (r0 r : Rpc) (e : CfError) (peer : Bool) (out : Bytes)
    → is_deaf r0.phase ≡ false
    → length out ≡ tx_max
    → IsMade r0 (fail r e peer out)
unfolding fail
fail-IsMade r0 r e true out alive size =
    let h = abort-IsSent out size in
    record {
      step = breaks r0.phase alive;
      sound = λ z. ground (arith, z);
      reported = refl;
      kept = h.kept;
      fits = h.fits;
      messages = single (abort out) h;
    }
fail-IsMade r0 r e false out alive size = record {
  step = breaks r0.phase alive;
  sound = λ z. ground (arith, z);
  reported = refl;
  kept = size;
  fits = omega arith;
  messages = silence out;
}

-- What accepted results leave before the answer is built.
pub record IsAnswered (r0 r : Rpc) : Type 0 where
  pub step : Moves r0.phase r.phase
  pub clean : r.error ≡ none
  pub sound : (r.phase ≡ closed) ⊎ IsSound r

two_messages :
    (xs ys : Bytes) (n m : ℕ)
    → length xs ≡ n
    → IsFrame tx_max xs
    → IsFrame tx_max (take m ys)
    → IsStream tx_max (n + m) (xs ++ ys)
unfolding flatten
two_messages xs ys n m h first second =
    let whole = take-append_drop n m (xs ++ ys) in
    let front : take n (xs ++ ys) ≡ xs = rw⁻¹ h (take-append xs ys) in
    let back : drop n (xs ++ ys) ≡ ys = rw⁻¹ h (drop-append xs ys) in
    record {
      frames = xs ∷ take m ys ∷ [];
      few = omega arith;
      framed = (first, (second, tt));
      joined = ap (λ t. xs ++ t) (append-nil _) ∙ (rw (front, back) at whole);
    }

-- The answer and the release behind it.
released :
    (r : Rpc) (answer : ℕ) (boot : Bool) (out : Bytes)
    → length out ≡ tx_max
    → let (_, n, b) = finish answer (not boot) out tx_max in
      let (rc, extra, b') = release_cap r.capability (drop n b.buffer) (tx_max - n) in
      let buffer = take n b.buffer ++ b'.buffer in
      (rc ≡ none)
      × (length buffer ≡ tx_max)
      × (n + extra ≤ tx_max)
      × IsStream tx_max (n + extra) buffer
released r answer boot out size =
    let end = finish answer (not boot) out tx_max in
    let f = finish-IsSent answer (not boot) out size in
    let n = finish-size answer (not boot) out size in
    let left = length-drop end.1 end.2.buffer in
    let front = length-take end.1 end.2.buffer in
    let rest = release_cap r.capability (drop end.1 end.2.buffer) (tx_max - end.1) in
    let g =
      release_cap-IsSent r.capability (drop end.1 end.2.buffer) (tx_max - end.1)
        (omega (arith, left, f.kept, n)) (omega (arith, n)) (omega arith) in
    let first = take end.1 end.2.buffer in
    let ys = rest.2.buffer in
    let at : length first ≡ end.1 = omega (arith, front, f.kept, f.fits) in
    let long : length (first ++ ys) ≡ tx_max =
      omega (arith, length-append first ys, at, g.kept, n) in
    (
      g.fine,
      long,
      omega (arith, g.fits, n),
      two_messages first ys end.1 rest.1 at f.framed
          (IsFrame-wider _ tx_max _ (omega arith) g.framed),
    )

conclude-IsMade :
    (r0 r : Rpc) (answer : ℕ) (boot : Bool) (out : Bytes)
    → IsAnswered r0 r
    → length out ≡ tx_max
    → IsMade r0 (conclude r answer boot out)
unfolding conclude
conclude-IsMade r0 r answer boot out h size =
    let f = finish-IsSent answer (not boot) out size in
    let (rc, kept, fits, stream) = released r answer boot out size in
    rw (conclude, f.fine)
      (elim (Bool-cases (is_closed r.phase)) [
        | inl t ↦ rw t (record {
          step = h.step;
          sound = ground (arith, t, h.clean);
          reported = rc ∙ sym h.clean;
          kept = kept;
          fits = fits;
          messages = stream;
        })
        | inr t ↦ rw t (record {
          step = h.step;
          sound = ground (arith, t, h.sound);
          reported = f.fine ∙ sym h.clean;
          kept = f.kept;
          fits = f.fits;
          messages = single (finish answer (not boot) out tx_max) f;
        })
      ])

pub settle-IsMade :
    (r0 : Rpc) (o : Outcome) (answer : ℕ) (boot : Bool) (out : Bytes)
    → is_deaf r0.phase ≡ false
    → (o.0 ≡ none → IsAnswered r0 o.1)
    → length out ≡ tx_max
    → IsMade r0 (settle o answer boot out)
unfolding settle
settle-IsMade r0 (rc, r, rd) answer boot out alive h size = elim (Option-cases rd.error) [
  | inr (e, t) ↦ rw t (fail-IsMade r0 r e true out alive size)
  | inl t ↦ rw t (elim (Option-cases rc) [
    | inr (e, k) ↦ rw k (fail-IsMade r0 r e true out alive size)
    | inl k ↦ rw k (conclude-IsMade r0 r answer boot out (h k) size)
  ])
]

-- ===== src/Rpc/Calls.antt =====
-- The registration as a protocol: any calls of cf_rpc.c, in any order.
use esp_cf_tunnel.Prelude.{
  if◌then◌else◌, ltb, ℕ, ◌+◌, ◌*◌, ◌≤◌, ◌<◌, ◌≡◌, refl, sym, ◌⊎◌, inl, inr, Bool, true, false, ◌||◌,
  not, none, some, length, take, arith, Bool-cases, List, [], ◌∷◌, All,
}
use esp_cf_tunnel.Core.{Bytes, CfResult, argument, state}
use esp_cf_tunnel.Framing.Deliver.{IsFrame}
use esp_cf_tunnel.Capnp.Builder.{Builder, build_init, build_end}
use esp_cf_tunnel.Rpc.{
  State, Rpc, Reply, Credentials, Options, tx_max, output_ok, is_accepted, is_idle, is_ready,
  is_registered, sent, wiped, put_request, init, begin, register, unregister, bootstrapping, ready,
  registering, unregistering, closed, rejected, failed,
}
use esp_cf_tunnel.Rpc.Requests.{
  IsSent, begin_message-IsSent, unregister_message-IsSent, request-IsSent,
}
use esp_cf_tunnel.Rpc.Receive.{receive, retry_ms}
use esp_cf_tunnel.Rpc.Steps.{
  Moves, asks_bootstrap, asks_register, asks_unregister, IsSound, IsMade, IsRefused,
  refuse-IsRefused, single,
}
use esp_cf_tunnel.Rpc.Answers.{receive-IsMade}

-- The calls of cf_rpc.h on one registration.
pub data Call : Type 0 where
  begins unregisters : Call
  registers : Credentials → Options → Call
  receives : Bytes → Call

unfoldable pub reply_to : Call → Rpc → Bytes → ℕ → Reply
reply_to begins r out capacity = begin r out capacity
reply_to unregisters r out capacity = unregister r out capacity
reply_to (registers cred opt) r out capacity = register r cred opt out capacity
reply_to (receives frame) r out capacity = receive r frame out capacity

-- The arrays of the arguments have the sizes that they are declared with.
abbrev pub HasSizes : Call → Type 0
HasSizes (registers cred opt) = (length cred.tunnel_id ≡ 16) × (length opt.connector_id ≡ 16)
HasSizes _ = Unit

-- Calls one after the other, each with the same buffer.
unfoldable pub run : Bytes → ℕ → Rpc → List Call → Rpc
run out capacity r [] = r
run out capacity r (c ∷ cs) = run out capacity (reply_to c r out capacity).rpc cs

sent-IsMade :
    (r : Rpc) (next : State) (end : CfResult × ℕ × Builder)
    → Moves r.phase next
    → IsSound (record r { phase = next })
    → r.error ≡ none
    → IsSent tx_max end
    → IsMade r (sent r next end)
sent-IsMade r next (rc, n, b) step sound clean h = rw (h.fine) (record {
  step = step;
  sound = sound;
  reported = sym clean;
  kept = h.kept;
  fits = h.fits;
  messages = single (rc, n, b) h;
})

wiped_lem :
    (r : Rpc) (next : State) (end : CfResult × ℕ × Builder)
    → end.0 ≡ none
    → wiped (sent r next end) ≡ sent r next end
wiped_lem r next (none, n, b) h = refl
wiped_lem r next (some e, n, b) h = absurd (ground (arith, h))

module _ (r : Rpc) (s : IsSound r) where
  from_idle : is_idle r.phase ≡ true → Moves r.phase bootstrapping × (r.error ≡ none)
  from_idle h = ground (arith, h, s, asks_bootstrap)

  from_ready :
      is_ready r.phase ≡ true
      → Moves r.phase registering × (r.error ≡ none) × (r.have_capability ≡ true)
  from_ready h = ground (arith, h, s, asks_register)

  from_registered :
      is_registered r.phase ≡ true
      → Moves r.phase unregistering × IsSound (record r { phase = unregistering })
  from_registered h = ground (arith, h, s, asks_unregister)

module _ (r : Rpc) (out : Bytes) (capacity : ℕ) (s : IsSound r)
    (size : output_ok capacity ≡ true → length out ≡ tx_max) where
  begin-IsMade : IsRefused r out (begin r out capacity) ⊎ IsMade r (begin r out capacity)
  unfolding begin
  begin-IsMade = elim (Bool-cases (output_ok capacity)) [
    | inr t ↦ rw (begin, t) (inl (refuse-IsRefused r out argument))
    | inl t ↦
        rw (begin, t)
          (elim (Bool-cases (is_idle r.phase)) [
            | inr d ↦ rw d (inl (refuse-IsRefused r out state))
            | inl d ↦
                let (step, clean) = from_idle r s d in
                let h = begin_message-IsSent out (size t) in
                rw d (inr (sent-IsMade r bootstrapping _ step clean clean h))
          ])
  ]

  unregister-IsMade :
      IsRefused r out (unregister r out capacity) ⊎ IsMade r (unregister r out capacity)
  unfolding unregister
  unregister-IsMade = elim (Bool-cases (output_ok capacity)) [
    | inr t ↦ rw (unregister, t) (inl (refuse-IsRefused r out argument))
    | inl t ↦
        rw (unregister, t)
          (elim (Bool-cases (not (is_registered r.phase) || not r.have_capability)) [
            | inl d ↦ rw d (inl (refuse-IsRefused r out state))
            | inr d ↦
                let (step, sound) = from_registered r s (ground (arith, d)) in
                let h = unregister_message-IsSent r.capability out (size t) in
                rw d (inr (sent-IsMade r unregistering _ step sound sound.0 h))
          ])
  ]

  register-IsMade :
      (cred : Credentials) (opt : Options)
      → length cred.tunnel_id ≡ 16
      → length opt.connector_id ≡ 16
      → IsRefused r out (register r cred opt out capacity)
        ⊎ IsMade r (register r cred opt out capacity)
  unfolding register
  register-IsMade cred opt tunnel connector = elim (Bool-cases (output_ok capacity)) [
    | inr t ↦ rw (register, t) (inl (refuse-IsRefused r out argument))
    | inl t ↦
        rw (register, t)
          (elim (Bool-cases (not (is_ready r.phase) || not r.have_capability)) [
            | inl d ↦ rw d (inl (refuse-IsRefused r out state))
            | inr d ↦ rw d (elim (Bool-cases (is_accepted cred opt)) [
              | inr a ↦ rw a (inl (refuse-IsRefused r out argument))
              | inl a ↦
                  let (step, clean, sound) = from_ready r s (ground (arith, d)) in
                  let h = request-IsSent r.capability cred opt out a tunnel connector (size t) in
                  let end =
                    build_end (put_request (build_init out tx_max).1 r.capability cred opt) in
                  rw (a, wiped_lem r registering end h.fine)
                    (inr (sent-IsMade r registering end step (clean, sound) clean h))
            ])
          ])
  ]

-- From a sound state, every call of the registration is refused, and then it returns an error, hands no
-- byte out and changes neither the state nor the buffer; or it makes one move of the protocol `Moves`
-- to a sound state, reports the error that it stored, and hands out at most two whole messages, within
-- the buffer, which keeps its size. The arrays in the arguments have the sizes of their types.
pub reply_to-IsMade :
    (c : Call) (r : Rpc) (out : Bytes) (capacity : ℕ)
    → IsSound r
    → HasSizes c
    → (output_ok capacity ≡ true → length out ≡ tx_max)
    → IsRefused r out (reply_to c r out capacity) ⊎ IsMade r (reply_to c r out capacity)
unfolding reply_to
reply_to-IsMade begins r out capacity s sizes size = begin-IsMade r out capacity s size
reply_to-IsMade unregisters r out capacity s sizes size = unregister-IsMade r out capacity s size
reply_to-IsMade (registers cred opt) r out capacity s (tunnel, connector) size =
    register-IsMade r out capacity s size cred opt tunnel connector
reply_to-IsMade (receives frame) r out capacity s sizes size =
    receive-IsMade r frame out capacity s size

-- The state after a call, by the two cases.
after :
    (r : Rpc) (out : Bytes) (reply : Reply)
    → IsSound r
    → IsRefused r out reply ⊎ IsMade r reply
    → IsSound reply.rpc
after r out reply s (inl h) = rw h.same s
after r out reply s (inr h) = h.sound

-- After any calls of an initialised registration, in any order, with any arguments and whatever the edge
-- sends, the state is sound: a state that calls the capability has imported it, a registered connection
-- is managed remotely, has an id of 16 bytes and a printable location of 1 to 31 bytes, and an error is
-- stored if and only if the registration has failed.
pub run-IsSound :
    (cs : List Call) (out : Bytes) (capacity : ℕ)
    → All HasSizes cs
    → (output_ok capacity ≡ true → length out ≡ tx_max)
    → IsSound (run out capacity init cs)
unfolding init run
run-IsSound cs out capacity sizes size = from init cs sizes start
  where
    start : IsSound init
    start = ground arith

    from :
        (r : Rpc) (cs : List Call) → All HasSizes cs → IsSound r → IsSound (run out capacity r cs)
    from r [] sizes s = s
    from r (c ∷ cs) (one, rest) s =
        from (reply_to c r out capacity).rpc cs rest
          (after r out _ s (reply_to-IsMade c r out capacity s one size))

-- The end of a registration: it has failed, is closed or is rejected.
abbrev pub is_over : State → Bool
is_over failed = true
is_over closed = true
is_over rejected = true
is_over _ = false

over_stays :
    (c : Call) (r : Rpc) (out : Bytes) (capacity : ℕ)
    → is_over r.phase ≡ true
    → (reply_to c r out capacity).rpc ≡ r
unfolding reply_to begin register unregister receive
over_stays begins r out capacity h = ground (arith, h)
over_stays unregisters r out capacity h = ground (arith, h)
over_stays (registers cred opt) r out capacity h = ground (arith, h)
over_stays (receives frame) r out capacity h = ground (arith, h)

-- A registration that is over stays as it is, whatever calls follow: it has to be reset.
pub run-over :
    (cs : List Call) (r : Rpc) (out : Bytes) (capacity : ℕ)
    → is_over r.phase ≡ true
    → run out capacity r cs ≡ r
unfolding run reply_to
run-over [] r out capacity h = refl
run-over (c ∷ cs) r out capacity h =
    rw (over_stays c r out capacity h) (run-over cs r out capacity h)

-- In READY, with accepted arguments and a buffer that is large enough, `cf_rpc_register` succeeds: the
-- request fits, whatever the sizes of the credentials and the options; the buffer holds it as one message.
pub register_fits :
    (r : Rpc) (cred : Credentials) (opt : Options) (out : Bytes) (capacity : ℕ)
    → r.phase ≡ ready
    → r.have_capability ≡ true
    → is_accepted cred opt ≡ true
    → length cred.tunnel_id ≡ 16
    → length opt.connector_id ≡ 16
    → tx_max ≤ capacity
    → length out ≡ tx_max
    → let reply = register r cred opt out capacity in
      (reply.result ≡ none)
      × (reply.rpc ≡ record r { phase = registering })
      × IsFrame tx_max (take reply.written reply.buffer)
unfolding register output_ok
register_fits r cred opt out capacity p have a tunnel connector room size =
    let h = request-IsSent r.capability cred opt out a tunnel connector size in
    let end = build_end (put_request (build_init out tx_max).1 r.capability cred opt) in
    let large : output_ok capacity ≡ true = ground (arith, room) in
    let good : not (is_ready r.phase) || not r.have_capability ≡ false = ground (arith, p, have) in
    rw (register, large, good, a, wiped_lem r registering end h.fine)
      (h.fine, rw (h.fine) refl, h.framed)

-- The delay that the edge asks for, in 64 bits of two's complement, is rounded up from nanoseconds to
-- milliseconds; a negative one is no delay.
pub retry_ms_lem :
    (ns : ℕ)
    → ns < 0x1_0000_0000_0000_0000
    → let delay = if ltb ns 0x8000_0000_0000_0000 then ns else 0 in
      (delay ≤ retry_ms ns * 1000000) × (retry_ms ns * 1000000 < delay + 1000000)
unfolding retry_ms
retry_ms_lem ns h = ground (arith, h)

-- ===== src/Rpc/Answers.antt =====
-- What a message from the edge does to the registration: `cf_rpc_receive` of cf_rpc.c.
use esp_cf_tunnel.Prelude.{
  ℕ, ◌≡◌, refl, ◌⊎◌, inl, inr, true, false, none, some, length, arith, Bool-cases, Option-cases,
}
use esp_cf_tunnel.Core.{Bytes, Result-cases, argument, state, unsupported}
use esp_cf_tunnel.Capnp.Checks.{Value, Reader, read_init}
use esp_cf_tunnel.Capnp.Reader.{field, uint}
use esp_cf_tunnel.Capnp.Follow.{root}
use esp_cf_tunnel.Rpc.{
  State, Rpc, tx_max, output_ok, finish, bootstrapping, registering, unregistering,
}
use esp_cf_tunnel.Rpc.Requests.{finish-IsSent}
use esp_cf_tunnel.Rpc.Receive.{
  receive, on_message, on_answer, on_results, on_exception, on_abort, bootstrap_result, call_result,
  registration_result, unregister_result, on_rejection, on_acceptance, expected_in, is_deaf,
  is_bootstrapping, required_struct,
}
use esp_cf_tunnel.Rpc.Steps.{
  imports, is_accepted_by, is_refused_by, ends, breaks, IsSound, IsMade, IsRefused, IsAnswered,
  refuse-IsRefused, fail-IsMade, settle-IsMade, single,
}

asked :
    (s : State) (n : ℕ)
    → expected_in s ≡ some n
    → (s ≡ bootstrapping) × (n ≡ 0) ⊎ (s ≡ registering) × (n ≡ 1) ⊎ (s ≡ unregistering) × (n ≡ 2)
unfolding expected_in
asked s n h = ground (arith, h)

module _ (r : Rpc) where
  bootstrap_result-IsAnswered :
      (rd : Reader) (payload : Value)
      → IsSound r
      → r.phase ≡ bootstrapping
      → (bootstrap_result r rd payload).0 ≡ none
      → IsAnswered r (bootstrap_result r rd payload).1
  unfolding bootstrap_result
  bootstrap_result-IsAnswered rd payload s p h = ground (arith, s, p, h, imports)

  on_rejection-IsAnswered :
      (rd : Reader) (details : Value)
      → IsSound r
      → r.phase ≡ registering
      → (on_rejection r rd details).0 ≡ none
      → IsAnswered r (on_rejection r rd details).1
  unfolding on_rejection
  on_rejection-IsAnswered rd details s p h = ground (arith, s, p, h, is_refused_by)

  on_acceptance-IsAnswered :
      (rd : Reader) (details : Value)
      → IsSound r
      → r.phase ≡ registering
      → (on_acceptance r rd details).0 ≡ none
      → IsAnswered r (on_acceptance r rd details).1
  unfolding on_acceptance
  on_acceptance-IsAnswered rd details s p h = ground (arith, s, p, h, is_accepted_by)

  registration_result-IsAnswered :
      (rd : Reader) (payload : Value)
      → IsSound r
      → r.phase ≡ registering
      → (registration_result r rd payload).0 ≡ none
      → IsAnswered r (registration_result r rd payload).1
  unfolding registration_result
  registration_result-IsAnswered rd payload s p h =
      let (results, r1) = required_struct (field rd payload 0) in
      let (response, r2) = required_struct (field r1 results 0) in
      let (kind, r3) = uint r2 response 0 2 in
      let (details, r4) = required_struct (field r3 response 0) in
      let refused = on_rejection-IsAnswered r4 details s p in
      let accepted = on_acceptance-IsAnswered r4 details s p in
      ground (arith, s, p, h, refused, accepted)

  unregister_result-IsAnswered :
      (rd : Reader) (payload : Value)
      → IsSound r
      → r.phase ≡ unregistering
      → IsAnswered r (unregister_result r rd payload).1
  unfolding unregister_result
  unregister_result-IsAnswered rd payload s p = ground (arith, s, p, ends)

  call_result-IsAnswered :
      (rd : Reader) (payload : Value) (expected : ℕ)
      → IsSound r
      → (r.phase ≡ registering) × (expected ≡ 1) ⊎ (r.phase ≡ unregistering) × (expected ≡ 2)
      → (call_result r rd payload expected).0 ≡ none
      → IsAnswered r (call_result r rd payload expected).1
  unfolding call_result
  call_result-IsAnswered rd payload expected s p h =
      let (caps, r1) = field rd payload 1 in
      ground (
        arith,
        s,
        p,
        h,
        registration_result-IsAnswered r1 payload s,
        unregister_result-IsAnswered r1 payload s,
      )

  on_results-IsMade :
      (rd : Reader) (ret : Value) (answer : ℕ) (out : Bytes)
      → IsSound r
      → expected_in r.phase ≡ some answer
      → length out ≡ tx_max
      → IsMade r (on_results r rd ret answer out)
  unfolding on_results expected_in
  on_results-IsMade rd ret answer out s p size =
      let (payload, r1) = required_struct (field rd ret 0) in
      settle-IsMade r _ answer (is_bootstrapping r.phase) out (ground (arith, p))
        (λ h. ground (
          arith,
          asked r.phase answer p,
          h,
          bootstrap_result-IsAnswered r1 payload s,
          call_result-IsAnswered r1 payload answer s,
        ))
        size

  on_exception-IsMade :
      (rd : Reader) (ret : Value) (answer : ℕ) (out : Bytes)
      → is_deaf r.phase ≡ false
      → length out ≡ tx_max
      → IsMade r (on_exception r rd ret answer out)
  unfolding on_exception
  on_exception-IsMade rd ret answer out alive size =
      let f = finish-IsSent answer true out size in
      record {
        step = breaks r.phase alive;
        sound = λ z. ground (arith, z);
        reported = refl;
        kept = f.kept;
        fits = f.fits;
        messages = single (finish answer true out tx_max) f;
      }

  on_abort-IsMade :
      (rd : Reader) (ret : Value) (out : Bytes)
      → is_deaf r.phase ≡ false
      → length out ≡ tx_max
      → IsMade r (on_abort r rd ret out)
  unfolding on_abort
  on_abort-IsMade rd ret out alive size = fail-IsMade r r _ false out alive size

  on_answer-IsMade :
      (rd : Reader) (ret : Value) (expected : ℕ) (out : Bytes)
      → IsSound r
      → expected_in r.phase ≡ some expected
      → is_deaf r.phase ≡ false
      → length out ≡ tx_max
      → IsMade r (on_answer r rd ret expected out)
  unfolding on_answer
  on_answer-IsMade rd ret expected out s p alive size =
      let (id, r1) = uint rd ret 0 4 in
      let (result_kind, r2) = uint r1 ret 6 2 in
      elim (Option-cases r2.error) [
        | inr (e, t) ↦ rw (on_answer, t) (fail-IsMade r r e true out alive size)
        | inl t ↦
            rw (on_answer, t)
              (ground (
                arith,
                on_exception-IsMade r2 ret expected out alive size,
                on_results-IsMade r2 ret expected out s p size,
                fail-IsMade r r state true out alive size,
                fail-IsMade r r unsupported true out alive size,
              ))
      ]

  on_message-IsMade :
      (rd : Reader) (out : Bytes)
      → IsSound r
      → is_deaf r.phase ≡ false
      → length out ≡ tx_max
      → IsMade r (on_message r rd out)
  unfolding on_message
  on_message-IsMade rd out s alive size =
      let (message, r1) = required_struct (root rd) in
      let (kind, r2) = uint r1 message 0 2 in
      let (ret, r3) = required_struct (field r2 message 0) in
      elim (Option-cases r3.error) [
        | inr (e, t) ↦ rw (on_message, t) (fail-IsMade r r e true out alive size)
        | inl t ↦
            rw (on_message, t)
              (elim (Option-cases (expected_in r.phase)) [
                | inl k ↦ rw k (
                    ground (
                      arith,
                      on_abort-IsMade r3 ret out alive size,
                      fail-IsMade r r state true out alive size,
                      fail-IsMade r r unsupported true out alive size,
                    ))
                | inr (n, k) ↦ rw k (
                    ground (
                      arith,
                      on_abort-IsMade r3 ret out alive size,
                      fail-IsMade r r unsupported true out alive size,
                      on_answer-IsMade r3 ret n out s k alive size,
                    ))
              ])
      ]

  -- Whatever bytes the edge sends, in whatever state, the call is refused and changes nothing, or it
  -- makes one move of the protocol.
  pub receive-IsMade :
      (frame out : Bytes) (capacity : ℕ)
      → IsSound r
      → (output_ok capacity ≡ true → length out ≡ tx_max)
      → IsRefused r out (receive r frame out capacity) ⊎ IsMade r (receive r frame out capacity)
  unfolding receive
  receive-IsMade frame out capacity s size = elim (Bool-cases (output_ok capacity)) [
    | inr t ↦ rw (receive, t) (inl (refuse-IsRefused r out argument))
    | inl t ↦
        rw (receive, t)
          (elim (Bool-cases (is_deaf r.phase)) [
            | inl d ↦ rw d (inl (refuse-IsRefused r out state))
            | inr d ↦ rw d (
                inr (elim (Result-cases (read_init frame)) [
                  | inl (rd, k) ↦ rw k (on_message-IsMade rd out s d (size t))
                  | inr (e, k) ↦ rw k (fail-IsMade r r e true out d (size t))
                ]))
          ])
  ]

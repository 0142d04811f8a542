-- ===== src/Framing/Chunks.antt =====
-- Where the transport cuts the stream makes no difference to `cf_capnp_feed`
-- (cf_capnp_framing.c).
use native.Mathlib.Nat.{add_assoc, add-zero, zero-add}
use esp_cf_tunnel.Prelude.{
  ℕ, ◌+◌, ◌≤◌, ◌≡◌, refl, ap, ◌∙◌, Option, none, some, [], ◌∷◌, ◌++◌, length, arith, length-append,
  inl, inr, Option-cases,
}
use esp_cf_tunnel.Core.{Bytes, CfResult}
use esp_cf_tunnel.Framing.{Framer, Fed, feed}
use esp_cf_tunnel.Framing.Valid.{IsValid, extend, extend-IsSound, complete-IsValid}
use esp_cf_tunnel.Framing.Bytewise.{feed_byte, feed_bytes, feed_loop-eq-feed_bytes}

module _ {C : Type 0} (on_message : C → Bytes → C × CfResult) where
  -- A further call of `cf_capnp_feed`, unless the one before failed; `consumed` counts both.
  abbrev pub resume : Fed C → Bytes → Option (Fed C)
  resume r input = elim r.result [
    | some e ↦ some r
    | none ↦ elim (feed on_message r.framer input r.context) [
      | some q ↦ some (record q { consumed = r.consumed + q.consumed })
      | none ↦ none
    ]
  ]

  pub feed_byte-IsValid :
      (f : Framer) (c : C) (b : ℕ)
      → IsValid f
      → (feed_byte on_message f c b).2 ≡ none
      → IsValid (feed_byte on_message f c b).0
  unfolding feed_byte
  feed_byte-IsValid f c b v e =
      complete-IsValid on_message (extend f (b ∷ [])) c (extend-IsSound f (b ∷ []) v.sound)
        (omega (arith, v.room, length-append f.received (b ∷ []))) e

  -- A successful call leaves a valid framer.
  feed_bytes-IsValid :
      (xs : Bytes) (f : Framer) (c : C) (n : ℕ)
      → IsValid f
      → (feed_bytes on_message xs f c n).result ≡ none
      → IsValid (feed_bytes on_message xs f c n).framer
  unfolding feed_bytes
  feed_bytes-IsValid [] f c n v e = v
  feed_bytes-IsValid (x ∷ xs) f c n v e =
      let step = feed_byte on_message f c x in
      elim (Option-cases step.2) [
        | inl p ↦
            ground
              (arith, feed_bytes-IsValid xs step.0 step.1 (n + 1) (feed_byte-IsValid f c x v p))
        | inr (y, p) ↦ ground arith
      ]

  feed_bytes_shift :
      (xs : Bytes) (f : Framer) (c : C) (m n : ℕ)
      → feed_bytes on_message xs f c (m + n)
        ≡ (let r = feed_bytes on_message xs f c n in record r { consumed = m + r.consumed })
  unfolding feed_bytes
  feed_bytes_shift [] f c m n = refl
  feed_bytes_shift (x ∷ xs) f c m n =
      let step = feed_byte on_message f c x in
      ground (arith, feed_bytes_shift xs step.0 step.1 m (n + 1), add_assoc m n 1)

  feed_bytes-append :
      (a b : Bytes) (f : Framer) (c : C) (n : ℕ)
      → let r = feed_bytes on_message a f c n in
        feed_bytes on_message (a ++ b) f c n ≡ elim r.result [
          | some e ↦ r
          | none ↦ feed_bytes on_message b r.framer r.context r.consumed
        ]
  unfolding feed_bytes
  feed_bytes-append [] b f c n = refl
  feed_bytes-append (x ∷ a) b f c n =
      let step = feed_byte on_message f c x in
      ground (arith, feed_bytes-append a b step.0 step.1 (n + 1))

  pub feed-eq-feed_bytes :
      (f : Framer) (xs : Bytes) (c : C)
      → IsValid f
      → feed on_message f xs c ≡ some (feed_bytes on_message xs f c 0)
  unfolding feed
  feed-eq-feed_bytes f xs c v =
      ground
        (arith, v.clean, feed_loop-eq-feed_bytes on_message (length xs) xs f c 0 (omega arith) v)

  feed_bytes_consumed :
      (xs : Bytes) (f : Framer) (c : C) (n : ℕ)
      → let r = feed_bytes on_message xs f c n in
        (r.result ≡ none → r.consumed ≡ n + length xs) × (r.consumed ≤ n + length xs)
  unfolding feed_bytes
  feed_bytes_consumed [] f c n = (λ e. omega arith, omega arith)
  feed_bytes_consumed (x ∷ xs) f c n =
      let step = feed_byte on_message f c x in
      elim (Option-cases step.2) [
        | inl p ↦
            let ih = feed_bytes_consumed xs step.0 step.1 (n + 1) in
            (λ e. ground (arith, ih), ground (arith, ih))
        | inr (y, p) ↦ (λ e. ground arith, ground arith)
      ]

  -- A call of `cf_capnp_feed` on a valid framer always returns, a success leaves the framer valid
  -- and consumes the whole input, and a failure consumes no more than the input.
  pub feed-total :
      (f : Framer) (input : Bytes) (c : C)
      → IsValid f
      → (r : Fed C) × (feed on_message f input c ≡ some r)
        × (r.result ≡ none → IsValid r.framer × (r.consumed ≡ length input))
        × (r.consumed ≤ length input)
  feed-total f input c v =
      let (all, most) = feed_bytes_consumed input f c 0 in
      (
        feed_bytes on_message input f c 0,
        feed-eq-feed_bytes f input c v,
        λ e. (feed_bytes-IsValid input f c 0 v e, all e ∙ zero-add (length input)),
        omega (arith, most),
      )

  resume-feed_bytes :
      (f : Framer) (a b : Bytes) (c : C)
      → IsValid f
      → some (feed_bytes on_message (a ++ b) f c 0) ≡ resume (feed_bytes on_message a f c 0) b
  resume-feed_bytes f a b c v =
      let r = feed_bytes on_message a f c 0 in
      elim (Option-cases r.result) [
        | inl e ↦ ground (
          arith,
          feed_bytes-append a b f c 0,
          feed_bytes_shift b r.framer r.context r.consumed 0,
          add-zero r.consumed,
          feed-eq-feed_bytes r.framer b r.context (feed_bytes-IsValid a f c 0 v e),
        )
        | inr (x, e) ↦ ground (arith, feed_bytes-append a b f c 0)
      ]

  -- Feeding the stream in two pieces, cut anywhere, does what feeding it whole does: the callback's
  -- context, the framer, the count and the result are the same.
  pub feed-append :
      (f : Framer) (a b : Bytes) (c : C) {r : Fed C}
      → IsValid f
      → feed on_message f a c ≡ some r
      → feed on_message f (a ++ b) c ≡ resume r b
  feed-append f a b c {r} v h =
      let e : feed_bytes on_message a f c 0 ≡ r = cc (feed-eq-feed_bytes f a c v) in
      feed-eq-feed_bytes f (a ++ b) c v ∙ resume-feed_bytes f a b c v ∙ ap (λ q. resume q b) e

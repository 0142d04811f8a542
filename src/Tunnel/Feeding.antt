-- ===== src/Tunnel/Feeding.antt =====
-- What the callback of the framer keeps, a whole feed keeps (cf_capnp_framing.c, as esp_cf_tunnel.c uses it).
use esp_cf_tunnel.Prelude.{
  ℕ, zero, suc, ◌+◌, ◌-◌, ◌≡◌, inl, inr, some, [], ◌∷◌, ◌++◌, min, length, take, drop, arith,
  Bool-cases, Option-cases, ◌==◌,
}
use mathlib.Core.Path.{subst}
use mathlib.Core.Option.{some-injective}
use esp_cf_tunnel.Core.{Bytes, CfResult}
use esp_cf_tunnel.Framing.{Framer, Fed, deliver, on_phase, complete, feed_loop, feed}

module _ {C : Type 0} (on_message : C → Bytes → C × CfResult) (P : C → Type 0)
    (keeps : (c : C) (frame : Bytes) → P c → P (on_message c frame).0) where
  deliver-keeps : (f : Framer) (c : C) → P c → P (deliver on_message f c).1
  unfolding deliver
  deliver-keeps f c p = elim (Option-cases (on_message c f.received).1) [
    | inl t ↦ rw (deliver, t) (keeps c f.received p)
    | inr (e, t) ↦ rw (deliver, t) (keeps c f.received p)
  ]

  phase-keeps : (n : ℕ) (f : Framer) (c : C) → P c → P (on_phase on_message n f c).1
  unfolding on_phase
  phase-keeps zero f c p = p
  phase-keeps (suc zero) f c p = p
  phase-keeps (suc (suc n)) f c p = deliver-keeps f c p

  complete-keeps : (f : Framer) (c : C) → P c → P (complete on_message f c).1
  unfolding complete
  complete-keeps f c p = elim (Bool-cases (length f.received == f.target)) [
    | inl t ↦ rw (complete, t) (phase-keeps f.phase f c p)
    | inr t ↦ rw (complete, t) p
  ]

  loop-keeps :
      (fuel : ℕ) (input : Bytes) (f : Framer) (c : C) (consumed : ℕ) (fed : Fed C)
      → P c
      → feed_loop on_message fuel input f c consumed ≡ some fed
      → P fed.context
  unfolding feed_loop
  loop-keeps fuel [] f c consumed fed p h = subst (λ z. P z.context) (some-injective _ fed h) p
  loop-keeps zero (b ∷ bs) f c consumed fed p h = absurd (ground (arith, h))
  loop-keeps (suc fuel) (b ∷ bs) f c consumed fed p h =
      let n = min (f.target - length f.received) (length (b ∷ bs)) in
      let filled : Framer = record f { received = f.received ++ take n (b ∷ bs) } in
      let step = complete on_message filled c in
      let q = complete-keeps filled c p in
      elim (Option-cases step.2) [
        | inr (e, t) ↦ subst (λ z. P z.context) (some-injective _ fed (rw (feed_loop, t) at h)) q
        | inl t ↦
            loop-keeps fuel (drop n (b ∷ bs)) step.0 step.1 (consumed + n) fed q
              (rw (feed_loop, t) at h)
      ]

  pub feed-keeps :
      (f : Framer) (input : Bytes) (c : C) (fed : Fed C)
      → P c
      → feed on_message f input c ≡ some fed
      → P fed.context
  unfolding feed
  feed-keeps f input c fed p h = elim (Option-cases f.error) [
    | inl t ↦ loop-keeps (length input) input f c 0 fed p (rw (feed, t) at h)
    | inr (e, t) ↦ subst (λ z. P z.context) (some-injective _ fed (rw (feed, t) at h)) p
  ]

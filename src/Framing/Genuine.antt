-- ===== src/Framing/Genuine.antt =====
-- Nothing but well-formed messages reaches the callback of `cf_capnp_feed` (cf_capnp_framing.c).
use esp_cf_tunnel.Prelude.{
  ℕ, zero, suc, ◌+◌, ◌≡◌, refl, ap, sym, ◌∙◌, some, [], ◌∷◌, length, arith, inl, inr, Option-cases,
  Bool-cases, ==_iff, ◌==◌,
}
use esp_cf_tunnel.Core.{Bytes, CfResult}
use esp_cf_tunnel.Framing.{Framer, reset, complete, on_phase, read_count, read_table, deliver, feed}
use esp_cf_tunnel.Framing.Valid.{PhaseFits, IsSound, IsValid, extend, extend-IsSound}
use esp_cf_tunnel.Framing.Bytewise.{feed_byte, feed_bytes}
use esp_cf_tunnel.Framing.Chunks.{feed-eq-feed_bytes, feed_byte-IsValid}
use esp_cf_tunnel.Framing.Deliver.{IsFrame}

module _ {C : Type 0} (f_message g_message : C → Bytes → C × CfResult) (most : ℕ)
    (agree : (c : C) (m : Bytes) → IsFrame most m → f_message c m ≡ g_message c m) where
  on_phase-agree :
      (p : ℕ) (f : Framer) (c : C)
      → PhaseFits p f
      → f.capacity ≡ most
      → length f.received ≡ f.target
      → on_phase f_message p f c ≡ on_phase g_message p f c
  unfolding on_phase deliver
  on_phase-agree zero f c h e l = refl
  on_phase-agree (suc zero) f c h e l = refl
  on_phase-agree (suc (suc zero)) f c (a, b, k, d) e l =
      let w : IsFrame most f.received = record { few = omega arith; sized = cc } in
      ground (arith, agree c f.received w)
  on_phase-agree (suc (suc (suc n))) f c h e l = absurd h

  complete-agree :
      (f : Framer) (c : C)
      → IsSound f
      → f.capacity ≡ most
      → complete f_message f c ≡ complete g_message f c
  unfolding complete
  complete-agree f c v e = elim (Bool-cases (length f.received == f.target)) [
    | inl t ↦ rw t (on_phase-agree f.phase f c v.header e ((==_iff _ _).0 t))
    | inr t ↦ rw t
  ]

  on_phase-capacity :
      (p : ℕ) (f : Framer) (c : C) → (on_phase f_message p f c).0.capacity ≡ f.capacity
  unfolding on_phase read_count read_table deliver reset
  on_phase-capacity zero f c = ground arith
  on_phase-capacity (suc zero) f c = ground arith
  on_phase-capacity (suc (suc n)) f c = ground arith

  complete-capacity : (f : Framer) (c : C) → (complete f_message f c).0.capacity ≡ f.capacity
  unfolding complete
  complete-capacity f c = ground (arith, on_phase-capacity f.phase f c)

  feed_bytes-agree :
      (xs : Bytes) (f : Framer) (c : C) (n : ℕ)
      → IsValid f
      → f.capacity ≡ most
      → feed_bytes f_message xs f c n ≡ feed_bytes g_message xs f c n
  unfolding feed_bytes feed_byte
  feed_bytes-agree [] f c n v e = refl
  feed_bytes-agree (x ∷ xs) f c n v e =
      let step = feed_byte f_message f c x in
      let same = complete-agree (extend f (x ∷ [])) c (extend-IsSound f (x ∷ []) v.sound) e in
      elim (Option-cases step.2) [
        | inl p ↦ ground (
          arith,
          same,
          feed_bytes-agree xs step.0 step.1 (n + 1) (feed_byte-IsValid f_message f c x v p)
              (complete-capacity (extend f (x ∷ [])) c ∙ e),
        )
        | inr (y, p) ↦ ground (arith, same)
      ]

  -- Callbacks that differ only on malformed bytes cannot be told apart: whatever the input, and however
  -- it is malformed, the callback is called on well-formed messages alone.
  pub feed-agree :
      (f : Framer) (input : Bytes) (c : C)
      → IsValid f
      → f.capacity ≡ most
      → feed f_message f input c ≡ feed g_message f input c
  feed-agree f input c v e =
      feed-eq-feed_bytes f_message f input c v
      ∙ ap some (feed_bytes-agree input f c 0 v e)
      ∙ sym (feed-eq-feed_bytes g_message f input c v)
